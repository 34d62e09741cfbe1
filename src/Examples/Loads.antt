-- ===== src/Examples/Loads.antt =====
-- What the store callbacks of the example programs keep.
use libsignal_zig.Prelude.{
  ℕ, suc, ◌≡◌, ◌≢◌, refl, ap, ◌∙◌, some, length, if◌then◌else◌, ◌==◌, eql, eql_refl, eql_iff,
  Bool-cases, inl, inr, arith,
}
use libsignal_zig.Prelude.Bytes.{Bytes, IsU32, IsU64}
use libsignal_zig.Records.{
  PreKeyRecord, SignedPreKeyRecord, KyberPreKeyRecord, serialize_pre_key, serialize_signed_pre_key,
  serialize_kyber_pre_key,
}
use libsignal_zig.Records.RoundTrip.{
  IsKeyPair, IsKyberPreKey, deserialize-serialize_pre_key, deserialize-serialize_signed_pre_key,
  deserialize-serialize_kyber_pre_key,
}
use libsignal_zig.Ffi.{Outcome, success, Pointer, Buffer}
use libsignal_zig.Ffi.Records.{
  signal_pre_key_record_serialize, signal_pre_key_record_deserialize,
  signal_signed_pre_key_record_serialize, signal_signed_pre_key_record_deserialize,
  signal_kyber_pre_key_record_serialize, signal_kyber_pre_key_record_deserialize,
}
use libsignal_zig.Examples.Text.{decimal, decimal_injective}
use libsignal_zig.Examples.Stores.{
  Program, load_row, store_row, pk_load, pk_store_fn, spk_load, spk_store_fn, kpk_load,
  kpk_store_fn,
}
use libsignal_zig.Examples.Lawful.{IsProgram}

module _ (P : Program) (isP : IsProgram P) where
  pub load_row-store_row {ℓ} :
      {R : Type ℓ} (serialize : Pointer R → Outcome Buffer)
      (deserialize : Buffer → Outcome (Pointer R)) (r : R) (bytes : Bytes) (n : ℕ) (s : P.kv.Store)
      (k : Bytes)
      → serialize (some r) ≡ success bytes
      → deserialize bytes ≡ success (some r)
      → isP.lawful.IsKey k
      → isP.lawful.Room (suc n) s
      → (s' : P.kv.Store) × (store_row P serialize s k (some r) ≡ success s')
        × isP.lawful.Room n s'
        × ((j : Bytes)
            → load_row P deserialize s' j
              ≡ (if eql j k then success (some r) else load_row P deserialize s j))
  load_row-store_row serialize deserialize r bytes n s k made back fits room =
      let (s', put, room', found) = isP.lawful.get-put n s k bytes fits room in
      (
        s',
        rw made put,
        room',
        λ j. elim (Bool-cases (eql j k)) [
          | inl same ↦ rw (load_row, found j, same) back
          | inr other ↦ rw (load_row, found j, other)
        ],
      )

  decimal-eql : (i j : ℕ) → IsU32 i → IsU32 j → eql (decimal i) (decimal j) ≡ (i == j)
  decimal-eql i j hi hj =
      ground (arith, eql_iff (decimal i) (decimal j), decimal_injective i j hi hj, ap decimal)

  module _ {ℓ} {R : Type ℓ} (s' s : P.kv.Store) (deserialize : Buffer → Outcome (Pointer R))
      (k : Bytes) (out : Outcome (Pointer R))
      (found : (j : Bytes)
        → load_row P deserialize s' j ≡ (if eql j k then out else load_row P deserialize s j)) where
    pub found_same : load_row P deserialize s' k ≡ out
    found_same = found k ∙ rw (eql_refl k)

    pub found_other : (j : Bytes) → j ≢ k → load_row P deserialize s' j ≡ load_row P deserialize s j
    found_other j other = elim (Bool-cases (eql j k)) [
      | inl same ↦ absurd (other ((eql_iff j k).0 same))
      | inr apart ↦ found j ∙ rw apart
    ]

  -- A pre-key record that is stored is loaded under its id; other ids load what they did.
  pub pk_load-pk_store_fn :
      (n : ℕ) (s : P.kv.Store) (id : ℕ) (r : PreKeyRecord)
      → IsU32 id
      → IsU32 r.id
      → IsKeyPair r.key_pair
      → isP.lawful.Room (suc n) s
      → (s' : P.kv.Store) × (pk_store_fn P s id (some r) ≡ success s')
        × isP.lawful.Room n s'
        × ((j : ℕ)
            → IsU32 j
            → pk_load P s' j ≡ (if j == id then success (some r) else pk_load P s j))
  unfolding pk_load pk_store_fn
  pk_load-pk_store_fn n s id r hid small keys room =
      let (s', put, room', found) =
        load_row-store_row signal_pre_key_record_serialize signal_pre_key_record_deserialize r
          (serialize_pre_key r) n s (decimal id) refl
          (rw (deserialize-serialize_pre_key r small keys)) (isP.id_key id).1 room in
      (
        s',
        rw (isP.id_key id).0 put,
        room',
        λ j hj. rw ((isP.id_key j).0, ← decimal-eql j id hj hid) (found (decimal j)),
      )

  pub spk_load-spk_store_fn :
      (n : ℕ) (s : P.kv.Store) (id : ℕ) (r : SignedPreKeyRecord)
      → IsU32 id
      → IsU32 r.id
      → IsU64 r.timestamp
      → IsKeyPair r.key_pair
      → length r.signature ≡ 64
      → isP.lawful.Room (suc n) s
      → (s' : P.kv.Store) × (spk_store_fn P s id (some r) ≡ success s')
        × isP.lawful.Room n s'
        × ((j : ℕ)
            → IsU32 j
            → spk_load P s' j ≡ (if j == id then success (some r) else spk_load P s j))
  unfolding spk_load spk_store_fn
  spk_load-spk_store_fn n s id r hid small time keys signed room =
      let (s', put, room', found) =
        load_row-store_row signal_signed_pre_key_record_serialize
          signal_signed_pre_key_record_deserialize r (serialize_signed_pre_key r) n s (decimal id)
          refl (rw (deserialize-serialize_signed_pre_key r small time keys signed))
          (isP.id_key id).1 room in
      (
        s',
        rw (isP.id_key id).0 put,
        room',
        λ j hj. rw ((isP.id_key j).0, ← decimal-eql j id hj hid) (found (decimal j)),
      )

  pub kpk_load-kpk_store_fn :
      (n : ℕ) (s : P.kv.Store) (id : ℕ) (r : KyberPreKeyRecord)
      → IsU32 id
      → IsKyberPreKey r
      → isP.lawful.Room (suc n) s
      → (s' : P.kv.Store) × (kpk_store_fn P s id (some r) ≡ success s')
        × isP.lawful.Room n s'
        × ((j : ℕ)
            → IsU32 j
            → kpk_load P s' j ≡ (if j == id then success (some r) else kpk_load P s j))
  unfolding kpk_load kpk_store_fn
  kpk_load-kpk_store_fn n s id r hid valid room =
      let (s', put, room', found) =
        load_row-store_row signal_kyber_pre_key_record_serialize
          signal_kyber_pre_key_record_deserialize r (serialize_kyber_pre_key r) n s (decimal id)
          refl (rw (deserialize-serialize_kyber_pre_key r valid)) (isP.id_key id).1 room in
      (
        s',
        rw (isP.id_key id).0 put,
        room',
        λ j hj. rw ((isP.id_key j).0, ← decimal-eql j id hj hid) (found (decimal j)),
      )
