-- ===== src/Fingerprint/Compare.antt =====
-- The two sides of a comparison see the same fingerprints.
use libsignal_zig.Prelude.{
  ℕ, zero, suc, ◌+◌, ◌-◌, ◌≤◌, ◌≡◌, refl, true, false, ◌&&◌, ltb, le→ltb, Bool-cases, inl, inr,
  List, [], ◌∷◌, ◌++◌, length, take, if◌then◌else◌, eql, arith, length-take, append_assoc,
  append-nil,
}
use libsignal_zig.Prelude.Bytes.{Bytes, IsU32, write_le}
use libsignal_zig.Prelude.Result.{ok}
use libsignal_zig.Crypto.{Crypto}
use libsignal_zig.Curve.{PublicKey, IsPublicKey, serialize_public_key, length-serialize_public_key}
use libsignal_zig.Proto.{Field}
use libsignal_zig.Proto.Fields.{encode_fields, run_fields}
use libsignal_zig.Proto.Writes.{
  varint_field, bytes_field, write_varint_field_lem, write_bytes_field_lem,
}
use libsignal_zig.Proto.Switch.{parse_fields-budget}
use libsignal_zig.Fingerprint.{
  ScannableFingerprint, less_than, hash_for_display, hash_rounds, iterative_hash,
  compute_displayable_raw, compute_scannable, compute, serialize_scannable, side_field, no_sides,
  compare_to, iterations, fingerprint_version, display_groups,
}

less_than_connected : (xs ys : Bytes) → less_than xs ys ≡ false → less_than ys xs ≡ false → xs ≡ ys
unfolding less_than
less_than_connected [] [] h g = refl
less_than_connected [] (y ∷ ys) h g = absurd cc
less_than_connected (x ∷ xs) [] h g = absurd cc
less_than_connected (x ∷ xs) (y ∷ ys) h g = ground (arith, less_than_connected xs ys)

less_than_asym : (xs ys : Bytes) → less_than xs ys ≡ true → less_than ys xs ≡ false
unfolding less_than
less_than_asym [] [] h = refl
less_than_asym [] (y ∷ ys) h = refl
less_than_asym (x ∷ xs) [] h = absurd cc
less_than_asym (x ∷ xs) (y ∷ ys) h = ground (arith, less_than_asym xs ys)

ordered_symmetric :
    (xs ys : Bytes)
    → ((if less_than xs ys then xs else ys) ≡ (if less_than ys xs then ys else xs))
      × ((if less_than xs ys then ys else xs) ≡ (if less_than ys xs then xs else ys))
ordered_symmetric xs ys = elim (Bool-cases (less_than xs ys)) [
  | inl lt ↦ (rw (lt, less_than_asym xs ys lt), rw (lt, less_than_asym xs ys lt))
  | inr nlt ↦ elim (Bool-cases (less_than ys xs)) [
    | inl gt ↦ (rw (nlt, gt), rw (nlt, gt))
    | inr ngt ↦
        let same = less_than_connected xs ys nlt ngt in (rw (nlt, ngt, same), rw (nlt, ngt, same))
  ]
]

-- The displayed digits do not depend on which side is the local one.
pub compute_displayable_raw_symmetric :
    (crypto : Crypto) (key id key' id' : Bytes)
    → compute_displayable_raw crypto key id key' id'
      ≡ compute_displayable_raw crypto key' id' key id
unfolding compute_displayable_raw hash_for_display
compute_displayable_raw_symmetric crypto key id key' id' =
    elim (Bool-cases (ltb 128 (length key + length id))) [
      | inl long ↦ elim (Bool-cases (ltb 128 (length key' + length id'))) [
        | inl long' ↦ rw (long, long')
        | inr short' ↦ rw (long, short')
      ]
      | inr short ↦ elim (Bool-cases (ltb 128 (length key' + length id'))) [
        | inl long' ↦ rw (short, long')
        | inr short' ↦
            let x = take 30 (iterative_hash crypto (key ++ id) iterations) in
            let y = take 30 (iterative_hash crypto (key' ++ id') iterations) in
            let (first, second) = ordered_symmetric x y in rw (short, short', first, second)
      ]
    ]

pub record IsScannable (s : ScannableFingerprint) : Type 0 where
  pub version : IsU32 s.version
  pub local_fingerprint : length s.local_fingerprint ≡ 32
  pub remote_fingerprint : length s.remote_fingerprint ≡ 32

abbrev pub scannable_fields : ScannableFingerprint → List Field
scannable_fields s =
    varint_field 1 s.version
    ∷ bytes_field 2 s.local_fingerprint
    ∷ bytes_field 3 s.remote_fingerprint
    ∷ []

pub serialize_scannable_lem :
    (s : ScannableFingerprint) → serialize_scannable s ≡ encode_fields (scannable_fields s)
unfolding serialize_scannable encode_fields
serialize_scannable_lem s =
    rw
      (
        write_bytes_field_lem _ 3 (omega arith) s.remote_fingerprint,
        write_bytes_field_lem _ 2 (omega arith) s.local_fingerprint,
        write_varint_field_lem [] 1 (omega arith) s.version,
      )
      (simp (append_assoc, append-nil))

-- A serialized fingerprint matches one's own where it has the two sides the other way round.
pub compare_to-serialize_scannable :
    (s t : ScannableFingerprint)
    → IsScannable t
    → compare_to s (serialize_scannable t)
      ≡ ok (
          eql s.local_fingerprint t.remote_fingerprint
          && eql s.remote_fingerprint t.local_fingerprint)
unfolding compare_to side_field run_fields
compare_to-serialize_scannable s t valid =
    let l = valid.local_fingerprint in
    let r = valid.remote_fingerprint in
    let v = valid.version in
    rw (
      serialize_scannable_lem t,
      parse_fields-budget side_field (scannable_fields t) no_sides (omega (arith, l, r, v))
          (omega (arith, l, r)),
      l,
      r,
    )

length-hash_rounds :
    (crypto : Crypto) (n : ℕ) (input current : Bytes)
    → length current ≡ 64
    → length (hash_rounds crypto n input current) ≡ 64
unfolding hash_rounds
length-hash_rounds crypto zero input current h = h
length-hash_rounds crypto (suc n) input current h =
    length-hash_rounds crypto n input (crypto.sha512 (current ++ input))
      (crypto.length-sha512 (current ++ input))

length-iterative_hash :
    (crypto : Crypto) (input : Bytes) (count : ℕ) → length (iterative_hash crypto input count) ≡ 64
unfolding iterative_hash
length-iterative_hash crypto input count =
    length-hash_rounds crypto (count - 1) input _
      (crypto.length-sha512 (write_le 4 fingerprint_version ++ input))

module _ (crypto : Crypto) (key key' : PublicKey) (id id' : Bytes) (hk : IsPublicKey key)
    (hk' : IsPublicKey key') (short : length id ≤ 67) (short' : length id' ≤ 67) where
  abbrev fingerprint_of : PublicKey → Bytes → Bytes
  fingerprint_of k i = take 32 (iterative_hash crypto (serialize_public_key k ++ i) iterations)

  abbrev pub sides_of : ScannableFingerprint
  sides_of = record {
    version = fingerprint_version;
    local_fingerprint = fingerprint_of key id;
    remote_fingerprint = fingerprint_of key' id';
  }

  pub sides_of-IsScannable : IsScannable sides_of
  sides_of-IsScannable = record {
    version = omega arith;
    local_fingerprint = omega (
      arith,
      length-take 32 (iterative_hash crypto (serialize_public_key key ++ id) iterations),
      length-iterative_hash crypto (serialize_public_key key ++ id) iterations,
    );
    remote_fingerprint = omega (
      arith,
      length-take 32 (iterative_hash crypto (serialize_public_key key' ++ id') iterations),
      length-iterative_hash crypto (serialize_public_key key' ++ id') iterations,
    );
  }

  abbrev display_hash : PublicKey → Bytes → Bytes
  display_hash k i = take 30 (iterative_hash crypto (serialize_public_key k ++ i) iterations)

  abbrev pub display_of : Bytes
  display_of =
      display_groups 6 (
        if less_than (display_hash key id) (display_hash key' id')
        then display_hash key id
        else display_hash key' id')
      ++ display_groups 6 (
          if less_than (display_hash key id) (display_hash key' id')
          then display_hash key' id'
          else display_hash key id)

  -- For keys of 32 bytes and ids of at most 67, a fingerprint is computed, of the hashes of the
  -- two sides.
  pub compute_total :
      compute crypto key id key' id'
      ≡ ok (record { displayable = display_of; scannable = sides_of })
  unfolding compute compute_displayable_raw hash_for_display compute_scannable
  compute_total =
      let l = length-serialize_public_key key hk in
      let r = length-serialize_public_key key' hk' in
      rw (
        l,
        r,
        le→ltb 128 (33 + length id) (omega arith),
        le→ltb 128 (33 + length id') (omega arith),
        le→ltb 100 (33 + length id) (omega arith),
        le→ltb 100 (33 + length id') (omega arith),
      )
