-- ===== src/Examples/Peers.antt =====
-- What the example programs' stores keep under the addresses of others: identities, sessions and
-- sender keys.
use libsignal_zig.Prelude.{
  ℕ, suc, ◌≡◌, ◌≢◌, refl, none, some, length, eql_refl, Option-cases, inl, inr,
}
use libsignal_zig.Prelude.Bytes.{Bytes}
use libsignal_zig.Prelude.Result.{Result, ok}
use libsignal_zig.Curve.{
  PublicKey, IsPublicKey, serialize_public_key, deserialize-serialize_public_key,
}
use libsignal_zig.SessionRecord.{SessionRecord, serialize_record, deserialize_record}
use libsignal_zig.Ffi.{success}
use libsignal_zig.Ffi.Address.{ProtocolAddress}
use libsignal_zig.Ffi.Records.{
  signal_session_record_serialize, signal_session_record_deserialize,
  signal_sender_key_record_serialize, signal_sender_key_record_deserialize,
}
use libsignal_zig.Ffi.Keys.{signal_publickey_serialize, signal_publickey_deserialize}
use libsignal_zig.Examples.Keys.{address_text, sender_key_text, address_text_injective}
use libsignal_zig.Examples.Stores.{
  Program, IdState, load_row, store_keyed_lem, id_save, id_get, sk_store_fn, sk_load_fn, sess_load,
  sess_store_fn,
}
use libsignal_zig.Examples.Lawful.{IsAddress, IsProgram}
use libsignal_zig.Examples.Loads.{load_row-store_row, found_same, found_other}

module _ (P : Program) (isP : IsProgram P) where
  addresses_apart :
      (a b : ProtocolAddress)
      → IsAddress a
      → IsAddress b
      → a ≢ b
      → address_text a.name a.device_id ≢ address_text b.name b.device_id
  addresses_apart a b ha hb other same =
      let (names, devices) =
        address_text_injective a.name b.name a.device_id b.device_id ha.device_id hb.device_id
          same in
      other (λ i. record { name = names i; device_id = devices i })

  -- An identity key that is saved is the one found at its address; at other addresses nothing
  -- changes.
  pub id_get-id_save :
      (n : ℕ) (s : IdState P) (a : ProtocolAddress) (key : PublicKey)
      → IsAddress a
      → IsPublicKey key
      → isP.lawful.Room (suc n) s.trusted
      → (s' : IdState P) × (id_save P s (some a) (some key) ≡ success s')
        × isP.lawful.Room n s'.trusted
        × (id_get P s' (some a) ≡ success (some key))
        × ((b : ProtocolAddress) → IsAddress b → b ≢ a → id_get P s' (some b) ≡ id_get P s (some b))
  unfolding id_get id_save
  id_get-id_save n s a key ha hk room =
      let (trusted, put, room', found) =
        load_row-store_row P isP signal_publickey_serialize signal_publickey_deserialize key
          (serialize_public_key key) n s.trusted (address_text a.name a.device_id) refl
          (rw (deserialize-serialize_public_key key hk)) (isP.address_key a ha).1 room in
      (
        record s { trusted = trusted },
        rw (
          (isP.address_key a ha).0,
          store_keyed_lem P signal_publickey_serialize s.trusted (address_text a.name a.device_id)
              (some key),
          put,
        ),
        room',
        rw ((isP.address_key a ha).0)
            (found_same P isP trusted s.trusted signal_publickey_deserialize _ _ found),
        λ b hb other. rw ((isP.address_key b hb).0) (
            found_other P isP trusted s.trusted signal_publickey_deserialize _ _ found _
              (addresses_apart b a hb ha other)),
      )

  -- In either program, with room in the store, a session record that is read back from its own
  -- serialized form is loaded at the address where it was stored, if the name has at most 460
  -- bytes and the device is a u32; sessions with other such addresses stay as they were.
  pub sess_load-sess_store_fn :
      {State : Type 0} (serialize : State → Bytes) (deserialize : Bytes → Result State) (n : ℕ)
      (s : P.kv.Store) (a : ProtocolAddress) (r : SessionRecord State)
      → IsAddress a
      → deserialize_record serialize deserialize (serialize_record serialize deserialize r) ≡ ok r
      → isP.lawful.Room (suc n) s
      → (s' : P.kv.Store) × (sess_store_fn P serialize deserialize s (some a) (some r) ≡ success s')
        × isP.lawful.Room n s'
        × (sess_load P serialize deserialize s' (some a) ≡ success (some r))
        × ((b : ProtocolAddress)
            → IsAddress b
            → b ≢ a
            → sess_load P serialize deserialize s' (some b)
              ≡ sess_load P serialize deserialize s (some b))
  unfolding sess_load sess_store_fn
  sess_load-sess_store_fn serialize deserialize n s a r ha back room =
      let (s', put, room', found) =
        load_row-store_row P isP (signal_session_record_serialize serialize deserialize)
          (signal_session_record_deserialize serialize deserialize) r
          (serialize_record serialize deserialize r) n s (address_text a.name a.device_id) refl
          (rw back) (isP.address_key a ha).1 room in
      (
        s',
        rw
            (
              (isP.address_key a ha).0,
              store_keyed_lem P (signal_session_record_serialize serialize deserialize) s
                  (address_text a.name a.device_id) (some r),
            )
            put,
        room',
        rw ((isP.address_key a ha).0) (
            found_same P isP s' s (signal_session_record_deserialize serialize deserialize) _ _
              found),
        λ b hb other. rw ((isP.address_key b hb).0) (
            found_other P isP s' s (signal_session_record_deserialize serialize deserialize) _ _
              found _ (addresses_apart b a hb ha other)),
      )

  -- So is a sender key record, under its sender and distribution.
  pub sk_load-sk_store_fn :
      (n : ℕ) (s : P.kv.Store) (a : ProtocolAddress) (dist_id bytes : Bytes)
      → IsAddress a
      → length dist_id ≡ 16
      → isP.lawful.Room (suc n) s
      → (s' : P.kv.Store) × (sk_store_fn P s (some a) dist_id (some bytes) ≡ success s')
        × isP.lawful.Room n s'
        × (sk_load_fn P s' (some a) dist_id ≡ success (some bytes))
  unfolding sk_load_fn sk_store_fn
  sk_load-sk_store_fn n s a dist_id bytes ha size room =
      let (s', put, room', found) =
        load_row-store_row P isP signal_sender_key_record_serialize
          signal_sender_key_record_deserialize bytes bytes n s (sender_key_text a dist_id) refl refl
          (isP.sender_key a dist_id ha size).1 room in
      (
        s',
        rw
            (
              (isP.sender_key a dist_id ha size).0,
              store_keyed_lem P signal_sender_key_record_serialize s (sender_key_text a dist_id)
                  (some bytes),
            )
            put,
        room',
        rw ((isP.sender_key a dist_id ha size).0)
            (found_same P isP s' s signal_sender_key_record_deserialize _ _ found),
      )

  pub sk_load_empty :
      (a : ProtocolAddress) (dist_id : Bytes)
      → IsAddress a
      → length dist_id ≡ 16
      → sk_load_fn P P.kv.empty (some a) dist_id ≡ success none
  unfolding sk_load_fn
  sk_load_empty a dist_id ha size = rw (
    (isP.sender_key a dist_id ha size).0,
    load_row,
    isP.lawful.get-empty (sender_key_text a dist_id),
  )

  -- A record that is loaded is stored anew without room.
  pub sk_store_fn_there :
      (n : ℕ) (s : P.kv.Store) (a : ProtocolAddress) (dist_id old bytes : Bytes)
      → IsAddress a
      → length dist_id ≡ 16
      → sk_load_fn P s (some a) dist_id ≡ success (some old)
      → isP.lawful.Room n s
      → (s' : P.kv.Store) × (sk_store_fn P s (some a) dist_id (some bytes) ≡ success s')
        × isP.lawful.Room n s'
        × (sk_load_fn P s' (some a) dist_id ≡ success (some bytes))
  unfolding sk_load_fn sk_store_fn
  sk_store_fn_there n s a dist_id old bytes ha size loaded room =
      let text = sender_key_text a dist_id in
      let made = (isP.sender_key a dist_id ha size).0 in
      elim (Option-cases (P.kv.get s text)) [
        | inl absent ↦ cc (rw (made, load_row, absent) at loaded)
        | inr (e, there) ↦
            let (s', put, room', found) = isP.lawful.put-there n s text bytes e there room in
            (
              s',
              rw (
                made,
                store_keyed_lem P signal_sender_key_record_serialize s text (some bytes),
                put,
              ),
              room',
              rw (made, load_row, found text, eql_refl text),
            )
      ]
