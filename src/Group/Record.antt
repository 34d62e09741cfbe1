-- ===== src/Group/Record.antt =====
-- The serialized form of src/group_session_builder.zig's `SenderKeyState`.
use libsignal_zig.Prelude.{some, ◌<◌, ◌≡◌, List, [], ◌∷◌, length, arith, append_assoc, append-nil}
use libsignal_zig.Prelude.Bytes.{Bytes, IsU32}
use libsignal_zig.Prelude.Result.{ok}
use libsignal_zig.Curve.{
  serialize_public_key, serialize_private_key, length-serialize_private_key,
  deserialize-serialize_public_key, deserialize-serialize_private_key, length-serialize_public_key,
}
use libsignal_zig.Records.RoundTrip.{IsKeyPair}
use libsignal_zig.Proto.{Field, parse_fields, write_varint_field}
use libsignal_zig.Proto.Fields.{encode_fields, run_fields}
use libsignal_zig.Proto.Writes.{
  varint_field, bytes_field, write_varint_field_lem, write_bytes_field_lem,
}
use libsignal_zig.Proto.Switch.{int_cast_lem, parse_fields-budget, length-encode_fields}
use libsignal_zig.Group.{
  SenderKeyState, Locals, no_locals, serialize_state, chain_key_field, signing_key_field,
  state_field, deserialize_state,
}

pub record IsSenderKeyState (s : SenderKeyState) : Type 0 where
  pub message_version : IsU32 s.message_version
  pub chain_id : IsU32 s.chain_id
  pub chain_key : length s.chain_key ≡ 32
  pub iteration : IsU32 s.iteration
  pub signing_key_pair : IsKeyPair s.signing_key_pair
  pub distribution_uuid : length s.distribution_uuid ≡ 16

abbrev chain_fields : SenderKeyState → List Field
chain_fields s = varint_field 1 s.iteration ∷ bytes_field 2 s.chain_key ∷ []

abbrev signing_fields : SenderKeyState → List Field
signing_fields s =
    bytes_field 1 (serialize_public_key s.signing_key_pair.public_key)
    ∷ bytes_field 2 (serialize_private_key s.signing_key_pair.private_key)
    ∷ []

abbrev state_fields : SenderKeyState → Bytes → Bytes → List Field
state_fields s chain signing =
    varint_field 5 s.message_version
    ∷ varint_field 1 s.chain_id
    ∷ bytes_field 2 chain
    ∷ bytes_field 3 signing
    ∷ bytes_field 4 s.distribution_uuid
    ∷ []

serialize_state_lem :
    (s : SenderKeyState)
    → serialize_state s
      ≡ encode_fields
          (state_fields s (encode_fields (chain_fields s)) (encode_fields (signing_fields s)))
unfolding serialize_state encode_fields
serialize_state_lem s =
    rw
      (
        write_bytes_field_lem _ 4 (omega arith) s.distribution_uuid,
        write_bytes_field_lem _ 3 (omega arith) _,
        write_bytes_field_lem _ 2 (omega arith)
            (serialize_private_key s.signing_key_pair.private_key),
        write_bytes_field_lem [] 1 (omega arith)
            (serialize_public_key s.signing_key_pair.public_key),
        write_bytes_field_lem (write_varint_field _ 1 s.chain_id) 2 (omega arith) _,
        write_bytes_field_lem _ 2 (omega arith) s.chain_key,
        write_varint_field_lem [] 1 (omega arith) s.iteration,
        write_varint_field_lem _ 1 (omega arith) s.chain_id,
        write_varint_field_lem [] 5 (omega arith) s.message_version,
      )
      (simp (append_assoc, append-nil))

module _ (s : SenderKeyState) (valid : IsSenderKeyState s) where
  chain_key_field_lem :
      (l : Locals)
      → parse_fields chain_key_field (encode_fields (chain_fields s)) l
        ≡ ok (record l { iteration = s.iteration; chain_key = s.chain_key })
  unfolding chain_key_field run_fields
  chain_key_field_lem l = rw (
    parse_fields-budget chain_key_field (chain_fields s) l
        (omega (arith, valid.iteration, valid.chain_key)) (omega (arith, valid.chain_key)),
    int_cast_lem 32 s.iteration valid.iteration,
    valid.chain_key,
  )

  signing_key_field_lem :
      (l : Locals)
      → parse_fields signing_key_field (encode_fields (signing_fields s)) l
        ≡ ok (record l {
          pk_bytes = some (serialize_public_key s.signing_key_pair.public_key);
          sk_bytes_raw = some (serialize_private_key s.signing_key_pair.private_key);
        })
  unfolding signing_key_field run_fields
  signing_key_field_lem l =
      let keys = valid.signing_key_pair in
      let pk = length-serialize_public_key s.signing_key_pair.public_key keys.public in
      let sk = length-serialize_private_key s.signing_key_pair.private_key keys.private in
      parse_fields-budget signing_key_field (signing_fields s) l (omega (arith, pk, sk))
        (omega (arith, pk, sk))

  chain_size : length (encode_fields (chain_fields s)) < 100
  chain_size = omega (
    arith,
    valid.chain_key,
    length-encode_fields (chain_fields s) (omega (arith, valid.iteration, valid.chain_key)),
  )

  signing_size : length (encode_fields (signing_fields s)) < 200
  signing_size =
      let keys = valid.signing_key_pair in
      let pk = length-serialize_public_key s.signing_key_pair.public_key keys.public in
      let sk = length-serialize_private_key s.signing_key_pair.private_key keys.private in
      omega (arith, pk, sk, length-encode_fields (signing_fields s) (omega (arith, pk, sk)))

  -- A sender key's stored state is read back, for u32 numbers, 32-byte keys and a 16-byte id.
  pub deserialize-serialize_state : deserialize_state (serialize_state s) ≡ ok s
  unfolding deserialize_state state_field run_fields
  deserialize-serialize_state =
      let chain = encode_fields (chain_fields s) in
      let signing = encode_fields (signing_fields s) in
      let uuid = valid.distribution_uuid in
      rw (
        serialize_state_lem s,
        parse_fields-budget state_field (state_fields s chain signing) no_locals
            (omega (arith, valid.message_version, valid.chain_id, chain_size, signing_size, uuid))
            (omega (arith, chain_size, signing_size, uuid)),
        int_cast_lem 32 s.message_version valid.message_version,
        int_cast_lem 32 s.chain_id valid.chain_id,
        chain_key_field_lem _,
        signing_key_field_lem _,
        uuid,
        deserialize-serialize_public_key s.signing_key_pair.public_key
            valid.signing_key_pair.public,
        deserialize-serialize_private_key s.signing_key_pair.private_key
            valid.signing_key_pair.private,
      )
