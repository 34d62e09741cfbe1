-- ===== src/Records/RoundTrip.antt =====
-- What is stored of a pre-key is read back.
use libsignal_zig.Prelude.{◌≡◌, List, [], ◌∷◌, length, arith, append_assoc, append-nil}
use libsignal_zig.Prelude.Bytes.{IsU32, IsU64}
use libsignal_zig.Prelude.Result.{ok}
use libsignal_zig.Curve.{
  IsPublicKey, IsPrivateKey, KeyPair, serialize_public_key, serialize_private_key,
  length-serialize_public_key, length-serialize_private_key, deserialize-serialize_public_key,
  deserialize-serialize_private_key,
}
use libsignal_zig.Proto.{Field}
use libsignal_zig.Proto.Fields.{encode_fields, run_fields}
use libsignal_zig.Proto.Writes.{
  varint_field, bytes_field, fixed64_field, write_varint_field_lem, write_bytes_field_lem,
  write_fixed64_field_lem,
}
use libsignal_zig.Proto.Switch.{int_cast_lem, parse_fields-budget}
use libsignal_zig.Records.{
  PreKeyRecord, SignedPreKeyRecord, KyberPreKeyRecord, no_fields, serialize_pre_key, pre_key_field,
  deserialize_pre_key, serialize_signed_pre_key, signed_field, deserialize_signed_pre_key,
  serialize_kyber_pre_key, deserialize_kyber_pre_key, kyber_public_length, kyber_secret_length,
}

pub record IsKeyPair (k : KeyPair) : Type 0 where
  pub public : IsPublicKey k.public_key
  pub private : IsPrivateKey k.private_key

abbrev pre_key_fields : PreKeyRecord → List Field
pre_key_fields r =
    varint_field 1 r.id
    ∷ bytes_field 2 (serialize_public_key r.key_pair.public_key)
    ∷ bytes_field 3 (serialize_private_key r.key_pair.private_key)
    ∷ []

serialize_pre_key_lem : (r : PreKeyRecord) → serialize_pre_key r ≡ encode_fields (pre_key_fields r)
unfolding serialize_pre_key encode_fields
serialize_pre_key_lem r =
    rw
      (
        write_bytes_field_lem _ 3 (omega arith) (serialize_private_key r.key_pair.private_key),
        write_bytes_field_lem _ 2 (omega arith) (serialize_public_key r.key_pair.public_key),
        write_varint_field_lem [] 1 (omega arith) r.id,
      )
      (simp (append_assoc, append-nil))

-- A stored pre-key with a u32 id and keys of 32 bytes is read back.
pub deserialize-serialize_pre_key :
    (r : PreKeyRecord)
    → IsU32 r.id
    → IsKeyPair r.key_pair
    → deserialize_pre_key (serialize_pre_key r) ≡ ok r
unfolding deserialize_pre_key pre_key_field run_fields
deserialize-serialize_pre_key r small keys =
    let pk = length-serialize_public_key r.key_pair.public_key keys.public in
    let sk = length-serialize_private_key r.key_pair.private_key keys.private in
    rw (
      serialize_pre_key_lem r,
      parse_fields-budget pre_key_field (pre_key_fields r) no_fields (omega (arith, pk, sk))
          (omega (arith, pk, sk)),
      int_cast_lem 32 r.id small,
      deserialize-serialize_public_key r.key_pair.public_key keys.public,
      deserialize-serialize_private_key r.key_pair.private_key keys.private,
    )

abbrev signed_fields : SignedPreKeyRecord → List Field
signed_fields r =
    varint_field 1 r.id
    ∷ bytes_field 2 (serialize_public_key r.key_pair.public_key)
    ∷ bytes_field 3 (serialize_private_key r.key_pair.private_key)
    ∷ bytes_field 4 r.signature
    ∷ fixed64_field 5 r.timestamp
    ∷ []

serialize_signed_pre_key_lem :
    (r : SignedPreKeyRecord) → serialize_signed_pre_key r ≡ encode_fields (signed_fields r)
unfolding serialize_signed_pre_key encode_fields
serialize_signed_pre_key_lem r =
    rw
      (
        write_fixed64_field_lem _ 5 (omega arith) r.timestamp,
        write_bytes_field_lem _ 4 (omega arith) r.signature,
        write_bytes_field_lem _ 3 (omega arith) (serialize_private_key r.key_pair.private_key),
        write_bytes_field_lem _ 2 (omega arith) (serialize_public_key r.key_pair.public_key),
        write_varint_field_lem [] 1 (omega arith) r.id,
      )
      (simp (append_assoc, append-nil))

-- A stored signed pre-key with a u32 id, a u64 timestamp, keys of 32 bytes and a signature of 64
-- is read back.
pub deserialize-serialize_signed_pre_key :
    (r : SignedPreKeyRecord)
    → IsU32 r.id
    → IsU64 r.timestamp
    → IsKeyPair r.key_pair
    → length r.signature ≡ 64
    → deserialize_signed_pre_key (serialize_signed_pre_key r) ≡ ok r
unfolding deserialize_signed_pre_key signed_field run_fields
deserialize-serialize_signed_pre_key r small time keys sized =
    let pk = length-serialize_public_key r.key_pair.public_key keys.public in
    let sk = length-serialize_private_key r.key_pair.private_key keys.private in
    rw (
      serialize_signed_pre_key_lem r,
      parse_fields-budget signed_field (signed_fields r) no_fields (omega (arith, pk, sk))
          (omega (arith, pk, sk)),
      int_cast_lem 32 r.id small,
      deserialize-serialize_public_key r.key_pair.public_key keys.public,
      deserialize-serialize_private_key r.key_pair.private_key keys.private,
      sized,
    )

pub record IsKyberPreKey (r : KyberPreKeyRecord) : Type 0 where
  pub id : IsU32 r.id
  pub time : IsU64 r.timestamp
  pub public : length r.key_pair.public_key_bytes ≡ kyber_public_length
  pub secret : length r.key_pair.secret_key_bytes ≡ kyber_secret_length
  pub signed : length r.signature ≡ 64

abbrev kyber_fields : KyberPreKeyRecord → List Field
kyber_fields r =
    varint_field 1 r.id
    ∷ bytes_field 2 r.key_pair.public_key_bytes
    ∷ bytes_field 3 r.key_pair.secret_key_bytes
    ∷ bytes_field 4 r.signature
    ∷ fixed64_field 5 r.timestamp
    ∷ []

serialize_kyber_pre_key_lem :
    (r : KyberPreKeyRecord) → serialize_kyber_pre_key r ≡ encode_fields (kyber_fields r)
unfolding serialize_kyber_pre_key encode_fields
serialize_kyber_pre_key_lem r =
    rw
      (
        write_fixed64_field_lem _ 5 (omega arith) r.timestamp,
        write_bytes_field_lem _ 4 (omega arith) r.signature,
        write_bytes_field_lem _ 3 (omega arith) r.key_pair.secret_key_bytes,
        write_bytes_field_lem _ 2 (omega arith) r.key_pair.public_key_bytes,
        write_varint_field_lem [] 1 (omega arith) r.id,
      )
      (simp (append_assoc, append-nil))

-- A stored Kyber pre-key whose id, timestamp, keys and signature have their widths is read back.
pub deserialize-serialize_kyber_pre_key :
    (r : KyberPreKeyRecord)
    → IsKyberPreKey r
    → deserialize_kyber_pre_key (serialize_kyber_pre_key r) ≡ ok r
unfolding deserialize_kyber_pre_key signed_field run_fields
deserialize-serialize_kyber_pre_key r valid =
    let pk = valid.public in
    let sk = valid.secret in
    rw (
      serialize_kyber_pre_key_lem r,
      parse_fields-budget signed_field (kyber_fields r) no_fields
          (omega (arith, pk, sk, valid.signed, valid.id, valid.time))
          (omega (arith, pk, sk, valid.signed)),
      int_cast_lem 32 r.id valid.id,
      pk,
      sk,
      valid.signed,
    )
