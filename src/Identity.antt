-- ===== src/Identity.antt =====
-- src/identity.zig: identity key pairs. An IdentityKey is its public key.
use libsignal_zig.Prelude.{
  ◌≤◌, ◌≡◌, refl, Bool, ◌==◌, Option, none, some, List, [], ◌∷◌, ◌++◌, length, length-append,
  append_assoc, append-nil, if◌then◌else◌, arith,
}
use libsignal_zig.Prelude.Bytes.{Bytes}
use libsignal_zig.Prelude.Result.{Result, ok, ◌>>=◌, or_return, invalid_argument}
use libsignal_zig.Xeddsa.{Xeddsa}
use libsignal_zig.Curve.{
  PublicKey, PrivateKey, IsPublicKey, IsPrivateKey, serialize_public_key, serialize_private_key,
  deserialize_public_key, deserialize_private_key, length-serialize_public_key,
  length-serialize_private_key, deserialize-serialize_public_key, deserialize-serialize_private_key,
}
use libsignal_zig.Proto.{Field, parse_fields, write_bytes_field, encode_varint, encode_loop}
use libsignal_zig.Proto.Fields.{encode_fields, run_fields}
use libsignal_zig.Proto.Writes.{bytes_field, write_bytes_field_lem}
use libsignal_zig.Proto.Switch.{on_len, parse_fields-budget}

pub record IdentityKeyPair : Type 0 where
  pub identity_key : PublicKey
  pub private_key : PrivateKey

unfoldable pub serialize_identity : IdentityKeyPair → Bytes
serialize_identity kp =
    let e₁ = write_bytes_field [] 1 (serialize_public_key kp.identity_key) in
    write_bytes_field e₁ 2 (serialize_private_key kp.private_key)

-- The local variables of `deserialize`.
pub record IdentityFields : Type 0 where
  pub pk_bytes : Option Bytes
  pub sk_bytes : Option Bytes

abbrev pub no_identity_fields : IdentityFields
no_identity_fields = record { pk_bytes = none; sk_bytes = none }

unfoldable pub identity_field : IdentityFields → Field → Result IdentityFields
identity_field s f =
    if f.number == 1
    then on_len s f.payload (λ bs. ok (record s { pk_bytes = some bs }))
    else if f.number == 2
    then on_len s f.payload (λ bs. ok (record s { sk_bytes = some bs }))
    else ok s

unfoldable pub deserialize_identity : Bytes → Result IdentityKeyPair
deserialize_identity bytes = do
  s ← parse_fields identity_field bytes no_identity_fields
  pk ← or_return s.pk_bytes invalid_argument
  sk ← or_return s.sk_bytes invalid_argument
  public_key ← deserialize_public_key pk
  private_key ← deserialize_private_key sk
  ok (record { identity_key = public_key; private_key = private_key })

module _ (xeddsa : Xeddsa) where
  unfoldable pub sign_alternate_identity : IdentityKeyPair → PublicKey → Bytes → Result Bytes
  sign_alternate_identity kp other_key random =
      xeddsa.sign kp.private_key.key_bytes (serialize_public_key other_key) random

  unfoldable pub verify_alternate_identity : PublicKey → PublicKey → Bytes → Result Bool
  verify_alternate_identity identity_key other_key signature =
      xeddsa.verify identity_key.key_bytes (serialize_public_key other_key) signature

abbrev identity_fields : IdentityKeyPair → List Field
identity_fields kp =
    bytes_field 1 (serialize_public_key kp.identity_key)
    ∷ bytes_field 2 (serialize_private_key kp.private_key)
    ∷ []

serialize_identity_lem :
    (kp : IdentityKeyPair) → serialize_identity kp ≡ encode_fields (identity_fields kp)
unfolding serialize_identity encode_fields
serialize_identity_lem kp =
    rw
      (
        write_bytes_field_lem _ 2 (omega arith) (serialize_private_key kp.private_key),
        write_bytes_field_lem [] 1 (omega arith) (serialize_public_key kp.identity_key),
      )
      (simp (append_assoc, append-nil))

-- A key pair with keys of 32 bytes is read back from its protobuf form.
pub deserialize-serialize_identity :
    (kp : IdentityKeyPair)
    → IsPublicKey kp.identity_key
    → IsPrivateKey kp.private_key
    → deserialize_identity (serialize_identity kp) ≡ ok kp
unfolding deserialize_identity identity_field run_fields
deserialize-serialize_identity kp public private =
    let pk = length-serialize_public_key kp.identity_key public in
    let sk = length-serialize_private_key kp.private_key private in
    rw (
      serialize_identity_lem kp,
      parse_fields-budget identity_field (identity_fields kp) no_identity_fields
          (omega (arith, pk, sk)) (omega (arith, pk, sk)),
      deserialize-serialize_public_key kp.identity_key public,
      deserialize-serialize_private_key kp.private_key private,
    )

first_tag : encode_varint 10 ≡ 0x0a ∷ []
unfolding encode_varint encode_loop
first_tag = refl

pub serialize_identity_shape :
    (kp : IdentityKeyPair)
    → IsPublicKey kp.identity_key
    → IsPrivateKey kp.private_key
    → (rest : Bytes) × (serialize_identity kp ≡ 0x0a ∷ rest) × (64 ≤ length rest)
unfolding serialize_identity write_bytes_field
serialize_identity_shape kp public private =
    let pk = serialize_public_key kp.identity_key in
    let sk = serialize_private_key kp.private_key in
    let front = encode_varint (length pk) ++ pk in
    let middle = (front ++ encode_varint 18) ++ encode_varint (length sk) in
    (
      middle ++ sk,
      rw first_tag,
      omega (
        arith,
        length-append middle sk,
        length-append (front ++ encode_varint 18) (encode_varint (length sk)),
        length-append front (encode_varint 18),
        length-append (encode_varint (length pk)) pk,
        length-serialize_public_key kp.identity_key public,
        length-serialize_private_key kp.private_key private,
      ),
    )
