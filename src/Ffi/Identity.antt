-- ===== src/Ffi/Identity.antt =====
-- src/ffi/keys.zig: identity key pairs, whose serialized form is not the one of src/identity.zig.
use libsignal_zig.Prelude.{
  suc, ◌≡◌, ◌≤◌, refl, Bool, ltb, le→ltb, ◌==◌, not, some, ◌∷◌, ◌++◌, length, take, take_all,
  take_prefix, drop_prefix, length-append, length-take, arith,
}
use libsignal_zig.Prelude.Bytes.{Bytes, ascii, slice}
use libsignal_zig.Prelude.Result.{err, invalid_type, invalid_tag}
use libsignal_zig.Xeddsa.{Xeddsa}
use libsignal_zig.Proto.{
  parse_fields, each_field, next_field, next_of, read_field, decode_varint, decode_loop,
}
use libsignal_zig.Curve.{
  PublicKey, PrivateKey, IsPublicKey, IsPrivateKey, serialize_public_key, serialize_private_key,
  deserialize_public_key, deserialize_private_key, length-serialize_public_key,
  deserialize-serialize_public_key, deserialize-serialize_private_key,
}
use libsignal_zig.Identity.{
  IdentityKeyPair, serialize_identity, deserialize_identity, serialize_identity_shape,
}
use libsignal_zig.Ffi.{
  Outcome, success, failure, ◌>>=◌, ◌>>◌, Pointer, Buffer, catch, non_null, refuse_if,
}
use libsignal_zig.Ffi.ErrorCode.{ZigCode, from_zig_error}

unfoldable pub signal_identitykeypair_deserialize :
    Buffer → Outcome (Pointer PublicKey × Pointer PrivateKey)
signal_identitykeypair_deserialize bytes = do
  refuse_if (ltb (length bytes) 65) ZigCode.invalid_key
  pub_key ← catch (deserialize_public_key (slice 0 33 bytes))
  priv_key ← catch (deserialize_private_key (slice 33 32 bytes))
  success (some pub_key, some priv_key)

unfoldable pub signal_identitykeypair_serialize :
    Pointer PublicKey → Pointer PrivateKey → Outcome Buffer
signal_identitykeypair_serialize public_key private_key = do
  pk ← non_null public_key
  sk ← non_null private_key
  success (serialize_public_key pk ++ sk.key_bytes)

abbrev pub alternate_label : Bytes
alternate_label = ascii "Signal_PNI_Signature"

module _ (xeddsa : Xeddsa) where
  unfoldable pub signal_identitykeypair_sign_alternate_identity :
      Pointer PublicKey → Pointer PrivateKey → Pointer PublicKey → Bytes → Outcome Buffer
  signal_identitykeypair_sign_alternate_identity public_key private_key other_identity random = do
    pk ← non_null public_key
    sk ← non_null private_key
    other ← non_null other_identity
    catch (xeddsa.sign sk.key_bytes (alternate_label ++ serialize_public_key other) random)

  unfoldable pub signal_identitykey_verify_alternate_identity :
      Pointer PublicKey → Pointer PublicKey → Buffer → Outcome Bool
  signal_identitykey_verify_alternate_identity public_key other_identity signature = do
    pk ← non_null public_key
    other ← non_null other_identity
    refuse_if (not (length signature == 64)) ZigCode.invalid_signature
    catch (xeddsa.verify pk.key_bytes (alternate_label ++ serialize_public_key other) signature)

-- A key pair with keys of 32 bytes that the C interface serializes is read back by it.
pub signal_identitykeypair_deserialize-serialize :
    (pk : PublicKey) (sk : PrivateKey)
    → IsPublicKey pk
    → IsPrivateKey sk
    → (signal_identitykeypair_serialize (some pk) (some sk) >>= signal_identitykeypair_deserialize)
      ≡ success (some pk, some sk)
unfolding signal_identitykeypair_serialize signal_identitykeypair_deserialize serialize_private_key
signal_identitykeypair_deserialize-serialize pk sk public private =
    let front = length-serialize_public_key pk public in
    let back = deserialize-serialize_private_key sk private in
    rw (
      le→ltb (length (serialize_public_key pk ++ sk.key_bytes)) 65
          (omega (arith, length-append (serialize_public_key pk) sk.key_bytes, front, private)),
      take_prefix 33 (serialize_public_key pk) sk.key_bytes front,
      drop_prefix 33 (serialize_public_key pk) sk.key_bytes front,
      take_all 32 sk.key_bytes private,
      deserialize-serialize_public_key pk public,
      back,
    )

wrong_type :
    (rest : Bytes)
    → 64 ≤ length rest
    → deserialize_public_key (0x0a ∷ take 32 rest) ≡ err invalid_type
unfolding deserialize_public_key
wrong_type rest long = ground (arith, length-take 32 rest)

-- Neither form is read as the other: the C interface refuses what the library serializes, with
-- `invalid_type`, and the library what the C interface serializes, with `invalid_tag`.
pub identity_forms_apart :
    (kp : IdentityKeyPair)
    → IsPublicKey kp.identity_key
    → IsPrivateKey kp.private_key
    → (signal_identitykeypair_deserialize (serialize_identity kp) ≡ failure ZigCode.invalid_type)
      × (deserialize_identity (serialize_public_key kp.identity_key ++ kp.private_key.key_bytes)
          ≡ err invalid_tag)
unfolding signal_identitykeypair_deserialize from_zig_error deserialize_identity parse_fields
    each_field next_field next_of read_field decode_varint decode_loop serialize_public_key
identity_forms_apart kp public private =
    let (rest, shape, long) = serialize_identity_shape kp public private in
    (rw (shape, le→ltb (suc (length rest)) 65 (omega (arith, long)), wrong_type rest long), refl)
