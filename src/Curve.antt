-- ===== src/Curve.antt =====
-- src/curve.zig: the serialized forms of Curve25519 keys.
pub mod Generate
use libsignal_zig.Prelude.{ℕ, ◌≡◌, Bool, [], ◌∷◌, length, take_all, ltb, ◌==◌, not, eql, arith}
use libsignal_zig.Prelude.Bytes.{Bytes, slice}
use libsignal_zig.Prelude.Result.{Result, ok, ◌>>◌, fail_if, invalid_key, invalid_type}
use libsignal_zig.Crypto.{Crypto}

abbrev pub key_type_djb : ℕ
key_type_djb = 0x05

abbrev pub serialized_public_key_length : ℕ
serialized_public_key_length = 33

pub record PublicKey : Type 0 where
  pub key_bytes : Bytes

pub record PrivateKey : Type 0 where
  pub key_bytes : Bytes

pub record KeyPair : Type 0 where
  pub public_key : PublicKey
  pub private_key : PrivateKey

first_or_zero : Bytes → ℕ
first_or_zero [] = 0
first_or_zero (b ∷ bs) = b

unfoldable pub deserialize_public_key : Bytes → Result PublicKey
unfolding first_or_zero
deserialize_public_key bytes = do
  fail_if (ltb (length bytes) serialized_public_key_length) invalid_key
  fail_if (not (first_or_zero bytes == key_type_djb)) invalid_type
  ok (record { key_bytes = slice 1 32 bytes })

unfoldable pub serialize_public_key : PublicKey → Bytes
serialize_public_key k = key_type_djb ∷ k.key_bytes

unfoldable pub deserialize_private_key : Bytes → Result PrivateKey
deserialize_private_key bytes = do
  fail_if (ltb (length bytes) 32) invalid_key
  ok (record { key_bytes = slice 0 32 bytes })

unfoldable pub serialize_private_key : PrivateKey → Bytes
serialize_private_key k = k.key_bytes

unfoldable pub public_key_eql : PublicKey → PublicKey → Bool
public_key_eql a b = eql a.key_bytes b.key_bytes

-- `PrivateKey.calculateAgreement`: the X25519 shared secret.
unfoldable pub calculate_agreement : Crypto → PrivateKey → PublicKey → Result Bytes
calculate_agreement crypto ours theirs = crypto.scalarmult ours.key_bytes theirs.key_bytes

abbrev pub IsPublicKey : PublicKey → Type 0
IsPublicKey k = length k.key_bytes ≡ 32

abbrev pub IsPrivateKey : PrivateKey → Type 0
IsPrivateKey k = length k.key_bytes ≡ 32

pub length-serialize_public_key :
    (k : PublicKey) → IsPublicKey k → length (serialize_public_key k) ≡ 33
unfolding serialize_public_key
length-serialize_public_key k h = omega arith

-- A key that is parsed from its serialized form is the key.
pub deserialize-serialize_public_key :
    (k : PublicKey) → IsPublicKey k → deserialize_public_key (serialize_public_key k) ≡ ok k
unfolding deserialize_public_key serialize_public_key
deserialize-serialize_public_key k h = ground (arith, take_all 32 k.key_bytes h)

pub deserialize-serialize_private_key :
    (k : PrivateKey) → IsPrivateKey k → deserialize_private_key (serialize_private_key k) ≡ ok k
unfolding deserialize_private_key serialize_private_key
deserialize-serialize_private_key k h = ground (arith, take_all 32 k.key_bytes h)

pub length-serialize_private_key :
    (k : PrivateKey) → IsPrivateKey k → length (serialize_private_key k) ≡ 32
unfolding serialize_private_key
length-serialize_private_key k h = h
