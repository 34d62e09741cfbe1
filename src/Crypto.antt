-- ===== src/Crypto.antt =====
-- The primitives of Zig's standard library (std.crypto) that the program calls: HKDF, HMAC,
-- SHA-512, X25519 and ML-KEM-1024. They are parameters, with the
-- lengths that their types state. Randomness is an argument of what draws it.
use libsignal_zig.Prelude.{ℕ, ◌≡◌, length}
use libsignal_zig.Prelude.Bytes.{Bytes}
use libsignal_zig.Prelude.Result.{Result}

pub record Crypto : Type 0 where
  -- `HkdfSha256.extract(salt, ikm)`, and `expand` to so many bytes with an info string.
  pub hkdf_extract : Bytes → Bytes → Bytes
  pub hkdf_expand : ℕ → Bytes → Bytes → Bytes
  -- `HmacSha256.create` on a key and a message, and `Sha512.hash`.
  pub hmac : Bytes → Bytes → Bytes
  pub sha512 : Bytes → Bytes
  -- `X25519.scalarmult(secret, public)`.
  pub scalarmult : Bytes → Bytes → Result Bytes
  -- ML-KEM-1024: `encapsDeterministic(seed)` for a serialized public key, to the ciphertext and
  -- the shared secret, and `decaps` for a serialized secret key.
  pub kem_encaps : Bytes → Bytes → Result (Bytes × Bytes)
  pub kem_decaps : Bytes → Bytes → Result Bytes
  pub length-expand : (n : ℕ) (info prk : Bytes) → length (hkdf_expand n info prk) ≡ n
  pub length-hmac : (key msg : Bytes) → length (hmac key msg) ≡ 32
  pub length-sha512 : (msg : Bytes) → length (sha512 msg) ≡ 64
