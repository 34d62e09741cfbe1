-- ===== src/Tests.antt =====
-- Primitives simple enough to run, for the examples at concrete inputs.
pub mod Wire
pub mod Formats
pub mod Ratchets
pub mod Sessions
pub mod Groups
pub mod Archives
pub mod Examples
pub mod Stores
pub mod Talk
pub mod Macs
pub mod Collect
use libsignal_zig.Prelude.{
  ℕ, zero, ◌+◌, ◌*◌, ◌%◌, ◌≡◌, ◌++◌, ◌∷◌, length, take, replicate, get_or, length-take,
  length-append, length-replicate, arith,
}
use libsignal_zig.Prelude.Bytes.{Bytes}
use libsignal_zig.Prelude.Result.{Result, ok}
use libsignal_zig.Crypto.{Crypto}

abbrev pub pad : ℕ → Bytes → Bytes
pad n bs = take n (bs ++ replicate n 0)

pub length-pad : (n : ℕ) (bs : Bytes) → length (pad n bs) ≡ n
length-pad n bs = omega (
  arith,
  length-take n (bs ++ replicate n 0),
  length-append bs (replicate n 0),
  length-replicate n zero,
)

-- Each primitive joins what it is given; a public key is its private key, and the agreement is
-- the product of the first bytes.
abbrev pub toy : Crypto
toy = record {
  hkdf_extract = λ salt ikm. pad 32 (ikm ++ salt);
  hkdf_expand = λ n info prk. pad n (prk ++ info);
  hmac = λ key msg. pad 32 (msg ++ key);
  sha512 = λ msg. pad 64 msg;
  scalarmult = λ secret public. ok ((get_or secret 0 0 * get_or public 0 0 % 256) ∷ replicate 31 0);
  kem_encaps = λ public seed. ok (replicate 1568 0, public);
  kem_decaps = λ secret ciphertext. ok secret;
  length-expand = λ n info prk. length-pad n (prk ++ info);
  length-hmac = λ key msg. length-pad 32 (msg ++ key);
  length-sha512 = λ msg. length-pad 64 msg;
}
