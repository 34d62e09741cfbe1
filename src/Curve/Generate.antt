-- ===== src/Curve/Generate.antt =====
-- src/curve.zig: how keys are made. The random seeds are arguments.
use libsignal_zig.Prelude.{get_or, set, bit_and, bit_or}
use libsignal_zig.Prelude.Bytes.{Bytes}
use libsignal_zig.Prelude.Result.{Result, ok, ◌>>=◌}
use libsignal_zig.Curve.{PublicKey, PrivateKey, KeyPair}
use libsignal_zig.Ratchet.Agreement.{KyberKeyPair}

-- What std.crypto makes keys with: `X25519.KeyPair.generateDeterministic`, public key first,
-- `basePoint.clampedMul`, and `MLKem1024.KeyPair.generateDeterministic`, on the seed that is drawn.
pub record KeyGen : Type 0 where
  pub x25519_key_pair : Bytes → Result (Bytes × Bytes)
  pub clamped_mul : Bytes → Result Bytes
  pub kem_key_pair : Bytes → Result (Bytes × Bytes)

unfoldable pub clamp_scalar : Bytes → Bytes
clamp_scalar s =
    let c = set s 0 (bit_and (get_or s 0 0) 248) in
    let c' = set c 31 (bit_and (get_or c 31 0) 127) in set c' 31 (bit_or (get_or c' 31 0) 64)

module _ (gen : KeyGen) where
  unfoldable pub generate : Bytes → Result KeyPair
  generate seed = do
    (public, secret) ← gen.x25519_key_pair seed
    ok (record {
      public_key = record { key_bytes = public };
      private_key = record { key_bytes = secret };
    })

  unfoldable pub public_key_of : PrivateKey → Result PublicKey
  public_key_of sk = do
    point ← gen.clamped_mul (clamp_scalar sk.key_bytes)
    ok (record { key_bytes = point })

  unfoldable pub kyber_generate : Bytes → Result KyberKeyPair
  kyber_generate seed = do
    (public, secret) ← gen.kem_key_pair seed
    ok (record { public_key_bytes = public; secret_key_bytes = secret })
