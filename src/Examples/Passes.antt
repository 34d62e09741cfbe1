-- ===== src/Examples/Passes.antt =====
-- When the tests of the example programs that need no store pass.
use libsignal_zig.Prelude.{
  ◌≤◌, ◌≡◌, ◌≢◌, ◌↔◌, Bool, true, [], length, take_all, eql_refl, eql_iff, arith,
}
use libsignal_zig.Prelude.Bytes.{Bytes, ascii}
use libsignal_zig.Prelude.Result.{ok}
use libsignal_zig.Crypto.{Crypto}
use libsignal_zig.Xeddsa.{Xeddsa}
use libsignal_zig.Curve.{KeyPair, PublicKey, IsPublicKey, IsPrivateKey, calculate_agreement}
use libsignal_zig.Curve.Generate.{KeyGen, generate, public_key_of, kyber_generate}
use libsignal_zig.Ratchet.Agreement.{KyberKeyPair}
use libsignal_zig.AccountKeys.{
  generate_pool, derive_svr_key, derive_backup_key, derive_media_encryption_key, pool_derive,
}
use libsignal_zig.Fingerprint.Compare.{
  sides_of, sides_of-IsScannable, compute_total, compare_to-serialize_scannable,
}
use libsignal_zig.Ffi.{success}
use libsignal_zig.Ffi.Scannable.{parse_own-serialize_scannable}
use libsignal_zig.Examples.Tests.{
  test_ec_keys, test_kyber_keys, test_fingerprint, test_account_keys, hello_signal, alice_id,
  bob_id,
}

-- A seed's key pair, with the public key that its private key gives back.
pub record Makes (gen : KeyGen) (seed : Bytes) (kp : KeyPair) (pk : PublicKey) : Type 0 where
  pub made : generate gen seed ≡ ok kp
  pub given : public_key_of gen kp.private_key ≡ ok pk
  pub valid : IsPublicKey pk
  pub secret : IsPrivateKey kp.private_key

ids_short : (length alice_id ≤ 67) × (length bob_id ≤ 67)
unfolding ascii
ids_short = (omega arith, omega arith)

-- The fingerprint test passes for any two key pairs whose public keys have 32 bytes.
pub test_fingerprint_passes :
    (crypto : Crypto) (gen : KeyGen) (seed_a seed_b : Bytes) (a b : KeyPair) (qa qb : PublicKey)
    → Makes gen seed_a a qa
    → Makes gen seed_b b qb
    → test_fingerprint crypto gen seed_a seed_b ≡ success tt
unfolding test_fingerprint
test_fingerprint_passes crypto gen seed_a seed_b a b qa qb ha hb =
    let (sa, sb) = ids_short in
    let fp_a = sides_of crypto qa qb alice_id bob_id ha.valid hb.valid sa sb in
    let fp_b = sides_of crypto qb qa bob_id alice_id hb.valid ha.valid sb sa in
    let valid_a = sides_of-IsScannable crypto qa qb alice_id bob_id ha.valid hb.valid sa sb in
    let valid_b = sides_of-IsScannable crypto qb qa bob_id alice_id hb.valid ha.valid sb sa in
    rw (
      ha.made,
      hb.made,
      ha.given,
      hb.given,
      compute_total crypto qa qb alice_id bob_id ha.valid hb.valid sa sb,
      compute_total crypto qb qa bob_id alice_id hb.valid ha.valid sb sa,
      parse_own-serialize_scannable fp_a valid_a,
      compare_to-serialize_scannable fp_a fp_b valid_b,
      eql_refl fp_a.local_fingerprint,
      eql_refl fp_a.remote_fingerprint,
    )

-- The test of the Kyber keys passes exactly where the library's key pair has keys of 1568 and 3168
-- bytes.
pub test_kyber_keys_passes :
    (gen : KeyGen) (seed : Bytes) (kp : KyberKeyPair)
    → kyber_generate gen seed ≡ ok kp
    → (test_kyber_keys gen seed ≡ success tt)
      ↔ ((length kp.public_key_bytes ≡ 1568) × (length kp.secret_key_bytes ≡ 3168))
unfolding test_kyber_keys
test_kyber_keys_passes gen seed kp made = ground (arith, made)

length-pool_derive :
    (crypto : Crypto) (pool info : Bytes) → length (pool_derive crypto pool info 32) ≡ 32
unfolding pool_derive
length-pool_derive crypto pool info = crypto.length-expand 32 info (crypto.hkdf_extract [] pool)

length-derive_media :
    (crypto : Crypto) (bk : Bytes) → length (derive_media_encryption_key crypto bk) ≡ 32
unfolding derive_media_encryption_key
length-derive_media crypto bk =
    crypto.length-expand 32 (ascii "20231003_Signal_Backups.MediaEncryptionKey")
      (crypto.hkdf_extract bk bk)

length-derive_svr_key : (crypto : Crypto) (pool : Bytes) → length (derive_svr_key crypto pool) ≡ 32
unfolding derive_svr_key
length-derive_svr_key crypto pool =
    length-pool_derive crypto pool (ascii "20231003_Signal_SVR_MasterKey")

length-derive_backup_key :
    (crypto : Crypto) (pool : Bytes) → length (derive_backup_key crypto pool) ≡ 32
unfolding derive_backup_key
length-derive_backup_key crypto pool =
    length-pool_derive crypto pool (ascii "20231003_Signal_BackupKey")

-- The test of the account keys passes exactly where the backup key of the pool that is drawn is
-- neither its SVR key nor its own media encryption key; it aborts otherwise.
pub test_account_keys_passes :
    (crypto : Crypto) (raw : Bytes)
    → (test_account_keys crypto raw ≡ success tt) ↔ (
        (derive_svr_key crypto (generate_pool raw) ≢ derive_backup_key crypto (generate_pool raw))
        × (derive_backup_key crypto (generate_pool raw)
            ≢ derive_media_encryption_key crypto (derive_backup_key crypto (generate_pool raw))))
unfolding test_account_keys
test_account_keys_passes crypto raw =
    let svr = derive_svr_key crypto (generate_pool raw) in
    let bk = derive_backup_key crypto (generate_pool raw) in
    let media = derive_media_encryption_key crypto bk in
    ground (
      arith,
      take_all 32 svr (length-derive_svr_key crypto (generate_pool raw)),
      take_all 32 bk (length-derive_backup_key crypto (generate_pool raw)),
      take_all 32 media (length-derive_media crypto bk),
      length-derive_backup_key crypto (generate_pool raw),
      eql_iff svr bk,
      eql_iff bk media,
    )

-- Where two key pairs are made, the agreements are of 32 bytes and the message is signed, the test
-- of the keys passes exactly where the agreements are equal and the signature verifies.
pub test_ec_keys_passes :
    (crypto : Crypto) (xeddsa : Xeddsa) (gen : KeyGen) (seed_a seed_b random : Bytes)
    (a b : KeyPair) (qa qb : PublicKey) (secret_a secret_b sig : Bytes) (verdict : Bool)
    → Makes gen seed_a a qa
    → Makes gen seed_b b qb
    → calculate_agreement crypto a.private_key qb ≡ ok secret_a
    → calculate_agreement crypto b.private_key qa ≡ ok secret_b
    → length secret_a ≡ 32
    → length secret_b ≡ 32
    → xeddsa.sign a.private_key.key_bytes hello_signal random ≡ ok sig
    → xeddsa.verify qa.key_bytes hello_signal sig ≡ ok verdict
    → (test_ec_keys crypto xeddsa gen seed_a seed_b random ≡ success tt)
      ↔ ((secret_a ≡ secret_b) × (verdict ≡ true))
unfolding test_ec_keys
test_ec_keys_passes crypto xeddsa gen seed_a seed_b random a b qa qb secret_a secret_b sig verdict
      ha hb dh_a dh_b size_a size_b signed verified =
    ground (
      arith,
      ha.made,
      hb.made,
      ha.given,
      hb.given,
      dh_a,
      dh_b,
      take_all 32 secret_a size_a,
      take_all 32 secret_b size_b,
      xeddsa.length-sign a.private_key.key_bytes hello_signal random sig signed,
      signed,
      verified,
      eql_iff secret_a secret_b,
    )
