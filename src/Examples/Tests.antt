-- ===== src/Examples/Tests.antt =====
-- The tests of examples/c/main.c. What a test draws at random is an argument; a test that prints
-- PASS is a success. Objects that are destroyed and buffers that are freed are values here, so
-- these calls have no effect.
use libsignal_zig.Prelude.{ℕ, ◌||◌, [], ◌∷◌, length, take, ◌==◌, not, eql}
use libsignal_zig.Prelude.Bytes.{Bytes, ascii}
use libsignal_zig.Crypto.{Crypto}
use libsignal_zig.Xeddsa.{Xeddsa}
use libsignal_zig.AesCbc.{BlockCipher}
use libsignal_zig.Curve.Generate.{KeyGen}
use libsignal_zig.Ffi.{Outcome, success, ◌>>=◌, ◌>>◌, Buffer, must, abort_if}
use libsignal_zig.Ffi.Address.{signal_address_new}
use libsignal_zig.Ffi.Keys.{
  signal_privatekey_generate, signal_privatekey_get_public_key, signal_privatekey_agree,
  signal_privatekey_sign, signal_publickey_verify, signal_privatekey_deserialize,
  signal_privatekey_serialize, signal_publickey_serialize, signal_kyber_key_pair_generate,
  signal_kyber_key_pair_get_public_key, signal_kyber_key_pair_get_secret_key,
  signal_kyber_public_key_serialize, signal_kyber_secret_key_serialize,
}
use libsignal_zig.Ffi.Records.{
  signal_pre_key_record_new, signal_signed_pre_key_record_new, signal_kyber_pre_key_record_new,
}
use libsignal_zig.Ffi.SenderKeys.{
  signal_sender_key_distribution_message_create, signal_process_sender_key_distribution_message,
  signal_group_encrypt_message, signal_group_decrypt_message,
}
use libsignal_zig.Ffi.Misc.{
  signal_fingerprint_new, signal_fingerprint_scannable_encoding, signal_fingerprint_compare,
  signal_account_entropy_pool_generate, signal_account_entropy_pool_as_string,
  signal_account_entropy_pool_derive_svr_key, signal_account_entropy_pool_derive_backup_key,
  signal_backup_key_from_bytes, signal_backup_key_derive_media_encryption_key,
}
use libsignal_zig.Examples.Stores.{Program, pk_store_fn, spk_store_fn, kpk_store_fn, make_sk_store}

-- The helper `sign_bytes`.
unfoldable pub sign_bytes : Xeddsa → Bytes → Bytes → Bytes → Outcome Buffer
sign_bytes xeddsa priv32 data_bytes random = do
  pk ← must (signal_privatekey_deserialize priv32)
  must (signal_privatekey_sign xeddsa pk data_bytes random)

abbrev pub hello_signal : Bytes
hello_signal = ascii "hello signal"

unfoldable pub test_ec_keys : Crypto → Xeddsa → KeyGen → Bytes → Bytes → Bytes → Outcome (Unit {0})
test_ec_keys crypto xeddsa gen seed_a seed_b random = do
  pa ← must (signal_privatekey_generate gen seed_a)
  pb ← must (signal_privatekey_generate gen seed_b)
  qa ← must (signal_privatekey_get_public_key gen pa)
  qb ← must (signal_privatekey_get_public_key gen pb)
  dh_a ← must (signal_privatekey_agree crypto pa qb)
  dh_b ← must (signal_privatekey_agree crypto pb qa)
  abort_if (not (length dh_a == 32) || not (eql (take 32 dh_a) (take 32 dh_b)))
  sig ← must (signal_privatekey_sign xeddsa pa hello_signal random)
  is_valid ← must (signal_publickey_verify xeddsa qa hello_signal sig)
  abort_if (not is_valid)
  success tt

unfoldable pub test_kyber_keys : KeyGen → Bytes → Outcome (Unit {0})
test_kyber_keys gen seed = do
  kp ← must (signal_kyber_key_pair_generate gen seed)
  pub_key ← must (signal_kyber_key_pair_get_public_key kp)
  sec_key ← must (signal_kyber_key_pair_get_secret_key kp)
  pub_b ← must (signal_kyber_public_key_serialize pub_key)
  sec_b ← must (signal_kyber_secret_key_serialize sec_key)
  abort_if (not (length pub_b == 1568) || not (length sec_b == 3168))
  success tt

abbrev pub alice_id : Bytes
alice_id = ascii "+15551234567"

abbrev pub bob_id : Bytes
bob_id = ascii "+15559876543"

unfoldable pub test_fingerprint : Crypto → KeyGen → Bytes → Bytes → Outcome (Unit {0})
test_fingerprint crypto gen seed_a seed_b = do
  pa ← must (signal_privatekey_generate gen seed_a)
  pb ← must (signal_privatekey_generate gen seed_b)
  qa ← must (signal_privatekey_get_public_key gen pa)
  qb ← must (signal_privatekey_get_public_key gen pb)
  fp_a ← must (signal_fingerprint_new crypto 5200 0 alice_id qa bob_id qb)
  fp_b ← must (signal_fingerprint_new crypto 5200 0 bob_id qb alice_id qa)
  scan_b ← must (signal_fingerprint_scannable_encoding fp_b)
  match ← must (signal_fingerprint_compare fp_a scan_b)
  abort_if (not match)
  success tt

unfoldable pub test_account_keys : Crypto → Bytes → Outcome (Unit {0})
test_account_keys crypto raw = do
  pool ← must (signal_account_entropy_pool_generate raw)
  s ← must (signal_account_entropy_pool_as_string pool)
  svr ← must (signal_account_entropy_pool_derive_svr_key crypto pool)
  bk_bytes ← must (signal_account_entropy_pool_derive_backup_key crypto pool)
  abort_if (eql (take 32 svr) (take 32 bk_bytes))
  bk ← must (signal_backup_key_from_bytes (take 32 bk_bytes))
  media ← must (signal_backup_key_derive_media_encryption_key crypto bk)
  abort_if (eql (take 32 bk_bytes) (take 32 media))
  success tt

abbrev pub dist_id : Bytes
dist_id =
    0x01 ∷ 0x02 ∷ 0x03 ∷ 0x04 ∷ 0x05 ∷ 0x06 ∷ 0x07 ∷ 0x08 ∷ 0x09 ∷ 0x0a ∷ 0x0b ∷ 0x0c ∷ 0x0d ∷ 0x0e
    ∷ 0x0f ∷ 0x10 ∷ []

abbrev pub alice_name : Bytes
alice_name = ascii "alice"

abbrev pub group_hello : Bytes
group_hello = ascii "group hello"

pub record BobKeys : Type 0 where
  pub id_priv : Bytes
  pub reg_id : ℕ
  pub opk_id : ℕ
  pub spk_id : ℕ
  pub kpk_id : ℕ

-- The seeds of Bob's keys and the randomness of his two signatures.
pub record BobSeeds : Type 0 where
  pub identity : Bytes
  pub one_time : Bytes
  pub signed : Bytes
  pub kyber : Bytes
  pub signed_random : Bytes
  pub kyber_random : Bytes

module _ (P : Program) where
  -- Bob's keys, and the stores that the three pointers lead to afterwards.
  unfoldable pub setup_bob :
      Xeddsa
      → KeyGen
      → BobSeeds
      → P.kv.Store
      → P.kv.Store
      → P.kv.Store
      → Outcome (BobKeys × P.kv.Store × P.kv.Store × P.kv.Store)
  setup_bob xeddsa gen seeds pk_store spk_store kpk_store = do
    id_priv ← must (signal_privatekey_generate gen seeds.identity)
    id_priv_bytes ← must (signal_privatekey_serialize id_priv)
    let out_id_priv = take 32 id_priv_bytes
    opk_priv ← must (signal_privatekey_generate gen seeds.one_time)
    opk_pub ← must (signal_privatekey_get_public_key gen opk_priv)
    opk_rec ← must (signal_pre_key_record_new 1 opk_pub opk_priv)
    pk_store' ← must (pk_store_fn P pk_store 1 opk_rec)
    spk_priv ← must (signal_privatekey_generate gen seeds.signed)
    spk_pub ← must (signal_privatekey_get_public_key gen spk_priv)
    spk_pub_bytes ← must (signal_publickey_serialize spk_pub)
    spk_sig ← sign_bytes xeddsa out_id_priv spk_pub_bytes seeds.signed_random
    spk_rec ← must (signal_signed_pre_key_record_new 1 1_700_000_000 spk_pub spk_priv spk_sig)
    spk_store' ← must (spk_store_fn P spk_store 1 spk_rec)
    kpk ← must (signal_kyber_key_pair_generate gen seeds.kyber)
    kpk_pub ← must (signal_kyber_key_pair_get_public_key kpk)
    kpk_pub_bytes ← must (signal_kyber_public_key_serialize kpk_pub)
    kpk_sig ← sign_bytes xeddsa out_id_priv kpk_pub_bytes seeds.kyber_random
    kpk_rec ← must (signal_kyber_pre_key_record_new 1 1_700_000_000 kpk kpk_sig)
    kpk_store' ← must (kpk_store_fn P kpk_store 1 kpk_rec)
    let keys : BobKeys = record {
      id_priv = out_id_priv;
      reg_id = 2002;
      opk_id = 1;
      spk_id = 1;
      kpk_id = 1;
    }
    success (keys, pk_store', spk_store', kpk_store')

  -- With the chain key and the seed that the distribution draws, and the signature's randomness.
  unfoldable pub test_group :
      Crypto → BlockCipher → Xeddsa → KeyGen → Bytes → Bytes → Bytes → Outcome (Unit {0})
  test_group crypto aes xeddsa gen chain_key seed random = do
    let store = make_sk_store P
    ca ← must (signal_address_new alice_name 1)
    (skdm, alice_sk) ← must (
        signal_sender_key_distribution_message_create store gen P.kv.empty ca dist_id chain_key
          seed)
    bob_sk ← must (signal_process_sender_key_distribution_message store P.kv.empty ca skdm)
    (enc, alice_sk') ← must (
        signal_group_encrypt_message store crypto aes xeddsa alice_sk ca dist_id group_hello random)
    (dec, bob_sk') ←
        must (signal_group_decrypt_message store crypto aes xeddsa bob_sk ca dist_id enc)
    abort_if (not (length dec == length group_hello) || not (eql dec group_hello))
    success tt
