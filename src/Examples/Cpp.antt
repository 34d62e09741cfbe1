-- ===== src/Examples/Cpp.antt =====
-- examples/cpp/main.cpp: the callbacks and tests of the C++ program, which are those of the C
-- program over its own store and texts.
use libsignal_zig.Prelude.{ℕ, Bool}
use libsignal_zig.Prelude.Bytes.{Bytes}
use libsignal_zig.Prelude.Result.{Result}
use libsignal_zig.Crypto.{Crypto}
use libsignal_zig.Xeddsa.{Xeddsa}
use libsignal_zig.AesCbc.{BlockCipher}
use libsignal_zig.Curve.{PublicKey, PrivateKey}
use libsignal_zig.Curve.Generate.{KeyGen}
use libsignal_zig.Records.{PreKeyRecord, SignedPreKeyRecord, KyberPreKeyRecord}
use libsignal_zig.SessionRecord.{SessionRecord}
use libsignal_zig.Ffi.{Outcome, Pointer, Buffer}
use libsignal_zig.Ffi.Address.{ProtocolAddress}
use libsignal_zig.Ffi.Stores.{
  SessionStore, IdentityKeyStore, PreKeyStore, SignedPreKeyStore, KyberPreKeyStore, SenderKeyStore,
}
use libsignal_zig.Examples.CppStore.{KvMap}
use libsignal_zig.Examples.Stores
use libsignal_zig.Examples.Stores.{Program, IdState}
use libsignal_zig.Examples.Lawful.{cpp_program}
use libsignal_zig.Examples.Tests
use libsignal_zig.Examples.Tests.{BobKeys, BobSeeds}

module _ {State : Type 0} (serialize : State → Bytes) (deserialize : Bytes → Result State) where
  abbrev pub sess_load : KvMap → Pointer ProtocolAddress → Outcome (Pointer (SessionRecord State))
  sess_load = Stores.sess_load cpp_program serialize deserialize

  abbrev pub sess_store_fn :
      KvMap → Pointer ProtocolAddress → Pointer (SessionRecord State) → Outcome KvMap
  sess_store_fn = Stores.sess_store_fn cpp_program serialize deserialize

  abbrev pub make_sess : SessionStore KvMap (SessionRecord State)
  make_sess = Stores.make_sess_store cpp_program serialize deserialize

abbrev pub id_get_kp :
    KeyGen → IdState cpp_program → Outcome (Pointer PublicKey × Pointer PrivateKey)
id_get_kp = Stores.id_get_kp cpp_program

abbrev pub id_get_reg : IdState cpp_program → Outcome ℕ
id_get_reg = Stores.id_get_reg cpp_program

abbrev pub id_save :
    IdState cpp_program
    → Pointer ProtocolAddress
    → Pointer PublicKey
    → Outcome (IdState cpp_program)
id_save = Stores.id_save cpp_program

abbrev pub id_trusted :
    IdState cpp_program → Pointer ProtocolAddress → Pointer PublicKey → ℕ → Outcome Bool
id_trusted = Stores.id_trusted cpp_program

abbrev pub id_get : IdState cpp_program → Pointer ProtocolAddress → Outcome (Pointer PublicKey)
id_get = Stores.id_get cpp_program

abbrev pub make_id : KeyGen → IdentityKeyStore (IdState cpp_program)
make_id = Stores.make_id_store cpp_program

abbrev pub pk_load : KvMap → ℕ → Outcome (Pointer PreKeyRecord)
pk_load = Stores.pk_load cpp_program

abbrev pub pk_store_fn : KvMap → ℕ → Pointer PreKeyRecord → Outcome KvMap
pk_store_fn = Stores.pk_store_fn cpp_program

abbrev pub pk_remove : KvMap → ℕ → Outcome KvMap
pk_remove = Stores.pk_remove cpp_program

abbrev pub make_pk : PreKeyStore KvMap
make_pk = Stores.make_pk_store cpp_program

abbrev pub spk_load : KvMap → ℕ → Outcome (Pointer SignedPreKeyRecord)
spk_load = Stores.spk_load cpp_program

abbrev pub spk_store_fn : KvMap → ℕ → Pointer SignedPreKeyRecord → Outcome KvMap
spk_store_fn = Stores.spk_store_fn cpp_program

abbrev pub make_spk : SignedPreKeyStore KvMap
make_spk = Stores.make_spk_store cpp_program

abbrev pub kpk_load : KvMap → ℕ → Outcome (Pointer KyberPreKeyRecord)
kpk_load = Stores.kpk_load cpp_program

abbrev pub kpk_store_fn : KvMap → ℕ → Pointer KyberPreKeyRecord → Outcome KvMap
kpk_store_fn = Stores.kpk_store_fn cpp_program

abbrev pub kpk_mark_used : KvMap → ℕ → Outcome KvMap
kpk_mark_used = Stores.kpk_mark_used cpp_program

abbrev pub make_kpk : KyberPreKeyStore KvMap
make_kpk = Stores.make_kpk_store cpp_program

abbrev pub sk_store_fn : KvMap → Pointer ProtocolAddress → Bytes → Pointer Bytes → Outcome KvMap
sk_store_fn = Stores.sk_store_fn cpp_program

abbrev pub sk_load_fn : KvMap → Pointer ProtocolAddress → Bytes → Outcome (Pointer Bytes)
sk_load_fn = Stores.sk_load_fn cpp_program

abbrev pub make_sk : SenderKeyStore KvMap
make_sk = Stores.make_sk_store cpp_program

abbrev pub sign_bytes : Xeddsa → Bytes → Bytes → Bytes → Outcome Buffer
sign_bytes = Tests.sign_bytes

abbrev pub test_ec_keys : Crypto → Xeddsa → KeyGen → Bytes → Bytes → Bytes → Outcome (Unit {0})
test_ec_keys = Tests.test_ec_keys

abbrev pub test_kyber_keys : KeyGen → Bytes → Outcome (Unit {0})
test_kyber_keys = Tests.test_kyber_keys

abbrev pub setup_bob :
    Xeddsa → KeyGen → BobSeeds → KvMap → KvMap → KvMap → Outcome (BobKeys × KvMap × KvMap × KvMap)
setup_bob = Tests.setup_bob cpp_program

abbrev pub test_group :
    Crypto → BlockCipher → Xeddsa → KeyGen → Bytes → Bytes → Bytes → Outcome (Unit {0})
test_group = Tests.test_group cpp_program

abbrev pub test_fingerprint : Crypto → KeyGen → Bytes → Bytes → Outcome (Unit {0})
test_fingerprint = Tests.test_fingerprint

abbrev pub test_account_keys : Crypto → Bytes → Outcome (Unit {0})
test_account_keys = Tests.test_account_keys
