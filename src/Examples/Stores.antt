-- ===== src/Examples/Stores.antt =====
-- The store callbacks of examples/c/main.c, over the store of bytes and the texts of the
-- keys, which the C++ program has others of. A context is returned where the C code changes what
-- `ud` leads to.
use libsignal_zig.Prelude.{ℕ, ◌≡◌, Bool, true, false, Bool-cases, inl, inr, none, some}
use libsignal_zig.Prelude.Bytes.{Bytes}
use libsignal_zig.Prelude.Result.{Result}
use libsignal_zig.Curve.{PublicKey, PrivateKey}
use libsignal_zig.Curve.Generate.{KeyGen}
use libsignal_zig.Records.{PreKeyRecord, SignedPreKeyRecord, KyberPreKeyRecord}
use libsignal_zig.SessionRecord.{SessionRecord}
use libsignal_zig.Ffi.{Outcome, success, ◌>>=◌, Pointer, Buffer}
use libsignal_zig.Ffi.Address.{ProtocolAddress}
use libsignal_zig.Ffi.Keys.{
  signal_privatekey_deserialize, signal_privatekey_get_public_key, signal_publickey_serialize,
  signal_publickey_deserialize,
}
use libsignal_zig.Ffi.Records.{
  signal_pre_key_record_serialize, signal_pre_key_record_deserialize,
  signal_signed_pre_key_record_serialize, signal_signed_pre_key_record_deserialize,
  signal_kyber_pre_key_record_serialize, signal_kyber_pre_key_record_deserialize,
  signal_sender_key_record_serialize, signal_sender_key_record_deserialize,
  signal_session_record_serialize, signal_session_record_deserialize,
}
use libsignal_zig.Ffi.Stores.{
  SessionStore, IdentityKeyStore, PreKeyStore, SignedPreKeyStore, KyberPreKeyStore, SenderKeyStore,
}
use libsignal_zig.Examples.{Kv}

-- What the two programs have apart.
pub record Program : Type 1 where
  pub kv : Kv
  pub address_key : Pointer ProtocolAddress → Outcome Bytes
  pub sender_key : Pointer ProtocolAddress → Bytes → Outcome Bytes
  pub id_key : ℕ → Bytes
  -- Whether a text of an address is made before the record is serialized.
  pub key_first : Bool

module _ (P : Program) where
  -- A row that is not there gives a null pointer, without an error.
  abbrev pub load_row {ℓ} :
      {R : Type ℓ} → (Buffer → Outcome (Pointer R)) → P.kv.Store → Bytes → Outcome (Pointer R)
  load_row deserialize s k = elim (P.kv.get s k) [
    | none ↦ success none
    | some bytes ↦ deserialize bytes
  ]

  -- The error of the serialization is returned before the store is changed.
  abbrev pub store_row {ℓ} :
      {R : Type ℓ}
      → (Pointer R → Outcome Buffer)
      → P.kv.Store
      → Bytes
      → Pointer R
      → Outcome P.kv.Store
  store_row serialize s k r = do bytes ← serialize r; P.kv.put s k bytes

  abbrev store_in_order {ℓ} :
      {R : Type ℓ}
      → (Pointer R → Outcome Buffer)
      → P.kv.Store
      → Outcome Bytes
      → Pointer R
      → Bool
      → Outcome P.kv.Store
  store_in_order serialize s key r true = do k ← key; store_row serialize s k r
  store_in_order serialize s key r false = do bytes ← serialize r; k ← key; P.kv.put s k bytes

  -- With the key still to be made, which the two programs do before and after the serialization.
  abbrev pub store_keyed {ℓ} :
      {R : Type ℓ}
      → (Pointer R → Outcome Buffer)
      → P.kv.Store
      → Outcome Bytes
      → Pointer R
      → Outcome P.kv.Store
  store_keyed serialize s key r = store_in_order serialize s key r P.key_first

  pub store_keyed_lem {ℓ} :
      {R : Type ℓ} (serialize : Pointer R → Outcome Buffer) (s : P.kv.Store) (k : Bytes)
      (r : Pointer R)
      → store_keyed serialize s (success k) r ≡ store_row serialize s k r
  store_keyed_lem serialize s k r = elim (Bool-cases P.key_first) [
    | inl first ↦ rw (store_keyed, first)
    | inr last ↦ rw (store_keyed, last)
  ]

  module _ {State : Type 0} (serialize : State → Bytes) (deserialize : Bytes → Result State) where
    unfoldable pub sess_load :
        P.kv.Store → Pointer ProtocolAddress → Outcome (Pointer (SessionRecord State))
    sess_load s addr = do
      k ← P.address_key addr
      load_row (signal_session_record_deserialize serialize deserialize) s k

    unfoldable pub sess_store_fn :
        P.kv.Store → Pointer ProtocolAddress → Pointer (SessionRecord State) → Outcome P.kv.Store
    sess_store_fn s addr rec =
        store_keyed (signal_session_record_serialize serialize deserialize) s (P.address_key addr)
          rec

  pub record IdState : Type 0 where
    pub priv_bytes : Bytes
    pub reg_id : ℕ
    pub trusted : P.kv.Store

  unfoldable pub id_get_kp : KeyGen → IdState → Outcome (Pointer PublicKey × Pointer PrivateKey)
  id_get_kp gen s = do
    out_priv ← signal_privatekey_deserialize s.priv_bytes
    out_pub ← signal_privatekey_get_public_key gen out_priv
    success (out_pub, out_priv)

  unfoldable pub id_get_reg : IdState → Outcome ℕ
  id_get_reg s = success s.reg_id

  unfoldable pub id_save : IdState → Pointer ProtocolAddress → Pointer PublicKey → Outcome IdState
  id_save s addr key = do
    trusted ← store_keyed signal_publickey_serialize s.trusted (P.address_key addr) key
    success (record s { trusted = trusted })

  -- Every identity is trusted.
  unfoldable pub id_trusted :
      IdState → Pointer ProtocolAddress → Pointer PublicKey → ℕ → Outcome Bool
  id_trusted s addr key dir = success true

  unfoldable pub id_get : IdState → Pointer ProtocolAddress → Outcome (Pointer PublicKey)
  id_get s addr = do k ← P.address_key addr; load_row signal_publickey_deserialize s.trusted k

  unfoldable pub pk_load : P.kv.Store → ℕ → Outcome (Pointer PreKeyRecord)
  pk_load s id = load_row signal_pre_key_record_deserialize s (P.id_key id)

  unfoldable pub pk_store_fn : P.kv.Store → ℕ → Pointer PreKeyRecord → Outcome P.kv.Store
  pk_store_fn s id rec = store_row signal_pre_key_record_serialize s (P.id_key id) rec

  -- Nothing is removed, and no use is marked.
  unfoldable pub pk_remove : P.kv.Store → ℕ → Outcome P.kv.Store
  pk_remove s id = success s

  unfoldable pub spk_load : P.kv.Store → ℕ → Outcome (Pointer SignedPreKeyRecord)
  spk_load s id = load_row signal_signed_pre_key_record_deserialize s (P.id_key id)

  unfoldable pub spk_store_fn : P.kv.Store → ℕ → Pointer SignedPreKeyRecord → Outcome P.kv.Store
  spk_store_fn s id rec = store_row signal_signed_pre_key_record_serialize s (P.id_key id) rec

  unfoldable pub kpk_load : P.kv.Store → ℕ → Outcome (Pointer KyberPreKeyRecord)
  kpk_load s id = load_row signal_kyber_pre_key_record_deserialize s (P.id_key id)

  unfoldable pub kpk_store_fn : P.kv.Store → ℕ → Pointer KyberPreKeyRecord → Outcome P.kv.Store
  kpk_store_fn s id rec = store_row signal_kyber_pre_key_record_serialize s (P.id_key id) rec

  unfoldable pub kpk_mark_used : P.kv.Store → ℕ → Outcome P.kv.Store
  kpk_mark_used s id = success s

  unfoldable pub sk_store_fn :
      P.kv.Store → Pointer ProtocolAddress → Bytes → Pointer Bytes → Outcome P.kv.Store
  sk_store_fn s sender dist_id rec =
      store_keyed signal_sender_key_record_serialize s (P.sender_key sender dist_id) rec

  unfoldable pub sk_load_fn : P.kv.Store → Pointer ProtocolAddress → Bytes → Outcome (Pointer Bytes)
  sk_load_fn s sender dist_id = do
    k ← P.sender_key sender dist_id
    load_row signal_sender_key_record_deserialize s k

  abbrev pub make_sess_store :
      {State : Type 0} (serialize : State → Bytes) (deserialize : Bytes → Result State)
      → SessionStore P.kv.Store (SessionRecord State)
  make_sess_store serialize deserialize = record {
    load_session = some (sess_load serialize deserialize);
    store_session = some (sess_store_fn serialize deserialize);
    destroy = none;
  }

  abbrev pub make_id_store : KeyGen → IdentityKeyStore IdState
  make_id_store gen = record {
    get_identity_key_pair = some (id_get_kp gen);
    get_local_registration_id = some id_get_reg;
    save_identity = some id_save;
    is_trusted_identity = some id_trusted;
    get_identity = some id_get;
    destroy = none;
  }

  abbrev pub make_pk_store : PreKeyStore P.kv.Store
  make_pk_store = record {
    load_pre_key = some pk_load;
    store_pre_key = some pk_store_fn;
    remove_pre_key = some pk_remove;
    destroy = none;
  }

  abbrev pub make_spk_store : SignedPreKeyStore P.kv.Store
  make_spk_store = record {
    load_signed_pre_key = some spk_load;
    store_signed_pre_key = some spk_store_fn;
    destroy = none;
  }

  abbrev pub make_kpk_store : KyberPreKeyStore P.kv.Store
  make_kpk_store = record {
    load_kyber_pre_key = some kpk_load;
    store_kyber_pre_key = some kpk_store_fn;
    mark_kyber_pre_key_used = some kpk_mark_used;
    destroy = none;
  }

  abbrev pub make_sk_store : SenderKeyStore P.kv.Store
  make_sk_store = record {
    store_sender_key = some sk_store_fn;
    load_sender_key = some sk_load_fn;
    destroy = none;
  }
