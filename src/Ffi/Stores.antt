-- ===== src/Ffi/Stores.antt =====
-- include/signal_ffi.h: the tables of callbacks that a C program passes for its stores. What the
-- `void *ctx` leads to is a context, which the callbacks that change it return.
use libsignal_zig.Prelude.{ℕ, Bool}
use libsignal_zig.Prelude.Bytes.{Bytes}
use libsignal_zig.Curve.{PublicKey, PrivateKey}
use libsignal_zig.Records.{PreKeyRecord, SignedPreKeyRecord, KyberPreKeyRecord}
use libsignal_zig.Ffi.{Outcome, Pointer}
use libsignal_zig.Ffi.Address.{ProtocolAddress}

module _ (Ctx : Type 0) where
  pub record SessionStore (Session : Type 0) : Type 0 where
    pub load_session : Pointer (Ctx → Pointer ProtocolAddress → Outcome (Pointer Session))
    pub store_session : Pointer (Ctx → Pointer ProtocolAddress → Pointer Session → Outcome Ctx)
    pub destroy : Pointer (Ctx → Outcome (Unit {0}))

  pub record IdentityKeyStore : Type 0 where
    pub get_identity_key_pair : Pointer (Ctx → Outcome (Pointer PublicKey × Pointer PrivateKey))
    pub get_local_registration_id : Pointer (Ctx → Outcome ℕ)
    pub save_identity : Pointer (Ctx → Pointer ProtocolAddress → Pointer PublicKey → Outcome Ctx)
    pub is_trusted_identity :
        Pointer (Ctx → Pointer ProtocolAddress → Pointer PublicKey → ℕ → Outcome Bool)
    pub get_identity : Pointer (Ctx → Pointer ProtocolAddress → Outcome (Pointer PublicKey))
    pub destroy : Pointer (Ctx → Outcome (Unit {0}))

  pub record PreKeyStore : Type 0 where
    pub load_pre_key : Pointer (Ctx → ℕ → Outcome (Pointer PreKeyRecord))
    pub store_pre_key : Pointer (Ctx → ℕ → Pointer PreKeyRecord → Outcome Ctx)
    pub remove_pre_key : Pointer (Ctx → ℕ → Outcome Ctx)
    pub destroy : Pointer (Ctx → Outcome (Unit {0}))

  pub record SignedPreKeyStore : Type 0 where
    pub load_signed_pre_key : Pointer (Ctx → ℕ → Outcome (Pointer SignedPreKeyRecord))
    pub store_signed_pre_key : Pointer (Ctx → ℕ → Pointer SignedPreKeyRecord → Outcome Ctx)
    pub destroy : Pointer (Ctx → Outcome (Unit {0}))

  pub record KyberPreKeyStore : Type 0 where
    pub load_kyber_pre_key : Pointer (Ctx → ℕ → Outcome (Pointer KyberPreKeyRecord))
    pub store_kyber_pre_key : Pointer (Ctx → ℕ → Pointer KyberPreKeyRecord → Outcome Ctx)
    pub mark_kyber_pre_key_used : Pointer (Ctx → ℕ → Outcome Ctx)
    pub destroy : Pointer (Ctx → Outcome (Unit {0}))

  pub record SenderKeyStore : Type 0 where
    pub store_sender_key :
        Pointer (Ctx → Pointer ProtocolAddress → Bytes → Pointer Bytes → Outcome Ctx)
    pub load_sender_key : Pointer (Ctx → Pointer ProtocolAddress → Bytes → Outcome (Pointer Bytes))
    pub destroy : Pointer (Ctx → Outcome (Unit {0}))
