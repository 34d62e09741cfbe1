-- ===== src/Ffi/SenderKeys.antt =====
-- src/ffi/session.zig: the bridge to a C program's sender key store, and the calls for groups. The
-- `void *ctx` of the header's `SignalSenderKeyStore` leads to a context that the calls return.
use libsignal_zig.Prelude.{Option, none, some, length, ◌==◌, not}
use libsignal_zig.Prelude.Bytes.{Bytes}
use libsignal_zig.Prelude.Result.{Result, ok, or_null}
use libsignal_zig.Crypto.{Crypto}
use libsignal_zig.Xeddsa.{Xeddsa}
use libsignal_zig.AesCbc.{BlockCipher}
use libsignal_zig.Curve.Generate.{KeyGen, generate}
use libsignal_zig.Messages.Distribution.{DistributionMessage}
use libsignal_zig.Group.{
  SenderKeyState, deserialize_state, distribution_of, create_session, process_session,
  group_encrypt, group_decrypt,
}
use libsignal_zig.Ffi.{
  Outcome, success, failure, ◌>>=◌, ◌>>◌, Pointer, Buffer, catch, non_null, refuse_if, callback,
}
use libsignal_zig.Ffi.ErrorCode.{ZigCode}
use libsignal_zig.Ffi.Stores.{SenderKeyStore}
use libsignal_zig.Ffi.Address.{ProtocolAddress}

-- `self.c.f orelse return BridgeError.StoreCallbackFailed`
abbrev pub bridged {ℓ} : {A : Type ℓ} → Pointer A → Outcome A
bridged none = failure ZigCode.internal_error
bridged (some f) = success f

-- The record in the store that parses, if there is one: what `createSession` reuses.
abbrev pub existing_state : Option Bytes → Result (Option SenderKeyState)
existing_state none = ok none
existing_state (some bytes) = or_null (deserialize_state bytes)

module _ {Ctx : Type 0} (store : SenderKeyStore Ctx) where
  abbrev pub bridge_store : Ctx → ProtocolAddress → Bytes → Bytes → Outcome Ctx
  bridge_store ctx sender distribution_id bytes = do
    f ← bridged store.store_sender_key
    callback (f ctx (some sender) distribution_id (some bytes))

  abbrev pub bridge_load : Ctx → ProtocolAddress → Bytes → Outcome (Option Bytes)
  bridge_load ctx sender distribution_id = do
    f ← bridged store.load_sender_key
    callback (f ctx (some sender) distribution_id)

  -- With the chain key and the seed of the key pair that a new session draws.
  unfoldable pub signal_sender_key_distribution_message_create :
      KeyGen
      → Ctx
      → Pointer ProtocolAddress
      → Buffer
      → Bytes
      → Bytes
      → Outcome (Pointer DistributionMessage × Ctx)
  signal_sender_key_distribution_message_create gen ctx sender distribution_id chain_key seed = do
    addr ← non_null sender
    refuse_if (not (length distribution_id == 16)) ZigCode.invalid_argument
    stored ← bridge_load ctx addr distribution_id
    existing ← catch (existing_state stored)
    elim existing [
      | some s ↦ success (some (distribution_of s), ctx)
      | none ↦ do
        kp ← catch (generate gen seed)
        (m, bytes) ← catch (create_session none distribution_id chain_key kp)
        ctx' ← bridge_store ctx addr distribution_id bytes
        success (some m, ctx')
    ]

  unfoldable pub signal_process_sender_key_distribution_message :
      Ctx → Pointer ProtocolAddress → Pointer DistributionMessage → Outcome Ctx
  signal_process_sender_key_distribution_message ctx sender msg = do
    addr ← non_null sender
    m ← non_null msg
    bridge_store ctx addr m.distribution_uuid (process_session m)

  module _ (crypto : Crypto) (aes : BlockCipher) (xeddsa : Xeddsa) where
    unfoldable pub signal_group_encrypt_message :
        Ctx → Pointer ProtocolAddress → Buffer → Buffer → Bytes → Outcome (Buffer × Ctx)
    signal_group_encrypt_message ctx sender distribution_id plaintext random = do
      addr ← non_null sender
      refuse_if (not (length distribution_id == 16)) ZigCode.invalid_argument
      stored ← bridge_load ctx addr distribution_id
      (ciphertext, bytes) ← catch (group_encrypt crypto aes xeddsa stored plaintext random)
      ctx' ← bridge_store ctx addr distribution_id bytes
      success (ciphertext, ctx')

    unfoldable pub signal_group_decrypt_message :
        Ctx → Pointer ProtocolAddress → Buffer → Buffer → Outcome (Buffer × Ctx)
    signal_group_decrypt_message ctx sender distribution_id ciphertext = do
      addr ← non_null sender
      refuse_if (not (length distribution_id == 16)) ZigCode.invalid_argument
      stored ← bridge_load ctx addr distribution_id
      (plaintext, bytes) ← catch (group_decrypt crypto aes xeddsa stored ciphertext)
      ctx' ← bridge_store ctx addr distribution_id bytes
      success (plaintext, ctx')
