-- ===== src/Ffi/Records.antt =====
-- src/ffi/records.zig, and the Kyber records of src/ffi/keys.zig: records behind pointers.
use libsignal_zig.Prelude.{ℕ, some, length, ◌==◌, not}
use libsignal_zig.Prelude.Bytes.{Bytes}
use libsignal_zig.Prelude.Result.{Result}
use libsignal_zig.Curve.{PublicKey, PrivateKey}
use libsignal_zig.Ratchet.Agreement.{KyberKeyPair}
use libsignal_zig.Records.{
  PreKeyRecord, SignedPreKeyRecord, KyberPreKeyRecord, serialize_pre_key, deserialize_pre_key,
  serialize_signed_pre_key, deserialize_signed_pre_key, serialize_kyber_pre_key,
  deserialize_kyber_pre_key,
}
use libsignal_zig.SessionRecord.{SessionRecord, serialize_record, deserialize_record}
use libsignal_zig.Ffi.{Outcome, success, ◌>>=◌, ◌>>◌, Pointer, Buffer, catch, non_null, refuse_if}
use libsignal_zig.Ffi.ErrorCode.{ZigCode}

abbrev pub signal_pre_key_record_new :
    ℕ → Pointer PublicKey → Pointer PrivateKey → Outcome (Pointer PreKeyRecord)
signal_pre_key_record_new id public_key private_key = do
  pk ← non_null public_key
  sk ← non_null private_key
  success (some (record { id = id; key_pair = record { public_key = pk; private_key = sk } }))

abbrev pub signal_pre_key_record_serialize : Pointer PreKeyRecord → Outcome Buffer
signal_pre_key_record_serialize obj = do r ← non_null obj; success (serialize_pre_key r)

abbrev pub signal_pre_key_record_deserialize : Buffer → Outcome (Pointer PreKeyRecord)
signal_pre_key_record_deserialize data_bytes = do
  inner ← catch (deserialize_pre_key data_bytes)
  success (some inner)

abbrev pub signal_pre_key_record_get_public_key : Pointer PreKeyRecord → Outcome (Pointer PublicKey)
signal_pre_key_record_get_public_key obj = do r ← non_null obj; success (some r.key_pair.public_key)

abbrev pub signal_signed_pre_key_record_new :
    ℕ → ℕ → Pointer PublicKey → Pointer PrivateKey → Buffer → Outcome (Pointer SignedPreKeyRecord)
signal_signed_pre_key_record_new id timestamp public_key private_key signature = do
  pk ← non_null public_key
  sk ← non_null private_key
  refuse_if (not (length signature == 64)) ZigCode.invalid_signature
  success (
      some (record {
        id = id;
        timestamp = timestamp;
        key_pair = record { public_key = pk; private_key = sk };
        signature = signature;
      }))

abbrev pub signal_signed_pre_key_record_serialize : Pointer SignedPreKeyRecord → Outcome Buffer
signal_signed_pre_key_record_serialize obj = do
  r ← non_null obj
  success (serialize_signed_pre_key r)

abbrev pub signal_signed_pre_key_record_deserialize : Buffer → Outcome (Pointer SignedPreKeyRecord)
signal_signed_pre_key_record_deserialize data_bytes = do
  inner ← catch (deserialize_signed_pre_key data_bytes)
  success (some inner)

abbrev pub signal_kyber_pre_key_record_new :
    ℕ → ℕ → Pointer KyberKeyPair → Buffer → Outcome (Pointer KyberPreKeyRecord)
signal_kyber_pre_key_record_new id timestamp key_pair signature = do
  kp ← non_null key_pair
  refuse_if (not (length signature == 64)) ZigCode.invalid_signature
  success (some (record { id = id; timestamp = timestamp; key_pair = kp; signature = signature }))

abbrev pub signal_kyber_pre_key_record_serialize : Pointer KyberPreKeyRecord → Outcome Buffer
signal_kyber_pre_key_record_serialize obj = do r ← non_null obj; success (serialize_kyber_pre_key r)

abbrev pub signal_kyber_pre_key_record_deserialize : Buffer → Outcome (Pointer KyberPreKeyRecord)
signal_kyber_pre_key_record_deserialize data_bytes = do
  inner ← catch (deserialize_kyber_pre_key data_bytes)
  success (some inner)

-- A sender key record is a blob of bytes.
abbrev pub signal_sender_key_record_serialize : Pointer Bytes → Outcome Buffer
signal_sender_key_record_serialize obj = non_null obj

abbrev pub signal_sender_key_record_deserialize : Buffer → Outcome (Pointer Bytes)
signal_sender_key_record_deserialize data_bytes = success (some data_bytes)

module _ {State : Type 0} (serialize : State → Bytes) (deserialize : Bytes → Result State) where
  abbrev pub signal_session_record_serialize : Pointer (SessionRecord State) → Outcome Buffer
  signal_session_record_serialize obj = do
    r ← non_null obj
    success (serialize_record serialize deserialize r)

  abbrev pub signal_session_record_deserialize : Buffer → Outcome (Pointer (SessionRecord State))
  signal_session_record_deserialize data_bytes = do
    inner ← catch (deserialize_record serialize deserialize data_bytes)
    success (some inner)
