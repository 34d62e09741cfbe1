-- ===== src/Tests/Formats.antt =====
-- The round trips of records and messages at concrete inputs.
use libsignal_zig.Prelude.{
  ◌≡◌, refl, sym, ap, true, none, some, [], ◌∷◌, ◌++◌, length, replicate, arith,
}
use libsignal_zig.Prelude.Bytes.{Bytes}
use libsignal_zig.Prelude.Result.{ok, ok_injective}
use libsignal_zig.Curve.{KeyPair}
use libsignal_zig.Xeddsa.{Xeddsa}
use libsignal_zig.Records.{SignedPreKeyRecord, KyberPreKeyRecord}
use libsignal_zig.Messages.Distribution.{DistributionMessage}
use libsignal_zig.Messages.Retry.{DecryptionErrorMessage}
use libsignal_zig.Messages.PreKeySignal.{
  PreKeySignalMessage, serialize_pre_key_signal, deserialize_pre_key_signal,
  deserialize-serialize_pre_key_signal,
}
use libsignal_zig.Messages.SenderKey.{
  SenderKeyMessage, signed_part, serialize_sender_key, deserialize_and_verify,
  deserialize_and_verify-serialize_sender_key, deserialize_and_verify_signed,
}

abbrev pair : KeyPair
pair = record {
  public_key = record { key_bytes = replicate 32 5 };
  private_key = record { key_bytes = replicate 32 6 };
}

abbrev signed : SignedPreKeyRecord
signed = record { id = 7; timestamp = 99; key_pair = pair; signature = replicate 64 1 }

abbrev kyber : KyberPreKeyRecord
kyber = record {
  id = 7;
  timestamp = 99;
  key_pair = record { public_key_bytes = replicate 1568 1; secret_key_bytes = replicate 3168 2 };
  signature = replicate 64 1;
}

abbrev distribution : DistributionMessage
distribution = record {
  distribution_uuid = replicate 16 1;
  chain_id = 3;
  iteration = 4;
  chain_key = replicate 32 2;
  signing_key = pair.public_key;
}

abbrev retry : DecryptionErrorMessage
retry = record { ratchet_key = pair.public_key; timestamp = 1_700_000_000; device_id = 1 }

abbrev first_message : PreKeySignalMessage
first_message = record {
  message_version = 4;
  registration_id = 11;
  pre_key_id = some 12;
  signed_pre_key_id = 13;
  kyber_pre_key_id = none;
  base_key = pair.public_key;
  identity_key = pair.public_key;
  kyber_ciphertext = some (1 ∷ 2 ∷ []);
  message = 3 ∷ [];
}

deserialize-serialize_pre_key_signal_example :
    deserialize_pre_key_signal (serialize_pre_key_signal first_message) ≡ ok first_message
deserialize-serialize_pre_key_signal_example =
    deserialize-serialize_pre_key_signal first_message (record {
      version = (omega arith, omega arith);
      registration_id = omega arith;
      pre_key_id = omega arith;
      signed_pre_key_id = omega arith;
      kyber_pre_key_id = tt;
      base_key = refl;
      identity_key = refl;
      kyber_ciphertext = omega arith;
      message = omega arith;
    })

-- A signature that is the same for every message.
abbrev pub stamp : Xeddsa
stamp = record {
  sign = λ key message random. ok (replicate 64 9);
  verify = λ key message signature. ok true;
  length-sign =
      λ key message random signature e. sym (ap (λ (s : Bytes). length s) (ok_injective e));
}

abbrev group_message : SenderKeyMessage
group_message = record {
  distribution_uuid = replicate 16 1;
  chain_id = 3;
  iteration = 4;
  ciphertext = replicate 16 8;
}

abbrev wire : Bytes
wire = signed_part group_message ++ replicate 64 9

accepted : deserialize_and_verify stamp wire pair.public_key ≡ ok group_message
unfolding serialize_sender_key
accepted =
    deserialize_and_verify-serialize_sender_key stamp group_message pair.private_key pair.public_key
      [] (replicate 64 9)
      (record {
        uuid = refl;
        chain_id = omega arith;
        iteration = omega arith;
        ciphertext = omega arith;
      })
      refl refl

deserialize_and_verify_signed_example :
    (signed_bytes sig : Bytes) × (wire ≡ signed_bytes ++ sig)
    × (length sig ≡ 64)
    × (stamp.verify pair.public_key.key_bytes signed_bytes sig ≡ ok true)
deserialize_and_verify_signed_example =
    deserialize_and_verify_signed stamp wire pair.public_key group_message accepted
