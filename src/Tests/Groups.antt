-- ===== src/Tests/Groups.antt =====
-- Group messages on concrete states, with primitives simple enough to run.
use libsignal_zig.Prelude.{ℕ, ◌^◌, ◌<◌, ◌≡◌, refl, some, [], ◌∷◌, length, replicate, arith}
use libsignal_zig.Prelude.Bytes.{Bytes}
use libsignal_zig.Prelude.Result.{ok, err, ◌>>=◌, duplicate_message}
use libsignal_zig.Kdf.{next_sender_chain_key}
use libsignal_zig.Curve.{KeyPair}
use libsignal_zig.Messages.Distribution.{serialize_distribution, deserialize_distribution}
use libsignal_zig.Group.{
  SenderKeyState, serialize_state, distribution_of, create_session, process_session, group_encrypt,
  group_decrypt,
}
use libsignal_zig.Group.Record.{IsSenderKeyState}
use libsignal_zig.Group.Exchange.{
  chain_after, Follows, Sent, group_decrypt_replay, process_session-create_session,
}
use libsignal_zig.Tests.{toy}
use libsignal_zig.Tests.Formats.{stamp}
use libsignal_zig.Tests.Sessions.{plain_cipher}

abbrev signer : KeyPair
signer = record {
  public_key = record { key_bytes = replicate 32 4 };
  private_key = record { key_bytes = replicate 32 5 };
}

abbrev pub at : ℕ → Bytes → SenderKeyState
at iteration chain_key = record {
  message_version = 3;
  chain_id = 77;
  chain_key = chain_key;
  iteration = iteration;
  signing_key_pair = signer;
  distribution_uuid = replicate 16 6;
}

abbrev pub receiver : SenderKeyState
receiver = at 2 (replicate 32 8)

-- Two messages were lost.
abbrev pub sender : SenderKeyState
sender = at 4 (chain_after toy 2 (replicate 32 8))

pub at-IsSenderKeyState :
    (iteration : ℕ) (chain_key : Bytes)
    → iteration < 2 ^ 32
    → length chain_key ≡ 32
    → IsSenderKeyState (at iteration chain_key)
at-IsSenderKeyState iteration chain_key small size = record {
  message_version = omega arith;
  chain_id = omega arith;
  chain_key = size;
  iteration = small;
  signing_key_pair = record { public = refl; private = refl };
  distribution_uuid = refl;
}

pub sender-IsSenderKeyState : IsSenderKeyState sender
unfolding chain_after next_sender_chain_key
sender-IsSenderKeyState =
    at-IsSenderKeyState 4 (chain_after toy 2 (replicate 32 8)) (omega arith) refl

sent :
    (r : SenderKeyState)
    → IsSenderKeyState r
    → Sent toy plain_cipher stamp sender r (1 ∷ 2 ∷ []) [] (replicate 64 9)
sent r valid = record {
  sender = sender-IsSenderKeyState;
  receiver = valid;
  room = omega arith;
  plaintext_size = omega arith;
  signed = refl;
  verified = refl;
}

abbrev later : SenderKeyState
later = at 5 (replicate 32 3)

group_decrypt_replay_example :
    (group_encrypt toy plain_cipher stamp (some (serialize_state sender)) (1 ∷ 2 ∷ []) []
      >>= λ sent_bytes.
          group_decrypt toy plain_cipher stamp (some (serialize_state later)) sent_bytes.0)
    ≡ err duplicate_message
group_decrypt_replay_example =
    group_decrypt_replay toy plain_cipher stamp sender later (1 ∷ 2 ∷ []) [] (replicate 64 9)
      (sent later (at-IsSenderKeyState 5 (replicate 32 3) (omega arith) refl)) refl (omega arith)

process_session-create_session_example :
    (r : SenderKeyState) × (create_session (some (serialize_state receiver)) [] [] signer
      ≡ ok (distribution_of receiver, serialize_state receiver))
    × ((deserialize_distribution (serialize_distribution (distribution_of receiver)) >>= λ m.
          ok (process_session m))
        ≡ ok (serialize_state r))
    × IsSenderKeyState r
    × (r.signing_key_pair.public_key ≡ signer.public_key)
    × (r.signing_key_pair.private_key.key_bytes ≡ replicate 32 0)
    × Follows toy r receiver 0
process_session-create_session_example =
    process_session-create_session toy receiver [] [] signer
      (at-IsSenderKeyState 2 (replicate 32 8) (omega arith) refl)
