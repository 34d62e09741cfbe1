-- ===== src/Group/Exchange.antt =====
-- A sender's and a receiver's sender key states over src/group_cipher.zig.
use libsignal_zig.Prelude.{
  ℕ, zero, suc, ◌+◌, ◌-◌, ◌^◌, ◌<◌, ◌≡◌, refl, ◌∙◌, some, ◌++◌, length, lt→ltb, le→ltb, ◌==◌, arith,
  true, false, replicate, lt→leb, drop, length-take, length-drop,
}
use libsignal_zig.Prelude.Bytes.{Bytes, slice}
use libsignal_zig.Prelude.Result.{ok, err, ◌>>=◌, duplicate_message}
use libsignal_zig.Crypto.{Crypto}
use libsignal_zig.Xeddsa.{Xeddsa}
use libsignal_zig.AesCbc.{BlockCipher, encrypt, decrypt, length-encrypt, decrypt-encrypt}
use libsignal_zig.Curve.{KeyPair}
use libsignal_zig.Messages.Distribution.{
  serialize_distribution, deserialize_distribution, deserialize-serialize_distribution,
}
use libsignal_zig.Kdf.{sender_key_derive, next_sender_chain_key}
use libsignal_zig.Messages.SenderKey.{
  SenderKeyMessage, signed_part, serialize_sender_key, IsSenderKey, deserialize_and_verify,
  deserialize_and_verify-serialize_sender_key,
}
use libsignal_zig.Group.{
  SenderKeyState, serialize_state, distribution_of, create_session, process_session, step, catch_up,
  group_encrypt, group_decrypt,
}
use libsignal_zig.Group.Record.{IsSenderKeyState, deserialize-serialize_state}

module _ (crypto : Crypto) where
  -- The chain key so many messages on.
  unfoldable pub chain_after : ℕ → Bytes → Bytes
  chain_after zero chain_key = chain_key
  chain_after (suc n) chain_key = chain_after n (next_sender_chain_key crypto chain_key)

  catch_up_lem :
      (n : ℕ) (s : SenderKeyState) (target : ℕ)
      → target ≡ s.iteration + n
      → target < 2 ^ 32
      → catch_up crypto n target s
        ≡ ok (record s { iteration = target; chain_key = chain_after n s.chain_key })
  unfolding catch_up step chain_after
  catch_up_lem zero s target e small =
      let here : s.iteration ≡ target = omega (arith, e) in
      rw (← here, le→ltb s.iteration s.iteration (omega arith))
  catch_up_lem (suc n) s target e small =
      let s' : SenderKeyState = record s {
        iteration = s.iteration + 1;
        chain_key = next_sender_chain_key crypto s.chain_key;
      } in
      rw
        (
          lt→ltb s.iteration target (omega (arith, e)),
          lt→leb (2 ^ 32) (s.iteration + 1) (omega (arith, e)),
        )
        (catch_up_lem n s' target (omega (arith, e)) small)

  slice_iv : (bs : Bytes) → length bs ≡ 80 → length (slice 32 16 bs) ≡ 16
  slice_iv bs h = omega (arith, length-take 16 (drop 32 bs), length-drop 32 bs)

  length-sender_iv :
      (iteration : ℕ) (chain_key : Bytes)
      → length (sender_key_derive crypto iteration chain_key).iv ≡ 16
  unfolding sender_key_derive
  length-sender_iv iteration chain_key = slice_iv _ (crypto.length-expand 80 _ _)

  -- A receiver's state that so many messages were lost on the way to a sender's.
  pub record Follows (r s : SenderKeyState) (lost : ℕ) : Type 0 where
    pub chain_id : r.chain_id ≡ s.chain_id
    pub iteration : s.iteration ≡ r.iteration + lost
    pub chain_key : s.chain_key ≡ chain_after lost r.chain_key

  -- A state after the message of the first state in its chain.
  unfoldable pub after : SenderKeyState → SenderKeyState → SenderKeyState
  after s x = record x {
    iteration = s.iteration + 1;
    chain_key = next_sender_chain_key crypto s.chain_key;
  }

  module _ (aes : BlockCipher) (xeddsa : Xeddsa) where
    abbrev pub message_of : SenderKeyState → Bytes → SenderKeyMessage
    message_of s plaintext =
        let derived = sender_key_derive crypto s.iteration s.chain_key in
        record {
          distribution_uuid = s.distribution_uuid;
          chain_id = s.chain_id;
          iteration = s.iteration;
          ciphertext = encrypt aes derived.cipher_key derived.iv plaintext;
        }

    -- A signed message of the sender, before the last u32 iteration.
    pub record Sent (s r : SenderKeyState) (plaintext random sig : Bytes) : Type 0 where
      pub sender : IsSenderKeyState s
      pub receiver : IsSenderKeyState r
      pub room : s.iteration + 1 < 2 ^ 32
      pub plaintext_size : length plaintext < 2 ^ 62
      pub signed :
          xeddsa.sign s.signing_key_pair.private_key.key_bytes
            (signed_part (message_of s plaintext))
            random
          ≡ ok sig
      pub verified :
          xeddsa.verify r.signing_key_pair.public_key.key_bytes
            (signed_part (message_of s plaintext))
            sig
          ≡ ok true

    module _ (s r : SenderKeyState) (plaintext random sig : Bytes)
        (sent : Sent s r plaintext random sig) where
      message_of-IsSenderKey : IsSenderKey (message_of s plaintext)
      message_of-IsSenderKey =
          let size =
            length-encrypt aes (sender_key_derive crypto s.iteration s.chain_key).cipher_key
              (sender_key_derive crypto s.iteration s.chain_key).iv plaintext
              (length-sender_iv s.iteration s.chain_key) in
          record {
            uuid = sent.sender.distribution_uuid;
            chain_id = sent.sender.chain_id;
            iteration = sent.sender.iteration;
            ciphertext = omega (arith, size, sent.plaintext_size);
          }

      received :
          deserialize_and_verify xeddsa
            (signed_part (message_of s plaintext) ++ sig)
            r.signing_key_pair.public_key
          ≡ ok (message_of s plaintext)
      unfolding serialize_sender_key
      received =
          rw sent.signed refl
          ∙ deserialize_and_verify-serialize_sender_key xeddsa (message_of s plaintext)
              s.signing_key_pair.private_key r.signing_key_pair.public_key random sig
              message_of-IsSenderKey sent.signed sent.verified

      pub group_encrypt_lem :
          group_encrypt crypto aes xeddsa (some (serialize_state s)) plaintext random
          ≡ ok (signed_part (message_of s plaintext) ++ sig, serialize_state (after s s))
      unfolding group_encrypt step serialize_sender_key after
      group_encrypt_lem = rw (
        deserialize-serialize_state s sent.sender,
        sent.signed,
        lt→leb (2 ^ 32) (s.iteration + 1) sent.room,
      )

      opened :
          decrypt aes
            (sender_key_derive crypto s.iteration s.chain_key).cipher_key
            (sender_key_derive crypto s.iteration s.chain_key).iv
            (message_of s plaintext).ciphertext
          ≡ ok plaintext
      opened =
          decrypt-encrypt aes (sender_key_derive crypto s.iteration s.chain_key).cipher_key
            (sender_key_derive crypto s.iteration s.chain_key).iv plaintext
            (length-sender_iv s.iteration s.chain_key)

      pub after-IsSenderKeyState :
          (x : SenderKeyState) → IsSenderKeyState x → IsSenderKeyState (after s x)
      unfolding after next_sender_chain_key
      after-IsSenderKeyState x valid = record {
        message_version = valid.message_version;
        chain_id = valid.chain_id;
        chain_key = crypto.length-expand 32 _ _;
        iteration = sent.room;
        signing_key_pair = valid.signing_key_pair;
        distribution_uuid = valid.distribution_uuid;
      }

      pub group_decrypt_lem :
          (lost : ℕ)
          → Follows r s lost
          → group_decrypt crypto aes xeddsa
              (some (serialize_state r))
              (signed_part (message_of s plaintext) ++ sig)
            ≡ ok (plaintext, serialize_state (after s r))
      unfolding group_decrypt step after
      group_decrypt_lem lost f =
          let same : (s.chain_id == r.chain_id) ≡ true = ground (arith, f.chain_id) in
          let again : (s.iteration == s.iteration) ≡ true = ground arith in
          let rounds : s.iteration - r.iteration ≡ lost = omega (arith, f.iteration) in
          rw (
            deserialize-serialize_state r sent.receiver,
            received,
            same,
            rounds,
            catch_up_lem lost r s.iteration f.iteration (omega (arith, sent.room)),
            again,
            ← f.chain_key,
            opened,
            lt→leb (2 ^ 32) (s.iteration + 1) sent.room,
          )

      -- A message in a sender's chain is decrypted by a receiver that so many messages were lost
      -- to, when the sender signs it and the receiver's key verifies the signature, on stored
      -- states of u32 numbers and 32-byte keys. Afterwards the states are valid, and the receiver
      -- follows the sender with nothing lost.
      pub group_decrypt-group_encrypt :
          (lost : ℕ)
          → Follows r s lost
          → (wire : Bytes) × (s' : SenderKeyState) × (r' : SenderKeyState) × (group_encrypt crypto
                aes xeddsa
                (some (serialize_state s))
                plaintext
                random
              ≡ ok (wire, serialize_state s'))
            × (group_decrypt crypto aes xeddsa (some (serialize_state r)) wire
                ≡ ok (plaintext, serialize_state r'))
            × IsSenderKeyState s'
            × IsSenderKeyState r'
            × Follows r' s' 0
      unfolding after chain_after
      group_decrypt-group_encrypt lost f = (
        signed_part (message_of s plaintext) ++ sig,
        after s s,
        after s r,
        group_encrypt_lem,
        group_decrypt_lem lost f,
        after-IsSenderKeyState s sent.sender,
        after-IsSenderKeyState r sent.receiver,
        record { chain_id = f.chain_id; iteration = omega arith; chain_key = refl },
      )

      -- A message of the chain that a receiver has gone past, a replay among them, is refused as a
      -- duplicate, however validly it is signed.
      pub group_decrypt_replay :
          r.chain_id ≡ s.chain_id
          → s.iteration < r.iteration
          → (group_encrypt crypto aes xeddsa (some (serialize_state s)) plaintext random
              >>= λ sent_bytes.
                  group_decrypt crypto aes xeddsa (some (serialize_state r)) sent_bytes.0)
            ≡ err duplicate_message
      unfolding group_decrypt catch_up
      group_decrypt_replay chain past =
          let same : (s.chain_id == r.chain_id) ≡ true = ground (arith, chain) in
          let behind : (r.iteration == s.iteration) ≡ false = ground (arith, past) in
          let rounds : s.iteration - r.iteration ≡ 0 = omega (arith, past) in
          rw (
            group_encrypt_lem,
            deserialize-serialize_state r sent.receiver,
            received,
            same,
            rounds,
            le→ltb r.iteration s.iteration (omega (arith, past)),
            behind,
          )

  abbrev pub copy_of : SenderKeyState → SenderKeyState
  copy_of s = record {
    message_version = 3;
    chain_id = s.chain_id;
    chain_key = s.chain_key;
    iteration = s.iteration;
    signing_key_pair = record {
      public_key = s.signing_key_pair.public_key;
      private_key = record { key_bytes = replicate 32 0 };
    };
    distribution_uuid = s.distribution_uuid;
  }

  -- The distribution message of a stored sender key state, sent, parsed and processed, leaves the
  -- sender's record as it was, and stores at the receiver a valid state that follows it with
  -- nothing lost, with the sender's signature key, and 32 zero bytes in place of the private key.
  pub process_session-create_session :
      (s : SenderKeyState) (distribution_id chain_key : Bytes) (signing_kp : KeyPair)
      → IsSenderKeyState s
      → (r : SenderKeyState) × (create_session
            (some (serialize_state s))
            distribution_id
            chain_key
            signing_kp
          ≡ ok (distribution_of s, serialize_state s))
        × ((deserialize_distribution (serialize_distribution (distribution_of s)) >>= λ m.
              ok (process_session m))
            ≡ ok (serialize_state r))
        × IsSenderKeyState r
        × (r.signing_key_pair.public_key ≡ s.signing_key_pair.public_key)
        × (r.signing_key_pair.private_key.key_bytes ≡ replicate 32 0)
        × Follows r s 0
  unfolding create_session process_session chain_after
  process_session-create_session s distribution_id chain_key signing_kp valid = (
    copy_of s,
    rw (deserialize-serialize_state s valid),
    rw (
        deserialize-serialize_distribution (distribution_of s) (record {
          uuid = valid.distribution_uuid;
          chain_id = valid.chain_id;
          iteration = valid.iteration;
          chain_key = valid.chain_key;
          signing_key = valid.signing_key_pair.public;
        })),
    record {
      message_version = omega arith;
      chain_id = valid.chain_id;
      chain_key = valid.chain_key;
      iteration = valid.iteration;
      signing_key_pair = record { public = valid.signing_key_pair.public; private = refl };
      distribution_uuid = valid.distribution_uuid;
    },
    refl,
    refl,
    record { chain_id = refl; iteration = omega arith; chain_key = refl },
  )
