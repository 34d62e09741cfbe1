-- ===== src/Group/Run.antt =====
-- Many group messages one after another, over src/group_cipher.zig.
use libsignal_zig.Prelude.{
  ℕ, zero, suc, ◌+◌, ◌^◌, ◌<◌, ◌≡◌, refl, sym, true, some, List, [], ◌∷◌, length, All, arith,
}
use libsignal_zig.Prelude.Bytes.{Bytes}
use libsignal_zig.Prelude.Result.{Result, ok, ◌>>=◌}
use libsignal_zig.Crypto.{Crypto}
use libsignal_zig.Xeddsa.{Xeddsa}
use libsignal_zig.AesCbc.{BlockCipher}
use libsignal_zig.Kdf.{next_sender_chain_key}
use libsignal_zig.Group.{SenderKeyState, serialize_state, group_encrypt, group_decrypt}
use libsignal_zig.Group.Record.{IsSenderKeyState}
use libsignal_zig.Group.Exchange.{
  Follows, Sent, chain_after, after, after-IsSenderKeyState, group_encrypt_lem, group_decrypt_lem,
  message_of,
}
use libsignal_zig.Messages.SenderKey.{signed_part}

-- A message that is sent, with the randomness of its signature: one that arrives, or one that is
-- lost on the way.
pub data Posted : Type 0 where
  delivered : Bytes → Bytes → Posted
  dropped : Bytes → Bytes → Posted

abbrev pub plaintext_of : Posted → Bytes
plaintext_of (Posted.delivered plaintext random) = plaintext
plaintext_of (Posted.dropped plaintext random) = plaintext

abbrev pub arrived : List Posted → List Bytes
arrived [] = []
arrived (Posted.delivered plaintext random ∷ ms) = plaintext ∷ arrived ms
arrived (Posted.dropped plaintext random ∷ ms) = arrived ms

module _ (crypto : Crypto) (aes : BlockCipher) (xeddsa : Xeddsa) where
  -- A sender's and a receiver's stored records over the messages: what the receiver decrypts, and
  -- the records afterwards.
  unfoldable pub exchange : Bytes → Bytes → List Posted → Result (List Bytes × Bytes × Bytes)
  exchange alice bob [] = ok ([], alice, bob)
  exchange alice bob (Posted.delivered plaintext random ∷ ms) = do
    (wire, alice') ← group_encrypt crypto aes xeddsa (some alice) plaintext random
    (opened, bob') ← group_decrypt crypto aes xeddsa (some bob) wire
    (rest, alice_end, bob_end) ← exchange alice' bob' ms
    ok (opened ∷ rest, alice_end, bob_end)
  exchange alice bob (Posted.dropped plaintext random ∷ ms) = do
    (wire, alice') ← group_encrypt crypto aes xeddsa (some alice) plaintext random
    exchange alice' bob ms

  chain_after_next :
      (n : ℕ) (key : Bytes)
      → chain_after crypto (suc n) key ≡ next_sender_chain_key crypto (chain_after crypto n key)
  unfolding chain_after
  chain_after_next zero key = refl
  chain_after_next (suc n) key = chain_after_next n (next_sender_chain_key crypto key)

  -- The sender signs every message, and the receiver's key verifies the signatures.
  pub record SignsFor (s r : SenderKeyState) : Type 0 where
    pub signature : Bytes → Bytes → Bytes
    pub signed :
        (message random : Bytes)
        → xeddsa.sign s.signing_key_pair.private_key.key_bytes message random
          ≡ ok (signature message random)
    pub verified :
        (message random : Bytes)
        → xeddsa.verify r.signing_key_pair.public_key.key_bytes message (signature message random)
          ≡ ok true

  sent_of :
      (s r : SenderKeyState) (p random : Bytes) (signs : SignsFor s r)
      → IsSenderKeyState s
      → IsSenderKeyState r
      → s.iteration + 1 < 2 ^ 32
      → length p < 2 ^ 62
      → Sent crypto aes xeddsa s r p random
          (signs.signature (signed_part (message_of crypto aes xeddsa s p)) random)
  sent_of s r p random signs vs vr room size = record {
    sender = vs;
    receiver = vr;
    room = room;
    plaintext_size = size;
    signed = signs.signed (signed_part (message_of crypto aes xeddsa s p)) random;
    verified = signs.verified (signed_part (message_of crypto aes xeddsa s p)) random;
  }

  room_now :
      (s : SenderKeyState) (n : ℕ) → s.iteration + suc n + 1 < 2 ^ 32 → s.iteration + 1 < 2 ^ 32
  room_now s n room = omega (arith, room)

  next_room :
      (s : SenderKeyState) (n : ℕ)
      → s.iteration + suc n + 1 < 2 ^ 32
      → (after crypto s s).iteration + n + 1 < 2 ^ 32
  unfolding after
  next_room s n room = omega (arith, room)

  lost-SignsFor : (s r : SenderKeyState) → SignsFor s r → SignsFor (after crypto s s) r
  unfolding after
  lost-SignsFor s r signs = record {
    signature = signs.signature;
    signed = signs.signed;
    verified = signs.verified;
  }

  received-SignsFor :
      (s r : SenderKeyState) → SignsFor s r → SignsFor (after crypto s s) (after crypto s r)
  unfolding after
  received-SignsFor s r signs = record {
    signature = signs.signature;
    signed = signs.signed;
    verified = signs.verified;
  }

  module _ (s r : SenderKeyState) (lost : ℕ) (f : Follows crypto r s lost) where
    lost-Follows : Follows crypto r (after crypto s s) (suc lost)
    unfolding after
    lost-Follows = record {
      chain_id = f.chain_id;
      iteration = omega (arith, f.iteration);
      chain_key = rw f.chain_key (sym (chain_after_next lost r.chain_key));
    }

    received-Follows : Follows crypto (after crypto s r) (after crypto s s) 0
    unfolding after chain_after
    received-Follows = record { chain_id = f.chain_id; iteration = omega arith; chain_key = refl }

  -- However many messages a sender posts, and whichever of them are lost on the way, the receiver
  -- that follows it decrypts all that arrive, in order, and follows it afterwards: as long as every
  -- message is signed, with signatures that verify, the numbers stay below 2^32 - 1, and the
  -- plaintexts below 2^62 bytes.
  pub exchange_delivers :
      (ms : List Posted) (s r : SenderKeyState) (lost : ℕ)
      → Follows crypto r s lost
      → IsSenderKeyState s
      → IsSenderKeyState r
      → SignsFor s r
      → s.iteration + length ms + 1 < 2 ^ 32
      → All (λ m. length (plaintext_of m) < 2 ^ 62) ms
      → (s' : SenderKeyState) × (r' : SenderKeyState) × (lost' : ℕ) × (exchange
            (serialize_state s)
            (serialize_state r)
            ms
          ≡ ok (arrived ms, serialize_state s', serialize_state r'))
        × Follows crypto r' s' lost'
        × IsSenderKeyState s'
        × IsSenderKeyState r'
  unfolding exchange
  exchange_delivers [] s r lost f vs vr signs room sizes = (s, r, lost, refl, f, vs, vr)
  exchange_delivers (Posted.delivered p random ∷ ms) s r lost f vs vr signs room (size, sizes) =
      let sent = sent_of s r p random signs vs vr (room_now s (length ms) room) size in
      let sig = signs.signature (signed_part (message_of crypto aes xeddsa s p)) random in
      let (s', r', lost', run, f', ws, wr) =
        exchange_delivers ms (after crypto s s) (after crypto s r) 0 (received-Follows s r lost f)
          (after-IsSenderKeyState crypto aes xeddsa s r p random sig sent s vs)
          (after-IsSenderKeyState crypto aes xeddsa s r p random sig sent r vr)
          (received-SignsFor s r signs) (next_room s (length ms) room) sizes in
      (
        s',
        r',
        lost',
        rw (
          group_encrypt_lem crypto aes xeddsa s r p random sig sent,
          group_decrypt_lem crypto aes xeddsa s r p random sig sent lost f,
          run,
        ),
        f',
        ws,
        wr,
      )
  exchange_delivers (Posted.dropped p random ∷ ms) s r lost f vs vr signs room (size, sizes) =
      let sent = sent_of s r p random signs vs vr (room_now s (length ms) room) size in
      let sig = signs.signature (signed_part (message_of crypto aes xeddsa s p)) random in
      let (s', r', lost', run, f', ws, wr) =
        exchange_delivers ms (after crypto s s) r (suc lost) (lost-Follows s r lost f)
          (after-IsSenderKeyState crypto aes xeddsa s r p random sig sent s vs) vr
          (lost-SignsFor s r signs) (next_room s (length ms) room) sizes in
      (
        s',
        r',
        lost',
        rw (group_encrypt_lem crypto aes xeddsa s r p random sig sent, run),
        f',
        ws,
        wr,
      )
