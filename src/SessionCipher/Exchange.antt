-- ===== src/SessionCipher/Exchange.antt =====
-- Two sessions that share a chain: what one encrypts the other decrypts, and they go on in step.
use libsignal_zig.Prelude.{
  ℕ, ◌+◌, ◌-◌, ◌^◌, ◌<◌, ◌≤◌, ◌≡◌, refl, sym, ap, ◌∙◌, Option, none, some, List, [], ◌∷◌, length,
  drop, arith, Bool-cases, inl, inr, if◌then◌else◌, length-take, length-drop,
}
use libsignal_zig.Prelude.Bytes.{Bytes, IsU32, slice}
use libsignal_zig.Prelude.Result.{ok}
use libsignal_zig.Crypto.{Crypto}
use libsignal_zig.AesCbc.{BlockCipher, encrypt, length-encrypt}
use libsignal_zig.Curve.{PublicKey, KeyPair, IsPublicKey, public_key_eql, serialize_public_key}
use libsignal_zig.Kdf.{derive_message_keys}
use libsignal_zig.Ratchet.{MessageKeys, ChainKey, message_keys}
use libsignal_zig.Session.{
  SessionState, ReceiverChain, chain_message_keys, in_receiver_chain, get_or_compute_message_keys,
  max_forward_jumps,
}
use libsignal_zig.Session.Chain.{
  ratchet, next, next-ratchet, advance_lem, index-ratchet, chain_message_keys_forward,
}
use libsignal_zig.Session.Cache.{IsValid, take_skipped-none, chain_message_keys-IsUsed}
use libsignal_zig.Spqr.{Machine, spqr_send, spqr_recv}
use libsignal_zig.Messages.Signal.{SignalMessage, serialize_signal, IsSignal, nonempty}
use libsignal_zig.Proto.Switch.{AllOf, int_cast_lem}
use libsignal_zig.SessionCipher.{
  CiphertextType, get_message_keys, decrypt_whisper_message, encrypt_message,
}
use libsignal_zig.SessionCipher.Whisper.{decrypt_whisper_message-serialize_signal}

-- `findReceiverChain`, on the list.
abbrev pub find_receiver_chain : PublicKey → List ReceiverChain → Option ReceiverChain
find_receiver_chain k [] = none
find_receiver_chain k (rc ∷ rcs) =
    if public_key_eql rc.ratchet_key k then some rc else find_receiver_chain k rcs

module _ (crypto : Crypto) (k : PublicKey) where
  in_receiver_chain-find :
      (rcs : List ReceiverChain) (rc rc' : ReceiverChain) (counter : ℕ) (pqr_key : Option Bytes)
      (mk : MessageKeys)
      → find_receiver_chain k rcs ≡ some rc
      → chain_message_keys crypto rc k.key_bytes counter pqr_key ≡ ok (mk, rc')
      → rc'.ratchet_key ≡ rc.ratchet_key
      → (rcs' : List ReceiverChain) × (in_receiver_chain crypto k counter pqr_key rcs
          ≡ ok (some (mk, rcs')))
        × (find_receiver_chain k rcs' ≡ some rc')
  unfolding in_receiver_chain
  in_receiver_chain-find [] rc rc' counter pqr_key mk found got same = cc
  in_receiver_chain-find (x ∷ xs) rc rc' counter pqr_key mk found got same =
      elim (Bool-cases (public_key_eql x.ratchet_key k)) [
        | inl here ↦
            let e : x ≡ rc = cc (rw here at found) in
            (rc' ∷ xs, rw (here, e, got), rw (same, ← e, here))
        | inr there ↦
            let (rcs', e₁, e₂) =
              in_receiver_chain-find xs rc rc' counter pqr_key mk (rw there at found) got same in
            (x ∷ rcs', rw (there, e₁), rw there e₂)
      ]

-- Bob's session is behind Alice's by so many messages of her sending chain: he has a valid
-- receiver chain for her ratchet key, which leads to her chain key in as many steps.
pub record Follows (crypto : Crypto) (b a : SessionState) (lost : ℕ) : Type 0 where
  pub chain : ReceiverChain
  pub found :
      find_receiver_chain a.sender_ratchet_key_pair.public_key b.receiver_chains ≡ some chain
  pub valid : IsValid chain
  pub ahead : a.sender_chain_key ≡ ratchet crypto lost chain.chain_key

slice_80 : (bs : Bytes) → length bs ≡ 80 → length (slice 64 16 bs) ≡ 16
slice_80 bs h = omega (arith, length-take 16 (drop 64 bs), length-drop 64 bs)

length-message_keys :
    (crypto : Crypto) (c : ChainKey) (pqr_key : Option Bytes)
    → length (message_keys crypto c pqr_key).iv ≡ 16
unfolding message_keys derive_message_keys
length-message_keys crypto c pqr_key = slice_80 _ (crypto.length-expand 80 _ _)

counter-message_keys :
    (crypto : Crypto) (c : ChainKey) (pqr_key : Option Bytes)
    → (message_keys crypto c pqr_key).counter ≡ c.index
unfolding message_keys
counter-message_keys crypto c pqr_key = refl

nonempty_twice : (o : Option Bytes) → nonempty (nonempty o) ≡ nonempty o
nonempty_twice none = refl
nonempty_twice (some []) = refl
nonempty_twice (some (b ∷ bs)) = refl

module _ (crypto : Crypto) where
  -- The keys that Bob gets for Alice's next message, and the chain that they leave.
  get_message_keys-Follows :
      (a b : SessionState) (lost : ℕ) (pqr_key : Option Bytes) (fresh : KeyPair)
      → Follows crypto b a lost
      → lost ≤ max_forward_jumps
      → a.sender_chain_key.index + 1 < 2 ^ 32
      → let k = a.sender_ratchet_key_pair.public_key in
        (rcs : List ReceiverChain) × (rc : ReceiverChain) × (get_message_keys crypto b k
            a.sender_chain_key.index pqr_key fresh
          ≡ ok (message_keys crypto a.sender_chain_key pqr_key, record b { receiver_chains = rcs }))
        × (find_receiver_chain k rcs ≡ some rc)
        × IsValid rc
        × (rc.chain_key ≡ next crypto a.sender_chain_key)
  unfolding get_message_keys get_or_compute_message_keys
  get_message_keys-Follows a b lost pqr_key fresh f near fits =
      let k = a.sender_ratchet_key_pair.public_key in
      let c = f.chain.chain_key in
      let counter = a.sender_chain_key.index in
      let place : counter ≡ c.index + lost =
        ap (λ (x : ChainKey). x.index) f.ahead ∙ index-ratchet crypto lost c in
      let steps : counter - c.index ≡ lost = omega (arith, place) in
      let got =
        rw (steps, ← f.ahead) at
          (chain_message_keys_forward crypto f.chain.ratchet_key k.key_bytes c f.chain.message_keys
            counter pqr_key
            (take_skipped-none k.key_bytes counter f.chain.message_keys
              (f.valid.behind counter (omega (arith, place))))
            f.valid.bounded (omega (arith, place)) (omega (arith, place)) fits) in
      let (used, same) =
        chain_message_keys-IsUsed crypto k.key_bytes f.chain counter pqr_key _ _ f.valid
          (omega arith) got in
      let (rcs, e, found) =
        in_receiver_chain-find crypto k b.receiver_chains f.chain _ counter pqr_key _ f.found got
          same in
      (
        rcs,
        _,
        rw e,
        found,
        used.valid,
        sym (next-ratchet crypto lost c) ∙ ap (λ (x : ChainKey). next crypto x) (sym f.ahead),
      )

-- A session that can send this plaintext, with this chunk of the post-quantum ratchet.
pub record Ready (a : SessionState) (plaintext chunk : Bytes) : Type 0 where
  pub no_pending : a.pending_pre_key ≡ none
  pub version : (3 ≤ a.session_version) × (a.session_version < 16)
  pub ratchet_key : IsPublicKey a.sender_ratchet_key_pair.public_key
  pub counter : a.sender_chain_key.index + 1 < 2 ^ 32
  pub previous_counter : IsU32 a.previous_counter
  pub text_size : length plaintext < 2 ^ 61
  pub chunk_size : AllOf (λ bs. length bs < 2 ^ 62) (nonempty (some chunk))

module _ (crypto : Crypto) (aes : BlockCipher) (machine : Machine) where
  message_of : SessionState → Bytes → Bytes → Option Bytes → SignalMessage
  message_of a plaintext chunk pqr_key =
      let keys = message_keys crypto a.sender_chain_key pqr_key in
      record {
        message_version = a.session_version;
        ratchet_key = a.sender_ratchet_key_pair.public_key;
        counter = keys.counter;
        previous_counter = a.previous_counter;
        ciphertext = encrypt aes keys.cipher_key keys.iv plaintext;
        pq_ratchet = nonempty (some chunk);
        addresses = none;
      }

  message_of-IsSignal :
      (a : SessionState) (plaintext chunk : Bytes) (pqr_key : Option Bytes)
      → Ready a plaintext chunk
      → IsSignal (message_of a plaintext chunk pqr_key)
  unfolding message_of
  message_of-IsSignal a plaintext chunk pqr_key ready =
      let keys = message_keys crypto a.sender_chain_key pqr_key in
      record {
        version = ready.version;
        ratchet_key = ready.ratchet_key;
        counter =
            omega (arith, ready.counter, counter-message_keys crypto a.sender_chain_key pqr_key);
        previous_counter = ready.previous_counter;
        ciphertext = omega (
          arith,
          ready.text_size,
          length-encrypt aes keys.cipher_key keys.iv plaintext
              (length-message_keys crypto a.sender_chain_key pqr_key),
        );
        pq_ratchet = rw (nonempty_twice (some chunk)) ready.chunk_size;
        addresses = tt;
      }

  -- Alice's session can send, and Bob's is behind hers by at most 25000 messages of her sending
  -- chain, all lost; their post-quantum ratchets agree on the key of this message. Then Alice's
  -- `encrypt` makes a Signal message that Bob's `decryptWhisperMessage` reads to the plaintext,
  -- and Bob's session is right behind Alice's.
  pub decrypt_whisper_message-encrypt_message :
      (a b : SessionState) (lost : ℕ) (our_identity : PublicKey) (fresh : KeyPair)
      (plaintext chunk pq_a pq_b : Bytes) (pqr_key : Option Bytes)
      → Ready a plaintext chunk
      → Follows crypto b a lost
      → lost ≤ max_forward_jumps
      → spqr_send machine a.pq_ratchet_state ≡ ok (pq_a, chunk, pqr_key)
      → spqr_recv machine b.pq_ratchet_state (nonempty (some chunk)) ≡ ok (pq_b, pqr_key)
      → (wire : Bytes) × (a' : SessionState) × (b' : SessionState) × (encrypt_message crypto aes
            machine a our_identity plaintext
          ≡ ok (CiphertextType.whisper, wire, a'))
        × (decrypt_whisper_message crypto aes machine b wire
              (serialize_public_key our_identity)
              (serialize_public_key a.remote_identity_key)
              fresh
            ≡ ok (plaintext, b'))
        × Follows crypto b' a' 0
  unfolding encrypt_message message_of message_keys
  decrypt_whisper_message-encrypt_message a b lost our_identity fresh plaintext chunk pq_a pq_b
        pqr_key ready f near sent recv =
      let keys = message_keys crypto a.sender_chain_key pqr_key in
      let m = message_of a plaintext chunk pqr_key in
      let f' : Follows crypto (record b { pq_ratchet_state = pq_b }) a lost = record {
        chain = f.chain;
        found = f.found;
        valid = f.valid;
        ahead = f.ahead;
      } in
      let (rcs, rc, got, found, valid, at_next) =
        get_message_keys-Follows crypto a (record b { pq_ratchet_state = pq_b }) lost pqr_key fresh
          f' near ready.counter in
      (
        serialize_signal crypto m (serialize_public_key our_identity)
            (serialize_public_key a.remote_identity_key) keys.mac_key,
        record a { pq_ratchet_state = pq_a; sender_chain_key = next crypto a.sender_chain_key },
        record b { pq_ratchet_state = pq_b; receiver_chains = rcs },
        rw (
          sent,
          advance_lem crypto a.sender_chain_key ready.counter,
          int_cast_lem 8 a.session_version (omega (arith, ready.version)),
          ready.no_pending,
        ),
        decrypt_whisper_message-serialize_signal crypto aes machine b
            (record b { pq_ratchet_state = pq_b; receiver_chains = rcs }) m keys fresh
            (serialize_public_key our_identity) (serialize_public_key a.remote_identity_key)
            plaintext pq_b pqr_key (message_of-IsSignal a plaintext chunk pqr_key ready)
            (rw (nonempty_twice (some chunk)) recv)
            (rw (counter-message_keys crypto a.sender_chain_key pqr_key) got)
            (length-message_keys crypto a.sender_chain_key pqr_key) refl,
        record { chain = rc; found = found; valid = valid; ahead = unfold ratchet in sym at_next },
      )
