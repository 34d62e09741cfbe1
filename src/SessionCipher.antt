-- ===== src/SessionCipher.antt =====
-- src/session_cipher.zig: decryption with a session, and the DH ratchet.
pub mod Whisper
pub mod Exchange
pub mod Pending
use mathlib.Core.Option
use libsignal_zig.Messages.PreKeySignal.{PreKeySignalMessage, serialize_pre_key_signal}
use libsignal_zig.Prelude.{
  ℕ, ◌+◌, ◌-◌, ◌/◌, ◌^◌, Bool, Option, none, some, [], length, take, drop, get_or, ltb, ◌==◌, not,
  if◌then◌else◌, eql,
}
use libsignal_zig.Prelude.Bytes.{Bytes}
use libsignal_zig.Prelude.Result.{
  Result, ok, ◌>>=◌, ◌>>◌, fail_if, or_return, invalid_message, legacy_ciphertext_version,
}
use libsignal_zig.Crypto.{Crypto}
use libsignal_zig.AesCbc.{BlockCipher, encrypt, decrypt}
use libsignal_zig.Curve.{PublicKey, KeyPair, serialize_public_key, deserialize_public_key}
use libsignal_zig.Proto.{Field, parse_fields}
use libsignal_zig.Proto.Switch.{int_cast, on_varint, on_len}
use libsignal_zig.Ratchet.{MessageKeys, root_key_create_chain, message_keys, advance}
use libsignal_zig.Session.{
  SessionState, PendingPreKey, PendingKyberPreKey, add_receiver_chain, get_or_compute_message_keys,
}
use libsignal_zig.Spqr.{Machine, spqr_send, spqr_recv}
use libsignal_zig.Messages.Signal.{SignalMessage, nonempty, mac_length, mac_of, serialize_signal}

-- The local variables of the parser in `decryptWhisperMessage`.
pub record Locals : Type 0 where
  pub rk_bytes : Option Bytes
  pub counter : ℕ
  pub ciphertext_raw : Option Bytes
  pub pq_ratchet_raw : Option Bytes

abbrev pub no_locals : Locals
no_locals = record { rk_bytes = none; counter = 0; ciphertext_raw = none; pq_ratchet_raw = none }

unfoldable pub whisper_field : Locals → Field → Result Locals
whisper_field s f =
    if f.number == 1
    then on_len s f.payload (λ bs. ok (record s { rk_bytes = some bs }))
    else if f.number == 2
    then on_varint s f.payload (λ v. do n ← int_cast 32 v; ok (record s { counter = n }))
    else if f.number == 4
    then on_len s f.payload (λ bs. ok (record s { ciphertext_raw = some bs }))
    else if f.number == 5
    then on_len s f.payload (λ bs. ok (record s { pq_ratchet_raw = some bs }))
    else ok s

pub data CiphertextType : Type 0 where
  whisper pre_key sender_key plaintext_content : CiphertextType

-- The two endings of `encrypt`.
wrap_message : SessionState → PublicKey → ℕ → Bytes → Option PendingPreKey → CiphertextType × Bytes
wrap_message s our_identity version signal_bytes none = (whisper, signal_bytes)
wrap_message s our_identity version signal_bytes (some ppk) =
    let m : PreKeySignalMessage = record {
      message_version = version;
      registration_id = s.local_registration_id;
      pre_key_id = ppk.pre_key_id;
      signed_pre_key_id = ppk.signed_pre_key_id;
      kyber_pre_key_id = Option.map (λ p. p.pre_key_id) s.pending_kyber_pre_key;
      base_key = ppk.base_key;
      identity_key = our_identity;
      kyber_ciphertext = Option.map (λ p. p.ciphertext) s.pending_kyber_pre_key;
      message = signal_bytes;
    } in
    (pre_key, serialize_pre_key_signal m)

module _ (crypto : Crypto) where
  -- The DH ratchet step of `getMessageKeys`, with the key pair that it generates.
  unfoldable pub dh_ratchet : SessionState → PublicKey → KeyPair → Result SessionState
  dh_ratchet s their_ephemeral new_sender_kp = do
    (root₁, recv_chain) ←
        root_key_create_chain crypto s.root_key their_ephemeral
          s.sender_ratchet_key_pair.private_key
    let s₁ =
        add_receiver_chain
          (record s {
            previous_counter =
                if ltb 0 s.sender_chain_key.index then s.sender_chain_key.index - 1 else 0;
            root_key = root₁;
          })
          their_ephemeral recv_chain
    (root₂, send_chain) ←
        root_key_create_chain crypto root₁ their_ephemeral new_sender_kp.private_key
    ok (record s₁ {
      root_key = root₂;
      sender_chain_key = send_chain;
      sender_ratchet_key_pair = new_sender_kp;
    })

  after_ratchet :
      Option (MessageKeys × SessionState)
      → SessionState
      → PublicKey
      → ℕ
      → Option Bytes
      → KeyPair
      → Result (MessageKeys × SessionState)
  after_ratchet (some r) s their_ephemeral counter pqr_key new_sender_kp = ok r
  after_ratchet none s their_ephemeral counter pqr_key new_sender_kp = do
    s' ← dh_ratchet s their_ephemeral new_sender_kp
    r ← get_or_compute_message_keys crypto s' their_ephemeral counter pqr_key
    or_return r invalid_message

  -- `getMessageKeys`
  unfoldable pub get_message_keys :
      SessionState → PublicKey → ℕ → Option Bytes → KeyPair → Result (MessageKeys × SessionState)
  unfolding after_ratchet
  get_message_keys s their_ephemeral counter pqr_key new_sender_kp = do
    r ← get_or_compute_message_keys crypto s their_ephemeral counter pqr_key
    after_ratchet r s their_ephemeral counter pqr_key new_sender_kp

  module _ (aes : BlockCipher) (machine : Machine) where
    -- `decryptWhisperMessage`: the plaintext, and the state that the pointer leads to afterwards.
    unfoldable pub decrypt_whisper_message :
        SessionState → Bytes → Bytes → Bytes → KeyPair → Result (Bytes × SessionState)
    decrypt_whisper_message s bytes sender_id receiver_id new_sender_kp = do
      fail_if (ltb (length bytes) (1 + mac_length)) invalid_message
      fail_if (ltb (get_or bytes 0 0 / 2 ^ 4) 3) legacy_ciphertext_version
      let mac_start = length bytes - mac_length
      let body_with_version = take mac_start bytes
      let mac_received = drop mac_start bytes
      l ← parse_fields whisper_field (drop 1 body_with_version) no_locals
      rk_raw ← or_return l.rk_bytes invalid_message
      ratchet_key ← deserialize_public_key rk_raw
      ciphertext ← or_return l.ciphertext_raw invalid_message
      (pq_state, pqr_key) ← spqr_recv machine s.pq_ratchet_state l.pq_ratchet_raw
      let s₁ = record s { pq_ratchet_state = pq_state }
      (keys, s₂) ← get_message_keys s₁ ratchet_key l.counter pqr_key new_sender_kp
      let mac_computed = mac_of crypto keys.mac_key sender_id receiver_id body_with_version
      fail_if (not (eql mac_received mac_computed)) invalid_message
      plaintext ← decrypt aes keys.cipher_key keys.iv ciphertext
      ok (plaintext, s₂)

    -- `encrypt` between the loading and the storing of the session: the type and the bytes of the
    -- message, and the state that is stored. Every message goes out as a pre-key message as long
    -- as the state has a pending pre-key.
    unfoldable pub encrypt_message :
        SessionState → PublicKey → Bytes → Result (CiphertextType × Bytes × SessionState)
    unfolding wrap_message
    encrypt_message s our_identity plaintext = do
      (pq_state, pq_msg, pqr_key) ← spqr_send machine s.pq_ratchet_state
      let keys = message_keys crypto s.sender_chain_key pqr_key
      next ← advance crypto s.sender_chain_key
      version ← int_cast 8 s.session_version
      let m : SignalMessage = record {
        message_version = version;
        ratchet_key = s.sender_ratchet_key_pair.public_key;
        counter = keys.counter;
        previous_counter = s.previous_counter;
        ciphertext = encrypt aes keys.cipher_key keys.iv plaintext;
        pq_ratchet = nonempty (some pq_msg);
        addresses = none;
      }
      let serialized =
          serialize_signal crypto m (serialize_public_key our_identity)
            (serialize_public_key s.remote_identity_key) keys.mac_key
      let (kind, bytes) = wrap_message s our_identity version serialized s.pending_pre_key
      ok (kind, bytes, record s { pq_ratchet_state = pq_state; sender_chain_key = next })
