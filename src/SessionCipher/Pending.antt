-- ===== src/SessionCipher/Pending.antt =====
-- A session's pending pre-key outlives every message that the session decrypts.
use libsignal_zig.Prelude.{ℕ, ◌≡◌, sym, ap, ◌∙◌, Option, some, Option-cases, inl, inr}
use libsignal_zig.Prelude.Bytes.{Bytes}
use libsignal_zig.Prelude.Result.{ok, bind-eq-ok, ok_injective}
use libsignal_zig.Crypto.{Crypto}
use libsignal_zig.AesCbc.{BlockCipher}
use libsignal_zig.Curve.{PublicKey, KeyPair}
use libsignal_zig.Ratchet.{MessageKeys, root_key_create_chain}
use libsignal_zig.Session.{
  SessionState, in_receiver_chain, get_or_compute_message_keys, add_receiver_chain,
}
use libsignal_zig.Spqr.{Machine}
use libsignal_zig.SessionCipher.{dh_ratchet, get_message_keys, decrypt_whisper_message}
use libsignal_zig.SessionCipher.Whisper.{decrypt_whisper_message_authenticated}

module _ (crypto : Crypto) where
  get_or_compute_message_keys_pending :
      (s s' : SessionState) (k : PublicKey) (counter : ℕ) (pqr_key : Option Bytes)
      (mk : MessageKeys)
      → get_or_compute_message_keys crypto s k counter pqr_key ≡ ok (some (mk, s'))
      → s'.pending_pre_key ≡ s.pending_pre_key
  unfolding get_or_compute_message_keys
  get_or_compute_message_keys_pending s s' k counter pqr_key mk e =
      let (found, got, result) =
        bind-eq-ok (in_receiver_chain crypto k counter pqr_key s.receiver_chains) _ e in
      elim (Option-cases found) [
        | inl absent ↦ cc (rw absent at result)
        | inr ((mk', rcs), present) ↦
            let shape : record s { receiver_chains = rcs } ≡ s' = cc (rw present at result) in
            ap (λ (t : SessionState). t.pending_pre_key) (sym shape)
      ]

  dh_ratchet_pending :
      (s s' : SessionState) (k : PublicKey) (fresh : KeyPair)
      → dh_ratchet crypto s k fresh ≡ ok s'
      → s'.pending_pre_key ≡ s.pending_pre_key
  unfolding dh_ratchet add_receiver_chain
  dh_ratchet_pending s s' k fresh e =
      let ((root₁, chain₁), _, e₁) =
        bind-eq-ok (root_key_create_chain crypto s.root_key k s.sender_ratchet_key_pair.private_key)
          _ e in
      let ((root₂, chain₂), _, e₂) =
        bind-eq-ok (root_key_create_chain crypto root₁ k fresh.private_key) _ e₁ in
      ap (λ (t : SessionState). t.pending_pre_key) (sym (ok_injective e₂))

  get_message_keys_pending :
      (s s' : SessionState) (k : PublicKey) (counter : ℕ) (pqr_key : Option Bytes) (fresh : KeyPair)
      (mk : MessageKeys)
      → get_message_keys crypto s k counter pqr_key fresh ≡ ok (mk, s')
      → s'.pending_pre_key ≡ s.pending_pre_key
  unfolding get_message_keys
  get_message_keys_pending s s' k counter pqr_key fresh mk e =
      let (r, got, e₁) = bind-eq-ok (get_or_compute_message_keys crypto s k counter pqr_key) _ e in
      elim (Option-cases r) [
        | inr ((mk', s₁), there) ↦
            let same : s₁ ≡ s' =
              ap (λ (p : MessageKeys × SessionState). p.1) (ok_injective (rw there at e₁)) in
            ap (λ (t : SessionState). t.pending_pre_key) (sym same)
            ∙ get_or_compute_message_keys_pending s s₁ k counter pqr_key mk' (got ∙ ap ok there)
        | inl absent ↦
            let (s₁, stepped, e₂) = bind-eq-ok (dh_ratchet crypto s k fresh) _ (rw absent at e₁) in
            let (r', got', e₃) =
              bind-eq-ok (get_or_compute_message_keys crypto s₁ k counter pqr_key) _ e₂ in
            elim (Option-cases r') [
              | inl none_there ↦ cc (rw none_there at e₃)
              | inr ((mk', s₂), there) ↦
                  let same : s₂ ≡ s' =
                    ap (λ (p : MessageKeys × SessionState). p.1) (ok_injective (rw there at e₃)) in
                  ap (λ (t : SessionState). t.pending_pre_key) (sym same)
                  ∙ get_or_compute_message_keys_pending s₁ s₂ k counter pqr_key mk'
                      (got' ∙ ap ok there)
                  ∙ dh_ratchet_pending s s₁ k fresh stepped
            ]
      ]

  module _ (aes : BlockCipher) (machine : Machine) where
    -- Decrypting a message, with a step of the DH ratchet or without, leaves the pending pre-key of
    -- the session as it was: the first answer does not clear it.
    pub decrypt_whisper_message_pending :
        (s s' : SessionState) (bytes sender receiver plaintext : Bytes) (fresh : KeyPair)
        → decrypt_whisper_message crypto aes machine s bytes sender receiver fresh
          ≡ ok (plaintext, s')
        → s'.pending_pre_key ≡ s.pending_pre_key
    decrypt_whisper_message_pending s s' bytes sender receiver plaintext fresh e =
        let (_, l, _, ratchet_key, _, pq_state, pqr_key, keys, _, _, _, _, _, got, _, _) =
          decrypt_whisper_message_authenticated crypto aes machine s s' bytes sender receiver
            plaintext fresh e in
        get_message_keys_pending (record s { pq_ratchet_state = pq_state }) s' ratchet_key l.counter
          pqr_key fresh keys got
