-- ===== src/SessionCipher/Whisper.antt =====
-- `decryptWhisperMessage`: what is sent is read, and what is read was authenticated.
use libsignal_zig.Prelude.{
  Bool-not, ℕ, ◌+◌, ◌-◌, ◌*◌, ◌/◌, ◌%◌, ◌^◌, ◌<◌, ◌≡◌, refl, sym, ap, ◌∙◌, not, Option, none, some,
  ◌∷◌, ◌++◌, length, take, drop, get_or, ltb, le→ltb, eql, eql_refl, eql→eq, arith, length-append,
  take_prefix, drop_prefix, take-append-drop, bit_and, bit_or,
}
use libsignal_zig.Prelude.Bits.{bit_and_low, bit_or_low}
use libsignal_zig.Prelude.Bytes.{Bytes}
use libsignal_zig.Prelude.Result.{
  ok, fail_if, or_return, invalid_message, legacy_ciphertext_version, bind-eq-ok, fail_if-eq-ok,
  or_return-eq-ok, ok_injective,
}
use libsignal_zig.Crypto.{Crypto}
use libsignal_zig.AesCbc.{BlockCipher, encrypt, decrypt, decrypt-encrypt}
use libsignal_zig.Curve.{
  PublicKey, KeyPair, serialize_public_key, deserialize_public_key,
  deserialize-serialize_public_key,
}
use libsignal_zig.Proto.{parse_fields}
use libsignal_zig.Proto.Fields.{encode_fields, run_fields}
use libsignal_zig.Proto.Writes.{bytes_field}
use libsignal_zig.Proto.Switch.{int_cast_lem, field_some, run_fields-append, parse_fields-budget}
use libsignal_zig.Ratchet.{MessageKeys}
use libsignal_zig.Session.{SessionState}
use libsignal_zig.Spqr.{Machine, spqr_recv}
use libsignal_zig.Messages.Signal.{
  SignalMessage, IsSignal, nonempty, mac_length, mac_of, serialize_signal, authenticated_part_lem,
  signal_fields, signal_fields-Fits, length-mac_of, current_version,
}
use libsignal_zig.SessionCipher.{
  Locals, no_locals, whisper_field, get_message_keys, decrypt_whisper_message,
}

abbrev read_locals : SignalMessage → Locals
read_locals m = record {
  rk_bytes = some (serialize_public_key m.ratchet_key);
  counter = m.counter;
  ciphertext_raw = some m.ciphertext;
  pq_ratchet_raw = nonempty m.pq_ratchet;
}

run_pq_ratchet :
    (l : Locals) (o : Option Bytes)
    → l.pq_ratchet_raw ≡ none
    → run_fields whisper_field (field_some (λ bs. bytes_field 5 bs) o) l
      ≡ ok (record l { pq_ratchet_raw = o })
unfolding run_fields whisper_field
run_pq_ratchet l none e = ap (λ (o : Option Bytes). ok (record l { pq_ratchet_raw = o })) e
run_pq_ratchet l (some bs) e = refl

run_addresses :
    (l : Locals) (o : Option Bytes)
    → run_fields whisper_field (field_some (λ bs. bytes_field 6 bs) o) l ≡ ok l
unfolding run_fields whisper_field
run_addresses l none = refl
run_addresses l (some bs) = refl

parse_signal :
    (m : SignalMessage)
    → IsSignal m
    → parse_fields whisper_field (encode_fields (signal_fields m)) no_locals ≡ ok (read_locals m)
unfolding run_fields whisper_field
parse_signal m valid =
    let (all, size) = signal_fields-Fits m valid in
    let l : Locals = record (read_locals m) { pq_ratchet_raw = none } in
    rw (
      parse_fields-budget whisper_field (signal_fields m) no_locals all (omega (arith, size)),
      int_cast_lem 32 m.counter valid.counter,
      run_fields-append whisper_field (field_some (λ bs. bytes_field 5 bs) (nonempty m.pq_ratchet))
          (field_some (λ bs. bytes_field 6 bs) m.addresses) l,
      run_pq_ratchet l (nonempty m.pq_ratchet) refl,
      run_addresses (read_locals m) m.addresses,
    )

version_high : (v : ℕ) → v < 16 → bit_or (bit_and v 0xf * 2 ^ 4) current_version / 2 ^ 4 ≡ v
version_high v h =
    ap (λ (t : ℕ). bit_or (t * 2 ^ 4) current_version / 2 ^ 4) (bit_and_low 4 v)
    ∙ ap (λ (t : ℕ). t / 2 ^ 4) (bit_or_low 4 (v % 16) 4 (omega arith))
    ∙ omega arith

module _ (crypto : Crypto) (aes : BlockCipher) (machine : Machine) where
  -- A message whose parts have their widths, encrypted and authenticated with the message keys
  -- that the receiver's session gives for its ratchet key, counter and post-quantum chunk, is
  -- decrypted to the plaintext, and the session goes on as those keys left it.
  pub decrypt_whisper_message-serialize_signal :
      (s s' : SessionState) (m : SignalMessage) (keys : MessageKeys) (fresh : KeyPair)
      (sender receiver plaintext pq_state : Bytes) (pqr_key : Option Bytes)
      → IsSignal m
      → spqr_recv machine s.pq_ratchet_state (nonempty m.pq_ratchet) ≡ ok (pq_state, pqr_key)
      → get_message_keys crypto
          (record s { pq_ratchet_state = pq_state })
          m.ratchet_key
          m.counter
          pqr_key
          fresh
        ≡ ok (keys, s')
      → length keys.iv ≡ 16
      → m.ciphertext ≡ encrypt aes keys.cipher_key keys.iv plaintext
      → decrypt_whisper_message crypto aes machine s
          (serialize_signal crypto m sender receiver keys.mac_key)
          sender
          receiver
          fresh
        ≡ ok (plaintext, s')
  unfolding serialize_signal decrypt_whisper_message
  decrypt_whisper_message-serialize_signal s s' m keys fresh sender receiver plaintext pq_state
        pqr_key valid pq got iv enc =
      let v = bit_or (bit_and m.message_version 0xf * 2 ^ 4) current_version in
      let body = encode_fields (signal_fields m) in
      let mac = mac_of crypto keys.mac_key sender receiver (v ∷ body) in
      let size = length-mac_of crypto keys.mac_key sender receiver (v ∷ body) in
      let total = length-append (v ∷ body) mac in
      let start : length ((v ∷ body) ++ mac) - mac_length ≡ length (v ∷ body) =
        omega (arith, total, size) in
      rw (
        authenticated_part_lem m,
        start,
        take_prefix (length body) body mac refl,
        drop_prefix (length body) body mac refl,
        le→ltb (length ((v ∷ body) ++ mac)) (1 + mac_length) (omega (arith, total, size)),
        version_high m.message_version valid.version.1,
        le→ltb m.message_version 3 valid.version.0,
        parse_signal m valid,
        deserialize-serialize_public_key m.ratchet_key valid.ratchet_key,
        pq,
        got,
        eql_refl mac,
        enc,
        decrypt-encrypt aes keys.cipher_key keys.iv plaintext iv,
      )

  -- What is decrypted was authenticated: the bytes are a part and eight bytes of a MAC, which is
  -- the truncated HMAC over both identities and that part under the MAC key of some message keys.
  -- The session gave these keys, and the state that is left, for the ratchet key and the counter
  -- that the part's fields hold, after the post-quantum ratchet took the part's chunk, and with
  -- the key that this ratchet gave for the chunk; the plaintext is the part's ciphertext decrypted
  -- with the keys.
  pub decrypt_whisper_message_authenticated :
      (s s' : SessionState) (bytes sender receiver plaintext : Bytes) (fresh : KeyPair)
      → decrypt_whisper_message crypto aes machine s bytes sender receiver fresh
        ≡ ok (plaintext, s')
      → (part : Bytes) × (l : Locals) × (key_bytes : Bytes) × (ratchet_key : PublicKey)
        × (ciphertext : Bytes) × (pq_state : Bytes) × (pqr_key : Option Bytes)
        × (keys : MessageKeys) × (bytes ≡ part ++ mac_of crypto keys.mac_key sender receiver part)
        × (parse_fields whisper_field (drop 1 part) no_locals ≡ ok l)
        × (l.rk_bytes ≡ some key_bytes)
        × (deserialize_public_key key_bytes ≡ ok ratchet_key)
        × (spqr_recv machine s.pq_ratchet_state l.pq_ratchet_raw ≡ ok (pq_state, pqr_key))
        × (get_message_keys crypto
              (record s { pq_ratchet_state = pq_state })
              ratchet_key
              l.counter
              pqr_key
              fresh
            ≡ ok (keys, s'))
        × (l.ciphertext_raw ≡ some ciphertext)
        × (decrypt aes keys.cipher_key keys.iv ciphertext ≡ ok plaintext)
  unfolding decrypt_whisper_message
  decrypt_whisper_message_authenticated s s' bytes sender receiver plaintext fresh e =
      let start = length bytes - mac_length in
      let part = take start bytes in
      let (_, _, e₁) =
        bind-eq-ok (fail_if (ltb (length bytes) (1 + mac_length)) invalid_message) _ e in
      let (_, _, e₂) =
        bind-eq-ok (fail_if (ltb (get_or bytes 0 0 / 2 ^ 4) 3) legacy_ciphertext_version) _ e₁ in
      let (l, parsed, e₃) = bind-eq-ok (parse_fields whisper_field (drop 1 part) no_locals) _ e₂ in
      let (rk, has_key, e₄) = bind-eq-ok (or_return l.rk_bytes invalid_message) _ e₃ in
      let (ratchet_key, key, e₅) = bind-eq-ok (deserialize_public_key rk) _ e₄ in
      let (ct, has_text, e₆) = bind-eq-ok (or_return l.ciphertext_raw invalid_message) _ e₅ in
      let ((pq_state, pqr_key), pq, e₇) =
        bind-eq-ok (spqr_recv machine s.pq_ratchet_state l.pq_ratchet_raw) _ e₆ in
      let ((keys, s₂), got, e₈) =
        bind-eq-ok
          (get_message_keys crypto (record s { pq_ratchet_state = pq_state }) ratchet_key l.counter
            pqr_key fresh)
          _ e₇ in
      let mac = mac_of crypto keys.mac_key sender receiver part in
      let (_, equal, e₉) =
        bind-eq-ok (fail_if (not (eql (drop start bytes) mac)) invalid_message) _ e₈ in
      let (plain, text, e₁₀) = bind-eq-ok (decrypt aes keys.cipher_key keys.iv ct) _ e₉ in
      (
        part,
        l,
        rk,
        ratchet_key,
        ct,
        pq_state,
        pqr_key,
        keys,
        sym (take-append-drop start bytes)
            ∙ ap (λ (t : Bytes). part ++ t)
                (eql→eq (drop start bytes) mac (Bool-not _ (fail_if-eq-ok _ _ equal))),
        parsed,
        or_return-eq-ok _ _ has_key,
        key,
        pq,
        got
            ∙ ap (λ (t : SessionState). ok (keys, t))
                (ap (λ (p : Bytes × SessionState). p.1) (ok_injective e₁₀)),
        or_return-eq-ok _ _ has_text,
        text ∙ ap (λ (p : Bytes × SessionState). ok p.0) (ok_injective e₁₀),
      )
