-- ===== src/Messages/PreKeySignal.antt =====
-- src/messages/pre_key_signal_message.zig
use libsignal_zig.Prelude.{
  ℕ, ◌+◌, ◌*◌, ◌/◌, ◌%◌, ◌^◌, ◌<◌, ◌≤◌, ◌≡◌, refl, ◌∙◌, ap, Option, none, some, List, [], ◌∷◌, ◌++◌,
  length, ltb, le→ltb, ◌==◌, if◌then◌else◌, arith, append_assoc, append-nil, All, bit_and, bit_or,
}
use libsignal_zig.Prelude.Bits.{bit_and_low, bit_or_low}
use libsignal_zig.Prelude.Bytes.{Bytes, IsU32}
use libsignal_zig.Prelude.Result.{
  Result, ok, err, ◌>>=◌, ◌>>◌, fail_if, or_return, invalid_message, legacy_ciphertext_version,
}
use libsignal_zig.Curve.{
  PublicKey, IsPublicKey, serialize_public_key, deserialize_public_key, length-serialize_public_key,
  deserialize-serialize_public_key,
}
use libsignal_zig.Proto.{Field, parse_fields, write_varint_field, write_bytes_field}
use libsignal_zig.Proto.Fields.{encode_fields, IsField, run_fields}
use libsignal_zig.Proto.Writes.{
  varint_field, bytes_field, write_varint_field_lem, write_bytes_field_lem,
}
use libsignal_zig.Proto.Switch.{
  int_cast, int_cast_lem, on_varint, on_len, budget, parse_fields-budget, write_some, field_some,
  encode_fields-append, encode_fields-cons, encode_fields-nil, run_fields-append, write_some_lem,
  AllOf, append-Fits, cons-Fits, field_some-Fits,
}

pub record PreKeySignalMessage : Type 0 where
  pub message_version : ℕ
  pub registration_id : ℕ
  pub pre_key_id : Option ℕ
  pub signed_pre_key_id : ℕ
  pub kyber_pre_key_id : Option ℕ
  pub base_key : PublicKey
  pub identity_key : PublicKey
  pub kyber_ciphertext : Option Bytes
  pub message : Bytes

pub record Locals : Type 0 where
  pub reg_id : ℕ
  pub pre_key_id : Option ℕ
  pub signed_pre_key_id : ℕ
  pub kyber_pre_key_id : Option ℕ
  pub bk_bytes : Option Bytes
  pub ik_bytes : Option Bytes
  pub kc_bytes : Option Bytes
  pub msg_bytes : Option Bytes

abbrev no_locals : Locals
no_locals = record {
  reg_id = 0;
  pre_key_id = none;
  signed_pre_key_id = 0;
  kyber_pre_key_id = none;
  bk_bytes = none;
  ik_bytes = none;
  kc_bytes = none;
  msg_bytes = none;
}

abbrev current_version : ℕ
current_version = 4

-- `((version & 0xF) << 4) | CURRENT_VERSION`
abbrev pub version_byte : ℕ → ℕ
version_byte v = bit_or (bit_and v 0xf * 2 ^ 4) current_version

unfoldable pub serialize_pre_key_signal : PreKeySignalMessage → Bytes
serialize_pre_key_signal m =
    let e₁ = write_varint_field [] 5 m.registration_id in
    let e₂ = write_some (λ buf v. write_varint_field buf 1 v) e₁ m.pre_key_id in
    let e₃ = write_varint_field e₂ 6 m.signed_pre_key_id in
    let e₄ = write_some (λ buf v. write_varint_field buf 7 v) e₃ m.kyber_pre_key_id in
    let e₅ = write_some (λ buf bs. write_bytes_field buf 8 bs) e₄ m.kyber_ciphertext in
    let e₆ = write_bytes_field e₅ 2 (serialize_public_key m.base_key) in
    let e₇ = write_bytes_field e₆ 3 (serialize_public_key m.identity_key) in
    let e₈ = write_bytes_field e₇ 4 m.message in version_byte m.message_version ∷ e₈

unfoldable pub pre_key_signal_field : Locals → Field → Result Locals
pre_key_signal_field s f =
    if f.number == 5
    then on_varint s f.payload (λ v. do n ← int_cast 32 v; ok (record s { reg_id = n }))
    else if f.number == 1
    then on_varint s f.payload (λ v. do n ← int_cast 32 v; ok (record s { pre_key_id = some n }))
    else if f.number == 6
    then on_varint s f.payload (λ v. do n ← int_cast 32 v; ok (record s { signed_pre_key_id = n }))
    else if f.number == 7
    then on_varint s f.payload
        (λ v. do n ← int_cast 32 v; ok (record s { kyber_pre_key_id = some n }))
    else if f.number == 8
    then on_len s f.payload (λ bs. ok (record s { kc_bytes = some bs }))
    else if f.number == 2
    then on_len s f.payload (λ bs. ok (record s { bk_bytes = some bs }))
    else if f.number == 3
    then on_len s f.payload (λ bs. ok (record s { ik_bytes = some bs }))
    else if f.number == 4
    then on_len s f.payload (λ bs. ok (record s { msg_bytes = some bs }))
    else ok s

unfoldable pub deserialize_pre_key_signal : Bytes → Result PreKeySignalMessage
deserialize_pre_key_signal [] = err invalid_message
deserialize_pre_key_signal (first ∷ body) = do
  fail_if (ltb (first / 2 ^ 4) 3) legacy_ciphertext_version
  s ← parse_fields pre_key_signal_field body no_locals
  bk ← or_return s.bk_bytes invalid_message
  base_key ← deserialize_public_key bk
  ik ← or_return s.ik_bytes invalid_message
  identity_key ← deserialize_public_key ik
  msg ← or_return s.msg_bytes invalid_message
  ok (record {
    message_version = first / 2 ^ 4;
    registration_id = s.reg_id;
    pre_key_id = s.pre_key_id;
    signed_pre_key_id = s.signed_pre_key_id;
    kyber_pre_key_id = s.kyber_pre_key_id;
    base_key = base_key;
    identity_key = identity_key;
    kyber_ciphertext = s.kc_bytes;
    message = msg;
  })

pub record IsPreKeySignal (m : PreKeySignalMessage) : Type 0 where
  pub version : (3 ≤ m.message_version) × (m.message_version < 16)
  pub registration_id : IsU32 m.registration_id
  pub pre_key_id : AllOf IsU32 m.pre_key_id
  pub signed_pre_key_id : IsU32 m.signed_pre_key_id
  pub kyber_pre_key_id : AllOf IsU32 m.kyber_pre_key_id
  pub base_key : IsPublicKey m.base_key
  pub identity_key : IsPublicKey m.identity_key
  pub kyber_ciphertext : AllOf (λ bs. length bs < 2 ^ 62) m.kyber_ciphertext
  pub message : length m.message < 2 ^ 62

abbrev pre_key_signal_fields : PreKeySignalMessage → List Field
pre_key_signal_fields m =
    varint_field 5 m.registration_id
    ∷ (field_some (λ v. varint_field 1 v) m.pre_key_id
        ++ varint_field 6 m.signed_pre_key_id
          ∷ (field_some (λ v. varint_field 7 v) m.kyber_pre_key_id
              ++ (field_some (λ bs. bytes_field 8 bs) m.kyber_ciphertext
                  ++ bytes_field 2 (serialize_public_key m.base_key)
                    ∷ bytes_field 3 (serialize_public_key m.identity_key)
                    ∷ bytes_field 4 m.message
                    ∷ [])))

serialize_pre_key_signal_lem :
    (m : PreKeySignalMessage)
    → serialize_pre_key_signal m
      ≡ version_byte m.message_version ∷ encode_fields (pre_key_signal_fields m)
unfolding serialize_pre_key_signal
serialize_pre_key_signal_lem m =
    rw
      (
        write_bytes_field_lem _ 4 (omega arith) m.message,
        write_bytes_field_lem _ 3 (omega arith) (serialize_public_key m.identity_key),
        write_bytes_field_lem _ 2 (omega arith) (serialize_public_key m.base_key),
        write_some_lem _ (λ bs. bytes_field 8 bs) _ m.kyber_ciphertext
            (λ b v. write_bytes_field_lem b 8 (omega arith) v),
        write_some_lem _ (λ v. varint_field 7 v) _ m.kyber_pre_key_id
            (λ b v. write_varint_field_lem b 7 (omega arith) v),
        write_varint_field_lem _ 6 (omega arith) m.signed_pre_key_id,
        write_some_lem _ (λ v. varint_field 1 v) _ m.pre_key_id
            (λ b v. write_varint_field_lem b 1 (omega arith) v),
        write_varint_field_lem [] 5 (omega arith) m.registration_id,
      )
      (simp (encode_fields-append, encode_fields-cons, encode_fields-nil, append_assoc, append-nil))

version_byte-high : (v : ℕ) → v < 16 → version_byte v / 2 ^ 4 ≡ v
version_byte-high v h =
    ap (λ (t : ℕ). bit_or (t * 2 ^ 4) current_version / 2 ^ 4) (bit_and_low 4 v)
    ∙ ap (λ (t : ℕ). t / 2 ^ 4) (bit_or_low 4 (v % 16) 4 (omega arith))
    ∙ omega arith

-- Each optional field leaves its value.
run_pre_key_id :
    (s : Locals) (o : Option ℕ)
    → AllOf IsU32 o
    → s.pre_key_id ≡ none
    → run_fields pre_key_signal_field (field_some (λ v. varint_field 1 v) o) s
      ≡ ok (record s { pre_key_id = o })
unfolding run_fields pre_key_signal_field
run_pre_key_id s none h e = ap (λ (o : Option ℕ). ok (record s { pre_key_id = o })) e
run_pre_key_id s (some v) h e = rw (int_cast_lem 32 v h)

run_kyber_pre_key_id :
    (s : Locals) (o : Option ℕ)
    → AllOf IsU32 o
    → s.kyber_pre_key_id ≡ none
    → run_fields pre_key_signal_field (field_some (λ v. varint_field 7 v) o) s
      ≡ ok (record s { kyber_pre_key_id = o })
unfolding run_fields pre_key_signal_field
run_kyber_pre_key_id s none h e = ap (λ (o : Option ℕ). ok (record s { kyber_pre_key_id = o })) e
run_kyber_pre_key_id s (some v) h e = rw (int_cast_lem 32 v h)

run_kyber_ciphertext :
    (s : Locals) (o : Option Bytes)
    → s.kc_bytes ≡ none
    → run_fields pre_key_signal_field (field_some (λ bs. bytes_field 8 bs) o) s
      ≡ ok (record s { kc_bytes = o })
unfolding run_fields pre_key_signal_field
run_kyber_ciphertext s none e = ap (λ (o : Option Bytes). ok (record s { kc_bytes = o })) e
run_kyber_ciphertext s (some v) e = refl

abbrev locals_of : PreKeySignalMessage → Locals
locals_of m = record {
  reg_id = m.registration_id;
  pre_key_id = m.pre_key_id;
  signed_pre_key_id = m.signed_pre_key_id;
  kyber_pre_key_id = m.kyber_pre_key_id;
  bk_bytes = some (serialize_public_key m.base_key);
  ik_bytes = some (serialize_public_key m.identity_key);
  kc_bytes = m.kyber_ciphertext;
  msg_bytes = some m.message;
}

run_fields_lem :
    (m : PreKeySignalMessage)
    → IsPreKeySignal m
    → run_fields pre_key_signal_field (pre_key_signal_fields m) no_locals ≡ ok (locals_of m)
unfolding run_fields pre_key_signal_field
run_fields_lem m valid =
    let s₁ : Locals = record no_locals { reg_id = m.registration_id } in
    let s₂ : Locals = record s₁ { pre_key_id = m.pre_key_id } in
    let s₃ : Locals = record s₂ { signed_pre_key_id = m.signed_pre_key_id } in
    let s₄ : Locals = record s₃ { kyber_pre_key_id = m.kyber_pre_key_id } in
    rw (
      int_cast_lem 32 m.registration_id valid.registration_id,
      run_fields-append pre_key_signal_field (field_some (λ v. varint_field 1 v) m.pre_key_id) _ s₁,
      run_pre_key_id s₁ m.pre_key_id valid.pre_key_id refl,
      int_cast_lem 32 m.signed_pre_key_id valid.signed_pre_key_id,
      run_fields-append pre_key_signal_field (field_some (λ v. varint_field 7 v) m.kyber_pre_key_id)
          _ s₃,
      run_kyber_pre_key_id s₃ m.kyber_pre_key_id valid.kyber_pre_key_id refl,
      run_fields-append pre_key_signal_field
          (field_some (λ bs. bytes_field 8 bs) m.kyber_ciphertext) _ s₄,
      run_kyber_ciphertext s₄ m.kyber_ciphertext refl,
    )

-- The fields fit a buffer.
fields_fit :
    (m : PreKeySignalMessage)
    → IsPreKeySignal m
    → All IsField (pre_key_signal_fields m) × (budget (pre_key_signal_fields m) < 2 ^ 64)
fields_fit m valid =
    let tail =
      append-Fits (field_some (λ bs. bytes_field 8 bs) m.kyber_ciphertext) _ (2 ^ 62 + 20)
        (2 ^ 62 + 200)
        (field_some-Fits (λ bs. length bs < 2 ^ 62) _ m.kyber_ciphertext (2 ^ 62 + 20)
          (λ bs h. (omega arith, omega arith)) valid.kyber_ciphertext)
        (omega (arith, bk, ik, valid.message), omega (arith, bk, ik, valid.message)) in
    let middle =
      append-Fits (field_some (λ v. varint_field 7 v) m.kyber_pre_key_id) _ 20 _
        (field_some-Fits IsU32 _ m.kyber_pre_key_id 20 (λ v h. (omega arith, omega arith))
          valid.kyber_pre_key_id)
        tail in
    let head =
      append-Fits (field_some (λ v. varint_field 1 v) m.pre_key_id) _ 20 _
        (field_some-Fits IsU32 _ m.pre_key_id 20 (λ v h. (omega arith, omega arith))
          valid.pre_key_id)
        (cons-Fits (varint_field 6 m.signed_pre_key_id) _ _ (omega (arith, valid.signed_pre_key_id))
          middle) in
    let (all, size) =
      cons-Fits (varint_field 5 m.registration_id) _ _ (omega (arith, valid.registration_id))
        head in
    (all, omega (arith, size))
  where
    bk : length (serialize_public_key m.base_key) ≡ 33
    bk = length-serialize_public_key m.base_key valid.base_key

    ik : length (serialize_public_key m.identity_key) ≡ 33
    ik = length-serialize_public_key m.identity_key valid.identity_key

-- A pre-key message of a version from 3 to 15, whose numbers, keys and optional parts have their
-- widths and whose ciphertext and inner message are below 2^62 bytes, is read back, with each of
-- its optional parts there or not.
pub deserialize-serialize_pre_key_signal :
    (m : PreKeySignalMessage)
    → IsPreKeySignal m
    → deserialize_pre_key_signal (serialize_pre_key_signal m) ≡ ok m
unfolding deserialize_pre_key_signal
deserialize-serialize_pre_key_signal m valid =
    let (all, fits) = fields_fit m valid in
    let version = version_byte-high m.message_version (valid.version.1) in
    rw (
      serialize_pre_key_signal_lem m,
      version,
      le→ltb m.message_version 3 valid.version.0,
      parse_fields-budget pre_key_signal_field (pre_key_signal_fields m) no_locals all fits,
      run_fields_lem m valid,
      deserialize-serialize_public_key m.base_key valid.base_key,
      deserialize-serialize_public_key m.identity_key valid.identity_key,
    )
