-- ===== src/Messages/Retry.antt =====
-- src/messages/plaintext_content.zig and decryption_error_message.zig: messages in the clear.
use libsignal_zig.Prelude.{
  ℕ, ◌^◌, ◌<◌, ◌≡◌, ◌∙◌, Option, none, some, List, [], ◌∷◌, length, ◌==◌, not, if◌then◌else◌, arith,
  append_assoc, append-nil, bit_and,
}
use libsignal_zig.Prelude.Bits.{bit_and_low}
use libsignal_zig.Prelude.Bytes.{Bytes, IsU32, IsU64}
use libsignal_zig.Prelude.Result.{
  Result, ok, err, ◌>>=◌, ◌>>◌, fail_if, or_return, invalid_message, invalid_argument,
  invalid_version,
}
use libsignal_zig.Curve.{
  PublicKey, IsPublicKey, serialize_public_key, deserialize_public_key, length-serialize_public_key,
  deserialize-serialize_public_key,
}
use libsignal_zig.Proto.{Field, parse_fields, write_varint_field, write_bytes_field}
use libsignal_zig.Proto.Fields.{encode_fields, run_fields}
use libsignal_zig.Proto.Writes.{
  varint_field, bytes_field, write_varint_field_lem, write_bytes_field_lem,
}
use libsignal_zig.Proto.Switch.{int_cast, int_cast_lem, on_varint, on_len, parse_fields-budget}

-- `PlaintextContent`, whose one field is its body.
pub record PlaintextContent : Type 0 where
  pub body : Bytes

unfoldable pub serialize_plaintext : PlaintextContent → Bytes
serialize_plaintext m = 0x33 ∷ write_bytes_field [] 1 m.body

unfoldable pub plaintext_field : Option Bytes → Field → Result (Option Bytes)
plaintext_field s f = if f.number == 1 then on_len s f.payload (λ bs. ok (some bs)) else ok s

-- The version is read and not looked at.
unfoldable pub deserialize_plaintext : Bytes → Result PlaintextContent
deserialize_plaintext [] = err invalid_message
deserialize_plaintext (first ∷ body_bytes) = do
  s ← parse_fields plaintext_field body_bytes none
  c ← or_return s invalid_message
  ok (record { body = c })

pub record DecryptionErrorMessage : Type 0 where
  pub ratchet_key : PublicKey
  pub timestamp : ℕ
  pub device_id : ℕ

pub record RetryLocals : Type 0 where
  pub ratchet_key_bytes : Option Bytes
  pub timestamp : ℕ
  pub device_id : ℕ

abbrev no_retry_locals : RetryLocals
no_retry_locals = record { ratchet_key_bytes = none; timestamp = 0; device_id = 0 }

unfoldable pub serialize_decryption_error : DecryptionErrorMessage → Bytes
serialize_decryption_error m =
    let e₁ = write_bytes_field [] 1 (serialize_public_key m.ratchet_key) in
    let e₂ = write_varint_field e₁ 2 m.timestamp in write_varint_field e₂ 3 m.device_id

unfoldable pub decryption_error_field : RetryLocals → Field → Result RetryLocals
decryption_error_field s f =
    if f.number == 1
    then on_len s f.payload (λ bs. ok (record s { ratchet_key_bytes = some bs }))
    else if f.number == 2
    then on_varint s f.payload (λ v. ok (record s { timestamp = v }))
    else if f.number == 3
    then on_varint s f.payload
        (λ v. do n ← int_cast 32 (bit_and v 0xffff_ffff); ok (record s { device_id = n }))
    else ok s

unfoldable pub deserialize_decryption_error : Bytes → Result DecryptionErrorMessage
deserialize_decryption_error bytes = do
  s ← parse_fields decryption_error_field bytes no_retry_locals
  rk_bytes ← or_return s.ratchet_key_bytes invalid_argument
  rk ← deserialize_public_key rk_bytes
  ok (record { ratchet_key = rk; timestamp = s.timestamp; device_id = s.device_id })

abbrev plaintext_content_version : ℕ
plaintext_content_version = 0x08

unfoldable pub serialize_plaintext_content : DecryptionErrorMessage → Bytes
serialize_plaintext_content m = plaintext_content_version ∷ serialize_decryption_error m

unfoldable pub deserialize_plaintext_content : Bytes → Result DecryptionErrorMessage
deserialize_plaintext_content [] = err invalid_message
deserialize_plaintext_content (first ∷ inner) = do
  fail_if (not (first == plaintext_content_version)) invalid_version
  deserialize_decryption_error inner

-- A plaintext message of less than 2^63 bytes is read back, whatever its version byte says.
pub deserialize-serialize_plaintext :
    (m : PlaintextContent)
    → length m.body < 2 ^ 63
    → deserialize_plaintext (serialize_plaintext m) ≡ ok m
unfolding serialize_plaintext deserialize_plaintext plaintext_field run_fields
deserialize-serialize_plaintext m h =
    let written : write_bytes_field [] 1 m.body ≡ encode_fields (bytes_field 1 m.body ∷ []) =
      unfold encode_fields in rw (write_bytes_field_lem [] 1 (omega arith) m.body, append-nil) in
    rw (
      written,
      parse_fields-budget plaintext_field (bytes_field 1 m.body ∷ []) none (omega arith)
          (omega arith),
    )

abbrev decryption_error_fields : DecryptionErrorMessage → List Field
decryption_error_fields m =
    bytes_field 1 (serialize_public_key m.ratchet_key)
    ∷ varint_field 2 m.timestamp
    ∷ varint_field 3 m.device_id
    ∷ []

serialize_decryption_error_lem :
    (m : DecryptionErrorMessage)
    → serialize_decryption_error m ≡ encode_fields (decryption_error_fields m)
unfolding serialize_decryption_error encode_fields
serialize_decryption_error_lem m =
    rw
      (
        write_varint_field_lem _ 3 (omega arith) m.device_id,
        write_varint_field_lem _ 2 (omega arith) m.timestamp,
        write_bytes_field_lem [] 1 (omega arith) (serialize_public_key m.ratchet_key),
      )
      (simp (append_assoc, append-nil))

low_32 : (v : ℕ) → IsU32 v → bit_and v 0xffff_ffff ≡ v
low_32 v h = bit_and_low 32 v ∙ omega arith

deserialize-serialize_decryption_error :
    (m : DecryptionErrorMessage)
    → IsPublicKey m.ratchet_key
    → IsU64 m.timestamp
    → IsU32 m.device_id
    → deserialize_decryption_error (serialize_decryption_error m) ≡ ok m
unfolding deserialize_decryption_error decryption_error_field run_fields
deserialize-serialize_decryption_error m key time device =
    let rk = length-serialize_public_key m.ratchet_key key in
    rw (
      serialize_decryption_error_lem m,
      parse_fields-budget decryption_error_field (decryption_error_fields m) no_retry_locals
          (omega (arith, rk)) (omega (arith, rk)),
      low_32 m.device_id device,
      int_cast_lem 32 m.device_id device,
      deserialize-serialize_public_key m.ratchet_key key,
    )

-- A request to send again, with a u64 timestamp and a u32 device, is read back, also behind the
-- version byte of a plaintext content.
pub deserialize-serialize_plaintext_content :
    (m : DecryptionErrorMessage)
    → IsPublicKey m.ratchet_key
    → IsU64 m.timestamp
    → IsU32 m.device_id
    → (deserialize_decryption_error (serialize_decryption_error m) ≡ ok m)
      × (deserialize_plaintext_content (serialize_plaintext_content m) ≡ ok m)
unfolding serialize_plaintext_content deserialize_plaintext_content
deserialize-serialize_plaintext_content m key time device =
    let read = deserialize-serialize_decryption_error m key time device in (read, rw read)
