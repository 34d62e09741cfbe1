-- ===== src/Proto/Writes.antt =====
-- The `Encoder`'s methods append the wire format of one field.
use libsignal_zig.Prelude.{
  ℕ, ◌+◌, ◌*◌, ◌%◌, ◌^◌, ◌<◌, ◌≡◌, ap, ◌∙◌, bit_or, ◌++◌, arith, append_assoc, Bool, if◌then◌else◌,
}
use libsignal_zig.Prelude.Bits.{bit_or_low}
use libsignal_zig.Prelude.Bytes.{Bytes, IsU32}
use libsignal_zig.Proto.{
  Field, FieldData, write_varint_field, write_bytes_field, write_fixed64_field, write_bool_field,
}
use libsignal_zig.Proto.Fields.{encode_field}

abbrev pub varint_field : ℕ → ℕ → Field
varint_field n v = record { number = n; payload = FieldData.varint v }

abbrev pub bytes_field : ℕ → Bytes → Field
bytes_field n bs = record { number = n; payload = FieldData.len bs }

abbrev pub fixed64_field : ℕ → ℕ → Field
fixed64_field n v = record { number = n; payload = FieldData.i64 v }

tag : (n t : ℕ) → IsU32 n → t < 8 → bit_or (n * 2 ^ 3 % 2 ^ 64) t ≡ n * 8 + t
tag n t h ht = ap (λ (m : ℕ). bit_or m t) (omega arith) ∙ bit_or_low 3 n t ht

module _ (buf : Bytes) (n : ℕ) (small : IsU32 n) where
  pub write_varint_field_lem :
      (v : ℕ) → write_varint_field buf n v ≡ buf ++ encode_field (varint_field n v)
  unfolding write_varint_field encode_field
  write_varint_field_lem v = rw (tag n 0 small (omega arith), append_assoc)

  pub write_bytes_field_lem :
      (bs : Bytes) → write_bytes_field buf n bs ≡ buf ++ encode_field (bytes_field n bs)
  unfolding write_bytes_field encode_field
  write_bytes_field_lem bs = rw (tag n 2 small (omega arith)) (simp append_assoc)

  pub write_fixed64_field_lem :
      (v : ℕ) → write_fixed64_field buf n v ≡ buf ++ encode_field (fixed64_field n v)
  unfolding write_fixed64_field encode_field
  write_fixed64_field_lem v = rw (tag n 1 small (omega arith), append_assoc)

  pub write_bool_field_lem :
      (b : Bool)
      → write_bool_field buf n b ≡ buf ++ encode_field (varint_field n (if b then 1 else 0))
  unfolding write_bool_field
  write_bool_field_lem b = write_varint_field_lem (if b then 1 else 0)
