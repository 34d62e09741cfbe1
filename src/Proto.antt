-- ===== src/Proto.antt =====
-- src/proto.zig: the protobuf encoder and decoder.
-- A `buf` with its `pos` is a `Cursor`: the position, and the bytes from there on, so that
-- `buf.len` is `pos + length rest`. An `Encoder`'s buffer is the list of bytes written so far.
pub mod Varint
pub mod Fields
pub mod Writes
pub mod Malformed
pub mod Switch
use libsignal_zig.Prelude.{
  ℕ, zero, suc, ◌+◌, ◌*◌, ◌/◌, ◌%◌, ◌^◌, bit_and, bit_or, Bool, true, false, Option, none, some,
  List, [], ◌∷◌, ◌++◌, length, take, drop, ltb, leb, ◌==◌, if◌then◌else◌,
}
use libsignal_zig.Prelude.Bytes.{Bytes, read_le, write_le}
use libsignal_zig.Prelude.Result.{
  Result, ok, err, panic, stuck, ◌>>=◌, ◌>>◌, fail_if, panic_if, truncated, overflow, invalid_tag,
}

-- `WireType`, an enum(u3) with four of the eight values.
pub data WireType : Type 0 where
  varint i64 len i32 : WireType

-- The union in `Field.data`, whose tag is the wire type.
pub data FieldData : Type 0 where
  varint : ℕ → FieldData
  i64 : ℕ → FieldData
  len : Bytes → FieldData
  i32 : ℕ → FieldData

pub record Field : Type 0 where
  pub number : ℕ
  pub payload : FieldData

pub record Cursor : Type 0 where
  pub pos : ℕ
  pub rest : Bytes

-- `shift += 7` on a `u6`.
abbrev add_u6 : ℕ → ℕ → Result ℕ
add_u6 a b = if ltb (a + b) 64 then ok (a + b) else panic

-- The loop of `decodeVarint`. The list is `buf[pos..]`; `<<` on a `u64` drops the bits above 64.
unfoldable pub decode_loop : Bytes → ℕ → ℕ → ℕ → Result (ℕ × Cursor)
decode_loop [] pos result shift = err truncated
decode_loop (b ∷ bs) pos result shift =
    let result' = bit_or result (bit_and b 0x7f * 2 ^ shift % 2 ^ 64) in
    let more = λ (s : ℕ). decode_loop bs (pos + 1) result' s in
    if bit_and b 0x80 == 0
    then ok (result', record { pos = pos + 1; rest = bs })
    else (do shift' ← add_u6 shift 7; fail_if (leb 64 shift') overflow; more shift')

unfoldable pub decode_varint : Cursor → Result (ℕ × Cursor)
unfolding decode_loop
decode_varint c = decode_loop c.rest c.pos 0 0

-- `encodeVarint` into a buffer with `room` bytes left; the callers' buffers have ten.
unfoldable pub encode_loop : ℕ → ℕ → Bytes
encode_loop zero v = []
encode_loop (suc room) v =
    let low = bit_and v 0x7f % 256 in
    let rest = encode_loop room (v / 2 ^ 7) in
    if v / 2 ^ 7 == 0 then low ∷ [] else bit_or low 0x80 ∷ rest

unfoldable pub encode_varint : ℕ → Bytes
unfolding encode_loop
encode_varint v = encode_loop 10 v

-- `@enumFromInt` on the low three bits of a tag: a value with no name is illegal behaviour.
unfoldable pub wire_type_from_int : ℕ → Result WireType
wire_type_from_int raw =
    if raw == 0
    then ok WireType.varint
    else if raw == 1
    then ok WireType.i64
    else if raw == 2
    then ok WireType.len
    else if raw == 5
    then ok WireType.i32
    else panic

-- `pos + n` on a `usize`, held against `buf.len`, then the slice of `n` bytes.
unfoldable pub take_bytes : ℕ → Cursor → Result (Bytes × Cursor)
take_bytes n c = do
  panic_if (leb (2 ^ 64) (c.pos + n))
  fail_if (ltb (length c.rest) n) truncated
  ok (take n c.rest, record { pos = c.pos + n; rest = drop n c.rest })

unfoldable pub field_data : WireType → Cursor → Result (FieldData × Cursor)
field_data WireType.varint c = do (v, c') ← decode_varint c; ok (FieldData.varint v, c')
field_data WireType.i64 c = do (bs, c') ← take_bytes 8 c; ok (FieldData.i64 (read_le bs), c')
field_data WireType.len c = do
  (n, c₁) ← decode_varint c
  (bs, c₂) ← take_bytes n c₁
  ok (FieldData.len bs, c₂)
field_data WireType.i32 c = do (bs, c') ← take_bytes 4 c; ok (FieldData.i32 (read_le bs), c')

-- The body of `nextField` past the check for the end of the buffer.
unfoldable pub read_field : Cursor → Result (Field × Cursor)
read_field c = do
  (tag, c₁) ← decode_varint c
  let field_number = tag / 2 ^ 3 % 2 ^ 32
  fail_if (field_number == 0) invalid_tag
  wire_type ← wire_type_from_int (bit_and tag 0x7)
  (d, c₂) ← field_data wire_type c₁
  ok (record { number = field_number; payload = d }, c₂)

unfoldable pub next_of : Bytes → Cursor → Result (Option (Field × Cursor))
next_of [] c = ok none
next_of (b ∷ bs) c = do r ← read_field c; ok (some r)

unfoldable pub next_field : Cursor → Result (Option (Field × Cursor))
unfolding next_of
next_field c = next_of c.rest c

-- `while (try nextField(buf, &pos)) |field| { … }`, whose body updates `s`.
module _ {ℓ} {S : Type ℓ} (body : S → Field → Result S) where
  unfoldable pub each_field : ℕ → Cursor → S → Result S
  each_field zero c s = stuck
  each_field (suc fuel) c s =
      next_field c >>= elim [ none ↦ ok s | some (f, c') ↦ body s f >>= each_field fuel c' ]

  -- Every field takes a byte at least, so `length buf + 1` rounds are enough.
  unfoldable pub parse_fields : Bytes → S → Result S
  unfolding each_field
  parse_fields buf s = each_field (suc (length buf)) (record { pos = 0; rest = buf }) s

-- The `Encoder`: each method appends to the buffer.
unfoldable pub write_varint_field : Bytes → ℕ → ℕ → Bytes
write_varint_field buf field_number value =
    (buf ++ encode_varint (bit_or (field_number * 2 ^ 3 % 2 ^ 64) 0)) ++ encode_varint value

unfoldable pub write_bytes_field : Bytes → ℕ → Bytes → Bytes
write_bytes_field buf field_number bytes =
    ((buf ++ encode_varint (bit_or (field_number * 2 ^ 3 % 2 ^ 64) 2))
      ++ encode_varint (length bytes))
    ++ bytes

unfoldable pub write_fixed64_field : Bytes → ℕ → ℕ → Bytes
write_fixed64_field buf field_number value =
    (buf ++ encode_varint (bit_or (field_number * 2 ^ 3 % 2 ^ 64) 1)) ++ write_le 8 value

unfoldable pub write_bool_field : Bytes → ℕ → Bool → Bytes
unfolding write_varint_field
write_bool_field buf field_number value =
    write_varint_field buf field_number (if value then 1 else 0)
