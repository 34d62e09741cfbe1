-- ===== src/Proto/Fields.antt =====
-- `nextField` and the loops over it, against the wire format that the `Encoder` writes.
use libsignal_zig.Prelude.{
  ℕ, zero, suc, ◌+◌, ◌*◌, ◌/◌, ◌%◌, ◌^◌, ◌≤◌, ◌<◌, ◌≡◌, refl, ap, ◌∙◌, bit_and, some, List, [], ◌∷◌,
  ◌++◌, length, arith, All, length-append, take_prefix, drop_prefix, append_assoc, ◌==◌, false,
}
use libsignal_zig.Prelude.Bits.{bit_and_low}
use libsignal_zig.Prelude.Bytes.{Bytes, write_le, read_le-write_le, length-write_le}
use libsignal_zig.Prelude.Result.{Result, ok, ◌>>=◌}
use libsignal_zig.Proto.{
  Field, FieldData, WireType, Cursor, encode_varint, take_bytes, field_data, read_field, next_of,
  next_field, each_field, parse_fields, wire_type_from_int,
}
use libsignal_zig.Proto.Varint.{decode_varint-encode_varint, encode_varint_shape}

-- The protobuf wire format: a tag that joins the number and the wire type, then the payload.
abbrev pub type_number : FieldData → ℕ
type_number (FieldData.varint v) = 0
type_number (FieldData.i64 v) = 1
type_number (FieldData.len bs) = 2
type_number (FieldData.i32 v) = 5

unfoldable pub encode_payload : FieldData → Bytes
encode_payload (FieldData.varint v) = encode_varint v
encode_payload (FieldData.i64 v) = write_le 8 v
encode_payload (FieldData.len bs) = encode_varint (length bs) ++ bs
encode_payload (FieldData.i32 v) = write_le 4 v

unfoldable pub encode_field : Field → Bytes
unfolding encode_payload
encode_field f = encode_varint (f.number * 8 + type_number f.payload) ++ encode_payload f.payload

unfoldable pub encode_fields : List Field → Bytes
unfolding encode_field
encode_fields [] = []
encode_fields (f ∷ fs) = encode_field f ++ encode_fields fs

abbrev pub IsPayload : FieldData → Type 0
IsPayload (FieldData.varint v) = v < 2 ^ 64
IsPayload (FieldData.i64 v) = v < 2 ^ 64
IsPayload (FieldData.len bs) = length bs < 2 ^ 64
IsPayload (FieldData.i32 v) = v < 2 ^ 32

abbrev pub IsField : Field → Type 0
IsField f = (0 < f.number) × (f.number < 2 ^ 32) × IsPayload f.payload

-- The cursor behind `n` bytes of which `rest` is left.
abbrev pub at : ℕ → Bytes → Cursor
at pos rest = record { pos = pos; rest = rest }

pub type_number-lt : (d : FieldData) → type_number d < 8
type_number-lt (FieldData.varint v) = omega arith
type_number-lt (FieldData.i64 v) = omega arith
type_number-lt (FieldData.len bs) = omega arith
type_number-lt (FieldData.i32 v) = omega arith

abbrev type_of : FieldData → WireType
type_of (FieldData.varint v) = WireType.varint
type_of (FieldData.i64 v) = WireType.i64
type_of (FieldData.len bs) = WireType.len
type_of (FieldData.i32 v) = WireType.i32

wire_type_from_int-type_number :
    (d : FieldData) → wire_type_from_int (type_number d) ≡ ok (type_of d)
unfolding wire_type_from_int
wire_type_from_int-type_number (FieldData.varint v) = refl
wire_type_from_int-type_number (FieldData.i64 v) = refl
wire_type_from_int-type_number (FieldData.len bs) = refl
wire_type_from_int-type_number (FieldData.i32 v) = refl

take_bytes_prefix :
    (n pos : ℕ) (bs rest : Bytes)
    → length bs ≡ n
    → pos + n < 2 ^ 64
    → take_bytes n (at pos (bs ++ rest)) ≡ ok (bs, at (pos + n) rest)
unfolding take_bytes
take_bytes_prefix n pos bs rest e h =
    ground (arith, take_prefix n bs rest e, drop_prefix n bs rest e, length-append bs rest)

field_data-encode_payload :
    (d : FieldData) (pos : ℕ) (rest : Bytes)
    → IsPayload d
    → pos + length (encode_payload d) < 2 ^ 64
    → field_data (type_of d) (at pos (encode_payload d ++ rest))
      ≡ ok (d, at (pos + length (encode_payload d)) rest)
unfolding field_data encode_payload
field_data-encode_payload (FieldData.varint v) pos rest h fits =
    rw (decode_varint-encode_varint v pos rest h)
field_data-encode_payload (FieldData.i64 v) pos rest h fits =
    let size = length-write_le 8 v in
    rw (
      take_bytes_prefix 8 pos (write_le 8 v) rest size (omega (arith, size)),
      read_le-write_le 8 v h,
      size,
    )
field_data-encode_payload (FieldData.len bs) pos rest h fits =
    let head = encode_varint (length bs) in
    let sum = length-append head bs in
    rw
      (
        append_assoc head bs rest,
        decode_varint-encode_varint (length bs) pos (bs ++ rest) h,
        take_bytes_prefix (length bs) (pos + length head) bs rest refl (omega (arith, sum)),
      )
      (ap (λ (n : ℕ). ok (FieldData.len bs, at n rest)) (omega (arith, sum)))
field_data-encode_payload (FieldData.i32 v) pos rest h fits =
    let size = length-write_le 4 v in
    rw (
      take_bytes_prefix 4 pos (write_le 4 v) rest size (omega (arith, size)),
      read_le-write_le 4 v h,
      size,
    )

-- The tag splits into the number and the wire type.
tag_parts :
    (n t : ℕ)
    → n < 2 ^ 32
    → t < 8
    → ((n * 8 + t) / 2 ^ 3 % 2 ^ 32 ≡ n) × (bit_and (n * 8 + t) 0x7 ≡ t)
tag_parts n t hn ht = (omega arith, bit_and_low 3 (n * 8 + t) ∙ omega arith)

ne_zero : (n : ℕ) → 0 < n → (n == 0) ≡ false
ne_zero n h = ground arith

-- On a tag that an encoder may have written, what follows is read as its wire type says.
pub read_field_tag :
    (n t pos : ℕ) (rest : Bytes)
    → 0 < n
    → n < 2 ^ 32
    → t < 8
    → read_field (at pos (encode_varint (n * 8 + t) ++ rest)) ≡ (
        wire_type_from_int t >>= λ w.
        field_data w (at (pos + length (encode_varint (n * 8 + t))) rest) >>= λ r.
        ok (record { number = n; payload = r.0 }, r.1))
unfolding read_field
read_field_tag n t pos rest positive small ht =
    let (number_part, type_part) = tag_parts n t small ht in
    rw (
      decode_varint-encode_varint (n * 8 + t) pos rest (omega arith),
      number_part,
      type_part,
      ne_zero n positive,
    )

read_field-encode_field :
    (f : Field) (pos : ℕ) (rest : Bytes)
    → IsField f
    → pos + length (encode_field f) < 2 ^ 64
    → read_field (at pos (encode_field f ++ rest)) ≡ ok (f, at (pos + length (encode_field f)) rest)
unfolding encode_field
read_field-encode_field f pos rest (positive, small, sized) fits =
    let t = type_number f.payload in
    let head = encode_varint (f.number * 8 + t) in
    let body = encode_payload f.payload in
    let sum = length-append head body in
    rw
      (
        append_assoc head body rest,
        read_field_tag f.number t pos (body ++ rest) positive small (type_number-lt f.payload),
        wire_type_from_int-type_number f.payload,
        field_data-encode_payload f.payload (pos + length head) rest sized (omega (arith, sum)),
      )
      (ap (λ (n : ℕ). ok (f, at n rest)) (omega (arith, sum)))

encode_field-pos : (f : Field) → IsField f → 1 ≤ length (encode_field f)
unfolding encode_field
encode_field-pos f (positive, small, sized) =
    let tag = f.number * 8 + type_number f.payload in
    omega (
      arith,
      length-append (encode_varint tag) (encode_payload f.payload),
      encode_varint_shape tag (omega (arith, type_number-lt f.payload)),
    )

-- A buffer that is not at its end holds a field or an error.
pub next_of-cons :
    (bs : Bytes) (c : Cursor) → 1 ≤ length bs → next_of bs c ≡ (read_field c >>= λ r. ok (some r))
unfolding next_of
next_of-cons [] c h = absurd (omega arith)
next_of-cons (b ∷ bs) c h = refl

pub next_field-encode_field :
    (f : Field) (pos : ℕ) (rest : Bytes)
    → IsField f
    → pos + length (encode_field f) < 2 ^ 64
    → next_field (at pos (encode_field f ++ rest))
      ≡ ok (some (f, at (pos + length (encode_field f)) rest))
unfolding next_field
next_field-encode_field f pos rest valid fits = rw (
  next_of-cons (encode_field f ++ rest) (at pos (encode_field f ++ rest))
      (omega (arith, length-append (encode_field f) rest, encode_field-pos f valid)),
  read_field-encode_field f pos rest valid fits,
)

module _ {ℓ} {S : Type ℓ} (body : S → Field → Result S) where
  -- The body run on each field in turn.
  unfoldable pub run_fields : List Field → S → Result S
  run_fields [] s = ok s
  run_fields (f ∷ fs) s = body s f >>= run_fields fs

  each_field-encode_fields :
      (fs : List Field) (fuel pos : ℕ) (s : S)
      → All IsField fs
      → length fs < fuel
      → pos + length (encode_fields fs) < 2 ^ 64
      → each_field body fuel (at pos (encode_fields fs)) s ≡ run_fields fs s
  unfolding each_field encode_fields run_fields
  each_field-encode_fields fs zero pos s valid enough fits = absurd (omega arith)
  each_field-encode_fields [] (suc fuel) pos s valid enough fits = unfold next_field in refl
  each_field-encode_fields (f ∷ fs) (suc fuel) pos s (vf, vs) enough fits =
      let sum = length-append (encode_field f) (encode_fields fs) in
      rw (next_field-encode_field f pos (encode_fields fs) vf (omega (arith, sum))) (λ i.
        body s f >>= λ s'.
        each_field-encode_fields fs fuel (pos + length (encode_field f)) s' vs (omega arith)
          (omega (arith, sum)) i)

length-le-encode_fields : (fs : List Field) → All IsField fs → length fs ≤ length (encode_fields fs)
unfolding encode_fields
length-le-encode_fields [] valid = omega arith
length-le-encode_fields (f ∷ fs) (vf, vs) = omega (
  arith,
  length-append (encode_field f) (encode_fields fs),
  encode_field-pos f vf,
  length-le-encode_fields fs vs,
)

-- A loop over the encoding of well-formed fields is the body run on each field in turn.
pub parse_fields-encode_fields {ℓ} :
    {S : Type ℓ} (body : S → Field → Result S) (fs : List Field) (s : S)
    → All IsField fs
    → length (encode_fields fs) < 2 ^ 64
    → parse_fields body (encode_fields fs) s ≡ run_fields body fs s
unfolding parse_fields
parse_fields-encode_fields body fs s valid fits =
    each_field-encode_fields body fs (suc (length (encode_fields fs))) 0 s valid
      (omega (arith, length-le-encode_fields fs valid)) (omega arith)
