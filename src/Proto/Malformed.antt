-- ===== src/Proto/Malformed.antt =====
-- Bytes that no `Encoder` wrote: the loops end on any input, and some input panics.
use libsignal_zig.Prelude.{
  ℕ, zero, suc, ◌+◌, ◌*◌, ◌/◌, ◌%◌, ◌^◌, ◌≤◌, ◌<◌, ◌≡◌, ◌≢◌, ◌⊎◌, refl, bit_and, Option, none, some,
  [], ◌∷◌, ◌++◌, length, ◌==◌, arith, length-append, length-drop, le→leb,
}
use libsignal_zig.Prelude.Bytes.{Bytes, IsU64}
use libsignal_zig.Prelude.Result.{
  Result, ok, err, panic, stuck, ◌>>=◌, bind-eq-ok, fail_if, invalid_tag,
}
use libsignal_zig.Proto.{
  Field, FieldData, WireType, Cursor, decode_varint, encode_varint, take_bytes, field_data,
  read_field, next_of, next_field, each_field, parse_fields, wire_type_from_int,
}
use libsignal_zig.Proto.Varint.{
  decode_varint-encode_varint, encode_varint_shape, Advances, decode_varint-Advances,
  decode_varint-ne-stuck,
}
use libsignal_zig.Proto.Fields.{at, next_of-cons, read_field_tag}

-- What is left behind a read is no more than before it, and `pos` moves by what was taken.
record Keeps (c c' : Cursor) : Type 0 where
  no_longer : length c'.rest ≤ length c.rest
  in_step : c'.pos + length c'.rest ≡ c.pos + length c.rest

take_bytes-Keeps : (n : ℕ) (c c' : Cursor) (bs : Bytes) → take_bytes n c ≡ ok (bs, c') → Keeps c c'
unfolding take_bytes
take_bytes-Keeps n c c' bs e = ground (arith, length-drop n c.rest)

field_data-Keeps :
    (w : WireType) (c c' : Cursor) (d : FieldData) → field_data w c ≡ ok (d, c') → Keeps c c'
unfolding field_data
field_data-Keeps WireType.varint c c' d e =
    let ((v, c₁), e₁, e₂) = bind-eq-ok (decode_varint c) _ e in
    ground (arith, decode_varint-Advances c v c₁ e₁, e₂)
field_data-Keeps WireType.i64 c c' d e =
    let ((bs, c₁), e₁, e₂) = bind-eq-ok (take_bytes 8 c) _ e in
    ground (arith, take_bytes-Keeps 8 c c₁ bs e₁, e₂)
field_data-Keeps WireType.len c c' d e =
    let ((n, c₁), e₁, e₂) = bind-eq-ok (decode_varint c) _ e in
    let ((bs, c₂), e₃, e₄) = bind-eq-ok (take_bytes n c₁) _ e₂ in
    ground (arith, decode_varint-Advances c n c₁ e₁, take_bytes-Keeps n c₁ c₂ bs e₃, e₄)
field_data-Keeps WireType.i32 c c' d e =
    let ((bs, c₁), e₁, e₂) = bind-eq-ok (take_bytes 4 c) _ e in
    ground (arith, take_bytes-Keeps 4 c c₁ bs e₁, e₂)

read_field-Advances : (c c' : Cursor) (f : Field) → read_field c ≡ ok (f, c') → Advances c c'
unfolding read_field
read_field-Advances c c' f e =
    let ((tag, c₁), e₁, e₂) = bind-eq-ok (decode_varint c) _ e in
    let (_, _, e₃) = bind-eq-ok (fail_if (tag / 2 ^ 3 % 2 ^ 32 == 0) invalid_tag) _ e₂ in
    let (w, _, e₄) = bind-eq-ok (wire_type_from_int (bit_and tag 0x7)) _ e₃ in
    let ((d, c₂), e₅, e₆) = bind-eq-ok (field_data w c₁) _ e₄ in
    ground (arith, decode_varint-Advances c tag c₁ e₁, field_data-Keeps w c₁ c₂ d e₅, e₆)

next_of-Advances :
    (bs : Bytes) (c c' : Cursor) (f : Field) → next_of bs c ≡ ok (some (f, c')) → Advances c c'
unfolding next_of
next_of-Advances [] c c' f e = cc
next_of-Advances (b ∷ bs) c c' f e =
    let ((f', c₁), e₁, e₂) = bind-eq-ok (read_field c) _ e in
    ground (arith, read_field-Advances c c₁ f' e₁, e₂)

-- A field takes a byte at least, whatever the buffer holds.
pub next_field-Advances :
    (c c' : Cursor) (f : Field) → next_field c ≡ ok (some (f, c')) → Advances c c'
unfolding next_field
next_field-Advances c c' f e = next_of-Advances c.rest c c' f e

-- Nothing in `nextField` runs out of fuel.
bind-ne-stuck {ℓ κ} :
    {A : Type ℓ} {B : Type κ} (m : Result A) (f : A → Result B)
    → m ≢ stuck
    → ((a : A) → f a ≢ stuck)
    → (m >>= f) ≢ stuck
bind-ne-stuck (ok a) f hm hf = hf a
bind-ne-stuck (err e) f hm hf = λ p. cc
bind-ne-stuck panic f hm hf = λ p. cc
bind-ne-stuck stuck f hm hf = absurd (hm refl)

take_bytes-ne-stuck : (n : ℕ) (c : Cursor) → take_bytes n c ≢ stuck
unfolding take_bytes
take_bytes-ne-stuck n c e = ground arith

field_data-ne-stuck : (w : WireType) (c : Cursor) → field_data w c ≢ stuck
unfolding field_data
field_data-ne-stuck WireType.varint c =
    bind-ne-stuck (decode_varint c) _ (decode_varint-ne-stuck c) (λ r e. cc)
field_data-ne-stuck WireType.i64 c =
    bind-ne-stuck (take_bytes 8 c) _ (take_bytes-ne-stuck 8 c) (λ r e. cc)
field_data-ne-stuck WireType.len c =
    bind-ne-stuck (decode_varint c) _ (decode_varint-ne-stuck c)
      λ r. bind-ne-stuck (take_bytes r.0 r.1) _ (take_bytes-ne-stuck r.0 r.1) (λ r e. cc)
field_data-ne-stuck WireType.i32 c =
    bind-ne-stuck (take_bytes 4 c) _ (take_bytes-ne-stuck 4 c) (λ r e. cc)

wire_type_from_int-ne-stuck : (raw : ℕ) → wire_type_from_int raw ≢ stuck
unfolding wire_type_from_int
wire_type_from_int-ne-stuck raw e = ground arith

read_field-ne-stuck : (c : Cursor) → read_field c ≢ stuck
unfolding read_field
read_field-ne-stuck c = bind-ne-stuck (decode_varint c) _ (decode_varint-ne-stuck c) λ r.
    bind-ne-stuck (fail_if (r.0 / 2 ^ 3 % 2 ^ 32 == 0) invalid_tag) _ (λ e. ground arith)
      λ _.
        bind-ne-stuck (wire_type_from_int (bit_and r.0 0x7)) _ (wire_type_from_int-ne-stuck _)
          λ w. bind-ne-stuck (field_data w r.1) _ (field_data-ne-stuck w r.1) (λ d e. cc)

next_of-ne-stuck : (bs : Bytes) (c : Cursor) → next_of bs c ≢ stuck
unfolding next_of
next_of-ne-stuck [] c = λ e. cc
next_of-ne-stuck (b ∷ bs) c = bind-ne-stuck (read_field c) _ (read_field-ne-stuck c) (λ r e. cc)

next_field-ne-stuck : (c : Cursor) → next_field c ≢ stuck
unfolding next_field
next_field-ne-stuck c = next_of-ne-stuck c.rest c

bind-ne-stuck_eq {ℓ κ} :
    {A : Type ℓ} {B : Type κ} (m : Result A) (f : A → Result B)
    → m ≢ stuck
    → ((a : A) → m ≡ ok a → f a ≢ stuck)
    → (m >>= f) ≢ stuck
bind-ne-stuck_eq (ok a) f hm hf = hf a refl
bind-ne-stuck_eq (err e) f hm hf = λ p. cc
bind-ne-stuck_eq panic f hm hf = λ p. cc
bind-ne-stuck_eq stuck f hm hf = absurd (hm refl)

module _ {ℓ} {S : Type ℓ} (body : S → Field → Result S)
    (total : (s : S) (f : Field) → body s f ≢ stuck) where
  each_field-ne-stuck :
      (fuel : ℕ) (c : Cursor) (s : S) → length c.rest < fuel → each_field body fuel c s ≢ stuck
  unfolding each_field
  each_field-ne-stuck zero c s enough = absurd (omega arith)
  each_field-ne-stuck (suc fuel) c s enough =
      bind-ne-stuck_eq (next_field c) _ (next_field-ne-stuck c) (round (each_field-ne-stuck fuel))
    where
      round :
          ((c' : Cursor) (s' : S) → length c'.rest < fuel → each_field body fuel c' s' ≢ stuck)
          → (o : Option (Field × Cursor)) → next_field c ≡ ok o
          → (elim o as (λ _. Result S) [
            | none ↦ ok s
            | some (f, c') ↦ body s f >>= each_field body fuel c'
          ])
            ≢ stuck
      round ih none e = λ p. cc
      round ih (some (f, c')) e =
          bind-ne-stuck (body s f) _ (total s f)
            λ s'. ih c' s' (omega (arith, next_field-Advances c c' f e))

  -- A loop over `nextField` ends on every buffer: the model's fuel is enough.
  pub parse_fields-ne-stuck : (buf : Bytes) (s : S) → parse_fields body buf s ≢ stuck
  unfolding parse_fields
  parse_fields-ne-stuck buf s =
      each_field-ne-stuck (suc (length buf)) (record { pos = 0; rest = buf }) s (omega arith)

-- The wire types of protobuf that `WireType` does not name.
abbrev pub IsUnnamed : ℕ → Type 0
IsUnnamed t = (t ≡ 3) ⊎ (t ≡ 4) ⊎ (t ≡ 6) ⊎ (t ≡ 7)

unnamed_panics : (t : ℕ) → IsUnnamed t → wire_type_from_int t ≡ panic
unfolding wire_type_from_int
unnamed_panics t h = ground arith

next_field_tag :
    (v pos : ℕ) (rest : Bytes)
    → IsU64 v
    → read_field (at pos (encode_varint v ++ rest)) ≡ panic
    → next_field (at pos (encode_varint v ++ rest)) ≡ panic
unfolding next_field
next_field_tag v pos rest u e =
    let shape = encode_varint_shape v u in
    rw (
      next_of-cons (encode_varint v ++ rest) (at pos (encode_varint v ++ rest))
          (omega (arith, length-append (encode_varint v) rest, shape.1)),
      e,
    )

-- On a tag with a field number other than 0 and one of the wire types 3, 4, 6 and 7, which
-- `WireType` does not name, `nextField` panics: no error comes back, whatever follows.
pub next_field_unnamed :
    (n t pos : ℕ) (rest : Bytes)
    → 0 < n
    → n < 2 ^ 32
    → IsUnnamed t
    → next_field (at pos (encode_varint (n * 8 + t) ++ rest)) ≡ panic
next_field_unnamed n t pos rest positive small h =
    next_field_tag (n * 8 + t) pos rest (omega arith)
      (rw (read_field_tag n t pos rest positive small (omega arith), unnamed_panics t h))

take_bytes_panic :
    (n pos : ℕ) (rest : Bytes) → 2 ^ 64 ≤ pos + n → take_bytes n (at pos rest) ≡ panic
unfolding take_bytes
take_bytes_panic n pos rest h = rw (le→leb (2 ^ 64) (pos + n) h)

-- On a length-delimited field whose length takes the position after its tag and its length past
-- the largest usize, `nextField` panics in the addition that it holds against `buf.len`, instead
-- of returning `Truncated`.
pub next_field_huge :
    (n size pos : ℕ) (rest : Bytes)
    → 0 < n
    → n < 2 ^ 32
    → IsU64 size
    → 2 ^ 64 ≤ pos + length (encode_varint (n * 8 + 2)) + length (encode_varint size) + size
    → next_field (at pos (encode_varint (n * 8 + 2) ++ (encode_varint size ++ rest))) ≡ panic
unfolding wire_type_from_int field_data
next_field_huge n size pos rest positive small u huge =
    let head = length (encode_varint (n * 8 + 2)) in
    next_field_tag (n * 8 + 2) pos (encode_varint size ++ rest) (omega arith) (
      rw (
        read_field_tag n 2 pos (encode_varint size ++ rest) positive small (omega arith),
        decode_varint-encode_varint size (pos + head) rest u,
        take_bytes_panic size (pos + head + length (encode_varint size)) rest (omega arith),
      ))
