-- ===== src/Proto/Switch.antt =====
-- The shapes of the bodies of the loops over `nextField`: a `switch` on the number whose prongs
-- look at the wire type first.
use libsignal_zig.Prelude.{
  sym, ap, ◌∙◌, append_assoc, append-nil, ℕ, ◌+◌, ◌*◌, ◌^◌, ◌<◌, ◌≤◌, ◌≡◌, refl, List, [], ◌∷◌,
  ◌++◌, Option, none, some, length, ltb, lt→ltb, if◌then◌else◌, All, All-append, arith,
  length-append,
}
use libsignal_zig.Prelude.Bytes.{Bytes, length-write_le}
use libsignal_zig.Prelude.Result.{Result, ok, panic, ◌>>=◌, bind_assoc}
use libsignal_zig.Proto.{Field, FieldData, parse_fields, encode_varint}
use libsignal_zig.Proto.Varint.{encode_varint_shape}
use libsignal_zig.Proto.Fields.{
  encode_payload, encode_field, encode_fields, IsPayload, IsField, type_number, type_number-lt,
  run_fields, parse_fields-encode_fields,
}

-- `@intCast` to so many bits.
abbrev pub int_cast : ℕ → ℕ → Result ℕ
int_cast width v = if ltb v (2 ^ width) then ok v else panic

pub int_cast_lem : (width v : ℕ) → v < 2 ^ width → int_cast width v ≡ ok v
int_cast_lem width v h = rw (lt→ltb v (2 ^ width) h)

module _ {ℓ} {S : Type ℓ} (s : S) where
  -- `if (field.wire_type == .varint) …`, and the like; another wire type leaves the state.
  abbrev pub on_varint : FieldData → (ℕ → Result S) → Result S
  on_varint (FieldData.varint v) act = act v
  on_varint (FieldData.i64 v) act = ok s
  on_varint (FieldData.len bs) act = ok s
  on_varint (FieldData.i32 v) act = ok s

  abbrev pub on_i64 : FieldData → (ℕ → Result S) → Result S
  on_i64 (FieldData.varint v) act = ok s
  on_i64 (FieldData.i64 v) act = act v
  on_i64 (FieldData.len bs) act = ok s
  on_i64 (FieldData.i32 v) act = ok s

  abbrev pub on_len : FieldData → (Bytes → Result S) → Result S
  on_len (FieldData.varint v) act = ok s
  on_len (FieldData.i64 v) act = ok s
  on_len (FieldData.len bs) act = act bs
  on_len (FieldData.i32 v) act = ok s

-- `if (x) |v| try enc.write…(v)`
abbrev pub write_some {ℓ} : {A : Type ℓ} → (Bytes → A → Bytes) → Bytes → Option A → Bytes
write_some write buf none = buf
write_some write buf (some v) = write buf v

-- A field that is there only if its value is.
abbrev pub field_some {ℓ} : {A : Type ℓ} → (A → Field) → Option A → List Field
field_some field none = []
field_some field (some v) = field v ∷ []

-- The bytes that a list of fields takes at most.
abbrev pub payload_size : FieldData → ℕ
payload_size (FieldData.varint v) = 20
payload_size (FieldData.i64 v) = 20
payload_size (FieldData.len bs) = 20 + length bs
payload_size (FieldData.i32 v) = 20

abbrev pub budget : List Field → ℕ
budget [] = 0
budget (f ∷ fs) = payload_size f.payload + budget fs

length-encode_payload :
    (d : FieldData) → IsPayload d → length (encode_payload d) + 10 ≤ payload_size d
unfolding encode_payload
length-encode_payload (FieldData.varint v) h = omega (arith, encode_varint_shape v h)
length-encode_payload (FieldData.i64 v) h = omega (arith, length-write_le 8 v)
length-encode_payload (FieldData.len bs) h =
    omega (arith, length-append (encode_varint (length bs)) bs, encode_varint_shape (length bs) h)
length-encode_payload (FieldData.i32 v) h = omega (arith, length-write_le 4 v)

length-encode_field : (f : Field) → IsField f → length (encode_field f) ≤ payload_size f.payload
unfolding encode_field
length-encode_field f (positive, small, sized) =
    let tag = f.number * 8 + type_number f.payload in
    omega (
      arith,
      length-append (encode_varint tag) (encode_payload f.payload),
      encode_varint_shape tag (omega (arith, type_number-lt f.payload)),
      length-encode_payload f.payload sized,
    )

pub length-encode_fields :
    (fs : List Field) → All IsField fs → length (encode_fields fs) ≤ budget fs
unfolding encode_fields
length-encode_fields [] h = omega arith
length-encode_fields (f ∷ fs) (hf, h) = omega (
  arith,
  length-append (encode_field f) (encode_fields fs),
  length-encode_field f hf,
  length-encode_fields fs h,
)

-- A loop over fields that fit a buffer is the body run on each of them.
pub parse_fields-budget {ℓ} :
    {S : Type ℓ} (body : S → Field → Result S) (fs : List Field) (s : S)
    → All IsField fs
    → budget fs < 2 ^ 64
    → parse_fields body (encode_fields fs) s ≡ run_fields body fs s
parse_fields-budget body fs s valid fits =
    parse_fields-encode_fields body fs s valid (omega (arith, length-encode_fields fs valid))

pub encode_fields-append :
    (xs ys : List Field) → encode_fields (xs ++ ys) ≡ encode_fields xs ++ encode_fields ys
unfolding encode_fields
encode_fields-append [] ys = refl
encode_fields-append (x ∷ xs) ys = rw (
  encode_fields-append xs ys,
  append_assoc (encode_field x) (encode_fields xs) (encode_fields ys),
)

pub encode_fields-cons :
    (f : Field) (fs : List Field) → encode_fields (f ∷ fs) ≡ encode_field f ++ encode_fields fs
unfolding encode_fields
encode_fields-cons f fs = refl

pub encode_fields-nil : encode_fields [] ≡ []
unfolding encode_fields
encode_fields-nil = refl

pub budget-append : (xs ys : List Field) → budget (xs ++ ys) ≡ budget xs + budget ys
budget-append [] ys = omega arith
budget-append (x ∷ xs) ys = omega (arith, budget-append xs ys)

pub run_fields-append {ℓ} :
    {S : Type ℓ} (body : S → Field → Result S) (xs ys : List Field) (s : S)
    → run_fields body (xs ++ ys) s ≡ (run_fields body xs s >>= run_fields body ys)
unfolding run_fields
run_fields-append body [] ys s = refl
run_fields-append body (x ∷ xs) ys s =
    (λ i. body s x >>= λ s'. run_fields-append body xs ys s' i)
    ∙ sym (bind_assoc (body s x) (run_fields body xs) (run_fields body ys))

-- An optional value writes its field, if it is there.
pub write_some_lem {ℓ} :
    {A : Type ℓ} (write : Bytes → A → Bytes) (field : A → Field) (buf : Bytes) (o : Option A)
    → ((b : Bytes) (v : A) → write b v ≡ b ++ encode_field (field v))
    → write_some write buf o ≡ buf ++ encode_fields (field_some field o)
unfolding encode_fields
write_some_lem write field buf none h = sym (append-nil buf)
write_some_lem write field buf (some v) h =
    h buf v ∙ ap (λ (bs : Bytes). buf ++ bs) (sym (append-nil (encode_field (field v))))

-- What an optional value must be, if it is there.
abbrev pub AllOf {ℓ} : {A : Type ℓ} → (A → Type 0) → Option A → Type 0
AllOf P none = Unit
AllOf P (some a) = P a

-- Well-formed fields of at most so many bytes.
abbrev pub Fits : List Field → ℕ → Type 0
Fits fs n = All IsField fs × (budget fs ≤ n)

pub append-Fits : (xs ys : List Field) (m n : ℕ) → Fits xs m → Fits ys n → Fits (xs ++ ys) (m + n)
append-Fits xs ys m n (hx, bx) (hy, by_n) =
    (All-append IsField xs ys hx hy, omega (arith, budget-append xs ys))

pub cons-Fits :
    (f : Field) (fs : List Field) (n : ℕ)
    → IsField f
    → Fits fs n
    → Fits (f ∷ fs) (payload_size f.payload + n)
cons-Fits f fs n hf (h, b) = ((hf, h), omega arith)

pub field_some-Fits {ℓ} :
    {A : Type ℓ} (P : A → Type 0) (field : A → Field) (o : Option A) (n : ℕ)
    → ((a : A) → P a → Fits (field a ∷ []) n)
    → AllOf P o
    → Fits (field_some field o) n
field_some-Fits P field none n each h = (tt, omega arith)
field_some-Fits P field (some a) n each h = each a h
