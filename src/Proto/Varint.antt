-- ===== src/Proto/Varint.antt =====
-- `encodeVarint` and `decodeVarint`: what is written is read back, in at most ten bytes.
use native.Mathlib.Nat.{pow-suc, mod-eq_of_lt, div-add-mod}
use native.Mathlib.Decide.{dec_lt}
use native.Mathlib.Numerals.{towards_suc}
use libsignal_zig.Prelude.{
  ℕ, zero, suc, ◌+◌, ◌*◌, ◌/◌, ◌%◌, ◌^◌, ◌≤◌, ◌<◌, ◌≡◌, ◌≢◌, ap, ◌∙◌, bit_and, bit_or, [], ◌∷◌,
  ◌++◌, length, arith, All,
}
use libsignal_zig.Prelude.Bits.{bit_or_shifted, bit_and_low, top_bit}
use libsignal_zig.Prelude.Bytes.{Bytes, IsByte, IsU64}
use libsignal_zig.Prelude.Result.{ok, err, panic, stuck, overflow}
use libsignal_zig.Proto.{Cursor, decode_loop, decode_varint, encode_loop, encode_varint}

low_seven : (v : ℕ) → bit_and v 0x7f ≡ v % 128
low_seven v = bit_and_low 7 v

set_top : (v : ℕ) → v < 128 → bit_or v 0x80 ≡ v + 128
set_top v h = bit_or_shifted 7 v 1 h

scale_mono : (a c p : ℕ) → a ≤ c → a * p ≤ c * p
scale_mono a c p h = grind arith

shift_seven : (s : ℕ) → 2 ^ (s + 7) ≡ 128 * 2 ^ s
shift_seven s = simp towards_suc (omega arith)

-- One byte's share of the result: `acc` fills the bits below `shift`.
accumulate :
    (acc g shift : ℕ)
    → acc < 2 ^ shift
    → g * 2 ^ shift < 2 ^ 64
    → bit_or acc (g * 2 ^ shift % 2 ^ 64) ≡ acc + g * 2 ^ shift
accumulate acc g shift ha hg = rw (mod-eq_of_lt hg) (bit_or_shifted shift acc g ha)

module _ (acc shift pos : ℕ) (rest : Bytes) (fits : acc < 2 ^ shift) where
  last_byte :
      (v : ℕ)
      → v < 128
      → v * 2 ^ shift < 2 ^ 64
      → decode_loop (v ∷ rest) pos acc shift
        ≡ ok (acc + v * 2 ^ shift, record { pos = pos + 1; rest = rest })
  unfolding decode_loop
  last_byte v h u = ground (arith, low_seven v, top_bit v, accumulate acc v shift fits)

  inner_byte :
      (g : ℕ)
      → g < 128
      → shift + 7 < 64
      → g * 2 ^ shift < 2 ^ 64
      → decode_loop ((g + 128) ∷ rest) pos acc shift
        ≡ decode_loop rest (pos + 1) (acc + g * 2 ^ shift) (shift + 7)
  unfolding decode_loop
  inner_byte g h s u =
      ground (arith, low_seven (g + 128), top_bit (g + 128), accumulate acc g shift fits)

encode_last : (room v : ℕ) → v < 128 → encode_loop (suc room) v ≡ v ∷ []
unfolding encode_loop
encode_last room v h = ground (arith, low_seven v)

encode_inner :
    (room v : ℕ) → 128 ≤ v → encode_loop (suc room) v ≡ (v % 128 + 128) ∷ encode_loop room (v / 128)
unfolding encode_loop
encode_inner room v h = ground (arith, low_seven v, set_top (v % 128) (omega arith))

-- The group of seven bits that is written first, and the rest, both shifted by `s`.
first_group : (v s : ℕ) → v * 2 ^ s ≡ v % 128 * 2 ^ s + v / 128 * 2 ^ (s + 7)
first_group v s = omega (
  arith,
  ap (λ (t : ℕ). t * 2 ^ s) (div-add-mod v 128),
  ap (λ (t : ℕ). v / 128 * t) (shift_seven s),
)

-- After one inner byte the value so far still fills the bits below the shift.
acc_grows : (acc g s : ℕ) → acc < 2 ^ s → g < 128 → acc + g * 2 ^ s < 2 ^ (s + 7)
acc_grows acc g s h hg = omega (arith, shift_seven s, scale_mono g 127 (2 ^ s) (omega arith))

-- In round `j` the shift is 7 * j, and `suc room` of the ten bytes are left.
decode_loop-encode_loop :
    (room j shift v acc pos : ℕ) (rest : Bytes)
    → room + j ≡ 9
    → shift ≡ 7 * j
    → v < 128 ^ suc room
    → acc < 2 ^ shift
    → v * 2 ^ shift < 2 ^ 64
    → decode_loop (encode_loop (suc room) v ++ rest) pos acc shift
      ≡ ok (
        acc + v * 2 ^ shift,
        record { pos = pos + length (encode_loop (suc room) v); rest = rest },
      )
decode_loop-encode_loop zero j shift v acc pos rest e es hv ha hu =
    rw (encode_last zero v hv) (last_byte acc shift pos rest ha v hv hu)
decode_loop-encode_loop (suc room) j shift v acc pos rest e es hv ha hu = elim (dec_lt v 128) [
  | yes small ↦ rw (encode_last (suc room) v small) (last_byte acc shift pos rest ha v small hu)
  | no big ↦
      let group = v % 128 in
      let more = encode_loop (suc room) (v / 128) in
      let split = first_group v shift in
      rw
        (
          encode_inner (suc room) v (omega arith),
          inner_byte acc shift pos (more ++ rest) ha group (omega arith) (omega arith)
              (omega (arith, split)),
          decode_loop-encode_loop room (j + 1) (shift + 7) (v / 128) (acc + group * 2 ^ shift)
              (pos + 1) rest (omega arith) (omega arith) (omega (arith, pow-suc 128 (suc room)))
              (acc_grows acc group shift ha (omega arith)) (omega (arith, split)),
        )
        (ground (arith, split))
]

module _ (v pos : ℕ) (rest : Bytes) (u : IsU64 v) where
  -- `decodeVarint` reads back any u64 that `encodeVarint` wrote, whatever follows, and leaves
  -- `pos` right behind it.
  pub decode_varint-encode_varint :
      decode_varint (record { pos = pos; rest = encode_varint v ++ rest })
      ≡ ok (v, record { pos = pos + length (encode_varint v); rest = rest })
  unfolding decode_varint encode_varint
  decode_varint-encode_varint =
      decode_loop-encode_loop 9 0 0 v 0 pos rest (omega arith) (omega arith) (omega arith)
        (omega arith) (omega arith)
      ∙ ap (λ (t : ℕ). ok (t, record { pos = pos + length (encode_varint v); rest = rest }))
          (omega arith)

encode_loop_shape :
    (room v : ℕ)
    → v < 128 ^ suc room
    → All IsByte (encode_loop (suc room) v)
      × (1 ≤ length (encode_loop (suc room) v))
      × (length (encode_loop (suc room) v) ≤ suc room)
encode_loop_shape zero v h = rw (encode_last zero v h) (omega arith)
encode_loop_shape (suc room) v h = elim (dec_lt v 128) [
  | yes small ↦ rw (encode_last (suc room) v small) (omega arith)
  | no big ↦
      let (bytes, lo, hi) =
        encode_loop_shape room (v / 128) (omega (arith, pow-suc 128 (suc room))) in
      rw (encode_inner (suc room) v (omega arith)) ((omega arith, bytes), omega arith, omega arith)
]

-- `encodeVarint` writes one to ten bytes for a u64: its callers' ten-byte buffers are enough.
pub encode_varint_shape :
    (v : ℕ)
    → IsU64 v
    → All IsByte (encode_varint v)
      × (1 ≤ length (encode_varint v))
      × (length (encode_varint v) ≤ 10)
unfolding encode_varint
encode_varint_shape v u = encode_loop_shape 9 v (omega arith)

-- A success leaves a suffix of the buffer: at least one byte is taken and `pos` moves by as many.
pub record Advances (c c' : Cursor) : Type 0 where
  pub shorter : length c'.rest < length c.rest
  pub in_step : c'.pos + length c'.rest ≡ c.pos + length c.rest

decode_loop-Advances :
    (bs : Bytes) (pos result shift v : ℕ) (c' : Cursor)
    → decode_loop bs pos result shift ≡ ok (v, c')
    → Advances (record { pos = pos; rest = bs }) c'
unfolding decode_loop
decode_loop-Advances [] pos result shift v c' e = cc
decode_loop-Advances (b ∷ bs) pos result shift v c' e = ground (
  arith,
  decode_loop-Advances bs (pos + 1) (bit_or result (bit_and b 0x7f * 2 ^ shift % 2 ^ 64))
      (shift + 7) v c',
)

pub decode_varint-Advances :
    (c : Cursor) (v : ℕ) (c' : Cursor) → decode_varint c ≡ ok (v, c') → Advances c c'
unfolding decode_varint
decode_varint-Advances c v c' e = decode_loop-Advances c.rest c.pos 0 0 v c' e

decode_loop-ne-overflow :
    (bs : Bytes) (pos result shift : ℕ) → decode_loop bs pos result shift ≢ err overflow
unfolding decode_loop
decode_loop-ne-overflow [] pos result shift e = cc
decode_loop-ne-overflow (b ∷ bs) pos result shift e = ground (
  arith,
  decode_loop-ne-overflow bs (pos + 1) (bit_or result (bit_and b 0x7f * 2 ^ shift % 2 ^ 64))
      (shift + 7),
)

decode_loop-ne-stuck : (bs : Bytes) (pos result shift : ℕ) → decode_loop bs pos result shift ≢ stuck
unfolding decode_loop
decode_loop-ne-stuck [] pos result shift e = cc
decode_loop-ne-stuck (b ∷ bs) pos result shift e = ground (
  arith,
  decode_loop-ne-stuck bs (pos + 1) (bit_or result (bit_and b 0x7f * 2 ^ shift % 2 ^ 64))
      (shift + 7),
)

pub decode_varint-ne-stuck : (c : Cursor) → decode_varint c ≢ stuck
unfolding decode_varint
decode_varint-ne-stuck c = decode_loop-ne-stuck c.rest c.pos 0 0

-- Bytes with the top bit set, which go on the number.
abbrev pub Continues : ℕ → Type 0
Continues b = (128 ≤ b) × (b < 256)

decode_loop-panic :
    (n j : ℕ) (bs more : Bytes) (pos result shift : ℕ)
    → n + j ≡ 9
    → shift ≡ 7 * j
    → length bs ≡ suc n
    → All Continues bs
    → decode_loop (bs ++ more) pos result shift ≡ panic
unfolding decode_loop
decode_loop-panic n j [] more pos result shift e es el h = absurd (omega arith)
decode_loop-panic zero j (b ∷ bs) more pos result shift e es el h = ground (arith, top_bit b)
decode_loop-panic (suc n) j (b ∷ bs) more pos result shift e es el h = ground (
  arith,
  top_bit b,
  decode_loop-panic n (j + 1) bs more (pos + 1)
      (bit_or result (bit_and b 0x7f * 2 ^ shift % 2 ^ 64)) (shift + 7),
)

decode_varint-ne-overflow : (c : Cursor) → decode_varint c ≢ err overflow
unfolding decode_varint
decode_varint-ne-overflow c = decode_loop-ne-overflow c.rest c.pos 0 0

-- Ten bytes with the top bit set make `decodeVarint` overflow its `shift`, which is a panic, on
-- any input that begins with them; and no cursor whatever gives `error.Overflow`.
pub decode_varint_overlong :
    (bs more : Bytes) (pos : ℕ) (c : Cursor)
    → length bs ≡ 10
    → All Continues bs
    → (decode_varint (record { pos = pos; rest = bs ++ more }) ≡ panic)
      × (decode_varint c ≢ err overflow)
unfolding decode_varint
decode_varint_overlong bs more pos c el h = (
  decode_loop-panic 9 0 bs more pos 0 0 (omega arith) (omega arith) el h,
  decode_varint-ne-overflow c,
)
