-- ===== src/Examples/Text.antt =====
-- The texts that examples/c/main.c and examples/cpp/main.cpp make with `snprintf` and
-- `std::to_string`.
use libsignal_zig.Prelude.{
  ℕ, zero, suc, ◌+◌, ◌-◌, ◌*◌, ◌/◌, ◌%◌, ◌^◌, ◌<◌, ◌≤◌, ◌≡◌, ◌≢◌, refl, sym, ap, ◌∙◌, [], ◌∷◌, ◌++◌,
  length, take, ltb, ltb→lt, Bool-cases, inl, inr, All, All-append, if◌then◌else◌, arith,
  length-append,
}
use libsignal_zig.Prelude.Bytes.{Bytes, IsU32}
use native.Mathlib.Nat.{pow-suc}
use mathlib.Core.List.{head-eq_of_cons-eq, tail-eq_of_cons-eq}
use mathlib.Core.Path.{subst}

-- `snprintf(buf, size, …)`: what of a text stands in the buffer before the 0.
abbrev pub snprintf : ℕ → Bytes → Bytes
snprintf size text = take (size - 1) text

-- `%u` on at most so many digits: ten for a u32.
unfoldable pub digits : ℕ → ℕ → Bytes
digits zero n = []
digits (suc rounds) n =
    let more = digits rounds (n / 10) in
    if ltb n 10 then (48 + n) ∷ [] else more ++ (48 + n % 10) ∷ []

abbrev pub decimal : ℕ → Bytes
decimal n = digits 10 n

abbrev pub hex_digit : ℕ → ℕ
hex_digit d = if ltb d 10 then 48 + d else 87 + d

-- `%02x`
abbrev pub hex : ℕ → Bytes
hex b = hex_digit (b / 16) ∷ hex_digit (b % 16) ∷ []

pub length-digits : (rounds n : ℕ) → length (digits rounds n) ≤ rounds
unfolding digits
length-digits zero n = omega arith
length-digits (suc rounds) n = ground (
  arith,
  length-digits rounds (n / 10),
  length-append (digits rounds (n / 10)) ((48 + n % 10) ∷ []),
)

value : ℕ → Bytes → ℕ
value acc [] = acc
value acc (d ∷ ds) = value (10 * acc + (d - 48)) ds

value-snoc :
    (acc : ℕ) (ds : Bytes) (d : ℕ) → value acc (ds ++ d ∷ []) ≡ 10 * value acc ds + (d - 48)
unfolding value
value-snoc acc [] d = refl
value-snoc acc (x ∷ ds) d = value-snoc (10 * acc + (x - 48)) ds d

value-digits : (rounds n : ℕ) → n < 10 ^ rounds → value 0 (digits rounds n) ≡ n
unfolding value digits
value-digits zero n small = omega arith
value-digits (suc rounds) n small = ground (
  arith,
  value-snoc 0 (digits rounds (n / 10)) (48 + n % 10),
  value-digits rounds (n / 10) (omega (arith, pow-suc 10 rounds)),
)

-- Different numbers have different texts.
pub decimal_injective : (m n : ℕ) → IsU32 m → IsU32 n → decimal m ≡ decimal n → m ≡ n
decimal_injective m n hm hn e =
    sym (value-digits 10 m (omega arith)) ∙ ap (value 0) e ∙ value-digits 10 n (omega arith)

abbrev pub colon : ℕ
colon = 58

abbrev pub NoColon : Bytes → Type 0
NoColon = All (λ c. c ≢ colon)

pub digits-NoColon : (rounds n : ℕ) → NoColon (digits rounds n)
unfolding digits
digits-NoColon zero n = tt
digits-NoColon (suc rounds) n = elim (Bool-cases (ltb n 10)) [
  | inl e ↦ rw e ((λ h. omega (arith, h, ltb→lt n 10 e)), tt)
  | inr e ↦ rw e (
      All-append (λ c. c ≢ colon) (digits rounds (n / 10)) ((48 + n % 10) ∷ [])
        (digits-NoColon rounds (n / 10)) ((λ h. omega (arith, h)), tt))
]

with_colon : {P : Type 0} (ys es : Bytes) → NoColon (ys ++ colon ∷ es) → P
with_colon [] es h = absurd (h.0 refl)
with_colon (y ∷ ys) es h = with_colon ys es h.1

-- A text is split at its last colon in one way.
pub split_last :
    (xs ys ds es : Bytes)
    → NoColon ds
    → NoColon es
    → xs ++ colon ∷ ds ≡ ys ++ colon ∷ es
    → (xs ≡ ys) × (ds ≡ es)
split_last [] [] ds es hd he e = (refl, tail-eq_of_cons-eq e)
split_last [] (y ∷ ys) ds es hd he e =
    with_colon ys es (subst (λ (t : Bytes). NoColon t) (tail-eq_of_cons-eq e) hd)
split_last (x ∷ xs) [] ds es hd he e =
    with_colon xs ds (subst (λ (t : Bytes). NoColon t) (sym (tail-eq_of_cons-eq e)) he)
split_last (x ∷ xs) (y ∷ ys) ds es hd he e =
    let (front, back) = split_last xs ys ds es hd he (tail-eq_of_cons-eq e) in
    (cc (head-eq_of_cons-eq e, front), back)
