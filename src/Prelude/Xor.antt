-- ===== src/Prelude/Xor.antt =====
-- `^` on bytes and on blocks: it undoes itself.
use Prim.Native.Nat.{ℕ, zero, suc, ◌+◌, ◌*◌, ◌/◌, ◌%◌, ◌≤◌, ◌<◌, differ, bit_xor, bit_xor-bitwise}
use mathlib.Core.Path.{◌≡◌, refl, ap, ap₂, ◌∙◌}
use mathlib.Core.List.{List, [], ◌∷◌}
use native.Mathlib.Omega.{arith}
use libsignal_zig.Prelude.Bits.{digit_step}
use libsignal_zig.Prelude.Lists.{length}

xor_step : (a b : ℕ) → bit_xor a b ≡ bit_xor (a / 2) (b / 2) * 2 + differ (a % 2) (b % 2)
xor_step zero b = simp bit_xor-bitwise (omega arith)
xor_step (suc a) b = simp bit_xor-bitwise (digit_step (λ d. d) differ a b)

differ_twice : (p q : ℕ) → p < 2 → q < 2 → (differ p q < 2) × (differ (differ p q) q ≡ p)
differ_twice zero zero hp hq = (omega arith, refl)
differ_twice zero (suc zero) hp hq = (omega arith, refl)
differ_twice (suc zero) zero hp hq = (omega arith, refl)
differ_twice (suc zero) (suc zero) hp hq = (omega arith, refl)
differ_twice zero (suc (suc q)) hp hq = absurd (omega arith)
differ_twice (suc zero) (suc (suc q)) hp hq = absurd (omega arith)
differ_twice (suc (suc p)) q hp hq = absurd (omega arith)

xor_back : (n a b : ℕ) → a ≤ n → b ≤ n → bit_xor (bit_xor a b) b ≡ a
xor_back zero zero zero ha hb = refl
xor_back zero zero (suc b) ha hb = absurd (omega arith)
xor_back zero (suc a) b ha hb = absurd (omega arith)
xor_back (suc n) a b ha hb =
    let (small, undone) = differ_twice (a % 2) (b % 2) (omega arith) (omega arith) in
    let halves : bit_xor a b / 2 ≡ bit_xor (a / 2) (b / 2) = omega (arith, xor_step a b, small) in
    let parity : bit_xor a b % 2 ≡ differ (a % 2) (b % 2) = omega (arith, xor_step a b, small) in
    xor_step (bit_xor a b) b
    ∙ ap₂ (λ (s t : ℕ). bit_xor s (b / 2) * 2 + differ t (b % 2)) halves parity
    ∙ ap₂ (λ (s t : ℕ). s * 2 + t) (xor_back n (a / 2) (b / 2) (omega arith) (omega arith)) undone
    ∙ omega arith

-- Byte by byte, as far as both blocks go.
abbrev pub xor_bytes : List ℕ → List ℕ → List ℕ
xor_bytes [] ys = []
xor_bytes (x ∷ xs) [] = []
xor_bytes (x ∷ xs) (y ∷ ys) = bit_xor x y ∷ xor_bytes xs ys

pub length-xor_bytes :
    (xs ys : List ℕ) → length xs ≡ length ys → length (xor_bytes xs ys) ≡ length xs
length-xor_bytes [] ys h = refl
length-xor_bytes (x ∷ xs) [] h = absurd (omega arith)
length-xor_bytes (x ∷ xs) (y ∷ ys) h = ap suc (length-xor_bytes xs ys (omega arith))

pub xor_bytes_back : (xs ys : List ℕ) → length xs ≡ length ys → xor_bytes (xor_bytes xs ys) ys ≡ xs
xor_bytes_back [] ys h = refl
xor_bytes_back (x ∷ xs) [] h = absurd (omega arith)
xor_bytes_back (x ∷ xs) (y ∷ ys) h =
    ap₂ (λ (z : ℕ) (zs : List ℕ). z ∷ zs) (xor_back (x + y) x y (omega arith) (omega arith))
      (xor_bytes_back xs ys (omega arith))
