-- ===== src/Prelude/Bytes.antt =====
-- Integers in byte strings: `std.mem.writeInt` and `readInt`, big and little endian.
use Prim.Native.Nat.{ℕ, zero, suc, ◌+◌, ◌*◌, ◌/◌, ◌%◌, ◌^◌, ◌≤◌, ◌<◌}
use Prim.Native.Char.{code}
use Prim.Native.String.{String}
use mathlib.Core.Path.{◌≡◌, refl, ap}
use mathlib.Core.List.{List, [], ◌∷◌, ◌++◌}
use native.Mathlib.Omega.{arith}
use native.Mathlib.Nat.{pow-suc}
use libsignal_zig.Prelude.Lists.{length, take, drop, length-append, All, All-append}

abbrev pub Bytes : Type 0
Bytes = List ℕ

abbrev pub IsByte : ℕ → Type 0
IsByte b = b < 256

abbrev pub IsU32 : ℕ → Type 0
IsU32 v = v < 2 ^ 32

abbrev pub IsU64 : ℕ → Type 0
IsU64 v = v < 2 ^ 64

-- The bytes of an ASCII literal.
unfoldable pub ascii : String → Bytes
ascii String.[] = []
ascii (String.◌∷◌ c s) = code c ∷ ascii s

-- `bytes[a..][0..n]`.
abbrev pub slice : ℕ → ℕ → Bytes → Bytes
slice a n bs = take n (drop a bs)

-- `n` bytes of `v`, most significant first.
unfoldable pub write_be : ℕ → ℕ → Bytes
write_be zero v = []
write_be (suc n) v = write_be n (v / 256) ++ (v % 256) ∷ []

read_from : ℕ → Bytes → ℕ
read_from acc [] = acc
read_from acc (b ∷ bs) = read_from (acc * 256 + b) bs

unfoldable pub read_be : Bytes → ℕ
unfolding read_from
read_be bs = read_from 0 bs

unfoldable pub write_le : ℕ → ℕ → Bytes
write_le zero v = []
write_le (suc n) v = (v % 256) ∷ write_le n (v / 256)

unfoldable pub read_le : Bytes → ℕ
read_le [] = 0
read_le (b ∷ bs) = b + 256 * read_le bs

read_from-snoc :
    (acc : ℕ) (bs : Bytes) (b : ℕ) → read_from acc (bs ++ b ∷ []) ≡ read_from acc bs * 256 + b
unfolding read_from
read_from-snoc acc [] b = refl
read_from-snoc acc (x ∷ bs) b = read_from-snoc (acc * 256 + x) bs b

pub read_be-write_be : (n v : ℕ) → v < 256 ^ n → read_be (write_be n v) ≡ v
unfolding read_be write_be
read_be-write_be zero v h = omega arith
read_be-write_be (suc n) v h = omega (
  arith,
  read_from-snoc 0 (write_be n (v / 256)) (v % 256),
  read_be-write_be n (v / 256) (omega (arith, pow-suc 256 n)),
)

pub length-write_be : (n v : ℕ) → length (write_be n v) ≡ n
unfolding write_be
length-write_be zero v = refl
length-write_be (suc n) v =
    omega
      (arith, length-append (write_be n (v / 256)) ((v % 256) ∷ []), length-write_be n (v / 256))

pub write_be-IsByte : (n v : ℕ) → All IsByte (write_be n v)
unfolding write_be
write_be-IsByte zero v = tt
write_be-IsByte (suc n) v =
    All-append IsByte (write_be n (v / 256)) _ (write_be-IsByte n (v / 256)) (omega arith, tt)

pub read_le-write_le : (n v : ℕ) → v < 256 ^ n → read_le (write_le n v) ≡ v
unfolding read_le write_le
read_le-write_le zero v h = omega arith
read_le-write_le (suc n) v h =
    omega (arith, read_le-write_le n (v / 256) (omega (arith, pow-suc 256 n)))

pub length-write_le : (n v : ℕ) → length (write_le n v) ≡ n
unfolding write_le
length-write_le zero v = refl
length-write_le (suc n) v = ap suc (length-write_le n (v / 256))

mul_mono : (a c p : ℕ) → a ≤ c → a * p ≤ c * p
mul_mono a c p h = grind arith

read_from-lt :
    (acc : ℕ) (bs : Bytes) → All IsByte bs → read_from acc bs < (acc + 1) * 256 ^ length bs
unfolding read_from
read_from-lt acc [] h = omega arith
read_from-lt acc (b ∷ bs) (hb, hs) = omega (
  arith,
  read_from-lt (acc * 256 + b) bs hs,
  mul_mono (acc * 256 + b + 1) ((acc + 1) * 256) (256 ^ length bs) (omega arith),
  ap (λ (t : ℕ). (acc + 1) * t) (pow-suc 256 (length bs)),
)

-- What `readInt` reads fits its width.
pub read_be-lt : (bs : Bytes) → All IsByte bs → read_be bs < 256 ^ length bs
unfolding read_be
read_be-lt bs h = omega (arith, read_from-lt 0 bs h)
