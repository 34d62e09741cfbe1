-- ===== src/Fingerprint.antt =====
-- src/fingerprint.zig: what two users compare to know that they see the same keys.
pub mod Compare
use libsignal_zig.Prelude.{
  ℕ, zero, suc, ◌+◌, ◌-◌, ◌*◌, ◌/◌, ◌%◌, ◌^◌, bit_or, Bool, true, false, ◌&&◌, ◌==◌, ltb, Option,
  none, some, [], ◌∷◌, ◌++◌, length, take, drop, eql, if◌then◌else◌,
}
use libsignal_zig.Prelude.Bytes.{Bytes, write_le}
use libsignal_zig.Prelude.Result.{
  Result, ok, ◌>>=◌, ◌>>◌, panic_if, or_return, fingerprint_version_mismatch,
}
use libsignal_zig.Crypto.{Crypto}
use libsignal_zig.Curve.{PublicKey, serialize_public_key}
use libsignal_zig.Proto.{Field, parse_fields, write_varint_field, write_bytes_field}
use libsignal_zig.Proto.Switch.{on_len}

abbrev pub iterations : ℕ
iterations = 5200

abbrev pub fingerprint_version : ℕ
fingerprint_version = 0

-- `std.mem.lessThan` on bytes.
unfoldable pub less_than : Bytes → Bytes → Bool
less_than [] [] = false
less_than [] (y ∷ ys) = true
less_than (x ∷ xs) [] = false
less_than (x ∷ xs) (y ∷ ys) =
    let later = less_than xs ys in if ltb x y then true else if ltb y x then false else later

unfoldable pub group_value : Bytes → ℕ → ℕ
group_value [] val = val
group_value (b ∷ bs) val = group_value bs (bit_or (val * 2 ^ 8 % 2 ^ 64) b)

-- `{d:0>5}` on a number below 100000.
unfoldable pub five_digits : ℕ → Bytes
five_digits v =
    (v / 10_000 % 10 + 0x30)
    ∷ (v / 1000 % 10 + 0x30)
    ∷ (v / 100 % 10 + 0x30)
    ∷ (v / 10 % 10 + 0x30)
    ∷ (v % 10 + 0x30)
    ∷ []

-- The groups of five bytes that are left.
unfoldable pub display_groups : ℕ → Bytes → Bytes
display_groups zero hash = []
display_groups (suc n) hash =
    five_digits (group_value (take 5 hash) 0 % 100_000) ++ display_groups n (drop 5 hash)

pub record ScannableFingerprint : Type 0 where
  pub version : ℕ
  pub local_fingerprint : Bytes
  pub remote_fingerprint : Bytes

pub record Fingerprint : Type 0 where
  pub displayable : Bytes
  pub scannable : ScannableFingerprint

-- A key and a stable id one after the other, in a buffer of so many bytes.
abbrev pub combine : ℕ → Bytes → Bytes → Result Bytes
combine size key stable_id = do
  panic_if (ltb size (length key + length stable_id))
  ok (key ++ stable_id)

module _ (crypto : Crypto) where
  unfoldable pub hash_rounds : ℕ → Bytes → Bytes → Bytes
  hash_rounds zero input current = current
  hash_rounds (suc n) input current = hash_rounds n input (crypto.sha512 (current ++ input))

  unfoldable pub iterative_hash : Bytes → ℕ → Bytes
  iterative_hash input count =
      hash_rounds (count - 1) input (crypto.sha512 (write_le 4 fingerprint_version ++ input))

  unfoldable pub hash_for_display : Bytes → Bytes → Result Bytes
  hash_for_display key stable_id = do
    combined ← combine 128 key stable_id
    ok (take 30 (iterative_hash combined iterations))

  unfoldable pub compute_displayable_raw : Bytes → Bytes → Bytes → Bytes → Result Bytes
  compute_displayable_raw local_key local_stable_id remote_key remote_stable_id = do
    local_hash ← hash_for_display local_key local_stable_id
    remote_hash ← hash_for_display remote_key remote_stable_id
    let first = if less_than local_hash remote_hash then local_hash else remote_hash
    let second = if less_than local_hash remote_hash then remote_hash else local_hash
    ok (display_groups 6 first ++ display_groups 6 second)

  unfoldable pub compute_scannable :
      PublicKey → Bytes → PublicKey → Bytes → Result ScannableFingerprint
  compute_scannable local_key local_stable_id remote_key remote_stable_id = do
    local_combined ← combine 100 (serialize_public_key local_key) local_stable_id
    remote_combined ← combine 100 (serialize_public_key remote_key) remote_stable_id
    ok (record {
      version = fingerprint_version;
      local_fingerprint = take 32 (iterative_hash local_combined iterations);
      remote_fingerprint = take 32 (iterative_hash remote_combined iterations);
    })

  unfoldable pub compute : PublicKey → Bytes → PublicKey → Bytes → Result Fingerprint
  compute local_key local_stable_id remote_key remote_stable_id = do
    displayable ←
        compute_displayable_raw (serialize_public_key local_key) local_stable_id
          (serialize_public_key remote_key) remote_stable_id
    scannable ← compute_scannable local_key local_stable_id remote_key remote_stable_id
    ok (record { displayable = displayable; scannable = scannable })

unfoldable pub serialize_scannable : ScannableFingerprint → Bytes
serialize_scannable s =
    let e₁ = write_varint_field [] 1 s.version in
    let e₂ = write_bytes_field e₁ 2 s.local_fingerprint in
    write_bytes_field e₂ 3 s.remote_fingerprint

-- `their_local` and `their_remote`.
pub record Sides : Type 0 where
  pub local_side : Option Bytes
  pub remote_side : Option Bytes

abbrev pub no_sides : Sides
no_sides = record { local_side = none; remote_side = none }

unfoldable pub side_field : Sides → Field → Result Sides
side_field s f =
    if f.number == 2
    then on_len s f.payload
        (λ bs. if length bs == 32 then ok (record s { local_side = some bs }) else ok s)
    else if f.number == 3
    then on_len s f.payload
        (λ bs. if length bs == 32 then ok (record s { remote_side = some bs }) else ok s)
    else ok s

unfoldable pub compare_to : ScannableFingerprint → Bytes → Result Bool
compare_to s their_bytes = do
  sides ← parse_fields side_field their_bytes no_sides
  tl ← or_return sides.local_side fingerprint_version_mismatch
  tr ← or_return sides.remote_side fingerprint_version_mismatch
  ok (eql s.local_fingerprint tr && eql s.remote_fingerprint tl)
