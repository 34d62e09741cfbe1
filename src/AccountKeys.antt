-- ===== src/AccountKeys.antt =====
-- src/account_keys.zig: the keys that are derived from an account's entropy pool.
use libsignal_zig.Prelude.{
  ℕ, zero, suc, ◌%◌, ◌<◌, ◌≡◌, refl, ap, Bool, true, false, ◌&&◌, ◌||◌, ◌==◌, not, [], ◌∷◌, length,
  map, get_or, min, arith,
}
use libsignal_zig.Prelude.Bytes.{Bytes, ascii}
use libsignal_zig.Prelude.Result.{Result, ok, ◌>>◌, fail_if, invalid_argument}
use libsignal_zig.Crypto.{Crypto}

abbrev pub entropy_pool_len : ℕ
entropy_pool_len = 64

abbrev pub entropy_alphabet : Bytes
entropy_alphabet = ascii "abcdefghijklmnopqrstuvwxyz234567"

unfoldable pub generate_pool : Bytes → Bytes
generate_pool raw = map (λ b. get_or entropy_alphabet (b % length entropy_alphabet) 0) raw

-- `mem.indexOfScalar(u8, alphabet, c) != null`
unfoldable pub occurs : ℕ → Bytes → Bool
occurs c [] = false
occurs c (x ∷ xs) = c == x || occurs c xs

-- The loop of `fromString`.
unfoldable pub in_alphabet : Bytes → Bool
in_alphabet [] = true
in_alphabet (c ∷ s) = occurs c entropy_alphabet && in_alphabet s

unfoldable pub pool_from_string : Bytes → Result Bytes
pool_from_string s = do
  fail_if (not (length s == entropy_pool_len)) invalid_argument
  fail_if (not (in_alphabet s)) invalid_argument
  ok s

module _ (crypto : Crypto) where
  unfoldable pub pool_derive : Bytes → Bytes → ℕ → Bytes
  pool_derive pool info out_len =
      crypto.hkdf_expand (min out_len 255) info (crypto.hkdf_extract [] pool)

  unfoldable pub derive_svr_key : Bytes → Bytes
  derive_svr_key pool = pool_derive pool (ascii "20231003_Signal_SVR_MasterKey") 32

  unfoldable pub derive_backup_key : Bytes → Bytes
  derive_backup_key pool = pool_derive pool (ascii "20231003_Signal_BackupKey") 32

  unfoldable pub derive_media_encryption_key : Bytes → Bytes
  derive_media_encryption_key backup_key =
      crypto.hkdf_expand 32 (ascii "20231003_Signal_Backups.MediaEncryptionKey")
        (crypto.hkdf_extract backup_key backup_key)

get_or-occurs : (xs : Bytes) (i : ℕ) → i < length xs → occurs (get_or xs i 0) xs ≡ true
unfolding occurs
get_or-occurs [] i h = absurd (omega arith)
get_or-occurs (x ∷ xs) zero h = ground arith
get_or-occurs (x ∷ xs) (suc i) h = ground (arith, get_or-occurs xs i (omega arith))

length-entropy_alphabet : length entropy_alphabet ≡ 32
unfolding ascii
length-entropy_alphabet = refl

in_alphabet-generate_pool : (raw : Bytes) → in_alphabet (generate_pool raw) ≡ true
unfolding in_alphabet generate_pool
in_alphabet-generate_pool [] = refl
in_alphabet-generate_pool (b ∷ raw) = rw (
  get_or-occurs entropy_alphabet (b % length entropy_alphabet)
      (omega (arith, length-entropy_alphabet)),
  in_alphabet-generate_pool raw,
)

length-generate_pool : (raw : Bytes) → length (generate_pool raw) ≡ length raw
unfolding generate_pool
length-generate_pool [] = refl
length-generate_pool (b ∷ raw) = ap suc (length-generate_pool raw)

-- A pool that is generated is parsed as it stands.
pub pool_from_string-generate_pool :
    (raw : Bytes)
    → length raw ≡ entropy_pool_len
    → pool_from_string (generate_pool raw) ≡ ok (generate_pool raw)
unfolding pool_from_string
pool_from_string-generate_pool raw size =
    rw (length-generate_pool raw, size, in_alphabet-generate_pool raw)
