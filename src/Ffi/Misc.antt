-- ===== src/Ffi/Misc.antt =====
-- src/ffi/identity_misc.zig: fingerprints, account entropy pools and backup keys.
use libsignal_zig.Prelude.{ℕ, Bool, Option, none, some, length, ◌==◌, not}
use libsignal_zig.Prelude.Bytes.{Bytes}
use libsignal_zig.Crypto.{Crypto}
use libsignal_zig.Curve.{PublicKey}
use libsignal_zig.Fingerprint.{ScannableFingerprint, compute, serialize_scannable, compare_to}
use libsignal_zig.AccountKeys.{
  generate_pool, pool_from_string, derive_svr_key, derive_backup_key, derive_media_encryption_key,
}
use libsignal_zig.Ffi.{
  Outcome, success, failure, ◌>>=◌, ◌>>◌, Pointer, Buffer, catch, non_null, refuse_if,
}
use libsignal_zig.Ffi.ErrorCode.{ZigCode}
use libsignal_zig.Ffi.Scannable.{parse_own}

pub record SignalFingerprint : Type 0 where
  pub displayable : Bytes
  pub scannable_bytes : Bytes

-- The numbers of iterations and of the version are not looked at.
abbrev pub signal_fingerprint_new :
    Crypto
    → ℕ
    → ℕ
    → Buffer
    → Pointer PublicKey
    → Buffer
    → Pointer PublicKey
    → Outcome (Pointer SignalFingerprint)
signal_fingerprint_new crypto iterations version local_identifier local_key remote_identifier
      remote_key =
    do
      lk ← non_null local_key
      rk ← non_null remote_key
      fp ← catch (compute crypto lk local_identifier rk remote_identifier)
      success (
          some (record {
            displayable = fp.displayable;
            scannable_bytes = serialize_scannable fp.scannable;
          }))

abbrev pub signal_fingerprint_display_string : Pointer SignalFingerprint → Outcome Bytes
signal_fingerprint_display_string obj = do fp ← non_null obj; success fp.displayable

abbrev pub signal_fingerprint_scannable_encoding : Pointer SignalFingerprint → Outcome Buffer
signal_fingerprint_scannable_encoding obj = do fp ← non_null obj; success fp.scannable_bytes

abbrev found_sides : Option ScannableFingerprint → Outcome ScannableFingerprint
found_sides none = failure ZigCode.invalid_argument
found_sides (some sf) = success sf

abbrev pub signal_fingerprint_compare : Pointer SignalFingerprint → Buffer → Outcome Bool
signal_fingerprint_compare obj their_scannable = do
  fp ← non_null obj
  parsed ← catch (parse_own fp.scannable_bytes)
  sf ← found_sides parsed
  catch (compare_to sf their_scannable)

abbrev pub signal_account_entropy_pool_generate : Bytes → Outcome (Pointer Bytes)
signal_account_entropy_pool_generate raw = success (some (generate_pool raw))

abbrev pub signal_account_entropy_pool_parse : Bytes → Outcome (Pointer Bytes)
signal_account_entropy_pool_parse input = do
  pool ← catch (pool_from_string input)
  success (some pool)

abbrev pub signal_account_entropy_pool_as_string : Pointer Bytes → Outcome Bytes
signal_account_entropy_pool_as_string obj = non_null obj

module _ (crypto : Crypto) where
  abbrev pub signal_account_entropy_pool_derive_svr_key : Pointer Bytes → Outcome Bytes
  signal_account_entropy_pool_derive_svr_key obj = do
    pool ← non_null obj
    success (derive_svr_key crypto pool)

  abbrev pub signal_account_entropy_pool_derive_backup_key : Pointer Bytes → Outcome Bytes
  signal_account_entropy_pool_derive_backup_key obj = do
    pool ← non_null obj
    success (derive_backup_key crypto pool)

  abbrev pub signal_backup_key_derive_media_encryption_key : Pointer Bytes → Outcome Bytes
  signal_backup_key_derive_media_encryption_key obj = do
    bk ← non_null obj
    success (derive_media_encryption_key crypto bk)

abbrev pub signal_backup_key_from_bytes : Buffer → Outcome (Pointer Bytes)
signal_backup_key_from_bytes bytes = do
  refuse_if (not (length bytes == 32)) ZigCode.invalid_argument
  success (some bytes)
