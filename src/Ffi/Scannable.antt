-- ===== src/Ffi/Scannable.antt =====
-- src/ffi/identity_misc.zig: the loop of `signal_fingerprint_compare` over its own encoding.
use libsignal_zig.Prelude.{ℕ, ◌≡◌, Option, none, some, length, ◌==◌, if◌then◌else◌, arith}
use libsignal_zig.Prelude.Bytes.{Bytes}
use libsignal_zig.Prelude.Result.{Result, ok, ◌>>=◌, or_null}
use libsignal_zig.Proto.{Field, parse_fields}
use libsignal_zig.Proto.Fields.{run_fields}
use libsignal_zig.Proto.Switch.{int_cast, int_cast_lem, on_varint, on_len, parse_fields-budget}
use libsignal_zig.Fingerprint.{ScannableFingerprint, serialize_scannable}
use libsignal_zig.Fingerprint.Compare.{IsScannable, scannable_fields, serialize_scannable_lem}

-- The variables of the loop of `signal_fingerprint_compare`.
pub record Parsed : Type 0 where
  pub version : ℕ
  pub local_fp : Option Bytes
  pub remote_fp : Option Bytes

abbrev pub nothing_parsed : Parsed
nothing_parsed = record { version = 0; local_fp = none; remote_fp = none }

unfoldable pub parsed_field : Parsed → Field → Result Parsed
parsed_field s f =
    if f.number == 1
    then on_varint s f.payload
        (λ v. do version ← int_cast 32 v; ok (record s { version = version }))
    else if f.number == 2
    then on_len s f.payload
        (λ bs. if length bs == 32 then ok (record s { local_fp = some bs }) else ok s)
    else if f.number == 3
    then on_len s f.payload
        (λ bs. if length bs == 32 then ok (record s { remote_fp = some bs }) else ok s)
    else ok s

-- `local_fp orelse break :blk null`, and the same for the other side.
abbrev both_sides : Parsed → Option ScannableFingerprint
both_sides s = elim s.local_fp [
  | none ↦ none
  | some local_fp ↦ elim s.remote_fp [
    | none ↦ none
    | some remote_fp ↦ some (record {
      version = s.version;
      local_fingerprint = local_fp;
      remote_fingerprint = remote_fp;
    })
  ]
]

abbrev parsed_or_null : Option Parsed → Option ScannableFingerprint
parsed_or_null none = none
parsed_or_null (some s) = both_sides s

unfoldable pub parse_own : Bytes → Result (Option ScannableFingerprint)
parse_own bytes = do
  parsed ← or_null (parse_fields parsed_field bytes nothing_parsed)
  ok (parsed_or_null parsed)

-- A fingerprint's own encoding is read back.
pub parse_own-serialize_scannable :
    (s : ScannableFingerprint) → IsScannable s → parse_own (serialize_scannable s) ≡ ok (some s)
unfolding parse_own parsed_field run_fields
parse_own-serialize_scannable s valid =
    let l = valid.local_fingerprint in
    let r = valid.remote_fingerprint in
    let v = valid.version in
    rw (
      serialize_scannable_lem s,
      parse_fields-budget parsed_field (scannable_fields s) nothing_parsed (omega (arith, l, r, v))
          (omega (arith, l, r)),
      int_cast_lem 32 s.version v,
      l,
      r,
    )
