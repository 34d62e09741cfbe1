-- ===== src/Ffi/ErrorCode.antt =====
-- The numbers of errors: `SignalErrorCode` as include/signal_ffi.h declares it, the enumeration of
-- that name in src/ffi/error.zig, and its `fromZigError`.
use libsignal_zig.Prelude.{
  ℕ, ◌≡◌, ◌↔◌, sym, ap, ◌∙◌, Bool-cases, inl, inr, ==_iff, List, [], ◌∷◌, Option, none, some, ◌==◌,
  arith, if◌then◌else◌,
}
use libsignal_zig.Prelude.Result.{Error}

-- The header's enumeration.
pub data HeaderCode : Type 0 where
  signal_error_code_unknown_error : HeaderCode
  signal_error_code_invalid_state : HeaderCode
  signal_error_code_internal_error : HeaderCode
  signal_error_code_null_parameter : HeaderCode
  signal_error_code_invalid_argument : HeaderCode
  signal_error_code_invalid_type : HeaderCode
  signal_error_code_invalid_utf8_string : HeaderCode
  signal_error_code_protocol_error : HeaderCode
  signal_error_code_legacy_ciphertext_version : HeaderCode
  signal_error_code_unknown_ciphertext_version : HeaderCode
  signal_error_code_unrecognized_message_version : HeaderCode
  signal_error_code_invalid_message : HeaderCode
  signal_error_code_invalid_padding : HeaderCode
  signal_error_code_fingerprint_version_mismatch : HeaderCode
  signal_error_code_fingerprint_parsing_error : HeaderCode
  signal_error_code_session_not_found : HeaderCode
  signal_error_code_invalid_session : HeaderCode
  signal_error_code_invalid_registration_id : HeaderCode
  signal_error_code_invalid_key_identifier : HeaderCode
  signal_error_code_invalid_key : HeaderCode
  signal_error_code_invalid_signature : HeaderCode
  signal_error_code_invalid_mac : HeaderCode
  signal_error_code_untrusted_identity : HeaderCode
  signal_error_code_duplicated_message : HeaderCode
  signal_error_code_verification_failed : HeaderCode
  signal_error_code_unrecognized_address : HeaderCode
  signal_error_code_network_error : HeaderCode
  signal_error_code_network_protocol_error : HeaderCode
  signal_error_code_request_failed : HeaderCode
  signal_error_code_request_timed_out : HeaderCode
  signal_error_code_connection_timeout : HeaderCode
  signal_error_code_server_rejected : HeaderCode
  signal_error_code_unauthorized : HeaderCode
  signal_error_code_rate_limited_error : HeaderCode
  signal_error_code_cdsi_resource_exhausted : HeaderCode
  signal_error_code_registration_lock : HeaderCode
  signal_error_code_rate_limit_challenge : HeaderCode
  signal_error_code_registration_error_not_deliverable : HeaderCode
  signal_error_code_mismatched_devices_error : HeaderCode

unfoldable pub header_number : HeaderCode → ℕ
header_number signal_error_code_unknown_error = 1
header_number signal_error_code_invalid_state = 2
header_number signal_error_code_internal_error = 3
header_number signal_error_code_null_parameter = 4
header_number signal_error_code_invalid_argument = 5
header_number signal_error_code_invalid_type = 6
header_number signal_error_code_invalid_utf8_string = 7
header_number signal_error_code_protocol_error = 10
header_number signal_error_code_legacy_ciphertext_version = 11
header_number signal_error_code_unknown_ciphertext_version = 12
header_number signal_error_code_unrecognized_message_version = 13
header_number signal_error_code_invalid_message = 14
header_number signal_error_code_invalid_padding = 15
header_number signal_error_code_fingerprint_version_mismatch = 20
header_number signal_error_code_fingerprint_parsing_error = 21
header_number signal_error_code_session_not_found = 40
header_number signal_error_code_invalid_session = 41
header_number signal_error_code_invalid_registration_id = 42
header_number signal_error_code_invalid_key_identifier = 50
header_number signal_error_code_invalid_key = 51
header_number signal_error_code_invalid_signature = 52
header_number signal_error_code_invalid_mac = 53
header_number signal_error_code_untrusted_identity = 60
header_number signal_error_code_duplicated_message = 70
header_number signal_error_code_verification_failed = 80
header_number signal_error_code_unrecognized_address = 90
header_number signal_error_code_network_error = 100
header_number signal_error_code_network_protocol_error = 101
header_number signal_error_code_request_failed = 102
header_number signal_error_code_request_timed_out = 103
header_number signal_error_code_connection_timeout = 104
header_number signal_error_code_server_rejected = 110
header_number signal_error_code_unauthorized = 111
header_number signal_error_code_rate_limited_error = 120
header_number signal_error_code_cdsi_resource_exhausted = 130
header_number signal_error_code_registration_lock = 140
header_number signal_error_code_rate_limit_challenge = 150
header_number signal_error_code_registration_error_not_deliverable = 160
header_number signal_error_code_mismatched_devices_error = 170

-- The names of the Zig enumeration that the functions modelled here return.
pub data ZigCode : Type 0 where
  invalid_state internal_error null_parameter invalid_argument invalid_type : ZigCode
  invalid_utf8_string protobuf_error legacy_ciphertext_version : ZigCode
  unknown_ciphertext_version unrecognized_message_version invalid_message : ZigCode
  invalid_key invalid_signature fingerprint_version_mismatch : ZigCode
  fingerprint_parsing_error untrusted_identity invalid_key_identifier : ZigCode
  invalid_session duplicated_message callback_error verification_failure : ZigCode

unfoldable pub zig_number : ZigCode → ℕ
zig_number ZigCode.invalid_state = 2
zig_number ZigCode.internal_error = 3
zig_number ZigCode.null_parameter = 4
zig_number ZigCode.invalid_argument = 5
zig_number ZigCode.invalid_type = 6
zig_number ZigCode.invalid_utf8_string = 7
zig_number ZigCode.protobuf_error = 10
zig_number ZigCode.legacy_ciphertext_version = 21
zig_number ZigCode.unknown_ciphertext_version = 22
zig_number ZigCode.unrecognized_message_version = 23
zig_number ZigCode.invalid_message = 30
zig_number ZigCode.invalid_key = 40
zig_number ZigCode.invalid_signature = 41
zig_number ZigCode.fingerprint_version_mismatch = 51
zig_number ZigCode.fingerprint_parsing_error = 52
zig_number ZigCode.untrusted_identity = 60
zig_number ZigCode.invalid_key_identifier = 70
zig_number ZigCode.invalid_session = 82
zig_number ZigCode.duplicated_message = 90
zig_number ZigCode.callback_error = 100
zig_number ZigCode.verification_failure = 110

unfoldable pub from_zig_error : Error → ZigCode
from_zig_error Error.invalid_key = ZigCode.invalid_key
from_zig_error Error.weak_public_key = ZigCode.invalid_key
from_zig_error Error.identity_element = ZigCode.invalid_key
from_zig_error Error.invalid_signature = ZigCode.invalid_signature
from_zig_error Error.signature_mismatch = ZigCode.invalid_signature
from_zig_error Error.invalid_message = ZigCode.invalid_message
from_zig_error Error.legacy_ciphertext_version = ZigCode.legacy_ciphertext_version
from_zig_error Error.unknown_ciphertext_version = ZigCode.unknown_ciphertext_version
from_zig_error Error.unrecognized_message_version = ZigCode.unrecognized_message_version
from_zig_error Error.untrusted_identity = ZigCode.untrusted_identity
from_zig_error Error.duplicate_message = ZigCode.duplicated_message
from_zig_error Error.invalid_key_identifier = ZigCode.invalid_key_identifier
from_zig_error Error.session_not_found = ZigCode.invalid_key_identifier
from_zig_error Error.invalid_session = ZigCode.invalid_session
from_zig_error Error.invalid_argument = ZigCode.invalid_argument
from_zig_error Error.invalid_type = ZigCode.invalid_type
from_zig_error Error.invalid_utf8_string = ZigCode.invalid_utf8_string
from_zig_error Error.fingerprint_version_mismatch = ZigCode.fingerprint_version_mismatch
from_zig_error Error.fingerprint_identifier_mismatch = ZigCode.fingerprint_parsing_error
from_zig_error Error.protobuf_error = ZigCode.protobuf_error
from_zig_error Error.null_parameter = ZigCode.null_parameter
from_zig_error Error.callback_error = ZigCode.callback_error
from_zig_error Error.verify_failed = ZigCode.verification_failure
from_zig_error Error.out_of_memory = ZigCode.internal_error
from_zig_error Error.invalid_state = ZigCode.invalid_state
from_zig_error _ = ZigCode.internal_error

-- What the header calls the errors of the library, where it has a code of an error's name.
unfoldable pub named : Error → Option HeaderCode
named Error.invalid_state = some signal_error_code_invalid_state
named Error.null_parameter = some signal_error_code_null_parameter
named Error.invalid_argument = some signal_error_code_invalid_argument
named Error.invalid_type = some signal_error_code_invalid_type
named Error.invalid_utf8_string = some signal_error_code_invalid_utf8_string
named Error.untrusted_identity = some signal_error_code_untrusted_identity
named Error.legacy_ciphertext_version = some signal_error_code_legacy_ciphertext_version
named Error.unknown_ciphertext_version = some signal_error_code_unknown_ciphertext_version
named Error.unrecognized_message_version = some signal_error_code_unrecognized_message_version
named Error.invalid_message = some signal_error_code_invalid_message
named Error.padding_error = some signal_error_code_invalid_padding
named Error.fingerprint_version_mismatch = some signal_error_code_fingerprint_version_mismatch
named Error.session_not_found = some signal_error_code_session_not_found
named Error.invalid_session = some signal_error_code_invalid_session
named Error.invalid_key_identifier = some signal_error_code_invalid_key_identifier
named Error.invalid_key = some signal_error_code_invalid_key
named Error.invalid_signature = some signal_error_code_invalid_signature
named Error.invalid_mac = some signal_error_code_invalid_mac
named Error.duplicate_message = some signal_error_code_duplicated_message
named Error.verify_failed = some signal_error_code_verification_failed
named _ = none

-- The header's codes in its order.
unfoldable pub header_codes : List HeaderCode
header_codes =
    signal_error_code_unknown_error ∷ signal_error_code_invalid_state
    ∷ signal_error_code_internal_error ∷ signal_error_code_null_parameter
    ∷ signal_error_code_invalid_argument ∷ signal_error_code_invalid_type
    ∷ signal_error_code_invalid_utf8_string ∷ signal_error_code_protocol_error
    ∷ signal_error_code_legacy_ciphertext_version ∷ signal_error_code_unknown_ciphertext_version
    ∷ signal_error_code_unrecognized_message_version ∷ signal_error_code_invalid_message
    ∷ signal_error_code_invalid_padding ∷ signal_error_code_fingerprint_version_mismatch
    ∷ signal_error_code_fingerprint_parsing_error ∷ signal_error_code_session_not_found
    ∷ signal_error_code_invalid_session ∷ signal_error_code_invalid_registration_id
    ∷ signal_error_code_invalid_key_identifier ∷ signal_error_code_invalid_key
    ∷ signal_error_code_invalid_signature ∷ signal_error_code_invalid_mac
    ∷ signal_error_code_untrusted_identity ∷ signal_error_code_duplicated_message
    ∷ signal_error_code_verification_failed ∷ signal_error_code_unrecognized_address
    ∷ signal_error_code_network_error ∷ signal_error_code_network_protocol_error
    ∷ signal_error_code_request_failed ∷ signal_error_code_request_timed_out
    ∷ signal_error_code_connection_timeout ∷ signal_error_code_server_rejected
    ∷ signal_error_code_unauthorized ∷ signal_error_code_rate_limited_error
    ∷ signal_error_code_cdsi_resource_exhausted ∷ signal_error_code_registration_lock
    ∷ signal_error_code_rate_limit_challenge ∷ signal_error_code_registration_error_not_deliverable
    ∷ signal_error_code_mismatched_devices_error ∷ []

-- The code of a list that has a number.
unfoldable pub code_of : ℕ → List HeaderCode → Option HeaderCode
code_of n [] = none
code_of n (c ∷ cs) = if header_number c == n then some c else code_of n cs

-- The code that a caller which goes by the header takes an error for, from the number that
-- `signal_error_get_type` gives: none when the header gives that number to no code.
unfoldable pub read_as : Error → Option HeaderCode
read_as e = code_of (zig_number (from_zig_error e)) header_codes

-- The errors that are read as something else than their names' codes, and what they are read as.
abbrev pub misread : Error → Option HeaderCode → Option HeaderCode
misread Error.legacy_ciphertext_version _ = some signal_error_code_fingerprint_parsing_error
misread Error.unknown_ciphertext_version _ = none
misread Error.unrecognized_message_version _ = none
misread Error.invalid_message _ = none
misread Error.padding_error _ = some signal_error_code_internal_error
misread Error.fingerprint_version_mismatch _ = some signal_error_code_invalid_key
misread Error.session_not_found _ = some signal_error_code_duplicated_message
misread Error.invalid_session _ = none
misread Error.invalid_key_identifier _ = some signal_error_code_duplicated_message
misread Error.invalid_key _ = some signal_error_code_session_not_found
misread Error.invalid_signature _ = some signal_error_code_invalid_session
misread Error.invalid_mac _ = some signal_error_code_internal_error
misread Error.duplicate_message _ = some signal_error_code_unrecognized_address
misread Error.verify_failed _ = some signal_error_code_server_rejected
misread _ own = own

code_of_sound :
    (n : ℕ) (cs : List HeaderCode) (c : HeaderCode) → code_of n cs ≡ some c → header_number c ≡ n
unfolding code_of
code_of_sound n [] c h = cc
code_of_sound n (c' ∷ cs) c h = elim (Bool-cases (header_number c' == n)) [
  | inl here ↦
      let same : some c' ≡ some c = rw here at h in
      let back : c ≡ c' = cc in ap header_number back ∙ (==_iff (header_number c') n).0 here
  | inr other ↦ code_of_sound n cs c (rw other at h)
]

code_of-header_number : (c : HeaderCode) → code_of (header_number c) header_codes ≡ some c
unfolding code_of header_number header_codes
code_of-header_number c = ground arith

read_as-named :
    (e : Error) (own : HeaderCode) → named e ≡ some own → read_as e ≡ misread e (some own)
unfolding read_as code_of header_codes zig_number header_number from_zig_error named
read_as-named e own h = ground arith

-- A caller that goes by the header reads the number of an error that the header names as the code
-- of its name, but for fourteen errors: ten are read as another code, and four have a number that
-- no code of the header has. An error is read as a code exactly when its number is
-- that code's.
pub read_as-misread :
    (e : Error) (own : HeaderCode)
    → named e ≡ some own
    → (read_as e ≡ misread e (some own))
      × ((c : HeaderCode)
          → (read_as e ≡ some c) ↔ (zig_number (from_zig_error e) ≡ header_number c))
unfolding read_as
read_as-misread e own h = (
  read_as-named e own h,
  λ c. (
    λ found. sym (code_of_sound (zig_number (from_zig_error e)) header_codes c found),
    λ same. rw (same, code_of-header_number c),
  ),
)
