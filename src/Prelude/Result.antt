-- ===== src/Prelude/Result.antt =====
-- Zig's error unions, and the two ways in which a call can fail to return.
use mathlib.Core.Path.{◌≡◌, refl, ap}
use mathlib.Core.Bool.{Bool, true, false}
use mathlib.Core.Option.{Option, none, some}

-- The error names that the modelled functions return. Zig's error sets are global by name.
pub data Error : Type 0 where
  truncated invalid_tag overflow unexpected_wire_type : Error
  invalid_argument invalid_state invalid_key invalid_signature invalid_message : Error
  invalid_type legacy_ciphertext_version duplicate_message untrusted_identity : Error
  session_not_found invalid_session signature_mismatch fingerprint_version_mismatch : Error
  padding_error invalid_version missing_field invalid_data truncated_chunk : Error
  key_already_used key_jump epoch_out_of_order epoch_out_of_range : Error
  odd_length too_short invalid invalid_mac missing_mac : Error
  invalid_uuid invalid_service_id invalid_key_identifier identity_element : Error
  weak_public_key unknown_ciphertext_version unrecognized_message_version : Error
  invalid_utf8_string fingerprint_identifier_mismatch protobuf_error null_parameter : Error
  callback_error verify_failed out_of_memory store_callback_failed : Error

-- `panic` is safety-checked illegal behaviour (an overflow, a failed `@intCast`, an index or an
-- enum value out of range): a panic in the safe build modes, undefined in the others.
-- `stuck` is no Zig value: the fuel of a model's loop ran out.
pub data Result {ℓ} (A : Type ℓ) : Type ℓ where
  ok : A → Result A
  err : Error → Result A
  panic : Result A
  stuck : Result A

infixl 5 ◌>>=◌ ◌>>◌
abbrev pub ◌>>=◌ {ℓ κ} : {A : Type ℓ} {B : Type κ} → Result A → (A → Result B) → Result B
panic >>= next = panic
stuck >>= next = stuck
err e >>= next = err e
ok a >>= next = next a

abbrev pub ◌>>◌ {ℓ} : {B : Type ℓ} → Result (Unit {0}) → Result B → Result B
check >> rest = check >>= λ _. rest

-- `if (bad) return error.e;`
abbrev pub fail_if : Bool → Error → Result (Unit {0})
fail_if true e = err e
fail_if false e = ok tt

-- A safety check.
abbrev pub panic_if : Bool → Result (Unit {0})
panic_if true = panic
panic_if false = ok tt

-- `x orelse return error.e`
abbrev pub or_return {ℓ} : {A : Type ℓ} → Option A → Error → Result A
or_return none e = err e
or_return (some a) e = ok a

-- An item at an index that a check before it has kept in range, or `x.?`.
abbrev pub or_panic {ℓ} : {A : Type ℓ} → Option A → Result A
or_panic none = panic
or_panic (some a) = ok a

-- `x catch null`
abbrev pub or_null {ℓ} : {A : Type ℓ} → Result A → Result (Option A)
or_null (ok a) = ok (some a)
or_null (err e) = ok none
or_null panic = panic
or_null stuck = stuck

pub ok_injective {ℓ} : {A : Type ℓ} {a b : A} → ok a ≡ ok b → a ≡ b
ok_injective h = cc

-- Inversion of a successful bind.
pub bind-eq-ok {ℓ κ} :
    {A : Type ℓ} {B : Type κ} (r : Result A) (next : A → Result B) {b : B}
    → (r >>= next) ≡ ok b
    → (a : A) × (r ≡ ok a) × (next a ≡ ok b)
bind-eq-ok panic next h = cc
bind-eq-ok stuck next h = cc
bind-eq-ok (err e) next h = cc
bind-eq-ok (ok a) next h = (a, refl, h)

pub bind_assoc {ℓ κ μ} :
    {A : Type ℓ} {B : Type κ} {C : Type μ} (m : Result A) (f : A → Result B) (g : B → Result C)
    → ((m >>= f) >>= g) ≡ (m >>= λ a. f a >>= g)
bind_assoc (ok a) f g = refl
bind_assoc (err e) f g = refl
bind_assoc panic f g = refl
bind_assoc stuck f g = refl

pub or_panic-eq-ok {ℓ} : {A : Type ℓ} (o : Option A) {a : A} → or_panic o ≡ ok a → o ≡ some a
or_panic-eq-ok none h = cc
or_panic-eq-ok (some x) h = ap some (ok_injective h)

pub or_return-eq-ok {ℓ} :
    {A : Type ℓ} (o : Option A) (e : Error) {a : A} → or_return o e ≡ ok a → o ≡ some a
or_return-eq-ok none e h = cc
or_return-eq-ok (some x) e h = ap some (ok_injective h)

-- A check that let the code go on.
pub fail_if-eq-ok : (bad : Bool) (e : Error) {u : Unit {0}} → fail_if bad e ≡ ok u → bad ≡ false
fail_if-eq-ok true e h = cc
fail_if-eq-ok false e h = refl
