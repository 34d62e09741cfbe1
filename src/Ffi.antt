-- ===== src/Ffi.antt =====
-- include/signal_ffi.h: what a C caller sees of a call, and of the pointers and buffers that it
-- passes.
pub mod ErrorCode
pub mod Address
pub mod Keys
pub mod Records
pub mod Stores
pub mod SenderKeys
pub mod Scannable
pub mod Misc
pub mod Identity
pub mod Macs
use libsignal_zig.Prelude.{◌≡◌, Bool, true, false, Option, none, some}
use libsignal_zig.Prelude.Bytes.{Bytes}
use libsignal_zig.Prelude.Result.{Result, ok, err, panic, stuck}
use libsignal_zig.Ffi.ErrorCode.{ZigCode, from_zig_error}

-- A call that returns null and writes its output, one that returns an error, and one that does not
-- return: the process ends by `abort()` or a panic, or goes on for ever.
pub data Outcome {ℓ} (A : Type ℓ) : Type ℓ where
  success : A → Outcome A
  failure : ZigCode → Outcome A
  abort : Outcome A
  hang : Outcome A

-- `SIGNAL_DECLARE_POINTER(T)`: the value that `raw` leads to, if it is not null.
abbrev pub Pointer {ℓ} : Type ℓ → Type ℓ
Pointer T = Option T

-- The buffers' `base` and `length`.
abbrev pub Buffer : Type 0
Buffer = Bytes

infixl 5 ◌>>=◌ ◌>>◌
abbrev pub ◌>>=◌ {ℓ κ} : {A : Type ℓ} {B : Type κ} → Outcome A → (A → Outcome B) → Outcome B
abort >>= next = abort
hang >>= next = hang
failure c >>= next = failure c
success a >>= next = next a

abbrev pub ◌>>◌ {ℓ} : {B : Type ℓ} → Outcome (Unit {0}) → Outcome B → Outcome B
call >> rest = call >>= λ _. rest

-- `catch |e| return err_mod.fromZigError(e)`
abbrev pub catch {ℓ} : {A : Type ℓ} → Result A → Outcome A
catch (ok a) = success a
catch (err e) = failure (from_zig_error e)
catch panic = abort
catch stuck = hang

-- `obj.raw orelse return err_mod.alloc(.null_parameter, …)`
abbrev pub non_null {ℓ} : {A : Type ℓ} → Pointer A → Outcome A
non_null (some a) = success a
non_null none = failure ZigCode.null_parameter

-- What a bridge of ffi/session.zig makes of a callback's error.
abbrev pub callback {ℓ} : {A : Type ℓ} → Outcome A → Outcome A
callback (success a) = success a
callback (failure c) = failure ZigCode.internal_error
callback abort = abort
callback hang = hang

-- `if (bad) return err_mod.alloc(code, …)`
abbrev pub refuse_if : Bool → ZigCode → Outcome (Unit {0})
refuse_if true code = failure code
refuse_if false code = success tt

-- The macro `MUST` of the example programs: `die` prints the message, frees the error and aborts.
abbrev pub must {ℓ} : {A : Type ℓ} → Outcome A → Outcome A
must (success a) = success a
must (failure c) = abort
must abort = abort
must hang = hang

-- `if (bad) { fputs(…, stderr); abort(); }`
abbrev pub abort_if : Bool → Outcome (Unit {0})
abort_if true = abort
abort_if false = success tt

pub success_injective {ℓ} : {A : Type ℓ} {a b : A} → success a ≡ success b → a ≡ b
success_injective h = cc
