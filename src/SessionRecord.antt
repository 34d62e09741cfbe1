-- ===== src/SessionRecord.antt =====
-- src/state/session_record.zig: the current state of a session and the archived ones. The states
-- and their serialized form are parameters here.
pub mod Archive
pub mod RoundTrip
use libsignal_zig.Prelude.{
  ℕ, ◌+◌, ◌-◌, ◌≤◌, ◌≡◌, refl, Option, none, some, Bool, true, false, List, [], ◌∷◌, ◌++◌, length,
  take, ltb, ◌==◌, if◌then◌else◌, arith, eql,
}
use libsignal_zig.Prelude.Bytes.{Bytes}
use libsignal_zig.Prelude.Result.{Result, ok, ◌>>=◌, or_null}
use libsignal_zig.Proto.{Field, parse_fields, write_bytes_field}
use libsignal_zig.Proto.Switch.{on_len, write_some}

abbrev pub max_archived_states : ℕ
max_archived_states = 40

pub record SessionRecord (State : Type 0) : Type 0 where
  pub current_state : Option State
  pub previous_sessions : List Bytes

-- `if (items.len > max) items.pop()`
unfoldable pub pop_over : ℕ → List Bytes → List Bytes
pop_over max items = if ltb max (length items) then take (length items - 1) items else items

unfoldable pub write_previous : Bytes → List Bytes → Bytes
write_previous buf [] = buf
write_previous buf (ps ∷ pss) = write_previous (write_bytes_field buf 2 ps) pss

module _ {State : Type 0} (serialize : State → Bytes) (deserialize : Bytes → Result State) where
  unfoldable pub archive_current_state : SessionRecord State → SessionRecord State
  archive_current_state r = elim r.current_state [
    | none ↦ r
    | some cs ↦ record {
      current_state = none;
      previous_sessions = pop_over max_archived_states (serialize cs ∷ r.previous_sessions);
    }
  ]

  unfoldable pub promote_state : SessionRecord State → State → SessionRecord State
  promote_state r state = elim r.current_state [
    | none ↦ record r { current_state = some state }
    | some cs ↦ record {
      current_state = some state;
      previous_sessions = pop_over max_archived_states (serialize cs ∷ r.previous_sessions);
    }
  ]

  unfoldable pub serialize_record : SessionRecord State → Bytes
  serialize_record r =
      let e₁ = write_some (λ buf cs. write_bytes_field buf 1 (serialize cs)) [] r.current_state in
      write_previous e₁ r.previous_sessions

  unfoldable pub record_field : SessionRecord State → Field → Result (SessionRecord State)
  record_field r f =
      if f.number == 1
      then on_len r f.payload
          (λ bs. do state ← deserialize bs; ok (record r { current_state = some state }))
      else if f.number == 2
      then on_len r f.payload
          (λ bs. ok (record r { previous_sessions = r.previous_sessions ++ bs ∷ [] }))
      else ok r

  unfoldable pub deserialize_record : Bytes → Result (SessionRecord State)
  deserialize_record bytes =
      parse_fields record_field bytes (record { current_state = none; previous_sessions = [] })

  module _ (alice_base_key : State → Option Bytes) where
    unfoldable pub has_key : Option State → Bytes → Bool
    has_key none base_key = false
    has_key (some s) base_key = elim (alice_base_key s) [
      | none ↦ false
      | some abk ↦ eql abk base_key
    ]

    -- `previousSessionHasKey`: a state that does not parse is passed over.
    unfoldable pub previous_session_has_key : List Bytes → Bytes → Result Bool
    previous_session_has_key [] base_key = ok false
    previous_session_has_key (ps ∷ pss) base_key =
        let rest = previous_session_has_key pss base_key in
        or_null (deserialize ps) >>= λ state. if has_key state base_key then ok true else rest
