-- ===== src/SessionRecord/RoundTrip.antt =====
-- The serialized form of src/state/session_record.zig's `SessionRecord`.
use libsignal_zig.Prelude.{
  ℕ, ◌+◌, ◌^◌, ◌<◌, ◌≡◌, refl, sym, ◌∙◌, none, some, List, [], ◌∷◌, ◌++◌, length, arith,
  append_assoc, append-nil, All,
}
use libsignal_zig.Prelude.Bytes.{Bytes}
use libsignal_zig.Prelude.Result.{Result, ok}
use libsignal_zig.Proto.{Field, write_bytes_field}
use libsignal_zig.Proto.Fields.{IsField, encode_fields, run_fields}
use libsignal_zig.Proto.Writes.{bytes_field, write_bytes_field_lem}
use libsignal_zig.Proto.Switch.{parse_fields-budget, encode_fields-cons, budget}
use libsignal_zig.SessionRecord.{
  SessionRecord, write_previous, serialize_record, record_field, deserialize_record,
}

abbrev previous_fields : List Bytes → List Field
previous_fields [] = []
previous_fields (ps ∷ pss) = bytes_field 2 ps ∷ previous_fields pss

-- The serialized states, each with 20 bytes for its field, fit a 64-bit length.
abbrev pub total : List Bytes → ℕ
total [] = 0
total (ps ∷ pss) = 20 + length ps + total pss

write_previous_lem :
    (pss : List Bytes) (buf : Bytes)
    → write_previous buf pss ≡ buf ++ encode_fields (previous_fields pss)
unfolding write_previous encode_fields
write_previous_lem [] buf = sym (append-nil buf)
write_previous_lem (ps ∷ pss) buf =
    write_previous_lem pss (write_bytes_field buf 2 ps)
    ∙ rw (write_bytes_field_lem buf 2 (omega arith) ps) (simp append_assoc)

budget-previous : (pss : List Bytes) → budget (previous_fields pss) ≡ total pss
budget-previous [] = refl
budget-previous (ps ∷ pss) = rw (budget-previous pss)

previous_fields-IsField :
    (pss : List Bytes) → total pss < 2 ^ 64 → All IsField (previous_fields pss)
previous_fields-IsField [] fits = tt
previous_fields-IsField (ps ∷ pss) fits =
    ((omega arith, omega arith, omega arith), previous_fields-IsField pss (omega arith))

module _ {State : Type 0} (serialize : State → Bytes) (deserialize : Bytes → Result State) where
  run_previous :
      (pss : List Bytes) (r : SessionRecord State)
      → run_fields (record_field serialize deserialize) (previous_fields pss) r
        ≡ ok (record r { previous_sessions = r.previous_sessions ++ pss })
  unfolding run_fields record_field
  run_previous [] r = rw (append-nil r.previous_sessions)
  run_previous (ps ∷ pss) r =
      run_previous pss (record r { previous_sessions = r.previous_sessions ++ ps ∷ [] })
      ∙ rw (append_assoc r.previous_sessions (ps ∷ []) pss)

  -- A record whose current state is read back from its own serialized form is read back whole,
  -- the archived states in their order, when all of it fits a 64-bit length.
  pub deserialize-serialize_record :
      (state : State) (pss : List Bytes)
      → deserialize (serialize state) ≡ ok state
      → total (serialize state ∷ pss) < 2 ^ 64
      → deserialize_record serialize deserialize (
          serialize_record serialize deserialize
            (record { current_state = some state; previous_sessions = pss }))
        ≡ ok (record { current_state = some state; previous_sessions = pss })
  unfolding serialize_record deserialize_record run_fields record_field
  deserialize-serialize_record state pss back fits =
      let fs = bytes_field 1 (serialize state) ∷ previous_fields pss in
      let empty : SessionRecord State = record { current_state = none; previous_sessions = [] } in
      rw (
        write_previous_lem pss (write_bytes_field [] 1 (serialize state)),
        write_bytes_field_lem [] 1 (omega arith) (serialize state),
        ← encode_fields-cons (bytes_field 1 (serialize state)) (previous_fields pss),
        parse_fields-budget (record_field serialize deserialize) fs empty
            ((omega arith, omega arith, omega arith), previous_fields-IsField pss (omega arith))
            (omega (arith, budget-previous pss)),
        back,
        run_previous pss (record empty { current_state = some state }),
      )
