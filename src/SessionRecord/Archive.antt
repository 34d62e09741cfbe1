-- ===== src/SessionRecord/Archive.antt =====
-- What src/state/session_record.zig keeps of the sessions before the current one.
use libsignal_zig.Prelude.{
  ℕ, ◌+◌, ◌-◌, ◌≤◌, ◌≡◌, Option, none, some, true, List, ◌∷◌, length, take, ltb, ltb→lt, Bool-cases,
  inl, inr, length-take, take_within, arith, eql_refl,
}
use libsignal_zig.Prelude.Bytes.{Bytes}
use libsignal_zig.Prelude.Result.{Result, ok}
use libsignal_zig.SessionRecord.{
  SessionRecord, max_archived_states, pop_over, archive_current_state, promote_state,
  previous_session_has_key, has_key,
}

-- A list that was within the bound before an insertion.
pop_over-take :
    (max : ℕ) (items : List Bytes) → length items ≤ max + 1 → pop_over max items ≡ take max items
unfolding pop_over
pop_over-take max items small = elim (Bool-cases (ltb max (length items))) [
  | inl over ↦
      let all_but_one : length items - 1 ≡ max = omega (arith, ltb→lt max (length items) over) in
      rw (over, all_but_one)
  | inr within ↦ rw (within, take_within max items (ground arith))
]

module _ {State : Type 0} (serialize : State → Bytes) (deserialize : Bytes → Result State) where
  -- Of a record with a current state and at most 40 archived ones, both archiving the current
  -- state and promoting another keep the serialized current state and the newest archived ones,
  -- newest first, 40 at most. Archiving leaves no current state, promoting the promoted one.
  pub promote-archive_current_state :
      (cs state : State) (pss : List Bytes)
      → length pss ≤ max_archived_states
      → let r : SessionRecord State = record { current_state = some cs; previous_sessions = pss } in
        let kept = take max_archived_states (serialize cs ∷ pss) in
        (archive_current_state serialize deserialize r
          ≡ record { current_state = none; previous_sessions = kept })
        × (promote_state serialize deserialize r state
            ≡ record { current_state = some state; previous_sessions = kept })
        × (length kept ≤ max_archived_states)
  unfolding archive_current_state promote_state
  promote-archive_current_state cs state pss small =
      let kept = pop_over-take max_archived_states (serialize cs ∷ pss) (omega arith) in
      (rw kept, rw kept, omega (arith, length-take max_archived_states (serialize cs ∷ pss)))

  module _ (alice_base_key : State → Option Bytes) where
    has_key_lem :
        (s : State) (base_key : Bytes)
        → alice_base_key s ≡ some base_key
        → has_key serialize deserialize alice_base_key (some s) base_key ≡ true
    unfolding has_key
    has_key_lem s base_key key = rw (has_key, key) (eql_refl base_key)

    -- A session that was archived is found by its base key, when its serialized form is read back
    -- with that key; the search does not get past it, whatever the states after it are.
    pub previous_session_has_key-archive_current_state :
        (cs cs' : State) (pss : List Bytes) (base_key : Bytes)
        → length pss ≤ max_archived_states
        → deserialize (serialize cs) ≡ ok cs'
        → alice_base_key cs' ≡ some base_key
        → previous_session_has_key serialize deserialize alice_base_key
            (archive_current_state serialize deserialize
              (record { current_state = some cs; previous_sessions = pss })).previous_sessions
            base_key
          ≡ ok true
    unfolding archive_current_state previous_session_has_key
    previous_session_has_key-archive_current_state cs cs' pss base_key small back key = rw (
      pop_over-take max_archived_states (serialize cs ∷ pss) (omega arith),
      back,
      has_key_lem cs' base_key key,
    )
