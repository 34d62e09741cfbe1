-- ===== src/Tests/Archives.antt =====
-- Session records over a toy state: a base key, serialized as itself.
use libsignal_zig.Prelude.{
  ◌≡◌, ◌≤◌, refl, Option, none, some, true, List, [], ◌∷◌, length, take, replicate, arith,
}
use libsignal_zig.Prelude.Bytes.{Bytes}
use libsignal_zig.Prelude.Result.{Result, ok}
use libsignal_zig.SessionRecord.{archive_current_state, promote_state, previous_session_has_key}
use libsignal_zig.SessionRecord.Archive.{
  promote-archive_current_state, previous_session_has_key-archive_current_state,
}

abbrev put : Bytes → Bytes
put s = s

abbrev get : Bytes → Result Bytes
get bs = ok bs

abbrev key_of : Bytes → Option Bytes
key_of s = some s

-- As many archived sessions as there may be.
abbrev full : List Bytes
full = replicate 40 (5 ∷ [])

promote-archive_current_state_example :
    (archive_current_state put get
        (record { current_state = some (1 ∷ []); previous_sessions = full })
      ≡ record { current_state = none; previous_sessions = take 40 ((1 ∷ []) ∷ full) })
    × (promote_state put get
          (record { current_state = some (1 ∷ []); previous_sessions = full })
          (2 ∷ [])
        ≡ record { current_state = some (2 ∷ []); previous_sessions = take 40 ((1 ∷ []) ∷ full) })
    × (length (take 40 ((1 ∷ []) ∷ full)) ≤ 40)
promote-archive_current_state_example =
    promote-archive_current_state put get (1 ∷ []) (2 ∷ []) full (omega arith)

previous_session_has_key-archive_current_state_example :
    previous_session_has_key put get key_of
      (archive_current_state put get
        (record { current_state = some (1 ∷ []); previous_sessions = full })).previous_sessions
      (1 ∷ [])
    ≡ ok true
previous_session_has_key-archive_current_state_example =
    previous_session_has_key-archive_current_state put get key_of (1 ∷ []) (1 ∷ []) full (1 ∷ [])
      (omega arith) refl refl
