-- ===== src/Spqr.antt =====
-- src/spqr.zig: the sparse post-quantum ratchet as the sessions use it, on serialized states.
pub mod Chain
use libsignal_zig.Prelude.{Option, none, some, [], ◌∷◌}
use libsignal_zig.Prelude.Bytes.{Bytes}
use libsignal_zig.Prelude.Result.{Result, ok, ◌>>=◌}

-- What spqr.zig asks of spqr/state.zig on a serialized state: to send, the new state, the
-- message and the key; to receive a message, the new state and the key.
pub record Machine : Type 0 where
  pub send_chunk : Bytes → Result (Bytes × Bytes × Option Bytes)
  pub recv_chunk : Bytes → Bytes → Result (Bytes × Option Bytes)

-- `send`: an empty state is a session without this ratchet.
unfoldable pub spqr_send : Machine → Bytes → Result (Bytes × Bytes × Option Bytes)
spqr_send machine [] = ok ([], [], none)
spqr_send machine (b ∷ bs) = machine.send_chunk (b ∷ bs)

-- `recv`: so is a message without a chunk, which leaves the state.
unfoldable pub spqr_recv : Machine → Bytes → Option Bytes → Result (Bytes × Option Bytes)
spqr_recv machine [] msg = ok ([], none)
spqr_recv machine (b ∷ bs) none = ok (b ∷ bs, none)
spqr_recv machine (b ∷ bs) (some []) = ok (b ∷ bs, none)
spqr_recv machine (b ∷ bs) (some (m ∷ ms)) = machine.recv_chunk (b ∷ bs) (m ∷ ms)
