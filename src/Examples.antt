-- ===== src/Examples.antt =====
-- examples/c/main.c and examples/cpp/main.cpp: the programs that run the C interface, over what the
-- two have apart: a store of bytes under text keys, and the making of the keys.
pub mod Text
pub mod CStore
pub mod CppStore
pub mod Keys
pub mod Stores
pub mod Lawful
pub mod Loads
pub mod Peers
pub mod Tests
pub mod Group
pub mod Passes
pub mod Talk
pub mod Bob
pub mod Cpp
use libsignal_zig.Prelude.{ℕ, suc, ◌≤◌, ◌≡◌, Option, none, some, eql, if◌then◌else◌}
use libsignal_zig.Prelude.Bytes.{Bytes}
use libsignal_zig.Ffi.{Outcome, success}

pub record Kv : Type 1 where
  pub Store : Type 0
  pub empty : Store
  pub put : Store → Bytes → Bytes → Outcome Store
  pub get : Store → Bytes → Option Bytes

-- What the stores promise: a key that fits and is put while there is room is found, and no other
-- key is touched.
pub record IsLawful (kv : Kv) : Type 1 where
  pub IsKey : Bytes → Type 0
  pub Room : ℕ → kv.Store → Type 0
  pub get-empty : (k : Bytes) → kv.get kv.empty k ≡ none
  pub room-empty : (n : ℕ) → n ≤ 128 → Room n kv.empty
  pub get-put :
      (n : ℕ) (s : kv.Store) (k d : Bytes)
      → IsKey k
      → Room (suc n) s
      → (s' : kv.Store) × (kv.put s k d ≡ success s')
        × Room n s'
        × ((j : Bytes) → kv.get s' j ≡ (if eql j k then some d else kv.get s j))
  -- A key that is found is put without room.
  pub put-there :
      (n : ℕ) (s : kv.Store) (k d e : Bytes)
      → kv.get s k ≡ some e
      → Room n s
      → (s' : kv.Store) × (kv.put s k d ≡ success s')
        × Room n s'
        × ((j : Bytes) → kv.get s' j ≡ (if eql j k then some d else kv.get s j))
