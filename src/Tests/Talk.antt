-- ===== src/Tests/Talk.antt =====
-- Group messages through the C++ program's stores at concrete inputs.
use libsignal_zig.Prelude.{◌≡◌, refl, some, [], ◌∷◌, replicate, eql_refl, arith}
use libsignal_zig.Prelude.Bytes.{Bytes}
use libsignal_zig.Group.{SenderKeyState, serialize_state}
use libsignal_zig.Group.Run.{Posted, SignsFor}
use libsignal_zig.Ffi.{success}
use libsignal_zig.Ffi.Address.{ProtocolAddress}
use libsignal_zig.Examples.CppStore.{KvMap, kv_get, cpp_kv-IsLawful}
use libsignal_zig.Examples.Keys.{sender_key_text}
use libsignal_zig.Examples.Stores.{load_row, sk_load_fn}
use libsignal_zig.Examples.Lawful.{IsAddress, cpp_program, cpp_program-IsProgram}
use libsignal_zig.Examples.Talk.{talk, talk_delivers}
use libsignal_zig.Tests.{toy}
use libsignal_zig.Tests.Formats.{stamp}
use libsignal_zig.Tests.Sessions.{plain_cipher}
use libsignal_zig.Tests.Groups.{sender, receiver, at-IsSenderKeyState, sender-IsSenderKeyState}

abbrev alice : ProtocolAddress
alice = record { name = 0x61 ∷ []; device_id = 1 }

abbrev distribution : Bytes
distribution = replicate 16 6

abbrev holding : SenderKeyState → KvMap
holding s = (sender_key_text alice distribution, serialize_state s) ∷ []

row_found : (k d : Bytes) → kv_get ((k, d) ∷ []) k ≡ some d
unfolding kv_get
row_found k d = rw (eql_refl k)

alice-IsAddress : IsAddress alice
alice-IsAddress = record { name = omega arith; device_id = omega arith }

loads :
    (s : SenderKeyState)
    → sk_load_fn cpp_program (holding s) (some alice) distribution
      ≡ success (some (serialize_state s))
unfolding sk_load_fn
loads s = rw (
  (cpp_program-IsProgram.sender_key alice distribution alice-IsAddress refl).0,
  load_row,
  row_found (sender_key_text alice distribution) (serialize_state s),
)

signs : SignsFor toy plain_cipher stamp sender receiver
signs = record {
  signature = λ message random. replicate 64 9;
  signed = λ message random. refl;
  verified = λ message random. refl;
}

room : (s : SenderKeyState) → cpp_program-IsProgram.lawful.Room 0 (holding s)
unfolding cpp_program-IsProgram cpp_kv-IsLawful
room s = tt

talk_delivers_example :
    (alice_store : KvMap) × (bob_store : KvMap) × (talk cpp_program toy plain_cipher stamp alice
        distribution
        (holding sender)
        (holding receiver)
        (Posted.dropped (1 ∷ []) [] ∷ Posted.delivered (2 ∷ []) [] ∷ Posted.delivered [] [] ∷ [])
      ≡ success ((2 ∷ []) ∷ [] ∷ [], alice_store, bob_store))
talk_delivers_example =
    talk_delivers cpp_program toy plain_cipher stamp alice distribution cpp_program-IsProgram
      alice-IsAddress refl
      (Posted.dropped (1 ∷ []) [] ∷ Posted.delivered (2 ∷ []) [] ∷ Posted.delivered [] [] ∷ [])
      (holding sender) (holding receiver) sender receiver 2 (loads sender) (loads receiver)
      (room sender) (room receiver)
      (record { chain_id = refl; iteration = omega arith; chain_key = refl })
      sender-IsSenderKeyState (at-IsSenderKeyState 2 (replicate 32 8) (omega arith) refl) signs
      (omega arith) (omega arith, (omega arith, (omega arith, tt)))
