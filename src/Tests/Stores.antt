-- ===== src/Tests/Stores.antt =====
-- The stores of the example programs at concrete inputs.
use libsignal_zig.Prelude.{
  ℕ, zero, suc, ◌+◌, ◌≤◌, ◌≡◌, ◌≢◌, refl, none, some, [], ◌∷◌, length, replicate, if◌then◌else◌,
  eql, All, arith,
}
use libsignal_zig.Prelude.Bytes.{Bytes, IsByte}
use libsignal_zig.Prelude.Result.{Result, ok}
use libsignal_zig.SessionRecord.{SessionRecord}
use libsignal_zig.SessionRecord.RoundTrip.{deserialize-serialize_record}
use libsignal_zig.Ffi.{success, abort}
use libsignal_zig.Ffi.Address.{ProtocolAddress}
use libsignal_zig.Examples.CStore.{
  KvRows, kv_max, kv_put, kv_get, Cut, kv_get-kv_put, kv_get-kv_put_long, c_kv,
}
use libsignal_zig.Examples.CppStore
use libsignal_zig.Examples.CppStore.{KvMap, puts, puts_agree, cpp_kv}
use libsignal_zig.Examples.Keys.{sk_key, sk_key_overflow, sk_key_injective}
use libsignal_zig.Examples.Stores.{IdState, sess_load, sess_store_fn}
use libsignal_zig.Examples.Lawful.{c_program, IsAddress, c_program-IsProgram}
use libsignal_zig.Examples.Peers.{sess_load-sess_store_fn}
use libsignal_zig.Tests.Examples.{seed_of}

abbrev rows : KvRows
rows =
    record { key = 0x61 ∷ []; data_bytes = 1 ∷ [] }
    ∷ record { key = 0x62 ∷ []; data_bytes = 2 ∷ [] }
    ∷ []

kv_get-kv_put_example :
    (s' : KvRows) × (kv_put rows (0x62 ∷ []) (3 ∷ []) ≡ success s')
    × (9 + length s' ≤ kv_max)
    × ((j : Bytes) → kv_get s' j ≡ (if eql j (0x62 ∷ []) then some (3 ∷ []) else kv_get rows j))
kv_get-kv_put_example = kv_get-kv_put 9 rows (0x62 ∷ []) (3 ∷ []) (omega arith) (omega arith)

kv_get-kv_put_long_example :
    (s' : KvRows) × (kv_put rows (replicate 512 0x61) (3 ∷ []) ≡ success s')
    × Cut s'
    × (length s' ≡ 3)
    × (kv_get s' (replicate 512 0x61) ≡ none)
kv_get-kv_put_long_example =
    kv_get-kv_put_long rows (replicate 512 0x61) (3 ∷ []) (omega arith, (omega arith, tt))
      (omega arith) (omega arith)

puts_agree_example :
    (s' : KvRows) × (t' : KvMap) × (puts c_kv [] ((0x61 ∷ [], 1 ∷ []) ∷ (0x61 ∷ [], 2 ∷ []) ∷ [])
      ≡ success s')
    × (puts cpp_kv [] ((0x61 ∷ [], 1 ∷ []) ∷ (0x61 ∷ [], 2 ∷ []) ∷ []) ≡ success t')
    × ((j : Bytes) → c_kv.get s' j ≡ CppStore.kv_get t' j)
unfolding kv_get CppStore.kv_get
puts_agree_example =
    puts_agree ((0x61 ∷ [], 1 ∷ []) ∷ (0x61 ∷ [], 2 ∷ []) ∷ []) [] []
      (omega arith, (omega arith, tt)) (omega arith) (λ j. refl)

abbrev alice_address : ProtocolAddress
alice_address = record { name = 0x61 ∷ 0x6c ∷ []; device_id = 1 }

alice_address-IsAddress : IsAddress alice_address
alice_address-IsAddress = record { name = omega arith; device_id = omega arith }

abbrev long_address : ProtocolAddress
long_address = record { name = replicate 600 0x61; device_id = 1 }

sk_key_overflow_example : sk_key (some long_address) (replicate 16 7) ≡ abort
sk_key_overflow_example = sk_key_overflow long_address 7 (replicate 15 7) (omega arith)

replicate-IsByte : (n : ℕ) → All IsByte (replicate n 7)
replicate-IsByte zero = tt
replicate-IsByte (suc n) = (omega arith, replicate-IsByte n)

abbrev a_distribution : Bytes
a_distribution = replicate 16 7

a_distribution-IsByte : All IsByte a_distribution
a_distribution-IsByte = replicate-IsByte 16

sk_key_injective_example : (alice_address ≡ alice_address) × (a_distribution ≡ a_distribution)
sk_key_injective_example =
    sk_key_injective alice_address alice_address a_distribution a_distribution (omega arith)
      (omega arith) (omega arith) (omega arith) a_distribution-IsByte a_distribution-IsByte refl
      refl refl

abbrev bytes_of : Bytes → Bytes
bytes_of state = state

abbrev bytes_from : Bytes → Result Bytes
bytes_from bytes = ok bytes

abbrev a_session : SessionRecord Bytes
a_session = record { current_state = some (1 ∷ []); previous_sessions = (3 ∷ []) ∷ [] }

sess_load-sess_store_fn_example :
    (s' : KvRows) × (sess_store_fn c_program bytes_of bytes_from []
        (some alice_address)
        (some a_session)
      ≡ success s')
    × c_program-IsProgram.lawful.Room 3 s'
    × (sess_load c_program bytes_of bytes_from s' (some alice_address) ≡ success (some a_session))
    × ((b : ProtocolAddress)
        → IsAddress b
        → b ≢ alice_address
        → sess_load c_program bytes_of bytes_from s' (some b)
          ≡ sess_load c_program bytes_of bytes_from [] (some b))
sess_load-sess_store_fn_example =
    sess_load-sess_store_fn c_program c_program-IsProgram bytes_of bytes_from 3 [] alice_address
      a_session alice_address-IsAddress
      (deserialize-serialize_record bytes_of bytes_from (1 ∷ []) ((3 ∷ []) ∷ []) refl (omega arith))
      (c_program-IsProgram.lawful.room-empty 4 (omega arith))

abbrev nobody : IdState c_program
nobody = record { priv_bytes = seed_of 1; reg_id = 1001; trusted = [] }
