-- ===== src/Tests/Collect.antt =====
-- The incremental MAC of the C interface at a concrete stream.
use libsignal_zig.Prelude.{◌≡◌, refl, List, [], ◌∷◌, replicate, arith}
use libsignal_zig.Prelude.Bytes.{Bytes}
use libsignal_zig.Prelude.Result.{ok}
use libsignal_zig.IncrementalMac.{Incremental, incremental_init}
use libsignal_zig.IncrementalMac.Whole.{macs_of}
use libsignal_zig.Ffi.{success, ◌>>=◌}
use libsignal_zig.Ffi.Macs.{signal_incremental_mac_initialize, collect, joined, collect_whole}
use libsignal_zig.Tests.{toy}

abbrev slices : List Bytes
slices = (1 ∷ 2 ∷ 3 ∷ []) ∷ [] ∷ (4 ∷ 5 ∷ []) ∷ []

collect_whole_example :
    (macs : Bytes) × (s' : Incremental) × ((signal_incremental_mac_initialize (replicate 32 9) 2
        >>= λ mac. collect toy mac slices)
      ≡ success macs)
    × (macs_of toy (incremental_init (replicate 32 9) 2) (joined slices) ≡ ok (macs, s'))
collect_whole_example = collect_whole toy (replicate 32 9) 2 slices refl (omega arith)
