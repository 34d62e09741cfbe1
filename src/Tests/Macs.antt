-- ===== src/Tests/Macs.antt =====
-- Incremental MACs at concrete inputs.
use libsignal_zig.Prelude.{◌≡◌, [], ◌∷◌, replicate, arith}
use libsignal_zig.Prelude.Bytes.{Bytes}
use libsignal_zig.Prelude.Result.{ok, ◌>>=◌}
use libsignal_zig.IncrementalMac.{
  Incremental, Validating, incremental_init, incremental_update, incremental_finalize,
  validating_init, validating_update, validating_finalize,
}
use libsignal_zig.IncrementalMac.Validate.{validating-incremental}
use libsignal_zig.Tests.{toy}

abbrev stream : Bytes
stream = 1 ∷ 2 ∷ 3 ∷ 4 ∷ 5 ∷ []

validating-incremental_example :
    (macs : Bytes) × (s' : Incremental) × (v' : Validating) × ((incremental_update toy
          (incremental_init (replicate 32 9) 2)
          stream
        >>= incremental_finalize toy)
      ≡ ok (macs, s'))
    × ((validating_update toy (validating_init (replicate 32 9) 2 macs) stream
          >>= validating_finalize toy)
        ≡ ok v')
validating-incremental_example = validating-incremental toy (replicate 32 9) 2 stream (omega arith)
