-- ===== src/IncrementalMac/Whole.antt =====
-- The MACs of a whole stream, and a sender that is fed in parts.
use libsignal_zig.Prelude.{ℕ, ◌*◌, ◌<◌, ◌≡◌, refl, ◌∙◌, [], ◌++◌, length, arith}
use libsignal_zig.Prelude.Bytes.{Bytes}
use libsignal_zig.Prelude.Result.{Result, ok, ◌>>=◌}
use libsignal_zig.Crypto.{Crypto}
use libsignal_zig.IncrementalMac.{
  Incremental, fill_loop, mac_len, flush_chunk, incremental_update, incremental_finalize,
}
use libsignal_zig.IncrementalMac.Chunks.{fill_loop-feed, feed-room}
use libsignal_zig.IncrementalMac.Validate.{both_feed, incremental_update-append}

-- An update of a sender with whole MACs adds whole MACs, and leaves its buffer with room.
pub incremental_update_lem :
    (crypto : Crypto) (key : Bytes) (chunk_size : ℕ) (buf macs data_bytes : Bytes) (idx : ℕ)
    → length buf < chunk_size
    → length macs ≡ idx * mac_len
    → (buf' : Bytes) × (rest : Bytes) × (idx' : ℕ) × (incremental_update crypto
          (record { key = key; chunk_size = chunk_size; buf = buf; macs = macs })
          data_bytes
        ≡ ok (record { key = key; chunk_size = chunk_size; buf = buf'; macs = macs ++ rest }))
      × (length (macs ++ rest) ≡ idx' * mac_len)
      × (length buf' < chunk_size)
unfolding incremental_update
incremental_update_lem crypto key chunk_size buf macs data_bytes idx room size =
    let (buf', out, idx', sent, sized, (rest, split), _) =
      both_feed crypto key chunk_size data_bytes buf macs idx size in
    let run =
      fill_loop-feed chunk_size (flush_chunk crypto key chunk_size) (length data_bytes) buf macs
        data_bytes (omega arith) room
      ∙ sent in
    (
      buf',
      rest,
      idx',
      rw (run, split),
      rw split at sized,
      feed-room chunk_size (flush_chunk crypto key chunk_size) buf macs data_bytes (buf', out) room
          sent,
    )

-- The MACs of a whole stream.
unfoldable pub macs_of : Crypto → Incremental → Bytes → Result (Bytes × Incremental)
macs_of crypto s data_bytes = do
  s' ← incremental_update crypto s data_bytes
  incremental_finalize crypto s'

pub macs_of-nil :
    (crypto : Crypto) (s : Incremental) → macs_of crypto s [] ≡ incremental_finalize crypto s
unfolding macs_of incremental_update fill_loop
macs_of-nil crypto s = refl

pub macs_of-append :
    (crypto : Crypto) (s s' : Incremental) (xs ys : Bytes)
    → length s.buf < s.chunk_size
    → incremental_update crypto s xs ≡ ok s'
    → macs_of crypto s (xs ++ ys) ≡ macs_of crypto s' ys
unfolding macs_of
macs_of-append crypto s s' xs ys room run = rw (incremental_update-append crypto s xs ys room, run)
