-- ===== src/IncrementalMac.antt =====
-- src/incremental_mac.zig: the MACs of the chunks of a stream. A buffer with its `buf_len` is the
-- list of the bytes that are in use.
pub mod Chunks
pub mod Validate
pub mod Whole
use libsignal_zig.Prelude.{
  ℕ, zero, suc, ◌+◌, ◌-◌, ◌*◌, ◌/◌, min, Bool, ◌^◌, ◌==◌, ltb, leb, not, [], ◌∷◌, ◌++◌, length,
  take, drop, replicate, eql, if◌then◌else◌,
}
use libsignal_zig.Prelude.Bytes.{Bytes, slice}
use libsignal_zig.Prelude.Result.{
  Result, ok, stuck, ◌>>=◌, ◌>>◌, fail_if, panic_if, invalid_message,
}
use libsignal_zig.Crypto.{Crypto}

abbrev pub mac_len : ℕ
mac_len = 32

-- The sum on a `usize` and the division are checked.
abbrev chunks_of : ℕ → ℕ → Result ℕ
chunks_of total_size chunk_size = do
  panic_if (leb (2 ^ 64) (total_size + chunk_size))
  panic_if (chunk_size == 0)
  ok ((total_size + chunk_size - 1) / chunk_size)

unfoldable pub chunk_count : ℕ → ℕ → Result ℕ
chunk_count total_size chunk_size =
    if total_size == 0 then ok 0 else chunks_of total_size chunk_size

unfoldable pub mac_bytes_for_size : ℕ → ℕ → Result ℕ
mac_bytes_for_size total_size chunk_size = do
  count ← chunk_count total_size chunk_size
  panic_if (leb (2 ^ 64) (count * mac_len))
  ok (count * mac_len)

-- The loop of the two `update`s, with what each does to a full buffer.
module _ {A : Type 0} (chunk_size : ℕ) (flush : Bytes → A → Result A) where
  unfoldable pub fill_loop : ℕ → Bytes → A → Bytes → Result (Bytes × A)
  fill_loop fuel buf acc [] = ok (buf, acc)
  fill_loop zero buf acc (b ∷ bs) = stuck
  fill_loop (suc fuel) buf acc (b ∷ bs) =
      let n = min (chunk_size - length buf) (length (b ∷ bs)) in
      let buf' = buf ++ take n (b ∷ bs) in
      let more = λ (rest : Bytes) (a : A). fill_loop fuel rest a (drop n (b ∷ bs)) in
      if length buf' == chunk_size then flush buf' acc >>= more [] else more buf' acc

-- `@memset(self.buf[self.buf_len..self.chunk_size], 0)`, which nothing is left to where the
-- buffer is full.
abbrev pub padded : ℕ → Bytes → Bytes
padded chunk_size buf = buf ++ replicate (chunk_size - length buf) 0

pub record Incremental : Type 0 where
  pub key : Bytes
  pub chunk_size : ℕ
  pub buf : Bytes
  pub macs : Bytes

pub record Validating : Type 0 where
  pub key : Bytes
  pub chunk_size : ℕ
  pub expected_macs : Bytes
  pub buf : Bytes
  pub chunk_idx : ℕ

abbrev pub incremental_init : Bytes → ℕ → Incremental
incremental_init key chunk_size = record { key = key; chunk_size = chunk_size; buf = []; macs = [] }

abbrev pub validating_init : Bytes → ℕ → Bytes → Validating
validating_init key chunk_size expected_macs = record {
  key = key;
  chunk_size = chunk_size;
  expected_macs = expected_macs;
  buf = [];
  chunk_idx = 0;
}

module _ (crypto : Crypto) where
  abbrev pub flush_chunk : Bytes → ℕ → Bytes → Bytes → Result Bytes
  flush_chunk key chunk_size buf macs = ok (macs ++ crypto.hmac key (padded chunk_size buf))

  unfoldable pub incremental_update : Incremental → Bytes → Result Incremental
  incremental_update s data_bytes = do
    (buf, macs) ←
        fill_loop s.chunk_size (flush_chunk s.key s.chunk_size) (length data_bytes) s.buf s.macs
          data_bytes
    ok (record s { buf = buf; macs = macs })

  -- The MACs are handed over: `toOwnedSlice` leaves none.
  unfoldable pub incremental_finalize : Incremental → Result (Bytes × Incremental)
  incremental_finalize s = do
    macs ← if length s.buf == 0 then ok s.macs else flush_chunk s.key s.chunk_size s.buf s.macs
    ok (macs, record s { buf = []; macs = [] })

  abbrev pub verify_chunk : Bytes → ℕ → Bytes → Bytes → ℕ → Result ℕ
  verify_chunk key chunk_size expected_macs buf chunk_idx = do
    fail_if (ltb (length expected_macs) (chunk_idx * mac_len + mac_len)) invalid_message
    let expected = slice (chunk_idx * mac_len) mac_len expected_macs
    fail_if (not (eql (crypto.hmac key (padded chunk_size buf)) expected)) invalid_message
    ok (chunk_idx + 1)

  unfoldable pub validating_update : Validating → Bytes → Result Validating
  validating_update s data_bytes = do
    (buf, chunk_idx) ←
        fill_loop s.chunk_size (verify_chunk s.key s.chunk_size s.expected_macs) (length data_bytes)
          s.buf s.chunk_idx data_bytes
    ok (record s { buf = buf; chunk_idx = chunk_idx })

  unfoldable pub validating_finalize : Validating → Result Validating
  validating_finalize s = do
    chunk_idx ←
        if length s.buf == 0
        then ok s.chunk_idx
        else verify_chunk s.key s.chunk_size s.expected_macs s.buf s.chunk_idx
    ok (record s { buf = []; chunk_idx = chunk_idx })
