-- ===== src/Ffi/Macs.antt =====
-- src/ffi/crypto.zig: the sender's incremental MAC behind a pointer, which gives out the MACs of the
-- chunks as they are completed.
use libsignal_zig.Prelude.{
  ℕ, ◌+◌, ◌*◌, ◌/◌, ◌<◌, ◌≡◌, refl, ap, ◌∙◌, Bool-cases, inl, inr, ltb, le→ltb, lt→ltb, ◌==◌, not,
  some, List, [], ◌∷◌, ◌++◌, length, take_all, drop, drop_prefix, append_assoc, append-nil,
  length-append, if◌then◌else◌, arith,
}
use libsignal_zig.Prelude.Bytes.{Bytes, slice}
use libsignal_zig.Prelude.Result.{ok}
use libsignal_zig.Crypto.{Crypto}
use libsignal_zig.IncrementalMac.{
  Incremental, incremental_init, incremental_update, incremental_finalize, mac_len, padded,
}
use libsignal_zig.IncrementalMac.Whole.{
  incremental_update_lem, macs_of, macs_of-nil, macs_of-append,
}
use libsignal_zig.Ffi.{
  Outcome, success, ◌>>=◌, ◌>>◌, Pointer, Buffer, catch, non_null, refuse_if, abort_if,
}
use libsignal_zig.Ffi.ErrorCode.{ZigCode}

pub record SignalIncrementalMac : Type 0 where
  pub inner : Incremental
  pub macs_emitted : ℕ

unfoldable pub signal_incremental_mac_initialize :
    Buffer → ℕ → Outcome (Pointer SignalIncrementalMac)
signal_incremental_mac_initialize key chunk_size = do
  refuse_if (not (length key == 32)) ZigCode.invalid_argument
  success (some (record { inner = incremental_init key chunk_size; macs_emitted = 0 }))

module _ (crypto : Crypto) where
  -- `all_macs[already..]` is checked.
  unfoldable pub signal_incremental_mac_update :
      Pointer SignalIncrementalMac
      → Buffer
      → ℕ
      → ℕ
      → Outcome (Buffer × Pointer SignalIncrementalMac)
  signal_incremental_mac_update mac bytes offset len = do
    obj ← non_null mac
    refuse_if (ltb (length bytes) (offset + len)) ZigCode.invalid_argument
    inner ← catch (incremental_update crypto obj.inner (slice offset len bytes))
    let already = obj.macs_emitted * mac_len
    abort_if (ltb (length inner.macs) already)
    let obj' : SignalIncrementalMac = record {
      inner = inner;
      macs_emitted = length inner.macs / mac_len;
    }
    success (drop already inner.macs, some obj')

  unfoldable pub signal_incremental_mac_finalize :
      Pointer SignalIncrementalMac → Outcome (Buffer × Pointer SignalIncrementalMac)
  signal_incremental_mac_finalize mac = do
    obj ← non_null mac
    (all_macs, inner) ← catch (incremental_finalize crypto obj.inner)
    let already = obj.macs_emitted * mac_len
    let new_bytes = if ltb already (length all_macs) then drop already all_macs else []
    let obj' : SignalIncrementalMac = record obj { inner = inner }
    success (new_bytes, some obj')

-- The bytes of the slices, one after another.
abbrev pub joined : List Bytes → Bytes
joined [] = []
joined (d ∷ ds) = d ++ joined ds

module _ (crypto : Crypto) where
  -- What a caller collects that feeds slices, whole, and finalizes.
  unfoldable pub collect : Pointer SignalIncrementalMac → List Bytes → Outcome Bytes
  collect mac [] = do (last, mac') ← signal_incremental_mac_finalize crypto mac; success last
  collect mac (d ∷ ds) = do
    (new, mac') ← signal_incremental_mac_update crypto mac d 0 (length d)
    rest ← collect mac' ds
    success (new ++ rest)

  chunks_back : (n idx : ℕ) → n ≡ idx * mac_len → n / mac_len ≡ idx
  chunks_back n idx e = omega (arith, e)

  update_lem :
      (s s' : Incremental) (macs new d : Bytes) (idx idx' : ℕ)
      → incremental_update crypto s d ≡ ok s'
      → s'.macs ≡ macs ++ new
      → length macs ≡ idx * mac_len
      → length s'.macs ≡ idx' * mac_len
      → signal_incremental_mac_update crypto
          (some (record { inner = s; macs_emitted = idx }))
          d
          0
          (length d)
        ≡ success (new, some (record { inner = s'; macs_emitted = idx' }))
  unfolding signal_incremental_mac_update
  update_lem s s' macs new d idx idx' run grown size size' =
      let back = chunks_back (length s'.macs) idx' size' in
      let kept : drop (idx * mac_len) s'.macs ≡ new =
        rw grown (drop_prefix (idx * mac_len) macs new size) in
      rw (
        le→ltb (length d) (0 + length d) (omega arith),
        take_all (length d) d refl,
        run,
        le→ltb (length s'.macs) (idx * mac_len)
            (omega (arith, ap (λ (m : Bytes). length m) grown, length-append macs new, size)),
        kept,
        back,
      )

  finalize_lem :
      (key : Bytes) (chunk_size : ℕ) (buf macs : Bytes) (idx : ℕ)
      → length macs ≡ idx * mac_len
      → (last : Bytes) × (s' : Incremental) × (mac' : Pointer SignalIncrementalMac)
        × (incremental_finalize crypto
              (record { key = key; chunk_size = chunk_size; buf = buf; macs = macs })
            ≡ ok (macs ++ last, s'))
        × (signal_incremental_mac_finalize crypto (
              some (record {
                inner = record { key = key; chunk_size = chunk_size; buf = buf; macs = macs };
                macs_emitted = idx;
              }))
            ≡ success (last, mac'))
  unfolding incremental_finalize signal_incremental_mac_finalize
  finalize_lem key chunk_size buf macs idx size =
      let s' : Incremental = record { key = key; chunk_size = chunk_size; buf = []; macs = [] } in
      let mac' : SignalIncrementalMac = record { inner = s'; macs_emitted = idx } in
      elim (Bool-cases (length buf == 0)) [
        | inl empty ↦ (
          [],
          s',
          some mac',
          rw (empty, append-nil macs),
          rw (empty, le→ltb (idx * mac_len) (length macs) (omega (arith, size))),
        )
        | inr left ↦
            let h = crypto.hmac key (padded chunk_size buf) in
            let sized = crypto.length-hmac key (padded chunk_size buf) in
            (
              h,
              s',
              some mac',
              rw left,
              rw (
                left,
                lt→ltb (idx * mac_len) (length (macs ++ h))
                    (omega (arith, length-append macs h, sized, size)),
                drop_prefix (idx * mac_len) macs h size,
              ),
            )
      ]

  collect_lem :
      (key : Bytes) (chunk_size : ℕ) (ds : List Bytes) (buf macs : Bytes) (idx : ℕ)
      → length buf < chunk_size
      → length macs ≡ idx * mac_len
      → (out : Bytes) × (s' : Incremental) × (collect
            (some (record {
              inner = record { key = key; chunk_size = chunk_size; buf = buf; macs = macs };
              macs_emitted = idx;
            }))
            ds
          ≡ success out)
        × (macs_of crypto
              (record { key = key; chunk_size = chunk_size; buf = buf; macs = macs })
              (joined ds)
            ≡ ok (macs ++ out, s'))
  unfolding collect
  collect_lem key chunk_size [] buf macs idx room size =
      let s : Incremental = record { key = key; chunk_size = chunk_size; buf = buf; macs = macs } in
      let (last, s', mac', whole, given) = finalize_lem key chunk_size buf macs idx size in
      (last, s', rw given, macs_of-nil crypto s ∙ whole)
  collect_lem key chunk_size (d ∷ ds) buf macs idx room size =
      let s : Incremental = record { key = key; chunk_size = chunk_size; buf = buf; macs = macs } in
      let (buf', new, idx', run, size', room') =
        incremental_update_lem crypto key chunk_size buf macs d idx room size in
      let s₁ : Incremental = record {
        key = key;
        chunk_size = chunk_size;
        buf = buf';
        macs = macs ++ new;
      } in
      let (out, s', given, whole) =
        collect_lem key chunk_size ds buf' (macs ++ new) idx' room' size' in
      (
        new ++ out,
        s',
        rw (update_lem s s₁ macs new d idx idx' run refl size size', given),
        macs_of-append crypto s s₁ d (joined ds) room run
            ∙ whole
            ∙ (λ i. ok (append_assoc macs new out i, s')),
      )

-- However a stream is cut into slices, a caller that feeds them, with chunks of at least one byte and
-- a key of 32, and finalizes, is given in pieces the MACs of the whole stream.
pub collect_whole :
    (crypto : Crypto) (key : Bytes) (chunk_size : ℕ) (ds : List Bytes)
    → length key ≡ 32
    → 0 < chunk_size
    → (macs : Bytes) × (s' : Incremental) × ((signal_incremental_mac_initialize key chunk_size
          >>= λ mac. collect crypto mac ds)
        ≡ success macs)
      × (macs_of crypto (incremental_init key chunk_size) (joined ds) ≡ ok (macs, s'))
unfolding signal_incremental_mac_initialize
collect_whole crypto key chunk_size ds sized room =
    let (out, s', given, whole) = collect_lem crypto key chunk_size ds [] [] 0 room refl in
    (out, s', rw (sized, given), whole)
