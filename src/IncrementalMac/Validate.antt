-- ===== src/IncrementalMac/Validate.antt =====
-- What src/incremental_mac.zig's sender computes, its receiver accepts.
use libsignal_zig.Prelude.{
  ℕ, suc, ◌+◌, ◌*◌, ◌<◌, ◌≡◌, refl, sym, ap, ◌∙◌, Bool-cases, inl, inr, ◌==◌, le→ltb, [], ◌∷◌, ◌++◌,
  length, take_prefix, drop_prefix, append_assoc, append-nil, length-append, eql_refl, arith,
}
use libsignal_zig.Prelude.Bytes.{Bytes, slice}
use libsignal_zig.Prelude.Result.{Result, ok, err, panic, stuck, ◌>>=◌, bind_assoc}
use libsignal_zig.Crypto.{Crypto}
use libsignal_zig.IncrementalMac.{
  Incremental, Validating, fill_loop, padded, mac_len, flush_chunk, verify_chunk, incremental_init,
  incremental_update, incremental_finalize, validating_init, validating_update, validating_finalize,
}
use libsignal_zig.IncrementalMac.Chunks.{feed, fill_loop-feed, feed-append, feed-room}

bind_congr :
    {A B : Type 0} (r : Result A) (f g : A → Result B)
    → ((a : A) → r ≡ ok a → f a ≡ g a)
    → (r >>= f) ≡ (r >>= g)
bind_congr panic f g h = refl
bind_congr stuck f g h = refl
bind_congr (err e) f g h = refl
bind_congr (ok a) f g h = h a refl

module _ {A : Type 0} (chunk_size : ℕ) (flush : Bytes → A → Result A) where
  fill_loop-append :
      (buf : Bytes) (acc : A) (xs ys : Bytes)
      → length buf < chunk_size
      → fill_loop chunk_size flush (length (xs ++ ys)) buf acc (xs ++ ys) ≡ (
          fill_loop chunk_size flush (length xs) buf acc xs >>= λ p.
          fill_loop chunk_size flush (length ys) p.0 p.1 ys)
  fill_loop-append buf acc xs ys room =
      fill_loop-feed chunk_size flush (length (xs ++ ys)) buf acc (xs ++ ys) (omega arith) room
      ∙ feed-append chunk_size flush buf acc xs ys
      ∙ bind_congr (feed chunk_size flush buf acc xs) (λ p. feed chunk_size flush p.0 p.1 ys)
          (λ p. fill_loop chunk_size flush (length ys) p.0 p.1 ys)
          (λ p run. sym (
            fill_loop-feed chunk_size flush (length ys) p.0 p.1 ys (omega arith)
              (feed-room chunk_size flush buf acc xs p room run)))
      ∙ sym (
          ap
            (λ (r : Result (Bytes × A)).
              r >>= λ p. fill_loop chunk_size flush (length ys) p.0 p.1 ys)
            (fill_loop-feed chunk_size flush (length xs) buf acc xs (omega arith) room))

-- How a stream is cut into the slices that the sender is fed does not matter: two updates, on a
-- state whose buffer has room, are one with both slices.
pub incremental_update-append :
    (crypto : Crypto) (s : Incremental) (xs ys : Bytes)
    → length s.buf < s.chunk_size
    → incremental_update crypto s (xs ++ ys)
      ≡ (incremental_update crypto s xs >>= λ s'. incremental_update crypto s' ys)
unfolding incremental_update
incremental_update-append crypto s xs ys room =
    rw
      (fill_loop-append s.chunk_size (flush_chunk crypto s.key s.chunk_size) s.buf s.macs xs ys
        room)
      (simp bind_assoc)

abbrev Starts : Bytes → Bytes → Type 0
Starts xs e = (rest : Bytes) × (e ≡ xs ++ rest)

slice_after :
    (xs h rest e : Bytes) (n : ℕ)
    → e ≡ (xs ++ h) ++ rest
    → length xs ≡ n
    → length h ≡ 32
    → slice n 32 e ≡ h
slice_after xs h rest e n split size full =
    rw (split, append_assoc xs h rest, drop_prefix n xs (h ++ rest) size)
      (take_prefix 32 h rest full)

module _ (crypto : Crypto) (key : Bytes) (chunk_size : ℕ) where
  -- A receiver's check of a full buffer, where the expected MACs go on with the buffer's.
  verify_chunk_lem :
      (macs rest expected buf : Bytes) (idx : ℕ)
      → length macs ≡ idx * mac_len
      → expected ≡ (macs ++ crypto.hmac key (padded chunk_size buf)) ++ rest
      → verify_chunk crypto key chunk_size expected buf idx ≡ ok (idx + 1)
  verify_chunk_lem macs rest expected buf idx size split =
      let h = crypto.hmac key (padded chunk_size buf) in
      let sized = crypto.length-hmac key (padded chunk_size buf) in
      rw (
        le→ltb (length expected) (idx * mac_len + mac_len) (
            omega (
              arith,
              ap (λ (e : Bytes). length e) split,
              length-append (macs ++ h) rest,
              length-append macs h,
              sized,
              size,
            )),
        slice_after macs h rest expected (idx * mac_len) split size sized,
        eql_refl h,
      )

  -- The sender's and the receiver's loop side by side.
  pub both_feed :
      (data_bytes buf macs : Bytes) (idx : ℕ)
      → length macs ≡ idx * mac_len
      → (buf' : Bytes) × (out : Bytes) × (idx' : ℕ) × (feed chunk_size
            (flush_chunk crypto key chunk_size)
            buf
            macs
            data_bytes
          ≡ ok (buf', out))
        × (length out ≡ idx' * mac_len)
        × Starts macs out
        × ((expected : Bytes)
            → Starts out expected
            → feed chunk_size (verify_chunk crypto key chunk_size expected) buf idx data_bytes
              ≡ ok (buf', idx'))
  unfolding feed
  both_feed [] buf macs idx size =
      (buf, macs, idx, refl, size, ([], sym (append-nil macs)), λ expected starts. refl)
  both_feed (b ∷ bs) buf macs idx size = elim (Bool-cases (suc (length buf) == chunk_size)) [
    | inl full ↦
        let h = crypto.hmac key (padded chunk_size (buf ++ b ∷ [])) in
        let (buf', out, idx', sent, sized, (rest, split), received) =
          both_feed bs [] (macs ++ h) (idx + 1) (
            omega (
              arith,
              length-append macs h,
              crypto.length-hmac key (padded chunk_size (buf ++ b ∷ [])),
              size,
            )) in
        (
          buf',
          out,
          idx',
          rw full sent,
          sized,
          (h ++ rest, split ∙ append_assoc macs h rest),
          λ expected (more, starts).
              rw
                (
                  full,
                  verify_chunk_lem macs (rest ++ more) expected (buf ++ b ∷ []) idx size (
                      starts
                      ∙ ap (λ (o : Bytes). o ++ more) split
                      ∙ append_assoc (macs ++ h) rest more),
                )
                (received expected (more, starts)),
        )
    | inr short ↦
        let (buf', out, idx', sent, sized, starts, received) =
          both_feed bs (buf ++ b ∷ []) macs idx size in
        (
          buf',
          out,
          idx',
          rw short sent,
          sized,
          starts,
          λ expected h. rw short (received expected h),
        )
  ]

-- For chunks of at least one byte, the sender finishes, whatever the stream, and the receiver with
-- the sender's MACs accepts the stream.
pub validating-incremental :
    (crypto : Crypto) (key : Bytes) (chunk_size : ℕ) (data_bytes : Bytes)
    → 0 < chunk_size
    → (macs : Bytes) × (s' : Incremental) × (v' : Validating) × ((incremental_update crypto
            (incremental_init key chunk_size)
            data_bytes
          >>= incremental_finalize crypto)
        ≡ ok (macs, s'))
      × ((validating_update crypto (validating_init key chunk_size macs) data_bytes
            >>= validating_finalize crypto)
          ≡ ok v')
unfolding incremental_update incremental_finalize validating_update validating_finalize
validating-incremental crypto key chunk_size data_bytes room =
    let (buf, out, idx, sent, size, starts, received) =
      both_feed crypto key chunk_size data_bytes [] [] 0 refl in
    let h = crypto.hmac key (padded chunk_size buf) in
    let sender =
      fill_loop-feed chunk_size (flush_chunk crypto key chunk_size) (length data_bytes) [] []
        data_bytes (omega arith) room
      ∙ sent in
    elim (Bool-cases (length buf == 0)) [
      | inl empty ↦ (
        out,
        record { key = key; chunk_size = chunk_size; buf = []; macs = [] },
        record {
          key = key;
          chunk_size = chunk_size;
          expected_macs = out;
          buf = [];
          chunk_idx = idx;
        },
        rw (sender, empty),
        rw (
          fill_loop-feed chunk_size (verify_chunk crypto key chunk_size out) (length data_bytes) []
                0 data_bytes (omega arith) room
              ∙ received out ([], sym (append-nil out)),
          empty,
        ),
      )
      | inr left ↦ (
        out ++ h,
        record { key = key; chunk_size = chunk_size; buf = []; macs = [] },
        record {
          key = key;
          chunk_size = chunk_size;
          expected_macs = out ++ h;
          buf = [];
          chunk_idx = idx + 1;
        },
        rw (sender, left),
        rw (
          fill_loop-feed chunk_size (verify_chunk crypto key chunk_size (out ++ h))
                (length data_bytes) [] 0 data_bytes (omega arith) room
              ∙ received (out ++ h) (h, refl),
          left,
          verify_chunk_lem crypto key chunk_size out [] (out ++ h) buf idx size
              (sym (append-nil (out ++ h))),
        ),
      )
    ]
