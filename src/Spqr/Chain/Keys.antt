-- ===== src/Spqr/Chain/Keys.antt =====
-- One direction of an epoch: the key of each index, by sending in order and by jumping ahead.
use native.Mathlib.Decide.{dec_lt}
use libsignal_zig.Prelude.{
  [], ℕ, zero, suc, ◌+◌, ◌-◌, ◌^◌, ◌≤◌, ◌<◌, ◌≡◌, ◌++◌, ltb, leb, if◌then◌else◌, lt→ltb, le→ltb,
  lt→leb, le→leb, replicate, arith,
}
use libsignal_zig.Prelude.Bytes.{Bytes, ascii, slice, write_be}
use libsignal_zig.Prelude.Result.{Result, ok, err, key_already_used, key_jump}
use libsignal_zig.Crypto.{Crypto}
use libsignal_zig.Spqr.Chain.{EpochDir, KeyResult, next_key, skip_to, key_at}

-- What step `n` expands from the seed before it.
unfoldable pub step_output : Crypto → ℕ → Bytes → Bytes
unfolding ascii
step_output crypto n seed =
    crypto.hkdf_expand 64 (write_be 4 n ++ ascii "Signal PQ Ratchet V1 Chain Next")
      (crypto.hkdf_extract (replicate 32 0) seed)

-- The seed behind `n` steps from the start of an epoch, and the key of index `n`.
unfoldable pub seed_at : Crypto → Bytes → ℕ → Bytes
seed_at crypto start zero = start
seed_at crypto start (suc n) = slice 0 32 (step_output crypto (suc n) (seed_at crypto start n))

unfoldable pub key_of : Crypto → Bytes → ℕ → Bytes
key_of crypto start zero = []
key_of crypto start (suc n) = slice 32 32 (step_output crypto (suc n) (seed_at crypto start n))

abbrev pub dir_at : Crypto → Bytes → ℕ → EpochDir
dir_at crypto start n = record { ctr = n; next = seed_at crypto start n }

abbrev pub result_at : Crypto → Bytes → ℕ → KeyResult
result_at crypto start n = record { idx = n; key = key_of crypto start n }

module _ (crypto : Crypto) (start : Bytes) where
  pub next_key_lem :
      (n : ℕ)
      → n + 1 < 2 ^ 32
      → next_key crypto (dir_at crypto start n)
        ≡ ok (result_at crypto start (suc n), dir_at crypto start (suc n))
  unfolding next_key step_output seed_at key_of
  next_key_lem n h =
      let one_more : n + 1 ≡ suc n = omega arith in rw (lt→leb (2 ^ 32) (n + 1) h, one_more)

  skip_to_lem :
      (rounds n index : ℕ)
      → n < index
      → index ≤ n + rounds
      → index < 2 ^ 32
      → skip_to crypto rounds index (dir_at crypto start n) ≡ ok (dir_at crypto start (index - 1))
  unfolding skip_to
  skip_to_lem zero n index low high small = absurd (omega arith)
  skip_to_lem (suc rounds) n index low high small = elim (dec_lt (suc n) index) [
    | yes more ↦ rw (
      lt→ltb (n + 1) index (omega arith),
      next_key_lem n (omega arith),
      skip_to_lem rounds (suc n) index more (omega arith) small,
    )
    | no last ↦
        let here : index - 1 ≡ n = omega arith in rw (le→ltb (n + 1) index (omega arith), here)
  ]

  -- `keyAt` with random access to the keys: what it returns and the counter behind it, from the
  -- start of the epoch.
  unfoldable pub key_at_reference : ℕ → ℕ → ℕ → Result (KeyResult × EpochDir)
  key_at_reference n index max_jump =
      if leb index n
      then err key_already_used
      else if ltb (n + max_jump) index
      then err key_jump
      else ok (result_at crypto start index, dir_at crypto start index)

  pub key_at_ahead :
      (n index max_jump : ℕ)
      → n + max_jump < 2 ^ 32
      → index < 2 ^ 32
      → n < index
      → index ≤ n + max_jump
      → key_at crypto index max_jump (dir_at crypto start n)
        ≡ ok (result_at crypto start index, dir_at crypto start index)
  unfolding key_at
  key_at_ahead n index max_jump fits small low high =
      let last : suc (index - 1) ≡ index = omega arith in
      rw (
        lt→leb index n low,
        lt→leb (2 ^ 32) (n + max_jump) fits,
        le→ltb (n + max_jump) index high,
        skip_to_lem (index - n) n index low (omega arith) small,
        next_key_lem (index - 1) (omega arith),
        last,
      )

  -- From an epoch's start, whichever way the counter came to `n`, and for u32 numbers whose sum
  -- with `max_jump` is one too: `keyAt` gives the key of an index above the counter by at most
  -- `max_jump`, which depends on the start and the index alone, and leaves the counter there; it
  -- refuses an index that the counter has reached as used, and one further ahead as a jump.
  pub key_at-key_at_reference :
      (n index max_jump : ℕ)
      → n + max_jump < 2 ^ 32
      → index < 2 ^ 32
      → key_at crypto index max_jump (dir_at crypto start n) ≡ key_at_reference n index max_jump
  unfolding key_at_reference
  key_at-key_at_reference n index max_jump fits small = elim (dec_lt n index) [
    | no used ↦ unfold key_at in rw (le→leb index n (omega arith))
    | yes low ↦ elim (dec_lt (n + max_jump) index) [
      | yes high ↦
          unfold key_at in
          rw (
            lt→leb index n low,
            lt→leb (2 ^ 32) (n + max_jump) fits,
            lt→ltb (n + max_jump) index high,
          )
      | no near ↦ rw (
        key_at_ahead n index max_jump fits small low (omega arith),
        lt→leb index n low,
        le→ltb (n + max_jump) index (omega arith),
      )
    ]
  ]
