-- ===== src/Session/Chain.antt =====
-- One receiver chain: which key a counter gets, what is cached on the way, and the invariant.
use native.Mathlib.Decide.{dec_lt}
use libsignal_zig.Prelude.{
  ℕ, zero, suc, ◌+◌, ◌-◌, ◌^◌, ◌≤◌, ◌<◌, ◌≡◌, refl, ap, Option, none, List, [], ◌∷◌, ◌++◌, length,
  drop, lt→ltb, le→ltb, lt→leb, le→leb, arith, length-append, length-drop, append_assoc, append-nil,
}
use libsignal_zig.Prelude.Bytes.{Bytes}
use libsignal_zig.Prelude.Result.{ok, err, panic, duplicate_message, invalid_message}
use libsignal_zig.Crypto.{Crypto}
use libsignal_zig.Curve.{PublicKey}
use libsignal_zig.Kdf.{next_chain_key}
use libsignal_zig.Ratchet.{ChainKey, message_keys, advance}
use libsignal_zig.Session.{
  SkippedMessageKey, ReceiverChain, max_forward_jumps, max_message_keys, drop_oldest, take_skipped,
  skip_step, skip_loop, compute_message_keys, chain_message_keys,
}

-- The symmetric ratchet as it is specified: `n` steps from a chain key.
unfoldable pub ratchet : Crypto → ℕ → ChainKey → ChainKey
ratchet crypto zero c = c
ratchet crypto (suc n) c =
    ratchet crypto n (record { key = next_chain_key crypto c.key; index = c.index + 1 })

-- The cache entries for `n` counters from the chain key on.
unfoldable pub skipped : Crypto → Bytes → ℕ → ChainKey → List SkippedMessageKey
skipped crypto rk zero c = []
skipped crypto rk (suc n) c =
    record { ratchet_key = rk; counter = c.index; keys = message_keys crypto c none }
    ∷ skipped crypto rk n (record { key = next_chain_key crypto c.key; index = c.index + 1 })

-- The newest `max` items.
abbrev pub newest {ℓ} : {A : Type ℓ} → ℕ → List A → List A
newest max xs = drop (length xs - max) xs

drop-append {ℓ} :
    {A : Type ℓ} (n : ℕ) (xs ys : List A) → n ≤ length xs → drop n (xs ++ ys) ≡ drop n xs ++ ys
drop-append zero xs ys h = refl
drop-append (suc n) [] ys h = absurd (omega arith)
drop-append (suc n) (x ∷ xs) ys h = drop-append n xs ys (omega arith)

drop_one_more {ℓ} :
    {A : Type ℓ} (k : ℕ) (xs ys : List A)
    → k < length xs
    → drop 1 (drop k xs ++ ys) ≡ drop (suc k) xs ++ ys
drop_one_more k [] ys h = absurd (omega arith)
drop_one_more zero (x ∷ xs) ys h = refl
drop_one_more (suc k) (x ∷ xs) ys h = drop_one_more k xs ys (omega arith)

pub newest_all {ℓ} : {A : Type ℓ} (max : ℕ) (xs : List A) → length xs ≤ max → newest max xs ≡ xs
newest_all max xs h = let none_over : length xs - max ≡ 0 = omega arith in rw none_over

-- Pushing and then dropping the oldest keeps the newest.
drop_oldest-newest {ℓ} :
    {A : Type ℓ} (max : ℕ) (xs : List A) (x : A)
    → 1 ≤ max
    → drop_oldest max (newest max xs ++ x ∷ []) ≡ newest max (xs ++ x ∷ [])
unfolding drop_oldest
drop_oldest-newest max xs x h = elim (dec_lt (length xs) max) [
  | yes few ↦ rw (
    newest_all max xs (omega arith),
    newest_all max (xs ++ x ∷ []) (omega (arith, grown)),
    le→ltb max (length (xs ++ x ∷ [])) (omega (arith, grown)),
  )
  | no many ↦
      let k = length xs - max in
      let one_more : suc k ≡ length (xs ++ x ∷ []) - max = omega (arith, grown) in
      rw
        (
          lt→ltb max (length (drop k xs ++ x ∷ []))
              (omega (arith, length-append (drop k xs) (x ∷ []), length-drop k xs)),
          drop_one_more k xs (x ∷ []) (omega arith),
          ← drop-append (suc k) xs (x ∷ []) (omega arith),
        )
        (ap (λ (n : ℕ). drop n (xs ++ x ∷ [])) one_more)
]
  where
    grown : length (xs ++ x ∷ []) ≡ length xs + 1
    grown = length-append xs (x ∷ [])

abbrev pub chain_of : PublicKey → ChainKey → List SkippedMessageKey → ReceiverChain
chain_of k c mks = record { ratchet_key = k; chain_key = c; message_keys = mks }

module _ (crypto : Crypto) where
  abbrev pub next : ChainKey → ChainKey
  next c = record { key = next_chain_key crypto c.key; index = c.index + 1 }

  pub advance_lem : (c : ChainKey) → c.index + 1 < 2 ^ 32 → advance crypto c ≡ ok (next c)
  unfolding advance
  advance_lem c h = rw (lt→leb (2 ^ 32) (c.index + 1) h)

  pub index-ratchet : (n : ℕ) (c : ChainKey) → (ratchet crypto n c).index ≡ c.index + n
  unfolding ratchet
  index-ratchet zero c = omega arith
  index-ratchet (suc n) c = omega (arith, index-ratchet n (next c))

  pub next-ratchet : (n : ℕ) (c : ChainKey) → next (ratchet crypto n c) ≡ ratchet crypto (suc n) c
  unfolding ratchet
  next-ratchet zero c = refl
  next-ratchet (suc n) c = next-ratchet n (next c)

  abbrev pub entry : Bytes → ChainKey → SkippedMessageKey
  entry rk c = record { ratchet_key = rk; counter = c.index; keys = message_keys crypto c none }

  skip_step_lem :
      (k : PublicKey) (rk : Bytes) (c : ChainKey) (base : List SkippedMessageKey)
      → c.index + 1 < 2 ^ 32
      → skip_step crypto rk (chain_of k c (newest max_message_keys base))
        ≡ ok (chain_of k (next c) (newest max_message_keys (base ++ entry rk c ∷ [])))
  unfolding skip_step
  skip_step_lem k rk c base h =
      rw (advance_lem c h, drop_oldest-newest max_message_keys base (entry rk c) (omega arith))

  -- The loop caches a key for each counter that it passes, and keeps the newest 2000.
  skip_loop_lem :
      (n : ℕ) (k : PublicKey) (rk : Bytes) (counter : ℕ) (c : ChainKey)
      (base : List SkippedMessageKey)
      → c.index + n ≡ counter
      → counter < 2 ^ 32
      → skip_loop crypto n rk counter (chain_of k c (newest max_message_keys base))
        ≡ ok (
            chain_of k
              (ratchet crypto n c)
              (newest max_message_keys (base ++ skipped crypto rk n c)))
  unfolding skip_loop ratchet skipped
  skip_loop_lem zero k rk counter c base e h = rw (append-nil, le→ltb c.index counter (omega arith))
  skip_loop_lem (suc n) k rk counter c base e h =
      rw
        (
          lt→ltb c.index counter (omega arith),
          skip_step_lem k rk c base (omega arith),
          skip_loop_lem n k rk counter (next c) (base ++ entry rk c ∷ []) (omega arith) h,
        )
        (simp append_assoc)

  module _ (k : PublicKey) (rk : Bytes) (c : ChainKey) (mks : List SkippedMessageKey) where
    -- A counter that is not cached, from the chain's index on and at most 25000 ahead, gets the
    -- key of its own place in the ratchet, mixed with the post-quantum key. The keys of the
    -- counters before it are cached without one, the newest 2000 of all cached keys stay, and
    -- the chain goes on right behind the counter.
    pub chain_message_keys_forward :
        (counter : ℕ) (pqr_key : Option Bytes)
        → take_skipped rk counter mks ≡ none
        → length mks ≤ max_message_keys
        → c.index ≤ counter
        → counter ≤ c.index + max_forward_jumps
        → counter + 1 < 2 ^ 32
        → let n = counter - c.index in
          chain_message_keys crypto (chain_of k c mks) rk counter pqr_key
          ≡ ok (
            message_keys crypto (ratchet crypto n c) pqr_key,
            chain_of k
                (ratchet crypto (suc n) c)
                (newest max_message_keys (mks ++ skipped crypto rk n c)),
          )
    unfolding chain_message_keys compute_message_keys
    chain_message_keys_forward counter pqr_key absent bounded low high fits =
        let n = counter - c.index in
        let looped =
          rw (newest_all max_message_keys mks bounded) at
            (skip_loop_lem n k rk counter c mks (omega arith) (omega arith)) in
        rw (
          absent,
          le→ltb counter c.index low,
          le→ltb max_forward_jumps n (omega arith),
          looped,
          advance_lem (ratchet crypto n c) (omega (arith, index-ratchet n c)),
          next-ratchet n c,
        )

    -- A counter behind the chain that is not cached was used before, or dropped.
    pub chain_message_keys_behind :
        (counter : ℕ) (pqr_key : Option Bytes)
        → take_skipped rk counter mks ≡ none
        → counter < c.index
        → chain_message_keys crypto (chain_of k c mks) rk counter pqr_key ≡ err duplicate_message
    unfolding chain_message_keys compute_message_keys
    chain_message_keys_behind counter pqr_key absent low = rw (absent, lt→ltb counter c.index low)

    -- A counter more than 25000 ahead is refused.
    pub chain_message_keys_jump :
        (counter : ℕ) (pqr_key : Option Bytes)
        → take_skipped rk counter mks ≡ none
        → c.index + max_forward_jumps < counter
        → chain_message_keys crypto (chain_of k c mks) rk counter pqr_key ≡ err invalid_message
    unfolding chain_message_keys compute_message_keys
    chain_message_keys_jump counter pqr_key absent high = rw (
      absent,
      le→ltb counter c.index (omega arith),
      lt→ltb max_forward_jumps (counter - c.index) (omega arith),
    )

    -- The largest u32 as a counter overflows the index that would follow it.
    pub chain_message_keys_last :
        (counter : ℕ) (pqr_key : Option Bytes)
        → take_skipped rk counter mks ≡ none
        → length mks ≤ max_message_keys
        → c.index ≤ counter
        → counter ≤ c.index + max_forward_jumps
        → counter + 1 ≡ 2 ^ 32
        → chain_message_keys crypto (chain_of k c mks) rk counter pqr_key ≡ panic
    unfolding chain_message_keys compute_message_keys advance
    chain_message_keys_last counter pqr_key absent bounded low high last =
        let n = counter - c.index in
        let looped =
          rw (newest_all max_message_keys mks bounded) at
            (skip_loop_lem n k rk counter c mks (omega arith) (omega arith)) in
        rw (
          absent,
          le→ltb counter c.index low,
          le→ltb max_forward_jumps n (omega arith),
          looped,
          le→leb (2 ^ 32) ((ratchet crypto n c).index + 1) (omega (arith, index-ratchet n c)),
        )
