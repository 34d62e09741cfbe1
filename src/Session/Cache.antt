-- ===== src/Session/Cache.antt =====
-- The cache of skipped keys in a receiver chain, and the invariant that rules out a second use.
use native.Mathlib.Decide.{dec_lt}
use libsignal_zig.Prelude.{
  ℕ, zero, suc, ◌+◌, ◌-◌, ◌^◌, ◌≤◌, ◌<◌, ◌≡◌, refl, sym, ap, ◌∙◌, Option, none, some, List, [], ◌∷◌,
  ◌++◌, length, drop, ◌==◌, if◌then◌else◌, arith, length-drop, inl, inr, Option-cases,
}
use libsignal_zig.Prelude.Bytes.{Bytes}
use libsignal_zig.Prelude.Result.{ok, ok_injective}
use libsignal_zig.Crypto.{Crypto}
use libsignal_zig.Ratchet.{MessageKeys, ChainKey}
use libsignal_zig.Session.{
  SkippedMessageKey, ReceiverChain, max_forward_jumps, max_message_keys, rotate_last, swap_front,
  take_skipped, chain_message_keys,
}
use libsignal_zig.Session.Chain.{
  ratchet, skipped, newest, next, index-ratchet, chain_message_keys_forward,
  chain_message_keys_behind, chain_message_keys_jump, chain_message_keys_last,
}

-- How many cached keys have a counter.
abbrev pub count : ℕ → List SkippedMessageKey → ℕ
count d [] = 0
count d (e ∷ es) = (if e.counter == d then 1 else 0) + count d es

-- Behind every cached counter, each of which is cached once; and the cache is bounded.
pub record IsValid (rc : ReceiverChain) : Type 0 where
  pub once : (d : ℕ) → count d rc.message_keys ≤ 1
  pub behind : (d : ℕ) → rc.chain_key.index ≤ d → count d rc.message_keys ≡ 0
  pub bounded : length rc.message_keys ≤ max_message_keys

count-append :
    (d : ℕ) (xs ys : List SkippedMessageKey) → count d (xs ++ ys) ≡ count d xs + count d ys
count-append d [] ys = omega arith
count-append d (x ∷ xs) ys = omega (arith, count-append d xs ys)

count-drop : (d n : ℕ) (xs : List SkippedMessageKey) → count d (drop n xs) ≤ count d xs
count-drop d zero xs = omega arith
count-drop d (suc n) [] = omega arith
count-drop d (suc n) (x ∷ xs) = omega (arith, count-drop d n xs)

count-swap_front :
    (d : ℕ) (x : SkippedMessageKey) (xs : List SkippedMessageKey)
    → (count d (swap_front x xs) ≡ count d (x ∷ xs)) × (length (swap_front x xs) ≡ suc (length xs))
unfolding swap_front
count-swap_front d x [] = (refl, refl)
count-swap_front d x (y ∷ ys) = (omega arith, refl)

count-rotate_last :
    (d : ℕ) (xs : List SkippedMessageKey)
    → (count d (rotate_last xs) ≡ count d xs) × (length (rotate_last xs) ≡ length xs)
unfolding rotate_last
count-rotate_last d [] = (refl, refl)
count-rotate_last d (x ∷ []) = (refl, refl)
count-rotate_last d (x ∷ y ∷ ys) =
    omega (arith, count-swap_front d x (rotate_last (y ∷ ys)), count-rotate_last d (y ∷ ys))

-- A key that is found is taken out of the cache, and nothing else is.
count-take_skipped :
    (d : ℕ) (rk : Bytes) (counter : ℕ) (xs ys : List SkippedMessageKey) (mk : MessageKeys)
    → take_skipped rk counter xs ≡ some (mk, ys)
    → (count d ys + (if counter == d then 1 else 0) ≡ count d xs) × (length ys + 1 ≡ length xs)
unfolding take_skipped
count-take_skipped d rk counter [] ys mk e = cc
count-take_skipped d rk counter (x ∷ xs) ys mk e =
    elim (Option-cases (take_skipped rk counter xs)) [
      | inl absent ↦ ground (arith, count-rotate_last d xs)
      | inr ((mk', zs), found) ↦
          ground (arith, count-rotate_last d xs, count-take_skipped d rk counter xs zs mk' found)
    ]

-- Nothing is found where no cached key has the counter.
pub take_skipped-none :
    (rk : Bytes) (counter : ℕ) (xs : List SkippedMessageKey)
    → count counter xs ≡ 0
    → take_skipped rk counter xs ≡ none
unfolding take_skipped
take_skipped-none rk counter [] h = refl
take_skipped-none rk counter (x ∷ xs) h = ground (arith, take_skipped-none rk counter xs)

-- What a success leaves behind: the counter is used up, and the invariant holds.
pub record IsUsed (rc' : ReceiverChain) (counter : ℕ) : Type 0 where
  pub valid : IsValid rc'
  pub passed : counter < rc'.chain_key.index
  pub gone : count counter rc'.message_keys ≡ 0

module _ (crypto : Crypto) (rk : Bytes) where
  -- The keys that the loop caches have the counters from the chain's index on, each once.
  count-skipped :
      (d n : ℕ) (c : ChainKey)
      → (count d (skipped crypto rk n c) ≤ 1)
        × (d < c.index → count d (skipped crypto rk n c) ≡ 0)
        × (c.index + n ≤ d → count d (skipped crypto rk n c) ≡ 0)
  unfolding skipped
  count-skipped d zero c = (omega arith, λ h. refl, λ h. refl)
  count-skipped d (suc n) c =
      let (once, early, late) = count-skipped d n (next crypto c) in
      (ground (arith, once, early), λ h. ground (arith, early), λ h. ground (arith, late))

  -- A success on a counter that is not cached comes from the branch that goes forward.
  ahead :
      (rc : ReceiverChain) (counter : ℕ) (pqr_key : Option Bytes) (mk : MessageKeys)
      (rc' : ReceiverChain)
      → length rc.message_keys ≤ max_message_keys
      → counter < 2 ^ 32
      → take_skipped rk counter rc.message_keys ≡ none
      → chain_message_keys crypto rc rk counter pqr_key ≡ ok (mk, rc')
      → let n = counter - rc.chain_key.index in
        (rc.chain_key.index ≤ counter)
        × (rc'.chain_key ≡ ratchet crypto (suc n) rc.chain_key)
        × (rc'.message_keys
            ≡ newest max_message_keys (rc.message_keys ++ skipped crypto rk n rc.chain_key))
        × (rc'.ratchet_key ≡ rc.ratchet_key)
  ahead rc counter pqr_key mk rc' bounded u absent e = elim (dec_lt counter c.index) [
    | yes low ↦ cc (chain_message_keys_behind crypto k rk c mks counter pqr_key absent low)
    | no reached ↦ elim (dec_lt (c.index + max_forward_jumps) counter) [
      | yes high ↦ cc (chain_message_keys_jump crypto k rk c mks counter pqr_key absent high)
      | no near ↦ elim (dec_lt (counter + 1) (2 ^ 32)) [
        | yes fits ↦
            let result = ok_injective (
              sym e
              ∙ chain_message_keys_forward crypto k rk c mks counter pqr_key absent bounded
                  (omega arith) (omega arith) fits) in
            (
              omega arith,
              ap (λ (p : MessageKeys × ReceiverChain). p.1.chain_key) result,
              ap (λ (p : MessageKeys × ReceiverChain). p.1.message_keys) result,
              ap (λ (p : MessageKeys × ReceiverChain). p.1.ratchet_key) result,
            )
        | no last ↦ cc (
            chain_message_keys_last crypto k rk c mks counter pqr_key absent bounded (omega arith)
              (omega arith) (omega arith))
      ]
    ]
  ]
    where
      open rc use {ratchet_key as k, chain_key as c, message_keys as mks}

  -- A cached key is given out as it was cached, and leaves the cache.
  pub chain_message_keys_cached :
      (rc : ReceiverChain) (counter : ℕ) (pqr_key : Option Bytes) (mk : MessageKeys)
      (mks : List SkippedMessageKey)
      → take_skipped rk counter rc.message_keys ≡ some (mk, mks)
      → chain_message_keys crypto rc rk counter pqr_key ≡ ok (mk, record rc { message_keys = mks })
  unfolding chain_message_keys
  chain_message_keys_cached rc counter pqr_key mk mks found = rw found

  IsUsed-cached :
      (rc : ReceiverChain) (counter : ℕ) (mk : MessageKeys) (mks : List SkippedMessageKey)
      → IsValid rc
      → take_skipped rk counter rc.message_keys ≡ some (mk, mks)
      → IsUsed (record rc { message_keys = mks }) counter
  IsUsed-cached rc counter mk mks valid found = record {
    valid = record {
      once = λ d. omega (arith, valid.once d, taken d);
      behind = λ d h. omega (arith, valid.behind d h, taken d);
      bounded = omega (arith, valid.bounded, taken 0);
    };
    passed = elim (dec_lt counter rc.chain_key.index) [
      | yes low ↦ low
      | no high ↦ ground (arith, valid.behind counter (omega arith), taken counter)
    ];
    gone = ground (arith, valid.once counter, taken counter);
  }
    where
      taken :
          (d : ℕ)
          → (count d mks + (if counter == d then 1 else 0) ≡ count d rc.message_keys)
            × (length mks + 1 ≡ length rc.message_keys)
      taken d = count-take_skipped d rk counter rc.message_keys mks mk found

  IsUsed-ahead :
      (rc : ReceiverChain) (counter : ℕ) (rc' : ReceiverChain)
      → IsValid rc
      → take_skipped rk counter rc.message_keys ≡ none
      → let n = counter - rc.chain_key.index in
        rc.chain_key.index ≤ counter
        → rc'.chain_key ≡ ratchet crypto (suc n) rc.chain_key
        → rc'.message_keys
          ≡ newest max_message_keys (rc.message_keys ++ skipped crypto rk n rc.chain_key)
        → IsUsed rc' counter
  IsUsed-ahead rc counter rc' valid absent low ec em = record {
    valid = record {
      once = λ d. elim (dec_lt d c.index) [
        | yes early ↦ omega (arith, total d, valid.once d, (count-skipped d n c).1 early)
        | no late ↦ omega (arith, total d, valid.behind d (omega arith), (count-skipped d n c).0)
      ];
      behind = λ d h. omega (
        arith,
        total d,
        reached,
        valid.behind d (omega (arith, reached)),
        (count-skipped d n c).2 (omega (arith, reached)),
      );
      bounded = rw em (omega (arith, length-drop (length all - max_message_keys) all));
    };
    passed = omega (arith, reached);
    gone = omega (
      arith,
      total counter,
      valid.behind counter low,
      (count-skipped counter n c).2 (omega arith),
    );
  }
    where
      open rc use {chain_key as c}

      n : ℕ
      n = counter - c.index

      all : List SkippedMessageKey
      all = rc.message_keys ++ skipped crypto rk n c

      reached : rc'.chain_key.index ≡ counter + 1
      reached = ap (λ (k : ChainKey). k.index) ec ∙ omega (arith, index-ratchet crypto (suc n) c)

      total :
          (d : ℕ)
          → count d rc'.message_keys ≤ count d rc.message_keys + count d (skipped crypto rk n c)
      total d = rw em (
          omega (
            arith,
            count-drop d (length all - max_message_keys) all,
            count-append d rc.message_keys (skipped crypto rk n c),
          ))

  -- A counter that was given out is used up, and the invariant of the chain holds again.
  pub chain_message_keys-IsUsed :
      (rc : ReceiverChain) (counter : ℕ) (pqr_key : Option Bytes) (mk : MessageKeys)
      (rc' : ReceiverChain)
      → IsValid rc
      → counter < 2 ^ 32
      → chain_message_keys crypto rc rk counter pqr_key ≡ ok (mk, rc')
      → IsUsed rc' counter × (rc'.ratchet_key ≡ rc.ratchet_key)
  chain_message_keys-IsUsed rc counter pqr_key mk rc' valid u e =
      elim (Option-cases (take_skipped rk counter rc.message_keys)) [
        | inl absent ↦
            let (low, ec, em, ek) = ahead rc counter pqr_key mk rc' valid.bounded u absent e in
            (IsUsed-ahead rc counter rc' valid absent low ec em, ek)
        | inr ((mk', mks), found) ↦
            let taken : record rc { message_keys = mks } ≡ rc' =
              ap (λ (p : MessageKeys × ReceiverChain). p.1)
                (ok_injective
                  (sym (chain_message_keys_cached rc counter pqr_key mk' mks found) ∙ e)) in
            rw (← taken) (IsUsed-cached rc counter mk' mks valid found, refl)
      ]
