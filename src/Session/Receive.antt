-- ===== src/Session/Receive.antt =====
-- `getOrComputeMessageKeys` on a whole session state: replay, and delivery out of order.
use libsignal_zig.Prelude.{
  ℕ, zero, suc, ◌+◌, ◌-◌, ◌^◌, ◌≤◌, ◌<◌, ◌≡◌, refl, sym, ap, ◌∙◌, Option, none, some, List, [], ◌∷◌,
  ◌++◌, length, eql_refl, arith, length-append, All, Bool-cases, inl, inr, Option-cases,
}
use libsignal_zig.Prelude.Bytes.{Bytes}
use libsignal_zig.Prelude.Result.{ok, err, duplicate_message, bind-eq-ok, ok_injective}
use libsignal_zig.Crypto.{Crypto}
use libsignal_zig.Curve.{PublicKey, public_key_eql}
use libsignal_zig.Ratchet.{MessageKeys, ChainKey, message_keys}
use libsignal_zig.Session.{
  SkippedMessageKey, ReceiverChain, SessionState, max_forward_jumps, max_message_keys, take_skipped,
  rotate_last, chain_message_keys, in_receiver_chain, get_or_compute_message_keys,
}
use libsignal_zig.Session.Chain.{
  ratchet, skipped, newest_all, chain_of, next, entry, chain_message_keys_forward,
  chain_message_keys_behind,
}
use libsignal_zig.Session.Cache.{
  count, IsValid, take_skipped-none, IsUsed, chain_message_keys-IsUsed, chain_message_keys_cached,
}

-- Each of the receiver chains is valid.
abbrev pub AllValid : List ReceiverChain → Type 0
AllValid rcs = All IsValid rcs

module _ (crypto : Crypto) (k : PublicKey) (counter : ℕ) where
  -- A counter that is used up is refused by its chain.
  chain_replay :
      (rc : ReceiverChain) (pqr_key : Option Bytes)
      → IsUsed rc counter
      → chain_message_keys crypto rc k.key_bytes counter pqr_key ≡ err duplicate_message
  chain_replay rc pqr_key used =
      chain_message_keys_behind crypto rc.ratchet_key k.key_bytes rc.chain_key rc.message_keys
        counter pqr_key (take_skipped-none k.key_bytes counter rc.message_keys used.gone)
        used.passed

  chains_replay :
      (rcs rcs' : List ReceiverChain) (pqr_key again : Option Bytes) (mk : MessageKeys)
      → AllValid rcs
      → counter < 2 ^ 32
      → in_receiver_chain crypto k counter pqr_key rcs ≡ ok (some (mk, rcs'))
      → AllValid rcs' × (in_receiver_chain crypto k counter again rcs' ≡ err duplicate_message)
  unfolding in_receiver_chain
  chains_replay [] rcs' pqr_key again mk valid u e = cc
  chains_replay (rc ∷ rcs) rcs' pqr_key again mk (v, vs) u e =
      elim (Bool-cases (public_key_eql rc.ratchet_key k)) [
        | inl here ↦
            let ((mk', rc'), got, result) =
              bind-eq-ok (chain_message_keys crypto rc k.key_bytes counter pqr_key) _
                (rw here at e) in
            let (used, same) =
              chain_message_keys-IsUsed crypto k.key_bytes rc counter pqr_key mk' rc' v u got in
            let shape : rc' ∷ rcs ≡ rcs' = cc result in
            rw (← shape, same, here, chain_replay rc' again used) ((used.valid, vs), refl)
        | inr there ↦
            let (found, got, result) =
              bind-eq-ok (in_receiver_chain crypto k counter pqr_key rcs) _ (rw there at e) in
            elim (Option-cases found) [
              | inl absent ↦ cc (rw absent at result)
              | inr ((mk', rcs₁), present) ↦
                  let shape : rc ∷ rcs₁ ≡ rcs' = cc (rw present at result) in
                  let (vs₁, again_err) =
                    chains_replay rcs rcs₁ pqr_key again mk' vs u (got ∙ ap ok present) in
                  rw (← shape, there, again_err) ((v, vs₁), refl)
            ]
      ]

  -- In a session whose chains are valid, and for a u32 counter: once a message's keys have been
  -- given out, the chains are valid again, and the same ratchet key and counter are refused as a
  -- duplicate, with any post-quantum key.
  pub get_or_compute_message_keys-replay :
      (s s' : SessionState) (pqr_key again : Option Bytes) (mk : MessageKeys)
      → AllValid s.receiver_chains
      → counter < 2 ^ 32
      → get_or_compute_message_keys crypto s k counter pqr_key ≡ ok (some (mk, s'))
      → AllValid s'.receiver_chains
        × (get_or_compute_message_keys crypto s' k counter again ≡ err duplicate_message)
  unfolding get_or_compute_message_keys
  get_or_compute_message_keys-replay s s' pqr_key again mk valid u e =
      let (found, got, result) =
        bind-eq-ok (in_receiver_chain crypto k counter pqr_key s.receiver_chains) _ e in
      elim (Option-cases found) [
        | inl absent ↦ cc (rw absent at result)
        | inr ((mk', rcs), present) ↦
            let shape : record s { receiver_chains = rcs } ≡ s' = cc (rw present at result) in
            let (valid', refused) =
              chains_replay s.receiver_chains rcs pqr_key again mk' valid u (got ∙ ap ok present) in
            rw (← shape, refused) (valid', refl)
      ]

module _ (crypto : Crypto) (rk : Bytes) where
  take_skipped-append :
      (d : ℕ) (xs ys zs : List SkippedMessageKey) (mk : MessageKeys)
      → count d xs ≡ 0
      → take_skipped rk d ys ≡ some (mk, zs)
      → take_skipped rk d (xs ++ ys) ≡ some (mk, xs ++ zs)
  unfolding take_skipped
  take_skipped-append d [] ys zs mk h found = found
  take_skipped-append d (x ∷ xs) ys zs mk h found =
      ground (arith, take_skipped-append d xs ys zs mk)

  -- The keys that the loop caches are the ratchet's own.
  take_skipped-skipped :
      (j n d : ℕ) (c : ChainKey)
      → j < n
      → d ≡ c.index + j
      → (zs : List SkippedMessageKey) × (take_skipped rk d (skipped crypto rk n c)
          ≡ some (message_keys crypto (ratchet crypto j c) none, zs))
  unfolding take_skipped skipped ratchet
  take_skipped-skipped j zero d c h e = absurd (omega arith)
  take_skipped-skipped zero (suc n) d c h e =
      (rotate_last (skipped crypto rk n (next crypto c)), ground (arith, eql_refl rk))
  take_skipped-skipped (suc j) (suc n) d c h e =
      let (zs, found) = take_skipped-skipped j n d (next crypto c) (omega arith) (omega arith) in
      (entry crypto rk c ∷ zs, ground (arith, found))

  length-skipped : (n : ℕ) (c : ChainKey) → length (skipped crypto rk n c) ≡ n
  unfolding skipped
  length-skipped zero c = refl
  length-skipped (suc n) c = omega (arith, length-skipped n (next crypto c))

  -- Delivery out of order: in a valid chain, with room in the cache for all that is skipped,
  -- a message at most 25000 ahead is followed by one that it skipped. The second gets the key of
  -- its own place in the ratchet, with no post-quantum key mixed in, whichever is passed.
  pub chain_message_keys_out_of_order :
      (rc rc' : ReceiverChain) (early later : ℕ) (pqr_key again : Option Bytes) (mk : MessageKeys)
      → IsValid rc
      → rc.chain_key.index ≤ early
      → early < later
      → later ≤ rc.chain_key.index + max_forward_jumps
      → later + 1 < 2 ^ 32
      → length rc.message_keys + (later - rc.chain_key.index) ≤ max_message_keys
      → chain_message_keys crypto rc rk later pqr_key ≡ ok (mk, rc')
      → (rc'' : ReceiverChain) × (chain_message_keys crypto rc' rk early again
          ≡ ok (
            message_keys crypto (ratchet crypto (early - rc.chain_key.index) rc.chain_key) none,
            rc'',
          ))
  chain_message_keys_out_of_order rc rc' early later pqr_key again mk valid low less near fits room
        e =
      let (zs, found) =
        take_skipped-skipped (early - c.index) n early c (omega arith) (omega arith) in
      let cached = take_skipped-append early mks added zs _ (valid.behind early low) found in
      let after =
        chain_message_keys_forward crypto rc.ratchet_key rk c mks later pqr_key
          (take_skipped-none rk later mks (valid.behind later (omega arith))) valid.bounded
          (omega arith) near fits in
      let shape = ap (λ (p : MessageKeys × ReceiverChain). p.1) (ok_injective (sym after ∙ e)) in
      let kept =
        newest_all max_message_keys (mks ++ added)
          (omega (arith, length-append mks added, length-skipped n c)) in
      rw (← shape, kept)
        (
          _,
          chain_message_keys_cached crypto rk
              (chain_of rc.ratchet_key (ratchet crypto (suc n) c) (mks ++ added)) early again _ _
              cached,
        )
    where
      open rc use {chain_key as c, message_keys as mks}

      n : ℕ
      n = later - c.index

      added : List SkippedMessageKey
      added = skipped crypto rk n c
