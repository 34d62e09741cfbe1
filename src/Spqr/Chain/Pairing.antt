-- ===== src/Spqr/Chain/Pairing.antt =====
-- The two ends of a chain: what one sends the other receives.
use native.Mathlib.Decide.{dec_lt}
use libsignal_zig.Prelude.{
  ◌==◌, not, ℕ, zero, suc, ◌+◌, ◌^◌, ◌≤◌, ◌<◌, ◌≡◌, refl, sym, ap, ◌∙◌, List, [], ◌∷◌, ◌++◌, some,
  length, get_elem?, set, leb, le→leb, arith,
}
use libsignal_zig.Prelude.Bytes.{Bytes}
use libsignal_zig.Prelude.Result.{
  ok, panic_if, fail_if, or_panic, or_panic-eq-ok, epoch_out_of_order, bind-eq-ok, ok_injective,
}
use libsignal_zig.Crypto.{Crypto}
use libsignal_zig.Spqr.Chain.{
  Direction, EpochDir, KeyResult, Epoch, Chain, starts, epoch_link, next_key, chain_init, add_epoch,
  send_key, recv_key,
}
use libsignal_zig.Spqr.Chain.Keys.{seed_at, dir_at, result_at, next_key_lem, key_at_ahead}

-- A direction that one end sends on and the other receives on: both came from one start, and no
-- more was received than sent.
pub record SameDir (crypto : Crypto) (sender receiver : EpochDir) : Type 0 where
  pub start : Bytes
  pub sent : ℕ
  pub received : ℕ
  pub sender_at : sender ≡ dir_at crypto start sent
  pub receiver_at : receiver ≡ dir_at crypto start received
  pub behind : received ≤ sent

pub record SameEpoch (crypto : Crypto) (x y : Epoch) : Type 0 where
  pub there : SameDir crypto x.send y.recv
  pub back : SameDir crypto y.send x.recv

abbrev pub SameLinks : Crypto → List Epoch → List Epoch → Type 0
SameLinks crypto [] [] = Unit
SameLinks crypto [] (y ∷ ys) = ⊥
SameLinks crypto (x ∷ xs) [] = ⊥
SameLinks crypto (x ∷ xs) (y ∷ ys) = SameEpoch crypto x y × SameLinks crypto xs ys

abbrev pub opposite : Direction → Direction
opposite Direction.a2b = Direction.b2a
opposite Direction.b2a = Direction.a2b

pub record Paired (crypto : Crypto) (a b : Chain) : Type 0 where
  pub dirs : b.dir ≡ opposite a.dir
  pub epochs : b.current_epoch ≡ a.current_epoch
  pub roots : b.next_root ≡ a.next_root
  pub links : SameLinks crypto a.links b.links

length-SameLinks :
    (crypto : Crypto) (xs ys : List Epoch) → SameLinks crypto xs ys → length ys ≡ length xs
length-SameLinks crypto [] [] h = refl
length-SameLinks crypto [] (y ∷ ys) h = absurd h
length-SameLinks crypto (x ∷ xs) [] h = absurd h
length-SameLinks crypto (x ∷ xs) (y ∷ ys) (e, h) = ap suc (length-SameLinks crypto xs ys h)

get_elem?-SameLinks :
    (crypto : Crypto) (xs ys : List Epoch) (i : ℕ) (x : Epoch)
    → SameLinks crypto xs ys
    → get_elem? xs i ≡ some x
    → (y : Epoch) × (get_elem? ys i ≡ some y) × SameEpoch crypto x y
get_elem?-SameLinks crypto [] ys i x h e = cc
get_elem?-SameLinks crypto (x' ∷ xs) [] i x h e = absurd h
get_elem?-SameLinks crypto (x' ∷ xs) (y ∷ ys) zero x (same, h) e =
    let here : x' ≡ x = cc in (y, refl, rw (← here) same)
get_elem?-SameLinks crypto (x' ∷ xs) (y ∷ ys) (suc i) x (same, h) e =
    get_elem?-SameLinks crypto xs ys i x h e

set-SameLinks :
    (crypto : Crypto) (xs ys : List Epoch) (i : ℕ) (x y : Epoch)
    → SameLinks crypto xs ys
    → SameEpoch crypto x y
    → SameLinks crypto (set xs i x) (set ys i y)
set-SameLinks crypto [] [] i x y h same = tt
set-SameLinks crypto [] (y' ∷ ys) i x y h same = absurd h
set-SameLinks crypto (x' ∷ xs) [] i x y h same = absurd h
set-SameLinks crypto (x' ∷ xs) (y' ∷ ys) zero x y (old, h) same = (same, h)
set-SameLinks crypto (x' ∷ xs) (y' ∷ ys) (suc i) x y (old, h) same =
    (old, set-SameLinks crypto xs ys i x y h same)

append-SameLinks :
    (crypto : Crypto) (xs ys : List Epoch) (x y : Epoch)
    → SameLinks crypto xs ys
    → SameEpoch crypto x y
    → SameLinks crypto (xs ++ x ∷ []) (ys ++ y ∷ [])
append-SameLinks crypto [] [] x y h same = (same, tt)
append-SameLinks crypto [] (y' ∷ ys) x y h same = absurd h
append-SameLinks crypto (x' ∷ xs) [] x y h same = absurd h
append-SameLinks crypto (x' ∷ xs) (y' ∷ ys) x y (old, h) same =
    (old, append-SameLinks crypto xs ys x y h same)

fresh :
    (crypto : Crypto) (start : Bytes)
    → SameDir crypto (record { ctr = 0; next = start }) (record { ctr = 0; next = start })
unfolding seed_at
fresh crypto start = record {
  start = start;
  sent = 0;
  received = 0;
  sender_at = refl;
  receiver_at = refl;
  behind = omega arith;
}

starts-SameEpoch :
    (crypto : Crypto) (d : Direction) (out : Bytes)
    → SameEpoch crypto (starts d out) (starts (opposite d) out)
starts-SameEpoch crypto Direction.a2b out = record { there = fresh crypto _; back = fresh crypto _ }
starts-SameEpoch crypto Direction.b2a out = record { there = fresh crypto _; back = fresh crypto _ }

module _ (crypto : Crypto) where
  -- Two chains that start from one key in opposite directions are paired.
  pub chain_init-Paired :
      (key : Bytes) (d : Direction)
      → Paired crypto (chain_init crypto key d) (chain_init crypto key (opposite d))
  unfolding chain_init
  chain_init-Paired key d = record {
    dirs = refl;
    epochs = refl;
    roots = refl;
    links = (starts-SameEpoch crypto d _, tt);
  }

  -- When one of two paired chains takes an epoch with a secret, so does the other, and they are
  -- paired again.
  pub add_epoch-Paired :
      (a b a' : Chain) (epoch : ℕ) (secret : Bytes)
      → Paired crypto a b
      → add_epoch crypto a epoch secret ≡ ok a'
      → (b' : Chain) × (add_epoch crypto b epoch secret ≡ ok b') × Paired crypto a' b'
  unfolding add_epoch
  add_epoch-Paired a b a' epoch secret p e =
      let (_, fits, e₁) = bind-eq-ok (panic_if (leb (2 ^ 64) (a.current_epoch + 1))) _ e in
      let (_, in_order, e₂) =
        bind-eq-ok (fail_if (not (epoch == a.current_epoch + 1)) epoch_out_of_order) _ e₁ in
      rw (← ok_injective e₂, p.epochs, p.roots, p.dirs, fits, in_order)
        (
          _,
          refl,
          record {
            dirs = refl;
            epochs = refl;
            roots = refl;
            links =
                append-SameLinks crypto a.links b.links _ _ p.links
                  (starts-SameEpoch crypto a.dir _);
          },
        )

  -- What a success of `epochLink` depends on.
  epoch_link-Paired :
      (a b : Chain) (epoch : ℕ) → Paired crypto a b → epoch_link b epoch ≡ epoch_link a epoch
  unfolding epoch_link
  epoch_link-Paired a b epoch p = rw (p.epochs, length-SameLinks crypto a.links b.links p.links)

  next_key-eq-ok :
      (start : Bytes) (n : ℕ) (r : KeyResult) (d : EpochDir)
      → next_key crypto (dir_at crypto start n) ≡ ok (r, d)
      → (n + 1 < 2 ^ 32) × (result_at crypto start (suc n) ≡ r) × (dir_at crypto start (suc n) ≡ d)
  next_key-eq-ok start n r d e = elim (dec_lt (n + 1) (2 ^ 32)) [
    | yes fits ↦
        let same = ok_injective (sym (next_key_lem crypto start n fits) ∙ e) in
        (
          fits,
          ap (λ (p : KeyResult × EpochDir). p.0) same,
          ap (λ (p : KeyResult × EpochDir). p.1) same,
        )
    | no over ↦ unfold next_key in cc (rw (le→leb (2 ^ 32) (n + 1) (omega arith)) at e)
  ]

  send_key-eq-ok :
      (a a' : Chain) (epoch : ℕ) (r : KeyResult)
      → send_key crypto a epoch ≡ ok (r, a')
      → (i : ℕ) × (x : Epoch) × (d : EpochDir) × (epoch_link a epoch ≡ ok i)
        × (get_elem? a.links i ≡ some x)
        × (next_key crypto x.send ≡ ok (r, d))
        × (record a { links = set a.links i (record x { send = d }) } ≡ a')
  unfolding send_key
  send_key-eq-ok a a' epoch r e =
      let (i, found, e₁) = bind-eq-ok (epoch_link a epoch) _ e in
      let (x, at_i, e₂) = bind-eq-ok (or_panic (get_elem? a.links i)) _ e₁ in
      let ((r', d), made, e₃) = bind-eq-ok (next_key crypto x.send) _ e₂ in
      let same = ok_injective e₃ in
      (
        i,
        x,
        d,
        found,
        or_panic-eq-ok _ at_i,
        made ∙ ap (λ (k : KeyResult). ok (k, d)) (ap (λ (p : KeyResult × Chain). p.0) same),
        ap (λ (p : KeyResult × Chain). p.1) same,
      )

  -- One end of two paired chains sends: as many of its messages as may be lost, the other end,
  -- with a `max_jump` below 2^31 that is no less than the index, gets the message's key from its
  -- epoch and index, and both chains are paired again.
  pub recv_key-send_key :
      (a b a' : Chain) (epoch : ℕ) (r : KeyResult)
      → Paired crypto a b
      → b.max_jump < 2 ^ 31
      → send_key crypto a epoch ≡ ok (r, a')
      → r.idx ≤ b.max_jump
      → (b' : Chain) × (recv_key crypto b epoch r.idx ≡ ok (r.key, b')) × Paired crypto a' b'
  unfolding recv_key
  recv_key-send_key a b a' epoch r p jump e high =
      let (i, x, d, found, at_i, made, whole) = send_key-eq-ok a a' epoch r e in
      let (y, at_i', same) = get_elem?-SameLinks crypto a.links b.links i x p.links at_i in
      let t = same.there in
      let (fits, r_is, d_is) = next_key-eq-ok t.start t.sent r d (rw t.sender_at at made) in
      let near : suc t.sent ≤ b.max_jump = rw (← r_is) at high in
      let taken =
        key_at_ahead crypto t.start t.received (suc t.sent) b.max_jump (omega (arith, t.behind))
          (omega arith) (omega (arith, t.behind)) (omega arith) in
      rw (← whole, ← r_is, epoch_link-Paired a b epoch p, found, at_i', t.receiver_at, taken)
        (
          _,
          refl,
          record {
            dirs = p.dirs;
            epochs = p.epochs;
            roots = p.roots;
            links = set-SameLinks crypto a.links b.links i _ _ p.links (record {
              there = record {
                start = t.start;
                sent = suc t.sent;
                received = suc t.sent;
                sender_at = sym d_is;
                receiver_at = refl;
                behind = omega arith;
              };
              back = same.back;
            });
          },
        )
