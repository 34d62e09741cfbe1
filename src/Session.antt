-- ===== src/Session.antt =====
-- src/state/session_state.zig: a session's state and its receiver chains.
pub mod Chain
pub mod Cache
pub mod Receive
use mathlib.Core.Option
use libsignal_zig.Prelude.{
  ℕ, zero, suc, ◌+◌, ◌-◌, ◌^◌, Bool, true, false, ◌&&◌, Option, none, some, List, [], ◌∷◌, ◌++◌,
  length, drop, replicate, ltb, leb, ◌==◌, if◌then◌else◌, eql,
}
use libsignal_zig.Prelude.Bytes.{Bytes}
use libsignal_zig.Prelude.Result.{
  Result, ok, err, panic, stuck, ◌>>=◌, ◌>>◌, fail_if, duplicate_message, invalid_message,
}
use libsignal_zig.Crypto.{Crypto}
use libsignal_zig.Curve.{PublicKey, KeyPair, public_key_eql}
use libsignal_zig.Ratchet.{MessageKeys, ChainKey, RootKey, message_keys, advance}

abbrev pub max_forward_jumps : ℕ
max_forward_jumps = 25_000

abbrev pub max_message_keys : ℕ
max_message_keys = 2000

abbrev pub max_receiver_chains : ℕ
max_receiver_chains = 5

abbrev pub session_version : ℕ
session_version = 4

pub record SkippedMessageKey : Type 0 where
  pub ratchet_key : Bytes
  pub counter : ℕ
  pub keys : MessageKeys

pub record ReceiverChain : Type 0 where
  pub ratchet_key : PublicKey
  pub chain_key : ChainKey
  pub message_keys : List SkippedMessageKey

pub record PendingPreKey : Type 0 where
  pub pre_key_id : Option ℕ
  pub signed_pre_key_id : ℕ
  pub base_key : PublicKey
  pub timestamp : ℕ

pub record PendingKyberPreKey : Type 0 where
  pub pre_key_id : ℕ
  pub ciphertext : Bytes

pub record SessionState : Type 0 where
  pub session_version : ℕ
  pub local_identity_key : PublicKey
  pub remote_identity_key : PublicKey
  pub root_key : RootKey
  pub previous_counter : ℕ
  pub sender_chain_key : ChainKey
  pub sender_ratchet_key_pair : KeyPair
  pub receiver_chains : List ReceiverChain
  pub pending_pre_key : Option PendingPreKey
  pub pending_kyber_pre_key : Option PendingKyberPreKey
  pub remote_registration_id : ℕ
  pub local_registration_id : ℕ
  pub alice_base_key : Option Bytes
  pub pq_ratchet_state : Bytes

-- `SessionState.init`, on the key pair that it generates.
unfoldable pub init : KeyPair → SessionState
init zero_kp = record {
  session_version = session_version;
  local_identity_key = zero_kp.public_key;
  remote_identity_key = zero_kp.public_key;
  root_key = record { key = replicate 32 0 };
  previous_counter = 0;
  sender_chain_key = record { key = replicate 32 0; index = 0 };
  sender_ratchet_key_pair = zero_kp;
  receiver_chains = [];
  pending_pre_key = none;
  pending_kyber_pre_key = none;
  remote_registration_id = 0;
  local_registration_id = 0;
  alice_base_key = none;
  pq_ratchet_state = [];
}

-- `if (list.items.len > max) list.orderedRemove(0)`
unfoldable pub drop_oldest {ℓ} : {A : Type ℓ} → ℕ → List A → List A
drop_oldest max xs = if ltb max (length xs) then drop 1 xs else xs

unfoldable pub add_receiver_chain : SessionState → PublicKey → ChainKey → SessionState
unfolding drop_oldest
add_receiver_chain s ratchet_key chain_key =
    let rc : ReceiverChain = record {
      ratchet_key = ratchet_key;
      chain_key = chain_key;
      message_keys = [];
    } in
    record s { receiver_chains = drop_oldest max_receiver_chains (s.receiver_chains ++ rc ∷ []) }

swap_front {ℓ} : {A : Type ℓ} → A → List A → List A
swap_front x [] = x ∷ []
swap_front x (z ∷ zs) = z ∷ x ∷ zs

-- What `swapRemove(i)` leaves of the items from `i + 1` on: the last of them comes first.
unfoldable pub rotate_last {ℓ} : {A : Type ℓ} → List A → List A
unfolding swap_front
rotate_last [] = []
rotate_last (x ∷ []) = x ∷ []
rotate_last (x ∷ y ∷ ys) = swap_front x (rotate_last (y ∷ ys))

-- The search through the skipped keys; the first match is removed by `swapRemove`.
unfoldable pub take_skipped :
    Bytes → ℕ → List SkippedMessageKey → Option (MessageKeys × List SkippedMessageKey)
unfolding rotate_last
take_skipped ratchet_key counter [] = none
take_skipped ratchet_key counter (mk ∷ mks) =
    if (mk.counter == counter) && eql mk.ratchet_key ratchet_key
    then some (mk.keys, rotate_last mks)
    else Option.map (λ r. (r.0, mk ∷ r.1)) (take_skipped ratchet_key counter mks)

module _ (crypto : Crypto) where
  -- One round of the loop that advances the chain key: the key of the round is cached.
  unfoldable pub skip_step : Bytes → ReceiverChain → Result ReceiverChain
  unfolding drop_oldest
  skip_step ratchet_key rc = do
    let mk = message_keys crypto rc.chain_key none
    let entry : SkippedMessageKey = record {
      ratchet_key = ratchet_key;
      counter = rc.chain_key.index;
      keys = mk;
    }
    next ← advance crypto rc.chain_key
    ok (record rc {
      chain_key = next;
      message_keys = drop_oldest max_message_keys (rc.message_keys ++ entry ∷ []);
    })

  -- `while (rc.chain_key.index < counter)`, on as many rounds as the index is below the counter.
  unfoldable pub skip_loop : ℕ → Bytes → ℕ → ReceiverChain → Result ReceiverChain
  skip_loop zero ratchet_key counter rc = if ltb rc.chain_key.index counter then stuck else ok rc
  skip_loop (suc rounds) ratchet_key counter rc =
      let more = skip_step ratchet_key rc >>= skip_loop rounds ratchet_key counter in
      if ltb rc.chain_key.index counter then more else ok rc

  -- The part of `getOrComputeMessageKeys` past the skipped keys.
  unfoldable pub compute_message_keys :
      ReceiverChain → Bytes → ℕ → Option Bytes → Result (MessageKeys × ReceiverChain)
  compute_message_keys rc ratchet_key counter pqr_key = do
    fail_if (ltb counter rc.chain_key.index) duplicate_message
    fail_if (ltb max_forward_jumps (counter - rc.chain_key.index)) invalid_message
    rc' ← skip_loop (counter - rc.chain_key.index) ratchet_key counter rc
    next ← advance crypto rc'.chain_key
    ok (message_keys crypto rc'.chain_key pqr_key, record rc' { chain_key = next })

  found_or_computed :
      Option (MessageKeys × List SkippedMessageKey)
      → ReceiverChain
      → Bytes
      → ℕ
      → Option Bytes
      → Result (MessageKeys × ReceiverChain)
  found_or_computed (some (keys, mks)) rc ratchet_key counter pqr_key =
      ok (keys, record rc { message_keys = mks })
  found_or_computed none rc ratchet_key counter pqr_key =
      compute_message_keys rc ratchet_key counter pqr_key

  unfoldable pub chain_message_keys :
      ReceiverChain → Bytes → ℕ → Option Bytes → Result (MessageKeys × ReceiverChain)
  unfolding found_or_computed
  chain_message_keys rc ratchet_key counter pqr_key =
      found_or_computed (take_skipped ratchet_key counter rc.message_keys) rc ratchet_key counter
        pqr_key

  -- `findReceiverChain`, and the work on the chain that it points to.
  unfoldable pub in_receiver_chain :
      PublicKey
      → ℕ
      → Option Bytes
      → List ReceiverChain
      → Result (Option (MessageKeys × List ReceiverChain))
  in_receiver_chain ratchet_key counter pqr_key [] = ok none
  in_receiver_chain ratchet_key counter pqr_key (rc ∷ rcs) =
      let here = (do
        (mk, rc') ← chain_message_keys rc ratchet_key.key_bytes counter pqr_key
        ok (some (mk, rc' ∷ rcs))) in
      let there = (do
        r ← in_receiver_chain ratchet_key counter pqr_key rcs
        ok (Option.map (λ x. (x.0, rc ∷ x.1)) r)) in
      if public_key_eql rc.ratchet_key ratchet_key then here else there

  -- `getOrComputeMessageKeys`: `none` when no receiver chain has the ratchet key.
  unfoldable pub get_or_compute_message_keys :
      SessionState → PublicKey → ℕ → Option Bytes → Result (Option (MessageKeys × SessionState))
  unfolding in_receiver_chain
  get_or_compute_message_keys s ratchet_key counter pqr_key = do
    r ← in_receiver_chain ratchet_key counter pqr_key s.receiver_chains
    ok (Option.map (λ x. (x.0, record s { receiver_chains = x.1 })) r)
