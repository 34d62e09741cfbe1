-- ===== src/Tests/Ratchets.antt =====
-- The theorems on the key chains of the post-quantum ratchet at concrete inputs.
use libsignal_zig.Prelude.{◌≡◌, refl, [], ◌∷◌, ◌++◌, length, replicate, arith}
use libsignal_zig.Prelude.Bytes.{Bytes}
use libsignal_zig.Prelude.Result.{Result, ok, err, panic, stuck}
use libsignal_zig.Spqr.Chain.{
  Chain, Direction, KeyResult, chain_init, add_epoch, send_key, recv_key, epoch_link, next_key,
  key_at, serialize_chain, deserialize_chain,
}
use libsignal_zig.Spqr.Chain.Keys.{dir_at, key_at_reference, key_at-key_at_reference}
use libsignal_zig.Spqr.Chain.Pairing.{
  Paired, opposite, chain_init-Paired, add_epoch-Paired, recv_key-send_key,
}
use libsignal_zig.Spqr.Chain.Serial.{deserialize-serialize_chain}
use libsignal_zig.Tests.{toy}

abbrev key : Bytes
key = replicate 32 1

abbrev alice : Chain
alice = chain_init toy key Direction.a2b

abbrev bob : Chain
bob = chain_init toy key (opposite Direction.a2b)

abbrev value {ℓ} : {A : Type ℓ} → Result A → A → A
value (ok a) d = a
value (err e) d = d
value panic d = d
value stuck d = d

abbrev sent : KeyResult × Chain
sent = value (send_key toy alice 0) (record { idx = 0; key = [] }, alice)

key_at-key_at_reference_example :
    key_at toy 3 25_000 (dir_at toy key 1) ≡ key_at_reference toy key 1 3 25_000
key_at-key_at_reference_example =
    key_at-key_at_reference toy key 1 3 25_000 (omega arith) (omega arith)

recv_key-send_key_example :
    (b' : Chain) × (recv_key toy bob 0 sent.0.idx ≡ ok (sent.0.key, b')) × Paired toy sent.1 b'
unfolding send_key chain_init epoch_link next_key
recv_key-send_key_example =
    recv_key-send_key toy alice bob sent.1 0 sent.0 (chain_init-Paired toy key Direction.a2b)
      (omega arith) refl (omega arith)

abbrev ahead : Chain
ahead = value (add_epoch toy alice 1 (replicate 32 2)) alice

add_epoch-Paired_example :
    (b' : Chain) × (add_epoch toy bob 1 (replicate 32 2) ≡ ok b') × Paired toy ahead b'
unfolding add_epoch chain_init
add_epoch-Paired_example =
    add_epoch-Paired toy alice bob ahead 1 (replicate 32 2)
      (chain_init-Paired toy key Direction.a2b) refl

deserialize-serialize_chain_example :
    (bytes : Bytes) × (serialize_chain ahead [] ≡ ok bytes)
    × (deserialize_chain (bytes ++ 9 ∷ []) ≡ ok (ahead, length bytes))
unfolding add_epoch chain_init
deserialize-serialize_chain_example = deserialize-serialize_chain ahead (9 ∷ []) (record {
  current = omega arith;
  sending = omega arith;
  root = refl;
  count = omega arith;
  links = (
    ((omega arith, refl), (omega arith, refl)),
    (((omega arith, refl), (omega arith, refl)), tt),
  );
  jump = refl;
})
