-- ===== src/Examples/Group.antt =====
-- `test_group` of the example programs.
use libsignal_zig.Prelude.{
  ℕ, suc, ◌^◌, ◌<◌, ◌≤◌, ◌≡◌, refl, some, true, length, take, eql_refl, arith,
}
use libsignal_zig.Prelude.Bytes.{Bytes, read_le, ascii}
use libsignal_zig.Prelude.Result.{ok}
use libsignal_zig.Crypto.{Crypto}
use libsignal_zig.Xeddsa.{Xeddsa}
use libsignal_zig.AesCbc.{BlockCipher}
use libsignal_zig.Curve.{KeyPair}
use libsignal_zig.Curve.Generate.{KeyGen, generate}
use libsignal_zig.Records.RoundTrip.{IsKeyPair}
use libsignal_zig.Group.{
  SenderKeyState, serialize_state, distribution_of, create_session, process_session, group_encrypt,
  group_decrypt,
}
use libsignal_zig.Group.Record.{IsSenderKeyState}
use libsignal_zig.Group.Exchange.{
  Sent, message_of, copy_of, group_decrypt-group_encrypt, chain_after,
}
use libsignal_zig.Messages.SenderKey.{signed_part}
use libsignal_zig.Ffi.{success}
use libsignal_zig.Ffi.Address.{ProtocolAddress}
use libsignal_zig.Ffi.SenderKeys.{
  signal_sender_key_distribution_message_create, signal_process_sender_key_distribution_message,
  signal_group_encrypt_message, signal_group_decrypt_message,
}
use libsignal_zig.Examples.Stores.{Program, make_sk_store, sk_load_fn}
use libsignal_zig.Examples.Lawful.{IsAddress, IsProgram}
use libsignal_zig.Examples.Peers.{sk_load-sk_store_fn, sk_load_empty}
use libsignal_zig.Examples.Tests.{test_group, dist_id, alice_name, group_hello}

-- A seed that makes a key pair whose signatures verify.
pub record Signs (xeddsa : Xeddsa) (gen : KeyGen) (seed : Bytes) (kp : KeyPair) : Type 0 where
  pub made : generate gen seed ≡ ok kp
  pub valid : IsKeyPair kp
  pub signature : Bytes → Bytes → Bytes
  pub signed :
      (message random : Bytes)
      → xeddsa.sign kp.private_key.key_bytes message random ≡ ok (signature message random)
  pub verified :
      (message random : Bytes)
      → xeddsa.verify kp.public_key.key_bytes message (signature message random) ≡ ok true

-- The state that a new distribution starts from.
abbrev fresh_state : Bytes → Bytes → KeyPair → SenderKeyState
fresh_state distribution_id chain_key kp = record {
  message_version = 3;
  chain_id = read_le (take 4 distribution_id);
  chain_key = chain_key;
  iteration = 0;
  signing_key_pair = kp;
  distribution_uuid = distribution_id;
}

module _ (P : Program) (isP : IsProgram P) (a : ProtocolAddress) (ha : IsAddress a) (id : Bytes)
    (size : length id ≡ 16) where
  create_lem :
      (gen : KeyGen) (n : ℕ) (chain_key seed : Bytes) (kp : KeyPair)
      → generate gen seed ≡ ok kp
      → suc n ≤ 128
      → (s' : P.kv.Store) × (signal_sender_key_distribution_message_create
            (make_sk_store P)
            gen
            P.kv.empty
            (some a)
            id
            chain_key
            seed
          ≡ success (some (distribution_of (fresh_state id chain_key kp)), s'))
        × isP.lawful.Room n s'
        × (sk_load_fn P s' (some a) id
            ≡ success (some (serialize_state (fresh_state id chain_key kp))))
  unfolding signal_sender_key_distribution_message_create create_session
  create_lem gen n chain_key seed kp made few =
      let (s', put, room', found) =
        sk_load-sk_store_fn P isP n P.kv.empty a id (serialize_state (fresh_state id chain_key kp))
          ha size (isP.lawful.room-empty (suc n) few) in
      (s', rw (size, sk_load_empty P isP a id ha size, made, put), room', found)

  module _ (crypto : Crypto) (aes : BlockCipher) (xeddsa : Xeddsa) where
    process_lem :
        (n : ℕ) (chain_key : Bytes) (kp : KeyPair)
        → suc n ≤ 128
        → (s' : P.kv.Store) × (signal_process_sender_key_distribution_message
              (make_sk_store P)
              P.kv.empty
              (some a)
              (some (distribution_of (fresh_state id chain_key kp)))
            ≡ success s')
          × isP.lawful.Room n s'
          × (sk_load_fn P s' (some a) id
              ≡ success (some (serialize_state (copy_of crypto (fresh_state id chain_key kp)))))
    unfolding signal_process_sender_key_distribution_message process_session
    process_lem n chain_key kp few =
        let (s', put, room', found) =
          sk_load-sk_store_fn P isP n P.kv.empty a id
            (serialize_state (copy_of crypto (fresh_state id chain_key kp))) ha size
            (isP.lawful.room-empty (suc n) few) in
        (s', rw put, room', found)

    encrypt_lem :
        (n : ℕ) (s : P.kv.Store) (stored plaintext random wire stored' : Bytes)
        → sk_load_fn P s (some a) id ≡ success (some stored)
        → group_encrypt crypto aes xeddsa (some stored) plaintext random ≡ ok (wire, stored')
        → isP.lawful.Room (suc n) s
        → (s' : P.kv.Store) × (signal_group_encrypt_message
              (make_sk_store P)
              crypto
              aes
              xeddsa
              s
              (some a)
              id
              plaintext
              random
            ≡ success (wire, s'))
          × (sk_load_fn P s' (some a) id ≡ success (some stored'))
    unfolding signal_group_encrypt_message
    encrypt_lem n s stored plaintext random wire stored' found sent room =
        let (s', put, room', found') = sk_load-sk_store_fn P isP n s a id stored' ha size room in
        (s', rw (size, found, sent, put), found')

    decrypt_lem :
        (n : ℕ) (s : P.kv.Store) (stored plaintext wire stored' : Bytes)
        → sk_load_fn P s (some a) id ≡ success (some stored)
        → group_decrypt crypto aes xeddsa (some stored) wire ≡ ok (plaintext, stored')
        → isP.lawful.Room (suc n) s
        → (s' : P.kv.Store) × (signal_group_decrypt_message
              (make_sk_store P)
              crypto
              aes
              xeddsa
              s
              (some a)
              id
              wire
            ≡ success (plaintext, s'))
          × (sk_load_fn P s' (some a) id ≡ success (some stored'))
    unfolding signal_group_decrypt_message
    decrypt_lem n s stored plaintext wire stored' found received room =
        let (s', put, room', found') = sk_load-sk_store_fn P isP n s a id stored' ha size room in
        (s', rw (size, found, received, put), found')

alice-IsAddress : IsAddress (record { name = alice_name; device_id = 1 })
unfolding ascii
alice-IsAddress = record { name = omega arith; device_id = omega arith }

group_hello_size : length group_hello < 2 ^ 62
unfolding ascii
group_hello_size = omega arith

fresh_state-IsSenderKeyState :
    (chain_key : Bytes) (kp : KeyPair)
    → length chain_key ≡ 32
    → IsKeyPair kp
    → IsSenderKeyState (fresh_state dist_id chain_key kp)
unfolding read_le
fresh_state-IsSenderKeyState chain_key kp size keys = record {
  message_version = omega arith;
  chain_id = omega arith;
  chain_key = size;
  iteration = omega arith;
  signing_key_pair = keys;
  distribution_uuid = refl;
}

copy_of-IsSenderKeyState :
    (crypto : Crypto) (s : SenderKeyState)
    → IsSenderKeyState s
    → IsSenderKeyState (copy_of crypto s)
copy_of-IsSenderKeyState crypto s valid = record {
  message_version = omega arith;
  chain_id = valid.chain_id;
  chain_key = valid.chain_key;
  iteration = valid.iteration;
  signing_key_pair = record { public = valid.signing_key_pair.public; private = refl };
  distribution_uuid = valid.distribution_uuid;
}

-- `test_group` prints PASS in either program, for a chain key of 32 bytes, when the seed makes
-- a key pair with keys of 32 bytes that signs every message with a signature that verifies:
-- Alice's distribution reaches Bob, and he decrypts her message.
pub test_group_passes :
    (P : Program) (crypto : Crypto) (aes : BlockCipher) (xeddsa : Xeddsa) (gen : KeyGen)
    (chain_key seed random : Bytes) (kp : KeyPair)
    → IsProgram P
    → Signs xeddsa gen seed kp
    → length chain_key ≡ 32
    → test_group P crypto aes xeddsa gen chain_key seed random ≡ success tt
unfolding test_group chain_after ascii
test_group_passes P crypto aes xeddsa gen chain_key seed random kp isP signs size =
    let a : ProtocolAddress = record { name = alice_name; device_id = 1 } in
    let ha = alice-IsAddress in
    let s = fresh_state dist_id chain_key kp in
    let r = copy_of crypto s in
    let (alice_sk, created, room_a, found_a) =
      create_lem P isP a ha dist_id refl gen 1 chain_key seed kp signs.made (omega arith) in
    let (bob_sk, processed, room_b, found_b) =
      process_lem P isP a ha dist_id refl crypto aes xeddsa 1 chain_key kp (omega arith) in
    let body = signed_part (message_of crypto aes xeddsa s group_hello) in
    let sent : Sent crypto aes xeddsa s r group_hello random (signs.signature body random) =
      record {
        sender = fresh_state-IsSenderKeyState chain_key kp size signs.valid;
        receiver =
            copy_of-IsSenderKeyState crypto s
              (fresh_state-IsSenderKeyState chain_key kp size signs.valid);
        room = omega arith;
        plaintext_size = group_hello_size;
        signed = signs.signed body random;
        verified = signs.verified body random;
      } in
    let (wire, s', r', encrypted, decrypted, valid, valid', follows) =
      group_decrypt-group_encrypt crypto aes xeddsa s r group_hello random
        (signs.signature body random) sent 0
        (record { chain_id = refl; iteration = omega arith; chain_key = refl }) in
    let (alice_sk', enc, kept_a) =
      encrypt_lem P isP a ha dist_id refl crypto aes xeddsa 0 alice_sk (serialize_state s)
        group_hello random wire (serialize_state s') found_a encrypted room_a in
    let (bob_sk', dec, kept_b) =
      decrypt_lem P isP a ha dist_id refl crypto aes xeddsa 0 bob_sk (serialize_state r) group_hello
        wire (serialize_state r') found_b decrypted room_b in
    rw (created, processed, enc, dec, eql_refl group_hello)
