-- ===== src/Examples/Talk.antt =====
-- Many group messages through the C interface and the stores of the example programs.
use libsignal_zig.Prelude.{ℕ, ◌+◌, ◌^◌, ◌<◌, ◌≡◌, some, List, [], ◌∷◌, length, All}
use libsignal_zig.Prelude.Bytes.{Bytes}
use libsignal_zig.Prelude.Result.{ok, ok_injective, bind-eq-ok}
use libsignal_zig.Crypto.{Crypto}
use libsignal_zig.Xeddsa.{Xeddsa}
use libsignal_zig.AesCbc.{BlockCipher}
use libsignal_zig.Group.{SenderKeyState, serialize_state, group_encrypt, group_decrypt}
use libsignal_zig.Group.Record.{IsSenderKeyState}
use libsignal_zig.Group.Exchange.{Follows}
use libsignal_zig.Group.Run.{Posted, plaintext_of, arrived, exchange, SignsFor, exchange_delivers}
use libsignal_zig.Ffi.{Outcome, success, ◌>>=◌}
use libsignal_zig.Ffi.Address.{ProtocolAddress}
use libsignal_zig.Ffi.SenderKeys.{signal_group_encrypt_message, signal_group_decrypt_message}
use libsignal_zig.Examples.Stores.{Program, make_sk_store, sk_load_fn}
use libsignal_zig.Examples.Lawful.{IsAddress, IsProgram}
use libsignal_zig.Examples.Peers.{sk_store_fn_there}

module _ (P : Program) (crypto : Crypto) (aes : BlockCipher) (xeddsa : Xeddsa) (a : ProtocolAddress)
    (id : Bytes) where
  -- The sender's and the receiver's store over the messages, with what the receiver decrypts.
  unfoldable pub talk :
      P.kv.Store → P.kv.Store → List Posted → Outcome (List Bytes × P.kv.Store × P.kv.Store)
  talk alice bob [] = success ([], alice, bob)
  talk alice bob (Posted.delivered plaintext random ∷ ms) = do
    (wire, alice') ←
        signal_group_encrypt_message (make_sk_store P) crypto aes xeddsa alice (some a) id plaintext
          random
    (opened, bob') ←
        signal_group_decrypt_message (make_sk_store P) crypto aes xeddsa bob (some a) id wire
    (rest, alice_end, bob_end) ← talk alice' bob' ms
    success (opened ∷ rest, alice_end, bob_end)
  talk alice bob (Posted.dropped plaintext random ∷ ms) = do
    (wire, alice') ←
        signal_group_encrypt_message (make_sk_store P) crypto aes xeddsa alice (some a) id plaintext
          random
    talk alice' bob ms

  module _ (isP : IsProgram P) (ha : IsAddress a) (size : length id ≡ 16) where
    encrypt_there :
        (s : P.kv.Store) (stored plaintext random wire stored' : Bytes)
        → sk_load_fn P s (some a) id ≡ success (some stored)
        → group_encrypt crypto aes xeddsa (some stored) plaintext random ≡ ok (wire, stored')
        → isP.lawful.Room 0 s
        → (s' : P.kv.Store) × (signal_group_encrypt_message
              (make_sk_store P)
              crypto
              aes
              xeddsa
              s
              (some a)
              id
              plaintext
              random
            ≡ success (wire, s'))
          × isP.lawful.Room 0 s'
          × (sk_load_fn P s' (some a) id ≡ success (some stored'))
    unfolding signal_group_encrypt_message
    encrypt_there s stored plaintext random wire stored' found sent room =
        let (s', put, room', found') =
          sk_store_fn_there P isP 0 s a id stored stored' ha size found room in
        (s', rw (size, found, sent, put), room', found')

    decrypt_there :
        (s : P.kv.Store) (stored plaintext wire stored' : Bytes)
        → sk_load_fn P s (some a) id ≡ success (some stored)
        → group_decrypt crypto aes xeddsa (some stored) wire ≡ ok (plaintext, stored')
        → isP.lawful.Room 0 s
        → (s' : P.kv.Store) × (signal_group_decrypt_message
              (make_sk_store P)
              crypto
              aes
              xeddsa
              s
              (some a)
              id
              wire
            ≡ success (plaintext, s'))
          × isP.lawful.Room 0 s'
          × (sk_load_fn P s' (some a) id ≡ success (some stored'))
    unfolding signal_group_decrypt_message
    decrypt_there s stored plaintext wire stored' found received room =
        let (s', put, room', found') =
          sk_store_fn_there P isP 0 s a id stored stored' ha size found room in
        (s', rw (size, found, received, put), room', found')

    -- What the library does on records alone, it does through the C interface and a program's
    -- store.
    pub talk-exchange :
        (ms : List Posted) (alice bob : P.kv.Store) (stored_a stored_b stored_a' stored_b' : Bytes)
        (out : List Bytes)
        → sk_load_fn P alice (some a) id ≡ success (some stored_a)
        → sk_load_fn P bob (some a) id ≡ success (some stored_b)
        → isP.lawful.Room 0 alice
        → isP.lawful.Room 0 bob
        → exchange crypto aes xeddsa stored_a stored_b ms ≡ ok (out, stored_a', stored_b')
        → (alice' : P.kv.Store) × (bob' : P.kv.Store) × (talk alice bob ms
            ≡ success (out, alice', bob'))
          × (sk_load_fn P alice' (some a) id ≡ success (some stored_a'))
          × (sk_load_fn P bob' (some a) id ≡ success (some stored_b'))
    unfolding talk exchange
    talk-exchange [] alice bob stored_a stored_b stored_a' stored_b' out fa fb ra rb run =
        let same = ok_injective run in
        (
          alice,
          bob,
          (λ i. success ((same i).0, alice, bob)),
          rw fa (λ i. success (some (same i).1)),
          rw fb (λ i. success (some (same i).2)),
        )
    talk-exchange (Posted.delivered p random ∷ ms) alice bob sa sb stored_a' stored_b' out fa fb ra
          rb run =
        let ((wire, sa₁), sent, run₁) = bind-eq-ok _ _ run in
        let ((opened, sb₁), received, run₂) = bind-eq-ok _ _ run₁ in
        let ((rest, sa₂, sb₂), later, done) = bind-eq-ok _ _ run₂ in
        let (alice₁, enc, ra₁, fa₁) = encrypt_there alice sa p random wire sa₁ fa sent ra in
        let (bob₁, dec, rb₁, fb₁) = decrypt_there bob sb opened wire sb₁ fb received rb in
        let (alice', bob', ran, la, lb) =
          talk-exchange ms alice₁ bob₁ sa₁ sb₁ sa₂ sb₂ rest fa₁ fb₁ ra₁ rb₁ later in
        let same = ok_injective done in
        (
          alice',
          bob',
          rw (enc, dec, ran) (λ i. success ((same i).0, alice', bob')),
          rw la (λ i. success (some (same i).1)),
          rw lb (λ i. success (some (same i).2)),
        )
    talk-exchange (Posted.dropped p random ∷ ms) alice bob sa sb stored_a' stored_b' out fa fb ra rb
          run =
        let ((wire, sa₁), sent, run₁) = bind-eq-ok _ _ run in
        let (alice₁, enc, ra₁, fa₁) = encrypt_there alice sa p random wire sa₁ fa sent ra in
        let (alice', bob', ran, la, lb) =
          talk-exchange ms alice₁ bob sa₁ sb stored_a' stored_b' out fa₁ fb ra₁ rb run₁ in
        (alice', bob', rw (enc, ran), la, lb)

    -- In either program's stores, over valid states, a sender whose sender key the receiver
    -- follows gets through the C interface every message that is not lost on the way, in order,
    -- however many are posted: as long as all are signed, with signatures that verify, the
    -- numbers stay below 2^32 - 1, the plaintexts below 2^62 bytes, the sender's address has a
    -- name of at most 460 bytes and a u32 device, the distribution id has 16 bytes, and each
    -- side's store holds its state under them and is within its room.
    pub talk_delivers :
        (ms : List Posted) (alice bob : P.kv.Store) (s r : SenderKeyState) (lost : ℕ)
        → sk_load_fn P alice (some a) id ≡ success (some (serialize_state s))
        → sk_load_fn P bob (some a) id ≡ success (some (serialize_state r))
        → isP.lawful.Room 0 alice
        → isP.lawful.Room 0 bob
        → Follows crypto r s lost
        → IsSenderKeyState s
        → IsSenderKeyState r
        → SignsFor crypto aes xeddsa s r
        → s.iteration + length ms + 1 < 2 ^ 32
        → All (λ m. length (plaintext_of m) < 2 ^ 62) ms
        → (alice' : P.kv.Store) × (bob' : P.kv.Store) × (talk alice bob ms
            ≡ success (arrived ms, alice', bob'))
    talk_delivers ms alice bob s r lost fa fb ra rb f vs vr signs room sizes =
        let (s', r', lost', run, _, _, _) =
          exchange_delivers crypto aes xeddsa ms s r lost f vs vr signs room sizes in
        let (alice', bob', ran, _, _) =
          talk-exchange ms alice bob (serialize_state s) (serialize_state r) (serialize_state s')
            (serialize_state r') (arrived ms) fa fb ra rb run in
        (alice', bob', ran)
