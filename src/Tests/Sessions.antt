-- ===== src/Tests/Sessions.antt =====
-- The theorems on the key agreement and on sessions at concrete inputs.
use libsignal_zig.Prelude.{
  drop, ℕ, sym, ap, ◌≡◌, refl, Option, none, some, true, [], ◌∷◌, ◌++◌, length, eql_refl, replicate,
  arith,
}
use libsignal_zig.Prelude.Bytes.{Bytes}
use libsignal_zig.Prelude.Result.{ok, err, duplicate_message, ok_injective}
use libsignal_zig.Curve.{
  PublicKey, KeyPair, public_key_eql, calculate_agreement, serialize_public_key,
  deserialize_public_key,
}
use libsignal_zig.Kdf.{
  derive_message_keys, message_key_seed, next_chain_key, SessionKeys, create_session_keys,
}
use libsignal_zig.Ratchet.{MessageKeys, ChainKey, message_keys}
use libsignal_zig.Ratchet.Agreement.{
  KyberKeyPair, Bundle, Agree, AliceKeys, alice_initialize, bob_initialize, alice_view, bob_view,
  bob_initialize-alice_initialize,
}
use libsignal_zig.Session.{
  PendingPreKey, ReceiverChain, SessionState, init, chain_message_keys, in_receiver_chain,
  get_or_compute_message_keys, max_message_keys, take_skipped,
}
use libsignal_zig.Session.Chain.{ratchet, skipped, newest, chain_of, chain_message_keys_forward}
use libsignal_zig.Session.Cache.{IsValid}
use libsignal_zig.Session.Receive.{
  AllValid, get_or_compute_message_keys-replay, chain_message_keys_out_of_order,
}
use libsignal_zig.AesCbc.{BlockCipher, encrypt, decrypt, decrypt-encrypt, length-encrypt}
use libsignal_zig.Proto.{parse_fields}
use libsignal_zig.Spqr.{Machine, spqr_send, spqr_recv}
use libsignal_zig.Messages.Signal.{SignalMessage, IsSignal, serialize_signal, mac_of}
use libsignal_zig.SessionCipher.{
  CiphertextType, encrypt_message, Locals, no_locals, whisper_field, get_message_keys,
  decrypt_whisper_message,
}
use libsignal_zig.SessionCipher.Whisper.{
  decrypt_whisper_message-serialize_signal, decrypt_whisper_message_authenticated,
}
use libsignal_zig.SessionCipher.Exchange.{Ready, Follows, decrypt_whisper_message-encrypt_message}
use libsignal_zig.SessionCipher.Pending.{decrypt_whisper_message_pending}
use libsignal_zig.Tests.{toy}

-- A key pair of the toy agreement, told by one byte.
abbrev pair : ℕ → KeyPair
pair n = record {
  public_key = record { key_bytes = n ∷ replicate 31 0 };
  private_key = record { key_bytes = n ∷ replicate 31 0 };
}

abbrev kyber_pair : KyberKeyPair
kyber_pair = record { public_key_bytes = 9 ∷ []; secret_key_bytes = 9 ∷ [] }

abbrev bundle : Bundle
bundle = record {
  identity = pair 3;
  signed_pre_key = pair 4;
  one_time_pre_key = some (pair 5);
  kyber_pre_key = some kyber_pair;
}

abbrev agreement : Agree toy (pair 1) (pair 2) bundle (7 ∷ [])
agreement = record {
  dh1 = refl;
  dh2 = refl;
  dh3 = refl;
  dh4 = refl;
  kem = λ ct ss e.
      let same = ok_injective e in
      (sym (ap (λ (r : Bytes × Bytes). length r.0) same), ap (λ (r : Bytes × Bytes). ok r.1) same);
}

abbrev chain : ChainKey
chain = record { key = replicate 32 6; index = 0 }

abbrev receiver : ReceiverChain
receiver = chain_of (pair 8).public_key chain []

receiver-IsValid : IsValid receiver
receiver-IsValid = record { once = λ d. omega arith; behind = λ d h. refl; bounded = omega arith }

abbrev rk : Bytes
rk = (pair 8).public_key.key_bytes

-- The chain behind message 2, with messages 0 and 1 in the cache.
abbrev received : ReceiverChain
received =
    chain_of (pair 8).public_key (ratchet toy 3 chain)
      (newest max_message_keys ([] ++ skipped toy rk 2 chain))

at_2 :
    (pqr_key : Option Bytes)
    → chain_message_keys toy receiver rk 2 pqr_key
      ≡ ok (message_keys toy (ratchet toy 2 chain) pqr_key, received)
at_2 pqr_key =
    chain_message_keys_forward toy (pair 8).public_key rk chain [] 2 pqr_key
      (unfold take_skipped in refl) (omega arith) (omega arith) (omega arith) (omega arith)

chain_message_keys_forward_example :
    chain_message_keys toy receiver rk 2 (some (5 ∷ []))
    ≡ ok (message_keys toy (ratchet toy 2 chain) (some (5 ∷ [])), received)
chain_message_keys_forward_example =
    chain_message_keys_forward toy (pair 8).public_key rk chain [] 2 (some (5 ∷ []))
      (unfold take_skipped in refl) (omega arith) (omega arith) (omega arith) (omega arith)

chain_message_keys_out_of_order_example :
    (rc : ReceiverChain) × (chain_message_keys toy received rk 1 (some (5 ∷ []))
      ≡ ok (message_keys toy (ratchet toy 1 chain) none, rc))
chain_message_keys_out_of_order_example =
    chain_message_keys_out_of_order toy rk receiver received 1 2 none (some (5 ∷ []))
      (message_keys toy (ratchet toy 2 chain) none) receiver-IsValid (omega arith) (omega arith)
      (omega arith) (omega arith) (omega arith) (at_2 none)

-- The pre-key that a session still names in its messages.
abbrev pending : PendingPreKey
pending = record {
  pre_key_id = some 3;
  signed_pre_key_id = 4;
  base_key = (pair 1).public_key;
  timestamp = 0;
}

abbrev before : SessionState
before = record (init (pair 1)) { receiver_chains = receiver ∷ []; pending_pre_key = some pending }

abbrev after : SessionState
after = record (init (pair 1)) { receiver_chains = received ∷ []; pending_pre_key = some pending }

first :
    get_or_compute_message_keys toy before (pair 8).public_key 2 none
    ≡ ok (some (message_keys toy (ratchet toy 2 chain) none, after))
unfolding get_or_compute_message_keys in_receiver_chain public_key_eql init
first = rw (eql_refl (pair 8).public_key.key_bytes, at_2 none)

get_or_compute_message_keys-replay_example :
    AllValid after.receiver_chains
    × (get_or_compute_message_keys toy after (pair 8).public_key 2 (some (5 ∷ []))
        ≡ err duplicate_message)
unfolding init
get_or_compute_message_keys-replay_example =
    get_or_compute_message_keys-replay toy (pair 8).public_key 2 before after none (some (5 ∷ []))
      (message_keys toy (ratchet toy 2 chain) none) (receiver-IsValid, tt) (omega arith) first

abbrev agreed : ℕ → Bytes
agreed n = n ∷ replicate 31 0

abbrev derived : SessionKeys
derived =
    create_session_keys toy
      (((((replicate 32 0xff ++ agreed 4) ++ agreed 6) ++ agreed 8) ++ agreed 10) ++ 9 ∷ []) true

abbrev alice : AliceKeys
alice = record {
  root_key = record { key = derived.root_key };
  chain_key = record { key = derived.chain_key; index = 0 };
  pqr_key = derived.pqr_key;
  kyber_ciphertext = some (replicate 1568 0);
}

alice_run : alice_initialize toy (alice_view (pair 1) (pair 2) bundle) (7 ∷ []) ≡ ok alice
unfolding alice_initialize calculate_agreement
alice_run = refl

bob_initialize-alice_initialize_example :
    bob_initialize toy (bob_view (pair 1) (pair 2) bundle alice.kyber_ciphertext)
    ≡ ok
        (record { root_key = alice.root_key; chain_key = alice.chain_key; pqr_key = alice.pqr_key })
bob_initialize-alice_initialize_example =
    bob_initialize-alice_initialize toy (pair 1) (pair 2) (7 ∷ []) bundle alice agreement alice_run

-- A cipher that leaves the block as it is, and a post-quantum ratchet that stands still.
abbrev pub plain_cipher : BlockCipher
plain_cipher = record {
  encipher = λ key block. block;
  decipher = λ key block. block;
  length-encipher = λ key block h. h;
  decipher-encipher = λ key block h. refl;
}

abbrev still : Machine
still = record {
  send_chunk = λ state. ok (state, 1 ∷ [], none);
  recv_chunk = λ state msg. ok (state, none);
}

decrypt-encrypt_example :
    decrypt plain_cipher
      (1 ∷ [])
      (replicate 16 2)
      (encrypt plain_cipher (1 ∷ []) (replicate 16 2) (7 ∷ 8 ∷ []))
    ≡ ok (7 ∷ 8 ∷ [])
decrypt-encrypt_example = decrypt-encrypt plain_cipher (1 ∷ []) (replicate 16 2) (7 ∷ 8 ∷ []) refl

abbrev keys_2 : MessageKeys
keys_2 = message_keys toy (ratchet toy 2 chain) none

abbrev whisper : SignalMessage
whisper = record {
  message_version = 4;
  ratchet_key = (pair 8).public_key;
  counter = 2;
  previous_counter = 0;
  ciphertext = encrypt plain_cipher keys_2.cipher_key keys_2.iv (7 ∷ 8 ∷ []);
  pq_ratchet = none;
  addresses = none;
}

iv_2 : length keys_2.iv ≡ 16
unfolding message_keys derive_message_keys message_key_seed ratchet next_chain_key
iv_2 = refl

whisper-IsSignal : IsSignal whisper
whisper-IsSignal = record {
  version = (omega arith, omega arith);
  ratchet_key = refl;
  counter = omega arith;
  previous_counter = omega arith;
  ciphertext =
      omega (arith, length-encrypt plain_cipher keys_2.cipher_key keys_2.iv (7 ∷ 8 ∷ []) iv_2);
  pq_ratchet = tt;
  addresses = tt;
}

got_2 : get_message_keys toy before (pair 8).public_key 2 none (pair 9) ≡ ok (keys_2, after)
unfolding get_message_keys
got_2 = rw first

decrypt_whisper_message-serialize_signal_example :
    decrypt_whisper_message toy plain_cipher still before
      (serialize_signal toy whisper (1 ∷ []) (2 ∷ []) keys_2.mac_key)
      (1 ∷ [])
      (2 ∷ [])
      (pair 9)
    ≡ ok (7 ∷ 8 ∷ [], after)
unfolding spqr_recv init
decrypt_whisper_message-serialize_signal_example =
    decrypt_whisper_message-serialize_signal toy plain_cipher still before after whisper keys_2
      (pair 9) (1 ∷ []) (2 ∷ []) (7 ∷ 8 ∷ []) [] none whisper-IsSignal refl got_2 iv_2 refl

abbrev wire : Bytes
wire = serialize_signal toy whisper (1 ∷ []) (2 ∷ []) keys_2.mac_key

received_2 :
    decrypt_whisper_message toy plain_cipher still before wire (1 ∷ []) (2 ∷ []) (pair 9)
    ≡ ok (7 ∷ 8 ∷ [], after)
unfolding spqr_recv init
received_2 =
    decrypt_whisper_message-serialize_signal toy plain_cipher still before after whisper keys_2
      (pair 9) (1 ∷ []) (2 ∷ []) (7 ∷ 8 ∷ []) [] none whisper-IsSignal refl got_2 iv_2 refl

decrypt_whisper_message_authenticated_example :
    (part : Bytes) × (l : Locals) × (key_bytes : Bytes) × (ratchet_key : PublicKey)
    × (ciphertext : Bytes) × (pq_state : Bytes) × (pqr_key : Option Bytes) × (keys : MessageKeys)
    × (wire ≡ part ++ mac_of toy keys.mac_key (1 ∷ []) (2 ∷ []) part)
    × (parse_fields whisper_field (drop 1 part) no_locals ≡ ok l)
    × (l.rk_bytes ≡ some key_bytes)
    × (deserialize_public_key key_bytes ≡ ok ratchet_key)
    × (spqr_recv still before.pq_ratchet_state l.pq_ratchet_raw ≡ ok (pq_state, pqr_key))
    × (get_message_keys toy
          (record before { pq_ratchet_state = pq_state })
          ratchet_key
          l.counter
          pqr_key
          (pair 9)
        ≡ ok (keys, after))
    × (l.ciphertext_raw ≡ some ciphertext)
    × (decrypt plain_cipher keys.cipher_key keys.iv ciphertext ≡ ok (7 ∷ 8 ∷ []))
decrypt_whisper_message_authenticated_example =
    decrypt_whisper_message_authenticated toy plain_cipher still before after wire (1 ∷ []) (2 ∷ [])
      (7 ∷ 8 ∷ []) (pair 9) received_2

-- Alice sends on the chain that Bob's receiver chain leads to, two messages further on.
abbrev alice_state : SessionState
alice_state = record (init (pair 1)) {
  sender_ratchet_key_pair = pair 8;
  sender_chain_key = ratchet toy 2 chain;
}

alice-Ready : Ready alice_state (7 ∷ 8 ∷ []) []
unfolding ratchet init
alice-Ready = record {
  no_pending = refl;
  version = (omega arith, omega arith);
  ratchet_key = refl;
  counter = omega arith;
  previous_counter = omega arith;
  text_size = omega arith;
  chunk_size = tt;
}

before-Follows : Follows toy before alice_state 2
unfolding init public_key_eql
before-Follows = record {
  chain = receiver;
  found = rw (eql_refl (pair 8).public_key.key_bytes);
  valid = receiver-IsValid;
  ahead = refl;
}

decrypt_whisper_message-encrypt_message_example :
    (sent_bytes : Bytes) × (a' : SessionState) × (b' : SessionState) × (encrypt_message toy
        plain_cipher still alice_state
        (pair 1).public_key
        (7 ∷ 8 ∷ [])
      ≡ ok (CiphertextType.whisper, sent_bytes, a'))
    × (decrypt_whisper_message toy plain_cipher still before sent_bytes
          (serialize_public_key (pair 1).public_key)
          (serialize_public_key alice_state.remote_identity_key)
          (pair 9)
        ≡ ok (7 ∷ 8 ∷ [], b'))
    × Follows toy b' a' 0
unfolding spqr_send spqr_recv init
decrypt_whisper_message-encrypt_message_example =
    decrypt_whisper_message-encrypt_message toy plain_cipher still alice_state before 2
      (pair 1).public_key (pair 9) (7 ∷ 8 ∷ []) [] [] [] none alice-Ready before-Follows
      (omega arith) refl refl

decrypt_whisper_message_pending_example : after.pending_pre_key ≡ before.pending_pre_key
decrypt_whisper_message_pending_example =
    decrypt_whisper_message_pending toy plain_cipher still before after wire (1 ∷ []) (2 ∷ [])
      (7 ∷ 8 ∷ []) (pair 9) received_2
