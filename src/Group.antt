-- ===== src/Group.antt =====
-- src/group_session_builder.zig and group_cipher.zig: group messages with sender keys. A sender
-- key store is seen at one sender and distribution: the bytes of the record there, if any.
pub mod Record
pub mod Exchange
pub mod Run
use libsignal_zig.Prelude.{
  ℕ, zero, suc, ◌+◌, ◌-◌, ◌^◌, Option, none, some, [], length, take, replicate, ltb, leb, ◌==◌, not,
  if◌then◌else◌,
}
use libsignal_zig.Prelude.Bytes.{Bytes, read_le}
use libsignal_zig.Prelude.Result.{
  Result, ok, err, stuck, ◌>>=◌, ◌>>◌, fail_if, panic_if, or_return, or_null, invalid_argument,
  invalid_message, session_not_found, duplicate_message,
}
use libsignal_zig.Crypto.{Crypto}
use libsignal_zig.Xeddsa.{Xeddsa}
use libsignal_zig.AesCbc.{BlockCipher, encrypt, decrypt}
use libsignal_zig.Curve.{
  KeyPair, serialize_public_key, serialize_private_key, deserialize_public_key,
  deserialize_private_key,
}
use libsignal_zig.Kdf.{sender_key_derive, next_sender_chain_key}
use libsignal_zig.Proto.{Field, parse_fields, write_varint_field, write_bytes_field}
use libsignal_zig.Proto.Switch.{int_cast, on_varint, on_len}
use libsignal_zig.Messages.Distribution.{DistributionMessage}
use libsignal_zig.Messages.SenderKey.{
  SenderKeyMessage, serialize_sender_key, deserialize_and_verify,
}

pub record SenderKeyState : Type 0 where
  pub message_version : ℕ
  pub chain_id : ℕ
  pub chain_key : Bytes
  pub iteration : ℕ
  pub signing_key_pair : KeyPair
  pub distribution_uuid : Bytes

unfoldable pub serialize_state : SenderKeyState → Bytes
serialize_state s =
    let e₁ = write_varint_field [] 5 s.message_version in
    let e₂ = write_varint_field e₁ 1 s.chain_id in
    let ck = write_bytes_field (write_varint_field [] 1 s.iteration) 2 s.chain_key in
    let e₃ = write_bytes_field e₂ 2 ck in
    let pk = write_bytes_field [] 1 (serialize_public_key s.signing_key_pair.public_key) in
    let sk = write_bytes_field pk 2 (serialize_private_key s.signing_key_pair.private_key) in
    let e₄ = write_bytes_field e₃ 3 sk in write_bytes_field e₄ 4 s.distribution_uuid

-- The local variables of `deserialize`.
pub record Locals : Type 0 where
  pub msg_ver : ℕ
  pub chain_id : ℕ
  pub chain_key : Bytes
  pub iteration : ℕ
  pub pk_bytes : Option Bytes
  pub sk_bytes_raw : Option Bytes
  pub dist_uuid : Bytes

abbrev pub no_locals : Locals
no_locals = record {
  msg_ver = 3;
  chain_id = 0;
  chain_key = replicate 32 0;
  iteration = 0;
  pk_bytes = none;
  sk_bytes_raw = none;
  dist_uuid = replicate 16 0;
}

-- The loop over a chain key, and the one over a signing key.
unfoldable pub chain_key_field : Locals → Field → Result Locals
chain_key_field s f =
    if f.number == 1
    then on_varint s f.payload (λ v. do n ← int_cast 32 v; ok (record s { iteration = n }))
    else if f.number == 2
    then on_len s f.payload
        (λ bs. if length bs == 32 then ok (record s { chain_key = bs }) else ok s)
    else ok s

unfoldable pub signing_key_field : Locals → Field → Result Locals
signing_key_field s f =
    if f.number == 1
    then on_len s f.payload (λ bs. ok (record s { pk_bytes = some bs }))
    else if f.number == 2
    then on_len s f.payload (λ bs. ok (record s { sk_bytes_raw = some bs }))
    else ok s

unfoldable pub state_field : Locals → Field → Result Locals
state_field s f =
    if f.number == 5
    then on_varint s f.payload (λ v. do n ← int_cast 32 v; ok (record s { msg_ver = n }))
    else if f.number == 1
    then on_varint s f.payload (λ v. do n ← int_cast 32 v; ok (record s { chain_id = n }))
    else if f.number == 2
    then on_len s f.payload (λ bs. parse_fields chain_key_field bs s)
    else if f.number == 3
    then on_len s f.payload (λ bs. parse_fields signing_key_field bs s)
    else if f.number == 4
    then on_len s f.payload
        (λ bs. if length bs == 16 then ok (record s { dist_uuid = bs }) else ok s)
    else ok s

unfoldable pub deserialize_state : Bytes → Result SenderKeyState
deserialize_state bytes = do
  s ← parse_fields state_field bytes no_locals
  pk_raw ← or_return s.pk_bytes invalid_argument
  pk ← deserialize_public_key pk_raw
  sk_raw ← or_return s.sk_bytes_raw invalid_argument
  sk ← deserialize_private_key sk_raw
  ok (record {
    message_version = s.msg_ver;
    chain_id = s.chain_id;
    chain_key = s.chain_key;
    iteration = s.iteration;
    signing_key_pair = record { public_key = pk; private_key = sk };
    distribution_uuid = s.dist_uuid;
  })

abbrev pub distribution_of : SenderKeyState → DistributionMessage
distribution_of s = record {
  distribution_uuid = s.distribution_uuid;
  chain_id = s.chain_id;
  iteration = s.iteration;
  chain_key = s.chain_key;
  signing_key = s.signing_key_pair.public_key;
}

-- `createSession`, with the chain key and the key pair that it draws: the message, and the record
-- that is in the store afterwards. A record that does not parse is replaced.
unfoldable pub create_session :
    Option Bytes → Bytes → Bytes → KeyPair → Result (DistributionMessage × Bytes)
create_session existing distribution_id chain_key signing_kp = do
  let fresh : SenderKeyState = record {
    message_version = 3;
    chain_id = read_le (take 4 distribution_id);
    chain_key = chain_key;
    iteration = 0;
    signing_key_pair = signing_kp;
    distribution_uuid = distribution_id;
  }
  let created = ok (distribution_of fresh, serialize_state fresh)
  elim existing [
    | none ↦ created
    | some bytes ↦
        or_null (deserialize_state bytes)
        >>= elim [ none ↦ created | some s ↦ ok (distribution_of s, bytes) ]
  ]

-- `processSession`: the record that it stores has no private key.
unfoldable pub process_session : DistributionMessage → Bytes
process_session m = serialize_state (record {
  message_version = 3;
  chain_id = m.chain_id;
  chain_key = m.chain_key;
  iteration = m.iteration;
  signing_key_pair = record {
    public_key = m.signing_key;
    private_key = record { key_bytes = replicate 32 0 };
  };
  distribution_uuid = m.distribution_uuid;
})

module _ (crypto : Crypto) where
  -- `chain_key = nextSenderChainKey(chain_key); iteration += 1`, on a u32.
  unfoldable pub step : SenderKeyState → Result SenderKeyState
  step s = do
    panic_if (leb (2 ^ 32) (s.iteration + 1))
    ok (record s {
      chain_key = next_sender_chain_key crypto s.chain_key;
      iteration = s.iteration + 1;
    })

  -- `while (current_state.iteration < skm.iteration)`
  unfoldable pub catch_up : ℕ → ℕ → SenderKeyState → Result SenderKeyState
  catch_up zero iteration s = if ltb s.iteration iteration then stuck else ok s
  catch_up (suc rounds) iteration s =
      let more = step s >>= catch_up rounds iteration in
      if ltb s.iteration iteration then more else ok s

  module _ (aes : BlockCipher) (xeddsa : Xeddsa) where
    -- `GroupCipher.encrypt`, with the randomness of the signature: the message, and the record that
    -- is stored.
    unfoldable pub group_encrypt : Option Bytes → Bytes → Bytes → Result (Bytes × Bytes)
    group_encrypt stored plaintext random = do
      record_bytes ← or_return stored session_not_found
      s ← deserialize_state record_bytes
      let derived = sender_key_derive crypto s.iteration s.chain_key
      let m : SenderKeyMessage = record {
        distribution_uuid = s.distribution_uuid;
        chain_id = s.chain_id;
        iteration = s.iteration;
        ciphertext = encrypt aes derived.cipher_key derived.iv plaintext;
      }
      serialized ← serialize_sender_key xeddsa m s.signing_key_pair.private_key random
      s' ← step s
      ok (serialized, serialize_state s')

    unfoldable pub group_decrypt : Option Bytes → Bytes → Result (Bytes × Bytes)
    group_decrypt stored ciphertext = do
      record_bytes ← or_return stored session_not_found
      s ← deserialize_state record_bytes
      skm ← deserialize_and_verify xeddsa ciphertext s.signing_key_pair.public_key
      fail_if (not (skm.chain_id == s.chain_id)) invalid_message
      current ← catch_up (skm.iteration - s.iteration) skm.iteration s
      fail_if (not (current.iteration == skm.iteration)) duplicate_message
      let derived = sender_key_derive crypto current.iteration current.chain_key
      plaintext ← decrypt aes derived.cipher_key derived.iv skm.ciphertext
      s' ← step current
      ok (plaintext, serialize_state s')
