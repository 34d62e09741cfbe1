-- ===== src/Messages/Signal.antt =====
-- src/messages/signal_message.zig: the serialized form of a message of the Double Ratchet.
use libsignal_zig.Prelude.{
  ℕ, ◌+◌, ◌*◌, ◌^◌, ◌<◌, ◌≤◌, ◌≡◌, Option, none, some, List, [], ◌∷◌, ◌++◌, length, take,
  length-take, arith, append_assoc, bit_and, bit_or,
}
use libsignal_zig.Prelude.Bytes.{Bytes, IsU32}
use libsignal_zig.Crypto.{Crypto}
use libsignal_zig.Curve.{PublicKey, IsPublicKey, serialize_public_key, length-serialize_public_key}
use libsignal_zig.Proto.{Field, write_varint_field, write_bytes_field}
use libsignal_zig.Proto.Fields.{encode_fields}
use libsignal_zig.Proto.Writes.{
  varint_field, bytes_field, write_varint_field_lem, write_bytes_field_lem,
}
use libsignal_zig.Proto.Switch.{
  write_some, field_some, encode_fields-append, encode_fields-cons, write_some_lem, AllOf, Fits,
  append-Fits, field_some-Fits,
}

abbrev pub mac_length : ℕ
mac_length = 8

abbrev pub current_version : ℕ
current_version = 4

pub record SignalMessage : Type 0 where
  pub message_version : ℕ
  pub ratchet_key : PublicKey
  pub counter : ℕ
  pub previous_counter : ℕ
  pub ciphertext : Bytes
  pub pq_ratchet : Option Bytes
  pub addresses : Option Bytes

-- `if (self.pq_ratchet) |pqr| { if (pqr.len > 0) … }`: an empty value is not sent.
abbrev pub nonempty : Option Bytes → Option Bytes
nonempty none = none
nonempty (some []) = none
nonempty (some (b ∷ bs)) = some (b ∷ bs)

-- The version byte and the protobuf body, which the MAC covers.
unfoldable pub authenticated_part : SignalMessage → Bytes
authenticated_part m =
    let e₁ = write_bytes_field [] 1 (serialize_public_key m.ratchet_key) in
    let e₂ = write_varint_field e₁ 2 m.counter in
    let e₃ = write_varint_field e₂ 3 m.previous_counter in
    let e₄ = write_bytes_field e₃ 4 m.ciphertext in
    let e₅ = write_some (λ buf bs. write_bytes_field buf 5 bs) e₄ (nonempty m.pq_ratchet) in
    let e₆ = write_some (λ buf bs. write_bytes_field buf 6 bs) e₅ m.addresses in
    bit_or (bit_and m.message_version 0xf * 2 ^ 4) current_version ∷ e₆

-- The first eight bytes of the HMAC over both identities and the message.
unfoldable pub mac_of : Crypto → Bytes → Bytes → Bytes → Bytes → Bytes
mac_of crypto mac_key sender receiver message =
    take mac_length (crypto.hmac mac_key (sender ++ (receiver ++ message)))

unfoldable pub serialize_signal : Crypto → SignalMessage → Bytes → Bytes → Bytes → Bytes
serialize_signal crypto m sender_identity receiver_identity mac_key =
    authenticated_part m
    ++ mac_of crypto mac_key sender_identity receiver_identity (authenticated_part m)

pub record IsSignal (m : SignalMessage) : Type 0 where
  pub version : (3 ≤ m.message_version) × (m.message_version < 16)
  pub ratchet_key : IsPublicKey m.ratchet_key
  pub counter : IsU32 m.counter
  pub previous_counter : IsU32 m.previous_counter
  pub ciphertext : length m.ciphertext < 2 ^ 62
  pub pq_ratchet : AllOf (λ bs. length bs < 2 ^ 62) (nonempty m.pq_ratchet)
  pub addresses : AllOf (λ bs. length bs ≡ 36) m.addresses

abbrev pub signal_fields : SignalMessage → List Field
signal_fields m =
    bytes_field 1 (serialize_public_key m.ratchet_key)
    ∷ varint_field 2 m.counter
    ∷ varint_field 3 m.previous_counter
    ∷ bytes_field 4 m.ciphertext
    ∷ (field_some (λ bs. bytes_field 5 bs) (nonempty m.pq_ratchet)
        ++ field_some (λ bs. bytes_field 6 bs) m.addresses)

pub authenticated_part_lem :
    (m : SignalMessage)
    → authenticated_part m
      ≡ bit_or (bit_and m.message_version 0xf * 2 ^ 4) current_version
        ∷ encode_fields (signal_fields m)
unfolding authenticated_part
authenticated_part_lem m =
    rw
      (
        write_some_lem _ (λ bs. bytes_field 6 bs) _ m.addresses
            (λ b v. write_bytes_field_lem b 6 (omega arith) v),
        write_some_lem _ (λ bs. bytes_field 5 bs) _ (nonempty m.pq_ratchet)
            (λ b v. write_bytes_field_lem b 5 (omega arith) v),
        write_bytes_field_lem _ 4 (omega arith) m.ciphertext,
        write_varint_field_lem _ 3 (omega arith) m.previous_counter,
        write_varint_field_lem _ 2 (omega arith) m.counter,
        write_bytes_field_lem [] 1 (omega arith) (serialize_public_key m.ratchet_key),
      )
      (simp (encode_fields-append, encode_fields-cons, append_assoc))

pub signal_fields-Fits : (m : SignalMessage) → IsSignal m → Fits (signal_fields m) (2 ^ 63 + 300)
signal_fields-Fits m valid =
    let rk = length-serialize_public_key m.ratchet_key valid.ratchet_key in
    let optional =
      append-Fits (field_some (λ bs. bytes_field 5 bs) (nonempty m.pq_ratchet))
        (field_some (λ bs. bytes_field 6 bs) m.addresses) (2 ^ 62 + 20) 56
        (field_some-Fits (λ bs. length bs < 2 ^ 62) (λ bs. bytes_field 5 bs) (nonempty m.pq_ratchet)
          (2 ^ 62 + 20) (λ bs h. (omega arith, omega arith)) valid.pq_ratchet)
        (field_some-Fits (λ bs. length bs ≡ 36) (λ bs. bytes_field 6 bs) m.addresses 56
          (λ bs h. (omega arith, omega arith)) valid.addresses) in
    (
      (
        omega (arith, rk),
        (
          omega (arith, valid.counter),
          (omega (arith, valid.previous_counter), (omega (arith, valid.ciphertext), optional.0)),
        ),
      ),
      omega (arith, rk, valid.ciphertext, optional.1),
    )

pub length-mac_of :
    (crypto : Crypto) (mac_key sender receiver message : Bytes)
    → length (mac_of crypto mac_key sender receiver message) ≡ mac_length
unfolding mac_of
length-mac_of crypto mac_key sender receiver message =
    let whole = sender ++ (receiver ++ message) in
    omega
      (arith, length-take mac_length (crypto.hmac mac_key whole), crypto.length-hmac mac_key whole)
