-- ===== src/Messages/Distribution.antt =====
-- src/messages/sender_key_distribution_message.zig
use libsignal_zig.Prelude.{
  ℕ, ◌/◌, ◌^◌, ◌≡◌, Option, none, some, List, [], ◌∷◌, length, ltb, ◌==◌, not, if◌then◌else◌, arith,
  append_assoc, append-nil,
}
use libsignal_zig.Prelude.Bytes.{Bytes, IsU32}
use libsignal_zig.Prelude.Result.{
  Result, ok, err, ◌>>=◌, ◌>>◌, fail_if, or_return, invalid_message, legacy_ciphertext_version,
}
use libsignal_zig.Curve.{
  PublicKey, IsPublicKey, serialize_public_key, deserialize_public_key, length-serialize_public_key,
  deserialize-serialize_public_key,
}
use libsignal_zig.Proto.{Field, parse_fields, write_varint_field, write_bytes_field}
use libsignal_zig.Proto.Fields.{encode_fields, run_fields}
use libsignal_zig.Proto.Writes.{
  varint_field, bytes_field, write_varint_field_lem, write_bytes_field_lem,
}
use libsignal_zig.Proto.Switch.{int_cast, int_cast_lem, on_varint, on_len, parse_fields-budget}

pub record DistributionMessage : Type 0 where
  pub distribution_uuid : Bytes
  pub chain_id : ℕ
  pub iteration : ℕ
  pub chain_key : Bytes
  pub signing_key : PublicKey

-- `(MESSAGE_VERSION << 4) | MESSAGE_VERSION`
abbrev pub version_byte : ℕ
version_byte = 0x33

-- The local variables of `deserialize`; `has_uuid` says whether `uuid` was set.
pub record Locals : Type 0 where
  pub uuid : Option Bytes
  pub chain_id : ℕ
  pub iteration : ℕ
  pub chain_key_raw : Option Bytes
  pub signing_key_raw : Option Bytes

abbrev no_locals : Locals
no_locals = record {
  uuid = none;
  chain_id = 0;
  iteration = 0;
  chain_key_raw = none;
  signing_key_raw = none;
}

unfoldable pub serialize_distribution : DistributionMessage → Bytes
serialize_distribution m =
    let e₁ = write_bytes_field [] 1 m.distribution_uuid in
    let e₂ = write_varint_field e₁ 2 m.chain_id in
    let e₃ = write_varint_field e₂ 3 m.iteration in
    let e₄ = write_bytes_field e₃ 4 m.chain_key in
    let e₅ = write_bytes_field e₄ 5 (serialize_public_key m.signing_key) in version_byte ∷ e₅

unfoldable pub distribution_field : Locals → Field → Result Locals
distribution_field s f =
    if f.number == 1
    then on_len s f.payload
        (λ bs. if length bs == 16 then ok (record s { uuid = some bs }) else ok s)
    else if f.number == 2
    then on_varint s f.payload (λ v. do n ← int_cast 32 v; ok (record s { chain_id = n }))
    else if f.number == 3
    then on_varint s f.payload (λ v. do n ← int_cast 32 v; ok (record s { iteration = n }))
    else if f.number == 4
    then on_len s f.payload (λ bs. ok (record s { chain_key_raw = some bs }))
    else if f.number == 5
    then on_len s f.payload (λ bs. ok (record s { signing_key_raw = some bs }))
    else ok s

unfoldable pub deserialize_distribution : Bytes → Result DistributionMessage
deserialize_distribution [] = err invalid_message
deserialize_distribution (first ∷ body) = do
  fail_if (ltb (first / 2 ^ 4) 3) legacy_ciphertext_version
  s ← parse_fields distribution_field body no_locals
  uuid ← or_return s.uuid invalid_message
  ck ← or_return s.chain_key_raw invalid_message
  fail_if (not (length ck == 32)) invalid_message
  sk_raw ← or_return s.signing_key_raw invalid_message
  sk ← deserialize_public_key sk_raw
  ok (record {
    distribution_uuid = uuid;
    chain_id = s.chain_id;
    iteration = s.iteration;
    chain_key = ck;
    signing_key = sk;
  })

pub record IsDistribution (m : DistributionMessage) : Type 0 where
  pub uuid : length m.distribution_uuid ≡ 16
  pub chain_id : IsU32 m.chain_id
  pub iteration : IsU32 m.iteration
  pub chain_key : length m.chain_key ≡ 32
  pub signing_key : IsPublicKey m.signing_key

abbrev distribution_fields : DistributionMessage → List Field
distribution_fields m =
    bytes_field 1 m.distribution_uuid
    ∷ varint_field 2 m.chain_id
    ∷ varint_field 3 m.iteration
    ∷ bytes_field 4 m.chain_key
    ∷ bytes_field 5 (serialize_public_key m.signing_key)
    ∷ []

serialize_distribution_lem :
    (m : DistributionMessage)
    → serialize_distribution m ≡ version_byte ∷ encode_fields (distribution_fields m)
unfolding serialize_distribution encode_fields
serialize_distribution_lem m =
    rw
      (
        write_bytes_field_lem _ 5 (omega arith) (serialize_public_key m.signing_key),
        write_bytes_field_lem _ 4 (omega arith) m.chain_key,
        write_varint_field_lem _ 3 (omega arith) m.iteration,
        write_varint_field_lem _ 2 (omega arith) m.chain_id,
        write_bytes_field_lem [] 1 (omega arith) m.distribution_uuid,
      )
      (simp (append_assoc, append-nil))

-- A distribution message whose parts have their widths is read back from its serialized form.
pub deserialize-serialize_distribution :
    (m : DistributionMessage)
    → IsDistribution m
    → deserialize_distribution (serialize_distribution m) ≡ ok m
unfolding deserialize_distribution distribution_field run_fields
deserialize-serialize_distribution m valid =
    let sk = length-serialize_public_key m.signing_key valid.signing_key in
    let uuid = valid.uuid in
    let ck = valid.chain_key in
    rw (
      serialize_distribution_lem m,
      parse_fields-budget distribution_field (distribution_fields m) no_locals
          (omega (arith, sk, uuid, ck, valid.chain_id, valid.iteration))
          (omega (arith, sk, uuid, ck)),
      uuid,
      int_cast_lem 32 m.chain_id valid.chain_id,
      int_cast_lem 32 m.iteration valid.iteration,
      ck,
      deserialize-serialize_public_key m.signing_key valid.signing_key,
    )
