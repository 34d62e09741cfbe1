-- ===== src/Records.antt =====
-- src/state/pre_key_record.zig, signed_pre_key_record.zig, kyber_pre_key_record.zig: the
-- protobuf forms in which pre-keys are stored.
pub mod RoundTrip
use libsignal_zig.Prelude.{ℕ, Bool, Option, none, some, [], length, ◌==◌, not, if◌then◌else◌}
use libsignal_zig.Prelude.Bytes.{Bytes}
use libsignal_zig.Prelude.Result.{
  Result, ok, ◌>>=◌, ◌>>◌, fail_if, or_return, invalid_argument, invalid_key, invalid_signature,
}
use libsignal_zig.Curve.{
  KeyPair, serialize_public_key, serialize_private_key, deserialize_public_key,
  deserialize_private_key,
}
use libsignal_zig.Proto.{
  Field, parse_fields, write_varint_field, write_bytes_field, write_fixed64_field,
}
use libsignal_zig.Proto.Switch.{int_cast, on_varint, on_i64, on_len}
use libsignal_zig.Ratchet.Agreement.{KyberKeyPair}

pub record PreKeyRecord : Type 0 where
  pub id : ℕ
  pub key_pair : KeyPair

pub record SignedPreKeyRecord : Type 0 where
  pub id : ℕ
  pub timestamp : ℕ
  pub key_pair : KeyPair
  pub signature : Bytes

pub record KyberPreKeyRecord : Type 0 where
  pub id : ℕ
  pub timestamp : ℕ
  pub key_pair : KyberKeyPair
  pub signature : Bytes

-- The lengths of ML-KEM-1024's encoded keys.
abbrev pub kyber_public_length : ℕ
kyber_public_length = 1568

abbrev pub kyber_secret_length : ℕ
kyber_secret_length = 3168

-- The local variables of the three `deserialize`s.
pub record Fields : Type 0 where
  pub id_val : Option ℕ
  pub pk_bytes : Option Bytes
  pub sk_bytes : Option Bytes
  pub sig_bytes : Option Bytes
  pub ts : ℕ

abbrev pub no_fields : Fields
no_fields = record { id_val = none; pk_bytes = none; sk_bytes = none; sig_bytes = none; ts = 0 }

unfoldable pub serialize_pre_key : PreKeyRecord → Bytes
serialize_pre_key r =
    let e₁ = write_varint_field [] 1 r.id in
    let e₂ = write_bytes_field e₁ 2 (serialize_public_key r.key_pair.public_key) in
    write_bytes_field e₂ 3 (serialize_private_key r.key_pair.private_key)

unfoldable pub pre_key_field : Fields → Field → Result Fields
pre_key_field s f =
    if f.number == 1
    then on_varint s f.payload (λ v. do id ← int_cast 32 v; ok (record s { id_val = some id }))
    else if f.number == 2
    then on_len s f.payload (λ bs. ok (record s { pk_bytes = some bs }))
    else if f.number == 3
    then on_len s f.payload (λ bs. ok (record s { sk_bytes = some bs }))
    else ok s

unfoldable pub deserialize_pre_key : Bytes → Result PreKeyRecord
deserialize_pre_key bytes = do
  s ← parse_fields pre_key_field bytes no_fields
  id ← or_return s.id_val invalid_argument
  pk_raw ← or_return s.pk_bytes invalid_argument
  pk ← deserialize_public_key pk_raw
  sk_raw ← or_return s.sk_bytes invalid_argument
  sk ← deserialize_private_key sk_raw
  ok (record { id = id; key_pair = record { public_key = pk; private_key = sk } })

unfoldable pub serialize_signed_pre_key : SignedPreKeyRecord → Bytes
serialize_signed_pre_key r =
    let e₁ = write_varint_field [] 1 r.id in
    let e₂ = write_bytes_field e₁ 2 (serialize_public_key r.key_pair.public_key) in
    let e₃ = write_bytes_field e₂ 3 (serialize_private_key r.key_pair.private_key) in
    let e₄ = write_bytes_field e₃ 4 r.signature in write_fixed64_field e₄ 5 r.timestamp

-- The `switch` of the signed and of the Kyber record.
unfoldable pub signed_field : Fields → Field → Result Fields
signed_field s f =
    if f.number == 1
    then on_varint s f.payload (λ v. do id ← int_cast 32 v; ok (record s { id_val = some id }))
    else if f.number == 2
    then on_len s f.payload (λ bs. ok (record s { pk_bytes = some bs }))
    else if f.number == 3
    then on_len s f.payload (λ bs. ok (record s { sk_bytes = some bs }))
    else if f.number == 4
    then on_len s f.payload (λ bs. ok (record s { sig_bytes = some bs }))
    else if f.number == 5
    then on_i64 s f.payload (λ v. ok (record s { ts = v }))
    else ok s

unfoldable pub deserialize_signed_pre_key : Bytes → Result SignedPreKeyRecord
deserialize_signed_pre_key bytes = do
  s ← parse_fields signed_field bytes no_fields
  id ← or_return s.id_val invalid_argument
  pk_raw ← or_return s.pk_bytes invalid_argument
  pk ← deserialize_public_key pk_raw
  sk_raw ← or_return s.sk_bytes invalid_argument
  sk ← deserialize_private_key sk_raw
  sig_raw ← or_return s.sig_bytes invalid_argument
  fail_if (not (length sig_raw == 64)) invalid_signature
  ok (record {
    id = id;
    timestamp = s.ts;
    key_pair = record { public_key = pk; private_key = sk };
    signature = sig_raw;
  })

unfoldable pub serialize_kyber_pre_key : KyberPreKeyRecord → Bytes
serialize_kyber_pre_key r =
    let e₁ = write_varint_field [] 1 r.id in
    let e₂ = write_bytes_field e₁ 2 r.key_pair.public_key_bytes in
    let e₃ = write_bytes_field e₂ 3 r.key_pair.secret_key_bytes in
    let e₄ = write_bytes_field e₃ 4 r.signature in write_fixed64_field e₄ 5 r.timestamp

unfoldable pub deserialize_kyber_pre_key : Bytes → Result KyberPreKeyRecord
deserialize_kyber_pre_key bytes = do
  s ← parse_fields signed_field bytes no_fields
  id ← or_return s.id_val invalid_argument
  pk_raw ← or_return s.pk_bytes invalid_argument
  fail_if (not (length pk_raw == kyber_public_length)) invalid_key
  sk_raw ← or_return s.sk_bytes invalid_argument
  fail_if (not (length sk_raw == kyber_secret_length)) invalid_key
  sig_raw ← or_return s.sig_bytes invalid_argument
  fail_if (not (length sig_raw == 64)) invalid_signature
  ok (record {
    id = id;
    timestamp = s.ts;
    key_pair = record { public_key_bytes = pk_raw; secret_key_bytes = sk_raw };
    signature = sig_raw;
  })
