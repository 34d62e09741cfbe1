-- ===== src/Messages/SenderKey.antt =====
-- src/messages/sender_key_message.zig: a group message and its signature.
use libsignal_zig.Prelude.{
  Bool-not, ℕ, ◌+◌, ◌-◌, ◌/◌, ◌^◌, ◌<◌, ◌≡◌, refl, sym, ap, ◌∙◌, true, Option, none, some, List, [],
  ◌∷◌, ◌++◌, length, take, drop, get_or, ltb, le→ltb, ◌==◌, not, if◌then◌else◌, arith, append_assoc,
  append-nil, length-append, take_prefix, drop_prefix, take-append-drop, length-drop,
}
use libsignal_zig.Prelude.Bytes.{Bytes, IsU32}
use libsignal_zig.Prelude.Result.{
  Result, ok, ◌>>=◌, ◌>>◌, fail_if, or_return, invalid_message, invalid_signature,
  legacy_ciphertext_version, bind-eq-ok, fail_if-eq-ok,
}
use libsignal_zig.Xeddsa.{Xeddsa}
use libsignal_zig.Curve.{PublicKey, PrivateKey}
use libsignal_zig.Proto.{Field, parse_fields, write_varint_field, write_bytes_field}
use libsignal_zig.Proto.Fields.{encode_fields, run_fields}
use libsignal_zig.Proto.Writes.{
  varint_field, bytes_field, write_varint_field_lem, write_bytes_field_lem,
}
use libsignal_zig.Proto.Switch.{int_cast, int_cast_lem, on_varint, on_len, parse_fields-budget}

pub record SenderKeyMessage : Type 0 where
  pub distribution_uuid : Bytes
  pub chain_id : ℕ
  pub iteration : ℕ
  pub ciphertext : Bytes

abbrev pub version_byte : ℕ
version_byte = 0x33

abbrev pub signature_length : ℕ
signature_length = 64

pub record Locals : Type 0 where
  pub uuid : Option Bytes
  pub chain_id : ℕ
  pub iteration : ℕ
  pub ciphertext_raw : Option Bytes

abbrev no_locals : Locals
no_locals = record { uuid = none; chain_id = 0; iteration = 0; ciphertext_raw = none }

-- The part that is signed: the version byte and the protobuf body.
unfoldable pub signed_part : SenderKeyMessage → Bytes
signed_part m =
    let e₁ = write_bytes_field [] 1 m.distribution_uuid in
    let e₂ = write_varint_field e₁ 2 m.chain_id in
    let e₃ = write_varint_field e₂ 3 m.iteration in
    let e₄ = write_bytes_field e₃ 4 m.ciphertext in version_byte ∷ e₄

unfoldable pub sender_key_field : Locals → Field → Result Locals
sender_key_field s f =
    if f.number == 1
    then on_len s f.payload
        (λ bs. if length bs == 16 then ok (record s { uuid = some bs }) else ok s)
    else if f.number == 2
    then on_varint s f.payload (λ v. do n ← int_cast 32 v; ok (record s { chain_id = n }))
    else if f.number == 3
    then on_varint s f.payload (λ v. do n ← int_cast 32 v; ok (record s { iteration = n }))
    else if f.number == 4
    then on_len s f.payload (λ bs. ok (record s { ciphertext_raw = some bs }))
    else ok s

unfoldable pub deserialize_body : Bytes → Result SenderKeyMessage
deserialize_body body = do
  s ← parse_fields sender_key_field body no_locals
  uuid ← or_return s.uuid invalid_message
  ct ← or_return s.ciphertext_raw invalid_message
  ok (record {
    distribution_uuid = uuid;
    chain_id = s.chain_id;
    iteration = s.iteration;
    ciphertext = ct;
  })

module _ (xeddsa : Xeddsa) where
  -- `serialize`, with the randomness that the signature draws.
  unfoldable pub serialize_sender_key : SenderKeyMessage → PrivateKey → Bytes → Result Bytes
  serialize_sender_key m signing_key random = do
    sig ← xeddsa.sign signing_key.key_bytes (signed_part m) random
    ok (signed_part m ++ sig)

  unfoldable pub deserialize_and_verify : Bytes → PublicKey → Result SenderKeyMessage
  deserialize_and_verify bytes sender_key = do
    fail_if (ltb (length bytes) (1 + signature_length)) invalid_message
    fail_if (ltb (get_or bytes 0 0 / 2 ^ 4) 3) legacy_ciphertext_version
    let sig_start = length bytes - signature_length
    let signed = take sig_start bytes
    valid ← xeddsa.verify sender_key.key_bytes signed (drop sig_start bytes)
    fail_if (not valid) invalid_signature
    deserialize_body (drop 1 signed)

pub record IsSenderKey (m : SenderKeyMessage) : Type 0 where
  pub uuid : length m.distribution_uuid ≡ 16
  pub chain_id : IsU32 m.chain_id
  pub iteration : IsU32 m.iteration
  pub ciphertext : length m.ciphertext < 2 ^ 63

abbrev sender_key_fields : SenderKeyMessage → List Field
sender_key_fields m =
    bytes_field 1 m.distribution_uuid
    ∷ varint_field 2 m.chain_id
    ∷ varint_field 3 m.iteration
    ∷ bytes_field 4 m.ciphertext
    ∷ []

signed_part_lem :
    (m : SenderKeyMessage) → signed_part m ≡ version_byte ∷ encode_fields (sender_key_fields m)
unfolding signed_part encode_fields
signed_part_lem m =
    rw
      (
        write_bytes_field_lem _ 4 (omega arith) m.ciphertext,
        write_varint_field_lem _ 3 (omega arith) m.iteration,
        write_varint_field_lem _ 2 (omega arith) m.chain_id,
        write_bytes_field_lem [] 1 (omega arith) m.distribution_uuid,
      )
      (simp (append_assoc, append-nil))

deserialize_body_lem :
    (m : SenderKeyMessage)
    → IsSenderKey m
    → deserialize_body (encode_fields (sender_key_fields m)) ≡ ok m
unfolding deserialize_body sender_key_field run_fields
deserialize_body_lem m valid =
    let uuid = valid.uuid in
    rw (
      parse_fields-budget sender_key_field (sender_key_fields m) no_locals
          (omega (arith, uuid, valid.chain_id, valid.iteration, valid.ciphertext))
          (omega (arith, uuid, valid.ciphertext)),
      uuid,
      int_cast_lem 32 m.chain_id valid.chain_id,
      int_cast_lem 32 m.iteration valid.iteration,
    )

module _ (xeddsa : Xeddsa) where
  -- The last 64 bytes are the signature.
  deserialize_and_verify_lem :
      (body sig : Bytes) (theirs : PublicKey)
      → length sig ≡ 64
      → xeddsa.verify theirs.key_bytes (version_byte ∷ body) sig ≡ ok true
      → deserialize_and_verify xeddsa ((version_byte ∷ body) ++ sig) theirs ≡ deserialize_body body
  unfolding deserialize_and_verify
  deserialize_and_verify_lem body sig theirs size verified =
      let total = length-append (version_byte ∷ body) sig in
      let start : length ((version_byte ∷ body) ++ sig) - signature_length
          ≡ length (version_byte ∷ body) =
        omega (arith, total, size) in
      rw (
        start,
        take_prefix (length body) body sig refl,
        drop_prefix (length (version_byte ∷ body)) (version_byte ∷ body) sig refl,
        le→ltb (length ((version_byte ∷ body) ++ sig)) (1 + signature_length)
            (omega (arith, total, size)),
        verified,
      )

  -- A message that is signed with a key is read back under a key that its signature verifies for.
  pub deserialize_and_verify-serialize_sender_key :
      (m : SenderKeyMessage) (ours : PrivateKey) (theirs : PublicKey) (random sig : Bytes)
      → IsSenderKey m
      → xeddsa.sign ours.key_bytes (signed_part m) random ≡ ok sig
      → xeddsa.verify theirs.key_bytes (signed_part m) sig ≡ ok true
      → (serialize_sender_key xeddsa m ours random >>= λ bytes.
          deserialize_and_verify xeddsa bytes theirs)
        ≡ ok m
  unfolding serialize_sender_key
  deserialize_and_verify-serialize_sender_key m ours theirs random sig valid made verified =
      rw (made, signed_part_lem m)
        (deserialize_and_verify_lem (encode_fields (sender_key_fields m)) sig theirs
            (xeddsa.length-sign ours.key_bytes (signed_part m) random sig made)
            (rw (← signed_part_lem m) verified)
          ∙ deserialize_body_lem m valid)

  -- What is accepted was signed: the bytes up to the last 64 verify under the sender's key with
  -- those as the signature.
  pub deserialize_and_verify_signed :
      (bytes : Bytes) (theirs : PublicKey) (m : SenderKeyMessage)
      → deserialize_and_verify xeddsa bytes theirs ≡ ok m
      → (signed sig : Bytes) × (bytes ≡ signed ++ sig)
        × (length sig ≡ 64)
        × (xeddsa.verify theirs.key_bytes signed sig ≡ ok true)
  unfolding deserialize_and_verify
  deserialize_and_verify_signed bytes theirs m e =
      let start = length bytes - signature_length in
      let (_, long, e₁) =
        bind-eq-ok (fail_if (ltb (length bytes) (1 + signature_length)) invalid_message) _ e in
      let (_, _, e₂) =
        bind-eq-ok (fail_if (ltb (get_or bytes 0 0 / 2 ^ 4) 3) legacy_ciphertext_version) _ e₁ in
      let (valid, verified, e₃) =
        bind-eq-ok (xeddsa.verify theirs.key_bytes (take start bytes) (drop start bytes)) _ e₂ in
      let (_, accepted, _) = bind-eq-ok (fail_if (not valid) invalid_signature) _ e₃ in
      let good : valid ≡ true = Bool-not valid (fail_if-eq-ok (not valid) _ accepted) in
      (
        take start bytes,
        drop start bytes,
        sym (take-append-drop start bytes),
        ground (arith, length-drop start bytes, fail_if-eq-ok (ltb (length bytes) 65) _ long),
        verified ∙ ap ok good,
      )
