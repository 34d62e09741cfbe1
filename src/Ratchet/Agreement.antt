-- ===== src/Ratchet/Agreement.antt =====
-- src/ratchet/alice.zig and bob.zig: the two sides of X3DH and PQXDH.
use libsignal_zig.Prelude.{
  ℕ, ◌≡◌, refl, sym, ◌∙◌, Option, none, some, ◌++◌, replicate, length, not, ◌==◌, is_none, arith,
}
use libsignal_zig.Prelude.Bytes.{Bytes}
use libsignal_zig.Prelude.Result.{
  Result, ok, ◌>>=◌, ◌>>◌, or_return, bind-eq-ok, ok_injective, fail_if, invalid_argument,
}
use libsignal_zig.Crypto.{Crypto}
use libsignal_zig.Curve.{PublicKey, PrivateKey, KeyPair, calculate_agreement}
use libsignal_zig.Kdf.{create_session_keys}
use libsignal_zig.Ratchet.{RootKey, ChainKey}

-- `curve.KyberKeyPair`
pub record KyberKeyPair : Type 0 where
  pub public_key_bytes : Bytes
  pub secret_key_bytes : Bytes

-- An identity key pair is a `KeyPair` here: `IdentityKey` only wraps the public key.
pub record AliceParameters : Type 0 where
  pub our_identity_key_pair : KeyPair
  pub our_base_key_pair : KeyPair
  pub their_identity_key : PublicKey
  pub their_signed_pre_key : PublicKey
  pub their_one_time_pre_key : Option PublicKey
  pub their_ratchet_key : PublicKey
  pub their_kyber_pre_key : Option KyberKeyPair

pub record BobParameters : Type 0 where
  pub our_identity_key_pair : KeyPair
  pub our_signed_pre_key_pair : KeyPair
  pub our_one_time_pre_key_pair : Option KeyPair
  pub our_ratchet_key_pair : KeyPair
  pub our_kyber_pre_key_pair : Option KyberKeyPair
  pub their_identity_key : PublicKey
  pub their_base_key : PublicKey
  pub their_kyber_ciphertext : Option Bytes

pub record AliceKeys : Type 0 where
  pub root_key : RootKey
  pub chain_key : ChainKey
  pub pqr_key : Option Bytes
  pub kyber_ciphertext : Option Bytes

pub record BobKeys : Type 0 where
  pub root_key : RootKey
  pub chain_key : ChainKey
  pub pqr_key : Option Bytes

abbrev discontinuity : Bytes
discontinuity = replicate 32 0xff

-- `MlKem.ciphertext_length`
abbrev pub kem_ciphertext_length : ℕ
kem_ciphertext_length = 1568

module _ (crypto : Crypto) where
  -- dh4, and the Kyber secret: each is appended only if the bundle has the key.
  append_agreement : PrivateKey → Option PublicKey → Bytes → Result Bytes
  append_agreement ours none secret = ok secret
  append_agreement ours (some opk) secret = do
    dh4 ← calculate_agreement crypto ours opk
    ok (secret ++ dh4)

  append_encaps : Option KyberKeyPair → Bytes → Bytes → Result (Bytes × Option Bytes)
  append_encaps none seed secret = ok (secret, none)
  append_encaps (some kpk) seed secret = do
    (ciphertext, shared_secret) ← crypto.kem_encaps kpk.public_key_bytes seed
    ok (secret ++ shared_secret, some ciphertext)

  -- `alice.initialize`, with the seed that it draws for the encapsulation.
  unfoldable pub alice_initialize : AliceParameters → Bytes → Result AliceKeys
  unfolding append_agreement append_encaps
  alice_initialize p enc_seed = do
    dh1 ← calculate_agreement crypto p.our_identity_key_pair.private_key p.their_signed_pre_key
    dh2 ← calculate_agreement crypto p.our_base_key_pair.private_key p.their_identity_key
    dh3 ← calculate_agreement crypto p.our_base_key_pair.private_key p.their_signed_pre_key
    let secret = ((discontinuity ++ dh1) ++ dh2) ++ dh3
    secret₁ ← append_agreement p.our_base_key_pair.private_key p.their_one_time_pre_key secret
    (secret₂, kyber_ct) ← append_encaps p.their_kyber_pre_key enc_seed secret₁
    let derived = create_session_keys crypto secret₂ (not (is_none p.their_kyber_pre_key))
    ok (record {
      root_key = record { key = derived.root_key };
      chain_key = record { key = derived.chain_key; index = 0 };
      pqr_key = derived.pqr_key;
      kyber_ciphertext = kyber_ct;
    })

  append_own_agreement : Option KeyPair → PublicKey → Bytes → Result Bytes
  append_own_agreement none theirs secret = ok secret
  append_own_agreement (some opk_pair) theirs secret = do
    dh4 ← calculate_agreement crypto opk_pair.private_key theirs
    ok (secret ++ dh4)

  append_decaps : Option KyberKeyPair → Option Bytes → Bytes → Result Bytes
  append_decaps none ciphertext secret = ok secret
  append_decaps (some kpk) ciphertext secret = do
    ct ← or_return ciphertext invalid_argument
    fail_if (not (length ct == kem_ciphertext_length)) invalid_argument
    ss ← crypto.kem_decaps kpk.secret_key_bytes ct
    ok (secret ++ ss)

  -- `bob.initialize`
  unfoldable pub bob_initialize : BobParameters → Result BobKeys
  unfolding append_own_agreement append_decaps
  bob_initialize p = do
    dh1 ← calculate_agreement crypto p.our_signed_pre_key_pair.private_key p.their_identity_key
    dh2 ← calculate_agreement crypto p.our_identity_key_pair.private_key p.their_base_key
    dh3 ← calculate_agreement crypto p.our_signed_pre_key_pair.private_key p.their_base_key
    let secret = ((discontinuity ++ dh1) ++ dh2) ++ dh3
    secret₁ ← append_own_agreement p.our_one_time_pre_key_pair p.their_base_key secret
    secret₂ ← append_decaps p.our_kyber_pre_key_pair p.their_kyber_ciphertext secret₁
    let derived = create_session_keys crypto secret₂ (not (is_none p.our_kyber_pre_key_pair))
    ok (record {
      root_key = record { key = derived.root_key };
      chain_key = record { key = derived.chain_key; index = 0 };
      pqr_key = derived.pqr_key;
    })

-- What two key pairs need for X25519 to agree on a secret: it does, for pairs that `generate` made.
abbrev pub AgreesWith : Crypto → KeyPair → KeyPair → Type 0
AgreesWith crypto a b =
    crypto.scalarmult a.private_key.key_bytes b.public_key.key_bytes
    ≡ crypto.scalarmult b.private_key.key_bytes a.public_key.key_bytes

-- The pre-keys that Bob published, as he holds them.
pub record Bundle : Type 0 where
  pub identity : KeyPair
  pub signed_pre_key : KeyPair
  pub one_time_pre_key : Option KeyPair
  pub kyber_pre_key : Option KyberKeyPair

abbrev public_of : Option KeyPair → Option PublicKey
public_of none = none
public_of (some kp) = some kp.public_key

-- Each side's parameters, from what each of them holds.
abbrev pub alice_view : KeyPair → KeyPair → Bundle → AliceParameters
alice_view identity base b = record {
  our_identity_key_pair = identity;
  our_base_key_pair = base;
  their_identity_key = b.identity.public_key;
  their_signed_pre_key = b.signed_pre_key.public_key;
  their_one_time_pre_key = public_of b.one_time_pre_key;
  their_ratchet_key = b.signed_pre_key.public_key;
  their_kyber_pre_key = b.kyber_pre_key;
}

abbrev pub bob_view : KeyPair → KeyPair → Bundle → Option Bytes → BobParameters
bob_view identity base b ciphertext = record {
  our_identity_key_pair = b.identity;
  our_signed_pre_key_pair = b.signed_pre_key;
  our_one_time_pre_key_pair = b.one_time_pre_key;
  our_ratchet_key_pair = b.signed_pre_key;
  our_kyber_pre_key_pair = b.kyber_pre_key;
  their_identity_key = identity.public_key;
  their_base_key = base.public_key;
  their_kyber_ciphertext = ciphertext;
}

abbrev OneTimeAgrees : Crypto → KeyPair → Option KeyPair → Type 0
OneTimeAgrees crypto base none = Unit
OneTimeAgrees crypto base (some kp) = AgreesWith crypto base kp

-- What ML-KEM promises of a key pair: a secret that is encapsulated for it is decapsulated.
abbrev KemAgrees : Crypto → Bytes → Option KyberKeyPair → Type 0
KemAgrees crypto seed none = Unit
KemAgrees crypto seed (some kpk) =
    (ct ss : Bytes)
    → crypto.kem_encaps kpk.public_key_bytes seed ≡ ok (ct, ss)
    → (length ct ≡ kem_ciphertext_length) × (crypto.kem_decaps kpk.secret_key_bytes ct ≡ ok ss)

pub record Agree (crypto : Crypto) (identity base : KeyPair) (b : Bundle) (seed : Bytes)
    : Type 0 where
  pub dh1 : AgreesWith crypto identity b.signed_pre_key
  pub dh2 : AgreesWith crypto base b.identity
  pub dh3 : AgreesWith crypto base b.signed_pre_key
  pub dh4 : OneTimeAgrees crypto base b.one_time_pre_key
  pub kem : KemAgrees crypto seed b.kyber_pre_key

agreed :
    (crypto : Crypto) (a b : KeyPair)
    → AgreesWith crypto a b
    → calculate_agreement crypto b.private_key a.public_key
      ≡ calculate_agreement crypto a.private_key b.public_key
unfolding calculate_agreement
agreed crypto a b h = sym h

module _ (crypto : Crypto) (identity base : KeyPair) (seed : Bytes) where
  append_agree :
      (opk : Option KeyPair) (secret : Bytes)
      → OneTimeAgrees crypto base opk
      → append_own_agreement crypto opk base.public_key secret
        ≡ append_agreement crypto base.private_key (public_of opk) secret
  unfolding append_own_agreement append_agreement calculate_agreement
  append_agree none secret h = refl
  append_agree (some kp) secret h = rw h

  append_kem :
      (kpk : Option KyberKeyPair) (secret secret' : Bytes) (ct : Option Bytes)
      → KemAgrees crypto seed kpk
      → append_encaps crypto kpk seed secret ≡ ok (secret', ct)
      → append_decaps crypto kpk ct secret ≡ ok secret'
  unfolding append_encaps append_decaps
  append_kem none secret secret' ct h e = cc
  append_kem (some kpk) secret secret' ct h e =
      let ((ct', ss), e₁, e₂) = bind-eq-ok (crypto.kem_encaps kpk.public_key_bytes seed) _ e in
      let (size, d) = h ct' ss e₁ in ground (arith, e₂, size, d)

  -- Bob derives from Alice's first message the root key, the chain key and the post-quantum key
  -- that Alice derived from his bundle, with and without a one-time and a Kyber pre-key.
  pub bob_initialize-alice_initialize :
      (b : Bundle) (d : AliceKeys)
      → Agree crypto identity base b seed
      → alice_initialize crypto (alice_view identity base b) seed ≡ ok d
      → bob_initialize crypto (bob_view identity base b d.kyber_ciphertext)
        ≡ ok (record { root_key = d.root_key; chain_key = d.chain_key; pqr_key = d.pqr_key })
  unfolding alice_initialize bob_initialize
  bob_initialize-alice_initialize b d agree e =
      let spk = b.signed_pre_key in
      let (x₁, a₁, e₁) =
        bind-eq-ok (calculate_agreement crypto identity.private_key spk.public_key) _ e in
      let (x₂, a₂, e₂) =
        bind-eq-ok (calculate_agreement crypto base.private_key b.identity.public_key) _ e₁ in
      let (x₃, a₃, e₃) =
        bind-eq-ok (calculate_agreement crypto base.private_key spk.public_key) _ e₂ in
      let (s₁, a₄, e₄) =
        bind-eq-ok
          (append_agreement crypto base.private_key (public_of b.one_time_pre_key)
            (((discontinuity ++ x₁) ++ x₂) ++ x₃))
          _ e₃ in
      let ((s₂, ct), a₅, e₅) = bind-eq-ok (append_encaps crypto b.kyber_pre_key seed s₁) _ e₄ in
      rw (
        ← ok_injective e₅,
        agreed crypto identity spk agree.dh1 ∙ a₁,
        agreed crypto base b.identity agree.dh2 ∙ a₂,
        agreed crypto base spk agree.dh3 ∙ a₃,
        append_agree b.one_time_pre_key (((discontinuity ++ x₁) ++ x₂) ++ x₃) agree.dh4 ∙ a₄,
        append_kem b.kyber_pre_key s₁ s₂ ct agree.kem a₅,
      )
