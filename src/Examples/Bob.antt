-- ===== src/Examples/Bob.antt =====
-- What `setup_bob` of the example programs leaves in Bob's stores.
use libsignal_zig.Prelude.{◌≡◌, some, length, take, take_all, arith}
use libsignal_zig.Prelude.Bytes.{Bytes}
use libsignal_zig.Prelude.Result.{ok}
use libsignal_zig.Xeddsa.{Xeddsa}
use libsignal_zig.Curve.{
  KeyPair, PublicKey, PrivateKey, IsPrivateKey, serialize_public_key, serialize_private_key,
  length-serialize_private_key, deserialize-serialize_private_key,
}
use libsignal_zig.Curve.Generate.{KeyGen, kyber_generate}
use libsignal_zig.Ratchet.Agreement.{KyberKeyPair}
use libsignal_zig.Records.{PreKeyRecord, SignedPreKeyRecord, KyberPreKeyRecord}
use libsignal_zig.Ffi.{success}
use libsignal_zig.Examples.Stores.{Program, pk_load, spk_load, kpk_load}
use libsignal_zig.Examples.Lawful.{IsProgram}
use libsignal_zig.Examples.Loads.{pk_load-pk_store_fn, spk_load-spk_store_fn, kpk_load-kpk_store_fn}
use libsignal_zig.Examples.Passes.{Makes}
use libsignal_zig.Examples.Tests.{BobKeys, BobSeeds, setup_bob, sign_bytes}

sign_bytes_lem :
    (xeddsa : Xeddsa) (k : PrivateKey) (message random signature : Bytes)
    → IsPrivateKey k
    → xeddsa.sign k.key_bytes message random ≡ ok signature
    → sign_bytes xeddsa (take 32 (serialize_private_key k)) message random ≡ success signature
unfolding sign_bytes
sign_bytes_lem xeddsa k message random signature size signed = rw (
  take_all 32 (serialize_private_key k) (length-serialize_private_key k size),
  deserialize-serialize_private_key k size,
  signed,
)

-- The keys that Bob's seeds make, and the signatures of the two public keys that he signs.
pub record Bob (xeddsa : Xeddsa) (gen : KeyGen) (seeds : BobSeeds) : Type 0 where
  pub identity : KeyPair
  pub one_time : KeyPair
  pub signed : KeyPair
  pub identity_public : PublicKey
  pub one_time_public : PublicKey
  pub signed_public : PublicKey
  pub kyber : KyberKeyPair
  pub signed_signature : Bytes
  pub kyber_signature : Bytes
  pub identity_made : Makes gen seeds.identity identity identity_public
  pub one_time_made : Makes gen seeds.one_time one_time one_time_public
  pub signed_made : Makes gen seeds.signed signed signed_public
  pub kyber_made : kyber_generate gen seeds.kyber ≡ ok kyber
  pub kyber_public : length kyber.public_key_bytes ≡ 1568
  pub kyber_secret : length kyber.secret_key_bytes ≡ 3168
  pub signed_sign :
      xeddsa.sign identity.private_key.key_bytes
        (serialize_public_key signed_public)
        seeds.signed_random
      ≡ ok signed_signature
  pub kyber_sign :
      xeddsa.sign identity.private_key.key_bytes kyber.public_key_bytes seeds.kyber_random
      ≡ ok kyber_signature

module _ (xeddsa : Xeddsa) (gen : KeyGen) (seeds : BobSeeds) (bob : Bob xeddsa gen seeds) where
  abbrev pub one_time_record : PreKeyRecord
  one_time_record = record {
    id = 1;
    key_pair = record { public_key = bob.one_time_public; private_key = bob.one_time.private_key };
  }

  abbrev pub signed_record : SignedPreKeyRecord
  signed_record = record {
    id = 1;
    timestamp = 1_700_000_000;
    key_pair = record { public_key = bob.signed_public; private_key = bob.signed.private_key };
    signature = bob.signed_signature;
  }

  abbrev pub kyber_record : KyberPreKeyRecord
  kyber_record = record {
    id = 1;
    timestamp = 1_700_000_000;
    key_pair = bob.kyber;
    signature = bob.kyber_signature;
  }

  signed_signature_size : length bob.signed_signature ≡ 64
  signed_signature_size = xeddsa.length-sign _ _ _ _ bob.signed_sign

  kyber_signature_size : length bob.kyber_signature ≡ 64
  kyber_signature_size = xeddsa.length-sign _ _ _ _ bob.kyber_sign

  -- When Bob's seeds make key pairs of the right sizes and the two public keys are signed, his
  -- set-up succeeds, in either program with room for a row in each of his stores. It leaves the
  -- one-time, the signed and the Kyber pre-key to be loaded under the ids that it reports, the
  -- last two with the signatures by the identity key that it reports.
  pub setup_bob_loads :
      (P : Program) (isP : IsProgram P) (pk_store spk_store kpk_store : P.kv.Store)
      → isP.lawful.Room 1 pk_store
      → isP.lawful.Room 1 spk_store
      → isP.lawful.Room 1 kpk_store
      → (keys : BobKeys) × (pk_store' : P.kv.Store) × (spk_store' : P.kv.Store)
        × (kpk_store' : P.kv.Store) × (setup_bob P xeddsa gen seeds pk_store spk_store kpk_store
            ≡ success (keys, pk_store', spk_store', kpk_store'))
        × (keys.id_priv ≡ serialize_private_key bob.identity.private_key)
        × (pk_load P pk_store' keys.opk_id ≡ success (some one_time_record))
        × (spk_load P spk_store' keys.spk_id ≡ success (some signed_record))
        × (kpk_load P kpk_store' keys.kpk_id ≡ success (some kyber_record))
  unfolding setup_bob
  setup_bob_loads P isP pk_store spk_store kpk_store pk_room spk_room kpk_room =
      let (pk', pk_put, _, pk_found) =
        pk_load-pk_store_fn P isP 0 pk_store 1 one_time_record (omega arith) (omega arith)
          (record { public = bob.one_time_made.valid; private = bob.one_time_made.secret })
          pk_room in
      let (spk', spk_put, _, spk_found) =
        spk_load-spk_store_fn P isP 0 spk_store 1 signed_record (omega arith) (omega arith)
          (omega arith)
          (record { public = bob.signed_made.valid; private = bob.signed_made.secret })
          signed_signature_size spk_room in
      let (kpk', kpk_put, _, kpk_found) =
        kpk_load-kpk_store_fn P isP 0 kpk_store 1 kyber_record (omega arith)
          (record {
            id = omega arith;
            time = omega arith;
            public = bob.kyber_public;
            secret = bob.kyber_secret;
            signed = kyber_signature_size;
          })
          kpk_room in
      let keys : BobKeys = record {
        id_priv = take 32 (serialize_private_key bob.identity.private_key);
        reg_id = 2002;
        opk_id = 1;
        spk_id = 1;
        kpk_id = 1;
      } in
      (
        keys,
        pk',
        spk',
        kpk',
        rw (
          bob.identity_made.made,
          bob.one_time_made.made,
          bob.one_time_made.given,
          pk_put,
          bob.signed_made.made,
          bob.signed_made.given,
          sign_bytes_lem xeddsa bob.identity.private_key (serialize_public_key bob.signed_public)
              seeds.signed_random bob.signed_signature bob.identity_made.secret bob.signed_sign,
          signed_signature_size,
          spk_put,
          bob.kyber_made,
          sign_bytes_lem xeddsa bob.identity.private_key bob.kyber.public_key_bytes
              seeds.kyber_random bob.kyber_signature bob.identity_made.secret bob.kyber_sign,
          kyber_signature_size,
          kpk_put,
        ),
        take_all 32 (serialize_private_key bob.identity.private_key)
            (length-serialize_private_key bob.identity.private_key bob.identity_made.secret),
        pk_found 1 (omega arith),
        spk_found 1 (omega arith),
        kpk_found 1 (omega arith),
      )
