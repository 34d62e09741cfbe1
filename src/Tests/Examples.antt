-- ===== src/Tests/Examples.antt =====
-- The example programs and the fingerprints at concrete inputs.
use libsignal_zig.Prelude.{ℕ, ◌≡◌, ◌↔◌, refl, some, [], ◌∷◌, ◌++◌, replicate, arith}
use libsignal_zig.Prelude.Bytes.{Bytes}
use libsignal_zig.Prelude.Result.{Error, ok, err, invalid_tag}
use libsignal_zig.Curve.{KeyPair, PublicKey, serialize_public_key, serialize_private_key}
use libsignal_zig.Curve.Generate.{KeyGen, clamp_scalar, generate, public_key_of, kyber_generate}
use libsignal_zig.Ratchet.Agreement.{KyberKeyPair}
use libsignal_zig.Fingerprint.{compute_displayable_raw}
use libsignal_zig.Fingerprint.Compare.{compute_displayable_raw_symmetric}
use libsignal_zig.Ffi.{success, failure}
use libsignal_zig.Ffi.ErrorCode.{
  ZigCode, HeaderCode, signal_error_code_session_not_found, header_number, zig_number,
  from_zig_error, named, read_as, misread, read_as-misread,
}
use libsignal_zig.Examples.CppStore.{KvMap}
use libsignal_zig.Examples.Stores.{pk_load, spk_load, kpk_load}
use libsignal_zig.Examples.Lawful.{
  c_program, cpp_program, c_program-IsProgram, cpp_program-IsProgram,
}
use libsignal_zig.Examples.Tests.{BobKeys, BobSeeds, setup_bob, test_fingerprint, test_group}
use libsignal_zig.Examples.Group.{Signs, test_group_passes}
use libsignal_zig.Examples.Passes.{Makes, test_fingerprint_passes}
use libsignal_zig.Examples.Bob.{Bob, one_time_record, signed_record, kyber_record, setup_bob_loads}
use libsignal_zig.Identity.{IdentityKeyPair, serialize_identity, deserialize_identity}
use libsignal_zig.Ffi.Identity.{signal_identitykeypair_deserialize, identity_forms_apart}
use libsignal_zig.Tests.{toy}
use libsignal_zig.Tests.Formats.{stamp}
use libsignal_zig.Tests.Sessions.{plain_cipher}

-- Both keys of a pair are the seed.
abbrev toy_gen : KeyGen
toy_gen = record {
  x25519_key_pair = λ seed. ok (seed, seed);
  clamped_mul = λ scalar. ok scalar;
  kem_key_pair = λ seed. ok (replicate 1568 0, replicate 3168 0);
}

abbrev pub seed_of : ℕ → Bytes
seed_of n = replicate 32 n

abbrev pub pair_of : ℕ → KeyPair
pair_of n = record {
  public_key = record { key_bytes = seed_of n };
  private_key = record { key_bytes = seed_of n };
}

abbrev public_of : ℕ → PublicKey
public_of n = record { key_bytes = clamp_scalar (seed_of n) }

pair_of-Makes : (n : ℕ) → Makes toy_gen (seed_of n) (pair_of n) (public_of n)
unfolding generate public_key_of clamp_scalar
pair_of-Makes n = record { made = refl; given = refl; valid = refl; secret = refl }

pair_of-Signs : Signs stamp toy_gen (seed_of 4) (pair_of 4)
unfolding generate
pair_of-Signs = record {
  made = refl;
  valid = record { public = refl; private = refl };
  signature = λ message random. replicate 64 9;
  signed = λ message random. refl;
  verified = λ message random. refl;
}

test_group_passes_example :
    test_group c_program toy plain_cipher stamp toy_gen (replicate 32 7) (seed_of 4) [] ≡ success tt
test_group_passes_example =
    test_group_passes c_program toy plain_cipher stamp toy_gen (replicate 32 7) (seed_of 4) []
      (pair_of 4) c_program-IsProgram pair_of-Signs refl

test_fingerprint_passes_example : test_fingerprint toy toy_gen (seed_of 1) (seed_of 2) ≡ success tt
test_fingerprint_passes_example =
    test_fingerprint_passes toy toy_gen (seed_of 1) (seed_of 2) (pair_of 1) (pair_of 2)
      (public_of 1) (public_of 2) (pair_of-Makes 1) (pair_of-Makes 2)

abbrev seeds : BobSeeds
seeds = record {
  identity = seed_of 1;
  one_time = seed_of 2;
  signed = seed_of 3;
  kyber = seed_of 4;
  signed_random = seed_of 5;
  kyber_random = seed_of 6;
}

abbrev kyber_pair : KyberKeyPair
kyber_pair = record { public_key_bytes = replicate 1568 0; secret_key_bytes = replicate 3168 0 }

kyber_pair_lem : kyber_generate toy_gen (seed_of 4) ≡ ok kyber_pair
unfolding kyber_generate
kyber_pair_lem = refl

abbrev bob : Bob stamp toy_gen seeds
bob = record {
  identity = pair_of 1;
  one_time = pair_of 2;
  signed = pair_of 3;
  identity_public = public_of 1;
  one_time_public = public_of 2;
  signed_public = public_of 3;
  kyber = kyber_pair;
  signed_signature = replicate 64 9;
  kyber_signature = replicate 64 9;
  identity_made = pair_of-Makes 1;
  one_time_made = pair_of-Makes 2;
  signed_made = pair_of-Makes 3;
  kyber_made = kyber_pair_lem;
  kyber_public = refl;
  kyber_secret = refl;
  signed_sign = refl;
  kyber_sign = refl;
}

setup_bob_loads_example :
    (keys : BobKeys) × (pk : KvMap) × (spk : KvMap) × (kpk : KvMap) × (setup_bob cpp_program stamp
        toy_gen seeds [] [] []
      ≡ success (keys, pk, spk, kpk))
    × (keys.id_priv ≡ serialize_private_key bob.identity.private_key)
    × (pk_load cpp_program pk keys.opk_id
        ≡ success (some (one_time_record stamp toy_gen seeds bob)))
    × (spk_load cpp_program spk keys.spk_id
        ≡ success (some (signed_record stamp toy_gen seeds bob)))
    × (kpk_load cpp_program kpk keys.kpk_id ≡ success (some (kyber_record stamp toy_gen seeds bob)))
setup_bob_loads_example =
    setup_bob_loads stamp toy_gen seeds bob cpp_program cpp_program-IsProgram [] [] []
      (cpp_program-IsProgram.lawful.room-empty 1 (omega arith))
      (cpp_program-IsProgram.lawful.room-empty 1 (omega arith))
      (cpp_program-IsProgram.lawful.room-empty 1 (omega arith))

compute_displayable_raw_symmetric_example :
    compute_displayable_raw toy (1 ∷ []) (2 ∷ []) (3 ∷ []) (4 ∷ [])
    ≡ compute_displayable_raw toy (3 ∷ []) (4 ∷ []) (1 ∷ []) (2 ∷ [])
compute_displayable_raw_symmetric_example =
    compute_displayable_raw_symmetric toy (1 ∷ []) (2 ∷ []) (3 ∷ []) (4 ∷ [])

session_not_found-named : named Error.session_not_found ≡ some signal_error_code_session_not_found
unfolding named
session_not_found-named = refl

read_as-misread_example :
    (read_as Error.session_not_found
      ≡ misread Error.session_not_found (some signal_error_code_session_not_found))
    × ((c : HeaderCode)
        → (read_as Error.session_not_found ≡ some c)
          ↔ (zig_number (from_zig_error Error.session_not_found) ≡ header_number c))
read_as-misread_example =
    read_as-misread Error.session_not_found signal_error_code_session_not_found
      session_not_found-named

abbrev bob_identity : IdentityKeyPair
bob_identity = record {
  identity_key = (pair_of 2).public_key;
  private_key = (pair_of 2).private_key;
}

identity_forms_apart_example :
    (signal_identitykeypair_deserialize (serialize_identity bob_identity)
      ≡ failure ZigCode.invalid_type)
    × (deserialize_identity
          (serialize_public_key bob_identity.identity_key ++ bob_identity.private_key.key_bytes)
        ≡ err invalid_tag)
identity_forms_apart_example = identity_forms_apart bob_identity refl refl
