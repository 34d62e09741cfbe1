-- ===== src/Ffi/Keys.antt =====
-- src/ffi/keys.zig: the keys of the C interface. The seeds and the randomness of a signature are
-- arguments.
use libsignal_zig.Prelude.{Bool, some, length, ◌==◌, not}
use libsignal_zig.Prelude.Bytes.{Bytes}
use libsignal_zig.Crypto.{Crypto}
use libsignal_zig.Xeddsa.{Xeddsa}
use libsignal_zig.Curve.{
  PublicKey, PrivateKey, serialize_public_key, serialize_private_key, deserialize_public_key,
  deserialize_private_key, calculate_agreement,
}
use libsignal_zig.Curve.Generate.{KeyGen, generate, public_key_of, kyber_generate}
use libsignal_zig.Ratchet.Agreement.{KyberKeyPair}
use libsignal_zig.Ffi.{Outcome, success, ◌>>=◌, ◌>>◌, Pointer, Buffer, catch, non_null, refuse_if}
use libsignal_zig.Ffi.ErrorCode.{ZigCode}

module _ (gen : KeyGen) where
  abbrev pub signal_privatekey_generate : Bytes → Outcome (Pointer PrivateKey)
  signal_privatekey_generate seed = do kp ← catch (generate gen seed); success (some kp.private_key)

  abbrev pub signal_privatekey_get_public_key : Pointer PrivateKey → Outcome (Pointer PublicKey)
  signal_privatekey_get_public_key k = do
    sk ← non_null k
    pk ← catch (public_key_of gen sk)
    success (some pk)

  abbrev pub signal_kyber_key_pair_generate : Bytes → Outcome (Pointer KyberKeyPair)
  signal_kyber_key_pair_generate seed = do kp ← catch (kyber_generate gen seed); success (some kp)

abbrev pub signal_privatekey_deserialize : Buffer → Outcome (Pointer PrivateKey)
signal_privatekey_deserialize data_bytes = do
  sk ← catch (deserialize_private_key data_bytes)
  success (some sk)

abbrev pub signal_privatekey_serialize : Pointer PrivateKey → Outcome Buffer
signal_privatekey_serialize obj = do key ← non_null obj; success (serialize_private_key key)

abbrev pub signal_publickey_deserialize : Buffer → Outcome (Pointer PublicKey)
signal_publickey_deserialize data_bytes = do
  pk ← catch (deserialize_public_key data_bytes)
  success (some pk)

abbrev pub signal_publickey_serialize : Pointer PublicKey → Outcome Buffer
signal_publickey_serialize obj = do key ← non_null obj; success (serialize_public_key key)

abbrev pub signal_privatekey_agree :
    Crypto → Pointer PrivateKey → Pointer PublicKey → Outcome Buffer
signal_privatekey_agree crypto private_key public_key = do
  sk ← non_null private_key
  pk ← non_null public_key
  catch (calculate_agreement crypto sk pk)

module _ (xeddsa : Xeddsa) where
  abbrev pub signal_privatekey_sign : Pointer PrivateKey → Buffer → Bytes → Outcome Buffer
  signal_privatekey_sign key message random = do
    sk ← non_null key
    catch (xeddsa.sign sk.key_bytes message random)

  abbrev pub signal_publickey_verify : Pointer PublicKey → Buffer → Buffer → Outcome Bool
  signal_publickey_verify key message signature = do
    pk ← non_null key
    refuse_if (not (length signature == 64)) ZigCode.invalid_signature
    catch (xeddsa.verify pk.key_bytes message signature)

-- The encoded keys of a Kyber key pair, and their serialized forms.
abbrev pub signal_kyber_key_pair_get_public_key : Pointer KyberKeyPair → Outcome (Pointer Bytes)
signal_kyber_key_pair_get_public_key key_pair = do
  kp ← non_null key_pair
  success (some kp.public_key_bytes)

abbrev pub signal_kyber_key_pair_get_secret_key : Pointer KyberKeyPair → Outcome (Pointer Bytes)
signal_kyber_key_pair_get_secret_key key_pair = do
  kp ← non_null key_pair
  success (some kp.secret_key_bytes)

abbrev pub signal_kyber_public_key_serialize : Pointer Bytes → Outcome Buffer
signal_kyber_public_key_serialize obj = non_null obj

abbrev pub signal_kyber_secret_key_serialize : Pointer Bytes → Outcome Buffer
signal_kyber_secret_key_serialize obj = non_null obj
