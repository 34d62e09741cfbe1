-- ===== src/Kdf.antt =====
-- src/kdf.zig: the key derivation functions, over the primitives of `Crypto`.
use libsignal_zig.Prelude.{ℕ, Bool, Option, none, some, [], ◌∷◌, ◌++◌, replicate, if◌then◌else◌}
use libsignal_zig.Prelude.Bytes.{Bytes, ascii, slice, write_le}
use libsignal_zig.Crypto.{Crypto}

pub record RootAndChain : Type 0 where
  pub root_key : Bytes
  pub chain_key : Bytes

pub record SessionKeys : Type 0 where
  pub root_key : Bytes
  pub chain_key : Bytes
  pub pqr_key : Option Bytes

-- The cipher key, MAC key and IV of one message.
pub record DerivedKeys : Type 0 where
  pub cipher_key : Bytes
  pub mac_key : Bytes
  pub iv : Bytes

abbrev pub zero_salt : Bytes
zero_salt = replicate 32 0

-- `if (pqr_key) |k| &k else &ZERO_SALT`
salt_of : Option Bytes → Bytes
salt_of none = zero_salt
salt_of (some k) = k

module _ (crypto : Crypto) where
  open crypto use {hkdf_extract, hkdf_expand, hmac}

  unfoldable pub derive_secrets : Bytes → Bytes → Bytes → ℕ → Bytes
  derive_secrets input_key_material salt info output_len =
      hkdf_expand output_len info (hkdf_extract salt input_key_material)

  unfoldable pub create_chain : Bytes → Bytes → RootAndChain
  unfolding ascii
  create_chain root_key dh_output =
      let out = hkdf_expand 64 (ascii "WhisperRatchet") (hkdf_extract root_key dh_output) in
      record { root_key = slice 0 32 out; chain_key = slice 32 32 out }

  unfoldable pub create_session_keys : Bytes → Bool → SessionKeys
  unfolding ascii
  create_session_keys input_key_material pqxdh =
      let label =
        if pqxdh
        then ascii "WhisperText_X25519_SHA-256_CRYSTALS-KYBER-1024"
        else ascii "WhisperText" in
      let prk = hkdf_extract zero_salt input_key_material in
      let long = hkdf_expand 96 label prk in
      let short = hkdf_expand 64 label prk in
      if pqxdh
      then record {
        root_key = slice 0 32 long;
        chain_key = slice 32 32 long;
        pqr_key = some (slice 64 32 long);
      }
      else record { root_key = slice 0 32 short; chain_key = slice 32 32 short; pqr_key = none }

  unfoldable pub derive_message_keys : Bytes → Option Bytes → DerivedKeys
  unfolding ascii salt_of
  derive_message_keys chain_key_seed pqr_key =
      let prk = hkdf_extract (salt_of pqr_key) chain_key_seed in
      let out = hkdf_expand 80 (ascii "WhisperMessageKeys") prk in
      record { cipher_key = slice 0 32 out; mac_key = slice 32 32 out; iv = slice 64 16 out }

  unfoldable pub next_chain_key : Bytes → Bytes
  next_chain_key current = hmac current (0x02 ∷ [])

  unfoldable pub message_key_seed : Bytes → Bytes
  message_key_seed chain_key = hmac chain_key (0x01 ∷ [])

  -- `std.mem.asBytes(&iteration)`: the u32 as the machine holds it, little endian here.
  unfoldable pub sender_key_derive : ℕ → Bytes → DerivedKeys
  unfolding ascii
  sender_key_derive iteration chain_key =
      let prk = hkdf_extract zero_salt (chain_key ++ write_le 4 iteration) in
      let out = hkdf_expand 80 (ascii "WhisperGroup") prk in
      record { cipher_key = slice 0 32 out; iv = slice 32 16 out; mac_key = slice 48 32 out }

  unfoldable pub next_sender_chain_key : Bytes → Bytes
  unfolding ascii
  next_sender_chain_key current =
      hkdf_expand 32 (ascii "WhisperGroup") (hkdf_extract zero_salt current)
