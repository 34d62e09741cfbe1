-- ===== src/Ratchet.antt =====
-- src/ratchet/chain_key.zig, message_keys.zig and root_key.zig: the symmetric and the DH ratchet.
pub mod Agreement
use libsignal_zig.Prelude.{ℕ, zero, suc, ◌+◌, ◌^◌, ◌≡◌, refl, Option, leb, if◌then◌else◌}
use libsignal_zig.Prelude.Bytes.{Bytes}
use libsignal_zig.Prelude.Result.{Result, ok, panic, ◌>>=◌, ◌>>◌, panic_if}
use libsignal_zig.Crypto.{Crypto}
use libsignal_zig.Curve.{PublicKey, PrivateKey, calculate_agreement}
use libsignal_zig.Kdf.{create_chain, derive_message_keys, next_chain_key, message_key_seed}

pub record MessageKeys : Type 0 where
  pub cipher_key : Bytes
  pub mac_key : Bytes
  pub iv : Bytes
  pub counter : ℕ

pub record ChainKey : Type 0 where
  pub key : Bytes
  pub index : ℕ

pub record RootKey : Type 0 where
  pub key : Bytes

module _ (crypto : Crypto) where
  -- `MessageKeys.fromSeed`
  unfoldable pub message_keys_from_seed : Bytes → ℕ → Option Bytes → MessageKeys
  message_keys_from_seed seed counter pqr_key =
      let derived = derive_message_keys crypto seed pqr_key in
      record {
        cipher_key = derived.cipher_key;
        mac_key = derived.mac_key;
        iv = derived.iv;
        counter = counter;
      }

  -- `ChainKey.messageKeys` and `ChainKey.advance`, whose index is a u32.
  unfoldable pub message_keys : ChainKey → Option Bytes → MessageKeys
  unfolding message_keys_from_seed
  message_keys c pqr_key = message_keys_from_seed (message_key_seed crypto c.key) c.index pqr_key

  unfoldable pub advance : ChainKey → Result ChainKey
  advance c = do
    panic_if (leb (2 ^ 32) (c.index + 1))
    ok (record { key = next_chain_key crypto c.key; index = c.index + 1 })

  -- `RootKey.createChain`: a DH ratchet step.
  unfoldable pub root_key_create_chain :
      RootKey → PublicKey → PrivateKey → Result (RootKey × ChainKey)
  root_key_create_chain root their_ratchet_key our_ratchet_key = do
    dh_output ← calculate_agreement crypto our_ratchet_key their_ratchet_key
    let derived = create_chain crypto root.key dh_output
    ok (record { key = derived.root_key }, record { key = derived.chain_key; index = 0 })
