-- ===== src/Examples/Lawful.antt =====
-- The records that the example programs store are the ones that they load.
use libsignal_zig.Prelude.{
  ℕ, ◌*◌, ◌≤◌, ◌≡◌, refl, some, true, false, ◌∷◌, [], length, arith, length-append, take_within,
}
use libsignal_zig.Prelude.Bytes.{Bytes, IsU32}
use libsignal_zig.Ffi.{success}
use libsignal_zig.Ffi.Address.{ProtocolAddress}
use libsignal_zig.Examples.{IsLawful}
use libsignal_zig.Examples.Text.{decimal, colon, length-digits}
use libsignal_zig.Examples.CStore.{c_kv, c_kv-IsLawful}
use libsignal_zig.Examples.CppStore.{cpp_kv, cpp_kv-IsLawful}
use libsignal_zig.Examples.Keys.{
  address_text, sender_key_text, hex_text, addr_to_key, addr_to_key_lem, addr_key, sk_key,
  sk_string, sk_key-sk_string, id_key, id_string, length-address_text,
}
use libsignal_zig.Examples.Stores.{Program}

abbrev pub c_program : Program
c_program = record {
  kv = c_kv;
  address_key = addr_to_key;
  sender_key = sk_key;
  id_key = id_key;
  key_first = true;
}

abbrev pub cpp_program : Program
cpp_program = record {
  kv = cpp_kv;
  address_key = addr_key;
  sender_key = sk_string;
  id_key = id_string;
  key_first = false;
}

-- Names that the C program's buffers and rows hold, and a u32 device.
pub record IsAddress (a : ProtocolAddress) : Type 0 where
  pub name : length a.name ≤ 460
  pub device_id : IsU32 a.device_id

pub record IsProgram (P : Program) : Type 1 where
  pub lawful : IsLawful P.kv
  pub address_key :
      (a : ProtocolAddress)
      → IsAddress a
      → (P.address_key (some a) ≡ success (address_text a.name a.device_id))
        × lawful.IsKey (address_text a.name a.device_id)
  pub sender_key :
      (a : ProtocolAddress) (dist_id : Bytes)
      → IsAddress a
      → length dist_id ≡ 16
      → (P.sender_key (some a) dist_id ≡ success (sender_key_text a dist_id))
        × lawful.IsKey (sender_key_text a dist_id)
  pub id_key : (id : ℕ) → (P.id_key id ≡ decimal id) × lawful.IsKey (decimal id)

length-hex_text : (bs : Bytes) → length (hex_text bs) ≡ 2 * length bs
length-hex_text [] = refl
length-hex_text (b ∷ bs) = omega (arith, length-hex_text bs)

pub c_program-IsProgram : IsProgram c_program
unfolding c_kv-IsLawful
c_program-IsProgram = record {
  lawful = c_kv-IsLawful;
  address_key = λ a h. (
    addr_to_key_lem a (omega (arith, h.name)),
    omega (arith, length-address_text a.name a.device_id, h.name),
  );
  sender_key = λ a dist_id h size. (
    (sk_key-sk_string a dist_id (omega (arith, h.name)) size).0,
    omega (
      arith,
      length-address_text a.name a.device_id,
      length-append (address_text a.name a.device_id) (colon ∷ hex_text dist_id),
      length-hex_text dist_id,
      size,
      h.name,
    ),
  );
  id_key = λ id. (
    take_within 31 (decimal id) (omega (arith, length-digits 10 id)),
    omega (arith, length-digits 10 id),
  );
}

unfoldable pub cpp_program-IsProgram : IsProgram cpp_program
unfolding addr_key sk_string cpp_kv-IsLawful
cpp_program-IsProgram = record {
  lawful = cpp_kv-IsLawful;
  address_key = λ a h. (refl, tt);
  sender_key = λ a dist_id h size. (refl, tt);
  id_key = λ id. (refl, tt);
}
