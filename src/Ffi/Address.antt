-- ===== src/Ffi/Address.antt =====
-- src/ffi/address.zig: a name and a device. A name is a C string: bytes without a 0.
use libsignal_zig.Prelude.{ℕ, some}
use libsignal_zig.Prelude.Bytes.{Bytes}
use libsignal_zig.Ffi.{Outcome, success, ◌>>=◌, Pointer, non_null}

pub record ProtocolAddress : Type 0 where
  pub name : Bytes
  pub device_id : ℕ

abbrev pub signal_address_new : Bytes → ℕ → Outcome (Pointer ProtocolAddress)
signal_address_new name device_id = success (some (record { name = name; device_id = device_id }))

abbrev pub signal_address_get_name : Pointer ProtocolAddress → Outcome Bytes
signal_address_get_name obj = do addr ← non_null obj; success addr.name

abbrev pub signal_address_get_device_id : Pointer ProtocolAddress → Outcome ℕ
signal_address_get_device_id obj = do addr ← non_null obj; success addr.device_id
