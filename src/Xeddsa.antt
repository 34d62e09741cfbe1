-- ===== src/Xeddsa.antt =====
-- What src/xeddsa.zig offers to the code that signs and verifies: an interface that the messages
-- take as a parameter.
use libsignal_zig.Prelude.{◌≡◌, Bool, length}
use libsignal_zig.Prelude.Bytes.{Bytes}
use libsignal_zig.Prelude.Result.{Result, ok}

pub record Xeddsa : Type 0 where
  -- `sign(private_key, message, random)` and `verify(public_key, message, signature)`.
  pub sign : Bytes → Bytes → Bytes → Result Bytes
  pub verify : Bytes → Bytes → Bytes → Result Bool
  pub length-sign :
      (key message random signature : Bytes)
      → sign key message random ≡ ok signature
      → length signature ≡ 64
