-- ===== src/Examples/Keys.antt =====
-- The keys under which examples/c/main.c and examples/cpp/main.cpp store records.
use libsignal_zig.Prelude.{
  ℕ, ◌+◌, ◌-◌, ◌*◌, ◌≤◌, ◌<◌, ◌≡◌, ◌≢◌, refl, sym, ap, ◌∙◌, some, [], ◌∷◌, ◌++◌, length, ltb,
  lt→ltb, le→ltb, All, if◌then◌else◌, arith, length-append, append-nil, ◌/◌, ◌%◌, take_within,
  append_assoc,
}
use libsignal_zig.Prelude.Bytes.{Bytes, IsByte, IsU32}
use libsignal_zig.Ffi.{Outcome, success, abort, ◌>>=◌, Pointer, must, success_injective}
use mathlib.Core.List.{head-eq_of_cons-eq, tail-eq_of_cons-eq}
use libsignal_zig.Ffi.Address.{
  ProtocolAddress, signal_address_get_name, signal_address_get_device_id,
}
use libsignal_zig.Examples.Text.{
  snprintf, decimal, hex, hex_digit, colon, NoColon, decimal_injective, split_last, digits-NoColon,
  length-digits,
}

-- "%s:%u"
abbrev pub address_text : Bytes → ℕ → Bytes
address_text name dev = name ++ colon ∷ decimal dev

-- `addr_to_key` on the C program's buffers of 512.
unfoldable pub addr_to_key : Pointer ProtocolAddress → Outcome Bytes
addr_to_key addr = do
  name ← must (signal_address_get_name addr)
  dev ← must (signal_address_get_device_id addr)
  success (snprintf 512 (address_text name dev))

-- `addr_key` of the C++ program.
unfoldable pub addr_key : Pointer ProtocolAddress → Outcome Bytes
addr_key addr = do
  name ← must (signal_address_get_name addr)
  dev ← must (signal_address_get_device_id addr)
  success (address_text name dev)

-- `char k[32]; snprintf(k, sizeof k, "%u", id);` and `std::to_string(id)`.
abbrev pub id_key : ℕ → Bytes
id_key id = snprintf 32 (decimal id)

abbrev pub id_string : ℕ → Bytes
id_string id = decimal id

abbrev pub hex_text : Bytes → Bytes
hex_text [] = []
hex_text (b ∷ bs) = hex b ++ hex_text bs

-- The loop of `sk_key`: `n += snprintf(buf + n, sz - n, "%02x", …)`, where `n` is the length of the
-- text so far, and not of what the buffer holds of it. Past the end, `sz - n` wraps around, and the
-- call writes outside the buffer.
unfoldable pub append_hex : ℕ → Bytes → ℕ → Bytes → Outcome Bytes
append_hex sz buf n [] = success buf
append_hex sz buf n (b ∷ bs) =
    let more = append_hex sz (snprintf sz (buf ++ hex b)) (n + 2) bs in
    if ltb sz n then abort else more

unfoldable pub sk_key : Pointer ProtocolAddress → Bytes → Outcome Bytes
sk_key sender dist_id = do
  name ← must (signal_address_get_name sender)
  dev ← must (signal_address_get_device_id sender)
  let text = address_text name dev ++ colon ∷ []
  append_hex 600 (snprintf 600 text) (length text) dist_id

-- `sk_key` of the C++ program.
unfoldable pub sk_string : Pointer ProtocolAddress → Bytes → Outcome Bytes
sk_string sender dist_id = do key ← addr_key sender; success (key ++ colon ∷ hex_text dist_id)

pub length-address_text :
    (name : Bytes) (dev : ℕ) → length (address_text name dev) ≤ length name + 11
length-address_text name dev =
    omega (arith, length-append name (colon ∷ decimal dev), length-digits 10 dev)

pub addr_to_key_lem :
    (a : ProtocolAddress)
    → length a.name ≤ 500
    → addr_to_key (some a) ≡ success (address_text a.name a.device_id)
unfolding addr_to_key
addr_to_key_lem a short = rw (
    take_within 511 (address_text a.name a.device_id)
      (omega (arith, length-address_text a.name a.device_id)))

pub address_text_injective :
    (m n : Bytes) (d e : ℕ)
    → IsU32 d
    → IsU32 e
    → address_text m d ≡ address_text n e
    → (m ≡ n) × (d ≡ e)
address_text_injective m n d e hd he same =
    let (names, devices) =
      split_last m n (decimal d) (decimal e) (digits-NoColon 10 d) (digits-NoColon 10 e) same in
    (names, decimal_injective d e hd he devices)

-- Two addresses with names of at most 500 bytes, whatever is in them, and u32 devices have the same
-- session key in the C program only if they are the same.
pub addr_to_key_injective :
    (a b : ProtocolAddress)
    → length a.name ≤ 500
    → length b.name ≤ 500
    → IsU32 a.device_id
    → IsU32 b.device_id
    → addr_to_key (some a) ≡ addr_to_key (some b)
    → a ≡ b
addr_to_key_injective a b ha hb da db same =
    let texts : address_text a.name a.device_id ≡ address_text b.name b.device_id =
      success_injective (sym (addr_to_key_lem a ha) ∙ same ∙ addr_to_key_lem b hb) in
    let (names, devices) =
      address_text_injective a.name b.name a.device_id b.device_id da db texts in
    λ i. record { name = names i; device_id = devices i }

append_hex_lem :
    (sz n : ℕ) (buf bs : Bytes)
    → n ≡ length buf
    → length buf + 2 * length bs < sz
    → append_hex sz buf n bs ≡ success (buf ++ hex_text bs)
unfolding append_hex
append_hex_lem sz n buf [] e room = ap success (sym (append-nil buf))
append_hex_lem sz n buf (b ∷ bs) e room =
    let longer = length-append buf (hex b) in
    rw (
      le→ltb sz n (omega (arith, e)),
      take_within (sz - 1) (buf ++ hex b) (omega (arith, longer)),
      append_hex_lem sz (n + 2) (buf ++ hex b) bs (omega (arith, e, longer))
          (omega (arith, longer)),
      append_assoc buf (hex b) (hex_text bs),
    )

abbrev pub sender_key_text : ProtocolAddress → Bytes → Bytes
sender_key_text a dist_id = address_text a.name a.device_id ++ colon ∷ hex_text dist_id

-- The C program's sender key text, for names of at most 500 bytes and 16-byte ids, is the C++
-- program's.
pub sk_key-sk_string :
    (a : ProtocolAddress) (dist_id : Bytes)
    → length a.name ≤ 500
    → length dist_id ≡ 16
    → (sk_key (some a) dist_id ≡ success (sender_key_text a dist_id))
      × (sk_string (some a) dist_id ≡ success (sender_key_text a dist_id))
unfolding sk_key sk_string addr_key
sk_key-sk_string a dist_id short size =
    let text = address_text a.name a.device_id ++ colon ∷ [] in
    let small : length text ≤ 512 = omega (
      arith,
      length-append (address_text a.name a.device_id) (colon ∷ []),
      length-address_text a.name a.device_id,
    ) in
    (
      rw
          (
            take_within 599 text (omega (arith, small)),
            append_hex_lem 600 (length text) text dist_id refl (omega (arith, small, size)),
          )
          (ap success
            (append_assoc (address_text a.name a.device_id) (colon ∷ []) (hex_text dist_id))),
      refl,
    )

-- A name of at least 600 bytes makes the C program write outside its buffer.
pub sk_key_overflow :
    (a : ProtocolAddress) (b : ℕ) (bs : Bytes)
    → 600 ≤ length a.name
    → sk_key (some a) (b ∷ bs) ≡ abort
unfolding sk_key append_hex
sk_key_overflow a b bs long =
    let text = address_text a.name a.device_id ++ colon ∷ [] in
    rw (
      lt→ltb 600 (length text) (
        omega (
          arith,
          length-append (address_text a.name a.device_id) (colon ∷ []),
          length-append a.name (colon ∷ decimal a.device_id),
        )))

hex_digit_injective : (d e : ℕ) → d < 16 → e < 16 → hex_digit d ≡ hex_digit e → d ≡ e
hex_digit_injective d e hd he same = ground arith

hex_text_injective :
    (xs ys : Bytes) → All IsByte xs → All IsByte ys → hex_text xs ≡ hex_text ys → xs ≡ ys
hex_text_injective [] [] hx hy same = refl
hex_text_injective [] (y ∷ ys) hx hy same = cc
hex_text_injective (x ∷ xs) [] hx hy same = cc
hex_text_injective (x ∷ xs) (y ∷ ys) (hx, hxs) (hy, hys) same =
    let high =
      hex_digit_injective (x / 16) (y / 16) (omega arith) (omega arith) (head-eq_of_cons-eq same) in
    let low =
      hex_digit_injective (x % 16) (y % 16) (omega arith) (omega arith)
        (head-eq_of_cons-eq (tail-eq_of_cons-eq same)) in
    let here : x ≡ y = omega (arith, high, low) in
    cc (here, hex_text_injective xs ys hxs hys (tail-eq_of_cons-eq (tail-eq_of_cons-eq same)))

hex_digit-ne-colon : (d : ℕ) → d < 16 → hex_digit d ≢ colon
hex_digit-ne-colon d small = ground arith

hex_text-NoColon : (bs : Bytes) → All IsByte bs → NoColon (hex_text bs)
hex_text-NoColon [] h = tt
hex_text-NoColon (b ∷ bs) (hb, h) = (
  hex_digit-ne-colon (b / 16) (omega arith),
  (hex_digit-ne-colon (b % 16) (omega arith), hex_text-NoColon bs h),
)

-- Sender keys of different senders or distributions have different texts.
pub sender_key_text_injective :
    (a b : ProtocolAddress) (i j : Bytes)
    → IsU32 a.device_id
    → IsU32 b.device_id
    → All IsByte i
    → All IsByte j
    → sender_key_text a i ≡ sender_key_text b j
    → (a ≡ b) × (i ≡ j)
sender_key_text_injective a b i j da db hi hj same =
    let (addresses, ids) =
      split_last (address_text a.name a.device_id) (address_text b.name b.device_id) (hex_text i)
        (hex_text j) (hex_text-NoColon i hi) (hex_text-NoColon j hj) same in
    let (names, devices) =
      address_text_injective a.name b.name a.device_id b.device_id da db addresses in
    ((λ t. record { name = names t; device_id = devices t }), hex_text_injective i j hi hj ids)

-- Two senders with names of at most 500 bytes and two 16-byte distribution ids have the same sender
-- key text in the C program only if they are the same.
pub sk_key_injective :
    (a b : ProtocolAddress) (i j : Bytes)
    → length a.name ≤ 500
    → length b.name ≤ 500
    → IsU32 a.device_id
    → IsU32 b.device_id
    → All IsByte i
    → All IsByte j
    → length i ≡ 16
    → length j ≡ 16
    → sk_key (some a) i ≡ sk_key (some b) j
    → (a ≡ b) × (i ≡ j)
sk_key_injective a b i j ha hb da db hi hj si sj same =
    sender_key_text_injective a b i j da db hi hj (
      success_injective
        (sym (sk_key-sk_string a i ha si).0 ∙ same ∙ (sk_key-sk_string b j hb sj).0))
