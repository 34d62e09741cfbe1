-- ===== src/AesCbc.antt =====
-- src/session_builder.zig, `aes_cbc`: AES-256 in CBC mode with PKCS #7 padding.
use libsignal_zig.Prelude.{
  ℕ, zero, suc, ◌+◌, ◌-◌, ◌*◌, ◌/◌, ◌%◌, ◌<◌, ◌≤◌, ◌≡◌, refl, ap, ◌∙◌, Bool, true, false, ◌&&◌,
  ◌||◌, [], ◌∷◌, ◌++◌, length, take, drop, replicate, get_or, ltb, le→ltb, ◌==◌, not, arith,
  length-append, length-take, length-drop, length-replicate, take_prefix, drop_prefix,
  take-append-drop,
}
use libsignal_zig.Prelude.Xor.{xor_bytes, length-xor_bytes, xor_bytes_back}
use libsignal_zig.Prelude.Bytes.{Bytes}
use libsignal_zig.Prelude.Result.{Result, ok, ◌>>◌, fail_if, invalid_message, padding_error}

-- One block of AES-256 under a key: deciphering undoes enciphering.
pub record BlockCipher : Type 0 where
  pub encipher : Bytes → Bytes → Bytes
  pub decipher : Bytes → Bytes → Bytes
  pub length-encipher : (key block : Bytes) → length block ≡ 16 → length (encipher key block) ≡ 16
  pub decipher-encipher :
      (key block : Bytes) → length block ≡ 16 → decipher key (encipher key block) ≡ block

-- `for (…) |b| if (b != pad_byte)`
unfoldable pub all_equal : ℕ → Bytes → Bool
all_equal pad [] = true
all_equal pad (b ∷ bs) = (b == pad) && all_equal pad bs

unfoldable pub pad : Bytes → Bytes
pad plaintext = let pad_len = 16 - length plaintext % 16 in plaintext ++ replicate pad_len pad_len

-- The removal of the padding at the end of `decrypt`.
unfoldable pub unpad : Bytes → Result Bytes
unpad out = do
  let pad_byte = get_or out (length out - 1) 0
  fail_if ((pad_byte == 0) || ltb 16 pad_byte) padding_error
  fail_if (not (all_equal pad_byte (drop (length out - pad_byte) out))) padding_error
  ok (take (length out - pad_byte) out)

module _ (aes : BlockCipher) (key : Bytes) where
  -- The loops over blocks of 16, with the block before as `prev`.
  unfoldable pub encrypt_blocks : ℕ → Bytes → Bytes → Bytes
  encrypt_blocks zero prev padded = []
  encrypt_blocks (suc n) prev padded =
      let block = aes.encipher key (xor_bytes (take 16 padded) prev) in
      block ++ encrypt_blocks n block (drop 16 padded)

  unfoldable pub decrypt_blocks : ℕ → Bytes → Bytes → Bytes
  decrypt_blocks zero prev ciphertext = []
  decrypt_blocks (suc n) prev ciphertext =
      let ct_block = take 16 ciphertext in
      xor_bytes (aes.decipher key ct_block) prev ++ decrypt_blocks n ct_block (drop 16 ciphertext)

  unfoldable pub encrypt : Bytes → Bytes → Bytes
  encrypt iv plaintext = encrypt_blocks (length (pad plaintext) / 16) iv (pad plaintext)

  unfoldable pub decrypt : Bytes → Bytes → Result Bytes
  decrypt iv ciphertext = do
    fail_if ((length ciphertext == 0) || not (length ciphertext % 16 == 0)) invalid_message
    unpad (decrypt_blocks (length ciphertext / 16) iv ciphertext)

length-pad : (p : Bytes) → length (pad p) ≡ 16 * (length p / 16 + 1)
unfolding pad
length-pad p =
    let k = 16 - length p % 16 in
    omega (arith, length-append p (replicate k k), length-replicate k k)

get_or-append : (p q : Bytes) (i d : ℕ) → get_or (p ++ q) (length p + i) d ≡ get_or q i d
get_or-append [] q i d = ap (λ (j : ℕ). get_or q j d) (omega arith)
get_or-append (x ∷ p) q i d =
    let one_in : suc (length p) + i ≡ suc (length p + i) = omega arith in
    rw one_in (get_or-append p q i d)

get_or-replicate : (n i v d : ℕ) → i < n → get_or (replicate n v) i d ≡ v
get_or-replicate zero i v d h = absurd (omega arith)
get_or-replicate (suc n) zero v d h = refl
get_or-replicate (suc n) (suc i) v d h = get_or-replicate n i v d (omega arith)

all_equal-replicate : (n v : ℕ) → all_equal v (replicate n v) ≡ true
unfolding all_equal
all_equal-replicate zero v = refl
all_equal-replicate (suc n) v = ground (arith, all_equal-replicate n v)

unpad_lem : (p : Bytes) (k : ℕ) → 1 ≤ k → k ≤ 16 → unpad (p ++ replicate k k) ≡ ok p
unfolding unpad
unpad_lem p k low high =
    let total = length-append p (replicate k k) in
    let last : length (p ++ replicate k k) - 1 ≡ length p + (k - 1) =
      omega (arith, total, length-replicate k k) in
    let front : length (p ++ replicate k k) - k ≡ length p =
      omega (arith, total, length-replicate k k) in
    let positive : (k == 0) ≡ false = ground arith in
    rw (
      last,
      get_or-append p (replicate k k) (k - 1) 0,
      get_or-replicate k (k - 1) k 0 (omega arith),
      positive,
      le→ltb 16 k high,
      front,
      drop_prefix (length p) p (replicate k k) refl,
      all_equal-replicate k k,
      take_prefix (length p) p (replicate k k) refl,
    )

-- The padding that was added is taken off.
unpad-pad : (p : Bytes) → unpad (pad p) ≡ ok p
unfolding pad
unpad-pad p = unpad_lem p (16 - length p % 16) (omega arith) (omega arith)

module _ (aes : BlockCipher) (key : Bytes) where
  -- The block that a round of `encrypt` gives to the cipher, and what it gets.
  block_size :
      (n : ℕ) (prev padded : Bytes)
      → length prev ≡ 16
      → length padded ≡ 16 * suc n
      → (length (xor_bytes (take 16 padded) prev) ≡ 16)
        × (length (aes.encipher key (xor_bytes (take 16 padded) prev)) ≡ 16)
  block_size n prev padded hp hl =
      let taken : length (take 16 padded) ≡ 16 = omega (arith, length-take 16 padded) in
      let x : length (xor_bytes (take 16 padded) prev) ≡ 16 =
        length-xor_bytes (take 16 padded) prev (omega (arith, taken)) ∙ taken in
      (x, aes.length-encipher key (xor_bytes (take 16 padded) prev) x)

  length-encrypt_blocks :
      (n : ℕ) (prev padded : Bytes)
      → length prev ≡ 16
      → length padded ≡ 16 * n
      → length (encrypt_blocks aes key n prev padded) ≡ 16 * n
  unfolding encrypt_blocks
  length-encrypt_blocks zero prev padded hp hl = refl
  length-encrypt_blocks (suc n) prev padded hp hl =
      let x = xor_bytes (take 16 padded) prev in
      let size = block_size n prev padded hp hl in
      omega (
        arith,
        length-append (aes.encipher key x)
            (encrypt_blocks aes key n (aes.encipher key x) (drop 16 padded)),
        size,
        length-encrypt_blocks n (aes.encipher key x) (drop 16 padded) size.1
            (omega (arith, length-drop 16 padded)),
      )

  pub length-encrypt :
      (iv plaintext : Bytes)
      → length iv ≡ 16
      → length (encrypt aes key iv plaintext) ≡ 16 * (length plaintext / 16 + 1)
  unfolding encrypt
  length-encrypt iv plaintext h =
      let n = length plaintext / 16 + 1 in
      let padded = length-pad plaintext in
      let rounds : length (pad plaintext) / 16 ≡ n = omega (arith, padded) in
      rw rounds (length-encrypt_blocks n iv (pad plaintext) h padded)

  decrypt_blocks-encrypt_blocks :
      (n : ℕ) (prev padded : Bytes)
      → length prev ≡ 16
      → length padded ≡ 16 * n
      → decrypt_blocks aes key n prev (encrypt_blocks aes key n prev padded) ≡ padded
  unfolding encrypt_blocks decrypt_blocks
  decrypt_blocks-encrypt_blocks zero prev [] hp hl = refl
  decrypt_blocks-encrypt_blocks zero prev (b ∷ bs) hp hl = absurd (omega arith)
  decrypt_blocks-encrypt_blocks (suc n) prev padded hp hl =
      let x = xor_bytes (take 16 padded) prev in
      let c = aes.encipher key x in
      let (first, size) = block_size n prev padded hp hl in
      let rest = encrypt_blocks aes key n c (drop 16 padded) in
      rw
        (
          take_prefix 16 c rest size,
          drop_prefix 16 c rest size,
          aes.decipher-encipher key x (omega (arith, first)),
          xor_bytes_back (take 16 padded) prev (omega (arith, hp, length-take 16 padded)),
          decrypt_blocks-encrypt_blocks n c (drop 16 padded) size
              (omega (arith, length-drop 16 padded)),
        )
        (take-append-drop 16 padded)

  -- What was encrypted with a key and an IV of 16 bytes is decrypted with them, whatever its
  -- length, 0 included.
  pub decrypt-encrypt :
      (iv plaintext : Bytes)
      → length iv ≡ 16
      → decrypt aes key iv (encrypt aes key iv plaintext) ≡ ok plaintext
  unfolding encrypt decrypt
  decrypt-encrypt iv plaintext h =
      let n = length plaintext / 16 + 1 in
      let padded = length-pad plaintext in
      let rounds : length (pad plaintext) / 16 ≡ n = omega (arith, padded) in
      let size = length-encrypt_blocks n iv (pad plaintext) h padded in
      let whole : (length (encrypt_blocks aes key n iv (pad plaintext)) == 0) ≡ false =
        ground (arith, size) in
      let aligned : (length (encrypt_blocks aes key n iv (pad plaintext)) % 16 == 0) ≡ true =
        rw size (ground arith) in
      let back : length (encrypt_blocks aes key n iv (pad plaintext)) / 16 ≡ n =
        omega (arith, size) in
      rw (
        rounds,
        whole,
        aligned,
        back,
        decrypt_blocks-encrypt_blocks n iv (pad plaintext) h padded,
        unpad-pad plaintext,
      )
