-- ===== src/Spqr/Chain.antt =====
-- src/spqr/chain.zig: the key chains of each epoch, one for each direction.
pub mod Keys
pub mod Pairing
pub mod Serial
use libsignal_zig.Prelude.{
  ℕ, zero, suc, ◌+◌, ◌-◌, ◌^◌, List, [], ◌∷◌, ◌++◌, Option, none, some, length, get_elem?, set,
  get_or, take, drop, replicate, ltb, leb, ◌==◌, not, if◌then◌else◌,
}
use libsignal_zig.Prelude.Bytes.{Bytes, ascii, slice, write_be, read_be}
use libsignal_zig.Prelude.Result.{
  Result, ok, err, panic, stuck, ◌>>=◌, ◌>>◌, fail_if, panic_if, or_panic, key_already_used,
  key_jump, epoch_out_of_order, epoch_out_of_range, too_short,
}
use libsignal_zig.Crypto.{Crypto}

pub data Direction : Type 0 where
  a2b b2a : Direction

pub record EpochDir : Type 0 where
  pub ctr : ℕ
  pub next : Bytes

pub record KeyResult : Type 0 where
  pub idx : ℕ
  pub key : Bytes

pub record Epoch : Type 0 where
  pub send : EpochDir
  pub recv : EpochDir

pub record Chain : Type 0 where
  pub dir : Direction
  pub current_epoch : ℕ
  pub send_epoch : ℕ
  pub links : List Epoch
  pub next_root : Bytes
  pub max_jump : ℕ

abbrev pub default_max_jump : ℕ
default_max_jump = 25_000

-- What `init` and `addEpoch` expand, cut into the root and the two starts.
abbrev pub starts : Direction → Bytes → Epoch
starts Direction.a2b out = record {
  send = record { ctr = 0; next = slice 32 32 out };
  recv = record { ctr = 0; next = slice 64 32 out };
}
starts Direction.b2a out = record {
  send = record { ctr = 0; next = slice 64 32 out };
  recv = record { ctr = 0; next = slice 32 32 out };
}

-- `epochLink`: the place of the epoch in `links`.
unfoldable pub epoch_link : Chain → ℕ → Result ℕ
epoch_link c epoch = do
  fail_if (ltb c.current_epoch epoch) epoch_out_of_range
  let back = c.current_epoch - epoch
  fail_if (leb (length c.links) back) epoch_out_of_range
  ok (length c.links - 1 - back)

module _ (crypto : Crypto) where
  open crypto use {hkdf_extract, hkdf_expand}

  -- `EpochDir.nextKey`, whose counter is a u32.
  unfoldable pub next_key : EpochDir → Result (KeyResult × EpochDir)
  unfolding ascii
  next_key d = do
    panic_if (leb (2 ^ 32) (d.ctr + 1))
    let info = write_be 4 (d.ctr + 1) ++ ascii "Signal PQ Ratchet V1 Chain Next"
    let out = hkdf_expand 64 info (hkdf_extract (replicate 32 0) d.next)
    ok (
      record { idx = d.ctr + 1; key = slice 32 32 out },
      record { ctr = d.ctr + 1; next = slice 0 32 out },
    )

  -- `while (self.ctr + 1 < index)`
  unfoldable pub skip_to : ℕ → ℕ → EpochDir → Result EpochDir
  skip_to zero index d = if ltb (d.ctr + 1) index then stuck else ok d
  skip_to (suc rounds) index d =
      let more = next_key d >>= λ r. skip_to rounds index r.1 in
      if ltb (d.ctr + 1) index then more else ok d

  -- `EpochDir.keyAt`; the loop has fewer rounds than the index is above the counter.
  unfoldable pub key_at : ℕ → ℕ → EpochDir → Result (KeyResult × EpochDir)
  key_at index max_jump d = do
    fail_if (leb index d.ctr) key_already_used
    panic_if (leb (2 ^ 32) (d.ctr + max_jump))
    fail_if (ltb (d.ctr + max_jump) index) key_jump
    d' ← skip_to (index - d.ctr) index d
    next_key d'

  -- `Chain.init`
  unfoldable pub chain_init : Bytes → Direction → Chain
  unfolding ascii
  chain_init initial_key dir =
      let prk = hkdf_extract (replicate 32 0) initial_key in
      let out = hkdf_expand 96 (ascii "Signal PQ Ratchet V1 Chain  Start") prk in
      record {
        dir = dir;
        current_epoch = 0;
        send_epoch = 0;
        links = starts dir out ∷ [];
        next_root = slice 0 32 out;
        max_jump = default_max_jump;
      }

  unfoldable pub add_epoch : Chain → ℕ → Bytes → Result Chain
  unfolding ascii
  add_epoch c epoch secret = do
    panic_if (leb (2 ^ 64) (c.current_epoch + 1))
    fail_if (not (epoch == c.current_epoch + 1)) epoch_out_of_order
    let prk = hkdf_extract c.next_root secret
    let out = hkdf_expand 96 (ascii "Signal PQ Ratchet V1 Chain Add Epoch") prk
    ok (record c {
      next_root = slice 0 32 out;
      current_epoch = epoch;
      send_epoch = epoch;
      links = c.links ++ starts c.dir out ∷ [];
    })

  unfoldable pub send_key : Chain → ℕ → Result (KeyResult × Chain)
  send_key c epoch = do
    i ← epoch_link c epoch
    link ← or_panic (get_elem? c.links i)
    (r, d) ← next_key link.send
    ok (r, record c { links = set c.links i (record link { send = d }) })

  unfoldable pub recv_key : Chain → ℕ → ℕ → Result (Bytes × Chain)
  recv_key c epoch index = do
    i ← epoch_link c epoch
    link ← or_panic (get_elem? c.links i)
    (r, d) ← key_at index c.max_jump link.recv
    ok (r.key, record c { links = set c.links i (record link { recv = d }) })

abbrev direction_byte : Direction → ℕ
direction_byte Direction.a2b = 0
direction_byte Direction.b2a = 1

-- `@enumFromInt`: a byte with no name is illegal behaviour.
abbrev direction_from_int : ℕ → Result Direction
direction_from_int b =
    if b == 0 then ok Direction.a2b else if b == 1 then ok Direction.b2a else panic

unfoldable pub serialize_links : List Epoch → Bytes
serialize_links [] = []
serialize_links (link ∷ links) =
    write_be 4 link.send.ctr
    ++ (link.send.next ++ (write_be 4 link.recv.ctr ++ (link.recv.next ++ serialize_links links)))

-- `Chain.serialize` appends to a buffer; the number of links is cast to a u32.
unfoldable pub serialize_chain : Chain → Bytes → Result Bytes
serialize_chain c buf = do
  panic_if (leb (2 ^ 32) (length c.links))
  ok (
      buf
      ++ direction_byte c.dir
        ∷ (write_be 8 c.current_epoch
            ++ (write_be 8 c.send_epoch
                ++ (c.next_root ++ (write_be 4 (length c.links) ++ serialize_links c.links)))))

-- The loop of `deserialize`, on what is left of the data and the position of that.
unfoldable pub deserialize_links : ℕ → Bytes → ℕ → Result (List Epoch × ℕ)
deserialize_links zero rest pos = ok ([], pos)
deserialize_links (suc n) rest pos = do
  fail_if (ltb (length rest) (4 + 32 + 4 + 32)) too_short
  let rest₁ = drop 4 rest
  let rest₂ = drop 32 rest₁
  let rest₃ = drop 4 rest₂
  let link : Epoch = record {
    send = record { ctr = read_be (take 4 rest); next = take 32 rest₁ };
    recv = record { ctr = read_be (take 4 rest₂); next = take 32 rest₃ };
  }
  (links, pos') ← deserialize_links n (drop 32 rest₃) (pos + 72)
  ok (link ∷ links, pos')

-- `Chain.deserialize`: the chain and how many bytes were consumed.
unfoldable pub deserialize_chain : Bytes → Result (Chain × ℕ)
deserialize_chain bytes = do
  fail_if (ltb (length bytes) (1 + 8 + 8 + 32 + 4)) too_short
  dir ← direction_from_int (get_or bytes 0 0)
  let rest₁ = drop 1 bytes
  let rest₂ = drop 8 rest₁
  let rest₃ = drop 8 rest₂
  let rest₄ = drop 32 rest₃
  (links, pos) ← deserialize_links (read_be (take 4 rest₄)) (drop 4 rest₄) 53
  ok (
    record {
      dir = dir;
      current_epoch = read_be (take 8 rest₁);
      send_epoch = read_be (take 8 rest₂);
      links = links;
      next_root = take 32 rest₃;
      max_jump = default_max_jump;
    },
    pos,
  )
