-- ===== src/Spqr/Chain/Serial.antt =====
-- `Chain.serialize` and `Chain.deserialize`.
use libsignal_zig.Prelude.{
  ℕ, suc, ◌+◌, ◌*◌, ◌^◌, ◌≡◌, refl, ap, List, [], ◌∷◌, ◌++◌, length, take, drop, le→ltb, lt→leb,
  arith, All, length-append, take_prefix, drop_prefix, append_assoc,
}
use libsignal_zig.Prelude.Bytes.{Bytes, IsU32, IsU64, write_be, read_be-write_be, length-write_be}
use libsignal_zig.Prelude.Result.{ok, ◌>>=◌}
use libsignal_zig.Spqr.Chain.{
  Direction, direction_byte, direction_from_int, EpochDir, Epoch, Chain, default_max_jump,
  serialize_links, serialize_chain, deserialize_links, deserialize_chain,
}

abbrev pub IsDir : EpochDir → Type 0
IsDir d = IsU32 d.ctr × (length d.next ≡ 32)

abbrev pub IsEpoch : Epoch → Type 0
IsEpoch link = IsDir link.send × IsDir link.recv

-- A chain whose numbers fit their widths, with the default `max_jump`, which is not serialized.
pub record IsChain (c : Chain) : Type 0 where
  pub current : IsU64 c.current_epoch
  pub sending : IsU64 c.send_epoch
  pub root : length c.next_root ≡ 32
  pub count : IsU32 (length c.links)
  pub links : All IsEpoch c.links
  pub jump : c.max_jump ≡ default_max_jump

-- A field of `n` bytes is cut off the front.
cut :
    (n : ℕ) (bs rest : Bytes)
    → length bs ≡ n
    → (take n (bs ++ rest) ≡ bs) × (drop n (bs ++ rest) ≡ rest)
cut n bs rest h = (take_prefix n bs rest h, drop_prefix n bs rest h)

abbrev link_bytes : Epoch → Bytes → Bytes
link_bytes link tail =
    write_be 4 link.send.ctr
    ++ (link.send.next ++ (write_be 4 link.recv.ctr ++ (link.recv.next ++ tail)))

length-link_bytes :
    (link : Epoch) (tail : Bytes) → IsEpoch link → length (link_bytes link tail) ≡ 72 + length tail
length-link_bytes link tail ((sc, sn), (rc, rn)) =
    let v = write_be 4 link.recv.ctr in
    omega (
      arith,
      length-append (write_be 4 link.send.ctr) (link.send.next ++ (v ++ (link.recv.next ++ tail))),
      length-append link.send.next (v ++ (link.recv.next ++ tail)),
      length-append v (link.recv.next ++ tail),
      length-append link.recv.next tail,
      length-write_be 4 link.send.ctr,
      length-write_be 4 link.recv.ctr,
    )

-- One round of the loop reads one link.
deserialize_links-link_bytes :
    (n : ℕ) (link : Epoch) (tail : Bytes) (pos : ℕ)
    → IsEpoch link
    → deserialize_links (suc n) (link_bytes link tail) pos
      ≡ (deserialize_links n tail (pos + 72) >>= λ r. ok (link ∷ r.0, r.1))
unfolding deserialize_links
deserialize_links-link_bytes n link tail pos ((sc, sn), (rc, rn)) =
    let w = write_be 4 link.send.ctr in
    let v = write_be 4 link.recv.ctr in
    let (t₁, d₁) =
      cut 4 w (link.send.next ++ (v ++ (link.recv.next ++ tail)))
        (length-write_be 4 link.send.ctr) in
    let (t₂, d₂) = cut 32 link.send.next (v ++ (link.recv.next ++ tail)) sn in
    let (t₃, d₃) = cut 4 v (link.recv.next ++ tail) (length-write_be 4 link.recv.ctr) in
    let (t₄, d₄) = cut 32 link.recv.next tail rn in
    rw (
      le→ltb (length (link_bytes link tail)) 72
          (omega (arith, length-link_bytes link tail ((sc, sn), (rc, rn)))),
      t₁,
      d₁,
      t₂,
      d₂,
      t₃,
      d₃,
      t₄,
      d₄,
      read_be-write_be 4 link.send.ctr sc,
      read_be-write_be 4 link.recv.ctr rc,
    )

serialize_links-append :
    (link : Epoch) (links : List Epoch) (rest : Bytes)
    → serialize_links (link ∷ links) ++ rest ≡ link_bytes link (serialize_links links ++ rest)
unfolding serialize_links
serialize_links-append link links rest = simp append_assoc

deserialize-serialize_links :
    (links : List Epoch) (rest : Bytes) (pos : ℕ)
    → All IsEpoch links
    → deserialize_links (length links) (serialize_links links ++ rest) pos
      ≡ ok (links, pos + 72 * length links)
deserialize-serialize_links [] rest pos h =
    unfold deserialize_links in ap (λ (n : ℕ). ok ([], n)) (omega arith)
deserialize-serialize_links (link ∷ links) rest pos (hl, h) =
    rw
      (
        serialize_links-append link links rest,
        deserialize_links-link_bytes (length links) link (serialize_links links ++ rest) pos hl,
        deserialize-serialize_links links rest (pos + 72) h,
      )
      (ap (λ (n : ℕ). ok (link ∷ links, n)) (omega arith))

length-serialize_links :
    (links : List Epoch) → All IsEpoch links → length (serialize_links links) ≡ 72 * length links
unfolding serialize_links
length-serialize_links [] h = refl
length-serialize_links (link ∷ links) (hl, h) =
    omega (arith, length-link_bytes link (serialize_links links) hl, length-serialize_links links h)

abbrev chain_bytes : Chain → Bytes → Bytes
chain_bytes c tail =
    direction_byte c.dir
    ∷ (write_be 8 c.current_epoch
        ++ (write_be 8 c.send_epoch ++ (c.next_root ++ (write_be 4 (length c.links) ++ tail))))

direction_from_int-direction_byte : (d : Direction) → direction_from_int (direction_byte d) ≡ ok d
direction_from_int-direction_byte Direction.a2b = refl
direction_from_int-direction_byte Direction.b2a = refl

length-chain_bytes :
    (c : Chain) (tail : Bytes) → IsChain c → length (chain_bytes c tail) ≡ 53 + length tail
length-chain_bytes c tail valid =
    let e = write_be 8 c.current_epoch in
    let s = write_be 8 c.send_epoch in
    let n = write_be 4 (length c.links) in
    omega (
      arith,
      valid.root,
      length-append e (s ++ (c.next_root ++ (n ++ tail))),
      length-append s (c.next_root ++ (n ++ tail)),
      length-append c.next_root (n ++ tail),
      length-append n tail,
      length-write_be 8 c.current_epoch,
      length-write_be 8 c.send_epoch,
      length-write_be 4 (length c.links),
    )

-- The fixed part is read back, and the loop is left.
deserialize_chain-chain_bytes :
    (c : Chain) (tail : Bytes)
    → IsChain c
    → deserialize_chain (chain_bytes c tail)
      ≡ (deserialize_links (length c.links) tail 53 >>= λ r. ok (record c { links = r.0 }, r.1))
unfolding deserialize_chain
deserialize_chain-chain_bytes c tail valid =
    let e = write_be 8 c.current_epoch in
    let s = write_be 8 c.send_epoch in
    let n = write_be 4 (length c.links) in
    let (t₁, d₁) =
      cut 8 e (s ++ (c.next_root ++ (n ++ tail))) (length-write_be 8 c.current_epoch) in
    let (t₂, d₂) = cut 8 s (c.next_root ++ (n ++ tail)) (length-write_be 8 c.send_epoch) in
    let (t₃, d₃) = cut 32 c.next_root (n ++ tail) valid.root in
    let (t₄, d₄) = cut 4 n tail (length-write_be 4 (length c.links)) in
    rw (
      le→ltb (length (chain_bytes c tail)) 53 (omega (arith, length-chain_bytes c tail valid)),
      direction_from_int-direction_byte c.dir,
      t₁,
      d₁,
      t₂,
      d₂,
      t₃,
      d₃,
      t₄,
      d₄,
      read_be-write_be 8 c.current_epoch valid.current,
      read_be-write_be 8 c.send_epoch valid.sending,
      read_be-write_be 4 (length c.links) valid.count,
      valid.jump,
    )

chain_bytes-append :
    (c : Chain) (rest : Bytes)
    → chain_bytes c (serialize_links c.links) ++ rest
      ≡ chain_bytes c (serialize_links c.links ++ rest)
chain_bytes-append c rest = simp append_assoc

-- A well-formed chain is serialized, and what is deserialized from its bytes, whatever follows
-- them, is the chain and the number of its bytes.
pub deserialize-serialize_chain :
    (c : Chain) (rest : Bytes)
    → IsChain c
    → (bytes : Bytes) × (serialize_chain c [] ≡ ok bytes)
      × (deserialize_chain (bytes ++ rest) ≡ ok (c, length bytes))
deserialize-serialize_chain c rest valid =
    let bytes = chain_bytes c (serialize_links c.links) in
    (
      bytes,
      unfold serialize_chain in rw (lt→leb (2 ^ 32) (length c.links) valid.count),
      rw
          (
            chain_bytes-append c rest,
            deserialize_chain-chain_bytes c (serialize_links c.links ++ rest) valid,
            deserialize-serialize_links c.links rest 53 valid.links,
          )
          (ap (λ (n : ℕ). ok (c, n))
            (omega (
              arith,
              length-chain_bytes c (serialize_links c.links) valid,
              length-serialize_links c.links valid.links,
            ))),
    )
