-- ===== src/IncrementalMac/Chunks.antt =====
-- The loop of `update` in src/incremental_mac.zig takes its bytes one after another.
use libsignal_zig.Prelude.{
  ℕ, zero, suc, ◌+◌, ◌-◌, min, ◌≤◌, ◌<◌, ◌≡◌, refl, sym, ap, ◌∙◌, true, false, Bool-cases, inl, inr,
  ◌==◌, leb, [], ◌∷◌, ◌++◌, length, take, drop, append_assoc, append-nil, take-append-drop,
  take_all, length-drop, length-take, length-append, if◌then◌else◌, arith,
}
use libsignal_zig.Prelude.Bytes.{Bytes}
use libsignal_zig.Prelude.Result.{Result, ok, ok_injective, bind-eq-ok, bind_assoc, ◌>>=◌}
use libsignal_zig.IncrementalMac.{fill_loop}

module _ {A : Type 0} (chunk_size : ℕ) (flush : Bytes → A → Result A) where
  unfoldable pub feed : Bytes → A → Bytes → Result (Bytes × A)
  feed buf acc [] = ok (buf, acc)
  feed buf acc (b ∷ bs) =
      let more = λ (rest : Bytes) (a : A). feed rest a bs in
      if suc (length buf) == chunk_size
      then flush (buf ++ b ∷ []) acc >>= more []
      else more (buf ++ b ∷ []) acc

  feed_short :
      (buf : Bytes) (acc : A) (xs ys : Bytes)
      → length buf + length xs < chunk_size
      → feed buf acc (xs ++ ys) ≡ feed (buf ++ xs) acc ys
  unfolding feed
  feed_short buf acc [] ys short = rw (append-nil buf)
  feed_short buf acc (x ∷ xs) ys short =
      let more : (suc (length buf) == chunk_size) ≡ false = ground (arith, short) in
      rw more (
        feed_short (buf ++ x ∷ []) acc xs ys (omega (arith, short, length-append buf (x ∷ [])))
        ∙ rw (append_assoc buf (x ∷ []) xs))

  feed_full :
      (buf : Bytes) (acc : A) (xs ys : Bytes)
      → length buf < chunk_size
      → length buf + length xs ≡ chunk_size
      → feed buf acc (xs ++ ys) ≡ (flush (buf ++ xs) acc >>= λ a. feed [] a ys)
  unfolding feed
  feed_full buf acc [] ys short full = absurd (omega (arith, short, full))
  feed_full buf acc (x ∷ []) ys short full =
      let done : (suc (length buf) == chunk_size) ≡ true = ground (arith, full) in rw done
  feed_full buf acc (x ∷ y ∷ xs) ys short full =
      let more : (suc (length buf) == chunk_size) ≡ false = ground (arith, full) in
      let longer = length-append buf (x ∷ []) in
      rw more (
        feed_full (buf ++ x ∷ []) acc (y ∷ xs) ys (omega (arith, longer, full))
          (omega (arith, longer, full))
        ∙ rw (append_assoc buf (x ∷ []) (y ∷ xs)))

  drop_all : (n : ℕ) (xs : Bytes) → length xs ≡ n → drop n xs ≡ []
  drop_all zero [] e = refl
  drop_all zero (x ∷ xs) e = absurd (omega (arith, e))
  drop_all (suc n) [] e = refl
  drop_all (suc n) (x ∷ xs) e = drop_all n xs (omega (arith, e))

  -- With room in the buffer, as many rounds as there are bytes are enough, and the loop does what
  -- taking the bytes one by one does.
  pub fill_loop-feed :
      (fuel : ℕ) (buf : Bytes) (acc : A) (src : Bytes)
      → length src ≤ fuel
      → length buf < chunk_size
      → fill_loop chunk_size flush fuel buf acc src ≡ feed buf acc src
  unfolding fill_loop
  fill_loop-feed fuel buf acc [] enough room = unfold feed in refl
  fill_loop-feed zero buf acc (b ∷ bs) enough room = absurd (omega (arith, enough))
  fill_loop-feed (suc fuel) buf acc (b ∷ bs) enough room =
      elim (Bool-cases (leb (chunk_size - length buf) (suc (length bs)))) [
        | inl less ↦
            let fits : chunk_size - length buf ≤ suc (length bs) = ground (arith, less) in
            let n = chunk_size - length buf in
            let size : length (take n (b ∷ bs)) ≡ n = omega (arith, length-take n (b ∷ bs), fits) in
            let least : min (chunk_size - length buf) (suc (length bs)) ≡ n = omega (arith, fits) in
            let full : (length (buf ++ take n (b ∷ bs)) == chunk_size) ≡ true =
              ground (arith, length-append buf (take n (b ∷ bs)), size, room) in
            rw (least, full)
              ((λ i. flush (buf ++ take n (b ∷ bs)) acc >>= λ a.
                  fill_loop-feed fuel [] a (drop n (b ∷ bs))
                    (omega (arith, length-drop n (b ∷ bs), enough, room)) (omega (arith, room)) i)
                ∙ sym (
                    feed_full buf acc (take n (b ∷ bs)) (drop n (b ∷ bs)) room
                      (omega (arith, size, room)))
                ∙ ap (λ (src : Bytes). feed buf acc src) (take-append-drop n (b ∷ bs)))
        | inr greater ↦
            let short : suc (length bs) < chunk_size - length buf = ground (arith, greater) in
            let n = suc (length bs) in
            let least : min (chunk_size - length buf) (suc (length bs)) ≡ n =
              omega (arith, short) in
            let all = take_all n (b ∷ bs) refl in
            let none_left : drop n (b ∷ bs) ≡ [] = drop_all n (b ∷ bs) refl in
            let more : (length (buf ++ b ∷ bs) == chunk_size) ≡ false =
              ground (arith, length-append buf (b ∷ bs), short, room) in
            rw (least, all, none_left, more)
              (fill_loop-feed fuel (buf ++ b ∷ bs) acc [] (omega arith)
                  (omega (arith, length-append buf (b ∷ bs), short, room))
                ∙ sym (feed_short buf acc (b ∷ bs) [] (omega (arith, short, room)))
                ∙ ap (λ (src : Bytes). feed buf acc src) (append-nil (b ∷ bs)))
      ]

  pub feed-append :
      (buf : Bytes) (acc : A) (xs ys : Bytes)
      → feed buf acc (xs ++ ys) ≡ (feed buf acc xs >>= λ p. feed p.0 p.1 ys)
  unfolding feed
  feed-append buf acc [] ys = refl
  feed-append buf acc (x ∷ xs) ys = elim (Bool-cases (suc (length buf) == chunk_size)) [
    | inl full ↦ rw full (
        (λ i. flush (buf ++ x ∷ []) acc >>= λ a. feed-append [] a xs ys i)
        ∙ sym (bind_assoc (flush (buf ++ x ∷ []) acc) (λ a. feed [] a xs) (λ p. feed p.0 p.1 ys)))
    | inr more ↦ rw more (feed-append (buf ++ x ∷ []) acc xs ys)
  ]

  -- The buffer is never left full.
  pub feed-room :
      (buf : Bytes) (acc : A) (xs : Bytes) (p : Bytes × A)
      → length buf < chunk_size
      → feed buf acc xs ≡ ok p
      → length p.0 < chunk_size
  unfolding feed
  feed-room buf acc [] p room run = rw (← ok_injective run) room
  feed-room buf acc (x ∷ xs) p room run = elim (Bool-cases (suc (length buf) == chunk_size)) [
    | inl full ↦
        let (a, flushed, later) =
          bind-eq-ok (flush (buf ++ x ∷ []) acc) (λ a. feed [] a xs) (rw full at run) in
        feed-room [] a xs p (omega (arith, room)) later
    | inr more ↦
        feed-room (buf ++ x ∷ []) acc xs p (ground (arith, length-append buf (x ∷ []), room, more))
          (rw more at run)
  ]
