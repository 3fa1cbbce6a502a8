-- ===== src/Combined/Recount.antt =====
-- enableCombining, and changeThreshold with combining on.
use htram.Prelude.{
  ℕ, zero, suc, ◌+◌, ◌-◌, ◌≤◌, ◌<◌, ◌≡◌, refl, ap, ◌∙◌, subst, ℤ, pos, negsuc, ltb, ltb_ℤ, leb_ℤ,
  length, pos--ℤ, pos-+ℤ, List, true, false, some, ◌==◌, ◌⊎◌, get_or, All, inl, inr, Bool-cases,
  arith,
}
use htram.Env.{Env}
use htram.Message.{next}
use htram.Flush.{first_above}
use htram.Hold.Measure.{held}
use htram.Port.{Port, Settings}
use htram.Port.Valid.{SentInBounds, contents}
use htram.Combine.{HoldOps, CombiningHold, live_in, init}
use htram.Combine.Init.{init-IsValid, held-init, live-init, stamp-init}
use htram.Combine.Lowest.{HasStampsIn}
use htram.Combined.{
  Combined, is_per_dest, enable_combining, add_live, take_live, with_updates, recount_combined,
}
use htram.Combined.Admitted.{sum_upto, upto, sum_upto-none}
use htram.Combined.Fill.{waiting, IsReady, carried}

module _ {A : Type 0} (E : Env A) (s : Settings E) (ops : HoldOps A) where
  one_more : (v : List ℕ) (i n : ℕ) → sum_upto v (suc i + n) ≡ sum_upto v (i + suc n)
  one_more v i n = let same : suc i + n ≡ i + suc n = omega arith in ap (sum_upto v) same

  last_of :
      (v : List ℕ) (i n : ℕ) → sum_upto v (i + suc n) ≡ sum_upto v (i + n) + get_or v (i + n) 0
  last_of v i n = let same : i + suc n ≡ suc (i + n) = omega arith in ap (sum_upto v) same

  sum_upto-more : (v : List ℕ) (i n : ℕ) → sum_upto v i ≤ sum_upto v (i + n)
  sum_upto-more v i zero =
      let same : i ≡ i + 0 = omega arith in
      subst (λ j. sum_upto v i ≤ sum_upto v j) same (omega arith)
  sum_upto-more v i (suc n) = omega (arith, sum_upto-more v i n, last_of v i n)

  plus_zero : (i : ℕ) → i + 0 ≡ i
  plus_zero i = omega arith

  read_live :
      (i : ℕ) (c : CombiningHold A) → i < length c.live → live_in ops i c ≡ some (get_or c.live i 0)
  unfolding live_in
  read_live i c lt = let t : ltb i (length c.live) ≡ true = ground arith in rw t

  add_live_lem :
      (n i m m' : ℕ) (c : CombiningHold A)
      → i + n ≤ length c.live
      → m + sum_upto c.live (i + n) ≡ m' + sum_upto c.live i
      → add_live E s ops n i c (pos m) ≡ some (pos m')
  unfolding add_live
  add_live_lem zero i m m' c fits e =
      let same : sum_upto c.live (i + 0) ≡ sum_upto c.live i = ap (sum_upto c.live) (plus_zero i) in
      ap (λ k. some (pos k)) (omega (arith, e, same))
  add_live_lem (suc n) i m m' c fits e =
      rw (read_live i c (omega arith), add_live)
        (ap (add_live E s ops n (suc i) c) (pos-+ℤ m (get_or c.live i 0))
          ∙ add_live_lem n (suc i) (m + get_or c.live i 0) m' c (omega arith)
              (omega (arith, e, one_more c.live i n)))

  take_live_lem :
      (n i m m' : ℕ) (c : CombiningHold A)
      → i + n ≤ length c.live
      → m + sum_upto c.live i ≡ m' + sum_upto c.live (i + n)
      → take_live E s ops n i c (pos m) ≡ some (pos m')
  unfolding take_live
  take_live_lem zero i m m' c fits e =
      let same : sum_upto c.live (i + 0) ≡ sum_upto c.live i = ap (sum_upto c.live) (plus_zero i) in
      ap (λ k. some (pos k)) (omega (arith, e, same))
  take_live_lem (suc n) i m m' c fits e =
      let g = get_or c.live (i + n) 0 in
      let last : sum_upto c.live (i + suc n) ≡ sum_upto c.live (i + n) + g = last_of c.live i n in
      let more = sum_upto-more c.live i n in
      rw (read_live (i + n) c (omega arith), take_live)
        (ap (take_live E s ops n i c) (pos--ℤ m g (m - g) (omega (arith, e, last, more)))
          ∙ take_live_lem n i (m - g) m' c (omega arith) (omega (arith, e, last, more)))

  upto_is : (t : ℤ) → first_above t ≡ upto t
  upto_is (pos n) = omega arith
  upto_is (negsuc n) = refl

  -- A threshold that is -1 or a bucket.
  pub record IsThreshold (t : ℤ) : Type 0 where
    pub least : leb_ℤ (negsuc 0) t ≡ true
    pub most : upto t ≤ s.histo_bucket_count

  -- A destination whose counter is that of the threshold `t`.
  abbrev pub counted_for : ℤ → Combined A → Combined A
  counted_for t p =
      let port = p.port in
      record p {
        port = record port { updates = pos (next p.port.msg + sum_upto p.held.live (upto t)) };
      }

  -- With combining on, changeThreshold's loops over the live counts of a valid destination, from
  -- the threshold in force to a new one, higher or lower, where each of the two is -1 or a bucket
  -- that exists, read no count outside of live_, leave updates_in_tram at the number of items in
  -- the buffer and of those in the hold that the new threshold admits, and change nothing else.
  pub recount_combined_lem :
      (new : ℤ) (p : Combined A)
      → IsThreshold s.tram_threshold
      → IsThreshold new
      → IsReady E s ops p
      → recount_combined E s ops s.tram_threshold new p ≡ some (counted_for new p)
  unfolding recount_combined
  recount_combined_lem new p told tnew v = elim (Bool-cases (ltb_ℤ s.tram_threshold new)) [
    | inl up ↦
        let lo = first_above s.tram_threshold in
        let hi = first_above new in
        let there : lo + (hi - lo) ≡ upto new = reach s.tram_threshold new (inl up) ∙ upto_is new in
        let here : sum_upto p.held.live lo ≡ waiting E s ops p =
          ap (sum_upto p.held.live) (upto_is s.tram_threshold) in
        rw (up, told.least)
          (ap (with_updates E s ops p) (
            ap (add_live E s ops (hi - lo) lo p.held) v.ready.exact
            ∙ add_live_lem (hi - lo) lo (next p.port.msg + waiting E s ops p)
                (next p.port.msg + sum_upto p.held.live (upto new)) p.held
                (omega (arith, there, tnew.most, v.hold.counts.lanes))
                (omega (arith, here, ap (sum_upto p.held.live) there))))
    | inr not_up ↦ elim (Bool-cases (ltb_ℤ new s.tram_threshold)) [
      | inl down ↦
          let lo = first_above new in
          let hi = first_above s.tram_threshold in
          let there : lo + (hi - lo) ≡ upto s.tram_threshold =
            reach new s.tram_threshold (inl down) ∙ upto_is s.tram_threshold in
          let here : sum_upto p.held.live lo ≡ sum_upto p.held.live (upto new) =
            ap (sum_upto p.held.live) (upto_is new) in
          rw (not_up, down, tnew.least)
            (ap (with_updates E s ops p) (
              ap (take_live E s ops (hi - lo) lo p.held) v.ready.exact
              ∙ take_live_lem (hi - lo) lo (next p.port.msg + waiting E s ops p)
                  (next p.port.msg + sum_upto p.held.live (upto new)) p.held
                  (omega (arith, there, told.most, v.hold.counts.lanes))
                  (omega (arith, here, ap (sum_upto p.held.live) there))))
      | inr not_down ↦
          rw (not_up, not_down)
            (ap (λ n. let port = p.port in some (record p { port = record port { updates = n } }))
              (v.ready.exact
                ∙ ap (λ t. pos (next p.port.msg + sum_upto p.held.live (upto t)))
                    (level s.tram_threshold new not_up not_down)))
    ]
  ]
    where
      reach :
          (a b : ℤ)
          → (ltb_ℤ a b ≡ true) ⊎ (a ≡ b)
          → first_above a + (first_above b - first_above a) ≡ first_above b
      reach (pos a) (pos b) (inl lt) = ground arith
      reach (pos a) (negsuc b) (inl lt) = absurd (ground arith)
      reach (negsuc a) (pos b) (inl lt) = omega arith
      reach (negsuc a) (negsuc b) (inl lt) = omega arith
      reach a b (inr e) =
          subst (λ c. first_above a + (first_above c - first_above a) ≡ first_above c) e
            (omega arith)

      level : (a b : ℤ) → ltb_ℤ a b ≡ false → ltb_ℤ b a ≡ false → a ≡ b
      level (pos a) (pos b) e f = let same : a ≡ b = ground arith in ap pos same
      level (pos a) (negsuc b) e f = absurd (ground arith)
      level (negsuc a) (pos b) e f = absurd (ground arith)
      level (negsuc a) (negsuc b) e f = let same : a ≡ b = ground arith in ap negsuc same

  -- Combining on. What tram_hold had is still there, where no operation with combining on looks.
  pub record Enabled (port : Port A) (p : Combined A) : Type 0 where
    pub done : enable_combining E s ops port ≡ some p
    pub ready : IsReady E s ops p
    pub same : (w : A → ℕ) → contents w port ≡ carried E s ops w p + held w port.hold

  -- enableCombining on a destination of the modes WPs or WW that has buffered nothing, counts zero,
  -- whose buffer is as wide as bufSize, and whose sent messages are in bounds, is accepted, and the
  -- destination is valid with combining on. What it had sent it still has sent; what tram_hold had
  -- is left behind there, and is no part of what the destination carries with combining on. So
  -- nothing is left behind only if tram_hold was empty, which the check does not look at.
  pub enable_combining-Enabled :
      (port : Port A)
      → is_per_dest s.agg ≡ true
      → next port.msg ≡ 0
      → port.updates ≡ pos 0
      → 0 < s.buf_size
      → s.buf_size ≤ port.msg.cap
      → All SentInBounds port.sent
      → Enabled port (record { port = port; held = init ops s.histo_bucket_count })
  unfolding enable_combining contents
  enable_combining-Enabled port mode bare uncounted size wide old =
      let v = init-IsValid ops s.histo_bucket_count in
      let c = init ops s.histo_bucket_count in
      let none_waits : sum_upto c.live (upto s.tram_threshold) ≡ 0 =
        sum_upto-none c.live (upto s.tram_threshold) (λ b lt. init-live b) in
      let empty : (next port.msg == 0) ≡ true = ground arith in
      record {
        done = rw (mode, uncounted, empty);
        ready = record {
          hold = v;
          ready = record {
            room = omega (arith, size, bare);
            wide = wide;
            exact = uncounted ∙ ap pos (omega (arith, bare, none_waits));
            in_bounds = old;
          };
          stamps = stamps;
        };
        same = λ w. omega (arith, held-init ops s.histo_bucket_count w);
      }
    where
      init-live : (b : ℕ) → get_or (init ops s.histo_bucket_count).live b 0 ≡ 0
      init-live b = live-init ops s.histo_bucket_count b

      stamps : HasStampsIn ops (init ops s.histo_bucket_count)
      stamps e here = stamp-init ops s.histo_bucket_count e
