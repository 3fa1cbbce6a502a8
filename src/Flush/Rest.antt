-- ===== src/Flush/Rest.antt =====
-- The end of a flush: fillers pad the partial buffer, which leaves.
use htram.Prelude.{
  ℕ, zero, suc, ◌/◌, ◌≤◌, ◌<◌, ◌≡◌, refl, ap, ◌∙◌, ℤ, pos, negsuc, leb_ℤ, ltb, ◌&&◌, List, [], ◌∷◌,
  true, false, inl, inr, Bool-cases, All, arith,
}
use htram.Env.{Env}
use htram.HoldQueue.{size}
use htram.HoldQueue.Fifo.{front-to_list, front-none}
use htram.Message.{next, put, next-put}
use htram.Hold.{queue, hold_take}
use htram.Hold.Measure.{held, admitted, admits}
use htram.Hold.Valid.{IsFormed, IsSound, waiting}
use htram.Hold.Pop.{Takes, hold_take-Takes}
use htram.Hold.Sweep.{sweep_rule}
use htram.Port.{Port, Settings, bits, put_item}
use htram.Port.Valid.{SentInBounds, contents}
use htram.Port.Ship.{load-put}
use htram.Flush.{first_above, fill_bucket, add_fillers}

-- The buckets that fillers come from are above the threshold.
above_first : (t : ℤ) (from i : ℕ) → first_above t ≤ from → from ≤ i → leb_ℤ (pos i) t ≡ false
above_first (pos t) from i h le = ground arith
above_first (negsuc t) from i h le = ground arith

module _ {A : Type 0} (E : Env A) (s : Settings E) where
  -- While fillers are added the buffer's own items are counted out already.
  pub record Filling (p q : Port A) : Type 0 where
    pub some_item : 0 < next q.msg
    pub room : next q.msg < s.buf_size
    pub wide : s.buf_size ≤ q.msg.cap
    pub exact : q.updates ≡ pos (admitted s.tram_threshold q.hold)
    pub in_bounds : All SentInBounds q.sent
    pub formed : IsFormed s.histo_bucket_count q.hold
    pub sound : IsSound q.hold
    pub same : (w : A → ℕ) → contents w q ≡ contents w p
    pub kept : (c : ℕ) → leb_ℤ (pos c) s.tram_threshold ≡ true → waiting q.hold c ≡ waiting p.hold c

  abbrev filled : ℕ → A → Port A → Port A
  filled i x q = put_item x (E.dest_of x) (record q { hold = hold_take i q.hold })

  filled-Filling :
      (i : ℕ) (x : A) (xs : List A) (p q : Port A)
      → i < s.histo_bucket_count
      → leb_ℤ (pos i) s.tram_threshold ≡ false
      → Filling p q
      → waiting q.hold i ≡ x ∷ xs
      → next q.msg < s.buf_size / 2
      → Filling p (filled i x q)
  unfolding put_item
  filled-Filling i x xs p q lt gt f e h =
      let t = hold_take-Takes i x xs q.hold f.formed f.sound lt e in
      let longer = next-put x (E.dest_of x) q.msg in
      record {
        some_item = omega (arith, longer);
        room = omega (arith, longer);
        wide = unfold put in f.wide;
        exact = f.exact ∙ ap pos (unadmitted t);
        in_bounds = f.in_bounds;
        formed = t.formed;
        sound = t.sound;
        same = λ w. contents-filled w t ∙ f.same w;
        kept = λ c le.
            t.others c (λ same. cc (ap (λ k. leb_ℤ (pos k) s.tram_threshold) same)) ∙ f.kept c le;
      }
    where
      unadmitted :
          Takes s.histo_bucket_count i x xs q.hold (hold_take i q.hold)
          → admitted s.tram_threshold q.hold ≡ admitted s.tram_threshold (hold_take i q.hold)
      unadmitted t =
          let none_of_it : admits s.tram_threshold i x ≡ 0 = rw gt in
          unfold admitted in omega (arith, t.lighter (admits s.tram_threshold), none_of_it)

      contents-filled :
          (w : A → ℕ)
          → Takes s.histo_bucket_count i x xs q.hold (hold_take i q.hold)
          → contents w (filled i x q) ≡ contents w q
      contents-filled w t =
          unfold contents held in
          omega (arith, t.lighter (λ b. w), load-put w x (E.dest_of x) q.msg)

  fill_bucket-Filling :
      (i n : ℕ) (xs : List A) (p q : Port A)
      → i < s.histo_bucket_count
      → leb_ℤ (pos i) s.tram_threshold ≡ false
      → Filling p q
      → waiting q.hold i ≡ xs
      → Filling p (fill_bucket E s i n q)
  unfolding fill_bucket
  fill_bucket-Filling i zero xs p q lt gt f e = f
  fill_bucket-Filling i (suc n) [] p q lt gt f e = rw (front-none (queue q.hold i) e, fill_bucket) f
  fill_bucket-Filling i (suc n) (x ∷ xs) p q lt gt f e =
      rw (front-to_list (queue q.hold i) x xs e, fill_bucket)
        (elim (Bool-cases (ltb (next q.msg) (s.buf_size / 2))) [
          | inl more ↦ rw more (
              fill_bucket-Filling i n xs p (filled i x q) lt gt
                (filled-Filling i x xs p q lt gt f e (ground arith))
                (unfold put_item in (hold_take-Takes i x xs q.hold f.formed f.sound lt e).rest))
          | inr enough ↦ rw enough f
        ])

  record FillingFrom (p : Port A) (from : ℕ) (q : Port A) : Type 0 where
    filling : Filling p q
    start : first_above s.tram_threshold ≤ from

  pub add_fillers-Filling : (p q : Port A) → Filling p q → Filling p (add_fillers E s q)
  unfolding add_fillers
  add_fillers-Filling p q f =
      sweep_rule s.histo_bucket_count bits
        (λ i r. ltb i s.histo_bucket_count && ltb (next r.msg) (s.buf_size / 2))
        (λ i r. fill_bucket E s i (size (queue r.hold i)) r) (λ from r. FillingFrom p from r)
        (λ r. Filling p r) (λ from r w. w.filling.formed.shaped)
        (λ from i r w g t. record {
          filling =
              fill_bucket-Filling i (size (queue r.hold i)) (waiting r.hold i) p r
                (w.filling.formed.inside i g.1) (above_first s.tram_threshold from i w.start g.0)
                w.filling refl;
          start = omega (arith, w.start, g.0);
        })
        (λ from i r w g t. w.filling) (λ from r w g. w.filling) s.histo_bucket_count
        (first_above s.tram_threshold) q (omega arith) (record { filling = f; start = omega arith })
