-- ===== src/Flush/Drain.antt =====
-- The drain of a destination's admitted items, in flushDest and in the second pass of tflush.
use htram.Prelude.{
  ℕ, zero, suc, ◌+◌, ◌≤◌, ◌<◌, ◌≡◌, ◌≢◌, refl, sym, ap, ◌∙◌, subst, pos, leb_ℤ, List, [], ◌∷◌, true,
  false, some, length, arith, dec_lt, ℕ_discrete,
}
use htram.Env.{Env}
use htram.HoldQueue.{size}
use htram.HoldQueue.Fifo.{front-to_list, front-none, size-length}
use htram.HoldBits.Marked.{marked}
use htram.HoldBits.Next.{Finds}
use htram.Hold.{queue, hold_pop, hold_emptied}
use htram.Hold.Measure.{total, held, admitted}
use htram.Hold.Valid.{IsFormed, IsSoundBut, waiting, unmarked_of}
use htram.Hold.Pop.{
  hold_pop-IsFormed, hold_pop-IsSoundBut, total-hold_pop, waiting-hold_pop_self,
  waiting-hold_pop_ne, hold_emptied-IsFormed, hold_emptied-IsSoundBut, waiting-hold_emptied,
  IsSoundBut-IsSound,
}
use htram.Hold.Sweep.{sweep_rule}
use htram.Port.{Port, Settings, bits, count_sent}
use htram.Port.Valid.{contents, Ready, IsValid}
use htram.Port.Ship.{Notes, moved, hold-moved}
use htram.Port.Round.{round-Ready, contents-round}
use htram.Port.Release.{IsDrained}
use htram.Flush.{drain_queue, drain_bucket, drain_admitted}

module _ {A : Type 0} (E : Env A) (s : Settings E) where
  notes : (p : Port A) → Notes p (count_sent p)
  unfolding count_sent
  notes p = record { msg = refl; hold = refl; updates = refl; sent = refl }

  -- Inside the drain of bucket `i`, whose bit has been cleared ahead.
  record Draining (i : ℕ) (p q : Port A) : Type 0 where
    ready : Ready s (admitted s.tram_threshold q.hold) q
    formed : IsFormed s.histo_bucket_count q.hold
    sound : IsSoundBut i q.hold
    same : (w : A → ℕ) → contents w q ≡ contents w p
    others : (c : ℕ) → c ≢ i → waiting q.hold c ≡ waiting p.hold c

  drain_queue-Draining :
      (i n : ℕ) (xs : List A) (p q : Port A)
      → i < s.histo_bucket_count
      → leb_ℤ (pos i) s.tram_threshold ≡ true
      → Draining i p q
      → waiting q.hold i ≡ xs
      → length xs ≤ n
      → Draining i p (drain_queue E s i n q) × (waiting (drain_queue E s i n q).hold i ≡ [])
  unfolding drain_queue
  drain_queue-Draining i zero (x ∷ xs) p q lt le d e h = absurd (omega arith)
  drain_queue-Draining i zero [] p q lt le d e h = (d, e)
  drain_queue-Draining i (suc n) [] p q lt le d e h =
      rw (front-none (queue q.hold i) e, drain_queue) (d, e)
  drain_queue-Draining i (suc n) (x ∷ xs) p q lt le d e h =
      rw (front-to_list (queue q.hold i) x xs e, drain_queue)
        (drain_queue-Draining i n xs p (moved E s count_sent x (E.dest_of x) (hold_pop i q.hold) q)
          lt le
          (record {
            ready =
                subst
                  (λ k.
                    Ready s (admitted s.tram_threshold k)
                      (moved E s count_sent x (E.dest_of x) (hold_pop i q.hold) q))
                  (sym kept)
                  (round-Ready E s count_sent notes i x xs q (E.dest_of x) e lt (hold_pop i q.hold)
                    le lighter d.ready);
            formed =
                subst (IsFormed s.histo_bucket_count) (sym kept)
                  (hold_pop-IsFormed i x xs q.hold d.formed lt e);
            sound =
                subst (IsSoundBut i) (sym kept)
                  (hold_pop-IsSoundBut i x xs q.hold d.formed lt e d.sound);
            same = λ w.
                contents-round E s count_sent notes i x xs q (E.dest_of x) e lt (hold_pop i q.hold)
                  w lighter
                ∙ d.same w;
            others = λ c ne.
                ap (λ k. waiting k c) kept
                ∙ waiting-hold_pop_ne i x xs q.hold d.formed lt e c ne
                ∙ d.others c ne;
          })
          (ap (λ k. waiting k i) kept ∙ waiting-hold_pop_self i x xs q.hold d.formed lt e)
          (omega arith))
    where
      lighter :
          (w : ℕ → A → ℕ) → total w 0 (hold_pop i q.hold).queues + w i x ≡ total w 0 q.hold.queues
      lighter = total-hold_pop i x xs q.hold d.formed lt e

      kept : (moved E s count_sent x (E.dest_of x) (hold_pop i q.hold) q).hold ≡ hold_pop i q.hold
      kept = hold-moved E s count_sent notes x (E.dest_of x) (hold_pop i q.hold) q

  -- A drained bucket, and what a drain keeps.
  record Drained (i : ℕ) (p q : Port A) : Type 0 where
    valid : IsValid s q
    same : (w : A → ℕ) → contents w q ≡ contents w p
    empty : waiting q.hold i ≡ []
    others : (c : ℕ) → c ≢ i → waiting q.hold c ≡ waiting p.hold c

  drain_bucket-Drained :
      (i : ℕ) (p : Port A)
      → IsValid s p
      → i < s.histo_bucket_count
      → leb_ℤ (pos i) s.tram_threshold ≡ true
      → Drained i p (drain_bucket E s i p)
  unfolding drain_bucket
  drain_bucket-Drained i p v lt le = finish (
      drain_queue-Draining i (size (queue (hold_emptied i p.hold) i))
        (waiting (hold_emptied i p.hold) i) p (record p { hold = hold_emptied i p.hold }) lt le
        start refl (omega (arith, size-length (queue (hold_emptied i p.hold) i))))
    where
      start : Draining i p (record p { hold = hold_emptied i p.hold })
      start = record {
        ready =
            unfold hold_emptied admitted in
            record {
              room = v.ready.room;
              wide = v.ready.wide;
              exact = v.ready.exact;
              in_bounds = v.ready.in_bounds;
            };
        formed = hold_emptied-IsFormed i p.hold v.formed lt;
        sound = hold_emptied-IsSoundBut i p.hold v.formed lt (λ c ne m. v.sound c m);
        same = λ w. unfold hold_emptied contents held in refl;
        others = λ c ne. waiting-hold_emptied i p.hold v.formed lt c;
      }

      finish : {q : Port A} → Draining i p q × (waiting q.hold i ≡ []) → Drained i p q
      finish {q} (d, e) = record {
        valid = record {
          ready = d.ready;
          formed = d.formed;
          sound = IsSoundBut-IsSound i q.hold e d.sound;
        };
        same = d.same;
        empty = e;
        others = d.others;
      }

  -- Everything up to the bucket that the loop looks for next is empty.
  record Emptied (p : Port A) (from : ℕ) (q : Port A) : Type 0 where
    valid : IsValid s q
    same : (w : A → ℕ) → contents w q ≡ contents w p
    empty : (j : ℕ) → j < from → leb_ℤ (pos j) s.tram_threshold ≡ true → waiting q.hold j ≡ []
    above : (j : ℕ) → leb_ℤ (pos j) s.tram_threshold ≡ false → waiting q.hold j ≡ waiting p.hold j

  Emptied-before :
      (p q : Port A) (from i : ℕ)
      → Emptied p from q
      → Finds (marked (bits q)) from (some i)
      → (j : ℕ) → j < i
      → leb_ℤ (pos j) s.tram_threshold ≡ true
      → waiting q.hold j ≡ []
  Emptied-before p q from i w f j lt le = elim (dec_lt j from) [
    | yes l ↦ w.empty j l le
    | no ge ↦ w.valid.sound j (f.2 j (omega arith) lt)
  ]

  drain_next :
      (p : Port A) (from i : ℕ) (q : Port A)
      → Emptied p from q
      → Finds (marked (bits q)) from (some i)
      → leb_ℤ (pos i) s.tram_threshold ≡ true
      → Emptied p (suc i) (drain_bucket E s i q)
  drain_next p from i q w f le =
      let d = drain_bucket-Drained i q w.valid (w.valid.formed.inside i f.1) le in
      record {
        valid = d.valid;
        same = λ v. d.same v ∙ w.same v;
        empty = λ j lt l. elim (ℕ_discrete j i) [
          | yes same ↦ rw same d.empty
          | no ne ↦ d.others j ne ∙ Emptied-before p q from i w f j (omega arith) l
        ];
        above = λ j gt.
            d.others j (λ e. cc (ap (λ k. leb_ℤ (pos k) s.tram_threshold) e)) ∙ w.above j gt;
      }

  -- The drain keeps the invariant and loses nothing, empties every bucket at or below the threshold
  -- and leaves those above it alone.
  pub record DrainsAdmitted (p q : Port A) : Type 0 where
    pub valid : IsValid s q
    pub same : (w : A → ℕ) → contents w q ≡ contents w p
    pub drained : IsDrained E s q
    pub above :
        (j : ℕ) → leb_ℤ (pos j) s.tram_threshold ≡ false → waiting q.hold j ≡ waiting p.hold j

  -- The drain of flushDest and tflush on a valid destination keeps it valid and loses nothing,
  -- empties every bucket at or below the threshold, and leaves the buckets above it as they were.
  pub drain_admitted_lem : (p : Port A) → IsValid s p → DrainsAdmitted p (drain_admitted E s p)
  unfolding drain_admitted
  drain_admitted_lem p v =
      sweep_rule s.histo_bucket_count bits (λ i q. leb_ℤ (pos i) s.tram_threshold)
        (drain_bucket E s) (λ from q. Emptied p from q) (DrainsAdmitted p)
        (λ from q w. w.valid.formed.shaped) (λ from i q w f t. drain_next p from i q w f t)
        (λ from i q w f t. record {
          valid = w.valid;
          same = w.same;
          drained = λ j le. Emptied-before p q from i w f j (ground arith) le;
          above = w.above;
        })
        (λ from q w f. record {
          valid = w.valid;
          same = w.same;
          drained = λ j le. elim (dec_lt j from) [
            | yes lt ↦ w.empty j lt le
            | no ge ↦ w.valid.sound j (unmarked_of w.valid.formed j (f j (omega arith)))
          ];
          above = w.above;
        })
        s.histo_bucket_count 0 p (omega arith)
        (record {
          valid = v;
          same = λ w. refl;
          empty = λ j lt. absurd (omega arith);
          above = λ j gt. refl;
        })
