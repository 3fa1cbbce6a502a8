-- ===== src/Port/Release.antt =====
-- insertBucketsByDest as a whole: the loop over the buckets, and the call of tram_done.
use htram.Prelude.{
  ℕ, suc, ◌+◌, ◌≤◌, ◌<◌, ◌≡◌, refl, ◌∙◌, pos, leb_ℤ, [], Bool, true, false, ◌⊎◌, inl, inr, some,
  if◌then◌else◌, arith, dec_lt, ℕ_discrete,
}
use htram.Env.{Env}
use htram.HoldQueue.{size}
use htram.HoldQueue.Fifo.{size-length}
use htram.HoldBits.Marked.{marked}
use htram.HoldBits.Next.{Finds}
use htram.Hold.{queue}
use htram.Hold.Valid.{waiting, unmarked_of}
use htram.Hold.Sweep.{sweep_rule}
use htram.Port.{Port, Settings, Stats, bits, insert_bucket, insert_buckets_by_dest, call_done}
use htram.Port.Valid.{contents, IsValid}
use htram.Port.Insert.{IsMonotone, Keeps, Keeps-trans, IsReleased, Inserted, insert_bucket-Inserted}

module _ {A : Type 0} (E : Env A) (s : Settings E) where
  -- Every bucket at or below the threshold is empty.
  abbrev pub IsDrained : Port A → Type 0
  IsDrained p = (j : ℕ) → leb_ℤ (pos j) s.tram_threshold ≡ true → waiting p.hold j ≡ []

  -- The state of the outer loop before it looks for a bucket from `from` on.
  record Swept (p : Port A) (from : ℕ) (q : Port A) : Type 0 where
    keeps : Keeps E s p q
    outcome :
        ((j : ℕ) → j < from → leb_ℤ (pos j) s.tram_threshold ≡ true → waiting q.hold j ≡ [])
        ⊎ IsReleased E s q

  -- Between `from` and the marked bucket that was found nothing waits.
  emptied_before :
      (p q : Port A) (from i : ℕ)
      → Keeps E s p q
      → Finds (marked (bits q)) from (some i)
      → ((j : ℕ) → j < from → leb_ℤ (pos j) s.tram_threshold ≡ true → waiting q.hold j ≡ [])
      → (j : ℕ) → j < i
      → leb_ℤ (pos j) s.tram_threshold ≡ true
      → waiting q.hold j ≡ []
  emptied_before p q from i k f done j lt le = elim (dec_lt j from) [
    | yes l ↦ done j l le
    | no ge ↦ k.valid.sound j (f.2 j (omega arith) lt)
  ]

  -- insertBucketsByDest keeps the invariant and loses nothing, and it ends with fewer items
  -- counted than the release level, or with nothing admitted left in the hold.
  pub record Released (p q : Port A) : Type 0 where
    pub keeps : Keeps E s p q
    pub outcome : IsDrained q ⊎ IsReleased E s q

  -- Only the statistics change.
  Keeps-stats : (p q : Port A) (st : Stats) → Keeps E s p q → Keeps E s p (record q { stats = st })
  unfolding contents
  Keeps-stats p q st k = record {
    valid = record {
      ready = record {
        room = k.valid.ready.room;
        wide = k.valid.ready.wide;
        exact = k.valid.ready.exact;
        in_bounds = k.valid.ready.in_bounds;
      };
      formed = k.valid.formed;
      sound = k.valid.sound;
    };
    same = k.same;
    lower = k.lower;
  }

  call_done-Released : (p q : Port A) → Released p q → Released p (call_done E s q)
  unfolding call_done
  call_done-Released p q r = choose s.done
    where
      counted : Stats
      counted = let st = q.stats in record st { done_calls = st.done_calls + 1 }

      choose : (b : Bool) → Released p (if b then record q { stats = counted } else q)
      choose true = record { keeps = Keeps-stats p q counted r.keeps; outcome = r.outcome }
      choose false = r

  module _ (mono : IsMonotone E) where
    insert_next :
        (p : Port A) (from i : ℕ) (q : Port A)
        → Swept p from q
        → Finds (marked (bits q)) from (some i)
        → leb_ℤ (pos i) s.tram_threshold ≡ true
        → Swept p (suc i) (insert_bucket E s i (size (queue q.hold i)) q)
    insert_next p from i q w f le =
        let r = insert_bucket E s i (size (queue q.hold i)) q in
        let ins =
          insert_bucket-Inserted E s i (size (queue q.hold i)) (waiting q.hold i) q w.keeps.valid
            (w.keeps.valid.formed.inside i f.1) le refl
            (omega (arith, size-length (queue q.hold i))) in
        record {
          keeps = Keeps-trans E s p q r w.keeps ins.keeps;
          outcome = next ins w.outcome ins.ended;
        }
      where
        next :
            (ins : Inserted E s i q (insert_bucket E s i (size (queue q.hold i)) q))
            → ((j : ℕ) → j < from → leb_ℤ (pos j) s.tram_threshold ≡ true → waiting q.hold j ≡ [])
              ⊎ IsReleased E s q
            → (waiting (insert_bucket E s i (size (queue q.hold i)) q).hold i ≡ [])
              ⊎ IsReleased E s (insert_bucket E s i (size (queue q.hold i)) q)
            → ((j : ℕ)
                → j < suc i
                → leb_ℤ (pos j) s.tram_threshold ≡ true
                → waiting (insert_bucket E s i (size (queue q.hold i)) q).hold j ≡ [])
              ⊎ IsReleased E s (insert_bucket E s i (size (queue q.hold i)) q)
        next ins o (inr below) = inr below
        next ins (inr below) (inl e) = inr (
            mono q.updates (insert_bucket E s i (size (queue q.hold i)) q).updates s.release_level
              ins.keeps.lower below)
        next ins (inl done) (inl e) = inl (λ j lt l. elim (ℕ_discrete j i) [
          | yes same ↦ rw same e
          | no ne ↦ ins.others j ne ∙ emptied_before p q from i w.keeps f done j (omega arith) l
        ])

    insert_stop :
        (p : Port A) (from i : ℕ) (q : Port A)
        → Swept p from q
        → Finds (marked (bits q)) from (some i)
        → leb_ℤ (pos i) s.tram_threshold ≡ false
        → Released p q
    insert_stop p from i q w f gt = record { keeps = w.keeps; outcome = last w.outcome }
      where
        last :
            ((j : ℕ) → j < from → leb_ℤ (pos j) s.tram_threshold ≡ true → waiting q.hold j ≡ [])
              ⊎ IsReleased E s q
            → IsDrained q ⊎ IsReleased E s q
        last (inr below) = inr below
        last (inl done) = inl (λ j le. emptied_before p q from i w.keeps f done j (ground arith) le)

    insert_done :
        (p : Port A) (from : ℕ) (q : Port A)
        → Swept p from q
        → ((j : ℕ) → from ≤ j → j < s.histo_bucket_count → marked (bits q) j ≡ false)
        → Released p q
    insert_done p from q w f = record { keeps = w.keeps; outcome = last w.outcome }
      where
        last :
            ((j : ℕ) → j < from → leb_ℤ (pos j) s.tram_threshold ≡ true → waiting q.hold j ≡ [])
              ⊎ IsReleased E s q
            → IsDrained q ⊎ IsReleased E s q
        last (inr below) = inr below
        last (inl done) = inl (λ j le. elim (dec_lt j from) [
          | yes lt ↦ done j lt le
          | no ge ↦ w.keeps.valid.sound j (unmarked_of w.keeps.valid.formed j (f j (omega arith)))
        ])

    -- insertBucketsByDest up to the threshold, on a valid destination, keeps it valid, loses
    -- nothing and does not raise its counter. It ends with no admitted item in the hold or with
    -- fewer items counted than the release level. The float comparison is assumed monotone.
    pub insert_buckets_by_dest-Released :
        (p : Port A) → IsValid s p → Released p (insert_buckets_by_dest E s s.tram_threshold p)
    unfolding insert_buckets_by_dest
    insert_buckets_by_dest-Released p v = call_done-Released p _ (
        sweep_rule s.histo_bucket_count bits (λ i q. leb_ℤ (pos i) s.tram_threshold)
          (λ i q. insert_bucket E s i (size (queue q.hold i)) q) (λ from q. Swept p from q)
          (Released p) (λ from q w. w.keeps.valid.formed.shaped)
          (λ from i q w f t. insert_next p from i q w f t)
          (λ from i q w f t. insert_stop p from i q w f t) (insert_done p) s.histo_bucket_count 0 p
          (omega arith)
          (record {
            keeps = record { valid = v; same = λ w. refl; lower = omega arith };
            outcome = inl (λ j lt. absurd (omega arith));
          }))
