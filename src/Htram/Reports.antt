-- ===== src/Htram/Reports.antt =====
-- What admittedDrift, pendingItems and countBuffers report of a PE.
use htram.Prelude.{
  ℕ, ◌+◌, ◌≡◌, refl, sym, ap, ap₂, ◌∙◌, subst, ℤ, pos, ◌+ℤ◌, ◌-ℤ◌, pos-+ℤ, pos--ℤ, pos_part, leb_ℤ,
  List, [], ◌∷◌, Bool, true, false, some, ltb, All, sum_by, arith, inl, inr, dec_lt,
}
use htram.Env.{Env}
use htram.Message.{next}
use htram.HoldQueue.{size}
use htram.HoldBits.Marked.{marked}
use htram.HoldBits.Next.{Finds}
use htram.Hold.{Hold, queue}
use htram.Hold.Measure.{total, total-zero, held, admitted}
use htram.Hold.Valid.{IsFormed, IsSound, unmarked_of}
use htram.Hold.Staged.{by_bucket, staged, sum_by_bucket_false, total_agree}
use htram.Hold.Sweep.{sweep_rule}
use htram.Port.{Port, Settings, Stats}
use htram.Flush.{first_above}
use htram.Htram.{Lane, Htram, lane_port}
use htram.Htram.Lanes.{LaneIsValid, PeIsValid}
use htram.Htram.Counting.{
  below, at_most, count_up, count_stop, count_done, count_start, admitted_below,
}
use htram.Htram.Flushes.{llabs, Pending, add_sizes, admitted_drift, pending_items, count_buffers}
use htram.Htram.Flushed.{LaneIsFlushed, drained-admitted}

module _ {A : Type 0} (buckets m : ℕ) (p : Port A) (f : IsFormed buckets p.hold)
    (sound : IsSound p.hold) (n : ℕ) where
  -- The loop of the reports, up to a bucket: the hold as it was, what is below counted.
  record Summed (from : ℕ) (c : Hold A × ℕ) : Type 0 where
    same : c.0 ≡ p.hold
    sum : c.1 ≡ n + total (by_bucket (staged (below m) (below 0) from)) 0 p.hold.queues

  add_sizes_lem :
      (test : ℕ → Bool)
      → ((b : ℕ) → test b ≡ below m b)
      → add_sizes buckets test p.hold n ≡ n + total (by_bucket (below m)) 0 p.hold.queues
  unfolding add_sizes
  add_sizes_lem test e =
      sweep_rule buckets (λ (c : Hold A × ℕ). c.0.bits) (λ i c. test i)
        (λ i c. (c.0, c.1 + size (queue c.0 i))) Summed
        (λ c. c.1 ≡ n + total (by_bucket (below m)) 0 p.hold.queues)
        (λ from c w. rw (w.same) f.shaped)
        (λ from i c w found t.
          let here : Finds (marked p.hold.bits) from (some i) =
            subst (λ h. Finds (marked h.bits) from (some i)) w.same found in
          let within : below m i ≡ true = sym (e i) ∙ t in
          let more = count_up buckets 0 m p f sound from i here (omega arith) (ground arith) in
          record { same = w.same; sum = rw (w.same) (omega (arith, w.sum, more)) })
        (λ from i c w found t.
          let here : Finds (marked p.hold.bits) from (some i) =
            subst (λ h. Finds (marked h.bits) from (some i)) w.same found in
          let past : below m i ≡ false = sym (e i) ∙ t in
          omega (
            arith,
            w.sum,
            count_stop buckets 0 m p f sound from i here (ground arith) (omega arith),
          ))
        (λ from c w clear. omega (
          arith,
          w.sum,
          count_done buckets 0 m p f sound from
              (λ j l lt. subst (λ h. marked h.bits j ≡ false) w.same (clear j l lt)),
        ))
        buckets 0 (p.hold, n) (omega arith)
        (record {
          same = refl;
          sum = omega (
            arith,
            nothing p.hold,
            count_start buckets 0 m p f sound 0 (omega arith) (omega arith),
          );
        })
    where
      nothing : (h : Hold A) → total (by_bucket (below 0)) 0 h.queues ≡ 0
      nothing h =
          total-zero (by_bucket (below 0)) h.queues 0
            λ i k e. sum_by_bucket_false (below 0) k _ (ground arith)

-- What the reports should say of one destination, by its hold.
module _ {A : Type 0} {E : Env A} (s : Settings E) (l : Lane A) (v : LaneIsValid s l)
    (st : Stats) where
  add_sizes-admitted :
      (n : ℕ)
      → add_sizes s.histo_bucket_count (λ i. leb_ℤ (pos i) s.tram_threshold) l.hold n
        ≡ n + admitted s.tram_threshold l.hold
  add_sizes-admitted n =
      let k = v st in
      omega (
        arith,
        add_sizes_lem s.histo_bucket_count (first_above s.tram_threshold) (lane_port st l) k.formed
            k.sound n (λ i. leb_ℤ (pos i) s.tram_threshold) (at_most s.tram_threshold),
        admitted_below s.tram_threshold l.hold,
      )

  everything : total (by_bucket (below s.histo_bucket_count)) 0 l.hold.queues ≡ held (λ x. 1) l.hold
  unfolding held
  everything =
      let k = v st in
      total_agree l.hold k.formed (below s.histo_bucket_count) (λ b. true)
        λ b. elim (dec_lt b s.histo_bucket_count) [
          | yes lt ↦ inl (ground arith)
          | no ge ↦ inr (k.sound b (unmarked_of k.formed b (λ lt. absurd (omega arith))))
        ]

  add_sizes-held :
      add_sizes s.histo_bucket_count (λ i. ltb i s.histo_bucket_count) l.hold 0
      ≡ held (λ x. 1) l.hold
  add_sizes-held =
      let k = v st in
      omega (
        arith,
        everything,
        add_sizes_lem s.histo_bucket_count s.histo_bucket_count (lane_port st l) k.formed k.sound 0
            (λ i. ltb i s.histo_bucket_count) (λ b. refl),
      )

  exact_of : l.updates ≡ pos (next l.msg + admitted s.tram_threshold l.hold)
  exact_of = (v st).ready.exact

llabs_same : (a : ℤ) (m n : ℕ) → a ≡ pos n → m ≡ n → llabs (pos m -ℤ a) ≡ 0
unfolding llabs
llabs_same a m n e d = rw (e, d, pos--ℤ n n 0 (omega arith))

abbrev no_stats : Stats
no_stats = record {
  tot_send_count = 0;
  agg_msg_count = 0;
  flush_msg_count = 0;
  bytes_sent = 0;
  bytes_alloc = 0;
  msgs_sent = 0;
  done_calls = 0;
  stale_flushes = 0;
  idle_flushes = 0;
}

module _ {A : Type 0} {E : Env A} where
  drift_of :
      (s : Settings E) (ls : List (Lane A)) → All (LaneIsValid s) ls → admitted_drift s ls ≡ 0
  unfolding admitted_drift
  drift_of s [] v = refl
  drift_of s (l ∷ ls) v = omega (
    arith,
    drift_of s ls v.1,
    llabs_same l.updates _ (next l.msg + admitted s.tram_threshold l.hold)
        (exact_of s l v.0 no_stats) (add_sizes-admitted s l v.0 no_stats (next l.msg)),
  )

  -- On a valid PE admittedDrift reports 0.
  pub admitted_drift-zero : (h : Htram E) → PeIsValid h → admitted_drift h.settings h.lanes ≡ 0
  admitted_drift-zero h v = drift_of h.settings h.lanes v

  -- The sums that pendingItems is meant to report.
  pub record Reported (s : Settings E) (ls : List (Lane A)) (r : Pending) : Type 0 where
    pub all_held : r.held ≡ sum_by (λ (l : Lane A). held (λ x. 1) l.hold) ls
    pub all_counted :
        r.admitted ≡ pos (sum_by (λ (l : Lane A). next l.msg + admitted s.tram_threshold l.hold) ls)
    pub all_buffered : r.buffered ≡ sum_by (λ (l : Lane A). next l.msg) ls

  Reported-of :
      (s : Settings E) (ls : List (Lane A))
      → All (LaneIsValid s) ls
      → Reported s ls (pending_items s ls)
  unfolding pending_items
  Reported-of s [] v = record { all_held = refl; all_counted = refl; all_buffered = refl }
  Reported-of s (l ∷ ls) v =
      let rest = Reported-of s ls v.1 in
      record {
        all_held = omega (arith, rest.all_held, add_sizes-held s l v.0 no_stats);
        all_counted = ap₂ (λ a b. a +ℤ b) (exact_of s l v.0 no_stats) rest.all_counted ∙ pos-+ℤ _ _;
        all_buffered = omega (arith, rest.all_buffered);
      }

  -- On a valid PE pendingItems reports as held the number of all held items, as admitted the number
  -- of buffered items and of held items at or below the threshold, and as buffered the number of
  -- buffered items.
  pub pending_items-Reported :
      (h : Htram E) → PeIsValid h → Reported h.settings h.lanes (pending_items h.settings h.lanes)
  pending_items-Reported h v = Reported-of h.settings h.lanes v

  -- What a valid PE contributes to the reduction: buffered items twice, admitted ones once.
  pub count_buffers_lem :
      (s : Settings E) (ls : List (Lane A))
      → All (LaneIsValid s) ls
      → count_buffers ls
        ≡ pos
            (sum_by (λ (l : Lane A). next l.msg + next l.msg + admitted s.tram_threshold l.hold) ls)
  unfolding count_buffers
  count_buffers_lem s [] v = refl
  count_buffers_lem s (l ∷ ls) v =
      ap₂ (λ a b. pos (next l.msg) +ℤ a +ℤ b) (exact_of s l v.0 no_stats)
        (count_buffers_lem s ls v.1)
      ∙ ap
          (λ a.
            a
            +ℤ pos (
                sum_by (λ (l : Lane A). next l.msg + next l.msg + admitted s.tram_threshold l.hold)
                  ls))
          (pos-+ℤ (next l.msg) _)
      ∙ pos-+ℤ _ _
      ∙ ap pos (omega arith)

  -- A valid PE contributes 0 if and only if nothing of it is buffered or admitted.
  pub zero_flushed :
      (s : Settings E) (ls : List (Lane A))
      → All (LaneIsValid s) ls
      → sum_by (λ (l : Lane A). next l.msg + next l.msg + admitted s.tram_threshold l.hold) ls ≡ 0
      → All (LaneIsFlushed s) ls
  zero_flushed s [] v e = tt
  zero_flushed s (l ∷ ls) v e = (
    record {
      empty = omega arith;
      settled = exact_of s l v.0 no_stats ∙ ap pos (omega arith);
      drained = drained-admitted s.tram_threshold l.hold (omega arith);
    },
    zero_flushed s ls v.1 (omega arith),
  )

  -- If a valid PE contributes 0 to the reduction of countBuffers, then each of its destinations has
  -- an empty buffer, a zero counter and no admitted item in its hold.
  pub count_buffers-flushed :
      (h : Htram E)
      → PeIsValid h
      → count_buffers h.lanes ≡ pos 0
      → All (LaneIsFlushed h.settings) h.lanes
  count_buffers-flushed h v e =
      zero_flushed h.settings h.lanes v
        (pos_injective (sym (count_buffers_lem h.settings h.lanes v) ∙ e))
    where
      pos_injective : {m n : ℕ} → pos m ≡ pos n → m ≡ n
      pos_injective e = ap pos_part e

  pub count_buffers-zero :
      (s : Settings E) (ls : List (Lane A)) → All (LaneIsFlushed s) ls → count_buffers ls ≡ pos 0
  unfolding count_buffers
  count_buffers-zero s [] f = refl
  count_buffers-zero s (l ∷ ls) f =
      ap₂ (λ a b. pos a +ℤ b +ℤ count_buffers ls) f.0.empty f.0.settled
      ∙ ap₂ (λ a b. a +ℤ b) (pos-+ℤ 0 0) (count_buffers-zero s ls f.1)
      ∙ pos-+ℤ 0 0
