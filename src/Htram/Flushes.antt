-- ===== src/Htram/Flushes.antt =====
-- class HTram of one PE, in the graph build with combining off, modes WPs and WW: the flushes, and
-- the reports on what is pending.
use htram.Prelude.{
  ℕ, ◌+◌, ℤ, pos, negsuc, ◌+ℤ◌, ◌-ℤ◌, leb_ℤ, ltb_ℤ, List, [], ◌∷◌, Bool, false, ◌==◌, ltb, ◌&&◌,
  ◌||◌, not, if◌then◌else◌,
}
use htram.Env.{Env}
use htram.HoldQueue.{size}
use htram.Hold.{Hold, queue, sweep}
use htram.Message.{next}
use htram.Port.{Stats, Port, Settings}
use htram.Flush.{drain_admitted, flush_rest, flush_partial, flush_dest}
use htram.Htram.{Lane, Htram, lane_port, over_lanes}

module _ {A : Type 0} where
  -- `updates_in_tram[d] > 0 || msgBuffers[d]->next`
  unfoldable pub has_pending : Port A → Bool
  has_pending p = ltb_ℤ (pos 0) p.updates || not (next p.msg == 0)

  pub any_pending : List (Lane A) → Stats → Bool
  unfolding has_pending
  any_pending [] st = false
  any_pending (l ∷ ls) st = has_pending (lane_port st l) || any_pending ls st

module _ {A : Type 0} (E : Env A) where
  -- tram_done, called once for the whole PE.
  unfoldable pub done_once : Htram E → Htram E
  done_once h =
      let st = h.stats in
      if h.settings.done
      then record h { stats = record st { done_calls = st.done_calls + 1 } }
      else h

  -- HTram::tflush: partial buffers, then the admitted items, then what they left partly filled.
  unfoldable pub tflush : Bool → Htram E → Htram E
  unfolding over_lanes flush_partial drain_admitted flush_rest done_once
  tflush idleflush h = done_once (
      over_lanes (flush_rest E h.settings) (
        over_lanes (drain_admitted E h.settings)
          (over_lanes (flush_partial E h.settings idleflush) h)))

  -- HTram::flush_everything
  unfoldable pub flush_everything : Htram E → Htram E
  unfolding tflush
  flush_everything h = tflush false h

  -- One destination's part of flushStale.
  unfoldable pub flush_if_stale : Settings E → Port A → Port A
  unfolding has_pending flush_dest
  flush_if_stale s p =
      if p.full_sends == 0 && has_pending p
      then (let q = flush_dest E s p in
          let st = q.stats in
          record q { full_sends = 0; stats = record st { stale_flushes = st.stale_flushes + 1 } })
      else record p { full_sends = 0 }

  -- HTram::flushStale
  unfoldable pub flush_stale : Htram E → Htram E
  unfolding over_lanes flush_if_stale
  flush_stale h = over_lanes (flush_if_stale h.settings) h

  -- One destination's part of flushIdle.
  unfoldable pub flush_if_pending : Settings E → Port A → Port A
  unfolding has_pending flush_dest
  flush_if_pending s p =
      if has_pending p
      then (let q = flush_dest E s p in
          let st = q.stats in record q { stats = record st { idle_flushes = st.idle_flushes + 1 } })
      else p

  -- HTram::flushIdle at the wall time `now`, which is read only under an interval.
  unfoldable pub flush_idle : ℕ → Htram E → Htram E
  unfolding over_lanes flush_if_pending any_pending
  flush_idle now h =
      let timed = ltb 0 h.idle_flush_interval in
      if timed && ltb_ℤ (pos now -ℤ h.last_idle_flush) (pos h.idle_flush_interval)
      then h
      else let flushed = over_lanes (flush_if_pending h.settings) h in
        if any_pending h.lanes h.stats && timed
        then record flushed { last_idle_flush = pos now }
        else flushed

-- llabs
unfoldable pub llabs : ℤ → ℕ
llabs (pos n) = n
llabs (negsuc n) = n + 1

-- What HTram::pendingItems reports.
pub record Pending : Type 0 where
  pub held : ℕ
  pub admitted : ℤ
  pub buffered : ℕ

module _ {A : Type 0} where
  -- `for (i = holdNext(d, 0); test; …) n += tram_hold[d][i].size()`, from n
  unfoldable pub add_sizes : ℕ → (ℕ → Bool) → Hold A → ℕ → ℕ
  add_sizes buckets test h n =
      (sweep buckets (λ (c : Hold A × ℕ). c.0.bits) (λ i c. test i)
        (λ i c. (c.0, c.1 + size (queue c.0 i))) buckets 0 (h, n)).1

  -- HTram::admittedDrift
  unfoldable pub admitted_drift : {E : Env A} → Settings E → List (Lane A) → ℕ
  unfolding add_sizes llabs
  admitted_drift s [] = 0
  admitted_drift s (l ∷ ls) =
      let want =
        add_sizes s.histo_bucket_count (λ i. leb_ℤ (pos i) s.tram_threshold) l.hold (next l.msg) in
      llabs (pos want -ℤ l.updates) + admitted_drift s ls

  -- HTram::pendingItems
  unfoldable pub pending_items : {E : Env A} → Settings E → List (Lane A) → Pending
  unfolding add_sizes
  pending_items s [] = record { held = 0; admitted = pos 0; buffered = 0 }
  pending_items s (l ∷ ls) =
      let rest = pending_items s ls in
      record {
        held =
            add_sizes s.histo_bucket_count (λ i. ltb i s.histo_bucket_count) l.hold 0 + rest.held;
        admitted = l.updates +ℤ rest.admitted;
        buffered = next l.msg + rest.buffered;
      }

  -- HTram::countBuffers: what this PE contributes to the reduction.
  unfoldable pub count_buffers : List (Lane A) → ℤ
  count_buffers [] = pos 0
  count_buffers (l ∷ ls) = pos (next l.msg) +ℤ l.updates +ℤ count_buffers ls
