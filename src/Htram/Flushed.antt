-- ===== src/Htram/Flushed.antt =====
-- tflush, flushStale and flushIdle over all the destinations of a PE.
use htram.Prelude.{
  ℕ, ◌≡◌, refl, ap, ◌∙◌, ℤ, pos, leb_ℤ, List, [], ◌∷◌, true, false, length, inl, inr, Bool-cases,
  All, All-map_of, sum_by, arith, dec_lt,
}
use htram.Env.{Env}
use htram.Message.{next}
use htram.HoldQueue.{empty_queue, to_list}
use htram.Hold.{Hold, queue}
use htram.Hold.Measure.{admits, admitted, zero-total}
use htram.Hold.Valid.{waiting}
use htram.HoldQueue.Fifo.{to_list-empty_queue}
use htram.Prelude.{get_or_beyond}
use htram.Port.{Port, Settings, Stats}
use htram.Port.Valid.{contents}
use htram.Flush.{drain_admitted, flush_rest, flush_partial}
use htram.Flush.Drain.{drain_admitted_lem}
use htram.Flush.Whole.{Flushed, flush_rest_lem, flush_partial_lem}
use htram.Htram.{Lane, Htram, lane_port, port_lane, for_lanes, over_lanes}
use htram.Htram.Lanes.{
  LaneIsValid, PeIsValid, PeKeeps, pe_contents, lane_contents, IsValid-lane, for_lanes-All,
  for_lanes-sum,
}
use htram.Htram.Flushes.{done_once, tflush}

module _ {A : Type 0} where
  -- Nothing in the buffer, nothing counted, nothing admitted in the hold.
  pub record LaneIsFlushed {E : Env A} (s : Settings E) (l : Lane A) : Type 0 where
    pub empty : next l.msg ≡ 0
    pub settled : l.updates ≡ pos 0
    pub drained : (j : ℕ) → leb_ℤ (pos j) s.tram_threshold ≡ true → waiting l.hold j ≡ []

  weighs_nothing :
      (t : ℤ) (k : ℕ) (xs : List A) → leb_ℤ (pos k) t ≡ true → sum_by (admits t k) xs ≡ 0 → xs ≡ []
  weighs_nothing t k [] le e = refl
  weighs_nothing t k (x ∷ xs) le e = let one : admits t k x ≡ 1 = rw le in absurd (omega arith)

  -- A hold with no admitted item has its buckets up to the threshold empty.
  pub drained-admitted :
      (t : ℤ) (h : Hold A) → admitted t h ≡ 0 → (j : ℕ) → leb_ℤ (pos j) t ≡ true → waiting h j ≡ []
  unfolding admitted queue
  drained-admitted t h e j le = elim (dec_lt j (length h.queues)) [
    | yes lt ↦
        weighs_nothing t j (waiting h j) le
          (zero-total (admits t) h.queues 0 j j lt (omega arith) e)
    | no ge ↦
        ap to_list (get_or_beyond h.queues j empty_queue (omega arith)) ∙ to_list-empty_queue A
  ]

module _ {A : Type 0} (E : Env A) where
  -- A flush of every destination.
  pub record PeFlushed (h h' : Htram E) : Type 0 where
    pub keeps : PeKeeps h h'
    pub flushed : All (LaneIsFlushed h.settings) h'.lanes

  module _ (s : Settings E) where
    ValidDrained : Lane A → Type 0
    ValidDrained l =
        LaneIsValid s l × ((j : ℕ) → leb_ℤ (pos j) s.tram_threshold ≡ true → waiting l.hold j ≡ [])

    unfoldable pub ValidFlushed : Lane A → Type 0
    ValidFlushed l = LaneIsValid s l × LaneIsFlushed s l

    Flushed-lane : (p q : Port A) → Flushed E s p q → ValidFlushed (port_lane q)
    unfolding ValidFlushed
    Flushed-lane p q f = (
      IsValid-lane q f.valid,
      record { empty = f.empty; settled = f.settled; drained = f.drained },
    )

    -- The three passes of tflush over the lanes.
    partial_pass :
        (st : Stats) (ls : List (Lane A))
        → All (LaneIsValid s) ls
        → All (LaneIsValid s) (for_lanes (flush_partial E s false) st ls).1
    partial_pass st ls v =
        for_lanes-All (LaneIsValid s) (LaneIsValid s) (flush_partial E s false)
          (λ st l k. IsValid-lane _ (flush_partial_lem E s (lane_port st l) (k st)).valid) st ls v

    drain_pass :
        (st : Stats) (ls : List (Lane A))
        → All (LaneIsValid s) ls
        → All ValidDrained (for_lanes (drain_admitted E s) st ls).1
    unfolding ValidDrained
    drain_pass st ls v =
        for_lanes-All (LaneIsValid s) ValidDrained (drain_admitted E s)
          (λ st l k.
            let d = drain_admitted_lem E s (lane_port st l) (k st) in
            (IsValid-lane _ d.valid, d.drained))
          st ls v

    rest_pass :
        (st : Stats) (ls : List (Lane A))
        → All ValidDrained ls
        → All ValidFlushed (for_lanes (flush_rest E s) st ls).1
    unfolding ValidDrained
    rest_pass st ls v =
        for_lanes-All ValidDrained ValidFlushed (flush_rest E s)
          (λ st l k.
            Flushed-lane (lane_port st l) _ (flush_rest_lem E s (lane_port st l) (k.0 st) k.1))
          st ls v

    partial_same :
        (w : A → ℕ) (st : Stats) (ls : List (Lane A))
        → All (LaneIsValid s) ls
        → sum_by (lane_contents w) (for_lanes (flush_partial E s false) st ls).1
          ≡ sum_by (lane_contents w) ls
    partial_same w st ls v =
        for_lanes-sum (LaneIsValid s) (lane_contents w) (flush_partial E s false)
          (λ st l k. unfold contents in (flush_partial_lem E s (lane_port st l) (k st)).same w) st
          ls v

    drain_same :
        (w : A → ℕ) (st : Stats) (ls : List (Lane A))
        → All (LaneIsValid s) ls
        → sum_by (lane_contents w) (for_lanes (drain_admitted E s) st ls).1
          ≡ sum_by (lane_contents w) ls
    drain_same w st ls v =
        for_lanes-sum (LaneIsValid s) (lane_contents w) (drain_admitted E s)
          (λ st l k. unfold contents in (drain_admitted_lem E s (lane_port st l) (k st)).same w) st
          ls v

    rest_same :
        (w : A → ℕ) (st : Stats) (ls : List (Lane A))
        → All ValidDrained ls
        → sum_by (lane_contents w) (for_lanes (flush_rest E s) st ls).1
          ≡ sum_by (lane_contents w) ls
    unfolding ValidDrained
    rest_same w st ls v =
        for_lanes-sum ValidDrained (lane_contents w) (flush_rest E s)
          (λ st l k. unfold contents in (flush_rest_lem E s (lane_port st l) (k.0 st) k.1).same w)
          st ls v

    valid_of : (ls : List (Lane A)) → All ValidDrained ls → All (LaneIsValid s) ls
    unfolding ValidDrained
    valid_of ls v = All-map_of ValidDrained (LaneIsValid s) ls (λ l k. k.0) v

    settle_PeFlushed :
        (h h' : Htram E)
        → h'.settings ≡ s
        → h.settings ≡ s
        → All ValidFlushed h'.lanes
        → ((w : A → ℕ) → pe_contents w h' ≡ pe_contents w h)
        → PeFlushed h h'
    unfolding ValidFlushed
    settle_PeFlushed h h' e' e v same = record {
      keeps = record {
        valid = rw e' (All-map_of ValidFlushed (LaneIsValid s) h'.lanes (λ l k. k.0) v);
        same = same;
      };
      flushed = rw e (All-map_of ValidFlushed (LaneIsFlushed s) h'.lanes (λ l k. k.1) v);
    }

  pub done_once-lanes :
      (h : Htram E) → ((done_once E h).lanes ≡ h.lanes) × ((done_once E h).settings ≡ h.settings)
  unfolding done_once
  done_once-lanes h = elim (Bool-cases h.settings.done) [
    | inl t ↦ rw t (refl, refl)
    | inr t ↦ rw t (refl, refl)
  ]

  done_PeFlushed : (h h' : Htram E) → PeFlushed h h' → PeFlushed h (done_once E h')
  done_PeFlushed h h' f = record {
    keeps = record {
      valid = rw ((done_once-lanes h').0, (done_once-lanes h').1) f.keeps.valid;
      same = λ w. rw ((done_once-lanes h').0) (f.keeps.same w);
    };
    flushed = rw ((done_once-lanes h').0) f.flushed;
  }

  -- tflush on a valid PE keeps every destination valid and loses nothing, and leaves every
  -- destination with an empty buffer, a zero counter and no item at or below the threshold in its
  -- hold.
  pub tflush-PeFlushed : (h : Htram E) → PeIsValid h → PeFlushed h (tflush E false h)
  unfolding tflush over_lanes
  tflush-PeFlushed h v =
      let s = h.settings in
      let r₁ = for_lanes (flush_partial E s false) h.stats h.lanes in
      let v₁ = partial_pass s h.stats h.lanes v in
      let r₂ = for_lanes (drain_admitted E s) r₁.0 r₁.1 in
      let v₂ = drain_pass s r₁.0 r₁.1 v₁ in
      done_PeFlushed h _ (
        settle_PeFlushed s h _ refl refl (rest_pass s r₂.0 r₂.1 v₂) (λ w.
          rest_same s w r₂.0 r₂.1 v₂
          ∙ drain_same s w r₁.0 r₁.1 v₁
          ∙ partial_same s w h.stats h.lanes v))
