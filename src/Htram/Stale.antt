-- ===== src/Htram/Stale.antt =====
-- flushStale and flushIdle over all the destinations of a PE.
use htram.Prelude.{
  ℕ, ◌≡◌, refl, pos, ltb_ℤ, ◌-ℤ◌, List, [], ◌∷◌, Bool, true, false, ◌&&◌, ◌⊎◌, ltb, inl, inr,
  Bool-cases, All, arith,
}
use htram.Env.{Env}
use htram.Port.{Settings}
use htram.Htram.{Lane, Htram, lane_port, over_lanes}
use htram.Htram.Lanes.{
  LaneIsValid, PeIsValid, PeKeeps, for_lanes-All, over_lanes-valid, over_lanes-contents,
}
use htram.Htram.Flushes.{flush_if_stale, flush_stale, flush_if_pending, any_pending, flush_idle}
use htram.Htram.Flushed.{LaneIsFlushed}
use htram.Htram.StaleDest.{
  flush_if_pending-IsValid, flush_if_pending-same, flush_if_stale-IsValid, flush_if_stale-same,
  flush_if_pending-flushed, flush_if_stale-flushed, flush_if_stale-reset,
}

module _ {A : Type 0} (E : Env A) where
  -- No buffer to any destination has filled since the last flushStale.
  abbrev pub IsQuiet : Htram E → Type 0
  IsQuiet h = All (λ (l : Lane A). l.full_sends ≡ 0) h.lanes

  -- What one flushStale does: everything is kept, and every full_sends starts over.
  pub record StaleFlushed (h h' : Htram E) : Type 0 where
    pub keeps : PeKeeps h h'
    pub quiet : IsQuiet h'

  -- flushStale on a valid PE keeps every destination valid, loses nothing, and sets every
  -- full_sends to 0.
  pub flush_stale-StaleFlushed : (h : Htram E) → PeIsValid h → StaleFlushed h (flush_stale E h)
  unfolding flush_stale over_lanes
  flush_stale-StaleFlushed h v =
      let s = h.settings in
      record {
        keeps = record {
          valid =
              over_lanes-valid s s (flush_if_stale E s) (flush_if_stale-IsValid E s)
                (flush_if_stale-same E s) h v;
          same = λ w.
              over_lanes-contents s s (flush_if_stale E s) (flush_if_stale-IsValid E s)
                (flush_if_stale-same E s) w h v;
        };
        quiet =
            for_lanes-All (LaneIsValid s) (λ l. l.full_sends ≡ 0) (flush_if_stale E s)
              (λ st l k. flush_if_stale-reset E s (lane_port st l)) h.stats h.lanes v;
      }

  both :
      (s : Settings E) (ls : List (Lane A))
      → All (LaneIsValid s) ls
      → All (λ (l : Lane A). l.full_sends ≡ 0) ls
      → All (λ l. LaneIsValid s l × (l.full_sends ≡ 0)) ls
  both s [] v q = tt
  both s (l ∷ ls) v q = ((v.0, q.0), both s ls v.1 q.1)

  -- If no buffer has filled since the last call, flushStale flushes every destination.
  pub flush_stale-flushed :
      (h : Htram E)
      → PeIsValid h
      → IsQuiet h
      → All (LaneIsFlushed h.settings) (flush_stale E h).lanes
  unfolding flush_stale over_lanes
  flush_stale-flushed h v quiet =
      let s = h.settings in
      for_lanes-All (λ l. LaneIsValid s l × (l.full_sends ≡ 0)) (LaneIsFlushed s)
        (flush_if_stale E s) (λ st l k. flush_if_stale-flushed E s (lane_port st l) (k.0 st) k.1)
        h.stats h.lanes (both s h.lanes v quiet)

  -- Two calls of flushStale on a valid PE with nothing between them leave every destination with an
  -- empty buffer, a zero counter and no admitted item in its hold.
  pub flush_stale_twice :
      (h : Htram E)
      → PeIsValid h
      → All (LaneIsFlushed h.settings) (flush_stale E (flush_stale E h)).lanes
  flush_stale_twice h v =
      let once = flush_stale-StaleFlushed h v in
      unfold flush_stale over_lanes in
      flush_stale-flushed (flush_stale E h) once.keeps.valid once.quiet

  -- A call of flushIdle either comes before the interval is over and does nothing, or flushes every
  -- destination.
  pub record IdleFlushed (now : ℕ) (h h' : Htram E) : Type 0 where
    pub keeps : PeKeeps h h'
    pub outcome :
        ((h' ≡ h) × (ltb_ℤ (pos now -ℤ h.last_idle_flush) (pos h.idle_flush_interval) ≡ true))
        ⊎ All (LaneIsFlushed h.settings) h'.lanes

  over_lanes-IdleFlushed :
      (now : ℕ) (h h' : Htram E)
      → PeIsValid h
      → h'.settings ≡ h.settings
      → h'.lanes ≡ (over_lanes (flush_if_pending E h.settings) h).lanes
      → IdleFlushed now h h'
  unfolding over_lanes
  over_lanes-IdleFlushed now h h' v e e' =
      let s = h.settings in
      record {
        keeps = record {
          valid =
              rw (e', e)
                (over_lanes-valid s s (flush_if_pending E s) (flush_if_pending-IsValid E s)
                  (flush_if_pending-same E s) h v);
          same = λ w. rw e' (
              over_lanes-contents s s (flush_if_pending E s) (flush_if_pending-IsValid E s)
                (flush_if_pending-same E s) w h v);
        };
        outcome = inr (
            rw e' (
              for_lanes-All (LaneIsValid s) (LaneIsFlushed s) (flush_if_pending E s)
                (λ st l k. flush_if_pending-flushed E s (lane_port st l) (k st)) h.stats h.lanes
                v));
      }

  -- flushIdle on a valid PE keeps every destination valid and loses nothing. Either it comes before
  -- the idle interval is over and changes nothing, or it leaves every destination with an empty
  -- buffer, a zero counter and no admitted item in its hold.
  pub flush_idle-IdleFlushed :
      (now : ℕ) (h : Htram E) → PeIsValid h → IdleFlushed now h (flush_idle E now h)
  unfolding flush_idle over_lanes
  flush_idle-IdleFlushed now h v =
      elim (Bool-cases (
        ltb 0 h.idle_flush_interval
        && ltb_ℤ (pos now -ℤ h.last_idle_flush) (pos h.idle_flush_interval))) [
          | inl early ↦ rw early (record {
            keeps = record { valid = v; same = λ w. refl };
            outcome = inl (refl, second _ _ early);
          })
          | inr due ↦
              rw due
                (elim (Bool-cases (any_pending h.lanes h.stats && ltb 0 h.idle_flush_interval)) [
                  | inl sent ↦ rw sent (over_lanes-IdleFlushed now h _ v refl refl)
                  | inr none_sent ↦ rw none_sent (over_lanes-IdleFlushed now h _ v refl refl)
                ])
        ]
    where
      second : (a b : Bool) → (a && b) ≡ true → b ≡ true
      second true b e = e
      second false b e = absurd (ground arith)
