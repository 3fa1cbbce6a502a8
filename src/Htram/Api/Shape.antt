-- ===== src/Htram/Api/Shape.antt =====
-- What no call changes of a PE: its number of destinations, its mode and its number of buckets.
use htram.Prelude.{
  ℕ, zero, suc, ◌≡◌, refl, ap, ◌∙◌, ℤ, ◌-ℤ◌, ltb_ℤ, eqb_ℤ, pos, List, [], ◌∷◌, false, Option, none,
  some, length, ltb, leb, ◌==◌, ◌&&◌, inl, inr, Bool-cases,
}
use htram.Env.{Env}
use htram.Port.{Port, Stats, release_if_due}
use htram.Htram.{
  Lane, Htram, lane_port, for_lanes, over_lanes, recount, release_over, bufsize, change_threshold,
  set_buffer_size, with_thresholds, with_buffer_size, resize_buffer,
}
use htram.Flush.{flush_partial, drain_admitted, flush_rest}
use htram.Htram.Flushed.{done_once-lanes}
use htram.Htram.Flushes.{
  done_once, tflush, flush_if_stale, flush_stale, flush_if_pending, any_pending, flush_idle,
}
use htram.Htram.Api.{at_lane}

pub record SameShape {A : Type 0} {E : Env A} (h h' : Htram E) : Type 0 where
  pub lanes : length h'.lanes ≡ length h.lanes
  pub agg : h'.settings.agg ≡ h.settings.agg
  pub buckets : h'.settings.histo_bucket_count ≡ h.settings.histo_bucket_count

module _ {A : Type 0} where
  length-for_lanes :
      (f : Port A → Port A) (st : Stats) (ls : List (Lane A))
      → length (for_lanes f st ls).1 ≡ length ls
  unfolding for_lanes
  length-for_lanes f st [] = refl
  length-for_lanes f st (l ∷ ls) = ap suc (length-for_lanes f (f (lane_port st l)).stats ls)

  pub length-at_lane :
      (d : ℕ) (f : Port A → Port A) (st : Stats) (ls : List (Lane A))
      → length (at_lane d f st ls).1 ≡ length ls
  unfolding at_lane
  length-at_lane d f st [] = refl
  length-at_lane zero f st (l ∷ ls) = refl
  length-at_lane (suc d) f st (l ∷ ls) = ap suc (length-at_lane d f st ls)

module _ {A : Type 0} {E : Env A} where
  length-over_lanes :
      (f : Port A → Port A) (h : Htram E) → length (over_lanes f h).lanes ≡ length h.lanes
  unfolding over_lanes
  length-over_lanes f h = length-for_lanes f h.stats h.lanes

  -- The lanes gone over, under the settings it ends with.
  over_lanes-SameShape :
      (f : Port A → Port A) (h h' : Htram E)
      → h'.lanes ≡ (over_lanes f h).lanes
      → h'.settings ≡ h.settings
      → SameShape h h'
  over_lanes-SameShape f h h' e e' = record {
    lanes = ap length e ∙ length-over_lanes f h;
    agg = ap (λ s. s.agg) e';
    buckets = ap (λ s. s.histo_bucket_count) e';
  }

  pub trans : {h h' h'' : Htram E} → SameShape h h' → SameShape h' h'' → SameShape h h''
  trans a b = record {
    lanes = b.lanes ∙ a.lanes;
    agg = b.agg ∙ a.agg;
    buckets = b.buckets ∙ a.buckets;
  }

  released :
      (direct tram : ℤ) (selectivity : E.Float) (h g : Htram E)
      → length g.lanes ≡ length h.lanes
      → SameShape h (
          over_lanes
            (release_over E (with_thresholds E direct tram selectivity h.settings))
            (record g { settings = with_thresholds E direct tram selectivity h.settings }))
  unfolding over_lanes with_thresholds
  released direct tram selectivity h g e =
      let s = with_thresholds E direct tram selectivity h.settings in
      record {
        lanes = length-for_lanes (release_over E s) g.stats g.lanes ∙ e;
        agg = refl;
        buckets = refl;
      }

  pub change_threshold-SameShape :
      (direct tram : ℤ) (selectivity : E.Float) (h : Htram E)
      → SameShape h (change_threshold E direct tram selectivity h)
  unfolding change_threshold
  change_threshold-SameShape direct tram selectivity h =
      elim (Bool-cases (
        eqb_ℤ tram h.settings.tram_threshold
        && eqb_ℤ direct h.settings.direct_threshold
        && E.same_float selectivity h.settings.selectivity)) [
          | inl same ↦ rw same (record { lanes = refl; agg = refl; buckets = refl })
          | inr differ ↦ rw differ (elim (Bool-cases (eqb_ℤ tram h.settings.tram_threshold)) [
            | inl e ↦ rw e (released direct tram selectivity h h refl)
            | inr e ↦
                let count =
                  recount E h.settings.histo_bucket_count h.settings.tram_threshold tram in
                rw e (
                  released direct tram selectivity h (over_lanes count h)
                    (length-over_lanes count h))
          ])
        ]

  pub tflush-SameShape : (h : Htram E) → SameShape h (tflush E false h)
  unfolding tflush
  tflush-SameShape h =
      let s = h.settings in
      let h₁ = over_lanes (flush_partial E s false) h in
      let h₂ = over_lanes (drain_admitted E s) h₁ in
      let h₃ = over_lanes (flush_rest E s) h₂ in
      let kept = done_once-lanes E h₃ in
      trans {h = h} {h' = h₁}
        (over_lanes-SameShape (flush_partial E s false) h h₁ refl (unfold over_lanes in refl))
        (trans {h = h₁} {h' = h₂}
          (over_lanes-SameShape (drain_admitted E s) h₁ h₂ refl (unfold over_lanes in refl))
          (over_lanes-SameShape (flush_rest E s) h₂ (done_once E h₃) kept.0
            (kept.1 ∙ unfold over_lanes in refl)))

  pub flush_stale-SameShape : (h : Htram E) → SameShape h (flush_stale E h)
  unfolding flush_stale over_lanes
  flush_stale-SameShape h =
      over_lanes-SameShape (flush_if_stale E h.settings) h (flush_stale E h) refl refl

  pub flush_idle-SameShape : (now : ℕ) (h : Htram E) → SameShape h (flush_idle E now h)
  unfolding flush_idle over_lanes
  flush_idle-SameShape now h =
      elim (Bool-cases (
        ltb 0 h.idle_flush_interval
        && ltb_ℤ (pos now -ℤ h.last_idle_flush) (pos h.idle_flush_interval))) [
          | inl early ↦ rw early (record { lanes = refl; agg = refl; buckets = refl })
          | inr due ↦
              rw due
                (elim (Bool-cases (any_pending h.lanes h.stats && ltb 0 h.idle_flush_interval)) [
                  | inl sent ↦
                      rw sent (over_lanes-SameShape (flush_if_pending E h.settings) h _ refl refl)
                  | inr none_sent ↦
                      rw none_sent
                        (over_lanes-SameShape (flush_if_pending E h.settings) h _ refl refl)
                ])
        ]

  -- Of a call that may fail.
  abbrev pub SameShapeIf : Htram E → Option (Htram E) → Type 0
  SameShapeIf h none = Unit
  SameShapeIf h (some h') = SameShape h h'

  pub set_buffer_size-SameShape : (new : ℕ) (h : Htram E) → SameShapeIf h (set_buffer_size E new h)
  unfolding set_buffer_size over_lanes with_buffer_size
  set_buffer_size-SameShape new h = elim (Bool-cases (ltb 0 new && leb new bufsize)) [
    | inr bad ↦ rw bad tt
    | inl good ↦ rw good (elim (Bool-cases (new == h.settings.buf_size)) [
      | inl same ↦ rw same (record { lanes = refl; agg = refl; buckets = refl })
      | inr differ ↦ rw differ (record {
        lanes =
            length-for_lanes
              (λ p.
                release_if_due E (with_buffer_size E new h.settings)
                  (resize_buffer E (with_buffer_size E new h.settings) p))
              h.stats h.lanes;
        agg = refl;
        buckets = refl;
      })
    ])
  ]
