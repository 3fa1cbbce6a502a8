-- ===== src/Htram/Threshold.antt =====
-- changeThreshold, BUCKETS_BY_DEST: every counter is made exact for the new threshold, and the
-- destinations over the new release level are released.
use htram.Prelude.{
  ℕ, ◌+◌, ◌≡◌, refl, sym, ap, ◌∙◌, ℤ, pos, negsuc, eqb_ℤ, leb_ℤ, [], Bool, ◌&&◌, true, false, ◌⊎◌,
  inl, inr, Bool-cases, All, All-map_of, arith,
}
use htram.Env.{Env}
use htram.Message.{next}
use htram.Hold.Measure.{admitted}
use htram.Hold.Valid.{waiting}
use htram.Port.{Port, Settings}
use htram.Port.Valid.{contents, IsValid}
use htram.Port.Insert.{IsMonotone}
use htram.Port.Release.{insert_buckets_by_dest-Released}
use htram.Htram.{
  Lane, Htram, lane_port, port_lane, over_lanes, recount, release_over, with_thresholds,
  change_threshold,
}
use htram.Htram.Lanes.{
  LaneIsValid, PeIsValid, PeKeeps, pe_contents, for_lanes-All, over_lanes-valid,
  over_lanes-contents,
}
use htram.Htram.Recount.{Recounted, recount-Recounted}

eqb_ℤ_lem : (a b : ℤ) → eqb_ℤ a b ≡ true → a ≡ b
eqb_ℤ_lem (pos m) (pos n) h = let same : m ≡ n = ground arith in ap pos same
eqb_ℤ_lem (negsuc m) (negsuc n) h = let same : m ≡ n = ground arith in ap negsuc same
eqb_ℤ_lem (pos m) (negsuc n) h = absurd (ground arith)
eqb_ℤ_lem (negsuc m) (pos n) h = absurd (ground arith)

both : (a b : Bool) → (a && b) ≡ true → (a ≡ true) × (b ≡ true)
both true b e = (refl, e)
both false b e = absurd (cc)

module _ {A : Type 0} (E : Env A) (direct tram : ℤ) (selectivity : E.Float) where
  module _ (s : Settings E) where
    abbrev s' : Settings E
    s' = with_thresholds E direct tram selectivity s

    -- Buffers are not touched, so a counter that is exact for the new threshold is all it takes.
    Recounted-IsValid : (p q : Port A) → IsValid s p → Recounted tram p q → IsValid s' q
    unfolding with_thresholds
    Recounted-IsValid p q v r = record {
      ready = record {
        room = rw (r.msg) v.ready.room;
        wide = rw (r.msg) v.ready.wide;
        exact = rw (r.msg, r.hold) r.exact;
        in_bounds = rw (r.sent) v.ready.in_bounds;
      };
      formed = rw (r.hold) v.formed;
      sound = rw (r.hold) v.sound;
    }

    Recounted-same : (w : A → ℕ) (p q : Port A) → Recounted tram p q → contents w q ≡ contents w p
    unfolding contents
    Recounted-same w p q r = rw (r.msg, r.hold, r.sent)

    unmoved : (p : Port A) → s.tram_threshold ≡ tram → IsValid s p → IsValid s' p
    unmoved p e v = Recounted-IsValid p p v (record {
      hold = refl;
      msg = refl;
      sent = refl;
      exact = v.ready.exact ∙ ap (λ t. pos (next p.msg + admitted t p.hold)) e;
    })

  -- The release under the new settings, for any settings.
  release_over-IsValid :
      IsMonotone E → (s : Settings E) (p : Port A) → IsValid s p → IsValid s (release_over E s p)
  unfolding release_over
  release_over-IsValid mono s p v =
      elim (Bool-cases (E.gt p.updates (E.times s.selectivity s.buf_size))) [
        | inl over ↦ rw over ((insert_buckets_by_dest-Released E s mono p v).keeps.valid)
        | inr under ↦ rw under v
      ]

  release_over-same :
      IsMonotone E
      → (s : Settings E) (w : A → ℕ) (p : Port A) → IsValid s p
      → contents w (release_over E s p) ≡ contents w p
  unfolding release_over
  release_over-same mono s w p v =
      elim (Bool-cases (E.gt p.updates (E.times s.selectivity s.buf_size))) [
        | inl over ↦ rw over ((insert_buckets_by_dest-Released E s mono p v).keeps.same w)
        | inr under ↦ rw under
      ]

  released-PeKeeps :
      IsMonotone E
      → (h g : Htram E) → All (LaneIsValid (s' h.settings)) g.lanes
      → ((w : A → ℕ) → pe_contents w g ≡ pe_contents w h)
      → PeKeeps h
          (over_lanes (release_over E (s' h.settings)) (record g { settings = s' h.settings }))
  released-PeKeeps mono h g v same =
      let t = s' h.settings in
      let g' = record g { settings = t } in
      record {
        valid =
            unfold over_lanes in
            over_lanes-valid t t (release_over E t) (release_over-IsValid mono t)
              (release_over-same mono t) g' v;
        same = λ w.
            over_lanes-contents t t (release_over E t) (release_over-IsValid mono t)
              (release_over-same mono t) w g' v
            ∙ same w;
      }

  -- A destination after the release: the counter is not over the level, or nothing admitted is held,
  -- or the release has brought the counter below the level.
  abbrev pub LaneIsReleased : Settings E → Lane A → Type 0
  LaneIsReleased s l =
      (E.gt l.updates (E.times s.selectivity s.buf_size) ≡ false)
      ⊎ ((j : ℕ) → leb_ℤ (pos j) s.tram_threshold ≡ true → waiting l.hold j ≡ [])
      ⊎ (E.lt l.updates s.release_level ≡ true)

  release_over-IsReleased :
      IsMonotone E
      → (s : Settings E) (p : Port A) → IsValid s p
      → LaneIsReleased s (port_lane (release_over E s p))
  unfolding release_over
  release_over-IsReleased mono s p v =
      elim (Bool-cases (E.gt p.updates (E.times s.selectivity s.buf_size))) [
        | inl over ↦ rw over (inr (insert_buckets_by_dest-Released E s mono p v).outcome)
        | inr under ↦ rw under (inl under)
      ]

  -- The outcome of changeThreshold: the thresholds asked for are in force, every destination is valid
  -- under them with nothing lost, and either all settings are the new ones and each destination has
  -- been released, or the call asked for what was in force.
  pub record Rethresholded (h h' : Htram E) : Type 0 where
    pub keeps : PeKeeps h h'
    pub tram_now : h'.settings.tram_threshold ≡ tram
    pub direct_now : h'.settings.direct_threshold ≡ direct
    pub outcome :
        ((h'.settings ≡ s' h.settings) × All (LaneIsReleased h'.settings) h'.lanes)
        ⊎ (E.same_float selectivity h.settings.selectivity ≡ true) × (h' ≡ h)

  released :
      IsMonotone E
      → (h g : Htram E) → All (LaneIsValid (s' h.settings)) g.lanes
      → ((w : A → ℕ) → pe_contents w g ≡ pe_contents w h)
      → Rethresholded h
          (over_lanes (release_over E (s' h.settings)) (record g { settings = s' h.settings }))
  unfolding with_thresholds over_lanes
  released mono h g v same =
      let t = s' h.settings in
      record {
        keeps = released-PeKeeps mono h g v same;
        tram_now = refl;
        direct_now = refl;
        outcome = inl (
          refl,
          for_lanes-All (LaneIsValid t) (LaneIsReleased t) (release_over E t)
              (λ st l k. release_over-IsReleased mono t (lane_port st l) (k st)) g.stats g.lanes v,
        );
      }

  pub change_threshold-Rethresholded :
      IsMonotone E
      → (h : Htram E) → PeIsValid h
      → Rethresholded h (change_threshold E direct tram selectivity h)
  unfolding change_threshold
  change_threshold-Rethresholded mono h v =
      elim (Bool-cases (
        eqb_ℤ tram h.settings.tram_threshold
        && eqb_ℤ direct h.settings.direct_threshold
        && E.same_float selectivity h.settings.selectivity)) [
          | inl same ↦
              let (equal, float_is) = both _ _ same in
              let (tram_is, direct_is) = both _ _ equal in
              rw same (record {
                keeps = record { valid = v; same = λ w. refl };
                tram_now = sym (eqb_ℤ_lem tram h.settings.tram_threshold tram_is);
                direct_now = sym (eqb_ℤ_lem direct h.settings.direct_threshold direct_is);
                outcome = inr (float_is, refl);
              })
          | inr differ ↦ rw differ (elim (Bool-cases (eqb_ℤ tram h.settings.tram_threshold)) [
            | inl e ↦
                let same : h.settings.tram_threshold ≡ tram =
                  sym (eqb_ℤ_lem tram h.settings.tram_threshold e) in
                rw e (
                  released mono h h
                    (All-map_of _ _ h.lanes
                      (λ l k st. unmoved h.settings (lane_port st l) same (k st)) v)
                    (λ w. refl))
            | inr e ↦
                let s = h.settings in
                let count = recount E s.histo_bucket_count s.tram_threshold tram in
                rw e (
                  released mono h (over_lanes count h)
                    (over_lanes-valid s (s' s) count
                      (λ p k. Recounted-IsValid s p _ k (recount-Recounted E s p tram k))
                      (λ w p k. Recounted-same s w p _ (recount-Recounted E s p tram k)) h v)
                    (λ w.
                      over_lanes-contents s (s' s) count
                        (λ p k. Recounted-IsValid s p _ k (recount-Recounted E s p tram k))
                        (λ w p k. Recounted-same s w p _ (recount-Recounted E s p tram k)) w h v))
          ])
        ]
