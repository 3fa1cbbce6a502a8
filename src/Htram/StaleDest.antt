-- ===== src/Htram/StaleDest.antt =====
-- One destination's part of flushStale and flushIdle.
use htram.Prelude.{
  ℕ, ◌+◌, ◌≡◌, refl, ap, ◌∙◌, subst, ℤ, pos, ltb_ℤ, Bool, false, not, ◌&&◌, ◌||◌, ◌==◌, inl, inr,
  Bool-cases, arith,
}
use htram.Env.{Env}
use htram.Message.{next}
use htram.Hold.Measure.{admitted}
use htram.Port.{Port, Settings, Stats}
use htram.Port.Valid.{contents, IsValid}
use htram.Flush.{flush_dest}
use htram.Flush.Whole.{flush_dest_lem}
use htram.Htram.{port_lane}
use htram.Htram.Flushes.{has_pending, flush_if_stale, flush_if_pending}
use htram.Htram.Flushed.{LaneIsFlushed, drained-admitted}

module _ {A : Type 0} (E : Env A) (s : Settings E) where
  -- Only full_sends and the statistics differ.
  IsValid-renamed :
      (p : Port A) (n : ℕ) (st : Stats)
      → IsValid s p
      → IsValid s (record p { full_sends = n; stats = st })
  IsValid-renamed p n st v = record {
    ready = record {
      room = v.ready.room;
      wide = v.ready.wide;
      exact = v.ready.exact;
      in_bounds = v.ready.in_bounds;
    };
    formed = v.formed;
    sound = v.sound;
  }

  contents-renamed :
      (w : A → ℕ) (p : Port A) (n : ℕ) (st : Stats)
      → contents w (record p { full_sends = n; stats = st }) ≡ contents w p
  unfolding contents
  contents-renamed w p n st = refl

  pub flush_if_pending-IsValid : (p : Port A) → IsValid s p → IsValid s (flush_if_pending E s p)
  unfolding flush_if_pending
  flush_if_pending-IsValid p v = elim (Bool-cases (has_pending p)) [
    | inl pend ↦ rw pend (IsValid-renamed (flush_dest E s p) _ _ (flush_dest_lem E s p v).valid)
    | inr calm ↦ rw calm v
  ]

  pub flush_if_pending-same :
      (w : A → ℕ) (p : Port A) → IsValid s p → contents w (flush_if_pending E s p) ≡ contents w p
  unfolding flush_if_pending
  flush_if_pending-same w p v = elim (Bool-cases (has_pending p)) [
    | inl pend ↦
        rw pend (contents-renamed w (flush_dest E s p) _ _ ∙ (flush_dest_lem E s p v).same w)
    | inr calm ↦ rw calm
  ]

  pub flush_if_stale-IsValid : (p : Port A) → IsValid s p → IsValid s (flush_if_stale E s p)
  unfolding flush_if_stale
  flush_if_stale-IsValid p v = elim (Bool-cases (p.full_sends == 0 && has_pending p)) [
    | inl pend ↦ rw pend (IsValid-renamed (flush_dest E s p) _ _ (flush_dest_lem E s p v).valid)
    | inr calm ↦ rw calm (IsValid-renamed p _ _ v)
  ]

  pub flush_if_stale-same :
      (w : A → ℕ) (p : Port A) → IsValid s p → contents w (flush_if_stale E s p) ≡ contents w p
  unfolding flush_if_stale
  flush_if_stale-same w p v = elim (Bool-cases (p.full_sends == 0 && has_pending p)) [
    | inl pend ↦
        rw pend (contents-renamed w (flush_dest E s p) _ _ ∙ (flush_dest_lem E s p v).same w)
    | inr calm ↦ rw calm (contents-renamed w p _ _)
  ]

  -- A destination with nothing pending is flushed as it is.
  idle-Flushed : (p : Port A) → IsValid s p → has_pending p ≡ false → LaneIsFlushed s (port_lane p)
  unfolding has_pending
  idle-Flushed p v idle = record {
    empty = empty;
    settled = v.ready.exact ∙ ap pos (omega (arith, empty, nothing));
    drained = drained-admitted s.tram_threshold p.hold nothing;
  }
    where
      low :
          (u : ℤ) (n a : ℕ)
          → u ≡ pos (n + a)
          → (ltb_ℤ (pos 0) u || not (n == 0)) ≡ false
          → (n ≡ 0) × (a ≡ 0)
      low u n a e i =
          let i' : (ltb_ℤ (pos 0) (pos (n + a)) || not (n == 0)) ≡ false =
            subst (λ u. (ltb_ℤ (pos 0) u || not (n == 0)) ≡ false) e i in
          (ground arith, ground arith)

      empty : next p.msg ≡ 0
      empty = (low p.updates (next p.msg) (admitted s.tram_threshold p.hold) v.ready.exact idle).0

      nothing : admitted s.tram_threshold p.hold ≡ 0
      nothing = (low p.updates (next p.msg) (admitted s.tram_threshold p.hold) v.ready.exact idle).1

  pub flush_if_pending-flushed :
      (p : Port A) → IsValid s p → LaneIsFlushed s (port_lane (flush_if_pending E s p))
  unfolding flush_if_pending
  flush_if_pending-flushed p v = elim (Bool-cases (has_pending p)) [
    | inl pend ↦
        let f = flush_dest_lem E s p v in
        rw pend (record { empty = f.empty; settled = f.settled; drained = f.drained })
    | inr calm ↦ rw calm (idle-Flushed p v calm)
  ]

  -- A destination that has filled no buffer since the last call is flushed by this one.
  pub flush_if_stale-flushed :
      (p : Port A)
      → IsValid s p
      → p.full_sends ≡ 0
      → LaneIsFlushed s (port_lane (flush_if_stale E s p))
  unfolding flush_if_stale
  flush_if_stale-flushed p v e = elim (Bool-cases (p.full_sends == 0 && has_pending p)) [
    | inl pend ↦
        let f = flush_dest_lem E s p v in
        rw pend (record { empty = f.empty; settled = f.settled; drained = f.drained })
    | inr calm ↦
        let f = idle-Flushed p v (second p.full_sends (has_pending p) e calm) in
        rw calm (record { empty = f.empty; settled = f.settled; drained = f.drained })
  ]
    where
      second : (n : ℕ) (b : Bool) → n ≡ 0 → (n == 0 && b) ≡ false → b ≡ false
      second n b e f = ground arith

  pub flush_if_stale-reset : (p : Port A) → (flush_if_stale E s p).full_sends ≡ 0
  unfolding flush_if_stale
  flush_if_stale-reset p = elim (Bool-cases (p.full_sends == 0 && has_pending p)) [
    | inl pend ↦ rw pend
    | inr calm ↦ rw calm
  ]
