-- ===== src/Quiesce/Fires.antt =====
-- When htramQuiesce fires: only when nothing is left, and after one round in which nothing arrives.
use htram.Prelude.{
  ℕ, ◌+◌, ◌≡◌, refl, sym, ap, ap₂, ◌∙◌, pos, ◌+ℤ◌, pos-+ℤ, List, [], ◌∷◌, All, sum_by, arith,
}
use htram.Env.{Env}
use htram.Message.{next}
use htram.Hold.Measure.{admitted}
use htram.Htram.{Lane, Htram}
use htram.Htram.Lanes.{PeIsValid}
use htram.Htram.Flushed.{LaneIsFlushed, tflush-PeFlushed}
use htram.Htram.Reports.{count_buffers_lem, zero_flushed, count_buffers-zero}
use htram.Quiesce.{fires, on_qd, reduction, on_buffer_count}

fires_zero : (n : ℕ) → on_buffer_count (pos n) ≡ fires → n ≡ 0
unfolding on_buffer_count
fires_zero n e = ground arith

module _ {A : Type 0} {E : Env A} where
  -- What countBuffers counts on a valid PE.
  abbrev left : Htram E → ℕ
  left h =
      sum_by (λ (l : Lane A). next l.msg + next l.msg + admitted h.settings.tram_threshold l.hold)
        h.lanes

  reduction_lem : (pes : List (Htram E)) → All PeIsValid pes → reduction pes ≡ pos (sum_by left pes)
  unfolding reduction
  reduction_lem [] v = refl
  reduction_lem (h ∷ hs) v =
      ap₂ (λ a b. a +ℤ b) (count_buffers_lem h.settings h.lanes v.0) (reduction_lem hs v.1)
      ∙ pos-+ℤ (left h) _

  none_left :
      (pes : List (Htram E))
      → All PeIsValid pes
      → sum_by left pes ≡ 0
      → All (λ (h : Htram E). All (LaneIsFlushed h.settings) h.lanes) pes
  none_left [] v e = tt
  none_left (h ∷ hs) v e =
      (zero_flushed h.settings h.lanes v.0 (omega arith), none_left hs v.1 (omega arith))

  -- If onBufferCount fires the client's callback on the sum of the countBuffers of valid PEs, then
  -- every destination of every PE has an empty buffer, a zero counter and no admitted item in its
  -- hold.
  pub fires-flushed :
      (pes : List (Htram E))
      → All PeIsValid pes
      → on_buffer_count (reduction pes) ≡ fires
      → All (λ (h : Htram E). All (LaneIsFlushed h.settings) h.lanes) pes
  fires-flushed pes v e =
      none_left pes v
        (fires_zero (sum_by left pes) (sym (ap on_buffer_count (reduction_lem pes v)) ∙ e))

  flushed_zero : (pes : List (Htram E)) → All PeIsValid pes → reduction (on_qd pes) ≡ pos 0
  unfolding reduction on_qd
  flushed_zero [] v = refl
  flushed_zero (h ∷ hs) v =
      ap₂ (λ a b. a +ℤ b) (count_buffers-zero h.settings _ (tflush-PeFlushed E h v.0).flushed)
        (flushed_zero hs v.1)
      ∙ pos-+ℤ 0 0

  -- If all PEs are valid and nothing arrives between the flush of onQD and the count, one round of
  -- the quiescence protocol ends with onBufferCount firing the client's callback.
  pub on_qd-fires :
      (pes : List (Htram E)) → All PeIsValid pes → on_buffer_count (reduction (on_qd pes)) ≡ fires
  unfolding on_buffer_count
  on_qd-fires pes v = rw (flushed_zero pes v) refl
