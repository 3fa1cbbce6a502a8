-- ===== src/Quiesce.antt =====
-- htram_group.C, htramQuiesce: onQD flushes every PE, countBuffers sums what is left, and
-- onBufferCount fires the client's callback or starts again.
mod Fires
mod Tests
use htram.Prelude.{ℕ, ℤ, pos, ◌+ℤ◌, eqb_ℤ, List, [], ◌∷◌, Bool, true, false, map, if◌then◌else◌}
use htram.Env.{Env}
use htram.Htram.{Htram}
use htram.Htram.Flushes.{tflush, count_buffers}

-- What onBufferCount does next: `quiesce_cb.send()`, or wait for the next quiet moment.
pub data Next : Type 0 where
  fires waits : Next

module _ {A : Type 0} {E : Env A} where
  -- HTram::onQD: `thisProxy.tflush()` reaches every PE before the next quiet moment.
  unfoldable pub on_qd : List (Htram E) → List (Htram E)
  unfolding tflush
  on_qd pes = map (tflush E false) pes

  -- The reduction of every PE's countBuffers.
  unfoldable pub reduction : List (Htram E) → ℤ
  unfolding count_buffers
  reduction [] = pos 0
  reduction (h ∷ hs) = count_buffers h.lanes +ℤ reduction hs

-- HTram::onBufferCount
unfoldable pub on_buffer_count : ℤ → Next
on_buffer_count total = if eqb_ℤ total (pos 0) then fires else waits
