-- ===== src/Quiesce/Tests.antt =====
-- The quiescence protocol on one sample PE.
use htram.Prelude.{◌≡◌, [], ◌∷◌, All}
use htram.Htram.{Htram}
use htram.Htram.Flushed.{LaneIsFlushed, tflush-PeFlushed}
use htram.Htram.Lanes.{PeIsValid}
use htram.Quiesce.{fires, on_qd, reduction, on_buffer_count}
use htram.Quiesce.Fires.{fires-flushed, on_qd-fires}
use htram.Sample.{env, pe, pe-PeIsValid}

on_qd-fires_example : on_buffer_count (reduction (on_qd (pe ∷ pe ∷ []))) ≡ fires
on_qd-fires_example = on_qd-fires (pe ∷ pe ∷ []) (pe-PeIsValid, (pe-PeIsValid, tt))

after-All : All PeIsValid (on_qd (pe ∷ []))
unfolding on_qd
after-All = ((tflush-PeFlushed env pe pe-PeIsValid).keeps.valid, tt)

fires-flushed_example :
    All (λ (h : Htram env). All (LaneIsFlushed h.settings) h.lanes) (on_qd (pe ∷ []))
fires-flushed_example =
    fires-flushed (on_qd (pe ∷ [])) after-All (on_qd-fires (pe ∷ []) (pe-PeIsValid, tt))
