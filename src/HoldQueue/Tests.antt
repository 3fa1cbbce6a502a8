-- ===== src/HoldQueue/Tests.antt =====
-- HoldQueue at concrete inputs.
use htram.Prelude.{ℕ, ◌≡◌, refl, List, [], ◌∷◌, none, some, arith}
use htram.HoldQueue.{HoldQueue, push, front, pop, is_empty, size, to_list}
use htram.HoldQueue.Refine.{Call, enqueue, dequeue, run, run_list, run_refines}

-- A queue that has handed out its first item.
abbrev partly_drained : HoldQueue ℕ
partly_drained = record { items = 7 ∷ 8 ∷ 9 ∷ []; head = 1 }

abbrev calls : List (Call ℕ)
calls = enqueue 4 ∷ dequeue ∷ dequeue ∷ dequeue ∷ dequeue ∷ []

run-partly_drained :
    run partly_drained calls ≡ (3, some 8) ∷ (2, some 9) ∷ (1, some 4) ∷ (0, none) ∷ []
unfolding run push front pop is_empty size
run-partly_drained = refl

run_refines_example : run partly_drained calls ≡ run_list (to_list partly_drained) calls
run_refines_example = run_refines calls partly_drained (omega arith)
