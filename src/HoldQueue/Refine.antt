-- ===== src/HoldQueue/Refine.antt =====
-- A HoldQueue behaves, over any sequence of calls, as the list of the items that it holds.
use htram.Prelude.{
  ℕ, ◌≡◌, refl, ap₂, List, [], ◌∷◌, ◌++◌, Option, none, some, length, Bool, true, false,
}
use htram.HoldQueue.{HoldQueue, push, front, pop, is_empty, size, to_list}
use htram.HoldQueue.Fifo.{
  IsValid, push-IsValid, to_list-push, size-length, front-to_list, pop_lem, is_empty_iff,
}

-- What a client does with a queue: the loops of htram_group.C call `front` and `pop` only on a
-- queue that is not empty.
pub data Call {ℓ} (A : Type ℓ) : Type ℓ where
  enqueue : A → Call A
  dequeue : Call A

-- What each `dequeue` sees: the size before it, and the item that it removes.
unfoldable pub run {ℓ} : {A : Type ℓ} → HoldQueue A → List (Call A) → List (ℕ × Option A)
run q [] = []
run q (enqueue x ∷ cs) = run (push q x) cs
run q (dequeue ∷ cs) = elim (is_empty q) [
  | true ↦ (size q, none) ∷ run q cs
  | false ↦ (size q, front q) ∷ run (pop q) cs
]

-- The same of a list.
pub run_list {ℓ} : {A : Type ℓ} → List A → List (Call A) → List (ℕ × Option A)
run_list xs [] = []
run_list xs (enqueue x ∷ cs) = run_list (xs ++ x ∷ []) cs
run_list [] (dequeue ∷ cs) = (0, none) ∷ run_list [] cs
run_list (x ∷ xs) (dequeue ∷ cs) = (length (x ∷ xs), some x) ∷ run_list xs cs

module _ {ℓ} {A : Type ℓ} where
  run-run_list :
      (cs : List (Call A)) (q : HoldQueue A) (xs : List A)
      → IsValid q
      → to_list q ≡ xs
      → run q cs ≡ run_list xs cs
  unfolding run run_list
  run-run_list [] q xs v e = refl
  run-run_list (enqueue x ∷ cs) q xs v e =
      run-run_list cs (push q x) (xs ++ x ∷ []) (push-IsValid q x v) (rw (to_list-push q x v, e))
  run-run_list (dequeue ∷ cs) q [] v e =
      rw ((is_empty_iff q v).1 e, run) (ap₂ ◌∷◌ (rw (size-length q, e)) (run-run_list cs q [] v e))
  run-run_list (dequeue ∷ cs) q (x ∷ xs) v e =
      rw (not_empty, run)
        (ap₂ ◌∷◌ (rw (size-length q, e, front-to_list q x xs e))
          (run-run_list cs (pop q) xs (pop_lem q x xs e).0 (pop_lem q x xs e).1))
    where
      split : (b : Bool) → is_empty q ≡ b → is_empty q ≡ false
      split true h = cc ((is_empty_iff q v).0 h)
      split false h = h

      not_empty : is_empty q ≡ false
      not_empty = split (is_empty q) refl

-- Over any list of pushes and pops a HoldQueue with its head inside the vector answers as a list
-- does from which the first item is taken: the same sizes and the same items, through every reset
-- and compaction of the vector.
pub run_refines {ℓ} :
    {A : Type ℓ} (cs : List (Call A)) (q : HoldQueue A)
    → IsValid q
    → run q cs ≡ run_list (to_list q) cs
run_refines cs q v = run-run_list cs q (to_list q) v refl
