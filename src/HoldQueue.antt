-- ===== src/HoldQueue.antt =====
-- htram_group.h, class HoldQueue: the FIFO of the per-(destination, bucket) holds, a vector with a
-- consumed prefix. `to_list` is what a client sees of it; the laws are in the child module.
pub mod Fifo
pub mod Refine
mod Tests
use htram.Prelude.{
  ℕ, zero, suc, ◌+◌, ◌-◌, ◌*◌, List, [], ◌∷◌, ◌++◌, Option, Bool, length, get_elem?, drop, leb,
  ◌==◌, if◌then◌else◌, ◌&&◌,
}

pub record HoldQueue {ℓ} (A : Type ℓ) : Type ℓ where
  pub items : List A
  pub head : ℕ

module _ {ℓ} {A : Type ℓ} where
  unfoldable pub empty_queue : HoldQueue A
  empty_queue = record { items = []; head = 0 }

  unfoldable pub push : HoldQueue A → A → HoldQueue A
  push q x = record q { items = q.items ++ x ∷ [] }

  -- `none` is a read past the end of the vector.
  unfoldable pub front : HoldQueue A → Option A
  front q = get_elem? q.items q.head

  -- A drained queue is emptied, whether its vector keeps its capacity or is swapped for a new one;
  -- a consumed prefix that dominates is erased.
  unfoldable pub pop : HoldQueue A → HoldQueue A
  pop q =
      let head = q.head + 1 in
      if head == length q.items
      then record { items = []; head = 0 }
      else if leb 4096 head && leb (length q.items) (2 * head)
      then record { items = drop head q.items; head = 0 }
      else record q { head = head }

  unfoldable pub is_empty : HoldQueue A → Bool
  is_empty q = q.head == length q.items

  -- `head_` never passes the vector's size (`Fifo.pop-IsValid`), so the subtraction does not wrap.
  unfoldable pub size : HoldQueue A → ℕ
  size q = length q.items - q.head

  -- The items that wait, oldest first.
  unfoldable pub to_list : HoldQueue A → List A
  to_list q = drop q.head q.items
