-- ===== src/Hold.antt =====
-- htram_group.h and htram_group.C: tram_hold[d], one destination's priority hold, a HoldQueue for
-- each bucket beside the bitmap of the buckets that may hold items. The pieces of holdPush and of
-- the drains.
pub mod Measure
pub mod Valid
pub mod Push
pub mod Pop
pub mod Sweep
pub mod Staged
use htram.Prelude.{
  ℕ, zero, suc, ◌+◌, List, Bool, Option, none, some, if◌then◌else◌, get_or, set, replicate,
}
use htram.HoldQueue.{HoldQueue, empty_queue, push, front, pop, is_empty}
use htram.HoldBits.Bits.{Word}
use htram.HoldBits.{no_bits, mark, unmark, hold_next}

pub record Hold {ℓ} (A : Type ℓ) : Type ℓ where
  pub queues : List (HoldQueue A)
  pub bits : List Word

module _ {ℓ} {A : Type ℓ} where
  -- `new hold_queue[histo_bucket_count]`, and the zeroed words.
  unfoldable pub empty_hold : ℕ → Hold A
  empty_hold buckets = record { queues = replicate buckets empty_queue; bits = no_bits buckets }

  -- tram_hold[d][b]
  unfoldable pub queue : Hold A → ℕ → HoldQueue A
  queue h b = get_or h.queues b empty_queue

  -- holdPush
  unfoldable pub hold_push : ℕ → A → Hold A → Hold A
  hold_push b x h = record h { queues = set h.queues b (push (queue h b) x); bits = mark b h.bits }

  -- `tram_hold[d][b].pop()`
  unfoldable pub hold_pop : ℕ → Hold A → Hold A
  hold_pop b h = record h { queues = set h.queues b (pop (queue h b)) }

  -- holdEmptied
  unfoldable pub hold_emptied : ℕ → Hold A → Hold A
  hold_emptied b h = record h { bits = unmark b h.bits }

  -- `pop(); if (empty()) holdEmptied(d, b);`
  unfoldable pub hold_take : ℕ → Hold A → Hold A
  hold_take b h = let h' = hold_pop b h in if is_empty (queue h' b) then hold_emptied b h' else h'

-- `for (int i = holdNext(d, from); test; i = holdNext(d, i + 1)) body`: the bits are read anew in
-- each round. The fuel is the number of buckets, and each round goes up by one at least.
unfoldable pub sweep {ℓ} :
    {S : Type ℓ} → ℕ → (S → List Word) → (ℕ → S → Bool) → (ℕ → S → S) → ℕ → ℕ → S → S
sweep buckets bits test body zero from s = s
sweep buckets bits test body (suc n) from s = elim (hold_next buckets (bits s) from) [
  | none ↦ s
  | some i ↦
      let rest = sweep buckets bits test body n (i + 1) (body i s) in if test i s then rest else s
]
