-- ===== src/Hold/Pop.antt =====
-- Taking the oldest item of a bucket, and clearing the bit of a bucket that is empty.
use htram.Prelude.{
  ℕ, ◌+◌, ◌<◌, ◌≡◌, ◌≢◌, refl, ap, ◌∙◌, subst, List, [], ◌∷◌, true, false, ◌==◌, inl, inr,
  Bool-cases, if◌then◌else◌, length, length-set, sum_by, arith, ℕ_discrete,
}
use htram.HoldQueue.{pop, is_empty, to_list}
use htram.HoldQueue.Fifo
use htram.HoldQueue.Fifo.{pop_lem, is_empty_iff}
use htram.HoldBits.Marked.{marked, unmark-IsShaped, marked-unmark}
use htram.Hold.{Hold, queue, hold_pop, hold_emptied, hold_take}
use htram.Hold.Measure.{total}
use htram.Hold.Valid.{
  IsFormed, IsSound, IsSoundBut, waiting, replaced, queue-replaced_self, queue-replaced_ne,
  fifo-replaced, total-replaced,
}

-- `tram_hold[d][b].pop()` on a bucket that holds `x` and then `xs`.
module _ {ℓ} {A : Type ℓ} {buckets : ℕ} (b : ℕ) (x : A) (xs : List A) (h : Hold A)
    (v : IsFormed buckets h) (lt : b < buckets) (e : waiting h b ≡ x ∷ xs) where
  within : b < length h.queues
  within = omega (arith, v.count)

  pub waiting-hold_pop_self : waiting (hold_pop b h) b ≡ xs
  unfolding hold_pop replaced queue
  waiting-hold_pop_self =
      ap to_list (queue-replaced_self h b (pop (queue h b)) within) ∙ (pop_lem (queue h b) x xs e).1

  pub waiting-hold_pop_ne : (c : ℕ) → c ≢ b → waiting (hold_pop b h) c ≡ waiting h c
  unfolding hold_pop replaced queue
  waiting-hold_pop_ne c ne = ap to_list (queue-replaced_ne h b c (pop (queue h b)) ne)

  pub hold_pop-IsFormed : IsFormed buckets (hold_pop b h)
  unfolding hold_pop replaced queue
  hold_pop-IsFormed = record {
    count = length-set h.queues b (pop (queue h b)) ∙ v.count;
    shaped = v.shaped;
    fifo = fifo-replaced h b (pop (queue h b)) within (pop_lem (queue h b) x xs e).0 v.fifo;
    inside = v.inside;
  }

  pub hold_pop-IsSoundBut : IsSoundBut b h → IsSoundBut b (hold_pop b h)
  unfolding hold_pop
  hold_pop-IsSoundBut s c ne m = waiting-hold_pop_ne c ne ∙ s c ne m

  -- The hold shrinks by the item, at its bucket's weight.
  pub total-hold_pop :
      (w : ℕ → A → ℕ) → total w 0 (hold_pop b h).queues + w b x ≡ total w 0 h.queues
  unfolding hold_pop replaced
  total-hold_pop w = omega (
    arith,
    total-replaced w h b (pop (queue h b)) within,
    ap (sum_by (w b)) (pop_lem (queue h b) x xs e).1,
    ap (sum_by (w b)) e,
  )

-- holdEmptied
module _ {ℓ} {A : Type ℓ} {buckets : ℕ} (b : ℕ) (h : Hold A) (v : IsFormed buckets h)
    (lt : b < buckets) where
  marked-hold_emptied :
      (c : ℕ) → marked (hold_emptied b h).bits c ≡ (if c == b then false else marked h.bits c)
  unfolding hold_emptied
  marked-hold_emptied c = marked-unmark h.bits b c v.shaped lt

  pub hold_emptied-IsFormed : IsFormed buckets (hold_emptied b h)
  unfolding hold_emptied queue
  hold_emptied-IsFormed = record {
    count = v.count;
    shaped = unmark-IsShaped h.bits b v.shaped;
    fifo = v.fifo;
    inside = λ c m. ground (arith, marked-hold_emptied c, v.inside c);
  }

  pub waiting-hold_emptied : (c : ℕ) → waiting (hold_emptied b h) c ≡ waiting h c
  unfolding hold_emptied queue
  waiting-hold_emptied c = refl

  pub hold_emptied-IsSoundBut : IsSoundBut b h → IsSoundBut b (hold_emptied b h)
  hold_emptied-IsSoundBut s c ne m =
      waiting-hold_emptied c ∙ s c ne (ground (arith, marked-hold_emptied c))

  -- Clearing the bit of an empty bucket leaves no bucket out.
  pub hold_emptied-IsSound : waiting h b ≡ [] → IsSoundBut b h → IsSound (hold_emptied b h)
  hold_emptied-IsSound e s c m = elim (ℕ_discrete c b) [
    | yes same ↦ rw same (waiting-hold_emptied b ∙ e)
    | no ne ↦ hold_emptied-IsSoundBut s c ne m
  ]

-- Once the emptied bucket holds nothing, the hold is sound.
pub IsSoundBut-IsSound {ℓ} :
    {A : Type ℓ} (b : ℕ) (h : Hold A) → waiting h b ≡ [] → IsSoundBut b h → IsSound h
IsSoundBut-IsSound b h e s c m = elim (ℕ_discrete c b) [ yes same ↦ rw same e | no ne ↦ s c ne m ]

-- The outcome of taking `x`, the oldest item of bucket `b`, where `xs` waits behind it: the others
-- are as they were, no bucket is left out, and the hold is lighter by the item.
pub record Takes {ℓ} {A : Type ℓ} (buckets b : ℕ) (x : A) (xs : List A) (h h' : Hold A)
    : Type ℓ where
  pub formed : IsFormed buckets h'
  pub rest : waiting h' b ≡ xs
  pub others : (c : ℕ) → c ≢ b → waiting h' c ≡ waiting h c
  pub sound : IsSound h'
  pub lighter : (w : ℕ → A → ℕ) → total w 0 h'.queues + w b x ≡ total w 0 h.queues

-- `pop(); if (empty()) holdEmptied(d, b);`
module _ {ℓ} {A : Type ℓ} {buckets : ℕ} (b : ℕ) (x : A) (xs : List A) (h : Hold A)
    (v : IsFormed buckets h) (s : IsSound h) (lt : b < buckets) (e : waiting h b ≡ x ∷ xs) where
  popped : IsFormed buckets (hold_pop b h)
  popped = hold_pop-IsFormed b x xs h v lt e

  sound_popped : IsSoundBut b (hold_pop b h)
  sound_popped = hold_pop-IsSoundBut b x xs h v lt e (λ c ne m. s c m)

  drained :
      (f : Fifo.IsValid (queue (hold_pop b h) b))
      → is_empty (queue (hold_pop b h) b) ≡ true
      → Takes buckets b x xs h (hold_emptied b (hold_pop b h))
  drained f t = record {
    formed = hold_emptied-IsFormed b (hold_pop b h) popped lt;
    rest =
        waiting-hold_emptied b (hold_pop b h) popped lt b ∙ waiting-hold_pop_self b x xs h v lt e;
    others = λ c ne.
        waiting-hold_emptied b (hold_pop b h) popped lt c
        ∙ waiting-hold_pop_ne b x xs h v lt e c ne;
    sound = hold_emptied-IsSound b (hold_pop b h) popped lt ((is_empty_iff _ f).0 t) sound_popped;
    lighter = unfold hold_emptied in total-hold_pop b x xs h v lt e;
  }

  -- The bit of a bucket that held something is set, and a pop leaves the bits alone.
  kept : Takes buckets b x xs h (hold_pop b h)
  kept = record {
    formed = popped;
    rest = waiting-hold_pop_self b x xs h v lt e;
    others = waiting-hold_pop_ne b x xs h v lt e;
    sound = λ c m. elim (ℕ_discrete c b) [
      | yes same ↦ cc (e, s b (subst (λ k. marked h.bits k ≡ false) same (unfold hold_pop in m)))
      | no ne ↦ sound_popped c ne m
    ];
    lighter = total-hold_pop b x xs h v lt e;
  }

  pub hold_take-Takes : Takes buckets b x xs h (hold_take b h)
  unfolding hold_take
  hold_take-Takes = elim (Bool-cases (is_empty (queue (hold_pop b h) b))) [
    | inl t ↦ rw t (drained (popped.fifo b) t)
    | inr t ↦ rw t kept
  ]
