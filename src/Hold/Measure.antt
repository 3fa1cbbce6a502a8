-- ===== src/Hold/Measure.antt =====
-- How much a destination's hold holds, under a weight for each bucket and item.
use htram.Prelude.{
  ℕ, zero, suc, ◌+◌, ◌<◌, ◌≡◌, ◌≢◌, refl, List, [], ◌∷◌, ℤ, pos, leb_ℤ, if◌then◌else◌, get_or, set,
  length, sum_by, arith,
}
use htram.HoldQueue.{HoldQueue, empty_queue, to_list}
use htram.Hold.{Hold}

module _ {ℓ} {A : Type ℓ} where
  -- The queues are those of the buckets from `b` on.
  unfoldable pub total : (ℕ → A → ℕ) → ℕ → List (HoldQueue A) → ℕ
  total w b [] = 0
  total w b (q ∷ qs) = sum_by (w b) (to_list q) + total w (suc b) qs

  -- Everything in the hold.
  unfoldable pub held : (A → ℕ) → Hold A → ℕ
  held w h = total (λ b. w) 0 h.queues

  -- An item counts as admitted if its bucket is at or below the threshold.
  abbrev pub admits : ℤ → ℕ → A → ℕ
  admits t b x = if leb_ℤ (pos b) t then 1 else 0

  -- The number of admitted items.
  unfoldable pub admitted : ℤ → Hold A → ℕ
  admitted t h = total (admits t) 0 h.queues

  -- Changing one queue.
  pub total-set :
      (w : ℕ → A → ℕ) (qs : List (HoldQueue A)) (b i k : ℕ) (q : HoldQueue A)
      → i < length qs
      → k ≡ b + i
      → total w b (set qs i q) + sum_by (w k) (to_list (get_or qs i empty_queue))
        ≡ total w b qs + sum_by (w k) (to_list q)
  unfolding total
  total-set w [] b i k q h e = absurd (omega arith)
  total-set w (x ∷ qs) b zero k q h e = let same : k ≡ b = omega arith in rw same (omega arith)
  total-set w (x ∷ qs) b (suc i) k q h e =
      omega (arith, total-set w qs (suc b) i k q (omega arith) (omega arith))

  pub total_congr :
      (v w : ℕ → A → ℕ) (qs : List (HoldQueue A)) (b : ℕ)
      → ((i k : ℕ)
          → k ≡ b + i
          → sum_by (v k) (to_list (get_or qs i empty_queue))
            ≡ sum_by (w k) (to_list (get_or qs i empty_queue)))
      → total v b qs ≡ total w b qs
  unfolding total
  total_congr v w [] b h = refl
  total_congr v w (q ∷ qs) b h =
      omega (
        arith,
        h 0 b (omega arith),
        total_congr v w qs (suc b) (λ i k e. h (suc i) k (omega arith)),
      )

  -- Queues that weigh nothing one by one weigh nothing together.
  pub total-zero :
      (w : ℕ → A → ℕ) (qs : List (HoldQueue A)) (b : ℕ)
      → ((i k : ℕ) → k ≡ b + i → sum_by (w k) (to_list (get_or qs i empty_queue)) ≡ 0)
      → total w b qs ≡ 0
  unfolding total
  total-zero w [] b h = refl
  total-zero w (q ∷ qs) b h =
      omega
        (arith, h 0 b (omega arith), total-zero w qs (suc b) (λ i k e. h (suc i) k (omega arith)))

  -- Two weightings that differ on one queue alone.
  pub total_differ :
      (v w : ℕ → A → ℕ) (qs : List (HoldQueue A)) (b i m n : ℕ)
      → i < length qs
      → ((j k : ℕ)
          → k ≡ b + j
          → j ≢ i
          → sum_by (v k) (to_list (get_or qs j empty_queue))
            ≡ sum_by (w k) (to_list (get_or qs j empty_queue)))
      → ((k : ℕ)
          → k ≡ b + i
          → sum_by (v k) (to_list (get_or qs i empty_queue)) + m
            ≡ sum_by (w k) (to_list (get_or qs i empty_queue)) + n)
      → total v b qs + m ≡ total w b qs + n
  unfolding total
  total_differ v w [] b i m n lt ne eq = absurd (omega arith)
  total_differ v w (q ∷ qs) b zero m n lt ne eq = omega (
    arith,
    eq b (omega arith),
    total_congr v w qs (suc b) (λ j k e. ne (suc j) k (omega arith) (omega arith)),
  )
  total_differ v w (q ∷ qs) b (suc i) m n lt ne eq = omega (
    arith,
    ne 0 b (omega arith) (omega arith),
    total_differ v w qs (suc b) i m n (omega arith)
        (λ j k e d. ne (suc j) k (omega arith) (omega arith)) (λ k e. eq k (omega arith)),
  )

  -- Queues that weigh nothing together weigh nothing one by one.
  pub zero-total :
      (w : ℕ → A → ℕ) (qs : List (HoldQueue A)) (b i k : ℕ)
      → i < length qs
      → k ≡ b + i
      → total w b qs ≡ 0
      → sum_by (w k) (to_list (get_or qs i empty_queue)) ≡ 0
  unfolding total
  zero-total w [] b i k lt e h = absurd (omega arith)
  zero-total w (q ∷ qs) b zero k lt e h = let same : k ≡ b = omega arith in rw same (omega arith)
  zero-total w (q ∷ qs) b (suc i) k lt e h =
      zero-total w qs (suc b) i k (omega arith) (omega arith) (omega arith)
