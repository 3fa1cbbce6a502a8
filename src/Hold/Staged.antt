-- ===== src/Hold/Staged.antt =====
-- A loop over the buckets that counts each one by a new weight instead of an old one: what is
-- counted when it is about to look for bucket `from`, and how a round changes it.
use htram.Prelude.{
  ℕ, ◌+◌, ◌<◌, ◌≡◌, ◌≢◌, refl, sym, ◌∙◌, List, [], ◌∷◌, Bool, true, false, ltb, if◌then◌else◌,
  length, sum_by, arith, inl, inr, ◌⊎◌, subst, get_or,
}
use htram.HoldQueue.{empty_queue, to_list, size}
use htram.HoldQueue.Fifo.{size-length}
use htram.Hold.{Hold, queue}
use htram.Hold.Measure.{total, total_congr, total_differ}
use htram.Hold.Valid.{IsFormed, waiting}

-- Buckets below `from` go by `new`, the others by `old`.
abbrev pub staged : (ℕ → Bool) → (ℕ → Bool) → ℕ → ℕ → Bool
staged new old from b = if ltb b from then new b else old b

module _ {ℓ} {A : Type ℓ} where
  -- Every item of a bucket weighs 1 or nothing, by a test of the bucket.
  abbrev pub by_bucket : (ℕ → Bool) → ℕ → A → ℕ
  by_bucket test b x = if test b then 1 else 0

  pub sum_by_bucket_false :
      (test : ℕ → Bool) (b : ℕ) (xs : List A) → test b ≡ false → sum_by (by_bucket test b) xs ≡ 0
  sum_by_bucket_false test b [] e = refl
  sum_by_bucket_false test b (x ∷ xs) e = omega (arith, one, sum_by_bucket_false test b xs e)
    where
      one : by_bucket test b x ≡ 0
      one = rw e

  sum_by_bucket_true :
      (test : ℕ → Bool) (b : ℕ) (xs : List A)
      → test b ≡ true
      → sum_by (by_bucket test b) xs ≡ length xs
  sum_by_bucket_true test b [] e = refl
  sum_by_bucket_true test b (x ∷ xs) e = omega (arith, one, sum_by_bucket_true test b xs e)
    where
      one : by_bucket test b x ≡ 1
      one = rw e

  -- Weights that agree at a bucket, or a bucket that holds nothing.
  pub same_weight :
      (v w : ℕ → Bool) (b : ℕ) (xs : List A)
      → v b ≡ w b
      → sum_by (by_bucket v b) xs ≡ sum_by (by_bucket w b) xs
  same_weight v w b [] e = refl
  same_weight v w b (x ∷ xs) e = omega (arith, one, same_weight v w b xs e)
    where
      one : by_bucket v b x ≡ by_bucket w b x
      one = rw e

  module _ {buckets : ℕ} (h : Hold A) (f : IsFormed buckets h) where
    agrees :
        (v w : ℕ → Bool) (k : ℕ)
        → (v k ≡ w k) ⊎ (waiting h k ≡ [])
        → sum_by (by_bucket v k) (waiting h k) ≡ sum_by (by_bucket w k) (waiting h k)
    agrees v w k (inl e) = same_weight v w k (waiting h k) e
    agrees v w k (inr e) = rw e refl

    -- Tests that agree wherever something waits weigh the hold the same.
    pub total_agree :
        (v w : ℕ → Bool)
        → ((b : ℕ) → (v b ≡ w b) ⊎ (waiting h b ≡ []))
        → total (by_bucket v) 0 h.queues ≡ total (by_bucket w) 0 h.queues
    total_agree v w agree = total_congr (by_bucket v) (by_bucket w) h.queues 0 λ i k e.
        let same : i ≡ k = omega arith in
        subst
          (λ j.
            sum_by (by_bucket v k) (to_list (get_or h.queues j empty_queue))
            ≡ sum_by (by_bucket w k) (to_list (get_or h.queues j empty_queue)))
          (sym same) (unfold queue in agrees v w k (agree k))

    -- Tests that agree but at bucket `i`, which only `v` counts.
    pub total_more :
        (v w : ℕ → Bool) (i : ℕ)
        → i < buckets
        → v i ≡ true
        → w i ≡ false
        → ((b : ℕ) → b ≢ i → (v b ≡ w b) ⊎ (waiting h b ≡ []))
        → total (by_bucket v) 0 h.queues ≡ total (by_bucket w) 0 h.queues + size (queue h i)
    total_more v w i lt on off agree =
        let grow =
          total_differ (by_bucket v) (by_bucket w) h.queues 0 i 0 (size (queue h i))
            (omega (arith, f.count))
            (λ j k e ne.
              let same : j ≡ k = omega arith in
              subst
                (λ j.
                  sum_by (by_bucket v k) (to_list (get_or h.queues j empty_queue))
                  ≡ sum_by (by_bucket w k) (to_list (get_or h.queues j empty_queue)))
                (sym same) (unfold queue in agrees v w k (agree k (λ d. ne (same ∙ d)))))
            (λ k e.
              let same : i ≡ k = omega arith in
              subst
                (λ k.
                  sum_by (by_bucket v k) (to_list (get_or h.queues i empty_queue)) + 0
                  ≡ sum_by (by_bucket w k) (to_list (get_or h.queues i empty_queue))
                    + size (queue h i))
                same (unfold queue in here)) in
        omega (arith, grow)
      where
        here :
            sum_by (by_bucket v i) (waiting h i) + 0
            ≡ sum_by (by_bucket w i) (waiting h i) + size (queue h i)
        here = omega (
          arith,
          sum_by_bucket_true v i (waiting h i) on,
          sum_by_bucket_false w i (waiting h i) off,
          size-length (queue h i),
        )
