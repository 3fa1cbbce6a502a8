-- ===== src/Hold/Sweep.antt =====
-- The rule for the loops over a destination's buckets, `for (i = holdNext(d, from); test; …)`.
use htram.Prelude.{
  ℕ, zero, suc, ◌+◌, ◌≤◌, ◌<◌, ◌≡◌, List, Option, none, some, Bool, true, false, inl, inr,
  Bool-cases, arith, dec_lt, Option-cases, subst,
}
use htram.HoldBits.Bits.{Word}
use htram.HoldBits.{hold_next}
use htram.HoldBits.Marked.{marked, IsShaped}
use htram.HoldBits.Next.{Finds, hold_next-Finds, hold_next_beyond}
use htram.Hold.{sweep}

-- `P from s` holds when the loop is about to look for the first bucket at or after `from`, and `Q`
-- follows where it stops: because no marked bucket is left, or by its test. The fuel is enough if it
-- reaches from `from` to the number of buckets, so the loop never stops for want of it.
module _ {ℓ κ} {S : Type ℓ} (buckets : ℕ) (bits : S → List Word) (test : ℕ → S → Bool)
    (body : ℕ → S → S) (P : ℕ → S → Type κ) (Q : S → Type κ)
    (shaped : (from : ℕ) (s : S) → P from s → IsShaped buckets (bits s))
    (keep : (from i : ℕ) (s : S)
      → P from s
      → Finds (marked (bits s)) from (some i)
      → test i s ≡ true
      → P (suc i) (body i s))
    (stop : (from i : ℕ) (s : S)
      → P from s
      → Finds (marked (bits s)) from (some i)
      → test i s ≡ false
      → Q s)
    (done : (from : ℕ) (s : S)
      → P from s
      → ((j : ℕ) → from ≤ j → j < buckets → marked (bits s) j ≡ false)
      → Q s) where
  past : (from : ℕ) (s : S) → buckets ≤ from → P from s → Q s
  past from s h p = done from s p (λ j le lt. absurd (omega arith))

  finds :
      (from : ℕ) (s : S) (r : Option ℕ)
      → P from s
      → from < buckets
      → hold_next buckets (bits s) from ≡ r
      → Finds (marked (bits s)) from r
  finds from s r p lt e =
      subst (Finds (marked (bits s)) from) e (hold_next-Finds (bits s) from (shaped from s p) lt)

  add_one_P : (i : ℕ) (s : S) → P (suc i) s → P (i + 1) s
  add_one_P i s p = let e : i + 1 ≡ suc i = omega arith in rw e p

  pub sweep_rule :
      (n from : ℕ) (s : S)
      → buckets ≤ n + from
      → P from s
      → Q (sweep buckets bits test body n from s)
  unfolding sweep
  sweep_rule zero from s h p = past from s (omega arith) p
  sweep_rule (suc n) from s h p = elim (dec_lt from buckets) [
    | no ge ↦
        rw (hold_next_beyond buckets (bits s) from (omega arith), sweep)
          (past from s (omega arith) p)
    | yes lt ↦ elim (Option-cases (hold_next buckets (bits s) from)) [
      | inl e ↦ rw (e, sweep) (done from s p (λ j le _. finds from s none p lt e j le))
      | inr (i, e) ↦
          rw (e, sweep)
            (elim (Bool-cases (test i s)) [
              | inl t ↦
                  let f = finds from s (some i) p lt e in
                  rw t (
                    sweep_rule n (i + 1) (body i s) (omega (arith, f.0))
                      (add_one_P i (body i s) (keep from i s p f t)))
              | inr t ↦ rw t (stop from i s p (finds from s (some i) p lt e) t)
            ])
    ]
  ]
