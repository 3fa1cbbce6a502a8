-- ===== src/Hold/Push.antt =====
-- holdPush: the item joins the end of its bucket's queue, and the bucket's bit is set.
use htram.Prelude.{
  ℕ, ◌+◌, ◌<◌, ◌≡◌, ◌≢◌, ap, ◌∙◌, [], ◌∷◌, ◌++◌, true, ◌==◌, if◌then◌else◌, length, length-set,
  sum_by, sum_by-append, arith, ℕ_discrete,
}
use htram.HoldQueue.{push, to_list}
use htram.HoldQueue.Fifo.{push-IsValid, to_list-push}
use htram.HoldBits.Marked.{marked, mark-IsShaped, marked-mark}
use htram.Hold.{Hold, queue, hold_push}
use htram.Hold.Measure.{total}
use htram.Hold.Valid.{
  IsFormed, IsSound, waiting, replaced, queue-replaced_self, queue-replaced_ne, fifo-replaced,
  total-replaced,
}

module _ {ℓ} {A : Type ℓ} {buckets : ℕ} (b : ℕ) (x : A) (h : Hold A) (v : IsFormed buckets h)
    (lt : b < buckets) where
  within : b < length h.queues
  within = omega (arith, v.count)

  pub waiting-hold_push_self : waiting (hold_push b x h) b ≡ waiting h b ++ x ∷ []
  unfolding hold_push replaced queue
  waiting-hold_push_self =
      ap to_list (queue-replaced_self h b (push (queue h b) x) within)
      ∙ to_list-push (queue h b) x (v.fifo b)

  pub waiting-hold_push_ne : (c : ℕ) → c ≢ b → waiting (hold_push b x h) c ≡ waiting h c
  unfolding hold_push replaced queue
  waiting-hold_push_ne c ne = ap to_list (queue-replaced_ne h b c (push (queue h b) x) ne)

  marked-hold_push :
      (c : ℕ) → marked (hold_push b x h).bits c ≡ (if c == b then true else marked h.bits c)
  unfolding hold_push
  marked-hold_push c = marked-mark h.bits b c v.shaped lt

  pub hold_push-IsFormed : IsFormed buckets (hold_push b x h)
  unfolding hold_push replaced queue
  hold_push-IsFormed = record {
    count = length-set h.queues b (push (queue h b) x) ∙ v.count;
    shaped = mark-IsShaped h.bits b v.shaped;
    fifo =
        fifo-replaced h b (push (queue h b) x) within (push-IsValid (queue h b) x (v.fifo b))
          v.fifo;
    inside = λ c m. ground (arith, marked-hold_push c, v.inside c, lt);
  }

  pub hold_push-IsSound : IsSound h → IsSound (hold_push b x h)
  hold_push-IsSound s c m = elim (ℕ_discrete c b) [
    | yes e ↦ absurd (ground (arith, marked-hold_push c))
    | no ne ↦ waiting-hold_push_ne c ne ∙ s c (ground (arith, marked-hold_push c))
  ]

  -- The hold grows by the item, at its bucket's weight.
  pub total-hold_push :
      (w : ℕ → A → ℕ) → total w 0 (hold_push b x h).queues ≡ total w 0 h.queues + w b x
  unfolding hold_push replaced
  total-hold_push w = omega (
    arith,
    total-replaced w h b (push (queue h b) x) within,
    ap (sum_by (w b)) (to_list-push (queue h b) x (v.fifo b)),
    sum_by-append (w b) (waiting h b) (x ∷ []),
  )
