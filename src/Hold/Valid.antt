-- ===== src/Hold/Valid.antt =====
-- The representation invariant of a destination's hold, and what each piece of it changes.
use htram.Prelude.{
  inl, inr, Bool-cases, ℕ, zero, suc, ◌+◌, ◌<◌, ◌≡◌, ◌≢◌, refl, sym, ap, ◌∙◌, List, [], true, false,
  get_or, set, replicate, length, length-replicate, get_or-set_self, get_or-set_ne, All-get_or,
  All-replicate, sum_by, arith, ℕ_discrete,
}
use htram.HoldQueue.{HoldQueue, empty_queue, to_list}
use htram.HoldQueue.Fifo
use htram.HoldQueue.Fifo.{
  empty_queue-IsValid, to_list-empty_queue, push-IsValid, to_list-push, pop_lem, is_empty_iff,
}
use htram.HoldBits.Marked.{marked, IsShaped, no_bits-IsShaped, marked-no_bits}
use htram.Hold.{Hold, empty_hold, queue}
use htram.Hold.Measure.{total, total-set}

-- The items that wait in bucket `b`, oldest first.
abbrev pub waiting {ℓ} : {A : Type ℓ} → Hold A → ℕ → List A
waiting h b = to_list (queue h b)

-- One queue for each bucket, as many words as the buckets need, and no bit past the last bucket.
pub record IsFormed {ℓ} {A : Type ℓ} (buckets : ℕ) (h : Hold A) : Type ℓ where
  pub count : length h.queues ≡ buckets
  pub shaped : IsShaped buckets h.bits
  pub fifo : (b : ℕ) → Fifo.IsValid (queue h b)
  pub inside : (b : ℕ) → marked h.bits b ≡ true → b < buckets

-- A bit that is clear wherever there is a bucket is clear.
pub unmarked_of {ℓ} :
    {A : Type ℓ} {buckets : ℕ} {h : Hold A}
    → IsFormed buckets h
    → (b : ℕ) → (b < buckets → marked h.bits b ≡ false)
    → marked h.bits b ≡ false
unmarked_of {h = h} v b f = elim (Bool-cases (marked h.bits b)) [
  | inl t ↦ f (v.inside b t)
  | inr e ↦ e
]

-- A bucket whose bit is clear holds nothing, but for the one that a drain is emptying.
abbrev pub IsSoundBut {ℓ} : {A : Type ℓ} → ℕ → Hold A → Type ℓ
IsSoundBut b h = (c : ℕ) → c ≢ b → marked h.bits c ≡ false → waiting h c ≡ []

abbrev pub IsSound {ℓ} : {A : Type ℓ} → Hold A → Type ℓ
IsSound h = (c : ℕ) → marked h.bits c ≡ false → waiting h c ≡ []

pub empty_hold-IsFormed {ℓ} :
    (A : Type ℓ) (buckets : ℕ) → IsFormed buckets (empty_hold {A = A} buckets)
unfolding empty_hold queue
empty_hold-IsFormed A buckets = record {
  count = length-replicate buckets empty_queue;
  shaped = no_bits-IsShaped buckets;
  fifo = λ b.
      All-get_or Fifo.IsValid (replicate buckets empty_queue) b empty_queue
        (All-replicate Fifo.IsValid buckets empty_queue (empty_queue-IsValid A))
        (empty_queue-IsValid A);
  inside = λ b m. cc (marked-no_bits buckets b);
}

get_or-replicate {ℓ} : {A : Type ℓ} (a : A) (n i : ℕ) → get_or (replicate n a) i a ≡ a
get_or-replicate a zero i = refl
get_or-replicate a (suc n) zero = refl
get_or-replicate a (suc n) (suc i) = get_or-replicate a n i

pub waiting-empty_hold {ℓ} :
    (A : Type ℓ) (buckets b : ℕ) → waiting (empty_hold {A = A} buckets) b ≡ []
unfolding empty_hold queue
waiting-empty_hold A buckets b =
    ap to_list (get_or-replicate empty_queue buckets b) ∙ to_list-empty_queue A

module _ {ℓ} {A : Type ℓ} where
  -- A queue replaced, the bits as they may.
  unfoldable pub replaced : Hold A → ℕ → HoldQueue A → Hold A
  replaced h b q = record h { queues = set h.queues b q }

  pub queue-replaced_self :
      (h : Hold A) (b : ℕ) (q : HoldQueue A) → b < length h.queues → queue (replaced h b q) b ≡ q
  unfolding queue replaced
  queue-replaced_self h b q lt = get_or-set_self h.queues b q empty_queue lt

  pub queue-replaced_ne :
      (h : Hold A) (b c : ℕ) (q : HoldQueue A) → c ≢ b → queue (replaced h b q) c ≡ queue h c
  unfolding queue replaced
  queue-replaced_ne h b c q ne = get_or-set_ne h.queues b c q empty_queue (λ e. ne (sym e))

  pub fifo-replaced :
      (h : Hold A) (b : ℕ) (q : HoldQueue A)
      → b < length h.queues
      → Fifo.IsValid q
      → ((c : ℕ) → Fifo.IsValid (queue h c))
      → (c : ℕ) → Fifo.IsValid (queue (replaced h b q) c)
  fifo-replaced h b q lt vq v c = elim (ℕ_discrete c b) [
    | yes e ↦ rw (e, queue-replaced_self h b q lt) vq
    | no ne ↦ rw (queue-replaced_ne h b c q ne) (v c)
  ]

  pub total-replaced :
      (w : ℕ → A → ℕ) (h : Hold A) (b : ℕ) (q : HoldQueue A)
      → b < length h.queues
      → total w 0 (replaced h b q).queues + sum_by (w b) (waiting h b)
        ≡ total w 0 h.queues + sum_by (w b) (to_list q)
  unfolding queue replaced
  total-replaced w h b q lt = total-set w h.queues 0 b b q lt (omega arith)
