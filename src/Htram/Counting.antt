-- ===== src/Htram/Counting.antt =====
-- How many items of a destination's hold are at or below a threshold, while a loop over the buckets
-- is on its way: what changeThreshold, admittedDrift and pendingItems rest on.
use htram.Prelude.{
  ℕ, suc, ◌+◌, ◌≤◌, ◌<◌, ◌≡◌, ◌≢◌, sym, ℤ, pos, negsuc, leb_ℤ, ltb_ℤ, [], Bool, true, false, some,
  ltb, ◌⊎◌, inl, inr, arith, dec_lt,
}
use htram.HoldQueue.{size}
use htram.HoldBits.Marked.{marked}
use htram.HoldBits.Next.{Finds}
use htram.Hold.{Hold, queue}
use htram.Hold.Measure.{total, total_congr, admitted}
use htram.Hold.Valid.{IsFormed, IsSound, waiting, unmarked_of}
use htram.Hold.Staged.{same_weight, by_bucket, staged, total_agree, total_more}
use htram.Message.{next}
use htram.Port.{Port}
use htram.Flush.{first_above}

-- The buckets below `m`.
abbrev pub below : ℕ → ℕ → Bool
below m b = ltb b m

pub at_most : (t : ℤ) (b : ℕ) → leb_ℤ (pos b) t ≡ below (first_above t) b
at_most (pos t) b = ground arith
at_most (negsuc t) b = ground arith

pub first_above-up : (t u : ℤ) → ltb_ℤ t u ≡ true → first_above t ≤ first_above u
first_above-up (pos t) (pos u) h = ground arith
first_above-up (pos t) (negsuc u) h = ground arith
first_above-up (negsuc t) u h = omega arith

pub first_above-down : (t u : ℤ) → ltb_ℤ t u ≡ false → first_above u ≤ first_above t
first_above-down (pos t) (pos u) h = ground arith
first_above-down (negsuc t) (pos u) h = ground arith
first_above-down t (negsuc u) h = omega arith

module _ {A : Type 0} (buckets : ℕ) (o m : ℕ) (p : Port A) (f : IsFormed buckets p.hold)
    (sound : IsSound p.hold) where
  -- Only the counter has changed, and it counts the buckets below `from` by the new threshold.
  pub record Counted (from : ℕ) (q : Port A) : Type 0 where
    pub hold : q.hold ≡ p.hold
    pub msg : q.msg ≡ p.msg
    pub sent : q.sent ≡ p.sent
    pub exact :
        q.updates
        ≡ pos (next p.msg + total (by_bucket (staged (below m) (below o) from)) 0 p.hold.queues)

  -- Of the buckets from `from` to the one found, only that one can hold something.
  between :
      (from i : ℕ)
      → Finds (marked p.hold.bits) from (some i)
      → (b : ℕ) → b ≢ i
      → (staged (below m) (below o) (suc i) b ≡ staged (below m) (below o) from b)
        ⊎ (waiting p.hold b ≡ [])
  between from i found b ne = elim (dec_lt b from) [
    | yes lt ↦ inl (ground arith)
    | no ge ↦ elim (dec_lt b i) [
      | yes lt ↦ inr (sound b (found.2 b (omega arith) lt))
      | no past ↦
          let far : suc i ≤ b = elim (dec_lt i b) [
            | yes l ↦ omega arith
            | no g ↦ absurd (ne (omega arith))
          ] in
          inl (ground arith)
    ]
  ]

  pub count_up :
      (from i : ℕ)
      → Finds (marked p.hold.bits) from (some i)
      → o ≤ from
      → i < m
      → total (by_bucket (staged (below m) (below o) (suc i))) 0 p.hold.queues
        ≡ total (by_bucket (staged (below m) (below o) from)) 0 p.hold.queues
          + size (queue p.hold i)
  count_up from i found start lt =
      total_more p.hold f _ _ i (f.inside i found.1) (ground arith)
        (let le = found.0 in ground arith) (between from i found)

  pub count_down :
      (from i : ℕ)
      → Finds (marked p.hold.bits) from (some i)
      → m ≤ from
      → i < o
      → total (by_bucket (staged (below m) (below o) from)) 0 p.hold.queues
        ≡ total (by_bucket (staged (below m) (below o) (suc i))) 0 p.hold.queues
          + size (queue p.hold i)
  count_down from i found start lt =
      total_more p.hold f _ _ i (f.inside i found.1) (let le = found.0 in ground arith)
        (let le = found.0 in ground arith)
        (λ b ne. elim (between from i found b ne) [ inl e ↦ inl (sym e) | inr e ↦ inr e ])

  -- Where the loop stops, what is left to look at is counted the same or holds nothing.
  pub count_stop :
      (from i : ℕ)
      → Finds (marked p.hold.bits) from (some i)
      → m ≤ i
      → o ≤ i
      → total (by_bucket (staged (below m) (below o) from)) 0 p.hold.queues
        ≡ total (by_bucket (below m)) 0 p.hold.queues
  count_stop from i found hm ho = total_agree p.hold f _ _ λ b. elim (dec_lt b from) [
    | yes lt ↦ inl (ground arith)
    | no ge ↦ elim (dec_lt b i) [
      | yes lt ↦ inr (sound b (found.2 b (omega arith) lt))
      | no past ↦ inl (ground arith)
    ]
  ]

  pub count_done :
      (from : ℕ)
      → ((j : ℕ) → from ≤ j → j < buckets → marked p.hold.bits j ≡ false)
      → total (by_bucket (staged (below m) (below o) from)) 0 p.hold.queues
        ≡ total (by_bucket (below m)) 0 p.hold.queues
  count_done from clear = total_agree p.hold f _ _ λ b. elim (dec_lt b from) [
    | yes lt ↦ inl (ground arith)
    | no ge ↦ inr (sound b (unmarked_of f b (λ l. clear b (omega arith) l)))
  ]

  pub count_start :
      (from : ℕ)
      → from ≤ m
      → from ≤ o
      → total (by_bucket (below o)) 0 p.hold.queues
        ≡ total (by_bucket (staged (below m) (below o) from)) 0 p.hold.queues
  count_start from hm ho = total_agree p.hold f _ _ λ b. inl (ground arith)

module _ {A : Type 0} where
  pub admitted_below :
      (t : ℤ) (h : Hold A) → admitted t h ≡ total (by_bucket (below (first_above t))) 0 h.queues
  unfolding admitted
  admitted_below t h =
      total_congr _ _ h.queues 0
        λ i k e. same_weight (λ b. leb_ℤ (pos b) t) (below (first_above t)) k _ (at_most t k)
