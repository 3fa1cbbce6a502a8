-- ===== src/Combined/Admitted.antt =====
-- The number of items that a combining hold has up to a bucket.
use htram.Prelude.{
  ℕ, zero, suc, ◌+◌, ◌-◌, ◌≤◌, ◌<◌, ◌≡◌, refl, sym, ◌∙◌, subst, ℤ, pos, negsuc, leb_ℤ, List, [],
  ◌∷◌, true, false, ltb, if◌then◌else◌, length, get_or, get_or_beyond, sum_by-one, arith,
  ℕ_discrete, dec_lt,
}
use htram.Combine.{HoldOps, CombiningHold}
use htram.Combine.Cells.{Cell}
use htram.Combine.Table.{weigh}
use htram.Combine.Weigh.{
  one_of, one_of_self, cell_weight_full, cell_weight_empty, times_in, weigh_congr, slot_of,
}
use htram.Combine.Live.{counted-lt}
use htram.Combine.Valid.{entry_of, in_bucket, held, IsCounted}
use htram.Combine.Lowest.{weigh-own, Released}

-- The first buckets' counts.
abbrev pub sum_upto : List ℕ → ℕ → ℕ
sum_upto v zero = 0
sum_upto v (suc n) = sum_upto v n + get_or v n 0

-- How many buckets a threshold admits.
abbrev pub upto : ℤ → ℕ
upto (pos n) = suc n
upto (negsuc n) = 0

abbrev pub is_below : ℕ → ℕ → ℕ
is_below b n = if ltb b n then 1 else 0

is_below-zero : (b : ℕ) → is_below b 0 ≡ 0
is_below-zero b = ground arith

pub admitted_is_below : (b : ℕ) (t : ℤ) → leb_ℤ (pos b) t ≡ true → is_below b (upto t) ≡ 1
admitted_is_below b (pos n) le = ground arith
admitted_is_below b (negsuc n) le = absurd (ground arith)

pub excluded_is_below : (b : ℕ) (t : ℤ) → leb_ℤ (pos b) t ≡ false → is_below b (upto t) ≡ 0
excluded_is_below b (pos n) gt = ground arith
excluded_is_below b (negsuc n) gt = is_below-zero b

is_below-suc : (b n : ℕ) → is_below b (suc n) ≡ is_below b n + one_of n b
is_below-suc b n = ground arith

pub sum_upto-moved :
    (u v : List ℕ) (from to : ℕ) (n : ℕ)
    → ((b : ℕ) → get_or u b 0 + one_of b from ≡ get_or v b 0 + one_of b to)
    → sum_upto u n + is_below from n ≡ sum_upto v n + is_below to n
sum_upto-moved u v from to zero moves = omega (arith, is_below-zero from, is_below-zero to)
sum_upto-moved u v from to (suc n) moves =
    omega
      (arith, sum_upto-moved u v from to n moves, moves n, is_below-suc from n, is_below-suc to n)

pub sum_upto-grown :
    (u v : List ℕ) (to : ℕ) (n : ℕ)
    → ((b : ℕ) → get_or u b 0 ≡ get_or v b 0 + one_of b to)
    → sum_upto u n ≡ sum_upto v n + is_below to n
sum_upto-grown u v to zero grows = omega (arith, is_below-zero to)
sum_upto-grown u v to (suc n) grows =
    omega (arith, sum_upto-grown u v to n grows, grows n, is_below-suc to n)

-- Lists that agree from a bucket on differ below it.
sum_upto-tail :
    (u v : List ℕ) (m n : ℕ)
    → m ≤ n
    → ((b : ℕ) → m ≤ b → get_or u b 0 ≡ get_or v b 0)
    → sum_upto u n + sum_upto v m ≡ sum_upto v n + sum_upto u m
sum_upto-tail u v m n le same = elim (ℕ_discrete m n) [
  | yes e ↦
      subst (λ i. sum_upto u n + sum_upto v i ≡ sum_upto v n + sum_upto u i) (sym e) (omega arith)
  | no ne ↦ longer_tail u v m n (omega (arith, le, ne)) same
]
  where
    longer_tail :
        (u v : List ℕ) (m n : ℕ)
        → m < n
        → ((b : ℕ) → m ≤ b → get_or u b 0 ≡ get_or v b 0)
        → sum_upto u n + sum_upto v m ≡ sum_upto v n + sum_upto u m
    longer_tail u v m zero lt same = absurd (omega arith)
    longer_tail u v m (suc n) lt same = elim (ℕ_discrete m n) [
      | yes e ↦
          subst (λ i. sum_upto u (suc n) + sum_upto v i ≡ sum_upto v (suc n) + sum_upto u i) (sym e)
            (omega (arith, same n (omega (arith, e))))
      | no ne ↦
          omega (arith, longer_tail u v m n (omega (arith, lt, ne)) same, same n (omega arith))
    ]

pub sum_upto-none : (v : List ℕ) (n : ℕ) → ((b : ℕ) → b < n → get_or v b 0 ≡ 0) → sum_upto v n ≡ 0
sum_upto-none v zero none = refl
sum_upto-none v (suc n) none =
    omega (arith, none n (omega arith), sum_upto-none v n (λ b lt. none b (omega arith)))

pub sum_upto-zero : (v : List ℕ) (n b : ℕ) → sum_upto v n ≡ 0 → b < n → get_or v b 0 ≡ 0
sum_upto-zero v zero b none lt = absurd (omega arith)
sum_upto-zero v (suc n) b none lt = elim (ℕ_discrete b n) [
  | yes e ↦ subst (λ i. get_or v i 0 ≡ 0) (sym e) (omega (arith, none))
  | no ne ↦ sum_upto-zero v n b (omega (arith, none)) (omega (arith, lt, ne))
]

weigh-plus :
    (f g h : ℕ → ℕ) (cells : List Cell)
    → ((s : ℕ) → h s ≡ f s + g s)
    → weigh h cells ≡ weigh f cells + weigh g cells
weigh-plus f g h [] sum = refl
weigh-plus f g h (c ∷ cells) sum = elim (ℕ_discrete c.entry 0) [
  | yes e ↦ omega (
    arith,
    weigh-plus f g h cells sum,
    cell_weight_empty f c e,
    cell_weight_empty g c e,
    cell_weight_empty h c e,
  )
  | no ne ↦ omega (
    arith,
    weigh-plus f g h cells sum,
    cell_weight_full f c ne,
    cell_weight_full g c ne,
    cell_weight_full h c ne,
    sum c.entry,
  )
]

weigh-zero : (cells : List Cell) → weigh (λ s. 0) cells ≡ 0
weigh-zero [] = refl
weigh-zero (c ∷ cells) = let rest = weigh-zero cells in ground arith

module _ {A : Type 0} (ops : HoldOps A) (buckets : ℕ) where
  below_weight :
      (c : CombiningHold A) (v : IsCounted ops buckets c) (n : ℕ)
      → sum_upto c.live n ≡ weigh (λ s. is_below (entry_of ops c.pool s).bucket n) c.cells
  below_weight c v zero = sym (
      weigh_congr (λ s. is_below (entry_of ops c.pool s).bucket 0) (λ s. 0) c.cells
        (λ s here. is_below-zero (entry_of ops c.pool s).bucket)
      ∙ weigh-zero c.cells)
  below_weight c v (suc n) = omega (
    arith,
    below_weight c v n,
    v.exact n,
    weigh-plus (λ s. is_below (entry_of ops c.pool s).bucket n) (in_bucket ops c.pool n)
        (λ s. is_below (entry_of ops c.pool s).bucket (suc n)) c.cells
        (λ s. is_below-suc (entry_of ops c.pool s).bucket n),
  )

  -- The counts of all buckets are the items held.
  sum_upto-held :
      (c : CombiningHold A)
      → IsCounted ops buckets c
      → sum_upto c.live buckets ≡ held ops (λ x. 1) c
  sum_upto-held c v =
      below_weight c v buckets
      ∙ weigh_congr (λ s. is_below (entry_of ops c.pool s).bucket buckets) (λ s. 1) c.cells
          (λ s here.
            let b = (entry_of ops c.pool s).bucket in
            let (j, st) = slot_of c.cells s here in
            let back : s ≡ suc (s - 1) = omega (arith, st.some) in
            let own : 0 < weigh (in_bucket ops c.pool b) c.cells =
              weigh-own (in_bucket ops c.pool b) c.cells (s - 1)
                (subst (λ t. 0 < times_in t c.cells) back here)
                (subst (λ t. 0 < in_bucket ops c.pool b t) back
                  (omega (arith, one_of_self b b refl))) in
            let lt : b < buckets =
              omega (arith, counted-lt c.live b (omega (arith, own, v.exact b)), v.lanes) in
            ground (arith, lt))

  -- `release` up to a threshold takes its items from the admitted ones.
  pub sum_upto-release :
      (high : ℤ) (limit : ℕ) (c c' : CombiningHold A) (out : List A)
      → IsCounted ops buckets c
      → Released ops buckets high limit c c' out
      → sum_upto c'.live (upto high) + length out ≡ sum_upto c.live (upto high)
  sum_upto-release high limit c c' out v r =
      let total : sum_upto c'.live buckets + length out ≡ sum_upto c.live buckets = omega (
        arith,
        sum_upto-held c v,
        sum_upto-held c' r.valid.counts,
        r.items (λ x. 1),
        sum_by-one out,
      ) in
      let u = upto high in
      let beyond : (b : ℕ) → u ≤ b → get_or c'.live b 0 ≡ get_or c.live b 0 =
        λ b le. r.above b (past high b le) in
      elim (dec_lt buckets u) [
        | no ge ↦
            omega (arith, total, sum_upto-tail c'.live c.live u buckets (omega (arith, ge)) beyond)
        | yes lt ↦ omega (
          arith,
          total,
          sum_upto-tail c'.live c.live buckets u (omega (arith, lt)) (λ b le.
              get_or_beyond c'.live b 0 (omega (arith, le, r.valid.counts.lanes))
              ∙ sym (get_or_beyond c.live b 0 (omega (arith, le, v.lanes)))),
        )
      ]
    where
      past : (high : ℤ) (b : ℕ) → upto high ≤ b → leb_ℤ (pos b) high ≡ false
      past (pos n) b le = ground arith
      past (negsuc n) b le = ground arith
