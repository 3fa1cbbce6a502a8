-- ===== src/Receive/Counts.antt =====
-- The counting passes of HTramRecv::receive.
use htram.Prelude.{
  ℕ, zero, suc, ◌+◌, ◌≤◌, ◌<◌, ◌≡◌, ◌≢◌, refl, ap, subst, ◌∙◌, List, [], ◌∷◌, ◌==◌, if◌then◌else◌,
  length, get_or, length-set, get_or-set_self, get_or-set_ne, sum_by, All, arith, ℕ_discrete,
}
use htram.Receive.{bump, tally, starts, ends}

-- How often a rank occurs.
abbrev pub count : ℕ → List ℕ → ℕ
count r [] = 0
count r (q ∷ rs) = (if q == r then 1 else 0) + count r rs

pub count-hit : (q r : ℕ) (rs : List ℕ) → q ≡ r → count r (q ∷ rs) ≡ suc (count r rs)
count-hit q r rs e = ground arith

pub count-miss : (q r : ℕ) (rs : List ℕ) → q ≢ r → count r (q ∷ rs) ≡ count r rs
count-miss q r rs ne = ground arith

-- The sum of the first ones.
abbrev pub upto : ℕ → List ℕ → ℕ
upto zero ns = 0
upto (suc r) [] = 0
upto (suc r) (n ∷ ns) = n + upto r ns

pub length-bump : (v : List ℕ) (i : ℕ) → length (bump v i) ≡ length v
unfolding bump
length-bump v i = length-set v i _

pub bump_self : (v : List ℕ) (i : ℕ) → i < length v → get_or (bump v i) i 0 ≡ get_or v i 0 + 1
unfolding bump
bump_self v i lt = get_or-set_self v i _ 0 lt

pub bump_ne : (v : List ℕ) (i j : ℕ) → i ≢ j → get_or (bump v i) j 0 ≡ get_or v j 0
unfolding bump
bump_ne v i j ne = get_or-set_ne v i j _ 0 ne

pub length-tally : (v rs : List ℕ) → length (tally v rs) ≡ length v
unfolding tally
length-tally v [] = refl
length-tally v (r ∷ rs) = length-tally (bump v r) rs ∙ length-bump v r

pub tally_lem :
    (v rs : List ℕ) (r : ℕ) → r < length v → get_or (tally v rs) r 0 ≡ get_or v r 0 + count r rs
unfolding tally
tally_lem v [] r lt = omega arith
tally_lem v (q ∷ rs) r lt =
    let rest = tally_lem (bump v q) rs r (omega (arith, length-bump v q)) in
    elim (ℕ_discrete q r) [
      | yes e ↦
          let more : get_or (bump v q) r 0 ≡ get_or v r 0 + 1 =
            subst (λ k. get_or (bump v q) k 0 ≡ get_or v k 0 + 1) e (bump_self v q (omega arith)) in
          omega (arith, rest, more, count-hit q r rs e)
      | no ne ↦ omega (arith, rest, bump_ne v q r ne, count-miss q r rs ne)
    ]

sum-bump :
    (v : List ℕ) (i : ℕ) → i < length v → sum_by (λ n. n) (bump v i) ≡ suc (sum_by (λ n. n) v)
unfolding bump
sum-bump [] i lt = absurd (omega arith)
sum-bump (n ∷ v) zero lt = omega arith
sum-bump (n ∷ v) (suc i) lt = omega (arith, sum-bump v i (omega arith))

-- Every item is counted once.
pub sum-tally :
    (v rs : List ℕ)
    → All (λ r. r < length v) rs
    → sum_by (λ n. n) (tally v rs) ≡ sum_by (λ n. n) v + length rs
unfolding tally
sum-tally v [] inside = omega arith
sum-tally v (r ∷ rs) inside =
    omega (arith, sum-tally (bump v r) rs (rw (length-bump v r) (inside.1)), sum-bump v r inside.0)

pub length-starts : (from : ℕ) (ns : List ℕ) → length (starts from ns) ≡ length ns
unfolding starts
length-starts from [] = refl
length-starts from (n ∷ ns) = ap suc (length-starts (from + n) ns)

pub starts_lem :
    (from r : ℕ) (ns : List ℕ) → r < length ns → get_or (starts from ns) r 0 ≡ from + upto r ns
unfolding starts
starts_lem from r [] lt = absurd (omega arith)
starts_lem from zero (n ∷ ns) lt = omega arith
starts_lem from (suc r) (n ∷ ns) lt = omega (arith, starts_lem (from + n) r ns (omega arith))

pub ends_lem :
    (from r : ℕ) (ns : List ℕ) → r < length ns → get_or (ends from ns) r 0 ≡ from + upto (suc r) ns
unfolding ends
ends_lem from r [] lt = absurd (omega arith)
ends_lem from zero (n ∷ ns) lt = omega arith
ends_lem from (suc r) (n ∷ ns) lt = omega (arith, ends_lem (from + n) r ns (omega arith))

pub upto-suc : (r : ℕ) (ns : List ℕ) → upto (suc r) ns ≡ upto r ns + get_or ns r 0
upto-suc zero [] = omega arith
upto-suc zero (n ∷ ns) = omega arith
upto-suc (suc r) [] = omega arith
upto-suc (suc r) (n ∷ ns) = omega (arith, upto-suc r ns)

-- A rank's part ends where the next one begins, or before.
pub upto_le : (r q : ℕ) (ns : List ℕ) → r < q → upto r ns + get_or ns r 0 ≤ upto q ns
upto_le r zero ns lt = absurd (omega arith)
upto_le zero (suc q) [] lt = omega arith
upto_le (suc r) (suc q) [] lt = omega arith
upto_le zero (suc q) (n ∷ ns) lt = omega arith
upto_le (suc r) (suc q) (n ∷ ns) lt = omega (arith, upto_le r q ns (omega arith))

pub upto_sum : (r : ℕ) (ns : List ℕ) → upto r ns + get_or ns r 0 ≤ sum_by (λ n. n) ns
upto_sum zero [] = omega arith
upto_sum (suc r) [] = omega arith
upto_sum zero (n ∷ ns) = omega arith
upto_sum (suc r) (n ∷ ns) = omega (arith, upto_sum r ns)
