-- ===== src/Combine/Live.antt =====
-- The live counts of the buckets, raised and lowered by one.
use htram.Prelude.{
  ℕ, ◌+◌, ◌-◌, ◌<◌, ◌≡◌, refl, sym, subst, List, length, get_or, get_or-set_self, get_or-set_ne,
  get_or_beyond, arith, ℕ_discrete, dec_lt,
}
use htram.Combine.{raise, lower}
use htram.Combine.Weigh.{one_of, one_of_self, one_of_ne}

-- A count that is not zero has its bucket.
pub counted-lt : (v : List ℕ) (b : ℕ) → 0 < get_or v b 0 → b < length v
counted-lt v b some = elim (dec_lt b (length v)) [
  | yes lt ↦ lt
  | no ge ↦ absurd (omega (arith, some, get_or_beyond v b 0 (omega arith)))
]

pub get_or-raise :
    (v : List ℕ) (b i : ℕ) → b < length v → get_or (raise v b) i 0 ≡ get_or v i 0 + one_of i b
get_or-raise v b i lt = elim (ℕ_discrete i b) [
  | yes e ↦
      subst (λ j. get_or (raise v b) j 0 ≡ get_or v j 0 + one_of j b) (sym e)
        (omega (arith, get_or-set_self v b (get_or v b 0 + 1) 0 lt, one_of_self b b refl))
  | no ne ↦ omega (
    arith,
    get_or-set_ne v b i (get_or v b 0 + 1) 0 (λ d. ne (sym d)),
    one_of_ne i b (λ d. ne (sym d)),
  )
]

pub get_or-lower :
    (v : List ℕ) (b i : ℕ) → 0 < get_or v b 0 → get_or (lower v b) i 0 + one_of i b ≡ get_or v i 0
get_or-lower v b i some = elim (ℕ_discrete i b) [
  | yes e ↦
      subst (λ j. get_or (lower v b) j 0 + one_of j b ≡ get_or v j 0) (sym e)
        (omega (
          arith,
          get_or-set_self v b (get_or v b 0 - 1) 0 (counted-lt v b some),
          one_of_self b b refl,
          some,
        ))
  | no ne ↦ omega (
    arith,
    get_or-set_ne v b i (get_or v b 0 - 1) 0 (λ d. ne (sym d)),
    one_of_ne i b (λ d. ne (sym d)),
  )
]
