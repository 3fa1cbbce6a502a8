-- ===== src/Pack/Digits.antt =====
-- The bits of a word whose low digits were left free.
use Prim.Native.Nat.{bit_and, bit_or, digits, bit_and-bitwise, bit_or-bitwise}
use htram.Prelude.{ℕ, zero, suc, ◌+◌, ◌*◌, ◌/◌, ◌%◌, ◌≤◌, min, max, ◌≡◌, refl, ap, ◌∙◌, arith}

-- The operations on digits do not depend on the count that they run on.
digits_enough :
    (z : ℕ → ℕ) (f : ℕ → ℕ → ℕ) (n m a b : ℕ) → a ≤ n → a ≤ m → digits z f n a b ≡ digits z f m a b
digits_enough z f zero zero a b p q = refl
digits_enough z f zero (suc m) zero b p q = refl
digits_enough z f zero (suc m) (suc a) b p q = absurd (omega arith)
digits_enough z f (suc n) zero zero b p q = refl
digits_enough z f (suc n) zero (suc a) b p q = absurd (omega arith)
digits_enough z f (suc n) (suc m) zero b p q = refl
digits_enough z f (suc n) (suc m) (suc a) b p q =
    ap (λ d. d * 2 + f (suc a % 2) (b % 2))
      (digits_enough z f n m (suc a / 2) (b / 2) (omega arith) (omega arith))

and_nothing : (b : ℕ) → bit_and 0 b ≡ 0
and_nothing b = bit_and-bitwise 0 b

or_nothing : (b : ℕ) → bit_or 0 b ≡ b
or_nothing b = bit_or-bitwise 0 b

and_halves : (a b : ℕ) → bit_and a b ≡ bit_and (a / 2) (b / 2) * 2 + min (a % 2) (b % 2)
and_halves zero b = omega (arith, and_nothing b, and_nothing (b / 2))
and_halves (suc a) b =
    let same =
      digits_enough (λ d. zero) min a (suc a / 2) (suc a / 2) (b / 2) (omega arith) (omega arith) in
    omega (arith, bit_and-bitwise (suc a) b, bit_and-bitwise (suc a / 2) (b / 2), same)

or_halves : (a b : ℕ) → bit_or a b ≡ bit_or (a / 2) (b / 2) * 2 + max (a % 2) (b % 2)
or_halves zero b = omega (arith, or_nothing b, or_nothing (b / 2))
or_halves (suc a) b =
    let same =
      digits_enough (λ d. d) max a (suc a / 2) (suc a / 2) (b / 2) (omega arith) (omega arith) in
    omega (arith, bit_or-bitwise (suc a) b, bit_or-bitwise (suc a / 2) (b / 2), same)

none_below : (n a : ℕ) → a ≤ n → (bit_or a 0 ≡ a) × (bit_and a 0 ≡ 0)
none_below n zero h = (refl, refl)
none_below zero (suc a) h = absurd (omega arith)
none_below (suc n) (suc a) h =
    let (o, d) = none_below n (suc a / 2) (omega arith) in
    (omega (arith, or_halves (suc a) 0, o), omega (arith, and_halves (suc a) 0, d))

-- `l << k`, 2^k, and the word of k ones.
abbrev pub shifted : ℕ → ℕ → ℕ
shifted zero l = l
shifted (suc k) l = 2 * shifted k l

abbrev pub ones : ℕ → ℕ
ones zero = 0
ones (suc k) = 2 * ones k + 1

pub or_shifted : (k l p : ℕ) → p ≤ ones k → bit_or (shifted k l) p ≡ shifted k l + p
or_shifted zero l p h =
    let none : p ≡ 0 = omega arith in
    ap (bit_or l) none ∙ (none_below l l (omega arith)).0 ∙ omega (arith, none)
or_shifted (suc k) l p h =
    let half : 2 * shifted k l / 2 ≡ shifted k l = omega arith in
    omega (
      arith,
      or_halves (2 * shifted k l) p,
      ap (λ a. bit_or a (p / 2)) half,
      or_shifted k l (p / 2) (omega arith),
    )

pub and_ones : (k l p : ℕ) → p ≤ ones k → bit_and (shifted k l + p) (ones k) ≡ p
and_ones zero l p h =
    let none : p ≡ 0 = omega arith in
    (none_below (l + p) (l + p) (omega arith)).1 ∙ omega (arith, none)
and_ones (suc k) l p h =
    let half : (2 * shifted k l + p) / 2 ≡ shifted k l + p / 2 = omega arith in
    let fewer : (2 * ones k + 1) / 2 ≡ ones k = omega arith in
    omega (
      arith,
      and_halves (2 * shifted k l + p) (2 * ones k + 1),
      ap (λ a. bit_and a ((2 * ones k + 1) / 2)) half,
      ap (bit_and (shifted k l + p / 2)) fewer,
      and_ones k l (p / 2) (omega arith),
    )
