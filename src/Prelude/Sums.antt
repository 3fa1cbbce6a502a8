-- ===== src/Prelude/Sums.antt =====
-- Weighted sums over a list. Two lists with the same sum at every weighting hold the same
-- elements, as often: the weight 1 counts them, and the indicator of an element counts it.
use Prim.Native.Nat.{ℕ, ◌+◌}
use mathlib.Core.Path.{◌≡◌, refl}
use mathlib.Core.List.{List, [], ◌∷◌, ◌++◌, map}
use native.Mathlib.Omega.{arith}
use htram.Prelude.Lists.{length}

module _ {ℓ} {A : Type ℓ} where
  abbrev pub sum_by : (A → ℕ) → List A → ℕ
  sum_by w [] = 0
  sum_by w (x ∷ xs) = w x + sum_by w xs

module _ {ℓ} {A : Type ℓ} (w : A → ℕ) where
  pub sum_by-append : (xs ys : List A) → sum_by w (xs ++ ys) ≡ sum_by w xs + sum_by w ys
  sum_by-append [] ys = omega arith
  sum_by-append (x ∷ xs) ys = omega (arith, sum_by-append xs ys)

  pub sum_by-map {κ} :
      {B : Type κ} (f : B → A) (xs : List B) → sum_by w (map f xs) ≡ sum_by (λ x. w (f x)) xs
  sum_by-map f [] = refl
  sum_by-map f (x ∷ xs) = omega (arith, sum_by-map f xs)

pub sum_by-one {ℓ} : {A : Type ℓ} (xs : List A) → sum_by (λ x. 1) xs ≡ length xs
sum_by-one [] = refl
sum_by-one (x ∷ xs) = omega (arith, sum_by-one xs)

pub sum_by-zero {ℓ} : {A : Type ℓ} (xs : List A) → sum_by (λ x. 0) xs ≡ 0
sum_by-zero [] = refl
sum_by-zero (x ∷ xs) = omega (arith, sum_by-zero xs)
