-- ===== src/Prelude/Int.antt =====
-- Signed integers over the native numbers, under the library's names, with C's tests.
use Prim.Native.Nat.{ℕ, suc, ◌+◌, ◌-◌, ◌/◌, ◌≤◌}
use mathlib.Core.Path.{◌≡◌}
use mathlib.Core.Bool.{Bool, ◌&&◌}
use native.Mathlib.Omega.{arith}
use native.Mathlib.Decide.{dec_lt}
use htram.Prelude.Tests.{ltb, leb, if◌then◌else◌, Bool-cases}
use mathlib.Core.Logic.{inl, inr}
use mathlib.Core.Path.{ap}
use mathlib.Core.Bool.{true, false}

-- `negsuc n` is -(n + 1).
pub data ℤ : Type 0 where
  pos : ℕ → ℤ
  negsuc : ℕ → ℤ

abbrev pub pos_part : ℤ → ℕ
pos_part (pos n) = n
pos_part (negsuc n) = 0

abbrev pub neg_part : ℤ → ℕ
neg_part (pos n) = 0
neg_part (negsuc n) = suc n

-- a - b, as an integer.
abbrev pub sub_ℕ : ℕ → ℕ → ℤ
sub_ℕ a b = if leb b a then pos (a - b) else negsuc (b - a - 1)

infixl 65 ◌+ℤ◌ ◌-ℤ◌
infix 50 ◌≤ℤ◌
unfoldable pub ◌+ℤ◌ : ℤ → ℤ → ℤ
a +ℤ b = sub_ℕ (pos_part a + pos_part b) (neg_part a + neg_part b)

unfoldable pub ◌-ℤ◌ : ℤ → ℤ → ℤ
a -ℤ b = sub_ℕ (pos_part a + neg_part b) (neg_part a + pos_part b)

abbrev pub ◌≤ℤ◌ : ℤ → ℤ → Type 0
a ≤ℤ b = pos_part a + neg_part b ≤ pos_part b + neg_part a

abbrev pub leb_ℤ : ℤ → ℤ → Bool
leb_ℤ a b = leb (pos_part a + neg_part b) (pos_part b + neg_part a)

abbrev pub ltb_ℤ : ℤ → ℤ → Bool
ltb_ℤ a b = ltb (pos_part a + neg_part b) (pos_part b + neg_part a)

abbrev pub eqb_ℤ : ℤ → ℤ → Bool
eqb_ℤ a b = leb_ℤ a b && leb_ℤ b a

-- C's `/` by a positive number rounds towards zero.
abbrev pub quot : ℤ → ℕ → ℤ
quot (pos n) k = pos (n / k)
quot (negsuc n) k = sub_ℕ 0 (suc n / k)

pub pos-+ℤ : (a b : ℕ) → pos a +ℤ pos b ≡ pos (a + b)
unfolding ◌+ℤ◌
pos-+ℤ a b = ground arith

pub pos--ℤ : (a b c : ℕ) → a ≡ b + c → pos a -ℤ pos b ≡ pos c
unfolding ◌-ℤ◌
pos--ℤ a b c h = ground arith

pub -ℤ_zero : (a : ℤ) → a -ℤ pos 0 ≡ a
unfolding ◌-ℤ◌
-ℤ_zero a = ground arith

pub le_of_pos : (a b : ℤ) (m n : ℕ) → a ≡ pos m → b ≡ pos n → m ≤ n → a ≤ℤ b
le_of_pos a b m n e f h = rw (e, f) (omega arith)

-- One less and one more.
pub take_one : (n a : ℕ) → (pos (n + a) -ℤ pos (suc n)) +ℤ pos 1 ≡ pos a
unfolding ◌+ℤ◌ ◌-ℤ◌
take_one n a = elim (dec_lt 0 a) [ yes more ↦ ground arith | no none_left ↦ ground arith ]

sub_ℕ_parts : (a b : ℕ) → pos_part (sub_ℕ a b) + b ≡ a + neg_part (sub_ℕ a b)
sub_ℕ_parts a b = elim (Bool-cases (leb b a)) [
  | inl le ↦ rw le (ground arith)
  | inr gt ↦ rw gt (ground arith)
]

-- Differences that are the same number.
pub sub_ℕ-same : (a b c d : ℕ) → a + d ≡ c + b → sub_ℕ a b ≡ sub_ℕ c d
sub_ℕ-same a b c d e = elim (Bool-cases (leb b a)) [
  | inl le ↦
      let le' : leb d c ≡ true = ground arith in
      let same : a - b ≡ c - d = ground arith in rw (le, le') (ap pos same)
  | inr gt ↦
      let gt' : leb d c ≡ false = ground arith in
      let same : b - a - 1 ≡ d - c - 1 = ground arith in rw (gt, gt') (ap negsuc same)
]

pub sub_ℕ_up : (a b : ℕ) → sub_ℕ a b +ℤ pos 1 ≡ sub_ℕ (1 + a) b
unfolding ◌+ℤ◌
sub_ℕ_up a b =
    sub_ℕ-same (pos_part (sub_ℕ a b) + 1) (neg_part (sub_ℕ a b) + 0) (1 + a) b
      (omega (arith, sub_ℕ_parts a b))

pub sub_ℕ_down : (a b : ℕ) → sub_ℕ a b -ℤ pos 1 ≡ sub_ℕ a (1 + b)
unfolding ◌-ℤ◌
sub_ℕ_down a b =
    sub_ℕ-same (pos_part (sub_ℕ a b) + 0) (neg_part (sub_ℕ a b) + 1) a (1 + b)
      (omega (arith, sub_ℕ_parts a b))
