-- ===== src/HoldBits/Bits.antt =====
-- A uint64_t as its bits, the lowest first, with the operations that the hold bitmap uses.
use htram.Prelude.{
  ℕ, zero, suc, ◌≤◌, ◌<◌, ◌≡◌, refl, ap, List, [], ◌∷◌, Bool, true, false, if◌then◌else◌, length,
  get_or, set, replicate, arith,
}

abbrev pub Word : Type 0
Word = List Bool

unfoldable pub zero_word : Word
zero_word = replicate 64 false

-- `w >> i & 1`
abbrev pub bit : Word → ℕ → Bool
bit w i = get_or w i false

-- `w | 1UL << i`
unfoldable pub set_bit : ℕ → Word → Word
set_bit i w = set w i true

-- `w & ~(1UL << i)`
unfoldable pub clear_bit : ℕ → Word → Word
clear_bit i w = set w i false

-- `w & (~0UL << s)`
unfoldable pub clear_below : ℕ → Word → Word
clear_below s [] = []
clear_below zero (b ∷ w) = b ∷ w
clear_below (suc s) (b ∷ w) = false ∷ clear_below s w

-- `!w`
unfoldable pub is_zero : Word → Bool
is_zero [] = true
is_zero (b ∷ w) = if b then false else is_zero w

-- `__builtin_ctzll(w)`, the number of zero bits below the lowest set one.
unfoldable pub ctz : Word → ℕ
ctz [] = 0
ctz (b ∷ w) = if b then 0 else suc (ctz w)

pub bit-zero_word : (i : ℕ) → bit zero_word i ≡ false
unfolding zero_word
bit-zero_word i = go 64 i
  where
    go : (n i : ℕ) → bit (replicate n false) i ≡ false
    go zero i = refl
    go (suc n) zero = refl
    go (suc n) (suc i) = go n i

pub bit-clear_below_lt : (s : ℕ) (w : Word) (i : ℕ) → i < s → bit (clear_below s w) i ≡ false
unfolding clear_below
bit-clear_below_lt zero w i h = absurd (omega arith)
bit-clear_below_lt (suc s) [] i h = refl
bit-clear_below_lt (suc s) (b ∷ w) zero h = refl
bit-clear_below_lt (suc s) (b ∷ w) (suc i) h = bit-clear_below_lt s w i (omega arith)

pub bit-clear_below_ge : (s : ℕ) (w : Word) (i : ℕ) → s ≤ i → bit (clear_below s w) i ≡ bit w i
unfolding clear_below
bit-clear_below_ge zero [] i h = refl
bit-clear_below_ge (suc s) [] i h = refl
bit-clear_below_ge zero (b ∷ w) i h = refl
bit-clear_below_ge (suc s) (b ∷ w) zero h = absurd (omega arith)
bit-clear_below_ge (suc s) (b ∷ w) (suc i) h = bit-clear_below_ge s w i (omega arith)

pub is_zero-bit : (w : Word) (i : ℕ) → is_zero w ≡ true → bit w i ≡ false
unfolding is_zero
is_zero-bit [] i h = refl
is_zero-bit (true ∷ w) i h = cc
is_zero-bit (false ∷ w) zero h = refl
is_zero-bit (false ∷ w) (suc i) h = is_zero-bit w i h

-- `ctz` of a word that is not zero is its lowest set bit.
pub bit-ctz : (w : Word) → is_zero w ≡ false → bit w (ctz w) ≡ true
unfolding is_zero ctz
bit-ctz [] h = cc
bit-ctz (true ∷ w) h = refl
bit-ctz (false ∷ w) h = bit-ctz w h

pub bit_lt-ctz : (w : Word) (i : ℕ) → i < ctz w → bit w i ≡ false
unfolding ctz
bit_lt-ctz [] i h = refl
bit_lt-ctz (true ∷ w) i h = absurd (omega arith)
bit_lt-ctz (false ∷ w) zero h = refl
bit_lt-ctz (false ∷ w) (suc i) h = bit_lt-ctz w i (omega arith)

pub bit_set_lt : (w : Word) (i : ℕ) → bit w i ≡ true → i < length w
bit_set_lt [] i h = cc
bit_set_lt (b ∷ w) zero h = omega arith
bit_set_lt (b ∷ w) (suc i) h = omega (arith, bit_set_lt w i h)

pub length-clear_below : (s : ℕ) (w : Word) → length (clear_below s w) ≡ length w
unfolding clear_below
length-clear_below zero [] = refl
length-clear_below (suc s) [] = refl
length-clear_below zero (b ∷ w) = refl
length-clear_below (suc s) (b ∷ w) = ap suc (length-clear_below s w)
