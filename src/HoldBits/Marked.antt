-- ===== src/HoldBits/Marked.antt =====
-- The bitmap seen as a set of buckets: which bits `mark` and `unmark` change.
use htram.Prelude.{
  ℕ, ◌/◌, ◌%◌, ◌<◌, ◌≡◌, ◌≢◌, refl, ap, ◌∙◌, List, Bool, true, false, ◌==◌, if◌then◌else◌, length,
  get_or, set, zero, suc, replicate, All, length-set, length-replicate, get_or-set_self,
  get_or-set_ne, All-get_or, All-set, All-replicate, arith, ℕ_discrete,
}
use htram.HoldBits.Bits.{Word, zero_word, bit, set_bit, clear_bit, bit-zero_word}
use htram.HoldBits.{hold_words, no_bits, mark, unmark}

-- The bit of bucket `b`.
abbrev pub marked : List Word → ℕ → Bool
marked ws b = bit (get_or ws (b / 64) zero_word) (b % 64)

-- As many words as the constructor allocates, of 64 bits each.
pub record IsShaped (buckets : ℕ) (ws : List Word) : Type 0 where
  pub words : length ws ≡ hold_words buckets
  pub wide : All (λ w. length w ≡ 64) ws

pub no_bits-IsShaped : (buckets : ℕ) → IsShaped buckets (no_bits buckets)
unfolding no_bits zero_word
no_bits-IsShaped buckets = record {
  words = length-replicate (hold_words buckets) zero_word;
  wide = All-replicate (λ w. length w ≡ 64) (hold_words buckets) zero_word refl;
}

word_wide :
    {buckets : ℕ} (ws : List Word) (i : ℕ)
    → IsShaped buckets ws
    → length (get_or ws i zero_word) ≡ 64
unfolding zero_word
word_wide ws i v = All-get_or (λ w. length w ≡ 64) ws i zero_word v.wide refl

pub mark-IsShaped :
    {buckets : ℕ} (ws : List Word) (b : ℕ) → IsShaped buckets ws → IsShaped buckets (mark b ws)
unfolding mark set_bit
mark-IsShaped ws b v = record {
  words = length-set ws (b / 64) _ ∙ v.words;
  wide =
      All-set (λ w. length w ≡ 64) ws (b / 64) _ v.wide
        (length-set (get_or ws (b / 64) zero_word) (b % 64) true ∙ word_wide ws (b / 64) v);
}

pub unmark-IsShaped :
    {buckets : ℕ} (ws : List Word) (b : ℕ) → IsShaped buckets ws → IsShaped buckets (unmark b ws)
unfolding unmark clear_bit
unmark-IsShaped ws b v = record {
  words = length-set ws (b / 64) _ ∙ v.words;
  wide =
      All-set (λ w. length w ≡ 64) ws (b / 64) _ v.wide
        (length-set (get_or ws (b / 64) zero_word) (b % 64) false ∙ word_wide ws (b / 64) v);
}

-- Setting one bit of one word, seen at every bucket.
module _ {buckets : ℕ} (ws : List Word) (b c : ℕ) (on : Bool) (v : IsShaped buckets ws)
    (h : b < buckets) where
  written : List Word
  written = set ws (b / 64) (set (get_or ws (b / 64) zero_word) (b % 64) on)

  in_range : b / 64 < length ws
  unfolding hold_words
  in_range = omega (arith, v.words)

  written_same : c ≡ b → marked written c ≡ on
  unfolding written
  written_same e =
      rw
        (
          e,
          get_or-set_self ws (b / 64) (set (get_or ws (b / 64) zero_word) (b % 64) on) zero_word
              in_range,
        )
        (get_or-set_self (get_or ws (b / 64) zero_word) (b % 64) on false
          (omega (arith, word_wide ws (b / 64) v)))

  written_other : c ≢ b → marked written c ≡ marked ws c
  unfolding written
  written_other n = elim (ℕ_discrete (b / 64) (c / 64)) [
    | yes e ↦
        rw
          (
            ← e,
            get_or-set_self ws (b / 64) (set (get_or ws (b / 64) zero_word) (b % 64) on) zero_word
                in_range,
          )
          (get_or-set_ne (get_or ws (b / 64) zero_word) (b % 64) (c % 64) on false (omega arith))
    | no ne ↦ ap (λ w. bit w (c % 64)) (get_or-set_ne ws (b / 64) (c / 64) _ zero_word ne)
  ]

  marked-written : marked written c ≡ (if c == b then on else marked ws c)
  marked-written = elim (ℕ_discrete c b) [
    | yes e ↦ ground (arith, written_same e)
    | no n ↦ ground (arith, written_other n)
  ]

-- After holdPush has set the bit of a bucket that exists, in a bitmap of as many words as the
-- buckets need, that bucket is marked and every other is as it was.
pub marked-mark :
    {buckets : ℕ} (ws : List Word) (b c : ℕ)
    → IsShaped buckets ws
    → b < buckets
    → marked (mark b ws) c ≡ (if c == b then true else marked ws c)
unfolding mark set_bit written
marked-mark ws b c v h = marked-written ws b c true v h

-- `unmark b` clears the bit of bucket b and no other.
pub marked-unmark :
    {buckets : ℕ} (ws : List Word) (b c : ℕ)
    → IsShaped buckets ws
    → b < buckets
    → marked (unmark b ws) c ≡ (if c == b then false else marked ws c)
unfolding unmark clear_bit written
marked-unmark ws b c v h = marked-written ws b c false v h

get_or-replicate {ℓ} : {A : Type ℓ} (a : A) (n i : ℕ) → get_or (replicate n a) i a ≡ a
get_or-replicate a zero i = refl
get_or-replicate a (suc n) zero = refl
get_or-replicate a (suc n) (suc i) = get_or-replicate a n i

pub marked-no_bits : (buckets c : ℕ) → marked (no_bits buckets) c ≡ false
unfolding no_bits
marked-no_bits buckets c =
    rw (get_or-replicate zero_word (hold_words buckets) (c / 64)) (bit-zero_word (c % 64))
