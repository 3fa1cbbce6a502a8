-- ===== src/HoldBits.antt =====
-- htram_group.h, the hold bitmap of class HTram: hold_bits, holdPush, holdEmptied and holdNext. One
-- bit per (destination, bucket) lets a drain visit only the buckets that hold something.
-- A uint64_t is the list of its 64 bits, the lowest first; this file is about one destination's
-- `hold_words` words, the slice of hold_bits that starts at d * hold_words.
pub mod Bits
pub mod Marked
pub mod Next
mod Tests
use Bits.{Word, zero_word, set_bit, clear_bit, clear_below, is_zero, ctz}
use htram.Prelude.{
  ℕ, ◌+◌, ◌*◌, ◌/◌, ◌%◌, List, [], ◌∷◌, Option, none, some, Bool, true, false, leb, if◌then◌else◌,
  get_or, set, drop, replicate,
}

-- `hold_words = (histo_bucket_count + 63) / 64`, and the words that the constructor assigns.
unfoldable pub hold_words : ℕ → ℕ
hold_words buckets = (buckets + 63) / 64

unfoldable pub no_bits : ℕ → List Word
no_bits buckets = replicate (hold_words buckets) zero_word

-- `hold_bits[d * hold_words + (b >> 6)] |= 1UL << (b & 63)`, the second half of holdPush.
unfoldable pub mark : ℕ → List Word → List Word
mark b ws = set ws (b / 64) (set_bit (b % 64) (get_or ws (b / 64) zero_word))

-- holdEmptied
unfoldable pub unmark : ℕ → List Word → List Word
unmark b ws = set ws (b / 64) (clear_bit (b % 64) (get_or ws (b / 64) zero_word))

-- The loop of holdNext from word `i` on: the words that are left, the first one as masked. `none`
-- stands for INT_MAX, which is above every bucket and every threshold.
unfoldable pub scan : ℕ → List Word → Option ℕ
scan i [] = none
scan i (m ∷ ws) = if is_zero m then scan (i + 1) ws else some (i * 64 + ctz m)

-- `m = w[i] & (~0UL << (from & 63))`
unfoldable pub mask_first : ℕ → List Word → List Word
mask_first s [] = []
mask_first s (w ∷ ws) = clear_below s w ∷ ws

-- holdNext: the first bucket at or after `from` whose bit is set.
unfoldable pub hold_next : ℕ → List Word → ℕ → Option ℕ
unfolding scan mask_first
hold_next buckets ws from =
    if leb buckets from
    then none
    else scan (from / 64) (mask_first (from % 64) (drop (from / 64) ws))
