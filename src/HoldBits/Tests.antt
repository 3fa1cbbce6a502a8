-- ===== src/HoldBits/Tests.antt =====
-- The hold bitmap at concrete buckets.
use htram.Prelude.{◌≡◌, refl, List, none, some, true, arith}
use htram.HoldBits.Bits.{Word, zero_word, set_bit, clear_bit, clear_below, is_zero, ctz}
use htram.HoldBits.{hold_words, no_bits, mark, unmark, hold_next}
use htram.HoldBits.Marked.{marked, IsShaped, no_bits-IsShaped, mark-IsShaped, marked-mark}
use htram.HoldBits.Next.{Finds, hold_next-Finds}

-- Buckets 70 and 130 of 200.
abbrev two_marked : List Word
two_marked = mark 70 (mark 130 (no_bits 200))

search_two_marked :
    (hold_next 200 two_marked 0 ≡ some 70)
    × (hold_next 200 two_marked 71 ≡ some 130)
    × (hold_next 200 two_marked 131 ≡ none)
    × (hold_next 200 (unmark 70 two_marked) 3 ≡ some 130)
unfolding hold_next mark unmark no_bits hold_words zero_word set_bit clear_bit clear_below is_zero
    ctz
search_two_marked = (refl, refl, refl, refl)

two_marked-IsShaped : IsShaped 200 two_marked
two_marked-IsShaped = mark-IsShaped _ 70 (mark-IsShaped _ 130 (no_bits-IsShaped 200))

hold_next-Finds_example : Finds (marked two_marked) 71 (hold_next 200 two_marked 71)
hold_next-Finds_example = hold_next-Finds two_marked 71 two_marked-IsShaped (omega arith)

marked-mark_example : marked (mark 70 (no_bits 200)) 70 ≡ true
marked-mark_example = marked-mark (no_bits 200) 70 70 (no_bits-IsShaped 200) (omega arith)
