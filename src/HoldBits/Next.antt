-- ===== src/HoldBits/Next.antt =====
-- holdNext finds the first marked bucket at or after `from`, and fails only if there is none.
use htram.Prelude.{
  ℕ, zero, suc, ◌+◌, ◌-◌, ◌*◌, ◌/◌, ◌%◌, ◌≤◌, ◌<◌, ◌≡◌, refl, sym, ap, ◌∙◌, List, [], ◌∷◌, Option,
  none, some, Bool, true, false, leb, length, get_or, drop, All, All-get_or, drop-get_or, inl, inr,
  Bool-cases, arith, dec_lt,
}
use htram.HoldBits.Bits.{
  Word, zero_word, bit, clear_below, is_zero, ctz, bit-zero_word, bit-clear_below_lt,
  bit-clear_below_ge, is_zero-bit, bit-ctz, bit_lt-ctz, bit_set_lt, length-clear_below,
}
use htram.HoldBits.{hold_words, scan, mask_first, hold_next}
use htram.HoldBits.Marked.{marked, IsShaped}

-- What a search from `from` may answer, for a set of buckets given by its bits.
abbrev pub Finds : (ℕ → Bool) → ℕ → Option ℕ → Type 0
Finds bits from none = (j : ℕ) → from ≤ j → bits j ≡ false
Finds bits from (some i) =
    (from ≤ i) × (bits i ≡ true) × ((j : ℕ) → from ≤ j → j < i → bits j ≡ false)

-- A search of a set that agrees with `bits` from `from` on, and has nothing between `lo` and `from`.
tighten :
    (other bits : ℕ → Bool) (lo from : ℕ) (r : Option ℕ)
    → lo ≤ from
    → ((j : ℕ) → lo ≤ j → j < from → other j ≡ false)
    → ((j : ℕ) → from ≤ j → other j ≡ bits j)
    → Finds other lo r
    → Finds bits from r
tighten other bits lo from none h below above f = λ j le. sym (above j le) ∙ f j (omega arith)
tighten other bits lo from (some i) h below above f = elim (dec_lt i from) [
  | yes lt ↦ cc (below i f.0 lt, f.1)
  | no ge ↦ (
    omega arith,
    sym (above i (omega arith)) ∙ f.1,
    λ j le lt. sym (above j le) ∙ f.2 j (omega arith) lt,
  )
]

-- A search that goes on where `bits` has nothing below `from`.
widen :
    (other bits : ℕ → Bool) (lo from : ℕ) (r : Option ℕ)
    → lo ≤ from
    → ((j : ℕ) → lo ≤ j → j < from → bits j ≡ false)
    → ((j : ℕ) → from ≤ j → other j ≡ bits j)
    → Finds other from r
    → Finds bits lo r
widen other bits lo from none h below above f = λ j le. elim (dec_lt j from) [
  | yes lt ↦ below j le lt
  | no ge ↦ sym (above j (omega arith)) ∙ f j (omega arith)
]
widen other bits lo from (some i) h below above f = (
  omega arith,
  sym (above i f.0) ∙ f.1,
  λ j le lt. elim (dec_lt j from) [
    | yes l ↦ below j le l
    | no ge ↦ sym (above j (omega arith)) ∙ f.2 j (omega arith) lt
  ],
)

-- The bits of the words from word `i` on.
abbrev bits_from : ℕ → List Word → ℕ → Bool
bits_from i ws b = bit (get_or ws (b / 64 - i) zero_word) (b % 64)

bits_from-first :
    (i : ℕ) (w : Word) (ws : List Word) (j : ℕ)
    → i * 64 ≤ j
    → j < (i + 1) * 64
    → bits_from i (w ∷ ws) j ≡ bit w (j % 64)
bits_from-first i w ws j lo hi = let e : j / 64 - i ≡ 0 = omega arith in rw e

bits_from-rest :
    (i : ℕ) (w : Word) (ws : List Word) (j : ℕ)
    → (i + 1) * 64 ≤ j
    → bits_from (i + 1) ws j ≡ bits_from i (w ∷ ws) j
bits_from-rest i w ws j lo = let e : j / 64 - i ≡ suc (j / 64 - (i + 1)) = omega arith in rw e

scan-Finds :
    (i : ℕ) (ws : List Word)
    → All (λ w. length w ≡ 64) ws
    → Finds (bits_from i ws) (i * 64) (scan i ws)
unfolding scan
scan-Finds i [] h = λ j le. bit-zero_word (j % 64)
scan-Finds i (w ∷ ws) h = elim (Bool-cases (is_zero w)) [
  | inl z ↦ rw z (
      widen (bits_from (i + 1) ws) (bits_from i (w ∷ ws)) (i * 64) ((i + 1) * 64) (scan (i + 1) ws)
        (omega arith) (λ j lo hi. bits_from-first i w ws j lo hi ∙ is_zero-bit w (j % 64) z)
        (bits_from-rest i w ws) (scan-Finds (i + 1) ws h.1))
  | inr nz ↦ rw nz (found nz)
]
  where
    found : is_zero w ≡ false → Finds (bits_from i (w ∷ ws)) (i * 64) (some (i * 64 + ctz w))
    found nz =
        let small : ctz w < 64 = omega (arith, bit_set_lt w (ctz w) (bit-ctz w nz), h.0) in
        let here : (i * 64 + ctz w) % 64 ≡ ctz w = omega arith in
        (
          omega arith,
          bits_from-first i w ws (i * 64 + ctz w) (omega arith) (omega arith)
              ∙ ap (bit w) here
              ∙ bit-ctz w nz,
          λ j lo lt.
              bits_from-first i w ws j lo (omega arith) ∙ bit_lt-ctz w (j % 64) (omega arith),
        )

get_or-drop :
    (n k m : ℕ) (us : List Word)
    → m ≡ n + k
    → get_or (drop n us) k zero_word ≡ get_or us m zero_word
get_or-drop zero k m us e = let e' : m ≡ k = omega arith in rw e'
get_or-drop (suc n) k m [] e = refl
get_or-drop (suc n) k zero (u ∷ us) e = absurd (omega arith)
get_or-drop (suc n) k (suc m) (u ∷ us) e = get_or-drop n k m us (omega arith)

-- The words from the one of `from` on, the first one masked.
module _ {buckets : ℕ} (ws : List Word) (from : ℕ) (v : IsShaped buckets ws)
    (h : from < buckets) where
  first : Word
  first = get_or ws (from / 64) zero_word

  masked : List Word
  masked = clear_below (from % 64) first ∷ drop (suc (from / 64)) ws

  mask_first-masked : mask_first (from % 64) (drop (from / 64) ws) ≡ masked
  unfolding masked first mask_first hold_words
  mask_first-masked = rw (drop-get_or (from / 64) ws zero_word (omega (arith, v.words)))

  masked_wide : All (λ w. length w ≡ 64) masked
  unfolding masked first zero_word
  masked_wide = (
    length-clear_below (from % 64) (get_or ws (from / 64) zero_word)
        ∙ All-get_or (λ w. length w ≡ 64) ws (from / 64) zero_word v.wide refl,
    All-drop (suc (from / 64)) ws v.wide,
  )
    where
      All-drop :
          (n : ℕ) (us : List Word)
          → All (λ w. length w ≡ 64) us
          → All (λ w. length w ≡ 64) (drop n us)
      All-drop zero us a = a
      All-drop (suc n) [] a = a
      All-drop (suc n) (u ∷ us) a = All-drop n us a.1

  masked_below : (j : ℕ) → from / 64 * 64 ≤ j → j < from → bits_from (from / 64) masked j ≡ false
  unfolding masked
  masked_below j lo hi =
      bits_from-first (from / 64) (clear_below (from % 64) first) (drop (suc (from / 64)) ws) j lo
        (omega arith)
      ∙ bit-clear_below_lt (from % 64) first (j % 64) (omega arith)

  masked_above : (j : ℕ) → from ≤ j → bits_from (from / 64) masked j ≡ marked ws j
  unfolding masked first
  masked_above j lo = elim (dec_lt j ((from / 64 + 1) * 64)) [
    | yes lt ↦
        let same : j / 64 ≡ from / 64 = omega arith in
        bits_from-first (from / 64) (clear_below (from % 64) first) (drop (suc (from / 64)) ws) j
          (omega arith) lt
        ∙ bit-clear_below_ge (from % 64) first (j % 64) (omega arith)
        ∙ ap (λ k. bit (get_or ws k zero_word) (j % 64)) (sym same)
    | no ge ↦
        sym (
          bits_from-rest (from / 64) (clear_below (from % 64) first) (drop (suc (from / 64)) ws) j
            (omega arith))
        ∙ ap (λ w. bit w (j % 64))
            (get_or-drop (suc (from / 64)) (j / 64 - (from / 64 + 1)) (j / 64) ws (omega arith))
  ]

-- For a bitmap of as many words as the buckets need and a bucket that exists, holdNext answers the
-- first marked bucket at or after it, and answers none only if no bucket from there on is marked.
pub hold_next-Finds :
    {buckets : ℕ} (ws : List Word) (from : ℕ)
    → IsShaped buckets ws
    → from < buckets
    → Finds (marked ws) from (hold_next buckets ws from)
unfolding hold_next
hold_next-Finds {buckets} ws from v h =
    let inside : leb buckets from ≡ false = ground arith in
    rw (inside, mask_first-masked ws from v h)
      (tighten (bits_from (from / 64) (masked ws from v h)) (marked ws) (from / 64 * 64) from
        (scan (from / 64) (masked ws from v h)) (omega arith) (masked_below ws from v h)
        (masked_above ws from v h)
        (scan-Finds (from / 64) (masked ws from v h) (masked_wide ws from v h)))

pub hold_next_beyond :
    (buckets : ℕ) (ws : List Word) (from : ℕ) → buckets ≤ from → hold_next buckets ws from ≡ none
unfolding hold_next
hold_next_beyond buckets ws from h = let past : leb buckets from ≡ true = ground arith in rw past
