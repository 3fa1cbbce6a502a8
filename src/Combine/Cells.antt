-- ===== src/Combine/Cells.antt =====
-- htram_combine.h, the open-addressed table of class CombiningHold: `slots_` and `tags_` zipped.
-- Probing, the loop of `rebuild`, and deletion by shifting back.
use Prim.Native.Nat.{bit_xor}
use htram.Prelude.{
  ℕ, zero, suc, ◌+◌, ◌*◌, ◌/◌, ◌%◌, ◌^◌, List, [], ◌∷◌, Bool, false, ◌==◌, if◌then◌else◌, length,
  get_or, set, replicate,
}
use htram.Combine.Cyclic.{movable}

-- A slot: the entry's index + 1, or 0 if it is empty, and the entry's tag.
pub record Cell : Type 0 where
  pub entry : ℕ
  pub tag : ℕ

abbrev pub empty_cell : Cell
empty_cell = record { entry = 0; tag = 0 }

-- `mix`, on 64-bit words.
unfoldable pub mix : ℕ → ℕ
mix x =
    let a = (x + 0x9E37_79B9_7F4A_7C15) % 2 ^ 64 in
    let b = bit_xor a (a / 2 ^ 30) * 0xBF58_476D_1CE4_E5B9 % 2 ^ 64 in
    let c = bit_xor b (b / 2 ^ 27) * 0x94D0_49BB_1331_11EB % 2 ^ 64 in bit_xor c (c / 2 ^ 31)

-- `tagOf`
unfoldable pub tag_of : ℕ → ℕ
tag_of h = h / 2 ^ 56 % 2 ^ 8

abbrev pub cell_at : List Cell → ℕ → Cell
cell_at cells i = get_or cells i empty_cell

-- `(slot + 1) & mask_`. The capacity is a power of two, so the mask takes the remainder.
abbrev pub next_slot : List Cell → ℕ → ℕ
next_slot cells i = (i + 1) % length cells

-- `(size_t)h & mask_`
abbrev pub home_slot : List Cell → ℕ → ℕ
home_slot cells h = h % length cells

-- `while (slots_[slot]) slot = (slot + 1) & mask_`, up to the first slot that passes a test or is empty.
unfoldable pub probe : (Cell → Bool) → List Cell → ℕ → ℕ → ℕ
probe match cells zero slot = slot
probe match cells (suc n) slot =
    let rest = probe match cells n (next_slot cells slot) in
    if (cell_at cells slot).entry == 0
    then slot
    else if match (cell_at cells slot)
    then slot
    else rest

-- The loops of `insert`, `rebuild` and the first of `erase`, from an item's home.
unfoldable pub find_slot : (Cell → Bool) → List Cell → ℕ → ℕ
unfolding probe
find_slot match cells h = probe match cells (length cells) (home_slot cells h)

-- One round of `rebuild`, for a slot that is not empty.
unfoldable pub place : (ℕ → ℕ) → ℕ → List Cell → List Cell
unfolding find_slot tag_of
place hash s cells =
    let h = hash s in
    set cells (find_slot (λ c. false) cells h) (record { entry = s; tag = tag_of h })

unfoldable pub place_all : (ℕ → ℕ) → List Cell → List Cell → List Cell
unfolding place
place_all hash [] cells = cells
place_all hash (c ∷ old) cells =
    place_all hash old (if c.entry == 0 then cells else place hash c.entry cells)

-- `rebuild`. `hash` gives the mixed key of what a slot holds.
unfoldable pub rebuild : (ℕ → ℕ) → ℕ → List Cell → List Cell
unfolding place_all
rebuild hash capacity old = place_all hash old (replicate capacity empty_cell)

-- `slots_[hole] = 0`
unfoldable pub clear : List Cell → ℕ → List Cell
clear cells hole = set cells hole (record { entry = 0; tag = (cell_at cells hole).tag })

-- The second loop of `erase`.
unfoldable pub shift_back : (ℕ → ℕ) → ℕ → ℕ → ℕ → List Cell → List Cell
unfolding clear
shift_back hash zero hole next cells = clear cells hole
shift_back hash (suc n) hole next cells =
    let moves = movable hole next (home_slot cells (hash (cell_at cells next).entry)) in
    let rest =
      shift_back hash n (if moves then next else hole) (next_slot cells next)
        (if moves then set cells hole (cell_at cells next) else cells) in
    if (cell_at cells next).entry == 0 then clear cells hole else rest

-- `erase`, for the table: `s` is the entry's index + 1.
unfoldable pub erase_cell : (ℕ → ℕ) → ℕ → List Cell → List Cell
unfolding find_slot shift_back
erase_cell hash s cells =
    let hole = find_slot (λ c. c.entry == s) cells (hash s) in
    shift_back hash (length cells) hole (next_slot cells hole) cells
