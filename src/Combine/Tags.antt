-- ===== src/Combine/Tags.antt =====
-- Every slot that holds an entry has the entry's tag, so a tag that differs means another key.
use htram.Prelude.{
  ℕ, zero, suc, ◌<◌, ◌≡◌, ◌≢◌, refl, sym, ap, ◌∙◌, List, [], ◌∷◌, ◌==◌, length, All, All-set,
  All-get_or, All-replicate, inl, inr, Bool-cases, arith,
}
use htram.Combine.Cyclic.{movable}
use htram.Combine.Cells.{
  Cell, empty_cell, cell_at, home_slot, tag_of, place, place_all, rebuild, clear, shift_back,
  erase_cell,
}
use htram.Combine.Table.{held_at}
use htram.Combine.Weigh.{times_in, one_of, cell_weight_full, one_of_self}

-- The tag of a cell agrees with what it holds.
abbrev pub IsTagged : (ℕ → ℕ) → Cell → Type 0
IsTagged hash c = c.entry ≢ 0 → c.tag ≡ tag_of (hash c.entry)

module _ (hash : ℕ → ℕ) where
  empty-IsTagged : IsTagged hash empty_cell
  empty-IsTagged ne = absurd (ne refl)

  pub IsTagged-at :
      (cells : List Cell) (i : ℕ) → All (IsTagged hash) cells → IsTagged hash (cell_at cells i)
  IsTagged-at cells i v = All-get_or (IsTagged hash) cells i empty_cell v empty-IsTagged

  place-IsTagged :
      (s : ℕ) (cells : List Cell)
      → All (IsTagged hash) cells
      → All (IsTagged hash) (place hash s cells)
  unfolding place
  place-IsTagged s cells v = All-set (IsTagged hash) cells _ _ v (λ ne. refl)

  place_all-IsTagged :
      (old cells : List Cell)
      → All (IsTagged hash) cells
      → All (IsTagged hash) (place_all hash old cells)
  unfolding place_all
  place_all-IsTagged [] cells v = v
  place_all-IsTagged (c ∷ old) cells v =
      place_all-IsTagged old _ (elim (Bool-cases (c.entry == 0)) [
        | inl t ↦ rw t v
        | inr t ↦ rw t (place-IsTagged c.entry cells v)
      ])

  pub rebuild-IsTagged :
      (capacity : ℕ) (old : List Cell) → All (IsTagged hash) (rebuild hash capacity old)
  unfolding rebuild
  rebuild-IsTagged capacity old =
      place_all-IsTagged old _ (All-replicate (IsTagged hash) capacity empty_cell empty-IsTagged)

  clear-IsTagged :
      (cells : List Cell) (hole : ℕ)
      → All (IsTagged hash) cells
      → All (IsTagged hash) (clear cells hole)
  unfolding clear
  clear-IsTagged cells hole v = All-set (IsTagged hash) cells hole _ v (λ ne. absurd (ne refl))

  shift_back-IsTagged :
      (n hole next : ℕ) (cells : List Cell)
      → All (IsTagged hash) cells
      → All (IsTagged hash) (shift_back hash n hole next cells)
  unfolding shift_back
  shift_back-IsTagged zero hole next cells v = clear-IsTagged cells hole v
  shift_back-IsTagged (suc n) hole next cells v = elim (Bool-cases (held_at cells next == 0)) [
    | inl stop ↦ rw stop (clear-IsTagged cells hole v)
    | inr go_on ↦
        rw go_on
          (elim (Bool-cases (movable hole next (home_slot cells (hash (held_at cells next))))) [
            | inl moves ↦ rw moves (
                shift_back-IsTagged n next _ _
                  (All-set (IsTagged hash) cells hole _ v (IsTagged-at cells next v)))
            | inr stays ↦ rw stays (shift_back-IsTagged n hole _ cells v)
          ])
  ]

  pub erase_cell-IsTagged :
      (s : ℕ) (cells : List Cell)
      → All (IsTagged hash) cells
      → All (IsTagged hash) (erase_cell hash s cells)
  unfolding erase_cell
  erase_cell-IsTagged s cells v = shift_back-IsTagged (length cells) _ _ cells v

-- Hashes that agree on what the table has.
pub IsTagged-congr :
    (hash other : ℕ → ℕ) (cells : List Cell)
    → ((s : ℕ) → 0 < times_in s cells → other s ≡ hash s)
    → All (IsTagged hash) cells
    → All (IsTagged other) cells
IsTagged-congr hash other [] agree v = tt
IsTagged-congr hash other (c ∷ cells) agree v = (
  λ ne.
      v.0 ne
      ∙ ap tag_of (
          sym (
            agree c.entry (
              omega (
                arith,
                cell_weight_full (one_of c.entry) c ne,
                one_of_self c.entry c.entry refl,
              )))),
  IsTagged-congr hash other cells (λ s lt. agree s (omega arith)) v.1,
)
