-- ===== src/Combine/Tests.antt =====
-- A hold of distances: the key is the vertex, and the smaller distance survives.
use htram.Prelude.{
  ℕ, zero, suc, ◌+◌, ◌^◌, ◌<◌, ◌≡◌, refl, List, [], ◌∷◌, Bool, true, false, ltb, if◌then◌else◌, map,
  pos, none, some, ◌⊎◌, inl, inr, Bool-cases, sum_by, ◌-◌, All, All-get_or, arith,
}
use htram.Combine.{HoldOps, Entry, CombiningHold, blank_entry, init, insert, release, live_in}
use htram.Combine.Folds.{KeepsKey, Folded, Added}
use htram.Combine.Insert.{insert_lem}
use htram.Combine.Cells.{Cell, empty_cell, erase_cell}
use htram.Combine.Table.{IsUnbroken}
use htram.Combine.Shift.{Erased, erase_cell-Erased}
use htram.Combine.Valid.{held, IsCounted}
use htram.Combine.Laws.{OneOfKey, insert-OneOfKey, insert-Conserves}
use htram.Combine.Whole.{IsValid, HasStamps, insert-IsValid}
use htram.Combine.Init.{init-IsValid}
use htram.Combine.Lowest.{Released, release_lem}

abbrev Item : Type 0
Item = ℕ × ℕ

abbrev min_combine : Item → Item → Item × Item × Bool
min_combine held incoming =
    if ltb incoming.1 held.1 then (incoming, held, true) else (held, incoming, false)

abbrev distances : HoldOps Item
distances = record { key = λ x. x.0; combine = min_combine; blank = (0, 0) }

distances-KeepsKey : KeepsKey distances
distances-KeepsKey held incoming same = elim (Bool-cases (ltb incoming.1 held.1)) [
  | inl t ↦ rw t
  | inr t ↦ rw t same
]

abbrev empty : CombiningHold Item
empty = init distances 4

abbrev one : CombiningHold Item
one = (insert distances (5, 30) 3 empty).0

abbrev two : CombiningHold Item
two = (insert distances (7, 20) 2 one).0

abbrev folded : CombiningHold Item
folded = (insert distances (5, 10) 1 two).0

folded_live :
    map (λ b. live_in distances b folded) (0 ∷ 1 ∷ 2 ∷ 3 ∷ 4 ∷ [])
    ≡ some 0 ∷ some 1 ∷ some 1 ∷ some 0 ∷ none ∷ []
unfolding live_in insert init
folded_live = refl

folded_retired : folded.retired ≡ (5, 30) ∷ []
unfolding insert init
folded_retired = refl

released : (release distances (pos 2) 1 folded).1 ≡ (5, 10) ∷ []
unfolding release insert init
released = refl

released_all : (release distances (pos 9) 5 folded).1 ≡ (5, 10) ∷ (7, 20) ∷ []
unfolding release insert init
released_all = refl

small_stamps :
    (c : CombiningHold Item)
    → All (λ (y : Entry Item). y.stamp + 1 < 2 ^ 32) c.pool
    → HasStamps distances c
small_stamps c v e =
    All-get_or (λ (y : Entry Item). y.stamp + 1 < 2 ^ 32) c.pool e (blank_entry distances) v
      (omega arith)

abbrev Small : List (Entry Item) → Type 0
Small pool = All (λ (y : Entry Item). y.stamp + 1 < 2 ^ 32) pool

empty-Small : Small empty.pool
unfolding init
empty-Small = tt

one-Small : Small one.pool
unfolding insert init
one-Small = (omega arith, tt)

two-Small : Small two.pool
unfolding insert init
two-Small = (omega arith, (omega arith, tt))

folded-Small : Small folded.pool
unfolding insert init
folded-Small = (omega arith, (omega arith, tt))

empty-IsValid : IsValid distances 4 empty
empty-IsValid = init-IsValid distances 4

one-IsValid : IsValid distances 4 one
one-IsValid =
    insert-IsValid distances 4 empty (5, 30) 3 distances-KeepsKey (small_stamps empty empty-Small)
      (omega arith) empty-IsValid

two-IsValid : IsValid distances 4 two
two-IsValid =
    insert-IsValid distances 4 one (7, 20) 2 distances-KeepsKey (small_stamps one one-Small)
      (omega arith) one-IsValid

init-IsValid_example : IsValid distances 4 empty
init-IsValid_example = init-IsValid distances 4

insert-IsValid_example : IsValid distances 4 folded
insert-IsValid_example =
    insert-IsValid distances 4 two (5, 10) 1 distances-KeepsKey (small_stamps two two-Small)
      (omega arith) two-IsValid

insert_lem_example :
    IsCounted distances 4 folded
    × (Added distances (5, 10) 1 two folded (insert distances (5, 10) 1 two).1
        ⊎ Folded distances (5, 10) 1 two folded (insert distances (5, 10) 1 two).1)
insert_lem_example =
    insert_lem distances 4 two (5, 10) 1 distances-KeepsKey two-IsValid.counts (omega arith)

-- Items that wait, counted.
abbrev each : Item → ℕ
each x = 1

insert-Conserves_example :
    held distances each folded + sum_by each folded.retired
    ≡ held distances each two + sum_by each two.retired + 1
insert-Conserves_example =
    insert-Conserves distances 4 two (5, 10) 1 each distances-KeepsKey (λ h x same. refl)
      two-IsValid.counts (omega arith)

insert-OneOfKey_example : OneOfKey distances (5, 10) two folded
insert-OneOfKey_example =
    insert-OneOfKey distances 4 two (5, 10) 1 distances-KeepsKey two-IsValid.counts (omega arith)

release_lem_example :
    Released distances 4
      (pos 2)
      1
      two
      (release distances (pos 2) 1 two).0
      (release distances (pos 2) 1 two).1
release_lem_example =
    release_lem distances 4 (pos 2) 1 two two-IsValid (λ e here. small_stamps two two-Small e)

-- A table of four slots in which the second entry stands past its home, at the place of the third.
abbrev cells : List Cell
cells =
    record { entry = 1; tag = 0 }
    ∷ record { entry = 5; tag = 0 }
    ∷ record { entry = 2; tag = 0 }
    ∷ empty_cell
    ∷ []

abbrev as_is : ℕ → ℕ
as_is s = s - 1

cells_after : map (λ (c : Cell). c.entry) (erase_cell as_is 1 cells) ≡ 5 ∷ 2 ∷ 0 ∷ 0 ∷ []
unfolding erase_cell
cells_after = refl

cells-IsUnbroken : IsUnbroken as_is cells
cells-IsUnbroken j zero lj lk full on = λ d. absurd (omega (arith, d))
cells-IsUnbroken j (suc zero) lj lk full on = λ d. absurd (omega (arith, d))
cells-IsUnbroken j (suc (suc zero)) lj lk full on = λ d. absurd (omega (arith, d))
cells-IsUnbroken zero (suc (suc (suc zero))) lj lk full on = cc
cells-IsUnbroken (suc zero) (suc (suc (suc zero))) lj lk full on = cc
cells-IsUnbroken (suc (suc zero)) (suc (suc (suc zero))) lj lk full on = cc
cells-IsUnbroken (suc (suc (suc zero))) k lj lk full on = absurd (full refl)
cells-IsUnbroken (suc (suc (suc (suc j)))) k lj lk full on = absurd (omega arith)
cells-IsUnbroken j (suc (suc (suc (suc k)))) lj lk full on = absurd (omega arith)

erase_cell-Erased_example : Erased as_is 1 cells (erase_cell as_is 1 cells)
erase_cell-Erased_example =
    erase_cell-Erased as_is cells 1 0 3 cells-IsUnbroken
      (record { inside = omega arith; vacant = refl }) (λ d. absurd (omega (arith, d)))
      (omega arith) refl
