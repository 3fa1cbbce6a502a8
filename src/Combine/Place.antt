-- ===== src/Combine/Place.antt =====
-- Writing an entry to the slot where a search ended, and `rebuild`.
use htram.Prelude.{
  ℕ, zero, suc, ◌+◌, ◌<◌, ◌≡◌, ◌≢◌, refl, sym, ◌∙◌, subst, List, [], ◌∷◌, true, false, ◌==◌, length,
  set, replicate, length-set, length-replicate, inl, inr, Bool-cases, arith, ℕ_discrete,
}
use htram.Combine.Cyclic.{within}
use htram.Combine.Cells.{
  Cell, empty_cell, cell_at, home_slot, find_slot, place, place_all, rebuild, tag_of,
}
use htram.Combine.Table.{
  held_at, HasVacancy, IsUnbroken, cell_weight, weigh, weigh-set, find_slot-Found, way_kept,
  way_written, held_self, held_ne,
}

-- The number of slots that are not empty.
abbrev pub occupied : List Cell → ℕ
occupied cells = weigh (λ s. 1) cells

-- Fewer entries than slots leave a slot empty.
pub vacancy_of : (cells : List Cell) → occupied cells < length cells → (z : ℕ) × HasVacancy cells z
vacancy_of [] lt = absurd (omega arith)
vacancy_of (c ∷ cells) lt = elim (Bool-cases (c.entry == 0)) [
  | inl vacant ↦
      let e : c.entry ≡ 0 = ground arith in (0, record { inside = omega arith; vacant = e })
  | inr full ↦
      let one : cell_weight (λ s. 1) c ≡ 1 = rw full in
      let (z, v) = vacancy_of cells (omega arith) in
      (suc z, record { inside = omega (arith, v.inside); vacant = v.vacant })
]

module _ (hash : ℕ → ℕ) where
  -- A slot that a search for an absent key found may be written.
  pub set-IsUnbroken :
      (cells : List Cell) (s : ℕ) (c : Cell)
      → IsUnbroken hash cells
      → s < length cells
      → c.entry ≢ 0
      → held_at cells s ≡ 0
      → ((k : ℕ)
          → k < length cells
          → within (home_slot cells (hash c.entry)) k s ≡ true
          → k ≢ s
          → held_at cells k ≢ 0)
      → IsUnbroken hash (set cells s c)
  set-IsUnbroken cells s c unbroken ls ne vacant way j k lj lk full on = elim (ℕ_discrete k s) [
    | yes e ↦
        λ d. ne (sym (held_self cells s c ls) ∙ subst (λ i. held_at (set cells s c) i ≡ 0) e d)
    | no k_ne ↦ λ d. old_way k_ne (sym (held_ne cells s k c k_ne) ∙ d)
  ]
    where
      lk' : k < length cells
      lk' = omega (arith, length-set cells s c)

      old_way : k ≢ s → held_at cells k ≢ 0
      old_way k_ne = elim (ℕ_discrete j s) [
        | yes e ↦
            way k lk'
              (way_written hash cells s k c ls (
                subst
                  (λ i.
                    within (home_slot (set cells s c) (hash (held_at (set cells s c) i))) k i
                    ≡ true)
                  e on))
              k_ne
        | no j_ne ↦
            unbroken j k (omega (arith, length-set cells s c)) lk'
              (λ d. full (held_ne cells s j c j_ne ∙ d)) (way_kept hash cells s j k c j_ne on)
      ]

  -- One round of `rebuild`.
  pub record Placed (s : ℕ) (cells cells' : List Cell) : Type 0 where
    pub same_length : length cells' ≡ length cells
    pub unbroken : IsUnbroken hash cells'
    pub grown : (w : ℕ → ℕ) → weigh w cells' ≡ weigh w cells + w s

  pub place-Placed :
      (s z : ℕ) (cells : List Cell)
      → s ≢ 0
      → HasVacancy cells z
      → IsUnbroken hash cells
      → Placed s cells (place hash s cells)
  unfolding place
  place-Placed s z cells ne v unbroken =
      let f = find_slot-Found (λ c. false) cells z v (hash s) in
      let slot = find_slot (λ c. false) cells (hash s) in
      let vacant : held_at cells slot ≡ 0 = elim f.ends [ inl e ↦ e | inr e ↦ absurd (cc) ] in
      let c : Cell = record { entry = s; tag = tag_of (hash s) } in
      record {
        same_length = length-set cells slot c;
        unbroken =
            set-IsUnbroken cells slot c unbroken f.inside ne vacant
              (λ k lk w d. (f.before k lk w d).0);
        grown = λ w.
            let full : cell_weight w c ≡ w s = let t : (s == 0) ≡ false = ground arith in rw t in
            let free : cell_weight w (cell_at cells slot) ≡ 0 =
              let t : (held_at cells slot == 0) ≡ true = ground arith in rw t in
            omega (arith, weigh-set w cells slot c f.inside, full, free);
      }

  -- All rounds of `rebuild`, with room for all.
  pub place_all-lem :
      (old cells : List Cell)
      → IsUnbroken hash cells
      → occupied old + occupied cells < length cells
      → IsUnbroken hash (place_all hash old cells)
        × (length (place_all hash old cells) ≡ length cells)
        × ((w : ℕ → ℕ) → weigh w (place_all hash old cells) ≡ weigh w cells + weigh w old)
  unfolding place_all
  place_all-lem [] cells unbroken room = (unbroken, refl, λ w. omega arith)
  place_all-lem (c ∷ old) cells unbroken room = elim (Bool-cases (c.entry == 0)) [
    | inl vacant ↦
        let none_here : (w : ℕ → ℕ) → cell_weight w c ≡ 0 = λ w. rw vacant in
        let (u, l, g) = place_all-lem old cells unbroken (omega (arith, none_here (λ s. 1))) in
        rw vacant (u, l, λ w. omega (arith, g w))
    | inr full ↦
        let here : (w : ℕ → ℕ) → cell_weight w c ≡ w c.entry = λ w. rw full in
        let (z, v) = vacancy_of cells (omega arith) in
        let p = place-Placed c.entry z cells (λ e. ground arith) v unbroken in
        let (u, l, g) =
          place_all-lem old (place hash c.entry cells) p.unbroken
            (omega (arith, p.same_length, p.grown (λ s. 1), here (λ s. 1))) in
        rw full (u, l ∙ p.same_length, λ w. omega (arith, g w, p.grown w))
  ]

  weigh-empty : (w : ℕ → ℕ) (n : ℕ) → weigh w (replicate n empty_cell) ≡ 0
  weigh-empty w zero = refl
  weigh-empty w (suc n) = omega (arith, weigh-empty w n)

  held-empty : (n i : ℕ) → held_at (replicate n empty_cell) i ≡ 0
  held-empty zero i = refl
  held-empty (suc n) zero = refl
  held-empty (suc n) (suc i) = held-empty n i

  -- The table after `rebuild` holds what it held, where a search finds it.
  pub record Rebuilt (capacity : ℕ) (old cells : List Cell) : Type 0 where
    pub wide : length cells ≡ capacity
    pub unbroken : IsUnbroken hash cells
    pub same : (w : ℕ → ℕ) → weigh w cells ≡ weigh w old

  pub rebuild-Rebuilt :
      (capacity : ℕ) (old : List Cell)
      → occupied old < capacity
      → Rebuilt capacity old (rebuild hash capacity old)
  unfolding rebuild
  rebuild-Rebuilt capacity old room =
      let start = replicate capacity empty_cell in
      let (u, l, g) =
        place_all-lem old start (λ j k lj lk full on. absurd (full (held-empty capacity j)))
          (omega (arith, weigh-empty (λ s. 1) capacity, length-replicate capacity empty_cell)) in
      record {
        wide = l ∙ length-replicate capacity empty_cell;
        unbroken = u;
        same = λ w. omega (arith, g w, weigh-empty w capacity);
      }
