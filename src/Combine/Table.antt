-- ===== src/Combine/Table.antt =====
-- The invariant of the table, and the search from an item's home.
use htram.Prelude.{
  ℕ, zero, suc, ◌+◌, ◌%◌, ◌<◌, ◌≡◌, ◌≢◌, sym, ap, subst, List, [], ◌∷◌, Bool, true, false, ◌==◌,
  if◌then◌else◌, length, set, length-set, get_or-set_self, get_or-set_ne, sum_by, ◌⊎◌, inl, inr,
  Bool-cases, arith,
}
use htram.Combine.Cyclic.{
  within, succ, succ_mod, succ-lt, within-succ, within_point, within_other, gap, gap-lt, gap-succ,
}
use htram.Combine.Cells.{Cell, empty_cell, cell_at, next_slot, home_slot, probe, find_slot}

-- What the slot `i` holds.
abbrev pub held_at : List Cell → ℕ → ℕ
held_at cells i = (cell_at cells i).entry

-- A slot that is empty.
pub record HasVacancy (cells : List Cell) (z : ℕ) : Type 0 where
  pub inside : z < length cells
  pub vacant : held_at cells z ≡ 0

-- No slot on the way from an entry's home to the entry is empty, so a search meets it.
abbrev pub IsUnbroken : (ℕ → ℕ) → List Cell → Type 0
IsUnbroken hash cells =
    (j k : ℕ)
    → j < length cells
    → k < length cells
    → held_at cells j ≢ 0
    → within (home_slot cells (hash (held_at cells j))) k j ≡ true
    → held_at cells k ≢ 0

-- The weight of what a slot holds, and of the whole table.
abbrev pub cell_weight : (ℕ → ℕ) → Cell → ℕ
cell_weight w c = if c.entry == 0 then 0 else w c.entry

abbrev pub weigh : (ℕ → ℕ) → List Cell → ℕ
weigh w cells = sum_by (cell_weight w) cells

pub weigh-set :
    (w : ℕ → ℕ) (cells : List Cell) (i : ℕ) (c : Cell)
    → i < length cells
    → weigh w (set cells i c) + cell_weight w (cell_at cells i) ≡ weigh w cells + cell_weight w c
weigh-set w [] i c lt = absurd (omega arith)
weigh-set w (d ∷ cells) zero c lt = omega arith
weigh-set w (d ∷ cells) (suc i) c lt = omega (arith, weigh-set w cells i c (omega arith))

pub home-lt : (cells : List Cell) (h : ℕ) → 0 < length cells → home_slot cells h < length cells
home-lt cells h lt = omega arith

pub next_slot-succ :
    (cells : List Cell) (i : ℕ) → i < length cells → next_slot cells i ≡ succ (length cells) i
next_slot-succ cells i lt = succ_mod (length cells) i lt

-- Where a search from `a` ends: at a slot that is empty or passes the test, all before it neither.
pub record Found (match : Cell → Bool) (cells : List Cell) (a s : ℕ) : Type 0 where
  pub inside : s < length cells
  pub ends : (held_at cells s ≡ 0) ⊎ (match (cell_at cells s) ≡ true)
  pub before :
      (k : ℕ)
      → k < length cells
      → within a k s ≡ true
      → k ≢ s
      → (held_at cells k ≢ 0) × (match (cell_at cells k) ≡ false)

module _ (match : Cell → Bool) (cells : List Cell) (z : ℕ) (v : HasVacancy cells z) where
  not_zero : (k : ℕ) → (held_at cells k == 0) ≡ false → held_at cells k ≢ 0
  not_zero k e d = ground arith

  probe-Found :
      (a n s : ℕ)
      → s < length cells
      → gap (length cells) s z < n
      → ((k : ℕ)
          → k < length cells
          → within a k s ≡ true
          → k ≢ s
          → (held_at cells k ≢ 0) × (match (cell_at cells k) ≡ false))
      → Found match cells a (probe match cells n s)
  unfolding probe
  probe-Found a zero s ls m scanned = absurd (omega arith)
  probe-Found a (suc n) s ls m scanned = elim (Bool-cases (held_at cells s == 0)) [
    | inl vacant ↦
        let e : held_at cells s ≡ 0 = ground arith in
        rw vacant (record { inside = ls; ends = inl e; before = scanned })
    | inr full ↦ rw full (elim (Bool-cases (match (cell_at cells s))) [
      | inl hit ↦ rw hit (record { inside = ls; ends = inr hit; before = scanned })
      | inr miss ↦
          let ne : held_at cells s ≢ 0 = not_zero s full in
          let apart : s ≢ z = λ e. ne (subst (λ k. held_at cells k ≡ 0) (sym e) v.vacant) in
          rw (miss, next_slot-succ cells s ls)
            (probe-Found a n (succ (length cells) s) (succ-lt (length cells) s ls)
              (omega (arith, gap-succ (length cells) s z ls v.inside apart))
              (λ k lk w d. elim (within-succ (length cells) a k s lk ls w d) [
                | inl e ↦
                    subst (λ i. (held_at cells i ≢ 0) × (match (cell_at cells i) ≡ false)) (sym e)
                      (ne, miss)
                | inr (w', d') ↦ scanned k lk w' d'
              ]))
    ])
  ]

  pub find_slot-Found : (h : ℕ) → Found match cells (home_slot cells h) (find_slot match cells h)
  unfolding find_slot
  find_slot-Found h =
      let lh = home-lt cells h (omega (arith, v.inside)) in
      probe-Found (home_slot cells h) (length cells) (home_slot cells h) lh
        (gap-lt (length cells) (home_slot cells h) z lh v.inside)
        (λ k lk w d. absurd (d (within_point (home_slot cells h) k w)))

-- A search for what the table has does not end at an empty slot.
pub find_slot_full :
    (hash : ℕ → ℕ) (match : Cell → Bool) (cells : List Cell) (z h j : ℕ)
    → HasVacancy cells z
    → IsUnbroken hash cells
    → j < length cells
    → held_at cells j ≢ 0
    → match (cell_at cells j) ≡ true
    → hash (held_at cells j) ≡ h
    → held_at cells (find_slot match cells h) ≢ 0
find_slot_full hash match cells z h j v unbroken lj full m e vacant =
    let f = find_slot-Found match cells z v h in
    elim (Bool-cases (within (home_slot cells h) (find_slot match cells h) j)) [
      | inl on_way ↦
          unbroken j (find_slot match cells h) lj f.inside full
            (subst (λ g. within (home_slot cells g) (find_slot match cells h) j ≡ true) (sym e)
              on_way)
            vacant
      | inr off ↦
          let (w, d) = within_other (home_slot cells h) (find_slot match cells h) j off in
          cc (m, (f.before j lj w d).1)
    ]

-- Where a search that does not end at an empty slot ends.
pub find_slot_hit :
    (match : Cell → Bool) (cells : List Cell) (z h : ℕ)
    → HasVacancy cells z
    → held_at cells (find_slot match cells h) ≢ 0
    → match (cell_at cells (find_slot match cells h)) ≡ true
find_slot_hit match cells z h v full = elim (find_slot-Found match cells z v h).ends [
  | inr hit ↦ hit
  | inl vacant ↦ absurd (full vacant)
]

pub held_self :
    (cells : List Cell) (i : ℕ) (c : Cell) → i < length cells → held_at (set cells i c) i ≡ c.entry
held_self cells i c lt = ap (λ (d : Cell). d.entry) (get_or-set_self cells i c empty_cell lt)

pub held_ne :
    (cells : List Cell) (i j : ℕ) (c : Cell) → j ≢ i → held_at (set cells i c) j ≡ held_at cells j
held_ne cells i j c ne =
    ap (λ (d : Cell). d.entry) (get_or-set_ne cells i j c empty_cell (λ e. ne (sym e)))

module _ (hash : ℕ → ℕ) where
  -- The way to the entry at `j` in a table with slot `i` overwritten, where neither is `i`.
  pub way_kept :
      (cells : List Cell) (i j k : ℕ) (c : Cell)
      → j ≢ i
      → within (home_slot (set cells i c) (hash (held_at (set cells i c) j))) k j ≡ true
      → within (home_slot cells (hash (held_at cells j))) k j ≡ true
  way_kept cells i j k c ne on =
      subst (λ n. within (hash (held_at cells j) % n) k j ≡ true) (length-set cells i c)
        (subst (λ (d : Cell). within (home_slot (set cells i c) (hash d.entry)) k j ≡ true)
          (get_or-set_ne cells i j c empty_cell (λ e. ne (sym e))) on)

  pub way_written :
      (cells : List Cell) (i k : ℕ) (c : Cell)
      → i < length cells
      → within (home_slot (set cells i c) (hash (held_at (set cells i c) i))) k i ≡ true
      → within (home_slot cells (hash c.entry)) k i ≡ true
  way_written cells i k c lt on =
      subst (λ n. within (hash c.entry % n) k i ≡ true) (length-set cells i c)
        (subst (λ (d : Cell). within (home_slot (set cells i c) (hash d.entry)) k i ≡ true)
          (get_or-set_self cells i c empty_cell lt) on)
