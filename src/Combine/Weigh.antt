-- ===== src/Combine/Weigh.antt =====
-- Which entries a table has, by weights: an entry stands in as many slots as its own indicator weighs.
use htram.Prelude.{
  ℕ, zero, suc, ◌+◌, ◌<◌, ◌≤◌, ◌≡◌, ◌≢◌, refl, sym, ap, ◌∙◌, subst, List, [], ◌∷◌, true, false,
  ◌==◌, if◌then◌else◌, length, arith, ℕ_discrete,
}
use htram.Combine.Cells.{Cell, home_slot}
use htram.Combine.Table.{held_at, cell_weight, weigh, IsUnbroken}
use htram.Combine.Cyclic.{within}

-- In how many slots `s` stands.
abbrev pub one_of : ℕ → ℕ → ℕ
one_of s t = if t == s then 1 else 0

abbrev pub times_in : ℕ → List Cell → ℕ
times_in s cells = weigh (one_of s) cells

pub one_of_self : (s t : ℕ) → t ≡ s → one_of s t ≡ 1
one_of_self s t e = ground arith

pub one_of_ne : (s t : ℕ) → t ≢ s → one_of s t ≡ 0
one_of_ne s t ne = ground arith

-- A weight of a cell, by what it holds.
pub cell_weight_full : (w : ℕ → ℕ) (c : Cell) → c.entry ≢ 0 → cell_weight w c ≡ w c.entry
cell_weight_full w c ne = let t : (c.entry == 0) ≡ false = ground arith in rw t

pub cell_weight_empty : (w : ℕ → ℕ) (c : Cell) → c.entry ≡ 0 → cell_weight w c ≡ 0
cell_weight_empty w c e = let t : (c.entry == 0) ≡ true = ground arith in rw t

pub times-held :
    (cells : List Cell) (j s : ℕ)
    → j < length cells
    → s ≢ 0
    → held_at cells j ≡ s
    → 0 < times_in s cells
times-held [] j s lt ne e = absurd (omega arith)
times-held (c ∷ cells) zero s lt ne e =
    omega (arith, cell_weight_full (one_of s) c (λ d. ne (sym e ∙ d)), one_of_self s c.entry e)
times-held (c ∷ cells) (suc j) s lt ne e = omega (arith, times-held cells j s (omega arith) ne e)

-- The slot of an entry that the table has.
pub record Stands (s j : ℕ) (cells : List Cell) : Type 0 where
  pub inside : j < length cells
  pub here : held_at cells j ≡ s
  pub some : s ≢ 0

pub slot_of : (cells : List Cell) (s : ℕ) → 0 < times_in s cells → (j : ℕ) × Stands s j cells
slot_of [] s lt = absurd (omega arith)
slot_of (c ∷ cells) s lt = elim (ℕ_discrete c.entry 0) [
  | yes e ↦
      let (j, st) = slot_of cells s (omega (arith, cell_weight_empty (one_of s) c e)) in
      (suc j, record { inside = omega (arith, st.inside); here = st.here; some = st.some })
  | no ne ↦ elim (ℕ_discrete c.entry s) [
    | yes e ↦ (0, record { inside = omega arith; here = e; some = λ d. ne (e ∙ d) })
    | no other ↦
        let (j, st) =
          slot_of cells s
            (omega (arith, cell_weight_full (one_of s) c ne, one_of_ne s c.entry other)) in
        (suc j, record { inside = omega (arith, st.inside); here = st.here; some = st.some })
  ]
]

-- An entry of the table weighs no more than the table.
pub weigh-one : (f : ℕ → ℕ) (cells : List Cell) (s : ℕ) → 0 < times_in s cells → f s ≤ weigh f cells
weigh-one f [] s here = absurd (omega arith)
weigh-one f (c ∷ cells) s here = elim (ℕ_discrete c.entry 0) [
  | yes g ↦ omega (
    arith,
    weigh-one f cells s (omega (arith, here, cell_weight_empty (one_of s) c g)),
    cell_weight_empty f c g,
  )
  | no g ↦ elim (ℕ_discrete c.entry s) [
    | yes d ↦ omega (arith, cell_weight_full f c g, ap f d)
    | no d ↦ omega (
      arith,
      weigh-one f cells s
          (omega (arith, here, cell_weight_full (one_of s) c g, one_of_ne s c.entry d)),
    )
  ]
]

-- Weights that agree on what the table has.
pub weigh_congr :
    (v w : ℕ → ℕ) (cells : List Cell)
    → ((s : ℕ) → 0 < times_in s cells → v s ≡ w s)
    → weigh v cells ≡ weigh w cells
weigh_congr v w [] agree = refl
weigh_congr v w (c ∷ cells) agree =
    let rest = weigh_congr v w cells (λ s lt. agree s (omega arith)) in
    elim (ℕ_discrete c.entry 0) [
      | yes e ↦ omega (arith, rest, cell_weight_empty v c e, cell_weight_empty w c e)
      | no ne ↦
          let here = agree c.entry (
            omega
              (arith, cell_weight_full (one_of c.entry) c ne, one_of_self c.entry c.entry refl)) in
          omega (arith, rest, here, cell_weight_full v c ne, cell_weight_full w c ne)
    ]

-- Weights that agree but at one entry, which stands in one slot.
pub weigh_point :
    (v w : ℕ → ℕ) (s : ℕ) (cells : List Cell)
    → ((t : ℕ) → t ≢ 0 → t ≢ s → v t ≡ w t)
    → times_in s cells ≡ 1
    → weigh v cells + w s ≡ weigh w cells + v s
weigh_point v w s [] agree one = absurd (omega arith)
weigh_point v w s (c ∷ cells) agree one = elim (ℕ_discrete c.entry 0) [
  | yes e ↦ omega (
    arith,
    weigh_point v w s cells agree (omega (arith, one, cell_weight_empty (one_of s) c e)),
    cell_weight_empty v c e,
    cell_weight_empty w c e,
  )
  | no ne ↦
      let in_v = cell_weight_full v c ne in
      let in_w = cell_weight_full w c ne in
      let in_s = cell_weight_full (one_of s) c ne in
      elim (ℕ_discrete c.entry s) [
        | yes e ↦
            let gone : times_in s cells ≡ 0 = omega (arith, one, in_s, one_of_self s c.entry e) in
            let rest = weigh_congr v w cells (λ t lt.
              let (j, st) = slot_of cells t lt in
              agree t st.some
                (λ d. absurd (omega (arith, gone, subst (λ k. 0 < times_in k cells) d lt)))) in
            let same_v : v c.entry ≡ v s = ap v e in
            let same_w : w c.entry ≡ w s = ap w e in omega (arith, rest, in_v, in_w, same_v, same_w)
        | no other ↦
            let rest =
              weigh_point v w s cells agree (omega (arith, one, in_s, one_of_ne s c.entry other)) in
            omega (arith, rest, in_v, in_w, agree c.entry ne other)
      ]
]

-- The hashes may change for what is not in the table.
pub IsUnbroken-congr :
    (hash other : ℕ → ℕ) (cells : List Cell)
    → ((s : ℕ) → 0 < times_in s cells → other s ≡ hash s)
    → IsUnbroken hash cells
    → IsUnbroken other cells
IsUnbroken-congr hash other cells agree unbroken j k lj lk full on = unbroken j k lj lk full (
    subst (λ h. within (home_slot cells h) k j ≡ true)
      (agree (held_at cells j) (times-held cells j (held_at cells j) lj full refl)) on)
