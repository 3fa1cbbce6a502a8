-- ===== src/Combine/Shift.antt =====
-- Deletion by shifting back: the invariant of the loop of `erase`, and what it leaves.
use htram.Prelude.{
  ℕ, zero, suc, ◌+◌, ◌<◌, ◌≡◌, ◌≢◌, sym, ap, ◌∙◌, subst, List, Bool, true, false, ◌==◌, length, set,
  length-set, get_or-set_ne, inl, inr, Bool-cases, arith, ℕ_discrete,
}
use htram.Combine.Cyclic.{
  within, after, movable, succ, succ-lt, within_sub, movable-within, not_movable-within,
  within-after, after-succ, after_next, after_all, succ_ne, gap, gap-lt, gap-succ,
}
use htram.Combine.Cells.{
  Cell, empty_cell, cell_at, home_slot, clear, shift_back, find_slot, erase_cell,
}
use htram.Combine.Table.{
  held_at, HasVacancy, IsUnbroken, cell_weight, weigh, weigh-set, next_slot-succ, find_slot-Found,
  find_slot_full, find_slot_hit, way_kept, way_written, held_self, held_ne,
}

module _ (hash : ℕ → ℕ) where
  -- The hole counts as taken: every way to an entry is unbroken but for it. The entries between the
  -- hole and `next` have been looked at, and their ways do not pass the hole.
  pub record Shifting (z hole next : ℕ) (cells : List Cell) : Type 0 where
    pub hole-lt : hole < length cells
    pub next-lt : next < length cells
    pub apart : hole ≢ next
    pub vacancy : HasVacancy cells z
    pub outside : z ≢ hole
    pub ahead : after hole z next ≡ false
    pub unbroken :
        (j k : ℕ)
        → j < length cells
        → k < length cells
        → j ≢ hole
        → k ≢ hole
        → held_at cells j ≢ 0
        → within (home_slot cells (hash (held_at cells j))) k j ≡ true
        → held_at cells k ≢ 0
    pub scanned :
        (k : ℕ)
        → k < length cells
        → after hole k next ≡ true
        → (held_at cells k ≢ 0) × (within (home_slot cells (hash (held_at cells k))) hole k ≡ false)

  -- What the loop makes of the table: the entry in the hole is gone.
  pub record Shifted (hole : ℕ) (cells cells' : List Cell) : Type 0 where
    pub same_length : length cells' ≡ length cells
    pub unbroken : IsUnbroken hash cells'
    pub fewer : (w : ℕ → ℕ) → weigh w cells' + cell_weight w (cell_at cells hole) ≡ weigh w cells

  -- The loop stops at an empty slot, and no way passes the hole any more.
  clear-Shifted :
      (z hole next : ℕ) (cells : List Cell)
      → Shifting z hole next cells
      → held_at cells next ≡ 0
      → Shifted hole cells (clear cells hole)
  unfolding clear
  clear-Shifted z hole next cells s stop = record {
    same_length = length-set cells hole gone;
    unbroken = λ j k lj lk full on.
        let j_ne : j ≢ hole = λ e. full (
          subst (λ i. held_at (set cells hole gone) i ≡ 0) (sym e)
            (held_self cells hole gone s.hole-lt)) in
        let lj' : j < length cells = omega (arith, length-set cells hole gone) in
        let lk' : k < length cells = omega (arith, length-set cells hole gone) in
        let full' : held_at cells j ≢ 0 = λ e. full (held_ne cells hole j gone j_ne ∙ e) in
        let on' = way_kept hash cells hole j k gone j_ne on in
        elim (ℕ_discrete k hole) [
          | yes e ↦ absurd (
              no_way j lj' j_ne full'
                (subst (λ i. within (home_slot cells (hash (held_at cells j))) i j ≡ true) e on'))
          | no k_ne ↦ λ d.
              s.unbroken j k lj' lk' j_ne k_ne full' on' (sym (held_ne cells hole k gone k_ne) ∙ d)
        ];
    fewer = λ w. omega (arith, weigh-set w cells hole gone s.hole-lt);
  }
    where
      gone : Cell
      gone = record { entry = 0; tag = (cell_at cells hole).tag }

      no_way :
          (j : ℕ)
          → j < length cells
          → j ≢ hole
          → held_at cells j ≢ 0
          → within (home_slot cells (hash (held_at cells j))) hole j ≡ true
          → ⊥
      no_way j lj ne full on =
          elim (Bool-cases (within (home_slot cells (hash (held_at cells j))) next j)) [
            | inl through ↦
                s.unbroken j next lj s.next-lt ne (λ e. s.apart (sym e)) full through stop
            | inr short ↦ cc (
              on,
              (s.scanned j lj (
                  within-after (home_slot cells (hash (held_at cells j))) hole j next on short
                    ne)).1,
            )
          ]

  -- The entry at `next` moves into the hole.
  move-Shifting :
      (z hole next : ℕ) (cells : List Cell)
      → Shifting z hole next cells
      → held_at cells next ≢ 0
      → movable hole next (home_slot cells (hash (held_at cells next))) ≡ true
      → Shifting z next (succ (length cells) next) (set cells hole (cell_at cells next))
  move-Shifting z hole next cells s full m = record {
    hole-lt = omega (arith, long, s.next-lt);
    next-lt = omega (arith, long, succ-lt (length cells) next s.next-lt);
    apart = succ_ne (length cells) hole next s.hole-lt s.next-lt s.apart;
    vacancy = record {
      inside = omega (arith, long, s.vacancy.inside);
      vacant = held_ne cells hole z moved s.outside ∙ s.vacancy.vacant;
    };
    outside = z_ne;
    ahead = elim (Bool-cases (after next z (succ (length cells) next))) [
      | inl t ↦ absurd (after_next (length cells) next z s.vacancy.inside s.next-lt t)
      | inr f ↦ f
    ];
    unbroken = λ j k lj lk j_ne k_ne held on. elim (ℕ_discrete k hole) [
      | yes e ↦ λ d. full (
          sym (held_self cells hole moved s.hole-lt)
          ∙ subst (λ i. held_at (set cells hole moved) i ≡ 0) e d)
      | no k_hole ↦ λ d.
          way j k (omega (arith, long)) (omega (arith, long)) j_ne k_ne k_hole held on
            (sym (held_ne cells hole k moved k_hole) ∙ d)
    ];
    scanned = λ k lk t. absurd (after_next (length cells) next k (omega (arith, long)) s.next-lt t);
  }
    where
      moved : Cell
      moved = cell_at cells next

      long : length (set cells hole moved) ≡ length cells
      long = length-set cells hole moved

      z_ne : z ≢ next
      z_ne e = full (subst (λ i. held_at cells i ≡ 0) e s.vacancy.vacant)

      way :
          (j k : ℕ)
          → j < length cells
          → k < length cells
          → j ≢ next
          → k ≢ next
          → k ≢ hole
          → held_at (set cells hole moved) j ≢ 0
          → within (home_slot (set cells hole moved) (hash (held_at (set cells hole moved) j))) k j
            ≡ true
          → held_at cells k ≢ 0
      way j k lj lk j_ne k_ne k_hole held on = elim (ℕ_discrete j hole) [
        | yes e ↦
            let here = way_written hash cells hole k moved s.hole-lt (
              subst
                (λ i.
                  within
                    (home_slot (set cells hole moved) (hash (held_at (set cells hole moved) i))) k i
                  ≡ true)
                e on) in
            let home = home_slot cells (hash (held_at cells next)) in
            s.unbroken next k s.next-lt lk (λ d. s.apart (sym d)) k_hole full
              (within_sub home k hole next (movable-within hole next home s.apart m) here)
        | no j_hole ↦
            s.unbroken j k lj lk j_hole k_hole (λ d. held (held_ne cells hole j moved j_hole ∙ d))
              (way_kept hash cells hole j k moved j_hole on)
      ]

  -- The entry at `next` stays.
  skip-Shifting :
      (z hole next : ℕ) (cells : List Cell)
      → Shifting z hole next cells
      → held_at cells next ≢ 0
      → movable hole next (home_slot cells (hash (held_at cells next))) ≡ false
      → Shifting z hole (succ (length cells) next) cells
  skip-Shifting z hole next cells s full m = record {
    hole-lt = s.hole-lt;
    next-lt = succ-lt (length cells) next s.next-lt;
    apart = λ e. z_scanned (subst (λ i. after hole z i ≡ true) e (after_all hole z s.outside));
    vacancy = s.vacancy;
    outside = s.outside;
    ahead = elim (Bool-cases (after hole z (succ (length cells) next))) [
      | inl t ↦ absurd (z_scanned t)
      | inr f ↦ f
    ];
    unbroken = s.unbroken;
    scanned = λ k lk t.
        elim (after-succ (length cells) hole k next lk s.next-lt (λ e. s.apart (sym e)) t) [
          | inl before ↦ s.scanned k lk before
          | inr e ↦
              subst
                (λ i.
                  (held_at cells i ≢ 0)
                  × (within (home_slot cells (hash (held_at cells i))) hole i ≡ false))
                (sym e)
                (
                  full,
                  not_movable-within hole next (home_slot cells (hash (held_at cells next))) s.apart
                      m,
                )
        ];
  }
    where
      z_scanned : after hole z (succ (length cells) next) ≡ true → ⊥
      z_scanned t =
          elim (after-succ (length cells) hole z next s.vacancy.inside s.next-lt
            (λ e. s.apart (sym e)) t) [
              | inl before ↦ cc (before, s.ahead)
              | inr e ↦ full (subst (λ i. held_at cells i ≡ 0) e s.vacancy.vacant)
            ]

  shift_back-Shifted :
      (n z hole next : ℕ) (cells : List Cell)
      → Shifting z hole next cells
      → gap (length cells) next z < n
      → Shifted hole cells (shift_back hash n hole next cells)
  unfolding shift_back
  shift_back-Shifted zero z hole next cells s m = absurd (omega arith)
  shift_back-Shifted (suc n) z hole next cells s m = elim (Bool-cases (held_at cells next == 0)) [
    | inl stop ↦
        let e : held_at cells next ≡ 0 = ground arith in
        rw stop (clear-Shifted z hole next cells s e)
    | inr go_on ↦
        let full : held_at cells next ≢ 0 = λ e. ground arith in
        let off : next ≢ z =
          λ e. full (subst (λ i. held_at cells i ≡ 0) (sym e) s.vacancy.vacant) in
        let less = gap-succ (length cells) next z s.next-lt s.vacancy.inside off in
        rw (go_on, next_slot-succ cells next s.next-lt)
          (elim (Bool-cases (movable hole next (home_slot cells (hash (held_at cells next))))) [
            | inr stays ↦ rw stays (
                shift_back-Shifted n z hole (succ (length cells) next) cells
                  (skip-Shifting z hole next cells s full stays) (omega (arith, less, m)))
            | inl moves ↦
                let cells' = set cells hole (cell_at cells next) in
                let long : length cells' ≡ length cells =
                  length-set cells hole (cell_at cells next) in
                let rest =
                  shift_back-Shifted n z next (succ (length cells) next) cells'
                    (move-Shifting z hole next cells s full moves)
                    (subst (λ c. gap c (succ (length cells) next) z < n) (sym long)
                      (omega (arith, less, m))) in
                let same : cell_at cells' next ≡ cell_at cells next =
                  get_or-set_ne cells hole next (cell_at cells next) empty_cell s.apart in
                rw moves (record {
                  same_length = rest.same_length ∙ long;
                  unbroken = rest.unbroken;
                  fewer = λ w. omega (
                    arith,
                    rest.fewer w,
                    ap (cell_weight w) same,
                    weigh-set w cells hole (cell_at cells next) s.hole-lt,
                  );
                })
          ])
  ]

  -- `erase`, for an entry that the table has: the entry goes, the others stay where a search finds
  -- them.
  pub record Erased (s : ℕ) (cells cells' : List Cell) : Type 0 where
    pub same_length : length cells' ≡ length cells
    pub unbroken : IsUnbroken hash cells'
    pub fewer : (w : ℕ → ℕ) → weigh w cells' + w s ≡ weigh w cells

  -- The deletion by shifting back, for an entry that a table with an empty slot holds: the entry
  -- goes, all others stay, and no empty slot comes to stand between an entry's home and the entry.
  pub erase_cell-Erased :
      (cells : List Cell) (s j z : ℕ)
      → IsUnbroken hash cells
      → HasVacancy cells z
      → s ≢ 0
      → j < length cells
      → held_at cells j ≡ s
      → Erased s cells (erase_cell hash s cells)
  unfolding erase_cell
  erase_cell-Erased cells s j z unbroken v ne lj e =
      let match : Cell → Bool = λ c. c.entry == s in
      let hole = find_slot match cells (hash s) in
      let f = find_slot-Found match cells z v (hash s) in
      let full : held_at cells j ≢ 0 = λ d. ne (sym e ∙ d) in
      let hit : (held_at cells j == s) ≡ true = ground arith in
      let there : (held_at cells hole == s) ≡ true =
        find_slot_hit match cells z (hash s) v
          (find_slot_full hash match cells z (hash s) j v unbroken lj full hit (ap hash e)) in
      let here : held_at cells hole ≡ s = ground arith in
      let c = length cells in
      let z_ne : z ≢ hole = λ d. ne (sym here ∙ subst (λ i. held_at cells i ≡ 0) d v.vacant) in
      let shifted =
        shift_back-Shifted c z hole (succ c hole) cells
          (record {
            hole-lt = f.inside;
            next-lt = succ-lt c hole f.inside;
            apart = succ_ne c z hole v.inside f.inside z_ne;
            vacancy = v;
            outside = z_ne;
            ahead = elim (Bool-cases (after hole z (succ c hole))) [
              | inl t ↦ absurd (after_next c hole z v.inside f.inside t)
              | inr g ↦ g
            ];
            unbroken = λ i k li lk i_ne k_ne held on. unbroken i k li lk held on;
            scanned = λ k lk t. absurd (after_next c hole k lk f.inside t);
          })
          (gap-lt c (succ c hole) z (succ-lt c hole f.inside) v.inside) in
      rw (next_slot-succ cells hole f.inside) (record {
        same_length = shifted.same_length;
        unbroken = shifted.unbroken;
        fewer = λ w.
            let weight : cell_weight w (cell_at cells hole) ≡ w s =
              let t : (held_at cells hole == 0) ≡ false = ground arith in rw t (ap w here) in
            omega (arith, shifted.fewer w, weight);
      })
