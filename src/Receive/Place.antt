-- ===== src/Receive/Place.antt =====
-- The placing pass of HTramRecv::receive: where each rank's items end up.
use htram.Prelude.{
  ℕ, ◌+◌, ◌≤◌, ◌<◌, ◌≡◌, ◌≢◌, refl, sym, subst, ap, ap₂, ◌∙◌, List, [], ◌∷◌, Option, none, some,
  true, false, ◌==◌, if◌then◌else◌, map, length, get_or, set, length-set, get_or-set_self,
  get_or-set_ne, All, ◌⊎◌, inl, inr, arith, ℕ_discrete,
}
use htram.Receive.{bump, ranks, place, read}
use htram.Receive.Counts.{count, count-hit, count-miss, length-bump, bump_self, bump_ne}

-- A rank's region after one item more has been placed.
region :
    (offset : List ℕ) (q : ℕ) (rs : List ℕ) (r : ℕ)
    → q < length offset
    → (get_or offset r 0 ≤ get_or (bump offset q) r 0)
      × (get_or (bump offset q) r 0 + count r rs ≡ get_or offset r 0 + count r (q ∷ rs))
region offset q rs r lt = elim (ℕ_discrete q r) [
  | yes e ↦
      let up : get_or (bump offset q) r 0 ≡ get_or offset r 0 + 1 =
        subst (λ k. get_or (bump offset q) k 0 ≡ get_or offset k 0 + 1) e (bump_self offset q lt) in
      (omega (arith, up), omega (arith, up, count-hit q r rs e))
  | no ne ↦ (
    omega (arith, bump_ne offset q r ne),
    omega (arith, bump_ne offset q r ne, count-miss q r rs ne),
  )
]

module _ {A : Type 0} where
  -- The payloads of one rank, in order.
  abbrev pub of_rank : ℕ → List (ℕ × A) → List A
  of_rank r [] = []
  of_rank r ((q, x) ∷ ps) = if q == r then x ∷ of_rank r ps else of_rank r ps

  -- Room for the items still to come: each rank's region lies inside the array, and no two overlap.
  pub record HasRoom (offset : List ℕ) (size : ℕ) (ps : List (ℕ × A)) : Type 0 where
    pub inside : All (λ r. r < length offset) (ranks ps)
    pub bounded : (r : ℕ) → r < length offset → get_or offset r 0 + count r (ranks ps) ≤ size
    pub apart :
        (r q : ℕ)
        → r < length offset
        → q < length offset
        → r ≢ q
        → (get_or offset r 0 + count r (ranks ps) ≤ get_or offset q 0)
          ⊎ (get_or offset q 0 + count q (ranks ps) ≤ get_or offset r 0)

  HasRoom-rest :
      (offset : List ℕ) (size q : ℕ) (x : A) (ps : List (ℕ × A))
      → HasRoom offset size ((q, x) ∷ ps)
      → HasRoom (bump offset q) size ps
  HasRoom-rest offset size q x ps room = record {
    inside = rw (length-bump offset q) (room.inside.1);
    bounded = λ r lt. omega (
      arith,
      room.bounded r (omega (arith, lt, length-bump offset q)),
      region offset q (ranks ps) r room.inside.0,
    );
    apart = λ r p lr lp ne.
        let a = region offset q (ranks ps) r room.inside.0 in
        let b = region offset q (ranks ps) p room.inside.0 in
        elim (room.apart r p (omega (arith, length-bump offset q))
          (omega (arith, length-bump offset q)) ne) [
            | inl h ↦ inl (omega (arith, a.1, b.0))
            | inr h ↦ inr (omega (arith, b.1, a.0))
          ];
  }

  -- A slot in no rank's region keeps what it has.
  place-outside :
      (ps : List (ℕ × A)) (offset : List ℕ) (items : List (Option A)) (p : ℕ)
      → All (λ r. r < length offset) (ranks ps)
      → ((r : ℕ)
          → r < length offset
          → (p < get_or offset r 0) ⊎ (get_or offset r 0 + count r (ranks ps) ≤ p))
      → get_or (place ps offset items) p none ≡ get_or items p none
  unfolding place
  place-outside [] offset items p inside out = refl
  place-outside ((q, x) ∷ ps) offset items p inside out =
      place-outside ps (bump offset q) (set items (get_or offset q 0) (some x)) p
        (rw (length-bump offset q) (inside.1))
        (λ r lt.
          let a = region offset q (ranks ps) r inside.0 in
          elim (out r (omega (arith, length-bump offset q))) [
            | inl h ↦ inl (omega (arith, a.0))
            | inr h ↦ inr (omega (arith, a.1))
          ])
      ∙ get_or-set_ne items (get_or offset q 0) p (some x) none (λ e. elim (out q inside.0) [
        | inl h ↦ omega arith
        | inr h ↦ omega (arith, count-hit q q (ranks ps) refl)
      ])

  of_rank-hit :
      (q r : ℕ) (x : A) (ps : List (ℕ × A)) → q ≡ r → of_rank r ((q, x) ∷ ps) ≡ x ∷ of_rank r ps
  of_rank-hit q r x ps e = let same : (q == r) ≡ true = ground arith in rw same

  of_rank-miss :
      (q r : ℕ) (x : A) (ps : List (ℕ × A)) → q ≢ r → of_rank r ((q, x) ∷ ps) ≡ of_rank r ps
  of_rank-miss q r x ps ne = let same : (q == r) ≡ false = ground arith in rw same

  -- The item that was just placed stays.
  place_next :
      (q : ℕ) (x : A) (ps : List (ℕ × A)) (offset : List ℕ) (items : List (Option A))
      → HasRoom offset (length items) ((q, x) ∷ ps)
      → get_or (place ((q, x) ∷ ps) offset items) (get_or offset q 0) none ≡ some x
  unfolding place
  place_next q x ps offset items room =
      let o = get_or offset q 0 in
      let lt = room.inside.0 in
      place-outside ps (bump offset q) (set items o (some x)) o
        (rw (length-bump offset q) (room.inside.1))
        (λ r l.
          let lr : r < length offset = omega (arith, l, length-bump offset q) in
          elim (ℕ_discrete q r) [
            | yes e ↦ inl (
                subst (λ k. o < get_or (bump offset q) k 0) e
                  (omega (arith, bump_self offset q lt)))
            | no ne ↦ elim (room.apart q r lt lr ne) [
              | inl h ↦ inl (omega (arith, h, count-hit q q (ranks ps) refl, bump_ne offset q r ne))
              | inr h ↦ inr (omega (arith, h, bump_ne offset q r ne, count-miss q r (ranks ps) ne))
            ]
          ])
      ∙ get_or-set_self items o (some x) none
          (omega (arith, room.bounded q lt, count-hit q q (ranks ps) refl))

  -- Each rank's region is filled with its payloads, in order.
  pub place_lem :
      (ps : List (ℕ × A)) (offset : List ℕ) (items : List (Option A)) (r : ℕ)
      → HasRoom offset (length items) ps
      → r < length offset
      → read (place ps offset items) (get_or offset r 0) (count r (ranks ps))
        ≡ map some (of_rank r ps)
  unfolding read place
  place_lem [] offset items r room lt = refl
  place_lem ((q, x) ∷ ps) offset items r room lt =
      let more = HasRoom-rest offset (length items) q x ps room in
      let items' = set items (get_or offset q 0) (some x) in
      let rest =
        place_lem ps (bump offset q) items' r
          (rw (length-set items (get_or offset q 0) (some x)) more)
          (omega (arith, length-bump offset q, lt)) in
      let tail : read (place ((q, x) ∷ ps) offset items) (get_or (bump offset q) r 0)
            (count r (ranks ps))
          ≡ map some (of_rank r ps) =
        rest in
      elim (ℕ_discrete q r) [
        | yes e ↦
            ap (read (place ((q, x) ∷ ps) offset items) (get_or offset r 0))
              (count-hit q r (ranks ps) e)
            ∙ ap₂ (λ y ys. y ∷ ys)
                (subst
                  (λ k. get_or (place ((q, x) ∷ ps) offset items) (get_or offset k 0) none ≡ some x)
                  e (place_next q x ps offset items room))
                (ap (λ o. read (place ((q, x) ∷ ps) offset items) o (count r (ranks ps)))
                    (sym (
                      subst (λ k. get_or (bump offset q) k 0 ≡ get_or offset k 0 + 1) e
                        (bump_self offset q room.inside.0)))
                  ∙ tail)
            ∙ ap (map some) (sym (of_rank-hit q r x ps e))
        | no ne ↦
            ap (read (place ((q, x) ∷ ps) offset items) (get_or offset r 0))
              (count-miss q r (ranks ps) ne)
            ∙ ap (λ o. read (place ((q, x) ∷ ps) offset items) o (count r (ranks ps)))
                (sym (bump_ne offset q r ne))
            ∙ tail
            ∙ ap (map some) (sym (of_rank-miss q r x ps ne))
      ]
