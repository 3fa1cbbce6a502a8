-- ===== src/Combine/Erase.antt =====
-- `erase`, of an entry that the table has.
use htram.Prelude.{
  ℕ, suc, ◌+◌, ◌-◌, ◌≤◌, ◌<◌, ◌≡◌, refl, sym, ap, ◌∙◌, subst, List, ◌∷◌, length, length-set, get_or,
  set, arith, ℕ_discrete,
}
use htram.Combine.{HoldOps, Entry, CombiningHold, entry_at, hash_in, next_stamp, lower, erase}
use htram.Combine.Cells.{Cell, erase_cell}
use htram.Combine.Table.{HasVacancy, weigh}
use htram.Combine.Shift.{Erased, erase_cell-Erased}
use htram.Combine.Weigh.{one_of, one_of_self, one_of_ne, times_in, weigh_congr, slot_of}
use htram.Combine.Tags.{erase_cell-IsTagged}
use htram.Combine.Valid.{
  times, entry_of, held, IsStored, IsCounted, IsCounted-vacancy, entry_at_self, entry_at_ne,
}
use htram.Combine.Fold.{rewrite-IsStored}
use htram.Combine.Live.{get_or-lower}

module _ {A : Type 0} (ops : HoldOps A) where
  -- A rewritten record agrees on what it keeps.
  pub kept_by :
      {B : Type 0} (f : Entry A → B) (pool : List (Entry A)) (e : ℕ) (x : Entry A)
      → e < length pool
      → f x ≡ f (entry_at ops pool e)
      → (i : ℕ) → f (entry_at ops (set pool e x) i) ≡ f (entry_at ops pool i)
  kept_by f pool e x lt same i = elim (ℕ_discrete i e) [
    | yes d ↦
        ap (λ j. f (entry_at ops (set pool e x) j)) d
        ∙ ap f (entry_at_self ops pool e x lt)
        ∙ same
        ∙ sym (ap (λ j. f (entry_at ops pool j)) d)
    | no d ↦ ap f (entry_at_ne ops pool e i x d)
  ]

  module _ (pool : List (Entry A)) (free : List ℕ) (cells : List Cell) (e z : ℕ)
      (v : IsStored ops pool free cells) (vacancy : HasVacancy cells z)
      (here : 0 < times_in (suc e) cells) where
    abbrev pub emptied : List Cell
    emptied = erase_cell (hash_in ops pool) (suc e) cells

    pub emptied-Erased : Erased (hash_in ops pool) (suc e) cells emptied
    emptied-Erased =
        let (j, st) = slot_of cells (suc e) here in
        erase_cell-Erased (hash_in ops pool) cells (suc e) j z v.unbroken vacancy st.some st.inside
          st.here

    count-emptied : (s : ℕ) → times_in s emptied + one_of s (suc e) ≡ times_in s cells
    count-emptied s = emptied-Erased.fewer (one_of s)

    was_in : (s : ℕ) → 0 < times_in s emptied → 0 < times_in s cells
    was_in s more = omega (arith, more, count-emptied s)

    emptied-IsStored : IsStored ops pool (e ∷ free) emptied
    emptied-IsStored = record {
      unbroken = emptied-Erased.unbroken;
      tagged = erase_cell-IsTagged (hash_in ops pool) (suc e) cells v.tagged;
      once = λ i. elim (ℕ_discrete i e) [
        | yes d ↦
            subst (λ j. times_in (suc j) emptied + times j (e ∷ free) ≤ 1) (sym d)
              (omega (
                arith,
                v.once e,
                here,
                count-emptied (suc e),
                one_of_self (suc e) (suc e) refl,
                one_of_self e e refl,
              ))
        | no d ↦ omega (arith, v.once i, count-emptied (suc i), one_of_ne i e (λ g. d (sym g)))
      ];
      inside = λ i more. elim (ℕ_discrete i e) [
        | yes d ↦ subst (λ j. j < length pool) (sym d) (v.inside e (omega (arith, here)))
        | no d ↦
            v.inside i (omega (arith, more, count-emptied (suc i), one_of_ne i e (λ g. d (sym g))))
      ];
      keyed = λ s more. v.keyed s (was_in s more);
      apart = λ s t more other. v.apart s t (was_in s more) (was_in t other);
    }

  module _ (buckets : ℕ) (c : CombiningHold A) (v : IsCounted ops buckets c) (e : ℕ)
      (here : 0 < times_in (suc e) c.cells) where
    abbrev old : Entry A
    old = entry_at ops c.pool e

    abbrev bumped : Entry A
    bumped = record old { stamp = next_stamp old.stamp }

    lt : e < length c.pool
    lt = v.stored.inside e (omega (arith, here))

    gone :
        Erased
          (hash_in ops c.pool)
          (suc e)
          c.cells
          (erase_cell (hash_in ops c.pool) (suc e) c.cells)
    gone =
        let (z, vacancy) = IsCounted-vacancy ops buckets c v in
        emptied-Erased c.pool c.free c.cells e z v.stored vacancy here

    -- What is left in the table, by any weight of what the records keep.
    weigh-erase :
        (f : Entry A → ℕ)
        → f bumped ≡ f old
        → weigh
              (λ s. f (entry_of ops (set c.pool e bumped) s))
              (erase_cell (hash_in ops c.pool) (suc e) c.cells)
            + f old
          ≡ weigh (λ s. f (entry_of ops c.pool s)) c.cells
    weigh-erase f same =
        let back : suc e - 1 ≡ e = omega arith in
        let here : f (entry_of ops c.pool (suc e)) ≡ f old =
          ap (λ i. f (entry_at ops c.pool i)) back in
        omega (
          arith,
          gone.fewer (λ s. f (entry_of ops c.pool s)),
          here,
          weigh_congr (λ s. f (entry_of ops (set c.pool e bumped) s))
              (λ s. f (entry_of ops c.pool s)) (erase_cell (hash_in ops c.pool) (suc e) c.cells)
              (λ s more. kept_by f c.pool e bumped lt same (s - 1)),
        )

    -- A live item of a bucket less.
    present : 0 < get_or c.live old.bucket 0
    present = omega (
      arith,
      v.exact old.bucket,
      weigh-erase (λ (y : Entry A). one_of old.bucket y.bucket) refl,
      one_of_self old.bucket old.bucket refl,
    )

    -- The live counts after `release` has taken the entry from its bucket.
    abbrev pub taken : CombiningHold A
    taken = record (erase ops e c) { live = lower c.live old.bucket }

    pub taken-IsCounted : IsCounted ops buckets taken
    unfolding erase
    taken-IsCounted =
        let (z, vacancy) = IsCounted-vacancy ops buckets c v in
        let smaller = emptied-IsStored c.pool c.free c.cells e z v.stored vacancy here in
        let back : suc e - 1 ≡ e = omega arith in
        let keyed : old.key ≡ ops.key old.payload =
          subst (λ i. (entry_at ops c.pool i).key ≡ ops.key (entry_at ops c.pool i).payload) back
            (v.stored.keyed (suc e) here) in
        record {
          stored = rewrite-IsStored ops c.pool (e ∷ c.free) _ e bumped smaller lt refl keyed;
          wide = omega (arith, gone.same_length, v.wide);
          room = omega (arith, gone.same_length, v.room);
          counted = omega (arith, gone.fewer (λ s. 1), v.counted);
          lanes = length-set c.live old.bucket _ ∙ v.lanes;
          exact = λ b. omega (
            arith,
            v.exact b,
            get_or-lower c.live old.bucket b present,
            weigh-erase (λ (y : Entry A). one_of b y.bucket) refl,
          );
        }

    pub taken-items : (w : A → ℕ) → held ops w taken + w old.payload ≡ held ops w c
    unfolding erase
    taken-items w = weigh-erase (λ (y : Entry A). w y.payload) refl

    pub taken-live : (b : ℕ) → get_or taken.live b 0 + one_of b old.bucket ≡ get_or c.live b 0
    taken-live b = get_or-lower c.live old.bucket b present

    pub taken-times :
        (i : ℕ) → times_in (suc i) taken.cells + one_of (suc i) (suc e) ≡ times_in (suc i) c.cells
    unfolding erase
    taken-times i = gone.fewer (one_of (suc i))
