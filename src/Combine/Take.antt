-- ===== src/Combine/Take.antt =====
-- One reference in the inner loop of CombiningHold::release.
use htram.Prelude.{
  ℕ, suc, ◌+◌, ◌^◌, ◌<◌, ◌≡◌, ◌≢◌, refl, sym, ap, ◌∙◌, subst, List, [], ◌∷◌, true, false, ◌==◌,
  length, length-set, get_or, inl, inr, All, arith, ℕ_discrete,
}
use htram.Combine.{HoldOps, Entry, Ref, CombiningHold, entry_at, next_stamp, lower, erase}
use htram.Combine.Cells.{Cell}
use htram.Combine.Weigh.{one_of, one_of_self, one_of_ne, times_in}
use htram.Combine.Valid.{held, IsCounted, entry_at_self, entry_at_ne}
use htram.Combine.Erase.{taken-IsCounted, taken-items, taken-live, taken-times}
use htram.Combine.Refs.{names_it, refs_to, row_with, IsRef, IsReferred, Carries, All-Carries}

pub row_self :
    (b : ℕ) (list : List Ref) (lists : List (List Ref)) (a : ℕ)
    → a ≡ b
    → row_with b list lists a ≡ list
row_self b list lists a e = let t : (a == b) ≡ true = ground arith in rw t

pub row_ne :
    (b : ℕ) (list : List Ref) (lists : List (List Ref)) (a : ℕ)
    → a ≢ b
    → row_with b list lists a ≡ get_or lists a []
row_ne b list lists a ne = let t : (a == b) ≡ false = ground arith in rw t

module _ {A : Type 0} (ops : HoldOps A) where
  -- The hold while `release` is at bucket `b`, with `list` left of the bucket's references.
  pub record IsOpen (buckets b : ℕ) (list : List Ref) (c : CombiningHold A) : Type 0 where
    pub counts : IsCounted ops buckets c
    pub rows : length c.lists ≡ buckets
    pub referred : IsReferred ops (row_with b list c.lists) c.pool c.cells
    pub stamps : (e : ℕ) → 0 < times_in (suc e) c.cells → (entry_at ops c.pool e).stamp + 1 < 2 ^ 32

  -- The first reference passed: what it names is not in the table, or it is not how it is stamped.
  pub pass-IsReferred :
      (b : ℕ) (r : Ref) (list : List Ref) (lists : List (List Ref)) (pool : List (Entry A))
      (cells : List Cell)
      → IsReferred ops (row_with b (r ∷ list) lists) pool cells
      → ((e : ℕ) → 0 < times_in (suc e) cells → names_it e (entry_at ops pool e).stamp r ≡ 0)
      → IsReferred ops (row_with b list lists) pool cells
  pass-IsReferred b r list lists pool cells v idle = record {
    sound = λ a. elim (ℕ_discrete a b) [
      | yes d ↦
          subst (All (IsRef ops pool cells a)) (sym (row_self b list lists a d))
            (subst (All (IsRef ops pool cells a)) (row_self b (r ∷ list) lists a d) (v.sound a)).1
      | no d ↦
          subst (All (IsRef ops pool cells a))
            (row_ne b (r ∷ list) lists a d ∙ sym (row_ne b list lists a d)) (v.sound a)
    ];
    complete = λ e here.
        let at = (entry_at ops pool e).bucket in
        let stamp = (entry_at ops pool e).stamp in
        elim (ℕ_discrete at b) [
          | yes d ↦ omega (
            arith,
            v.complete e here,
            ap (refs_to e stamp) (row_self b (r ∷ list) lists at d),
            ap (refs_to e stamp) (row_self b list lists at d),
            idle e here,
          )
          | no d ↦
              subst (λ l. 0 < refs_to e stamp l)
                (row_ne b (r ∷ list) lists at d ∙ sym (row_ne b list lists at d))
                (v.complete e here)
        ];
  }

  -- The entry of a live reference leaves the table.
  abbrev pub taken_at : ℕ → ℕ → CombiningHold A → CombiningHold A
  taken_at e b c = record (erase ops e c) { live = lower c.live b }

  pub record Taken (buckets b : ℕ) (r : Ref) (list : List Ref) (c : CombiningHold A) : Type 0 where
    pub open_still : IsOpen buckets b list (taken_at r.entry b c)
    pub items :
        (w : A → ℕ)
        → held ops w (taken_at r.entry b c) + w (entry_at ops c.pool r.entry).payload ≡ held ops w c
    pub live : (a : ℕ) → get_or (taken_at r.entry b c).live a 0 + one_of a b ≡ get_or c.live a 0

  pub take-Taken :
      (buckets b : ℕ) (r : Ref) (list : List Ref) (c : CombiningHold A)
      → IsOpen buckets b (r ∷ list) c
      → (entry_at ops c.pool r.entry).stamp ≡ r.stamp
      → Taken buckets b r list c
  unfolding erase
  take-Taken buckets b r list c v same =
      let e = r.entry in
      let old = entry_at ops c.pool e in
      let bumped : Entry A = record old { stamp = next_stamp old.stamp } in
      let first =
        (subst (All (IsRef ops c.pool c.cells b)) (row_self b (r ∷ list) c.lists b refl)
          (v.referred.sound b)).0 in
      let (here, at) : (0 < times_in (suc e) c.cells) × (old.bucket ≡ b) = elim first.current [
        | inl stale ↦ absurd (stale same)
        | inr it ↦ it
      ] in
      let count = taken-times ops buckets c v.counts e here in
      let one : times_in (suc e) c.cells ≡ 1 = omega (arith, here, v.counts.stored.once e) in
      let gone : times_in (suc e) (taken_at e b c).cells ≡ 0 =
        omega (arith, one, count e, one_of_self (suc e) (suc e) refl) in
      let self = entry_at_self ops c.pool e bumped first.known in
      let newer : old.stamp < (entry_at ops (taken_at e b c).pool e).stamp =
        omega (arith, ap (λ (y : Entry A). y.stamp) self, v.stamps e here) in
      let other : (i : ℕ) → i ≢ e → entry_at ops (taken_at e b c).pool i ≡ entry_at ops c.pool i =
        λ i d. entry_at_ne ops c.pool e i bumped d in
      let left : (i : ℕ)
          → i ≢ e
          → times_in (suc i) (taken_at e b c).cells ≡ times_in (suc i) c.cells =
        λ i d. omega (arith, count i, one_of_ne (suc i) (suc e) (λ g. d (omega (arith, g)))) in
      let carries : (i : ℕ)
          → Carries ops c.pool c.cells (taken_at e b c).pool (taken_at e b c).cells i =
        λ i. elim (ℕ_discrete i e) [
          | yes d ↦
              subst (Carries ops c.pool c.cells (taken_at e b c).pool (taken_at e b c).cells)
                (sym d) (inl newer)
          | no d ↦ inr (
            ap (λ (y : Entry A). y.stamp) (other i d),
            ap (λ (y : Entry A). y.bucket) (other i d),
            omega (arith, left i d),
          )
        ] in
      let apart : (i : ℕ) → 0 < times_in (suc i) (taken_at e b c).cells → i ≢ e = λ i more d.
        absurd
          (omega (arith, gone, subst (λ j. 0 < times_in (suc j) (taken_at e b c).cells) d more)) in
      let referred : IsReferred ops (row_with b (r ∷ list) c.lists) (taken_at e b c).pool
          (taken_at e b c).cells =
        record {
          sound = λ a.
              All-Carries ops c.pool c.cells (taken_at e b c).pool (taken_at e b c).cells
                (omega (arith, length-set c.pool e bumped)) carries a
                (row_with b (r ∷ list) c.lists a) (v.referred.sound a);
          complete = λ i more.
              subst
                (λ (y : Entry A). 0 < refs_to i y.stamp (row_with b (r ∷ list) c.lists y.bucket))
                (sym (other i (apart i more)))
                (v.referred.complete i (omega (arith, more, left i (apart i more))));
        } in
      record {
        open_still = record {
          counts =
              subst (λ a. IsCounted ops buckets (taken_at e a c)) at
                (taken-IsCounted ops buckets c v.counts e here);
          rows = v.rows;
          referred =
              pass-IsReferred b r list c.lists (taken_at e b c).pool (taken_at e b c).cells referred
                (λ i more. off i (apart i more));
          stamps = λ i more.
              subst (λ (y : Entry A). y.stamp + 1 < 2 ^ 32) (sym (other i (apart i more)))
                (v.stamps i (omega (arith, more, left i (apart i more))));
        };
        items = λ w.
            subst (λ a. held ops w (taken_at e a c) + w old.payload ≡ held ops w c) at
              (taken-items ops buckets c v.counts e here w);
        live =
            subst (λ k. (a : ℕ) → get_or (taken_at e k c).live a 0 + one_of a k ≡ get_or c.live a 0)
              at (taken-live ops buckets c v.counts e here);
      }
    where
      off :
          (i : ℕ)
          → i ≢ r.entry
          → names_it i (entry_at ops (taken_at r.entry b c).pool i).stamp r ≡ 0
      off i d = let t : (r.entry == i) ≡ false = ground arith in rw t
