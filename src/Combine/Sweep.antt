-- ===== src/Combine/Sweep.antt =====
-- The inner loop of CombiningHold::release: the references of one bucket.
use htram.Prelude.{
  ℕ, suc, ◌+◌, ◌-◌, ◌≤◌, ◌<◌, ◌≡◌, ◌≢◌, refl, sym, ap, ◌∙◌, subst, List, [], ◌∷◌, ◌++◌, true, false,
  ◌==◌, ltb, length, length-append, get_or, sum_by, sum_by-append, ◌⊎◌, inl, inr, Bool-cases, arith,
  ℕ_discrete,
}
use htram.Combine.{HoldOps, Entry, Ref, CombiningHold, entry_at, erase, release_list}
use htram.Combine.Cells.{Cell}
use htram.Combine.Table.{weigh, cell_weight}
use htram.Combine.Weigh.{
  one_of, one_of_self, one_of_ne, times_in, cell_weight_full, cell_weight_empty,
}
use htram.Combine.Valid.{in_bucket, held}
use htram.Combine.Refs.{names_it, refs_to, IsReferred}
use htram.Combine.Take.{IsOpen, pass-IsReferred, taken_at, take-Taken}

-- A weight that is not zero comes from some entry.
pub record Weighs (f : ℕ → ℕ) (cells : List Cell) (e : ℕ) : Type 0 where
  pub here : 0 < times_in (suc e) cells
  pub some : 0 < f (suc e)

pub some_weighed : (f : ℕ → ℕ) (cells : List Cell) → 0 < weigh f cells → (e : ℕ) × Weighs f cells e
some_weighed f [] lt = absurd (omega arith)
some_weighed f (c ∷ cells) lt = elim (ℕ_discrete (cell_weight f c) 0) [
  | yes d ↦
      let (e, w) = some_weighed f cells (omega (arith, d)) in
      (e, record { here = omega (arith, w.here); some = w.some })
  | no d ↦
      let full : c.entry ≢ 0 = λ g. d (cell_weight_empty f c g) in
      let back : c.entry ≡ suc (c.entry - 1) = omega (arith, full) in
      (
        c.entry - 1,
        record {
          here = omega (
            arith,
            cell_weight_full (one_of (suc (c.entry - 1))) c full,
            one_of_self (suc (c.entry - 1)) c.entry back,
          );
          some = subst (λ s. 0 < f s) back (omega (arith, d, cell_weight_full f c full));
        },
      )
]

module _ {A : Type 0} (ops : HoldOps A) where
  -- A bucket without references has no live item.
  pub unreferred :
      (rows : ℕ → List Ref) (pool : List (Entry A)) (cells : List Cell) (b : ℕ)
      → IsReferred ops rows pool cells
      → rows b ≡ []
      → weigh (in_bucket ops pool b) cells ≡ 0
  unreferred rows pool cells b v none = elim (ℕ_discrete (weigh (in_bucket ops pool b) cells) 0) [
    | yes d ↦ d
    | no d ↦
        let (e, w) = some_weighed (in_bucket ops pool b) cells (omega (arith, d)) in
        let back : suc e - 1 ≡ e = omega arith in
        let some : 0 < one_of b (entry_at ops pool e).bucket =
          subst (λ i. 0 < one_of b (entry_at ops pool i).bucket) back w.some in
        let at : (entry_at ops pool e).bucket ≡ b =
          elim (ℕ_discrete (entry_at ops pool e).bucket b) [
            | yes g ↦ g
            | no g ↦ absurd (omega (arith, some, one_of_ne b (entry_at ops pool e).bucket g))
          ] in
        absurd (
          omega (
            arith,
            v.complete e w.here,
            ap (λ l. refs_to e (entry_at ops pool e).stamp l) (ap rows at ∙ none),
          ))
  ]

  -- What the loop does to a hold that is open at bucket `b`, with `out` emitted before.
  pub record Swept (buckets b limit : ℕ) (c : CombiningHold A) (out : List A) (left : List Ref)
      (c' : CombiningHold A) (out' : List A) : Type 0 where
    pub open_still : IsOpen ops buckets b left c'
    pub items : (w : A → ℕ) → held ops w c' + sum_by w out' ≡ held ops w c + sum_by w out
    pub others : (a : ℕ) → a ≢ b → get_or c'.live a 0 ≡ get_or c.live a 0
    pub fewer : (a : ℕ) → get_or c'.live a 0 ≤ get_or c.live a 0
    pub longer : length out ≤ length out'
    pub few : length out' ≤ limit
    pub ends : (limit ≤ length out') ⊎ (left ≡ [])
    pub lowest : c'.lowest ≡ c.lowest

  stale_entry :
      (pool : List (Entry A)) (r : Ref) (e : ℕ)
      → (entry_at ops pool r.entry).stamp ≢ r.stamp
      → names_it e (entry_at ops pool e).stamp r ≡ 0
  stale_entry pool r e stale = elim (ℕ_discrete r.entry e) [
    | yes d ↦
        let other : r.stamp ≢ (entry_at ops pool e).stamp =
          λ g. stale (ap (λ i. (entry_at ops pool i).stamp) d ∙ sym g) in
        let t : (r.stamp == (entry_at ops pool e).stamp) ≡ false = ground arith in
        let h : (r.entry == e) ≡ true = ground arith in rw (h, t)
    | no d ↦ let h : (r.entry == e) ≡ false = ground arith in rw h
  ]

  pub release_list-Swept :
      (buckets b limit : ℕ) (list : List Ref) (c : CombiningHold A) (out : List A)
      → IsOpen ops buckets b list c
      → length out ≤ limit
      → Swept buckets b limit c out
          (release_list ops b limit list (c, out)).0
          (release_list ops b limit list (c, out)).1
          (release_list ops b limit list (c, out)).2
  unfolding release_list
  release_list-Swept buckets b limit [] c out v few = record {
    open_still = v;
    items = λ w. refl;
    others = λ a ne. refl;
    fewer = λ a. omega arith;
    longer = omega arith;
    few = few;
    ends = inr refl;
    lowest = refl;
  }
  release_list-Swept buckets b limit (r ∷ rs) c out v few =
      elim (Bool-cases (ltb (length out) limit)) [
        | inr stop ↦ rw stop (record {
          open_still = v;
          items = λ w. refl;
          others = λ a ne. refl;
          fewer = λ a. omega arith;
          longer = omega arith;
          few = few;
          ends = inl (ground (arith, stop));
          lowest = refl;
        })
        | inl go_on ↦ rw go_on (elim (Bool-cases ((entry_at ops c.pool r.entry).stamp == r.stamp)) [
          | inr stale ↦ rw stale (
              release_list-Swept buckets b limit rs c out
                (record {
                  counts = v.counts;
                  rows = v.rows;
                  referred =
                      pass-IsReferred ops b r rs c.lists c.pool c.cells v.referred
                        (λ e here. stale_entry c.pool r e (λ d. absurd (ground arith)));
                  stamps = v.stamps;
                })
                few)
          | inl current ↦
              let same : (entry_at ops c.pool r.entry).stamp ≡ r.stamp = ground arith in
              let t = take-Taken ops buckets b r rs c v same in
              let item = (entry_at ops c.pool r.entry).payload in
              let more = length-append out (item ∷ []) in
              let rest =
                release_list-Swept buckets b limit rs (taken_at ops r.entry b c) (out ++ item ∷ [])
                  t.open_still (ground (arith, more)) in
              rw current (record {
                open_still = rest.open_still;
                items =
                    λ w. omega (arith, rest.items w, t.items w, sum_by-append w out (item ∷ []));
                others = λ a ne.
                    omega (arith, rest.others a ne, t.live a, one_of_ne a b (λ d. ne (sym d)));
                fewer = λ a. omega (arith, rest.fewer a, t.live a);
                longer = omega (arith, rest.longer, more);
                few = rest.few;
                ends = rest.ends;
                lowest = rest.lowest ∙ kept_lowest r.entry c;
              })
        ])
      ]
    where
      kept_lowest : (e : ℕ) (c : CombiningHold A) → (erase ops e c).lowest ≡ c.lowest
      kept_lowest e c = refl
