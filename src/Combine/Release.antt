-- ===== src/Combine/Release.antt =====
-- CombiningHold::release: the buckets from the lowest on, and the lowest bucket raised at the end.
use htram.Prelude.{
  ℕ, zero, suc, ◌+◌, ◌^◌, ◌≤◌, ◌<◌, ◌≡◌, ◌≢◌, refl, sym, ap, ◌∙◌, subst, List, [], true, false, ltb,
  ℤ, pos, leb_ℤ, length, length-set, get_or, set, get_or-set_self, get_or-set_ne, get_or_beyond,
  sum_by, ◌⊎◌, inl, inr, Bool-cases, arith, ℕ_discrete,
}
use htram.Combine.{HoldOps, Ref, CombiningHold, entry_at, release_list, release_from}
use htram.Combine.Weigh.{times_in}
use htram.Combine.Valid.{held, IsCounted}
use htram.Combine.Refs.{row_with, IsReferred, IsReferred-congr}
use htram.Combine.Take.{IsOpen, row_self, row_ne}
use htram.Combine.Sweep.{Swept, release_list-Swept, unreferred}

module _ {A : Type 0} (ops : HoldOps A) where
  -- A hold between two buckets.
  pub record IsShut (buckets : ℕ) (c : CombiningHold A) : Type 0 where
    pub counts : IsCounted ops buckets c
    pub rows : length c.lists ≡ buckets
    pub referred : IsReferred ops (λ a. get_or c.lists a []) c.pool c.cells
    pub stamps : (e : ℕ) → 0 < times_in (suc e) c.cells → (entry_at ops c.pool e).stamp + 1 < 2 ^ 32

  row_with-own :
      (b : ℕ) (lists : List (List Ref)) (a : ℕ)
      → row_with b (get_or lists b []) lists a ≡ get_or lists a []
  row_with-own b lists a = elim (ℕ_discrete a b) [
    | yes d ↦ row_self b (get_or lists b []) lists a d ∙ ap (λ i. get_or lists i []) (sym d)
    | no d ↦ row_ne b (get_or lists b []) lists a d
  ]

  to_open :
      (buckets b : ℕ) (c : CombiningHold A)
      → IsShut buckets c
      → IsOpen ops buckets b (get_or c.lists b []) c
  to_open buckets b c v = record {
    counts = v.counts;
    rows = v.rows;
    referred =
        IsReferred-congr ops (λ a. get_or c.lists a []) _ c.pool c.cells (row_with-own b c.lists)
          v.referred;
    stamps = v.stamps;
  }

  abbrev pub with_lists : List (List Ref) → CombiningHold A → CombiningHold A
  with_lists lists c = record c { lists = lists }

  pub with_lists-IsCounted :
      (buckets : ℕ) (lists : List (List Ref)) (c : CombiningHold A)
      → IsCounted ops buckets c
      → IsCounted ops buckets (with_lists lists c)
  with_lists-IsCounted buckets lists c v = record {
    stored = v.stored;
    wide = v.wide;
    room = v.room;
    counted = v.counted;
    lanes = v.lanes;
    exact = v.exact;
  }

  set-row_with :
      (b : ℕ) (left : List Ref) (lists : List (List Ref)) (a : ℕ)
      → b < length lists
      → get_or (set lists b left) a [] ≡ row_with b left lists a
  set-row_with b left lists a lt = elim (ℕ_discrete a b) [
    | yes d ↦
        ap (λ i. get_or (set lists b left) i []) d
        ∙ get_or-set_self lists b left [] lt
        ∙ sym (row_self b left lists a d)
    | no d ↦ get_or-set_ne lists b a left [] (λ g. d (sym g)) ∙ sym (row_ne b left lists a d)
  ]

  to_shut :
      (buckets b : ℕ) (left : List Ref) (c : CombiningHold A)
      → b < buckets
      → IsOpen ops buckets b left c
      → IsShut buckets (with_lists (set c.lists b left) c)
  to_shut buckets b left c lt v = record {
    counts = with_lists-IsCounted buckets (set c.lists b left) c v.counts;
    rows = length-set c.lists b left ∙ v.rows;
    referred =
        IsReferred-congr ops (row_with b left c.lists) _ c.pool c.cells
          (λ a. set-row_with b left c.lists a (omega (arith, lt, v.rows))) v.referred;
    stamps = v.stamps;
  }

  -- What `release` has done from bucket `b` on.
  pub record Drained (buckets b : ℕ) (high : ℤ) (limit : ℕ) (c : CombiningHold A) (out : List A)
      (c' : CombiningHold A) (out' : List A) : Type 0 where
    pub shut : IsShut buckets c'
    pub items : (w : A → ℕ) → held ops w c' + sum_by w out' ≡ held ops w c + sum_by w out
    pub fewer : (a : ℕ) → get_or c'.live a 0 ≤ get_or c.live a 0
    pub longer : length out ≤ length out'
    pub few : length out' ≤ limit
    pub stays :
        (a : ℕ) → (a < b) ⊎ (leb_ℤ (pos a) high ≡ false) → get_or c'.live a 0 ≡ get_or c.live a 0
    pub stuck : limit ≤ length out → (a : ℕ) → get_or c'.live a 0 ≡ get_or c.live a 0
    pub ends :
        (limit ≤ length out')
        ⊎ ((a : ℕ) → b ≤ a → leb_ℤ (pos a) high ≡ true → get_or c'.live a 0 ≡ 0)
    pub ordered :
        (a d : ℕ) → b ≤ a → a < d → get_or c'.live d 0 ≢ get_or c.live d 0 → get_or c'.live a 0 ≡ 0
    pub lowest : c'.lowest ≡ c.lowest

  -- Nothing more is released.
  rest-Drained :
      (buckets b : ℕ) (high : ℤ) (limit : ℕ) (c : CombiningHold A) (out : List A)
      → IsShut buckets c
      → length out ≤ limit
      → (limit ≤ length out) ⊎ ((a : ℕ) → b ≤ a → leb_ℤ (pos a) high ≡ true → get_or c.live a 0 ≡ 0)
      → Drained buckets b high limit c out c out
  rest-Drained buckets b high limit c out v few ends = record {
    shut = v;
    items = λ w. refl;
    fewer = λ a. omega arith;
    longer = omega arith;
    few = few;
    stays = λ a where_ok. refl;
    stuck = λ full a. refl;
    ends = ends;
    ordered = λ a d le lt moved. absurd (moved refl);
    lowest = refl;
  }

  leb_ℤ-below : (b a : ℕ) (high : ℤ) → b ≤ a → leb_ℤ (pos a) high ≡ true → leb_ℤ (pos b) high ≡ true
  leb_ℤ-below b a high le t = ground arith

  -- The loop over one bucket, then over those behind it.
  sweep-Drained :
      (buckets b : ℕ) (high : ℤ) (limit : ℕ) (c : CombiningHold A) (out : List A) (left : List Ref)
      (c1 : CombiningHold A) (out1 : List A) (c' : CombiningHold A) (out' : List A)
      → length out < limit
      → leb_ℤ (pos b) high ≡ true
      → Swept ops buckets b limit c out left c1 out1
      → Drained buckets (b + 1) high limit (with_lists (set c1.lists b left) c1) out1 c' out'
      → Drained buckets b high limit c out c' out'
  sweep-Drained buckets b high limit c out left c1 out1 c' out' go_on within s rest =
      let here : get_or c'.live b 0 ≡ get_or c1.live b 0 = rest.stays b (inl (omega arith)) in
      let empty : left ≡ [] → get_or c1.live b 0 ≡ 0 = λ e.
        s.open_still.counts.exact b
        ∙ unreferred ops (row_with b left c1.lists) c1.pool c1.cells b s.open_still.referred
            (row_self b left c1.lists b refl ∙ e) in
      record {
        shut = rest.shut;
        items = λ w. rest.items w ∙ s.items w;
        fewer = λ a. omega (arith, s.fewer a, rest.fewer a);
        longer = omega (arith, s.longer, rest.longer);
        few = rest.few;
        stays = λ a where_ok. elim where_ok [
          | inl low ↦
              rest.stays a (inl (omega (arith, low)))
              ∙ s.others a (λ d. absurd (omega (arith, low, d)))
          | inr above ↦
              rest.stays a (inr above)
              ∙ s.others a
                  (λ d. absurd (cc (within, subst (λ i. leb_ℤ (pos i) high ≡ false) d above)))
        ];
        stuck = λ full a. absurd (omega (arith, full, go_on));
        ends = elim rest.ends [
          | inl full ↦ inl full
          | inr none ↦ elim s.ends [
            | inl full ↦ inl (omega (arith, full, rest.longer))
            | inr done ↦ inr (λ a le t. elim (ℕ_discrete a b) [
              | yes d ↦ subst (λ i. get_or c'.live i 0 ≡ 0) (sym d) (here ∙ empty done)
              | no d ↦ none a (omega (arith, le, d)) t
            ])
          ]
        ];
        ordered = λ a d le lt moved. elim (ℕ_discrete a b) [
          | no apart ↦
              rest.ordered a d (omega (arith, le, apart)) lt
                (λ e. moved (e ∙ s.others d (λ g. absurd (omega (arith, le, lt, g)))))
          | yes same ↦ elim s.ends [
            | inl full ↦
                absurd (
                  moved (rest.stuck full d ∙ s.others d (λ g. absurd (omega (arith, lt, same, g)))))
            | inr done ↦ subst (λ i. get_or c'.live i 0 ≡ 0) (sym same) (here ∙ empty done)
          ]
        ];
        lowest = rest.lowest ∙ s.lowest;
      }

  pub release_from-Drained :
      (buckets n b : ℕ) (high : ℤ) (limit : ℕ) (c : CombiningHold A) (out : List A)
      → IsShut buckets c
      → b + n ≡ buckets
      → length out ≤ limit
      → Drained buckets b high limit c out
          (release_from ops n b high limit (c, out)).0
          (release_from ops n b high limit (c, out)).1
  unfolding release_from
  release_from-Drained buckets zero b high limit c out v reach few =
      rest-Drained buckets b high limit c out v few
        (inr (λ a le t. get_or_beyond c.live a 0 (omega (arith, v.counts.lanes, reach, le))))
  release_from-Drained buckets (suc n) b high limit c out v reach few =
      elim (Bool-cases (ltb (length out) limit)) [
        | inr full ↦ elim (Bool-cases (leb_ℤ (pos b) high)) [
          | inl t ↦
              rw (t, full)
                (rest-Drained buckets b high limit c out v few (inl (ground (arith, full))))
          | inr t ↦
              rw t (rest-Drained buckets b high limit c out v few (inl (ground (arith, full))))
        ]
        | inl go_on ↦ elim (Bool-cases (leb_ℤ (pos b) high)) [
          | inr past ↦ rw past (
              rest-Drained buckets b high limit c out v few
                (inr (λ a le t. absurd (cc (past, leb_ℤ-below b a high le t)))))
          | inl within ↦
              let swept =
                release_list-Swept ops buckets b limit (get_or c.lists b []) c out
                  (to_open buckets b c v) few in
              rw (within, go_on)
                (sweep-Drained buckets b high limit c out _ _ _ _ _ (ground (arith, go_on)) within
                  swept
                  (release_from-Drained buckets n (b + 1) high limit
                    (with_lists
                      (set (release_list ops b limit (get_or c.lists b []) (c, out)).1.lists b
                        (release_list ops b limit (get_or c.lists b []) (c, out)).0)
                      (release_list ops b limit (get_or c.lists b []) (c, out)).1)
                    (release_list ops b limit (get_or c.lists b []) (c, out)).2
                    (to_shut buckets b _ _ (omega (arith, reach)) swept.open_still)
                    (omega (arith, reach)) swept.few))
        ]
      ]
