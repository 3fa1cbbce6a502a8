-- ===== src/Combine/Lowest.antt =====
-- The end of CombiningHold::release, which raises the lowest bucket, and `release` as a whole.
use htram.Prelude.{
  ℕ, zero, suc, ◌+◌, ◌-◌, ◌^◌, ◌≤◌, ◌<◌, ◌≡◌, ◌≢◌, refl, sym, ap, ◌∙◌, subst, List, [], ◌∷◌, true,
  false, ◌==◌, ltb, ℤ, pos, leb_ℤ, length, length-set, get_or, set, get_or-set_self, get_or-set_ne,
  sum_by, ◌⊎◌, inl, inr, Bool-cases, All, arith, ℕ_discrete, dec_lt,
}
use htram.Combine.{HoldOps, CombiningHold, entry_at, release_from, raise_lowest, release}
use htram.Combine.Cells.{Cell}
use htram.Combine.Table.{weigh}
use htram.Combine.Weigh.{
  one_of, one_of_self, one_of_ne, times_in, cell_weight_full, cell_weight_empty,
}
use htram.Combine.Valid.{in_bucket, held}
use htram.Combine.Refs.{refs_to, IsRef}
use htram.Combine.Release.{IsShut, with_lists, with_lists-IsCounted, release_from-Drained}
use htram.Combine.Whole.{IsValid}

-- The entry weighs in its own bucket.
pub weigh-own :
    (f : ℕ → ℕ) (cells : List Cell) (e : ℕ)
    → 0 < times_in (suc e) cells
    → 0 < f (suc e)
    → 0 < weigh f cells
weigh-own f [] e here some = absurd (omega arith)
weigh-own f (c ∷ cells) e here some = elim (ℕ_discrete c.entry (suc e)) [
  | yes d ↦
      let full : c.entry ≢ 0 = λ g. absurd (omega (arith, d, g)) in
      omega (arith, cell_weight_full f c full, subst (λ s. 0 < f s) (sym d) some)
  | no d ↦ elim (ℕ_discrete c.entry 0) [
    | yes g ↦ omega (
      arith,
      weigh-own f cells e (omega (arith, here, cell_weight_empty (one_of (suc e)) c g)) some,
    )
    | no g ↦ omega (
      arith,
      weigh-own f cells e
          (omega (arith, here, cell_weight_full (one_of (suc e)) c g, one_of_ne (suc e) c.entry d))
          some,
    )
  ]
]

module _ {A : Type 0} (ops : HoldOps A) where
  -- The list of a bucket without live items may be dropped.
  drop_list-IsShut :
      (buckets b : ℕ) (c : CombiningHold A)
      → b < buckets
      → get_or c.live b 0 ≡ 0
      → IsShut ops buckets c
      → IsShut ops buckets (with_lists ops (set c.lists b []) c)
  drop_list-IsShut buckets b c lt idle v =
      let lt' : b < length c.lists = omega (arith, lt, v.rows) in
      record {
        counts = with_lists-IsCounted ops buckets (set c.lists b []) c v.counts;
        rows = length-set c.lists b [] ∙ v.rows;
        referred = record {
          sound = λ a. elim (ℕ_discrete a b) [
            | yes d ↦
                subst (λ i. All (IsRef ops c.pool c.cells i) (get_or (set c.lists b []) i []))
                  (sym d)
                  (subst (All (IsRef ops c.pool c.cells b))
                    (sym (get_or-set_self c.lists b [] [] lt')) tt)
            | no d ↦
                subst (All (IsRef ops c.pool c.cells a))
                  (sym (get_or-set_ne c.lists b a [] [] (λ g. d (sym g)))) (v.referred.sound a)
          ];
          complete = λ e here. elim (ℕ_discrete (entry_at ops c.pool e).bucket b) [
            | yes d ↦
                let back : suc e - 1 ≡ e = omega arith in
                let own : 0 < in_bucket ops c.pool b (suc e) =
                  subst (λ i. 0 < one_of b (entry_at ops c.pool i).bucket) (sym back)
                    (omega (arith, one_of_self b (entry_at ops c.pool e).bucket d)) in
                absurd (
                  omega (
                    arith,
                    idle,
                    v.counts.exact b,
                    weigh-own (in_bucket ops c.pool b) c.cells e here own,
                  ))
            | no d ↦
                subst (λ l. 0 < refs_to e (entry_at ops c.pool e).stamp l)
                  (sym
                    (get_or-set_ne c.lists b (entry_at ops c.pool e).bucket [] [] (λ g. d (sym g))))
                  (v.referred.complete e here)
          ];
        };
        stamps = v.stamps;
      }

  -- What is left of `IsValid` when the lists are consistent.
  record IsLow (buckets : ℕ) (c : CombiningHold A) : Type 0 where
    shut : IsShut ops buckets c
    low : c.lowest ≤ buckets
    below : (b : ℕ) → b < c.lowest → get_or c.live b 0 ≡ 0

  abbrev with_lowest : ℕ → CombiningHold A → CombiningHold A
  with_lowest n c = record c { lowest = n }

  with_lowest-IsShut :
      (buckets n : ℕ) (c : CombiningHold A)
      → IsShut ops buckets c
      → IsShut ops buckets (with_lowest n c)
  with_lowest-IsShut buckets n c v = record {
    counts = record {
      stored = v.counts.stored;
      wide = v.counts.wide;
      room = v.counts.room;
      counted = v.counts.counted;
      lanes = v.counts.lanes;
      exact = v.counts.exact;
    };
    rows = v.rows;
    referred = v.referred;
    stamps = v.stamps;
  }

  -- The lowest bucket ends at a live item, or behind the last bucket.
  record Raised (buckets : ℕ) (c c' : CombiningHold A) : Type 0 where
    valid : IsLow buckets c'
    items : (w : A → ℕ) → held ops w c' ≡ held ops w c
    live : c'.live ≡ c.live
    tight : (c'.lowest ≡ buckets) ⊎ (get_or c'.live c'.lowest 0 ≢ 0)

  raise_lowest-Raised :
      (buckets n : ℕ) (c : CombiningHold A)
      → IsLow buckets c
      → buckets ≤ c.lowest + n
      → Raised buckets c (raise_lowest ops n c)
  unfolding raise_lowest
  raise_lowest-Raised buckets zero c v reach = record {
    valid = v;
    items = λ w. refl;
    live = refl;
    tight = inl (omega (arith, v.low, reach));
  }
  raise_lowest-Raised buckets (suc n) c v reach = elim (Bool-cases (ltb c.lowest (length c.live))) [
    | inr past ↦ rw past (record {
      valid = v;
      items = λ w. refl;
      live = refl;
      tight = inl (let lanes = v.shut.counts.lanes in let low = v.low in ground (arith, past));
    })
    | inl inside ↦
        let lt : c.lowest < buckets = let lanes = v.shut.counts.lanes in ground (arith, inside) in
        elim (Bool-cases (get_or c.live c.lowest 0 == 0)) [
          | inr live ↦
              rw (inside, live)
                (record {
                  valid = v;
                  items = λ w. refl;
                  live = refl;
                  tight = inr (λ d. ground arith);
                })
          | inl idle ↦
              let none : get_or c.live c.lowest 0 ≡ 0 = ground arith in
              let next : IsLow buckets
                  (with_lowest (c.lowest + 1) (with_lists ops (set c.lists c.lowest []) c)) =
                record {
                  shut =
                      with_lowest-IsShut buckets (c.lowest + 1) _
                        (drop_list-IsShut buckets c.lowest c lt none v.shut);
                  low = omega (arith, lt);
                  below = λ b below. elim (ℕ_discrete b c.lowest) [
                    | yes d ↦ subst (λ i. get_or c.live i 0 ≡ 0) (sym d) none
                    | no d ↦ v.below b (omega (arith, below, d))
                  ];
                } in
              let rest =
                raise_lowest-Raised buckets n
                  (with_lowest (c.lowest + 1) (with_lists ops (set c.lists c.lowest []) c)) next
                  (omega (arith, reach)) in
              rw (inside, idle)
                (record {
                  valid = rest.valid;
                  items = rest.items;
                  live = rest.live;
                  tight = rest.tight;
                })
        ]
  ]

  -- No entry of the table has the last stamp.
  abbrev pub HasStampsIn : CombiningHold A → Type 0
  HasStampsIn c =
      (e : ℕ) → 0 < times_in (suc e) c.cells → (entry_at ops c.pool e).stamp + 1 < 2 ^ 32

  -- What `release` does, up to bucket `high` and for `limit` items.
  pub record Released (buckets : ℕ) (high : ℤ) (limit : ℕ) (c c' : CombiningHold A) (out : List A)
      : Type 0 where
    pub valid : IsValid ops buckets c'
    pub stamps : HasStampsIn c'
    pub items : (w : A → ℕ) → held ops w c' + sum_by w out ≡ held ops w c
    pub few : length out ≤ limit
    pub fewer : (b : ℕ) → get_or c'.live b 0 ≤ get_or c.live b 0
    pub above : (b : ℕ) → leb_ℤ (pos b) high ≡ false → get_or c'.live b 0 ≡ get_or c.live b 0
    pub ends : (length out ≡ limit) ⊎ ((b : ℕ) → leb_ℤ (pos b) high ≡ true → get_or c'.live b 0 ≡ 0)
    pub lowest_first :
        (a b : ℕ) → a < b → (get_or c'.live b 0 ≡ get_or c.live b 0) ⊎ (get_or c'.live a 0 ≡ 0)
    pub tight : (c'.lowest ≡ buckets) ⊎ (get_or c'.live c'.lowest 0 ≢ 0)

  -- If no stamp in the table is at the end of its 32 bits, release on a valid hold ends with a
  -- valid hold and emits at most limit items: what was held is held or emitted, buckets above high
  -- keep their counts, a bucket loses an item only if the buckets below it are empty afterwards,
  -- limit items were emitted or no bucket up to high has one left, and the lowest bucket has a live
  -- item or is past the last.
  pub release_lem :
      (buckets : ℕ) (high : ℤ) (limit : ℕ) (c : CombiningHold A)
      → IsValid ops buckets c
      → HasStampsIn c
      → Released buckets high limit c (release ops high limit c).0 (release ops high limit c).1
  unfolding release
  release_lem buckets high limit c v stamps =
      let n = length c.lists - c.lowest in
      let reach : c.lowest + n ≡ buckets = omega (arith, v.rows, v.low) in
      let c1 = (release_from ops n c.lowest high limit (c, [])).0 in
      let d =
        release_from-Drained ops buckets n c.lowest high limit c []
          (record { counts = v.counts; rows = v.rows; referred = v.referred; stamps = stamps })
          reach (omega arith) in
      let below : (b : ℕ) → b < c.lowest → get_or c1.live b 0 ≡ 0 =
        λ b lt. d.stays b (inl lt) ∙ v.below b lt in
      let r =
        raise_lowest-Raised buckets (length c.live) c1
          (record {
            shut = d.shut;
            low = omega (arith, d.lowest, v.low);
            below = λ b lt. below b (omega (arith, lt, d.lowest));
          })
          (omega (arith, v.counts.lanes)) in
      let live : (b : ℕ)
          → get_or (raise_lowest ops (length c.live) c1).live b 0 ≡ get_or c1.live b 0 =
        λ b. ap (λ l. get_or l b 0) r.live in
      record {
        valid = record {
          counts = r.valid.shut.counts;
          rows = r.valid.shut.rows;
          referred = r.valid.shut.referred;
          low = r.valid.low;
          below = r.valid.below;
        };
        stamps = r.valid.shut.stamps;
        items = λ w. omega (arith, r.items w, d.items w);
        few = d.few;
        fewer = λ b. omega (arith, live b, d.fewer b);
        above = λ b up. live b ∙ d.stays b (inr up);
        ends = elim d.ends [
          | inl full ↦ inl (omega (arith, full, d.few))
          | inr none ↦ inr (λ b t. elim (dec_lt b c.lowest) [
            | yes lt ↦ live b ∙ below b lt
            | no ge ↦ live b ∙ none b (omega (arith, ge)) t
          ])
        ];
        lowest_first = λ a b lt. elim (dec_lt a c.lowest) [
          | yes low ↦ inr (live a ∙ below a low)
          | no ge ↦ elim (ℕ_discrete (get_or c1.live b 0) (get_or c.live b 0)) [
            | yes same ↦ inl (live b ∙ same)
            | no moved ↦ inr (live a ∙ d.ordered a b (omega (arith, ge)) lt moved)
          ]
        ];
        tight = r.tight;
      }
