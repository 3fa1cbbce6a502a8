-- ===== src/Combine/Folds.antt =====
-- CombiningHold::insert on a key that is held: what a fold and an addition do, and the fold.
use htram.Prelude.{
  ℕ, suc, ◌+◌, ◌-◌, ◌<◌, ◌≤◌, ◌≡◌, ◌≢◌, refl, sym, ◌∙◌, subst, [], ◌∷◌, ◌++◌, true, false, ◌==◌,
  ◌&&◌, not, if◌then◌else◌, pos, length, length-set, get_or, set, inl, inr, Bool-cases, arith,
}
use htram.Combine.{
  HoldOps, Entry, CombiningHold, InsertResult, entry_at, next_stamp, raise, lower, refer, fold_into,
}
use htram.Combine.Table.{weigh}
use htram.Combine.Weigh.{one_of, one_of_self, times_in, weigh-one}
use htram.Combine.Valid.{entry_of, worth, in_bucket, held, IsCounted}
use htram.Combine.Fold.{rewrite-IsStored, weigh-rewrite}
use htram.Combine.Live.{get_or-raise, get_or-lower}

module _ {A : Type 0} (ops : HoldOps A) where
  -- What the client's combine promises: the survivor has the key of the two.
  abbrev pub KeepsKey : Type 0
  KeepsKey =
      (held incoming : A)
      → ops.key held ≡ ops.key incoming
      → ops.key (ops.combine held incoming).0 ≡ ops.key incoming

  -- An insertion that folds: `old`, of the key of `x`, becomes the survivor, and the other
  -- is retired. The entry goes to the new bucket if the client's combine says so.
  pub record Folded (x : A) (bucket : ℕ) (c c' : CombiningHold A) (r : InsertResult) : Type 0 where
    pub old : A
    pub from : ℕ
    pub told : r.absorbed ≡ true
    pub same_key : ops.key old ≡ ops.key x
    pub items : (w : A → ℕ) → held ops w c' + w old ≡ held ops w c + w (ops.combine old x).0
    pub had : (w : A → ℕ) → w old ≤ held ops w c
    pub goes : r.new_bucket ≡ (if (ops.combine old x).2 then bucket else from)
    pub retires : c'.retired ≡ c.retired ++ (ops.combine old x).1 ∷ []
    pub was : r.old_bucket ≡ pos from
    pub present : 0 < get_or c.live from 0
    pub moves :
        (b : ℕ) → get_or c'.live b 0 + one_of b from ≡ get_or c.live b 0 + one_of b r.new_bucket

  -- An insertion of a key that is not held.
  pub record Added (x : A) (bucket : ℕ) (c c' : CombiningHold A) (r : InsertResult) : Type 0 where
    pub told : r.absorbed ≡ false
    pub absent : (s : ℕ) → 0 < times_in s c.cells → (entry_of ops c.pool s).key ≢ ops.key x
    pub items : (w : A → ℕ) → held ops w c' ≡ held ops w c + w x
    pub retires : c'.retired ≡ c.retired
    pub goes : r.new_bucket ≡ bucket
    pub grows : (b : ℕ) → get_or c'.live b 0 ≡ get_or c.live b 0 + one_of b bucket

  module _ (buckets : ℕ) (c : CombiningHold A) (v : IsCounted ops buckets c) where
    module _ (e : ℕ) (here : 0 < times_in (suc e) c.cells) where
      once : times_in (suc e) c.cells ≡ 1
      once = omega (arith, here, v.stored.once e)

      inside : e < length c.pool
      inside = v.stored.inside e (omega (arith, here))

      abbrev old : Entry A
      old = entry_at ops c.pool e

      pub rewrite-live :
          (x : Entry A) (b : ℕ)
          → weigh (in_bucket ops (set c.pool e x) b) c.cells + one_of b old.bucket
            ≡ get_or c.live b 0 + one_of b x.bucket
      rewrite-live x b = omega (
        arith,
        weigh-rewrite ops c.pool c.cells e x (λ (y : Entry A). one_of b y.bucket) inside once,
        v.exact b,
      )

      pub present-live : 0 < get_or c.live old.bucket 0
      present-live = omega (
        arith,
        rewrite-live (record old { bucket = suc old.bucket }) old.bucket,
        one_of_self old.bucket old.bucket refl,
        apart,
      )
        where
          apart : one_of old.bucket (suc old.bucket) ≡ 0
          apart = ground arith

      old_key : old.key ≡ ops.key old.payload
      old_key =
          let back : suc e - 1 ≡ e = omega arith in
          subst (λ i. (entry_at ops c.pool i).key ≡ ops.key (entry_at ops c.pool i).payload) back
            (v.stored.keyed (suc e) here)

      -- What a rewritten record does to the items.
      rewrite-held :
          (x : Entry A) (w : A → ℕ)
          → weigh (worth ops w (set c.pool e x)) c.cells + w old.payload
            ≡ held ops w c + w x.payload
      rewrite-held x w =
          weigh-rewrite ops c.pool c.cells e x (λ (y : Entry A). w y.payload) inside once

      -- One held item weighs no more than all.
      held-entry : (w : A → ℕ) → w old.payload ≤ held ops w c
      held-entry w =
          let back : suc e - 1 ≡ e = omega arith in
          subst (λ i. w (entry_at ops c.pool i).payload ≤ held ops w c) back
            (weigh-one (worth ops w c.pool) c.cells (suc e) here)

      module _ (x : A) (bucket : ℕ) (same : old.key ≡ ops.key x) (law : KeepsKey)
          (lane : bucket < buckets) where
        kept : ops.key (ops.combine old.payload x).0 ≡ ops.key x
        kept = law old.payload x (sym old_key ∙ same)

        lowered : get_or (lower c.live old.bucket) old.bucket 0 + 1 ≡ get_or c.live old.bucket 0
        lowered = omega (
          arith,
          get_or-lower c.live old.bucket old.bucket present-live,
          one_of_self old.bucket old.bucket refl,
        )

        move-live :
            (b : ℕ)
            → get_or (raise (lower c.live old.bucket) bucket) b 0 + one_of b old.bucket
              ≡ get_or c.live b 0 + one_of b bucket
        move-live b = omega (
          arith,
          get_or-raise (lower c.live old.bucket) bucket b (
              omega (
                arith,
                lane,
                v.lanes,
                length-set c.live old.bucket (get_or c.live old.bucket 0 - 1),
              )),
          get_or-lower c.live old.bucket b present-live,
        )

        goes_new :
            ((ops.combine old.payload x).2 && not (bucket == old.bucket)) ≡ true
            → bucket ≡ (if (ops.combine old.payload x).2 then bucket else old.bucket)
        goes_new moves = elim (Bool-cases (ops.combine old.payload x).2) [
          | inl t ↦ rw t
          | inr f ↦ absurd (ground (arith, moves, f))
        ]

        goes_old :
            ((ops.combine old.payload x).2 && not (bucket == old.bucket)) ≡ false
            → old.bucket ≡ (if (ops.combine old.payload x).2 then bucket else old.bucket)
        goes_old stays = elim (Bool-cases (ops.combine old.payload x).2) [
          | inr f ↦ rw f
          | inl t ↦ let is : old.bucket ≡ bucket = ground (arith, stays, t) in rw t is
        ]

        pub fold_into_lem :
            IsCounted ops buckets (fold_into ops x bucket e c).0
            × Folded x bucket c (fold_into ops x bucket e c).0 (fold_into ops x bucket e c).1
        unfolding fold_into refer
        fold_into_lem =
            elim (Bool-cases ((ops.combine old.payload x).2 && not (bucket == old.bucket))) [
              | inl moves ↦
                  let new : Entry A = record old {
                    payload = (ops.combine old.payload x).0;
                    bucket = bucket;
                    stamp = next_stamp old.stamp;
                  } in
                  rw moves (
                    record {
                      stored =
                          rewrite-IsStored ops c.pool c.free c.cells e new v.stored inside refl
                            (same ∙ sym kept);
                      wide = v.wide;
                      room = v.room;
                      counted = v.counted;
                      lanes =
                          length-set (lower c.live old.bucket) bucket _
                          ∙ length-set c.live old.bucket _
                          ∙ v.lanes;
                      exact = λ b. omega (arith, rewrite-live new b, move-live b);
                    },
                    record {
                      old = old.payload;
                      from = old.bucket;
                      told = refl;
                      same_key = sym old_key ∙ same;
                      items = rewrite-held new;
                      had = held-entry;
                      goes = goes_new moves;
                      retires = refl;
                      was = refl;
                      present = present-live;
                      moves = move-live;
                    },
                  )
              | inr stays ↦
                  let new : Entry A = record old { payload = (ops.combine old.payload x).0 } in
                  rw stays (
                    record {
                      stored =
                          rewrite-IsStored ops c.pool c.free c.cells e new v.stored inside refl
                            (same ∙ sym kept);
                      wide = v.wide;
                      room = v.room;
                      counted = v.counted;
                      lanes = v.lanes;
                      exact = λ b. omega (arith, rewrite-live new b);
                    },
                    record {
                      old = old.payload;
                      from = old.bucket;
                      told = refl;
                      same_key = sym old_key ∙ same;
                      items = rewrite-held new;
                      had = held-entry;
                      goes = goes_old stays;
                      retires = refl;
                      was = refl;
                      present = present-live;
                      moves = λ b. refl;
                    },
                  )
            ]
