-- ===== src/Combine/Laws.antt =====
-- What a client of CombiningHold relies on: no item is lost, and one item is held for a key.
use htram.Prelude.{
  ℕ, suc, ◌+◌, ◌-◌, ◌≤◌, ◌<◌, ◌≡◌, ◌≢◌, refl, sym, ap, ◌∙◌, subst, List, [], ◌∷◌, sum_by,
  sum_by-append, inl, inr, arith, ℕ_discrete,
}
use htram.Combine.{HoldOps, CombiningHold, insert}
use htram.Combine.Cells.{Cell}
use htram.Combine.Table.{weigh}
use htram.Combine.Weigh.{
  one_of, one_of_self, one_of_ne, times_in, cell_weight_full, cell_weight_empty,
}
use htram.Combine.Valid.{entry_of, held, IsCounted}
use htram.Combine.Folds.{KeepsKey}
use htram.Combine.Insert.{insert_lem}
use htram.Combine.Sweep.{some_weighed}

-- A weight of one entry at most, which is in one slot at most.
weigh_at_most :
    (f : ℕ → ℕ) (cells : List Cell)
    → ((s : ℕ) → f s ≤ 1)
    → ((e : ℕ) → times_in (suc e) cells ≤ 1)
    → ((s t : ℕ) → 0 < times_in s cells → 0 < times_in t cells → 0 < f s → 0 < f t → s ≡ t)
    → weigh f cells ≤ 1
weigh_at_most f [] small once same = omega arith
weigh_at_most f (c ∷ cells) small once same =
    let rest =
      weigh_at_most f cells small (λ e. omega (arith, once e))
        (λ s t here there. same s t (omega (arith, here)) (omega (arith, there))) in
    elim (ℕ_discrete c.entry 0) [
      | yes d ↦ omega (arith, rest, cell_weight_empty f c d)
      | no d ↦
          let back : c.entry ≡ suc (c.entry - 1) = omega (arith, d) in
          let own : times_in c.entry (c ∷ cells) ≡ 1 + times_in c.entry cells =
            omega
              (arith, cell_weight_full (one_of c.entry) c d, one_of_self c.entry c.entry refl) in
          elim (ℕ_discrete (f c.entry) 0) [
            | yes g ↦ omega (arith, rest, cell_weight_full f c d, g)
            | no g ↦ elim (ℕ_discrete (weigh f cells) 0) [
              | yes none ↦ omega (arith, none, cell_weight_full f c d, small c.entry)
              | no some ↦
                  let (e, w) = some_weighed f cells (omega (arith, some)) in
                  let e_is : c.entry ≡ suc e =
                    same c.entry (suc e) (omega (arith, own)) (omega (arith, w.here))
                      (omega (arith, g)) w.some in
                  absurd (
                    omega (
                      arith,
                      own,
                      subst (λ s. times_in s (c ∷ cells) ≤ 1) (sym back) (once (c.entry - 1)),
                      subst (λ s. 0 < times_in s cells) (sym e_is) w.here,
                    ))
            ]
          ]
    ]

module _ {A : Type 0} (ops : HoldOps A) where
  -- The weight of the items of one key.
  abbrev pub of_key : ℕ → A → ℕ
  of_key key x = one_of key (ops.key x)

  -- A hold with exact counts holds at most one item of each key.
  held-of_key :
      (buckets : ℕ) (c : CombiningHold A) (key : ℕ)
      → IsCounted ops buckets c
      → held ops (of_key key) c ≤ 1
  held-of_key buckets c key v =
      weigh_at_most _ c.cells (λ s. ground arith) (λ e. omega (arith, v.stored.once e))
        (λ s t here there own other. v.stored.apart s t here there (
          v.stored.keyed s here
          ∙ key_is s own
          ∙ sym (key_is t other)
          ∙ sym (v.stored.keyed t there)))
    where
      key_is :
          (s : ℕ)
          → 0 < of_key key (entry_of ops c.pool s).payload
          → ops.key (entry_of ops c.pool s).payload ≡ key
      key_is s some = elim (ℕ_discrete (ops.key (entry_of ops c.pool s).payload) key) [
        | yes d ↦ d
        | no d ↦
            absurd (omega (arith, some, one_of_ne key (ops.key (entry_of ops c.pool s).payload) d))
      ]

  -- The client's combine drops nothing that `w` counts.
  abbrev pub Conserves : (A → ℕ) → Type 0
  Conserves w =
      (held incoming : A)
      → ops.key held ≡ ops.key incoming
      → w (ops.combine held incoming).0 + w (ops.combine held incoming).1 ≡ w held + w incoming

  -- If the client's combine keeps the key, then insert into a bucket that exists, on a hold with
  -- exact counts, loses nothing under any weight of items that combine conserves between the two
  -- items of one key it takes and the two it gives: the items held and the items handed to
  -- on_absorb weigh what they weighed before and the inserted item.
  pub insert-Conserves :
      (buckets : ℕ) (c : CombiningHold A) (x : A) (bucket : ℕ) (w : A → ℕ)
      → KeepsKey ops
      → Conserves w
      → IsCounted ops buckets c
      → bucket < buckets
      → held ops w (insert ops x bucket c).0 + sum_by w (insert ops x bucket c).0.retired
        ≡ held ops w c + sum_by w c.retired + w x
  insert-Conserves buckets c x bucket w law conserves v lane =
      elim (insert_lem ops buckets c x bucket law v lane).1 [
        | inl added ↦ omega (arith, added.items w, ap (sum_by w) added.retires)
        | inr folded ↦ omega (
          arith,
          folded.items w,
          ap (sum_by w) folded.retires,
          sum_by-append w c.retired ((ops.combine folded.old x).1 ∷ []),
          conserves folded.old x folded.same_key,
        )
      ]

  -- What one insertion leaves under each key.
  pub record OneOfKey (x : A) (c c' : CombiningHold A) : Type 0 where
    pub own : held ops (of_key (ops.key x)) c' ≡ 1
    pub others : (key : ℕ) → key ≢ ops.key x → held ops (of_key key) c' ≡ held ops (of_key key) c

  -- If the client's combine keeps the key, then after insert into a bucket that exists, on a hold
  -- with exact counts, exactly one item of the inserted key is held, and of every other key as many
  -- as before.
  pub insert-OneOfKey :
      (buckets : ℕ) (c : CombiningHold A) (x : A) (bucket : ℕ)
      → KeepsKey ops
      → IsCounted ops buckets c
      → bucket < buckets
      → OneOfKey x c (insert ops x bucket c).0
  insert-OneOfKey buckets c x bucket law v lane =
      let (counted, did) = insert_lem ops buckets c x bucket law v lane in
      let most = held-of_key buckets (insert ops x bucket c).0 (ops.key x) counted in
      let mine = one_of_self (ops.key x) (ops.key x) refl in
      let other = λ (key : ℕ) (ne : key ≢ ops.key x). one_of_ne key (ops.key x) (λ d. ne (sym d)) in
      elim did [
        | inl added ↦ record {
          own = omega (arith, most, added.items (of_key (ops.key x)), mine);
          others = λ key ne. omega (arith, added.items (of_key key), other key ne);
        }
        | inr folded ↦
            let survivor = law folded.old x folded.same_key in
            record {
              own = omega (
                arith,
                most,
                folded.items (of_key (ops.key x)),
                folded.had (of_key (ops.key x)),
                ap (one_of (ops.key x)) survivor,
                mine,
              );
              others = λ key ne. omega (
                arith,
                folded.items (of_key key),
                ap (one_of key) folded.same_key,
                ap (one_of key) survivor,
                other key ne,
              );
            }
      ]
