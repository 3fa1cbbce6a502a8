-- ===== src/Combine/Fold.antt =====
-- A record of the pool rewritten with its key kept, as `insert` does when it folds and `erase` does
-- with the stamp.
use htram.Prelude.{
  ℕ, suc, ◌+◌, ◌-◌, ◌<◌, ◌≡◌, sym, ap, ◌∙◌, subst, List, length, set, length-set, arith, ℕ_discrete,
}
use htram.Combine.{HoldOps, Entry, entry_at, hash_in}
use htram.Combine.Cells.{Cell, mix}
use htram.Combine.Table.{weigh}
use htram.Combine.Weigh.{times_in, IsUnbroken-congr, weigh_point}
use htram.Combine.Tags.{IsTagged-congr}
use htram.Combine.Valid.{entry_of, IsStored, entry_of_self, entry_at_self, entry_at_ne, entry_of_ne}

module _ {A : Type 0} (ops : HoldOps A) where
  pub key_kept :
      (pool : List (Entry A)) (e : ℕ) (x : Entry A)
      → e < length pool
      → x.key ≡ (entry_at ops pool e).key
      → (i : ℕ) → (entry_at ops (set pool e x) i).key ≡ (entry_at ops pool i).key
  key_kept pool e x lt same i = elim (ℕ_discrete i e) [
    | yes d ↦
        ap (λ j. (entry_at ops (set pool e x) j).key) d
        ∙ ap (λ (y : Entry A). y.key) (entry_at_self ops pool e x lt)
        ∙ same
        ∙ sym (ap (λ j. (entry_at ops pool j).key) d)
    | no d ↦ ap (λ (y : Entry A). y.key) (entry_at_ne ops pool e i x d)
  ]

  -- The table stays as it is: it depends on the keys alone.
  pub rewrite-IsStored :
      (pool : List (Entry A)) (free : List ℕ) (cells : List Cell) (e : ℕ) (x : Entry A)
      → IsStored ops pool free cells
      → e < length pool
      → x.key ≡ (entry_at ops pool e).key
      → x.key ≡ ops.key x.payload
      → IsStored ops (set pool e x) free cells
  rewrite-IsStored pool free cells e x v lt same keyed =
      let kept = key_kept pool e x lt same in
      record {
        unbroken =
            IsUnbroken-congr (hash_in ops pool) _ cells (λ s here. ap mix (kept (s - 1)))
              v.unbroken;
        tagged =
            IsTagged-congr (hash_in ops pool) _ cells (λ s here. ap mix (kept (s - 1))) v.tagged;
        once = v.once;
        inside = λ i here. omega (arith, v.inside i here, length-set pool e x);
        keyed = λ s here. elim (ℕ_discrete (s - 1) e) [
          | yes d ↦
              let new : entry_of ops (set pool e x) s ≡ x =
                ap (λ i. entry_at ops (set pool e x) i) d ∙ entry_at_self ops pool e x lt in
              ap (λ (y : Entry A). y.key) new
              ∙ keyed
              ∙ sym (ap (λ (y : Entry A). ops.key y.payload) new)
          | no d ↦
              subst (λ (y : Entry A). y.key ≡ ops.key y.payload)
                (sym (entry_at_ne ops pool e (s - 1) x d)) (v.keyed s here)
        ];
        apart = λ s t here there d. v.apart s t here there (sym (kept (s - 1)) ∙ d ∙ kept (t - 1));
      }

  -- What a rewritten record adds to any weight of the entries.
  pub weigh-rewrite :
      (pool : List (Entry A)) (cells : List Cell) (e : ℕ) (x : Entry A) (f : Entry A → ℕ)
      → e < length pool
      → times_in (suc e) cells ≡ 1
      → weigh (λ s. f (entry_of ops (set pool e x) s)) cells + f (entry_at ops pool e)
        ≡ weigh (λ s. f (entry_of ops pool s)) cells + f x
  weigh-rewrite pool cells e x f lt one =
      let back : suc e - 1 ≡ e = omega arith in
      let here : f (entry_of ops pool (suc e)) ≡ f (entry_at ops pool e) =
        ap (λ i. f (entry_at ops pool i)) back in
      let there : f (entry_of ops (set pool e x) (suc e)) ≡ f x =
        ap f (entry_of_self ops pool e x lt) in
      omega (
        arith,
        here,
        there,
        weigh_point (λ s. f (entry_of ops (set pool e x) s)) (λ s. f (entry_of ops pool s)) (suc e)
            cells (λ s some ne. ap f (entry_of_ne ops pool e s x some ne)) one,
      )
