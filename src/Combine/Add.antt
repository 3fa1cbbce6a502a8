-- ===== src/Combine/Add.antt =====
-- A new entry: allocEntry, the slot that the search of `insert` found, and the table grown when it is
-- more than half full.
use htram.Prelude.{
  ℕ, zero, suc, ◌+◌, ◌-◌, ◌≤◌, ◌<◌, ◌≡◌, ◌≢◌, refl, sym, ap, ◌∙◌, subst, List, [], ◌∷◌, ◌++◌, true,
  length, length-append, length-set, set, All-set, arith, ℕ_discrete,
}
use htram.Combine.{HoldOps, Entry, CombiningHold, blank_entry, entry_at, hash_in, alloc_entry}
use htram.Combine.Cells.{Cell, cell_at, mix, tag_of, home_slot, rebuild}
use htram.Combine.Cyclic.{within}
use htram.Combine.Table.{held_at, weigh, weigh-set}
use htram.Combine.Place.{occupied, set-IsUnbroken, rebuild-Rebuilt}
use htram.Combine.Weigh.{
  one_of, one_of_self, one_of_ne, times_in, IsUnbroken-congr, weigh_congr, cell_weight_full,
  cell_weight_empty, slot_of,
}
use htram.Combine.Tags.{IsTagged, IsTagged-congr, rebuild-IsTagged}
use htram.Combine.Valid.{times, entry_of, IsStored, entry_of_self, entry_of_ne}

module _ {A : Type 0} (ops : HoldOps A) where
  -- What allocEntry gives: an index that is neither in the table nor free, and a pool that differs
  -- by a blank record at most.
  pub record Allocated (c : CombiningHold A) (e : ℕ) (pool : List (Entry A)) (free : List ℕ)
      : Type 0 where
    pub inside : e < length pool
    pub longer : length c.pool ≤ length pool
    pub same : (i : ℕ) → entry_at ops pool i ≡ entry_at ops c.pool i
    pub unused : times_in (suc e) c.cells + times e free ≡ 0
    pub rest : (i : ℕ) → i ≢ e → times i free ≡ times i c.free

  entry_at-blank :
      (pool : List (Entry A)) (i : ℕ)
      → entry_at ops (pool ++ blank_entry ops ∷ []) i ≡ entry_at ops pool i
  entry_at-blank [] zero = refl
  entry_at-blank [] (suc i) = refl
  entry_at-blank (x ∷ pool) zero = refl
  entry_at-blank (x ∷ pool) (suc i) = entry_at-blank pool i

  alloc_entry_from :
      (c : CombiningHold A)
      → IsStored ops c.pool c.free c.cells
      → (free : List ℕ) → c.free ≡ free
      → Allocated c
          (alloc_entry ops (record c { free = free })).0
          (alloc_entry ops (record c { free = free })).1
          (alloc_entry ops (record c { free = free })).2
  unfolding alloc_entry
  alloc_entry_from c v [] d = record {
    inside = omega (arith, length-append c.pool (blank_entry ops ∷ []));
    longer = omega (arith, length-append c.pool (blank_entry ops ∷ []));
    same = entry_at-blank c.pool;
    unused = elim (ℕ_discrete (times_in (suc (length c.pool)) c.cells) 0) [
      | yes e ↦ omega (arith, e)
      | no ne ↦ absurd (omega (arith, v.inside (length c.pool) (omega (arith, ne))))
    ];
    rest = λ i ne. ap (times i) (sym d);
  }
  alloc_entry_from c v (e ∷ free) d =
      let all : (i : ℕ) → times i c.free ≡ one_of i e + times i free = λ i. ap (times i) d in
      let own = one_of_self e e refl in
      record {
        inside = v.inside e (omega (arith, all e, own));
        longer = omega arith;
        same = λ i. refl;
        unused = omega (arith, v.once e, all e, own);
        rest = λ i ne. omega (arith, all i, one_of_ne i e (λ d. ne (sym d)));
      }

  pub alloc_entry-Allocated :
      (c : CombiningHold A)
      → IsStored ops c.pool c.free c.cells
      → Allocated c (alloc_entry ops c).0 (alloc_entry ops c).1 (alloc_entry ops c).2
  unfolding alloc_entry
  alloc_entry-Allocated c v = alloc_entry_from c v c.free refl

  -- The written slot: every weight grows by the new entry's.
  pub weigh-fill :
      (f : ℕ → ℕ) (cells : List Cell) (slot s tag : ℕ)
      → slot < length cells
      → held_at cells slot ≡ 0
      → s ≢ 0
      → weigh f (set cells slot (record { entry = s; tag = tag })) ≡ weigh f cells + f s
  weigh-fill f cells slot s tag lt vacant some =
      let c : Cell = record { entry = s; tag = tag } in
      omega (
        arith,
        weigh-set f cells slot c lt,
        cell_weight_full f c some,
        cell_weight_empty f (cell_at cells slot) vacant,
      )

  module _ (c : CombiningHold A) (e : ℕ) (pool : List (Entry A)) (free : List ℕ) (x : Entry A)
      (al : Allocated c e pool free) where
    -- The entries that are in the table are as they were.
    pub kept :
        (s : ℕ) → 0 < times_in s c.cells → entry_of ops (set pool e x) s ≡ entry_of ops c.pool s
    kept s here =
        let (j, st) = slot_of c.cells s here in
        let ne : s ≢ suc e =
          λ d. absurd (omega (arith, al.unused, subst (λ t. 0 < times_in t c.cells) d here)) in
        entry_of_ne ops pool e s x st.some ne ∙ al.same (s - 1)

    pub weigh-kept :
        (f : Entry A → ℕ)
        → weigh (λ s. f (entry_of ops (set pool e x) s)) c.cells
          ≡ weigh (λ s. f (entry_of ops c.pool s)) c.cells
    weigh-kept f = weigh_congr _ _ c.cells (λ s here. ap f (kept s here))

    module _ (slot : ℕ) (v : IsStored ops c.pool c.free c.cells) (lt : slot < length c.cells)
        (vacant : held_at c.cells slot ≡ 0)
        (way : (k : ℕ)
          → k < length c.cells
          → within (home_slot c.cells (mix x.key)) k slot ≡ true
          → k ≢ slot
          → held_at c.cells k ≢ 0)
        (absent : (s : ℕ) → 0 < times_in s c.cells → (entry_of ops c.pool s).key ≢ x.key)
        (keyed : x.key ≡ ops.key x.payload) where
      abbrev pub filled : List Cell
      filled = set c.cells slot (record { entry = suc e; tag = tag_of (mix x.key) })

      count-filled : (s : ℕ) → times_in s filled ≡ times_in s c.cells + one_of s (suc e)
      count-filled s =
          weigh-fill (one_of s) c.cells slot (suc e) (tag_of (mix x.key)) lt vacant
            (λ d. absurd (omega arith))

      new : entry_of ops (set pool e x) (suc e) ≡ x
      new = entry_of_self ops pool e x al.inside

      -- An entry of the new table is the new one, or was there before.
      old_or_new : (s : ℕ) → 0 < times_in s filled → s ≢ suc e → 0 < times_in s c.cells
      old_or_new s here ne =
          omega (arith, here, count-filled s, one_of_ne s (suc e) (λ d. ne (sym d)))

      key_of_new : (s : ℕ) → s ≡ suc e → (entry_of ops (set pool e x) s).key ≡ x.key
      key_of_new s d =
          ap (λ t. (entry_of ops (set pool e x) t).key) d ∙ ap (λ (y : Entry A). y.key) new

      key_of_old :
          (s : ℕ)
          → 0 < times_in s c.cells
          → (entry_of ops (set pool e x) s).key ≡ (entry_of ops c.pool s).key
      key_of_old s here = ap (λ (y : Entry A). y.key) (kept s here)

      pub fill-IsStored : IsStored ops (set pool e x) free filled
      fill-IsStored =
          let hash = hash_in ops (set pool e x) in
          let own : hash (suc e) ≡ mix x.key = ap mix (key_of_new (suc e) refl) in
          let cell : Cell = record { entry = suc e; tag = tag_of (mix x.key) } in
          record {
            unbroken =
                set-IsUnbroken hash c.cells slot cell
                  (IsUnbroken-congr (hash_in ops c.pool) hash c.cells
                    (λ s here. ap mix (key_of_old s here)) v.unbroken)
                  lt (λ d. absurd (omega arith)) vacant
                  (λ k lk w.
                    way k lk (subst (λ h. within (home_slot c.cells h) k slot ≡ true) own w));
            tagged =
                All-set (IsTagged hash) c.cells slot cell
                  (IsTagged-congr (hash_in ops c.pool) hash c.cells
                    (λ s here. ap mix (key_of_old s here)) v.tagged)
                  (λ ne. ap tag_of (sym own));
            once = λ i. elim (ℕ_discrete i e) [
              | yes d ↦
                  subst (λ j. times_in (suc j) filled + times j free ≤ 1) (sym d)
                    (omega
                      (arith, al.unused, count-filled (suc e), one_of_self (suc e) (suc e) refl))
              | no d ↦ omega (
                arith,
                v.once i,
                al.rest i d,
                count-filled (suc i),
                one_of_ne (suc i) (suc e) (λ g. d (omega (arith, g))),
              )
            ];
            inside = λ i here. elim (ℕ_discrete i e) [
              | yes d ↦ omega (arith, d, al.inside, length-set pool e x)
              | no d ↦ omega (
                arith,
                v.inside i (
                    omega (
                      arith,
                      here,
                      al.rest i d,
                      count-filled (suc i),
                      one_of_ne (suc i) (suc e) (λ g. d (omega (arith, g))),
                    )),
                al.longer,
                length-set pool e x,
              )
            ];
            keyed = λ s here. elim (ℕ_discrete s (suc e)) [
              | yes d ↦
                  subst
                    (λ t.
                      (entry_of ops (set pool e x) t).key
                      ≡ ops.key (entry_of ops (set pool e x) t).payload)
                    (sym d) (subst (λ (y : Entry A). y.key ≡ ops.key y.payload) (sym new) keyed)
              | no d ↦
                  subst (λ (y : Entry A). y.key ≡ ops.key y.payload)
                    (sym (kept s (old_or_new s here d))) (v.keyed s (old_or_new s here d))
            ];
            apart = λ s t here there same. elim (ℕ_discrete s (suc e)) [
              | yes d ↦ elim (ℕ_discrete t (suc e)) [
                | yes g ↦ d ∙ sym g
                | no g ↦
                    let old = old_or_new t there g in
                    absurd (absent t old (sym (key_of_old t old) ∙ sym same ∙ key_of_new s d))
              ]
              | no d ↦ elim (ℕ_discrete t (suc e)) [
                | yes g ↦
                    let old = old_or_new s here d in
                    absurd (absent s old (sym (key_of_old s old) ∙ same ∙ key_of_new t g))
                | no g ↦
                    let one = old_or_new s here d in
                    let two = old_or_new t there g in
                    v.apart s t one two (sym (key_of_old s one) ∙ same ∙ key_of_old t two)
              ]
            ];
          }

  -- A rebuilt table has the entries of the old one.
  pub rebuild-IsStored :
      (pool : List (Entry A)) (free : List ℕ) (capacity : ℕ) (cells : List Cell)
      → IsStored ops pool free cells
      → occupied cells < capacity
      → IsStored ops pool free (rebuild (hash_in ops pool) capacity cells)
  rebuild-IsStored pool free capacity cells v room =
      let r = rebuild-Rebuilt (hash_in ops pool) capacity cells room in
      let same : (s : ℕ)
          → times_in s (rebuild (hash_in ops pool) capacity cells) ≡ times_in s cells =
        λ s. r.same (one_of s) in
      record {
        unbroken = r.unbroken;
        tagged = rebuild-IsTagged (hash_in ops pool) capacity cells;
        once = λ e. omega (arith, v.once e, same (suc e));
        inside = λ e here. v.inside e (omega (arith, here, same (suc e)));
        keyed = λ s here. v.keyed s (omega (arith, here, same s));
        apart = λ s t here there.
            v.apart s t (omega (arith, here, same s)) (omega (arith, there, same t));
      }
