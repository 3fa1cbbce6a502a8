-- ===== src/Combine/Whole.antt =====
-- The whole representation of CombiningHold, which init establishes and insert keeps.
use htram.Prelude.{
  ℕ, suc, ◌+◌, ◌-◌, ◌^◌, ◌≤◌, ◌<◌, ◌≡◌, ◌≢◌, refl, sym, ap, ◌∙◌, subst, [], ◌==◌, ◌&&◌, not, ltb,
  if◌then◌else◌, length, length-set, get_or, set, inl, inr, Bool-cases, arith,
}
use htram.Combine.{
  HoldOps, Entry, CombiningHold, entry_at, is_entry_of, next_stamp, lower, refer, fold_into,
  grow_if_due, add, insert,
}
use htram.Combine.Cells.{mix, tag_of, home_slot, find_slot}
use htram.Combine.Table.{held_at, Found, find_slot-Found}
use htram.Combine.Weigh.{one_of, one_of_self, one_of_ne, times_in}
use htram.Combine.Valid.{
  entry_of, IsCounted, IsCounted-vacancy, held-times, entry_at_self, entry_at_ne, search-absent,
}
use htram.Combine.Add.{weigh-fill}
use htram.Combine.Live.{get_or-raise, get_or-lower}
use htram.Combine.Refs.{IsReferred, IsReferred-Same, refer-IsReferred}
use htram.Combine.Erase.{kept_by}
use htram.Combine.Folds.{KeepsKey, present-live}
use htram.Combine.Insert.{
  insert_lem, new_index, new_pool, new_entry, placed, allocated, grown, grow_if_due-rest,
}

module _ {A : Type 0} (ops : HoldOps A) where
  pub record IsValid (buckets : ℕ) (c : CombiningHold A) : Type 0 where
    pub counts : IsCounted ops buckets c
    pub rows : length c.lists ≡ buckets
    pub referred : IsReferred ops (λ b. get_or c.lists b []) c.pool c.cells
    pub low : c.lowest ≤ buckets
    pub below : (b : ℕ) → b < c.lowest → get_or c.live b 0 ≡ 0

  -- The stamps have not reached the end of their 32 bits.
  abbrev pub HasStamps : CombiningHold A → Type 0
  HasStamps c = (e : ℕ) → (entry_at ops c.pool e).stamp + 1 < 2 ^ 32

  -- What `insert` keeps of the lists.
  record Listed (buckets : ℕ) (c : CombiningHold A) : Type 0 where
    rows : length c.lists ≡ buckets
    referred : IsReferred ops (λ b. get_or c.lists b []) c.pool c.cells
    low : c.lowest ≤ buckets
    below : (b : ℕ) → b < c.lowest → get_or c.live b 0 ≡ 0

  module _ (buckets : ℕ) (c : CombiningHold A) (v : IsValid buckets c) (stamps : HasStamps c)
      (x : A) (bucket : ℕ) (lane : bucket < buckets) where
    lane' : bucket < length c.lists
    lane' = omega (arith, lane, v.rows)

    low_or : (if ltb bucket c.lowest then bucket else c.lowest) ≤ buckets
    low_or = let low = v.low in ground arith

    under :
        (b : ℕ)
        → b < (if ltb bucket c.lowest then bucket else c.lowest)
        → (b < c.lowest) × (b ≢ bucket)
    under b lt = (ground arith, λ d. ground arith)

    fold_into-Listed :
        (e : ℕ) → 0 < times_in (suc e) c.cells → Listed buckets (fold_into ops x bucket e c).0
    unfolding fold_into refer
    fold_into-Listed e here =
        let old = entry_at ops c.pool e in
        let lt : e < length c.pool = v.counts.stored.inside e (omega (arith, here)) in
        elim (Bool-cases ((ops.combine old.payload x).2 && not (bucket == old.bucket))) [
          | inl moves ↦
              let new : Entry A = record old {
                payload = (ops.combine old.payload x).0;
                bucket = bucket;
                stamp = next_stamp old.stamp;
              } in
              let self = entry_at_self ops c.pool e new lt in
              rw moves (record {
                rows = length-set c.lists bucket _ ∙ v.rows;
                referred =
                    refer-IsReferred ops c.pool c.cells (set c.pool e new) c.cells c.lists e bucket
                      (omega (arith, length-set c.pool e new))
                      (omega (arith, lt, length-set c.pool e new)) lane'
                      (λ i d.
                        let same = entry_at_ne ops c.pool e i new d in
                        record {
                          stamp = ap (λ (y : Entry A). y.stamp) same;
                          bucket = ap (λ (y : Entry A). y.bucket) same;
                          count = refl;
                        })
                      (omega (arith, ap (λ (y : Entry A). y.stamp) self, stamps e))
                      (ap (λ (y : Entry A). y.bucket) self) here v.referred;
                low = low_or;
                below = λ b lt.
                    let (old_low, apart) = under b lt in
                    omega (
                      arith,
                      v.below b old_low,
                      get_or-raise (lower c.live old.bucket) bucket b (
                          omega (
                            arith,
                            lane,
                            v.counts.lanes,
                            length-set c.live old.bucket (get_or c.live old.bucket 0 - 1),
                          )),
                      get_or-lower c.live old.bucket b (present-live ops buckets c v.counts e here),
                      one_of_ne b bucket (λ d. apart (sym d)),
                    );
              })
          | inr stays ↦
              let new : Entry A = record old { payload = (ops.combine old.payload x).0 } in
              rw stays (record {
                rows = v.rows;
                referred =
                    IsReferred-Same ops c.pool c.cells (set c.pool e new) c.cells
                      (λ b. get_or c.lists b []) (omega (arith, length-set c.pool e new))
                      (λ i. record {
                        stamp = kept_by ops (λ (y : Entry A). y.stamp) c.pool e new lt refl i;
                        bucket = kept_by ops (λ (y : Entry A). y.bucket) c.pool e new lt refl i;
                        count = refl;
                      })
                      v.referred;
                low = v.low;
                below = v.below;
              })
        ]

    add-Listed :
        (slot : ℕ)
        → Found
            (is_entry_of ops c.pool (ops.key x))
            c.cells
            (home_slot c.cells (mix (ops.key x)))
            slot
        → held_at c.cells slot ≡ 0
        → ((s : ℕ) → 0 < times_in s c.cells → (entry_of ops c.pool s).key ≢ ops.key x)
        → Listed buckets (add ops x bucket slot c)
    unfolding add refer
    add-Listed slot f vacant absent =
        let e = new_index ops buckets c v.counts x bucket slot lane f vacant absent in
        let new = new_entry ops buckets c v.counts x bucket slot lane f vacant absent in
        let pool = new_pool ops buckets c v.counts x bucket slot lane f vacant absent in
        let now = placed ops buckets c v.counts x bucket slot lane f vacant absent in
        let al = allocated ops buckets c v.counts x bucket slot lane f vacant absent in
        let same_cells = (grown ops buckets c v.counts x bucket slot lane f vacant absent).1 in
        let (same_live, same_pool, same_retired, same_lists, same_lowest) =
          grow_if_due-rest ops (refer ops e bucket now) in
        let self = entry_at_self ops pool e new al.inside in
        let count : (s : ℕ)
            → times_in s (grow_if_due ops (refer ops e bucket now)).cells
              ≡ times_in s c.cells + one_of s (suc e) =
          λ s.
            same_cells (one_of s)
            ∙ weigh-fill ops (one_of s) c.cells slot (suc e) (tag_of (mix (ops.key x))) f.inside
                vacant (λ d. absurd (omega arith)) in
        record {
          rows = ap (λ lists. length lists) same_lists ∙ length-set c.lists bucket _ ∙ v.rows;
          referred =
              subst
                (λ p.
                  IsReferred ops (λ b. get_or (grow_if_due ops (refer ops e bucket now)).lists b [])
                    p (grow_if_due ops (refer ops e bucket now)).cells)
                (sym same_pool)
                (subst
                  (λ lists.
                    IsReferred ops (λ b. get_or lists b []) now.pool
                      (grow_if_due ops (refer ops e bucket now)).cells)
                  (sym same_lists)
                  (refer-IsReferred ops c.pool c.cells now.pool
                    (grow_if_due ops (refer ops e bucket now)).cells c.lists e bucket
                    (omega (arith, length-set pool e new, al.longer))
                    (omega (arith, al.inside, length-set pool e new)) lane'
                    (λ i d.
                      let same = entry_at_ne ops pool e i new d ∙ al.same i in
                      record {
                        stamp = ap (λ (y : Entry A). y.stamp) same;
                        bucket = ap (λ (y : Entry A). y.bucket) same;
                        count = omega (
                          arith,
                          count (suc i),
                          one_of_ne (suc i) (suc e) (λ g. d (omega (arith, g))),
                        );
                      })
                    (omega (
                      arith,
                      ap (λ (y : Entry A). y.stamp) self,
                      ap (λ (y : Entry A). y.stamp) (al.same e),
                      stamps e,
                    ))
                    (ap (λ (y : Entry A). y.bucket) self)
                    (omega (arith, count (suc e), one_of_self (suc e) (suc e) refl)) v.referred));
          low = subst (λ n. n ≤ buckets) (sym same_lowest) low_or;
          below = λ b lt.
              let (old_low, apart) = under b (subst (λ n. b < n) same_lowest lt) in
              ap (λ live. get_or live b 0) same_live
              ∙ omega (
                arith,
                v.below b old_low,
                get_or-raise c.live bucket b (omega (arith, lane, v.counts.lanes)),
                one_of_ne b bucket (λ d. apart (sym d)),
              );
        }

    insert-Listed : Listed buckets (insert ops x bucket c).0
    unfolding insert
    insert-Listed =
        let (z, vacancy) = IsCounted-vacancy ops buckets c v.counts in
        let slot = find_slot (is_entry_of ops c.pool (ops.key x)) c.cells (mix (ops.key x)) in
        let f =
          find_slot-Found (is_entry_of ops c.pool (ops.key x)) c.cells z vacancy
            (mix (ops.key x)) in
        elim (Bool-cases (held_at c.cells slot == 0)) [
          | inl t ↦
              let vacant : held_at c.cells slot ≡ 0 = ground arith in
              rw t (
                add-Listed slot f vacant (
                  search-absent ops (ops.key x) c.pool c.free c.cells z vacancy v.counts.stored
                    vacant))
          | inr t ↦
              let full : held_at c.cells slot ≢ 0 = λ d. ground arith in
              let e = held_at c.cells slot - 1 in
              rw t (
                fold_into-Listed e (
                  held-times ops c.cells slot (suc e) f.inside (λ d. absurd (omega arith))
                    (omega (arith, full))))
        ]

  -- insert keeps a hold valid, if the client's combine keeps the key, the bucket exists, and no
  -- stamp is at the end of its 32 bits: every entry is found from its home slot, no two entries
  -- have one key, the counts are exact, each entry has a reference in its bucket's list, a
  -- reference with the entry's stamp is current, and no bucket below the lowest has an item.
  pub insert-IsValid :
      (buckets : ℕ) (c : CombiningHold A) (x : A) (bucket : ℕ)
      → KeepsKey ops
      → HasStamps c
      → bucket < buckets
      → IsValid buckets c
      → IsValid buckets (insert ops x bucket c).0
  insert-IsValid buckets c x bucket law stamps lane v =
      let listed = insert-Listed buckets c v stamps x bucket lane in
      record {
        counts = (insert_lem ops buckets c x bucket law v.counts lane).0;
        rows = listed.rows;
        referred = listed.referred;
        low = listed.low;
        below = listed.below;
      }
