-- ===== src/Combine/Insert.antt =====
-- CombiningHold::insert on a new key, and as a whole.
use htram.Prelude.{
  ℕ, suc, ◌+◌, ◌-◌, ◌*◌, ◌≤◌, ◌<◌, ◌≡◌, ◌≢◌, refl, sym, ap, ◌∙◌, List, false, ◌==◌, ltb, negsuc,
  length, length-set, get_or, set, ◌⊎◌, inl, inr, Bool-cases, arith,
}
use htram.Combine.{
  HoldOps, Entry, CombiningHold, entry_at, hash_in, is_entry_of, next_stamp, raise, refer,
  alloc_entry, grow_if_due, add, insert,
}
use htram.Combine.Cells.{mix, tag_of, home_slot, find_slot}
use htram.Combine.Table.{held_at, weigh, Found, find_slot-Found}
use htram.Combine.Place.{occupied, rebuild-Rebuilt}
use htram.Combine.Weigh.{one_of, times_in}
use htram.Combine.Valid.{
  entry_of, worth, in_bucket, IsStored, IsCounted, IsCounted-vacancy, held-times, entry_of_self,
  search-absent, search-present,
}
use htram.Combine.Live.{get_or-raise}
use htram.Combine.Add.{
  Allocated, alloc_entry-Allocated, weigh-fill, weigh-kept, fill-IsStored, rebuild-IsStored,
}
use htram.Combine.Folds.{KeepsKey, Folded, Added, fold_into_lem}

module _ {A : Type 0} (ops : HoldOps A) where
  -- A table that one more entry may have filled over a half, grown or not.
  grow_if_due-IsCounted :
      (buckets : ℕ) (c : CombiningHold A)
      → IsStored ops c.pool c.free c.cells
      → 2 ≤ length c.cells
      → c.count * 2 ≤ length c.cells + 2
      → occupied c.cells ≡ c.count
      → length c.live ≡ buckets
      → ((b : ℕ) → get_or c.live b 0 ≡ weigh (in_bucket ops c.pool b) c.cells)
      → IsCounted ops buckets (grow_if_due ops c)
        × ((f : ℕ → ℕ) → weigh f (grow_if_due ops c).cells ≡ weigh f c.cells)
  unfolding grow_if_due
  grow_if_due-IsCounted buckets c stored wide room counted lanes exact =
      elim (Bool-cases (ltb (length c.cells) (c.count * 2))) [
        | inr small ↦ rw small (
          record {
            stored = stored;
            wide = wide;
            room = ground (arith, small);
            counted = counted;
            lanes = lanes;
            exact = exact;
          },
          λ f. refl,
        )
        | inl big ↦
            let fits : occupied c.cells < length c.cells * 2 = omega (arith, counted, room, wide) in
            let r = rebuild-Rebuilt (hash_in ops c.pool) (length c.cells * 2) c.cells fits in
            rw big (
              record {
                stored =
                    rebuild-IsStored ops c.pool c.free (length c.cells * 2) c.cells stored fits;
                wide = omega (arith, r.wide, wide);
                room = omega (arith, r.wide, wide, room);
                counted = r.same (λ s. 1) ∙ counted;
                lanes = lanes;
                exact = λ b. exact b ∙ sym (r.same (in_bucket ops c.pool b));
              },
              r.same,
            )
      ]

  pub grow_if_due-rest :
      (c : CombiningHold A)
      → ((grow_if_due ops c).live ≡ c.live)
        × ((grow_if_due ops c).pool ≡ c.pool)
        × ((grow_if_due ops c).retired ≡ c.retired)
        × ((grow_if_due ops c).lists ≡ c.lists)
        × ((grow_if_due ops c).lowest ≡ c.lowest)
  unfolding grow_if_due
  grow_if_due-rest c = elim (Bool-cases (ltb (length c.cells) (c.count * 2))) [
    | inr small ↦ rw small (refl, refl, refl, refl, refl)
    | inl big ↦ rw big (refl, refl, refl, refl, refl)
  ]

  abbrev with_inserted : ℕ → CombiningHold A → CombiningHold A
  with_inserted n c = record c { inserted = n }

  with_inserted-IsCounted :
      (buckets n : ℕ) (c : CombiningHold A)
      → IsCounted ops buckets c
      → IsCounted ops buckets (with_inserted n c)
  with_inserted-IsCounted buckets n c v = record {
    stored = v.stored;
    wide = v.wide;
    room = v.room;
    counted = v.counted;
    lanes = v.lanes;
    exact = v.exact;
  }

  module _ (buckets : ℕ) (c : CombiningHold A) (v : IsCounted ops buckets c) (x : A)
      (bucket slot : ℕ) (lane : bucket < buckets)
      (f : Found
        (is_entry_of ops c.pool (ops.key x))
        c.cells
        (home_slot c.cells (mix (ops.key x)))
        slot)
      (vacant : held_at c.cells slot ≡ 0)
      (absent : (s : ℕ) → 0 < times_in s c.cells → (entry_of ops c.pool s).key ≢ ops.key x) where
    abbrev pub new_index : ℕ
    new_index = (alloc_entry ops c).0

    abbrev pub new_pool : List (Entry A)
    new_pool = (alloc_entry ops c).1

    abbrev pub new_entry : Entry A
    new_entry = record {
      key = ops.key x;
      bucket = bucket;
      stamp = next_stamp (entry_at ops new_pool new_index).stamp;
      payload = x;
    }

    pub allocated : Allocated ops c new_index new_pool (alloc_entry ops c).2
    allocated = alloc_entry-Allocated ops c v.stored

    abbrev pub placed : CombiningHold A
    placed = record c {
      cells = set c.cells slot (record { entry = suc new_index; tag = tag_of (mix (ops.key x)) });
      pool = set new_pool new_index new_entry;
      free = (alloc_entry ops c).2;
      live = raise c.live bucket;
      count = c.count + 1;
    }

    weigh-placed :
        (g : Entry A → ℕ)
        → weigh (λ s. g (entry_of ops placed.pool s)) placed.cells
          ≡ weigh (λ s. g (entry_of ops c.pool s)) c.cells + g new_entry
    weigh-placed g = omega (
      arith,
      weigh-fill ops (λ s. g (entry_of ops placed.pool s)) c.cells slot (suc new_index)
          (tag_of (mix (ops.key x))) f.inside vacant (λ d. absurd (omega arith)),
      weigh-kept ops c new_index new_pool (alloc_entry ops c).2 new_entry allocated g,
      ap g (entry_of_self ops new_pool new_index new_entry allocated.inside),
    )

    pub grown :
        IsCounted ops buckets (grow_if_due ops (refer ops new_index bucket placed))
        × ((g : ℕ → ℕ)
            → weigh g (grow_if_due ops (refer ops new_index bucket placed)).cells
              ≡ weigh g placed.cells)
    unfolding refer
    grown =
        let same_length =
          length-set c.cells slot
            (record { entry = suc new_index; tag = tag_of (mix (ops.key x)) }) in
        grow_if_due-IsCounted buckets (refer ops new_index bucket placed)
          (fill-IsStored ops c new_index new_pool (alloc_entry ops c).2 new_entry allocated slot
            v.stored f.inside vacant (λ k lk w d. (f.before k lk w d).0) absent refl)
          (omega (arith, v.wide, same_length)) (omega (arith, v.room, same_length))
          (omega (arith, weigh-placed (λ y. 1), v.counted)) (length-set c.live bucket _ ∙ v.lanes)
          (λ b. omega (
            arith,
            weigh-placed (λ (y : Entry A). one_of b y.bucket),
            v.exact b,
            get_or-raise c.live bucket b (omega (arith, lane, v.lanes)),
          ))

    add_lem :
        IsCounted ops buckets (add ops x bucket slot c)
        × Added ops x bucket c
            (add ops x bucket slot c)
            (record { absorbed = false; old_bucket = negsuc 0; new_bucket = bucket })
    unfolding add refer
    add_lem =
        let (same_live, same_pool, same_retired, same_lists, same_lowest) =
          grow_if_due-rest (refer ops new_index bucket placed) in
        (
          with_inserted-IsCounted buckets _ _ grown.0,
          record {
            told = refl;
            absent = absent;
            items = λ w.
                ap
                  (λ p.
                    weigh (worth ops w p)
                      (grow_if_due ops (refer ops new_index bucket placed)).cells)
                  same_pool
                ∙ grown.1 (worth ops w placed.pool)
                ∙ weigh-placed (λ (y : Entry A). w y.payload);
            retires = same_retired;
            goes = refl;
            grows = λ b.
                ap (λ live. get_or live b 0) same_live
                ∙ get_or-raise c.live bucket b (omega (arith, lane, v.lanes));
          },
        )

  -- If the client's combine keeps the key, then insert into a bucket that exists, on a hold with
  -- exact counts, gives one, and either the key was not held and the item is added under its
  -- bucket, which new_bucket tells; or one held item of the key becomes the survivor, the other is
  -- handed to on_absorb, old_bucket tells the bucket that the entry was counted in, new_bucket is
  -- the bucket of the call if combine says that the entry moves and the old one if not, and the
  -- live counts move from the old bucket to it.
  pub insert_lem :
      (buckets : ℕ) (c : CombiningHold A) (x : A) (bucket : ℕ)
      → KeepsKey ops
      → IsCounted ops buckets c
      → bucket < buckets
      → IsCounted ops buckets (insert ops x bucket c).0
        × (Added ops x bucket c (insert ops x bucket c).0 (insert ops x bucket c).1
            ⊎ Folded ops x bucket c (insert ops x bucket c).0 (insert ops x bucket c).1)
  unfolding insert
  insert_lem buckets c x bucket law v lane =
      let (z, vacancy) = IsCounted-vacancy ops buckets c v in
      let slot = find_slot (is_entry_of ops c.pool (ops.key x)) c.cells (mix (ops.key x)) in
      let f =
        find_slot-Found (is_entry_of ops c.pool (ops.key x)) c.cells z vacancy (mix (ops.key x)) in
      elim (Bool-cases (held_at c.cells slot == 0)) [
        | inl t ↦
            let vacant : held_at c.cells slot ≡ 0 = ground arith in
            let (valid, added) =
              add_lem buckets c v x bucket slot lane f vacant
                (search-absent ops (ops.key x) c.pool c.free c.cells z vacancy v.stored vacant) in
            rw t (valid, inl added)
        | inr t ↦
            let full : held_at c.cells slot ≢ 0 = λ d. ground arith in
            let e = held_at c.cells slot - 1 in
            let back : held_at c.cells slot ≡ suc e = omega (arith, full) in
            let (valid, folded) =
              fold_into_lem ops buckets c v e
                (held-times ops c.cells slot (suc e) f.inside (λ d. absurd (omega arith)) back) x
                bucket
                (search-present ops (ops.key x) c.pool c.free c.cells z vacancy v.stored full) law
                lane in
            rw t (valid, inr folded)
      ]
