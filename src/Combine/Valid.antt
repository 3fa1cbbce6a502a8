-- ===== src/Combine/Valid.antt =====
-- The representation invariant of CombiningHold: what the table, the pool and the free list agree on,
-- and the counts kept beside them.
use htram.Prelude.{
  ℕ, suc, ◌+◌, ◌-◌, ◌*◌, ◌≤◌, ◌<◌, ◌≡◌, ◌≢◌, sym, ap, ◌∙◌, List, true, ◌==◌, length, get_or, set,
  get_or-set_self, get_or-set_ne, sum_by, All, inl, inr, Bool-cases, arith,
}
use htram.Combine.{HoldOps, Entry, CombiningHold, blank_entry, entry_at, hash_in, is_entry_of}
use htram.Combine.Cells.{Cell, cell_at, mix, tag_of, find_slot}
use htram.Combine.Table.{held_at, HasVacancy, IsUnbroken, weigh, find_slot_full, find_slot_hit}
use htram.Combine.Place.{occupied, vacancy_of}
use htram.Combine.Weigh.{one_of, times_in, times-held, slot_of}
use htram.Combine.Tags.{IsTagged, IsTagged-at}

abbrev pub times : ℕ → List ℕ → ℕ
times e free = sum_by (one_of e) free

module _ {A : Type 0} (ops : HoldOps A) where
  -- The entry that a slot with `s` refers to.
  abbrev pub entry_of : List (Entry A) → ℕ → Entry A
  entry_of pool s = entry_at ops pool (s - 1)

  -- The weights by which items and buckets are counted.
  abbrev pub worth : (A → ℕ) → List (Entry A) → ℕ → ℕ
  worth w pool s = w (entry_of pool s).payload

  abbrev pub in_bucket : List (Entry A) → ℕ → ℕ → ℕ
  in_bucket pool b s = one_of b (entry_of pool s).bucket

  -- What the hold holds, by a weight of the items.
  abbrev pub held : (A → ℕ) → CombiningHold A → ℕ
  held w c = weigh (worth w c.pool) c.cells

  -- The table finds each of its entries by the key, an entry is in one slot or free, and no two
  -- entries have one key.
  pub record IsStored (pool : List (Entry A)) (free : List ℕ) (cells : List Cell) : Type 0 where
    pub unbroken : IsUnbroken (hash_in ops pool) cells
    pub tagged : All (IsTagged (hash_in ops pool)) cells
    pub once : (e : ℕ) → times_in (suc e) cells + times e free ≤ 1
    pub inside : (e : ℕ) → 0 < times_in (suc e) cells + times e free → e < length pool
    pub keyed :
        (s : ℕ) → 0 < times_in s cells → (entry_of pool s).key ≡ ops.key (entry_of pool s).payload
    pub apart :
        (s t : ℕ)
        → 0 < times_in s cells
        → 0 < times_in t cells
        → (entry_of pool s).key ≡ (entry_of pool t).key
        → s ≡ t

  -- The table is at most half full, and the counts are exact.
  pub record IsCounted (buckets : ℕ) (c : CombiningHold A) : Type 0 where
    pub stored : IsStored c.pool c.free c.cells
    pub wide : 2 ≤ length c.cells
    pub room : c.count * 2 ≤ length c.cells
    pub counted : occupied c.cells ≡ c.count
    pub lanes : length c.live ≡ buckets
    pub exact : (b : ℕ) → get_or c.live b 0 ≡ weigh (in_bucket c.pool b) c.cells

  pub IsCounted-vacancy :
      (buckets : ℕ) (c : CombiningHold A) → IsCounted buckets c → (z : ℕ) × HasVacancy c.cells z
  IsCounted-vacancy buckets c v = vacancy_of c.cells (omega (arith, v.counted, v.wide, v.room))

  -- A slot in use has an entry of the table.
  pub held-times :
      (cells : List Cell) (i s : ℕ)
      → i < length cells
      → s ≢ 0
      → held_at cells i ≡ s
      → 0 < times_in s cells
  held-times cells i s lt ne e = times-held cells i s lt ne e

  module _ (key : ℕ) (pool : List (Entry A)) (free : List ℕ) (cells : List Cell) (z : ℕ)
      (v : HasVacancy cells z) (stored : IsStored pool free cells) where
    abbrev slot : ℕ
    slot = find_slot (is_entry_of ops pool key) cells (mix key)

    -- The search of `insert` passes no entry of the key.
    pub search-absent :
        held_at cells slot ≡ 0 → (s : ℕ) → 0 < times_in s cells → (entry_of pool s).key ≢ key
    search-absent vacant s here e =
        let (j, st) = slot_of cells s here in
        let full : held_at cells j ≢ 0 = λ d. st.some (sym st.here ∙ d) in
        let same : (entry_of pool (held_at cells j)).key ≡ key =
          ap (λ t. (entry_of pool t).key) st.here ∙ e in
        let tag : (cell_at cells j).tag ≡ tag_of (mix key) =
          IsTagged-at (hash_in ops pool) cells j stored.tagged full
          ∙ ap (λ k. tag_of (mix k)) same in
        let hit_tag : ((cell_at cells j).tag == tag_of (mix key)) ≡ true = ground arith in
        let hit_key : ((entry_of pool (held_at cells j)).key == key) ≡ true = ground arith in
        find_slot_full (hash_in ops pool) (is_entry_of ops pool key) cells z (mix key) j v
          stored.unbroken st.inside full (rw (hit_tag, hit_key)) (ap mix same) vacant

    -- Where it ends at an entry, that is the entry of the key.
    pub search-present : held_at cells slot ≢ 0 → (entry_of pool (held_at cells slot)).key ≡ key
    search-present full =
        let hit = find_slot_hit (is_entry_of ops pool key) cells z (mix key) v full in
        elim (Bool-cases ((cell_at cells slot).tag == tag_of (mix key))) [
          | inr other ↦ absurd (cc)
          | inl same ↦
              let k : ((entry_of pool (held_at cells slot)).key == key) ≡ true = cc in ground arith
        ]

-- One slot of the pool written.
module _ {A : Type 0} (ops : HoldOps A) where
  pub entry_at_self :
      (pool : List (Entry A)) (e : ℕ) (x : Entry A)
      → e < length pool
      → entry_at ops (set pool e x) e ≡ x
  entry_at_self pool e x lt = get_or-set_self pool e x (blank_entry ops) lt

  pub entry_at_ne :
      (pool : List (Entry A)) (e i : ℕ) (x : Entry A)
      → i ≢ e
      → entry_at ops (set pool e x) i ≡ entry_at ops pool i
  entry_at_ne pool e i x ne = get_or-set_ne pool e i x (blank_entry ops) (λ d. ne (sym d))

  pub entry_of_ne :
      (pool : List (Entry A)) (e s : ℕ) (x : Entry A)
      → s ≢ 0
      → s ≢ suc e
      → entry_of ops (set pool e x) s ≡ entry_of ops pool s
  entry_of_ne pool e s x some ne = entry_at_ne pool e (s - 1) x (λ d. ne (omega (arith, d, some)))

  pub entry_of_self :
      (pool : List (Entry A)) (e : ℕ) (x : Entry A)
      → e < length pool
      → entry_of ops (set pool e x) (suc e) ≡ x
  entry_of_self pool e x lt =
      let back : suc e - 1 ≡ e = omega arith in
      ap (λ i. entry_at ops (set pool e x) i) back ∙ entry_at_self pool e x lt
