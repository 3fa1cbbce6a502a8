-- ===== src/Combine.antt =====
-- htram_combine.h, class CombiningHold: what a source holds for one destination, keyed, so that a
-- second item of a key folds into the first. An entry is a record of a pool, named by its index; the
-- table (Combine/Cells) finds it by its key, and a list for each bucket refers to it.
pub mod Cyclic
pub mod Cells
pub mod Table
pub mod Place
pub mod Shift
pub mod Weigh
pub mod Tags
pub mod Valid
pub mod Fold
pub mod Add
pub mod Live
pub mod Folds
pub mod Insert
pub mod Erase
pub mod Refs
pub mod Whole
pub mod Init
pub mod Take
pub mod Sweep
pub mod Release
pub mod Lowest
pub mod Laws
pub mod Tests
use htram.Prelude.{
  ℕ, zero, suc, ◌+◌, ◌-◌, ◌*◌, ◌%◌, ◌^◌, ℤ, pos, negsuc, leb_ℤ, List, [], ◌∷◌, ◌++◌, Bool, true,
  false, Option, none, some, ltb, leb, ◌==◌, ◌&&◌, not, if◌then◌else◌, length, get_or, set,
  replicate,
}
use htram.Combine.Cells.{Cell, empty_cell, cell_at, mix, tag_of, find_slot, rebuild, erase_cell}

-- struct HoldOps, the client's part: `combine held incoming` gives the survivor, the retired item,
-- and whether the survivor has the incoming item's bucket. `blank` is an item of zero bytes.
pub record HoldOps (A : Type 0) : Type 0 where
  pub key : A → ℕ
  pub combine : A → A → A × A × Bool
  pub blank : A

-- One record of the pool: keys_, buckets_, stamps_ and payloads_ at one index.
pub record Entry (A : Type 0) : Type 0 where
  pub key : ℕ
  pub bucket : ℕ
  pub stamp : ℕ
  pub payload : A

-- struct Ref
pub record Ref : Type 0 where
  pub entry : ℕ
  pub stamp : ℕ

-- `free` has the vector's back first. `retired` are the items that on_absorb was called on.
pub record CombiningHold (A : Type 0) : Type 0 where
  pub cells : List Cell
  pub pool : List (Entry A)
  pub free : List ℕ
  pub lists : List (List Ref)
  pub live : List ℕ
  pub lowest : ℕ
  pub count : ℕ
  pub absorbed : ℕ
  pub inserted : ℕ
  pub retired : List A

-- struct InsertResult
pub record InsertResult : Type 0 where
  pub absorbed : Bool
  pub old_bucket : ℤ
  pub new_bucket : ℕ

-- `stamps_[e]++`, on 32 bits.
abbrev pub next_stamp : ℕ → ℕ
next_stamp n = (n + 1) % 2 ^ 32

-- `v[b]++` and `v[b]--`
abbrev pub raise : List ℕ → ℕ → List ℕ
raise v b = set v b (get_or v b 0 + 1)

abbrev pub lower : List ℕ → ℕ → List ℕ
lower v b = set v b (get_or v b 0 - 1)

module _ {A : Type 0} (ops : HoldOps A) where
  abbrev pub blank_entry : Entry A
  blank_entry = record { key = 0; bucket = 0; stamp = 0; payload = ops.blank }

  abbrev pub entry_at : List (Entry A) → ℕ → Entry A
  entry_at pool e = get_or pool e blank_entry

  -- The mixed key of what a slot holds: the entry's index is one less.
  abbrev pub hash_in : List (Entry A) → ℕ → ℕ
  hash_in pool s = mix (entry_at pool (s - 1)).key

  -- init
  unfoldable pub init : ℕ → CombiningHold A
  unfolding rebuild mix
  init buckets = record {
    cells = rebuild (hash_in []) 64 [];
    pool = [];
    free = [];
    lists = replicate buckets [];
    live = replicate buckets 0;
    lowest = buckets;
    count = 0;
    absorbed = 0;
    inserted = 0;
    retired = [];
  }

  -- `lists_[bucket].push_back(Ref{e, stamps_[e]}); if (bucket < lowest_) lowest_ = bucket;`
  unfoldable pub refer : ℕ → ℕ → CombiningHold A → CombiningHold A
  refer e bucket c =
      let r : Ref = record { entry = e; stamp = (entry_at c.pool e).stamp } in
      record c {
        lists = set c.lists bucket (get_or c.lists bucket [] ++ r ∷ []);
        lowest = if ltb bucket c.lowest then bucket else c.lowest;
      }

  -- The fold of `insert`, into the entry `e`.
  unfoldable pub fold_into : A → ℕ → ℕ → CombiningHold A → CombiningHold A × InsertResult
  unfolding refer
  fold_into x bucket e c =
      let old = entry_at c.pool e in
      let (survivor, retired, moved) = ops.combine old.payload x in
      let folded = record c {
        pool = set c.pool e (record old { payload = survivor });
        absorbed = (c.absorbed + 1) % 2 ^ 64;
        retired = c.retired ++ retired ∷ [];
      } in
      if moved && not (bucket == old.bucket)
      then (
        refer e bucket (record folded {
          live = raise (lower c.live old.bucket) bucket;
          pool =
              set c.pool e
                (record old { payload = survivor; bucket = bucket; stamp = next_stamp old.stamp });
        }),
        record { absorbed = true; old_bucket = pos old.bucket; new_bucket = bucket },
      )
      else (
        folded,
        record { absorbed = true; old_bucket = pos old.bucket; new_bucket = old.bucket },
      )

  -- allocEntry: the entry, and what is left of the pool and the free list.
  unfoldable pub alloc_entry : CombiningHold A → ℕ × List (Entry A) × List ℕ
  alloc_entry c = elim c.free [
    | [] ↦ (length c.pool, c.pool ++ blank_entry ∷ [], [])
    | e ∷ rest ↦ (e, c.pool, rest)
  ]

  -- `if (count_ * 2 > mask_ + 1) rebuild((mask_ + 1) * 2);`
  unfoldable pub grow_if_due : CombiningHold A → CombiningHold A
  unfolding rebuild mix
  grow_if_due c =
      if ltb (length c.cells) (c.count * 2)
      then record c { cells = rebuild (hash_in c.pool) (length c.cells * 2) c.cells }
      else c

  -- The end of `insert`, with a new entry in the empty slot that was found.
  unfoldable pub add : A → ℕ → ℕ → CombiningHold A → CombiningHold A
  unfolding alloc_entry refer grow_if_due mix tag_of
  add x bucket slot c =
      let (e, pool, free) = alloc_entry c in
      let key = ops.key x in
      let stamp = next_stamp (entry_at pool e).stamp in
      let full = grow_if_due (
        refer e bucket (record c {
          cells = set c.cells slot (record { entry = suc e; tag = tag_of (mix key) });
          pool = set pool e (record { key = key; bucket = bucket; stamp = stamp; payload = x });
          free = free;
          live = raise c.live bucket;
          count = c.count + 1;
        })) in
      record full { inserted = (full.inserted + 1) % 2 ^ 64 }

  -- `tags_[slot] == tag && keys_[e] == key`
  abbrev pub is_entry_of : List (Entry A) → ℕ → Cell → Bool
  is_entry_of pool key cell =
      cell.tag == tag_of (mix key) && ((entry_at pool (cell.entry - 1)).key == key)

  -- CombiningHold::insert
  unfoldable pub insert : A → ℕ → CombiningHold A → CombiningHold A × InsertResult
  unfolding find_slot fold_into add mix tag_of
  insert x bucket c =
      let key = ops.key x in
      let slot = find_slot (is_entry_of c.pool key) c.cells (mix key) in
      let cell = cell_at c.cells slot in
      if cell.entry == 0
      then (
        add x bucket slot c,
        record { absorbed = false; old_bucket = negsuc 0; new_bucket = bucket },
      )
      else fold_into x bucket (cell.entry - 1) c

  -- erase
  unfoldable pub erase : ℕ → CombiningHold A → CombiningHold A
  unfolding erase_cell mix
  erase e c =
      let old = entry_at c.pool e in
      record c {
        cells = erase_cell (hash_in c.pool) (suc e) c.cells;
        pool = set c.pool e (record old { stamp = next_stamp old.stamp });
        free = e ∷ c.free;
        count = c.count - 1;
      }

  -- The inner loop of `release`, over the references of bucket `b`: those that are left, with the rest.
  unfoldable pub release_list :
      ℕ → ℕ → List Ref → CombiningHold A × List A → List Ref × CombiningHold A × List A
  unfolding erase
  release_list b limit [] (c, out) = ([], c, out)
  release_list b limit (r ∷ rs) (c, out) =
      let old = entry_at c.pool r.entry in
      let is_live = old.stamp == r.stamp in
      let erased = erase r.entry c in
      let c' = if is_live then record erased { live = lower c.live b } else c in
      let out' = if is_live then out ++ old.payload ∷ [] else out in
      let rest = release_list b limit rs (c', out') in
      if ltb (length out) limit then rest else (r ∷ rs, c, out)

  -- The outer loop of `release`: buckets from `b` on, up to `high` or the last one, which is
  -- where the fuel ends.
  unfoldable pub release_from : ℕ → ℕ → ℤ → ℕ → CombiningHold A × List A → CombiningHold A × List A
  unfolding release_list
  release_from zero b high limit (c, out) = (c, out)
  release_from (suc n) b high limit (c, out) =
      let (left, c', out') = release_list b limit (get_or c.lists b []) (c, out) in
      let rest =
        release_from n (b + 1) high limit (record c' { lists = set c'.lists b left }, out') in
      if leb_ℤ (pos b) high && ltb (length out) limit then rest else (c, out)

  -- `while (lowest_ < live_.size() && live_[lowest_] == 0) { lists_[lowest_].clear(); lowest_++; }`
  unfoldable pub raise_lowest : ℕ → CombiningHold A → CombiningHold A
  raise_lowest zero c = c
  raise_lowest (suc n) c =
      let rest =
        raise_lowest n (record c { lists = set c.lists c.lowest []; lowest = c.lowest + 1 }) in
      if ltb c.lowest (length c.live) && (get_or c.live c.lowest 0 == 0) then rest else c

  -- CombiningHold::release: the hold, and the items in the order of the calls of `emit`.
  unfoldable pub release : ℤ → ℕ → CombiningHold A → CombiningHold A × List A
  unfolding release_from raise_lowest
  release high limit c =
      let (c', out) = release_from (length c.lists - c.lowest) c.lowest high limit (c, []) in
      (raise_lowest (length c.live) c', out)

  -- live: `none` is a read past the end.
  unfoldable pub live_in : ℕ → CombiningHold A → Option ℕ
  live_in b c = if ltb b (length c.live) then some (get_or c.live b 0) else none
