-- ===== src/Receive.antt =====
-- htram_group.C, the receiving side: HTramRecv::receive sorts a message's items by the PE of the
-- node that they are for, and HTram::receivePerPE(HTramNodeMessage) hands one PE its part. The
-- message has items that carry their destination PE (HTRAM_ITEMS_CARRY_DEST).
pub mod Counts
pub mod Place
pub mod Sorted
pub mod Presorted
mod Tests
use htram.Prelude.{
  ℕ, zero, suc, ◌+◌, ◌-◌, List, [], ◌∷◌, Bool, Option, none, some, ◌==◌, ◌&&◌, not, if◌then◌else◌,
  map, length, get_or, set, replicate,
}
use htram.Message.{Item, Message, next}

-- class HTramNodeMessage. A slot of the items is `none` until it is written.
pub record NodeMessage (A : Type 0) : Type 0 where
  pub items : List (Option A)
  pub offset : List ℕ

-- `v[i]++`
unfoldable pub bump : List ℕ → ℕ → List ℕ
bump v i = set v i (get_or v i 0 + 1)

-- `for (i …) sizes[ranks[i]]++`
unfoldable pub tally : List ℕ → List ℕ → List ℕ
unfolding bump
tally sizes [] = sizes
tally sizes (r ∷ rs) = tally (bump sizes r) rs

-- `offset[0] = 0; offset[i] = offset[i - 1] + sizes[i - 1]`
unfoldable pub starts : ℕ → List ℕ → List ℕ
starts from [] = []
starts from (n ∷ ns) = from ∷ starts (from + n) ns

-- `offset[0] = sizes[0]; offset[i] = offset[i - 1] + sizes[i]`
unfoldable pub ends : ℕ → List ℕ → List ℕ
ends from [] = []
ends from (n ∷ ns) = (from + n) ∷ ends (from + n) ns

-- The PEs that the node's message is delivered to: `if (skip && !sizes[r]) continue;`
unfoldable pub is_delivered : Bool → List ℕ → ℕ → Bool
is_delivered skip sizes r = not (skip && (get_or sizes r 0 == 0))

-- `llimit = rank > 0 ? offset[rank - 1] : 0`
abbrev pub llimit : List ℕ → ℕ → ℕ
llimit offset zero = 0
llimit offset (suc rank) = get_or offset rank 0

module _ {A : Type 0} where
  -- ranks[i] with the item's payload. A PE before the node's first one would give a negative index;
  -- the subtraction here stops at 0.
  unfoldable pub rank_items : ℕ → List (Item A) → List (ℕ × A)
  rank_items rank0 [] = []
  rank_items rank0 (it ∷ its) = (it.dest_pe - rank0, it.payload) ∷ rank_items rank0 its

  abbrev pub ranks : List (ℕ × A) → List ℕ
  ranks [] = []
  ranks ((r, x) ∷ ps) = r ∷ ranks ps

  -- `for (i …) items()[offset[ranks[i]]++] = payload`
  unfoldable pub place : List (ℕ × A) → List ℕ → List (Option A) → List (Option A)
  unfolding bump
  place [] offset items = items
  place ((r, x) ∷ ps) offset items =
      place ps (bump offset r) (set items (get_or offset r 0) (some x))

  -- The sizes that HTramRecv::receive counts.
  unfoldable pub sizes_of : ℕ → ℕ → Message A → List ℕ
  unfolding tally rank_items
  sizes_of rank0 node_size m = tally (replicate node_size 0) (ranks (rank_items rank0 m.items))

  -- HTramRecv::receive on a node with `node_size` PEs, the first of which is `rank0`.
  unfoldable pub receive_sorted : ℕ → ℕ → Message A → NodeMessage A
  unfolding sizes_of starts ends place rank_items
  receive_sorted rank0 node_size m =
      let sizes = sizes_of rank0 node_size m in
      record {
        items = place (rank_items rank0 m.items) (starts 0 sizes) (replicate (next m) none);
        offset = ends 0 sizes;
      }

  -- `for (i = llimit; i < ulimit; i++) cb(items()[i])`
  unfoldable pub read : List (Option A) → ℕ → ℕ → List (Option A)
  read items from zero = []
  read items from (suc n) = get_or items from none ∷ read items (from + 1) n

  -- HTram::receivePerPE(HTramNodeMessage *): what the client's callback gets on the PE of that rank.
  unfoldable pub receive_per_pe : ℕ → NodeMessage A → List (Option A)
  unfolding read
  receive_per_pe rank m =
      let from = llimit m.offset rank in read m.items from (get_or m.offset rank 0 - from)
