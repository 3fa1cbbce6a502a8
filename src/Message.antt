-- ===== src/Message.antt =====
-- htram_group.h: the item on the wire, the aggregation message, and what a send hands to Charm++.
-- This is the layout in which items carry their destination PE (HTRAM_ITEMS_CARRY_DEST).
use htram.Prelude.{ℕ, suc, ◌+◌, ◌*◌, ◌≡◌, List, [], ◌∷◌, ◌++◌, length, arith, length-append}
use htram.Env.{Env}

-- struct item
pub record Item {ℓ} (A : Type ℓ) : Type ℓ where
  pub dest_pe : ℕ
  pub payload : A

-- class HTramMessage: the items written so far, and the number that it was allocated for. `next` is
-- the length of the list.
pub record Message {ℓ} (A : Type ℓ) : Type ℓ where
  pub items : List (Item A)
  pub cap : ℕ

abbrev pub next {ℓ} : {A : Type ℓ} → Message A → ℕ
next m = length m.items

-- newHTramMessage
unfoldable pub new_message {ℓ} : {A : Type ℓ} → ℕ → Message A
new_message capacity = record { items = []; cap = capacity }

-- `setItem(m->items()[m->next], value, dest_pe); m->next++;`
unfoldable pub put {ℓ} : {A : Type ℓ} → A → ℕ → Message A → Message A
put x pe m = record m { items = m.items ++ record { dest_pe = pe; payload = x } ∷ [] }

-- HTramMessage::usedBytes
unfoldable pub used_bytes : {A : Type 0} → Env A → Message A → ℕ
used_bytes E m = E.payload_offset + E.item_size * next m

-- The entry method that a message is sent to.
pub data Entry : Type 0 where
  receive receive_on_pe : Entry

pub record Sent {ℓ} (A : Type ℓ) : Type ℓ where
  pub entry : Entry
  pub msg : Message A

pub next-put {ℓ} : {A : Type ℓ} (x : A) (pe : ℕ) (m : Message A) → next (put x pe m) ≡ suc (next m)
unfolding put
next-put x pe m = omega (arith, length-append m.items (record { dest_pe = pe; payload = x } ∷ []))
