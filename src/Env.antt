-- ===== src/Env.antt =====
-- What htram_group.C takes from outside the repository: the client's callback get_dest_proc, C's
-- float, and the layout of a Charm++ message. All of it is a parameter of the model.
use htram.Prelude.{ℕ, Bool, ℤ}

pub record Env (A : Type 0) : Type 1 where
  -- get_dest_proc(objPtr, item), the PE that an item is for.
  pub dest_of : A → ℕ
  -- float, with the product of a float and an int, and an int compared with a float.
  pub Float : Type 0
  pub times : Float → ℕ → Float
  pub gt : ℤ → Float → Bool
  pub ge : ℤ → Float → Bool
  pub lt : ℤ → Float → Bool
  pub same_float : Float → Float → Bool
  -- The payload's offset in a message, sizeof(itemT), and ALIGN_DEFAULT.
  pub payload_offset : ℕ
  pub item_size : ℕ
  pub align : ℕ → ℕ
