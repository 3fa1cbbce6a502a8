-- ===== src/Pack/Tests.antt =====
-- Six PEs.
use mathlib.Core.Option
use htram.Prelude.{
  ℕ, zero, suc, pos, negsuc, List, [], ◌∷◌, ◌+◌, ◌*◌, ◌/◌, ◌%◌, ◌<◌, ◌≡◌, true, ◌+ℤ◌, ◌-ℤ◌,
  replicate, refl, arith, some,
}
use htram.Pack.{pack_index, local_of, pe_of}
use htram.Pack.Gather.{
  Updater, init_table, gather, is_error, check_errors, is_in, IsAsked, check_errors-gather,
}
use htram.Pack.Histo.{
  Delivery, insert_data, insert_data2, count_keys, count_errors, unbalanced,
  count_errors-unbalanced_keys,
}
use htram.Pack.Index.{pack_index_lem}

packed : pack_index 6 1000 ≡ 166 * 65536 + 4
unfolding pack_index
packed = refl

pack_index_lem_example :
    (local_of (pack_index 6 1000) * 6 + pe_of (pack_index 6 1000) ≡ 1000)
    × (pe_of (pack_index 6 1000) < 6)
pack_index_lem_example = pack_index_lem 6 1000 (omega arith) (omega arith)

-- The owners of a table of six places on two PEs, and a PE that asks for two of them.
abbrev owners : ℕ → Updater
owners pe = record {
  this_index = pe;
  table = init_table pe 3 3 0;
  index = [];
  pckindx = [];
  tgt = [];
  count = [];
}

abbrev asking : Updater
asking = record {
  this_index = 0;
  table = init_table 0 3 3 0;
  index = 4 ∷ 1 ∷ [];
  pckindx = pack_index 2 4 ∷ pack_index 2 1 ∷ [];
  tgt = pos 0 ∷ pos 0 ∷ [];
  count = 0 ∷ 0 ∷ [];
}

-- Place 4 is the third of PE 0, place 1 the first of PE 1.
answers : (gather owners (1 ∷ 0 ∷ 1 ∷ []) asking).tgt ≡ negsuc 2 ∷ negsuc 3 ∷ []
unfolding gather init_table pack_index
answers = refl

errors_before : (check_errors 2 3 2 0 asking).0 ≡ 2
unfolding check_errors
errors_before = refl

-- An index past the range of an int: the table has the right value, and still it is an error.
cut_off :
    is_error 65536 100000 3000000000 (negsuc (3000000000 % 65536 * 100000 + 3000000000 / 65536))
    ≡ true
unfolding is_error
cut_off = refl

asking-IsAsked : (j : ℕ) → j < 2 → IsAsked 2 3 j asking
asking-IsAsked zero lt = record { inside = omega arith; packed = refl; there = omega arith }
asking-IsAsked (suc zero) lt = record { inside = omega arith; packed = refl; there = omega arith }
asking-IsAsked (suc (suc j)) lt = absurd (omega arith)

all_in : (j : ℕ) → j < 2 → is_in j (1 ∷ 0 ∷ 1 ∷ []) ≡ true
all_in zero lt = refl
all_in (suc zero) lt = refl
all_in (suc (suc j)) lt = absurd (omega arith)

check_errors-gather_example : (check_errors 2 3 2 0 (gather owners (1 ∷ 0 ∷ 1 ∷ []) asking)).0 ≡ 0
check_errors-gather_example =
    check_errors-gather 2 3 2 (1 ∷ 0 ∷ 1 ∷ []) asking owners (omega arith) (omega arith)
      (λ pe lt. record { own = refl; filled = refl }) asking-IsAsked
      (omega arith, (omega arith, (omega arith, tt))) all_in

-- Key 0 is counted and taken off, key 1 is counted three times and taken off twice.
abbrev deliveries : List Delivery
deliveries =
    insert_data 1
    ∷ insert_data 0
    ∷ insert_data2 1
    ∷ insert_data 1
    ∷ insert_data2 1
    ∷ insert_data2 0
    ∷ insert_data 1
    ∷ []

one_left : Option.map count_errors (count_keys deliveries (pos 0 ∷ pos 0 ∷ [])) ≡ some 1
unfolding count_keys count_errors ◌+ℤ◌ ◌-ℤ◌
one_left = refl

count_errors-unbalanced_keys_example :
    Option.map count_errors (count_keys deliveries (replicate 2 (pos 0)))
    ≡ some (unbalanced 2 0 deliveries)
count_errors-unbalanced_keys_example = count_errors-unbalanced_keys 2 deliveries (
  omega arith,
  (omega arith, (omega arith, (omega arith, (omega arith, (omega arith, (omega arith, tt)))))),
)
