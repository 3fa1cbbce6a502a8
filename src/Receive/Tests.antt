-- ===== src/Receive/Tests.antt =====
-- The sort of HTramRecv::receive on a message of four items, at a node with two PEs from PE 2 on.
use htram.Prelude.{ℕ, [], ◌∷◌, true, some, get_or, map, ◌≡◌, refl, ◌+◌, arith}
use htram.Message.{Item, Message}
use htram.Receive.{receive_sorted, receive_per_pe, is_delivered, sizes_of}
use htram.Receive.Presorted.{receive_no_sort, receive_no_sort_lem}
use htram.Receive.Sorted.{for_pe, IsForNode, receive_per_pe_lem, is_delivered_lem}

abbrev item : ℕ → ℕ → Item ℕ
item pe x = record { dest_pe = pe; payload = x }

abbrev message : Message ℕ
message = record { items = item 3 10 ∷ item 2 11 ∷ item 3 12 ∷ item 2 13 ∷ []; cap = 4 }

message-IsForNode : IsForNode 2 2 message.items
message-IsForNode = (
  (omega arith, omega arith),
  ((omega arith, omega arith), ((omega arith, omega arith), ((omega arith, omega arith), tt))),
)

abbrev one_sided : Message ℕ
one_sided = record { items = item 3 10 ∷ []; cap = 4 }

one_sided-IsForNode : IsForNode 2 2 one_sided.items
one_sided-IsForNode = ((omega arith, omega arith), tt)

sorted : receive_per_pe 1 (receive_sorted 2 2 message) ≡ some 10 ∷ some 12 ∷ []
unfolding receive_per_pe receive_sorted
sorted = refl

receive_per_pe_lem_example :
    receive_per_pe 1 (receive_sorted 2 2 message) ≡ map some (for_pe (2 + 1) message.items)
receive_per_pe_lem_example = receive_per_pe_lem 2 2 message message-IsForNode 1 (omega arith)

is_delivered_lem_example : for_pe (2 + 0) one_sided.items ≡ []
is_delivered_lem_example =
    is_delivered_lem 2 2 one_sided one_sided-IsForNode true 0 (omega arith)
      (unfold is_delivered sizes_of in refl)

abbrev presorted : Message ℕ
presorted = record { items = item 2 11 ∷ item 2 13 ∷ item 3 10 ∷ []; cap = 4 }

receive_no_sort_lem_example :
    get_or (receive_no_sort 2 2 presorted) 1 [] ≡ for_pe (2 + 1) presorted.items
receive_no_sort_lem_example =
    receive_no_sort_lem 2 2 presorted 1 (omega arith, (omega arith, (omega arith, tt)))
      (omega arith)
