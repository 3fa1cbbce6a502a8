-- ===== src/Receive/Presorted.antt =====
-- The deliveries without a sort: HTramRecv::receive_no_sort with HTram::receivePerPE(HTramMessage),
-- for a message whose items stand in the order of their PEs, and HTram::receiveOnPE.
use htram.Prelude.{
  ℕ, zero, suc, ◌+◌, ◌≤◌, ◌<◌, ◌≡◌, refl, ap, sym, ◌∙◌, List, [], ◌∷◌, false, ltb, ◌==◌,
  if◌then◌else◌, map, get_or, inl, inr, Bool-cases, arith,
}
use htram.Message.{Item, Message}
use htram.Receive.Sorted.{for_pe}

module _ {A : Type 0} where
  -- `while (llimit < next && itemDestPe(items()[llimit]) < pe) llimit++`: what is left from there on.
  unfoldable pub from_pe : ℕ → List (Item A) → List (Item A)
  from_pe pe [] = []
  from_pe pe (it ∷ its) = if ltb it.dest_pe pe then from_pe pe its else it ∷ its

  -- `while (ulimit < next && itemDestPe(items()[ulimit]) == pe) ulimit++`: the payloads up to there.
  unfoldable pub while_pe : ℕ → List (Item A) → List A
  while_pe pe [] = []
  while_pe pe (it ∷ its) = if it.dest_pe == pe then it.payload ∷ while_pe pe its else []

  -- HTram::receivePerPE(HTramMessage *): what the client's callback gets.
  unfoldable pub receive_range : ℕ → Message A → List A
  unfolding from_pe while_pe
  receive_range pe m = while_pe pe (from_pe pe m.items)

  -- HTramRecv::receive_no_sort: every PE of the node gets the message.
  unfoldable pub receive_no_sort : ℕ → ℕ → Message A → List (List A)
  unfolding receive_range
  receive_no_sort first zero m = []
  receive_no_sort first (suc n) m = receive_range first m ∷ receive_no_sort (first + 1) n m

  -- HTram::receiveOnPE
  unfoldable pub received_on_pe : Message A → List A
  received_on_pe m = map (λ it. it.payload) m.items

  -- The items' PEs go up, from `low` on.
  abbrev pub IsSortedFrom : ℕ → List (Item A) → Type 0
  IsSortedFrom low [] = Unit
  IsSortedFrom low (it ∷ its) = (low ≤ it.dest_pe) × IsSortedFrom it.dest_pe its

  none_later :
      (pe low : ℕ) (its : List (Item A)) → IsSortedFrom low its → pe < low → for_pe pe its ≡ []
  none_later pe low [] v lt = refl
  none_later pe low (it ∷ its) v lt =
      let le = v.0 in
      let later : (it.dest_pe == pe) ≡ false = ground arith in
      rw later (none_later pe it.dest_pe its v.1 (omega (arith, v.0)))

  while_pe_lem :
      (pe low : ℕ) (its : List (Item A))
      → IsSortedFrom low its
      → pe ≤ low
      → while_pe pe its ≡ for_pe pe its
  unfolding while_pe
  while_pe_lem pe low [] v le = refl
  while_pe_lem pe low (it ∷ its) v le =
      let up = v.0 in
      let rest = while_pe_lem pe it.dest_pe its v.1 (omega (arith, v.0)) in
      elim (Bool-cases (it.dest_pe == pe)) [
        | inl same ↦ rw same (ap (λ ys. it.payload ∷ ys) rest)
        | inr later ↦ rw later (sym (none_later pe it.dest_pe its v.1 (ground arith)))
      ]

  from_pe_lem :
      (pe low : ℕ) (its : List (Item A))
      → IsSortedFrom low its
      → while_pe pe (from_pe pe its) ≡ for_pe pe its
  unfolding from_pe
  from_pe_lem pe low [] v = unfold while_pe in refl
  from_pe_lem pe low (it ∷ its) v =
      let rest = from_pe_lem pe it.dest_pe its v.1 in
      elim (Bool-cases (ltb it.dest_pe pe)) [
        | inl before ↦
            let other : (it.dest_pe == pe) ≡ false = ground arith in rw (before, other) rest
        | inr reached ↦
            rw reached (while_pe_lem pe it.dest_pe (it ∷ its) (omega arith, v.1) (ground arith))
      ]

  -- If the items of a message stand in ascending order of their PEs, then receive_no_sort, with the
  -- two scans of receivePerPE, hands each PE of the node the payloads of exactly the items that
  -- name it, in order.
  pub receive_no_sort_lem :
      (first n : ℕ) (m : Message A) (r : ℕ)
      → IsSortedFrom 0 m.items
      → r < n
      → get_or (receive_no_sort first n m) r [] ≡ for_pe (first + r) m.items
  unfolding receive_no_sort receive_range
  receive_no_sort_lem first zero m r v lt = absurd (omega arith)
  receive_no_sort_lem first (suc n) m zero v lt =
      let same : first ≡ first + 0 = omega arith in
      from_pe_lem first 0 m.items v ∙ ap (λ pe. for_pe pe m.items) same
  receive_no_sort_lem first (suc n) m (suc r) v lt =
      let same : first + 1 + r ≡ first + suc r = omega arith in
      receive_no_sort_lem (first + 1) n m r v (omega arith) ∙ ap (λ pe. for_pe pe m.items) same
