-- ===== src/Receive/Sorted.antt =====
-- The sort of HTramRecv::receive as a whole: each PE of the node gets exactly its items, in the
-- order in which they stand in the message.
use htram.Prelude.{
  ℕ, zero, suc, ◌+◌, ◌-◌, ◌≤◌, ◌<◌, ◌≡◌, refl, sym, ap, ap₂, ◌∙◌, List, [], ◌∷◌, Bool, false,
  Option, none, some, ◌==◌, ◌&&◌, not, if◌then◌else◌, map, length, get_or, replicate,
  length-replicate, All, sum_by, inl, inr, arith, dec_lt,
}
use htram.Message.{Item, Message, next}
use htram.Receive.{
  starts, ends, rank_items, ranks, place, sizes_of, receive_sorted, is_delivered, read, llimit,
  receive_per_pe,
}
use htram.Receive.Counts.{
  count, upto, length-tally, tally_lem, sum-tally, length-starts, starts_lem, ends_lem, upto-suc,
  upto_le, upto_sum,
}
use htram.Receive.Place.{of_rank, HasRoom, place_lem}

module _ {A : Type 0} where
  -- What a message has for one PE: the payloads of the items that name it, in order.
  abbrev pub for_pe : ℕ → List (Item A) → List A
  for_pe pe [] = []
  for_pe pe (it ∷ its) = if it.dest_pe == pe then it.payload ∷ for_pe pe its else for_pe pe its

  -- Every item is for a PE of the node.
  abbrev pub IsForNode : ℕ → ℕ → List (Item A) → Type 0
  IsForNode rank0 node_size its =
      All (λ it. (rank0 ≤ it.dest_pe) × (it.dest_pe < rank0 + node_size)) its

  ranked-inside :
      (rank0 n : ℕ) (its : List (Item A))
      → IsForNode rank0 n its
      → All (λ r. r < n) (ranks (rank_items rank0 its))
  unfolding rank_items
  ranked-inside rank0 n [] ok = tt
  ranked-inside rank0 n (it ∷ its) ok = (omega (arith, ok.0), ranked-inside rank0 n its ok.1)

  length-ranks :
      (rank0 : ℕ) (its : List (Item A)) → length (ranks (rank_items rank0 its)) ≡ length its
  unfolding rank_items
  length-ranks rank0 [] = refl
  length-ranks rank0 (it ∷ its) = ap suc (length-ranks rank0 its)

  of_rank_lem :
      (rank0 n r : ℕ) (its : List (Item A))
      → IsForNode rank0 n its
      → of_rank r (rank_items rank0 its) ≡ for_pe (rank0 + r) its
  unfolding rank_items
  of_rank_lem rank0 n r [] ok = refl
  of_rank_lem rank0 n r (it ∷ its) ok =
      let inside = ok.0 in
      let same : (it.dest_pe - rank0 == r) ≡ (it.dest_pe == rank0 + r) = ground arith in
      ap₂ (λ (b : Bool) ys. if b then it.payload ∷ ys else ys) same (of_rank_lem rank0 n r its ok.1)

sum-zeros : (n : ℕ) → sum_by (λ k. k) (replicate n 0) ≡ 0
sum-zeros zero = refl
sum-zeros (suc n) = omega (arith, sum-zeros n)

get_or-zeros : (n r : ℕ) → get_or (replicate n zero) r zero ≡ zero
get_or-zeros zero r = refl
get_or-zeros (suc n) zero = refl
get_or-zeros (suc n) (suc r) = get_or-zeros n r

module _ {A : Type 0} (rank0 n : ℕ) (m : Message A) (ok : IsForNode rank0 n m.items) where
  abbrev ps : List (ℕ × A)
  ps = rank_items rank0 m.items

  abbrev sizes : List ℕ
  sizes = sizes_of rank0 n m

  length-sizes : length sizes ≡ n
  unfolding sizes_of
  length-sizes = length-tally (replicate n 0) (ranks ps) ∙ length-replicate n zero

  sizes_lem : (r : ℕ) → r < n → get_or sizes r 0 ≡ count r (ranks ps)
  unfolding sizes_of
  sizes_lem r lt = omega (
    arith,
    tally_lem (replicate n 0) (ranks ps) r (omega (arith, lt, length-replicate n zero)),
    get_or-zeros n r,
  )

  sum-sizes : sum_by (λ k. k) sizes ≡ next m
  unfolding sizes_of
  sum-sizes = omega (
    arith,
    sum-tally (replicate n 0) (ranks ps)
        (rw (length-replicate n zero) (ranked-inside rank0 n m.items ok)),
    sum-zeros n,
    length-ranks rank0 m.items,
  )

  start_lem : (r : ℕ) → r < n → get_or (starts 0 sizes) r 0 ≡ upto r sizes
  start_lem r lt = omega (arith, starts_lem 0 r sizes (omega (arith, lt, length-sizes)))

  abbrev no_item : Option A
  no_item = none

  all_HasRoom : HasRoom (starts 0 sizes) (length (replicate (next m) no_item)) ps
  all_HasRoom = record {
    inside = rw wide (ranked-inside rank0 n m.items ok);
    bounded = λ r lt.
        let l : r < n = omega (arith, lt, wide) in
        omega (
          arith,
          start_lem r l,
          sizes_lem r l,
          upto_sum r sizes,
          sum-sizes,
          length-replicate (next m) no_item,
        );
    apart = λ r q lr lq ne.
        let r' : r < n = omega (arith, lr, wide) in
        let q' : q < n = omega (arith, lq, wide) in
        elim (dec_lt r q) [
          | yes lt ↦
              inl (
                omega (arith, start_lem r r', start_lem q q', sizes_lem r r', upto_le r q sizes lt))
          | no ge ↦
              let lt : q < r = elim (dec_lt q r) [ yes l ↦ l | no g ↦ absurd (ne (omega arith)) ] in
              inr (
                omega (arith, start_lem r r', start_lem q q', sizes_lem q q', upto_le q r sizes lt))
        ];
  }
    where
      wide : length (starts 0 sizes) ≡ n
      wide = length-starts 0 sizes ∙ length-sizes

  limits :
      (r : ℕ)
      → r < n
      → (llimit (ends 0 sizes) r ≡ get_or (starts 0 sizes) r 0)
        × (get_or (ends 0 sizes) r 0 - llimit (ends 0 sizes) r ≡ count r (ranks ps))
  limits zero lt = (
    omega (arith, start_lem 0 lt),
    omega (
      arith,
      ends_lem 0 0 sizes (omega (arith, lt, length-sizes)),
      upto-suc 0 sizes,
      sizes_lem 0 lt,
    ),
  )
  limits (suc r) lt =
      let low = ends_lem 0 r sizes (omega (arith, lt, length-sizes)) in
      (
        omega (arith, start_lem (suc r) lt, low),
        omega (
          arith,
          low,
          ends_lem 0 (suc r) sizes (omega (arith, lt, length-sizes)),
          upto-suc (suc r) sizes,
          sizes_lem (suc r) lt,
        ),
      )

  none_of_rank : (r : ℕ) (qs : List (ℕ × A)) → count r (ranks qs) ≡ 0 → of_rank r qs ≡ []
  none_of_rank r [] e = refl
  none_of_rank r ((q, x) ∷ qs) e =
      let miss : (q == r) ≡ false = ground arith in rw miss (none_of_rank r qs (ground arith))

  -- If every item of a message is for a PE of the node, then after the counting sort of
  -- HTramRecv::receive the PE of each rank is handed the payloads of exactly the items that name
  -- it, in the order in which they stand in the message, each from a slot that was written.
  pub receive_per_pe_lem :
      (r : ℕ)
      → r < n
      → receive_per_pe r (receive_sorted rank0 n m) ≡ map some (for_pe (rank0 + r) m.items)
  unfolding receive_sorted receive_per_pe
  receive_per_pe_lem r lt =
      let (from, size) = limits r lt in
      ap₂ (read (place ps (starts 0 sizes) (replicate (next m) none))) from size
      ∙ place_lem ps (starts 0 sizes) (replicate (next m) none) r all_HasRoom
          (omega (arith, lt, length-starts 0 sizes, length-sizes))
      ∙ ap (map some) (of_rank_lem rank0 n r m.items ok)

  -- If every item of a message is for a PE of the node, then a PE of the node that
  -- HTramRecv::receive passes over under skip_empty_deliveries has no item in the message.
  pub is_delivered_lem :
      (skip : Bool) (r : ℕ)
      → r < n
      → is_delivered skip (sizes_of rank0 n m) r ≡ false
      → for_pe (rank0 + r) m.items ≡ []
  unfolding is_delivered
  is_delivered_lem skip r lt e =
      sym (of_rank_lem rank0 n r m.items ok)
      ∙ none_of_rank r ps (omega (arith, sizes_lem r lt, nothing skip (get_or sizes r 0) e))
    where
      nothing : (b : Bool) (k : ℕ) → not (b && (k == 0)) ≡ false → k ≡ 0
      nothing b k e = ground arith
