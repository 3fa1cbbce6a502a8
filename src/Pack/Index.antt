-- ===== src/Pack/Index.antt =====
-- An index is found again from its word, for up to 65536 PEs.
use htram.Prelude.{ℕ, ◌+◌, ◌*◌, ◌/◌, ◌%◌, ◌^◌, ◌≤◌, ◌<◌, ◌≡◌, ap, ◌∙◌, arith}
use Prim.Native.Nat.{bit_and, bit_or}
use htram.Pack.{pack, pack_index, local_of, pe_of}
use htram.Pack.Digits.{shifted, or_shifted, and_ones}

pack_lem : (l p : ℕ) → p < 65536 → pack l p ≡ l * 65536 + p
unfolding pack
pack_lem l p lt =
    let bare : p ≡ shifted 16 0 + p = omega arith in
    let own : bit_and p 0xffff ≡ p =
      ap (λ q. bit_and q 0xffff) bare ∙ and_ones 16 0 p (omega arith) in
    let high : l * 2 ^ 16 ≡ shifted 16 l = omega arith in
    ap (bit_or (l * 2 ^ 16)) own
    ∙ ap (λ a. bit_or a p) high
    ∙ or_shifted 16 l p (omega arith)
    ∙ omega arith

pub local_of-pack : (l p : ℕ) → p < 65536 → local_of (pack l p) ≡ l
unfolding local_of
local_of-pack l p lt = omega (arith, pack_lem l p lt)

pub pe_of-pack : (l p : ℕ) → p < 65536 → pe_of (pack l p) ≡ p
unfolding pe_of
pe_of-pack l p lt =
    let high : l * 65536 + p ≡ shifted 16 l + p = omega arith in
    ap (λ w. bit_and w 0xffff) (pack_lem l p lt ∙ high) ∙ and_ones 16 l p (omega arith)

-- On up to 65536 PEs, the local index and the PE that are taken out of an index's word give the
-- index back, and the PE is one of the PEs.
pub pack_index_lem :
    (num_pes indx : ℕ)
    → 0 < num_pes
    → num_pes ≤ 65536
    → (local_of (pack_index num_pes indx) * num_pes + pe_of (pack_index num_pes indx) ≡ indx)
      × (pe_of (pack_index num_pes indx) < num_pes)
unfolding pack_index
pack_index_lem num_pes indx some few =
    let small : indx % num_pes < num_pes = grind arith in
    let whole : indx / num_pes * num_pes + indx % num_pes ≡ indx = grind arith in
    let p = pe_of-pack (indx / num_pes) (indx % num_pes) (omega (arith, small)) in
    let l = local_of-pack (indx / num_pes) (indx % num_pes) (omega (arith, small)) in
    (
      ap (λ n. n * num_pes + pe_of (pack (indx / num_pes) (indx % num_pes))) l
          ∙ ap (λ n. indx / num_pes * num_pes + n) p
          ∙ whole,
      omega (arith, p, small),
    )
