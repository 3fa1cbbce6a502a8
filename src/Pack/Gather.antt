-- ===== src/Pack/Gather.antt =====
-- smp_ig.C, class Updater: each PE asks the owners of its indices for what their tables have there,
-- and checks the answers.
use htram.Prelude.{
  ℕ, zero, suc, ◌+◌, ◌-◌, ◌^◌, sub_ℕ, ◌*◌, ◌/◌, ◌%◌, ◌<◌, ◌≤◌, ◌≡◌, refl, sym, ap, ◌∙◌, subst, ℤ,
  pos, negsuc, pos_part, eqb_ℤ, List, [], ◌∷◌, Bool, true, false, ltb, not, ◌==◌, All, ◌⊎◌, inl,
  inr, Bool-cases, Option, none, some, if◌then◌else◌, length, length-set, get_or, set,
  get_or-set_self, get_or-set_ne, arith, ℕ_discrete,
}
use htram.Pack.{pack_index, local_of, pe_of}
use htram.Pack.Index.{local_of-pack, pe_of-pack}

-- packet1
pub record Packet : Type 0 where
  pub val : ℤ
  pub idx : ℕ
  pub pe : ℕ

pub record Updater : Type 0 where
  pub this_index : ℕ
  pub table : List ℤ
  pub index : List ℕ
  pub pckindx : List ℕ
  pub tgt : List ℤ
  pub count : List ℕ

-- `(-1)*(x + 1)`, and `(-1*x)-1`, of an int: all its bits turned, at the ends of the range too.
unfoldable pub flip : ℤ → ℤ
flip (pos n) = negsuc n
flip (negsuc n) = pos n

-- A natural number that is stored in an int: its low 32 bits, read with a sign.
unfoldable pub low_bits : ℕ → ℤ
low_bits n = let m = n % 2 ^ 32 in if ltb m (2 ^ 31) then pos m else negsuc (2 ^ 32 - 1 - m)

-- A whole number that is stored in an int. The bits of -n - 1 are those of n, turned.
unfoldable pub to_int : ℤ → ℤ
unfolding flip low_bits
to_int (pos n) = low_bits n
to_int (negsuc n) = flip (low_bits n)

-- `int index_k = thisIndex*ltab_siz + i; table[i] = (-1)*(index_k + 1)`, for `n` places from `i` on.
unfoldable pub init_table : ℕ → ℕ → ℕ → ℕ → List ℤ
unfolding flip to_int
init_table this_index ltab_siz zero i = []
init_table this_index ltab_siz (suc n) i =
    let rest = init_table this_index ltab_siz n (suc i) in
    flip (to_int (pos (this_index * ltab_siz + i))) ∷ rest

-- The packet of request `i`, and the PE that it is sent to.
unfoldable pub request : ℕ → Updater → Packet × ℕ
unfolding local_of pe_of
request i u =
    let word = get_or u.pckindx i 0 in
    (record { val = pos (local_of word); idx = i; pe = u.this_index }, pe_of word)

-- requestData: the answer, and the PE that it is sent to.
unfoldable pub request_data : Packet → Updater → Packet × ℕ
request_data p u =
    (record { val = get_or u.table (pos_part p.val) (pos 0); idx = p.idx; pe = p.pe }, p.pe)

-- responseData: the request is sent again until it was answered three times.
unfoldable pub response_data : Packet → Updater → Updater × Option (Packet × ℕ)
unfolding request
response_data p u =
    let n = get_or u.count p.idx 0 + 1 in
    (
      record u { tgt = set u.tgt p.idx p.val; count = set u.count p.idx n },
      if ltb n 3 then some (request p.idx u) else none,
    )

-- `l_indx = index_k/CkNumPes(); _pe = index_k%CkNumPes(); index_i = _pe*ltab_siz + l_indx`, all int:
-- C's quotient and remainder have the sign of index_k.
unfoldable pub place_of : ℕ → ℕ → ℤ → ℤ
unfolding to_int
place_of num_pes ltab_siz (pos k) = to_int (pos (k % num_pes * ltab_siz + k / num_pes))
place_of num_pes ltab_siz (negsuc k) =
    to_int (sub_ℕ 0 (suc k % num_pes * ltab_siz + suc k / num_pes))

-- `tgt[i] != (-1*index_i)-1` in checkErrors, for `index_k = index[i]`, which is cut to an int.
unfoldable pub is_error : ℕ → ℕ → ℕ → ℤ → Bool
unfolding flip to_int place_of
is_error num_pes ltab_siz index found =
    not (eqb_ℤ found (flip (place_of num_pes ltab_siz (to_int (pos index)))))

-- The loop of checkErrors, from `i` on: the errors, and the PE with `tgt[i] = 0`.
unfoldable pub check_errors : ℕ → ℕ → ℕ → ℕ → Updater → ℕ × Updater
unfolding is_error
check_errors num_pes ltab_siz zero i u = (0, u)
check_errors num_pes ltab_siz (suc n) i u =
    let (errors, u') =
      check_errors num_pes ltab_siz n (suc i) (record u { tgt = set u.tgt i (pos 0) }) in
    (
      if is_error num_pes ltab_siz (get_or u.index i 0) (get_or u.tgt i (pos 0))
          then suc errors
          else errors,
      u',
    )

-- Request `i` sent to its owner, and the answer back.
unfoldable pub exchange : (ℕ → Updater) → ℕ → Updater → Updater
unfolding request request_data response_data
exchange owners i u =
    let (p, pe) = request i u in (response_data (request_data p (owners pe)).0 u).0

-- generateUpdates and the answers, in the order in which the answers come in. A request may be
-- answered more than once.
unfoldable pub gather : (ℕ → Updater) → List ℕ → Updater → Updater
unfolding exchange
gather owners [] u = u
gather owners (i ∷ order) u = gather owners order (exchange owners i u)

abbrev pub is_in : ℕ → List ℕ → Bool
is_in j [] = false
is_in j (i ∷ order) = if i == j then true else is_in j order

get_or-init_table :
    (this_index ltab_siz n i j : ℕ)
    → j < n
    → get_or (init_table this_index ltab_siz n i) j (pos 0)
      ≡ flip (to_int (pos (this_index * ltab_siz + (i + j))))
unfolding init_table
get_or-init_table this_index ltab_siz zero i j lt = absurd (omega arith)
get_or-init_table this_index ltab_siz (suc n) i zero lt =
    let same : i ≡ i + 0 = omega arith in
    ap (λ k. flip (to_int (pos (this_index * ltab_siz + k)))) same
get_or-init_table this_index ltab_siz (suc n) i (suc j) lt =
    let same : suc i + j ≡ i + suc j = omega arith in
    get_or-init_table this_index ltab_siz n (suc i) j (omega arith)
    ∙ ap (λ k. flip (to_int (pos (this_index * ltab_siz + k)))) same

-- Request `i` has been answered as checkErrors wants it.
abbrev pub IsAnswered : ℕ → ℕ → ℕ → Updater → Type 0
IsAnswered num_pes ltab_siz i u =
    get_or u.tgt i (pos 0) ≡ flip (place_of num_pes ltab_siz (to_int (pos (get_or u.index i 0))))

-- A request that the PE can make: an index of the table, packed as the constructor packs it.
pub record IsAsked (num_pes ltab_siz i : ℕ) (u : Updater) : Type 0 where
  pub inside : get_or u.index i 0 < num_pes * ltab_siz
  pub packed : get_or u.pckindx i 0 ≡ pack_index num_pes (get_or u.index i 0)
  pub there : i < length u.tgt

-- A PE as its constructor leaves it.
pub record IsOwner (ltab_siz pe : ℕ) (u : Updater) : Type 0 where
  pub own : u.this_index ≡ pe
  pub filled : u.table ≡ init_table pe ltab_siz ltab_siz 0

-- The PE `u` after the request `i` went to its owner and the answer came back.
record Gathered (num_pes ltab_siz i : ℕ) (u u' : Updater) : Type 0 where
  answered : IsAnswered num_pes ltab_siz i u'
  others : (j : ℕ) → IsAnswered num_pes ltab_siz j u → IsAnswered num_pes ltab_siz j u'
  asked : (j : ℕ) → IsAsked num_pes ltab_siz j u → IsAsked num_pes ltab_siz j u'

-- An int holds what it is given, in its range.
to_int-small : (n : ℕ) → n < 2 ^ 31 → to_int (pos n) ≡ pos n
unfolding to_int low_bits
to_int-small n lt =
    let same : n % 2 ^ 32 ≡ n = omega arith in
    let t : ltb n (2 ^ 31) ≡ true = ground (arith, lt) in rw (same, t)

place_of-small :
    (num_pes ltab_siz index : ℕ)
    → index < 2 ^ 31
    → place_of num_pes ltab_siz (to_int (pos index))
      ≡ to_int (pos (index % num_pes * ltab_siz + index / num_pes))
unfolding place_of
place_of-small num_pes ltab_siz index lt = ap (place_of num_pes ltab_siz) (to_int-small index lt)

exchange-Gathered :
    (num_pes ltab_siz i : ℕ) (u : Updater) (owners : ℕ → Updater)
    → num_pes ≤ 65536
    → num_pes * ltab_siz ≤ 2 ^ 31
    → IsAsked num_pes ltab_siz i u
    → ((pe : ℕ) → pe < num_pes → IsOwner ltab_siz pe (owners pe))
    → Gathered num_pes ltab_siz i u (exchange owners i u)
unfolding exchange request request_data response_data pack_index
exchange-Gathered num_pes ltab_siz i u owners few range asks owns =
    let packed = asks.packed in
    let inside = asks.inside in
    let indx = get_or u.index i 0 in
    let small : indx % num_pes < num_pes = grind arith in
    let near : indx / num_pes < ltab_siz = grind arith in
    let l : local_of (get_or u.pckindx i 0) ≡ indx / num_pes =
      ap local_of packed
      ∙ local_of-pack (indx / num_pes) (indx % num_pes) (omega (arith, small, few)) in
    let p : pe_of (get_or u.pckindx i 0) ≡ indx % num_pes =
      ap pe_of packed ∙ pe_of-pack (indx / num_pes) (indx % num_pes) (omega (arith, small, few)) in
    let owner = owners (pe_of (get_or u.pckindx i 0)) in
    let it : IsOwner ltab_siz (pe_of (get_or u.pckindx i 0)) owner =
      owns (pe_of (get_or u.pckindx i 0)) (omega (arith, p, small)) in
    let start : 0 + indx / num_pes ≡ indx / num_pes = omega arith in
    let value : get_or owner.table (local_of (get_or u.pckindx i 0)) (pos 0)
        ≡ flip (place_of num_pes ltab_siz (to_int (pos indx))) =
      ap (λ t. get_or t (local_of (get_or u.pckindx i 0)) (pos 0)) it.filled
      ∙ ap (λ k. get_or (init_table (pe_of (get_or u.pckindx i 0)) ltab_siz ltab_siz 0) k (pos 0)) l
      ∙ get_or-init_table (pe_of (get_or u.pckindx i 0)) ltab_siz ltab_siz 0 (indx / num_pes) near
      ∙ ap (λ k. flip (to_int (pos (pe_of (get_or u.pckindx i 0) * ltab_siz + k)))) start
      ∙ ap (λ k. flip (to_int (pos (k * ltab_siz + indx / num_pes)))) p
      ∙ ap flip (sym (place_of-small num_pes ltab_siz indx (omega (arith, inside, range)))) in
    let now =
      get_or-set_self u.tgt i (get_or owner.table (local_of (get_or u.pckindx i 0)) (pos 0)) (pos 0)
        asks.there
      ∙ value in
    record {
      answered = now;
      others = λ j old. elim (ℕ_discrete j i) [
        | yes e ↦
            subst
              (λ k. IsAnswered num_pes ltab_siz k (record u {
                tgt = set u.tgt i (get_or owner.table (local_of (get_or u.pckindx i 0)) (pos 0));
              }))
              (sym e) now
        | no ne ↦ get_or-set_ne u.tgt i j _ (pos 0) (λ d. ne (sym d)) ∙ old
      ];
      asked = λ j a. record {
        inside = a.inside;
        packed = a.packed;
        there = omega (
          arith,
          a.there,
          length-set u.tgt i (get_or owner.table (local_of (get_or u.pckindx i 0)) (pos 0)),
        );
      };
    }

eqb_ℤ_self : (x : ℤ) → eqb_ℤ x x ≡ true
eqb_ℤ_self (pos k) = ground arith
eqb_ℤ_self (negsuc k) = ground arith

-- A PE with all its requests answered finds no error.
check_errors-none :
    (num_pes ltab_siz n i : ℕ) (u : Updater)
    → ((j : ℕ) → i ≤ j → j < i + n → IsAnswered num_pes ltab_siz j u)
    → (check_errors num_pes ltab_siz n i u).0 ≡ 0
unfolding check_errors is_error
check_errors-none num_pes ltab_siz zero i u all = refl
check_errors-none num_pes ltab_siz (suc n) i u all =
    let rest =
      check_errors-none num_pes ltab_siz n (suc i) (record u { tgt = set u.tgt i (pos 0) })
        (λ j le lt.
          get_or-set_ne u.tgt i j (pos 0) (pos 0) (λ d. absurd (omega (arith, d, le)))
          ∙ all j (omega arith) (omega arith)) in
    rw
      (
        all i (omega arith) (omega arith),
        eqb_ℤ_self (flip (place_of num_pes ltab_siz (to_int (pos (get_or u.index i 0))))),
      )
      rest

gather-IsAnswered :
    (num_pes ltab_siz n : ℕ) (order : List ℕ) (u : Updater) (owners : ℕ → Updater)
    → num_pes ≤ 65536
    → num_pes * ltab_siz ≤ 2 ^ 31
    → ((pe : ℕ) → pe < num_pes → IsOwner ltab_siz pe (owners pe))
    → ((j : ℕ) → j < n → IsAsked num_pes ltab_siz j u)
    → All (λ i. i < n) order
    → (j : ℕ) → (is_in j order ≡ true) ⊎ IsAnswered num_pes ltab_siz j u
    → IsAnswered num_pes ltab_siz j (gather owners order u)
unfolding gather
gather-IsAnswered num_pes ltab_siz n [] u owners few range owns asks valid j (inl is) = absurd (cc)
gather-IsAnswered num_pes ltab_siz n [] u owners few range owns asks valid j (inr done) = done
gather-IsAnswered num_pes ltab_siz n (i ∷ order) u owners few range owns asks valid j where_ok =
    let g = exchange-Gathered num_pes ltab_siz i u owners few range (asks i valid.0) owns in
    gather-IsAnswered num_pes ltab_siz n order (exchange owners i u) owners few range owns
      (λ k le. g.asked k (asks k le)) valid.1 j
      (elim (Bool-cases (i == j)) [
        | inl here ↦
            let e : i ≡ j = ground arith in
            inr (subst (λ m. IsAnswered num_pes ltab_siz m (exchange owners i u)) e g.answered)
        | inr other ↦ elim where_ok [
          | inl later ↦ inl (cc (later, other))
          | inr done ↦ inr (g.others j done)
        ]
      ])

-- On up to 65536 PEs, with tables of up to 2^31 places in all: if each request that an Updater of
-- smp_ig makes, for an index of the table, was answered by the PE it went to at least once, in any
-- order, then checkErrors, which computes the place of an index in int, finds no error. The tables
-- of the PEs are as the constructor fills them, in int too.
pub check_errors-gather :
    (num_pes ltab_siz n : ℕ) (order : List ℕ) (u : Updater) (owners : ℕ → Updater)
    → num_pes ≤ 65536
    → num_pes * ltab_siz ≤ 2 ^ 31
    → ((pe : ℕ) → pe < num_pes → IsOwner ltab_siz pe (owners pe))
    → ((j : ℕ) → j < n → IsAsked num_pes ltab_siz j u)
    → All (λ i. i < n) order
    → ((j : ℕ) → j < n → is_in j order ≡ true)
    → (check_errors num_pes ltab_siz n 0 (gather owners order u)).0 ≡ 0
check_errors-gather num_pes ltab_siz n order u owners few range owns asks valid all =
    check_errors-none num_pes ltab_siz n 0 (gather owners order u) (λ j le lt.
      gather-IsAnswered num_pes ltab_siz n order u owners few range owns asks valid j
        (inl (all j (omega arith))))
