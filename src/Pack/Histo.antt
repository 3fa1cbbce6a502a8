-- ===== src/Pack/Histo.antt =====
-- histo.C, class Updater: a PE counts the keys that the library delivers to it, takes the same keys
-- off again in the check, and looks for a count that is not zero.
use mathlib.Core.Option
use htram.Prelude.{
  ℕ, zero, suc, ◌+◌, ◌-◌, ◌<◌, ◌≡◌, ◌≢◌, refl, sym, ap, ◌∙◌, subst, ℤ, pos, negsuc, eqb_ℤ, sub_ℕ,
  sub_ℕ-same, sub_ℕ_up, sub_ℕ_down, ◌+ℤ◌, ◌-ℤ◌, List, [], ◌∷◌, ◌==◌, not, inl, inr, Bool-cases,
  if◌then◌else◌, length, length-set, get_or, set, get_or-set_self, get_or-set_ne, replicate,
  length-replicate, sum_by, arith, true, false, ltb, leb, Option, none, some, All, ℕ_discrete,
}

-- What comes in: `insertData` through the library, or `insertData2` from the check.
pub data Delivery : Type 0 where
  insert_data insert_data2 : ℕ → Delivery

-- `counts[key]++` and `counts[key]--`; `none` is a key past the end of counts.
unfoldable pub count_key : Delivery → List ℤ → Option (List ℤ)
count_key (insert_data key) counts =
    if ltb key (length counts)
    then some (set counts key (get_or counts key (pos 0) +ℤ pos 1))
    else none
count_key (insert_data2 key) counts =
    if ltb key (length counts)
    then some (set counts key (get_or counts key (pos 0) -ℤ pos 1))
    else none

unfoldable pub count_keys : List Delivery → List ℤ → Option (List ℤ)
unfolding count_key
count_keys [] counts = some counts
count_keys (d ∷ ds) counts = elim (count_key d counts) [
  | none ↦ none
  | some counts' ↦ count_keys ds counts'
]

-- The loop of checkErrors.
unfoldable pub count_errors : List ℤ → ℕ
count_errors [] = 0
count_errors (c ∷ counts) =
    let rest = count_errors counts in if not (eqb_ℤ c (pos 0)) then suc rest else rest

-- How often a key was counted, and taken off.
abbrev pub ups : ℕ → Delivery → ℕ
ups k (insert_data key) = if key == k then 1 else 0
ups k (insert_data2 key) = 0

abbrev pub downs : ℕ → Delivery → ℕ
downs k (insert_data key) = 0
downs k (insert_data2 key) = if key == k then 1 else 0

-- The PE has the key.
abbrev pub IsOwn : ℕ → Delivery → Type 0
IsOwn n (insert_data key) = key < n
IsOwn n (insert_data2 key) = key < n

-- The counts after deliveries of own keys.
counted : List Delivery → List ℤ → List ℤ
counted [] counts = counts
counted (insert_data key ∷ ds) counts =
    counted ds (set counts key (get_or counts key (pos 0) +ℤ pos 1))
counted (insert_data2 key ∷ ds) counts =
    counted ds (set counts key (get_or counts key (pos 0) -ℤ pos 1))

count_keys_lem :
    (ds : List Delivery) (counts : List ℤ)
    → All (IsOwn (length counts)) ds
    → count_keys ds counts ≡ some (counted ds counts)
unfolding count_keys count_key counted
count_keys_lem [] counts own = refl
count_keys_lem (insert_data key ∷ ds) counts (lt, own) =
    let t : ltb key (length counts) ≡ true = ground (arith, lt) in
    let long = length-set counts key (get_or counts key (pos 0) +ℤ pos 1) in
    rw (t, count_keys) (count_keys_lem ds _ (subst (λ n. All (IsOwn n) ds) (sym long) own))
count_keys_lem (insert_data2 key ∷ ds) counts (lt, own) =
    let t : ltb key (length counts) ≡ true = ground (arith, lt) in
    let long = length-set counts key (get_or counts key (pos 0) -ℤ pos 1) in
    rw (t, count_keys) (count_keys_lem ds _ (subst (λ n. All (IsOwn n) ds) (sym long) own))

-- A count is the difference of what came in of the two kinds.
counted-sub_ℕ :
    (ds : List Delivery) (counts : List ℤ) (k a b : ℕ)
    → k < length counts
    → get_or counts k (pos 0) ≡ sub_ℕ a b
    → get_or (counted ds counts) k (pos 0) ≡ sub_ℕ (sum_by (ups k) ds + a) (sum_by (downs k) ds + b)
unfolding counted
counted-sub_ℕ [] counts k a b lt e = e ∙ sub_ℕ-same a b (0 + a) (0 + b) (omega arith)
counted-sub_ℕ (insert_data key ∷ ds) counts k a b lt e =
    let long = length-set counts key (get_or counts key (pos 0) +ℤ pos 1) in
    elim (Bool-cases (key == k)) [
      | inl t ↦
          let same : key ≡ k = ground arith in
          let now : get_or (set counts key (get_or counts key (pos 0) +ℤ pos 1)) k (pos 0)
              ≡ sub_ℕ (1 + a) b =
            subst
              (λ i.
                get_or (set counts i (get_or counts i (pos 0) +ℤ pos 1)) k (pos 0)
                ≡ sub_ℕ (1 + a) b)
              (sym same)
              (get_or-set_self counts k (get_or counts k (pos 0) +ℤ pos 1) (pos 0) lt
                ∙ ap (λ n. n +ℤ pos 1) e
                ∙ sub_ℕ_up a b) in
          rw t (
            counted-sub_ℕ ds (set counts key (get_or counts key (pos 0) +ℤ pos 1)) k (1 + a) b
              (omega (arith, lt, long)) now
            ∙ sub_ℕ-same (sum_by (ups k) ds + (1 + a)) (sum_by (downs k) ds + b)
                (1 + sum_by (ups k) ds + a) (0 + sum_by (downs k) ds + b) (omega arith))
      | inr f ↦
          let ne : key ≢ k = λ d. ground arith in
          rw f (
            counted-sub_ℕ ds (set counts key (get_or counts key (pos 0) +ℤ pos 1)) k a b
              (omega (arith, lt, long))
              (get_or-set_ne counts key k (get_or counts key (pos 0) +ℤ pos 1) (pos 0) ne ∙ e)
            ∙ sub_ℕ-same (sum_by (ups k) ds + a) (sum_by (downs k) ds + b)
                (0 + sum_by (ups k) ds + a) (0 + sum_by (downs k) ds + b) (omega arith))
    ]
counted-sub_ℕ (insert_data2 key ∷ ds) counts k a b lt e =
    let long = length-set counts key (get_or counts key (pos 0) -ℤ pos 1) in
    elim (Bool-cases (key == k)) [
      | inl t ↦
          let same : key ≡ k = ground arith in
          let now : get_or (set counts key (get_or counts key (pos 0) -ℤ pos 1)) k (pos 0)
              ≡ sub_ℕ a (1 + b) =
            subst
              (λ i.
                get_or (set counts i (get_or counts i (pos 0) -ℤ pos 1)) k (pos 0)
                ≡ sub_ℕ a (1 + b))
              (sym same)
              (get_or-set_self counts k (get_or counts k (pos 0) -ℤ pos 1) (pos 0) lt
                ∙ ap (λ n. n -ℤ pos 1) e
                ∙ sub_ℕ_down a b) in
          rw t (
            counted-sub_ℕ ds (set counts key (get_or counts key (pos 0) -ℤ pos 1)) k a (1 + b)
              (omega (arith, lt, long)) now
            ∙ sub_ℕ-same (sum_by (ups k) ds + a) (sum_by (downs k) ds + (1 + b))
                (0 + sum_by (ups k) ds + a) (1 + sum_by (downs k) ds + b) (omega arith))
      | inr f ↦
          let ne : key ≢ k = λ d. ground arith in
          rw f (
            counted-sub_ℕ ds (set counts key (get_or counts key (pos 0) -ℤ pos 1)) k a b
              (omega (arith, lt, long))
              (get_or-set_ne counts key k (get_or counts key (pos 0) -ℤ pos 1) (pos 0) ne ∙ e)
            ∙ sub_ℕ-same (sum_by (ups k) ds + a) (sum_by (downs k) ds + b)
                (0 + sum_by (ups k) ds + a) (0 + sum_by (downs k) ds + b) (omega arith))
    ]

length-counted : (ds : List Delivery) (counts : List ℤ) → length (counted ds counts) ≡ length counts
unfolding counted
length-counted [] counts = refl
length-counted (insert_data key ∷ ds) counts = length-counted ds _ ∙ length-set counts key _
length-counted (insert_data2 key ∷ ds) counts = length-counted ds _ ∙ length-set counts key _

-- The keys, `n` from `k` on, that were not counted as often as they were taken off.
abbrev pub unbalanced : ℕ → ℕ → List Delivery → ℕ
unbalanced zero k ds = 0
unbalanced (suc n) k ds =
    let rest = unbalanced n (suc k) ds in
    if sum_by (ups k) ds == sum_by (downs k) ds then rest else suc rest

eqb_ℤ-pos : (m : ℕ) → m ≢ 0 → eqb_ℤ (pos m) (pos 0) ≡ false
eqb_ℤ-pos m ne = ground (arith, ne)

eqb_ℤ-negsuc : (m : ℕ) → eqb_ℤ (negsuc m) (pos 0) ≡ false
eqb_ℤ-negsuc m = ground arith

eqb_ℤ-sub_ℕ : (a b : ℕ) → eqb_ℤ (sub_ℕ a b) (pos 0) ≡ (a == b)
eqb_ℤ-sub_ℕ a b = elim (ℕ_discrete a b) [
  | yes e ↦
      let t : (a == b) ≡ true = ground (arith, e) in rw (t, sub_ℕ-same a b 0 0 (omega (arith, e)))
  | no ne ↦
      let f : (a == b) ≡ false = ground (arith, ne) in
      elim (Bool-cases (leb b a)) [
        | inl le ↦ rw (f, le) (eqb_ℤ-pos (a - b) (λ d. ne (ground (arith, le, d))))
        | inr lt ↦ rw (f, lt) (eqb_ℤ-negsuc (b - a - 1))
      ]
]

count_errors-unbalanced :
    (counts : List ℤ) (k : ℕ) (ds : List Delivery)
    → ((j : ℕ)
        → j < length counts
        → get_or counts j (pos 0) ≡ sub_ℕ (sum_by (ups (k + j)) ds) (sum_by (downs (k + j)) ds))
    → count_errors counts ≡ unbalanced (length counts) k ds
unfolding count_errors
count_errors-unbalanced [] k ds are = refl
count_errors-unbalanced (c ∷ counts) k ds are =
    let here : k + 0 ≡ k = omega arith in
    let first : c ≡ sub_ℕ (sum_by (ups k) ds) (sum_by (downs k) ds) =
      are 0 (omega arith) ∙ ap (λ i. sub_ℕ (sum_by (ups i) ds) (sum_by (downs i) ds)) here in
    let test : eqb_ℤ c (pos 0) ≡ (sum_by (ups k) ds == sum_by (downs k) ds) =
      ap (λ i. eqb_ℤ i (pos 0)) first ∙ eqb_ℤ-sub_ℕ (sum_by (ups k) ds) (sum_by (downs k) ds) in
    let rest = count_errors-unbalanced counts (suc k) ds (λ j lt.
      let same : k + suc j ≡ suc k + j = omega arith in
      are (suc j) (omega arith) ∙ ap (λ i. sub_ℕ (sum_by (ups i) ds) (sum_by (downs i) ds)) same) in
    elim (Bool-cases (sum_by (ups k) ds == sum_by (downs k) ds)) [
      | inl even ↦ rw (test ∙ even, even) rest
      | inr odd ↦ rw (test ∙ odd, odd) (ap suc rest)
    ]

get_or-zeros : (n k : ℕ) → get_or (replicate n (pos 0)) k (pos 0) ≡ pos 0
get_or-zeros zero k = refl
get_or-zeros (suc n) zero = refl
get_or-zeros (suc n) (suc k) = get_or-zeros n k

-- For any list of calls of insertData and insertData2 with keys of the PE, from counts of zero,
-- checkErrors of histo finds as many errors as there are keys for which the two were not called
-- equally often: it misses none and reports none that is balanced.
pub count_errors-unbalanced_keys :
    (n : ℕ) (ds : List Delivery)
    → All (IsOwn n) ds
    → Option.map count_errors (count_keys ds (replicate n (pos 0))) ≡ some (unbalanced n 0 ds)
count_errors-unbalanced_keys n ds own =
    let start = replicate n (pos 0) in
    let zeros = length-replicate n (pos 0) in
    let long = length-counted ds start ∙ zeros in
    ap (Option.map count_errors)
      (count_keys_lem ds start (subst (λ m. All (IsOwn m) ds) (sym zeros) own))
    ∙ ap some (
        count_errors-unbalanced (counted ds start) 0 ds (λ j lt.
          let here : j ≡ 0 + j = omega arith in
          counted-sub_ℕ ds start j 0 0 (omega (arith, lt, long, zeros)) (get_or-zeros n j)
          ∙ sub_ℕ-same (sum_by (ups j) ds + 0) (sum_by (downs j) ds + 0) (sum_by (ups j) ds)
              (sum_by (downs j) ds) (omega arith)
          ∙ ap (λ i. sub_ℕ (sum_by (ups i) ds) (sum_by (downs i) ds)) here)
        ∙ ap (λ m. unbalanced m 0 ds) long)
