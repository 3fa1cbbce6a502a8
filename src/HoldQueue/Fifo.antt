-- ===== src/HoldQueue/Fifo.antt =====
-- HoldQueue refines a first-in first-out list: `to_list` commutes with every operation.
use htram.Prelude.{
  ℕ, zero, suc, ◌+◌, ◌*◌, ◌≤◌, ◌≡◌, refl, sym, ap, ◌∙◌, List, [], ◌∷◌, ◌++◌, none, some, true, ◌↔◌,
  ◌&&◌, length, get_elem?, drop, length-append, length-drop, drop-append_lem, drop_beyond, arith,
  inl, inr, Bool-cases, ◌==◌, leb,
}
use htram.HoldQueue.{HoldQueue, empty_queue, push, front, pop, is_empty, size, to_list}

-- The representation invariant: the consumed prefix lies inside the vector.
abbrev pub IsValid {ℓ} : {A : Type ℓ} → HoldQueue A → Type 0
IsValid q = q.head ≤ length q.items

pub empty_queue-IsValid {ℓ} : (A : Type ℓ) → IsValid (empty_queue {A = A})
unfolding empty_queue
empty_queue-IsValid A = omega arith

pub to_list-empty_queue {ℓ} : (A : Type ℓ) → to_list (empty_queue {A = A}) ≡ []
unfolding empty_queue to_list
to_list-empty_queue A = refl

module _ {ℓ} {A : Type ℓ} where
  pub push-IsValid : (q : HoldQueue A) (x : A) → IsValid q → IsValid (push q x)
  unfolding push
  push-IsValid q x v = omega (arith, length-append q.items (x ∷ []))

  -- A pushed item goes to the end.
  pub to_list-push :
      (q : HoldQueue A) (x : A) → IsValid q → to_list (push q x) ≡ to_list q ++ x ∷ []
  unfolding push to_list
  to_list-push q x v = drop-append_lem q.head q.items (x ∷ []) v

  pub size-length : (q : HoldQueue A) → size q ≡ length (to_list q)
  unfolding size to_list
  size-length q = sym (length-drop q.head q.items)

  get_elem?-drop :
      (n : ℕ) (xs : List A) (y : A) (ys : List A) → drop n xs ≡ y ∷ ys → get_elem? xs n ≡ some y
  get_elem?-drop zero [] y ys e = cc
  get_elem?-drop (suc n) [] y ys e = cc
  get_elem?-drop zero (x ∷ xs) y ys e = cc
  get_elem?-drop (suc n) (x ∷ xs) y ys e = get_elem?-drop n xs y ys e

  drop-suc : (n : ℕ) (xs : List A) (y : A) (ys : List A) → drop n xs ≡ y ∷ ys → drop (suc n) xs ≡ ys
  drop-suc zero [] y ys e = cc
  drop-suc (suc n) [] y ys e = cc
  drop-suc zero (x ∷ xs) y ys e = cc
  drop-suc (suc n) (x ∷ xs) y ys e = drop-suc n xs y ys e

  drop-add-one : (n : ℕ) (xs : List A) → drop (n + 1) xs ≡ drop (suc n) xs
  drop-add-one n xs = ap (λ k. drop k xs) {y = suc n} (omega arith)

  get_elem?-none : (n : ℕ) (xs : List A) → drop n xs ≡ [] → get_elem? xs n ≡ none
  get_elem?-none zero [] e = refl
  get_elem?-none (suc n) [] e = refl
  get_elem?-none zero (x ∷ xs) e = cc
  get_elem?-none (suc n) (x ∷ xs) e = get_elem?-none n xs e

  -- The front is the head of the list, and `pop` removes it; nothing else moves.
  pub front-to_list :
      (q : HoldQueue A) (y : A) (ys : List A) → to_list q ≡ y ∷ ys → front q ≡ some y
  unfolding to_list front
  front-to_list q y ys e = get_elem?-drop q.head q.items y ys e

  pub pop_lem :
      (q : HoldQueue A) (y : A) (ys : List A)
      → to_list q ≡ y ∷ ys
      → IsValid (pop q) × (to_list (pop q) ≡ ys)
  unfolding to_list pop
  pop_lem q y ys e =
      let within : q.head + 1 ≤ length q.items =
        omega (arith, ap length e, length-drop q.head q.items) in
      let rest : drop (q.head + 1) q.items ≡ ys =
        drop-add-one q.head q.items ∙ drop-suc q.head q.items y ys e in
      elim (Bool-cases (q.head + 1 == length q.items)) [
        | inl whole ↦
            rw whole (omega arith, sym (drop_beyond (q.head + 1) q.items (ground arith)) ∙ rest)
        | inr more ↦
            elim (Bool-cases (leb 4096 (q.head + 1) && leb (length q.items) (2 * (q.head + 1)))) [
              | inl long ↦ rw (more, long) (omega arith, rest)
              | inr short ↦ rw (more, short) (within, rest)
            ]
      ]

  -- `empty` says whether anything waits.
  pub is_empty_iff : (q : HoldQueue A) → IsValid q → (is_empty q ≡ true) ↔ (to_list q ≡ [])
  unfolding is_empty to_list
  is_empty_iff q v = (
    λ e. drop_beyond q.head q.items (ground arith),
    λ e. ground (arith, ap length e, length-drop q.head q.items),
  )

  pub front-none : (q : HoldQueue A) → to_list q ≡ [] → front q ≡ none
  unfolding to_list front
  front-none q e = get_elem?-none q.head q.items e
