-- ===== src/Combine/Refs.antt =====
-- The references in the buckets' lists: one that is stamped as its entry is finds it in the table,
-- under its bucket, and each entry of the table has one.
use htram.Prelude.{
  ℕ, suc, ◌≤◌, ◌<◌, ◌≡◌, ◌≢◌, sym, ap, ◌∙◌, subst, List, [], ◌∷◌, ◌++◌, ◌==◌, ◌&&◌, length, get_or,
  set, if◌then◌else◌, get_or-set_self, get_or-set_ne, sum_by, sum_by-append, All, All-append, ◌⊎◌,
  inl, inr, arith, ℕ_discrete,
}
use htram.Combine.{HoldOps, Entry, Ref, entry_at}
use htram.Combine.Cells.{Cell}
use htram.Combine.Weigh.{times_in}

-- How many references in a list name an entry at a stamp.
abbrev pub names_it : ℕ → ℕ → Ref → ℕ
names_it e stamp r = if r.entry == e && (r.stamp == stamp) then 1 else 0

abbrev pub refs_to : ℕ → ℕ → List Ref → ℕ
refs_to e stamp list = sum_by (names_it e stamp) list

-- The lists, with `list` for bucket `b`.
abbrev pub row_with : ℕ → List Ref → List (List Ref) → ℕ → List Ref
row_with b list lists a = if a == b then list else get_or lists a []

module _ {A : Type 0} (ops : HoldOps A) where
  pub record IsRef (pool : List (Entry A)) (cells : List Cell) (b : ℕ) (r : Ref) : Type 0 where
    pub known : r.entry < length pool
    pub earlier : r.stamp ≤ (entry_at ops pool r.entry).stamp
    pub current :
        ((entry_at ops pool r.entry).stamp ≢ r.stamp)
        ⊎ ((0 < times_in (suc r.entry) cells) × ((entry_at ops pool r.entry).bucket ≡ b))

  pub record IsReferred (rows : ℕ → List Ref) (pool : List (Entry A)) (cells : List Cell)
      : Type 0 where
    pub sound : (b : ℕ) → All (IsRef pool cells b) (rows b)
    pub complete :
        (e : ℕ)
        → 0 < times_in (suc e) cells
        → 0 < refs_to e (entry_at ops pool e).stamp (rows (entry_at ops pool e).bucket)

  pub IsReferred-congr :
      (rows other : ℕ → List Ref) (pool : List (Entry A)) (cells : List Cell)
      → ((b : ℕ) → other b ≡ rows b)
      → IsReferred rows pool cells
      → IsReferred other pool cells
  IsReferred-congr rows other pool cells same v = record {
    sound = λ b. subst (λ list. All (IsRef pool cells b) list) (sym (same b)) (v.sound b);
    complete = λ e here.
        subst (λ list. 0 < refs_to e (entry_at ops pool e).stamp list)
          (sym (same (entry_at ops pool e).bucket)) (v.complete e here);
  }

  -- An entry left as it was, or stamped anew.
  abbrev pub Carries : List (Entry A) → List Cell → List (Entry A) → List Cell → ℕ → Type 0
  Carries pool cells pool' cells' i =
      ((entry_at ops pool i).stamp < (entry_at ops pool' i).stamp)
      ⊎ (((entry_at ops pool' i).stamp ≡ (entry_at ops pool i).stamp)
          × ((entry_at ops pool' i).bucket ≡ (entry_at ops pool i).bucket)
          × (times_in (suc i) cells ≤ times_in (suc i) cells'))

  module _ (pool : List (Entry A)) (cells : List Cell) (pool' : List (Entry A)) (cells' : List Cell)
      (longer : length pool ≤ length pool')
      (carries : (i : ℕ) → Carries pool cells pool' cells' i) where
    IsRef-Carries : (b : ℕ) (r : Ref) → IsRef pool cells b r → IsRef pool' cells' b r
    IsRef-Carries b r v = elim (carries r.entry) [
      | inl newer ↦ record {
        known = omega (arith, v.known, longer);
        earlier = omega (arith, v.earlier, newer);
        current = inl (λ d. absurd (omega (arith, v.earlier, newer, d)));
      }
      | inr (same, lane, more) ↦ record {
        known = omega (arith, v.known, longer);
        earlier = omega (arith, v.earlier, same);
        current = elim v.current [
          | inl stale ↦ inl (λ d. stale (sym same ∙ d))
          | inr (here, at) ↦ inr (omega (arith, here, more), lane ∙ at)
        ];
      }
    ]

    pub All-Carries :
        (b : ℕ) (list : List Ref) → All (IsRef pool cells b) list → All (IsRef pool' cells' b) list
    All-Carries b [] v = tt
    All-Carries b (r ∷ list) v = (IsRef-Carries b r v.0, All-Carries b list v.1)

  -- An entry left as it was.
  pub record Same (pool : List (Entry A)) (cells : List Cell) (pool' : List (Entry A))
      (cells' : List Cell) (i : ℕ) : Type 0 where
    pub stamp : (entry_at ops pool' i).stamp ≡ (entry_at ops pool i).stamp
    pub bucket : (entry_at ops pool' i).bucket ≡ (entry_at ops pool i).bucket
    pub count : times_in (suc i) cells' ≡ times_in (suc i) cells

  Same-Carries :
      (pool : List (Entry A)) (cells : List Cell) (pool' : List (Entry A)) (cells' : List Cell)
      (i : ℕ)
      → Same pool cells pool' cells' i
      → Carries pool cells pool' cells' i
  Same-Carries pool cells pool' cells' i s = inr (s.stamp, s.bucket, omega (arith, s.count))

  -- An entry that stays has its reference, in a list that has not lost it.
  complete-Same :
      (pool : List (Entry A)) (cells : List Cell) (pool' : List (Entry A)) (cells' : List Cell)
      (rows rows' : ℕ → List Ref) (i : ℕ)
      → Same pool cells pool' cells' i
      → IsReferred rows pool cells
      → refs_to i (entry_at ops pool i).stamp (rows (entry_at ops pool i).bucket)
        ≤ refs_to i (entry_at ops pool i).stamp (rows' (entry_at ops pool i).bucket)
      → 0 < times_in (suc i) cells'
      → 0 < refs_to i (entry_at ops pool' i).stamp (rows' (entry_at ops pool' i).bucket)
  complete-Same pool cells pool' cells' rows rows' i s v more here =
      subst (λ st. 0 < refs_to i st (rows' (entry_at ops pool' i).bucket)) (sym s.stamp)
        (subst (λ b. 0 < refs_to i (entry_at ops pool i).stamp (rows' b)) (sym s.bucket)
          (omega (arith, more, v.complete i (omega (arith, here, s.count)))))

  pub IsReferred-Same :
      (pool : List (Entry A)) (cells : List Cell) (pool' : List (Entry A)) (cells' : List Cell)
      (rows : ℕ → List Ref)
      → length pool ≤ length pool'
      → ((i : ℕ) → Same pool cells pool' cells' i)
      → IsReferred rows pool cells
      → IsReferred rows pool' cells'
  IsReferred-Same pool cells pool' cells' rows longer same v = record {
    sound = λ b.
        All-Carries pool cells pool' cells' longer
          (λ i. Same-Carries pool cells pool' cells' i (same i)) b (rows b) (v.sound b);
    complete =
        λ i here. complete-Same pool cells pool' cells' rows rows i (same i) v (omega arith) here;
  }

-- A reference pushed onto a bucket's list.
abbrev pub pushed : ℕ → Ref → List (List Ref) → List (List Ref)
pushed bucket r lists = set lists bucket (get_or lists bucket [] ++ r ∷ [])

pushed-more :
    (bucket : ℕ) (r : Ref) (lists : List (List Ref)) (e st b : ℕ)
    → bucket < length lists
    → refs_to e st (get_or lists b []) ≤ refs_to e st (get_or (pushed bucket r lists) b [])
pushed-more bucket r lists e st b lt = elim (ℕ_discrete b bucket) [
  | yes d ↦
      subst
        (λ a. refs_to e st (get_or lists a []) ≤ refs_to e st (get_or (pushed bucket r lists) a []))
        (sym d)
        (omega (
          arith,
          ap (refs_to e st) (get_or-set_self lists bucket (get_or lists bucket [] ++ r ∷ []) [] lt),
          sum_by-append (names_it e st) (get_or lists bucket []) (r ∷ []),
        ))
  | no d ↦ omega (
    arith,
    ap (refs_to e st)
        (get_or-set_ne lists bucket b (get_or lists bucket [] ++ r ∷ []) [] (λ g. d (sym g))),
  )
]

pushed-has :
    (bucket : ℕ) (r : Ref) (lists : List (List Ref))
    → bucket < length lists
    → 0 < refs_to r.entry r.stamp (get_or (pushed bucket r lists) bucket [])
pushed-has bucket r lists lt =
    let one : names_it r.entry r.stamp r ≡ 1 = ground arith in
    omega (
      arith,
      one,
      ap (refs_to r.entry r.stamp)
          (get_or-set_self lists bucket (get_or lists bucket [] ++ r ∷ []) [] lt),
      sum_by-append (names_it r.entry r.stamp) (get_or lists bucket []) (r ∷ []),
    )

module _ {A : Type 0} (ops : HoldOps A) where
  -- An entry that is new in the table or has another bucket, stamped anew and referred to.
  pub refer-IsReferred :
      (pool : List (Entry A)) (cells : List Cell) (pool' : List (Entry A)) (cells' : List Cell)
      (lists : List (List Ref)) (e bucket : ℕ)
      → length pool ≤ length pool'
      → e < length pool'
      → bucket < length lists
      → ((i : ℕ) → i ≢ e → Same ops pool cells pool' cells' i)
      → (entry_at ops pool e).stamp < (entry_at ops pool' e).stamp
      → (entry_at ops pool' e).bucket ≡ bucket
      → 0 < times_in (suc e) cells'
      → IsReferred ops (λ b. get_or lists b []) pool cells
      → IsReferred ops
          (λ b.
            get_or
              (pushed bucket (record { entry = e; stamp = (entry_at ops pool' e).stamp }) lists)
              b
              [])
          pool'
          cells'
  refer-IsReferred pool cells pool' cells' lists e bucket longer inside lane same newer at here v =
      let r : Ref = record { entry = e; stamp = (entry_at ops pool' e).stamp } in
      let carries : (i : ℕ) → Carries ops pool cells pool' cells' i = λ i. elim (ℕ_discrete i e) [
        | yes d ↦ subst (Carries ops pool cells pool' cells') (sym d) (inl newer)
        | no d ↦ Same-Carries ops pool cells pool' cells' i (same i d)
      ] in
      let before : (b : ℕ) → All (IsRef ops pool' cells' b) (get_or lists b []) = λ b.
        All-Carries ops pool cells pool' cells' longer carries b (get_or lists b []) (v.sound b) in
      record {
        sound = λ b. elim (ℕ_discrete b bucket) [
          | yes d ↦
              subst (λ a. All (IsRef ops pool' cells' a) (get_or (pushed bucket r lists) a []))
                (sym d)
                (subst (All (IsRef ops pool' cells' bucket))
                  (sym (get_or-set_self lists bucket (get_or lists bucket [] ++ r ∷ []) [] lane))
                  (All-append (IsRef ops pool' cells' bucket) (get_or lists bucket []) (r ∷ [])
                    (before bucket)
                    (
                      record { known = inside; earlier = omega arith; current = inr (here, at) },
                      tt,
                    )))
          | no d ↦
              subst (All (IsRef ops pool' cells' b))
                (sym (
                  get_or-set_ne lists bucket b (get_or lists bucket [] ++ r ∷ []) []
                    (λ g. d (sym g))))
                (before b)
        ];
        complete = λ i more. elim (ℕ_discrete i e) [
          | yes d ↦
              subst
                (λ j.
                  0
                  < refs_to j (entry_at ops pool' j).stamp
                      (get_or (pushed bucket r lists) (entry_at ops pool' j).bucket []))
                (sym d)
                (subst
                  (λ b.
                    0
                    < refs_to e (entry_at ops pool' e).stamp (get_or (pushed bucket r lists) b []))
                  (sym at) (pushed-has bucket r lists lane))
          | no d ↦
              complete-Same ops pool cells pool' cells' (λ b. get_or lists b [])
                (λ b. get_or (pushed bucket r lists) b []) i (same i d) v
                (pushed-more bucket r lists i (entry_at ops pool i).stamp
                  (entry_at ops pool i).bucket lane)
                more
        ];
      }
