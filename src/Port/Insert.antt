-- ===== src/Port/Insert.antt =====
-- insertBucketsByDest: what its loops keep, and how far they go.
use htram.Prelude.{
  ℕ, zero, suc, ◌≤◌, ◌<◌, ◌≡◌, ◌≢◌, refl, ap, ◌∙◌, ℤ, pos, leb_ℤ, ◌≤ℤ◌, List, [], ◌∷◌, true, length,
  ◌⊎◌, inl, inr, Bool-cases, arith,
}
use htram.Env.{Env}
use htram.HoldQueue.Fifo.{front-to_list, front-none}
use htram.Hold.{queue, hold_take}
use htram.Hold.Valid.{waiting}
use htram.Hold.Pop.{Takes, hold_take-Takes}
use htram.Port.{Port, Settings, count_sent, note_full_send, insert_bucket}
use htram.Port.Valid.{contents, IsValid}
use htram.Port.Ship.{Notes, moved, hold-moved}
use htram.Port.Round.{updates-round, contents-round, take_round-IsValid}

-- A float test `count < level` that holds of a count holds of every lower one.
abbrev pub IsMonotone : {A : Type 0} → Env A → Type 0
IsMonotone E = (a b : ℤ) (l : E.Float) → b ≤ℤ a → E.lt a l ≡ true → E.lt b l ≡ true

module _ {A : Type 0} (E : Env A) (s : Settings E) where
  -- What a loop that moves admitted items to the buffer keeps.
  pub record Keeps (p q : Port A) : Type 0 where
    pub valid : IsValid s q
    pub same : (w : A → ℕ) → contents w q ≡ contents w p
    pub lower : q.updates ≤ℤ p.updates

  -- Fewer items than the release level are counted.
  abbrev pub IsReleased : Port A → Type 0
  IsReleased p = E.lt p.updates s.release_level ≡ true

  note : Port A → Port A
  note p = note_full_send (count_sent p)

  notes : (p : Port A) → Notes p (note p)
  unfolding note note_full_send count_sent
  notes p = record { msg = refl; hold = refl; updates = refl; sent = refl }

  abbrev round : ℕ → A → Port A → Port A
  round i x p = moved E s note x (E.dest_of x) (hold_take i p.hold) p

  module _ (i : ℕ) (x : A) (xs : List A) (p : Port A) (v : IsValid s p)
      (lt : i < s.histo_bucket_count) (le : leb_ℤ (pos i) s.tram_threshold ≡ true)
      (e : waiting p.hold i ≡ x ∷ xs) where
    took : Takes s.histo_bucket_count i x xs p.hold (hold_take i p.hold)
    took = hold_take-Takes i x xs p.hold v.formed v.sound lt e

    round-Keeps : Keeps p (round i x p)
    round-Keeps = record {
      valid = take_round-IsValid E s note notes i x xs p (E.dest_of x) e lt le v;
      same = λ w.
          contents-round E s note notes i x xs p (E.dest_of x) e lt (hold_take i p.hold) w
            took.lighter;
      lower =
          updates-round E s note notes i x xs p (E.dest_of x) e lt (hold_take i p.hold) le
            took.lighter v.ready;
    }

    waiting-round_self : waiting (round i x p).hold i ≡ xs
    waiting-round_self =
        ap (λ h. waiting h i) (hold-moved E s note notes x (E.dest_of x) (hold_take i p.hold) p)
        ∙ took.rest

    waiting-round_ne : (c : ℕ) → c ≢ i → waiting (round i x p).hold c ≡ waiting p.hold c
    waiting-round_ne c ne =
        ap (λ h. waiting h c) (hold-moved E s note notes x (E.dest_of x) (hold_take i p.hold) p)
        ∙ took.others c ne

  pub Keeps-trans : (p q r : Port A) → Keeps p q → Keeps q r → Keeps p r
  Keeps-trans p q r a b = record {
    valid = b.valid;
    same = λ w. b.same w ∙ a.same w;
    lower = omega (arith, a.lower, b.lower);
  }

  -- The inner loop over bucket `i`: the others are as they were, and it ends because the bucket is
  -- empty or because the counter has fallen below the release level.
  pub record Inserted (i : ℕ) (p q : Port A) : Type 0 where
    pub keeps : Keeps p q
    pub others : (c : ℕ) → c ≢ i → waiting q.hold c ≡ waiting p.hold c
    pub ended : (waiting q.hold i ≡ []) ⊎ IsReleased q

  pub insert_bucket-Inserted :
      (i n : ℕ) (xs : List A) (p : Port A)
      → IsValid s p
      → i < s.histo_bucket_count
      → leb_ℤ (pos i) s.tram_threshold ≡ true
      → waiting p.hold i ≡ xs
      → length xs ≤ n
      → Inserted i p (insert_bucket E s i n p)
  unfolding insert_bucket note
  insert_bucket-Inserted i zero (x ∷ xs) p v lt le e h = absurd (omega arith)
  insert_bucket-Inserted i zero [] p v lt le e h = record {
    keeps = record { valid = v; same = λ w. refl; lower = omega arith };
    others = λ c ne. refl;
    ended = inl e;
  }
  insert_bucket-Inserted i (suc n) [] p v lt le e h =
      rw (front-none (queue p.hold i) e, insert_bucket)
        (record {
          keeps = record { valid = v; same = λ w. refl; lower = omega arith };
          others = λ c ne. refl;
          ended = inl e;
        })
  insert_bucket-Inserted i (suc n) (x ∷ xs) p v lt le e h =
      rw (front-to_list (queue p.hold i) x xs e, insert_bucket)
        (elim (Bool-cases (E.lt (round i x p).updates s.release_level)) [
          | inl below ↦ rw below (record {
            keeps = round-Keeps i x xs p v lt le e;
            others = waiting-round_ne i x xs p v lt le e;
            ended = inr below;
          })
          | inr more ↦
              let k = round-Keeps i x xs p v lt le e in
              let r =
                insert_bucket-Inserted i n xs (round i x p) k.valid lt le
                  (waiting-round_self i x xs p v lt le e) (omega arith) in
              rw more (record {
                keeps = Keeps-trans p (round i x p) (insert_bucket E s i n (round i x p)) k r.keeps;
                others = λ c ne. r.others c ne ∙ waiting-round_ne i x xs p v lt le e c ne;
                ended = r.ended;
              })
        ])
