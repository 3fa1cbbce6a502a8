-- ===== src/Port/Round.antt =====
-- One round of the loops that move admitted items from the hold to the buffer.
use htram.Prelude.{ℕ, suc, ◌+◌, ◌<◌, ◌≤ℤ◌, ◌≡◌, sym, subst, ℤ, pos, leb_ℤ, List, ◌∷◌, true, arith}
use htram.Env.{Env}
use htram.Hold.{Hold, hold_take}
use htram.Hold.Measure.{total, held, admitted, admits}
use htram.Hold.Valid.{IsFormed, IsSound, waiting}
use htram.Hold.Pop.{hold_take-Takes}
use htram.Port.{Port, Settings}
use htram.Port.Valid.{contents, Ready, IsValid}
use htram.Port.Ship.{Notes, moved, hold-moved, contents-moved, moved-Ready, updates-moved}

-- A lighter hold, by one admitted item.
admitted_lighter :
    {A : Type 0} (t : ℤ) (i : ℕ) (x : A) (h h' : Hold A)
    → leb_ℤ (pos i) t ≡ true
    → ((w : ℕ → A → ℕ) → total w 0 h'.queues + w i x ≡ total w 0 h.queues)
    → admitted t h ≡ suc (admitted t h')
unfolding admitted
admitted_lighter t i x h h' le lighter =
    let one : admits t i x ≡ 1 = rw le in omega (arith, lighter (admits t), one)

held_lighter :
    {A : Type 0} (w : A → ℕ) (i : ℕ) (x : A) (h h' : Hold A)
    → ((w : ℕ → A → ℕ) → total w 0 h'.queues + w i x ≡ total w 0 h.queues)
    → held w h' + w x ≡ held w h
unfolding held
held_lighter w i x h h' lighter = lighter (λ b. w)

module _ {A : Type 0} (E : Env A) (s : Settings E) (note : Port A → Port A)
    (notes : (p : Port A) → Notes p (note p)) (i : ℕ) (x : A) (xs : List A) (p : Port A) (pe : ℕ)
    (front_x : waiting p.hold i ≡ x ∷ xs) (lt : i < s.histo_bucket_count) where
  -- The counter and the buffer after a round whose hold has become `h`.
  pub round-Ready :
      (h : Hold A)
      → leb_ℤ (pos i) s.tram_threshold ≡ true
      → ((w : ℕ → A → ℕ) → total w 0 h.queues + w i x ≡ total w 0 p.hold.queues)
      → Ready s (admitted s.tram_threshold p.hold) p
      → Ready s (admitted s.tram_threshold h) (moved E s note x pe h p)
  round-Ready h le lighter r =
      moved-Ready E s note notes x pe h p (admitted s.tram_threshold h)
        (subst (λ a. Ready s a p) (admitted_lighter s.tram_threshold i x p.hold h le lighter) r)

  pub updates-round :
      (h : Hold A)
      → leb_ℤ (pos i) s.tram_threshold ≡ true
      → ((w : ℕ → A → ℕ) → total w 0 h.queues + w i x ≡ total w 0 p.hold.queues)
      → Ready s (admitted s.tram_threshold p.hold) p
      → (moved E s note x pe h p).updates ≤ℤ p.updates
  updates-round h le lighter r =
      updates-moved E s note notes x pe h p (admitted s.tram_threshold h)
        (subst (λ a. Ready s a p) (admitted_lighter s.tram_threshold i x p.hold h le lighter) r)

  pub contents-round :
      (h : Hold A) (w : A → ℕ)
      → ((w : ℕ → A → ℕ) → total w 0 h.queues + w i x ≡ total w 0 p.hold.queues)
      → contents w (moved E s note x pe h p) ≡ contents w p
  contents-round h w lighter =
      contents-moved E s note notes x pe h p w (held_lighter w i x p.hold h lighter)

  -- A round of insertBucketsByDest keeps the invariant.
  pub take_round-IsValid :
      leb_ℤ (pos i) s.tram_threshold ≡ true
      → IsValid s p
      → IsValid s (moved E s note x pe (hold_take i p.hold) p)
  take_round-IsValid le v =
      let t = hold_take-Takes i x xs p.hold v.formed v.sound lt front_x in
      let e = hold-moved E s note notes x pe (hold_take i p.hold) p in
      record {
        ready =
            subst
              (λ h.
                Ready s (admitted s.tram_threshold h) (moved E s note x pe (hold_take i p.hold) p))
              (sym e) (round-Ready (hold_take i p.hold) le t.lighter v.ready);
        formed = subst (IsFormed s.histo_bucket_count) (sym e) t.formed;
        sound = subst IsSound (sym e) t.sound;
      }
