-- ===== src/Port/Ship.antt =====
-- Filling and shipping a buffer.
use htram.Prelude.{
  ℕ, suc, ◌+◌, ◌≤◌, ◌≤ℤ◌, ◌<◌, ◌≡◌, refl, ap, ◌∙◌, pos, pos--ℤ, le_of_pos, List, [], ◌∷◌, ◌++◌,
  ◌==◌, All, All-append, sum_by-append, inl, inr, Bool-cases, arith,
}
use htram.Env.{Env}
use htram.Message.{Message, Item, Sent, next, put, next-put, new_message}
use htram.Hold.{Hold}
use htram.Hold.Measure.{held}
use htram.Port.{Port, Settings, put_item, post, release_items, ship_full, trim, entry}
use htram.Port.Valid.{SentInBounds, load, sent_load, contents, Ready}

-- A change of the statistics alone.
pub record Notes {A : Type 0} (p q : Port A) : Type 0 where
  pub msg : q.msg ≡ p.msg
  pub hold : q.hold ≡ p.hold
  pub updates : q.updates ≡ p.updates
  pub sent : q.sent ≡ p.sent

module _ {A : Type 0} (w : A → ℕ) where
  pub load-put : (x : A) (pe : ℕ) (m : Message A) → load w (put x pe m) ≡ load w m + w x
  unfolding put
  load-put x pe m = omega (
    arith,
    sum_by-append (λ (it : Item A). w it.payload) m.items
        (record { dest_pe = pe; payload = x } ∷ []),
  )

  sent_load-append :
      (ts : List (Sent A)) (t : Sent A) → sent_load w (ts ++ t ∷ []) ≡ sent_load w ts + load w t.msg
  sent_load-append ts t = omega (arith, sum_by-append (λ (u : Sent A). load w u.msg) ts (t ∷ []))

module _ {A : Type 0} (E : Env A) (s : Settings E) where
  pub contents-post : (w : A → ℕ) (p : Port A) → contents w (post E s p) ≡ contents w p
  unfolding post contents trim new_message
  contents-post w p =
      omega (arith, sent_load-append w p.sent (record { entry = entry s.agg; msg = p.msg }))

  pub contents-release : (w : A → ℕ) (p : Port A) → contents w (release_items p) ≡ contents w p
  unfolding contents release_items
  contents-release w p = refl

  -- A buffer that is shipped with the counter lowered leaves the destination ready.
  pub post-Ready :
      (a : ℕ) (p : Port A)
      → 0 < next p.msg
      → next p.msg ≤ p.msg.cap
      → p.updates ≡ pos (next p.msg + a)
      → 0 < s.buf_size
      → All SentInBounds p.sent
      → Ready s a (post E s (release_items p))
  unfolding post release_items trim new_message
  post-Ready a p some fits exact size old = record {
    room = size;
    wide = omega arith;
    exact = rw exact (pos--ℤ (next p.msg + a) (next p.msg) (0 + a) (omega arith));
    in_bounds = All-append SentInBounds p.sent _ old ((some, fits), tt);
  }

  -- One round of a drain: an item `x` that leaves the hold, which becomes `h`, joins the buffer.
  abbrev pub moved : (Port A → Port A) → A → ℕ → Hold A → Port A → Port A
  moved note x pe h p = ship_full E s note (put_item x pe (record p { hold = h }))

  -- `note` counts the message, in the statistics or in full_sends.
  module _ (note : Port A → Port A) (notes : (p : Port A) → Notes p (note p)) where
    pub hold-ship_full : (p : Port A) → (ship_full E s note p).hold ≡ p.hold
    unfolding ship_full post release_items trim
    hold-ship_full p = elim (Bool-cases (next p.msg == s.buf_size)) [
      | inl full ↦ rw full ((notes p).hold)
      | inr not_full ↦ rw not_full
    ]

    contents-note : (w : A → ℕ) (p : Port A) → contents w (note p) ≡ contents w p
    unfolding contents
    contents-note w p = rw ((notes p).msg, (notes p).hold, (notes p).sent)

    -- Nothing is lost or made up when a buffer leaves.
    pub contents-ship_full :
        (w : A → ℕ) (p : Port A) → contents w (ship_full E s note p) ≡ contents w p
    unfolding ship_full release_items
    contents-ship_full w p = elim (Bool-cases (next p.msg == s.buf_size)) [
      | inl full ↦ rw full (
          contents-post w (release_items (note p))
          ∙ contents-release w (note p)
          ∙ contents-note w p)
      | inr not_full ↦ rw not_full
    ]

    -- After an item was put, with the counter exact: room again, whether the buffer left or not.
    pub ship_full-Ready :
        (a : ℕ) (p : Port A)
        → 0 < next p.msg
        → next p.msg ≤ s.buf_size
        → s.buf_size ≤ p.msg.cap
        → p.updates ≡ pos (next p.msg + a)
        → All SentInBounds p.sent
        → Ready s a (ship_full E s note p)
    unfolding ship_full
    ship_full-Ready a p some fits wide exact old = elim (Bool-cases (next p.msg == s.buf_size)) [
      | inl full ↦ rw full (
          post-Ready a (note p) (rw ((notes p).msg) some) (rw ((notes p).msg) (omega arith))
            (rw ((notes p).msg, (notes p).updates) exact) (omega arith) (rw ((notes p).sent) old))
      | inr not_full ↦
          rw not_full (record { room = ground arith; wide = wide; exact = exact; in_bounds = old })
    ]

    next-ship_full : (p : Port A) → next (ship_full E s note p).msg ≤ next p.msg
    unfolding ship_full post trim new_message
    next-ship_full p = elim (Bool-cases (next p.msg == s.buf_size)) [
      | inl full ↦ rw full (omega arith)
      | inr not_full ↦ rw not_full (omega arith)
    ]

    module _ (x : A) (pe : ℕ) (h : Hold A) (p : Port A) where
      pub hold-moved : (moved note x pe h p).hold ≡ h
      unfolding put_item
      hold-moved = hold-ship_full (put_item x pe (record p { hold = h }))

      pub contents-moved :
          (w : A → ℕ)
          → held w h + w x ≡ held w p.hold
          → contents w (moved note x pe h p) ≡ contents w p
      unfolding put_item
      contents-moved w lighter =
          contents-ship_full w (put_item x pe (record p { hold = h }))
          ∙ unfold contents in omega (arith, lighter, load-put w x pe p.msg)

      pub moved-Ready : (a : ℕ) → Ready s (suc a) p → Ready s a (moved note x pe h p)
      unfolding put_item put
      moved-Ready a r =
          ship_full-Ready a (put_item x pe (record p { hold = h }))
            (omega (arith, next-put x pe p.msg)) (omega (arith, next-put x pe p.msg, r.room)) r.wide
            (r.exact ∙ ap pos (omega (arith, next-put x pe p.msg))) r.in_bounds

      -- The counter never rises in a round.
      pub updates-moved : (a : ℕ) → Ready s (suc a) p → (moved note x pe h p).updates ≤ℤ p.updates
      updates-moved a r =
          let q = put_item x pe (record p { hold = h }) in
          let grown : next q.msg ≡ suc (next p.msg) = unfold put_item in next-put x pe p.msg in
          let small : next (moved note x pe h p).msg ≤ next q.msg = next-ship_full q in
          le_of_pos (moved note x pe h p).updates p.updates (next (moved note x pe h p).msg + a)
            (next p.msg + suc a) (moved-Ready a r).exact r.exact (omega (arith, small, grown))
