-- ===== src/Port/Send.antt =====
-- sendItemPrioDeferredDest and insertValueWPsTo, combining off.
use htram.Prelude.{
  ℕ, suc, ◌+◌, ◌<◌, ◌≡◌, refl, sym, ap, ◌∙◌, subst, ℤ, pos, leb_ℤ, ◌≤ℤ◌, ◌+ℤ◌, pos-+ℤ, true, false,
  ◌⊎◌, inl, inr, Bool-cases, arith,
}
use htram.Env.{Env}
use htram.Message.{next, put, next-put}
use htram.Hold.{hold_push}
use htram.Hold.Measure.{held, admitted, admits}
use htram.Hold.Valid.{IsFormed, IsSound}
use htram.Hold.Push.{hold_push-IsFormed, hold_push-IsSound, total-hold_push}
use htram.Port.{
  Port, Settings, count_sent, count_agg, note_full_send, put_item, ship_full, insert_value_wps_to,
  insert_buckets_by_dest, release_if_due, send_item_prio_deferred_dest,
}
use htram.Port.Valid.{contents, Ready, IsValid}
use htram.Port.Ship.{Notes, load-put, hold-ship_full, contents-ship_full, ship_full-Ready}
use htram.Port.Release.{IsDrained, insert_buckets_by_dest-Released}

-- What the release tests rely on of C's comparisons of an int with a float.
pub record FloatLaws {A : Type 0} (E : Env A) : Type 0 where
  pub mono : (a b : ℤ) (l : E.Float) → b ≤ℤ a → E.lt a l ≡ true → E.lt b l ≡ true
  pub apart : (a : ℤ) (l : E.Float) → E.lt a l ≡ true → E.gt a l ≡ false

module _ {A : Type 0} (E : Env A) (s : Settings E) where
  -- The outcome of giving the destination one more item, `x`.
  pub record Gains (x : A) (p q : Port A) : Type 0 where
    pub valid : IsValid s q
    pub gained : (w : A → ℕ) → contents w q ≡ contents w p + w x

  module _ (x : A) (b : ℕ) (p : Port A) (v : IsValid s p) (lt : b < s.histo_bucket_count) where
    grown :
        (t : ℤ) (n : ℕ)
        → admits t b x ≡ n
        → admitted t (hold_push b x p.hold) ≡ admitted t p.hold + n
    unfolding admitted
    grown t n e = omega (arith, total-hold_push b x p.hold v.formed lt (admits t), e)

    -- An item whose bucket is above the threshold waits, uncounted.
    hold_above :
        leb_ℤ (pos b) s.tram_threshold ≡ false
        → Gains x p (record p { hold = hold_push b x p.hold })
    unfolding contents held
    hold_above gt = record {
      valid = record {
        ready = record {
          room = v.ready.room;
          wide = v.ready.wide;
          exact = v.ready.exact ∙ ap pos (omega (arith, grown s.tram_threshold 0 (rw gt)));
          in_bounds = v.ready.in_bounds;
        };
        formed = hold_push-IsFormed b x p.hold v.formed lt;
        sound = hold_push-IsSound b x p.hold v.formed lt v.sound;
      };
      gained = λ w. omega (arith, total-hold_push b x p.hold v.formed lt (λ c. w));
    }

    -- An admitted item that does not go direct waits, counted.
    hold_admitted :
        leb_ℤ (pos b) s.tram_threshold ≡ true
        → Gains x p (record p { updates = p.updates +ℤ pos 1; hold = hold_push b x p.hold })
    unfolding contents held
    hold_admitted le = record {
      valid = record {
        ready = record {
          room = v.ready.room;
          wide = v.ready.wide;
          exact =
              ap (λ u. u +ℤ pos 1) v.ready.exact
              ∙ pos-+ℤ (next p.msg + admitted s.tram_threshold p.hold) 1
              ∙ ap pos (omega (arith, grown s.tram_threshold 1 (rw le)));
          in_bounds = v.ready.in_bounds;
        };
        formed = hold_push-IsFormed b x p.hold v.formed lt;
        sound = hold_push-IsSound b x p.hold v.formed lt v.sound;
      };
      gained = λ w. omega (arith, total-hold_push b x p.hold v.formed lt (λ c. w));
    }

  note : Port A → Port A
  note q = note_full_send (count_sent (count_agg q))

  notes : (p : Port A) → Notes p (note p)
  unfolding note note_full_send count_sent count_agg
  notes p = record { msg = refl; hold = refl; updates = refl; sent = refl }

  -- insertValueWPsTo on a valid destination whose counter has been raised by one keeps it valid and
  -- adds exactly the item to what the destination has sent, buffered and held.
  pub insert_value_wps_to-Gains :
      (x : A) (pe : ℕ) (p : Port A)
      → IsValid s p
      → Gains x p (insert_value_wps_to E s x pe (record p { updates = p.updates +ℤ pos 1 }))
  unfolding insert_value_wps_to note
  insert_value_wps_to-Gains x pe p v = record {
    valid = record {
      ready =
          subst (λ h. Ready s (admitted s.tram_threshold h) (ship_full E s note counted)) (sym kept)
            ready;
      formed = subst (IsFormed s.histo_bucket_count) (sym kept) v.formed;
      sound = subst IsSound (sym kept) v.sound;
    };
    gained = λ w. contents-ship_full E s note notes w counted ∙ contents-counted w;
  }
    where
      counted : Port A
      counted = put_item x pe (record p { updates = p.updates +ℤ pos 1 })

      kept : (ship_full E s note counted).hold ≡ p.hold
      kept = hold-ship_full E s note notes counted

      contents-counted : (w : A → ℕ) → contents w counted ≡ contents w p + w x
      contents-counted w = unfold contents put_item in omega (arith, load-put w x pe p.msg)

      ready : Ready s (admitted s.tram_threshold p.hold) (ship_full E s note counted)
      ready =
          let longer : next counted.msg ≡ suc (next p.msg) =
            unfold put_item in next-put x pe p.msg in
          let a = admitted s.tram_threshold p.hold in
          ship_full-Ready E s note notes a counted (omega (arith, longer))
            (omega (arith, longer, v.ready.room)) (unfold put_item put in v.ready.wide)
            (unfold put_item in
              (ap (λ u. u +ℤ pos 1) v.ready.exact
                ∙ pos-+ℤ (next p.msg + a) 1
                ∙ ap pos (omega (arith, longer))))
            (unfold put_item in v.ready.in_bounds)

  -- The release test that ends a send.
  pub record Settled (x : A) (p q : Port A) : Type 0 where
    pub gains : Gains x p q
    pub outcome : IsDrained E s q ⊎ (E.gt q.updates s.release_level ≡ false)

  weaken :
      (q : Port A)
      → FloatLaws E
      → IsDrained E s q ⊎ (E.lt q.updates s.release_level ≡ true)
      → IsDrained E s q ⊎ (E.gt q.updates s.release_level ≡ false)
  weaken q laws (inl d) = inl d
  weaken q laws (inr below) = inr (laws.apart q.updates s.release_level below)

  settle : (x : A) (p q : Port A) → FloatLaws E → Gains x p q → Settled x p (release_if_due E s q)
  unfolding release_if_due
  settle x p q laws g = elim (Bool-cases (E.gt q.updates s.release_level)) [
    | inl due ↦
        let r = insert_buckets_by_dest-Released E s laws.mono q g.valid in
        rw due (record {
          gains = record { valid = r.keeps.valid; gained = λ w. r.keeps.same w ∙ g.gained w };
          outcome = weaken (insert_buckets_by_dest E s s.tram_threshold q) laws r.outcome;
        })
    | inr idle ↦ rw idle (record { gains = g; outcome = inr idle })
  ]

  -- On a valid destination and a bucket that exists, sendItemPrioDeferredDest keeps the destination
  -- valid and adds exactly the item to what the destination has sent, buffered and held. It ends
  -- with the release test failing or with no admitted item left in the hold. The float comparisons
  -- are assumed monotone and exclusive.
  pub send_item-Settled :
      (laws : FloatLaws E) (x : A) (b pe : ℕ) (p : Port A)
      → IsValid s p
      → b < s.histo_bucket_count
      → Settled x p (send_item_prio_deferred_dest E s x b pe p)
  unfolding send_item_prio_deferred_dest
  send_item-Settled laws x b pe p v lt = elim (Bool-cases (leb_ℤ (pos b) s.tram_threshold)) [
    | inr gt ↦ rw gt (settle x p _ laws (hold_above x b p v lt gt))
    | inl le ↦ rw le (elim (Bool-cases (leb_ℤ (pos b) s.direct_threshold)) [
      | inr later ↦ rw later (settle x p _ laws (hold_admitted x b p v lt le))
      | inl direct ↦ rw direct (settle x p _ laws (insert_value_wps_to-Gains x pe p v))
    ])
  ]
