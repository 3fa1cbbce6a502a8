-- ===== src/Combined/Send.antt =====
-- sendItemPrioDeferredDest with combining on.
use htram.Prelude.{
  ℕ, ◌+◌, ◌<◌, ◌≡◌, refl, sym, ap, ◌∙◌, ℤ, pos, leb_ℤ, eqb_ℤ, pos--ℤ, pos-+ℤ, Bool, true, false,
  if◌then◌else◌, sum_by, ◌⊎◌, inl, inr, Bool-cases, arith,
}
use htram.Env.{Env}
use htram.Message.{next}
use htram.Port.{Settings}
use htram.Port.Valid.{contents}
use htram.Combine.{HoldOps, CombiningHold, InsertResult, insert}
use htram.Combine.Folds.{KeepsKey, Folded, Added}
use htram.Combine.Insert.{insert_lem}
use htram.Combine.Whole.{HasStamps, insert-IsValid}
use htram.Combine.Lowest.{HasStampsIn}
use htram.Combine.Laws.{Conserves, insert-Conserves}
use htram.Combined.{Combined, follow, send_combined, release_full}
use htram.Combined.Admitted.{
  sum_upto, upto, is_below, admitted_is_below, excluded_is_below, sum_upto-moved, sum_upto-grown,
}
use htram.Combined.Fill.{waiting, IsReady, carried}
use htram.Combined.Loops.{release_full_lem}

module _ {A : Type 0} (E : Env A) (s : Settings E) (ops : HoldOps A) where
  abbrev t : ℤ
  t = s.tram_threshold

  follow_added :
      (r : InsertResult) (n w w' : ℕ)
      → r.absorbed ≡ false
      → w' ≡ w + is_below r.new_bucket (upto t)
      → follow E s ops r (pos (n + w)) ≡ pos (n + w')
  unfolding follow
  follow_added r n w w' told more = rw told (elim (Bool-cases (leb_ℤ (pos r.new_bucket) t)) [
    | inl in_ ↦
        rw in_
          (pos-+ℤ (n + w) 1 ∙ ap pos (omega (arith, more, admitted_is_below r.new_bucket t in_)))
    | inr out ↦ rw out (ap pos (omega (arith, more, excluded_is_below r.new_bucket t out)))
  ])

  follow_moved :
      (r : InsertResult) (from n w w' : ℕ)
      → r.absorbed ≡ true
      → r.old_bucket ≡ pos from
      → w' + is_below from (upto t) ≡ w + is_below r.new_bucket (upto t)
      → follow E s ops r (pos (n + w)) ≡ pos (n + w')
  unfolding follow
  follow_moved r from n w w' told was moves =
      rw (told, was)
        (elim (Bool-cases (eqb_ℤ (pos from) (pos r.new_bucket))) [
          | inl stays ↦
              let same : from ≡ r.new_bucket = ground arith in
              rw stays (ap pos (omega (arith, moves, ap (λ b. is_below b (upto t)) same)))
          | inr differ ↦ rw differ (elim (Bool-cases (leb_ℤ (pos r.new_bucket) t)) [
            | inl in_ ↦ elim (Bool-cases (leb_ℤ (pos from) t)) [
              | inl was_in ↦
                  rw (in_, was_in)
                    (ap pos (
                      omega (
                        arith,
                        moves,
                        admitted_is_below r.new_bucket t in_,
                        admitted_is_below from t was_in,
                      )))
              | inr was_out ↦
                  rw (in_, was_out)
                    (pos-+ℤ (n + w) 1
                      ∙ ap pos (
                          omega (
                            arith,
                            moves,
                            admitted_is_below r.new_bucket t in_,
                            excluded_is_below from t was_out,
                          )))
            ]
            | inr out ↦ elim (Bool-cases (leb_ℤ (pos from) t)) [
              | inl was_in ↦
                  rw (out, was_in)
                    (pos--ℤ (n + w) 1 (n + w') (
                      omega (
                        arith,
                        moves,
                        excluded_is_below r.new_bucket t out,
                        admitted_is_below from t was_in,
                      )))
              | inr was_out ↦
                  rw (out, was_out)
                    (ap pos (
                      omega (
                        arith,
                        moves,
                        excluded_is_below r.new_bucket t out,
                        excluded_is_below from t was_out,
                      )))
            ]
          ])
        ])

  -- The counter follows what `insert` did.
  follow-insert :
      (x : A) (bucket n : ℕ) (c c' : CombiningHold A) (r : InsertResult)
      → Added ops x bucket c c' r ⊎ Folded ops x bucket c c' r
      → follow E s ops r (pos (n + sum_upto c.live (upto t))) ≡ pos (n + sum_upto c'.live (upto t))
  follow-insert x bucket n c c' r (inl added) = follow_added r n _ _ added.told (
      sum_upto-grown c'.live c.live bucket (upto t) added.grows
      ∙ ap (λ b. sum_upto c.live (upto t) + is_below b (upto t)) (sym added.goes))
  follow-insert x bucket n c c' r (inr folded) =
      follow_moved r folded.from n _ _ folded.told folded.was
        (sum_upto-moved c'.live c.live folded.from r.new_bucket (upto t) folded.moves)

  either :
      (P : Combined A → Type 0) (b : Bool) (then_ else_ : Combined A)
      → (b ≡ true → P then_)
      → (b ≡ false → P else_)
      → P (if b then then_ else else_)
  either P true then_ else_ f g = f refl
  either P false then_ else_ f g = g refl

  -- The outcome of a send: nothing is lost but what was handed to on_absorb, and the counter is
  -- below the release level or nothing admitted waits.
  pub record SentCombined (x : A) (bucket : ℕ) (p q : Combined A) : Type 0 where
    pub ready : IsReady E s ops q
    pub same :
        (w : A → ℕ)
        → Conserves ops w
        → carried E s ops w q + sum_by w (insert ops x bucket p.held).0.retired
          ≡ carried E s ops w p + sum_by w p.held.retired + w x
    pub outcome : (E.ge q.port.updates s.release_level ≡ false) ⊎ (waiting E s ops q ≡ 0)

  -- With combining on, sendItemPrioDeferredDest on a valid destination, for a bucket that exists,
  -- with no stamp at the end before or after the insertion and a combine that keeps the key: the
  -- counter updates_in_tram still counts the buffer and the admitted items of the hold exactly,
  -- whichever way a fold moved an item across the threshold; under any weight that combine
  -- conserves nothing is lost but what on_absorb got; and in the end the counter is below the
  -- release level or no admitted item is held.
  pub send_combined-SentCombined :
      (x : A) (bucket : ℕ) (p : Combined A)
      → KeepsKey ops
      → IsReady E s ops p
      → HasStamps ops p.held
      → HasStampsIn ops (insert ops x bucket p.held).0
      → bucket < s.histo_bucket_count
      → SentCombined x bucket p (send_combined E s ops x bucket p)
  unfolding send_combined contents
  send_combined-SentCombined x bucket p law v stamps stamps' lane =
      let c = (insert ops x bucket p.held).0 in
      let r = (insert ops x bucket p.held).1 in
      let did = (insert_lem ops s.histo_bucket_count p.held x bucket law v.hold.counts lane).1 in
      let port = p.port in
      let q : Combined A = record {
        port = record port { updates = follow E s ops r port.updates };
        held = c;
      } in
      let ready : IsReady E s ops q = record {
        hold = insert-IsValid ops s.histo_bucket_count p.held x bucket law stamps lane v.hold;
        ready = record {
          room = v.ready.room;
          wide = v.ready.wide;
          exact =
              ap (follow E s ops r) v.ready.exact
              ∙ follow-insert x bucket (next p.port.msg) p.held c r did;
          in_bounds = v.ready.in_bounds;
        };
        stamps = stamps';
      } in
      let same : (w : A → ℕ)
          → Conserves ops w
          → carried E s ops w q + sum_by w c.retired
            ≡ carried E s ops w p + sum_by w p.held.retired + w x =
        λ w kept. omega (
          arith,
          insert-Conserves ops s.histo_bucket_count p.held x bucket w law kept v.hold.counts lane,
        ) in
      either (SentCombined x bucket p) (E.ge q.port.updates s.release_level)
        (release_full E s ops q) q
        (λ due.
          let (goes, ends) = release_full_lem E s ops q ready in
          record {
            ready = goes.ready;
            same = λ w kept. omega (arith, goes.same w, same w kept);
            outcome = ends;
          })
        (λ low. record { ready = ready; same = same; outcome = inl low })
