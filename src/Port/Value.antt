-- ===== src/Port/Value.antt =====
-- insertValue and insertToProcess, BUCKETS_BY_DEST, modes WPs and WW: the inserts that take no
-- bucket. insertValue lowers updates_in_tram when a buffer leaves, and never raises it.
use htram.Prelude.{
  ℕ, suc, ◌+◌, ◌≡◌, refl, ap, ap₂, ◌∙◌, pos, pos-+ℤ, take_one, ◌+ℤ◌, ◌-ℤ◌, ◌==◌, inl, inr,
  Bool-cases, arith,
}
use htram.Env.{Env}
use htram.Message.{next, next-put, new_message}
use htram.Hold.Measure.{admitted}
use htram.Port.{
  Agg, wps, wsp, pp, ww, Port, Settings, count_sent, count_agg, note_full_send, release_items,
  put_item, post, ship_full, trim,
}
use htram.Port.Valid.{contents, IsValid}
use htram.Port.Ship.{Notes, load-put, contents-ship_full}

-- What the block counts besides: the total only under WPs.
unfoldable pub count_value : {A : Type 0} → Agg → Port A → Port A
unfolding count_sent count_agg note_full_send
count_value ww p = note_full_send (count_agg p)
count_value _ p = note_full_send (count_sent (count_agg p))

module _ {A : Type 0} (E : Env A) (s : Settings E) where
  -- HTram::insertValue
  unfoldable pub insert_value : A → ℕ → Port A → Port A
  unfolding ship_full put_item count_value
  insert_value x dest_pe p = ship_full E s (count_value s.agg) (put_item x dest_pe p)

  notes : (g : Agg) (p : Port A) → Notes p (count_value g p)
  unfolding count_value
  notes wps p = record { msg = refl; hold = refl; updates = refl; sent = refl }
  notes wsp p = record { msg = refl; hold = refl; updates = refl; sent = refl }
  notes pp p = record { msg = refl; hold = refl; updates = refl; sent = refl }
  notes ww p = record { msg = refl; hold = refl; updates = refl; sent = refl }

  -- The counter is one short of the items that it should count, with nothing lost.
  pub record Miscounts (x : A) (p q : Port A) : Type 0 where
    pub short : q.updates +ℤ pos 1 ≡ pos (next q.msg + admitted s.tram_threshold q.hold)
    pub gained : (w : A → ℕ) → contents w q ≡ contents w p + w x

  -- insertValue in the BUCKETS_BY_DEST build, under the modes with per-destination buffers, on a
  -- valid destination: nothing is lost and the item is added, but updates_in_tram is one less than
  -- the items that are buffered or admitted, so the destination is not valid afterwards.
  pub insert_value-Miscounts :
      (x : A) (dest_pe : ℕ) (p : Port A) → IsValid s p → Miscounts x p (insert_value x dest_pe p)
  unfolding insert_value ship_full
  insert_value-Miscounts x dest_pe p v =
      let filled = put_item x dest_pe p in
      let longer : next filled.msg ≡ suc (next p.msg) =
        unfold put_item in next-put x dest_pe p.msg in
      let a = admitted s.tram_threshold p.hold in
      record {
        short = counter filled longer (unfold put_item in v.ready.exact) (unfold put_item in refl);
        gained = λ w.
            contents-ship_full E s (count_value s.agg) (notes s.agg) w filled
            ∙ unfold contents put_item in omega (arith, load-put w x dest_pe p.msg);
      }
    where
      counter :
          (q : Port A)
          → next q.msg ≡ suc (next p.msg)
          → q.updates ≡ pos (next p.msg + admitted s.tram_threshold p.hold)
          → q.hold ≡ p.hold
          → (ship_full E s (count_value s.agg) q).updates +ℤ pos 1
            ≡ pos (
                next (ship_full E s (count_value s.agg) q).msg
                + admitted s.tram_threshold (ship_full E s (count_value s.agg) q).hold)
      counter q longer exact same = elim (Bool-cases (next q.msg == s.buf_size)) [
        | inl full ↦
            let k = notes s.agg q in
            let t = s.tram_threshold in
            let a = admitted t p.hold in
            let held_same : admitted t (count_value s.agg q).hold ≡ a =
              ap (admitted t) (k.hold ∙ same) in
            rw full (
              unfold post release_items trim new_message in
              ap₂ (λ u n. (u -ℤ pos n) +ℤ pos 1) (k.updates ∙ exact) (ap next k.msg ∙ longer)
              ∙ take_one (next p.msg) a
              ∙ ap pos (omega (arith, held_same)))
        | inr not_full ↦ rw not_full (
            ap (λ u. u +ℤ pos 1) exact
            ∙ pos-+ℤ (next p.msg + admitted s.tram_threshold p.hold) 1
            ∙ ap pos (omega (arith, longer, ap (admitted s.tram_threshold) same)))
      ]
