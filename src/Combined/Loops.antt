-- ===== src/Combined/Loops.antt =====
-- releaseFull and flushDest with combining on.
use htram.Prelude.{
  ℕ, zero, suc, ◌+◌, ◌-◌, ◌/◌, ◌<◌, ◌≡◌, refl, sym, ap, ◌∙◌, subst, pos, ◌-ℤ◌, pos--ℤ, true, false,
  ltb, ◌==◌, All, ◌⊎◌, inl, inr, Bool-cases, arith,
}
use htram.Env.{Env}
use htram.Message.{next}
use htram.Port.{Settings, release_items, ship_buffer}
use htram.Port.Valid.{SentInBounds, contents}
use htram.Combine.{HoldOps}
use htram.Combined.{
  Combined, fill, ship, release_full_loop, release_full, flush_full_loop, add_fillers,
  flush_dest_combined,
}
use htram.Combined.Admitted.{sum_upto-none, sum_upto-zero, upto}
use htram.Combined.Fill.{
  waiting, IsReady, fill-Filled, Goes, filled, not_full, is_full, ship_buffer-Ready,
  load-ship_buffer,
}

module _ {A : Type 0} (E : Env A) (s : Settings E) (ops : HoldOps A) where
  Goes-refl : (p : Combined A) → IsReady E s ops p → Goes E s ops p p
  Goes-refl p v = record { ready = v; same = λ w. refl }

  Goes-trans : (p q r : Combined A) → Goes E s ops p q → Goes E s ops q r → Goes E s ops p r
  Goes-trans p q r g h = record { ready = h.ready; same = λ w. h.same w ∙ g.same w }

  pub release_full_loop-Goes :
      (n : ℕ) (p : Combined A)
      → IsReady E s ops p
      → p.held.count < n
      → Goes E s ops p (release_full_loop E s ops n p)
        × ((E.ge (release_full_loop E s ops n p).port.updates s.release_level ≡ false)
            ⊎ (waiting E s ops (release_full_loop E s ops n p) ≡ 0))
  unfolding release_full_loop
  release_full_loop-Goes zero p v fuel = absurd (omega arith)
  release_full_loop-Goes (suc n) p v fuel =
      elim (Bool-cases (E.ge p.port.updates s.release_level)) [
        | inr low ↦ rw low (Goes-refl p v, inl low)
        | inl due ↦ rw due (elim (Bool-cases (ltb (next (filled E s ops p).port.msg) s.buf_size)) [
          | inl short ↦
              let (goes, none) = not_full E s ops p v (ground (arith, short)) in
              rw short (goes, inr none)
          | inr full ↦
              let (goes, fewer) = is_full E s ops p v true (ground (arith, full)) in
              let (rest, ends) =
                release_full_loop-Goes n (ship E s ops true (filled E s ops p)) goes.ready
                  (omega (arith, fewer, fuel)) in
              rw full (Goes-trans p _ _ goes rest, ends)
        ])
      ]

  pub release_full_lem :
      (p : Combined A)
      → IsReady E s ops p
      → Goes E s ops p (release_full E s ops p)
        × ((E.ge (release_full E s ops p).port.updates s.release_level ≡ false)
            ⊎ (waiting E s ops (release_full E s ops p) ≡ 0))
  unfolding release_full
  release_full_lem p v = release_full_loop-Goes (suc p.held.count) p v (omega arith)

  flush_full_loop-Goes :
      (n : ℕ) (p : Combined A)
      → IsReady E s ops p
      → p.held.count < n
      → Goes E s ops p (flush_full_loop E s ops n p)
        × (waiting E s ops (flush_full_loop E s ops n p) ≡ 0)
  unfolding flush_full_loop
  flush_full_loop-Goes zero p v fuel = absurd (omega arith)
  flush_full_loop-Goes (suc n) p v fuel =
      elim (Bool-cases (ltb (next (filled E s ops p).port.msg) s.buf_size)) [
        | inl short ↦ rw short (not_full E s ops p v (ground (arith, short)))
        | inr full ↦
            let (goes, fewer) = is_full E s ops p v false (ground (arith, full)) in
            let (rest, none) =
              flush_full_loop-Goes n (ship E s ops false (filled E s ops p)) goes.ready
                (omega (arith, fewer, fuel)) in
            rw full (Goes-trans p _ _ goes rest, none)
      ]

  -- A destination of which nothing admitted is left.
  pub record Emptied (p q : Combined A) : Type 0 where
    pub goes : Goes E s ops p q
    pub no_buffer : next q.port.msg ≡ 0
    pub none_waits : waiting E s ops q ≡ 0
    pub uncounted : q.port.updates ≡ pos 0

  -- The last message of a flush, with the fillers.
  last_message :
      (p : Combined A)
      → IsReady E s ops p
      → waiting E s ops p ≡ 0
      → 0 < next p.port.msg
      → Emptied p (record (add_fillers E s ops (record p { port = release_items p.port })) {
        port =
            ship_buffer E s false
              (add_fillers E s ops (record p { port = release_items p.port })).port;
      })
  unfolding add_fillers release_items contents
  last_message p v none some = elim (Bool-cases (ltb (next p.port.msg) (s.buf_size / 2))) [
    | inr large ↦
        let lowered =
          ap (λ n. n -ℤ pos (next p.port.msg)) v.ready.exact
          ∙ pos--ℤ (next p.port.msg + waiting E s ops p) (next p.port.msg) (waiting E s ops p)
              refl in
        let shipped =
          ship_buffer-Ready E s false (waiting E s ops p) (release_items p.port) some
            (omega (arith, v.ready.room, v.ready.wide)) lowered (omega (arith, v.ready.room))
            v.ready.in_bounds in
        rw large (record {
          goes = record {
            ready = record { hold = v.hold; ready = shipped.0; stamps = v.stamps };
            same = λ w. omega (arith, load-ship_buffer E s w false (release_items p.port));
          };
          no_buffer = shipped.1;
          none_waits = none;
          uncounted = shipped.0.exact ∙ ap pos (omega (arith, shipped.1, none));
        })
    | inl small ↦
        let limit = s.buf_size / 2 - next p.port.msg in
        let start : Combined A = record p { port = release_items p.port } in
        let f =
          fill-Filled E s ops (pos s.histo_bucket_count -ℤ pos 1) limit start v.hold v.stamps in
        let q = fill E s ops (pos s.histo_bucket_count -ℤ pos 1) limit start in
        let still : waiting E s ops q ≡ 0 =
          sum_upto-none q.held.live (upto s.tram_threshold) (λ b lt. omega (
            arith,
            f.released.fewer b,
            sum_upto-zero p.held.live (upto s.tram_threshold) b none lt,
          )) in
        let lowered : q.port.updates ≡ pos (waiting E s ops q) =
          f.updates
          ∙ ap (λ n. n -ℤ pos (next p.port.msg)) v.ready.exact
          ∙ pos--ℤ (next p.port.msg + waiting E s ops p) (next p.port.msg) (waiting E s ops p) refl
          ∙ ap pos (none ∙ sym still) in
        let shipped =
          ship_buffer-Ready E s false (waiting E s ops q) q.port (omega (arith, f.longer, some))
            (omega (arith, f.longer, f.released.few, f.cap, v.ready.wide, v.ready.room)) lowered
            (omega (arith, v.ready.room))
            (subst (All SentInBounds) (sym f.sent) v.ready.in_bounds) in
        rw small (record {
          goes = record {
            ready = record {
              hold = f.released.valid;
              ready = shipped.0;
              stamps = f.released.stamps;
            };
            same = λ w. omega (arith, load-ship_buffer E s w false q.port, f.same w);
          };
          no_buffer = shipped.1;
          none_waits = still;
          uncounted = shipped.0.exact ∙ ap pos (omega (arith, shipped.1, still));
        })
  ]

  -- With combining on, flushDest of a valid destination, for enough rounds by the fuel that it is
  -- given, ends with an empty buffer, no admitted item in the hold, and the counter at zero; all
  -- that was buffered or held is sent or still held, and the destination stays valid.
  pub flush_dest_combined-Emptied :
      (p : Combined A) → IsReady E s ops p → Emptied p (flush_dest_combined E s ops p)
  unfolding flush_dest_combined
  flush_dest_combined-Emptied p v =
      let (goes, none) = flush_full_loop-Goes (suc p.held.count) p v (omega arith) in
      let q = flush_full_loop E s ops (suc p.held.count) p in
      elim (Bool-cases (next q.port.msg == 0)) [
        | inl bare ↦
            let no_buffer : next q.port.msg ≡ 0 = ground arith in
            rw bare (record {
              goes = goes;
              no_buffer = no_buffer;
              none_waits = none;
              uncounted = goes.ready.ready.exact ∙ ap pos (omega (arith, no_buffer, none));
            })
        | inr some ↦
            let last = last_message q goes.ready none (ground (arith, some)) in
            rw some (record {
              goes = Goes-trans p q _ goes last.goes;
              no_buffer = last.no_buffer;
              none_waits = last.none_waits;
              uncounted = last.uncounted;
            })
      ]
