-- ===== src/Htram/Recount.antt =====
-- The recount of one destination in changeThreshold: the counter after the loop is the one that the
-- new threshold asks for.
use htram.Prelude.{
  ℕ, ◌+◌, ◌≤◌, ◌≡◌, refl, sym, ap, ◌∙◌, subst, ℤ, pos, ◌+ℤ◌, ◌-ℤ◌, pos-+ℤ, pos--ℤ, leb_ℤ, ltb_ℤ,
  true, false, some, inl, inr, Bool-cases, arith,
}
use htram.Env.{Env}
use htram.HoldQueue.{size}
use htram.HoldBits.Marked.{marked}
use htram.HoldBits.Next.{Finds}
use htram.Hold.{queue, sweep}
use htram.Hold.Measure.{total, admitted}
use htram.Hold.Valid.{IsFormed, IsSound}
use htram.Hold.Staged.{by_bucket, staged}
use htram.Hold.Sweep.{sweep_rule}
use htram.Message.{next}
use htram.Port.{Port, Settings, bits}
use htram.Port.Valid.{IsValid}
use htram.Flush.{first_above}
use htram.Htram.{recount}
use htram.Htram.Counting.{
  below, at_most, first_above-up, first_above-down, Counted, count_up, count_down, count_stop,
  count_done, count_start, admitted_below,
}

-- Only the counter has changed, and it counts the buffer and what `t` admits.
pub record Recounted {A : Type 0} (t : ℤ) (p q : Port A) : Type 0 where
  pub hold : q.hold ≡ p.hold
  pub msg : q.msg ≡ p.msg
  pub sent : q.sent ≡ p.sent
  pub exact : q.updates ≡ pos (next p.msg + admitted t p.hold)

module _ {A : Type 0} (buckets : ℕ) (p : Port A) (f : IsFormed buckets p.hold)
    (sound : IsSound p.hold) (old new : ℤ)
    (exact : p.updates ≡ pos (next p.msg + admitted old p.hold)) where
  abbrev o : ℕ
  o = first_above old

  abbrev m : ℕ
  m = first_above new

  start_Counted : (from : ℕ) → from ≤ m → from ≤ o → Counted buckets o m p f sound from p
  start_Counted from hm ho = record {
    hold = refl;
    msg = refl;
    sent = refl;
    exact =
        exact
        ∙ ap (λ n. pos (next p.msg + n))
            (admitted_below old p.hold ∙ count_start buckets o m p f sound from hm ho);
  }

  finish :
      (from : ℕ) (q : Port A)
      → Counted buckets o m p f sound from q
      → total (by_bucket (staged (below m) (below o) from)) 0 p.hold.queues
        ≡ total (by_bucket (below m)) 0 p.hold.queues
      → Recounted new p q
  finish from q c e = record {
    hold = c.hold;
    msg = c.msg;
    sent = c.sent;
    exact = c.exact ∙ ap (λ n. pos (next p.msg + n)) (e ∙ sym (admitted_below new p.hold));
  }

  up_lem :
      ltb_ℤ old new ≡ true
      → Recounted new p (
          sweep buckets bits
            (λ i q. leb_ℤ (pos i) new)
            (λ i q. record q { updates = q.updates +ℤ pos (size (queue q.hold i)) })
            buckets
            (first_above old)
            p)
  up_lem up =
      let le : o ≤ m = first_above-up old new up in
      sweep_rule buckets bits (λ i q. leb_ℤ (pos i) new)
        (λ i q. record q { updates = q.updates +ℤ pos (size (queue q.hold i)) })
        (λ from q. (o ≤ from) × Counted buckets o m p f sound from q) (Recounted new p)
        (λ from q c. rw (c.1.hold) f.shaped)
        (λ from i q c found t.
          let here : Finds (marked p.hold.bits) from (some i) =
            subst (λ h. Finds (marked h.bits) from (some i)) c.1.hold found in
          let within : below m i ≡ true = sym (at_most new i) ∙ t in
          let more = count_up buckets o m p f sound from i here c.0 (ground arith) in
          (
            omega (arith, here.0, c.0),
            record {
              hold = c.1.hold;
              msg = c.1.msg;
              sent = c.1.sent;
              exact = rw (c.1.exact, c.1.hold) (pos-+ℤ _ _ ∙ ap pos (omega (arith, more)));
            },
          ))
        (λ from i q c found t.
          let here : Finds (marked p.hold.bits) from (some i) =
            subst (λ h. Finds (marked h.bits) from (some i)) c.1.hold found in
          let past : below m i ≡ false = sym (at_most new i) ∙ t in
          finish from q c.1 (
            count_stop buckets o m p f sound from i here (ground arith)
              (omega (arith, here.0, c.0))))
        (λ from q c clear. finish from q c.1 (
          count_done buckets o m p f sound from
            (λ j l lt. subst (λ h. marked h.bits j ≡ false) c.1.hold (clear j l lt))))
        buckets o p (omega arith) (omega arith, start_Counted o le (omega arith))

  down_lem :
      ltb_ℤ old new ≡ false
      → Recounted new p (
          sweep buckets bits
            (λ i q. leb_ℤ (pos i) old)
            (λ i q. record q { updates = q.updates -ℤ pos (size (queue q.hold i)) })
            buckets
            (first_above new)
            p)
  down_lem down =
      let le : m ≤ o = first_above-down old new down in
      sweep_rule buckets bits (λ i q. leb_ℤ (pos i) old)
        (λ i q. record q { updates = q.updates -ℤ pos (size (queue q.hold i)) })
        (λ from q. (m ≤ from) × Counted buckets o m p f sound from q) (Recounted new p)
        (λ from q c. rw (c.1.hold) f.shaped)
        (λ from i q c found t.
          let here : Finds (marked p.hold.bits) from (some i) =
            subst (λ h. Finds (marked h.bits) from (some i)) c.1.hold found in
          let within : below o i ≡ true = sym (at_most old i) ∙ t in
          let fewer = count_down buckets o m p f sound from i here c.0 (ground arith) in
          (
            omega (arith, here.0, c.0),
            record {
              hold = c.1.hold;
              msg = c.1.msg;
              sent = c.1.sent;
              exact = rw (c.1.exact, c.1.hold) (pos--ℤ _ _ _ (omega (arith, fewer)));
            },
          ))
        (λ from i q c found t.
          let here : Finds (marked p.hold.bits) from (some i) =
            subst (λ h. Finds (marked h.bits) from (some i)) c.1.hold found in
          let past : below o i ≡ false = sym (at_most old i) ∙ t in
          finish from q c.1 (
            count_stop buckets o m p f sound from i here (omega (arith, here.0, c.0))
              (ground arith)))
        (λ from q c clear. finish from q c.1 (
          count_done buckets o m p f sound from
            (λ j l lt. subst (λ h. marked h.bits j ≡ false) c.1.hold (clear j l lt))))
        buckets m p (omega arith) (omega arith, start_Counted m (omega arith) le)

module _ {A : Type 0} (E : Env A) where
  pub recount-Recounted :
      (s : Settings E) (p : Port A) (new : ℤ)
      → IsValid s p
      → Recounted new p (recount E s.histo_bucket_count s.tram_threshold new p)
  unfolding recount
  recount-Recounted s p new v = elim (Bool-cases (ltb_ℤ s.tram_threshold new)) [
    | inl up ↦
        rw up (up_lem s.histo_bucket_count p v.formed v.sound s.tram_threshold new v.ready.exact up)
    | inr down ↦
        rw down
          (down_lem s.histo_bucket_count p v.formed v.sound s.tram_threshold new v.ready.exact down)
  ]
