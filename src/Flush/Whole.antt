-- ===== src/Flush/Whole.antt =====
-- flushDest, and the passes of tflush, for one destination.
use htram.Prelude.{
  ℕ, ◌+◌, ◌<◌, ◌≡◌, refl, sym, ap, ◌∙◌, subst, pos, pos--ℤ, leb_ℤ, ◌==◌, Bool, false, inl, inr,
  Bool-cases, if◌then◌else◌, All-append, sum_by, sum_by-zero, arith, ◌-ℤ◌,
}
use htram.Env.{Env}
use htram.Message.{next, new_message}
use htram.Hold.{queue}
use htram.Hold.Measure.{total-zero, admitted, admits}
use htram.Hold.Valid.{waiting}
use htram.Port.{Port, Settings, count_sent, count_flush, release_items, post, trim}
use htram.Port.Valid.{SentInBounds, contents, IsValid}
use htram.Port.Ship.{contents-post, post-Ready}
use htram.Port.Release.{IsDrained}
use htram.Flush.{add_fillers, flush_rest, flush_dest, flush_partial}
use htram.Flush.Drain.{drain_admitted_lem}
use htram.Flush.Rest.{Filling, add_fillers-Filling}

module _ {A : Type 0} (E : Env A) (s : Settings E) where
  -- After a flush: the invariant, an empty buffer, a zero counter, no admitted item in the hold, and
  -- nothing lost.
  pub record Flushed (p q : Port A) : Type 0 where
    pub valid : IsValid s q
    pub same : (w : A → ℕ) → contents w q ≡ contents w p
    pub empty : next q.msg ≡ 0
    pub settled : q.updates ≡ pos 0
    pub drained : IsDrained E s q

  admitted-drained : (p : Port A) → IsDrained E s p → admitted s.tram_threshold p.hold ≡ 0
  unfolding admitted queue
  admitted-drained p d = total-zero (admits s.tram_threshold) p.hold.queues 0 λ i k e.
      elim (Bool-cases (leb_ℤ (pos k) s.tram_threshold)) [
        | inl le ↦ let same : i ≡ k = omega arith in rw (same, d k le)
        | inr gt ↦
            subst (λ (b : Bool). sum_by (λ (x : A). if b then 1 else 0) (waiting p.hold i) ≡ 0)
              (sym gt) (sum_by-zero (waiting p.hold i))
      ]

  released-Filling : (p : Port A) → IsValid s p → 0 < next p.msg → Filling E s p (release_items p)
  unfolding release_items contents
  released-Filling p v some = record {
    some_item = some;
    room = v.ready.room;
    wide = v.ready.wide;
    exact =
        ap (λ u. u -ℤ pos (next p.msg)) v.ready.exact
        ∙ pos--ℤ (next p.msg + admitted s.tram_threshold p.hold) (next p.msg)
            (admitted s.tram_threshold p.hold) refl;
    in_bounds = v.ready.in_bounds;
    formed = v.formed;
    sound = v.sound;
    same = λ w. refl;
    kept = λ c le. refl;
  }

  posted-Flushed :
      (p q : Port A) → Filling E s p q → IsDrained E s p → Flushed p (post E s (count_sent q))
  unfolding post trim count_sent new_message
  posted-Flushed p q f d =
      let nothing : admitted s.tram_threshold q.hold ≡ 0 =
        admitted-drained q (λ j le. f.kept j le ∙ d j le) in
      record {
        valid = record {
          ready = record {
            room = omega (arith, f.room);
            wide = omega arith;
            exact = f.exact ∙ ap pos (omega arith);
            in_bounds =
                All-append SentInBounds q.sent _ f.in_bounds
                  ((f.some_item, omega (arith, f.room, f.wide)), tt);
          };
          formed = f.formed;
          sound = f.sound;
        };
        same = λ w. contents-post E s w (count_sent q) ∙ unfold contents in f.same w;
        empty = refl;
        settled = f.exact ∙ ap pos nothing;
        drained = λ j le. f.kept j le ∙ d j le;
      }

  -- The third pass of tflush, after the drain.
  pub flush_rest_lem : (p : Port A) → IsValid s p → IsDrained E s p → Flushed p (flush_rest E s p)
  unfolding flush_rest
  flush_rest_lem p v d = elim (Bool-cases (next p.msg == 0)) [
    | inl none_left ↦
        let empty : next p.msg ≡ 0 = ground arith in
        rw none_left (record {
          valid = v;
          same = λ w. refl;
          empty = empty;
          settled = v.ready.exact ∙ ap pos (omega (arith, admitted-drained p d));
          drained = d;
        })
    | inr some_left ↦ rw some_left (
        posted-Flushed p (add_fillers E s (release_items p))
          (add_fillers-Filling E s p (release_items p) (released-Filling p v (ground arith))) d)
  ]

  -- flushDest on a valid destination keeps it valid and loses nothing, and leaves an empty buffer,
  -- a zero counter and no admitted item in the hold.
  pub flush_dest_lem : (p : Port A) → IsValid s p → Flushed p (flush_dest E s p)
  unfolding flush_dest
  flush_dest_lem p v =
      let d = drain_admitted_lem E s p v in
      let r = flush_rest_lem _ d.valid d.drained in
      record {
        valid = r.valid;
        same = λ w. r.same w ∙ d.same w;
        empty = r.empty;
        settled = r.settled;
        drained = r.drained;
      }

  -- What the first pass of tflush leaves: the buffer empty, the hold as it was.
  pub record PartialFlushed (p q : Port A) : Type 0 where
    pub valid : IsValid s q
    pub same : (w : A → ℕ) → contents w q ≡ contents w p
    pub empty : next q.msg ≡ 0
    pub hold : q.hold ≡ p.hold

  pub flush_partial_lem : (p : Port A) → IsValid s p → PartialFlushed p (flush_partial E s false p)
  unfolding flush_partial
  flush_partial_lem p v = elim (Bool-cases (next p.msg == 0)) [
    | inl none_left ↦
        rw none_left (record { valid = v; same = λ w. refl; empty = ground arith; hold = refl })
    | inr some_left ↦ rw some_left (record {
      valid = record {
        ready =
            post-Ready E s (admitted s.tram_threshold p.hold) (count_flush p) (ground arith)
              (unfold count_flush in omega (arith, v.ready.room, v.ready.wide))
              (unfold count_flush in v.ready.exact) (omega (arith, v.ready.room))
              (unfold count_flush in v.ready.in_bounds);
        formed = v.formed;
        sound = v.sound;
      };
      same = λ w. contents-post E s w (release_items (count_flush p)) ∙ unfold contents in refl;
      empty = refl;
      hold = refl;
    })
  ]
