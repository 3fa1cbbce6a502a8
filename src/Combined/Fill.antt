-- ===== src/Combined/Fill.antt =====
-- One round of the combining loops: a buffer filled from the hold, and shipped if it is full.
use htram.Prelude.{
  ℕ, ◌+◌, ◌-◌, ◌≤◌, ◌<◌, ◌≡◌, refl, sym, ap, ◌∙◌, subst, ℤ, pos, negsuc, leb_ℤ, pos--ℤ, ◌-ℤ◌, List,
  [], ◌∷◌, Bool, true, false, length, sum_by, sum_by-one, All, All-append, inl, inr, arith,
}
use htram.Env.{Env}
use htram.Message.{Message, next, put, next-put, new_message}
use htram.Port.{Port, Settings, release_items, ship_buffer, count_sent, note_full_send, post, trim}
use htram.Port.Valid.{SentInBounds, load, sent_load, contents, Ready}
use htram.Port.Ship.{load-put, contents-post}
use htram.Combine.{HoldOps, release}
use htram.Combine.Valid.{held}
use htram.Combine.Whole.{IsValid}
use htram.Combine.Lowest.{HasStampsIn, Released, release_lem}
use htram.Combined.{Combined, append_held, fill, ship}
use htram.Combined.Admitted.{sum_upto, upto, sum_upto-none, sum_upto-release}

module _ {A : Type 0} (E : Env A) (s : Settings E) where
  pub ship_buffer-Ready :
      (full : Bool) (a : ℕ) (p : Port A)
      → 0 < next p.msg
      → next p.msg ≤ p.msg.cap
      → p.updates ≡ pos a
      → 0 < s.buf_size
      → All SentInBounds p.sent
      → Ready s a (ship_buffer E s full p) × (next (ship_buffer E s full p).msg ≡ 0)
  unfolding ship_buffer post trim new_message count_sent note_full_send
  ship_buffer-Ready true a p some fits exact size old = (
    record {
      room = size;
      wide = omega arith;
      exact = exact ∙ ap pos (omega arith);
      in_bounds = All-append SentInBounds p.sent _ old ((some, fits), tt);
    },
    refl,
  )
  ship_buffer-Ready false a p some fits exact size old = (
    record {
      room = size;
      wide = omega arith;
      exact = exact ∙ ap pos (omega arith);
      in_bounds = All-append SentInBounds p.sent _ old ((some, fits), tt);
    },
    refl,
  )

  -- What a shipped buffer had is sent.
  pub load-ship_buffer :
      (w : A → ℕ) (full : Bool) (p : Port A)
      → sent_load w (ship_buffer E s full p).sent + load w (ship_buffer E s full p).msg
        ≡ sent_load w p.sent + load w p.msg
  unfolding ship_buffer post trim new_message count_sent note_full_send contents
  load-ship_buffer w true p = omega (arith, contents-post E s w (note_full_send (count_sent p)))
  load-ship_buffer w false p = omega (arith, contents-post E s w (count_sent p))

module _ {A : Type 0} (E : Env A) (s : Settings E) (ops : HoldOps A) where
  next-append_held :
      (xs : List A) (m : Message A) → next (append_held E s ops xs m) ≡ next m + length xs
  unfolding append_held
  next-append_held [] m = omega arith
  next-append_held (x ∷ xs) m =
      omega (arith, next-append_held xs (put x (E.dest_of x) m), next-put x (E.dest_of x) m)

  load-append_held :
      (w : A → ℕ) (xs : List A) (m : Message A)
      → load w (append_held E s ops xs m) ≡ load w m + sum_by w xs
  unfolding append_held
  load-append_held w [] m = omega arith
  load-append_held w (x ∷ xs) m =
      omega (arith, load-append_held w xs (put x (E.dest_of x) m), load-put w x (E.dest_of x) m)

  cap-append_held : (xs : List A) (m : Message A) → (append_held E s ops xs m).cap ≡ m.cap
  unfolding append_held put
  cap-append_held [] m = refl
  cap-append_held (x ∷ xs) m = cap-append_held xs (put x (E.dest_of x) m)

  -- The items that the threshold admits and the hold has.
  abbrev pub waiting : Combined A → ℕ
  waiting p = sum_upto p.held.live (upto s.tram_threshold)

  -- The invariant of a destination with combining on: the counter updates_in_tram counts the buffer
  -- and the admitted items of the hold.
  pub record IsReady (p : Combined A) : Type 0 where
    pub hold : IsValid ops s.histo_bucket_count p.held
    pub ready : Ready s (waiting p) p.port
    pub stamps : HasStampsIn ops p.held

  -- All that the destination has sent, buffered, and held in its combining hold.
  abbrev pub carried : (A → ℕ) → Combined A → ℕ
  carried w p = sent_load w p.port.sent + load w p.port.msg + held ops w p.held

  -- A buffer after `release` was asked for `limit` items up to `high`.
  pub record Filled (high : ℤ) (limit : ℕ) (p q : Combined A) : Type 0 where
    pub out : List A
    pub released : Released ops s.histo_bucket_count high limit p.held q.held out
    pub longer : next q.port.msg ≡ next p.port.msg + length out
    pub cap : q.port.msg.cap ≡ p.port.msg.cap
    pub same : (w : A → ℕ) → carried w q ≡ carried w p
    pub sent : q.port.sent ≡ p.port.sent
    pub updates : q.port.updates ≡ p.port.updates

  pub fill-Filled :
      (high : ℤ) (limit : ℕ) (p : Combined A)
      → IsValid ops s.histo_bucket_count p.held
      → HasStampsIn ops p.held
      → Filled high limit p (fill E s ops high limit p)
  unfolding fill contents
  fill-Filled high limit p v stamps =
      let r = release_lem ops s.histo_bucket_count high limit p.held v stamps in
      let out = (release ops high limit p.held).1 in
      record {
        out = out;
        released = r;
        longer = next-append_held out p.port.msg;
        cap = cap-append_held out p.port.msg;
        same = λ w. omega (arith, r.items w, load-append_held w out p.port.msg);
        sent = refl;
        updates = refl;
      }

  -- A state that has lost nothing.
  pub record Goes (p q : Combined A) : Type 0 where
    pub ready : IsReady q
    pub same : (w : A → ℕ) → carried w q ≡ carried w p

  abbrev pub filled : Combined A → Combined A
  filled p = fill E s ops s.tram_threshold (s.buf_size - next p.port.msg) p

  module _ (p : Combined A) (v : IsReady p) where
    f : Filled s.tram_threshold (s.buf_size - next p.port.msg) p (filled p)
    f = fill-Filled s.tram_threshold (s.buf_size - next p.port.msg) p v.hold v.stamps

    fewer : waiting (filled p) + length f.out ≡ waiting p
    fewer =
        sum_upto-release ops s.histo_bucket_count s.tram_threshold (s.buf_size - next p.port.msg)
          p.held (filled p).held f.out v.hold.counts f.released

    exact : (filled p).port.updates ≡ pos (next (filled p).port.msg + waiting (filled p))
    exact = f.updates ∙ v.ready.exact ∙ ap pos (omega (arith, fewer, f.longer))

    -- A buffer that is not full afterwards: the admitted items ran out.
    pub not_full :
        next (filled p).port.msg < s.buf_size → Goes p (filled p) × (waiting (filled p) ≡ 0)
    not_full lt =
        let none : waiting (filled p) ≡ 0 = elim f.released.ends [
          | inl full ↦ absurd (omega (arith, lt, full, f.longer))
          | inr none ↦
              sum_upto-none (filled p).held.live (upto s.tram_threshold)
                (λ b lt. none b (below s.tram_threshold b lt))
        ] in
        (
          record {
            ready = record {
              hold = f.released.valid;
              ready = record {
                room = lt;
                wide = omega (arith, v.ready.wide, f.cap);
                exact = exact;
                in_bounds = subst (All SentInBounds) (sym f.sent) v.ready.in_bounds;
              };
              stamps = f.released.stamps;
            };
            same = f.same;
          },
          none,
        )
      where
        below : (t : ℤ) (b : ℕ) → b < upto t → leb_ℤ (pos b) t ≡ true
        below (pos n) b lt = ground arith
        below (negsuc n) b lt = absurd (omega arith)

    -- A full buffer leaves, and with it an item of the hold at least.
    pub is_full :
        (full : Bool)
        → s.buf_size ≤ next (filled p).port.msg
        → Goes p (ship E s ops full (filled p))
          × ((ship E s ops full (filled p)).held.count < p.held.count)
    unfolding ship release_items contents
    is_full full le =
        let q = filled p in
        let size : 0 < s.buf_size = omega (arith, v.ready.room) in
        let lowered : (release_items q.port).updates ≡ pos (waiting q) =
          ap (λ n. n -ℤ pos (next q.port.msg)) exact
          ∙ pos--ℤ (next q.port.msg + waiting q) (next q.port.msg) (waiting q) refl in
        let shipped =
          ship_buffer-Ready E s full (waiting q) (release_items q.port) (omega (arith, le, size))
            (omega (arith, f.longer, f.released.few, f.cap, v.ready.wide, v.ready.room)) lowered
            size (subst (All SentInBounds) (sym f.sent) v.ready.in_bounds) in
        (
          record {
            ready = record {
              hold = f.released.valid;
              ready = shipped.0;
              stamps = f.released.stamps;
            };
            same = λ w. omega (arith, load-ship_buffer E s w full (release_items q.port), f.same w);
          },
          omega (
            arith,
            f.released.items (λ x. 1),
            sum_by-one f.out,
            f.longer,
            le,
            v.ready.room,
            v.hold.counts.counted,
            f.released.valid.counts.counted,
          ),
        )
