-- ===== src/Port/Valid.antt =====
-- What holds of one destination between two operations, and what it holds in all.
use htram.Prelude.{ℕ, ◌+◌, ◌≤◌, ◌<◌, ◌≡◌, pos, List, All, sum_by}
use htram.Env.{Env}
use htram.Message.{Message, Sent, next}
use htram.Hold.Measure.{held, admitted}
use htram.Hold.Valid.{IsFormed, IsSound}
use htram.Port.{Port, Settings}

module _ {A : Type 0} where
  -- A message that was sent carries an item at least, and no more than it was allocated for: no
  -- fill site has written past the end of a buffer.
  abbrev pub SentInBounds : Sent A → Type 0
  SentInBounds t = (0 < next t.msg) × (next t.msg ≤ t.msg.cap)

  -- The weight of what a message carries, and of all that was sent.
  abbrev pub load : (A → ℕ) → Message A → ℕ
  load w m = sum_by (λ it. w it.payload) m.items

  abbrev pub sent_load : (A → ℕ) → List (Sent A) → ℕ
  sent_load w ts = sum_by (λ t. load w t.msg) ts

  -- All that a destination was ever given: sent, in the buffer, or held.
  unfoldable pub contents : (A → ℕ) → Port A → ℕ
  contents w p = sent_load w p.sent + load w p.msg + held w p.hold

module _ {A : Type 0} {E : Env A} (s : Settings E) where
  -- The buffer has room for one more item and was allocated for bufSize; the counter is the number
  -- of items in the buffer and of `a` admitted ones.
  pub record Ready (a : ℕ) (p : Port A) : Type 0 where
    pub room : next p.msg < s.buf_size
    pub wide : s.buf_size ≤ p.msg.cap
    pub exact : p.updates ≡ pos (next p.msg + a)
    pub in_bounds : All SentInBounds p.sent

  -- The invariant of a destination: the counter updates_in_tram counts the buffer and the admitted
  -- part of the hold, and the hold is well formed with no bucket left out of its bitmap.
  pub record IsValid (p : Port A) : Type 0 where
    pub ready : Ready (admitted s.tram_threshold p.hold) p
    pub formed : IsFormed s.histo_bucket_count p.hold
    pub sound : IsSound p.hold
