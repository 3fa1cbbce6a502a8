-- ===== src/Port.antt =====
-- class HTram as one destination sees it: its buffer msgBuffers[d], its hold tram_hold[d], its
-- counters updates_in_tram[d] and full_sends[d], the PE's statistics, and the messages sent so far.
-- The operations of htram_group.C that work on one destination, in the graph build
-- (BUCKETS_BY_DEST and ADD_FILLERS) with combining off.
pub mod Valid
pub mod Ship
pub mod Round
pub mod Insert
pub mod Release
pub mod Send
pub mod Value
use htram.Prelude.{
  ℕ, zero, suc, ◌+◌, ◌*◌, ◌%◌, ◌^◌, ℤ, pos, ◌+ℤ◌, ◌-ℤ◌, leb_ℤ, List, [], ◌∷◌, ◌++◌, Bool, not, none,
  some, ◌==◌, if◌then◌else◌,
}
use htram.Env.{Env}
use htram.HoldQueue.{front, size}
use htram.HoldBits.Bits.{Word}
use htram.Message.{Message, next, new_message, put, used_bytes, Entry, receive, receive_on_pe, Sent}
use htram.Hold.{Hold, queue, hold_push, hold_take, sweep}

-- The aggregation modes.
pub data Agg : Type 0 where
  wps wsp pp ww : Agg

-- The PE's counters. The byte counters are unsigned long long; `done_calls` counts the calls of the
-- client's tram_done.
pub record Stats : Type 0 where
  pub tot_send_count : ℕ
  pub agg_msg_count : ℕ
  pub flush_msg_count : ℕ
  pub bytes_sent : ℕ
  pub bytes_alloc : ℕ
  pub msgs_sent : ℕ
  pub done_calls : ℕ
  pub stale_flushes : ℕ
  pub idle_flushes : ℕ

pub record Port (A : Type 0) : Type 0 where
  pub msg : Message A
  pub hold : Hold A
  pub updates : ℤ
  pub full_sends : ℕ
  pub stats : Stats
  pub sent : List (Sent A)

module _ {A : Type 0} (E : Env A) where
  -- The PE's settings, which the operations on one destination only read. `done` says whether the
  -- client has registered a tram_done.
  pub record Settings : Type 0 where
    pub agg : Agg
    pub buf_size : ℕ
    pub histo_bucket_count : ℕ
    pub tram_threshold : ℤ
    pub direct_threshold : ℤ
    pub selectivity : E.Float
    pub release_level : E.Float
    pub done : Bool

-- `bucket > threshold`
abbrev pub above : ℤ → ℕ → Bool
above t b = not (leb_ℤ (pos b) t)

-- Which entry method the send sites call.
unfoldable pub entry : Agg → Entry
entry ww = receive_on_pe
entry _ = receive

module _ {A : Type 0} where
  abbrev pub bits : Port A → List Word
  bits p = p.hold.bits

  -- `tot_send_count += next`
  unfoldable pub count_sent : Port A → Port A
  count_sent p =
      let st = p.stats in
      record p { stats = record st { tot_send_count = st.tot_send_count + next p.msg } }

  -- `agg_msg_count++`
  unfoldable pub count_agg : Port A → Port A
  count_agg p =
      let st = p.stats in record p { stats = record st { agg_msg_count = st.agg_msg_count + 1 } }

  -- `flush_msg_count++`
  unfoldable pub count_flush : Port A → Port A
  count_flush p =
      let st = p.stats in
      record p { stats = record st { flush_msg_count = st.flush_msg_count + 1 } }

  -- noteFullSend
  unfoldable pub note_full_send : Port A → Port A
  note_full_send p = record p { full_sends = p.full_sends + 1 }

  -- `updates_in_tram[dest] -= next`
  unfoldable pub release_items : Port A → Port A
  release_items p = record p { updates = p.updates -ℤ pos (next p.msg) }

  unfoldable pub put_item : A → ℕ → Port A → Port A
  put_item x pe p = record p { msg = put x pe p.msg }

module _ {A : Type 0} (E : Env A) where
  -- HTram::trim
  unfoldable pub trim : Port A → Port A
  unfolding used_bytes
  trim p =
      let st = p.stats in
      let alloc = E.payload_offset + E.align (E.item_size * p.msg.cap) in
      record p {
        stats = record st {
          bytes_sent = (st.bytes_sent + used_bytes E p.msg) % 2 ^ 64;
          bytes_alloc = (st.bytes_alloc + alloc) % 2 ^ 64;
          msgs_sent = (st.msgs_sent + 1) % 2 ^ 64;
        };
      }

module _ {A : Type 0} (E : Env A) (s : Settings E) where
  -- `trim(m); send(m); msgBuffers[dest] = newHTramMessage(bufSize);`
  unfoldable pub post : Port A → Port A
  unfolding trim new_message entry
  post p =
      let q = trim E p in
      record q {
        msg = new_message s.buf_size;
        sent = q.sent ++ record { entry = entry s.agg; msg = q.msg } ∷ [];
      }

  -- The block of every fill site: a buffer that has reached bufSize leaves and is replaced. `note`
  -- is what the site counts besides.
  unfoldable pub ship_full : (Port A → Port A) → Port A → Port A
  unfolding post release_items
  ship_full note p = if next p.msg == s.buf_size then post (release_items (note p)) else p

  -- `if (tram_done) tram_done(objPtr);`
  unfoldable pub call_done : Port A → Port A
  call_done p =
      let st = p.stats in
      if s.done then record p { stats = record st { done_calls = st.done_calls + 1 } } else p

  -- HTram::shipBuffer
  unfoldable pub ship_buffer : Bool → Port A → Port A
  unfolding post count_sent note_full_send
  ship_buffer full p = post (if full then note_full_send (count_sent p) else count_sent p)

  -- HTram::insertValueWPsTo
  unfoldable pub insert_value_wps_to : A → ℕ → Port A → Port A
  unfolding ship_full put_item count_sent count_agg note_full_send
  insert_value_wps_to x pe p =
      ship_full (λ q. note_full_send (count_sent (count_agg q))) (put_item x pe p)

  -- The `while` of insertBucketsByDest over bucket `i`, the front item taken in each round. The fuel
  -- is the queue's size.
  unfoldable pub insert_bucket : ℕ → ℕ → Port A → Port A
  unfolding ship_full put_item count_sent note_full_send hold_take
  insert_bucket i zero p = p
  insert_bucket i (suc n) p = elim (front (queue p.hold i)) [
    | none ↦ p
    | some x ↦
        let q =
          ship_full (λ r. note_full_send (count_sent r))
            (put_item x (E.dest_of x) (record p { hold = hold_take i p.hold })) in
        let rest = insert_bucket i n q in if E.lt q.updates s.release_level then q else rest
  ]

  -- HTram::insertBucketsByDest
  unfoldable pub insert_buckets_by_dest : ℤ → Port A → Port A
  unfolding insert_bucket call_done
  insert_buckets_by_dest high p = call_done (
      sweep s.histo_bucket_count bits (λ i q. leb_ℤ (pos i) high)
        (λ i q. insert_bucket i (size (queue q.hold i)) q) s.histo_bucket_count 0 p)

  -- The tail of sendItemPrioDeferredDest.
  unfoldable pub release_if_due : Port A → Port A
  release_if_due p =
      if E.gt p.updates s.release_level then insert_buckets_by_dest s.tram_threshold p else p

  -- HTram::sendItemPrioDeferredDest, combining off, for an item whose destination is this one.
  unfoldable pub send_item_prio_deferred_dest : A → ℕ → ℕ → Port A → Port A
  unfolding insert_value_wps_to release_if_due
  send_item_prio_deferred_dest x bucket dest_proc p =
      if above s.tram_threshold bucket
      then release_if_due (record p { hold = hold_push bucket x p.hold })
      else let q = record p { updates = p.updates +ℤ pos 1 } in
        if above s.direct_threshold bucket
        then release_if_due (record q { hold = hold_push bucket x q.hold })
        else release_if_due (insert_value_wps_to x dest_proc q)
