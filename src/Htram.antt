-- ===== src/Htram.antt =====
-- class HTram of one PE, in the graph build (BUCKETS_BY_DEST, ADD_FILLERS) with combining off, under
-- the modes with per-destination buffers: the operations that go over all destinations. The list of
-- lanes holds the destinations in use, destCount() of them.
pub mod Lanes
pub mod Flushes
pub mod Flushed
pub mod StaleDest
pub mod Stale
pub mod Reports
pub mod Api
pub mod Counting
pub mod Recount
pub mod Threshold
pub mod Resize
use htram.Prelude.{
  ℕ, zero, suc, ◌+◌, ◌*◌, ◌-◌, ℤ, pos, negsuc, ◌+ℤ◌, ◌-ℤ◌, leb_ℤ, ltb_ℤ, eqb_ℤ, List, [], ◌∷◌, Bool,
  true, false, Option, none, some, ◌==◌, ltb, leb, if◌then◌else◌, ◌&&◌, ◌||◌, not, length,
}
use htram.Env.{Env}
use htram.HoldQueue.{size}
use htram.Hold.{Hold, queue, sweep}
use htram.Message.{Message, Sent, next, new_message}
use htram.Port.{
  Agg, wps, wsp, pp, ww, Stats, Port, Settings, bits, count_flush, ship_buffer, release_items,
  insert_buckets_by_dest, release_if_due, call_done,
}
use htram.Flush.{first_above, drain_admitted, flush_rest, flush_partial, flush_dest}

-- What class HTram keeps for one destination, and the messages sent to it so far.
pub record Lane (A : Type 0) : Type 0 where
  pub msg : Message A
  pub hold : Hold A
  pub updates : ℤ
  pub full_sends : ℕ
  pub sent : List (Sent A)

module _ {A : Type 0} where
  abbrev pub lane_port : Stats → Lane A → Port A
  lane_port st l = record {
    msg = l.msg;
    hold = l.hold;
    updates = l.updates;
    full_sends = l.full_sends;
    stats = st;
    sent = l.sent;
  }

  abbrev pub port_lane : Port A → Lane A
  port_lane p = record {
    msg = p.msg;
    hold = p.hold;
    updates = p.updates;
    full_sends = p.full_sends;
    sent = p.sent;
  }

  -- `for (int d = 0; d < destCount(); d++)`, the statistics threaded through.
  unfoldable pub for_lanes : (Port A → Port A) → Stats → List (Lane A) → Stats × List (Lane A)
  for_lanes f st [] = (st, [])
  for_lanes f st (l ∷ ls) =
      let p = f (lane_port st l) in
      let (st', ls') = for_lanes f p.stats ls in (st', port_lane p ∷ ls')

-- BUFSIZE
abbrev pub bufsize : ℕ
bufsize = 16384

module _ {A : Type 0} (E : Env A) where
  pub record Htram : Type 0 where
    pub settings : Settings E
    pub lanes : List (Lane A)
    pub stats : Stats
    -- Seconds, in some fixed unit; last_idle_flush starts at -1.
    pub idle_flush_interval : ℕ
    pub last_idle_flush : ℤ

module _ {A : Type 0} {E : Env A} where
  unfoldable pub over_lanes : (Port A → Port A) → Htram E → Htram E
  unfolding for_lanes
  over_lanes f h = let (st, ls) = for_lanes f h.stats h.lanes in record h { lanes = ls; stats = st }

module _ {A : Type 0} (E : Env A) where
  -- One destination's part of the recount in changeThreshold: the buckets between the old threshold
  -- and the new one come in or go out.
  unfoldable pub recount : ℕ → ℤ → ℤ → Port A → Port A
  recount buckets old new p =
      let up = ltb_ℤ old new in
      let lo = if up then old else new in
      let hi = if up then new else old in
      sweep buckets bits (λ i q. leb_ℤ (pos i) hi)
        (λ i q.
          let n = size (queue q.hold i) in
          record q { updates = if up then q.updates +ℤ pos n else q.updates -ℤ pos n })
        buckets (first_above lo) p

  -- `if (updates_in_tram[d] > selectivity * bufSize) insertBucketsByDest(tram_threshold, d);`
  unfoldable pub release_over : Settings E → Port A → Port A
  release_over s p =
      if E.gt p.updates (E.times s.selectivity s.buf_size)
      then insert_buckets_by_dest E s s.tram_threshold p
      else p

  -- The settings after changeThreshold, updateReleaseLevel included.
  unfoldable pub with_thresholds : ℤ → ℤ → E.Float → Settings E → Settings E
  with_thresholds direct tram selectivity s = record s {
    tram_threshold = tram;
    direct_threshold = direct;
    selectivity = selectivity;
    release_level = E.times selectivity s.buf_size;
  }

  -- HTram::changeThreshold
  unfoldable pub change_threshold : ℤ → ℤ → E.Float → Htram E → Htram E
  unfolding over_lanes recount release_over with_thresholds
  change_threshold direct tram selectivity h =
      let s = h.settings in
      if eqb_ℤ tram s.tram_threshold
        && eqb_ℤ direct s.direct_threshold
        && E.same_float selectivity s.selectivity
      then h
      else let counted =
          if eqb_ℤ tram s.tram_threshold
          then h
          else over_lanes (recount s.histo_bucket_count s.tram_threshold tram) h in
        let s' = with_thresholds direct tram selectivity s in
        over_lanes (release_over s') (record counted { settings = s' })

  -- The settings after setBufferSize.
  unfoldable pub with_buffer_size : ℕ → Settings E → Settings E
  with_buffer_size new_size s = record s {
    buf_size = new_size;
    release_level = E.times s.selectivity new_size;
  }

  -- One destination's part of setBufferSize, under the new settings: a buffer that is too small is
  -- copied into a larger one, one that is full by the new size leaves.
  unfoldable pub resize_buffer : Settings E → Port A → Port A
  unfolding ship_buffer release_items
  resize_buffer s p =
      if ltb p.msg.cap s.buf_size
      then record p { msg = record { items = p.msg.items; cap = s.buf_size } }
      else if leb s.buf_size (next p.msg)
      then ship_buffer E s true (release_items p)
      else p

  -- HTram::setBufferSize, modes WPs and WW. `none` is the failed assertion.
  unfoldable pub set_buffer_size : ℕ → Htram E → Option (Htram E)
  unfolding over_lanes resize_buffer with_buffer_size release_if_due
  set_buffer_size new_size h =
      if ltb 0 new_size && leb new_size bufsize
      then some (
          if new_size == h.settings.buf_size
          then h
          else let s' = with_buffer_size new_size h.settings in
            over_lanes (λ p. release_if_due E s' (resize_buffer s' p)) (record h { settings = s' }))
      else none

  -- setHistoBucketCount: `none` is CkAbort.
  unfoldable pub set_histo_bucket_count : ℕ → Htram E → Option (Htram E)
  set_histo_bucket_count bucket_count h =
      if bucket_count == h.settings.histo_bucket_count then some h else none
