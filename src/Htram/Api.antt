-- ===== src/Htram/Api.antt =====
-- class HTram of one PE, in the graph build with combining off: the constructor, the send to a
-- destination, and the calls that a client makes one after another.
pub mod Shape
pub mod Calls
use htram.Prelude.{
  ℕ, zero, suc, ◌+◌, ◌/◌, ℤ, pos, negsuc, List, [], ◌∷◌, Bool, true, false, Option, none, some,
  length, replicate, ltb, leb, ◌&&◌, if◌then◌else◌,
}
use htram.Env.{Env}
use htram.Message.{new_message}
use htram.Hold.{empty_hold}
use htram.Port.{Agg, wps, wsp, pp, ww, Stats, Port, Settings, send_item_prio_deferred_dest}
use htram.Htram.{Lane, Htram, lane_port, port_lane, bufsize, change_threshold, set_buffer_size}
use htram.Htram.Flushes.{tflush, flush_stale, flush_idle}

-- Zeroed counters.
abbrev pub zero_stats : Stats
zero_stats = record {
  tot_send_count = 0;
  agg_msg_count = 0;
  flush_msg_count = 0;
  bytes_sent = 0;
  bytes_alloc = 0;
  msgs_sent = 0;
  done_calls = 0;
  stale_flushes = 0;
  idle_flushes = 0;
}

-- `dest_node` of sendItemPrioDeferredDest: nodeOf[dest_proc], or the PE itself under WW.
abbrev pub dest_node : Agg → ℕ → ℕ → ℕ
dest_node ww node_size dest_proc = dest_proc
dest_node _ node_size dest_proc = dest_proc / node_size

module _ {A : Type 0} where
  -- An operation on destination `d`.
  unfoldable pub at_lane : ℕ → (Port A → Port A) → Stats → List (Lane A) → Stats × List (Lane A)
  at_lane d f st [] = (st, [])
  at_lane zero f st (l ∷ ls) = let p = f (lane_port st l) in (p.stats, port_lane p ∷ ls)
  at_lane (suc d) f st (l ∷ ls) = let (st', ls') = at_lane d f st ls in (st', l ∷ ls')

  -- What the constructor gives one destination: a new buffer, empty queues, zero counters.
  unfoldable pub new_lane : ℕ → ℕ → Lane A
  unfolding new_message empty_hold
  new_lane buffer_size buckets = record {
    msg = new_message buffer_size;
    hold = empty_hold buckets;
    updates = pos 0;
    full_sends = 0;
    sent = [];
  }

module _ {A : Type 0} (E : Env A) where
  -- HTram::HTram, BUCKETS_BY_DEST: `none` is the failed assertion. `one` is the float 1.0, the
  -- selectivity that a PE starts with.
  unfoldable pub new_htram : E.Float → ℕ → ℕ → Option (Htram E)
  unfolding new_lane
  new_htram one num_nodes buffer_size =
      if ltb 0 buffer_size && leb buffer_size bufsize
      then some (record {
        settings = record {
          agg = wps;
          buf_size = buffer_size;
          histo_bucket_count = 2048;
          tram_threshold = pos 0;
          direct_threshold = pos 0;
          selectivity = one;
          release_level = E.times one buffer_size;
          done = false;
        };
        lanes = replicate num_nodes (new_lane buffer_size 2048);
        stats = zero_stats;
        idle_flush_interval = 0;
        last_idle_flush = negsuc 0;
      })
      else none

  -- sendItemPrioDeferredDest with combining off: `none` is CkAbort.
  unfoldable pub send_item : ℕ → A → ℕ → ℕ → Htram E → Option (Htram E)
  unfolding at_lane
  send_item node_size x bucket dest_proc h =
      let d = dest_node h.settings.agg node_size dest_proc in
      if ltb d (length h.lanes)
      then (let (st, ls) =
            at_lane d (send_item_prio_deferred_dest E h.settings x bucket dest_proc) h.stats
              h.lanes in
          some (record h { lanes = ls; stats = st }))
      else none

  -- The calls of a client.
  pub data Call : Type 0 where
    send : A → ℕ → ℕ → Call
    set_threshold : ℤ → ℤ → E.Float → Call
    resize : ℕ → Call
    flush_all stale : Call
    idle : ℕ → Call

  unfoldable pub call : ℕ → Call → Htram E → Option (Htram E)
  unfolding send_item change_threshold set_buffer_size tflush flush_stale flush_idle
  call node_size (send x bucket dest_proc) h = send_item node_size x bucket dest_proc h
  call node_size (set_threshold direct tram selectivity) h =
      some (change_threshold E direct tram selectivity h)
  call node_size (resize new_size) h = set_buffer_size E new_size h
  call node_size flush_all h = some (tflush E false h)
  call node_size stale h = some (flush_stale E h)
  call node_size (idle now) h = some (flush_idle E now h)

  unfoldable pub calls : ℕ → List Call → Htram E → Option (Htram E)
  unfolding call
  calls node_size [] h = some h
  calls node_size (c ∷ cs) h = elim (call node_size c h) [
    | none ↦ none
    | some h' ↦ calls node_size cs h'
  ]
