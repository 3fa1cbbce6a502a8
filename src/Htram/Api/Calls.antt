-- ===== src/Htram/Api/Calls.antt =====
-- A client's calls, one after another: nothing is lost, and every destination stays valid.
use htram.Prelude.{
  ℕ, zero, suc, ◌+◌, ◌≤◌, ◌<◌, ◌≡◌, refl, sym, ap, subst, pos, List, [], ◌∷◌, false, Option, none,
  some, length, replicate, length-replicate, ltb, leb, ◌&&◌, ◌⊎◌, dec_lt, inl, inr, Bool-cases, All,
  All-map_of, All-replicate, sum_by, arith, lt→ltb,
}
use htram.Env.{Env}
use htram.Message.{new_message}
use htram.Hold.{empty_hold, queue}
use htram.Hold.Measure.{held, admitted, admits, total-zero}
use htram.Hold.Valid.{empty_hold-IsFormed, waiting-empty_hold}
use htram.Port.{Port, Settings, Stats, wps, send_item_prio_deferred_dest}
use htram.Port.Valid.{contents}
use htram.Port.Send.{FloatLaws, send_item-Settled}
use htram.Htram.{Lane, Htram, lane_port, port_lane, bufsize, set_buffer_size}
use htram.Htram.Lanes.{LaneIsValid, PeIsValid, PeKeeps, lane_contents, pe_contents, IsValid-lane}
use htram.Htram.Threshold.{change_threshold-Rethresholded}
use htram.Htram.Resize.{Resized, set_buffer_size-Resized}
use htram.Htram.Flushed.{tflush-PeFlushed}
use htram.Htram.Stale.{flush_stale-StaleFlushed, flush_idle-IdleFlushed}
use htram.Htram.Api.{
  dest_node, at_lane, new_lane, new_htram, send_item, Call, send, set_threshold, resize, flush_all,
  stale, idle, call, calls,
}
use htram.Htram.Api.Shape.{
  SameShape, length-at_lane, trans, change_threshold-SameShape, tflush-SameShape,
  flush_stale-SameShape, flush_idle-SameShape, SameShapeIf, set_buffer_size-SameShape,
}

module _ {A : Type 0} where
  at_lane-All :
      (P : Lane A → Type 0) (f : Port A → Port A)
      → ((st : Stats) (l : Lane A) → P l → P (port_lane (f (lane_port st l))))
      → (d : ℕ) (st : Stats) (ls : List (Lane A)) → All P ls
      → All P (at_lane d f st ls).1
  unfolding at_lane
  at_lane-All P f keep d st [] v = tt
  at_lane-All P f keep zero st (l ∷ ls) v = (keep st l v.0, v.1)
  at_lane-All P f keep (suc d) st (l ∷ ls) v = (v.0, at_lane-All P f keep d st ls v.1)

  at_lane-sum :
      (P : Lane A → Type 0) (m : Lane A → ℕ) (n : ℕ) (f : Port A → Port A)
      → ((st : Stats) (l : Lane A) → P l → m (port_lane (f (lane_port st l))) ≡ m l + n)
      → (d : ℕ) (st : Stats) (ls : List (Lane A)) → All P ls
      → d < length ls
      → sum_by m (at_lane d f st ls).1 ≡ sum_by m ls + n
  unfolding at_lane
  at_lane-sum P m n f more d st [] v lt = absurd (omega arith)
  at_lane-sum P m n f more zero st (l ∷ ls) v lt = omega (arith, more st l v.0)
  at_lane-sum P m n f more (suc d) st (l ∷ ls) v lt =
      omega (arith, at_lane-sum P m n f more d st ls v.1 (omega arith))

module _ {A : Type 0} (E : Env A) (node_size : ℕ) where
  -- The calls that a PE accepts: a destination that exists, a bucket that exists, a buffer size
  -- within the bounds.
  unfoldable pub Accepts : Htram E → Call E → Type 0
  Accepts h (send x bucket dest_proc) =
      (dest_node h.settings.agg node_size dest_proc < length h.lanes)
      × (bucket < h.settings.histo_bucket_count)
  Accepts h (resize new_size) = (0 < new_size) × (new_size ≤ bufsize)
  Accepts h _ = Unit

  -- What a call gives the PE.
  abbrev pub given : (A → ℕ) → Call E → ℕ
  given w (send x bucket dest_proc) = w x
  given w _ = 0

  -- The outcome of calls: none fails, every destination is valid, and the PE holds and has sent what
  -- it did before and what it was given.
  pub record Done (total : (A → ℕ) → ℕ) (h h' : Htram E) : Type 0 where
    pub valid : PeIsValid h'
    pub shape : SameShape h h'
    pub grown : (w : A → ℕ) → pe_contents w h' ≡ pe_contents w h + total w

  abbrev Returns : ((A → ℕ) → ℕ) → Htram E → Option (Htram E) → Type 0
  Returns total h none = ⊥
  Returns total h (some h') = Done total h h'

  kept : {h h' : Htram E} → PeKeeps h h' → SameShape h h' → Done (λ w. 0) h h'
  kept k s = record { valid = k.valid; shape = s; grown = λ w. omega (arith, k.same w) }

  module _ (laws : FloatLaws E) where
    send_item-Returns :
        (x : A) (bucket dest_proc : ℕ) (h : Htram E)
        → PeIsValid h
        → Accepts h (send x bucket dest_proc)
        → Returns (λ w. w x) h (send_item E node_size x bucket dest_proc h)
    unfolding send_item Accepts
    send_item-Returns x bucket dest_proc h v ok =
        let s = h.settings in
        let d = dest_node s.agg node_size dest_proc in
        let f = send_item_prio_deferred_dest E s x bucket dest_proc in
        rw (lt→ltb d (length h.lanes) ok.0) (record {
          valid =
              at_lane-All (LaneIsValid s) f
                (λ st l k.
                  IsValid-lane (f (lane_port st l))
                    (send_item-Settled E s laws x bucket dest_proc (lane_port st l) (k st)
                      ok.1).gains.valid)
                d h.stats h.lanes v;
          shape = record { lanes = length-at_lane d f h.stats h.lanes; agg = refl; buckets = refl };
          grown = λ w.
              at_lane-sum (LaneIsValid s) (lane_contents w) (w x) f
                (λ st l k.
                  unfold contents in
                  (send_item-Settled E s laws x bucket dest_proc (lane_port st l) (k st)
                      ok.1).gains.gained
                    w)
                d h.stats h.lanes v ok.0;
        })

    resized :
        (new : ℕ) (h : Htram E) (o : Option (Htram E))
        → 0 < new
        → new ≤ bufsize
        → Resized E laws.mono new h o
        → SameShapeIf h o
        → Returns (λ w. 0) h o
    unfolding Resized
    resized new h none lt le r s = elim r [
      | inl e ↦ absurd (omega arith)
      | inr e ↦ absurd (omega arith)
    ]
    resized new h (some h') lt le r s = kept r.3 s

    call-Returns :
        (c : Call E) (h : Htram E)
        → PeIsValid h
        → Accepts h c
        → Returns (λ w. given w c) h (call E node_size c h)
    unfolding call Accepts
    call-Returns (send x bucket dest_proc) h v ok = send_item-Returns x bucket dest_proc h v ok
    call-Returns (set_threshold direct tram selectivity) h v ok =
        kept (change_threshold-Rethresholded E direct tram selectivity laws.mono h v).keeps
          (change_threshold-SameShape direct tram selectivity h)
    call-Returns (resize new) h v ok =
        resized new h (set_buffer_size E new h) ok.0 ok.1
          (set_buffer_size-Resized E laws.mono new h v) (set_buffer_size-SameShape new h)
    call-Returns flush_all h v ok = kept (tflush-PeFlushed E h v).keeps (tflush-SameShape h)
    call-Returns stale h v ok =
        kept (flush_stale-StaleFlushed E h v).keeps (flush_stale-SameShape h)
    call-Returns (idle now) h v ok =
        kept (flush_idle-IdleFlushed E now h v).keeps (flush_idle-SameShape now h)

    -- What is accepted depends on the shape alone.
    Accepts-SameShape : (h h' : Htram E) (c : Call E) → SameShape h h' → Accepts h c → Accepts h' c
    unfolding Accepts
    Accepts-SameShape h h' (send x bucket dest_proc) s ok = (
      subst (λ a. dest_node a node_size dest_proc < length h'.lanes) (sym s.agg)
          (omega (arith, s.lanes, ok.0)),
      omega (arith, s.buckets, ok.1),
    )
    Accepts-SameShape h h' (set_threshold _ _ _) s ok = tt
    Accepts-SameShape h h' (resize new) s ok = ok
    Accepts-SameShape h h' flush_all s ok = tt
    Accepts-SameShape h h' stale s ok = tt
    Accepts-SameShape h h' (idle _) s ok = tt

    -- Any list of calls that a valid PE accepts (sends to a destination and a bucket that exist,
    -- threshold changes, buffer sizes from 1 to BUFSIZE, and the three flushes) runs to its end
    -- without an abort. The PE that results is valid, has the same number of destinations and
    -- buckets and the same mode, and under every weighting of items what it has sent, buffered and
    -- held is what it had before together with what was sent: no item is lost, doubled or made up.
    -- The float comparisons of the release tests are assumed monotone and exclusive.
    pub calls-Done :
        (cs : List (Call E)) (h : Htram E)
        → PeIsValid h
        → All (Accepts h) cs
        → (h' : Htram E) × (calls E node_size cs h ≡ some h') × Done (λ w. sum_by (given w) cs) h h'
    unfolding calls
    calls-Done [] h v ok = (
      h,
      refl,
      record {
        valid = v;
        shape = record { lanes = refl; agg = refl; buckets = refl };
        grown = λ w. omega arith;
      },
    )
    calls-Done (c ∷ cs) h v ok =
        first (call E node_size c h) (call-Returns c h v ok.0) (calls-Done cs)
      where
        first :
            (o : Option (Htram E))
            → Returns (λ w. given w c) h o
            → ((g : Htram E)
                → PeIsValid g
                → All (Accepts g) cs
                → (h' : Htram E) × (calls E node_size cs g ≡ some h')
                  × Done (λ w. sum_by (given w) cs) g h')
            → (h' : Htram E) × ((elim o [ none ↦ none | some g ↦ calls E node_size cs g ])
                ≡ some h')
              × Done (λ w. sum_by (given w) (c ∷ cs)) h h'
        first none r rest = absurd r
        first (some g) r rest =
            let (h', e, d) = rest g r.valid (
              All-map_of (Accepts h) (Accepts g) cs (λ c a. Accepts-SameShape h g c r.shape a)
                ok.1) in
            (
              h',
              e,
              record {
                valid = d.valid;
                shape = trans r.shape d.shape;
                grown = λ w. omega (arith, d.grown w, r.grown w);
              },
            )

  -- A PE as the constructor leaves it.
  pub new_lane-LaneIsValid :
      (s : Settings E) → 0 < s.buf_size → LaneIsValid s (new_lane s.buf_size s.histo_bucket_count)
  unfolding new_lane admitted new_message queue
  new_lane-LaneIsValid s positive st = record {
    ready = record {
      room = positive;
      wide = omega arith;
      exact = ap pos (omega (arith, nothing));
      in_bounds = tt;
    };
    formed = empty_hold-IsFormed A s.histo_bucket_count;
    sound = λ c m. waiting-empty_hold A s.histo_bucket_count c;
  }
    where
      nothing : admitted s.tram_threshold (empty_hold {A = A} s.histo_bucket_count) ≡ 0
      nothing =
          total-zero (admits s.tram_threshold) (empty_hold {A = A} s.histo_bucket_count).queues 0
            λ i k e.
              ap (sum_by (admits s.tram_threshold k)) (waiting-empty_hold A s.histo_bucket_count i)

  -- The outcome of the constructor: the assertion fails, or the PE has the settings that the
  -- constructor gives it and a destination for each node.
  pub record IsNew (one : E.Float) (num_nodes buffer_size : ℕ) (h : Htram E) : Type 0 where
    pub some_room : 0 < buffer_size
    pub small : buffer_size ≤ bufsize
    pub settings : h.settings ≡ record {
      agg = wps;
      buf_size = buffer_size;
      histo_bucket_count = 2048;
      tram_threshold = pos 0;
      direct_threshold = pos 0;
      selectivity = one;
      release_level = E.times one buffer_size;
      done = false;
    }
    pub destinations : length h.lanes ≡ num_nodes
    pub valid : PeIsValid h
    pub bare : (w : A → ℕ) → pe_contents w h ≡ 0

  unfoldable pub Constructed : E.Float → ℕ → ℕ → Option (Htram E) → Type 0
  Constructed one num_nodes buffer_size none = (buffer_size ≡ 0) ⊎ (bufsize < buffer_size)
  Constructed one num_nodes buffer_size (some h) = IsNew one num_nodes buffer_size h

  empty_held : (w : A → ℕ) (buckets : ℕ) → held w (empty_hold {A = A} buckets) ≡ 0
  unfolding held queue
  empty_held w buckets =
      total-zero (λ b. w) (empty_hold {A = A} buckets).queues 0
        λ i k e. ap (sum_by w) (waiting-empty_hold A buckets i)

  empty_contents :
      (w : A → ℕ) (n buffer_size buckets : ℕ)
      → sum_by (lane_contents w) (replicate n (new_lane {A = A} buffer_size buckets)) ≡ 0
  unfolding new_lane new_message
  empty_contents w zero buffer_size buckets = refl
  empty_contents w (suc n) buffer_size buckets =
      omega (arith, empty_held w buckets, empty_contents w n buffer_size buckets)

  refused : (n : ℕ) → (ltb 0 n && leb n bufsize) ≡ false → (n ≡ 0) ⊎ (bufsize < n)
  refused n e = elim (dec_lt bufsize n) [ yes large ↦ inr large | no fits ↦ inl (ground arith) ]

  -- The constructor's assertion fails only for a buffer size of 0 or above BUFSIZE. Otherwise the
  -- size is from 1 to BUFSIZE, the settings of the PE are those the constructor gives it (mode WPs,
  -- the size asked for, 2048 buckets, both thresholds 0, and the release level of the selectivity
  -- and the size), it has one destination for each node, every destination is valid, and nothing is
  -- sent, buffered or held.
  pub new_htram-Constructed :
      (one : E.Float) (num_nodes buffer_size : ℕ)
      → Constructed one num_nodes buffer_size (new_htram E one num_nodes buffer_size)
  unfolding new_htram Constructed
  new_htram-Constructed one num_nodes buffer_size =
      elim (Bool-cases (ltb 0 buffer_size && leb buffer_size bufsize)) [
        | inr bad ↦ rw bad (refused buffer_size bad)
        | inl good ↦ rw good (record {
          some_room = ground arith;
          small = ground arith;
          settings = refl;
          destinations = length-replicate num_nodes (new_lane buffer_size 2048);
          valid =
              All-replicate (LaneIsValid _) num_nodes (new_lane buffer_size 2048)
                (new_lane-LaneIsValid _ (ground arith));
          bare = λ w. empty_contents w num_nodes buffer_size 2048;
        })
      ]
