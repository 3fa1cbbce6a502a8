-- ===== src/Combined.antt =====
-- htram_group.C with combining on: one destination, whose items wait in holds[d] until they leave in
-- a full buffer or a flush. No operation here reads or writes `tram_hold`, which the Port keeps as
-- enableCombining found it.
pub mod Admitted
pub mod Fill
pub mod Loops
pub mod Send
pub mod Recount
pub mod Tests
use htram.Prelude.{
  ℕ, zero, suc, ◌+◌, ◌-◌, ◌/◌, ℤ, pos, negsuc, ◌+ℤ◌, ◌-ℤ◌, leb_ℤ, eqb_ℤ, List, [], ◌∷◌, Bool, true,
  false, not, ◌&&◌, ltb, ◌==◌, ◌||◌, ltb_ℤ, Option, none, some, if◌then◌else◌,
}
use htram.Env.{Env}
use htram.Message.{Message, next, put}
use htram.Port.{Agg, wps, wsp, pp, ww, Port, Settings, release_items, ship_buffer}
use htram.Combine.{HoldOps, CombiningHold, InsertResult, init, insert, release, live_in}
use htram.Flush.{first_above}

pub record Combined (A : Type 0) : Type 0 where
  pub port : Port A
  pub held : CombiningHold A

-- `agg == WPs || agg == WW`
abbrev pub is_per_dest : Agg → Bool
is_per_dest wps = true
is_per_dest ww = true
is_per_dest wsp = false
is_per_dest pp = false

module _ {A : Type 0} (E : Env A) (s : Settings E) (ops : HoldOps A) where
  -- appendHeld, for each item that `release` emits.
  unfoldable pub append_held : List A → Message A → Message A
  append_held [] m = m
  append_held (x ∷ xs) m = append_held xs (put x (E.dest_of x) m)

  -- `holds[dest].release(high, limit, [&](void *item) { appendHeld(m, item); })`
  unfoldable pub fill : ℤ → ℕ → Combined A → Combined A
  unfolding append_held
  fill high limit p =
      let port = p.port in
      let (c, out) = release ops high limit p.held in
      record { port = record port { msg = append_held out port.msg }; held = c }

  -- `updates_in_tram[dest] -= m->next; shipBuffer(dest, full);`
  unfoldable pub ship : Bool → Combined A → Combined A
  ship full p = record p { port = ship_buffer E s full (release_items p.port) }

  -- The loop of releaseFull. A round that goes on ships an item of the hold at least.
  unfoldable pub release_full_loop : ℕ → Combined A → Combined A
  unfolding fill ship
  release_full_loop zero p = p
  release_full_loop (suc n) p =
      let q = fill s.tram_threshold (s.buf_size - next p.port.msg) p in
      let rest = release_full_loop n (ship true q) in
      if E.ge p.port.updates s.release_level
      then if ltb (next q.port.msg) s.buf_size then q else rest
      else p

  -- HTram::releaseFull
  unfoldable pub release_full : Combined A → Combined A
  unfolding release_full_loop
  release_full p = release_full_loop (suc p.held.count) p

  -- The admitted count follows an item that `insert` has placed or moved.
  unfoldable pub follow : InsertResult → ℤ → ℤ
  follow r updates =
      let admitted = leb_ℤ (pos r.new_bucket) s.tram_threshold in
      let was_admitted = leb_ℤ r.old_bucket s.tram_threshold in
      if not r.absorbed
      then if admitted then updates +ℤ pos 1 else updates
      else if not (eqb_ℤ r.old_bucket (pos r.new_bucket))
      then if admitted && not was_admitted
        then updates +ℤ pos 1
        else if was_admitted && not admitted
        then updates -ℤ pos 1
        else updates
      else updates

  -- sendItemPrioDeferredDest, combining on.
  unfoldable pub send_combined : A → ℕ → Combined A → Combined A
  unfolding follow release_full
  send_combined x bucket p =
      let port = p.port in
      let (c, r) = insert ops x bucket p.held in
      let q : Combined A = record {
        port = record port { updates = follow r port.updates };
        held = c;
      } in
      if E.ge q.port.updates s.release_level then release_full q else q

  -- The loop of flushDest.
  unfoldable pub flush_full_loop : ℕ → Combined A → Combined A
  unfolding fill ship
  flush_full_loop zero p = p
  flush_full_loop (suc n) p =
      let q = fill s.tram_threshold (s.buf_size - next p.port.msg) p in
      let rest = flush_full_loop n (ship false q) in
      if ltb (next q.port.msg) s.buf_size then q else rest

  -- `if (m->next < bufSize / 2) holds[dest].release(histo_bucket_count - 1, bufSize / 2 - m->next, ...);`
  unfoldable pub add_fillers : Combined A → Combined A
  unfolding fill
  add_fillers p =
      if ltb (next p.port.msg) (s.buf_size / 2)
      then fill (pos s.histo_bucket_count -ℤ pos 1) (s.buf_size / 2 - next p.port.msg) p
      else p

  -- HTram::flushDest, combining on.
  unfoldable pub flush_dest_combined : Combined A → Combined A
  unfolding flush_full_loop add_fillers
  flush_dest_combined p =
      let q = flush_full_loop (suc p.held.count) p in
      let r = add_fillers (record q { port = release_items q.port }) in
      if next q.port.msg == 0 then q else record r { port = ship_buffer E s false r.port }

  -- One destination of enableCombining, unless it was refused. That the items of `ops` have the
  -- library's type stands in the type of `ops`.
  unfoldable pub enable_combining : Port A → Option (Combined A)
  enable_combining port =
      if not (is_per_dest s.agg)
      then none
      else if not (eqb_ℤ port.updates (pos 0)) || not (next port.msg == 0)
      then none
      else some (record { port = port; held = init ops s.histo_bucket_count })

  -- The loops over `holds[k].live(i)` in changeThreshold: `n` buckets from `i` on, added or taken off.
  -- `none` is a read outside of live_.
  unfoldable pub add_live : ℕ → ℕ → CombiningHold A → ℤ → Option ℤ
  unfolding live_in
  add_live zero i c updates = some updates
  add_live (suc n) i c updates = elim (live_in ops i c) [
    | none ↦ none
    | some k ↦ add_live n (suc i) c (updates +ℤ pos k)
  ]

  unfoldable pub take_live : ℕ → ℕ → CombiningHold A → ℤ → Option ℤ
  unfolding live_in
  take_live zero i c updates = some updates
  take_live (suc n) i c updates = elim (live_in ops (i + n) c) [
    | none ↦ none
    | some k ↦ take_live n i c (updates -ℤ pos k)
  ]

  abbrev pub with_updates : Combined A → Option ℤ → Option (Combined A)
  with_updates p none = none
  with_updates p (some n) =
      let port = p.port in some (record p { port = record port { updates = n } })

  -- One destination of changeThreshold, combining on, from the threshold `old` to `new`. The loops
  -- read the buckets above the lower one, up to the higher one: below -1, that is a negative index.
  unfoldable pub recount_combined : ℤ → ℤ → Combined A → Option (Combined A)
  unfolding add_live take_live
  recount_combined old new p =
      if ltb_ℤ old new
      then with_updates p (
          if leb_ℤ (negsuc 0) old
          then add_live (first_above new - first_above old) (first_above old) p.held p.port.updates
          else none)
      else if ltb_ℤ new old
      then with_updates p (
          if leb_ℤ (negsuc 0) new
          then take_live (first_above old - first_above new) (first_above new) p.held p.port.updates
          else none)
      else some p
