-- ===== src/Flush.antt =====
-- htram_group.C, the flushes of one destination, in the graph build with combining off: flushDest,
-- and the three passes of tflush.
pub mod Drain
pub mod Rest
pub mod Whole
use htram.Prelude.{
  ℕ, zero, suc, ◌+◌, ◌/◌, ℤ, pos, negsuc, leb_ℤ, Bool, none, some, ◌==◌, ltb, ◌&&◌, if◌then◌else◌,
}
use htram.Env.{Env}
use htram.HoldQueue.{front, size}
use htram.Hold.{queue, hold_pop, hold_emptied, hold_take, sweep}
use htram.Message.{next}
use htram.Port.{
  Port, Settings, bits, count_sent, count_flush, release_items, put_item, post, ship_full,
}

-- The first bucket above a threshold. A threshold below -1 would read before the bitmap's words;
-- the library starts at 0 and its clients set it to a bucket or to -1.
abbrev pub first_above : ℤ → ℕ
first_above (pos t) = t + 1
first_above (negsuc t) = 0

module _ {A : Type 0} (E : Env A) (s : Settings E) where
  -- `while (!tram_hold[dest][i].empty())` of the drains, whose bit has been cleared before. The fuel
  -- is the queue's size.
  unfoldable pub drain_queue : ℕ → ℕ → Port A → Port A
  unfolding ship_full put_item count_sent hold_pop
  drain_queue i zero p = p
  drain_queue i (suc n) p = elim (front (queue p.hold i)) [
    | none ↦ p
    | some x ↦ drain_queue i n (
        ship_full E s count_sent (put_item x (E.dest_of x) (record p { hold = hold_pop i p.hold })))
  ]

  unfoldable pub drain_bucket : ℕ → Port A → Port A
  unfolding drain_queue hold_emptied
  drain_bucket i p =
      let q = record p { hold = hold_emptied i p.hold } in drain_queue i (size (queue q.hold i)) q

  -- `for (i = holdNext(dest, 0); i <= tram_threshold; …)`: everything admitted goes to the buffer.
  unfoldable pub drain_admitted : Port A → Port A
  unfolding drain_bucket
  drain_admitted p =
      sweep s.histo_bucket_count bits (λ i q. leb_ℤ (pos i) s.tram_threshold) drain_bucket
        s.histo_bucket_count 0 p

  -- The inner `while` of ADD_FILLERS: items of bucket `i` pad the buffer up to half its size.
  unfoldable pub fill_bucket : ℕ → ℕ → Port A → Port A
  unfolding put_item hold_take
  fill_bucket i zero p = p
  fill_bucket i (suc n) p = elim (front (queue p.hold i)) [
    | none ↦ p
    | some x ↦
        let rest =
          fill_bucket i n (put_item x (E.dest_of x) (record p { hold = hold_take i p.hold })) in
        if ltb (next p.msg) (s.buf_size / 2) then rest else p
  ]

  unfoldable pub add_fillers : Port A → Port A
  unfolding fill_bucket
  add_fillers p =
      sweep s.histo_bucket_count bits
        (λ i q. ltb i s.histo_bucket_count && ltb (next q.msg) (s.buf_size / 2))
        (λ i q. fill_bucket i (size (queue q.hold i)) q) s.histo_bucket_count
        (first_above s.tram_threshold) p

  -- The partial buffer leaves, padded. The count drops first: fillers were never counted.
  unfoldable pub flush_rest : Port A → Port A
  unfolding post add_fillers release_items count_sent
  flush_rest p =
      if next p.msg == 0 then p else post E s (count_sent (add_fillers (release_items p)))

  -- HTram::flushDest
  unfoldable pub flush_dest : Port A → Port A
  unfolding drain_admitted flush_rest
  flush_dest p = flush_rest (drain_admitted p)

  -- The first pass of tflush, modes WPs and WW: the partial buffer leaves as it is.
  -- `idleflush` is false at every call but the one that IDLE_FLUSH compiles in.
  unfoldable pub flush_partial : Bool → Port A → Port A
  unfolding post release_items count_flush
  flush_partial idleflush p =
      if idleflush
      then p
      else if next p.msg == 0
      then p
      else post E s (release_items (count_flush p))
