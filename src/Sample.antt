-- ===== src/Sample.antt =====
-- A small instance of the parameters, and states to run the operations on: payloads and floats are
-- numbers, nodes have two PEs, buffers four items and holds four buckets.
mod PortRuns
mod PeRuns
use htram.Prelude.{
  ℕ, zero, suc, ◌+◌, ◌*◌, ◌/◌, ◌≡◌, ◌≤ℤ◌, ℤ, pos, negsuc, leb_ℤ, ltb_ℤ, List, [], ◌∷◌, Bool, true,
  false, ◌==◌, not, arith,
}
use htram.Env.{Env}
use htram.Port.{wps, Stats, Port, Settings, send_item_prio_deferred_dest}
use htram.Port.Valid.{IsValid}
use htram.Port.Send.{FloatLaws, send_item-Settled}
use htram.Htram.{Lane, Htram, lane_port, port_lane}
use htram.Htram.Lanes.{PeIsValid, IsValid-lane}
use htram.Htram.Api.{new_lane, zero_stats}
use htram.Htram.Api.Calls.{new_lane-LaneIsValid}

abbrev pub env : Env ℕ
env = record {
  dest_of = λ x. x;
  Float = ℕ;
  times = λ a b. a * b;
  gt = λ a l. ltb_ℤ (pos l) a;
  ge = λ a l. leb_ℤ (pos l) a;
  lt = λ a l. ltb_ℤ a (pos l);
  same_float = λ a b. a == b;
  payload_offset = 16;
  item_size = 16;
  align = λ n. (n + 15) / 16 * 16;
}

mono : (a b : ℤ) (l : ℕ) → b ≤ℤ a → ltb_ℤ a (pos l) ≡ true → ltb_ℤ b (pos l) ≡ true
mono (pos a) (pos b) l le lt = ground arith
mono (pos a) (negsuc b) l le lt = ground arith
mono (negsuc a) (pos b) l le lt = ground arith
mono (negsuc a) (negsuc b) l le lt = ground arith

apart : (a : ℤ) (l : ℕ) → ltb_ℤ a (pos l) ≡ true → ltb_ℤ (pos l) a ≡ false
apart (pos a) l lt = ground arith
apart (negsuc a) l lt = ground arith

pub laws : FloatLaws env
laws = record { mono = mono; apart = apart }

-- Items of bucket 0 go direct, items of bucket 1 are admitted, the others wait.
abbrev pub settings : Settings env
settings = record {
  agg = wps;
  buf_size = 4;
  histo_bucket_count = 4;
  tram_threshold = pos 1;
  direct_threshold = pos 0;
  selectivity = 1;
  release_level = 4;
  done = true;
}

abbrev pub new_port : Port ℕ
new_port = lane_port zero_stats (new_lane 4 4)

-- One item in the buffer, one admitted, one above the threshold.
abbrev pub busy : Port ℕ
busy = send_item_prio_deferred_dest env settings 9 3 1 (
    send_item_prio_deferred_dest env settings 8 1 1
      (send_item_prio_deferred_dest env settings 7 0 0 new_port))

new_port-IsValid : IsValid settings new_port
new_port-IsValid = new_lane-LaneIsValid env 0 settings (omega arith) zero_stats

pub busy-IsValid : IsValid settings busy
busy-IsValid =
    let one =
      (send_item-Settled env settings laws 7 0 0 new_port new_port-IsValid
        (omega arith)).gains.valid in
    let two = (send_item-Settled env settings laws 8 1 1 _ one (omega arith)).gains.valid in
    (send_item-Settled env settings laws 9 3 1 _ two (omega arith)).gains.valid

-- Two nodes, the first one busy.
abbrev pub pe : Htram env
pe = record {
  settings = settings;
  lanes = port_lane busy ∷ new_lane 4 4 ∷ [];
  stats = zero_stats;
  idle_flush_interval = 0;
  last_idle_flush = negsuc 0;
}

pub pe-PeIsValid : PeIsValid pe
pe-PeIsValid =
    (IsValid-lane busy busy-IsValid, (new_lane-LaneIsValid env 0 settings (omega arith), tt))
