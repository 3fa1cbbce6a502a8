-- ===== src/Sample/PeRuns.antt =====
-- The operations of a PE at the sample state, and a client's calls on it.
use htram.Prelude.{◌≡◌, pos, List, [], ◌∷◌, false, some, All, sum_by, arith}
use htram.Htram.{Htram, set_buffer_size}
use htram.Htram.Resize.{Resized, set_buffer_size-Resized}
use htram.Htram.Flushes.{tflush, flush_stale, flush_idle, admitted_drift, pending_items}
use htram.Htram.Flushed.{LaneIsFlushed, PeFlushed, tflush-PeFlushed}
use htram.Htram.Stale.{
  StaleFlushed, flush_stale-StaleFlushed, IdleFlushed, flush_idle-IdleFlushed, flush_stale_twice,
}
use htram.Htram.Reports.{
  admitted_drift-zero, Reported, pending_items-Reported, count_buffers-flushed, count_buffers-zero,
}
use htram.Htram.Api.{new_htram, Call, send, set_threshold, resize, flush_all, stale, idle, calls}
use htram.Htram.Api.Calls.{Accepts, given, Done, calls-Done, Constructed, new_htram-Constructed}
use htram.Sample.{env, laws, pe, pe-PeIsValid}

abbrev a_run : List (Call env)
a_run =
    send 5 0 3
    ∷ send 6 2 1
    ∷ set_threshold (pos 0) (pos 2) 1
    ∷ resize 2
    ∷ stale
    ∷ idle 7
    ∷ flush_all
    ∷ []

a_run-Accepts : All (Accepts env 2 pe) a_run
unfolding Accepts
a_run-Accepts = (
  (omega arith, omega arith),
  ((omega arith, omega arith), (tt, ((omega arith, omega arith), (tt, (tt, (tt, tt)))))),
)

calls-Done_example :
    (h : Htram env) × (calls env 2 a_run pe ≡ some h)
    × Done env 2 (λ w. sum_by (given env 2 w) a_run) pe h
calls-Done_example = calls-Done env 2 laws a_run pe pe-PeIsValid a_run-Accepts

new_htram-Constructed_example : Constructed env 2 1 3 1024 (new_htram env 1 3 1024)
new_htram-Constructed_example = new_htram-Constructed env 2 1 3 1024

tflush-PeFlushed_example : PeFlushed env pe (tflush env false pe)
tflush-PeFlushed_example = tflush-PeFlushed env pe pe-PeIsValid

set_buffer_size-Resized_example : Resized env laws.mono 1 pe (set_buffer_size env 1 pe)
set_buffer_size-Resized_example = set_buffer_size-Resized env laws.mono 1 pe pe-PeIsValid

flush_stale-StaleFlushed_example : StaleFlushed env pe (flush_stale env pe)
flush_stale-StaleFlushed_example = flush_stale-StaleFlushed env pe pe-PeIsValid

flush_stale_twice_example :
    All (LaneIsFlushed pe.settings) (flush_stale env (flush_stale env pe)).lanes
flush_stale_twice_example = flush_stale_twice env pe pe-PeIsValid

flush_idle-IdleFlushed_example : IdleFlushed env 7 pe (flush_idle env 7 pe)
flush_idle-IdleFlushed_example = flush_idle-IdleFlushed env 7 pe pe-PeIsValid

admitted_drift-zero_example : admitted_drift pe.settings pe.lanes ≡ 0
admitted_drift-zero_example = admitted_drift-zero pe pe-PeIsValid

pending_items-Reported_example : Reported pe.settings pe.lanes (pending_items pe.settings pe.lanes)
pending_items-Reported_example = pending_items-Reported pe pe-PeIsValid

-- The sample PE after a flush.
abbrev quiet_pe : Htram env
quiet_pe = tflush env false pe

count_buffers-flushed_example : All (LaneIsFlushed quiet_pe.settings) quiet_pe.lanes
count_buffers-flushed_example =
    count_buffers-flushed quiet_pe (tflush-PeFlushed env pe pe-PeIsValid).keeps.valid
      (count_buffers-zero pe.settings quiet_pe.lanes (tflush-PeFlushed env pe pe-PeIsValid).flushed)
