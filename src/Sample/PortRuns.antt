-- ===== src/Sample/PortRuns.antt =====
-- The operations of one destination at the busy sample state.
use htram.Prelude.{pos, ◌+ℤ◌, arith}
use htram.Port.{insert_value_wps_to, insert_buckets_by_dest, send_item_prio_deferred_dest}
use htram.Port.Release.{Released, insert_buckets_by_dest-Released}
use htram.Port.Send.{Gains, insert_value_wps_to-Gains, Settled, send_item-Settled}
use htram.Port.Value.{Miscounts, insert_value, insert_value-Miscounts}
use htram.Flush.{drain_admitted, flush_dest}
use htram.Flush.Drain.{DrainsAdmitted, drain_admitted_lem}
use htram.Flush.Whole.{Flushed, flush_dest_lem}
use htram.Sample.{env, laws, settings, busy, busy-IsValid}

send_item-Settled_example :
    Settled env settings 6 busy (send_item_prio_deferred_dest env settings 6 0 1 busy)
send_item-Settled_example =
    send_item-Settled env settings laws 6 0 1 busy busy-IsValid (omega arith)

insert_value_wps_to-Gains_example :
    Gains env settings 6 busy
      (insert_value_wps_to env settings 6 1 (record busy { updates = busy.updates +ℤ pos 1 }))
insert_value_wps_to-Gains_example = insert_value_wps_to-Gains env settings 6 1 busy busy-IsValid

insert_buckets_by_dest-Released_example :
    Released env settings busy (insert_buckets_by_dest env settings settings.tram_threshold busy)
insert_buckets_by_dest-Released_example =
    insert_buckets_by_dest-Released env settings laws.mono busy busy-IsValid

drain_admitted_lem_example : DrainsAdmitted env settings busy (drain_admitted env settings busy)
drain_admitted_lem_example = drain_admitted_lem env settings busy busy-IsValid

flush_dest_lem_example : Flushed env settings busy (flush_dest env settings busy)
flush_dest_lem_example = flush_dest_lem env settings busy busy-IsValid

insert_value-Miscounts_example : Miscounts env settings 6 busy (insert_value env settings 6 1 busy)
insert_value-Miscounts_example = insert_value-Miscounts env settings 6 1 busy busy-IsValid
