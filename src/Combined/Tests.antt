-- ===== src/Combined/Tests.antt =====
-- One destination with combining on, at the sample parameters: numbers are their own keys.
use htram.Prelude.{
  ℕ, ◌+◌, ◌^◌, ◌<◌, ◌≡◌, refl, pos, none, some, List, false, All, All-get_or, arith,
}
use htram.Combine.{HoldOps, Entry, CombiningHold, blank_entry, insert, init}
use htram.Combine.Folds.{KeepsKey}
use htram.Combine.Whole.{HasStamps}
use htram.Combined.{Combined, send_combined, flush_dest_combined, recount_combined}
use htram.Combined.Fill.{IsReady}
use htram.Combined.Loops.{Emptied, flush_dest_combined-Emptied}
use htram.Combined.Send.{SentCombined, send_combined-SentCombined}
use htram.Combined.Recount.{Enabled, enable_combining-Enabled, counted_for, recount_combined_lem}
use htram.Htram.Api.{new_lane}
use htram.Sample.{env, settings, new_port}

-- Of two items of a key the held one survives.
abbrev keep_first : HoldOps ℕ
keep_first = record { key = λ x. x; combine = λ h x. (h, x, false); blank = 0 }

abbrev start : Combined ℕ
start = record { port = new_port; held = init keep_first 4 }

keep_first-KeepsKey : KeepsKey keep_first
keep_first-KeepsKey h x same = same

small_stamps :
    (c : CombiningHold ℕ)
    → All (λ (y : Entry ℕ). y.stamp + 1 < 2 ^ 32) c.pool
    → HasStamps keep_first c
small_stamps c v e =
    All-get_or (λ (y : Entry ℕ). y.stamp + 1 < 2 ^ 32) c.pool e (blank_entry keep_first) v
      (omega arith)

abbrev Small : List (Entry ℕ) → Type 0
Small pool = All (λ (y : Entry ℕ). y.stamp + 1 < 2 ^ 32) pool

enable_combining-Enabled_example : Enabled env settings keep_first new_port start
unfolding new_lane
enable_combining-Enabled_example =
    enable_combining-Enabled env settings keep_first new_port refl refl refl (omega arith)
      (omega arith) tt

start-IsReady : IsReady env settings keep_first start
unfolding new_lane
start-IsReady =
    (enable_combining-Enabled env settings keep_first new_port refl refl refl (omega arith)
      (omega arith) tt).ready

start-Small : Small start.held.pool
unfolding init
start-Small = tt

one-Small : Small (insert keep_first 6 1 start.held).0.pool
unfolding insert init
one-Small = (omega arith, tt)

abbrev one : Combined ℕ
one = send_combined env settings keep_first 6 1 start

send_combined-SentCombined_example : SentCombined env settings keep_first 6 1 start one
send_combined-SentCombined_example =
    send_combined-SentCombined env settings keep_first 6 1 start keep_first-KeepsKey start-IsReady
      (small_stamps start.held start-Small)
      (λ e here. small_stamps (insert keep_first 6 1 start.held).0 one-Small e) (omega arith)

one-IsReady : IsReady env settings keep_first one
one-IsReady =
    (send_combined-SentCombined env settings keep_first 6 1 start keep_first-KeepsKey start-IsReady
      (small_stamps start.held start-Small)
      (λ e here. small_stamps (insert keep_first 6 1 start.held).0 one-Small e) (omega arith)).ready

flush_dest_combined-Emptied_example :
    Emptied env settings keep_first one (flush_dest_combined env settings keep_first one)
flush_dest_combined-Emptied_example =
    flush_dest_combined-Emptied env settings keep_first one one-IsReady

recount_combined_lem_example :
    recount_combined env settings keep_first settings.tram_threshold (pos 3) one
    ≡ some (counted_for env settings keep_first (pos 3) one)
recount_combined_lem_example =
    recount_combined_lem env settings keep_first (pos 3) one
      (record { least = refl; most = omega arith }) (record { least = refl; most = omega arith })
      one-IsReady

-- A threshold past the last bucket.
recount_beyond :
    recount_combined env settings keep_first settings.tram_threshold (pos 4) start ≡ none
unfolding recount_combined init
recount_beyond = refl
