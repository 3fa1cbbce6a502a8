-- ===== src/Htram/Lanes.antt =====
-- The invariant of a PE, and the rules for the loops over its destinations.
use htram.Prelude.{ℕ, ◌+◌, ◌≡◌, refl, List, [], ◌∷◌, All, sum_by, arith}
use htram.Env.{Env}
use htram.Hold.Measure.{held}
use htram.Port.{Port, Settings, Stats}
use htram.Port.Valid.{load, sent_load, contents, IsValid}
use htram.Htram.{Lane, Htram, lane_port, port_lane, for_lanes, over_lanes}

module _ {A : Type 0} where
  -- A destination is valid whatever the PE's statistics are.
  abbrev pub LaneIsValid : {E : Env A} → Settings E → Lane A → Type 0
  LaneIsValid s l = (st : Stats) → IsValid s (lane_port st l)

  -- Every destination of the PE is valid.
  abbrev pub PeIsValid : {E : Env A} → Htram E → Type 0
  PeIsValid h = All (LaneIsValid h.settings) h.lanes

  -- All that a destination, and a PE, was ever given: sent, buffered, or held.
  abbrev pub lane_contents : (A → ℕ) → Lane A → ℕ
  lane_contents w l = sent_load w l.sent + load w l.msg + held w l.hold

  abbrev pub pe_contents : {E : Env A} → (A → ℕ) → Htram E → ℕ
  pe_contents w h = sum_by (lane_contents w) h.lanes

  pub IsValid-lane :
      {E : Env A} {s : Settings E} (p : Port A) → IsValid s p → LaneIsValid s (port_lane p)
  IsValid-lane p v st = record {
    ready = record {
      room = v.ready.room;
      wide = v.ready.wide;
      exact = v.ready.exact;
      in_bounds = v.ready.in_bounds;
    };
    formed = v.formed;
    sound = v.sound;
  }

  pub contents-lane : (w : A → ℕ) (p : Port A) → contents w p ≡ lane_contents w (port_lane p)
  unfolding contents
  contents-lane w p = refl

  -- What one round makes of a lane.
  abbrev pub after : (Port A → Port A) → Stats → Lane A → Lane A
  after f st l = port_lane (f (lane_port st l))

  pub for_lanes-All {κ μ} :
      (P : Lane A → Type κ) (Q : Lane A → Type μ) (f : Port A → Port A)
      → ((st : Stats) (l : Lane A) → P l → Q (after f st l))
      → (st : Stats) (ls : List (Lane A)) → All P ls
      → All Q (for_lanes f st ls).1
  unfolding for_lanes
  for_lanes-All P Q f keep st [] v = tt
  for_lanes-All P Q f keep st (l ∷ ls) v =
      (keep st l v.0, for_lanes-All P Q f keep (f (lane_port st l)).stats ls v.1)

  pub for_lanes-sum {κ} :
      (P : Lane A → Type κ) (m : Lane A → ℕ) (f : Port A → Port A)
      → ((st : Stats) (l : Lane A) → P l → m (after f st l) ≡ m l)
      → (st : Stats) (ls : List (Lane A)) → All P ls
      → sum_by m (for_lanes f st ls).1 ≡ sum_by m ls
  unfolding for_lanes
  for_lanes-sum P m f keep st [] v = refl
  for_lanes-sum P m f keep st (l ∷ ls) v =
      omega (arith, keep st l v.0, for_lanes-sum P m f keep (f (lane_port st l)).stats ls v.1)

-- A loop over the destinations that gives each one a valid state with nothing lost.
module _ {A : Type 0} {E : Env A} (s s' : Settings E) (f : Port A → Port A)
    (keep : (p : Port A) → IsValid s p → IsValid s' (f p))
    (same : (w : A → ℕ) (p : Port A) → IsValid s p → contents w (f p) ≡ contents w p) where
  pub over_lanes-valid :
      (h : Htram E) → All (LaneIsValid s) h.lanes → All (LaneIsValid s') (over_lanes f h).lanes
  unfolding over_lanes
  over_lanes-valid h v =
      for_lanes-All (LaneIsValid s) (LaneIsValid s') f
        (λ st l k. IsValid-lane (f (lane_port st l)) (keep (lane_port st l) (k st))) h.stats h.lanes
        v

  pub over_lanes-contents :
      (w : A → ℕ) (h : Htram E)
      → All (LaneIsValid s) h.lanes
      → pe_contents w (over_lanes f h) ≡ pe_contents w h
  unfolding over_lanes
  over_lanes-contents w h v =
      for_lanes-sum (LaneIsValid s) (lane_contents w) f
        (λ st l k. unfold contents in same w (lane_port st l) (k st)) h.stats h.lanes v

-- An operation of the PE that leaves every destination valid under the settings then in force, and
-- loses and makes up nothing.
pub record PeKeeps {A : Type 0} {E : Env A} (h h' : Htram E) : Type 0 where
  pub valid : PeIsValid h'
  pub same : (w : A → ℕ) → pe_contents w h' ≡ pe_contents w h
