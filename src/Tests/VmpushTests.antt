-- ===== src/Tests/VmpushTests.antt =====
-- A delivery of the VictoriaMetrics writer that is stopped during a wait, and a log shipper that is
-- configured, fills its queue and is closed.
use speedtest_tracker.Base.{
  ℕ, ◌≤◌, ◌≡◌, refl, Bool, true, false, Option, none, some, List, [], ◌∷◌, arith, All,
}
use speedtest_tracker.Vmpush.{Counters, Attempt, deliver}
use speedtest_tracker.Vlpush.{Event, configures, handles, takes, ticks, drains}
use speedtest_tracker.Vmpush.Waits.{deliver-paced}
use speedtest_tracker.Vmpush.Counted.{deliver_ends}
use speedtest_tracker.Vmpush.Attempts.{IsEnded}

abbrev attempt : Option ℕ → Bool → Attempt
attempt answer cut_short = record {
  enabled = true;
  answer = answer;
  cancelled = false;
  cut_short = cut_short;
}

abbrev attempts : List Attempt
attempts =
    attempt none false
    ∷ attempt (some 503) false
    ∷ attempt (some 429) true
    ∷ attempt (some 500) false
    ∷ attempt (some 204) false
    ∷ []

abbrev no_counts : Counters
no_counts = record { pushed = 0; failed = 0; dropped = 0 }

deliver-paced_example :
    All (λ w. (200 ≤ w) × (w ≤ 60000)) (deliver 60000 200 attempts no_counts).waits
deliver-paced_example =
    deliver-paced 60000 200 attempts no_counts (omega arith) (omega arith) (omega arith)

deliver_ends_example :
    ((deliver 60000 200 attempts no_counts).is_over ≡ true)
    × IsEnded attempts no_counts (deliver 60000 200 attempts no_counts)
deliver_ends_example = deliver_ends 60000 200 attempts no_counts refl

abbrev log_events : List (Event ℕ)
log_events =
    handles 1
    ∷ configures true true
    ∷ handles 2
    ∷ handles 3
    ∷ handles 4
    ∷ takes 5 true
    ∷ takes 6 false
    ∷ handles 5
    ∷ ticks 9 true
    ∷ configures false true
    ∷ drains 12 true
    ∷ []
