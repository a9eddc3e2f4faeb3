-- ===== src/Tests/SchedulerTests.antt =====
-- The scheduler at concrete inputs.
use speedtest_tracker.Base.{
  ℕ, ◌+◌, ◌≤◌, String, ◌≡◌, ◌⊎◌, refl, Bool, true, false, Option, none, some, List, [], ◌∷◌, arith,
  find, is_none,
}
use speedtest_tracker.Store.Runs.{queued_run_for_schedule}
use speedtest_tracker.Store.Runs.Active.{count_active}
use speedtest_tracker.Runner.State.{Target}
use speedtest_tracker.Runner.System.{Action, new, opens, commits, starts, run}
use speedtest_tracker.Scheduler.Overlap.{
  Next, OverlapCandidate, overlap_threshold, nearest_collision, find_overlaps,
}
use speedtest_tracker.Scheduler.Overlap.Collision.{IsLater, near_any, nearest_collision_lem}
use speedtest_tracker.Scheduler.Overlap.Expected.{expected_warnings}
use speedtest_tracker.Scheduler.Overlap.Warnings.{find_overlaps_lem}
use speedtest_tracker.Scheduler.Fire.{FireFaults, started, fire}
use speedtest_tracker.Scheduler.Fire.Newest.{IsNewest}
use speedtest_tracker.Scheduler.Fire.Recorded.{
  Event, acts, fires, run_events, IsJoined, runs_never_pile_up, fire_is_recorded,
}
use speedtest_tracker.Scheduler.Reload
use speedtest_tracker.Scheduler.Reload.Instances.{opt_is, may_run, are_serial, only_current_runs}
use speedtest_tracker.Scheduler.Reload.Entries.{runnable_with, next_lem}

-- Every 8 hours, whatever the spec says.
abbrev eight_hours : Next
eight_hours t = some (t + 28800000000000)

abbrev every_8h : String → String → Option Next
every_8h cron zone = some eight_hours

every_8h-IsLater :
    (cron zone : String) (next : Next) → every_8h cron zone ≡ some next → IsLater next
every_8h-IsLater cron zone next e from at h = ground arith

abbrev nightly : OverlapCandidate
nightly = record {
  id = 1;
  name = "nightly";
  cron = "0 */8 * * *";
  timezone = "UTC";
  queues = "wan" ∷ [];
}

abbrev hourly : OverlapCandidate
hourly = record {
  id = 2;
  name = "hourly";
  cron = "0 * * * *";
  timezone = "UTC";
  queues = "lan" ∷ "wan" ∷ [];
}

collision_test :
    nearest_collision (100 ∷ 200000000000 ∷ []) (90000000000 ∷ 230000000000 ∷ [])
    ≡ some 200000000000
unfolding nearest_collision
collision_test = refl

nearest_collision_lem_example :
    nearest_collision (100 ∷ 200000000000 ∷ []) (90000000000 ∷ 230000000000 ∷ [])
    ≡ find (near_any overlap_threshold (90000000000 ∷ 230000000000 ∷ [])) (100 ∷ 200000000000 ∷ [])
nearest_collision_lem_example =
    nearest_collision_lem (100 ∷ 200000000000 ∷ []) (90000000000 ∷ 230000000000 ∷ [])
      ((omega arith, tt), (tt, tt)) ((omega arith, tt), (tt, tt))

find_overlaps_lem_example :
    find_overlaps every_8h nightly (hourly ∷ nightly ∷ []) 0
    ≡ expected_warnings every_8h nightly (hourly ∷ nightly ∷ []) 0
find_overlaps_lem_example =
    find_overlaps_lem every_8h every_8h-IsLater nightly (hourly ∷ nightly ∷ []) 0

abbrev target : Target
target = record {
  id = 5;
  name = "isp";
  engine = "ookla";
  enabled = true;
  queue_id = 1;
  queue_name = "wan";
}

abbrev calm : FireFaults
calm = record { lookup = false; enqueue = false; write = (false, false); insert = false }

abbrev in_flight : ℕ → String
in_flight prev = "previous run still in flight"

-- A user starts a run of the schedule between the check of its second fire and the Enqueue.
abbrev started_by_user : List Action
started_by_user = opens false "manual" (some 9) (target ∷ []) ∷ commits 1 ∷ []

abbrev two_fires : List Event
two_fires =
    acts starts
    ∷ fires calm started_by_user 100 9 (target ∷ [])
    ∷ fires calm [] 200 9 (target ∷ [])
    ∷ []

runs_never_pile_up_example : count_active 9 (run_events in_flight two_fires (new 4)).table.rows ≤ 1
runs_never_pile_up_example = runs_never_pile_up in_flight two_fires 4 9

joined_test : (fire in_flight calm started_by_user 100 9 (target ∷ []) (new 4)).1 ≡ started 1
unfolding fire new queued_run_for_schedule
joined_test = refl

fire_is_recorded_example :
    IsNewest 9
      (run (new 4) started_by_user).table.next_id
      (fire in_flight calm started_by_user 100 9 (target ∷ []) (new 4)).0.table
    ⊎ IsJoined 9
        (new 4)
        (run (new 4) started_by_user)
        (fire in_flight calm started_by_user 100 9 (target ∷ []) (new 4))
fire_is_recorded_example =
    fire_is_recorded in_flight (false, false) started_by_user 100 9 (target ∷ []) (new 4)

abbrev parses : String → String → Bool
parses cron zone = true

abbrev night : Reload.Schedule
night = record {
  id = 1;
  name = "nightly";
  cron = "0 3 * * *";
  timezone = "UTC";
  enabled = true;
  target_ids = 5 ∷ [];
}

abbrev two_reloads : List Reload.Action
two_reloads =
    Reload.reloads (some (night ∷ []))
    ∷ Reload.starts
    ∷ Reload.reloads (some [])
    ∷ Reload.starts
    ∷ Reload.stops
    ∷ []

only_current_runs_example :
    let s = Reload.run parses two_reloads Reload.fresh in
    (s.running 1 ≡ true → may_run s 1 ≡ true)
    × (opt_is s.cron 1 ≡ true → is_none s.tail ≡ true → s.running 1 ≡ true)
unfolding are_serial Reload.fresh Reload.step
only_current_runs_example = only_current_runs parses two_reloads 1 refl

-- A Stop between the swap of a Reload and its Start leaves the new instance running.
late_stop_test :
    (Reload.run parses
        (Reload.reloads (some (night ∷ [])) ∷ Reload.stops ∷ Reload.halts ∷ Reload.starts ∷ [])
        Reload.fresh).running
      0
    ≡ true
unfolding Reload.run Reload.fresh
late_stop_test = refl

next_lem_example :
    (Reload.fresh.stopped ≡ false
      → Reload.next
          (λ c sc. some 7)
          1
          (Reload.start_next (Reload.reload parses (some (night ∷ [])) Reload.fresh))
        ≡ (elim (runnable_with parses 1 (night ∷ [])) [ none ↦ none | some sc ↦ some 7 ]))
    × (Reload.next
          (λ c sc. some 7)
          1
          (Reload.start_next (Reload.reload parses (some (night ∷ [])) (Reload.stop Reload.fresh)))
        ≡ none)
unfolding Reload.fresh
next_lem_example = next_lem parses (λ c sc. some 7) (night ∷ []) Reload.fresh 1 (tt, tt) refl
