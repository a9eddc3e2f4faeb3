-- ===== src/Scheduler/Fire/Recorded.antt =====
-- What the fires of internal/scheduler/scheduler.go leave in the runs table.
use speedtest_tracker.Base.{
  ℕ, ◌≤◌, String, ◌≡◌, ◌⊎◌, inl, inr, refl, Bool, false, Option, none, some, List, [], ◌∷◌, arith,
}
use speedtest_tracker.Store.Runs.{RunTable, insert_skipped_run, queued_run_for_schedule}
use speedtest_tracker.Store.Runs.Active.{count_active}
use speedtest_tracker.Runner.State.{Target, Runner}
use speedtest_tracker.Runner.Grouping.{filter_runnable}
use speedtest_tracker.Runner.Enqueue.{
  Reply, no_targets, queue_full, shutting_down, open_request, commit,
}
use speedtest_tracker.Runner.System.{new, Action, step, run}
use speedtest_tracker.Runner.System.Dedupe.{
  IsSingle, open_request-IsSingle, commit-IsSingle, write-IsSingle, step-IsSingle, run-IsSingle,
}
use speedtest_tracker.Scheduler.Fire.Newest.{
  IsNewest, skip-IsNewest, opened, settled, open_nothing, open_free, open_busy,
}
use speedtest_tracker.Scheduler.Fire.{
  Fired, started, FireFaults, settle_reply, after_open, enqueue, skip, after_enqueue, fire_checked,
  fire,
}

count_active-insert_skipped_run :
    (s now schedule : ℕ) (reason : String) (t : RunTable)
    → count_active s (insert_skipped_run now schedule reason t).0.rows ≡ count_active s t.rows
unfolding insert_skipped_run
count_active-insert_skipped_run s now schedule reason t = ground arith

module _ (s : ℕ) where
  settle_reply-IsSingle :
      (faults : Bool × Bool) (now id : ℕ) (r : Runner) (reply : Option Reply)
      → IsSingle s r
      → IsSingle s (settle_reply faults now id r reply).0
  unfolding settle_reply
  settle_reply-IsSingle faults now id r none h = h
  settle_reply-IsSingle faults now id r (some shutting_down) h = write-IsSingle s faults now id r h
  settle_reply-IsSingle faults now id r (some queue_full) h = write-IsSingle s faults now id r h
  settle_reply-IsSingle faults now id r (some _) h = h

  after_open-IsSingle :
      (faults : Bool × Bool) (now id : ℕ) (r : Runner) (reply : Option Reply)
      → IsSingle s r
      → IsSingle s (after_open faults now id r reply).0
  unfolding after_open
  after_open-IsSingle faults now id r (some reply) h = h
  after_open-IsSingle faults now id r none h =
      settle_reply-IsSingle faults now id (commit id r).0 (commit id r).1 (commit-IsSingle s id r h)

  enqueue-IsSingle :
      (fault : Bool) (faults : Bool × Bool) (now : ℕ) (trigger : String) (sc : Option ℕ)
      (listed : List Target) (r : Runner)
      → IsSingle s r
      → IsSingle s (enqueue fault faults now trigger sc listed r).0
  unfolding enqueue
  enqueue-IsSingle fault faults now trigger sc listed r h =
      after_open-IsSingle faults now r.table.next_id (open_request fault trigger sc listed r).0
        (open_request fault trigger sc listed r).1
        (open_request-IsSingle s fault trigger sc listed r h)

  skip-IsSingle :
      (fault : Bool) (now schedule : ℕ) (reason : String) (r : Runner)
      → IsSingle s r
      → IsSingle s (skip fault now schedule reason r).0
  unfolding skip
  skip-IsSingle fault now schedule reason r h =
      ground (arith, count_active-insert_skipped_run s now schedule reason r.table)

  after_enqueue-IsSingle :
      (fault : Bool) (now schedule : ℕ) (r : Runner) (reply : Reply)
      → IsSingle s r
      → IsSingle s (after_enqueue fault now schedule r reply).0
  unfolding after_enqueue
  after_enqueue-IsSingle fault now schedule r queue_full h =
      skip-IsSingle fault now schedule "queue full" r h
  after_enqueue-IsSingle fault now schedule r no_targets h =
      skip-IsSingle fault now schedule "no runnable targets" r h
  after_enqueue-IsSingle fault now schedule r shutting_down h =
      skip-IsSingle fault now schedule "server shutting down" r h
  after_enqueue-IsSingle fault now schedule r _ h = h

  fire_checked-IsSingle :
      (in_flight : ℕ → String) (faults : FireFaults) (now schedule : ℕ) (listed : List Target)
      (r : Runner) (prev : Option ℕ)
      → IsSingle s r
      → IsSingle s (fire_checked in_flight faults now schedule listed r prev).0
  unfolding fire_checked
  fire_checked-IsSingle in_flight faults now schedule listed r (some prev) h =
      skip-IsSingle faults.insert now schedule (in_flight prev) r h
  fire_checked-IsSingle in_flight faults now schedule listed r none h =
      let (r', reply) = enqueue faults.enqueue faults.write now "cron" (some schedule) listed r in
      after_enqueue-IsSingle faults.insert now schedule r' reply
        (enqueue-IsSingle faults.enqueue faults.write now "cron" (some schedule) listed r h)

  fire-IsSingle :
      (in_flight : ℕ → String) (faults : FireFaults) (others : List Action) (now schedule : ℕ)
      (listed : List Target) (r : Runner)
      → IsSingle s r
      → IsSingle s (fire in_flight faults others now schedule listed r).0
  unfolding fire
  fire-IsSingle in_flight faults others now schedule listed r h =
      let later = run-IsSingle s others r h in
      let checked =
        fire_checked-IsSingle in_flight faults now schedule listed (run r others)
          (queued_run_for_schedule schedule r.table) later in
      ground arith

-- What happens to the runner and the table when schedules fire: any step of the runner, also those
-- of runs that users start, or a fire, with the
-- steps of the runner between its parts.
pub data Event : Type 0 where
  acts : Action → Event
  fires : FireFaults → List Action → ℕ → ℕ → List Target → Event

unfoldable pub run_events : (ℕ → String) → List Event → Runner → Runner
run_events in_flight [] r = r
run_events in_flight (acts a ∷ es) r = run_events in_flight es (step a r)
run_events in_flight (fires faults others now schedule listed ∷ es) r =
    run_events in_flight es (fire in_flight faults others now schedule listed r).0

-- Over any steps of the runner, also for runs that users start, and any fires of schedules, with
-- such steps between the check of a fire and its Enqueue, whatever store call fails: a schedule never has more than one run that waits or runs.
pub runs_never_pile_up :
    (in_flight : ℕ → String) (es : List Event) (capacity schedule : ℕ)
    → count_active schedule (run_events in_flight es (new capacity)).table.rows ≤ 1
unfolding new run_events
runs_never_pile_up in_flight es capacity schedule = go es (new capacity) (omega arith)
  where
    go :
        (es : List Event) (r : Runner)
        → IsSingle schedule r
        → IsSingle schedule (run_events in_flight es r)
    go [] r h = h
    go (acts a ∷ es) r h = go es (step a r) (step-IsSingle schedule a r h)
    go (fires faults others now sc listed ∷ es) r h =
        go es (fire in_flight faults others now sc listed r).0
          (fire-IsSingle schedule in_flight faults others now sc listed r h)

-- The fire has found no active run of the schedule, but by its Enqueue there is one: it answers with
-- that run and changes nothing.
abbrev pub IsJoined : ℕ → Runner → Runner → Runner × Fired → Type 0
IsJoined schedule r r' (after, fired) =
    (id : ℕ) × (queued_run_for_schedule schedule r.table ≡ none)
    × (queued_run_for_schedule schedule r'.table ≡ some id)
    × (fired ≡ started id)
    × (after ≡ r')

module _ (in_flight : ℕ → String) (writes : Bool × Bool) (now schedule : ℕ) (listed : List Target)
    (r : Runner) where
  abbrev faults : FireFaults
  faults = record { lookup = false; enqueue = false; write = writes; insert = false }

  recorded :
      (r' : Runner) (prev : Option ℕ)
      → queued_run_for_schedule schedule r.table ≡ prev
      → IsNewest schedule r'.table.next_id
          (fire_checked in_flight faults now schedule listed r' prev).0.table
        ⊎ IsJoined schedule r r' (fire_checked in_flight faults now schedule listed r' prev)
  unfolding fire_checked enqueue after_open after_enqueue
  recorded r' (some prev) busy =
      inl (skip-IsNewest now schedule r'.table.next_id (in_flight prev) r' (omega arith))
  recorded r' none free =
      go (queued_run_for_schedule schedule r'.table) (filter_runnable listed "cron") refl refl
    where
      go :
          (now_active : Option ℕ) (us : List Target)
          → queued_run_for_schedule schedule r'.table ≡ now_active
          → filter_runnable listed "cron" ≡ us
          → IsNewest schedule r'.table.next_id
              (fire_checked in_flight faults now schedule listed r' none).0.table
            ⊎ IsJoined schedule r r' (fire_checked in_flight faults now schedule listed r' none)
      go now_active [] e f =
          rw (open_nothing schedule listed r' f) (
            inl
              (skip-IsNewest now schedule r'.table.next_id "no runnable targets" r' (omega arith)))
      go (some id) (u ∷ us) e f =
          rw (open_busy schedule listed r' u us id e f) (inr (id, free, e, refl, refl))
      go none (u ∷ us) e f =
          let reply = (commit r'.table.next_id (opened now schedule writes (u ∷ us) r')).1 in
          let creates = open_free schedule listed r' u us e f in
          rw creates (inl (settled now schedule writes (u ∷ us) r' reply))

-- While the store answers the check, the Enqueue and the insert of the skipped row, and whatever the
-- runner does for other calls between the check and the Enqueue, no fire goes unrecorded, whatever
-- its final writes meet: either the newest row afterwards was added by this fire and belongs to the
-- schedule, or another call has started a run of the schedule since the check, and the fire answers
-- with that run.
pub fire_is_recorded :
    (in_flight : ℕ → String) (writes : Bool × Bool) (others : List Action) (now schedule : ℕ)
    (listed : List Target) (r : Runner)
    → let result =
        fire in_flight
          (record { lookup = false; enqueue = false; write = writes; insert = false })
          others
          now
          schedule
          listed
          r in
      IsNewest schedule (run r others).table.next_id result.0.table
      ⊎ IsJoined schedule r (run r others) result
unfolding fire
fire_is_recorded in_flight writes others now schedule listed r =
    recorded in_flight writes now schedule listed r (run r others)
      (queued_run_for_schedule schedule r.table) refl
