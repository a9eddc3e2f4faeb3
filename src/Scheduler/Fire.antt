-- ===== src/Scheduler/Fire.antt =====
-- fire and skip of internal/scheduler/scheduler.go over the runner, and the whole of Enqueue of
-- internal/runner/runner.go as they see it, when no other call comes between its parts. Between the
-- check of a fire and its Enqueue other calls may come.
pub mod Newest
pub mod Recorded
use speedtest_tracker.Base.{ℕ, String, Bool, Option, none, some, List, if◌then◌else◌}
use speedtest_tracker.Store.Runs.{insert_skipped_run, queued_run_for_schedule}
use speedtest_tracker.Runner.State.{Target, Runner}
use speedtest_tracker.Runner.Enqueue.{
  Reply, accepted, existing, no_targets, queue_full, shutting_down, store_error, open_request,
  commit,
}
use speedtest_tracker.Runner.Control.{perform_write}
use speedtest_tracker.Runner.System.{Action, run}

-- The final write that Enqueue makes before it returns an error, where it makes one.
pub settle_reply : Bool × Bool → ℕ → ℕ → Runner → Option Reply → Runner × Reply
settle_reply faults now id r none = (r, store_error)
settle_reply faults now id r (some shutting_down) = (perform_write faults now id r, shutting_down)
settle_reply faults now id r (some queue_full) = (perform_write faults now id r, queue_full)
settle_reply faults now id r (some reply) = (r, reply)

after_open : Bool × Bool → ℕ → ℕ → Runner → Option Reply → Runner × Reply
unfolding settle_reply
after_open faults now id r (some reply) = (r, reply)
after_open faults now id r none =
    let (r', reply) = commit id r in settle_reply faults now id r' reply

-- Enqueue: a run that it creates has the next id of the table.
unfoldable pub enqueue :
    Bool → Bool × Bool → ℕ → String → Option ℕ → List Target → Runner → Runner × Reply
unfolding after_open
enqueue fault faults now trigger schedule listed r =
    let (r', reply) = open_request fault trigger schedule listed r in
    after_open faults now r.table.next_id r' reply

-- What a fire ends in.
pub data Fired : Type 0 where
  started : ℕ → Fired
  skipped_for : String → Fired
  lookup_failed enqueue_failed : Fired

-- The store faults that one fire meets.
pub record FireFaults : Type 0 where
  pub lookup : Bool
  pub enqueue : Bool
  pub write : Bool × Bool
  pub insert : Bool

-- skip: a row that cannot be written is only logged.
pub skip : Bool → ℕ → ℕ → String → Runner → Runner × Fired
skip fault now schedule reason r = if fault then (r, skipped_for reason) else (
  record r { table = (insert_skipped_run now schedule reason r.table).0 },
  skipped_for reason,
)

pub after_enqueue : Bool → ℕ → ℕ → Runner → Reply → Runner × Fired
unfolding skip
after_enqueue fault now schedule r (accepted id) = (r, started id)
after_enqueue fault now schedule r (existing id) = (r, started id)
after_enqueue fault now schedule r queue_full = skip fault now schedule "queue full" r
after_enqueue fault now schedule r no_targets = skip fault now schedule "no runnable targets" r
after_enqueue fault now schedule r shutting_down = skip fault now schedule "server shutting down" r
after_enqueue fault now schedule r store_error = (r, enqueue_failed)

-- The fire once the dedupe check is made.
fire_checked : (ℕ → String) → FireFaults → ℕ → ℕ → List Target → Runner → Option ℕ → Runner × Fired
unfolding skip enqueue after_enqueue
fire_checked in_flight faults now schedule listed r (some prev) =
    skip faults.insert now schedule (in_flight prev) r
fire_checked in_flight faults now schedule listed r none =
    let (r', reply) = enqueue faults.enqueue faults.write now "cron" (some schedule) listed r in
    after_enqueue faults.insert now schedule r' reply

-- fire: `in_flight` formats the reason "previous run %d still in flight", `listed` is what the store
-- lists for the target ids of the schedule, and `others` are the steps of the runner, by other
-- calls, that come between the check and the Enqueue or the skip.
unfoldable pub fire :
    (ℕ → String) → FireFaults → List Action → ℕ → ℕ → List Target → Runner → Runner × Fired
unfolding fire_checked run
fire in_flight faults others now schedule listed r =
    if faults.lookup
    then (run r others, lookup_failed)
    else fire_checked in_flight faults now schedule listed (run r others)
        (queued_run_for_schedule schedule r.table)
