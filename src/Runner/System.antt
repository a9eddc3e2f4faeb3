-- ===== src/Runner/System.antt =====
-- Everything that can happen to a runner: one constructor to a critical section or store call of
-- internal/runner/runner.go, in any order, with any faults of the store and any test outcomes.
pub mod Ownership
pub mod Verdict
pub mod Pending
pub mod Dedupe
use speedtest_tracker.Base.{
  ℕ, String, Bool, true, false, Option, none, List, [], ◌∷◌, ◌==◌, if◌then◌else◌,
}
use speedtest_tracker.Store.Runs.{empty, create_run, set_run_status}
use speedtest_tracker.Runner.State.Status.{set_status}
use speedtest_tracker.Runner.Grouping.{filter_runnable, group_by_queue}
use speedtest_tracker.Runner.State.{Target, Creating, Write, Runner}
use speedtest_tracker.Runner.Enqueue.{
  open_request, commit, busy_run, open_run, queue_chans, queue_chan, send_jobs,
}
use speedtest_tracker.Runner.Execute.{Outcome, dequeue, begin, announce, test_next, recover, finish}
use speedtest_tracker.Runner.Control.{
  cancel, perform_write, start, close_queues, cancel_all, claim_for_force_cancel,
}

-- New, on an empty store, with a positive queue capacity as New makes it.
unfoldable pub new : ℕ → Runner
new capacity = record {
  queue_cap = if capacity == 0 then 32 else capacity;
  table = empty;
  results = [];
  lanes = [];
  runs = λ id. none;
  finalizing = λ id. false;
  creating = λ id. [];
  writes = λ id. [];
  ctx_done = λ id. false;
  closing = false;
  started = false;
  events = [];
}

pub data Action : Type 0 where
  starts closes cancels_all : Action
  opens : Bool → String → Option ℕ → List Target → Action
  commits claims : ℕ → Action
  dequeues begins finishes : ℕ → Action
  announces : Bool × Bool → ℕ → ℕ → Action
  tests : Outcome → Bool → ℕ → Action
  recovers : Bool → Bool → ℕ → Action
  cancels writes : Bool × Bool → ℕ → ℕ → Action

-- Shutdown claims runs only after it has closed the queues.
unfoldable pub step : Action → Runner → Runner
unfolding start close_queues cancel_all open_request commit claim_for_force_cancel dequeue begin
    finish announce test_next recover cancel perform_write
step starts r = start r
step closes r = close_queues r
step cancels_all r = cancel_all r
step (opens fault trigger schedule targets) r = (open_request fault trigger schedule targets r).0
step (commits id) r = (commit id r).0
step (claims id) r = if r.closing then (claim_for_force_cancel id r).0 else r
step (dequeues q) r = dequeue q r
step (begins q) r = begin q r
step (finishes q) r = finish q r
step (announces faults now q) r = announce faults now q r
step (tests outcome stored q) r = test_next outcome stored q r
step (recovers row_written stored q) r = recover row_written stored q r
step (cancels faults now id) r = (cancel faults now id r).0
step (writes faults now id) r = perform_write faults now id r

unfoldable pub run : Runner → List Action → Runner
unfolding step filter_runnable group_by_queue busy_run open_run queue_chans queue_chan send_jobs
    create_run set_run_status set_status
run r [] = r
run r (a ∷ rest) = run (step a r) rest
