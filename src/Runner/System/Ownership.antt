-- ===== src/Runner/System/Ownership.antt =====
-- Who may write the final status of a run, over every behaviour of internal/runner/runner.go.

use speedtest_tracker.Base.{
  ℕ, ◌+◌, ◌≤◌, ◌<◌, String, ◌≡◌, refl, Bool, true, Option, List, [], ◌∷◌, inl, inr, arith, bit,
  is_some, length, Option-cases,
}
use speedtest_tracker.Store.Runs.{RunStatus, running, create_run}
use speedtest_tracker.Store.Runs.Status.{IsTable, status_at, is_active, status_at_fresh}
use speedtest_tracker.Runner.State.{Target, Worker, announcing, Write, Runner, find_lane}
use speedtest_tracker.Runner.State.Status.{
  attempt-IsTable, status-attempt, set_status-IsTable, status-set_status,
}
use speedtest_tracker.Runner.Enqueue.{open_run, open_request, commit}
use speedtest_tracker.Runner.Execute.{
  Outcome, worker_of, begin, announce, test_next, recover, finish, mark_target_done,
}
use speedtest_tracker.Runner.Control.{cancel, perform_write, cancel_all, claim_for_force_cancel}
use speedtest_tracker.Runner.Grouping.{filter_runnable}
use speedtest_tracker.Runner.System.{
  new, Action, starts, closes, cancels_all, opens, commits, claims, dequeues, begins, finishes,
  announces, tests, recovers, cancels, writes, step, run,
}

-- The goroutines that hold the right to resolve the run: an Enqueue that is creating it, the
-- runner's map while queues work on it, and each claimed write that has not reached the store.
abbrev pub owners : Runner → ℕ → ℕ
owners r id = length (r.creating id) + bit (is_some (r.runs id)) + length (r.writes id)

pub record IsOwned (r : Runner) (id : ℕ) : Type 0 where
  pub table : IsTable r.table
  pub once : owners r id ≤ 1
  pub guarded : length (r.creating id) + length (r.writes id) ≤ bit (r.finalizing id)
  pub active : 0 < owners r id → is_active (status_at id r.table.rows) ≡ true

-- One change at the fields that the invariant reads.
open_run-IsOwned :
    (trigger : String) (s : Option ℕ) (ts : List Target) (r : Runner) (id : ℕ)
    → IsOwned r id
    → IsOwned (open_run trigger s ts r) id
unfolding open_run create_run
open_run-IsOwned trigger s ts r id v =
    ground (arith, status_at_fresh r.table.rows r.table.next_id id v.table)

commit-IsOwned : (k : ℕ) (r : Runner) (id : ℕ) → IsOwned r id → IsOwned (commit k r).0 id
unfolding commit
commit-IsOwned k r id v = ground arith

begin-IsOwned : (q : ℕ) (r : Runner) (id : ℕ) → IsOwned r id → IsOwned (begin q r) id
unfolding begin
begin-IsOwned q r id v = ground arith

mark-IsOwned : (k : ℕ) (r : Runner) (id : ℕ) → IsOwned r id → IsOwned (mark_target_done k r) id
unfolding mark_target_done
mark-IsOwned k r id v = ground arith

finish-IsOwned : (q : ℕ) (r : Runner) (id : ℕ) → IsOwned r id → IsOwned (finish q r) id
unfolding finish
finish-IsOwned q r id v = ground arith

announce-IsOwned :
    (faults : Bool × Bool) (now q : ℕ) (r : Runner) (id : ℕ)
    → IsOwned r id
    → IsOwned (announce faults now q r) id
unfolding announce
announce-IsOwned faults now q r id v = go (worker_of (find_lane q r.lanes)) refl
  where
    go : (w : Worker) → worker_of (find_lane q r.lanes) ≡ w → IsOwned (announce faults now q r) id
    go (announcing j total) h = ground (
      arith,
      set_status-IsTable faults now j.run_id running "" r.table v.table,
      status-set_status faults now j.run_id running "" r.table id v.table,
    )
    go _ h = ground arith

test-IsOwned :
    (o : Outcome) (stored : Bool) (q : ℕ) (r : Runner) (id : ℕ)
    → IsOwned r id
    → IsOwned (test_next o stored q r) id
unfolding test_next
test-IsOwned o stored q r id v = ground arith

recover-IsOwned :
    (written stored : Bool) (q : ℕ) (r : Runner) (id : ℕ)
    → IsOwned r id
    → IsOwned (recover written stored q r) id
unfolding recover
recover-IsOwned written stored q r id v = ground arith

cancel-IsOwned :
    (faults : Bool × Bool) (now k : ℕ) (r : Runner) (id : ℕ)
    → IsOwned r id
    → IsOwned (cancel faults now k r).0 id
unfolding cancel
cancel-IsOwned faults now k r id v = ground (
  arith,
  set_status-IsTable faults now k RunStatus.canceled "" r.table v.table,
  status-set_status faults now k RunStatus.canceled "" r.table id v.table,
)

claim-IsOwned :
    (k : ℕ) (r : Runner) (id : ℕ) → IsOwned r id → IsOwned (claim_for_force_cancel k r).0 id
unfolding claim_for_force_cancel
claim-IsOwned k r id v = ground arith

write-IsOwned :
    (faults : Bool × Bool) (now k : ℕ) (r : Runner) (id : ℕ)
    → IsOwned r id
    → IsOwned (perform_write faults now k r) id
unfolding perform_write
write-IsOwned faults now k r id v = go (r.writes k) refl
  where
    go : (ws : List Write) → r.writes k ≡ ws → IsOwned (perform_write faults now k r) id
    go [] h = ground arith
    go (w ∷ ws) h = ground (
      arith,
      set_status-IsTable faults now k w.status w.message r.table v.table,
      status-set_status faults now k w.status w.message r.table id v.table,
      attempt-IsTable faults.0 now k w.status w.message r.table v.table,
      status-attempt faults.0 now k w.status w.message r.table id v.table,
    )

open_request-IsOwned :
    (fault : Bool) (trigger : String) (s : Option ℕ) (ts : List Target) (r : Runner) (id : ℕ)
    → IsOwned r id
    → IsOwned (open_request fault trigger s ts r).0 id
unfolding open_request
open_request-IsOwned fault trigger s ts r id v = go (filter_runnable ts trigger) refl
  where
    go :
        (us : List Target)
        → filter_runnable ts trigger ≡ us
        → IsOwned (open_request fault trigger s ts r).0 id
    go [] h = ground arith
    go (u ∷ us) h = ground (arith, open_run-IsOwned trigger s (u ∷ us) r id v)

cancel_all-IsOwned : (r : Runner) (id : ℕ) → IsOwned r id → IsOwned (cancel_all r) id
unfolding cancel_all
cancel_all-IsOwned r id v = elim (Option-cases (r.runs id)) [
  | inl e ↦ ground arith
  | inr (st, e) ↦ ground arith
]

pub step-IsOwned : (a : Action) (r : Runner) (id : ℕ) → IsOwned r id → IsOwned (step a r) id
unfolding step
step-IsOwned starts r id v = record {
  table = v.table;
  once = v.once;
  guarded = v.guarded;
  active = v.active;
}
step-IsOwned closes r id v = record {
  table = v.table;
  once = v.once;
  guarded = v.guarded;
  active = v.active;
}
step-IsOwned cancels_all r id v = cancel_all-IsOwned r id v
step-IsOwned (opens fault trigger s ts) r id v = open_request-IsOwned fault trigger s ts r id v
step-IsOwned (commits k) r id v = commit-IsOwned k r id v
step-IsOwned (claims k) r id v = ground (arith, claim-IsOwned k r id v)
step-IsOwned (dequeues q) r id v = record {
  table = v.table;
  once = v.once;
  guarded = v.guarded;
  active = v.active;
}
step-IsOwned (begins q) r id v = begin-IsOwned q r id v
step-IsOwned (finishes q) r id v = finish-IsOwned q r id v
step-IsOwned (announces faults now q) r id v = announce-IsOwned faults now q r id v
step-IsOwned (tests o stored q) r id v = test-IsOwned o stored q r id v
step-IsOwned (recovers written stored q) r id v = recover-IsOwned written stored q r id v
step-IsOwned (cancels faults now k) r id v = cancel-IsOwned faults now k r id v
step-IsOwned (writes faults now k) r id v = write-IsOwned faults now k r id v

run-IsOwned :
    (actions : List Action) (r : Runner) (id : ℕ) → IsOwned r id → IsOwned (run r actions) id
unfolding run
run-IsOwned [] r id v = v
run-IsOwned (a ∷ rest) r id v = run-IsOwned rest (step a r) id (step-IsOwned a r id v)

pub new-IsOwned : (capacity id : ℕ) → IsOwned (new capacity) id
unfolding new
new-IsOwned capacity id = ground arith

-- In every state that any sequence of actions reaches, a run has at most one owner: the Enqueue
-- that creates it, the runner's map, or one claimed final write. As long as it has one, its row is
-- queued or running, so the claimed write is never refused as an invalid transition, and a run that
-- is being created or resolved is in `finalizing`, out of reach of cancelOrphan.
pub reachable-IsOwned :
    (capacity : ℕ) (actions : List Action) (id : ℕ) → IsOwned (run (new capacity) actions) id
reachable-IsOwned capacity actions id =
    run-IsOwned actions (new capacity) id (new-IsOwned capacity id)
