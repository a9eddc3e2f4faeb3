-- ===== src/Runner/System/Dedupe.antt =====
-- One active run for each schedule, over every behaviour of internal/runner/runner.go.
use speedtest_tracker.Base.{
  ℕ, ◌≤◌, String, ◌≡◌, refl, Bool, Option, none, some, List, [], ◌∷◌, arith, inl, inr, Option-cases,
}
use speedtest_tracker.Store.Runs.{RunStatus, RunTable, running, create_run}
use speedtest_tracker.Store.Runs.Active.{count_active, count_active-set_run_status, none_active}
use speedtest_tracker.Runner.State.{Target, Worker, announcing, Write, Runner, find_lane}
use speedtest_tracker.Runner.State.Status.{attempt, set_status, set_status_cases}
use speedtest_tracker.Runner.Grouping.{filter_runnable}
use speedtest_tracker.Runner.Enqueue.{busy_run, open_run, open_request, commit}
use speedtest_tracker.Runner.Execute.{worker_of, announce}
use speedtest_tracker.Runner.Control.{perform_write}
use speedtest_tracker.Runner.System.{Action, opens, commits, announces, cancels, writes, step, run}

count_active-attempt :
    (schedule : ℕ) (fault : Bool) (now id : ℕ) (s : RunStatus) (msg : String) (t : RunTable)
    → count_active schedule (attempt fault now id s msg t).0.rows ≤ count_active schedule t.rows
unfolding attempt
count_active-attempt schedule fault now id s msg t =
    ground (arith, count_active-set_run_status schedule now id s msg t)

count_active-set_status :
    (schedule : ℕ) (faults : Bool × Bool) (now id : ℕ) (s : RunStatus) (msg : String) (t : RunTable)
    → count_active schedule (set_status faults now id s msg t).0.rows ≤ count_active schedule t.rows
count_active-set_status schedule faults now id s msg t =
    elim (set_status_cases faults now id s msg t) [
      | inl e ↦ rw e (omega arith)
      | inr e ↦ rw e (count_active-set_run_status schedule now id s msg t)
    ]

module _ (schedule : ℕ) where
  abbrev pub IsSingle : Runner → Type 0
  IsSingle r = count_active schedule r.table.rows ≤ 1

  announce-IsSingle :
      (faults : Bool × Bool) (now q : ℕ) (r : Runner)
      → IsSingle r
      → IsSingle (announce faults now q r)
  unfolding announce
  announce-IsSingle faults now q r h = go (worker_of (find_lane q r.lanes)) refl
    where
      go : (w : Worker) → worker_of (find_lane q r.lanes) ≡ w → IsSingle (announce faults now q r)
      go (announcing j total) e =
          ground (arith, count_active-set_status schedule faults now j.run_id running "" r.table)
      go _ e = ground arith

  pub write-IsSingle :
      (faults : Bool × Bool) (now k : ℕ) (r : Runner)
      → IsSingle r
      → IsSingle (perform_write faults now k r)
  unfolding perform_write
  write-IsSingle faults now k r h = go (r.writes k) refl
    where
      go : (ws : List Write) → r.writes k ≡ ws → IsSingle (perform_write faults now k r)
      go [] e = ground arith
      go (w ∷ ws) e = ground (
        arith,
        count_active-set_status schedule faults now k w.status w.message r.table,
        count_active-attempt schedule faults.0 now k w.status w.message r.table,
      )

  count_active-create_run :
      (trigger : String) (sc : Option ℕ) (t : RunTable)
      → busy_run sc t ≡ none
      → count_active schedule t.rows ≤ 1
      → count_active schedule (create_run trigger sc t).0.rows ≤ 1
  unfolding create_run busy_run
  count_active-create_run trigger none t e h = omega (arith, h)
  count_active-create_run trigger (some s) t e h = ground (arith, none_active s t e)

  pub open_request-IsSingle :
      (fault : Bool) (trigger : String) (sc : Option ℕ) (ts : List Target) (r : Runner)
      → IsSingle r
      → IsSingle (open_request fault trigger sc ts r).0
  unfolding open_request open_run
  open_request-IsSingle fault trigger sc ts r h = go (filter_runnable ts trigger) refl
    where
      go :
          (us : List Target)
          → filter_runnable ts trigger ≡ us
          → IsSingle (open_request fault trigger sc ts r).0
      go [] e = ground arith
      go (u ∷ us) e = elim (Option-cases (busy_run sc r.table)) [
        | inl free ↦ ground (arith, count_active-create_run trigger sc r.table free h)
        | inr (id, busy) ↦ ground arith
      ]

  pub commit-IsSingle : (k : ℕ) (r : Runner) → IsSingle r → IsSingle (commit k r).0
  unfolding commit
  commit-IsSingle k r h = ground arith

  pub step-IsSingle : (a : Action) (r : Runner) → IsSingle r → IsSingle (step a r)
  unfolding step
  step-IsSingle (opens fault trigger sc ts) r h = open_request-IsSingle fault trigger sc ts r h
  step-IsSingle (commits k) r h = commit-IsSingle k r h
  step-IsSingle (announces faults now q) r h = announce-IsSingle faults now q r h
  step-IsSingle (writes faults now k) r h = write-IsSingle faults now k r h
  step-IsSingle (cancels faults now k) r h =
      ground (arith, count_active-set_status schedule faults now k RunStatus.canceled "" r.table)
  step-IsSingle _ r h = ground arith

  pub run-IsSingle : (actions : List Action) (r : Runner) → IsSingle r → IsSingle (run r actions)
  unfolding run
  run-IsSingle [] r h = h
  run-IsSingle (a ∷ rest) r h = run-IsSingle rest (step a r) (step-IsSingle a r h)
