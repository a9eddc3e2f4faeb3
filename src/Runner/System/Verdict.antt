-- ===== src/Runner/System/Verdict.antt =====
-- The final status of a run over every behaviour of internal/runner/runner.go.
use speedtest_tracker.Base.{
  ℕ, String, ◌≡◌, refl, Bool, true, false, Option, some, List, [], ◌∷◌, arith,
}
use speedtest_tracker.Store.Runs.{RunStatus, running, is_terminal, create_run}
use speedtest_tracker.Store.Runs.Status.{IsTable, status_at, is_active, status_at_fresh}
use speedtest_tracker.Runner.State.{Target, Worker, announcing, Write, Runner, find_lane}
use speedtest_tracker.Runner.State.Status.{
  lands-attempt, lands-set_status, status-attempt, status-set_status,
}
use speedtest_tracker.Runner.Grouping.{filter_runnable}
use speedtest_tracker.Runner.Enqueue.{open_run, open_request, commit}
use speedtest_tracker.Runner.Execute.{worker_of, announce}
use speedtest_tracker.Runner.Control.{perform_write}
use speedtest_tracker.Runner.System.{
  new, Action, opens, commits, announces, cancels, writes, step, run,
}
use speedtest_tracker.Runner.System.Ownership.{IsOwned, reachable-IsOwned, step-IsOwned}

module _ (id : ℕ) (s : RunStatus) (over : is_terminal s ≡ true) where
  abbrev Stays : Runner → Type 0
  Stays r = status_at id r.table.rows ≡ some s

  announce-Stays :
      (faults : Bool × Bool) (now q : ℕ) (r : Runner)
      → IsTable r.table
      → Stays r
      → Stays (announce faults now q r)
  unfolding announce
  announce-Stays faults now q r v h = go (worker_of (find_lane q r.lanes)) refl
    where
      go : (w : Worker) → worker_of (find_lane q r.lanes) ≡ w → Stays (announce faults now q r)
      go (announcing j total) e =
          ground (arith, status-set_status faults now j.run_id running "" r.table id v)
      go _ e = ground arith

  write-Stays :
      (faults : Bool × Bool) (now k : ℕ) (r : Runner)
      → IsTable r.table
      → Stays r
      → Stays (perform_write faults now k r)
  unfolding perform_write
  write-Stays faults now k r v h = go (r.writes k) refl
    where
      go : (ws : List Write) → r.writes k ≡ ws → Stays (perform_write faults now k r)
      go [] e = ground arith
      go (w ∷ ws) e = ground (
        arith,
        status-set_status faults now k w.status w.message r.table id v,
        status-attempt faults.0 now k w.status w.message r.table id v,
      )

  open_request-Stays :
      (fault : Bool) (trigger : String) (sc : Option ℕ) (ts : List Target) (r : Runner)
      → IsTable r.table
      → Stays r
      → Stays (open_request fault trigger sc ts r).0
  unfolding open_request open_run create_run
  open_request-Stays fault trigger sc ts r v h = go (filter_runnable ts trigger) refl
    where
      go :
          (us : List Target)
          → filter_runnable ts trigger ≡ us
          → Stays (open_request fault trigger sc ts r).0
      go [] e = ground arith
      go (u ∷ us) e = ground (arith, status_at_fresh r.table.rows r.table.next_id id v)

  commit-Stays : (k : ℕ) (r : Runner) → Stays r → Stays (commit k r).0
  unfolding commit
  commit-Stays k r h = ground arith

  other-Stays : (a : Action) (r : Runner) → IsTable r.table → Stays r → Stays (step a r)
  unfolding step
  other-Stays (opens fault trigger sc ts) r v h = open_request-Stays fault trigger sc ts r v h
  other-Stays (announces faults now q) r v h = announce-Stays faults now q r v h
  other-Stays (writes faults now k) r v h = write-Stays faults now k r v h
  other-Stays (cancels faults now k) r v h =
      ground (arith, status-set_status faults now k RunStatus.canceled "" r.table id v)
  other-Stays (commits k) r v h = commit-Stays k r h
  other-Stays _ r v h = ground arith

  run-Stays : (actions : List Action) (r : Runner) → IsOwned r id → Stays r → Stays (run r actions)
  unfolding run
  run-Stays [] r v h = h
  run-Stays (a ∷ rest) r v h =
      run-Stays rest (step a r) (step-IsOwned a r id v) (other-Stays a r v.table h)

-- Once the row of a run is terminal, no further actions, in any order and with any faults, change
-- its status.
pub terminal_is_final :
    (capacity id : ℕ) (s : RunStatus) (before after : List Action)
    → is_terminal s ≡ true
    → status_at id (run (new capacity) before).table.rows ≡ some s
    → status_at id (run (run (new capacity) before) after).table.rows ≡ some s
terminal_is_final capacity id s before after over h =
    run-Stays id s over after (run (new capacity) before) (reachable-IsOwned capacity before id) h

-- In every reachable state, if the store does not fail, the oldest claimed final write of a run
-- takes effect: the row gets exactly the claimed status, whatever else has happened.
pub claimed_write_lands :
    (capacity now id : ℕ) (actions : List Action) (w : Write) (ws : List Write) (fault : Bool)
    → (run (new capacity) actions).writes id ≡ w ∷ ws
    → status_at id (perform_write (false, fault) now id (run (new capacity) actions)).table.rows
      ≡ some w.status
unfolding perform_write
claimed_write_lands capacity now id actions w ws fault h =
    go (run (new capacity) actions) (reachable-IsOwned capacity actions id) h
  where
    go :
        (r : Runner)
        → IsOwned r id
        → r.writes id ≡ w ∷ ws
        → status_at id (perform_write (false, fault) now id r).table.rows ≡ some w.status
    go r v e =
        let live : is_active (status_at id r.table.rows) ≡ true = v.active (ground arith) in
        ground (
          arith,
          lands-set_status now id w.status w.message r.table v.table live fault,
          lands-attempt now id w.status w.message r.table v.table live,
        )
