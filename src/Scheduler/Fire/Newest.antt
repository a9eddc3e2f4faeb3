-- ===== src/Scheduler/Fire/Newest.antt =====
-- The row that a fire of internal/scheduler/scheduler.go adds to the runs table.
use speedtest_tracker.Base.{
  ℕ, ◌≤◌, String, ◌≡◌, refl, Bool, false, Option, none, some, List, [], ◌∷◌, arith,
}
use speedtest_tracker.Store.Runs.{
  Run, RunTable, create_run, insert_skipped_run, queued_run_for_schedule,
}
use speedtest_tracker.Runner.State.{Target, Write, Runner}
use speedtest_tracker.Runner.State.Status.{next_id-set_status, next_id-attempt}
use speedtest_tracker.Runner.Grouping.{filter_runnable}
use speedtest_tracker.Runner.Enqueue.{
  Reply, existing, no_targets, queue_full, shutting_down, busy_run, open_run, open_request, commit,
}
use speedtest_tracker.Runner.Control.{perform_write}
use speedtest_tracker.Scheduler.Fire.{settle_reply, skip, after_enqueue}

-- The newest row was added after the table handed out n as its next id, for the schedule.
abbrev pub IsNewest : ℕ → ℕ → RunTable → Type 0
IsNewest schedule n t =
    (row : Run) × (rest : List Run) × (t.rows ≡ row ∷ rest)
    × (row.schedule_id ≡ some schedule)
    × (n ≤ row.id)

pub skip-IsNewest :
    (now schedule n : ℕ) (reason : String) (r : Runner)
    → n ≤ r.table.next_id
    → IsNewest schedule n (skip false now schedule reason r).0.table
unfolding skip insert_skipped_run
skip-IsNewest now schedule n reason r h = (_, r.table.rows, refl, refl, h)

next_id-perform_write :
    (faults : Bool × Bool) (now id : ℕ) (r : Runner)
    → (perform_write faults now id r).table.next_id ≡ r.table.next_id
unfolding perform_write
next_id-perform_write faults now id r = go (r.writes id) refl
  where
    go :
        (ws : List Write)
        → r.writes id ≡ ws
        → (perform_write faults now id r).table.next_id ≡ r.table.next_id
    go [] e = ground arith
    go (w ∷ ws) e = ground (
      arith,
      next_id-set_status faults now id w.status w.message r.table,
      next_id-attempt faults.0 now id w.status w.message r.table,
    )

-- A run that Enqueue has just created, and what the commit answers for it.
module _ (now schedule : ℕ) (faults : Bool × Bool) (ts : List Target) (r : Runner) where
  abbrev pub opened : Runner
  opened = open_run "cron" (some schedule) ts r

  table-commit : (commit r.table.next_id opened).0.table ≡ opened.table
  unfolding commit open_run
  table-commit = ground arith

  created : IsNewest schedule r.table.next_id (commit r.table.next_id opened).0.table
  unfolding open_run create_run
  created = rw table-commit (_, r.table.rows, refl, refl, omega arith)

  grown : r.table.next_id ≤ (commit r.table.next_id opened).0.table.next_id
  unfolding open_run create_run
  grown = rw table-commit (omega arith)

  written :
      r.table.next_id
      ≤ (perform_write faults now r.table.next_id (commit r.table.next_id opened).0).table.next_id
  written =
      let same =
        next_id-perform_write faults now r.table.next_id (commit r.table.next_id opened).0 in
      omega (arith, grown, same)

  pub settled :
      (reply : Option Reply)
      → let (r', answer) =
          settle_reply faults now r.table.next_id (commit r.table.next_id opened).0 reply in
        IsNewest schedule r.table.next_id (after_enqueue false now schedule r' answer).0.table
  unfolding settle_reply after_enqueue
  settled (some shutting_down) =
      skip-IsNewest now schedule r.table.next_id "server shutting down"
        (perform_write faults now r.table.next_id (commit r.table.next_id opened).0) written
  settled (some queue_full) =
      skip-IsNewest now schedule r.table.next_id "queue full"
        (perform_write faults now r.table.next_id (commit r.table.next_id opened).0) written
  settled (some no_targets) =
      skip-IsNewest now schedule r.table.next_id "no runnable targets"
        (commit r.table.next_id opened).0 grown
  settled (some _) = created
  settled none = created

module _ (schedule : ℕ) (listed : List Target) (r : Runner) where
  pub open_nothing :
      filter_runnable listed "cron" ≡ []
      → open_request false "cron" (some schedule) listed r ≡ (r, some no_targets)
  unfolding open_request
  open_nothing e = ground arith

  pub open_busy :
      (u : Target) (us : List Target) (id : ℕ)
      → queued_run_for_schedule schedule r.table ≡ some id
      → filter_runnable listed "cron" ≡ u ∷ us
      → open_request false "cron" (some schedule) listed r ≡ (r, some (existing id))
  unfolding open_request busy_run
  open_busy u us id busy e = ground arith

  pub open_free :
      (u : Target) (us : List Target)
      → queued_run_for_schedule schedule r.table ≡ none
      → filter_runnable listed "cron" ≡ u ∷ us
      → open_request false "cron" (some schedule) listed r
        ≡ (open_run "cron" (some schedule) (u ∷ us) r, none)
  unfolding open_request busy_run
  open_free u us free e = ground arith
