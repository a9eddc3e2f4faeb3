-- ===== src/Store/Runs/Active.antt =====
-- How many active runs a schedule has, over CreateRun and SetRunStatus of internal/store/runs.go.
use speedtest_tracker.Base.{
  ℕ, ◌+◌, ◌≤◌, String, ◌≡◌, refl, ◌&&◌, none, some, List, [], ◌∷◌, arith, if◌then◌else◌, bit, find,
}
use mathlib.Core.Option
use speedtest_tracker.Store.Runs.{
  RunStatus, Run, RunTable, is_terminal, set_clause, matches, update_rows, set_run_status, is_busy,
  opt_eq, queued_run_for_schedule,
}

-- The rows of a schedule that wait or run.
abbrev pub count_active : ℕ → List Run → ℕ
count_active schedule [] = 0
count_active schedule (r ∷ rs) =
    bit (opt_eq r.schedule_id (some schedule) && is_busy r.status) + count_active schedule rs

schedule_id-set_clause :
    (now : ℕ) (s : RunStatus) (msg : String) (r : Run)
    → (set_clause now s msg r).schedule_id ≡ r.schedule_id
unfolding set_clause
schedule_id-set_clause now RunStatus.queued msg r = refl
schedule_id-set_clause now _ msg r = refl

active_row :
    (schedule now id : ℕ) (s : RunStatus) (msg : String) (r : Run)
    → bit (
        opt_eq (if matches id r then set_clause now s msg r else r).schedule_id (some schedule)
        && is_busy (if matches id r then set_clause now s msg r else r).status)
      ≤ bit (opt_eq r.schedule_id (some schedule) && is_busy r.status)
unfolding matches
active_row schedule now id s msg r =
    ground (arith, schedule_id-set_clause now s msg r, is_terminal, is_busy)

count_active-update_rows :
    (schedule now id : ℕ) (s : RunStatus) (msg : String) (rs : List Run)
    → count_active schedule (update_rows (matches id) (set_clause now s msg) rs)
      ≤ count_active schedule rs
unfolding update_rows
count_active-update_rows schedule now id s msg [] = omega arith
count_active-update_rows schedule now id s msg (r ∷ rs) =
    omega
      (arith, active_row schedule now id s msg r, count_active-update_rows schedule now id s msg rs)

pub count_active-set_run_status :
    (schedule now id : ℕ) (s : RunStatus) (msg : String) (t : RunTable)
    → count_active schedule (set_run_status now id s msg t).0.rows ≤ count_active schedule t.rows
unfolding set_run_status
count_active-set_run_status schedule now id s msg t =
    ground (arith, count_active-update_rows schedule now id s msg t.rows)

-- QueuedRunForSchedule finds a run exactly if one is active.
pub none_active :
    (schedule : ℕ) (t : RunTable)
    → queued_run_for_schedule schedule t ≡ none
    → count_active schedule t.rows ≡ 0
unfolding queued_run_for_schedule
none_active schedule t h = go t.rows h
  where
    go :
        (rs : List Run)
        → Option.map
            (λ (r : Run). r.id)
            (find (λ r. opt_eq r.schedule_id (some schedule) && is_busy r.status) rs)
          ≡ none
        → count_active schedule rs ≡ 0
    go [] h = refl
    go (r ∷ rs) h = ground (arith, go rs)
