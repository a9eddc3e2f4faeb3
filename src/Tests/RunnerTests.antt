-- ===== src/Tests/RunnerTests.antt =====
-- internal/runner and internal/store/runs.go at concrete inputs.
use speedtest_tracker.Base.{
  ℕ, ◌≡◌, refl, true, false, none, some, List, [], ◌∷◌, ◌++◌, arith, select,
}
use speedtest_tracker.Store.Runs.Pages.{read_pages, read_pages_lem}
use speedtest_tracker.Store.Runs.{
  RunFilter, list_matches, create_run, empty, queued, done, failed, Run, RunTable, set_run_status,
}
use speedtest_tracker.Store.Runs.Status.{
  status_at, expected_error, status-set_run_status, error-set_run_status,
}
use speedtest_tracker.Runner.State.{Target, finisher, Write}
use speedtest_tracker.Runner.Grouping.{
  targets_of, in_queue, IsGrouped, count_targets, group_by_queue, group_by_queue_lem,
}
use speedtest_tracker.Runner.Enqueue.{commit, queue_full}
use speedtest_tracker.Runner.Execute.{measured, engine_error}
use speedtest_tracker.Runner.Control.{perform_write}
use speedtest_tracker.Runner.System.{
  new, Action, starts, opens, commits, dequeues, begins, finishes, announces, tests, cancels,
  writes, run,
}
use speedtest_tracker.Runner.System.Ownership.{IsOwned, reachable-IsOwned}
use speedtest_tracker.Runner.System.Pending.{IsCounted, reachable-IsCounted}
use speedtest_tracker.Runner.System.Verdict.{terminal_is_final, claimed_write_lands}

abbrev wan_target : Target
wan_target = record {
  id = 1;
  name = "a";
  engine = "ookla";
  enabled = true;
  queue_id = 1;
  queue_name = "wan";
}

abbrev lab_target : Target
lab_target = record {
  id = 2;
  name = "b";
  engine = "iperf3";
  enabled = true;
  queue_id = 2;
  queue_name = "lab";
}

-- One manual run over two queues, with its jobs in the channels.
abbrev queued_actions : List Action
queued_actions =
    starts ∷ opens false "manual" none (wan_target ∷ lab_target ∷ wan_target ∷ []) ∷ commits 1 ∷ []

-- The first queue tests both of its targets, the first of which fails.
abbrev wan_actions : List Action
wan_actions =
    dequeues 1
    ∷ begins 1
    ∷ announces (false, false) 10 1
    ∷ tests engine_error true 1
    ∷ tests measured true 1
    ∷ tests measured true 1
    ∷ finishes 1
    ∷ []

abbrev lab_actions : List Action
lab_actions =
    dequeues 2
    ∷ begins 2
    ∷ announces (true, false) 20 2
    ∷ tests measured true 2
    ∷ tests measured true 2
    ∷ finishes 2
    ∷ []

abbrev all_actions : List Action
all_actions = queued_actions ++ (wan_actions ++ lab_actions)

abbrev final_write : Write
final_write = record { writer = finisher; status = failed; message = ""; total = 3; done = 3 }

claimed : (run (new 4) all_actions).writes 1 ≡ final_write ∷ []
unfolding run new
claimed = refl

claimed_write_lands_example :
    status_at 1 (perform_write (false, false) 30 1 (run (new 4) all_actions)).table.rows
    ≡ some failed
claimed_write_lands_example = claimed_write_lands 4 30 1 all_actions final_write [] false claimed

reachable-IsOwned_example : IsOwned (run (new 4) all_actions) 1
reachable-IsOwned_example = reachable-IsOwned 4 all_actions 1

reachable-IsCounted_example : IsCounted (run (new 4) queued_actions) 1
reachable-IsCounted_example = reachable-IsCounted 4 queued_actions 1

abbrev resolved_actions : List Action
resolved_actions = all_actions ++ writes (false, false) 30 1 ∷ []

resolved_failed : status_at 1 (run (new 4) resolved_actions).table.rows ≡ some failed
unfolding run new
resolved_failed = refl

terminal_is_final_example :
    status_at 1 (run (run (new 4) resolved_actions) (cancels (false, false) 40 1 ∷ [])).table.rows
    ≡ some failed
terminal_is_final_example =
    terminal_is_final 4 1 failed resolved_actions (cancels (false, false) 40 1 ∷ []) refl
      resolved_failed

group_by_queue_lem_example :
    ((q : ℕ)
      → targets_of q (group_by_queue (lab_target ∷ wan_target ∷ []))
        ≡ select (in_queue q) (lab_target ∷ wan_target ∷ []))
    × IsGrouped (group_by_queue (lab_target ∷ wan_target ∷ []))
    × (count_targets (group_by_queue (lab_target ∷ wan_target ∷ [])) ≡ 2)
group_by_queue_lem_example = group_by_queue_lem (lab_target ∷ wan_target ∷ [])

abbrev one_run : RunTable
one_run = record { rows = row ∷ []; next_id = 2 }
  where
    row : Run
    row = record {
      id = 1;
      schedule_id = none;
      trigger = "manual";
      status = queued;
      started_at = none;
      finished_at = none;
      error = none;
    }

status-set_run_status_example : status_at 1 (set_run_status 5 1 done "" one_run).0.rows ≡ some done
status-set_run_status_example = status-set_run_status one_run 5 1 done "" 1 (omega arith)

error-set_run_status_example :
    (set_run_status 5 2 done "" one_run).1 ≡ expected_error (status_at 2 one_run.rows)
error-set_run_status_example = error-set_run_status one_run 5 2 done "" (omega arith)

-- A channel of capacity 1 is full when a second run comes; the run is refused.
overflow_test :
    (commit 2 (run (new 1) (queued_actions ++ opens false "manual" none (wan_target ∷ []) ∷ []))).1
    ≡ some queue_full
unfolding commit run new
overflow_test = refl

abbrev three_runs : RunTable
three_runs =
    (create_run "cron" none (create_run "cron" (some 4) (create_run "manual" none empty).0).0).0

abbrev one_by_one : RunFilter
one_by_one = record { schedule_id = none; limit = 1; cursor = 0 }

read_pages_lem_example :
    read_pages 4 one_by_one three_runs ≡ select (list_matches one_by_one) three_runs.rows
unfolding create_run list_matches
read_pages_lem_example =
    read_pages_lem three_runs 4 one_by_one (omega arith, (omega arith, (omega arith, tt)))
      (omega arith, (omega arith, (omega arith, tt))) (omega arith)
