-- ===== src/Tests/NotifyTests.antt =====
-- internal/notify and internal/prune at concrete inputs; a float64 is played by a number.
use speedtest_tracker.Base.{
  ℕ, String, ◌≡◌, refl, Bool, true, false, Option, none, some, List, [], ◌∷◌, arith, ltb, ◌==◌,
  length, select, not, All, ◌+◌, ◌≤◌, ◌<◌, str_eq, if◌then◌else◌,
}
use speedtest_tracker.Store.Runs.{RunStatus, Run, RunTable, prunable, prune_runs_before}
use speedtest_tracker.Store.Runs.Pruning.{prune_runs_before_lem}
use speedtest_tracker.Prune.{Drained, drain}
use speedtest_tracker.Prune.Drain.{delete_runs, drain_runs_lem}
use speedtest_tracker.Notify.Thresholds.{Thresholds, nullable_field, merge}
use speedtest_tracker.Notify.Evaluate.{
  Float64, Metric, download, failure, ResultStatus, Result, evaluate, emits, applies, is_ok,
  IsOrdered, evaluate_lem,
}
use speedtest_tracker.Notify.Quiet.{quiet_now, quiet_now_lem}
use speedtest_tracker.Notify.Notifier.{State, Settings, Round, parsed}
use speedtest_tracker.Notify.Notifier.Cooldown.{breaches, IsSpaced, breaches-IsSpaced}
use speedtest_tracker.Notify.Notifier.Recovery.{
  Item, IsAnswered, process_all, recoveries_answer_alerts,
}
use speedtest_tracker.Notify.Inbox.{
  Event, offers, makes_room, resends, receives, new_inbox, run_inbox,
}
use speedtest_tracker.Notify.Inbox.Conserved.{count, held, given, inbox_conserves}

instance abbrev number_float : Float64 ℕ
number_float = record { zero = 0; is_zero = λ n. n == 0; less = ltb; per_million = λ n. n }

abbrev defaults : Thresholds ℕ
defaults = record {
  download_mbps_min = some 100;
  upload_mbps_min = none;
  ping_ms_max = some 30;
  jitter_ms_max = none;
  loss_pct_max = none;
  notify_on_failure = some true;
  notify_always = none;
}

abbrev no_thresholds : Thresholds ℕ
no_thresholds = record {
  download_mbps_min = none;
  upload_mbps_min = some 20;
  ping_ms_max = none;
  jitter_ms_max = none;
  loss_pct_max = none;
  notify_on_failure = none;
  notify_always = none;
}

merge_test : (merge defaults no_thresholds ("ping_ms_max" ∷ [])).ping_ms_max ≡ none
unfolding merge nullable_field
merge_test = refl

abbrev slow_result : Result ℕ
slow_result = record {
  id = 7;
  target_id = some 1;
  engine = "iperf3";
  status = ResultStatus.ok;
  error = "";
  download_bps = 40;
  upload_bps = 0;
  ping_ms = 12;
  jitter_ms = 1;
  packet_loss_pct = 0;
}

evaluate_lem_example :
    IsOrdered 0 (evaluate slow_result defaults)
    × ((m : Metric) → emits m (evaluate slow_result defaults) ≡ applies slow_result defaults m)
    × (is_ok slow_result.status ≡ false
        → All (λ e. (e.metric ≡ failure) × (e.breached ≡ true)) (evaluate slow_result defaults))
evaluate_lem_example = evaluate_lem slow_result defaults

abbrev clock : String → Option ℕ
clock text =
    if str_eq text "22:00" then some 1320 else if str_eq text "07:00" then some 420 else none

quiet_now_lem_example : quiet_now clock 60 "22:00" "07:00" ≡ true
quiet_now_lem_example = quiet_now_lem clock 60 "22:00" "07:00" 1320 420 refl refl refl (omega arith)

abbrev conf : Settings
conf = record {
  enabled = true;
  channels = record { id = "hook"; enabled = true } ∷ [];
  cooldown = 100;
  notify_recovery = true;
}

abbrev round_at : ℕ → Bool → Round
round_at now quiet = record {
  now = now;
  quiet = quiet;
  accepts = λ id. true;
  get_fails = λ m. false;
  set_fails = λ m. false;
  clear_fails = λ m. false;
}

abbrev fresh : State
fresh = record { rows = λ m. none; sent = 0; failed = 0; suppressed = 0; notices = [] }

breaches-IsSpaced_example :
    IsSpaced 100
      (breaches conf download
        (round_at 5 true ∷ round_at 10 false ∷ round_at 50 false ∷ round_at 110 false ∷ [])
        fresh).notices
breaches-IsSpaced_example =
    breaches-IsSpaced conf download
      (round_at 5 true ∷ round_at 10 false ∷ round_at 50 false ∷ round_at 110 false ∷ []) fresh refl

abbrev items : List (Item ℕ)
items = item 10 slow_result ∷ item 20 (record slow_result { download_bps = 500 }) ∷ []
  where
    item : ℕ → Result ℕ → Item ℕ
    item now res = record {
      settings = conf;
      defaults = defaults;
      round = round_at now false;
      result = res;
      lookup = parsed no_thresholds [];
    }

recoveries_answer_alerts_example : IsAnswered download (process_all items fresh).notices
recoveries_answer_alerts_example = recoveries_answer_alerts download items fresh refl refl

-- Two calls find the channel full; the second to make room finds it empty, as the worker has come
-- between, and the second to send again finds it full.
abbrev inbox_events : List (Event ℕ)
inbox_events =
    offers 4
    ∷ offers 5
    ∷ offers 6
    ∷ makes_room 0
    ∷ resends 0
    ∷ receives
    ∷ makes_room 0
    ∷ offers 7
    ∷ resends 0
    ∷ []

inbox_test : (run_inbox inbox_events (new_inbox 1)).lost ≡ 5 ∷ 4 ∷ []
unfolding run_inbox new_inbox
inbox_test = refl

inbox_conserves_example :
    (length (run_inbox inbox_events (new_inbox 1)).queue ≤ 1)
    × ((run_inbox inbox_events (new_inbox 1)).dropped
        ≡ length (run_inbox inbox_events (new_inbox 1)).lost)
    × (held (λ n. n == 5) (run_inbox inbox_events (new_inbox 1))
        ≡ count (λ n. n == 5) (given inbox_events))
inbox_conserves_example = inbox_conserves (λ n. n == 5) inbox_events 1

abbrev old_run : Run
old_run = record {
  id = 1;
  schedule_id = none;
  trigger = "cron";
  status = RunStatus.done;
  started_at = some 5;
  finished_at = some 9;
  error = none;
}

abbrev old_table : RunTable
old_table = record { rows = old_run ∷ []; next_id = 2 }

drain_runs_lem_example :
    (d : Drained RunTable) × (drain (delete_runs 50 0 (λ id. false)) (λ k. false) 2 0 0 old_table
      ≡ some d)
    × (select (prunable 50 (λ id. false)) d.state.rows ≡ [])
    × (select (λ r. not (prunable 50 (λ id. false) r)) d.state.rows
        ≡ select (λ r. not (prunable 50 (λ id. false) r)) old_table.rows)
    × (d.total ≡ length (select (prunable 50 (λ id. false)) old_table.rows))
    × (d.error ≡ none)
unfolding prunable
drain_runs_lem_example = drain_runs_lem 50 0 (λ id. false) 2 old_table (omega arith)

prune_runs_before_lem_example :
    let p = prunable 50 (λ id. false) in
    let (t', n) = prune_runs_before 50 1 (λ id. false) old_table in
    (select (λ r. not (p r)) t'.rows ≡ select (λ r. not (p r)) old_table.rows)
    × (n + length (select p t'.rows) ≡ length (select p old_table.rows))
    × (n ≤ 1)
    × (n < 1 → select p t'.rows ≡ [])
prune_runs_before_lem_example = prune_runs_before_lem 50 1 (λ id. false) old_table
