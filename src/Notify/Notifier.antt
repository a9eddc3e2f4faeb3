-- ===== src/Notify/Notifier.antt =====
-- process, handleEval, fire, recover, clearStaleState and deliver of internal/notify/notifier.go,
-- over the rows of notification_state (internal/store/notifications.go) of one target.
pub mod Cooldown
pub mod Recovery
use speedtest_tracker.Base.{
  ℕ, suc, ◌+◌, String, Bool, true, false, not, ◌&&◌, ◌||◌, Option, none, some, List, [], ◌∷◌, leb,
  ◌==◌, if◌then◌else◌, is_none, is_some, any,
}
use speedtest_tracker.Notify.Thresholds.{Thresholds, merge}
use speedtest_tracker.Notify.Evaluate.{
  Float64, Metric, download, upload, ping, jitter, loss, failure, same, Eval, Result, is_ok, is_set,
  evaluate, emits,
}

-- NotifyState; no last_fired_at is the empty text, which records an alert that was never delivered.
pub record Row : Type 0 where
  pub firing : Bool
  pub last_fired_at : Option ℕ

pub record Channel : Type 0 where
  pub id : String
  pub enabled : Bool

pub data Kind : Type 0 where
  alert recovery summary : Kind

-- One message handed to the channels; the summary of an ok result names no metric.
pub record Notice : Type 0 where
  pub kind : Kind
  pub metric : Option Metric
  pub at : ℕ

-- The rows of the target and the counters; the notices delivered so far, the newest first.
pub record State : Type 0 where
  pub rows : Metric → Option Row
  pub sent : ℕ
  pub failed : ℕ
  pub suppressed : ℕ
  pub notices : List Notice

-- The settings that a round reads; the cooldown is in milliseconds.
pub record Settings : Type 0 where
  pub enabled : Bool
  pub channels : List Channel
  pub cooldown : ℕ
  pub notify_recovery : Bool

-- One round: the clock, quiet hours, which channels accept, and the metrics at whose row the
-- store fails to read, write or delete.
pub record Round : Type 0 where
  pub now : ℕ
  pub quiet : Bool
  pub accepts : String → Bool
  pub get_fails : Metric → Bool
  pub set_fails : Metric → Bool
  pub clear_fails : Metric → Bool

abbrev pub put_row : (Metric → Option Row) → Metric → Option Row → Metric → Option Row
put_row rows m row n = if same m n then row else rows n

count_channels : (Channel → Bool) → List Channel → ℕ
count_channels p [] = 0
count_channels p (c ∷ cs) = let n = count_channels p cs in if p c then suc n else n

unfoldable pub deliver : Settings → Round → Notice → State → State
unfolding count_channels
deliver conf round notice s = record s {
  sent = s.sent + count_channels (λ c. c.enabled && round.accepts c.id) conf.channels;
  failed = s.failed + count_channels (λ c. c.enabled && not (round.accepts c.id)) conf.channels;
  notices = notice ∷ s.notices;
}

-- A text that is no timestamp counts as long ago.
unfoldable pub cooldown_elapsed : Option ℕ → ℕ → ℕ → Bool
cooldown_elapsed none now cooldown = true
cooldown_elapsed (some last) now cooldown = leb (last + cooldown) now

unfoldable pub fire : Settings → Round → Metric → Bool → State → State
unfolding deliver
fire conf round m already s =
    let suppressed : State = record s { suppressed = suc s.suppressed } in
    let held : Row = record { firing = true; last_fired_at = none } in
    let fired : Row = record { firing = true; last_fired_at = some round.now } in
    if round.quiet
    then (if already || round.set_fails m
        then suppressed
        else record suppressed { rows = put_row s.rows m (some held) })
    else if round.set_fails m
    then s
    else deliver conf round (record { kind = alert; metric = some m; at = round.now })
        (record s { rows = put_row s.rows m (some fired) })

unfoldable pub recover : Settings → Round → Metric → Bool → State → State
unfolding deliver
recover conf round m send s =
    let cleared : State = record s { rows = put_row s.rows m none } in
    if round.clear_fails m
    then s
    else if not send
    then cleared
    else if round.quiet
    then record cleared { suppressed = suc s.suppressed }
    else deliver conf round (record { kind = recovery; metric = some m; at = round.now }) cleared

handle_row : Settings → Round → Metric → Bool → Option Row → State → State
unfolding fire recover cooldown_elapsed
handle_row conf round m true none s = fire conf round m false s
handle_row conf round m true (some row) s =
    if cooldown_elapsed row.last_fired_at round.now conf.cooldown
    then fire conf round m true s
    else s
handle_row conf round m false none s = s
handle_row conf round m false (some row) s =
    if row.firing
    then recover conf round m (conf.notify_recovery && is_some row.last_fired_at) s
    else s

unfoldable pub handle_eval : Settings → Round → Metric → Bool → State → State
unfolding handle_row
handle_eval conf round m breached s =
    if round.get_fails m then s else handle_row conf round m breached (s.rows m) s

abbrev pub all_metrics : List Metric
all_metrics = download ∷ upload ∷ ping ∷ jitter ∷ loss ∷ failure ∷ []

unfoldable pub clear_stale : Round → (Metric → Bool) → List Metric → State → State
clear_stale round present [] s = s
clear_stale round present (m ∷ ms) s = clear_stale round present ms (
    if present m || (round.get_fails m || (is_none (s.rows m) || round.clear_fails m))
    then s
    else record s { rows = put_row s.rows m none })

summarise : Settings → Round → Bool → Option Metric → State → State
unfolding deliver
summarise conf round go metric s =
    if not go
    then s
    else if round.quiet
    then record s { suppressed = suc s.suppressed }
    else deliver conf round (record { kind = summary; metric = metric; at = round.now }) s

-- What GetTarget and ParseThresholds return for the target of a result.
pub data Lookup (A : Type 0) : Type 0 where
  deleted unparsed : Lookup A
  parsed : Thresholds A → List String → Lookup A

module _ {A : Type 0} where
  unfoldable pub handle_evals : Settings → Round → List (Eval A) → State → State
  handle_evals conf round [] s = s
  handle_evals conf round (e ∷ es) s =
      handle_evals conf round es (handle_eval conf round e.metric e.breached s)

  -- A failed result whose failure alert speaks for it.
  unfoldable pub failure_alert_covers : Result A → List (Eval A) → Bool
  failure_alert_covers res evals =
      if is_ok res.status then false else any (λ e. same e.metric failure && e.breached) evals

  process_parsed : ⦃f : Float64 A⦄ → Settings → Thresholds A → Round → Result A → State → State
  unfolding summarise
  process_parsed conf th round res s =
      let evals = evaluate res th in
      let handled = handle_evals conf round evals s in
      let cleared =
        if is_ok res.status
        then clear_stale round (λ m. emits m evals) all_metrics handled
        else handled in
      summarise conf round (is_set th.notify_always && not (failure_alert_covers res evals))
        (if is_ok res.status then none else some failure) cleared

  process_lookup :
      ⦃f : Float64 A⦄ → Settings → Thresholds A → Round → Result A → Lookup A → State → State
  unfolding process_parsed
  process_lookup conf defaults round res (parsed own nulled) s =
      process_parsed conf (merge defaults own nulled) round res s
  process_lookup conf defaults round res _ s = s

  unfoldable pub process :
      ⦃f : Float64 A⦄ → Settings → Thresholds A → Round → Result A → Lookup A → State → State
  unfolding process_lookup
  process conf defaults round res lookup s =
      if not conf.enabled || is_none res.target_id
      then s
      else process_lookup conf defaults round res lookup s
