-- ===== src/Notify/Notifier/Recovery.antt =====
-- Alerts and recoveries over any results, internal/notify/notifier.go.
use speedtest_tracker.Base.{
  ◌≡◌, Bool, true, false, Option, none, some, List, [], ◌∷◌, arith, if◌then◌else◌, is_none,
}
use speedtest_tracker.Notify.Thresholds.{Thresholds, merge}
use speedtest_tracker.Notify.Evaluate.{Float64, Metric, same, Eval, Result, evaluate, emits}
use speedtest_tracker.Notify.Notifier.{
  Row, alert, recovery, summary, Notice, State, Settings, Round, Lookup, deleted, unparsed, parsed,
  handle_eval, clear_stale, all_metrics, handle_evals, process,
}

abbrev about : Metric → Option Metric → Bool
about m none = false
about m (some n) = same n m

-- The newest notice about the metric, summaries aside, is an alert.
abbrev pub is_alerted : Metric → List Notice → Bool
is_alerted m [] = false
is_alerted m (n ∷ ns) = elim n.kind [
  | alert ↦ if about m n.metric then true else is_alerted m ns
  | recovery ↦ if about m n.metric then false else is_alerted m ns
  | summary ↦ is_alerted m ns
]

-- Every recovery about the metric answers an alert about it that was not answered before.
abbrev pub IsAnswered : Metric → List Notice → Type 0
IsAnswered m [] = Unit
IsAnswered m (n ∷ ns) =
    IsAnswered m ns
    × (elim n.kind [ recovery ↦ about m n.metric ≡ true → is_alerted m ns ≡ true | _ ↦ Unit ])

-- A row with the time of an alert stands for an alert that was delivered.
abbrev Backed : Option Row → Bool → Type 0
Backed none b = Unit
Backed (some row) b = is_none row.last_fired_at ≡ false → b ≡ true

pub record IsSound (m : Metric) (s : State) : Type 0 where
  pub answered : IsAnswered m s.notices
  pub backed : Backed (s.rows m) (is_alerted m s.notices)

module _ (m : Metric) where
  handle_eval-IsSound :
      (conf : Settings) (round : Round) (n : Metric) (breached : Bool) (s : State)
      → IsSound m s
      → IsSound m (handle_eval conf round n breached s)
  unfolding handle_eval
  handle_eval-IsSound conf round n breached s v = ground arith

  clear_stale-IsSound :
      (round : Round) (present : Metric → Bool) (ms : List Metric) (s : State)
      → IsSound m s
      → IsSound m (clear_stale round present ms s)
  unfolding clear_stale
  clear_stale-IsSound round present [] s v = v
  clear_stale-IsSound round present (n ∷ ms) s v =
      clear_stale-IsSound round present ms _ (ground arith)

  module _ {A : Type 0} where
    handle_evals-IsSound :
        (conf : Settings) (round : Round) (es : List (Eval A)) (s : State)
        → IsSound m s
        → IsSound m (handle_evals conf round es s)
    unfolding handle_evals
    handle_evals-IsSound conf round [] s v = v
    handle_evals-IsSound conf round (e ∷ es) s v =
        handle_evals-IsSound conf round es (handle_eval conf round e.metric e.breached s)
          (handle_eval-IsSound conf round e.metric e.breached s v)

    process-IsSound :
        ⦃f : Float64 A⦄ (conf : Settings) (defaults : Thresholds A) (round : Round) (res : Result A)
        (lookup : Lookup A) (s : State)
        → IsSound m s
        → IsSound m (process conf defaults round res lookup s)
    unfolding process
    process-IsSound conf defaults round res deleted s v = ground arith
    process-IsSound conf defaults round res unparsed s v = ground arith
    process-IsSound conf defaults round res (parsed own nulled) s v =
        let evals = evaluate res (merge defaults own nulled) in
        let handled = handle_evals conf round evals s in
        let sound = handle_evals-IsSound conf round evals s v in
        ground
          (arith, sound, clear_stale-IsSound round (λ m. emits m evals) all_metrics handled sound)

-- One result as the worker processes it, with the settings of that moment.
pub record Item (A : Type 0) : Type 0 where
  pub settings : Settings
  pub defaults : Thresholds A
  pub round : Round
  pub result : Result A
  pub lookup : Lookup A

module _ {A : Type 0} ⦃f : Float64 A⦄ where
  pub process_all : List (Item A) → State → State
  process_all [] s = s
  process_all (i ∷ is) s =
      process_all is (process i.settings i.defaults i.round i.result i.lookup s)

  process_all-IsSound :
      (m : Metric) (items : List (Item A)) (s : State)
      → IsSound m s
      → IsSound m (process_all items s)
  unfolding process_all
  process_all-IsSound m [] s v = v
  process_all-IsSound m (i ∷ is) s v =
      process_all-IsSound m is (process i.settings i.defaults i.round i.result i.lookup s)
        (process-IsSound m i.settings i.defaults i.round i.result i.lookup s v)

  -- Whatever results are processed, under whatever settings and faults, from an empty state on:
  -- every recovery that is delivered for a metric answers an alert for it that was delivered, and
  -- that no earlier recovery has answered.
  pub recoveries_answer_alerts :
      (m : Metric) (items : List (Item A)) (s : State)
      → s.notices ≡ []
      → is_none (s.rows m) ≡ true
      → IsAnswered m (process_all items s).notices
  recoveries_answer_alerts m items s e h = (process_all-IsSound m items s (ground arith)).answered
