-- ===== src/Notify/Notifier/Cooldown.antt =====
-- The spacing of alerts, internal/notify/notifier.go.
use speedtest_tracker.Base.{ℕ, ◌+◌, ◌≤◌, ◌≡◌, refl, true, Option, some, List, [], ◌∷◌, arith}
use speedtest_tracker.Notify.Evaluate.{Metric}
use speedtest_tracker.Notify.Notifier.{Row, alert, Notice, State, Settings, Round, handle_eval}

-- A breach that lasts: one breached eval of the metric in each round.
pub breaches : Settings → Metric → List Round → State → State
breaches conf m [] s = s
breaches conf m (round ∷ rounds) s = breaches conf m rounds (handle_eval conf round m true s)

-- Each notice, but the oldest, came a cooldown or more after the one before it.
abbrev pub IsSpaced : ℕ → List Notice → Type 0
IsSpaced cooldown [] = Unit
IsSpaced cooldown (n ∷ []) = n.kind ≡ alert
IsSpaced cooldown (n ∷ o ∷ ns) =
    (n.kind ≡ alert) × (o.at + cooldown ≤ n.at) × IsSpaced cooldown (o ∷ ns)

-- The row knows the time of the newest alert.
abbrev Agrees : Option Row → List Notice → Type 0
Agrees row [] = Unit
Agrees row (n ∷ ns) = row ≡ some (record { firing = true; last_fired_at = some n.at })

module _ (conf : Settings) (m : Metric) where
  one_breach :
      (round : Round) (s : State)
      → IsSpaced conf.cooldown s.notices
      → Agrees (s.rows m) s.notices
      → let s' = handle_eval conf round m true s in
        IsSpaced conf.cooldown s'.notices × Agrees (s'.rows m) s'.notices
  unfolding handle_eval
  one_breach round s spaced agrees = go s.notices refl
    where
      go :
          (ns : List Notice)
          → s.notices ≡ ns
          → let s' = handle_eval conf round m true s in
            IsSpaced conf.cooldown s'.notices × Agrees (s'.rows m) s'.notices
      go [] e = ground arith
      go (n ∷ []) e = ground arith
      go (n ∷ o ∷ ns) e = ground arith

  IsSpaced-from :
      (rounds : List Round) (s : State)
      → IsSpaced conf.cooldown s.notices
      → Agrees (s.rows m) s.notices
      → IsSpaced conf.cooldown (breaches conf m rounds s).notices
  unfolding breaches
  IsSpaced-from [] s spaced agrees = spaced
  IsSpaced-from (round ∷ rounds) s spaced agrees =
      let (spaced', agrees') = one_breach round s spaced agrees in
      IsSpaced-from rounds (handle_eval conf round m true s) spaced' agrees'

-- While a metric stays breached, starting with no notice delivered, only alerts are delivered and
-- any two in a row are at least one cooldown apart, whatever the clock, quiet hours, the channels
-- and the faults of the store do.
pub breaches-IsSpaced :
    (conf : Settings) (m : Metric) (rounds : List Round) (s : State)
    → s.notices ≡ []
    → IsSpaced conf.cooldown (breaches conf m rounds s).notices
breaches-IsSpaced conf m rounds s e = IsSpaced-from conf m rounds s (rw e tt) (rw e tt)
