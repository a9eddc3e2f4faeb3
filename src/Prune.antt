-- ===== src/Prune.antt =====
-- internal/prune/prune.go: the retention job.
pub mod Drain
use speedtest_tracker.Base.{
  ℕ, zero, suc, ◌+◌, ◌*◌, ◌-◌, String, Bool, true, false, Option, none, some, List, [], ◌∷◌, ◌++◌,
  ltb, ◌==◌, if◌then◌else◌,
}

pub data Error : Type 0 where
  settings_unreadable canceled : Error
  failed : String → Error

-- drain: `del` is one batch on the state of the store, which returns the rows it deleted and the
-- error it met; `done k` is ctx.Err() before round k. Fuel bounds the rounds; none is out of fuel.
pub record Drained {ℓ} (S : Type ℓ) : Type ℓ where
  pub state : S
  pub total : ℕ
  pub error : Option Error

unfoldable pub drain {ℓ} :
    {S : Type ℓ} → (S → S × ℕ × Option Error) → (ℕ → Bool) → ℕ → ℕ → ℕ → S → Option (Drained S)
drain del done zero k total s = none
drain del done (suc fuel) k total s = elim (done k) [
  | true ↦ some (record { state = s; total = total; error = some canceled })
  | false ↦
      let (s', n, e) = del s in
      elim e [
        | some x ↦ some (record { state = s'; total = total + n; error = some x })
        | none ↦ (elim n [
          | zero ↦ some (record { state = s'; total = total + 0; error = none })
          | suc m ↦ drain del done fuel (suc k) (total + suc m) s'
        ])
      ]
]

-- The settings that a pass reads; a number of days or minutes below 0 is written 0.
pub record General : Type 0 where
  pub retention_days_results : ℕ
  pub retention_days_runs : ℕ
  pub prune_interval_minutes : ℕ

-- Stats, with the errors that `errors.Join` joins in its Err.
pub record Stats : Type 0 where
  pub at : ℕ
  pub results : ℕ
  pub runs : ℕ
  pub sessions : ℕ
  pub errors : List Error

-- now.UTC().AddDate(0, 0, -days), in milliseconds.
abbrev pub cutoff_for : ℕ → ℕ → ℕ
cutoff_for now days = now - days * 86400000

abbrev push_error : List Error → Option Error → List Error
push_error errs none = errs
push_error errs (some e) = errs ++ e ∷ []

-- Once over a store: the batch deletes of results and runs by their cutoff, DeleteExpiredSessions,
-- and ctx.Err() before each round of the two drains.
module _ {ℓ} {S : Type ℓ} (prune_results prune_runs : ℕ → S → S × ℕ × Option Error)
    (delete_sessions : ℕ → S → S × ℕ × Option Error) (done : ℕ → Bool) (fuel : ℕ) where
  -- A drain that its retention setting switches off deletes nothing.
  drain_if : ℕ → (S → S × ℕ × Option Error) → S → Option (Drained S)
  drain_if zero del s = some (record { state = s; total = 0; error = none })
  drain_if (suc days) del s = drain del done fuel 0 0 s

  after_drains : ℕ → Drained S → Drained S → S × Stats
  after_drains now a b =
      let (s, n, e) = delete_sessions now b.state in
      (
        s,
        record {
          at = now;
          results = a.total;
          runs = b.total;
          sessions = n;
          errors = push_error (push_error (push_error [] a.error) b.error) e;
        },
      )

  unfoldable pub once : ℕ → General → S → Option (S × Stats)
  unfolding drain_if after_drains drain
  once now g s =
      elim (drain_if g.retention_days_results
        (prune_results (cutoff_for now g.retention_days_results)) s) [
          | none ↦ none
          | some a ↦
              (elim (drain_if g.retention_days_runs
                (prune_runs (cutoff_for now g.retention_days_runs)) a.state) [
                  | none ↦ none
                  | some b ↦ some (after_drains now a b)
                ])
        ]

-- intervalFor, in milliseconds; none where the settings cannot be read.
unfoldable pub interval_for : Option General → ℕ
interval_for none = 60000
interval_for (some g) = let d = g.prune_interval_minutes * 60000 in if ltb d 60000 then 60000 else d
