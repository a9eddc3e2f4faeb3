-- ===== src/Runner/State/Status.antt =====
-- setRunStatus of internal/runner/runner.go: a status write with one retry.
use speedtest_tracker.Base.{
  ℕ, String, ◌≡◌, refl, ◌⊎◌, inl, inr, Bool, true, false, ◌&&◌, Option, none, some, arith, ◌==◌,
  if◌then◌else◌, is_none, Option-cases,
}
use speedtest_tracker.Store.Runs.{
  RunStatus, RunTable, StoreError, invalid_transition, write_failed, set_run_status,
}
use speedtest_tracker.Store.Runs.Status.{
  IsTable, status_at, is_active, set_run_status-IsTable, status-set_run_status,
  error-set_run_status, next_id-set_run_status,
}

-- One call of Store.SetRunStatus, or a transient failure of it such as SQLITE_BUSY.
unfoldable pub attempt : Bool → ℕ → ℕ → RunStatus → String → RunTable → RunTable × Option StoreError
attempt fault now id status msg t =
    if fault then (t, some write_failed) else set_run_status now id status msg t

-- The second round of the loop, which success and ErrInvalidTransition leave out.
retry :
    Bool → ℕ → ℕ → RunStatus → String → RunTable → Option StoreError → RunTable × Option StoreError
retry fault now id status msg t none = (t, none)
retry fault now id status msg t (some invalid_transition) = (t, some invalid_transition)
retry fault now id status msg t (some _) = attempt fault now id status msg t

-- The two attempts: the flags say which of them fail.
unfoldable pub set_status :
    Bool × Bool → ℕ → ℕ → RunStatus → String → RunTable → RunTable × Option StoreError
unfolding attempt retry
set_status (fault1, fault2) now id status msg t =
    let (t', e) = attempt fault1 now id status msg t in retry fault2 now id status msg t' e

unchanged_on_error :
    (now id : ℕ) (s : RunStatus) (msg : String) (t : RunTable) (e : StoreError)
    → (set_run_status now id s msg t).1 ≡ some e
    → set_run_status now id s msg t ≡ (t, some e)
unfolding set_run_status
unchanged_on_error now id s msg t e h = ground arith

-- Either both attempts failed and nothing happened, or the outcome is that of one SetRunStatus.
pub set_status_cases :
    (faults : Bool × Bool) (now id : ℕ) (s : RunStatus) (msg : String) (t : RunTable)
    → (set_status faults now id s msg t ≡ (t, some write_failed))
      ⊎ (set_status faults now id s msg t ≡ set_run_status now id s msg t)
unfolding set_status
set_status_cases (true, true) now id s msg t = inl refl
set_status_cases (true, false) now id s msg t = inr refl
set_status_cases (false, fault) now id s msg t =
    elim (Option-cases (set_run_status now id s msg t).1) [
      | inl e ↦ inr (ground arith)
      | inr (e, h) ↦ let same = unchanged_on_error now id s msg t e h in rw same (after e same)
    ]
  where
    after :
        (e : StoreError)
        → set_run_status now id s msg t ≡ (t, some e)
        → (retry fault now id s msg t (some e) ≡ (t, some write_failed))
          ⊎ (retry fault now id s msg t (some e) ≡ (t, some e))
    after invalid_transition h = inr refl
    after e h = ground arith

pub set_status-IsTable :
    (faults : Bool × Bool) (now id : ℕ) (s : RunStatus) (msg : String) (t : RunTable)
    → IsTable t
    → IsTable (set_status faults now id s msg t).0
set_status-IsTable faults now id s msg t v = elim (set_status_cases faults now id s msg t) [
  | inl e ↦ rw e v
  | inr e ↦ rw e (set_run_status-IsTable t now id s msg v)
]

-- The write with its retry sets the status if it reports success, and otherwise changes nothing;
-- it reports success only for a run that is there and not terminal.
pub status-set_status :
    (faults : Bool × Bool) (now id : ℕ) (s : RunStatus) (msg : String) (t : RunTable) (j : ℕ)
    → IsTable t
    → let (t', e) = set_status faults now id s msg t in
      (status_at j t'.rows ≡ (if (id == j) && is_none e then some s else status_at j t.rows))
      × (is_none e ≡ true → is_active (status_at id t.rows) ≡ true)
status-set_status faults now id s msg t j v = elim (set_status_cases faults now id s msg t) [
  | inl e ↦ rw e (ground arith)
  | inr e ↦ rw e (
      ground
        (arith, status-set_run_status t now id s msg j v, error-set_run_status t now id s msg v))
]

pub attempt-IsTable :
    (fault : Bool) (now id : ℕ) (s : RunStatus) (msg : String) (t : RunTable)
    → IsTable t
    → IsTable (attempt fault now id s msg t).0
unfolding attempt
attempt-IsTable true now id s msg t v = v
attempt-IsTable false now id s msg t v = set_run_status-IsTable t now id s msg v

pub status-attempt :
    (fault : Bool) (now id : ℕ) (s : RunStatus) (msg : String) (t : RunTable) (j : ℕ)
    → IsTable t
    → let (t', e) = attempt fault now id s msg t in
      (status_at j t'.rows ≡ (if (id == j) && is_none e then some s else status_at j t.rows))
      × (is_none e ≡ true → is_active (status_at id t.rows) ≡ true)
unfolding attempt
status-attempt fault now id s msg t j v =
    ground (arith, status-set_run_status t now id s msg j v, error-set_run_status t now id s msg v)

-- A first attempt that the store does not fail reaches a run that is there and not terminal.
module _ (now id : ℕ) (s : RunStatus) (msg : String) (t : RunTable) (v : IsTable t)
    (active : is_active (status_at id t.rows) ≡ true) where
  pub lands-attempt : status_at id (attempt false now id s msg t).0.rows ≡ some s
  unfolding attempt
  lands-attempt = ground (arith, status-set_run_status t now id s msg id v)

  pub lands-set_status :
      (fault : Bool) → status_at id (set_status (false, fault) now id s msg t).0.rows ≡ some s
  unfolding set_status
  lands-set_status fault =
      ground
        (arith, status-set_run_status t now id s msg id v, error-set_run_status t now id s msg v)

pub next_id-set_status :
    (faults : Bool × Bool) (now id : ℕ) (s : RunStatus) (msg : String) (t : RunTable)
    → (set_status faults now id s msg t).0.next_id ≡ t.next_id
next_id-set_status faults now id s msg t = elim (set_status_cases faults now id s msg t) [
  | inl e ↦ rw e
  | inr e ↦ rw e (next_id-set_run_status t now id s msg)
]

pub next_id-attempt :
    (fault : Bool) (now id : ℕ) (s : RunStatus) (msg : String) (t : RunTable)
    → (attempt fault now id s msg t).0.next_id ≡ t.next_id
unfolding attempt
next_id-attempt fault now id s msg t = ground (arith, next_id-set_run_status t now id s msg)
