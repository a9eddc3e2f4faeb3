-- ===== src/Store/Runs/Status.antt =====
-- What SetRunStatus and CreateRun of internal/store/runs.go do to the status of every run.
use speedtest_tracker.Base.{
  ℕ, suc, ◌<◌, String, ◌≡◌, refl, inl, inr, Bool, true, false, ◌&&◌, Option, none, some, List, [],
  ◌∷◌, arith, ◌==◌, if◌then◌else◌, find, any, Bool-cases,
}
use mathlib.Core.Option
use speedtest_tracker.Store.Runs.{
  RunStatus, queued, Run, RunTable, StoreError, not_found, invalid_transition, is_terminal,
  create_run, set_clause, matches, update_rows, get_run, no_row_error, set_run_status,
}

-- Ids fall along the table and lie below n.
abbrev pub IsNewestFirst : ℕ → List Run → Type 0
IsNewestFirst n [] = Unit
IsNewestFirst n (r ∷ rs) = (r.id < n) × IsNewestFirst r.id rs

-- The representation invariant of the table, which `ORDER BY id DESC` and AUTOINCREMENT give.
abbrev pub IsTable : RunTable → Type 0
IsTable t = IsNewestFirst t.next_id t.rows

abbrev pub status_at : ℕ → List Run → Option RunStatus
status_at id [] = none
status_at id (r ∷ rs) = if r.id == id then some r.status else status_at id rs

abbrev pub is_active : Option RunStatus → Bool
is_active none = false
is_active (some s) = if is_terminal s then false else true

id-set_clause :
    (now : ℕ) (s : RunStatus) (msg : String) (r : Run) → (set_clause now s msg r).id ≡ r.id
unfolding set_clause
id-set_clause now RunStatus.queued msg r = refl
id-set_clause now _ msg r = refl

status-set_clause :
    (now : ℕ) (s : RunStatus) (msg : String) (r : Run) → (set_clause now s msg r).status ≡ s
unfolding set_clause
status-set_clause now RunStatus.queued msg r = refl
status-set_clause now _ msg r = refl

weaken : (rs : List Run) (m n : ℕ) → m < suc n → IsNewestFirst m rs → IsNewestFirst n rs
weaken [] m n h v = tt
weaken (r ∷ rs) m n h v = (omega arith, v.1)

-- No row from the bound on.
pub status_at_fresh :
    (rs : List Run) (n id : ℕ) → IsNewestFirst n rs → n < suc id → status_at id rs ≡ none
status_at_fresh [] n id v h = refl
status_at_fresh (r ∷ rs) n id v h = ground (arith, status_at_fresh rs r.id id)

-- A row can be moved exactly if it is there and not terminal.
any-matches :
    (rs : List Run) (n id : ℕ)
    → IsNewestFirst n rs
    → any (matches id) rs ≡ is_active (status_at id rs)
unfolding matches
any-matches [] n id v = refl
any-matches (r ∷ rs) n id v =
    ground (arith, any-matches rs r.id id, status_at_fresh rs r.id id, is_terminal)

status_at-update_rows :
    (rs : List Run) (n now id : ℕ) (s : RunStatus) (msg : String) (j : ℕ)
    → IsNewestFirst n rs
    → status_at j (update_rows (matches id) (set_clause now s msg) rs)
      ≡ (if (id == j) && is_active (status_at id rs) then some s else status_at j rs)
unfolding update_rows matches
status_at-update_rows [] n now id s msg j v = ground arith
status_at-update_rows (r ∷ rs) n now id s msg j v = ground (
  arith,
  status_at-update_rows rs r.id now id s msg j,
  id-set_clause now s msg r,
  status-set_clause now s msg r,
  status_at_fresh rs r.id id,
)

IsNewestFirst-update_rows :
    (rs : List Run) (n now id : ℕ) (s : RunStatus) (msg : String)
    → IsNewestFirst n rs
    → IsNewestFirst n (update_rows (matches id) (set_clause now s msg) rs)
unfolding update_rows
IsNewestFirst-update_rows [] n now id s msg v = tt
IsNewestFirst-update_rows (r ∷ rs) n now id s msg v = elim (Bool-cases (matches id r)) [
  | inl e ↦
      rw (e, id-set_clause now s msg r) (v.0, IsNewestFirst-update_rows rs r.id now id s msg v.1)
  | inr e ↦ rw e (v.0, IsNewestFirst-update_rows rs r.id now id s msg v.1)
]

-- The table stays a table.
pub set_run_status-IsTable :
    (t : RunTable) (now id : ℕ) (s : RunStatus) (msg : String)
    → IsTable t
    → IsTable (set_run_status now id s msg t).0
unfolding set_run_status
set_run_status-IsTable t now id s msg v = elim (Bool-cases (any (matches id) t.rows)) [
  | inl e ↦ rw e (IsNewestFirst-update_rows t.rows t.next_id now id s msg v)
  | inr e ↦ rw e v
]

-- In a table with distinct ids, SetRunStatus gives the run its new status if the run is there and
-- not terminal, and changes the status of no other run and of no terminal one.
pub status-set_run_status :
    (t : RunTable) (now id : ℕ) (s : RunStatus) (msg : String) (j : ℕ)
    → IsTable t
    → status_at j (set_run_status now id s msg t).0.rows
      ≡ (if (id == j) && is_active (status_at id t.rows) then some s else status_at j t.rows)
unfolding set_run_status
status-set_run_status t now id s msg j v = ground (
  arith,
  any-matches t.rows t.next_id id v,
  status_at-update_rows t.rows t.next_id now id s msg j v,
)

status_at-find :
    (rs : List Run) (id : ℕ)
    → status_at id rs ≡ Option.map (λ (r : Run). r.status) (find (λ r. r.id == id) rs)
status_at-find [] id = refl
status_at-find (r ∷ rs) id = ground (arith, status_at-find rs id)

-- The answer that the status of the row calls for.
abbrev pub expected_error : Option RunStatus → Option StoreError
expected_error none = some not_found
expected_error (some s) = if is_terminal s then some invalid_transition else none

-- In a table with distinct ids, SetRunStatus succeeds on a run that is not terminal, answers
-- ErrNotFound for a missing run and ErrInvalidTransition for a terminal one, and never ends in its
-- "no rows updated" branch.
pub error-set_run_status :
    (t : RunTable) (now id : ℕ) (s : RunStatus) (msg : String)
    → IsTable t
    → (set_run_status now id s msg t).1 ≡ expected_error (status_at id t.rows)
unfolding set_run_status get_run no_row_error
error-set_run_status t now id s msg v =
    ground (arith, any-matches t.rows t.next_id id v, status_at-find t.rows id)

pub create_run-IsTable :
    (t : RunTable) (trigger : String) (schedule : Option ℕ)
    → IsTable t
    → IsTable (create_run trigger schedule t).0
unfolding create_run
create_run-IsTable t trigger schedule v = (omega arith, v)

pub status-create_run :
    (t : RunTable) (trigger : String) (schedule : Option ℕ) (j : ℕ)
    → status_at j (create_run trigger schedule t).0.rows
      ≡ (if t.next_id == j then some queued else status_at j t.rows)
unfolding create_run
status-create_run t trigger schedule j = refl

pub next_id-set_run_status :
    (t : RunTable) (now id : ℕ) (s : RunStatus) (msg : String)
    → (set_run_status now id s msg t).0.next_id ≡ t.next_id
unfolding set_run_status
next_id-set_run_status t now id s msg = ground arith
