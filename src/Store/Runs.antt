-- ===== src/Store/Runs.antt =====
-- internal/store/runs.go and `InsertSkippedRun` of internal/store/schedules.go: the runs table.
-- A table is its rows, newest id first, and the AUTOINCREMENT counter; a timestamp is a number.
pub mod Status
pub mod Active
pub mod Pages
pub mod Pruning
use speedtest_tracker.Base.{
  ℕ, suc, ◌+◌, ◌-◌, String, Bool, true, false, not, ◌&&◌, Option, none, some, List, [], ◌∷◌, str_eq,
  ltb, ◌==◌, if◌then◌else◌, length, take, select, find, any,
}
use mathlib.Core.Option

pub data RunStatus : Type 0 where
  queued running done failed canceled skipped : RunStatus

pub record Run : Type 0 where
  pub id : ℕ
  pub schedule_id : Option ℕ
  pub trigger : String
  pub status : RunStatus
  pub started_at : Option ℕ
  pub finished_at : Option ℕ
  pub error : Option String

pub record RunTable : Type 0 where
  pub rows : List Run
  pub next_id : ℕ

pub data StoreError : Type 0 where
  not_found invalid_transition write_failed no_rows_updated : StoreError

-- terminalRunStatuses, which is also the list in the WHERE clause of SetRunStatus.
abbrev pub is_terminal : RunStatus → Bool
is_terminal queued = false
is_terminal running = false
is_terminal _ = true

abbrev pub empty : RunTable
empty = record { rows = []; next_id = 1 }

unfoldable pub create_run : String → Option ℕ → RunTable → RunTable × ℕ
create_run trigger schedule t =
    (record t { rows = row ∷ t.rows; next_id = suc t.next_id }, t.next_id)
  where
    row : Run
    row = record {
      id = t.next_id;
      schedule_id = schedule;
      trigger = trigger;
      status = queued;
      started_at = none;
      finished_at = none;
      error = none;
    }

-- nullString, and the `errVal` of SetRunStatus: an empty text is stored as NULL.
null_string : String → Option String
null_string s = if str_eq s "" then none else some s

abbrev coalesce {ℓ} : {A : Type ℓ} → Option A → Option A → Option A
coalesce none b = b
coalesce (some a) b = some a

-- The SET clause of SetRunStatus.
set_clause : ℕ → RunStatus → String → Run → Run
unfolding null_string
set_clause now running msg r = record r {
  status = running;
  error = coalesce (null_string msg) r.error;
  started_at = coalesce r.started_at (some now);
}
set_clause now queued msg r = record r {
  status = queued;
  error = coalesce (null_string msg) r.error;
}
set_clause now status msg r = record r {
  status = status;
  error = coalesce (null_string msg) r.error;
  finished_at = some now;
}

-- WHERE id=? AND status NOT IN ('done','failed','canceled','skipped')
unfoldable pub matches : ℕ → Run → Bool
matches id r = (r.id == id) && not (is_terminal r.status)

update_rows : (Run → Bool) → (Run → Run) → List Run → List Run
update_rows p f [] = []
update_rows p f (r ∷ rs) = (if p r then f r else r) ∷ update_rows p f rs

unfoldable pub get_run : ℕ → RunTable → Option Run
get_run id t = find (λ r. r.id == id) t.rows

-- What SetRunStatus returns when its UPDATE touched no row.
no_row_error : Option Run → StoreError
no_row_error none = not_found
no_row_error (some r) = if is_terminal r.status then invalid_transition else no_rows_updated

unfoldable pub set_run_status : ℕ → ℕ → RunStatus → String → RunTable → RunTable × Option StoreError
unfolding set_clause matches update_rows get_run no_row_error
set_run_status now id status msg t =
    if any (matches id) t.rows
    then (record t { rows = update_rows (matches id) (set_clause now status msg) t.rows }, none)
    else (t, some (no_row_error (get_run id t)))

abbrev pub is_busy : RunStatus → Bool
is_busy queued = true
is_busy running = true
is_busy _ = false

abbrev pub opt_eq : Option ℕ → Option ℕ → Bool
opt_eq (some a) (some b) = a == b
opt_eq _ _ = false

-- ORDER BY id DESC LIMIT 1 is the first match, as the newest row stands first.
unfoldable pub queued_run_for_schedule : ℕ → RunTable → Option ℕ
queued_run_for_schedule schedule t =
    Option.map (λ (r : Run). r.id)
      (find (λ r. opt_eq r.schedule_id (some schedule) && is_busy r.status) t.rows)

unfoldable pub insert_skipped_run : ℕ → ℕ → String → RunTable → RunTable × ℕ
unfolding null_string
insert_skipped_run now schedule reason t =
    (record t { rows = row ∷ t.rows; next_id = suc t.next_id }, t.next_id)
  where
    row : Run
    row = record {
      id = t.next_id;
      schedule_id = some schedule;
      trigger = "cron";
      status = skipped;
      started_at = some now;
      finished_at = some now;
      error = null_string reason;
    }

-- A page size of 0 or less is written 0.
unfoldable pub clamp_limit : ℕ → ℕ
clamp_limit limit = if limit == 0 then 50 else if ltb 500 limit then 500 else limit

pub record RunFilter : Type 0 where
  pub schedule_id : Option ℕ
  pub limit : ℕ
  pub cursor : ℕ

-- The WHERE clause of ListRuns.
unfoldable pub list_matches : RunFilter → Run → Bool
list_matches f r =
    (if f.cursor == 0 then true else ltb r.id f.cursor)
    && (elim f.schedule_id [ none ↦ true | some s ↦ opt_eq r.schedule_id (some s) ])

abbrev last_id : List Run → ℕ
last_id [] = 0
last_id (r ∷ []) = r.id
last_id (r ∷ rs) = last_id rs

-- The page and the cursor of the next one, 0 when there is none.
unfoldable pub list_runs : RunFilter → RunTable → List Run × ℕ
unfolding clamp_limit list_matches
list_runs f t =
    let limit = clamp_limit f.limit in
    let out = take (limit + 1) (select (list_matches f) t.rows) in
    if ltb limit (length out) then (take limit out, last_id (take limit out)) else (out, 0)

-- The inner SELECT of PruneRunsBefore, without its LIMIT.
unfoldable pub prunable : ℕ → (ℕ → Bool) → Run → Bool
prunable cutoff has_results r =
    (elim (coalesce r.finished_at r.started_at) [ none ↦ false | some at ↦ ltb at cutoff ])
    && (is_terminal r.status && not (has_results r.id))

-- Deletes the `batch` matching rows of lowest id: the rows that stay, and what is left of the batch.
prune_oldest : (Run → Bool) → ℕ → List Run → List Run × ℕ
prune_oldest p batch [] = ([], batch)
prune_oldest p batch (r ∷ rs) =
    let (kept, left) = prune_oldest p batch rs in
    if p r && ltb 0 left then (kept, left - 1) else (r ∷ kept, left)

-- The table and the number of rows deleted. A batch of 0 or less is written 0.
unfoldable pub prune_runs_before : ℕ → ℕ → (ℕ → Bool) → RunTable → RunTable × ℕ
unfolding prunable prune_oldest
prune_runs_before cutoff batch has_results t =
    let size : ℕ = if batch == 0 then 1000 else batch in
    let (kept, left) = prune_oldest (prunable cutoff has_results) size t.rows in
    (record t { rows = kept }, size - left)
