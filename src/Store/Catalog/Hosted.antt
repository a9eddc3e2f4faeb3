-- ===== src/Store/Catalog/Hosted.antt =====
-- Every target runs somewhere: the queues and targets of internal/store over any calls.
pub mod Lanes
pub mod Reachable
use speedtest_tracker.Base.{
  ℕ, zero, suc, ◌+◌, ◌≤◌, ◌<◌, String, ◌≡◌, refl, Bool, true, false, not, ◌&&◌, Option, none, some,
  List, [], ◌∷◌, ◌++◌, arith, inl, inr, str_eq, leb, ◌==◌, if◌then◌else◌, is_some, length, select,
  find, any, All, Bool-cases, Option-cases,
}
use speedtest_tracker.Store.Catalog.{
  Queue, Target, RevisionAction, Snapshot, Db, Reply, ok, err, migrated,
}
use speedtest_tracker.Store.Catalog.Queues.{
  find_queue, create_queue, rename_queue, rename_rows, delete_queue,
}
use speedtest_tracker.Store.Catalog.Targets.{
  find_target, joined, create_target, update_rows, update_target_with_action, delete_target,
  rotate_rows, next_rotation_index, restore_target, read_back, written, blank_row,
}

-- The calls that change the tables; the numbers before a target are the time. `json` is what
-- json.Marshal makes of a document.
pub data Call : Type 0 where
  creates_queue : ℕ → String → Call
  renames_queue : ℕ → String → Call
  deletes_queue : ℕ → Call
  creates restores : ℕ → Target → Call
  updates : RevisionAction → ℕ → Target → Call
  deletes : ℕ → ℕ → Call
  rotates : ℕ → ℕ → Call

unfoldable pub step : (String → Option String) → Call → Db → Db
step json (creates_queue now name) db = (create_queue now name db).0
step json (renames_queue id name) db = (rename_queue id name db).0
step json (deletes_queue id) db = (delete_queue id db).0
step json (creates now t) db = (create_target json now t db).0
step json (restores now t) db = (restore_target json now t db).0
step json (updates action now t) db = (update_target_with_action json action now t db).0
step json (deletes now id) db = (delete_target json now id db).0
step json (rotates id n) db = (next_rotation_index id n db).0

unfoldable pub run : (String → Option String) → List Call → Db → Db
run json [] db = db
run json (c ∷ cs) db = run json cs (step json c db)

-- Ids that rise from n on, below the counter.
abbrev pub IsRising : ℕ → ℕ → List Queue → Type 0
IsRising n next [] = n ≤ next
IsRising n next (q ∷ qs) = (n ≤ q.id) × IsRising (suc q.id) next qs

abbrev pub has_queue : List Queue → Target → Bool
has_queue qs t = is_some (find_queue t.queue_id qs)

pub record IsHosted (db : Db) : Type 0 where
  pub rising : IsRising 1 db.next_queue db.queues
  pub some_queue : 0 < length db.queues
  pub hosted : All (λ t. has_queue db.queues t ≡ true) db.targets
