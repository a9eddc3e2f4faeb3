-- ===== src/Store/Catalog/Targets.antt =====
-- internal/store/targets.go and target_revisions.go.
use speedtest_tracker.Base.{
  ℕ, zero, suc, ◌+◌, ◌%◌, String, Bool, true, false, not, ◌&&◌, Option, none, some, List, [], ◌∷◌,
  str_eq, ltb, leb, ◌==◌, if◌then◌else◌, select, find, any,
}
use speedtest_tracker.Store.Catalog.{
  Queue, Target, RevisionAction, create, delete, restore, Snapshot, garbled, parsed, Revision, Db,
  not_found, id_conflict, unreadable, not_positive, Reply, ok, err,
}
use speedtest_tracker.Store.Catalog.Queues.{find_queue, resolve_snapshot_queue_id}

unfoldable pub raw_or_empty : String → String
raw_or_empty r = if str_eq r "" then "{}" else r

abbrev pub find_target : ℕ → List Target → Option Target
find_target id = find (λ t. t.id == id)

-- A row of targets with its queue's name: targetColumns and targetFrom. The inner join drops a row
-- whose queue does not exist.
unfoldable pub joined : List Queue → Option Target → Option Target
joined queues none = none
joined queues (some t) = elim (find_queue t.queue_id queues) [
  | none ↦ none
  | some q ↦ some (record t { queue_name = q.name })
]

unfoldable pub get_target : ℕ → Db → Reply Target
unfolding joined
get_target id db = elim (joined db.queues (find_target id db.targets)) [
  | none ↦ err not_found
  | some t ↦ ok t
]

-- ListTargetsByIDs: in the order of the ids, without those that have no row.
unfoldable pub list_targets_by_ids : List ℕ → Db → List Target
unfolding joined
list_targets_by_ids [] db = []
list_targets_by_ids (id ∷ ids) db =
    let rest = list_targets_by_ids ids db in
    elim (joined db.queues (find_target id db.targets)) [ none ↦ rest | some t ↦ t ∷ rest ]

abbrev pub max_target_revisions : ℕ
max_target_revisions = 50

abbrev pub max_of : ℕ → ℕ → ℕ
max_of a b = if ltb a b then b else a

-- SELECT COALESCE(MAX(version),0)
unfoldable pub max_version : ℕ → List Revision → ℕ
max_version id [] = 0
max_version id (r ∷ rs) =
    let rest = max_version id rs in if r.target_id == id then max_of r.version rest else rest

-- The DELETE of insertRevision; the difference in the source may be negative.
unfoldable pub is_old : ℕ → ℕ → Revision → Bool
is_old id newest r = (r.target_id == id) && leb (r.version + max_target_revisions) newest

unfoldable pub insert_revision : ℕ → ℕ → RevisionAction → Snapshot → List Revision → List Revision
unfolding max_version is_old
insert_revision now id action snapshot revisions =
    let newest = suc (max_version id revisions) in
    select (λ r. not (is_old id newest r))
      (record {
        target_id = id;
        version = newest;
        action = action;
        snapshot = snapshot;
        created_at = now;
      }
        ∷ revisions)

-- json.Marshal of a target, in insertRevision. `json` is what it makes of a json.RawMessage: the
-- compacted and escaped text of the document, or none for a text that is no JSON. json.Unmarshal
-- takes these texts as they stand; it gives back names, which are UTF-8, and numbers as they were.
unfoldable pub marshal : (String → Option String) → Target → Option Snapshot
marshal json t = elim (json t.options) [
  | none ↦ none
  | some options ↦ elim (json t.thresholds) [
    | none ↦ none
    | some thresholds ↦ some (parsed (record t { options = options; thresholds = thresholds }) "")
  ]
]

-- A row with its snapshot, if both can be made.
unfoldable pub with_snapshot : (String → Option String) → Option Target → Option (Target × Snapshot)
unfolding marshal
with_snapshot json none = none
with_snapshot json (some t) = elim (marshal json t) [ none ↦ none | some s ↦ some (t, s) ]

-- Reads the row back through the join and records the revision; the transaction is rolled back, to
-- `before`, if the join finds nothing or the row cannot be marshalled.
unfoldable pub read_back :
    (String → Option String) → ℕ → ℕ → RevisionAction → Db → Db → Db × Reply Target
unfolding insert_revision joined with_snapshot
read_back json now id action before db =
    elim (with_snapshot json (joined db.queues (find_target id db.targets))) [
      | none ↦ (before, err unreadable)
      | some (t, s) ↦ (record db { revisions = insert_revision now id action s db.revisions }, ok t)
    ]

-- The columns that an INSERT or UPDATE takes from the given target.
unfoldable pub written : Target → Target → Target
unfolding raw_or_empty
written t row = record row {
  name = t.name;
  engine = t.engine;
  enabled = t.enabled;
  queue_id = t.queue_id;
  options = raw_or_empty t.options;
  thresholds = raw_or_empty t.thresholds;
}

-- A row with the defaults of its columns.
unfoldable pub blank_row : ℕ → ℕ → ℕ → Target
blank_row id created updated = record {
  id = id;
  name = "";
  engine = "";
  enabled = true;
  queue_id = 1;
  queue_name = "";
  options = "{}";
  thresholds = "{}";
  rotation_index = 0;
  created_at = created;
  updated_at = updated;
}

unfoldable pub create_target : (String → Option String) → ℕ → Target → Db → Db × Reply Target
unfolding read_back written blank_row
create_target json now t db = read_back json now db.next_target create db (record db {
  targets = written t (blank_row db.next_target now now) ∷ db.targets;
  next_target = suc db.next_target;
})

unfoldable pub update_rows : ℕ → Target → List Target → List Target
unfolding written
update_rows now t [] = []
update_rows now t (row ∷ rows) =
    (if row.id == t.id then record (written t row) { updated_at = now } else row)
    ∷ update_rows now t rows

-- updateTargetWithAction, which UpdateTarget and RevertTarget call.
unfoldable pub update_target_with_action :
    (String → Option String) → RevisionAction → ℕ → Target → Db → Db × Reply Target
unfolding update_rows read_back
update_target_with_action json action now t db =
    if any (λ row. row.id == t.id) db.targets
    then read_back json now t.id action db (record db { targets = update_rows now t db.targets })
    else (db, err not_found)

-- DeleteTarget: the row as it stood goes into the revision.
unfoldable pub delete_target : (String → Option String) → ℕ → ℕ → Db → Db × Reply Target
unfolding joined insert_revision marshal
delete_target json now id db = elim (joined db.queues (find_target id db.targets)) [
  | none ↦ (db, err not_found)
  | some t ↦ elim (marshal json t) [
    | none ↦ (db, err unreadable)
    | some s ↦ (
      record db {
        targets = select (λ row. not (row.id == id)) db.targets;
        revisions = insert_revision now id delete s db.revisions;
      },
      ok t,
    )
  ]
]

unfoldable pub rotate_rows : ℕ → List Target → List Target
rotate_rows id [] = []
rotate_rows id (row ∷ rows) =
    (if row.id == id then record row { rotation_index = suc row.rotation_index } else row)
    ∷ rotate_rows id rows

-- NextRotationIndex, for n of 0 or less written 0.
unfoldable pub next_rotation_index : ℕ → ℕ → Db → Db × Reply ℕ
unfolding rotate_rows
next_rotation_index id zero db = (db, err not_positive)
next_rotation_index id (suc n) db = elim (find_target id db.targets) [
  | none ↦ (db, err not_found)
  | some t ↦ (record db { targets = rotate_rows id db.targets }, ok (t.rotation_index % suc n))
]

unfoldable pub get_target_revision : ℕ → ℕ → Db → Option Revision
get_target_revision id version db =
    find (λ r. (r.target_id == id) && r.version == version) db.revisions

-- The revision that the subquery `latest` joins with.
unfoldable pub latest_revision : ℕ → Db → Option Revision
unfolding get_target_revision max_version
latest_revision id db = get_target_revision id (max_version id db.revisions) db

abbrev is_delete : RevisionAction → Bool
is_delete delete = true
is_delete _ = false

unfoldable pub with_queue : Target → Reply ℕ → Reply Target
with_queue t (err e) = err e
with_queue t (ok q) = ok (record t { queue_id = q })

unfoldable pub read_snapshot : Snapshot → Db → Reply Target
unfolding with_queue
read_snapshot garbled db = err unreadable
read_snapshot (parsed t lane) db = with_queue t (resolve_snapshot_queue_id (parsed t lane) db)

unfoldable pub deleted_snapshot : Option Revision → Db → Reply Target
unfolding read_snapshot
deleted_snapshot none db = err not_found
deleted_snapshot (some r) db =
    if is_delete r.action && not (any (λ t. t.id == r.target_id) db.targets)
    then read_snapshot r.snapshot db
    else err not_found

-- LatestDeletedSnapshot
unfoldable pub latest_deleted_snapshot : ℕ → Db → Reply Target
unfolding latest_revision deleted_snapshot
latest_deleted_snapshot id db = deleted_snapshot (latest_revision id db) db

-- RestoreTarget
unfoldable pub restore_target : (String → Option String) → ℕ → Target → Db → Db × Reply Target
unfolding read_back written blank_row
restore_target json now t db =
    if any (λ row. row.id == t.id) db.targets
    then (db, err id_conflict)
    else read_back json now t.id restore db (record db {
      targets = written t (blank_row t.id t.created_at now) ∷ db.targets;
      next_target = max_of db.next_target (suc t.id);
    })
