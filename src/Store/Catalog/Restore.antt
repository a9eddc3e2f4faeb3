-- ===== src/Store/Catalog/Restore.antt =====
-- Deleting a target and restoring it: internal/store/targets.go and target_revisions.go together.
use speedtest_tracker.Base.{ℕ, suc, ◌≡◌, false, Option, some, List, String, str_eq}
use speedtest_tracker.Store.Catalog.{Target, delete, Snapshot, Revision, Db, ok}
use speedtest_tracker.Store.Catalog.Targets.{
  get_target, max_version, delete_target, latest_deleted_snapshot, restore_target,
}

-- A target with its documents as a snapshot has them.
abbrev pub with_documents : String → String → Target → Target
with_documents options thresholds t = record t { options = options; thresholds = thresholds }

-- A target as it is after a restore: the rotation starts again and the row counts as just updated.
abbrev pub restored : ℕ → Target → Target
restored later t = record t { rotation_index = 0; updated_at = later }

-- json.Marshal has written the text: it is not empty, and is marshalled again as it stands.
abbrev pub IsMarshalled : (String → Option String) → String → Type 0
IsMarshalled json d = (str_eq d "" ≡ false) × (json d ≡ some d)

deleted_row : ℕ → ℕ → Snapshot → List Revision → Revision
deleted_row now id t rs = record {
  target_id = id;
  version = suc (max_version id rs);
  action = delete;
  snapshot = t;
  created_at = now;
}

module _ (json : String → Option String) where
  -- The documents of the target t, as json.Marshal writes them.
  abbrev RoundTrip : ℕ → ℕ → ℕ → Target → Target → Db → Type 0
  RoundTrip now later id t u db =
      ((delete_target json now id db).1 ≡ ok t)
      × (latest_deleted_snapshot id (delete_target json now id db).0 ≡ ok u)
      × ((restore_target json later u (delete_target json now id db).0).1 ≡ ok (restored later u))
      × (get_target id (restore_target json later u (delete_target json now id db).0).0
          ≡ ok (restored later u))
