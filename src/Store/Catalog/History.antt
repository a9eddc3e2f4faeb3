-- ===== src/Store/Catalog/History.antt =====
-- The change history that insertRevision of internal/store/target_revisions.go keeps.
use speedtest_tracker.Base.{
  ℕ, zero, suc, ◌+◌, ◌≤◌, String, ◌≡◌, refl, ap, ◌∙◌, not, Option, none, some, List, [], ◌∷◌, arith,
  inl, inr, leb, ◌==◌, if◌then◌else◌, select, any, Bool-cases,
}
use speedtest_tracker.Store.Catalog.{
  Target, RevisionAction, create, delete, restore, Snapshot, Revision, Db, migrated,
}
use speedtest_tracker.Store.Catalog.Queues.{create_queue, rename_queue, delete_queue}
use speedtest_tracker.Store.Catalog.Targets.{
  find_target, joined, max_of, max_version, is_old, insert_revision, marshal, with_snapshot,
  read_back, create_target, update_rows, written, blank_row, update_target_with_action,
  delete_target, next_rotation_index, restore_target,
}
use speedtest_tracker.Store.Catalog.Hosted.{
  Call, creates_queue, renames_queue, deletes_queue, creates, restores, updates, deletes, rotates,
  step, run,
}

-- The versions of a target that are kept, newest first.
abbrev pub versions : ℕ → List Revision → List ℕ
versions id [] = []
versions id (r ∷ rs) = if r.target_id == id then r.version ∷ versions id rs else versions id rs

-- n, n - 1, ... down to 1, at most k of them.
abbrev pub countdown : ℕ → ℕ → List ℕ
countdown n zero = []
countdown zero (suc k) = []
countdown (suc n) (suc k) = suc n ∷ countdown n k

abbrev pub largest : List ℕ → ℕ
largest [] = 0
largest (v ∷ vs) = max_of v (largest vs)

abbrev unpruned : ℕ → List ℕ → List ℕ
unpruned newest = select (λ v. not (leb (v + 50) newest))

pub max_version-largest :
    (id : ℕ) (rs : List Revision) → max_version id rs ≡ largest (versions id rs)
unfolding max_version
max_version-largest id [] = refl
max_version-largest id (r ∷ rs) = ground (arith, max_version-largest id rs)

largest-countdown-le : (n k : ℕ) → largest (countdown n k) ≤ n
largest-countdown-le n zero = omega arith
largest-countdown-le zero (suc k) = omega arith
largest-countdown-le (suc n) (suc k) = ground (arith, largest-countdown-le n k)

pub largest-countdown : (n k : ℕ) → largest (countdown n (suc k)) ≡ n
largest-countdown zero k = refl
largest-countdown (suc n) k = ground (arith, largest-countdown-le n k)

versions-select :
    (k newest id : ℕ) (rs : List Revision)
    → versions id (select (λ r. not (is_old k newest r)) rs)
      ≡ (if k == id then unpruned newest (versions id rs) else versions id rs)
unfolding is_old
versions-select k newest id [] = ground arith
versions-select k newest id (r ∷ rs) = ground (arith, versions-select k newest id rs)

unpruned-countdown :
    (newest n k : ℕ) → n + 50 ≡ newest + k → unpruned newest (countdown n (suc k)) ≡ countdown n k
unpruned-countdown newest zero zero e = refl
unpruned-countdown newest zero (suc k) e = refl
unpruned-countdown newest (suc n) zero e = ground arith
unpruned-countdown newest (suc n) (suc k) e =
    ground (arith, unpruned-countdown newest n k (omega (arith, e)))

abbrev IsKept : ℕ → List Revision → Type 0
IsKept id rs = (m : ℕ) × (versions id rs ≡ countdown m 50)

pub versions-insert_revision :
    (now k : ℕ) (action : RevisionAction) (t : Snapshot) (rs : List Revision) (id m : ℕ)
    → versions k rs ≡ countdown m 50
    → versions id (insert_revision now k action t rs)
      ≡ (if k == id then countdown (suc m) 50 else versions id rs)
unfolding insert_revision
versions-insert_revision now k action t rs id m e =
    let newest : max_version k rs ≡ m =
      max_version-largest k rs ∙ ap largest e ∙ largest-countdown m 49 in
    versions-select k (suc (max_version k rs)) id (row ∷ rs) ∙ shown newest
  where
    row : Revision
    row = record {
      target_id = k;
      version = suc (max_version k rs);
      action = action;
      snapshot = t;
      created_at = now;
    }

    shown :
        max_version k rs ≡ m
        → (if k == id
            then unpruned (suc (max_version k rs)) (versions id (row ∷ rs))
            else versions id (row ∷ rs))
          ≡ (if k == id then countdown (suc m) 50 else versions id rs)
    shown newest = elim (Bool-cases (k == id)) [
      | inl same ↦
          let here : versions id rs ≡ countdown m 50 = ap (λ i. versions i rs) (ground arith) ∙ e in
          let left = unpruned-countdown (suc (max_version k rs)) m 49 (omega (arith, newest)) in
          rw (same, here) (ground (arith, left))
      | inr other ↦ rw other refl
    ]

insert_revision-IsKept :
    (now k : ℕ) (action : RevisionAction) (t : Snapshot) (rs : List Revision) (id : ℕ)
    → IsKept k rs
    → IsKept id rs
    → IsKept id (insert_revision now k action t rs)
insert_revision-IsKept now k action t rs id (m, e) (n, f) = elim (Bool-cases (k == id)) [
  | inl same ↦ (suc m, versions-insert_revision now k action t rs id m e ∙ rw same refl)
  | inr other ↦ (n, versions-insert_revision now k action t rs id m e ∙ rw other f)
]

abbrev IsRemembered : Db → Type 0
IsRemembered db = (id : ℕ) → IsKept id db.revisions

read_back-IsRemembered :
    (json : String → Option String) (now id : ℕ) (action : RevisionAction) (db : Db)
    (ts : List Target) (n : ℕ)
    → IsRemembered db
    → IsRemembered (read_back json now id action db (record db { targets = ts; next_target = n })).0
unfolding read_back
read_back-IsRemembered json now id action db ts n v =
    go (with_snapshot json (joined db.queues (find_target id ts))) refl
  where
    go :
        (o : Option (Target × Snapshot))
        → with_snapshot json (joined db.queues (find_target id ts)) ≡ o
        → IsRemembered
            (read_back json now id action db (record db { targets = ts; next_target = n })).0
    go none e = rw (e, read_back) v
    go (some (t, s)) e =
        rw (e, read_back) (λ i. insert_revision-IsKept now id action s db.revisions i (v id) (v i))

create_queue-revisions :
    (now : ℕ) (name : String) (db : Db) → (create_queue now name db).0.revisions ≡ db.revisions
unfolding create_queue
create_queue-revisions now name db = ground arith

rename_queue-revisions :
    (id : ℕ) (name : String) (db : Db) → (rename_queue id name db).0.revisions ≡ db.revisions
unfolding rename_queue
rename_queue-revisions id name db = ground arith

delete_queue-revisions : (id : ℕ) (db : Db) → (delete_queue id db).0.revisions ≡ db.revisions
unfolding delete_queue
delete_queue-revisions id db = ground arith

rotate-revisions : (id n : ℕ) (db : Db) → (next_rotation_index id n db).0.revisions ≡ db.revisions
unfolding next_rotation_index
rotate-revisions id zero db = refl
rotate-revisions id (suc n) db = ground arith

same-IsRemembered :
    (before after : Db)
    → after.revisions ≡ before.revisions
    → IsRemembered before
    → IsRemembered after
same-IsRemembered before after e v id =
    let (m, kept) = v id in (m, ap (λ rs. versions id rs) e ∙ kept)

update-IsRemembered :
    (json : String → Option String) (action : RevisionAction) (now : ℕ) (t : Target) (db : Db)
    → IsRemembered db
    → IsRemembered (update_target_with_action json action now t db).0
unfolding update_target_with_action
update-IsRemembered json action now t db v =
    elim (Bool-cases (any (λ row. row.id == t.id) db.targets)) [
      | inr gone ↦ rw gone v
      | inl live ↦ rw live (
          read_back-IsRemembered json now t.id action db (update_rows now t db.targets)
            db.next_target v)
    ]

restore-IsRemembered :
    (json : String → Option String) (now : ℕ) (t : Target) (db : Db)
    → IsRemembered db
    → IsRemembered (restore_target json now t db).0
unfolding restore_target
restore-IsRemembered json now t db v = elim (Bool-cases (any (λ row. row.id == t.id) db.targets)) [
  | inl live ↦ rw live v
  | inr gone ↦ rw gone (
      read_back-IsRemembered json now t.id restore db
        (written t (blank_row t.id t.created_at now) ∷ db.targets)
        (max_of db.next_target (suc t.id)) v)
]

delete-IsRemembered :
    (json : String → Option String) (now id : ℕ) (db : Db)
    → IsRemembered db
    → IsRemembered (delete_target json now id db).0
unfolding delete_target
delete-IsRemembered json now id db v = go (joined db.queues (find_target id db.targets)) refl
  where
    kept :
        (t : Target) (o : Option Snapshot)
        → joined db.queues (find_target id db.targets) ≡ some t
        → marshal json t ≡ o
        → IsRemembered (delete_target json now id db).0
    kept t none e f = rw (e, delete_target, f) v
    kept t (some s) e f =
        rw (e, delete_target, f)
          (λ i. insert_revision-IsKept now id delete s db.revisions i (v id) (v i))

    go :
        (o : Option Target)
        → joined db.queues (find_target id db.targets) ≡ o
        → IsRemembered (delete_target json now id db).0
    go none e = rw (e, delete_target) v
    go (some t) e = kept t (marshal json t) e refl

step-IsRemembered :
    (json : String → Option String) (c : Call) (db : Db)
    → IsRemembered db
    → IsRemembered (step json c db)
unfolding step create_target
step-IsRemembered json (creates_queue now name) db v =
    same-IsRemembered db (create_queue now name db).0 (create_queue-revisions now name db) v
step-IsRemembered json (renames_queue id name) db v =
    same-IsRemembered db (rename_queue id name db).0 (rename_queue-revisions id name db) v
step-IsRemembered json (deletes_queue id) db v =
    same-IsRemembered db (delete_queue id db).0 (delete_queue-revisions id db) v
step-IsRemembered json (creates now t) db v =
    read_back-IsRemembered json now db.next_target create db
      (written t (blank_row db.next_target now now) ∷ db.targets) (suc db.next_target) v
step-IsRemembered json (restores now t) db v = restore-IsRemembered json now t db v
step-IsRemembered json (updates action now t) db v = update-IsRemembered json action now t db v
step-IsRemembered json (deletes now id) db v = delete-IsRemembered json now id db v
step-IsRemembered json (rotates id n) db v =
    same-IsRemembered db (next_rotation_index id n db).0 (rotate-revisions id n db) v

-- Over any calls on a migrated database, the revisions that are kept of a target are its last 50
-- versions, or all if there are fewer, numbered without a gap and newest first.
pub versions-run :
    (json : String → Option String) (cs : List Call) (id : ℕ)
    → (m : ℕ) × (versions id (run json cs migrated).revisions ≡ countdown m 50)
unfolding run migrated
versions-run json cs id = go cs migrated (λ i. (0, refl)) id
  where
    go : (cs : List Call) (db : Db) → IsRemembered db → IsRemembered (run json cs db)
    go [] db v = v
    go (c ∷ cs) db v = go cs (step json c db) (step-IsRemembered json c db v)
