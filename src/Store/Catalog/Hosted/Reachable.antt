-- ===== src/Store/Catalog/Hosted/Reachable.antt =====
-- The calls of internal/store/targets.go and target_revisions.go keep every target in a queue.
use speedtest_tracker.Base.{
  ℕ, zero, suc, ◌≡◌, refl, String, Bool, true, not, Option, none, some, List, [], ◌∷◌, arith, inl,
  inr, ◌==◌, is_some, select, any, All, Bool-cases,
}
use speedtest_tracker.Store.Catalog.{
  Queue, Target, RevisionAction, create, restore, Snapshot, Db, migrated,
}
use speedtest_tracker.Store.Catalog.Targets.{
  find_target, joined, create_target, update_rows, update_target_with_action, delete_target, max_of,
  rotate_rows, next_rotation_index, restore_target, marshal, with_snapshot, read_back, written,
  blank_row,
}
use speedtest_tracker.Store.Catalog.Hosted.{
  Call, creates_queue, renames_queue, deletes_queue, creates, restores, updates, deletes, rotates,
  step, run, has_queue, IsHosted,
}
use speedtest_tracker.Store.Catalog.Hosted.Lanes.{
  create_queue-IsHosted, rename_queue-IsHosted, delete_queue-IsHosted,
}

abbrev IsPlaced : List Queue → List Target → Type 0
IsPlaced qs ts = All (λ t. has_queue qs t ≡ true) ts

with_snapshot-is_some :
    (json : String → Option String) (o : Option Target) (t : Target) (s : Snapshot)
    → with_snapshot json o ≡ some (t, s)
    → is_some o ≡ true
unfolding with_snapshot
with_snapshot-is_some json none t s e = ground arith
with_snapshot-is_some json (some u) t s e = refl

-- A transaction that reads its row back leaves rows that all have a queue, if they do where the
-- row that is read has one.
read_back-IsHosted :
    (json : String → Option String) (now id : ℕ) (action : RevisionAction) (db : Db)
    (ts : List Target) (n : ℕ)
    → IsHosted db
    → (is_some (joined db.queues (find_target id ts)) ≡ true → IsPlaced db.queues ts)
    → IsHosted (read_back json now id action db (record db { targets = ts; next_target = n })).0
unfolding read_back
read_back-IsHosted json now id action db ts n v placed =
    go (with_snapshot json (joined db.queues (find_target id ts))) refl
  where
    go :
        (o : Option (Target × Snapshot))
        → with_snapshot json (joined db.queues (find_target id ts)) ≡ o
        → IsHosted (read_back json now id action db (record db { targets = ts; next_target = n })).0
    go none h = rw (h, read_back) v
    go (some (t, s)) h =
        rw (h, read_back)
          (record {
            rising = v.rising;
            some_queue = v.some_queue;
            hosted =
                placed (with_snapshot-is_some json (joined db.queues (find_target id ts)) t s h);
          })

joined-has_queue :
    (qs : List Queue) (t : Target) → is_some (joined qs (some t)) ≡ true → has_queue qs t ≡ true
unfolding joined
joined-has_queue qs t h = ground arith

found_first : (t : Target) (ts : List Target) → find_target t.id (t ∷ ts) ≡ some t
found_first t ts = ground arith

create_target-IsHosted :
    (json : String → Option String) (now : ℕ) (t : Target) (db : Db)
    → IsHosted db
    → IsHosted (create_target json now t db).0
unfolding create_target
create_target-IsHosted json now t db v =
    read_back-IsHosted json now db.next_target create db (row ∷ db.targets) (suc db.next_target) v
      λ h. (joined-has_queue db.queues row (rw⁻¹ (found_first row db.targets) h), v.hosted)
  where
    row : Target
    row = written t (blank_row db.next_target now now)

restore_target-IsHosted :
    (json : String → Option String) (now : ℕ) (t : Target) (db : Db)
    → IsHosted db
    → IsHosted (restore_target json now t db).0
unfolding restore_target
restore_target-IsHosted json now t db v =
    elim (Bool-cases (any (λ row. row.id == t.id) db.targets)) [
      | inl live ↦ rw live v
      | inr gone ↦ rw gone (
          read_back-IsHosted json now t.id restore db (row ∷ db.targets)
            (max_of db.next_target (suc t.id)) v
            λ h. (joined-has_queue db.queues row (rw⁻¹ (found_first row db.targets) h), v.hosted))
    ]
  where
    row : Target
    row = written t (blank_row t.id t.created_at now)

-- Every row that an UPDATE wrote has the queue of the first of them.
updated_queue :
    (now : ℕ) (t : Target) (qs : List Queue) (ts : List Target)
    → IsPlaced qs ts
    → has_queue qs t ≡ true
    → IsPlaced qs (update_rows now t ts)
unfolding update_rows written
updated_queue now t qs [] v h = tt
updated_queue now t qs (row ∷ rows) v h =
    let rest = updated_queue now t qs rows v.1 h in ground arith

find-update_rows :
    (now : ℕ) (t : Target) (qs : List Queue) (ts : List Target)
    → is_some (joined qs (find_target t.id (update_rows now t ts))) ≡ true
    → has_queue qs t ≡ true
unfolding update_rows written joined
find-update_rows now t qs [] h = ground arith
find-update_rows now t qs (row ∷ rows) h = ground (arith, find-update_rows now t qs rows)

update-IsHosted :
    (json : String → Option String) (action : RevisionAction) (now : ℕ) (t : Target) (db : Db)
    → IsHosted db
    → IsHosted (update_target_with_action json action now t db).0
unfolding update_target_with_action
update-IsHosted json action now t db v =
    elim (Bool-cases (any (λ row. row.id == t.id) db.targets)) [
      | inr gone ↦ rw gone v
      | inl live ↦ rw live (
          read_back-IsHosted json now t.id action db (update_rows now t db.targets) db.next_target v
            λ h.
              updated_queue now t db.queues db.targets v.hosted
                (find-update_rows now t db.queues db.targets h))
    ]

select-IsPlaced :
    (p : Target → Bool) (qs : List Queue) (ts : List Target)
    → IsPlaced qs ts
    → IsPlaced qs (select p ts)
select-IsPlaced p qs [] v = tt
select-IsPlaced p qs (t ∷ ts) v = let rest = select-IsPlaced p qs ts v.1 in ground arith

delete_target-IsHosted :
    (json : String → Option String) (now id : ℕ) (db : Db)
    → IsHosted db
    → IsHosted (delete_target json now id db).0
unfolding delete_target
delete_target-IsHosted json now id db v = go (joined db.queues (find_target id db.targets)) refl
  where
    kept :
        (t : Target) (o : Option Snapshot)
        → joined db.queues (find_target id db.targets) ≡ some t
        → marshal json t ≡ o
        → IsHosted (delete_target json now id db).0
    kept t none e f = rw (e, delete_target, f) v
    kept t (some s) e f =
        rw (e, delete_target, f)
          (record {
            rising = v.rising;
            some_queue = v.some_queue;
            hosted = select-IsPlaced (λ row. not (row.id == id)) db.queues db.targets v.hosted;
          })

    go :
        (o : Option Target)
        → joined db.queues (find_target id db.targets) ≡ o
        → IsHosted (delete_target json now id db).0
    go none e = rw (e, delete_target) v
    go (some t) e = kept t (marshal json t) e refl

rotate-IsPlaced :
    (id : ℕ) (qs : List Queue) (ts : List Target) → IsPlaced qs ts → IsPlaced qs (rotate_rows id ts)
unfolding rotate_rows
rotate-IsPlaced id qs [] v = tt
rotate-IsPlaced id qs (t ∷ ts) v = let rest = rotate-IsPlaced id qs ts v.1 in ground arith

rotate-IsHosted : (id n : ℕ) (db : Db) → IsHosted db → IsHosted (next_rotation_index id n db).0
unfolding next_rotation_index
rotate-IsHosted id zero db v = v
rotate-IsHosted id (suc n) db v = go (find_target id db.targets) refl
  where
    go :
        (o : Option Target)
        → find_target id db.targets ≡ o
        → IsHosted (next_rotation_index id (suc n) db).0
    go none e = rw (e, next_rotation_index) v
    go (some t) e =
        rw (e, next_rotation_index)
          (record {
            rising = v.rising;
            some_queue = v.some_queue;
            hosted = rotate-IsPlaced id db.queues db.targets v.hosted;
          })

step-IsHosted :
    (json : String → Option String) (c : Call) (db : Db) → IsHosted db → IsHosted (step json c db)
unfolding step
step-IsHosted json (creates_queue now name) db v = create_queue-IsHosted now name db v
step-IsHosted json (renames_queue id name) db v = rename_queue-IsHosted id name db v
step-IsHosted json (deletes_queue id) db v = delete_queue-IsHosted id db v
step-IsHosted json (creates now t) db v = create_target-IsHosted json now t db v
step-IsHosted json (restores now t) db v = restore_target-IsHosted json now t db v
step-IsHosted json (updates action now t) db v = update-IsHosted json action now t db v
step-IsHosted json (deletes now id) db v = delete_target-IsHosted json now id db v
step-IsHosted json (rotates id n) db v = rotate-IsHosted id n db v

pub run-IsHosted :
    (json : String → Option String) (cs : List Call) (db : Db)
    → IsHosted db
    → IsHosted (run json cs db)
unfolding run
run-IsHosted json [] db v = v
run-IsHosted json (c ∷ cs) db v = run-IsHosted json cs (step json c db) (step-IsHosted json c db v)

-- Over any calls with any arguments on a migrated database, although no constraint of the schema
-- says so: there is always a queue, queue ids rise and stay below their counter, and the queue of
-- every target exists.
pub catalog-IsHosted :
    (json : String → Option String) (cs : List Call) → IsHosted (run json cs migrated)
unfolding migrated
catalog-IsHosted json cs = run-IsHosted json cs migrated start
  where
    start : IsHosted migrated
    start = ground arith
