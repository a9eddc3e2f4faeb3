-- ===== src/Store/Catalog/Queues.antt =====
-- internal/store/queues.go.
use speedtest_tracker.Base.{
  ℕ, suc, String, not, ◌&&◌, Option, none, some, List, [], ◌∷◌, ◌++◌, str_eq, leb, ◌==◌,
  if◌then◌else◌, length, select, find, any,
}
use speedtest_tracker.Store.Catalog.{
  Queue, Snapshot, garbled, parsed, Db, not_found, name_conflict, last_queue, queue_in_use,
  unreadable, Reply, ok, err,
}

abbrev or_not_found {ℓ} : {A : Type ℓ} → Option A → Reply A
or_not_found none = err not_found
or_not_found (some a) = ok a

abbrev pub find_queue : ℕ → List Queue → Option Queue
find_queue id = find (λ q. q.id == id)

-- GetQueue
unfoldable pub get_queue : ℕ → Db → Reply Queue
get_queue id db = or_not_found (find_queue id db.queues)

unfoldable pub get_queue_by_name : String → Db → Reply Queue
get_queue_by_name name db = or_not_found (find (λ q. str_eq q.name name) db.queues)

-- DefaultQueueID, the first queue.
first_queue : List Queue → Reply ℕ
first_queue [] = err not_found
first_queue (q ∷ qs) = ok q.id

unfoldable pub default_queue_id : Db → Reply ℕ
unfolding first_queue
default_queue_id db = first_queue db.queues

unfoldable pub create_queue : ℕ → String → Db → Db × Reply Queue
create_queue now name db =
    if any (λ q. str_eq q.name name) db.queues
    then (db, err name_conflict)
    else (record db { queues = db.queues ++ row ∷ []; next_queue = suc db.next_queue }, ok row)
  where
    row : Queue
    row = record { id = db.next_queue; name = name; created_at = now }

unfoldable pub rename_rows : ℕ → String → List Queue → List Queue
rename_rows id name [] = []
rename_rows id name (q ∷ qs) =
    (if q.id == id then record q { name = name } else q) ∷ rename_rows id name qs

-- RenameQueue. The UNIQUE constraint speaks only where there is a row to rename.
unfoldable pub rename_queue : ℕ → String → Db → Db × Reply Queue
unfolding rename_rows
rename_queue id name db = elim (find_queue id db.queues) [
  | none ↦ (db, err not_found)
  | some q ↦
      if any (λ other. str_eq other.name name && not (other.id == id)) db.queues
      then (db, err name_conflict)
      else (record db { queues = rename_rows id name db.queues }, ok (record q { name = name }))
]

-- DeleteQueue
unfoldable pub delete_queue : ℕ → Db → Db × Reply (Unit {0})
delete_queue id db = elim (find_queue id db.queues) [
  | none ↦ (db, err not_found)
  | some q ↦
      if leb (length db.queues) 1
      then (db, err last_queue)
      else if any (λ t. t.queue_id == id) db.targets
      then (db, err queue_in_use)
      else (record db { queues = select (λ other. not (other.id == id)) db.queues }, ok tt)
]

-- queueLookup.resolve on the queues that loadQueueLookup has loaded, with the default's id.
by_lane : List Queue → ℕ → String → ℕ
by_lane queues default lane =
    if str_eq lane ""
    then default
    else elim (find (λ q. str_eq q.name lane) queues) [ none ↦ default | some q ↦ q.id ]

unfoldable pub resolve : List Queue → ℕ → Snapshot → ℕ
unfolding by_lane
resolve queues default garbled = default
resolve queues default (parsed t lane) =
    if (not (t.queue_id == 0)) && any (λ q. q.id == t.queue_id) queues
    then t.queue_id
    else by_lane queues default lane

-- ResolveSnapshotQueueID; loadQueueLookup fails if there is no queue.
unfoldable pub resolve_in : List Queue → Snapshot → Reply ℕ
unfolding resolve
resolve_in [] s = err unreadable
resolve_in (q ∷ qs) s = ok (resolve (q ∷ qs) q.id s)

unfoldable pub resolve_snapshot_queue_id : Snapshot → Db → Reply ℕ
unfolding resolve_in
resolve_snapshot_queue_id s db = resolve_in db.queues s
