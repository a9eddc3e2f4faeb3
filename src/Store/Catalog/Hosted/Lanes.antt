-- ===== src/Store/Catalog/Hosted/Lanes.antt =====
-- The calls of internal/store/queues.go keep every target in a queue.
use speedtest_tracker.Base.{
  ℕ, suc, ◌≤◌, ◌<◌, String, ◌≡◌, refl, true, false, not, ◌&&◌, Option, none, some, List, [], ◌∷◌,
  ◌++◌, arith, inl, inr, str_eq, leb, ◌==◌, is_some, length, select, any, All, Bool-cases,
}
use speedtest_tracker.Store.Catalog.{Queue, Target, Db}
use speedtest_tracker.Store.Catalog.Queues.{
  find_queue, create_queue, rename_queue, rename_rows, delete_queue,
}
use speedtest_tracker.Store.Catalog.Hosted.{IsRising, has_queue, IsHosted}

IsRising-append :
    (n : ℕ) (qs : List Queue) (q : Queue)
    → IsRising n q.id qs
    → IsRising n (suc q.id) (qs ++ q ∷ [])
IsRising-append n [] q v = (v, omega arith)
IsRising-append n (p ∷ qs) q v = (v.0, IsRising-append (suc p.id) qs q v.1)

find-append :
    (id : ℕ) (qs : List Queue) (q : Queue)
    → is_some (find_queue id qs) ≡ true
    → is_some (find_queue id (qs ++ q ∷ [])) ≡ true
find-append id [] q h = ground arith
find-append id (p ∷ qs) q h = ground (arith, find-append id qs q)

All-append :
    (qs : List Queue) (q : Queue) (ts : List Target)
    → All (λ t. has_queue qs t ≡ true) ts
    → All (λ t. has_queue (qs ++ q ∷ []) t ≡ true) ts
All-append qs q [] v = tt
All-append qs q (t ∷ ts) v = (find-append t.queue_id qs q v.0, All-append qs q ts v.1)

pub create_queue-IsHosted :
    (now : ℕ) (name : String) (db : Db) → IsHosted db → IsHosted (create_queue now name db).0
unfolding create_queue
create_queue-IsHosted now name db v = elim (Bool-cases (any (λ q. str_eq q.name name) db.queues)) [
  | inl taken ↦ rw taken v
  | inr free ↦ rw free (record {
    rising = IsRising-append 1 db.queues row v.rising;
    some_queue = longer db.queues;
    hosted = All-append db.queues row db.targets v.hosted;
  })
]
  where
    row : Queue
    row = record { id = db.next_queue; name = name; created_at = now }

    longer : (qs : List Queue) → 0 < length (qs ++ row ∷ [])
    longer [] = omega arith
    longer (q ∷ qs) = omega arith

rename-IsRising :
    (id : ℕ) (name : String) (n next : ℕ) (qs : List Queue)
    → IsRising n next qs
    → IsRising n next (rename_rows id name qs)
unfolding rename_rows
rename-IsRising id name n next [] v = v
rename-IsRising id name n next (q ∷ qs) v =
    ground (arith, rename-IsRising id name (suc q.id) next qs v.1)

find-rename :
    (id : ℕ) (name : String) (k : ℕ) (qs : List Queue)
    → is_some (find_queue k (rename_rows id name qs)) ≡ is_some (find_queue k qs)
unfolding rename_rows
find-rename id name k [] = refl
find-rename id name k (q ∷ qs) = ground (arith, find-rename id name k qs)

length-rename :
    (id : ℕ) (name : String) (qs : List Queue) → length (rename_rows id name qs) ≡ length qs
unfolding rename_rows
length-rename id name [] = refl
length-rename id name (q ∷ qs) = omega (arith, length-rename id name qs)

All-rename :
    (id : ℕ) (name : String) (qs : List Queue) (ts : List Target)
    → All (λ t. has_queue qs t ≡ true) ts
    → All (λ t. has_queue (rename_rows id name qs) t ≡ true) ts
All-rename id name qs [] v = tt
All-rename id name qs (t ∷ ts) v =
    (rw (find-rename id name t.queue_id qs) v.0, All-rename id name qs ts v.1)

pub rename_queue-IsHosted :
    (id : ℕ) (name : String) (db : Db) → IsHosted db → IsHosted (rename_queue id name db).0
unfolding rename_queue
rename_queue-IsHosted id name db v = go (find_queue id db.queues) refl
  where
    renamed : IsHosted (record db { queues = rename_rows id name db.queues })
    renamed = record {
      rising = rename-IsRising id name 1 db.next_queue db.queues v.rising;
      some_queue = rw (length-rename id name db.queues) v.some_queue;
      hosted = All-rename id name db.queues db.targets v.hosted;
    }

    go : (o : Option Queue) → find_queue id db.queues ≡ o → IsHosted (rename_queue id name db).0
    go none e = rw (e, rename_queue) v
    go (some q) e =
        elim (Bool-cases (any (λ o. str_eq o.name name && not (o.id == id)) db.queues)) [
          | inl taken ↦ rw (e, rename_queue, taken) v
          | inr free ↦ rw (e, rename_queue, free) renamed
        ]

abbrev remove : ℕ → List Queue → List Queue
remove id = select (λ (q : Queue). not (q.id == id))

find-remove :
    (id k : ℕ) (qs : List Queue)
    → (k == id) ≡ false
    → is_some (find_queue k (remove id qs)) ≡ is_some (find_queue k qs)
find-remove id k [] h = refl
find-remove id k (q ∷ qs) h = ground (arith, find-remove id k qs)

-- None of the ids above a bound is the one below it.
remove_above : (id n next : ℕ) (qs : List Queue) → id < n → IsRising n next qs → remove id qs ≡ qs
remove_above id n next [] h v = refl
remove_above id n next (q ∷ qs) h v =
    ground (arith, remove_above id (suc q.id) next qs (omega (arith, h, v.0)) v.1)

length-remove :
    (id n next : ℕ) (qs : List Queue) → IsRising n next qs → length qs ≤ suc (length (remove id qs))
length-remove id n next [] v = omega arith
length-remove id n next (q ∷ qs) v =
    ground (arith, length-remove id (suc q.id) next qs v.1, remove_above id (suc q.id) next qs)

IsRising-weaken : (m n next : ℕ) (qs : List Queue) → m ≤ n → IsRising n next qs → IsRising m next qs
IsRising-weaken m n next [] h v = omega (arith, h, v)
IsRising-weaken m n next (q ∷ qs) h v = (omega (arith, h, v.0), v.1)

remove-IsRising :
    (id n next : ℕ) (qs : List Queue) → IsRising n next qs → IsRising n next (remove id qs)
remove-IsRising id n next [] v = v
remove-IsRising id n next (q ∷ qs) v =
    let rest = remove-IsRising id (suc q.id) next qs v.1 in
    let lower = IsRising-weaken n (suc q.id) next (remove id qs) (omega (arith, v.0)) rest in
    ground arith

All-remove :
    (id : ℕ) (qs : List Queue) (ts : List Target)
    → any (λ t. t.queue_id == id) ts ≡ false
    → All (λ t. has_queue qs t ≡ true) ts
    → All (λ t. has_queue (remove id qs) t ≡ true) ts
All-remove id qs [] h v = tt
All-remove id qs (t ∷ ts) h v =
    let rest = All-remove id qs ts in ground (arith, find-remove id t.queue_id qs, rest)

pub delete_queue-IsHosted : (id : ℕ) (db : Db) → IsHosted db → IsHosted (delete_queue id db).0
unfolding delete_queue
delete_queue-IsHosted id db v = go (find_queue id db.queues) refl
  where
    removed :
        leb (length db.queues) 1 ≡ false
        → any (λ t. t.queue_id == id) db.targets ≡ false
        → IsHosted (record db { queues = remove id db.queues })
    removed more unused = record {
      rising = remove-IsRising id 1 db.next_queue db.queues v.rising;
      some_queue = ground (arith, length-remove id 1 db.next_queue db.queues v.rising);
      hosted = All-remove id db.queues db.targets unused v.hosted;
    }

    go : (o : Option Queue) → find_queue id db.queues ≡ o → IsHosted (delete_queue id db).0
    go none e = rw (e, delete_queue) v
    go (some q) e = elim (Bool-cases (leb (length db.queues) 1)) [
      | inl one ↦ rw (e, delete_queue, one) v
      | inr more ↦ elim (Bool-cases (any (λ t. t.queue_id == id) db.targets)) [
        | inl used ↦ rw (e, delete_queue, more, used) v
        | inr unused ↦ rw (e, delete_queue, more, unused) (removed more unused)
      ]
    ]
