-- ===== src/Notify/Inbox/Conserved.antt =====
-- What becomes of the results that are given to OnResult of internal/notify/notifier.go.
use speedtest_tracker.Base.{
  ℕ, zero, suc, ◌+◌, ◌≤◌, ◌≡◌, refl, Bool, Option, none, some, List, [], ◌∷◌, ◌++◌, arith, bit,
  length, length-append,
}
use speedtest_tracker.Notify.Inbox.{
  Inbox, new_inbox, behind, pick, send_first, drop_oldest, room_by, make_room, send_again,
  resend_by, resend, receive, Event, offers, makes_room, resends, receives, run_inbox,
}

module _ {ℓ} {A : Type ℓ} where
  -- The results given to OnResult.
  abbrev pub given : List (Event A) → List A
  given [] = []
  given (offers a ∷ es) = a ∷ given es
  given (makes_room n ∷ es) = given es
  given (resends n ∷ es) = given es
  given (receives ∷ es) = given es

  module _ (p : A → Bool) where
    -- How many elements pass the test.
    abbrev pub count : List A → ℕ
    count [] = 0
    count (x ∷ xs) = bit (p x) + count xs

    count-append : (x : A) (xs : List A) → count (xs ++ x ∷ []) ≡ bit (p x) + count xs
    count-append x [] = refl
    count-append x (y ∷ ys) = omega (arith, count-append x ys)

    abbrev Picked : List A → Option (A × List A) → Type 0
    Picked xs none = Unit
    Picked xs (some (y, ys)) = count xs ≡ bit (p y) + count ys

    pick-Picked : (n : ℕ) (xs : List A) → Picked xs (pick n xs)
    unfolding pick
    pick-Picked n [] = tt
    pick-Picked zero (x ∷ xs) = refl
    pick-Picked (suc n) (x ∷ xs) = go (pick n xs) (pick-Picked n xs)
      where
        go : (o : Option (A × List A)) → Picked xs o → Picked (x ∷ xs) (behind x o)
        go none h = tt
        go (some (y, ys)) h = omega (arith, h)

    -- What the inbox holds in all its places.
    abbrev pub held : Inbox A → ℕ
    held q = count q.taken + count q.queue + count q.lost + count q.dropping + count q.resending

  module _ (p : A → Bool) (cap : ℕ) where
    record IsSound (q : Inbox A) (total : ℕ) : Type 0 where
      same : q.capacity ≡ cap
      fits : length q.queue ≤ cap
      kept : held p q ≡ total
      lost : q.dropped ≡ length q.lost

    send_first-IsSound :
        (a : A) (q : Inbox A) (n : ℕ) → IsSound q n → IsSound (send_first a q) (n + bit (p a))
    unfolding send_first
    send_first-IsSound a q n v =
        ground (arith, count-append p a q.queue, length-append q.queue (a ∷ []))

    make_room-IsSound : (k : ℕ) (q : Inbox A) (n : ℕ) → IsSound q n → IsSound (make_room k q) n
    unfolding make_room room_by drop_oldest
    make_room-IsSound k q n v = go (pick k q.dropping) (pick-Picked p k q.dropping) q.queue refl
      where
        go :
            (o : Option (A × List A))
            → Picked p q.dropping o
            → (bs : List A) → q.queue ≡ bs
            → IsSound (room_by o q) n
        go none h bs e = v
        go (some (a, others)) h [] e = ground (arith, v.same, v.fits, v.kept, v.lost)
        go (some (a, others)) h (b ∷ bs) e = ground (arith, v.same, v.fits, v.kept, v.lost)

    resend-IsSound : (k : ℕ) (q : Inbox A) (n : ℕ) → IsSound q n → IsSound (resend k q) n
    unfolding resend resend_by send_again
    resend-IsSound k q n v = go (pick k q.resending) (pick-Picked p k q.resending)
      where
        go : (o : Option (A × List A)) → Picked p q.resending o → IsSound (resend_by o q) n
        go none h = v
        go (some (a, others)) h = ground (
          arith,
          v.same,
          v.fits,
          v.kept,
          v.lost,
          count-append p a q.queue,
          length-append q.queue (a ∷ []),
        )

    receive-IsSound : (q : Inbox A) (n : ℕ) → IsSound q n → IsSound (receive q) n
    unfolding receive
    receive-IsSound q n v = go q.queue refl
      where
        go : (bs : List A) → q.queue ≡ bs → IsSound (receive q) n
        go [] e = ground (arith, v.same, v.fits, v.kept, v.lost)
        go (b ∷ bs) e = ground (arith, v.same, v.fits, v.kept, v.lost, count-append p b q.taken)

    run_inbox-IsSound :
        (es : List (Event A)) (q : Inbox A) (n : ℕ)
        → IsSound q n
        → IsSound (run_inbox es q) (n + count p (given es))
    unfolding run_inbox
    run_inbox-IsSound [] q n v = ground arith
    run_inbox-IsSound (offers a ∷ es) q n v =
        let rest =
          run_inbox-IsSound es (send_first a q) (n + bit (p a)) (send_first-IsSound a q n v) in
        ground arith
    run_inbox-IsSound (makes_room k ∷ es) q n v =
        run_inbox-IsSound es (make_room k q) n (make_room-IsSound k q n v)
    run_inbox-IsSound (resends k ∷ es) q n v =
        run_inbox-IsSound es (resend k q) n (resend-IsSound k q n v)
    run_inbox-IsSound (receives ∷ es) q n v =
        run_inbox-IsSound es (receive q) n (receive-IsSound q n v)

  -- Over any interleaving of the three channel operations of any calls of OnResult with the receives
  -- of the worker, from an empty queue on, the queue stays within its capacity, the dropped counter
  -- counts the results that were lost, and for every test as many of the results given to OnResult
  -- pass it as of those taken by the worker, queued, lost, or still held by a call.
  pub inbox_conserves :
      (p : A → Bool) (es : List (Event A)) (capacity : ℕ)
      → (length (run_inbox es (new_inbox capacity)).queue ≤ capacity)
        × ((run_inbox es (new_inbox capacity)).dropped
            ≡ length (run_inbox es (new_inbox capacity)).lost)
        × (held p (run_inbox es (new_inbox capacity)) ≡ count p (given es))
  unfolding new_inbox
  inbox_conserves p es capacity =
      let v = run_inbox-IsSound p capacity es (new_inbox capacity) 0 (ground arith) in
      (v.fits, v.lost, omega (arith, v.kept))
