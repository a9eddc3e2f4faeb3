-- ===== src/Notify/Inbox.antt =====
-- The queue of internal/notify/notifier.go: the three channel operations of OnResult, between which
-- other calls of OnResult and the worker may come, and the worker of Start and Close.
pub mod Conserved
use speedtest_tracker.Base.{
  ℕ, zero, suc, ◌+◌, ◌≤◌, ◌≡◌, refl, ◌∙◌, sym, ap, Bool, true, false, Option, none, some, List, [],
  ◌∷◌, ◌++◌, inl, inr, arith, bit, ltb, if◌then◌else◌, length, length-append, append-nil,
  append_assoc, Option-cases,
}

-- The channel, its capacity and the dropped counter. `dropping` are the results of the calls of
-- OnResult that have found the channel full and are about to make room, `resending` those of the
-- calls that are about to send again. `taken` lists what the worker has received, `lost` what was
-- dropped.
pub record Inbox {ℓ} (A : Type ℓ) : Type ℓ where
  pub capacity : ℕ
  pub queue : List A
  pub dropped : ℕ
  pub dropping : List A
  pub resending : List A
  pub taken : List A
  pub lost : List A

unfoldable pub new_inbox {ℓ} : {A : Type ℓ} → ℕ → Inbox A
new_inbox capacity = record {
  capacity = capacity;
  queue = [];
  dropped = 0;
  dropping = [];
  resending = [];
  taken = [];
  lost = [];
}

abbrev pub behind {ℓ} : {A : Type ℓ} → A → Option (A × List A) → Option (A × List A)
behind x none = none
behind x (some (y, ys)) = some (y, x ∷ ys)

-- One call out of those that are at one place, and the others.
unfoldable pub pick {ℓ} : {A : Type ℓ} → ℕ → List A → Option (A × List A)
pick n [] = none
pick zero (x ∷ xs) = some (x, xs)
pick (suc n) (x ∷ xs) = behind x (pick n xs)

module _ {ℓ} {A : Type ℓ} where
  -- The non-blocking send, and whether it went through.
  try_send : A → Inbox A → Inbox A × Bool
  try_send a q =
      if ltb (length q.queue) q.capacity
      then (record q { queue = q.queue ++ a ∷ [] }, true)
      else (q, false)

  -- The first select of OnResult.
  unfoldable pub send_first : A → Inbox A → Inbox A
  unfolding try_send
  send_first a q =
      let (q', sent) = try_send a q in if sent then q' else record q { dropping = a ∷ q.dropping }

  -- The non-blocking receive that makes room.
  unfoldable pub drop_oldest : List A → Inbox A → Inbox A
  drop_oldest [] q = q
  drop_oldest (b ∷ bs) q = record q { queue = bs; dropped = suc q.dropped; lost = b ∷ q.lost }

  unfoldable pub room_by : Option (A × List A) → Inbox A → Inbox A
  unfolding drop_oldest
  room_by none q = q
  room_by (some (a, others)) q =
      drop_oldest q.queue (record q { dropping = others; resending = a ∷ q.resending })

  -- The second select, by one of the calls that are about to make room.
  unfoldable pub make_room : ℕ → Inbox A → Inbox A
  unfolding pick room_by
  make_room n q = room_by (pick n q.dropping) q

  -- The second send, which counts the new result as dropped if it fails too.
  unfoldable pub send_again : A → Inbox A → Inbox A
  unfolding try_send
  send_again a q =
      let (q', sent) = try_send a q in
      if sent then q' else record q { dropped = suc q.dropped; lost = a ∷ q.lost }

  unfoldable pub resend_by : Option (A × List A) → Inbox A → Inbox A
  unfolding send_again
  resend_by none q = q
  resend_by (some (a, others)) q = send_again a (record q { resending = others })

  -- The third select, by one of the calls that are about to send again.
  unfoldable pub resend : ℕ → Inbox A → Inbox A
  unfolding pick resend_by
  resend n q = resend_by (pick n q.resending) q

  receive_from : List A → Inbox A → Inbox A
  receive_from [] q = q
  receive_from (b ∷ bs) q = record q { queue = bs; taken = q.taken ++ b ∷ [] }

  -- One receive of the worker.
  unfoldable pub receive : Inbox A → Inbox A
  unfolding receive_from
  receive q = receive_from q.queue q

  drain_list : List A → Inbox A → Inbox A
  drain_list [] q = q
  drain_list (b ∷ bs) q = drain_list bs (receive_from (b ∷ bs) q)

  -- The drain after `stop` is closed: receives until the channel is empty.
  unfoldable pub drain : Inbox A → Inbox A
  unfolding drain_list receive_from
  drain q = drain_list q.queue q

-- What can happen to the inbox: a call of OnResult begins, a call goes on, the worker receives.
pub data Event {ℓ} (A : Type ℓ) : Type ℓ where
  offers : A → Event A
  makes_room resends : ℕ → Event A
  receives : Event A

unfoldable pub run_inbox {ℓ} : {A : Type ℓ} → List (Event A) → Inbox A → Inbox A
unfolding send_first make_room resend receive
run_inbox [] q = q
run_inbox (offers a ∷ es) q = run_inbox es (send_first a q)
run_inbox (makes_room n ∷ es) q = run_inbox es (make_room n q)
run_inbox (resends n ∷ es) q = run_inbox es (resend n q)
run_inbox (receives ∷ es) q = run_inbox es (receive q)

module _ {ℓ} {A : Type ℓ} where
  drain_list_lem :
      (bs : List A) (q : Inbox A)
      → q.queue ≡ bs
      → (drain_list bs q).queue ≡ []
        × ((drain_list bs q).taken ≡ q.taken ++ bs)
        × ((drain_list bs q).dropped ≡ q.dropped)
  unfolding drain_list receive_from
  drain_list_lem [] q e = (e, sym (append-nil q.taken), refl)
  drain_list_lem (b ∷ bs) q e =
      let (done, all, none_lost) =
        drain_list_lem bs (record q { queue = bs; taken = q.taken ++ b ∷ [] }) refl in
      (done, all ∙ append_assoc q.taken (b ∷ []) bs, none_lost)

  -- The drain on Close hands the worker everything that is queued, oldest first, and drops nothing.
  pub drain_lem :
      (q : Inbox A)
      → ((drain q).queue ≡ [])
        × ((drain q).taken ≡ q.taken ++ q.queue)
        × ((drain q).dropped ≡ q.dropped)
  unfolding drain
  drain_lem q = drain_list_lem q.queue q refl
