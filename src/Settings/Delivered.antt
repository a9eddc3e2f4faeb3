-- ===== src/Settings/Delivered.antt =====
-- No changed key is lost between a commit and a subscriber of internal/settings/settings.go.
use speedtest_tracker.Base.{
  String, ◌≡◌, refl, ap, Bool, true, false, not, ◌&&◌, ◌||◌, List, [], ◌∷◌, ◌++◌, str_eq, eq_iff,
  ltb, if◌then◌else◌, arith, length, inl, inr, Bool-cases,
}
use speedtest_tracker.Settings.Noted.{has}
use speedtest_tracker.Settings.Subscriber.{
  Phase, waiting, woken, stopped, sending, Note, marked, delivered, Subscriber, out_size, subscribe,
  mark_dirty, send_wake, pump_wake, pump_take, pump_send, pump_stop, cancel, receive, Step, marks,
  wakes, pumps, takes, sends, stops, cancels, receives, step, run,
}

-- Whether the last thing that happened to a key is that it was marked.
abbrev pub is_owed : String → List Note → Bool
is_owed k [] = false
is_owed k (marked q ∷ notes) = if str_eq q k then true else is_owed k notes
is_owed k (delivered q ∷ notes) = if str_eq q k then false else is_owed k notes

abbrev pub in_hand : Phase → List String
in_hand waiting = []
in_hand woken = []
in_hand stopped = []
in_hand (sending keys) = keys

abbrev pub is_pending : String → Subscriber → Bool
is_pending k s = has k s.dirty || (has k (in_hand s.phase) || has k s.out)

abbrev is_woken : Phase → Bool
is_woken woken = true
is_woken _ = false

abbrev is_stopped : Phase → Bool
is_stopped stopped = true
is_stopped _ = false

abbrev is_nil : List String → Bool
is_nil [] = true
is_nil (k ∷ ks) = false

-- While the subscription lasts, a key that is owed is on its way, and keys that are collected have
-- a wake-up on its way.
record IsKept (s : Subscriber) : Type 0 where
  owed : (k : String) → s.done ≡ false → is_owed k s.history ≡ true → is_pending k s ≡ true
  woken_for : s.done ≡ false → (is_nil s.dirty || (s.waking || (s.wake || is_woken s.phase))) ≡ true
  runs : s.done ≡ false → (s.subscribed && not (is_stopped s.phase)) ≡ true

has-snoc :
    (key : String) (ks : List String) (k : String)
    → has key (ks ++ k ∷ []) ≡ (has key ks || str_eq k key)
has-snoc key [] k = ground arith
has-snoc key (q ∷ ks) k = ground (arith, has-snoc key ks k)

abbrev collected : String → List String → List String
collected key dirty = if has key dirty then dirty else key ∷ dirty

has-collected :
    (k key : String) (dirty : List String)
    → has k (collected key dirty) ≡ (str_eq key k || has k dirty)
has-collected k key dirty = elim (Bool-cases (str_eq key k)) [
  | inl same ↦
      let e = (eq_iff key k).0 same in
      let here : has key dirty ≡ has k dirty = ap (λ q. has q dirty) e in ground arith
  | inr other ↦ ground arith
]

mark-IsKept : (key : String) (s : Subscriber) → IsKept s → IsKept (mark_dirty key s)
unfolding mark_dirty
mark-IsKept key s v = record {
  owed = λ k h o. let before = v.owed k in let new = has-collected k key s.dirty in ground arith;
  woken_for = λ h. ground arith;
  runs = λ h. ground arith;
}

send_wake-IsKept : (s : Subscriber) → IsKept s → IsKept (send_wake s)
unfolding send_wake
send_wake-IsKept s v = record {
  owed = λ k h o. let before = v.owed k in ground arith;
  woken_for = λ h. ground arith;
  runs = λ h. ground arith;
}

cancel-IsKept : (s : Subscriber) → IsKept s → IsKept (cancel s)
unfolding cancel
cancel-IsKept s v = record {
  owed = λ k h o. let before = v.owed k in ground arith;
  woken_for = λ h. ground arith;
  runs = λ h. ground arith;
}

pump_wake-IsKept : (s : Subscriber) → IsKept s → IsKept (pump_wake s)
unfolding pump_wake
pump_wake-IsKept s v = record {
  owed = λ k h o. let before = v.owed k in ground arith;
  woken_for = λ h. ground arith;
  runs = λ h. ground arith;
}

pump_stop-IsKept : (s : Subscriber) → IsKept s → IsKept (pump_stop s)
unfolding pump_stop
pump_stop-IsKept s v = record {
  owed = λ k h o. let before = v.owed k in ground arith;
  woken_for = λ h. ground arith;
  runs = λ h. ground arith;
}

pump_take-IsKept :
    (sort : List String → List String) (s : Subscriber)
    → ((k : String) (ks : List String) → has k (sort ks) ≡ has k ks)
    → IsKept s
    → IsKept (pump_take sort s)
unfolding pump_take
pump_take-IsKept sort s sorts v = record {
  owed = λ k h o. let before = v.owed k in let same = sorts k s.dirty in ground arith;
  woken_for = λ h. ground arith;
  runs = λ h. ground arith;
}

pump_send-IsKept : (s : Subscriber) → IsKept s → IsKept (pump_send s)
unfolding pump_send
pump_send-IsKept s v = record {
  owed = λ k h o. sent k s.phase refl (v.owed k (ground arith) (ground arith));
  woken_for = λ h. ground arith;
  runs = λ h. ground arith;
}
  where
    sent :
        (k : String) (p : Phase)
        → s.phase ≡ p
        → is_pending k s ≡ true
        → is_pending k (pump_send s) ≡ true
    sent k waiting e before = rw (pump_send, e) before
    sent k woken e before = rw (pump_send, e) before
    sent k stopped e before = rw (pump_send, e) before
    sent k (sending []) e before = rw (pump_send, e) (rw e at before)
    sent k (sending (q ∷ keys)) e before =
        let hand = ap in_hand e in
        elim (Bool-cases (ltb (length s.out) out_size)) [
          | inr full ↦ rw (pump_send, e, full) (ground arith)
          | inl room ↦ let added = has-snoc k s.out q in rw (pump_send, e, room) (ground arith)
        ]

receive-IsKept : (s : Subscriber) → IsKept s → IsKept (receive s)
unfolding receive
receive-IsKept s v = record {
  owed = λ k h o. let before = v.owed k in ground arith;
  woken_for = λ h. ground arith;
  runs = λ h. ground arith;
}

step-IsKept :
    (sort : List String → List String) (x : Step) (s : Subscriber)
    → ((k : String) (ks : List String) → has k (sort ks) ≡ has k ks)
    → IsKept s
    → IsKept (step sort x s)
unfolding step
step-IsKept sort (marks key) s sorts v = mark-IsKept key s v
step-IsKept sort wakes s sorts v = send_wake-IsKept s v
step-IsKept sort pumps s sorts v = pump_wake-IsKept s v
step-IsKept sort takes s sorts v = pump_take-IsKept sort s sorts v
step-IsKept sort sends s sorts v = pump_send-IsKept s v
step-IsKept sort stops s sorts v = pump_stop-IsKept s v
step-IsKept sort cancels s sorts v = cancel-IsKept s v
step-IsKept sort receives s sorts v = receive-IsKept s v

run-IsKept :
    (sort : List String → List String) (xs : List Step) (s : Subscriber)
    → ((k : String) (ks : List String) → has k (sort ks) ≡ has k ks)
    → IsKept s
    → IsKept (run sort xs s)
unfolding run
run-IsKept sort [] s sorts v = v
run-IsKept sort (x ∷ xs) s sorts v =
    run-IsKept sort xs (step sort x s) sorts (step-IsKept sort x s sorts v)

start-IsKept : IsKept subscribe
unfolding subscribe
start-IsKept = record { owed = λ k h o. ground arith; woken_for = λ h. refl; runs = λ h. refl }

-- If sort.Strings keeps the keys, then over any interleaving of marks with the pump and the reader,
-- while the subscription lasts, a key that was marked and not received since is collected, held by
-- the pump or in the channel.
pub marked_key_is_pending :
    (sort : List String → List String) (xs : List Step) (k : String)
    → ((k : String) (ks : List String) → has k (sort ks) ≡ has k ks)
    → (run sort xs subscribe).done ≡ false
    → is_owed k (run sort xs subscribe).history ≡ true
    → is_pending k (run sort xs subscribe) ≡ true
marked_key_is_pending sort xs k sorts lasts owes =
    (run-IsKept sort xs subscribe sorts start-IsKept).owed k lasts owes

-- The pump has nothing to do: it waits, no wake-up is there or under way, and the channel is empty.
abbrev pub is_idle : Subscriber → Bool
is_idle s = is_waiting s.phase && (not s.wake && (not s.waking && is_nil s.out))
  where
    is_waiting : Phase → Bool
    is_waiting waiting = true
    is_waiting _ = false

-- Where the pump then has nothing left to do, every key was received after it was last marked.
pub idle_owes_nothing :
    (sort : List String → List String) (xs : List Step) (k : String)
    → ((k : String) (ks : List String) → has k (sort ks) ≡ has k ks)
    → (run sort xs subscribe).done ≡ false
    → is_idle (run sort xs subscribe) ≡ true
    → is_owed k (run sort xs subscribe).history ≡ false
idle_owes_nothing sort xs k sorts lasts idle =
    let v = run-IsKept sort xs subscribe sorts start-IsKept in
    settled (run sort xs subscribe) k v lasts idle
  where
    settled :
        (s : Subscriber) (k : String)
        → IsKept s
        → s.done ≡ false
        → is_idle s ≡ true
        → is_owed k s.history ≡ false
    settled s k v lasts idle = let before = v.owed k in let woke = v.woken_for in ground arith
