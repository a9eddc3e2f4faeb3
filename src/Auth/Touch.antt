-- ===== src/Auth/Touch.antt =====
-- maybeTouch and the worker of internal/auth/auth.go: the throttled writes of a token's last use.
use speedtest_tracker.Base.{
  ℕ, suc, ◌+◌, ◌-◌, ◌≤◌, ◌≡◌, refl, Bool, true, false, Option, none, some, List, [], ◌∷◌, ◌++◌,
  arith, ltb, leb, ◌==◌, any, if◌then◌else◌, length, length-append, update,
}

-- time.Minute in the nanoseconds of a time.Duration, in which all times are, and touchQueueCap.
abbrev pub minute : ℕ
minute = 60000000000

abbrev pub touch_queue_cap : ℕ
touch_queue_cap = 64

-- `due` lists the touches that were due, newest first, as token id and time. `written` are the ids
-- for which the worker's TouchToken succeeded, `failed` those for which it gave an error, which is
-- logged, and `dropped` those that found no room in the channel. `sending` are those of the
-- requests that have left touchMu and have yet to send.
pub record Touches : Type 0 where
  pub touched : ℕ → Option ℕ
  pub sending : List ℕ
  pub queue : List ℕ
  pub due : List (ℕ × ℕ)
  pub written : List ℕ
  pub failed : List ℕ
  pub dropped : List ℕ

unfoldable pub no_touches : Touches
no_touches = record {
  touched = λ id. none;
  sending = [];
  queue = [];
  due = [];
  written = [];
  failed = [];
  dropped = [];
}

abbrev is_due : Option ℕ → ℕ → Bool
is_due none now = true
is_due (some last) now = if ltb now last then false else leb minute (now - last)

-- The select with a default case.
send_touch : ℕ → Touches → Touches
send_touch id t =
    if ltb (length t.queue) touch_queue_cap
    then record t { queue = t.queue ++ id ∷ [] }
    else record t { dropped = id ∷ t.dropped }

-- maybeTouch under touchMu.
unfoldable pub maybe_touch : ℕ → ℕ → Touches → Touches
maybe_touch id now t =
    if is_due (t.touched id) now
    then record t {
      touched = update t.touched id (some now);
      due = (id, now) ∷ t.due;
      sending = id ∷ t.sending;
    }
    else t

without : ℕ → List ℕ → List ℕ
without id [] = []
without id (k ∷ ks) = if k == id then ks else k ∷ without id ks

-- maybeTouch after touchMu, for a request with the token.
unfoldable pub go_on : ℕ → Touches → Touches
unfolding send_touch without
go_on id t =
    if any (λ k. k == id) t.sending
    then send_touch id (record t { sending = without id t.sending })
    else t

-- doTouch: whether TouchToken gives an error is up to the store.
unfoldable pub do_touch : Bool → ℕ → Touches → Touches
do_touch fault id t =
    if fault then record t { failed = id ∷ t.failed } else record t { written = id ∷ t.written }

-- One receive of touchWorker and its doTouch.
take_touch : Bool → List ℕ → Touches → Touches
unfolding do_touch
take_touch fault [] t = t
take_touch fault (id ∷ ids) t = do_touch fault id (record t { queue = ids })

unfoldable pub touch_worker : Bool → Touches → Touches
unfolding take_touch
touch_worker fault t = take_touch fault t.queue t

-- A request with a token that the store knows, at the time at which it holds touchMu; such a request
-- goes on; or a turn of the worker, with whether TouchToken gives an error.
pub data TouchEvent : Type 0 where
  uses : ℕ → ℕ → TouchEvent
  goes_on : ℕ → TouchEvent
  works : Bool → TouchEvent

unfoldable pub run_touches : List TouchEvent → Touches → Touches
unfolding maybe_touch go_on touch_worker
run_touches [] t = t
run_touches (uses id now ∷ es) t = run_touches es (maybe_touch id now t)
run_touches (goes_on id ∷ es) t = run_touches es (go_on id t)
run_touches (works fault ∷ es) t = run_touches es (touch_worker fault t)

-- The times of a token's due touches, newest first.
abbrev pub times_of : ℕ → List (ℕ × ℕ) → List ℕ
times_of id [] = []
times_of id ((k, now) ∷ rest) = if k == id then now ∷ times_of id rest else times_of id rest

abbrev pub IsMinuteApart : List ℕ → Type 0
IsMinuteApart [] = Unit
IsMinuteApart (t ∷ []) = Unit
IsMinuteApart (t ∷ u ∷ rest) = (u + minute ≤ t) × IsMinuteApart (u ∷ rest)

-- How often a list holds a token.
abbrev pub count : ℕ → List ℕ → ℕ
count id [] = 0
count id (k ∷ ks) = if k == id then suc (count id ks) else count id ks

count-append : (id k : ℕ) (ks : List ℕ) → count id (ks ++ k ∷ []) ≡ count id (k ∷ ks)
count-append id k [] = refl
count-append id k (j ∷ js) = ground (arith, count-append id k js)

abbrev newest : List ℕ → Option ℕ
newest [] = none
newest (t ∷ ts) = some t

count-without :
    (id k : ℕ) (ks : List ℕ)
    → any (λ j. j == k) ks ≡ true
    → count id ks ≡ count id (k ∷ without k ks)
unfolding without
count-without id k [] h = ground arith
count-without id k (j ∷ js) h = ground (arith, count-without id k js)

record IsThrottled (t : Touches) (id : ℕ) : Type 0 where
  last : t.touched id ≡ newest (times_of id t.due)
  apart : IsMinuteApart (times_of id t.due)
  room : length t.queue ≤ touch_queue_cap
  counted :
      count id t.sending
        + count id t.queue
        + count id t.written
        + count id t.failed
        + count id t.dropped
      ≡ length (times_of id t.due)

maybe_touch-IsThrottled :
    (id now : ℕ) (t : Touches) (k : ℕ) → IsThrottled t k → IsThrottled (maybe_touch id now t) k
unfolding maybe_touch
maybe_touch-IsThrottled id now t k v = go (times_of k t.due) refl
  where
    go : (ts : List ℕ) → times_of k t.due ≡ ts → IsThrottled (maybe_touch id now t) k
    go [] e = ground arith
    go (u ∷ us) e = ground arith

go_on-IsThrottled : (id : ℕ) (t : Touches) (k : ℕ) → IsThrottled t k → IsThrottled (go_on id t) k
unfolding go_on send_touch
go_on-IsThrottled id t k v = ground (
  arith,
  length-append t.queue (id ∷ []),
  count-append k id t.queue,
  count-without k id t.sending,
)

touch_worker-IsThrottled :
    (fault : Bool) (t : Touches) (k : ℕ) → IsThrottled t k → IsThrottled (touch_worker fault t) k
unfolding touch_worker take_touch do_touch
touch_worker-IsThrottled fault t k v = go t.queue refl
  where
    go : (ids : List ℕ) → t.queue ≡ ids → IsThrottled (touch_worker fault t) k
    go [] e = ground arith
    go (id ∷ ids) e = ground arith

run_touches-IsThrottled :
    (es : List TouchEvent) (t : Touches) (k : ℕ)
    → IsThrottled t k
    → IsThrottled (run_touches es t) k
unfolding run_touches
run_touches-IsThrottled [] t k v = v
run_touches-IsThrottled (uses id now ∷ es) t k v =
    run_touches-IsThrottled es (maybe_touch id now t) k (maybe_touch-IsThrottled id now t k v)
run_touches-IsThrottled (goes_on id ∷ es) t k v =
    run_touches-IsThrottled es (go_on id t) k (go_on-IsThrottled id t k v)
run_touches-IsThrottled (works fault ∷ es) t k v =
    run_touches-IsThrottled es (touch_worker fault t) k (touch_worker-IsThrottled fault t k v)

-- Over any interleaving of the two parts of maybeTouch, for any requests, with the turns of the
-- worker, from an empty channel on: two due touches of one token are at least a minute apart, the
-- channel holds at most 64, and each token has as many due touches as the requests that have yet to
-- send, the channel, the successful and the failed calls of TouchToken and the drops have of it.
pub run_touches_lem :
    (es : List TouchEvent) (id : ℕ)
    → let t = run_touches es no_touches in
      IsMinuteApart (times_of id t.due)
      × (length t.queue ≤ touch_queue_cap)
      × (count id t.sending
            + count id t.queue
            + count id t.written
            + count id t.failed
            + count id t.dropped
          ≡ length (times_of id t.due))
unfolding no_touches
run_touches_lem es id =
    let v = run_touches-IsThrottled es no_touches id (ground arith) in (v.apart, v.room, v.counted)
