-- ===== src/Sse.antt =====
-- internal/sse/hub.go: the fan-out of events to the browser clients.
pub mod Delivery
use speedtest_tracker.Base.{
  ℕ, suc, ◌+◌, String, Bool, true, false, not, ◌&&◌, Option, none, some, List, [], ◌∷◌, ◌++◌, ltb,
  ◌==◌, if◌then◌else◌, length,
}

-- bufferSize
abbrev pub buffer_size : ℕ
buffer_size = 64

-- A channel that Subscribe made: whether it stands in `subs`, whether it is closed, the events
-- that wait in it and those that its reader has received. Cancel's `once` is `canceled`.
pub record Subscriber {ℓ} (E : Type ℓ) : Type ℓ where
  pub id : ℕ
  pub registered : Bool
  pub closed : Bool
  pub canceled : Bool
  pub buffer : List E
  pub received : List E

-- The channels that have been handed out, the newest first, under the id of their subscription.
pub record Hub {ℓ} (E : Type ℓ) : Type ℓ where
  pub subs : List (Subscriber E)
  pub next : ℕ
  pub dropped : ℕ
  pub closed : Bool

module _ {ℓ} {E : Type ℓ} where
  unfoldable pub new_hub : Hub E
  new_hub = record { subs = []; next = 0; dropped = 0; closed = false }

  subscriber : ℕ → Bool → Subscriber E
  subscriber id joins = record {
    id = id;
    registered = joins;
    closed = not joins;
    canceled = false;
    buffer = [];
    received = [];
  }

  -- Subscribe. On a closed hub the channel is closed from the start and cancel does nothing.
  unfoldable pub subscribe : Hub E → Hub E
  unfolding subscriber
  subscribe h =
      if h.closed
      then record h { subs = subscriber h.next false ∷ h.subs }
      else record h { subs = subscriber h.next true ∷ h.subs; next = suc h.next }

  -- What once.Do lets cancel do, once.
  leave : Subscriber E → Subscriber E
  leave c =
      if c.canceled
      then c
      else if c.registered
      then record c { canceled = true; registered = false; closed = true }
      else record c { canceled = true }

  leave_all : ℕ → List (Subscriber E) → List (Subscriber E)
  unfolding leave
  leave_all id [] = []
  leave_all id (c ∷ cs) = (if c.id == id then leave c else c) ∷ leave_all id cs

  unfoldable pub cancel : ℕ → Hub E → Hub E
  unfolding leave_all
  cancel id h = record h { subs = leave_all id h.subs }

  shut : Subscriber E → Subscriber E
  shut c = if c.registered then record c { registered = false; closed = true } else c

  shut_all : List (Subscriber E) → List (Subscriber E)
  unfolding shut
  shut_all [] = []
  shut_all (c ∷ cs) = shut c ∷ shut_all cs

  -- Close
  unfoldable pub close : Hub E → Hub E
  unfolding shut_all
  close h = record h { closed = true; subs = shut_all h.subs }

  -- The select with a default case: the channel, and 1 if the event is dropped.
  offer : E → Subscriber E → Subscriber E × ℕ
  offer e c =
      if ltb (length c.buffer) buffer_size
      then (record c { buffer = c.buffer ++ e ∷ [] }, 0)
      else (c, 1)

  offer_all : E → List (Subscriber E) → List (Subscriber E) × ℕ
  unfolding offer
  offer_all e [] = ([], 0)
  offer_all e (c ∷ cs) =
      let (cs', n) = offer_all e cs in
      let (c', m) = offer e c in if c.registered then (c' ∷ cs', m + n) else (c ∷ cs', n)

  unfoldable pub publish : E → Hub E → Hub E
  unfolding offer_all
  publish e h =
      let (subs, n) = offer_all e h.subs in record h { subs = subs; dropped = h.dropped + n }

  take_one : List E → Subscriber E → Subscriber E
  take_one [] c = c
  take_one (e ∷ es) c = record c { buffer = es; received = c.received ++ e ∷ [] }

  read_from : ℕ → List (Subscriber E) → List (Subscriber E)
  unfolding take_one
  read_from id [] = []
  read_from id (c ∷ cs) = (if c.id == id then take_one c.buffer c else c) ∷ read_from id cs

  -- A receive by the reader of a channel, also of a closed one that still holds events.
  unfoldable pub receive : ℕ → Hub E → Hub E
  unfolding read_from
  receive id h = record h { subs = read_from id h.subs }

pub data Call {ℓ} (E : Type ℓ) : Type ℓ where
  subscribes closes : Call E
  cancels receives : ℕ → Call E
  publishes : E → Call E

module _ {ℓ} {E : Type ℓ} where
  unfoldable pub step : Call E → Hub E → Hub E
  unfolding subscribe close cancel receive publish
  step subscribes h = subscribe h
  step closes h = close h
  step (cancels id) h = cancel id h
  step (receives id) h = receive id h
  step (publishes e) h = publish e h

  unfoldable pub run : List (Call E) → Hub E → Hub E
  unfolding step
  run [] h = h
  run (c ∷ cs) h = run cs (step c h)
