-- ===== src/Settings/Subscriber.antt =====
-- One subscriber of internal/settings/settings.go with its pump goroutine, in the steps between
-- which another goroutine may come. `sort` stands for sort.Strings.
use speedtest_tracker.Base.{
  ℕ, String, Bool, true, false, not, ◌&&◌, List, [], ◌∷◌, ◌++◌, ltb, if◌then◌else◌, length,
}
use speedtest_tracker.Settings.Noted.{has}

-- Where the pump stands: before its select, before it takes the dirty keys, in the loop of sends,
-- or at its end.
pub data Phase : Type 0 where
  waiting woken stopped : Phase
  sending : List String → Phase

pub data Note : Type 0 where
  marked delivered : String → Note

-- `wake` is the one slot of the channel; `waking` is set between the two halves of a mark, during
-- which `notify` holds the store's lock. `history` is what was marked and received, newest first.
pub record Subscriber : Type 0 where
  pub subscribed : Bool
  pub dirty : List String
  pub waking : Bool
  pub wake : Bool
  pub phase : Phase
  pub done : Bool
  pub out : List String
  pub history : List Note

abbrev pub out_size : ℕ
out_size = 16

-- Subscribe
unfoldable pub subscribe : Subscriber
subscribe = record {
  subscribed = true;
  dirty = [];
  waking = false;
  wake = false;
  phase = waiting;
  done = false;
  out = [];
  history = [];
}

-- notify and the locked half of mark, which waits while another notify holds the lock.
unfoldable pub mark_dirty : String → Subscriber → Subscriber
mark_dirty key s =
    if s.subscribed && not s.waking
    then record s {
      dirty = if has key s.dirty then s.dirty else key ∷ s.dirty;
      waking = true;
      history = marked key ∷ s.history;
    }
    else s

-- The other half of mark: the send that never blocks.
unfoldable pub send_wake : Subscriber → Subscriber
send_wake s = if s.waking then record s { waking = false; wake = true } else s

-- `<-sub.wake`
unfoldable pub pump_wake : Subscriber → Subscriber
pump_wake s = elim s.phase [
  | waiting ↦ if s.wake then record s { wake = false; phase = woken } else s
  | woken ↦ s
  | stopped ↦ s
  | sending keys ↦ s
]

unfoldable pub pump_take : (List String → List String) → Subscriber → Subscriber
pump_take sort s = elim s.phase [
  | waiting ↦ s
  | woken ↦ record s { dirty = []; phase = sending (sort s.dirty) }
  | stopped ↦ s
  | sending keys ↦ s
]

-- `sub.out <- k`, which waits for room, or the end of the loop.
unfoldable pub pump_send : Subscriber → Subscriber
pump_send s = elim s.phase [
  | waiting ↦ s
  | woken ↦ s
  | stopped ↦ s
  | sending [] ↦ record s { phase = waiting }
  | sending (k ∷ keys) ↦
      if ltb (length s.out) out_size
      then record s { phase = sending keys; out = s.out ++ k ∷ [] }
      else s
]

-- `<-sub.done` in either select.
unfoldable pub pump_stop : Subscriber → Subscriber
pump_stop s =
    if s.done
    then elim s.phase [
      | waiting ↦ record s { phase = stopped }
      | woken ↦ s
      | stopped ↦ s
      | sending keys ↦ record s { phase = stopped }
    ]
    else s

-- The cancel function; it waits for the lock too.
unfoldable pub cancel : Subscriber → Subscriber
cancel s = if s.subscribed && not s.waking then record s { subscribed = false; done = true } else s

-- The reader of the channel.
unfoldable pub receive : Subscriber → Subscriber
receive s = elim s.out [
  | [] ↦ s
  | k ∷ keys ↦ record s { out = keys; history = delivered k ∷ s.history }
]

pub data Step : Type 0 where
  marks : String → Step
  wakes pumps takes sends stops cancels receives : Step

unfoldable pub step : (List String → List String) → Step → Subscriber → Subscriber
unfolding mark_dirty send_wake pump_wake pump_take pump_send pump_stop cancel receive
step sort (marks key) s = mark_dirty key s
step sort wakes s = send_wake s
step sort pumps s = pump_wake s
step sort takes s = pump_take sort s
step sort sends s = pump_send s
step sort stops s = pump_stop s
step sort cancels s = cancel s
step sort receives s = receive s

unfoldable pub run : (List String → List String) → List Step → Subscriber → Subscriber
unfolding step
run sort [] s = s
run sort (x ∷ xs) s = run sort xs (step sort x s)
