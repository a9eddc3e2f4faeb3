-- ===== src/Runner/State.antt =====
-- The state of internal/runner/runner.go: the maps that r.mu guards, the queue channels with their
-- workers, and the final status writes that a goroutine has claimed and not yet made.
pub mod Status
use speedtest_tracker.Base.{
  ℕ, suc, ◌+◌, String, Bool, true, false, Option, none, some, List, [], ◌∷◌, ◌++◌, ◌==◌,
  if◌then◌else◌,
}
use speedtest_tracker.Store.Runs.{RunStatus, RunTable}

-- The fields of store.Target that the runner routes by.
pub record Target : Type 0 where
  pub id : ℕ
  pub name : String
  pub engine : String
  pub enabled : Bool
  pub queue_id : ℕ
  pub queue_name : String

pub record Job : Type 0 where
  pub run_id : ℕ
  pub queue_id : ℕ
  pub queue_name : String
  pub targets : List Target

-- `ctx` and `cancel` are the field `ctx_done` of the runner.
pub record RunState : Type 0 where
  pub pending : ℕ
  pub total : ℕ
  pub done : ℕ
  pub failed : Bool
  pub canceled : Bool
  pub started : Bool
  pub trigger : String
  pub schedule_id : Option ℕ

-- Where a queue's goroutine stands in `execute`: waiting on its channel, holding a job, about to
-- write "running" (with the total that its event will show), before the next target, and about to
-- call finishQueue.
pub data Worker : Type 0 where
  idle : Worker
  received : Job → Worker
  announcing : Job → ℕ → Worker
  testing : Job → List Target → Bool → Worker
  finishing : ℕ → Bool → Bool → Worker

pub record Lane : Type 0 where
  pub queue_id : ℕ
  pub queue_name : String
  pub buffer : List Job
  pub worker : Worker

-- Enqueue, between CreateRun and its critical section under r.mu.
pub record Creating : Type 0 where
  pub trigger : String
  pub schedule_id : Option ℕ
  pub targets : List Target

-- Who writes a final status: finishQueue, Cancel and a refused Enqueue retry and publish on
-- success; Enqueue on a full queue publishes whatever the write returned; Shutdown tries once.
pub data Writer : Type 0 where
  finisher full_queue shutting_down : Writer

pub record Write : Type 0 where
  pub writer : Writer
  pub status : RunStatus
  pub message : String
  pub total : ℕ
  pub done : ℕ

-- The payload of publishRun.
pub record RunEvent : Type 0 where
  pub run_id : ℕ
  pub status : RunStatus
  pub total : ℕ
  pub done : ℕ

pub record ResultRow : Type 0 where
  pub run_id : ℕ
  pub target_id : ℕ
  pub ok : Bool

pub record Runner : Type 0 where
  pub queue_cap : ℕ
  pub table : RunTable
  pub results : List ResultRow
  pub lanes : List Lane
  pub runs : ℕ → Option RunState
  pub finalizing : ℕ → Bool
  pub creating : ℕ → List Creating
  pub writes : ℕ → List Write
  pub ctx_done : ℕ → Bool
  pub closing : Bool
  pub started : Bool
  pub events : List RunEvent

abbrev pub update_lane : ℕ → (Lane → Lane) → List Lane → List Lane
update_lane q f [] = []
update_lane q f (l ∷ ls) = if l.queue_id == q then f l ∷ ls else l ∷ update_lane q f ls

abbrev pub find_lane : ℕ → List Lane → Option Lane
find_lane q [] = none
find_lane q (l ∷ ls) = if l.queue_id == q then some l else find_lane q ls

abbrev pub set_worker : ℕ → Worker → List Lane → List Lane
set_worker q w = update_lane q (λ l. record l { worker = w })

-- publishRun
unfoldable pub publish_run : ℕ → RunStatus → ℕ → ℕ → Runner → Runner
publish_run id status total done r = record r {
  events = record { run_id = id; status = status; total = total; done = done } ∷ r.events;
}
