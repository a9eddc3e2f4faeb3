-- ===== src/Scheduler/Reload.antt =====
-- Reload, Stop, Next and Entries of internal/scheduler/scheduler.go. A cron instance of the cron
-- library is its number, in the order of their making; `running` says which of them are started.
pub mod Instances
pub mod Entries
use mathlib.Core.Option
use speedtest_tracker.Base.{
  ℕ, suc, ◌+◌, String, ◌≡◌, Bool, true, false, not, ◌&&◌, Option, none, some, List, [], ◌∷◌, ◌==◌,
  if◌then◌else◌, is_some, is_none, update,
}

-- The fields of store.Schedule that the scheduler reads.
pub record Schedule : Type 0 where
  pub id : ℕ
  pub name : String
  pub cron : String
  pub timezone : String
  pub enabled : Bool
  pub target_ids : List ℕ

-- `entries` maps a schedule's id to the snapshot that its cron callback captured. `tail` is a
-- Reload between its swap under s.mu and the end of its calls of Start and Stop, with the new and
-- the old instance; `ending` are the instances whose Stop has been asked for and not yet made.
pub record Scheduler : Type 0 where
  pub cron : Option ℕ
  pub entries : ℕ → Option Schedule
  pub stopped : Bool
  pub next_cron : ℕ
  pub running : ℕ → Bool
  pub tail : Option (ℕ × Option ℕ)
  pub ending : List ℕ

unfoldable pub fresh : Scheduler
fresh = record {
  cron = none;
  entries = λ id. none;
  stopped = false;
  next_cron = 0;
  running = λ c. false;
  tail = none;
  ending = [];
}

abbrev has_targets : List ℕ → Bool
has_targets [] = false
has_targets (t ∷ ts) = true

-- What the three `continue` of the loop leave: `parses` tells whether ParseSpec succeeds.
unfoldable pub is_scheduled : (String → String → Bool) → Schedule → Bool
is_scheduled parses sc = sc.enabled && (has_targets sc.target_ids && parses sc.cron sc.timezone)

-- The loop that registers the schedules with the new instance.
unfoldable pub register :
    (String → String → Bool) → List Schedule → (ℕ → Option Schedule) → ℕ → Option Schedule
unfolding is_scheduled
register parses [] entries = entries
register parses (sc ∷ scs) entries =
    register parses scs (if is_scheduled parses sc then update entries sc.id (some sc) else entries)

-- The section of Reload under s.mu.
swap : (ℕ → Option Schedule) → Scheduler → Scheduler
swap entries s = if s.stopped then record s { next_cron = suc s.next_cron } else record s {
  cron = some s.next_cron;
  entries = entries;
  next_cron = suc s.next_cron;
  tail = some (s.next_cron, s.cron);
}

-- Reload up to the end of that section; none is a store error. reloadMu keeps a second Reload out.
unfoldable pub reload : (String → String → Bool) → Option (List Schedule) → Scheduler → Scheduler
unfolding swap register
reload parses none s = s
reload parses (some scs) s = if is_some s.tail then s else swap (register parses scs (λ id. none)) s

stop_old : Option ℕ → (ℕ → Bool) → ℕ → Bool
stop_old none running = running
stop_old (some c) running = update running c false

start_tail : Option (ℕ × Option ℕ) → Scheduler → Scheduler
unfolding stop_old
start_tail none s = s
start_tail (some (next, old)) s = record s {
  running = stop_old old (update s.running next true);
  tail = none;
}

-- next.Start() and old.Stop(), the rest of Reload.
unfoldable pub start_next : Scheduler → Scheduler
unfolding start_tail
start_next s = start_tail s.tail s

ask_stop : Option ℕ → Scheduler → Scheduler
ask_stop none s = s
ask_stop (some c) s = record s { ending = c ∷ s.ending }

-- Stop, its section under s.mu. It does not take reloadMu.
unfoldable pub stop : Scheduler → Scheduler
unfolding ask_stop
stop s = ask_stop s.cron (record s { cron = none; entries = λ id. none; stopped = true })

halt_first : List ℕ → Scheduler → Scheduler
halt_first [] s = s
halt_first (c ∷ cs) s = record s { running = update s.running c false; ending = cs }

-- c.Stop() of a Stop.
unfoldable pub halt : Scheduler → Scheduler
unfolding halt_first
halt s = halt_first s.ending s

-- Next: `entry_next` is the time that the instance keeps for the entry, none for the zero time.
unfoldable pub next : (ℕ → Schedule → Option ℕ) → ℕ → Scheduler → Option ℕ
next entry_next id s = elim s.cron [
  | none ↦ none
  | some c ↦ elim (s.entries id) [ none ↦ none | some sc ↦ entry_next c sc ]
]

pub data Action : Type 0 where
  reloads : Option (List Schedule) → Action
  starts stops halts : Action

unfoldable pub step : (String → String → Bool) → Action → Scheduler → Scheduler
unfolding reload start_next stop halt
step parses (reloads listed) s = reload parses listed s
step parses starts s = start_next s
step parses stops s = stop s
step parses halts s = halt s

unfoldable pub run : (String → String → Bool) → List Action → Scheduler → Scheduler
unfolding step
run parses [] s = s
run parses (a ∷ rest) s = run parses rest (step parses a s)
