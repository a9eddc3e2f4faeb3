-- ===== src/Runner/Enqueue.antt =====
-- Enqueue and queueChan of internal/runner/runner.go, as the two parts that a lock makes atomic.
use speedtest_tracker.Base.{
  ℕ, String, Bool, true, false, not, ◌||◌, Option, none, some, List, [], ◌∷◌, ◌++◌, ltb, ◌==◌,
  if◌then◌else◌, length, update,
}
use speedtest_tracker.Store.Runs.{
  RunTable, queued, failed, canceled, create_run, queued_run_for_schedule,
}
use speedtest_tracker.Runner.State.{
  Target, Job, RunState, idle, Lane, Creating, full_queue, finisher, Write, Runner, update_lane,
  find_lane, publish_run,
}
use speedtest_tracker.Runner.Grouping.{Group, filter_runnable, group_by_queue}

-- What Enqueue returns: a run id, or an error.
pub data Reply : Type 0 where
  accepted : ℕ → Reply
  existing : ℕ → Reply
  no_targets queue_full shutting_down store_error : Reply

-- The schedule check of Enqueue, skipped when the request names no schedule.
unfoldable pub busy_run : Option ℕ → RunTable → Option ℕ
busy_run none t = none
busy_run (some schedule) t = queued_run_for_schedule schedule t

-- CreateRun and beginFinalize.
unfoldable pub open_run : String → Option ℕ → List Target → Runner → Runner
open_run trigger schedule targets r =
    let (table, id) = create_run trigger schedule r.table in
    record r {
      table = table;
      finalizing = update r.finalizing id true;
      creating = update r.creating id (entry ∷ r.creating id);
    }
  where
    entry : Creating
    entry = record { trigger = trigger; schedule_id = schedule; targets = targets }

open_targets : String → Option ℕ → List Target → Runner → Runner × Option Reply
open_targets trigger schedule [] r = (r, some no_targets)
open_targets trigger schedule (t ∷ ts) r = elim (busy_run schedule r.table) [
  | some id ↦ (r, some (existing id))
  | none ↦ (open_run trigger schedule (t ∷ ts) r, none)
]

-- Enqueue up to the release of enqueueMu. `listed` is what ListTargetsByIDs returned; the fault is
-- a store error on the way; with no reply the call goes on to `commit`.
unfoldable pub open_request :
    Bool → String → Option ℕ → List Target → Runner → Runner × Option Reply
unfolding open_targets
open_request fault trigger schedule listed r =
    if fault
    then (r, some store_error)
    else open_targets trigger schedule (filter_runnable listed trigger) r

-- queueChan: the freshest display name, and a new channel with its worker if there is none.
unfoldable pub queue_chan : ℕ → String → List Lane → List Lane
queue_chan q name [] = record { queue_id = q; queue_name = name; buffer = []; worker = idle } ∷ []
queue_chan q name (l ∷ ls) =
    if l.queue_id == q then record l { queue_name = name } ∷ ls else l ∷ queue_chan q name ls

unfoldable pub queue_chans : List Group → List Lane → List Lane
queue_chans [] ls = ls
queue_chans (g ∷ gs) ls = queue_chans gs (queue_chan g.queue_id g.queue_name ls)

abbrev pub job_of : ℕ → Group → Job
job_of id g = record {
  run_id = id;
  queue_id = g.queue_id;
  queue_name = g.queue_name;
  targets = g.targets;
}

abbrev pub push_job : Job → Lane → Lane
push_job j l = record l { buffer = l.buffer ++ j ∷ [] }

-- A channel has room below its capacity; every channel exists when jobs are sent.
abbrev pub has_room : ℕ → Option Lane → Bool
has_room cap none = false
has_room cap (some l) = ltb (length l.buffer) cap

-- The non-blocking sends, in order, up to the first full channel: the lanes, and `queueFull`.
unfoldable pub send_jobs : ℕ → ℕ → List Group → List Lane → List Lane × Bool
send_jobs cap id [] ls = (ls, false)
send_jobs cap id (g ∷ gs) ls =
    let rest = send_jobs cap id gs (update_lane g.queue_id (push_job (job_of id g)) ls) in
    if has_room cap (find_lane g.queue_id ls) then rest else (ls, true)

new_state : Creating → ℕ → RunState
new_state c pending = record {
  pending = pending;
  total = length c.targets;
  done = 0;
  failed = false;
  canceled = false;
  started = false;
  trigger = c.trigger;
  schedule_id = c.schedule_id;
}

-- The run is refused: its row is resolved as canceled.
refuse : ℕ → Creating → Runner → Runner
refuse id c r = record r {
  ctx_done = update r.ctx_done id true;
  writes = update r.writes id (write ∷ r.writes id);
}
  where
    write : Write
    write = record {
      writer = finisher;
      status = canceled;
      message = "shutting down";
      total = length c.targets;
      done = 0;
    }

overflow : ℕ → Creating → Runner → Runner
overflow id c r = record r {
  ctx_done = update r.ctx_done id true;
  runs = update r.runs id none;
  writes = update r.writes id (write ∷ r.writes id);
}
  where
    write : Write
    write = record {
      writer = full_queue;
      status = failed;
      message = "queue full";
      total = length c.targets;
      done = 0;
    }

register : ℕ → Creating → List Group → Runner → Runner
unfolding new_state publish_run
register id c groups r = publish_run id queued (length c.targets) 0 (record r {
  runs = update r.runs id (some (new_state c (length groups)));
  lanes = queue_chans groups r.lanes;
})

-- The select loop over the queues of the run, and what follows it under r.mu.
dispatch : ℕ → Creating → List Group → Runner → Runner × Reply
unfolding overflow
dispatch id c groups r =
    let (lanes, full) = send_jobs r.queue_cap id groups r.lanes in
    let sent : Runner = record r { lanes = lanes } in
    if full
    then (overflow id c sent, queue_full)
    else (record sent { finalizing = update r.finalizing id false }, accepted id)

commit_entry : ℕ → List Creating → Runner → Runner × Option Reply
unfolding refuse register dispatch
commit_entry id [] r = (r, none)
commit_entry id (c ∷ rest) r =
    let taken : Runner = record r { creating = update r.creating id rest } in
    if r.closing || not r.started
    then (refuse id c taken, some shutting_down)
    else let groups = group_by_queue c.targets in
      let (r', reply) = dispatch id c groups (register id c groups taken) in (r', some reply)

-- Enqueue from its r.mu on; the final write of a run that is refused is left to `perform_write`.
unfoldable pub commit : ℕ → Runner → Runner × Option Reply
unfolding commit_entry
commit id r = commit_entry id (r.creating id) r
