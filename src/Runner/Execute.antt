-- ===== src/Runner/Execute.antt =====
-- execute, runTarget, storeResult, markTargetDone and finishQueue of internal/runner/runner.go.
-- Each function is one step of the goroutine of queue q, and does nothing where it stands elsewhere.
use speedtest_tracker.Base.{
  ℕ, suc, ◌-◌, Bool, true, false, not, ◌||◌, Option, none, some, [], ◌∷◌, ltb, if◌then◌else◌,
  is_none, update,
}
use speedtest_tracker.Store.Runs.{RunStatus, running, done, failed, canceled}
use speedtest_tracker.Runner.State.{
  Target, Job, RunState, Worker, idle, received, announcing, testing, finishing, Lane, finisher,
  Write, Runner, update_lane, find_lane, set_worker, publish_run,
}
use speedtest_tracker.Runner.State.Status.{set_status}

abbrev pub worker_of : Option Lane → Worker
worker_of none = idle
worker_of (some l) = l.worker

abbrev pub move_worker : ℕ → Worker → Runner → Runner
move_worker q w r = record r { lanes = set_worker q w r.lanes }

unfoldable pub take_job : Lane → Lane
take_job l = elim l.buffer [
  | [] ↦ l
  | j ∷ rest ↦ (elim l.worker [ idle ↦ record l { buffer = rest; worker = received j } | _ ↦ l ])
]

-- `for j := range ch`.
unfoldable pub dequeue : ℕ → Runner → Runner
unfolding take_job
dequeue q r = record r { lanes = update_lane q take_job r.lanes }

-- The critical section at the head of execute.
begin_tracked : ℕ → Job → Option RunState → Runner → Runner
begin_tracked q j none r = move_worker q idle r
begin_tracked q j (some st) r =
    if st.canceled || (r.closing || r.ctx_done j.run_id)
    then move_worker q (finishing j.run_id false true) r
    else move_worker q (announcing j st.total)
        (record r { runs = update r.runs j.run_id (some (record st { started = true })) })

begin_at : ℕ → Worker → Runner → Runner
unfolding begin_tracked
begin_at q (received j) r = begin_tracked q j (r.runs j.run_id) r
begin_at q _ r = r

unfoldable pub begin : ℕ → Runner → Runner
unfolding begin_at
begin q r = begin_at q (worker_of (find_lane q r.lanes)) r

-- doneCount
unfoldable pub done_count : Option RunState → ℕ
done_count none = 0
done_count (some st) = st.done

-- The write of "running".
announce_at : Bool × Bool → ℕ → ℕ → Worker → Runner → Runner
unfolding publish_run done_count
announce_at faults now q (announcing j total) r =
    let (table, e) = set_status faults now j.run_id running "" r.table in
    let written : Runner = record r {
      table = table;
      lanes = set_worker q (testing j j.targets false) r.lanes;
    } in
    if is_none e
    then publish_run j.run_id running total (done_count (r.runs j.run_id)) written
    else written
announce_at faults now q _ r = r

unfoldable pub announce : Bool × Bool → ℕ → ℕ → Runner → Runner
unfolding announce_at
announce faults now q r = announce_at faults now q (worker_of (find_lane q r.lanes)) r

-- How runTarget comes out: its engine is not registered, fails, or measures.
pub data Outcome : Type 0 where
  unknown_engine engine_error measured : Outcome

-- storeResult: the row lands unless the insert fails.
store_result : Bool → ℕ → Target → Bool → Runner → Runner
store_result stored id t ok r =
    if stored
    then record r { results = record { run_id = id; target_id = t.id; ok = ok } ∷ r.results }
    else r

-- runTarget's row, and its report that the result failed.
run_target : Outcome → Bool → ℕ → Target → Runner → Runner × Bool
unfolding store_result
run_target measured stored id t r = (store_result stored id t true r, not stored)
run_target _ stored id t r = (store_result stored id t false r, true)

-- markTargetDone, and the publish that its callers make.
mark_done_in : ℕ → Option RunState → Runner → Runner
unfolding publish_run
mark_done_in id none r = r
mark_done_in id (some st) r =
    publish_run id running st.total (suc st.done)
      (record r { runs = update r.runs id (some (record st { done = suc st.done })) })

unfoldable pub mark_target_done : ℕ → Runner → Runner
unfolding mark_done_in
mark_target_done id r = mark_done_in id (r.runs id) r

-- One round of the loop over the targets of the job, or the step behind the loop.
test_at : Outcome → Bool → ℕ → Worker → Runner → Runner
unfolding run_target mark_target_done
test_at outcome stored q (testing j [] fails) r =
    move_worker q (finishing j.run_id fails (r.ctx_done j.run_id)) r
test_at outcome stored q (testing j (t ∷ ts) fails) r =
    if r.ctx_done j.run_id
    then move_worker q (finishing j.run_id fails true) r
    else let (r', bad) = run_target outcome stored j.run_id t r in
      mark_target_done j.run_id (move_worker q (testing j ts (fails || bad)) r')
test_at outcome stored q _ r = r

unfoldable pub test_next : Outcome → Bool → ℕ → Runner → Runner
unfolding test_at
test_next outcome stored q r = test_at outcome stored q (worker_of (find_lane q r.lanes)) r

-- The deferred recover of execute: a target in flight with no row yet gets a failed one.
recover_at : Bool → Bool → ℕ → Worker → Runner → Runner
unfolding store_result mark_target_done
recover_at row_written stored q (announcing j total) r =
    move_worker q (finishing j.run_id true false) r
recover_at row_written stored q (testing j (t ∷ ts) fails) r =
    let next = move_worker q (finishing j.run_id true false) r in
    if row_written
    then next
    else mark_target_done j.run_id (store_result stored j.run_id t false next)
recover_at row_written stored q _ r = r

unfoldable pub recover : Bool → Bool → ℕ → Runner → Runner
unfolding recover_at
recover row_written stored q r = recover_at row_written stored q (worker_of (find_lane q r.lanes)) r

unfoldable pub final_status : RunState → RunStatus
final_status st = if st.canceled then canceled else if st.failed then failed else done

-- finishQueue on a tracked run, with the new flags: the last queue claims the final write.
settle : ℕ → RunState → Runner → Runner
unfolding final_status
settle id st r =
    if ltb 0 st.pending then record r { runs = update r.runs id (some st) } else record r {
      runs = update r.runs id none;
      finalizing = update r.finalizing id true;
      ctx_done = update r.ctx_done id true;
      writes = update r.writes id (write ∷ r.writes id);
    }
  where
    write : Write
    write = record {
      writer = finisher;
      status = final_status st;
      message = "";
      total = st.total;
      done = st.done;
    }

unfoldable pub finish_queue : ℕ → Bool → Bool → Option RunState → Runner → Runner
unfolding settle
finish_queue id fails cancels none r = r
finish_queue id fails cancels (some st) r =
    settle id
      (record st {
        failed = fails || st.failed;
        canceled = cancels || st.canceled;
        pending = st.pending - 1;
      })
      r

finish_at : ℕ → Worker → Runner → Runner
unfolding finish_queue
finish_at q (finishing id fails cancels) r =
    finish_queue id fails cancels (r.runs id) (move_worker q idle r)
finish_at q _ r = r

unfoldable pub finish : ℕ → Runner → Runner
unfolding finish_at
finish q r = finish_at q (worker_of (find_lane q r.lanes)) r
