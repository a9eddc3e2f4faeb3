-- ===== src/Runner/Control.antt =====
-- Cancel, cancelOrphan, endFinalize, the final status writes, Start and Shutdown of
-- internal/runner/runner.go.
use speedtest_tracker.Base.{
  ℕ, Bool, true, false, not, ◌||◌, Option, none, some, List, [], ◌∷◌, if◌then◌else◌, is_none,
  is_some, update,
}
use mathlib.Core.Option
use speedtest_tracker.Store.Runs.{Run, queued, running, canceled, get_run}
use speedtest_tracker.Runner.State.{
  RunState, Writer, finisher, full_queue, shutting_down, Write, Runner, publish_run,
}
use speedtest_tracker.Runner.State.Status.{attempt, set_status}

cancel_write : ℕ → Write
cancel_write total = record {
  writer = finisher;
  status = canceled;
  message = "";
  total = total;
  done = 0;
}

-- Cancel of a tracked run: one that has started no queue is claimed at once.
cancel_tracked : ℕ → RunState → Runner → Runner
unfolding cancel_write
cancel_tracked id st r =
    if st.started
    then record r {
      runs = update r.runs id (some (record st { canceled = true }));
      ctx_done = update r.ctx_done id true;
    }
    else record r {
      runs = update r.runs id none;
      finalizing = update r.finalizing id true;
      ctx_done = update r.ctx_done id true;
      writes = update r.writes id (cancel_write st.total ∷ r.writes id);
    }

abbrev is_live : Option Run → Bool
is_live none = false
is_live (some row) = elim row.status [ queued ↦ true | running ↦ true | _ ↦ false ]

-- cancelOrphan, under enqueueMu: a row that no one tracks or is about to resolve.
cancel_orphan : Bool × Bool → ℕ → ℕ → Runner → Runner × Bool
unfolding publish_run
cancel_orphan faults now id r =
    if (is_some (r.runs id) || r.finalizing id) || not (is_live (get_run id r.table))
    then (r, false)
    else let (table, e) = set_status faults now id canceled "" r.table in
      if is_none e
      then (publish_run id canceled 0 0 (record r { table = table }), true)
      else (record r { table = table }, false)

cancel_run : Bool × Bool → ℕ → ℕ → Option RunState → Runner → Runner × Bool
unfolding cancel_tracked cancel_orphan
cancel_run faults now id none r = cancel_orphan faults now id r
cancel_run faults now id (some st) r = (cancel_tracked id st r, true)

unfoldable pub cancel : Bool × Bool → ℕ → ℕ → Runner → Runner × Bool
unfolding cancel_run
cancel faults now id r = cancel_run faults now id (r.runs id) r

-- Who publishes what after its write.
publish_if : Bool → ℕ → Write → Runner → Runner
unfolding publish_run
publish_if go id w r = if go then publish_run id w.status w.total w.done r else r

-- endFinalize
end_finalize : ℕ → Runner → Runner
end_finalize id r = record r { finalizing = update r.finalizing id false }

write_as : Writer → Bool × Bool → ℕ → ℕ → Write → Runner → Runner
unfolding publish_if end_finalize
write_as finisher faults now id w r =
    let (table, e) = set_status faults now id w.status w.message r.table in
    end_finalize id (publish_if (is_none e) id w (record r { table = table }))
write_as full_queue faults now id w r =
    let (table, e) = set_status faults now id w.status w.message r.table in
    end_finalize id (publish_if true id w (record r { table = table }))
write_as shutting_down faults now id w r =
    let (table, e) = attempt faults.0 now id w.status w.message r.table in
    end_finalize id (publish_if (is_none e) id w (record r { table = table }))

perform_first : Bool × Bool → ℕ → ℕ → List Write → Runner → Runner
unfolding write_as
perform_first faults now id [] r = r
perform_first faults now id (w ∷ ws) r =
    write_as w.writer faults now id w (record r { writes = update r.writes id ws })

-- A claimed final write of run `id` reaches the store; then the id leaves `finalizing`.
unfoldable pub perform_write : Bool × Bool → ℕ → ℕ → Runner → Runner
unfolding perform_first
perform_write faults now id r = perform_first faults now id (r.writes id) r

unfoldable pub start : Runner → Runner
start r = record r { started = true }

-- Shutdown, first critical section.
unfoldable pub close_queues : Runner → Runner
close_queues r = record r { closing = true }

abbrev mark_canceled : RunState → RunState
mark_canceled st = record st { canceled = true }

-- Shutdown, second critical section: every tracked run is canceled.
unfoldable pub cancel_all : Runner → Runner
cancel_all r = record r {
  runs = λ id. Option.map mark_canceled (r.runs id);
  ctx_done = λ id. is_some (r.runs id) || r.ctx_done id;
}

claim_in : ℕ → Option RunState → Runner → Runner × Bool
claim_in id none r = (r, false)
claim_in id (some st) r = (
  record r {
    runs = update r.runs id none;
    finalizing = update r.finalizing id true;
    writes = update r.writes id (write ∷ r.writes id);
  },
  true,
)
  where
    write : Write
    write = record {
      writer = shutting_down;
      status = canceled;
      message = "server shutdown";
      total = st.total;
      done = st.done;
    }

-- claimForForceCancel, with the write that Shutdown makes on success.
unfoldable pub claim_for_force_cancel : ℕ → Runner → Runner × Bool
unfolding claim_in
claim_for_force_cancel id r = claim_in id (r.runs id) r
