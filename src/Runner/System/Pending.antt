-- ===== src/Runner/System/Pending.antt =====
-- The queue jobs of a run over every behaviour of internal/runner/runner.go.
use speedtest_tracker.Base.{
  ℕ, ◌≤◌, ◌<◌, String, ◌≡◌, refl, Bool, true, false, Option, none, some, List, [], ◌∷◌, inl, inr,
  arith, length, All, Option-cases,
}
use speedtest_tracker.Store.Runs.{RunStatus, running, create_run}
use speedtest_tracker.Store.Runs.Status.{status_at_fresh}
use speedtest_tracker.Runner.State.{
  Target, RunState, Worker, idle, received, announcing, testing, finishing, Creating, Write, Runner,
  find_lane,
}
use speedtest_tracker.Runner.State.Status.{next_id-attempt, next_id-set_status}
use speedtest_tracker.Runner.Grouping.{filter_runnable, group_by_queue}
use speedtest_tracker.Runner.Enqueue.{open_run, open_request, queue_chans, commit}
use speedtest_tracker.Runner.Execute.{
  Outcome, worker_of, dequeue, begin, announce, test_next, recover, finish,
}
use speedtest_tracker.Runner.Control.{cancel, perform_write, cancel_all, claim_for_force_cancel}
use speedtest_tracker.Runner.Lanes.{
  count_jobs, count-set_worker, count-queue_chans, count-send_jobs, count-take_job, groups_exist,
}
use speedtest_tracker.Runner.System.{
  new, Action, starts, closes, cancels_all, opens, commits, claims, dequeues, begins, finishes,
  announces, tests, recovers, cancels, writes, step, run,
}
use speedtest_tracker.Runner.System.Ownership.{IsOwned, step-IsOwned, new-IsOwned}

-- A tracked run waits for exactly the jobs that are there, and for one at least.
abbrev pub Awaits : Option RunState → ℕ → Type 0
Awaits none jobs = Unit
Awaits (some st) jobs = (st.pending ≡ jobs) × (0 < jobs)

abbrev jobs : Runner → ℕ → ℕ
jobs r id = count_jobs id r.lanes

pub record IsCounted (r : Runner) (id : ℕ) : Type 0 where
  pub awaits : Awaits (r.runs id) (jobs r id)
  pub fresh : r.table.next_id ≤ id → jobs r id ≡ 0
  pub unsent : 0 < length (r.creating id) → jobs r id ≡ 0
  pub nonempty : All (λ (c : Creating). 0 < length c.targets) (r.creating id)

commit-IsCounted :
    (k : ℕ) (r : Runner) (id : ℕ)
    → IsOwned r id
    → IsOwned r k
    → IsCounted r id
    → IsCounted r k
    → IsCounted (commit k r).0 id
unfolding commit
commit-IsCounted k r id v vk c ck = go (r.creating k) refl
  where
    go : (cs : List Creating) → r.creating k ≡ cs → IsCounted (commit k r).0 id
    go [] h = ground arith
    go (e ∷ es) h =
        let gs = group_by_queue e.targets in
        ground (
          arith,
          groups_exist e.targets,
          count-queue_chans gs r.lanes id,
          count-send_jobs r.queue_cap k gs (queue_chans gs r.lanes) id,
          status_at_fresh r.table.rows r.table.next_id k vk.table,
        )

open_request-IsCounted :
    (fault : Bool) (trigger : String) (s : Option ℕ) (ts : List Target) (r : Runner) (id : ℕ)
    → IsOwned r id
    → IsCounted r id
    → IsCounted (open_request fault trigger s ts r).0 id
unfolding open_request open_run create_run
open_request-IsCounted fault trigger s ts r id v c = go (filter_runnable ts trigger) refl
  where
    go :
        (us : List Target)
        → filter_runnable ts trigger ≡ us
        → IsCounted (open_request fault trigger s ts r).0 id
    go [] h = ground arith
    go (u ∷ us) h = ground (arith, status_at_fresh r.table.rows r.table.next_id id v.table)

-- The steps of the goroutine of queue q, by where it stands.
module _ (q : ℕ) (r : Runner) (id : ℕ) (v : IsOwned r id) (c : IsCounted r id) where
  dequeue-IsCounted : IsCounted (dequeue q r) id
  unfolding dequeue
  dequeue-IsCounted = ground (arith, count-take_job q r.lanes id)

  begin-IsCounted : IsCounted (begin q r) id
  unfolding begin
  begin-IsCounted = go (worker_of (find_lane q r.lanes)) refl
    where
      go : (w : Worker) → worker_of (find_lane q r.lanes) ≡ w → IsCounted (begin q r) id
      go (received j) h = elim (Option-cases (r.runs j.run_id)) [
        | inl e ↦ ground (arith, count-set_worker q (received j) idle r.lanes id h)
        | inr (st, e) ↦ ground (
          arith,
          count-set_worker q (received j) (finishing j.run_id false true) r.lanes id h,
          count-set_worker q (received j) (announcing j st.total) r.lanes id h,
        )
      ]
      go _ h = ground arith

  announce-IsCounted : (faults : Bool × Bool) (now : ℕ) → IsCounted (announce faults now q r) id
  unfolding announce
  announce-IsCounted faults now = go (worker_of (find_lane q r.lanes)) refl
    where
      go :
          (w : Worker)
          → worker_of (find_lane q r.lanes) ≡ w
          → IsCounted (announce faults now q r) id
      go (announcing j total) h = ground (
        arith,
        count-set_worker q (announcing j total) (testing j j.targets false) r.lanes id h,
        next_id-set_status faults now j.run_id running "" r.table,
      )
      go _ h = ground arith

  test-IsCounted : (o : Outcome) (stored : Bool) → IsCounted (test_next o stored q r) id
  unfolding test_next
  test-IsCounted o stored = go (worker_of (find_lane q r.lanes)) refl
    where
      go :
          (w : Worker) → worker_of (find_lane q r.lanes) ≡ w → IsCounted (test_next o stored q r) id
      go (testing j [] fails) h =
          let next = finishing j.run_id fails (r.ctx_done j.run_id) in
          ground (arith, count-set_worker q (testing j [] fails) next r.lanes id h)
      go (testing j (t ∷ ts) fails) h = ground (
        arith,
        count-set_worker q (testing j (t ∷ ts) fails) (finishing j.run_id fails true) r.lanes id h,
        count-set_worker q (testing j (t ∷ ts) fails) (testing j ts true) r.lanes id h,
        count-set_worker q (testing j (t ∷ ts) fails) (testing j ts false) r.lanes id h,
      )
      go _ h = ground arith

  recover-IsCounted : (written stored : Bool) → IsCounted (recover written stored q r) id
  unfolding recover
  recover-IsCounted written stored = go (worker_of (find_lane q r.lanes)) refl
    where
      go :
          (w : Worker)
          → worker_of (find_lane q r.lanes) ≡ w
          → IsCounted (recover written stored q r) id
      go (announcing j total) h = ground (
        arith,
        count-set_worker q (announcing j total) (finishing j.run_id true false) r.lanes id h,
      )
      go (testing j (t ∷ ts) fails) h = ground (
        arith,
        count-set_worker q (testing j (t ∷ ts) fails) (finishing j.run_id true false) r.lanes id h,
      )
      go _ h = ground arith

  finish-IsCounted : IsCounted (finish q r) id
  unfolding finish
  finish-IsCounted = go (worker_of (find_lane q r.lanes)) refl
    where
      go : (w : Worker) → worker_of (find_lane q r.lanes) ≡ w → IsCounted (finish q r) id
      go (finishing k fails halts) h =
          ground (arith, count-set_worker q (finishing k fails halts) idle r.lanes id h)
      go _ h = ground arith

  cancel-IsCounted : (faults : Bool × Bool) (now k : ℕ) → IsCounted (cancel faults now k r).0 id
  unfolding cancel
  cancel-IsCounted faults now k =
      ground (arith, next_id-set_status faults now k RunStatus.canceled "" r.table)

  claim-IsCounted : (k : ℕ) → IsCounted (claim_for_force_cancel k r).0 id
  unfolding claim_for_force_cancel
  claim-IsCounted k = ground arith

  cancel_all-IsCounted : IsCounted (cancel_all r) id
  unfolding cancel_all
  cancel_all-IsCounted = elim (Option-cases (r.runs id)) [
    | inl e ↦ ground arith
    | inr (st, e) ↦ ground arith
  ]

  write-IsCounted : (faults : Bool × Bool) (now k : ℕ) → IsCounted (perform_write faults now k r) id
  unfolding perform_write
  write-IsCounted faults now k = go (r.writes k) refl
    where
      go : (ws : List Write) → r.writes k ≡ ws → IsCounted (perform_write faults now k r) id
      go [] h = ground arith
      go (w ∷ ws) h = ground (
        arith,
        next_id-set_status faults now k w.status w.message r.table,
        next_id-attempt faults.0 now k w.status w.message r.table,
      )

step-IsCounted :
    (a : Action) (r : Runner)
    → ((k : ℕ) → IsOwned r k)
    → ((k : ℕ) → IsCounted r k)
    → (id : ℕ) → IsCounted (step a r) id
unfolding step
step-IsCounted starts r v c id = ground (arith, c id)
step-IsCounted closes r v c id = ground (arith, c id)
step-IsCounted cancels_all r v c id = cancel_all-IsCounted 0 r id (v id) (c id)
step-IsCounted (opens fault trigger s ts) r v c id =
    open_request-IsCounted fault trigger s ts r id (v id) (c id)
step-IsCounted (commits k) r v c id = commit-IsCounted k r id (v id) (v k) (c id) (c k)
step-IsCounted (claims k) r v c id = ground (arith, c id, claim-IsCounted 0 r id (v id) (c id) k)
step-IsCounted (dequeues q) r v c id = dequeue-IsCounted q r id (v id) (c id)
step-IsCounted (begins q) r v c id = begin-IsCounted q r id (v id) (c id)
step-IsCounted (finishes q) r v c id = finish-IsCounted q r id (v id) (c id)
step-IsCounted (announces faults now q) r v c id =
    announce-IsCounted q r id (v id) (c id) faults now
step-IsCounted (tests o stored q) r v c id = test-IsCounted q r id (v id) (c id) o stored
step-IsCounted (recovers written stored q) r v c id =
    recover-IsCounted q r id (v id) (c id) written stored
step-IsCounted (cancels faults now k) r v c id = cancel-IsCounted 0 r id (v id) (c id) faults now k
step-IsCounted (writes faults now k) r v c id = write-IsCounted 0 r id (v id) (c id) faults now k

run-IsCounted :
    (actions : List Action) (r : Runner)
    → ((k : ℕ) → IsOwned r k)
    → ((k : ℕ) → IsCounted r k)
    → (id : ℕ) → IsCounted (run r actions) id
unfolding run
run-IsCounted [] r v c id = c id
run-IsCounted (a ∷ rest) r v c id =
    run-IsCounted rest (step a r) (λ k. step-IsOwned a r k (v k)) (step-IsCounted a r v c) id

new-IsCounted : (capacity id : ℕ) → IsCounted (new capacity) id
unfolding new
new-IsCounted capacity id = ground arith

-- In every reachable state the pending count of a tracked run is the number of its jobs in the
-- channels and in the workers' hands, and is not 0: no run is left in the map with nobody to
-- finish it. A run that is still being created has no job yet.
pub reachable-IsCounted :
    (capacity : ℕ) (actions : List Action) (id : ℕ) → IsCounted (run (new capacity) actions) id
reachable-IsCounted capacity actions id =
    run-IsCounted actions (new capacity) (new-IsOwned capacity) (new-IsCounted capacity) id
