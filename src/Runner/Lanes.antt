-- ===== src/Runner/Lanes.antt =====
-- How many jobs of a run the queues of internal/runner/runner.go hold, in channels and in hands.
use speedtest_tracker.Base.{
  ℕ, ◌+◌, ◌<◌, String, ◌≡◌, refl, Bool, true, false, List, [], ◌∷◌, ◌++◌, inl, inr, arith, ◌==◌,
  if◌then◌else◌, bit, length, Bool-cases,
}
use speedtest_tracker.Runner.State.{
  Target, Job, Worker, idle, received, announcing, testing, finishing, Lane, update_lane, find_lane,
  set_worker,
}
use speedtest_tracker.Runner.Grouping.{Group, count_targets, group_by_queue, group_by_queue_lem}
use speedtest_tracker.Runner.Enqueue.{
  queue_chan, queue_chans, job_of, push_job, has_room, send_jobs,
}
use speedtest_tracker.Runner.Execute.{worker_of, take_job}

abbrev pub jobs_in : ℕ → List Job → ℕ
jobs_in id [] = 0
jobs_in id (j ∷ js) = bit (j.run_id == id) + jobs_in id js

abbrev pub worker_jobs : ℕ → Worker → ℕ
worker_jobs id idle = 0
worker_jobs id (received j) = bit (j.run_id == id)
worker_jobs id (announcing j total) = bit (j.run_id == id)
worker_jobs id (testing j ts fails) = bit (j.run_id == id)
worker_jobs id (finishing k fails cancels) = bit (k == id)

abbrev pub count_jobs : ℕ → List Lane → ℕ
count_jobs id [] = 0
count_jobs id (l ∷ ls) = jobs_in id l.buffer + worker_jobs id l.worker + count_jobs id ls

abbrev pub is_working : Worker → Bool
is_working idle = false
is_working _ = true

jobs_in-snoc :
    (id : ℕ) (js : List Job) (j : Job)
    → jobs_in id (js ++ j ∷ []) ≡ jobs_in id js + bit (j.run_id == id)
jobs_in-snoc id [] j = omega arith
jobs_in-snoc id (i ∷ js) j = omega (arith, jobs_in-snoc id js j)

-- A worker that moves on takes its job with it.
pub count-set_worker :
    (q : ℕ) (w w' : Worker) (ls : List Lane) (id : ℕ)
    → worker_of (find_lane q ls) ≡ w
    → is_working w ≡ true
    → count_jobs id (set_worker q w' ls) + worker_jobs id w ≡ count_jobs id ls + worker_jobs id w'
count-set_worker q w w' [] id e b = ground arith
count-set_worker q w w' (l ∷ ls) id e b = elim (Bool-cases (l.queue_id == q)) [
  | inl here ↦ ground arith
  | inr there ↦ ground (arith, count-set_worker q w w' ls id)
]

pub count-queue_chan :
    (q : ℕ) (name : String) (ls : List Lane) (id : ℕ)
    → count_jobs id (queue_chan q name ls) ≡ count_jobs id ls
unfolding queue_chan
count-queue_chan q name [] id = refl
count-queue_chan q name (l ∷ ls) id = ground (arith, count-queue_chan q name ls id)

pub count-queue_chans :
    (gs : List Group) (ls : List Lane) (id : ℕ)
    → count_jobs id (queue_chans gs ls) ≡ count_jobs id ls
unfolding queue_chans
count-queue_chans [] ls id = refl
count-queue_chans (g ∷ gs) ls id = ground (
  arith,
  count-queue_chans gs (queue_chan g.queue_id g.queue_name ls) id,
  count-queue_chan g.queue_id g.queue_name ls id,
)

count-push_job :
    (cap q : ℕ) (j : Job) (ls : List Lane) (id : ℕ)
    → has_room cap (find_lane q ls) ≡ true
    → count_jobs id (update_lane q (push_job j) ls) ≡ count_jobs id ls + bit (j.run_id == id)
count-push_job cap q j [] id h = ground arith
count-push_job cap q j (l ∷ ls) id h =
    ground (arith, jobs_in-snoc id l.buffer j, count-push_job cap q j ls id)

-- Sends that meet no full channel add one job for each group; another run's jobs are not touched.
pub count-send_jobs :
    (cap k : ℕ) (gs : List Group) (ls : List Lane) (id : ℕ)
    → let (ls', full) = send_jobs cap k gs ls in
      (full ≡ false → count_jobs id ls' ≡ count_jobs id ls + (if k == id then length gs else 0))
      × ((k == id) ≡ false → count_jobs id ls' ≡ count_jobs id ls)
unfolding send_jobs
count-send_jobs cap k [] ls id = ground arith
count-send_jobs cap k (g ∷ gs) ls id = ground (
  arith,
  count-send_jobs cap k gs (update_lane g.queue_id (push_job (job_of k g)) ls) id,
  count-push_job cap g.queue_id (job_of k g) ls id,
)

no_groups : (gs : List Group) → 0 < count_targets gs → 0 < length gs
no_groups [] h = absurd (omega arith)
no_groups (g ∷ gs) h = omega arith

-- A request with a target has a queue.
pub groups_exist : (ts : List Target) → 0 < length ts → 0 < length (group_by_queue ts)
groups_exist ts h = no_groups (group_by_queue ts) (omega (arith, (group_by_queue_lem ts).2))

pub count-take_job :
    (q : ℕ) (ls : List Lane) (id : ℕ) → count_jobs id (update_lane q take_job ls) ≡ count_jobs id ls
unfolding take_job
count-take_job q [] id = refl
count-take_job q (l ∷ ls) id = ground (arith, count-take_job q ls id)
