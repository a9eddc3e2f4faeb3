-- ===== src/Lib.antt =====
-- A verification library for speedtest-tracker, a self-hosted server that runs network speed tests
-- on schedules, stores the results and alerts on them.
--
-- The program. A schedule (internal/scheduler) fires and asks the runner (internal/runner) to enqueue
-- a run; users enqueue runs too. The runner writes a row to the runs table (internal/store), hands
-- the targets of the run to one worker per queue, tests them one after the other and resolves the row
-- when the last queue is done. Its events reach the browsers through a hub (internal/sse), its results
-- go to the notifier (internal/notify) and to a metrics exporter (internal/vmpush), its log lines to
-- another (internal/vlpush), and old rows are pruned (internal/prune). Requests are identified by
-- internal/auth. Settings live in a table of their own (internal/settings) that tells its subscribers
-- which keys a commit has changed; the API (internal/api) writes them, behind a guard that asks
-- internal/auth's questions of the request.
--
-- The files. Each names in its first lines the Go file that it follows; definitions keep the names of
-- the Go functions, in snake case.
--   Store/Runs: internal/store/runs.go, the table as its rows, newest first, and the next id. SQL
--     statements are functions on the rows. Its children hold the laws of SetRunStatus (Status), of
--     the pruning delete (Pruning), of the active runs of a schedule (Active) and of the listing
--     read page by page (Pages).
--   Store/Catalog: internal/store/queues.go, targets.go and target_revisions.go over the three
--     tables. Hosted has the calls that change them and that every target keeps a queue, History the
--     revisions that are kept, Restore a deletion followed by a restoration.
--   Store/Outages: internal/store/outages.go. Blocks describes the incidents apart from the loop;
--     Spans, Turns and Merged follow the loop and compare the two.
--   Settings: internal/settings/settings.go and env.go: the table with its transactions (Noted,
--     Atomic), a subscriber with its pump in small steps (Subscriber, Delivered), and the seeding
--     from the environment (EnvKey, Env, Seeded, Startup).
--   Api: the PUT of internal/api/settings.go. Bodies, Writes and Keys are its documents, what is
--     written of them and the keys that they give; Fields, Locks, Put and Kept are about the keys
--     that the environment has locked, Lockout and Admitted about the guard against locking oneself
--     out. Secrets and Echo are about the secrets of notification channels, as they are shown and
--     taken back.
--   Vmpush: the retries of internal/vmpush/writer.go, with their waits (Waits) and counters (Attempts,
--     Counted). Vlpush: the queue, the batches and the flushes of
--     internal/vlpush/vlpush.go.
--   Runner: internal/runner/runner.go. State has the maps that r.mu guards, the queue channels and
--     workers, and the final writes that a goroutine has claimed and not yet made. Enqueue, Execute
--     and Control have one function for each section that a lock makes atomic or that makes one store
--     call. System collects them in Action and step, so that a list of actions is any interleaving,
--     with any store fault and any outcome of a test; Ownership, Pending, Verdict and Dedupe are the
--     invariants of that system.
--   Scheduler: Fire is fire and skip of internal/scheduler/scheduler.go over the runner of this
--     library, with the steps of the runner that come between the check of a fire and its Enqueue; Reload is Reload, Stop and Next, with the swap under s.mu and the calls of Start and
--     Stop as separate steps; Overlap is internal/scheduler/overlap.go, which Expected describes
--     without its loops.
--   Notify: Thresholds and Evaluate are internal/notify/evaluate.go; Quiet, Notifier and Inbox are
--     internal/notify/notifier.go: quiet hours, the state machine of alerts and recoveries, and the
--     bounded queue between the runner's workers and its own, one step to a channel operation.
--   Prune: internal/prune/prune.go over the deletes of the store.
--   Sse: internal/sse/hub.go with the channels that it hands out.
--   Auth: internal/auth/auth.go: the readers of tokens, Configure and Identify, and the throttled
--     writes of a token's last use.
--   Base: the shared tests, lists and maps. Tests: runs at concrete inputs.
--
-- How the code is modelled. A goroutine's code between two lock operations is one step. In Execute a
-- worker may take its next job while the final write of its last one is still on its way, which allows
-- more behaviours than the code. Store calls that can fail take their faults as arguments. Timestamps
-- are numbers: of seconds, or in Overlap and Auth/Touch of nanoseconds. Integers of the program are counters and
-- database ids far below 2 ^ 63 and are natural numbers; where the code accepts a page or batch size
-- of 0 or less, that size is written 0. A float64 is an abstract type with its comparison. Parameters
-- are the cron library, through ParseSpec and Next, address prefixes, the hash of tokens, the reading
-- of "HH:MM" in quiet hours, the parsing and order of timestamps in Outages, the JSON encoding and
-- decoding of settings, what json.Marshal writes for the documents of a target, and the stores of tokens and sessions, which Identify takes as interfaces.
--
-- Bounds. firesWithin lists at most 2000 fires, as in the code, which is its measure. The drain of
-- Prune runs on fuel, the most rounds that it is given; one round more than there are rows to prune is
-- enough. Reading all pages of ListRuns is on fuel too: more rounds than there are matching runs are
-- enough. A delivery of Vmpush walks the attempts that it is given and says whether it is over.
-- All other loops are recursion on the list that they walk.
--
-- Not modelled: the web client, the engines that run the tests, the server searches,
-- OIDC login, the typed views of the settings, the handlers of the HTTP API other than the PUT of the
-- settings, of which the validation of values is a parameter, the SQL reports over results other than
-- the outages, and the texts of messages. Of the runner, the throttling of progress events, the result
-- sinks and the waits of Shutdown are left out.
pub mod Base
pub mod Settings
pub mod Api
pub mod Store
pub mod Vmpush
pub mod Vlpush
pub mod Runner
pub mod Prune
pub mod Notify
pub mod Scheduler
pub mod Sse
pub mod Auth
mod Tests
