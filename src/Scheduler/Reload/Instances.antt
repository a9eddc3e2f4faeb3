-- ===== src/Scheduler/Reload/Instances.antt =====
-- Which cron instances run, over any order of the calls of internal/scheduler/scheduler.go.
use speedtest_tracker.Base.{
  ℕ, ◌<◌, String, ◌≡◌, refl, Bool, true, false, ◌&&◌, ◌||◌, Option, none, some, List, [], ◌∷◌,
  arith, ◌==◌, is_some, is_none, any,
}
use speedtest_tracker.Scheduler.Reload.{
  Schedule, Scheduler, fresh, swap, reload, stop_old, start_tail, start_next, ask_stop, stop,
  halt_first, halt, Action, reloads, starts, stops, halts, step, run,
}

abbrev pub opt_is : Option ℕ → ℕ → Bool
opt_is none c = false
opt_is (some d) c = d == c

abbrev pub next_is : Option (ℕ × Option ℕ) → ℕ → Bool
next_is none c = false
next_is (some (n, old)) c = n == c

abbrev pub old_is : Option (ℕ × Option ℕ) → ℕ → Bool
old_is none c = false
old_is (some (n, old)) c = opt_is old c

-- The instances that may run: the current one, the old one of a Reload that has not yet stopped
-- it, and those that a Stop is about to stop.
abbrev pub may_run : Scheduler → ℕ → Bool
may_run s c = opt_is s.cron c || (old_is s.tail c || any (λ d. d == c) s.ending)

record IsSolo (s : Scheduler) (c : ℕ) : Type 0 where
  below : (opt_is s.cron c || next_is s.tail c) ≡ true → c < s.next_cron
  current : is_some s.tail ≡ true → opt_is s.cron c ≡ next_is s.tail c
  apart : next_is s.tail c ≡ true → old_is s.tail c ≡ false
  owned : s.running c ≡ true → may_run s c ≡ true
  live : opt_is s.cron c ≡ true → is_none s.tail ≡ true → s.running c ≡ true
  ended : s.stopped ≡ true → is_none s.cron ≡ true
  late : any (λ d. d == c) s.ending ≡ true → s.stopped ≡ true

-- Whether no Stop comes while a Reload has swapped and not yet started its instance.
unfoldable pub are_serial : (String → String → Bool) → List Action → Scheduler → Bool
are_serial parses [] s = true
are_serial parses (stops ∷ rest) s = is_none s.tail && are_serial parses rest (stop s)
are_serial parses (a ∷ rest) s = are_serial parses rest (step parses a s)

reload-IsSolo :
    (parses : String → String → Bool) (listed : Option (List Schedule)) (s : Scheduler) (c : ℕ)
    → IsSolo s c
    → IsSolo (reload parses listed s) c
unfolding reload swap
reload-IsSolo parses none s c v = v
reload-IsSolo parses (some scs) s c v = go s.tail refl
  where
    go : (t : Option (ℕ × Option ℕ)) → s.tail ≡ t → IsSolo (reload parses (some scs) s) c
    go none e = ground arith
    go (some p) e = ground arith

start_next-IsSolo : (s : Scheduler) (c : ℕ) → IsSolo s c → IsSolo (start_next s) c
unfolding start_next start_tail stop_old
start_next-IsSolo s c v = go s.tail refl
  where
    go : (t : Option (ℕ × Option ℕ)) → s.tail ≡ t → IsSolo (start_next s) c
    go none e = ground arith
    go (some (n, none)) e = ground arith
    go (some (n, some old)) e = ground arith

stop-IsSolo : (s : Scheduler) (c : ℕ) → is_none s.tail ≡ true → IsSolo s c → IsSolo (stop s) c
unfolding stop ask_stop
stop-IsSolo s c free v = go s.cron refl
  where
    go : (o : Option ℕ) → s.cron ≡ o → IsSolo (stop s) c
    go none e = ground arith
    go (some d) e = ground arith

halt-IsSolo : (s : Scheduler) (c : ℕ) → IsSolo s c → IsSolo (halt s) c
unfolding halt halt_first
halt-IsSolo s c v = go s.ending refl
  where
    go : (ds : List ℕ) → s.ending ≡ ds → IsSolo (halt s) c
    go [] e = ground arith
    go (d ∷ ds) e = ground arith

run-IsSolo :
    (parses : String → String → Bool) (actions : List Action) (s : Scheduler) (c : ℕ)
    → are_serial parses actions s ≡ true
    → IsSolo s c
    → IsSolo (run parses actions s) c
unfolding run step are_serial
run-IsSolo parses [] s c serial v = v
run-IsSolo parses (reloads listed ∷ rest) s c serial v =
    run-IsSolo parses rest (reload parses listed s) c serial (reload-IsSolo parses listed s c v)
run-IsSolo parses (starts ∷ rest) s c serial v =
    run-IsSolo parses rest (start_next s) c serial (start_next-IsSolo s c v)
run-IsSolo parses (stops ∷ rest) s c serial v =
    let apart : is_none s.tail ≡ true = ground arith in
    run-IsSolo parses rest (stop s) c (ground arith) (stop-IsSolo s c apart v)
run-IsSolo parses (halts ∷ rest) s c serial v =
    run-IsSolo parses rest (halt s) c serial (halt-IsSolo s c v)

-- In any order of Reloads and Stops in which no Stop comes between the swap of a Reload and its
-- call of Start: a running instance is the current one, the old one that a Reload is about to stop,
-- or one that a Stop is about to stop; and outside of a Reload the current instance runs.
pub only_current_runs :
    (parses : String → String → Bool) (actions : List Action) (c : ℕ)
    → are_serial parses actions fresh ≡ true
    → let s = run parses actions fresh in
      (s.running c ≡ true → may_run s c ≡ true)
      × (opt_is s.cron c ≡ true → is_none s.tail ≡ true → s.running c ≡ true)
unfolding fresh
only_current_runs parses actions c serial =
    let v = run-IsSolo parses actions fresh c serial (ground arith) in (v.owned, v.live)
