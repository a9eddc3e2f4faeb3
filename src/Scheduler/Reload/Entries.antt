-- ===== src/Scheduler/Reload/Entries.antt =====
-- What a Reload of internal/scheduler/scheduler.go registers, as Next answers.
use speedtest_tracker.Base.{
  ℕ, String, ◌≡◌, refl, Bool, false, ◌&&◌, Option, none, some, List, [], ◌∷◌, arith, ◌==◌, find,
  All, update, ltb, length,
}
use speedtest_tracker.Scheduler.Reload.{
  Schedule, Scheduler, is_scheduled, register, swap, reload, start_tail, start_next, stop, ask_stop,
  next,
}

-- The primary key: no two rows with one id.
abbrev pub IsKeyed : List Schedule → Type 0
IsKeyed [] = Unit
IsKeyed (sc ∷ scs) = All (λ other. sc.id == other.id ≡ false) scs × IsKeyed scs

-- The schedule with the id that is enabled, has targets and a cron expression that parses.
unfoldable pub runnable_with : (String → String → Bool) → ℕ → List Schedule → Option Schedule
runnable_with parses id scs =
    find
      (λ sc.
        ((sc.id == id) && sc.enabled)
        && (ltb 0 (length sc.target_ids) && parses sc.cron sc.timezone))
      scs

abbrev or_else : Option Schedule → Option Schedule → Option Schedule
or_else none b = b
or_else (some a) b = some a

module _ (parses : String → String → Bool) (id : ℕ) where
  absent :
      (sc : Schedule) (scs : List Schedule)
      → sc.id ≡ id
      → All (λ (other : Schedule). sc.id == other.id ≡ false) scs
      → runnable_with parses id scs ≡ none
  unfolding runnable_with
  absent sc [] e v = refl
  absent sc (other ∷ scs) e v = ground (arith, absent sc scs e v.1)

  register_lem :
      (scs : List Schedule) (entries : ℕ → Option Schedule)
      → IsKeyed scs
      → register parses scs entries id ≡ or_else (runnable_with parses id scs) (entries id)
  unfolding register runnable_with is_scheduled
  register_lem [] entries v = refl
  register_lem (sc ∷ scs) entries v = ground (
    arith,
    absent sc scs,
    register_lem scs entries v.1,
    register_lem scs (update entries sc.id (some sc)) v.1,
  )

-- After a Reload that reads the schedules, while no other Reload is on its way and Stop has not been
-- called, Next answers for an id what the new cron instance keeps as the next time of its entry,
-- which may be none, if the row with the id is enabled, has a target and has an expression that
-- parses, and none for any other id; if Stop came first, it answers none for every id.
pub next_lem :
    (parses : String → String → Bool) (entry_next : ℕ → Schedule → Option ℕ) (scs : List Schedule)
    (s : Scheduler) (id : ℕ)
    → IsKeyed scs
    → s.tail ≡ none
    → (s.stopped ≡ false
        → next entry_next id (start_next (reload parses (some scs) s))
          ≡ (elim (runnable_with parses id scs) [
            | none ↦ none
            | some sc ↦ entry_next s.next_cron sc
          ]))
      × (next entry_next id (start_next (reload parses (some scs) (stop s))) ≡ none)
unfolding next reload swap start_next start_tail stop ask_stop
next_lem parses entry_next scs s id v free =
    (λ running. reloaded running (runnable_with parses id scs) refl, ground arith)
  where
    reloaded :
        s.stopped ≡ false
        → (o : Option Schedule) → runnable_with parses id scs ≡ o
        → next entry_next id (start_next (reload parses (some scs) s))
          ≡ (elim (runnable_with parses id scs) [
            | none ↦ none
            | some sc ↦ entry_next s.next_cron sc
          ])
    reloaded running none e = ground (arith, register_lem parses id scs (λ i. none) v)
    reloaded running (some sc) e = ground (arith, register_lem parses id scs (λ i. none) v)
