-- ===== src/Scheduler/Overlap/Warnings.antt =====
-- firesWithin and FindOverlaps of internal/scheduler/overlap.go as a whole.
use mathlib.Core.Option
use speedtest_tracker.Base.{
  ℕ, ◌+◌, String, ◌≡◌, ◌∙◌, refl, ap, Option, none, some, List, [], ◌∷◌, arith, ◌==◌, if◌then◌else◌,
  find,
}
use speedtest_tracker.Scheduler.Overlap.{
  Next, overlap_window, overlap_threshold, max_fires_per_sched, OverlapCandidate, Warning, fires_of,
  fires_within, shared_queue, warn_at, warn_on, warn_all, find_overlaps,
}
use speedtest_tracker.Scheduler.Overlap.Expected.{
  prepend, warning, common_queue, due_fires, expected_warning, expected_warnings, shared_queue_lem,
  fires_within_lem,
}
use speedtest_tracker.Scheduler.Overlap.Collision.{
  IsAscending, IsLater, near_any, fires_from-IsAscending, nearest_collision_lem,
}

module _ (parse_spec : String → String → Option Next) where
  -- The warning of one other schedule, by the code's own lists of fires.
  abbrev listed_warning : OverlapCandidate → OverlapCandidate → ℕ → Option Warning
  listed_warning subject other from =
      if other.id == subject.id then none else elim (shared_queue subject other) [
        | none ↦ none
        | some queue ↦ Option.map (warning other queue) (
            find (near_any overlap_threshold (fires_within parse_spec other from))
              (fires_within parse_spec subject from))
      ]

  abbrev listed_warnings : OverlapCandidate → List OverlapCandidate → ℕ → List Warning
  listed_warnings subject [] from = []
  listed_warnings subject (other ∷ others) from =
      prepend (listed_warning subject other from) (listed_warnings subject others from)

module _ (parse_spec : String → String → Option Next)
    (later : (cron zone : String) (next : Next)
      → parse_spec cron zone ≡ some next
      → IsLater next) where
  fires_within-IsAscending :
      (c : OverlapCandidate) (from : ℕ) → IsAscending (fires_within parse_spec c from)
  unfolding fires_within fires_of
  fires_within-IsAscending c from = go (parse_spec c.cron c.timezone) refl
    where
      go :
          (o : Option Next)
          → parse_spec c.cron c.timezone ≡ o
          → IsAscending (fires_within parse_spec c from)
      go none e = rw (e, fires_within) tt
      go (some next) e =
          rw (e, fires_within)
            (fires_from-IsAscending next (from + overlap_window) (later c.cron c.timezone next e)
              max_fires_per_sched (next from))

  nothing_near : (threshold : ℕ) (a : List ℕ) → find (near_any threshold []) a ≡ none
  nothing_near threshold [] = refl
  nothing_near threshold (x ∷ a) = nothing_near threshold a

  warn_on_lem :
      (mine theirs : List ℕ) (other : OverlapCandidate) (queue : Option String)
      (rest : List Warning)
      → IsAscending mine
      → IsAscending theirs
      → warn_on mine other theirs queue rest
        ≡ prepend
            (elim queue [
              | none ↦ none
              | some q ↦
                  Option.map (warning other q) (find (near_any overlap_threshold theirs) mine)
            ])
            rest
  unfolding warn_on warn_at
  warn_on_lem mine theirs other none rest va vb = refl
  warn_on_lem mine [] other (some q) rest va vb = rw (nothing_near overlap_threshold mine)
  warn_on_lem mine (y ∷ ys) other (some q) rest va vb =
      rw (nearest_collision_lem mine (y ∷ ys) va vb)
        (go (find (near_any overlap_threshold (y ∷ ys)) mine))
    where
      go : (o : Option ℕ) → warn_at other q o rest ≡ prepend (Option.map (warning other q) o) rest
      go none = refl
      go (some at) = refl

  warn_all_lem :
      (subject : OverlapCandidate) (others : List OverlapCandidate) (from : ℕ)
      → warn_all parse_spec subject from (fires_within parse_spec subject from) others
        ≡ listed_warnings parse_spec subject others from
  unfolding warn_all
  warn_all_lem subject [] from = refl
  warn_all_lem subject (other ∷ others) from = ground (
    arith,
    warn_all_lem subject others from,
    warn_on_lem (fires_within parse_spec subject from) (fires_within parse_spec other from) other
        (shared_queue subject other) (listed_warnings parse_spec subject others from)
        (fires_within-IsAscending subject from) (fires_within-IsAscending other from),
  )

  idle_subject :
      (subject : OverlapCandidate) (others : List OverlapCandidate) (from : ℕ)
      → fires_within parse_spec subject from ≡ []
      → listed_warnings parse_spec subject others from ≡ []
  idle_subject subject [] from e = refl
  idle_subject subject (other ∷ others) from e = ground (arith, idle_subject subject others from e)

  find_overlaps-listed :
      (subject : OverlapCandidate) (others : List OverlapCandidate) (from : ℕ)
      → find_overlaps parse_spec subject others from
        ≡ listed_warnings parse_spec subject others from
  unfolding find_overlaps
  find_overlaps-listed subject others from = go (fires_within parse_spec subject from) refl
    where
      go :
          (mine : List ℕ)
          → fires_within parse_spec subject from ≡ mine
          → find_overlaps parse_spec subject others from
            ≡ listed_warnings parse_spec subject others from
      go [] e = ground (arith, idle_subject subject others from e)
      go (x ∷ xs) e = ground (arith, warn_all_lem subject others from)

  one_lem :
      (subject other : OverlapCandidate) (from : ℕ)
      → listed_warning parse_spec subject other from
        ≡ expected_warning parse_spec subject other from
  unfolding overlap_threshold
  one_lem subject other from =
      ap (λ q. warned q (fires_within parse_spec other from) (fires_within parse_spec subject from))
        (shared_queue_lem subject other)
      ∙ ap (λ ts. warned (common_queue subject other) ts (fires_within parse_spec subject from))
          (fires_within_lem parse_spec other from later)
      ∙ ap (warned (common_queue subject other) (due_fires parse_spec other from))
          (fires_within_lem parse_spec subject from later)
    where
      warned : Option String → List ℕ → List ℕ → Option Warning
      warned queue theirs mine = if other.id == subject.id then none else elim queue [
        | none ↦ none
        | some q ↦ Option.map (warning other q) (find (near_any 60000000000 theirs) mine)
      ]

  listed_lem :
      (subject : OverlapCandidate) (others : List OverlapCandidate) (from : ℕ)
      → listed_warnings parse_spec subject others from
        ≡ expected_warnings parse_spec subject others from
  listed_lem subject [] from = refl
  listed_lem subject (other ∷ others) from =
      ap (λ w. prepend w (listed_warnings parse_spec subject others from))
        (one_lem subject other from)
      ∙ ap (prepend (expected_warning parse_spec subject other from))
          (listed_lem subject others from)

  -- If Next always returns a later time, FindOverlaps warns, in order, of exactly the other
  -- schedules that share a queue with the subject and, among the first 2000 activations of each
  -- within 24 hours, fire at most 60 seconds from a fire of the subject; the warning names the first
  -- queue of the other schedule that the subject has, and the first such fire of the subject.
  pub find_overlaps_lem :
      (subject : OverlapCandidate) (others : List OverlapCandidate) (from : ℕ)
      → find_overlaps parse_spec subject others from
        ≡ expected_warnings parse_spec subject others from
  find_overlaps_lem subject others from =
      find_overlaps-listed subject others from ∙ listed_lem subject others from
