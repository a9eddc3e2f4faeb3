-- ===== src/Scheduler/Overlap/Expected.antt =====
-- What internal/scheduler/overlap.go should warn of, said without its loops.
use mathlib.Core.Option
use speedtest_tracker.Base.{
  ℕ, zero, suc, ◌+◌, ◌<◌, String, ◌≡◌, refl, Option, none, some, List, [], ◌∷◌, inl, inr, arith,
  leb, ltb, ◌==◌, if◌then◌else◌, find, select, any, str_eq, Bool-cases,
}
use speedtest_tracker.Scheduler.Overlap.{
  Next, overlap_window, OverlapCandidate, Warning, fires_from, fires_of, fires_within, queue_set,
  first_in, shared_queue,
}
use speedtest_tracker.Scheduler.Overlap.Collision.{IsLater, near_any}

-- The first n activations of a schedule, from its next one on.
unfoldable pub activations : ℕ → Next → Option ℕ → List ℕ
activations zero next t = []
activations (suc n) next none = []
activations (suc n) next (some t) = t ∷ activations n next (next t)

-- Of the first 2000 activations of a schedule those within 24 hours, in nanoseconds.
unfoldable pub due_fires : (String → String → Option Next) → OverlapCandidate → ℕ → List ℕ
due_fires parse_spec c from = elim (parse_spec c.cron c.timezone) [
  | none ↦ []
  | some next ↦ select (λ t. leb t (from + 86400000000000)) (activations 2000 next (next from))
]

-- The first queue of the other schedule that is one of the subject's.
unfoldable pub common_queue : OverlapCandidate → OverlapCandidate → Option String
common_queue subject other = find (λ q. any (λ p. str_eq p q) subject.queues) other.queues

abbrev pub warning : OverlapCandidate → String → ℕ → Warning
warning other queue at = record { name = other.name; queue = queue; at = at }

abbrev pub prepend : Option Warning → List Warning → List Warning
prepend none ws = ws
prepend (some w) ws = w ∷ ws

-- A warning of another schedule: on the common queue, at the first fire of the subject that is at
-- most 60 seconds from a fire of the other.
abbrev pub expected_warning :
    (String → String → Option Next) → OverlapCandidate → OverlapCandidate → ℕ → Option Warning
expected_warning parse_spec subject other from =
    if other.id == subject.id then none else elim (common_queue subject other) [
      | none ↦ none
      | some queue ↦ Option.map (warning other queue) (
          find (near_any 60000000000 (due_fires parse_spec other from))
            (due_fires parse_spec subject from))
    ]

abbrev pub expected_warnings :
    (String → String → Option Next) → OverlapCandidate → List OverlapCandidate → ℕ → List Warning
expected_warnings parse_spec subject [] from = []
expected_warnings parse_spec subject (other ∷ others) from =
    prepend (expected_warning parse_spec subject other from)
      (expected_warnings parse_spec subject others from)

queue_set_lem : (qs : List String) (s : String) → queue_set qs s ≡ any (λ p. str_eq p s) qs
unfolding queue_set
queue_set_lem [] s = refl
queue_set_lem (q ∷ qs) s = ground (arith, queue_set_lem qs s)

first_in_lem :
    (mine qs : List String)
    → first_in (queue_set mine) qs ≡ find (λ q. any (λ p. str_eq p q) mine) qs
unfolding first_in
first_in_lem mine [] = refl
first_in_lem mine (q ∷ qs) = rw (queue_set_lem mine q, first_in_lem mine qs) refl

pub shared_queue_lem :
    (subject other : OverlapCandidate) → shared_queue subject other ≡ common_queue subject other
unfolding shared_queue common_queue
shared_queue_lem subject other = first_in_lem subject.queues other.queues

module _ (next : Next) (end : ℕ) (later : IsLater next) where
  past_end :
      (n : ℕ) (t : Option ℕ)
      → ((u : ℕ) → t ≡ some u → end < u)
      → select (λ u. leb u end) (activations n next t) ≡ []
  unfolding activations
  past_end zero t h = refl
  past_end (suc n) none h = refl
  past_end (suc n) (some t) h =
      let over : end < t = h t refl in
      ground (arith, past_end n (next t) (λ u e. omega (arith, later t u e, over)))

  fires_from_lem :
      (n : ℕ) (t : Option ℕ)
      → fires_from n next end t ≡ select (λ u. leb u end) (activations n next t)
  unfolding fires_from activations
  fires_from_lem zero t = refl
  fires_from_lem (suc n) none = refl
  fires_from_lem (suc n) (some t) = elim (Bool-cases (ltb end t)) [
    | inl over ↦
        let end_lt : end < t = ground arith in
        let none_left = past_end n (next t) (λ u e. omega (arith, later t u e, end_lt)) in
        ground (arith, none_left)
    | inr inside ↦ ground (arith, fires_from_lem n (next t))
  ]

-- If Next always returns a later time, firesWithin lists, of the first 2000 activations, exactly
-- those within 24 hours.
pub fires_within_lem :
    (parse_spec : String → String → Option Next) (c : OverlapCandidate) (from : ℕ)
    → ((cron zone : String) (next : Next) → parse_spec cron zone ≡ some next → IsLater next)
    → fires_within parse_spec c from ≡ due_fires parse_spec c from
unfolding fires_within fires_of due_fires overlap_window
fires_within_lem parse_spec c from later = go (parse_spec c.cron c.timezone) refl
  where
    go :
        (o : Option Next)
        → parse_spec c.cron c.timezone ≡ o
        → fires_within parse_spec c from ≡ due_fires parse_spec c from
    go none e = rw (fires_within, due_fires, e) refl
    go (some next) e =
        rw (fires_within, due_fires, e)
          (fires_from_lem next (from + 86400000000000) (later c.cron c.timezone next e) 2000
            (next from))
