-- ===== src/Scheduler/Overlap.antt =====
-- internal/scheduler/overlap.go: the warnings about schedules that collide on a queue.
-- An instant is a number of nanoseconds. ParseSpec and the cron library's Next are parameters.
pub mod Collision
pub mod Expected
pub mod Warnings
use speedtest_tracker.Base.{
  ℕ, zero, suc, ◌+◌, ◌-◌, String, Bool, true, false, Option, none, some, List, [], ◌∷◌, str_eq, ltb,
  leb, ◌==◌, if◌then◌else◌,
}

abbrev pub Next : Type 0
Next = ℕ → Option ℕ

unfoldable pub overlap_window : ℕ
overlap_window = 86400000000000

unfoldable pub overlap_threshold : ℕ
overlap_threshold = 60000000000

abbrev pub max_fires_per_sched : ℕ
max_fires_per_sched = 2000

pub record OverlapCandidate : Type 0 where
  pub id : ℕ
  pub name : String
  pub cron : String
  pub timezone : String
  pub queues : List String

-- The loop, on the number of fires it may still list and the next fire; none is the zero time.
unfoldable pub fires_from : ℕ → Next → ℕ → Option ℕ → List ℕ
fires_from zero next end t = []
fires_from (suc n) next end none = []
fires_from (suc n) next end (some t) =
    let rest = fires_from n next end (next t) in if ltb end t then [] else t ∷ rest

-- A spec that does not parse has no fires.
fires_of : ℕ → Option Next → List ℕ
unfolding overlap_window fires_from
fires_of from none = []
fires_of from (some next) = fires_from max_fires_per_sched next (from + overlap_window) (next from)

unfoldable pub fires_within : (String → String → Option Next) → OverlapCandidate → ℕ → List ℕ
unfolding fires_of
fires_within parse_spec c from = fires_of from (parse_spec c.cron c.timezone)

-- The set of the queues of a candidate.
unfoldable pub queue_set : List String → String → Bool
queue_set [] s = false
queue_set (q ∷ qs) s = if str_eq q s then true else queue_set qs s

first_in : (String → Bool) → List String → Option String
first_in set [] = none
first_in set (q ∷ qs) = if set q then some q else first_in set qs

unfoldable pub shared_queue : OverlapCandidate → OverlapCandidate → Option String
unfolding queue_set first_in
shared_queue a b = first_in (queue_set a.queues) b.queues

abbrev pub distance : ℕ → ℕ → ℕ
distance a b = if ltb a b then b - a else a - b

-- The walk along b while it is behind x; `next_x` goes on with the rest of a.
unfoldable pub along : ℕ → ℕ → (List ℕ → Option ℕ) → List ℕ → Option ℕ
along threshold x next_x [] = none
along threshold x next_x (y ∷ ys) =
    if leb (distance x y) threshold
    then some x
    else elim (ltb x y) [ true ↦ next_x (y ∷ ys) | false ↦ along threshold x next_x ys ]

-- The two-pointer walk, for any threshold.
unfoldable pub collision : ℕ → List ℕ → List ℕ → Option ℕ
unfolding along
collision threshold [] b = none
collision threshold (x ∷ a) b = along threshold x (λ b'. collision threshold a b') b

unfoldable pub nearest_collision : List ℕ → List ℕ → Option ℕ
unfolding overlap_threshold collision
nearest_collision a b = collision overlap_threshold a b

-- The parts of the warning's text.
pub record Warning : Type 0 where
  pub name : String
  pub queue : String
  pub at : ℕ

abbrev is_empty : List ℕ → Bool
is_empty [] = true
is_empty (x ∷ xs) = false

warn_at : OverlapCandidate → String → Option ℕ → List Warning → List Warning
warn_at other queue none rest = rest
warn_at other queue (some at) rest = record { name = other.name; queue = queue; at = at } ∷ rest

warn_on : List ℕ → OverlapCandidate → List ℕ → Option String → List Warning → List Warning
unfolding nearest_collision warn_at
warn_on mine other theirs none rest = rest
warn_on mine other theirs (some queue) rest =
    if is_empty theirs then rest else warn_at other queue (nearest_collision mine theirs) rest

-- The loop over the other schedules.
warn_all :
    (String → String → Option Next)
    → OverlapCandidate
    → ℕ
    → List ℕ
    → List OverlapCandidate
    → List Warning
unfolding fires_within shared_queue warn_on
warn_all parse_spec subject from mine [] = []
warn_all parse_spec subject from mine (other ∷ others) =
    let rest = warn_all parse_spec subject from mine others in
    if other.id == subject.id
    then rest
    else warn_on mine other (fires_within parse_spec other from) (shared_queue subject other) rest

unfoldable pub find_overlaps :
    (String → String → Option Next) → OverlapCandidate → List OverlapCandidate → ℕ → List Warning
unfolding fires_within warn_all
find_overlaps parse_spec subject others from =
    let mine = fires_within parse_spec subject from in
    if is_empty mine then [] else warn_all parse_spec subject from mine others
