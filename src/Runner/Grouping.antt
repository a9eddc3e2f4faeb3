-- ===== src/Runner/Grouping.antt =====
-- filterRunnable and the grouping of targets by queue at the head of Enqueue, internal/runner/runner.go.
use speedtest_tracker.Base.{
  ℕ, suc, ◌+◌, String, ◌≡◌, refl, Bool, true, false, List, [], ◌∷◌, ◌++◌, arith, ◌==◌, ◌<◌,
  append-nil, append_assoc, sym, length-append, str_eq, if◌then◌else◌, length, select, any,
  Bool-cases, inl, inr,
}
use speedtest_tracker.Runner.State.{Target}

unfoldable pub filter_runnable : List Target → String → List Target
filter_runnable targets trigger =
    if str_eq trigger "manual" then targets else select (λ t. t.enabled) targets

-- One key of `byQueue`, at its place in `order`, with its last entry of `queueNames`.
pub record Group : Type 0 where
  pub queue_id : ℕ
  pub queue_name : String
  pub targets : List Target

-- One round of the loop: append to the target's queue, which is new or already in `order`.
unfoldable pub add_target : List Group → Target → List Group
add_target [] t = record { queue_id = t.queue_id; queue_name = t.queue_name; targets = t ∷ [] } ∷ []
add_target (g ∷ gs) t =
    if g.queue_id == t.queue_id
    then record g { queue_name = t.queue_name; targets = g.targets ++ t ∷ [] } ∷ gs
    else g ∷ add_target gs t

unfoldable pub group_onto : List Group → List Target → List Group
group_onto gs [] = gs
group_onto gs (t ∷ ts) = group_onto (add_target gs t) ts

unfoldable pub group_by_queue : List Target → List Group
unfolding group_onto add_target
group_by_queue ts = group_onto [] ts

-- The targets that the group of a queue holds.
abbrev pub targets_of : ℕ → List Group → List Target
targets_of q [] = []
targets_of q (g ∷ gs) = if g.queue_id == q then g.targets else targets_of q gs

abbrev pub in_queue : ℕ → Target → Bool
in_queue q t = t.queue_id == q

-- No two groups of one queue, and no empty group.
abbrev pub IsGrouped : List Group → Type 0
IsGrouped [] = Unit
IsGrouped (g ∷ gs) =
    (any (λ h. h.queue_id == g.queue_id) gs ≡ false) × (0 < length g.targets) × IsGrouped gs

abbrev pub count_targets : List Group → ℕ
count_targets [] = 0
count_targets (g ∷ gs) = length g.targets + count_targets gs

targets_of-add_target :
    (gs : List Group) (t : Target) (q : ℕ)
    → targets_of q (add_target gs t) ≡ targets_of q gs ++ (if t.queue_id == q then t ∷ [] else [])
unfolding add_target
targets_of-add_target [] t q = ground arith
targets_of-add_target (g ∷ gs) t q =
    ground (arith, targets_of-add_target gs t q, append-nil g.targets, append-nil (targets_of q gs))

key-add_target :
    (gs : List Group) (t : Target) (q : ℕ)
    → any (λ h. h.queue_id == q) (add_target gs t)
      ≡ (if any (λ h. h.queue_id == q) gs then true else t.queue_id == q)
unfolding add_target
key-add_target [] t q = ground arith
key-add_target (g ∷ gs) t q = ground (arith, key-add_target gs t q)

add_target-IsGrouped : (gs : List Group) (t : Target) → IsGrouped gs → IsGrouped (add_target gs t)
unfolding add_target
add_target-IsGrouped [] t v = (refl, omega arith, tt)
add_target-IsGrouped (g ∷ gs) t v = ground (
  arith,
  add_target-IsGrouped gs t,
  key-add_target gs t g.queue_id,
  length-append g.targets (t ∷ []),
)

count-add_target :
    (gs : List Group) (t : Target) → count_targets (add_target gs t) ≡ suc (count_targets gs)
unfolding add_target
count-add_target [] t = refl
count-add_target (g ∷ gs) t =
    ground (arith, count-add_target gs t, length-append g.targets (t ∷ []))

targets_of-group_onto :
    (gs : List Group) (ts : List Target) (q : ℕ)
    → targets_of q (group_onto gs ts) ≡ targets_of q gs ++ select (in_queue q) ts
unfolding group_onto
targets_of-group_onto gs [] q = sym (append-nil _)
targets_of-group_onto gs (t ∷ ts) q =
    rw (targets_of-group_onto (add_target gs t) ts q, targets_of-add_target gs t q)
      (elim (Bool-cases (t.queue_id == q)) [
        | inl e ↦ rw e (append_assoc (targets_of q gs) (t ∷ []) (select (in_queue q) ts))
        | inr e ↦ rw (e, append-nil) refl
      ])

group_onto-IsGrouped :
    (gs : List Group) (ts : List Target) → IsGrouped gs → IsGrouped (group_onto gs ts)
unfolding group_onto
group_onto-IsGrouped gs [] v = v
group_onto-IsGrouped gs (t ∷ ts) v =
    group_onto-IsGrouped (add_target gs t) ts (add_target-IsGrouped gs t v)

count-group_onto :
    (gs : List Group) (ts : List Target)
    → count_targets (group_onto gs ts) ≡ count_targets gs + length ts
unfolding group_onto
count-group_onto gs [] = omega arith
count-group_onto gs (t ∷ ts) =
    omega (arith, count-group_onto (add_target gs t) ts, count-add_target gs t)

-- For every queue the group of that queue holds exactly the targets of that queue, in the order of
-- the request; no queue has two groups, no group is empty, and no target is lost or duplicated.
pub group_by_queue_lem :
    (ts : List Target)
    → ((q : ℕ) → targets_of q (group_by_queue ts) ≡ select (in_queue q) ts)
      × IsGrouped (group_by_queue ts)
      × (count_targets (group_by_queue ts) ≡ length ts)
unfolding group_by_queue
group_by_queue_lem ts = (
  λ q. targets_of-group_onto [] ts q,
  group_onto-IsGrouped [] ts tt,
  omega (arith, count-group_onto [] ts),
)
