-- ===== src/Scheduler/Overlap/Collision.antt =====
-- nearestCollision and firesWithin of internal/scheduler/overlap.go against what they look for.
use speedtest_tracker.Base.{
  ℕ, zero, suc, ◌+◌, ◌-◌, ◌≤◌, ◌<◌, ◌≡◌, refl, sym, inl, inr, Bool, false, Option, none, some, List,
  [], ◌∷◌, arith, ltb, leb, find, any, All, Bool-cases,
}
use speedtest_tracker.Scheduler.Overlap.{
  Next, overlap_threshold, fires_from, distance, along, collision, nearest_collision,
}

-- Times that do not fall.
abbrev pub IsAscending : List ℕ → Type 0
IsAscending [] = Unit
IsAscending (x ∷ xs) = All (λ y. x ≤ y) xs × IsAscending xs

-- Within the threshold of one of the times.
abbrev pub near_any : ℕ → List ℕ → ℕ → Bool
near_any threshold b x = any (λ y. leb (distance x y) threshold) b

-- A time that lies too early for y, and so for all that follow y.
near_any_early :
    (threshold x y : ℕ) (ys : List ℕ)
    → x < y
    → threshold < y - x
    → All (λ z. y ≤ z) ys
    → near_any threshold ys x ≡ false
near_any_early threshold x y [] h far v = refl
near_any_early threshold x y (z ∷ ys) h far v =
    ground (arith, near_any_early threshold x y ys h far v.1)

-- A time y too early for x is too early for all that follow x.
find_late :
    (threshold y : ℕ) (a b : List ℕ)
    → All (λ x. y + threshold < x) a
    → find (near_any threshold (y ∷ b)) a ≡ find (near_any threshold b) a
find_late threshold y [] b v = refl
find_late threshold y (x ∷ a) b v = ground (arith, find_late threshold y a b v.1)

All-later : (m x : ℕ) (a : List ℕ) → m < x → All (λ z. x ≤ z) a → All (λ z. m < z) a
All-later m x [] h v = tt
All-later m x (z ∷ a) h v = (omega arith, All-later m x a h v.1)

find-near_none : (threshold : ℕ) (a : List ℕ) → find (near_any threshold []) a ≡ none
find-near_none threshold [] = refl
find-near_none threshold (x ∷ a) = find-near_none threshold a

collision_lem :
    (threshold : ℕ) (a b : List ℕ)
    → IsAscending a
    → IsAscending b
    → collision threshold a b ≡ find (near_any threshold b) a
unfolding collision along
collision_lem threshold [] b va vb = refl
collision_lem threshold (x ∷ a) b va vb =
    go (λ (b' : List ℕ). λ (vb' : IsAscending b'). collision_lem threshold a b' va.1 vb') b vb
  where
    go :
        (onward : (b' : List ℕ)
          → IsAscending b'
          → collision threshold a b' ≡ find (near_any threshold b') a)
        (b' : List ℕ)
        → IsAscending b'
        → along threshold x (λ b''. collision threshold a b'') b'
          ≡ find (near_any threshold b') (x ∷ a)
    go onward [] vb = sym (find-near_none threshold a)
    go onward (y ∷ ys) vb = elim (Bool-cases (leb (distance x y) threshold)) [
      | inl near ↦ ground arith
      | inr far ↦ elim (Bool-cases (ltb x y)) [
        | inl early ↦ ground (
          arith,
          onward (y ∷ ys) vb,
          near_any_early threshold x y ys (ground arith) (ground arith) vb.0,
        )
        | inr late ↦ ground (
          arith,
          go onward ys vb.1,
          find_late threshold y (x ∷ a) ys
              (ground arith, All-later (y + threshold) x a (ground arith) va.0),
        )
      ]
    ]

-- On ascending times, the walk of nearestCollision finds exactly the first of its own times that
-- lies within 60 seconds of any of the others, and nothing if there is none.
pub nearest_collision_lem :
    (a b : List ℕ)
    → IsAscending a
    → IsAscending b
    → nearest_collision a b ≡ find (near_any overlap_threshold b) a
unfolding nearest_collision
nearest_collision_lem a b va vb = collision_lem overlap_threshold a b va vb

-- What the cron library documents of Next: the next activation time is later than the given time.
abbrev pub IsLater : Next → Type 0
IsLater next = (from at : ℕ) → next from ≡ some at → from < at

module _ (next : Next) (end : ℕ) (later : IsLater next) where
  All-fires_from :
      (n m : ℕ) (t : Option ℕ)
      → ((u : ℕ) → t ≡ some u → m < u)
      → All (λ z. m ≤ z) (fires_from n next end t)
  unfolding fires_from
  All-fires_from zero m t h = tt
  All-fires_from (suc n) m none h = tt
  All-fires_from (suc n) m (some t) h =
      let above : m < t = h t refl in
      let rest = All-fires_from n m (next t) (λ u e. omega (arith, later t u e, above)) in
      ground (arith, rest)

  pub fires_from-IsAscending : (n : ℕ) (t : Option ℕ) → IsAscending (fires_from n next end t)
  unfolding fires_from
  fires_from-IsAscending zero t = tt
  fires_from-IsAscending (suc n) none = tt
  fires_from-IsAscending (suc n) (some t) =
      ground (arith, fires_from-IsAscending n (next t), All-fires_from n t (next t) (later t))
