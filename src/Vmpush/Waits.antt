-- ===== src/Vmpush/Waits.antt =====
-- The waits between the attempts of internal/vmpush/writer.go.
use speedtest_tracker.Base.{ℕ, ◌≤◌, List, [], ◌∷◌, arith, All}
use speedtest_tracker.Vmpush.{
  Counters, Attempt, first_backoff, next_backoff, deliver_bounded, deliver, fail,
}

abbrev IsPaced : ℕ → List ℕ → Type 0
IsPaced max_backoff = All (λ w. (200 ≤ w) × (w ≤ max_backoff))

next_backoff-paced :
    (max_backoff backoff : ℕ)
    → 200 ≤ max_backoff
    → 200 ≤ backoff
    → (200 ≤ next_backoff max_backoff backoff) × (next_backoff max_backoff backoff ≤ max_backoff)
unfolding next_backoff
next_backoff-paced max_backoff backoff h k = ground arith

bounded-IsPaced :
    (max_backoff backoff : ℕ) (attempts : List Attempt) (c : Counters)
    → 200 ≤ max_backoff
    → 200 ≤ backoff
    → backoff ≤ max_backoff
    → IsPaced max_backoff (deliver_bounded max_backoff backoff attempts c).waits
unfolding deliver_bounded
bounded-IsPaced max_backoff backoff [] c h low high = tt
bounded-IsPaced max_backoff backoff (a ∷ more) c h low high =
    let next = next_backoff-paced max_backoff backoff h low in
    let rest =
      bounded-IsPaced max_backoff (next_backoff max_backoff backoff) more (fail c) h next.0
        next.1 in
    ground arith

-- If the cap is at least 200 ms, then from a first wait of 200 ms on, every wait of a delivery is
-- between 200 ms and the cap, also after Close has handed the body to the bounded loop.
pub deliver-paced :
    (max_backoff backoff : ℕ) (attempts : List Attempt) (c : Counters)
    → 200 ≤ max_backoff
    → 200 ≤ backoff
    → backoff ≤ max_backoff
    → All (λ w. (200 ≤ w) × (w ≤ max_backoff)) (deliver max_backoff backoff attempts c).waits
unfolding deliver
deliver-paced max_backoff backoff [] c h low high = tt
deliver-paced max_backoff backoff (a ∷ more) c h low high =
    let next = next_backoff-paced max_backoff backoff h low in
    let rest =
      deliver-paced max_backoff (next_backoff max_backoff backoff) more (fail c) h next.0 next.1 in
    let here = bounded-IsPaced max_backoff first_backoff more c h (omega arith) h in
    let later = bounded-IsPaced max_backoff first_backoff more (fail c) h (omega arith) h in
    ground arith
