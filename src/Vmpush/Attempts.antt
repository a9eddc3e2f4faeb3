-- ===== src/Vmpush/Attempts.antt =====
-- How one attempt of a delivery of internal/vmpush/writer.go adds to what is counted for it.
use speedtest_tracker.Base.{
  ℕ, suc, ◌+◌, ◌≤◌, ◌≡◌, refl, ap, Bool, true, false, not, ◌&&◌, ◌||◌, Option, none, some, List, [],
  ◌∷◌, ◌++◌, any, bit, arith, ltb, leb, ◌==◌, if◌then◌else◌,
}
use speedtest_tracker.Vmpush.{Counters, Attempt, is_success, is_final, Delivery, fail, after_wait}

-- A status below 300.
abbrev pub is_landed : Option ℕ → Bool
is_landed none = false
is_landed (some status) = ltb status 300

-- A status from 400 to 499 other than 429.
abbrev pub is_refused : Option ℕ → Bool
is_refused none = false
is_refused (some status) =
    if ltb status 400 then false else if leb 500 status then false else not (status == 429)

-- An attempt that no delivery goes on after.
abbrev pub is_last : Attempt → Bool
is_last a = not a.enabled || (is_landed a.answer || (is_refused a.answer && not a.cancelled))

-- The body is given up at the attempt without an answer that settles it.
abbrev pub is_abandoned : Attempt → Bool
is_abandoned a = not a.enabled || not (is_landed a.answer || is_refused a.answer)

abbrev pub total : Counters → ℕ
total c = c.pushed + c.failed + c.dropped

-- How the delivery d of the body has ended, from the counters c before it: at the attempt `last`,
-- after the attempts `before`, with `inconclusive` posts that Close has cancelled and that no
-- counter counts.
pub record IsEnded (attempts : List Attempt) (c : Counters) (d : Delivery) : Type 0 where
  pub before : List Attempt
  pub last : Attempt
  pub after : List Attempt
  pub inconclusive : ℕ
  pub split : attempts ≡ before ++ last ∷ after
  pub retried : any is_last before ≡ false
  pub pushed : d.counters.pushed ≡ c.pushed + bit (last.enabled && is_landed last.answer)
  pub least : c.dropped + bit (last.enabled && is_abandoned last) ≤ d.counters.dropped
  pub most : d.counters.dropped ≤ c.dropped + bit (is_abandoned last)
  pub counted : total d.counters + inconclusive ≡ total c + d.posts + bit (is_abandoned last)
  pub cancelled : inconclusive ≤ bit (any (λ (a : Attempt). a.cancelled) before)

pub success_lem : (o : Option ℕ) → is_success o ≡ is_landed o
unfolding is_success
success_lem none = refl
success_lem (some status) = refl

pub final_lem : (o : Option ℕ) → is_final o ≡ is_refused o
unfolding is_final
final_lem none = refl
final_lem (some status) = ground arith

-- A delivery with its number of inconclusive posts.
abbrev pub EndedWith : ℕ → List Attempt → Counters → Delivery → Type 0
EndedWith most attempts c d =
    (d.is_over ≡ true) → (v : IsEnded attempts c d) × (v.inconclusive ≤ most)

-- It ends later, after a post that Close has cancelled.
pub handed_over :
    (a : Attempt) (more : List Attempt) (c : Counters) (d : Delivery)
    → is_last a ≡ false
    → a.cancelled ≡ true
    → EndedWith 0 more c d
    → EndedWith 1 (a ∷ more) c (record d { posts = suc d.posts })
handed_over a more c d goes_on cancelled ends done =
    let (v, none_lost) = ends done in
    (
      record {
        before = a ∷ v.before;
        last = v.last;
        after = v.after;
        inconclusive = suc v.inconclusive;
        split = ap (◌∷◌ a) v.split;
        retried = ground (arith, v.retried);
        pushed = v.pushed;
        least = v.least;
        most = v.most;
        counted = omega (arith, v.counted);
        cancelled = ground (arith, none_lost);
      },
      omega (arith, none_lost),
    )

-- Here a delivery ends, with nothing inconclusive.
pub stopped_here :
    (a : Attempt) (more : List Attempt) (c : Counters) (d : Delivery) (most : ℕ)
    → d.counters.pushed ≡ c.pushed + bit (a.enabled && is_landed a.answer)
    → c.dropped + bit (a.enabled && is_abandoned a) ≤ d.counters.dropped
    → d.counters.dropped ≤ c.dropped + bit (is_abandoned a)
    → total d.counters ≡ total c + d.posts + bit (is_abandoned a)
    → EndedWith most (a ∷ more) c d
stopped_here a more c d most pushed low high counted done = (
  record {
    before = [];
    last = a;
    after = more;
    inconclusive = 0;
    split = refl;
    retried = refl;
    pushed = pushed;
    least = low;
    most = high;
    counted = ground arith;
    cancelled = ground arith;
  },
  omega arith,
)

-- It ends later, after a post that counts as failed.
pub retried_later :
    (a : Attempt) (more : List Attempt) (c : Counters) (d : Delivery) (most backoff : ℕ)
    → is_last a ≡ false
    → EndedWith most more (fail c) d
    → EndedWith most (a ∷ more) c (after_wait backoff d)
retried_later a more c d most backoff goes_on ends done =
    let (v, lost) = ends done in
    (
      record {
        before = a ∷ v.before;
        last = v.last;
        after = v.after;
        inconclusive = v.inconclusive;
        split = ap (◌∷◌ a) v.split;
        retried = ground (arith, v.retried);
        pushed = v.pushed;
        least = v.least;
        most = v.most;
        counted = omega (arith, v.counted);
        cancelled = ground (arith, v.cancelled);
      },
      lost,
    )
