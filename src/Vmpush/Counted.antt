-- ===== src/Vmpush/Counted.antt =====
-- When and how a delivery of internal/vmpush/writer.go ends, and what is counted for it.
use speedtest_tracker.Base.{ℕ, ◌≡◌, refl, Bool, true, false, List, [], ◌∷◌, any, arith}
use speedtest_tracker.Vmpush.{
  Counters, Attempt, is_success, is_final, first_backoff, next_backoff, deliver_bounded, deliver,
  push, fail, drop_one, over,
}
use speedtest_tracker.Vmpush.Attempts.{
  is_landed, is_refused, is_last, IsEnded, success_lem, final_lem, EndedWith, handed_over,
  stopped_here, retried_later,
}

bounded_lem :
    (max_backoff backoff : ℕ) (attempts : List Attempt) (c : Counters)
    → EndedWith 0 attempts c (deliver_bounded max_backoff backoff attempts c)
unfolding deliver_bounded
bounded_lem max_backoff backoff [] c = λ done. ground arith
bounded_lem max_backoff backoff (a ∷ more) c =
    go (bounded_lem max_backoff (next_backoff max_backoff backoff) more (fail c)) a.enabled
      (is_landed a.answer) (is_refused a.answer) a.cut_short refl refl refl refl
  where
    s : is_success a.answer ≡ is_landed a.answer
    s = success_lem a.answer

    f : is_final a.answer ≡ is_refused a.answer
    f = final_lem a.answer

    go :
        EndedWith 0 more
          (fail c)
          (deliver_bounded max_backoff (next_backoff max_backoff backoff) more (fail c))
        → (enabled landed refused cut : Bool) → a.enabled ≡ enabled
        → is_landed a.answer ≡ landed
        → is_refused a.answer ≡ refused
        → a.cut_short ≡ cut
        → EndedWith 0 (a ∷ more) c (deliver_bounded max_backoff backoff (a ∷ more) c)
    go later false landed refused cut e l r u = simp e (
        stopped_here a more c (over (drop_one c) 0) 0 (ground arith) (ground arith) (ground arith)
          (ground arith))
    go later true true refused cut e l r u =
        simp (e, s, l)
          (stopped_here a more c (over (push c) 1) 0 (ground arith) (ground arith) (ground arith)
            (ground arith))
    go later true false true cut e l r u =
        simp (e, s, l, f, r)
          (stopped_here a more c (over (fail c) 1) 0 (ground arith) (ground arith) (ground arith)
            (ground arith))
    go later true false false true e l r u =
        simp (e, s, l, f, r, u)
          (stopped_here a more c
            (record {
              counters = drop_one (fail c);
              is_over = true;
              waits = backoff ∷ [];
              posts = 1;
            })
            0 (ground arith) (ground arith) (ground arith) (ground arith))
    go later true false false false e l r u =
        simp (e, s, l, f, r, u)
          (retried_later a more c
            (deliver_bounded max_backoff (next_backoff max_backoff backoff) more (fail c)) 0 backoff
            (ground arith) later)

deliver_lem :
    (max_backoff backoff : ℕ) (attempts : List Attempt) (c : Counters)
    → EndedWith 1 attempts c (deliver max_backoff backoff attempts c)
unfolding deliver
deliver_lem max_backoff backoff [] c = λ done. ground arith
deliver_lem max_backoff backoff (a ∷ more) c =
    go (deliver_lem max_backoff (next_backoff max_backoff backoff) more (fail c)) a.enabled
      (is_landed a.answer) a.cancelled (is_refused a.answer) a.cut_short refl refl refl refl refl
  where
    s : is_success a.answer ≡ is_landed a.answer
    s = success_lem a.answer

    f : is_final a.answer ≡ is_refused a.answer
    f = final_lem a.answer

    go :
        EndedWith 1 more
          (fail c)
          (deliver max_backoff (next_backoff max_backoff backoff) more (fail c))
        → (enabled landed cancelled refused cut : Bool) → a.enabled ≡ enabled
        → is_landed a.answer ≡ landed
        → a.cancelled ≡ cancelled
        → is_refused a.answer ≡ refused
        → a.cut_short ≡ cut
        → EndedWith 1 (a ∷ more) c (deliver max_backoff backoff (a ∷ more) c)
    go later false landed cancelled refused cut e l x r u = simp e (
        stopped_here a more c (over (fail c) 0) 1 (ground arith) (ground arith) (ground arith)
          (ground arith))
    go later true true cancelled refused cut e l x r u =
        simp (e, s, l)
          (stopped_here a more c (over (push c) 1) 1 (ground arith) (ground arith) (ground arith)
            (ground arith))
    go later true false true refused cut e l x r u =
        simp (e, s, l, x)
          (handed_over a more c (deliver_bounded max_backoff first_backoff more c) (ground arith) x
            (bounded_lem max_backoff first_backoff more c))
    go later true false false true cut e l x r u =
        simp (e, s, l, x, f, r)
          (stopped_here a more c (over (fail c) 1) 1 (ground arith) (ground arith) (ground arith)
            (ground arith))
    go later true false false false true e l x r u =
        simp (e, s, l, x, f, r, u)
          (retried_later a more c (deliver_bounded max_backoff first_backoff more (fail c)) 1
            backoff (ground arith)
            (λ done.
              let (v, none_lost) = bounded_lem max_backoff first_backoff more (fail c) done in
              (v, omega (arith, none_lost))))
    go later true false false false false e l x r u =
        simp (e, s, l, x, f, r, u)
          (retried_later a more c
            (deliver max_backoff (next_backoff max_backoff backoff) more (fail c)) 1 backoff
            (ground arith) later)

bounded-is_over :
    (max_backoff backoff : ℕ) (attempts : List Attempt) (c : Counters)
    → any is_last attempts ≡ true
    → (deliver_bounded max_backoff backoff attempts c).is_over ≡ true
unfolding deliver_bounded
bounded-is_over max_backoff backoff [] c h = ground arith
bounded-is_over max_backoff backoff (a ∷ more) c h = ground (
  arith,
  success_lem a.answer,
  final_lem a.answer,
  bounded-is_over max_backoff (next_backoff max_backoff backoff) more (fail c),
)

deliver-is_over :
    (max_backoff backoff : ℕ) (attempts : List Attempt) (c : Counters)
    → any is_last attempts ≡ true
    → (deliver max_backoff backoff attempts c).is_over ≡ true
unfolding deliver
deliver-is_over max_backoff backoff [] c h = ground arith
deliver-is_over max_backoff backoff (a ∷ more) c h = ground (
  arith,
  success_lem a.answer,
  final_lem a.answer,
  deliver-is_over max_backoff (next_backoff max_backoff backoff) more (fail c),
  bounded-is_over max_backoff first_backoff more c,
  bounded-is_over max_backoff first_backoff more (fail c),
)

-- If some attempt finds the exporter disabled, is answered with a status below 300, or is answered
-- with one from 400 to 499 other than 429 and not cancelled, the delivery is over. It then ended at
-- one attempt, with none of that kind before it: pushed has grown by one exactly if that attempt was
-- answered below 300, dropped by one if it was answered in no way that settles the body, and, as
-- dropped or as failed, one more is counted if it found the exporter disabled; besides these every
-- post counts as pushed or failed, except at most one that Close cancelled, which no counter counts.
pub deliver_ends :
    (max_backoff backoff : ℕ) (attempts : List Attempt) (c : Counters)
    → any is_last attempts ≡ true
    → ((deliver max_backoff backoff attempts c).is_over ≡ true)
      × IsEnded attempts c (deliver max_backoff backoff attempts c)
deliver_ends max_backoff backoff attempts c h =
    let done = deliver-is_over max_backoff backoff attempts c h in
    (done, (deliver_lem max_backoff backoff attempts c done).0)
