-- ===== src/Vmpush.antt =====
-- The worker of the VictoriaMetrics writer of internal/vmpush/writer.go: its retries with their
-- waits. An answer of the HTTP client is the status, or none for an error. Waits are in milliseconds.
pub mod Waits
pub mod Attempts
pub mod Counted
use speedtest_tracker.Base.{
  ℕ, zero, suc, ◌+◌, ◌*◌, Bool, true, false, not, ◌&&◌, Option, none, some, List, [], ◌∷◌, ◌++◌,
  ltb, leb, ◌==◌, if◌then◌else◌, length,
}

pub record Counters : Type 0 where
  pub pushed : ℕ
  pub failed : ℕ
  pub dropped : ℕ

-- What one turn of a retry loop meets: whether the exporter is enabled, the answer to the post,
-- whether the request context was cancelled by then, and whether the wait is cut short by Close.
pub record Attempt : Type 0 where
  pub enabled : Bool
  pub answer : Option ℕ
  pub cancelled : Bool
  pub cut_short : Bool

unfoldable pub is_success : Option ℕ → Bool
is_success none = false
is_success (some status) = ltb status 300

-- A status from 400 to 499, without 429, is not tried again.
unfoldable pub is_final : Option ℕ → Bool
is_final none = false
is_final (some status) = leb 400 status && (ltb status 500 && not (status == 429))

abbrev pub first_backoff : ℕ
first_backoff = 200

unfoldable pub next_backoff : ℕ → ℕ → ℕ
next_backoff max_backoff backoff =
    if ltb max_backoff (backoff * 2) then max_backoff else backoff * 2

abbrev pub push : Counters → Counters
push c = record c { pushed = suc c.pushed }

abbrev pub fail : Counters → Counters
fail c = record c { failed = suc c.failed }

abbrev pub drop_one : Counters → Counters
drop_one c = record c { dropped = suc c.dropped }

-- How a delivery ends: at its end, or still retrying when the attempts that are looked at are over.
-- `waits` are the waits that it has begun, and `posts` counts its posts.
pub record Delivery : Type 0 where
  pub counters : Counters
  pub is_over : Bool
  pub waits : List ℕ
  pub posts : ℕ

abbrev pub over : Counters → ℕ → Delivery
over c posts = record { counters = c; is_over = true; waits = []; posts = posts }

abbrev pub after_wait : ℕ → Delivery → Delivery
after_wait backoff d = record d { waits = backoff ∷ d.waits; posts = suc d.posts }

-- deliverBounded, from a wait on.
unfoldable pub deliver_bounded : ℕ → ℕ → List Attempt → Counters → Delivery
unfolding is_success is_final next_backoff
deliver_bounded max_backoff backoff [] c = record {
  counters = c;
  is_over = false;
  waits = [];
  posts = 0;
}
deliver_bounded max_backoff backoff (a ∷ more) c =
    let rest = deliver_bounded max_backoff (next_backoff max_backoff backoff) more (fail c) in
    if not a.enabled
    then over (drop_one c) 0
    else if is_success a.answer
    then over (push c) 1
    else if is_final a.answer
    then over (fail c) 1
    else if a.cut_short
    then record { counters = drop_one (fail c); is_over = true; waits = backoff ∷ []; posts = 1 }
    else after_wait backoff rest

-- deliver: a cancelled post and a stop during a wait hand the body to deliverBounded.
unfoldable pub deliver : ℕ → ℕ → List Attempt → Counters → Delivery
unfolding is_success is_final next_backoff deliver_bounded
deliver max_backoff backoff [] c = record { counters = c; is_over = false; waits = []; posts = 0 }
deliver max_backoff backoff (a ∷ more) c =
    let rest = deliver max_backoff (next_backoff max_backoff backoff) more (fail c) in
    let final = deliver_bounded max_backoff first_backoff more in
    if not a.enabled
    then over (fail c) 0
    else if is_success a.answer
    then over (push c) 1
    else if a.cancelled
    then record (final c) { posts = suc (final c).posts }
    else if is_final a.answer
    then over (fail c) 1
    else if a.cut_short
    then after_wait backoff (final (fail c))
    else after_wait backoff rest
