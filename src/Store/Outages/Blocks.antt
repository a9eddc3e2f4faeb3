-- ===== src/Store/Outages/Blocks.antt =====
-- The incidents of internal/store/outages.go described apart from the loop: as summaries of the
-- stretches of adjacent rows.
use speedtest_tracker.Base.{
  ℕ, suc, ◌+◌, String, ◌≡◌, Bool, true, false, not, ◌&&◌, List, [], ◌∷◌, str_eq, leb, if◌then◌else◌,
  length, any,
}
use speedtest_tracker.Store.Outages.{
  ok, degraded, failed, Row, Incident, result, is_ok, same_target,
}

-- A row with its parsed time.
abbrev pub Timed : Type 0
Timed = Row × ℕ

abbrev pub are_same : Row → Row → Bool
are_same a b = same_target a.target_id a.target_name b.target_id b.target_name

-- Trouble goes on from a row to the next one: the next is of the same target, not ok and near.
unfoldable pub goes_on : ℕ → Timed → List Timed → Bool
goes_on gap p [] = false
goes_on gap (p, t) ((q, u) ∷ rows) = are_same p q && (not (is_ok q.status) && leb u (t + gap))

-- A first block of trouble that is extended at its start.
abbrev pub glue : Row → List (Row × List Row) → List (Row × List Row)
glue r [] = (r, []) ∷ []
glue r ((s, g) ∷ gs) = (r, s ∷ g) ∷ gs

-- The maximal stretches of trouble, each with its first row.
unfoldable pub blocks : ℕ → List Timed → List (Row × List Row)
unfolding goes_on
blocks gap [] = []
blocks gap ((r, t) ∷ rows) =
    let rest = blocks gap rows in
    if is_ok r.status then rest else if goes_on gap (r, t) rows then glue r rest else (r, []) ∷ rest

-- The incident of a stretch: it is failed if one of its rows is, and has the first error text.
abbrev pub is_failed : Row → Bool
is_failed r = elim r.status [ ok ↦ false | degraded ↦ false | failed ↦ true ]

abbrev pub last : Row → List Row → Row
last r [] = r
last r (s ∷ g) = last s g

abbrev pub first_error : List Row → String
first_error [] = ""
first_error (r ∷ g) = if str_eq r.error "" then first_error g else r.error

unfoldable pub summary : Row × List Row → Incident
summary (r, g) = record {
  target_id = r.target_id;
  target_name = r.target_name;
  kind = result (if any is_failed g then failed else r.status);
  started_at = r.started_at;
  ended_at = (last r g).started_at;
  count = suc (length g);
  error = first_error (r ∷ g);
}

-- The rows of one target are adjacent.
abbrev pub IsGrouped : List Timed → Type 0
IsGrouped [] = Unit
IsGrouped ((r, t) ∷ rows) = IsFollowed r rows × IsGrouped rows
  where
    IsFollowed : Row → List Timed → Type 0
    IsFollowed r [] = Unit
    IsFollowed r ((q, u) ∷ rows) =
        (are_same r q ≡ false) → any (λ (x : Timed). are_same r x.0) rows ≡ false
