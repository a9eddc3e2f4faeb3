-- ===== src/Store/Outages.antt =====
-- The trouble timeline of internal/store/outages.go. A row of the query is a value; the texts of
-- timestamps, their order and how they are parsed are parameters, and a parsed time is a number.
pub mod Blocks
pub mod Spans
pub mod Turns
pub mod Merged
use speedtest_tracker.Base.{
  ℕ, zero, suc, ◌+◌, ◌*◌, String, Bool, true, false, not, ◌&&◌, Option, none, some, List, [], ◌∷◌,
  ◌++◌, str_eq, leb, ◌==◌, if◌then◌else◌, take,
}

-- The CHECK constraint on results.status.
pub data Status : Type 0 where
  ok degraded failed : Status

pub record Row : Type 0 where
  pub target_id : Option ℕ
  pub target_name : String
  pub status : Status
  pub started_at : String
  pub error : String

-- Kind and Status of an incident: a stretch of results, or a fire that was skipped.
pub data Kind : Type 0 where
  result : Status → Kind
  skipped : Kind

pub record Incident : Type 0 where
  pub target_id : Option ℕ
  pub target_name : String
  pub kind : Kind
  pub started_at : String
  pub ended_at : String
  pub count : ℕ
  pub error : String

pub data OutageError : Type 0 where
  bad_query bad_scan bad_time : OutageError

pub data Answer {ℓ} (A : Type ℓ) : Type ℓ where
  done : A → Answer A
  fault : OutageError → Answer A

abbrev pub is_ok : Status → Bool
is_ok ok = true
is_ok _ = false

-- The test sameTarget.
unfoldable pub same_target : Option ℕ → String → Option ℕ → String → Bool
same_target none name none other = str_eq name other
same_target (some a) name (some b) other = a == b
same_target _ name _ other = false

-- The worse status wins.
unfoldable pub worse : Kind → Status → Kind
worse (result degraded) failed = result failed
worse kind status = kind

unfoldable pub extend : Row → Incident → Incident
unfolding worse
extend row cur = record cur {
  ended_at = row.started_at;
  count = suc cur.count;
  kind = worse cur.kind row.status;
  error = if str_eq cur.error "" then row.error else cur.error;
}

unfoldable pub begin : Row → Incident
begin row = record {
  target_id = row.target_id;
  target_name = row.target_name;
  kind = result row.status;
  started_at = row.started_at;
  ended_at = row.started_at;
  count = 1;
  error = row.error;
}

-- `cur` with `curEnd`.
abbrev pub Open : Type 0
Open = Option (Incident × ℕ)

unfoldable pub flush : List Incident → Open → List Incident
flush out none = out
flush out (some (cur, end)) = out ++ cur ∷ []

-- One turn of the loop over the rows, for a row with its parsed time.
unfoldable pub turn : ℕ → Row → ℕ → List Incident → Open → List Incident × Open
unfolding extend begin flush
turn gap row at out none = if is_ok row.status then (out, none) else (out, some (begin row, at))
turn gap row at out (some (cur, end)) =
    let same = same_target cur.target_id cur.target_name row.target_id row.target_name in
    if is_ok row.status
    then (if same then (flush out (some (cur, end)), none) else (out, some (cur, end)))
    else if same && leb at (end + gap)
    then (out, some (extend row cur, at))
    else (flush out (some (cur, end)), some (begin row, at))

-- What Rows.Next and Scan hand over: a row, or the error that Scan or, at the end, Rows.Err gives.
pub data Cursor {ℓ} (A : Type ℓ) : Type ℓ where
  end bad_row broken : Cursor A
  next : A → Cursor A → Cursor A

unfoldable pub merge :
    (String → Option ℕ) → ℕ → Cursor Row → List Incident → Open → Answer (List Incident)
unfolding turn flush
merge parse gap end out cur = done (flush out cur)
merge parse gap broken out cur = fault bad_query
merge parse gap bad_row out cur = fault bad_scan
merge parse gap (next row rows) out cur = elim (parse row.started_at) [
  | none ↦ fault bad_time
  | some at ↦ let (out', cur') = turn gap row at out cur in merge parse gap rows out' cur'
]

pub record SkippedRow : Type 0 where
  pub name : String
  pub started_at : String
  pub reason : String

unfoldable pub add_skipped : Cursor SkippedRow → List Incident → Answer (List Incident)
add_skipped end out = done out
add_skipped broken out = fault bad_query
add_skipped bad_row out = fault bad_scan
add_skipped (next row rows) out = add_skipped rows (
    out
    ++ record {
      target_id = none;
      target_name = row.name;
      kind = skipped;
      started_at = row.started_at;
      ended_at = row.started_at;
      count = 1;
      error = row.reason;
    }
      ∷ [])

abbrev pub max_incidents : ℕ
max_incidents = 500

-- gapSeconds as a Duration, in nanoseconds; a bound of 0 or less, written 0, is the default.
unfoldable pub gap_of : ℕ → ℕ
gap_of zero = 1800 * 1000000000
gap_of (suc n) = suc n * 1000000000

abbrev and_then {ℓ κ} : {A : Type ℓ} {B : Type κ} → Answer A → (A → Answer B) → Answer B
and_then (fault e) f = fault e
and_then (done a) f = f a

-- Outages, from the answers of its two queries: none is a query that fails. `sort` stands for
-- sort.Slice with the newest first.
unfoldable pub outages :
    (String → Option ℕ)
    → (List Incident → List Incident)
    → Option (Cursor Row)
    → Option (Cursor SkippedRow)
    → ℕ
    → Answer (List Incident)
unfolding merge add_skipped gap_of
outages parse sort none skips gap = fault bad_query
outages parse sort (some rows) skips gap = and_then (merge parse (gap_of gap) rows [] none) λ out.
    elim skips [
      | none ↦ fault bad_query
      | some cursor ↦ and_then (add_skipped cursor out) λ all. done (take max_incidents (sort all))
    ]
