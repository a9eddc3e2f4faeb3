-- ===== src/Tests/StoreTests.antt =====
-- Concrete runs of the store's tables, for the theorems of the modules of Store.
use speedtest_tracker.Base.{
  ℕ, String, ◌≡◌, refl, true, Option, none, some, List, [], ◌∷◌, map, arith, str_eq, if◌then◌else◌,
}
use speedtest_tracker.Store.Outages.{Status, failed, degraded, same_target, Row, merge, done}
use speedtest_tracker.Store.Outages.Blocks.{Timed, blocks, summary}
use speedtest_tracker.Store.Outages.Turns.{cursor_of}
use speedtest_tracker.Store.Outages.Merged.{merge-blocks}
use speedtest_tracker.Store.Catalog.{Target, revert, ok, migrated}
use speedtest_tracker.Store.Catalog.Hosted.{
  Call, creates_queue, deletes_queue, creates, updates, rotates, run, IsHosted,
}
use speedtest_tracker.Store.Catalog.Hosted.Reachable.{catalog-IsHosted}
use speedtest_tracker.Store.Catalog.History.{versions, countdown, versions-run}

abbrev lan_target : Target
lan_target = record {
  id = 0;
  name = "office";
  engine = "iperf3";
  enabled = true;
  queue_id = 2;
  queue_name = "";
  options = "";
  thresholds = "{ }";
  rotation_index = 0;
  created_at = 0;
  updated_at = 0;
}

-- Takes the spaces out of one document, and refuses a text that is no JSON.
abbrev json : String → Option String
json d =
    if str_eq d ""
    then none
    else if str_eq d "not json"
    then none
    else if str_eq d "{ }"
    then some "{}"
    else some d

abbrev calls : List Call
calls =
    creates_queue 3 "guest"
    ∷ creates 5 lan_target
    ∷ updates revert 6 (record lan_target { id = 1; queue_id = 3 })
    ∷ deletes_queue 3
    ∷ rotates 1 4
    ∷ []

catalog-IsHosted_example : IsHosted (run json calls migrated)
catalog-IsHosted_example = catalog-IsHosted json calls

versions-run_example : (m : ℕ) × (versions 1 (run json calls migrated).revisions ≡ countdown m 50)
versions-run_example = versions-run json calls 1

-- The target that the calls leave.
abbrev guest_target : Target
guest_target = record lan_target {
  id = 1;
  queue_id = 3;
  queue_name = "guest";
  options = "{}";
  rotation_index = 1;
  created_at = 5;
  updated_at = 6;
}

abbrev row : Status → String → Row
row status at = record {
  target_id = some 4;
  target_name = "office";
  status = status;
  started_at = at;
  error = "";
}

-- Two failures ten apart, a recovery, and a degraded result.
abbrev timed_rows : List Timed
timed_rows =
    (row failed "00", 0)
    ∷ (row failed "10", 10)
    ∷ (row Status.ok "20", 20)
    ∷ (row degraded "25", 25)
    ∷ []

abbrev parse_two : String → Option ℕ
parse_two text =
    if str_eq text "00"
    then some 0
    else if str_eq text "10"
    then some 10
    else if str_eq text "20"
    then some 20
    else if str_eq text "25"
    then some 25
    else none

merge-blocks_example :
    merge parse_two 15 (cursor_of timed_rows) [] none ≡ done (map summary (blocks 15 timed_rows))
unfolding same_target
merge-blocks_example =
    merge-blocks parse_two 15 timed_rows
      (λ h. ground arith, (λ h. ground arith, (λ h. refl, (tt, tt))))
      (refl, (refl, (refl, (refl, tt))))
