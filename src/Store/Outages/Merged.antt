-- ===== src/Store/Outages/Merged.antt =====
-- The loop of Outages in internal/store/outages.go finds the blocks.
use speedtest_tracker.Base.{
  ℕ, String, ◌≡◌, refl, sym, ap, Option, none, List, [], ◌∷◌, map, append-nil,
}
use speedtest_tracker.Store.Outages.{flush, merge, done}
use speedtest_tracker.Store.Outages.Blocks.{Timed, goes_on, blocks, summary, IsGrouped}
use speedtest_tracker.Store.Outages.Turns.{
  cursor_of, ArePlain, Claims, shown, loop, closed-cons, opened-cons, alone-cons,
}

claims :
    (parse : String → Option ℕ) (gap : ℕ) (rows : List Timed)
    → IsGrouped rows
    → ArePlain parse rows
    → Claims parse gap rows
unfolding merge flush cursor_of loop shown blocks goes_on
claims parse gap [] grouped plain = record {
  closed = λ out. ap done (sym (append-nil out));
  opened = λ out r g p t h k v. refl;
  alone = λ out r g t h. refl;
}
claims parse gap ((s, u) ∷ rows) grouped plain =
    let rest = claims parse gap rows grouped.1 plain.1 in
    record {
      closed = closed-cons parse gap s u rows rest grouped plain.0;
      opened = opened-cons parse gap s u rows rest grouped plain.0;
      alone = alone-cons parse gap s u rows rest grouped plain.0;
    }

-- Where the rows of a target are adjacent, as the query orders them, and their times parse, the
-- loop of Outages finds one incident for each maximal stretch of adjacent rows of one target that
-- are not ok and at most the gap apart: from its first to its last row, with their number, failed
-- if one of them is, and with the first error text there is.
pub merge-blocks :
    (parse : String → Option ℕ) (gap : ℕ) (rows : List Timed)
    → IsGrouped rows
    → ArePlain parse rows
    → merge parse gap (cursor_of rows) [] none ≡ done (map summary (blocks gap rows))
merge-blocks parse gap rows grouped plain = (claims parse gap rows grouped plain).closed []
