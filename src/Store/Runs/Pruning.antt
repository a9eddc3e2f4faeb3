-- ===== src/Store/Runs/Pruning.antt =====
-- What PruneRunsBefore of internal/store/runs.go deletes, and what it keeps.
use speedtest_tracker.Base.{
  ℕ, ◌+◌, ◌≤◌, ◌<◌, ◌≡◌, refl, Bool, not, List, [], ◌∷◌, arith, ◌==◌, if◌then◌else◌, length, select,
}
use speedtest_tracker.Store.Runs.{Run, RunTable, prunable, prune_oldest, prune_runs_before}

module _ (p : Run → Bool) where
  abbrev other : Run → Bool
  other r = not (p r)

  keeps_others :
      (batch : ℕ) (rs : List Run) → select other (prune_oldest p batch rs).0 ≡ select other rs
  unfolding prune_oldest
  keeps_others batch [] = refl
  keeps_others batch (r ∷ rs) = ground (arith, keeps_others batch rs)

  counts_deleted :
      (batch : ℕ) (rs : List Run)
      → length (select p (prune_oldest p batch rs).0) + batch
        ≡ length (select p rs) + (prune_oldest p batch rs).1
  unfolding prune_oldest
  counts_deleted batch [] = refl
  counts_deleted batch (r ∷ rs) = ground (arith, counts_deleted batch rs)

  left-le-batch : (batch : ℕ) (rs : List Run) → (prune_oldest p batch rs).1 ≤ batch
  unfolding prune_oldest
  left-le-batch batch [] = omega arith
  left-le-batch batch (r ∷ rs) = ground (arith, left-le-batch batch rs)

  leaves_none :
      (batch : ℕ) (rs : List Run)
      → 0 < (prune_oldest p batch rs).1
      → select p (prune_oldest p batch rs).0 ≡ []
  unfolding prune_oldest
  leaves_none batch [] h = refl
  leaves_none batch (r ∷ rs) h = ground (arith, leaves_none batch rs)

-- The LIMIT of one call.
abbrev pub batch_size : ℕ → ℕ
batch_size batch = if batch == 0 then 1000 else batch

-- One call deletes only finished runs that are older than the cutoff and own no result, at most one
-- batch of them; it counts what it deletes, keeps every other row in its place, and has left a
-- prunable row only if the batch was full.
pub prune_runs_before_lem :
    (cutoff batch : ℕ) (has_results : ℕ → Bool) (t : RunTable)
    → let p = prunable cutoff has_results in
      let (t', n) = prune_runs_before cutoff batch has_results t in
      (select (λ r. not (p r)) t'.rows ≡ select (λ r. not (p r)) t.rows)
      × (n + length (select p t'.rows) ≡ length (select p t.rows))
      × (n ≤ batch_size batch)
      × (n < batch_size batch → select p t'.rows ≡ [])
unfolding prune_runs_before
prune_runs_before_lem cutoff batch has_results t =
    let p = prunable cutoff has_results in
    let size = batch_size batch in
    (
      keeps_others p size t.rows,
      omega (arith, counts_deleted p size t.rows, left-le-batch p size t.rows),
      omega arith,
      λ h. leaves_none p size t.rows (omega (arith, left-le-batch p size t.rows)),
    )
