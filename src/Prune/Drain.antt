-- ===== src/Prune/Drain.antt =====
-- The drain loop of internal/prune/prune.go over the runs table.
use speedtest_tracker.Base.{
  ℕ, zero, suc, ◌+◌, ◌<◌, ◌≡◌, refl, Bool, false, not, Option, none, some, [], arith, length,
  select,
}
use speedtest_tracker.Store.Runs.{Run, RunTable, prunable, prune_runs_before}
use speedtest_tracker.Store.Runs.Pruning.{prune_runs_before_lem}
use speedtest_tracker.Prune.{Error, Drained, drain}

module _ (cutoff batch : ℕ) (has_results : ℕ → Bool) where
  -- The closure that Once passes for runs, on a store that does not fail.
  abbrev pub delete_runs : RunTable → RunTable × ℕ × Option Error
  delete_runs t = let (t', n) = prune_runs_before cutoff batch has_results t in (t', n, none)

  abbrev p : Run → Bool
  p = prunable cutoff has_results

  abbrev pub IsDrained : ℕ → RunTable → Drained RunTable → Type 0
  IsDrained total t d =
      (select p d.state.rows ≡ [])
      × (select (λ r. not (p r)) d.state.rows ≡ select (λ r. not (p r)) t.rows)
      × (d.total ≡ total + length (select p t.rows))
      × (d.error ≡ none)

  drain_from :
      (fuel k total : ℕ) (t : RunTable)
      → length (select p t.rows) < fuel
      → (d : Drained RunTable) × (drain delete_runs (λ k. false) fuel k total t ≡ some d)
        × IsDrained total t d
  unfolding drain
  drain_from zero k total t h = elim h [ ]
  drain_from (suc fuel) k total t h =
      go (prune_runs_before cutoff batch has_results t).1 refl (drain_from fuel (suc k))
    where
      t' : RunTable
      t' = (prune_runs_before cutoff batch has_results t).0

      Goal : Type 0
      Goal =
          (d : Drained RunTable) × (drain delete_runs (λ k. false) (suc fuel) k total t ≡ some d)
          × IsDrained total t d

      go :
          (n : ℕ)
          → (prune_runs_before cutoff batch has_results t).1 ≡ n
          → ((m : ℕ) (u : RunTable)
              → length (select p u.rows) < fuel
              → (d : Drained RunTable) × (drain delete_runs (λ k. false) fuel (suc k) m u ≡ some d)
                × IsDrained m u d)
          → Goal
      go zero e ih = (
        record { state = t'; total = total + 0; error = none },
        rw (e, drain) refl,
        ground (arith, prune_runs_before_lem cutoff batch has_results t),
      )
      go (suc n) e ih =
          let (d, eq, drained) =
            ih (total + suc n) t'
              (ground (arith, prune_runs_before_lem cutoff batch has_results t)) in
          (d, rw (e, drain) eq, ground (arith, prune_runs_before_lem cutoff batch has_results t))

-- On a store that does not fail and with a context that is not canceled, the drain of the runs
-- table ends within one round more than there are prunable runs. It has then deleted every
-- prunable run, and no other, and reports their number.
pub drain_runs_lem :
    (cutoff batch : ℕ) (has_results : ℕ → Bool) (fuel : ℕ) (t : RunTable)
    → length (select (prunable cutoff has_results) t.rows) < fuel
    → (d : Drained RunTable) × (drain (delete_runs cutoff batch has_results) (λ k. false) fuel 0 0 t
        ≡ some d)
      × (select (prunable cutoff has_results) d.state.rows ≡ [])
      × (select (λ r. not (prunable cutoff has_results r)) d.state.rows
          ≡ select (λ r. not (prunable cutoff has_results r)) t.rows)
      × (d.total ≡ length (select (prunable cutoff has_results) t.rows))
      × (d.error ≡ none)
drain_runs_lem cutoff batch has_results fuel t h =
    let (d, eq, (clean, kept, total, fine)) = drain_from cutoff batch has_results fuel 0 0 t h in
    (d, eq, clean, kept, omega (arith, total), fine)
