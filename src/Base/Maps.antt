-- ===== src/Base/Maps.antt =====
-- Maps from numbers, as functions: a Go map with integer keys.
use Prim.Native.Nat.{ℕ}
use speedtest_tracker.Base.Tests.{◌==◌, if◌then◌else◌}

-- m[i] = a
abbrev pub update {ℓ} : {A : Type ℓ} → (ℕ → A) → ℕ → A → ℕ → A
update f i a j = if i == j then a else f j
