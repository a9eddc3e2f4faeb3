-- ===== src/Settings/EnvKey.antt =====
-- The texts that EnvKeyToSetting of internal/settings/env.go takes apart.
use Prim.Native.String.{[], ◌∷◌, ◌++◌}
use Prim.Native.Char.{code}
use speedtest_tracker.Base.{String, Bool, Option, none, some, ◌==◌, if◌then◌else◌}

-- strings.HasPrefix and TrimPrefix: what follows a prefix.
unfoldable pub strip : String → String → Option String
strip [] s = some s
strip (p ∷ ps) [] = none
strip (p ∷ ps) (c ∷ cs) = let rest = strip ps cs in if code p == code c then rest else none

-- One turn of the loop over the sections; `known` tells the keys of `defaults`.
unfoldable pub in_section : (String → Bool) → String → String → Option String
unfolding strip
in_section known rest section = elim (strip (section ++ "_") rest) [
  | none ↦ none
  | some key ↦ if known (section ++ "." ++ key) then some (section ++ "." ++ key) else none
]
