-- ===== src/Settings/Startup.antt =====
-- What SeedFromEnv of internal/settings/env.go leaves in the table, said without its loop.
use speedtest_tracker.Base.{
  String, ◌≡◌, Bool, false, Option, none, some, List, [], ◌∷◌, str_eq, if◌then◌else◌,
}
use speedtest_tracker.Settings.{Rows, lookup, Settings}
use speedtest_tracker.Settings.Env.{Entry, EntryAnswers}
use speedtest_tracker.Settings.Seeded.{IsUp}

-- Whether ST_LOCK_ENV is in the environment with a value that ParseBool reads as true.
abbrev pub asks_lock : (String → Option Bool) → Rows → Bool
asks_lock parse_bool raw = elim (lookup "ST_LOCK_ENV" raw) [
  | none ↦ false
  | some v ↦ elim (parse_bool v) [ none ↦ false | some b ↦ b ]
]

module _ (decode : String → String → Option String) (quote : String → String)
    (default_of : String → String) where
  -- The value of the environment: the text itself if it decodes for the key, else its quotation.
  abbrev pub env_value : Entry → Option String
  env_value e = elim (decode e.key e.value) [
    | some v ↦ some v
    | none ↦ decode e.key (quote e.value)
  ]

  -- The value that wins: an operator's one, which differs from the default, is kept unless the
  -- environment is locked or the key is auth.mode; otherwise it is that of the environment.
  abbrev pub winner : Bool → Entry → Option String → Option String
  winner lock e none = env_value e
  winner lock e (some stored) =
      if lock
      then env_value e
      else if str_eq e.key "auth.mode"
      then env_value e
      else if str_eq stored (default_of e.key)
      then env_value e
      else some stored

  -- The value under a key after the entries, one after the other.
  abbrev pub started : Bool → List Entry → String → Option String → Option String
  started lock [] k stored = stored
  started lock (e ∷ more) k stored =
      started lock more k (if str_eq e.key k then winner lock e stored else stored)

  -- The database answers all calls for an entry, and the value of the entry decodes.
  abbrev pub IsReady : (Entry → EntryAnswers) → Entry → Type 0
  IsReady answers e = IsUp (answers e) × ((value : String) × (env_value e ≡ some value))
