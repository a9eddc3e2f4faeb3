-- ===== src/Settings/Env.antt =====
-- EnvKeyToSetting and SeedFromEnv of internal/settings/env.go. Parameters stand for the map
-- `defaults` with the encodings of its values, for strings.ToLower, strings.Cut and ParseBool, for
-- the decoding of a text into the type of a key's default and back, and for the sort of the entries.
use speedtest_tracker.Base.{
  String, Bool, false, not, ◌||◌, Option, none, some, List, [], ◌∷◌, ◌++◌, map, str_eq,
  if◌then◌else◌,
}
use speedtest_tracker.Settings.{
  Rows, lookup, upsert, SettingsError, read_failed, decode_failed, Answers, Settings, save,
}
use speedtest_tracker.Settings.EnvKey.{strip, in_section}

abbrev env_sections : List String
env_sections = "general" ∷ "engines" ∷ "auth" ∷ "integrations" ∷ "notifications" ∷ []

unfoldable pub in_sections : (String → Bool) → String → List String → Option String
unfolding in_section
in_sections known rest [] = none
in_sections known rest (section ∷ sections) =
    let later = in_sections known rest sections in
    elim (in_section known rest section) [ none ↦ later | some key ↦ some key ]

unfoldable pub env_key_to_setting : (String → String) → (String → Bool) → String → Option String
unfolding strip in_sections
env_key_to_setting to_lower known env = elim (strip "ST_" env) [
  | none ↦ none
  | some rest ↦
      if str_eq (to_lower rest) "" then none else in_sections known (to_lower rest) env_sections
]

-- The map `raw`, where a later variable of one name replaces an earlier one.
unfoldable pub raw_of : (String → Option (String × String)) → List String → Rows → Rows
unfolding upsert
raw_of cut [] raw = raw
raw_of cut (kv ∷ environ) raw = elim (cut kv) [
  | none ↦ raw_of cut environ raw
  | some (k, v) ↦ raw_of cut environ (upsert k v raw)
]

-- An entry, with the value of its variable.
pub record Entry : Type 0 where
  pub env : String
  pub key : String
  pub value : String

unfoldable pub entries_of : (String → Option String) → Rows → List Entry
entries_of to_setting [] = []
entries_of to_setting ((env, value) ∷ raw) =
    let rest = entries_of to_setting raw in
    elim (to_setting env) [
      | none ↦ rest
      | some key ↦ record { env = env; key = key; value = value } ∷ rest
    ]

-- What the database answers where an entry is read and saved.
pub record EntryAnswers : Type 0 where
  pub gets : Bool
  pub begins : Bool
  pub commits : Bool
  pub set : Answers

-- The value of an entry in its key's type: as it is, or else as a JSON string.
unfoldable pub decoded :
    (String → String → Option String) → (String → String) → Entry → Option String
decoded decode quote e = elim (decode e.key e.value) [
  | some v ↦ some v
  | none ↦ decode e.key (quote e.value)
]

-- Whether an unlocked entry leaves the stored value alone: someone has set it.
unfoldable pub is_set : (String → String) → String → Option String → Bool
is_set default_of key none = false
is_set default_of key (some stored) = not (str_eq stored (default_of key))

abbrev pub auth_mode : String
auth_mode = "auth.mode"

-- Set for one entry, and the locked keys with it.
unfoldable pub put_entry :
    Bool
    → EntryAnswers
    → String
    → String
    → Settings × List String
    → Settings × List String × Option SettingsError
unfolding save
put_entry lock_env a key value (s, locked) =
    let (s', error) = save a.begins a.commits ((a.set, key, value) ∷ []) s in
    elim error [
      | some e ↦ (s', locked, some e)
      | none ↦ (s', if lock_env then locked ++ key ∷ [] else locked, none)
    ]

-- One turn of the loop over the entries.
unfoldable pub seed_entry :
    (String → String → Option String)
    → (String → String)
    → (String → String)
    → Bool
    → EntryAnswers
    → Entry
    → Settings × List String
    → Settings × List String × Option SettingsError
unfolding decoded is_set lookup put_entry
seed_entry decode quote default_of lock_env a e (s, locked) = elim (decoded decode quote e) [
  | none ↦ (s, locked, some decode_failed)
  | some value ↦
      if lock_env || str_eq e.key auth_mode
      then put_entry lock_env a e.key value (s, locked)
      else if a.gets
      then (if is_set default_of e.key (lookup e.key s.rows)
          then (s, locked, none)
          else put_entry lock_env a e.key value (s, locked))
      else (s, locked, some read_failed)
]

unfoldable pub seed_entries :
    (String → String → Option String)
    → (String → String)
    → (String → String)
    → Bool
    → List (EntryAnswers × Entry)
    → Settings × List String
    → Settings × List String × Option SettingsError
unfolding seed_entry
seed_entries decode quote default_of lock_env [] (s, locked) = (s, locked, none)
seed_entries decode quote default_of lock_env ((a, e) ∷ more) st =
    let (s, locked, error) = seed_entry decode quote default_of lock_env a e st in
    let rest = seed_entries decode quote default_of lock_env more (s, locked) in
    elim error [ none ↦ rest | some fault ↦ (s, locked, some fault) ]

-- ST_LOCK_ENV, where the variable is there and ParseBool reads it.
unfoldable pub lock_env_of : (String → Option Bool) → Rows → Bool
unfolding lookup
lock_env_of parse_bool raw = elim (lookup "ST_LOCK_ENV" raw) [
  | none ↦ false
  | some v ↦ elim (parse_bool v) [ none ↦ false | some b ↦ b ]
]

-- SeedFromEnv; `sort` is sort.Slice by key, and the answers may differ from entry to entry.
unfoldable pub seed_from_env :
    (String → Option (String × String))
    → (String → Option String)
    → (String → Option Bool)
    → (List Entry → List Entry)
    → (Entry → EntryAnswers)
    → (String → String → Option String)
    → (String → String)
    → (String → String)
    → List String
    → Settings
    → Settings × List String × Option SettingsError
unfolding raw_of entries_of lock_env_of seed_entries
seed_from_env cut to_setting parse_bool sort answers decode quote default_of environ s =
    let raw = raw_of cut environ [] in
    seed_entries decode quote default_of (lock_env_of parse_bool raw)
      (map (λ e. (answers e, e)) (sort (entries_of to_setting raw))) (s, [])
