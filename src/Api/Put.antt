-- ===== src/Api/Put.antt =====
-- applySettings of internal/api/settings.go from the transaction on, behind the check of the locks.
-- The checks in between, which only refuse, are a parameter.
use speedtest_tracker.Base.{String, Bool, Option, none, some, List, [], ◌∷◌, map, if◌then◌else◌}
use speedtest_tracker.Settings.{SettingsError, Answers, Settings, save}
use speedtest_tracker.Api.Bodies.{SettingsBody}
use speedtest_tracker.Api.Writes.{Write, writes}
use speedtest_tracker.Api.Keys.{locked_keys_in}

pub data Refusal : Type 0 where
  locked : List String → Refusal
  refused : Refusal
  failed : SettingsError → Refusal

abbrev pub with_answers : (Write → Answers) → Write → Answers × String × String
with_answers answers w = (answers w, w.0, w.1)

-- The answer to a save.
unfoldable pub saved : Settings × Option SettingsError → Settings × Option Refusal
saved (s, none) = (s, none)
saved (s, some e) = (s, some (failed e))

unfoldable pub after_locks :
    (String → String)
    → (SettingsBody → Bool)
    → Bool
    → Bool
    → (Write → Answers)
    → List String
    → SettingsBody
    → Settings
    → Settings × Option Refusal
unfolding saved save writes
after_locks encode refuses begins commits answers (key ∷ keys) body s =
    (s, some (locked (key ∷ keys)))
after_locks encode refuses begins commits answers [] body s =
    if refuses body
    then (s, some refused)
    else saved (save begins commits (map (with_answers answers) (writes encode body)) s)

unfoldable pub apply_settings :
    (String → String)
    → (String → Bool)
    → (SettingsBody → Bool)
    → Bool
    → Bool
    → (Write → Answers)
    → SettingsBody
    → Settings
    → Settings × Option Refusal
unfolding locked_keys_in after_locks
apply_settings encode is_locked refuses begins commits answers body s =
    after_locks encode refuses begins commits answers (locked_keys_in is_locked body) body s
