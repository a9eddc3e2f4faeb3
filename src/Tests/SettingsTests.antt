-- ===== src/Tests/SettingsTests.antt =====
-- A transaction, a subscription and a seeding of the settings.
use speedtest_tracker.Base.{
  String, ◌≡◌, refl, true, none, some, Option, List, [], ◌∷◌, str_eq, if◌then◌else◌,
}
use speedtest_tracker.Settings.{Answers, Settings}
use speedtest_tracker.Settings.Atomic.{SaveResult, save-IsAtomic}
use speedtest_tracker.Settings.Subscriber.{
  Step, marks, wakes, pumps, takes, sends, receives, step, run, subscribe,
}
use speedtest_tracker.Settings.Delivered.{is_pending, marked_key_is_pending}
use speedtest_tracker.Settings.Env.{EntryAnswers, seed_from_env}

abbrev good : Answers
good = record { encodes = true; reads = true; writes = true }

abbrev stored : Settings
stored = record { rows = ("auth.mode", "open") ∷ ("units", "Mbps") ∷ []; notified = [] }

abbrev two_writes : List (Answers × String × String)
two_writes = (good, "units", "kbps") ∷ (good, "auth.mode", "open") ∷ []

save-IsAtomic_example : SaveResult true true two_writes stored
save-IsAtomic_example = save-IsAtomic true true two_writes stored (refl, (refl, tt))

-- A key is marked again while the pump sends it.
abbrev steps : List Step
steps =
    marks "units"
    ∷ wakes
    ∷ pumps
    ∷ takes
    ∷ marks "units"
    ∷ wakes
    ∷ sends
    ∷ receives
    ∷ pumps
    ∷ marks "units"
    ∷ []

marked_key_is_pending_example : is_pending "units" (run (λ ks. ks) steps subscribe) ≡ true
unfolding run step subscribe
marked_key_is_pending_example =
    marked_key_is_pending (λ ks. ks) steps "units" (λ k ks. refl) refl refl

abbrev up : EntryAnswers
up = record { gets = true; begins = true; commits = true; set = good }

-- ST_LOCK_ENV is set to false, the mode of the authentication differs from the stored one, and the
-- stored units are not the default.
abbrev cut_at_sign : String → Option (String × String)
cut_at_sign kv =
    if str_eq kv "ST_LOCK_ENV=0"
    then some ("ST_LOCK_ENV", "0")
    else if str_eq kv "ST_AUTH_MODE=token"
    then some ("ST_AUTH_MODE", "token")
    else if str_eq kv "ST_GENERAL_UNITS=kbps"
    then some ("ST_GENERAL_UNITS", "kbps")
    else none

abbrev setting_of : String → Option String
setting_of env =
    if str_eq env "ST_AUTH_MODE"
    then some "auth.mode"
    else if str_eq env "ST_GENERAL_UNITS"
    then some "units"
    else none

abbrev environ : List String
environ = "ST_AUTH_MODE=token" ∷ "ST_LOCK_ENV=0" ∷ "ST_GENERAL_UNITS=kbps" ∷ []

seeded_test :
    (seed_from_env cut_at_sign setting_of
      (λ v. some (str_eq v "1"))
      (λ es. es)
      (λ e. up)
      (λ key value. some value)
      (λ v. v)
      (λ key. "open")
      environ
      stored).0.rows
    ≡ ("auth.mode", "token") ∷ ("units", "Mbps") ∷ []
unfolding seed_from_env
seeded_test = refl
