-- ===== src/Settings.antt =====
-- The settings store of internal/settings: the table with its transactions, here, the subscribers
-- and the seeding from the environment, in the children. A value is its JSON text.
pub mod Keys
pub mod Noted
pub mod Atomic
pub mod Subscriber
pub mod Delivered
pub mod EnvKey
pub mod Env
pub mod Seeded
pub mod Startup
use speedtest_tracker.Base.{
  String, Bool, true, false, Option, none, some, List, [], ◌∷◌, ◌++◌, str_eq, if◌then◌else◌,
  is_some,
}

-- The table settings: a key with its value.
abbrev pub Rows : Type 0
Rows = List (String × String)

unfoldable pub lookup : String → Rows → Option String
lookup key [] = none
lookup key ((k, v) ∷ rows) = if str_eq k key then some v else lookup key rows

-- INSERT ... ON CONFLICT(key) DO UPDATE
unfoldable pub upsert : String → String → Rows → Rows
upsert key value [] = (key, value) ∷ []
upsert key value ((k, v) ∷ rows) =
    if str_eq k key then (k, value) ∷ rows else (k, v) ∷ upsert key value rows

-- INSERT ... ON CONFLICT(key) DO NOTHING, of New.
unfoldable pub seed : Rows → Rows → Rows
unfolding lookup
seed [] rows = rows
seed ((key, value) ∷ defaults) rows =
    seed defaults (if is_some (lookup key rows) then rows else rows ++ (key, value) ∷ [])

pub data SettingsError : Type 0 where
  finished encode_failed write_failed begin_failed commit_failed read_failed decode_failed :
      SettingsError

-- What the database answers to one Set: whether the value can be encoded, whether the old value can
-- be read, whether the write succeeds.
pub record Answers : Type 0 where
  pub encodes : Bool
  pub reads : Bool
  pub writes : Bool

-- A transaction works on rows of its own until it commits.
pub record Tx : Type 0 where
  pub rows : Rows
  pub changed : List String
  pub done : Bool

-- Tables and, oldest first, the keys for which `notify` was called.
pub record Settings : Type 0 where
  pub rows : Rows
  pub notified : List String

unfoldable pub begin : Settings → Tx
begin s = record { rows = s.rows; changed = []; done = false }

-- `Scan(&old)` leaves the empty text where there is no row or the read fails.
unfoldable pub old_value : Bool → Option String → String
old_value false _ = ""
old_value true none = ""
old_value true (some v) = v

-- Tx.Set
unfoldable pub set : Answers → String → String → Tx → Tx × Option SettingsError
unfolding lookup upsert old_value
set answers key value t =
    if t.done
    then (t, some finished)
    else if answers.encodes
    then (if answers.writes
        then (
          record t {
            rows = upsert key value t.rows;
            changed =
                if str_eq (old_value answers.reads (lookup key t.rows)) value
                then t.changed
                else t.changed ++ key ∷ [];
          },
          none,
        )
        else (t, some write_failed))
    else (t, some encode_failed)

-- Tx.Commit; the flag says whether the database commits.
unfoldable pub commit : Bool → Tx → Settings → Tx × Settings × Option SettingsError
commit commits t s =
    if t.done
    then (t, s, some finished)
    else if commits
    then (
      record t { done = true },
      record { rows = t.rows; notified = s.notified ++ t.changed },
      none,
    )
    else (record t { done = true }, s, some commit_failed)

unfoldable pub rollback : Tx → Tx
rollback t = if t.done then t else record t { done = true }

-- One key after the other until one fails: Store.Set for one key, saveSettings of
-- internal/api/settings.go for several.
unfoldable pub set_all : List (Answers × String × String) → Tx → Tx × Option SettingsError
unfolding set
set_all [] t = (t, none)
set_all ((answers, key, value) ∷ more) t =
    let (t', e) = set answers key value t in
    let rest = set_all more t' in elim e [ none ↦ rest | some error ↦ (t', some error) ]

-- Commit where no set has failed; the deferred Rollback leaves the tables alone.
unfoldable pub conclude :
    Bool → Settings → Tx × Option SettingsError → Settings × Option SettingsError
unfolding commit
conclude commits s (t, some e) = (s, some e)
conclude commits s (t, none) = let (t', s', e) = commit commits t s in (s', e)

-- Begin, the sets and Commit; the flags are the answers to Begin and Commit.
unfoldable pub save :
    Bool → Bool → List (Answers × String × String) → Settings → Settings × Option SettingsError
unfolding begin set_all conclude
save begins commits writes s =
    if begins then conclude commits s (set_all writes (begin s)) else (s, some begin_failed)
