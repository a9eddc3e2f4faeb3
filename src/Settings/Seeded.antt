-- ===== src/Settings/Seeded.antt =====
-- Which of the environment and the stored value wins in internal/settings/env.go.
use speedtest_tracker.Base.{
  String, ◌≡◌, refl, sym, ap, ◌∙◌, Bool, true, false, not, ◌||◌, Option, none, some, List, [], ◌∷◌,
  ◌++◌, map, append-nil, append_assoc, str_eq, eq_iff, if◌then◌else◌, arith, inl, inr, All,
  Bool-cases,
}
use speedtest_tracker.Settings.{
  Rows, lookup, upsert, SettingsError, Settings, begin, set, commit, set_all, conclude, save,
}
use speedtest_tracker.Settings.Noted.{lookup-upsert}
use speedtest_tracker.Settings.Env.{
  Entry, EntryAnswers, decoded, is_set, auth_mode, put_entry, seed_entry, seed_entries,
}

-- The database does all that it is asked for.
abbrev pub IsUp : EntryAnswers → Type 0
IsUp a =
    (a.gets ≡ true)
    × (a.begins ≡ true)
    × (a.commits ≡ true)
    × (a.set.encodes ≡ true)
    × (a.set.writes ≡ true)

put_entry-rows :
    (lock_env : Bool) (a : EntryAnswers) (key value : String) (s : Settings) (locked : List String)
    → IsUp a
    → let (s', locked', error) = put_entry lock_env a key value (s, locked) in
      (s'.rows ≡ upsert key value s.rows)
      × (locked' ≡ (if lock_env then locked ++ key ∷ [] else locked))
      × (error ≡ none)
unfolding put_entry save begin set_all set conclude commit
put_entry-rows lock_env a key value s locked (gets, begins, commits, encodes, writes) =
    rw (begins, commits, encodes, writes) (refl, refl, refl)

module _ (decode : String → String → Option String) (quote : String → String)
    (default_of : String → String) (lock_env : Bool) where
  -- The value under an entry's key, given the one before, by the code's own tests.
  abbrev pub picked : Entry → Option String → Option String
  picked e stored =
      if (lock_env || str_eq e.key auth_mode) || not (is_set default_of e.key stored)
      then decoded decode quote e
      else stored

  abbrev pub picked_all : List (EntryAnswers × Entry) → String → Option String → Option String
  picked_all [] k stored = stored
  picked_all ((a, e) ∷ more) k stored =
      picked_all more k (if str_eq e.key k then picked e stored else stored)

  abbrev pub locked_keys : List (EntryAnswers × Entry) → List String
  locked_keys entries = if lock_env then map (λ (x : EntryAnswers × Entry). x.1.key) entries else []

  abbrev Seeds :
      List (EntryAnswers × Entry)
      → Settings × List String
      → Settings × List String × Option SettingsError
      → Type 0
  Seeds entries (s, locked) (s', locked', error) =
      ((k : String) → lookup k s'.rows ≡ picked_all entries k (lookup k s.rows))
      × (locked' ≡ locked ++ locked_keys entries)
      × (error ≡ none)

  same_key :
      (key k : String) (f : Option String → Option String) (rows : Rows)
      → (if str_eq key k then f (lookup key rows) else lookup k rows)
        ≡ (if str_eq key k then f (lookup k rows) else lookup k rows)
  same_key key k f rows = elim (Bool-cases (str_eq key k)) [
    | inr other ↦ rw other refl
    | inl same ↦ rw (same, (eq_iff key k).0 same) refl
  ]

  locked-one :
      (e : Entry) (a : EntryAnswers) (locked : List String)
      → (if lock_env then locked ++ e.key ∷ [] else locked) ≡ locked ++ locked_keys ((a, e) ∷ [])
  locked-one e a locked = let empty = append-nil locked in ground arith

  put-Seeds :
      (a : EntryAnswers) (e : Entry) (value : String) (s : Settings) (locked : List String)
      → IsUp a
      → picked e (lookup e.key s.rows) ≡ some value
      → Seeds ((a, e) ∷ []) (s, locked) (put_entry lock_env a e.key value (s, locked))
  put-Seeds a e value s locked up choice =
      let (rows, keys, fine) = put_entry-rows lock_env a e.key value s locked up in
      (
        λ k.
            ap (lookup k) rows
            ∙ lookup-upsert e.key value k s.rows
            ∙ ap (λ o. if str_eq e.key k then o else lookup k s.rows) (sym choice)
            ∙ same_key e.key k (picked e) s.rows,
        keys ∙ locked-one e a locked,
        fine,
      )

  entry-Seeds :
      (a : EntryAnswers) (e : Entry) (value : String) (s : Settings) (locked : List String)
      → IsUp a
      → decoded decode quote e ≡ some value
      → Seeds
          ((a, e) ∷ [])
          (s, locked)
          (seed_entry decode quote default_of lock_env a e (s, locked))
  unfolding seed_entry
  entry-Seeds a e value s locked up h = elim (Bool-cases (lock_env || str_eq e.key auth_mode)) [
    | inl forced ↦
        let turn : seed_entry decode quote default_of lock_env a e (s, locked)
            ≡ put_entry lock_env a e.key value (s, locked) =
          rw (seed_entry, h, forced) refl in
        rw turn (put-Seeds a e value s locked up (rw (forced, h) refl))
    | inr free ↦ elim (Bool-cases (is_set default_of e.key (lookup e.key s.rows))) [
      | inr unset ↦
          let turn : seed_entry decode quote default_of lock_env a e (s, locked)
              ≡ put_entry lock_env a e.key value (s, locked) =
            rw (seed_entry, h, free, up.0, unset) refl in
          rw turn (put-Seeds a e value s locked up (rw (free, unset, h) refl))
      | inl kept ↦
          let turn : seed_entry decode quote default_of lock_env a e (s, locked)
              ≡ (s, locked, none) =
            rw (seed_entry, h, free, up.0, kept) refl in
          let stays : picked e (lookup e.key s.rows) ≡ lookup e.key s.rows = rw (free, kept) refl in
          rw turn (λ k. unchanged k stays, unlocked free, refl)
    ]
  ]
    where
      unchanged :
          (k : String)
          → picked e (lookup e.key s.rows) ≡ lookup e.key s.rows
          → lookup k s.rows
            ≡ (if str_eq e.key k then picked e (lookup k s.rows) else lookup k s.rows)
      unchanged k stays = elim (Bool-cases (str_eq e.key k)) [
        | inr other ↦ rw other refl
        | inl same ↦
            let there : picked e (lookup k s.rows) ≡ lookup k s.rows =
              ap (λ q. picked e (lookup q s.rows)) (sym ((eq_iff e.key k).0 same))
              ∙ stays
              ∙ ap (λ q. lookup q s.rows) ((eq_iff e.key k).0 same) in
            rw same (sym there)
      ]

      unlocked :
          (lock_env || str_eq e.key auth_mode) ≡ false
          → locked ≡ locked ++ locked_keys ((a, e) ∷ [])
      unlocked free = let empty = append-nil locked in ground arith

  locked-cons :
      (a : EntryAnswers) (e : Entry) (more : List (EntryAnswers × Entry)) (locked : List String)
      → (locked ++ locked_keys ((a, e) ∷ [])) ++ locked_keys more
        ≡ locked ++ locked_keys ((a, e) ∷ more)
  locked-cons a e more locked =
      append_assoc locked (locked_keys ((a, e) ∷ [])) (locked_keys more)
      ∙ ap (◌++◌ locked) (go lock_env)
    where
      go :
          (b : Bool)
          → (if b then e.key ∷ [] else [])
              ++ (if b then map (λ (x : EntryAnswers × Entry). x.1.key) more else [])
            ≡ (if b then e.key ∷ map (λ (x : EntryAnswers × Entry). x.1.key) more else [])
      go true = refl
      go false = refl

  pub seed_entries_lem :
      (entries : List (EntryAnswers × Entry)) (s : Settings) (locked : List String)
      → All
          (λ (x : EntryAnswers × Entry).
            IsUp x.0 × ((value : String) × (decoded decode quote x.1 ≡ some value)))
          entries
      → let (s', locked', error) =
          seed_entries decode quote default_of lock_env entries (s, locked) in
        ((k : String) → lookup k s'.rows ≡ picked_all entries k (lookup k s.rows))
        × (locked' ≡ locked ++ locked_keys entries)
        × (error ≡ none)
  unfolding seed_entries
  seed_entries_lem [] s locked up = (λ k. refl, unlocked locked, refl)
    where
      unlocked : (l : List String) → l ≡ l ++ locked_keys []
      unlocked l = let empty = append-nil l in ground arith
  seed_entries_lem ((a, e) ∷ more) s locked ((up, (value, h)), ups) =
      let (rows, keys, fine) = entry-Seeds a e value s locked up h in
      let st = seed_entry decode quote default_of lock_env a e (s, locked) in
      let (rows', keys', fine') = seed_entries_lem more st.0 st.1 ups in
      rw (seed_entries, fine)
        (
          λ k. rows' k ∙ ap (picked_all more k) (rows k),
          keys' ∙ ap (λ l. l ++ locked_keys more) keys ∙ locked-cons a e more locked,
          fine',
        )
