-- ===== src/Settings/Atomic.antt =====
-- Transactions of internal/settings/settings.go: all or nothing, and who is told.
use speedtest_tracker.Base.{
  String, ◌≡◌, refl, ap, ◌∙◌, Bool, true, false, ◌||◌, Option, none, some, List, [], ◌∷◌, ◌++◌,
  str_eq, eq_iff, if◌then◌else◌, arith, ◌⊎◌, inl, inr, All, Bool-cases,
}
use speedtest_tracker.Settings.{
  lookup, SettingsError, Answers, Tx, Settings, begin, set, commit, begin_failed, commit_failed,
  set_all, conclude, save,
}
use speedtest_tracker.Settings.Noted.{has, lookup-upsert, text_of, IsNoted, set_all-IsNoted}

-- The value of a key after some writes.
abbrev pub written : List (Answers × String × String) → String → Option String → Option String
written [] k old = old
written ((a, key, value) ∷ more) k old = written more k (if str_eq key k then some value else old)

abbrev Stores : List (Answers × String × String) → Tx → Tx → Type 0
Stores writes before after =
    (after.done ≡ before.done)
    × ((k : String) → lookup k after.rows ≡ written writes k (lookup k before.rows))

set-Stores :
    (a : Answers) (key value : String) (t : Tx)
    → (set a key value t).1 ≡ none
    → Stores ((a, key, value) ∷ []) t (set a key value t).0
unfolding set
set-Stores a key value t h = elim (Bool-cases t.done) [
  | inl done ↦ ground arith
  | inr open_tx ↦ elim (Bool-cases a.encodes) [
    | inr fails ↦ ground arith
    | inl encodes ↦ elim (Bool-cases a.writes) [
      | inr fails ↦ ground arith
      | inl writes ↦
          rw (set, open_tx, encodes, writes) (refl, λ k. lookup-upsert key value k t.rows)
    ]
  ]
]

set_all-Stores :
    (writes : List (Answers × String × String)) (t : Tx)
    → (set_all writes t).1 ≡ none
    → Stores writes t (set_all writes t).0
unfolding set_all
set_all-Stores [] t h = (refl, λ k. refl)
set_all-Stores ((a, key, value) ∷ more) t h =
    go (set a key value t).1 refl h (set_all-Stores more (set a key value t).0)
  where
    go :
        (e : Option SettingsError)
        → (set a key value t).1 ≡ e
        → (set_all ((a, key, value) ∷ more) t).1 ≡ none
        → ((set_all more (set a key value t).0).1 ≡ none
            → Stores more (set a key value t).0 (set_all more (set a key value t).0).0)
        → Stores ((a, key, value) ∷ more) t (set_all ((a, key, value) ∷ more) t).0
    go (some error) e h later = let h' : some error ≡ none = rw (set_all, e) at h in ground arith
    go none e h later =
        let here = set-Stores a key value t e in
        let h' : (set_all more (set a key value t).0).1 ≡ none = rw (set_all, e) at h in
        let rest = later h' in
        rw (set_all, e) (rest.0 ∙ here.0, λ k. rest.1 k ∙ ap (written more k) (here.1 k))

abbrev pub SaveResult : Bool → Bool → List (Answers × String × String) → Settings → Type 0
SaveResult begins commits writes s =
    let (after, error) = save begins commits writes s in
    ((error ≡ none)
      × ((k : String) → lookup k after.rows ≡ written writes k (lookup k s.rows))
      × (told : List String) × (after.notified ≡ s.notified ++ told)
      × ((k : String)
          → (str_eq (text_of (lookup k s.rows)) (text_of (lookup k after.rows)) || has k told)
            ≡ true))
    ⊎ ((e : SettingsError) × (save begins commits writes s ≡ (s, some e)))

-- If no value is encoded as the empty text, then a `save` that reports no error has stored every
-- value, the last one of each key, left the other keys alone, and notified every key whose text is
-- not what it was; a `save` that reports an error has changed and notified nothing.
pub save-IsAtomic :
    (begins commits : Bool) (writes : List (Answers × String × String)) (s : Settings)
    → All (λ (w : Answers × String × String). str_eq w.2 "" ≡ false) writes
    → SaveResult begins commits writes s
unfolding save begin conclude commit
save-IsAtomic false commits writes s full = inr (begin_failed, refl)
save-IsAtomic true commits writes s full = go (set_all writes (begin s)).1 refl
  where
    t : Tx
    t = (set_all writes (begin s)).0

    stores : (set_all writes (begin s)).1 ≡ none → Stores writes (begin s) t
    stores h = set_all-Stores writes (begin s) h

    start : IsNoted s.rows (begin s)
    start k h =
        let same = (eq_iff (text_of (lookup k s.rows)) (text_of (lookup k s.rows))).1 refl in
        ground arith

    noted : IsNoted s.rows t
    noted = set_all-IsNoted s.rows writes (begin s) full start

    told :
        (k : String)
        → (str_eq (text_of (lookup k s.rows)) (text_of (lookup k t.rows)) ≡ true)
          ⊎ (str_eq (text_of (lookup k s.rows)) (text_of (lookup k t.rows)) ≡ false)
        → (str_eq (text_of (lookup k s.rows)) (text_of (lookup k t.rows)) || has k t.changed) ≡ true
    told k (inl same) = rw same refl
    told k (inr changed) = rw changed (noted k changed)

    saved :
        (e : Option SettingsError)
        → (set_all writes (begin s)).1 ≡ e
        → save true commits writes s ≡ conclude commits s (t, e)
    saved e h = λ i. conclude commits s (t, h i)

    go :
        (e : Option SettingsError)
        → (set_all writes (begin s)).1 ≡ e
        → SaveResult true commits writes s
    go (some e) h = inr (e, saved (some e) h)
    go none h =
        let open_tx = (stores h).0 in
        elim (Bool-cases commits) [
          | inr fails ↦
              inr (commit_failed, saved none h ∙ rw (conclude, commit, open_tx, fails) refl)
          | inl works ↦ inl (
              rw (saved none h, conclude, commit, open_tx, works)
                (
                  refl,
                  (stores h).1,
                  t.changed,
                  refl,
                  λ k.
                      told k (
                        Bool-cases
                          (str_eq (text_of (lookup k s.rows)) (text_of (lookup k t.rows)))),
                ))
        ]

-- A save stores all of its values or none.
pub save-rows :
    (begins commits : Bool) (writes : List (Answers × String × String)) (s : Settings)
    → ((k : String)
        → lookup k (save begins commits writes s).0.rows ≡ written writes k (lookup k s.rows))
      ⊎ ((save begins commits writes s).0 ≡ s)
unfolding save begin conclude commit
save-rows false commits writes s = inr refl
save-rows true commits writes s = go (set_all writes (begin s)).1 refl
  where
    t : Tx
    t = (set_all writes (begin s)).0

    saved :
        (e : Option SettingsError)
        → (set_all writes (begin s)).1 ≡ e
        → save true commits writes s ≡ conclude commits s (t, e)
    saved e h = λ i. conclude commits s (t, h i)

    go :
        (e : Option SettingsError)
        → (set_all writes (begin s)).1 ≡ e
        → ((k : String)
            → lookup k (save true commits writes s).0.rows ≡ written writes k (lookup k s.rows))
          ⊎ ((save true commits writes s).0 ≡ s)
    go (some e) h = inr (ap (λ x. x.0) (saved (some e) h))
    go none h =
        let (open_tx, rows) = set_all-Stores writes (begin s) h in
        elim (Bool-cases commits) [
          | inr fails ↦ inr (rw (saved none h, conclude, commit, open_tx, fails) refl)
          | inl works ↦ inl (rw (saved none h, conclude, commit, open_tx, works) rows)
        ]
