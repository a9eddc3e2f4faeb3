-- ===== src/Settings/Noted.antt =====
-- The keys whose values a transaction of internal/settings/settings.go changes, and its list of them.
use speedtest_tracker.Base.{
  String, ◌≡◌, refl, sym, ap, ◌∙◌, Bool, true, false, Option, none, some, List, [], ◌∷◌, ◌++◌,
  str_eq, eq_iff, if◌then◌else◌, arith, ◌⊎◌, inl, inr, any, All, Bool-cases,
}
use speedtest_tracker.Settings.{
  Rows, lookup, upsert, SettingsError, Answers, Tx, old_value, set, set_all,
}

abbrev pub has : String → List String → Bool
has key = any (λ k. str_eq k key)

pub lookup-upsert :
    (key value k : String) (rows : Rows)
    → lookup k (upsert key value rows) ≡ (if str_eq key k then some value else lookup k rows)
unfolding lookup upsert
lookup-upsert key value k [] = refl
lookup-upsert key value k ((q, v) ∷ rows) = elim (Bool-cases (str_eq q key)) [
  | inl same ↦ let e = (eq_iff q key).0 same in rw (same, e) (ground arith)
  | inr other ↦ elim (Bool-cases (str_eq key k)) [
    | inl hit ↦
        let e = (eq_iff key k).0 hit in
        let h : str_eq q k ≡ false = ap (str_eq q) (sym e) ∙ other in
        rw (other, hit, h) (lookup-upsert key value k rows ∙ rw hit refl)
    | inr miss ↦
        rw (other, miss)
          (ap (λ x. if str_eq q k then some v else x)
            (lookup-upsert key value k rows ∙ rw miss refl))
  ]
]

has-append :
    (key : String) (ks : List String) (k : String)
    → has key (ks ++ k ∷ []) ≡ (if has key ks then true else str_eq k key)
has-append key [] k = ground arith
has-append key (q ∷ ks) k = ground (arith, has-append key ks k)

-- The text under a key, empty where there is none; no value has an empty encoding.
abbrev pub text_of : Option String → String
text_of none = ""
text_of (some v) = v

-- Every key whose text is no longer the first one is on the list.
abbrev pub IsNoted : Rows → Tx → Type 0
IsNoted before t =
    (k : String)
    → str_eq (text_of (lookup k before)) (text_of (lookup k t.rows)) ≡ false
    → has k t.changed ≡ true

changed_after : Answers → String → String → Tx → List String
changed_after a key value t =
    if str_eq (old_value a.reads (lookup key t.rows)) value
    then t.changed
    else t.changed ++ key ∷ []

str_eq-sym : (a b : String) → str_eq a b ≡ str_eq b a
str_eq-sym a b = elim (Bool-cases (str_eq a b)) [
  | inl same ↦ rw ((eq_iff a b).0 same) refl
  | inr other ↦ elim (Bool-cases (str_eq b a)) [
    | inl same ↦ rw ((eq_iff b a).0 same) refl
    | inr both ↦ other ∙ sym both
  ]
]

has-changed_after :
    (a : Answers) (key value k : String) (t : Tx)
    → has k t.changed ≡ true
    → has k (changed_after a key value t) ≡ true
unfolding changed_after
has-changed_after a key value k t h = let more = has-append k t.changed key in ground arith

-- A write of another text is noted, and one of the same text leaves the text as it was.
own-changed_after :
    (a : Answers) (key value k : String) (t : Tx)
    → str_eq value "" ≡ false
    → str_eq key k ≡ true
    → (has k (changed_after a key value t) ≡ true) ⊎ (text_of (lookup k t.rows) ≡ value)
unfolding changed_after old_value
own-changed_after a key value k t full same =
    elim (Bool-cases (str_eq (old_value a.reads (lookup key t.rows)) value)) [
      | inr other ↦ inl (rw other (has-append k t.changed key ∙ ground arith))
      | inl equal ↦ inr (
          found a.reads (lookup key t.rows) refl
            ((eq_iff (old_value a.reads (lookup key t.rows)) value).0 equal))
    ]
  where
    at_row : (o : Option String) → old_value true o ≡ value → text_of o ≡ value
    at_row none h = h
    at_row (some v) h = h

    found :
        (reads : Bool) (o : Option String)
        → lookup key t.rows ≡ o
        → old_value reads o ≡ value
        → text_of (lookup k t.rows) ≡ value
    found false o e h =
        let empty : str_eq value "" ≡ true = (eq_iff value "").1 (sym h) in ground arith
    found true o e h =
        ap (λ x. text_of (lookup x t.rows)) (sym ((eq_iff key k).0 same))
        ∙ ap text_of e
        ∙ at_row o h

put-IsNoted :
    (before : Rows) (a : Answers) (key value : String) (t : Tx)
    → str_eq value "" ≡ false
    → IsNoted before t
    → IsNoted before
        (record t { rows = upsert key value t.rows; changed = changed_after a key value t })
put-IsNoted before a key value t full v k changed = elim (Bool-cases (str_eq key k)) [
  | inr other ↦ has-changed_after a key value k t (v k (same_row other))
  | inl same ↦ elim (own-changed_after a key value k t full same) [
    | inl noted ↦ noted
    | inr kept ↦ has-changed_after a key value k t (v k (moved same kept))
  ]
]
  where
    same_row :
        str_eq key k ≡ false
        → str_eq (text_of (lookup k before)) (text_of (lookup k t.rows)) ≡ false
    same_row other =
        let now : lookup k (upsert key value t.rows) ≡ lookup k t.rows =
          lookup-upsert key value k t.rows ∙ rw other refl in
        ap (λ o. str_eq (text_of (lookup k before)) (text_of o)) (sym now) ∙ changed

    moved :
        str_eq key k ≡ true
        → text_of (lookup k t.rows) ≡ value
        → str_eq (text_of (lookup k before)) (text_of (lookup k t.rows)) ≡ false
    moved same kept =
        let now : lookup k (upsert key value t.rows) ≡ some value =
          lookup-upsert key value k t.rows ∙ rw same refl in
        ap (str_eq (text_of (lookup k before))) (kept ∙ sym (ap text_of now)) ∙ changed

set-IsNoted :
    (before : Rows) (a : Answers) (key value : String) (t : Tx)
    → str_eq value "" ≡ false
    → IsNoted before t
    → IsNoted before (set a key value t).0
unfolding set changed_after
set-IsNoted before a key value t full v = elim (Bool-cases t.done) [
  | inl done ↦ rw (set, done) v
  | inr open_tx ↦ elim (Bool-cases a.encodes) [
    | inr fails ↦ rw (set, open_tx, fails) v
    | inl encodes ↦ elim (Bool-cases a.writes) [
      | inr fails ↦ rw (set, open_tx, encodes, fails) v
      | inl writes ↦ rw (set, open_tx, encodes, writes) (put-IsNoted before a key value t full v)
    ]
  ]
]

pub set_all-IsNoted :
    (before : Rows) (writes : List (Answers × String × String)) (t : Tx)
    → All (λ (w : Answers × String × String). str_eq w.2 "" ≡ false) writes
    → IsNoted before t
    → IsNoted before (set_all writes t).0
unfolding set_all
set_all-IsNoted before [] t full v = v
set_all-IsNoted before ((a, key, value) ∷ more) t full v =
    let here = set-IsNoted before a key value t full.0 v in
    let rest = set_all-IsNoted before more (set a key value t).0 full.1 here in
    go (set a key value t).1 refl here rest
  where
    go :
        (e : Option SettingsError)
        → (set a key value t).1 ≡ e
        → IsNoted before (set a key value t).0
        → IsNoted before (set_all more (set a key value t).0).0
        → IsNoted before (set_all ((a, key, value) ∷ more) t).0
    go none h here rest = rw (set_all, h) rest
    go (some error) h here rest = rw (set_all, h) here
