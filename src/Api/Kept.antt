-- ===== src/Api/Kept.antt =====
-- A key that the environment has locked, and the PUT of internal/api/settings.go.
use speedtest_tracker.Base.{
  String, ◌≡◌, refl, sym, ap, ◌∙◌, Bool, true, false, ◌||◌, Option, none, some, List, [], ◌∷◌, ◌++◌,
  map, str_eq, eq_iff, select, arith, ◌⊎◌, inl, inr, Bool-cases,
}
use speedtest_tracker.Settings.{lookup, SettingsError, Answers, Settings, save}
use speedtest_tracker.Settings.Noted.{has}
use speedtest_tracker.Settings.Atomic.{written, save-rows}
use speedtest_tracker.Api.Bodies.{IntegrationsBody, SettingsBody}
use speedtest_tracker.Api.Writes.{
  Write, general_writes, engines_writes, integrations_writes, notifications_writes, auth_writes,
  writes,
}
use speedtest_tracker.Api.Writes.{section as section_writes}
use speedtest_tracker.Api.Keys.{
  general_keys, engines_keys, integrations_keys, notifications_keys, auth_keys, set_keys,
  locked_keys_in,
}
use speedtest_tracker.Api.Keys.{section as section_keys}
use speedtest_tracker.Api.Put.{with_answers, saved, after_locks, apply_settings}
use speedtest_tracker.Api.Fields.{AreIn, both}
use speedtest_tracker.Api.Locks.{
  is_cleared, general-In, engines-In, integrations-In, notifications-In, auth-In,
}

section-In :
    {A : Type 0} (other : String → Bool) (keys : A → List String) (values : A → List Write)
    → ((a : A) → AreIn other (keys a) (values a))
    → (o : Option A) → AreIn other (section_keys keys o) (section_writes values o)
section-In other keys values inside none = tt
section-In other keys values inside (some a) = inside a

writes-In :
    (encode : String → String) (body : SettingsBody)
    → AreIn (is_cleared body) (set_keys body) (writes encode body)
unfolding set_keys writes
writes-In encode body =
    both other (gk ++ ek ++ ik ++ nk) ak (gw ++ ew ++ iw ++ nw) aw
      (both other (gk ++ ek ++ ik) nk (gw ++ ew ++ iw) nw
        (both other (gk ++ ek) ik (gw ++ ew) iw
          (both other gk ek gw ew
            (section-In other general_keys general_writes (general-In other) body.general)
            (section-In other engines_keys engines_writes (engines-In other) body.engines))
          (cleared body.integrations refl))
        (section-In other notifications_keys notifications_writes (notifications-In other)
          body.notifications))
      (section-In other auth_keys (auth_writes encode) (auth-In other encode) body.auth)
  where
    other : String → Bool
    other = is_cleared body

    gk : List String
    gk = section_keys general_keys body.general

    ek : List String
    ek = section_keys engines_keys body.engines

    ik : List String
    ik = section_keys integrations_keys body.integrations

    nk : List String
    nk = section_keys notifications_keys body.notifications

    ak : List String
    ak = section_keys auth_keys body.auth

    gw : List Write
    gw = section_writes general_writes body.general

    ew : List Write
    ew = section_writes engines_writes body.engines

    iw : List Write
    iw = section_writes (integrations_writes encode) body.integrations

    nw : List Write
    nw = section_writes notifications_writes body.notifications

    aw : List Write
    aw = section_writes (auth_writes encode) body.auth

    cleared : (o : Option IntegrationsBody) → body.integrations ≡ o → AreIn other ik iw
    cleared none e = rw e tt
    cleared (some i) e = rw e (integrations-In encode i)

locked_keys-miss :
    (is_locked : String → Bool) (k : String) (ks : List String)
    → select is_locked ks ≡ []
    → is_locked k ≡ true
    → has k ks ≡ false
locked_keys-miss is_locked k [] h locks = refl
locked_keys-miss is_locked k (q ∷ ks) h locks = elim (Bool-cases (str_eq q k)) [
  | inl same ↦
      let there : is_locked q ≡ true = ap is_locked ((eq_iff q k).0 same) ∙ locks in ground arith
  | inr other ↦ ground (arith, locked_keys-miss is_locked k ks)
]

written-miss :
    (answers : Write → Answers) (other : String → Bool) (ks : List String) (ws : List Write)
    (k : String) (old : Option String)
    → AreIn other ks ws
    → has k ks ≡ false
    → other k ≡ false
    → written (map (with_answers answers) ws) k old ≡ old
written-miss answers other ks [] k old v h o = refl
written-miss answers other ks (w ∷ ws) k old v h o =
    let rest = written-miss answers other ks ws k old v.1 h o in
    elim (Bool-cases (str_eq w.0 k)) [
      | inr miss ↦ rw (written, miss) rest
      | inl hit ↦
          let there : (has k ks || other k) ≡ true =
            ap (λ q. has q ks || other q) (sym ((eq_iff w.0 k).0 hit)) ∙ v.0 in
          ground arith
    ]

-- Whatever a PUT writes and however the database answers, the stored value of a key that the
-- environment has locked stays as it is, unless the key is that of the old authentication header
-- of an exporter whose authentication type the PUT gives.
pub apply_settings-locked :
    (encode : String → String) (is_locked : String → Bool) (refuses : SettingsBody → Bool)
    (begins commits : Bool) (answers : Write → Answers) (body : SettingsBody) (s : Settings)
    (k : String)
    → is_locked k ≡ true
    → is_cleared body k ≡ false
    → lookup k (apply_settings encode is_locked refuses begins commits answers body s).0.rows
      ≡ lookup k s.rows
unfolding apply_settings after_locks locked_keys_in saved
apply_settings-locked encode is_locked refuses begins commits answers body s k locks kept =
    go (locked_keys_in is_locked body) refl
  where
    ws : List (Answers × String × String)
    ws = map (with_answers answers) (writes encode body)

    saved-rows : (x : Settings × Option SettingsError) → (saved x).0 ≡ x.0
    saved-rows (x, none) = refl
    saved-rows (x, some e) = refl

    stored :
        ((q : String) → lookup q (save begins commits ws s).0.rows ≡ written ws q (lookup q s.rows))
          ⊎ ((save begins commits ws s).0 ≡ s)
        → written ws k (lookup k s.rows) ≡ lookup k s.rows
        → lookup k (save begins commits ws s).0.rows ≡ lookup k s.rows
    stored (inl all) same = all k ∙ same
    stored (inr none_of_them) same = ap (λ x. lookup k x.rows) none_of_them

    go :
        (keys : List String)
        → locked_keys_in is_locked body ≡ keys
        → lookup k (after_locks encode refuses begins commits answers keys body s).0.rows
          ≡ lookup k s.rows
    go (q ∷ qs) h = refl
    go [] h = elim (Bool-cases (refuses body)) [
      | inl bad ↦ rw (after_locks, bad) refl
      | inr fine ↦
          rw (after_locks, fine)
            (ap (λ x. lookup k x.rows) (saved-rows (save begins commits ws s))
              ∙ stored (save-rows begins commits ws s) (
                  written-miss answers (is_cleared body) (set_keys body) (writes encode body) k
                    (lookup k s.rows) (writes-In encode body)
                    (locked_keys-miss is_locked k (set_keys body) h locks) kept))
    ]
