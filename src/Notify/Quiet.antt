-- ===== src/Notify/Quiet.antt =====
-- quietNow of internal/notify/notifier.go. The minutes since midnight in the notifier's timezone,
-- and time.ParseInLocation with its refusals, are arguments.
use Prim.Native.Nat.{◌<◌}
use speedtest_tracker.Base.{
  ℕ, ◌+◌, ◌-◌, ◌%◌, String, ◌≡◌, ap, Bool, true, false, ◌&&◌, ◌||◌, Option, none, some, inl, inr,
  arith, ltb, leb, str_eq, eq_iff, if◌then◌else◌, Bool-cases,
}

in_window : ℕ → Option ℕ → Option ℕ → Bool
in_window mins none e = false
in_window mins (some s) none = false
in_window mins (some s) (some e) =
    if ltb e s then leb s mins || ltb mins e else leb s mins && ltb mins e

unfoldable pub quiet_now : (String → Option ℕ) → ℕ → String → String → Bool
unfolding in_window
quiet_now parse mins start end =
    if (str_eq start "" || str_eq end "") || str_eq start end
    then false
    else in_window mins (parse start) (parse end)

module _ (parse : String → Option ℕ) (mins : ℕ) (start end : String) (s e : ℕ)
    (starts : parse start ≡ some s) (ends : parse end ≡ some e)
    (named : str_eq start "" || str_eq end "" ≡ false)
    (fits : (mins < 1440) × (s < 1440) × (e < 1440)) where
  equal_ends : str_eq start end ≡ true → s ≡ e
  equal_ends h = ground (arith, ap parse ((eq_iff start end).0 h))

  -- With both ends given and readable, quiet hours hold exactly while the time that has passed since
  -- the start, around the clock, is less than the length of the window, around the clock; so a
  -- window may wrap midnight, its end is excluded, and equal ends mean no quiet hours.
  pub quiet_now_lem :
      quiet_now parse mins start end ≡ ltb ((mins + 1440 - s) % 1440) ((e + 1440 - s) % 1440)
  unfolding quiet_now
  quiet_now_lem = elim (Bool-cases (str_eq start end)) [
    | inl h ↦ ground (arith, equal_ends h)
    | inr h ↦ ground arith
  ]
