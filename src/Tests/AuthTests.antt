-- ===== src/Tests/AuthTests.antt =====
-- The authentication at a concrete configuration and request.
use speedtest_tracker.Base.{
  ◌+◌, ◌≤◌, length, ℕ, String, ◌≡◌, refl, true, false, Option, none, some, List, [], ◌∷◌, ◌==◌,
  str_eq, if◌then◌else◌,
}
use speedtest_tracker.Auth.Credentials.{Request, bearer_token, split, trim_space}
use speedtest_tracker.Auth.Identify.{
  AuthSettings, Config, auth_mode_forward, Lookup, missing, SessionInfo, identify, unauthorized,
}
use speedtest_tracker.Auth.Touch.{
  TouchEvent, uses, goes_on, works, no_touches, run_touches, times_of, IsMinuteApart, count, minute,
  touch_queue_cap, run_touches_lem,
}
use speedtest_tracker.Auth.Identify.Evidence.{IsBacked, identify-IsBacked}

abbrev behind_proxy : Config ℕ
behind_proxy = record {
  mode = auth_mode_forward;
  user_header = "Remote-User";
  groups_header = "Remote-Groups";
  groups_sep = "";
  admin_group = "admins";
  trusted = 10 ∷ [];
  allow_tokens = true;
}

abbrev headers : String → String
headers name =
    if str_eq name "Remote-User"
    then "ann"
    else if str_eq name "Remote-Groups"
    then "staff, admins"
    else ""

abbrev request : ℕ → Request ℕ
request peer = record {
  peer = some peer;
  header = headers;
  session_cookie = "";
  path = "/api/v1/runs";
  query_token = "";
}

abbrev no_tokens : String → Lookup ℕ
no_tokens token = missing

abbrev no_sessions : String → Lookup SessionInfo
no_sessions cookie = missing

stranger_test :
    identify (λ p a. p == a) no_tokens no_sessions behind_proxy (request 11) ≡ unauthorized
unfolding identify bearer_token
stranger_test = refl

split_test : split "staff, admins" "," ≡ "staff" ∷ " admins" ∷ []
unfolding split
split_test = refl

trim_test : trim_space " admins\t" ≡ "admins"
unfolding trim_space
trim_test = refl

identify-IsBacked_example :
    IsBacked
      (λ p a. p == a)
      no_tokens
      no_sessions
      behind_proxy
      (request 10)
      (identify (λ p a. p == a) no_tokens no_sessions behind_proxy (request 10))
identify-IsBacked_example =
    identify-IsBacked (λ p a. p == a) no_tokens no_sessions behind_proxy (request 10)

abbrev proxies : AuthSettings
proxies = record {
  mode = auth_mode_forward;
  user_header = "Remote-User";
  groups_header = "";
  groups_separator = "";
  admin_group = "";
  trusted_proxies = "10.0.0.0/8" ∷ [];
  allow_tokens = false;
}

abbrev read_prefix : String → Option ℕ
read_prefix raw = if str_eq raw "10.0.0.0/8" then some 10 else none

abbrev uses_of_token : List TouchEvent
uses_of_token =
    uses 1 100
    ∷ uses 1 (70 + minute)
    ∷ goes_on 1
    ∷ works false
    ∷ uses 2 131
    ∷ uses 1 (100 + minute)
    ∷ goes_on 1
    ∷ goes_on 2
    ∷ works true
    ∷ uses 3 140
    ∷ goes_on 3
    ∷ []

touches_test : (run_touches uses_of_token no_touches).queue ≡ 2 ∷ 3 ∷ []
unfolding run_touches no_touches
touches_test = refl

run_touches_lem_example :
    let t = run_touches uses_of_token no_touches in
    IsMinuteApart (times_of 1 t.due)
    × (length t.queue ≤ touch_queue_cap)
    × (count 1 t.sending
          + count 1 t.queue
          + count 1 t.written
          + count 1 t.failed
          + count 1 t.dropped
        ≡ length (times_of 1 t.due))
run_touches_lem_example = run_touches_lem uses_of_token 1
