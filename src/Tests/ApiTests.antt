-- ===== src/Tests/ApiTests.antt =====
-- A PUT of an authentication type, and a switch to the mode of the proxies.
use speedtest_tracker.Base.{
  ℕ, String, ◌≡◌, refl, true, false, Option, none, some, [], ◌∷◌, map, str_eq, ◌==◌, if◌then◌else◌,
}
use speedtest_tracker.Settings.{Answers, Settings, lookup}
use speedtest_tracker.Api.Bodies.{IntegrationsBody, SettingsBody}
use speedtest_tracker.Api.Writes.{Write}
use speedtest_tracker.Api.Put.{apply_settings}
use speedtest_tracker.Api.Secrets.{Channel, mask_channel, stored_channel, merge_channel_secrets}
use speedtest_tracker.Api.Echo.{echo_keeps_secrets}
use speedtest_tracker.Api.Kept.{apply_settings-locked}
use speedtest_tracker.Auth.Credentials.{Request}
use speedtest_tracker.Auth.Identify.{
  auth_mode_open, auth_mode_forward, AuthSettings, Config, missing, configure, identify,
}
use speedtest_tracker.Api.Lockout.{check_auth_lockout}
use speedtest_tracker.Api.Admitted.{is_identified, guard_admits}

abbrev no_integrations : IntegrationsBody
no_integrations = record {
  vm_enabled = none;
  vm_url = none;
  vm_auth_header = none;
  vm_auth_type = none;
  vm_auth_username = none;
  vm_auth_password = none;
  vm_auth_token = none;
  vm_auth_header_name = none;
  vm_auth_header_value = none;
  vm_extra_labels = none;
  vl_enabled = none;
  vl_url = none;
  vl_auth_header = none;
  vl_auth_type = none;
  vl_auth_username = none;
  vl_auth_password = none;
  vl_auth_token = none;
  vl_auth_header_name = none;
  vl_auth_header_value = none;
  vl_stream_fields = none;
  metrics_enabled = none;
}

abbrev new_type : SettingsBody
new_type = record {
  general = none;
  engines = none;
  integrations = some (record no_integrations { vm_auth_type = some "none" });
  notifications = none;
  auth = none;
}

abbrev stored : Settings
stored = record { rows = ("integrations.vm_url", "http://vm") ∷ []; notified = [] }

abbrev all_good : Write → Answers
all_good w = record { encodes = true; reads = true; writes = true }

apply_settings-locked_example :
    lookup "integrations.vm_url"
      (apply_settings
        (λ v. v)
        (str_eq "integrations.vm_url")
        (λ b. false)
        true
        true
        all_good
        new_type
        stored).0.rows
    ≡ lookup "integrations.vm_url" stored.rows
apply_settings-locked_example =
    apply_settings-locked (λ v. v) (str_eq "integrations.vm_url") (λ b. false) true true all_good
      new_type stored "integrations.vm_url" refl refl

-- Prefixes and peers are numbers here, and a prefix contains the peer of its number.
abbrev proxied : Request ℕ
proxied = record {
  peer = some 7;
  header = λ name. if str_eq name "Remote-User" then "ana" else "";
  session_cookie = "";
  path = "/api/v1/settings";
  query_token = "";
}

abbrev open_settings : AuthSettings
open_settings = record {
  mode = auth_mode_open;
  user_header = "Remote-User";
  groups_header = "";
  groups_separator = ",";
  admin_group = "";
  trusted_proxies = [];
  allow_tokens = false;
}

abbrev proxy_settings : AuthSettings
proxy_settings = record open_settings { mode = auth_mode_forward; trusted_proxies = "seven" ∷ [] }

abbrev no_config : Config ℕ
no_config = record {
  mode = auth_mode_open;
  user_header = "";
  groups_header = "";
  groups_sep = "";
  admin_group = "";
  trusted = [];
  allow_tokens = false;
}

guard_admits_example :
    is_identified (
      identify
        (λ p q. p == q)
        (λ t. missing)
        (λ t. missing)
        (configure (λ raw. some 7) proxy_settings no_config).0
        proxied)
    ≡ true
unfolding check_auth_lockout configure
guard_admits_example =
    guard_admits (λ raw. some 7) (λ p q. p == q) (some 1) (λ t. missing) (λ t. missing) (λ i. false)
      (record { is_admin = true; is_token = false })
      (record { issuer = ""; client_id = ""; client_secret = "" }) proxied open_settings
      proxy_settings no_config refl refl refl refl refl

-- Two URLs that are shown alike, and a header that is no secret.
abbrev channel : Channel
channel = record {
  id = "c1";
  kind = "apprise";
  name = "phone";
  enabled = true;
  url = "";
  token = "s3cret";
  headers = ("X-Key", "k") ∷ ("X-None", "") ∷ [];
  priority = "";
  tags = [];
  urls = "ntfy://host/a" ∷ "ntfy://host/b" ∷ [];
}

abbrev host_of : String → Option (String × String)
host_of url = some ("ntfy", "host")

echo_keeps_secrets_example :
    merge_channel_secrets host_of (map (mask_channel host_of) (channel ∷ [])) (channel ∷ [])
    ≡ some (channel ∷ [])
unfolding stored_channel lookup
echo_keeps_secrets_example =
    echo_keeps_secrets host_of (channel ∷ []) (channel ∷ [])
      ((refl, (refl, (refl, tt)), (refl, (refl, tt))), tt)
