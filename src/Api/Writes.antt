-- ===== src/Api/Writes.antt =====
-- What applySettings of internal/api/settings.go writes, in order.
use speedtest_tracker.Base.{String, Option, none, some, List, [], ◌∷◌, ◌++◌, str_eq, if◌then◌else◌}
use speedtest_tracker.Settings.Keys.{
  key_auth_admin_group, key_auth_allow_tokens, key_auth_groups_header, key_auth_groups_separator,
  key_auth_mode, key_auth_oidc_allowed_emails, key_auth_oidc_allowed_groups,
  key_auth_oidc_client_id, key_auth_oidc_client_secret, key_auth_oidc_display_claim,
  key_auth_oidc_groups_claim, key_auth_oidc_issuer, key_auth_oidc_redirect_base_url,
  key_auth_oidc_scopes, key_auth_session_ttl_hours, key_auth_trusted_proxies, key_auth_user_header,
  key_base_url, key_default_cloudflare_options, key_default_iperf3_options,
  key_default_ookla_options, key_iperf3_bin, key_iperf3_list_url, key_log_level,
  key_metrics_enabled, key_notify_channels, key_notify_cooldown_minutes,
  key_notify_default_thresholds, key_notify_enabled, key_notify_quiet_end, key_notify_quiet_start,
  key_notify_recovery, key_ookla_accept_gdpr, key_ookla_accept_license, key_retention_days_results,
  key_retention_days_runs, key_retention_prune_interval_minutes, key_server_list_ttl_seconds,
  key_sla_download_mbps, key_sla_tolerance_pct, key_sla_upload_mbps, key_speedtest_bin,
  key_timezone, key_units, key_vl_auth_header, key_vl_auth_header_name, key_vl_auth_header_value,
  key_vl_auth_password, key_vl_auth_token, key_vl_auth_type, key_vl_auth_username, key_vl_enabled,
  key_vl_stream_fields, key_vl_url, key_vm_auth_header, key_vm_auth_header_name,
  key_vm_auth_header_value, key_vm_auth_password, key_vm_auth_token, key_vm_auth_type,
  key_vm_auth_username, key_vm_enabled, key_vm_extra_labels, key_vm_url,
}
use speedtest_tracker.Api.Bodies.{
  GeneralBody, EnginesBody, IntegrationsBody, NotificationsBody, AuthBody, SettingsBody,
}

abbrev pub Write : Type 0
Write = String × String

-- setPtr
unfoldable pub set_ptr : String → Option String → List Write
set_ptr key none = []
set_ptr key (some v) = (key, v) ∷ []

abbrev masked_secret : String
masked_secret = "***"

-- setSecret; `encode` is json.Marshal on a string.
unfoldable pub set_secret : (String → String) → String → Option String → List Write
set_secret encode key none = []
set_secret encode key (some v) = if str_eq v masked_secret then [] else (key, encode v) ∷ []

-- A new authentication type clears the old header.
unfoldable pub clear_header : (String → String) → String → Option String → List Write
clear_header encode key none = []
clear_header encode key (some auth_type) = (key, encode "") ∷ []

-- A pointer that is written in any case.
unfoldable pub set_nullable : String → Option String → List Write
set_nullable key none = (key, "null") ∷ []
set_nullable key (some v) = (key, v) ∷ []

unfoldable pub general_writes : GeneralBody → List Write
unfolding set_ptr set_secret clear_header set_nullable
general_writes g =
    set_ptr key_base_url g.base_url
    ++ set_ptr key_timezone g.timezone
    ++ set_ptr key_units g.units
    ++ set_ptr key_log_level g.log_level
    ++ set_ptr key_retention_days_results g.retention_days_results
    ++ set_ptr key_retention_days_runs g.retention_days_runs
    ++ set_ptr key_retention_prune_interval_minutes g.retention_prune_interval_minutes
    ++ set_ptr key_sla_download_mbps g.sla_download_mbps
    ++ set_ptr key_sla_upload_mbps g.sla_upload_mbps
    ++ set_nullable key_sla_tolerance_pct g.sla_tolerance_pct

unfoldable pub engines_writes : EnginesBody → List Write
unfolding set_ptr set_secret clear_header set_nullable
engines_writes e =
    set_ptr key_speedtest_bin e.speedtest_bin
    ++ set_ptr key_iperf3_bin e.iperf3_bin
    ++ set_ptr key_ookla_accept_license e.ookla_accept_license
    ++ set_ptr key_ookla_accept_gdpr e.ookla_accept_gdpr
    ++ set_ptr key_server_list_ttl_seconds e.server_list_ttl_seconds
    ++ set_ptr key_default_ookla_options e.default_ookla_options
    ++ set_ptr key_default_cloudflare_options e.default_cloudflare_options
    ++ set_ptr key_default_iperf3_options e.default_iperf3_options
    ++ set_ptr key_iperf3_list_url e.iperf3_list_url

unfoldable pub integrations_writes : (String → String) → IntegrationsBody → List Write
unfolding set_ptr set_secret clear_header set_nullable
integrations_writes encode i =
    set_ptr key_vm_enabled i.vm_enabled
    ++ set_ptr key_vm_url i.vm_url
    ++ set_secret encode key_vm_auth_header i.vm_auth_header
    ++ set_ptr key_vm_auth_type i.vm_auth_type
    ++ clear_header encode key_vm_auth_header i.vm_auth_type
    ++ set_ptr key_vm_auth_username i.vm_auth_username
    ++ set_secret encode key_vm_auth_password i.vm_auth_password
    ++ set_secret encode key_vm_auth_token i.vm_auth_token
    ++ set_ptr key_vm_auth_header_name i.vm_auth_header_name
    ++ set_secret encode key_vm_auth_header_value i.vm_auth_header_value
    ++ set_ptr key_vm_extra_labels i.vm_extra_labels
    ++ set_ptr key_vl_enabled i.vl_enabled
    ++ set_ptr key_vl_url i.vl_url
    ++ set_secret encode key_vl_auth_header i.vl_auth_header
    ++ set_ptr key_vl_auth_type i.vl_auth_type
    ++ clear_header encode key_vl_auth_header i.vl_auth_type
    ++ set_ptr key_vl_auth_username i.vl_auth_username
    ++ set_secret encode key_vl_auth_password i.vl_auth_password
    ++ set_secret encode key_vl_auth_token i.vl_auth_token
    ++ set_ptr key_vl_auth_header_name i.vl_auth_header_name
    ++ set_secret encode key_vl_auth_header_value i.vl_auth_header_value
    ++ set_ptr key_vl_stream_fields i.vl_stream_fields
    ++ set_ptr key_metrics_enabled i.metrics_enabled

unfoldable pub notifications_writes : NotificationsBody → List Write
unfolding set_ptr set_secret clear_header set_nullable
notifications_writes n =
    set_ptr key_notify_enabled n.enabled
    ++ set_ptr key_notify_channels n.channels
    ++ set_ptr key_notify_default_thresholds n.default_thresholds
    ++ set_ptr key_notify_cooldown_minutes n.cooldown_minutes
    ++ set_ptr key_notify_quiet_start n.quiet_hours_start
    ++ set_ptr key_notify_quiet_end n.quiet_hours_end
    ++ set_ptr key_notify_recovery n.notify_recovery

unfoldable pub auth_writes : (String → String) → AuthBody → List Write
unfolding set_ptr set_secret clear_header set_nullable
auth_writes encode a =
    set_ptr key_auth_mode a.mode
    ++ set_ptr key_auth_user_header a.user_header
    ++ set_ptr key_auth_groups_header a.groups_header
    ++ set_ptr key_auth_groups_separator a.groups_separator
    ++ set_ptr key_auth_trusted_proxies a.trusted_proxies
    ++ set_ptr key_auth_admin_group a.admin_group
    ++ set_ptr key_auth_allow_tokens a.allow_tokens
    ++ set_ptr key_auth_oidc_issuer a.oidc_issuer
    ++ set_ptr key_auth_oidc_client_id a.oidc_client_id
    ++ set_secret encode key_auth_oidc_client_secret a.oidc_client_secret
    ++ set_ptr key_auth_oidc_redirect_base_url a.oidc_redirect_base_url
    ++ set_ptr key_auth_oidc_scopes a.oidc_scopes
    ++ set_ptr key_auth_oidc_groups_claim a.oidc_groups_claim
    ++ set_ptr key_auth_oidc_allowed_groups a.oidc_allowed_groups
    ++ set_ptr key_auth_oidc_allowed_emails a.oidc_allowed_emails
    ++ set_ptr key_auth_oidc_display_claim a.oidc_display_claim
    ++ set_ptr key_auth_session_ttl_hours a.session_ttl_hours

abbrev pub section {ℓ} : {A : Type ℓ} → (A → List Write) → Option A → List Write
section f none = []
section f (some body) = f body

-- Every write, with the channels of the notifications already merged.
unfoldable pub writes : (String → String) → SettingsBody → List Write
unfolding general_writes engines_writes integrations_writes notifications_writes auth_writes
writes encode body =
    section general_writes body.general
    ++ section engines_writes body.engines
    ++ section (integrations_writes encode) body.integrations
    ++ section notifications_writes body.notifications
    ++ section (auth_writes encode) body.auth
