-- ===== src/Api/Keys.antt =====
-- lockedKeysIn and setKeys of internal/api/settings.go.
use speedtest_tracker.Base.{String, Bool, Option, none, some, List, [], ◌∷◌, ◌++◌, select}
use speedtest_tracker.Settings.Keys.{
  key_auth_admin_group, key_auth_allow_tokens, key_auth_groups_header, key_auth_groups_separator,
  key_auth_mode, key_auth_oidc_allowed_emails, key_auth_oidc_allowed_groups,
  key_auth_oidc_client_id, key_auth_oidc_client_secret, key_auth_oidc_display_claim,
  key_auth_oidc_groups_claim, key_auth_oidc_issuer, key_auth_oidc_redirect_base_url,
  key_auth_oidc_scopes, key_auth_session_ttl_hours, key_auth_trusted_proxies, key_auth_user_header,
  key_base_url, key_default_cloudflare_options, key_default_iperf3_options,
  key_default_ookla_options, key_iperf3_bin, key_iperf3_list_url, key_log_level,
  key_metrics_enabled, key_notify_channels, key_notify_cooldown_minutes,
  key_notify_default_thresholds, key_notify_enabled, key_notify_quiet_end, key_notify_quiet_start,
  key_notify_recovery, key_ookla_accept_gdpr, key_ookla_accept_license, key_retention_days_results,
  key_retention_days_runs, key_retention_prune_interval_minutes, key_server_list_ttl_seconds,
  key_sla_download_mbps, key_sla_tolerance_pct, key_sla_upload_mbps, key_speedtest_bin,
  key_timezone, key_units, key_vl_auth_header, key_vl_auth_header_name, key_vl_auth_header_value,
  key_vl_auth_password, key_vl_auth_token, key_vl_auth_type, key_vl_auth_username, key_vl_enabled,
  key_vl_stream_fields, key_vl_url, key_vm_auth_header, key_vm_auth_header_name,
  key_vm_auth_header_value, key_vm_auth_password, key_vm_auth_token, key_vm_auth_type,
  key_vm_auth_username, key_vm_enabled, key_vm_extra_labels, key_vm_url,
}
use speedtest_tracker.Api.Bodies.{
  GeneralBody, EnginesBody, IntegrationsBody, NotificationsBody, AuthBody, SettingsBody,
}

unfoldable pub given : String → Option String → List String
given key none = []
given key (some v) = key ∷ []

unfoldable pub general_keys : GeneralBody → List String
unfolding given
general_keys g =
    given key_base_url g.base_url
    ++ given key_timezone g.timezone
    ++ given key_units g.units
    ++ given key_log_level g.log_level
    ++ given key_retention_days_results g.retention_days_results
    ++ given key_retention_days_runs g.retention_days_runs
    ++ given key_retention_prune_interval_minutes g.retention_prune_interval_minutes
    ++ given key_sla_download_mbps g.sla_download_mbps
    ++ given key_sla_upload_mbps g.sla_upload_mbps
    ++ key_sla_tolerance_pct ∷ []

unfoldable pub engines_keys : EnginesBody → List String
unfolding given
engines_keys e =
    given key_speedtest_bin e.speedtest_bin
    ++ given key_iperf3_bin e.iperf3_bin
    ++ given key_ookla_accept_license e.ookla_accept_license
    ++ given key_ookla_accept_gdpr e.ookla_accept_gdpr
    ++ given key_server_list_ttl_seconds e.server_list_ttl_seconds
    ++ given key_default_ookla_options e.default_ookla_options
    ++ given key_default_cloudflare_options e.default_cloudflare_options
    ++ given key_default_iperf3_options e.default_iperf3_options
    ++ given key_iperf3_list_url e.iperf3_list_url

unfoldable pub integrations_keys : IntegrationsBody → List String
unfolding given
integrations_keys i =
    given key_vm_enabled i.vm_enabled
    ++ given key_vm_url i.vm_url
    ++ given key_vm_auth_header i.vm_auth_header
    ++ given key_vm_auth_type i.vm_auth_type
    ++ given key_vm_auth_username i.vm_auth_username
    ++ given key_vm_auth_password i.vm_auth_password
    ++ given key_vm_auth_token i.vm_auth_token
    ++ given key_vm_auth_header_name i.vm_auth_header_name
    ++ given key_vm_auth_header_value i.vm_auth_header_value
    ++ given key_vm_extra_labels i.vm_extra_labels
    ++ given key_vl_enabled i.vl_enabled
    ++ given key_vl_url i.vl_url
    ++ given key_vl_auth_header i.vl_auth_header
    ++ given key_vl_auth_type i.vl_auth_type
    ++ given key_vl_auth_username i.vl_auth_username
    ++ given key_vl_auth_password i.vl_auth_password
    ++ given key_vl_auth_token i.vl_auth_token
    ++ given key_vl_auth_header_name i.vl_auth_header_name
    ++ given key_vl_auth_header_value i.vl_auth_header_value
    ++ given key_vl_stream_fields i.vl_stream_fields
    ++ given key_metrics_enabled i.metrics_enabled

unfoldable pub notifications_keys : NotificationsBody → List String
unfolding given
notifications_keys n =
    given key_notify_enabled n.enabled
    ++ given key_notify_channels n.channels
    ++ given key_notify_default_thresholds n.default_thresholds
    ++ given key_notify_cooldown_minutes n.cooldown_minutes
    ++ given key_notify_quiet_start n.quiet_hours_start
    ++ given key_notify_quiet_end n.quiet_hours_end
    ++ given key_notify_recovery n.notify_recovery

unfoldable pub auth_keys : AuthBody → List String
unfolding given
auth_keys a =
    given key_auth_mode a.mode
    ++ given key_auth_user_header a.user_header
    ++ given key_auth_groups_header a.groups_header
    ++ given key_auth_groups_separator a.groups_separator
    ++ given key_auth_trusted_proxies a.trusted_proxies
    ++ given key_auth_admin_group a.admin_group
    ++ given key_auth_allow_tokens a.allow_tokens
    ++ given key_auth_oidc_issuer a.oidc_issuer
    ++ given key_auth_oidc_client_id a.oidc_client_id
    ++ given key_auth_oidc_client_secret a.oidc_client_secret
    ++ given key_auth_oidc_redirect_base_url a.oidc_redirect_base_url
    ++ given key_auth_oidc_scopes a.oidc_scopes
    ++ given key_auth_oidc_groups_claim a.oidc_groups_claim
    ++ given key_auth_oidc_allowed_groups a.oidc_allowed_groups
    ++ given key_auth_oidc_allowed_emails a.oidc_allowed_emails
    ++ given key_auth_oidc_display_claim a.oidc_display_claim
    ++ given key_auth_session_ttl_hours a.session_ttl_hours

abbrev pub section {ℓ} : {A : Type ℓ} → (A → List String) → Option A → List String
section f none = []
section f (some body) = f body

-- setKeys
unfoldable pub set_keys : SettingsBody → List String
unfolding general_keys engines_keys integrations_keys notifications_keys auth_keys
set_keys body =
    section general_keys body.general
    ++ section engines_keys body.engines
    ++ section integrations_keys body.integrations
    ++ section notifications_keys body.notifications
    ++ section auth_keys body.auth

-- lockedKeysIn, with IsLocked.
unfoldable pub locked_keys_in : (String → Bool) → SettingsBody → List String
unfolding set_keys
locked_keys_in is_locked body = select is_locked (set_keys body)
