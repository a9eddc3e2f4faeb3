-- ===== src/Api/Locks.antt =====
-- Which keys a PUT of internal/api/settings.go can write.
use speedtest_tracker.Base.{
  String, ◌≡◌, Bool, true, false, ◌&&◌, ◌||◌, Option, none, some, str_eq, is_some, arith,
}
use speedtest_tracker.Settings.Keys.{
  key_auth_admin_group, key_auth_allow_tokens, key_auth_groups_header, key_auth_groups_separator,
  key_auth_mode, key_auth_oidc_allowed_emails, key_auth_oidc_allowed_groups,
  key_auth_oidc_client_id, key_auth_oidc_client_secret, key_auth_oidc_display_claim,
  key_auth_oidc_groups_claim, key_auth_oidc_issuer, key_auth_oidc_redirect_base_url,
  key_auth_oidc_scopes, key_auth_session_ttl_hours, key_auth_trusted_proxies, key_auth_user_header,
  key_base_url, key_default_cloudflare_options, key_default_iperf3_options,
  key_default_ookla_options, key_iperf3_bin, key_iperf3_list_url, key_log_level,
  key_metrics_enabled, key_notify_channels, key_notify_cooldown_minutes,
  key_notify_default_thresholds, key_notify_enabled, key_notify_quiet_end, key_notify_quiet_start,
  key_notify_recovery, key_ookla_accept_gdpr, key_ookla_accept_license, key_retention_days_results,
  key_retention_days_runs, key_retention_prune_interval_minutes, key_server_list_ttl_seconds,
  key_sla_download_mbps, key_sla_tolerance_pct, key_sla_upload_mbps, key_speedtest_bin,
  key_timezone, key_units, key_vl_auth_header, key_vl_auth_header_name, key_vl_auth_header_value,
  key_vl_auth_password, key_vl_auth_token, key_vl_auth_type, key_vl_auth_username, key_vl_enabled,
  key_vl_stream_fields, key_vl_url, key_vm_auth_header, key_vm_auth_header_name,
  key_vm_auth_header_value, key_vm_auth_password, key_vm_auth_token, key_vm_auth_type,
  key_vm_auth_username, key_vm_enabled, key_vm_extra_labels, key_vm_url,
}
use speedtest_tracker.Api.Bodies.{
  GeneralBody, EnginesBody, IntegrationsBody, NotificationsBody, AuthBody, SettingsBody,
}
use speedtest_tracker.Api.Writes.{
  general_writes, engines_writes, integrations_writes, notifications_writes, auth_writes,
}
use speedtest_tracker.Api.Keys.{
  general_keys, engines_keys, integrations_keys, notifications_keys, auth_keys,
}
use speedtest_tracker.Api.Fields.{AreIn, ptr, secret, nullable, add_clear, ◌&◌}

-- The headers that a PUT of an authentication type clears.
abbrev pub clears : Option String → Option String → String → Bool
clears vm_auth_type vl_auth_type key =
    (is_some vm_auth_type && str_eq key_vm_auth_header key)
    || (is_some vl_auth_type && str_eq key_vl_auth_header key)

abbrev pub is_cleared : SettingsBody → String → Bool
is_cleared body key = elim body.integrations [
  | none ↦ false
  | some i ↦ clears i.vm_auth_type i.vl_auth_type key
]

clears_vm : (a b : Option String) → is_some a ≡ true → clears a b key_vm_auth_header ≡ true
clears_vm a b h = ground arith

clears_vl : (a b : Option String) → is_some b ≡ true → clears a b key_vl_auth_header ≡ true
clears_vl a b h = ground arith

pub general-In :
    (other : String → Bool) (g : GeneralBody) → AreIn other (general_keys g) (general_writes g)
unfolding general_keys general_writes ptr secret nullable add_clear ◌&◌
general-In other g =
    (◌&◌ other
      (◌&◌ other
        (◌&◌ other
          (◌&◌ other
            (◌&◌ other
              (◌&◌ other
                (◌&◌ other
                  (◌&◌ other
                    (◌&◌ other (ptr other key_base_url g.base_url)
                      (ptr other key_timezone g.timezone))
                    (ptr other key_units g.units))
                  (ptr other key_log_level g.log_level))
                (ptr other key_retention_days_results g.retention_days_results))
              (ptr other key_retention_days_runs g.retention_days_runs))
            (ptr other key_retention_prune_interval_minutes g.retention_prune_interval_minutes))
          (ptr other key_sla_download_mbps g.sla_download_mbps))
        (ptr other key_sla_upload_mbps g.sla_upload_mbps))
      (nullable other key_sla_tolerance_pct g.sla_tolerance_pct)).inside

pub engines-In :
    (other : String → Bool) (e : EnginesBody) → AreIn other (engines_keys e) (engines_writes e)
unfolding engines_keys engines_writes ptr secret nullable add_clear ◌&◌
engines-In other e =
    (◌&◌ other
      (◌&◌ other
        (◌&◌ other
          (◌&◌ other
            (◌&◌ other
              (◌&◌ other
                (◌&◌ other
                  (◌&◌ other (ptr other key_speedtest_bin e.speedtest_bin)
                    (ptr other key_iperf3_bin e.iperf3_bin))
                  (ptr other key_ookla_accept_license e.ookla_accept_license))
                (ptr other key_ookla_accept_gdpr e.ookla_accept_gdpr))
              (ptr other key_server_list_ttl_seconds e.server_list_ttl_seconds))
            (ptr other key_default_ookla_options e.default_ookla_options))
          (ptr other key_default_cloudflare_options e.default_cloudflare_options))
        (ptr other key_default_iperf3_options e.default_iperf3_options))
      (ptr other key_iperf3_list_url e.iperf3_list_url)).inside

pub integrations-In :
    (encode : String → String) (i : IntegrationsBody)
    → AreIn
        (clears i.vm_auth_type i.vl_auth_type)
        (integrations_keys i)
        (integrations_writes encode i)
unfolding integrations_keys integrations_writes ptr secret nullable add_clear ◌&◌
integrations-In encode i =
    (◌&◌ (clears i.vm_auth_type i.vl_auth_type)
      (◌&◌ (clears i.vm_auth_type i.vl_auth_type)
        (◌&◌ (clears i.vm_auth_type i.vl_auth_type)
          (◌&◌ (clears i.vm_auth_type i.vl_auth_type)
            (◌&◌ (clears i.vm_auth_type i.vl_auth_type)
              (◌&◌ (clears i.vm_auth_type i.vl_auth_type)
                (◌&◌ (clears i.vm_auth_type i.vl_auth_type)
                  (add_clear (clears i.vm_auth_type i.vl_auth_type)
                    (◌&◌ (clears i.vm_auth_type i.vl_auth_type)
                      (◌&◌ (clears i.vm_auth_type i.vl_auth_type)
                        (◌&◌ (clears i.vm_auth_type i.vl_auth_type)
                          (◌&◌ (clears i.vm_auth_type i.vl_auth_type)
                            (◌&◌ (clears i.vm_auth_type i.vl_auth_type)
                              (◌&◌ (clears i.vm_auth_type i.vl_auth_type)
                                (◌&◌ (clears i.vm_auth_type i.vl_auth_type)
                                  (◌&◌ (clears i.vm_auth_type i.vl_auth_type)
                                    (◌&◌ (clears i.vm_auth_type i.vl_auth_type)
                                      (◌&◌ (clears i.vm_auth_type i.vl_auth_type)
                                        (add_clear (clears i.vm_auth_type i.vl_auth_type)
                                          (◌&◌ (clears i.vm_auth_type i.vl_auth_type)
                                            (◌&◌ (clears i.vm_auth_type i.vl_auth_type)
                                              (◌&◌ (clears i.vm_auth_type i.vl_auth_type)
                                                (ptr (clears i.vm_auth_type i.vl_auth_type)
                                                  key_vm_enabled i.vm_enabled)
                                                (ptr (clears i.vm_auth_type i.vl_auth_type)
                                                  key_vm_url i.vm_url))
                                              (secret (clears i.vm_auth_type i.vl_auth_type) encode
                                                key_vm_auth_header i.vm_auth_header))
                                            (ptr (clears i.vm_auth_type i.vl_auth_type)
                                              key_vm_auth_type i.vm_auth_type))
                                          encode key_vm_auth_header i.vm_auth_type
                                          (clears_vm i.vm_auth_type i.vl_auth_type))
                                        (ptr (clears i.vm_auth_type i.vl_auth_type)
                                          key_vm_auth_username i.vm_auth_username))
                                      (secret (clears i.vm_auth_type i.vl_auth_type) encode
                                        key_vm_auth_password i.vm_auth_password))
                                    (secret (clears i.vm_auth_type i.vl_auth_type) encode
                                      key_vm_auth_token i.vm_auth_token))
                                  (ptr (clears i.vm_auth_type i.vl_auth_type)
                                    key_vm_auth_header_name i.vm_auth_header_name))
                                (secret (clears i.vm_auth_type i.vl_auth_type) encode
                                  key_vm_auth_header_value i.vm_auth_header_value))
                              (ptr (clears i.vm_auth_type i.vl_auth_type) key_vm_extra_labels
                                i.vm_extra_labels))
                            (ptr (clears i.vm_auth_type i.vl_auth_type) key_vl_enabled
                              i.vl_enabled))
                          (ptr (clears i.vm_auth_type i.vl_auth_type) key_vl_url i.vl_url))
                        (secret (clears i.vm_auth_type i.vl_auth_type) encode key_vl_auth_header
                          i.vl_auth_header))
                      (ptr (clears i.vm_auth_type i.vl_auth_type) key_vl_auth_type i.vl_auth_type))
                    encode key_vl_auth_header i.vl_auth_type
                    (clears_vl i.vm_auth_type i.vl_auth_type))
                  (ptr (clears i.vm_auth_type i.vl_auth_type) key_vl_auth_username
                    i.vl_auth_username))
                (secret (clears i.vm_auth_type i.vl_auth_type) encode key_vl_auth_password
                  i.vl_auth_password))
              (secret (clears i.vm_auth_type i.vl_auth_type) encode key_vl_auth_token
                i.vl_auth_token))
            (ptr (clears i.vm_auth_type i.vl_auth_type) key_vl_auth_header_name
              i.vl_auth_header_name))
          (secret (clears i.vm_auth_type i.vl_auth_type) encode key_vl_auth_header_value
            i.vl_auth_header_value))
        (ptr (clears i.vm_auth_type i.vl_auth_type) key_vl_stream_fields i.vl_stream_fields))
      (ptr (clears i.vm_auth_type i.vl_auth_type) key_metrics_enabled i.metrics_enabled)).inside

pub notifications-In :
    (other : String → Bool) (n : NotificationsBody)
    → AreIn other (notifications_keys n) (notifications_writes n)
unfolding notifications_keys notifications_writes ptr secret nullable add_clear ◌&◌
notifications-In other n =
    (◌&◌ other
      (◌&◌ other
        (◌&◌ other
          (◌&◌ other
            (◌&◌ other
              (◌&◌ other (ptr other key_notify_enabled n.enabled)
                (ptr other key_notify_channels n.channels))
              (ptr other key_notify_default_thresholds n.default_thresholds))
            (ptr other key_notify_cooldown_minutes n.cooldown_minutes))
          (ptr other key_notify_quiet_start n.quiet_hours_start))
        (ptr other key_notify_quiet_end n.quiet_hours_end))
      (ptr other key_notify_recovery n.notify_recovery)).inside

pub auth-In :
    (other : String → Bool) (encode : String → String) (a : AuthBody)
    → AreIn other (auth_keys a) (auth_writes encode a)
unfolding auth_keys auth_writes ptr secret nullable add_clear ◌&◌
auth-In other encode a =
    (◌&◌ other
      (◌&◌ other
        (◌&◌ other
          (◌&◌ other
            (◌&◌ other
              (◌&◌ other
                (◌&◌ other
                  (◌&◌ other
                    (◌&◌ other
                      (◌&◌ other
                        (◌&◌ other
                          (◌&◌ other
                            (◌&◌ other
                              (◌&◌ other
                                (◌&◌ other
                                  (◌&◌ other (ptr other key_auth_mode a.mode)
                                    (ptr other key_auth_user_header a.user_header))
                                  (ptr other key_auth_groups_header a.groups_header))
                                (ptr other key_auth_groups_separator a.groups_separator))
                              (ptr other key_auth_trusted_proxies a.trusted_proxies))
                            (ptr other key_auth_admin_group a.admin_group))
                          (ptr other key_auth_allow_tokens a.allow_tokens))
                        (ptr other key_auth_oidc_issuer a.oidc_issuer))
                      (ptr other key_auth_oidc_client_id a.oidc_client_id))
                    (secret other encode key_auth_oidc_client_secret a.oidc_client_secret))
                  (ptr other key_auth_oidc_redirect_base_url a.oidc_redirect_base_url))
                (ptr other key_auth_oidc_scopes a.oidc_scopes))
              (ptr other key_auth_oidc_groups_claim a.oidc_groups_claim))
            (ptr other key_auth_oidc_allowed_groups a.oidc_allowed_groups))
          (ptr other key_auth_oidc_allowed_emails a.oidc_allowed_emails))
        (ptr other key_auth_oidc_display_claim a.oidc_display_claim))
      (ptr other key_auth_session_ttl_hours a.session_ttl_hours)).inside
