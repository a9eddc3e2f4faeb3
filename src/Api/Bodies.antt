-- ===== src/Api/Bodies.antt =====
-- The partial documents of a PUT in internal/api/settings.go: none is a field that is left out. A
-- field holds its JSON text, and a field that may be masked its plain text.
use speedtest_tracker.Base.{String, Option}

pub record GeneralBody : Type 0 where
  pub base_url : Option String
  pub timezone : Option String
  pub units : Option String
  pub log_level : Option String
  pub retention_days_results : Option String
  pub retention_days_runs : Option String
  pub retention_prune_interval_minutes : Option String
  pub sla_download_mbps : Option String
  pub sla_upload_mbps : Option String
  pub sla_tolerance_pct : Option String

pub record EnginesBody : Type 0 where
  pub speedtest_bin : Option String
  pub iperf3_bin : Option String
  pub ookla_accept_license : Option String
  pub ookla_accept_gdpr : Option String
  pub server_list_ttl_seconds : Option String
  pub default_ookla_options : Option String
  pub default_cloudflare_options : Option String
  pub default_iperf3_options : Option String
  pub iperf3_list_url : Option String

pub record IntegrationsBody : Type 0 where
  pub vm_enabled : Option String
  pub vm_url : Option String
  pub vm_auth_header : Option String
  pub vm_auth_type : Option String
  pub vm_auth_username : Option String
  pub vm_auth_password : Option String
  pub vm_auth_token : Option String
  pub vm_auth_header_name : Option String
  pub vm_auth_header_value : Option String
  pub vm_extra_labels : Option String
  pub vl_enabled : Option String
  pub vl_url : Option String
  pub vl_auth_header : Option String
  pub vl_auth_type : Option String
  pub vl_auth_username : Option String
  pub vl_auth_password : Option String
  pub vl_auth_token : Option String
  pub vl_auth_header_name : Option String
  pub vl_auth_header_value : Option String
  pub vl_stream_fields : Option String
  pub metrics_enabled : Option String

pub record NotificationsBody : Type 0 where
  pub enabled : Option String
  pub channels : Option String
  pub default_thresholds : Option String
  pub cooldown_minutes : Option String
  pub quiet_hours_start : Option String
  pub quiet_hours_end : Option String
  pub notify_recovery : Option String

pub record AuthBody : Type 0 where
  pub mode : Option String
  pub user_header : Option String
  pub groups_header : Option String
  pub groups_separator : Option String
  pub trusted_proxies : Option String
  pub admin_group : Option String
  pub allow_tokens : Option String
  pub oidc_issuer : Option String
  pub oidc_client_id : Option String
  pub oidc_client_secret : Option String
  pub oidc_redirect_base_url : Option String
  pub oidc_scopes : Option String
  pub oidc_groups_claim : Option String
  pub oidc_allowed_groups : Option String
  pub oidc_allowed_emails : Option String
  pub oidc_display_claim : Option String
  pub session_ttl_hours : Option String

pub record SettingsBody : Type 0 where
  pub general : Option GeneralBody
  pub engines : Option EnginesBody
  pub integrations : Option IntegrationsBody
  pub notifications : Option NotificationsBody
  pub auth : Option AuthBody
