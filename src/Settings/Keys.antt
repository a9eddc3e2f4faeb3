-- ===== src/Settings/Keys.antt =====
-- The keys of internal/settings/settings.go.
use speedtest_tracker.Base.{String}

abbrev pub key_base_url : String
key_base_url = "general.base_url"

abbrev pub key_timezone : String
key_timezone = "general.timezone"

abbrev pub key_units : String
key_units = "general.units"

abbrev pub key_log_level : String
key_log_level = "general.log_level"

abbrev pub key_retention_days_results : String
key_retention_days_results = "general.retention_days_results"

abbrev pub key_retention_days_runs : String
key_retention_days_runs = "general.retention_days_runs"

abbrev pub key_retention_prune_interval_minutes : String
key_retention_prune_interval_minutes = "general.retention_prune_interval_minutes"

abbrev pub key_sla_download_mbps : String
key_sla_download_mbps = "general.sla_download_mbps"

abbrev pub key_sla_upload_mbps : String
key_sla_upload_mbps = "general.sla_upload_mbps"

abbrev pub key_sla_tolerance_pct : String
key_sla_tolerance_pct = "general.sla_tolerance_pct"

abbrev pub key_vm_enabled : String
key_vm_enabled = "integrations.vm_enabled"

abbrev pub key_vm_url : String
key_vm_url = "integrations.vm_url"

abbrev pub key_vm_auth_header : String
key_vm_auth_header = "integrations.vm_auth_header"

abbrev pub key_vm_auth_type : String
key_vm_auth_type = "integrations.vm_auth_type"

abbrev pub key_vm_auth_username : String
key_vm_auth_username = "integrations.vm_auth_username"

abbrev pub key_vm_auth_password : String
key_vm_auth_password = "integrations.vm_auth_password"

abbrev pub key_vm_auth_token : String
key_vm_auth_token = "integrations.vm_auth_token"

abbrev pub key_vm_auth_header_name : String
key_vm_auth_header_name = "integrations.vm_auth_header_name"

abbrev pub key_vm_auth_header_value : String
key_vm_auth_header_value = "integrations.vm_auth_header_value"

abbrev pub key_vm_extra_labels : String
key_vm_extra_labels = "integrations.vm_extra_labels"

abbrev pub key_vl_enabled : String
key_vl_enabled = "integrations.vl_enabled"

abbrev pub key_vl_url : String
key_vl_url = "integrations.vl_url"

abbrev pub key_vl_auth_header : String
key_vl_auth_header = "integrations.vl_auth_header"

abbrev pub key_vl_auth_type : String
key_vl_auth_type = "integrations.vl_auth_type"

abbrev pub key_vl_auth_username : String
key_vl_auth_username = "integrations.vl_auth_username"

abbrev pub key_vl_auth_password : String
key_vl_auth_password = "integrations.vl_auth_password"

abbrev pub key_vl_auth_token : String
key_vl_auth_token = "integrations.vl_auth_token"

abbrev pub key_vl_auth_header_name : String
key_vl_auth_header_name = "integrations.vl_auth_header_name"

abbrev pub key_vl_auth_header_value : String
key_vl_auth_header_value = "integrations.vl_auth_header_value"

abbrev pub key_vl_stream_fields : String
key_vl_stream_fields = "integrations.vl_stream_fields"

abbrev pub key_metrics_enabled : String
key_metrics_enabled = "integrations.metrics_enabled"

abbrev pub key_speedtest_bin : String
key_speedtest_bin = "engines.speedtest_bin"

abbrev pub key_iperf3_bin : String
key_iperf3_bin = "engines.iperf3_bin"

abbrev pub key_ookla_accept_license : String
key_ookla_accept_license = "engines.ookla_accept_license"

abbrev pub key_ookla_accept_gdpr : String
key_ookla_accept_gdpr = "engines.ookla_accept_gdpr"

abbrev pub key_server_list_ttl_seconds : String
key_server_list_ttl_seconds = "engines.server_list_ttl_seconds"

abbrev pub key_default_ookla_options : String
key_default_ookla_options = "engines.default_ookla_options"

abbrev pub key_default_cloudflare_options : String
key_default_cloudflare_options = "engines.default_cloudflare_options"

abbrev pub key_default_iperf3_options : String
key_default_iperf3_options = "engines.default_iperf3_options"

abbrev pub key_iperf3_list_url : String
key_iperf3_list_url = "engines.iperf3_list_url"

abbrev pub key_notify_enabled : String
key_notify_enabled = "notifications.enabled"

abbrev pub key_notify_channels : String
key_notify_channels = "notifications.channels"

abbrev pub key_notify_default_thresholds : String
key_notify_default_thresholds = "notifications.default_thresholds"

abbrev pub key_notify_cooldown_minutes : String
key_notify_cooldown_minutes = "notifications.cooldown_minutes"

abbrev pub key_notify_quiet_start : String
key_notify_quiet_start = "notifications.quiet_hours_start"

abbrev pub key_notify_quiet_end : String
key_notify_quiet_end = "notifications.quiet_hours_end"

abbrev pub key_notify_recovery : String
key_notify_recovery = "notifications.notify_recovery"

abbrev pub key_auth_mode : String
key_auth_mode = "auth.mode"

abbrev pub key_auth_user_header : String
key_auth_user_header = "auth.user_header"

abbrev pub key_auth_groups_header : String
key_auth_groups_header = "auth.groups_header"

abbrev pub key_auth_groups_separator : String
key_auth_groups_separator = "auth.groups_separator"

abbrev pub key_auth_trusted_proxies : String
key_auth_trusted_proxies = "auth.trusted_proxies"

abbrev pub key_auth_admin_group : String
key_auth_admin_group = "auth.admin_group"

abbrev pub key_auth_allow_tokens : String
key_auth_allow_tokens = "auth.allow_tokens"

abbrev pub key_auth_oidc_issuer : String
key_auth_oidc_issuer = "auth.oidc_issuer"

abbrev pub key_auth_oidc_client_id : String
key_auth_oidc_client_id = "auth.oidc_client_id"

abbrev pub key_auth_oidc_client_secret : String
key_auth_oidc_client_secret = "auth.oidc_client_secret"

abbrev pub key_auth_oidc_redirect_base_url : String
key_auth_oidc_redirect_base_url = "auth.oidc_redirect_base_url"

abbrev pub key_auth_oidc_scopes : String
key_auth_oidc_scopes = "auth.oidc_scopes"

abbrev pub key_auth_oidc_groups_claim : String
key_auth_oidc_groups_claim = "auth.oidc_groups_claim"

abbrev pub key_auth_oidc_allowed_groups : String
key_auth_oidc_allowed_groups = "auth.oidc_allowed_groups"

abbrev pub key_auth_oidc_allowed_emails : String
key_auth_oidc_allowed_emails = "auth.oidc_allowed_emails"

abbrev pub key_auth_oidc_display_claim : String
key_auth_oidc_display_claim = "auth.oidc_display_claim"

abbrev pub key_auth_session_ttl_hours : String
key_auth_session_ttl_hours = "auth.session_ttl_hours"
