-- ===== src/Config/Defaults.antt =====
-- The defaults of the sections of policyd_py/config/settings.py.
use policyd_py.Base.{true, false, [], ◌∷◌, codes}
use policyd_py.Floats.{Floats}
use policyd_py.Config.{
  ActionsConfig, LocksConfig, PenaltyConfig, AdaptiveLimitConfig, ValidationConfig,
}
use policyd_py.Notifier.{TelegramConfig, DiscordConfig, EmailConfig}
use policyd_py.Script.{ScriptConfig}
use policyd_py.Management.Api.{WebConfig}
use policyd_py.Config.Sections.{
  GeneralConfig, KeyDbConfig, LdapConfig, LoggingConfig, ExternalActionConfig, WebhookConfig,
}

abbrev pub default_general : GeneralConfig
default_general = record {
  socket = codes "/var/run/gopolicyd.sock";
  socket_permission = 438;
  debug = false;
  worker_count = 200;
  client_read_timeout = 30;
  client_write_timeout = 30;
}

abbrev pub default_actions : ActionsConfig
default_actions = record {
  success_action = codes "DUNNO";
  fail_action = codes "DEFER";
  db_error_action = codes "DUNNO";
}

abbrev pub default_keydb : KeyDbConfig
default_keydb = record {
  hosts = codes "localhost:6379" ∷ [];
  password = [];
  db = 0;
  cluster_mode = false;
  connect_timeout = 5;
  read_timeout = 3;
  write_timeout = 3;
  max_connections = 50;
  socket_keepalive = true;
  retry_on_timeout = true;
  circuit_breaker_enable = true;
  circuit_breaker_failure_threshold = 5;
  circuit_breaker_recovery_timeout = 30;
  circuit_breaker_success_threshold = 2;
}

abbrev pub default_locks : LocksConfig
default_locks = record { lock_duration = 600; unlock_ttl_threshold = 11 }

abbrev pub default_penalty : PenaltyConfig
default_penalty = record { enable = false; ttl = 86400; steps = [] }

abbrev pub default_adaptive : (F : Floats) → AdaptiveLimitConfig F.Float
default_adaptive F = record {
  enable = false;
  authenticated_multiplier = F.one_float;
  unauthenticated_multiplier = F.one_float;
  local_sender_multiplier = F.one_float;
  external_sender_multiplier = F.one_float;
  trusted_multiplier = F.one_float;
  trusted_account_lists = [];
  trusted_domain_lists = [];
  trusted_ip_lists = [];
  minimum_multiplier = F.over F.one_float (F.of_ℕ 4);
  maximum_multiplier = F.of_ℕ 4;
}

abbrev pub default_ldap : LdapConfig
default_ldap = record {
  host = [];
  port = 389;
  use_ssl = false;
  bind_dn = [];
  bind_password = [];
  base_dn = [];
  search_filter = codes "(associatedDomain=*)";
  domain_attribute = codes "associatedDomain";
  timeout = 10;
  refresh_interval = 60;
}

abbrev pub default_logging : LoggingConfig
default_logging = record { log_file = []; level = codes "info" }

abbrev pub default_validation : ValidationConfig
default_validation = record {
  monitor_only = false;
  dns_timeout = 10;
  allow_smtputf8 = true;
  allow_quoted_local = false;
  allow_domain_literal = false;
  validate_sender_syntax = false;
  enable_blacklist = false;
  validate_recipient_syntax = false;
  validate_recipient_deliverability = false;
  validate_recipient = false;
  blacklist_auto_reload = true;
  blacklist_reload_interval = 300;
  sender_blacklist_file = [];
  recipient_blacklist_file = [];
  domain_blacklist_file = [];
}

abbrev pub default_telegram : TelegramConfig
default_telegram = record { enable = false; bot_token = []; chat_id = [] }

abbrev pub default_discord : DiscordConfig
default_discord = record {
  enable = false;
  bot_token = [];
  channel_id = [];
  message_template = codes "{message}";
}

abbrev pub default_email : EmailConfig
default_email = record {
  enable = false;
  smtp_host = [];
  smtp_port = 587;
  smtp_user = [];
  smtp_password = [];
  from_addr = [];
  from_display_name = [];
  to = [];
  subject = codes "Rate Limit Alert";
  template = codes "{message}";
}

abbrev pub default_external_action : ExternalActionConfig
default_external_action = record {
  enable = false;
  provider = [];
  fallback_providers = [];
  continue_on_error = false;
  async_execution = false;
  async_queue_size = 1000;
  async_workers = 10;
}

abbrev pub default_webhook : WebhookConfig
default_webhook = record {
  lock_url = [];
  unlock_url = [];
  status_url = [];
  lock_method = codes "POST";
  unlock_method = codes "POST";
  status_method = codes "GET";
  lock_body = [];
  unlock_body = [];
  status_field = [];
  auth_type = [];
  auth_token = [];
  auth_user = [];
  auth_pass = [];
  headers = [];
  sign_requests = false;
  sign_secret = [];
  sign_header = codes "X-Webhook-Signature";
  timeout_seconds = 10;
  retry_count = 3;
  retry_delay_seconds = 2;
}

abbrev pub default_script : ScriptConfig
default_script = record {
  lock_command = [];
  unlock_command = [];
  status_command = [];
  notify_command = [];
  timeout_seconds = 10;
}

abbrev pub default_web : WebConfig
default_web = record {
  enable = false;
  host = codes "127.0.0.1";
  port = 8080;
  username = codes "admin";
  password = [];
  bearer_token = [];
  cors_enabled = false;
  cors_origins = codes "*" ∷ [];
}
