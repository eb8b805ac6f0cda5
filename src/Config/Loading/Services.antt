-- ===== src/Config/Loading/Services.antt =====
-- Sections of the INI file, as `AppConfig.load` of policyd_py/config/settings.py reads them: those of what the engine works with.
use policyd_py.Base.{codes, pure, ◌>>=◌}
use policyd_py.Notifier.{TelegramConfig, DiscordConfig, EmailConfig}
use policyd_py.Script.{ScriptConfig}
use policyd_py.Management.Api.{WebConfig}
use policyd_py.Config.Sections.{LdapConfig, LoggingConfig, ExternalActionConfig, WebhookConfig}
use policyd_py.Config.Reading.{
  Reading, Reader, get_text, get_int, get_boolean, get_headers, get_names,
}

unfoldable pub load_ldap : Reader → LdapConfig → Reading (LdapConfig)
unfolding get_boolean get_int get_text
load_ldap r cfg = do
  host ← get_text (codes "host") cfg.host
  port ← get_int r (codes "port") cfg.port
  use_ssl ← get_boolean (codes "use_ssl") cfg.use_ssl
  bind_dn ← get_text (codes "bind_dn") cfg.bind_dn
  bind_password ← get_text (codes "bind_password") cfg.bind_password
  base_dn ← get_text (codes "base_dn") cfg.base_dn
  search_filter ← get_text (codes "search_filter") cfg.search_filter
  domain_attribute ← get_text (codes "domain_attribute") cfg.domain_attribute
  timeout ← get_int r (codes "timeout") cfg.timeout
  refresh_interval ← get_int r (codes "refresh_interval") cfg.refresh_interval
  pure (record {
    host = host;
    port = port;
    use_ssl = use_ssl;
    bind_dn = bind_dn;
    bind_password = bind_password;
    base_dn = base_dn;
    search_filter = search_filter;
    domain_attribute = domain_attribute;
    timeout = timeout;
    refresh_interval = refresh_interval;
  })

unfoldable pub load_logging : LoggingConfig → Reading (LoggingConfig)
unfolding get_text
load_logging cfg = do
  log_file ← get_text (codes "log_file") cfg.log_file
  level ← get_text (codes "level") cfg.level
  pure (record { log_file = log_file; level = level })

unfoldable pub load_telegram : TelegramConfig → Reading (TelegramConfig)
unfolding get_boolean get_text
load_telegram cfg = do
  enable ← get_boolean (codes "enable") cfg.enable
  bot_token ← get_text (codes "bot_token") cfg.bot_token
  chat_id ← get_text (codes "chat_id") cfg.chat_id
  pure (record { enable = enable; bot_token = bot_token; chat_id = chat_id })

unfoldable pub load_discord : DiscordConfig → Reading (DiscordConfig)
unfolding get_boolean get_text
load_discord cfg = do
  enable ← get_boolean (codes "enable") cfg.enable
  bot_token ← get_text (codes "bot_token") cfg.bot_token
  channel_id ← get_text (codes "channel_id") cfg.channel_id
  message_template ← get_text (codes "message_template") cfg.message_template
  pure (record {
    enable = enable;
    bot_token = bot_token;
    channel_id = channel_id;
    message_template = message_template;
  })

unfoldable pub load_email : Reader → EmailConfig → Reading (EmailConfig)
unfolding get_boolean get_int get_names get_text
load_email r cfg = do
  enable ← get_boolean (codes "enable") cfg.enable
  smtp_host ← get_text (codes "smtp_host") cfg.smtp_host
  smtp_port ← get_int r (codes "smtp_port") cfg.smtp_port
  smtp_user ← get_text (codes "smtp_user") cfg.smtp_user
  smtp_password ← get_text (codes "smtp_password") cfg.smtp_password
  from_addr ← get_text (codes "from") cfg.from_addr
  from_display_name ← get_text (codes "from_display_name") cfg.from_display_name
  to ← get_names (codes "to") (codes "")
  subject ← get_text (codes "subject") cfg.subject
  template ← get_text (codes "template") cfg.template
  pure (record {
    enable = enable;
    smtp_host = smtp_host;
    smtp_port = smtp_port;
    smtp_user = smtp_user;
    smtp_password = smtp_password;
    from_addr = from_addr;
    from_display_name = from_display_name;
    to = to;
    subject = subject;
    template = template;
  })

unfoldable pub load_external_action : Reader → ExternalActionConfig → Reading (ExternalActionConfig)
unfolding get_boolean get_int get_names get_text
load_external_action r cfg = do
  enable ← get_boolean (codes "enable") cfg.enable
  provider ← get_text (codes "provider") cfg.provider
  fallback_providers ← get_names (codes "fallback_providers") (codes "")
  continue_on_error ← get_boolean (codes "continue_on_error") cfg.continue_on_error
  async_execution ← get_boolean (codes "async_execution") cfg.async_execution
  async_queue_size ← get_int r (codes "async_queue_size") cfg.async_queue_size
  async_workers ← get_int r (codes "async_workers") cfg.async_workers
  pure (record {
    enable = enable;
    provider = provider;
    fallback_providers = fallback_providers;
    continue_on_error = continue_on_error;
    async_execution = async_execution;
    async_queue_size = async_queue_size;
    async_workers = async_workers;
  })

unfoldable pub load_webhook : Reader → WebhookConfig → Reading (WebhookConfig)
unfolding get_boolean get_headers get_int get_text
load_webhook r cfg = do
  lock_url ← get_text (codes "lock_url") cfg.lock_url
  unlock_url ← get_text (codes "unlock_url") cfg.unlock_url
  status_url ← get_text (codes "status_url") cfg.status_url
  lock_method ← get_text (codes "lock_method") cfg.lock_method
  unlock_method ← get_text (codes "unlock_method") cfg.unlock_method
  status_method ← get_text (codes "status_method") cfg.status_method
  lock_body ← get_text (codes "lock_body") cfg.lock_body
  unlock_body ← get_text (codes "unlock_body") cfg.unlock_body
  status_field ← get_text (codes "status_field") cfg.status_field
  auth_type ← get_text (codes "auth_type") cfg.auth_type
  auth_token ← get_text (codes "auth_token") cfg.auth_token
  auth_user ← get_text (codes "auth_user") cfg.auth_user
  auth_pass ← get_text (codes "auth_pass") cfg.auth_pass
  headers ← get_headers (codes "headers")
  sign_requests ← get_boolean (codes "sign_requests") cfg.sign_requests
  sign_secret ← get_text (codes "sign_secret") cfg.sign_secret
  sign_header ← get_text (codes "sign_header") cfg.sign_header
  timeout_seconds ← get_int r (codes "timeout_seconds") cfg.timeout_seconds
  retry_count ← get_int r (codes "retry_count") cfg.retry_count
  retry_delay_seconds ← get_int r (codes "retry_delay_seconds") cfg.retry_delay_seconds
  pure (record {
    lock_url = lock_url;
    unlock_url = unlock_url;
    status_url = status_url;
    lock_method = lock_method;
    unlock_method = unlock_method;
    status_method = status_method;
    lock_body = lock_body;
    unlock_body = unlock_body;
    status_field = status_field;
    auth_type = auth_type;
    auth_token = auth_token;
    auth_user = auth_user;
    auth_pass = auth_pass;
    headers = headers;
    sign_requests = sign_requests;
    sign_secret = sign_secret;
    sign_header = sign_header;
    timeout_seconds = timeout_seconds;
    retry_count = retry_count;
    retry_delay_seconds = retry_delay_seconds;
  })

unfoldable pub load_script : Reader → ScriptConfig → Reading (ScriptConfig)
unfolding get_int get_text
load_script r cfg = do
  lock_command ← get_text (codes "lock_command") cfg.lock_command
  unlock_command ← get_text (codes "unlock_command") cfg.unlock_command
  status_command ← get_text (codes "status_command") cfg.status_command
  notify_command ← get_text (codes "notify_command") cfg.notify_command
  timeout_seconds ← get_int r (codes "timeout_seconds") cfg.timeout_seconds
  pure (record {
    lock_command = lock_command;
    unlock_command = unlock_command;
    status_command = status_command;
    notify_command = notify_command;
    timeout_seconds = timeout_seconds;
  })

unfoldable pub load_web : Reader → WebConfig → Reading (WebConfig)
unfolding get_boolean get_int get_names get_text
load_web r cfg = do
  enable ← get_boolean (codes "enable") cfg.enable
  host ← get_text (codes "host") cfg.host
  port ← get_int r (codes "port") cfg.port
  username ← get_text (codes "username") cfg.username
  password ← get_text (codes "password") cfg.password
  bearer_token ← get_text (codes "bearer_token") cfg.bearer_token
  cors_enabled ← get_boolean (codes "cors_enabled") cfg.cors_enabled
  cors_origins ← get_names (codes "cors_origins") (codes "*")
  pure (record {
    enable = enable;
    host = host;
    port = port;
    username = username;
    password = password;
    bearer_token = bearer_token;
    cors_enabled = cors_enabled;
    cors_origins = cors_origins;
  })
