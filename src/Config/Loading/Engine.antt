-- ===== src/Config/Loading/Engine.antt =====
-- Sections of the INI file, as `AppConfig.load` of policyd_py/config/settings.py reads them: those of the engine and of Redis.
use policyd_py.Base.{codes, pure, ◌>>=◌}
use policyd_py.Floats.{Floats}
use policyd_py.Config.{
  ActionsConfig, LocksConfig, PenaltyConfig, AdaptiveLimitConfig, ValidationConfig,
}
use policyd_py.Config.Sections.{GeneralConfig, KeyDbConfig}
use policyd_py.Config.Reading.{
  Reading, Reader, get_text, get_int, get_octal, get_boolean, get_float, get_duration,
  get_durations, get_names,
}

unfoldable pub load_general : Reader → GeneralConfig → Reading (GeneralConfig)
unfolding get_boolean get_int get_octal get_text
load_general r cfg = do
  socket ← get_text (codes "socket") cfg.socket
  socket_permission ← get_octal r (codes "socket_permission") cfg.socket_permission
  debug ← get_boolean (codes "debug") cfg.debug
  worker_count ← get_int r (codes "worker_count") cfg.worker_count
  client_read_timeout ← get_int r (codes "client_read_timeout") cfg.client_read_timeout
  client_write_timeout ← get_int r (codes "client_write_timeout") cfg.client_write_timeout
  pure (record {
    socket = socket;
    socket_permission = socket_permission;
    debug = debug;
    worker_count = worker_count;
    client_read_timeout = client_read_timeout;
    client_write_timeout = client_write_timeout;
  })

unfoldable pub load_actions : ActionsConfig → Reading (ActionsConfig)
unfolding get_text
load_actions cfg = do
  success_action ← get_text (codes "success_action") cfg.success_action
  fail_action ← get_text (codes "fail_action") cfg.fail_action
  db_error_action ← get_text (codes "db_error_action") cfg.db_error_action
  pure (record {
    success_action = success_action;
    fail_action = fail_action;
    db_error_action = db_error_action;
  })

unfoldable pub load_keydb : Reader → KeyDbConfig → Reading (KeyDbConfig)
unfolding get_boolean get_int get_names get_text
load_keydb r cfg = do
  hosts ← get_names (codes "hosts") (codes "localhost:6379")
  password ← get_text (codes "password") cfg.password
  db ← get_int r (codes "db") cfg.db
  cluster_mode ← get_boolean (codes "cluster_mode") cfg.cluster_mode
  connect_timeout ← get_int r (codes "connect_timeout") cfg.connect_timeout
  read_timeout ← get_int r (codes "read_timeout") cfg.read_timeout
  write_timeout ← get_int r (codes "write_timeout") cfg.write_timeout
  max_connections ← get_int r (codes "max_connections") cfg.max_connections
  socket_keepalive ← get_boolean (codes "socket_keepalive") cfg.socket_keepalive
  retry_on_timeout ← get_boolean (codes "retry_on_timeout") cfg.retry_on_timeout
  circuit_breaker_enable ← get_boolean (codes "circuit_breaker_enable") cfg.circuit_breaker_enable
  circuit_breaker_failure_threshold ←
      get_int r (codes "circuit_breaker_failure_threshold") cfg.circuit_breaker_failure_threshold
  circuit_breaker_recovery_timeout ←
      get_int r (codes "circuit_breaker_recovery_timeout") cfg.circuit_breaker_recovery_timeout
  circuit_breaker_success_threshold ←
      get_int r (codes "circuit_breaker_success_threshold") cfg.circuit_breaker_success_threshold
  pure (record {
    hosts = hosts;
    password = password;
    db = db;
    cluster_mode = cluster_mode;
    connect_timeout = connect_timeout;
    read_timeout = read_timeout;
    write_timeout = write_timeout;
    max_connections = max_connections;
    socket_keepalive = socket_keepalive;
    retry_on_timeout = retry_on_timeout;
    circuit_breaker_enable = circuit_breaker_enable;
    circuit_breaker_failure_threshold = circuit_breaker_failure_threshold;
    circuit_breaker_recovery_timeout = circuit_breaker_recovery_timeout;
    circuit_breaker_success_threshold = circuit_breaker_success_threshold;
  })

unfoldable pub load_locks : Reader → LocksConfig → Reading (LocksConfig)
unfolding get_int
load_locks r cfg = do
  lock_duration ← get_int r (codes "lock_duration") cfg.lock_duration
  unlock_ttl_threshold ← get_int r (codes "unlock_ttl_threshold") cfg.unlock_ttl_threshold
  pure (record { lock_duration = lock_duration; unlock_ttl_threshold = unlock_ttl_threshold })

unfoldable pub load_penalty : PenaltyConfig → Reading (PenaltyConfig)
unfolding get_boolean get_duration get_durations
load_penalty cfg = do
  enable ← get_boolean (codes "enable") cfg.enable
  ttl ← get_duration (codes "ttl") cfg.ttl
  steps ← get_durations (codes "steps")
  pure (record { enable = enable; ttl = ttl; steps = steps })

unfoldable pub load_adaptive :
    (F : Floats) → AdaptiveLimitConfig F.Float → Reading (AdaptiveLimitConfig F.Float)
unfolding get_boolean get_float get_names
load_adaptive F cfg = do
  enable ← get_boolean (codes "enable") cfg.enable
  authenticated_multiplier ←
      get_float F (codes "authenticated_multiplier") cfg.authenticated_multiplier
  unauthenticated_multiplier ←
      get_float F (codes "unauthenticated_multiplier") cfg.unauthenticated_multiplier
  local_sender_multiplier ←
      get_float F (codes "local_sender_multiplier") cfg.local_sender_multiplier
  external_sender_multiplier ←
      get_float F (codes "external_sender_multiplier") cfg.external_sender_multiplier
  trusted_multiplier ← get_float F (codes "trusted_multiplier") cfg.trusted_multiplier
  trusted_account_lists ← get_names (codes "trusted_account_lists") (codes "")
  trusted_domain_lists ← get_names (codes "trusted_domain_lists") (codes "")
  trusted_ip_lists ← get_names (codes "trusted_ip_lists") (codes "")
  minimum_multiplier ← get_float F (codes "minimum_multiplier") cfg.minimum_multiplier
  maximum_multiplier ← get_float F (codes "maximum_multiplier") cfg.maximum_multiplier
  pure (record {
    enable = enable;
    authenticated_multiplier = authenticated_multiplier;
    unauthenticated_multiplier = unauthenticated_multiplier;
    local_sender_multiplier = local_sender_multiplier;
    external_sender_multiplier = external_sender_multiplier;
    trusted_multiplier = trusted_multiplier;
    trusted_account_lists = trusted_account_lists;
    trusted_domain_lists = trusted_domain_lists;
    trusted_ip_lists = trusted_ip_lists;
    minimum_multiplier = minimum_multiplier;
    maximum_multiplier = maximum_multiplier;
  })

unfoldable pub load_validation : Reader → ValidationConfig → Reading (ValidationConfig)
unfolding get_boolean get_int get_text
load_validation r cfg = do
  monitor_only ← get_boolean (codes "monitor_only") cfg.monitor_only
  dns_timeout ← get_int r (codes "dns_timeout") cfg.dns_timeout
  allow_smtputf8 ← get_boolean (codes "allow_smtputf8") cfg.allow_smtputf8
  allow_quoted_local ← get_boolean (codes "allow_quoted_local") cfg.allow_quoted_local
  allow_domain_literal ← get_boolean (codes "allow_domain_literal") cfg.allow_domain_literal
  validate_sender_syntax ← get_boolean (codes "validate_sender_syntax") cfg.validate_sender_syntax
  enable_blacklist ← get_boolean (codes "enable_blacklist") cfg.enable_blacklist
  validate_recipient_syntax ←
      get_boolean (codes "validate_recipient_syntax") cfg.validate_recipient_syntax
  validate_recipient_deliverability ←
      get_boolean (codes "validate_recipient_deliverability") cfg.validate_recipient_deliverability
  validate_recipient ← get_boolean (codes "validate_recipient") cfg.validate_recipient
  blacklist_auto_reload ← get_boolean (codes "blacklist_auto_reload") cfg.blacklist_auto_reload
  blacklist_reload_interval ←
      get_int r (codes "blacklist_reload_interval") cfg.blacklist_reload_interval
  sender_blacklist_file ← get_text (codes "sender_blacklist_file") cfg.sender_blacklist_file
  recipient_blacklist_file ←
      get_text (codes "recipient_blacklist_file") cfg.recipient_blacklist_file
  domain_blacklist_file ← get_text (codes "domain_blacklist_file") cfg.domain_blacklist_file
  pure (record {
    monitor_only = monitor_only;
    dns_timeout = dns_timeout;
    allow_smtputf8 = allow_smtputf8;
    allow_quoted_local = allow_quoted_local;
    allow_domain_literal = allow_domain_literal;
    validate_sender_syntax = validate_sender_syntax;
    enable_blacklist = enable_blacklist;
    validate_recipient_syntax = validate_recipient_syntax;
    validate_recipient_deliverability = validate_recipient_deliverability;
    validate_recipient = validate_recipient;
    blacklist_auto_reload = blacklist_auto_reload;
    blacklist_reload_interval = blacklist_reload_interval;
    sender_blacklist_file = sender_blacklist_file;
    recipient_blacklist_file = recipient_blacklist_file;
    domain_blacklist_file = domain_blacklist_file;
  })
