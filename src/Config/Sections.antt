-- ===== src/Config/Sections.antt =====
-- The sections of policyd_py/config/settings.py that the engine does not read.
use policyd_py.Base.{ℕ, Bool, List, Text}
use policyd_py.Base.Dict.{Dict}

pub record GeneralConfig : Type 0 where
  pub socket : Text
  pub socket_permission : ℕ
  pub debug : Bool
  pub worker_count : ℕ
  pub client_read_timeout : ℕ
  pub client_write_timeout : ℕ

pub record KeyDbConfig : Type 0 where
  pub hosts : List Text
  pub password : Text
  pub db : ℕ
  pub cluster_mode : Bool
  pub connect_timeout : ℕ
  pub read_timeout : ℕ
  pub write_timeout : ℕ
  pub max_connections : ℕ
  pub socket_keepalive : Bool
  pub retry_on_timeout : Bool
  pub circuit_breaker_enable : Bool
  pub circuit_breaker_failure_threshold : ℕ
  pub circuit_breaker_recovery_timeout : ℕ
  pub circuit_breaker_success_threshold : ℕ

pub record LdapConfig : Type 0 where
  pub host : Text
  pub port : ℕ
  pub use_ssl : Bool
  pub bind_dn : Text
  pub bind_password : Text
  pub base_dn : Text
  pub search_filter : Text
  pub domain_attribute : Text
  pub timeout : ℕ
  pub refresh_interval : ℕ

pub record LoggingConfig : Type 0 where
  pub log_file : Text
  pub level : Text

pub record ExternalActionConfig : Type 0 where
  pub enable : Bool
  pub provider : Text
  pub fallback_providers : List Text
  pub continue_on_error : Bool
  pub async_execution : Bool
  pub async_queue_size : ℕ
  pub async_workers : ℕ

pub record WebhookConfig : Type 0 where
  pub lock_url : Text
  pub unlock_url : Text
  pub status_url : Text
  pub lock_method : Text
  pub unlock_method : Text
  pub status_method : Text
  pub lock_body : Text
  pub unlock_body : Text
  pub status_field : Text
  pub auth_type : Text
  pub auth_token : Text
  pub auth_user : Text
  pub auth_pass : Text
  pub headers : Dict Text
  pub sign_requests : Bool
  pub sign_secret : Text
  pub sign_header : Text
  pub timeout_seconds : ℕ
  pub retry_count : ℕ
  pub retry_delay_seconds : ℕ
