-- ===== src/Config.antt =====
-- The settings of policyd_py/config/settings.py that the engine reads. Durations and counts
-- are numbers from 0 on; a negative setting is outside the model.
pub mod Parse
pub mod Quotas
pub mod Durations
pub mod WellFormed
pub mod Sections
pub mod Defaults
pub mod Reading
pub mod Loading
pub mod LoadedLimits
pub mod Loaded
use policyd_py.Base.{ℕ, Bool, List, Text, codes}
use policyd_py.Base.Dict.{Dict}

-- A rate limit, over a type of floating point numbers.
pub record RateLimit (Float : Type 0) : Type 0 where
  pub count : ℕ
  pub duration : ℕ
  pub refill_rate : Float
  pub algorithm : Text
  pub unlimited : Bool

abbrev pub token_bucket : Text
token_bucket = codes "token_bucket"

abbrev pub fixed_window : Text
fixed_window = codes "fixed_window"

abbrev pub sliding_window_counter : Text
sliding_window_counter = codes "sliding_window_counter"

pub record PolicyRule : Type 0 where
  pub name : Text
  pub sender : Text
  pub recipient : Text
  pub quota : Text

pub record ActionsConfig : Type 0 where
  pub success_action : Text
  pub fail_action : Text
  pub db_error_action : Text

pub record LocksConfig : Type 0 where
  pub lock_duration : ℕ
  pub unlock_ttl_threshold : ℕ

pub record ValidationConfig : Type 0 where
  pub monitor_only : Bool
  pub dns_timeout : ℕ
  pub allow_smtputf8 : Bool
  pub allow_quoted_local : Bool
  pub allow_domain_literal : Bool
  pub validate_sender_syntax : Bool
  pub enable_blacklist : Bool
  pub validate_recipient_syntax : Bool
  pub validate_recipient_deliverability : Bool
  pub validate_recipient : Bool
  pub blacklist_auto_reload : Bool
  pub blacklist_reload_interval : ℕ
  pub sender_blacklist_file : Text
  pub recipient_blacklist_file : Text
  pub domain_blacklist_file : Text

pub record PenaltyConfig : Type 0 where
  pub enable : Bool
  pub ttl : ℕ
  pub steps : List ℕ

pub record AdaptiveLimitConfig (Float : Type 0) : Type 0 where
  pub enable : Bool
  pub authenticated_multiplier : Float
  pub unauthenticated_multiplier : Float
  pub local_sender_multiplier : Float
  pub external_sender_multiplier : Float
  pub trusted_multiplier : Float
  pub trusted_account_lists : List Text
  pub trusted_domain_lists : List Text
  pub trusted_ip_lists : List Text
  pub minimum_multiplier : Float
  pub maximum_multiplier : Float

pub record LimitsConfig (Float : Type 0) : Type 0 where
  pub enable_policyd : Bool
  pub policy_check_state : Text
  pub ratelimit_use_lua : Bool
  pub default_quota : List (RateLimit Float)
  pub quotas : Dict (List (RateLimit Float))
  pub policies : List PolicyRule
  pub domain_lists : Dict (List Text)
  pub account_lists : Dict (List Text)
  pub ip_lists : Dict (List Text)

pub record AppConfig (Float : Type 0) : Type 0 where
  pub actions : ActionsConfig
  pub locks : LocksConfig
  pub penalty : PenaltyConfig
  pub adaptive : AdaptiveLimitConfig Float
  pub validation : ValidationConfig
  pub limits : LimitsConfig Float
