-- ===== src/Config/Loading.antt =====
-- `AppConfig.load` and `_parse_limits` of policyd_py/config/settings.py: the sections of the INI file, which are
-- what `configparser` makes of it, one after the other.
pub mod Engine
pub mod Services
use policyd_py.Base.{
  ℕ, Bool, true, Option, none, some, List, [], ◌∷◌, ◌++◌, Text, codes, Outcome, returned, raised,
  Eff, pure, ◌>>=◌,
}
use policyd_py.Base.Dict.{Dict, get, put}
use policyd_py.Floats.{Floats}
use policyd_py.Config.{
  AppConfig, LimitsConfig, RateLimit, PolicyRule, ActionsConfig, LocksConfig, PenaltyConfig,
  AdaptiveLimitConfig, ValidationConfig,
}
use policyd_py.Config.Parse.{◌then◌, parse_list_value, parse_policy}
use policyd_py.Config.Quotas.{parse_rate_limits}
use policyd_py.Config.Reading.{Reading, Reader, get_text, get_boolean, get_quota}
use policyd_py.Notifier.{TelegramConfig, DiscordConfig, EmailConfig}
use policyd_py.Script.{ScriptConfig}
use policyd_py.Management.Api.{WebConfig}
use policyd_py.Config.Sections.{
  GeneralConfig, KeyDbConfig, LdapConfig, LoggingConfig, ExternalActionConfig, WebhookConfig,
}
use policyd_py.Config.Defaults.{
  default_general, default_actions, default_keydb, default_locks, default_penalty, default_adaptive,
  default_ldap, default_logging, default_validation, default_telegram, default_discord,
  default_email, default_external_action, default_webhook, default_script, default_web,
}
use Engine.{
  load_general, load_actions, load_keydb, load_locks, load_penalty, load_adaptive, load_validation,
}
use Services.{
  load_ldap, load_logging, load_telegram, load_discord, load_email, load_external_action,
  load_webhook, load_script, load_web,
}

-- What `AppConfig` holds: `app`, the part that the engine reads, and the rest.
pub record Settings (Float : Type 0) : Type 0 where
  pub app : AppConfig Float
  pub general : GeneralConfig
  pub keydb : KeyDbConfig
  pub ldap : LdapConfig
  pub logging : LoggingConfig
  pub telegram : TelegramConfig
  pub discord : DiscordConfig
  pub email : EmailConfig
  pub external_action : ExternalActionConfig
  pub webhook : WebhookConfig
  pub script : ScriptConfig
  pub web : WebConfig

-- A section that is there is read; else the defaults stay.
unfoldable pub read_section : {A : Type 0} → Dict (Dict Text) → Text → Reading A → A → Outcome A
read_section parser name reading cfg = elim (get parser name) [
  | none ↦ returned cfg
  | some section ↦ (reading section).0
]

-- A step that reads the parser, which it does not change.
abbrev pub Parsing : Type 0 → Type 0
Parsing A = Eff (Dict (Dict Text)) A

abbrev in_section : {A : Type 0} → Text → Reading A → A → Parsing A
in_section name reading cfg parser = (read_section parser name reading cfg, parser)

module _ (F : Floats) (r : Reader) (lines_of : Text → Option (List Text)) where
  open F use {Float}

  abbrev pub no_limits : LimitsConfig Float
  no_limits = record {
    enable_policyd = true;
    policy_check_state = codes "RCPT";
    ratelimit_use_lua = true;
    default_quota = [];
    quotas = [];
    policies = [];
    domain_lists = [];
    account_lists = [];
    ip_lists = [];
  }

  unfoldable pub load_limits_section : LimitsConfig Float → Reading (LimitsConfig Float)
  unfolding get_text get_boolean get_quota
  load_limits_section limits = do
    enable_policyd ← get_boolean (codes "enable_policyd") limits.enable_policyd
    policy_check_state ← get_text (codes "policy_check_state") limits.policy_check_state
    ratelimit_use_lua ← get_boolean (codes "ratelimit_use_lua") limits.ratelimit_use_lua
    default_quota ← get_quota F (codes "default_quota") (codes "10/1h:fixed_window")
    pure (record limits {
      enable_policyd = enable_policyd;
      policy_check_state = policy_check_state;
      ratelimit_use_lua = ratelimit_use_lua;
      default_quota = default_quota;
    })

  -- The entries of a section of lists.
  unfoldable pub read_lists : Dict Text → Dict (List Text) → Dict (List Text)
  read_lists [] lists = lists
  read_lists ((key, value) ∷ entries) lists =
      read_lists entries (put lists key (parse_list_value lines_of value))

  unfoldable pub read_quotas :
      Dict Text → Dict (List (RateLimit Float)) → Outcome (Dict (List (RateLimit Float)))
  unfolding parse_rate_limits
  read_quotas [] quotas = returned quotas
  read_quotas ((key, value) ∷ entries) quotas =
      parse_rate_limits F value then λ limits. read_quotas entries (put quotas key limits)

  abbrev with_policy : Option PolicyRule → List PolicyRule → List PolicyRule
  with_policy none policies = policies
  with_policy (some policy) policies = policy ∷ policies

  unfoldable pub read_policies : Dict Text → List PolicyRule
  unfolding parse_policy
  read_policies [] = []
  read_policies ((name, value) ∷ entries) =
      with_policy (parse_policy name value) (read_policies entries)

  -- parser[name].items(), or nothing where the section is missing
  abbrev pub entries_of : Dict (Dict Text) → Text → Dict Text
  entries_of parser name = elim (get parser name) [ none ↦ [] | some section ↦ section ]

  -- `_parse_limits`
  unfoldable pub parse_limits : Dict (Dict Text) → Outcome (LimitsConfig Float)
  unfolding read_section load_limits_section read_lists read_quotas read_policies
  parse_limits parser =
      read_section parser (codes "Limits") (load_limits_section no_limits) no_limits then λ limits.
      read_quotas (entries_of parser (codes "Quotas")) [] then λ quotas. returned (record limits {
        domain_lists = read_lists (entries_of parser (codes "DomainLists")) [];
        account_lists = read_lists (entries_of parser (codes "AccountLists")) [];
        ip_lists = read_lists (entries_of parser (codes "IPLists")) [];
        quotas = quotas;
        policies = read_policies (entries_of parser (codes "Policies"));
      })

  unfoldable pub load : Parsing (Settings Float)
  unfolding read_section parse_limits load_general load_actions load_keydb load_locks load_penalty
      load_adaptive load_ldap load_logging load_validation load_telegram load_discord load_email
      load_external_action load_webhook load_script load_web
  load = do
    general ← in_section (codes "General") (load_general r default_general) default_general
    actions ← in_section (codes "Actions") (load_actions default_actions) default_actions
    keydb ← in_section (codes "KeyDB") (load_keydb r default_keydb) default_keydb
    locks ← in_section (codes "Locks") (load_locks r default_locks) default_locks
    penalty ← in_section (codes "Penalty") (load_penalty default_penalty) default_penalty
    adaptive ←
        in_section (codes "AdaptiveLimits") (load_adaptive F (default_adaptive F))
          (default_adaptive F)
    ldap ← in_section (codes "LDAP") (load_ldap r default_ldap) default_ldap
    logging ← in_section (codes "Logging") (load_logging default_logging) default_logging
    validation ←
        in_section (codes "EmailValidation") (load_validation r default_validation)
          default_validation
    telegram ← in_section (codes "Telegram") (load_telegram default_telegram) default_telegram
    discord ← in_section (codes "Discord") (load_discord default_discord) default_discord
    email ← in_section (codes "Email") (load_email r default_email) default_email
    external_action ←
        in_section (codes "ExternalAction") (load_external_action r default_external_action)
          default_external_action
    webhook ← in_section (codes "Webhook") (load_webhook r default_webhook) default_webhook
    script ← in_section (codes "Script") (load_script r default_script) default_script
    web ← in_section (codes "Web") (load_web r default_web) default_web
    limits ← λ parser. (parse_limits parser, parser)
    pure (record {
      app = record {
        actions = actions;
        locks = locks;
        penalty = penalty;
        adaptive = adaptive;
        validation = validation;
        limits = limits;
      };
      general = general;
      keydb = keydb;
      ldap = ldap;
      logging = logging;
      telegram = telegram;
      discord = discord;
      email = email;
      external_action = external_action;
      webhook = webhook;
      script = script;
      web = web;
    })
