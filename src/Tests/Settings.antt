-- ===== src/Tests/Settings.antt =====
-- Quotas and durations (policyd_py/config/settings.py) as they are read.
use policyd_py.Base.{
  ℕ, ◌≡◌, ◌↔◌, refl, All, Text, Option, none, some, codes, lower, strip, List, [], ◌∷◌, Outcome,
  returned, raised, value_error,
}
use policyd_py.Base.Dict.{Dict}
use policyd_py.Config.{RateLimit, PolicyRule, fixed_window}
use policyd_py.Config.Parse.{parse_duration_to_seconds, parse_duration_list}
use policyd_py.Config.Quotas.{parse_rate_limits}
use policyd_py.Config.Durations.{Denotes, parse_duration_iff}
use policyd_py.Config.WellFormed.{IsWellFormed}
use policyd_py.Config.Reading.{Reader}
use policyd_py.Config.Defaults.{
  default_general, default_actions, default_keydb, default_locks, default_penalty, default_adaptive,
  default_ldap, default_logging, default_validation, default_telegram, default_discord,
  default_email, default_external_action, default_webhook, default_script, default_web,
}
use policyd_py.Config.Loading.{Settings, load, no_limits}
use policyd_py.Config.Loaded.{load-resolve_limits}
use policyd_py.Handler.{resolve_limits}
use policyd_py.Tests.Outsides.{whole_numbers, ten_per_hour}

parse_duration_iff_example :
    (parse_duration_to_seconds (codes " 2H") ≡ returned 7200)
    ↔ Denotes (lower (strip (codes " 2H"))) 7200
parse_duration_iff_example = parse_duration_iff (codes " 2H") 7200

two_hours : parse_duration_to_seconds (codes " 2H") ≡ returned 7200
unfolding parse_duration_to_seconds policyd_py.Config.Parse.duration_of
    policyd_py.Config.Parse.is_digits policyd_py.Base.strip_start policyd_py.Base.lower_code
    policyd_py.Config.Parse.split_last policyd_py.Config.Parse.unit_seconds
    policyd_py.Base.read_digits
two_hours = refl

-- Numbers are not read here: no option of this file is one.
abbrev reader : Reader
reader = record { int = λ text. none; octal = λ text. none }

abbrev ini : Dict (Dict Text)
ini =
    (codes "Limits", (codes "default_quota", codes " 10/1h:fixed_window, bogus") ∷ [])
    ∷ (codes "Quotas", (codes "big", codes "10/1h:fixed_window") ∷ [])
    ∷ []

abbrev no_lines : Text → Option (List Text)
no_lines path = none

abbrev settings : Settings ℕ
settings = record {
  app = record {
    actions = default_actions;
    locks = default_locks;
    penalty = default_penalty;
    adaptive = default_adaptive whole_numbers;
    validation = default_validation;
    limits = record (no_limits whole_numbers reader no_lines) {
      default_quota = ten_per_hour ∷ [];
      quotas = (codes "big", ten_per_hour ∷ []) ∷ [];
    };
  };
  general = default_general;
  keydb = default_keydb;
  ldap = default_ldap;
  logging = default_logging;
  telegram = default_telegram;
  discord = default_discord;
  email = default_email;
  external_action = default_external_action;
  webhook = default_webhook;
  script = default_script;
  web = default_web;
}

loads : (load whole_numbers reader no_lines ini).0 ≡ returned settings
unfolding load policyd_py.Config.Loading.read_section policyd_py.Config.Loading.parse_limits
    policyd_py.Config.Loading.load_limits_section policyd_py.Config.Loading.read_lists
    policyd_py.Config.Loading.read_quotas policyd_py.Config.Loading.read_policies
    policyd_py.Config.Reading.get_boolean policyd_py.Config.Reading.get_text
    policyd_py.Config.Reading.get_quota policyd_py.Base.Dict.get policyd_py.Base.Dict.put
    parse_rate_limits policyd_py.Config.Parse.parse_name_list policyd_py.Base.split_on
    policyd_py.Base.strip_start policyd_py.Base.text_eq policyd_py.Base.lower_code
    policyd_py.Config.Parse.match_quota policyd_py.Base.split_once
    policyd_py.Config.Parse.split_algorithm policyd_py.Config.Parse.without_suffix
    policyd_py.Config.Parse.is_digits parse_duration_to_seconds policyd_py.Config.Parse.duration_of
    policyd_py.Config.Parse.split_last policyd_py.Config.Parse.unit_seconds
    policyd_py.Base.read_digits
loads = refl

abbrev big_rule : PolicyRule
big_rule = record {
  name = codes "rule";
  sender = codes "*";
  recipient = codes "*";
  quota = codes "big";
}

load-resolve_limits_example :
    All (IsWellFormed whole_numbers) (resolve_limits whole_numbers settings.app (some big_rule))
load-resolve_limits_example =
    load-resolve_limits whole_numbers reader no_lines ini settings (some big_rule) loads
