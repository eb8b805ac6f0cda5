-- ===== src/Config/Reading.antt =====
-- How `AppConfig.load` of policyd_py/config/settings.py reads an option of a section of the INI file.
-- `int` of a text is a parameter, for numbers from 0 on.
use policyd_py.Base.{
  ℕ, Bool, true, false, Option, none, some, List, [], ◌∷◌, if◌then◌else◌, Text, codes, lower,
  decimal, mem_text, value_error, Outcome, returned, raised, Eff,
}
use policyd_py.Base.Dict.{Dict, get, get_or}
use policyd_py.Floats.{Floats}
use policyd_py.Config.{RateLimit}
use policyd_py.Config.Parse.{
  parse_name_list, parse_duration_to_seconds, parse_duration_list, parse_headers,
}
use policyd_py.Config.Quotas.{parse_rate_limits}

-- A step that reads a section, which it does not change.
abbrev pub Reading : Type 0 → Type 0
Reading A = Eff (Dict Text) A

-- int(text) and int(text, 8), where these do not raise
pub record Reader : Type 0 where
  pub int : Text → Option ℕ
  pub octal : Text → Option ℕ

-- section.get(key, default)
unfoldable pub get_text : Text → Text → Reading Text
get_text key default section = (returned (get_or section key default), section)

abbrev or_error : {A : Type 0} → Text → Option A → Outcome A
or_error value none = raised (value_error value)
or_error value (some a) = returned a

abbrev converted : {A : Type 0} → (Text → Option A) → A → Option Text → Outcome A
converted f default none = returned default
converted f default (some value) = or_error value (f value)

-- The conversions of `getint`, `getboolean` and `getfloat` are not made of the default.
unfoldable pub get_int : Reader → Text → ℕ → Reading ℕ
get_int r key default section = (converted r.int default (get section key), section)

-- int(section.get(key, oct(default)), 8)
unfoldable pub get_octal : Reader → Text → ℕ → Reading ℕ
get_octal r key default section = (converted r.octal default (get section key), section)

unfoldable pub boolean_of : Text → Option Bool
boolean_of value =
    if mem_text (lower value) (codes "1" ∷ codes "yes" ∷ codes "true" ∷ codes "on" ∷ [])
    then some true
    else if mem_text (lower value) (codes "0" ∷ codes "no" ∷ codes "false" ∷ codes "off" ∷ [])
    then some false
    else none

unfoldable pub get_boolean : Text → Bool → Reading Bool
unfolding boolean_of
get_boolean key default section = (converted boolean_of default (get section key), section)

unfoldable pub get_float : (F : Floats) → Text → F.Float → Reading F.Float
get_float F key default section = (converted F.of_text default (get section key), section)

-- parse_duration_to_seconds(section.get(key, str(default)))
unfoldable pub get_duration : Text → ℕ → Reading ℕ
unfolding parse_duration_to_seconds
get_duration key default section =
    (parse_duration_to_seconds (get_or section key (decimal default)), section)

unfoldable pub get_durations : Text → Reading (List ℕ)
unfolding parse_duration_list
get_durations key section = (parse_duration_list (get_or section key []), section)

unfoldable pub get_headers : Text → Reading (Dict Text)
unfolding parse_headers
get_headers key section = (returned (parse_headers (get_or section key [])), section)

-- [x.strip() for x in section.get(key, default).split(",") if x.strip()]
unfoldable pub get_names : Text → Text → Reading (List Text)
unfolding parse_name_list
get_names key default section = (returned (parse_name_list (get_or section key default)), section)

unfoldable pub get_quota : (F : Floats) → Text → Text → Reading (List (RateLimit F.Float))
unfolding parse_rate_limits
get_quota F key default section = (parse_rate_limits F (get_or section key default), section)
