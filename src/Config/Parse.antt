-- ===== src/Config/Parse.antt =====
-- The parsing helpers of policyd_py/config/settings.py: durations, quotas, lists and headers.
use policyd_py.Base.{
  ℕ, ◌*◌, zero, suc, leb, Bool, false, ◌&&◌, Option, none, some, List, [], ◌∷◌, ◌++◌, map, all,
  length, reverse, is_empty, ◌==◌, if◌then◌else◌, Text, codes, lower, strip, starts_with, split_on,
  split_once, read_digits, value_error, Outcome, returned, raised,
}
use policyd_py.Base.Dict.{Dict, put}
use policyd_py.Config.{PolicyRule, token_bucket, fixed_window, sliding_window_counter}

-- s.isdigit(), on ASCII
abbrev pub is_digit_code : ℕ → Bool
is_digit_code c = leb 48 c && leb c 57

unfoldable pub is_digits : Text → Bool
is_digits [] = false
is_digits (c ∷ s) = all is_digit_code (c ∷ s)

-- s[:-1] and the last character
unfoldable pub add_first : ℕ → Option (Text × ℕ) → Option (Text × ℕ)
add_first c none = some ([], c)
add_first c (some (s, d)) = some (c ∷ s, d)

unfoldable pub split_last : Text → Option (Text × ℕ)
unfolding add_first
split_last [] = none
split_last (c ∷ s) = add_first c (split_last s)

-- The seconds of a unit.
unfoldable pub unit_seconds : ℕ → Option ℕ
unit_seconds c =
    if c == b'd'
    then some 86400
    else if c == b'h'
    then some 3600
    else if c == b'm'
    then some 60
    else if c == b's'
    then some 1
    else none

unfoldable pub invalid_duration : Text → Outcome ℕ
invalid_duration value = raised (value_error (codes "invalid duration " ++ value))

unfoldable pub seconds_of : Text → Option ℕ → Text → Outcome ℕ
unfolding invalid_duration
seconds_of value none number = invalid_duration value
seconds_of value (some unit) number =
    if is_digits number then returned (read_digits 0 number * unit) else invalid_duration value

unfoldable pub with_unit : Text → Option (Text × ℕ) → Outcome ℕ
unfolding seconds_of
with_unit value none = returned 0
with_unit value (some (number, c)) = seconds_of value (unit_seconds c) number

-- The value without surrounding white space and in lower case. An empty one is 0.
unfoldable pub duration_of : Text → Outcome ℕ
unfolding with_unit
duration_of value =
    if is_digits value then returned (read_digits 0 value) else with_unit value (split_last value)

unfoldable pub parse_duration_to_seconds : Text → Outcome ℕ
parse_duration_to_seconds value = duration_of (lower (strip value))

-- Outcomes without a state.
infixl 5 ◌then◌
abbrev pub ◌then◌ : {A B : Type 0} → Outcome A → (A → Outcome B) → Outcome B
returned a then f = f a
raised exc then f = raised exc

-- [x.strip() for x in value.split(",") if x.strip()]
unfoldable pub keep_nonempty : List Text → List Text
keep_nonempty [] = []
keep_nonempty (x ∷ xs) = if is_empty (strip x) then keep_nonempty xs else strip x ∷ keep_nonempty xs

-- `_parse_name_list`
unfoldable pub parse_name_list : Text → List Text
unfolding keep_nonempty
parse_name_list value = keep_nonempty (split_on b',' value)

durations_of : List Text → Outcome (List ℕ)
durations_of [] = returned []
durations_of (x ∷ xs) =
    parse_duration_to_seconds x then λ d. durations_of xs then λ ds. returned (d ∷ ds)

-- `_parse_duration_list`; what is kept is stripped already, which the parser of a duration does again.
unfoldable pub parse_duration_list : Text → Outcome (List ℕ)
unfolding durations_of
parse_duration_list value = durations_of (parse_name_list value)

-- `_parse_headers`
add_header : Text → Option Text → Dict Text → Dict Text
add_header key none headers = headers
add_header key (some val) headers =
    if is_empty (strip key) then headers else put headers (strip key) (strip val)

add_headers : List Text → Dict Text → Dict Text
unfolding add_header
add_headers [] headers = headers
add_headers (item ∷ items) headers =
    let (key, val) = split_once b':' item in add_headers items (add_header key val headers)

unfoldable pub parse_headers : Text → Dict Text
unfolding add_headers
parse_headers value = add_headers (parse_name_list value) []

-- The text without a suffix, where it ends in it.
drop : ℕ → Text → Text
drop zero s = s
drop (suc n) [] = []
drop (suc n) (c ∷ s) = drop n s

unfoldable pub without_suffix : Text → Text → Option Text
unfolding drop
without_suffix s suffix =
    if starts_with (reverse s) (reverse suffix)
    then some (reverse (drop (length suffix) (reverse s)))
    else none

-- The algorithm of a quota and the text before its name; the first suffix that fits is taken.
unfoldable pub first_suffix : Text → List (Text × Text) → Text × Text
first_suffix part [] = (token_bucket, part)
first_suffix part ((suffix, algorithm) ∷ suffixes) = elim (without_suffix part suffix) [
  | none ↦ first_suffix part suffixes
  | some base ↦ (algorithm, base)
]

abbrev pub suffixes_of_algorithms : List (Text × Text)
suffixes_of_algorithms =
    (codes ":sliding_window_counter", sliding_window_counter)
    ∷ (codes ":sliding_window", sliding_window_counter)
    ∷ (codes ":fixed_window", fixed_window)
    ∷ (codes ":token_bucket", token_bucket)
    ∷ []

unfoldable pub split_algorithm : Text → Text × Text
unfolding first_suffix
split_algorithm part = first_suffix part suffixes_of_algorithms

-- The groups of the regular expression `^(\d+)\/([^:]+)(?::([^\/]+)\/([^\/]+))?$`.
pub record QuotaGroups : Type 0 where
  pub count : Text
  pub duration : Text
  pub refill : Option (Text × Text)

refill_groups : Text → Text → List Text → Option QuotaGroups
refill_groups count duration (tokens ∷ per ∷ []) =
    if is_empty tokens
    then none
    else if is_empty per
    then none
    else some (record { count = count; duration = duration; refill = some (tokens, per) })
refill_groups count duration _ = none

after_slash : Text → Text × Option Text → Option QuotaGroups
unfolding refill_groups
after_slash count ([], rest) = none
after_slash count (c ∷ duration, none) =
    some (record { count = count; duration = c ∷ duration; refill = none })
after_slash count (c ∷ duration, some rest) =
    refill_groups count (c ∷ duration) (split_on b'/' rest)

before_slash : Text × Option Text → Option QuotaGroups
unfolding after_slash
before_slash (count, none) = none
before_slash (count, some rest) =
    if is_digits count then after_slash count (split_once b':' rest) else none

unfoldable pub match_quota : Text → Option QuotaGroups
unfolding before_slash
match_quota base = before_slash (split_once b'/' base)

-- `_load_list_from_file`, over the lines of the file; `none` is a file that does not exist.
keep_entry : Text → List Text → List Text
keep_entry [] items = items
keep_entry (c ∷ line) items = if c == b'#' then items else lower (c ∷ line) ∷ items

load_list : List Text → List Text
unfolding keep_entry
load_list [] = []
load_list (line ∷ lines) = keep_entry (strip line) (load_list lines)

unfoldable pub load_list_from_file : Option (List Text) → List Text
unfolding load_list
load_list_from_file none = []
load_list_from_file (some lines) = load_list lines

-- `_parse_list_value`; the files are given by their lines.
unfoldable pub parse_list_value : (Text → Option (List Text)) → Text → List Text
unfolding drop
parse_list_value lines_of value =
    let raw = strip value in
    if is_empty raw
    then []
    else if starts_with raw (codes "ldap://")
    then (codes "__LDAP__:" ++ raw) ∷ []
    else if starts_with raw (codes "file://")
    then load_list_from_file (lines_of (drop 7 raw))
    else map lower (keep_nonempty (split_on b',' raw))

-- One entry of the section `Policies`.
policy_of : Text → List Text → Option PolicyRule
policy_of name (sender ∷ recipient ∷ quota ∷ []) =
    some (record { name = name; sender = sender; recipient = recipient; quota = quota })
policy_of name _ = none

unfoldable pub parse_policy : Text → Text → Option PolicyRule
unfolding policy_of
parse_policy name value = policy_of name (map strip (split_on b':' value))
