-- ===== src/Validator.antt =====
-- policyd_py/validation/validator.py: syntax checks, the resolver check and the blacklists.
pub mod Syntax
pub mod Blacklists
use policyd_py.Base.{
  ℕ, Bool, true, false, not, ◌&&◌, ◌||◌, Option, none, some, List, [], ◌∷◌, ◌++◌, ◌==◌, leb, all,
  is_empty, if◌then◌else◌, Text, codes, lower, strip, starts_with, split_on, split_once, mem_text,
  Exception, os_error, Outcome, returned, raised, Eff, pure, try_except, ◌>>=◌, ◌>>◌,
}
use policyd_py.Config.{ValidationConfig}
use policyd_py.Models.{second_of_two}
use policyd_py.Outside.{Outside}
use policyd_py.Redis.{RedisClient}

is_alnum : ℕ → Bool
is_alnum c = leb b'A' c && leb c b'Z' || (leb b'a' c && leb c b'z' || leb b'0' c && leb c b'9')

-- [A-Za-z0-9-]
unfoldable pub is_label_char : ℕ → Bool
unfolding is_alnum
is_label_char c = is_alnum c || c == b'-'

-- The other characters of the class before the `@`.
abbrev local_signs : Text
local_signs = codes ".!#$%&'*+/=?^_`{|}~-"

abbrev mem_code : ℕ → Text → Bool
mem_code c [] = false
mem_code c (d ∷ s) = c == d || mem_code c s

-- [A-Za-z0-9.!#$%&'*+/=?^_`{|}~-]
unfoldable pub is_local_char : ℕ → Bool
unfolding is_alnum
is_local_char c = is_alnum c || mem_code c local_signs

-- One or more characters of a class.
abbrev pub run_of : (ℕ → Bool) → Text → Bool
run_of p [] = false
run_of p (c ∷ s) = p c && all p s

-- [A-Za-z0-9-]+(?:\.[A-Za-z0-9-]+)+
is_domain : List Text → Bool
is_domain [] = false
is_domain (label ∷ []) = false
is_domain (label ∷ next ∷ labels) = all (run_of is_label_char) (label ∷ next ∷ labels)

-- `$` matches at the end, and before a newline that ends the text.
without_newline : Text → Text
without_newline [] = []
without_newline (c ∷ []) = if c == 10 then [] else c ∷ []
without_newline (c ∷ d ∷ s) = c ∷ without_newline (d ∷ s)

address_parts : Text × Option Text → Bool
unfolding is_domain
address_parts (user, none) = false
address_parts (user, some domain) = run_of is_local_char user && is_domain (split_on b'.' domain)

-- EMAIL_RE.match(s), as a scan: the class before the `@` has no `@` and that of a label no dot.
unfoldable pub email_re_match : Text → Bool
unfolding address_parts without_newline
email_re_match s = address_parts (split_once b'@' (without_newline s))

pub record EmailValidator : Type 0 where
  pub config : ValidationConfig
  pub sender_blacklist : List Text
  pub recipient_blacklist : List Text
  pub domain_blacklist : List Text

-- `_load_file_to_set` over the lines of the file; `none` stands for a file that cannot be opened or
-- read. The set is the list of its members.
keep_line : Text → List Text → List Text
keep_line [] values = values
keep_line (c ∷ line) values = if c == b'#' then values else (c ∷ line) ∷ values

load_lines : List Text → List Text
unfolding keep_line
load_lines [] = []
load_lines (line ∷ lines) = keep_line (lower (strip line)) (load_lines lines)

load_read : Option (List Text) → List Text
unfolding load_lines
load_read none = []
load_read (some lines) = load_lines lines

unfoldable pub load_file_to_set : (Text → Option (List Text)) → Text → List Text
unfolding load_read
load_file_to_set read [] = []
load_file_to_set read (c ∷ path) = load_read (read (c ∷ path))

-- The paths are those of the configuration, and `read` is the file system.
unfoldable pub reload_blacklists :
    (Text → Option (List Text)) → Text → Text → Text → EmailValidator → EmailValidator
reload_blacklists read sender_file recipient_file domain_file v = record v {
  sender_blacklist = load_file_to_set read sender_file;
  recipient_blacklist = load_file_to_set read recipient_file;
  domain_blacklist = load_file_to_set read domain_file;
}

-- The pairs (ok, message) and (blocked, message).
abbrev pub passed : Bool × Text
passed = (true, [])

abbrev pub not_listed : Bool × Text
not_listed = (false, [])

unfoldable pub validate_sender_syntax : EmailValidator → Text → Bool × Text
validate_sender_syntax v sender =
    if not v.config.validate_sender_syntax
    then passed
    else if is_empty sender || not (email_re_match sender)
    then (false, codes "Invalid sender email syntax")
    else passed

unfoldable pub validate_recipient_syntax : EmailValidator → Text → Bool × Text
validate_recipient_syntax v recipient =
    if not v.config.validate_recipient_syntax && not v.config.validate_recipient
    then passed
    else if is_empty recipient || not (email_re_match recipient)
    then (false, codes "Invalid recipient email syntax")
    else passed

unfoldable pub extract_domain : Text → Text
extract_domain email = lower (second_of_two (split_on b'@' email))

unfoldable pub check_sender_blacklist : EmailValidator → Text → Bool × Text
check_sender_blacklist v sender =
    if not v.config.enable_blacklist
    then not_listed
    else if mem_text (lower sender) v.sender_blacklist
    then (true, codes "Sender blacklisted: " ++ sender)
    else not_listed

unfoldable pub check_recipient_blacklist : EmailValidator → Text → Bool × Text
check_recipient_blacklist v recipient =
    if not v.config.enable_blacklist
    then not_listed
    else if mem_text (lower recipient) v.recipient_blacklist
    then (true, codes "Recipient blacklisted: " ++ recipient)
    else not_listed

unfoldable pub check_domain_blacklist : EmailValidator → Text → Bool × Text
check_domain_blacklist v domain =
    if not v.config.enable_blacklist
    then not_listed
    else if mem_text (lower domain) v.domain_blacklist
    then (true, codes "Domain blacklisted: " ++ domain)
    else not_listed

module _ {Float : Type 0} (o : Outside Float) where
  open o use {World, getaddrinfo}

  -- `gaierror` is an `OSError`; any other exception goes on to the caller.
  unfoldable pub resolve : Text → Outcome (Unit {0}) × World → Outcome (Bool × Text) × World
  resolve domain (returned r, w) = (returned passed, w)
  resolve domain (raised (os_error m), w) =
      (returned (false, codes "Recipient domain not resolvable: " ++ domain), w)
  resolve domain (raised e, w) = (raised e, w)

  unfoldable pub validate_recipient_deliverability : EmailValidator → Text → Eff World (Bool × Text)
  unfolding resolve extract_domain
  validate_recipient_deliverability v recipient w =
      let domain = extract_domain recipient in
      if not v.config.validate_recipient_deliverability
      then (returned passed, w)
      else if is_empty domain
      then (returned (false, codes "Missing recipient domain"), w)
      else resolve domain (getaddrinfo domain w)
