-- ===== src/Matcher.antt =====
-- policyd_py/policy/matcher.py: the policy rule that a request falls under.
pub mod Selection
use policyd_py.Base.{
  ℕ, Bool, true, false, not, ◌&&◌, ◌||◌, Option, none, some, List, [], ◌∷◌, ◌++◌, map, is_empty,
  if◌then◌else◌, Text, codes, lower, starts_with, text_eq, mem_text, split_on, split_once, Outcome,
  returned, raised, Eff,
}
use policyd_py.Base.Dict.{get_or}
use policyd_py.Config.{AppConfig, PolicyRule}
use policyd_py.Models.{PolicyRequest, or_empty, second_of_two}
use policyd_py.Outside.{Outside}
use policyd_py.Redis
use policyd_py.Redis.{RedisClient}

unfoldable pub get_domain : Text → Text
get_domain email = lower (second_of_two (split_on b'@' email))

pub record PolicyMatcher (Float : Type 0) : Type 0 where
  pub config : AppConfig Float
  pub has_redis : Bool

-- pattern[1:]
abbrev pub tail : Text → Text
tail [] = []
tail (c ∷ s) = s

-- The lists of the configuration, which are read where Redis has not answered yes.
unfoldable pub in_configured_lists : {Float : Type 0} → AppConfig Float → Text → Text → Bool
in_configured_lists config email list_name =
    let domain = get_domain email in
    not (is_empty domain)
      && mem_text domain (map lower (get_or config.limits.domain_lists list_name []))
    || mem_text email (map lower (get_or config.limits.account_lists list_name []))

module _ (F : Type 0) (o : Outside F) where
  open o use {World}

  -- A computation that changes the client and does not raise.
  abbrev pub Total : Type 0 → Type 0
  Total A = RedisClient World → A × RedisClient World

  abbrev list_key : Text → Text
  list_key list_name = codes "policyd:list:" ++ list_name

  abbrev pub Looked : Type 0
  Looked = Outcome Bool × RedisClient World

  -- What follows the lookup of the address: an error is logged, and the lists decide.
  unfoldable pub after_email : Bool → Looked → Bool × RedisClient World
  after_email otherwise (returned true, c) = (true, c)
  after_email otherwise (returned false, c) = (otherwise, c)
  after_email otherwise (raised e, c) = (otherwise, c)

  unfoldable pub email_lookup : Text → Text → Bool → Total Bool
  unfolding Redis.sismember after_email
  email_lookup email list_name otherwise c =
      after_email otherwise (Redis.sismember o (list_key list_name) email c)

  -- What follows the lookup of the domain: an error ends the `try` block.
  unfoldable pub after_domain : Text → Text → Bool → Looked → Bool × RedisClient World
  unfolding email_lookup
  after_domain email list_name otherwise (returned true, c) = (true, c)
  after_domain email list_name otherwise (returned false, c) =
      email_lookup email list_name otherwise c
  after_domain email list_name otherwise (raised e, c) = (otherwise, c)

  -- The lookups of the `try` block.
  unfoldable pub redis_lookups : Text → Text → Bool → Total Bool
  unfolding Redis.sismember after_domain
  redis_lookups email list_name otherwise c =
      let domain = get_domain email in
      if is_empty domain
      then email_lookup email list_name otherwise c
      else after_domain email list_name otherwise (Redis.sismember o (list_key list_name) domain c)

  unfoldable pub is_in_list : PolicyMatcher F → Text → Text → Total Bool
  unfolding redis_lookups
  is_in_list m address list_name c =
      let email = lower address in
      let configured = in_configured_lists m.config email list_name in
      if m.has_redis then redis_lookups email list_name configured c else (configured, c)

  unfoldable pub match_email_pattern : PolicyMatcher F → Text → Text → Total Bool
  unfolding is_in_list
  match_email_pattern m email pattern_text c =
      if is_empty email
      then (false, c)
      else if starts_with pattern_text (codes "@")
      then is_in_list m email (tail pattern_text) c
      else (text_eq (lower email) (lower pattern_text), c)

  sasl_pattern : PolicyMatcher F → Text → Option Text → Total Bool
  unfolding match_email_pattern
  sasl_pattern m sasl_user none c = (false, c)
  sasl_pattern m sasl_user (some pattern_text) c = match_email_pattern m sasl_user pattern_text c

  unfoldable pub match_sender : PolicyMatcher F → Text → Text → Text → Total Bool
  unfolding sasl_pattern
  match_sender m sender sasl_user pattern_text c =
      if text_eq pattern_text (codes "*")
      then (true, c)
      else if starts_with pattern_text (codes "@sasl")
      then (if is_empty sasl_user
          then (false, c)
          else if text_eq pattern_text (codes "@sasl")
          then (true, c)
          else sasl_pattern m sasl_user (split_once b':' pattern_text).1 c)
      else match_email_pattern m sender pattern_text c

  unfoldable pub match_recipient : PolicyMatcher F → Text → Text → Text → Total Bool
  unfolding match_email_pattern
  match_recipient m sender recipient pattern_text c =
      if text_eq pattern_text (codes "*")
      then (true, c)
      else if text_eq pattern_text (codes "@same_domain")
      then (text_eq (get_domain sender) (get_domain recipient), c)
      else match_email_pattern m recipient pattern_text c

  -- Both tests of a rule; the second is made if the first holds.
  unfoldable pub rule_matches : PolicyMatcher F → PolicyRequest → PolicyRule → Total Bool
  unfolding match_sender match_recipient
  rule_matches m request rule c =
      let sender = or_empty request.sender in
      let (sender_match, c') =
        match_sender m sender (or_empty request.sasl_username) rule.sender c in
      if sender_match
      then match_recipient m sender (or_empty request.recipient) rule.recipient c'
      else (false, c')

  unfoldable pub first_match :
      PolicyMatcher F → PolicyRequest → List PolicyRule → Total (Option PolicyRule)
  first_match m request [] c = (none, c)
  first_match m request (rule ∷ rules) c =
      let (matches, c') = rule_matches m request rule c in
      let rest = first_match m request rules c' in if matches then (some rule, c') else rest

  unfoldable pub match : PolicyMatcher F → PolicyRequest → Total (Option PolicyRule)
  unfolding first_match
  match m request c = first_match m request m.config.limits.policies c
