-- ===== src/Matcher/Selection.antt =====
-- Which rule policyd_py/policy/matcher.py selects, and who is in a named list.
use policyd_py.Base.{
  ◌≡◌, refl, ap, inl, inr, Bool, true, false, Option, none, some, List, [], ◌∷◌, ◌++◌, Bool-cases,
  is_empty, if◌then◌else◌, Text, lower, returned, raised,
}
use policyd_py.Config.{PolicyRule}
use policyd_py.Models.{PolicyRequest}
use policyd_py.Outside.{Outside}
use policyd_py.Redis
use policyd_py.Redis.{RedisClient}
use policyd_py.Matcher.{
  PolicyMatcher, get_domain, in_configured_lists, list_key, Looked, after_email, email_lookup,
  after_domain, redis_lookups, is_in_list, rule_matches, first_match, match,
}

module _ (F : Type 0) (o : Outside F) (m : PolicyMatcher F) (request : PolicyRequest) where
  open o use {World}

  -- The rules are tried in order and none matches; each starts from the client that the one before
  -- it has left.
  pub data Skipped : List PolicyRule → RedisClient World → RedisClient World → Type 0 where
    no_rule : {c : RedisClient World} → Skipped [] c c
    skip :
        {rule : PolicyRule} {rules : List PolicyRule} {c c' c'' : RedisClient World}
        → rule_matches F o m request rule c ≡ (false, c')
        → Skipped rules c' c''
        → Skipped (rule ∷ rules) c c''

  -- The rule is the first that matches.
  abbrev pub IsFirst : List PolicyRule → RedisClient World → RedisClient World → PolicyRule → Type 0
  IsFirst rules c c'' rule =
      (before : List PolicyRule) × (after : List PolicyRule) × (c' : RedisClient World) × (rules
        ≡ before ++ rule ∷ after)
      × Skipped before c c'
      × (rule_matches F o m request rule c' ≡ (true, c''))

  abbrev pub Selects :
      List PolicyRule → RedisClient World → RedisClient World → Option PolicyRule → Type 0
  Selects rules c c'' none = Skipped rules c c''
  Selects rules c c'' (some rule) = IsFirst rules c c'' rule

  Selects-skip :
      (rule : PolicyRule) (rules : List PolicyRule) (c c' c'' : RedisClient World)
      (r : Option PolicyRule)
      → rule_matches F o m request rule c ≡ (false, c')
      → Selects rules c' c'' r
      → Selects (rule ∷ rules) c c'' r
  Selects-skip rule rules c c' c'' none no_match s = skip no_match s
  Selects-skip rule rules c c' c'' (some r) no_match (before, after, d, e, s, h) =
      (rule ∷ before, after, d, ap (λ l. rule ∷ l) e, skip no_match s, h)

  abbrev after_rule :
      PolicyRule
      → List PolicyRule
      → Bool × RedisClient World
      → Option PolicyRule × RedisClient World
  after_rule rule rules (matches, c') =
      let rest = first_match F o m request rules c' in if matches then (some rule, c') else rest

  first_match-step :
      (rule : PolicyRule) (rules : List PolicyRule) (c : RedisClient World)
      (r : Bool × RedisClient World)
      → rule_matches F o m request rule c ≡ r
      → ((c' : RedisClient World)
          → Selects rules c'
              (first_match F o m request rules c').1
              (first_match F o m request rules c').0)
      → Selects (rule ∷ rules) c (after_rule rule rules r).1 (after_rule rule rules r).0
  first_match-step rule rules c (true, c') e ih = ([], rules, c, refl, no_rule, e)
  first_match-step rule rules c (false, c') e ih =
      Selects-skip rule rules c c' (first_match F o m request rules c').1
        (first_match F o m request rules c').0 e (ih c')

  first_match-Selects :
      (rules : List PolicyRule) (c : RedisClient World)
      → Selects rules c (first_match F o m request rules c).1 (first_match F o m request rules c).0
  unfolding first_match
  first_match-Selects [] c = no_rule
  first_match-Selects (rule ∷ rules) c =
      first_match-step rule rules c (rule_matches F o m request rule c) refl
        (λ c'. first_match-Selects rules c')

  -- `match` returns the first rule of the configuration that matches, and `None` only if it has tried
  -- every rule and none matches. The rules after the selected one are not tried.
  pub match-Selects_first :
      (c : RedisClient World)
      → Selects m.config.limits.policies c (match F o m request c).1 (match F o m request c).0
  unfolding match
  match-Selects_first c = first_match-Selects m.config.limits.policies c

module _ (F : Type 0) (o : Outside F) where
  open o use {World}

  after_email-keeps : (looked : Looked F o) → (after_email F o true looked).0 ≡ true
  unfolding after_email
  after_email-keeps (returned true, c) = refl
  after_email-keeps (returned false, c) = refl
  after_email-keeps (raised e, c) = refl

  email_lookup-keeps :
      (email list_name : Text) (c : RedisClient World)
      → (email_lookup F o email list_name true c).0 ≡ true
  unfolding email_lookup
  email_lookup-keeps email list_name c =
      after_email-keeps (Redis.sismember o (list_key F o list_name) email c)

  after_domain-keeps :
      (email list_name : Text) (looked : Looked F o)
      → (after_domain F o email list_name true looked).0 ≡ true
  unfolding after_domain
  after_domain-keeps email list_name (returned true, c) = refl
  after_domain-keeps email list_name (returned false, c) = email_lookup-keeps email list_name c
  after_domain-keeps email list_name (raised e, c) = refl

  redis_lookups-keeps :
      (email list_name : Text) (c : RedisClient World)
      → (redis_lookups F o email list_name true c).0 ≡ true
  unfolding redis_lookups
  redis_lookups-keeps email list_name c = elim (Bool-cases (is_empty (get_domain email))) [
    | inl no_domain ↦ rw no_domain (email_lookup-keeps email list_name c)
    | inr domain ↦ rw domain (
        after_domain-keeps email list_name
          (Redis.sismember o (list_key F o list_name) (get_domain email) c))
  ]

  -- An address that the configuration puts in a list is found in it whatever Redis answers or raises,
  -- and whatever the case of its letters.
  configured_is_in_list :
      (m : PolicyMatcher F) (address list_name : Text) (c : RedisClient World)
      → in_configured_lists m.config (lower address) list_name ≡ true
      → (is_in_list F o m address list_name c).0 ≡ true
  unfolding is_in_list
  configured_is_in_list m address list_name c h = rw h (elim (Bool-cases m.has_redis) [
    | inl asks ↦ rw asks (redis_lookups-keeps (lower address) list_name c)
    | inr offline ↦ rw offline refl
  ])
