-- ===== src/Handler.antt =====
-- policyd_py/policy/handler.py: the policy engine. A coroutine of it is an effect on the state of the
-- handler; what other coroutines do while it waits is not in this sequence of steps.
pub mod Events
pub mod Adaptive
pub mod Locks
pub mod Background
pub mod Requests
pub mod Quiet
pub mod Accounting
pub mod Answered
pub mod Penalties
pub mod Adapted
pub mod Listener
pub mod Unscheduled
pub mod Lists
pub mod Manual
pub mod Lifecycle
pub mod Resetting
pub mod LocalDomains
use policyd_py.Base.{
  ℕ, ◌+◌, ◌/◌, Bool, true, false, not, ◌&&◌, ◌||◌, Option, none, some, List, [], ◌∷◌, is_empty,
  Text, codes, lower, mem_text, Outcome, returned, raised, Eff, if◌then◌else◌,
}
use policyd_py.Base.Dict.{get_or}
use policyd_py.Floats.{Floats}
use policyd_py.Json.{Codec}
use policyd_py.Config.{AppConfig, PolicyRule, RateLimit, token_bucket}
use policyd_py.Models.{PolicyRequest, or_empty}
use policyd_py.Stats.{RuntimeStats}
use policyd_py.Outside.{Outside}
use policyd_py.Redis.{RedisClient}
use policyd_py.Limiter.RateLimiter.{RateLimiter, Scripts}
use policyd_py.Validator.{EmailValidator}
use policyd_py.Matcher.{PolicyMatcher}

-- The action manager and the notifier, as the handler calls them, and the `ipaddress` module.
pub record Actions (World : Type 0) : Type 0 where
  pub lock_account : Text → Text → Eff World (Unit {0})
  pub unlock_account : Text → Eff World (Unit {0})

pub record Notifier (World : Type 0) : Type 0 where
  pub notify_rate_limit : Text → Text → Eff World (Unit {0})
  pub notify_user_locked : Text → ℕ → Eff World (Unit {0})
  pub notify_user_unlocked : Text → Eff World (Unit {0})

-- Whether an entry of a list, an address or a network, covers an address; an entry or an address that
-- does not parse covers nothing and is covered by nothing.
pub record IpAddresses : Type 0 where
  pub is_address : Text → Bool
  pub covers : Text → Text → Bool

-- What the handler is made of: the attributes that a request does not change.
pub record Engine (F : Floats) (World : Type 0) : Type 0 where
  pub config : AppConfig F.Float
  pub ratelimit_engine : RateLimiter
  pub validator : EmailValidator
  pub matcher : PolicyMatcher F.Float
  pub notifier : Notifier World
  pub action_manager : Option (Actions World)
  pub scripts : Scripts
  pub codec : Codec F.Float
  pub ip_addresses : IpAddresses

pub record Handler (World : Type 0) : Type 0 where
  pub redis : RedisClient World
  pub stats : RuntimeStats
  pub local_domains : List Text

module _ {World A : Type 0} where
  abbrev pub on_redis : Eff (RedisClient World) A → Eff (Handler World) A
  on_redis m h = let (r, c) = m h.redis in (r, record h { redis = c })

  abbrev pub on_world : Eff World A → Eff (Handler World) A
  on_world m h =
      let (r, w) = m h.redis.world in (r, record h { redis = record (h.redis) { world = w } })

-- self.stats.inc_...()
abbrev pub count : {World : Type 0} → (RuntimeStats → RuntimeStats) → Eff (Handler World) (Unit {0})
count inc h = (returned tt, record h { stats = inc h.stats })

-- `_selector`
abbrev first_nonempty : Text → Text → Text
first_nonempty [] t = t
first_nonempty (c ∷ s) t = c ∷ s

unfoldable pub selector_of : PolicyRequest → Text
selector_of req = first_nonempty (or_empty req.sasl_username) (or_empty req.sender)

-- `_is_local_domain`
unfoldable pub is_local_domain : List Text → Text → Bool
is_local_domain local_domains domain =
    if is_empty domain then false else mem_text (lower domain) local_domains

module _ (F : Floats) where
  -- RateLimit(unlimited=True)
  abbrev pub unlimited_limit : RateLimit F.Float
  unlimited_limit = record {
    count = 0;
    duration = 0;
    refill_rate = F.zero_float;
    algorithm = token_bucket;
    unlimited = true;
  }

  -- `_resolve_limits`
  unfoldable pub resolve_limits : AppConfig F.Float → Option PolicyRule → List (RateLimit F.Float)
  resolve_limits config none = config.limits.default_quota
  resolve_limits config (some policy) =
      if mem_text (lower policy.quota) (codes "unlimited" ∷ codes "nolimit" ∷ [])
      then unlimited_limit ∷ []
      else get_or config.limits.quotas policy.quota config.limits.default_quota
