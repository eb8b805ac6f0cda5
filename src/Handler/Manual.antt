-- ===== src/Handler/Manual.antt =====
-- What the management API asks of policyd_py/policy/handler.py: the state of an account, locks and
-- unlocks by hand, and resets.
use policyd_py.Base.{
  ℕ, ℤ, ◌==◌, Bool, true, false, ◌&&◌, ◌||◌, not, Option, none, some, List, [], ◌∷◌, ◌++◌, leb,
  if◌then◌else◌, Text, codes, lower, text_eq, value_error, Outcome, returned, raised, Eff, pure,
  ◌>>=◌, ◌>>◌,
}
use policyd_py.Base.Dict.{values}
use policyd_py.Floats.{Floats}
use policyd_py.Json.{Json, Fields, text, member}
use policyd_py.Config.{RateLimit}
use policyd_py.Outside.{Outside}
use policyd_py.Redis
use policyd_py.Limiter.RateLimiter.{reset_limit}
use policyd_py.Limiter.Usage.{get_usage, parse_int}
use policyd_py.Handler.{Engine, Handler, on_redis}
use policyd_py.Handler.Locks.{lock_key, penalty_key, safe_lock_user}
use policyd_py.Handler.Background.{load_lock_metadata, process_unlock_event}

-- One entry of `usage`.
pub record Usage : Type 0 where
  pub algorithm : Text
  pub duration : ℕ
  pub count : ℕ
  pub usage : ℕ
  pub exceeded : Bool

-- The dictionary that `get_runtime_state` returns.
pub record RuntimeState : Type 0 where
  pub email : Text
  pub locked : Bool
  pub lock_reason : Option Text
  pub lock_ttl_seconds : Option ℤ
  pub penalty_count : ℕ
  pub penalty_ttl_seconds : Option ℤ
  pub adaptive_enabled : Bool
  pub penalty_enabled : Bool
  pub usage : List Usage

unfoldable pub same_bool : Bool → Bool → Bool
same_bool true b = b
same_bool false b = not b

-- The equality of two refill rates, as the floating point numbers compare.
module _ (F : Floats) (same_rate : F.Float → F.Float → Bool) (o : Outside F.Float)
    (e : Engine F o.World) where
  open F use {Float}
  open o use {World}
  open e use {config}

  -- Whether two limits have the same fingerprint.
  unfoldable pub same_fingerprint : RateLimit Float → RateLimit Float → Bool
  unfolding same_bool
  same_fingerprint a b =
      text_eq a.algorithm b.algorithm
      && (a.duration == b.duration
          && (a.count == b.count
              && (same_rate a.refill_rate b.refill_rate && same_bool a.unlimited b.unlimited)))

  -- fingerprint in seen; a limit stands for its fingerprint
  unfoldable pub is_seen : RateLimit Float → List (RateLimit Float) → Bool
  unfolding same_fingerprint
  is_seen limit [] = false
  is_seen limit (s ∷ seen) = same_fingerprint limit s || is_seen limit seen

  -- The limits of the quotas, in order.
  unfoldable pub of_quotas : List (List (RateLimit Float)) → List (RateLimit Float)
  of_quotas [] = []
  of_quotas (quota_limits ∷ quotas) = quota_limits ++ of_quotas quotas

  -- The loops of `_all_configured_limits`, with what is seen.
  unfoldable pub collect_from :
      List (RateLimit Float) → List (RateLimit Float) → List (RateLimit Float)
  unfolding is_seen
  collect_from seen [] = []
  collect_from seen (limit ∷ limits) =
      let rest = collect_from seen limits in
      let more = collect_from (limit ∷ seen) limits in
      if is_seen limit seen then rest else limit ∷ more

  unfoldable pub all_configured_limits : List (RateLimit Float)
  unfolding collect_from of_quotas
  all_configured_limits =
      collect_from [] (config.limits.default_quota ++ of_quotas (values config.limits.quotas))

  -- The loop of `reset_ratelimit_manually`.
  unfoldable pub reset_from :
      Text → List (RateLimit Float) → List (RateLimit Float) → Eff (Handler World) (Unit {0})
  unfolding is_seen
  reset_from email seen [] = pure tt
  reset_from email seen (limit ∷ limits) =
      let rest = reset_from email seen limits in
      let more = reset_from email (limit ∷ seen) limits in
      if is_seen limit seen
      then rest
      else if limit.unlimited
      then more
      else on_redis (reset_limit F o e.scripts email limit) >> more

  unfoldable pub reset_ratelimit_manually : Text → Eff (Handler World) (Unit {0})
  unfolding reset_from of_quotas
  reset_ratelimit_manually email =
      reset_from email [] (config.limits.default_quota ++ of_quotas (values config.limits.quotas))

  unfoldable pub lock_user_manually : Text → Text → Eff (Handler World) (Unit {0})
  unfolding safe_lock_user
  lock_user_manually email reason = safe_lock_user F o e email reason none none none

  unfoldable pub unlock_user_manually : Text → Eff (Handler World) (Unit {0})
  unfolding process_unlock_event
  unlock_user_manually email = process_unlock_event F o e email true true

  -- `metadata and metadata.get("selector")`, in lower case, beside the address; the program stores the
  -- selector as a text.
  abbrev of_selector : Option (Json Float) → Text → List Text
  of_selector (some (text (c ∷ s))) email =
      if text_eq (lower (c ∷ s)) (lower email)
      then lower email ∷ []
      else lower email ∷ lower (c ∷ s) ∷ []
  of_selector _ email = lower email ∷ []

  unfoldable pub selectors : Option (Fields Float) → Text → List Text
  unfolding member
  selectors none email = lower email ∷ []
  selectors (some metadata) email = of_selector (member (codes "selector") metadata) email

  unfoldable pub delete_penalties : List Text → Eff (Handler World) (Unit {0})
  delete_penalties [] = pure tt
  delete_penalties (selector ∷ more) = do
    on_redis (Redis.delete o (penalty_key selector))
    delete_penalties more

  -- The set of the selectors is gone through in some order, here the address first.
  unfoldable pub reset_penalty_manually : Text → Eff (Handler World) (Unit {0})
  unfolding load_lock_metadata selectors delete_penalties
  reset_penalty_manually email = do
    metadata ← load_lock_metadata F o e email
    delete_penalties (selectors metadata email)

  unfoldable pub usages : Text → List (RateLimit Float) → Eff (Handler World) (List Usage)
  usages email [] = pure []
  usages email (limit ∷ limits) =
      let rest = usages email limits in
      if limit.unlimited then rest else do
        current_usage ← on_redis (get_usage F o email limit)
        more ← rest
        pure (
            record {
              algorithm = limit.algorithm;
              duration = limit.duration;
              count = limit.count;
              usage = current_usage;
              exceeded = leb limit.count current_usage;
            }
            ∷ more)

  -- `await ... if condition else None`
  abbrev pub when_there :
      {A : Type 0} → Bool → Eff (Handler World) (Option A) → Eff (Handler World) (Option A)
  when_there there m = if there then m else pure none

  -- int(value or 0)
  abbrev int_or_zero : Option Text → Outcome ℕ
  int_or_zero none = returned 0
  int_or_zero (some []) = returned 0
  int_or_zero (some (c ∷ s)) = elim (parse_int (c ∷ s)) [
    | none ↦ raised (value_error (codes "invalid literal for int()"))
    | some n ↦ returned n
  ]

  unfoldable pub penalty_count : Bool → Text → Eff (Handler World) ℕ
  unfolding parse_int
  penalty_count there key =
      if there then on_redis (Redis.get o key) >>= (λ value h. (int_or_zero value, h)) else pure 0

  unfoldable pub ttl_of : Text → Eff (Handler World) (Option ℤ)
  ttl_of key = do ttl ← on_redis (Redis.ttl o key); pure (some ttl)

  unfoldable pub get_runtime_state : Text → Eff (Handler World) RuntimeState
  unfolding usages all_configured_limits penalty_count ttl_of
  get_runtime_state email = do
    lock_exists ← on_redis (Redis.exists o (lock_key email))
    penalty_exists ← on_redis (Redis.exists o (penalty_key (lower email)))
    usage ← usages email all_configured_limits
    reason ← when_there lock_exists (on_redis (Redis.get o (lock_key email)))
    lock_ttl ← when_there lock_exists (ttl_of (lock_key email))
    violations ← penalty_count penalty_exists (penalty_key (lower email))
    penalty_ttl ← when_there penalty_exists (ttl_of (penalty_key (lower email)))
    pure (record {
      email = email;
      locked = lock_exists;
      lock_reason = reason;
      lock_ttl_seconds = lock_ttl;
      penalty_count = violations;
      penalty_ttl_seconds = penalty_ttl;
      adaptive_enabled = config.adaptive.enable;
      penalty_enabled = config.penalty.enable;
      usage = usage;
    })
