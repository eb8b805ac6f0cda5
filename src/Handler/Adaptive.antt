-- ===== src/Handler/Adaptive.antt =====
-- The adaptive limits of policyd_py/policy/handler.py.
use policyd_py.Base.{
  ℕ, Bool, true, false, not, ◌&&◌, ◌||◌, List, [], ◌∷◌, ◌++◌, max, ◌==◌, is_empty, any,
  if◌then◌else◌, Text, codes, lower, strip, text_eq, Outcome, returned, Eff, pure, ◌>>=◌, ◌>>◌,
}
use policyd_py.Base.Dict.{get_or}
use policyd_py.Floats.{Floats}
use policyd_py.Config.{AppConfig, RateLimit, token_bucket}
use policyd_py.Config.Parse.{◌then◌}
use policyd_py.Models.{PolicyRequest, or_empty, sender_domain}
use policyd_py.Stats
use policyd_py.Outside.{Outside}
use policyd_py.Redis
use policyd_py.Redis.{RedisClient}
use policyd_py.Handler.{Engine, Handler, IpAddresses, on_redis, count, is_local_domain}

module _ (F : Floats) where
  open F use {Float, zero_float, one_float, of_ℕ, times, over, less, ceiling}

  -- `_ip_matches_named_lists`
  entry_covers : IpAddresses → Text → Text → Bool
  entry_covers ip ip_value entry =
      let candidate = strip entry in not (is_empty candidate) && ip.covers candidate ip_value

  unfoldable pub ip_matches_named_lists : AppConfig Float → IpAddresses → Text → List Text → Bool
  unfolding entry_covers
  ip_matches_named_lists config ip ip_value list_names =
      ip.is_address ip_value
      && any (λ name. any (entry_covers ip ip_value) (get_or config.limits.ip_lists name []))
          list_names

  -- max([1.0] + xs) and min([1.0] + xs)
  largest : Float → List Float → Float
  largest best [] = best
  largest best (x ∷ xs) = largest (if less best x then x else best) xs

  smallest : Float → List Float → Float
  smallest best [] = best
  smallest best (x ∷ xs) = smallest (if less x best then x else best) xs

  -- What `collect` keeps in the two lists: positive values above 1 and below 1.
  above_one : List Float → List Float
  above_one [] = []
  above_one (x ∷ xs) =
      let rest = above_one xs in if less zero_float x && less one_float x then x ∷ rest else rest

  below_one : List Float → List Float
  below_one [] = []
  below_one (x ∷ xs) =
      let rest = below_one xs in if less zero_float x && less x one_float then x ∷ rest else rest

  -- The multiplier of the collected values: the largest if one is above 1, else the smallest.
  combined : List Float → Float
  unfolding largest smallest above_one below_one
  combined values =
      if not (is_empty (above_one values))
      then largest one_float (above_one values)
      else smallest one_float (below_one values)

  -- min(maximum, max(minimum, multiplier))
  unfoldable pub clamp_multiplier : Float → Float → Float → Float
  clamp_multiplier minimum maximum multiplier =
      let raised_up = if less minimum multiplier then multiplier else minimum in
      if less raised_up maximum then raised_up else maximum

  -- The limit with its refill rate scaled, and a count.
  unfoldable pub with_count : Float → RateLimit Float → ℕ → RateLimit Float
  with_count multiplier limit count =
      let scaled_rate = times limit.refill_rate multiplier in
      let least_rate = over one_float (of_ℕ (if limit.duration == 0 then 1 else limit.duration)) in
      record limit {
        count = max 1 count;
        refill_rate =
            if text_eq limit.algorithm token_bucket && less zero_float limit.refill_rate
            then (if less scaled_rate least_rate then least_rate else scaled_rate)
            else limit.refill_rate;
      }

  -- The limit that the loop of `_apply_adaptive_limits` appends.
  unfoldable pub scale_limit : Float → RateLimit Float → Outcome (RateLimit Float)
  unfolding with_count
  scale_limit multiplier limit =
      if limit.unlimited
      then returned limit
      else ceiling (times (of_ℕ limit.count) multiplier) then λ count.
          returned (with_count multiplier limit count)

  unfoldable pub scale_limits : Float → List (RateLimit Float) → Outcome (List (RateLimit Float))
  unfolding scale_limit
  scale_limits multiplier [] = returned []
  scale_limits multiplier (limit ∷ limits) = scale_limit multiplier limit then λ scaled.
      scale_limits multiplier limits then λ scaled_limits. returned (scaled ∷ scaled_limits)

module _ (F : Floats) (o : Outside F.Float) where
  open F use {Float, one_float, less, is_close_to_one}
  open o use {World}

  -- `_is_member_of_named_sets`: the lists in the outer loop, the values in the inner one.
  unfoldable pub value_in_set : Text → List Text → Eff (RedisClient World) Bool
  unfolding Redis.sismember
  value_in_set key [] = pure false
  value_in_set key (value ∷ values) =
      let rest = value_in_set key values in
      if is_empty value
      then rest
      else do found ← Redis.sismember o key value; if found then pure true else rest

  unfoldable pub is_member_of_named_sets : List Text → List Text → Eff (RedisClient World) Bool
  unfolding value_in_set
  is_member_of_named_sets values [] = pure false
  is_member_of_named_sets values (list_name ∷ list_names) =
      let rest = is_member_of_named_sets values list_names in
      do
        found ← value_in_set (codes "policyd:list:" ++ list_name) values
        if found then pure true else rest

  trusted_accounts : PolicyRequest → Text → List Text
  trusted_accounts req selector =
      if is_empty (or_empty req.sender)
      then lower selector ∷ []
      else lower selector ∷ lower (or_empty req.sender) ∷ []

  trusted_by_domain : Engine F World → PolicyRequest → Eff (RedisClient World) Bool
  unfolding is_member_of_named_sets
  trusted_by_domain e req =
      if is_empty (sender_domain req)
      then pure false
      else is_member_of_named_sets (lower (sender_domain req) ∷ [])
          e.config.adaptive.trusted_domain_lists

  trusted_by_address : Engine F World → PolicyRequest → Bool
  trusted_by_address e req =
      not (is_empty (or_empty req.client_address))
      && ip_matches_named_lists F e.config e.ip_addresses (or_empty req.client_address)
          e.config.adaptive.trusted_ip_lists

  unfoldable pub is_trusted_request :
      Engine F World → PolicyRequest → Text → Eff (RedisClient World) Bool
  unfolding trusted_accounts trusted_by_domain trusted_by_address
  is_trusted_request e req selector = do
    by_account ←
        is_member_of_named_sets (trusted_accounts req selector)
          e.config.adaptive.trusted_account_lists
    if by_account
        then pure true
        else do by_domain ← trusted_by_domain e req; pure (by_domain || trusted_by_address e req)

  -- The values that are collected before the trust of the request is asked for.
  class_multipliers : Engine F World → List Text → PolicyRequest → List Float
  class_multipliers e local_domains req =
      (if is_empty (or_empty req.sasl_username)
        then e.config.adaptive.unauthenticated_multiplier
        else e.config.adaptive.authenticated_multiplier)
      ∷ (if is_local_domain local_domains (sender_domain req)
          then e.config.adaptive.local_sender_multiplier ∷ []
          else if is_empty (sender_domain req)
          then []
          else e.config.adaptive.external_sender_multiplier ∷ [])

  unfoldable pub resolve_adaptive_multiplier :
      Engine F World → List Text → PolicyRequest → Text → Eff (RedisClient World) Float
  unfolding class_multipliers combined
  resolve_adaptive_multiplier e local_domains req selector = do
    trusted ← is_trusted_request e req selector
    let values =
        class_multipliers e local_domains req
        ++ (if trusted then e.config.adaptive.trusted_multiplier ∷ [] else [])
    pure (
        clamp_multiplier F e.config.adaptive.minimum_multiplier e.config.adaptive.maximum_multiplier
          (combined F values))

  -- What follows the multiplier.
  unfoldable pub adapt_with :
      List (RateLimit Float) → Float → Eff (Handler World) (List (RateLimit Float))
  adapt_with limits multiplier = if is_close_to_one multiplier then pure limits else do
    count Stats.inc_adaptive_adjustments
    count (
        if less one_float multiplier
        then Stats.inc_adaptive_relaxed
        else Stats.inc_adaptive_tightened)
    λ h. (scale_limits F multiplier limits, h)

  unfoldable pub apply_adaptive_limits :
      Engine F World
      → PolicyRequest
      → Text
      → List (RateLimit Float)
      → Eff (Handler World) (List (RateLimit Float))
  unfolding adapt_with
  apply_adaptive_limits e req selector limits h =
      if e.config.adaptive.enable
      then (do
        multiplier ← on_redis (resolve_adaptive_multiplier e h.local_domains req selector)
        adapt_with limits multiplier)
          h
      else (returned limits, h)
