-- ===== src/Handler/Locks.antt =====
-- Locks and penalties of policyd_py/policy/handler.py.
use policyd_py.Base.{
  ℕ, ◌+◌, ◌-◌, ◌/◌, Bool, not, ◌||◌, Option, none, some, List, [], ◌∷◌, ◌++◌, min, max, length, ltb,
  ◌==◌, is_empty, if◌then◌else◌, Text, codes, lower, Eff, pure, try_except, ◌>>=◌, ◌>>◌,
}
use policyd_py.Floats.{Floats}
use policyd_py.Json.{object}
use policyd_py.Config.{RateLimit}
use policyd_py.Stats
use policyd_py.Outside.{Outside}
use policyd_py.Redis
use policyd_py.Redis.{RedisClient}
use policyd_py.Handler.{Engine, Handler, Actions, on_redis, on_world, count}
use policyd_py.Handler.Events.{lock_metadata}

abbrev pub lock_key : Text → Text
lock_key email = codes "lock:" ++ email

abbrev pub metadata_key : Text → Text
metadata_key email = codes "lockmeta:" ++ email

abbrev pub penalty_key : Text → Text
penalty_key selector = codes "penalty:" ++ selector

abbrev pub notify_key : Text → Text
notify_key selector = codes "notify:" ++ selector

abbrev pub scheduled_unlocks : Text
scheduled_unlocks = codes "policyd:scheduled_unlocks"

-- steps[index]; the index that is computed is in range
unfoldable pub get_step : List ℕ → ℕ → ℕ
get_step [] i = 0
get_step (d ∷ steps) i = let rest = get_step steps (i - 1) in if i == 0 then d else rest

-- `self.config.penalty.steps or [default_duration]`
abbrev pub steps_or : List ℕ → ℕ → List ℕ
steps_or [] default_duration = default_duration ∷ []
steps_or (d ∷ steps) default_duration = d ∷ steps

-- min(max(count - 1, 0), len(steps) - 1); the subtractions stop at 0 where the code takes the maximum
unfoldable pub step_index : ℕ → List ℕ → ℕ
step_index violations steps = min (violations - 1) (length steps - 1)

module _ (F : Floats) (o : Outside F.Float) (e : Engine F o.World) where
  open F use {Float}
  open o use {World, time}
  open e use {config, notifier, codec}

  unfoldable pub penalty_duration : List ℕ → ℕ → Eff (Handler World) ℕ
  unfolding step_index get_step
  penalty_duration steps violations = do
    count Stats.inc_penalty_applied
    if ltb 0 (step_index violations steps) then count Stats.inc_penalty_escalations else pure tt
    pure (max 1 (get_step steps (step_index violations steps)))

  unfoldable pub resolve_lock_duration : Text → Eff (Handler World) ℕ
  unfolding penalty_duration
  resolve_lock_duration selector =
      let default_duration = max 1 config.locks.lock_duration in
      if not config.penalty.enable || is_empty selector then pure default_duration else do
        violations ← on_redis (Redis.incr o (penalty_key (lower selector)))
        on_redis (Redis.expire o (penalty_key (lower selector)) (max 1 config.penalty.ttl))
        penalty_duration (steps_or config.penalty.steps default_duration) violations

  -- `limits or self.config.limits.default_quota`
  abbrev pub limits_or_default : Option (List (RateLimit Float)) → List (RateLimit Float)
  limits_or_default none = config.limits.default_quota
  limits_or_default (some []) = config.limits.default_quota
  limits_or_default (some (limit ∷ limits)) = limit ∷ limits

  unfoldable pub store_lock_metadata :
      Text → Text → Option (List (RateLimit Float)) → ℕ → Eff (Handler World) Bool
  store_lock_metadata email selector limits ttl_seconds = on_redis (
      Redis.set o (metadata_key email)
        (codec.dumps (object (lock_metadata F selector (limits_or_default limits)))) ttl_seconds)

  -- `lock_duration or self.config.locks.lock_duration`
  abbrev duration_or : Option ℕ → ℕ → ℕ
  duration_or none default = default
  duration_or (some d) default = if d == 0 then default else d

  -- `selector or email`
  abbrev selector_or : Option Text → Text → Text
  selector_or none email = email
  selector_or (some []) email = email
  selector_or (some (c ∷ s)) email = c ∷ s

  -- int(time.time()) + applied_duration
  unfoldable pub schedule_unlock : Text → ℕ → Eff (Handler World) ℕ
  schedule_unlock email applied_duration h =
      on_redis
        (Redis.zadd o scheduled_unlocks (lock_key email)
          (time h.redis.world / 1000000 + applied_duration))
        h

  -- The calls that only an action manager brings.
  unfoldable pub with_manager_schedule :
      Option (Actions World) → Text → ℕ → Eff (Handler World) (Unit {0})
  unfolding schedule_unlock
  with_manager_schedule none email d = pure tt
  with_manager_schedule (some actions) email d = do schedule_unlock email d; pure tt

  unfoldable pub with_manager_lock :
      Option (Actions World) → Text → Text → Eff (Handler World) (Unit {0})
  with_manager_lock none email reason = pure tt
  with_manager_lock (some actions) email reason = on_world (actions.lock_account email reason)

  -- The rest of the `try` block of `_safe_lock_user`, once the key is set.
  unfoldable pub lock_acquired :
      Text → Text → ℕ → Text → Option (List (RateLimit Float)) → Eff (Handler World) (Unit {0})
  unfolding store_lock_metadata with_manager_schedule with_manager_lock
  lock_acquired email reason applied_duration selector limits = do
    store_lock_metadata email selector limits applied_duration
    with_manager_schedule e.action_manager email applied_duration
    count Stats.inc_users_locked
    with_manager_lock e.action_manager email reason
    on_world (notifier.notify_user_locked email applied_duration)

  unfoldable pub safe_lock_user :
      Text
      → Text
      → Option ℕ
      → Option Text
      → Option (List (RateLimit Float))
      → Eff (Handler World) (Unit {0})
  unfolding lock_acquired
  safe_lock_user email reason lock_duration selector limits =
      let applied_duration = max 1 (duration_or lock_duration config.locks.lock_duration) in
      if is_empty email
      then pure tt
      else try_except
          (do
            acquired ← on_redis (Redis.setnx o (lock_key email) reason applied_duration)
            if acquired
                then lock_acquired email reason applied_duration (selector_or selector email) limits
                else pure tt)
          (λ exc. pure tt)

  unfoldable pub safe_lock_user_with_penalty :
      Text → Text → Text → Option (List (RateLimit Float)) → Eff (Handler World) (Unit {0})
  unfolding resolve_lock_duration safe_lock_user
  safe_lock_user_with_penalty email selector reason limits = if is_empty email then pure tt else do
    locked ← on_redis (Redis.exists o (lock_key email))
    if locked then pure tt else do
      lock_duration ← resolve_lock_duration selector
      safe_lock_user email reason (some lock_duration) (some selector) limits

  -- `_safe_notify`
  unfoldable pub safe_notify : Text → Text → Eff (Handler World) (Unit {0})
  safe_notify selector message =
      try_except
        (do
          sent ← on_redis (Redis.exists o (notify_key selector))
          if sent then pure tt else do
            on_redis (
                Redis.set o (notify_key selector) (codes "sent")
                  (max config.locks.lock_duration 3600))
            on_world (notifier.notify_rate_limit selector message))
        (λ exc. pure tt)
