-- ===== src/Handler/Unscheduled.antt =====
-- Unlock events of policyd_py/policy/handler.py and the schedule of the unlocks.
use policyd_py.Base.{
  ℕ, ◌≡◌, refl, Bool, Option, List, [], ◌∷◌, Text, codes, Eff, none, some, ap, pure, try_except,
  if◌then◌else◌, ◌>>=◌,
}
use policyd_py.Floats.{Floats}
use policyd_py.Config.{RateLimit}
use policyd_py.Outside.{Outside}
use policyd_py.Redis
use policyd_py.Redis.{execute}
use policyd_py.Handler.{Engine, Handler, Actions, on_redis}
use policyd_py.Handler.Events.{limits_from_metadata}
use policyd_py.Limiter.Usage.{get_usage}
use policyd_py.Handler.Locks.{store_lock_metadata, lock_key, limits_or_default}
use policyd_py.Handler.Background.{
  metadata_selector, suppressed, load_lock_metadata, any_exceeded, is_still_exceeding_limit,
  lift_outcome, store_again, extend_lock, clear_lock_keys, do_unlock, unlock_or_extend,
  process_with, process_unlock_event,
}

module _ (F : Floats) (o : Outside F.Float) (e : Engine F o.World)
    (z : Text → Text → ℕ → Eff o.World ℕ) where
  open F use {Float}
  open o use {World}

  any_exceeded_same :
      (s : Text) (ls : List (RateLimit Float))
      → any_exceeded F o e s ls ≡ any_exceeded F (record o { zadd = z }) e s ls
  unfolding any_exceeded get_usage Redis.hgetall execute
  any_exceeded_same s [] = refl
  any_exceeded_same s (l ∷ ls) = rw (any_exceeded_same s ls) refl

  exceeding_same :
      is_still_exceeding_limit F o e ≡ is_still_exceeding_limit F (record o { zadd = z }) e
  unfolding is_still_exceeding_limit
  exceeding_same i s ls = on_redis (any_exceeded_same s (limits_or_default F o e ls) i)

  -- The unlock, over the test of the limits.
  unlock_by :
      (Text → Option (List (RateLimit Float)) → Eff (Handler World) Bool)
      → Actions World
      → Text
      → Bool
      → Bool
      → Eff (Handler World) (Unit {0})
  unlock_by is_exceeding actions email force clear_lock = do
    metadata ← load_lock_metadata F o e email
    if force then do_unlock F o e actions email clear_lock else do
      limits ← lift_outcome F o e (limits_from_metadata F metadata)
      exceeding ← is_exceeding (metadata_selector F o e metadata email) limits
      if exceeding
          then extend_lock F o e email metadata limits
          else do_unlock F o e actions email clear_lock

  unlock_or_extend_same : unlock_or_extend F o e ≡ unlock_or_extend F (record o { zadd = z }) e
  unfolding unlock_by unlock_or_extend load_lock_metadata lift_outcome extend_lock store_again
      do_unlock clear_lock_keys store_lock_metadata Redis.get Redis.set Redis.zrem Redis.delete
      execute
  unlock_or_extend_same = ap unlock_by exceeding_same

  process_with_same :
      (manager : Option (Actions World))
      → process_with F o e manager ≡ process_with F (record o { zadd = z }) e manager
  unfolding process_with clear_lock_keys Redis.delete Redis.set execute
  process_with_same none i email force clear_lock =
      if clear_lock then suppressed F o e (clear_lock_keys F o e email) else pure tt
  process_with_same (some actions) i email force clear_lock =
      try_except (unlock_or_extend_same i actions email force clear_lock) (λ exc.
        suppressed F o e (on_redis (Redis.set o (lock_key email) (codes "Retry unlock") 60)))

  -- Whatever the command ZADD does, the processing of an unlock event is the same: no unlock event, on any
  -- branch, puts an account into the schedule of the unlocks. So an account whose lock is extended because
  -- it is still over its limits, or whose unlock is to be tried again after an error, is not in the
  -- schedule that the listener reads and has taken it out of.
  pub unlock_never_schedules :
      process_unlock_event F o e ≡ process_unlock_event F (record o { zadd = z }) e
  unfolding process_unlock_event
  unlock_never_schedules = process_with_same e.action_manager
