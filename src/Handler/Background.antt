-- ===== src/Handler/Background.antt =====
-- Background events of policyd_py/policy/handler.py: unlocks, the queue in Redis and its workers.
use policyd_py.Base.{
  ℕ, Bool, true, false, Option, none, some, List, [], ◌∷◌, leb, if◌then◌else◌, Text, codes, text_eq,
  value_error, Outcome, returned, raised, Eff, pure, try_except, ◌>>=◌, ◌>>◌,
}
use policyd_py.Floats.{Floats}
use policyd_py.Json.{Json, Fields, object, text, end, field, member}
use policyd_py.Config.{RateLimit}
use policyd_py.Outside.{Outside}
use policyd_py.Redis
use policyd_py.Redis.{RedisClient}
use policyd_py.Limiter.Usage.{get_usage}
use policyd_py.Handler.{Engine, Handler, Actions, on_redis, on_world}
use policyd_py.Handler.Events.{BackgroundEvent, to_dict, from_dict, limits_from_metadata}
use policyd_py.Handler.Locks.{
  lock_key, metadata_key, scheduled_unlocks, store_lock_metadata, safe_lock_user_with_penalty,
  safe_notify, limits_or_default,
}

abbrev pub bg_tasks : Text
bg_tasks = codes "policyd:bg_tasks"

module _ (F : Floats) (o : Outside F.Float) (e : Engine F o.World) where
  open F use {Float}
  open o use {World, time}
  open e use {config, notifier, codec}

  -- json.loads of the stored text: what is no JSON is None, and so is the empty object wherever it is
  -- tested. Another value than an object, which the
  -- program never stores, is refused here and not where it is used.
  abbrev metadata_of : Option (Json Float) → Outcome (Option (Fields Float))
  metadata_of none = returned none
  metadata_of (some (object end)) = returned none
  metadata_of (some (object (field k v fs))) = returned (some (field k v fs))
  metadata_of (some j) = raised (value_error (codes "lock metadata"))

  abbrev read_metadata : Option Text → Outcome (Option (Fields Float))
  read_metadata none = returned none
  read_metadata (some []) = returned none
  read_metadata (some (c ∷ raw)) = metadata_of (codec.loads (c ∷ raw))

  unfoldable pub load_lock_metadata : Text → Eff (Handler World) (Option (Fields Float))
  load_lock_metadata email = do
    raw ← on_redis (Redis.get o (metadata_key email))
    λ h. (read_metadata raw, h)

  -- `metadata.get("selector")`, and the address where there is none or it is empty
  abbrev text_or_address : Option (Json Float) → Text → Text
  text_or_address (some (text (c ∷ s))) email = c ∷ s
  text_or_address _ email = email

  abbrev pub metadata_selector : Option (Fields Float) → Text → Text
  metadata_selector none email = email
  metadata_selector (some metadata) email =
      text_or_address (member (codes "selector") metadata) email

  -- The loop of `_is_still_exceeding_limit`.
  unfoldable pub any_exceeded : Text → List (RateLimit Float) → Eff (RedisClient World) Bool
  any_exceeded selector [] = pure false
  any_exceeded selector (limit ∷ limits) =
      let rest = any_exceeded selector limits in
      if limit.unlimited then rest else do
        usage ← get_usage F o selector limit
        if leb limit.count usage then pure true else rest

  unfoldable pub is_still_exceeding_limit :
      Text → Option (List (RateLimit Float)) → Eff (Handler World) Bool
  unfolding any_exceeded
  is_still_exceeding_limit selector limits =
      on_redis (any_exceeded selector (limits_or_default F o e limits))

  unfoldable pub lift_outcome : {A : Type 0} → Outcome A → Eff (Handler World) A
  lift_outcome r h = (r, h)

  unfoldable pub store_again :
      Text
      → Option (Fields Float)
      → Option (List (RateLimit Float))
      → Eff (Handler World) (Unit {0})
  store_again email none limits = pure tt
  store_again email (some metadata) limits = do
    store_lock_metadata F o e email (metadata_selector (some metadata) email) limits
        config.locks.lock_duration
    pure tt

  -- The lock is set anew, and the address stays locked.
  unfoldable pub extend_lock :
      Text
      → Option (Fields Float)
      → Option (List (RateLimit Float))
      → Eff (Handler World) (Unit {0})
  unfolding store_again
  extend_lock email metadata limits = do
    on_redis (
        Redis.set o (lock_key email) (codes "Extended: still exceeding limit")
          config.locks.lock_duration)
    store_again email metadata limits

  -- with contextlib.suppress(Exception)
  abbrev pub suppressed : {A : Type 0} → Eff (Handler World) A → Eff (Handler World) (Unit {0})
  suppressed m = try_except (do m; pure tt) (λ exc. pure tt)

  unfoldable pub clear_lock_keys : Text → Eff (Handler World) ℕ
  clear_lock_keys email = do
    on_redis (Redis.delete o (lock_key email))
    on_redis (Redis.delete o (metadata_key email))

  unfoldable pub do_unlock : Actions World → Text → Bool → Eff (Handler World) (Unit {0})
  unfolding clear_lock_keys
  do_unlock actions email clear_lock = do
    on_world (actions.unlock_account email)
    if clear_lock
        then suppressed (do
          clear_lock_keys email
          on_redis (Redis.zrem o scheduled_unlocks (lock_key email ∷ [])))
        else pure tt
    on_world (notifier.notify_user_unlocked email)

  -- The `try` block of `_process_unlock_event`. The limits of the metadata are read before the usage
  -- is asked for, and only where the unlock is not forced.
  unfoldable pub unlock_or_extend :
      Actions World → Text → Bool → Bool → Eff (Handler World) (Unit {0})
  unfolding load_lock_metadata is_still_exceeding_limit lift_outcome extend_lock do_unlock
  unlock_or_extend actions email force clear_lock = do
    metadata ← load_lock_metadata email
    if force then do_unlock actions email clear_lock else do
      limits ← lift_outcome (limits_from_metadata F metadata)
      exceeding ← is_still_exceeding_limit (metadata_selector metadata email) limits
      if exceeding then extend_lock email metadata limits else do_unlock actions email clear_lock

  unfoldable pub process_with :
      Option (Actions World) → Text → Bool → Bool → Eff (Handler World) (Unit {0})
  unfolding unlock_or_extend
  process_with none email force clear_lock =
      if clear_lock then suppressed (clear_lock_keys email) else pure tt
  process_with (some actions) email force clear_lock =
      try_except (unlock_or_extend actions email force clear_lock)
        (λ exc. suppressed (on_redis (Redis.set o (lock_key email) (codes "Retry unlock") 60)))

  unfoldable pub process_unlock_event : Text → Bool → Bool → Eff (Handler World) (Unit {0})
  unfolding process_with
  process_unlock_event = process_with e.action_manager

  -- What the failed enqueueing of an event falls back to.
  unfoldable pub enqueue_fallback : BackgroundEvent Float → Eff (Handler World) (Unit {0})
  enqueue_fallback event =
      if text_eq event.kind (codes "lock")
      then safe_lock_user_with_penalty F o e event.email event.selector event.message event.limits
      else if text_eq event.kind (codes "unlock")
      then process_unlock_event event.email false false
      else pure tt

  -- `drop_if_full` is not read by the code.
  unfoldable pub enqueue_background_event : BackgroundEvent Float → Eff (Handler World) (Unit {0})
  unfolding enqueue_fallback
  enqueue_background_event event =
      try_except
        (do on_redis (Redis.lpush o bg_tasks (codec.dumps (object (to_dict F event)))); pure tt)
        (λ exc. enqueue_fallback event)

  -- The dispatch of one event by a worker; an unknown kind is logged.
  unfoldable pub run_event : BackgroundEvent Float → Eff (Handler World) (Unit {0})
  run_event event =
      if text_eq event.kind (codes "lock")
      then safe_lock_user_with_penalty F o e event.email event.selector event.message event.limits
      else if text_eq event.kind (codes "notify")
      then safe_notify F o e event.selector event.message
      else if text_eq event.kind (codes "unlock")
      then process_unlock_event event.email false false
      else pure tt

  abbrev event_of : Option (Json Float) → Outcome (BackgroundEvent Float)
  event_of (some (object fs)) = from_dict F fs
  event_of _ = raised (value_error (codes "not an event"))

  run_payload : Option Text → Eff (Handler World) (Unit {0})
  unfolding run_event lift_outcome
  run_payload none = pure tt
  run_payload (some payload) = do
    event ← lift_outcome (event_of (codec.loads payload))
    run_event event

  -- One round of `_background_worker`: an error ends the round and not the worker.
  unfoldable pub worker_round : Eff (Handler World) (Unit {0})
  unfolding run_payload
  worker_round =
      try_except (do payload ← on_redis (Redis.brpop o bg_tasks); run_payload payload)
        (λ exc. pure tt)
