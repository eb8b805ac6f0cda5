-- ===== src/Handler/Quiet/Background.antt =====
-- The counters of the answers while events are queued and unlocks processed
-- (policyd_py/policy/handler.py).
use policyd_py.Base.{
  Bool, true, false, Option, none, some, List, Text, Outcome, pure, if◌then◌else◌,
}
use policyd_py.Floats.{Floats}
use policyd_py.Json.{Fields}
use policyd_py.Config.{RateLimit}
use policyd_py.Models.{PolicyRequest, sender_domain}
use policyd_py.Outside.{Outside}
use policyd_py.Handler.{Engine, Handler, Actions, is_local_domain}
use policyd_py.Handler.Events.{BackgroundEvent}
use policyd_py.Handler.Background.{
  load_lock_metadata, is_still_exceeding_limit, lift_outcome, store_again, extend_lock,
  clear_lock_keys, do_unlock, unlock_or_extend, process_with, process_unlock_event,
  enqueue_fallback, enqueue_background_event,
}
use policyd_py.Handler.Requests.{lock_event, enqueue_lock_if_local, handle_rate_limit_exceeded}
use policyd_py.Handler.Quiet.{
  SameTally, SameTally-refl, Quiet, Quiet-pure, Quiet-outcome, quiet_rules,
}
use policyd_py.Handler.Quiet.Locks.{store_lock_metadata-Quiet, safe_lock_user_with_penalty-Quiet}

module _ (F : Floats) (o : Outside F.Float) (e : Engine F o.World) where
  open F use {Float}
  open o use {World}

  load_lock_metadata-Quiet : (email : Text) → Quiet (load_lock_metadata F o e email)
  unfolding load_lock_metadata
  load_lock_metadata-Quiet email = search (quiet_rules) depth 8

  lift_outcome-Quiet : {A : Type 0} (r : Outcome A) → Quiet (lift_outcome F o e r)
  unfolding lift_outcome
  lift_outcome-Quiet r = Quiet-outcome r

  is_still_exceeding_limit-Quiet :
      (selector : Text) (limits : Option (List (RateLimit Float)))
      → Quiet (is_still_exceeding_limit F o e selector limits)
  unfolding is_still_exceeding_limit
  is_still_exceeding_limit-Quiet selector limits = search (quiet_rules) depth 8

  store_again-Quiet :
      (email : Text) (metadata : Option (Fields Float)) (limits : Option (List (RateLimit Float)))
      → Quiet (store_again F o e email metadata limits)
  unfolding store_again
  store_again-Quiet email none limits = Quiet-pure tt
  store_again-Quiet email (some metadata) limits =
      search (quiet_rules, store_lock_metadata-Quiet) depth 8

  extend_lock-Quiet :
      (email : Text) (metadata : Option (Fields Float)) (limits : Option (List (RateLimit Float)))
      → Quiet (extend_lock F o e email metadata limits)
  unfolding extend_lock
  extend_lock-Quiet email metadata limits = search (quiet_rules, store_again-Quiet) depth 8

  clear_lock_keys-Quiet : (email : Text) → Quiet (clear_lock_keys F o e email)
  unfolding clear_lock_keys
  clear_lock_keys-Quiet email = search (quiet_rules) depth 8

  do_unlock-Quiet :
      (actions : Actions World) (email : Text) (clear_lock : Bool)
      → Quiet (do_unlock F o e actions email clear_lock)
  unfolding do_unlock
  do_unlock-Quiet actions email clear_lock = search (quiet_rules, clear_lock_keys-Quiet) depth 10

  unlock_or_extend-Quiet :
      (actions : Actions World) (email : Text) (force clear_lock : Bool)
      → Quiet (unlock_or_extend F o e actions email force clear_lock)
  unfolding unlock_or_extend
  unlock_or_extend-Quiet actions email force clear_lock =
      search
        (
          quiet_rules, load_lock_metadata-Quiet, lift_outcome-Quiet, extend_lock-Quiet,
          do_unlock-Quiet,
        )
        depth 10

  process_with-Quiet :
      (manager : Option (Actions World)) (email : Text) (force clear_lock : Bool)
      → Quiet (process_with F o e manager email force clear_lock)
  unfolding process_with
  process_with-Quiet none email force clear_lock =
      search (quiet_rules, clear_lock_keys-Quiet) depth 8
  process_with-Quiet (some actions) email force clear_lock =
      search (quiet_rules, unlock_or_extend-Quiet) depth 8

  process_unlock_event-Quiet :
      (email : Text) (force clear_lock : Bool)
      → Quiet (process_unlock_event F o e email force clear_lock)
  unfolding process_unlock_event
  process_unlock_event-Quiet = process_with-Quiet e.action_manager

  enqueue_fallback-Quiet : (event : BackgroundEvent Float) → Quiet (enqueue_fallback F o e event)
  unfolding enqueue_fallback
  enqueue_fallback-Quiet event =
      search (quiet_rules, safe_lock_user_with_penalty-Quiet, process_unlock_event-Quiet) depth 8

  enqueue_background_event-Quiet :
      (event : BackgroundEvent Float) → Quiet (enqueue_background_event F o e event)
  unfolding enqueue_background_event
  enqueue_background_event-Quiet event = search (quiet_rules, enqueue_fallback-Quiet) depth 8

  if_local-quiet :
      (local : Bool) (event : BackgroundEvent Float) (h : Handler World)
      → SameTally h.stats
          (if local then enqueue_background_event F o e event h else pure tt h).1.stats
  if_local-quiet true event h = (enqueue_background_event-Quiet event).at h
  if_local-quiet false event h = SameTally-refl h.stats

  enqueue_lock_if_local-Quiet :
      (req : PolicyRequest) (selector message : Text) (limits : List (RateLimit Float))
      → Quiet (enqueue_lock_if_local F o e req selector message limits)
  unfolding enqueue_lock_if_local
  enqueue_lock_if_local-Quiet req selector message limits = record {
    at = λ h.
        if_local-quiet (is_local_domain h.local_domains (sender_domain req))
          (lock_event F o e req selector message limits) h;
  }

  pub handle_rate_limit_exceeded-Quiet :
      (req : PolicyRequest) (selector message : Text) (limits : List (RateLimit Float))
      → Quiet (handle_rate_limit_exceeded F o e req selector message limits)
  unfolding handle_rate_limit_exceeded
  handle_rate_limit_exceeded-Quiet req selector message limits =
      search (quiet_rules, enqueue_lock_if_local-Quiet, enqueue_background_event-Quiet) depth 8
