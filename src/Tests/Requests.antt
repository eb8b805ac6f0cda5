-- ===== src/Tests/Requests.antt =====
-- Requests, rules and events of the policy engine (policyd_py/policy) at work.
use policyd_py.Base.{
  ℕ, ◌≡◌, ◌≤◌, refl, Bool, true, false, none, some, List, [], ◌∷◌, ◌++◌, Text, codes, lower, arith,
  Outcome, returned, redis_error, raise, Eff,
}
use policyd_py.Base.Dict.{get}
use policyd_py.Models.{PolicyRequest, PolicyResponse, create_defer, parse_from_dict}
use policyd_py.Outside.{Outside}
use policyd_py.Redis
use policyd_py.Redis.{RedisClient, execute}
use policyd_py.Stats
use policyd_py.Matcher
use policyd_py.Matcher.{in_configured_lists, get_domain, is_in_list}
use policyd_py.Matcher.Selection.{Selects, match-Selects_first}
use policyd_py.Handler.{Handler, Engine}
use policyd_py.Handler.Answered.{Settled, handle-settles}
use policyd_py.Handler.Requests.{handle}
use policyd_py.Handler.Adaptive.{
  is_trusted_request, is_member_of_named_sets, value_in_set, apply_adaptive_limits,
}
use policyd_py.Handler.Adapted.{Returns, AreAdapted, adaptive_limits_keep_shape}
use policyd_py.Handler.Locks.{penalty_duration}
use policyd_py.Handler.Penalties.{penalty_never_shrinks}
use policyd_py.Handler.Background.{process_unlock_event}
use policyd_py.Handler.Unscheduled.{unlock_never_schedules}
use policyd_py.Handler.Events.{
  BackgroundEvent, to_dict, from_dict, without_empty, from_dict-to_dict,
}
use policyd_py.Tests.Outsides.{
  whole_numbers, over_limit, ten_per_hour, config, engine, client, handler, request,
}

handle-settles_example :
    Settled whole_numbers over_limit engine request handler.stats
      (handle whole_numbers over_limit engine request handler).1.stats
      (handle whole_numbers over_limit engine request handler).0
handle-settles_example = handle-settles whole_numbers over_limit engine request handler

match-Selects_first_example :
    Selects ℕ over_limit engine.matcher request config.limits.policies client
      (Matcher.match ℕ over_limit engine.matcher request client).1
      (Matcher.match ℕ over_limit engine.matcher request client).0
match-Selects_first_example = match-Selects_first ℕ over_limit engine.matcher request client

abbrev event : BackgroundEvent ℕ
event = record {
  kind = codes "lock";
  email = codes "a@b.de";
  selector = codes "a";
  message = codes "over";
  local_sender = true;
  limits = some (ten_per_hour ∷ []);
}

from_dict-to_dict_example :
    from_dict whole_numbers (to_dict whole_numbers event)
    ≡ returned (record event { limits = without_empty whole_numbers event.limits })
from_dict-to_dict_example = from_dict-to_dict whole_numbers event

penalty_never_shrinks_example :
    (first : ℕ) × (later : ℕ) × (((penalty_duration whole_numbers over_limit engine
          (60 ∷ 300 ∷ [])
          1
          handler).0
        ≡ returned first)
      × ((penalty_duration whole_numbers over_limit engine (60 ∷ 300 ∷ []) 5 handler).0
          ≡ returned later)
      × (1 ≤ first)
      × (first ≤ later))
penalty_never_shrinks_example =
    penalty_never_shrinks whole_numbers over_limit engine 60 (300 ∷ []) 1 5 handler handler
      (omega arith, tt) (omega arith)

nobody_is_trusted :
    (is_trusted_request whole_numbers over_limit engine request (codes "a") client).0
    ≡ returned false
unfolding is_trusted_request is_member_of_named_sets value_in_set Redis.sismember execute request
    parse_from_dict get policyd_py.Base.text_eq policyd_py.Models.sender_domain
    policyd_py.Base.split_on
nobody_is_trusted = refl

adaptive_limits_keep_shape_example :
    Returns whole_numbers
      (AreAdapted whole_numbers (ten_per_hour ∷ []))
      (apply_adaptive_limits whole_numbers over_limit engine request
        (codes "a")
        (ten_per_hour ∷ [])
        handler).0
unfolding handler
adaptive_limits_keep_shape_example =
    adaptive_limits_keep_shape whole_numbers over_limit engine request (codes "a")
      (ten_per_hour ∷ []) handler false nobody_is_trusted (λ x h. ((_, refl), tt))

-- ZADD that fails.
abbrev no_zadd : Text → Text → ℕ → Eff ℕ ℕ
no_zadd key member score = raise (redis_error (codes "READONLY"))

unlock_never_schedules_example :
    process_unlock_event whole_numbers over_limit engine
    ≡ process_unlock_event whole_numbers (record over_limit { zadd = no_zadd }) engine
unlock_never_schedules_example = unlock_never_schedules whole_numbers over_limit engine no_zadd

-- An answer, and the counters of accepted, rejected and deferred requests and of errors.
abbrev answer : Outcome PolicyResponse × Handler ℕ → Outcome PolicyResponse × ℕ × ℕ × ℕ × ℕ
answer (r, h) = (
  r, h.stats.total_accepted, h.stats.total_rejected, h.stats.total_deferred, h.stats.total_errors,
)

-- A request over its limit is deferred, also if its events cannot be queued.
deferred_once : answer (handle whole_numbers over_limit engine request handler) ≡ (
  returned (create_defer (codes "Rate limit exceeded: 20 messages per 3600s (current: 11)")),
  0,
  0,
  1,
  0,
)
unfolding handle request handler get policyd_py.Base.text_eq
    policyd_py.Validator.validate_sender_syntax create_defer policyd_py.Validator.email_re_match
    policyd_py.Base.split_once policyd_py.Validator.is_local_char policyd_py.Base.split_on
    policyd_py.Validator.is_label_char policyd_py.Validator.validate_recipient_syntax
    policyd_py.Validator.validate_recipient_deliverability
    policyd_py.Validator.check_sender_blacklist policyd_py.Validator.check_recipient_blacklist
    policyd_py.Validator.check_domain_blacklist policyd_py.Models.sender_domain
    policyd_py.Base.lower_code policyd_py.Handler.resolve_limits Matcher.match Matcher.rule_matches
    policyd_py.Handler.selector_of apply_adaptive_limits
    policyd_py.Handler.Adaptive.resolve_adaptive_multiplier is_trusted_request
    policyd_py.Handler.Adaptive.clamp_multiplier policyd_py.Handler.is_local_domain
    policyd_py.Handler.Adaptive.scale_limits policyd_py.Limiter.RateLimiter.check_limit
    policyd_py.Limiter.RateLimiter.check_single_limit
    policyd_py.Handler.Requests.handle_rate_limit_exceeded
    policyd_py.Handler.Background.enqueue_background_event Redis.lpush
    policyd_py.Handler.Locks.safe_lock_user_with_penalty Redis.exists Redis.incr Redis.expire
    Redis.setnx Redis.set Redis.zadd policyd_py.Limiter.RateLimiter.exceeded_message
    Stats.inc_users_locked policyd_py.Base.decimal Stats.inc_penalty_applied Stats.inc_deferred
    Stats.inc_rate_limited Stats.inc_adaptive_relaxed Stats.inc_adaptive_adjustments
    Stats.inc_requests
deferred_once = refl

-- The queue and the keys cannot be reached any more.
abbrev lost : Outside ℕ
lost = record over_limit { exists = λ key. raise (redis_error (codes "LOADING")) }

-- Then the request that is over its limit is answered by the action for errors, here DUNNO, and counts
-- as deferred and as an error.
let_through_over_limit :
    answer (handle whole_numbers lost engine request handler)
    ≡ (returned (record { action = codes "DUNNO"; message = none }), 0, 0, 1, 1)
unfolding handle request handler get policyd_py.Base.text_eq
    policyd_py.Validator.validate_sender_syntax policyd_py.Validator.email_re_match
    policyd_py.Base.split_once policyd_py.Validator.is_local_char policyd_py.Base.split_on
    policyd_py.Validator.is_label_char policyd_py.Validator.validate_recipient_syntax
    policyd_py.Validator.validate_recipient_deliverability
    policyd_py.Validator.check_sender_blacklist policyd_py.Validator.check_recipient_blacklist
    policyd_py.Validator.check_domain_blacklist policyd_py.Models.sender_domain
    policyd_py.Base.lower_code policyd_py.Handler.resolve_limits Matcher.match Matcher.rule_matches
    policyd_py.Handler.selector_of apply_adaptive_limits
    policyd_py.Handler.Adaptive.resolve_adaptive_multiplier is_trusted_request
    policyd_py.Handler.Adaptive.clamp_multiplier policyd_py.Handler.is_local_domain
    policyd_py.Handler.Adaptive.scale_limits policyd_py.Limiter.RateLimiter.check_limit
    policyd_py.Limiter.RateLimiter.check_single_limit
    policyd_py.Handler.Requests.handle_rate_limit_exceeded
    policyd_py.Handler.Background.enqueue_background_event Redis.lpush
    policyd_py.Handler.Locks.safe_lock_user_with_penalty Redis.exists Stats.inc_errors
    Stats.inc_deferred Stats.inc_rate_limited Stats.inc_adaptive_relaxed
    Stats.inc_adaptive_adjustments Stats.inc_requests
let_through_over_limit = refl
