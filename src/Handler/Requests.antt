-- ===== src/Handler/Requests.antt =====
-- `PolicyHandler.handle` of policyd_py/policy/handler.py: what one request is answered.
use policyd_py.Base.{
  Bool, true, false, not, ◌&&◌, Option, none, some, List, [], ◌∷◌, any, is_empty, if◌then◌else◌,
  Text, codes, text_eq, Exception, returned, Eff, pure, try_except, ◌>>=◌, ◌>>◌,
}
use policyd_py.Floats.{Floats}
use policyd_py.Config.{RateLimit, PolicyRule, sliding_window_counter}
use policyd_py.Models.{
  PolicyRequest, PolicyResponse, or_empty, sender_domain, create_dunno, create_defer, create_reject,
}
use policyd_py.Stats
use policyd_py.Outside.{Outside}
use policyd_py.Limiter.RateLimiter
use policyd_py.Limiter.RateLimiter.{Verdict, permitted, exceeded, failed}
use policyd_py.Validator.{
  validate_sender_syntax, validate_recipient_syntax, validate_recipient_deliverability,
  check_sender_blacklist, check_recipient_blacklist, check_domain_blacklist,
}
use policyd_py.Matcher
use policyd_py.Handler.{
  Engine, Handler, on_world, count, selector_of, is_local_domain, resolve_limits,
}
use policyd_py.Handler.Adaptive.{apply_adaptive_limits}
use policyd_py.Handler.Events.{BackgroundEvent}
use policyd_py.Handler.Background.{enqueue_background_event}

module _ (F : Floats) (o : Outside F.Float) (e : Engine F o.World) where
  open F use {Float}
  open o use {World}
  open e use {config, validator}

  abbrev pub Answer : Type 0
  Answer = Eff (Handler World) PolicyResponse

  -- PolicyResponse(action=self.config.actions.db_error_action)
  abbrev pub db_error_response : PolicyResponse
  db_error_response = record { action = config.actions.db_error_action; message = none }

  unfoldable pub accept : Answer
  accept = do count Stats.inc_accepted; pure create_dunno

  -- `_validation_response`
  unfoldable pub validation_response : Text → Bool → Answer
  unfolding accept
  validation_response message blacklisted = do
    count (if blacklisted then Stats.inc_blacklisted else Stats.inc_validation_errors)
    if config.validation.monitor_only
        then accept
        else do count Stats.inc_rejected; pure (create_reject message)

  -- `_handle_rate_limit_exceeded`
  unfoldable pub lock_event :
      PolicyRequest → Text → Text → List (RateLimit Float) → BackgroundEvent Float
  lock_event req selector message limits = record {
    kind = codes "lock";
    email = or_empty req.sender;
    selector = selector;
    message = message;
    local_sender = true;
    limits = some limits;
  }

  unfoldable pub notify_event : Text → Text → BackgroundEvent Float
  notify_event selector message = record {
    kind = codes "notify";
    email = [];
    selector = selector;
    message = message;
    local_sender = false;
    limits = none;
  }

  unfoldable pub enqueue_lock_if_local :
      PolicyRequest → Text → Text → List (RateLimit Float) → Eff (Handler World) (Unit {0})
  unfolding lock_event
  enqueue_lock_if_local req selector message limits h =
      if is_local_domain h.local_domains (sender_domain req)
      then enqueue_background_event F o e (lock_event req selector message limits) h
      else pure tt h

  unfoldable pub handle_rate_limit_exceeded :
      PolicyRequest → Text → Text → List (RateLimit Float) → Eff (Handler World) (Unit {0})
  unfolding enqueue_lock_if_local notify_event
  handle_rate_limit_exceeded req selector message limits = do
    enqueue_lock_if_local req selector message limits
    enqueue_background_event F o e (notify_event selector message)

  -- What follows the check of the limits.
  unfoldable pub answer_verdict : PolicyRequest → Text → List (RateLimit Float) → Verdict → Answer
  unfolding accept
  answer_verdict req selector limits (failed exc) = do
    count Stats.inc_errors
    pure db_error_response
  answer_verdict req selector limits (exceeded info) = do
    count Stats.inc_rate_limited
    count Stats.inc_deferred
    handle_rate_limit_exceeded req selector info limits
    pure (create_defer info)
  answer_verdict req selector limits (permitted info) = accept

  unfoldable pub first_is_unlimited : List (RateLimit Float) → Bool
  first_is_unlimited [] = false
  first_is_unlimited (limit ∷ limits) = limit.unlimited

  unfoldable pub is_sliding : RateLimit Float → Bool
  is_sliding limit = not limit.unlimited && text_eq limit.algorithm sliding_window_counter

  unfoldable pub check_limits_of : Text → List (RateLimit Float) → Eff (Handler World) Verdict
  check_limits_of selector limits h =
      let (verdict, c) =
        RateLimiter.check_limit F o e.scripts e.ratelimit_engine selector limits h.redis in
      (returned verdict, record h { redis = c })

  -- The limits that apply, once they are adapted.
  unfoldable pub answer_limits : PolicyRequest → Text → List (RateLimit Float) → Answer
  unfolding first_is_unlimited is_sliding check_limits_of answer_verdict
  answer_limits req selector limits = if first_is_unlimited limits then accept else do
    if any is_sliding limits then count Stats.inc_sliding_window_checks else pure tt
    verdict ← check_limits_of selector limits
    answer_verdict req selector limits verdict

  unfoldable pub match_policy : PolicyRequest → Eff (Handler World) (Option PolicyRule)
  match_policy req h =
      let (policy, c) = Matcher.match F.Float o e.matcher req h.redis in
      (returned policy, record h { redis = c })

  -- From the match of the policy on.
  unfoldable pub answer_policy : PolicyRequest → Answer
  unfolding match_policy answer_limits
  answer_policy req = do
    policy ← match_policy req
    let limits = resolve_limits F config policy
    if is_empty limits then accept else do
      if is_empty (selector_of req) then accept else do
        adapted ← apply_adaptive_limits F o e req (selector_of req) limits
        answer_limits req (selector_of req) adapted

  -- The three blacklists in turn, and then the policy.
  unfoldable pub answer_blacklists : PolicyRequest → Answer
  unfolding validation_response answer_policy
  answer_blacklists req =
      let by_sender = check_sender_blacklist validator (or_empty req.sender) in
      let by_recipient = check_recipient_blacklist validator (or_empty req.recipient) in
      let by_domain = check_domain_blacklist validator (sender_domain req) in
      if by_sender.0
      then validation_response by_sender.1 true
      else if by_recipient.0
      then validation_response by_recipient.1 true
      else if by_domain.0
      then validation_response by_domain.1 true
      else answer_policy req

  -- The syntax checks and the resolver check, and then the blacklists.
  unfoldable pub answer_checked : PolicyRequest → Answer
  unfolding answer_blacklists
  answer_checked req =
      let by_sender = validate_sender_syntax validator (or_empty req.sender) in
      let by_recipient = validate_recipient_syntax validator (or_empty req.recipient) in
      if not by_sender.0
      then validation_response by_sender.1 false
      else if not by_recipient.0
      then validation_response by_recipient.1 false
      else do
        deliverable ←
            on_world (validate_recipient_deliverability o validator (or_empty req.recipient))
        if not deliverable.0 then validation_response deliverable.1 false else answer_blacklists req

  -- req.protocol_state != self.config.limits.policy_check_state
  abbrev is_check_state : Option Text → Text → Bool
  is_check_state none check_state = false
  is_check_state (some s) check_state = text_eq s check_state

  unfoldable pub answer_request : PolicyRequest → Answer
  unfolding answer_checked
  answer_request req =
      if not config.limits.enable_policyd
      then accept
      else if not (is_check_state req.protocol_state config.limits.policy_check_state)
      then accept
      else answer_checked req

  -- The `except` clause of `handle`.
  unfoldable pub answer_error : Exception → Answer
  answer_error exc = do count Stats.inc_errors; pure db_error_response

  unfoldable pub handle : PolicyRequest → Answer
  unfolding answer_request answer_error
  handle req = do count Stats.inc_requests; try_except (answer_request req) answer_error
