-- ===== src/Handler/Answered.antt =====
-- What `handle` of policyd_py/policy/handler.py answers a request, and how its counters move with the
-- answer.
use policyd_py.Base.{◌≡◌, false, arith, Text, Exception, Outcome, returned, handle_with}
use policyd_py.Floats.{Floats}
use policyd_py.Models.{PolicyRequest, PolicyResponse, create_dunno, create_defer, create_reject}
use policyd_py.Stats
use policyd_py.Stats.{RuntimeStats}
use policyd_py.Outside.{Outside}
use policyd_py.Handler.{Engine, Handler}
use policyd_py.Handler.Requests.{db_error_response, answer_request, answer_error, handle}
use policyd_py.Handler.Accounting.{
  Moved, Accounted, QueueingRaised, accepted, rejected, deferred, unavailable, broken, broken_off,
  answer_request-Accounts,
}

module _ (F : Floats) (o : Outside F.Float) (e : Engine F o.World) where
  open F use {Float}
  open o use {World}

  -- What a request is answered, with the movement of the counters.
  pub data Settled (req : PolicyRequest) (s s' : RuntimeStats)
      : Outcome PolicyResponse → Type 0 where
    dunno : Moved s s' 1 1 0 0 0 → Settled req s s' (returned create_dunno)
    reject :
        (message : Text)
        → e.config.validation.monitor_only ≡ false
        → Moved s s' 1 0 1 0 0
        → Settled req s s' (returned (create_reject message))
    defer :
        (message : Text) → Moved s s' 1 0 0 1 0 → Settled req s s' (returned (create_defer message))
    db_error : Moved s s' 1 0 0 0 1 → Settled req s s' (returned (db_error_response F o e))
    db_error_after_defer :
        (exc : Exception)
        → QueueingRaised F o e req exc
        → Moved s s' 1 0 0 1 1
        → Settled req s s' (returned (db_error_response F o e))

  settles :
      (req : PolicyRequest) (s : RuntimeStats) (r : Outcome PolicyResponse) (h : Handler World)
      → Accounted F o e req (Stats.inc_requests s) h.stats r
      → Settled req s
          (handle_with (answer_error F o e) r h).1.stats
          (handle_with (answer_error F o e) r h).0
  unfolding Stats.inc_requests Stats.inc_errors answer_error
  settles req s _ h (accepted m) = dunno (omega arith)
  settles req s _ h (rejected message b m) = reject message b (omega arith)
  settles req s _ h (deferred message m) = defer message (omega arith)
  settles req s _ h (unavailable m) = db_error (omega arith)
  settles req s _ h (broken exc m) = db_error (omega arith)
  settles req s _ h (broken_off exc q m) = db_error_after_defer exc q (omega arith)

  -- For every request, in every state and whatever Redis, the resolver, the notifier and the action
  -- manager do, `handle` returns a response and does not raise. It counts one request, and the response
  -- is: DUNNO, counted as accepted; REJECT, counted as rejected, and only where validation is not in the
  -- monitoring mode; DEFER, counted as deferred; or the action configured for errors, counted as an
  -- error, and as deferred too only if a check found the request over one of its limits and the queueing of
  -- its events then raised.
  -- No other of these five counters moves.
  pub handle-settles :
      (req : PolicyRequest) (h : Handler World)
      → Settled req h.stats (handle F o e req h).1.stats (handle F o e req h).0
  unfolding handle
  handle-settles req h =
      settles req h.stats
        (answer_request F o e req (record h { stats = Stats.inc_requests h.stats })).0
        (answer_request F o e req (record h { stats = Stats.inc_requests h.stats })).1
        ((answer_request-Accounts F o e req).at (record h { stats = Stats.inc_requests h.stats }))
