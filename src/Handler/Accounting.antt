-- ===== src/Handler/Accounting.antt =====
-- How the counters of policyd_py/policy/handler.py move inside the `try` block of `handle`, part by part.
use policyd_py.Base.{
  ℕ, ◌+◌, ◌≡◌, refl, Bool, true, false, List, any, arith, if◌then◌else◌, Text, Exception, Outcome,
  returned, raised, Eff, pure, continue, ◌>>=◌, ◌>>◌,
}
use policyd_py.Floats.{Floats}
use policyd_py.Config.{RateLimit}
use policyd_py.Models.{PolicyRequest, PolicyResponse, create_dunno, create_defer, create_reject}
use policyd_py.Stats
use policyd_py.Stats.{RuntimeStats}
use policyd_py.Outside.{Outside}
use policyd_py.Limiter.RateLimiter
use policyd_py.Limiter.RateLimiter.{Verdict, permitted, exceeded, failed}
use policyd_py.Handler.{Engine, Handler, count}
use policyd_py.Handler.Requests.{
  Answer, db_error_response, accept, validation_response, handle_rate_limit_exceeded,
  answer_verdict, is_sliding, check_limits_of, answer_limits, match_policy, answer_policy,
  answer_blacklists, answer_checked, answer_request,
}
use policyd_py.Handler.Quiet.{SameTally, SameTally-refl, Quiet, Quiet-pure, Quiet-if, quiet_rules}
use policyd_py.Handler.Quiet.Locks.{apply_adaptive_limits-Quiet}
use policyd_py.Handler.Quiet.Background.{handle_rate_limit_exceeded-Quiet}

-- How far each of the counters moves.
pub record Moved (s s' : RuntimeStats) (requests accepted rejected deferred errors : ℕ)
    : Type 0 where
  pub by_requests : s'.total_requests ≡ s.total_requests + requests
  pub by_accepted : s'.total_accepted ≡ s.total_accepted + accepted
  pub by_rejected : s'.total_rejected ≡ s.total_rejected + rejected
  pub by_deferred : s'.total_deferred ≡ s.total_deferred + deferred
  pub by_errors : s'.total_errors ≡ s.total_errors + errors

after_quiet :
    {s t u : RuntimeStats} {r a j d x : ℕ}
    → SameTally s t
    → Moved t u r a j d x
    → Moved s u r a j d x
after_quiet p q = omega arith

before_quiet :
    {s t u : RuntimeStats} {r a j d x : ℕ}
    → Moved s t r a j d x
    → SameTally t u
    → Moved s u r a j d x
before_quiet p q = omega arith

module _ (F : Floats) (o : Outside F.Float) (e : Engine F o.World) (req : PolicyRequest) where
  open F use {Float}
  open o use {World}

  abbrev pub counted : Handler World → Handler World
  counted h = record h { stats = Stats.inc_deferred (Stats.inc_rate_limited h.stats) }

  -- A check of limits found the request over one of them, and queueing its events after that raised.
  pub record QueueingRaised (exc : Exception) : Type 0 where
    pub selector : Text
    pub limits : List (RateLimit Float)
    pub info : Text
    pub before : Handler World
    pub over : (check_limits_of F o e selector limits before).0 ≡ returned (exceeded info)
    pub queueing :
        (handle_rate_limit_exceeded F o e req selector info limits
          (counted (check_limits_of F o e selector limits before).1)).0
        ≡ raised exc

  -- How the counters move inside the `try` block of `handle`. A request that is deferred counts as such
  -- before its events are queued, so that an exception may follow.
  pub data Accounted (s s' : RuntimeStats) : Outcome PolicyResponse → Type 0 where
    accepted : Moved s s' 0 1 0 0 0 → Accounted s s' (returned create_dunno)
    rejected :
        (message : Text)
        → e.config.validation.monitor_only ≡ false
        → Moved s s' 0 0 1 0 0
        → Accounted s s' (returned (create_reject message))
    deferred :
        (message : Text) → Moved s s' 0 0 0 1 0 → Accounted s s' (returned (create_defer message))
    unavailable : Moved s s' 0 0 0 0 1 → Accounted s s' (returned (db_error_response F o e))
    broken : (exc : Exception) → Moved s s' 0 0 0 0 0 → Accounted s s' (raised exc)
    broken_off :
        (exc : Exception) → QueueingRaised exc → Moved s s' 0 0 0 1 0 → Accounted s s' (raised exc)

  pub record Accounts (m : Answer F o e) : Type 0 where
    pub at : (h : Handler World) → Accounted h.stats (m h).1.stats (m h).0

  accounted_after :
      {s t u : RuntimeStats} (r : Outcome PolicyResponse)
      → SameTally s t
      → Accounted t u r
      → Accounted s u r
  accounted_after _ p (accepted m) = accepted (after_quiet p m)
  accounted_after _ p (rejected message b m) = rejected message b (after_quiet p m)
  accounted_after _ p (deferred message m) = deferred message (after_quiet p m)
  accounted_after _ p (unavailable m) = unavailable (after_quiet p m)
  accounted_after _ p (broken exc m) = broken exc (after_quiet p m)
  accounted_after _ p (broken_off exc q m) = broken_off exc q (after_quiet p m)

  Accounts-if :
      (b : Bool) (m n : Answer F o e) → Accounts m → Accounts n → Accounts (if b then m else n)
  Accounts-if true m n km kn = km
  Accounts-if false m n km kn = kn

  module _ {A : Type 0} where
    continue-accounted :
        (s : RuntimeStats) (r : Outcome A) (f : A → Answer F o e) (h : Handler World)
        → SameTally s h.stats
        → ((a : A) → Accounts (f a))
        → Accounted s (continue f r h).1.stats (continue f r h).0
    continue-accounted s (returned a) f h p q = accounted_after (f a h).0 p ((q a).at h)
    continue-accounted s (raised exc) f h p q = broken exc (after_quiet p (moved_none h.stats))
      where
        moved_none : (t : RuntimeStats) → Moved t t 0 0 0 0 0
        moved_none t = omega arith

    Accounts-bind :
        (m : Eff (Handler World) A) (f : A → Answer F o e)
        → Quiet m
        → ((a : A) → Accounts (f a))
        → Accounts (m >>= f)
    Accounts-bind m f qm qf = record {
      at = λ h. continue-accounted h.stats (m h).0 f (m h).1 (qm.at h) qf;
    }

  accept-Accounts : Accounts (accept F o e)
  unfolding accept Stats.inc_accepted
  accept-Accounts = record { at = λ h. accepted (omega arith) }

  reject-Accounts :
      (message : Text)
      → e.config.validation.monitor_only ≡ false
      → Accounts (do count Stats.inc_rejected; pure (create_reject message))
  unfolding Stats.inc_rejected
  reject-Accounts message enforced = record { at = λ h. rejected message enforced (omega arith) }

  blacklisted-Quiet :
      (blacklisted : Bool)
      → Quiet {World = World}
          (count (if blacklisted then Stats.inc_blacklisted else Stats.inc_validation_errors))
  unfolding Stats.inc_blacklisted Stats.inc_validation_errors
  blacklisted-Quiet true = record { at = λ h. omega arith }
  blacklisted-Quiet false = record { at = λ h. omega arith }

  by_monitor-Accounts :
      (monitor_only : Bool) (message : Text)
      → e.config.validation.monitor_only ≡ monitor_only
      → Accounts (
          if monitor_only
          then accept F o e
          else do count Stats.inc_rejected; pure (create_reject message))
  by_monitor-Accounts true message m = accept-Accounts
  by_monitor-Accounts false message m = reject-Accounts message m

  validation_response-Accounts :
      (message : Text) (blacklisted : Bool)
      → Accounts (validation_response F o e message blacklisted)
  unfolding validation_response
  validation_response-Accounts message blacklisted =
      Accounts-bind
        (count (if blacklisted then Stats.inc_blacklisted else Stats.inc_validation_errors))
        (λ _.
          if e.config.validation.monitor_only
          then accept F o e
          else do count Stats.inc_rejected; pure (create_reject message))
        (blacklisted-Quiet blacklisted)
        (λ _. by_monitor-Accounts e.config.validation.monitor_only message refl)

  errors-Accounts : Accounts (do count Stats.inc_errors; pure (db_error_response F o e))
  unfolding Stats.inc_errors
  errors-Accounts = record { at = λ h. unavailable (omega arith) }

  Moved-deferred :
      (s : RuntimeStats) → Moved s (Stats.inc_deferred (Stats.inc_rate_limited s)) 0 0 0 1 0
  unfolding Stats.inc_deferred Stats.inc_rate_limited
  Moved-deferred s = omega arith

  -- The answer of a deferred request, after what its handling ended in.
  ends_deferred :
      (s : RuntimeStats) (r : Outcome (Unit {0})) (message : Text) (h : Handler World)
      → ((exc : Exception) → r ≡ raised exc → QueueingRaised exc)
      → Moved s h.stats 0 0 0 1 0
      → Accounted s
          (continue {B = PolicyResponse} (λ _. pure (create_defer message)) r h).1.stats
          (continue (λ _. pure (create_defer message)) r h).0
  ends_deferred s (returned u) message h q m = deferred message m
  ends_deferred s (raised exc) message h q m = broken_off exc (q exc refl) m

  verdict_accounted :
      (selector : Text) (limits : List (RateLimit Float)) (verdict : Verdict) (h : Handler World)
      → (check_limits_of F o e selector limits h).0 ≡ returned verdict
      → Accounted
          (check_limits_of F o e selector limits h).1.stats
          (answer_verdict F o e req selector limits verdict
            (check_limits_of F o e selector limits h).1).1.stats
          (answer_verdict F o e req selector limits verdict
            (check_limits_of F o e selector limits h).1).0
  unfolding answer_verdict
  verdict_accounted selector limits (failed exc) h v =
      errors-Accounts.at (check_limits_of F o e selector limits h).1
  verdict_accounted selector limits (exceeded info) h v =
      let after = counted (check_limits_of F o e selector limits h).1 in
      ends_deferred (check_limits_of F o e selector limits h).1.stats
        (handle_rate_limit_exceeded F o e req selector info limits after).0 info
        (handle_rate_limit_exceeded F o e req selector info limits after).1
        (λ exc q. record {
          selector = selector;
          limits = limits;
          info = info;
          before = h;
          over = v;
          queueing = q;
        })
        (before_quiet (Moved-deferred (check_limits_of F o e selector limits h).1.stats)
          ((handle_rate_limit_exceeded-Quiet F o e req selector info limits).at after))
  verdict_accounted selector limits (permitted info) h v =
      accept-Accounts.at (check_limits_of F o e selector limits h).1

  checked-Accounts :
      (selector : Text) (limits : List (RateLimit Float))
      → Accounts
          (check_limits_of F o e selector limits >>= answer_verdict F o e req selector limits)
  unfolding check_limits_of
  checked-Accounts selector limits = record {
    at = λ h.
        verdict_accounted selector limits
          (RateLimiter.check_limit F o e.scripts e.ratelimit_engine selector limits h.redis).0 h
          refl;
  }

  sliding-Quiet :
      (limits : List (RateLimit Float))
      → Quiet {World = World}
          (if any (is_sliding F o e) limits then count Stats.inc_sliding_window_checks else pure tt)
  unfolding Stats.inc_sliding_window_checks
  sliding-Quiet limits =
      Quiet-if (any (is_sliding F o e) limits) (count Stats.inc_sliding_window_checks) (pure tt)
        (record { at = λ h. omega arith }) (Quiet-pure tt)

  match_policy-Quiet : (req : PolicyRequest) → Quiet (match_policy F o e req)
  unfolding match_policy
  match_policy-Quiet req = record { at = λ h. SameTally-refl h.stats }

  ruleset accounts_rules =
      (quiet_rules, Accounts-if, Accounts-bind, accept-Accounts, validation_response-Accounts)

  answer_limits-Accounts :
      (selector : Text) (limits : List (RateLimit Float))
      → Accounts (answer_limits F o e req selector limits)
  unfolding answer_limits
  answer_limits-Accounts selector limits =
      search (accounts_rules, sliding-Quiet, checked-Accounts) depth 8

  answer_policy-Accounts : Accounts (answer_policy F o e req)
  unfolding answer_policy
  answer_policy-Accounts =
      search
        (accounts_rules, match_policy-Quiet, apply_adaptive_limits-Quiet, answer_limits-Accounts)
        depth 8

  answer_blacklists-Accounts : Accounts (answer_blacklists F o e req)
  unfolding answer_blacklists
  answer_blacklists-Accounts = search (accounts_rules, answer_policy-Accounts) depth 8

  answer_checked-Accounts : Accounts (answer_checked F o e req)
  unfolding answer_checked
  answer_checked-Accounts = search (accounts_rules, answer_blacklists-Accounts) depth 8

  pub answer_request-Accounts : Accounts (answer_request F o e req)
  unfolding answer_request
  answer_request-Accounts = search (accounts_rules, answer_checked-Accounts) depth 8
