-- ===== src/Handler/Quiet.antt =====
-- Parts of policyd_py/policy/handler.py and the counters of the answers: what it is to leave them alone.
pub mod Locks
pub mod Background
use policyd_py.Base.{
  ℕ, ◌≡◌, refl, inl, inr, Bool-cases, Bool, true, false, not, Option, none, some, List, [], ◌∷◌,
  arith, if◌then◌else◌, is_empty, Text, Exception, Outcome, returned, raised, Eff, pure, try_except,
  continue, handle_with, ◌>>=◌, ◌>>◌,
}
use policyd_py.Floats.{Floats}
use policyd_py.Config.{RateLimit}
use policyd_py.Models.{PolicyRequest}
use policyd_py.Stats
use policyd_py.Stats.{RuntimeStats}
use policyd_py.Outside.{Outside}
use policyd_py.Redis.{RedisClient}
use policyd_py.Handler.{Engine, Handler, Actions, on_redis, on_world, count}
use policyd_py.Handler.Adaptive.{apply_adaptive_limits, resolve_adaptive_multiplier, adapt_with}
use policyd_py.Handler.Events.{BackgroundEvent}
use policyd_py.Handler.Locks.{
  penalty_duration, resolve_lock_duration, store_lock_metadata, schedule_unlock,
  with_manager_schedule, with_manager_lock, lock_acquired, safe_lock_user,
  safe_lock_user_with_penalty,
}
use policyd_py.Handler.Background.{
  load_lock_metadata, is_still_exceeding_limit, extend_lock, clear_lock_keys, do_unlock,
  unlock_or_extend, process_unlock_event, enqueue_fallback, enqueue_background_event,
}

pub record SameTally (s s' : RuntimeStats) : Type 0 where
  pub requests : s'.total_requests ≡ s.total_requests
  pub accepted : s'.total_accepted ≡ s.total_accepted
  pub rejected : s'.total_rejected ≡ s.total_rejected
  pub deferred : s'.total_deferred ≡ s.total_deferred
  pub errors : s'.total_errors ≡ s.total_errors

pub SameTally-refl : (s : RuntimeStats) → SameTally s s
SameTally-refl s = omega arith

SameTally-trans : {s t u : RuntimeStats} → SameTally s t → SameTally t u → SameTally s u
SameTally-trans p q = omega arith

pub record Quiet {World A : Type 0} (m : Eff (Handler World) A) : Type 0 where
  pub at : (h : Handler World) → SameTally h.stats (m h).1.stats

-- An increment of another counter.
pub record IsQuiet (inc : RuntimeStats → RuntimeStats) : Type 0 where
  pub keeps : (s : RuntimeStats) → SameTally s (inc s)

module _ {World A : Type 0} where
  pub Quiet-pure : (a : A) → Quiet {World = World} (pure a)
  Quiet-pure a = record { at = λ h. SameTally-refl h.stats }

  pub Quiet-outcome : (r : Outcome A) → Quiet {World = World} (λ h. (r, h))
  Quiet-outcome r = record { at = λ h. SameTally-refl h.stats }

  pub Quiet-on_redis : (m : Eff (RedisClient World) A) → Quiet (on_redis m)
  Quiet-on_redis m = record { at = λ h. SameTally-refl h.stats }

  pub Quiet-on_world : (m : Eff World A) → Quiet (on_world m)
  Quiet-on_world m = record { at = λ h. SameTally-refl h.stats }

  pub Quiet-if :
      (b : Bool) (m n : Eff (Handler World) A) → Quiet m → Quiet n → Quiet (if b then m else n)
  Quiet-if true m n km kn = km
  Quiet-if false m n km kn = kn

  handle_with-Quiet :
      (r : Outcome A) (k : Exception → Eff (Handler World) A) (h : Handler World)
      → ((x : Exception) → Quiet (k x))
      → SameTally h.stats (handle_with k r h).1.stats
  handle_with-Quiet (returned a) k h q = SameTally-refl h.stats
  handle_with-Quiet (raised x) k h q = (q x).at h

  pub Quiet-try :
      (m : Eff (Handler World) A) (k : Exception → Eff (Handler World) A)
      → Quiet m
      → ((x : Exception) → Quiet (k x))
      → Quiet (try_except m k)
  Quiet-try m k qm qk = record {
    at = λ h. SameTally-trans (qm.at h) (handle_with-Quiet (m h).0 k (m h).1 qk);
  }

module _ {World A B : Type 0} where
  continue-Quiet :
      (r : Outcome A) (f : A → Eff (Handler World) B) (h : Handler World)
      → ((a : A) → Quiet (f a))
      → SameTally h.stats (continue f r h).1.stats
  continue-Quiet (returned a) f h q = (q a).at h
  continue-Quiet (raised x) f h q = SameTally-refl h.stats

  pub Quiet-bind :
      (m : Eff (Handler World) A) (f : A → Eff (Handler World) B)
      → Quiet m
      → ((a : A) → Quiet (f a))
      → Quiet (m >>= f)
  Quiet-bind m f qm qf = record {
    at = λ h. SameTally-trans (qm.at h) (continue-Quiet (m h).0 f (m h).1 qf);
  }

pub Quiet-count :
    {World : Type 0} (inc : RuntimeStats → RuntimeStats)
    → IsQuiet inc
    → Quiet {World = World} (count inc)
Quiet-count inc q = record { at = λ h. q.keeps h.stats }

pub ruleset quiet_rules = (
  Quiet-pure, Quiet-outcome, Quiet-on_redis, Quiet-on_world, Quiet-if, Quiet-try, Quiet-bind,
  Quiet-count,
)
