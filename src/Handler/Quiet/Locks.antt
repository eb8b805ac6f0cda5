-- ===== src/Handler/Quiet/Locks.antt =====
-- The counters of the answers while limits are adapted and accounts locked (policyd_py/policy/handler.py).
use policyd_py.Base.{
  ℕ, Bool, true, false, Option, none, some, List, arith, if◌then◌else◌, Text, returned, Eff, ◌>>=◌,
}
use policyd_py.Floats.{Floats}
use policyd_py.Config.{RateLimit}
use policyd_py.Models.{PolicyRequest}
use policyd_py.Stats
use policyd_py.Stats.{RuntimeStats}
use policyd_py.Outside.{Outside}
use policyd_py.Redis.{RedisClient}
use policyd_py.Handler.{Engine, Handler, Actions, on_redis}
use policyd_py.Handler.Adaptive.{apply_adaptive_limits, resolve_adaptive_multiplier, adapt_with}
use policyd_py.Handler.Locks.{
  penalty_duration, resolve_lock_duration, store_lock_metadata, schedule_unlock,
  with_manager_schedule, with_manager_lock, lock_acquired, safe_lock_user,
  safe_lock_user_with_penalty,
}
use policyd_py.Handler.Quiet.{
  SameTally, SameTally-refl, Quiet, IsQuiet, Quiet-pure, Quiet-on_redis, Quiet-on_world, Quiet-bind,
  quiet_rules,
}

adaptive_adjustments-IsQuiet : IsQuiet Stats.inc_adaptive_adjustments
unfolding Stats.inc_adaptive_adjustments
adaptive_adjustments-IsQuiet = record { keeps = λ s. omega arith }

adaptive_direction-IsQuiet :
    (b : Bool) → IsQuiet (if b then Stats.inc_adaptive_relaxed else Stats.inc_adaptive_tightened)
unfolding Stats.inc_adaptive_relaxed Stats.inc_adaptive_tightened
adaptive_direction-IsQuiet true = record { keeps = λ s. omega arith }
adaptive_direction-IsQuiet false = record { keeps = λ s. omega arith }

penalty_applied-IsQuiet : IsQuiet Stats.inc_penalty_applied
unfolding Stats.inc_penalty_applied
penalty_applied-IsQuiet = record { keeps = λ s. omega arith }

penalty_escalations-IsQuiet : IsQuiet Stats.inc_penalty_escalations
unfolding Stats.inc_penalty_escalations
penalty_escalations-IsQuiet = record { keeps = λ s. omega arith }

users_locked-IsQuiet : IsQuiet Stats.inc_users_locked
unfolding Stats.inc_users_locked
users_locked-IsQuiet = record { keeps = λ s. omega arith }

pub sliding_checks-IsQuiet : IsQuiet Stats.inc_sliding_window_checks
unfolding Stats.inc_sliding_window_checks
sliding_checks-IsQuiet = record { keeps = λ s. omega arith }

module _ (F : Floats) (o : Outside F.Float) (e : Engine F o.World) where
  open F use {Float}
  open o use {World}

  adapt_with-Quiet : (limits : List (RateLimit Float)) (x : Float) → Quiet (adapt_with F o limits x)
  unfolding adapt_with
  adapt_with-Quiet limits x =
      search (quiet_rules, adaptive_adjustments-IsQuiet, adaptive_direction-IsQuiet) depth 8

  adapt_bound :
      (m : Eff (RedisClient World) Float) (limits : List (RateLimit Float))
      → Quiet (on_redis m >>= λ x. adapt_with F o limits x)
  adapt_bound m limits =
      Quiet-bind (on_redis m) (adapt_with F o limits) (Quiet-on_redis m) (adapt_with-Quiet limits)

  if_adaptive-quiet :
      (adaptive : Bool) (m : Eff (RedisClient World) Float) (limits : List (RateLimit Float))
      (h : Handler World)
      → SameTally h.stats
          (if adaptive
            then (on_redis m >>= λ x. adapt_with F o limits x) h
            else (returned limits, h)).1.stats
  if_adaptive-quiet true m limits h = (adapt_bound m limits).at h
  if_adaptive-quiet false m limits h = SameTally-refl h.stats

  pub apply_adaptive_limits-Quiet :
      (req : PolicyRequest) (selector : Text) (limits : List (RateLimit Float))
      → Quiet (apply_adaptive_limits F o e req selector limits)
  unfolding apply_adaptive_limits
  apply_adaptive_limits-Quiet req selector limits = record {
    at = λ h.
        if_adaptive-quiet e.config.adaptive.enable
          (resolve_adaptive_multiplier F o e h.local_domains req selector) limits h;
  }

  penalty_duration-Quiet : (steps : List ℕ) (n : ℕ) → Quiet (penalty_duration F o e steps n)
  unfolding penalty_duration
  penalty_duration-Quiet steps n =
      search (quiet_rules, penalty_applied-IsQuiet, penalty_escalations-IsQuiet) depth 8

  resolve_lock_duration-Quiet : (selector : Text) → Quiet (resolve_lock_duration F o e selector)
  unfolding resolve_lock_duration
  resolve_lock_duration-Quiet selector = search (quiet_rules, penalty_duration-Quiet) depth 8

  pub store_lock_metadata-Quiet :
      (email selector : Text) (limits : Option (List (RateLimit Float))) (ttl : ℕ)
      → Quiet (store_lock_metadata F o e email selector limits ttl)
  unfolding store_lock_metadata
  store_lock_metadata-Quiet email selector limits ttl = record { at = λ h. SameTally-refl h.stats }

  schedule_unlock-Quiet : (email : Text) (d : ℕ) → Quiet (schedule_unlock F o e email d)
  unfolding schedule_unlock
  schedule_unlock-Quiet email d = record { at = λ h. SameTally-refl h.stats }

  with_manager_schedule-Quiet :
      (m : Option (Actions World)) (email : Text) (d : ℕ)
      → Quiet (with_manager_schedule F o e m email d)
  unfolding with_manager_schedule
  with_manager_schedule-Quiet none email d = Quiet-pure tt
  with_manager_schedule-Quiet (some a) email d = search (quiet_rules, schedule_unlock-Quiet)

  with_manager_lock-Quiet :
      (m : Option (Actions World)) (email reason : Text)
      → Quiet (with_manager_lock F o e m email reason)
  unfolding with_manager_lock
  with_manager_lock-Quiet none email reason = Quiet-pure tt
  with_manager_lock-Quiet (some a) email reason = Quiet-on_world (a.lock_account email reason)

  lock_acquired-Quiet :
      (email reason : Text) (d : ℕ) (selector : Text) (limits : Option (List (RateLimit Float)))
      → Quiet (lock_acquired F o e email reason d selector limits)
  unfolding lock_acquired
  lock_acquired-Quiet email reason d selector limits =
      search
        (quiet_rules, with_manager_schedule-Quiet, with_manager_lock-Quiet, users_locked-IsQuiet)
        depth 8

  safe_lock_user-Quiet :
      (email reason : Text) (d : Option ℕ) (selector : Option Text)
      (limits : Option (List (RateLimit Float)))
      → Quiet (safe_lock_user F o e email reason d selector limits)
  unfolding safe_lock_user
  safe_lock_user-Quiet email reason d selector limits =
      search (quiet_rules, lock_acquired-Quiet) depth 8

  pub safe_lock_user_with_penalty-Quiet :
      (email selector reason : Text) (limits : Option (List (RateLimit Float)))
      → Quiet (safe_lock_user_with_penalty F o e email selector reason limits)
  unfolding safe_lock_user_with_penalty
  safe_lock_user_with_penalty-Quiet email selector reason limits =
      search (quiet_rules, safe_lock_user-Quiet, resolve_lock_duration-Quiet) depth 8
