-- ===== src/Stats.antt =====
-- policyd_py/stats/runtime.py: the counters of the process. Each method holds the lock for its one
-- update, so an update is atomic.
use policyd_py.Base.{ℕ, ◌+◌, ◌-◌, ltb, if◌then◌else◌}

pub record RuntimeStats : Type 0 where
  pub total_requests : ℕ
  pub total_accepted : ℕ
  pub total_rejected : ℕ
  pub total_deferred : ℕ
  pub total_errors : ℕ
  pub active_connections : ℕ
  pub total_validation_errors : ℕ
  pub total_blacklisted : ℕ
  pub total_rate_limited : ℕ
  pub total_users_locked : ℕ
  pub total_sliding_window_checks : ℕ
  pub total_adaptive_adjustments : ℕ
  pub total_adaptive_tightened : ℕ
  pub total_adaptive_relaxed : ℕ
  pub total_penalty_applied : ℕ
  pub total_penalty_escalations : ℕ

unfoldable pub new : RuntimeStats
new = record {
  total_requests = 0;
  total_accepted = 0;
  total_rejected = 0;
  total_deferred = 0;
  total_errors = 0;
  active_connections = 0;
  total_validation_errors = 0;
  total_blacklisted = 0;
  total_rate_limited = 0;
  total_users_locked = 0;
  total_sliding_window_checks = 0;
  total_adaptive_adjustments = 0;
  total_adaptive_tightened = 0;
  total_adaptive_relaxed = 0;
  total_penalty_applied = 0;
  total_penalty_escalations = 0;
}

unfoldable pub inc_requests : RuntimeStats → RuntimeStats
inc_requests s = record s { total_requests = s.total_requests + 1 }

unfoldable pub inc_accepted : RuntimeStats → RuntimeStats
inc_accepted s = record s { total_accepted = s.total_accepted + 1 }

unfoldable pub inc_rejected : RuntimeStats → RuntimeStats
inc_rejected s = record s { total_rejected = s.total_rejected + 1 }

unfoldable pub inc_deferred : RuntimeStats → RuntimeStats
inc_deferred s = record s { total_deferred = s.total_deferred + 1 }

unfoldable pub inc_errors : RuntimeStats → RuntimeStats
inc_errors s = record s { total_errors = s.total_errors + 1 }

unfoldable pub inc_validation_errors : RuntimeStats → RuntimeStats
inc_validation_errors s = record s { total_validation_errors = s.total_validation_errors + 1 }

unfoldable pub inc_blacklisted : RuntimeStats → RuntimeStats
inc_blacklisted s = record s { total_blacklisted = s.total_blacklisted + 1 }

unfoldable pub inc_rate_limited : RuntimeStats → RuntimeStats
inc_rate_limited s = record s { total_rate_limited = s.total_rate_limited + 1 }

unfoldable pub inc_users_locked : RuntimeStats → RuntimeStats
inc_users_locked s = record s { total_users_locked = s.total_users_locked + 1 }

unfoldable pub inc_sliding_window_checks : RuntimeStats → RuntimeStats
inc_sliding_window_checks s = record s {
  total_sliding_window_checks = s.total_sliding_window_checks + 1;
}

unfoldable pub inc_adaptive_adjustments : RuntimeStats → RuntimeStats
inc_adaptive_adjustments s = record s {
  total_adaptive_adjustments = s.total_adaptive_adjustments + 1;
}

unfoldable pub inc_adaptive_tightened : RuntimeStats → RuntimeStats
inc_adaptive_tightened s = record s { total_adaptive_tightened = s.total_adaptive_tightened + 1 }

unfoldable pub inc_adaptive_relaxed : RuntimeStats → RuntimeStats
inc_adaptive_relaxed s = record s { total_adaptive_relaxed = s.total_adaptive_relaxed + 1 }

unfoldable pub inc_penalty_applied : RuntimeStats → RuntimeStats
inc_penalty_applied s = record s { total_penalty_applied = s.total_penalty_applied + 1 }

unfoldable pub inc_penalty_escalations : RuntimeStats → RuntimeStats
inc_penalty_escalations s = record s { total_penalty_escalations = s.total_penalty_escalations + 1 }

unfoldable pub inc_active_connections : RuntimeStats → RuntimeStats
inc_active_connections s = record s { active_connections = s.active_connections + 1 }

unfoldable pub dec_active_connections : RuntimeStats → RuntimeStats
dec_active_connections s =
    if ltb 0 s.active_connections
    then record s { active_connections = s.active_connections - 1 }
    else s
