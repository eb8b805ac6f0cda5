-- ===== src/Breaker/Invariant.antt =====
-- What holds of a breaker whenever its lock is free (storage/circuit_breaker.py).
use policyd_py.Base.{ℕ, ◌≤◌, ◌<◌, ◌≡◌, ◌⊎◌, arith}
use policyd_py.Breaker.{
  CircuitBreaker, closed, open_circuit, half_open, new, record_success, record_failure, admit,
  reset,
}

-- A counter that a threshold resets: it is below the threshold, or still 0.
abbrev pub IsBelow : ℕ → ℕ → Type 0
IsBelow count threshold = (count ≡ 0) ⊎ (count < threshold)

pub record IsConsistent (b : CircuitBreaker) : Type 0 where
  pub closed_below : b.state ≡ closed → IsBelow b.failure_count b.failure_threshold
  pub closed_fresh : b.state ≡ closed → b.success_count ≡ 0
  pub open_tripped : b.state ≡ open_circuit → b.failure_threshold ≤ b.failure_count
  pub half_open_tripped : b.state ≡ half_open → b.failure_threshold ≤ b.failure_count
  pub half_open_below : b.state ≡ half_open → IsBelow b.success_count b.success_threshold

pub new-IsConsistent : (f r s : ℕ) → IsConsistent (new f r s)
unfolding new
new-IsConsistent f r s = ground arith

pub admit-IsConsistent :
    (now : ℕ) (b : CircuitBreaker) → IsConsistent b → IsConsistent (admit now b).1
unfolding admit
admit-IsConsistent now b h = ground arith

pub record_success-IsConsistent :
    (b : CircuitBreaker) → IsConsistent b → IsConsistent (record_success b)
unfolding record_success
record_success-IsConsistent b h = ground arith

pub record_failure-IsConsistent :
    (now : ℕ) (b : CircuitBreaker) → IsConsistent b → IsConsistent (record_failure now b)
unfolding record_failure
record_failure-IsConsistent now b h = ground arith

pub reset-IsConsistent : (b : CircuitBreaker) → IsConsistent b → IsConsistent (reset b)
unfolding reset
reset-IsConsistent b h = ground arith
