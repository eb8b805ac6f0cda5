-- ===== src/Breaker.antt =====
-- policyd_py/storage/circuit_breaker.py: the breaker that guards every Redis call. A call is split
-- where the code gives up its lock: the admission, the guarded function, and the record of its
-- result. `time.time()` is an argument, in microseconds; the two timeouts are in seconds.
pub mod Invariant
pub mod Interleaving
pub mod History
pub mod Recovery
use policyd_py.Base.{
  ℕ, ◌+◌, ◌*◌, Bool, true, false, leb, if◌then◌else◌, Outcome, returned, raised,
  circuit_breaker_error, Eff,
}

pub data CircuitState : Type 0 where
  closed open_circuit half_open : CircuitState

pub record CircuitBreaker : Type 0 where
  pub failure_threshold : ℕ
  pub recovery_timeout : ℕ
  pub success_threshold : ℕ
  pub state : CircuitState
  pub failure_count : ℕ
  pub success_count : ℕ
  pub last_failure_time : ℕ

-- __init__
unfoldable pub new : ℕ → ℕ → ℕ → CircuitBreaker
new failures recovery successes = record {
  failure_threshold = failures;
  recovery_timeout = recovery;
  success_threshold = successes;
  state = closed;
  failure_count = 0;
  success_count = 0;
  last_failure_time = 0;
}

abbrev pub second : ℕ
second = 1000000

-- The difference of the clocks is compared without a subtraction: the clock may be set back.
unfoldable pub should_attempt_reset : ℕ → CircuitBreaker → Bool
should_attempt_reset now b = leb (b.last_failure_time + b.recovery_timeout * second) now

unfoldable pub transition_to_half_open : CircuitBreaker → CircuitBreaker
transition_to_half_open b = record b { state = half_open; success_count = 0 }

unfoldable pub transition_to_open : CircuitBreaker → CircuitBreaker
transition_to_open b = record b { state = open_circuit }

unfoldable pub transition_to_closed : CircuitBreaker → CircuitBreaker
transition_to_closed b = record b { state = closed; failure_count = 0; success_count = 0 }

success_in : CircuitState → CircuitBreaker → CircuitBreaker
unfolding transition_to_closed
success_in half_open b =
    let b' = record b { success_count = b.success_count + 1 } in
    if leb b'.success_threshold b'.success_count then transition_to_closed b' else b'
success_in closed b = record b { failure_count = 0 }
success_in open_circuit b = b

unfoldable pub record_success : CircuitBreaker → CircuitBreaker
unfolding success_in
record_success b = success_in b.state b

failure_in : CircuitState → CircuitBreaker → CircuitBreaker
unfolding transition_to_open
failure_in half_open b = transition_to_open b
failure_in closed b = if leb b.failure_threshold b.failure_count then transition_to_open b else b
failure_in open_circuit b = b

unfoldable pub record_failure : ℕ → CircuitBreaker → CircuitBreaker
unfolding failure_in
record_failure now b =
    failure_in b.state (record b { failure_count = b.failure_count + 1; last_failure_time = now })

-- The part of `call` before the guarded function, under the lock.
admit_in : CircuitState → ℕ → CircuitBreaker → Bool × CircuitBreaker
unfolding should_attempt_reset transition_to_half_open
admit_in open_circuit now b =
    if should_attempt_reset now b then (true, transition_to_half_open b) else (false, b)
admit_in closed now b = (true, b)
admit_in half_open now b = (true, b)

unfoldable pub admit : ℕ → CircuitBreaker → Bool × CircuitBreaker
unfolding admit_in
admit now b = admit_in b.state now b

settle : {A : Type 0} → ℕ → Outcome A → CircuitBreaker → CircuitBreaker
unfolding record_success record_failure
settle now (returned a) b = record_success b
settle now (raised e) b = record_failure now b

-- A call that no other call overlaps: begun at `start`, ended at `end`, over the state that the
-- guarded function has of its own.
unfoldable pub call :
    {S A : Type 0} → ℕ → ℕ → Eff S A → CircuitBreaker → S → Outcome A × CircuitBreaker × S
unfolding admit settle
call start end func b s =
    let (admitted, b') = admit start b in
    let (result, s') = func s in
    if admitted then (result, settle end result b', s') else (raised circuit_breaker_error, b', s)

-- reset
unfoldable pub reset : CircuitBreaker → CircuitBreaker
reset b = record b { state = closed; failure_count = 0; success_count = 0; last_failure_time = 0 }
