-- ===== src/Tests/Breakers.antt =====
-- A circuit breaker (policyd_py/storage/circuit_breaker.py) at work.
use policyd_py.Base.{
  ℕ, ◌≡◌, refl, List, [], ◌∷◌, arith, ◌+◌, ◌*◌, ◌<◌, ◌≤◌, ◌↔◌, ◌⊎◌, raised, circuit_breaker_error,
  Eff, pure,
}
use policyd_py.Breaker.{
  CircuitBreaker, new, half_open, closed, open_circuit, second, record_failure, admit, call,
}
use policyd_py.Breaker.Invariant.{IsConsistent}
use policyd_py.Breaker.Interleaving
use policyd_py.Breaker.Interleaving.{
  System, Step, Reach, Run, idle, Reach-IsConsistent, Run-stays_open,
}
use policyd_py.Breaker.History.{Result, success, failure, feed, HasStreak, feed-opens_iff_streak}
use policyd_py.Breaker.Recovery.{half_open_recovers, call_refused_or_transparent}

-- A call that begins and fails, with a threshold of one failure.
abbrev begun : System
begun = record { breaker = new 1 30 2; in_flight = 1 }

abbrev tripped : System
tripped = record { breaker = record_failure 5 (new 1 30 2); in_flight = 0 }

one_failure : Reach (idle 1 30 2) tripped
unfolding admit new
one_failure =
    Interleaving.next 5 (Interleaving.next 4 Interleaving.here (Interleaving.begin refl refl))
      (Interleaving.fail (omega arith) refl)

Reach-IsConsistent_example : IsConsistent tripped.breaker
Reach-IsConsistent_example = Reach-IsConsistent 1 30 2 tripped one_failure

abbrev open_and_busy : System
open_and_busy = record {
  breaker = record (new 1 30 2) { state = open_circuit; failure_count = 1; last_failure_time = 7 };
  in_flight = 2;
}

abbrev less_busy : System
less_busy = record {
  breaker = record (new 1 30 2) { state = open_circuit; failure_count = 2; last_failure_time = 9 };
  in_flight = 1;
}

refused_then_failed : Run 7 (7 + 30 * second) open_and_busy less_busy
unfolding admit record_failure new
refused_then_failed =
    Interleaving.step 9 (omega arith) (omega arith)
      (Interleaving.step 8 (omega arith) (omega arith) Interleaving.start
        (Interleaving.refuse refl refl))
      (Interleaving.fail (omega arith) refl)

Run-stays_open_example :
    (less_busy.breaker.state ≡ open_circuit) × (less_busy.in_flight ≤ open_and_busy.in_flight)
unfolding new
Run-stays_open_example =
    Run-stays_open 7 30 open_and_busy less_busy refl (omega arith) refl refused_then_failed

abbrev two_in_a_row : List Result
two_in_a_row = failure 1 ∷ success ∷ failure 2 ∷ failure 3 ∷ []

feed-opens_iff_streak_example :
    ((feed two_in_a_row (new 2 30 2)).state ≡ open_circuit) ↔ HasStreak 2 two_in_a_row
feed-opens_iff_streak_example = feed-opens_iff_streak 2 30 2 two_in_a_row (omega arith)

abbrev probing : CircuitBreaker
probing = record (new 5 30 2) { state = half_open; failure_count = 5 }

half_open_recovers_example :
    ((feed (success ∷ []) probing).state ≡ half_open)
    × ((feed (success ∷ failure 9 ∷ []) probing).state ≡ open_circuit)
    × ((feed (success ∷ failure 9 ∷ []) probing).last_failure_time ≡ 9)
    × ((feed (success ∷ success ∷ []) probing).state ≡ closed)
    × ((feed (success ∷ success ∷ []) probing).failure_count ≡ 0)
    × ((feed (success ∷ success ∷ []) probing).success_count ≡ 0)
unfolding new
half_open_recovers_example = half_open_recovers 1 1 9 probing refl refl refl (omega arith)

abbrev count_up : Eff ℕ ℕ
count_up n = pure n (n + 1)

abbrev shut : CircuitBreaker
shut = record (new 5 30 2) { state = open_circuit; failure_count = 5; last_failure_time = 100 }

call_refused_or_transparent_example :
    ((shut.state ≡ open_circuit)
      × (200 < shut.last_failure_time + shut.recovery_timeout * second)
      × (call 200 201 count_up shut 0 ≡ (raised circuit_breaker_error, shut, 0)))
    ⊎ (((shut.state ≡ open_circuit) → shut.last_failure_time + shut.recovery_timeout * second ≤ 200)
        × ((call 200 201 count_up shut 0).0 ≡ (count_up 0).0)
        × ((call 200 201 count_up shut 0).2 ≡ (count_up 0).1))
call_refused_or_transparent_example = call_refused_or_transparent 200 201 count_up shut 0
