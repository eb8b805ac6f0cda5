-- ===== src/Breaker/Recovery.antt =====
-- How a breaker recovers, and what a call does in each state (storage/circuit_breaker.py).
use policyd_py.Base.{
  ℕ, zero, suc, ◌+◌, ◌*◌, ◌≤◌, ◌<◌, ◌≡◌, refl, subst, ◌≢◌, ◌⊎◌, inl, inr, List, [], ◌∷◌, ◌++◌,
  arith, replicate, leb, Bool-cases, Eff, raised, circuit_breaker_error,
}
use policyd_py.Breaker.{
  CircuitState, CircuitBreaker, closed, open_circuit, half_open, second, record_success,
  record_failure, call,
}
use policyd_py.Breaker.History.{Result, success, failure, feed_one, feed}

-- Half open with `c` successes counted.
record IsProbing (t c : ℕ) (b : CircuitBreaker) : Type 0 where
  is_half_open : b.state ≡ half_open
  threshold : b.success_threshold ≡ t
  counted : b.success_count ≡ c

IsProbing-success :
    (t c : ℕ) (b : CircuitBreaker)
    → IsProbing t c b
    → suc c < t
    → IsProbing t (suc c) (feed_one success b)
unfolding feed_one record_success
IsProbing-success t c b h k = ground arith

probing_closes :
    (t c : ℕ) (b : CircuitBreaker)
    → IsProbing t c b
    → t ≤ suc c
    → ((feed_one success b).state ≡ closed)
      × ((feed_one success b).failure_count ≡ 0)
      × ((feed_one success b).success_count ≡ 0)
unfolding feed_one record_success
probing_closes t c b h k = ground arith

probing_fails :
    (t c now : ℕ) (b : CircuitBreaker)
    → IsProbing t c b
    → ((feed_one (failure now) b).state ≡ open_circuit)
      × ((feed_one (failure now) b).last_failure_time ≡ now)
unfolding feed_one record_failure
probing_fails t c now b h = ground arith

IsProbing-some :
    (t c m : ℕ) (b : CircuitBreaker)
    → IsProbing t c b
    → c + m < t
    → IsProbing t (c + m) (feed (replicate m success) b)
unfolding feed
IsProbing-some t c zero b h k = ground arith
IsProbing-some t c (suc m) b h k =
    let ih =
      IsProbing-some t (suc c) m (feed_one success b) (IsProbing-success t c b h (omega arith))
        (omega arith) in
    let e : suc c + m ≡ c + suc m = omega arith in
    subst (λ n. IsProbing t n (feed (replicate m success) (feed_one success b))) e ih

feed-append : (xs ys : List Result) (b : CircuitBreaker) → feed (xs ++ ys) b ≡ feed ys (feed xs b)
unfolding feed
feed-append [] ys b = refl
feed-append (x ∷ xs) ys b = feed-append xs ys (feed_one x b)

feed-last :
    (m : ℕ) (r : Result) (b : CircuitBreaker)
    → feed (replicate m success ++ r ∷ []) b ≡ feed_one r (feed (replicate m success) b)
unfolding feed
feed-last m r b = feed-append (replicate m success) (r ∷ []) b

replicate-suc : (m : ℕ) → replicate (suc m) success ≡ replicate m success ++ success ∷ []
replicate-suc zero = refl
replicate-suc (suc m) = cc (replicate-suc m)

-- A half-open breaker with no success counted: fewer successes than `success_threshold` leave it
-- half open, a failure after them opens it and starts a new recovery timeout, and
-- `success_threshold` successes close it with both counters at 0.
pub half_open_recovers :
    (k m now : ℕ) (b : CircuitBreaker)
    → b.state ≡ half_open
    → b.success_count ≡ 0
    → b.success_threshold ≡ suc k
    → m ≤ k
    → ((feed (replicate m success) b).state ≡ half_open)
      × ((feed (replicate m success ++ failure now ∷ []) b).state ≡ open_circuit)
      × ((feed (replicate m success ++ failure now ∷ []) b).last_failure_time ≡ now)
      × ((feed (replicate (suc k) success) b).state ≡ closed)
      × ((feed (replicate (suc k) success) b).failure_count ≡ 0)
      × ((feed (replicate (suc k) success) b).success_count ≡ 0)
half_open_recovers k m now b h c t le =
    let start : IsProbing (suc k) 0 b = record { is_half_open = h; threshold = t; counted = c } in
    let some_way = IsProbing-some (suc k) 0 m b start (omega arith) in
    let all_but_one = IsProbing-some (suc k) 0 k b start (omega arith) in
    let broken = probing_fails (suc k) (0 + m) now (feed (replicate m success) b) some_way in
    let healed =
      probing_closes (suc k) (0 + k) (feed (replicate k success) b) all_but_one (omega arith) in
    (
      some_way.is_half_open,
      rw (feed-last m (failure now) b) broken.0,
      rw (feed-last m (failure now) b) broken.1,
      rw (replicate-suc k, feed-last k success b) healed.0,
      rw (replicate-suc k, feed-last k success b) healed.1,
      rw (replicate-suc k, feed-last k success b) healed.2,
    )

state-cases : (b : CircuitBreaker) → (b.state ≡ open_circuit) ⊎ (b.state ≢ open_circuit)
state-cases b = go b.state
  where
    go : (c : CircuitState) → (c ≡ open_circuit) ⊎ (c ≢ open_circuit)
    go closed = inr (λ e. cc)
    go open_circuit = inl refl
    go half_open = inr (λ e. cc)

-- What a call comes to, whatever the guarded function does: either the breaker was open and the
-- recovery timeout had not passed, and then the caller gets `CircuitBreakerError` while neither the
-- breaker nor the state of the function changes; or the caller gets the result of the function, and
-- the state that it left.
pub call_refused_or_transparent :
    {S A : Type 0} (start end : ℕ) (func : Eff S A) (b : CircuitBreaker) (s : S)
    → ((b.state ≡ open_circuit)
        × (start < b.last_failure_time + b.recovery_timeout * second)
        × (call start end func b s ≡ (raised circuit_breaker_error, b, s)))
      ⊎ (((b.state ≡ open_circuit) → b.last_failure_time + b.recovery_timeout * second ≤ start)
          × ((call start end func b s).0 ≡ (func s).0)
          × ((call start end func b s).2 ≡ (func s).1))
unfolding call
call_refused_or_transparent start end func b s = elim (state-cases b) [
  | inl o ↦ elim (Bool-cases (leb (b.last_failure_time + b.recovery_timeout * second) start)) [
    | inl late ↦ inr (ground arith, ground arith, ground arith)
    | inr early ↦ inl (o, ground arith, ground arith)
  ]
  | inr n ↦ inr (λ o. absurd (n o), ground arith, ground arith)
]
