-- ===== src/Breaker/Interleaving.antt =====
-- Calls that overlap (storage/circuit_breaker.py): the lock is free while a guarded function runs,
-- so the admissions and the records of several calls come in any order. A step is what one
-- coroutine does while it holds the lock.
use policyd_py.Base.{ℕ, ◌+◌, ◌-◌, ◌*◌, ◌≤◌, ◌<◌, ◌≡◌, true, false, arith}
use policyd_py.Breaker.{
  CircuitBreaker, open_circuit, second, new, record_success, record_failure, admit, reset,
}
use policyd_py.Breaker.Invariant.{
  IsConsistent, new-IsConsistent, admit-IsConsistent, record_success-IsConsistent,
  record_failure-IsConsistent, reset-IsConsistent,
}

pub record System : Type 0 where
  pub breaker : CircuitBreaker
  pub in_flight : ℕ

pub data Step (now : ℕ) (s u : System) : Type 0 where
  begin :
      (admit now s.breaker).0 ≡ true
      → u ≡ record { breaker = (admit now s.breaker).1; in_flight = s.in_flight + 1 }
      → Step now s u
  refuse :
      (admit now s.breaker).0 ≡ false
      → u ≡ record { breaker = (admit now s.breaker).1; in_flight = s.in_flight }
      → Step now s u
  succeed :
      0 < s.in_flight
      → u ≡ record { breaker = record_success s.breaker; in_flight = s.in_flight - 1 }
      → Step now s u
  fail :
      0 < s.in_flight
      → u ≡ record { breaker = record_failure now s.breaker; in_flight = s.in_flight - 1 }
      → Step now s u

-- Any steps at times from `lo` to before `hi`.
pub data Run (lo hi : ℕ) (s : System) : System → Type 0 where
  start : Run lo hi s s
  step :
      {t u : System} (now : ℕ) → lo ≤ now → now < hi → Run lo hi s t → Step now t u → Run lo hi s u

-- Any steps at any times, and manual resets.
pub data Reach (s : System) : System → Type 0 where
  here : Reach s s
  next : {t u : System} (now : ℕ) → Reach s t → Step now t u → Reach s u
  manual_reset :
      {t u : System}
      → Reach s t
      → u ≡ record { breaker = reset t.breaker; in_flight = t.in_flight }
      → Reach s u

Step-IsConsistent :
    (now : ℕ) (s u : System) → Step now s u → IsConsistent s.breaker → IsConsistent u.breaker
Step-IsConsistent now s u (begin a e) h = rw e (admit-IsConsistent now s.breaker h)
Step-IsConsistent now s u (refuse a e) h = rw e (admit-IsConsistent now s.breaker h)
Step-IsConsistent now s u (succeed a e) h = rw e (record_success-IsConsistent s.breaker h)
Step-IsConsistent now s u (fail a e) h = rw e (record_failure-IsConsistent now s.breaker h)

Reach-keeps : {s u : System} → Reach s u → IsConsistent s.breaker → IsConsistent u.breaker
Reach-keeps here h = h
Reach-keeps (next {t = t} {u = u} now r st) h = Step-IsConsistent now t u st (Reach-keeps r h)
Reach-keeps (manual_reset {t = t} r e) h = rw e (reset-IsConsistent t.breaker (Reach-keeps r h))

abbrev pub idle : ℕ → ℕ → ℕ → System
idle f r s = record { breaker = new f r s; in_flight = 0 }

-- However calls overlap, at whatever times, with manual resets among them, a breaker that starts
-- fresh is consistent: closed, its failure count is 0 or below the threshold and its success count
-- is 0; open or half open, it has counted at least `failure_threshold` failures; half open, its
-- success count is 0 or below the threshold.
pub Reach-IsConsistent : (f r s : ℕ) (u : System) → Reach (idle f r s) u → IsConsistent u.breaker
Reach-IsConsistent f r s u run = Reach-keeps run (new-IsConsistent f r s)

-- An open breaker that has failed at `lo` or later, before the timeout has passed since `lo`.
record IsShut (lo : ℕ) (k : ℕ) (n : ℕ) (s : System) : Type 0 where
  is_open : s.breaker.state ≡ open_circuit
  recent : lo ≤ s.breaker.last_failure_time
  same_timeout : s.breaker.recovery_timeout ≡ k
  no_more : s.in_flight ≤ n

Step-IsShut :
    (lo k n now : ℕ) (s u : System)
    → lo ≤ now
    → now < lo + k * second
    → Step now s u
    → IsShut lo k n s
    → IsShut lo k n u
unfolding admit record_success record_failure
Step-IsShut lo k n now s u p q (begin a e) h = ground arith
Step-IsShut lo k n now s u p q (refuse a e) h = ground arith
Step-IsShut lo k n now s u p q (succeed a e) h = ground arith
Step-IsShut lo k n now s u p q (fail a e) h = ground arith

Run-IsShut :
    (lo k n : ℕ) {s u : System} → Run lo (lo + k * second) s u → IsShut lo k n s → IsShut lo k n u
Run-IsShut lo k n start h = h
Run-IsShut lo k n (step {t = t} {u = u} now p q r st) h =
    Step-IsShut lo k n now t u p q st (Run-IsShut lo k n r h)

-- From a breaker that is open since a failure at `lo` or later, while less than `recovery_timeout`
-- has passed since `lo`, whatever the calls in flight do, the breaker stays open and the number of
-- calls in flight does not grow: no new call reaches Redis.
pub Run-stays_open :
    (lo k : ℕ) (s u : System)
    → s.breaker.state ≡ open_circuit
    → lo ≤ s.breaker.last_failure_time
    → s.breaker.recovery_timeout ≡ k
    → Run lo (lo + k * second) s u
    → (u.breaker.state ≡ open_circuit) × (u.in_flight ≤ s.in_flight)
Run-stays_open lo k s u is_open recent same run =
    let h =
      Run-IsShut lo k s.in_flight run (record {
        is_open = is_open;
        recent = recent;
        same_timeout = same;
        no_more = omega arith;
      }) in
    (h.is_open, h.no_more)
