-- ===== src/Limiter/TokenBucket/Usage.antt =====
-- `get_usage` for a token bucket against the script (policyd_py/ratelimit/limiter.py).
use policyd_py.Base.{
  Bool-cases, ltb→lt, inl, inr, ℕ, ◌+◌, ◌-◌, ◌*◌, ◌/◌, ◌≤◌, ◌<◌, ltb, ◌≡◌, arith, false, Option,
}
use policyd_py.Limiter.TokenBucket.{
  Bucket, Entry, live, bucket_of, script, available, decide, get_usage, credit, debit,
}
use policyd_py.Limiter.TokenBucket.Filling.{decide-denied, decide-allowed}

le_div : (c x u : ℕ) → 0 < u → c ≤ x / u → c * u ≤ x
le_div c x u p h = grind arith

div_le : (c x u : ℕ) → 0 < u → c * u < x + u + 1 → c ≤ x / u + 1
div_le c x u p h = grind arith

-- The tokens that `get_usage` finds in use, in parts.
used : ℕ → ℕ → ℕ → ℕ → Option Bucket → ℕ
used capacity refill unit now stored =
    capacity * unit + debit capacity refill unit now stored - credit capacity refill unit now stored

empty_denied :
    (capacity refill unit now : ℕ) (stored : Option Bucket)
    → 0 < unit
    → capacity * unit ≤ used capacity refill unit now stored
    → available capacity refill unit now stored < unit
unfolding used available
empty_denied capacity refill unit now stored p h = omega (arith, h, p)

few_used :
    (capacity refill unit now : ℕ) (stored : Option Bucket)
    → 0 < unit
    → available capacity refill unit now stored < unit
    → capacity * unit < used capacity refill unit now stored + unit + 1
unfolding used available
few_used capacity refill unit now stored p h = omega (arith, h, p)

denied_few :
    (capacity refill unit now : ℕ) (stored : Option Bucket)
    → (decide capacity refill unit now stored).0.allowed ≡ false
    → available capacity refill unit now stored < unit
denied_few capacity refill unit now stored h =
    elim (Bool-cases (ltb (available capacity refill unit now stored) unit)) [
      | inl few ↦ ltb→lt _ unit few
      | inr enough ↦ cc (decide-allowed capacity refill unit now stored (ground arith)).0
    ]

decide_denied :
    (capacity refill unit now : ℕ) (stored : Option Bucket)
    → 0 < unit
    → (capacity ≤ get_usage capacity refill unit now stored
        → (decide capacity refill unit now stored).0.allowed ≡ false)
      × ((decide capacity refill unit now stored).0.allowed ≡ false
          → capacity ≤ get_usage capacity refill unit now stored + 1)
unfolding get_usage used
decide_denied capacity refill unit now stored p = (
  (λ h.
      (decide-denied capacity refill unit now stored (
        empty_denied capacity refill unit now stored p
          (le_div capacity (used capacity refill unit now stored) unit p h))).0),
  (λ h.
      div_le capacity (used capacity refill unit now stored) unit p (
        few_used capacity refill unit now stored p (denied_few capacity refill unit now stored h))),
)

-- For a bucket of at least one part per token, of whatever age: if the usage that `get_usage` reports is at the
-- limit or above, the script denies a request at that time. If the script denies one, the usage is at least
-- the limit less one: what is left of a token is not counted.
pub get_usage_denied :
    (capacity refill unit ttl now : ℕ) (stored : Option Entry)
    → 0 < unit
    → (capacity ≤ get_usage capacity refill unit now (bucket_of (live now stored))
        → (script capacity refill unit ttl now stored).0.allowed ≡ false)
      × ((script capacity refill unit ttl now stored).0.allowed ≡ false
          → capacity ≤ get_usage capacity refill unit now (bucket_of (live now stored)) + 1)
unfolding script
get_usage_denied capacity refill unit ttl now stored p =
    decide_denied capacity refill unit now (bucket_of (live now stored)) p
