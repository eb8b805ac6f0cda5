-- ===== src/Limiter/TokenBucket/Filling.antt =====
-- The bucket of TOKEN_BUCKET_LUA of policyd_py/ratelimit/limiter.py over time and over one run.
use policyd_py.Base.{
  lt→ltb, ℕ, ◌+◌, ◌-◌, ◌*◌, ◌≤◌, ◌<◌, ltb, ◌≡◌, refl, arith, true, false, Option, none, some,
}
use policyd_py.Limiter.TokenBucket.{Bucket, credit, debit, available, decide}

-- The last refill is not after `now`, and the bucket holds what it can hold.
abbrev pub IsFilled : ℕ → ℕ → ℕ → Option Bucket → Type 0
IsFilled capacity unit now none = Unit
IsFilled capacity unit now (some b) = (b.last_refill_ms ≤ now) × (b.tokens ≤ capacity * unit)

pub mul_le : (r a b : ℕ) → a ≤ b → r * a ≤ r * b
mul_le r a b h = grind arith

module _ (capacity refill unit : ℕ) where
  pub IsFilled-later :
      (lo now : ℕ) (stored : Option Bucket)
      → lo ≤ now
      → IsFilled capacity unit lo stored
      → IsFilled capacity unit now stored
  IsFilled-later lo now none h f = tt
  IsFilled-later lo now (some b) h f = (omega (arith, h, f.0), f.1)

  pub available-later :
      (lo now : ℕ) (stored : Option Bucket)
      → lo ≤ now
      → IsFilled capacity unit lo stored
      → available capacity refill unit now stored + refill * lo
        ≤ available capacity refill unit lo stored + refill * now
  unfolding available credit debit
  available-later lo now none h f = omega (arith, mul_le refill lo now h)
  available-later lo now (some b) h f =
      omega (arith, mul_le refill lo now h, mul_le refill b.last_refill_ms lo f.0)

  pub available-after :
      (now tokens : ℕ)
      → tokens ≤ capacity * unit
      → available capacity refill unit now (some (record { tokens = tokens; last_refill_ms = now }))
        ≡ tokens
  unfolding available credit debit
  available-after now tokens h = omega (arith, h)

  pub available-capped :
      (now : ℕ) (stored : Option Bucket)
      → available capacity refill unit now stored ≤ capacity * unit
  unfolding available
  available-capped now stored = omega arith

  -- What one run of the script does.
  pub decide-denied :
      (now : ℕ) (stored : Option Bucket)
      → available capacity refill unit now stored < unit
      → ((decide capacity refill unit now stored).0.allowed ≡ false)
        × ((decide capacity refill unit now stored).1 ≡ stored)
  unfolding decide
  decide-denied now stored h =
      rw (lt→ltb (available capacity refill unit now stored) unit h) (refl, refl)

  pub decide-allowed :
      (now : ℕ) (stored : Option Bucket)
      → unit ≤ available capacity refill unit now stored
      → ((decide capacity refill unit now stored).0.allowed ≡ true)
        × ((decide capacity refill unit now stored).1
            ≡ some (record {
              tokens = available capacity refill unit now stored - unit;
              last_refill_ms = now;
            }))
  unfolding decide
  decide-allowed now stored h =
      rw (not_ltb (available capacity refill unit now stored) unit h) (refl, refl)
    where
      not_ltb : (a b : ℕ) → b ≤ a → ltb a b ≡ false
      not_ltb a b h = ground arith
