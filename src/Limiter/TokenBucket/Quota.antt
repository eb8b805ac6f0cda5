-- ===== src/Limiter/TokenBucket/Quota.antt =====
-- How many requests TOKEN_BUCKET_LUA of policyd_py/ratelimit/limiter.py lets through.
use policyd_py.Base.{ℕ, ◌-◌, Option, some, List}
use policyd_py.Limiter.Reply.{allowed_within}
use policyd_py.Limiter.TokenBucket.{Bucket, available, decisions}

module _ (capacity refill unit : ℕ) where
  module _ (from span : ℕ) where
    total : Option Bucket → List ℕ → ℕ
    total stored times =
        allowed_within from span times (decisions capacity refill unit stored times)

    spent : ℕ → Option Bucket → Option Bucket
    spent now stored =
        some (record {
          tokens = available capacity refill unit now stored - unit;
          last_refill_ms = now;
        })
