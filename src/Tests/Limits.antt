-- ===== src/Tests/Limits.antt =====
-- Windows of the rate limiter (policyd_py/ratelimit/limiter.py) at work.
use policyd_py.Base.{
  ℕ, ◌≡◌, refl, List, [], ◌∷◌, arith, ◌+◌, ◌*◌, ◌≤◌, ◌↔◌, none, some, true, false, map,
  if◌then◌else◌,
}
use policyd_py.Limiter.Reply.{IsOrdered, allowed_within}
use policyd_py.Limiter.FixedWindow
use policyd_py.Limiter.FixedWindow.{Window}
use policyd_py.Limiter.FixedWindow.Quota.{allowed_at_most_twice_limit}
use policyd_py.Limiter.FixedWindow.Expiry.{replies_with_expiry, expiry_unobservable}
use policyd_py.Limiter.FixedWindow.Usage.{
  grants, allowed_of, get_usage_decides, window_grants_limit,
}
use policyd_py.Limiter.SlidingWindow
use policyd_py.Limiter.TokenBucket
use policyd_py.Limiter.TokenBucket.{Bucket, Entry}
use policyd_py.Limiter.TokenBucket.Usage.{get_usage_denied}
use policyd_py.Limiter.SlidingWindow.{Counter, effective, roll, ceil}
use policyd_py.Limiter.SlidingWindow.Agreement.{get_usage_agrees}
use policyd_py.Limiter.SlidingWindow.Quota.{allowed_in_window_at_most_limit}

-- The end of one window and the start of the next.
abbrev burst : List ℕ
burst = 0 ∷ 59 ∷ 60 ∷ 61 ∷ 62 ∷ []

burst-IsOrdered : IsOrdered 0 burst
burst-IsOrdered = (omega arith, (omega arith, (omega arith, (omega arith, (omega arith, tt)))))

abbrev one_left : Window
one_left = record { count = 1; window_start = 0 }

allowed_at_most_twice_limit_example :
    allowed_within 10 60 burst (FixedWindow.replies 2 60 (some one_left) burst) ≤ 2 + 2
allowed_at_most_twice_limit_example =
    allowed_at_most_twice_limit 2 60 10 0 burst (some one_left) burst-IsOrdered (omega arith)

expiry_unobservable_example :
    replies_with_expiry 2 60 120 none burst ≡ FixedWindow.replies 2 60 none burst
expiry_unobservable_example = expiry_unobservable 2 60 120 0 burst (omega arith) burst-IsOrdered

get_usage_decides_example :
    ((1 ≤ FixedWindow.get_usage 60 5 (some one_left))
      ↔ ((FixedWindow.script 1 60 5 (some one_left)).0.allowed ≡ false))
    × ((FixedWindow.script 1 60 5 (some one_left)).0.usage ≡ (
        if (FixedWindow.script 1 60 5 (some one_left)).0.allowed
        then FixedWindow.get_usage 60 5 (some one_left) + 1
        else FixedWindow.get_usage 60 5 (some one_left)))
get_usage_decides_example = get_usage_decides 1 60 5 (some one_left)

window_grants_limit_example :
    map allowed_of (FixedWindow.replies 2 60 none (0 ∷ 59 ∷ 3 ∷ [])) ≡ grants 2 (0 ∷ 59 ∷ 3 ∷ [])
window_grants_limit_example =
    window_grants_limit 2 60 0 (59 ∷ 3 ∷ []) (omega arith, (omega arith, tt))

abbrev last_window : Counter
last_window = record { previous_count = 3; current_count = 5; window_start = 120 }

get_usage_agrees_example :
    SlidingWindow.get_usage 60 190 (some last_window)
    ≡ ceil 60 (effective 60 190 (roll 60 190 (some last_window)))
get_usage_agrees_example =
    get_usage_agrees 60 190 last_window (omega arith) (2, refl) (omega arith) (omega arith)

denied : (SlidingWindow.script 4 60 190 (some last_window)).0.allowed ≡ false
unfolding SlidingWindow.script effective roll SlidingWindow.current_window_start
denied = refl

abbrev four_counted : Counter
four_counted = record { previous_count = 3; current_count = 4; window_start = 120 }

allowed_in_window_at_most_limit_example :
    allowed_within
      (3 * 60)
      60
      (181 ∷ 190 ∷ 230 ∷ 239 ∷ [])
      (SlidingWindow.replies 4 60 (some four_counted) (181 ∷ 190 ∷ 230 ∷ 239 ∷ []))
    ≤ 4
allowed_in_window_at_most_limit_example =
    allowed_in_window_at_most_limit 4 60 3 180 (181 ∷ 190 ∷ 230 ∷ 239 ∷ []) (some four_counted)
      (omega arith) (omega arith, (omega arith, (omega arith, (omega arith, tt))))
      ((2, refl), omega arith, omega arith)

-- Two tokens, of which one is back each second: 1000 parts a token, one a millisecond.
abbrev half_a_token : Bucket
half_a_token = record { tokens = 500; last_refill_ms = 10000 }

-- Its key, 62 seconds before it expires.
abbrev half_kept : Entry
half_kept = record { bucket = half_a_token; expires_at_ms = half_a_token.last_refill_ms + 62000 }

get_usage_denied_example :
    (2
        ≤ TokenBucket.get_usage 2 1 1000 10100
            (TokenBucket.bucket_of (TokenBucket.live 10100 (some half_kept)))
      → (TokenBucket.script 2 1 1000 62 10100 (some half_kept)).0.allowed ≡ false)
    × ((TokenBucket.script 2 1 1000 62 10100 (some half_kept)).0.allowed ≡ false
        → 2
          ≤ TokenBucket.get_usage 2 1 1000 10100
              (TokenBucket.bucket_of (TokenBucket.live 10100 (some half_kept)))
            + 1)
get_usage_denied_example = get_usage_denied 2 1 1000 62 10100 (some half_kept) (omega arith)

-- With a part of a token left the script denies, and the usage that `get_usage` reports is below the limit.
denied_below_limit :
    ((TokenBucket.script 2 1 1000 62 10100 (some half_kept)).0.allowed ≡ false)
    × (TokenBucket.get_usage 2 1 1000 10100
          (TokenBucket.bucket_of (TokenBucket.live 10100 (some half_kept)))
        ≡ 1)
unfolding TokenBucket.script TokenBucket.live TokenBucket.get_usage TokenBucket.decide
    TokenBucket.available TokenBucket.credit TokenBucket.debit
denied_below_limit = (refl, refl)

-- One token, of which a thousandth is back each second, on a key that expires after 61 seconds: the bucket is
-- far from full by then, and still the request that comes then is let through, which no refill would give.
slow_refill : (TokenBucket.replies 1 1 1000000 61 none (0 ∷ 60999 ∷ 61000 ∷ [])) ≡ (
    record { allowed = true; usage = 1 }
    ∷ record { allowed = false; usage = 1 }
    ∷ record { allowed = true; usage = 1 }
    ∷ [])
unfolding TokenBucket.replies TokenBucket.script TokenBucket.live TokenBucket.stored_entry
    TokenBucket.decide TokenBucket.available TokenBucket.credit TokenBucket.debit
slow_refill = refl
