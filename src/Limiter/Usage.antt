-- ===== src/Limiter/Usage.antt =====
-- `RateLimiter.get_usage` of policyd_py/ratelimit/limiter.py: the usage that the hash of a limit shows.
use policyd_py.Base.{
  ℕ, ◌/◌, ◌&&◌, Option, none, some, [], ◌∷◌, all, leb, is_empty, if◌then◌else◌, Text, codes,
  text_eq, read_digits, value_error, Outcome, returned, raised, Eff, ◌>>=◌,
}
use policyd_py.Base.Dict
use policyd_py.Base.Dict.{Dict}
use policyd_py.Floats.{Floats}
use policyd_py.Config.{RateLimit, fixed_window, sliding_window_counter}
use policyd_py.Outside.{Outside}
use policyd_py.Redis
use policyd_py.Redis.{RedisClient}
use policyd_py.Limiter.RateLimiter.{key_for_limit}
use policyd_py.Limiter.FixedWindow
use policyd_py.Limiter.FixedWindow.{Window}
use policyd_py.Limiter.SlidingWindow
use policyd_py.Limiter.SlidingWindow.{Counter}

-- int(text) of a text as Redis returns a number of the scripts: decimal digits.
unfoldable pub parse_int : Text → Option ℕ
parse_int [] = none
parse_int (c ∷ s) =
    if all (λ d. leb b'0' d && leb d b'9') (c ∷ s) then some (read_digits 0 (c ∷ s)) else none

-- int(data.get(key, 0))
int_field : Dict Text → Text → Option ℕ
unfolding parse_int
int_field data_dict key = elim (Dict.get data_dict key) [ none ↦ some 0 | some t ↦ parse_int t ]

abbrev not_a_number : {A : Type 0} → Outcome A
not_a_number = raised (value_error (codes "invalid literal for int()"))

fixed_usage : ℕ → ℕ → Option ℕ → Option ℕ → Outcome ℕ
fixed_usage duration now (some n) (some start) =
    returned
      (FixedWindow.get_usage duration now (some (record { count = n; window_start = start })))
fixed_usage duration now _ _ = not_a_number

sliding_usage : ℕ → ℕ → Option ℕ → Option ℕ → Option ℕ → Outcome ℕ
sliding_usage duration now (some p) (some n) (some start) = returned (
    SlidingWindow.get_usage duration now
      (some (record { previous_count = p; current_count = n; window_start = start })))
sliding_usage duration now _ _ _ = not_a_number

module _ (F : Floats) (o : Outside F.Float) where
  open F use {Float, of_ℕ, plus, minus, times, over, less, truncate, of_text}
  open o use {World, time}

  -- int(time.time()) and int(time.time() * 1000)
  abbrev now_s : World → ℕ
  now_s w = time w / 1000000

  abbrev now_ms : World → ℕ
  now_ms w = time w / 1000

  -- The difference of the times may be negative.
  abbrev seconds_between : ℕ → ℕ → Float
  seconds_between now last = over (minus (of_ℕ now) (of_ℕ last)) (of_ℕ 1000)

  tokens_usage : RateLimit Float → ℕ → Option Float → Option ℕ → Outcome ℕ
  tokens_usage limit now (some tokens) (some last_refill) =
      let filled = plus tokens (times (seconds_between now last_refill) limit.refill_rate) in
      let capped = if less filled (of_ℕ limit.count) then filled else of_ℕ limit.count in
      truncate (minus (of_ℕ limit.count) capped)
  tokens_usage limit now _ _ = not_a_number

  bucket_usage : RateLimit Float → ℕ → Dict Text → Outcome ℕ
  unfolding tokens_usage
  bucket_usage limit now data_dict =
      tokens_usage limit now
        (elim (Dict.get data_dict (codes "tokens")) [
          | none ↦ some (of_ℕ limit.count)
          | some t ↦ of_text t
        ])
        (elim (Dict.get data_dict (codes "last_refill_ms")) [
          | none ↦ some now
          | some t ↦ parse_int t
        ])

  -- The clock is read after the hash.
  unfoldable pub usage_in : RateLimit Float → Dict Text → World → Outcome ℕ
  unfolding fixed_usage sliding_usage bucket_usage int_field
  usage_in limit data_dict w =
      if is_empty data_dict
      then returned 0
      else if text_eq limit.algorithm fixed_window
      then fixed_usage limit.duration (now_s w) (int_field data_dict (codes "count"))
          (int_field data_dict (codes "window_start"))
      else if text_eq limit.algorithm sliding_window_counter
      then sliding_usage limit.duration (now_s w) (int_field data_dict (codes "previous_count"))
          (int_field data_dict (codes "current_count")) (int_field data_dict (codes "window_start"))
      else bucket_usage limit (now_ms w) data_dict

  unfoldable pub get_usage : Text → RateLimit Float → Eff (RedisClient World) ℕ
  unfolding usage_in Redis.hgetall
  get_usage sender limit = do
    data_dict ← Redis.hgetall o (key_for_limit sender limit)
    λ c. (usage_in limit data_dict c.world, c)
