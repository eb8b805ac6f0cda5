-- ===== src/Limiter/SlidingWindow.antt =====
-- SLIDING_WINDOW_COUNTER_LUA of policyd_py/ratelimit/limiter.py, over the hash that the script keeps
-- at its key, and the sliding branch of `RateLimiter.get_usage`. Times are whole seconds. Both
-- compute with `weight`, a fraction of `window_duration`: here every quantity that has the weight in
-- it is multiplied by `window_duration`, so that the arithmetic is exact; the rounding of the
-- program's floating point numbers is not modelled. `window_duration` is taken to be positive.
pub mod Agreement
pub mod Quota
use policyd_py.Base.{
  ℕ, ◌+◌, ◌-◌, ◌*◌, ◌/◌, ◌%◌, Bool, true, false, ◌||◌, Option, none, some, List, [], ◌∷◌, leb, ltb,
  ◌==◌, if◌then◌else◌,
}
use policyd_py.Limiter.Reply.{Reply}

pub record Counter : Type 0 where
  pub previous_count : ℕ
  pub current_count : ℕ
  pub window_start : ℕ

-- now - (now % window_duration)
unfoldable pub current_window_start : ℕ → ℕ → ℕ
current_window_start window_duration now = now - now % window_duration

-- The counts that hold at `now`: those stored, moved on if another window has begun.
unfoldable pub roll : ℕ → ℕ → Option Counter → Counter
roll window_duration now none = record {
  previous_count = 0;
  current_count = 0;
  window_start = current_window_start window_duration now;
}
roll window_duration now (some c) =
    let start = current_window_start window_duration now in
    if ltb c.window_start start
    then record {
      previous_count =
          if (start - c.window_start) / window_duration == 1 then c.current_count else 0;
      current_count = 0;
      window_start = start;
    }
    else c

-- `effective_count`, times `window_duration`. The weight is 0 where it would be negative.
unfoldable pub effective : ℕ → ℕ → Counter → ℕ
effective window_duration now c =
    c.current_count * window_duration + c.previous_count * (window_duration + c.window_start - now)

-- math.ceil of a number that is given times `window_duration`
unfoldable pub ceil : ℕ → ℕ → ℕ
ceil window_duration x = (x + (window_duration - 1)) / window_duration

unfoldable pub decide : ℕ → ℕ → ℕ → Counter → Option Counter → Reply × Option Counter
decide limit window_duration now c stored =
    let counted = record c { current_count = c.current_count + 1 } in
    if leb (limit * window_duration) (effective window_duration now c)
    then (
      record { allowed = false; usage = ceil window_duration (effective window_duration now c) },
      stored,
    )
    else (
      record {
        allowed = true;
        usage = ceil window_duration (effective window_duration now counted);
      },
      some counted,
    )

unfoldable pub script : ℕ → ℕ → ℕ → Option Counter → Reply × Option Counter
unfolding decide
script limit window_duration now stored =
    decide limit window_duration now (roll window_duration now stored) stored

-- The replies to requests at the given times, on a key that does not expire meanwhile.
unfoldable pub replies : ℕ → ℕ → Option Counter → List ℕ → List Reply
replies limit window_duration stored [] = []
replies limit window_duration stored (now ∷ times) =
    let (reply, stored') = script limit window_duration now stored in
    reply ∷ replies limit window_duration stored' times

-- The lines of `get_usage` from `weight` on, with the elapsed time `now - window_start`, which is negative at a
-- time before `window_start`; `weight` and `effective_count` are times `duration`.
unfoldable pub weight : ℕ → ℕ → ℕ → ℕ
weight duration window_start now =
    if ltb now window_start
    then duration + (window_start - now)
    else duration - (now - window_start)

-- int(math.ceil(x / duration))
unfoldable pub round_up : ℕ → ℕ → ℕ
round_up duration x = if x % duration == 0 then x / duration else x / duration + 1

unfoldable pub weighted_usage : ℕ → ℕ → ℕ → ℕ → ℕ → ℕ
unfolding weight round_up
weighted_usage duration previous_count current_count window_start now =
    round_up duration (current_count * duration + previous_count * weight duration window_start now)

-- `get_usage` where `limit.algorithm == "sliding_window_counter"`. At a time before `window_start`
-- the elapsed time is negative, so it is not the length of a window.
usage_of : ℕ → ℕ → Counter → ℕ
unfolding weighted_usage
usage_of duration now c =
    let elapsed = now - c.window_start in
    if leb duration elapsed
    then (if elapsed / duration == 1
        then weighted_usage duration c.current_count 0 (c.window_start + duration) now
        else 0)
    else weighted_usage duration c.previous_count c.current_count c.window_start now

unfoldable pub get_usage : ℕ → ℕ → Option Counter → ℕ
unfolding usage_of
get_usage duration now none = 0
get_usage duration now (some c) =
    if c.window_start == 0 || duration == 0 then 0 else usage_of duration now c
