-- ===== src/Limiter/FixedWindow.antt =====
-- FIXED_WINDOW_LUA of policyd_py/ratelimit/limiter.py, over the hash that the script keeps at its
-- key, and the fixed-window branch of `RateLimiter.get_usage`. Times are whole seconds.
pub mod Quota
pub mod Expiry
pub mod Usage
use policyd_py.Base.{
  ℕ, ◌+◌, Bool, true, false, Option, none, some, List, [], ◌∷◌, leb, if◌then◌else◌,
}
use policyd_py.Limiter.Reply.{Reply}

-- The fields that the script writes, always both together.
pub record Window : Type 0 where
  pub count : ℕ
  pub window_start : ℕ

-- The window that counts at `now`: a new one if there is none, or if its time is over. The test
-- `now - window_start >= window_duration` is written without a subtraction.
unfoldable pub current_window : ℕ → ℕ → Option Window → Window
current_window window_duration now none = record { count = 0; window_start = now }
current_window window_duration now (some w) =
    if leb (w.window_start + window_duration) now
    then record { count = 0; window_start = now }
    else w

-- What a run replies and leaves at the key: a denied request writes nothing.
unfoldable pub decide : ℕ → Window → Option Window → Reply × Option Window
decide limit w stored =
    if leb limit w.count then (record { allowed = false; usage = w.count }, stored) else (
      record { allowed = true; usage = w.count + 1 },
      some (record { count = w.count + 1; window_start = w.window_start }),
    )

unfoldable pub script : ℕ → ℕ → ℕ → Option Window → Reply × Option Window
unfolding current_window decide
script limit window_duration now stored =
    decide limit (current_window window_duration now stored) stored

-- The replies to requests at the given times, on a key that does not expire meanwhile.
unfoldable pub replies : ℕ → ℕ → Option Window → List ℕ → List Reply
replies limit window_duration stored [] = []
replies limit window_duration stored (now ∷ times) =
    let (reply, stored') = script limit window_duration now stored in
    reply ∷ replies limit window_duration stored' times

-- `get_usage` where `limit.algorithm == "fixed_window"`
unfoldable pub get_usage : ℕ → ℕ → Option Window → ℕ
get_usage duration now none = 0
get_usage duration now (some w) = if leb (w.window_start + duration) now then 0 else w.count
