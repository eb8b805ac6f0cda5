-- ===== src/Limiter.antt =====
-- policyd_py/ratelimit/limiter.py: the rate limiter and its Lua scripts.
pub mod Reply
pub mod RateLimiter
pub mod Usage
pub mod FixedWindow
pub mod SlidingWindow
pub mod TokenBucket
