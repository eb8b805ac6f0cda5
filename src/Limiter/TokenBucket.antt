-- ===== src/Limiter/TokenBucket.antt =====
-- The Lua script TOKEN_BUCKET_LUA of policyd_py/ratelimit/limiter.py and the branch of `get_usage` for
-- it, over the hash of one key. Tokens are counted exactly, in parts of which `unit` make one token and
-- `refill` come each millisecond: `refill_rate` is 1000 * refill / unit. The script rounds what it stores
-- to six decimals, and the model does not.
pub mod Filling
pub mod Expiry
pub mod Quota
pub mod Usage
use policyd_py.Base.{
  ℕ, ◌+◌, ◌-◌, ◌*◌, ◌/◌, min, ltb, leb, true, false, Option, none, some, List, [], ◌∷◌,
  if◌then◌else◌,
}
use policyd_py.Limiter.Reply.{Reply}

pub record Bucket : Type 0 where
  pub tokens : ℕ
  pub last_refill_ms : ℕ

-- The hash, and the millisecond when it expires.
pub record Entry : Type 0 where
  pub bucket : Bucket
  pub expires_at_ms : ℕ

-- What a read finds.
unfoldable pub live : ℕ → Option Entry → Option Entry
live now_ms none = none
live now_ms (some e) = if leb e.expires_at_ms now_ms then none else some e

abbrev pub bucket_of : Option Entry → Option Bucket
bucket_of none = none
bucket_of (some e) = some e.bucket

-- A request that is let through sets the time to live; one that is denied leaves the key as it is.
unfoldable pub stored_entry : ℕ → Reply → Option Entry → Option Bucket → Option Entry
stored_entry expires_at_ms reply before none = none
stored_entry expires_at_ms reply before (some b) =
    if reply.allowed then some (record { bucket = b; expires_at_ms = expires_at_ms }) else before

module _ (capacity refill unit : ℕ) where
  -- What has been put in up to `now_ms`, and the refill that was counted before: their difference, which
  -- is negative if the clock was set back far enough, is `tokens` before it is capped.
  unfoldable pub credit : ℕ → Option Bucket → ℕ
  credit now_ms none = capacity * unit + refill * now_ms
  credit now_ms (some b) = b.tokens + refill * now_ms

  unfoldable pub debit : ℕ → Option Bucket → ℕ
  debit now_ms none = refill * now_ms
  debit now_ms (some b) = refill * b.last_refill_ms

  -- `tokens`, and 0 where that is negative.
  unfoldable pub available : ℕ → Option Bucket → ℕ
  unfolding credit debit
  available now_ms stored = min (capacity * unit) (credit now_ms stored - debit now_ms stored)

  -- math.ceil of a number of parts
  unfoldable pub ceil : ℕ → ℕ
  ceil x = (x + (unit - 1)) / unit

  -- The reply, and the fields that are left. `usage` is 0 where it would be negative. A denied request writes
  -- nothing.
  unfoldable pub decide : ℕ → Option Bucket → Reply × Option Bucket
  unfolding available ceil credit debit
  decide now_ms stored =
      if ltb (available now_ms stored) unit
      then (
        record {
          allowed = false;
          usage = ceil (capacity * unit + debit now_ms stored - credit now_ms stored);
        },
        stored,
      )
      else (
        record { allowed = true; usage = ceil (capacity * unit + unit - available now_ms stored) },
        some (record { tokens = available now_ms stored - unit; last_refill_ms = now_ms }),
      )

  -- The decisions on requests at the given times, on a key that is kept for ever.
  unfoldable pub decisions : Option Bucket → List ℕ → List Reply
  unfolding decide
  decisions stored [] = []
  decisions stored (now_ms ∷ times) =
      let (reply, stored') = decide now_ms stored in reply ∷ decisions stored' times

  module _ (ttl : ℕ) where
    -- The script, with the EXPIRE: `ttl` seconds after a request that was let through, the key is gone.
    unfoldable pub script : ℕ → Option Entry → Reply × Option Entry
    unfolding decide live stored_entry
    script now_ms stored =
        let found = live now_ms stored in
        let (reply, b) = decide now_ms (bucket_of found) in
        (reply, stored_entry (now_ms + ttl * 1000) reply found b)

    -- The replies to requests at the given times.
    unfoldable pub replies : Option Entry → List ℕ → List Reply
    unfolding script
    replies stored [] = []
    replies stored (now_ms ∷ times) =
        let (reply, stored') = script now_ms stored in reply ∷ replies stored' times

  -- max(0, int(limit.count - tokens))
  unfoldable pub get_usage : ℕ → Option Bucket → ℕ
  unfolding credit debit
  get_usage now_ms stored = (capacity * unit + debit now_ms stored - credit now_ms stored) / unit
