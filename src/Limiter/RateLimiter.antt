-- ===== src/Limiter/RateLimiter.antt =====
-- The class `RateLimiter` of policyd_py/ratelimit/limiter.py. A Lua script is named by the text that
-- Redis is given; what the scripts do is in FixedWindow and SlidingWindow.
use policyd_py.Base.{
  ℕ, ◌+◌, ◌*◌, Bool, true, false, Option, none, some, List, [], ◌∷◌, ◌++◌, ◌==◌, if◌then◌else◌,
  Text, codes, text_eq, decimal, Exception, value_error, Outcome, returned, raised, Eff, pure,
  try_except, ◌>>=◌, ◌>>◌,
}
use policyd_py.Floats.{Floats}
use policyd_py.Config.{RateLimit, fixed_window, sliding_window_counter, token_bucket}
use policyd_py.Outside.{Outside, Argument, int_argument, float_argument, ScriptResult, many, single}
use policyd_py.Redis
use policyd_py.Redis.{RedisClient}

-- TOKEN_BUCKET_LUA, FIXED_WINDOW_LUA and SLIDING_WINDOW_COUNTER_LUA.
pub record Scripts : Type 0 where
  pub token_bucket_lua : Text
  pub fixed_window_lua : Text
  pub sliding_window_counter_lua : Text

-- The hashes that `init_scripts` loaded, if it did.
pub record RateLimiter : Type 0 where
  pub lua_hash_token_bucket : Option Text
  pub lua_hash_fixed_window : Option Text
  pub lua_hash_sliding_window_counter : Option Text
  pub use_lua : Bool

-- The prefixes, and the separator before the duration.
unfoldable pub key_for_limit : {Float : Type 0} → Text → RateLimit Float → Text
key_for_limit sender limit =
    if text_eq limit.algorithm fixed_window
    then codes "ratelimit:window:" ++ (sender ++ (codes ":" ++ decimal limit.duration))
    else if text_eq limit.algorithm sliding_window_counter
    then codes "ratelimit:sliding:" ++ (sender ++ (codes ":" ++ decimal limit.duration))
    else codes "ratelimit:bucket:" ++ (sender ++ (codes ":" ++ decimal limit.duration))

-- A list that is too short makes `int(result)` raise.
unfoldable pub decode_script_result : ScriptResult → Outcome (Bool × ℕ)
decode_script_result (many (allowed ∷ usage ∷ rest)) = returned (allowed == 1, usage)
decode_script_result (many (allowed ∷ [])) = raised (value_error (codes "int() of a list"))
decode_script_result (many []) = raised (value_error (codes "int() of a list"))
decode_script_result (single n) = returned (n == 1, 0)

-- The tuple (allowed, info, error) of `check_limit`.
pub data Verdict : Type 0 where
  permitted : Text → Verdict
  exceeded : Text → Verdict
  failed : Exception → Verdict

module _ (F : Floats) (o : Outside F.Float) (scripts : Scripts) where
  open F use {Float, to_text}
  open o use {World}

  abbrev decoded : ScriptResult → Eff (RedisClient World) (Bool × ℕ)
  decoded result c = (decode_script_result result, c)

  -- evalsha with a loaded hash; `except Exception: pass` goes on to eval
  run_script :
      Option Text → Text → Text → List (Argument Float) → Eff (RedisClient World) (Bool × ℕ)
  unfolding decode_script_result Redis.eval Redis.evalsha
  run_script none script key args = do result ← Redis.eval o script (key ∷ []) args; decoded result
  run_script (some hash) script key args =
      try_except (do result ← Redis.evalsha o hash (key ∷ []) args; decoded result)
        (λ _. do result ← Redis.eval o script (key ∷ []) args; decoded result)

  unfoldable pub check_token_bucket :
      RateLimiter → Text → RateLimit Float → Eff (RedisClient World) (Bool × ℕ)
  unfolding run_script
  check_token_bucket r sender limit =
      run_script r.lua_hash_token_bucket scripts.token_bucket_lua (key_for_limit sender limit) (
        int_argument limit.count
        ∷ float_argument limit.refill_rate
        ∷ int_argument (limit.duration + 60)
        ∷ [])

  unfoldable pub check_fixed_window :
      RateLimiter → Text → RateLimit Float → Eff (RedisClient World) (Bool × ℕ)
  unfolding run_script
  check_fixed_window r sender limit =
      run_script r.lua_hash_fixed_window scripts.fixed_window_lua (key_for_limit sender limit) (
        int_argument limit.count
        ∷ int_argument limit.duration
        ∷ int_argument (limit.duration + 60)
        ∷ [])

  unfoldable pub check_sliding_window_counter :
      RateLimiter → Text → RateLimit Float → Eff (RedisClient World) (Bool × ℕ)
  unfolding run_script
  check_sliding_window_counter r sender limit =
      run_script r.lua_hash_sliding_window_counter scripts.sliding_window_counter_lua
        (key_for_limit sender limit)
        (int_argument limit.count
          ∷ int_argument limit.duration
          ∷ int_argument (limit.duration * 2 + 60)
          ∷ [])

  unfoldable pub check_single_limit :
      RateLimiter → Text → RateLimit Float → Eff (RedisClient World) (Bool × ℕ)
  unfolding check_fixed_window check_sliding_window_counter check_token_bucket
  check_single_limit r sender limit =
      if text_eq limit.algorithm fixed_window
      then check_fixed_window r sender limit
      else if text_eq limit.algorithm sliding_window_counter
      then check_sliding_window_counter r sender limit
      else check_token_bucket r sender limit

  -- The info of one limit.
  usage_info : RateLimit Float → ℕ → Text
  usage_info limit usage =
      let base = codes "usage=" ++ (decimal usage ++ (codes "/" ++ decimal limit.count)) in
      if text_eq limit.algorithm token_bucket
      then base ++ (codes ", rate=@" ++ (to_text limit.refill_rate ++ codes "/s"))
      else if text_eq limit.algorithm sliding_window_counter
      then base ++ codes ", algorithm=sliding_window_counter"
      else base

  unfoldable pub exceeded_message : RateLimit Float → ℕ → Text
  exceeded_message limit usage =
      codes "Rate limit exceeded: "
      ++ (decimal limit.count
          ++ (codes " messages per "
              ++ (decimal limit.duration
                  ++ (codes "s (current: " ++ (decimal usage ++ codes ")")))))

  -- "; ".join(parts)
  join_parts : List Text → Text
  join_parts [] = []
  join_parts (t ∷ []) = t
  join_parts (t ∷ u ∷ ts) = t ++ (codes "; " ++ join_parts (u ∷ ts))

  -- The rest of the loop, from the outcome of the check of one limit; `parts` is `info_parts`.
  abbrev after_check :
      RateLimit Float
      → List Text
      → (List Text → RedisClient World → Verdict × RedisClient World)
      → Outcome (Bool × ℕ) × RedisClient World
      → Verdict × RedisClient World
  after_check limit parts rest (raised e, c) = (failed e, c)
  after_check limit parts rest (returned (true, usage), c) =
      rest (parts ++ usage_info limit usage ∷ []) c
  after_check limit parts rest (returned (false, usage), c) =
      (exceeded (exceeded_message limit usage), c)

  unfoldable pub check_limits :
      RateLimiter
      → Text
      → List (RateLimit Float)
      → List Text
      → RedisClient World
      → Verdict × RedisClient World
  unfolding usage_info join_parts
  check_limits r sender [] parts c = (permitted (join_parts parts), c)
  check_limits r sender (limit ∷ limits) parts c = elim limit.unlimited [
    | true ↦ check_limits r sender limits (parts ++ codes "usage=unlimited" ∷ []) c
    | false ↦
        after_check limit parts (check_limits r sender limits) (check_single_limit r sender limit c)
  ]

  unfoldable pub check_limit :
      RateLimiter → Text → List (RateLimit Float) → RedisClient World → Verdict × RedisClient World
  unfolding check_limits
  check_limit r sender limits c = check_limits r sender limits [] c

  -- get_usage and the rest of the class are in the modules of the algorithms.
  unfoldable pub reset_limit : Text → RateLimit Float → Eff (RedisClient World) (Unit {0})
  unfolding Redis.delete
  reset_limit sender limit = do Redis.delete o (key_for_limit sender limit); pure tt

  -- One `self.hash = await self.redis.script_load(...)` after another: a failure ends the row, and the
  -- hashes that are set stay set.
  load_sliding : RateLimiter → RedisClient World → RateLimiter × RedisClient World
  unfolding Redis.script_load
  load_sliding r c =
      let (loaded, c') = Redis.script_load o scripts.sliding_window_counter_lua c in
      (
        elim loaded [
          | returned hash ↦ record r { lua_hash_sliding_window_counter = some hash }
          | raised e ↦ r
        ],
        c',
      )

  load_fixed : RateLimiter → RedisClient World → RateLimiter × RedisClient World
  unfolding Redis.script_load load_sliding
  load_fixed r c =
      let (loaded, c') = Redis.script_load o scripts.fixed_window_lua c in
      elim loaded [
        | returned hash ↦ load_sliding (record r { lua_hash_fixed_window = some hash }) c'
        | raised e ↦ (r, c')
      ]

  load_bucket : RateLimiter → RedisClient World → RateLimiter × RedisClient World
  unfolding Redis.script_load load_fixed
  load_bucket r c =
      let (loaded, c') = Redis.script_load o scripts.token_bucket_lua c in
      elim loaded [
        | returned hash ↦ load_fixed (record r { lua_hash_token_bucket = some hash }) c'
        | raised e ↦ (r, c')
      ]

  unfoldable pub init_scripts : RateLimiter → RedisClient World → RateLimiter × RedisClient World
  unfolding load_bucket
  init_scripts r c = if r.use_lua then load_bucket r c else (r, c)
