-- ===== src/Redis.antt =====
-- policyd_py/storage/redis_client.py: the client wrapper, whose every command goes through the
-- circuit breaker if one is enabled.
use policyd_py.Base.{ℕ, ℤ, Bool, Option, none, some, List, [], ◌∷◌, max, Text, Outcome, Eff, pure}
use policyd_py.Base.Dict.{Dict}
use policyd_py.Breaker.{CircuitBreaker, call}
use policyd_py.Outside.{Outside, Argument, ScriptResult}

-- The client, with the world that it talks to.
pub record RedisClient (World : Type 0) : Type 0 where
  pub circuit_breaker : Option CircuitBreaker
  pub world : World

module _ {Float : Type 0} (o : Outside Float) where
  open o use {World, time}

  execute_with :
      {A : Type 0} → Option CircuitBreaker → Eff World A → World → Outcome A × RedisClient World
  unfolding call
  execute_with none func w =
      let (result, w') = func w in (result, record { circuit_breaker = none; world = w' })
  execute_with (some b) func w =
      let (result, b', w') = call (time w) (time (func w).1) func b w in
      (result, record { circuit_breaker = some b'; world = w' })

  -- `_execute`: the clock is read when the call is admitted and when its result is recorded.
  unfoldable pub execute : {A : Type 0} → Eff World A → Eff (RedisClient World) A
  unfolding execute_with
  execute func c = execute_with c.circuit_breaker func c.world

  unfoldable pub script_load : Text → Eff (RedisClient World) Text
  unfolding execute
  script_load script = execute (o.script_load script)

  unfoldable pub evalsha :
      Text → List Text → List (Argument Float) → Eff (RedisClient World) ScriptResult
  unfolding execute
  evalsha sha keys args = execute (o.evalsha sha keys args)

  unfoldable pub eval :
      Text → List Text → List (Argument Float) → Eff (RedisClient World) ScriptResult
  unfolding execute
  eval script keys args = execute (o.eval script keys args)

  unfoldable pub hgetall : Text → Eff (RedisClient World) (Dict Text)
  unfolding execute
  hgetall key = execute (o.hgetall key)

  unfoldable pub exists : Text → Eff (RedisClient World) Bool
  unfolding execute
  exists key = execute (o.exists key)

  unfoldable pub set : Text → Text → ℕ → Eff (RedisClient World) Bool
  unfolding execute
  set key value ttl_seconds = execute (o.set key value (max ttl_seconds 1))

  unfoldable pub setnx : Text → Text → ℕ → Eff (RedisClient World) Bool
  unfolding execute
  setnx key value ttl_seconds = execute (o.set_nx key value (max ttl_seconds 1))

  unfoldable pub delete : Text → Eff (RedisClient World) ℕ
  unfolding execute
  delete key = execute (o.delete key)

  unfoldable pub get : Text → Eff (RedisClient World) (Option Text)
  unfolding execute
  get key = execute (o.get key)

  unfoldable pub incr : Text → Eff (RedisClient World) ℕ
  unfolding execute
  incr key = execute (o.incr key)

  unfoldable pub sadd : Text → List Text → Eff (RedisClient World) ℕ
  unfolding execute
  sadd key [] = pure 0
  sadd key (v ∷ values) = execute (o.sadd key (v ∷ values))

  unfoldable pub sismember : Text → Text → Eff (RedisClient World) Bool
  unfolding execute
  sismember key value = execute (o.sismember key value)

  unfoldable pub expire : Text → ℕ → Eff (RedisClient World) Bool
  unfolding execute
  expire key ttl_seconds = execute (o.expire key ttl_seconds)

  unfoldable pub lpush : Text → Text → Eff (RedisClient World) ℕ
  unfolding execute
  lpush key value = execute (o.lpush key value)

  unfoldable pub brpop : Text → Eff (RedisClient World) (Option Text)
  unfolding execute
  brpop key = execute (o.brpop key)

  unfoldable pub zadd : Text → Text → ℕ → Eff (RedisClient World) ℕ
  unfolding execute
  zadd key member score = execute (o.zadd key member score)

  unfoldable pub zrangebyscore : Text → ℕ → Eff (RedisClient World) (List Text)
  unfolding execute
  zrangebyscore key top = execute (o.zrangebyscore key top)

  unfoldable pub zrem : Text → List Text → Eff (RedisClient World) ℕ
  unfolding execute
  zrem key [] = pure 0
  zrem key (v ∷ values) = execute (o.zrem key (v ∷ values))

  unfoldable pub ttl : Text → Eff (RedisClient World) ℤ
  unfolding execute
  ttl key = execute (o.ttl key)
