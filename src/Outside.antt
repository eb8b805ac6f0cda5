-- ===== src/Outside.antt =====
-- What the program calls and does not implement: the clock, the Redis server behind its driver,
-- and the name resolver. All of it shares one state, `World`, whose behaviour (which keys are there,
-- which calls fail) is a parameter. An operation may raise, and may change the world all the same.
use policyd_py.Base.{ℕ, ℤ, Bool, Option, List, Text, Eff}
use policyd_py.Base.Dict.{Dict}

-- An argument of a Lua script.
pub data Argument (Float : Type 0) : Type 0 where
  int_argument : ℕ → Argument Float
  float_argument : Float → Argument Float

-- The object that `evalsha` and `eval` return.
pub data ScriptResult : Type 0 where
  many : List ℕ → ScriptResult
  single : ℕ → ScriptResult

pub record Outside (Float : Type 0) : Type 1 where
  pub World : Type 0
  -- time.time(), in microseconds
  pub time : World → ℕ
  -- loop.getaddrinfo(domain, None)
  pub getaddrinfo : Text → Eff World (Unit {0})
  -- the commands of the Redis driver
  pub script_load : Text → Eff World Text
  pub evalsha : Text → List Text → List (Argument Float) → Eff World ScriptResult
  pub eval : Text → List Text → List (Argument Float) → Eff World ScriptResult
  pub hgetall : Text → Eff World (Dict Text)
  pub exists : Text → Eff World Bool
  -- SET key value EX seconds, and the same with NX
  pub set : Text → Text → ℕ → Eff World Bool
  pub set_nx : Text → Text → ℕ → Eff World Bool
  pub delete : Text → Eff World ℕ
  pub get : Text → Eff World (Option Text)
  pub incr : Text → Eff World ℕ
  pub sadd : Text → List Text → Eff World ℕ
  pub sismember : Text → Text → Eff World Bool
  pub expire : Text → ℕ → Eff World Bool
  pub lpush : Text → Text → Eff World ℕ
  pub brpop : Text → Eff World (Option Text)
  pub zadd : Text → Text → ℕ → Eff World ℕ
  -- ZRANGEBYSCORE key -inf max
  pub zrangebyscore : Text → ℕ → Eff World (List Text)
  pub zrem : Text → List Text → Eff World ℕ
  pub ttl : Text → Eff World ℤ
