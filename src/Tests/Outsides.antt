-- ===== src/Tests/Outsides.antt =====
-- A concrete world for the runs: a server that knows no key, grants every script and refuses to push to
-- a list; a clock that does not move. Floating point numbers are stood for by natural numbers.
use policyd_py.Base.{
  pos, ℕ, ◌+◌, ◌-◌, ◌*◌, ◌/◌, ltb, ◌==◌, true, false, none, some, [], ◌∷◌, codes, decimal,
  redis_error, returned, pure, raise,
}
use policyd_py.Floats.{Floats}
use policyd_py.Config.{AppConfig, RateLimit, fixed_window}
use policyd_py.Models.{PolicyRequest, parse_from_dict}
use policyd_py.Outside.{Outside, ScriptResult, many}
use policyd_py.Redis.{RedisClient}
use policyd_py.Stats
use policyd_py.Handler.{Engine, Handler, Actions}

abbrev pub whole_numbers : Floats
whole_numbers = record {
  Float = ℕ;
  zero_float = 0;
  one_float = 1;
  of_ℕ = λ n. n;
  plus = λ a b. a + b;
  minus = λ a b. a - b;
  times = λ a b. a * b;
  over = λ a b. a / b;
  less = ltb;
  ceiling = λ x. returned x;
  truncate = λ x. returned x;
  is_close_to_one = λ x. x == 1;
  of_text = λ s. none;
  to_text = decimal;
}

abbrev pub with_answer : ScriptResult → Outside ℕ
with_answer answer = record {
  World = ℕ;
  time = λ w. 1000000;
  getaddrinfo = λ domain. pure tt;
  script_load = λ script. pure script;
  evalsha = λ sha keys args. raise (redis_error (codes "NOSCRIPT"));
  eval = λ script keys args. pure answer;
  hgetall = λ key. pure [];
  exists = λ key. pure false;
  set = λ key value ttl. pure true;
  set_nx = λ key value ttl. pure true;
  delete = λ key. pure 1;
  get = λ key. pure none;
  incr = λ key. pure 1;
  sadd = λ key values. pure 1;
  sismember = λ key value. pure false;
  expire = λ key ttl. pure true;
  lpush = λ key value. raise (redis_error (codes "LOADING"));
  brpop = λ key. pure none;
  zadd = λ key member score. pure 1;
  zrangebyscore = λ key top. pure [];
  zrem = λ key members. pure 1;
  ttl = λ key. pure (pos 60);
}

-- The 11th request of an hour that allows 10.
abbrev pub over_limit : Outside ℕ
over_limit = with_answer (many (0 ∷ 11 ∷ []))

abbrev pub ten_per_hour : RateLimit ℕ
ten_per_hour = record {
  count = 10;
  duration = 3600;
  refill_rate = 0;
  algorithm = fixed_window;
  unlimited = false;
}

abbrev pub config : AppConfig ℕ
config = record {
  actions = record {
    success_action = codes "DUNNO";
    fail_action = codes "DEFER";
    db_error_action = codes "DUNNO";
  };
  locks = record { lock_duration = 600; unlock_ttl_threshold = 11 };
  penalty = record { enable = true; ttl = 86400; steps = 60 ∷ 300 ∷ [] };
  adaptive = record {
    enable = true;
    authenticated_multiplier = 2;
    unauthenticated_multiplier = 1;
    local_sender_multiplier = 1;
    external_sender_multiplier = 1;
    trusted_multiplier = 3;
    trusted_account_lists = codes "staff" ∷ [];
    trusted_domain_lists = [];
    trusted_ip_lists = [];
    minimum_multiplier = 1;
    maximum_multiplier = 5;
  };
  validation = record {
    monitor_only = false;
    validate_sender_syntax = true;
    enable_blacklist = true;
    validate_recipient_syntax = true;
    validate_recipient_deliverability = false;
    validate_recipient = true;
    dns_timeout = 10;
    allow_smtputf8 = true;
    allow_quoted_local = false;
    allow_domain_literal = false;
    blacklist_auto_reload = true;
    blacklist_reload_interval = 300;
    sender_blacklist_file = [];
    recipient_blacklist_file = [];
    domain_blacklist_file = [];
  };
  limits = record {
    enable_policyd = true;
    policy_check_state = codes "RCPT";
    ratelimit_use_lua = true;
    default_quota = ten_per_hour ∷ [];
    quotas = [];
    policies =
        record {
          name = codes "all";
          sender = codes "*";
          recipient = codes "*";
          quota = codes "hourly";
        }
        ∷ [];
    domain_lists = [];
    account_lists = (codes "staff", codes "a@b.de" ∷ []) ∷ [];
    ip_lists = [];
  };
}

-- A provider side that does nothing.
abbrev pub idle_actions : {World : Type 0} → Actions World
idle_actions = record { lock_account = λ email reason. pure tt; unlock_account = λ email. pure tt }

abbrev pub engine : Engine whole_numbers ℕ
engine = record {
  config = config;
  ratelimit_engine = record {
    lua_hash_token_bucket = none;
    lua_hash_fixed_window = some (codes "f00d");
    lua_hash_sliding_window_counter = none;
    use_lua = true;
  };
  validator = record {
    config = config.validation;
    sender_blacklist = [];
    recipient_blacklist = [];
    domain_blacklist = codes "spam.example" ∷ [];
  };
  matcher = record { config = config; has_redis = true };
  notifier = record {
    notify_rate_limit = λ selector message. pure tt;
    notify_user_locked = λ email duration. pure tt;
    notify_user_unlocked = λ email. pure tt;
  };
  action_manager = some idle_actions;
  scripts = record {
    token_bucket_lua = [];
    fixed_window_lua = [];
    sliding_window_counter_lua = [];
  };
  codec = record { dumps = λ j. []; loads = λ s. none };
  ip_addresses = record { is_address = λ s. false; covers = λ entry address. false };
}

abbrev pub client : RedisClient ℕ
client = record { circuit_breaker = none; world = 0 }

unfoldable pub handler : Handler ℕ
unfolding Stats.new
handler = record { redis = client; stats = Stats.new; local_domains = codes "b.de" ∷ [] }

unfoldable pub request : PolicyRequest
unfolding parse_from_dict
request = parse_from_dict (
    (codes "protocol_state", codes "RCPT")
    ∷ (codes "sender", codes "a@b.de")
    ∷ (codes "recipient", codes "c@d.fr")
    ∷ (codes "sasl_username", codes "a")
    ∷ [])
