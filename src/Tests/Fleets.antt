-- ===== src/Tests/Fleets.antt =====
-- Several servers and their management (policyd_py/multiserver/manager.py and client.py). Base64 is stood for
-- by a mark at both ends.
use policyd_py.Base.{
  ℕ, ◌≡◌, refl, sym, ap, ◌∙◌, true, false, Option, none, some, [], ◌∷◌, ◌++◌, reverse, Text, codes,
  strip, strip_start, is_space, Exception, Outcome, raised, value_error,
}
use policyd_py.Base.Dict.{get}
use mathlib.Core.List.{reverse-append, reverse-reverse}
use policyd_py.Registry.{ServerInfo}
use policyd_py.Management.Api.{WebConfig, check_header, is_ascii, runs}
use policyd_py.Fleet.{ServerStatus, number, auth_header}
use policyd_py.Fleet.Manager.{Manager, Counters}
use policyd_py.Fleet.Aggregated.{
  no_counters, plus, AreRead, natural, missing, sent, silent, nothing, IsAggregate,
  aggregated-IsAggregate,
}
use policyd_py.Fleet.Credentials.{check_header-auth_header}

abbrev marked : Text → Text
marked s = 200 ∷ (s ++ 200 ∷ [])

abbrev but_last : Text → Text
but_last [] = []
but_last (c ∷ []) = []
but_last (c ∷ d ∷ s) = c ∷ but_last (d ∷ s)

abbrev unmarked : Text → Option Text
unmarked [] = none
unmarked (c ∷ s) = some (but_last s)

but_last-append : (s : Text) → but_last (s ++ 200 ∷ []) ≡ s
but_last-append [] = refl
but_last-append (c ∷ []) = refl
but_last-append (c ∷ d ∷ s) = ap (λ t. c ∷ t) (but_last-append (d ∷ s))

unmarked-marked : (s : Text) → unmarked (marked s) ≡ some s
unmarked-marked s = ap some (but_last-append s)

strip-marked : (s : Text) → strip (marked s) ≡ marked s
unfolding strip_start is_space
strip-marked s =
    ap (λ t. reverse (strip_start t)) (reverse-append (200 ∷ s) (200 ∷ []))
    ∙ (ap reverse (sym (reverse-append (200 ∷ s) (200 ∷ []))) ∙ reverse-reverse (marked s))

abbrev shown : Exception → Text
shown exc = []

abbrev server : ServerInfo
server = record {
  id = codes "u1";
  name = codes "mx1";
  host = codes "10.0.0.1";
  port = 8080;
  username = codes "admin";
  password = codes "pass:word";
  enabled = true;
  description = [];
  tags = [];
  created_at = 0;
  updated_at = 0;
}

abbrev web_config : WebConfig
web_config = record {
  enable = true;
  host = codes "10.0.0.1";
  port = 8080;
  username = codes "admin";
  password = codes "pass:word";
  bearer_token = codes "t";
  cors_enabled = false;
  cors_origins = [];
}

check_header-auth_header_example :
    check_header unmarked shown web_config (auth_header marked server) ≡ runs
unfolding is_ascii
check_header-auth_header_example =
    check_header-auth_header marked unmarked shown unmarked-marked strip-marked web_config server
      refl refl refl refl refl refl (refl, (refl, (refl, (refl, (refl, tt)))))

abbrev up : ServerStatus
up = record {
  server_id = codes "u1";
  server_name = codes "mx1";
  online = true;
  last_check = 5;
  response_time = 1;
  stats = some ((codes "total_requests", number 7) ∷ []);
  error = [];
}

abbrev manager : Manager ℕ
manager = record {
  registry = record {
    servers = (codes "u1", server) ∷ [];
    file_path = [];
    auto_save = true;
    world = 0;
  };
  status_cache = (codes "u1", up) ∷ (codes "u2", record up { online = false; stats = none }) ∷ [];
}

-- `int` of what is no natural number.
abbrev no_int : Text → Outcome ℕ
no_int s = raised (value_error s)

abbrev seven : Counters
seven = record no_counters { total_requests = 7 }

up_sent : AreRead no_int ((codes "total_requests", number 7) ∷ []) seven
unfolding get policyd_py.Base.text_eq
up_sent = record {
  total_requests = natural 7;
  total_accepted = missing;
  total_rejected = missing;
  total_rate_limited = missing;
  total_blacklisted = missing;
  total_users_locked = missing;
  active_connections = missing;
  total_sliding_window_checks = missing;
  total_adaptive_adjustments = missing;
  total_adaptive_tightened = missing;
  total_adaptive_relaxed = missing;
  total_penalty_applied = missing;
  total_penalty_escalations = missing;
}

aggregated-IsAggregate_example : IsAggregate no_int manager (plus seven no_counters)
aggregated-IsAggregate_example = aggregated-IsAggregate no_int manager (plus seven no_counters) (
    sent up _ (codes "total_requests", number 7) [] seven no_counters refl refl up_sent
      (silent _ [] no_counters tt nothing))
