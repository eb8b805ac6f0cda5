-- ===== src/Fleet/Manager.antt =====
-- policyd_py/multiserver/manager.py: the state of every server, its sums, and actions on servers. Calls
-- that the code gathers are made one after the other here, in the order of the list.
use policyd_py.Base.{
  ℕ, ◌+◌, Bool, true, false, Option, none, some, List, [], ◌∷◌, is_empty, if◌then◌else◌, Text,
  codes, text_eq, value_error, Outcome, returned, raised, Eff, raise, ◌>>=◌,
}
use policyd_py.Config.Parse.{◌then◌}
use policyd_py.Base.Dict.{Dict, get, get_or, put, values}
use policyd_py.Registry
use policyd_py.Registry.{ServerInfo, Registry, Environment, get_server, get_enabled_servers}
use policyd_py.Fleet.{
  Value, number, other, Object, ServerStatus, Http, get_stats, health_check, reload_config,
  save_config, lock_user, unlock_user, reset_ratelimit, reset_penalty, execute_action,
}

pub record Manager (World : Type 0) : Type 0 where
  pub registry : Registry World
  pub status_cache : Dict ServerStatus

pub record AggregatedStats : Type 0 where
  pub total_servers : ℕ
  pub online_servers : ℕ
  pub offline_servers : ℕ
  pub total_requests : ℕ
  pub total_accepted : ℕ
  pub total_rejected : ℕ
  pub total_rate_limited : ℕ
  pub total_blacklisted : ℕ
  pub total_users_locked : ℕ
  pub active_connections : ℕ
  pub total_sliding_window_checks : ℕ
  pub total_adaptive_adjustments : ℕ
  pub total_adaptive_tightened : ℕ
  pub total_adaptive_relaxed : ℕ
  pub total_penalty_applied : ℕ
  pub total_penalty_escalations : ℕ
  pub server_stats : Dict Object

pub record RemoteAction : Type 0 where
  pub action : Text
  pub method : Option Text
  pub endpoint : Text
  pub payload : Option Object
  pub email : Text
  pub reason : Option Text

pub record RemoteActionResult : Type 0 where
  pub server_id : Text
  pub success : Bool
  pub message : Text
  pub error : Text
  pub timestamp : ℕ

unfoldable pub no_stats : AggregatedStats
no_stats = record {
  total_servers = 0;
  online_servers = 0;
  offline_servers = 0;
  total_requests = 0;
  total_accepted = 0;
  total_rejected = 0;
  total_rate_limited = 0;
  total_blacklisted = 0;
  total_users_locked = 0;
  active_connections = 0;
  total_sliding_window_checks = 0;
  total_adaptive_adjustments = 0;
  total_adaptive_tightened = 0;
  total_adaptive_relaxed = 0;
  total_penalty_applied = 0;
  total_penalty_escalations = 0;
  server_stats = [];
}

-- The counters that a server sends.
pub record Counters : Type 0 where
  pub total_requests : ℕ
  pub total_accepted : ℕ
  pub total_rejected : ℕ
  pub total_rate_limited : ℕ
  pub total_blacklisted : ℕ
  pub total_users_locked : ℕ
  pub active_connections : ℕ
  pub total_sliding_window_checks : ℕ
  pub total_adaptive_adjustments : ℕ
  pub total_adaptive_tightened : ℕ
  pub total_adaptive_relaxed : ℕ
  pub total_penalty_applied : ℕ
  pub total_penalty_escalations : ℕ

-- `int` of a value that is no natural number, which may raise.
module _ (to_int : Text → Outcome ℕ) where
  unfoldable pub int_of : Option Value → Outcome ℕ
  int_of none = returned 0
  int_of (some (number n)) = returned n
  int_of (some (other s)) = to_int s

  -- int(status.stats.get(name, 0))
  abbrev pub counter : Object → Text → Outcome ℕ
  counter stats name = int_of (get stats name)

  unfoldable pub read_counters : Object → Outcome Counters
  unfolding int_of
  read_counters stats = counter stats (codes "total_requests") then λ total_requests.
      counter stats (codes "total_accepted") then λ total_accepted.
      counter stats (codes "total_rejected") then λ total_rejected.
      counter stats (codes "total_rate_limited") then λ total_rate_limited.
      counter stats (codes "total_blacklisted") then λ total_blacklisted.
      counter stats (codes "total_users_locked") then λ total_users_locked.
      counter stats (codes "active_connections") then λ active_connections.
      counter stats (codes "total_sliding_window_checks") then λ total_sliding_window_checks.
      counter stats (codes "total_adaptive_adjustments") then λ total_adaptive_adjustments.
      counter stats (codes "total_adaptive_tightened") then λ total_adaptive_tightened.
      counter stats (codes "total_adaptive_relaxed") then λ total_adaptive_relaxed.
      counter stats (codes "total_penalty_applied") then λ total_penalty_applied.
      counter stats (codes "total_penalty_escalations") then λ total_penalty_escalations.
      returned (record {
        total_requests = total_requests;
        total_accepted = total_accepted;
        total_rejected = total_rejected;
        total_rate_limited = total_rate_limited;
        total_blacklisted = total_blacklisted;
        total_users_locked = total_users_locked;
        active_connections = active_connections;
        total_sliding_window_checks = total_sliding_window_checks;
        total_adaptive_adjustments = total_adaptive_adjustments;
        total_adaptive_tightened = total_adaptive_tightened;
        total_adaptive_relaxed = total_adaptive_relaxed;
        total_penalty_applied = total_penalty_applied;
        total_penalty_escalations = total_penalty_escalations;
      })

  -- An exception on the way loses the sums, so the counters are read first here.
  unfoldable pub add_stats : Text → Object → AggregatedStats → Outcome AggregatedStats
  unfolding read_counters
  add_stats server_id stats agg = read_counters stats then λ c. returned (record agg {
    total_requests = agg.total_requests + c.total_requests;
    total_accepted = agg.total_accepted + c.total_accepted;
    total_rejected = agg.total_rejected + c.total_rejected;
    total_rate_limited = agg.total_rate_limited + c.total_rate_limited;
    total_blacklisted = agg.total_blacklisted + c.total_blacklisted;
    total_users_locked = agg.total_users_locked + c.total_users_locked;
    active_connections = agg.active_connections + c.active_connections;
    total_sliding_window_checks = agg.total_sliding_window_checks + c.total_sliding_window_checks;
    total_adaptive_adjustments = agg.total_adaptive_adjustments + c.total_adaptive_adjustments;
    total_adaptive_tightened = agg.total_adaptive_tightened + c.total_adaptive_tightened;
    total_adaptive_relaxed = agg.total_adaptive_relaxed + c.total_adaptive_relaxed;
    total_penalty_applied = agg.total_penalty_applied + c.total_penalty_applied;
    total_penalty_escalations = agg.total_penalty_escalations + c.total_penalty_escalations;
    server_stats = put agg.server_stats server_id stats;
  })

  -- `if status.stats`
  unfoldable pub add_online : Text → Option Object → AggregatedStats → Outcome AggregatedStats
  unfolding add_stats
  add_online server_id none agg = returned agg
  add_online server_id (some []) agg = returned agg
  add_online server_id (some (entry ∷ stats)) agg = add_stats server_id (entry ∷ stats) agg

  unfoldable pub add_status : ServerStatus → AggregatedStats → Outcome AggregatedStats
  unfolding add_online
  add_status status agg =
      if status.online
      then add_online status.server_id status.stats
          (record agg { online_servers = agg.online_servers + 1 })
      else returned (record agg { offline_servers = agg.offline_servers + 1 })

  -- The loop of `get_aggregated_stats`.
  unfoldable pub add_statuses : List ServerStatus → AggregatedStats → Outcome AggregatedStats
  unfolding add_status
  add_statuses [] agg = returned agg
  add_statuses (status ∷ statuses) agg =
      add_status status agg then λ agg'. add_statuses statuses agg'

  unfoldable pub get_aggregated_stats : {World : Type 0} → Manager World → Outcome AggregatedStats
  unfolding add_statuses no_stats
  get_aggregated_stats m =
      add_statuses (values m.status_cache)
        (record no_stats { total_servers = Registry.count m.registry.servers })

unfoldable pub unknown_status : Text → ServerStatus
unknown_status server_id = record {
  server_id = server_id;
  server_name = [];
  online = false;
  last_check = 0;
  response_time = 0;
  stats = none;
  error = [];
}

unfoldable pub get_server_status : {World : Type 0} → Text → Manager World → ServerStatus
unfolding unknown_status
get_server_status server_id m = get_or m.status_cache server_id (unknown_status server_id)

unfoldable pub get_all_server_statuses : {World : Type 0} → Manager World → List ServerStatus
get_all_server_statuses m = values m.status_cache

module _ {World : Type 0} (env : Environment World) (http : Http World) (timeout_seconds : ℕ) where
  abbrev pub on_registry : {A : Type 0} → Eff (Registry World) A → Eff (Manager World) A
  on_registry f m = let (r, registry) = f m.registry in (r, record m { registry = registry })

  -- The calls over the network keep the registry and the cache.
  abbrev pub on_network : {A : Type 0} → Eff World A → Eff (Manager World) A
  on_network f m =
      let (r, w) = f m.registry.world in
      (r, record m { registry = record (m.registry) { world = w } })

  unfoldable pub with_stats : ServerStatus → Outcome Object → ServerStatus
  with_stats status (returned stats) = record status { stats = some stats }
  with_stats status (raised exc) = record status { error = http.str exc }

  unfoldable pub stats_if_online : Bool → ServerInfo → ServerStatus → World → ServerStatus × World
  unfolding with_stats get_stats
  stats_if_online false server status w = (status, w)
  stats_if_online true server status w =
      let (r, w') = get_stats http timeout_seconds server w in (with_stats status r, w')

  -- `_check_server`
  unfoldable pub check_server : ServerInfo → World → ServerStatus × World
  unfolding health_check stats_if_online
  check_server server w =
      let (status, w') = health_check http timeout_seconds server w in
      stats_if_online status.online server status w'

  abbrev in_cache : Text → ServerStatus × World → Manager World → Manager World
  in_cache server_id (status, w) m = record m {
    registry = record (m.registry) { world = w };
    status_cache = put m.status_cache server_id status;
  }

  unfoldable pub refresh_server_status : Text → Eff (Manager World) ServerStatus
  unfolding get_server check_server
  refresh_server_status server_id = do
    server ← on_registry (get_server env server_id)
    λ m. (
      returned (check_server server m.registry.world).0,
      in_cache server_id (check_server server m.registry.world) m,
    )

  unfoldable pub refresh_each : List ServerInfo → Manager World → Manager World
  unfolding check_server
  refresh_each [] m = m
  refresh_each (server ∷ servers) m = refresh_each servers (
      in_cache (check_server server m.registry.world).0.server_id
        (check_server server m.registry.world) m)

  unfoldable pub refresh_all_server_statuses : Manager World → Manager World
  unfolding refresh_each get_enabled_servers
  refresh_all_server_statuses m = refresh_each (get_enabled_servers m.registry.servers) m

  abbrev or_default : Option Text → Text → Text
  or_default none default = default
  or_default (some s) default = s

  -- `_execute_action_sync`
  unfoldable pub execute_action_sync : ServerInfo → RemoteAction → Eff World (Unit {0})
  unfolding reload_config save_config lock_user unlock_user reset_ratelimit reset_penalty
      execute_action
  execute_action_sync server action =
      if text_eq action.action (codes "reload_config")
      then reload_config http timeout_seconds server
      else if text_eq action.action (codes "save_config")
      then save_config http timeout_seconds server
      else if text_eq action.action (codes "lock_user")
      then lock_user http timeout_seconds server action.email
          (or_default action.reason (codes "manual"))
      else if text_eq action.action (codes "unlock_user")
      then unlock_user http timeout_seconds server action.email
      else if text_eq action.action (codes "reset_ratelimit")
      then reset_ratelimit http timeout_seconds server action.email
      else if text_eq action.action (codes "reset_penalty")
      then reset_penalty http timeout_seconds server action.email
      else if is_empty action.endpoint
      then raise (value_error (codes "endpoint is required for generic action"))
      else execute_action http timeout_seconds server (or_default action.method (codes "POST"))
          action.endpoint action.payload

  unfoldable pub result_of : Text → ℕ → Outcome (Unit {0}) → RemoteActionResult
  result_of server_id now (returned u) = record {
    server_id = server_id;
    success = true;
    message = codes "Action completed successfully";
    error = [];
    timestamp = now;
  }
  result_of server_id now (raised exc) = record {
    server_id = server_id;
    success = false;
    message = [];
    error = http.str exc;
    timestamp = now;
  }

  abbrev with_world : World → Manager World → Manager World
  with_world w m = record m { registry = record (m.registry) { world = w } }

  unfoldable pub execute_on_server : Text → RemoteAction → Eff (Manager World) RemoteActionResult
  unfolding get_server execute_action_sync result_of
  execute_on_server server_id action = do
    server ← on_registry (get_server env server_id)
    λ m. (
      returned (
          result_of server_id (http.time m.registry.world)
            (execute_action_sync server action m.registry.world).0),
      with_world (execute_action_sync server action m.registry.world).1 m,
    )

  abbrev both :
      Outcome RemoteActionResult
      → Outcome (List RemoteActionResult)
      → Outcome (List RemoteActionResult)
  both (returned result) (returned results) = returned (result ∷ results)
  both (returned result) (raised exc) = raised exc
  both (raised exc) results = raised exc

  -- `asyncio.gather(*tasks)`: the first exception is raised, and the other tasks run all the same.
  unfoldable pub execute_on_servers :
      List Text → RemoteAction → Eff (Manager World) (List RemoteActionResult)
  unfolding execute_on_server
  execute_on_servers [] action m = (returned [], m)
  execute_on_servers (server_id ∷ server_ids) action m =
      let (result, m') = execute_on_server server_id action m in
      let (results, m'') = execute_on_servers server_ids action m' in (both result results, m'')

  abbrev ids : List ServerInfo → List Text
  ids [] = []
  ids (server ∷ servers) = server.id ∷ ids servers

  unfoldable pub execute_on_all_servers :
      RemoteAction → Eff (Manager World) (List RemoteActionResult)
  unfolding execute_on_servers get_enabled_servers
  execute_on_all_servers action m =
      execute_on_servers (ids (get_enabled_servers m.registry.servers)) action m
