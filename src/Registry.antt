-- ===== src/Registry.antt =====
-- policyd_py/multiserver/registry.py: the servers that the management knows, kept in a dictionary by
-- their identifiers and written to a file after each change. The clock, the new identifiers and the file
-- with its JSON are parameters.
pub mod Indexed
pub mod Changes
pub mod Reopened
pub mod Refinement
use policyd_py.Base.{
  ℕ, ◌+◌, ◌==◌, Bool, true, false, not, ◌&&◌, Option, none, some, List, [], ◌∷◌, length, map,
  is_empty, mem_text, if◌then◌else◌, Text, codes, Exception, value_error, key_error, Outcome,
  returned, raised, Eff, pure, raise, ◌>>=◌, ◌>>◌,
}
use policyd_py.Base.Dict.{Dict, get, put, remove, has_key, values}

pub record ServerInfo : Type 0 where
  pub id : Text
  pub name : Text
  pub host : Text
  pub port : ℕ
  pub username : Text
  pub password : Text
  pub enabled : Bool
  pub description : Text
  pub tags : List Text
  pub created_at : ℕ
  pub updated_at : ℕ

pub record Registry (World : Type 0) : Type 0 where
  pub servers : Dict ServerInfo
  pub file_path : Text
  pub auto_save : Bool
  pub world : World

-- time.time(), str(uuid.uuid4()), and the file: `write` dumps the servers as JSON and `read` makes servers of the
-- JSON that is there.
pub record Environment (World : Type 0) : Type 0 where
  pub time : World → ℕ
  pub uuid4 : World → Text
  pub write : Text → Dict ServerInfo → Eff World (Unit {0})
  pub path_exists : Text → World → Bool
  pub read : Text → Eff World (Dict ServerInfo)

module _ {World : Type 0} (env : Environment World) where
  unfoldable pub save : Eff (Registry World) (Unit {0})
  save r =
      if is_empty r.file_path
      then (returned tt, r)
      else let (result, w) = env.write r.file_path r.servers r.world in
        (result, record r { world = w })

  unfoldable pub loaded : Outcome (Dict ServerInfo) → Eff (Registry World) (Unit {0})
  loaded (returned servers) r = (returned tt, record r { servers = servers })
  loaded (raised exc) r = (raised exc, r)

  unfoldable pub load : Eff (Registry World) (Unit {0})
  unfolding loaded
  load r =
      if is_empty r.file_path
      then (returned tt, r)
      else let (result, w) = env.read r.file_path r.world in loaded result (record r { world = w })

  -- `__init__`, whose exception leaves no registry.
  unfoldable pub new : Text → Bool → World → Outcome (Unit {0}) × Registry World
  unfolding load
  new file_path auto_save w =
      let r : Registry World = record {
        servers = [];
        file_path = file_path;
        auto_save = auto_save;
        world = w;
      } in
      if not (is_empty file_path) && env.path_exists file_path w then load r else (returned tt, r)

  unfoldable pub saved : Eff (Registry World) (Unit {0})
  unfolding save
  saved r = if r.auto_save then save r else (returned tt, r)

  -- self.servers[server.id] = server, and the saving
  unfoldable pub store : ServerInfo → Eff (Registry World) (Unit {0})
  unfolding saved
  store server r = saved (record r { servers = put r.servers server.id server })

  -- A server with its identifier, its times and its port.
  unfoldable pub completed : ServerInfo → World → ServerInfo
  completed server w = record server {
    id = if is_empty server.id then env.uuid4 w else server.id;
    created_at = env.time w;
    updated_at = env.time w;
    port = if server.port == 0 then 8080 else server.port;
  }

  unfoldable pub add_server : ServerInfo → Eff (Registry World) ServerInfo
  unfolding completed store
  add_server server r =
      if is_empty server.name
      then (raised (value_error (codes "server name is required")), r)
      else if is_empty server.host
      then (raised (value_error (codes "server host is required")), r)
      else (do store (completed server r.world); pure (completed server r.world)) r

  unfoldable pub not_found : {A : Type 0} → Text → Eff (Registry World) A
  not_found server_id = raise (key_error server_id)

  unfoldable pub update_server : ServerInfo → Eff (Registry World) (Unit {0})
  unfolding store not_found
  update_server server r =
      if has_key r.servers server.id
      then store (record server { updated_at = env.time r.world }) r
      else not_found server.id r

  unfoldable pub remove_server : Text → Eff (Registry World) (Unit {0})
  unfolding saved not_found
  remove_server server_id r =
      if has_key r.servers server_id
      then saved (record r { servers = remove r.servers server_id })
      else not_found server_id r

  unfoldable pub found : Text → Option ServerInfo → Eff (Registry World) ServerInfo
  unfolding not_found
  found server_id none = not_found server_id
  found server_id (some server) = pure server

  -- A copy of the server; the registry does not change.
  unfoldable pub get_server : Text → Eff (Registry World) ServerInfo
  unfolding found
  get_server server_id r = found server_id (get r.servers server_id) r

  unfoldable pub switch : Bool → ℕ → Text → Option ServerInfo → Eff (Registry World) (Unit {0})
  unfolding saved not_found
  switch enabled now server_id none r = not_found server_id r
  switch enabled now server_id (some server) r = saved (record r {
    servers = put r.servers server_id (record server { enabled = enabled; updated_at = now });
  })

  unfoldable pub enable_server : Text → Eff (Registry World) (Unit {0})
  unfolding switch
  enable_server server_id r = switch true (env.time r.world) server_id (get r.servers server_id) r

  unfoldable pub disable_server : Text → Eff (Registry World) (Unit {0})
  unfolding switch
  disable_server server_id r = switch false (env.time r.world) server_id (get r.servers server_id) r

-- The copies that the queries return.
filter : (ServerInfo → Bool) → List ServerInfo → List ServerInfo
filter p [] = []
filter p (s ∷ ss) = let rest = filter p ss in if p s then s ∷ rest else rest

unfoldable pub get_all_servers : Dict ServerInfo → List ServerInfo
get_all_servers d = values d

unfoldable pub get_enabled_servers : Dict ServerInfo → List ServerInfo
unfolding filter
get_enabled_servers d = filter (λ s. s.enabled) (values d)

unfoldable pub get_servers_by_tag : Text → Dict ServerInfo → List ServerInfo
unfolding filter
get_servers_by_tag tag d = filter (λ s. mem_text tag s.tags) (values d)

unfoldable pub count : Dict ServerInfo → ℕ
count d = length d

count_in : List ServerInfo → ℕ
count_in [] = 0
count_in (s ∷ ss) = (if s.enabled then 1 else 0) + count_in ss

unfoldable pub count_enabled : Dict ServerInfo → ℕ
unfolding count_in
count_enabled d = count_in (values d)
