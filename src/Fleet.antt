-- ===== src/Fleet.antt =====
-- policyd_py/multiserver/client.py: the HTTP calls of one server's management API. `urlopen`, base64 and
-- JSON are parameters; a JSON object is kept as its numbers and its other values.
pub mod Manager
pub mod Aggregated
pub mod Credentials
use policyd_py.Base.{
  ℕ, ◌==◌, ◌-◌, Bool, true, false, Option, none, some, List, [], ◌∷◌, ◌++◌, is_empty, if◌then◌else◌,
  Text, codes, decimal, Exception, value_error, Outcome, returned, raised, Eff, pure, raise, ◌>>=◌,
  ◌>>◌,
}
use policyd_py.Base.Dict.{Dict}
use policyd_py.Webhook.{Request, add_header, upper}
use policyd_py.Registry.{ServerInfo}

pub data Value : Type 0 where
  number : ℕ → Value
  other : Text → Value

abbrev pub Object : Type 0
Object = Dict Value

pub record ServerStatus : Type 0 where
  pub server_id : Text
  pub server_name : Text
  pub online : Bool
  pub last_check : ℕ
  pub response_time : ℕ
  pub stats : Option Object
  pub error : Text

pub record Http (World : Type 0) : Type 0 where
  -- time.time()
  pub time : World → ℕ
  -- the body of the response; a status that is no success raises
  pub urlopen : Request → ℕ → Eff World Text
  pub b64encode : Text → Text
  pub dumps : Object → Text
  -- json.loads, where the body is JSON
  pub loads : Text → Option Object
  pub str : Exception → Text

-- `timeout_seconds or 10`
unfoldable pub timeout_or : ℕ → ℕ
timeout_or timeout_seconds = if timeout_seconds == 0 then 10 else timeout_seconds

-- `_build_url`
unfoldable pub build_url : ServerInfo → Text → Text
build_url server endpoint =
    codes "http://" ++ (server.host ++ (codes ":" ++ (decimal server.port ++ endpoint)))

-- `_auth_header`
unfoldable pub auth_header : (Text → Text) → ServerInfo → Text
auth_header b64encode server =
    codes "Basic " ++ b64encode (server.username ++ b':' ∷ server.password)

module _ {World : Type 0} (http : Http World) (timeout_seconds : ℕ) where
  abbrev dumped : Option Object → Option Text
  dumped none = none
  dumped (some payload) = some (http.dumps payload)

  unfoldable pub with_type : Option Object → Request → Request
  unfolding add_header
  with_type none req = req
  with_type (some payload) req = add_header (codes "Content-Type") (codes "application/json") req

  unfoldable pub with_auth : ServerInfo → Request → Request
  unfolding add_header auth_header
  with_auth server req =
      if is_empty server.username
      then req
      else add_header (codes "Authorization") (auth_header http.b64encode server) req

  unfoldable pub object_or_raw : Text → Option Object → Object
  object_or_raw body none = (codes "raw", other body) ∷ []
  object_or_raw body (some object) = object

  unfoldable pub read_body : Text → Object
  unfolding object_or_raw
  read_body body = if is_empty body then [] else object_or_raw body (http.loads body)

  -- `_request`
  unfoldable pub send : ServerInfo → Text → Text → Option Object → Eff World Object
  unfolding with_type with_auth build_url timeout_or read_body
  send server method endpoint payload = do
    body ←
        http.urlopen
          (with_type payload (
            with_auth server (record {
              url = build_url server endpoint;
              method = method;
              content = dumped payload;
              headers = [];
            })))
          (timeout_or timeout_seconds)
    pure (read_body body)

  unfoldable pub get_stats : ServerInfo → Eff World Object
  unfolding send
  get_stats server = send server (codes "GET") (codes "/api/v1/stats") none

  unfoldable pub checked_status : ServerInfo → ℕ → Outcome Object → World → ServerStatus
  checked_status server start (returned object) w = record {
    server_id = server.id;
    server_name = server.name;
    online = true;
    last_check = http.time w;
    response_time = http.time w - start;
    stats = none;
    error = [];
  }
  checked_status server start (raised exc) w = record {
    server_id = server.id;
    server_name = server.name;
    online = false;
    last_check = http.time w;
    response_time = http.time w - start;
    stats = none;
    error = http.str exc;
  }

  -- It never raises.
  unfoldable pub health_check : ServerInfo → World → ServerStatus × World
  unfolding send checked_status
  health_check server w =
      let (r, w') = send server (codes "GET") (codes "/health") none w in
      (checked_status server (http.time w) r w', w')

  abbrev done : Eff World Object → Eff World (Unit {0})
  done m = m >>= λ object. pure tt

  unfoldable pub reload_config : ServerInfo → Eff World (Unit {0})
  unfolding send
  reload_config server = done (send server (codes "POST") (codes "/api/v1/config/reload") none)

  unfoldable pub save_config : ServerInfo → Eff World (Unit {0})
  unfolding send
  save_config server = done (send server (codes "POST") (codes "/api/v1/config/save") none)

  unfoldable pub lock_user : ServerInfo → Text → Text → Eff World (Unit {0})
  unfolding send
  lock_user server email reason = done (
      send server (codes "POST") (codes "/api/v1/users/lock")
        (some ((codes "email", other email) ∷ (codes "reason", other reason) ∷ [])))

  unfoldable pub unlock_user : ServerInfo → Text → Eff World (Unit {0})
  unfolding send
  unlock_user server email = done (
      send server (codes "POST") (codes "/api/v1/users/unlock")
        (some ((codes "email", other email) ∷ [])))

  unfoldable pub reset_ratelimit : ServerInfo → Text → Eff World (Unit {0})
  unfolding send
  reset_ratelimit server email =
      done
        (send server (codes "POST") (codes "/api/v1/ratelimit/" ++ (email ++ codes "/reset")) none)

  unfoldable pub reset_penalty : ServerInfo → Text → Eff World (Unit {0})
  unfolding send
  reset_penalty server email =
      done (send server (codes "POST") (codes "/api/v1/penalty/" ++ (email ++ codes "/reset")) none)

  unfoldable pub get_runtime_state : ServerInfo → Text → Eff World Object
  unfolding send
  get_runtime_state server email =
      send server (codes "GET") (codes "/api/v1/runtime/state/" ++ email) none

  unfoldable pub execute_action : ServerInfo → Text → Text → Option Object → Eff World (Unit {0})
  unfolding send upper
  execute_action server method endpoint payload = done (send server (upper method) endpoint payload)
