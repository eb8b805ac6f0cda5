-- ===== src/Management/Routes.antt =====
-- The handlers of policyd_py/management/api_server.py over the service, and the application that they make
-- up with the middlewares. The JSON text of a payload and aiohttp's router are parameters; the values in a
-- JSON body are texts here.
use policyd_py.Base.{
  Option, none, some, [], ◌∷◌, ◌++◌, is_empty, if◌then◌else◌, Bool, Text, codes, strip, text_eq,
  Exception, value_error, Outcome, returned, raised, Eff, raise, ◌>>=◌,
}
use policyd_py.Base.Dict.{Dict, get}
use policyd_py.Floats.{Floats}
use policyd_py.Outside.{Outside}
use policyd_py.Handler.{Engine}
use policyd_py.Management.ConfigManager.{Disk}
use policyd_py.Management.Service.{
  Service, Payload, health, stats, runtime_state, reload_config, save_config, lock_user,
  unlock_user, reset_ratelimit, reset_penalty,
}
use policyd_py.Management.Api
use policyd_py.Management.Api.{
  WebConfig, Request, Route, Response, Answer, response, http_error, failure, Action, handle,
}
use policyd_py.Actions.{ProviderMetric}

-- (value or default).strip()
unfoldable pub stripped_or : Option Text → Text → Text
stripped_or none default = strip default
stripped_or (some []) default = strip default
stripped_or (some (c ∷ s)) default = strip (c ∷ s)

-- The reason of a lock, where one that is blank gives way to a duration.
unfoldable pub reason_or : Text → Option Text → Text
reason_or (c ∷ reason) duration = c ∷ reason
reason_or [] none = []
reason_or [] (some duration) = codes "manual duration=" ++ duration

module _ (F : Floats) (same_rate : F.Float → F.Float → Bool) (o : Outside F.Float)
    (e : Engine F o.World) {Config : Type 0} (disk : Disk Config)
    (reload_callback : Option (Config → Eff (Service o.World Config) (Unit {0})))
    (get_metrics : Option (o.World → Dict ProviderMetric)) (json : Payload → Text)
    (stamp : Text) where
  abbrev pub State : Type 0
  State = Service o.World Config

  abbrev pub lifted : {A : Type 0} → Outcome A → Eff State A
  lifted r s = (r, s)

  -- `_require_json`
  unfoldable pub require_json : Request → Eff State (Dict Text)
  require_json request =
      if text_eq request.content_type (codes "application/json")
      then lifted request.fields
      else raise (value_error (codes "content-type must be application/json"))

  -- `if not email: raise ValueError(...)`
  unfoldable pub with_email : Text → (Text → Eff State Payload) → Eff State Payload
  with_email email k =
      if is_empty email then raise (value_error (codes "email is required")) else k email

  unfoldable pub lock_user_route : Request → Eff State Payload
  unfolding require_json with_email stripped_or reason_or lock_user
  lock_user_route request = do
    fields ← require_json request
    with_email (stripped_or (get fields (codes "email")) []) (λ email.
        lock_user F same_rate o e disk reload_callback get_metrics email (
          reason_or (stripped_or (get fields (codes "reason")) (codes "manual"))
            (get fields (codes "duration"))))

  unfoldable pub unlock_user_route : Request → Eff State Payload
  unfolding require_json with_email stripped_or unlock_user
  unlock_user_route request = do
    fields ← require_json request
    with_email (stripped_or (get fields (codes "email")) [])
        (unlock_user F same_rate o e disk reload_callback get_metrics)

  unfoldable pub save_config_route : Request → Eff State Payload
  unfolding require_json save_config
  save_config_route request = do
    fields ← require_json request
    save_config F same_rate o e disk reload_callback get_metrics stamp
        (get fields (codes "content")) request.updates

  -- The handler of a route.
  unfoldable pub respond : Route → Request → Eff State Payload
  unfolding with_email stripped_or health stats runtime_state reload_config reset_ratelimit
      reset_penalty lock_user_route unlock_user_route save_config_route
  respond Api.health request = health F same_rate o e disk reload_callback get_metrics
  respond Api.stats request = stats F same_rate o e disk reload_callback get_metrics
  respond (Api.runtime_state email) request =
      with_email (stripped_or email [])
        (runtime_state F same_rate o e disk reload_callback get_metrics)
  respond Api.reload_config request = reload_config F same_rate o e disk reload_callback get_metrics
  respond Api.save_config request = save_config_route request
  respond Api.lock_user request = lock_user_route request
  respond Api.unlock_user request = unlock_user_route request
  respond (Api.reset_ratelimit email) request =
      with_email (stripped_or email [])
        (reset_ratelimit F same_rate o e disk reload_callback get_metrics)
  respond (Api.reset_penalty email) request =
      with_email (stripped_or email [])
        (reset_penalty F same_rate o e disk reload_callback get_metrics)
  respond Api.not_found request = raise (value_error (codes "no handler"))

  -- `_json`, and an exception of the handler
  unfoldable pub answered : Outcome Payload × State → Answer × State
  answered (returned payload, s) =
      (response (record { status = 200; body = json payload; headers = [] }), s)
  answered (raised exc, s) = (failure exc, s)

  -- A path that has no handler is answered by aiohttp.
  unfoldable pub route_handler : Route → Request → Action State
  unfolding answered respond
  route_handler Api.not_found request s = (http_error 404 (codes "404: Not Found"), s)
  route_handler route request s = answered (respond route request s)

  -- The whole application: the middlewares around the handler that the router finds.
  unfoldable pub serve :
      (Text → Option Text)
      → (Exception → Text)
      → WebConfig
      → (Request → Route)
      → Request
      → Action State
  unfolding handle route_handler
  serve b64decode str config resolve request =
      handle b64decode str config request (route_handler (resolve request) request)
