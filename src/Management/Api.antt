-- ===== src/Management/Api.antt =====
-- policyd_py/management/api_server.py and service.py: the middlewares and the handlers of the HTTP API, and
-- the service that they call. aiohttp's router, the decoding of base64 and the bodies are parameters.
pub mod Access
use policyd_py.Base.{
  ℕ, leb, ◌==◌, Bool, true, false, not, ◌&&◌, ◌||◌, all, Option, none, some, List, [], ◌∷◌, ◌++◌,
  drop, is_empty, if◌then◌else◌, Text, codes, strip, text_eq, starts_with, split_once, Exception,
  value_error, type_error, Outcome, returned, raised, Eff, pure, raise, ◌>>=◌, ◌>>◌,
}
use policyd_py.Base.Dict.{Dict, put}
use policyd_py.Management.ConfigManager.{Value}

pub record WebConfig : Type 0 where
  pub enable : Bool
  pub host : Text
  pub port : ℕ
  pub username : Text
  pub password : Text
  pub bearer_token : Text
  pub cors_enabled : Bool
  pub cors_origins : List Text

-- What the handlers read of a request. `fields` is the JSON body, or why it is none; the values are
-- texts here.
pub record Request : Type 0 where
  pub method : Text
  pub path : Text
  -- headers.get("Authorization", "")
  pub authorization : Text
  pub content_type : Text
  pub fields : Outcome (Dict Text)
  -- fields.get("updates")
  pub updates : Option (Dict (Dict Value))

-- Where aiohttp routes a request, with the `email` of the path.
pub data Route : Type 0 where
  health stats reload_config save_config lock_user unlock_user not_found : Route
  runtime_state reset_ratelimit reset_penalty : Option Text → Route

pub record Response : Type 0 where
  pub status : ℕ
  pub body : Text
  pub headers : Dict Text

-- What a handler or a middleware ends with: a response, an `HTTPException`, or another exception.
pub data Answer : Type 0 where
  response : Response → Answer
  http_error : ℕ → Text → Answer
  failure : Exception → Answer

abbrev pub Action : Type 0 → Type 0
Action S = S → Answer × S

-- The decision of `_auth_middleware`: the handler runs, 401 with a text, or an exception.
pub data Decision : Type 0 where
  runs : Decision
  unauthorized : Text → Decision
  crashes : Decision

-- base64.b64decode(...).decode("utf-8"), which may raise, and the text of an exception
module _ (b64decode : Text → Option Text) (str : Exception → Text) (config : WebConfig) where
  unfoldable pub auth_required : Bool
  auth_required =
      not (is_empty config.bearer_token)
      || not (is_empty config.username) && not (is_empty config.password)

  unfoldable pub first_or : List Text → Text
  first_or [] = codes "*"
  first_or (origin ∷ origins) = origin

  unfoldable pub allowed_origin : Text
  unfolding first_or
  allowed_origin = first_or config.cors_origins

  unfoldable pub is_ascii : Text → Bool
  is_ascii s = all (λ c. leb c 127) s

  -- hmac.compare_digest(a, b) takes ASCII texts only, and raises a TypeError for others.
  unfoldable pub compare_digest : Text → Text → Decision → Decision → Decision
  unfolding is_ascii
  compare_digest a b same different =
      if is_ascii a && is_ascii b then if text_eq a b then same else different else crashes

  unfoldable pub check_password : Text × Option Text → Decision
  unfolding compare_digest
  check_password (username, none) = unauthorized (codes "invalid authorization header")
  check_password (username, some password) =
      compare_digest username config.username
        (compare_digest password config.password runs (unauthorized (codes "unauthorized")))
        (unauthorized (codes "unauthorized"))

  -- raw.split(":", 1)
  unfoldable pub check_decoded : Option Text → Decision
  unfolding check_password split_once
  check_decoded none = unauthorized (codes "invalid authorization header")
  check_decoded (some raw) = check_password (split_once b':' raw)

  abbrev pub or_nothing : Option Text → Text
  or_nothing none = []
  or_nothing (some s) = s

  -- auth_header.split(" ", 1)[1].strip(), of a header that starts with "Basic "
  unfoldable pub encoded_part : Text → Text
  unfolding split_once
  encoded_part auth_header = strip (or_nothing (split_once b' ' auth_header).1)

  unfoldable pub check_header : Text → Decision
  unfolding check_decoded encoded_part
  check_header auth_header =
      if not (is_empty config.bearer_token)
        && text_eq auth_header (codes "Bearer " ++ config.bearer_token)
      then runs
      else if not (is_empty config.username)
          && (not (is_empty config.password) && starts_with auth_header (codes "Basic "))
      then check_decoded (b64decode (encoded_part auth_header))
      else unauthorized (codes "unauthorized")

  unfoldable pub authorize : Request → Decision
  unfolding check_header auth_required
  authorize request =
      if text_eq request.path (codes "/health")
      then runs
      else if not auth_required
      then runs
      else check_header request.authorization

  -- The headers that `_cors_middleware` sets.
  unfoldable pub with_cors : Response → Response
  unfolding allowed_origin
  with_cors resp =
      if config.cors_enabled
      then record resp {
        headers =
            put
              (put (put resp.headers (codes "Access-Control-Allow-Origin") allowed_origin)
                (codes "Access-Control-Allow-Headers") (codes "Authorization, Content-Type"))
              (codes "Access-Control-Allow-Methods") (codes "GET, POST, OPTIONS");
      }
      else resp

  abbrev no_content : Response
  no_content = record { status = 204; body = []; headers = [] }

  module _ {S : Type 0} where
    unfoldable pub decided : Decision → Action S → Action S
    decided runs handler s = handler s
    decided (unauthorized text) handler s = (http_error 401 text, s)
    decided crashes handler s = (
      failure (type_error (codes "comparing strings with non-ASCII characters is not supported")),
      s,
    )

    unfoldable pub auth_middleware : Request → Action S → Action S
    unfolding decided authorize
    auth_middleware request handler = decided (authorize request) handler

    unfoldable pub cors_answer : Answer × S → Answer × S
    unfolding with_cors
    cors_answer (response resp, s) = (response (with_cors resp), s)
    cors_answer (http_error status text, s) = (http_error status text, s)
    cors_answer (failure exc, s) = (failure exc, s)

    unfoldable pub cors_middleware : Request → Action S → Action S
    unfolding cors_answer with_cors
    cors_middleware request handler s =
        if text_eq request.method (codes "OPTIONS")
        then (response (with_cors no_content), s)
        else cors_answer (handler s)

    unfoldable pub error_answer : Answer × S → Answer × S
    error_answer (response resp, s) = (response resp, s)
    error_answer (http_error status text, s) = (http_error status text, s)
    error_answer (failure (value_error text), s) = (http_error 400 (str (value_error text)), s)
    error_answer (failure exc, s) = (http_error 500 (codes "internal error"), s)

    unfoldable pub error_middleware : Action S → Action S
    unfolding error_answer
    error_middleware handler s = error_answer (handler s)

    -- `middlewares=[error, auth, cors]`: the first is outermost.
    unfoldable pub handle : Request → Action S → Action S
    unfolding error_middleware auth_middleware cors_middleware
    handle request handler =
        error_middleware (auth_middleware request (cors_middleware request handler))
