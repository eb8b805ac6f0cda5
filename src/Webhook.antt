-- ===== src/Webhook.antt =====
-- policyd_py/actions/webhook/provider.py: the provider that locks and unlocks accounts by HTTP calls,
-- with retries. The HTTP client, the clock, HMAC, base64, JSON and the templates are parameters.
pub mod Retries
pub mod Waiting
pub mod Signing
use policyd_py.Base.{
  ℕ, zero, suc, ◌+◌, ◌-◌, ◌*◌, leb, ltb, Bool, true, false, not, ◌&&◌, ◌||◌, Option, none, some,
  List, [], ◌∷◌, ◌++◌, map, is_empty, if◌then◌else◌, Text, codes, text_eq, mem_text, lower,
  lower_code, replace, decimal, Exception, runtime_error, Outcome, returned, raised, Eff, pure,
  raise, ◌>>=◌, ◌>>◌,
}
use policyd_py.Base.Dict.{Dict, get, put}
use policyd_py.Actions.{ActionProvider}

pub record WebhookActionProvider : Type 0 where
  pub lock_url : Text
  pub unlock_url : Text
  pub status_url : Text
  pub lock_method : Text
  pub unlock_method : Text
  pub status_method : Text
  pub lock_body_tpl : Option Text
  pub unlock_body_tpl : Option Text
  pub status_field : Text
  pub auth_type : Text
  pub auth_token : Text
  pub auth_user : Text
  pub auth_pass : Text
  pub headers : Dict Text
  pub sign_requests : Bool
  pub sign_secret : Text
  pub sign_header : Text
  pub timeout_seconds : ℕ
  pub retry_count : ℕ
  pub retry_delay_seconds : ℕ

-- `Template(body) if body else None`
unfoldable pub template_of : Text → Option Text
template_of [] = none
template_of (c ∷ s) = some (c ∷ s)

-- `urllib_request.Request`: the headers under their capitalized names.
pub record Request : Type 0 where
  pub url : Text
  pub method : Text
  pub content : Option Text
  pub headers : Dict Text

-- s.upper() and s.capitalize()
upper_code : ℕ → ℕ
upper_code c = if leb 97 c && leb c 122 then c - 32 else c

unfoldable pub upper : Text → Text
unfolding upper_code
upper = map upper_code

unfoldable pub capitalize : Text → Text
unfolding upper_code
capitalize [] = []
capitalize (c ∷ s) = upper_code c ∷ lower s

-- req.add_header(key, value)
unfoldable pub add_header : Text → Text → Request → Request
unfolding capitalize
add_header key value req = record req { headers = put req.headers (capitalize key) value }

unfoldable pub add_headers : Dict Text → Request → Request
unfolding add_header
add_headers [] req = req
add_headers ((key, value) ∷ more) req = add_headers more (add_header key value req)

-- What the provider calls: `strftime` of the time, `asyncio.sleep`, `urlopen` with its timeout, which
-- gives the status and the body, and the pure functions of the libraries.
pub record Web (World : Type 0) : Type 0 where
  pub timestamp : World → Text
  pub sleep : ℕ → World → World
  pub urlopen : Request → ℕ → Eff World (ℕ × Text)
  -- hmac.new(secret, data, hashlib.sha256).hexdigest()
  pub hexdigest : Text → Text → Text
  pub b64encode : Text → Text
  -- Template(tpl).safe_substitute(payload)
  pub safe_substitute : Text → Dict Text → Outcome Text
  pub dumps : Dict Text → Text
  -- json.loads(body).get(field), as `str` shows it: none where the body is no JSON and where the
  -- field is missing or null. What is no object has no `get`, which raises.
  pub lookup : Text → Text → Outcome (Option Text)
  pub str : Exception → Text

-- Headers and body of a call.
module _ (hexdigest : Text → Text → Text) (b64encode : Text → Text) where
  -- body.encode("utf-8") if body else None
  unfoldable pub data_of : Text → Option Text
  data_of [] = none
  data_of (c ∷ s) = some (c ∷ s)

  unfoldable pub add_content_type : Dict Text → Option Text → Request → Request
  unfolding add_header
  add_content_type headers none req = req
  add_content_type headers (some content) req =
      if not (mem_text (codes "content-type") (map (λ (k, v). lower k) headers))
      then add_header (codes "Content-Type") (codes "application/json") req
      else req

  unfoldable pub add_auth : WebhookActionProvider → Request → Request
  unfolding add_header
  add_auth p req =
      if text_eq p.auth_type (codes "bearer") && not (is_empty p.auth_token)
      then add_header (codes "Authorization") (codes "Bearer " ++ p.auth_token) req
      else if text_eq p.auth_type (codes "basic") && not (is_empty p.auth_user)
      then add_header (codes "Authorization")
          (codes "Basic " ++ b64encode (p.auth_user ++ (codes ":" ++ p.auth_pass))) req
      else if text_eq p.auth_type (codes "api_key") && not (is_empty p.auth_token)
      then add_header (codes "X-API-Key") p.auth_token req
      else req

  unfoldable pub add_signature : WebhookActionProvider → Option Text → Request → Request
  unfolding add_header
  add_signature p none req = req
  add_signature p (some content) req =
      if p.sign_requests && not (is_empty p.sign_secret)
      then add_header p.sign_header (hexdigest p.sign_secret content) req
      else req

  -- The request of `_http_request`.
  unfoldable pub build_request : WebhookActionProvider → Text → Text → Text → Request
  unfolding data_of add_headers add_content_type add_auth add_signature upper
  build_request p method url body = add_signature p (data_of body) (
      add_auth p (
        add_content_type p.headers (data_of body) (
          add_headers p.headers
            (record { url = url; method = upper method; content = data_of body; headers = [] }))))

module _ {World : Type 0} (web : Web World) where
  -- `if response.status < 200 or response.status >= 300`
  unfoldable pub checked : ℕ × Text → Eff World Text
  checked (status, body) =
      if ltb status 200 || leb 300 status
      then raise (runtime_error (codes "webhook HTTP status " ++ decimal status))
      else pure body

  -- `_http_request`
  unfoldable pub http_request : WebhookActionProvider → Text → Text → Text → Eff World Text
  unfolding build_request checked
  http_request p method url body =
      web.urlopen (build_request web.hexdigest web.b64encode p method url body) p.timeout_seconds
      >>= checked

  -- `_render_body`
  unfoldable pub rendered : Dict Text → Outcome Text → Text
  rendered payload (returned text) = text
  rendered payload (raised exc) = web.dumps payload

  unfoldable pub render_body : Option Text → Dict Text → Text
  unfolding rendered
  render_body none payload = []
  render_body (some tpl) payload = rendered payload (web.safe_substitute tpl payload)

  abbrev str_last : Option Exception → Text
  str_last none = codes "None"
  str_last (some exc) = web.str exc

  unfoldable pub after_retries : Option Exception → Exception
  after_retries last_error =
      runtime_error (codes "webhook request failed after retries: " ++ str_last last_error)

  -- `if attempt > 0: await asyncio.sleep(...)`
  unfoldable pub wait_before : WebhookActionProvider → ℕ → World → World
  wait_before p attempt w =
      if ltb 0 attempt then web.sleep (p.retry_delay_seconds * attempt) w else w

  -- The outcome of one attempt: the loop ends, or goes on with the error.
  abbrev pub retried :
      (Option Exception → World → Outcome (Unit {0}) × World)
      → Outcome Text × World
      → Outcome (Unit {0}) × World
  retried next (returned body, w) = (returned tt, w)
  retried next (raised exc, w) = next (some exc) w

  -- The loop of `_execute_with_retry` from `attempt` on, with the attempts that are left.
  unfoldable pub attempts_from :
      WebhookActionProvider
      → Text
      → Text
      → Text
      → ℕ
      → ℕ
      → Option Exception
      → World
      → Outcome (Unit {0}) × World
  unfolding http_request wait_before after_retries
  attempts_from p method url body attempt zero last_error w = (raised (after_retries last_error), w)
  attempts_from p method url body attempt (suc left) last_error w =
      retried (attempts_from p method url body (suc attempt) left)
        (http_request p method url body (wait_before p attempt w))

  unfoldable pub execute_with_retry :
      WebhookActionProvider → Text → Text → Text → Eff World (Unit {0})
  unfolding attempts_from
  execute_with_retry p method url body w =
      attempts_from p method url body 0 (suc p.retry_count) none w

  unfoldable pub lock_account : WebhookActionProvider → Text → Text → Eff World (Unit {0})
  unfolding execute_with_retry render_body
  lock_account p email reason w =
      if is_empty p.lock_url
      then (raised (runtime_error (codes "lock_url is not configured")), w)
      else execute_with_retry p p.lock_method p.lock_url
          (render_body p.lock_body_tpl (
            (codes "email", email)
            ∷ (codes "reason", reason)
            ∷ (codes "timestamp", web.timestamp w)
            ∷ []))
          w

  unfoldable pub unlock_account : WebhookActionProvider → Text → Eff World (Unit {0})
  unfolding execute_with_retry render_body
  unlock_account p email w =
      if is_empty p.unlock_url
      then (raised (runtime_error (codes "unlock_url is not configured")), w)
      else execute_with_retry p p.unlock_method p.unlock_url
          (render_body p.unlock_body_tpl
            ((codes "email", email) ∷ (codes "timestamp", web.timestamp w) ∷ []))
          w

  -- The value of the field if there is one, else the whole body; an error other than of the JSON goes
  -- up.
  unfoldable pub status_in : Text → Outcome (Option Text) → Eff World Text
  status_in body (returned none) = pure body
  status_in body (returned (some value)) = pure value
  status_in body (raised exc) = raise exc

  unfoldable pub status_of : Text → Text → Eff World Text
  unfolding status_in
  status_of field body =
      if is_empty field then pure body else status_in body (web.lookup body field)

  unfoldable pub get_account_status : WebhookActionProvider → Text → Eff World Text
  unfolding http_request status_of replace
  get_account_status p email w =
      if is_empty p.status_url
      then (raised (runtime_error (codes "status_url is not configured")), w)
      else (http_request p p.status_method (replace (codes "${email}") email p.status_url) []
            >>= status_of p.status_field)
          w

  -- The provider as the action manager calls it.
  unfoldable pub as_provider : WebhookActionProvider → ActionProvider World
  unfolding lock_account unlock_account get_account_status
  as_provider p = record {
    name = codes "webhook";
    lock_account = lock_account p;
    unlock_account = unlock_account p;
    get_account_status = get_account_status p;
    close = pure tt;
  }
