-- ===== src/Tests/Webhooks.antt =====
-- Calls of the webhook provider (policyd_py/actions/webhook/provider.py). The world holds the time and the
-- number of requests; the server refuses the first two.
use policyd_py.Base.{
  ℕ, ◌+◌, ◌*◌, ◌≤◌, ◌≡◌, refl, arith, ltb, if◌then◌else◌, true, none, some, [], ◌∷◌, Text, codes,
  Outcome, returned, raised, os_error,
}
use policyd_py.Base.Dict.{get}
use policyd_py.Webhook.{WebhookActionProvider, Web, execute_with_retry, build_request, capitalize}
use policyd_py.Webhook.Retries.{Settled, execute_with_retry-settles}
use policyd_py.Webhook.Waiting.{triangle, execute_with_retry_in_time}
use policyd_py.Webhook.Signing.{build_request-signs}

abbrev answer : ℕ × ℕ → Outcome (ℕ × Text)
answer (now, sent) =
    if ltb sent 2 then raised (os_error (codes "refused")) else returned (200, codes "ok")

abbrev web : Web (ℕ × ℕ)
web = record {
  timestamp = λ w. codes "2024-01-01T00:00:00Z";
  sleep = λ n (now, sent). (now + n, sent);
  urlopen = λ request timeout (now, sent). (answer (now, sent), (now + 1, sent + 1));
  hexdigest = λ secret content. codes "d1";
  b64encode = λ s. s;
  safe_substitute = λ tpl payload. returned tpl;
  dumps = λ payload. codes "{}";
  lookup = λ body field. returned none;
  str = λ exc. codes "error";
}

abbrev provider : WebhookActionProvider
provider = record {
  lock_url = codes "http://h/lock";
  unlock_url = [];
  status_url = [];
  lock_method = codes "post";
  unlock_method = codes "post";
  status_method = codes "get";
  lock_body_tpl = some (codes "{}");
  unlock_body_tpl = none;
  status_field = [];
  auth_type = codes "bearer";
  auth_token = codes "t";
  auth_user = [];
  auth_pass = [];
  headers = (codes "content-type", codes "text/plain") ∷ [];
  sign_requests = true;
  sign_secret = codes "s";
  sign_header = codes "X-Webhook-Signature";
  timeout_seconds = 10;
  retry_count = 3;
  retry_delay_seconds = 2;
}

abbrev start : ℕ × ℕ
start = (0, 0)

execute_with_retry-settles_example :
    Settled web provider
      (codes "post")
      (codes "u")
      (codes "{}")
      start
      (execute_with_retry web provider (codes "post") (codes "u") (codes "{}") start)
execute_with_retry-settles_example =
    execute_with_retry-settles web provider (codes "post") (codes "u") (codes "{}") start

execute_with_retry_in_time_example :
    (execute_with_retry web provider (codes "post") (codes "u") (codes "{}") start).1.0
    ≤ 0 + (4 * 1 + 2 * triangle 3)
execute_with_retry_in_time_example =
    execute_with_retry_in_time web (λ (now, sent). now) 1 (λ n (now, sent). refl)
      (λ request (now, sent) timeout. omega arith) provider (codes "post") (codes "u") (codes "{}")
      start

build_request-signs_example :
    ((build_request web.hexdigest web.b64encode provider
        (codes "post")
        (codes "u")
        (codes "{}")).content
      ≡ some (codes "{}"))
    × (get
          (build_request web.hexdigest web.b64encode provider
            (codes "post")
            (codes "u")
            (codes "{}")).headers
          (capitalize provider.sign_header)
        ≡ some (codes "d1"))
build_request-signs_example =
    build_request-signs web.hexdigest web.b64encode provider (codes "post") (codes "u") (codes "{}")
      refl refl refl
