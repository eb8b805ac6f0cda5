-- ===== src/Fleet/Credentials.antt =====
-- The header that policyd_py/multiserver/client.py sends, before the middleware of
-- policyd_py/management/api_server.py.
use policyd_py.Base.{
  ◌≡◌, refl, ◌∙◌, Bool, true, false, not, ◌&&◌, Option, some, ◌∷◌, ◌++◌, is_empty, if◌then◌else◌,
  Text, codes, strip, text_eq, text_eq_refl, starts_with, split_once, split_once-append, IsFree,
  Exception,
}
use policyd_py.Registry.{ServerInfo}
use policyd_py.Fleet.{auth_header}
use policyd_py.Management.Api.{
  WebConfig, Decision, runs, unauthorized, is_ascii, compare_digest, check_password, check_decoded,
  encoded_part, check_header,
}

module _ (b64encode : Text → Text) (b64decode : Text → Option Text) (str : Exception → Text)
    (decodes : (s : Text) → b64decode (b64encode s) ≡ some s)
    (no_space : (s : Text) → strip (b64encode s) ≡ b64encode s) (config : WebConfig)
    (server : ServerInfo) where
  compare-same :
      (a : Text) (same different : Decision)
      → is_ascii b64decode str config a ≡ true
      → compare_digest b64decode str config a a same different ≡ same
  unfolding compare_digest
  compare-same a same different h = rw (h, text_eq_refl a) refl

  encoded-auth_header :
      encoded_part b64decode str config (auth_header b64encode server)
      ≡ b64encode (server.username ++ b':' ∷ server.password)
  unfolding encoded_part auth_header split_once
  encoded-auth_header = no_space (server.username ++ b':' ∷ server.password)

  starts-auth_header : starts_with (auth_header b64encode server) (codes "Basic ") ≡ true
  unfolding auth_header
  starts-auth_header = refl

  check-decoded :
      is_ascii b64decode str config config.username ≡ true
      → is_ascii b64decode str config config.password ≡ true
      → IsFree b':' config.username
      → check_decoded b64decode str config (some (config.username ++ b':' ∷ config.password)) ≡ runs
  unfolding check_decoded check_password
  check-decoded u p f = rw (split_once-append b':' config.username config.password f) (
      compare-same config.username
        (compare_digest b64decode str config config.password config.password runs
          (unauthorized (codes "unauthorized")))
        (unauthorized (codes "unauthorized")) u
      ∙ compare-same config.password runs (unauthorized (codes "unauthorized")) p)

  either_way : (b : Bool) (d : Decision) → d ≡ runs → (if b then runs else d) ≡ runs
  either_way true d h = refl
  either_way false d h = h

  -- What a client of a server sends as credentials is accepted by the management API that is configured
  -- with the same user and password, where both are ASCII and not empty and the user has no colon.
  pub check_header-auth_header :
      server.username ≡ config.username
      → server.password ≡ config.password
      → is_empty config.username ≡ false
      → is_empty config.password ≡ false
      → is_ascii b64decode str config config.username ≡ true
      → is_ascii b64decode str config config.password ≡ true
      → IsFree b':' config.username
      → check_header b64decode str config (auth_header b64encode server) ≡ runs
  unfolding check_header
  check_header-auth_header u p nu np au ap f =
      either_way
        (not (is_empty config.bearer_token)
          && text_eq (auth_header b64encode server) (codes "Bearer " ++ config.bearer_token))
        (if not (is_empty config.username)
            && (not (is_empty config.password)
                && starts_with (auth_header b64encode server) (codes "Basic "))
          then check_decoded b64decode str config
              (b64decode (encoded_part b64decode str config (auth_header b64encode server)))
          else unauthorized (codes "unauthorized"))
        (rw
          (
            nu,
            np,
            starts-auth_header,
            encoded-auth_header,
            decodes (server.username ++ b':' ∷ server.password),
            u,
            p,
          )
          (check-decoded au ap f))
