-- ===== src/Webhook/Signing.antt =====
-- The headers of a call of policyd_py/actions/webhook/provider.py.
use policyd_py.Base.{
  ◌≡◌, refl, ◌∙◌, Bool, true, false, not, ◌&&◌, Option, none, some, [], ◌∷◌, ◌++◌, is_empty,
  if◌then◌else◌, Text, text_eq, text_eq_refl, codes, mem_text, map, lower,
}
use policyd_py.Base.Dict.{Dict, get, get-put}
use policyd_py.Webhook.{
  WebhookActionProvider, Request, capitalize, add_header, add_headers, data_of, add_content_type,
  add_auth, add_signature, build_request, upper,
}

if-content :
    (b : Bool) (x y : Request) (o : Option Text)
    → x.content ≡ o
    → y.content ≡ o
    → (if b then x else y).content ≡ o
if-content true x y o h k = h
if-content false x y o h k = k

add_header-content : (k v : Text) (r : Request) → (add_header k v r).content ≡ r.content
unfolding add_header
add_header-content k v r = refl

add_headers-content : (d : Dict Text) (r : Request) → (add_headers d r).content ≡ r.content
unfolding add_headers
add_headers-content [] r = refl
add_headers-content ((k, v) ∷ d) r =
    add_headers-content d (add_header k v r) ∙ add_header-content k v r

add_header-get : (k v : Text) (r : Request) → get (add_header k v r).headers (capitalize k) ≡ some v
unfolding add_header
add_header-get k v r =
    rw (get-put r.headers (capitalize k) (capitalize k) v, text_eq_refl (capitalize k)) refl

module _ (hexdigest : Text → Text → Text) (b64encode : Text → Text) where
  add_content_type-content :
      (d : Dict Text) (o : Option Text) (r : Request)
      → (add_content_type hexdigest b64encode d o r).content ≡ r.content
  unfolding add_content_type
  add_content_type-content d none r = refl
  add_content_type-content d (some t) r =
      if-content (not (mem_text (codes "content-type") (map (λ (k, v). lower k) d)))
        (add_header (codes "Content-Type") (codes "application/json") r) r r.content
        (add_header-content (codes "Content-Type") (codes "application/json") r) refl

  add_auth-content :
      (p : WebhookActionProvider) (r : Request)
      → (add_auth hexdigest b64encode p r).content ≡ r.content
  unfolding add_auth
  add_auth-content p r =
      if-content (text_eq p.auth_type (codes "bearer") && not (is_empty p.auth_token))
        (add_header (codes "Authorization") (codes "Bearer " ++ p.auth_token) r)
        (if text_eq p.auth_type (codes "basic") && not (is_empty p.auth_user)
          then add_header (codes "Authorization")
              (codes "Basic " ++ b64encode (p.auth_user ++ (codes ":" ++ p.auth_pass))) r
          else if text_eq p.auth_type (codes "api_key") && not (is_empty p.auth_token)
          then add_header (codes "X-API-Key") p.auth_token r
          else r)
        r.content (add_header-content (codes "Authorization") (codes "Bearer " ++ p.auth_token) r)
        (if-content (text_eq p.auth_type (codes "basic") && not (is_empty p.auth_user))
          (add_header (codes "Authorization")
            (codes "Basic " ++ b64encode (p.auth_user ++ (codes ":" ++ p.auth_pass))) r)
          (if text_eq p.auth_type (codes "api_key") && not (is_empty p.auth_token)
            then add_header (codes "X-API-Key") p.auth_token r
            else r)
          r.content
          (add_header-content (codes "Authorization")
            (codes "Basic " ++ b64encode (p.auth_user ++ (codes ":" ++ p.auth_pass))) r)
          (if-content (text_eq p.auth_type (codes "api_key") && not (is_empty p.auth_token))
            (add_header (codes "X-API-Key") p.auth_token r) r r.content
            (add_header-content (codes "X-API-Key") p.auth_token r) refl))

  -- The request as it is made, with the configured headers, with the type of its content, and before
  -- its signature.
  abbrev bare : WebhookActionProvider → Text → Text → Text → Request
  bare p method url body = record {
    url = url;
    method = upper method;
    content = data_of hexdigest b64encode body;
    headers = [];
  }

  abbrev configured : WebhookActionProvider → Text → Text → Text → Request
  configured p method url body = add_headers p.headers (bare p method url body)

  abbrev typed : WebhookActionProvider → Text → Text → Text → Request
  typed p method url body =
      add_content_type hexdigest b64encode p.headers (data_of hexdigest b64encode body)
        (configured p method url body)

  abbrev prepared : WebhookActionProvider → Text → Text → Text → Request
  prepared p method url body = add_auth hexdigest b64encode p (typed p method url body)

  prepared-content :
      (p : WebhookActionProvider) (method url body : Text)
      → (prepared p method url body).content ≡ data_of hexdigest b64encode body
  prepared-content p method url body =
      add_auth-content p (typed p method url body)
      ∙ (add_content_type-content p.headers (data_of hexdigest b64encode body)
            (configured p method url body)
          ∙ add_headers-content p.headers (bare p method url body))

  -- A provider that signs, with a secret: the request with a body carries, under the configured name, the
  -- digest of exactly the content that is sent, whatever headers are configured.
  pub build_request-signs :
      (p : WebhookActionProvider) (method url body : Text)
      → p.sign_requests ≡ true
      → is_empty p.sign_secret ≡ false
      → is_empty body ≡ false
      → ((build_request hexdigest b64encode p method url body).content ≡ some body)
        × (get
              (build_request hexdigest b64encode p method url body).headers
              (capitalize p.sign_header)
            ≡ some (hexdigest p.sign_secret body))
  unfolding build_request data_of add_signature
  build_request-signs p method url [] s t b = cc
  build_request-signs p method url (c ∷ body) s t b =
      rw (s, t)
        (
          add_header-content p.sign_header (hexdigest p.sign_secret (c ∷ body))
                (prepared p method url (c ∷ body))
              ∙ prepared-content p method url (c ∷ body),
          add_header-get p.sign_header (hexdigest p.sign_secret (c ∷ body))
              (prepared p method url (c ∷ body)),
        )
