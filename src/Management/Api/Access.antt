-- ===== src/Management/Api/Access.antt =====
-- Who gets past `_auth_middleware` of policyd_py/management/api_server.py.
use policyd_py.Base.{
  ℕ, ◌≡◌, ◌≢◌, refl, sym, ap, ◌∙◌, ◌⊎◌, inl, inr, Bool, true, false, not, ◌&&◌, Option, none, some,
  ◌∷◌, ◌++◌, is_empty, if◌then◌else◌, Text, codes, text_eq, text_eq_iff, starts_with, split_once,
  rejoin, rejoin-split_once, Exception,
}
use policyd_py.Management.Api.{
  WebConfig, Request, http_error, Action, Decision, runs, unauthorized, crashes, auth_required,
  is_ascii, compare_digest, check_password, check_decoded, encoded_part, check_header, authorize,
  decided, auth_middleware, cors_middleware, error_answer, error_middleware, handle,
}

module _ (b64decode : Text → Option Text) (str : Exception → Text) (config : WebConfig) where
  -- The two kinds of credentials.
  pub data Grants (auth_header : Text) : Type 0 where
    bearer :
        is_empty config.bearer_token ≡ false
        → auth_header ≡ codes "Bearer " ++ config.bearer_token
        → Grants auth_header
    basic :
        is_empty config.username ≡ false
        → is_empty config.password ≡ false
        → b64decode (encoded_part b64decode str config auth_header)
          ≡ some (config.username ++ b':' ∷ config.password)
        → Grants auth_header

  compared :
      {a b : Text} (ascii equal : Bool) (same different : Decision)
      → different ≢ runs
      → (equal ≡ true → a ≡ b)
      → (if ascii then if equal then same else different else crashes) ≡ runs
      → (a ≡ b) × (same ≡ runs)
  compared false equal same different n e r = cc
  compared true false same different n e r = absurd (n r)
  compared true true same different n e r = (e refl, r)

  compare_sound :
      (a b : Text) (same different : Decision)
      → different ≢ runs
      → compare_digest b64decode str config a b same different ≡ runs
      → (a ≡ b) × (same ≡ runs)
  unfolding compare_digest
  compare_sound a b same different n r =
      compared (is_ascii b64decode str config a && is_ascii b64decode str config b) (text_eq a b)
        same different n (text_eq_iff a b).0 r

  refused-ne : unauthorized (codes "unauthorized") ≢ runs
  refused-ne h = cc

  check_password_sound :
      (p : Text × Option Text)
      → check_password b64decode str config p ≡ runs
      → rejoin b':' p ≡ config.username ++ b':' ∷ config.password
  unfolding check_password
  check_password_sound (username, none) r = cc
  check_password_sound (username, some password) r =
      let (u, q) =
        compare_sound username config.username
          (compare_digest b64decode str config password config.password runs
            (unauthorized (codes "unauthorized")))
          (unauthorized (codes "unauthorized")) refused-ne r in
      let (v, _) =
        compare_sound password config.password runs (unauthorized (codes "unauthorized")) refused-ne
          q in
      rw (u, v) refl

  check_decoded_sound :
      (raw : Option Text)
      → check_decoded b64decode str config raw ≡ runs
      → raw ≡ some (config.username ++ b':' ∷ config.password)
  unfolding check_decoded check_password
  check_decoded_sound none r = cc
  check_decoded_sound (some raw) r =
      ap some (sym (rejoin-split_once b':' raw) ∙ check_password_sound (split_once b':' raw) r)

  by_header :
      {G : Type 0} (no_token bearer_header no_user no_password basic_header : Bool)
      (decoded : Decision) {t e u p : Bool}
      → (t ≡ false → e ≡ true → G)
      → (u ≡ false → p ≡ false → decoded ≡ runs → G)
      → no_token ≡ t
      → bearer_header ≡ e
      → no_user ≡ u
      → no_password ≡ p
      → (if not no_token && bearer_header
          then runs
          else if not no_user && (not no_password && basic_header)
          then decoded
          else unauthorized (codes "unauthorized"))
        ≡ runs
      → G
  by_header false true nu np bh d f g x y z w r = f (sym x) (sym y)
  by_header true bh false false true d f g x y z w r = g (sym z) (sym w) r
  by_header false false false false true d f g x y z w r = g (sym z) (sym w) r
  by_header true eh true np bh d f g x y z w r = cc
  by_header true eh false true bh d f g x y z w r = cc
  by_header true eh false false false d f g x y z w r = cc
  by_header false false true np bh d f g x y z w r = cc
  by_header false false false true bh d f g x y z w r = cc
  by_header false false false false false d f g x y z w r = cc

  guarded :
      {S : Type 0} {G : Type 0} (d : Decision) (request : Request) (handler : Action S) (s : S)
      → (d ≡ runs → G)
      → G
        ⊎ ((status : ℕ) × (text : Text) × (error_answer b64decode str config (
                decided b64decode str config d
                  (cors_middleware b64decode str config request handler)
                  s)
              ≡ (http_error status text, s)))
  unfolding decided error_answer
  guarded runs request handler s g = inl (g refl)
  guarded (unauthorized text) request handler s g = inr (401, text, refl)
  guarded crashes request handler s g = inr (500, codes "internal error", refl)

  check_header_sound :
      (auth_header : Text)
      → check_header b64decode str config auth_header ≡ runs
      → Grants auth_header
  unfolding check_header
  check_header_sound h r =
      by_header (is_empty config.bearer_token) (text_eq h (codes "Bearer " ++ config.bearer_token))
        (is_empty config.username) (is_empty config.password) (starts_with h (codes "Basic "))
        (check_decoded b64decode str config (b64decode (encoded_part b64decode str config h)))
        (λ t e. bearer t ((text_eq_iff h (codes "Bearer " ++ config.bearer_token)).0 e))
        (λ u p d.
          basic u p (check_decoded_sound (b64decode (encoded_part b64decode str config h)) d))
        refl refl refl refl r

  -- Where credentials are required and the path is not that of the health check: a request whose
  -- `Authorization` header is not the bearer token of the configuration, nor decodes to its user and password,
  -- is answered by an HTTP error, and its handler does not run: the state is as it was.
  pub handle-guards :
      {S : Type 0} (request : Request) (handler : Action S) (s : S)
      → auth_required b64decode str config ≡ true
      → text_eq request.path (codes "/health") ≡ false
      → Grants request.authorization
        ⊎ ((status : ℕ) × (text : Text) × (handle b64decode str config request handler s
              ≡ (http_error status text, s)))
  unfolding handle error_middleware auth_middleware authorize
  handle-guards request handler s required path =
      rw (path, required)
        (guarded (check_header b64decode str config request.authorization) request handler s
          (check_header_sound request.authorization))
