-- ===== src/Handler/Resetting.antt =====
-- The limits that `reset_ratelimit_manually` and `get_runtime_state` of policyd_py/policy/handler.py go through.
pub mod Fingerprints
use policyd_py.Base.{
  ◌≡◌, refl, ap, ◌++◌, Bool, true, false, List, [], ◌∷◌, if◌then◌else◌, Text, Eff, pure, ◌>>◌,
}
use policyd_py.Base.Dict.{values}
use policyd_py.Floats.{Floats}
use policyd_py.Config.{RateLimit}
use policyd_py.Outside.{Outside}
use policyd_py.Limiter.RateLimiter.{reset_limit}
use policyd_py.Handler.{Engine, Handler, on_redis}
use policyd_py.Handler.Manual.{
  is_seen, collect_from, of_quotas, all_configured_limits, reset_from, reset_ratelimit_manually,
}
use policyd_py.Handler.Resetting.Fingerprints.{IsEachOnce, all_configured_limits-IsEachOnce}

module _ (F : Floats) (same_rate : F.Float → F.Float → Bool) (o : Outside F.Float)
    (e : Engine F o.World) where
  open F use {Float}
  open o use {World}
  open e use {config}

  -- A reset of every limit of a list that limits anything.
  unfoldable pub reset_each : Text → List (RateLimit Float) → Eff (Handler World) (Unit {0})
  reset_each email [] = pure tt
  reset_each email (limit ∷ limits) =
      let rest = reset_each email limits in
      if limit.unlimited then rest else on_redis (reset_limit F o e.scripts email limit) >> rest

  by_unlimited :
      (unlimited : Bool) (reset more more' : Eff (Handler World) (Unit {0}))
      → more ≡ more'
      → (if unlimited then more else reset >> more) ≡ (if unlimited then more' else reset >> more')
  by_unlimited true reset more more' q = q
  by_unlimited false reset more more' q = ap (λ m. reset >> m) q

  by_seen :
      (email : Text) (limit : RateLimit Float) (seen_one : Bool)
      (rest more : Eff (Handler World) (Unit {0})) (later kept : List (RateLimit Float))
      → rest ≡ reset_each email later
      → more ≡ reset_each email kept
      → (if seen_one
          then rest
          else if limit.unlimited
          then more
          else on_redis (reset_limit F o e.scripts email limit) >> more)
        ≡ reset_each email (if seen_one then later else limit ∷ kept)
  unfolding reset_each
  by_seen email limit true rest more later kept p q = p
  by_seen email limit false rest more later kept p q =
      by_unlimited limit.unlimited (on_redis (reset_limit F o e.scripts email limit)) more
        (reset_each email kept) q

  reset_from-collect :
      (email : Text) (seen limits : List (RateLimit Float))
      → reset_from F same_rate o e email seen limits
        ≡ reset_each email (collect_from F same_rate o e seen limits)
  unfolding reset_from collect_from reset_each
  reset_from-collect email seen [] = refl
  reset_from-collect email seen (limit ∷ limits) =
      by_seen email limit (is_seen F same_rate o e limit seen)
        (reset_from F same_rate o e email seen limits)
        (reset_from F same_rate o e email (limit ∷ seen) limits)
        (collect_from F same_rate o e seen limits)
        (collect_from F same_rate o e (limit ∷ seen) limits) (reset_from-collect email seen limits)
        (reset_from-collect email (limit ∷ seen) limits)

  -- For every address and state: `reset_ratelimit_manually` resets, in order and up to the first call that
  -- raises, the limits that `_all_configured_limits` collects and that limit anything. These are the limits of
  -- the default quota and of the quotas, each once: no two of them have the same fields, every configured limit
  -- is there or one with the same fields, and there are no others.
  pub reset_ratelimit-reset_each :
      (email : Text)
      → (reset_ratelimit_manually F same_rate o e email
          ≡ reset_each email (all_configured_limits F same_rate o e))
        × IsEachOnce F same_rate o e (all_configured_limits F same_rate o e)
  unfolding reset_ratelimit_manually all_configured_limits
  reset_ratelimit-reset_each email = (
    reset_from-collect email []
        (config.limits.default_quota ++ of_quotas F same_rate o e (values config.limits.quotas)),
    all_configured_limits-IsEachOnce F same_rate o e,
  )
