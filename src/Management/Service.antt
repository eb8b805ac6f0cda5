-- ===== src/Management/Service.antt =====
-- policyd_py/management/service.py: what the management asks of the policy engine and of the configuration.
use policyd_py.Base.{Bool, Option, none, some, Text, codes, returned, Eff, pure, ◌>>=◌, ◌>>◌}
use policyd_py.Base.Dict.{Dict}
use policyd_py.Floats.{Floats}
use policyd_py.Outside.{Outside}
use policyd_py.Breaker.{CircuitBreaker}
use policyd_py.Stats.{RuntimeStats}
use policyd_py.Actions.{ProviderMetric}
use policyd_py.Handler.{Engine, Handler}
use policyd_py.Handler.Manual.{
  RuntimeState, lock_user_manually, unlock_user_manually, reset_ratelimit_manually,
  reset_penalty_manually, get_runtime_state,
}
use policyd_py.Management.ConfigManager
use policyd_py.Management.ConfigManager.{ConfigManager, Disk, Value}

-- The handler and the configuration that the service holds.
pub record Service (World Config : Type 0) : Type 0 where
  pub handler : Handler World
  pub config_manager : ConfigManager Config

-- The dictionaries that the service returns.
pub data Payload : Type 0 where
  -- {"status": ...}, and the same with "email"
  status : Text → Payload
  status_of : Text → Text → Payload
  -- "features", with "management_api" for the health
  healthy : Bool → Bool → Payload
  -- the counters, the breaker, the metrics of the providers, and "features"
  statistics :
      RuntimeStats → Option CircuitBreaker → Option (Dict ProviderMetric) → Bool → Bool → Payload
  state : RuntimeState → Payload

module _ (F : Floats) (same_rate : F.Float → F.Float → Bool) (o : Outside F.Float)
    (e : Engine F o.World) {Config : Type 0} (disk : Disk Config)
    (reload_callback : Option (Config → Eff (Service o.World Config) (Unit {0})))
    (get_metrics : Option (o.World → Dict ProviderMetric)) where
  open o use {World}
  open e use {config}

  abbrev pub on_engine : {A : Type 0} → Eff (Handler World) A → Eff (Service World Config) A
  on_engine m s = let (r, h) = m s.handler in (r, record s { handler = h })

  abbrev pub on_manager : {A : Type 0} → Eff (ConfigManager Config) A → Eff (Service World Config) A
  on_manager m s = let (r, c) = m s.config_manager in (r, record s { config_manager = c })

  unfoldable pub call_back :
      Option (Config → Eff (Service World Config) (Unit {0}))
      → Config
      → Eff (Service World Config) (Unit {0})
  call_back none cfg = pure tt
  call_back (some f) cfg = f cfg

  unfoldable pub health : Eff (Service World Config) Payload
  health = pure (healthy config.adaptive.enable config.penalty.enable)

  abbrev metrics_in : Option (o.World → Dict ProviderMetric) → World → Option (Dict ProviderMetric)
  metrics_in none w = none
  metrics_in (some f) w = some (f w)

  unfoldable pub stats : Eff (Service World Config) Payload
  stats s = (
    returned (
        statistics s.handler.stats s.handler.redis.circuit_breaker
          (metrics_in get_metrics s.handler.redis.world) config.adaptive.enable
          config.penalty.enable),
    s,
  )

  unfoldable pub runtime_state : Text → Eff (Service World Config) Payload
  unfolding get_runtime_state
  runtime_state email = do
    found ← on_engine (get_runtime_state F same_rate o e email)
    pure (state found)

  unfoldable pub reload_config : Eff (Service World Config) Payload
  unfolding call_back ConfigManager.reload
  reload_config = do
    cfg ← on_manager (ConfigManager.reload disk)
    call_back reload_callback cfg
    pure (status (codes "reloaded"))

  -- The stamp is the time that a backup is named after.
  unfoldable pub save_config :
      Text → Option Text → Option (Dict (Dict Value)) → Eff (Service World Config) Payload
  unfolding call_back ConfigManager.save
  save_config stamp content updates = do
    cfg ← on_manager (ConfigManager.save disk stamp content updates)
    call_back reload_callback cfg
    pure (status (codes "saved"))

  unfoldable pub lock_user : Text → Text → Eff (Service World Config) Payload
  unfolding lock_user_manually
  lock_user email reason = do
    on_engine (lock_user_manually F same_rate o e email reason)
    pure (status_of (codes "locked") email)

  unfoldable pub unlock_user : Text → Eff (Service World Config) Payload
  unfolding unlock_user_manually
  unlock_user email = do
    on_engine (unlock_user_manually F same_rate o e email)
    pure (status_of (codes "unlocked") email)

  unfoldable pub reset_ratelimit : Text → Eff (Service World Config) Payload
  unfolding reset_ratelimit_manually
  reset_ratelimit email = do
    on_engine (reset_ratelimit_manually F same_rate o e email)
    pure (status_of (codes "reset") email)

  unfoldable pub reset_penalty : Text → Eff (Service World Config) Payload
  unfolding reset_penalty_manually
  reset_penalty email = do
    on_engine (reset_penalty_manually F same_rate o e email)
    pure (status_of (codes "reset") email)
