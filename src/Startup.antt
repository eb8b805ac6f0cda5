-- ===== src/Startup.antt =====
-- policyd_py/__main__.py: the parts that the settings give to the process, which are the providers of the
-- action manager and the LDAP client.
pub mod Usable
use policyd_py.Base.{
  ℕ, ◌≡◌, refl, Bool, true, false, not, ◌&&◌, ◌||◌, Option, none, some, List, [], ◌∷◌, map,
  is_empty, if◌then◌else◌, Text, codes, text_eq, lower, strip, Exception, Bool-cases, inl, inr, ap,
}
use policyd_py.Config.Sections.{ExternalActionConfig, WebhookConfig, LdapConfig}
use policyd_py.Config.Loading.{Settings}
use policyd_py.Actions.{ActionProvider, ActionManager, ManagerConfig, new, start}
use policyd_py.Webhook
use policyd_py.Webhook.{Web, WebhookActionProvider, template_of}
use policyd_py.Script
use policyd_py.Script.{Processes, ScriptConfig}

-- WebhookActionProvider(lock_url=wh.lock_url, ...)
unfoldable pub webhook_of : WebhookConfig → WebhookActionProvider
unfolding template_of
webhook_of wh = record {
  lock_url = wh.lock_url;
  unlock_url = wh.unlock_url;
  status_url = wh.status_url;
  lock_method = wh.lock_method;
  unlock_method = wh.unlock_method;
  status_method = wh.status_method;
  lock_body_tpl = template_of wh.lock_body;
  unlock_body_tpl = template_of wh.unlock_body;
  status_field = wh.status_field;
  auth_type = wh.auth_type;
  auth_token = wh.auth_token;
  auth_user = wh.auth_user;
  auth_pass = wh.auth_pass;
  headers = wh.headers;
  sign_requests = wh.sign_requests;
  sign_secret = wh.sign_secret;
  sign_header = wh.sign_header;
  timeout_seconds = wh.timeout_seconds;
  retry_count = wh.retry_count;
  retry_delay_seconds = wh.retry_delay_seconds;
}

-- `_build_ldap_client`: the settings of the client.
unfoldable pub build_ldap_client : {Float : Type 0} → Settings Float → Option LdapConfig
build_ldap_client config =
    if not (is_empty config.ldap.host) && not (is_empty config.ldap.base_dn)
    then some config.ldap
    else none

unfoldable pub manager_config : ExternalActionConfig → ManagerConfig
manager_config ext = record {
  continue_on_error = ext.continue_on_error;
  async_execution = ext.async_execution;
  queue_size = ext.async_queue_size;
  workers = ext.async_workers;
}

unfoldable pub append_provider :
    {World : Type 0}
    → Option (ActionProvider World)
    → List (ActionProvider World)
    → List (ActionProvider World)
append_provider none providers = providers
append_provider (some provider) providers = provider ∷ providers

unfoldable pub build_webhook :
    {World : Type 0} → Web World → WebhookConfig → Option (ActionProvider World)
unfolding webhook_of Webhook.as_provider
build_webhook web wh =
    if is_empty wh.lock_url || is_empty wh.unlock_url
    then none
    else some (Webhook.as_provider web (webhook_of wh))

unfoldable pub build_script :
    {World : Type 0} → Processes World → ScriptConfig → Option (ActionProvider World)
unfolding Script.as_provider
build_script processes script_cfg =
    if is_empty script_cfg.lock_command || is_empty script_cfg.unlock_command
    then none
    else some (Script.as_provider processes script_cfg)

module _ {World : Type 0} (web : Web World) (processes : Processes World) where
  -- `_build_action_provider`; the empty name is none of the two.
  unfoldable pub build_action_provider :
      {Float : Type 0} → Text → Settings Float → Option (ActionProvider World)
  unfolding build_webhook build_script
  build_action_provider name config =
      if is_empty (lower (strip name))
      then none
      else if text_eq (lower (strip name)) (codes "webhook")
      then build_webhook web config.webhook
      else if text_eq (lower (strip name)) (codes "script")
      then build_script processes config.script
      else none

  unfoldable pub build_providers :
      {Float : Type 0} → List Text → Settings Float → List (ActionProvider World)
  unfolding build_action_provider append_provider
  build_providers [] config = []
  build_providers (name ∷ names) config =
      append_provider (build_action_provider name config) (build_providers names config)

module _ {World : Type 0} (monotonic : World → ℕ) (str : Exception → Text) where
  -- The first provider, and the others to fall back on.
  unfoldable pub manager_of :
      ExternalActionConfig → List (ActionProvider World) → World → Option (ActionManager World)
  unfolding manager_config new start
  manager_of ext [] w = none
  manager_of ext (primary ∷ fallbacks) w =
      some (start monotonic str (new primary fallbacks (manager_config ext) w))

  -- `_build_action_manager`
  unfoldable pub build_action_manager :
      {Float : Type 0}
      → Web World
      → Processes World
      → Settings Float
      → World
      → Option (ActionManager World)
  unfolding build_providers manager_of
  build_action_manager web processes config w =
      if not config.external_action.enable || is_empty config.external_action.provider
      then none
      else manager_of config.external_action
          (build_providers web processes
            (config.external_action.provider ∷ config.external_action.fallback_providers) config)
          w
