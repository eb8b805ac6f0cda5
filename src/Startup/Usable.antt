-- ===== src/Startup/Usable.antt =====
-- The providers of the action manager that policyd_py/__main__.py builds.
use policyd_py.Base.{
  ℕ, ◌≡◌, refl, sym, ap, ◌∙◌, Bool, true, false, not, ◌||◌, Option, none, some, List, [], ◌∷◌, map,
  is_empty, if◌then◌else◌, Text, codes, text_eq, lower, strip, Exception, Bool-cases, inl, inr,
}
use policyd_py.Config.Sections.{ExternalActionConfig}
use policyd_py.Config.Loading.{Settings}
use policyd_py.Actions.{ActionProvider, ActionManager, new, start}
use policyd_py.Webhook
use policyd_py.Webhook.{Web}
use policyd_py.Script
use policyd_py.Script.{Processes, ScriptConfig}
use policyd_py.Startup.{
  webhook_of, build_webhook, build_script, build_action_provider, append_provider, build_providers,
  manager_of, manager_config, build_action_manager,
}

-- A provider is usable if it is one of the two kinds, and the settings say both how it locks and how it
-- unlocks.
abbrev usable_webhook : {Float : Type 0} → Settings Float → Option Text
usable_webhook config =
    if is_empty config.webhook.lock_url || is_empty config.webhook.unlock_url
    then none
    else some (codes "webhook")

abbrev usable_script : {Float : Type 0} → Settings Float → Option Text
usable_script config =
    if is_empty config.script.lock_command || is_empty config.script.unlock_command
    then none
    else some (codes "script")

abbrev usable_kind : {Float : Type 0} → Settings Float → Text → Option Text
usable_kind config kind =
    if text_eq kind (codes "webhook")
    then usable_webhook config
    else if text_eq kind (codes "script")
    then usable_script config
    else none

abbrev append_name : Option Text → List Text → List Text
append_name none names = names
append_name (some name) names = name ∷ names

abbrev pub usable : {Float : Type 0} → Settings Float → List Text → List Text
usable config [] = []
usable config (name ∷ names) =
    append_name (usable_kind config (lower (strip name))) (usable config names)

abbrev pub names_of : {World : Type 0} → List (ActionProvider World) → List Text
names_of providers = map (λ p. p.name) providers

abbrev name_of : {World : Type 0} → Option (ActionProvider World) → Option Text
name_of none = none
name_of (some p) = some p.name

append-names :
    {World : Type 0} (o : Option (ActionProvider World)) (ps : List (ActionProvider World))
    → names_of (append_provider o ps) ≡ append_name (name_of o) (names_of ps)
unfolding append_provider
append-names none ps = refl
append-names (some p) ps = refl

if-name :
    {World : Type 0} (b : Bool) (x y : Option (ActionProvider World)) (m n : Option Text)
    → name_of x ≡ m
    → name_of y ≡ n
    → name_of (if b then x else y) ≡ (if b then m else n)
if-name true x y m n p q = p
if-name false x y m n p q = q

module _ {World Float : Type 0} (web : Web World) (processes : Processes World) where
  webhook-name :
      (config : Settings Float)
      → name_of (build_webhook web config.webhook) ≡ (
          if is_empty config.webhook.lock_url || is_empty config.webhook.unlock_url
          then none
          else some (codes "webhook"))
  unfolding build_webhook Webhook.as_provider
  webhook-name config =
      if-name (is_empty config.webhook.lock_url || is_empty config.webhook.unlock_url) none
        (some (Webhook.as_provider web (webhook_of config.webhook))) none (some (codes "webhook"))
        refl refl

  script-name :
      (config : Settings Float)
      → name_of (build_script processes config.script) ≡ (
          if is_empty config.script.lock_command || is_empty config.script.unlock_command
          then none
          else some (codes "script"))
  unfolding build_script Script.as_provider
  script-name config =
      if-name (is_empty config.script.lock_command || is_empty config.script.unlock_command) none
        (some (Script.as_provider processes config.script)) none (some (codes "script")) refl refl

  kind-name :
      (kind : Text) (config : Settings Float)
      → name_of (
          if text_eq kind (codes "webhook")
          then build_webhook web config.webhook
          else if text_eq kind (codes "script")
          then build_script processes config.script
          else none)
        ≡ usable_kind config kind
  kind-name kind config =
      if-name (text_eq kind (codes "webhook")) (build_webhook web config.webhook)
        (if text_eq kind (codes "script") then build_script processes config.script else none)
        (usable_webhook config)
        (if text_eq kind (codes "script") then usable_script config else none) (webhook-name config)
        (if-name (text_eq kind (codes "script")) (build_script processes config.script) none
          (usable_script config) none (script-name config) refl)

  -- The empty name is none of the two.
  any_kind-name :
      (kind : Text) (config : Settings Float)
      → name_of (
          if is_empty kind
          then none
          else if text_eq kind (codes "webhook")
          then build_webhook web config.webhook
          else if text_eq kind (codes "script")
          then build_script processes config.script
          else none)
        ≡ usable_kind config kind
  unfolding text_eq
  any_kind-name [] config = refl
  any_kind-name (c ∷ kind) config = kind-name (c ∷ kind) config

  build_providers-names :
      (names : List Text) (config : Settings Float)
      → names_of (build_providers web processes names config) ≡ usable config names
  unfolding build_providers build_action_provider
  build_providers-names [] config = refl
  build_providers-names (name ∷ names) config =
      append-names (build_action_provider web processes name config)
        (build_providers web processes names config)
      ∙ (λ i.
          append_name (any_kind-name (lower (strip name)) config i)
            (build_providers-names names config i))

module _ {World : Type 0} (monotonic : World → ℕ) (str : Exception → Text) where
  start-names :
      (m : ActionManager World)
      → names_of ((start monotonic str m).primary ∷ (start monotonic str m).fallbacks)
        ≡ names_of (m.primary ∷ m.fallbacks)
  unfolding start
  start-names m = elim (Bool-cases m.config.async_execution) [
    | inl queued ↦ rw queued refl
    | inr direct ↦ rw direct refl
  ]

  abbrev names_in : Option (ActionManager World) → List Text
  names_in none = []
  names_in (some m) = names_of (m.primary ∷ m.fallbacks)

  manager-names :
      (ext : ExternalActionConfig) (providers : List (ActionProvider World)) (w : World)
      → names_in (manager_of monotonic str ext providers w) ≡ names_of providers
  unfolding manager_of new
  manager-names ext [] w = refl
  manager-names ext (primary ∷ fallbacks) w =
      start-names (new primary fallbacks (manager_config ext) w)

  guarded :
      (b : Bool) (o : Option (ActionManager World)) (m : ActionManager World)
      → (if b then none else o) ≡ some m
      → (b ≡ false) × (o ≡ some m)
  guarded true o m h = cc
  guarded false o m h = (refl, h)

  enabled : (a b : Bool) → (not a || b) ≡ false → a ≡ true
  enabled true b h = refl
  enabled false b h = cc

  -- If an action manager is built, then external actions are enabled, and its providers, the first one and
  -- the fallbacks in their order, are those of the configured ones that are usable.
  pub build_action_manager-usable :
      {Float : Type 0} (web : Web World) (processes : Processes World) (config : Settings Float)
      (w : World) (m : ActionManager World)
      → build_action_manager monotonic str web processes config w ≡ some m
      → (config.external_action.enable ≡ true)
        × (names_of (m.primary ∷ m.fallbacks)
            ≡ usable config
                (config.external_action.provider ∷ config.external_action.fallback_providers))
  unfolding build_action_manager
  build_action_manager-usable web processes config w m h =
      let ext = config.external_action in
      let names = ext.provider ∷ ext.fallback_providers in
      let (open_guard, built) =
        guarded (not ext.enable || is_empty ext.provider)
          (manager_of monotonic str ext (build_providers web processes names config) w) m h in
      (
        enabled ext.enable (is_empty ext.provider) open_guard,
        ap names_in (sym built)
            ∙ manager-names ext (build_providers web processes names config) w
            ∙ build_providers-names web processes names config,
      )
