-- ===== src/Config/Loaded.antt =====
-- The settings that `AppConfig.load` of policyd_py/config/settings.py makes of an INI file, and the limits that the
-- engine takes from them.
use policyd_py.Base.{
  ◌≡◌, refl, sym, subst, inl, true, false, Option, none, some, List, [], ◌∷◌, All, if◌then◌else◌,
  Bool, Text, codes, text_eq, lower, mem_text, Outcome, returned, raised, continue, pure,
}
use policyd_py.Base.Dict.{Dict, get, get_or, get}
use policyd_py.Floats.{Floats}
use policyd_py.Config.{RateLimit, LimitsConfig, PolicyRule}
use policyd_py.Config.Parse.{◌then◌}
use policyd_py.Config.WellFormed.{IsWellFormed, Ensures}
use policyd_py.Config.Reading.{Reader}
use policyd_py.Config.Defaults.{
  default_general, default_actions, default_keydb, default_locks, default_penalty, default_adaptive,
  default_ldap, default_logging, default_validation, default_telegram, default_discord,
  default_email, default_external_action, default_webhook, default_script, default_web,
}
use policyd_py.Config.Loading.Engine.{
  load_general, load_actions, load_keydb, load_locks, load_penalty, load_adaptive, load_validation,
}
use policyd_py.Config.Loading.Services.{
  load_ldap, load_logging, load_telegram, load_discord, load_email, load_external_action,
  load_webhook, load_script, load_web,
}
use policyd_py.Config.Loading.{Settings, Parsing, read_section, parse_limits, load}
use policyd_py.Handler.{resolve_limits, unlimited_limit}
use policyd_py.Config.LoadedLimits.{
  if-both, WellFormedQuotas, WellFormedLimits, parse_limits-Ensures,
}

module _ (F : Floats) (r : Reader) (lines_of : Text → Option (List Text)) where
  open F use {Float}

  abbrev WellFormedSettings : Settings Float → Type 0
  WellFormedSettings settings = (WellFormedLimits F r lines_of) settings.app.limits

  -- A step before changes nothing in what a result ensures.
  skip-Ensures :
      {A : Type 0} (f : A → Parsing (Settings Float)) (o : Outcome A) (parser : Dict (Dict Text))
      → ((a : A) → Ensures F WellFormedSettings (f a parser).0)
      → Ensures F WellFormedSettings (continue f o parser).0
  unfolding Ensures
  skip-Ensures f (returned a) parser k = k a
  skip-Ensures f (raised exc) parser k = tt

  last-Ensures :
      (made : LimitsConfig Float → Settings Float) (o : Outcome (LimitsConfig Float))
      (parser : Dict (Dict Text))
      → Ensures F (WellFormedLimits F r lines_of) o
      → ((limits : LimitsConfig Float) → (made limits).app.limits ≡ limits)
      → Ensures F WellFormedSettings (continue (λ limits. pure (made limits)) o parser).0
  unfolding Ensures
  last-Ensures made (returned limits) parser w keeps =
      subst (WellFormedLimits F r lines_of) (sym (keeps limits)) w
  last-Ensures made (raised exc) parser w keeps = tt

  load-Ensures :
      (parser : Dict (Dict Text)) → Ensures F WellFormedSettings (load F r lines_of parser).0
  unfolding load
  load-Ensures parser =
      skip-Ensures _
        (read_section parser (codes "General") (load_general r default_general) default_general)
        parser
        (λ general.
          skip-Ensures _
            (read_section parser (codes "Actions") (load_actions default_actions) default_actions)
            parser
            (λ actions.
              skip-Ensures _
                (read_section parser (codes "KeyDB") (load_keydb r default_keydb) default_keydb)
                parser
                (λ keydb.
                  skip-Ensures _
                    (read_section parser (codes "Locks") (load_locks r default_locks) default_locks)
                    parser
                    (λ locks.
                      skip-Ensures _
                        (read_section parser (codes "Penalty") (load_penalty default_penalty)
                          default_penalty)
                        parser
                        (λ penalty.
                          skip-Ensures _
                            (read_section parser (codes "AdaptiveLimits")
                              (load_adaptive F (default_adaptive F)) (default_adaptive F))
                            parser
                            (λ adaptive.
                              skip-Ensures _
                                (read_section parser (codes "LDAP") (load_ldap r default_ldap)
                                  default_ldap)
                                parser
                                (λ ldap.
                                  skip-Ensures _
                                    (read_section parser (codes "Logging")
                                      (load_logging default_logging) default_logging)
                                    parser
                                    (λ logging.
                                      skip-Ensures _
                                        (read_section parser (codes "EmailValidation")
                                          (load_validation r default_validation) default_validation)
                                        parser
                                        (λ validation.
                                          skip-Ensures _
                                            (read_section parser (codes "Telegram")
                                              (load_telegram default_telegram) default_telegram)
                                            parser
                                            (λ telegram.
                                              skip-Ensures _
                                                (read_section parser (codes "Discord")
                                                  (load_discord default_discord) default_discord)
                                                parser
                                                (λ discord.
                                                  skip-Ensures _
                                                    (read_section parser (codes "Email")
                                                      (load_email r default_email) default_email)
                                                    parser
                                                    (λ email.
                                                      skip-Ensures _
                                                        (read_section parser
                                                          (codes "ExternalAction")
                                                          (load_external_action r
                                                            default_external_action)
                                                          default_external_action)
                                                        parser
                                                        (λ external_action.
                                                          skip-Ensures _
                                                            (read_section parser (codes "Webhook")
                                                            (load_webhook r default_webhook)
                                                            default_webhook)
                                                            parser
                                                            (λ webhook.
                                                            skip-Ensures _
                                                            (read_section parser (codes "Script")
                                                            (load_script r default_script)
                                                            default_script)
                                                            parser
                                                            (λ script.
                                                            skip-Ensures _
                                                            (read_section parser (codes "Web")
                                                            (load_web r default_web) default_web)
                                                            parser
                                                            (λ web.
                                                            last-Ensures _
                                                            (parse_limits F r lines_of parser)
                                                            parser
                                                            (parse_limits-Ensures F r lines_of
                                                            parser)
                                                            (λ limits. refl)))))))))))))))))

  abbrev or_default :
      Option (List (RateLimit Float)) → List (RateLimit Float) → List (RateLimit Float)
  or_default o default = elim o [ none ↦ default | some limits ↦ limits ]

  found-WellFormed :
      (b : Bool) (limits : List (RateLimit Float)) (o : Option (List (RateLimit Float)))
      (default : List (RateLimit Float))
      → All (IsWellFormed F) limits
      → All (IsWellFormed F) (or_default o default)
      → All (IsWellFormed F) (or_default (if b then some limits else o) default)
  found-WellFormed true limits o default w ws = w
  found-WellFormed false limits o default w ws = ws

  get-WellFormed :
      (quotas : Dict (List (RateLimit Float))) (key : Text) (default : List (RateLimit Float))
      → All (IsWellFormed F) default
      → WellFormedQuotas F r lines_of quotas
      → All (IsWellFormed F) (get_or quotas key default)
  unfolding get
  get-WellFormed [] key default d ws = d
  get-WellFormed ((k, limits) ∷ quotas) key default d (w, ws) =
      found-WellFormed (text_eq k key) limits (get quotas key) default w
        (get-WellFormed quotas key default d ws)

  unlimited-WellFormed : All (IsWellFormed F) (unlimited_limit F ∷ [])
  unlimited-WellFormed = (record { known = inl refl; refill = inl refl; free = λ h. refl }, tt)

  resolve_limits-WellFormed :
      (settings : Settings Float) (rule : Option PolicyRule)
      → WellFormedSettings settings
      → All (IsWellFormed F) (resolve_limits F settings.app rule)
  unfolding resolve_limits
  resolve_limits-WellFormed settings none (d, ws) = d
  resolve_limits-WellFormed settings (some rule) (d, ws) =
      if-both F r lines_of (All (IsWellFormed F))
        (mem_text (lower rule.quota) (codes "unlimited" ∷ codes "nolimit" ∷ []))
        (unlimited_limit F ∷ [])
        (get_or settings.app.limits.quotas rule.quota settings.app.limits.default_quota)
        unlimited-WellFormed
        (get-WellFormed settings.app.limits.quotas rule.quota settings.app.limits.default_quota d
          ws)

  Returned-Ensures :
      {A : Type 0} (P : A → Type 0) (o : Outcome A) (a : A) → Ensures F P o → o ≡ returned a → P a
  unfolding Ensures
  Returned-Ensures P o a e h = subst (Ensures F P) h e

  -- If the settings are loaded from the sections of an INI file, then whatever rule is selected, or none, the
  -- limits that the engine takes for it are well-formed: each is of one of the three algorithms, has a refill
  -- rate other than 0 only for a token bucket, and is a token bucket if it is unlimited.
  pub load-resolve_limits :
      (parser : Dict (Dict Text)) (settings : Settings Float) (rule : Option PolicyRule)
      → (load F r lines_of parser).0 ≡ returned settings
      → All (IsWellFormed F) (resolve_limits F settings.app rule)
  load-resolve_limits parser settings rule h = resolve_limits-WellFormed settings rule (
      Returned-Ensures WellFormedSettings (load F r lines_of parser).0 settings
        (load-Ensures parser) h)
