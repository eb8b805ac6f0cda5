-- ===== src/Config/LoadedLimits.antt =====
-- The limits that `_parse_limits` of policyd_py/config/settings.py makes of an INI file.
use policyd_py.Base.{
  true, false, Option, none, some, List, [], ◌∷◌, All, if◌then◌else◌, Bool, Text, codes, text_eq,
  Outcome, returned, raised, continue, pure, ◌>>=◌,
}
use policyd_py.Base.Dict.{Dict, get, get_or, get, put}
use policyd_py.Floats.{Floats}
use policyd_py.Config.{RateLimit, LimitsConfig}
use policyd_py.Config.Parse.{◌then◌, parse_name_list}
use policyd_py.Config.Quotas.{parse_rate_limits}
use policyd_py.Config.WellFormed.{IsWellFormed, Ensures, then-Ensures, parse_parts-All}
use policyd_py.Config.Reading.{Reading, Reader, get_text, get_boolean, get_quota}
use policyd_py.Config.Loading.{
  read_section, load_limits_section, read_quotas, parse_limits, no_limits, entries_of, read_lists,
  read_policies,
}

module _ (F : Floats) (r : Reader) (lines_of : Text → Option (List Text)) where
  open F use {Float}

  abbrev pub WellFormedQuotas : Dict (List (RateLimit Float)) → Type 0
  WellFormedQuotas = All (λ (key, limits). All (IsWellFormed F) limits)

  pub if-both :
      {A : Type 0} (P : A → Type 0) (b : Bool) (x y : A) → P x → P y → P (if b then x else y)
  if-both P true x y p q = p
  if-both P false x y p q = q

  put-WellFormed :
      (quotas : Dict (List (RateLimit Float))) (key : Text) (limits : List (RateLimit Float))
      → All (IsWellFormed F) limits
      → WellFormedQuotas quotas
      → WellFormedQuotas (put quotas key limits)
  unfolding put
  put-WellFormed [] key limits w ws = (w, tt)
  put-WellFormed ((k, ls) ∷ quotas) key limits w (l, ws) =
      if-both WellFormedQuotas (text_eq k key) ((k, limits) ∷ quotas)
        ((k, ls) ∷ put quotas key limits) (w, ws) (l, put-WellFormed quotas key limits w ws)

  limits-Ensures : (value : Text) → Ensures F (All (IsWellFormed F)) (parse_rate_limits F value)
  unfolding parse_rate_limits
  limits-Ensures value = parse_parts-All F (parse_name_list value)

  read_quotas-Ensures :
      (entries : Dict Text) (quotas : Dict (List (RateLimit Float)))
      → WellFormedQuotas quotas
      → Ensures F WellFormedQuotas (read_quotas F r lines_of entries quotas)
  unfolding read_quotas Ensures
  read_quotas-Ensures [] quotas ws = ws
  read_quotas-Ensures ((key, value) ∷ entries) quotas ws =
      then-Ensures F (All (IsWellFormed F)) WellFormedQuotas (parse_rate_limits F value)
        (λ limits. read_quotas F r lines_of entries (put quotas key limits)) (limits-Ensures value)
        (λ limits w.
          read_quotas-Ensures entries (put quotas key limits)
            (put-WellFormed quotas key limits w ws))

  abbrev WellFormedDefault : LimitsConfig Float → Type 0
  WellFormedDefault limits = All (IsWellFormed F) limits.default_quota

  -- The same, for steps that read a section.
  read-Ensures :
      {A B : Type 0} (P : A → Type 0) (Q : B → Type 0) (f : A → Reading B) (o : Outcome A)
      (s : Dict Text)
      → Ensures F P o
      → ((a : A) → P a → Ensures F Q (f a s).0)
      → Ensures F Q (continue f o s).0
  unfolding Ensures
  read-Ensures P Q f (returned a) s p k = k a p
  read-Ensures P Q f (raised exc) s p k = tt

  Any : {A : Type 0} → A → Type 0
  Any a = Unit

  Any-Ensures : {A : Type 0} (o : Outcome A) → Ensures F Any o
  unfolding Ensures Any
  Any-Ensures (returned a) = tt
  Any-Ensures (raised exc) = tt

  bind-Ensures :
      {A B : Type 0} (P : A → Type 0) (Q : B → Type 0) (m : Reading A) (f : A → Reading B)
      → ((s : Dict Text) → Ensures F P (m s).0)
      → ((a : A) → P a → (s : Dict Text) → Ensures F Q (f a s).0)
      → (s : Dict Text) → Ensures F Q ((m >>= f) s).0
  bind-Ensures P Q m f p q s = read-Ensures P Q f (m s).0 (m s).1 (p s) (λ a h. q a h (m s).1)

  -- The steps of the section `Limits`, from the last one back.
  abbrev with_quota : Bool → Text → Bool → List (RateLimit Float) → Reading (LimitsConfig Float)
  with_quota enable state lua quota = pure (record (no_limits F r lines_of) {
    enable_policyd = enable;
    policy_check_state = state;
    ratelimit_use_lua = lua;
    default_quota = quota;
  })

  abbrev with_lua : Bool → Text → Bool → Reading (LimitsConfig Float)
  with_lua enable state lua =
      get_quota F (codes "default_quota") (codes "10/1h:fixed_window")
      >>= with_quota enable state lua

  abbrev with_state : Bool → Text → Reading (LimitsConfig Float)
  with_state enable state = get_boolean (codes "ratelimit_use_lua") true >>= with_lua enable state

  abbrev with_enable : Bool → Reading (LimitsConfig Float)
  with_enable enable = get_text (codes "policy_check_state") (codes "RCPT") >>= with_state enable

  with_lua-Ensures :
      (enable : Bool) (state : Text) (lua : Bool) (s : Dict Text)
      → Ensures F WellFormedDefault (with_lua enable state lua s).0
  unfolding get_quota Ensures
  with_lua-Ensures enable state lua =
      bind-Ensures (All (IsWellFormed F)) WellFormedDefault
        (get_quota F (codes "default_quota") (codes "10/1h:fixed_window"))
        (with_quota enable state lua)
        (λ s. limits-Ensures (get_or s (codes "default_quota") (codes "10/1h:fixed_window")))
        (λ quota w s. w)

  section-Ensures :
      (s : Dict Text)
      → Ensures F WellFormedDefault (load_limits_section F r lines_of (no_limits F r lines_of) s).0
  unfolding load_limits_section Any
  section-Ensures =
      bind-Ensures Any WellFormedDefault (get_boolean (codes "enable_policyd") true) with_enable
        (λ s. Any-Ensures (get_boolean (codes "enable_policyd") true s).0)
        (λ enable _.
          bind-Ensures Any WellFormedDefault (get_text (codes "policy_check_state") (codes "RCPT"))
            (with_state enable)
            (λ s. Any-Ensures (get_text (codes "policy_check_state") (codes "RCPT") s).0)
            (λ state _.
              bind-Ensures Any WellFormedDefault (get_boolean (codes "ratelimit_use_lua") true)
                (with_lua enable state)
                (λ s. Any-Ensures (get_boolean (codes "ratelimit_use_lua") true s).0)
                (λ lua _. with_lua-Ensures enable state lua)))

  abbrev pub WellFormedLimits : LimitsConfig Float → Type 0
  WellFormedLimits limits = WellFormedDefault limits × WellFormedQuotas limits.quotas

  read_section-Ensures :
      {A : Type 0} (P : A → Type 0) (parser : Dict (Dict Text)) (name : Text) (reading : Reading A)
      (cfg : A)
      → ((s : Dict Text) → Ensures F P (reading s).0)
      → P cfg
      → Ensures F P (read_section parser name reading cfg)
  unfolding read_section Ensures
  read_section-Ensures P parser name reading cfg h p =
      elim (get parser name)
        as (λ o.
          Ensures F P (elim o [ none ↦ returned cfg | some section ↦ (reading section).0 ])) [
            | none ↦ p
            | some section ↦ h section
          ]

  abbrev with_quotas :
      Dict (Dict Text)
      → LimitsConfig Float
      → Dict (List (RateLimit Float))
      → Outcome (LimitsConfig Float)
  with_quotas parser limits quotas = returned (record limits {
    domain_lists =
        read_lists F r lines_of (entries_of F r lines_of parser (codes "DomainLists")) [];
    account_lists =
        read_lists F r lines_of (entries_of F r lines_of parser (codes "AccountLists")) [];
    ip_lists = read_lists F r lines_of (entries_of F r lines_of parser (codes "IPLists")) [];
    quotas = quotas;
    policies = read_policies F r lines_of (entries_of F r lines_of parser (codes "Policies"));
  })

  abbrev with_limits : Dict (Dict Text) → LimitsConfig Float → Outcome (LimitsConfig Float)
  with_limits parser limits =
      read_quotas F r lines_of (entries_of F r lines_of parser (codes "Quotas")) []
      then with_quotas parser limits

  with_limits-Ensures :
      (parser : Dict (Dict Text)) (limits : LimitsConfig Float)
      → WellFormedDefault limits
      → Ensures F WellFormedLimits (with_limits parser limits)
  unfolding Ensures
  with_limits-Ensures parser limits w =
      then-Ensures F WellFormedQuotas WellFormedLimits
        (read_quotas F r lines_of (entries_of F r lines_of parser (codes "Quotas")) [])
        (with_quotas parser limits)
        (read_quotas-Ensures (entries_of F r lines_of parser (codes "Quotas")) [] tt)
        (λ quotas v. (w, v))

  pub parse_limits-Ensures :
      (parser : Dict (Dict Text)) → Ensures F WellFormedLimits (parse_limits F r lines_of parser)
  unfolding parse_limits
  parse_limits-Ensures parser =
      then-Ensures F WellFormedDefault WellFormedLimits
        (read_section parser (codes "Limits")
          (load_limits_section F r lines_of (no_limits F r lines_of)) (no_limits F r lines_of))
        (with_limits parser)
        (read_section-Ensures WellFormedDefault parser (codes "Limits")
          (load_limits_section F r lines_of (no_limits F r lines_of)) (no_limits F r lines_of)
          section-Ensures tt)
        (with_limits-Ensures parser)
