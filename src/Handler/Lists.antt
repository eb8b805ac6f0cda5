-- ===== src/Handler/Lists.antt =====
-- `_load_lists_to_redis` of policyd_py/policy/handler.py: the lists of the configuration in Redis, and the
-- local domains. The LDAP client is a parameter.
use policyd_py.Base.{
  Bool, true, false, Option, none, some, List, [], ◌∷◌, ◌++◌, ltb, ◌==◌, is_empty, length,
  if◌then◌else◌, Text, codes, lower, starts_with, text_eq, drop, Outcome, returned, raised, Eff,
  pure, ◌>>=◌, ◌>>◌,
}
use policyd_py.Base.Dict.{Dict}
use policyd_py.Floats.{Floats}
use policyd_py.Outside.{Outside}
use policyd_py.Redis
use policyd_py.Handler.{Engine, Handler, on_redis}

-- s < t, by code points
unfoldable pub text_less : Text → Text → Bool
text_less s [] = false
text_less [] (d ∷ t) = true
text_less (c ∷ s) (d ∷ t) = if c == d then text_less s t else ltb c d

unfoldable pub insert : Text → List Text → List Text
unfolding text_less
insert x [] = x ∷ []
insert x (y ∷ ys) =
    if text_eq x y then y ∷ ys else if text_less x y then x ∷ y ∷ ys else y ∷ insert x ys

-- sorted(set([x for x in xs if x]))
unfoldable pub sorted_set : List Text → List Text
unfolding insert
sorted_set [] = []
sorted_set (x ∷ xs) = let rest = sorted_set xs in if is_empty x then rest else insert x rest

abbrev pub ldap_marker : Text
ldap_marker = codes "__LDAP__:"

abbrev pub list_key : Text → Text
list_key list_name = codes "policyd:list:" ++ list_name

-- What the LDAP client returns, or nothing where it raises.
abbrev pub or_nothing : Outcome (List Text) → List Text
or_nothing (returned domains) = domains
or_nothing (raised exc) = []

module _ (F : Floats) (o : Outside F.Float) (e : Engine F o.World)
    (ldap_client : Option (Text → Eff o.World (List Text))) where
  open o use {World}
  open e use {config}

  -- What a member with the marker brings.
  unfoldable pub ldap_domains :
      Option (Text → Eff World (List Text)) → Text → World → List Text × World
  ldap_domains none ldap_uri w = ([], w)
  ldap_domains (some get_domains) ldap_uri w =
      let (r, w') = get_domains ldap_uri w in (or_nothing r, w')

  -- What one member brings: nothing, the domains of LDAP, or itself.
  unfoldable pub resolved : Text → World → List Text × World
  unfolding ldap_domains
  resolved member w =
      if is_empty member
      then ([], w)
      else if starts_with member ldap_marker
      then ldap_domains ldap_client (drop (length ldap_marker) member) w
      else (lower member ∷ [], w)

  unfoldable pub resolve_from : List Text → List Text → World → List Text × World
  unfolding resolved
  resolve_from result [] w = (result, w)
  resolve_from result (member ∷ members) w =
      let (more, w') = resolved member w in resolve_from (result ++ more) members w'

  -- `resolve_members`
  unfoldable pub resolve_members : List Text → Eff (Handler World) (List Text)
  unfolding resolve_from sorted_set
  resolve_members members h =
      let (result, w) = resolve_from [] members h.redis.world in
      (returned (sorted_set result), record h { redis = record (h.redis) { world = w } })

  -- `self._local_domains.update(normalized)`; the set is kept as a list that is only asked for members.
  unfoldable pub collect : Bool → List Text → Handler World → Handler World
  collect false normalized h = h
  collect true normalized h = record h { local_domains = normalized ++ h.local_domains }

  unfoldable pub add_members : Bool → Text → List Text → Eff (Handler World) (Unit {0})
  unfolding collect
  add_members collect_local list_name [] = pure tt
  add_members collect_local list_name (m ∷ normalized) = do
    on_redis (Redis.sadd o (list_key list_name) (m ∷ normalized))
    λ h. (returned tt, collect collect_local (m ∷ normalized) h)

  unfoldable pub load_section : Bool → Dict (List Text) → Eff (Handler World) (Unit {0})
  unfolding resolve_members add_members
  load_section collect_local [] = pure tt
  load_section collect_local ((list_name, members) ∷ items) = do
    on_redis (Redis.delete o (list_key list_name))
    normalized ← resolve_members members
    add_members collect_local list_name normalized
    load_section collect_local items

  unfoldable pub load_lists_to_redis : Eff (Handler World) (Unit {0})
  unfolding load_section
  load_lists_to_redis h =
      (do
        load_section true config.limits.domain_lists
        load_section false config.limits.account_lists
        load_section false config.limits.ip_lists)
        (record h { local_domains = [] })

  -- `reload_lists`
  unfoldable pub reload_lists : Eff (Handler World) (Unit {0})
  unfolding load_lists_to_redis
  reload_lists = load_lists_to_redis
