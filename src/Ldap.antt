-- ===== src/Ldap.antt =====
-- policyd_py/ldap/client.py: the domains that an LDAP directory lists. `urlparse` and the directory behind ldap3
-- are parameters.
use policyd_py.Base.{
  ℕ, Bool, true, false, ◌||◌, ◌==◌, Option, none, some, List, [], ◌∷◌, is_empty, if◌then◌else◌,
  Text, codes, text_eq, lower, strip, value_error, Outcome, returned, raised, Eff, ◌>>=◌, ◌>>◌,
}
use policyd_py.Config.Sections.{LdapConfig}
use policyd_py.Config.Parse.{◌then◌}
use policyd_py.Handler.Lists.{sorted_set}

-- What `urlparse` makes of a text; its `port` raises where it is no number of a port.
pub record Url : Type 0 where
  pub hostname : Option Text
  pub port : Outcome (Option ℕ)
  pub scheme : Text
  pub path : Text

-- The server of a connection, and how the client binds to it.
pub record Endpoint : Type 0 where
  pub host : Text
  pub port : ℕ
  pub use_ssl : Bool
  pub base_dn : Text

pub record Directory (World : Type 0) : Type 0 where
  pub urlparse : Text → Url
  -- Connection(Server(...), auto_bind=True), with the user and the password if there are any
  pub bind : Endpoint → Option Text → Option Text → ℕ → Eff World (Unit {0})
  -- conn.search(search_base, search_filter, attributes)
  pub search : Text → Text → Text → Eff World Bool
  -- The attribute of each entry that was found, as `str` shows it.
  pub entries : Text → World → List (Option Text)
  pub unbind : World → World

unfoldable pub or_text : Option Text → Text → Text
or_text none default = default
or_text (some []) default = default
or_text (some (c ∷ s)) default = c ∷ s

unfoldable pub or_port : Option ℕ → ℕ → ℕ
or_port none default = default
or_port (some port) default = if port == 0 then default else port

-- path.lstrip("/")
unfoldable pub strip_slashes : Text → Text
strip_slashes [] = []
strip_slashes (c ∷ path) = let rest = strip_slashes path in if c == b'/' then rest else c ∷ path

unfoldable pub base_of : Text → Text → Text
unfolding strip_slashes
base_of path default =
    if is_empty path || text_eq path (codes "/") then default else strip_slashes path

-- value or None
unfoldable pub or_none : Text → Option Text
or_none [] = none
or_none (c ∷ s) = some (c ∷ s)

unfoldable pub domain_of : Option Text → Text
domain_of none = []
domain_of (some value) = lower (strip value)

unfoldable pub domains_of : List (Option Text) → List Text
unfolding domain_of
domains_of [] = []
domains_of (value ∷ values) = domain_of value ∷ domains_of values

module _ {World : Type 0} (d : Directory World) (config : LdapConfig) where
  unfoldable pub configured : Endpoint
  configured = record {
    host = config.host;
    port = config.port;
    use_ssl = config.use_ssl;
    base_dn = config.base_dn;
  }

  -- What the URI says, and the configuration for the rest.
  unfoldable pub from_url : Url → Outcome Endpoint
  unfolding or_text or_port base_of
  from_url url = url.port then λ port. returned (record {
    host = or_text url.hostname config.host;
    port = or_port port config.port;
    use_ssl = text_eq url.scheme (codes "ldaps") || config.use_ssl;
    base_dn = base_of url.path config.base_dn;
  })

  unfoldable pub endpoint : Text → Outcome Endpoint
  unfolding configured from_url
  endpoint [] = returned configured
  endpoint (c ∷ ldap_uri) = from_url (d.urlparse (c ∷ ldap_uri))

  unfoldable pub check_endpoint : Endpoint → Outcome Endpoint
  check_endpoint e =
      if is_empty e.host || is_empty e.base_dn
      then raised (value_error (codes "LDAP host/base_dn are required for LDAP domain loading"))
      else returned e

  unfoldable pub collect : Bool → Eff World (List Text)
  unfolding domains_of sorted_set
  collect false w = (returned [], w)
  collect true w = (returned (sorted_set (domains_of (d.entries config.domain_attribute w))), w)

  -- The connection is unbound, whatever happens.
  unfoldable pub search_bound : Endpoint → Eff World (List Text)
  unfolding collect
  search_bound e w =
      let (result, w') =
        (d.search e.base_dn config.search_filter config.domain_attribute >>= collect) w in
      (result, d.unbind w')

  unfoldable pub connect : Endpoint → Eff World (List Text)
  unfolding or_none search_bound
  connect e = do
    d.bind e (or_none config.bind_dn) (or_none config.bind_password) config.timeout
    search_bound e

  -- `get_domains`
  unfoldable pub get_domains : Text → Eff World (List Text)
  unfolding endpoint check_endpoint connect
  get_domains ldap_uri = do e ← λ w. (endpoint ldap_uri then check_endpoint, w); connect e
