-- ===== src/Tests/Engines.antt =====
-- The lists, the tasks and the resets of the policy engine (policyd_py/policy/handler.py).
use policyd_py.Base.{
  ℕ, ◌≡◌, refl, ◌==◌, true, false, not, ◌&&◌, none, List, [], ◌∷◌, codes, lower, is_empty, returned,
  pure, raise, redis_error,
}
use policyd_py.Redis
use policyd_py.Handler.{Engine, is_local_domain}
use policyd_py.Handler.Lists.{load_lists_to_redis}
use policyd_py.Handler.LocalDomains.{in_lists, load_lists-local_domains}
use policyd_py.Handler.Manual.{all_configured_limits, reset_ratelimit_manually}
use policyd_py.Handler.Resetting.{reset_each, reset_ratelimit-reset_each}
use policyd_py.Handler.Resetting.Fingerprints.{IsEachOnce}
use policyd_py.Handler.Lifecycle.{Parts, Event, starts, stops, refreshes, new, run}
use policyd_py.Handler.Lifecycle.Invariant.{IsTidy, run-IsTidy}
use policyd_py.Tests.Outsides.{whole_numbers, over_limit, config, engine, handler, ten_per_hour}

abbrev with_domains : Engine whole_numbers ℕ
with_domains = record engine {
  config = record config {
    limits = record (config.limits) {
      domain_lists = (codes "local", codes "B.de" ∷ [] ∷ codes "__LDAP__:x" ∷ []) ∷ [];
      quotas = (codes "hourly", ten_per_hour ∷ []) ∷ [];
    };
  };
}

loading_returns :
    (load_lists_to_redis whole_numbers over_limit with_domains none handler).0 ≡ returned tt
unfolding load_lists_to_redis Redis.delete Redis.sadd handler
loading_returns = refl

load_lists-local_domains_example :
    is_local_domain
      (load_lists_to_redis whole_numbers over_limit with_domains none handler).1.local_domains
      (codes "b.DE")
    ≡ (not (is_empty (codes "b.DE"))
        && in_lists (lower (codes "b.DE")) with_domains.config.limits.domain_lists)
load_lists-local_domains_example =
    load_lists-local_domains whole_numbers over_limit with_domains handler (codes "b.DE")
      loading_returns

reset_ratelimit-reset_each_example :
    (reset_ratelimit_manually whole_numbers ◌==◌ over_limit with_domains (codes "a@b.de")
      ≡ reset_each whole_numbers ◌==◌ over_limit with_domains
          (codes "a@b.de")
          (all_configured_limits whole_numbers ◌==◌ over_limit with_domains))
    × IsEachOnce whole_numbers ◌==◌ over_limit with_domains
        (all_configured_limits whole_numbers ◌==◌ over_limit with_domains)
reset_ratelimit-reset_each_example =
    reset_ratelimit-reset_each whole_numbers ◌==◌ over_limit with_domains (codes "a@b.de")

-- The lists cannot be loaded.
abbrev parts : Parts ℕ
parts = record {
  validator_start = pure tt;
  validator_stop = pure tt;
  load_lists = raise (redis_error (codes "LOADING"));
  close_manager = pure tt;
}

abbrev life : List Event
life = starts ∷ refreshes 40 true ∷ starts ∷ refreshes 40 false ∷ stops ∷ []

run-IsTidy_example : IsTidy (run parts life (new handler 100 true))
run-IsTidy_example = run-IsTidy parts handler 100 true life
