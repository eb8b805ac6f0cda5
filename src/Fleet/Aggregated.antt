-- ===== src/Fleet/Aggregated.antt =====
-- The sums of `get_aggregated_stats` of policyd_py/multiserver/manager.py.
use policyd_py.Base.{
  ℕ, ◌+◌, ◌≡◌, refl, ◌∙◌, arith, Bool, true, false, Option, none, some, List, [], ◌∷◌, length,
  if◌then◌else◌, Text, codes, Outcome, returned,
}
use policyd_py.Base.Dict.{get, put, values}
use policyd_py.Config.Parse.{◌then◌}
use policyd_py.Registry
use policyd_py.Fleet.{Value, number, other, Object, ServerStatus}
use policyd_py.Fleet.Manager.{
  Manager, AggregatedStats, Counters, int_of, read_counters, add_stats, add_online, add_status,
  add_statuses, get_aggregated_stats, no_stats,
}

abbrev pub count_online : List ServerStatus → ℕ
count_online [] = 0
count_online (s ∷ statuses) = (if s.online then 1 else 0) + count_online statuses

-- The sums of counters, and none.
abbrev pub no_counters : Counters
no_counters = record {
  total_requests = 0;
  total_accepted = 0;
  total_rejected = 0;
  total_rate_limited = 0;
  total_blacklisted = 0;
  total_users_locked = 0;
  active_connections = 0;
  total_sliding_window_checks = 0;
  total_adaptive_adjustments = 0;
  total_adaptive_tightened = 0;
  total_adaptive_relaxed = 0;
  total_penalty_applied = 0;
  total_penalty_escalations = 0;
}

abbrev pub plus : Counters → Counters → Counters
plus a b = record {
  total_requests = a.total_requests + b.total_requests;
  total_accepted = a.total_accepted + b.total_accepted;
  total_rejected = a.total_rejected + b.total_rejected;
  total_rate_limited = a.total_rate_limited + b.total_rate_limited;
  total_blacklisted = a.total_blacklisted + b.total_blacklisted;
  total_users_locked = a.total_users_locked + b.total_users_locked;
  active_connections = a.active_connections + b.active_connections;
  total_sliding_window_checks = a.total_sliding_window_checks + b.total_sliding_window_checks;
  total_adaptive_adjustments = a.total_adaptive_adjustments + b.total_adaptive_adjustments;
  total_adaptive_tightened = a.total_adaptive_tightened + b.total_adaptive_tightened;
  total_adaptive_relaxed = a.total_adaptive_relaxed + b.total_adaptive_relaxed;
  total_penalty_applied = a.total_penalty_applied + b.total_penalty_applied;
  total_penalty_escalations = a.total_penalty_escalations + b.total_penalty_escalations;
}

-- A server that is offline, or has sent no counters.
abbrev pub SilentAs : (online : Bool) → Option Object → Type 0
SilentAs false stats = Unit
SilentAs true none = Unit
SilentAs true (some []) = Unit
SilentAs true (some (entry ∷ stats)) = ⊥

abbrev pub IsSilent : ServerStatus → Type 0
IsSilent s = SilentAs s.online s.stats

module _ (to_int : Text → Outcome ℕ) where
  -- A value as a number: a missing one is 0, and one that is no natural number is what `int` makes of it.
  pub data Reads : Option Value → ℕ → Type 0 where
    missing : Reads none 0
    natural : (n : ℕ) → Reads (some (number n)) n
    converted : (s : Text) (n : ℕ) → to_int s ≡ returned n → Reads (some (other s)) n

  -- The counters in what a server has sent, by their names.
  pub record AreRead (stats : Object) (c : Counters) : Type 0 where
    pub total_requests : Reads (get stats (codes "total_requests")) c.total_requests
    pub total_accepted : Reads (get stats (codes "total_accepted")) c.total_accepted
    pub total_rejected : Reads (get stats (codes "total_rejected")) c.total_rejected
    pub total_rate_limited : Reads (get stats (codes "total_rate_limited")) c.total_rate_limited
    pub total_blacklisted : Reads (get stats (codes "total_blacklisted")) c.total_blacklisted
    pub total_users_locked : Reads (get stats (codes "total_users_locked")) c.total_users_locked
    pub active_connections : Reads (get stats (codes "active_connections")) c.active_connections
    pub total_sliding_window_checks :
        Reads (get stats (codes "total_sliding_window_checks")) c.total_sliding_window_checks
    pub total_adaptive_adjustments :
        Reads (get stats (codes "total_adaptive_adjustments")) c.total_adaptive_adjustments
    pub total_adaptive_tightened :
        Reads (get stats (codes "total_adaptive_tightened")) c.total_adaptive_tightened
    pub total_adaptive_relaxed :
        Reads (get stats (codes "total_adaptive_relaxed")) c.total_adaptive_relaxed
    pub total_penalty_applied :
        Reads (get stats (codes "total_penalty_applied")) c.total_penalty_applied
    pub total_penalty_escalations :
        Reads (get stats (codes "total_penalty_escalations")) c.total_penalty_escalations

  -- The sums over servers: of what is read of those that are online and have sent something.
  pub data IsTotal : List ServerStatus → Counters → Type 0 where
    nothing : IsTotal [] no_counters
    silent :
        (s : ServerStatus) (statuses : List ServerStatus) (c : Counters)
        → IsSilent s
        → IsTotal statuses c
        → IsTotal (s ∷ statuses) c
    sent :
        (s : ServerStatus) (statuses : List ServerStatus) (entry : Text × Value) (stats : Object)
        (own c : Counters)
        → s.online ≡ true
        → s.stats ≡ some (entry ∷ stats)
        → AreRead (entry ∷ stats) own
        → IsTotal statuses c
        → IsTotal (s ∷ statuses) (plus own c)

  -- What is added to the sums.
  pub record IsSum (agg : AggregatedStats) (c : Counters) (before : AggregatedStats) : Type 0 where
    pub total_requests : agg.total_requests ≡ before.total_requests + c.total_requests
    pub total_accepted : agg.total_accepted ≡ before.total_accepted + c.total_accepted
    pub total_rejected : agg.total_rejected ≡ before.total_rejected + c.total_rejected
    pub total_rate_limited :
        agg.total_rate_limited ≡ before.total_rate_limited + c.total_rate_limited
    pub total_blacklisted : agg.total_blacklisted ≡ before.total_blacklisted + c.total_blacklisted
    pub total_users_locked :
        agg.total_users_locked ≡ before.total_users_locked + c.total_users_locked
    pub active_connections :
        agg.active_connections ≡ before.active_connections + c.active_connections
    pub total_sliding_window_checks :
        agg.total_sliding_window_checks
        ≡ before.total_sliding_window_checks + c.total_sliding_window_checks
    pub total_adaptive_adjustments :
        agg.total_adaptive_adjustments
        ≡ before.total_adaptive_adjustments + c.total_adaptive_adjustments
    pub total_adaptive_tightened :
        agg.total_adaptive_tightened ≡ before.total_adaptive_tightened + c.total_adaptive_tightened
    pub total_adaptive_relaxed :
        agg.total_adaptive_relaxed ≡ before.total_adaptive_relaxed + c.total_adaptive_relaxed
    pub total_penalty_applied :
        agg.total_penalty_applied ≡ before.total_penalty_applied + c.total_penalty_applied
    pub total_penalty_escalations :
        agg.total_penalty_escalations
        ≡ before.total_penalty_escalations + c.total_penalty_escalations

  int_of-Reads : (o : Option Value) (n : ℕ) → Reads o n → int_of to_int o ≡ returned n
  unfolding int_of
  int_of-Reads _ _ missing = refl
  int_of-Reads _ _ (natural n) = refl
  int_of-Reads _ _ (converted s n h) = h

  read_counters-AreRead :
      (stats : Object) (c : Counters) → AreRead stats c → read_counters to_int stats ≡ returned c
  unfolding read_counters
  read_counters-AreRead stats c r =
      rw
        (
          int_of-Reads _ _ r.total_requests,
          int_of-Reads _ _ r.total_accepted,
          int_of-Reads _ _ r.total_rejected,
          int_of-Reads _ _ r.total_rate_limited,
          int_of-Reads _ _ r.total_blacklisted,
          int_of-Reads _ _ r.total_users_locked,
          int_of-Reads _ _ r.active_connections,
          int_of-Reads _ _ r.total_sliding_window_checks,
          int_of-Reads _ _ r.total_adaptive_adjustments,
          int_of-Reads _ _ r.total_adaptive_tightened,
          int_of-Reads _ _ r.total_adaptive_relaxed,
          int_of-Reads _ _ r.total_penalty_applied,
          int_of-Reads _ _ r.total_penalty_escalations,
        )
        refl

  -- What follows from the statuses, on top of what there was.
  record Gives (statuses : List ServerStatus) (c : Counters) (before : AggregatedStats)
      : Type 0 where
    result : AggregatedStats
    returns : add_statuses to_int statuses before ≡ returned result
    sums : IsSum result c before
    online : result.online_servers ≡ before.online_servers + count_online statuses
    all :
        result.online_servers + result.offline_servers
        ≡ before.online_servers + before.offline_servers + length statuses
    total : result.total_servers ≡ before.total_servers

  -- One status, with a result that is known.
  after_status :
      (s : ServerStatus) (statuses : List ServerStatus) (own c : Counters)
      (before middle : AggregatedStats)
      → add_status to_int s before ≡ returned middle
      → IsSum middle own before
      → middle.online_servers ≡ before.online_servers + (if s.online then 1 else 0)
      → middle.online_servers + middle.offline_servers
        ≡ before.online_servers + before.offline_servers + 1
      → middle.total_servers ≡ before.total_servers
      → Gives statuses c middle
      → Gives (s ∷ statuses) (plus own c) before
  unfolding add_statuses
  after_status s statuses own c before middle r i on every t g = record {
    result = g.result;
    returns = rw r g.returns;
    sums = omega (arith, i, g.sums);
    online = omega (arith, on, g.online);
    all = omega (arith, every, g.all);
    total = g.total ∙ t;
  }

  silent_status :
      (s : ServerStatus) (online : Bool) (stats : Option Object) (statuses : List ServerStatus)
      (c : Counters) (before : AggregatedStats)
      → s.online ≡ online
      → s.stats ≡ stats
      → SilentAs online stats
      → ((middle : AggregatedStats) → Gives statuses c middle)
      → Gives (s ∷ statuses) (plus no_counters c) before
  unfolding add_status add_online
  silent_status s false stats statuses c before o t q g =
      let middle = record before { offline_servers = before.offline_servers + 1 } in
      after_status s statuses no_counters c before middle (rw o refl) (omega arith)
        (rw o (omega arith)) (omega arith) refl (g middle)
  silent_status s true none statuses c before o t q g =
      let middle = record before { online_servers = before.online_servers + 1 } in
      after_status s statuses no_counters c before middle (rw (o, t) refl) (omega arith) (rw o refl)
        (omega arith) refl (g middle)
  silent_status s true (some []) statuses c before o t q g =
      let middle = record before { online_servers = before.online_servers + 1 } in
      after_status s statuses no_counters c before middle (rw (o, t) refl) (omega arith) (rw o refl)
        (omega arith) refl (g middle)
  silent_status s true (some (entry ∷ stats)) statuses c before o t q g = absurd q

  added : Text → Object → Counters → AggregatedStats → AggregatedStats
  added server_id stats own before = record before {
    online_servers = before.online_servers + 1;
    total_requests = before.total_requests + own.total_requests;
    total_accepted = before.total_accepted + own.total_accepted;
    total_rejected = before.total_rejected + own.total_rejected;
    total_rate_limited = before.total_rate_limited + own.total_rate_limited;
    total_blacklisted = before.total_blacklisted + own.total_blacklisted;
    total_users_locked = before.total_users_locked + own.total_users_locked;
    active_connections = before.active_connections + own.active_connections;
    total_sliding_window_checks =
        before.total_sliding_window_checks + own.total_sliding_window_checks;
    total_adaptive_adjustments = before.total_adaptive_adjustments + own.total_adaptive_adjustments;
    total_adaptive_tightened = before.total_adaptive_tightened + own.total_adaptive_tightened;
    total_adaptive_relaxed = before.total_adaptive_relaxed + own.total_adaptive_relaxed;
    total_penalty_applied = before.total_penalty_applied + own.total_penalty_applied;
    total_penalty_escalations = before.total_penalty_escalations + own.total_penalty_escalations;
    server_stats = put before.server_stats server_id stats;
  }

  none_added :
      (statuses : List ServerStatus) (c : Counters) (before : AggregatedStats)
      → Gives statuses (plus no_counters c) before
      → Gives statuses c before
  none_added statuses c before g = record {
    result = g.result;
    returns = g.returns;
    sums = omega (arith, g.sums);
    online = g.online;
    all = g.all;
    total = g.total;
  }

  gives :
      (statuses : List ServerStatus) (c : Counters) (before : AggregatedStats)
      → IsTotal statuses c
      → Gives statuses c before
  unfolding add_statuses add_status add_online add_stats added
  gives _ _ before nothing = record {
    result = before;
    returns = refl;
    sums = omega arith;
    online = omega arith;
    all = omega arith;
    total = refl;
  }
  gives _ _ before (silent s statuses c q t) = none_added (s ∷ statuses) c before (
      silent_status s s.online s.stats statuses c before refl refl q
        (λ middle. gives statuses c middle t))
  gives _ _ before (sent s statuses entry stats own c o e r t) =
      let middle = added s.server_id (entry ∷ stats) own before in
      after_status s statuses own c before middle
        (rw (o, e, read_counters-AreRead (entry ∷ stats) own r) refl) (omega arith) (rw o refl)
        (omega arith) refl (gives statuses c middle t)

  -- The sums that `get_aggregated_stats` returns, and the numbers of servers.
  pub record IsAggregate {World : Type 0} (m : Manager World) (c : Counters) : Type 0 where
    pub agg : AggregatedStats
    pub returns : get_aggregated_stats to_int m ≡ returned agg
    pub total_requests : agg.total_requests ≡ c.total_requests
    pub total_accepted : agg.total_accepted ≡ c.total_accepted
    pub total_rejected : agg.total_rejected ≡ c.total_rejected
    pub total_rate_limited : agg.total_rate_limited ≡ c.total_rate_limited
    pub total_blacklisted : agg.total_blacklisted ≡ c.total_blacklisted
    pub total_users_locked : agg.total_users_locked ≡ c.total_users_locked
    pub active_connections : agg.active_connections ≡ c.active_connections
    pub total_sliding_window_checks :
        agg.total_sliding_window_checks ≡ c.total_sliding_window_checks
    pub total_adaptive_adjustments : agg.total_adaptive_adjustments ≡ c.total_adaptive_adjustments
    pub total_adaptive_tightened : agg.total_adaptive_tightened ≡ c.total_adaptive_tightened
    pub total_adaptive_relaxed : agg.total_adaptive_relaxed ≡ c.total_adaptive_relaxed
    pub total_penalty_applied : agg.total_penalty_applied ≡ c.total_penalty_applied
    pub total_penalty_escalations : agg.total_penalty_escalations ≡ c.total_penalty_escalations
    pub online : agg.online_servers ≡ count_online (values m.status_cache)
    pub all_servers : agg.online_servers + agg.offline_servers ≡ length (values m.status_cache)
    pub total : agg.total_servers ≡ Registry.count m.registry.servers

  -- If every counter that an online server has sent can be read as a number, a missing one as 0, then
  -- `get_aggregated_stats` returns, and in every sum stands what was read, added up, with nothing for a server
  -- that is offline or has sent nothing; the servers in the cache are counted once each, as online or as
  -- offline; and the total of servers is that of the registry.
  pub aggregated-IsAggregate :
      {World : Type 0} (m : Manager World) (c : Counters)
      → IsTotal (values m.status_cache) c
      → IsAggregate m c
  unfolding get_aggregated_stats no_stats
  aggregated-IsAggregate m c t =
      let g =
        gives (values m.status_cache) c
          (record no_stats { total_servers = Registry.count m.registry.servers }) t in
      record {
        agg = g.result;
        returns = g.returns;
        total_requests = omega (arith, g.sums.total_requests);
        total_accepted = omega (arith, g.sums.total_accepted);
        total_rejected = omega (arith, g.sums.total_rejected);
        total_rate_limited = omega (arith, g.sums.total_rate_limited);
        total_blacklisted = omega (arith, g.sums.total_blacklisted);
        total_users_locked = omega (arith, g.sums.total_users_locked);
        active_connections = omega (arith, g.sums.active_connections);
        total_sliding_window_checks = omega (arith, g.sums.total_sliding_window_checks);
        total_adaptive_adjustments = omega (arith, g.sums.total_adaptive_adjustments);
        total_adaptive_tightened = omega (arith, g.sums.total_adaptive_tightened);
        total_adaptive_relaxed = omega (arith, g.sums.total_adaptive_relaxed);
        total_penalty_applied = omega (arith, g.sums.total_penalty_applied);
        total_penalty_escalations = omega (arith, g.sums.total_penalty_escalations);
        online = omega (arith, g.online);
        all_servers = omega (arith, g.all);
        total = g.total;
      }
