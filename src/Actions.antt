-- ===== src/Actions.antt =====
-- policyd_py/actions/manager.py: the coordinator of the providers that lock and unlock accounts. The
-- workers of the queue take its items in the order in which they were put, one at a time.
pub mod Providers
pub mod Metrics
pub mod Closing
pub mod Runs
use policyd_py.Base.{
  ℕ, zero, suc, ◌+◌, ◌-◌, ◌==◌, max, leb, ltb, Bool, true, false, not, ◌&&◌, Option, none, some,
  List, [], ◌∷◌, ◌++◌, length, is_empty, if◌then◌else◌, Text, codes, text_eq, Exception,
  runtime_error, Outcome, returned, raised, Eff, pure, raise, ◌>>=◌, ◌>>◌,
}
use policyd_py.Base.Dict.{Dict, get, put}

-- policyd_py/actions/provider.py
pub record ActionProvider (World : Type 0) : Type 0 where
  pub name : Text
  pub lock_account : Text → Text → Eff World (Unit {0})
  pub unlock_account : Text → Eff World (Unit {0})
  pub get_account_status : Text → Eff World Text
  pub close : Eff World (Unit {0})

pub record ManagerConfig : Type 0 where
  pub continue_on_error : Bool
  pub async_execution : Bool
  pub queue_size : ℕ
  pub workers : ℕ

-- One entry of `_metrics["providers"]`, with the durations in microseconds.
pub record ProviderMetric : Type 0 where
  pub total_calls : ℕ
  pub success_calls : ℕ
  pub failed_calls : ℕ
  pub total_duration : ℕ

-- What is to be done: action, address and reason. A queue holds these, and a `None` for each worker that is to
-- end.
pub record Item : Type 0 where
  pub action : Text
  pub email : Text
  pub reason : Text

-- `workers` are all that were started, and `running` those that have not ended.
pub record ActionManager (World : Type 0) : Type 0 where
  pub primary : ActionProvider World
  pub fallbacks : List (ActionProvider World)
  pub config : ManagerConfig
  pub queue : Option (List (Option Item))
  pub workers : ℕ
  pub running : ℕ
  pub closing : Bool
  pub providers : Dict ProviderMetric
  pub queue_size : ℕ
  pub queue_capacity : ℕ
  pub world : World

unfoldable pub new :
    {World : Type 0}
    → ActionProvider World
    → List (ActionProvider World)
    → ManagerConfig
    → World
    → ActionManager World
new primary fallbacks config w = record {
  primary = primary;
  fallbacks = fallbacks;
  config = config;
  queue = none;
  workers = 0;
  running = 0;
  closing = false;
  providers = [];
  queue_size = 0;
  queue_capacity = config.queue_size;
  world = w;
}

-- `setdefault`, and then the increments
unfoldable pub fresh_metric : ProviderMetric
fresh_metric = record { total_calls = 0; success_calls = 0; failed_calls = 0; total_duration = 0 }

unfoldable pub metric_of : Option ProviderMetric → ProviderMetric
unfolding fresh_metric
metric_of none = fresh_metric
metric_of (some m) = m

unfoldable pub add_call : Bool → ℕ → ProviderMetric → ProviderMetric
add_call true duration m = record m {
  total_calls = m.total_calls + 1;
  success_calls = m.success_calls + 1;
  total_duration = m.total_duration + duration;
}
add_call false duration m = record m {
  total_calls = m.total_calls + 1;
  failed_calls = m.failed_calls + 1;
  total_duration = m.total_duration + duration;
}

-- `_record_metric`
unfoldable pub record_metric : Text → Bool → ℕ → Dict ProviderMetric → Dict ProviderMetric
unfolding metric_of add_call
record_metric provider success duration d =
    put d provider (add_call success duration (metric_of (get d provider)))

-- queue.put of a `None`, where there is room
abbrev pub append_end : {World : Type 0} → ActionManager World → ActionManager World
append_end m = elim m.queue [
  | none ↦ m
  | some items ↦ record m { queue = some (items ++ none ∷ []) }
]

-- A clock that is read before and after a call, and `str` of an exception.
module _ {World : Type 0} (monotonic : World → ℕ) (str : Exception → Text) where
  unfoldable pub start : ActionManager World → ActionManager World
  start m =
      if m.config.async_execution
      then record m {
        queue = some [];
        workers = m.workers + max m.config.workers 1;
        running = m.running + max m.config.workers 1;
      }
      else m

  -- What a provider is called for.
  unfoldable pub dispatch : ActionProvider World → Text → Text → Text → Eff World (Unit {0})
  dispatch provider action email reason =
      if text_eq action (codes "lock")
      then provider.lock_account email reason
      else if text_eq action (codes "unlock")
      then provider.unlock_account email
      else raise (runtime_error (codes "unknown action " ++ action))

  unfoldable pub all_failed : Text → Text → Option Exception → Exception
  all_failed action email none =
      runtime_error
        (codes "all providers failed for " ++ action ++ codes " on " ++ email ++ codes ": None")
  all_failed action email (some exc) = runtime_error (
      codes "all providers failed for " ++ action ++ codes " on " ++ email ++ codes ": " ++ str exc)

  abbrev pub State : Type 0
  State = Dict ProviderMetric × World

  -- `if idx > 0 and not self.config.continue_on_error: break`
  abbrev pub breaks : ℕ → Bool → Bool
  breaks idx continue_on_error = ltb 0 idx && not continue_on_error

  -- One attempt, with its outcome.
  unfoldable pub attempted :
      Bool
      → Text
      → Text
      → ℕ
      → (Option Exception → State → Outcome (Unit {0}) × State)
      → Text
      → ℕ
      → Outcome (Unit {0})
      → World
      → Dict ProviderMetric
      → Outcome (Unit {0}) × State
  unfolding record_metric all_failed
  attempted continue_on_error action email idx next provider started (returned u) w d =
      (returned tt, (record_metric provider true (monotonic w - started) d, w))
  attempted continue_on_error action email idx next provider started (raised exc) w d =
      let d' = record_metric provider false (monotonic w - started) d in
      if breaks idx continue_on_error
      then (raised (all_failed action email (some exc)), (d', w))
      else next (some exc) (d', w)

  -- The loop of `_execute_sync` from the provider `idx` on, with the last error.
  unfoldable pub execute_from :
      Bool
      → Text
      → Text
      → Text
      → ℕ
      → Option Exception
      → List (ActionProvider World)
      → State
      → Outcome (Unit {0}) × State
  unfolding attempted dispatch all_failed
  execute_from continue_on_error action email reason idx last_error [] s =
      (raised (all_failed action email last_error), s)
  execute_from continue_on_error action email reason idx last_error (p ∷ ps) (d, w) =
      attempted continue_on_error action email idx
        (λ last. execute_from continue_on_error action email reason (idx + 1) last ps) p.name
        (monotonic w) (dispatch p action email reason w).0 (dispatch p action email reason w).1 d

  -- `_execute_sync`
  unfoldable pub execute_sync : Text → Text → Text → Eff (ActionManager World) (Unit {0})
  unfolding execute_from
  execute_sync action email reason m =
      let (r, (d, w)) =
        execute_from m.config.continue_on_error action email reason 0 none (m.primary ∷ m.fallbacks)
          (m.providers, m.world) in
      (r, record m { providers = d; world = w })

  -- `self._queue.put_nowait(...)` and the metric of the size
  unfoldable pub put_nowait :
      Item → Option (List (Option Item)) → Bool → Eff (ActionManager World) (Unit {0})
  put_nowait item none closing m = (raised (runtime_error (codes "ActionManager not started")), m)
  put_nowait item (some items) true m =
      (raised (runtime_error (codes "ActionManager is closing")), m)
  put_nowait item (some items) false m =
      if leb (max m.config.queue_size 1) (length items)
      then (raised (runtime_error (codes "action queue is full")), m)
      else (
        returned tt,
        record m {
          queue = some (items ++ some item ∷ []);
          queue_size = length (items ++ some item ∷ []);
        },
      )

  unfoldable pub enqueue_or_execute : Item → Eff (ActionManager World) (Unit {0})
  unfolding execute_sync put_nowait
  enqueue_or_execute item m =
      if m.config.async_execution
      then put_nowait item m.queue m.closing m
      else execute_sync item.action item.email item.reason m

  unfoldable pub lock_account : Text → Text → Eff (ActionManager World) (Unit {0})
  unfolding enqueue_or_execute
  lock_account email reason =
      enqueue_or_execute (record { action = codes "lock"; email = email; reason = reason })

  unfoldable pub unlock_account : Text → Eff (ActionManager World) (Unit {0})
  unfolding enqueue_or_execute
  unlock_account email =
      enqueue_or_execute (record { action = codes "unlock"; email = email; reason = [] })

  unfoldable pub is_returned : {A : Type 0} → Outcome A → Bool
  is_returned (returned a) = true
  is_returned (raised exc) = false

  unfoldable pub get_account_status : Text → Eff (ActionManager World) Text
  unfolding record_metric is_returned
  get_account_status email m =
      let (r, w) = m.primary.get_account_status email m.world in
      (
        r,
        record m {
          providers =
              record_metric m.primary.name (is_returned r) (monotonic w - monotonic m.world)
                m.providers;
          world = w;
        },
      )

  -- One round of `_worker`, over what the queue holds; an error of the action is logged, and a `None` ends the
  -- worker. An empty queue keeps a worker waiting.
  unfoldable pub worker_round : List (Option Item) → ActionManager World → ActionManager World
  unfolding execute_sync
  worker_round [] m = m
  worker_round (none ∷ items) m =
      if m.running == 0
      then m
      else record m { queue = some items; queue_size = length items; running = m.running - 1 }
  worker_round (some item ∷ items) m =
      if m.running == 0
      then m
      else (execute_sync item.action item.email item.reason
          (record m { queue = some items; queue_size = length items })).1

  -- The workers run, as long as there are any, until the queue is empty.
  unfoldable pub join : List (Option Item) → ActionManager World → ActionManager World
  unfolding worker_round
  join [] m = m
  join (item ∷ items) m = join items (worker_round (item ∷ items) m)

  unfoldable pub join_queue :
      Option (List (Option Item)) → ActionManager World → ActionManager World
  unfolding join
  join_queue none m = m
  join_queue (some items) m = join items m

  -- `self._queue.put(None)`: where the queue is full, a worker makes room, and without workers the call never
  -- comes to an end, which is `false`.
  unfoldable pub put_end :
      Option (List (Option Item)) → ActionManager World → Bool × ActionManager World
  unfolding worker_round
  put_end none m = (true, m)
  put_end (some items) m =
      if leb (max m.config.queue_size 1) (length items)
      then (if m.running == 0 then (false, m) else (true, append_end (worker_round items m)))
      else (true, append_end m)

  unfoldable pub put_ends : ℕ → ActionManager World → Bool × ActionManager World
  unfolding put_end
  put_ends zero m = (true, m)
  put_ends (suc n) m =
      let (done, m') = put_end m.queue m in
      let rest = put_ends n m' in if done then rest else (done, m')

  unfoldable pub close_providers : List (ActionProvider World) → World → World
  close_providers [] w = w
  close_providers (p ∷ ps) w = close_providers ps (p.close w).1

  abbrev pub close_all : ActionManager World → Bool × ActionManager World
  close_all m = (true, record m { world = close_providers (m.primary ∷ m.fallbacks) m.world })

  -- `for task in self._workers: await task`, and the providers
  unfoldable pub await_workers : Bool × ActionManager World → Bool × ActionManager World
  unfolding join_queue close_providers
  await_workers (false, m) = (false, m)
  await_workers (true, m) =
      let m' = join_queue m.queue m in if m'.running == 0 then close_all m' else (false, m')

  -- After `self._queue.join()`, which does not come to an end while the queue holds anything.
  unfoldable pub joined :
      Option (List (Option Item)) → ActionManager World → Bool × ActionManager World
  unfolding put_ends await_workers close_providers
  joined none m = close_all m
  joined (some []) m = await_workers (put_ends m.workers m)
  joined (some (item ∷ items)) m = (false, m)

  -- Whether `close` comes to an end, and what it leaves.
  unfoldable pub close : ActionManager World → Bool × ActionManager World
  unfolding join_queue joined
  close m = let m' = join_queue m.queue (record m { closing = true }) in joined m'.queue m'
