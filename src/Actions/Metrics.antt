-- ===== src/Actions/Metrics.antt =====
-- The metrics and the queue of policyd_py/actions/manager.py over any run of its operations.
use policyd_py.Base.{
  ℕ, ◌+◌, ◌-◌, ◌≤◌, max, leb, ◌≡◌, refl, sym, ap, subst, ◌∙◌, inl, inr, arith, Bool, true, false,
  Option, none, some, List, [], ◌∷◌, length, length-append, if◌then◌else◌, Text, text_eq, Exception,
  Outcome, returned, raised, Bool-cases, All, ◌++◌, ◌==◌,
}
use policyd_py.Base.Dict.{Dict, get, get-put}
use policyd_py.Actions.{
  ActionProvider, ManagerConfig, ProviderMetric, Item, ActionManager, fresh_metric, metric_of,
  add_call, record_metric, dispatch, breaks, attempted, execute_from, execute_sync, put_nowait,
  enqueue_or_execute, is_returned, get_account_status, worker_round,
}

abbrev Balance : ProviderMetric → Type 0
Balance m = m.success_calls + m.failed_calls ≡ m.total_calls

-- Every call of a provider is a success or a failure.
pub record IsBalanced (d : Dict ProviderMetric) : Type 0 where
  pub balance : (provider : Text) (m : ProviderMetric) → get d provider ≡ some m → Balance m

add_call-Balance :
    (success : Bool) (duration : ℕ) (m : ProviderMetric)
    → Balance m
    → Balance (add_call success duration m)
unfolding add_call
add_call-Balance true duration m h = omega arith
add_call-Balance false duration m h = omega arith

metric_of-Balance :
    (o : Option ProviderMetric)
    → ((m : ProviderMetric) → o ≡ some m → Balance m)
    → Balance (metric_of o)
unfolding metric_of fresh_metric
metric_of-Balance none h = refl
metric_of-Balance (some m) h = h m refl

some_inj : {m n : ProviderMetric} → some m ≡ some n → m ≡ n
some_inj {m = m} h = ap (λ o. elim o [ none ↦ m | some k ↦ k ]) h

if-Balance :
    (same : Bool) (new_metric m : ProviderMetric) (o : Option ProviderMetric)
    → Balance new_metric
    → (o ≡ some m → Balance m)
    → (if same then some new_metric else o) ≡ some m
    → Balance m
if-Balance true n m o bn h p = subst Balance (some_inj p) bn
if-Balance false n m o bn h p = h p

record_metric-IsBalanced :
    (provider : Text) (success : Bool) (duration : ℕ) (d : Dict ProviderMetric)
    → IsBalanced d
    → IsBalanced (record_metric provider success duration d)
unfolding record_metric
record_metric-IsBalanced provider success duration d b = record {
  balance = λ j m h.
      if-Balance (text_eq provider j) (add_call success duration (metric_of (get d provider))) m
        (get d j)
        (add_call-Balance success duration (metric_of (get d provider))
          (metric_of-Balance (get d provider) (b.balance provider)))
        (b.balance j m)
        (sym (get-put d provider j (add_call success duration (metric_of (get d provider)))) ∙ h);
}

abbrev pub IsAction : Option Item → Type 0
IsAction none = ⊥
IsAction (some item) = Unit

abbrev pub IsEnd : Option Item → Type 0
IsEnd none = Unit
IsEnd (some item) = ⊥

-- Before the closing the queue holds actions, its metric is their number, and a worker runs; from then on it
-- holds no action.
abbrev pub Contents : (closing : Bool) → List (Option Item) → ℕ → ℕ → Type 0
Contents false items queue_size running =
    All IsAction items × (queue_size ≡ length items) × (1 ≤ running)
Contents true items queue_size running = All IsEnd items

-- The queue is within its bound.
abbrev pub Fits : Option (List (Option Item)) → Bool → ManagerConfig → ℕ → ℕ → Type 0
Fits none closing config queue_size running = Unit
Fits (some items) closing config queue_size running =
    (length items ≤ max config.queue_size 1) × Contents closing items queue_size running

pub record IsConsistent {World : Type 0} (m : ActionManager World) : Type 0 where
  pub balanced : IsBalanced m.providers
  pub fits : Fits m.queue m.closing m.config m.queue_size m.running

All-snoc :
    (items : List (Option Item)) (item : Item)
    → All IsAction items
    → All IsAction (items ++ some item ∷ [])
All-snoc [] item h = (tt, tt)
All-snoc (i ∷ items) item (h, hs) = (h, All-snoc items item hs)

after_end :
    (b : Bool) (items : List (Option Item)) (s r : ℕ)
    → Contents b (none ∷ items) s r
    → Contents b items (length items) (r - 1)
after_end true items s r (h, hs) = hs
after_end false items s r ((h, hs), t, u) = absurd h

after_action :
    (b : Bool) (item : Item) (items : List (Option Item)) (s r : ℕ)
    → Contents b (some item ∷ items) s r
    → Contents b items (length items) r
after_action true item items s r (h, hs) = absurd h
after_action false item items s r ((h, hs), t, u) = (hs, refl, u)

module _ {World : Type 0} (monotonic : World → ℕ) (str : Exception → Text) where
  attempted-IsBalanced :
      (c : Bool) (action email provider : Text) (idx started : ℕ)
      (next : Option Exception
        → Dict ProviderMetric × World
        → Outcome (Unit {0}) × (Dict ProviderMetric × World))
      (r : Outcome (Unit {0})) (w : World) (d : Dict ProviderMetric)
      → IsBalanced d
      → ((last : Option Exception) (d : Dict ProviderMetric) (w : World)
          → IsBalanced d
          → IsBalanced (next last (d, w)).1.0)
      → IsBalanced (attempted monotonic str c action email idx next provider started r w d).1.0
  unfolding attempted
  attempted-IsBalanced c action email provider idx started next (returned u) w d b k =
      record_metric-IsBalanced provider true (monotonic w - started) d b
  attempted-IsBalanced c action email provider idx started next (raised exc) w d b k =
      elim (Bool-cases (breaks monotonic str idx c)) [
        | inl ends ↦ rw ends (record_metric-IsBalanced provider false (monotonic w - started) d b)
        | inr on ↦ rw on (
            k (some exc) (record_metric provider false (monotonic w - started) d) w
              (record_metric-IsBalanced provider false (monotonic w - started) d b))
      ]

  execute_from-IsBalanced :
      (c : Bool) (action email reason : Text) (ps : List (ActionProvider World)) (idx : ℕ)
      (last : Option Exception) (d : Dict ProviderMetric) (w : World)
      → IsBalanced d
      → IsBalanced (execute_from monotonic str c action email reason idx last ps (d, w)).1.0
  unfolding execute_from
  execute_from-IsBalanced c action email reason [] idx last d w b = b
  execute_from-IsBalanced c action email reason (p ∷ ps) idx last d w b =
      attempted-IsBalanced c action email p.name idx (monotonic w)
        (λ last. execute_from monotonic str c action email reason (idx + 1) last ps)
        (dispatch monotonic str p action email reason w).0
        (dispatch monotonic str p action email reason w).1 d b
        (execute_from-IsBalanced c action email reason ps (idx + 1))

  pub execute_sync-IsBalanced :
      (action email reason : Text) (m : ActionManager World)
      → IsBalanced m.providers
      → IsBalanced (execute_sync monotonic str action email reason m).1.providers
  unfolding execute_sync
  execute_sync-IsBalanced action email reason m b =
      execute_from-IsBalanced m.config.continue_on_error action email reason
        (m.primary ∷ m.fallbacks) 0 none m.providers m.world b

  execute_sync-IsConsistent :
      (action email reason : Text) (m : ActionManager World)
      → IsConsistent m
      → IsConsistent (execute_sync monotonic str action email reason m).1
  unfolding execute_sync
  execute_sync-IsConsistent action email reason m c = record {
    balanced =
        execute_from-IsBalanced m.config.continue_on_error action email reason
          (m.primary ∷ m.fallbacks) 0 none m.providers m.world c.balanced;
    fits = c.fits;
  }

  put_nowait-IsConsistent :
      (item : Item) (queue : Option (List (Option Item))) (closing : Bool) (m : ActionManager World)
      → m.closing ≡ closing
      → Fits queue closing m.config m.queue_size m.running
      → IsConsistent m
      → IsConsistent (put_nowait monotonic str item queue closing m).1
  unfolding put_nowait
  put_nowait-IsConsistent item none closing m e f c = c
  put_nowait-IsConsistent item (some items) true m e f c = c
  put_nowait-IsConsistent item (some items) false m e (bound, (actions, size, runs)) c =
      elim (Bool-cases (leb (max m.config.queue_size 1) (length items))) [
        | inl full ↦ rw full c
        | inr room ↦ rw room (record {
          balanced = c.balanced;
          fits = (
            grind (arith, length-append items (some item ∷ [])),
            subst
                (λ b.
                  Contents b (items ++ some item ∷ []) (length (items ++ some item ∷ [])) m.running)
                (sym e) (All-snoc items item actions, refl, runs),
          );
        })
      ]

  if-IsConsistent :
      {A : Type 0} (b : Bool) (x y : A × ActionManager World)
      → IsConsistent x.1
      → IsConsistent y.1
      → IsConsistent (if b then x else y).1
  if-IsConsistent true x y cx cy = cx
  if-IsConsistent false x y cx cy = cy

  pub enqueue_or_execute-IsConsistent :
      (item : Item) (m : ActionManager World)
      → IsConsistent m
      → IsConsistent (enqueue_or_execute monotonic str item m).1
  unfolding enqueue_or_execute
  enqueue_or_execute-IsConsistent item m c =
      if-IsConsistent m.config.async_execution (put_nowait monotonic str item m.queue m.closing m)
        (execute_sync monotonic str item.action item.email item.reason m)
        (put_nowait-IsConsistent item m.queue m.closing m refl c.fits c)
        (execute_sync-IsConsistent item.action item.email item.reason m c)

  if-kept :
      (b : Bool) (x y : ActionManager World)
      → IsConsistent x
      → IsConsistent y
      → IsConsistent (if b then x else y)
  if-kept true x y cx cy = cx
  if-kept false x y cx cy = cy

  pub worker_round-IsConsistent :
      (items : List (Option Item)) (m : ActionManager World)
      → Fits (some items) m.closing m.config m.queue_size m.running
      → IsConsistent m
      → IsConsistent (worker_round monotonic str items m)
  unfolding worker_round
  worker_round-IsConsistent [] m h c = c
  worker_round-IsConsistent (none ∷ items) m (h, k) c =
      if-kept (m.running == 0) m
        (record m { queue = some items; queue_size = length items; running = m.running - 1 }) c
        (record {
          balanced = c.balanced;
          fits = (grind arith, after_end m.closing items m.queue_size m.running k);
        })
  worker_round-IsConsistent (some item ∷ items) m (h, k) c =
      if-kept (m.running == 0) m
        (execute_sync monotonic str item.action item.email item.reason
          (record m { queue = some items; queue_size = length items })).1
        c
        (execute_sync-IsConsistent item.action item.email item.reason
          (record m { queue = some items; queue_size = length items })
          (record {
            balanced = c.balanced;
            fits = (grind arith, after_action m.closing item items m.queue_size m.running k);
          }))

  pub status-IsConsistent :
      (email : Text) (m : ActionManager World)
      → IsConsistent m
      → IsConsistent (get_account_status monotonic str email m).1
  unfolding get_account_status
  status-IsConsistent email m c = record {
    balanced =
        record_metric-IsBalanced m.primary.name
          (is_returned monotonic str (m.primary.get_account_status email m.world).0)
          (monotonic (m.primary.get_account_status email m.world).1 - monotonic m.world) m.providers
          c.balanced;
    fits = c.fits;
  }
