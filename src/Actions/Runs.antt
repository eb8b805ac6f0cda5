-- ===== src/Actions/Runs.antt =====
-- Runs of the action manager of policyd_py/actions/manager.py: its operations one after the other, the
-- rounds of its workers among them.
use policyd_py.Base.{
  ℕ, ◌+◌, max, refl, arith, Bool, true, false, Option, none, some, List, [], ◌∷◌, if◌then◌else◌,
  Text, codes, Exception,
}
use policyd_py.Base.Dict.{get}
use policyd_py.Actions.{
  ActionProvider, ManagerConfig, Item, ActionManager, new, start, lock_account, unlock_account,
  get_account_status, worker_round, close,
}
use policyd_py.Actions.Metrics.{
  IsBalanced, Fits, IsConsistent, enqueue_or_execute-IsConsistent, worker_round-IsConsistent,
  status-IsConsistent,
}
use policyd_py.Actions.Closing.{close-IsConsistent}

-- What happens to a manager that has been started.
pub data Event : Type 0 where
  lock : Text → Text → Event
  unlock : Text → Event
  status : Text → Event
  work : Event
  shut : Event

module _ {World : Type 0} (monotonic : World → ℕ) (str : Exception → Text) where
  work_on : Option (List (Option Item)) → ActionManager World → ActionManager World
  work_on none m = m
  work_on (some items) m = worker_round monotonic str items m

  unfoldable pub step : Event → ActionManager World → ActionManager World
  unfolding work_on
  step (lock email reason) m = (lock_account monotonic str email reason m).1
  step (unlock email) m = (unlock_account monotonic str email m).1
  step (status email) m = (get_account_status monotonic str email m).1
  step work m = work_on m.queue m
  step shut m = (close monotonic str m).1

  unfoldable pub run : List Event → ActionManager World → ActionManager World
  unfolding step
  run [] m = m
  run (event ∷ events) m = run events (step event m)

  work_on-IsConsistent :
      (queue : Option (List (Option Item))) (m : ActionManager World)
      → Fits queue m.closing m.config m.queue_size m.running
      → IsConsistent m
      → IsConsistent (work_on queue m)
  unfolding work_on
  work_on-IsConsistent none m h c = c
  work_on-IsConsistent (some items) m h c = worker_round-IsConsistent monotonic str items m h c

  step-IsConsistent :
      (event : Event) (m : ActionManager World) → IsConsistent m → IsConsistent (step event m)
  unfolding step lock_account unlock_account
  step-IsConsistent (lock email reason) m c =
      enqueue_or_execute-IsConsistent monotonic str
        (record { action = codes "lock"; email = email; reason = reason }) m c
  step-IsConsistent (unlock email) m c =
      enqueue_or_execute-IsConsistent monotonic str
        (record { action = codes "unlock"; email = email; reason = [] }) m c
  step-IsConsistent (status email) m c = status-IsConsistent monotonic str email m c
  step-IsConsistent work m c = work_on-IsConsistent m.queue m c.fits c
  step-IsConsistent shut m c = close-IsConsistent monotonic str m c

  run-keeps :
      (events : List Event) (m : ActionManager World) → IsConsistent m → IsConsistent (run events m)
  unfolding run
  run-keeps [] m c = c
  run-keeps (event ∷ events) m c = run-keeps events (step event m) (step-IsConsistent event m c)

  none_yet : IsBalanced []
  unfolding get
  none_yet = record { balance = λ provider m h. cc }

  if_started :
      (b : Bool) (x y : ActionManager World)
      → IsConsistent x
      → IsConsistent y
      → IsConsistent (if b then x else y)
  if_started true x y cx cy = cx
  if_started false x y cx cy = cy

  start-IsConsistent :
      (primary : ActionProvider World) (fallbacks : List (ActionProvider World))
      (config : ManagerConfig) (w : World)
      → IsConsistent (start monotonic str (new primary fallbacks config w))
  unfolding start new
  start-IsConsistent primary fallbacks config w =
      if_started config.async_execution
        (record (new primary fallbacks config w) {
          queue = some [];
          workers = 0 + max config.workers 1;
          running = 0 + max config.workers 1;
        })
        (new primary fallbacks config w)
        (record { balanced = none_yet; fits = (omega arith, (tt, refl, omega arith)) })
        (record { balanced = none_yet; fits = tt })

  -- For a manager that is built, started and then used by any sequence of locks, unlocks, status queries,
  -- rounds of its workers and closings, whatever the providers do: in the metrics of every provider the
  -- successful and the failed calls add up to the calls, and the queue never holds more than its bound. Until
  -- the manager is closed, the queue holds actions only, the metric of the size is their number, and there is a
  -- worker to do them; once it has been closed, no action is left in the queue.
  pub run-IsConsistent :
      (primary : ActionProvider World) (fallbacks : List (ActionProvider World))
      (config : ManagerConfig) (w : World) (events : List Event)
      → IsConsistent (run events (start monotonic str (new primary fallbacks config w)))
  run-IsConsistent primary fallbacks config w events =
      run-keeps events (start monotonic str (new primary fallbacks config w))
        (start-IsConsistent primary fallbacks config w)
