-- ===== src/Tests/Providers.antt =====
-- The action manager (policyd_py/actions/manager.py) at work, over a world that counts the calls.
use policyd_py.Base.{
  ℕ, ◌+◌, ◌≡◌, refl, some, true, false, List, [], ◌∷◌, none, Text, codes, Exception, Outcome,
  returned, raised, runtime_error,
}
use policyd_py.Actions.{
  ActionProvider, ManagerConfig, ActionManager, new, start, execute_sync, close,
}
use policyd_py.Actions.Providers.{first_success, eligible, execute_sync-first_success}
use policyd_py.Actions.Metrics.{IsConsistent}
use policyd_py.Actions.Runs
use policyd_py.Actions.Runs.{Event, run, run-IsConsistent}

abbrev counting : Text → Outcome (Unit {0}) → ActionProvider ℕ
counting name outcome = record {
  name = name;
  lock_account = λ email reason n. (outcome, n + 1);
  unlock_account = λ email n. (outcome, n + 1);
  get_account_status = λ email n. (returned (codes "active"), n);
  close = λ n. (returned tt, n);
}

abbrev broken : ActionProvider ℕ
broken = counting (codes "webhook") (raised (runtime_error (codes "503")))

abbrev working : ActionProvider ℕ
working = counting (codes "script") (returned tt)

abbrev clock : ℕ → ℕ
clock n = n

abbrev shown : Exception → Text
shown exc = []

abbrev direct : ManagerConfig
direct = record { continue_on_error = false; async_execution = false; queue_size = 2; workers = 1 }

abbrev queued : ManagerConfig
queued = record { continue_on_error = false; async_execution = true; queue_size = 2; workers = 1 }

abbrev manager : ActionManager ℕ
manager = new broken (broken ∷ working ∷ []) direct 0

execute_sync-first_success_example :
    (
      (execute_sync clock shown (codes "lock") (codes "a@b.de") (codes "spam") manager).0,
      (execute_sync clock shown (codes "lock") (codes "a@b.de") (codes "spam") manager).1.world,
    )
    ≡ first_success clock shown
        (codes "lock")
        (codes "a@b.de")
        (codes "spam")
        (eligible clock shown manager)
        none
        manager.world
execute_sync-first_success_example =
    execute_sync-first_success clock shown (codes "lock") (codes "a@b.de") (codes "spam") manager

abbrev day : List Event
day =
    Runs.lock (codes "a@b.de") (codes "spam")
    ∷ Runs.lock (codes "c@b.de") (codes "spam")
    ∷ Runs.unlock (codes "d@b.de")
    ∷ Runs.work
    ∷ Runs.status (codes "a@b.de")
    ∷ Runs.shut
    ∷ []

run-IsConsistent_example :
    IsConsistent (run clock shown day (start clock shown (new broken (working ∷ []) queued 0)))
run-IsConsistent_example = run-IsConsistent clock shown broken (working ∷ []) queued 0 day

abbrev started : ActionManager ℕ
started = start clock shown (new broken (working ∷ []) queued 0)

abbrev closed_once : ActionManager ℕ
closed_once = (close clock shown started).1

abbrev closed_twice : ActionManager ℕ
closed_twice = (close clock shown closed_once).1

-- The first closing ends the workers and leaves an empty queue. The second leaves a `None` that no worker
-- takes, with the metric of the size at 0, and the third waits for ever.
first_closing : ((close clock shown started).0 ≡ true) × (closed_once.queue ≡ some [])
unfolding start new close
first_closing = (refl, refl)

second_closing :
    ((close clock shown closed_once).0 ≡ true)
    × (closed_twice.queue ≡ some (none ∷ []))
    × (closed_twice.queue_size ≡ 0)
unfolding start new close
second_closing = (refl, refl, refl)

third_closing : (close clock shown closed_twice).0 ≡ false
unfolding start new close
third_closing = refl
