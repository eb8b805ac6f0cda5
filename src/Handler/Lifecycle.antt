-- ===== src/Handler/Lifecycle.antt =====
-- Starting, stopping and reconfiguring the policy engine of policyd_py/policy/handler.py: its tasks. Of the
-- event loop it is kept how many listeners and workers are created and neither cancelled nor waited for.
pub mod Invariant
use policyd_py.Base.{
  ℕ, zero, suc, ◌+◌, ◌-◌, ◌/◌, min, max, Bool, true, false, Option, none, some, List, [], ◌∷◌, ◌++◌,
  if◌then◌else◌, Eff, returned, pure, ◌>>=◌, ◌>>◌,
}
use policyd_py.Handler.{Handler}

pub record Process (World : Type 0) : Type 0 where
  pub handler : Handler World
  -- config.general.worker_count
  pub worker_count : ℕ
  -- bool(self.action_manager)
  pub action_manager : Bool
  pub unlock_listener_task : Option ℕ
  pub background_workers : List ℕ
  pub background_workers_started : Bool
  pub shutdown_event : Bool
  -- the event loop
  pub held_listeners : ℕ
  pub held_workers : ℕ
  pub created : ℕ

-- A handler as it is built.
unfoldable pub new : {World : Type 0} → Handler World → ℕ → Bool → Process World
new h worker_count action_manager = record {
  handler = h;
  worker_count = worker_count;
  action_manager = action_manager;
  unlock_listener_task = none;
  background_workers = [];
  background_workers_started = false;
  shutdown_event = false;
  held_listeners = 0;
  held_workers = 0;
  created = 0;
}

-- What `start` and `stop` call: the validator, the lists, and the action manager.
pub record Parts (World : Type 0) : Type 0 where
  pub validator_start : Eff (Handler World) (Unit {0})
  pub validator_stop : Eff (Handler World) (Unit {0})
  pub load_lists : Eff (Handler World) (Unit {0})
  pub close_manager : Eff (Handler World) (Unit {0})

-- What happens to the handler of a process, in any order; an exception leaves what was done.
pub data Event : Type 0 where
  starts stops : Event
  refreshes : ℕ → Bool → Event

module _ {World : Type 0} (parts : Parts World) where
  -- A cancelled task ends before the `await` of it returns.
  unfoldable pub cancel : Option ℕ → Process World → Process World
  cancel none p = p
  cancel (some task) p = record p {
    unlock_listener_task = none;
    held_listeners = p.held_listeners - 1;
  }

  unfoldable pub stop_unlock_listener : Process World → Process World
  unfolding cancel
  stop_unlock_listener p = cancel p.unlock_listener_task p

  unfoldable pub create_listener : Bool → Process World → Process World
  create_listener false p = p
  create_listener true p = record p {
    unlock_listener_task = some p.created;
    held_listeners = p.held_listeners + 1;
    created = p.created + 1;
  }

  -- `_restart_unlock_listener`; `_needs_unlock_listener` is whether there is an action manager.
  unfoldable pub restart_unlock_listener : Process World → Process World
  unfolding stop_unlock_listener create_listener
  restart_unlock_listener p = create_listener p.action_manager (stop_unlock_listener p)

  unfoldable pub worker_tasks : ℕ → ℕ
  worker_tasks worker_count = min (max (worker_count / 10) 2) 32

  -- [asyncio.create_task(...) for idx in range(n)]
  unfoldable pub create_workers : ℕ → Process World → Process World
  create_workers zero p = p
  create_workers (suc n) p =
      let q = create_workers n p in
      record q {
        background_workers = q.created ∷ q.background_workers;
        held_workers = q.held_workers + 1;
        created = q.created + 1;
      }

  unfoldable pub start_if_stopped : Bool → Process World → Process World
  unfolding create_workers worker_tasks
  start_if_stopped true p = p
  start_if_stopped false p =
      let q =
        create_workers (worker_tasks p.worker_count)
          (record p { shutdown_event = false; background_workers = [] }) in
      record q { background_workers_started = true }

  unfoldable pub start_background_workers : Process World → Process World
  unfolding start_if_stopped
  start_background_workers p = start_if_stopped p.background_workers_started p

  -- `for task in self._background_workers: await task`: a worker ends once the event is set.
  unfoldable pub await_workers : List ℕ → Process World → Process World
  await_workers [] p = p
  await_workers (task ∷ tasks) p =
      await_workers tasks (record p { held_workers = p.held_workers - 1 })

  unfoldable pub stop_if_started : Bool → Process World → Process World
  unfolding await_workers
  stop_if_started false p = p
  stop_if_started true p =
      let q = await_workers p.background_workers (record p { shutdown_event = true }) in
      record q { background_workers = []; background_workers_started = false }

  unfoldable pub stop_background_workers : Process World → Process World
  unfolding stop_if_started
  stop_background_workers p = stop_if_started p.background_workers_started p

  abbrev pub on_handler : Eff (Handler World) (Unit {0}) → Eff (Process World) (Unit {0})
  on_handler m p = let (r, h) = m p.handler in (r, record p { handler = h })

  unfoldable pub start : Eff (Process World) (Unit {0})
  unfolding start_background_workers restart_unlock_listener
  start = do
    on_handler parts.validator_start
    on_handler parts.load_lists
    λ p. (returned tt, restart_unlock_listener (start_background_workers p))

  unfoldable pub stop : Eff (Process World) (Unit {0})
  unfolding stop_background_workers stop_unlock_listener
  stop p =
      let q = stop_background_workers (stop_unlock_listener p) in
      (on_handler parts.validator_stop
          >> (if q.action_manager then on_handler parts.close_manager else pure tt))
        q

  -- The configuration and the action manager change; the number of the workers that run does not.
  unfoldable pub refresh_runtime_dependencies : ℕ → Bool → Process World → Process World
  unfolding restart_unlock_listener
  refresh_runtime_dependencies worker_count action_manager p =
      restart_unlock_listener
        (record p { worker_count = worker_count; action_manager = action_manager })

  unfoldable pub step : Event → Process World → Process World
  unfolding start stop refresh_runtime_dependencies
  step starts p = (start p).1
  step stops p = (stop p).1
  step (refreshes worker_count action_manager) p =
      refresh_runtime_dependencies worker_count action_manager p

  unfoldable pub run : List Event → Process World → Process World
  unfolding step
  run [] p = p
  run (event ∷ events) p = run events (step event p)
