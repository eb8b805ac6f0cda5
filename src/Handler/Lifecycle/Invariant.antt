-- ===== src/Handler/Lifecycle/Invariant.antt =====
-- The tasks that policyd_py/policy/handler.py holds are those that it knows.
use policyd_py.Base.{
  ℕ, zero, suc, ◌+◌, ◌-◌, ◌≤◌, ◌≡◌, refl, subst, arith, length, Bool, true, false, Option, none,
  some, List, [], ◌∷◌, if◌then◌else◌, Eff, Outcome, returned, raised, pure, continue, ◌>>◌,
}
use policyd_py.Handler.{Handler}
use policyd_py.Handler.Lifecycle.{
  Process, new, Parts, cancel, stop_unlock_listener, create_listener, restart_unlock_listener,
  worker_tasks, create_workers, start_if_stopped, start_background_workers, await_workers,
  stop_if_started, stop_background_workers, on_handler, start, stop, refresh_runtime_dependencies,
  Event, starts, stops, refreshes, step, run,
}

abbrev listening : Option ℕ → ℕ
listening none = 0
listening (some task) = 1

-- How many workers may run, before and after they are started.
abbrev Workers : Bool → ℕ → Type 0
Workers false n = n ≡ 0
Workers true n = (2 ≤ n) × (n ≤ 32)

pub record IsTidy {World : Type 0} (p : Process World) : Type 0 where
  pub listener : p.held_listeners ≡ listening p.unlock_listener_task
  pub workers : p.held_workers ≡ length p.background_workers
  pub bounded : Workers p.background_workers_started p.held_workers

module _ {World : Type 0} (parts : Parts World) where
  cancel-listener :
      (o : Option ℕ) (p : Process World)
      → p.unlock_listener_task ≡ o
      → IsTidy p
      → IsTidy (cancel parts o p) × ((cancel parts o p).unlock_listener_task ≡ none)
  unfolding cancel
  cancel-listener none p e t = (t, e)
  cancel-listener (some task) p e t = (
    record { listener = rw (t.listener, e) refl; workers = t.workers; bounded = t.bounded },
    refl,
  )

  create_listener-IsTidy :
      (b : Bool) (p : Process World)
      → p.unlock_listener_task ≡ none
      → IsTidy p
      → IsTidy (create_listener parts b p)
  unfolding create_listener
  create_listener-IsTidy false p e t = t
  create_listener-IsTidy true p e t = record {
    listener = rw (t.listener, e) refl;
    workers = t.workers;
    bounded = t.bounded;
  }

  restart-IsTidy : (p : Process World) → IsTidy p → IsTidy (restart_unlock_listener parts p)
  unfolding restart_unlock_listener stop_unlock_listener
  restart-IsTidy p t =
      let (tidy, off) = cancel-listener p.unlock_listener_task p refl t in
      create_listener-IsTidy p.action_manager (cancel parts p.unlock_listener_task p) off tidy

  -- Workers that are created where there are as many as are held.
  record Created (n : ℕ) (p q : Process World) : Type 0 where
    held : q.held_workers ≡ p.held_workers + n
    known : length q.background_workers ≡ length p.background_workers + n
    same_listeners : q.held_listeners ≡ p.held_listeners
    same_task : q.unlock_listener_task ≡ p.unlock_listener_task

  create_workers-Created : (n : ℕ) (p : Process World) → Created n p (create_workers parts n p)
  unfolding create_workers
  create_workers-Created zero p = record {
    held = omega arith;
    known = omega arith;
    same_listeners = refl;
    same_task = refl;
  }
  create_workers-Created (suc n) p =
      let c = create_workers-Created n p in
      record {
        held = omega (arith, c.held);
        known = omega (arith, c.known);
        same_listeners = c.same_listeners;
        same_task = c.same_task;
      }

  worker_tasks-bounds : (n : ℕ) → (2 ≤ worker_tasks parts n) × (worker_tasks parts n ≤ 32)
  unfolding worker_tasks
  worker_tasks-bounds n = (omega arith, omega arith)

  start_if_stopped-IsTidy :
      (b : Bool) (p : Process World)
      → p.background_workers_started ≡ b
      → IsTidy p
      → IsTidy (start_if_stopped parts b p)
  unfolding start_if_stopped
  start_if_stopped-IsTidy true p e t = t
  start_if_stopped-IsTidy false p e t =
      let c =
        create_workers-Created (worker_tasks parts p.worker_count)
          (record p { shutdown_event = false; background_workers = [] }) in
      let idle = subst (λ b. Workers b p.held_workers) e t.bounded in
      record {
        listener = rw (c.same_listeners, c.same_task) t.listener;
        workers = omega (arith, c.held, c.known, idle);
        bounded = (
          omega (arith, c.held, idle, (worker_tasks-bounds p.worker_count).0),
          omega (arith, c.held, idle, (worker_tasks-bounds p.worker_count).1),
        );
      }

  await-held :
      (tasks : List ℕ) (p : Process World)
      → (await_workers parts tasks p).held_workers ≡ p.held_workers - length tasks
  unfolding await_workers
  await-held [] p = omega arith
  await-held (task ∷ tasks) p =
      omega (arith, await-held tasks (record p { held_workers = p.held_workers - 1 }))

  await-listener :
      (tasks : List ℕ) (p : Process World)
      → ((await_workers parts tasks p).held_listeners ≡ p.held_listeners)
        × ((await_workers parts tasks p).unlock_listener_task ≡ p.unlock_listener_task)
  unfolding await_workers
  await-listener [] p = (refl, refl)
  await-listener (task ∷ tasks) p =
      await-listener tasks (record p { held_workers = p.held_workers - 1 })

  stop_if_started-IsTidy :
      (b : Bool) (p : Process World) → IsTidy p → IsTidy (stop_if_started parts b p)
  unfolding stop_if_started
  stop_if_started-IsTidy false p t = t
  stop_if_started-IsTidy true p t =
      let q = record p { shutdown_event = true } in
      record {
        listener =
            rw
              ((await-listener p.background_workers q).0, (await-listener p.background_workers q).1)
              t.listener;
        workers = rw (await-held p.background_workers q) (omega (arith, t.workers));
        bounded = rw (await-held p.background_workers q) (omega (arith, t.workers));
      }

  continue-IsTidy :
      (k : Eff (Process World) (Unit {0})) (r : Outcome (Unit {0})) (p : Process World)
      → ((q : Process World) → IsTidy q → IsTidy (k q).1)
      → IsTidy p
      → IsTidy (continue (λ _. k) r p).1
  continue-IsTidy k (returned u) p h t = h p t
  continue-IsTidy k (raised exc) p h t = t

  on_handler-IsTidy :
      (m : Eff (Handler World) (Unit {0})) (p : Process World)
      → IsTidy p
      → IsTidy (on_handler parts m p).1
  on_handler-IsTidy m p t = record {
    listener = t.listener;
    workers = t.workers;
    bounded = t.bounded;
  }

  handled_then-IsTidy :
      (m : Eff (Handler World) (Unit {0})) (k : Eff (Process World) (Unit {0}))
      → ((q : Process World) → IsTidy q → IsTidy (k q).1)
      → (p : Process World) → IsTidy p
      → IsTidy ((on_handler parts m >> k) p).1
  handled_then-IsTidy m k h p t =
      continue-IsTidy k (on_handler parts m p).0 (on_handler parts m p).1 h
        (on_handler-IsTidy m p t)

  if_manager-IsTidy :
      (b : Bool) (q : Process World)
      → IsTidy q
      → IsTidy ((if b then on_handler parts parts.close_manager else pure tt) q).1
  if_manager-IsTidy true q t = on_handler-IsTidy parts.close_manager q t
  if_manager-IsTidy false q t = t

  stop-IsTidy : (p : Process World) → IsTidy p → IsTidy (stop parts p).1
  unfolding stop stop_background_workers stop_unlock_listener
  stop-IsTidy p t =
      let (tidy, off) = cancel-listener p.unlock_listener_task p refl t in
      handled_then-IsTidy parts.validator_stop
        (if (stop_background_workers parts (stop_unlock_listener parts p)).action_manager
          then on_handler parts parts.close_manager
          else pure tt)
        (if_manager-IsTidy
          (stop_background_workers parts (stop_unlock_listener parts p)).action_manager)
        (stop_background_workers parts (stop_unlock_listener parts p))
        (stop_if_started-IsTidy (stop_unlock_listener parts p).background_workers_started
          (stop_unlock_listener parts p) tidy)

  start-IsTidy : (p : Process World) → IsTidy p → IsTidy (start parts p).1
  unfolding start start_background_workers
  start-IsTidy p t =
      handled_then-IsTidy parts.validator_start
        (on_handler parts parts.load_lists >> λ p.
          (returned tt, restart_unlock_listener parts (start_background_workers parts p)))
        (handled_then-IsTidy parts.load_lists
          (λ p. (returned tt, restart_unlock_listener parts (start_background_workers parts p)))
          (λ q u.
            restart-IsTidy (start_background_workers parts q)
              (start_if_stopped-IsTidy q.background_workers_started q refl u)))
        p t

  step-IsTidy : (event : Event) (p : Process World) → IsTidy p → IsTidy (step parts event p)
  unfolding step refresh_runtime_dependencies
  step-IsTidy starts p t = start-IsTidy p t
  step-IsTidy stops p t = stop-IsTidy p t
  step-IsTidy (refreshes worker_count action_manager) p t =
      restart-IsTidy (record p { worker_count = worker_count; action_manager = action_manager })
        (record { listener = t.listener; workers = t.workers; bounded = t.bounded })

  run-keeps : (events : List (Event)) (p : Process World) → IsTidy p → IsTidy (run parts events p)
  unfolding run
  run-keeps [] p t = t
  run-keeps (event ∷ events) p t = run-keeps events (step parts event p) (step-IsTidy event p t)

  -- For a handler that is started, stopped and reconfigured in any order, also more than once and although
  -- what it calls may raise: the listener for unlocks that it holds is the one that it knows, and there is at
  -- most one; the workers that it holds are those that it knows, which are 2 to 32 while they are started and
  -- none otherwise. So no task is left behind, and none is started twice.
  pub run-IsTidy :
      (h : Handler World) (worker_count : ℕ) (action_manager : Bool) (events : List (Event))
      → IsTidy (run parts events (new h worker_count action_manager))
  unfolding new
  run-IsTidy h worker_count action_manager events =
      run-keeps events (new h worker_count action_manager)
        (record { listener = refl; workers = refl; bounded = refl })
