-- ===== src/Actions/Providers.antt =====
-- Which providers `_execute_sync` of policyd_py/actions/manager.py tries.
use policyd_py.Base.{
  ℕ, ◌+◌, ◌≡◌, refl, arith, Bool, true, false, Option, none, some, List, [], ◌∷◌, take, ◌-◌,
  if◌then◌else◌, Text, Exception, Outcome, returned, raised,
}
use policyd_py.Base.Dict.{Dict}
use policyd_py.Actions.{
  ActionProvider, ProviderMetric, ActionManager, dispatch, all_failed, breaks, record_metric,
  attempted, execute_from, execute_sync,
}

module _ {World : Type 0} (monotonic : World → ℕ) (str : Exception → Text) where
  -- The first success, or what the next providers bring.
  then_next :
      (Option Exception → World → Outcome (Unit {0}) × World)
      → Outcome (Unit {0})
      → World
      → Outcome (Unit {0}) × World
  then_next next (returned u) w = (returned tt, w)
  then_next next (raised exc) w = next (some exc) w

  -- The providers in turn, up to the first that succeeds.
  pub first_success :
      Text
      → Text
      → Text
      → List (ActionProvider World)
      → Option Exception
      → World
      → Outcome (Unit {0}) × World
  unfolding then_next
  first_success action email reason [] last w =
      (raised (all_failed monotonic str action email last), w)
  first_success action email reason (p ∷ ps) last w =
      then_next (first_success action email reason ps)
        (dispatch monotonic str p action email reason w).0
        (dispatch monotonic str p action email reason w).1

  -- Every provider, or the primary and one more.
  abbrev pub eligible : ActionManager World → List (ActionProvider World)
  eligible m =
      if m.config.continue_on_error then m.primary ∷ m.fallbacks else m.primary ∷ take 1 m.fallbacks

  abbrev pub outcome_world :
      Outcome (Unit {0}) × (Dict ProviderMetric × World) → Outcome (Unit {0}) × World
  outcome_world (r, (d, w)) = (r, w)

  goes_on :
      (continue_on_error : Bool) (action email provider : Text) (idx started : ℕ)
      (next : Option Exception
        → Dict ProviderMetric × World
        → Outcome (Unit {0}) × (Dict ProviderMetric × World))
      (next' : Option Exception → World → Outcome (Unit {0}) × World) (r : Outcome (Unit {0}))
      (w : World) (d : Dict ProviderMetric)
      → breaks monotonic str idx continue_on_error ≡ false
      → ((last : Option Exception) (d : Dict ProviderMetric) (w : World)
          → outcome_world (next last (d, w)) ≡ next' last w)
      → outcome_world
          (attempted monotonic str continue_on_error action email idx next provider started r w d)
        ≡ then_next next' r w
  unfolding attempted then_next
  goes_on c action email provider idx started next next' (returned u) w d h k = refl
  goes_on c action email provider idx started next next' (raised exc) w d h k =
      rw h (k (some exc) (record_metric provider false (monotonic w - started) d) w)

  ends_here :
      (action email provider : Text) (started : ℕ)
      (next : Option Exception
        → Dict ProviderMetric × World
        → Outcome (Unit {0}) × (Dict ProviderMetric × World))
      (r : Outcome (Unit {0})) (w : World) (d : Dict ProviderMetric)
      → outcome_world (attempted monotonic str false action email 1 next provider started r w d)
        ≡ then_next (λ last w. (raised (all_failed monotonic str action email last), w)) r w
  unfolding attempted then_next
  ends_here action email provider started next (returned u) w d = refl
  ends_here action email provider started next (raised exc) w d = refl

  execute_all :
      (action email reason : Text) (ps : List (ActionProvider World)) (idx : ℕ)
      (last : Option Exception) (d : Dict ProviderMetric) (w : World)
      → outcome_world (execute_from monotonic str true action email reason idx last ps (d, w))
        ≡ first_success action email reason ps last w
  unfolding execute_from first_success
  execute_all action email reason [] idx last d w = refl
  execute_all action email reason (p ∷ ps) idx last d w =
      goes_on true action email p.name idx (monotonic w)
        (λ last. execute_from monotonic str true action email reason (idx + 1) last ps)
        (first_success action email reason ps) (dispatch monotonic str p action email reason w).0
        (dispatch monotonic str p action email reason w).1 d (ground arith)
        (execute_all action email reason ps (idx + 1))

  execute_one :
      (action email reason : Text) (ps : List (ActionProvider World)) (last : Option Exception)
      (d : Dict ProviderMetric) (w : World)
      → outcome_world (execute_from monotonic str false action email reason 1 last ps (d, w))
        ≡ first_success action email reason (take 1 ps) last w
  unfolding execute_from first_success
  execute_one action email reason [] last d w = refl
  execute_one action email reason (p ∷ ps) last d w =
      ends_here action email p.name (monotonic w)
        (λ last. execute_from monotonic str false action email reason 2 last ps)
        (dispatch monotonic str p action email reason w).0
        (dispatch monotonic str p action email reason w).1 d

  execute_two :
      (action email reason : Text) (p : ActionProvider World) (ps : List (ActionProvider World))
      (d : Dict ProviderMetric) (w : World)
      → outcome_world (execute_from monotonic str false action email reason 0 none (p ∷ ps) (d, w))
        ≡ first_success action email reason (p ∷ take 1 ps) none w
  unfolding execute_from first_success
  execute_two action email reason p ps d w =
      goes_on false action email p.name 0 (monotonic w)
        (λ last. execute_from monotonic str false action email reason 1 last ps)
        (first_success action email reason (take 1 ps))
        (dispatch monotonic str p action email reason w).0
        (dispatch monotonic str p action email reason w).1 d refl
        (execute_one action email reason ps)

  by_config :
      (c : Bool) (action email reason : Text) (p : ActionProvider World)
      (ps : List (ActionProvider World)) (d : Dict ProviderMetric) (w : World)
      → outcome_world (execute_from monotonic str c action email reason 0 none (p ∷ ps) (d, w))
        ≡ first_success action email reason (if c then p ∷ ps else p ∷ take 1 ps) none w
  by_config true action email reason p ps d w = execute_all action email reason (p ∷ ps) 0 none d w
  by_config false action email reason p ps d w = execute_two action email reason p ps d w

  -- For every action, manager and state of the world: `_execute_sync` has the outcome, and leaves the
  -- world, of trying providers in turn up to the first that succeeds. The providers are all of them with
  -- `continue_on_error`, and the primary and the first fallback without. It raises, with the last
  -- error, exactly where each of these raised.
  pub execute_sync-first_success :
      (action email reason : Text) (m : ActionManager World)
      → (
        (execute_sync monotonic str action email reason m).0,
        (execute_sync monotonic str action email reason m).1.world,
      )
        ≡ first_success action email reason (eligible m) none m.world
  unfolding execute_sync
  execute_sync-first_success action email reason m =
      by_config m.config.continue_on_error action email reason m.primary m.fallbacks m.providers
        m.world
