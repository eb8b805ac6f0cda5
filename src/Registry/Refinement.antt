-- ===== src/Registry/Refinement.antt =====
-- The registry of policyd_py/multiserver/registry.py as a map from identifiers to servers, which forgets
-- the order of the dictionary and the file.
use policyd_py.Base.{
  ◌≡◌, refl, ap, ◌∙◌, Bool, true, false, Option, none, some, List, [], ◌∷◌, is_empty, if◌then◌else◌,
  Text, text_eq, key_error, value_error, codes, Outcome, returned, raised, continue, pure,
}
use policyd_py.Base.Dict.{get, put, remove, get-put, get-remove}
use policyd_py.Registry.{
  ServerInfo, Registry, Environment, saved, store, completed, add_server, update_server,
  remove_server, not_found, found, get_server, switch, enable_server, disable_server,
}
use policyd_py.Registry.Changes
use policyd_py.Registry.Changes.{Change, change, change_all, saved-servers, continue-servers}

-- The abstract view: what there is under an identifier.
abbrev pub Servers : Type 0
Servers = Text → Option ServerInfo

abbrev assign : Text → ServerInfo → Servers → Servers
assign id server f = λ k. if text_eq id k then some server else f k

abbrev erase : Text → Servers → Servers
erase id f = λ k. if text_eq id k then none else f k

abbrev is_some : Option ServerInfo → Bool
is_some o = elim o [ none ↦ false | some server ↦ true ]

abbrev assign_enabled : Bool → Text → Option ServerInfo → Servers → Servers
assign_enabled enabled id none f = f
assign_enabled enabled id (some server) f = assign id server f

module _ {World : Type 0} (env : Environment World) where
  abbrev set_enabled : Bool → World → Option ServerInfo → Option ServerInfo
  set_enabled enabled w none = none
  set_enabled enabled w (some server) =
      some (record server { enabled = enabled; updated_at = env.time w })

  abbrev assign_option : Text → Option ServerInfo → Servers → Servers
  assign_option id none f = f
  assign_option id (some server) f = assign id server f

  -- What a change at a state of the world is to do to the map; where it is refused, nothing.
  abbrev pub specified : World → Change → Servers → Servers
  specified w (Changes.add s) f =
      if is_empty s.name
      then f
      else if is_empty s.host
      then f
      else assign (completed env s w).id (completed env s w) f
  specified w (Changes.update s) f =
      if is_some (f s.id) then assign s.id (record s { updated_at = env.time w }) f else f
  specified w (Changes.delete id) f = if is_some (f id) then erase id f else f
  specified w (Changes.enable id) f = assign_option id (set_enabled true w (f id)) f
  specified w (Changes.disable id) f = assign_option id (set_enabled false w (f id)) f

  -- The changes of a run, with the worlds in which they are made.
  abbrev pub trace : List Change → Registry World → List (World × Change)
  trace [] r = []
  trace (c ∷ cs) r = (r.world, c) ∷ trace cs (change env c r)

  abbrev pub replay : List (World × Change) → Servers → Servers
  replay [] f = f
  replay ((w, c) ∷ cs) f = replay cs (specified w c f)

  -- What `get_server` answers, of the abstract view.
  abbrev pub answer : Text → Option ServerInfo → Outcome ServerInfo
  answer id none = raised (key_error id)
  answer id (some server) = returned server

  ext : {f g : Servers} → ((k : Text) → f k ≡ g k) → f ≡ g
  ext h = λ i k. h k i

  store-refines :
      (s : ServerInfo) (r : Registry World)
      → get (store env s r).1.servers ≡ assign s.id s (get r.servers)
  unfolding store
  store-refines s r =
      ap get (saved-servers env (record r { servers = put r.servers s.id s }))
      ∙ ext (λ k. get-put r.servers s.id k s)

  switch-refines :
      (b : Bool) (id : Text) (o : Option ServerInfo) (r : Registry World)
      → get (switch env b (env.time r.world) id o r).1.servers
        ≡ assign_option id (set_enabled b r.world o) (get r.servers)
  unfolding switch not_found
  switch-refines b id none r = refl
  switch-refines b id (some s) r =
      let s' = record s { enabled = b; updated_at = env.time r.world } in
      ap get (saved-servers env (record r { servers = put r.servers id s' }))
      ∙ ext (λ k. get-put r.servers id k s')

  if-refines :
      {A : Type 0} (b : Bool) (x y : Outcome A × Registry World) (f g : Servers)
      → get x.1.servers ≡ f
      → get y.1.servers ≡ g
      → get (if b then x else y).1.servers ≡ (if b then f else g)
  if-refines true x y f g p q = p
  if-refines false x y f g p q = q

  add-refines :
      (s : ServerInfo) (r : Registry World)
      → get (add_server env s r).1.servers ≡ specified r.world (Changes.add s) (get r.servers)
  unfolding add_server
  add-refines s r =
      let s' = completed env s r.world in
      let stored =
        (continue {B = ServerInfo} (λ u. pure s') (store env s' r).0 (store env s' r).1) in
      if-refines (is_empty s.name) (raised (value_error (codes "server name is required")), r)
        (if is_empty s.host
          then (raised (value_error (codes "server host is required")), r)
          else stored)
        (get r.servers) (if is_empty s.host then get r.servers else assign s'.id s' (get r.servers))
        refl
        (if-refines (is_empty s.host) (raised (value_error (codes "server host is required")), r)
          stored (get r.servers) (assign s'.id s' (get r.servers)) refl
          (ap get (continue-servers env s' (store env s' r).0 (store env s' r).1)
            ∙ store-refines s' r))

  change-refines :
      (c : Change) (r : Registry World)
      → get (change env c r).servers ≡ specified r.world c (get r.servers)
  unfolding change update_server remove_server enable_server disable_server not_found
  change-refines (Changes.add s) r = add-refines s r
  change-refines (Changes.update s) r =
      if-refines (is_some (get r.servers s.id))
        (store env (record s { updated_at = env.time r.world }) r) (not_found env s.id r)
        (assign s.id (record s { updated_at = env.time r.world }) (get r.servers)) (get r.servers)
        (store-refines (record s { updated_at = env.time r.world }) r) refl
  change-refines (Changes.delete id) r =
      if-refines (is_some (get r.servers id))
        (saved env (record r { servers = remove r.servers id })) (not_found env id r)
        (erase id (get r.servers)) (get r.servers)
        (ap get (saved-servers env (record r { servers = remove r.servers id }))
          ∙ ext (λ k. get-remove r.servers id k))
        refl
  change-refines (Changes.enable id) r = switch-refines true id (get r.servers id) r
  change-refines (Changes.disable id) r = switch-refines false id (get r.servers id) r

  run-refines :
      (cs : List Change) (r : Registry World)
      → get (change_all env cs r).servers ≡ replay (trace cs r) (get r.servers)
  unfolding change_all
  run-refines [] r = refl
  run-refines (c ∷ cs) r =
      run-refines cs (change env c r) ∙ ap (replay (trace cs (change env c r))) (change-refines c r)

  answer-found :
      (id : Text) (o : Option ServerInfo) (r : Registry World) → found env id o r ≡ (answer id o, r)
  unfolding found not_found
  answer-found id none r = refl
  answer-found id (some s) r = refl

  -- The registry refines a map from identifiers to servers: after any sequence of additions, updates,
  -- removals and switches, `get_server` answers for every identifier what the map holds after the replay of
  -- the same changes at the same states of the world, or raises `KeyError` where it holds nothing, and does
  -- not change the registry. That a change is refused, or that its saving fails, makes no difference but that
  -- a refused one leaves the map as it was.
  pub get_server-refines :
      (cs : List Change) (r : Registry World) (id : Text)
      → get_server env id (change_all env cs r)
        ≡ (answer id (replay (trace cs r) (get r.servers) id), change_all env cs r)
  unfolding get_server
  get_server-refines cs r id =
      answer-found id (get (change_all env cs r).servers id) (change_all env cs r)
      ∙ ap (λ f. (answer id (f id), change_all env cs r)) (run-refines cs r)
