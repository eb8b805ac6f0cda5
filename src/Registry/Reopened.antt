-- ===== src/Registry/Reopened.antt =====
-- What a registry (policyd_py/multiserver/registry.py) finds that is opened on the file of another one.
use policyd_py.Base.{
  ◌≡◌, refl, Bool, true, false, is_empty, if◌then◌else◌, Text, Outcome, returned, raised, pure,
  continue, Option, none, some, value_error, codes,
}
use policyd_py.Base.Dict.{Dict, get, put, remove, has_key}
use policyd_py.Registry.{
  ServerInfo, Registry, Environment, save, saved, store, completed, add_server, update_server,
  remove_server, not_found, enable_server, disable_server, switch, load, loaded, new,
}
use policyd_py.Registry.Changes
use policyd_py.Registry.Changes.{Change, change}

module _ {World : Type 0} (env : Environment World) where
  -- A file that is written is there, and the servers that are read from it are those that were written.
  pub record ReadsBack : Type 0 where
    pub is_there :
        (path : Text) (d : Dict ServerInfo) (w : World)
        → (env.write path d w).0 ≡ returned tt
        → env.path_exists path (env.write path d w).1 ≡ true
    pub reads :
        (path : Text) (d : Dict ServerInfo) (w : World)
        → (env.write path d w).0 ≡ returned tt
        → env.read path (env.write path d w).1 ≡ (returned d, (env.write path d w).1)

  -- A registry that is opened anew, on the file and in the world of this one.
  abbrev pub reopen : Registry World → Outcome (Unit {0}) × Registry World
  reopen r = new env r.file_path r.auto_save r.world

  abbrev pub is_returned : {A : Type 0} → Outcome A → Bool
  is_returned (returned a) = true
  is_returned (raised exc) = false

  -- If a step returned, then what it left is found again.
  Persists : {A : Type 0} → Outcome A × Registry World → Type 0
  Persists (o, r) = is_returned o ≡ true → reopen r ≡ (returned tt, r)

  returned_unit : (o : Outcome (Unit {0})) → is_returned o ≡ true → o ≡ returned tt
  returned_unit (returned tt) h = refl
  returned_unit (raised exc) h = cc

  raised-Persists :
      {A : Type 0} (x : Outcome A × Registry World) → is_returned x.0 ≡ false → Persists x
  unfolding Persists
  raised-Persists (o, r) p h = cc

  if-Persists :
      {A : Type 0} (b : Bool) (x y : Outcome A × Registry World)
      → Persists x
      → Persists y
      → Persists (if b then x else y)
  if-Persists true x y p q = p
  if-Persists false x y p q = q

  if_true-Persists :
      {A : Type 0} (b : Bool) (x y : Outcome A × Registry World)
      → b ≡ true
      → Persists x
      → Persists (if b then x else y)
  if_true-Persists true x y e p = p
  if_true-Persists false x y e p = cc

  if_false-Persists :
      {A : Type 0} (b : Bool) (x y : Outcome A × Registry World)
      → b ≡ false
      → Persists y
      → Persists (if b then x else y)
  if_false-Persists true x y e p = cc
  if_false-Persists false x y e p = p

  continue-Persists :
      {A : Type 0} (a : A) (x : Outcome (Unit {0}) × Registry World)
      → Persists x
      → Persists (continue {B = A} (λ u. pure a) x.0 x.1)
  unfolding Persists
  continue-Persists a (returned u, r) p = p
  continue-Persists a (raised exc, r) p = λ h. cc

  module _ (b : ReadsBack) where
    written-reopen :
        (r : Registry World)
        → is_empty r.file_path ≡ false
        → (env.write r.file_path r.servers r.world).0 ≡ returned tt
        → reopen (record r { world = (env.write r.file_path r.servers r.world).1 })
          ≡ (returned tt, record r { world = (env.write r.file_path r.servers r.world).1 })
    unfolding new load loaded
    written-reopen r p h =
        rw (p, b.is_there r.file_path r.servers r.world h, b.reads r.file_path r.servers r.world h)
          refl

    saved-Persists :
        (r : Registry World)
        → is_empty r.file_path ≡ false
        → r.auto_save ≡ true
        → Persists (saved env r)
    unfolding saved save Persists
    saved-Persists r p a =
        if_true-Persists r.auto_save (save env r) (returned tt, r) a
          (if_false-Persists (is_empty r.file_path) (returned tt, r)
            (
              (env.write r.file_path r.servers r.world).0,
              record r { world = (env.write r.file_path r.servers r.world).1 },
            )
            p
            (λ h. written-reopen r p (returned_unit (env.write r.file_path r.servers r.world).0 h)))

    switch-Persists :
        (enabled : Bool) (id : Text) (o : Option ServerInfo) (r : Registry World)
        → is_empty r.file_path ≡ false
        → r.auto_save ≡ true
        → Persists (switch env enabled (env.time r.world) id o r)
    unfolding switch not_found
    switch-Persists enabled id none r p a = raised-Persists (not_found env id r) refl
    switch-Persists enabled id (some server) r p a =
        saved-Persists
          (record r {
            servers =
                put r.servers id
                  (record server { enabled = enabled; updated_at = env.time r.world });
          })
          p a

    store-Persists :
        (s : ServerInfo) (r : Registry World)
        → is_empty r.file_path ≡ false
        → r.auto_save ≡ true
        → Persists (store env s r)
    unfolding store
    store-Persists s r p a = saved-Persists (record r { servers = put r.servers s.id s }) p a

    add-Persists :
        (s : ServerInfo) (r : Registry World)
        → is_empty r.file_path ≡ false
        → r.auto_save ≡ true
        → Persists (add_server env s r)
    unfolding add_server
    add-Persists s r p a =
        if-Persists (is_empty s.name) (raised (value_error (codes "server name is required")), r)
          (if is_empty s.host
            then (raised (value_error (codes "server host is required")), r)
            else continue (λ u. pure (completed env s r.world))
                (store env (completed env s r.world) r).0 (store env (completed env s r.world) r).1)
          (raised-Persists (raised (value_error (codes "server name is required")), r) refl)
          (if-Persists (is_empty s.host) (raised (value_error (codes "server host is required")), r)
            (continue (λ u. pure (completed env s r.world))
              (store env (completed env s r.world) r).0 (store env (completed env s r.world) r).1)
            (raised-Persists (raised (value_error (codes "server host is required")), r) refl)
            (continue-Persists (completed env s r.world) (store env (completed env s r.world) r)
              (store-Persists (completed env s r.world) r p a)))

    update-Persists :
        (s : ServerInfo) (r : Registry World)
        → is_empty r.file_path ≡ false
        → r.auto_save ≡ true
        → Persists (update_server env s r)
    unfolding update_server not_found
    update-Persists s r p a =
        if-Persists (has_key r.servers s.id)
          (store env (record s { updated_at = env.time r.world }) r) (not_found env s.id r)
          (store-Persists (record s { updated_at = env.time r.world }) r p a)
          (raised-Persists (not_found env s.id r) refl)

    remove-Persists :
        (id : Text) (r : Registry World)
        → is_empty r.file_path ≡ false
        → r.auto_save ≡ true
        → Persists (remove_server env id r)
    unfolding remove_server not_found
    remove-Persists id r p a =
        if-Persists (has_key r.servers id) (saved env (record r { servers = remove r.servers id }))
          (not_found env id r) (saved-Persists (record r { servers = remove r.servers id }) p a)
          (raised-Persists (not_found env id r) refl)

  -- Whether a change returns.
  abbrev pub succeeds : Change → Registry World → Bool
  succeeds (Changes.add s) r = is_returned (add_server env s r).0
  succeeds (Changes.update s) r = is_returned (update_server env s r).0
  succeeds (Changes.delete id) r = is_returned (remove_server env id r).0
  succeeds (Changes.enable id) r = is_returned (enable_server env id r).0
  succeeds (Changes.disable id) r = is_returned (disable_server env id r).0

  -- If a file that is written is read back, and the registry has a file and saves by itself: after an addition,
  -- an update, a removal or a switch that returns, a registry that is opened anew on the file is the same,
  -- with all servers in the same order.
  pub change-reopen :
      (r : Registry World) (c : Change)
      → ReadsBack
      → is_empty r.file_path ≡ false
      → r.auto_save ≡ true
      → succeeds c r ≡ true
      → reopen (change env c r) ≡ (returned tt, change env c r)
  unfolding change Persists enable_server disable_server
  change-reopen r (Changes.add s) b p a h = add-Persists b s r p a h
  change-reopen r (Changes.update s) b p a h = update-Persists b s r p a h
  change-reopen r (Changes.delete id) b p a h = remove-Persists b id r p a h
  change-reopen r (Changes.enable id) b p a h = switch-Persists b true id (get r.servers id) r p a h
  change-reopen r (Changes.disable id) b p a h =
      switch-Persists b false id (get r.servers id) r p a h
