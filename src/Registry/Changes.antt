-- ===== src/Registry/Changes.antt =====
-- Changes of the registry of policyd_py/multiserver/registry.py, one after the other.
use policyd_py.Base.{
  ◌≡◌, refl, Bool, true, false, List, [], ◌∷◌, is_empty, if◌then◌else◌, Text, text_eq_refl, Outcome,
  returned, raised, pure, continue, ◌∙◌,
}
use policyd_py.Base.Dict.{Dict, get, put, get-put}
use policyd_py.Registry.{
  ServerInfo, Registry, Environment, save, saved, store, completed, add_server, update_server,
  remove_server, found, get_server, enable_server, disable_server,
}
use policyd_py.Registry.Indexed.{
  IsIndexed, add-IsIndexed, update-IsIndexed, delete-IsIndexed, switch-IsIndexed,
}

pub data Change : Type 0 where
  add update : ServerInfo → Change
  delete enable disable : Text → Change

module _ {World : Type 0} (env : Environment World) where
  -- The registry after a change, which may have raised.
  unfoldable pub change : Change → Registry World → Registry World
  change (add s) r = (add_server env s r).1
  change (update s) r = (update_server env s r).1
  change (delete k) r = (remove_server env k r).1
  change (enable k) r = (enable_server env k r).1
  change (disable k) r = (disable_server env k r).1

  unfoldable pub change_all : List Change → Registry World → Registry World
  unfolding change
  change_all [] r = r
  change_all (c ∷ cs) r = change_all cs (change c r)

  change-IsIndexed :
      (c : Change) (r : Registry World) → IsIndexed r.servers → IsIndexed (change c r).servers
  unfolding change enable_server disable_server
  change-IsIndexed (add s) r x = add-IsIndexed env s r x
  change-IsIndexed (update s) r x = update-IsIndexed env s r x
  change-IsIndexed (delete k) r x = delete-IsIndexed env k r x
  change-IsIndexed (enable k) r x =
      switch-IsIndexed env true (env.time r.world) k (get r.servers k) r refl x
  change-IsIndexed (disable k) r x =
      switch-IsIndexed env false (env.time r.world) k (get r.servers k) r refl x

  -- Whatever servers are added, updated, removed, enabled and disabled, and whether or not the file can
  -- be written and the identifiers are known: a registry that has every server under its own identifier
  -- keeps that.
  pub change_all-IsIndexed :
      (cs : List Change) (r : Registry World)
      → IsIndexed r.servers
      → IsIndexed (change_all cs r).servers
  unfolding change_all
  change_all-IsIndexed [] r x = x
  change_all-IsIndexed (c ∷ cs) r x = change_all-IsIndexed cs (change c r) (change-IsIndexed c r x)

  if-servers :
      (b : Bool) (x y : Outcome (Unit {0}) × Registry World) (d : Dict ServerInfo)
      → x.1.servers ≡ d
      → y.1.servers ≡ d
      → (if b then x else y).1.servers ≡ d
  if-servers true x y d p q = p
  if-servers false x y d p q = q

  pub saved-servers : (r : Registry World) → (saved env r).1.servers ≡ r.servers
  unfolding saved save
  saved-servers r =
      if-servers r.auto_save (save env r) (returned tt, r) r.servers
        (if-servers (is_empty r.file_path) (returned tt, r)
          (
            (env.write r.file_path r.servers r.world).0,
            record r { world = (env.write r.file_path r.servers r.world).1 },
          )
          r.servers refl refl)
        refl

  pub continue-servers :
      {A : Type 0} (a : A) (o : Outcome (Unit {0})) (r : Registry World)
      → (continue {B = A} (λ u. pure a) o r).1.servers ≡ r.servers
  continue-servers a (returned u) r = refl
  continue-servers a (raised exc) r = refl

  add-servers :
      (s : ServerInfo) (r : Registry World)
      → is_empty s.name ≡ false
      → is_empty s.host ≡ false
      → (add_server env s r).1.servers
        ≡ put r.servers (completed env s r.world).id (completed env s r.world)
  unfolding add_server store
  add-servers s r n h =
      rw (n, h)
        (continue-servers (completed env s r.world) (store env (completed env s r.world) r).0
            (store env (completed env s r.world) r).1
          ∙ saved-servers (record r {
            servers = put r.servers (completed env s r.world).id (completed env s r.world);
          }))

  -- A server with a name and a host that is added is found under its identifier as it was completed, with
  -- an identifier, a port and the times: also if its saving failed and the addition raised.
  pub get_server-add_server :
      (s : ServerInfo) (r : Registry World)
      → is_empty s.name ≡ false
      → is_empty s.host ≡ false
      → (get_server env (completed env s r.world).id (add_server env s r).1).0
        ≡ returned (completed env s r.world)
  unfolding get_server found
  get_server-add_server s r n h =
      rw
        (
          add-servers s r n h,
          get-put r.servers (completed env s r.world).id (completed env s r.world).id
              (completed env s r.world),
          text_eq_refl (completed env s r.world).id,
        )
        refl
