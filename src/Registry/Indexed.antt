-- ===== src/Registry/Indexed.antt =====
-- Keys and identifiers in the dictionary of policyd_py/multiserver/registry.py, operation by operation.
use policyd_py.Base.{
  ℕ, ◌≡◌, refl, ap, sym, ◌∙◌, subst, Bool, true, false, Option, none, some, is_empty, if◌then◌else◌,
  Text, text_eq, text_eq_iff, Outcome, returned, raised, pure, continue,
}
use policyd_py.Base.Dict.{Dict, get, put, remove, has_key, get-put, get-remove}
use policyd_py.Registry.{
  ServerInfo, Registry, Environment, save, saved, store, completed, add_server, update_server,
  remove_server, switch, not_found,
}

pub record IsIndexed (d : Dict ServerInfo) : Type 0 where
  pub at : (k : Text) (s : ServerInfo) → get d k ≡ some s → s.id ≡ k

some_inj : {m n : ServerInfo} → some m ≡ some n → m ≡ n
some_inj {m = m} h = ap (λ o. elim o [ none ↦ m | some k ↦ k ]) h

if-id :
    (same : Bool) (s t : ServerInfo) (o : Option ServerInfo) (j : Text)
    → (same ≡ true → s.id ≡ j)
    → (o ≡ some t → t.id ≡ j)
    → (if same then some s else o) ≡ some t
    → t.id ≡ j
if-id true s t o j p q h = subst (λ (u : ServerInfo). u.id ≡ j) (some_inj h) (p refl)
if-id false s t o j p q h = q h

if_gone-id :
    (same : Bool) (t : ServerInfo) (o : Option ServerInfo) (j : Text)
    → (o ≡ some t → t.id ≡ j)
    → (if same then none else o) ≡ some t
    → t.id ≡ j
if_gone-id true t o j q h = cc
if_gone-id false t o j q h = q h

put-IsIndexed :
    (d : Dict ServerInfo) (k : Text) (s : ServerInfo)
    → s.id ≡ k
    → IsIndexed d
    → IsIndexed (put d k s)
put-IsIndexed d k s e x = record {
  at = λ j t h.
      if-id (text_eq k j) s t (get d j) j (λ same. e ∙ (text_eq_iff k j).0 same) (x.at j t)
        (sym (get-put d k j s) ∙ h);
}

remove-IsIndexed : (d : Dict ServerInfo) (k : Text) → IsIndexed d → IsIndexed (remove d k)
remove-IsIndexed d k x = record {
  at = λ j t h. if_gone-id (text_eq k j) t (get d j) j (x.at j t) (sym (get-remove d k j) ∙ h);
}

module _ {World : Type 0} (env : Environment World) where
  if-IsIndexed :
      {A : Type 0} (b : Bool) (x y : A × Registry World)
      → IsIndexed x.1.servers
      → IsIndexed y.1.servers
      → IsIndexed (if b then x else y).1.servers
  if-IsIndexed true x y p q = p
  if-IsIndexed false x y p q = q

  saved-IsIndexed : (r : Registry World) → IsIndexed r.servers → IsIndexed (saved env r).1.servers
  unfolding saved save
  saved-IsIndexed r x =
      if-IsIndexed r.auto_save (save env r) (returned tt, r)
        (if-IsIndexed (is_empty r.file_path) (returned tt, r)
          (
            (env.write r.file_path r.servers r.world).0,
            record r { world = (env.write r.file_path r.servers r.world).1 },
          )
          x x)
        x

  store-IsIndexed :
      (s : ServerInfo) (r : Registry World)
      → IsIndexed r.servers
      → IsIndexed (store env s r).1.servers
  unfolding store
  store-IsIndexed s r x =
      saved-IsIndexed (record r { servers = put r.servers s.id s })
        (put-IsIndexed r.servers s.id s refl x)

  continue-IsIndexed :
      {A : Type 0} (a : A) (o : Outcome (Unit {0})) (r : Registry World)
      → IsIndexed r.servers
      → IsIndexed (continue {B = A} (λ u. pure a) o r).1.servers
  continue-IsIndexed a (returned u) r x = x
  continue-IsIndexed a (raised exc) r x = x

  pub add-IsIndexed :
      (s : ServerInfo) (r : Registry World)
      → IsIndexed r.servers
      → IsIndexed (add_server env s r).1.servers
  unfolding add_server
  add-IsIndexed s r x = if-IsIndexed (is_empty s.name) _ _ x (
      if-IsIndexed (is_empty s.host) _ _ x (
        continue-IsIndexed (completed env s r.world) (store env (completed env s r.world) r).0
          (store env (completed env s r.world) r).1
          (store-IsIndexed (completed env s r.world) r x)))

  pub update-IsIndexed :
      (s : ServerInfo) (r : Registry World)
      → IsIndexed r.servers
      → IsIndexed (update_server env s r).1.servers
  unfolding update_server not_found
  update-IsIndexed s r x =
      if-IsIndexed (has_key r.servers s.id) _ _
        (store-IsIndexed (record s { updated_at = env.time r.world }) r x) x

  pub delete-IsIndexed :
      (k : Text) (r : Registry World)
      → IsIndexed r.servers
      → IsIndexed (remove_server env k r).1.servers
  unfolding remove_server not_found
  delete-IsIndexed k r x =
      if-IsIndexed (has_key r.servers k) _ _
        (saved-IsIndexed (record r { servers = remove r.servers k })
          (remove-IsIndexed r.servers k x))
        x

  pub switch-IsIndexed :
      (b : Bool) (now : ℕ) (k : Text) (o : Option ServerInfo) (r : Registry World)
      → get r.servers k ≡ o
      → IsIndexed r.servers
      → IsIndexed (switch env b now k o r).1.servers
  unfolding switch not_found
  switch-IsIndexed b now k none r e x = x
  switch-IsIndexed b now k (some s) r e x =
      saved-IsIndexed
        (record r { servers = put r.servers k (record s { enabled = b; updated_at = now }) })
        (put-IsIndexed r.servers k (record s { enabled = b; updated_at = now }) (x.at k s e) x)
