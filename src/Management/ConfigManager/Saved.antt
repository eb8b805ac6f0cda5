-- ===== src/Management/ConfigManager/Saved.antt =====
-- A `save` of policyd_py/management/config_manager.py that returns.
use policyd_py.Base.{
  ◌≡◌, refl, sym, ap, subst, ◌≢◌, ◌∙◌, Bool, true, false, Option, none, some, if◌then◌else◌, Text,
  text_eq_refl, Exception, Outcome, returned, raised, Eff, pure, raise, handle_with, ◌>>=◌,
  continue, continue-returned, os_error,
}
use policyd_py.Base.Dict.{Dict, get, has_key, put, remove, get-put}
use policyd_py.Management.ConfigManager.{
  Value, ConfigManager, Disk, write_file, unlink, read_file, replace_file, moved, content_of,
  backup_current, rendered_updates, cleaned, set_config, replace_config, put_in_place, activate,
  write_and_activate, by_temporary_file, install, save, normalize_content,
}

get_same : (d : Dict Text) (k v : Text) → get (put d k v) k ≡ some v
get_same d k v = rw (get-put d k k v, text_eq_refl k) refl

module _ {Config : Type 0} (disk : Disk Config) where
  -- What a `save` that returned this configuration leaves.
  pub record IsSaved (candidate : Text) (cfg : Config) (m : ConfigManager Config) : Type 0 where
    pub in_file : get m.files m.config_path ≡ some candidate
    pub loaded : disk.load candidate ≡ returned cfg
    pub in_memory : m.config ≡ cfg

  some_inj : {a b : Text} → some a ≡ some b → a ≡ b
  some_inj {a = a} h = ap (λ o. elim o [ none ↦ a | some b ↦ b ]) h

  returned_inj : {A : Type 0} {a b : A} → returned a ≡ returned b → a ≡ b
  returned_inj {a = a} h = ap (λ o. elim o [ returned b ↦ b | raised e ↦ a ]) h

  if-returned :
      (b : Bool) (m n : ConfigManager Config) (exc : Exception) (u : Unit {0})
      → (if◌then◌else◌ {A = Outcome (Unit {0}) × ConfigManager Config} b
          (returned tt, m)
          (raised exc, n)).0
        ≡ returned u
      → (if◌then◌else◌ {A = Outcome (Unit {0}) × ConfigManager Config} b
          (returned tt, m)
          (raised exc, n)).1
        ≡ m
  if-returned true m n exc u r = refl
  if-returned false m n exc u r = cc

  write_file-puts :
      (file text : Text) (m : ConfigManager Config) (u : Unit {0})
      → (write_file disk file text m).0 ≡ returned u
      → (write_file disk file text m).1 ≡ record m { files = put m.files file text }
  unfolding write_file
  write_file-puts file text m u r =
      if-returned (disk.can_write file m.files) (record m { files = put m.files file text }) m
        (os_error file) u r

  moved-puts :
      (source target text : Text) (m : ConfigManager Config) (u : Unit {0})
      → (moved disk source target text m).0 ≡ returned u
      → (moved disk source target text m).1
        ≡ record m { files = put (remove m.files source) target text }
  unfolding moved
  moved-puts source target text m u r =
      if-returned (disk.can_replace source target m.files)
        (record m { files = put (remove m.files source) target text }) m (os_error target) u r

  content_of-some :
      (file text : Text) (o : Option Text) (m : ConfigManager Config)
      → o ≡ some text
      → content_of disk file o m ≡ (returned text, m)
  unfolding content_of
  content_of-some file text o m e = rw e refl

  -- A file that is there is moved.
  replace_file-puts :
      (source target text : Text) (m : ConfigManager Config) (u : Unit {0})
      → get m.files source ≡ some text
      → (replace_file disk source target m).0 ≡ returned u
      → (replace_file disk source target m).1
        ≡ record m { files = put (remove m.files source) target text }
  unfolding replace_file read_file
  replace_file-puts source target text m u e r =
      let read =
        ap (λ x. continue (moved disk source target) x.0 x.1)
          (content_of-some source text (get m.files source) m e) in
      ap (λ x. x.1) read ∙ moved-puts source target text m u (sym (ap (λ x. x.0) read) ∙ r)

  put_in_place-saves :
      (temp_path text : Text) (cfg cfg' : Config) (m : ConfigManager Config)
      → disk.load text ≡ returned cfg
      → get m.files temp_path ≡ some text
      → (put_in_place disk temp_path cfg m).0 ≡ returned cfg'
      → IsSaved text cfg' (put_in_place disk temp_path cfg m).1
  unfolding put_in_place set_config replace_config
  put_in_place-saves temp_path text cfg cfg' m l e r =
      let n = record m { config = cfg } in
      let (u, moved_it, ran) =
        continue-returned (λ _. pure cfg) (replace_file disk temp_path n.config_path n).0
          (replace_file disk temp_path n.config_path n).1 cfg' r in
      let same = returned_inj (sym (ap (λ x. x.0) ran) ∙ r) in
      let left =
        ap (λ x. x.1) ran ∙ replace_file-puts temp_path n.config_path text n u e moved_it in
      subst (IsSaved text cfg') (sym left) (record {
        in_file =
            rw
              (
                get-put (remove m.files temp_path) m.config_path m.config_path text,
                text_eq_refl m.config_path,
              )
              refl;
        loaded = l ∙ ap returned same;
        in_memory = same;
      })

  raise-never :
      (exc : Exception) (o : Outcome (Unit {0})) (m : ConfigManager Config) (cfg : Config)
      → (continue (λ _. raise exc) o m).0 ≢ returned cfg
  raise-never exc (returned u) m cfg r = cc
  raise-never exc (raised e) m cfg r = cc

  cleaned-never :
      (temp_path : Text) (exc : Exception) (m : ConfigManager Config) (cfg : Config)
      → (cleaned disk temp_path exc m).0 ≢ returned cfg
  unfolding cleaned
  cleaned-never temp_path exc m cfg =
      raise-never exc
        (if has_key m.files temp_path then unlink disk temp_path m else (returned tt, m)).0
        (if has_key m.files temp_path then unlink disk temp_path m else (returned tt, m)).1 cfg

  handled-saves :
      (text : Text) (h : Exception → Eff (ConfigManager Config) Config) (o : Outcome Config)
      (m : ConfigManager Config) (cfg : Config)
      → ((exc : Exception) (m : ConfigManager Config) (cfg : Config) → (h exc m).0 ≢ returned cfg)
      → (o ≡ returned cfg → IsSaved text cfg m)
      → (handle_with h o m).0 ≡ returned cfg
      → IsSaved text cfg (handle_with h o m).1
  handled-saves text h (returned a) m cfg k s r = s r
  handled-saves text h (raised exc) m cfg k s r = absurd (k exc m cfg r)

  loaded-saves :
      (temp_path text : Text) (o : Outcome Config) (m : ConfigManager Config) (cfg : Config)
      → disk.load text ≡ o
      → get m.files temp_path ≡ some text
      → (continue (put_in_place disk temp_path) o m).0 ≡ returned cfg
      → IsSaved text cfg (continue (put_in_place disk temp_path) o m).1
  loaded-saves temp_path text (returned c) m cfg l e r =
      put_in_place-saves temp_path text c cfg m l e r
  loaded-saves temp_path text (raised exc) m cfg l e r = cc

  activate-saves :
      (temp_path text : Text) (m : ConfigManager Config) (cfg : Config)
      → get m.files temp_path ≡ some text
      → (activate disk temp_path text m).0 ≡ returned cfg
      → IsSaved text cfg (activate disk temp_path text m).1
  unfolding activate
  activate-saves temp_path text m cfg e =
      handled-saves text (cleaned disk temp_path)
        (continue (put_in_place disk temp_path) (disk.load text) m).0
        (continue (put_in_place disk temp_path) (disk.load text) m).1 cfg (cleaned-never temp_path)
        (loaded-saves temp_path text (disk.load text) m cfg refl e)

  install-saves :
      (text : Text) (m : ConfigManager Config) (cfg : Config)
      → (install disk text m).0 ≡ returned cfg
      → IsSaved text cfg (install disk text m).1
  unfolding install by_temporary_file write_and_activate
  install-saves text m cfg r =
      let temp_path = disk.temp_name m.files in
      let (sections, _, ran) =
        continue-returned (λ _. by_temporary_file disk text) (disk.parse text) m cfg r in
      let (u, written, ran') =
        continue-returned (λ _. activate disk temp_path text) (write_file disk temp_path text m).0
          (write_file disk temp_path text m).1 cfg (sym (ap (λ x. x.0) ran) ∙ r) in
      let there =
        ap (λ n. get n.files temp_path) (write_file-puts temp_path text m u written)
        ∙ get_same m.files temp_path text in
      subst (λ x. IsSaved text cfg x.1) (sym (ran ∙ ran'))
        (activate-saves temp_path text (write_file disk temp_path text m).1 cfg there
          (sym (ap (λ x. x.0) (ran ∙ ran')) ∙ r))

  -- A `save` that returns, of a content or of updates: the configuration file holds a text that
  -- `AppConfig.load` reads as the configuration that is returned, and that is the one in memory. If a content
  -- was given, the text is that content with a line feed at its end.
  pub save-IsSaved :
      (stamp : Text) (new : Option Text) (updates : Option (Dict (Dict Value)))
      (m : ConfigManager Config) (cfg : Config)
      → (save disk stamp new updates m).0 ≡ returned cfg
      → (candidate : Text) × IsSaved candidate cfg (save disk stamp new updates m).1
        × ((content : Text) → new ≡ some content → candidate ≡ normalize_content content)
  unfolding save
  save-IsSaved stamp none none m cfg r = cc
  save-IsSaved stamp (some content) (some updates) m cfg r = cc
  save-IsSaved stamp (some content) none m cfg r =
      let (path, _, ran) =
        continue-returned (λ _. install disk (normalize_content content))
          (backup_current disk stamp m).0 (backup_current disk stamp m).1 cfg r in
      (
        normalize_content content,
        subst (λ x. IsSaved (normalize_content content) cfg x.1) (sym ran)
            (install-saves (normalize_content content) (backup_current disk stamp m).1 cfg
              (sym (ap (λ x. x.0) ran) ∙ r)),
        λ c e. ap normalize_content (some_inj e),
      )
  save-IsSaved stamp none (some updates) m cfg r =
      let n = (backup_current disk stamp m).1 in
      let (path, _, ran) =
        continue-returned (λ _. rendered_updates disk updates >>= install disk)
          (backup_current disk stamp m).0 n cfg r in
      let (candidate, _, ran') =
        continue-returned (install disk) (rendered_updates disk updates n).0
          (rendered_updates disk updates n).1 cfg (sym (ap (λ x. x.0) ran) ∙ r) in
      (
        candidate,
        subst (λ x. IsSaved candidate cfg x.1) (sym (ran ∙ ran'))
            (install-saves candidate (rendered_updates disk updates n).1 cfg
              (sym (ap (λ x. x.0) (ran ∙ ran')) ∙ r)),
        λ c e. cc,
      )
