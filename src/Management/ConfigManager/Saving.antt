-- ===== src/Management/ConfigManager/Saving.antt =====
-- What is in the file after `save` of policyd_py/management/config_manager.py.
use policyd_py.Base.{
  ◌≡◌, ◌≢◌, refl, ap, subst, ◌∙◌, arith, Bool, true, false, Bool-cases, inl, inr, Option, none,
  some, [], ◌++◌, length, length-append, if◌then◌else◌, Text, codes, text_eq, text_eq_iff,
  Exception, os_error, Outcome, returned, raised, pure, raise, ◌>>=◌, ◌>>◌, Guards, GuardsRaised,
  bind-Guards, bind-GuardsRaised, try-GuardsRaised, continue,
}
use policyd_py.Base.Dict.{Dict, get, has_key, put, remove, get-put, get-remove}
use policyd_py.Management.ConfigManager.{
  Value, ConfigManager, Disk, write_file, unlink, content_of, read_file, replace_file, moved,
  backup_name, backup_current, apply_updates, current_sections, through_file, rendered_updates,
  cleaned, set_config, replace_config, put_in_place, activate, write_and_activate,
  by_temporary_file, install, save, normalize_content, lifted,
}

text_eq-other : (s t : Text) → s ≢ t → text_eq s t ≡ false
text_eq-other s t n = elim (Bool-cases (text_eq s t)) [
  | inl e ↦ absurd (n ((text_eq_iff s t).0 e))
  | inr e ↦ e
]

get-put_other : (d : Dict Text) (k j v : Text) → k ≢ j → get (put d k v) j ≡ get d j
get-put_other d k j v n = rw (get-put d k j v, text_eq-other k j n) refl

get-remove_other : (d : Dict Text) (k j : Text) → k ≢ j → get (remove d k) j ≡ get d j
get-remove_other d k j n = rw (get-remove d k j, text_eq-other k j n) refl

-- The content of the configuration file.
abbrev pub HasFile : {Config : Type 0} → Text → Option Text → ConfigManager Config → Type 0
HasFile path content m = (m.config_path ≡ path) × (get m.files path ≡ content)

backup_name-other : (path stamp : Text) → backup_name path stamp ≢ path
backup_name-other path stamp e = omega (
  arith,
  ap length e,
  length-append path (codes ".backup." ++ stamp),
  length-append (codes ".backup.") stamp,
)

module _ {Config : Type 0} (disk : Disk Config) (path : Text) (content : Option Text) where
  abbrev Kept : ConfigManager Config → Type 0
  Kept = HasFile path content

  if-Kept :
      {A : Type 0} (b : Bool) (x y : Outcome A × ConfigManager Config)
      → Kept x.1
      → Kept y.1
      → Kept (if b then x else y).1
  if-Kept true x y p q = p
  if-Kept false x y p q = q

  write_file-Guards : (file text : Text) → file ≢ path → Guards Kept (write_file disk file text)
  unfolding write_file
  write_file-Guards file text n m (p, q) =
      if-Kept (disk.can_write file m.files)
        (returned tt, record m { files = put m.files file text }) (raised (os_error file), m)
        (p, get-put_other m.files file path text n ∙ q) (p, q)

  unlink-Guards : (file : Text) → file ≢ path → Guards Kept (unlink disk file)
  unfolding unlink
  unlink-Guards file n m (p, q) =
      if-Kept (has_key m.files file) (returned tt, record m { files = remove m.files file })
        (raised (os_error file), m) (p, get-remove_other m.files file path n ∙ q) (p, q)

  content_of-Guards : (file : Text) (o : Option Text) → Guards Kept (content_of disk file o)
  unfolding content_of
  content_of-Guards file none m k = k
  content_of-Guards file (some text) m k = k

  read_file-Guards : (file : Text) → Guards Kept (read_file disk file)
  unfolding read_file
  read_file-Guards file m k = content_of-Guards file (get m.files file) m k

  backup_current-Guards : (stamp : Text) → Guards Kept (backup_current disk stamp)
  unfolding backup_current
  backup_current-Guards stamp m (p, q) =
      if-Kept (has_key m.files m.config_path)
        ((read_file disk m.config_path >>= λ text.
            write_file disk (backup_name m.config_path stamp) text
            >> pure (backup_name m.config_path stamp))
          m)
        (returned [], m)
        (bind-Guards Kept (read_file disk m.config_path)
          (λ text.
            write_file disk (backup_name m.config_path stamp) text
            >> pure (backup_name m.config_path stamp))
          (read_file-Guards m.config_path)
          (λ text.
            bind-Guards Kept (write_file disk (backup_name m.config_path stamp) text)
              (λ _. pure (backup_name m.config_path stamp))
              (write_file-Guards (backup_name m.config_path stamp) text (
                subst (λ k. backup_name m.config_path stamp ≢ k) p
                  (backup_name-other m.config_path stamp)))
              (λ _ m k. k))
          m (p, q))
        (p, q)

  if-Kept_raised :
      (b : Bool) (x y : Outcome (Unit {0}) × ConfigManager Config) (exc : Exception)
      → ((x.0 ≡ raised exc) → Kept x.1)
      → Kept y.1
      → (if b then x else y).0 ≡ raised exc
      → Kept (if b then x else y).1
  if-Kept_raised true x y exc p q r = p r
  if-Kept_raised false x y exc p q r = q

  moved-guards : (file target text : Text) → GuardsRaised Kept (moved disk file target text)
  unfolding moved
  moved-guards file target text m exc r k =
      if-Kept_raised (disk.can_replace file target m.files)
        (returned tt, record m { files = put (remove m.files file) target text })
        (raised (os_error target), m) exc (λ e. cc) k r

  replace_file-guards : (file target : Text) → GuardsRaised Kept (replace_file disk file target)
  unfolding replace_file
  replace_file-guards file target =
      bind-GuardsRaised Kept (read_file disk file) (moved disk file target) (read_file-Guards file)
        (moved-guards file target)

  cleaned-Guards : (file : Text) → file ≢ path → (e : Exception) → Guards Kept (cleaned disk file e)
  unfolding cleaned
  cleaned-Guards file n e =
      bind-Guards Kept (λ m. if has_key m.files file then unlink disk file m else (returned tt, m))
        (λ _. raise e)
        (λ m k.
          if-Kept (has_key m.files file) (unlink disk file m) (returned tt, m)
            (unlink-Guards file n m k) k)
        (λ _ m k. k)

  continue-guards_raised_end :
      (cfg : Config) (o : Outcome (Unit {0})) (m : ConfigManager Config) (exc : Exception)
      → ((e : Exception) → o ≡ raised e → Kept m)
      → (continue (λ _. pure cfg) o m).0 ≡ raised exc
      → Kept (continue (λ _. pure cfg) o m).1
  continue-guards_raised_end cfg (returned u) m exc k r = cc
  continue-guards_raised_end cfg (raised e) m exc k r = k e refl

  put_in_place-guards :
      (file : Text) (cfg : Config) → GuardsRaised Kept (put_in_place disk file cfg)
  unfolding put_in_place set_config replace_config
  put_in_place-guards file cfg =
      bind-GuardsRaised Kept (set_config disk cfg) (λ _. replace_config disk file >> pure cfg)
        (λ m k. k)
        (λ _ m exc r k.
          continue-guards_raised_end cfg (replace_file disk file m.config_path m).0
            (replace_file disk file m.config_path m).1 exc
            (λ e i. replace_file-guards file m.config_path m e i k) r)

  activate-guards : (file text : Text) → file ≢ path → GuardsRaised Kept (activate disk file text)
  unfolding activate
  activate-guards file text n =
      try-GuardsRaised Kept (lifted disk (disk.load text) >>= put_in_place disk file)
        (cleaned disk file)
        (bind-GuardsRaised Kept (lifted disk (disk.load text)) (put_in_place disk file) (λ m k. k)
          (put_in_place-guards file))
        (cleaned-Guards file n)

  module _ (other : (d : Dict Text) → disk.temp_name d ≢ path) where
    install-guards : (text : Text) → GuardsRaised Kept (install disk text)
    unfolding install by_temporary_file write_and_activate
    install-guards text =
        bind-GuardsRaised Kept (lifted disk (disk.parse text)) (λ _. by_temporary_file disk text)
          (λ m k. k)
          (λ _ m.
            bind-GuardsRaised Kept (write_file disk (disk.temp_name m.files) text)
              (λ _. activate disk (disk.temp_name m.files) text)
              (write_file-Guards (disk.temp_name m.files) text (other m.files))
              (λ _. activate-guards (disk.temp_name m.files) text (other m.files)) m)

    through_file-Guards :
        (file text : Text) → file ≢ path → Guards Kept (through_file disk file text)
    unfolding through_file
    through_file-Guards file text n =
        bind-Guards Kept (write_file disk file text) (λ _. unlink disk file >> pure text)
          (write_file-Guards file text n)
          (λ _.
            bind-Guards Kept (unlink disk file) (λ _. pure text) (unlink-Guards file n)
              (λ _ m k. k))

    current_sections-Guards : Guards Kept (current_sections disk)
    unfolding current_sections
    current_sections-Guards m k =
        if-Kept (has_key m.files m.config_path)
          ((read_file disk m.config_path >>= λ text. lifted disk (disk.parse text)) m)
          (returned [], m)
          (bind-Guards Kept (read_file disk m.config_path) (λ text. lifted disk (disk.parse text))
            (read_file-Guards m.config_path) (λ _ m k. k) m k)
          k

    rendered_updates-Guards :
        (updates : Dict (Dict Value)) → Guards Kept (rendered_updates disk updates)
    unfolding rendered_updates
    rendered_updates-Guards updates =
        bind-Guards Kept (current_sections disk)
          (λ sections. lifted disk (apply_updates disk updates sections) >>= λ updated m.
            through_file disk (disk.temp_name m.files) (disk.render updated) m)
          current_sections-Guards
          (λ sections.
            bind-Guards Kept (lifted disk (apply_updates disk updates sections))
              (λ updated m. through_file disk (disk.temp_name m.files) (disk.render updated) m)
              (λ m k. k)
              (λ updated m.
                through_file-Guards (disk.temp_name m.files) (disk.render updated) (other m.files)
                  m))

    save-guards :
        (stamp : Text) (new : Option Text) (updates : Option (Dict (Dict Value)))
        → GuardsRaised Kept (save disk stamp new updates)
    unfolding save
    save-guards stamp none none = λ m exc r k. k
    save-guards stamp (some new) (some updates) = λ m exc r k. k
    save-guards stamp (some new) none =
        bind-GuardsRaised Kept (backup_current disk stamp)
          (λ _. install disk (normalize_content new)) (backup_current-Guards stamp)
          (λ _. install-guards (normalize_content new))
    save-guards stamp none (some updates) =
        bind-GuardsRaised Kept (backup_current disk stamp)
          (λ _. rendered_updates disk updates >>= install disk) (backup_current-Guards stamp)
          (λ _.
            bind-GuardsRaised Kept (rendered_updates disk updates) (install disk)
              (rendered_updates-Guards updates) install-guards)

-- Where no temporary file takes the name of the configuration file: a `save` that raises, wherever it does
-- (before or after the backup, in the parser, on the disk, or in `AppConfig.load`), leaves the configuration
-- file with the content that it had, or without one if there was none.
pub save-keeps_file :
    {Config : Type 0} (disk : Disk Config) (m : ConfigManager Config) (stamp : Text)
    (new : Option Text) (updates : Option (Dict (Dict Value))) (exc : Exception)
    → ((d : Dict Text) → disk.temp_name d ≢ m.config_path)
    → (save disk stamp new updates m).0 ≡ raised exc
    → get (save disk stamp new updates m).1.files m.config_path ≡ get m.files m.config_path
save-keeps_file disk m stamp new updates exc other r =
    (save-guards disk m.config_path (get m.files m.config_path) other stamp new updates m exc r
      (refl, refl)).1
