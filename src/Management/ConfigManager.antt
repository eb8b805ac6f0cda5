-- ===== src/Management/ConfigManager.antt =====
-- policyd_py/management/config_manager.py: the configuration in memory and in its file, which is saved by
-- way of a temporary file. The disk is the contents of its files; which operations on it fail, the names
-- of temporary files, the INI parser and `AppConfig.load` are parameters.
pub mod Saving
pub mod Saved
use policyd_py.Base.{
  Bool, true, false, Option, none, some, List, [], ◌∷◌, ◌++◌, reverse, is_empty, if◌then◌else◌,
  Text, codes, lower, text_eq, starts_with, join_text, Exception, value_error, os_error, Outcome,
  returned, raised, Eff, pure, raise, try_except, ◌>>=◌, ◌>>◌,
}
use policyd_py.Base.Dict.{Dict, get, get_or, has_key, put, remove}

-- A value of an update; another one than a Boolean or a list is what `str` makes of it.
pub data Value : Type 0 where
  bool : Bool → Value
  list : List Text → Value
  other : Text → Value

pub record ConfigManager (Config : Type 0) : Type 0 where
  pub config_path : Text
  pub config : Config
  pub files : Dict Text

abbrev pub Sections : Type 0
Sections = Dict (Dict Text)

-- `strftime` of the time of a call is an argument of the call.
pub record Disk (Config : Type 0) : Type 0 where
  -- whether a file can be written, and moved over another one
  pub can_write : Text → Dict Text → Bool
  pub can_replace : Text → Text → Dict Text → Bool
  -- the name that `NamedTemporaryFile` finds
  pub temp_name : Dict Text → Text
  -- configparser: read_string, write, and whether `set` takes a value
  pub parse : Text → Outcome Sections
  pub render : Sections → Text
  pub is_valid : Text → Bool
  -- AppConfig.load of a file with this content
  pub load : Text → Outcome Config

unfoldable pub stringify : Value → Text
stringify (bool true) = codes "true"
stringify (bool false) = codes "false"
stringify (list xs) = join_text (codes ",") xs
stringify (other s) = s

-- content.endswith("\n")
unfoldable pub normalize_content : Text → Text
normalize_content content =
    if starts_with (reverse content) (codes "\n") then content else content ++ codes "\n"

abbrev pub backup_name : Text → Text → Text
backup_name path stamp = path ++ (codes ".backup." ++ stamp)

module _ {Config : Type 0} (disk : Disk Config) where
  abbrev pub Action : Type 0 → Type 0
  Action A = Eff (ConfigManager Config) A

  abbrev pub lifted : {A : Type 0} → Outcome A → Action A
  lifted o m = (o, m)

  unfoldable pub write_file : Text → Text → Action (Unit {0})
  write_file path content m =
      if disk.can_write path m.files
      then (returned tt, record m { files = put m.files path content })
      else (raised (os_error path), m)

  unfoldable pub unlink : Text → Action (Unit {0})
  unlink path m =
      if has_key m.files path
      then (returned tt, record m { files = remove m.files path })
      else (raised (os_error path), m)

  -- The content of a file that is read or moved.
  unfoldable pub content_of : Text → Option Text → Action Text
  content_of path none = raise (os_error path)
  content_of path (some content) = pure content

  unfoldable pub read_file : Text → Action Text
  unfolding content_of
  read_file path m = content_of path (get m.files path) m

  -- os.replace(source, target)
  unfoldable pub moved : Text → Text → Text → Action (Unit {0})
  moved source target content m =
      if disk.can_replace source target m.files
      then (returned tt, record m { files = put (remove m.files source) target content })
      else (raised (os_error target), m)

  unfoldable pub replace_file : Text → Text → Action (Unit {0})
  unfolding read_file moved
  replace_file source target = read_file source >>= moved source target

  -- The parser may raise what it likes; what it parsed is set here.
  unfoldable pub reload : Action Config
  unfolding read_file
  reload = do
    config_path ← λ m. (returned m.config_path, m)
    content ← read_file config_path
    cfg ← lifted (disk.load content)
    λ m. (returned cfg, record m { config = cfg })

  -- `_backup_current`
  unfoldable pub backup_current : Text → Action Text
  unfolding read_file write_file
  backup_current stamp m =
      if has_key m.files m.config_path
      then (do
        content ← read_file m.config_path
        write_file (backup_name m.config_path stamp) content
        pure (backup_name m.config_path stamp))
          m
      else (returned [], m)

  -- `parser.set`; the names of options are in lower case
  unfoldable pub set_option : Text → Text → Text → Sections → Outcome Sections
  set_option section key value sections =
      if disk.is_valid value
      then returned (put sections section (put (get_or sections section []) (lower key) value))
      else raised (value_error (codes "invalid interpolation syntax"))

  abbrev and_then : {A B : Type 0} → Outcome A → (A → Outcome B) → Outcome B
  and_then (returned a) f = f a
  and_then (raised exc) f = raised exc

  unfoldable pub set_options : Text → Dict Value → Sections → Outcome Sections
  unfolding set_option stringify
  set_options section [] sections = returned sections
  set_options section ((key, value) ∷ more) sections =
      and_then (set_option section key (stringify value) sections) (set_options section more)

  -- `if not parser.has_section(section): parser.add_section(section)`
  unfoldable pub with_section : Text → Sections → Outcome Sections
  with_section section sections =
      if has_key sections section
      then returned sections
      else if text_eq section (codes "DEFAULT")
      then raised (value_error (codes "Invalid section name: 'DEFAULT'"))
      else returned (put sections section [])

  unfoldable pub apply_updates : Dict (Dict Value) → Sections → Outcome Sections
  unfolding with_section set_options
  apply_updates [] sections = returned sections
  apply_updates ((section, entries) ∷ more) sections =
      and_then (and_then (with_section section sections) (set_options section entries))
        (apply_updates more)

  -- The sections of the file, or none where there is no file.
  unfoldable pub current_sections : Action Sections
  unfolding read_file
  current_sections m =
      if has_key m.files m.config_path
      then (read_file m.config_path >>= λ content. lifted (disk.parse content)) m
      else (returned [], m)

  -- The rendered text goes through a temporary file.
  unfoldable pub through_file : Text → Text → Action Text
  unfolding write_file unlink
  through_file path content = write_file path content >> (unlink path >> pure content)

  unfoldable pub rendered_updates : Dict (Dict Value) → Action Text
  unfolding current_sections apply_updates through_file
  rendered_updates updates = current_sections >>= λ sections.
      lifted (apply_updates updates sections) >>= λ updated m.
      through_file (disk.temp_name m.files) (disk.render updated) m

  -- `if os.path.exists(temp_path): os.unlink(temp_path)`, and the exception again
  unfoldable pub cleaned : Text → Exception → Action Config
  unfolding unlink
  cleaned temp_path exc = do
    λ m. if has_key m.files temp_path then unlink temp_path m else (returned tt, m)
    raise exc

  unfoldable pub set_config : Config → Action (Unit {0})
  set_config cfg m = (returned tt, record m { config = cfg })

  unfoldable pub replace_config : Text → Action (Unit {0})
  unfolding replace_file
  replace_config temp_path m = replace_file temp_path m.config_path m

  -- The `try` block; the configuration is set before the file is replaced.
  unfoldable pub put_in_place : Text → Config → Action Config
  unfolding set_config replace_config
  put_in_place temp_path cfg = set_config cfg >> (replace_config temp_path >> pure cfg)

  unfoldable pub activate : Text → Text → Action Config
  unfolding cleaned put_in_place
  activate temp_path content =
      try_except (lifted (disk.load content) >>= put_in_place temp_path) (cleaned temp_path)

  unfoldable pub write_and_activate : Text → Text → Action Config
  unfolding write_file activate
  write_and_activate temp_path content = write_file temp_path content >> activate temp_path content

  unfoldable pub by_temporary_file : Text → Action Config
  unfolding write_and_activate
  by_temporary_file candidate_content m =
      write_and_activate (disk.temp_name m.files) candidate_content m

  -- What `save` does with the candidate.
  unfoldable pub install : Text → Action Config
  unfolding by_temporary_file
  install candidate_content =
      lifted (disk.parse candidate_content) >>= λ sections. by_temporary_file candidate_content

  unfoldable pub save : Text → Option Text → Option (Dict (Dict Value)) → Action Config
  unfolding backup_current normalize_content rendered_updates install
  save stamp none none = raise (value_error (codes "either content or updates must be provided"))
  save stamp (some content) (some updates) =
      raise (value_error (codes "content and updates are mutually exclusive"))
  save stamp (some content) none = do backup_current stamp; install (normalize_content content)
  save stamp none (some updates) = do
    backup_current stamp
    candidate_content ← rendered_updates updates
    install candidate_content
