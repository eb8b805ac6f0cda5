-- ===== src/Tests/Registries.antt =====
-- A registry of servers (policyd_py/multiserver/registry.py) at work, with a file that cannot be written.
use policyd_py.Base.{
  ℕ, ◌≡◌, true, false, List, [], ◌∷◌, Option, none, some, refl, codes, os_error, raise, returned,
  raised,
}
use policyd_py.Base.Dict.{Dict, get}
use policyd_py.Registry.{ServerInfo, Registry, Environment, add_server, get_server}
use policyd_py.Registry.Indexed.{IsIndexed}
use policyd_py.Registry.Refinement.{answer, replay, trace, get_server-refines}
use policyd_py.Registry.Changes
use policyd_py.Registry.Changes.{Change, change, change_all, change_all-IsIndexed}
use policyd_py.Registry.Reopened.{ReadsBack, reopen, succeeds, change-reopen}

abbrev read_only : Environment ℕ
read_only = record {
  time = λ w. w;
  uuid4 = λ w. codes "u1";
  write = λ path servers. raise (os_error (codes "EROFS"));
  path_exists = λ path w. false;
  read = λ path. raise (os_error (codes "ENOENT"));
}

abbrev unnamed : ServerInfo
unnamed = record {
  id = [];
  name = codes "mx1";
  host = codes "10.0.0.1";
  port = 0;
  username = [];
  password = [];
  enabled = true;
  description = [];
  tags = [];
  created_at = 0;
  updated_at = 0;
}

abbrev empty_registry : Registry ℕ
empty_registry = record {
  servers = [];
  file_path = codes "/var/servers.json";
  auto_save = true;
  world = 7;
}

nothing-IsIndexed : IsIndexed []
unfolding get
nothing-IsIndexed = record { at = λ k s h. cc }

abbrev some_changes : List Change
some_changes =
    Changes.add unnamed
    ∷ Changes.disable (codes "u1")
    ∷ Changes.delete (codes "u2")
    ∷ Changes.update unnamed
    ∷ []

change_all-IsIndexed_example : IsIndexed (change_all read_only some_changes empty_registry).servers
change_all-IsIndexed_example =
    change_all-IsIndexed read_only some_changes empty_registry nothing-IsIndexed

get_server-refines_example :
    get_server read_only (codes "u1") (change_all read_only some_changes empty_registry) ≡ (
      answer read_only
          (codes "u1")
          (replay read_only (trace read_only some_changes empty_registry) (get []) (codes "u1")),
      change_all read_only some_changes empty_registry,
    )
get_server-refines_example = get_server-refines read_only some_changes empty_registry (codes "u1")

-- A world that is what the file holds.
abbrev one_file : Environment (Option (Dict ServerInfo))
one_file = record {
  time = λ w. 7;
  uuid4 = λ w. codes "u1";
  write = λ path servers w. (returned tt, some servers);
  path_exists = λ path w. elim w [ none ↦ false | some servers ↦ true ];
  read = λ path w. elim w [
    | none ↦ (raised (os_error (codes "ENOENT")), none)
    | some servers ↦ (returned servers, some servers)
  ];
}

one_file-ReadsBack : ReadsBack one_file
one_file-ReadsBack = record { is_there = λ path d w h. refl; reads = λ path d w h. refl }

abbrev no_file : Registry (Option (Dict ServerInfo))
no_file = record {
  servers = [];
  file_path = codes "/var/servers.json";
  auto_save = true;
  world = none;
}

unnamed_added : succeeds one_file (Changes.add unnamed) no_file ≡ true
unfolding add_server policyd_py.Registry.store policyd_py.Registry.saved policyd_py.Registry.save
    policyd_py.Registry.completed
unnamed_added = refl

change-reopen_example :
    reopen one_file (change one_file (Changes.add unnamed) no_file)
    ≡ (returned tt, change one_file (Changes.add unnamed) no_file)
change-reopen_example =
    change-reopen one_file no_file (Changes.add unnamed) one_file-ReadsBack refl refl unnamed_added
