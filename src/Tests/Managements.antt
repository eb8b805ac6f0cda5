-- ===== src/Tests/Managements.antt =====
-- The configuration file and the API of the management (policyd_py/management/config_manager.py and
-- api_server.py).
use policyd_py.Base.{
  ℕ, ◌+◌, Bool, ◌≡◌, refl, ◌⊎◌, true, false, Option, none, some, [], ◌∷◌, Text, text_eq, codes,
  Exception, os_error, returned, raised,
}
use policyd_py.Base.Dict.{get, put}
use policyd_py.Management.ConfigManager.{ConfigManager, Disk, save, normalize_content}
use policyd_py.Management.ConfigManager.Saving.{save-keeps_file}
use policyd_py.Management.ConfigManager.Saved.{IsSaved, save-IsSaved}
use policyd_py.Management.Api.{
  WebConfig, Request, response, http_error, Action, auth_required, handle,
}
use policyd_py.Management.Api.Access.{Grants, handle-guards}

-- A configuration is its text; files can be written, and moved or not.
abbrev disk : (can_replace : Bool) → Disk Text
disk b = record {
  can_write = λ path files. true;
  can_replace = λ source target files. b;
  temp_name = λ files. codes "tmp1";
  parse = λ text. returned [];
  render = λ sections. codes "[Web]\n";
  is_valid = λ value. true;
  load = λ text. returned text;
}

abbrev manager : ConfigManager Text
manager = record {
  config_path = codes "policyd.ini";
  config = codes "old\n";
  files = (codes "policyd.ini", codes "old\n") ∷ [];
}

replacing_fails :
    (save (disk false) (codes "20240101") (some (codes "new")) none manager).0
    ≡ raised (os_error (codes "policyd.ini"))
unfolding save get text_eq put
replacing_fails = refl

save-keeps_file_example :
    get
      (save (disk false) (codes "20240101") (some (codes "new")) none manager).1.files
      manager.config_path
    ≡ get manager.files manager.config_path
save-keeps_file_example =
    save-keeps_file (disk false) manager (codes "20240101") (some (codes "new")) none
      (os_error (codes "policyd.ini")) (λ d e. cc) replacing_fails

replacing_works :
    (save (disk true) (codes "20240101") (some (codes "new")) none manager).0
    ≡ returned (codes "new\n")
unfolding save get text_eq put
replacing_works = refl

save-IsSaved_example :
    (candidate : Text) × IsSaved
      (disk true)
      candidate
      (codes "new\n")
      (save (disk true) (codes "20240101") (some (codes "new")) none manager).1
    × ((content : Text) → some (codes "new") ≡ some content → candidate ≡ normalize_content content)
save-IsSaved_example =
    save-IsSaved (disk true) (codes "20240101") (some (codes "new")) none manager (codes "new\n")
      replacing_works

abbrev protected : WebConfig
protected = record {
  enable = true;
  host = codes "127.0.0.1";
  port = 8080;
  username = codes "admin";
  password = codes "p";
  bearer_token = [];
  cors_enabled = true;
  cors_origins = [];
}

abbrev lock_request : Request
lock_request = record {
  method = codes "POST";
  path = codes "/api/v1/users/lock";
  authorization = codes "Basic admin:q";
  content_type = codes "application/json";
  fields = returned ((codes "email", codes "a@b.de") ∷ []);
  updates = none;
}

abbrev decode : Text → Option Text
decode s = some s

abbrev shown : Exception → Text
shown exc = []

abbrev locking : Action ℕ
locking n = (response (record { status = 200; body = []; headers = [] }), n + 1)

handle-guards_example :
    Grants decode shown protected lock_request.authorization
    ⊎ ((status : ℕ) × (text : Text) × (handle decode shown protected lock_request locking 7
          ≡ (http_error status text, 7)))
unfolding auth_required text_eq
handle-guards_example = handle-guards decode shown protected lock_request locking 7 refl refl
