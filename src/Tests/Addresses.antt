-- ===== src/Tests/Addresses.antt =====
-- Addresses and blacklists (policyd_py/validation/validator.py) at work.
use policyd_py.Base.{
  ◌≡◌, ◌↔◌, ◌⊎◌, refl, true, Option, none, some, List, [], ◌∷◌, ◌++◌, Text, codes, lower, text_eq,
  if◌then◌else◌,
}
use policyd_py.Validator.{
  EmailValidator, email_re_match, reload_blacklists, check_sender_blacklist,
  check_recipient_blacklist, check_domain_blacklist,
}
use policyd_py.Validator.Syntax.{IsAddress, email_re_match_iff}
use policyd_py.Validator.Blacklists.{file_names, blocked_iff_named}
use policyd_py.Tests.Outsides.{config}

email_re_match_iff_example : (email_re_match (codes "a.b@c.de") ≡ true) ↔ (
    IsAddress (codes "a.b@c.de") ⊎ ((t : Text) × (codes "a.b@c.de" ≡ t ++ 10 ∷ []) × IsAddress t))
email_re_match_iff_example = email_re_match_iff (codes "a.b@c.de")

abbrev read : Text → Option (List Text)
read path =
    if text_eq path (codes "/etc/senders")
    then some (codes "# bad" ∷ codes " Eve@x.de" ∷ [])
    else none

abbrev fresh : EmailValidator
fresh = record {
  config = config.validation;
  sender_blacklist = [];
  recipient_blacklist = [];
  domain_blacklist = [];
}

abbrev reloaded : EmailValidator
reloaded = reload_blacklists read (codes "/etc/senders") [] (codes "/etc/gone") fresh

blocked_iff_named_example :
    ((check_sender_blacklist reloaded (codes "EVE@x.de")).0
      ≡ file_names read (codes "/etc/senders") (lower (codes "EVE@x.de")))
    × ((check_recipient_blacklist reloaded (codes "EVE@x.de")).0
        ≡ file_names read [] (lower (codes "EVE@x.de")))
    × ((check_domain_blacklist reloaded (codes "EVE@x.de")).0
        ≡ file_names read (codes "/etc/gone") (lower (codes "EVE@x.de")))
blocked_iff_named_example =
    blocked_iff_named read (codes "/etc/senders") [] (codes "/etc/gone") fresh (codes "EVE@x.de")
      refl
