-- ===== src/Models.antt =====
-- policyd_py/core/models.py: the requests and the responses of the policy delegation protocol.
use policyd_py.Base.{Option, none, some, List, [], ◌∷◌, ◌++◌, Text, codes, split_on}
use policyd_py.Base.Dict.{Dict, get}

pub record PolicyRequest : Type 0 where
  pub request : Option Text
  pub protocol_state : Option Text
  pub protocol_name : Option Text
  pub queue_id : Option Text
  pub client_address : Option Text
  pub client_name : Option Text
  pub reverse_client_name : Option Text
  pub instance_id : Option Text
  pub sasl_method : Option Text
  pub sasl_username : Option Text
  pub sasl_sender : Option Text
  pub size : Option Text
  pub ccert_subject : Option Text
  pub ccert_issuer : Option Text
  pub ccert_fingerprint : Option Text
  pub encryption_protocol : Option Text
  pub encryption_cipher : Option Text
  pub encryption_keysize : Option Text
  pub etrn_domain : Option Text
  pub stress : Option Text
  pub sender : Option Text
  pub recipient : Option Text
  pub recipient_count : Option Text
  pub helo_name : Option Text
  pub policy_context : Option Text
  pub server_address : Option Text
  pub server_name : Option Text

-- A key that is no field is ignored, as the model of the request does by default.
unfoldable pub parse_from_dict : Dict Text → PolicyRequest
parse_from_dict d = record {
  request = get d (codes "request");
  protocol_state = get d (codes "protocol_state");
  protocol_name = get d (codes "protocol_name");
  queue_id = get d (codes "queue_id");
  client_address = get d (codes "client_address");
  client_name = get d (codes "client_name");
  reverse_client_name = get d (codes "reverse_client_name");
  instance_id = get d (codes "instance");
  sasl_method = get d (codes "sasl_method");
  sasl_username = get d (codes "sasl_username");
  sasl_sender = get d (codes "sasl_sender");
  size = get d (codes "size");
  ccert_subject = get d (codes "ccert_subject");
  ccert_issuer = get d (codes "ccert_issuer");
  ccert_fingerprint = get d (codes "ccert_fingerprint");
  encryption_protocol = get d (codes "encryption_protocol");
  encryption_cipher = get d (codes "encryption_cipher");
  encryption_keysize = get d (codes "encryption_keysize");
  etrn_domain = get d (codes "etrn_domain");
  stress = get d (codes "stress");
  sender = get d (codes "sender");
  recipient = get d (codes "recipient");
  recipient_count = get d (codes "recipient_count");
  helo_name = get d (codes "helo_name");
  policy_context = get d (codes "policy_context");
  server_address = get d (codes "server_address");
  server_name = get d (codes "server_name");
}

-- value or ""
abbrev pub or_empty : Option Text → Text
or_empty none = []
or_empty (some t) = t

-- The part after the `@` of a text that has exactly one.
abbrev pub second_of_two : List Text → Text
second_of_two (user ∷ domain ∷ []) = domain
second_of_two _ = []

domain_of : Option Text → Text
domain_of none = []
domain_of (some []) = []
domain_of (some (c ∷ s)) = second_of_two (split_on b'@' (c ∷ s))

unfoldable pub sender_domain : PolicyRequest → Text
unfolding domain_of
sender_domain r = domain_of r.sender

unfoldable pub recipient_domain : PolicyRequest → Text
unfolding domain_of
recipient_domain r = domain_of r.recipient

pub record PolicyResponse : Type 0 where
  pub action : Text
  pub message : Option Text

abbrev format_with : Text → Option Text → Text
format_with action none = codes "action=" ++ (action ++ codes "\n\n")
format_with action (some []) = codes "action=" ++ (action ++ codes "\n\n")
format_with action (some (c ∷ m)) =
    codes "action=" ++ (action ++ (codes " " ++ ((c ∷ m) ++ codes "\n\n")))

unfoldable pub format : PolicyResponse → Text
format r = format_with r.action r.message

unfoldable pub create_dunno : PolicyResponse
create_dunno = record { action = codes "DUNNO"; message = none }

unfoldable pub create_defer : Text → PolicyResponse
create_defer message = record { action = codes "DEFER"; message = some message }

unfoldable pub create_reject : Text → PolicyResponse
create_reject message = record { action = codes "REJECT"; message = some message }
