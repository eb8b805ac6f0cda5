-- ===== src/Handler/Events.antt =====
-- The events and the lock metadata that policyd_py/policy/handler.py keeps in Redis as JSON.
use policyd_py.Base.{
  ℕ, ◌≡◌, refl, Bool, false, Option, none, some, List, [], ◌∷◌, Text, codes, lower, text_eq,
  value_error, Outcome, returned, raised,
}
use policyd_py.Floats.{Floats}
use policyd_py.Config.{RateLimit, token_bucket}
use policyd_py.Json.{
  Json, Items, Fields, null, bool, int, float, text, list, object, nil, cons, end, field, member,
}

pub record BackgroundEvent (Float : Type 0) : Type 0 where
  pub kind : Text
  pub email : Text
  pub selector : Text
  pub message : Text
  pub local_sender : Bool
  pub limits : Option (List (RateLimit Float))

module _ (F : Floats) where
  open F use {Float, zero_float, of_ℕ}

  -- limit.model_dump()
  unfoldable pub model_dump : RateLimit Float → Json Float
  model_dump limit = object (
      field (codes "count") (int limit.count) (
        field (codes "duration") (int limit.duration) (
          field (codes "refill_rate") (float limit.refill_rate) (
            field (codes "algorithm") (text limit.algorithm)
              (field (codes "unlimited") (bool limit.unlimited) end)))))

  unfoldable pub dump_limits : List (RateLimit Float) → Items Float
  unfolding model_dump
  dump_limits [] = nil
  dump_limits (limit ∷ limits) = cons (model_dump limit) (dump_limits limits)

  -- RateLimit(**item): a field that is not there has its default; one of another type is refused.
  int_or : ℕ → Option (Json Float) → Option ℕ
  int_or default none = some default
  int_or default (some (int n)) = some n
  int_or default (some j) = none

  float_or : Float → Option (Json Float) → Option Float
  float_or default none = some default
  float_or default (some (float x)) = some x
  float_or default (some (int n)) = some (of_ℕ n)
  float_or default (some j) = none

  text_or : Text → Option (Json Float) → Option Text
  text_or default none = some default
  text_or default (some (text t)) = some t
  text_or default (some j) = none

  bool_or : Bool → Option (Json Float) → Option Bool
  bool_or default none = some default
  bool_or default (some (bool b)) = some b
  bool_or default (some j) = none

  abbrev refused : {A : Type 0} → Outcome A
  refused = raised (value_error (codes "validation error for RateLimit"))

  build_limit :
      Option ℕ → Option ℕ → Option Float → Option Text → Option Bool → Outcome (RateLimit Float)
  build_limit (some n) (some d) (some r) (some a) (some u) =
      returned (record { count = n; duration = d; refill_rate = r; algorithm = a; unlimited = u })
  build_limit _ _ _ _ _ = refused

  unfoldable pub load_limit : Fields Float → Outcome (RateLimit Float)
  unfolding int_or float_or text_or bool_or build_limit member
  load_limit fs =
      build_limit (int_or 0 (member (codes "count") fs)) (int_or 0 (member (codes "duration") fs))
        (float_or zero_float (member (codes "refill_rate") fs))
        (text_or token_bucket (member (codes "algorithm") fs))
        (bool_or false (member (codes "unlimited") fs))

  abbrev cons_outcome :
      Outcome (RateLimit Float)
      → Outcome (List (RateLimit Float))
      → Outcome (List (RateLimit Float))
  cons_outcome (raised e) rest = raised e
  cons_outcome (returned limit) (raised e) = raised e
  cons_outcome (returned limit) (returned limits) = returned (limit ∷ limits)

  -- The loop of `_limits_from_metadata`: what is no object is skipped.
  unfoldable pub load_limits : Items Float → Outcome (List (RateLimit Float))
  unfolding load_limit
  load_limits nil = returned []
  load_limits (cons (object fs) items) = cons_outcome (load_limit fs) (load_limits items)
  load_limits (cons j items) = load_limits items

  -- `limits or None`
  abbrev pub nonempty : List (RateLimit Float) → Option (List (RateLimit Float))
  nonempty [] = none
  nonempty (limit ∷ limits) = some (limit ∷ limits)

  abbrev nonempty_outcome :
      Outcome (List (RateLimit Float)) → Outcome (Option (List (RateLimit Float)))
  nonempty_outcome (raised e) = raised e
  nonempty_outcome (returned limits) = returned (nonempty limits)

  abbrev limits_of_member : Option (Json Float) → Outcome (Option (List (RateLimit Float)))
  limits_of_member (some (list items)) = nonempty_outcome (load_limits items)
  limits_of_member _ = returned none

  -- `_limits_from_metadata`
  unfoldable pub limits_from_metadata :
      Option (Fields Float) → Outcome (Option (List (RateLimit Float)))
  unfolding load_limits member
  limits_from_metadata none = returned none
  limits_from_metadata (some metadata) = limits_of_member (member (codes "limits") metadata)

  -- The payload of `_store_lock_metadata`, with the limits already chosen.
  unfoldable pub lock_metadata : Text → List (RateLimit Float) → Fields Float
  unfolding dump_limits
  lock_metadata selector limits =
      field (codes "selector") (text (lower selector))
        (field (codes "limits") (list (dump_limits limits)) end)

  abbrev dump_event_limits : Option (List (RateLimit Float)) → Json Float
  dump_event_limits none = null
  dump_event_limits (some []) = null
  dump_event_limits (some (limit ∷ limits)) = list (dump_limits (limit ∷ limits))

  -- `_BackgroundEvent.to_dict`
  unfoldable pub to_dict : BackgroundEvent Float → Fields Float
  unfolding dump_limits
  to_dict e = field (codes "kind") (text e.kind) (
      field (codes "email") (text e.email) (
        field (codes "selector") (text e.selector) (
          field (codes "message") (text e.message) (
            field (codes "local_sender") (bool e.local_sender)
              (field (codes "limits") (dump_event_limits e.limits) end)))))

  -- The list comprehension of `from_dict`: an item that is no object is refused.
  unfoldable pub load_event_limits : Items Float → Outcome (List (RateLimit Float))
  unfolding load_limit
  load_event_limits nil = returned []
  load_event_limits (cons (object fs) items) =
      cons_outcome (load_limit fs) (load_event_limits items)
  load_event_limits (cons j items) = refused

  abbrev event_limits : Option (Json Float) → Outcome (Option (List (RateLimit Float)))
  event_limits (some (list items)) = nonempty_outcome (load_event_limits items)
  event_limits (some null) = returned none
  event_limits none = returned none
  event_limits (some j) = refused

  build_event :
      Option Text
      → Option Text
      → Option Text
      → Option Text
      → Option Bool
      → Outcome (Option (List (RateLimit Float)))
      → Outcome (BackgroundEvent Float)
  build_event (some k) (some e) (some s) (some m) (some l) (returned limits) =
      returned (record {
        kind = k;
        email = e;
        selector = s;
        message = m;
        local_sender = l;
        limits = limits;
      })
  build_event _ _ _ _ _ _ = raised (value_error (codes "not an event"))

  -- `_BackgroundEvent.from_dict`. A value of another type than the field's, which the program never
  -- writes, is refused.
  unfoldable pub from_dict : Fields Float → Outcome (BackgroundEvent Float)
  unfolding text_or bool_or build_event load_event_limits member
  from_dict fs =
      build_event (text_or [] (member (codes "kind") fs)) (text_or [] (member (codes "email") fs))
        (text_or [] (member (codes "selector") fs)) (text_or [] (member (codes "message") fs))
        (bool_or false (member (codes "local_sender") fs))
        (event_limits (member (codes "limits") fs))

  load_limits-dump :
      (limits : List (RateLimit Float)) → load_limits (dump_limits limits) ≡ returned limits
  unfolding load_limits dump_limits text_eq
  load_limits-dump [] = refl
  load_limits-dump (limit ∷ limits) = rw (load_limits-dump limits) refl

  load_event_limits-dump :
      (limits : List (RateLimit Float)) → load_event_limits (dump_limits limits) ≡ returned limits
  unfolding load_event_limits dump_limits text_eq
  load_event_limits-dump [] = refl
  load_event_limits-dump (limit ∷ limits) = rw (load_event_limits-dump limits) refl

  -- An empty list of limits is written as none.
  abbrev pub without_empty : Option (List (RateLimit Float)) → Option (List (RateLimit Float))
  without_empty none = none
  without_empty (some limits) = nonempty limits

  event_limits-dump :
      (l : Option (List (RateLimit Float)))
      → event_limits (some (dump_event_limits l)) ≡ returned (without_empty l)
  event_limits-dump none = refl
  event_limits-dump (some []) = refl
  event_limits-dump (some (limit ∷ limits)) = rw (load_event_limits-dump (limit ∷ limits)) refl

  -- An event that a background worker reads back from its JSON form is the event that was enqueued,
  -- but for an empty list of limits, which comes back as none.
  pub from_dict-to_dict :
      (e : BackgroundEvent Float)
      → from_dict (to_dict e) ≡ returned (record e { limits = without_empty e.limits })
  unfolding from_dict to_dict text_eq
  from_dict-to_dict e = rw (event_limits-dump e.limits) refl

  -- The limits of the lock metadata that is stored are those that are read back from it.
  pub metadata_roundtrip :
      (selector : Text) (limits : List (RateLimit Float))
      → limits_from_metadata (some (lock_metadata selector limits)) ≡ returned (nonempty limits)
  unfolding limits_from_metadata lock_metadata text_eq
  metadata_roundtrip selector limits = rw (load_limits-dump limits) refl
