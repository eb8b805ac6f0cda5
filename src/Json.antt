-- ===== src/Json.antt =====
-- JSON values, as `json.dumps` takes them and `json.loads` returns them. The text form is a
-- parameter.
use policyd_py.Base.{ℕ, Bool, Option, none, some, if◌then◌else◌, Text, text_eq}

mutual
  pub data Json (Float : Type 0) : Type 0 where
    null : Json Float
    bool : Bool → Json Float
    int : ℕ → Json Float
    float : Float → Json Float
    text : Text → Json Float
    list : Items Float → Json Float
    object : Fields Float → Json Float

  pub data Items (Float : Type 0) : Type 0 where
    nil : Items Float
    cons : Json Float → Items Float → Items Float

  pub data Fields (Float : Type 0) : Type 0 where
    end : Fields Float
    field : Text → Json Float → Fields Float → Fields Float

-- data.get(key)
unfoldable pub member : {Float : Type 0} → Text → Fields Float → Option (Json Float)
member k end = none
member k (field j v fs) = let rest = member k fs in if text_eq j k then some v else rest

pub record Codec (Float : Type 0) : Type 0 where
  pub dumps : Json Float → Text
  pub loads : Text → Option (Json Float)
