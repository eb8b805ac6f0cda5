-- ===== src/Floats.antt =====
-- Floating point numbers are not defined by the program: their type and the operations that the
-- program makes are a parameter of the modules that compute with them.
use policyd_py.Base.{ℕ, Bool, Option, Text, Outcome}

pub record Floats : Type 1 where
  pub Float : Type 0
  pub zero_float : Float
  pub one_float : Float
  pub of_ℕ : ℕ → Float
  pub plus : Float → Float → Float
  pub minus : Float → Float → Float
  pub times : Float → Float → Float
  pub over : Float → Float → Float
  -- a < b
  pub less : Float → Float → Bool
  -- int(math.ceil(x)), and 0 where that is negative; it raises for an infinity and for what is no number
  pub ceiling : Float → Outcome ℕ
  -- int(x), and 0 where that is negative; it raises like the one before
  pub truncate : Float → Outcome ℕ
  -- math.isclose(x, 1.0, rel_tol=1e-9, abs_tol=1e-9)
  pub is_close_to_one : Float → Bool
  -- float(text), which may raise
  pub of_text : Text → Option Float
  -- f"{x:.4f}"
  pub to_text : Float → Text
