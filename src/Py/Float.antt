-- ===== src/Py/Float.antt =====
-- What the program uses of Python's `float`. There are no floats here: the type and its operations
-- are a parameter, and no law of them is assumed unless a theorem names it.
use mac_llm_ops_lab.Prelude.{
  String, Option, none, some, ◌==◌, string_eq, ℕ, ◌+◌, ◌*◌, ◌/◌, ◌^◌, Bool, ltb, if◌then◌else◌,
}

pub record FloatOps : Type 1 where
  pub Float : Type 0
  -- `decimal m e` is the literal m / 10 ^ e.
  pub decimal : ℕ → ℕ → Float
  pub add : Float → Float → Float
  -- `a < b`
  pub lt : Float → Float → Bool
  -- `round(a, 3)`
  pub round3 : Float → Float
  -- `float(s)`, with `none` where it raises `ValueError`
  pub parse : String → Option Float

module _ (F : FloatOps) where
  open F use {Float, lt}

  -- `max(a, b)` keeps `a` unless `b > a`.
  abbrev pub max_float : Float → Float → Float
  max_float a b = if lt a b then b else a

-- Whole thousandths as floats: an instance on which the definitions run.
abbrev pub milli : FloatOps
milli = record {
  Float = ℕ;
  decimal = λ m e. m * 1000 / 10 ^ e;
  add = λ a b. a + b;
  lt = ltb;
  round3 = λ a. a;
  parse = λ s. if s == "1.5" then some 1500 else none;
}
