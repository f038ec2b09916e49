-- ===== src/Dsl/Float.antt =====
-- `f64` is not the repository's, and no more are the JSON numbers of serde_json: what the code does
-- with them are the fields of this record, which every definition over them takes.
use gwead.Prelude.{ℕ, Bool, Option, List}

pub record F64 : Type 1 where
  pub Float : Type 0
  -- serde_json::Number
  pub Number : Type 0
  -- str::parse::<f64>
  pub parse : List ℕ → Option Float
  -- `n < 0.0`, `n.fract() != 0.0`, `n != 0.0` and `n as usize`
  pub is_negative : Float → Bool
  pub has_fract : Float → Bool
  pub is_nonzero : Float → Bool
  pub to_usize : Float → ℕ
  -- `a == b`, `a < b` and `a <= b`
  pub float_eq : Float → Float → Bool
  pub float_lt : Float → Float → Bool
  pub float_le : Float → Float → Bool
  -- `n.is_finite()`, `n >= i64::MIN as f64` and `n <= i64::MAX as f64`
  pub is_finite : Float → Bool
  pub from_i64_min : Float → Bool
  pub to_i64_max : Float → Bool
  -- `Number::from(n as i64)`, `Number::from_f64`, `Number::as_f64` and `==` on numbers
  pub int_number : Float → Number
  pub from_f64 : Float → Option Number
  pub as_f64 : Number → Option Float
  pub number_eq : Number → Number → Bool
