-- ===== src/Dag/Step.antt =====
-- The fields of `StepDef` (src/kernel/types.rs) that the graph is built from.
use gwead.Prelude.{List}
use gwead.Text.{Str}
use gwead.Json.{Value}

pub record StepDef (N : Type 0) : Type 0 where
  pub id : Str
  pub step_type : Str
  pub params : Value N
  pub depends_on : List Str
