-- ===== src/Invoke/References.antt =====
-- The references to actions that step types declare (collect_declared_references of
-- src/kernel/invoke.rs). The resolver of step types and the two tests of what is registered are
-- functions that the caller passes.
use gwead.Prelude.{Bool, ◌||◌, Option, none, some, List, [], ◌∷◌, ◌++◌, if◌then◌else◌}
use gwead.Prelude.Outcome.{Result, ok, err, ◌>>=◌}
use gwead.Text.{Str, chars}
use gwead.Text.Affix.{starts_with}
use gwead.Json.{Value}
use gwead.Dag.Step.{StepDef}
use gwead.Invoke.{NodeRef, InvokeEdge}
use gwead.Invoke.Edges.{string_at}

-- the keys of a step's parameters that name a plugin and one of its actions
pub record StepReference : Type 0 where
  pub plugin : Str
  pub action : Str

pub data DeclaredReferenceError : Type 0 where
  unknown_plugin : Str → Str → Str → Str → DeclaredReferenceError
  unknown_action : Str → Str → Str → Str → Str → Str → DeclaredReferenceError

-- str::contains, of a string
unfoldable pub contains_str : Str → Str → Bool
contains_str part [] = starts_with part []
contains_str part (c ∷ s) = starts_with part (c ∷ s) || contains_str part s

unfoldable pub is_templated : Str → Bool
is_templated s = contains_str (chars "{{") s || starts_with (chars "$") s

abbrev pub literal_of : Option Str → Option Str → Option NodeRef
literal_of none a = none
literal_of (some p) none = none
literal_of (some p) (some a) = if is_templated p || is_templated a then none else some (p, a)

abbrev pub declared : Option (List StepReference) → List StepReference
declared none = []
declared (some rs) = rs

module _ {N : Type 0} where
  unfoldable pub literal_reference_target : Value N → StepReference → Option NodeRef
  literal_reference_target params reference =
      literal_of (string_at reference.plugin params) (string_at reference.action params)

  module _ (references : Str → Option (List StepReference)) (plugin_exists : Str → Bool)
      (action_exists : Str → Str → Bool) (plugin action_name : Str) where
    -- one reference of a step
    unfoldable pub check_target :
        StepDef N
        → StepReference
        → Option NodeRef
        → List InvokeEdge
        → Result DeclaredReferenceError (List InvokeEdge)
    check_target s reference none edges = ok edges
    check_target s reference (some (p, a)) edges =
        if plugin_exists p
        then (if action_exists p a
            then ok (edges ++ record { from = (plugin, action_name); to = (p, a) } ∷ [])
            else err (unknown_action action_name s.step_type p a reference.plugin reference.action))
        else err (unknown_plugin action_name s.step_type p reference.plugin)

    -- the loop over the references of a step
    unfoldable pub check_references :
        StepDef N
        → List StepReference
        → List InvokeEdge
        → Result DeclaredReferenceError (List InvokeEdge)
    check_references s [] edges = ok edges
    check_references s (r ∷ rs) edges =
        check_target s r (literal_reference_target s.params r) edges >>= λ edges'.
        check_references s rs edges'

    -- the loop over the steps
    unfoldable pub check_steps :
        List (StepDef N) → List InvokeEdge → Result DeclaredReferenceError (List InvokeEdge)
    check_steps [] edges = ok edges
    check_steps (s ∷ steps) edges =
        check_references s (declared (references s.step_type)) edges >>= λ edges'.
        check_steps steps edges'

    unfoldable pub collect_declared_references :
        List (StepDef N) → Result DeclaredReferenceError (List InvokeEdge)
    collect_declared_references steps = check_steps steps []
