-- ===== src/Invoke/Edges.antt =====
-- The edges that an action declares (collect_edges of src/kernel/invoke.rs). `from_value` stands for
-- what serde derives for StepDef, with the text of its error; `aliases` for the resolver of aliases.
use gwead.Prelude.{
  ℕ, zero, suc, ◌+◌, Bool, false, ◌||◌, Option, none, some, List, [], ◌∷◌, ◌++◌, if◌then◌else◌,
}
use gwead.Prelude.Outcome.{Result, ok, err, ◌>>=◌}
use gwead.Fault.{Fault, error, out_of_fuel}
use gwead.Text.{Str, str_eq, chars}
use gwead.Json.{
  Value, Items, null, bool, number, string, array, object, nil, cons, elements, get, as_array,
  as_str,
}
use gwead.Json.Size.{size, array_at}
use gwead.Dag.Step.{StepDef}
use gwead.Invoke.{NodeRef, InvokeEdge, InvokeCycleError, malformed_inner_step}

abbrev kind_of : {N : Type 0} → Value N → Str
kind_of null = chars "null"
kind_of (bool b) = chars "a boolean"
kind_of (number n) = chars "a number"
kind_of (string s) = chars "a string"
kind_of (array vs) = chars "an array"
kind_of (object fs) = chars "an object"

abbrev pub step_types_with_inner_steps : List Str
step_types_with_inner_steps =
    chars "for_each" ∷ chars "repeat" ∷ chars "ifs" ∷ chars "try" ∷ chars "parallel" ∷ []

unfoldable pub one_of : Str → List Str → Bool
one_of s [] = false
one_of s (t ∷ ts) = str_eq s t || one_of s ts

abbrev pub push_some : {A : Type 0} → Option A → List A → List A
push_some none xs = xs
push_some (some x) xs = x ∷ xs

module _ {N : Type 0} where
  abbrev pub string_at : Str → Value N → Option Str
  string_at k v = elim (get k v) [ none ↦ none | some w ↦ as_str w ]

  -- the target of an `invoke` step that names a plugin and an action
  unfoldable pub invoke_target : Value N → Option NodeRef
  invoke_target params = elim (string_at (chars "plugin") params) [
    | none ↦ none
    | some p ↦ elim (string_at (chars "action") params) [ none ↦ none | some a ↦ some (p, a) ]
  ]

  -- the arrays `then` of the branches, and the branches that are arrays
  unfoldable pub thens : Items N → List (Items N)
  thens nil = []
  thens (cons branch rest) = push_some (array_at (chars "then") branch) (thens rest)

  unfoldable pub arrays : Items N → List (Items N)
  arrays nil = []
  arrays (cons branch rest) = push_some (as_array branch) (arrays rest)

  abbrev pub under : (Items N → List (Items N)) → Option (Items N) → List (Items N)
  under f none = []
  under f (some vs) = f vs

  -- The arrays of inner steps that are walked, in order; `none` where the step goes on to the aliases.
  unfoldable pub bodies : Str → Value N → Option (List (Items N))
  bodies step_type params =
      if one_of step_type step_types_with_inner_steps
      then (if str_eq step_type (chars "ifs")
          then some (under thens (array_at (chars "ifs") params))
          else if str_eq step_type (chars "try")
          then some (
              push_some (array_at (chars "try") params) (
                push_some (array_at (chars "catch") params)
                  (push_some (array_at (chars "finally") params) [])))
          else if str_eq step_type (chars "parallel")
          then some (under arrays (array_at (chars "branches") params))
          else elim (array_at (chars "steps") params) [
            | none ↦ none
            | some inner ↦ some (inner ∷ [])
          ])
      else none

module _ {N : Type 0} (from_value : Value N → Result Str (StepDef N)) where
  -- StepDef::from_inner_value (src/kernel/types.rs)
  unfoldable pub from_inner_value : Value N → Result Str (StepDef N)
  from_inner_value (object fs) = from_value (object fs)
  from_inner_value v =
      err (chars "a step must be an object with `id` and `type`, got " ++ kind_of v)

  module _ (aliases : Str → Option NodeRef) (plugin action_name : Str) where
    -- the loop of walk_inner_array that parses an array
    unfoldable pub parse_steps :
        Str → List (Value N) → Result (Fault InvokeCycleError) (List (StepDef N))
    parse_steps step_type [] = ok []
    parse_steps step_type (v ∷ vs) = elim (from_inner_value v) [
      | err e ↦ err (error (malformed_inner_step action_name step_type e))
      | ok s ↦ parse_steps step_type vs >>= λ rest. ok (s ∷ rest)
    ]

    abbrev pub push_target : Option NodeRef → List InvokeEdge → List InvokeEdge
    push_target none out = out
    push_target (some to) out = out ++ record { from = (plugin, action_name); to = to } ∷ []

    -- the loops of collect_from_steps and walk_inner_array, over what is done with a step
    unfoldable pub collect_each :
        (StepDef N → List InvokeEdge → Result (Fault InvokeCycleError) (List InvokeEdge))
        → List (StepDef N)
        → List InvokeEdge
        → Result (Fault InvokeCycleError) (List InvokeEdge)
    collect_each f [] out = ok out
    collect_each f (s ∷ steps) out = f s out >>= λ out'. collect_each f steps out'

    unfoldable pub walk_inner_arrays :
        (StepDef N → List InvokeEdge → Result (Fault InvokeCycleError) (List InvokeEdge))
        → Str
        → List (Items N)
        → List InvokeEdge
        → Result (Fault InvokeCycleError) (List InvokeEdge)
    walk_inner_arrays f step_type [] out = ok out
    walk_inner_arrays f step_type (vs ∷ rest) out = parse_steps step_type (elements vs) >>= λ steps.
        collect_each f steps out >>= λ out'. walk_inner_arrays f step_type rest out'

    -- a step in the loop of collect_from_steps, for bodies nested up to `fuel` deep
    unfoldable pub collect_step :
        ℕ → StepDef N → List InvokeEdge → Result (Fault InvokeCycleError) (List InvokeEdge)
    collect_step zero s out = err out_of_fuel
    collect_step (suc fuel) s out =
        if str_eq s.step_type (chars "invoke")
        then ok (push_target (invoke_target s.params) out)
        else elim (bodies s.step_type s.params) [
          | none ↦ ok (push_target (aliases s.step_type) out)
          | some inner ↦ walk_inner_arrays (collect_step fuel) s.step_type inner out
        ]

    abbrev pub collect_from_steps :
        ℕ → List (StepDef N) → List InvokeEdge → Result (Fault InvokeCycleError) (List InvokeEdge)
    collect_from_steps fuel steps out = collect_each (collect_step fuel) steps out

    -- The size of the parameters bounds how deep bodies nest.
    unfoldable pub depth : List (StepDef N) → ℕ
    depth [] = 1
    depth (s ∷ steps) = size s.params + depth steps

    -- collect_edges
    unfoldable pub collect_edges :
        List (StepDef N) → Result (Fault InvokeCycleError) (List InvokeEdge)
    collect_edges steps = collect_from_steps (depth steps) steps []
