-- ===== src/Invoke/Tests.antt =====
-- Small graphs of invocations, and the steps and references that they come from.
use Prim.Native.String.{String}
use gwead.Prelude.{◌≡◌, refl, List, [], ◌∷◌}
use gwead.Prelude.Outcome.{ok, err}
use gwead.Fault.{error}
use gwead.Text.{chars, str_eq}
use gwead.Invoke.{
  NodeRef, InvokeEdge, cycle, node_eq, push_edge, fill, neighbours, color_of, bottom_up, from_first,
  dfs, nodes, work, dfs_find_cycle, check_from, check_acyclic,
}
use gwead.Text.{Str}
use gwead.Prelude.{ℕ, ◌<◌, Option, none, some, inl, inr, ap, arith, Option-cases, if◌then◌else◌}
use gwead.Prelude.Outcome.{Result}
use gwead.Json.{
  Value, null, bool, number, string, array, object, nil, field, end, items, get, member,
}
use gwead.Json.Size.{size, sizes, field_sizes, array_at, member-size}
use gwead.Dag.Step.{StepDef}
use gwead.Invoke.Edges.{
  from_inner_value, collect_edges, depth, collect_each, collect_step, walk_inner_arrays,
  parse_steps, bodies, one_of, invoke_target,
}
use gwead.Prelude.{map, All, Bool, true}
use gwead.Text.Affix.{starts_with, strip_prefix}
use gwead.Invoke.References.{
  StepReference, DeclaredReferenceError, unknown_plugin, collect_declared_references, check_steps,
  check_references, check_target, literal_reference_target, is_templated, contains_str,
}
use gwead.Invoke.Declared.{edge_to, IsKnown, collect_declared_references_iff}
use gwead.Invoke.Literal.{NamesInSteps}
use gwead.Invoke.Collects.{Collected, collect_edges-Emits}
use gwead.Invoke.Walks.{IsCycle, Invokes}
use gwead.Invoke.Acyclic.{check_acyclic_iff}
use gwead.Prelude.{◌⊎◌, ◌++◌}

abbrev node : String → NodeRef
node name = (chars name, chars "run")

abbrev edge : String → String → InvokeEdge
edge a b = record { from = node a; to = node b }

abbrev as_listed : List NodeRef → List NodeRef
as_listed ns = ns

-- `a` invokes `b` and `c`, which both invoke `d`
abbrev diamond : List InvokeEdge
diamond = edge "a" "b" ∷ edge "a" "c" ∷ edge "b" "d" ∷ edge "c" "d" ∷ []

-- and `d` invokes `b`
abbrev back : List InvokeEdge
back = edge "d" "b" ∷ []

diamond_accepted : check_acyclic as_listed diamond [] ≡ ok tt
unfolding check_acyclic fill push_edge node_eq str_eq check_from color_of dfs_find_cycle dfs
    neighbours nodes work
diamond_accepted = refl

back_refused :
    check_acyclic as_listed diamond back ≡ err (error (cycle (node "b" ∷ node "d" ∷ node "b" ∷ [])))
unfolding check_acyclic fill push_edge node_eq str_eq check_from color_of dfs_find_cycle dfs
    neighbours nodes work bottom_up from_first
back_refused = refl

self_refused :
    check_acyclic as_listed [] (edge "a" "a" ∷ []) ≡ err (error (cycle (node "a" ∷ node "a" ∷ [])))
unfolding check_acyclic fill push_edge node_eq str_eq check_from color_of dfs_find_cycle dfs
    neighbours nodes work bottom_up from_first
self_refused = refl

check_acyclic_iff_example :
    ((check_acyclic as_listed diamond back ≡ ok tt)
      × ((ns : List NodeRef) → ¬ IsCycle (Invokes (diamond ++ back)) ns))
    ⊎ ((ns : List NodeRef) × (check_acyclic as_listed diamond back ≡ err (error (cycle ns)))
        × IsCycle (Invokes (diamond ++ back)) ns)
check_acyclic_iff_example = check_acyclic_iff as_listed (λ ns n. (λ h. h, λ h. h)) diamond back

-- A parser of steps that insists on parameters, for the tests.
abbrev type_of : Option (Value ℕ) → Str
type_of (some (string t)) = t
type_of _ = chars "let"

abbrev parse_step : Value ℕ → Result Str (StepDef ℕ)
parse_step v = elim (get (chars "params") v) [
  | none ↦ err (chars "missing field `params`")
  | some p ↦ ok (record {
    id = chars "s";
    step_type = type_of (get (chars "type") v);
    params = p;
    depends_on = [];
  })
]

ok-params : (s t : StepDef ℕ) → ◌≡◌ {A = Result Str (StepDef ℕ)} (ok s) (ok t) → s.params ≡ t.params
ok-params s t e = let same : s ≡ t = cc e in ap (λ x. x.params) same

parse_step-smaller :
    (v : Value ℕ) (s : StepDef ℕ) → from_inner_value parse_step v ≡ ok s → size s.params < size v
unfolding from_inner_value size
parse_step-smaller (object fs) s e = elim (Option-cases (member (chars "params") fs)) [
  | inl f ↦ cc (rw (f, parse_step) at e)
  | inr (p, f) ↦
      let same : p ≡ s.params = ok-params _ s (rw (f, parse_step) at e) in
      omega (arith, ap size same, member-size (chars "params") fs p f)
]
parse_step-smaller null s e = cc e
parse_step-smaller (bool b) s e = cc e
parse_step-smaller (number n) s e = cc e
parse_step-smaller (string t) s e = cc e
parse_step-smaller (array vs) s e = cc e

no_alias : Str → Option NodeRef
no_alias s = if str_eq s (chars "fetch") then some (node "http") else none

abbrev call : String → Value ℕ
call name = object (
    field (chars "type") (string (chars "invoke")) (
      field (chars "params")
        (object (
          field (chars "plugin") (string (chars name))
            (field (chars "action") (string (chars "run")) end)))
        end))

-- a loop whose body tries an invocation, and an alias
abbrev body : Value ℕ
body = object (
    field (chars "type") (string (chars "try")) (
      field (chars "params")
        (object (
          field (chars "try") (array (items (call "b" ∷ [])))
            (field (chars "catch") (array nil) end)))
        end))

abbrev steps : List (StepDef ℕ)
steps =
    record {
      id = chars "loop";
      step_type = chars "repeat";
      params = object (field (chars "steps") (array (items (body ∷ []))) end);
      depends_on = [];
    }
    ∷ record { id = chars "get"; step_type = chars "fetch"; params = object end; depends_on = [] }
    ∷ []

edges_collected :
    collect_edges parse_step no_alias (chars "a") (chars "run") steps
    ≡ ok (edge "a" "b" ∷ edge "a" "http" ∷ [])
unfolding collect_edges depth size sizes field_sizes collect_each collect_step walk_inner_arrays
    parse_steps from_inner_value bodies one_of str_eq invoke_target array_at member no_alias
edges_collected = refl

collect_edges-Emits_example :
    Collected parse_step no_alias
      (chars "a")
      (chars "run")
      parse_step-smaller
      steps
      (collect_edges parse_step no_alias (chars "a") (chars "run") steps)
collect_edges-Emits_example =
    collect_edges-Emits parse_step no_alias (chars "a") (chars "run") parse_step-smaller steps

-- A step type with one reference, to the plugin under `plugin` and the action under `action`.
one_reference : Str → Option (List StepReference)
one_reference s =
    if str_eq s (chars "delegate")
    then some (record { plugin = chars "plugin"; action = chars "action" } ∷ [])
    else none

abbrev delegate : String → StepDef ℕ
delegate name = record {
  id = chars "d";
  step_type = chars "delegate";
  params = object (
      field (chars "plugin") (string (chars name))
        (field (chars "action") (string (chars "run")) end));
  depends_on = [];
}

only_b : Str → Bool
only_b s = str_eq s (chars "b")

any_action : Str → Str → Bool
any_action p a = true

-- a target in braces is not literal
references_checked :
    (collect_declared_references one_reference only_b any_action
        (chars "a")
        (chars "run")
        (delegate "b" ∷ delegate "x{{y}}" ∷ [])
      ≡ ok (edge "a" "b" ∷ []))
    × (collect_declared_references one_reference only_b any_action
          (chars "a")
          (chars "run")
          (delegate "c" ∷ [])
        ≡ err (unknown_plugin (chars "run") (chars "delegate") (chars "c") (chars "plugin")))
unfolding collect_declared_references check_steps check_references check_target
    literal_reference_target is_templated contains_str one_reference only_b any_action str_eq member
    starts_with strip_prefix
references_checked = (refl, refl)

collect_declared_references_iff_example :
    (ts : List NodeRef) × NamesInSteps one_reference (delegate "b" ∷ delegate "x{{y}}" ∷ []) ts
    × (let out =
          collect_declared_references one_reference only_b any_action
            (chars "a")
            (chars "run")
            (delegate "b" ∷ delegate "x{{y}}" ∷ []) in
        ((out ≡ ok (map (edge_to only_b any_action (chars "a") (chars "run")) ts))
          × All (IsKnown only_b any_action (chars "a") (chars "run")) ts)
        ⊎ ((e : DeclaredReferenceError) × (out ≡ err e)
            × (¬ All (IsKnown only_b any_action (chars "a") (chars "run")) ts)))
collect_declared_references_iff_example =
    collect_declared_references_iff one_reference only_b any_action (chars "a") (chars "run")
      (delegate "b" ∷ delegate "x{{y}}" ∷ [])
