-- ===== src/Dag/Tests.antt =====
-- Plans of small actions. Here a parameter string is a ref as a whole.
use gwead.Prelude.{In, ◌⊎◌, ◌↔◌}
use gwead.Dag.Inner.{Defines}
use gwead.Dag.Deps.{Mentions, extract_step_deps_iff}
use gwead.Prelude.{ℕ, ◌≡◌, refl, Bool, false, List, [], ◌∷◌, arith}
use gwead.Prelude.Outcome.{ok, err}
use gwead.Fault.{error}
use gwead.Text.{Str, chars, str_eq}
use gwead.Json.{Value, null, string, array, object, items, field, end, member}
use gwead.Dag.Step.{StepDef}
use gwead.Dag.Scan.{
  extract_step_deps, scan_value, collect_inner_step_ids, contains_unrooted_steps_template,
}
use gwead.Dag.{
  DagPlan, forward_ref, build_plan, index_ids, index_of, build_edges, resolve_refs, add_edge,
  has_index, layer_into_waves, drain, collect_wave, mark,
}
use gwead.Dag.Waves.{Runs, layer_into_waves-Runs}
use gwead.Dag.Build.{Planned, build_plan_total}

whole : Str → List Str
whole s = s ∷ []

nowhere : Str → Bool
nowhere s = false

abbrev step : Str → Value ℕ → List Str → StepDef ℕ
step id params depends_on = record {
  id = id;
  step_type = chars "let";
  params = params;
  depends_on = depends_on;
}

-- `join` reads `left` and `right`, which read `start`; `right` by `depends_on`.
abbrev diamond : List (StepDef ℕ)
diamond =
    step (chars "start") null []
    ∷ step (chars "left") (string (chars "start")) []
    ∷ step (chars "right") null (chars "start" ∷ [])
    ∷ step (chars "join") (array (items (string (chars "left") ∷ string (chars "right") ∷ []))) []
    ∷ []

abbrev diamond_plan : DagPlan
diamond_plan = record {
  waves = (0 ∷ []) ∷ (1 ∷ 2 ∷ []) ∷ (3 ∷ []) ∷ [];
  deps = [] ∷ (0 ∷ []) ∷ (0 ∷ []) ∷ (1 ∷ 2 ∷ []) ∷ [];
  consumers = (1 ∷ 2 ∷ []) ∷ (3 ∷ []) ∷ (3 ∷ []) ∷ [] ∷ [];
}

diamond_planned : build_plan whole nowhere diamond ≡ ok diamond_plan
unfolding build_plan index_ids index_of build_edges resolve_refs add_edge has_index layer_into_waves
    drain collect_wave mark extract_step_deps scan_value collect_inner_step_ids
    contains_unrooted_steps_template whole nowhere str_eq
diamond_planned = refl

-- a ref to a step of the action's own body is no dep
abbrev looping : StepDef ℕ
looping =
    step (chars "loop")
      (object (
        field (chars "steps")
          (array (
            items (
              object (
                field (chars "id") (string (chars "inner"))
                  (field (chars "params") (string (chars "inner")) end))
              ∷ [])))
          end))
      []

inner_scoped : extract_step_deps whole looping ≡ []
unfolding extract_step_deps scan_value collect_inner_step_ids whole str_eq member
inner_scoped = refl

forward :
    build_plan whole nowhere
      (step (chars "a") (string (chars "b")) [] ∷ step (chars "b") null [] ∷ [])
    ≡ err (error (forward_ref (chars "a") (chars "b")))
unfolding build_plan index_ids index_of build_edges resolve_refs add_edge has_index layer_into_waves
    drain collect_wave mark extract_step_deps scan_value collect_inner_step_ids
    contains_unrooted_steps_template whole nowhere str_eq
forward = refl

build_plan_total_example : Planned whole nowhere diamond (build_plan whole nowhere diamond)
build_plan_total_example = build_plan_total whole nowhere diamond

layer_into_waves-Runs_example :
    (ws : List (List ℕ)) × (layer_into_waves diamond_plan.deps diamond ≡ ok ws)
    × Runs 4 diamond_plan.deps [] ws
layer_into_waves-Runs_example = layer_into_waves-Runs diamond_plan.deps diamond (omega arith)

-- `left` is in `depends_on`, `start` in the parameters, and `inner` is a step of the body
abbrev reading : StepDef ℕ
reading =
    step (chars "each")
      (object (
        field (chars "list") (string (chars "start")) (
          field (chars "steps")
            (array (items (object (field (chars "id") (string (chars "inner")) end) ∷ []))) end)))
      (chars "left" ∷ [])

extract_step_deps_iff_example : In (chars "start") (extract_step_deps whole reading) ↔ (
    In (chars "start") reading.depends_on
    ⊎ (Mentions whole (chars "start") reading.params × (¬ Defines (chars "start") reading.params)))
extract_step_deps_iff_example = extract_step_deps_iff whole (chars "start") reading
