-- ===== src/Dag.antt =====
-- src/kernel/dag.rs: the dependency graph of an action's steps and its waves. The `regex` crate is
-- not the repository's: what its two patterns find in a string are parameters, `refs` for the step
-- ids that DSL_REF_RE captures and `is_unrooted` for a match of UNROOTED_TMPL_RE.
pub mod Step
pub mod Scan
pub mod Inner
pub mod Collected
pub mod Deps
pub mod Links
pub mod Flags
pub mod Waves
pub mod Plan
pub mod Build
pub mod Tests
use Scan.{contains_unrooted_steps_template, extract_step_deps}
use gwead.Prelude.{
  ℕ, zero, suc, ◌+◌, ◌-◌, Bool, true, false, ◌&&◌, ◌||◌, Option, none, some, List, [], ◌∷◌, ◌++◌,
  ltb, ◌==◌, if◌then◌else◌, length, get_or, set, replicate, all,
}
use gwead.Prelude.Outcome.{Result, ok, err, ◌>>=◌}
use gwead.Text.{Str, str_eq}
use gwead.Fault.{Fault, error, out_of_fuel}
use Step.{StepDef}

-- the steps whose ids a `Cycle` error joins with ", " stand as a list
pub data DagError : Type 0 where
  duplicate_step_id self_ref unrooted_steps_reference : Str → DagError
  unknown_step_ref forward_ref : Str → Str → DagError
  cycle : List Str → DagError

pub record DagPlan : Type 0 where
  pub waves : List (List ℕ)
  pub deps : List (List ℕ)
  pub consumers : List (List ℕ)

-- DagPlan::step_count and DagPlan::is_linear
unfoldable pub step_count : DagPlan → ℕ
step_count plan = length plan.deps

unfoldable pub is_linear : DagPlan → Bool
is_linear plan = all (λ w. length w == 1) plan.waves

-- `id_to_index.get`, on the entries of the map
unfoldable pub index_of : Str → List (Str × ℕ) → Option ℕ
index_of id [] = none
index_of id ((key, i) ∷ rest) = if str_eq key id then some i else index_of id rest

unfoldable pub has_index : ℕ → List ℕ → Bool
has_index i [] = false
has_index i (j ∷ js) = i == j || has_index i js

-- `v[i].push(x)`
unfoldable pub push_at : List (List ℕ) → ℕ → ℕ → List (List ℕ)
push_at [] i x = []
push_at (xs ∷ rest) zero x = (xs ++ x ∷ []) ∷ rest
push_at (xs ∷ rest) (suc i) x = xs ∷ push_at rest i x

-- the vectors `deps` and `consumers` of build_plan
pub record Edges : Type 0 where
  pub deps : List (List ℕ)
  pub consumers : List (List ℕ)

-- an edge from step `i` to the step `target` that it reads
unfoldable pub add_edge : ℕ → ℕ → Edges → Edges
unfolding push_at
add_edge i target e = record {
  deps = push_at e.deps i target;
  consumers = push_at e.consumers target i;
}

module _ {N : Type 0} where
  -- the loop that fills `id_to_index`
  unfoldable pub index_ids :
      ℕ → List (StepDef N) → List (Str × ℕ) → Result DagError (List (Str × ℕ))
  index_ids i [] map = ok map
  index_ids i (step ∷ steps) map = elim (index_of step.id map) [
    | some j ↦ err (duplicate_step_id step.id)
    | none ↦ index_ids (suc i) steps ((step.id, i) ∷ map)
  ]

-- the loop over the refs of step `i`, whose id is `id`; `seen` are the targets met so far
unfoldable pub resolve_refs :
    Str → ℕ → List (Str × ℕ) → List Str → List ℕ → Edges → Result DagError Edges
resolve_refs id i map [] seen e = ok e
resolve_refs id i map (ref_id ∷ rest) seen e =
    if str_eq ref_id id then err (self_ref id) else (elim (index_of ref_id map) [
      | none ↦ err (unknown_step_ref id ref_id)
      | some target ↦
          if ltb i target
          then err (forward_ref id ref_id)
          else resolve_refs id i map rest (target ∷ seen)
              (if has_index target seen then e else add_edge i target e)
    ])

module _ {N : Type 0} (refs : Str → List Str) (is_unrooted : Str → Bool) where
  -- the loop over the steps, from step `i` on
  unfoldable pub build_edges : ℕ → List (Str × ℕ) → List (StepDef N) → Edges → Result DagError Edges
  build_edges i map [] e = ok e
  build_edges i map (step ∷ steps) e =
      if contains_unrooted_steps_template is_unrooted step.params
      then err (unrooted_steps_reference step.id)
      else (resolve_refs step.id i map (extract_step_deps refs step) [] e >>= λ e'.
          build_edges (suc i) map steps e')

-- the loop of layer_into_waves that collects a wave, from step `i` on
unfoldable pub collect_wave : ℕ → List (List ℕ) → List Bool → List ℕ
collect_wave i [] scheduled = []
collect_wave i (step_deps ∷ rest) scheduled =
    let later = collect_wave (suc i) rest scheduled in
    if get_or scheduled i false
    then later
    else if all (λ d. get_or scheduled d false) step_deps
    then i ∷ later
    else later

-- `for &i in &wave { scheduled[i] = true; }`
unfoldable pub mark : List ℕ → List Bool → List Bool
mark [] scheduled = scheduled
mark (i ∷ wave) scheduled = mark wave (set scheduled i true)

-- the ids of the steps not scheduled, from step `i` on
unfoldable pub stuck : {N : Type 0} → ℕ → List (StepDef N) → List Bool → List Str
stuck i [] scheduled = []
stuck i (step ∷ steps) scheduled =
    let later = stuck (suc i) steps scheduled in
    if get_or scheduled i false then later else step.id ∷ later

-- `if wave.is_empty() { return Err(…) }`, and what follows it
abbrev pub next_wave : {A : Type 0} → A → (List ℕ → A) → List ℕ → A
next_wave none_ready continue [] = none_ready
next_wave none_ready continue (i ∷ is) = continue (i ∷ is)

-- The loop `while remaining > 0`, for `fuel` rounds at most. An index out of range would panic: see
-- Dag/Build.antt, where every dep is an earlier step.
unfoldable pub drain :
    {N : Type 0}
    → ℕ
    → List (List ℕ)
    → List (StepDef N)
    → List Bool
    → ℕ
    → Result (Fault DagError) (List (List ℕ))
drain fuel deps steps scheduled zero = ok []
drain zero deps steps scheduled (suc remaining) = err out_of_fuel
drain (suc fuel) deps steps scheduled (suc remaining) =
    next_wave (err (error (cycle (stuck 0 steps scheduled))))
      (λ wave.
        drain fuel deps steps (mark wave scheduled) (suc remaining - length wave) >>= λ later.
        ok (wave ∷ later))
      (collect_wave 0 deps scheduled)

-- layer_into_waves: every wave schedules a step, so that there are no more rounds than steps.
unfoldable pub layer_into_waves :
    {N : Type 0} → List (List ℕ) → List (StepDef N) → Result (Fault DagError) (List (List ℕ))
layer_into_waves deps steps =
    drain (length deps) deps steps (replicate (length deps) false) (length deps)

abbrev pub lift : {A : Type 0} → Result DagError A → Result (Fault DagError) A
lift (ok a) = ok a
lift (err e) = err (error e)

-- build_plan
unfoldable pub build_plan :
    {N : Type 0}
    → (Str → List Str)
    → (Str → Bool)
    → List (StepDef N)
    → Result (Fault DagError) DagPlan
build_plan refs is_unrooted steps = do
  id_to_index ← lift (index_ids 0 steps [])
  edges ← lift (
      build_edges refs is_unrooted 0 id_to_index steps
        (record { deps = replicate (length steps) []; consumers = replicate (length steps) [] }))
  waves ← layer_into_waves edges.deps steps
  ok (record { waves = waves; deps = edges.deps; consumers = edges.consumers })
