-- ===== src/Invoke/Collects.antt =====
-- collect_edges collects exactly the edges that the steps of an action declare, however deep.
use gwead.Prelude.{
  ℕ, zero, suc, ◌≤◌, ◌<◌, ◌≡◌, ◌≢◌, ◌↔◌, inl, inr, refl, ap, subst, Option, List, [], ◌∷◌, In,
  arith, Bool-cases, Option-cases,
}
use gwead.Prelude.Outcome.{Result, ok, err}
use gwead.Fault.{Fault, error, Ensures, Ensures-ok, holds, Ensures-bind, Ensures-weaken}
use gwead.Text.{Str, str_eq, chars}
use gwead.Text.Split.{str_eq_iff}
use gwead.Json.{Value, Items, elements}
use gwead.Json.Size.{sizes, size, elements-size}
use gwead.Dag.Step.{StepDef}
use gwead.Invoke.{NodeRef, InvokeEdge, InvokeCycleError, malformed_inner_step}
use gwead.Invoke.Edges.{
  invoke_target, bodies, from_inner_value, walk_inner_arrays, collect_step, depth, collect_edges,
}
use gwead.Invoke.Bodies.{Told}
use gwead.Invoke.Told.{bodies-Told}
use gwead.Invoke.Inner.{bodies-size}
use gwead.Invoke.Rejects.{BrokenAny, Verdict, fine, reported}
use gwead.Invoke.Judged.{collect_steps-Verdict}
use gwead.Invoke.Emits.{
  Emits, by_invoke, EmitsAny, EmitsIn, EmitsInside, Emits-invoke, Emits-plain, Emits-inside, Adds,
  Adds-then, Adds-iff, Adds-nothing, push_target-Adds, collect_each-Adds, parse_steps-EmitsIn,
}

module _ {N : Type 0} (from_value : Value N → Result Str (StepDef N))
    (aliases : Str → Option NodeRef) (plugin action_name : Str) where
  -- Serde takes a step's parameters from inside the value that it parses, or makes them empty.
  module _
      (smaller : (v : Value N) (s : StepDef N)
        → from_inner_value from_value v ≡ ok s
        → size s.params < size v) where
    Collects : ℕ → Type 0
    Collects fuel =
        (s : StepDef N)
        → size s.params < fuel
        → (out : List InvokeEdge)
        → Ensures (Adds from_value aliases plugin action_name (Emits from_value aliases s) out)
            (collect_step from_value aliases plugin action_name fuel s out)

    walk_inner_arrays-Adds :
        (fuel : ℕ) (step_type : Str) (inner : List (Items N))
        → Collects fuel
        → ((vs : Items N) → In vs inner → sizes vs ≤ fuel)
        → (out : List InvokeEdge)
        → Ensures
            (Adds from_value aliases plugin action_name (EmitsInside from_value aliases inner) out)
            (walk_inner_arrays from_value aliases plugin action_name
              (collect_step from_value aliases plugin action_name fuel)
              step_type
              inner
              out)
    unfolding walk_inner_arrays Collects
    walk_inner_arrays-Adds fuel step_type [] ih room out = holds (
        Adds-nothing from_value aliases plugin action_name (EmitsInside from_value aliases []) out
          (λ to x. absurd x.1))
    walk_inner_arrays-Adds fuel step_type (vs ∷ rest) ih room out =
        Ensures-bind
          (parse_steps-EmitsIn from_value aliases plugin action_name step_type (elements vs))
          (λ steps h.
            Ensures-bind
              (collect_each-Adds from_value aliases plugin action_name
                (collect_step from_value aliases plugin action_name fuel) steps
                (λ s i out'.
                  let (v, j, e) = h.1 s i in
                  ih s (omega (arith, smaller v s e, elements-size vs v j, room vs (inl refl)))
                    out')
                out)
              (λ mid a.
                Ensures-weaken
                  (walk_inner_arrays-Adds fuel step_type rest ih (λ ws i. room ws (inr i)) mid)
                  (λ out' b.
                    Adds-iff from_value aliases plugin action_name _
                      (EmitsInside from_value aliases (vs ∷ rest)) out out'
                      (λ to. (
                        λ x. elim x [
                          | inl p ↦ (vs, inl refl, (h.0 to).0 p)
                          | inr (ws, i, p) ↦ (ws, inr i, p)
                        ],
                        λ (ws, i, p). elim i [
                          | inl e ↦ inl (
                              (h.0 to).1
                                (subst (λ l. EmitsIn from_value aliases (elements l) to) e p))
                          | inr j ↦ inr (ws, j, p)
                        ],
                      ))
                      (Adds-then from_value aliases plugin action_name
                        (EmitsAny from_value aliases steps) (EmitsInside from_value aliases rest)
                        out mid out' a b))))

    collect_step-Adds : (fuel : ℕ) → Collects fuel
    unfolding collect_step Collects
    collect_step-Adds zero s room out = absurd (omega (arith, room))
    collect_step-Adds (suc fuel) s room out =
        elim (Bool-cases (str_eq s.step_type (chars "invoke"))) [
          | inl e ↦
              rw (e, collect_step)
                (holds (
                  Adds-iff from_value aliases plugin action_name _ (Emits from_value aliases s) out
                    _
                    (λ to. (
                      λ f. by_invoke ((str_eq_iff s.step_type (chars "invoke")).0 e) f,
                      Emits-invoke from_value aliases s to
                          ((str_eq_iff s.step_type (chars "invoke")).0 e),
                    ))
                    (push_target-Adds from_value aliases plugin action_name (invoke_target s.params)
                      out)))
          | inr e ↦
              let other : s.step_type ≢ chars "invoke" =
                λ f. cc (e, (str_eq_iff s.step_type (chars "invoke")).1 f) in
              elim (Option-cases (bodies s.step_type s.params)) [
                | inl f ↦
                    rw (e, collect_step)
                      (rw f (
                        holds (
                          Adds-iff from_value aliases plugin action_name _
                            (Emits from_value aliases s) out _
                            (λ to. Emits-plain from_value aliases s to other (
                              subst (λ o. Told s.step_type s.params o) f
                                (bodies-Told s.params s.step_type)))
                            (push_target-Adds from_value aliases plugin action_name
                              (aliases s.step_type) out))))
                | inr (inner, f) ↦
                    rw (e, collect_step)
                      (rw f (
                        Ensures-weaken
                          (walk_inner_arrays-Adds fuel s.step_type inner (collect_step-Adds fuel)
                            (λ vs i. omega (arith, bodies-size s inner vs f i, room)) out)
                          (λ out' a.
                            Adds-iff from_value aliases plugin action_name
                              (EmitsInside from_value aliases inner) (Emits from_value aliases s)
                              out out'
                              (λ to. Emits-inside from_value aliases s to inner other (
                                subst (λ o. Told s.step_type s.params o) f
                                  (bodies-Told s.params s.step_type)))
                              a)))
              ]
        ]

    depth-positive :
        (steps : List (StepDef N)) → 1 ≤ depth from_value aliases plugin action_name steps
    unfolding depth
    depth-positive [] = omega arith
    depth-positive (s ∷ steps) = omega (arith, depth-positive steps)

    depth-le :
        (steps : List (StepDef N)) (s : StepDef N)
        → In s steps
        → size s.params < depth from_value aliases plugin action_name steps
    unfolding depth
    depth-le [] s i = absurd i
    depth-le (t ∷ steps) s (inl e) = omega (arith, ap (λ x. size x.params) e, depth-positive steps)
    depth-le (t ∷ steps) s (inr i) = omega (arith, depth-le steps s i)

    collect_edges-Ensures :
        (steps : List (StepDef N))
        → Ensures
            (λ edges.
              (e : InvokeEdge)
              → In e edges
                ↔ ((e.from ≡ (plugin, action_name)) × EmitsAny from_value aliases steps e.to))
            (collect_edges from_value aliases plugin action_name steps)
    unfolding collect_edges Collects
    collect_edges-Ensures steps =
        Ensures-weaken
          (collect_each-Adds from_value aliases plugin action_name
            (collect_step from_value aliases plugin action_name
              (depth from_value aliases plugin action_name steps))
            steps
            (λ s i out.
              collect_step-Adds (depth from_value aliases plugin action_name steps) s
                (depth-le steps s i) out)
            [])
          (λ edges h e.
            (λ i. elim ((h e).0 i) [ inl x ↦ absurd x | inr x ↦ x ], λ x. (h e).1 (inr x)))

    -- What is collected: the edges, where every inner step parses, or else the report of one that does
    -- not.
    pub data Collected (steps : List (StepDef N))
        : Result (Fault InvokeCycleError) (List InvokeEdge) → Type 0 where
      collected :
          {edges : List InvokeEdge}
          → ¬ BrokenAny from_value steps
          → ((e : InvokeEdge)
              → In e edges
                ↔ ((e.from ≡ (plugin, action_name)) × EmitsAny from_value aliases steps e.to))
          → Collected steps (ok edges)
      malformed :
          (step_type text : Str)
          → BrokenAny from_value steps
          → Collected steps (err (error (malformed_inner_step action_name step_type text)))

    judged :
        (steps : List (StepDef N)) {r : Result (Fault InvokeCycleError) (List InvokeEdge)}
        → Verdict from_value action_name (BrokenAny from_value steps) r
        → Ensures
            (λ edges.
              (e : InvokeEdge)
              → In e edges
                ↔ ((e.from ≡ (plugin, action_name)) × EmitsAny from_value aliases steps e.to))
            r
        → Collected steps r
    judged steps (fine never) h = collected never (Ensures-ok h refl)
    judged steps (reported t text b) h = malformed t text b

    -- Where a step that serde parses has parameters smaller than the value that it is parsed from:
    -- collect_edges returns, within its fuel and with no panic. If every value in the bodies inside the
    -- steps parses, it returns exactly the edges from the action to what its steps may run, themselves
    -- or by steps in their bodies; and if one does not, it reports a step that does not parse.
    pub collect_edges-Emits :
        (steps : List (StepDef N))
        → Collected steps (collect_edges from_value aliases plugin action_name steps)
    unfolding collect_edges
    collect_edges-Emits steps =
        judged steps
          (collect_steps-Verdict from_value aliases plugin action_name smaller
            (depth from_value aliases plugin action_name steps) steps [] (depth-le steps))
          (collect_edges-Ensures steps)
