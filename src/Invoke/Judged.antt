-- ===== src/Invoke/Judged.antt =====
-- When the collection of edges reports a step that does not parse.
use gwead.Prelude.{
  ℕ, zero, suc, ◌≤◌, ◌<◌, ◌≡◌, ◌≢◌, inl, inr, refl, sym, subst, Option, List, [], ◌∷◌, In, arith,
  Bool-cases, Option-cases,
}
use gwead.Prelude.Outcome.{Result, ok, err, ◌>>=◌}
use gwead.Fault.{Fault, error}
use gwead.Text.{Str, str_eq, chars}
use gwead.Text.Split.{str_eq_iff}
use gwead.Json.{Value, Items, elements}
use gwead.Json.Size.{sizes, size, elements-size}
use gwead.Dag.Step.{StepDef}
use gwead.Invoke.{NodeRef, InvokeEdge, InvokeCycleError, malformed_inner_step}
use gwead.Invoke.Edges.{
  bodies, from_inner_value, parse_steps, collect_each, walk_inner_arrays, collect_step,
}
use gwead.Invoke.Bodies.{Told}
use gwead.Invoke.Told.{bodies-Told}
use gwead.Invoke.Inner.{bodies-size}
use gwead.Invoke.Rejects.{
  Broken, BrokenAny, BrokenIn, BrokenInside, Verdict, fine, Verdict-map, Verdict-bind, Parsed,
  parsed, unparsed, Parsed-bind, none_broken, invoke_whole, plain_whole, Inside-Broken,
  Broken-Inside,
}

module _ {N : Type 0} (from_value : Value N → Result Str (StepDef N)) where
  module _ (aliases : Str → Option NodeRef) (plugin action_name : Str) where
    parse_steps-Parsed :
        (step_type : Str) (values : List (Value N))
        → Parsed from_value action_name values
            (parse_steps from_value aliases plugin action_name step_type values)
    unfolding parse_steps
    parse_steps-Parsed step_type [] = parsed (λ v i. absurd i) (λ s i. absurd i)
    parse_steps-Parsed step_type (v ∷ values) =
        go (from_inner_value from_value v)
          (parse_steps from_value aliases plugin action_name step_type values) refl
          (parse_steps-Parsed step_type values)
      where
        go :
            (r : Result Str (StepDef N)) (rest : Result (Fault InvokeCycleError) (List (StepDef N)))
            → from_inner_value from_value v ≡ r
            → Parsed from_value action_name values rest
            → Parsed from_value action_name (v ∷ values) (elim r [
              | err e ↦ err (error (malformed_inner_step action_name step_type e))
              | ok s ↦ rest >>= λ rest'. ok (s ∷ rest')
            ])
        go (err text) rest e h = unparsed step_type text v (inl refl) e
        go (ok s) (err f) e (unparsed t text w i g) = unparsed t text w (inr i) g
        go (ok s) (ok steps) e (parsed each back) =
            parsed
              (λ w i. elim i [
                | inl f ↦ (s, inl refl, subst (λ x. from_inner_value from_value x ≡ ok s) (sym f) e)
                | inr j ↦ let (t, k, g) = each w j in (t, inr k, g)
              ])
              (λ t i. elim i [
                | inl f ↦ (v, inl refl, subst (λ x. from_inner_value from_value v ≡ ok x) (sym f) e)
                | inr j ↦ let (w, k, g) = back t j in (w, inr k, g)
              ])

    collect_each-Verdict :
        (f : StepDef N → List InvokeEdge → Result (Fault InvokeCycleError) (List InvokeEdge))
        (steps : List (StepDef N))
        → ((s : StepDef N)
            → In s steps
            → (out : List InvokeEdge)
            → Verdict from_value action_name (Broken from_value s) (f s out))
        → (out : List InvokeEdge)
        → Verdict from_value action_name
            (BrokenAny from_value steps)
            (collect_each from_value aliases plugin action_name f steps out)
    unfolding collect_each
    collect_each-Verdict f [] h out = fine (λ x. absurd x.1)
    collect_each-Verdict f (s ∷ steps) h out =
        Verdict-bind from_value (h s (inl refl) out)
          (λ out' never.
            Verdict-map from_value (λ (t, i, b). (t, inr i, b))
              (λ (t, i, b). elim i [
                | inl e ↦ absurd (never (subst (λ x. Broken from_value x) e b))
                | inr j ↦ (t, j, b)
              ])
              (collect_each-Verdict f steps (λ t i. h t (inr i)) out'))
          (λ b. (s, inl refl, b))

    module _
        (smaller : (v : Value N) (s : StepDef N)
          → from_inner_value from_value v ≡ ok s
          → size s.params < size v) where
      -- the steps with parameters below the fuel
      abbrev Judged : ℕ → Type 0
      Judged fuel =
          (s : StepDef N)
          → size s.params < fuel
          → (out : List InvokeEdge)
          → Verdict from_value action_name (Broken from_value s)
              (collect_step from_value aliases plugin action_name fuel s out)

      walk_inner_arrays-Verdict :
          (fuel : ℕ) (step_type : Str) (inner : List (Items N))
          → Judged fuel
          → ((vs : Items N) → In vs inner → sizes vs ≤ fuel)
          → (out : List InvokeEdge)
          → Verdict from_value action_name (BrokenInside from_value inner) (
              walk_inner_arrays from_value aliases plugin action_name
                (collect_step from_value aliases plugin action_name fuel)
                step_type
                inner
                out)
      unfolding walk_inner_arrays
      walk_inner_arrays-Verdict fuel step_type [] ih room out = fine (λ x. absurd x.1)
      walk_inner_arrays-Verdict fuel step_type (vs ∷ rest) ih room out =
          Parsed-bind from_value action_name (elements vs)
            (parse_steps-Parsed step_type (elements vs))
            (λ steps each back.
              Verdict-bind from_value
                (collect_each-Verdict (collect_step from_value aliases plugin action_name fuel)
                  steps
                  (λ s i out'.
                    let (v, j, e) = back s i in
                    ih s (omega (arith, smaller v s e, elements-size vs v j, room vs (inl refl)))
                      out')
                  out)
                (λ mid never.
                  Verdict-map from_value (λ (ws, i, b). (ws, inr i, b))
                    (λ (ws, i, b). elim i [
                      | inl e ↦ absurd (
                          none_broken from_value (elements vs) steps each never
                            (subst (λ l. BrokenIn from_value (elements l)) e b))
                      | inr j ↦ (ws, j, b)
                    ])
                    (walk_inner_arrays-Verdict fuel step_type rest ih (λ ws i. room ws (inr i))
                      mid))
                (λ (s, i, b). let (v, j, e) = back s i in (vs, inl refl, inr (v, s, j, e, b))))
            (λ b. (vs, inl refl, b))

      collect_step-Verdict : (fuel : ℕ) → Judged fuel
      unfolding collect_step
      collect_step-Verdict zero s room out = absurd (omega (arith, room))
      collect_step-Verdict (suc fuel) s room out =
          elim (Bool-cases (str_eq s.step_type (chars "invoke"))) [
            | inl e ↦
                rw (e, collect_step)
                  (fine (invoke_whole from_value s ((str_eq_iff s.step_type (chars "invoke")).0 e)))
            | inr e ↦
                let other : s.step_type ≢ chars "invoke" =
                  λ f. cc (e, (str_eq_iff s.step_type (chars "invoke")).1 f) in
                elim (Option-cases (bodies s.step_type s.params)) [
                  | inl f ↦
                      rw (e, collect_step)
                        (rw f (
                          fine (
                            plain_whole from_value s (
                              subst (λ o. Told s.step_type s.params o) f
                                (bodies-Told s.params s.step_type)))))
                  | inr (inner, f) ↦
                      let told =
                        subst (λ o. Told s.step_type s.params o) f
                          (bodies-Told s.params s.step_type) in
                      rw (e, collect_step)
                        (rw f (
                          Verdict-map from_value (Inside-Broken from_value s inner other told)
                            (Broken-Inside from_value s inner told)
                            (walk_inner_arrays-Verdict fuel s.step_type inner
                              (collect_step-Verdict fuel)
                              (λ vs i. omega (arith, bodies-size s inner vs f i, room)) out)))
                ]
          ]

      pub collect_steps-Verdict :
          (fuel : ℕ) (steps : List (StepDef N)) (out : List InvokeEdge)
          → ((s : StepDef N) → In s steps → size s.params < fuel)
          → Verdict from_value action_name (BrokenAny from_value steps) (
              collect_each from_value aliases plugin action_name
                (collect_step from_value aliases plugin action_name fuel)
                steps
                out)
      collect_steps-Verdict fuel steps out room =
          collect_each-Verdict (collect_step from_value aliases plugin action_name fuel) steps
            (λ s i. collect_step-Verdict fuel s (room s i)) out
