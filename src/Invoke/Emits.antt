-- ===== src/Invoke/Emits.antt =====
-- What the steps of an action may run, and the loops that collect it.
use gwead.Prelude.{
  ◌≡◌, ◌≢◌, ◌↔◌, ◌⊎◌, inl, inr, refl, sym, ap, ◌∙◌, subst, Option, none, some, List, [], ◌∷◌, In,
  In-append, arith,
}
use gwead.Prelude.Outcome.{Result, ok, err}
use gwead.Fault.{Fault, Ensures, holds, rejected, Ensures-bind, Ensures-weaken}
use gwead.Text.{Str, chars}
use gwead.Json.{Value, Items, elements}
use gwead.Dag.Step.{StepDef}
use gwead.Invoke.{NodeRef, InvokeEdge, InvokeCycleError}
use gwead.Invoke.Edges.{invoke_target, from_inner_value, parse_steps, push_target, collect_each}
use gwead.Invoke.Bodies.{Inside, IsPlain, Told, plain, has}

Result-cases : {E A : Type 0} (r : Result E A) → ((a : A) × (r ≡ ok a)) ⊎ ((e : E) × (r ≡ err e))
Result-cases (ok a) = inl (a, refl)
Result-cases (err e) = inr (e, refl)

module _ {N : Type 0} (from_value : Value N → Result Str (StepDef N))
    (aliases : Str → Option NodeRef) where
  -- What a step may run, itself or by a step inside its bodies.
  pub data Emits : StepDef N → NodeRef → Type 0 where
    by_invoke :
        {s : StepDef N} {to : NodeRef}
        → s.step_type ≡ chars "invoke"
        → invoke_target s.params ≡ some to
        → Emits s to
    by_alias :
        {s : StepDef N} {to : NodeRef}
        → s.step_type ≢ chars "invoke"
        → IsPlain s.step_type s.params
        → aliases s.step_type ≡ some to
        → Emits s to
    inside :
        {s : StepDef N} {to : NodeRef} (vs : Items N) (v : Value N) (step : StepDef N)
        → s.step_type ≢ chars "invoke"
        → Inside s.step_type s.params vs
        → In v (elements vs)
        → from_inner_value from_value v ≡ ok step
        → Emits step to
        → Emits s to

  abbrev pub EmitsAny : List (StepDef N) → NodeRef → Type 0
  EmitsAny steps to = (s : StepDef N) × In s steps × Emits s to

  -- the steps that an array of values parses to
  abbrev pub EmitsIn : List (Value N) → NodeRef → Type 0
  EmitsIn values to =
      (v : Value N) × (step : StepDef N) × In v values
      × (from_inner_value from_value v ≡ ok step)
      × Emits step to

  abbrev pub EmitsInside : List (Items N) → NodeRef → Type 0
  EmitsInside inner to = (vs : Items N) × In vs inner × EmitsIn (elements vs) to

  pub Emits-invoke :
      (s : StepDef N) (to : NodeRef)
      → s.step_type ≡ chars "invoke"
      → Emits s to
      → invoke_target s.params ≡ some to
  Emits-invoke s to e (by_invoke f g) = g
  Emits-invoke s to e (by_alias other f g) = absurd (other e)
  Emits-invoke s to e (inside vs v t other i j g p) = absurd (other e)

  -- a step with no bodies, and one with these
  pub Emits-plain :
      (s : StepDef N) (to : NodeRef)
      → s.step_type ≢ chars "invoke"
      → Told s.step_type s.params none
      → (aliases s.step_type ≡ some to) ↔ Emits s to
  Emits-plain s to other (plain p never) = (by_alias other p, back)
    where
      back : Emits s to → aliases s.step_type ≡ some to
      back (by_invoke f g) = absurd (other f)
      back (by_alias f g h) = h
      back (inside vs v t f i j h q) = absurd (never vs i)

  pub Emits-inside :
      (s : StepDef N) (to : NodeRef) (inner : List (Items N))
      → s.step_type ≢ chars "invoke"
      → Told s.step_type s.params (some inner)
      → EmitsInside inner to ↔ Emits s to
  Emits-inside s to inner other (has l never same) =
      (λ (vs, i, (v, t, j, g, p)). inside vs v t other ((same vs).0 i) j g p, back)
    where
      back : Emits s to → EmitsInside inner to
      back (by_invoke f g) = absurd (other f)
      back (by_alias f g h) = absurd (never g)
      back (inside vs v t f i j h p) = (vs, (same vs).1 i, (v, t, j, h, p))

  module _ (plugin action_name : Str) where
    -- What is added to the edges: those from this action to a target of `P`.
    abbrev pub Adds : (NodeRef → Type 0) → List InvokeEdge → List InvokeEdge → Type 0
    Adds P out out' =
        (e : InvokeEdge) → In e out' ↔ (In e out ⊎ ((e.from ≡ (plugin, action_name)) × P e.to))

    pub Adds-then :
        (P Q : NodeRef → Type 0) (out mid out' : List InvokeEdge)
        → Adds P out mid
        → Adds Q mid out'
        → Adds (λ to. P to ⊎ Q to) out out'
    Adds-then P Q out mid out' h k e = (
      λ i. elim ((k e).0 i) [
        | inl j ↦ elim ((h e).0 j) [ inl x ↦ inl x | inr (f, p) ↦ inr (f, inl p) ]
        | inr (f, q) ↦ inr (f, inr q)
      ],
      λ i. elim i [
        | inl j ↦ (k e).1 (inl ((h e).1 (inl j)))
        | inr (f, inl p) ↦ (k e).1 (inl ((h e).1 (inr (f, p))))
        | inr (f, inr q) ↦ (k e).1 (inr (f, q))
      ],
    )

    pub Adds-iff :
        (P Q : NodeRef → Type 0) (out out' : List InvokeEdge)
        → ((to : NodeRef) → P to ↔ Q to)
        → Adds P out out'
        → Adds Q out out'
    Adds-iff P Q out out' same h e = (
      λ i. elim ((h e).0 i) [ inl j ↦ inl j | inr (f, p) ↦ inr (f, (same e.to).0 p) ],
      λ i. (h e).1 (elim i [ inl j ↦ inl j | inr (f, q) ↦ inr (f, (same e.to).1 q) ]),
    )

    pub Adds-nothing :
        (P : NodeRef → Type 0) (out : List InvokeEdge) → ((to : NodeRef) → ¬ P to) → Adds P out out
    Adds-nothing P out never e =
        (λ i. inl i, λ i. elim i [ inl j ↦ j | inr (f, p) ↦ absurd (never e.to p) ])

    pub push_target-Adds :
        (o : Option NodeRef) (out : List InvokeEdge)
        → Adds (λ to. o ≡ some to) out (push_target from_value aliases plugin action_name o out)
    push_target-Adds none out e = Adds-nothing (λ to. none ≡ some to) out (λ to f. cc f) e
    push_target-Adds (some n) out e = (
      λ i. elim ((In-append e out (record { from = (plugin, action_name); to = n } ∷ [])).0 i) [
        | inl j ↦ inl j
        | inr (inl f) ↦ inr (ap (λ x. x.from) f, ap some (sym (ap (λ x. x.to) f)))
        | inr (inr x) ↦ absurd x
      ],
      λ i.
          (In-append e out (record { from = (plugin, action_name); to = n } ∷ [])).1
            (elim i [ inl j ↦ inl j | inr (f, g) ↦ inr (inl (ground (arith, f, g))) ]),
    )

    pub collect_each-Adds :
        (f : StepDef N → List InvokeEdge → Result (Fault InvokeCycleError) (List InvokeEdge))
        (steps : List (StepDef N))
        → ((s : StepDef N)
            → In s steps
            → (out : List InvokeEdge) → Ensures (Adds (Emits s) out) (f s out))
        → (out : List InvokeEdge)
        → Ensures
            (Adds (EmitsAny steps) out)
            (collect_each from_value aliases plugin action_name f steps out)
    unfolding collect_each
    collect_each-Adds f [] h out = holds (Adds-nothing (EmitsAny []) out (λ to x. absurd x.1))
    collect_each-Adds f (s ∷ steps) h out = Ensures-bind (h s (inl refl) out) (λ mid a.
        Ensures-weaken (collect_each-Adds f steps (λ t i. h t (inr i)) mid) (λ out' b.
          Adds-iff _ (EmitsAny (s ∷ steps)) out out'
            (λ to. (
              λ x. elim x [ inl p ↦ (s, inl refl, p) | inr (t, i, p) ↦ (t, inr i, p) ],
              λ x. elim x.1 [
                | inl e ↦ inl (subst (λ t. Emits t to) e x.2)
                | inr i ↦ inr (x.0, i, x.2)
              ],
            ))
            (Adds-then (Emits s) (EmitsAny steps) out mid out' a b)))

    same_step : (s t : StepDef N) → ◌≡◌ {A = Result Str (StepDef N)} (ok s) (ok t) → t ≡ s
    same_step s t e = cc e

    -- what a parsed array emits
    pub parse_steps-EmitsIn :
        (step_type : Str) (values : List (Value N))
        → Ensures
            (λ steps.
              ((to : NodeRef) → EmitsAny steps to ↔ EmitsIn values to)
              × ((s : StepDef N)
                  → In s steps
                  → (v : Value N) × In v values × (from_inner_value from_value v ≡ ok s)))
            (parse_steps from_value aliases plugin action_name step_type values)
    unfolding parse_steps
    parse_steps-EmitsIn step_type [] =
        holds (λ to. (λ x. absurd x.1, λ x. absurd x.2), λ s i. absurd i)
    parse_steps-EmitsIn step_type (v ∷ values) =
        elim (Result-cases (from_inner_value from_value v)) [
          | inr (e, f) ↦ rw (f, parse_steps) rejected
          | inl (s, f) ↦
              rw (f, parse_steps)
                (Ensures-bind (parse_steps-EmitsIn step_type values) (λ steps h. holds (
                  λ to. (
                    λ x. elim x.1 [
                      | inl e ↦ (v, s, inl refl, f, subst (λ t. Emits t to) e x.2)
                      | inr i ↦
                          let (w, t, j, g, p) = (h.0 to).0 (x.0, i, x.2) in (w, t, inr j, g, p)
                    ],
                    λ (w, t, i, g, p). elim i [
                      | inl e ↦ (
                        s,
                        inl refl,
                        subst (λ t. Emits t to)
                            (same_step s t
                              (sym f ∙ subst (λ x. from_inner_value from_value x ≡ ok t) e g))
                            p,
                      )
                      | inr j ↦ let (t', k, p') = (h.0 to).1 (w, t, j, g, p) in (t', inr k, p')
                    ],
                  ),
                  λ t i. elim i [
                    | inl e ↦ (v, inl refl, f ∙ ap ok (sym e))
                    | inr j ↦ let (w, k, g) = h.1 t j in (w, inr k, g)
                  ],
                )))
        ]
