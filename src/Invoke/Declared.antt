-- ===== src/Invoke/Declared.antt =====
-- collect_declared_references accepts exactly what refers to registered actions.
use gwead.Prelude.{
  ◌≡◌, ◌↔◌, ◌⊎◌, inl, inr, refl, sym, ap, ◌∙◌, subst, Bool, true, Option, none, some, List, [], ◌∷◌,
  ◌++◌, map, All, Bool-cases, Option-cases, append_assoc, append-nil,
}
use gwead.Prelude.Outcome.{Result, ok, err, ◌>>=◌}
use gwead.Text.{Str}
use gwead.Json.{Value}
use gwead.Dag.Step.{StepDef}
use gwead.Invoke.{NodeRef, InvokeEdge}
use gwead.Invoke.Literal.{
  literal_reference_target_iff, NamesAll, all_read, named, left_out, NamesInSteps, all_seen,
  with_references, without,
}
use gwead.Invoke.References.{
  StepReference, DeclaredReferenceError, literal_reference_target, check_target, check_references,
  declared, check_steps, collect_declared_references,
}

abbrev keep_some : {A : Type 0} → Option A → List A → List A
keep_some none xs = xs
keep_some (some x) xs = x ∷ xs

keep_some-append : (o : Option NodeRef) (ts : List NodeRef) → keep_some o [] ++ ts ≡ keep_some o ts
keep_some-append none ts = refl
keep_some-append (some t) ts = refl

module _ (plugin_exists : Str → Bool) (action_exists : Str → Str → Bool)
    (plugin action_name : Str) where
  abbrev pub IsKnown : NodeRef → Type 0
  IsKnown (p, a) = (plugin_exists p ≡ true) × (action_exists p a ≡ true)

  abbrev pub edge_to : NodeRef → InvokeEdge
  edge_to n = record { from = (plugin, action_name); to = n }

  -- The edges to known targets are added, in order, or one of the targets is unknown.
  data Checked (out : List InvokeEdge) (ts : List NodeRef)
      : Result DeclaredReferenceError (List InvokeEdge) → Type 0 where
    accepted : All IsKnown ts → Checked out ts (ok (out ++ map edge_to ts))
    refused : (e : DeclaredReferenceError) → ¬ (All IsKnown ts) → Checked out ts (err e)

  All-append : (ts us : List NodeRef) → All IsKnown (ts ++ us) ↔ (All IsKnown ts × All IsKnown us)
  All-append [] us = (λ h. (tt, h), λ h. h.1)
  All-append (t ∷ ts) us = (
    λ h. ((h.0, ((All-append ts us).0 h.1).0), ((All-append ts us).0 h.1).1),
    λ h. (h.0.0, (All-append ts us).1 (h.0.1, h.1)),
  )

  map-append : (ts us : List NodeRef) → map edge_to (ts ++ us) ≡ map edge_to ts ++ map edge_to us
  map-append [] us = refl
  map-append (t ∷ ts) us = ap (λ x. edge_to t ∷ x) (map-append ts us)

  Checked-bind :
      (out : List InvokeEdge) (ts us : List NodeRef)
      (r : Result DeclaredReferenceError (List InvokeEdge))
      (f : List InvokeEdge → Result DeclaredReferenceError (List InvokeEdge))
      → Checked out ts r
      → ((mid : List InvokeEdge) → Checked mid us (f mid))
      → Checked out (ts ++ us) (r >>= f)
  Checked-bind out ts us r f (refused e bad) next = refused e (λ h. bad ((All-append ts us).0 h).0)
  Checked-bind out ts us r f (accepted good) next =
      after (f (out ++ map edge_to ts)) (next (out ++ map edge_to ts))
    where
      after :
          (r' : Result DeclaredReferenceError (List InvokeEdge))
          → Checked (out ++ map edge_to ts) us r'
          → Checked out (ts ++ us) r'
      after r' (refused e bad) = refused e (λ h. bad ((All-append ts us).0 h).1)
      after r' (accepted good') =
          subst (λ l. Checked out (ts ++ us) (ok l))
            (ap (λ x. out ++ x) (map-append ts us)
              ∙ sym (append_assoc out (map edge_to ts) (map edge_to us)))
            (accepted ((All-append ts us).1 (good, good')))

module _ {N : Type 0} (references : Str → Option (List StepReference)) where
  -- the targets of a step's references that are literal, in order, and those of all steps
  abbrev targets : Value N → List StepReference → List NodeRef
  targets params [] = []
  targets params (r ∷ rs) = keep_some (literal_reference_target params r) (targets params rs)

  abbrev literal_targets : List (StepDef N) → List NodeRef
  literal_targets [] = []
  literal_targets (s ∷ steps) =
      targets s.params (declared (references s.step_type)) ++ literal_targets steps

  targets-NamesAll :
      (params : Value N) (rs : List StepReference) → NamesAll params rs (targets params rs)
  targets-NamesAll params [] = all_read
  targets-NamesAll params (r ∷ rs) = elim (Option-cases (literal_reference_target params r)) [
    | inl e ↦
        rw (e, keep_some)
          (left_out (λ to n. cc (e, (literal_reference_target_iff params r to).1 n))
            (targets-NamesAll params rs))
    | inr (to, e) ↦
        rw (e, keep_some)
          (named ((literal_reference_target_iff params r to).0 e) (targets-NamesAll params rs))
  ]

  literal_targets-NamesInSteps :
      (steps : List (StepDef N)) → NamesInSteps references steps (literal_targets steps)
  literal_targets-NamesInSteps [] = all_seen
  literal_targets-NamesInSteps (s ∷ steps) = elim (Option-cases (references s.step_type)) [
    | inl e ↦ rw (e, declared) (without e (literal_targets-NamesInSteps steps))
    | inr (rs, e) ↦
        rw (e, declared)
          (with_references e (targets-NamesAll s.params rs) (literal_targets-NamesInSteps steps))
  ]

  module _ (plugin_exists : Str → Bool) (action_exists : Str → Str → Bool)
      (plugin action_name : Str) where
    check_target-Checked :
        (s : StepDef N) (r : StepReference) (o : Option NodeRef) (out : List InvokeEdge)
        → Checked plugin_exists action_exists plugin action_name out
            (keep_some o [])
            (check_target references plugin_exists action_exists plugin action_name s r o out)
    unfolding check_target
    check_target-Checked s r none out =
        subst (λ l. Checked plugin_exists action_exists plugin action_name out [] (ok l))
          (append-nil out) (accepted tt)
    check_target-Checked s r (some (p, a)) out = elim (Bool-cases (plugin_exists p)) [
      | inr e ↦ rw e (refused _ (λ h. cc (e, h.0.0)))
      | inl e ↦ rw e (elim (Bool-cases (action_exists p a)) [
        | inr f ↦ rw f (refused _ (λ h. cc (f, h.0.1)))
        | inl f ↦ rw f (accepted ((e, f), tt))
      ])
    ]

    check_references-Checked :
        (s : StepDef N) (rs : List StepReference) (out : List InvokeEdge)
        → Checked plugin_exists action_exists plugin action_name out
            (targets s.params rs)
            (check_references references plugin_exists action_exists plugin action_name s rs out)
    unfolding check_references
    check_references-Checked s [] out =
        subst (λ l. Checked plugin_exists action_exists plugin action_name out [] (ok l))
          (append-nil out) (accepted tt)
    check_references-Checked s (r ∷ rs) out =
        subst
          (λ ts. Checked plugin_exists action_exists plugin action_name out ts (
            check_references references plugin_exists action_exists plugin action_name s (r ∷ rs)
              out))
          (keep_some-append (literal_reference_target s.params r) (targets s.params rs))
          (Checked-bind plugin_exists action_exists plugin action_name out
            (keep_some (literal_reference_target s.params r) []) (targets s.params rs) _ _
            (check_target-Checked s r (literal_reference_target s.params r) out)
            (λ mid. check_references-Checked s rs mid))

    check_steps-Checked :
        (steps : List (StepDef N)) (out : List InvokeEdge)
        → Checked plugin_exists action_exists plugin action_name out
            (literal_targets steps)
            (check_steps references plugin_exists action_exists plugin action_name steps out)
    unfolding check_steps
    check_steps-Checked [] out =
        subst (λ l. Checked plugin_exists action_exists plugin action_name out [] (ok l))
          (append-nil out) (accepted tt)
    check_steps-Checked (s ∷ steps) out =
        Checked-bind plugin_exists action_exists plugin action_name out
          (targets s.params (declared (references s.step_type))) (literal_targets steps) _ _
          (check_references-Checked s (declared (references s.step_type)) out)
          (λ mid. check_steps-Checked steps mid)

    -- The declared references of the steps at the top of an action name a list of targets literally:
    -- under two keys that both hold strings, neither with `{{` in it or with `$` in front. They are
    -- accepted exactly if each of these targets is a registered plugin and a registered action of it;
    -- the edges are then those from the action to the targets, in order.
    pub collect_declared_references_iff :
        (steps : List (StepDef N))
        → (ts : List NodeRef) × NamesInSteps references steps ts
          × (let out =
                collect_declared_references references plugin_exists action_exists plugin
                  action_name steps in
              ((out ≡ ok (map (edge_to plugin_exists action_exists plugin action_name) ts))
                × All (IsKnown plugin_exists action_exists plugin action_name) ts)
              ⊎ ((e : DeclaredReferenceError) × (out ≡ err e)
                  × (¬ All (IsKnown plugin_exists action_exists plugin action_name) ts)))
    unfolding collect_declared_references
    collect_declared_references_iff steps = (
      literal_targets steps,
      literal_targets-NamesInSteps steps,
      told (literal_targets steps) (check_steps-Checked steps []),
    )
      where
        told :
            (ts : List NodeRef) {r : Result DeclaredReferenceError (List InvokeEdge)}
            → Checked plugin_exists action_exists plugin action_name [] ts r
            → ((r ≡ ok (map (edge_to plugin_exists action_exists plugin action_name) ts))
                × All (IsKnown plugin_exists action_exists plugin action_name) ts)
              ⊎ ((e : DeclaredReferenceError) × (r ≡ err e)
                  × (¬ All (IsKnown plugin_exists action_exists plugin action_name) ts))
        told ts (accepted good) = inl (refl, good)
        told ts (refused e bad) = inr (e, refl, bad)
