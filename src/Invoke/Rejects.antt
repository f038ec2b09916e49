-- ===== src/Invoke/Rejects.antt =====
-- Steps whose bodies do not parse, and runs that report one (src/kernel/invoke.rs).
use gwead.Prelude.{◌≡◌, ◌≢◌, ◌⊎◌, inl, inr, sym, ◌∙◌, subst, none, some, List, In}
use gwead.Prelude.Outcome.{Result, ok, err, ◌>>=◌}
use gwead.Fault.{Fault, error}
use gwead.Text.{Str, chars}
use gwead.Json.{Value, Items, elements}
use gwead.Dag.Step.{StepDef}
use gwead.Invoke.{InvokeCycleError, malformed_inner_step}
use gwead.Invoke.Edges.{from_inner_value}
use gwead.Invoke.Bodies.{Inside, Told, plain, has}

module _ {N : Type 0} (from_value : Value N → Result Str (StepDef N)) where
  -- A value in a body of the step does not parse, or one does in a step that is parsed there.
  pub data Broken : StepDef N → Type 0 where
    unreadable :
        {s : StepDef N} (vs : Items N) (v : Value N) (text : Str)
        → s.step_type ≢ chars "invoke"
        → Inside s.step_type s.params vs
        → In v (elements vs)
        → from_inner_value from_value v ≡ err text
        → Broken s
    within :
        {s : StepDef N} (vs : Items N) (v : Value N) (step : StepDef N)
        → s.step_type ≢ chars "invoke"
        → Inside s.step_type s.params vs
        → In v (elements vs)
        → from_inner_value from_value v ≡ ok step
        → Broken step
        → Broken s

  abbrev pub BrokenAny : List (StepDef N) → Type 0
  BrokenAny steps = (s : StepDef N) × In s steps × Broken s

  abbrev pub BrokenIn : List (Value N) → Type 0
  BrokenIn values =
      ((v : Value N) × (text : Str) × In v values × (from_inner_value from_value v ≡ err text))
      ⊎ ((v : Value N) × (s : StepDef N) × In v values
          × (from_inner_value from_value v ≡ ok s)
          × Broken s)

  abbrev pub BrokenInside : List (Items N) → Type 0
  BrokenInside inner = (vs : Items N) × In vs inner × BrokenIn (elements vs)

  -- The run fails exactly if `Q`, and then by the error that reports a step that does not parse.
  pub data Verdict {A : Type 0} (action_name : Str) (Q : Type 0)
      : Result (Fault InvokeCycleError) A → Type 0 where
    fine : {a : A} → ¬ Q → Verdict action_name Q (ok a)
    reported :
        (step_type text : Str)
        → Q
        → Verdict action_name Q (err (error (malformed_inner_step action_name step_type text)))

  pub Verdict-map :
      {A : Type 0} {Q R : Type 0} {action_name : Str} {r : Result (Fault InvokeCycleError) A}
      → (Q → R)
      → (R → Q)
      → Verdict action_name Q r
      → Verdict action_name R r
  Verdict-map to from (fine never) = fine (λ x. never (from x))
  Verdict-map to from (reported t text q) = reported t text (to q)

  pub Verdict-bind :
      {A B : Type 0} {Q R : Type 0} {action_name : Str} {r : Result (Fault InvokeCycleError) A}
      {f : A → Result (Fault InvokeCycleError) B}
      → Verdict action_name Q r
      → ((a : A) → ¬ Q → Verdict action_name R (f a))
      → (Q → R)
      → Verdict action_name R (r >>= f)
  Verdict-bind (fine {a} never) k to = k a never
  Verdict-bind (reported t text q) k to = reported t text (to q)

  -- Every value parses, and to the steps in the list, or one does not.
  pub data Parsed (action_name : Str) (values : List (Value N))
      : Result (Fault InvokeCycleError) (List (StepDef N)) → Type 0 where
    parsed :
        {steps : List (StepDef N)}
        → ((v : Value N)
            → In v values
            → (s : StepDef N) × In s steps × (from_inner_value from_value v ≡ ok s))
        → ((s : StepDef N)
            → In s steps
            → (v : Value N) × In v values × (from_inner_value from_value v ≡ ok s))
        → Parsed action_name values (ok steps)
    unparsed :
        (step_type text : Str) (v : Value N)
        → In v values
        → from_inner_value from_value v ≡ err text
        → Parsed action_name values (err (error (malformed_inner_step action_name step_type text)))

  pub Parsed-bind :
      {B : Type 0} {R : Type 0} (action_name : Str) (values : List (Value N))
      {r : Result (Fault InvokeCycleError) (List (StepDef N))}
      {f : List (StepDef N) → Result (Fault InvokeCycleError) B}
      → Parsed action_name values r
      → ((steps : List (StepDef N))
          → ((v : Value N)
              → In v values
              → (s : StepDef N) × In s steps × (from_inner_value from_value v ≡ ok s))
          → ((s : StepDef N)
              → In s steps
              → (v : Value N) × In v values × (from_inner_value from_value v ≡ ok s))
          → Verdict action_name R (f steps))
      → (BrokenIn values → R)
      → Verdict action_name R (r >>= f)
  Parsed-bind action_name values (parsed {steps} each back) k to = k steps each back
  Parsed-bind action_name values (unparsed t text v i e) k to =
      reported t text (to (inl (v, text, i, e)))

  same_ok : (s t : StepDef N) → ◌≡◌ {A = Result Str (StepDef N)} (ok s) (ok t) → s ≡ t
  same_ok s t e = cc e

  ok-ne-err : (s : StepDef N) (text : Str) → ◌≡◌ {A = Result Str (StepDef N)} (ok s) (err text) → ⊥
  ok-ne-err s text e = cc e

  -- what parses to steps that are not broken
  pub none_broken :
      (values : List (Value N)) (steps : List (StepDef N))
      → ((v : Value N)
          → In v values
          → (s : StepDef N) × In s steps × (from_inner_value from_value v ≡ ok s))
      → ¬ BrokenAny steps
      → ¬ BrokenIn values
  none_broken values steps each never (inl (v, text, i, e)) =
      let (s, j, f) = each v i in ok-ne-err s text (sym f ∙ e)
  none_broken values steps each never (inr (v, s, i, e, b)) =
      let (t, j, f) = each v i in never (t, j, subst (λ x. Broken x) (same_ok s t (sym e ∙ f)) b)

  pub invoke_whole : (s : StepDef N) → s.step_type ≡ chars "invoke" → ¬ Broken s
  invoke_whole s e (unreadable vs v text other h i f) = other e
  invoke_whole s e (within vs v t other h i f b) = other e

  pub plain_whole : (s : StepDef N) → Told s.step_type s.params none → ¬ Broken s
  plain_whole s (plain p never) (unreadable vs v text other h i f) = never vs h
  plain_whole s (plain p never) (within vs v t other h i f b) = never vs h

  pub Inside-Broken :
      (s : StepDef N) (inner : List (Items N))
      → s.step_type ≢ chars "invoke"
      → Told s.step_type s.params (some inner)
      → BrokenInside inner
      → Broken s
  Inside-Broken s inner other (has l never same) (vs, i, inl (v, text, j, e)) =
      unreadable vs v text other ((same vs).0 i) j e
  Inside-Broken s inner other (has l never same) (vs, i, inr (v, t, j, e, b)) =
      within vs v t other ((same vs).0 i) j e b

  pub Broken-Inside :
      (s : StepDef N) (inner : List (Items N))
      → Told s.step_type s.params (some inner)
      → Broken s
      → BrokenInside inner
  Broken-Inside s inner (has l never same) (unreadable vs v text other h j e) =
      (vs, (same vs).1 h, inl (v, text, j, e))
  Broken-Inside s inner (has l never same) (within vs v t other h j e b) =
      (vs, (same vs).1 h, inr (v, t, j, e, b))
