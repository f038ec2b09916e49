-- ===== src/Invoke/Literal.antt =====
-- What a step's reference names literally, told without the tests on the texts (src/kernel/invoke.rs).
use gwead.Prelude.{
  ℕ, ◌≡◌, ◌↔◌, ◌⊎◌, inl, inr, refl, ap, true, false, Option, none, some, List, [], ◌∷◌, ◌++◌,
  Bool-cases,
}
use gwead.Text.{Str, chars}
use gwead.Text.Affix.{starts_with}
use gwead.Text.Ends.{starts_with_iff}
use gwead.Json.{Value, null, bool, number, string, array, object, get, as_str}
use gwead.Dag.Step.{StepDef}
use gwead.Invoke.{NodeRef}
use gwead.Invoke.Edges.{string_at}
use gwead.Invoke.References.{
  StepReference, contains_str, is_templated, literal_of, literal_reference_target,
}

-- The text has two braces in it somewhere, or begins with a dollar sign.
abbrev pub IsTemplated : Str → Type 0
IsTemplated s =
    ((before : Str) × (rest : Str) × (s ≡ before ++ b'{' ∷ b'{' ∷ rest))
    ⊎ ((rest : Str) × (s ≡ b'$' ∷ rest))

empty_parts : (part b r : Str) → [] ≡ b ++ (part ++ r) → [] ≡ part ++ r
empty_parts part [] r e = e
empty_parts part (c ∷ b) r e = cc e

later_part :
    (part : Str) (c : ℕ) (s b r : Str)
    → ((before : Str) × (rest : Str) × (s ≡ before ++ (part ++ rest)) → contains_str part s ≡ true)
    → c ∷ s ≡ b ++ (part ++ r)
    → starts_with part (c ∷ s) ≡ false
    → contains_str part s ≡ true
later_part part c s [] r rest f e = cc (e, (starts_with_iff part (c ∷ s)).1 (r, f))
later_part part c s (d ∷ b) r rest f e = rest (b, r, cc f)

contains_str_iff :
    (part s : Str)
    → (contains_str part s ≡ true)
      ↔ ((before : Str) × (rest : Str) × (s ≡ before ++ (part ++ rest)))
unfolding contains_str
contains_str_iff part [] = (
  λ e. let (r, f) = (starts_with_iff part []).0 e in ([], r, f),
  λ (b, r, f). (starts_with_iff part []).1 (r, empty_parts part b r f),
)
contains_str_iff part (c ∷ s) = elim (Bool-cases (starts_with part (c ∷ s))) [
  | inl e ↦ rw e (λ h. let (r, f) = (starts_with_iff part (c ∷ s)).0 e in ([], r, f), λ h. refl)
  | inr e ↦ rw e (
    λ h. let (b, r, f) = (contains_str_iff part s).0 h in (c ∷ b, r, ap (λ x. c ∷ x) f),
    λ (b, r, f). later_part part c s b r (contains_str_iff part s).1 f e,
  )
]

is_templated_iff : (s : Str) → (is_templated s ≡ true) ↔ IsTemplated s
unfolding is_templated
is_templated_iff s = elim (Bool-cases (contains_str (chars "{{") s)) [
  | inl e ↦
      rw e (λ h. let (b, r, f) = (contains_str_iff (chars "{{") s).0 e in inl (b, r, f), λ h. refl)
  | inr e ↦ rw e (
    λ h. let (r, f) = (starts_with_iff (chars "$") s).0 h in inr (r, f),
    λ h. elim h [
      | inl (b, r, f) ↦ cc (e, (contains_str_iff (chars "{{") s).1 (b, r, f))
      | inr (r, f) ↦ (starts_with_iff (chars "$") s).1 (r, f)
    ],
  )
]

literal_of-Names :
    (p a : Option Str) (to : NodeRef)
    → literal_of p a ≡ some to
    → (p ≡ some to.0) × (a ≡ some to.1) × (¬ IsTemplated to.0) × (¬ IsTemplated to.1)
literal_of-Names none a to e = cc e
literal_of-Names (some p) none to e = cc e
literal_of-Names (some p) (some a) to e = elim (Bool-cases (is_templated p)) [
  | inl f ↦ cc (rw f at e)
  | inr f ↦ elim (Bool-cases (is_templated a)) [
    | inl g ↦ cc (rw (f, g) at e)
    | inr g ↦
        let same : (p, a) ≡ to = cc (rw (f, g) at e) in
        (
          ap (λ (x : NodeRef). some x.0) same,
          ap (λ (x : NodeRef). some x.1) same,
          λ t. cc (f, ap (λ (x : NodeRef). is_templated x.0) same, (is_templated_iff to.0).1 t),
          λ t. cc (g, ap (λ (x : NodeRef). is_templated x.1) same, (is_templated_iff to.1).1 t),
        )
  ]
]

not_templated : (s : Str) → ¬ IsTemplated s → is_templated s ≡ false
not_templated s h = elim (Bool-cases (is_templated s)) [
  | inl e ↦ absurd (h ((is_templated_iff s).0 e))
  | inr e ↦ e
]

module _ {N : Type 0} where
  -- The parameters have two strings under the reference's keys, neither of them a template.
  pub record Names (params : Value N) (reference : StepReference) (to : NodeRef) : Type 0 where
    pub plugin_named : get reference.plugin params ≡ some (string to.0)
    pub action_named : get reference.action params ≡ some (string to.1)
    pub plugin_literal : ¬ IsTemplated to.0
    pub action_literal : ¬ IsTemplated to.1

  as_str-string :
      (o : Option (Value N)) (s : Str)
      → (elim o [ none ↦ none | some w ↦ as_str w ]) ≡ some s
      → o ≡ some (string s)
  as_str-string none s e = cc e
  as_str-string (some (string t)) s e = cc e
  as_str-string (some null) s e = cc e
  as_str-string (some (bool b)) s e = cc e
  as_str-string (some (number n)) s e = cc e
  as_str-string (some (array vs)) s e = cc e
  as_str-string (some (object fs)) s e = cc e

  pub literal_reference_target_iff :
      (params : Value N) (reference : StepReference) (to : NodeRef)
      → (literal_reference_target params reference ≡ some to) ↔ Names params reference to
  unfolding literal_reference_target
  literal_reference_target_iff params reference to = (
    λ e.
        let (f, g, h, k) =
          literal_of-Names (string_at reference.plugin params) (string_at reference.action params)
            to e in
        record {
          plugin_named = as_str-string (get reference.plugin params) to.0 f;
          action_named = as_str-string (get reference.action params) to.1 g;
          plugin_literal = h;
          action_literal = k;
        },
    λ n.
        rw (n.plugin_named, string_at)
          (rw (n.action_named, string_at)
            (rw (not_templated to.0 n.plugin_literal)
              (rw (not_templated to.1 n.action_literal) refl))),
  )

  -- What the references name, in order, those left out that name nothing literally.
  pub data NamesAll (params : Value N) : List StepReference → List NodeRef → Type 0 where
    all_read : NamesAll params [] []
    named :
        {reference : StepReference} {to : NodeRef} {rs : List StepReference} {ts : List NodeRef}
        → Names params reference to
        → NamesAll params rs ts
        → NamesAll params (reference ∷ rs) (to ∷ ts)
    left_out :
        {reference : StepReference} {rs : List StepReference} {ts : List NodeRef}
        → ((to : NodeRef) → ¬ Names params reference to)
        → NamesAll params rs ts
        → NamesAll params (reference ∷ rs) ts

  module _ (references : Str → Option (List StepReference)) where
    -- What the references of the steps name, in order; the steps inside a step's body are not among
    -- them.
    pub data NamesInSteps : List (StepDef N) → List NodeRef → Type 0 where
      all_seen : NamesInSteps [] []
      with_references :
          {s : StepDef N} {rs : List StepReference} {steps : List (StepDef N)}
          {ts us : List NodeRef}
          → references s.step_type ≡ some rs
          → NamesAll s.params rs ts
          → NamesInSteps steps us
          → NamesInSteps (s ∷ steps) (ts ++ us)
      without :
          {s : StepDef N} {steps : List (StepDef N)} {us : List NodeRef}
          → references s.step_type ≡ none
          → NamesInSteps steps us
          → NamesInSteps (s ∷ steps) us
