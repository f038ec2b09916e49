-- ===== src/Invoke/Bodies.antt =====
-- The arrays of steps inside a step, told without the walk that finds them.
use gwead.Prelude.{
  ◌≡◌, ◌↔◌, ◌⊎◌, inl, inr, refl, sym, ap, ◌∙◌, subst, true, false, Option, none, some, List, [],
  ◌∷◌, In, Bool-cases,
}
use gwead.Text.{Str, str_eq, chars}
use gwead.Text.Split.{str_eq_iff}
use gwead.Json.{Value, Items, nil, cons, elements, as_array}
use gwead.Json.Size.{array_at}
use gwead.Invoke.Edges.{step_types_with_inner_steps, one_of, push_some, thens, arrays, under}

abbrev pub loops : List Str
loops = chars "for_each" ∷ chars "repeat" ∷ []

abbrev pub parts : List Str
parts = chars "try" ∷ chars "catch" ∷ chars "finally" ∷ []

module _ {N : Type 0} where
  -- Where a step of this type and with these parameters has an array of inner steps.
  pub data Inside (t : Str) (params : Value N) (vs : Items N) : Type 0 where
    then_of :
        (branches : Items N) (b : Value N)
        → t ≡ chars "ifs"
        → array_at (chars "ifs") params ≡ some branches
        → In b (elements branches)
        → array_at (chars "then") b ≡ some vs
        → Inside t params vs
    part_of :
        (key : Str)
        → t ≡ chars "try"
        → In key parts
        → array_at key params ≡ some vs
        → Inside t params vs
    branch_of :
        (branches : Items N) (b : Value N)
        → t ≡ chars "parallel"
        → array_at (chars "branches") params ≡ some branches
        → In b (elements branches)
        → as_array b ≡ some vs
        → Inside t params vs
    steps_of : In t loops → array_at (chars "steps") params ≡ some vs → Inside t params vs

  -- The step has no bodies of its own, so that its type may be an alias.
  pub data IsPlain (t : Str) (params : Value N) : Type 0 where
    no_steps : In t loops → array_at (chars "steps") params ≡ none → IsPlain t params
    no_body : ¬ In t step_types_with_inner_steps → IsPlain t params

  pub data Told (t : Str) (params : Value N) : Option (List (Items N)) → Type 0 where
    plain : IsPlain t params → ((vs : Items N) → ¬ Inside t params vs) → Told t params none
    has :
        (inner : List (Items N))
        → ¬ IsPlain t params
        → ((vs : Items N) → In vs inner ↔ Inside t params vs)
        → Told t params (some inner)

pub one_of_iff : (t : Str) (ts : List Str) → (one_of t ts ≡ true) ↔ In t ts
unfolding one_of
one_of_iff t [] = (λ e. cc e, λ i. absurd i)
one_of_iff t (u ∷ ts) = elim (Bool-cases (str_eq t u)) [
  | inl e ↦ rw e (λ h. inl ((str_eq_iff t u).0 e), λ i. refl)
  | inr e ↦ rw e (
    λ h. inr ((one_of_iff t ts).0 h),
    λ i. elim i [ inl f ↦ cc (e, (str_eq_iff t u).1 f) | inr j ↦ (one_of_iff t ts).1 j ],
  )
]

-- two texts that the test tells apart
pub apart : (s t u : Str) → str_eq s u ≡ false → t ≡ s → t ≡ u → ⊥
apart s t u e f g = cc (e, (str_eq_iff s u).1 (sym f ∙ g))

pub In-push_some :
    {A : Type 0} (x : A) (o : Option A) (xs : List A)
    → In x (push_some o xs) ↔ ((o ≡ some x) ⊎ In x xs)
In-push_some x none xs = (λ i. inr i, λ i. elim i [ inl e ↦ cc e | inr j ↦ j ])
In-push_some x (some y) xs = (
  λ i. elim i [ inl e ↦ inl (ap some (sym e)) | inr j ↦ inr j ],
  λ i. elim i [ inl e ↦ inl (cc e) | inr j ↦ inr j ],
)

module _ {N : Type 0} where
  pub In-thens :
      (vs branches : Items N)
      → In vs (thens branches)
        ↔ ((b : Value N) × In b (elements branches) × (array_at (chars "then") b ≡ some vs))
  unfolding thens
  In-thens vs nil = (λ i. absurd i, λ x. x.1)
  In-thens vs (cons b rest) = (
    λ i. elim ((In-push_some vs (array_at (chars "then") b) (thens rest)).0 i) [
      | inl e ↦ (b, inl refl, e)
      | inr j ↦ let (c, k, e) = (In-thens vs rest).0 j in (c, inr k, e)
    ],
    λ (c, k, e). (In-push_some vs (array_at (chars "then") b) (thens rest)).1 (elim k [
      | inl f ↦ inl (subst (λ x. array_at (chars "then") x ≡ some vs) f e)
      | inr j ↦ inr ((In-thens vs rest).1 (c, j, e))
    ]),
  )

  pub In-arrays :
      (vs branches : Items N)
      → In vs (arrays branches)
        ↔ ((b : Value N) × In b (elements branches) × (as_array b ≡ some vs))
  unfolding arrays
  In-arrays vs nil = (λ i. absurd i, λ x. x.1)
  In-arrays vs (cons b rest) = (
    λ i. elim ((In-push_some vs (as_array b) (arrays rest)).0 i) [
      | inl e ↦ (b, inl refl, e)
      | inr j ↦ let (c, k, e) = (In-arrays vs rest).0 j in (c, inr k, e)
    ],
    λ (c, k, e). (In-push_some vs (as_array b) (arrays rest)).1 (elim k [
      | inl f ↦ inl (subst (λ x. as_array x ≡ some vs) f e)
      | inr j ↦ inr ((In-arrays vs rest).1 (c, j, e))
    ]),
  )

  pub In-under :
      (f : Items N → List (Items N)) (o : Option (Items N)) (vs : Items N)
      → In vs (under f o) ↔ ((branches : Items N) × (o ≡ some branches) × In vs (f branches))
  In-under f none vs = (λ i. absurd i, λ (b, e, i). cc e)
  In-under f (some ws) vs = (λ i. (ws, refl, i), λ (b, e, i). subst (λ x. In vs (f x)) (cc e) i)
