-- ===== src/Invoke/Inner.antt =====
-- The arrays of steps inside a step are smaller than its parameters.
use gwead.Prelude.{
  ◌<◌, ◌≡◌, ◌⊎◌, inl, inr, sym, ap, subst, Option, none, some, List, [], ◌∷◌, In, arith, Bool-cases,
  Option-cases,
}
use gwead.Text.{Str, str_eq, chars}
use gwead.Json.{Value, Items, nil, cons, as_array}
use gwead.Json.Size.{sizes, size, array_at, array_at-size, as_array-size}
use gwead.Dag.Step.{StepDef}
use gwead.Invoke.Edges.{
  step_types_with_inner_steps, one_of, push_some, thens, arrays, under, bodies,
}

In-push_some :
    {A : Type 0} (x : A) (o : Option A) (xs : List A)
    → In x (push_some o xs)
    → (o ≡ some x) ⊎ In x xs
In-push_some x none xs i = inr i
In-push_some x (some y) xs (inl e) = inl (ap some (sym e))
In-push_some x (some y) xs (inr i) = inr i

module _ {N : Type 0} where
  thens-size : (vs branches : Items N) → In vs (thens branches) → sizes vs < sizes branches
  unfolding thens sizes
  thens-size vs nil i = absurd i
  thens-size vs (cons b rest) i =
      elim (In-push_some vs (array_at (chars "then") b) (thens rest) i) [
        | inl e ↦ omega (arith, array_at-size (chars "then") b vs e)
        | inr j ↦ omega (arith, thens-size vs rest j)
      ]

  arrays-size : (vs branches : Items N) → In vs (arrays branches) → sizes vs < sizes branches
  unfolding arrays sizes
  arrays-size vs nil i = absurd i
  arrays-size vs (cons b rest) i = elim (In-push_some vs (as_array b) (arrays rest) i) [
    | inl e ↦ omega (arith, as_array-size b vs e)
    | inr j ↦ omega (arith, arrays-size vs rest j)
  ]

  under-size :
      (f : Items N → List (Items N))
      → ((vs branches : Items N) → In vs (f branches) → sizes vs < sizes branches)
      → (key : Str) (params : Value N) (vs : Items N) → In vs (under f (array_at key params))
      → sizes vs < size params
  under-size f smaller key params vs i = elim (Option-cases (array_at key params)) [
    | inl e ↦ absurd (subst (λ o. In vs (under f o)) e i)
    | inr (ws, e) ↦
        omega
          (arith, smaller vs ws (subst (λ o. In vs (under f o)) e i), array_at-size key params ws e)
  ]

  -- what is inside a step is smaller than its parameters
  pub bodies-size :
      (s : StepDef N) (inner : List (Items N)) (vs : Items N)
      → bodies s.step_type s.params ≡ some inner
      → In vs inner
      → sizes vs < size s.params
  unfolding bodies
  bodies-size s inner vs e i = elim (Bool-cases (one_of s.step_type step_types_with_inner_steps)) [
    | inr f ↦ cc (rw f at e)
    | inl f ↦
        let e1 = rw f at e in
        elim (Bool-cases (str_eq s.step_type (chars "ifs"))) [
          | inl g ↦
              let same : under thens (array_at (chars "ifs") s.params) ≡ inner = cc (rw g at e1) in
              under-size thens thens-size (chars "ifs") s.params vs
                (subst (λ l. In vs l) (sym same) i)
          | inr g ↦
              let e2 = rw g at e1 in
              elim (Bool-cases (str_eq s.step_type (chars "try"))) [
                | inl h ↦ three (cc (rw h at e2))
                | inr h ↦
                    let e3 = rw h at e2 in
                    elim (Bool-cases (str_eq s.step_type (chars "parallel"))) [
                      | inl k ↦
                          let same : under arrays (array_at (chars "branches") s.params) ≡ inner =
                            cc (rw k at e3) in
                          under-size arrays arrays-size (chars "branches") s.params vs
                            (subst (λ l. In vs l) (sym same) i)
                      | inr k ↦
                          let e4 = rw k at e3 in
                          elim (Option-cases (array_at (chars "steps") s.params)) [
                            | inl m ↦ cc (rw m at e4)
                            | inr (ws, m) ↦
                                let same : ws ∷ [] ≡ inner = cc (rw m at e4) in
                                elim (subst (λ l. In vs l) (sym same) i) [
                                  | inl n ↦ omega (
                                    arith,
                                    ap sizes n,
                                    array_at-size (chars "steps") s.params ws m,
                                  )
                                  | inr n ↦ absurd n
                                ]
                          ]
                    ]
              ]
        ]
  ]
    where
      three :
          push_some (array_at (chars "try") s.params) (
              push_some
                (array_at (chars "catch") s.params)
                (push_some (array_at (chars "finally") s.params) []))
            ≡ inner
          → sizes vs < size s.params
      three same =
          elim (In-push_some vs (array_at (chars "try") s.params) _
            (subst (λ l. In vs l) (sym same) i)) [
              | inl e ↦ array_at-size (chars "try") s.params vs e
              | inr j ↦ elim (In-push_some vs (array_at (chars "catch") s.params) _ j) [
                | inl e ↦ array_at-size (chars "catch") s.params vs e
                | inr k ↦ elim (In-push_some vs (array_at (chars "finally") s.params) [] k) [
                  | inl e ↦ array_at-size (chars "finally") s.params vs e
                  | inr x ↦ absurd x
                ]
              ]
            ]
