-- ===== src/Invoke/Told.antt =====
-- The walk finds the arrays of steps inside a step that there are.
use gwead.Prelude.{
  ◌≡◌, ◌≢◌, inl, inr, refl, sym, ap, ◌∙◌, subst, false, Option, none, some, [], ◌∷◌, In, Bool-cases,
}
use gwead.Text.{Str, str_eq, chars}
use gwead.Text.Split.{str_eq_iff}
use gwead.Json.{Value, Items}
use gwead.Json.Size.{array_at}
use gwead.Invoke.Edges.{
  step_types_with_inner_steps, one_of, push_some, thens, arrays, under, bodies,
}
use gwead.Invoke.Bodies.{
  loops, Inside, then_of, part_of, branch_of, steps_of, IsPlain, no_steps, no_body, Told, plain,
  has, one_of_iff, apart, In-push_some, In-thens, In-arrays, In-under,
}

not_loop :
    (t s : Str)
    → t ≡ s
    → str_eq s (chars "for_each") ≡ false
    → str_eq s (chars "repeat") ≡ false
    → ¬ In t loops
not_loop t s e f g (inl x) = apart s t (chars "for_each") f e x
not_loop t s e f g (inr (inl x)) = apart s t (chars "repeat") g e x
not_loop t s e f g (inr (inr x)) = absurd x

module _ {N : Type 0} (params : Value N) where
  not-IsPlain : (t : Str) → In t step_types_with_inner_steps → ¬ In t loops → ¬ IsPlain t params
  not-IsPlain t known other (no_steps i e) = other i
  not-IsPlain t known other (no_body n) = n known

  Told-ifs :
      (t : Str)
      → In t step_types_with_inner_steps
      → t ≡ chars "ifs"
      → Told t params (some (under thens (array_at (chars "ifs") params)))
  unfolding str_eq
  Told-ifs t known e = has _ (not-IsPlain t known (not_loop t (chars "ifs") e refl refl)) (λ vs. (
    λ i.
        let (branches, f, j) = (In-under thens (array_at (chars "ifs") params) vs).0 i in
        let (b, k, g) = (In-thens vs branches).0 j in then_of branches b e f k g,
    λ x. elim x [
      | then_of branches b f g k h ↦
          (In-under thens (array_at (chars "ifs") params) vs).1
            (branches, g, (In-thens vs branches).1 (b, k, h))
      | part_of key f i g ↦ absurd (apart (chars "ifs") t (chars "try") refl e f)
      | branch_of branches b f g k h ↦ absurd (apart (chars "ifs") t (chars "parallel") refl e f)
      | steps_of i g ↦ absurd (not_loop t (chars "ifs") e refl refl i)
    ],
  ))

  Told-try :
      (t : Str)
      → In t step_types_with_inner_steps
      → t ≡ chars "try"
      → Told t params (
          some (
            push_some (array_at (chars "try") params) (
              push_some
                (array_at (chars "catch") params)
                (push_some (array_at (chars "finally") params) []))))
  unfolding str_eq
  Told-try t known e = has _ (not-IsPlain t known (not_loop t (chars "try") e refl refl)) (λ vs. (
    λ i. elim ((In-push_some vs (array_at (chars "try") params) _).0 i) [
      | inl f ↦ part_of (chars "try") e (inl refl) f
      | inr j ↦ elim ((In-push_some vs (array_at (chars "catch") params) _).0 j) [
        | inl f ↦ part_of (chars "catch") e (inr (inl refl)) f
        | inr k ↦ elim ((In-push_some vs (array_at (chars "finally") params) []).0 k) [
          | inl f ↦ part_of (chars "finally") e (inr (inr (inl refl))) f
          | inr x ↦ absurd x
        ]
      ]
    ],
    λ x. elim x [
      | part_of key f i g ↦ (In-push_some vs (array_at (chars "try") params) _).1 (elim i [
        | inl h ↦ inl (subst (λ k. array_at k params ≡ some vs) h g)
        | inr (inl h) ↦ inr (
            (In-push_some vs (array_at (chars "catch") params) _).1
              (inl (subst (λ k. array_at k params ≡ some vs) h g)))
        | inr (inr (inl h)) ↦ inr (
            (In-push_some vs (array_at (chars "catch") params) _).1 (
              inr (
                (In-push_some vs (array_at (chars "finally") params) []).1
                  (inl (subst (λ k. array_at k params ≡ some vs) h g)))))
        | inr (inr (inr y)) ↦ absurd y
      ])
      | then_of branches b f g k h ↦ absurd (apart (chars "try") t (chars "ifs") refl e f)
      | branch_of branches b f g k h ↦ absurd (apart (chars "try") t (chars "parallel") refl e f)
      | steps_of i g ↦ absurd (not_loop t (chars "try") e refl refl i)
    ],
  ))

  Told-parallel :
      (t : Str)
      → In t step_types_with_inner_steps
      → t ≡ chars "parallel"
      → Told t params (some (under arrays (array_at (chars "branches") params)))
  unfolding str_eq
  Told-parallel t known e =
      has _ (not-IsPlain t known (not_loop t (chars "parallel") e refl refl)) (λ vs. (
        λ i.
            let (branches, f, j) = (In-under arrays (array_at (chars "branches") params) vs).0 i in
            let (b, k, g) = (In-arrays vs branches).0 j in branch_of branches b e f k g,
        λ x. elim x [
          | branch_of branches b f g k h ↦
              (In-under arrays (array_at (chars "branches") params) vs).1
                (branches, g, (In-arrays vs branches).1 (b, k, h))
          | part_of key f i g ↦ absurd (apart (chars "parallel") t (chars "try") refl e f)
          | then_of branches b f g k h ↦ absurd (apart (chars "parallel") t (chars "ifs") refl e f)
          | steps_of i g ↦ absurd (not_loop t (chars "parallel") e refl refl i)
        ],
      ))

  -- a step type with a body that is none of the three is a loop
  Told-loop :
      (t : Str) (o : Option (Items N))
      → array_at (chars "steps") params ≡ o
      → In t loops
      → t ≢ chars "ifs"
      → t ≢ chars "try"
      → t ≢ chars "parallel"
      → Told t params (elim o [ none ↦ none | some inner ↦ some (inner ∷ []) ])
  Told-loop t none e i ifs try parallel = plain (no_steps i e) (λ vs x. elim x [
    | then_of branches b f g k h ↦ ifs f
    | part_of key f j g ↦ try f
    | branch_of branches b f g k h ↦ parallel f
    | steps_of j g ↦ cc (e, g)
  ])
  Told-loop t (some inner) e i ifs try parallel =
      has (inner ∷ []) (λ p. elim p [ no_steps j f ↦ cc (e, f) | no_body n ↦ n (in_all i) ])
        (λ vs. (
          λ j. elim j [ inl f ↦ steps_of i (e ∙ ap some (sym f)) | inr x ↦ absurd x ],
          λ x. elim x [
            | then_of branches b f g k h ↦ absurd (ifs f)
            | part_of key f j g ↦ absurd (try f)
            | branch_of branches b f g k h ↦ absurd (parallel f)
            | steps_of j g ↦ inl (cc (e, g))
          ],
        ))
    where
      in_all : In t loops → In t step_types_with_inner_steps
      in_all (inl x) = inl x
      in_all (inr (inl x)) = inr (inl x)
      in_all (inr (inr x)) = absurd x

  in_loops :
      (t : Str)
      → In t step_types_with_inner_steps
      → t ≢ chars "ifs"
      → t ≢ chars "try"
      → t ≢ chars "parallel"
      → In t loops
  in_loops t (inl x) ifs try parallel = inl x
  in_loops t (inr (inl x)) ifs try parallel = inr (inl x)
  in_loops t (inr (inr (inl x))) ifs try parallel = absurd (ifs x)
  in_loops t (inr (inr (inr (inl x)))) ifs try parallel = absurd (try x)
  in_loops t (inr (inr (inr (inr (inl x))))) ifs try parallel = absurd (parallel x)
  in_loops t (inr (inr (inr (inr (inr x))))) ifs try parallel = absurd x

  different : (t u : Str) → str_eq t u ≡ false → t ≢ u
  different t u e f = cc (e, (str_eq_iff t u).1 f)

  pub bodies-Told : (t : Str) → Told t params (bodies t params)
  unfolding bodies
  bodies-Told t = elim (Bool-cases (one_of t step_types_with_inner_steps)) [
    | inr e ↦
        rw (e, bodies)
          (plain (no_body (λ i. cc (e, (one_of_iff t step_types_with_inner_steps).1 i)))
            (none_inside e))
    | inl e ↦
        let known = (one_of_iff t step_types_with_inner_steps).0 e in
        rw (e, bodies)
          (elim (Bool-cases (str_eq t (chars "ifs"))) [
            | inl f ↦ rw f (Told-ifs t known ((str_eq_iff t (chars "ifs")).0 f))
            | inr f ↦ rw f (elim (Bool-cases (str_eq t (chars "try"))) [
              | inl g ↦ rw g (Told-try t known ((str_eq_iff t (chars "try")).0 g))
              | inr g ↦ rw g (elim (Bool-cases (str_eq t (chars "parallel"))) [
                | inl h ↦ rw h (Told-parallel t known ((str_eq_iff t (chars "parallel")).0 h))
                | inr h ↦ rw h (
                    Told-loop t (array_at (chars "steps") params) refl
                      (in_loops t known (different t (chars "ifs") f) (different t (chars "try") g)
                        (different t (chars "parallel") h))
                      (different t (chars "ifs") f) (different t (chars "try") g)
                      (different t (chars "parallel") h))
              ])
            ])
          ])
  ]
    where
      none_inside :
          one_of t step_types_with_inner_steps ≡ false → (vs : Items N) → ¬ Inside t params vs
      none_inside e vs x = cc (e, (one_of_iff t step_types_with_inner_steps).1 (known_of x))
        where
          known_of : Inside t params vs → In t step_types_with_inner_steps
          known_of (then_of branches b f g k h) = inr (inr (inl f))
          known_of (part_of key f j g) = inr (inr (inr (inl f)))
          known_of (branch_of branches b f g k h) = inr (inr (inr (inr (inl f))))
          known_of (steps_of (inl f) g) = inl f
          known_of (steps_of (inr (inl f)) g) = inr (inl f)
          known_of (steps_of (inr (inr f)) g) = absurd f
