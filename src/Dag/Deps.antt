-- ===== src/Dag/Deps.antt =====
-- Which step ids a step depends on, by an independent description.
use gwead.Prelude.{
  In-append, ◌≡◌, ◌↔◌, ◌⊎◌, refl, sym, subst, true, false, List, [], ◌∷◌, In, inl, inr, arith,
  Bool-cases,
}
use gwead.Text.{Str, str_eq}
use gwead.Text.Split.{str_eq_iff}
use gwead.Json.{
  Value, Items, Fields, null, bool, number, string, array, object, nil, cons, end, field,
}
use gwead.Dag.Step.{StepDef}
use gwead.Dag.Inner.{Defines}
use gwead.Dag.Collected.{Or-none, Or-step, In-collect_inner_step_ids}
use gwead.Dag.Scan.{
  has_id, push_unique, push_all, scan_value, scan_items, scan_fields, collect_inner_step_ids,
  push_outer, extract_step_deps,
}

has_id_iff : (id : Str) (ids : List Str) → (has_id id ids ≡ true) ↔ In id ids
unfolding has_id
has_id_iff id [] = (λ e. cc e, λ h. absurd h)
has_id_iff id (s ∷ ids) = (
  λ e. elim (Bool-cases (str_eq s id)) [
    | inl f ↦ inl (sym ((str_eq_iff s id).0 f))
    | inr f ↦ inr ((has_id_iff id ids).0 (ground arith))
  ],
  λ h. elim h [
    | inl e ↦ rw ((str_eq_iff s id).1 (sym e)) refl
    | inr i ↦ let found = (has_id_iff id ids).1 i in ground arith
  ],
)

In-push_unique : (a id : Str) (out : List Str) → In a (push_unique id out) ↔ (In a out ⊎ (a ≡ id))
unfolding push_unique
In-push_unique a id out = elim (Bool-cases (has_id id out)) [
  | inl e ↦ rw e (
    λ h. inl h,
    λ h. elim h [ inl i ↦ i | inr f ↦ subst (λ x. In x out) (sym f) ((has_id_iff id out).0 e) ],
  )
  | inr e ↦ rw e (
    λ h. elim ((In-append a out (id ∷ [])).0 h) [
      | inl i ↦ inl i
      | inr (inl f) ↦ inr f
      | inr (inr f) ↦ absurd f
    ],
    λ h. (In-append a out (id ∷ [])).1 (elim h [ inl i ↦ inl i | inr f ↦ inr (inl f) ]),
  )
]

In-push_all : (a : Str) (ids out : List Str) → In a (push_all ids out) ↔ (In a out ⊎ In a ids)
unfolding push_all
In-push_all a [] out = (λ h. inl h, λ h. elim h [ inl i ↦ i | inr x ↦ absurd x ])
In-push_all a (id ∷ ids) out =
    let later = In-push_all a ids (push_unique id out) in
    let here = In-push_unique a id out in
    (
      λ h. elim (later.0 h) [
        | inl i ↦ elim (here.0 i) [ inl j ↦ inl j | inr e ↦ inr (inl e) ]
        | inr i ↦ inr (inr i)
      ],
      λ h. elim h [
        | inl i ↦ later.1 (inl (here.1 (inl i)))
        | inr (inl e) ↦ later.1 (inl (here.1 (inr e)))
        | inr (inr i) ↦ later.1 (inr i)
      ],
    )

In-push_outer :
    (a : Str) (local ids out : List Str)
    → In a (push_outer local ids out) ↔ (In a out ⊎ (In a ids × (has_id a local ≡ false)))
unfolding push_outer
In-push_outer a local [] out = (λ h. inl h, λ h. elim h [ inl i ↦ i | inr (x, e) ↦ absurd x ])
In-push_outer a local (id ∷ ids) out = elim (Bool-cases (has_id id local)) [
  | inl e ↦ rw e (
    λ h. elim ((In-push_outer a local ids out).0 h) [ inl i ↦ inl i | inr (i, f) ↦ inr (inr i, f) ],
    λ h. elim h [
      | inl i ↦ (In-push_outer a local ids out).1 (inl i)
      | inr (inl f, g) ↦ cc (e, f, g)
      | inr (inr i, g) ↦ (In-push_outer a local ids out).1 (inr (i, g))
    ],
  )
  | inr e ↦ rw e (
    λ h. elim ((In-push_outer a local ids (push_unique id out)).0 h) [
      | inl i ↦ elim ((In-push_unique a id out).0 i) [ inl j ↦ inl j | inr f ↦ inr (inl f, rw f e) ]
      | inr (i, f) ↦ inr (inr i, f)
    ],
    λ h. (In-push_outer a local ids (push_unique id out)).1 (elim h [
      | inl i ↦ inl ((In-push_unique a id out).1 (inl i))
      | inr (inl f, g) ↦ inl ((In-push_unique a id out).1 (inr f))
      | inr (inr i, g) ↦ inr (i, g)
    ]),
  )
]

module _ {N : Type 0} (refs : Str → List Str) where
  -- `id` is referred to by a string somewhere in the value
  unfoldable mutual
    pub Mentions : Str → Value N → Type 0
    Mentions id (string s) = In id (refs s)
    Mentions id (array vs) = MentionsItems id vs
    Mentions id (object fs) = MentionsFields id fs
    Mentions id _ = ⊥

    pub MentionsItems : Str → Items N → Type 0
    MentionsItems id nil = ⊥
    MentionsItems id (cons v vs) = Mentions id v ⊎ MentionsItems id vs

    pub MentionsFields : Str → Fields N → Type 0
    MentionsFields id end = ⊥
    MentionsFields id (field k v fs) = Mentions id v ⊎ MentionsFields id fs

  mutual
    unfolding scan_value scan_items scan_fields Mentions MentionsItems MentionsFields

    In-scan_value :
        (a : Str) (v : Value N) (out : List Str)
        → In a (scan_value refs v out) ↔ (In a out ⊎ Mentions a v)
    In-scan_value a (string s) out = In-push_all a (refs s) out
    In-scan_value a (array vs) out = In-scan_items a vs out
    In-scan_value a (object fs) out = In-scan_fields a fs out
    In-scan_value a null out = Or-none (λ x. x)
    In-scan_value a (bool b) out = Or-none (λ x. x)
    In-scan_value a (number n) out = Or-none (λ x. x)

    In-scan_items :
        (a : Str) (vs : Items N) (out : List Str)
        → In a (scan_items refs vs out) ↔ (In a out ⊎ MentionsItems a vs)
    In-scan_items a nil out = Or-none (λ x. x)
    In-scan_items a (cons v vs) out =
        Or-step (In-scan_items a vs (scan_value refs v out)) (In-scan_value a v out)

    In-scan_fields :
        (a : Str) (fs : Fields N) (out : List Str)
        → In a (scan_fields refs fs out) ↔ (In a out ⊎ MentionsFields a fs)
    In-scan_fields a end out = Or-none (λ x. x)
    In-scan_fields a (field k v fs) out =
        Or-step (In-scan_fields a fs (scan_value refs v out)) (In-scan_value a v out)

  -- A step depends on an id exactly if `depends_on` lists it, or a string in its parameters refers to
  -- it and no step with that id is defined in the bodies inside them, however deep.
  pub extract_step_deps_iff :
      (id : Str) (step : StepDef N)
      → In id (extract_step_deps refs step)
        ↔ (In id step.depends_on ⊎ (Mentions id step.params × (¬ Defines id step.params)))
  unfolding extract_step_deps
  extract_step_deps_iff id step =
      let local = collect_inner_step_ids step.params [] in
      let outer =
        In-push_outer id local (scan_value refs step.params []) (push_all step.depends_on []) in
      let listed = In-push_all id step.depends_on [] in
      let scanned = In-scan_value id step.params [] in
      let defined = In-collect_inner_step_ids id step.params [] in
      (
        λ h. elim (outer.0 h) [
          | inl i ↦ elim (listed.0 i) [ inl x ↦ absurd x | inr j ↦ inl j ]
          | inr (i, e) ↦ elim (scanned.0 i) [
            | inl x ↦ absurd x
            | inr j ↦ inr (j, λ d. cc (e, (has_id_iff id local).1 (defined.1 (inr d))))
          ]
        ],
        λ h. outer.1 (elim h [
          | inl i ↦ inl (listed.1 (inr i))
          | inr (j, never) ↦ inr (
            scanned.1 (inr j),
            elim (Bool-cases (has_id id local)) [
              | inr e ↦ e
              | inl e ↦ elim (defined.0 ((has_id_iff id local).0 e)) [
                | inl x ↦ absurd x
                | inr d ↦ absurd (never d)
              ]
            ],
          )
        ]),
      )
