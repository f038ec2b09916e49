-- ===== src/Dag/Plan.antt =====
-- The first two passes of build_plan: the map of ids, and the edges of all steps.
use gwead.Prelude.{
  ℕ, suc, ◌+◌, ◌-◌, ◌≤◌, ◌<◌, ◌≡◌, ◌≢◌, refl, sym, ap, ◌∙◌, subst, ◌↔◌, ◌⊎◌, inl, inr, Bool, none,
  some, List, [], ◌∷◌, length, get_elem?, In, arith, Bool-cases, Option-cases, ltb, ◌==◌, ==_iff,
}
use gwead.Prelude.Outcome.{Result, ok, err, ◌>>=◌}
use gwead.Text.{Str, str_eq}
use gwead.Text.Split.{str_eq_iff}
use gwead.Dag.Step.{StepDef}
use gwead.Dag.Scan.{extract_step_deps, contains_unrooted_steps_template}
use gwead.Dag.{
  DagError, Edges, cycle, self_ref, forward_ref, unrooted_steps_reference, duplicate_step_id,
  unknown_step_ref, index_of, index_ids, resolve_refs, build_edges,
}
use gwead.Dag.Links.{row, Mirror, Target, Resolved, resolve_refs-Resolved}

abbrev pub IsNoCycle : DagError → Type 0
IsNoCycle (cycle ids) = ⊥
IsNoCycle _ = Unit

module _ {N : Type 0} where
  -- step `j` has this id
  abbrev pub IdAt : List (StepDef N) → ℕ → Str → Type 0
  IdAt steps j id = (step : StepDef N) × (get_elem? steps j ≡ some step) × (step.id ≡ id)

  -- the map of the ids of the steps below `i`
  abbrev pub Maps : List (StepDef N) → ℕ → List (Str × ℕ) → Type 0
  Maps steps i map = (id : Str) (j : ℕ) → (index_of id map ≡ some j) ↔ ((j < i) × IdAt steps j id)

  Maps-cons :
      (steps : List (StepDef N)) (i : ℕ) (map : List (Str × ℕ)) (step : StepDef N)
      → get_elem? steps i ≡ some step
      → index_of step.id map ≡ none
      → Maps steps i map
      → Maps steps (suc i) ((step.id, i) ∷ map)
  unfolding index_of
  Maps-cons steps i map step here new m id j = elim (Bool-cases (str_eq step.id id)) [
    | inl e ↦
        let same = (str_eq_iff step.id id).0 e in
        rw e (
          λ h.
              let p : i ≡ j = cc h in
              (omega arith, (step, subst (λ x. get_elem? steps x ≡ some step) p here, same)),
          λ (lt, at). elim (Bool-cases (j == i)) [
            | inl p ↦ ap some (sym ((==_iff j i).0 p))
            | inr p ↦
                absurd (cc ((m id j).1 (ground arith, at), new, ap (λ x. index_of x map) same))
          ],
        )
    | inr e ↦ rw e (
      λ h. let (lt, at) = (m id j).0 h in (omega arith, at),
      λ (lt, at). elim (Bool-cases (j == i)) [
        | inl p ↦ absurd (cc (e, (str_eq_iff step.id id).1 (named at ((==_iff j i).0 p))))
        | inr p ↦ (m id j).1 (ground arith, at)
      ],
    )
  ]
    where
      named : IdAt steps j id → j ≡ i → step.id ≡ id
      named (s, f, g) p =
          let t : some s ≡ some step = sym f ∙ ap (get_elem? steps) p ∙ here in cc (t, g)

  -- What the loop that fills `id_to_index` makes of the steps from `i` on.
  pub index_ids-Maps :
      (steps : List (StepDef N)) (i : ℕ) (rest : List (StepDef N)) (map : List (Str × ℕ))
      → ((k : ℕ) → get_elem? rest k ≡ get_elem? steps (i + k))
      → Maps steps i map
      → ((map' : List (Str × ℕ)) × (index_ids i rest map ≡ ok map')
          × ((id : Str) (j : ℕ) → (index_of id map' ≡ some j) ↔ IdAt steps j id))
        ⊎ ((e : DagError) × (index_ids i rest map ≡ err e) × IsNoCycle e)
  unfolding index_ids
  index_ids-Maps steps i [] map here m = inl (
    map,
    refl,
    λ id j. (
      λ h. ((m id j).0 h).1,
      λ (s, f, g). elim (Bool-cases (ltb j i)) [
        | inl p ↦ (m id j).1 (ground arith, (s, f, g))
        | inr p ↦
            cc (here (j - i), f, ap (get_elem? steps) (let z : j ≡ i + (j - i) = ground arith in z))
      ],
    ),
  )
  index_ids-Maps steps i (step ∷ rest) map here m = elim (Option-cases (index_of step.id map)) [
    | inr (j, e) ↦ rw (e, index_ids) (inr (duplicate_step_id step.id, refl, tt))
    | inl e ↦
        rw (e, index_ids)
          (index_ids-Maps steps (suc i) rest ((step.id, i) ∷ map)
            (λ k. here (suc k) ∙ ap (get_elem? steps) (omega arith))
            (Maps-cons steps i map step (sym (here 0 ∙ ap (get_elem? steps) (omega arith))) e m))
  ]

-- no error of the loop over refs is a cycle
resolve_refs-IsNoCycle :
    (id : Str) (i : ℕ) (map : List (Str × ℕ)) (refs : List Str) (seen : List ℕ) (e : Edges)
    (x : DagError)
    → resolve_refs id i map refs seen e ≡ err x
    → IsNoCycle x
unfolding resolve_refs
resolve_refs-IsNoCycle id i map [] seen e x h = cc h
resolve_refs-IsNoCycle id i map (ref ∷ rest) seen e x h = elim (Bool-cases (str_eq ref id)) [
  | inl self ↦ subst IsNoCycle {x = self_ref id} (cc (rw self at h)) tt
  | inr other ↦ elim (Option-cases (index_of ref map)) [
    | inl unknown ↦ subst IsNoCycle {x = unknown_step_ref id ref} (cc (rw (other, unknown) at h)) tt
    | inr (target, found) ↦ elim (Bool-cases (ltb i target)) [
      | inl forward ↦
          subst IsNoCycle {x = forward_ref id ref} (cc (rw (other, found, forward) at h)) tt
      | inr low ↦
          resolve_refs-IsNoCycle id i map rest (target ∷ seen) _ x (rw (other, found, low) at h)
    ]
  ]
]

module _ {N : Type 0} (refs : Str → List Str) (is_unrooted : Str → Bool) where
  -- the steps that step `j` of the list refers to, by the map
  abbrev pub Refers : List (StepDef N) → List (Str × ℕ) → ℕ → ℕ → Type 0
  Refers steps map j d =
      (step : StepDef N) × (get_elem? steps j ≡ some step)
      × Target map (extract_step_deps refs step) d

  -- What the loop over the steps from `i` on does to the edges, and what it has checked.
  pub record Built (steps : List (StepDef N)) (map : List (Str × ℕ)) (i : ℕ) (e e' : Edges)
      : Type 0 where
    pub deps_size : length e'.deps ≡ length e.deps
    pub links :
        (j d : ℕ) → In d (row e'.deps j) ↔ (In d (row e.deps j) ⊎ ((i ≤ j) × Refers steps map j d))
    pub mirror : Mirror e → Mirror e'
    pub checked :
        (j : ℕ) (step : StepDef N) (ref : Str)
        → i ≤ j
        → get_elem? steps j ≡ some step
        → In ref (extract_step_deps refs step)
        → (ref ≢ step.id) × (d : ℕ) × (index_of ref map ≡ some d) × (d ≤ j)

  Built-cons :
      (steps : List (StepDef N)) (map : List (Str × ℕ)) (i : ℕ) (step : StepDef N) (e e₁ e' : Edges)
      → get_elem? steps i ≡ some step
      → Resolved step.id i map (extract_step_deps refs step) e e₁
      → Built steps map (suc i) e₁ e'
      → Built steps map i e e'
  Built-cons steps map i step e e₁ e' here r b = record {
    deps_size = b.deps_size ∙ r.deps_size;
    links = λ j d. (
      λ h. elim ((b.links j d).0 h) [
        | inl x ↦ elim ((r.links j d).0 x) [
          | inl y ↦ inl y
          | inr (p, t) ↦ inr (omega (arith, p), (step, ap (get_elem? steps) p ∙ here, t))
        ]
        | inr (lt, s) ↦ inr (omega (arith, lt), s)
      ],
      elim [
        | inl x ↦ (b.links j d).1 (inl ((r.links j d).1 (inl x)))
        | inr (lt, (s, f, t)) ↦ elim (Bool-cases (j == i)) [
          | inl p ↦
              let q = (==_iff j i).0 p in
              let same : step ≡ s = cc (f, here, ap (get_elem? steps) q) in
              (b.links j d).1 (
                inl (
                  (r.links j d).1
                    (inr (q, subst (λ x. Target map (extract_step_deps refs x) d) (sym same) t))))
          | inr p ↦ (b.links j d).1 (inr (ground (arith, lt), (s, f, t)))
        ]
      ],
    );
    mirror = λ m. b.mirror (r.mirror m);
    checked = λ j s ref lt f m. elim (Bool-cases (j == i)) [
      | inl p ↦
          let q = (==_iff j i).0 p in
          let same : step ≡ s = cc (f, here, ap (get_elem? steps) q) in
          let (ne, d, g, low) =
            r.checked ref (subst (λ x. In ref (extract_step_deps refs x)) (sym same) m) in
          (λ z. ne (z ∙ ap (λ (x : StepDef N). x.id) (sym same)), d, g, omega (arith, low, q))
      | inr p ↦ b.checked j s ref (ground (arith, lt)) f m
    ];
  }

  module _ (steps : List (StepDef N)) (map : List (Str × ℕ)) (n : ℕ)
      (inside : (ref : Str) (d : ℕ) → index_of ref map ≡ some d → d < n) where
    pub build_edges-Built :
        (i : ℕ) (rest : List (StepDef N)) (e : Edges)
        → ((k : ℕ) → get_elem? rest k ≡ get_elem? steps (i + k))
        → i + length rest ≤ length e.deps
        → length e.consumers ≡ n
        → ((e' : Edges) × (build_edges refs is_unrooted i map rest e ≡ ok e')
            × Built steps map i e e')
          ⊎ ((x : DagError) × (build_edges refs is_unrooted i map rest e ≡ err x) × IsNoCycle x)
    unfolding build_edges
    build_edges-Built i [] e here size size' = inl (
      e,
      refl,
      record {
        deps_size = refl;
        links = λ j d. (inl, elim [ inl x ↦ x | inr (lt, (s, f, t)) ↦ absurd (beyond j s lt f) ]);
        mirror = λ m. m;
        checked = λ j s ref lt f m. absurd (beyond j s lt f);
      },
    )
      where
        beyond : (j : ℕ) (s : StepDef N) → i ≤ j → get_elem? steps j ≡ some s → ⊥
        beyond j s lt f =
            cc (here (j - i), f, ap (get_elem? steps) (let z : j ≡ i + (j - i) = omega arith in z))
    build_edges-Built i (step ∷ rest) e here size size' =
        elim (Bool-cases (contains_unrooted_steps_template is_unrooted step.params)) [
          | inl u ↦ rw u (inr (unrooted_steps_reference step.id, refl, tt))
          | inr u ↦ rw u (
              from (resolve_refs step.id i map (extract_step_deps refs step) [] e) refl λ e₁ r.
                build_edges-Built (suc i) rest e₁
                  (λ k. here (suc k) ∙ ap (get_elem? steps) (omega arith))
                  (omega (arith, r.deps_size, size)) (r.consumers_size ∙ size'))
        ]
      where
        Result₁ : Result DagError Edges → Type 0
        Result₁ o =
            ((e' : Edges) × (o ≡ ok e') × Built steps map i e e')
            ⊎ ((x : DagError) × (o ≡ err x) × IsNoCycle x)

        from :
            (o : Result DagError Edges)
            → resolve_refs step.id i map (extract_step_deps refs step) [] e ≡ o
            → ((e₁ : Edges)
                → Resolved step.id i map (extract_step_deps refs step) e e₁
                → ((e' : Edges) × (build_edges refs is_unrooted (suc i) map rest e₁ ≡ ok e')
                    × Built steps map (suc i) e₁ e')
                  ⊎ ((x : DagError) × (build_edges refs is_unrooted (suc i) map rest e₁ ≡ err x)
                      × IsNoCycle x))
            → Result₁ (o >>= λ e'. build_edges refs is_unrooted (suc i) map rest e')
        from (err x) f next =
            inr
              (x, refl, resolve_refs-IsNoCycle step.id i map (extract_step_deps refs step) [] e x f)
        from (ok e₁) f next =
            let r =
              resolve_refs-Resolved step.id i map n inside (extract_step_deps refs step) [] e e₁
                (omega arith) size' (λ d h. absurd h) f in
            elim (next e₁ r) [
              | inr (x, g, c) ↦ inr (x, g, c)
              | inl (e', g, b) ↦ inl (
                e',
                g,
                Built-cons steps map i step e e₁ e'
                    (sym (here 0 ∙ ap (get_elem? steps) (omega arith))) r b,
              )
            ]
