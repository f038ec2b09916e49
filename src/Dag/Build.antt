-- ===== src/Dag/Build.antt =====
-- build_plan as a whole: the plan that it accepts, and that it never fails to layer one.
use gwead.Prelude.{
  get_elem?-lt, ℕ, zero, suc, ◌+◌, ◌<◌, ◌≡◌, refl, sym, ap, ◌∙◌, subst, ◌↔◌, ◌⊎◌, inl, inr, Bool,
  some, List, [], ◌∷◌, length, get_elem?, replicate, length-replicate, All, In, arith, Bool-cases,
  ◌==◌, ==_iff,
}
use gwead.Prelude.Outcome.{Result, ok, err}
use gwead.Fault.{Fault, error}
use gwead.Text.{Str}
use gwead.Dag.Step.{StepDef}
use gwead.Dag.Scan.{extract_step_deps}
use gwead.Dag.{DagError, DagPlan, Edges, index_of, build_plan}
use gwead.Dag.Links.{row}
use gwead.Dag.Waves.{Earlier, Runs, layer_into_waves-Runs}
use gwead.Dag.Plan.{IsNoCycle, IdAt, index_ids-Maps, Refers, Built, build_edges-Built}

not-In-replicate : (n j d : ℕ) → ¬ In d (row (replicate n []) j)
not-In-replicate zero j d h = h
not-In-replicate (suc n) zero d h = h
not-In-replicate (suc n) (suc j) d h = not-In-replicate n j d h

All-In : (P : ℕ → Type 0) (xs : List ℕ) → ((x : ℕ) → In x xs → P x) → All P xs
All-In P [] h = tt
All-In P (x ∷ xs) h = (h x (inl refl), All-In P xs (λ y m. h y (inr m)))

Earlier-rows : (i : ℕ) (v : List (List ℕ)) → ((k d : ℕ) → In d (row v k) → d < i + k) → Earlier i v
Earlier-rows i [] h = tt
Earlier-rows i (r ∷ v) h = (
  All-In (λ d. d < i) r (λ d m. omega (arith, h 0 d m)),
  Earlier-rows (suc i) v (λ k d m. omega (arith, h (suc k) d m)),
)

module _ {N : Type 0} (refs : Str → List Str) (is_unrooted : Str → Bool)
    (steps : List (StepDef N)) where
  -- A plan of the steps: no two steps share an id, the deps of a step are the steps whose ids it
  -- refers to, each an earlier one, the consumers are the deps read the other way round, and the
  -- waves run every step exactly once, after its deps.
  pub record IsPlan (plan : DagPlan) : Type 0 where
    pub ids :
        (j k : ℕ) (s t : StepDef N)
        → get_elem? steps j ≡ some s
        → get_elem? steps k ≡ some t
        → s.id ≡ t.id
        → j ≡ k
    pub size : length plan.deps ≡ length steps
    pub edges :
        (j d : ℕ)
        → In d (row plan.deps j) ↔ (
            (s : StepDef N) × (t : StepDef N) × (get_elem? steps j ≡ some s)
            × (get_elem? steps d ≡ some t)
            × In t.id (extract_step_deps refs s))
    pub earlier : (j d : ℕ) → In d (row plan.deps j) → d < j
    pub consumers : (j d : ℕ) → In d (row plan.deps j) ↔ In j (row plan.consumers d)
    pub waves : Runs (length steps) plan.deps [] plan.waves

  -- a plan, or an error of the manifest that is no cycle
  abbrev pub Planned : Result (Fault DagError) DagPlan → Type 0
  Planned r =
      ((plan : DagPlan) × (r ≡ ok plan) × IsPlan plan)
      ⊎ ((e : DagError) × (r ≡ err (error e)) × IsNoCycle e)

  abbrev start : Edges
  start = record { deps = replicate (length steps) []; consumers = replicate (length steps) [] }

  module _ (map : List (Str × ℕ))
      (maps : (id : Str) (j : ℕ) → (index_of id map ≡ some j) ↔ IdAt steps j id) (e : Edges)
      (b : Built refs is_unrooted steps map 0 start e) where
    refers : (j d : ℕ) → In d (row e.deps j) ↔ Refers refs is_unrooted steps map j d
    refers j d = (
      λ h. elim ((b.links j d).0 h) [
        | inl x ↦ absurd (not-In-replicate (length steps) j d x)
        | inr (_, r) ↦ r
      ],
      λ r. (b.links j d).1 (inr (omega arith, r)),
    )

    is_earlier : (j d : ℕ) → In d (row e.deps j) → d < j
    is_earlier j d h =
        let (step, at, (ref, m, f)) = (refers j d).0 h in
        let (other, d', f', low) = b.checked j step ref (omega arith) at m in
        let same : d ≡ d' = cc (f, f') in
        elim (Bool-cases (d == j)) [
          | inr p ↦ ground (arith, low, same)
          | inl p ↦
              let (s, at', named) = (maps ref d).0 f in
              let q : s ≡ step = cc (at, at', ap (get_elem? steps) ((==_iff d j).0 p)) in
              absurd (other (sym named ∙ ap (λ (x : StepDef N). x.id) q))
        ]

    is_plan :
        (ws : List (List ℕ))
        → Runs (length e.deps) e.deps [] ws
        → IsPlan (record { waves = ws; deps = e.deps; consumers = e.consumers })
    is_plan ws runs = record {
      ids = λ j k s t at at' same.
          let f = (maps s.id j).1 (s, at, refl) in
          let g = (maps t.id k).1 (t, at', refl) in cc (f, g, ap (λ x. index_of x map) same);
      size = size;
      edges = λ j d. (
        λ h.
            let (s, at, (ref, m, f)) = (refers j d).0 h in
            let (t, at', named) = (maps ref d).0 f in
            (s, t, at, at', subst (λ x. In x (extract_step_deps refs s)) (sym named) m),
        λ (s, t, at, at', m). (refers j d).1 (s, at, (t.id, m, (maps t.id d).1 (t, at', refl))),
      );
      earlier = is_earlier;
      consumers = b.mirror (λ j d. (
        λ h. absurd (not-In-replicate (length steps) j d h),
        λ h. absurd (not-In-replicate (length steps) d j h),
      ));
      waves = subst (λ n. Runs n e.deps [] ws) size runs;
    }
      where
        size : length e.deps ≡ length steps
        size = b.deps_size ∙ length-replicate (length steps) []

  -- build_plan gives a plan of the steps, or reports an error that is no cycle: it always returns,
  -- and the layering never fails.
  pub build_plan_total : Planned (build_plan refs is_unrooted steps)
  unfolding build_plan
  build_plan_total =
      elim (index_ids-Maps steps 0 steps [] (λ k. ap (get_elem? steps) (omega arith)) empty) [
        | inr (x, f, c) ↦ rw f (inr (x, refl, c))
        | inl (map, f, maps) ↦
            rw f
              (elim (build_edges-Built refs is_unrooted steps map (length steps)
                (λ ref d g. let (s, at, _) = (maps ref d).0 g in get_elem?-lt steps d s at) 0 steps
                start (λ k. ap (get_elem? steps) (omega arith))
                (omega (arith, length-replicate {A = List ℕ} (length steps) []))
                (length-replicate (length steps) [])) [
                  | inr (x, g, c) ↦ rw g (inr (x, refl, c))
                  | inl (e, g, b) ↦
                      let (ws, h, runs) = layer_into_waves-Runs e.deps steps (
                        Earlier-rows 0 e.deps
                          (λ k d m. omega (arith, is_earlier map maps e b k d m))) in
                      rw g (
                        rw h (
                          inl (
                            record { waves = ws; deps = e.deps; consumers = e.consumers },
                            refl,
                            is_plan map maps e b ws runs,
                          )))
                ])
      ]
    where
      empty : (id : Str) (j : ℕ) → (index_of id [] ≡ some j) ↔ ((j < 0) × IdAt steps j id)
      empty id j = (λ h. unfold index_of in cc h, λ (lt, _). absurd (omega arith))
