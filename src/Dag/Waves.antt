-- ===== src/Dag/Waves.antt =====
-- layer_into_waves: where every dep is an earlier step it returns, and its waves are a schedule.
use gwead.Prelude.{
  ℕ, zero, suc, ◌+◌, ◌-◌, ◌≤◌, ◌<◌, ◌≡◌, ◌≢◌, refl, sym, ap, ◌∙◌, subst, ◌↔◌, ◌⊎◌, inl, inr, Bool,
  true, false, List, [], ◌∷◌, ◌++◌, length, length-replicate, get_or, replicate, all, All, In,
  arith, Bool-cases, ◌==◌, ==_iff,
}
use gwead.Prelude.Outcome.{Result, ok, err, ◌>>=◌}
use gwead.Fault.{Fault, error}
use gwead.Dag.Step.{StepDef}
use gwead.Dag.Flags.{
  Increasing, All-map, Increasing-lower, open_count, open_count_zero, zero_open_count, Open,
  length-mark, open_count-mark, get_or-mark,
}
use gwead.Dag.{stuck, cycle, collect_wave, mark, drain, next_wave, layer_into_waves, DagError}

-- every dep of step `i`, `i + 1`, … is an earlier step
abbrev pub Earlier : ℕ → List (List ℕ) → Type 0
Earlier i [] = Unit
Earlier i (ds ∷ rest) = All (λ d. d < i) ds × Earlier (suc i) rest

-- `waves` run the steps below `n` that are not `done`: each step of a wave is new and has all its
-- deps done before the wave, no wave is empty or repeats a step, and at the end all steps are done.
abbrev pub Runs : ℕ → List (List ℕ) → List ℕ → List (List ℕ) → Type 0
Runs n deps done [] = (i : ℕ) → i < n → In i done
Runs n deps done (w ∷ ws) =
    (w ≢ [])
    × All (λ i. (i < n) × (¬ In i done) × All (λ d. In d done) (get_or deps i [])) w
    × Increasing 0 w
    × Runs n deps (w ++ done) ws

-- a step of a wave, as the flags see it
abbrev Fresh : List (List ℕ) → List Bool → ℕ → Type 0
Fresh deps flags j =
    (get_or flags j false ≡ false) × All (λ d. get_or flags d false ≡ true) (get_or deps j [])

all-All : (p : ℕ → Bool) (xs : List ℕ) → all p xs ≡ true → All (λ x. p x ≡ true) xs
all-All p [] h = tt
all-All p (x ∷ xs) h = (ground arith, all-All p xs (ground arith))

All-all : (p : ℕ → Bool) (xs : List ℕ) → All (λ x. p x ≡ true) xs → all p xs ≡ true
All-all p [] h = refl
All-all p (x ∷ xs) h = ground (arith, All-all p xs h.1)

-- What a wave holds, from step `i` on: `rest` are the deps from there.
collect_wave-Fresh :
    (deps : List (List ℕ)) (flags : List Bool) (i : ℕ) (rest : List (List ℕ))
    → ((k : ℕ) → get_or rest k [] ≡ get_or deps (i + k) [])
    → let w = collect_wave i rest flags in
      All (λ j. (j < i + length rest) × Fresh deps flags j) w × Increasing i w
unfolding collect_wave
collect_wave-Fresh deps flags i [] here = (tt, tt)
collect_wave-Fresh deps flags i (ds ∷ rest) here =
    let later =
      collect_wave-Fresh deps flags (suc i) rest
        (λ k. here (suc k) ∙ ap (λ x. get_or deps x []) (omega arith)) in
    let kept : All (λ j. (j < i + suc (length rest)) × Fresh deps flags j)
        (collect_wave (suc i) rest flags) =
      All-map (collect_wave (suc i) rest flags) (λ j f. (omega (arith, f.0), f.1)) later.0 in
    let low = Increasing-lower (suc i) i _ (omega arith) later.1 in
    elim (Bool-cases (get_or flags i false)) [
      | inl e ↦ rw e (kept, low)
      | inr e ↦ elim (Bool-cases (all (λ d. get_or flags d false) ds)) [
        | inr f ↦ rw (e, f) (kept, low)
        | inl f ↦
            rw (e, f)
              (
                (
                  (
                    omega arith,
                    (
                      e,
                      subst (All (λ d. get_or flags d false ≡ true))
                          (here 0 ∙ ap (λ x. get_or deps x []) (omega arith)) (all-All _ ds f),
                    ),
                  ),
                  kept,
                ),
                (omega arith, later.1),
              )
      ]
    ]

-- Where no step from `i` on is ready, and all before are scheduled, all are.
collect_wave_nil :
    (flags : List Bool) (i : ℕ) (rest : List (List ℕ))
    → collect_wave i rest flags ≡ []
    → Earlier i rest
    → ((j : ℕ) → j < i → get_or flags j false ≡ true)
    → (j : ℕ) → j < i + length rest
    → get_or flags j false ≡ true
unfolding collect_wave
collect_wave_nil flags i [] e h before = λ j lt. before j (omega arith)
collect_wave_nil flags i (ds ∷ rest) e (here, h) before = elim (Bool-cases (get_or flags i false)) [
  | inl s ↦ λ j lt. collect_wave_nil flags (suc i) rest (rw s at e) h (step s) j (omega arith)
  | inr s ↦
      let ready = All-all (λ d. get_or flags d false) ds (All-map ds (λ d. before d) here) in
      λ j lt. cc (rw (s, ready) at e)
]
  where
    step : get_or flags i false ≡ true → (j : ℕ) → j < suc i → get_or flags j false ≡ true
    step s j lt = elim (Bool-cases (j == i)) [
      | inl p ↦ subst (λ x. get_or flags x false ≡ true) (sym ((==_iff j i).0 p)) s
      | inr p ↦ before j (ground arith)
    ]

In-append : (i : ℕ) (xs ys : List ℕ) → In i (xs ++ ys) ↔ (In i xs ⊎ In i ys)
In-append i [] ys = (inr, elim [ inl x ↦ absurd x | inr y ↦ y ])
In-append i (x ∷ xs) ys =
    let ih = In-append i xs ys in
    (
      elim [ inl e ↦ inl (inl e) | inr h ↦ elim (ih.0 h) [ inl a ↦ inl (inr a) | inr b ↦ inr b ] ],
      elim [ inl (inl e) ↦ inl e | inl (inr a) ↦ inr (ih.1 (inl a)) | inr b ↦ inr (ih.1 (inr b)) ],
    )

-- the flags say what is done
abbrev Tracks : List Bool → List ℕ → Type 0
Tracks flags done = (i : ℕ) → (get_or flags i false ≡ true) ↔ In i done

module _ {N : Type 0} (deps : List (List ℕ)) (steps : List (StepDef N))
    (earlier : Earlier 0 deps) where
  abbrev Drains : Result (Fault DagError) (List (List ℕ)) → List ℕ → Type 0
  Drains r done = (ws : List (List ℕ)) × (r ≡ ok ws) × Runs (length deps) deps done ws

  -- the wave of a round, in the terms of `Runs`
  wave_ready :
      (flags : List Bool) (done : List ℕ)
      → length flags ≡ length deps
      → Tracks flags done
      → (w : List ℕ) → All (λ j. (j < 0 + length deps) × Fresh deps flags j) w
      → All (λ i. (i < length deps) × (¬ In i done) × All (λ d. In d done) (get_or deps i [])) w
  wave_ready flags done len tracks w h =
      All-map w
        (λ j f. (
          omega (arith, f.0),
          (λ i. cc (f.1.0, (tracks j).1 i)),
          All-map (get_or deps j []) (λ d e. (tracks d).0 e) f.1.1,
        ))
        h

  drain-Drains :
      (fuel remaining : ℕ) (flags : List Bool) (done : List ℕ)
      → remaining ≤ fuel
      → remaining ≡ open_count flags
      → length flags ≡ length deps
      → Tracks flags done
      → Drains (drain fuel deps steps flags remaining) done
  unfolding drain
  drain-Drains fuel zero flags done enough count len tracks =
      ([], refl, λ i lt. (tracks i).0 (zero_open_count flags i (sym count) (omega arith)))
  drain-Drains zero (suc r) flags done enough count len tracks = absurd (omega arith)
  drain-Drains (suc fuel) (suc r) flags done enough count len tracks =
      round (drain-Drains fuel) (collect_wave 0 deps flags) refl
    where
      Next : List ℕ → Type 0
      Next w =
          Drains
            (next_wave (err (error (cycle (stuck 0 steps flags))))
              (λ wave. drain fuel deps steps (mark wave flags) (suc r - length wave) >>= λ later.
                ok (wave ∷ later))
              w)
            done

      tracks_later :
          (w : List ℕ) → All (λ j. j < length flags) w → Tracks (mark w flags) (w ++ done)
      tracks_later w range i =
          let m = get_or-mark w flags i range in
          let a = In-append i w done in
          (
            λ e. a.1 (elim (m.0 e) [ inl x ↦ inl x | inr y ↦ inr ((tracks i).0 y) ]),
            λ h. m.1 (elim (a.0 h) [ inl x ↦ inl x | inr y ↦ inr ((tracks i).1 y) ]),
          )

      continue :
          ((remaining : ℕ) (flags' : List Bool) (done' : List ℕ)
            → remaining ≤ fuel
            → remaining ≡ open_count flags'
            → length flags' ≡ length deps
            → Tracks flags' done'
            → Drains (drain fuel deps steps flags' remaining) done')
          → (w : List ℕ) → w ≢ []
          → 0 < length w
          → All (λ j. (j < 0 + length deps) × Fresh deps flags j) w
          → Increasing 0 w
          → Drains
              (drain fuel deps steps (mark w flags) (suc r - length w) >>= λ later. ok (w ∷ later))
              done
      continue ih w ne pos fresh inc =
          let opens = All-map {Q = Open flags} w (λ j f. (omega (arith, f.0), f.1.0)) fresh in
          let counted = open_count-mark 0 w flags inc opens in
          let (ws, e, runs) =
            ih (suc r - length w) (mark w flags) (w ++ done) (omega arith) (omega (arith, counted))
              (length-mark w flags ∙ len)
              (tracks_later w (All-map w (λ j f. omega (arith, f.0)) fresh)) in
          (w ∷ ws, rw e refl, (ne, wave_ready flags done len tracks w fresh, inc, runs))

      round :
          ((remaining : ℕ) (flags' : List Bool) (done' : List ℕ)
            → remaining ≤ fuel
            → remaining ≡ open_count flags'
            → length flags' ≡ length deps
            → Tracks flags' done'
            → Drains (drain fuel deps steps flags' remaining) done')
          → (w : List ℕ) → collect_wave 0 deps flags ≡ w
          → Next w
      round ih [] e = absurd (
          omega (
            arith,
            count,
            open_count_zero flags λ j lt.
                collect_wave_nil flags 0 deps e earlier (λ k z. absurd (omega arith)) j
                  (omega arith),
          ))
      round ih (i ∷ is) e =
          let (fresh, inc) =
            collect_wave-Fresh deps flags 0 deps (λ k. ap (λ x. get_or deps x []) (omega arith)) in
          continue ih (i ∷ is) (λ z. cc z) (omega arith) (rw e at fresh) (rw e at inc)

  Tracks-start : (n : ℕ) → Tracks (replicate n false) []
  Tracks-start n i = (λ e. cc (get_or-replicate n i, e), λ h. absurd h)
    where
      get_or-replicate : (m j : ℕ) → get_or (replicate m false) j false ≡ false
      get_or-replicate zero j = refl
      get_or-replicate (suc m) zero = refl
      get_or-replicate (suc m) (suc j) = get_or-replicate m j

  open_count-replicate : (n : ℕ) → n ≡ open_count (replicate n false)
  unfolding open_count
  open_count-replicate zero = refl
  open_count-replicate (suc n) = ap suc (open_count-replicate n)

  -- Where every dep is an earlier step, the layering returns, with no cycle reported and within its
  -- fuel, and its waves run every step exactly once, after all the steps that it depends on.
  pub layer_into_waves-Runs :
      (ws : List (List ℕ)) × (layer_into_waves deps steps ≡ ok ws) × Runs (length deps) deps [] ws
  unfolding layer_into_waves
  layer_into_waves-Runs =
      drain-Drains (length deps) (length deps) (replicate (length deps) false) [] (omega arith)
        (open_count-replicate (length deps)) (length-replicate (length deps) false)
        (Tracks-start (length deps))
