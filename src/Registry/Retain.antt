-- ===== src/Registry/Retain.antt =====
-- What is found in a table after some of its entries were removed.
use gwead.Prelude.{
  ◌≡◌, ◌↔◌, inl, inr, sym, ap, ◌∙◌, Bool, true, some, List, [], ◌∷◌, In, Bool-cases,
}
use gwead.Registry.{Table, find, retain}
use gwead.Registry.Lookup.{map_values}

pub In-retain :
    {A : Type 0} (keep : A → Bool) (x : A) (xs : List A)
    → In x (retain keep xs) ↔ (In x xs × (keep x ≡ true))
unfolding retain
In-retain keep x [] = (λ i. absurd i, λ i. i.0)
In-retain keep x (y ∷ xs) = elim (Bool-cases (keep y)) [
  | inl e ↦ rw e (
    λ i. elim i [
      | inl f ↦ (inl f, ap keep f ∙ e)
      | inr j ↦ let (k, g) = (In-retain keep x xs).0 j in (inr k, g)
    ],
    λ (i, g). elim i [ inl f ↦ inl f | inr j ↦ inr ((In-retain keep x xs).1 (j, g)) ],
  )
  | inr e ↦ rw e (
    λ i. let (k, g) = (In-retain keep x xs).0 i in (inr k, g),
    λ (i, g). elim i [ inl f ↦ cc (e, ap keep f, g) | inr j ↦ (In-retain keep x xs).1 (j, g) ],
  )
]

module _ {K V : Type 0} (eq : K → K → Bool) where
  -- what is still found was to be kept
  pub find-retain :
      (keep : K × V → Bool) (k : K) (t : Table K V) (v : V)
      → find eq k (retain keep t) ≡ some v
      → (j : K) × (eq j k ≡ true) × (keep (j, v) ≡ true)
  unfolding find retain
  find-retain keep k [] v e = cc e
  find-retain keep k ((j, w) ∷ t) v e = elim (Bool-cases (keep (j, w))) [
    | inr f ↦ find-retain keep k t v (rw (f, retain) at e)
    | inl f ↦ elim (Bool-cases (eq j k)) [
      | inl g ↦
          let same : w ≡ v = cc (rw (g, find) at (rw (f, retain) at e)) in
          (j, g, ap (λ x. keep (j, x)) (sym same) ∙ f)
      | inr g ↦ find-retain keep k t v (rw (g, find) at (rw (f, retain) at e))
    ]
  ]

  -- what is to be kept is still found
  pub find-retain-kept :
      (keep : K × V → Bool) (k : K) (t : Table K V) (v : V)
      → find eq k t ≡ some v
      → ((j : K) → eq j k ≡ true → keep (j, v) ≡ true)
      → find eq k (retain keep t) ≡ some v
  unfolding find retain
  find-retain-kept keep k [] v e kept = cc e
  find-retain-kept keep k ((j, w) ∷ t) v e kept = elim (Bool-cases (eq j k)) [
    | inl g ↦
        let same : w ≡ v = cc (rw (g, find) at e) in
        rw (ap (λ x. keep (j, x)) same ∙ kept j g) (rw g (ap some same))
    | inr g ↦
        let rest = find-retain-kept keep k t v (rw (g, find) at e) kept in
        elim (Bool-cases (keep (j, w))) [ inl f ↦ rw f (rw g rest) | inr f ↦ rw f rest ]
  ]

  pub find-map_values :
      (f : V → V) (k : K) (t : Table K V) (v : V)
      → find eq k t ≡ some v
      → find eq k (map_values f t) ≡ some (f v)
  unfolding find map_values
  find-map_values f k [] v e = cc e
  find-map_values f k ((j, w) ∷ t) v e = elim (Bool-cases (eq j k)) [
    | inl g ↦ let same : w ≡ v = cc (rw (g, find) at e) in rw g (ap (λ x. some (f x)) same)
    | inr g ↦ rw g (find-map_values f k t v (rw (g, find) at e))
  ]

  -- what is found among changed values is one of them
  pub find-changed :
      (keep : K × V → Bool) (f : V → V) (k : K) (t : Table K V) (v : V)
      → find eq k (retain keep (map_values f t)) ≡ some v
      → (w : V) × (f w ≡ v)
  unfolding find retain map_values
  find-changed keep f k [] v e = cc e
  find-changed keep f k ((j, w) ∷ t) v e = elim (Bool-cases (keep (j, f w))) [
    | inr g ↦ find-changed keep f k t v (rw (g, retain) at e)
    | inl g ↦ elim (Bool-cases (eq j k)) [
      | inl h ↦ (w, cc (rw (h, find) at (rw (g, retain) at e)))
      | inr h ↦ find-changed keep f k t v (rw (h, find) at (rw (g, retain) at e))
    ]
  ]
