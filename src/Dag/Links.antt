-- ===== src/Dag/Links.antt =====
-- The loop of build_plan over the refs of one step: which edges it adds.
use gwead.Prelude.{
  ℕ, zero, suc, ◌≤◌, ◌<◌, ◌≡◌, ◌≢◌, refl, sym, ap, ◌∙◌, subst, ◌↔◌, ◌⊎◌, inl, inr, true, false,
  some, List, [], ◌∷◌, ◌++◌, length, get_or, In, arith, Bool-cases, Option-cases, ltb, ◌==◌, ==_iff,
}
use gwead.Prelude.Outcome.{ok}
use gwead.Text.{Str, str_eq}
use gwead.Text.Split.{str_eq_iff}
use gwead.Dag.{Edges, index_of, has_index, push_at, add_edge, resolve_refs}

abbrev pub row : List (List ℕ) → ℕ → List ℕ
row v j = get_or v j []

pub length-push_at : (v : List (List ℕ)) (i x : ℕ) → length (push_at v i x) ≡ length v
unfolding push_at
length-push_at [] i x = refl
length-push_at (r ∷ v) zero x = refl
length-push_at (r ∷ v) (suc i) x = ap suc (length-push_at v i x)

In-snoc : (d x : ℕ) (xs : List ℕ) → In d (xs ++ x ∷ []) ↔ (In d xs ⊎ (d ≡ x))
In-snoc d x [] =
    (elim [ inl e ↦ inr e | inr h ↦ absurd h ], elim [ inl h ↦ absurd h | inr e ↦ inl e ])
In-snoc d x (y ∷ xs) =
    let ih = In-snoc d x xs in
    (
      elim [ inl e ↦ inl (inl e) | inr h ↦ elim (ih.0 h) [ inl a ↦ inl (inr a) | inr b ↦ inr b ] ],
      elim [ inl (inl e) ↦ inl e | inl (inr a) ↦ inr (ih.1 (inl a)) | inr b ↦ inr (ih.1 (inr b)) ],
    )

-- A push shows in its own row and nowhere else.
pub In-push_at :
    (v : List (List ℕ)) (i x j d : ℕ)
    → i < length v
    → In d (row (push_at v i x) j) ↔ (In d (row v j) ⊎ ((j ≡ i) × (d ≡ x)))
unfolding push_at
In-push_at [] i x j d lt = absurd (omega arith)
In-push_at (r ∷ v) zero x zero d lt =
    let s = In-snoc d x r in
    (
      λ h. elim (s.0 h) [ inl a ↦ inl a | inr b ↦ inr (refl, b) ],
      elim [ inl a ↦ s.1 (inl a) | inr (_, b) ↦ s.1 (inr b) ],
    )
In-push_at (r ∷ v) zero x (suc j) d lt =
    (inl, elim [ inl a ↦ a | inr (e, _) ↦ absurd (omega arith) ])
In-push_at (r ∷ v) (suc i) x zero d lt =
    (inl, elim [ inl a ↦ a | inr (e, _) ↦ absurd (omega arith) ])
In-push_at (r ∷ v) (suc i) x (suc j) d lt =
    let ih = In-push_at v i x j d (omega arith) in
    (
      λ h. elim (ih.0 h) [ inl a ↦ inl a | inr (e, b) ↦ inr (ap suc e, b) ],
      elim [ inl a ↦ ih.1 (inl a) | inr (e, b) ↦ ih.1 (inr (omega arith, b)) ],
    )

-- `consumers` is `deps` read the other way round.
abbrev pub Mirror : Edges → Type 0
Mirror e = (j d : ℕ) → In d (row e.deps j) ↔ In j (row e.consumers d)

-- a step that a ref of the list names
abbrev pub Target : List (Str × ℕ) → List Str → ℕ → Type 0
Target map refs d = (ref : Str) × In ref refs × (index_of ref map ≡ some d)

-- What resolving the refs of step `i` does to the edges, and what it has checked of them.
pub record Resolved (id : Str) (i : ℕ) (map : List (Str × ℕ)) (refs : List Str) (e e' : Edges)
    : Type 0 where
  pub deps_size : length e'.deps ≡ length e.deps
  pub consumers_size : length e'.consumers ≡ length e.consumers
  pub links :
      (j d : ℕ) → In d (row e'.deps j) ↔ (In d (row e.deps j) ⊎ ((j ≡ i) × Target map refs d))
  pub mirror : Mirror e → Mirror e'
  pub checked :
      (ref : Str) → In ref refs → (ref ≢ id) × (d : ℕ) × (index_of ref map ≡ some d) × (d ≤ i)

module _ (id : Str) (i : ℕ) (map : List (Str × ℕ)) where
  -- one edge, new or already there
  record Added (target : ℕ) (e e' : Edges) : Type 0 where
    deps_size : length e'.deps ≡ length e.deps
    consumers_size : length e'.consumers ≡ length e.consumers
    links : (j d : ℕ) → In d (row e'.deps j) ↔ (In d (row e.deps j) ⊎ ((j ≡ i) × (d ≡ target)))
    mirror : Mirror e → Mirror e'

  add_edge-Added :
      (target : ℕ) (e : Edges)
      → i < length e.deps
      → target < length e.consumers
      → Added target e (add_edge i target e)
  unfolding add_edge
  add_edge-Added target e lt lt' = record {
    deps_size = length-push_at e.deps i target;
    consumers_size = length-push_at e.consumers target i;
    links = λ j d. In-push_at e.deps i target j d lt;
    mirror = λ m j d.
        let a = In-push_at e.deps i target j d lt in
        let b = In-push_at e.consumers target i d j lt' in
        (
          λ h. b.1 (elim (a.0 h) [ inl x ↦ inl ((m j d).0 x) | inr (p, q) ↦ inr (q, p) ]),
          λ h. a.1 (elim (b.0 h) [ inl x ↦ inl ((m j d).1 x) | inr (p, q) ↦ inr (q, p) ]),
        );
  }

  kept-Added : (target : ℕ) (e : Edges) → In target (row e.deps i) → Added target e e
  kept-Added target e there = record {
    deps_size = refl;
    consumers_size = refl;
    links = λ j d. (inl, elim [ inl x ↦ x | inr (p, q) ↦ rw (p, q) there ]);
    mirror = λ m. m;
  }

  -- one ref more
  Resolved-cons :
      (ref : Str) (target : ℕ) (rest : List Str) (e e₁ e' : Edges)
      → ref ≢ id
      → index_of ref map ≡ some target
      → target ≤ i
      → Added target e e₁
      → Resolved id i map rest e₁ e'
      → Resolved id i map (ref ∷ rest) e e'
  Resolved-cons ref target rest e e₁ e' other found low a r = record {
    deps_size = r.deps_size ∙ a.deps_size;
    consumers_size = r.consumers_size ∙ a.consumers_size;
    links = λ j d. (
      λ h. elim ((r.links j d).0 h) [
        | inl x ↦ elim ((a.links j d).0 x) [
          | inl y ↦ inl y
          | inr (p, q) ↦ inr (p, (ref, inl refl, rw q found))
        ]
        | inr (p, (s, m, f)) ↦ inr (p, (s, inr m, f))
      ],
      elim [
        | inl x ↦ (r.links j d).1 (inl ((a.links j d).1 (inl x)))
        | inr (p, (s, inl m, f)) ↦ (r.links j d).1 (inl ((a.links j d).1 (inr (p, same s d m f))))
        | inr (p, (s, inr m, f)) ↦ (r.links j d).1 (inr (p, (s, m, f)))
      ],
    );
    mirror = λ m. r.mirror (a.mirror m);
    checked = λ s. elim [
      | inl m ↦ (λ z. other (sym m ∙ z), target, rw m found, low)
      | inr m ↦ r.checked s m
    ];
  }
    where
      same : (s : Str) (d : ℕ) → s ≡ ref → index_of s map ≡ some d → d ≡ target
      same s d m f = cc (f, found, ap (λ x. index_of x map) m)

  has_index-In : (d : ℕ) (ds : List ℕ) → (has_index d ds ≡ true) ↔ In d ds
  unfolding has_index
  has_index-In d [] = (λ e. cc e, λ h. absurd h)
  has_index-In d (x ∷ ds) =
      let ih = has_index-In d ds in
      (
        λ e. elim (Bool-cases (d == x)) [
          | inl p ↦ inl ((==_iff d x).0 p)
          | inr p ↦ inr (ih.0 (rw p at e))
        ],
        elim [ inl p ↦ rw ((==_iff d x).1 p) refl | inr h ↦ ground (arith, ih.1 h) ],
      )

  module _ (n : ℕ) (inside : (ref : Str) (d : ℕ) → index_of ref map ≡ some d → d < n) where
    -- The loop over the refs, from targets `seen` that have their edges.
    pub resolve_refs-Resolved :
        (refs : List Str) (seen : List ℕ) (e e' : Edges)
        → i < length e.deps
        → length e.consumers ≡ n
        → ((d : ℕ) → In d seen → In d (row e.deps i))
        → resolve_refs id i map refs seen e ≡ ok e'
        → Resolved id i map refs e e'
    unfolding resolve_refs
    resolve_refs-Resolved [] seen e e' lt size known h =
        let same : e' ≡ e = cc h in
        subst (λ x. Resolved id i map [] e x) (sym same)
          (record {
            deps_size = refl;
            consumers_size = refl;
            links = λ j d. (inl, elim [ inl x ↦ x | inr (_, (_, m, _)) ↦ absurd m ]);
            mirror = λ m. m;
            checked = λ ref m. absurd m;
          })
    resolve_refs-Resolved (ref ∷ rest) seen e e' lt size known h =
        elim (Bool-cases (str_eq ref id)) [
          | inl self ↦ cc (rw self at h)
          | inr other ↦ elim (Option-cases (index_of ref map)) [
            | inl unknown ↦ cc (rw (other, unknown) at h)
            | inr (target, found) ↦ elim (Bool-cases (ltb i target)) [
              | inl forward ↦ cc (rw (other, found, forward) at h)
              | inr low ↦ elim (Bool-cases (has_index target seen)) [
                | inl old ↦
                    let there = known target ((has_index-In target seen).0 old) in
                    Resolved-cons ref target rest e e e' (distinct other) found (ground arith)
                      (kept-Added target e there)
                      (resolve_refs-Resolved rest (target ∷ seen) e e' lt size
                        (λ d. elim [ inl p ↦ rw p there | inr m ↦ known d m ])
                        (rw (other, found, low, old) at h))
                | inr new ↦
                    let a = add_edge-Added target e lt (rw size (inside ref target found)) in
                    let e₁ = add_edge i target e in
                    Resolved-cons ref target rest e e₁ e' (distinct other) found (ground arith) a (
                      resolve_refs-Resolved rest (target ∷ seen) e₁ e' (omega (arith, a.deps_size))
                        (a.consumers_size ∙ size)
                        (λ d. elim [
                          | inl p ↦ (a.links i d).1 (inr (refl, p))
                          | inr m ↦ (a.links i d).1 (inl (known d m))
                        ])
                        (rw (other, found, low, new) at h))
              ]
            ]
          ]
        ]
      where
        distinct : str_eq ref id ≡ false → ref ≢ id
        distinct f e = cc (f, (str_eq_iff ref id).1 e)
