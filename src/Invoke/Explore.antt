-- ===== src/Invoke/Explore.antt =====
-- The depth-first search: its invariant, and that it ends with every node it met settled, or with a
-- cycle.
use gwead.Prelude.{
  ℕ, suc, ◌+◌, ◌<◌, ◌≡◌, ◌≢◌, ◌↔◌, ◌⊎◌, refl, sym, ◌∙◌, subst, Option, none, some, List, [], ◌∷◌,
  In, All, get_elem?, get_elem?-lt, get_elem?-In, In-get_elem?, get_elem?-none, ◌==◌, inl, inr,
  arith, Bool-cases,
}
use gwead.Prelude.Outcome.{Result, ok}
use gwead.Fault.{Fault}
use gwead.Invoke.{
  NodeRef, Adjacency, Color, gray, black, Colors, InvokeCycleError, node_eq, neighbours, color_of,
  nodes,
}
use gwead.Invoke.Walks.{node_eq_iff, Leads, IsCycle, Leads-nodes}
use gwead.Invoke.Settled.{Settled}

abbrev pub Stack : Type 0
Stack = List (NodeRef × ℕ)

-- the nodes of a stack, from the top
abbrev pub on : Stack → List NodeRef
on [] = []
on ((n, i) ∷ stack) = n ∷ on stack

pub color_of-same :
    (n m : NodeRef) (c : Color) (colors : Colors) → n ≡ m → color_of ((n, c) ∷ colors) m ≡ some c
unfolding color_of
color_of-same n m c colors e = rw ((node_eq_iff n m).1 e) refl

pub color_of-other :
    (n m : NodeRef) (c : Color) (colors : Colors)
    → n ≢ m
    → color_of ((n, c) ∷ colors) m ≡ color_of colors m
unfolding color_of
color_of-other n m c colors e = elim (Bool-cases (node_eq n m)) [
  | inl f ↦ absurd (e ((node_eq_iff n m).0 f))
  | inr f ↦ rw f refl
]

pub node_cases : (n m : NodeRef) → (n ≡ m) ⊎ (n ≢ m)
node_cases n m = elim (Bool-cases (node_eq n m)) [
  | inl e ↦ inl ((node_eq_iff n m).0 e)
  | inr e ↦ inr (λ f. cc (e, (node_eq_iff n m).1 f))
]

module _ (adj : Adjacency) where
  -- the first `i` nodes that `n` leads to are black
  abbrev pub Below : Colors → NodeRef → ℕ → Type 0
  Below colors n i =
      (k : ℕ) (m : NodeRef)
      → k < i
      → get_elem? (neighbours adj n) k ≡ some m
      → color_of colors m ≡ some black

  -- A stack under the node `child`: the node that is next led to it, all before it are black, and no
  -- node stands twice.
  abbrev pub Under : Colors → NodeRef → Stack → Type 0
  Under colors child [] = Unit
  Under colors child ((n, i) ∷ stack) =
      ((j : ℕ) × (i ≡ suc j) × (get_elem? (neighbours adj n) j ≡ some child) × Below colors n j)
      × (¬ In n (on stack))
      × Under colors n stack

  abbrev pub OnTop : Colors → Stack → Type 0
  OnTop colors [] = Unit
  OnTop colors ((n, i) ∷ stack) = Below colors n i × (¬ In n (on stack)) × Under colors n stack

  -- The gray nodes are those on the stack, the black ones are settled, in the order `bs`.
  pub record Inv (stack : Stack) (colors : Colors) (bs : List NodeRef) : Type 0 where
    pub chain : OnTop colors stack
    pub grays : (n : NodeRef) → (color_of colors n ≡ some gray) ↔ In n (on stack)
    pub blacks : (n : NodeRef) → (color_of colors n ≡ some black) ↔ In n bs
    pub settled : Settled adj bs
    pub known : All (λ n. In n (nodes adj)) (on stack)

  -- What has a colour keeps one.
  abbrev pub Keeps : Colors → Colors → Type 0
  Keeps colors colors' = (n : NodeRef) → color_of colors n ≢ none → color_of colors' n ≢ none

  pub data Explored (colors : Colors)
      : Result (Fault InvokeCycleError) (Option (List NodeRef) × Colors) → Type 0 where
    finished :
        {colors' : Colors} {bs : List NodeRef}
        → Inv [] colors' bs
        → Keeps colors colors'
        → Explored colors (ok (none, colors'))
    looped :
        {ns : List NodeRef} {colors' : Colors}
        → IsCycle (Leads adj) ns
        → Explored colors (ok (some ns, colors'))

  Below-mono :
      (colors colors' : Colors) (n : NodeRef) (i : ℕ)
      → ((m : NodeRef) → color_of colors m ≡ some black → color_of colors' m ≡ some black)
      → Below colors n i
      → Below colors' n i
  Below-mono colors colors' n i keep h k m lt e = keep m (h k m lt e)

  Under-mono :
      (colors colors' : Colors) (child : NodeRef) (stack : Stack)
      → ((m : NodeRef) → color_of colors m ≡ some black → color_of colors' m ≡ some black)
      → Under colors child stack
      → Under colors' child stack
  Under-mono colors colors' child [] keep h = tt
  Under-mono colors colors' child ((n, i) ∷ stack) keep ((j, e, at, below), once, rest) = (
    (j, e, at, Below-mono colors colors' n j keep below),
    once,
    Under-mono colors colors' n stack keep rest,
  )

  -- one more black node
  Below-suc :
      (colors : Colors) (n child : NodeRef) (j : ℕ)
      → Below colors n j
      → get_elem? (neighbours adj n) j ≡ some child
      → color_of colors child ≡ some black
      → Below colors n (suc j)
  Below-suc colors n child j below at done k m lt e = elim (Bool-cases (k == j)) [
    | inl same ↦ let eq : k ≡ j = ground arith in cc (e, at, done, eq)
    | inr other ↦ below k m (ground arith) e
  ]

  -- The search leaves a node: it turns black, and the node under it is the top.
  OnTop-pop :
      (colors : Colors) (node : NodeRef) (stack : Stack)
      → ((m : NodeRef)
          → color_of colors m ≡ some black
          → color_of ((node, black) ∷ colors) m ≡ some black)
      → Under colors node stack
      → OnTop ((node, black) ∷ colors) stack
  OnTop-pop colors node [] keep h = tt
  OnTop-pop colors node ((n, i) ∷ stack) keep ((j, e, at, below), once, rest) =
      let colors' = (node, black) ∷ colors in
      (
        subst (Below colors' n) (sym e) (
            Below-suc colors' n node j (Below-mono colors colors' n j keep below) at
              (color_of-same node node black colors refl)),
        once,
        Under-mono colors colors' n stack keep rest,
      )

  module _ (node : NodeRef) (i : ℕ) (stack : Stack) (colors : Colors) (bs : List NodeRef)
      (inv : Inv ((node, i) ∷ stack) colors bs) where
    pub is_gray : color_of colors node ≡ some gray
    is_gray = (inv.grays node).1 (inl refl)

    -- all that `node` leads to was visited
    pub Inv-pop :
        get_elem? (neighbours adj node) i ≡ none → Inv stack ((node, black) ∷ colors) (node ∷ bs)
    Inv-pop e = record {
      chain = OnTop-pop colors node stack keep inv.chain.2;
      grays = λ n. elim (node_cases node n) [
        | inl f ↦ (
          λ h. cc (color_of-same node n black colors f, h),
          λ h. absurd (inv.chain.1 (subst (λ x. In x (on stack)) (sym f) h)),
        )
        | inr f ↦ (
          λ h. elim ((inv.grays n).0 (sym (color_of-other node n black colors f) ∙ h)) [
            | inl g ↦ absurd (f (sym g))
            | inr h' ↦ h'
          ],
          λ h. color_of-other node n black colors f ∙ (inv.grays n).1 (inr h),
        )
      ];
      blacks = λ n. elim (node_cases node n) [
        | inl f ↦ (λ h. inl (sym f), λ h. color_of-same node n black colors f)
        | inr f ↦ (
          λ h. inr ((inv.blacks n).0 (sym (color_of-other node n black colors f) ∙ h)),
          λ h. elim h [
            | inl g ↦ absurd (f (sym g))
            | inr h' ↦ color_of-other node n black colors f ∙ (inv.blacks n).1 h'
          ],
        )
      ];
      settled = (
        λ m h.
            let (k, at) = In-get_elem? m (neighbours adj node) h in
            (inv.blacks m).0 (
              inv.chain.0 k m
                (omega (
                  arith,
                  get_elem?-none (neighbours adj node) i e,
                  get_elem?-lt (neighbours adj node) k m at,
                ))
                at),
        inv.settled,
      );
      known = inv.known.1;
    }
      where
        keep :
            (m : NodeRef)
            → color_of colors m ≡ some black
            → color_of ((node, black) ∷ colors) m ≡ some black
        keep m h = elim (node_cases node m) [
          | inl f ↦ color_of-same node m black colors f
          | inr f ↦ color_of-other node m black colors f ∙ h
        ]

    module _ (next : NodeRef) (at : get_elem? (neighbours adj node) i ≡ some next) where
      pub Leads-next : Leads adj node next
      Leads-next = get_elem?-In (neighbours adj node) i next at

      -- a node that was not met yet is put on top
      pub Inv-push :
          color_of colors next ≡ none
          → Inv ((next, 0) ∷ (node, i + 1) ∷ stack) ((next, gray) ∷ colors) bs
      Inv-push e = record {
        chain = (
          λ k m lt f. absurd (omega arith),
          fresh,
          (
            (i, omega arith, at, Below-mono colors _ node i keep inv.chain.0),
            inv.chain.1,
            Under-mono colors _ node stack keep inv.chain.2,
          ),
        );
        grays = λ n. elim (node_cases next n) [
          | inl f ↦ (λ h. inl (sym f), λ h. color_of-same next n gray colors f)
          | inr f ↦ (
            λ h. inr ((inv.grays n).0 (sym (color_of-other next n gray colors f) ∙ h)),
            λ h. elim h [
              | inl g ↦ absurd (f (sym g))
              | inr h' ↦ color_of-other next n gray colors f ∙ (inv.grays n).1 h'
            ],
          )
        ];
        blacks = λ n. elim (node_cases next n) [
          | inl f ↦
              (λ h. cc (color_of-same next n gray colors f, h), λ h. cc ((inv.blacks n).1 h, f, e))
          | inr f ↦ (
            λ h. (inv.blacks n).0 (sym (color_of-other next n gray colors f) ∙ h),
            λ h. color_of-other next n gray colors f ∙ (inv.blacks n).1 h,
          )
        ];
        settled = inv.settled;
        known = ((Leads-nodes adj node next Leads-next).1, inv.known);
      }
        where
          keep :
              (m : NodeRef)
              → color_of colors m ≡ some black
              → color_of ((next, gray) ∷ colors) m ≡ some black
          keep m h = elim (node_cases next m) [
            | inl f ↦ cc (f, e, h)
            | inr f ↦ color_of-other next m gray colors f ∙ h
          ]

          fresh : ¬ In next (node ∷ on stack)
          fresh h = cc ((inv.grays next).1 h, e)

      -- a black node is passed over
      pub Inv-skip : color_of colors next ≡ some black → Inv ((node, i + 1) ∷ stack) colors bs
      Inv-skip e = record {
        chain = (
          subst (Below colors node) (omega arith) (Below-suc colors node next i inv.chain.0 at e),
          inv.chain.1,
          inv.chain.2,
        );
        grays = inv.grays;
        blacks = inv.blacks;
        settled = inv.settled;
        known = inv.known;
      }
