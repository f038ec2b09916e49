-- ===== src/Invoke/Walks.antt =====
-- Walks in the graph of invocations, and the adjacency lists against the edges that they hold.
use gwead.Prelude.{
  ◌≡◌, ◌↔◌, ◌⊎◌, refl, sym, ap, ◌∙◌, true, List, [], ◌∷◌, ◌++◌, map, In, In-append, inl, inr, arith,
  Bool-cases,
}
use gwead.Text.Split.{str_eq_iff}
use gwead.Invoke.{NodeRef, InvokeEdge, Adjacency, node_eq, push_edge, fill, neighbours, nodes}

pub node_eq_iff : (n m : NodeRef) → (node_eq n m ≡ true) ↔ (n ≡ m)
unfolding node_eq
node_eq_iff (p, a) (q, b) = (
  λ h. ground (arith, str_eq_iff p q, str_eq_iff a b),
  λ h. ground (arith, str_eq_iff p q, str_eq_iff a b),
)

pub node_eq_self : (n : NodeRef) → node_eq n n ≡ true
node_eq_self n = (node_eq_iff n n).1 refl

-- An action invokes another by one of the edges.
abbrev pub Invokes : List InvokeEdge → NodeRef → NodeRef → Type 0
Invokes edges n m = In (record { from = n; to = m }) edges

-- one step in the adjacency lists
abbrev pub Leads : Adjacency → NodeRef → NodeRef → Type 0
Leads adj n m = In m (neighbours adj n)

-- each node of the list leads to the next
abbrev pub Follows : (NodeRef → NodeRef → Type 0) → NodeRef → List NodeRef → Type 0
Follows step n [] = Unit
Follows step n (m ∷ ms) = step n m × Follows step m ms

abbrev pub IsWalk : (NodeRef → NodeRef → Type 0) → List NodeRef → Type 0
IsWalk step [] = Unit
IsWalk step (n ∷ ns) = Follows step n ns

-- A walk that comes back to where it started.
abbrev pub IsCycle : (NodeRef → NodeRef → Type 0) → List NodeRef → Type 0
IsCycle step ns =
    (n : NodeRef) × (between : List NodeRef) × (ns ≡ n ∷ (between ++ n ∷ [])) × IsWalk step ns

pub Follows-map :
    {S T : NodeRef → NodeRef → Type 0}
    → ((n m : NodeRef) → S n m → T n m)
    → (n : NodeRef) (ns : List NodeRef) → Follows S n ns
    → Follows T n ns
Follows-map f n [] h = tt
Follows-map f n (m ∷ ms) h = (f n m h.0, Follows-map f m ms h.1)

pub IsCycle-map :
    {S T : NodeRef → NodeRef → Type 0}
    → ((n m : NodeRef) → S n m → T n m)
    → (ns : List NodeRef) → IsCycle S ns
    → IsCycle T ns
IsCycle-map f [] (n, between, e, walk) = cc e
IsCycle-map f (m ∷ ms) (n, between, e, walk) = (n, between, e, Follows-map f m ms walk)

-- The lists hold exactly the edges that were put in.
neighbours-push_edge :
    (from to : NodeRef) (adj : Adjacency) (n m : NodeRef)
    → Leads (push_edge from to adj) n m ↔ (Leads adj n m ⊎ ((n ≡ from) × (m ≡ to)))
unfolding neighbours push_edge
neighbours-push_edge from to [] n m = elim (Bool-cases (node_eq from n)) [
  | inl e ↦
      let same = (node_eq_iff from n).0 e in
      rw e (
        λ h. elim h [ inl f ↦ inr (sym same, f) | inr x ↦ absurd x ],
        λ h. elim h [ inl x ↦ absurd x | inr (f, g) ↦ inl g ],
      )
  | inr e ↦ rw e (
    λ h. absurd h,
    λ h. elim h [ inl x ↦ absurd x | inr (f, g) ↦ cc ((node_eq_iff from n).1 (sym f), e) ],
  )
]
neighbours-push_edge from to ((k, ts) ∷ adj) n m = elim (Bool-cases (node_eq k from)) [
  | inl e ↦
      let same = (node_eq_iff k from).0 e in
      rw e (elim (Bool-cases (node_eq k n)) [
        | inl f ↦
            let here = (node_eq_iff k n).0 f in
            rw f (
              λ h. elim ((In-append m ts (to ∷ [])).0 h) [
                | inl i ↦ inl i
                | inr (inl g) ↦ inr (sym here ∙ same, g)
                | inr (inr x) ↦ absurd x
              ],
              λ h.
                  (In-append m ts (to ∷ [])).1
                    (elim h [ inl i ↦ inl i | inr (g, x) ↦ inr (inl x) ]),
            )
        | inr f ↦ rw f (
          λ h. inl h,
          λ h. elim h [ inl i ↦ i | inr (g, x) ↦ cc (f, (node_eq_iff k n).1 (same ∙ sym g)) ],
        )
      ])
  | inr e ↦ rw e (elim (Bool-cases (node_eq k n)) [
    | inl f ↦ rw f (
      λ h. inl h,
      λ h. elim h [
        | inl i ↦ i
        | inr (g, x) ↦ cc (e, (node_eq_iff k from).1 ((node_eq_iff k n).0 f ∙ g))
      ],
    )
    | inr f ↦ rw f (neighbours-push_edge from to adj n m)
  ])
]

Leads-fill :
    (edges : List InvokeEdge) (adj : Adjacency) (n m : NodeRef)
    → Leads (fill edges adj) n m ↔ (Leads adj n m ⊎ Invokes edges n m)
unfolding fill
Leads-fill [] adj n m = (λ h. inl h, λ h. elim h [ inl i ↦ i | inr x ↦ absurd x ])
Leads-fill (e ∷ edges) adj n m =
    let later = Leads-fill edges (push_edge e.from e.to adj) n m in
    let here = neighbours-push_edge e.from e.to adj n m in
    (
      λ h. elim (later.0 h) [
        | inl i ↦ elim (here.0 i) [ inl j ↦ inl j | inr (f, g) ↦ inr (inl (ground (arith, f, g))) ]
        | inr i ↦ inr (inr i)
      ],
      λ h. elim h [
        | inl i ↦ later.1 (inl (here.1 (inl i)))
        | inr (inl f) ↦ later.1 (inl (here.1 (inr (ap (λ x. x.from) f, ap (λ x. x.to) f))))
        | inr (inr i) ↦ later.1 (inr i)
      ],
    )

pub Leads-iff :
    (edges : List InvokeEdge) (n m : NodeRef) → Leads (fill edges []) n m ↔ Invokes edges n m
Leads-iff edges n m =
    let filled = Leads-fill edges [] n m in
    (
      λ h. elim (filled.0 h) [ inl x ↦ absurd (unfold neighbours in x) | inr i ↦ i ],
      λ h. filled.1 (inr h),
    )

-- A node that leads anywhere is a key, and where it leads to is a node.
pub Leads-nodes :
    (adj : Adjacency) (n m : NodeRef) → Leads adj n m → In n (map (λ e. e.0) adj) × In m (nodes adj)
unfolding neighbours nodes
Leads-nodes [] n m h = absurd h
Leads-nodes ((k, ts) ∷ adj) n m h = elim (Bool-cases (node_eq k n)) [
  | inl e ↦
      (inl (sym ((node_eq_iff k n).0 e)), inr ((In-append m ts (nodes adj)).1 (inl (rw e at h))))
  | inr e ↦
      let (i, j) = Leads-nodes adj n m (rw e at h) in
      (inr i, inr ((In-append m ts (nodes adj)).1 (inr j)))
]
