-- ===== src/Invoke/BackEdge.antt =====
-- A back edge closes a cycle: the part of the stack that the search reports is one.
use gwead.Prelude.{
  ℕ, ◌≡◌, refl, sym, ap, ◌⊎◌, false, some, List, [], ◌∷◌, ◌++◌, In, get_elem?-In, inl, inr,
  Bool-cases,
}
use gwead.Invoke.{NodeRef, Adjacency, Colors, node_eq, neighbours, bottom_up, from_first}
use gwead.Invoke.Walks.{node_eq_iff, Leads, Follows, IsWalk, IsCycle}
use gwead.Invoke.Explore.{Stack, on, Under}

module _ (adj : Adjacency) where
  -- the stack from the bottom, and `last` behind it
  bottom_up-IsWalk :
      (colors : Colors) (child last : NodeRef) (above : List NodeRef) (stack : Stack)
      → Under adj colors child stack
      → Follows (Leads adj) child (above ++ last ∷ [])
      → IsWalk (Leads adj) (bottom_up (child ∷ above) stack ++ last ∷ [])
  unfolding bottom_up
  bottom_up-IsWalk colors child last above [] under walk = walk
  bottom_up-IsWalk colors child last above ((n, i) ∷ stack) ((j, e, at, below), once, rest) walk =
      bottom_up-IsWalk colors n last (child ∷ above) stack rest
        (get_elem?-In (neighbours adj n) j child at, walk)

  from_first-IsCycle :
      (n : NodeRef) (xs : List NodeRef)
      → IsWalk (Leads adj) (xs ++ n ∷ [])
      → In n xs
      → (ns : List NodeRef) × (from_first n xs ≡ some ns) × IsCycle (Leads adj) (ns ++ n ∷ [])
  unfolding from_first
  from_first-IsCycle n [] walk h = absurd h
  from_first-IsCycle n (x ∷ xs) walk h = elim (Bool-cases (node_eq x n)) [
    | inl e ↦
        (x ∷ xs, rw e refl, (n, xs, ap (λ y. y ∷ (xs ++ n ∷ [])) ((node_eq_iff x n).0 e), walk))
    | inr e ↦
        let (ns, f, c) = from_first-IsCycle n xs (Follows-tail x (xs ++ n ∷ []) walk) (later e h) in
        (ns, rw e f, c)
  ]
    where
      Follows-tail :
          (a : NodeRef) (l : List NodeRef) → Follows (Leads adj) a l → IsWalk (Leads adj) l
      Follows-tail a [] w = tt
      Follows-tail a (b ∷ l) w = w.1

      later : node_eq x n ≡ false → In n (x ∷ xs) → In n xs
      later e (inl f) = cc (e, (node_eq_iff x n).1 (sym f))
      later e (inr i) = i

In-bottom_up :
    (n : NodeRef) (above : List NodeRef) (stack : Stack)
    → In n above ⊎ In n (on stack)
    → In n (bottom_up above stack)
unfolding bottom_up
In-bottom_up n above [] (inl h) = h
In-bottom_up n above [] (inr h) = absurd h
In-bottom_up n above ((m, i) ∷ stack) (inl h) = In-bottom_up n (m ∷ above) stack (inl (inr h))
In-bottom_up n above ((m, i) ∷ stack) (inr (inl e)) = In-bottom_up n (m ∷ above) stack (inl (inl e))
In-bottom_up n above ((m, i) ∷ stack) (inr (inr h)) = In-bottom_up n (m ∷ above) stack (inr h)

module _ (adj : Adjacency) (colors : Colors) where
  -- the top leads to a node of the stack
  pub back_edge-IsCycle :
      (node next : NodeRef) (i : ℕ) (stack : Stack)
      → Under adj colors node stack
      → Leads adj node next
      → In next (node ∷ on stack)
      → (ns : List NodeRef) × (from_first next (bottom_up [] ((node, i) ∷ stack)) ≡ some ns)
        × IsCycle (Leads adj) (ns ++ next ∷ [])
  back_edge-IsCycle node next i stack under leads h =
      from_first-IsCycle adj next (bottom_up [] ((node, i) ∷ stack))
        (unfold bottom_up in bottom_up-IsWalk adj colors node next [] stack under (leads, tt))
        (In-bottom_up next [] ((node, i) ∷ stack) (inr h))
