-- ===== src/Invoke/Settled.antt =====
-- A list of nodes each of which leads only to nodes behind it: on such a list there is no cycle.
use gwead.Prelude.{subst, List, [], ◌∷◌, ◌++◌, In, inl, inr}
use gwead.Invoke.{NodeRef, Adjacency}
use gwead.Invoke.Walks.{Leads, Follows, IsWalk, IsCycle}

module _ (adj : Adjacency) where
  abbrev pub Settled : List NodeRef → Type 0
  Settled [] = Unit
  Settled (b ∷ bs) = ((m : NodeRef) → Leads adj b m → In m bs) × Settled bs

  -- what a settled node leads to is settled
  pub Leads-Settled :
      (bs : List NodeRef) (n m : NodeRef) → Settled bs → In n bs → Leads adj n m → In m bs
  Leads-Settled [] n m s i h = absurd i
  Leads-Settled (b ∷ bs) n m (here, rest) (inl e) h = inr (here m (subst (λ x. Leads adj x m) e h))
  Leads-Settled (b ∷ bs) n m (here, rest) (inr i) h = inr (Leads-Settled bs n m rest i h)

  -- and so is the end of every walk from it
  ends_settled :
      (bs : List NodeRef) (n m : NodeRef) (between : List NodeRef)
      → Settled bs
      → In n bs
      → Follows (Leads adj) n (between ++ m ∷ [])
      → In m bs
  ends_settled bs n m [] s i (h, _) = Leads-Settled bs n m s i h
  ends_settled bs n m (x ∷ between) s i (h, walk) =
      ends_settled bs x m between s (Leads-Settled bs n x s i h) walk

  no_return :
      (bs : List NodeRef) (n : NodeRef) (between : List NodeRef)
      → Settled bs
      → In n bs
      → ¬ Follows (Leads adj) n (between ++ n ∷ [])
  no_return [] n between s i walk = absurd i
  no_return (b ∷ bs) n between (here, rest) (inr i) walk = no_return bs n between rest i walk
  no_return (b ∷ bs) n [] (here, rest) (inl e) (h, _) =
      no_return bs n [] rest (here n (subst (λ x. Leads adj x n) e h)) (h, tt)
  no_return (b ∷ bs) n (x ∷ between) (here, rest) (inl e) (h, walk) =
      let i = ends_settled bs x n between rest (here x (subst (λ y. Leads adj y x) e h)) walk in
      no_return bs n (x ∷ between) rest i (h, walk)

  -- A cycle through a settled node would have to come back to it.
  pub not-IsCycle-Settled :
      (bs : List NodeRef) (ns : List NodeRef)
      → Settled bs
      → ((n m : NodeRef) → Leads adj n m → In n bs)
      → ¬ IsCycle (Leads adj) ns
  not-IsCycle-Settled bs ns s every (n, between, e, walk) =
      no_return bs n between s (starts between walk') walk'
    where
      walk' : Follows (Leads adj) n (between ++ n ∷ [])
      walk' = subst (IsWalk (Leads adj)) e walk

      starts : (between : List NodeRef) → Follows (Leads adj) n (between ++ n ∷ []) → In n bs
      starts [] (h, _) = every n n h
      starts (x ∷ between) (h, _) = every n x h
