-- ===== src/Invoke/Search.antt =====
-- The search from one node explores what it leads to, or finds a cycle.
use gwead.Prelude.{
  ℕ, zero, suc, ◌+◌, ◌≤◌, ◌≡◌, ◌⊎◌, refl, sym, ◌∙◌, Option, none, some, List, [], ◌∷◌, In,
  get_elem?, get_elem?-lt, inl, inr, arith, Option-cases,
}
use gwead.Prelude.Outcome.{Result}
use gwead.Fault.{Fault}
use gwead.Invoke.{
  NodeRef, InvokeCycleError, Adjacency, Color, gray, black, Colors, neighbours, color_of, dfs,
  nodes, work, dfs_find_cycle,
}
use gwead.Invoke.Walks.{Leads-nodes}
use gwead.Invoke.Explore.{
  Stack, Inv, Keeps, Explored, finished, looped, Inv-pop, Inv-push, Inv-skip, Leads-next,
  color_of-same, color_of-other, node_cases,
}
use gwead.Invoke.BackEdge.{back_edge-IsCycle}
use gwead.Invoke.Rounds.{white, pending, white-le, white-push, white-le-work}

pub Color-cases : (o : Option Color) → (o ≡ none) ⊎ (o ≡ some gray) ⊎ (o ≡ some black)
Color-cases none = inl refl
Color-cases (some gray) = inr (inl refl)
Color-cases (some black) = inr (inr refl)

module _ (adj : Adjacency) where
  pub Explored-from :
      (colors colors' : Colors)
      {r : Result (Fault InvokeCycleError) (Option (List NodeRef) × Colors)}
      → Keeps adj colors colors'
      → Explored adj colors' r
      → Explored adj colors r
  Explored-from colors colors' keep (finished inv keep') = finished inv (λ n h. keep' n (keep n h))
  Explored-from colors colors' keep (looped c) = looped c

  pub Keeps-insert :
      (n : NodeRef) (c : Color) (colors : Colors) → Keeps adj colors ((n, c) ∷ colors)
  Keeps-insert n c colors m h = elim (node_cases n m) [
    | inl e ↦ λ f. cc (f, color_of-same n m c colors e)
    | inr e ↦ λ f. h (sym (color_of-other n m c colors e) ∙ f)
  ]

  pub dfs-Explored :
      (fuel : ℕ) (stack : Stack) (colors : Colors) (bs : List NodeRef)
      → Inv adj stack colors bs
      → white adj colors (nodes adj) + pending adj stack ≤ fuel
      → Explored adj colors (dfs fuel adj stack colors)
  unfolding dfs
  dfs-Explored fuel [] colors bs inv enough = finished inv (λ n h. h)
  dfs-Explored zero ((node, i) ∷ stack) colors bs inv enough = absurd (omega arith)
  dfs-Explored (suc fuel) ((node, i) ∷ stack) colors bs inv enough =
      elim (Option-cases (get_elem? (neighbours adj node) i)) [
        | inl e ↦
            rw (e, dfs)
              (Explored-from colors ((node, black) ∷ colors) (Keeps-insert node black colors) (
                dfs-Explored fuel stack ((node, black) ∷ colors) (node ∷ bs)
                  (Inv-pop adj node i stack colors bs inv e)
                  (omega (arith, white-le adj node black colors (nodes adj)))))
        | inr (next, e) ↦
            rw (e, dfs)
              (elim (Color-cases (color_of colors next)) [
                | inl f ↦
                    rw (f, dfs)
                      (Explored-from colors ((next, gray) ∷ colors) (Keeps-insert next gray colors)
                        (dfs-Explored fuel ((next, 0) ∷ (node, i + 1) ∷ stack)
                          ((next, gray) ∷ colors) bs
                          (Inv-push adj node i stack colors bs inv next e f)
                          (omega (
                            arith,
                            white-push adj next gray colors (nodes adj) f
                                (Leads-nodes adj node next
                                  (Leads-next adj node i stack colors bs inv next e)).1,
                            get_elem?-lt (neighbours adj node) i next e,
                          ))))
                | inr (inl f) ↦
                    rw (f, dfs)
                      (let (ns, g, c) =
                          back_edge-IsCycle adj colors node next (i + 1) stack inv.chain.2
                            (Leads-next adj node i stack colors bs inv next e)
                            ((inv.grays next).0 f) in
                        rw g (looped c))
                | inr (inr f) ↦
                    rw (f, dfs)
                      (dfs-Explored fuel ((node, i + 1) ∷ stack) colors bs
                        (Inv-skip adj node i stack colors bs inv next e f)
                        (omega (arith, get_elem?-lt (neighbours adj node) i next e)))
              ])
      ]

  -- a search from a node that has no colour yet
  pub Inv-start :
      (start : NodeRef) (colors : Colors) (bs : List NodeRef)
      → Inv adj [] colors bs
      → color_of colors start ≡ none
      → In start (nodes adj)
      → Inv adj ((start, 0) ∷ []) ((start, gray) ∷ colors) bs
  Inv-start start colors bs inv e known = record {
    chain = (λ k m lt f. absurd (omega arith), λ h. h, tt);
    grays = λ n. elim (node_cases start n) [
      | inl f ↦ (λ h. inl (sym f), λ h. color_of-same start n gray colors f)
      | inr f ↦ (
        λ h. absurd ((inv.grays n).0 (sym (color_of-other start n gray colors f) ∙ h)),
        λ h. elim h [ inl g ↦ absurd (f (sym g)) | inr x ↦ absurd x ],
      )
    ];
    blacks = λ n. elim (node_cases start n) [
      | inl f ↦
          (λ h. cc (color_of-same start n gray colors f, h), λ h. cc ((inv.blacks n).1 h, f, e))
      | inr f ↦ (
        λ h. (inv.blacks n).0 (sym (color_of-other start n gray colors f) ∙ h),
        λ h. color_of-other start n gray colors f ∙ (inv.blacks n).1 h,
      )
    ];
    settled = inv.settled;
    known = (known, tt);
  }

  pub dfs_find_cycle-Explored :
      (start : NodeRef) (colors : Colors) (bs : List NodeRef)
      → Inv adj [] colors bs
      → color_of colors start ≡ none
      → In start (nodes adj)
      → Explored adj ((start, gray) ∷ colors) (dfs_find_cycle adj start colors)
  unfolding dfs_find_cycle
  dfs_find_cycle-Explored start colors bs inv e known =
      dfs-Explored (work adj (nodes adj)) ((start, 0) ∷ []) ((start, gray) ∷ colors) bs
        (Inv-start start colors bs inv e known)
        (omega (
          arith,
          white-push adj start gray colors (nodes adj) e known,
          white-le-work adj colors (nodes adj),
        ))
