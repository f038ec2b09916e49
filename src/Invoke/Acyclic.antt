-- ===== src/Invoke/Acyclic.antt =====
-- check_acyclic accepts a graph exactly if it has no cycle, and reports one that it has.
use gwead.Prelude.{
  ◌≡◌, ◌≢◌, ◌↔◌, ◌⊎◌, refl, sym, ap, ◌∙◌, Option, none, List, [], ◌∷◌, ◌++◌, map, In, inl, inr,
  Option-cases,
}
use gwead.Prelude.Outcome.{Result, ok, err}
use gwead.Fault.{Fault, error}
use gwead.Invoke.{
  NodeRef, InvokeEdge, InvokeCycleError, cycle, Adjacency, gray, Colors, fill, color_of, nodes,
  dfs_find_cycle, check_from, check_acyclic,
}
use gwead.Invoke.Walks.{Leads, Leads-iff, Leads-nodes, Invokes, IsCycle, IsCycle-map}
use gwead.Invoke.Settled.{Settled, not-IsCycle-Settled}
use gwead.Invoke.Explore.{Inv, Keeps, Explored, finished, looped, color_of-same}
use gwead.Invoke.Search.{Color-cases, Keeps-insert, dfs_find_cycle-Explored}

module _ (adj : Adjacency) where
  -- what is coloured when no search runs is settled
  colored_settled :
      (colors : Colors) (bs : List NodeRef)
      → Inv adj [] colors bs
      → (n : NodeRef) → color_of colors n ≢ none
      → In n bs
  colored_settled colors bs inv n h = elim (Color-cases (color_of colors n)) [
    | inl e ↦ absurd (h e)
    | inr (inl e) ↦ absurd ((inv.grays n).0 e)
    | inr (inr e) ↦ (inv.blacks n).0 e
  ]

  -- The loop over the starts ends with all of them settled, or reports a cycle.
  data Checked (starts : List NodeRef) (colors : Colors)
      : Result (Fault InvokeCycleError) (Unit {0}) → Type 0 where
    settled_all :
        (bs : List NodeRef)
        → Settled adj bs
        → ((n : NodeRef) → color_of colors n ≢ none → In n bs)
        → ((n : NodeRef) → In n starts → In n bs)
        → Checked starts colors (ok tt)
    cyclic :
        {ns : List NodeRef}
        → IsCycle (Leads adj) ns
        → Checked starts colors (err (error (cycle ns)))

  check_from-Checked :
      (starts : List NodeRef) (colors : Colors) (bs : List NodeRef)
      → Inv adj [] colors bs
      → ((n : NodeRef) → In n starts → In n (nodes adj))
      → Checked starts colors (check_from adj starts colors)
  unfolding check_from
  check_from-Checked [] colors bs inv known =
      settled_all bs inv.settled (colored_settled colors bs inv) (λ n h. absurd h)
  check_from-Checked (start ∷ starts) colors bs inv known =
      elim (Option-cases (color_of colors start)) [
        | inr (c, e) ↦
            rw (e, check_from)
              (more (λ h. cc (e, h)) (λ n h. h)
                (check_from-Checked starts colors bs inv (λ n h. known n (inr h))))
        | inl e ↦
            search_then (dfs_find_cycle adj start colors) refl
              (dfs_find_cycle-Explored adj start colors bs inv e (known start (inl refl))) e
              λ colors' bs' inv'.
                check_from-Checked starts colors' bs' inv' (λ n h. known n (inr h))
      ]
    where
      more :
          {colors' : Colors} {r : Result (Fault InvokeCycleError) (Unit {0})}
          → color_of colors' start ≢ none
          → Keeps adj colors colors'
          → Checked starts colors' r
          → Checked (start ∷ starts) colors r
      more met keep (settled_all bs s old new) =
          settled_all bs s (λ n h. old n (keep n h))
            (λ n h. elim h [
              | inl f ↦ old n (λ g. met (sym (ap (color_of _) f) ∙ g))
              | inr i ↦ new n i
            ])
      more met keep (cyclic c) = cyclic c

      search_then :
          (r : Result (Fault InvokeCycleError) (Option (List NodeRef) × Colors))
          → dfs_find_cycle adj start colors ≡ r
          → Explored adj ((start, gray) ∷ colors) r
          → color_of colors start ≡ none
          → ((colors' : Colors) (bs' : List NodeRef)
              → Inv adj [] colors' bs'
              → Checked starts colors' (check_from adj starts colors'))
          → Checked (start ∷ starts) colors (check_from adj (start ∷ starts) colors)
      search_then r e (finished {colors'} {bs} inv' keep) none_yet later =
          rw (none_yet, check_from)
            (rw e (
              more (keep start (λ f. cc (f, color_of-same start start gray colors refl)))
                (λ n h. keep n (Keeps-insert adj start gray colors n h)) (later colors' bs inv')))
      search_then r e (looped c) none_yet later = rw (none_yet, check_from) (rw e (cyclic c))

-- nothing is coloured at the start
Inv-none : (adj : Adjacency) → Inv adj [] [] []
unfolding color_of
Inv-none adj = record {
  chain = tt;
  grays = λ n. (λ h. cc h, λ h. absurd h);
  blacks = λ n. (λ h. cc h, λ h. absurd h);
  settled = tt;
  known = tt;
}

keys-nodes : (adj : Adjacency) (n : NodeRef) → In n (map (λ e. e.0) adj) → In n (nodes adj)
unfolding nodes
keys-nodes [] n h = h
keys-nodes ((m, ts) ∷ adj) n (inl e) = inl e
keys-nodes ((m, ts) ∷ adj) n (inr h) = inr (In-right n ts (nodes adj) (keys-nodes adj n h))
  where
    In-right : (n : NodeRef) (xs ys : List NodeRef) → In n ys → In n (xs ++ ys)
    In-right n [] ys h = h
    In-right n (x ∷ xs) ys h = inr (In-right n xs ys h)

-- In whatever order the hash map yields its keys, the check always returns: it accepts where no
-- action can come back to itself through the edges, and it reports a cycle, which is one, where one
-- can.
pub check_acyclic_iff :
    (order : List NodeRef → List NodeRef)
    → ((ns : List NodeRef) (n : NodeRef) → In n (order ns) ↔ In n ns)
    → (existing new_edges : List InvokeEdge)
    → ((check_acyclic order existing new_edges ≡ ok tt)
        × ((ns : List NodeRef) → ¬ IsCycle (Invokes (existing ++ new_edges)) ns))
      ⊎ ((ns : List NodeRef) × (check_acyclic order existing new_edges ≡ err (error (cycle ns)))
          × IsCycle (Invokes (existing ++ new_edges)) ns)
unfolding check_acyclic
check_acyclic_iff order same existing new_edges = result (
    check_from-Checked adj starts [] [] (Inv-none adj)
      (λ n h. keys-nodes adj n ((same (map (λ e. e.0) adj) n).0 h)))
  where
    adj : Adjacency
    adj = fill (existing ++ new_edges) []

    starts : List NodeRef
    starts = order (map (λ e. e.0) adj)

    result :
        {r : Result (Fault InvokeCycleError) (Unit {0})}
        → Checked adj starts [] r
        → ((r ≡ ok tt) × ((ns : List NodeRef) → ¬ IsCycle (Invokes (existing ++ new_edges)) ns))
          ⊎ ((ns : List NodeRef) × (r ≡ err (error (cycle ns)))
              × IsCycle (Invokes (existing ++ new_edges)) ns)
    result (settled_all bs s old new) = inl (
      refl,
      λ ns c.
          not-IsCycle-Settled adj bs ns s
            (λ n m h. new n ((same (map (λ e. e.0) adj) n).1 (Leads-nodes adj n m h).0))
            (IsCycle-map (λ n m. (Leads-iff (existing ++ new_edges) n m).1) ns c),
    )
    result (cyclic {ns} c) =
        inr (ns, refl, IsCycle-map (λ n m. (Leads-iff (existing ++ new_edges) n m).0) ns c)
