-- ===== src/Registry/Acyclic.antt =====
-- The edges of the registered plugins never have a cycle.
use gwead.Prelude.{◌↔◌, inl, inr, not, List, [], ◌∷◌, In, Bool-cases}
use gwead.Prelude.Outcome.{Result, ok, err, ◌>>=◌}
use gwead.Fault.{Fault}
use gwead.Text.{Str, str_eq}
use gwead.Invoke.{NodeRef, InvokeEdge, InvokeCycleError, check_acyclic}
use gwead.Invoke.Walks.{Invokes, IsCycle, IsCycle-map}
use gwead.Invoke.Acyclic.{check_acyclic_iff}
use gwead.Registry.{PluginRegistry, new_plugins, extend_invoke_edges}
use gwead.Registry.Lookup.{has_plugin, forget, unregister_plugin}
use gwead.Registry.Retain.{In-retain}

-- what a registration and an unregistration do to the edges
pub data Change : Type 0 where
  add_edges : List InvokeEdge → Change
  unregister : Str → Change

module _ {A M W D : Type 0} (order : List NodeRef → List NodeRef) where
  -- the check and, if it succeeds, the commit (src/kernel/mod.rs)
  unfoldable pub commit_edges :
      List InvokeEdge
      → PluginRegistry A M W D
      → Result (Fault InvokeCycleError) (PluginRegistry A M W D)
  commit_edges new_edges r = check_acyclic order r.invoke_edges new_edges >>= λ checked.
      ok (extend_invoke_edges new_edges r)

  -- a registration that is refused leaves the registry as it was
  abbrev committed :
      PluginRegistry A M W D
      → Result (Fault InvokeCycleError) (PluginRegistry A M W D)
      → PluginRegistry A M W D
  committed r (ok r') = r'
  committed r (err e) = r

  unfoldable pub change : Change → PluginRegistry A M W D → PluginRegistry A M W D
  change (add_edges new_edges) r = committed r (commit_edges new_edges r)
  change (unregister plugin) r = (unregister_plugin plugin r).1

  unfoldable pub changes : List Change → PluginRegistry A M W D → PluginRegistry A M W D
  changes [] r = r
  changes (c ∷ cs) r = changes cs (change c r)

  abbrev IsAcyclic : PluginRegistry A M W D → Type 0
  IsAcyclic r = (ns : List NodeRef) → ¬ IsCycle (Invokes r.invoke_edges) ns

  module _ (same : (ns : List NodeRef) (n : NodeRef) → In n (order ns) ↔ In n ns) where
    change-IsAcyclic :
        (c : Change) (r : PluginRegistry A M W D) → IsAcyclic r → IsAcyclic (change c r)
    unfolding change commit_edges extend_invoke_edges unregister_plugin forget
    change-IsAcyclic (add_edges new_edges) r h =
        elim (check_acyclic_iff order same r.invoke_edges new_edges) [
          | inl (e, free) ↦ rw e free
          | inr (ns, e, cyclic) ↦ rw e h
        ]
    change-IsAcyclic (unregister plugin) r h = elim (Bool-cases (has_plugin plugin r)) [
      | inl e ↦
          rw (e, change)
            (λ ns c. h ns (
              IsCycle-map
                (λ n m i. ((In-retain (λ e. not (str_eq e.from.0 plugin)) _ r.invoke_edges).0 i).0)
                ns c))
      | inr e ↦ rw (e, change) h
    ]

    changes-IsAcyclic :
        (cs : List Change) (r : PluginRegistry A M W D) → IsAcyclic r → IsAcyclic (changes cs r)
    unfolding changes
    changes-IsAcyclic [] r h = h
    changes-IsAcyclic (c ∷ cs) r h = changes-IsAcyclic cs (change c r) (change-IsAcyclic c r h)

no_edges : (ns : List NodeRef) → ¬ IsCycle (Invokes []) ns
no_edges [] (n, between, e, walk) = cc e
no_edges (m ∷ x ∷ ms) (n, between, e, walk) = absurd walk.0
no_edges (m ∷ []) (n, [], e, walk) = cc e
no_edges (m ∷ []) (n, b ∷ between, e, walk) = cc e

-- Whatever plugins are registered and unregistered, in whatever order, and in whatever order the hash
-- map yields its keys: no action of a registered plugin can come back to itself through the edges
-- that the registry keeps.
pub changes_acyclic :
    (A M W D : Type 0) (order : List NodeRef → List NodeRef)
    → ((ns : List NodeRef) (n : NodeRef) → In n (order ns) ↔ In n ns)
    → (cs : List Change) (ns : List NodeRef)
    → ¬ IsCycle
        (Invokes (changes order cs (new_plugins {A = A} {M = M} {W = W} {D = D})).invoke_edges)
        ns
unfolding new_plugins
changes_acyclic A M W D order same cs ns =
    changes-IsAcyclic order same cs (new_plugins {A = A} {M = M} {W = W} {D = D}) no_edges ns
