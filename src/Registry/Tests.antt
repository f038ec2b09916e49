-- ===== src/Registry/Tests.antt =====
-- A registry of two plugins.
use Prim.Native.String.{String}
use gwead.Prelude.{ℕ, ◌≡◌, ◌≢◌, refl, true, false, List, [], ◌∷◌}
use gwead.Text.{chars, str_eq}
use gwead.Text.Split.{str_eq_iff}
use gwead.Invoke.{NodeRef, InvokeEdge}
use gwead.Invoke.Walks.{IsCycle, Invokes}
use gwead.Registry.{
  PluginRegistry, find, put, retain, new_plugins, register_manifest, register_role,
  register_subscription, extend_invoke_edges,
}
use gwead.Registry.Lookup.{has_plugin, plugins_for_role, forget, unregister_plugin, map_values}
use gwead.Registry.Forget.{IsGone, IsKept, unregister_plugin-IsGone}
use gwead.Registry.Acyclic.{Change, add_edges, unregister, changes, changes_acyclic}

abbrev Plugins : Type 0
Plugins = PluginRegistry ℕ ℕ ℕ ℕ

abbrev edge : String → String → InvokeEdge
edge a b = record { from = (chars a, chars "run"); to = (chars b, chars "run") }

abbrev a_edges : List InvokeEdge
a_edges = edge "a" "b" ∷ []

abbrev b_edges : List InvokeEdge
b_edges = edge "b" "a" ∷ []

-- `a` and `b` fill one role, and `a` subscribes to an event
two : Plugins
unfolding new_plugins register_manifest register_role register_subscription extend_invoke_edges
two = extend_invoke_edges a_edges (
    register_subscription (chars "event") (chars "a") (chars "run") (
      register_role (chars "store") (chars "b") (
        register_role (chars "store") (chars "a")
          (register_manifest (chars "b") 2 (register_manifest (chars "a") 1 new_plugins)))))

known : has_plugin (chars "a") two ≡ true
unfolding has_plugin two find put str_eq register_manifest register_role register_subscription
    extend_invoke_edges new_plugins
known = refl

only_b : plugins_for_role (chars "store") (forget (chars "a") two) ≡ chars "b" ∷ []
unfolding plugins_for_role forget two find put str_eq register_manifest register_role
    register_subscription extend_invoke_edges new_plugins retain map_values
only_b = refl

apart : str_eq (chars "b") (chars "a") ≡ false
unfolding str_eq
apart = refl

differs : chars "b" ≢ chars "a"
differs e = cc (apart, (str_eq_iff (chars "b") (chars "a")).1 e)

unregister_plugin-IsGone_example :
    (let (known, r') = unregister_plugin (chars "a") two in
      (known ≡ true) × IsGone (chars "a") r' × IsKept (chars "b") two r')
unregister_plugin-IsGone_example =
    unregister_plugin-IsGone (chars "a") (chars "b") two known differs

abbrev as_listed : List NodeRef → List NodeRef
as_listed ns = ns

abbrev history : List Change
history = add_edges a_edges ∷ add_edges b_edges ∷ unregister (chars "a") ∷ add_edges b_edges ∷ []

abbrev around : List NodeRef
around = (chars "a", chars "run") ∷ (chars "b", chars "run") ∷ (chars "a", chars "run") ∷ []

changes_acyclic_example :
    ¬ IsCycle
      (Invokes
        (changes as_listed history (new_plugins {A = ℕ} {M = ℕ} {W = ℕ} {D = ℕ})).invoke_edges)
      around
changes_acyclic_example =
    changes_acyclic ℕ ℕ ℕ ℕ as_listed (λ ns n. (λ h. h, λ h. h)) history around
