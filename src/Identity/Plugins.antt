-- ===== src/Identity/Plugins.antt =====
-- Identities of plugins: how they decompose, and which ones a reference can mean.
use gwead.Prelude.{
  In-map, ◌≡◌, refl, sym, ap, ◌∙◌, subst, ◌↔◌, inl, inr, true, false, List, [], ◌∷◌, map, In, arith,
}
use gwead.Prelude.Outcome.{ok, >>=-eq-ok}
use gwead.Text.{Str, contains}
use gwead.Text.Split.{rsplit_once-eq-none, rsplit_once-append}
use gwead.Identity.{
  NameKind, plugin, namespace_separator, namespace_of, local_name_of, ancestor_namespaces,
  is_on_chain, qualify, validate_name, validate_namespace, plugin_reference_candidates,
  PluginIdentity, new, qualified,
}
use gwead.Identity.Names.{IsName, validate_name_iff, contains-names, not-IsNameChar-separator}
use gwead.Identity.Chain.{ancestor_namespaces_iff, is_on_chain_iff}

pub IsName-no_separator :
    (kind : NameKind) (name : Str) → IsName kind name → contains namespace_separator name ≡ false
IsName-no_separator kind name n =
    contains-names namespace_separator name not-IsNameChar-separator n.chars

module _ (ns name : Str) (plain : contains namespace_separator name ≡ false) where
  pub namespace_of-qualify : namespace_of (qualify ns name) ≡ ns
  unfolding namespace_of qualify
  namespace_of-qualify = parts ns
    where
      parts : (x : Str) → namespace_of (qualify x name) ≡ x
      parts [] = rw (rsplit_once-eq-none namespace_separator name plain)
      parts (c ∷ s) = rw (
        rsplit_once-append namespace_separator (c ∷ s) name,
        rsplit_once-eq-none namespace_separator name plain,
      )

  pub local_name_of-qualify : local_name_of (qualify ns name) ≡ name
  unfolding local_name_of qualify
  local_name_of-qualify = parts ns
    where
      parts : (x : Str) → local_name_of (qualify x name) ≡ name
      parts [] = rw (rsplit_once-eq-none namespace_separator name plain)
      parts (c ∷ s) = rw (
        rsplit_once-append namespace_separator (c ∷ s) name,
        rsplit_once-eq-none namespace_separator name plain,
      )

-- What `PluginIdentity::new` has checked.
pub new_checked :
    (ns name : Str) (id : PluginIdentity)
    → new ns name ≡ ok id
    → (id.namespace ≡ ns) × (id.name ≡ name) × IsName plugin name
unfolding new
new_checked ns name id h =
    let (u, e, rest) = >>=-eq-ok (validate_namespace ns) _ h in
    let (v, f, last) = >>=-eq-ok (validate_name plugin name) _ rest in
    (ground arith, ground arith, (validate_name_iff plugin name).0 f)

-- The registry key of a validated identity decomposes into the namespace and the name that it was
-- built from.
pub new-qualified :
    (ns name : Str) (id : PluginIdentity)
    → new ns name ≡ ok id
    → (namespace_of (qualified id) ≡ ns) × (local_name_of (qualified id) ≡ name)
unfolding qualified
new-qualified ns name id h =
    let (e, f, n) = new_checked ns name id h in
    let plain = IsName-no_separator plugin name n in
    rw (e, f) (namespace_of-qualify ns name plain, local_name_of-qualify ns name plain)

In-map_inv :
    {A B : Type 0} (f : A → B) (b : B) (xs : List A)
    → In b (map f xs)
    → (a : A) × (b ≡ f a) × In a xs
In-map_inv f b [] h = absurd h
In-map_inv f b (x ∷ xs) (inl e) = (x, e, inl refl)
In-map_inv f b (x ∷ xs) (inr h) = let (a, e, i) = In-map_inv f b xs h in (a, e, inr i)

qualified_lem :
    (ns name : Str) (id : PluginIdentity) → new ns name ≡ ok id → qualified id ≡ qualify ns name
unfolding qualified
qualified_lem ns name id h = let (e, f, n) = new_checked ns name id h in rw (e, f)

-- The candidate in a namespace, told from the key of an identity.
candidate_eq :
    (ns name a reference : Str)
    → contains namespace_separator name ≡ false
    → contains namespace_separator reference ≡ false
    → qualify ns name ≡ qualify a reference
    → (ns ≡ a) × (name ≡ reference)
candidate_eq ns name a reference plain plain' e = (
  sym (namespace_of-qualify ns name plain)
      ∙ ap namespace_of e
      ∙ namespace_of-qualify a reference plain',
  sym (local_name_of-qualify ns name plain)
      ∙ ap local_name_of e
      ∙ local_name_of-qualify a reference plain',
)

module _ (caller reference ns name : Str) (plain : contains namespace_separator name ≡ false)
    (plain' : contains namespace_separator reference ≡ false) where
  abbrev listed : List Str
  listed = map (λ x. qualify x reference) (ancestor_namespaces (namespace_of caller))

  on_chain-In :
      (is_on_chain (qualify ns name) caller ≡ true)
      ↔ In ns (ancestor_namespaces (namespace_of caller))
  on_chain-In =
      let here = namespace_of-qualify ns name plain in
      let chain = is_on_chain_iff (qualify ns name) caller in
      let walked = ancestor_namespaces_iff ns (namespace_of caller) in
      (λ h. walked.1 (rw here at (chain.0 h)), λ h. chain.1 (rw here (walked.0 h)))

  listed_iff :
      In (qualify ns name) listed
      ↔ ((name ≡ reference) × (is_on_chain (qualify ns name) caller ≡ true))
  listed_iff = (
    λ i.
        let (a, e, j) =
          In-map_inv (λ x. qualify x reference) (qualify ns name)
            (ancestor_namespaces (namespace_of caller)) i in
        let (p, q) = candidate_eq ns name a reference plain plain' e in
        (
          q,
          on_chain-In.1 (subst (λ x. In x (ancestor_namespaces (namespace_of caller))) (sym p) j),
        ),
    λ (q, h).
        subst (λ x. In (qualify ns x) listed) (sym q)
          (In-map (λ x. qualify x reference) ns (ancestor_namespaces (namespace_of caller))
            (on_chain-In.0 h)),
  )

-- The candidates for a reference are the identities with that local name on the caller's ancestor
-- chain, and no others: for every validated identity, it is a candidate exactly if both hold.
pub plugin_reference_candidates_iff :
    (caller reference : Str) (candidates : List Str) (ns name : Str) (id : PluginIdentity)
    → plugin_reference_candidates caller reference ≡ ok candidates
    → new ns name ≡ ok id
    → In (qualified id) candidates
      ↔ ((name ≡ reference) × (is_on_chain (qualified id) caller ≡ true))
unfolding plugin_reference_candidates
plugin_reference_candidates_iff caller reference candidates ns name id h k =
    let (u, e, found) = >>=-eq-ok (validate_name plugin reference) _ h in
    let (_, _, n) = new_checked ns name id k in
    let plain = IsName-no_separator plugin name n in
    let plain' = IsName-no_separator plugin reference ((validate_name_iff plugin reference).0 e) in
    let same : listed caller reference ns name plain plain' ≡ candidates = cc found in
    rw (qualified_lem ns name id k, ← same) (listed_iff caller reference ns name plain plain')
