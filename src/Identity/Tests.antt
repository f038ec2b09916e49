-- ===== src/Identity/Tests.antt =====
-- Names, identities and references at concrete inputs.
use gwead.Text.{split}
use gwead.Identity.{validate_impl_ref}
use gwead.Identity.Refs.{AreNames, validate_impl_ref_iff}
use gwead.Prelude.{ℕ, ◌≡◌, refl, ◌↔◌, ◌⊎◌, true, false, some, List, [], ◌∷◌, ◌++◌, In}
use gwead.Prelude.Outcome.{ok, err}
use gwead.Text.{Str, chars, len, contains, rsplit_once, is_ascii_alphanumeric}
use gwead.Identity.{
  plugin, step_type, step_id, invalid_char, leading_digit, qualified_reserved, validate_name,
  is_name_char, check_chars, namespace_of, local_name_of, is_on_chain, ancestor_namespaces, walk,
  plugin_reference_candidates, validate_step_type_name, impl_ref_owner, PluginIdentity, new,
  qualified, qualify, validate_namespace,
}
use gwead.Identity.Names.{IsName, validate_name_iff}
use gwead.Identity.Chain.{Encloses, ancestor_namespaces_iff}
use gwead.Identity.Plugins.{new-qualified, plugin_reference_candidates_iff}
use gwead.Identity.Owners.{IsOwned, validate_step_type_name_iff, impl_ref_owner_iff}

name_errors :
    (validate_name step_id (chars "9lives") ≡ err (leading_digit step_id (chars "9lives")))
    × (validate_name plugin (chars "a/b") ≡ err (qualified_reserved plugin (chars "a/b")))
    × (validate_name plugin (chars "-a") ≡ err (invalid_char plugin (chars "-a") b'-'))
    × (validate_name plugin (chars "a-b") ≡ ok tt)
unfolding validate_name len check_chars contains is_name_char is_ascii_alphanumeric
name_errors = (refl, refl, refl, refl)

validate_name_iff_example :
    (validate_name step_id (chars "fetch-1") ≡ ok tt) ↔ IsName step_id (chars "fetch-1")
validate_name_iff_example = validate_name_iff step_id (chars "fetch-1")

chain_of_nested : ancestor_namespaces (chars "a/b") ≡ chars "a/b" ∷ chars "a" ∷ [] ∷ []
unfolding ancestor_namespaces walk rsplit_once
chain_of_nested = refl

ancestor_namespaces_iff_example :
    In (chars "a") (ancestor_namespaces (chars "a/b")) ↔ Encloses (chars "a") (chars "a/b")
ancestor_namespaces_iff_example = ancestor_namespaces_iff (chars "a") (chars "a/b")

abbrev vault : PluginIdentity
vault = record { namespace = chars "tenant"; name = chars "vault" }

new-vault : new (chars "tenant") (chars "vault") ≡ ok vault
unfolding new validate_namespace validate_name len check_chars contains is_name_char
    is_ascii_alphanumeric
new-vault = refl

new-qualified_example :
    (namespace_of (qualified vault) ≡ chars "tenant")
    × (local_name_of (qualified vault) ≡ chars "vault")
new-qualified_example = new-qualified (chars "tenant") (chars "vault") vault new-vault

abbrev vault_candidates : List Str
vault_candidates = chars "tenant/vault" ∷ chars "vault" ∷ []

vault_found : plugin_reference_candidates (chars "tenant/app") (chars "vault") ≡ ok vault_candidates
unfolding plugin_reference_candidates ancestor_namespaces walk rsplit_once namespace_of qualify
    validate_name len check_chars contains is_name_char is_ascii_alphanumeric
vault_found = refl

plugin_reference_candidates_iff_example : In (qualified vault) vault_candidates ↔ (
    (chars "vault" ≡ chars "vault") × (is_on_chain (qualified vault) (chars "tenant/app") ≡ true))
plugin_reference_candidates_iff_example =
    plugin_reference_candidates_iff (chars "tenant/app") (chars "vault") vault_candidates
      (chars "tenant") (chars "vault") vault vault_found new-vault

validate_step_type_name_iff_example :
    (validate_step_type_name (chars "vault.sign") (chars "vault") false ≡ ok tt) ↔ (
      ((false ≡ true) × IsName step_type (chars "vault.sign"))
      ⊎ IsOwned (chars "vault.sign") (chars "vault"))
validate_step_type_name_iff_example =
    validate_step_type_name_iff (chars "vault.sign") (chars "vault") false

abbrev dot : ℕ
dot = b'.'

impl_ref_owner_iff_example : (impl_ref_owner (chars "acme.vault.sign") ≡ some (chars "vault")) ↔ (
    (owner : Str) × (step : Str) × (chars "acme.vault.sign"
      ≡ owner ++ dot ∷ (chars "vault" ++ dot ∷ step))
    × (contains dot owner ≡ false)
    × (contains dot (chars "vault") ≡ false)
    × (contains dot step ≡ false))
impl_ref_owner_iff_example = impl_ref_owner_iff (chars "acme.vault.sign") (chars "vault")

validate_impl_ref_iff_example :
    (validate_impl_ref (chars "acme.vault.sign") ≡ ok tt)
    ↔ AreNames (split b'.' (chars "acme.vault.sign"))
validate_impl_ref_iff_example = validate_impl_ref_iff (chars "acme.vault.sign")
