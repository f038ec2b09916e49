-- ===== src/Registry/Lookup.antt =====
-- The lookups of the registry, and the removal of a plugin from all of its tables.
use gwead.Prelude.{Bool, true, false, not, Option, none, some, List, [], ◌∷◌, if◌then◌else◌}
use gwead.Text.{Str, str_eq}
use gwead.Permissions.{Permission}
use gwead.Invoke.{NodeRef, node_eq}
use gwead.Registry.{
  Table, find, retain, or_empty, impl_key_eq, StepTypeImplEntry, ActionRegistration, PluginRegistry,
}

-- `Option::into_iter().collect()`
abbrev pub to_list : {V : Type 0} → Option V → List V
to_list none = []
to_list (some v) = v ∷ []

abbrev pub is_some : {V : Type 0} → Option V → Bool
is_some none = false
is_some (some v) = true

-- `values_mut()`, each value changed
unfoldable pub map_values : {K V : Type 0} → (V → V) → Table K V → Table K V
map_values f [] = []
map_values f ((k, v) ∷ t) = (k, f v) ∷ map_values f t

abbrev pub is_nonempty : {V : Type 0} → List V → Bool
is_nonempty [] = false
is_nonempty (v ∷ vs) = true

module _ {A M W D : Type 0} where
  unfoldable pub get_action : Str → Str → PluginRegistry A M W D → Option (ActionRegistration A)
  get_action plugin name r = find node_eq (plugin, name) r.modules

  unfoldable pub get_manifest : Str → PluginRegistry A M W D → Option M
  get_manifest plugin r = find str_eq plugin r.manifests

  unfoldable pub has_plugin : Str → PluginRegistry A M W D → Bool
  has_plugin plugin r = is_some (find str_eq plugin r.manifests)

  unfoldable pub plugins_for_role : Str → PluginRegistry A M W D → List Str
  plugins_for_role role r = or_empty (find str_eq role r.roles)

  unfoldable pub subscribers_for : Str → PluginRegistry A M W D → List NodeRef
  subscribers_for event_type r = or_empty (find str_eq event_type r.subscriptions)

  unfoldable pub permissions_for : Str → PluginRegistry A M W D → List Permission
  permissions_for plugin r = or_empty (find str_eq plugin r.permissions)

  unfoldable pub step_type_alias_candidates : Str → PluginRegistry A M W D → List NodeRef
  step_type_alias_candidates alias r = to_list (find str_eq alias r.step_type_aliases)

  unfoldable pub get_step_type_def : Str → PluginRegistry A M W D → Option (Str × D)
  get_step_type_def key r = find str_eq key r.step_type_defs

  unfoldable pub step_type_impl_candidates :
      Str → Option Str → PluginRegistry A M W D → List StepTypeImplEntry
  step_type_impl_candidates step_type matches r =
      to_list (find impl_key_eq (step_type, matches) r.step_type_impls)

  unfoldable pub get_plugin_wasm_module : Str → Str → PluginRegistry A M W D → Option W
  get_plugin_wasm_module plugin name r = find node_eq (plugin, name) r.plugin_wasm_modules

  -- every table without what names the plugin
  unfoldable pub forget : Str → PluginRegistry A M W D → PluginRegistry A M W D
  forget plugin r = record {
    modules = retain (λ e. not (str_eq e.0.0 plugin)) r.modules;
    manifests = retain (λ e. not (str_eq e.0 plugin)) r.manifests;
    permissions = retain (λ e. not (str_eq e.0 plugin)) r.permissions;
    plugin_wasm_modules = retain (λ e. not (str_eq e.0.0 plugin)) r.plugin_wasm_modules;
    step_type_aliases = retain (λ e. not (str_eq e.1.0 plugin)) r.step_type_aliases;
    step_type_defs = retain (λ e. not (str_eq e.1.0 plugin)) r.step_type_defs;
    step_type_impls = retain (λ e. not (str_eq e.1.plugin plugin)) r.step_type_impls;
    roles =
        retain (λ e. is_nonempty e.1) (map_values (retain (λ p. not (str_eq p plugin))) r.roles);
    subscriptions =
        retain (λ e. is_nonempty e.1)
          (map_values (retain (λ n. not (str_eq n.0 plugin))) r.subscriptions);
    invoke_edges = retain (λ e. not (str_eq e.from.0 plugin)) r.invoke_edges;
  }

  unfoldable pub unregister_plugin : Str → PluginRegistry A M W D → Bool × PluginRegistry A M W D
  unregister_plugin plugin r = if has_plugin plugin r then (true, forget plugin r) else (false, r)
