-- ===== src/Registry.antt =====
-- src/kernel/registry.rs: what the kernel keeps of its registered plugins. A HashMap is a list of
-- entries, of which the first with a key counts. Actions, manifests, compiled modules and step type
-- definitions are passed on as they are, so that their types are parameters.
pub mod Lookup
pub mod Retain
pub mod Removal
pub mod Forget
pub mod Acyclic
pub mod Tests
use gwead.Prelude.{
  ℕ, Bool, true, false, not, ◌&&◌, ◌||◌, Option, none, some, List, [], ◌∷◌, ◌++◌, map, length,
  if◌then◌else◌,
}
use gwead.Text.{Str, str_eq, contains, is_empty}
use gwead.Identity.{step_type_separator, qualify, namespace_of}
use gwead.Dag.{DagPlan}
use gwead.Permissions.{Permission}
use gwead.Invoke.{NodeRef, node_eq, InvokeEdge}

-- HashMap::get, insert and retain, for the key's equality
abbrev pub Table : Type 0 → Type 0 → Type 0
Table K V = List (K × V)

module _ {K V : Type 0} (eq : K → K → Bool) where
  unfoldable pub find : K → Table K V → Option V
  find k [] = none
  find k ((j, v) ∷ t) = if eq j k then some v else find k t

  unfoldable pub put : K → V → Table K V → Table K V
  put k v [] = (k, v) ∷ []
  put k v ((j, w) ∷ t) = if eq j k then (j, v) ∷ t else (j, w) ∷ put k v t

unfoldable pub retain : {A : Type 0} → (A → Bool) → List A → List A
retain keep [] = []
retain keep (x ∷ xs) = if keep x then x ∷ retain keep xs else retain keep xs

abbrev pub or_empty : {V : Type 0} → Option (List V) → List V
or_empty none = []
or_empty (some vs) = vs

unfoldable pub option_eq : Option Str → Option Str → Bool
option_eq none none = true
option_eq (some s) (some t) = str_eq s t
option_eq _ _ = false

abbrev pub ImplKey : Type 0
ImplKey = Str × Option Str

unfoldable pub impl_key_eq : ImplKey → ImplKey → Bool
impl_key_eq (s, m) (t, n) = str_eq s t && option_eq m n

pub record StepTypeImplEntry : Type 0 where
  pub plugin : Str
  pub wasm_module : Str

pub record ActionRegistration (A : Type 0) : Type 0 where
  pub action : A
  pub plan : DagPlan

pub record PluginRegistry (A M W D : Type 0) : Type 0 where
  pub modules : Table NodeRef (ActionRegistration A)
  pub roles : Table Str (List Str)
  pub manifests : Table Str M
  pub invoke_edges : List InvokeEdge
  pub subscriptions : Table Str (List NodeRef)
  pub step_type_aliases : Table Str NodeRef
  pub permissions : Table Str (List Permission)
  pub plugin_wasm_modules : Table NodeRef W
  pub step_type_defs : Table Str (Str × D)
  pub step_type_impls : Table ImplKey StepTypeImplEntry

-- PluginRegistry::step_type_key
unfoldable pub step_type_key : Str → Str → Str
step_type_key plugin written =
    if contains step_type_separator written then qualify (namespace_of plugin) written else written

unfoldable pub has_node : NodeRef → List NodeRef → Bool
has_node n [] = false
has_node n (m ∷ ms) = node_eq m n || has_node n ms

module _ {A M W D : Type 0} where
  unfoldable pub new_plugins : PluginRegistry A M W D
  new_plugins = record {
    modules = [];
    roles = [];
    manifests = [];
    invoke_edges = [];
    subscriptions = [];
    step_type_aliases = [];
    permissions = [];
    plugin_wasm_modules = [];
    step_type_defs = [];
    step_type_impls = [];
  }

  unfoldable pub register_action :
      Str → Str → A → DagPlan → PluginRegistry A M W D → PluginRegistry A M W D
  register_action plugin name action plan r = record r {
    modules = put node_eq (plugin, name) (record { action = action; plan = plan }) r.modules;
  }

  unfoldable pub register_manifest : Str → M → PluginRegistry A M W D → PluginRegistry A M W D
  register_manifest name manifest r = record r { manifests = put str_eq name manifest r.manifests }

  unfoldable pub register_role : Str → Str → PluginRegistry A M W D → PluginRegistry A M W D
  register_role role plugin r = record r {
    roles = put str_eq role (or_empty (find str_eq role r.roles) ++ plugin ∷ []) r.roles;
  }

  unfoldable pub register_subscription :
      Str → Str → Str → PluginRegistry A M W D → PluginRegistry A M W D
  register_subscription event_type plugin action r =
      let bucket = or_empty (find str_eq event_type r.subscriptions) in
      record r {
        subscriptions =
            put str_eq event_type
              (if has_node (plugin, action) bucket then bucket else bucket ++ (plugin, action) ∷ [])
              r.subscriptions;
      }

  unfoldable pub extend_invoke_edges :
      List InvokeEdge → PluginRegistry A M W D → PluginRegistry A M W D
  extend_invoke_edges edges r = record r { invoke_edges = r.invoke_edges ++ edges }

  unfoldable pub commit_step_type_alias :
      Str → Str → Str → PluginRegistry A M W D → PluginRegistry A M W D
  commit_step_type_alias alias plugin action r = record r {
    step_type_aliases =
        put str_eq (step_type_key plugin alias) (plugin, action) r.step_type_aliases;
  }

  unfoldable pub commit_step_type_def :
      Str → Str → D → PluginRegistry A M W D → PluginRegistry A M W D
  commit_step_type_def plugin name def r = record r {
    step_type_defs = put str_eq (step_type_key plugin name) (plugin, def) r.step_type_defs;
  }

  unfoldable pub commit_step_type_impl :
      Str → Str → Option Str → Str → PluginRegistry A M W D → PluginRegistry A M W D
  commit_step_type_impl plugin step_type matches wasm_module r = record r {
    step_type_impls =
        put impl_key_eq (step_type_key plugin step_type, matches)
          (record { plugin = plugin; wasm_module = wasm_module }) r.step_type_impls;
  }

  unfoldable pub register_plugin_wasm_module :
      Str → Str → W → PluginRegistry A M W D → PluginRegistry A M W D
  register_plugin_wasm_module plugin name module_ r = record r {
    plugin_wasm_modules = put node_eq (plugin, name) module_ r.plugin_wasm_modules;
  }

  unfoldable pub set_permissions :
      Str → List Permission → PluginRegistry A M W D → PluginRegistry A M W D
  set_permissions plugin perms r = record r { permissions = put str_eq plugin perms r.permissions }
