-- ===== src/Registry/Forget.antt =====
-- A plugin that is unregistered leaves nothing behind, and takes nothing of another's with it.
use gwead.Prelude.{
  ◌≡◌, ◌≢◌, inl, inr, refl, sym, ap, ◌∙◌, subst, true, false, not, Option, none, some, [], In,
  Option-cases,
}
use gwead.Text.{Str, str_eq}
use gwead.Text.Split.{str_eq_iff}
use gwead.Permissions.{Permission}
use gwead.Invoke.{NodeRef, node_eq, InvokeEdge}
use gwead.Invoke.Walks.{node_eq_iff}
use gwead.Registry.{
  find, retain, or_empty, impl_key_eq, StepTypeImplEntry, ActionRegistration, PluginRegistry,
}
use gwead.Registry.Lookup.{
  is_some, get_action, get_manifest, has_plugin, plugins_for_role, subscribers_for, permissions_for,
  step_type_alias_candidates, get_step_type_def, step_type_impl_candidates, get_plugin_wasm_module,
  forget, unregister_plugin,
}
use gwead.Registry.Retain.{In-retain, find-retain, find-retain-kept}
use gwead.Registry.Removal.{
  others_iff, none-retain, In-to_list, str_key, node_key, list_gone, list_kept,
}

module _ {A M W D : Type 0} where
  -- Nothing names the plugin.
  pub record IsGone (plugin : Str) (r : PluginRegistry A M W D) : Type 0 where
    pub no_action : (name : Str) → get_action plugin name r ≡ none
    pub no_manifest : has_plugin plugin r ≡ false
    pub no_permission : permissions_for plugin r ≡ []
    pub no_module : (name : Str) → get_plugin_wasm_module plugin name r ≡ none
    pub no_alias :
        (alias : Str) (n : NodeRef) → In n (step_type_alias_candidates alias r) → n.0 ≢ plugin
    pub no_def : (key : Str) (d : Str × D) → get_step_type_def key r ≡ some d → d.0 ≢ plugin
    pub no_impl :
        (step_type : Str) (matches : Option Str) (e : StepTypeImplEntry)
        → In e (step_type_impl_candidates step_type matches r)
        → e.plugin ≢ plugin
    pub no_role : (role : Str) → ¬ In plugin (plugins_for_role role r)
    pub no_subscriber :
        (event_type : Str) (n : NodeRef) → In n (subscribers_for event_type r) → n.0 ≢ plugin
    pub no_edge : (e : InvokeEdge) → In e r.invoke_edges → e.from.0 ≢ plugin

  -- All that names another plugin is still found.
  pub record IsKept (other : Str) (r r' : PluginRegistry A M W D) : Type 0 where
    pub action :
        (name : Str) (a : ActionRegistration A)
        → get_action other name r ≡ some a
        → get_action other name r' ≡ some a
    pub manifest : (m : M) → get_manifest other r ≡ some m → get_manifest other r' ≡ some m
    pub permission :
        (p : Permission)
        → In p (permissions_for other r)
        → permissions_for other r' ≡ permissions_for other r
    pub module_ :
        (name : Str) (w : W)
        → get_plugin_wasm_module other name r ≡ some w
        → get_plugin_wasm_module other name r' ≡ some w
    pub alias :
        (name action : Str)
        → In (other, action) (step_type_alias_candidates name r)
        → In (other, action) (step_type_alias_candidates name r')
    pub def :
        (key : Str) (d : D)
        → get_step_type_def key r ≡ some (other, d)
        → get_step_type_def key r' ≡ some (other, d)
    pub impl :
        (step_type : Str) (matches : Option Str) (wasm_module : Str)
        → In
            (record { plugin = other; wasm_module = wasm_module })
            (step_type_impl_candidates step_type matches r)
        → In
            (record { plugin = other; wasm_module = wasm_module })
            (step_type_impl_candidates step_type matches r')
    pub role :
        (name : Str) → In other (plugins_for_role name r) → In other (plugins_for_role name r')
    pub subscriber :
        (event_type action : Str)
        → In (other, action) (subscribers_for event_type r)
        → In (other, action) (subscribers_for event_type r')
    pub edge :
        (action : Str) (to : NodeRef)
        → In (record { from = (other, action); to = to }) r.invoke_edges
        → In (record { from = (other, action); to = to }) r'.invoke_edges

  forget-IsGone : (plugin : Str) (r : PluginRegistry A M W D) → IsGone plugin (forget plugin r)
  unfolding forget get_action has_plugin permissions_for get_plugin_wasm_module
      step_type_alias_candidates get_step_type_def step_type_impl_candidates plugins_for_role
      subscribers_for
  forget-IsGone plugin r = record {
    no_action = λ name.
        none-retain node_eq (λ e. not (str_eq e.0.0 plugin)) (plugin, name) r.modules
          (λ j v e. node_key j plugin name e);
    no_manifest = ap is_some (
        none-retain str_eq (λ e. not (str_eq e.0 plugin)) plugin r.manifests
          (λ j v e. str_key j plugin e));
    no_permission = ap or_empty (
        none-retain str_eq (λ e. not (str_eq e.0 plugin)) plugin r.permissions
          (λ j v e. str_key j plugin e));
    no_module = λ name.
        none-retain node_eq (λ e. not (str_eq e.0.0 plugin)) (plugin, name) r.plugin_wasm_modules
          (λ j v e. node_key j plugin name e);
    no_alias = λ alias n i.
        let (j, f, g) =
          find-retain str_eq (λ e. not (str_eq e.1.0 plugin)) alias r.step_type_aliases n
            ((In-to_list n _).0 i) in
        (others_iff n.0 plugin).0 g;
    no_def = λ key d e.
        let (j, f, g) =
          find-retain str_eq (λ e. not (str_eq e.1.0 plugin)) key r.step_type_defs d e in
        (others_iff d.0 plugin).0 g;
    no_impl = λ step_type matches e i.
        let (j, f, g) =
          find-retain impl_key_eq (λ e. not (str_eq e.1.plugin plugin)) (step_type, matches)
            r.step_type_impls e ((In-to_list e _).0 i) in
        (others_iff e.plugin plugin).0 g;
    no_role = λ role i.
        (others_iff plugin plugin).0 (list_gone (λ p. not (str_eq p plugin)) role r.roles plugin i)
          refl;
    no_subscriber = λ event_type n i.
        (others_iff n.0 plugin).0
          (list_gone (λ n. not (str_eq n.0 plugin)) event_type r.subscriptions n i);
    no_edge = λ e i.
        (others_iff e.from.0 plugin).0
          ((In-retain (λ e. not (str_eq e.from.0 plugin)) e r.invoke_edges).0 i).1;
  }

  forget-IsKept :
      (plugin other : Str) (r : PluginRegistry A M W D)
      → other ≢ plugin
      → IsKept other r (forget plugin r)
  unfolding forget get_action get_manifest permissions_for get_plugin_wasm_module
      step_type_alias_candidates get_step_type_def step_type_impl_candidates plugins_for_role
      subscribers_for
  forget-IsKept plugin other r differs =
      let keeps : not (str_eq other plugin) ≡ true = (others_iff other plugin).1 differs in
      record {
        action = λ name a e.
            find-retain-kept node_eq (λ e. not (str_eq e.0.0 plugin)) (other, name) r.modules a e
              (λ j f.
                (others_iff j.0 plugin).1
                  (λ g. differs (sym (ap (λ x. x.0) ((node_eq_iff j (other, name)).0 f)) ∙ g)));
        manifest = λ m e.
            find-retain-kept str_eq (λ e. not (str_eq e.0 plugin)) other r.manifests m e
              (λ j f. (others_iff j plugin).1 (λ g. differs (sym ((str_eq_iff j other).0 f) ∙ g)));
        permission = λ p i. kept_list p i;
        module_ = λ name w e.
            find-retain-kept node_eq (λ e. not (str_eq e.0.0 plugin)) (other, name)
              r.plugin_wasm_modules w e
              (λ j f.
                (others_iff j.0 plugin).1
                  (λ g. differs (sym (ap (λ x. x.0) ((node_eq_iff j (other, name)).0 f)) ∙ g)));
        alias = λ name action i. (In-to_list (other, action) _).1 (
            find-retain-kept str_eq (λ e. not (str_eq e.1.0 plugin)) name r.step_type_aliases
              (other, action) ((In-to_list (other, action) _).0 i) (λ j f. keeps));
        def = λ key d e.
            find-retain-kept str_eq (λ e. not (str_eq e.1.0 plugin)) key r.step_type_defs (other, d)
              e (λ j f. keeps);
        impl = λ step_type matches wasm_module i. (In-to_list _ _).1 (
            find-retain-kept impl_key_eq (λ e. not (str_eq e.1.plugin plugin)) (step_type, matches)
              r.step_type_impls _ ((In-to_list _ _).0 i) (λ j f. keeps));
        role = λ name i. list_kept (λ p. not (str_eq p plugin)) name r.roles other keeps i;
        subscriber = λ event_type action i.
            list_kept (λ n. not (str_eq n.0 plugin)) event_type r.subscriptions (other, action)
              keeps i;
        edge = λ action to i.
            (In-retain (λ e. not (str_eq e.from.0 plugin)) _ r.invoke_edges).1 (i, keeps);
      }
    where
      kept_list :
          (p : Permission)
          → In p (or_empty (find str_eq other r.permissions))
          → or_empty (find str_eq other (retain (λ e. not (str_eq e.0 plugin)) r.permissions))
            ≡ or_empty (find str_eq other r.permissions)
      kept_list p i = elim (Option-cases (find str_eq other r.permissions)) [
        | inl e ↦ absurd (subst (λ o. In p (or_empty o)) e i)
        | inr (vs, e) ↦ ap or_empty (
            find-retain-kept str_eq (λ e. not (str_eq e.0 plugin)) other r.permissions vs e
              (λ j f. (others_iff j plugin).1 (λ g. differs (sym ((str_eq_iff j other).0 f) ∙ g)))
            ∙ sym e)
      ]

  -- Unregistering a plugin that is registered leaves a registry in which nothing names it: no action,
  -- role, manifest, subscription, alias, permission, module, definition or implementation of a step
  -- type, and no edge from it; and what names another plugin is still found.
  pub unregister_plugin-IsGone :
      (plugin other : Str) (r : PluginRegistry A M W D)
      → has_plugin plugin r ≡ true
      → other ≢ plugin
      → (let (known, r') = unregister_plugin plugin r in
          (known ≡ true) × IsGone plugin r' × IsKept other r r')
  unfolding unregister_plugin
  unregister_plugin-IsGone plugin other r known differs =
      rw known (refl, forget-IsGone plugin r, forget-IsKept plugin other r differs)
