-- ===== src/Plugin/Provision.antt =====
-- What the reconcile of the console plugin does, and that it comes to rest.
use gitops_operator.Base.{
  String, ◌≡◌, refl, sym, ap, ◌∙◌, subst, ◌≢◌, Bool, true, false, ◌&&◌, Option, none, some, List,
  [], ◌∷◌, if_not-true, if_not-false, All,
}
use gitops_operator.Kube.{
  NamespacedName, Kind, Kind-discrete, key_of, is_not_found, after, Io, pure, ◌>>=◌, Server, Frame,
  same_kind, same_name, OrFault, Settles, Settles-mono, Settles-step, Ensures-get, Ensures-create,
  SetsOwner, Protected, Guards, Target, amend_each, Untouched, AtRest, amend_each-Settles,
}
use mathlib.Core.Option.{none-ne-some}
use gitops_operator.Service.Cleanup.{named, is_target}
use gitops_operator.Service.Provision.{Present}
use gitops_operator.Plugin.Objects.{
  PluginSettings, plugin_service, plugin_deployment, new_console_plugin,
}
use gitops_operator.Plugin.Reconcile.{
  GitopsService, namespace_key, plugin_namespace_object, namespace_or_create, ignore_existing,
  ensure_plugin_namespace, reconcile_service, reconcile_config_map, reconcile_deployment,
  reconcile_console_plugin, reconcile_plugin, wanted_plugin_deployment,
}
use gitops_operator.Plugin.Httpd.{plugin_config_map}
use gitops_operator.Plugin.Rest.{
  OnlyLabels, plugin_map, wanted_deployment, plugin_objects, plugin_objects-Distinct,
  plugin_objects-Restful,
}

-- The plugin's namespace and its four objects.
abbrev pub plugin_targets : String → List Target
plugin_targets namespace =
    named Kind.namespace_kind namespace ""
    ∷ named Kind.service_kind "gitops-plugin" namespace
    ∷ named Kind.config_map_kind "httpd-cfg" namespace
    ∷ named Kind.deployment_kind "gitops-plugin" namespace
    ∷ named Kind.console_plugin_kind "gitops-plugin" ""
    ∷ []

-- an object that is none of them
abbrev pub NotPlugin : String → Protected
NotPlugin namespace l m = All (λ t. is_target l m t ≡ false) (plugin_targets namespace)

-- the same, of the objects of the reconcile
abbrev pub Foreign : PluginSettings → GitopsService → Bool → Protected
Foreign c service is_pf5 l m =
    ((same_kind Kind.namespace_kind l && same_name (namespace_key c.plugin_namespace) m) ≡ false)
    × Untouched (plugin_objects c service is_pf5) l m

some-there : {A : Type 0} {x : Option A} {o : A} → x ≡ some o → x ≢ none
some-there {o = o} there n = none-ne-some o (sym n ∙ there)

module _ (s : Server) where
  open s use {World, view}

  ensure_plugin_namespace-Settles :
      (name : String) (w : World)
      → Settles s (ensure_plugin_namespace name) w (λ _ w'.
        (view w' Kind.namespace_kind (namespace_key name) ≢ none)
        × Frame Kind.namespace_kind (namespace_key name) (view w) (view w'))
  unfolding ensure_plugin_namespace after is_not_found
  ensure_plugin_namespace-Settles name w =
      Ensures-get s (OrFault s Q) Kind.namespace_kind (namespace_key name)
        (namespace_or_create name) w
        (λ x w' v u. (λ n. none-ne-some x (sym n ∙ u _ _ ∙ v), λ l m _. u l m))
        (λ w' v u.
          Ensures-create s (OrFault s Q) Kind.namespace_kind (plugin_namespace_object name)
            (ignore_existing name) w' (u _ _ ∙ v)
            (λ w'' n f. (
              λ e. none-ne-some (plugin_namespace_object name) (sym e ∙ n),
              λ l m d. f l m d ∙ u l m,
            ))
            (λ e w'' n _ _ f. rw n f))
        (λ e w' n u f. rw n f)
    where
      Q : Unit {0} → World → Type 0
      Q _ w' =
          (view w' Kind.namespace_kind (namespace_key name) ≢ none)
          × Frame Kind.namespace_kind (namespace_key name) (view w) (view w')

  module _ (c : PluginSettings) (service : GitopsService) (is_pf5 : Bool) where
    objects_of : Io (Unit {0})
    unfolding amend_each
    objects_of = amend_each c.service.reference service.meta.name (plugin_objects c service is_pf5)

    reconcile_plugin_found :
        c.console_api_found ≡ true
        → reconcile_plugin c service is_pf5
          ≡ (ensure_plugin_namespace c.plugin_namespace >>= λ _. objects_of)
    unfolding reconcile_plugin objects_of amend_each reconcile_service reconcile_config_map
        reconcile_deployment reconcile_console_plugin plugin_config_map wanted_plugin_deployment
        plugin_map wanted_deployment
    reconcile_plugin_found found = if_not-true c.console_api_found _ _ found

    pub reconcile_plugin_missing :
        c.console_api_found ≡ false → reconcile_plugin c service is_pf5 ≡ pure tt
    unfolding reconcile_plugin
    reconcile_plugin_missing missing = if_not-false c.console_api_found _ _ missing

    namespace_apart :
        Untouched
          (plugin_objects c service is_pf5)
          Kind.namespace_kind
          (namespace_key c.plugin_namespace)
    unfolding Kind-discrete
    namespace_apart = (refl, (refl, (refl, (refl, tt))))

    module _ (sets : SetsOwner c.service.reference) (only : OnlyLabels c.add_tracked_label) where
      pub reconcile_plugin-AtRest :
          (w : World)
          → c.console_api_found ≡ true
          → Settles s (reconcile_plugin c service is_pf5) w (λ _ w'.
            (view w' Kind.namespace_kind (namespace_key c.plugin_namespace) ≢ none)
            × All (AtRest (view w')) (plugin_objects c service is_pf5)
            × Guards (Foreign c service is_pf5) (view w) (view w'))
      unfolding objects_of
      reconcile_plugin-AtRest w found =
          subst
            (λ p. Settles s p w (λ _ w'.
              (view w' Kind.namespace_kind (namespace_key c.plugin_namespace) ≢ none)
              × All (AtRest (view w')) (plugin_objects c service is_pf5)
              × Guards (Foreign c service is_pf5) (view w) (view w')))
            (sym (reconcile_plugin_found found))
            (Settles-step s (ensure_plugin_namespace c.plugin_namespace) (λ _. objects_of) w _ _
              (ensure_plugin_namespace-Settles c.plugin_namespace w)
              (λ _ w₁ p.
                Settles-mono s objects_of w₁ _ _
                  (amend_each-Settles s c.service.reference sets service.meta.name
                    (plugin_objects c service is_pf5) w₁
                    (plugin_objects-Restful c service is_pf5 only)
                    (plugin_objects-Distinct c service is_pf5))
                  (λ _ w₂ q. (
                    λ n. p.0 (sym (q.1 _ _ namespace_apart) ∙ n),
                    q.0,
                    λ l m f. q.1 l m f.1 ∙ p.1 l m f.0,
                  ))))

      map-key :
          key_of (plugin_map c service is_pf5).meta
          ≡ record { name = "httpd-cfg"; namespace = c.plugin_namespace }
      unfolding plugin_map plugin_config_map
      map-key = ap key_of (only _).1

      -- Where SetControllerReference sets the owner, AddTrackedByOperatorLabel changes labels only, the
      -- console API was found and no fault of the server stops it, the reconcile of the plugin
      -- returns without an error. Then its namespace, the Service and the Deployment "gitops-plugin"
      -- and the ConfigMap "httpd-cfg" in it, and the ConsolePlugin "gitops-plugin" are there, and every
      -- other object is as it was.
      pub reconcile_plugin-Settles :
          (w : World)
          → c.console_api_found ≡ true
          → Settles s (reconcile_plugin c service is_pf5) w (λ _ w'.
            All (Present (view w')) (plugin_targets c.plugin_namespace)
            × Guards (NotPlugin c.plugin_namespace) (view w) (view w'))
      unfolding plugin_service plugin_deployment new_console_plugin wanted_plugin_deployment
          wanted_deployment Kind-discrete
      reconcile_plugin-Settles w found =
          Settles-mono s (reconcile_plugin c service is_pf5) w _ _ (reconcile_plugin-AtRest w found)
            (λ _ w' q. (
              (
                q.0,
                (
                  some-there q.1.0.1,
                  (
                    subst (λ n. view w' Kind.config_map_kind n ≢ none) map-key
                        (some-there q.1.1.0.1),
                    (some-there q.1.1.1.0.1, (some-there q.1.1.1.1.0.1, tt)),
                  ),
                ),
              ),
              λ l m p. q.2 l m (
                p.0,
                (p.1.0, (subst (apart l m) (sym map-key) p.1.1.0, (p.1.1.1.0, (p.1.1.1.1.0, tt)))),
              ),
            ))
        where
          apart : Kind → NamespacedName → NamespacedName → Type 0
          apart l m n = (same_kind Kind.config_map_kind l && same_name n m) ≡ false
