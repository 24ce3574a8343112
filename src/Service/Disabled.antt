-- ===== src/Service/Disabled.antt =====
-- What Reconcile does where the default install is disabled.
use gitops_operator.Base.{String, ◌≡◌, refl, sym, ◌∙◌, subst, ◌≢◌, true, Option, none, if_not-true}
use gitops_operator.Kube.{
  Kind, Kind-discrete, Object, is_not_found, Result, after, Io, ◌>>◌, Server, View, OrFault,
  Settles, Ensures-mono, Ensures-after, Settles-mono, Settles-step, Ensures-get, SetsOwner,
  Only-KeepsKind, Guards,
}
use gitops_operator.DefaultCr.{resource_exclusions}
use gitops_operator.Service.Objects.{
  new_backend_service, new_cluster_role, new_cluster_role_binding, new_service_account,
}
use gitops_operator.Service.Instance.{clean_kam_resources, get_backend_namespace}
use gitops_operator.Service.Absence.{instance_key, namespace_of_instance}
use gitops_operator.Service.Reconcile.{
  install_default, ServiceSettings, GitopsService, plugin_step, remove_default, install_default,
  backend_name, default_step, reconcile_in, service_key, reconcile_service_of, reconcile,
}
use gitops_operator.Plugin.Objects.{plugin_service, plugin_deployment, new_console_plugin}
use gitops_operator.Plugin.Old.{cleanup_old_plugin_resources}
use gitops_operator.Plugin.Reconcile.{wanted_plugin_deployment}
use gitops_operator.Plugin.Rest.{OnlyLabels, wanted_deployment}
use gitops_operator.Service.Spares.{
  clean_kam_resources-SparesNamespaces, cleanup_old-SparesNamespaces,
}
use gitops_operator.Service.Kept.{PluginSpares, plugin_step-Kept}
use gitops_operator.Service.Absence.{Leaves}
use gitops_operator.Service.Removal.{
  backend_home, backend_home-Unchanged, NoDefault, get_backend_namespace-Settles,
  remove_default-Settles,
}

module _ (s : Server) where
  open s use {World, view}

  module _ (c : ServiceSettings) (exclusions : String)
      (marshal : c.facts.marshal resource_exclusions ≡ Result.ok exclusions) where
    module _ (sets : SetsOwner c.plugin.service.reference)
        (only : OnlyLabels c.plugin.add_tracked_label) where
      default_kept :
          (service : GitopsService) (namespace : String) (v v' : View)
          → Guards (PluginSpares s c service) v v'
          → NoDefault namespace v
          → NoDefault namespace v'
      unfolding Kind-discrete plugin_service plugin_deployment new_console_plugin
          wanted_plugin_deployment wanted_deployment new_backend_service new_cluster_role
          new_cluster_role_binding new_service_account
      default_kept service namespace v v' g h = (
        subst Leaves
            (sym (
              g Kind.argo_cd_kind instance_key (
                (refl, (refl, (refl, (refl, (refl, tt))))),
                (refl, (refl, (refl, (refl, (refl, tt))))),
              )))
            h.0,
        (
          g Kind.deployment_kind _ (
            (refl, (refl, (refl, (refl, (refl, tt))))),
            (refl, (refl, (refl, (refl, (refl, tt))))),
          )
              ∙ h.1.0,
          (
            g Kind.service_kind _ (
              (refl, (refl, (refl, (refl, (refl, tt))))),
              (refl, (refl, (refl, (refl, (refl, tt))))),
            )
                ∙ h.1.1.0,
            (
              g Kind.cluster_role_binding_kind _ (
                (refl, (refl, (refl, (refl, (refl, tt))))),
                (refl, (refl, (refl, (refl, (refl, tt))))),
              )
                  ∙ h.1.1.1.0,
              (
                g Kind.cluster_role_kind _ (
                  (refl, (refl, (refl, (refl, (refl, tt))))),
                  (refl, (refl, (refl, (refl, (refl, tt))))),
                )
                    ∙ h.1.1.1.1.0,
                (
                  g Kind.service_account_kind _ (
                    (refl, (refl, (refl, (refl, (refl, tt))))),
                    (refl, (refl, (refl, (refl, (refl, tt))))),
                  )
                      ∙ h.1.1.1.1.1.0,
                  tt,
                ),
              ),
            ),
          ),
        ),
      )

      kept : {k : Kind} {x y : Option (Object k)} → x ≢ none → y ≡ x → y ≢ none
      kept h e n = h (sym e ∙ n)

      last_steps :
          (service : GitopsService) (namespace : String) (w : World)
          → c.disable_default_install ≡ true
          → view w Kind.namespace_kind namespace_of_instance ≢ none
          → Settles s
              (default_step c service (backend_name namespace) >> plugin_step c service)
              w
              (λ _ w'. NoDefault namespace (view w'))
      unfolding default_step
      last_steps service namespace w disabled there =
          Settles-step s (default_step c service (backend_name namespace))
            (λ _. plugin_step c service) w (λ _ w'. NoDefault namespace (view w'))
            (λ _ w'. NoDefault namespace (view w'))
            (subst (λ (p : Io (Unit {0})). Settles s p w (λ _ w'. NoDefault namespace (view w')))
              (sym (
                if_not-true c.disable_default_install
                  (install_default c service (backend_name namespace))
                  (remove_default c (backend_name namespace)) disabled))
              (remove_default-Settles s c exclusions marshal namespace w there))
            (λ _ w₁ h.
              Settles-mono s (plugin_step c service) w₁ _ _
                (plugin_step-Kept s c sets only service w₁)
                (λ _ w' g. default_kept service namespace (view w₁) (view w') g h))

      reconcile_in-NoDefault :
          (service : GitopsService) (namespace : String) (w : World)
          → c.disable_default_install ≡ true
          → view w Kind.namespace_kind namespace_of_instance ≢ none
          → Settles s (reconcile_in c service namespace) w (λ _ w'. NoDefault namespace (view w'))
      unfolding reconcile_in default_step
      reconcile_in-NoDefault service namespace w disabled there =
          Ensures-after s (clean_kam_resources c.route_api_found) _ w _ (
            Ensures-mono s (clean_kam_resources c.route_api_found) w _ _
              (Only-KeepsKind s Kind.namespace_kind (clean_kam_resources c.route_api_found) (view w)
                w (λ m. refl) (clean_kam_resources-SparesNamespaces c.route_api_found).0
                (clean_kam_resources-SparesNamespaces c.route_api_found).1)
              (λ _ w₁ u.
                Ensures-after s (cleanup_old_plugin_resources c.plugin.plugin_namespace) _ w₁ _ (
                  Ensures-mono s (cleanup_old_plugin_resources c.plugin.plugin_namespace) w₁ _ _
                    (Only-KeepsKind s Kind.namespace_kind
                      (cleanup_old_plugin_resources c.plugin.plugin_namespace) (view w) w₁ u
                      (cleanup_old-SparesNamespaces c.plugin.plugin_namespace).0
                      (cleanup_old-SparesNamespaces c.plugin.plugin_namespace).1)
                    (λ _ w₂ u₂. last_steps service namespace w₂ disabled (kept there (u₂ _))))))

      -- Where the GitopsService and the namespace of the default instance are there, the default
      -- install is disabled, the resource exclusions can be marshalled, SetControllerReference sets the
      -- owner and AddTrackedByOperatorLabel changes labels only, a reconcile that meets no
      -- fault of the server, except in its two cleanups and the Get of the version for the plugin,
      -- returns without an error. Then the default instance is not there or is marked for deletion,
      -- and no object of the backend is there in the backend's namespace, which is
      -- openshift-pipelines-app-delivery on a cluster of version 4.6 and openshift-gitops on any
      -- other, whatever the cluster's version has it do with the console plugin.
      pub reconcile-NoDefault :
          (w : World)
          → c.disable_default_install ≡ true
          → view w Kind.gitops_service_kind service_key ≢ none
          → view w Kind.namespace_kind namespace_of_instance ≢ none
          → Settles s (reconcile c) w (λ _ w'. NoDefault (backend_home (view w)) (view w'))
      unfolding reconcile after is_not_found
      reconcile-NoDefault w disabled service there =
          Ensures-get s (OrFault s Q) Kind.gitops_service_kind service_key (reconcile_service_of c)
            w
            (λ o w₁ e u.
              Settles-step s get_backend_namespace (reconcile_in c o) w₁ _ _
                (get_backend_namespace-Settles s w₁)
                (λ ns w₂ p.
                  Settles-mono s (reconcile_in c o ns) w₂ _ _
                    (reconcile_in-NoDefault o ns w₂ disabled (kept there (p.1 _ _ ∙ u _ _)))
                    (λ _ w' q.
                      subst (λ n. NoDefault n (view w'))
                        (p.0 ∙ backend_home-Unchanged (view w) (view w₁) u) q)))
            (λ w₁ e u. absurd (service e)) (λ e w₁ n u f. rw n f)
        where
          Q : Unit {0} → World → Type 0
          Q _ w' = NoDefault (backend_home (view w)) (view w')
