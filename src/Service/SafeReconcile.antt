-- ===== src/Service/SafeReconcile.antt =====
-- Reconcile deletes no namespace and writes no GitopsService.
use gitops_operator.Base.{String, refl, not}
use gitops_operator.Kube.{
  NamespacedName, Kind, Kind-discrete, Object, key_of, is_not_found, Result, after, Io, get_object,
  Only-after, Only-bind, delete_each-Only,
}
use gitops_operator.Cluster.{get_cluster_version}
use gitops_operator.DefaultCr.{new_cr}
use gitops_operator.Service.Namespaces.{Namespace, ensure_namespace_metadata}
use gitops_operator.Service.Objects.{service_namespace}
use gitops_operator.Service.Backend.{
  deployment_target, other_backend_targets, cleanup_backend_resources,
}
use gitops_operator.Service.Default.{reconcile_default_argocd_instance}
use gitops_operator.Service.Instance.{
  argocd_instance_name, delete_instance, instance_in, remove_instance,
  ensure_default_argocd_instance_doesnt_exist, clean_kam_resources, get_backend_namespace,
}
use gitops_operator.Service.Reconcile.{
  ServiceSettings, GitopsService, with_version, reconcile_plugin_for, plugin_step_of, plugin_step,
  backend_namespace_of, format_error, install_default, remove_default, backend_name, default_step,
  reconcile_in, reconcile_service_of, reconcile, dynamic_plugin_start_ocp_version,
  plugin_pf6_min_ocp_version,
}
use gitops_operator.Plugin.Old.{cleanup_old_plugin_resources}
use gitops_operator.Service.Safety.{
  IsSafe, Safe, if-Safe, get_cluster_version-Safe, get_backend_namespace-Safe, clean_kam-Safe,
  cleanup_old-Safe, reconcile_plugin-Safe,
}
use gitops_operator.Service.SafeInstance.{update_if-Safe, reconcile_instance-Safe}
use gitops_operator.Service.SafeBackend.{reconcile_backend-Safe}

module _ (c : ServiceSettings) (service : GitopsService) where
  format_error-Safe : (text : String) (r : Result (Unit {0})) → Safe (format_error text r)
  format_error-Safe text (Result.ok _) = tt
  format_error-Safe text (Result.err e) = tt

  backend_namespace-Safe :
      (name : String) (r : Result Namespace)
      → Safe (backend_namespace_of name service.body.run_on_infra r)
  unfolding Kind-discrete
  backend_namespace-Safe name (Result.ok ns) =
      update_if-Safe (ensure_namespace_metadata ns service.body.run_on_infra)
  backend_namespace-Safe name (Result.err e) = if-Safe (is_not_found e) _ _ (refl, λ _. tt) tt

  install_default-Safe : (ns : NamespacedName) → Safe (install_default c service ns)
  unfolding install_default after reconcile_default_argocd_instance
  install_default-Safe ns =
      Only-bind IsSafe
        (after (get_object Kind.namespace_kind (record { name = ns.namespace; namespace = "" }))
          (backend_namespace_of ns.namespace service.body.run_on_infra))
        _ (tt, backend_namespace-Safe ns.namespace)
        (λ _.
          Only-bind IsSafe
            (after (reconcile_default_argocd_instance c.plugin.service c.facts c.use_dex service)
              (format_error "unable to reconcile default Argo CD instance"))
            _
            (Only-after IsSafe
              (reconcile_default_argocd_instance c.plugin.service c.facts c.use_dex service)
              (format_error "unable to reconcile default Argo CD instance")
              (reconcile_instance-Safe c service
                (new_cr c.facts argocd_instance_name service_namespace))
              (format_error-Safe "unable to reconcile default Argo CD instance"))
            (λ _. reconcile_backend-Safe c service ns))

  remove_instance-Safe : (r : Result (Object Kind.argo_cd_kind)) → Safe (remove_instance r)
  unfolding after Kind-discrete
  remove_instance-Safe (Result.err e) = tt
  remove_instance-Safe (Result.ok cr) = (tt, in_namespace)
    where
      deleted : (r : Result (Object Kind.argo_cd_kind)) → Safe (delete_instance (key_of cr.meta) r)
      deleted (Result.ok _) = ((refl, refl), λ _. tt)
      deleted (Result.err e) = if-Safe (not (is_not_found e)) _ _ tt tt

      in_namespace : (r : Result Namespace) → Safe (instance_in (key_of cr.meta) r)
      in_namespace (Result.ok _) = (tt, deleted)
      in_namespace (Result.err e) = if-Safe (is_not_found e) _ _ tt tt

  remove_default-Safe : (ns : NamespacedName) → Safe (remove_default c ns)
  unfolding remove_default ensure_default_argocd_instance_doesnt_exist cleanup_backend_resources
      Kind-discrete
  remove_default-Safe ns =
      Only-bind IsSafe
        (after (ensure_default_argocd_instance_doesnt_exist c.facts)
          (format_error "unable to ensure non-existence of default Argo CD instance"))
        _
        (Only-after IsSafe (ensure_default_argocd_instance_doesnt_exist c.facts)
          (format_error "unable to ensure non-existence of default Argo CD instance")
          (remove_instance-Safe (new_cr c.facts argocd_instance_name service_namespace))
          (format_error-Safe "unable to ensure non-existence of default Argo CD instance"))
        (λ _.
          delete_each-Only IsSafe (deployment_target ns) (other_backend_targets ns)
            ((refl, refl), ((refl, refl), ((refl, refl), ((refl, refl), ((refl, refl), tt))))))

  with_version-Safe :
      (r : Result c.Version) (f : c.Version → Io (Unit {0}))
      → ((v : c.Version) → Safe (f v))
      → Safe (with_version c r f)
  with_version-Safe (Result.ok v) f h = h v
  with_version-Safe (Result.err e) f h = tt

  plugin_step-Safe : Safe (plugin_step c service)
  unfolding plugin_step reconcile_plugin_for
  plugin_step-Safe =
      Only-after IsSafe get_cluster_version (plugin_step_of c service) get_cluster_version-Safe go
    where
      go : (r : Result String) → Safe (plugin_step_of c service r)
      go (Result.err _) = tt
      go (Result.ok version) = with_version-Safe (c.new_version version) _ (λ cluster.
          with_version-Safe (c.new_version (dynamic_plugin_start_ocp_version c)) _ (λ min.
            if-Safe (c.less_than cluster min) _ _ tt (
              with_version-Safe (c.new_version plugin_pf6_min_ocp_version) _
                (λ pf6. reconcile_plugin-Safe c service (c.less_than cluster pf6)))))

  reconcile_in-Safe : (namespace : String) → Safe (reconcile_in c service namespace)
  unfolding reconcile_in default_step
  reconcile_in-Safe namespace =
      Only-after IsSafe (clean_kam_resources c.route_api_found) _ (clean_kam-Safe c.route_api_found)
        (λ _.
          Only-after IsSafe (cleanup_old_plugin_resources c.plugin.plugin_namespace) _
            (cleanup_old-Safe c.plugin.plugin_namespace)
            (λ _.
              Only-bind IsSafe (default_step c service (backend_name namespace)) _
                (if-Safe (not c.disable_default_install) _ _
                  (install_default-Safe (backend_name namespace))
                  (remove_default-Safe (backend_name namespace)))
                (λ _. plugin_step-Safe)))

-- Whatever the API server replies, a reconcile deletes no namespace and neither creates, nor
-- updates, nor deletes a GitopsService.
pub reconcile-Safe : (c : ServiceSettings) → Safe (reconcile c)
unfolding reconcile after
reconcile-Safe c = (tt, go)
  where
    go : (r : Result GitopsService) → Safe (reconcile_service_of c r)
    go (Result.ok service) =
        Only-bind IsSafe get_backend_namespace (reconcile_in c service) get_backend_namespace-Safe
          (reconcile_in-Safe c service)
    go (Result.err e) = if-Safe (is_not_found e) _ _ tt tt
