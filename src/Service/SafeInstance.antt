-- ===== src/Service/SafeInstance.antt =====
-- The reconcile of the default instance deletes no namespace and writes no GitopsService.
use gitops_operator.Base.{refl, Bool, true, false}
use gitops_operator.Kube.{
  Kind, Kind-discrete, Object, key_of, is_not_found, Result, after, get_object, delete_object,
  Only-bind, create_or_amend-Only,
}
use gitops_operator.Service.Namespaces.{
  Namespace, new_restricted_namespace, ensure_namespace_metadata,
}
use gitops_operator.Service.Default.{
  quota_key, update_if, keep_namespace, reconcile_namespace, reconcile_instance,
}
use gitops_operator.Service.Reconcile.{ServiceSettings, GitopsService}
use gitops_operator.Service.Safety.{IsSafe, Safe, if-Safe, may}

pub update_if-Safe : (r : Bool × Namespace) → Safe (update_if r)
unfolding Kind-discrete
update_if-Safe (true, ns) = (refl, λ _. tt)
update_if-Safe (false, ns) = tt

keep_namespace-Safe :
    (ns : Namespace) (run_on_infra : Bool) (r : Result (Object Kind.resource_quota_kind))
    → Safe (keep_namespace ns run_on_infra r)
unfolding Kind-discrete
keep_namespace-Safe ns run_on_infra (Result.ok _) =
    Only-bind IsSafe (delete_object Kind.resource_quota_kind (quota_key ns)) _
      ((refl, refl), λ _. tt) (λ _. update_if-Safe (ensure_namespace_metadata ns run_on_infra))
keep_namespace-Safe ns run_on_infra (Result.err _) =
    update_if-Safe (ensure_namespace_metadata ns run_on_infra)

reconcile_namespace-Safe :
    (wanted : Namespace) (run_on_infra : Bool) (r : Result Namespace)
    → Safe (reconcile_namespace wanted run_on_infra r)
unfolding after Kind-discrete
reconcile_namespace-Safe wanted run_on_infra (Result.ok ns) =
    (tt, keep_namespace-Safe ns run_on_infra)
reconcile_namespace-Safe wanted run_on_infra (Result.err e) =
    if-Safe (is_not_found e) _ _ (refl, λ _. tt) tt

module _ (c : ServiceSettings) (service : GitopsService) where
  pub reconcile_instance-Safe :
      (r : Result (Object Kind.argo_cd_kind))
      → Safe (reconcile_instance c.plugin.service c.use_dex service r)
  unfolding Kind-discrete after
  reconcile_instance-Safe (Result.err e) = tt
  reconcile_instance-Safe (Result.ok cr) =
      Only-bind IsSafe
        (after
          (get_object Kind.namespace_kind
            (key_of (new_restricted_namespace cr.meta.namespace).meta))
          (reconcile_namespace (new_restricted_namespace cr.meta.namespace)
            service.body.run_on_infra))
        _
        (
          tt,
          reconcile_namespace-Safe (new_restricted_namespace cr.meta.namespace)
              service.body.run_on_infra,
        )
        (λ _.
          create_or_amend-Only IsSafe Kind.argo_cd_kind (may Kind.argo_cd_kind refl)
            c.plugin.service.reference service.meta.name _ _)
