-- ===== src/Service/SafeBackend.antt =====
-- The reconcile of the backend deletes no namespace and writes no GitopsService.
use gitops_operator.Base.{◌≡◌, refl, false, ◌||◌, Option, none, some, List, [], ◌∷◌, ◌==◌, ◌⧺◌}
use gitops_operator.Kube.{
  NamespacedName, Resources, Container, PodSpec, Kind, Kind-discrete, Object, Result, same_kind,
  Only-after, Only-bind, Change, create_or_amend, create_or_amend-Only,
}
use gitops_operator.Cluster.{
  get_cluster_version, version_or_empty, restrict_first, add_seccomp_profile_for_openshift,
}
use gitops_operator.Service.Objects.{
  new_service_account, new_cluster_role, new_cluster_role_binding, new_backend_service,
  new_backend_deployment,
}
use gitops_operator.Service.Backend.{
  amend_cluster_role, keep_found, backend_resources, with_resources, reconcile_backend_deployment,
  reconcile_backend,
}
use gitops_operator.Service.Reconcile.{ServiceSettings, GitopsService}
use gitops_operator.Service.Safety.{IsSafe, Safe, if-Safe, may, get_cluster_version-Safe}

module _ (c : ServiceSettings) (service : GitopsService) where
  seccomp-Safe :
      (pod : PodSpec) → Safe (add_seccomp_profile_for_openshift c.plugin.service.newer pod)
  unfolding add_seccomp_profile_for_openshift
  seccomp-Safe pod = Only-after IsSafe get_cluster_version _ get_cluster_version-Safe (λ r.
      if-Safe
        (version_or_empty r == "" || c.plugin.service.newer ("v" ⧺ version_or_empty r) "v4.10.999")
        _ _ (first pod.containers) tt)
    where
      first : (cs : List Container) → Safe (restrict_first pod cs)
      first [] = tt
      first (x ∷ cs) = tt

  with_resources-Safe : (r : Option Resources) (cs : List Container) → Safe (with_resources r cs)
  with_resources-Safe none cs = tt
  with_resources-Safe (some r) [] = tt
  with_resources-Safe (some r) (x ∷ cs) = tt

  backend_deployment-Safe :
      (r : Result (Object Kind.deployment_kind))
      → Safe (reconcile_backend_deployment c.plugin.service service.meta.name service.body r)
  unfolding Kind-discrete
  backend_deployment-Safe (Result.err e) = tt
  backend_deployment-Safe (Result.ok d) =
      Only-after IsSafe (add_seccomp_profile_for_openshift c.plugin.service.newer d.body.pod) _
        (seccomp-Safe d.body.pod)
        (λ pod.
          Only-after IsSafe (with_resources (backend_resources service.body) pod.containers) _
            (with_resources-Safe (backend_resources service.body) pod.containers)
            (λ containers.
              create_or_amend-Only IsSafe Kind.deployment_kind (may Kind.deployment_kind refl)
                c.plugin.service.reference service.meta.name _ _))

  amend-Safe :
      (k : Kind) (o : Object k) (amend : Object k → Change (Object k))
      → same_kind k Kind.gitops_service_kind ≡ false
      → Safe (create_or_amend c.plugin.service.reference service.meta.name k o amend)
  amend-Safe k o amend e =
      create_or_amend-Only IsSafe k (may k e) c.plugin.service.reference service.meta.name o amend

  pub reconcile_backend-Safe :
      (ns : NamespacedName) → Safe (reconcile_backend c.plugin.service ns service)
  unfolding reconcile_backend Kind-discrete
  reconcile_backend-Safe ns =
      Only-bind IsSafe
        (create_or_amend c.plugin.service.reference service.meta.name Kind.service_account_kind
          (new_service_account ns) keep_found)
        _ (amend-Safe Kind.service_account_kind (new_service_account ns) keep_found refl)
        (λ _.
          Only-bind IsSafe
            (create_or_amend c.plugin.service.reference service.meta.name Kind.cluster_role_kind
              (new_cluster_role ns) (amend_cluster_role (new_cluster_role ns)))
            _
            (amend-Safe Kind.cluster_role_kind (new_cluster_role ns)
              (amend_cluster_role (new_cluster_role ns)) refl)
            (λ _.
              Only-bind IsSafe
                (create_or_amend c.plugin.service.reference service.meta.name
                  Kind.cluster_role_binding_kind (new_cluster_role_binding ns) keep_found)
                _
                (amend-Safe Kind.cluster_role_binding_kind (new_cluster_role_binding ns) keep_found
                  refl)
                (λ _.
                  Only-bind IsSafe
                    (reconcile_backend_deployment c.plugin.service service.meta.name service.body
                      (new_backend_deployment c.plugin.service ns service.body.image_pull_policy))
                    _
                    (backend_deployment-Safe
                      (new_backend_deployment c.plugin.service ns service.body.image_pull_policy))
                    (λ _. amend-Safe Kind.service_kind (new_backend_service ns) keep_found refl))))
