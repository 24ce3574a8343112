-- ===== src/Service/Cleanup.antt =====
-- What removing the backend does.
use gitops_operator.Base.{String, ◌≡◌, refl, Bool, false, ◌&&◌, List, [], ◌∷◌, All, ◌⧺◌}
use gitops_operator.Kube.{
  NamespacedName, Kind, Server, same_kind, same_name, Settles, Settles-mono, Protected, Avoids,
  Guards, Retreats, Target, delete_each, Gone, delete_each-Settles,
}
use gitops_operator.Service.Objects.{
  new_backend_service, new_cluster_role_binding, new_cluster_role, new_service_account,
}
use gitops_operator.Service.Backend.{
  deployment_target, other_backend_targets, cleanup_backend_resources,
}

abbrev pub named : Kind → String → String → Target
named kind name namespace = record {
  wrap = λ e. e;
  kind = kind;
  key = record { name = name; namespace = namespace };
}

-- The five objects of the backend, those of the cluster without a namespace.
abbrev pub backend_targets : NamespacedName → List Target
backend_targets ns =
    named Kind.deployment_kind ns.name ns.namespace
    ∷ named Kind.service_kind ns.name ns.namespace
    ∷ named Kind.cluster_role_binding_kind ("gitops-service-" ⧺ ns.name) ""
    ∷ named Kind.cluster_role_kind ("gitops-service-" ⧺ ns.name) ""
    ∷ named Kind.service_account_kind ("gitops-service-" ⧺ ns.name) ns.namespace
    ∷ []

abbrev pub is_target : Kind → NamespacedName → Target → Bool
is_target l m t = same_kind t.kind l && same_name t.key m

-- An object that is none of them.
abbrev pub Spared : NamespacedName → Protected
Spared ns l m = All (λ t. is_target l m t ≡ false) (backend_targets ns)

targets-Avoids :
    (ns : NamespacedName) → All (λ t. Avoids (Spared ns) t.kind t.key) (backend_targets ns)
targets-Avoids ns = (
  λ l m p. p.0,
  (λ l m p. p.1.0, (λ l m p. p.1.1.0, (λ l m p. p.1.1.1.0, (λ l m p. p.1.1.1.1.0, tt)))),
)

module _ (s : Server) where
  open s use {World, view}

  -- Removing the backend, where no fault of the server stops it, returns without an error and leaves
  -- none of its Deployment, Service, ClusterRoleBinding, ClusterRole and ServiceAccount, and every
  -- other object as it was.
  pub cleanup_backend_resources-Settles :
      (ns : NamespacedName) (w : World)
      → Settles s (cleanup_backend_resources ns) w (λ _ w'.
        All (Gone (view w')) (backend_targets ns) × Guards (Spared ns) (view w) (view w'))
  unfolding cleanup_backend_resources new_backend_service new_cluster_role_binding new_cluster_role
      new_service_account
  cleanup_backend_resources-Settles ns w =
      Settles-mono s (delete_each (deployment_target ns) (other_backend_targets ns)) w
        (λ _ w'.
          All (Gone (view w')) (backend_targets ns) × Retreats (Spared ns) (view w) (view w'))
        (λ _ w'. All (Gone (view w')) (backend_targets ns) × Guards (Spared ns) (view w) (view w'))
        (delete_each-Settles s (Spared ns) (deployment_target ns) (other_backend_targets ns) w
          (targets-Avoids ns) (refl, (refl, (refl, (refl, (refl, tt))))))
        (λ _ w' q. (q.0, q.1.guards))
