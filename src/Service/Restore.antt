-- ===== src/Service/Restore.antt =====
-- The whole reconcile of the backend, and how its removal undoes it.
use gitops_operator.Base.{
  String, ◌≡◌, refl, sym, ◌∙◌, subst, ◌⊎◌, inl, inr, false, List, [], ◌∷◌, Bool-cases, &&-left,
  &&-right, All,
}
use gitops_operator.Kube.{
  NamespacedName, Kind, Kind-discrete, Object, key_of, Result, ◌>>◌, Server, View, Unchanged,
  same_kind, Settles, Settles-mono, Settles-step, same_name-eq, same_kind-eq, SetsOwner,
  create_or_amend, Guards, Advances-trans, Target, Gone,
}
use gitops_operator.Service.Objects.{
  Settings, new_service_account, new_cluster_role, new_cluster_role_binding, new_backend_service,
  new_backend_deployment,
}
use gitops_operator.Service.Backend.{
  amend_cluster_role, keep_found, reconcile_backend_deployment, reconcile_backend,
  cleanup_backend_resources,
}
use gitops_operator.Service.Cleanup.{
  backend_targets, is_target, Spared, cleanup_backend_resources-Settles,
}
use gitops_operator.Service.Provision.{Present, HasContainers}
use gitops_operator.Service.Steps.{
  Early, Early-Avoids, Step, found-Settles, role-Settles, late-Settles, BackendProvided,
}

-- An object that is one of the targets is gone in both views; any other is none of them.
Gone-or_Spared :
    (v v' : View) (l : Kind) (m : NamespacedName) (ts : List Target)
    → All (Gone v) ts
    → All (Gone v') ts
    → (v' l m ≡ v l m) ⊎ All (λ t. is_target l m t ≡ false) ts
Gone-or_Spared v v' l m [] g g' = inr tt
Gone-or_Spared v v' l m (t ∷ ts) (g, gs) (g', gs') = elim (Bool-cases (is_target l m t)) [
  | inl e ↦ inl (
      rw
        (
          ← same_kind-eq t.kind l (&&-left _ _ e),
          ← same_name-eq t.key m (&&-right (same_kind t.kind l) _ e),
        )
        (g' ∙ sym g))
  | inr e ↦ elim (Gone-or_Spared v v' l m ts gs gs') [
    | inl same ↦ inl same
    | inr spared ↦ inr (e, spared)
  ]
]

restored :
    (ns : NamespacedName) (v v' : View)
    → All (Gone v) (backend_targets ns)
    → All (Gone v') (backend_targets ns)
    → Guards (Spared ns) v v'
    → Unchanged v v'
restored ns v v' g g' guards l m = elim (Gone-or_Spared v v' l m (backend_targets ns) g g') [
  | inl same ↦ same
  | inr spared ↦ guards l m spared
]

module _ (s : Server) (c : Settings) (sets : SetsOwner c.reference) (ns : NamespacedName) where
  open s use {World, view}

  -- Where SetControllerReference sets the owner, the TLS curves can be mapped and a backend Deployment
  -- that is there has a container: a reconcile of the backend that meets no fault of the server returns
  -- without an error, the Deployment, the Service, the ClusterRoleBinding, the ClusterRole and the
  -- ServiceAccount are there, and every other object is as it was.
  pub reconcile_backend-Settles :
      (service : Object Kind.gitops_service_kind) (curves : String) (w : World)
      → c.map_groups_to_curves c.tls_profile.curve_preferences ≡ Result.ok curves
      → HasContainers s c sets ns service.meta.name (view w Kind.deployment_kind ns)
      → Settles s (reconcile_backend c ns service) w (λ _ w'. BackendProvided s c sets ns w w')
  unfolding reconcile_backend Kind-discrete new_cluster_role new_service_account
      new_cluster_role_binding new_backend_service
  reconcile_backend-Settles service curves w h g =
      let owner = service.meta.name in
      let Q = λ (_ : Unit {0}) (w' : World).
        All (Present (view w')) (backend_targets ns) × Guards (Spared ns) (view w) (view w') in
      let account = new_service_account ns in
      let role = new_cluster_role ns in
      let binding = new_cluster_role_binding ns in
      let last =
        create_or_amend c.reference owner Kind.service_kind (new_backend_service ns) keep_found in
      let deployment =
        reconcile_backend_deployment c owner service.body
          (new_backend_deployment c ns service.body.image_pull_policy) in
      let third =
        create_or_amend c.reference owner Kind.cluster_role_binding_kind binding keep_found in
      let second =
        create_or_amend c.reference owner Kind.cluster_role_kind role (amend_cluster_role role) in
      Settles-step s
        (create_or_amend c.reference owner Kind.service_account_kind account keep_found)
        (λ _. second >> (third >> (deployment >> last))) w
        (λ _ w₁. Step s c sets ns (Early ns) Kind.service_account_kind (key_of account.meta) w w₁) Q
        (found-Settles s c sets ns (Early ns) owner Kind.service_account_kind account w refl (
          Early-Avoids ns Kind.service_account_kind (key_of account.meta) refl
            (λ l m p. p.1.1.1.1.0)))
        (λ _ w₁ a.
          Settles-step s second (λ _. third >> (deployment >> last)) w₁
            (λ _ w₂. Step s c sets ns (Early ns) Kind.cluster_role_kind (key_of role.meta) w₁ w₂) Q
            (role-Settles s c sets ns (Early ns) owner w₁
              (Early-Avoids ns Kind.cluster_role_kind (key_of role.meta) refl (λ l m p. p.1.1.1.0)))
            (λ _ w₂ b.
              Settles-step s third (λ _. deployment >> last) w₂
                (λ _ w₃.
                  Step s c sets ns (Early ns) Kind.cluster_role_binding_kind (key_of binding.meta)
                    w₂ w₃)
                Q
                (found-Settles s c sets ns (Early ns) owner Kind.cluster_role_binding_kind binding
                  w₂ refl
                  (Early-Avoids ns Kind.cluster_role_binding_kind (key_of binding.meta) refl
                    (λ l m p. p.1.1.0)))
                (λ _ w₃ d.
                  late-Settles s c sets ns service curves w w₃ h g
                    (d.1.persists Kind.service_account_kind (key_of account.meta)
                      (b.1.persists Kind.service_account_kind (key_of account.meta) a.0))
                    (d.1.persists Kind.cluster_role_kind (key_of role.meta) b.0) d.0
                    (Advances-trans a.1 (Advances-trans b.1 d.1)))))

  -- Removing the backend undoes its reconcile: where SetControllerReference sets the owner, the TLS
  -- curves can be mapped and none of the five objects is there, a reconcile of the backend and then its
  -- removal, if they meet no fault of the server, return without an error and leave every object of the
  -- cluster as it was.
  pub cleanup_backend_resources-reconcile_backend :
      (service : Object Kind.gitops_service_kind) (curves : String) (w : World)
      → c.map_groups_to_curves c.tls_profile.curve_preferences ≡ Result.ok curves
      → All (Gone (view w)) (backend_targets ns)
      → Settles s
          (reconcile_backend c ns service >> cleanup_backend_resources ns)
          w
          (λ _ w'. Unchanged (view w) (view w'))
  cleanup_backend_resources-reconcile_backend service curves w h gone =
      Settles-step s (reconcile_backend c ns service) (λ _. cleanup_backend_resources ns) w
        (λ _ w₁. BackendProvided s c sets ns w w₁) (λ _ w'. Unchanged (view w) (view w'))
        (reconcile_backend-Settles service curves w h
          (subst (HasContainers s c sets ns service.meta.name) (sym gone.0) tt))
        (λ _ w₁ p.
          Settles-mono s (cleanup_backend_resources ns) w₁
            (λ _ w'.
              All (Gone (view w')) (backend_targets ns) × Guards (Spared ns) (view w₁) (view w'))
            (λ _ w'. Unchanged (view w) (view w')) (cleanup_backend_resources-Settles s ns w₁)
            (λ _ w' q. restored ns (view w) (view w') gone q.0 (λ l m x. q.1 l m x ∙ p.1 l m x)))
