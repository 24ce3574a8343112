-- ===== src/Service/Steps.antt =====
-- The steps of the backend's reconcile in controllers/gitopsservice_controller.go.
use gitops_operator.Base.{
  String, ◌≡◌, refl, sym, ap, ◌∙◌, subst, ◌≢◌, ◌⊎◌, inl, inr, false, none, All,
}
use gitops_operator.Kube.{
  NamespacedName, GitopsServiceSpec, Kind, Object, key_of, Result, ◌>>◌, Server, same_kind, Settles,
  Settles-mono, Settles-step, SetsOwner, Change, create_or_amend, Protected, Avoids, Guards,
  Advances, Advances-trans, create_or_amend-Advances,
}
use gitops_operator.Service.Objects.{
  Settings, new_service_account, new_cluster_role, new_cluster_role_binding, new_backend_service,
  new_backend_deployment, with_curves, backend_env, backend_deployment_of,
}
use gitops_operator.Service.Backend.{amend_cluster_role, keep_found, reconcile_backend_deployment}
use gitops_operator.Service.Amendments.{same_key-of, role_key, role-ne-panic}
use gitops_operator.Service.Cleanup.{backend_targets, Spared}
use gitops_operator.Service.Provision.{Present, HasContainers, deployment-Settles}

-- The objects that the first three steps do not touch.
abbrev pub Early : NamespacedName → Protected
Early ns l m = Spared ns l m ⊎ (l ≡ Kind.deployment_kind)

pub Early-Avoids :
    (ns : NamespacedName) (k : Kind) (n : NamespacedName)
    → same_kind k Kind.deployment_kind ≡ false
    → Avoids (Spared ns) k n
    → Avoids (Early ns) k n
Early-Avoids ns k n d a l m (inl p) = a l m p
Early-Avoids ns k n d a l m (inr p) = rw p (rw d refl)

module _ (s : Server) (c : Settings) (sets : SetsOwner c.reference) (ns : NamespacedName) where
  open s use {World, view}

  abbrev pub Step : Protected → Kind → NamespacedName → World → World → Type 0
  Step prot k n w w' = (view w' k n ≢ none) × Advances prot (view w) (view w')

  -- a step that leaves an object that is there as it is
  pub found-Settles :
      (prot : Protected) (owner : String) (k : Kind) (o : Object k) (w : World)
      → o.meta.owner ≡ none
      → Avoids prot k (key_of o.meta)
      → Settles s
          (create_or_amend c.reference owner k o keep_found)
          w
          (λ _ w'. Step prot k (key_of o.meta) w w')
  found-Settles prot owner k o w free a =
      create_or_amend-Advances s prot c.reference sets owner k o keep_found w
        (record { same_key = λ x y e. same_key-of x y Change.keep refl e }) free (λ x e p. cc) a

  pub role-Settles :
      (prot : Protected) (owner : String) (w : World)
      → Avoids prot Kind.cluster_role_kind (key_of (new_cluster_role ns).meta)
      → Settles s
          (create_or_amend c.reference owner Kind.cluster_role_kind
            (new_cluster_role ns)
            (amend_cluster_role (new_cluster_role ns)))
          w
          (λ _ w'. Step prot Kind.cluster_role_kind (key_of (new_cluster_role ns).meta) w w')
  unfolding new_cluster_role
  role-Settles prot owner w a =
      let o = new_cluster_role ns in
      create_or_amend-Advances s prot c.reference sets owner Kind.cluster_role_kind o
        (amend_cluster_role o) w
        (record { same_key = λ x y. same_key-of x y (amend_cluster_role o x) (role_key o x) }) refl
        (λ x e. role-ne-panic o x) a

  built :
      (pull curves : String)
      → c.map_groups_to_curves c.tls_profile.curve_preferences ≡ Result.ok curves
      → new_backend_deployment c ns pull
        ≡ Result.ok (backend_deployment_of c ns pull (backend_env c curves))
  unfolding new_backend_deployment
  built pull curves h = ap (with_curves c ns pull) h

  backend_deployment-Settles :
      (spec : GitopsServiceSpec) (owner curves : String) (w : World)
      → c.map_groups_to_curves c.tls_profile.curve_preferences ≡ Result.ok curves
      → HasContainers s c sets ns owner (view w Kind.deployment_kind ns)
      → Settles s
          (reconcile_backend_deployment c owner spec
            (new_backend_deployment c ns spec.image_pull_policy))
          w
          (λ _ w'. Step (Spared ns) Kind.deployment_kind ns w w')
  backend_deployment-Settles spec owner curves w h g =
      subst
        (λ r.
          Settles s (reconcile_backend_deployment c owner spec r) w
            (λ _ w'. Step (Spared ns) Kind.deployment_kind ns w w'))
        (sym (built spec.image_pull_policy curves h))
        (deployment-Settles s c sets ns owner (Spared ns) spec spec.image_pull_policy
          (backend_env c curves) w g (λ l m p. p.0))

  -- What a reconcile of the backend leaves.
  abbrev pub BackendProvided : World → World → Type 0
  BackendProvided w w' =
      All (Present (view w')) (backend_targets ns) × Guards (Spared ns) (view w) (view w')

  pub late-Settles :
      (service : Object Kind.gitops_service_kind) (curves : String) (w w₃ : World)
      → c.map_groups_to_curves c.tls_profile.curve_preferences ≡ Result.ok curves
      → HasContainers s c sets ns service.meta.name (view w Kind.deployment_kind ns)
      → view w₃ Kind.service_account_kind (key_of (new_service_account ns).meta) ≢ none
      → view w₃ Kind.cluster_role_kind (key_of (new_cluster_role ns).meta) ≢ none
      → view w₃ Kind.cluster_role_binding_kind (key_of (new_cluster_role_binding ns).meta) ≢ none
      → Advances (Early ns) (view w) (view w₃)
      → Settles s
          (reconcile_backend_deployment c service.meta.name service.body
              (new_backend_deployment c ns service.body.image_pull_policy)
            >> create_or_amend c.reference service.meta.name Kind.service_kind
                (new_backend_service ns)
                keep_found)
          w₃
          (λ _ w'. BackendProvided w w')
  unfolding new_backend_service new_cluster_role_binding new_cluster_role new_service_account
  late-Settles service curves w w₃ h g account role binding early =
      let owner = service.meta.name in
      let deployment =
        reconcile_backend_deployment c owner service.body
          (new_backend_deployment c ns service.body.image_pull_policy) in
      let object = new_backend_service ns in
      let last = create_or_amend c.reference owner Kind.service_kind object keep_found in
      Settles-step s deployment (λ _. last) w₃
        (λ _ w₄. Step (Spared ns) Kind.deployment_kind ns w₃ w₄) (λ _ w'. BackendProvided w w')
        (backend_deployment-Settles service.body owner curves w₃ h (
          subst (HasContainers s c sets ns owner)
            (sym (early.guards Kind.deployment_kind ns (inr refl))) g))
        (λ _ w₄ e.
          Settles-mono s last w₄
            (λ _ w'. Step (Spared ns) Kind.service_kind (key_of object.meta) w₄ w')
            (λ _ w'. BackendProvided w w')
            (found-Settles (Spared ns) owner Kind.service_kind object w₄ refl (λ l m p. p.1.0))
            (λ _ w' f.
              let late : Advances (Spared ns) (view w₃) (view w') = Advances-trans e.1 f.1 in
              (
                (
                  f.1.persists Kind.deployment_kind ns e.0,
                  (
                    f.0,
                    (
                      late.persists _ _ binding,
                      (late.persists _ _ role, (late.persists _ _ account, tt)),
                    ),
                  ),
                ),
                λ l m p. late.guards l m p ∙ early.guards l m (inl p),
              )))
