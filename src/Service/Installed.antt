-- ===== src/Service/Installed.antt =====
-- What the reconcile of the default instance leaves.
use gitops_operator.Service.Objects.{meta_of}
use gitops_operator.Service.Amendments.{replaced, same_key-of}
use gitops_operator.Service.Default.{Amendment, change_of, amend_spec}
use gitops_operator.Base.{String, ◌≡◌, refl, sym, ◌∙◌, subst, ◌≢◌, Bool, true, false, none, some}
use gitops_operator.Kube.{
  ◌>>=◌, NamespacedName, ArgoCdSpec, Kind, Kind-discrete, Object, key_of, is_not_found, Result,
  Call, Program, after, or_return, Server, View, Unchanged, OrFault, Settles, Settles-mono,
  Settles-step, Ensures-get, Ensures-create, Ensures-delete, SetsOwner, create_or_amend, Amended,
  Reconciled, Settles-update, create_or_amend-Settles,
}
use mathlib.Core.Option.{none-ne-some}
use gitops_operator.DefaultCr.{Facts, new_cr, cr_with, default_spec, resource_exclusions}
use gitops_operator.Service.Namespaces.{
  Namespace, new_restricted_namespace, ensure_infra_node_selector_annotation,
  ensure_namespace_metadata,
}
use gitops_operator.Service.Labels.{key_of-annotations, ensure_namespace_metadata-lookup}
use gitops_operator.Service.Objects.{Settings, service_namespace}
use gitops_operator.Service.Instance.{argocd_instance_name}
use gitops_operator.Service.Absence.{instance_key, namespace_of_instance}
use gitops_operator.Service.Default.{
  update_if, quota_key, keep_namespace, reconcile_namespace, placed_instance, amend_instance,
  reconcile_instance, reconcile_default_argocd_instance,
}
use gitops_operator.Service.Panic.{amend_instance-ne-panic}

module _ (s : Server) (n : NamespacedName) where
  open s use {World, view}

  -- The namespace is there, and the Argo CD instances are as they were.
  abbrev Ready : View → World → Type 0
  Ready v w' =
      (view w' Kind.namespace_kind n ≢ none)
      × ((m : NamespacedName) → view w' Kind.argo_cd_kind m ≡ v Kind.argo_cd_kind m)

  update_if-Settles :
      (v : View) (w : World) (ns : Namespace) (p : Bool × Namespace)
      → key_of p.1.meta ≡ n
      → v Kind.namespace_kind n ≡ some ns
      → view w Kind.namespace_kind n ≡ v Kind.namespace_kind n
      → ((m : NamespacedName) → view w Kind.argo_cd_kind m ≡ v Kind.argo_cd_kind m)
      → Settles s (update_if p) w (λ _ w'. Ready v w')
  unfolding Kind-discrete
  update_if-Settles v w ns (false, after_) k e same argo =
      (λ g. none-ne-some ns (sym g ∙ same ∙ e), argo)
  update_if-Settles v w ns (true, after_) k e same argo =
      Settles-update s Kind.namespace_kind n ns after_ w (λ w'. Ready v w') k (same ∙ e)
        (λ w' h f. (λ g. none-ne-some after_ (sym g ∙ h), λ m. f Kind.argo_cd_kind m refl ∙ argo m))

  keep_namespace-Settles :
      (v : View) (w : World) (ns : Namespace) (b : Bool)
      → key_of ns.meta ≡ n
      → v Kind.namespace_kind n ≡ some ns
      → Unchanged v (view w)
      → Settles s
          (Program.call (Call.get Kind.resource_quota_kind (quota_key ns)) (keep_namespace ns b))
          w
          (λ _ w'. Ready v w')
  unfolding Kind-discrete ◌>>=◌ after
  keep_namespace-Settles v w ns b k e u =
      let p = ensure_namespace_metadata ns b in
      let key : key_of p.1.meta ≡ n = (ensure_namespace_metadata-lookup ns b).2 ∙ k in
      let Q = OrFault s (λ (_ : Unit {0}) w'. Ready v w') in
      Ensures-get s Q Kind.resource_quota_kind (quota_key ns) (keep_namespace ns b) w
        (λ x w₁ h u₁.
          Ensures-delete s Q Kind.resource_quota_kind (quota_key ns)
            (λ r. after (Program.done r) (or_return (λ _. update_if p))) w₁ refl
            (λ w₂ g f.
              update_if-Settles v w₂ ns p key e
                (f Kind.namespace_kind n refl ∙ u₁ Kind.namespace_kind n ∙ u Kind.namespace_kind n)
                (λ m. f Kind.argo_cd_kind m refl ∙ u₁ Kind.argo_cd_kind m ∙ u Kind.argo_cd_kind m))
            (λ w₂ n' g f.
              absurd (none-ne-some x (sym n' ∙ u₁ Kind.resource_quota_kind (quota_key ns) ∙ h)))
            (λ e w₂ n' d f h. h))
        (λ w₁ h u₁.
          update_if-Settles v w₁ ns p key e (u₁ Kind.namespace_kind n ∙ u Kind.namespace_kind n)
            (λ m. u₁ Kind.argo_cd_kind m ∙ u Kind.argo_cd_kind m))
        (λ e' w₁ n' u₁ h.
          update_if-Settles v w₁ ns p key e (u₁ Kind.namespace_kind n ∙ u Kind.namespace_kind n)
            (λ m. u₁ Kind.argo_cd_kind m ∙ u Kind.argo_cd_kind m))

  reconcile_namespace-Settles :
      (wanted : Namespace) (b : Bool) (w : World)
      → key_of wanted.meta ≡ n
      → Settles s
          (Program.call (Call.get Kind.namespace_kind n) (reconcile_namespace wanted b))
          w
          (λ _ w'. Ready (view w) w')
  unfolding Kind-discrete is_not_found after
  reconcile_namespace-Settles wanted b w k =
      let o = (ensure_infra_node_selector_annotation wanted b).1 in
      let key : key_of o.meta ≡ n = key_of-annotations wanted b ∙ k in
      Ensures-get s (OrFault s (λ _ w'. Ready (view w) w')) Kind.namespace_kind n
        (reconcile_namespace wanted b) w
        (λ ns w₁ e u.
          keep_namespace-Settles (view w) w₁ ns b (s.stored_key Kind.namespace_kind n w ns e) e u)
        (λ w₁ e u.
          Ensures-create s (OrFault s (λ _ w'. Ready (view w) w')) Kind.namespace_kind o
            Program.done w₁
            (subst (λ m. view w₁ Kind.namespace_kind m ≡ none) (sym key)
              (u Kind.namespace_kind n ∙ e))
            (λ w₂ h f. (
              λ g.
                  none-ne-some o
                    (sym (subst (λ m. view w₂ Kind.namespace_kind m ≡ none) (sym key) g) ∙ h),
              λ m. f Kind.argo_cd_kind m refl ∙ u Kind.argo_cd_kind m,
            ))
            (λ e w₂ n' d f h. h))
        (λ e w₁ n' u h. rw n' h)

amended_key :
    (x : Object Kind.argo_cd_kind) (a : Amendment)
    → key_of (replaced x (change_of x a)).meta ≡ key_of x.meta
amended_key x none = refl
amended_key x (some (true, spec)) = refl
amended_key x (some (false, spec)) = refl

module _ (s : Server) (c : Settings) (sets : SetsOwner c.reference) (facts : Facts)
    (use_dex : ArgoCdSpec → Bool) (service : Object Kind.gitops_service_kind)
    (exclusions : String) where
  open s use {World, view}

  -- The default instance, with the placement that the GitopsService asks for.
  abbrev pub wanted_instance : Object Kind.argo_cd_kind
  wanted_instance = placed_instance c service.body (record {
    meta = meta_of argocd_instance_name service_namespace;
    body = default_spec facts exclusions;
  })

  -- The namespace is there, and the instance is the wanted one if there was none, and otherwise what
  -- the amendment makes of the one that was there.
  abbrev pub Installed : View → World → Type 0
  Installed v w' =
      (view w' Kind.namespace_kind namespace_of_instance ≢ none)
      × (z : Object Kind.argo_cd_kind) × (view w' Kind.argo_cd_kind instance_key ≡ some z)
      × Amended s c.reference sets service.meta.name wanted_instance
          (amend_instance use_dex wanted_instance) (v Kind.argo_cd_kind instance_key) z

  instance-Settles :
      (v : View) (w : World)
      → facts.is_openshift_cluster ≡ true
      → facts.external_authentication ≡ false
      → Ready s namespace_of_instance v w
      → Settles s
          (create_or_amend c.reference service.meta.name Kind.argo_cd_kind wanted_instance
            (amend_instance use_dex wanted_instance))
          w
          (λ _ w'. Installed v w')
  unfolding Kind-discrete amend_instance
  instance-Settles v w o e ready =
      let amend = amend_instance use_dex wanted_instance in
      let owner = service.meta.name in
      Settles-mono s (create_or_amend c.reference owner Kind.argo_cd_kind wanted_instance amend) w
        (λ _ w'.
          Reconciled s c.reference sets owner Kind.argo_cd_kind wanted_instance amend (view w)
            (view w'))
        (λ _ w'. Installed v w')
        (create_or_amend-Settles s c.reference sets owner Kind.argo_cd_kind wanted_instance amend
          (record {
            same_key = λ x y.
                same_key-of x y (amend x)
                  (amended_key x (amend_spec use_dex wanted_instance.body x.body));
          })
          w refl
          (λ x h.
            amend_instance-ne-panic use_dex facts exclusions wanted_instance.body.node_placement
              wanted_instance.meta x o e))
        (λ _ w' r. (
          λ g. ready.0 (sym (r.frame Kind.namespace_kind namespace_of_instance refl) ∙ g),
          r.stored,
          r.there,
          subst (λ q. Amended s c.reference sets owner wanted_instance amend q r.stored)
              (ready.1 instance_key) r.amended,
        ))

  -- On an OpenShift cluster without external authentication, where SetControllerReference sets the
  -- owner and the resource exclusions can be marshalled: a reconcile of the default instance that meets
  -- no fault of the server does not panic and returns without an error, its namespace is there, and the
  -- instance is the wanted one if there was none, and otherwise what the amendment makes of the one
  -- that was there.
  pub reconcile_default_argocd_instance-Settles :
      (w : World)
      → facts.marshal resource_exclusions ≡ Result.ok exclusions
      → facts.is_openshift_cluster ≡ true
      → facts.external_authentication ≡ false
      → Settles s
          (reconcile_default_argocd_instance c facts use_dex service)
          w
          (λ _ w'. Installed (view w) w')
  unfolding reconcile_default_argocd_instance new_cr new_restricted_namespace after
  reconcile_default_argocd_instance-Settles w h o e =
      subst
        (λ r.
          Settles s
            (reconcile_instance c use_dex service
              (cr_with facts argocd_instance_name service_namespace r))
            w (λ _ w'. Installed (view w) w'))
        (sym h)
        (Settles-step s
          (Program.call (Call.get Kind.namespace_kind namespace_of_instance) (
            reconcile_namespace (new_restricted_namespace service_namespace)
              service.body.run_on_infra))
          (λ _.
            create_or_amend c.reference service.meta.name Kind.argo_cd_kind wanted_instance
              (amend_instance use_dex wanted_instance))
          w (λ _ w₁. Ready s namespace_of_instance (view w) w₁) (λ _ w'. Installed (view w) w')
          (reconcile_namespace-Settles s namespace_of_instance
            (new_restricted_namespace service_namespace) service.body.run_on_infra w refl)
          (λ _ w₁ ready. instance-Settles (view w) w₁ o e ready))
