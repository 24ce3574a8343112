-- ===== src/Service/Provision.antt =====
-- What a reconcile of the backend provides, and how its removal undoes it.
use gitops_operator.Base.{
  String, ◌≡◌, refl, sym, subst, ◌≢◌, Bool, true, false, ◌||◌, Option, none, some, List, [], ◌∷◌,
  if◌then◌else◌, ◌==◌, ◌⧺◌,
}
use gitops_operator.Kube.{
  NamespacedName, EnvVar, Resources, Container, PodSpec, GitopsServiceSpec, Kind, Object, key_of,
  is_not_found, Result, Program, Server, View, Unchanged, Ensures, OrFault, Settles, Ensures-mono,
  Ensures-after, Settles-mono, Ensures-get, SetsOwner, Change, create_or_amend, Protected, Avoids,
  Advances, Advances-refl, Advances-trans, create_or_amend-Advances, Target,
}
use gitops_operator.Cluster.{
  cluster_version_key, add_seccomp_profile_for_openshift, get_cluster_version, version_in,
  version_or_empty, restrict_first,
}
use gitops_operator.Cluster.{cluster_version_key}
use gitops_operator.Service.Objects.{
  Settings, backend_deployment_object_meta, backend_deployment_of,
}
use gitops_operator.Service.Backend.{
  amend_backend_deployment, with_resources, apply_backend_deployment, reconcile_backend_deployment,
  placed_pod, set_pod, backend_resources,
}
use gitops_operator.Service.Amendments.{HasContainer, same_key-of, pod_key, pod-ne-panic}

-- The targets that are there.
abbrev pub Present : View → Target → Type 0
Present v t = v t.kind t.key ≢ none

module _ (s : Server) where
  open s use {World, view}

  get_cluster_version-Ensures :
      (w : World) → Ensures s get_cluster_version w (λ _ w'. Unchanged (view w) (view w'))
  unfolding get_cluster_version is_not_found
  get_cluster_version-Ensures w =
      Ensures-get s (λ _ w'. Unchanged (view w) (view w')) Kind.cluster_version_kind
        cluster_version_key version_in w (λ x w' v u. u) (λ w' v u. u) (λ e w' n u f. rw n u)

  restrict-Ensures :
      (v : View) (w : World) (pod : PodSpec) (containers : List Container) (b : Bool)
      → HasContainer containers
      → pod.containers ≡ containers
      → Unchanged v (view w)
      → Ensures s
          (if b then restrict_first pod containers else Program.done pod)
          w
          (λ p w'. HasContainer p.containers × Unchanged v (view w'))
  restrict-Ensures v w pod [] b h e u = absurd h
  restrict-Ensures v w pod (x ∷ containers) true h e u = (tt, u)
  restrict-Ensures v w pod (x ∷ containers) false h e u = (subst HasContainer (sym e) h, u)

  add_seccomp-Ensures :
      (newer : String → String → Bool) (pod : PodSpec) (w : World)
      → HasContainer pod.containers
      → Ensures s
          (add_seccomp_profile_for_openshift newer pod)
          w
          (λ p w'. HasContainer p.containers × Unchanged (view w) (view w'))
  unfolding add_seccomp_profile_for_openshift
  add_seccomp-Ensures newer pod w h =
      let Q =
        λ (p : PodSpec) (w' : World). HasContainer p.containers × Unchanged (view w) (view w') in
      let f = λ (r : Result String).
        if version_or_empty r == "" || newer ("v" ⧺ version_or_empty r) "v4.10.999"
        then restrict_first pod pod.containers
        else Program.done pod in
      Ensures-after s get_cluster_version f w Q (
        Ensures-mono s get_cluster_version w (λ _ w'. Unchanged (view w) (view w'))
          (λ r w'. Ensures s (f r) w' Q) (get_cluster_version-Ensures w)
          (λ r w' u.
            restrict-Ensures (view w) w' pod pod.containers
              (version_or_empty r == "" || newer ("v" ⧺ version_or_empty r) "v4.10.999") h refl u))

  with_resources-Ensures :
      (v : View) (w : World) (r : Option Resources) (containers : List Container)
      → HasContainer containers
      → Unchanged v (view w)
      → Ensures s (with_resources r containers) w (λ xs w'. HasContainer xs × Unchanged v (view w'))
  with_resources-Ensures v w none containers h u = (h, u)
  with_resources-Ensures v w (some r) [] h u = absurd h
  with_resources-Ensures v w (some r) (x ∷ containers) h u = (tt, u)

module _ (s : Server) (c : Settings) (sets : SetsOwner c.reference) (ns : NamespacedName)
    (owner : String) where
  open s use {World, view}

  -- The step has provided its object, and has touched nothing that is protected.
  abbrev pub Provides : Protected → Kind → NamespacedName → View → World → Type 0
  Provides prot k n v w' = (view w' k n ≢ none) × Advances prot v (view w')

  abbrev pub deployment_key : NamespacedName
  deployment_key = key_of (backend_deployment_object_meta ns)

  abbrev pub HasContainers : Option (Object Kind.deployment_kind) → Type 0
  HasContainers none = Unit {0}
  HasContainers (some d) = HasContainer d.body.pod.containers

  -- the amendment of a Deployment that has a container
  calm_deployment :
      (wanted : Object Kind.deployment_kind) (o : Option (Object Kind.deployment_kind))
      → HasContainer wanted.body.pod.containers
      → HasContainers o
      → (x : Object Kind.deployment_kind) → o ≡ some x
      → amend_backend_deployment wanted x ≢ Change.panic
  unfolding amend_backend_deployment
  calm_deployment wanted o h g x e =
      pod-ne-panic x wanted.body.pod x.body.pod.containers wanted.body.pod.containers
        (subst HasContainers e g) h

  apply-Settles :
      (prot : Protected) (spec : GitopsServiceSpec) (pull : String) (env : List EnvVar)
      (pod : PodSpec) (v : View) (w : World)
      → HasContainer pod.containers
      → HasContainers (v Kind.deployment_kind deployment_key)
      → Avoids prot Kind.deployment_kind deployment_key
      → Unchanged v (view w)
      → Settles s
          (apply_backend_deployment c owner spec (backend_deployment_of c ns pull env) pod)
          w
          (λ _ w'. Provides prot Kind.deployment_kind deployment_key v w')
  unfolding amend_backend_deployment
  apply-Settles prot spec pull env pod v w h g a u =
      let Q =
        λ (_ : Unit {0}) (w' : World). Provides prot Kind.deployment_kind deployment_key v w' in
      let wanted = λ (xs : List Container).
        set_pod (backend_deployment_of c ns pull env) (placed_pod c spec pod xs) in
      let f = λ (xs : List Container).
        create_or_amend c.reference owner Kind.deployment_kind (wanted xs)
          (amend_backend_deployment (wanted xs)) in
      Ensures-after s (with_resources (backend_resources spec) pod.containers) f w (OrFault s Q) (
        Ensures-mono s (with_resources (backend_resources spec) pod.containers) w
          (λ xs w'. HasContainer xs × Unchanged v (view w')) (λ xs w'. Settles s (f xs) w' Q)
          (with_resources-Ensures s v w (backend_resources spec) pod.containers h u)
          (λ xs w₁ (k, u₁).
            Settles-mono s (f xs) w₁
              (λ _ w'. Provides prot Kind.deployment_kind deployment_key (view w₁) w') Q
              (create_or_amend-Advances s prot c.reference sets owner Kind.deployment_kind
                (wanted xs) (amend_backend_deployment (wanted xs)) w₁
                (record {
                  same_key = λ x y.
                      same_key-of x y (amend_backend_deployment (wanted xs) x)
                        (pod_key x (wanted xs).body.pod x.body.pod.containers xs);
                })
                refl
                (calm_deployment (wanted xs) (view w₁ Kind.deployment_kind deployment_key) k
                  (subst HasContainers (sym (u₁ Kind.deployment_kind deployment_key)) g))
                a)
              (λ _ w' p. (p.0, Advances-trans (Advances-refl u₁) p.1))))

  pub deployment-Settles :
      (prot : Protected) (spec : GitopsServiceSpec) (pull : String) (env : List EnvVar) (w : World)
      → HasContainers (view w Kind.deployment_kind deployment_key)
      → Avoids prot Kind.deployment_kind deployment_key
      → Settles s
          (reconcile_backend_deployment c owner spec
            (Result.ok (backend_deployment_of c ns pull env)))
          w
          (λ _ w'. Provides prot Kind.deployment_kind deployment_key (view w) w')
  deployment-Settles prot spec pull env w g a =
      let Q = λ (_ : Unit {0}) (w' : World).
        Provides prot Kind.deployment_kind deployment_key (view w) w' in
      let d = backend_deployment_of c ns pull env in
      Ensures-after s (add_seccomp_profile_for_openshift c.newer d.body.pod)
        (apply_backend_deployment c owner spec d) w (OrFault s Q)
        (Ensures-mono s (add_seccomp_profile_for_openshift c.newer d.body.pod) w
          (λ p w'. HasContainer p.containers × Unchanged (view w) (view w'))
          (λ p w'. Settles s (apply_backend_deployment c owner spec d p) w' Q)
          (add_seccomp-Ensures s c.newer d.body.pod w tt)
          (λ p w' (h, u). apply-Settles prot spec pull env p (view w) w' h g a u))
