-- ===== src/Hook/Identity.antt =====
-- That the hook returns, and what it leaves of an object.
use gitops_operator.Base.{
  String, ◌≡◌, refl, sym, ap, ap₂, subst, ◌⊎◌, inl, inr, Bool, true, false, ◌||◌, Option, none,
  some, List, [], ◌∷◌, map, arith, if◌then◌else◌, Bool-cases, ◌==◌, ◌⧺◌,
}
use gitops_operator.Kube.{
  PolicyRule, Capabilities, SecurityContext, Container, Kind, Object, Error, Result, Program, after,
  Io, ◌>>=◌,
}
use gitops_operator.Hook.{
  StatefulSet, Secret, HookObject, HookSettings, hook_cluster_role, haproxy_context,
  hook_haproxy_container, add_capability, hook_deployment, hook_stateful_set, hook_secret,
  hook_role, role_with_admin_rules, reconciler_hook, allowed_namespace, hook_redis, hook_haproxy,
  hook_repo_server, hook_redis_ha, redis_ha_container, hook_trust,
}
use gitops_operator.Hook.Trust.{Instance, redirect, update_system_ca_trust_building}

-- Containers of the same names and images, in the same order.
abbrev pub SameContainers : List Container → List Container → Type 0
SameContainers cs ds =
    (map (λ c. c.name) ds ≡ map (λ c. c.name) cs) × (map (λ c. c.image) ds ≡ map (λ c. c.image) cs)

-- An object of the same type, with the same metadata and the same containers.
abbrev pub SameIdentity : HookObject → HookObject → Type 0
SameIdentity (HookObject.cluster_role_object a) (HookObject.cluster_role_object b) = b.meta ≡ a.meta
SameIdentity (HookObject.deployment_object a) (HookObject.deployment_object b) =
    (b.meta ≡ a.meta) × SameContainers a.body.pod.containers b.body.pod.containers
SameIdentity (HookObject.stateful_set_object a) (HookObject.stateful_set_object b) =
    (b.meta ≡ a.meta) × SameContainers a.pod.containers b.pod.containers
SameIdentity (HookObject.secret_object a) (HookObject.secret_object b) = b.meta ≡ a.meta
SameIdentity (HookObject.role_object a) (HookObject.role_object b) = b.meta ≡ a.meta
SameIdentity HookObject.other_object HookObject.other_object = Unit
SameIdentity _ _ = ⊥

-- The first container has a security context with capabilities.
abbrev pub FirstRestricted : List Container → Type 0
FirstRestricted [] = ⊥
FirstRestricted (c ∷ _) =
    (context : SecurityContext) × (capabilities : Capabilities) × (c.security_context
      ≡ some context)
    × (context.capabilities ≡ some capabilities)

abbrev pub HasInitContainer : List Container → Type 0
HasInitContainer [] = ⊥
HasInitContainer (_ ∷ _) = Unit {0}

-- What the hook takes for granted of the objects that argocd-operator builds.
abbrev pub Complete : HookObject → Type 0
Complete (HookObject.deployment_object o) = FirstRestricted o.body.pod.containers
Complete (HookObject.stateful_set_object o) = HasInitContainer o.pod.init_containers
Complete _ = Unit

-- The outcome is an object that satisfies `Q`, or an error that satisfies `E`: no panic.
abbrev pub Ends : (HookObject → Type 0) → (Error → Type 0) → Io HookObject → Type 0
Ends Q E (Program.done (Result.ok o)) = Q o
Ends Q E (Program.done (Result.err e)) = E e
Ends Q E _ = ⊥

-- An error of initK8sClient or of the Get of the ClusterRole.
abbrev pub ClientError : HookSettings → Error → Type 0
ClientError h e = (h.init_k8s_client ≡ Result.err e) ⊎ (h.admin_rules ≡ Result.err e)

pub redirect-names :
    (prod_image : String) (cs : List Container) → SameContainers cs (map (redirect prod_image) cs)
unfolding redirect
redirect-names prod_image [] = (refl, refl)
redirect-names prod_image (c ∷ cs) =
    let (names, images) = redirect-names prod_image cs in
    elim (Bool-cases (c.image == prod_image)) [
      | inl e ↦ rw e (ap (λ l. c.name ∷ l) names, ap (λ l. c.image ∷ l) images)
      | inr e ↦ rw e (ap (λ l. c.name ∷ l) names, ap (λ l. c.image ∷ l) images)
    ]

redis_ha-name : (c : Container) → (redis_ha_container c).name ≡ c.name
redis_ha-name c = ground arith

redis_ha-image : (c : Container) → (redis_ha_container c).image ≡ c.image
redis_ha-image c = ground arith

redis_ha-names : (cs : List Container) → SameContainers cs (map redis_ha_container cs)
redis_ha-names [] = (refl, refl)
redis_ha-names (c ∷ cs) =
    let (names, images) = redis_ha-names cs in
    (ap₂ ◌∷◌ (redis_ha-name c) names, ap₂ ◌∷◌ (redis_ha-image c) images)

if_both : {A : Type 0} (P : A → Type 0) (b : Bool) (x y : A) → P x → P y → P (if b then x else y)
if_both P true x y p q = p
if_both P false x y p q = q

module _ (h : HookSettings) (cr : Instance) where
  E : Error → Type 0
  E = ClientError h

  DeploymentEnds : Object Kind.deployment_kind → Io HookObject → Type 0
  DeploymentEnds o = Ends (SameIdentity (HookObject.deployment_object o)) (ClientError h)

  redis_ends :
      (o : Object Kind.deployment_kind) (cs : List Container)
      → o.body.pod.containers ≡ cs
      → FirstRestricted cs
      → DeploymentEnds o (hook_redis o cs)
  unfolding DeploymentEnds
  redis_ends o [] e r = r
  redis_ends o (c ∷ cs) e r = (refl, rw e (refl, refl))

  haproxy_container_ends :
      (o : Object Kind.deployment_kind) (c : Container) (cs : List Container) (recent : Bool)
      (context : SecurityContext) (capabilities : Capabilities)
      → o.body.pod.containers ≡ c ∷ cs
      → context.capabilities ≡ some capabilities
      → DeploymentEnds o (hook_haproxy_container o c cs (haproxy_context recent (some context)))
  unfolding DeploymentEnds
  haproxy_container_ends o c cs true context capabilities e f =
      subst (λ k. DeploymentEnds o (hook_haproxy_container o c cs (add_capability context k)))
        (sym f) (refl, rw e (refl, refl))
  haproxy_container_ends o c cs false context capabilities e f = (refl, rw e (refl, refl))

  haproxy_ends :
      (hint : String) (o : Object Kind.deployment_kind) (cs : List Container)
      → o.body.pod.containers ≡ cs
      → FirstRestricted cs
      → DeploymentEnds o (hook_haproxy h hint o cs)
  unfolding DeploymentEnds
  haproxy_ends hint o [] e r = r
  haproxy_ends hint o (c ∷ cs) e (context, capabilities, f, g) =
      subst
        (λ k. DeploymentEnds o (
          hook_haproxy_container o c cs
            (haproxy_context (hint == "" || h.newer ("v" ⧺ hint) "v4.10.999") k)))
        (sym f)
        (haproxy_container_ends o c cs (hint == "" || h.newer ("v" ⧺ hint) "v4.10.999") context
          capabilities e g)

  trust_ends :
      (o : Object Kind.deployment_kind) (prod_image : String) (trust : Option Bool)
      → SameIdentity (HookObject.deployment_object o) (hook_trust h cr o prod_image trust)
  unfolding update_system_ca_trust_building
  trust_ends o prod_image none = (refl, (refl, refl))
  trust_ends o prod_image (some drop) = (refl, redirect-names prod_image o.body.pod.containers)

  repo_server_ends :
      (o : Object Kind.deployment_kind) (cs : List Container)
      → FirstRestricted cs
      → DeploymentEnds o (hook_repo_server h cr o cs)
  unfolding DeploymentEnds
  repo_server_ends o [] r = r
  repo_server_ends o (c ∷ cs) r = trust_ends o c.image cr.system_ca_trust

  deployment-Ends :
      (hint : String) (o : Object Kind.deployment_kind)
      → FirstRestricted o.body.pod.containers
      → DeploymentEnds o (hook_deployment h cr hint o)
  unfolding hook_deployment DeploymentEnds
  deployment-Ends hint o r =
      if_both (DeploymentEnds o) (o.meta.name == cr.name ⧺ "-redis") _ _
        (redis_ends o o.body.pod.containers refl r)
        (if_both (DeploymentEnds o) (o.meta.name == cr.name ⧺ "-redis-ha-haproxy") _ _
          (haproxy_ends hint o o.body.pod.containers refl r)
          (if_both (DeploymentEnds o) (o.meta.name == cr.name ⧺ "-repo-server") _ _
            (repo_server_ends o o.body.pod.containers r) (refl, (refl, refl))))

  redis_ha-Ends :
      (o : StatefulSet) (cs : List Container)
      → HasInitContainer cs
      → Ends (SameIdentity (HookObject.stateful_set_object o)) E (hook_redis_ha o cs)
  redis_ha-Ends o [] r = r
  redis_ha-Ends o (c ∷ cs) r = (refl, redis_ha-names o.pod.containers)

  role-Ends :
      (o : Object Kind.role_kind) (init : Result (Unit {0})) (rules : Result (List PolicyRule))
      → h.init_k8s_client ≡ init
      → h.admin_rules ≡ rules
      → Ends (SameIdentity (HookObject.role_object o)) (ClientError h) (role_with_admin_rules h o)
  unfolding role_with_admin_rules ◌>>=◌ after
  role-Ends o (Result.err e) rules p q = rw p (inl refl)
  role-Ends o (Result.ok _) (Result.err e) p q = rw (p, q) (inr refl)
  role-Ends o (Result.ok _) (Result.ok rules) p q = rw (p, q) refl

  -- Where the first container of a Deployment has a security context with capabilities, and a
  -- StatefulSet has an init container, the hook does not panic: it returns an object of the same
  -- type, with the same metadata and with containers of the same names and images in the same
  -- order, or else an error of the Kubernetes client.
  pub reconciler_hook-Ends :
      (hint : String) (o : HookObject)
      → Complete o
      → Ends (SameIdentity o) (ClientError h) (reconciler_hook h cr o hint)
  unfolding reconciler_hook hook_cluster_role hook_stateful_set hook_secret hook_role DeploymentEnds
      E
  reconciler_hook-Ends hint (HookObject.cluster_role_object o) r =
      if_both (λ (x : Object Kind.cluster_role_kind). x.meta ≡ o.meta)
        (o.meta.name == h.generate_unique_resource_name "argocd-application-controller" cr) _ _ refl
        refl
  reconciler_hook-Ends hint (HookObject.deployment_object o) r = deployment-Ends hint o r
  reconciler_hook-Ends hint (HookObject.stateful_set_object o) r =
      if_both (Ends (SameIdentity (HookObject.stateful_set_object o)) (ClientError h))
        (o.meta.name == cr.name ⧺ "-redis-ha-server") _ _ (redis_ha-Ends o o.pod.init_containers r)
        (refl, (refl, refl))
  reconciler_hook-Ends hint (HookObject.secret_object o) r =
      if_both (λ (x : Secret). x.meta ≡ o.meta)
        (allowed_namespace cr.namespace h.cluster_config_namespaces) _ _ refl refl
  reconciler_hook-Ends hint (HookObject.role_object o) r =
      if_both (Ends (SameIdentity (HookObject.role_object o)) (ClientError h))
        (o.meta.name == cr.name ⧺ "-" ⧺ "argocd-application-controller") _ _
        (role-Ends o h.init_k8s_client h.admin_rules refl refl) refl
  reconciler_hook-Ends hint HookObject.other_object r = tt
