-- ===== src/Service/Backend.antt =====
-- The reconcile of the backend and its removal.
use gitops_operator.Base.{
  String, Bool, true, false, not, ◌&&◌, Option, none, some, List, [], ◌∷◌, if◌then◌else◌, ◌==◌, ◌⧺◌,
  StringMap, same_text?, deep_equal, same_option,
}
use gitops_operator.Kube.{
  PolicyRule, NamespacedName, Resources, Container, Toleration, PodSpec, GitopsServiceSpec, Kind,
  Object, key_of, Error, Result, Program, after, Io, throw, ◌>>=◌, ◌>>◌, Change, create_or_amend,
  Target, delete_each,
}
use gitops_operator.Base.{String-deep_equal, StringMap-deep_equal, List-deep_equal}
use gitops_operator.Kube.{
  EnvVar-deep_equal, Resources-deep_equal, Toleration-deep_equal, PolicyRule-deep_equal,
  SecurityContext-deep_equal,
}
use gitops_operator.Cluster.{add_seccomp_profile_for_openshift}
use gitops_operator.Service.Objects.{
  Settings, new_service_account, new_cluster_role, new_cluster_role_binding, new_backend_service,
  backend_deployment_object_meta, new_backend_deployment,
}

-- `Rules` of a ClusterRole that is there
unfoldable pub amend_cluster_role :
    Object Kind.cluster_role_kind
    → Object Kind.cluster_role_kind
    → Change (Object Kind.cluster_role_kind)
amend_cluster_role wanted found =
    if not (deep_equal {A = List PolicyRule} found.body wanted.body)
    then Change.replace (record { meta = found.meta; body = wanted.body })
    else Change.keep

-- the settings of a GitopsService for the backend's pod
abbrev pub backend_resources : GitopsServiceSpec → Option Resources
backend_resources spec = elim spec.console_plugin [
  | none ↦ none
  | some plugin ↦ elim plugin.backend [ none ↦ none | some backend ↦ backend.resources ]
]

abbrev pub with_node_selector : Settings → StringMap → StringMap → StringMap
with_node_selector c base none = base
with_node_selector c base (some []) = base
with_node_selector c base (some (e ∷ m)) = c.append_string_map base (some (e ∷ m))

abbrev pub or_tolerations : List Toleration → List Toleration → List Toleration
or_tolerations [] base = base
or_tolerations (t ∷ ts) base = t ∷ ts

abbrev pub with_resources : Option Resources → List Container → Program (List Container)
with_resources none containers = Program.done containers
with_resources (some r) [] = Program.crash
with_resources (some r) (c ∷ containers) = Program.done (record c { resources = r } ∷ containers)

abbrev pub set_pod : Object Kind.deployment_kind → PodSpec → Object Kind.deployment_kind
set_pod d pod = record { meta = d.meta; body = record d.body { pod = pod } }

-- the pod after the seccomp profile was added
abbrev pub placed_pod : Settings → GitopsServiceSpec → PodSpec → List Container → PodSpec
placed_pod c spec pod containers = record pod {
  containers = containers;
  node_selector = with_node_selector c c.default_node_selector spec.node_selector;
  tolerations = or_tolerations spec.tolerations pod.tolerations;
}

-- What is compared and taken over of the first container, and of the pod. The source takes over the
-- fields that differ; where a field is the same, taking it over changes nothing.
abbrev pub same_first : Container → Container → Bool
same_first found wanted =
    found.image == wanted.image
    && (deep_equal found.env wanted.env
        && (found.image_pull_policy == wanted.image_pull_policy
            && (deep_equal found.resources wanted.resources
                && (deep_equal found.args wanted.args
                    && same_option found.security_context wanted.security_context))))

abbrev pub take_first : Container → Container → Container
take_first found wanted = record found {
  image = wanted.image;
  env = wanted.env;
  image_pull_policy = wanted.image_pull_policy;
  resources = wanted.resources;
  args = wanted.args;
  security_context = wanted.security_context;
}

abbrev pub same_seccomp : Option (Option String) → Option (Option String) → Bool
same_seccomp none none = true
same_seccomp (some a) (some b) = same_text? a b
same_seccomp _ _ = false

abbrev pub same_pod : PodSpec → PodSpec → Bool
same_pod found wanted =
    deep_equal found.node_selector wanted.node_selector
    && (deep_equal found.tolerations wanted.tolerations
        && same_seccomp found.pod_seccomp wanted.pod_seccomp)

abbrev pub amend_pod :
    Object Kind.deployment_kind
    → PodSpec
    → List Container
    → List Container
    → Change (Object Kind.deployment_kind)
amend_pod found wanted (x ∷ xs) (y ∷ _) =
    if same_first x y && same_pod found.body.pod wanted
    then Change.keep
    else Change.replace (
        set_pod found (record found.body.pod {
          containers = take_first x y ∷ xs;
          node_selector = wanted.node_selector;
          tolerations = wanted.tolerations;
          pod_seccomp = wanted.pod_seccomp;
        }))
amend_pod found wanted _ _ = Change.panic

unfoldable pub amend_backend_deployment :
    Object Kind.deployment_kind → Object Kind.deployment_kind → Change (Object Kind.deployment_kind)
amend_backend_deployment wanted found =
    amend_pod found wanted.body.pod found.body.pod.containers wanted.body.pod.containers

abbrev pub keep_found : {k : Kind} → Object k → Change (Object k)
keep_found _ = Change.keep

-- the fourth step, from the Deployment that was built
abbrev pub apply_backend_deployment :
    Settings → String → GitopsServiceSpec → Object Kind.deployment_kind → PodSpec → Io (Unit {0})
apply_backend_deployment c owner spec d pod =
    after (with_resources (backend_resources spec) pod.containers) (λ containers.
      let wanted = set_pod d (placed_pod c spec pod containers) in
      create_or_amend c.reference owner Kind.deployment_kind wanted
        (amend_backend_deployment wanted))

abbrev pub reconcile_backend_deployment :
    Settings → String → GitopsServiceSpec → Result (Object Kind.deployment_kind) → Io (Unit {0})
reconcile_backend_deployment c owner spec (Result.err e) = throw e
reconcile_backend_deployment c owner spec (Result.ok d) =
    after (add_seccomp_profile_for_openshift c.newer d.body.pod)
      (apply_backend_deployment c owner spec d)

unfoldable pub reconcile_backend :
    Settings → NamespacedName → Object Kind.gitops_service_kind → Io (Unit {0})
unfolding ◌>>=◌ after create_or_amend
reconcile_backend c ns service = do
  create_or_amend c.reference service.meta.name Kind.service_account_kind (new_service_account ns)
      keep_found
  create_or_amend c.reference service.meta.name Kind.cluster_role_kind (new_cluster_role ns)
      (amend_cluster_role (new_cluster_role ns))
  create_or_amend c.reference service.meta.name Kind.cluster_role_binding_kind
      (new_cluster_role_binding ns) keep_found
  reconcile_backend_deployment c service.meta.name service.body
      (new_backend_deployment c ns service.body.image_pull_policy)
  create_or_amend c.reference service.meta.name Kind.service_kind (new_backend_service ns)
      keep_found

-- An object to remove, and the error that reports a failure.
abbrev pub backend_target : {k : Kind} → String → Object k → Target
backend_target {k} kind o = record {
  wrap = λ e. Error.wrapped ("failed to delete backend " ⧺ kind ⧺ " \"" ⧺ o.meta.name ⧺ "\"") e;
  kind = k;
  key = key_of o.meta;
}

abbrev pub deployment_target : NamespacedName → Target
deployment_target ns = record {
  wrap = λ e. Error.wrapped ("failed to delete backend Deployment \"" ⧺ ns.name ⧺ "\"") e;
  kind = Kind.deployment_kind;
  key = key_of (backend_deployment_object_meta ns);
}

abbrev pub other_backend_targets : NamespacedName → List Target
other_backend_targets ns =
    backend_target "Service" (new_backend_service ns)
    ∷ backend_target "ClusterRoleBinding" (new_cluster_role_binding ns)
    ∷ backend_target "ClusterRole" (new_cluster_role ns)
    ∷ backend_target "ServiceAccount" (new_service_account ns)
    ∷ []

unfoldable pub cleanup_backend_resources : NamespacedName → Io (Unit {0})
unfolding delete_each
cleanup_backend_resources ns = delete_each (deployment_target ns) (other_backend_targets ns)
