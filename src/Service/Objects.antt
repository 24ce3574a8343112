-- ===== src/Service/Objects.antt =====
-- The objects of the operator's backend.
use gitops_operator.Base.{
  ℕ, String, Bool, true, false, not, none, some, List, [], ◌∷◌, ◌++◌, if◌then◌else◌, select, ◌==◌,
  ◌⧺◌, contains, join, StringMap,
}
use gitops_operator.Kube.{
  NamespacedName, ObjectMeta, PolicyRule, EnvVar, Container, VolumeSource, Kind, Object, Result,
  Reference,
}
use gitops_operator.Cluster.{Environment}

abbrev pub service_name : String
service_name = "cluster"

abbrev pub service_namespace : String
service_namespace = "openshift-gitops"

abbrev pub deprecated_service_namespace : String
deprecated_service_namespace = "openshift-pipelines-app-delivery"

abbrev pub gitops_service_prefix : String
gitops_service_prefix = "gitops-service-"

abbrev pub backend_image : String
backend_image = "quay.io/redhat-user-workloads/rh-openshift-gitops-tenant/gitops-rhel9:main"

abbrev pub backend_port : ℕ
backend_port = 8080

-- The cluster's TLS settings: minimal version, ciphers and curves.
pub record TlsProfile : Type 0 where
  pub min_version : String
  pub ciphers : List String
  pub curve_preferences : List String

-- What the reconciler has beside the client. Of argocd-operator: AppendStringMap, DefaultNodeSelector,
-- GetImagePullPolicy, TLSProtocolVersionString, MapCipherSuites and MapOpenShiftTLSGroupsToGoCurves.
-- `newer` is semver.Compare(v, w) > 0, `tls_13` is configv1.VersionTLS13.
pub record Settings : Type 0 where
  pub getenv : Environment
  pub reference : Reference
  pub append_string_map : StringMap → StringMap → StringMap
  pub default_node_selector : StringMap
  pub get_image_pull_policy : String → String
  pub tls_protocol_version_string : String → String
  pub map_cipher_suites : List String → List String
  pub map_groups_to_curves : List String → Result String
  pub tls_profile : TlsProfile
  pub tls_13 : String
  pub newer : String → String → Bool

abbrev pub meta_of : String → String → ObjectMeta
meta_of name namespace = record {
  name = name;
  namespace = namespace;
  labels = none;
  annotations = none;
  owner = none;
  deleting = false;
}

unfoldable pub new_service_account : NamespacedName → Object Kind.service_account_kind
new_service_account ns = record {
  meta = meta_of (gitops_service_prefix ⧺ ns.name) ns.namespace;
  body = tt;
}

abbrev pub get_list_watch : String → String → PolicyRule
get_list_watch api_group resource = record {
  api_groups = api_group ∷ [];
  resources = resource ∷ [];
  verbs = "get" ∷ "list" ∷ "watch" ∷ [];
  non_resource_urls = [];
}

unfoldable pub policy_rule_for_backend_service_cluster_role : List PolicyRule
policy_rule_for_backend_service_cluster_role =
    get_list_watch "argoproj.io" "applications" ∷ get_list_watch "" "secrets" ∷ []

unfoldable pub new_cluster_role : NamespacedName → Object Kind.cluster_role_kind
new_cluster_role ns = record {
  meta = meta_of (gitops_service_prefix ⧺ ns.name) "";
  body = policy_rule_for_backend_service_cluster_role;
}

unfoldable pub new_cluster_role_binding : NamespacedName → Object Kind.cluster_role_binding_kind
new_cluster_role_binding ns = record {
  meta = meta_of (gitops_service_prefix ⧺ ns.name) "";
  body = record {
    role_ref = record {
      api_group = "rbac.authorization.k8s.io";
      kind = "ClusterRole";
      name = gitops_service_prefix ⧺ ns.name;
    };
    subjects =
        record {
          kind = "ServiceAccount";
          name = gitops_service_prefix ⧺ ns.name;
          namespace = ns.namespace;
        }
        ∷ [];
  };
}

unfoldable pub new_backend_service : NamespacedName → Object Kind.service_kind
new_backend_service ns = record {
  meta = record (meta_of ns.name ns.namespace) {
    annotations = some (("service.beta.openshift.io/serving-cert-secret-name", ns.name) ∷ []);
  };
  body = record {
    selector = some (("app.kubernetes.io/name", ns.name) ∷ []);
    ports =
        record { name = ""; protocol = "TCP"; port = backend_port; target_port = backend_port }
        ∷ [];
  };
}

abbrev pub backend_deployment_object_meta : NamespacedName → ObjectMeta
backend_deployment_object_meta ns = meta_of ns.name ns.namespace

abbrev pub tls_13_ciphers : List String
tls_13_ciphers =
    "TLS_AES_128_GCM_SHA256" ∷ "TLS_AES_256_GCM_SHA384" ∷ "TLS_CHACHA20_POLY1305_SHA256" ∷ []

abbrev pub tls_version_env : String → List EnvVar
tls_version_env version =
    if not (version == "") then record { name = "TLS_MIN_VERSION"; value = version } ∷ [] else []

unfoldable pub allowed_ciphers : Settings → List String
allowed_ciphers c =
    let ciphers = c.map_cipher_suites c.tls_profile.ciphers in
    if not (c.tls_profile.min_version == c.tls_13)
    then select (λ cipher. not (contains tls_13_ciphers cipher)) ciphers
    else ciphers

abbrev pub cipher_env : List String → List EnvVar
cipher_env [] = []
cipher_env (x ∷ ciphers) =
    record { name = "TLS_CIPHER_SUITES"; value = join (x ∷ ciphers) ":" } ∷ []

abbrev pub curve_env : String → List EnvVar
curve_env curves =
    if not (curves == "")
    then record { name = "TLS_CURVE_PREFERENCES"; value = curves } ∷ []
    else []

unfoldable pub backend_env : Settings → String → List EnvVar
backend_env c curves =
    (record { name = "INSECURE"; value = "true" } ∷ [])
    ++ (tls_version_env (c.tls_protocol_version_string c.tls_profile.min_version)
        ++ (cipher_env (allowed_ciphers c) ++ curve_env curves))

abbrev pub backend_container : Settings → NamespacedName → String → List EnvVar → Container
backend_container c ns pull_policy env = record {
  name = ns.name;
  image = if c.getenv "BACKEND_IMAGE" == "" then backend_image else c.getenv "BACKEND_IMAGE";
  image_pull_policy = c.get_image_pull_policy pull_policy;
  command = [];
  args = [];
  env = env;
  ports = record { name = "http"; protocol = "TCP"; container_port = backend_port } ∷ [];
  volume_mounts =
      record {
        name = "backend-ssl";
        read_only = true;
        mount_path = "/etc/gitops/ssl";
        sub_path = "";
      }
      ∷ [];
  resources = record {
    requests = some (("memory", "128Mi") ∷ ("cpu", "250m") ∷ []);
    limits = some (("memory", "256Mi") ∷ ("cpu", "500m") ∷ []);
  };
  security_context = none;
  termination_message_path = "";
  termination_message_policy = "";
}

abbrev pub backend_deployment_of :
    Settings → NamespacedName → String → List EnvVar → Object Kind.deployment_kind
backend_deployment_of c ns pull_policy env = record {
  meta = backend_deployment_object_meta ns;
  body = record {
    replicas = some 1;
    selector = some (some (("app.kubernetes.io/name", ns.name) ∷ []));
    template_labels =
        some (
          ("app.kubernetes.io/name", ns.name)
          ∷ ("openshift.io/required-scc", "restricted-v2")
          ∷ []);
    template_annotations = none;
    pod = record {
      containers = backend_container c ns pull_policy env ∷ [];
      init_containers = [];
      volumes =
          record { name = "backend-ssl"; source = VolumeSource.secret_volume ns.name none } ∷ [];
      node_selector = none;
      tolerations = [];
      restart_policy = "";
      dns_policy = "";
      service_account_name = gitops_service_prefix ⧺ ns.name;
      pod_seccomp = none;
    };
  };
}

-- once the curves are known
abbrev pub with_curves :
    Settings → NamespacedName → String → Result String → Result (Object Kind.deployment_kind)
with_curves c ns pull_policy (Result.err e) = Result.err e
with_curves c ns pull_policy (Result.ok curves) =
    Result.ok (backend_deployment_of c ns pull_policy (backend_env c curves))

unfoldable pub new_backend_deployment :
    Settings → NamespacedName → String → Result (Object Kind.deployment_kind)
new_backend_deployment c ns pull_policy =
    with_curves c ns pull_policy (c.map_groups_to_curves c.tls_profile.curve_preferences)
