-- ===== src/DefaultCr.antt =====
-- controllers/argocd/argocd.go: the Argo CD resource of the default instance.
-- an entry of the resource exclusions
use gitops_operator.Base.{
  false, String, Bool, true, not, Option, none, some, List, [], ◌∷◌, if◌then◌else◌,
}
use gitops_operator.Kube.{ArgoCdSpec, Resources, DexSpec, SsoSpec, Rbac, Kind, Object, Result}

pub record Exclusion : Type 0 where
  pub api_groups : List String
  pub kinds : List String
  pub clusters : List String

-- Whether config.openshift.io was found, what IsExternalAuthenticationEnabledOnCluster says, and
-- yaml.Marshal.
pub record Facts : Type 0 where
  pub is_openshift_cluster : Bool
  pub external_authentication : Bool
  pub marshal : List Exclusion → Result String

abbrev pub resources : String → String → String → String → Resources
resources memory cpu memory_limit cpu_limit = record {
  requests = some (("memory", memory) ∷ ("cpu", cpu) ∷ []);
  limits = some (("memory", memory_limit) ∷ ("cpu", cpu_limit) ∷ []);
}

abbrev pub get_argo_dex_spec : DexSpec
get_argo_dex_spec = record {
  openshift_oauth = true;
  resources = some (resources "128Mi" "250m" "256Mi" "500m");
}

unfoldable pub get_argo_sso_spec : Facts → Option SsoSpec
get_argo_sso_spec facts =
    if not facts.is_openshift_cluster
    then none
    else if facts.external_authentication
    then none
    else some (record { provider = "dex"; dex = some get_argo_dex_spec })

abbrev pub get_default_rbac : Rbac
get_default_rbac = record {
  policy = some "g, system:cluster-admins, role:admin\ng, cluster-admins, role:admin\n";
  scopes = some "[groups]";
  default_policy = some "";
}

abbrev exclusion : List String → List String → Exclusion
exclusion api_groups kinds = record { api_groups = api_groups; kinds = kinds; clusters = "*" ∷ [] }

unfoldable pub resource_exclusions : List Exclusion
resource_exclusions =
    exclusion ("" ∷ "discovery.k8s.io" ∷ []) ("Endpoints" ∷ "EndpointSlice" ∷ [])
    ∷ exclusion ("apiregistration.k8s.io" ∷ []) ("APIService" ∷ [])
    ∷ exclusion ("coordination.k8s.io" ∷ []) ("Lease" ∷ [])
    ∷ exclusion ("authentication.k8s.io" ∷ "authorization.k8s.io" ∷ []) (
        "SelfSubjectReview" ∷ "TokenReview" ∷ "LocalSubjectAccessReview" ∷ "SelfSubjectAccessReview"
        ∷ "SelfSubjectRulesReview" ∷ "SubjectAccessReview" ∷ [])
    ∷ exclusion ("certificates.k8s.io" ∷ []) ("CertificateSigningRequest" ∷ [])
    ∷ exclusion ("cert-manager.io" ∷ []) ("CertificateRequest" ∷ [])
    ∷ exclusion ("cilium.io" ∷ [])
        ("CiliumIdentity" ∷ "CiliumEndpoint" ∷ "CiliumEndpointSlice" ∷ [])
    ∷ exclusion ("kyverno.io" ∷ "reports.kyverno.io" ∷ "wgpolicyk8s.io" ∷ []) (
        "PolicyReport" ∷ "ClusterPolicyReport" ∷ "EphemeralReport" ∷ "ClusterEphemeralReport"
        ∷ "AdmissionReport" ∷ "ClusterAdmissionReport" ∷ "BackgroundScanReport"
        ∷ "ClusterBackgroundScanReport" ∷ "UpdateRequest" ∷ [])
    ∷ exclusion ("tekton.dev" ∷ []) ("TaskRun" ∷ "PipelineRun" ∷ [])
    ∷ []

abbrev pub default_spec : Facts → String → ArgoCdSpec
default_spec facts exclusions = record {
  application_set = some (some (resources "512Mi" "250m" "1024Mi" "2000m"));
  controller = some (resources "1024Mi" "250m" "2048Mi" "2000m");
  sso = get_argo_sso_spec facts;
  grafana = some (resources "128Mi" "250m" "256Mi" "500m");
  ha = some (resources "128Mi" "250m" "256Mi" "500m");
  ha_enabled = false;
  redis = some (resources "128Mi" "250m" "256Mi" "500m");
  repo = some (resources "256Mi" "250m" "1024Mi" "1000m");
  server = some (resources "128Mi" "125m" "256Mi" "500m");
  server_route = true;
  rbac = get_default_rbac;
  resource_exclusions = exclusions;
  node_placement = none;
  disable_metrics = none;
}

-- once the exclusions are marshalled
abbrev pub cr_with : Facts → String → String → Result String → Result (Object Kind.argo_cd_kind)
cr_with facts name ns (Result.err e) = Result.err e
cr_with facts name ns (Result.ok exclusions) = Result.ok (record {
  meta = record {
    name = name;
    namespace = ns;
    labels = none;
    annotations = none;
    owner = none;
    deleting = false;
  };
  body = default_spec facts exclusions;
})

unfoldable pub new_cr : Facts → String → String → Result (Object Kind.argo_cd_kind)
unfolding resource_exclusions
new_cr facts name ns = cr_with facts name ns (facts.marshal resource_exclusions)
