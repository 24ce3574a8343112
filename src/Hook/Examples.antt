-- ===== src/Hook/Examples.antt =====
-- Runs of the hook.
use gitops_operator.Base.{
  String, ◌≡◌, refl, ◌↔◌, ◌⊎◌, true, false, not, ◌&&◌, none, some, [], ◌∷◌, if◌then◌else◌, select,
  ◌==◌, ◌⧺◌, lookup,
}
use gitops_operator.Kube.{SecurityContext, Container, PodSpec, Result}
use gitops_operator.Hook.{
  HookObject, HookSettings, Secret, reconciler_hook, allowed_namespace, hook_secret,
}
use gitops_operator.Hook.Trust.{Instance, trust_container, update_system_ca_trust_building}
use gitops_operator.Hook.Identity.{Ends, SameIdentity, ClientError, reconciler_hook-Ends}
use gitops_operator.Hook.Certificates.{
  is_update, All2, RedirectedContainer, update_system_ca_trust_building-containers,
}
use gitops_operator.Hook.Lists.{Entry, IsEntry, written, names}
use gitops_operator.Hook.Namespaces.{OneOf, allowed_namespace_iff, hook_secret-lookup}

abbrev context : SecurityContext
context = record {
  capabilities = some (record { add = []; drop = "ALL" ∷ [] });
  run_as_non_root = some true;
  allow_privilege_escalation = some false;
  seccomp_profile = none;
}

abbrev hook_settings : HookSettings
hook_settings = record {
  generate_unique_resource_name = λ s cr. cr.name ⧺ "-" ⧺ cr.namespace ⧺ "-" ⧺ s;
  default_security_context = context;
  newer = λ v w. true;
  cluster_config_namespaces = "openshift-gitops, team-a";
  init_k8s_client = Result.ok tt;
  admin_rules = Result.ok [];
}

abbrev instance_a : Instance
instance_a = record {
  name = "argocd";
  namespace = "team-a";
  repo_resources = none;
  system_ca_trust = some true;
}

abbrev plain_container : String → Container
plain_container name = record {
  name = name;
  image = "argocd:v3";
  image_pull_policy = "";
  command = [];
  args = [];
  env = [];
  ports = [];
  volume_mounts =
      record {
        name = "argocd-ca-trust-source";
        read_only = true;
        mount_path = "/var/run/ca";
        sub_path = "";
      }
      ∷ record {
        name = "argocd-ca-trust-target";
        read_only = false;
        mount_path = "/etc/ssl/certs";
        sub_path = "";
      }
      ∷ [];
  resources = record { requests = none; limits = none };
  security_context = some context;
  termination_message_path = "";
  termination_message_policy = "";
}

abbrev repo_pod : PodSpec
repo_pod = record {
  containers = plain_container "repo-server" ∷ [];
  init_containers = plain_container "update-ca-certificates" ∷ plain_container "copyutil" ∷ [];
  volumes = [];
  node_selector = none;
  tolerations = [];
  restart_policy = "";
  dns_policy = "";
  service_account_name = "";
  pod_seccomp = none;
}

abbrev repo_server : HookObject
repo_server = HookObject.deployment_object (record {
  meta = record {
    name = "argocd-repo-server";
    namespace = "team-a";
    labels = none;
    annotations = none;
    owner = none;
    deleting = false;
  };
  body = record {
    replicas = none;
    selector = none;
    template_labels = none;
    template_annotations = none;
    pod = repo_pod;
  };
})

reconciler_hook-Ends_example :
    Ends
      (SameIdentity repo_server)
      (ClientError hook_settings)
      (reconciler_hook hook_settings instance_a repo_server "4.18.0")
reconciler_hook-Ends_example =
    reconciler_hook-Ends hook_settings instance_a "4.18.0" repo_server
      (context, record { add = []; drop = "ALL" ∷ [] }, refl, refl)

update_system_ca_trust_building-containers_example :
    (select is_update
        (update_system_ca_trust_building context instance_a true "argocd:v3"
          repo_pod).init_containers
      ≡ trust_container context instance_a true "argocd:v3" ∷ [])
    × (select
          (λ c. not (is_update c))
          (update_system_ca_trust_building context instance_a true "argocd:v3"
            repo_pod).init_containers
        ≡ select (λ c. not (is_update c)) repo_pod.init_containers)
    × All2
        (RedirectedContainer "argocd:v3")
        repo_pod.containers
        (update_system_ca_trust_building context instance_a true "argocd:v3" repo_pod).containers
update_system_ca_trust_building-containers_example =
    update_system_ca_trust_building-containers context instance_a true "argocd:v3" repo_pod

abbrev gitops_entry : Entry
gitops_entry = record { left = ""; name = "openshift-gitops"; right = " " }

abbrev team_entry : Entry
team_entry = record { left = " "; name = "team-a"; right = "" }

gitops-IsEntry : IsEntry gitops_entry
gitops-IsEntry = (
  tt,
  (
    (refl, refl),
    (
      (refl, refl),
      (
        (refl, refl),
        (
          (refl, refl),
          (
            (refl, refl),
            (
              (refl, refl),
              (
                (refl, refl),
                (
                  (refl, refl),
                  (
                    (refl, refl),
                    (
                      (refl, refl),
                      (
                        (refl, refl),
                        (
                          (refl, refl),
                          ((refl, refl), ((refl, refl), ((refl, refl), ((refl, refl), tt)))),
                        ),
                      ),
                    ),
                  ),
                ),
              ),
            ),
          ),
        ),
      ),
    ),
  ),
  ((refl, refl), tt),
)

team-IsEntry : IsEntry team_entry
team-IsEntry = (
  ((refl, refl), tt),
  (
    (refl, refl),
    ((refl, refl), ((refl, refl), ((refl, refl), ((refl, refl), ((refl, refl), tt))))),
  ),
  tt,
)

allowed_namespace_iff_example :
    (allowed_namespace "team-a" (written gitops_entry (team_entry ∷ [])) ≡ true)
    ↔ ((gitops_entry.name ≡ "*") ⊎ OneOf "team-a" (names (gitops_entry ∷ team_entry ∷ [])))
allowed_namespace_iff_example =
    allowed_namespace_iff "team-a" gitops_entry (team_entry ∷ [])
      (gitops-IsEntry, (team-IsEntry, tt))

abbrev cluster_secret : Secret
cluster_secret = record {
  meta = record {
    name = "argocd-default-cluster-config";
    namespace = "team-a";
    labels = none;
    annotations = none;
    owner = none;
    deleting = false;
  };
  body = some (("namespaces", "team-a") ∷ ("server", "https://kubernetes.default.svc") ∷ []);
}

hook_secret-lookup_example :
    lookup (hook_secret hook_settings instance_a cluster_secret).body "namespaces" ≡ (
      if allowed_namespace instance_a.namespace hook_settings.cluster_config_namespaces
        && "namespaces" == "namespaces"
      then none
      else lookup cluster_secret.body "namespaces")
hook_secret-lookup_example = hook_secret-lookup hook_settings instance_a cluster_secret "namespaces"
