-- ===== src/Plugin/Objects.antt =====
-- The objects of the console plugin, in controllers/consoleplugin.go.
use gitops_operator.Base.{
  ℕ, String, Bool, true, false, none, some, List, [], ◌∷◌, if◌then◌else◌, ◌==◌, Entries,
}
use gitops_operator.Kube.{
  ObjectMeta, VolumeMount, SecurityContext, Container, VolumeSource, Volume, PodSpec, Kind, Object,
}
use gitops_operator.Cluster.{proxy_env_vars, runtime_default}
use gitops_operator.Service.Objects.{Settings}

abbrev pub gitops_plugin_name : String
gitops_plugin_name = "gitops-plugin"

abbrev pub gitops_display_name : String
gitops_display_name = "GitOps Plugin"

abbrev pub service_port : ℕ
service_port = 9001

abbrev pub plugin_serving_cert_name : String
plugin_serving_cert_name = "console-serving-cert"

abbrev pub httpd_config_map_name : String
httpd_config_map_name = "httpd-cfg"

abbrev pub label_app : String
label_app = "app"

abbrev pub label_component : String
label_component = "app.kubernetes.io/component"

abbrev pub label_instance : String
label_instance = "app.kubernetes.io/instance"

abbrev pub label_part_of : String
label_part_of = "app.kubernetes.io/part-of"

abbrev pub label_runtime_namespace : String
label_runtime_namespace = "app.kubernetes.io/runtime-namespace"

-- What the plugin's part of the reconciler has beside `Settings`: its namespace, whether the console
-- API was found, MapOpenShiftTLSGroupsToOpenSSL and AddTrackedByOperatorLabel of argocd-operator,
-- and the SHA-256 of a text in hexadecimal.
pub record PluginSettings : Type 0 where
  pub service : Settings
  pub plugin_namespace : String
  pub console_api_found : Bool
  pub map_groups_to_openssl : List String → String
  pub add_tracked_label : ObjectMeta → ObjectMeta
  pub sha256_hex : String → String

abbrev pub default_console_image : String
default_console_image =
    "quay.io/redhat-user-workloads/rh-openshift-gitops-tenant/console-plugin-rhel9:main"

abbrev pub default_console_image_pf5 : String
default_console_image_pf5 =
    "quay.io/redhat-user-workloads/rh-openshift-gitops-tenant/console-plugin-4-18-rhel9:main"

abbrev pub or_default : String → String → String
or_default s default = if s == "" then default else s

unfoldable pub console_plugin_image : Settings → Bool → String
console_plugin_image c is_pf5 =
    if is_pf5
    then or_default (c.getenv "GITOPS_CONSOLE_PLUGIN_IMAGE_PF5") default_console_image_pf5
    else or_default (c.getenv "GITOPS_CONSOLE_PLUGIN_IMAGE") default_console_image

unfoldable pub security_context_for_plugin : SecurityContext
security_context_for_plugin = record {
  capabilities = some (record { add = []; drop = "ALL" ∷ [] });
  run_as_non_root = some true;
  allow_privilege_escalation = some false;
  seccomp_profile = some runtime_default;
}

abbrev pub read_only_mount : String → String → String → VolumeMount
read_only_mount name mount_path sub_path = record {
  name = name;
  read_only = true;
  mount_path = mount_path;
  sub_path = sub_path;
}

abbrev pub plugin_mounts : List VolumeMount
plugin_mounts =
    read_only_mount plugin_serving_cert_name "/etc/httpd-ssl/certs/tls.crt" "tls.crt"
    ∷ read_only_mount plugin_serving_cert_name "/etc/httpd-ssl/private/tls.key" "tls.key"
    ∷ read_only_mount httpd_config_map_name "/etc/httpd-cfg/httpd.conf" "httpd.conf"
    ∷ []

unfoldable pub plugin_container : Settings → String → Bool → Container
unfolding proxy_env_vars console_plugin_image security_context_for_plugin
plugin_container c pull_policy is_pf5 = record {
  name = gitops_plugin_name;
  image = console_plugin_image c is_pf5;
  image_pull_policy = c.get_image_pull_policy pull_policy;
  command = [];
  args = [];
  env = proxy_env_vars c.getenv [];
  ports = record { name = "http"; protocol = "TCP"; container_port = service_port } ∷ [];
  volume_mounts = plugin_mounts;
  resources = record {
    requests = some (("memory", "128Mi") ∷ ("cpu", "250m") ∷ []);
    limits = some (("memory", "256Mi") ∷ ("cpu", "500m") ∷ []);
  };
  security_context = some security_context_for_plugin;
  termination_message_path = "";
  termination_message_policy = "";
}

abbrev pub plugin_volumes : List Volume
plugin_volumes =
    record {
      name = plugin_serving_cert_name;
      source = VolumeSource.secret_volume plugin_serving_cert_name (some 420);
    }
    ∷ record {
      name = httpd_config_map_name;
      source = VolumeSource.config_map_volume httpd_config_map_name (some 420);
    }
    ∷ []

unfoldable pub get_plugin_pod_spec : Settings → String → Bool → PodSpec
get_plugin_pod_spec c pull_policy is_pf5 = record {
  containers = plugin_container c pull_policy is_pf5 ∷ [];
  init_containers = [];
  volumes = plugin_volumes;
  node_selector = none;
  tolerations = [];
  restart_policy = "Always";
  dns_policy = "ClusterFirst";
  service_account_name = "";
  pod_seccomp = some (some runtime_default);
}

abbrev pub app_label : Entries
app_label = (label_app, gitops_plugin_name) ∷ []

unfoldable pub plugin_deployment : Settings → String → String → Bool → Object Kind.deployment_kind
unfolding get_plugin_pod_spec
plugin_deployment c namespace pull_policy is_pf5 = record {
  meta = record {
    name = gitops_plugin_name;
    namespace = namespace;
    labels = some (
        (label_app, gitops_plugin_name)
        ∷ (label_component, gitops_plugin_name)
        ∷ (label_instance, gitops_plugin_name)
        ∷ (label_part_of, gitops_plugin_name)
        ∷ (label_runtime_namespace, namespace)
        ∷ []);
    annotations = none;
    owner = none;
    deleting = false;
  };
  body = record {
    replicas = some 1;
    selector = some (some app_label);
    template_labels = some app_label;
    template_annotations = none;
    pod = get_plugin_pod_spec c pull_policy is_pf5;
  };
}

unfoldable pub new_console_plugin : String → Object Kind.console_plugin_kind
new_console_plugin namespace = record {
  meta = record {
    name = gitops_plugin_name;
    namespace = "";
    labels = none;
    annotations = none;
    owner = none;
    deleting = false;
  };
  body = record {
    display_name = gitops_display_name;
    backend_type = "Service";
    service = some (record {
      name = gitops_plugin_name;
      namespace = namespace;
      port = service_port;
      base_path = "/";
    });
    load_type = "Preload";
  };
}

unfoldable pub plugin_service : String → Object Kind.service_kind
plugin_service namespace = record {
  meta = record {
    name = gitops_plugin_name;
    namespace = namespace;
    labels = some (
        (label_app, gitops_plugin_name)
        ∷ (label_component, gitops_plugin_name)
        ∷ (label_instance, gitops_plugin_name)
        ∷ (label_part_of, gitops_plugin_name)
        ∷ []);
    annotations =
        some
          (("service.beta.openshift.io/serving-cert-secret-name", plugin_serving_cert_name) ∷ []);
    owner = none;
    deleting = false;
  };
  body = record {
    selector = some app_label;
    ports =
        record {
          name = "tcp-9001";
          protocol = "TCP";
          port = service_port;
          target_port = service_port;
        }
        ∷ [];
  };
}
