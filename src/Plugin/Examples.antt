-- ===== src/Plugin/Examples.antt =====
-- Runs of the console plugin's reconcile.
use gitops_operator.Base.{
  String, ◌≡◌, refl, inl, true, false, none, some, [], ◌∷◌, All, String-IsSet, StringMap, find,
  text_less, move_forward, sort_onto, sort_slice, Untied-one, Untied-two,
}
use gitops_operator.Kube.{
  EnvVar, ContainerPort, VolumeMount, Container, VolumeSource, Volume, Toleration, PodSpec, Kind,
  Object, Result, View, Ensures, Settles, Change, Guards,
}
use mathlib.Core.Bool.{true≢false}
use native.Mathlib.Decide.{dec_lt}
use mathlib.Core.List.{Permᴰ}
use gitops_operator.Kube.Memory.{memory}
use gitops_operator.Service.Objects.{Settings, meta_of}
use gitops_operator.Service.Provision.{Present}
use gitops_operator.Service.Instance.{new_gitops_service}
use gitops_operator.Plugin.Objects.{
  PluginSettings, gitops_plugin_name, default_console_image, plugin_serving_cert_name,
  httpd_config_map_name, read_only_mount,
}
use gitops_operator.Plugin.Httpd.{get_config_map_hash}
use gitops_operator.Plugin.Sorting.{
  sort_fields, volume_less, toleration_less, mount_less, env_less, port_less,
}
use gitops_operator.Plugin.Reconcile.{reconcile_plugin, amend_plugin_deployment}
use gitops_operator.Plugin.Old.{cleanup_old_plugin_resources}
use gitops_operator.Plugin.Provision.{plugin_targets, NotPlugin, reconcile_plugin-Settles}
use gitops_operator.Plugin.Removal.{Removed, cleanup_old_plugin_resources-Settles}
use gitops_operator.Plugin.Reordering.{
  SameContainer, sort_fields-SameContainer, amend_plugin_deployment-SameDeployment,
}

EnvVar-IsSet : IsSet EnvVar
EnvVar-IsSet = hlevel (String-IsSet)

pub ContainerPort-IsSet : IsSet ContainerPort
ContainerPort-IsSet = hlevel (String-IsSet)

Toleration-IsSet : IsSet Toleration
Toleration-IsSet = hlevel (String-IsSet)

pub Volume-IsSet : IsSet Volume
Volume-IsSet = hlevel (String-IsSet)

abbrev settings : Settings
settings = record {
  getenv = λ _. "";
  reference = λ owner m. Result.ok (record m { owner = some owner });
  append_string_map = λ m n. n;
  default_node_selector = some (("kubernetes.io/os", "linux") ∷ []);
  get_image_pull_policy = λ p. p;
  tls_protocol_version_string = λ v. v;
  map_cipher_suites = λ ciphers. ciphers;
  map_groups_to_curves = λ groups. Result.ok "";
  tls_profile = record {
    min_version = "VersionTLS12";
    ciphers = "ECDHE-RSA-AES128-GCM-SHA256" ∷ "ECDHE-RSA-AES256-GCM-SHA384" ∷ [];
    curve_preferences = [];
  };
  tls_13 = "VersionTLS13";
  newer = λ v w. false;
}

abbrev pub plugin_settings : PluginSettings
plugin_settings = record {
  service = settings;
  plugin_namespace = "openshift-gitops-operator";
  console_api_found = true;
  map_groups_to_openssl = λ groups. "";
  add_tracked_label = λ m. record m { labels = some (("tracked", "true") ∷ []) };
  sha256_hex = λ s. s;
}

abbrev no_objects : View
no_objects k n = none

reconcile_plugin-Settles_example :
    Settles memory (reconcile_plugin plugin_settings new_gitops_service true) no_objects (λ _ w'.
      All (Present (memory.view w')) (plugin_targets "openshift-gitops-operator")
      × Guards (NotPlugin "openshift-gitops-operator") no_objects (memory.view w'))
reconcile_plugin-Settles_example =
    reconcile_plugin-Settles memory plugin_settings new_gitops_service true (λ owner m e. refl)
      (λ m. (some (("tracked", "true") ∷ []), refl)) no_objects refl

cleanup_old_plugin_resources-Settles_example :
    Ensures memory
      (cleanup_old_plugin_resources "openshift-gitops-operator")
      no_objects
      (λ r w'. (r ≡ Result.ok tt) × Removed (memory.view no_objects) (memory.view w'))
cleanup_old_plugin_resources-Settles_example =
    cleanup_old_plugin_resources-Settles memory (λ w f. f) "openshift-gitops-operator" no_objects
      refl

abbrev http_port : ContainerPort
http_port = record { name = "http"; protocol = "TCP"; container_port = 9001 }

-- a container as it is built, and as the API server may return it
abbrev env_a : EnvVar
env_a = record { name = "HTTPS_PROXY"; value = "a" }

abbrev env_b : EnvVar
env_b = record { name = "NO_PROXY"; value = "b" }

abbrev mount_a : VolumeMount
mount_a = read_only_mount "console-serving-cert" "/etc/httpd-ssl/certs/tls.crt" "tls.crt"

abbrev key_mount : VolumeMount
key_mount = read_only_mount "console-serving-cert" "/etc/httpd-ssl/private/tls.key" "tls.key"

abbrev mount_b : VolumeMount
mount_b = read_only_mount "httpd-cfg" "/etc/httpd-cfg/httpd.conf" "httpd.conf"

abbrev built : Container
built = record {
  name = gitops_plugin_name;
  image = default_console_image;
  image_pull_policy = "";
  command = [];
  args = [];
  ports = http_port ∷ [];
  resources = record { requests = none; limits = none };
  security_context = none;
  termination_message_path = "";
  termination_message_policy = "";
  env = env_a ∷ env_b ∷ [];
  volume_mounts = mount_a ∷ key_mount ∷ mount_b ∷ [];
}

abbrev returned : Container
returned = record built {
  env = env_b ∷ env_a ∷ [];
  termination_message_path = "/dev/termination-log";
  termination_message_policy = "File";
}

built-SameContainer : SameContainer built returned
unfolding text_less dec_lt
built-SameContainer = record {
  env = Permᴰ.swap refl refl;
  env_untied = Untied-two env_less EnvVar-IsSet env_a env_b (λ e f. true≢false e);
  ports = Permᴰ.cons refl Permᴰ.nil;
  ports_untied = Untied-one port_less ContainerPort-IsSet http_port;
  volume_mounts = inl refl;
  path = refl;
  policy = refl;
  rest = refl;
}

returned-SameContainer : SameContainer returned built
unfolding text_less dec_lt
returned-SameContainer = record {
  env = Permᴰ.swap refl refl;
  env_untied = Untied-two env_less EnvVar-IsSet env_b env_a (λ e f. true≢false f);
  ports = Permᴰ.cons refl Permᴰ.nil;
  ports_untied = Untied-one port_less ContainerPort-IsSet http_port;
  volume_mounts = inl refl;
  path = refl;
  policy = refl;
  rest = refl;
}

sort_fields-SameContainer_example : sort_fields built ≡ sort_fields returned
sort_fields-SameContainer_example = sort_fields-SameContainer built returned built-SameContainer

abbrev toleration_a : Toleration
toleration_a = record {
  key = "infra";
  operator = "Exists";
  value = "";
  effect = "NoExecute";
  toleration_seconds = none;
}

abbrev toleration_b : Toleration
toleration_b = record {
  key = "infra";
  operator = "Exists";
  value = "";
  effect = "NoSchedule";
  toleration_seconds = none;
}

abbrev cert_volume : Volume
cert_volume = record {
  name = plugin_serving_cert_name;
  source = VolumeSource.secret_volume plugin_serving_cert_name (some 420);
}

abbrev config_volume : Volume
config_volume = record {
  name = httpd_config_map_name;
  source = VolumeSource.config_map_volume httpd_config_map_name (some 420);
}

abbrev wanted_pod : PodSpec
wanted_pod = record {
  init_containers = [];
  volumes = cert_volume ∷ config_volume ∷ [];
  node_selector = none;
  restart_policy = "Always";
  dns_policy = "ClusterFirst";
  service_account_name = "";
  pod_seccomp = some none;
  containers = built ∷ [];
  tolerations = toleration_a ∷ toleration_b ∷ [];
}

abbrev found_pod : PodSpec
found_pod = record wanted_pod {
  containers = returned ∷ [];
  volumes = config_volume ∷ cert_volume ∷ [];
  tolerations = toleration_b ∷ toleration_a ∷ [];
}

-- a Deployment of the pod, and as the API server may return it
abbrev deployment_of : StringMap → PodSpec → Object Kind.deployment_kind
deployment_of annotations pod = record {
  meta = record (meta_of gitops_plugin_name "openshift-gitops") { annotations = annotations };
  body = record {
    replicas = some 1;
    selector = none;
    template_labels = none;
    template_annotations = none;
    pod = pod;
  };
}

amend_plugin_deployment-SameDeployment_example :
    amend_plugin_deployment
      (deployment_of none wanted_pod)
      (deployment_of (some (("deployment.kubernetes.io/revision", "1") ∷ [])) found_pod)
    ≡ Change.keep
unfolding toleration_less text_less dec_lt
amend_plugin_deployment-SameDeployment_example =
    amend_plugin_deployment-SameDeployment (deployment_of none wanted_pod)
      (deployment_of (some (("deployment.kubernetes.io/revision", "1") ∷ [])) found_pod) tt
      (record {
        labels = refl;
        replicas = refl;
        selector = refl;
        template_labels = refl;
        hash = refl;
        pod = record {
          volumes = Permᴰ.swap refl refl;
          volumes_untied =
              Untied-two volume_less Volume-IsSet config_volume cert_volume (λ e f. true≢false f);
          tolerations = Permᴰ.swap refl refl;
          tolerations_untied =
              Untied-two toleration_less Toleration-IsSet toleration_b toleration_a
                (λ e f. true≢false f);
          containers = (returned-SameContainer, tt);
          restart_policy = refl;
          dns_policy = refl;
          node_selector = refl;
          pod_seccomp = refl;
        };
      })

-- The plugin's own mounts have two of one name, so their order is kept: the comparison takes
-- them, in another order, for a change.
tied_mounts :
    (sort_slice mount_less (mount_b ∷ mount_a ∷ key_mount ∷ [])
      ≡ mount_a ∷ key_mount ∷ mount_b ∷ [])
    × (sort_slice mount_less (mount_b ∷ key_mount ∷ mount_a ∷ [])
        ≡ key_mount ∷ mount_a ∷ mount_b ∷ [])
unfolding sort_slice sort_onto move_forward text_less dec_lt
tied_mounts = (refl, refl)

-- Two maps of different entries with one hash, whatever the hash function.
one_hash :
    (hash : String → String)
    → get_config_map_hash hash (some (("a", "bc") ∷ []))
      ≡ get_config_map_hash hash (some (("ab", "c") ∷ []))
unfolding get_config_map_hash sort_slice sort_onto move_forward find
one_hash hash = refl
