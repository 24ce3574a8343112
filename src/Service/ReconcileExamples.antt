-- ===== src/Service/ReconcileExamples.antt =====
-- Runs of Reconcile.
use gitops_operator.Base.{
  String, refl, sym, true, false, not, ◌&&◌, none, some, [], ◌∷◌, if◌then◌else◌, ◌==◌,
}
use gitops_operator.Kube.{Kind, Object, Result, View, same_name, Settles}
use mathlib.Core.Option.{none-ne-some}
use gitops_operator.Kube.Memory.{memory}
use gitops_operator.DefaultCr.{Facts}
use gitops_operator.Service.Objects.{Settings, meta_of}
use gitops_operator.Service.Instance.{new_gitops_service}
use gitops_operator.Service.Absence.{namespace_of_instance}
use gitops_operator.Service.Reconcile.{ServiceSettings, service_key, reconcile}
use gitops_operator.Service.Disabled.{reconcile-NoDefault}
use gitops_operator.Service.Removal.{NoDefault, backend_home}
use gitops_operator.Plugin.Objects.{PluginSettings}
use gitops_operator.Service.Safety.{Safe}
use gitops_operator.Service.SafeReconcile.{reconcile-Safe}

abbrev cluster_settings : Settings
cluster_settings = record {
  getenv = λ _. "";
  reference = λ owner m. Result.ok (record m { owner = some owner });
  append_string_map = λ m n. n;
  default_node_selector = some (("kubernetes.io/os", "linux") ∷ []);
  get_image_pull_policy = λ p. p;
  tls_protocol_version_string = λ v. v;
  map_cipher_suites = λ ciphers. ciphers;
  map_groups_to_curves = λ groups. Result.ok "";
  tls_profile = record { min_version = "VersionTLS12"; ciphers = []; curve_preferences = [] };
  tls_13 = "VersionTLS13";
  newer = λ v w. false;
}

abbrev console_settings : PluginSettings
console_settings = record {
  service = cluster_settings;
  plugin_namespace = "openshift-gitops-operator";
  console_api_found = true;
  map_groups_to_openssl = λ groups. "";
  add_tracked_label = λ m. record m { labels = some (("tracked", "true") ∷ []) };
  sha256_hex = λ s. s;
}

abbrev ocp_facts : Facts
ocp_facts = record {
  is_openshift_cluster = true;
  external_authentication = false;
  marshal = λ exclusions. Result.ok "exclusions";
}

-- a version is its text, and 4.18.0 comes before the others
abbrev disabled_settings : ServiceSettings
disabled_settings = record {
  plugin = console_settings;
  facts = ocp_facts;
  use_dex = λ spec. false;
  disable_default_install = true;
  route_api_found = true;
  Version = String;
  new_version = λ v. Result.ok v;
  less_than = λ v w. v == "4.18.0" && not (w == "4.18.0");
}

abbrev gitops_namespace : Object Kind.namespace_kind
gitops_namespace = record { meta = meta_of "openshift-gitops" ""; body = tt }

-- a cluster with the GitopsService, the namespace and version 4.18.0
abbrev gitops_cluster : View
gitops_cluster Kind.gitops_service_kind n =
    if same_name service_key n then some new_gitops_service else none
gitops_cluster Kind.namespace_kind n =
    if same_name namespace_of_instance n then some gitops_namespace else none
gitops_cluster Kind.cluster_version_kind n =
    some (record { meta = meta_of "version" ""; body = "4.18.0" })
gitops_cluster _ n = none

reconcile-NoDefault_example :
    Settles memory
      (reconcile disabled_settings)
      gitops_cluster
      (λ _ w'. NoDefault (backend_home (memory.view gitops_cluster)) (memory.view w'))
unfolding new_gitops_service
reconcile-NoDefault_example =
    reconcile-NoDefault memory disabled_settings "exclusions" refl (λ owner m e. refl)
      (λ m. (some (("tracked", "true") ∷ []), refl)) gitops_cluster refl
      (λ e. none-ne-some new_gitops_service (sym e)) (λ e. none-ne-some gitops_namespace (sym e))

reconcile-Safe_example : Safe (reconcile disabled_settings)
reconcile-Safe_example = reconcile-Safe disabled_settings
