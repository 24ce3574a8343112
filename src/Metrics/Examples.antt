-- ===== src/Metrics/Examples.antt =====
-- Runs of the metrics reconciler.
use gitops_operator.Base.{
  String, refl, inr, Bool, true, false, Option, none, some, [], ◌∷◌, if◌then◌else◌, ==-ne,
  StringMap, find, lookup,
}
use gitops_operator.Kube.{
  NamespacedName, ObjectMeta, ArgoCdSpec, Kind, Object, Result, View, same_name, Settles,
}
use gitops_operator.Kube.Memory.{memory}
use gitops_operator.Metrics.{
  monitoring_label, metrics_disabled, Settings, FileContent, reconcile, operator_monitor_key,
}
use gitops_operator.Metrics.Disabled.{namespace_key, Unmonitored, reconcile_disabled}
use gitops_operator.Metrics.Enabled.{Monitored, reconcile_enabled}

abbrev meta_of : String → String → StringMap → ObjectMeta
meta_of name namespace labels = record {
  name = name;
  namespace = namespace;
  labels = labels;
  annotations = none;
  owner = none;
  deleting = false;
}

abbrev settings : Settings
settings = record {
  reference = λ owner m. Result.ok (record m { owner = some owner });
  namespace_file = FileContent.content "operators";
  dashboard_entries = Result.ok (
      record { name = "grafana"; is_dir = true }
      ∷ record { name = "gitops.json"; is_dir = false }
      ∷ []);
  dashboard_text = λ _. Result.ok "{}";
  track = λ m. m;
}

abbrev request : NamespacedName
request = record { name = "argocd"; namespace = "team" }

abbrev spec : Option Bool → ArgoCdSpec
spec disabled = record {
  application_set = none;
  controller = none;
  sso = none;
  grafana = none;
  ha = none;
  ha_enabled = false;
  redis = none;
  repo = none;
  server = none;
  server_route = true;
  rbac = record { policy = none; scopes = none; default_policy = none };
  resource_exclusions = "";
  node_placement = none;
  disable_metrics = disabled;
}

abbrev team : Object Kind.namespace_kind
team = record {
  meta = meta_of "team" "" (some (("openshift.io/user-monitoring", "true") ∷ []));
  body = tt;
}

abbrev argocd : Option Bool → Object Kind.argo_cd_kind
argocd disabled = record { meta = meta_of "argocd" "team" none; body = spec disabled }

-- A namespace with an instance, and the operator's own monitor.
abbrev cluster : Option Bool → View
cluster disabled Kind.namespace_kind n =
    if same_name (namespace_key "team") n then some team else none
cluster disabled Kind.argo_cd_kind n = if same_name request n then some (argocd disabled) else none
cluster disabled Kind.service_monitor_kind n =
    if same_name (operator_monitor_key "operators") n
    then some (record {
      meta = meta_of (operator_monitor_key "operators").name "operators" none;
      body = record {
        match_labels = none;
        endpoints =
            record { port = "metrics"; tls_config = some (record { server_name = none }) } ∷ [];
      };
    })
    else none
cluster disabled _ n = none

reconcile_disabled_example :
    Settles memory
      (reconcile settings request)
      (cluster (some true))
      (λ _ w'. Unmonitored memory request team (cluster (some true)) w')
unfolding lookup find monitoring_label metrics_disabled
reconcile_disabled_example =
    reconcile_disabled memory settings request (cluster (some true)) team (argocd (some true))
      "true" refl refl refl refl

reconcile_enabled_example : Settles memory (reconcile settings request) (cluster none) (λ _ w'.
    Monitored memory settings
      (λ owner m e. refl)
      "operators"
      request
      team
      (memory.view (cluster none))
      (memory.view w'))
unfolding metrics_disabled
reconcile_enabled_example =
    reconcile_enabled memory settings (λ owner m e. refl) "operators" request (cluster none) team
      (argocd none)
      (record { name = "grafana"; is_dir = true }
        ∷ record { name = "gitops.json"; is_dir = false }
        ∷ [])
      (λ e. ==-ne "team" "operators" refl e) refl refl refl refl (inr refl)
      (record { server_name = none }, refl)
