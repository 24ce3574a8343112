-- ===== src/Metrics/Objects.antt =====
-- The objects that controllers/argocd_metrics_controller.go creates.
use gitops_operator.Base.{String, false, none, some, [], ◌∷◌, ◌⧺◌}
use gitops_operator.Kube.{ObjectMeta, AlertRule, Kind, Object}

abbrev pub alert_rule_name : String
alert_rule_name = "gitops-operator-argocd-alerts"

abbrev pub sync_loop_alert_rule_name : String
sync_loop_alert_rule_name = "gitops-operator-argocd-sync-loop-alerts"

abbrev pub dashboard_namespace : String
dashboard_namespace = "openshift-config-managed"

abbrev pub dashboard_folder : String
dashboard_folder = "dashboards"

abbrev pub operator_metrics_service_name : String
operator_metrics_service_name = "openshift-gitops-operator-metrics-service"

abbrev pub operator_metrics_monitor_name : String
operator_metrics_monitor_name = "openshift-gitops-operator-metrics-monitor"

-- the formats "%s-read" and "%s-prometheus-k8s-read-binding"
abbrev pub read_role_name : String → String
read_role_name namespace = namespace ⧺ "-read"

abbrev pub read_role_binding_name : String → String
read_role_binding_name namespace = namespace ⧺ "-prometheus-k8s-read-binding"

-- metadata of a name and a namespace alone
abbrev pub named : String → String → ObjectMeta
named name namespace = record {
  name = name;
  namespace = namespace;
  labels = none;
  annotations = none;
  owner = none;
  deleting = false;
}

unfoldable pub new_read_role : String → Object Kind.role_kind
new_read_role namespace = record {
  meta = named (read_role_name namespace) namespace;
  body =
      record {
        api_groups = "" ∷ [];
        resources = "endpoints" ∷ "services" ∷ "pods" ∷ [];
        verbs = "get" ∷ "list" ∷ "watch" ∷ [];
        non_resource_urls = [];
      }
      ∷ [];
}

unfoldable pub new_read_role_binding : String → Object Kind.role_binding_kind
new_read_role_binding namespace = record {
  meta = named (read_role_binding_name namespace) namespace;
  body = record {
    role_ref = record {
      api_group = "rbac.authorization.k8s.io";
      kind = "Role";
      name = read_role_name namespace;
    };
    subjects =
        record {
          kind = "ServiceAccount";
          name = "prometheus-k8s";
          namespace = "openshift-monitoring";
        }
        ∷ [];
  };
}

unfoldable pub new_service_monitor : String → String → String → Object Kind.service_monitor_kind
new_service_monitor namespace name match_label = record {
  meta = record (named name namespace) { labels = some (("release", "prometheus-operator") ∷ []) };
  body = record {
    match_labels = some (("app.kubernetes.io/name", match_label) ∷ []);
    endpoints = record { port = "metrics"; tls_config = none } ∷ [];
  };
}

unfoldable pub new_prometheus_rule : String → Object Kind.prometheus_rule_kind
new_prometheus_rule namespace = record {
  meta = named alert_rule_name namespace;
  body =
      record {
        name = "GitOpsOperatorArgoCD";
        rules =
            record {
              recording = "";
              alert = "ArgoCDSyncAlert";
              expr =
                  "argocd_app_info{namespace=\"" ⧺ namespace ⧺ "\",sync_status=\"OutOfSync\"} > 0";
              for_duration = some "5m";
              labels = some (("severity", "warning") ∷ []);
              annotations = some (
                  ("summary", "Argo CD application is out of sync")
                  ∷ (
                    "description",
                    "Argo CD application {{ $labels.name }} is out of sync. Check ArgoCDSyncAlert status, this alert is designed to notify that an application managed by Argo CD is out of sync.",
                  )
                  ∷ []);
            }
            ∷ [];
      }
      ∷ [];
}

unfoldable pub new_recording_rule : String → String → AlertRule
new_recording_rule name expr = record {
  recording = name;
  alert = "";
  expr = expr;
  for_duration = none;
  labels = none;
  annotations = none;
}

unfoldable pub new_alert_rule : String → String → String → String → String → String → AlertRule
new_alert_rule name severity duration expr summary description = record {
  recording = "";
  alert = name;
  expr = expr;
  for_duration = some duration;
  labels = some (("severity", severity) ∷ []);
  annotations = some (("summary", summary) ∷ ("description", description) ∷ []);
}

unfoldable pub new_sync_loop_prometheus_rule : String → Object Kind.prometheus_rule_kind
unfolding new_recording_rule new_alert_rule
new_sync_loop_prometheus_rule namespace = record {
  meta = named sync_loop_alert_rule_name namespace;
  body =
      record {
        name = "GitOpsOperatorArgoCDSyncLoop";
        rules =
            new_recording_rule "gitops:argocd_app_sync:rate10m" (
              "sum by (name, namespace) (rate(argocd_app_sync_total{namespace=\"" ⧺ namespace
              ⧺ "\"}[10m]))")
            ∷ new_recording_rule "gitops:argocd_app_sync_failed:rate10m" (
                "sum by (name, namespace) (rate(argocd_app_sync_total{namespace=\"" ⧺ namespace
                ⧺ "\",phase=~\"Error|Failed\"}[10m]))")
            ∷ new_alert_rule "ArgoCDAppSyncLoop" "warning" "20m"
                ("gitops:argocd_app_sync:rate10m{namespace=\"" ⧺ namespace ⧺ "\"} > 0.01")
                "Argo CD application is syncing continuously"
                "Argo CD application {{ $labels.name }} in namespace {{ $labels.namespace }} has a sustained sync rate above 0.01/s (about one sync every ~100s) for 20m. This often indicates a selfHeal conflict (for example HPA fighting declared replicas). Check application sync history, diff, and conflicting controllers."
            ∷ new_alert_rule "ArgoCDAppSyncFailureLoop" "warning" "15m"
                ("gitops:argocd_app_sync_failed:rate10m{namespace=\"" ⧺ namespace ⧺ "\"} > 0.005")
                "Argo CD application syncs are failing repeatedly"
                "Argo CD application {{ $labels.name }} in namespace {{ $labels.namespace }} has a sustained failed sync rate above 0.005/s for 15m. Investigate the application operation status and sync errors."
            ∷ [];
      }
      ∷ [];
}
