-- ===== src/Metrics.antt =====
-- controllers/argocd_metrics_controller.go: monitoring of an Argo CD instance.
pub mod Objects
pub mod Disabled
pub mod Dashboards
pub mod Items
pub mod Marking
pub mod LastSteps
pub mod Enabled
pub mod Examples
use gitops_operator.Base.{
  String, Bool, false, not, Option, none, some, List, [], ◌∷◌, if◌then◌else◌, ◌==◌, ◌⧺◌, has_prefix,
  file_ext, trim_suffix, put, made, lookup, text_of, same_text?,
}
use gitops_operator.Kube.{
  NamespacedName, ObjectMeta, TlsConfig, Endpoint, ArgoCdSpec, Kind, Object, Error, is_not_found,
  Result, ok, err, Program, done, crash, after, Io, pure, throw, ◌>>=◌, ◌>>◌, get_object,
  create_object, update_object, Reference, create_if_absent, delete_if_present,
}
use Objects.{
  alert_rule_name, sync_loop_alert_rule_name, dashboard_namespace, dashboard_folder,
  operator_metrics_service_name, operator_metrics_monitor_name, read_role_name,
  read_role_binding_name, named, new_read_role, new_read_role_binding, new_service_monitor,
  new_prometheus_rule, new_sync_loop_prometheus_rule,
}

pub record DirEntry : Type 0 where
  pub name : String
  pub is_dir : Bool

-- os.ReadFile
pub data FileContent : Type 0 where
  content : String → FileContent
  no_such_file : FileContent
  unreadable : Error → FileContent

-- What the reconciler has beside the client: SetControllerReference for its scheme, the file with the
-- operator's namespace, the embedded dashboards, and argoutil.AddTrackedByOperatorLabel.
pub record Settings : Type 0 where
  pub reference : Reference
  pub namespace_file : FileContent
  pub dashboard_entries : Result (List DirEntry)
  pub dashboard_text : String → Result String
  pub track : ObjectMeta → ObjectMeta

abbrev pub cluster_monitoring_label : String
cluster_monitoring_label = "openshift.io/cluster-monitoring"

abbrev pub user_monitoring_label : String
user_monitoring_label = "openshift.io/user-monitoring"

unfoldable pub monitoring_label : String → String
monitoring_label namespace =
    if has_prefix namespace "openshift-" then cluster_monitoring_label else user_monitoring_label

unfoldable pub metrics_disabled : ArgoCdSpec → Bool
metrics_disabled spec = elim spec.disable_metrics [ none ↦ false | some b ↦ b ]

module _ (c : Settings) (argocd : String) where
  -- createReadRoleIfAbsent, createReadRoleBindingIfAbsent, createServiceMonitorIfAbsent
  unfoldable pub create_read_role_if_absent : String → Io (Unit {0})
  unfolding create_if_absent
  create_read_role_if_absent namespace =
      create_if_absent c.reference argocd Kind.role_kind (new_read_role namespace)

  unfoldable pub create_read_role_binding_if_absent : String → Io (Unit {0})
  unfolding create_if_absent
  create_read_role_binding_if_absent namespace =
      create_if_absent c.reference argocd Kind.role_binding_kind (new_read_role_binding namespace)

  unfoldable pub create_service_monitor_if_absent : String → String → String → Io (Unit {0})
  unfolding create_if_absent
  create_service_monitor_if_absent namespace name label =
      create_if_absent c.reference argocd Kind.service_monitor_kind
        (new_service_monitor namespace name label)

  unfoldable pub create_prometheus_rule_if_absent : Object Kind.prometheus_rule_kind → Io (Unit {0})
  unfolding create_if_absent
  create_prometheus_rule_if_absent rule =
      create_if_absent c.reference argocd Kind.prometheus_rule_kind rule

  unfoldable pub create_prometheus_rules_if_absent : String → Io (Unit {0})
  unfolding create_prometheus_rule_if_absent ◌>>=◌
  create_prometheus_rules_if_absent namespace = do
    create_prometheus_rule_if_absent (new_prometheus_rule namespace)
    create_prometheus_rule_if_absent (new_sync_loop_prometheus_rule namespace)

unfoldable pub delete_service_monitor : String → String → Io (Unit {0})
unfolding delete_if_present
delete_service_monitor name namespace =
    delete_if_present (λ e. e) Kind.service_monitor_kind
      (record { name = name; namespace = namespace })

-- newDashboardConfigMap
unfoldable pub new_dashboard_config_map :
    Settings → String → String → Result (Object Kind.config_map_kind)
new_dashboard_config_map c filename namespace =
    elim (c.dashboard_text (dashboard_folder ⧺ "/" ⧺ filename)) [
      | Result.err e ↦ Result.err e
      | Result.ok text ↦ Result.ok (record {
        meta = c.track (record (named (trim_suffix filename (file_ext filename)) namespace) {
          labels = some (("console.openshift.io/dashboard", "true") ∷ []);
        });
        body = some ((filename, text) ∷ []);
      })
    ]

-- one dashboard, after the Get of its ConfigMap; a failed write is only logged
abbrev pub install_dashboard :
    String → Object Kind.config_map_kind → Result (Object Kind.config_map_kind) → Program Unit
install_dashboard file dashboard (Result.ok existing) =
    if not (text_of (lookup existing.body file) == text_of (lookup dashboard.body file))
    then after (update_object Kind.config_map_kind dashboard) (λ _. Program.done tt)
    else Program.done tt
install_dashboard file dashboard (Result.err e) =
    if is_not_found e
    then after (create_object Kind.config_map_kind dashboard) (λ _. Program.done tt)
    else Program.done tt

abbrev pub process_dashboard : String → Result (Object Kind.config_map_kind) → Program Unit
process_dashboard file (Result.err _) = Program.done tt
process_dashboard file (Result.ok dashboard) =
    after
      (get_object Kind.config_map_kind
        (record { name = dashboard.meta.name; namespace = dashboard_namespace }))
      (install_dashboard file dashboard)

-- the body of the loop over the embedded files
abbrev pub process_entry : Settings → DirEntry → Program Unit
process_entry c entry =
    if entry.is_dir
    then Program.done tt
    else process_dashboard entry.name (new_dashboard_config_map c entry.name dashboard_namespace)

unfoldable pub process_entries : Settings → List DirEntry → Program Unit
unfolding after
process_entries c [] = Program.done tt
process_entries c (entry ∷ entries) = after (process_entry c entry) (λ _. process_entries c entries)

abbrev pub install_all : Settings → Result (List DirEntry) → Io (Unit {0})
install_all c (Result.err e) = throw e
install_all c (Result.ok entries) = after (process_entries c entries) (λ _. pure tt)

abbrev pub dashboards_in : Settings → Result (Object Kind.namespace_kind) → Io (Unit {0})
dashboards_in c (Result.err _) = pure tt
dashboards_in c (Result.ok _) = install_all c c.dashboard_entries

unfoldable pub reconcile_dashboards : Settings → Io (Unit {0})
unfolding after
reconcile_dashboards c =
    after (get_object Kind.namespace_kind (record { name = dashboard_namespace; namespace = "" }))
      (dashboards_in c)

-- `Endpoints[0].TLSConfig.ServerName` panics on no endpoint and on a nil TLSConfig
abbrev pub set_tls_name :
    String
    → Object Kind.service_monitor_kind
    → Endpoint
    → List Endpoint
    → Option TlsConfig
    → Io (Unit {0})
set_tls_name desired m endpoint rest none = Program.crash
set_tls_name desired m endpoint rest (some tls) =
    if same_text? tls.server_name (some desired)
    then pure tt
    else update_object Kind.service_monitor_kind (record {
      meta = m.meta;
      body = record m.body {
        endpoints =
            record endpoint { tls_config = some (record { server_name = some desired }) } ∷ rest;
      };
    })

abbrev pub set_server_name :
    String → Object Kind.service_monitor_kind → List Endpoint → Io (Unit {0})
set_server_name desired m [] = Program.crash
set_server_name desired m (endpoint ∷ rest) =
    set_tls_name desired m endpoint rest endpoint.tls_config

abbrev pub with_operator_monitor :
    String → Result (Object Kind.service_monitor_kind) → Io (Unit {0})
with_operator_monitor desired (Result.err e) = if not (is_not_found e) then throw e else pure tt
with_operator_monitor desired (Result.ok m) = set_server_name desired m m.body.endpoints

abbrev pub operator_monitor_key : String → NamespacedName
operator_monitor_key namespace = record {
  name = operator_metrics_monitor_name;
  namespace = namespace;
}

abbrev pub desired_server_name : String → String
desired_server_name namespace = operator_metrics_service_name ⧺ "." ⧺ namespace ⧺ ".svc"

abbrev pub with_namespace_file : FileContent → Io (Unit {0})
with_namespace_file no_such_file = pure tt
with_namespace_file (unreadable e) = throw e
with_namespace_file (content namespace) =
    after (get_object Kind.service_monitor_kind (operator_monitor_key namespace))
      (with_operator_monitor (desired_server_name namespace))

unfoldable pub reconcile_operator_metrics_service_monitor : Settings → Io (Unit {0})
unfolding after
reconcile_operator_metrics_service_monitor c = with_namespace_file c.namespace_file

-- `namespace.Labels[label] = value`
abbrev pub with_label : String → String → Object Kind.namespace_kind → Object Kind.namespace_kind
with_label label value ns = record {
  meta = record ns.meta { labels = some (put label value (made ns.meta.labels)) };
  body = ns.body;
}

-- the branch on which metrics are enabled
unfoldable pub enable_metrics :
    Settings → NamespacedName → Object Kind.namespace_kind → String → Io (Unit {0})
unfolding ◌>>=◌
enable_metrics c request ns argocd =
    let label = monitoring_label ns.meta.name in
    do
      if same_text? (lookup ns.meta.labels label) (some "true")
          then pure tt
          else update_object Kind.namespace_kind (with_label label "true" ns)
      create_read_role_if_absent c argocd request.namespace
      create_read_role_binding_if_absent c argocd request.namespace
      create_service_monitor_if_absent c argocd request.namespace request.name
          (request.name ⧺ "-metrics")
      create_service_monitor_if_absent c argocd request.namespace (request.name ⧺ "-server")
          (request.name ⧺ "-server-metrics")
      create_service_monitor_if_absent c argocd request.namespace (request.name ⧺ "-repo-server")
          (request.name ⧺ "-repo-server")
      create_prometheus_rules_if_absent c argocd request.namespace
      reconcile_dashboards c
      reconcile_operator_metrics_service_monitor c

-- the branch on which metrics are disabled and the namespace has the label
unfoldable pub disable_metrics : NamespacedName → Object Kind.namespace_kind → Io (Unit {0})
unfolding ◌>>=◌ delete_service_monitor
disable_metrics request ns = do
  update_object Kind.namespace_kind (with_label (monitoring_label ns.meta.name) "false" ns)
  delete_if_present (λ e. e) Kind.role_kind
      (record { name = read_role_name request.namespace; namespace = request.namespace })
  delete_if_present (λ e. e) Kind.role_binding_kind
      (record { name = read_role_binding_name request.namespace; namespace = request.namespace })
  delete_service_monitor request.name request.namespace
  delete_service_monitor (request.name ⧺ "-server") request.namespace
  delete_service_monitor (request.name ⧺ "-repo-server") request.namespace
  delete_if_present (λ e. e) Kind.prometheus_rule_kind
      (record { name = alert_rule_name; namespace = request.namespace })
  delete_if_present (λ e. e) Kind.prometheus_rule_kind
      (record { name = sync_loop_alert_rule_name; namespace = request.namespace })

abbrev pub with_argocd :
    Settings
    → NamespacedName
    → Object Kind.namespace_kind
    → Result (Object Kind.argo_cd_kind)
    → Io (Unit {0})
with_argocd c request ns (Result.err e) = if is_not_found e then pure tt else throw e
with_argocd c request ns (Result.ok argocd) =
    if not (metrics_disabled argocd.body)
    then enable_metrics c request ns argocd.meta.name
    else elim (lookup ns.meta.labels (monitoring_label ns.meta.name)) [
      | none ↦ pure tt
      | some _ ↦ disable_metrics request ns
    ]

abbrev pub with_namespace :
    Settings → NamespacedName → Result (Object Kind.namespace_kind) → Io (Unit {0})
with_namespace c request (Result.err e) = if is_not_found e then pure tt else throw e
with_namespace c request (Result.ok ns) =
    after (get_object Kind.argo_cd_kind request) (with_argocd c request ns)

unfoldable pub reconcile : Settings → NamespacedName → Io (Unit {0})
unfolding after
reconcile c request =
    after (get_object Kind.namespace_kind (record { name = request.namespace; namespace = "" }))
      (with_namespace c request)
