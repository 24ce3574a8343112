-- ===== src/Service/Reconcile.antt =====
-- Reconcile of controllers/gitopsservice_controller.go, which composes the steps.
use gitops_operator.Base.{String, Bool, not, if◌then◌else◌, ◌==◌}
use gitops_operator.Kube.{
  NamespacedName, ArgoCdSpec, Kind, Object, Error, is_not_found, Result, after, Io, pure, throw,
  ◌>>=◌, ◌>>◌, get_object, create_object,
}
use gitops_operator.Cluster.{get_cluster_version}
use gitops_operator.DefaultCr.{Facts}
use gitops_operator.Service.Namespaces.{
  Namespace, new_restricted_namespace, ensure_infra_node_selector_annotation,
  ensure_namespace_metadata,
}
use gitops_operator.Service.Objects.{service_name}
use gitops_operator.Service.Backend.{reconcile_backend, cleanup_backend_resources}
use gitops_operator.Service.Default.{update_if, reconcile_default_argocd_instance}
use gitops_operator.Service.Instance.{
  clean_kam_resources, ensure_default_argocd_instance_doesnt_exist, get_backend_namespace,
}
use gitops_operator.Plugin.Objects.{PluginSettings}
use gitops_operator.Plugin.Old.{cleanup_old_plugin_resources}
use gitops_operator.Plugin.Reconcile.{reconcile_plugin}

-- What Reconcile has beside the plugin's settings: the facts and the test that `new_cr` and the
-- default instance take, DISABLE_DEFAULT_ARGOCD_INSTANCE, whether the Route API was found, and
-- NewVersion and LessThan of hashicorp/go-version.
pub record ServiceSettings : Type 1 where
  pub plugin : PluginSettings
  pub facts : Facts
  pub use_dex : ArgoCdSpec → Bool
  pub disable_default_install : Bool
  pub route_api_found : Bool
  pub Version : Type 0
  pub new_version : String → Result Version
  pub less_than : Version → Version → Bool

abbrev pub GitopsService : Type 0
GitopsService = Object Kind.gitops_service_kind

abbrev pub default_dynamic_plugin_start_ocp_version : String
default_dynamic_plugin_start_ocp_version = "4.18.0"

abbrev pub plugin_pf6_min_ocp_version : String
plugin_pf6_min_ocp_version = "4.19.0"

unfoldable pub dynamic_plugin_start_ocp_version : ServiceSettings → String
dynamic_plugin_start_ocp_version c =
    let v = c.plugin.service.getenv "DYNAMIC_PLUGIN_START_OCP_VERSION" in
    if v == "" then default_dynamic_plugin_start_ocp_version else v

-- A version that cannot be read ends the reconcile without an error.
abbrev pub with_version :
    (c : ServiceSettings) → Result c.Version → (c.Version → Io (Unit {0})) → Io (Unit {0})
with_version c (Result.ok v) f = f v
with_version c (Result.err _) f = pure tt

-- the plugin for a cluster of this version
unfoldable pub reconcile_plugin_for : ServiceSettings → GitopsService → String → Io (Unit {0})
unfolding dynamic_plugin_start_ocp_version reconcile_plugin
reconcile_plugin_for c service version = with_version c (c.new_version version) (λ cluster.
    with_version c (c.new_version (dynamic_plugin_start_ocp_version c)) (λ min.
      if c.less_than cluster min
      then pure tt
      else with_version c (c.new_version plugin_pf6_min_ocp_version)
          (λ pf6. reconcile_plugin c.plugin service (c.less_than cluster pf6))))

abbrev pub plugin_step_of : ServiceSettings → GitopsService → Result String → Io (Unit {0})
plugin_step_of c service (Result.ok version) = reconcile_plugin_for c service version
plugin_step_of c service (Result.err _) = pure tt

unfoldable pub plugin_step : ServiceSettings → GitopsService → Io (Unit {0})
unfolding after get_cluster_version reconcile_plugin_for
plugin_step c service = after get_cluster_version (plugin_step_of c service)

-- after the Get of the backend's namespace
abbrev pub backend_namespace_of : String → Bool → Result Namespace → Io (Unit {0})
backend_namespace_of name run_on_infra (Result.ok ns) =
    update_if (ensure_namespace_metadata ns run_on_infra)
backend_namespace_of name run_on_infra (Result.err e) =
    if is_not_found e
    then create_object Kind.namespace_kind
        (ensure_infra_node_selector_annotation (new_restricted_namespace name) run_on_infra).1
    else throw e

-- `fmt.Errorf(text + ": %v", err)`
abbrev pub format_error : String → Result (Unit {0}) → Io (Unit {0})
format_error text (Result.ok _) = pure tt
format_error text (Result.err e) = throw (Error.formatted text e)

unfoldable pub install_default : ServiceSettings → GitopsService → NamespacedName → Io (Unit {0})
unfolding after ◌>>=◌ reconcile_default_argocd_instance reconcile_backend new_restricted_namespace
    ensure_infra_node_selector_annotation ensure_namespace_metadata
install_default c service ns = do
  after (get_object Kind.namespace_kind (record { name = ns.namespace; namespace = "" }))
      (backend_namespace_of ns.namespace service.body.run_on_infra)
  after (reconcile_default_argocd_instance c.plugin.service c.facts c.use_dex service)
      (format_error "unable to reconcile default Argo CD instance")
  reconcile_backend c.plugin.service ns service

unfoldable pub remove_default : ServiceSettings → NamespacedName → Io (Unit {0})
unfolding after ◌>>=◌ ensure_default_argocd_instance_doesnt_exist cleanup_backend_resources
remove_default c ns = do
  after (ensure_default_argocd_instance_doesnt_exist c.facts)
      (format_error "unable to ensure non-existence of default Argo CD instance")
  cleanup_backend_resources ns

abbrev pub backend_name : String → NamespacedName
backend_name namespace = record { name = service_name; namespace = namespace }

unfoldable pub default_step : ServiceSettings → GitopsService → NamespacedName → Io (Unit {0})
unfolding install_default remove_default
default_step c service ns =
    if not c.disable_default_install then install_default c service ns else remove_default c ns

-- the steps for a backend in this namespace; errors of the two cleanups are logged
unfoldable pub reconcile_in : ServiceSettings → GitopsService → String → Io (Unit {0})
unfolding after ◌>>=◌ clean_kam_resources cleanup_old_plugin_resources default_step plugin_step
reconcile_in c service namespace = after (clean_kam_resources c.route_api_found) (λ _.
    after (cleanup_old_plugin_resources c.plugin.plugin_namespace)
      (λ _. default_step c service (backend_name namespace) >> plugin_step c service))

abbrev pub service_key : NamespacedName
service_key = record { name = service_name; namespace = "" }

abbrev pub reconcile_service_of : ServiceSettings → Result GitopsService → Io (Unit {0})
reconcile_service_of c (Result.ok service) = do
  namespace ← get_backend_namespace
  reconcile_in c service namespace
reconcile_service_of c (Result.err e) = if is_not_found e then pure tt else throw e

unfoldable pub reconcile : ServiceSettings → Io (Unit {0})
unfolding after
reconcile c = after (get_object Kind.gitops_service_kind service_key) (reconcile_service_of c)
