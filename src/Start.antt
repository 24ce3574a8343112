-- ===== src/Start.antt =====
-- cmd/main.go: the steps of the process's start, in their order.
pub mod Order
pub mod Schemes
pub mod Examples
use gitops_operator.Base.{
  String, Bool, true, false, not, ◌&&◌, ◌||◌, List, [], ◌∷◌, ◌++◌, if◌then◌else◌, ◌==◌, has_prefix,
  to_lower,
}
use gitops_operator.Cluster.{Environment, ApiGroup, Flags}

pub data Scheme : Type 0 where
  console_scheme route_scheme monitoring_scheme operators_scheme operators_alpha_scheme : Scheme
  argo_cd_alpha_scheme argo_cd_beta_scheme promoter_scheme api_registration_scheme : Scheme
  config_scheme rollouts_scheme template_scheme apps_scheme oauth_scheme crd_scheme : Scheme

-- The controllers, `gitops_service` with whether the default install is disabled, `argo_rollouts` with
-- whether it is scoped to namespaces and with the location of its plugin.
pub data Controller : Type 0 where
  gitops_service : Bool → Controller
  argo_cd_route argo_cd_metrics argo_cd notifications : Controller
  argo_rollouts : Bool → String → Controller

-- The steps whose failure ends the process.
pub data Step : Type 0 where
  install_config bootstrap_client fetch_tls_profile new_manager live_client : Step
  watch_tls_profile conversion_webhook get_operator_namespace parse_selector : Step
  init_client add_health_check add_ready_check start_manager : Step
  register : Scheme → Step
  set_up : Controller → Step

-- What the process finds: the environment, the flags of InspectCluster, the command line's flag, and
-- two constants of argo-rollouts-manager.
pub record StartSettings : Type 0 where
  getenv : Environment
  flags : Flags
  disable_tls_flag : Bool
  default_plugin_url : String
  namespace_scoped_env : String

-- os.Exit(1) after the first step that fails
unfoldable pub run_steps : (Step → Bool) → List Step → List Step
run_steps succeeds [] = []
run_steps succeeds (x ∷ steps) =
    let rest = run_steps succeeds steps in x ∷ (if succeeds x then rest else [])

abbrev pub steps_if : Bool → List Step → List Step
steps_if true steps = steps
steps_if false steps = []

abbrev pub is_true : String → Bool
is_true s = to_lower s == "true"

unfoldable pub plugin_location : StartSettings → String
plugin_location c =
    if not (c.getenv "OPENSHIFT_ROUTE_PLUGIN_LOCATION" == "")
    then c.getenv "OPENSHIFT_ROUTE_PLUGIN_LOCATION"
    else if not (c.getenv "ARGO_ROLLOUTS_IMAGE" == "")
        && has_prefix (c.getenv "ARGO_ROLLOUTS_IMAGE") "registry.redhat.io/openshift-gitops"
    then "file:/plugins/rollouts-trafficrouter-openshift/openshift-route-plugin"
    else c.default_plugin_url

abbrev pub uses_tls_profile : StartSettings → Bool
uses_tls_profile c =
    c.flags ApiGroup.config_group
    && not (is_true (c.getenv "DISABLE_CLUSTER_TLS_PROFILE") || c.disable_tls_flag)

abbrev pub optimizes_memory : StartSettings → Bool
optimizes_memory c = not (to_lower (c.getenv "MEMORY_OPTIMIZATION_ENABLED") == "false")

unfoldable pub manager_steps : StartSettings → List Step
manager_steps c =
    steps_if (uses_tls_profile c)
      (Step.install_config ∷ Step.bootstrap_client ∷ Step.fetch_tls_profile ∷ [])
    ++ (Step.new_manager ∷ steps_if (optimizes_memory c) (Step.live_client ∷ [])
        ++ (steps_if (uses_tls_profile c) (Step.watch_tls_profile ∷ [])))

abbrev pub found_scheme : StartSettings → ApiGroup → Scheme → List Step
found_scheme c group scheme = steps_if (c.flags group) (Step.register scheme ∷ [])

unfoldable pub scheme_steps : StartSettings → List Step
scheme_steps c =
    found_scheme c ApiGroup.console_group Scheme.console_scheme
    ++ (found_scheme c ApiGroup.route_group Scheme.route_scheme
        ++ (found_scheme c ApiGroup.monitoring_group Scheme.monitoring_scheme
            ++ (steps_if (c.flags ApiGroup.olm_group) (
                  Step.register Scheme.operators_scheme
                  ∷ Step.register Scheme.operators_alpha_scheme
                  ∷ [])
                ++ (Step.register Scheme.argo_cd_alpha_scheme
                      ∷ Step.register Scheme.argo_cd_beta_scheme
                      ∷ Step.register Scheme.promoter_scheme
                      ∷ Step.register Scheme.api_registration_scheme
                      ∷ found_scheme c ApiGroup.config_group Scheme.config_scheme
                    ++ (Step.register Scheme.rollouts_scheme
                          ∷ found_scheme c ApiGroup.template_group Scheme.template_scheme
                        ++ (found_scheme c ApiGroup.apps_group Scheme.apps_scheme
                            ++ (found_scheme c ApiGroup.oauth_group Scheme.oauth_scheme
                                ++ (Step.register Scheme.crd_scheme ∷ []))))))))

-- one controller that needs an API of OpenShift or Prometheus
abbrev pub found_controller : StartSettings → ApiGroup → Controller → List Step
found_controller c group controller = steps_if (c.flags group) (Step.set_up controller ∷ [])

unfoldable pub controller_steps : StartSettings → List Step
unfolding plugin_location
controller_steps c =
    steps_if (is_true (c.getenv "ENABLE_CONVERSION_WEBHOOK")) (Step.conversion_webhook ∷ [])
    ++ (Step.get_operator_namespace
          ∷ found_controller c ApiGroup.config_group
              (Controller.gitops_service (is_true (c.getenv "DISABLE_DEFAULT_ARGOCD_INSTANCE")))
        ++ (found_controller c ApiGroup.route_group Controller.argo_cd_route
            ++ (found_controller c ApiGroup.monitoring_group Controller.argo_cd_metrics
                ++ (Step.parse_selector
                    ∷ Step.init_client
                    ∷ Step.set_up Controller.argo_cd
                    ∷ Step.set_up (
                        Controller.argo_rollouts (is_true (c.getenv c.namespace_scoped_env))
                          (plugin_location c))
                    ∷ Step.set_up Controller.notifications
                    ∷ Step.add_health_check
                    ∷ Step.add_ready_check
                    ∷ Step.start_manager
                    ∷ []))))

-- The steps that the process takes, the one that fails included.
unfoldable pub start : StartSettings → (Step → Bool) → List Step
unfolding run_steps manager_steps scheme_steps controller_steps
start c succeeds = run_steps succeeds (manager_steps c ++ (scheme_steps c ++ controller_steps c))
