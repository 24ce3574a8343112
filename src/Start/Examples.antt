-- ===== src/Start/Examples.antt =====
-- A start on a cluster with all its APIs.
use gitops_operator.Base.{Bool, true, false}
use gitops_operator.Start.{Step, StartSettings}

abbrev openshift : StartSettings
openshift = record {
  getenv = λ name. "";
  flags = λ group. true;
  disable_tls_flag = false;
  default_plugin_url = "https://github.com/openshift-route-plugin";
  namespace_scoped_env = "NAMESPACE_SCOPED_ARGO_ROLLOUTS";
}

abbrev no_client : Step → Bool
no_client Step.init_client = false
no_client _ = true
