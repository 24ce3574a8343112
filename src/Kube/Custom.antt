-- ===== src/Kube/Custom.antt =====
-- The two custom resources: GitopsService (api/v1alpha1/gitopsservice_types.go) and the part of
-- Argo CD's that this repository sets or reads.
use gitops_operator.Base.{String, Bool, Option, List, StringMap}
use gitops_operator.Kube.Objects.{Resources, Toleration}

pub record BackendStruct : Type 0 where
  pub resources : Option Resources

pub record GitopsPluginStruct : Type 0 where
  pub resources : Option Resources

pub record ConsolePluginStruct : Type 0 where
  pub backend : Option BackendStruct
  pub gitops_plugin : Option GitopsPluginStruct

pub record GitopsServiceSpec : Type 0 where
  pub run_on_infra : Bool
  pub tolerations : List Toleration
  pub node_selector : StringMap
  pub console_plugin : Option ConsolePluginStruct
  pub image_pull_policy : String

pub record DexSpec : Type 0 where
  pub openshift_oauth : Bool
  pub resources : Option Resources

pub record SsoSpec : Type 0 where
  pub provider : String
  pub dex : Option DexSpec

pub record NodePlacement : Type 0 where
  pub node_selector : StringMap
  pub tolerations : List Toleration

pub record Rbac : Type 0 where
  pub policy : Option String
  pub scopes : Option String
  pub default_policy : Option String

-- argoapp.ArgoCDSpec. `application_set` is the resources of its section, if there is one;
-- `controller` to `server` are the resources of theirs.
pub record ArgoCdSpec : Type 0 where
  pub application_set : Option (Option Resources)
  pub controller : Option Resources
  pub sso : Option SsoSpec
  pub grafana : Option Resources
  pub ha : Option Resources
  pub ha_enabled : Bool
  pub redis : Option Resources
  pub repo : Option Resources
  pub server : Option Resources
  pub server_route : Bool
  pub rbac : Rbac
  pub resource_exclusions : String
  pub node_placement : Option NodePlacement
  pub disable_metrics : Option Bool
