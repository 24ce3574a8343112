-- ===== src/Kube/Objects.antt =====
-- The Kubernetes and OpenShift types that the controllers build, with the fields that this
-- repository sets or reads. A pointer is an `Option`; a quantity and an enum are their texts.
use gitops_operator.Base.{ℕ, String, Bool, Option, List, StringMap}

-- types.NamespacedName; the namespace of a cluster-scoped object is empty
pub record NamespacedName : Type 0 where
  pub name : String
  pub namespace : String

-- metav1.ObjectMeta; `owner` is the controller reference
pub record ObjectMeta : Type 0 where
  pub name : String
  pub namespace : String
  pub labels : StringMap
  pub annotations : StringMap
  pub owner : Option String
  -- whether the deletion timestamp is set
  pub deleting : Bool

-- rbacv1
pub record PolicyRule : Type 0 where
  pub api_groups : List String
  pub resources : List String
  pub verbs : List String
  pub non_resource_urls : List String

pub record RoleRef : Type 0 where
  pub api_group : String
  pub kind : String
  pub name : String

pub record Subject : Type 0 where
  pub kind : String
  pub name : String
  pub namespace : String

pub record Binding : Type 0 where
  pub role_ref : RoleRef
  pub subjects : List Subject

-- monitoringv1
pub record TlsConfig : Type 0 where
  pub server_name : Option String

pub record Endpoint : Type 0 where
  pub port : String
  pub tls_config : Option TlsConfig

pub record MonitorSpec : Type 0 where
  pub match_labels : StringMap
  pub endpoints : List Endpoint

pub record AlertRule : Type 0 where
  pub recording : String
  pub alert : String
  pub expr : String
  pub for_duration : Option String
  pub labels : StringMap
  pub annotations : StringMap

pub record RuleGroup : Type 0 where
  pub name : String
  pub rules : List AlertRule

-- corev1
pub record EnvVar : Type 0 where
  pub name : String
  pub value : String

pub record ContainerPort : Type 0 where
  pub name : String
  pub protocol : String
  pub container_port : ℕ

pub record VolumeMount : Type 0 where
  pub name : String
  pub read_only : Bool
  pub mount_path : String
  pub sub_path : String

pub record Resources : Type 0 where
  pub requests : StringMap
  pub limits : StringMap

pub record Capabilities : Type 0 where
  pub add : List String
  pub drop : List String

pub record SecurityContext : Type 0 where
  pub capabilities : Option Capabilities
  pub run_as_non_root : Option Bool
  pub allow_privilege_escalation : Option Bool
  pub seccomp_profile : Option String

pub record Container : Type 0 where
  pub name : String
  pub image : String
  pub image_pull_policy : String
  pub command : List String
  pub args : List String
  pub env : List EnvVar
  pub ports : List ContainerPort
  pub volume_mounts : List VolumeMount
  pub resources : Resources
  pub security_context : Option SecurityContext
  pub termination_message_path : String
  pub termination_message_policy : String

pub data VolumeSource : Type 0 where
  secret_volume : String → Option ℕ → VolumeSource
  config_map_volume : String → Option ℕ → VolumeSource
  empty_dir : VolumeSource

pub record Volume : Type 0 where
  pub name : String
  pub source : VolumeSource

pub record Toleration : Type 0 where
  pub key : String
  pub operator : String
  pub value : String
  pub effect : String
  -- an int64 as its 64 bits
  pub toleration_seconds : Option ℕ

-- `pod_seccomp` is the pod's security context: none, or its seccomp profile: none, or its type
pub record PodSpec : Type 0 where
  pub containers : List Container
  pub init_containers : List Container
  pub volumes : List Volume
  pub node_selector : StringMap
  pub tolerations : List Toleration
  pub restart_policy : String
  pub dns_policy : String
  pub service_account_name : String
  pub pod_seccomp : Option (Option String)

-- appsv1: the spec of a Deployment with its pod template
pub record DeploymentSpec : Type 0 where
  pub replicas : Option ℕ
  pub selector : Option StringMap
  pub template_labels : StringMap
  pub template_annotations : StringMap
  pub pod : PodSpec

pub record ServicePort : Type 0 where
  pub name : String
  pub protocol : String
  pub port : ℕ
  pub target_port : ℕ

pub record ServiceSpec : Type 0 where
  pub selector : StringMap
  pub ports : List ServicePort

-- consolev1
pub record ConsoleLinkSpec : Type 0 where
  pub text : String
  pub href : String
  pub location : String
  pub section : String
  pub image_url : String

pub record PluginService : Type 0 where
  pub name : String
  pub namespace : String
  pub port : ℕ
  pub base_path : String

pub record ConsolePluginSpec : Type 0 where
  pub display_name : String
  pub backend_type : String
  pub service : Option PluginService
  pub load_type : String
