-- ===== src/Hook.antt =====
-- controllers/argocd/openshift/openshift.go: how OpenShift's hook changes the objects that
-- argocd-operator is about to write for an Argo CD instance.
pub mod Rules
pub mod Trust
pub mod Identity
pub mod Certificates
pub mod Lists
pub mod Namespaces
pub mod Examples
use gitops_operator.Base.{
  String, Bool, true, false, not, ◌||◌, Option, none, some, List, [], ◌∷◌, ◌++◌, map, if◌then◌else◌,
  ◌==◌, ◌⧺◌, contains, split, trim_space, StringMap, remove,
}
use gitops_operator.Kube.{
  NamespacedName, ObjectMeta, PolicyRule, Capabilities, SecurityContext, Container, PodSpec, Kind,
  Object, Result, ok, err, Program, crash, Io, pure, lift, ◌>>=◌, ◌>>◌,
}
use gitops_operator.Hook.Rules.{
  get_policy_rule_for_application_controller, policy_rules_for_cluster_config,
  get_args_for_redhat_redis, get_command_for_redhat_redis_ha_proxy,
  get_args_for_redhat_ha_redis_server, get_args_for_redhat_ha_redis_sentinel,
  get_args_for_redhat_ha_redis_init_container,
}
use gitops_operator.Hook.Trust.{Instance, update_system_ca_trust_building}

-- The objects by their Go type. `body` of a Secret is its data.
pub record StatefulSet : Type 0 where
  pub meta : ObjectMeta
  pub pod : PodSpec

pub record Secret : Type 0 where
  pub meta : ObjectMeta
  pub body : StringMap

pub data HookObject : Type 0 where
  cluster_role_object : Object Kind.cluster_role_kind → HookObject
  deployment_object : Object Kind.deployment_kind → HookObject
  stateful_set_object : StatefulSet → HookObject
  secret_object : Secret → HookObject
  role_object : Object Kind.role_kind → HookObject
  other_object : HookObject

-- What the hook has beside the object: GenerateUniqueResourceName and DefaultSecurityContext of
-- argocd-operator, semver.Compare(v, w) > 0, the variable ARGOCD_CLUSTER_CONFIG_NAMESPACES, the
-- outcome of initK8sClient, and that of the Get of the ClusterRole `admin`.
pub record HookSettings : Type 0 where
  pub generate_unique_resource_name : String → Instance → String
  pub default_security_context : SecurityContext
  pub newer : String → String → Bool
  pub cluster_config_namespaces : String
  pub init_k8s_client : Result (Unit {0})
  pub admin_rules : Result (List PolicyRule)

unfoldable pub split_list : String → List String
split_list s = map trim_space (split s b',')

abbrev pub allowed_among : String → List String → Bool
allowed_among current [] = false
allowed_among current (n ∷ namespaces) = n == "*" || contains (n ∷ namespaces) current

unfoldable pub allowed_namespace : String → String → Bool
unfolding split_list
allowed_namespace current namespaces = allowed_among current (split_list namespaces)

unfoldable pub hook_cluster_role :
    HookSettings → Instance → Object Kind.cluster_role_kind → Object Kind.cluster_role_kind
unfolding policy_rules_for_cluster_config
hook_cluster_role h cr o =
    if o.meta.name == h.generate_unique_resource_name "argocd-application-controller" cr
    then record { meta = o.meta; body = policy_rules_for_cluster_config }
    else o

abbrev pub with_containers :
    Object Kind.deployment_kind → List Container → Object Kind.deployment_kind
with_containers o containers = record {
  meta = o.meta;
  body = record o.body { pod = record o.body.pod { containers = containers } };
}

-- `Containers[0]` panics where there is none
abbrev pub hook_redis : Object Kind.deployment_kind → List Container → Io HookObject
hook_redis o [] = Program.crash
hook_redis o (c ∷ containers) = pure (
    HookObject.deployment_object
      (with_containers o (record c { args = get_args_for_redhat_redis ++ c.args } ∷ containers)))

abbrev pub net_bind_service : Capabilities → Capabilities
net_bind_service c = record c { add = "NET_BIND_SERVICE" ∷ [] }

abbrev pub add_capability : SecurityContext → Option Capabilities → Option SecurityContext
add_capability context none = none
add_capability context (some c) = some (record context { capabilities = some (net_bind_service c) })

-- the security context of the haproxy container; a nil pointer panics
abbrev pub haproxy_context : Bool → Option SecurityContext → Option SecurityContext
haproxy_context recent none = none
haproxy_context false (some context) = some (record context { capabilities = none })
haproxy_context true (some context) = add_capability context context.capabilities

abbrev pub hook_haproxy_container :
    Object Kind.deployment_kind
    → Container
    → List Container
    → Option SecurityContext
    → Io HookObject
hook_haproxy_container o c containers none = Program.crash
hook_haproxy_container o c containers (some context) = pure (
    HookObject.deployment_object (
      with_containers o (
        record c {
          command = get_command_for_redhat_redis_ha_proxy ++ c.command;
          security_context = some context;
        }
        ∷ containers)))

abbrev pub hook_haproxy :
    HookSettings → String → Object Kind.deployment_kind → List Container → Io HookObject
hook_haproxy h hint o [] = Program.crash
hook_haproxy h hint o (c ∷ containers) =
    hook_haproxy_container o c containers
      (haproxy_context (hint == "" || h.newer ("v" ⧺ hint) "v4.10.999") c.security_context)

abbrev pub hook_trust :
    HookSettings → Instance → Object Kind.deployment_kind → String → Option Bool → HookObject
hook_trust h cr o prod_image none = HookObject.deployment_object o
hook_trust h cr o prod_image (some drop) = HookObject.deployment_object (record {
  meta = o.meta;
  body = record o.body {
    pod = update_system_ca_trust_building h.default_security_context cr drop prod_image o.body.pod;
  };
})

abbrev pub hook_repo_server :
    HookSettings → Instance → Object Kind.deployment_kind → List Container → Io HookObject
hook_repo_server h cr o [] = Program.crash
hook_repo_server h cr o (c ∷ _) = pure (hook_trust h cr o c.image cr.system_ca_trust)

unfoldable pub hook_deployment :
    HookSettings → Instance → String → Object Kind.deployment_kind → Io HookObject
hook_deployment h cr hint o =
    if o.meta.name == cr.name ⧺ "-redis"
    then hook_redis o o.body.pod.containers
    else if o.meta.name == cr.name ⧺ "-redis-ha-haproxy"
    then hook_haproxy h hint o o.body.pod.containers
    else if o.meta.name == cr.name ⧺ "-repo-server"
    then hook_repo_server h cr o o.body.pod.containers
    else pure (HookObject.deployment_object o)

abbrev pub redis_ha_container : Container → Container
redis_ha_container c =
    if c.name == "redis"
    then record c { args = get_args_for_redhat_ha_redis_server; command = [] }
    else if c.name == "sentinel"
    then record c { args = get_args_for_redhat_ha_redis_sentinel; command = [] }
    else c

-- `InitContainers[0]` panics where there is none
abbrev pub hook_redis_ha : StatefulSet → List Container → Io HookObject
hook_redis_ha o [] = Program.crash
hook_redis_ha o (c ∷ containers) = pure (
    HookObject.stateful_set_object (record {
      meta = o.meta;
      pod = record o.pod {
        containers = map redis_ha_container o.pod.containers;
        init_containers =
            record c { args = get_args_for_redhat_ha_redis_init_container; command = [] }
            ∷ containers;
      };
    }))

unfoldable pub hook_stateful_set : Instance → StatefulSet → Io HookObject
hook_stateful_set cr o =
    if o.meta.name == cr.name ⧺ "-redis-ha-server"
    then hook_redis_ha o o.pod.init_containers
    else pure (HookObject.stateful_set_object o)

abbrev pub without_namespaces : StringMap → StringMap
without_namespaces none = none
without_namespaces (some m) = some (remove "namespaces" m)

unfoldable pub hook_secret : HookSettings → Instance → Secret → Secret
unfolding allowed_namespace remove
hook_secret h cr o =
    if allowed_namespace cr.namespace h.cluster_config_namespaces
    then record { meta = o.meta; body = without_namespaces o.body }
    else o

-- the rules of the application controller's Role: its own and those of the ClusterRole `admin`
unfoldable pub role_with_admin_rules : HookSettings → Object Kind.role_kind → Io HookObject
unfolding ◌>>=◌ get_policy_rule_for_application_controller
role_with_admin_rules h o = do
  _ ← lift h.init_k8s_client
  rules ← lift h.admin_rules
  pure (
      HookObject.role_object
        (record { meta = o.meta; body = get_policy_rule_for_application_controller ++ rules }))

unfoldable pub hook_role : HookSettings → Instance → Object Kind.role_kind → Io HookObject
unfolding role_with_admin_rules
hook_role h cr o =
    if o.meta.name == cr.name ⧺ "-" ⧺ "argocd-application-controller"
    then role_with_admin_rules h o
    else pure (HookObject.role_object o)

-- the object after the hook, or the error of the Kubernetes client
unfoldable pub reconciler_hook : HookSettings → Instance → HookObject → String → Io HookObject
unfolding hook_cluster_role hook_deployment hook_stateful_set hook_secret hook_role
reconciler_hook h cr (HookObject.cluster_role_object o) hint =
    pure (HookObject.cluster_role_object (hook_cluster_role h cr o))
reconciler_hook h cr (HookObject.deployment_object o) hint = hook_deployment h cr hint o
reconciler_hook h cr (HookObject.stateful_set_object o) hint = hook_stateful_set cr o
reconciler_hook h cr (HookObject.secret_object o) hint =
    pure (HookObject.secret_object (hook_secret h cr o))
reconciler_hook h cr (HookObject.role_object o) hint = hook_role h cr o
reconciler_hook h cr HookObject.other_object hint = pure HookObject.other_object

-- the predicate of the watch that BuilderHook adds
abbrev pub is_admin : String → Bool
is_admin name = name == "admin"

-- the requests for a ClusterRole of this name; the result of List is the instances
unfoldable pub admin_cluster_role_mapper :
    String → Result (List NamespacedName) → List NamespacedName
admin_cluster_role_mapper name (Result.err _) = []
admin_cluster_role_mapper name (Result.ok items) = if not (is_admin name) then [] else items
