-- ===== src/Cluster.antt =====
-- controllers/util/util.go: what the operator learns of the cluster that it runs in.
pub mod Apis
pub mod Examples
use mathlib.Core.Logic.{ite}
use gitops_operator.Base.{
  String, Bool, true, false, not, ◌||◌, Option, none, some, List, [], ◌∷◌, ◌++◌, if◌then◌else◌,
  ◌==◌, ◌⧺◌, contains, split, trim_space, to_lower,
}
use gitops_operator.Kube.{
  NamespacedName, EnvVar, SecurityContext, Container, PodSpec, Kind, Object, Error, wrapped,
  is_not_found, Result, ok, err, Program, done, crash, after, Io, pure, throw, get_object,
}

abbrev pub cluster_version_key : NamespacedName
cluster_version_key = record { name = "version"; namespace = "" }

abbrev pub version_in : Result (Object Kind.cluster_version_kind) → Io String
version_in (Result.ok v) = pure v.body
version_in (Result.err e) = if is_not_found e then pure "" else throw e

unfoldable pub get_cluster_version : Io String
unfolding after
get_cluster_version = after (get_object Kind.cluster_version_kind cluster_version_key) version_in

-- os.Getenv
abbrev pub Environment : Type 0
Environment = String → String

unfoldable pub case_insensitive_getenv : Environment → String → String × String
case_insensitive_getenv getenv s =
    if not (getenv s == "")
    then (s, getenv s)
    else if not (getenv (to_lower s) == "")
    then (to_lower s, getenv (to_lower s))
    else ("", "")

unfoldable pub add_to_no_proxy : String → String → String
add_to_no_proxy no_proxy entry =
    if no_proxy == ""
    then entry
    else if not (contains (split no_proxy b',') entry)
    then no_proxy ⧺ "," ⧺ entry
    else no_proxy

-- one turn of the loop over the proxy's variables
abbrev pub proxy_env_var : Environment → String → List EnvVar
proxy_env_var getenv p =
    let (k, v) = case_insensitive_getenv getenv p in
    if not (k == "")
    then record {
      name = k;
      value = if p == "NO_PROXY" then add_to_no_proxy v ".cluster.local." else v;
    }
      ∷ []
    else []

abbrev pub add_proxy_env_vars : Environment → List String → List EnvVar → List EnvVar
add_proxy_env_vars getenv [] result = result
add_proxy_env_vars getenv (p ∷ keys) result =
    add_proxy_env_vars getenv keys (result ++ proxy_env_var getenv p)

unfoldable pub proxy_env_vars : Environment → List EnvVar → List EnvVar
proxy_env_vars getenv vars =
    add_proxy_env_vars getenv ("HTTP_PROXY" ∷ "HTTPS_PROXY" ∷ "NO_PROXY" ∷ []) vars

abbrev pub runtime_default : String
runtime_default = "RuntimeDefault"

-- the pod's profile; an empty type counts as none
abbrev pub seccomp_or_default : Option (Option String) → Option (Option String)
seccomp_or_default (some (some t)) = if t == "" then some (some runtime_default) else some (some t)
seccomp_or_default _ = some (some runtime_default)

abbrev pub restricted_security_context : SecurityContext
restricted_security_context = record {
  capabilities = some (record { add = []; drop = "ALL" ∷ [] });
  run_as_non_root = some true;
  allow_privilege_escalation = some false;
  seccomp_profile = some runtime_default;
}

abbrev pub security_context_or : SecurityContext → Container → Container
security_context_or context c = elim c.security_context [
  | none ↦ record c { security_context = some context }
  | some _ ↦ c
]

-- `podspec.Containers[0]` panics where there is none
abbrev pub restrict_first : PodSpec → List Container → Program PodSpec
restrict_first pod [] = Program.crash
restrict_first pod (c ∷ containers) = Program.done (record pod {
  containers = security_context_or restricted_security_context c ∷ containers;
  pod_seccomp = seccomp_or_default pod.pod_seccomp;
})

-- `version, _ := GetClusterVersion(client)`
abbrev pub version_or_empty : Result String → String
version_or_empty (Result.ok v) = v
version_or_empty (Result.err _) = ""

-- `newer v w` is semver.Compare(v, w) > 0
unfoldable pub add_seccomp_profile_for_openshift :
    (String → String → Bool) → PodSpec → Program PodSpec
unfolding get_cluster_version after
add_seccomp_profile_for_openshift newer pod = after get_cluster_version (λ r.
    if version_or_empty r == "" || newer ("v" ⧺ version_or_empty r) "v4.10.999"
    then restrict_first pod pod.containers
    else Program.done pod)

-- the file with the operator's namespace
pub data NamespaceFile : Type 0 where
  namespace_text : String → NamespaceFile
  no_file : NamespaceFile
  read_failure : Error → NamespaceFile

abbrev pub default_operator_namespace : String
default_operator_namespace = "openshift-gitops-operator"

unfoldable pub get_operator_namespace : NamespaceFile → Result String
get_operator_namespace (namespace_text text) = Result.ok (trim_space text)
get_operator_namespace no_file = Result.ok default_operator_namespace
get_operator_namespace (read_failure e) =
    Result.err (Error.wrapped "error retrieving operator namespace" e)

-- the optional API groups, each with a flag
pub data ApiGroup : Type 0 where
  olm_group monitoring_group route_group config_group : ApiGroup
  console_group template_group apps_group oauth_group : ApiGroup

unfoldable pub ApiGroup-discrete : Discrete ApiGroup
ApiGroup-discrete = hlevel

abbrev pub Flags : Type 0
Flags = ApiGroup → Bool

-- verifyAPI, for the group and version of each
abbrev pub Probe : Type 0
Probe = ApiGroup → Result Bool

abbrev pub same_group : ApiGroup → ApiGroup → Bool
same_group g h = ite (ApiGroup-discrete g h) true false

abbrev pub set_flag : ApiGroup → Bool → Flags → Flags
set_flag g found flags h = if same_group g h then found else flags h

-- verifyConfigAPI and its seven siblings: the flag, and the error if there is one
abbrev pub verify : ApiGroup → Result Bool → Flags → Flags × List Error
verify g (Result.ok found) flags = (set_flag g found flags, [])
verify g (Result.err e) flags = (flags, e ∷ [])

-- a sequence of them
unfoldable pub verify_each : Probe → List ApiGroup → Flags → Flags × List Error
verify_each probe [] flags = (flags, [])
verify_each probe (g ∷ groups) flags =
    let (first, errors) = verify g (probe g) flags in
    let (last, more) = verify_each probe groups first in (last, errors ++ more)

abbrev pub basic_groups : List ApiGroup
basic_groups = ApiGroup.olm_group ∷ ApiGroup.monitoring_group ∷ ApiGroup.route_group ∷ []

abbrev pub openshift_groups : List ApiGroup
openshift_groups =
    ApiGroup.console_group ∷ ApiGroup.template_group ∷ ApiGroup.apps_group ∷ ApiGroup.oauth_group
    ∷ []

-- InspectCluster from the check of config.openshift.io
abbrev pub inspect_config : Probe → Flags → List Error → Result Bool → Flags × List Error
inspect_config probe flags errors (Result.err e) = (flags, errors ++ e ∷ [])
inspect_config probe flags errors (Result.ok found) =
    let known = set_flag ApiGroup.config_group found flags in
    let (last, more) = verify_each probe openshift_groups known in
    if not (known ApiGroup.config_group) then (known, errors) else (last, errors ++ more)

-- The list is what errors.Join joins: the result is nil where it is empty.
unfoldable pub inspect_cluster : Probe → Flags → Flags × List Error
inspect_cluster probe flags =
    let (basic, errors) = verify_each probe basic_groups flags in
    inspect_config probe basic errors (probe ApiGroup.config_group)
