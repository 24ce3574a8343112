-- ===== src/Service/Instance.antt =====
-- The default Argo CD instance: its removal, and the removal of what KAM left.
use gitops_operator.Base.{String, Bool, false, not, none, [], if◌then◌else◌, has_prefix}
use gitops_operator.Kube.{
  NamespacedName, Kind, Object, key_of, is_not_found, Result, Program, after, Io, pure, throw,
  ◌>>=◌, get_object, delete_object,
}
use gitops_operator.Service.Objects.{service_namespace, deprecated_service_namespace, service_name}
use gitops_operator.DefaultCr.{Facts, new_cr}
use gitops_operator.Cluster.{get_cluster_version}

abbrev pub argocd_instance_name : String
argocd_instance_name = "openshift-gitops"

abbrev pub kam_resource_name : String
kam_resource_name = "kam"

-- after the Get of the instance
abbrev pub delete_instance : NamespacedName → Result (Object Kind.argo_cd_kind) → Io (Unit {0})
delete_instance n (Result.ok _) = delete_object Kind.argo_cd_kind n
delete_instance n (Result.err e) = if not (is_not_found e) then throw e else pure tt

-- after the Get of its namespace
abbrev pub instance_in : NamespacedName → Result (Object Kind.namespace_kind) → Io (Unit {0})
instance_in n (Result.ok _) = after (get_object Kind.argo_cd_kind n) (delete_instance n)
instance_in n (Result.err e) = if is_not_found e then pure tt else throw e

abbrev pub remove_instance : Result (Object Kind.argo_cd_kind) → Io (Unit {0})
remove_instance (Result.err e) = throw e
remove_instance (Result.ok cr) =
    after (get_object Kind.namespace_kind (record { name = cr.meta.namespace; namespace = "" }))
      (instance_in (key_of cr.meta))

unfoldable pub ensure_default_argocd_instance_doesnt_exist : Facts → Io (Unit {0})
unfolding after
ensure_default_argocd_instance_doesnt_exist facts =
    remove_instance (new_cr facts argocd_instance_name service_namespace)

abbrev pub kam_key : NamespacedName
kam_key = record { name = kam_resource_name; namespace = service_namespace }

-- Errors are only logged.
abbrev pub delete_kam_found : {k : Kind} → Result (Object k) → Program (Unit {0})
delete_kam_found {k} (Result.ok _) = after (delete_object k kam_key) (λ _. Program.done tt)
delete_kam_found (Result.err _) = Program.done tt

unfoldable pub delete_kam : Kind → Program (Unit {0})
unfolding after
delete_kam k = after (get_object k kam_key) delete_kam_found

unfoldable pub clean_kam_resources : Bool → Program (Unit {0})
unfolding after delete_kam
clean_kam_resources route_api_found = after (delete_kam Kind.deployment_kind) (λ _.
    after (delete_kam Kind.service_kind)
      (λ _. if route_api_found then delete_kam Kind.route_kind else Program.done tt))

unfoldable pub get_backend_namespace : Io String
unfolding ◌>>=◌ get_cluster_version
get_backend_namespace = do
  version ← get_cluster_version
  pure (if has_prefix version "4.6" then deprecated_service_namespace else service_namespace)

unfoldable pub new_gitops_service : Object Kind.gitops_service_kind
new_gitops_service = record {
  meta = record {
    name = service_name;
    namespace = "";
    labels = none;
    annotations = none;
    owner = none;
    deleting = false;
  };
  body = record {
    run_on_infra = false;
    tolerations = [];
    node_selector = none;
    console_plugin = none;
    image_pull_policy = "";
  };
}
