-- ===== src/Service/Examples.antt =====
-- Runs of the GitopsService's reconciler.
use mathlib.Core.Option.{none-ne-some}
use gitops_operator.Base.{
  String, ◌≡◌, refl, sym, true, false, none, some, [], ◌∷◌, if◌then◌else◌, All, ◌==◌, lookup,
}
use gitops_operator.Kube.{
  NamespacedName, Kind, key_of, Result, ◌>>◌, View, Frame, Unchanged, same_name, Settles, Only,
  Guards, Gone,
}
use gitops_operator.Kube.Memory.{memory}
use gitops_operator.DefaultCr.{Facts}
use gitops_operator.Service.Namespaces.{
  Namespace, pod_security_label, pod_security_value, infra_annotation, ensure_namespace_metadata,
}
use gitops_operator.Service.Labels.{
  selector_after, ensure_namespace_metadata-lookup, ensure_namespace_metadata-twice,
}
use gitops_operator.Service.Objects.{Settings, meta_of}
use gitops_operator.Service.Backend.{reconcile_backend, cleanup_backend_resources}
use gitops_operator.Service.Cleanup.{backend_targets, Spared, cleanup_backend_resources-Settles}
use gitops_operator.Service.Steps.{BackendProvided}
use gitops_operator.Service.Restore.{
  reconcile_backend-Settles, cleanup_backend_resources-reconcile_backend,
}
use gitops_operator.Service.Instance.{
  new_gitops_service, ensure_default_argocd_instance_doesnt_exist, clean_kam_resources,
}
use gitops_operator.Service.Absence.{
  Leaves, instance_key, namespace_of_instance, IsKamCall, clean_kam_resources-Only,
  ensure_default_argocd_instance_doesnt_exist-Settles,
}

-- a namespace with the selector of infrastructure nodes
abbrev infra_namespace : Namespace
infra_namespace = record {
  meta = record (meta_of "openshift-gitops" "") {
    annotations = some (("openshift.io/node-selector", "node-role.kubernetes.io/infra=") ∷ []);
  };
  body = tt;
}

ensure_namespace_metadata-lookup_example :
    ((k : String)
      → lookup (ensure_namespace_metadata infra_namespace false).1.meta.labels k ≡ (
          if pod_security_label == k
          then some pod_security_value
          else lookup infra_namespace.meta.labels k))
    × ((k : String)
        → lookup (ensure_namespace_metadata infra_namespace false).1.meta.annotations k ≡ (
            if infra_annotation == k
            then selector_after false (lookup infra_namespace.meta.annotations infra_annotation)
            else lookup infra_namespace.meta.annotations k))
    × (key_of (ensure_namespace_metadata infra_namespace false).1.meta
        ≡ key_of infra_namespace.meta)
ensure_namespace_metadata-lookup_example = ensure_namespace_metadata-lookup infra_namespace false

ensure_namespace_metadata-twice_example :
    (ensure_namespace_metadata (ensure_namespace_metadata infra_namespace false).1 false).0 ≡ false
ensure_namespace_metadata-twice_example = ensure_namespace_metadata-twice infra_namespace false

abbrev settings : Settings
settings = record {
  getenv = λ _. "";
  reference = λ owner m. Result.ok (record m { owner = some owner });
  append_string_map = λ m n. n;
  default_node_selector = some (("kubernetes.io/os", "linux") ∷ []);
  get_image_pull_policy = λ p. p;
  tls_protocol_version_string = λ v. v;
  map_cipher_suites = λ ciphers. ciphers;
  map_groups_to_curves = λ groups. Result.ok "";
  tls_profile = record { min_version = "1.2"; ciphers = []; curve_preferences = [] };
  tls_13 = "VersionTLS13";
  newer = λ v w. false;
}

abbrev backend_name : NamespacedName
backend_name = record { name = "cluster"; namespace = "openshift-gitops" }

abbrev empty_cluster : View
empty_cluster k n = none

-- a cluster with the default instance and its namespace
abbrev default_cluster : View
default_cluster Kind.namespace_kind n =
    if same_name namespace_of_instance n then some infra_namespace else none
default_cluster _ n = none

cleanup_backend_resources-Settles_example :
    Settles memory (cleanup_backend_resources backend_name) default_cluster (λ _ w'.
      All (Gone (memory.view w')) (backend_targets backend_name)
      × Guards (Spared backend_name) (memory.view default_cluster) (memory.view w'))
cleanup_backend_resources-Settles_example =
    cleanup_backend_resources-Settles memory backend_name default_cluster

reconcile_backend-Settles_example :
    Settles memory
      (reconcile_backend settings backend_name new_gitops_service)
      empty_cluster
      (λ _ w'. BackendProvided memory settings (λ owner m e. refl) backend_name empty_cluster w')
reconcile_backend-Settles_example =
    reconcile_backend-Settles memory settings (λ owner m e. refl) backend_name new_gitops_service ""
      empty_cluster refl tt

cleanup_backend_resources-reconcile_backend_example :
    Settles memory
      (reconcile_backend settings backend_name new_gitops_service
        >> cleanup_backend_resources backend_name)
      default_cluster
      (λ _ w'. Unchanged (memory.view default_cluster) (memory.view w'))
cleanup_backend_resources-reconcile_backend_example =
    cleanup_backend_resources-reconcile_backend memory settings (λ owner m e. refl) backend_name
      new_gitops_service "" default_cluster refl (refl, (refl, (refl, (refl, (refl, tt)))))

abbrev facts : Facts
facts = record {
  is_openshift_cluster = true;
  external_authentication = false;
  marshal = λ exclusions. Result.ok "exclusions";
}

ensure_default_argocd_instance_doesnt_exist-Settles_example :
    Settles memory (ensure_default_argocd_instance_doesnt_exist facts) default_cluster (λ _ w'.
      Leaves (memory.view w' Kind.argo_cd_kind instance_key)
      × Frame Kind.argo_cd_kind instance_key (memory.view default_cluster) (memory.view w'))
ensure_default_argocd_instance_doesnt_exist-Settles_example =
    ensure_default_argocd_instance_doesnt_exist-Settles memory facts "exclusions" default_cluster
      refl (λ e. none-ne-some infra_namespace (sym e))

clean_kam_resources-Only_example : Only (IsKamCall true) (clean_kam_resources true)
clean_kam_resources-Only_example = clean_kam_resources-Only true
