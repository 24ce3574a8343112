-- ===== src/Service/Removal.antt =====
-- Where the backend is, and the removal of the default instance and of the backend, in
-- controllers/gitopsservice_controller.go.
use gitops_operator.Base.{
  String, ◌≡◌, refl, sym, ap, subst, ◌≢◌, Option, none, some, if◌then◌else◌, All, has_prefix,
}
use gitops_operator.Kube.{
  Kind, Kind-discrete, Object, is_not_found, Result, after, pure, or_return, ◌>>=◌, Server, View,
  Unchanged, OrFault, Settles, Settles-mono, Settles-step, Ensures-get, Gone,
}
use gitops_operator.Cluster.{get_cluster_version, version_in, cluster_version_key}
use gitops_operator.DefaultCr.{resource_exclusions}
use gitops_operator.Service.Objects.{service_namespace, deprecated_service_namespace}
use gitops_operator.Service.Backend.{cleanup_backend_resources}
use gitops_operator.Service.Instance.{
  ensure_default_argocd_instance_doesnt_exist, get_backend_namespace,
}
use gitops_operator.Service.Absence.{
  instance_key, namespace_of_instance, Leaves, ensure_default_argocd_instance_doesnt_exist-Settles,
}
use gitops_operator.Service.Cleanup.{backend_targets, Spared, cleanup_backend_resources-Settles}
use gitops_operator.Service.Reconcile.{ServiceSettings, format_error, remove_default, backend_name}
use gitops_operator.Service.Kept.{format_error-Settles}

-- The namespace of the backend: clusters of version 4.6 keep the deprecated one.
abbrev home_of : Option (Object Kind.cluster_version_kind) → String
home_of none = "openshift-gitops"
home_of (some o) =
    if has_prefix o.body "4.6" then "openshift-pipelines-app-delivery" else "openshift-gitops"

abbrev pub backend_home : View → String
backend_home v = home_of (v Kind.cluster_version_kind (record { name = "version"; namespace = "" }))

-- The default instance is not there or marked for deletion, and no object of the backend is there.
abbrev pub NoDefault : String → View → Type 0
NoDefault namespace v =
    Leaves (v Kind.argo_cd_kind instance_key)
    × All (Gone v) (backend_targets (backend_name namespace))

instance_Spared :
    (namespace : String) → Spared (backend_name namespace) Kind.argo_cd_kind instance_key
unfolding Kind-discrete
instance_Spared namespace = (refl, (refl, (refl, (refl, (refl, tt)))))

pub backend_home-Unchanged : (v v' : View) → Unchanged v v' → backend_home v' ≡ backend_home v
backend_home-Unchanged v v' u = ap home_of (u Kind.cluster_version_kind _)

module _ (s : Server) where
  open s use {World, view}

  pub get_backend_namespace-Settles :
      (w : World)
      → Settles s get_backend_namespace w
          (λ ns w'. (ns ≡ backend_home (view w)) × Unchanged (view w) (view w'))
  unfolding get_backend_namespace get_cluster_version after ◌>>=◌ is_not_found
  get_backend_namespace-Settles w =
      Ensures-get s
        (OrFault s (λ ns w'. (ns ≡ backend_home (view w)) × Unchanged (view w) (view w')))
        Kind.cluster_version_kind cluster_version_key
        (λ r. after (version_in r) (
          or_return (λ version. pure (
            if has_prefix version "4.6" then deprecated_service_namespace else service_namespace))))
        w (λ o w' e u. (ap home_of (sym e), u)) (λ w' e u. (ap home_of (sym e), u))
        (λ e w' n u f. rw n f)

  module _ (c : ServiceSettings) (exclusions : String)
      (marshal : c.facts.marshal resource_exclusions ≡ Result.ok exclusions) where
    pub remove_default-Settles :
        (namespace : String) (w : World)
        → view w Kind.namespace_kind namespace_of_instance ≢ none
        → Settles s
            (remove_default c (backend_name namespace))
            w
            (λ _ w'. NoDefault namespace (view w'))
    unfolding remove_default
    remove_default-Settles namespace w there =
        Settles-step s
          (after (ensure_default_argocd_instance_doesnt_exist c.facts)
            (format_error "unable to ensure non-existence of default Argo CD instance"))
          (λ _. cleanup_backend_resources (backend_name namespace)) w
          (λ _ w'. Leaves (view w' Kind.argo_cd_kind instance_key))
          (λ _ w'. NoDefault namespace (view w'))
          (format_error-Settles s "unable to ensure non-existence of default Argo CD instance"
            (ensure_default_argocd_instance_doesnt_exist c.facts) w
            (λ w'. Leaves (view w' Kind.argo_cd_kind instance_key))
            (Settles-mono s (ensure_default_argocd_instance_doesnt_exist c.facts) w _ _
              (ensure_default_argocd_instance_doesnt_exist-Settles s c.facts exclusions w marshal
                there)
              (λ _ w' q. q.0)))
          (λ _ w₁ gone.
            Settles-mono s (cleanup_backend_resources (backend_name namespace)) w₁ _ _
              (cleanup_backend_resources-Settles s (backend_name namespace) w₁)
              (λ _ w' q. (
                subst Leaves (sym (q.1 Kind.argo_cd_kind instance_key (instance_Spared namespace)))
                    gone,
                q.0,
              )))
