-- ===== src/Service/Safety.antt =====
-- What Reconcile never does, whatever the API server replies.
use gitops_operator.Base.{String, ◌≡◌, refl, inl, inr, Bool, true, false, not, if◌then◌else◌, ◌==◌}
use gitops_operator.Kube.{
  Kind, Kind-discrete, Object, key_of, is_not_found, is_already_exists, Result, Call, Program,
  after, same_kind, Only, Only-bind, Reference, MayAmend, create_or_amend-Only,
  delete_if_present-Only, Only-mono, Wanted, amend_one,
}
use gitops_operator.Cluster.{get_cluster_version, version_in}
use gitops_operator.Service.Objects.{service_namespace}
use gitops_operator.Service.Instance.{clean_kam_resources, get_backend_namespace}
use gitops_operator.Service.Absence.{IsKamCall, clean_kam_resources-Only}
use gitops_operator.Service.Reconcile.{ServiceSettings, GitopsService}
use gitops_operator.Plugin.Objects.{gitops_plugin_name, httpd_config_map_name}
use gitops_operator.Plugin.Old.{delete_old, delete_found, old_error, cleanup_old_plugin_resources}
use gitops_operator.Plugin.Reconcile.{
  namespace_or_create, ignore_existing, ensure_plugin_namespace, reconcile_service,
  reconcile_config_map, reconcile_deployment, reconcile_console_plugin, reconcile_plugin,
}
use gitops_operator.Plugin.Httpd.{plugin_config_map}

-- A call that deletes no namespace and writes no GitopsService.
abbrev pub IsSafe : Call → Type 0
IsSafe (Call.get _ _) = Unit {0}
IsSafe (Call.create k _) = same_kind k Kind.gitops_service_kind ≡ false
IsSafe (Call.update k _) = same_kind k Kind.gitops_service_kind ≡ false
IsSafe (Call.delete k _) =
    (same_kind k Kind.gitops_service_kind ≡ false) × (same_kind k Kind.namespace_kind ≡ false)

-- A program of such calls.
abbrev pub Safe : {A : Type 0} → Program A → Type 0
Safe p = Only IsSafe p

pub may : (k : Kind) → same_kind k Kind.gitops_service_kind ≡ false → MayAmend IsSafe k
may k e = (λ n. tt, λ o. e, λ o. e)

pub if-Safe :
    {A : Type 0} (b : Bool) (p q : Program A) → Safe p → Safe q → Safe (if b then p else q)
if-Safe true p q h g = h
if-Safe false p q h g = g

pub get_cluster_version-Safe : Safe get_cluster_version
unfolding get_cluster_version after
get_cluster_version-Safe = (tt, go)
  where
    go : (r : Result (Object Kind.cluster_version_kind)) → Safe (version_in r)
    go (Result.ok v) = tt
    go (Result.err e) = if-Safe (is_not_found e) _ _ tt tt

pub get_backend_namespace-Safe : Safe get_backend_namespace
unfolding get_backend_namespace
get_backend_namespace-Safe =
    Only-bind IsSafe get_cluster_version _ get_cluster_version-Safe (λ version. tt)

pub clean_kam-Safe : (route_api_found : Bool) → Safe (clean_kam_resources route_api_found)
unfolding Kind-discrete
clean_kam-Safe route_api_found =
    Only-mono IsSafe (IsKamCall route_api_found) (clean_kam_resources route_api_found) go
      (clean_kam_resources-Only route_api_found)
  where
    go : (c : Call) → IsKamCall route_api_found c → IsSafe c
    go (Call.get k n) h = tt
    go (Call.create k o) h = absurd h
    go (Call.update k o) h = absurd h
    go (Call.delete k n) (e, inl p) = rw p (refl, refl)
    go (Call.delete k n) (e, inr (inl p)) = rw p (refl, refl)
    go (Call.delete k n) (e, inr (inr (p, _))) = rw p (refl, refl)

delete_old-Safe :
    (k : Kind) (kind name : String)
    → same_kind k Kind.gitops_service_kind ≡ false
    → same_kind k Kind.namespace_kind ≡ false
    → Safe (delete_old k kind name)
unfolding delete_old after
delete_old-Safe k kind name e f = (tt, go)
  where
    go : (r : Result (Object k)) → Safe (delete_found (old_error kind) r)
    go (Result.ok o) = delete_if_present-Only IsSafe (old_error kind) k (key_of o.meta) (e, f)
    go (Result.err _) = tt

pub cleanup_old-Safe : (namespace : String) → Safe (cleanup_old_plugin_resources namespace)
unfolding cleanup_old_plugin_resources Kind-discrete
cleanup_old-Safe namespace = if-Safe (namespace == service_namespace) _ _ tt (
    Only-bind IsSafe (delete_old Kind.deployment_kind "Deployment" gitops_plugin_name) _
      (delete_old-Safe Kind.deployment_kind "Deployment" gitops_plugin_name refl refl)
      (λ _.
        Only-bind IsSafe (delete_old Kind.service_kind "Service" gitops_plugin_name) _
          (delete_old-Safe Kind.service_kind "Service" gitops_plugin_name refl refl)
          (λ _.
            Only-bind IsSafe (delete_old Kind.config_map_kind "ConfigMap" httpd_config_map_name) _
              (delete_old-Safe Kind.config_map_kind "ConfigMap" httpd_config_map_name refl refl)
              (λ _. tt))))

amend_one-Safe :
    (reference : Reference) (owner : String) (a : Wanted)
    → same_kind a.kind Kind.gitops_service_kind ≡ false
    → Safe (amend_one reference owner a)
unfolding amend_one
amend_one-Safe reference owner a e =
    create_or_amend-Only IsSafe a.kind (may a.kind e) reference owner a.object a.amend

ensure_plugin_namespace-Safe : (name : String) → Safe (ensure_plugin_namespace name)
unfolding ensure_plugin_namespace after Kind-discrete
ensure_plugin_namespace-Safe name = (tt, go)
  where
    created : (r : Result (Unit {0})) → Safe (ignore_existing name r)
    created (Result.ok _) = tt
    created (Result.err e) = if-Safe (is_already_exists e) _ _ tt tt

    go : (r : Result (Object Kind.namespace_kind)) → Safe (namespace_or_create name r)
    go (Result.ok _) = tt
    go (Result.err e) = if-Safe (is_not_found e) _ _ (refl, created) tt

pub reconcile_plugin-Safe :
    (c : ServiceSettings) (service : GitopsService) (is_pf5 : Bool)
    → Safe (reconcile_plugin c.plugin service is_pf5)
unfolding reconcile_plugin reconcile_service reconcile_config_map reconcile_deployment
    reconcile_console_plugin Kind-discrete
reconcile_plugin-Safe c service is_pf5 = if-Safe (not c.plugin.console_api_found) _ _ tt (
    Only-bind IsSafe (ensure_plugin_namespace c.plugin.plugin_namespace) _
      (ensure_plugin_namespace-Safe c.plugin.plugin_namespace)
      (λ _.
        Only-bind IsSafe (reconcile_service c.plugin service) _
          (amend_one-Safe c.plugin.service.reference service.meta.name _ refl)
          (λ _.
            Only-bind IsSafe
              (reconcile_config_map c.plugin service
                (plugin_config_map c.plugin c.plugin.plugin_namespace))
              _ (amend_one-Safe c.plugin.service.reference service.meta.name _ refl)
              (λ _.
                Only-bind IsSafe
                  (reconcile_deployment c.plugin service
                    (plugin_config_map c.plugin c.plugin.plugin_namespace) is_pf5)
                  _ (amend_one-Safe c.plugin.service.reference service.meta.name _ refl)
                  (λ _.
                    Only-bind IsSafe (reconcile_console_plugin c.plugin service) _
                      (amend_one-Safe c.plugin.service.reference service.meta.name _ refl)
                      (λ _. tt))))))
