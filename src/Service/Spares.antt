-- ===== src/Service/Spares.antt =====
-- What the cleanups of Reconcile leave alone.
use gitops_operator.Base.{
  String, ◌≡◌, refl, inl, inr, Bool, true, false, if◌then◌else◌, Bool-cases, ◌==◌,
}
use gitops_operator.Kube.{
  NamespacedName, Kind, Kind-discrete, Object, key_of, Error, is_not_found, Result, Program, after,
  Io, or_return, ◌>>=◌, same_kind, Only, Only-after, ignore_missing, delete_if_present, Spares,
  Total, Total-after,
}
use gitops_operator.Service.Objects.{service_namespace}
use gitops_operator.Service.Instance.{delete_kam, delete_kam_found, clean_kam_resources}
use gitops_operator.Plugin.Objects.{gitops_plugin_name, httpd_config_map_name}
use gitops_operator.Plugin.Old.{delete_old, delete_found, old_error, cleanup_old_plugin_resources}

-- Both cleanups leave the namespaces alone, and return whatever the replies.
abbrev pub SparesNamespaces : {A : Type 0} → Program A → Type 0
SparesNamespaces p = Only (Spares Kind.namespace_kind) p × Total p

after-SparesNamespaces :
    {A B : Type 0} (p : Program A) (f : A → Program B)
    → SparesNamespaces p
    → ((a : A) → SparesNamespaces (f a))
    → SparesNamespaces (after p f)
after-SparesNamespaces p f h g = (
  Only-after (Spares Kind.namespace_kind) p f h.0 (λ a. (g a).0),
  Total-after p f h.1 (λ a. (g a).1),
)

delete_kam-SparesNamespaces :
    (k : Kind) → same_kind k Kind.namespace_kind ≡ false → SparesNamespaces (delete_kam k)
unfolding delete_kam after
delete_kam-SparesNamespaces k h = ((tt, only), total)
  where
    only : (r : Result (Object k)) → Only (Spares Kind.namespace_kind) (delete_kam_found r)
    only (Result.ok _) = (h, λ _. tt)
    only (Result.err _) = tt

    total : (r : Result (Object k)) → Total (delete_kam_found r)
    total (Result.ok _) = λ _. tt
    total (Result.err _) = tt

pub clean_kam_resources-SparesNamespaces :
    (route_api_found : Bool) → SparesNamespaces (clean_kam_resources route_api_found)
unfolding clean_kam_resources Kind-discrete
clean_kam_resources-SparesNamespaces b =
    after-SparesNamespaces (delete_kam Kind.deployment_kind) _
      (delete_kam-SparesNamespaces Kind.deployment_kind refl)
      (λ _.
        after-SparesNamespaces (delete_kam Kind.service_kind) _
          (delete_kam-SparesNamespaces Kind.service_kind refl) (λ _. route b))
  where
    route :
        (b : Bool) → SparesNamespaces (if b then delete_kam Kind.route_kind else Program.done tt)
    route true = delete_kam-SparesNamespaces Kind.route_kind refl
    route false = (tt, tt)

delete_if_present-SparesNamespaces :
    (wrap : Error → Error) (k : Kind) (n : NamespacedName)
    → same_kind k Kind.namespace_kind ≡ false
    → SparesNamespaces (delete_if_present wrap k n)
unfolding delete_if_present after
delete_if_present-SparesNamespaces wrap k n h = ((h, λ r. (only r).0), λ r. (only r).1)
  where
    only : (r : Result (Unit {0})) → SparesNamespaces (ignore_missing wrap r)
    only (Result.ok _) = (tt, tt)
    only (Result.err e) = elim (Bool-cases (is_not_found e)) [
      | inl q ↦ rw q (tt, tt)
      | inr q ↦ rw q (tt, tt)
    ]

delete_old-SparesNamespaces :
    (k : Kind) (kind name : String)
    → same_kind k Kind.namespace_kind ≡ false
    → SparesNamespaces (delete_old k kind name)
unfolding delete_old after
delete_old-SparesNamespaces k kind name h = ((tt, λ r. (only r).0), λ r. (only r).1)
  where
    only : (r : Result (Object k)) → SparesNamespaces (delete_found (old_error kind) r)
    only (Result.ok o) = delete_if_present-SparesNamespaces (old_error kind) k (key_of o.meta) h
    only (Result.err _) = (tt, tt)

bind-SparesNamespaces :
    {A B : Type 0} (p : Io A) (f : A → Io B)
    → SparesNamespaces p
    → ((a : A) → SparesNamespaces (f a))
    → SparesNamespaces (p >>= f)
unfolding ◌>>=◌
bind-SparesNamespaces {A} {B} p f h g = after-SparesNamespaces p (or_return f) h go
  where
    go : (r : Result A) → SparesNamespaces (or_return f r)
    go (Result.ok a) = g a
    go (Result.err e) = (tt, tt)

pub cleanup_old-SparesNamespaces :
    (namespace : String) → SparesNamespaces (cleanup_old_plugin_resources namespace)
unfolding cleanup_old_plugin_resources Kind-discrete
cleanup_old-SparesNamespaces namespace = elim (Bool-cases (namespace == service_namespace)) [
  | inl e ↦ rw e (tt, tt)
  | inr e ↦ rw e (
      bind-SparesNamespaces (delete_old Kind.deployment_kind "Deployment" gitops_plugin_name) _
        (delete_old-SparesNamespaces Kind.deployment_kind "Deployment" gitops_plugin_name refl)
        (λ _.
          bind-SparesNamespaces (delete_old Kind.service_kind "Service" gitops_plugin_name) _
            (delete_old-SparesNamespaces Kind.service_kind "Service" gitops_plugin_name refl)
            (λ _.
              bind-SparesNamespaces
                (delete_old Kind.config_map_kind "ConfigMap" httpd_config_map_name) _
                (delete_old-SparesNamespaces Kind.config_map_kind "ConfigMap" httpd_config_map_name
                  refl)
                (λ _. (tt, tt)))))
]
