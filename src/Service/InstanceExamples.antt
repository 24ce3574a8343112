-- ===== src/Service/InstanceExamples.antt =====
-- Amendments of the default instance.
use gitops_operator.Base.{◌≡◌, refl, ◌≢◌, true, false, none, some, []}
use gitops_operator.Kube.{DexSpec, SsoSpec, ArgoCdSpec, Kind, Object, Result, View, Settles, Change}
use gitops_operator.Kube.Memory.{memory}
use gitops_operator.Service.Installed.{Installed, reconcile_default_argocd_instance-Settles}
use gitops_operator.Service.Instance.{new_gitops_service}
use gitops_operator.Service.Default.{reconcile_default_argocd_instance}
use gitops_operator.Service.Objects.{Settings}
use gitops_operator.DefaultCr.{get_argo_sso_spec, Facts, default_spec, resources}
use gitops_operator.Service.Objects.{meta_of}
use gitops_operator.Service.Default.{amend_spec, amend_instance}
use gitops_operator.Service.Upkeep.{Upkept, amend_instance-Upkept}
use gitops_operator.Service.Panic.{amend_instance-ne-panic, amend_instance-is-panic}

abbrev openshift : Facts
openshift = record {
  is_openshift_cluster = true;
  external_authentication = false;
  marshal = λ exclusions. Result.ok "exclusions";
}

abbrev plain : Facts
plain = record {
  is_openshift_cluster = false;
  external_authentication = false;
  marshal = λ exclusions. Result.ok "exclusions";
}

-- an instance whose controller has resources of its own, and Dex without any
abbrev dex_section : DexSpec
dex_section = record { openshift_oauth = true; resources = none }

abbrev sso_section : SsoSpec
sso_section = record { provider = "dex"; dex = some dex_section }

abbrev user_spec : ArgoCdSpec
user_spec = record (default_spec plain "") {
  controller = some (resources "2Gi" "1" "4Gi" "2");
  redis = none;
  sso = some sso_section;
}

abbrev user_instance : Object Kind.argo_cd_kind
user_instance = record { meta = meta_of "openshift-gitops" "openshift-gitops"; body = user_spec }

abbrev wanted_instance : Object Kind.argo_cd_kind
wanted_instance = record {
  meta = meta_of "openshift-gitops" "openshift-gitops";
  body = default_spec plain "exclusions";
}

abbrev default_instance : Object Kind.argo_cd_kind
default_instance = record {
  meta = meta_of "openshift-gitops" "openshift-gitops";
  body = default_spec plain "";
}

abbrev filled_instance : Object Kind.argo_cd_kind
filled_instance = record user_instance {
  body = record user_spec { redis = some (resources "128Mi" "250m" "256Mi" "500m") };
}

amend_instance-Upkept_example :
    Upkept default_instance.body user_instance.body filled_instance.body
    × (filled_instance.meta ≡ user_instance.meta)
unfolding amend_spec amend_instance
amend_instance-Upkept_example =
    amend_instance-Upkept (λ _. false) default_instance user_instance filled_instance refl

amend_instance-ne-panic_example :
    amend_instance
      (λ _. true)
      (record {
        meta = meta_of "openshift-gitops" "openshift-gitops";
        body = record (default_spec openshift "exclusions") { node_placement = none };
      })
      user_instance
    ≢ Change.panic
amend_instance-ne-panic_example =
    amend_instance-ne-panic (λ _. true) openshift "exclusions" none
      (meta_of "openshift-gitops" "openshift-gitops") user_instance refl refl

amend_instance-is-panic_example :
    amend_instance (λ _. true) wanted_instance user_instance ≡ Change.panic
unfolding get_argo_sso_spec
amend_instance-is-panic_example =
    amend_instance-is-panic (λ _. true) wanted_instance user_instance
      (some (resources "512Mi" "250m" "1024Mi" "2000m")) sso_section dex_section refl refl refl refl
      refl refl (λ spec e. refl)

abbrev empty_cluster : View
empty_cluster k n = none

abbrev settings : Settings
settings = record {
  getenv = λ _. "";
  reference = λ owner m. Result.ok (record m { owner = some owner });
  append_string_map = λ m n. n;
  default_node_selector = none;
  get_image_pull_policy = λ p. p;
  tls_protocol_version_string = λ v. v;
  map_cipher_suites = λ ciphers. ciphers;
  map_groups_to_curves = λ groups. Result.ok "";
  tls_profile = record { min_version = ""; ciphers = []; curve_preferences = [] };
  tls_13 = "VersionTLS13";
  newer = λ v w. false;
}

reconcile_default_argocd_instance-Settles_example :
    Settles memory
      (reconcile_default_argocd_instance settings openshift (λ _. true) new_gitops_service)
      empty_cluster
      (λ _ w'.
        Installed memory settings
          (λ owner m e. refl)
          openshift
          (λ _. true)
          new_gitops_service
          "exclusions"
          (memory.view empty_cluster)
          w')
reconcile_default_argocd_instance-Settles_example =
    reconcile_default_argocd_instance-Settles memory settings (λ owner m e. refl) openshift
      (λ _. true) new_gitops_service "exclusions" empty_cluster refl refl refl
