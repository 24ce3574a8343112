-- ===== src/Service/Default.antt =====
-- The reconcile of the default Argo CD instance.
use gitops_operator.Base.{String-deep_equal, StringMap-deep_equal, List-deep_equal}
use gitops_operator.Kube.{◌>>=◌, Toleration-deep_equal}
use gitops_operator.Base.{
  Bool, true, false, not, ◌&&◌, ◌||◌, Option, none, some, List, [], ◌∷◌, if◌then◌else◌, &&-intro,
  ◌==◌, ◌⧺◌, StringMap, DeepEqual, deep_equal, deep_equal_refl, same_option,
}
use gitops_operator.Kube.{
  NamespacedName, Resources, Toleration, GitopsServiceSpec, DexSpec, SsoSpec, NodePlacement,
  ArgoCdSpec, Kind, Object, key_of, is_not_found, Result, after, Io, pure, throw, ◌>>◌, get_object,
  create_object, update_object, delete_object, Change, create_or_amend,
}
use gitops_operator.DefaultCr.{Facts, new_cr}
use gitops_operator.Service.Namespaces.{
  Namespace, new_restricted_namespace, ensure_infra_node_selector_annotation,
  ensure_namespace_metadata,
}
use gitops_operator.Service.Objects.{Settings, service_namespace}
use gitops_operator.Service.Instance.{argocd_instance_name}

-- An amended spec, or a panic.
abbrev pub Amendment : Type 0
Amendment = Option (Bool × ArgoCdSpec)

abbrev pub or_default : Option Resources → Option Resources → Option Resources
or_default none wanted = wanted
or_default (some r) wanted = some r

abbrev pub is_none : {A : Type 0} → Option A → Bool
is_none none = true
is_none (some _) = false

-- `defaultArgoCDInstance.Spec.ApplicationSet.Resources` panics where there is no section
abbrev pub fill_application_set :
    Option (Option Resources) → ArgoCdSpec → Option (Option Resources) → Amendment
fill_application_set wanted spec none = some (false, spec)
fill_application_set wanted spec (some (some r)) = some (false, spec)
fill_application_set none spec (some none) = none
fill_application_set (some r) spec (some none) =
    some (true, record spec { application_set = some r })

-- `defaultArgoCDInstance.Spec.SSO.Dex.Resources` panics where there is no section
abbrev pub wanted_dex : Option SsoSpec → Option DexSpec
wanted_dex none = none
wanted_dex (some sso) = sso.dex

abbrev pub fill_dex_resources :
    Option DexSpec → ArgoCdSpec → SsoSpec → DexSpec → Option Resources → Amendment
fill_dex_resources wanted spec sso d (some _) = some (true, spec)
fill_dex_resources none spec sso d none = none
fill_dex_resources (some w) spec sso d none = some (
  true,
  record spec { sso = some (record sso { dex = some (record d { resources = w.resources }) }) },
)

abbrev pub fill_dex : Option DexSpec → ArgoCdSpec → SsoSpec → Option DexSpec → Amendment
fill_dex wanted spec sso none = some (true, spec)
fill_dex wanted spec sso (some d) = fill_dex_resources wanted spec sso d d.resources

abbrev pub fill_sso : Option DexSpec → ArgoCdSpec → Option SsoSpec → Amendment
fill_sso wanted spec none = some (true, spec)
fill_sso wanted spec (some sso) =
    if sso.provider == "dex" then fill_dex wanted spec sso sso.dex else some (true, spec)

instance abbrev pub NodePlacement-deep_equal : DeepEqual NodePlacement
NodePlacement-deep_equal = record {
  same =
      λ a b. deep_equal a.node_selector b.node_selector && deep_equal a.tolerations b.tolerations;
  same_refl = λ a. &&-intro (deep_equal_refl a.node_selector) (deep_equal_refl a.tolerations);
}

-- Where the placement is the same already, taking it over changes nothing.
-- The sections after Dex that only have resources to fill, and the placement.
abbrev pub fill_sections : ArgoCdSpec → ArgoCdSpec → ArgoCdSpec
fill_sections wanted spec = record spec {
  grafana = or_default spec.grafana wanted.grafana;
  ha = or_default spec.ha wanted.ha;
  redis = or_default spec.redis wanted.redis;
  repo = or_default spec.repo wanted.repo;
  server = or_default spec.server wanted.server;
  node_placement = wanted.node_placement;
}

abbrev pub lacks_sections : ArgoCdSpec → ArgoCdSpec → Bool
lacks_sections wanted spec =
    is_none spec.grafana
    || (is_none spec.ha
        || (is_none spec.redis
            || (is_none spec.repo
                || (is_none spec.server
                    || not (same_option spec.node_placement wanted.node_placement)))))

abbrev pub fill_controller : ArgoCdSpec → ArgoCdSpec → ArgoCdSpec
fill_controller wanted spec = record spec {
  controller = or_default spec.controller wanted.controller;
}

-- from the second section on: whether the spec changed so far, and the spec
abbrev pub amend_dex : (ArgoCdSpec → Bool) → ArgoCdSpec → Bool → ArgoCdSpec → Amendment
amend_dex use_dex wanted changed spec =
    if use_dex spec then fill_sso (wanted_dex wanted.sso) spec spec.sso else some (changed, spec)

abbrev pub finish_amendment : ArgoCdSpec → Amendment → Amendment
finish_amendment wanted none = none
finish_amendment wanted (some (changed, spec)) =
    some (changed || lacks_sections wanted spec, fill_sections wanted spec)

abbrev pub continue_amendment : (ArgoCdSpec → Bool) → ArgoCdSpec → Amendment → Amendment
continue_amendment use_dex wanted none = none
continue_amendment use_dex wanted (some (changed, spec)) =
    finish_amendment wanted
      (amend_dex use_dex wanted (changed || is_none spec.controller) (fill_controller wanted spec))

-- The instance that is there, against the wanted one; `use_dex` is argocd-operator's UseDex.
unfoldable pub amend_spec : (ArgoCdSpec → Bool) → ArgoCdSpec → ArgoCdSpec → Amendment
amend_spec use_dex wanted spec =
    continue_amendment use_dex wanted
      (fill_application_set wanted.application_set spec spec.application_set)

abbrev pub change_of : Object Kind.argo_cd_kind → Amendment → Change (Object Kind.argo_cd_kind)
change_of existing none = Change.panic
change_of existing (some (changed, spec)) =
    if changed then Change.replace (record { meta = existing.meta; body = spec }) else Change.keep

unfoldable pub amend_instance :
    (ArgoCdSpec → Bool)
    → Object Kind.argo_cd_kind
    → Object Kind.argo_cd_kind
    → Change (Object Kind.argo_cd_kind)
amend_instance use_dex wanted existing =
    change_of existing (amend_spec use_dex wanted.body existing.body)

abbrev pub select_nodes : Settings → StringMap → Option NodePlacement → Option NodePlacement
select_nodes c none p = p
select_nodes c (some []) p = p
select_nodes c (some (e ∷ m)) none =
    some (record { node_selector = some (e ∷ m); tolerations = [] })
select_nodes c (some (e ∷ m)) (some p) =
    some (record p { node_selector = c.append_string_map p.node_selector (some (e ∷ m)) })

abbrev pub tolerate : List Toleration → Option NodePlacement → Option NodePlacement
tolerate [] p = p
tolerate (t ∷ ts) none = some (record { node_selector = none; tolerations = t ∷ ts })
tolerate (t ∷ ts) (some p) = some (record p { tolerations = t ∷ ts })

abbrev pub placed_instance :
    Settings → GitopsServiceSpec → Object Kind.argo_cd_kind → Object Kind.argo_cd_kind
placed_instance c service cr = record {
  meta = cr.meta;
  body = record cr.body {
    node_placement =
        tolerate service.tolerations (select_nodes c service.node_selector cr.body.node_placement);
  };
}

abbrev pub quota_key : Namespace → NamespacedName
quota_key ns = record { name = ns.meta.name ⧺ "-compute-resources"; namespace = ns.meta.name }

abbrev pub update_if : Bool × Namespace → Io (Unit {0})
update_if (true, ns) = update_object Kind.namespace_kind ns
update_if (false, ns) = pure tt

-- after the Get of the quota: an error of the Get is passed over
abbrev pub keep_namespace :
    Namespace → Bool → Result (Object Kind.resource_quota_kind) → Io (Unit {0})
keep_namespace ns run_on_infra (Result.ok _) =
    delete_object Kind.resource_quota_kind (quota_key ns)
    >> update_if (ensure_namespace_metadata ns run_on_infra)
keep_namespace ns run_on_infra (Result.err _) =
    update_if (ensure_namespace_metadata ns run_on_infra)

abbrev pub reconcile_namespace : Namespace → Bool → Result Namespace → Io (Unit {0})
reconcile_namespace wanted run_on_infra (Result.ok ns) =
    after (get_object Kind.resource_quota_kind (quota_key ns)) (keep_namespace ns run_on_infra)
reconcile_namespace wanted run_on_infra (Result.err e) =
    if is_not_found e
    then create_object Kind.namespace_kind
        (ensure_infra_node_selector_annotation wanted run_on_infra).1
    else throw e

abbrev pub reconcile_instance :
    Settings
    → (ArgoCdSpec → Bool)
    → Object Kind.gitops_service_kind
    → Result (Object Kind.argo_cd_kind)
    → Io (Unit {0})
reconcile_instance c use_dex service (Result.err e) = throw e
reconcile_instance c use_dex service (Result.ok cr) =
    let wanted = placed_instance c service.body cr in
    let namespace = new_restricted_namespace cr.meta.namespace in
    after (get_object Kind.namespace_kind (key_of namespace.meta))
      (reconcile_namespace namespace service.body.run_on_infra)
    >> create_or_amend c.reference service.meta.name Kind.argo_cd_kind wanted
        (amend_instance use_dex wanted)

unfoldable pub reconcile_default_argocd_instance :
    Settings → Facts → (ArgoCdSpec → Bool) → Object Kind.gitops_service_kind → Io (Unit {0})
unfolding after ◌>>=◌ create_or_amend new_restricted_namespace
reconcile_default_argocd_instance c facts use_dex service =
    reconcile_instance c use_dex service (new_cr facts argocd_instance_name service_namespace)
