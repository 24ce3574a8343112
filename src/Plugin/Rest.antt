-- ===== src/Plugin/Rest.antt =====
-- That the plugin's other objects come to rest, and the four in the order of the reconcile.
use gitops_operator.Base.{String-deep_equal, List-deep_equal, StringMap-deep_equal}
use gitops_operator.Base.{
  String, ◌≡◌, refl, ap, ◌∙◌, ◌≢◌, inl, inr, Bool, true, Option, none, some, List, [], ◌∷◌,
  if◌then◌else◌, Bool-cases, &&-intro, All, eq_refl, StringMap, deep_equal_refl, same_option_refl,
}
use gitops_operator.Kube.{
  ObjectMeta, Resources, Container, Kind, Kind-discrete, Object, key_of, Change, owned, Wanted,
  Distinct, Restful,
}
use gitops_operator.Plugin.Equality.{ServicePort-deep_equal, PluginService-deep_equal}
use gitops_operator.Plugin.Objects.{
  PluginSettings, plugin_deployment, get_plugin_pod_spec, new_console_plugin, plugin_service,
}
use gitops_operator.Plugin.Httpd.{plugin_config_map, get_config_map_hash}
use gitops_operator.Plugin.Amendments.{deployment-Restful}
use gitops_operator.Service.Amendments.{HasContainer}
use gitops_operator.Plugin.Reconcile.{
  amend_plugin_deployment, amend_plugin_service, amend_console_plugin, amend_plugin_config_map,
  wanted_plugin_deployment, GitopsService, first_resources,
}

-- What every amendment of this form gives, for a test and a replacement.
module _ {k : Kind} (same : Object k → Bool) (take : Object k → Object k) where
  abbrev pub amend_by : Object k → Change (Object k)
  amend_by x = if same x then Change.keep else Change.replace (take x)

  pub amend_by-ne-panic : (x : Object k) → amend_by x ≢ Change.panic
  amend_by-ne-panic x = elim (Bool-cases (same x)) [
    | inl e ↦ rw e (λ p. cc)
    | inr e ↦ rw e (λ p. cc)
  ]

  pub amend_by-replace : (x y : Object k) → amend_by x ≡ Change.replace y → y ≡ take x
  amend_by-replace x y = elim (Bool-cases (same x)) [
    | inl e ↦ rw e (λ p. cc)
    | inr e ↦ rw e (λ p. cc)
  ]

  pub amend_by-keep : (x : Object k) → same x ≡ true → amend_by x ≡ Change.keep
  amend_by-keep x e = rw e refl

  pub amend_by-Restful :
      (owner : String) (o : Object k)
      → o.meta.owner ≡ none
      → ((x : Object k) → key_of (take x).meta ≡ key_of x.meta)
      → same (owned owner o) ≡ true
      → ((x : Object k) → same (take x) ≡ true)
      → Restful owner (record { kind = k; object = o; amend = amend_by })
  amend_by-Restful owner o free key own taken = record {
    free = free;
    calm = amend_by-ne-panic;
    same_key = λ x y e. ap (λ z. key_of z.meta) (amend_by-replace x y e) ∙ key x;
    made = amend_by-keep (owned owner o) own;
    amended = λ x y e. ap amend_by (amend_by-replace x y e) ∙ amend_by-keep (take x) (taken x);
  }

service-Restful :
    (owner : String) (wanted : Object Kind.service_kind)
    → wanted.meta.owner ≡ none
    → Restful owner
        (record { kind = Kind.service_kind; object = wanted; amend = amend_plugin_service wanted })
unfolding amend_plugin_service
service-Restful owner wanted free =
    let same = &&-intro (deep_equal_refl wanted.meta.annotations) (
      &&-intro (deep_equal_refl wanted.meta.labels)
        (&&-intro (deep_equal_refl wanted.body.selector) (deep_equal_refl wanted.body.ports))) in
    amend_by-Restful _ _ owner wanted free (λ x. refl) same (λ x. same)

config_map-Restful :
    (owner : String) (wanted : Object Kind.config_map_kind)
    → wanted.meta.owner ≡ none
    → Restful owner (record {
      kind = Kind.config_map_kind;
      object = wanted;
      amend = amend_plugin_config_map wanted;
    })
unfolding amend_plugin_config_map
config_map-Restful owner wanted free =
    let same =
      &&-intro (deep_equal_refl {A = StringMap} wanted.body) (deep_equal_refl wanted.meta.labels) in
    amend_by-Restful _ _ owner wanted free (λ x. refl) same (λ x. same)

console_plugin-Restful :
    (owner : String) (wanted : Object Kind.console_plugin_kind)
    → wanted.meta.owner ≡ none
    → Restful owner (record {
      kind = Kind.console_plugin_kind;
      object = wanted;
      amend = amend_console_plugin wanted;
    })
unfolding amend_console_plugin
console_plugin-Restful owner wanted free =
    let same = &&-intro (eq_refl wanted.body.display_name) (same_option_refl wanted.body.service) in
    amend_by-Restful _ _ owner wanted free (λ x. refl) same (λ x. same)

-- AddTrackedByOperatorLabel sets a label and nothing else.
abbrev pub OnlyLabels : (ObjectMeta → ObjectMeta) → Type 0
OnlyLabels f = (m : ObjectMeta) → (labels : StringMap) × (f m ≡ record m { labels = labels })

module _ (c : PluginSettings) (service : GitopsService) (is_pf5 : Bool) where
  unfoldable pub plugin_map : Object Kind.config_map_kind
  unfolding plugin_config_map
  plugin_map = plugin_config_map c c.plugin_namespace

  unfoldable pub wanted_deployment : Object Kind.deployment_kind
  unfolding plugin_config_map get_config_map_hash wanted_plugin_deployment
  wanted_deployment =
      wanted_plugin_deployment c service.body
        (get_config_map_hash c.sha256_hex (plugin_config_map c c.plugin_namespace).body) is_pf5

  -- the four objects, in the order of the reconcile
  abbrev pub plugin_objects : List Wanted
  plugin_objects =
      record {
        kind = Kind.service_kind;
        object = plugin_service c.plugin_namespace;
        amend = amend_plugin_service (plugin_service c.plugin_namespace);
      }
      ∷ record {
        kind = Kind.config_map_kind;
        object = plugin_map;
        amend = amend_plugin_config_map plugin_map;
      }
      ∷ record {
        kind = Kind.deployment_kind;
        object = wanted_deployment;
        amend = amend_plugin_deployment wanted_deployment;
      }
      ∷ record {
        kind = Kind.console_plugin_kind;
        object = new_console_plugin c.plugin_namespace;
        amend = amend_console_plugin (new_console_plugin c.plugin_namespace);
      }
      ∷ []

  pub plugin_objects-Distinct : Distinct plugin_objects
  unfolding Kind-discrete
  plugin_objects-Distinct =
      ((refl, (refl, (refl, tt))), ((refl, (refl, tt)), ((refl, tt), (tt, tt))))

  map_free : OnlyLabels c.add_tracked_label → plugin_map.meta.owner ≡ none
  unfolding plugin_config_map plugin_map
  map_free only = ap (λ m. m.owner) (only _).1

  pub has_container :
      (r : Option Resources) (y : Container) → HasContainer (first_resources r (y ∷ []))
  has_container none y = tt
  has_container (some r) y = tt

  pub plugin_objects-Restful :
      OnlyLabels c.add_tracked_label → All (Restful service.meta.name) plugin_objects
  unfolding plugin_service plugin_deployment new_console_plugin get_plugin_pod_spec
      wanted_plugin_deployment wanted_deployment
  plugin_objects-Restful only = (
    service-Restful service.meta.name (plugin_service c.plugin_namespace) refl,
    (
      config_map-Restful service.meta.name plugin_map (map_free only),
      (
        deployment-Restful wanted_deployment service.meta.name refl (has_container _ _),
        (console_plugin-Restful service.meta.name (new_console_plugin c.plugin_namespace) refl, tt),
      ),
    ),
  )
