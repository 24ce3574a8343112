-- ===== src/Plugin/Stored.antt =====
-- The plugin's objects as the API server keeps them, and that their reconcile keeps them.
use gitops_operator.Base.{String-deep_equal, List-deep_equal, StringMap-deep_equal}
use gitops_operator.Base.{
  ◌≡◌, refl, Bool, some, All, eq_refl, StringMap, deep_equal_refl, same_option_refl,
}
use gitops_operator.Kube.{Kind, Object, key_of, View, Change, AtRest}
use gitops_operator.Plugin.Equality.{ServicePort-deep_equal, PluginService-deep_equal}
use gitops_operator.Service.Amendments.{HasContainer}
use gitops_operator.Plugin.Objects.{
  PluginSettings, plugin_deployment, get_plugin_pod_spec, new_console_plugin, plugin_service,
}
use gitops_operator.Plugin.Reconcile.{
  GitopsService, amend_plugin_service, amend_console_plugin, amend_plugin_config_map,
  wanted_plugin_deployment,
}
use gitops_operator.Plugin.Rest.{plugin_map, wanted_deployment, plugin_objects, has_container}
use gitops_operator.Plugin.Reordering.{SameDeployment, amend_plugin_deployment-SameDeployment}

service-keep :
    (wanted x : Object Kind.service_kind)
    → x.meta.annotations ≡ wanted.meta.annotations
    → x.meta.labels ≡ wanted.meta.labels
    → x.body.selector ≡ wanted.body.selector
    → x.body.ports ≡ wanted.body.ports
    → amend_plugin_service wanted x ≡ Change.keep
unfolding amend_plugin_service
service-keep wanted x a l f p =
    rw (a, l, f, p)
      (rw
        (
          deep_equal_refl wanted.meta.annotations,
          deep_equal_refl wanted.meta.labels,
          deep_equal_refl wanted.body.selector,
          deep_equal_refl wanted.body.ports,
        )
        refl)

config_map-keep :
    (wanted x : Object Kind.config_map_kind)
    → x.body ≡ wanted.body
    → x.meta.labels ≡ wanted.meta.labels
    → amend_plugin_config_map wanted x ≡ Change.keep
unfolding amend_plugin_config_map
config_map-keep wanted x b l =
    rw (b, l)
      (rw (deep_equal_refl {A = StringMap} wanted.body, deep_equal_refl wanted.meta.labels) refl)

console_plugin-keep :
    (wanted x : Object Kind.console_plugin_kind)
    → x.body.display_name ≡ wanted.body.display_name
    → x.body.service ≡ wanted.body.service
    → amend_console_plugin wanted x ≡ Change.keep
unfolding amend_console_plugin
console_plugin-keep wanted x d f =
    rw (d, f) (rw (eq_refl wanted.body.display_name, same_option_refl wanted.body.service) refl)

abbrev pub StoredAs : {k : Kind} → View → Object k → (Object k → Type 0) → Type 0
StoredAs {k} v wanted P = (x : Object k) × (v k (key_of wanted.meta) ≡ some x) × P x

-- The fields that are compared are as they are wanted; every other field is free.
module _ (c : PluginSettings) (service : GitopsService) (is_pf5 : Bool) where
  pub record PluginStored (v : View) : Type 0 where
    pub web_service : StoredAs v (plugin_service c.plugin_namespace) (λ x.
        (x.meta.annotations ≡ (plugin_service c.plugin_namespace).meta.annotations)
        × (x.meta.labels ≡ (plugin_service c.plugin_namespace).meta.labels)
        × (x.body.selector ≡ (plugin_service c.plugin_namespace).body.selector)
        × (x.body.ports ≡ (plugin_service c.plugin_namespace).body.ports))
    pub config_map : StoredAs v (plugin_map c service is_pf5) (λ x.
        (x.body ≡ (plugin_map c service is_pf5).body)
        × (x.meta.labels ≡ (plugin_map c service is_pf5).meta.labels))
    pub deployment :
        StoredAs v
          (wanted_deployment c service is_pf5)
          (λ x. SameDeployment x (wanted_deployment c service is_pf5))
    pub console_plugin : StoredAs v (new_console_plugin c.plugin_namespace) (λ x.
        (x.body.display_name ≡ (new_console_plugin c.plugin_namespace).body.display_name)
        × (x.body.service ≡ (new_console_plugin c.plugin_namespace).body.service))

  has_containers : HasContainer (wanted_deployment c service is_pf5).body.pod.containers
  unfolding plugin_deployment get_plugin_pod_spec wanted_plugin_deployment wanted_deployment
  has_containers = has_container c service is_pf5 _ _

  pub PluginStored-AtRest :
      (v : View) → PluginStored v → All (AtRest v) (plugin_objects c service is_pf5)
  PluginStored-AtRest v h = (
    (
      h.web_service.0,
      h.web_service.1,
      service-keep (plugin_service c.plugin_namespace) h.web_service.0 h.web_service.2.0
          h.web_service.2.1 h.web_service.2.2 h.web_service.2.3,
    ),
    (
      (
        h.config_map.0,
        h.config_map.1,
        config_map-keep (plugin_map c service is_pf5) h.config_map.0 h.config_map.2.0
            h.config_map.2.1,
      ),
      (
        (
          h.deployment.0,
          h.deployment.1,
          amend_plugin_deployment-SameDeployment (wanted_deployment c service is_pf5) h.deployment.0
              has_containers h.deployment.2,
        ),
        (
          (
            h.console_plugin.0,
            h.console_plugin.1,
            console_plugin-keep (new_console_plugin c.plugin_namespace) h.console_plugin.0
                h.console_plugin.2.0 h.console_plugin.2.1,
          ),
          tt,
        ),
      ),
    ),
  )
