-- ===== src/Plugin/Reconcile.antt =====
-- The reconcile of the console plugin's four objects, in controllers/consoleplugin.go.
use gitops_operator.Kube.{Number-deep_equal}
use gitops_operator.Base.{String-deep_equal, List-deep_equal, StringMap-deep_equal}
use gitops_operator.Kube.{Toleration-deep_equal}
use gitops_operator.Base.{
  String, Bool, true, false, not, ◌&&◌, Option, none, some, List, [], ◌∷◌, if◌then◌else◌, ◌==◌, ◌⧺◌,
  StringMap, put, made, lookup, text_of, deep_equal, same_option,
}
use gitops_operator.Kube.{
  NamespacedName, Resources, Container, PodSpec, GitopsServiceSpec, Kind, Object, Error,
  is_not_found, is_already_exists, Result, after, Io, pure, throw, ◌>>=◌, ◌>>◌, get_object,
  create_object, Change, amend_one,
}
use gitops_operator.Service.Backend.{with_node_selector, or_tolerations, same_seccomp}
use gitops_operator.Plugin.Objects.{
  PluginSettings, plugin_deployment, new_console_plugin, plugin_service,
}
use gitops_operator.Plugin.Httpd.{plugin_config_map, get_config_map_hash}
use gitops_operator.Plugin.Sorting.{sort_containers, sort_volumes, sort_tolerations}
use gitops_operator.Plugin.Equality.{
  semantic_map, semantic_resources, Container-deep_equal, Volume-deep_equal, ServicePort-deep_equal,
  PluginService-deep_equal,
}

abbrev pub hash_annotation : String
hash_annotation = "httpd-cfg-hash"

abbrev pub plugin_resources : GitopsServiceSpec → Option Resources
plugin_resources spec = elim spec.console_plugin [
  | none ↦ none
  | some plugin ↦ elim plugin.gitops_plugin [ none ↦ none | some plugin ↦ plugin.resources ]
]

-- `Containers[0].Resources = …`, of a pod that has a container
abbrev pub first_resources : Option Resources → List Container → List Container
first_resources (some r) (c ∷ containers) = record c { resources = r } ∷ containers
first_resources _ containers = containers

-- the Deployment that is compared with the one that is there
unfoldable pub wanted_plugin_deployment :
    PluginSettings → GitopsServiceSpec → String → Bool → Object Kind.deployment_kind
unfolding plugin_deployment put
wanted_plugin_deployment c spec hash is_pf5 =
    let d = plugin_deployment c.service c.plugin_namespace spec.image_pull_policy is_pf5 in
    record {
      meta = d.meta;
      body = record d.body {
        template_annotations = some (put hash_annotation hash (made d.body.template_annotations));
        pod = record d.body.pod {
          containers = first_resources (plugin_resources spec) d.body.pod.containers;
          node_selector =
              with_node_selector c.service c.service.default_node_selector spec.node_selector;
          tolerations = or_tolerations spec.tolerations d.body.pod.tolerations;
        };
      };
    }

-- The comparison, except for its last clause, the resources of the first containers of the lists as they
-- stand: that one panics where a list is empty, and is `amend_first_resources`.
unfoldable pub same_plugin_pod : PodSpec → PodSpec → Bool
unfolding sort_containers sort_volumes sort_tolerations
same_plugin_pod found wanted =
    deep_equal (sort_containers found.containers) (sort_containers wanted.containers)
    && (deep_equal (sort_volumes found.volumes) (sort_volumes wanted.volumes)
        && (found.restart_policy == wanted.restart_policy
            && (found.dns_policy == wanted.dns_policy
                && (semantic_map found.node_selector wanted.node_selector
                    && (deep_equal (sort_tolerations found.tolerations)
                          (sort_tolerations wanted.tolerations)
                        && same_seccomp found.pod_seccomp wanted.pod_seccomp)))))

abbrev pub same_selector : Option StringMap → Option StringMap → Bool
same_selector none none = true
same_selector (some m) (some n) = semantic_map m n
same_selector _ _ = false

unfoldable pub same_plugin_deployment :
    Object Kind.deployment_kind → Object Kind.deployment_kind → Bool
unfolding same_plugin_pod lookup
same_plugin_deployment found wanted =
    (semantic_map found.meta.labels wanted.meta.labels
      && (same_option found.body.replicas wanted.body.replicas
          && (same_selector found.body.selector wanted.body.selector
              && (semantic_map found.body.template_labels wanted.body.template_labels
                  && text_of (lookup found.body.template_annotations hash_annotation)
                    == text_of (lookup wanted.body.template_annotations hash_annotation)))))
    && same_plugin_pod found.body.pod wanted.body.pod

abbrev pub take_plugin_pod : PodSpec → PodSpec → PodSpec
take_plugin_pod found wanted = record found {
  containers = wanted.containers;
  volumes = wanted.volumes;
  restart_policy = wanted.restart_policy;
  dns_policy = wanted.dns_policy;
  node_selector = wanted.node_selector;
  tolerations = wanted.tolerations;
  pod_seccomp = wanted.pod_seccomp;
}

unfoldable pub take_plugin_deployment :
    Object Kind.deployment_kind → Object Kind.deployment_kind → Object Kind.deployment_kind
unfolding lookup put
take_plugin_deployment found wanted = record {
  meta = record found.meta { labels = wanted.meta.labels };
  body = record found.body {
    replicas = wanted.body.replicas;
    selector = wanted.body.selector;
    template_labels = wanted.body.template_labels;
    template_annotations = some (
        put hash_annotation (text_of (lookup wanted.body.template_annotations hash_annotation))
          (made found.body.template_annotations));
    pod = take_plugin_pod found.body.pod wanted.body.pod;
  };
}

-- `Containers[0]` of the Deployment that was built: a panic where it has no container
abbrev pub replace_plugin_deployment :
    Object Kind.deployment_kind
    → Object Kind.deployment_kind
    → List Container
    → Change (Object Kind.deployment_kind)
replace_plugin_deployment wanted found [] = Change.panic
replace_plugin_deployment wanted found (_ ∷ _) =
    Change.replace (take_plugin_deployment found wanted)

-- the last clause of the comparison, of `Containers[0].Resources`
abbrev pub amend_first_resources :
    Object Kind.deployment_kind
    → Object Kind.deployment_kind
    → List Container
    → List Container
    → Change (Object Kind.deployment_kind)
amend_first_resources wanted found (x ∷ _) (y ∷ ys) =
    if semantic_resources x.resources y.resources
    then Change.keep
    else replace_plugin_deployment wanted found (y ∷ ys)
amend_first_resources wanted found _ _ = Change.panic

unfoldable pub amend_plugin_deployment :
    Object Kind.deployment_kind → Object Kind.deployment_kind → Change (Object Kind.deployment_kind)
unfolding same_plugin_deployment
amend_plugin_deployment wanted found =
    if same_plugin_deployment found wanted
    then amend_first_resources wanted found found.body.pod.containers wanted.body.pod.containers
    else replace_plugin_deployment wanted found wanted.body.pod.containers

unfoldable pub amend_plugin_service :
    Object Kind.service_kind → Object Kind.service_kind → Change (Object Kind.service_kind)
amend_plugin_service wanted found =
    if deep_equal found.meta.annotations wanted.meta.annotations
      && (deep_equal found.meta.labels wanted.meta.labels
          && (deep_equal found.body.selector wanted.body.selector
              && deep_equal found.body.ports wanted.body.ports))
    then Change.keep
    else Change.replace (record {
      meta = record found.meta {
        annotations = wanted.meta.annotations;
        labels = wanted.meta.labels;
      };
      body = record found.body { selector = wanted.body.selector; ports = wanted.body.ports };
    })

unfoldable pub amend_console_plugin :
    Object Kind.console_plugin_kind
    → Object Kind.console_plugin_kind
    → Change (Object Kind.console_plugin_kind)
amend_console_plugin wanted found =
    if found.body.display_name == wanted.body.display_name
      && same_option found.body.service wanted.body.service
    then Change.keep
    else Change.replace (record {
      meta = found.meta;
      body = record found.body {
        display_name = wanted.body.display_name;
        service = wanted.body.service;
      };
    })

unfoldable pub amend_plugin_config_map :
    Object Kind.config_map_kind → Object Kind.config_map_kind → Change (Object Kind.config_map_kind)
amend_plugin_config_map wanted found =
    if deep_equal {A = StringMap} found.body wanted.body
      && deep_equal found.meta.labels wanted.meta.labels
    then Change.keep
    else Change.replace
        (record { meta = record found.meta { labels = wanted.meta.labels }; body = wanted.body })

abbrev pub GitopsService : Type 0
GitopsService = Object Kind.gitops_service_kind

unfoldable pub reconcile_service : PluginSettings → GitopsService → Io (Unit {0})
unfolding amend_one
reconcile_service c service = amend_one c.service.reference service.meta.name (record {
  kind = Kind.service_kind;
  object = plugin_service c.plugin_namespace;
  amend = amend_plugin_service (plugin_service c.plugin_namespace);
})

unfoldable pub reconcile_config_map :
    PluginSettings → GitopsService → Object Kind.config_map_kind → Io (Unit {0})
unfolding amend_one
reconcile_config_map c service m =
    amend_one c.service.reference service.meta.name
      (record { kind = Kind.config_map_kind; object = m; amend = amend_plugin_config_map m })

unfoldable pub reconcile_deployment :
    PluginSettings → GitopsService → Object Kind.config_map_kind → Bool → Io (Unit {0})
unfolding amend_one get_config_map_hash
reconcile_deployment c service m is_pf5 =
    let d =
      wanted_plugin_deployment c service.body (get_config_map_hash c.sha256_hex m.body) is_pf5 in
    amend_one c.service.reference service.meta.name
      (record { kind = Kind.deployment_kind; object = d; amend = amend_plugin_deployment d })

unfoldable pub reconcile_console_plugin : PluginSettings → GitopsService → Io (Unit {0})
unfolding amend_one
reconcile_console_plugin c service = amend_one c.service.reference service.meta.name (record {
  kind = Kind.console_plugin_kind;
  object = new_console_plugin c.plugin_namespace;
  amend = amend_console_plugin (new_console_plugin c.plugin_namespace);
})

abbrev pub namespace_key : String → NamespacedName
namespace_key name = record { name = name; namespace = "" }

abbrev pub plugin_namespace_object : String → Object Kind.namespace_kind
plugin_namespace_object name = record {
  meta = record {
    name = name;
    namespace = "";
    labels = none;
    annotations = none;
    owner = none;
    deleting = false;
  };
  body = tt;
}

-- an error of `Create`, except AlreadyExists
abbrev pub ignore_existing : String → Result (Unit {0}) → Io (Unit {0})
ignore_existing name (Result.ok _) = pure tt
ignore_existing name (Result.err e) =
    if is_already_exists e
    then pure tt
    else throw (Error.wrapped ("failed to create plugin namespace " ⧺ name) e)

abbrev pub namespace_or_create : String → Result (Object Kind.namespace_kind) → Io (Unit {0})
unfolding after
namespace_or_create name (Result.ok _) = pure tt
namespace_or_create name (Result.err e) =
    if is_not_found e
    then after (create_object Kind.namespace_kind (plugin_namespace_object name))
        (ignore_existing name)
    else throw (Error.wrapped ("failed to retrieve plugin namespace " ⧺ name) e)

unfoldable pub ensure_plugin_namespace : String → Io (Unit {0})
unfolding after
ensure_plugin_namespace name =
    after (get_object Kind.namespace_kind (namespace_key name)) (namespace_or_create name)

unfoldable pub reconcile_plugin : PluginSettings → GitopsService → Bool → Io (Unit {0})
unfolding ◌>>=◌ ensure_plugin_namespace
reconcile_plugin c service is_pf5 = if not c.console_api_found then pure tt else do
  ensure_plugin_namespace c.plugin_namespace
  reconcile_service c service
  reconcile_config_map c service (plugin_config_map c c.plugin_namespace)
  reconcile_deployment c service (plugin_config_map c c.plugin_namespace) is_pf5
  reconcile_console_plugin c service
  pure tt
