-- ===== src/Plugin/StoredExamples.antt =====
-- A cluster that keeps the plugin's objects, with the defaults filled in.
use gitops_operator.Base.{true, none, some, map}
use gitops_operator.Kube.{Container, Kind, Object, View}
use gitops_operator.Service.Objects.{meta_of}
use gitops_operator.Service.Instance.{new_gitops_service}
use gitops_operator.Plugin.Objects.{new_console_plugin, plugin_service}
use gitops_operator.Plugin.Rest.{plugin_map, wanted_deployment}
use gitops_operator.Plugin.Examples.{plugin_settings}

abbrev filled_container : Container → Container
filled_container x = record x {
  termination_message_path = "/dev/termination-log";
  termination_message_policy = "File";
}

abbrev kept : Object Kind.deployment_kind → Object Kind.deployment_kind
kept d = record d {
  body = record d.body {
    pod = record d.body.pod { containers = map filled_container d.body.pod.containers };
  };
}

abbrev wanted : Object Kind.deployment_kind
unfolding wanted_deployment
wanted = wanted_deployment plugin_settings new_gitops_service true

abbrev plugin_cluster : View
unfolding plugin_map wanted plugin_service new_console_plugin
plugin_cluster Kind.namespace_kind n = some (record { meta = meta_of n.name ""; body = tt })
plugin_cluster Kind.service_kind n = some (plugin_service "openshift-gitops-operator")
plugin_cluster Kind.config_map_kind n = some (plugin_map plugin_settings new_gitops_service true)
plugin_cluster Kind.deployment_kind n = some (kept wanted)
plugin_cluster Kind.console_plugin_kind n = some (new_console_plugin "openshift-gitops-operator")
plugin_cluster _ n = none
