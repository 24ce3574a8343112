-- ===== src/Plugin/Old.antt =====
-- The removal of the plugin's objects from the namespace where earlier versions had them, in
-- controllers/consoleplugin.go.
use gitops_operator.Base.{String, if◌then◌else◌, ◌==◌, ◌⧺◌}
use gitops_operator.Kube.{
  NamespacedName, Kind, Object, key_of, Error, Result, after, Io, pure, ◌>>=◌, ◌>>◌, get_object,
  delete_if_present,
}
use gitops_operator.Service.Objects.{service_namespace}
use gitops_operator.Plugin.Objects.{gitops_plugin_name, httpd_config_map_name}

-- `Delete` of an object that `Get` found; whatever error `Get` returns, nothing is done
abbrev pub delete_found : {k : Kind} → (Error → Error) → Result (Object k) → Io (Unit {0})
delete_found {k} wrap (Result.ok o) = delete_if_present wrap k (key_of o.meta)
delete_found wrap (Result.err _) = pure tt

abbrev pub old_error : String → Error → Error
old_error kind =
    Error.wrapped ("failed to delete old plugin " ⧺ kind ⧺ " from namespace " ⧺ service_namespace)

abbrev pub old_key : String → NamespacedName
old_key name = record { name = name; namespace = service_namespace }

unfoldable pub delete_old : (k : Kind) → String → String → Io (Unit {0})
unfolding after
delete_old k kind name = after (get_object k (old_key name)) (delete_found (old_error kind))

unfoldable pub cleanup_old_plugin_resources : String → Io (Unit {0})
unfolding ◌>>=◌ delete_old
cleanup_old_plugin_resources plugin_namespace =
    if plugin_namespace == service_namespace then pure tt else do
      delete_old Kind.deployment_kind "Deployment" gitops_plugin_name
      delete_old Kind.service_kind "Service" gitops_plugin_name
      delete_old Kind.config_map_kind "ConfigMap" httpd_config_map_name
      pure tt
