-- ===== src/Hook/Rules.antt =====
-- The rules, the arguments and the script that controllers/argocd/openshift/openshift.go sets.
use gitops_operator.Base.{String, List, [], ◌∷◌, ◌⧺◌}
use gitops_operator.Kube.{PolicyRule}

abbrev pub policy_rule : List String → List String → List String → PolicyRule
policy_rule api_groups resources verbs = record {
  api_groups = api_groups;
  resources = resources;
  verbs = verbs;
  non_resource_urls = [];
}

unfoldable pub get_policy_rule_for_application_controller : List PolicyRule
get_policy_rule_for_application_controller =
    policy_rule ("*" ∷ []) ("*" ∷ []) ("get" ∷ "list" ∷ "watch" ∷ [])
    ∷ policy_rule ("monitoring.coreos.com" ∷ []) ("*" ∷ []) ("*" ∷ [])
    ∷ policy_rule ("argoproj.io" ∷ [])
        ("applications" ∷ "applicationsets" ∷ "appprojects" ∷ "argocds" ∷ []) ("*" ∷ [])
    ∷ []

unfoldable pub policy_rules_for_cluster_config : List PolicyRule
policy_rules_for_cluster_config =
    policy_rule ("*" ∷ []) ("*" ∷ []) ("get" ∷ "list" ∷ "watch" ∷ [])
    ∷ record {
      api_groups = [];
      resources = [];
      verbs = "get" ∷ "list" ∷ [];
      non_resource_urls = "*" ∷ [];
    }
    ∷ policy_rule ("operators.coreos.com" ∷ []) ("*" ∷ []) ("*" ∷ [])
    ∷ policy_rule ("operator.openshift.io" ∷ []) ("*" ∷ []) ("*" ∷ [])
    ∷ policy_rule ("user.openshift.io" ∷ []) ("*" ∷ []) ("*" ∷ [])
    ∷ policy_rule ("config.openshift.io" ∷ []) ("*" ∷ []) ("*" ∷ [])
    ∷ policy_rule ("console.openshift.io" ∷ []) ("*" ∷ []) ("*" ∷ [])
    ∷ policy_rule ("" ∷ [])
        ("namespaces" ∷ "persistentvolumeclaims" ∷ "persistentvolumes" ∷ "configmaps" ∷ [])
        ("*" ∷ [])
    ∷ policy_rule ("rbac.authorization.k8s.io" ∷ []) ("*" ∷ []) ("*" ∷ [])
    ∷ policy_rule ("storage.k8s.io" ∷ []) ("*" ∷ []) ("*" ∷ [])
    ∷ policy_rule ("machine.openshift.io" ∷ []) ("*" ∷ []) ("*" ∷ [])
    ∷ policy_rule ("machineconfiguration.openshift.io" ∷ []) ("*" ∷ []) ("*" ∷ [])
    ∷ policy_rule ("compliance.openshift.io" ∷ []) ("scansettingbindings" ∷ []) ("*" ∷ [])
    ∷ policy_rule ("" ∷ []) ("serviceaccounts" ∷ []) ("impersonate" ∷ [])
    ∷ []

abbrev pub get_args_for_redhat_redis : List String
get_args_for_redhat_redis = "redis-server" ∷ "--protected-mode" ∷ "no" ∷ []

abbrev pub get_command_for_redhat_redis_ha_proxy : List String
get_command_for_redhat_redis_ha_proxy = "haproxy" ∷ "-f" ∷ "/usr/local/etc/haproxy/haproxy.cfg" ∷ []

abbrev pub get_args_for_redhat_ha_redis_server : List String
get_args_for_redhat_ha_redis_server = "redis-server" ∷ "/data/conf/redis.conf" ∷ []

abbrev pub get_args_for_redhat_ha_redis_sentinel : List String
get_args_for_redhat_ha_redis_sentinel = "redis-sentinel" ∷ "/data/conf/sentinel.conf" ∷ []

abbrev pub get_args_for_redhat_ha_redis_init_container : List String
get_args_for_redhat_ha_redis_init_container = "sh" ∷ "/readonly-config/init.sh" ∷ []

-- the script of the init container that builds the trusted certificates
unfoldable pub update_ca_script : String
update_ca_script =
    "\nset -eEuo pipefail\n"
    ⧺ "trap 's=$?; echo >&2 \"$0: Error on line \"$LINENO\": $BASH_COMMAND\"; exit $s' ERR\n"
    ⧺ "\n# Populate the empty volume with the expected structure\n"
    ⧺ "mkdir -p /etc/pki/ca-trust/{extracted/{openssl,pem,java,edk2},source/{anchors,blacklist}}\n"
    ⧺ "\n# Copy user anchors where update-ca-trust expects it\n"
    ⧺ "# Using loop over 'cp *' to work well with no CA files provided (all optional, none configured, etc.)\n"
    ⧺ "ls /var/run/secrets/ca-trust-source/ | while read -r f; do\n"
    ⧺ "    cp -L \"/var/run/secrets/ca-trust-source/$f\" /etc/pki/ca-trust/source/anchors/\n"
    ⧺ "done\n\necho \"User defined trusted CA files:\"\n"
    ⧺ "ls /etc/pki/ca-trust/source/anchors/\n\n"
    ⧺ "# Specifying the explicit location to turn on the container-aware behavior\n"
    ⧺ "update-ca-trust extract --output /etc/pki/ca-trust/extracted\n\n"
    ⧺ "echo \"Trusted anchors:\"\ntrust list\n\necho \"Done!\"\n\t\t\t"
