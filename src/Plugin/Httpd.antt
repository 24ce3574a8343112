-- ===== src/Plugin/Httpd.antt =====
-- The plugin's ConfigMap with its httpd.conf, in controllers/consoleplugin.go, and the hash of it.
use gitops_operator.Base.{
  String, false, not, ◌&&◌, none, some, List, [], ◌∷◌, if◌then◌else◌, select, ◌==◌, ◌⧺◌, join,
  Entries, StringMap, find, made, text_of, text_less, sort_slice,
}
use gitops_operator.Kube.{Kind, Object}
use gitops_operator.Plugin.Objects.{
  PluginSettings, gitops_plugin_name, httpd_config_map_name, label_app, label_part_of,
}

abbrev pub httpd_config_base : String
httpd_config_base =
    "LoadModule ssl_module modules/mod_ssl.so\nListen 9001 https\nServerRoot \"/etc/httpd\"\n"
    ⧺ "<VirtualHost *:9001>\n\tDocumentRoot /var/www/html/plugin\n\tSSLEngine on\n"
    ⧺ "\tSSLCertificateFile \"/etc/httpd-ssl/certs/tls.crt\"\n"
    ⧺ "\tSSLCertificateKeyFile \"/etc/httpd-ssl/private/tls.key\""

-- the protocols for a minimal version that is set
unfoldable pub ssl_protocol : String → String
ssl_protocol version =
    if version == "VersionTLS10"
    then "\n\tSSLProtocol -all +TLSv1 +TLSv1.1 +TLSv1.2 +TLSv1.3"
    else if version == "VersionTLS11"
    then "\n\tSSLProtocol -all +TLSv1.1 +TLSv1.2 +TLSv1.3"
    else if version == "VersionTLS12"
    then "\n\tSSLProtocol -all +TLSv1.2 +TLSv1.3"
    else if version == "VersionTLS13"
    then "\n\tSSLProtocol -all +TLSv1.3"
    else ""

unfoldable pub ssl_cipher_suite : String → List String → String
ssl_cipher_suite version ciphers =
    if not (version == "VersionTLS13") && not (join ciphers ":" == "")
    then "\n\tSSLCipherSuite " ⧺ join ciphers ":"
    else ""

unfoldable pub ssl_groups : String → String
ssl_groups groups = if not (groups == "") then "\n\tSSLOpenSSLConfCmd Groups " ⧺ groups else ""

unfoldable pub build_httpd_config : PluginSettings → String
unfolding ssl_protocol ssl_cipher_suite ssl_groups
build_httpd_config c =
    let version = c.service.tls_profile.min_version in
    httpd_config_base
    ⧺ ssl_protocol version
    ⧺ ssl_cipher_suite version c.service.tls_profile.ciphers
    ⧺ ssl_groups (c.map_groups_to_openssl c.service.tls_profile.curve_preferences)
    ⧺ "\n</VirtualHost>"

unfoldable pub plugin_config_map : PluginSettings → String → Object Kind.config_map_kind
unfolding build_httpd_config
plugin_config_map c namespace = record {
  meta = c.add_tracked_label (record {
    name = httpd_config_map_name;
    namespace = namespace;
    labels = some ((label_app, gitops_plugin_name) ∷ (label_part_of, gitops_plugin_name) ∷ []);
    annotations = none;
    owner = none;
    deleting = false;
  });
  body = some (("httpd.conf", build_httpd_config c) ∷ []);
}

-- the keys of a map, each once
abbrev pub keys_of : Entries → List String
keys_of [] = []
keys_of ((k, _) ∷ m) = k ∷ select (λ j. not (j == k)) (keys_of m)

-- what is written to the hash for sorted keys
abbrev pub hashed_text : Entries → List String → String
unfolding find
hashed_text m [] = ""
hashed_text m (k ∷ keys) = k ⧺ text_of (find m k) ⧺ hashed_text m keys

unfoldable pub get_config_map_hash : (String → String) → StringMap → String
unfolding sort_slice
get_config_map_hash sha256_hex entries =
    sha256_hex (hashed_text (made entries) (sort_slice text_less (keys_of (made entries))))
