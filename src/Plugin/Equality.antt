-- ===== src/Plugin/Equality.antt =====
-- equality.Semantic.DeepEqual of apimachinery on containers, volumes and ports, where a nil map is an
-- empty one, and reflect.DeepEqual on a Service's ports and a ConsolePlugin's service.
use gitops_operator.Base.{String-deep_equal, List-deep_equal, StringMap-deep_equal}
use gitops_operator.Kube.{
  Number-deep_equal, EnvVar-deep_equal, SecurityContext-deep_equal, Bool-deep_equal,
}
use gitops_operator.Base.{
  ◌≡◌, refl, Bool, true, false, ◌&&◌, &&-intro, eq_refl, ◌==◌, StringMap, made, same_entries,
  same_entries_refl, DeepEqual, deep_equal, deep_equal_refl, same_option, same_option_refl,
}
use gitops_operator.Kube.{
  same_number, same_number_refl, ContainerPort, VolumeMount, Resources, Container, VolumeSource,
  Volume, ServicePort, PluginService,
}

abbrev pub semantic_map : StringMap → StringMap → Bool
semantic_map m n = same_entries (made m) (made n)

abbrev pub semantic_resources : Resources → Resources → Bool
semantic_resources r q = semantic_map r.requests q.requests && semantic_map r.limits q.limits

pub semantic_resources_refl : (r : Resources) → semantic_resources r r ≡ true
semantic_resources_refl r =
    &&-intro (same_entries_refl (made r.requests)) (same_entries_refl (made r.limits))

instance abbrev pub ContainerPort-deep_equal : DeepEqual ContainerPort
ContainerPort-deep_equal = record {
  same = λ p q.
      p.name == q.name
      && (p.protocol == q.protocol && same_number p.container_port q.container_port);
  same_refl = λ p.
      &&-intro (eq_refl p.name) (&&-intro (eq_refl p.protocol) (same_number_refl p.container_port));
}

instance abbrev pub VolumeMount-deep_equal : DeepEqual VolumeMount
VolumeMount-deep_equal = record {
  same = λ m n.
      m.name == n.name
      && (deep_equal m.read_only n.read_only
          && (m.mount_path == n.mount_path && m.sub_path == n.sub_path));
  same_refl = λ m. &&-intro (eq_refl m.name) (
      &&-intro (deep_equal_refl m.read_only)
        (&&-intro (eq_refl m.mount_path) (eq_refl m.sub_path)));
}

abbrev pub same_source : VolumeSource → VolumeSource → Bool
same_source (VolumeSource.secret_volume s m) (VolumeSource.secret_volume t n) =
    s == t && same_option m n
same_source (VolumeSource.config_map_volume s m) (VolumeSource.config_map_volume t n) =
    s == t && same_option m n
same_source VolumeSource.empty_dir VolumeSource.empty_dir = true
same_source _ _ = false

pub same_source_refl : (s : VolumeSource) → same_source s s ≡ true
same_source_refl (VolumeSource.secret_volume s m) = &&-intro (eq_refl s) (same_option_refl m)
same_source_refl (VolumeSource.config_map_volume s m) = &&-intro (eq_refl s) (same_option_refl m)
same_source_refl VolumeSource.empty_dir = refl

instance abbrev pub Volume-deep_equal : DeepEqual Volume
Volume-deep_equal = record {
  same = λ v w. v.name == w.name && same_source v.source w.source;
  same_refl = λ v. &&-intro (eq_refl v.name) (same_source_refl v.source);
}

instance abbrev pub Container-deep_equal : DeepEqual Container
Container-deep_equal = record {
  same = λ c d.
      (c.name == d.name && (c.image == d.image && c.image_pull_policy == d.image_pull_policy))
      && ((deep_equal c.command d.command
            && (deep_equal c.args d.args
                && (deep_equal c.env d.env
                    && (deep_equal c.ports d.ports && deep_equal c.volume_mounts d.volume_mounts))))
          && (semantic_resources c.resources d.resources
              && (same_option c.security_context d.security_context
                  && (c.termination_message_path == d.termination_message_path
                      && c.termination_message_policy == d.termination_message_policy))));
  same_refl = λ c.
      &&-intro
        (&&-intro (eq_refl c.name) (&&-intro (eq_refl c.image) (eq_refl c.image_pull_policy)))
        (&&-intro
          (&&-intro (deep_equal_refl c.command) (
            &&-intro (deep_equal_refl c.args) (
              &&-intro (deep_equal_refl c.env)
                (&&-intro (deep_equal_refl c.ports) (deep_equal_refl c.volume_mounts)))))
          (&&-intro (semantic_resources_refl c.resources) (
            &&-intro (same_option_refl c.security_context) (
              &&-intro (eq_refl c.termination_message_path)
                (eq_refl c.termination_message_policy)))));
}

instance abbrev pub ServicePort-deep_equal : DeepEqual ServicePort
ServicePort-deep_equal = record {
  same = λ p q.
      p.name == q.name
      && (p.protocol == q.protocol
          && (same_number p.port q.port && same_number p.target_port q.target_port));
  same_refl = λ p. &&-intro (eq_refl p.name) (
      &&-intro (eq_refl p.protocol)
        (&&-intro (same_number_refl p.port) (same_number_refl p.target_port)));
}

instance abbrev pub PluginService-deep_equal : DeepEqual PluginService
PluginService-deep_equal = record {
  same = λ s t.
      s.name == t.name
      && (s.namespace == t.namespace && (same_number s.port t.port && s.base_path == t.base_path));
  same_refl = λ s.
      &&-intro (eq_refl s.name)
        (&&-intro (eq_refl s.namespace) (&&-intro (same_number_refl s.port) (eq_refl s.base_path)));
}
