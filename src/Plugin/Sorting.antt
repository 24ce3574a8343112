-- ===== src/Plugin/Sorting.antt =====
-- How controllers/consoleplugin.go normalizes and sorts the lists of a Deployment's pod,.
-- Lists of more than 12 elements are outside the model of `sort_slice`.
use gitops_operator.Base.{
  String, Bool, not, ◌||◌, List, map, if◌then◌else◌, ◌==◌, ltb, text_less, sort_slice, by_text,
}
use gitops_operator.Kube.{EnvVar, ContainerPort, VolumeMount, Container, Volume, Toleration}

abbrev pub or_text : String → String → String
or_text s default = if s == "" then default else s

abbrev pub env_less : EnvVar → EnvVar → Bool
env_less = by_text (λ e. e.name)

abbrev pub port_less : ContainerPort → ContainerPort → Bool
port_less p q =
    if ltb p.container_port q.container_port || ltb q.container_port p.container_port
    then ltb p.container_port q.container_port
    else text_less p.name q.name

abbrev pub mount_less : VolumeMount → VolumeMount → Bool
mount_less = by_text (λ m. m.name)

abbrev pub container_less : Container → Container → Bool
container_less = by_text (λ c. c.name)

abbrev pub volume_less : Volume → Volume → Bool
volume_less = by_text (λ v. v.name)

unfoldable pub toleration_less : Toleration → Toleration → Bool
toleration_less a b =
    if not (a.key == b.key)
    then text_less a.key b.key
    else if not (a.operator == b.operator)
    then text_less a.operator b.operator
    else text_less a.effect b.effect

unfoldable pub normalize_container_defaults : Container → Container
normalize_container_defaults c = record c {
  termination_message_path = or_text c.termination_message_path "/dev/termination-log";
  termination_message_policy = or_text c.termination_message_policy "File";
}

-- one turn of the loop of sortContainers
unfoldable pub sort_fields : Container → Container
unfolding normalize_container_defaults sort_slice
sort_fields c = record (normalize_container_defaults c) {
  env = sort_slice env_less c.env;
  ports = sort_slice port_less c.ports;
  volume_mounts = sort_slice mount_less c.volume_mounts;
}

unfoldable pub sort_containers : List Container → List Container
unfolding sort_fields sort_slice
sort_containers containers = sort_slice container_less (map sort_fields containers)

unfoldable pub sort_volumes : List Volume → List Volume
unfolding sort_slice
sort_volumes volumes = sort_slice volume_less volumes

unfoldable pub sort_tolerations : List Toleration → List Toleration
unfolding toleration_less sort_slice
sort_tolerations tolerations = sort_slice toleration_less tolerations
