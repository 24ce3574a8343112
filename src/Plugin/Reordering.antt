-- ===== src/Plugin/Reordering.antt =====
-- That the comparison of the plugin's Deployment does not depend on the order of the lists.
use gitops_operator.Base.{
  String, ◌≡◌, refl, sym, ap, ◌∙◌, ◌⊎◌, inl, inr, true, List, [], ◌∷◌, map, lookup, text_of,
  WeakOrder, Untied, sort_slice, sort_slice-perm, by_text-WeakOrder, text_then-WeakOrder,
  number_then-WeakOrder,
}
use gitops_operator.Kube.{
  EnvVar, ContainerPort, VolumeMount, Container, PodSpec, Kind, Object, Change,
}
use mathlib.Core.List.{Permᴰ}
use gitops_operator.Plugin.Sorting.{
  or_text, env_less, port_less, mount_less, container_less, volume_less, toleration_less,
  normalize_container_defaults, sort_fields, sort_containers, sort_volumes, sort_tolerations,
}
use gitops_operator.Plugin.Reconcile.{
  same_plugin_pod, amend_first_resources, amend_plugin_deployment,
}
use gitops_operator.Plugin.Equality.{semantic_resources_refl}
use gitops_operator.Service.Amendments.{HasContainer}
use gitops_operator.Plugin.Amendments.{same_plugin_pod-take, same_plugin_deployment-parts}

toleration_less-WeakOrder : WeakOrder toleration_less
unfolding toleration_less
toleration_less-WeakOrder =
    text_then-WeakOrder _
      (text_then-WeakOrder _ (by_text-WeakOrder (λ t. t.effect)) (λ t. t.operator)) (λ t. t.key)

port_less-WeakOrder : WeakOrder port_less
port_less-WeakOrder =
    number_then-WeakOrder _ (by_text-WeakOrder (λ p. p.name)) (λ p. p.container_port)

-- the value or the API server's default
abbrev pub SameText : String → String → String → Type 0
SameText default s t = or_text s default ≡ or_text t default

-- Containers that differ in the order of their variables and ports, in the order of their mounts where
-- those have different names, and in defaults that the API server filled in.
pub record SameContainer (c d : Container) : Type 0 where
  pub env : Permᴰ c.env d.env
  pub env_untied : Untied env_less c.env
  pub ports : Permᴰ c.ports d.ports
  pub ports_untied : Untied port_less c.ports
  pub volume_mounts :
      (c.volume_mounts ≡ d.volume_mounts)
      ⊎ (Permᴰ c.volume_mounts d.volume_mounts × Untied mount_less c.volume_mounts)
  pub path : SameText "/dev/termination-log" c.termination_message_path d.termination_message_path
  pub policy : SameText "File" c.termination_message_policy d.termination_message_policy
  pub rest :
      record d {
        env = c.env;
        ports = c.ports;
        volume_mounts = c.volume_mounts;
        termination_message_path = c.termination_message_path;
        termination_message_policy = c.termination_message_policy;
      }
      ≡ c

-- a container with these fields
abbrev filled :
    List EnvVar → List ContainerPort → List VolumeMount → String → String → Container → Container
filled env ports mounts path policy c = record c {
  env = env;
  ports = ports;
  volume_mounts = mounts;
  termination_message_path = path;
  termination_message_policy = policy;
}

mounts_eq :
    (ms ns : List VolumeMount)
    → (ms ≡ ns) ⊎ (Permᴰ ms ns × Untied mount_less ms)
    → sort_slice mount_less ms ≡ sort_slice mount_less ns
mounts_eq ms ns (inl e) = ap (sort_slice mount_less) e
mounts_eq ms ns (inr (p, untied)) =
    sort_slice-perm mount_less (by_text-WeakOrder (λ m. m.name)) p untied

-- Containers are normalized to the same container where they differ in the order of their environment
-- variables and of their ports, no two of which are tied, in the order of their mounts, if no two of
-- these are tied, and in whether the defaults of the two fields on the termination message are filled
-- in.
pub sort_fields-SameContainer :
    (c d : Container) → SameContainer c d → sort_fields c ≡ sort_fields d
unfolding sort_fields normalize_container_defaults
sort_fields-SameContainer c d h =
    sym (
      ap
        (filled (sort_slice env_less c.env) (sort_slice port_less c.ports)
          (sort_slice mount_less c.volume_mounts)
          (or_text c.termination_message_path "/dev/termination-log")
          (or_text c.termination_message_policy "File"))
        h.rest)
    ∙ cc (
      sort_slice-perm env_less (by_text-WeakOrder (λ e. e.name)) h.env h.env_untied,
      sort_slice-perm port_less port_less-WeakOrder h.ports h.ports_untied,
      mounts_eq c.volume_mounts d.volume_mounts h.volume_mounts,
      h.path,
      h.policy,
    )

abbrev pub Alike : List Container → List Container → Type 0
Alike [] [] = Unit
Alike (c ∷ cs) (d ∷ ds) = SameContainer c d × Alike cs ds
Alike _ _ = ⊥

-- Pods that differ in the order of volumes and of tolerations, and in their containers as above.
pub record SamePod (found wanted : PodSpec) : Type 0 where
  pub volumes : Permᴰ found.volumes wanted.volumes
  pub volumes_untied : Untied volume_less found.volumes
  pub tolerations : Permᴰ found.tolerations wanted.tolerations
  pub tolerations_untied : Untied toleration_less found.tolerations
  pub containers : Alike found.containers wanted.containers
  pub restart_policy : found.restart_policy ≡ wanted.restart_policy
  pub dns_policy : found.dns_policy ≡ wanted.dns_policy
  pub node_selector : found.node_selector ≡ wanted.node_selector
  pub pod_seccomp : found.pod_seccomp ≡ wanted.pod_seccomp

-- A Deployment as the API server keeps one. Its annotations, its owner, the other annotations of the
-- template, the init containers and the service account are not compared.
pub record SameDeployment (found wanted : Object Kind.deployment_kind) : Type 0 where
  pub labels : found.meta.labels ≡ wanted.meta.labels
  pub replicas : found.body.replicas ≡ wanted.body.replicas
  pub selector : found.body.selector ≡ wanted.body.selector
  pub template_labels : found.body.template_labels ≡ wanted.body.template_labels
  pub hash :
      text_of (lookup found.body.template_annotations "httpd-cfg-hash")
      ≡ text_of (lookup wanted.body.template_annotations "httpd-cfg-hash")
  pub pod : SamePod found.body.pod wanted.body.pod

Alike-fields : (cs ds : List Container) → Alike cs ds → map sort_fields cs ≡ map sort_fields ds
Alike-fields [] [] h = refl
Alike-fields [] (d ∷ ds) h = absurd h
Alike-fields (c ∷ cs) [] h = absurd h
Alike-fields (c ∷ cs) (d ∷ ds) (h, hs) = cc (sort_fields-SameContainer c d h, Alike-fields cs ds hs)

-- The first containers have the same resources.
Alike-first :
    (found wanted : Object Kind.deployment_kind) (cs ds : List Container)
    → HasContainer ds
    → Alike cs ds
    → amend_first_resources wanted found cs ds ≡ Change.keep
Alike-first found wanted cs [] h a = absurd h
Alike-first found wanted [] (d ∷ ds) h a = absurd a
Alike-first found wanted (c ∷ cs) (d ∷ ds) h (a, _) =
    rw (sym (ap (λ x. x.resources) a.rest)) (rw (semantic_resources_refl d.resources) refl)

module _ (found wanted : PodSpec) (h : SamePod found wanted) where
  containers_eq : sort_containers found.containers ≡ sort_containers wanted.containers
  unfolding sort_containers
  containers_eq =
      ap (sort_slice container_less) (Alike-fields found.containers wanted.containers h.containers)

  volumes_eq : sort_volumes found.volumes ≡ sort_volumes wanted.volumes
  unfolding sort_volumes
  volumes_eq =
      sort_slice-perm volume_less (by_text-WeakOrder (λ v. v.name)) h.volumes h.volumes_untied

  tolerations_eq : sort_tolerations found.tolerations ≡ sort_tolerations wanted.tolerations
  unfolding sort_tolerations
  tolerations_eq =
      sort_slice-perm toleration_less toleration_less-WeakOrder h.tolerations h.tolerations_untied

same_plugin_pod-SamePod :
    (found wanted : PodSpec) → SamePod found wanted → same_plugin_pod found wanted ≡ true
unfolding same_plugin_pod
same_plugin_pod-SamePod found wanted h =
    rw
      (
        containers_eq found wanted h,
        volumes_eq found wanted h,
        tolerations_eq found wanted h,
        h.restart_policy,
        h.dns_policy,
        h.node_selector,
        h.pod_seccomp,
      )
      (same_plugin_pod-take wanted wanted)

-- A Deployment with a container is kept, and not updated, where what is found differs from what is
-- wanted in nothing but the order of volumes, of tolerations, of environment variables and of ports, no
-- two of which are tied, the order of mounts, if no two of these are tied, the defaults of the
-- termination message, and the fields that the reconcile does not compare.
pub amend_plugin_deployment-SameDeployment :
    (wanted found : Object Kind.deployment_kind)
    → HasContainer wanted.body.pod.containers
    → SameDeployment found wanted
    → amend_plugin_deployment wanted found ≡ Change.keep
unfolding amend_plugin_deployment
amend_plugin_deployment-SameDeployment wanted found has h =
    rw
      (same_plugin_deployment-parts found wanted h.labels h.replicas h.selector h.template_labels
        h.hash (same_plugin_pod-SamePod found.body.pod wanted.body.pod h.pod))
      (Alike-first found wanted found.body.pod.containers wanted.body.pod.containers has
        h.pod.containers)
