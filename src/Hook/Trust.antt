-- ===== src/Hook/Trust.antt =====
-- updateSystemCATrustBuilding of controllers/argocd/openshift/openshift.go.
use gitops_operator.Base.{
  String, Bool, true, false, not, Option, none, some, List, [], ◌∷◌, ◌++◌, map, if◌then◌else◌,
  select, ◌==◌,
}
use gitops_operator.Kube.{VolumeMount, Resources, SecurityContext, Container, VolumeSource, PodSpec}
use gitops_operator.Hook.Rules.{update_ca_script}

abbrev pub volume_source : String
volume_source = "argocd-ca-trust-source"

abbrev pub volume_target : String
volume_target = "argocd-ca-trust-target"

abbrev pub distro_source : String
distro_source = "distro-ca-trust-source"

abbrev pub update_ca_certificates : String
update_ca_certificates = "update-ca-certificates"

abbrev pub rhel_target : String
rhel_target = "/etc/pki/ca-trust"

-- What of an Argo CD instance the hook reads; `system_ca_trust` is its DropImageCertificates.
pub record Instance : Type 0 where
  pub name : String
  pub namespace : String
  pub repo_resources : Option Resources
  pub system_ca_trust : Option Bool

abbrev pub resources_or_none : Option Resources → Resources
resources_or_none none = record { requests = none; limits = none }
resources_or_none (some r) = r

abbrev pub trust_mounts : Bool → List VolumeMount
trust_mounts drop =
    record {
      name = volume_source;
      read_only = true;
      mount_path = "/var/run/secrets/ca-trust-source";
      sub_path = "";
    }
    ∷ record { name = volume_target; read_only = false; mount_path = rhel_target; sub_path = "" }
    ∷ (if drop
        then record {
          name = distro_source;
          read_only = false;
          mount_path = "/usr/share/pki/ca-trust-source/";
          sub_path = "";
        }
          ∷ []
        else [])

unfoldable pub trust_container : SecurityContext → Instance → Bool → String → Container
unfolding update_ca_script
trust_container context cr drop prod_image = record {
  name = update_ca_certificates;
  image = prod_image;
  image_pull_policy = "";
  command = "/bin/bash" ∷ "-c" ∷ [];
  args = update_ca_script ∷ [];
  env = [];
  ports = [];
  volume_mounts = trust_mounts drop;
  resources = resources_or_none cr.repo_resources;
  security_context = some context;
  termination_message_path = "";
  termination_message_policy = "";
}

-- the new place of the volume with the trusted certificates
abbrev pub retarget : VolumeMount → VolumeMount
retarget m = if m.name == volume_target then record m { mount_path = rhel_target } else m

-- the mounts of a container that uses the image
unfoldable pub redirect_mounts : List VolumeMount → List VolumeMount
redirect_mounts mounts = map retarget (select (λ m. not (m.name == volume_source)) mounts)

-- one turn of the loop over the containers
unfoldable pub redirect : String → Container → Container
unfolding redirect_mounts
redirect prod_image c =
    if c.image == prod_image
    then record c { volume_mounts = redirect_mounts c.volume_mounts }
    else c

unfoldable pub update_system_ca_trust_building :
    SecurityContext → Instance → Bool → String → PodSpec → PodSpec
unfolding trust_container redirect
update_system_ca_trust_building context cr drop prod_image pod = record pod {
  init_containers =
      select (λ c. not (c.name == update_ca_certificates)) pod.init_containers
      ++ (trust_container context cr drop prod_image ∷ []);
  volumes =
      if drop
      then pod.volumes ++ (record { name = distro_source; source = VolumeSource.empty_dir } ∷ [])
      else pod.volumes;
  containers = map (redirect prod_image) pod.containers;
}
