-- ===== src/Hook/Certificates.antt =====
-- What the hook leaves where the certificates of the repo server are configured.
use gitops_operator.Base.{
  String, ◌≡◌, refl, sym, ap, ◌∙◌, inl, inr, Bool, true, false, not, ◌||◌, List, [], ◌∷◌, ◌++◌, map,
  Bool-cases, select, ◌==◌, ==-true, ++-nil,
}
use gitops_operator.Kube.{VolumeMount, SecurityContext, Container, PodSpec, after}
use mathlib.Core.Bool.{true≢false}
use gitops_operator.Hook.Trust.{
  Instance, volume_source, volume_target, update_ca_certificates, trust_container, redirect_mounts,
  redirect, update_system_ca_trust_building,
}

abbrev pub is_update : Container → Bool
is_update c = c.name == update_ca_certificates

select-not : {A : Type 0} (p : A → Bool) (xs : List A) → select p (select (λ x. not (p x)) xs) ≡ []
select-not p [] = refl
select-not p (x ∷ xs) = elim (Bool-cases (p x)) [
  | inl e ↦ rw e (select-not p xs)
  | inr e ↦ rw e (rw e (select-not p xs))
]

select-++ :
    {A : Type 0} (p : A → Bool) (xs ys : List A) → select p (xs ++ ys) ≡ select p xs ++ select p ys
select-++ p [] ys = refl
select-++ p (x ∷ xs) ys = elim (Bool-cases (p x)) [
  | inl e ↦ rw e (ap (λ l. x ∷ l) (select-++ p xs ys))
  | inr e ↦ rw e (select-++ p xs ys)
]

select-select : {A : Type 0} (p : A → Bool) (xs : List A) → select p (select p xs) ≡ select p xs
select-select p [] = refl
select-select p (x ∷ xs) = elim (Bool-cases (p x)) [
  | inl e ↦ rw e (rw e (ap (λ l. x ∷ l) (select-select p xs)))
  | inr e ↦ rw e (select-select p xs)
]

abbrev pub is_source : VolumeMount → Bool
is_source m = m.name == volume_source

abbrev pub is_trust_target : VolumeMount → Bool
is_trust_target m = m.name == volume_target

abbrev pub is_other : VolumeMount → Bool
is_other m = not (is_source m || is_trust_target m)

abbrev at_rhel : VolumeMount → VolumeMount
at_rhel m = record m { mount_path = "/etc/pki/ca-trust" }

-- The mounts before and after: the source is mounted nowhere, each mount of the target is there, at
-- the place that RHEL uses, and every other mount is as it was, all in their order.
abbrev pub RedirectedMounts : List VolumeMount → List VolumeMount → Type 0
RedirectedMounts before after =
    (select is_source after ≡ [])
    × (select is_trust_target after ≡ map at_rhel (select is_trust_target before))
    × (select is_other after ≡ select is_other before)

source-target : (m : VolumeMount) → is_source m ≡ true → is_trust_target m ≡ false
source-target m e = ap (λ x. x == volume_target) (==-true m.name volume_source e)

redirect_mounts-RedirectedMounts :
    (ms : List VolumeMount) → RedirectedMounts ms (redirect_mounts ms)
unfolding redirect_mounts
redirect_mounts-RedirectedMounts [] = (refl, refl, refl)
redirect_mounts-RedirectedMounts (m ∷ ms) =
    let (sources, targets, others) = redirect_mounts-RedirectedMounts ms in
    elim (Bool-cases (is_source m)) [
      | inl e ↦ rw (e, source-target m e) (sources, targets, others)
      | inr e ↦ elim (Bool-cases (is_trust_target m)) [
        | inl f ↦ rw (e, f) (rw (e, f) (sources, ap (λ l. at_rhel m ∷ l) targets, others))
        | inr f ↦ rw (e, f) (rw (e, f) (sources, targets, ap (λ l. m ∷ l) others))
      ]
    ]

-- What becomes of a container.
abbrev pub RedirectedContainer : String → Container → Container → Type 0
RedirectedContainer prod_image c d =
    ((c.image == prod_image) ≡ false → d ≡ c)
    × ((c.image == prod_image) ≡ true
        → RedirectedMounts c.volume_mounts d.volume_mounts
          × (record d { volume_mounts = c.volume_mounts } ≡ c))

abbrev pub All2 : {A : Type 0} → (A → A → Type 0) → List A → List A → Type 0
All2 R [] [] = Unit
All2 R (x ∷ xs) (y ∷ ys) = R x y × All2 R xs ys
All2 R _ _ = ⊥

redirect-RedirectedContainer :
    (prod_image : String) (c : Container) → RedirectedContainer prod_image c (redirect prod_image c)
unfolding redirect
redirect-RedirectedContainer prod_image c = elim (Bool-cases (c.image == prod_image)) [
  | inl e ↦
      rw e
        (λ f. absurd (true≢false f), λ _. (redirect_mounts-RedirectedMounts c.volume_mounts, refl))
  | inr e ↦ rw e (λ _. refl, λ f. absurd (true≢false (sym f)))
]

redirect-All2 :
    (prod_image : String) (cs : List Container)
    → All2 (RedirectedContainer prod_image) cs (map (redirect prod_image) cs)
redirect-All2 prod_image [] = tt
redirect-All2 prod_image (c ∷ cs) =
    (redirect-RedirectedContainer prod_image c, redirect-All2 prod_image cs)

module _ (context : SecurityContext) (cr : Instance) (drop : Bool) (prod_image : String)
    (pod : PodSpec) where
  -- After the certificates of the repo server are set up, exactly one init container is named
  -- update-ca-certificates, the one that builds them from the image in use, and the other init
  -- containers are as they were. A container of another image is as it was; of one with the image,
  -- nothing but the mounts changes: the source of the certificates is mounted nowhere in it, each
  -- mount of their target is there, at the place that RHEL uses, and every other mount is as it was.
  pub update_system_ca_trust_building-containers :
      (select is_update
          (update_system_ca_trust_building context cr drop prod_image pod).init_containers
        ≡ trust_container context cr drop prod_image ∷ [])
      × (select
            (λ c. not (is_update c))
            (update_system_ca_trust_building context cr drop prod_image pod).init_containers
          ≡ select (λ c. not (is_update c)) pod.init_containers)
      × All2
          (RedirectedContainer prod_image)
          pod.containers
          (update_system_ca_trust_building context cr drop prod_image pod).containers
  unfolding update_system_ca_trust_building trust_container
  update_system_ca_trust_building-containers = (
    select-++ is_update (select (λ c. not (is_update c)) pod.init_containers) _
        ∙ ap (λ l. l ++ (trust_container context cr drop prod_image ∷ []))
            (select-not is_update pod.init_containers),
    select-++ (λ c. not (is_update c)) (select (λ c. not (is_update c)) pod.init_containers) _
        ∙ ++-nil _
        ∙ select-select (λ c. not (is_update c)) pod.init_containers,
    redirect-All2 prod_image pod.containers,
  )
