-- ===== src/Plugin/Amendments.antt =====
-- That the amendment of the plugin's Deployment comes to rest.
use gitops_operator.Base.{String-deep_equal, List-deep_equal, StringMap-deep_equal}
use gitops_operator.Kube.{Toleration-deep_equal, Number-deep_equal}
use gitops_operator.Base.{
  String, ◌≡◌, refl, sym, ap, ◌∙◌, subst, ◌≢◌, inl, inr, true, false, Option, none, some, List, [],
  ◌∷◌, map, if◌then◌else◌, Bool-cases, &&-false_right, &&-intro, eq_refl, StringMap, made, lookup,
  text_of, find-put_self, same_entries_refl, same_text?_refl, deep_equal_refl, same_list,
  same_option_refl, sort_onto, sort_slice, sort_slice-cons,
}
use gitops_operator.Kube.{Container, PodSpec, Kind, Object, key_of, Change, owned, Restful}
use gitops_operator.Service.Backend.{same_seccomp}
use gitops_operator.Service.Amendments.{HasContainer}
use gitops_operator.Plugin.Equality.{
  Container-deep_equal, Volume-deep_equal, semantic_resources, semantic_resources_refl,
}
use gitops_operator.Plugin.Sorting.{
  sort_containers, sort_volumes, sort_tolerations, container_less, sort_fields,
}
use gitops_operator.Plugin.Reconcile.{
  hash_annotation, same_plugin_pod, same_selector, same_plugin_deployment, take_plugin_pod,
  take_plugin_deployment, replace_plugin_deployment, amend_first_resources, amend_plugin_deployment,
}

same_seccomp_refl : (p : Option (Option String)) → same_seccomp p p ≡ true
same_seccomp_refl none = refl
same_seccomp_refl (some p) = same_text?_refl p

same_selector_refl : (p : Option StringMap) → same_selector p p ≡ true
same_selector_refl none = refl
same_selector_refl (some m) = same_entries_refl (made m)

pub same_plugin_pod-take :
    (found wanted : PodSpec) → same_plugin_pod (take_plugin_pod found wanted) wanted ≡ true
unfolding same_plugin_pod
same_plugin_pod-take found wanted = &&-intro (deep_equal_refl (sort_containers wanted.containers)) (
    &&-intro (deep_equal_refl (sort_volumes wanted.volumes)) (
      &&-intro (eq_refl wanted.restart_policy) (
        &&-intro (eq_refl wanted.dns_policy) (
          &&-intro (same_entries_refl (made wanted.node_selector)) (
            &&-intro (deep_equal_refl (sort_tolerations wanted.tolerations))
              (same_seccomp_refl wanted.pod_seccomp))))))

-- A Deployment with the labels, the replicas, the selector, the hash and the pod of another.
pub same_plugin_deployment-parts :
    (found wanted : Object Kind.deployment_kind)
    → found.meta.labels ≡ wanted.meta.labels
    → found.body.replicas ≡ wanted.body.replicas
    → found.body.selector ≡ wanted.body.selector
    → found.body.template_labels ≡ wanted.body.template_labels
    → text_of (lookup found.body.template_annotations hash_annotation)
      ≡ text_of (lookup wanted.body.template_annotations hash_annotation)
    → same_plugin_pod found.body.pod wanted.body.pod ≡ true
    → same_plugin_deployment found wanted ≡ true
unfolding same_plugin_deployment
same_plugin_deployment-parts found wanted a b c d e f =
    rw (a, b, c, d, e)
      (&&-intro
        (&&-intro (same_entries_refl (made wanted.meta.labels)) (
          &&-intro (same_option_refl wanted.body.replicas) (
            &&-intro (same_selector_refl wanted.body.selector)
              (&&-intro (same_entries_refl (made wanted.body.template_labels)) (eq_refl _)))))
        f)

same_plugin_deployment-take :
    (found wanted : Object Kind.deployment_kind)
    → same_plugin_deployment (take_plugin_deployment found wanted) wanted ≡ true
unfolding lookup take_plugin_deployment
same_plugin_deployment-take found wanted =
    same_plugin_deployment-parts (take_plugin_deployment found wanted) wanted refl refl refl refl
      (ap text_of (
        find-put_self hash_annotation
          (text_of (lookup wanted.body.template_annotations hash_annotation))
          (made found.body.template_annotations)))
      (same_plugin_pod-take found.body.pod wanted.body.pod)

sort_containers_nil : sort_containers [] ≡ []
unfolding sort_containers sort_slice sort_onto
sort_containers_nil = refl

sort_containers-cons : (y : Container) (ys : List Container) → sort_containers (y ∷ ys) ≢ []
unfolding sort_containers
sort_containers-cons y ys = sort_slice-cons container_less (sort_fields y) (map sort_fields ys)

nil-same : (zs : List Container) → zs ≢ [] → same_list [] zs ≡ false
nil-same [] h = absurd (h refl)
nil-same (z ∷ zs) h = refl

-- A pod with no container is not the same as one with a container.
same_plugin_pod-nil :
    (found wanted : PodSpec) (y : Container) (ys : List Container)
    → found.containers ≡ []
    → wanted.containers ≡ y ∷ ys
    → same_plugin_pod found wanted ≡ false
unfolding same_plugin_pod
same_plugin_pod-nil found wanted y ys e f =
    rw (e, f, sort_containers_nil, nil-same (sort_containers (y ∷ ys)) (sort_containers-cons y ys))
      refl

same_plugin_deployment-nil :
    (found wanted : Object Kind.deployment_kind) (y : Container) (ys : List Container)
    → found.body.pod.containers ≡ []
    → wanted.body.pod.containers ≡ y ∷ ys
    → same_plugin_deployment found wanted ≡ false
unfolding same_plugin_deployment
same_plugin_deployment-nil found wanted y ys e f =
    rw (same_plugin_pod-nil found.body.pod wanted.body.pod y ys e f) (&&-false_right _)

module _ (wanted : Object Kind.deployment_kind) where
  replace_plugin-panic :
      (found : Object Kind.deployment_kind) (ys : List Container)
      → HasContainer ys
      → replace_plugin_deployment wanted found ys ≢ Change.panic
  replace_plugin-panic found [] h e = h
  replace_plugin-panic found (c ∷ ys) h e = cc

  replace_plugin-replace :
      (found y : Object Kind.deployment_kind) (ys : List Container)
      → replace_plugin_deployment wanted found ys ≡ Change.replace y
      → y ≡ take_plugin_deployment found wanted
  replace_plugin-replace found y [] e = cc
  replace_plugin-replace found y (c ∷ ys) e = cc

  amend_first-replace :
      (found y : Object Kind.deployment_kind) (xs ys : List Container)
      → amend_first_resources wanted found xs ys ≡ Change.replace y
      → y ≡ take_plugin_deployment found wanted
  amend_first-replace found y [] ys = λ e. cc
  amend_first-replace found y (c ∷ xs) [] = λ e. cc
  amend_first-replace found y (c ∷ xs) (d ∷ ys) =
      elim (Bool-cases (semantic_resources c.resources d.resources)) [
        | inl e ↦ rw e (λ p. cc)
        | inr e ↦ rw e (λ p. cc)
      ]

  amend_first-panic :
      (found : Object Kind.deployment_kind) (xs ys : List Container)
      → HasContainer xs
      → HasContainer ys
      → amend_first_resources wanted found xs ys ≢ Change.panic
  amend_first-panic found [] ys h g = absurd h
  amend_first-panic found (c ∷ xs) [] h g = absurd g
  amend_first-panic found (c ∷ xs) (d ∷ ys) h g =
      elim (Bool-cases (semantic_resources c.resources d.resources)) [
        | inl e ↦ rw e (λ p. cc)
        | inr e ↦ rw e (λ p. cc)
      ]

  amend_first_refl :
      (found : Object Kind.deployment_kind) (xs : List Container)
      → HasContainer xs
      → amend_first_resources wanted found xs xs ≡ Change.keep
  amend_first_refl found [] h = absurd h
  amend_first_refl found (c ∷ xs) h = rw (semantic_resources_refl c.resources) refl

  amend_first-same :
      (found : Object Kind.deployment_kind) (xs ys : List Container)
      → HasContainer ys
      → xs ≡ ys
      → amend_first_resources wanted found xs ys ≡ Change.keep
  amend_first-same found xs ys h e =
      subst (λ zs. amend_first_resources wanted found zs ys ≡ Change.keep) (sym e)
        (amend_first_refl found ys h)

  amend_plugin_deployment-replace :
      (found y : Object Kind.deployment_kind)
      → amend_plugin_deployment wanted found ≡ Change.replace y
      → y ≡ take_plugin_deployment found wanted
  unfolding amend_plugin_deployment
  amend_plugin_deployment-replace found y =
      elim (Bool-cases (same_plugin_deployment found wanted)) [
        | inl e ↦
            rw e (amend_first-replace found y found.body.pod.containers wanted.body.pod.containers)
        | inr e ↦ rw e (replace_plugin-replace found y wanted.body.pod.containers)
      ]

  -- A Deployment with the containers that are wanted and all that is compared is kept.
  amend_plugin_deployment-keep :
      (found : Object Kind.deployment_kind)
      → HasContainer wanted.body.pod.containers
      → found.body.pod.containers ≡ wanted.body.pod.containers
      → same_plugin_deployment found wanted ≡ true
      → amend_plugin_deployment wanted found ≡ Change.keep
  unfolding amend_plugin_deployment
  amend_plugin_deployment-keep found h e f =
      rw f (amend_first-same found found.body.pod.containers wanted.body.pod.containers h e)

  amend_plugin_deployment-panic :
      (found : Object Kind.deployment_kind)
      → HasContainer wanted.body.pod.containers
      → amend_plugin_deployment wanted found ≢ Change.panic
  unfolding amend_plugin_deployment
  amend_plugin_deployment-panic found h =
      go found.body.pod.containers wanted.body.pod.containers refl refl h
    where
      go :
          (xs ys : List Container)
          → found.body.pod.containers ≡ xs
          → wanted.body.pod.containers ≡ ys
          → HasContainer ys
          → (if same_plugin_deployment found wanted
              then amend_first_resources wanted found xs ys
              else replace_plugin_deployment wanted found ys)
            ≢ Change.panic
      go xs [] e f h = absurd h
      go [] (y ∷ ys) e f h =
          rw (same_plugin_deployment-nil found wanted y ys e f)
            (replace_plugin-panic found (y ∷ ys) tt)
      go (x ∷ xs) (y ∷ ys) e f h = elim (Bool-cases (same_plugin_deployment found wanted)) [
        | inl q ↦ rw q (amend_first-panic found (x ∷ xs) (y ∷ ys) tt tt)
        | inr q ↦ rw q (replace_plugin-panic found (y ∷ ys) tt)
      ]

  -- The Deployment of the plugin comes to rest.
  pub deployment-Restful :
      (owner : String)
      → wanted.meta.owner ≡ none
      → HasContainer wanted.body.pod.containers
      → Restful owner (record {
        kind = Kind.deployment_kind;
        object = wanted;
        amend = amend_plugin_deployment wanted;
      })
  unfolding take_plugin_deployment
  deployment-Restful owner free h = record {
    free = free;
    calm = λ x. amend_plugin_deployment-panic x h;
    same_key = λ x y e. ap (λ z. key_of z.meta) (amend_plugin_deployment-replace x y e);
    made = amend_plugin_deployment-keep (owned owner wanted) h refl (
        same_plugin_deployment-parts (owned owner wanted) wanted refl refl refl refl refl
          (same_plugin_pod-take wanted.body.pod wanted.body.pod));
    amended = λ x y e.
        ap (amend_plugin_deployment wanted) (amend_plugin_deployment-replace x y e)
        ∙ amend_plugin_deployment-keep (take_plugin_deployment x wanted) h refl
            (same_plugin_deployment-take x wanted);
  }
