-- ===== src/Service/Amendments.antt =====
-- Amendments of the objects of the backend that are there already.
use gitops_operator.Base.{String-deep_equal, List-deep_equal}
use gitops_operator.Kube.{PolicyRule-deep_equal}
use gitops_operator.Base.{
  ◌≡◌, refl, sym, ap, ◌∙◌, ◌≢◌, inl, inr, ◌&&◌, none, List, [], ◌∷◌, Bool-cases, deep_equal,
}
use gitops_operator.Kube.{
  PolicyRule, Container, PodSpec, Kind, Object, key_of, View, Change, Target,
}
use gitops_operator.Service.Backend.{amend_cluster_role, amend_pod, same_first, same_pod}

abbrev pub HasContainer : List Container → Type 0
HasContainer [] = ⊥
HasContainer (_ ∷ _) = Unit {0}

-- The targets that are there.
abbrev pub Present : View → Target → Type 0
Present v t = v t.kind t.key ≢ none

-- What an amendment leaves in the place of an object.
abbrev pub replaced : {k : Kind} → Object k → Change (Object k) → Object k
replaced x (Change.replace y) = y
replaced x _ = x

pub same_key-of :
    {k : Kind} (x y : Object k) (change : Change (Object k))
    → key_of (replaced x change).meta ≡ key_of x.meta
    → change ≡ Change.replace y
    → key_of y.meta ≡ key_of x.meta
same_key-of x y change h e = ap (λ c. key_of (replaced x c).meta) (sym e) ∙ h

pub role_key :
    (wanted x : Object Kind.cluster_role_kind)
    → key_of (replaced x (amend_cluster_role wanted x)).meta ≡ key_of x.meta
unfolding amend_cluster_role
role_key wanted x = elim (Bool-cases (deep_equal {A = List PolicyRule} x.body wanted.body)) [
  | inl e ↦ rw e refl
  | inr e ↦ rw e refl
]

pub role-ne-panic :
    (wanted x : Object Kind.cluster_role_kind) → amend_cluster_role wanted x ≢ Change.panic
unfolding amend_cluster_role
role-ne-panic wanted x = elim (Bool-cases (deep_equal {A = List PolicyRule} x.body wanted.body)) [
  | inl e ↦ rw e (λ p. cc)
  | inr e ↦ rw e (λ p. cc)
]

pub pod_key :
    (found : Object Kind.deployment_kind) (wanted : PodSpec) (xs ys : List Container)
    → key_of (replaced found (amend_pod found wanted xs ys)).meta ≡ key_of found.meta
pod_key found wanted [] ys = refl
pod_key found wanted (x ∷ xs) [] = refl
pod_key found wanted (x ∷ xs) (y ∷ ys) =
    elim (Bool-cases (same_first x y && same_pod found.body.pod wanted)) [
      | inl e ↦ rw e refl
      | inr e ↦ rw e refl
    ]

pub pod-ne-panic :
    (found : Object Kind.deployment_kind) (wanted : PodSpec) (xs ys : List Container)
    → HasContainer xs
    → HasContainer ys
    → amend_pod found wanted xs ys ≢ Change.panic
pod-ne-panic found wanted [] ys h g = absurd h
pod-ne-panic found wanted (x ∷ xs) [] h g = absurd g
pod-ne-panic found wanted (x ∷ xs) (y ∷ ys) h g =
    elim (Bool-cases (same_first x y && same_pod found.body.pod wanted)) [
      | inl e ↦ rw e (λ p. cc)
      | inr e ↦ rw e (λ p. cc)
    ]
