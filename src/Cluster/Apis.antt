-- ===== src/Cluster/Apis.antt =====
-- Which flags an inspection of the cluster sets.
use gitops_operator.Base.{
  ◌≡◌, refl, sym, ap, ap₂, ◌∙◌, inl, inr, Bool, true, false, ◌||◌, List, [], ◌∷◌, ◌++◌, arith,
  if◌then◌else◌, Bool-cases, any, ++-nil, ++-assoc,
}
use gitops_operator.Kube.{Error, Result}
use mathlib.Core.Logic.{if_neg}
use mathlib.Core.Bool.{false≢true}
use gitops_operator.Cluster.{
  set_flag, inspect_config, verify_each, inspect_cluster, ApiGroup, ApiGroup-discrete, Flags, Probe,
  same_group, verify, basic_groups, openshift_groups,
}

-- the flag of a group that is probed
abbrev pub probed : Result Bool → Bool → Bool
probed (Result.ok found) old = found
probed (Result.err _) old = old

abbrev pub error_of : Result Bool → List Error
error_of (Result.ok _) = []
error_of (Result.err e) = e ∷ []

-- An OpenShift cluster has the configuration group.
abbrev pub is_openshift : Probe → Bool
is_openshift probe = probed (probe ApiGroup.config_group) false

-- The groups that an inspection probes, in order.
abbrev pub probed_groups : Probe → List ApiGroup
probed_groups probe =
    ApiGroup.olm_group
    ∷ ApiGroup.monitoring_group
    ∷ ApiGroup.route_group
    ∷ ApiGroup.config_group
    ∷ (if is_openshift probe
        then ApiGroup.console_group ∷ ApiGroup.template_group ∷ ApiGroup.apps_group
          ∷ ApiGroup.oauth_group ∷ []
        else [])

abbrev pub is_probed : Probe → ApiGroup → Bool
is_probed probe g = any (λ h. same_group h g) (probed_groups probe)

abbrev pub errors_of : Probe → List ApiGroup → List Error
errors_of probe [] = []
errors_of probe (g ∷ groups) = error_of (probe g) ++ errors_of probe groups

same_group-eq : (g h : ApiGroup) → same_group g h ≡ true → g ≡ h
same_group-eq g h e = elim (ApiGroup-discrete g h) [
  | yes p ↦ p
  | no p ↦ absurd (false≢true (sym (if_neg _ p true false) ∙ e))
]

verify-flag :
    (g h : ApiGroup) (r : Result Bool) (flags : Flags)
    → (verify g r flags).0 h ≡ (if same_group g h then probed r (flags h) else flags h)
verify-flag g h (Result.ok b) flags = refl
verify-flag g h (Result.err e) flags = ground arith

verify-errors : (g : ApiGroup) (r : Result Bool) (flags : Flags) → (verify g r flags).1 ≡ error_of r
verify-errors g (Result.ok b) flags = refl
verify-errors g (Result.err e) flags = refl

-- a probe of the group `g` itself gives what the group's own reply says
verify-flag_at :
    (probe : Probe) (h g : ApiGroup) (flags : Flags)
    → (verify h (probe h) flags).0 g
      ≡ (if same_group h g then probed (probe g) (flags g) else flags g)
verify-flag_at probe h g flags = elim (Bool-cases (same_group h g)) [
  | inl e ↦
      verify-flag h g (probe h) flags
      ∙ rw e (ap (λ k. probed (probe k) (flags g)) (same_group-eq h g e))
  | inr e ↦ verify-flag h g (probe h) flags ∙ rw e refl
]

probed-twice :
    (b c x : Bool) (r : Result Bool)
    → (if c then probed r (if b then probed r x else x) else (if b then probed r x else x))
      ≡ (if b || c then probed r x else x)
probed-twice true true x (Result.ok y) = refl
probed-twice true true x (Result.err e) = refl
probed-twice true false x r = refl
probed-twice false c x r = refl

-- The flag of a group after a sequence of probes.
verify_each-flag :
    (probe : Probe) (groups : List ApiGroup) (flags : Flags) (g : ApiGroup)
    → (verify_each probe groups flags).0 g
      ≡ (if any (λ h. same_group h g) groups then probed (probe g) (flags g) else flags g)
unfolding verify_each
verify_each-flag probe [] flags g = refl
verify_each-flag probe (h ∷ groups) flags g =
    let first = (verify h (probe h) flags).0 in
    let c = any (λ h. same_group h g) groups in
    verify_each-flag probe groups first g
    ∙ ap (λ y. if c then probed (probe g) y else y) (verify-flag_at probe h g flags)
    ∙ probed-twice (same_group h g) c (flags g) (probe g)

verify_each-errors :
    (probe : Probe) (groups : List ApiGroup) (flags : Flags)
    → (verify_each probe groups flags).1 ≡ errors_of probe groups
unfolding verify_each
verify_each-errors probe [] flags = refl
verify_each-errors probe (h ∷ groups) flags =
    ap₂ (λ a b. a ++ b) (verify-errors h (probe h) flags)
      (verify_each-errors probe groups (verify h (probe h) flags).0)

-- One sequence after the other.
verify_each-append :
    (probe : Probe) (groups more : List ApiGroup) (flags : Flags)
    → verify_each probe (groups ++ more) flags ≡ (
        let (first, errors) = verify_each probe groups flags in
        let (last, others) = verify_each probe more first in (last, errors ++ others))
unfolding verify_each
verify_each-append probe [] more flags = refl
verify_each-append probe (g ∷ groups) more flags =
    let first = verify g (probe g) flags in
    ap (λ p. (p.0, first.1 ++ p.1)) (verify_each-append probe groups more first.0)
    ∙ ap (λ e. ((verify_each probe more (verify_each probe groups first.0).0).0, e))
        (sym (
          ++-assoc first.1 (verify_each probe groups first.0).1
            (verify_each probe more (verify_each probe groups first.0).0).1))

inspect_config-rest :
    (probe : Probe) (flags : Flags) (errors : List Error) (r : Result Bool)
    → inspect_config probe flags errors r ≡ (
        let (first, e) = verify ApiGroup.config_group r flags in
        let (last, more) =
          verify_each probe (if probed r false then openshift_groups else []) first in
        (last, errors ++ (e ++ more)))
unfolding ApiGroup-discrete verify_each
inspect_config-rest probe flags errors (Result.err e) = refl
inspect_config-rest probe flags errors (Result.ok true) = refl
inspect_config-rest probe flags errors (Result.ok false) =
    ap (λ e. (set_flag ApiGroup.config_group false flags, e)) (sym (++-nil errors))

-- An inspection is one sequence of probes.
inspect_cluster-each :
    (probe : Probe) (flags : Flags)
    → inspect_cluster probe flags ≡ verify_each probe (probed_groups probe) flags
unfolding inspect_cluster verify_each
inspect_cluster-each probe flags =
    let (basic, errors) = verify_each probe basic_groups flags in
    inspect_config-rest probe basic errors (probe ApiGroup.config_group)
    ∙ sym (
        verify_each-append probe basic_groups
          (ApiGroup.config_group ∷ (if is_openshift probe then openshift_groups else [])) flags)

-- An inspection probes OLM, monitoring, routes and the configuration group, and the four OpenShift
-- groups if the configuration group was found. The flag of a probed group is what the probe found,
-- and stays as it was where the probe failed or the group was not probed; the result joins the errors
-- of the probes that failed, in order.
pub inspect_cluster-flags :
    (probe : Probe) (flags : Flags)
    → ((g : ApiGroup)
        → (inspect_cluster probe flags).0 g
          ≡ (if is_probed probe g then probed (probe g) (flags g) else flags g))
      × ((inspect_cluster probe flags).1 ≡ errors_of probe (probed_groups probe))
unfolding inspect_cluster
inspect_cluster-flags probe flags = (
  λ g.
      ap (λ p. p.0 g) (inspect_cluster-each probe flags)
      ∙ verify_each-flag probe (probed_groups probe) flags g,
  ap (λ p. p.1) (inspect_cluster-each probe flags)
      ∙ verify_each-errors probe (probed_groups probe) flags,
)
