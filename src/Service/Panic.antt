-- ===== src/Service/Panic.antt =====
-- Where the amendment of the default instance panics, and where it does not.
use gitops_operator.Base.{
  String, ◌≡◌, refl, sym, ap, ◌∙◌, subst, ◌≢◌, Bool, true, false, ◌||◌, Option, none, some,
  if◌then◌else◌, ◌==◌, ==-of_eq,
}
use gitops_operator.Kube.{
  ObjectMeta, Resources, DexSpec, SsoSpec, NodePlacement, ArgoCdSpec, Kind, Object, Change,
}
use gitops_operator.DefaultCr.{Facts, get_argo_sso_spec, get_argo_dex_spec, default_spec}
use gitops_operator.Service.Default.{
  Amendment, is_none, fill_application_set, wanted_dex, fill_dex_resources, fill_dex, fill_sso,
  fill_controller, amend_dex, finish_amendment, continue_amendment, amend_spec, amend_instance,
  change_of,
}

abbrev IsFine : Amendment → Type 0
IsFine none = ⊥
IsFine (some _) = Unit {0}

fill_dex-IsFine :
    (w : DexSpec) (spec : ArgoCdSpec) (sso : SsoSpec) (d : Option DexSpec)
    → IsFine (fill_dex (some w) spec sso d)
fill_dex-IsFine w spec sso none = tt
fill_dex-IsFine w spec sso (some d) = go d.resources
  where
    go : (r : Option Resources) → IsFine (fill_dex_resources (some w) spec sso d r)
    go (some r) = tt
    go none = tt

fill_sso-IsFine :
    (w : DexSpec) (spec : ArgoCdSpec) (sso : Option SsoSpec) → IsFine (fill_sso (some w) spec sso)
fill_sso-IsFine w spec none = tt
fill_sso-IsFine w spec (some sso) = go (sso.provider == "dex")
  where
    go : (b : Bool) → IsFine (if b then fill_dex (some w) spec sso sso.dex else some (true, spec))
    go true = fill_dex-IsFine w spec sso sso.dex
    go false = tt

finish-IsFine :
    (wanted : ArgoCdSpec) (a : Amendment) → IsFine a → IsFine (finish_amendment wanted a)
finish-IsFine wanted none h = absurd h
finish-IsFine wanted (some _) h = tt

amend_dex-IsFine :
    (use_dex : ArgoCdSpec → Bool) (wanted : ArgoCdSpec) (w : DexSpec) (changed : Bool)
    (spec : ArgoCdSpec)
    → wanted_dex wanted.sso ≡ some w
    → IsFine (amend_dex use_dex wanted changed spec)
amend_dex-IsFine use_dex wanted w changed spec h = go (use_dex spec)
  where
    go :
        (b : Bool)
        → IsFine
            (if b then fill_sso (wanted_dex wanted.sso) spec spec.sso else some (changed, spec))
    go true =
        subst (λ o. IsFine (fill_sso o spec spec.sso)) (sym h) (fill_sso-IsFine w spec spec.sso)
    go false = tt

amend_spec-IsFine :
    (use_dex : ArgoCdSpec → Bool) (wanted spec : ArgoCdSpec) (r : Option Resources) (w : DexSpec)
    → wanted.application_set ≡ some r
    → wanted_dex wanted.sso ≡ some w
    → IsFine (amend_spec use_dex wanted spec)
unfolding amend_spec
amend_spec-IsFine use_dex wanted spec r w e h =
    subst
      (λ o.
        IsFine
          (continue_amendment use_dex wanted (fill_application_set o spec spec.application_set)))
      (sym e) (go spec.application_set)
  where
    continued :
        (changed : Bool) (s : ArgoCdSpec)
        → IsFine (continue_amendment use_dex wanted (some (changed, s)))
    continued changed s =
        finish-IsFine wanted
          (amend_dex use_dex wanted (changed || is_none s.controller) (fill_controller wanted s))
          (amend_dex-IsFine use_dex wanted w (changed || is_none s.controller)
            (fill_controller wanted s) h)

    go :
        (o : Option (Option Resources))
        → IsFine (continue_amendment use_dex wanted (fill_application_set (some r) spec o))
    go none = continued false spec
    go (some (some x)) = continued false spec
    go (some none) = continued true (record spec { application_set = some r })

change-ne-panic :
    (existing : Object Kind.argo_cd_kind) (a : Amendment)
    → IsFine a
    → change_of existing a ≢ Change.panic
change-ne-panic existing none h e = h
change-ne-panic existing (some (true, spec)) h e = cc
change-ne-panic existing (some (false, spec)) h e = cc

-- On an OpenShift cluster without external authentication, the amendment of an instance towards the
-- default one does not panic, whatever the placement that is wanted.
pub amend_instance-ne-panic :
    (use_dex : ArgoCdSpec → Bool) (facts : Facts) (exclusions : String)
    (placement : Option NodePlacement) (meta : ObjectMeta) (existing : Object Kind.argo_cd_kind)
    → facts.is_openshift_cluster ≡ true
    → facts.external_authentication ≡ false
    → amend_instance use_dex
        (record {
          meta = meta;
          body = record (default_spec facts exclusions) { node_placement = placement };
        })
        existing
      ≢ Change.panic
unfolding amend_instance get_argo_sso_spec
amend_instance-ne-panic use_dex facts exclusions placement meta existing o e =
    let wanted : ArgoCdSpec = record (default_spec facts exclusions) {
      node_placement = placement;
    } in
    change-ne-panic existing (amend_spec use_dex wanted existing.body)
      (amend_spec-IsFine use_dex wanted existing.body _ get_argo_dex_spec refl (rw (o, e) refl))

-- Where the wanted instance has no SSO section, as on a cluster that is not OpenShift or has external
-- authentication, but has an application set, and the existing one uses Dex with a section that has no
-- resources: its amendment panics. Whether Dex is in use depends on the SSO section alone.
pub amend_instance-is-panic :
    (use_dex : ArgoCdSpec → Bool) (wanted existing : Object Kind.argo_cd_kind)
    (r : Option Resources) (sso : SsoSpec) (d : DexSpec)
    → wanted.body.application_set ≡ some r
    → wanted.body.sso ≡ none
    → existing.body.sso ≡ some sso
    → sso.provider ≡ "dex"
    → sso.dex ≡ some d
    → d.resources ≡ none
    → ((spec : ArgoCdSpec) → spec.sso ≡ existing.body.sso → use_dex spec ≡ true)
    → amend_instance use_dex wanted existing ≡ Change.panic
unfolding amend_instance amend_spec
amend_instance-is-panic use_dex wanted existing r sso d hr hn hs hp hd hz uses =
    ap (change_of existing) (whole existing.body.application_set wanted.body.application_set hr)
  where
    no_dex :
        (o : Option SsoSpec)
        → wanted_dex o ≡ none
        → (spec : ArgoCdSpec) → spec.sso ≡ some sso
        → fill_sso (wanted_dex o) spec spec.sso ≡ none
    no_dex o h spec e =
        ap (fill_sso (wanted_dex o) spec) e
        ∙ rw (==-of_eq sso.provider "dex" hp) (
            ap (fill_dex (wanted_dex o) spec sso) hd
            ∙ ap (fill_dex_resources (wanted_dex o) spec sso d) hz
            ∙ ap (λ w. fill_dex_resources w spec sso d none) h)

    stopped :
        (changed : Bool) (spec : ArgoCdSpec)
        → spec.sso ≡ existing.body.sso
        → continue_amendment use_dex wanted.body (some (changed, spec)) ≡ none
    stopped changed spec e = ap (finish_amendment wanted.body) (
        ap
          (λ b.
            if b
            then fill_sso (wanted_dex wanted.body.sso) (fill_controller wanted.body spec) spec.sso
            else some (changed || is_none spec.controller, fill_controller wanted.body spec))
          (uses (fill_controller wanted.body spec) e)
        ∙ no_dex wanted.body.sso (ap wanted_dex hn) (fill_controller wanted.body spec) (e ∙ hs))

    whole :
        (o w : Option (Option Resources))
        → w ≡ some r
        → continue_amendment use_dex wanted.body (fill_application_set w existing.body o) ≡ none
    whole none w h = stopped false existing.body refl
    whole (some (some x)) w h = stopped false existing.body refl
    whole (some none) none h = refl
    whole (some none) (some x) h =
        stopped true (record existing.body { application_set = some x }) refl
