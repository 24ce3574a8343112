-- ===== src/Service/Upkeep.antt =====
-- What an amendment of the default instance keeps of it, and where it panics.
use gitops_operator.Base.{
  ◌≡◌, refl, sym, ap, ◌∙◌, subst, ◌⊎◌, inl, inr, Bool, true, false, not, ◌||◌, Option, none, some,
  if◌then◌else◌, ||-true_right, ◌==◌, same_option, same_option_refl,
}
use gitops_operator.Kube.{Resources, DexSpec, SsoSpec, ArgoCdSpec, Kind, Object, Change}
use gitops_operator.Service.Default.{
  Amendment, or_default, is_none, fill_application_set, wanted_dex, fill_dex_resources, fill_dex,
  fill_sso, fill_sections, fill_controller, amend_dex, finish_amendment, continue_amendment,
  amend_spec, lacks_sections, change_of, amend_instance, NodePlacement-deep_equal,
}
use mathlib.Core.Option.{none-ne-some, some-injective}
use mathlib.Core.Bool.{true≢false}

abbrev AllOf : (Bool → ArgoCdSpec → Type 0) → Amendment → Type 0
AllOf P none = Unit {0}
AllOf P (some (changed, spec)) = P changed spec

-- Resources that are set stay, missing ones are the default's.
abbrev pub Fills : Option Resources → Option Resources → Option Resources → Type 0
Fills none wanted amended = amended ≡ wanted
Fills (some r) wanted amended = amended ≡ some r

or_default-Fills : (x w : Option Resources) → Fills x w (or_default x w)
or_default-Fills none w = refl
or_default-Fills (some r) w = refl

-- The amended spec: the resources that are set stay, those that are missing are the default's, the
-- placement is the same as the wanted one, and what belongs to the user stays.
pub record Upkept (wanted spec amended : ArgoCdSpec) : Type 0 where
  pub controller : Fills spec.controller wanted.controller amended.controller
  pub grafana : Fills spec.grafana wanted.grafana amended.grafana
  pub ha : Fills spec.ha wanted.ha amended.ha
  pub redis : Fills spec.redis wanted.redis amended.redis
  pub repo : Fills spec.repo wanted.repo amended.repo
  pub server : Fills spec.server wanted.server amended.server
  pub node_placement : same_option amended.node_placement wanted.node_placement ≡ true
  pub ha_enabled : amended.ha_enabled ≡ spec.ha_enabled
  pub server_route : amended.server_route ≡ spec.server_route
  pub rbac : amended.rbac ≡ spec.rbac
  pub resource_exclusions : amended.resource_exclusions ≡ spec.resource_exclusions
  pub disable_metrics : amended.disable_metrics ≡ spec.disable_metrics

-- A spec that differs from the original only in the application set and SSO, with its controller
-- filled, gives an amended one; where nothing counts as changed, the controller was set.
abbrev Nearly : ArgoCdSpec → ArgoCdSpec → Bool → ArgoCdSpec → Type 0
Nearly wanted spec changed s =
    Upkept wanted spec (fill_sections wanted s)
    × ((changed ≡ true) ⊎ (is_none spec.controller ≡ false))
    × (lacks_sections wanted s ≡ lacks_sections wanted spec)

-- The amended spec; where nothing counts as changed, nothing was missing.
abbrev Finished : ArgoCdSpec → ArgoCdSpec → Bool → ArgoCdSpec → Type 0
Finished wanted spec changed s =
    Upkept wanted spec s
    × ((changed ≡ true)
        ⊎ ((is_none spec.controller ≡ false) × (lacks_sections wanted spec ≡ false)))

module _ (P : Bool → ArgoCdSpec → Type 0) where
  fill_dex-All :
      (wanted : Option DexSpec) (spec : ArgoCdSpec) (sso : SsoSpec) (d : Option DexSpec)
      → P true spec
      → ((x : Option SsoSpec) → P true (record spec { sso = x }))
      → AllOf P (fill_dex wanted spec sso d)
  fill_dex-All wanted spec sso none p f = p
  fill_dex-All wanted spec sso (some d) p f = go wanted d.resources
    where
      go : (w : Option DexSpec) (r : Option Resources) → AllOf P (fill_dex_resources w spec sso d r)
      go w (some r) = p
      go none none = tt
      go (some x) none = f _

  fill_sso-All :
      (wanted : Option DexSpec) (spec : ArgoCdSpec) (sso : Option SsoSpec)
      → P true spec
      → ((x : Option SsoSpec) → P true (record spec { sso = x }))
      → AllOf P (fill_sso wanted spec sso)
  fill_sso-All wanted spec none p f = p
  fill_sso-All wanted spec (some sso) p f = go (sso.provider == "dex")
    where
      go : (b : Bool) → AllOf P (if b then fill_dex wanted spec sso sso.dex else some (true, spec))
      go true = fill_dex-All wanted spec sso sso.dex p f
      go false = p

  amend_dex-All :
      (use_dex : ArgoCdSpec → Bool) (wanted : ArgoCdSpec) (changed : Bool) (spec : ArgoCdSpec)
      → P changed spec
      → P true spec
      → ((x : Option SsoSpec) → P true (record spec { sso = x }))
      → AllOf P (amend_dex use_dex wanted changed spec)
  amend_dex-All use_dex wanted changed spec q p f = go (use_dex spec)
    where
      go :
          (b : Bool)
          → AllOf P
              (if b then fill_sso (wanted_dex wanted.sso) spec spec.sso else some (changed, spec))
      go true = fill_sso-All (wanted_dex wanted.sso) spec spec.sso p f
      go false = q

finish-All :
    (wanted spec : ArgoCdSpec) (a : Amendment)
    → AllOf (Nearly wanted spec) a
    → AllOf (Finished wanted spec) (finish_amendment wanted a)
finish-All wanted spec none p = tt
finish-All wanted spec (some (changed, s)) (u, c, l) = (u, go c (lacks_sections wanted spec) refl)
  where
    go :
        (changed ≡ true) ⊎ (is_none spec.controller ≡ false)
        → (b : Bool) → lacks_sections wanted spec ≡ b
        → ((changed || lacks_sections wanted s) ≡ true)
          ⊎ ((is_none spec.controller ≡ false) × (lacks_sections wanted spec ≡ false))
    go (inl t) b e = inl (rw t refl)
    go (inr n) true e = inl (ap (λ x. changed || x) (l ∙ e) ∙ ||-true_right changed)
    go (inr n) false e = inr (n, e)

abbrev amended_fields :
    (wanted spec : ArgoCdSpec) (app : Option (Option Resources)) (sso : Option SsoSpec)
    → Upkept wanted spec (
        fill_sections wanted
          (record (fill_controller wanted (record spec { application_set = app })) { sso = sso }))
amended_fields wanted spec app sso = record {
  controller = or_default-Fills spec.controller wanted.controller;
  grafana = or_default-Fills spec.grafana wanted.grafana;
  ha = or_default-Fills spec.ha wanted.ha;
  redis = or_default-Fills spec.redis wanted.redis;
  repo = or_default-Fills spec.repo wanted.repo;
  server = or_default-Fills spec.server wanted.server;
  node_placement = same_option_refl wanted.node_placement;
  ha_enabled = refl;
  server_route = refl;
  rbac = refl;
  resource_exclusions = refl;
  disable_metrics = refl;
}

continue-All :
    (use_dex : ArgoCdSpec → Bool) (wanted spec : ArgoCdSpec) (changed : Bool)
    (app : Option (Option Resources))
    → AllOf
        (Finished wanted spec)
        (continue_amendment use_dex wanted (some (changed, record spec { application_set = app })))
continue-All use_dex wanted spec changed app =
    let filled = fill_controller wanted (record spec { application_set = app }) in
    let done : (x : Option SsoSpec) → Nearly wanted spec true (record filled { sso = x }) =
      λ x. (amended_fields wanted spec app x, inl refl, refl) in
    finish-All wanted spec (amend_dex use_dex wanted (changed || is_none spec.controller) filled) (
      amend_dex-All (Nearly wanted spec) use_dex wanted (changed || is_none spec.controller) filled
        (amended_fields wanted spec app spec.sso, go (is_none spec.controller) refl, refl)
        (done spec.sso) done)
  where
    go :
        (b : Bool)
        → is_none spec.controller ≡ b
        → ((changed || is_none spec.controller) ≡ true) ⊎ (is_none spec.controller ≡ false)
    go true e = inl (rw e (||-true_right changed))
    go false e = inr e

amend_spec-All :
    (use_dex : ArgoCdSpec → Bool) (wanted spec : ArgoCdSpec)
    → AllOf (Finished wanted spec) (amend_spec use_dex wanted spec)
unfolding amend_spec
amend_spec-All use_dex wanted spec = go spec.application_set wanted.application_set
  where
    go :
        (o w : Option (Option Resources))
        → AllOf
            (Finished wanted spec)
            (continue_amendment use_dex wanted (fill_application_set w spec o))
    go none w = continue-All use_dex wanted spec false spec.application_set
    go (some (some r)) w = continue-All use_dex wanted spec false spec.application_set
    go (some none) none = tt
    go (some none) (some r) = continue-All use_dex wanted spec true (some r)

or_false : (a b : Bool) → (a || b) ≡ false → (a ≡ false) × (b ≡ false)
or_false true b e = absurd (true≢false e)
or_false false b e = (refl, e)

set-Fills : (x w : Option Resources) → is_none x ≡ false → Fills x w x
set-Fills none w e = absurd (true≢false e)
set-Fills (some r) w e = refl

not-false : (b : Bool) → not b ≡ false → b ≡ true
not-false true e = refl
not-false false e = absurd (true≢false e)

-- A spec that lacks nothing is amended as it is.
complete-Upkept :
    (wanted spec : ArgoCdSpec)
    → is_none spec.controller ≡ false
    → lacks_sections wanted spec ≡ false
    → Upkept wanted spec spec
complete-Upkept wanted spec c l =
    let (grafana, l₁) = or_false (is_none spec.grafana) _ l in
    let (ha, l₂) = or_false (is_none spec.ha) _ l₁ in
    let (redis, l₃) = or_false (is_none spec.redis) _ l₂ in
    let (repo, l₄) = or_false (is_none spec.repo) _ l₃ in
    let (server, placed) = or_false (is_none spec.server) _ l₄ in
    record {
      controller = set-Fills spec.controller wanted.controller c;
      grafana = set-Fills spec.grafana wanted.grafana grafana;
      ha = set-Fills spec.ha wanted.ha ha;
      redis = set-Fills spec.redis wanted.redis redis;
      repo = set-Fills spec.repo wanted.repo repo;
      server = set-Fills spec.server wanted.server server;
      node_placement = not-false _ placed;
      ha_enabled = refl;
      server_route = refl;
      rbac = refl;
      resource_exclusions = refl;
      disable_metrics = refl;
    }

-- The object that a change leaves in the cluster.
abbrev pub left_by : {A : Type 0} → A → Change A → Option A
left_by x Change.keep = some x
left_by x (Change.replace y) = some y
left_by x Change.panic = none

-- After an amendment that does not panic, whether it updates the instance or finds nothing to change,
-- the instance in the cluster has the resources that were set in the controller and in the sections
-- after SSO, the default's where none were set, a placement that is the same as the wanted one, and
-- the metadata, high availability, server route, RBAC, resource exclusions and switch of the metrics
-- that it had.
pub amend_instance-Upkept :
    (use_dex : ArgoCdSpec → Bool) (wanted existing amended : Object Kind.argo_cd_kind)
    → left_by existing (amend_instance use_dex wanted existing) ≡ some amended
    → Upkept wanted.body existing.body amended.body × (amended.meta ≡ existing.meta)
unfolding amend_instance
amend_instance-Upkept use_dex wanted existing amended =
    go (amend_spec use_dex wanted.body existing.body)
      (amend_spec-All use_dex wanted.body existing.body)
  where
    is_same :
        (o : Object Kind.argo_cd_kind)
        → Upkept wanted.body existing.body o.body × (o.meta ≡ existing.meta)
        → some o ≡ some amended
        → Upkept wanted.body existing.body amended.body × (amended.meta ≡ existing.meta)
    is_same o h e =
        subst (λ x. Upkept wanted.body existing.body x.body × (x.meta ≡ existing.meta))
          (some-injective o amended e) h

    go :
        (a : Amendment)
        → AllOf (Finished wanted.body existing.body) a
        → left_by existing (change_of existing a) ≡ some amended
        → Upkept wanted.body existing.body amended.body × (amended.meta ≡ existing.meta)
    go none p e = absurd (none-ne-some amended e)
    go (some (true, spec)) (u, _) e =
        is_same (record { meta = existing.meta; body = spec }) (u, refl) e
    go (some (false, spec)) (_, inl t) e = absurd (true≢false (sym t))
    go (some (false, spec)) (_, inr (c, l)) e =
        is_same existing (complete-Upkept wanted.body existing.body c l, refl) e
