-- ===== src/Service/Kept.antt =====
-- What the plugin's step of Reconcile leaves alone.
use gitops_operator.Base.{String, sym, ◌∙◌, subst, inl, inr, Bool, true, false, Bool-cases}
use gitops_operator.Kube.{
  NamespacedName, Kind, is_not_found, Result, after, Io, Server, View, OrFault, Settles,
  Ensures-mono, Ensures-after, Settles-mono, Ensures-get, SetsOwner, Protected, Guards,
}
use gitops_operator.Cluster.{get_cluster_version, version_in, cluster_version_key}
use gitops_operator.Service.Reconcile.{
  ServiceSettings, GitopsService, with_version, reconcile_plugin_for, plugin_step_of, plugin_step,
  format_error, dynamic_plugin_start_ocp_version, plugin_pf6_min_ocp_version,
}
use gitops_operator.Plugin.Reconcile.{reconcile_plugin}
use gitops_operator.Plugin.Rest.{OnlyLabels}
use gitops_operator.Plugin.Provision.{Foreign, reconcile_plugin-AtRest, reconcile_plugin_missing}

module _ (s : Server) where
  open s use {World, view}

  -- errors of the step are passed on with a text before them
  pub format_error-Settles :
      (text : String) (p : Io (Unit {0})) (w : World) (Q : World → Type 0)
      → Settles s p w (λ _ w'. Q w')
      → Settles s (after p (format_error text)) w (λ _ w'. Q w')
  format_error-Settles text p w Q h =
      Ensures-after s p (format_error text) w (OrFault s (λ _ w'. Q w'))
        (Ensures-mono s p w _ _ h go)
    where
      go :
          (r : Result (Unit {0})) (w' : World)
          → OrFault s (λ _ w'. Q w') r w'
          → Settles s (format_error text r) w' (λ _ w'. Q w')
      go (Result.ok _) w' q = q
      go (Result.err e) w' f = f

  -- An object that the plugin's reconcile does not touch, for either version of the plugin.
  abbrev pub PluginSpares : ServiceSettings → GitopsService → Protected
  PluginSpares c service l m =
      Foreign c.plugin service true l m × Foreign c.plugin service false l m

  module _ (c : ServiceSettings) (sets : SetsOwner c.plugin.service.reference)
      (only : OnlyLabels c.plugin.add_tracked_label) (service : GitopsService) where
    Kept : View → World → Type 0
    Kept v w' = Guards (PluginSpares c service) v (view w')

    reconcile_plugin-Kept :
        (is_pf5 : Bool) (v : View) (w : World)
        → Kept v w
        → Settles s (reconcile_plugin c.plugin service is_pf5) w (λ _ w'. Kept v w')
    unfolding Kept
    reconcile_plugin-Kept is_pf5 v w u = elim (Bool-cases c.plugin.console_api_found) [
      | inl found ↦
          Settles-mono s (reconcile_plugin c.plugin service is_pf5) w _ _
            (reconcile_plugin-AtRest s c.plugin service is_pf5 sets only w found)
            (λ _ w' q. λ l m p. q.2 l m (either is_pf5 l m p) ∙ u l m p)
      | inr missing ↦
          subst (λ p. Settles s p w (λ _ w'. Kept v w'))
            (sym (reconcile_plugin_missing s c.plugin service is_pf5 missing)) u
    ]
      where
        either :
            (b : Bool) (l : Kind) (m : NamespacedName)
            → PluginSpares c service l m
            → Foreign c.plugin service b l m
        either true l m p = p.0
        either false l m p = p.1

    with_version-Kept :
        (r : Result c.Version) (f : c.Version → Io (Unit {0})) (v : View) (w : World)
        → Kept v w
        → ((x : c.Version) → Settles s (f x) w (λ _ w'. Kept v w'))
        → Settles s (with_version c r f) w (λ _ w'. Kept v w')
    with_version-Kept (Result.ok x) f v w u g = g x
    with_version-Kept (Result.err e) f v w u g = u

    reconcile_plugin_for-Kept :
        (version : String) (v : View) (w : World)
        → Kept v w
        → Settles s (reconcile_plugin_for c service version) w (λ _ w'. Kept v w')
    unfolding reconcile_plugin_for
    reconcile_plugin_for-Kept version v w u =
        with_version-Kept (c.new_version version) _ v w u (λ cluster.
          with_version-Kept (c.new_version (dynamic_plugin_start_ocp_version c)) _ v w u (λ min.
            elim (Bool-cases (c.less_than cluster min)) [
              | inl e ↦ rw e u
              | inr e ↦ rw e (
                  with_version-Kept (c.new_version plugin_pf6_min_ocp_version) _ v w u
                    (λ pf6. reconcile_plugin-Kept (c.less_than cluster pf6) v w u))
            ]))

    pub plugin_step-Kept :
        (w : World)
        → Settles s
            (plugin_step c service)
            w
            (λ _ w'. Guards (PluginSpares c service) (view w) (view w'))
    unfolding plugin_step get_cluster_version after is_not_found Kept
    plugin_step-Kept w =
        Ensures-get s (OrFault s (λ _ w'. Guards (PluginSpares c service) (view w) (view w')))
          Kind.cluster_version_kind cluster_version_key
          (λ r. after (version_in r) (plugin_step_of c service)) w
          (λ o w' e u. reconcile_plugin_for-Kept o.body (view w) w' (λ l m p. u l m))
          (λ w' e u. reconcile_plugin_for-Kept "" (view w) w' (λ l m p. u l m))
          (λ e w' n u f. rw n (λ l m p. u l m))
