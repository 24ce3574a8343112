-- ===== src/Plugin/Removal.antt =====
-- What the removal of the plugin's old objects does.
use gitops_operator.Base.{String, ◌≡◌, refl, sym, ◌∙◌, subst, Bool, false, ◌&&◌, none, ◌==◌}
use gitops_operator.Kube.{
  NamespacedName, Kind, Result, after, Io, pure, ◌>>=◌, ◌>>◌, has_finalizer, Server, View, Frame,
  same_kind, same_name, Ensures, OrFault, Settles, Ensures-mono, Settles-mono, Settles-step,
  Ensures-get, delete_if_present, Protected, Avoids, Guards, Retreats, Retreats-trans,
  Frame-Retreats, delete_if_present-Settles,
}
use gitops_operator.Service.Objects.{service_namespace}
use gitops_operator.Plugin.Objects.{gitops_plugin_name, httpd_config_map_name}
use gitops_operator.Plugin.Old.{
  delete_found, old_error, old_key, delete_old, cleanup_old_plugin_resources,
}

abbrev pub is_old : Kind → String → Kind → NamespacedName → Bool
is_old k name l m = same_kind k l && same_name (old_key name) m

-- An object that is none of the three.
abbrev pub NotOld : Protected
NotOld l m =
    (is_old Kind.deployment_kind gitops_plugin_name l m ≡ false)
    × (is_old Kind.service_kind gitops_plugin_name l m ≡ false)
    × (is_old Kind.config_map_kind httpd_config_map_name l m ≡ false)

-- The three are gone, and every other object is as it was.
abbrev pub Removed : View → View → Type 0
Removed v v' =
    (v' Kind.deployment_kind (old_key gitops_plugin_name) ≡ none)
    × (v' Kind.service_kind (old_key gitops_plugin_name) ≡ none)
    × (v' Kind.config_map_kind (old_key httpd_config_map_name) ≡ none)
    × Guards NotOld v v'

abbrev removals : Io (Unit {0})
unfolding ◌>>=◌ delete_old
removals = do
  delete_old Kind.deployment_kind "Deployment" gitops_plugin_name
  delete_old Kind.service_kind "Service" gitops_plugin_name
  delete_old Kind.config_map_kind "ConfigMap" httpd_config_map_name
  pure tt

module _ (s : Server) (healthy : (w : s.World) → s.faulted w → ⊥) where
  open s use {World, view}

  delete_old-Settles :
      (k : Kind) (kind name : String) (w : World)
      → has_finalizer k ≡ false
      → Settles s
          (delete_old k kind name)
          w
          (λ _ w'. (view w' k (old_key name) ≡ none) × Frame k (old_key name) (view w) (view w'))
  unfolding delete_old after
  delete_old-Settles k kind name w free =
      Ensures-get s (OrFault s Q) k (old_key name) (delete_found (old_error kind)) w
        (λ o w' v u.
          subst (λ n. Settles s (delete_if_present (old_error kind) k n) w' Q)
            (sym (s.stored_key k (old_key name) w o v))
            (Settles-mono s (delete_if_present (old_error kind) k (old_key name)) w' _ Q
              (delete_if_present-Settles s (old_error kind) k (old_key name) w' free)
              (λ _ w'' q. (q.0, λ l m d. q.1 l m d ∙ u l m))))
        (λ w' v u. (u k (old_key name) ∙ v, λ l m _. u l m)) (λ e w' n u f. absurd (healthy w' f))
    where
      Q : Unit {0} → World → Type 0
      Q _ w' = (view w' k (old_key name) ≡ none) × Frame k (old_key name) (view w) (view w')

  -- the same as a retreat
  delete_old-Retreats :
      (k : Kind) (kind name : String) (w : World)
      → has_finalizer k ≡ false
      → Avoids NotOld k (old_key name)
      → Settles s
          (delete_old k kind name)
          w
          (λ _ w'. (view w' k (old_key name) ≡ none) × Retreats NotOld (view w) (view w'))
  delete_old-Retreats k kind name w free a =
      Settles-mono s (delete_old k kind name) w _ _ (delete_old-Settles k kind name w free)
        (λ _ w' q. (q.0, Frame-Retreats k (old_key name) a q.0 q.1))

  all_three-Settles : (w : World) → Settles s removals w (λ _ w'. Removed (view w) (view w'))
  unfolding removals
  all_three-Settles w =
      Settles-step s (delete_old Kind.deployment_kind "Deployment" gitops_plugin_name) _ w _ _
        (delete_old-Retreats Kind.deployment_kind "Deployment" gitops_plugin_name w refl
          (λ l m p. p.0))
        (λ _ w₁ p.
          Settles-step s (delete_old Kind.service_kind "Service" gitops_plugin_name) _ w₁ _ _
            (delete_old-Retreats Kind.service_kind "Service" gitops_plugin_name w₁ refl
              (λ l m p. p.1))
            (λ _ w₂ q.
              Settles-step s (delete_old Kind.config_map_kind "ConfigMap" httpd_config_map_name) _
                w₂ _ _
                (delete_old-Retreats Kind.config_map_kind "ConfigMap" httpd_config_map_name w₂ refl
                  (λ l m p. p.2))
                (λ _ w₃ r. (
                  r.1.shrinks _ _ (q.1.shrinks _ _ p.0),
                  r.1.shrinks _ _ q.0,
                  r.0,
                  (Retreats-trans p.1 (Retreats-trans q.1 r.1)).guards,
                ))))

  -- On a server without faults, where the plugin's namespace is not openshift-gitops, the removal
  -- returns without an error and leaves neither the old Deployment, nor the old Service, nor the
  -- old ConfigMap, and every other object as it was.
  pub cleanup_old_plugin_resources-Settles :
      (plugin_namespace : String) (w : World)
      → (plugin_namespace == service_namespace) ≡ false
      → Ensures s
          (cleanup_old_plugin_resources plugin_namespace)
          w
          (λ r w'. (r ≡ Result.ok tt) × Removed (view w) (view w'))
  unfolding cleanup_old_plugin_resources removals
  cleanup_old_plugin_resources-Settles ns w other =
      rw other (Ensures-mono s removals w _ _ (all_three-Settles w) go)
    where
      go :
          (r : Result (Unit {0})) (w' : World)
          → OrFault s (λ _ w'. Removed (view w) (view w')) r w'
          → (r ≡ Result.ok tt) × Removed (view w) (view w')
      go (Result.ok _) w' q = (refl, q)
      go (Result.err e) w' f = absurd (healthy w' f)
