-- ===== src/Service/Absence.antt =====
-- What the removal of the default instance and of KAM's objects does.
use gitops_operator.Base.{
  String, ◌≡◌, refl, sym, ◌∙◌, subst, ◌≢◌, ◌⊎◌, inl, inr, Bool, true, false, Option, none, some,
  if◌then◌else◌,
}
use gitops_operator.Kube.{
  NamespacedName, Kind, Object, is_not_found, Result, Call, Program, after, Deleted, Ensures-mark,
  Server, View, Frame, Unchanged, OrFault, Settles, Ensures-get, Only, Only-after,
}
use mathlib.Core.Option.{none-ne-some}
use gitops_operator.Service.Objects.{service_namespace}
use gitops_operator.DefaultCr.{Facts, new_cr, cr_with, resource_exclusions}
use gitops_operator.Service.Instance.{
  argocd_instance_name, delete_instance, instance_in, remove_instance,
  ensure_default_argocd_instance_doesnt_exist, kam_key, delete_kam, delete_kam_found,
  clean_kam_resources,
}

abbrev pub instance_key : NamespacedName
instance_key = record { name = argocd_instance_name; namespace = service_namespace }

abbrev pub namespace_of_instance : NamespacedName
namespace_of_instance = record { name = service_namespace; namespace = "" }

-- Not there, or marked for deletion: argocd-operator takes its finalizer away later.
abbrev pub Leaves : Option (Object Kind.argo_cd_kind) → Type 0
Leaves none = Unit
Leaves (some o) = o.meta.deleting ≡ true

Deleted-Leaves :
    (before after : Option (Object Kind.argo_cd_kind)) → Deleted before after → Leaves after
Deleted-Leaves before after (inl gone) = rw gone tt
Deleted-Leaves before after (inr (_, (o, _, marked))) = rw marked refl

module _ (s : Server) where
  open s use {World, view}

  abbrev Absent : View → World → Type 0
  Absent v w' =
      Leaves (view w' Kind.argo_cd_kind instance_key)
      × Frame Kind.argo_cd_kind instance_key v (view w')

  delete_instance-Settles :
      (v : View) (w : World)
      → Unchanged v (view w)
      → Settles s
          (Program.call (Call.get Kind.argo_cd_kind instance_key) (delete_instance instance_key))
          w
          (λ _ w'. Absent v w')
  unfolding is_not_found
  delete_instance-Settles v w u =
      Ensures-get s (OrFault s (λ _ w'. Absent v w')) Kind.argo_cd_kind instance_key
        (delete_instance instance_key) w
        (λ x w₁ e u₁.
          Ensures-mark s (OrFault s (λ _ w'. Absent v w')) Kind.argo_cd_kind instance_key
            Program.done w₁ (λ w' g f. (Deleted-Leaves _ _ g, λ l m d. f l m d ∙ u₁ l m ∙ u l m))
            (λ w' n g f.
              absurd (none-ne-some x (sym (sym (u₁ Kind.argo_cd_kind instance_key) ∙ n) ∙ e)))
            (λ e w' n d f h. h))
        (λ w₁ e u₁. (rw (u₁ Kind.argo_cd_kind instance_key ∙ e) tt, λ l m _. u₁ l m ∙ u l m))
        (λ e w' n u₁ f. rw n f)

  -- Where the namespace of the default instance is there and the resource exclusions can be
  -- marshalled, a removal that meets no fault of the server returns without an error. Then the default
  -- instance is not there or is marked for deletion, and every other object, the namespace among
  -- them, is as it was.
  pub ensure_default_argocd_instance_doesnt_exist-Settles :
      (facts : Facts) (exclusions : String) (w : World)
      → facts.marshal resource_exclusions ≡ Result.ok exclusions
      → view w Kind.namespace_kind namespace_of_instance ≢ none
      → Settles s (ensure_default_argocd_instance_doesnt_exist facts) w (λ _ w'. Absent (view w) w')
  unfolding ensure_default_argocd_instance_doesnt_exist new_cr is_not_found after
  ensure_default_argocd_instance_doesnt_exist-Settles facts exclusions w h there =
      subst
        (λ r.
          Settles s (remove_instance (cr_with facts argocd_instance_name service_namespace r)) w
            (λ _ w'. Absent (view w) w'))
        (sym h)
        (Ensures-get s (OrFault s (λ _ w'. Absent (view w) w')) Kind.namespace_kind
          namespace_of_instance (instance_in instance_key) w
          (λ x w' e u. delete_instance-Settles (view w) w' u) (λ w' n u. absurd (there n))
          (λ e w' n u f. rw n f))

-- A read, or the deletion of an object of KAM, of a Route only where routes are known.
abbrev pub IsKamCall : Bool → Call → Type 0
IsKamCall route_api_found (Call.get _ _) = Unit {0}
IsKamCall route_api_found (Call.delete k n) =
    (n ≡ kam_key)
    × ((k ≡ Kind.deployment_kind)
        ⊎ (k ≡ Kind.service_kind)
        ⊎ ((k ≡ Kind.route_kind) × (route_api_found ≡ true)))
IsKamCall route_api_found _ = ⊥

delete_kam-Only :
    (k : Kind) (b : Bool)
    → (k ≡ Kind.deployment_kind) ⊎ (k ≡ Kind.service_kind) ⊎ ((k ≡ Kind.route_kind) × (b ≡ true))
    → Only (IsKamCall b) (delete_kam k)
unfolding delete_kam after
delete_kam-Only k b h = (tt, go)
  where
    go : (r : Result (Object k)) → Only (IsKamCall b) (delete_kam_found r)
    go (Result.ok _) = ((refl, h), λ _. tt)
    go (Result.err _) = tt

-- Whatever the server replies, the removal of what KAM left only reads, and deletes nothing but the
-- Deployment, the Service and the Route named "kam" in openshift-gitops, the Route only where
-- routes are known.
pub clean_kam_resources-Only :
    (route_api_found : Bool)
    → Only (IsKamCall route_api_found) (clean_kam_resources route_api_found)
unfolding clean_kam_resources
clean_kam_resources-Only b =
    Only-after (IsKamCall b) (delete_kam Kind.deployment_kind)
      (λ _.
        after (delete_kam Kind.service_kind)
          (λ _. if b then delete_kam Kind.route_kind else Program.done tt))
      (delete_kam-Only Kind.deployment_kind b (inl refl))
      (λ _.
        Only-after (IsKamCall b) (delete_kam Kind.service_kind)
          (λ _. if b then delete_kam Kind.route_kind else Program.done tt)
          (delete_kam-Only Kind.service_kind b (inr (inl refl))) (λ _. route b))
  where
    route :
        (d : Bool) → Only (IsKamCall d) (if d then delete_kam Kind.route_kind else Program.done tt)
    route true = delete_kam-Only Kind.route_kind true (inr (inr (refl, refl)))
    route false = tt
