-- ===== src/Metrics/Disabled.antt =====
-- What a reconcile does where the instance has its metrics disabled.
use gitops_operator.Base.{
  String, ◌≡◌, refl, ◌∙◌, true, false, none, some, List, [], ◌∷◌, All, ◌⧺◌, lookup,
}
use gitops_operator.Kube.{
  NamespacedName, Kind, Kind-discrete, Object, key_of, update_object, has_finalizer, Server, View,
  Unchanged, same_kind, OrFault, Settles, Settles-mono, Settles-step, Ensures-get-some, Shrinks,
  Frame-cases, Protected, Avoids, Retreats, Target, delete_each, Gone, delete_each-Settles,
  Settles-update,
}
use gitops_operator.Metrics.Objects.{
  alert_rule_name, sync_loop_alert_rule_name, read_role_name, read_role_binding_name,
}
use gitops_operator.Metrics.{
  Settings, monitoring_label, metrics_disabled, with_label, disable_metrics, with_argocd,
  with_namespace, reconcile, delete_service_monitor,
}

abbrev pub IsNamespace : Protected
IsNamespace l m = l ≡ Kind.namespace_kind

pub Avoids-IsNamespace :
    (k : Kind) (n : NamespacedName)
    → same_kind k Kind.namespace_kind ≡ false
    → Avoids IsNamespace k n
Avoids-IsNamespace k n h l m p = rw p (rw h refl)

abbrev pub namespace_key : String → NamespacedName
namespace_key namespace = record { name = namespace; namespace = "" }

abbrev target : Kind → String → String → Target
target k name namespace = record {
  wrap = λ e. e;
  kind = k;
  key = record { name = name; namespace = namespace };
}

-- The objects of monitoring, but for the first.
abbrev pub more_targets : NamespacedName → List Target
more_targets request =
    target Kind.role_binding_kind (read_role_binding_name request.namespace) request.namespace
    ∷ target Kind.service_monitor_kind request.name request.namespace
    ∷ target Kind.service_monitor_kind (request.name ⧺ "-server") request.namespace
    ∷ target Kind.service_monitor_kind (request.name ⧺ "-repo-server") request.namespace
    ∷ target Kind.prometheus_rule_kind alert_rule_name request.namespace
    ∷ target Kind.prometheus_rule_kind sync_loop_alert_rule_name request.namespace
    ∷ []

abbrev pub role_target : NamespacedName → Target
role_target request = target Kind.role_kind (read_role_name request.namespace) request.namespace

-- The role, its binding, the three service monitors and the two alert rules of an instance.
abbrev pub monitoring_targets : NamespacedName → List Target
monitoring_targets request = role_target request ∷ more_targets request

targets-free :
    (request : NamespacedName)
    → All (λ u. has_finalizer u.kind ≡ false) (monitoring_targets request)
targets-free request = (refl, (refl, (refl, (refl, (refl, (refl, (refl, tt)))))))

targets-Avoids :
    (request : NamespacedName)
    → All (λ u. Avoids IsNamespace u.kind u.key) (monitoring_targets request)
unfolding Kind-discrete
targets-Avoids request =
    let role = Avoids-IsNamespace Kind.role_kind in
    let binding = Avoids-IsNamespace Kind.role_binding_kind in
    let monitor = Avoids-IsNamespace Kind.service_monitor_kind in
    let rule = Avoids-IsNamespace Kind.prometheus_rule_kind in
    (
      role _ refl,
      (
        binding _ refl,
        (monitor _ refl, (monitor _ refl, (monitor _ refl, (rule _ refl, (rule _ refl, tt))))),
      ),
    )

module _ (s : Server) where
  open s use {World, view}

  -- The namespace carries the label with "false", monitoring is gone, and nothing has appeared.
  abbrev pub Unmonitored : NamespacedName → Object Kind.namespace_kind → World → World → Type 0
  Unmonitored request ns w w' =
      (view w' Kind.namespace_kind (namespace_key request.namespace)
        ≡ some (with_label (monitoring_label ns.meta.name) "false" ns))
      × All (Gone (view w')) (monitoring_targets request)
      × Shrinks (view w) (view w')

  disable_metrics-Settles :
      (v : View) (w : World) (request : NamespacedName) (ns : Object Kind.namespace_kind)
      → Unchanged v (view w)
      → v Kind.namespace_kind (namespace_key request.namespace) ≡ some ns
      → key_of ns.meta ≡ namespace_key request.namespace
      → Settles s (disable_metrics request ns) w (λ _ w'.
        (view w' Kind.namespace_kind (namespace_key request.namespace)
          ≡ some (with_label (monitoring_label ns.meta.name) "false" ns))
        × All (Gone (view w')) (monitoring_targets request)
        × Shrinks v (view w'))
  unfolding disable_metrics delete_service_monitor delete_each
  disable_metrics-Settles v w request ns u e k =
      let marked = with_label (monitoring_label ns.meta.name) "false" ns in
      let key = namespace_key request.namespace in
      Settles-step s (update_object Kind.namespace_kind marked)
        (λ _. delete_each (role_target request) (more_targets request)) w
        (λ _ w₁. (view w₁ Kind.namespace_kind key ≡ some marked) × Shrinks v (view w₁))
        (λ _ w'.
          (view w' Kind.namespace_kind key ≡ some marked)
          × All (Gone (view w')) (monitoring_targets request)
          × Shrinks v (view w'))
        (Settles-update s Kind.namespace_kind key ns marked w
          (λ w₁. (view w₁ Kind.namespace_kind key ≡ some marked) × Shrinks v (view w₁)) k
          (u Kind.namespace_kind key ∙ e)
          (λ w₁ h f. (
            h,
            Frame-cases (λ l m. v l m ≡ none → view w₁ l m ≡ none) f (λ n. cc (n, e))
                (λ l m d n. d ∙ u l m ∙ n),
          )))
        (λ _ w₁ h.
          Settles-mono s (delete_each (role_target request) (more_targets request)) w₁
            (λ _ w'.
              All (Gone (view w')) (monitoring_targets request)
              × Retreats IsNamespace (view w₁) (view w'))
            (λ _ w'.
              (view w' Kind.namespace_kind key ≡ some marked)
              × All (Gone (view w')) (monitoring_targets request)
              × Shrinks v (view w'))
            (delete_each-Settles s IsNamespace (role_target request) (more_targets request) w₁
              (targets-Avoids request) (targets-free request))
            (λ _ w' q. (
              q.1.guards Kind.namespace_kind key refl ∙ h.0,
              q.0,
              λ l m n. q.1.shrinks l m (h.1 l m n),
            )))

  -- Where the namespace and the instance are there, metrics are disabled and the namespace has the
  -- label of monitoring, whatever its value: a reconcile that meets no fault of the server returns
  -- without an error, the label is "false", the role, its binding, the three service monitors and the
  -- two alert rules are gone, and no object has appeared.
  pub reconcile_disabled :
      (c : Settings) (request : NamespacedName) (w : World) (ns : Object Kind.namespace_kind)
      (argocd : Object Kind.argo_cd_kind) (value : String)
      → view w Kind.namespace_kind (namespace_key request.namespace) ≡ some ns
      → view w Kind.argo_cd_kind request ≡ some argocd
      → metrics_disabled argocd.body ≡ true
      → lookup ns.meta.labels (monitoring_label ns.meta.name) ≡ some value
      → Settles s (reconcile c request) w (λ _ w'. Unmonitored request ns w w')
  unfolding reconcile
  reconcile_disabled c request w ns argocd value hn ha hd hl =
      let Q = OrFault s (λ (_ : Unit {0}) w'. Unmonitored request ns w w') in
      Ensures-get-some s Q Kind.namespace_kind (namespace_key request.namespace)
        (with_namespace c request) w ns hn
        (λ w₁ u₁.
          Ensures-get-some s Q Kind.argo_cd_kind request (with_argocd c request ns) w₁ argocd
            (u₁ Kind.argo_cd_kind request ∙ ha)
            (λ w₂ u₂.
              rw (hd, hl)
                (disable_metrics-Settles (view w) w₂ request ns (λ l m. u₂ l m ∙ u₁ l m) hn
                  (s.stored_key Kind.namespace_kind (namespace_key request.namespace) w ns hn)))
            (λ e w' n f. rw n f))
        (λ e w' n f. rw n f)
