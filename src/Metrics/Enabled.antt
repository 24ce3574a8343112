-- ===== src/Metrics/Enabled.antt =====
-- What a reconcile does where the instance has its metrics enabled.
use gitops_operator.Base.{
  String, ◌≡◌, refl, sym, ◌∙◌, subst, ◌≢◌, ◌⊎◌, inl, false, not, none, some, List, if◌then◌else◌,
  All, lookup, same_text?,
}
use gitops_operator.Kube.{
  NamespacedName, Kind, Kind-discrete, Object, key_of, Result, pure, ◌>>◌, update_object, Server,
  View, Frame, Unchanged, OrFault, Settles, Settles-mono, Settles-step, Ensures-get-some, Persists,
  Frame-cases, SetsOwner, Advances, There, create_then, There-persists, create_then-Settles,
}
use mathlib.Core.Option.{none-ne-some}
use gitops_operator.Metrics.Items.{Kept, first_items, rule_items, first_items-Free}
use gitops_operator.Metrics.Marking.{label-Settles}
use gitops_operator.Metrics.Disabled.{namespace_key}
use gitops_operator.Metrics.Dashboards.{NamedFrom, monitor_in, MonitorHasTls}
use gitops_operator.Metrics.{
  create_read_role_if_absent, disable_metrics, create_read_role_binding_if_absent,
  create_service_monitor_if_absent, enable_metrics, with_argocd, with_namespace, reconcile,
  metrics_disabled, create_read_role_if_absent, create_read_role_binding_if_absent,
  create_service_monitor_if_absent, create_prometheus_rules_if_absent, reconcile_dashboards,
  enable_metrics, with_argocd, with_namespace, reconcile, metrics_disabled, DirEntry, Settings,
  content, no_such_file, monitoring_label, with_label, reconcile_operator_metrics_service_monitor,
  operator_monitor_key,
}
use gitops_operator.Metrics.LastSteps.{NamesServer, kept_monitor, rest-Settles}

module _ (s : Server) (c : Settings) (sets : SetsOwner c.reference) (operator : String) where
  open s use {World, view}

  -- What the reconcile leaves: the namespace is labelled, monitoring is there, nothing is lost, and
  -- the operator's own monitor names its server if the operator's namespace is known.
  abbrev pub Monitored : NamespacedName → Object Kind.namespace_kind → View → View → Type 0
  Monitored request ns v v' =
      (v' Kind.namespace_kind (namespace_key request.namespace)
        ≡ some (with_label (monitoring_label ns.meta.name) "true" ns))
      × All (There v') (first_items request)
      × All (There v') (rule_items request)
      × Persists v v'
      × (c.namespace_file ≡ content operator
          → NamedFrom operator (monitor_in operator v) (monitor_in operator v'))

  assemble :
      (request : NamespacedName) (ns : Object Kind.namespace_kind) (v : View) (w₁ w₂ w' : World)
      → (view w₁ Kind.namespace_kind (namespace_key request.namespace)
          ≡ some (with_label (monitoring_label ns.meta.name) "true" ns))
        × Frame Kind.namespace_kind (namespace_key request.namespace) v (view w₁)
      → All (There (view w₂)) (first_items request)
      → Advances (Kept operator) (view w₁) (view w₂)
      → monitor_in operator (view w₂) ≡ monitor_in operator v
      → All (There (view w')) (rule_items request)
        × NamesServer s c sets operator (view w₂) (view w')
      → Monitored request ns v (view w')
  assemble request ns v w₁ w₂ w' (marked, f) t a same (rules, (b, n)) =
      let key = namespace_key request.namespace in
      (
        b.guards Kind.namespace_kind key refl
            ∙ a.guards Kind.namespace_kind key (inl refl)
            ∙ marked,
        There-persists (first_items request) b t,
        rules,
        λ l m h. b.persists l m (
            a.persists l m (
              Frame-cases (λ l m. v l m ≢ none → view w₁ l m ≢ none) f
                (λ _ g. none-ne-some _ (sym g ∙ marked)) (λ l m e h d. h (sym e ∙ d)) l m h)),
        λ h. subst (λ o. NamedFrom operator o (monitor_in operator (view w'))) same (n h),
      )

  enable_metrics-Settles :
      (v : View) (w : World) (request : NamespacedName) (ns : Object Kind.namespace_kind)
      (argocd : String) (entries : List DirEntry)
      → Unchanged v (view w)
      → v Kind.namespace_kind (namespace_key request.namespace) ≡ some ns
      → key_of ns.meta ≡ namespace_key request.namespace
      → request.namespace ≢ operator
      → c.dashboard_entries ≡ Result.ok entries
      → (c.namespace_file ≡ no_such_file) ⊎ (c.namespace_file ≡ content operator)
      → MonitorHasTls (monitor_in operator v)
      → Settles s (enable_metrics c request ns argocd) w (λ _ w'. Monitored request ns v (view w'))
  unfolding enable_metrics create_read_role_if_absent create_read_role_binding_if_absent
      create_service_monitor_if_absent create_then Kind-discrete
  enable_metrics-Settles v w request ns argocd entries u e k d hd known tls =
      let label = monitoring_label ns.meta.name in
      let key = namespace_key request.namespace in
      let rest =
        create_prometheus_rules_if_absent c argocd request.namespace
        >> (reconcile_dashboards c >> reconcile_operator_metrics_service_monitor c) in
      let Q = λ (_ : Unit {0}) (w' : World). Monitored request ns v (view w') in
      Settles-step s
        (if same_text? (lookup ns.meta.labels label) (some "true")
          then pure tt
          else update_object Kind.namespace_kind (with_label label "true" ns))
        (λ _. create_then c.reference argocd (first_items request) rest) w
        (λ _ w₁.
          (view w₁ Kind.namespace_kind key ≡ some (with_label label "true" ns))
          × Frame Kind.namespace_kind key v (view w₁))
        Q (label-Settles s v w ns key label u e k)
        (λ _ w₁ h.
          create_then-Settles s (Kept operator) c.reference sets argocd (first_items request) rest
            w₁ Q (first_items-Free operator request d)
            (λ w₂ t a.
              let same =
                kept_monitor s c sets operator a
                ∙ h.1 Kind.service_monitor_kind (operator_monitor_key operator) refl in
              Settles-mono s rest w₂
                (λ _ w'.
                  All (There (view w')) (rule_items request)
                  × NamesServer s c sets operator (view w₂) (view w'))
                Q
                (rest-Settles s c sets operator request argocd entries w₂ hd known
                  (subst MonitorHasTls (sym same) tls))
                (λ _ w' r. assemble request ns v w₁ w₂ w' h t a same r)))

  -- Where the namespace and the instance are there, metrics are not disabled, SetControllerReference
  -- sets the owner, the embedded dashboards can be listed, the file with the operator's namespace is
  -- missing or names another namespace than the request, and the operator's own monitor, if it is
  -- there, has an endpoint with a TLS configuration: a reconcile that meets no fault of the server
  -- returns without an error, the namespace has the label of monitoring with "true", the role, its
  -- binding, the three service monitors and the two alert rules are there, no object is lost, and the
  -- operator's own monitor names its server if the file names the operator's namespace.
  pub reconcile_enabled :
      (request : NamespacedName) (w : World) (ns : Object Kind.namespace_kind)
      (argocd : Object Kind.argo_cd_kind) (entries : List DirEntry)
      → request.namespace ≢ operator
      → view w Kind.namespace_kind (namespace_key request.namespace) ≡ some ns
      → view w Kind.argo_cd_kind request ≡ some argocd
      → metrics_disabled argocd.body ≡ false
      → c.dashboard_entries ≡ Result.ok entries
      → (c.namespace_file ≡ no_such_file) ⊎ (c.namespace_file ≡ content operator)
      → MonitorHasTls (monitor_in operator (view w))
      → Settles s (reconcile c request) w (λ _ w'. Monitored request ns (view w) (view w'))
  unfolding reconcile
  reconcile_enabled request w ns argocd entries d hn ha he hd known tls =
      let Q = OrFault s (λ (_ : Unit {0}) w'. Monitored request ns (view w) (view w')) in
      Ensures-get-some s Q Kind.namespace_kind (namespace_key request.namespace)
        (with_namespace c request) w ns hn
        (λ w₁ u₁.
          Ensures-get-some s Q Kind.argo_cd_kind request (with_argocd c request ns) w₁ argocd
            (u₁ Kind.argo_cd_kind request ∙ ha)
            (λ w₂ u₂.
              subst
                (λ b.
                  Settles s
                    (if not b
                      then enable_metrics c request ns argocd.meta.name
                      else elim (lookup ns.meta.labels (monitoring_label ns.meta.name)) [
                        | none ↦ pure tt
                        | some _ ↦ disable_metrics request ns
                      ])
                    w₂ (λ _ w'. Monitored request ns (view w) (view w')))
                (sym he)
                (enable_metrics-Settles (view w) w₂ request ns argocd.meta.name entries
                  (λ l m. u₂ l m ∙ u₁ l m) hn
                  (s.stored_key Kind.namespace_kind (namespace_key request.namespace) w ns hn) d hd
                  known tls))
            (λ e w' n f. rw n f))
        (λ e w' n f. rw n f)
