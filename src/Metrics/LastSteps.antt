-- ===== src/Metrics/LastSteps.antt =====
-- The steps of enableMetrics after the objects of its first list, in controllers/argocd_metrics_controller.go.
use gitops_operator.Base.{
  String, ◌≡◌, refl, sym, ◌∙◌, subst, ◌≢◌, ◌⊎◌, inl, inr, Option, none, some, List, All,
}
use gitops_operator.Kube.{
  NamespacedName, Kind, Kind-discrete, Object, key_of, Result, ◌>>◌, Server, View, Settles,
  Settles-mono, Settles-step, Frame-cases, SetsOwner, create_if_absent, Advances, Advances-refl,
  Advances-trans, Frame-Guards, create_if_absent-Advances, There, There-persists,
}
use mathlib.Core.Option.{none-ne-some}
use gitops_operator.Metrics.Objects.{new_prometheus_rule, new_sync_loop_prometheus_rule}
use gitops_operator.Metrics.Items.{Kept, Kept-other, rule_items}
use gitops_operator.Metrics.Disabled.{IsNamespace}
use gitops_operator.Metrics.Dashboards.{
  NoConfigMaps, reconcile_dashboards-Settles, Named, NamedFrom, monitor_in, MonitorHasTls,
  with_namespace_file-Settles,
}
use gitops_operator.Metrics.{
  create_prometheus_rule_if_absent, create_prometheus_rules_if_absent, reconcile_dashboards,
  DirEntry, Settings, FileContent, content, no_such_file,
  reconcile_operator_metrics_service_monitor, operator_monitor_key, with_namespace_file,
}

no_file-ne-content : {t : String} → FileContent.no_such_file ≡ FileContent.content t → ⊥
no_file-ne-content e = cc

module _ (s : Server) (c : Settings) (sets : SetsOwner c.reference) (operator : String) where
  open s use {World, view}

  abbrev pub NamesServer : View → View → Type 0
  NamesServer v v' =
      Advances IsNamespace v v'
      × (c.namespace_file ≡ content operator
          → NamedFrom operator (monitor_in operator v) (monitor_in operator v'))

  NamedFrom-there :
      (o o' : Option (Object Kind.service_monitor_kind))
      → NamedFrom operator o o'
      → o ≢ none
      → o' ≢ none
  NamedFrom-there none o' n h e = h refl
  NamedFrom-there (some m) o' (m', n, _, _) h e = none-ne-some m' (sym e ∙ n)

  Named-Advances : {v v' : View} → Named operator v v' → Advances IsNamespace v v'
  unfolding Kind-discrete
  Named-Advances {v} {v'} (n, f) = record {
    persists =
        Frame-cases (λ l m. v l m ≢ none → v' l m ≢ none) f
          (NamedFrom-there (monitor_in operator v) (monitor_in operator v') n)
          (λ l m e h d. h (sym e ∙ d));
    guards =
        Frame-Guards Kind.service_monitor_kind (operator_monitor_key operator) (λ l m p. rw p refl)
          f;
  }

  operator_monitor-Settles :
      (w : World)
      → (c.namespace_file ≡ no_such_file) ⊎ (c.namespace_file ≡ content operator)
      → MonitorHasTls (monitor_in operator (view w))
      → Settles s
          (reconcile_operator_metrics_service_monitor c)
          w
          (λ _ w'. NamesServer (view w) (view w'))
  unfolding reconcile_operator_metrics_service_monitor
  operator_monitor-Settles w (inl absent) tls =
      subst (λ f. Settles s (with_namespace_file f) w (λ _ w'. NamesServer (view w) (view w')))
        (sym absent)
        (Advances-refl (λ l m. refl), λ known. absurd (no_file-ne-content (sym absent ∙ known)))
  operator_monitor-Settles w (inr known) tls =
      subst (λ f. Settles s (with_namespace_file f) w (λ _ w'. NamesServer (view w) (view w')))
        (sym known)
        (Settles-mono s (with_namespace_file (content operator)) w
          (λ _ w'. Named operator (view w) (view w')) (λ _ w'. NamesServer (view w) (view w'))
          (with_namespace_file-Settles s operator w tls) (λ _ w' n. (Named-Advances n, λ _. n.0)))

  prometheus_rules-Settles :
      (request : NamespacedName) (argocd : String) (w : World)
      → Settles s (create_prometheus_rules_if_absent c argocd request.namespace) w (λ _ w'.
        All (There (view w')) (rule_items request) × Advances (Kept operator) (view w) (view w'))
  unfolding create_prometheus_rules_if_absent create_prometheus_rule_if_absent new_prometheus_rule
      new_sync_loop_prometheus_rule Kind-discrete
  prometheus_rules-Settles request argocd w =
      let first = new_prometheus_rule request.namespace in
      let second = new_sync_loop_prometheus_rule request.namespace in
      let other =
        λ (n : NamespacedName). Kept-other operator Kind.prometheus_rule_kind n refl refl in
      Settles-step s (create_if_absent c.reference argocd Kind.prometheus_rule_kind first)
        (λ _. create_if_absent c.reference argocd Kind.prometheus_rule_kind second) w
        (λ _ w₁.
          (view w₁ Kind.prometheus_rule_kind (key_of first.meta) ≢ none)
          × Advances (Kept operator) (view w) (view w₁))
        (λ _ w'.
          All (There (view w')) (rule_items request) × Advances (Kept operator) (view w) (view w'))
        (create_if_absent-Advances s (Kept operator) c.reference sets argocd
          Kind.prometheus_rule_kind first w refl (other _))
        (λ _ w₁ p.
          Settles-mono s (create_if_absent c.reference argocd Kind.prometheus_rule_kind second) w₁
            (λ _ w'.
              (view w' Kind.prometheus_rule_kind (key_of second.meta) ≢ none)
              × Advances (Kept operator) (view w₁) (view w'))
            (λ _ w'.
              All (There (view w')) (rule_items request)
              × Advances (Kept operator) (view w) (view w'))
            (create_if_absent-Advances s (Kept operator) c.reference sets argocd
              Kind.prometheus_rule_kind second w₁ refl (other _))
            (λ _ w' q. (
              (q.1.persists Kind.prometheus_rule_kind (key_of first.meta) p.0, (q.0, tt)),
              Advances-trans p.1 q.1,
            )))

  NoConfigMaps-Kept : NoConfigMaps (Kept operator)
  unfolding Kind-discrete
  NoConfigMaps-Kept n = Kept-other operator Kind.config_map_kind n refl refl

  pub kept_monitor :
      {v v' : View} → Advances (Kept operator) v v' → monitor_in operator v' ≡ monitor_in operator v
  kept_monitor a =
      a.guards Kind.service_monitor_kind (operator_monitor_key operator) (inr (refl, refl))

  less_kept : {v v' : View} → Advances (Kept operator) v v' → Advances IsNamespace v v'
  less_kept a = record { persists = a.persists; guards = λ l m p. a.guards l m (inl p) }

  NamesServer-after :
      {v v₁ v' : View} → Advances (Kept operator) v v₁ → NamesServer v₁ v' → NamesServer v v'
  NamesServer-after {v} {v₁} {v'} a (b, n) = (
    Advances-trans (less_kept a) b,
    λ f. subst (λ o. NamedFrom operator o (monitor_in operator v')) (kept_monitor a) (n f),
  )

  -- The last three steps, after the objects of the first list.
  pub rest-Settles :
      (request : NamespacedName) (argocd : String) (entries : List DirEntry) (w : World)
      → c.dashboard_entries ≡ Result.ok entries
      → (c.namespace_file ≡ no_such_file) ⊎ (c.namespace_file ≡ content operator)
      → MonitorHasTls (monitor_in operator (view w))
      → Settles s
          (create_prometheus_rules_if_absent c argocd request.namespace
            >> (reconcile_dashboards c >> reconcile_operator_metrics_service_monitor c))
          w
          (λ _ w'. All (There (view w')) (rule_items request) × NamesServer (view w) (view w'))
  rest-Settles request argocd entries w dashboards known tls =
      let Q = λ (_ : Unit {0}) (w' : World).
        All (There (view w')) (rule_items request) × NamesServer (view w) (view w') in
      Settles-step s (create_prometheus_rules_if_absent c argocd request.namespace)
        (λ _. reconcile_dashboards c >> reconcile_operator_metrics_service_monitor c) w
        (λ _ w₁.
          All (There (view w₁)) (rule_items request) × Advances (Kept operator) (view w) (view w₁))
        Q (prometheus_rules-Settles request argocd w)
        (λ _ w₁ p.
          Settles-step s (reconcile_dashboards c)
            (λ _. reconcile_operator_metrics_service_monitor c) w₁
            (λ _ w₂. Advances (Kept operator) (view w₁) (view w₂)) Q
            (reconcile_dashboards-Settles s (Kept operator) (NoConfigMaps-Kept) c w₁ entries
              dashboards)
            (λ _ w₂ q.
              Settles-mono s (reconcile_operator_metrics_service_monitor c) w₂
                (λ _ w'. NamesServer (view w₂) (view w')) Q
                (operator_monitor-Settles w₂ known
                  (subst MonitorHasTls (sym (kept_monitor (Advances-trans p.1 q))) tls))
                (λ _ w' r. (
                  There-persists (rule_items request) r.0
                      (There-persists (rule_items request) q p.0),
                  NamesServer-after (Advances-trans p.1 q) r,
                ))))
