-- ===== src/Metrics/Items.antt =====
-- The objects of monitoring as they are made, and what their creation does not touch.
use gitops_operator.Base.{
  String, ◌≡◌, refl, ◌≢◌, ◌⊎◌, inl, inr, false, List, [], ◌∷◌, &&-false_right, ◌⧺◌, ==-false,
}
use gitops_operator.Kube.{
  NamespacedName, Kind, Kind-discrete, Object, same_kind, Protected, Avoids, Item, Free,
}
use gitops_operator.Metrics.Objects.{
  new_read_role, new_read_role_binding, new_service_monitor, new_prometheus_rule,
  new_sync_loop_prometheus_rule,
}
use gitops_operator.Metrics.{operator_monitor_key}

-- The namespaces, and the operator's own monitor.
abbrev pub Kept : String → Protected
Kept operator l m =
    (l ≡ Kind.namespace_kind)
    ⊎ (l ≡ Kind.service_monitor_kind) × (m ≡ operator_monitor_key operator)

pub Kept-other :
    (operator : String) (k : Kind) (n : NamespacedName)
    → same_kind k Kind.namespace_kind ≡ false
    → same_kind k Kind.service_monitor_kind ≡ false
    → Avoids (Kept operator) k n
Kept-other operator k n g h l m (inl p) = rw p (rw g refl)
Kept-other operator k n g h l m (inr (p, _)) = rw p (rw h refl)

pub Kept-monitor :
    (operator namespace name : String)
    → namespace ≢ operator
    → Avoids
        (Kept operator)
        Kind.service_monitor_kind
        (record { name = name; namespace = namespace })
unfolding Kind-discrete
Kept-monitor operator namespace name d l m (inl p) = rw p refl
Kept-monitor operator namespace name d l m (inr (p, q)) =
    rw (p, q, ==-false namespace operator d) (&&-false_right _)

-- The objects of monitoring, as the reconciler makes them, in two parts.
abbrev item : (k : Kind) → Object k → Item
item k o = record { kind = k; object = o }

abbrev pub first_items : NamespacedName → List Item
first_items request =
    item Kind.role_kind (new_read_role request.namespace)
    ∷ item Kind.role_binding_kind (new_read_role_binding request.namespace)
    ∷ item Kind.service_monitor_kind
        (new_service_monitor request.namespace request.name (request.name ⧺ "-metrics"))
    ∷ item Kind.service_monitor_kind (
        new_service_monitor request.namespace (request.name ⧺ "-server")
          (request.name ⧺ "-server-metrics"))
    ∷ item Kind.service_monitor_kind (
        new_service_monitor request.namespace (request.name ⧺ "-repo-server")
          (request.name ⧺ "-repo-server"))
    ∷ []

abbrev pub rule_items : NamespacedName → List Item
rule_items request =
    item Kind.prometheus_rule_kind (new_prometheus_rule request.namespace)
    ∷ item Kind.prometheus_rule_kind (new_sync_loop_prometheus_rule request.namespace)
    ∷ []

pub first_items-Free :
    (operator : String) (request : NamespacedName)
    → request.namespace ≢ operator
    → Free (Kept operator) (first_items request)
unfolding Kind-discrete new_read_role new_read_role_binding new_service_monitor
first_items-Free operator request d = (
  (refl, Kept-other operator Kind.role_kind _ refl refl),
  (
    (refl, Kept-other operator Kind.role_binding_kind _ refl refl),
    (
      (refl, Kept-monitor operator request.namespace request.name d),
      (
        (refl, Kept-monitor operator request.namespace (request.name ⧺ "-server") d),
        ((refl, Kept-monitor operator request.namespace (request.name ⧺ "-repo-server") d), tt),
      ),
    ),
  ),
)

pub rule_items-Free :
    (operator : String) (request : NamespacedName) → Free (Kept operator) (rule_items request)
unfolding Kind-discrete new_prometheus_rule new_sync_loop_prometheus_rule
rule_items-Free operator request = (
  (refl, Kept-other operator Kind.prometheus_rule_kind _ refl refl),
  ((refl, Kept-other operator Kind.prometheus_rule_kind _ refl refl), tt),
)
