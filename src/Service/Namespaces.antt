-- ===== src/Service/Namespaces.antt =====
-- The metadata of the namespaces that the operator creates and keeps.
use gitops_operator.Base.{
  String, Bool, true, false, not, ◌||◌, none, some, [], ◌∷◌, if◌then◌else◌, ◌==◌, has_prefix,
  Entries, find, put, remove, made, text_of,
}
use gitops_operator.Kube.{Kind, Object}

abbrev pub Namespace : Type 0
Namespace = Object Kind.namespace_kind

abbrev pub pod_security_label : String
pod_security_label = "security.openshift.io/scc.podSecurityLabelSync"

abbrev pub pod_security_value : String
pod_security_value = "true"

abbrev pub infra_annotation : String
infra_annotation = "openshift.io/node-selector"

abbrev pub infra_value : String
infra_value = "node-role.kubernetes.io/infra="

unfoldable pub new_restricted_namespace : String → Namespace
new_restricted_namespace ns = record {
  meta = record {
    name = ns;
    namespace = "";
    labels = some (
        if has_prefix ns "openshift-"
        then put pod_security_label pod_security_value
            (("openshift.io/cluster-monitoring", "true") ∷ [])
        else ("openshift.io/cluster-monitoring", "true") ∷ []);
    annotations = none;
    owner = none;
    deleting = false;
  };
  body = tt;
}

abbrev pub set_labels : Entries → Namespace → Namespace
set_labels m ns = record { meta = record ns.meta { labels = some m }; body = ns.body }

abbrev pub set_annotations : Entries → Namespace → Namespace
set_annotations m ns = record { meta = record ns.meta { annotations = some m }; body = ns.body }

-- Whether the namespace changed, and the namespace: a nil map is made in either case.
unfoldable pub ensure_pod_security_labels : Namespace → Bool × Namespace
ensure_pod_security_labels ns =
    let labels = made ns.meta.labels in
    if not (text_of (find labels pod_security_label) == pod_security_value)
    then (true, set_labels (put pod_security_label pod_security_value labels) ns)
    else (false, set_labels labels ns)

unfoldable pub ensure_infra_node_selector_annotation : Namespace → Bool → Bool × Namespace
ensure_infra_node_selector_annotation ns run_on_infra =
    let annotations = made ns.meta.annotations in
    if run_on_infra
    then if not (text_of (find annotations infra_annotation) == infra_value)
      then (true, set_annotations (put infra_annotation infra_value annotations) ns)
      else (false, set_annotations annotations ns)
    else if text_of (find annotations infra_annotation) == infra_value
    then (true, set_annotations (remove infra_annotation annotations) ns)
    else (false, set_annotations annotations ns)

unfoldable pub ensure_namespace_metadata : Namespace → Bool → Bool × Namespace
unfolding ensure_pod_security_labels ensure_infra_node_selector_annotation
ensure_namespace_metadata ns run_on_infra =
    let (labelled, first) = ensure_pod_security_labels ns in
    let (annotated, second) = ensure_infra_node_selector_annotation first run_on_infra in
    (labelled || annotated, second)
