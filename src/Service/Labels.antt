-- ===== src/Service/Labels.antt =====
-- What keeping the metadata of a namespace does.
use gitops_operator.Base.{
  String, ◌≡◌, refl, sym, ap, ap₂, ◌∙◌, inl, inr, Bool, true, false, not, ◌||◌, Option, none, some,
  arith, if◌then◌else◌, Bool-cases, eq_iff, ◌==◌, ==-true, Entries, find, made, lookup, text_of,
  find-put, find-remove, eq_iff,
}
use gitops_operator.Kube.{key_of}
use gitops_operator.Service.Namespaces.{
  Namespace, pod_security_label, pod_security_value, infra_annotation, infra_value,
  ensure_pod_security_labels, ensure_infra_node_selector_annotation, ensure_namespace_metadata,
}

-- The infrastructure selector after the step: set if it is asked for, removed if it is not, and any
-- other value of the annotation is left alone where it is not asked for.
abbrev pub selector_after : Bool → Option String → Option String
selector_after true old = some infra_value
selector_after false old = if text_of old == infra_value then none else old

text_of-some :
    (o : Option String) (v : String) → (v == "") ≡ false → (text_of o == v) ≡ true → o ≡ some v
text_of-some none v n e = ground (arith, eq_iff "" v, eq_iff v "")
text_of-some (some w) v n e = ap some (==-true w v e)

find-same :
    (m : Entries) (j k v : String)
    → find m j ≡ some v
    → find m k ≡ (if j == k then some v else find m k)
find-same m j k v h = elim (Bool-cases (j == k)) [
  | inl e ↦ rw e (ap (find m) (sym (==-true j k e)) ∙ h)
  | inr e ↦ rw e refl
]

find-own : (m : Entries) (j k : String) → find m k ≡ (if j == k then find m j else find m k)
find-own m j k = elim (Bool-cases (j == k)) [
  | inl e ↦ rw e (ap (find m) (sym (==-true j k e)))
  | inr e ↦ rw e refl
]

labels-find :
    (ns : Namespace) (k : String)
    → lookup (ensure_pod_security_labels ns).1.meta.labels k
      ≡ (if pod_security_label == k then some pod_security_value else lookup ns.meta.labels k)
unfolding ensure_pod_security_labels lookup
labels-find ns k =
    let labels = made ns.meta.labels in
    elim (Bool-cases (text_of (find labels pod_security_label) == pod_security_value)) [
      | inl e ↦ rw e (
          find-same labels pod_security_label k pod_security_value
            (text_of-some (find labels pod_security_label) pod_security_value refl e))
      | inr e ↦ rw e (find-put pod_security_label k pod_security_value labels)
    ]

annotations-find :
    (ns : Namespace) (run_on_infra : Bool) (k : String)
    → lookup (ensure_infra_node_selector_annotation ns run_on_infra).1.meta.annotations k ≡ (
        if infra_annotation == k
        then selector_after run_on_infra (lookup ns.meta.annotations infra_annotation)
        else lookup ns.meta.annotations k)
unfolding ensure_infra_node_selector_annotation lookup
annotations-find ns true k =
    let annotations = made ns.meta.annotations in
    elim (Bool-cases (text_of (find annotations infra_annotation) == infra_value)) [
      | inl e ↦ rw e (
          find-same annotations infra_annotation k infra_value
            (text_of-some (find annotations infra_annotation) infra_value refl e))
      | inr e ↦ rw e (find-put infra_annotation k infra_value annotations)
    ]
annotations-find ns false k =
    let annotations = made ns.meta.annotations in
    elim (Bool-cases (text_of (find annotations infra_annotation) == infra_value)) [
      | inl e ↦ rw e (find-remove infra_annotation k annotations)
      | inr e ↦ rw e (find-own annotations infra_annotation k)
    ]

-- The two steps do not touch each other's map, nor the key.
labels-kept :
    (ns : Namespace) (run_on_infra : Bool)
    → (ensure_infra_node_selector_annotation ns run_on_infra).1.meta.labels ≡ ns.meta.labels
unfolding ensure_infra_node_selector_annotation
labels-kept ns true = ground arith
labels-kept ns false = ground arith

annotations-kept :
    (ns : Namespace) → (ensure_pod_security_labels ns).1.meta.annotations ≡ ns.meta.annotations
unfolding ensure_pod_security_labels
annotations-kept ns = ground arith

key_of-labels : (ns : Namespace) → key_of (ensure_pod_security_labels ns).1.meta ≡ key_of ns.meta
unfolding ensure_pod_security_labels
key_of-labels ns =
    elim (Bool-cases
      (text_of (find (made ns.meta.labels) pod_security_label) == pod_security_value)) [
        | inl e ↦ rw e refl
        | inr e ↦ rw e refl
      ]

pub key_of-annotations :
    (ns : Namespace) (run_on_infra : Bool)
    → key_of (ensure_infra_node_selector_annotation ns run_on_infra).1.meta ≡ key_of ns.meta
unfolding ensure_infra_node_selector_annotation
key_of-annotations ns true =
    elim (Bool-cases (text_of (find (made ns.meta.annotations) infra_annotation) == infra_value)) [
      | inl e ↦ rw e refl
      | inr e ↦ rw e refl
    ]
key_of-annotations ns false =
    elim (Bool-cases (text_of (find (made ns.meta.annotations) infra_annotation) == infra_value)) [
      | inl e ↦ rw e refl
      | inr e ↦ rw e refl
    ]

-- Keeping the metadata of a namespace sets the label of pod security, sets or removes the operator's
-- selector of infrastructure nodes as it is asked for, leaves every other label and annotation, and a
-- selector of another value where none is asked for, as it was, and keeps the key.
pub ensure_namespace_metadata-lookup :
    (ns : Namespace) (run_on_infra : Bool)
    → ((k : String)
        → lookup (ensure_namespace_metadata ns run_on_infra).1.meta.labels k
          ≡ (if pod_security_label == k then some pod_security_value else lookup ns.meta.labels k))
      × ((k : String)
          → lookup (ensure_namespace_metadata ns run_on_infra).1.meta.annotations k ≡ (
              if infra_annotation == k
              then selector_after run_on_infra (lookup ns.meta.annotations infra_annotation)
              else lookup ns.meta.annotations k))
      × (key_of (ensure_namespace_metadata ns run_on_infra).1.meta ≡ key_of ns.meta)
unfolding ensure_namespace_metadata
ensure_namespace_metadata-lookup ns run_on_infra =
    let first = (ensure_pod_security_labels ns).1 in
    (
      λ k. ap (λ m. lookup m k) (labels-kept first run_on_infra) ∙ labels-find ns k,
      λ k.
          annotations-find first run_on_infra k
          ∙ ap
              (λ m.
                if infra_annotation == k
                then selector_after run_on_infra (lookup m infra_annotation)
                else lookup m k)
              (annotations-kept ns),
      key_of-annotations first run_on_infra ∙ key_of-labels ns,
    )

selected :
    (run_on_infra : Bool) (o : Option String)
    → (if run_on_infra
        then not (text_of (selector_after run_on_infra o) == infra_value)
        else text_of (selector_after run_on_infra o) == infra_value)
      ≡ false
selected true o = refl
selected false o = elim (Bool-cases (text_of o == infra_value)) [
  | inl e ↦ rw e refl
  | inr e ↦ rw e e
]

changed-labels :
    (ns : Namespace)
    → (ensure_pod_security_labels ns).0
      ≡ not (text_of (lookup ns.meta.labels pod_security_label) == pod_security_value)
unfolding ensure_pod_security_labels lookup
changed-labels ns = ground arith

changed-annotations :
    (ns : Namespace) (run_on_infra : Bool)
    → (ensure_infra_node_selector_annotation ns run_on_infra).0 ≡ (
        if run_on_infra
        then not (text_of (lookup ns.meta.annotations infra_annotation) == infra_value)
        else text_of (lookup ns.meta.annotations infra_annotation) == infra_value)
unfolding ensure_infra_node_selector_annotation lookup
changed-annotations ns true = ground arith
changed-annotations ns false = ground arith

-- A namespace whose metadata was kept needs no further change: the second time the result is false.
pub ensure_namespace_metadata-twice :
    (ns : Namespace) (run_on_infra : Bool)
    → (ensure_namespace_metadata (ensure_namespace_metadata ns run_on_infra).1 run_on_infra).0
      ≡ false
unfolding ensure_namespace_metadata
ensure_namespace_metadata-twice ns run_on_infra =
    let once = (ensure_namespace_metadata ns run_on_infra).1 in
    let (labels, annotations, _) = ensure_namespace_metadata-lookup ns run_on_infra in
    ap₂ (λ a b. a || b)
      (changed-labels once
        ∙ ap (λ o. not (text_of o == pod_security_value)) (labels pod_security_label))
      (changed-annotations (ensure_pod_security_labels once).1 run_on_infra
        ∙ ap
            (λ m.
              if run_on_infra
              then not (text_of (lookup m infra_annotation) == infra_value)
              else text_of (lookup m infra_annotation) == infra_value)
            (annotations-kept once)
        ∙ ap
            (λ o. if run_on_infra then not (text_of o == infra_value) else text_of o == infra_value)
            (annotations infra_annotation)
        ∙ selected run_on_infra (lookup ns.meta.annotations infra_annotation))
