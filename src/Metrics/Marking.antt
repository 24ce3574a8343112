-- ===== src/Metrics/Marking.antt =====
-- The label of monitoring on a namespace.
use gitops_operator.Base.{
  String, ◌≡◌, refl, sym, ap, ◌∙◌, inl, inr, none, some, if◌then◌else◌, Bool-cases, StringMap, find,
  put, made, lookup, put-find, same_text?, same_text?-eq,
}
use gitops_operator.Kube.{
  NamespacedName, Kind, Object, key_of, pure, update_object, Server, View, Frame, Unchanged,
  Settles, Settles-update,
}
use mathlib.Core.Option.{none-ne-some}
use gitops_operator.Metrics.{with_label}

module _ (s : Server) where
  open s use {World, view}

  -- Where the namespace has the label already, setting it changes nothing.
  with_label_self :
      (label value : String) (ns : Object Kind.namespace_kind) (labels : StringMap)
      → ns.meta.labels ≡ labels
      → lookup labels label ≡ some value
      → with_label label value ns ≡ ns
  unfolding lookup find
  with_label_self label value ns none e h = absurd (none-ne-some value h)
  with_label_self label value ns (some m) e h =
      ap (λ l. record { meta = record ns.meta { labels = l }; body = ns.body })
        (ap (λ l. some (put label value (made l))) e ∙ ap some (put-find label value m h) ∙ sym e)

  pub label-Settles :
      (v : View) (w : World) (ns : Object Kind.namespace_kind) (n : NamespacedName) (label : String)
      → Unchanged v (view w)
      → v Kind.namespace_kind n ≡ some ns
      → key_of ns.meta ≡ n
      → Settles s
          (if same_text? (lookup ns.meta.labels label) (some "true")
            then pure tt
            else update_object Kind.namespace_kind (with_label label "true" ns))
          w
          (λ _ w'.
            (view w' Kind.namespace_kind n ≡ some (with_label label "true" ns))
            × Frame Kind.namespace_kind n v (view w'))
  label-Settles v w ns n label u e k =
      elim (Bool-cases (same_text? (lookup ns.meta.labels label) (some "true"))) [
        | inl same ↦ rw same (
            (
              u Kind.namespace_kind n
                  ∙ e
                  ∙ ap some (
                      sym (
                        with_label_self label "true" ns ns.meta.labels refl
                          (same_text?-eq (lookup ns.meta.labels label) (some "true") same))),
              λ l m _. u l m,
            ))
        | inr other ↦ rw other (
            Settles-update s Kind.namespace_kind n ns (with_label label "true" ns) w
              (λ w'.
                (view w' Kind.namespace_kind n ≡ some (with_label label "true" ns))
                × Frame Kind.namespace_kind n v (view w'))
              k (u Kind.namespace_kind n ∙ e) (λ w' h f. (h, λ l m d. f l m d ∙ u l m)))
      ]
