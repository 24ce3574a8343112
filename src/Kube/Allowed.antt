-- ===== src/Kube/Allowed.antt =====
-- Which calls the three shapes make, whatever the replies.
use gitops_operator.Base.{String, inl, inr, List, [], ◌∷◌, All, Bool-cases}
use gitops_operator.Kube.Objects.{NamespacedName, ObjectMeta}
use gitops_operator.Kube.Api.{
  Kind, Object, Error, is_not_found, Result, Call, Program, after, or_return, ◌>>=◌,
}
use gitops_operator.Kube.Calls.{Only, Only-bind}
use gitops_operator.Kube.Idioms.{
  Reference, Change, apply_change, create_or_change, create_or_amend, ignore_missing,
  delete_if_present,
}
use gitops_operator.Kube.Idioms.Chains.{Target, delete_each}

module _ (P : Call → Type 0) where
  -- the calls that `create_or_amend` may make for objects of a kind
  abbrev pub MayAmend : Kind → Type 0
  MayAmend k =
      ((n : NamespacedName) → P (Call.get k n))
      × ((o : Object k) → P (Call.create k o))
      × ((o : Object k) → P (Call.update k o))

  module _ (k : Kind) (may : MayAmend k) where
    apply_change-Only : (c : Change (Object k)) → Only P (apply_change c)
    apply_change-Only Change.keep = tt
    apply_change-Only (Change.replace o) = (may.2 o, λ _. tt)
    apply_change-Only Change.panic = tt

    create_or_change-Only :
        (o : Object k) (amend : Object k → Change (Object k)) (r : Result (Object k))
        → Only P (create_or_change o amend r)
    create_or_change-Only o amend (Result.ok x) = apply_change-Only (amend x)
    create_or_change-Only o amend (Result.err e) = elim (Bool-cases (is_not_found e)) [
      | inl q ↦ rw q (may.1 o, λ _. tt)
      | inr q ↦ rw q tt
    ]

    pub create_or_amend-Only :
        (reference : Reference) (owner : String) (o : Object k)
        (amend : Object k → Change (Object k))
        → Only P (create_or_amend reference owner k o amend)
    unfolding create_or_amend ◌>>=◌ after
    create_or_amend-Only reference owner o amend = go (reference owner o.meta)
      where
        go :
            (r : Result ObjectMeta)
            → Only P (
                or_return
                  (λ m.
                    Program.call
                      (Call.get k (record { name = m.name; namespace = m.namespace }))
                      (create_or_change (record { meta = m; body = o.body }) amend))
                  r)
        go (Result.ok m) =
            (may.0 _, create_or_change-Only (record { meta = m; body = o.body }) amend)
        go (Result.err e) = tt

  ignore_missing-Only :
      (wrap : Error → Error) (r : Result (Unit {0})) → Only P (ignore_missing wrap r)
  ignore_missing-Only wrap (Result.ok _) = tt
  ignore_missing-Only wrap (Result.err e) = elim (Bool-cases (is_not_found e)) [
    | inl q ↦ rw q tt
    | inr q ↦ rw q tt
  ]

  pub delete_if_present-Only :
      (wrap : Error → Error) (k : Kind) (n : NamespacedName)
      → P (Call.delete k n)
      → Only P (delete_if_present wrap k n)
  unfolding delete_if_present after
  delete_if_present-Only wrap k n h = (h, ignore_missing-Only wrap)

  pub delete_each-Only :
      (t : Target) (ts : List Target)
      → All (λ u. P (Call.delete u.kind u.key)) (t ∷ ts)
      → Only P (delete_each t ts)
  unfolding delete_each
  delete_each-Only t [] h = delete_if_present-Only t.wrap t.kind t.key h.0
  delete_each-Only t (u ∷ ts) h =
      Only-bind P (delete_if_present t.wrap t.kind t.key) (λ _. delete_each u ts)
        (delete_if_present-Only t.wrap t.kind t.key h.0) (λ _. delete_each-Only u ts h.1)

  -- weaker conditions on the calls
  pub Only-mono :
      {A : Type 0} (Q : Call → Type 0) (p : Program A)
      → ((c : Call) → Q c → P c)
      → Only Q p
      → Only P p
  Only-mono Q (Program.done a) f h = tt
  Only-mono Q Program.crash f h = tt
  Only-mono Q (Program.call c k) f h = (f c h.0, λ r. Only-mono Q (k r) f (h.1 r))
