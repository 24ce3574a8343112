-- ===== src/Hook/Namespaces.antt =====
-- Which namespaces may configure the cluster, and what that does to a cluster secret.
use gitops_operator.Base.{
  String, ◌≡◌, refl, sym, subst, ◌↔◌, ◌⊎◌, inl, inr, true, ◌&&◌, none, some, List, [], ◌∷◌, arith,
  if◌then◌else◌, Bool-cases, All, ◌==◌, ==-true, ==-ne, contains, StringMap, find, made, lookup,
  find-remove,
}
use mathlib.Core.Bool.{true≢false}
use gitops_operator.Hook.{
  Secret, HookSettings, allowed_among, allowed_namespace, hook_secret, without_namespaces,
}
use gitops_operator.Hook.Trust.{Instance}
use gitops_operator.Hook.Lists.{Entry, IsEntry, written, names, split_list-written}

abbrev pub OneOf : String → List String → Type 0
OneOf s [] = ⊥
OneOf s (x ∷ xs) = (x ≡ s) ⊎ OneOf s xs

abbrev pub StartsWith : String → List String → Type 0
StartsWith s [] = ⊥
StartsWith s (x ∷ _) = x ≡ s

contains-OneOf : (xs : List String) (s : String) → (contains xs s ≡ true) ↔ OneOf s xs
contains-OneOf [] s = (λ e. absurd (true≢false (sym e)), λ p. absurd p)
contains-OneOf (x ∷ xs) s = elim (Bool-cases (x == s)) [
  | inl e ↦ rw e (λ _. inl (==-true x s e), λ _. refl)
  | inr e ↦ rw e (
    λ c. inr ((contains-OneOf xs s).0 c),
    λ p. elim p [ inl q ↦ absurd (==-ne x s e q) | inr q ↦ (contains-OneOf xs s).1 q ],
  )
]

allowed_among_iff :
    (current : String) (xs : List String)
    → (allowed_among current xs ≡ true) ↔ (StartsWith "*" xs ⊎ OneOf current xs)
allowed_among_iff current [] =
    (λ e. absurd (true≢false (sym e)), λ p. elim p [ inl q ↦ absurd q | inr q ↦ absurd q ])
allowed_among_iff current (x ∷ xs) = elim (Bool-cases (x == "*")) [
  | inl e ↦ rw e (λ _. inl (==-true x "*" e), λ _. refl)
  | inr e ↦ rw e (
    λ c. inr ((contains-OneOf (x ∷ xs) current).0 c),
    λ p. elim p [
      | inl q ↦ absurd (==-ne x "*" e q)
      | inr q ↦ (contains-OneOf (x ∷ xs) current).1 q
    ],
  )
]

-- Of a list of namespaces that is written with commas between them, and with white space around them
-- or not: a namespace may configure the cluster exactly if the first name of the list is a star, or it
-- is one of the names. The names have neither commas nor white space.
pub allowed_namespace_iff :
    (current : String) (first : Entry) (more : List Entry)
    → All IsEntry (first ∷ more)
    → (allowed_namespace current (written first more) ≡ true)
      ↔ ((first.name ≡ "*") ⊎ OneOf current (names (first ∷ more)))
unfolding allowed_namespace
allowed_namespace_iff current first more h =
    subst
      (λ l.
        (allowed_among current l ≡ true)
        ↔ ((first.name ≡ "*") ⊎ OneOf current (names (first ∷ more))))
      (sym (split_list-written first more h)) (allowed_among_iff current (names (first ∷ more)))

-- Of a cluster secret the hook removes the entry `namespaces`, where the instance's namespace may
-- configure the cluster, and no other entry.
pub hook_secret-lookup :
    (h : HookSettings) (cr : Instance) (o : Secret) (k : String)
    → lookup (hook_secret h cr o).body k ≡ (
        if allowed_namespace cr.namespace h.cluster_config_namespaces && "namespaces" == k
        then none
        else lookup o.body k)
unfolding hook_secret lookup find
hook_secret-lookup h cr o k =
    elim (Bool-cases (allowed_namespace cr.namespace h.cluster_config_namespaces)) [
      | inl e ↦ rw e (go o.body)
      | inr e ↦ rw e refl
    ]
  where
    go :
        (m : StringMap)
        → find (made (without_namespaces m)) k
          ≡ (if "namespaces" == k then none else find (made m) k)
    go none = ground arith
    go (some m) = find-remove "namespaces" k m
