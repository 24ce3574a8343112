-- ===== src/Kube/Effects.antt =====
-- How the objects after a program relate to those before.
use gitops_operator.Base.{
  ◌==◌, ◌≡◌, ◌≢◌, inl, inr, ◌∙◌, sym, true, false, ◌&&◌, none, some, Bool-cases, arith, &&-left,
  &&-right, ==-true, eq_refl,
}
use gitops_operator.Kube.Objects.{NamespacedName}
use gitops_operator.Kube.Api.{Kind, Kind-discrete, Object}
use gitops_operator.Kube.Serving.{View, Frame, same_kind, same_name}
use mathlib.Core.Logic.{if_neg}
use mathlib.Core.Bool.{false≢true}

-- No object is lost.
abbrev pub Persists : View → View → Type 0
Persists v v' = (l : Kind) (m : NamespacedName) → v l m ≢ none → v' l m ≢ none

-- No object is changed or lost.
abbrev pub Extends : View → View → Type 0
Extends v v' = (l : Kind) (m : NamespacedName) (o : Object l) → v l m ≡ some o → v' l m ≡ some o

-- No object appears.
abbrev pub Shrinks : View → View → Type 0
Shrinks v v' = (l : Kind) (m : NamespacedName) → v l m ≡ none → v' l m ≡ none

-- The objects of one kind are as they were.
abbrev pub KeepsKind : Kind → View → View → Type 0
KeepsKind k v v' = (m : NamespacedName) → v' k m ≡ v k m

pub same_name-eq : (m n : NamespacedName) → same_name m n ≡ true → m ≡ n
same_name-eq m n h = ground (
  arith,
  ==-true m.name n.name (&&-left (m.name == n.name) (m.namespace == n.namespace) h),
  ==-true m.namespace n.namespace (&&-right (m.name == n.name) (m.namespace == n.namespace) h),
)

pub same_name_refl : (n : NamespacedName) → same_name n n ≡ true
same_name_refl n = ground (arith, eq_refl n.name, eq_refl n.namespace)

pub same_kind-eq : (k l : Kind) → same_kind k l ≡ true → k ≡ l
same_kind-eq k l h = elim (Kind-discrete k l) [
  | yes p ↦ p
  | no p ↦ absurd (false≢true (sym (if_neg _ p true false) ∙ h))
]

-- A property of every object that holds of the one that was written and, through the frame, of the
-- others.
pub Frame-cases :
    {k : Kind} {n : NamespacedName} {v v' : View} (R : (l : Kind) → NamespacedName → Type 0)
    → Frame k n v v'
    → R k n
    → ((l : Kind) (m : NamespacedName) → v' l m ≡ v l m → R l m)
    → (l : Kind) (m : NamespacedName) → R l m
Frame-cases {k} {n} {v} {v'} R frame own other l m =
    elim (Bool-cases (same_kind k l && same_name n m)) [
      | inl e ↦
          rw (← same_kind-eq k l (&&-left _ _ e), ← same_name-eq n m (&&-right (same_kind k l) _ e))
            own
      | inr e ↦ other l m (frame l m e)
    ]
