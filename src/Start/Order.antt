-- ===== src/Start/Order.antt =====
-- Runs of the steps of cmd/main.go, and the steps that need a scheme before them.
use gitops_operator.Base.{
  ◌≡◌, refl, subst, ◌⊎◌, inl, inr, Bool, true, false, List, [], ◌∷◌, ◌++◌, Bool-cases, All,
}
use mathlib.Core.List.{
  Mem, mem-cons_self, mem-cons_of_mem, not-mem-nil, Mem-prop, eq-or-mem_of_mem-cons,
}
use mathlib.Core.Logic.Or
use gitops_operator.Cluster.{ApiGroup, Flags}
use gitops_operator.Start.{
  Scheme, Controller, Step, StartSettings, run_steps, steps_if, scheme_steps,
}

abbrev pub needed_if : Bool → Scheme → List Scheme
needed_if true scheme = scheme ∷ []
needed_if false scheme = []

-- The schemes of the objects that a controller watches, owns or reads first; of the console and of
-- routes where the inspection of the cluster found them.
abbrev pub needed : Flags → Controller → List Scheme
needed flags (Controller.gitops_service _) =
    Scheme.config_scheme
      ∷ Scheme.argo_cd_beta_scheme
      ∷ needed_if (flags ApiGroup.route_group) Scheme.route_scheme
    ++ needed_if (flags ApiGroup.console_group) Scheme.console_scheme
needed flags Controller.argo_cd_route =
    Scheme.route_scheme ∷ needed_if (flags ApiGroup.console_group) Scheme.console_scheme
needed flags Controller.argo_cd_metrics = Scheme.monitoring_scheme ∷ Scheme.argo_cd_beta_scheme ∷ []
needed flags Controller.argo_cd =
    Scheme.argo_cd_beta_scheme ∷ needed_if (flags ApiGroup.route_group) Scheme.route_scheme
    ++ needed_if (flags ApiGroup.monitoring_group) Scheme.monitoring_scheme
needed flags Controller.notifications = Scheme.argo_cd_alpha_scheme ∷ []
needed flags (Controller.argo_rollouts _ _) =
    Scheme.rollouts_scheme ∷ needed_if (flags ApiGroup.route_group) Scheme.route_scheme

abbrev pub Has : List Step → Scheme → Type 0
Has before scheme = Mem (Step.register scheme) before

abbrev pub Ready : Flags → List Step → Step → Type 0
Ready flags before (Step.set_up controller) = All (Has before) (needed flags controller)
Ready flags before _ = Unit

-- After the steps `before`, in reverse, every step is ready in its turn, and succeeds unless it is the
-- last one, which fails or starts the manager.
abbrev pub Ordered : Flags → (Step → Bool) → List Step → List Step → Type 0
Ordered flags succeeds before [] = ⊥
Ordered flags succeeds before (x ∷ []) =
    Ready flags before x × ((succeeds x ≡ false) ⊎ (x ≡ Step.start_manager))
Ordered flags succeeds before (x ∷ y ∷ steps) =
    Ready flags before x × (succeeds x ≡ true) × Ordered flags succeeds (x ∷ before) (y ∷ steps)

-- The last step starts the manager.
abbrev pub EndsInStart : List Step → Type 0
EndsInStart [] = ⊥
EndsInStart (x ∷ []) = x ≡ Step.start_manager
EndsInStart (x ∷ y ∷ steps) = EndsInStart (y ∷ steps)

EndsInStart-cons : (x : Step) (steps : List Step) → EndsInStart steps → EndsInStart (x ∷ steps)
EndsInStart-cons x [] h = absurd h
EndsInStart-cons x (y ∷ steps) h = h

pub EndsInStart-++ : (xs steps : List Step) → EndsInStart steps → EndsInStart (xs ++ steps)
EndsInStart-++ [] steps h = h
EndsInStart-++ (x ∷ xs) steps h = EndsInStart-cons x (xs ++ steps) (EndsInStart-++ xs steps h)

abbrev pub InOrder : Flags → List Step → List Step → Type 0
InOrder flags before [] = Unit
InOrder flags before (x ∷ steps) = Ready flags before x × InOrder flags (x ∷ before) steps

pub run_steps-Ordered :
    (flags : Flags) (succeeds : Step → Bool) (before steps : List Step)
    → InOrder flags before steps
    → EndsInStart steps
    → Ordered flags succeeds before (run_steps succeeds steps)
unfolding run_steps
run_steps-Ordered flags succeeds before [] h last = last
run_steps-Ordered flags succeeds before (x ∷ []) (ready, _) last = elim (Bool-cases (succeeds x)) [
  | inl e ↦ rw e (ready, inr last)
  | inr e ↦ rw e (ready, inl e)
]
run_steps-Ordered flags succeeds before (x ∷ y ∷ steps) (ready, h) last =
    elim (Bool-cases (succeeds x)) [
      | inl e ↦ rw e (ready, e, run_steps-Ordered flags succeeds (x ∷ before) (y ∷ steps) h last)
      | inr e ↦ rw e (ready, inl e)
    ]

-- the steps taken, in reverse
abbrev pub taken : List Step → List Step → List Step
taken before [] = before
taken before (x ∷ steps) = taken (x ∷ before) steps

pub InOrder-++ :
    (flags : Flags) (before xs ys : List Step)
    → InOrder flags before xs
    → InOrder flags (taken before xs) ys
    → InOrder flags before (xs ++ ys)
InOrder-++ flags before [] ys h k = k
InOrder-++ flags before (x ∷ xs) ys (ready, h) k = (ready, InOrder-++ flags (x ∷ before) xs ys h k)

taken-before : {x : Step} (before steps : List Step) → Mem x before → Mem x (taken before steps)
taken-before before [] h = h
taken-before before (y ∷ steps) h = taken-before (y ∷ before) steps (mem-cons_of_mem y h)

-- A step that is ready wherever the schemes of the cluster were registered before.
abbrev pub Knows : StartSettings → List Step → Type 0
Knows c before = (scheme : Scheme) → Mem (Step.register scheme) (scheme_steps c) → Has before scheme

abbrev pub Needs : StartSettings → Step → Type 0
Needs c x = (before : List Step) → Knows c before → Ready c.flags before x

abbrev pub Always : Step → Type 0
Always x = (flags : Flags) (before : List Step) → Ready flags before x

pub All-Always :
    (flags : Flags) (before steps : List Step) → All Always steps → InOrder flags before steps
All-Always flags before [] h = tt
All-Always flags before (x ∷ steps) (h, hs) =
    (h flags before, All-Always flags (x ∷ before) steps hs)

pub All-Needs :
    (c : StartSettings) (before steps : List Step)
    → Knows c before
    → All (Needs c) steps
    → InOrder c.flags before steps
All-Needs c before [] k h = tt
All-Needs c before (x ∷ steps) k (h, hs) =
    (h before k, All-Needs c (x ∷ before) steps (λ scheme m. mem-cons_of_mem x (k scheme m)) hs)

pub All-if :
    (P : Step → Type 0) (b : Bool) (steps : List Step)
    → (b ≡ true → All P steps)
    → All P (steps_if b steps)
All-if P true steps h = h refl
All-if P false steps h = tt

pub All-++ : {A : Type 0} (P : A → Type 0) (xs ys : List A) → All P xs → All P ys → All P (xs ++ ys)
All-++ P [] ys h k = k
All-++ P (x ∷ xs) ys (p, h) k = (p, All-++ P xs ys h k)

pub taken-steps : {x : Step} (before steps : List Step) → Mem x steps → Mem x (taken before steps)
taken-steps before [] h = absurd (not-mem-nil h)
taken-steps {x} before (y ∷ steps) h =
    Or.elim Mem-prop (eq-or-mem_of_mem-cons h)
      (λ e. taken-before (y ∷ before) steps (subst (λ z. Mem x (z ∷ before)) e mem-cons_self))
      (λ m. taken-steps (y ∷ before) steps m)
