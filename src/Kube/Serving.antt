-- ===== src/Kube/Serving.antt =====
-- What the controllers rely on of the API server and its client, as an interface with laws, and the
-- run of a program against it. Nothing else writes between two calls of a program.
use gitops_operator.Base.{◌≡◌, refl, ◌≢◌, ◌⊎◌, Bool, true, false, ◌&&◌, Option, none, some, ◌==◌}
use gitops_operator.Kube.Objects.{NamespacedName}
use gitops_operator.Kube.Api.{
  Kind, Kind-discrete, Object, key_of, Error, is_not_found, is_already_exists, Result, Call, Reply,
  Program, Io,
}
use mathlib.Core.Logic.{ite}

abbrev pub same_kind : Kind → Kind → Bool
same_kind k l = ite (Kind-discrete k l) true false

abbrev pub same_name : NamespacedName → NamespacedName → Bool
same_name m n = m.name == n.name && m.namespace == n.namespace

abbrev pub View : Type 0
View = (k : Kind) → NamespacedName → Option (Object k)

-- All other objects are as they were.
abbrev pub Frame : Kind → NamespacedName → View → View → Type 0
Frame k n v v' =
    (l : Kind) (m : NamespacedName) → (same_kind k l && same_name n m) ≡ false → v' l m ≡ v l m

abbrev pub Unchanged : View → View → Type 0
Unchanged v v' = (l : Kind) (m : NamespacedName) → v' l m ≡ v l m

-- A Get returns the object, or NotFound where there is none, or fails for another reason.
abbrev pub GetReply : {k : Kind} → Option (Object k) → Result (Object k) → Type 0 → Type 0
GetReply {k} stored r fault =
    ((o : Object k) × (stored ≡ some o) × (r ≡ Result.ok o))
    ⊎ (stored ≡ none) × (r ≡ Result.err Error.not_found)
    ⊎ ((e : Error) × (r ≡ Result.err e) × (is_not_found e ≡ false) × fault)

-- What a write that failed may have done to its object: nothing, or all of it.
abbrev pub Undecided :
    {k : Kind} → Option (Object k) → Option (Object k) → Option (Object k) → Type 0
Undecided before after goal = (after ≡ before) ⊎ (after ≡ goal)

abbrev pub CreateReply :
    {k : Kind}
    → Object k
    → Option (Object k)
    → Option (Object k)
    → Result (Unit {0})
    → Type 0
    → Type 0
CreateReply o before after r fault =
    ((r ≡ Result.ok tt) × (before ≡ none) × (after ≡ some o))
    ⊎ ((r ≡ Result.err Error.already_exists) × (before ≢ none) × (after ≡ before))
    ⊎ ((e : Error) × (r ≡ Result.err e)
        × (is_already_exists e ≡ false)
        × Undecided before after (some o)
        × fault)

abbrev pub UpdateReply :
    {k : Kind}
    → Object k
    → Option (Object k)
    → Option (Object k)
    → Result (Unit {0})
    → Type 0
    → Type 0
UpdateReply o before after r fault =
    ((r ≡ Result.ok tt) × (before ≢ none) × (after ≡ some o))
    ⊎ ((r ≡ Result.err Error.not_found) × (before ≡ none) × (after ≡ before))
    ⊎ ((e : Error) × (r ≡ Result.err e) × Undecided before after (some o) × fault)

-- argocd-operator puts a finalizer on every ArgoCD, so that a Delete only marks it; no other object
-- that the controllers delete has one.
abbrev pub has_finalizer : Kind → Bool
has_finalizer Kind.argo_cd_kind = true
has_finalizer _ = false

abbrev pub leaving : {k : Kind} → Object k → Object k
leaving o = record o { meta = record o.meta { deleting = true } }

-- The object is gone, or is one with a finalizer that is marked.
abbrev pub Deleted : {k : Kind} → Option (Object k) → Option (Object k) → Type 0
Deleted {k} before after =
    (after ≡ none)
    ⊎ ((has_finalizer k ≡ true) × ((o : Object k) × (before ≡ some o) × (after ≡ some (leaving o))))

abbrev pub DeleteReply :
    {k : Kind} → Option (Object k) → Option (Object k) → Result (Unit {0}) → Type 0 → Type 0
DeleteReply before after r fault =
    ((r ≡ Result.ok tt) × (before ≢ none) × Deleted before after)
    ⊎ ((r ≡ Result.err Error.not_found) × (before ≡ none) × (after ≡ none))
    ⊎ ((e : Error) × (r ≡ Result.err e)
        × (is_not_found e ≡ false)
        × ((after ≡ before) ⊎ Deleted before after)
        × fault)

-- `faulted w`: the call that led to `w` failed for a reason beside the state of its object, such as
-- a lost connection, a conflict or a missing permission.
pub record Server : Type 1 where
  pub World : Type 0
  pub serve : (c : Call) → World → Reply c × World
  pub view : World → View
  pub faulted : World → Type 0
  pub stored_key :
      (k : Kind) (n : NamespacedName) (w : World) (o : Object k)
      → view w k n ≡ some o
      → key_of o.meta ≡ n
  pub get_reply :
      (k : Kind) (n : NamespacedName) (w : World)
      → let (r, w') = serve (Call.get k n) w in GetReply (view w k n) r (faulted w')
  pub get_keeps :
      (k : Kind) (n : NamespacedName) (w : World)
      → Unchanged (view w) (view (serve (Call.get k n) w).1)
  pub create_reply :
      (k : Kind) (o : Object k) (w : World)
      → let (r, w') = serve (Call.create k o) w in
        CreateReply o (view w k (key_of o.meta)) (view w' k (key_of o.meta)) r (faulted w')
  pub create_keeps :
      (k : Kind) (o : Object k) (w : World)
      → Frame k (key_of o.meta) (view w) (view (serve (Call.create k o) w).1)
  pub update_reply :
      (k : Kind) (o : Object k) (w : World)
      → let (r, w') = serve (Call.update k o) w in
        UpdateReply o (view w k (key_of o.meta)) (view w' k (key_of o.meta)) r (faulted w')
  pub update_keeps :
      (k : Kind) (o : Object k) (w : World)
      → Frame k (key_of o.meta) (view w) (view (serve (Call.update k o) w).1)
  pub delete_reply :
      (k : Kind) (n : NamespacedName) (w : World)
      → let (r, w') = serve (Call.delete k n) w in
        DeleteReply (view w k n) (view w' k n) r (faulted w')
  pub delete_keeps :
      (k : Kind) (n : NamespacedName) (w : World)
      → Frame k n (view w) (view (serve (Call.delete k n) w).1)

module _ (s : Server) where
  -- `none` is a panic
  unfoldable pub run : {A : Type 0} → Program A → s.World → Option A × s.World
  run (Program.done a) w = (some a, w)
  run Program.crash w = (none, w)
  run (Program.call c k) w = run (k (s.serve c w).0) (s.serve c w).1

  -- The program does not panic, and its result and the world that it leaves satisfy `Q`.
  abbrev pub Ensures : {A : Type 0} → Program A → s.World → (A → s.World → Type 0) → Type 0
  Ensures (Program.done a) w Q = Q a w
  Ensures Program.crash w Q = ⊥
  Ensures (Program.call c k) w Q = Ensures (k (s.serve c w).0) (s.serve c w).1 Q

  -- A result that is an error comes of a fault of the server.
  abbrev pub OrFault : {A : Type 0} → (A → s.World → Type 0) → Result A → s.World → Type 0
  OrFault Q (Result.ok a) w = Q a w
  OrFault Q (Result.err e) w = s.faulted w

  -- The program returns, with a value and a world that satisfy `Q`, or with an error after a fault.
  abbrev pub Settles : {A : Type 0} → Io A → s.World → (A → s.World → Type 0) → Type 0
  Settles p w Q = Ensures p w (OrFault Q)

  -- The same of the run.
  pub Ensures-run :
      {A : Type 0} (p : Program A) (w : s.World) (Q : A → s.World → Type 0)
      → Ensures p w Q
      → (a : A) × (run p w ≡ (some a, (run p w).1)) × Q a (run p w).1
  unfolding run
  Ensures-run (Program.done a) w Q h = (a, refl, h)
  Ensures-run Program.crash w Q h = absurd h
  Ensures-run (Program.call c k) w Q h = Ensures-run (k (s.serve c w).0) (s.serve c w).1 Q h
