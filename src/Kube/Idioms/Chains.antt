-- ===== src/Kube/Idioms/Chains.antt =====
-- Sequences of the three shapes: what an earlier step provides, the later ones keep.
use gitops_operator.Base.{
  String, ◌≡◌, sym, ◌∙◌, ◌≢◌, inl, inr, false, ◌&&◌, Option, none, some, List, [], ◌∷◌,
  Option-cases, All,
}
use gitops_operator.Kube.Objects.{NamespacedName}
use gitops_operator.Kube.Api.{Result, Call, Program, Kind, Object, key_of, Error, Io, ◌>>=◌, ◌>>◌}
use gitops_operator.Kube.Serving.{
  has_finalizer, Undecided, UpdateReply, CreateReply, Ensures, Server, View, Frame, Unchanged,
  Settles, same_kind, same_name,
}
use gitops_operator.Kube.Rules.{Settles-mono, Settles-step}
use gitops_operator.Kube.Effects.{Persists, Extends, Shrinks, Frame-cases}
use gitops_operator.Kube.Idioms.{Reference, SetsOwner, create_if_absent, delete_if_present}
use gitops_operator.Kube.Idioms.Specs.{
  Provided, create_if_absent-Settles, delete_if_present-Settles,
}

-- A set of objects that a sequence does not touch.
abbrev pub Protected : Type 1
Protected = Kind → NamespacedName → Type 0

-- An object of this kind and key is none of them.
abbrev pub Avoids : Protected → Kind → NamespacedName → Type 0
Avoids prot k n =
    (l : Kind) (m : NamespacedName) → prot l m → (same_kind k l && same_name n m) ≡ false

abbrev pub Guards : Protected → View → View → Type 0
Guards prot v v' = (l : Kind) (m : NamespacedName) → prot l m → v' l m ≡ v l m

pub record Advances (prot : Protected) (v v' : View) : Type 0 where
  pub persists : Persists v v'
  pub guards : Guards prot v v'

pub record Retreats (prot : Protected) (v v' : View) : Type 0 where
  pub shrinks : Shrinks v v'
  pub guards : Guards prot v v'

module _ {prot : Protected} where
  pub Advances-refl : {v v' : View} → Unchanged v v' → Advances prot v v'
  Advances-refl u = record { persists = λ l m h e. h (sym (u l m) ∙ e); guards = λ l m _. u l m }

  pub Advances-trans : {u v w : View} → Advances prot u v → Advances prot v w → Advances prot u w
  Advances-trans a b = record {
    persists = λ l m h. b.persists l m (a.persists l m h);
    guards = λ l m p. b.guards l m p ∙ a.guards l m p;
  }

  pub Advances-weaken :
      {fewer : Protected} {v v' : View}
      → ((l : Kind) (m : NamespacedName) → fewer l m → prot l m)
      → Advances prot v v'
      → Advances fewer v v'
  Advances-weaken f a = record { persists = a.persists; guards = λ l m p. a.guards l m (f l m p) }

  pub Retreats-trans : {u v w : View} → Retreats prot u v → Retreats prot v w → Retreats prot u w
  Retreats-trans a b = record {
    shrinks = λ l m h. b.shrinks l m (a.shrinks l m h);
    guards = λ l m p. b.guards l m p ∙ a.guards l m p;
  }

  pub Frame-Guards :
      (k : Kind) (n : NamespacedName) {v v' : View}
      → Avoids prot k n
      → Frame k n v v'
      → Guards prot v v'
  Frame-Guards k n a f l m p = f l m (a l m p)

  -- a write after which the object is there
  pub Frame-Advances :
      (k : Kind) (n : NamespacedName) {v v' : View}
      → Avoids prot k n
      → v' k n ≢ none
      → Frame k n v v'
      → Advances prot v v'
  Frame-Advances k n {v} {v'} a there f = record {
    persists =
        Frame-cases (λ l m. v l m ≢ none → v' l m ≢ none) f (λ _. there)
          (λ l m e h d. h (sym e ∙ d));
    guards = Frame-Guards k n a f;
  }

  -- a write after which the object is gone
  pub Frame-Retreats :
      (k : Kind) (n : NamespacedName) {v v' : View}
      → Avoids prot k n
      → v' k n ≡ none
      → Frame k n v v'
      → Retreats prot v v'
  Frame-Retreats k n {v} {v'} a gone f = record {
    shrinks = Frame-cases (λ l m. v l m ≡ none → v' l m ≡ none) f (λ _. gone) (λ l m e h. e ∙ h);
    guards = Frame-Guards k n a f;
  }

Extends-Persists : {v v' : View} → Extends v v' → Persists v v'
Extends-Persists {v} {v'} x l m h e = elim (Option-cases (v l m)) [
  | inl n ↦ h n
  | inr (o, p) ↦ cc (x l m o p, e)
]

-- An object to delete, and what is made of the error.
pub record Target : Type 0 where
  pub wrap : Error → Error
  pub kind : Kind
  pub key : NamespacedName

-- the objects of a list, first to last
unfoldable pub delete_each : Target → List Target → Io (Unit {0})
unfolding ◌>>=◌ delete_if_present
delete_each t [] = delete_if_present t.wrap t.kind t.key
delete_each t (u ∷ ts) = do delete_if_present t.wrap t.kind t.key; delete_each u ts

abbrev pub Gone : View → Target → Type 0
Gone v t = v t.kind t.key ≡ none

module _ (s : Server) (prot : Protected) where
  open s use {World, view}

  Undecided-there :
      {k : Kind} {before after goal : Option (Object k)}
      → goal ≢ none
      → Undecided before after goal
      → before ≢ none
      → after ≢ none
  Undecided-there g (inl same) b e = b (sym same ∙ e)
  Undecided-there g (inr done) b e = g (sym done ∙ e)

  -- A write that may change or fail: nothing is lost, whatever the reply.
  write-Advances :
      (k : Kind) (n : NamespacedName) (w w' : World)
      → Avoids prot k n
      → (view w k n ≢ none → view w' k n ≢ none)
      → Frame k n (view w) (view w')
      → Advances prot (view w) (view w')
  write-Advances k n w w' a there f = record {
    persists =
        Frame-cases (λ l m. view w l m ≢ none → view w' l m ≢ none) f there
          (λ l m e h d. h (sym e ∙ d));
    guards = Frame-Guards k n a f;
  }

  some-ne-none : {k : Kind} {o : Object k} → ◌≢◌ {A = Option (Object k)} (some o) none
  some-ne-none e = cc

  pub Ensures-update_any :
      {A : Type 0} (k : Kind) (o : Object k) (f : Result (Unit {0}) → Program A) (w : World)
      (Q : A → World → Type 0)
      → Avoids prot k (key_of o.meta)
      → ((r : Result (Unit {0})) (w' : World)
          → Advances prot (view w) (view w')
          → Ensures s (f r) w' Q)
      → Ensures s (Program.call (Call.update k o) f) w Q
  Ensures-update_any k o f w Q a next = next (s.serve (Call.update k o) w).0 w' (
      write-Advances k (key_of o.meta) w w' a (there (s.update_reply k o w)) (s.update_keeps k o w))
    where
      w' : World
      w' = (s.serve (Call.update k o) w).1

      there :
          UpdateReply o
            (view w k (key_of o.meta))
            (view w' k (key_of o.meta))
            (s.serve (Call.update k o) w).0
            (s.faulted w')
          → view w k (key_of o.meta) ≢ none
          → view w' k (key_of o.meta) ≢ none
      there (inl (_, _, v)) h e = some-ne-none (sym v ∙ e)
      there (inr (inl (_, b, v))) h e = h b
      there (inr (inr (x, _, d, _))) h e = Undecided-there some-ne-none d h e

  pub Ensures-create_any :
      {A : Type 0} (k : Kind) (o : Object k) (f : Result (Unit {0}) → Program A) (w : World)
      (Q : A → World → Type 0)
      → Avoids prot k (key_of o.meta)
      → ((r : Result (Unit {0})) (w' : World)
          → Advances prot (view w) (view w')
          → Ensures s (f r) w' Q)
      → Ensures s (Program.call (Call.create k o) f) w Q
  Ensures-create_any k o f w Q a next = next (s.serve (Call.create k o) w).0 w' (
      write-Advances k (key_of o.meta) w w' a (there (s.create_reply k o w)) (s.create_keeps k o w))
    where
      w' : World
      w' = (s.serve (Call.create k o) w).1

      there :
          CreateReply o
            (view w k (key_of o.meta))
            (view w' k (key_of o.meta))
            (s.serve (Call.create k o) w).0
            (s.faulted w')
          → view w k (key_of o.meta) ≢ none
          → view w' k (key_of o.meta) ≢ none
      there (inl (_, b, v)) h e = h b
      there (inr (inl (_, b, v))) h e = b (sym v ∙ e)
      there (inr (inr (x, _, _, d, _))) h e = Undecided-there some-ne-none d h e

  module _ (reference : Reference) (sets : SetsOwner reference) (owner : String) where
    pub create_if_absent-Advances :
        (k : Kind) (o : Object k) (w : World)
        → o.meta.owner ≡ none
        → Avoids prot k (key_of o.meta)
        → Settles s
            (create_if_absent reference owner k o)
            w
            (λ _ w'. (view w' k (key_of o.meta) ≢ none) × Advances prot (view w) (view w'))
    create_if_absent-Advances k o w free a =
        Settles-mono s (create_if_absent reference owner k o) w
          (λ _ w'. Provided s reference sets owner k o (view w) (view w'))
          (λ _ w'. (view w' k (key_of o.meta) ≢ none) × Advances prot (view w) (view w'))
          (create_if_absent-Settles s reference sets owner k o w free)
          (λ _ w' p. (
            p.there,
            record {
              persists = Extends-Persists p.extends;
              guards = Frame-Guards k (key_of o.meta) a p.frame;
            },
          ))

  delete-Retreats :
      (t : Target) (w : World)
      → Avoids prot t.kind t.key
      → has_finalizer t.kind ≡ false
      → Settles s
          (delete_if_present t.wrap t.kind t.key)
          w
          (λ _ w'. (view w' t.kind t.key ≡ none) × Retreats prot (view w) (view w'))
  delete-Retreats t w a free =
      Settles-mono s (delete_if_present t.wrap t.kind t.key) w
        (λ _ w'. (view w' t.kind t.key ≡ none) × Frame t.kind t.key (view w) (view w'))
        (λ _ w'. (view w' t.kind t.key ≡ none) × Retreats prot (view w) (view w'))
        (delete_if_present-Settles s t.wrap t.kind t.key w free)
        (λ _ w' p. (p.0, Frame-Retreats t.kind t.key a p.0 p.1))

  -- All are gone, nothing else appeared, and what is protected is as it was.
  pub delete_each-Settles :
      (t : Target) (ts : List Target) (w : World)
      → All (λ u. Avoids prot u.kind u.key) (t ∷ ts)
      → All (λ u. has_finalizer u.kind ≡ false) (t ∷ ts)
      → Settles s
          (delete_each t ts)
          w
          (λ _ w'. All (Gone (view w')) (t ∷ ts) × Retreats prot (view w) (view w'))
  unfolding delete_each
  delete_each-Settles t [] w (a, _) (free, _) =
      Settles-mono s (delete_if_present t.wrap t.kind t.key) w
        (λ _ w'. (view w' t.kind t.key ≡ none) × Retreats prot (view w) (view w'))
        (λ _ w'. All (Gone (view w')) (t ∷ []) × Retreats prot (view w) (view w'))
        (delete-Retreats t w a free) (λ _ w' p. ((p.0, tt), p.1))
  delete_each-Settles t (u ∷ ts) w (a, as') (free, frees) =
      Settles-step s (delete_if_present t.wrap t.kind t.key) (λ _. delete_each u ts) w
        (λ _ w'. (view w' t.kind t.key ≡ none) × Retreats prot (view w) (view w'))
        (λ _ w'. All (Gone (view w')) (t ∷ u ∷ ts) × Retreats prot (view w) (view w'))
        (delete-Retreats t w a free)
        (λ _ w₁ p.
          Settles-mono s (delete_each u ts) w₁
            (λ _ w'. All (Gone (view w')) (u ∷ ts) × Retreats prot (view w₁) (view w'))
            (λ _ w'. All (Gone (view w')) (t ∷ u ∷ ts) × Retreats prot (view w) (view w'))
            (delete_each-Settles u ts w₁ as' frees)
            (λ _ w' q. ((q.1.shrinks t.kind t.key p.0, q.0), Retreats-trans p.1 q.1)))
