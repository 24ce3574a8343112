-- ===== src/Kube/Rules.antt =====
-- Rules for what a program ensures, one for each way to build a program.
use gitops_operator.Base.{◌≡◌, refl, sym, ◌∙◌, subst, ◌≢◌, ◌⊎◌, inl, inr, false, Option, none, some}
use mathlib.Core.Bool.{true≢false}
use mathlib.Core.Option.{some-injective, none-ne-some}
use gitops_operator.Kube.Objects.{NamespacedName}
use gitops_operator.Kube.Api.{
  Kind, Object, key_of, Error, is_not_found, is_already_exists, Result, Call, Program, Io, after,
  or_return, ◌>>=◌,
}
use gitops_operator.Kube.Serving.{
  Server, Frame, Unchanged, Undecided, GetReply, CreateReply, UpdateReply, DeleteReply, Deleted,
  has_finalizer, Ensures, OrFault, Settles,
}

module _ (s : Server) where
  open s use {World, serve, view, faulted}

  pub Ensures-mono :
      {A : Type 0} (p : Program A) (w : World) (P Q : A → World → Type 0)
      → Ensures s p w P
      → ((a : A) (w' : World) → P a w' → Q a w')
      → Ensures s p w Q
  Ensures-mono (Program.done a) w P Q h f = f a w h
  Ensures-mono Program.crash w P Q h f = h
  Ensures-mono (Program.call c k) w P Q h f = Ensures-mono (k (serve c w).0) (serve c w).1 P Q h f

  pub Ensures-after :
      {A B : Type 0} (p : Program A) (f : A → Program B) (w : World) (Q : B → World → Type 0)
      → Ensures s p w (λ a w'. Ensures s (f a) w' Q)
      → Ensures s (after p f) w Q
  unfolding after
  Ensures-after (Program.done a) f w Q h = h
  Ensures-after Program.crash f w Q h = h
  Ensures-after (Program.call c k) f w Q h = Ensures-after (k (serve c w).0) f (serve c w).1 Q h

  or_return-Settles :
      {A B : Type 0} (f : A → Io B) (Q : B → World → Type 0) (r : Result A) (w : World)
      → OrFault s (λ a w'. Settles s (f a) w' Q) r w
      → Settles s (or_return f r) w Q
  or_return-Settles f Q (Result.ok a) w h = h
  or_return-Settles f Q (Result.err e) w h = h

  pub Settles-bind :
      {A B : Type 0} (p : Io A) (f : A → Io B) (w : World) (Q : B → World → Type 0)
      → Settles s p w (λ a w'. Settles s (f a) w' Q)
      → Settles s (p >>= f) w Q
  unfolding ◌>>=◌
  Settles-bind p f w Q h =
      Ensures-after p (or_return f) w (OrFault s Q) (Ensures-mono p w _ _ h (or_return-Settles f Q))

  pub Settles-mono :
      {A : Type 0} (p : Io A) (w : World) (P Q : A → World → Type 0)
      → Settles s p w P
      → ((a : A) (w' : World) → P a w' → Q a w')
      → Settles s p w Q
  Settles-mono {A} p w P Q h f = Ensures-mono p w _ _ h go
    where
      go : (r : Result A) (w' : World) → OrFault s P r w' → OrFault s Q r w'
      go (Result.ok a) w' q = f a w' q
      go (Result.err e) w' q = q

  -- the two rules in one: run `p` by its lemma, then go on
  pub Settles-step :
      {A B : Type 0} (p : Io A) (f : A → Io B) (w : World) (P : A → World → Type 0)
      (Q : B → World → Type 0)
      → Settles s p w P
      → ((a : A) (w' : World) → P a w' → Settles s (f a) w' Q)
      → Settles s (p >>= f) w Q
  Settles-step p f w P Q h k = Settles-bind p f w Q (Settles-mono p w P _ h k)

  module _ {A : Type 0} (Q : A → World → Type 0) where
    pub Ensures-get :
        (k : Kind) (n : NamespacedName) (f : Result (Object k) → Program A) (w : World)
        → ((o : Object k) (w' : World)
            → view w k n ≡ some o
            → Unchanged (view w) (view w')
            → Ensures s (f (Result.ok o)) w' Q)
        → ((w' : World)
            → view w k n ≡ none
            → Unchanged (view w) (view w')
            → Ensures s (f (Result.err Error.not_found)) w' Q)
        → ((e : Error) (w' : World)
            → is_not_found e ≡ false
            → Unchanged (view w) (view w')
            → faulted w'
            → Ensures s (f (Result.err e)) w' Q)
        → Ensures s (Program.call (Call.get k n) f) w Q
    Ensures-get k n f w found missing fault = go _ refl (s.get_reply k n w)
      where
        go :
            (r : Result (Object k))
            → (serve (Call.get k n) w).0 ≡ r
            → GetReply (view w k n) (serve (Call.get k n) w).0 (faulted (serve (Call.get k n) w).1)
            → Ensures s (Program.call (Call.get k n) f) w Q
        go r e (inl (o, v, q)) = rw q (found o _ v (s.get_keeps k n w))
        go r e (inr (inl (v, q))) = rw q (missing _ v (s.get_keeps k n w))
        go r e (inr (inr (x, q, u, h))) = rw q (fault x _ u (s.get_keeps k n w) h)

    -- a Get of an object that is known to be there
    pub Ensures-get-some :
        (k : Kind) (n : NamespacedName) (f : Result (Object k) → Program A) (w : World)
        (o : Object k)
        → view w k n ≡ some o
        → ((w' : World) → Unchanged (view w) (view w') → Ensures s (f (Result.ok o)) w' Q)
        → ((e : Error) (w' : World)
            → is_not_found e ≡ false
            → faulted w'
            → Ensures s (f (Result.err e)) w' Q)
        → Ensures s (Program.call (Call.get k n) f) w Q
    Ensures-get-some k n f w o here found fault =
        Ensures-get k n f w
          (λ x w' e u.
            subst (λ y. Ensures s (f (Result.ok y)) w' Q) (some-injective _ _ (sym here ∙ e))
              (found w' u))
          (λ w' e u. absurd (none-ne-some o (sym e ∙ here))) (λ e w' n _ h. fault e w' n h)

    -- a Get of an object that is known to be absent
    pub Ensures-get-none :
        (k : Kind) (n : NamespacedName) (f : Result (Object k) → Program A) (w : World)
        → view w k n ≡ none
        → ((w' : World)
            → Unchanged (view w) (view w')
            → Ensures s (f (Result.err Error.not_found)) w' Q)
        → ((e : Error) (w' : World)
            → is_not_found e ≡ false
            → faulted w'
            → Ensures s (f (Result.err e)) w' Q)
        → Ensures s (Program.call (Call.get k n) f) w Q
    Ensures-get-none k n f w gone missing fault =
        Ensures-get k n f w (λ x w' e u. absurd (none-ne-some x (sym gone ∙ e)))
          (λ w' e u. missing w' u) (λ e w' n _ h. fault e w' n h)

    pub Ensures-create :
        (k : Kind) (o : Object k) (f : Result (Unit {0}) → Program A) (w : World)
        → view w k (key_of o.meta) ≡ none
        → ((w' : World)
            → view w' k (key_of o.meta) ≡ some o
            → Frame k (key_of o.meta) (view w) (view w')
            → Ensures s (f (Result.ok tt)) w' Q)
        → ((e : Error) (w' : World)
            → is_already_exists e ≡ false
            → Undecided (view w k (key_of o.meta)) (view w' k (key_of o.meta)) (some o)
            → Frame k (key_of o.meta) (view w) (view w')
            → faulted w'
            → Ensures s (f (Result.err e)) w' Q)
        → Ensures s (Program.call (Call.create k o) f) w Q
    Ensures-create k o f w absent created fault = go (s.create_reply k o w)
      where
        go :
            CreateReply o
              (view w k (key_of o.meta))
              (view (serve (Call.create k o) w).1 k (key_of o.meta))
              (serve (Call.create k o) w).0
              (faulted (serve (Call.create k o) w).1)
            → Ensures s (Program.call (Call.create k o) f) w Q
        go (inl (q, _, v)) = rw q (created _ v (s.create_keeps k o w))
        go (inr (inl (_, present, _))) = absurd (present absent)
        go (inr (inr (x, q, u, d, h))) = rw q (fault x _ u d (s.create_keeps k o w) h)

    pub Ensures-update :
        (k : Kind) (o : Object k) (f : Result (Unit {0}) → Program A) (w : World)
        → view w k (key_of o.meta) ≢ none
        → ((w' : World)
            → view w' k (key_of o.meta) ≡ some o
            → Frame k (key_of o.meta) (view w) (view w')
            → Ensures s (f (Result.ok tt)) w' Q)
        → ((e : Error) (w' : World)
            → Undecided (view w k (key_of o.meta)) (view w' k (key_of o.meta)) (some o)
            → Frame k (key_of o.meta) (view w) (view w')
            → faulted w'
            → Ensures s (f (Result.err e)) w' Q)
        → Ensures s (Program.call (Call.update k o) f) w Q
    Ensures-update k o f w present updated fault = go (s.update_reply k o w)
      where
        go :
            UpdateReply o
              (view w k (key_of o.meta))
              (view (serve (Call.update k o) w).1 k (key_of o.meta))
              (serve (Call.update k o) w).0
              (faulted (serve (Call.update k o) w).1)
            → Ensures s (Program.call (Call.update k o) f) w Q
        go (inl (q, _, v)) = rw q (updated _ v (s.update_keeps k o w))
        go (inr (inl (_, absent, _))) = absurd (present absent)
        go (inr (inr (x, q, d, h))) = rw q (fault x _ d (s.update_keeps k o w) h)

    -- A Delete that returns nil leaves no object, or one that is marked.
    pub Ensures-mark :
        (k : Kind) (n : NamespacedName) (f : Result (Unit {0}) → Program A) (w : World)
        → ((w' : World)
            → Deleted (view w k n) (view w' k n)
            → Frame k n (view w) (view w')
            → Ensures s (f (Result.ok tt)) w' Q)
        → ((w' : World)
            → view w k n ≡ none
            → view w' k n ≡ none
            → Frame k n (view w) (view w')
            → Ensures s (f (Result.err Error.not_found)) w' Q)
        → ((e : Error) (w' : World)
            → is_not_found e ≡ false
            → (view w' k n ≡ view w k n) ⊎ Deleted (view w k n) (view w' k n)
            → Frame k n (view w) (view w')
            → faulted w'
            → Ensures s (f (Result.err e)) w' Q)
        → Ensures s (Program.call (Call.delete k n) f) w Q
    Ensures-mark k n f w deleted missing fault = go (s.delete_reply k n w)
      where
        go :
            DeleteReply
              (view w k n)
              (view (serve (Call.delete k n) w).1 k n)
              (serve (Call.delete k n) w).0
              (faulted (serve (Call.delete k n) w).1)
            → Ensures s (Program.call (Call.delete k n) f) w Q
        go (inl (q, _, v)) = rw q (deleted _ v (s.delete_keeps k n w))
        go (inr (inl (q, b, v))) = rw q (missing _ b v (s.delete_keeps k n w))
        go (inr (inr (x, q, u, d, h))) = rw q (fault x _ u d (s.delete_keeps k n w) h)

    gone_of :
        {k : Kind} {before after : Option (Object k)}
        → has_finalizer k ≡ false
        → Deleted before after
        → after ≡ none
    gone_of free (inl gone) = gone
    gone_of free (inr (held, _)) = absurd (true≢false (sym held ∙ free))

    decided :
        {k : Kind} {before after : Option (Object k)}
        → has_finalizer k ≡ false
        → (after ≡ before) ⊎ Deleted before after
        → Undecided before after none
    decided free (inl same) = inl same
    decided free (inr d) = inr (gone_of free d)

    -- A Delete of an object without a finalizer that returns nil or NotFound leaves no object.
    pub Ensures-delete :
        (k : Kind) (n : NamespacedName) (f : Result (Unit {0}) → Program A) (w : World)
        → has_finalizer k ≡ false
        → ((w' : World)
            → view w' k n ≡ none
            → Frame k n (view w) (view w')
            → Ensures s (f (Result.ok tt)) w' Q)
        → ((w' : World)
            → view w k n ≡ none
            → view w' k n ≡ none
            → Frame k n (view w) (view w')
            → Ensures s (f (Result.err Error.not_found)) w' Q)
        → ((e : Error) (w' : World)
            → is_not_found e ≡ false
            → Undecided (view w k n) (view w' k n) none
            → Frame k n (view w) (view w')
            → faulted w'
            → Ensures s (f (Result.err e)) w' Q)
        → Ensures s (Program.call (Call.delete k n) f) w Q
    Ensures-delete k n f w free deleted missing fault =
        Ensures-mark k n f w (λ w' d. deleted w' (gone_of free d)) missing
          (λ e w' u d. fault e w' u (decided free d))
