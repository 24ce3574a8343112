-- ===== src/Kube/Calls.antt =====
-- Which calls a program can make, whatever the replies.
use gitops_operator.Base.{◌≡◌, some, none, false, inl, inr}
use gitops_operator.Kube.Objects.{NamespacedName}
use gitops_operator.Kube.Api.{
  Kind, Object, Error, is_not_found, Call, Reply, Result, Program, Io, after, or_return, ◌>>=◌,
}
use gitops_operator.Kube.Serving.{Server, Unchanged, GetReply}

-- Every call that the program makes satisfies `P`, whatever the server replies.
abbrev pub Only : {A : Type 0} → (Call → Type 0) → Program A → Type 0
Only P (Program.done a) = Unit
Only P Program.crash = Unit
Only P (Program.call c k) = P c × ((r : Reply c) → Only P (k r))

-- a call that changes nothing
abbrev pub IsRead : Call → Type 0
IsRead (Call.get _ _) = Unit
IsRead _ = ⊥

module _ (P : Call → Type 0) where
  pub Only-after :
      {A B : Type 0} (p : Program A) (f : A → Program B)
      → Only P p
      → ((a : A) → Only P (f a))
      → Only P (after p f)
  unfolding after
  Only-after (Program.done a) f h k = k a
  Only-after Program.crash f h k = tt
  Only-after (Program.call c g) f h k = (h.0, λ r. Only-after (g r) f (h.1 r) k)

  or_return-Only :
      {A B : Type 0} (f : A → Io B)
      → ((a : A) → Only P (f a))
      → (r : Result A) → Only P (or_return f r)
  or_return-Only f k (Result.ok a) = k a
  or_return-Only f k (Result.err e) = tt

  pub Only-bind :
      {A B : Type 0} (p : Io A) (f : A → Io B)
      → Only P p
      → ((a : A) → Only P (f a))
      → Only P (p >>= f)
  unfolding ◌>>=◌
  Only-bind p f h k = Only-after p (or_return f) h (or_return-Only f k)

-- The same of one run: every call that the program makes from this world satisfies `P`.
module _ (s : Server) where
  open s use {World, serve, view, faulted}

  abbrev pub Issues : {A : Type 0} → (Call → Type 0) → Program A → World → Type 0
  Issues P (Program.done a) w = Unit
  Issues P Program.crash w = Unit
  Issues P (Program.call c k) w = P c × Issues P (k (serve c w).0) (serve c w).1

  module _ (P : Call → Type 0) where
    pub Issues-get :
        {A : Type 0} (k : Kind) (n : NamespacedName) (f : Result (Object k) → Program A) (w : World)
        → P (Call.get k n)
        → ((o : Object k) (w' : World)
            → view w k n ≡ some o
            → Unchanged (view w) (view w')
            → Issues P (f (Result.ok o)) w')
        → ((w' : World)
            → view w k n ≡ none
            → Unchanged (view w) (view w')
            → Issues P (f (Result.err Error.not_found)) w')
        → ((e : Error) (w' : World) → is_not_found e ≡ false → Issues P (f (Result.err e)) w')
        → Issues P (Program.call (Call.get k n) f) w
    Issues-get {A} k n f w p found missing fault = (p, go (s.get_reply k n w))
      where
        go :
            GetReply (view w k n) (serve (Call.get k n) w).0 (faulted (serve (Call.get k n) w).1)
            → Issues P (f (serve (Call.get k n) w).0) (serve (Call.get k n) w).1
        go (inl (o, v, q)) = rw q (found o _ v (s.get_keeps k n w))
        go (inr (inl (v, q))) = rw q (missing _ v (s.get_keeps k n w))
        go (inr (inr (x, q, u, h))) = rw q (fault x _ u)
