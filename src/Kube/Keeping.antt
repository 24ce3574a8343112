-- ===== src/Kube/Keeping.antt =====
-- A program whose calls write no object of a kind keeps the objects of that kind, whatever the
-- replies.
use gitops_operator.Base.{◌≡◌, refl, ◌∙◌, false}
use gitops_operator.Kube.Objects.{NamespacedName}
use gitops_operator.Kube.Api.{Kind, key_of, Call, Program, after}
use gitops_operator.Kube.Serving.{Server, View, Frame, Ensures, same_kind}
use gitops_operator.Kube.Effects.{KeepsKind}
use gitops_operator.Kube.Calls.{Only}

-- a call that writes no object of the kind
abbrev pub Spares : Kind → Call → Type 0
Spares k (Call.get _ _) = Unit
Spares k (Call.create l _) = same_kind l k ≡ false
Spares k (Call.update l _) = same_kind l k ≡ false
Spares k (Call.delete l _) = same_kind l k ≡ false

-- The program does not panic, whatever the replies.
abbrev pub Total : {A : Type 0} → Program A → Type 0
Total (Program.done a) = Unit
Total Program.crash = ⊥
Total (Program.call c k) = (r : _) → Total (k r)

pub Total-after :
    {A B : Type 0} (p : Program A) (f : A → Program B)
    → Total p
    → ((a : A) → Total (f a))
    → Total (after p f)
unfolding after
Total-after (Program.done a) f h g = g a
Total-after Program.crash f h g = h
Total-after (Program.call c k) f h g = λ r. Total-after (k r) f (h r) g

Frame-KeepsKind :
    (k l : Kind) (n : NamespacedName) (v v' : View)
    → same_kind l k ≡ false
    → Frame l n v v'
    → KeepsKind k v v'
Frame-KeepsKind k l n v v' e f m = f k m (rw e refl)

module _ (s : Server) where
  open s use {World, serve, view}

  call-KeepsKind :
      (k : Kind) (c : Call) (w : World) → Spares k c → KeepsKind k (view w) (view (serve c w).1)
  call-KeepsKind k (Call.get l n) w h = λ m. s.get_keeps l n w k m
  call-KeepsKind k (Call.create l o) w h =
      Frame-KeepsKind k l (key_of o.meta) _ _ h (s.create_keeps l o w)
  call-KeepsKind k (Call.update l o) w h =
      Frame-KeepsKind k l (key_of o.meta) _ _ h (s.update_keeps l o w)
  call-KeepsKind k (Call.delete l n) w h = Frame-KeepsKind k l n _ _ h (s.delete_keeps l n w)

  pub Only-KeepsKind :
      {A : Type 0} (k : Kind) (p : Program A) (v : View) (w : World)
      → KeepsKind k v (view w)
      → Only (Spares k) p
      → Total p
      → Ensures s p w (λ _ w'. KeepsKind k v (view w'))
  Only-KeepsKind k (Program.done a) v w u h t = u
  Only-KeepsKind k Program.crash v w u h t = t
  Only-KeepsKind k (Program.call c f) v w u h t =
      Only-KeepsKind k (f (serve c w).0) v (serve c w).1 (λ m. call-KeepsKind k c w h.0 m ∙ u m)
        (h.1 (serve c w).0) (t (serve c w).0)
