-- ===== src/Kube/Idioms/Creations.antt =====
-- A sequence of objects to create where they are absent, and then the rest of a program.
use gitops_operator.Base.{some, sym, ◌∙◌, String, ◌≡◌, refl, ◌≢◌, none, List, [], ◌∷◌, All}
use gitops_operator.Kube.Api.{Kind, Object, key_of, Io, ◌>>=◌, ◌>>◌}
use gitops_operator.Kube.Serving.{Server, View, Settles}
use gitops_operator.Kube.Rules.{Settles-step, Settles-mono}
use gitops_operator.Kube.Idioms.{Change, create_or_amend, Reference, SetsOwner, create_if_absent}
use mathlib.Core.Option.{none-ne-some}
use gitops_operator.Kube.Idioms.Specs.{Reconciled, Amends, create_or_amend-Settles}
use gitops_operator.Kube.Idioms.Chains.{
  Frame-Advances, Protected, Avoids, Advances, Advances-refl, Advances-trans,
  create_if_absent-Advances,
}

-- an object to create
pub record Item : Type 0 where
  pub kind : Kind
  pub object : Object kind

abbrev pub There : View → Item → Type 0
There v i = v i.kind (key_of i.object.meta) ≢ none

module _ (reference : Reference) (owner : String) where
  unfoldable pub create_then : List Item → Io (Unit {0}) → Io (Unit {0})
  unfolding ◌>>=◌ create_if_absent
  create_then [] rest = rest
  create_then (i ∷ items) rest =
      create_if_absent reference owner i.kind i.object >> create_then items rest

-- The objects have no owner yet, and none of them is protected.
abbrev pub Free : Protected → List Item → Type 0
Free prot = All (λ i. (i.object.meta.owner ≡ none) × Avoids prot i.kind (key_of i.object.meta))

pub There-persists :
    {v v' : View} {prot : Protected} (items : List Item)
    → Advances prot v v'
    → All (There v) items
    → All (There v') items
There-persists [] a t = tt
There-persists (i ∷ items) a (t, ts) =
    (a.persists i.kind (key_of i.object.meta) t, There-persists items a ts)

module _ (s : Server) (prot : Protected) (reference : Reference) (sets : SetsOwner reference)
    (owner : String) where
  open s use {World, view}

  -- When the rest runs, all objects are there, nothing is lost and what is protected is as it was.
  pub create_then-Settles :
      (items : List Item) (rest : Io (Unit {0})) (w : World) (Q : Unit {0} → World → Type 0)
      → Free prot items
      → ((w' : World)
          → All (There (view w')) items
          → Advances prot (view w) (view w')
          → Settles s rest w' Q)
      → Settles s (create_then reference owner items rest) w Q
  unfolding create_then
  create_then-Settles [] rest w Q free next = next w tt (Advances-refl (λ l m. refl))
  create_then-Settles (i ∷ items) rest w Q ((f, a), free) next =
      Settles-step s (create_if_absent reference owner i.kind i.object)
        (λ _. create_then reference owner items rest) w
        (λ _ w₁. (There (view w₁) i) × Advances prot (view w) (view w₁)) Q
        (create_if_absent-Advances s prot reference sets owner i.kind i.object w f a)
        (λ _ w₁ p. create_then-Settles items rest w₁ Q free (λ w' t b.
          next w' (b.persists i.kind (key_of i.object.meta) p.0, t) (Advances-trans p.1 b)))

module _ (s : Server) (prot : Protected) (reference : Reference) (sets : SetsOwner reference)
    (owner : String) where
  open s use {World, view}

  -- An object that is created or amended is there, and nothing else is touched.
  pub create_or_amend-Advances :
      (k : Kind) (o : Object k) (amend : Object k → Change (Object k)) (w : World)
      → Amends s reference sets owner k amend
      → o.meta.owner ≡ none
      → ((x : Object k) → view w k (key_of o.meta) ≡ some x → amend x ≢ Change.panic)
      → Avoids prot k (key_of o.meta)
      → Settles s
          (create_or_amend reference owner k o amend)
          w
          (λ _ w'. (view w' k (key_of o.meta) ≢ none) × Advances prot (view w) (view w'))
  create_or_amend-Advances k o amend w sound free calm a =
      Settles-mono s (create_or_amend reference owner k o amend) w
        (λ _ w'. Reconciled s reference sets owner k o amend (view w) (view w'))
        (λ _ w'. (view w' k (key_of o.meta) ≢ none) × Advances prot (view w) (view w'))
        (create_or_amend-Settles s reference sets owner k o amend sound w free calm)
        (λ _ w' r.
          let there =
            λ (n : view w' k (key_of o.meta) ≡ none). none-ne-some r.stored (sym n ∙ r.there) in
          (there, Frame-Advances k (key_of o.meta) a there r.frame))
