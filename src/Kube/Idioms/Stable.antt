-- ===== src/Kube/Idioms/Stable.antt =====
-- Sequences of `create_or_amend`, and that such a sequence is at rest once it has run: a second run
-- of it only reads.
use gitops_operator.Base.{
  String, ◌≡◌, refl, ◌∙◌, ◌≢◌, false, ◌&&◌, Option, none, some, List, [], ◌∷◌, All, sym, ap,
}
use mathlib.Core.Option.{some-injective, none-ne-some}
use gitops_operator.Kube.Objects.{NamespacedName}
use gitops_operator.Kube.Api.{
  Kind, Object, key_of, is_not_found, Result, Call, Program, Io, after, or_return, pure, ◌>>=◌,
  ◌>>◌,
}
use gitops_operator.Kube.Serving.{
  Server, View, Frame, Unchanged, Ensures, Settles, same_kind, same_name,
}
use gitops_operator.Kube.Rules.{Ensures-get, Ensures-mono, Settles-mono, Settles-step}
use gitops_operator.Kube.Calls.{IsRead, Issues, Issues-get}
use gitops_operator.Kube.Idioms.{Reference, SetsOwner, Change, create_or_change, create_or_amend}
use gitops_operator.Kube.Idioms.Specs.{Changed, Amended, owned, Reconciled, create_or_amend-Settles}
use gitops_operator.Kube.Idioms.Chains.{Protected, Guards}

-- An object to create or amend.
pub record Wanted : Type 0 where
  pub kind : Kind
  pub object : Object kind
  pub amend : Object kind → Change (Object kind)

abbrev pub wanted_key : Wanted → NamespacedName
wanted_key a = key_of a.object.meta

module _ (reference : Reference) (owner : String) where
  unfoldable pub amend_one : Wanted → Io (Unit {0})
  unfolding create_or_amend
  amend_one a = create_or_amend reference owner a.kind a.object a.amend

  -- the objects of a list, first to last, up to an error
  unfoldable pub amend_each : List Wanted → Io (Unit {0})
  unfolding ◌>>=◌ amend_one
  amend_each [] = pure tt
  amend_each (a ∷ as') = do amend_one a; amend_each as'

-- An object of this kind and key is not the one that is wanted.
abbrev pub Apart : Kind → NamespacedName → Wanted → Type 0
Apart l m a = (same_kind a.kind l && same_name (wanted_key a) m) ≡ false

-- None of the objects is wanted twice.
abbrev pub Distinct : List Wanted → Type 0
Distinct [] = Unit
Distinct (a ∷ as') = All (λ b. Apart a.kind (wanted_key a) b) as' × Distinct as'

abbrev pub Untouched : List Wanted → Protected
Untouched as' l m = All (Apart l m) as'

-- What makes an object come to rest: it comes with no owner, its amendment does not panic and keeps
-- the key, and neither what it makes nor what it amends needs another amendment.
pub record Restful (owner : String) (a : Wanted) : Type 0 where
  pub free : a.object.meta.owner ≡ none
  pub calm : (x : Object a.kind) → a.amend x ≢ Change.panic
  pub same_key :
      (x y : Object a.kind) → a.amend x ≡ Change.replace y → key_of y.meta ≡ key_of x.meta
  pub made : a.amend (owned owner a.object) ≡ Change.keep
  pub amended : (x y : Object a.kind) → a.amend x ≡ Change.replace y → a.amend y ≡ Change.keep

-- The object is there and needs no amendment.
abbrev pub AtRest : View → Wanted → Type 0
AtRest v a = (x : Object a.kind) × (v a.kind (wanted_key a) ≡ some x) × (a.amend x ≡ Change.keep)

pub AtRest-moves :
    (v v' : View) (a : Wanted)
    → v' a.kind (wanted_key a) ≡ v a.kind (wanted_key a)
    → AtRest v a
    → AtRest v' a
AtRest-moves v v' a e (x, there, kept) = (x, e ∙ there, kept)

pub All-AtRest :
    (as' : List Wanted) (v v' : View) → Unchanged v v' → All (AtRest v) as' → All (AtRest v') as'
All-AtRest [] v v' u r = tt
All-AtRest (a ∷ as') v v' u (r, rs) =
    (AtRest-moves v v' a (u a.kind (wanted_key a)) r, All-AtRest as' v v' u rs)

module _ (s : Server) where
  open s use {World, serve, view}

  pub Issues-bind :
      {A B : Type 0} (P : Call → Type 0) (p : Io A) (f : A → Io B) (w : World)
      → Issues s P p w
      → Ensures s p w (λ r w'. Issues s P (or_return f r) w')
      → Issues s P (p >>= f) w
  unfolding ◌>>=◌ after
  Issues-bind P (Program.done a) f w i e = e
  Issues-bind P Program.crash f w i e = tt
  Issues-bind P (Program.call c k) f w i e =
      (i.0, Issues-bind P (k (serve c w).0) f (serve c w).1 i.1 e)

  module _ (reference : Reference) (sets : SetsOwner reference) (owner : String) where
    Reconciled-AtRest :
        (a : Wanted) (v v' : View)
        → Restful owner a
        → Reconciled s reference sets owner a.kind a.object a.amend v v'
        → AtRest v' a
    Reconciled-AtRest a v v' h r =
        (r.stored, r.there, amended (v a.kind (wanted_key a)) r.stored r.amended)
      where
        changed :
            (x z : Object a.kind) (c : Change (Object a.kind))
            → a.amend x ≡ c
            → Changed s reference sets owner c x z
            → a.amend z ≡ Change.keep
        changed x z Change.keep q e = ap a.amend e ∙ q
        changed x z (Change.replace y) q e = ap a.amend e ∙ h.amended x y q
        changed x z Change.panic q e = absurd e

        amended :
            (o : Option (Object a.kind)) (z : Object a.kind)
            → Amended s reference sets owner a.object a.amend o z
            → a.amend z ≡ Change.keep
        amended none z e = ap a.amend e ∙ h.made
        amended (some x) z e = changed x z (a.amend x) refl e

    pub amend_one-Settles :
        (a : Wanted) (w : World)
        → Restful owner a
        → Settles s
            (amend_one reference owner a)
            w
            (λ _ w'. AtRest (view w') a × Frame a.kind (wanted_key a) (view w) (view w'))
    unfolding amend_one
    amend_one-Settles a w h =
        Settles-mono s (amend_one reference owner a) w
          (λ _ w'. Reconciled s reference sets owner a.kind a.object a.amend (view w) (view w'))
          (λ _ w'. AtRest (view w') a × Frame a.kind (wanted_key a) (view w) (view w'))
          (create_or_amend-Settles s reference sets owner a.kind a.object a.amend
            (record { same_key = h.same_key }) w h.free (λ x _. h.calm x))
          (λ _ w' r. (Reconciled-AtRest a (view w) (view w') h r, r.frame))

    -- Once the sequence has returned without an error, all its objects are at rest, and no other
    -- object has changed.
    pub amend_each-Settles :
        (as' : List Wanted) (w : World)
        → All (Restful owner) as'
        → Distinct as'
        → Settles s
            (amend_each reference owner as')
            w
            (λ _ w'. All (AtRest (view w')) as' × Guards (Untouched as') (view w) (view w'))
    unfolding amend_each
    amend_each-Settles [] w h d = (tt, λ l m _. refl)
    amend_each-Settles (a ∷ as') w (h, hs) (d, ds) =
        Settles-step s (amend_one reference owner a) (λ _. amend_each reference owner as') w
          (λ _ w'. AtRest (view w') a × Frame a.kind (wanted_key a) (view w) (view w'))
          (λ _ w'.
            All (AtRest (view w')) (a ∷ as') × Guards (Untouched (a ∷ as')) (view w) (view w'))
          (amend_one-Settles a w h)
          (λ _ w₁ p.
            Settles-mono s (amend_each reference owner as') w₁
              (λ _ w'. All (AtRest (view w')) as' × Guards (Untouched as') (view w₁) (view w'))
              (λ _ w'.
                All (AtRest (view w')) (a ∷ as') × Guards (Untouched (a ∷ as')) (view w) (view w'))
              (amend_each-Settles as' w₁ hs ds)
              (λ _ w' q. (
                (AtRest-moves (view w₁) (view w') a (q.1 a.kind (wanted_key a) d) p.0, q.0),
                λ l m u. q.1 l m u.1 ∙ p.1 l m u.0,
              )))

    same_found :
        (a : Wanted) (x o : Object a.kind) (w : World)
        → view w a.kind (wanted_key a) ≡ some x
        → view w a.kind (wanted_key a) ≡ some o
        → a.amend x ≡ Change.keep
        → a.amend o ≡ Change.keep
    same_found a x o w e f kept = ap a.amend (some-injective _ _ (sym f ∙ e)) ∙ kept

    amend_one-reads :
        (a : Wanted) (w : World)
        → a.object.meta.owner ≡ none
        → AtRest (view w) a
        → Issues s IsRead (amend_one reference owner a) w
    unfolding amend_one create_or_amend ◌>>=◌ after is_not_found
    amend_one-reads a w free (x, there, kept) = rw (sets owner a.object.meta free) (
        Issues-get s IsRead a.kind (wanted_key a) (create_or_change (owned owner a.object) a.amend)
          w tt (λ o w' f u. rw (same_found a x o w there f kept) tt)
          (λ w' f u. absurd (none-ne-some x (sym f ∙ there))) (λ e w' n. rw n tt))

    amend_one-keeps :
        (a : Wanted) (w : World)
        → a.object.meta.owner ≡ none
        → AtRest (view w) a
        → Ensures s (amend_one reference owner a) w (λ _ w'. Unchanged (view w) (view w'))
    unfolding amend_one create_or_amend ◌>>=◌ after is_not_found
    amend_one-keeps a w free (x, there, kept) = rw (sets owner a.object.meta free) (
        Ensures-get s (λ _ w'. Unchanged (view w) (view w')) a.kind (wanted_key a)
          (create_or_change (owned owner a.object) a.amend) w
          (λ o w' f u. rw (same_found a x o w there f kept) u)
          (λ w' f u. absurd (none-ne-some x (sym f ∙ there))) (λ e w' n u _. rw n u))

    then_quiet :
        (bs : List Wanted) (w : World)
        → ((w' : World)
            → Unchanged (view w) (view w')
            → Issues s IsRead (amend_each reference owner bs) w')
        → (r : Result (Unit {0})) (w' : World) → Unchanged (view w) (view w')
        → Issues s IsRead (or_return (λ _. amend_each reference owner bs) r) w'
    then_quiet bs w h (Result.ok _) w' u = h w' u
    then_quiet bs w h (Result.err e) w' u = tt

    -- A sequence whose objects are at rest changes nothing and writes nothing.
    pub amend_each-quiet :
        (as' : List Wanted) (w : World)
        → All (Restful owner) as'
        → All (AtRest (view w)) as'
        → Issues s IsRead (amend_each reference owner as') w
    unfolding amend_each
    amend_each-quiet [] w h r = tt
    amend_each-quiet (a ∷ as') w (h, hs) (r, rs) =
        Issues-bind IsRead (amend_one reference owner a) (λ _. amend_each reference owner as') w
          (amend_one-reads a w h.free r)
          (Ensures-mono s (amend_one reference owner a) w _ _ (amend_one-keeps a w h.free r) (
            then_quiet as' w
              (λ w' u. amend_each-quiet as' w' hs (All-AtRest as' (view w) (view w') u rs))))
