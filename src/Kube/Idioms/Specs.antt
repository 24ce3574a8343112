-- ===== src/Kube/Idioms/Specs.antt =====
-- What the three shapes do to the objects.
use gitops_operator.Base.{false, String, ◌≡◌, refl, ◌∙◌, subst, ◌≢◌, Option, none, some}
use gitops_operator.Kube.Objects.{NamespacedName}
use gitops_operator.Kube.Api.{Kind, Object, key_of, Error, is_not_found, Program, update_object}
use gitops_operator.Kube.Serving.{has_finalizer, Server, View, Frame, Unchanged, OrFault, Settles}
use gitops_operator.Kube.Rules.{
  Settles-mono, Ensures-get, Ensures-create, Ensures-update, Ensures-delete,
}
use gitops_operator.Kube.Effects.{Extends, Frame-cases}
use gitops_operator.Kube.Idioms.{
  Reference, SetsOwner, create_owned, absent_then, create_if_absent, Change, apply_change,
  create_or_change, create_or_amend, ignore_missing, delete_if_present,
}

-- `o`, owned
abbrev pub owned : {k : Kind} → String → Object k → Object k
owned owner o = record { meta = record o.meta { owner = some owner }; body = o.body }

module _ (s : Server) where
  open s use {World, view}

  -- An update of an object that is there, under its own key.
  pub update_object-Settles :
      (k : Kind) (n : NamespacedName) (x y : Object k) (w : World)
      → key_of y.meta ≡ n
      → view w k n ≡ some x
      → Settles s
          (update_object k y)
          w
          (λ _ w'. (view w' k n ≡ some y) × Frame k n (view w) (view w'))
  update_object-Settles k n x y w e =
      subst
        (λ m.
          view w k m ≡ some x
          → Settles s (update_object k y) w
              (λ _ w'. (view w' k m ≡ some y) × Frame k m (view w) (view w')))
        e
        (λ h.
          Ensures-update s
            (OrFault s (λ _ w'.
              (view w' k (key_of y.meta) ≡ some y) × Frame k (key_of y.meta) (view w) (view w')))
            k y Program.done w (λ n. cc (h, n)) (λ w' v u. (v, u)) (λ e w' d u f. f))

  -- the same as a rule
  pub Settles-update :
      (k : Kind) (n : NamespacedName) (x y : Object k) (w : World) (Q : World → Type 0)
      → key_of y.meta ≡ n
      → view w k n ≡ some x
      → ((w' : World) → view w' k n ≡ some y → Frame k n (view w) (view w') → Q w')
      → Settles s (update_object k y) w (λ _ w'. Q w')
  Settles-update k n x y w Q e h f =
      Settles-mono s (update_object k y) w
        (λ _ w'. (view w' k n ≡ some y) × Frame k n (view w) (view w')) (λ _ w'. Q w')
        (update_object-Settles k n x y w e h) (λ _ w' q. f w' q.0 q.1)

module _ (s : Server) (reference : Reference) (sets : SetsOwner reference) (owner : String) where
  open s use {World, view}

  -- What `create_if_absent` leaves: the object that was there, or the new one.
  pub record Provided (k : Kind) (o : Object k) (v v' : View) : Type 0 where
    pub there : v' k (key_of o.meta) ≢ none
    pub fresh : v k (key_of o.meta) ≡ none → v' k (key_of o.meta) ≡ some (owned owner o)
    pub extends : Extends v v'
    pub frame : Frame k (key_of o.meta) v v'

  pub create_owned-Settles :
      (k : Kind) (o : Object k) (w : World)
      → o.meta.owner ≡ none
      → view w k (key_of o.meta) ≡ none
      → Settles s (create_owned reference owner k o) w (λ _ w'.
        (view w' k (key_of o.meta) ≡ some (owned owner o))
        × Frame k (key_of o.meta) (view w) (view w'))
  unfolding create_owned
  create_owned-Settles k o w free absent = rw (sets owner o.meta free) (
      Ensures-create s
        (OrFault s (λ _ w'.
          (view w' k (key_of o.meta) ≡ some (owned owner o))
          × Frame k (key_of o.meta) (view w) (view w')))
        k (owned owner o) Program.done w absent (λ w' v u. (v, u)) (λ e w' n d u f. f))

  Provided-here :
      {k : Kind} {o x : Object k} {v v' : View}
      → v k (key_of o.meta) ≡ some x
      → Unchanged v v'
      → Provided k o v v'
  Provided-here {k} {o} e u = record {
    there = λ n. cc (u k (key_of o.meta), e, n);
    fresh = λ n. cc (e, n);
    extends = λ l m x p. u l m ∙ p;
    frame = λ l m _. u l m;
  }

  Provided-new :
      {k : Kind} {o : Object k} {v v₁ v' : View}
      → v k (key_of o.meta) ≡ none
      → Unchanged v v₁
      → v' k (key_of o.meta) ≡ some (owned owner o)
      → Frame k (key_of o.meta) v₁ v'
      → Provided k o v v'
  Provided-new {k} {o} {v} {v₁} {v'} absent u new f = record {
    there = λ n. cc (new, n);
    fresh = λ _. new;
    extends =
        Frame-cases (λ l m. (x : Object l) → v l m ≡ some x → v' l m ≡ some x) f
          (λ x e. cc (absent, e)) (λ l m e x p. e ∙ u l m ∙ p);
    frame = λ l m e. f l m e ∙ u l m;
  }

  pub create_if_absent-Settles :
      (k : Kind) (o : Object k) (w : World)
      → o.meta.owner ≡ none
      → Settles s (create_if_absent reference owner k o) w (λ _ w'. Provided k o (view w) (view w'))
  unfolding create_if_absent is_not_found
  create_if_absent-Settles k o w free =
      Ensures-get s (OrFault s (λ _ w'. Provided k o (view w) (view w'))) k (key_of o.meta)
        (absent_then (create_owned reference owner k o)) w (λ x w' v u. Provided-here v u)
        (λ w' v u.
          Settles-mono s (create_owned reference owner k o) w' _ _
            (create_owned-Settles k o w' free (u k (key_of o.meta) ∙ v))
            (λ _ w'' h. Provided-new v u h.0 h.1))
        (λ e w' n u f. rw n f)

  -- What becomes of an object that is there.
  abbrev pub Changed : {k : Kind} → Change (Object k) → Object k → Object k → Type 0
  Changed Change.keep x z = z ≡ x
  Changed (Change.replace y) x z = z ≡ y
  Changed Change.panic x z = ⊥

  -- What `create_or_amend` leaves: the new object if there was none, and otherwise the amended one.
  abbrev pub Amended :
      {k : Kind} → Object k → (Object k → Change (Object k)) → Option (Object k) → Object k → Type 0
  Amended o amend none z = z ≡ owned owner o
  Amended o amend (some x) z = Changed (amend x) x z

  pub record Reconciled (k : Kind) (o : Object k) (amend : Object k → Change (Object k))
      (v v' : View) : Type 0 where
    pub stored : Object k
    pub there : v' k (key_of o.meta) ≡ some stored
    pub amended : Amended o amend (v k (key_of o.meta)) stored
    pub frame : Frame k (key_of o.meta) v v'

  -- An amendment is sound for `o`: it does not panic at the object that is there, and keeps its key.
  pub record Amends (k : Kind) (amend : Object k → Change (Object k)) : Type 0 where
    pub same_key : (x y : Object k) → amend x ≡ Change.replace y → key_of y.meta ≡ key_of x.meta

  module _ (k : Kind) (o : Object k) (amend : Object k → Change (Object k))
      (sound : Amends k amend) where
    Q : World → Unit {0} → World → Type 0
    Q w _ w' = Reconciled k o amend (view w) (view w')

    present-Settles :
        (w w' : World) (x : Object k) (c : Change (Object k))
        → amend x ≡ c
        → c ≢ Change.panic
        → view w k (key_of o.meta) ≡ some x
        → Unchanged (view w) (view w')
        → Settles s (apply_change c) w' (Q w)
    unfolding Q
    present-Settles w w' x Change.keep e p v u = record {
      stored = x;
      there = u k (key_of o.meta) ∙ v;
      amended = rw (v, e) refl;
      frame = λ l m _. u l m;
    }
    present-Settles w w' x (Change.replace y) e p v u =
        Settles-mono s (update_object k y) w' _ (Q w)
          (update_object-Settles s k (key_of o.meta) x y w'
            (sound.same_key x y e ∙ s.stored_key k (key_of o.meta) w x v) (u k (key_of o.meta) ∙ v))
          (λ _ w'' h. record {
            stored = y;
            there = h.0;
            amended = rw (v, e) refl;
            frame = λ l m d. h.1 l m d ∙ u l m;
          })
    present-Settles w w' x Change.panic e p v u = absurd (p refl)

    pub create_or_amend-Settles :
        (w : World)
        → o.meta.owner ≡ none
        → ((x : Object k) → view w k (key_of o.meta) ≡ some x → amend x ≢ Change.panic)
        → Settles s
            (create_or_amend reference owner k o amend)
            w
            (λ _ w'. Reconciled k o amend (view w) (view w'))
    unfolding create_or_amend is_not_found Q
    create_or_amend-Settles w free calm = rw (sets owner o.meta free) (
        Ensures-get s (OrFault s (Q w)) k (key_of o.meta) (create_or_change (owned owner o) amend) w
          (λ x w' v u. present-Settles w w' x (amend x) refl (calm x v) v u)
          (λ w' v u.
            Ensures-create s (OrFault s (Q w)) k (owned owner o) Program.done w'
              (u k (key_of o.meta) ∙ v)
              (λ w'' n f. record {
                stored = owned owner o;
                there = n;
                amended = rw v refl;
                frame = λ l m d. f l m d ∙ u l m;
              })
              (λ e w'' _ _ _ f. f))
          (λ e w' n u f. rw n f))

module _ (s : Server) where
  open s use {World, view}

  -- `delete_if_present` leaves no object, and touches no other.
  pub delete_if_present-Settles :
      (wrap : Error → Error) (k : Kind) (n : NamespacedName) (w : World)
      → has_finalizer k ≡ false
      → Settles s
          (delete_if_present wrap k n)
          w
          (λ _ w'. (view w' k n ≡ none) × Frame k n (view w) (view w'))
  unfolding delete_if_present is_not_found
  delete_if_present-Settles wrap k n w free =
      Ensures-delete s (OrFault s (λ _ w'. (view w' k n ≡ none) × Frame k n (view w) (view w'))) k n
        (ignore_missing wrap) w free (λ w' v u. (v, u)) (λ w' _ v u. (v, u))
        (λ e w' n d u f. rw n f)
