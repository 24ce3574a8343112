-- ===== src/Kube/Memory.antt =====
-- A server that keeps the objects in memory and never fails: it shows that the interface can be met.
use gitops_operator.Base.{
  ◌≡◌, refl, sym, ap, ◌∙◌, subst, ◌≢◌, inl, inr, Bool, true, false, ◌&&◌, Option, none, some,
  if◌then◌else◌,
}
use mathlib.Core.Option.{none-ne-some, some-injective}
use mathlib.Core.Bool.{true≢false}
use mathlib.Core.Logic.{ite}
use mathlib.Core.Path.{subst_refl}
use gitops_operator.Kube.Objects.{NamespacedName}
use gitops_operator.Kube.Api.{Kind, Kind-discrete, Object, key_of, Error, Result, Call, Reply}
use gitops_operator.Kube.Serving.{
  same_name, View, Frame, GetReply, CreateReply, UpdateReply, DeleteReply, Server,
}
use gitops_operator.Kube.Effects.{same_name-eq, same_name_refl}

-- An object stands under its own key.
abbrev pub keyed : {k : Kind} → NamespacedName → Option (Object k) → Option (Object k)
keyed n none = none
keyed n (some o) = if same_name (key_of o.meta) n then some o else none

abbrev pub stored : View → View
stored w k n = keyed n (w k n)

abbrev pub place :
    {k l : Kind} → Dec (k ≡ l) → Bool → Option (Object k) → Option (Object l) → Option (Object l)
place (yes p) b x y = if b then subst (λ k. Option (Object k)) p x else y
place (no _) b x y = y

unfoldable pub set : (k : Kind) → NamespacedName → Option (Object k) → View → View
set k n x w l m = place (Kind-discrete k l) (same_name n m) x (w l m)

Kind-IsSet : IsSet Kind
Kind-IsSet = hlevel

place-here : {k : Kind} (d : Dec (k ≡ k)) (x y : Option (Object k)) → place d true x y ≡ x
place-here {k} (yes p) x y =
    ap (λ q. subst (λ k. Option (Object k)) q x) (Kind-IsSet k k p refl)
    ∙ subst_refl (λ k. Option (Object k)) x
place-here (no n) x y = absurd (n refl)

place-other :
    {k l : Kind} (d : Dec (k ≡ l)) (b : Bool) (x : Option (Object k)) (y : Option (Object l))
    → (ite d true false && b) ≡ false
    → place d b x y ≡ y
place-other (yes p) true x y e = absurd (true≢false e)
place-other (yes p) false x y e = refl
place-other (no _) b x y e = refl

set-Frame :
    (k : Kind) (n : NamespacedName) (x : Option (Object k)) (w : View)
    → Frame k n (stored w) (stored (set k n x w))
unfolding set
set-Frame k n x w l m e = ap (keyed m) (place-other (Kind-discrete k l) (same_name n m) x (w l m) e)

set-here :
    (k : Kind) (n : NamespacedName) (x : Option (Object k)) (w : View)
    → stored (set k n x w) k n ≡ keyed n x
unfolding set
set-here k n x w = rw (same_name_refl n) (ap (keyed n) (place-here (Kind-discrete k k) x (w k n)))

set-object :
    (k : Kind) (o : Object k) (w : View)
    → stored (set k (key_of o.meta) (some o) w) k (key_of o.meta) ≡ some o
set-object k o w = set-here k (key_of o.meta) (some o) w ∙ rw (same_name_refl (key_of o.meta)) refl

pub keyed-key :
    {k : Kind} (n : NamespacedName) (x : Option (Object k)) (o : Object k)
    → keyed n x ≡ some o
    → key_of o.meta ≡ n
keyed-key n none o e = absurd (none-ne-some o e)
keyed-key n (some x) o e = go (same_name (key_of x.meta) n) refl e
  where
    go :
        (b : Bool)
        → same_name (key_of x.meta) n ≡ b
        → (if b then some x else none) ≡ some o
        → key_of o.meta ≡ n
    go true q h =
        ap (λ y. key_of y.meta) (sym (some-injective x o h)) ∙ same_name-eq (key_of x.meta) n q
    go false q h = absurd (none-ne-some o h)

abbrev pub get_from : {k : Kind} → Option (Object k) → Result (Object k)
get_from none = Result.err Error.not_found
get_from (some o) = Result.ok o

abbrev pub create_in : {k : Kind} → Object k → View → Option (Object k) → Result (Unit {0}) × View
create_in {k} o w none = (Result.ok tt, set k (key_of o.meta) (some o) w)
create_in o w (some _) = (Result.err Error.already_exists, w)

abbrev pub update_in : {k : Kind} → Object k → View → Option (Object k) → Result (Unit {0}) × View
update_in o w none = (Result.err Error.not_found, w)
update_in {k} o w (some _) = (Result.ok tt, set k (key_of o.meta) (some o) w)

abbrev pub delete_in :
    {k : Kind} → NamespacedName → View → Option (Object k) → Result (Unit {0}) × View
delete_in n w none = (Result.err Error.not_found, w)
delete_in {k} n w (some _) = (Result.ok tt, set k n none w)

abbrev pub serve_from : (c : Call) → View → Reply c × View
serve_from (Call.get k n) w = (get_from (stored w k n), w)
serve_from (Call.create k o) w = create_in o w (stored w k (key_of o.meta))
serve_from (Call.update k o) w = update_in o w (stored w k (key_of o.meta))
serve_from (Call.delete k n) w = delete_in n w (stored w k n)

pub get_from-reply : {k : Kind} (x : Option (Object k)) → GetReply x (get_from x) ⊥
get_from-reply none = inr (inl (refl, refl))
get_from-reply (some o) = inl (o, refl, refl)

some-ne : {k : Kind} (o : Object k) (x : Option (Object k)) → x ≡ some o → x ≢ none
some-ne o x e n = none-ne-some o (sym n ∙ e)

pub create_in-reply :
    {k : Kind} (o : Object k) (w : View) (x : Option (Object k))
    → stored w k (key_of o.meta) ≡ x
    → CreateReply o
        (stored w k (key_of o.meta))
        (stored (create_in o w x).1 k (key_of o.meta))
        (create_in o w x).0
        ⊥
create_in-reply {k} o w none e = inl (refl, e, set-object k o w)
create_in-reply {k} o w (some y) e = inr (inl (refl, some-ne y _ e, refl))

pub create_in-Frame :
    {k : Kind} (o : Object k) (w : View) (x : Option (Object k))
    → Frame k (key_of o.meta) (stored w) (stored (create_in o w x).1)
create_in-Frame {k} o w none l m e = set-Frame k (key_of o.meta) (some o) w l m e
create_in-Frame o w (some _) l m e = refl

pub update_in-reply :
    {k : Kind} (o : Object k) (w : View) (x : Option (Object k))
    → stored w k (key_of o.meta) ≡ x
    → UpdateReply o
        (stored w k (key_of o.meta))
        (stored (update_in o w x).1 k (key_of o.meta))
        (update_in o w x).0
        ⊥
update_in-reply o w none e = inr (inl (refl, e, refl))
update_in-reply {k} o w (some y) e = inl (refl, some-ne y _ e, set-object k o w)

pub update_in-Frame :
    {k : Kind} (o : Object k) (w : View) (x : Option (Object k))
    → Frame k (key_of o.meta) (stored w) (stored (update_in o w x).1)
update_in-Frame o w none l m e = refl
update_in-Frame {k} o w (some _) l m e = set-Frame k (key_of o.meta) (some o) w l m e

pub delete_in-reply :
    {k : Kind} (n : NamespacedName) (w : View) (x : Option (Object k))
    → stored w k n ≡ x
    → DeleteReply (stored w k n) (stored (delete_in n w x).1 k n) (delete_in n w x).0 ⊥
delete_in-reply n w none e = inr (inl (refl, e, e))
delete_in-reply {k} n w (some y) e = inl (refl, some-ne y _ e, inl (set-here k n none w))

pub delete_in-Frame :
    {k : Kind} (n : NamespacedName) (w : View) (x : Option (Object k))
    → Frame k n (stored w) (stored (delete_in n w x).1)
delete_in-Frame n w none l m e = refl
delete_in-Frame {k} n w (some _) l m e = set-Frame k n none w l m e

abbrev pub memory : Server
memory = record {
  World = View;
  serve = serve_from;
  view = stored;
  faulted = λ _. ⊥;
  stored_key = λ k n w o e. keyed-key n (w k n) o e;
  get_reply = λ k n w. get_from-reply (stored w k n);
  get_keeps = λ k n w l m. refl;
  create_reply = λ k o w. create_in-reply o w (stored w k (key_of o.meta)) refl;
  create_keeps = λ k o w. create_in-Frame o w (stored w k (key_of o.meta));
  update_reply = λ k o w. update_in-reply o w (stored w k (key_of o.meta)) refl;
  update_keeps = λ k o w. update_in-Frame o w (stored w k (key_of o.meta));
  delete_reply = λ k n w. delete_in-reply n w (stored w k n) refl;
  delete_keeps = λ k n w. delete_in-Frame n w (stored w k n);
}
