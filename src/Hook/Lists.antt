-- ===== src/Hook/Lists.antt =====
-- How a list of namespaces, written with commas and white space, is read.
use gitops_operator.Base.{
  code_is, is_space, trim_left, trim_right, trim_step, String, ◌≡◌, refl, sym, ap, ◌∙◌, subst, true,
  false, List, [], ◌∷◌, map, All, ◌⧺◌, split, trim_space,
}
use Prim.Native.Char.{Char}
use text.Mathlib.TextLemmas.{nil-append, cons-append}
use gitops_operator.Hook.{split_list}

-- A property of all characters of a text.
abbrev pub Every : (Char → Type 0) → String → Type 0
Every P String.[] = Unit
Every P (String.◌∷◌ c s) = P c × Every P s

abbrev NoComma : Char → Type 0
NoComma c = code_is c 44 ≡ false

abbrev IsPad : Char → Type 0
IsPad c = (is_space c ≡ true) × NoComma c

abbrev IsPlain : Char → Type 0
IsPlain c = (is_space c ≡ false) × NoComma c

-- An entry of a list, with the white space around it.
pub record Entry : Type 0 where
  pub left : String
  pub name : String
  pub right : String

abbrev entry_text : Entry → String
entry_text f = f.left ⧺ (f.name ⧺ f.right)

-- White space without a comma is around the name, which has neither.
abbrev pub IsEntry : Entry → Type 0
IsEntry f = Every IsPad f.left × Every IsPlain f.name × Every IsPad f.right

abbrev pub written : Entry → List Entry → String
written f [] = entry_text f
written f (g ∷ gs) = entry_text f ⧺ ("," ⧺ written g gs)

Every-⧺ : (P : Char → Type 0) (a b : String) → Every P a → Every P b → Every P (a ⧺ b)
Every-⧺ P String.[] b h k = subst (Every P) (sym (nil-append b)) k
Every-⧺ P (String.◌∷◌ c a) b (p, h) k =
    subst (Every P) (sym (cons-append c a b)) (p, Every-⧺ P a b h k)

pad-NoComma : (s : String) → Every IsPad s → Every NoComma s
pad-NoComma String.[] h = tt
pad-NoComma (String.◌∷◌ c s) (p, h) = (p.1, pad-NoComma s h)

plain-NoComma : (s : String) → Every IsPlain s → Every NoComma s
plain-NoComma String.[] h = tt
plain-NoComma (String.◌∷◌ c s) (p, h) = (p.1, plain-NoComma s h)

entry_text-NoComma : (f : Entry) → IsEntry f → Every NoComma (entry_text f)
entry_text-NoComma f (l, n, r) =
    Every-⧺ NoComma f.left (f.name ⧺ f.right) (pad-NoComma f.left l)
      (Every-⧺ NoComma f.name f.right (plain-NoComma f.name n) (pad-NoComma f.right r))

split-one : (a : String) → Every NoComma a → split a 44 ≡ a ∷ []
split-one String.[] h = refl
split-one (String.◌∷◌ c a) (p, h) = rw (p, split-one a h) refl

split-comma : (a b : String) → Every NoComma a → split (a ⧺ ("," ⧺ b)) 44 ≡ a ∷ split b 44
split-comma String.[] b h =
    ap (λ s. split s 44) (nil-append ("," ⧺ b) ∙ cons-append _ "" b)
    ∙ ap (λ s. "" ∷ split s 44) (nil-append b)
split-comma (String.◌∷◌ c a) b (p, h) =
    ap (λ s. split s 44) (cons-append c a ("," ⧺ b)) ∙ rw (p, split-comma a b h) refl

trim_left-step :
    (c : Char) (s : String) → is_space c ≡ true → trim_left (trim_step c s) ≡ trim_left s
trim_left-step c String.[] e = rw e refl
trim_left-step c (String.◌∷◌ d s) e = rw e refl

trim_space-pad : (l s : String) → Every IsPad l → trim_space (l ⧺ s) ≡ trim_space s
unfolding trim_space
trim_space-pad String.[] s h = ap trim_space (nil-append s)
trim_space-pad (String.◌∷◌ c l) s (p, h) =
    ap trim_space (cons-append c l s)
    ∙ trim_left-step c (trim_right (l ⧺ s)) p.0
    ∙ trim_space-pad l s h

trim_right-pad : (r : String) → Every IsPad r → trim_right r ≡ ""
trim_right-pad String.[] h = refl
trim_right-pad (String.◌∷◌ c r) (p, h) = rw (trim_right-pad r h, p.0) refl

plain_step : (c : Char) (s : String) → is_space c ≡ false → trim_step c s ≡ String.◌∷◌ c s
plain_step c String.[] e = rw e refl
plain_step c (String.◌∷◌ d s) e = refl

trim_right-plain : (n r : String) → Every IsPlain n → Every IsPad r → trim_right (n ⧺ r) ≡ n
trim_right-plain String.[] r h k = ap trim_right (nil-append r) ∙ trim_right-pad r k
trim_right-plain (String.◌∷◌ c n) r (p, h) k =
    ap trim_right (cons-append c n r)
    ∙ ap (trim_step c) (trim_right-plain n r h k)
    ∙ plain_step c n p.0

trim_left-plain : (n : String) → Every IsPlain n → trim_left n ≡ n
trim_left-plain String.[] h = refl
trim_left-plain (String.◌∷◌ c n) (p, h) = rw p.0 refl

trim_space-entry_text : (f : Entry) → IsEntry f → trim_space (entry_text f) ≡ f.name
unfolding trim_space
trim_space-entry_text f (l, n, r) =
    trim_space-pad f.left (f.name ⧺ f.right) l
    ∙ ap trim_left (trim_right-plain f.name f.right n r)
    ∙ trim_left-plain f.name n

abbrev pub names : List Entry → List String
names fs = map (λ f. f.name) fs

pub split_list-written :
    (f : Entry) (fs : List Entry)
    → All IsEntry (f ∷ fs)
    → split_list (written f fs) ≡ names (f ∷ fs)
unfolding split_list
split_list-written f [] (h, _) =
    ap (map trim_space) (split-one (entry_text f) (entry_text-NoComma f h))
    ∙ ap (λ n. n ∷ []) (trim_space-entry_text f h)
split_list-written f (g ∷ gs) (h, hs) =
    ap (map trim_space) (split-comma (entry_text f) (written g gs) (entry_text-NoComma f h))
    ∙ cc (trim_space-entry_text f h, split_list-written g gs hs)
