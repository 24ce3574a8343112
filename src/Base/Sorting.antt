-- ===== src/Base/Sorting.antt =====
-- sort.Slice on at most 12 elements, where it is an insertion sort: the elements before the current
-- one stand sorted, here last first, and the current one moves forward past those it is less than.
use mathlib.Core.Path.{◌≡◌, refl, ap, subst, ◌∙◌}
use mathlib.Core.Logic.{◌≢◌, inl, inr}
use mathlib.Core.Bool.{Bool, true, false}
use mathlib.Core.List.{List, [], ◌∷◌, ◌++◌, not-mem-nil, Mem, mem-cons_self, mem-cons_of_mem}
use mathlib.Core.List.Permᴰ
use mathlib.Core.List.{Permᴰ}
use native.Mathlib.Omega.{arith}
use gitops_operator.Base.Tests.{if◌then◌else◌, Bool-cases}
use gitops_operator.Base.Order.{text_less, text_less-asymm, text_less-le_trans}
use Prim.Native.String.{String}

-- What a sort needs of its comparison.
pub record WeakOrder {A : Type 0} (less : A → A → Bool) : Type 0 where
  pub asymm : (a b : A) → less a b ≡ true → less b a ≡ false
  pub le_trans : (a b c : A) → less b a ≡ false → less c b ≡ false → less c a ≡ false

-- Elements that neither is less than the other are the same.
abbrev pub Untied : {A : Type 0} → (A → A → Bool) → List A → Type 0
Untied {A} less xs = (x y : A) → Mem x xs → Mem y xs → less x y ≡ false → less y x ≡ false → x ≡ y

module _ {A : Type 0} (less : A → A → Bool) where
  -- `sorted` stands last first
  unfoldable pub move_forward : A → List A → List A
  move_forward x [] = x ∷ []
  move_forward x (y ∷ sorted) =
      let rest = move_forward x sorted in if less x y then y ∷ rest else x ∷ y ∷ sorted

  unfoldable pub sort_onto : List A → List A → List A
  sort_onto [] sorted = sorted
  sort_onto (x ∷ xs) sorted = sort_onto xs (move_forward x sorted)

  abbrev pub turned : List A → List A → List A
  turned [] out = out
  turned (x ∷ xs) out = turned xs (x ∷ out)

  unfoldable pub sort_slice : List A → List A
  sort_slice xs = turned (sort_onto xs []) []

  module _ (order : WeakOrder less) where
    move_forward_comm :
        (x y : A) (l : List A)
        → (less x y ≡ false → less y x ≡ false → x ≡ y)
        → move_forward x (move_forward y l) ≡ move_forward y (move_forward x l)
    unfolding move_forward
    move_forward_comm x y [] tie = ground (arith, order.asymm x y, order.asymm y x)
    move_forward_comm x y (z ∷ l) tie = ground (
      arith,
      order.asymm x y,
      order.asymm y x,
      order.le_trans z y x,
      order.le_trans z x y,
      move_forward_comm x y l,
    )

    sort_onto-perm :
        {xs ys : List A} (l : List A)
        → Permᴰ xs ys
        → Untied less xs
        → sort_onto xs l ≡ sort_onto ys l
    unfolding sort_onto
    sort_onto-perm l Permᴰ.nil u = refl
    sort_onto-perm l (Permᴰ.cons {a = a} e p) u = rw (← e) (
        sort_onto-perm (move_forward a l) p
          (λ x y m n. u x y (mem-cons_of_mem a m) (mem-cons_of_mem a n)))
    sort_onto-perm l (Permᴰ.swap {a = a} {b = b} {l = t} e f) u =
        rw (← e, ← f)
          (ap (sort_onto t)
            (move_forward_comm b a l (u b a (mem-cons_of_mem a mem-cons_self) mem-cons_self)))
    sort_onto-perm l (Permᴰ.trans p q) u =
        sort_onto-perm l p u
        ∙ sort_onto-perm l q
            (λ x y m n. u x y (Permᴰ.mem (Permᴰ.symm p) m) (Permᴰ.mem (Permᴰ.symm p) n))

    -- The order in which the elements come does not matter.
    pub sort_slice-perm :
        {xs ys : List A} → Permᴰ xs ys → Untied less xs → sort_slice xs ≡ sort_slice ys
    unfolding sort_slice
    sort_slice-perm p u = ap (λ l. turned l []) (sort_onto-perm [] p u)

  -- Nothing is lost and nothing is added.
  move_forward-Perm : (x : A) (l : List A) → Permᴰ (move_forward x l) (x ∷ l)
  unfolding move_forward
  move_forward-Perm x [] = Permᴰ.refl (x ∷ [])
  move_forward-Perm x (y ∷ l) = elim (Bool-cases (less x y)) [
    | inl e ↦ rw e (Permᴰ.trans (Permᴰ.cons refl (move_forward-Perm x l)) (Permᴰ.swap refl refl))
    | inr e ↦ rw e (Permᴰ.refl (x ∷ y ∷ l))
  ]

  sort_onto-Perm : (xs l : List A) → Permᴰ (sort_onto xs l) (xs ++ l)
  unfolding sort_onto
  sort_onto-Perm [] l = Permᴰ.refl l
  sort_onto-Perm (x ∷ xs) l =
      Permᴰ.trans (sort_onto-Perm xs (move_forward x l))
        (Permᴰ.trans (Permᴰ.append_left xs (move_forward-Perm x l)) (Permᴰ.middle x xs l))

  turned-Perm : (xs out : List A) → Permᴰ (turned xs out) (xs ++ out)
  turned-Perm [] out = Permᴰ.refl out
  turned-Perm (x ∷ xs) out = Permᴰ.trans (turned-Perm xs (x ∷ out)) (Permᴰ.middle x xs out)

  pub sort_slice-Perm : (xs : List A) → Permᴰ (sort_slice xs) xs
  unfolding sort_slice
  sort_slice-Perm xs = Permᴰ.trans (turned-Perm (sort_onto xs []) []) (
      Permᴰ.trans (Permᴰ.append-nil (sort_onto xs []))
        (Permᴰ.trans (sort_onto-Perm xs []) (Permᴰ.append-nil xs)))

  -- a list that has an element still has one
  pub sort_slice-cons : (x : A) (xs : List A) → sort_slice (x ∷ xs) ≢ []
  sort_slice-cons x xs e =
      not-mem-nil
        (subst (Mem x) e (Permᴰ.mem (Permᴰ.symm (sort_slice-Perm (x ∷ xs))) mem-cons_self))

-- a comparison of texts by a field
abbrev pub by_text : {A : Type 0} → (A → String) → A → A → Bool
by_text f a b = text_less (f a) (f b)

pub by_text-WeakOrder : {A : Type 0} (f : A → String) → WeakOrder (by_text f)
by_text-WeakOrder f = record {
  asymm = λ a b. text_less-asymm (f a) (f b);
  le_trans = λ a b c. text_less-le_trans (f a) (f b) (f c);
}
