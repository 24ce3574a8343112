-- ===== src/Base/Equality.antt =====
-- reflect.DeepEqual, one instance for each type that the source compares.
use Prim.Native.String.{String}
use mathlib.Core.Path.{◌≡◌, refl}
use mathlib.Core.Bool.{Bool, true, false, ◌&&◌}
use mathlib.Core.Option.{Option, none, some}
use mathlib.Core.List.{List, [], ◌∷◌}
use gitops_operator.Base.Tests.{&&-intro}
use gitops_operator.Base.Texts.{◌==◌, eq_refl}
use gitops_operator.Base.Maps.{StringMap, same_map, same_map_refl}

pub record DeepEqual (A : Type 0) : Type 0 where
  pub same : A → A → Bool
  pub same_refl : (a : A) → same a a ≡ true

abbrev pub deep_equal : {A : Type 0} ⦃e : DeepEqual A⦄ → A → A → Bool
deep_equal ⦃e⦄ = e.same

pub deep_equal_refl : {A : Type 0} ⦃e : DeepEqual A⦄ (a : A) → deep_equal a a ≡ true
deep_equal_refl ⦃e⦄ = e.same_refl

instance abbrev pub String-deep_equal : DeepEqual String
String-deep_equal = record { same = ◌==◌; same_refl = eq_refl }

instance abbrev pub StringMap-deep_equal : DeepEqual StringMap
StringMap-deep_equal = record { same = same_map; same_refl = same_map_refl }

module _ {A : Type 0} ⦃e : DeepEqual A⦄ where
  abbrev pub same_option : Option A → Option A → Bool
  same_option none none = true
  same_option (some a) (some b) = e.same a b
  same_option _ _ = false

  pub same_option_refl : (o : Option A) → same_option o o ≡ true
  same_option_refl none = refl
  same_option_refl (some a) = e.same_refl a

  abbrev pub same_list : List A → List A → Bool
  same_list [] [] = true
  same_list (x ∷ xs) (y ∷ ys) = e.same x y && same_list xs ys
  same_list _ _ = false

  pub same_list_refl : (xs : List A) → same_list xs xs ≡ true
  same_list_refl [] = refl
  same_list_refl (x ∷ xs) = &&-intro (e.same_refl x) (same_list_refl xs)

  instance abbrev pub List-deep_equal : DeepEqual (List A)
  List-deep_equal = record { same = same_list; same_refl = same_list_refl }
