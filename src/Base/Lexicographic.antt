-- ===== src/Base/Lexicographic.antt =====
-- Comparisons by one field and then by others.
use Prim.Native.Nat.{ℕ}
use Prim.Native.String.{String}
use mathlib.Core.Bool.{Bool, ◌||◌, not}
use native.Mathlib.Omega.{arith}
use gitops_operator.Base.Tests.{if◌then◌else◌}
use gitops_operator.Base.Texts.{◌==◌, eq_iff}
use gitops_operator.Base.Order.{
  ltb, ltb_iff, text_less, text_less-asymm, text_less-le_trans, text_less-tie,
}
use gitops_operator.Base.Sorting.{WeakOrder}

module _ {A : Type 0} (less : A → A → Bool) (order : WeakOrder less) where
  abbrev pub text_then : (A → String) → A → A → Bool
  text_then f a b = if not (f a == f b) then text_less (f a) (f b) else less a b

  abbrev pub number_then : (A → ℕ) → A → A → Bool
  number_then f a b = if ltb (f a) (f b) || ltb (f b) (f a) then ltb (f a) (f b) else less a b

  pub text_then-WeakOrder : (f : A → String) → WeakOrder (text_then f)
  text_then-WeakOrder f = record {
    asymm = λ a b h. ground (
      arith,
      eq_iff (f a) (f b),
      eq_iff (f b) (f a),
      text_less-asymm (f a) (f b),
      order.asymm a b,
    );
    le_trans = λ a b c h g. ground (
      arith,
      eq_iff (f a) (f b),
      eq_iff (f b) (f a),
      eq_iff (f b) (f c),
      eq_iff (f c) (f b),
      eq_iff (f c) (f a),
      text_less-asymm (f b) (f a),
      text_less-le_trans (f a) (f b) (f c),
      text_less-tie (f a) (f b),
      text_less-tie (f b) (f c),
      order.le_trans a b c,
    );
  }

  pub number_then-WeakOrder : (f : A → ℕ) → WeakOrder (number_then f)
  number_then-WeakOrder f = record {
    asymm = λ a b h. ground (arith, ltb_iff (f a) (f b), ltb_iff (f b) (f a), order.asymm a b);
    le_trans = λ a b c h g. ground (
      arith,
      ltb_iff (f a) (f b),
      ltb_iff (f b) (f a),
      ltb_iff (f b) (f c),
      ltb_iff (f c) (f b),
      ltb_iff (f a) (f c),
      ltb_iff (f c) (f a),
      order.le_trans a b c,
    );
  }
