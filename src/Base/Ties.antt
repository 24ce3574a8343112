-- ===== src/Base/Ties.antt =====
-- Short lists without ties.

use mathlib.Core.Path.{◌≡◌, sym, ◌∙◌}
use mathlib.Core.Bool.{Bool, false}
use mathlib.Core.List.{[], ◌∷◌, Mem, not-mem-nil, eq-or-mem_of_mem-cons}
use mathlib.Core.Logic.Or
use gitops_operator.Base.Sorting.{Untied}

module _ {A : Type 0} (less : A → A → Bool) where
  pub Untied-nil : Untied less []
  Untied-nil x y m = absurd (not-mem-nil m)

  module _ (is_set : IsSet A) where
    mem_one : (a x : A) → Mem x (a ∷ []) → x ≡ a
    mem_one a x m =
        Or.elim (is_set x a) (eq-or-mem_of_mem-cons m) (λ e. e) (λ n. absurd (not-mem-nil n))

    pub Untied-one : (a : A) → Untied less (a ∷ [])
    Untied-one a x y m n _ _ = mem_one a x m ∙ sym (mem_one a y n)

    pub Untied-two :
        (a b : A) → (less a b ≡ false → less b a ≡ false → ⊥) → Untied less (a ∷ b ∷ [])
    Untied-two a b h x y m n f g =
        Or.elim (is_set x y) (eq-or-mem_of_mem-cons m)
          (λ e.
            Or.elim (is_set x y) (eq-or-mem_of_mem-cons n) (λ d. e ∙ sym d)
              (λ k. absurd (h (cc (e, mem_one b y k, f)) (cc (e, mem_one b y k, g)))))
          (λ k.
            Or.elim (is_set x y) (eq-or-mem_of_mem-cons n)
              (λ d. absurd (h (cc (d, mem_one b x k, g)) (cc (d, mem_one b x k, f))))
              (λ l. mem_one b x k ∙ sym (mem_one b y l)))
