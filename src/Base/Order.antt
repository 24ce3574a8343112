-- ===== src/Base/Order.antt =====
-- Go's `<` on integers and on strings, which compares code units; on code points the order is the same.
use Prim.Native.Nat.{ℕ, ◌<◌}
use Prim.Native.Char.{code}
use Prim.Native.String.{String}
use mathlib.Core.Path.{◌≡◌, refl, ap₂, sym, ◌∙◌}
use mathlib.Core.Logic.{◌↔◌, ite, if_pos, if_neg}
use mathlib.Core.Bool.{Bool, true, false, ◌||◌, ◌&&◌, not, false≢true}
use native.Mathlib.Decide.{dec_lt}
use native.Mathlib.Omega.{arith}
use text.Mathlib.TextEquality.{Char-path}

unfoldable pub ltb : ℕ → ℕ → Bool
ltb m n = ite (dec_lt m n) true false

pub ltb_iff : (m n : ℕ) → (ltb m n ≡ true) ↔ (m < n)
unfolding ltb
ltb_iff m n = elim (dec_lt m n) [
  | yes p ↦ (λ _. p, λ _. if_pos _ p true false)
  | no p ↦ (λ e. absurd (false≢true (sym (if_neg _ p true false) ∙ e)), λ q. absurd (p q))
]

unfoldable pub text_less : String → String → Bool
unfolding ltb
text_less String.[] String.[] = false
text_less String.[] (String.◌∷◌ d t) = true
text_less (String.◌∷◌ c s) String.[] = false
text_less (String.◌∷◌ c s) (String.◌∷◌ d t) =
    let rest = text_less s t in ltb (code c) (code d) || (not (ltb (code d) (code c)) && rest)

pub text_less-asymm : (s t : String) → text_less s t ≡ true → text_less t s ≡ false
unfolding text_less
text_less-asymm String.[] String.[] h = refl
text_less-asymm String.[] (String.◌∷◌ d t) h = refl
text_less-asymm (String.◌∷◌ c s) String.[] h = ground arith
text_less-asymm (String.◌∷◌ c s) (String.◌∷◌ d t) h =
    ground (arith, ltb_iff (code c) (code d), ltb_iff (code d) (code c), text_less-asymm s t)

pub text_less-le_trans :
    (s t u : String) → text_less t s ≡ false → text_less u t ≡ false → text_less u s ≡ false
unfolding text_less
text_less-le_trans String.[] String.[] u h g = g
text_less-le_trans String.[] (String.◌∷◌ d t) String.[] h g = ground arith
text_less-le_trans String.[] (String.◌∷◌ d t) (String.◌∷◌ e u) h g = refl
text_less-le_trans (String.◌∷◌ c s) String.[] u h g = ground arith
text_less-le_trans (String.◌∷◌ c s) (String.◌∷◌ d t) String.[] h g = ground arith
text_less-le_trans (String.◌∷◌ c s) (String.◌∷◌ d t) (String.◌∷◌ e u) h g = ground (
  arith,
  ltb_iff (code c) (code d),
  ltb_iff (code d) (code c),
  ltb_iff (code d) (code e),
  ltb_iff (code e) (code d),
  ltb_iff (code c) (code e),
  ltb_iff (code e) (code c),
  text_less-le_trans s t u,
)

pub text_less-tie : (s t : String) → text_less s t ≡ false → text_less t s ≡ false → s ≡ t
unfolding text_less
text_less-tie String.[] String.[] h g = refl
text_less-tie String.[] (String.◌∷◌ d t) h g = ground arith
text_less-tie (String.◌∷◌ c s) String.[] h g = ground arith
text_less-tie (String.◌∷◌ c s) (String.◌∷◌ d t) h g =
    ap₂ String.◌∷◌
      (Char-path c d (ground (arith, ltb_iff (code c) (code d), ltb_iff (code d) (code c))))
      (text_less-tie s t (ground (arith, ltb_iff (code c) (code d), ltb_iff (code d) (code c)))
        (ground (arith, ltb_iff (code c) (code d), ltb_iff (code d) (code c))))
