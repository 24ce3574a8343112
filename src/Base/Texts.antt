-- ===== src/Base/Texts.antt =====
-- Strings: equality with its laws, and the functions of package strings that the source calls.
use Prim.Native.Nat.{ℕ, compare, Ordering}
use Prim.Native.Char.{Char, code}
use Prim.Native.String.{String}
use Prim.Native.String
use mathlib.Core.Path.{◌≡◌}
use mathlib.Core.Logic.{◌≢◌, inl, inr}
use mathlib.Core.Bool.{Bool, true, false, ◌||◌, ◌&&◌, not}
use mathlib.Core.List.{List, [], ◌∷◌}
use mathlib.Core.HLevel.{hedberg}
use native.Mathlib.Omega.{arith}
use text.Mathlib.Text
pub use text.Mathlib.TextEquality.{eq_iff}
pub use text.Mathlib.TextPositions.{eq_refl}
use gitops_operator.Base.Tests.{if◌then◌else◌, Bool-cases}

infix 50 ◌==◌
abbrev pub ◌==◌ : String → String → Bool
s == t = Text.◌==◌ s t

infixr 66 ◌⧺◌
-- concatenation, Go's `+`
abbrev pub ◌⧺◌ : String → String → String
s ⧺ t = String.◌++◌ s t

-- strings.HasPrefix
abbrev pub has_prefix : String → String → Bool
has_prefix s p = Text.starts_with s p

pub ==-true : (s t : String) → (s == t) ≡ true → s ≡ t
==-true s t = (eq_iff s t).0

pub ==-false : (s t : String) → s ≢ t → (s == t) ≡ false
==-false s t h = ground (arith, eq_iff s t)

pub ==-ne : (s t : String) → (s == t) ≡ false → s ≢ t
==-ne s t h e = ground (arith, eq_iff s t)

pub ==-of_eq : (s t : String) → s ≡ t → (s == t) ≡ true
==-of_eq s t = (eq_iff s t).1

-- slices.Contains
abbrev pub contains : List String → String → Bool
contains [] s = false
contains (x ∷ xs) s = x == s || contains xs s

-- strings.Join
abbrev pub join : List String → String → String
join [] sep = ""
join (x ∷ []) sep = x
join (x ∷ y ∷ rest) sep = x ⧺ sep ⧺ join (y ∷ rest) sep

abbrev pub code_is : Char → ℕ → Bool
code_is c n = elim (compare (code c) n) [ Ordering.eq ↦ true | _ ↦ false ]

-- the first field of a text and the others, with a separator of one character
abbrev pub split_step : Bool → Char → List String → List String
split_step true c fields = "" ∷ fields
split_step false c [] = (String.◌∷◌ c "") ∷ []
split_step false c (f ∷ fields) = (String.◌∷◌ c f) ∷ fields

-- strings.Split(s, sep) for a separator of one character, given by its code
abbrev pub split : String → ℕ → List String
split String.[] sep = "" ∷ []
split (String.◌∷◌ c s) sep = let rest = split s sep in split_step (code_is c sep) c rest

-- the white space of strings.TrimSpace among the Latin-1 characters
abbrev pub is_space : Char → Bool
is_space c =
    code_is c 9
    || code_is c 10
    || code_is c 11
    || code_is c 12
    || code_is c 13
    || code_is c 32
    || code_is c 133
    || code_is c 160

abbrev pub trim_left : String → String
trim_left String.[] = ""
trim_left (String.◌∷◌ c s) = let rest = trim_left s in if is_space c then rest else String.◌∷◌ c s

-- a character in front of a text whose trailing space is gone
abbrev pub trim_step : Char → String → String
trim_step c String.[] = if is_space c then "" else String.◌∷◌ c ""
trim_step c (String.◌∷◌ d s) = String.◌∷◌ c (String.◌∷◌ d s)

abbrev pub trim_right : String → String
trim_right String.[] = ""
trim_right (String.◌∷◌ c s) = trim_step c (trim_right s)

-- strings.TrimSpace
unfoldable pub trim_space : String → String
trim_space s = trim_left (trim_right s)

-- an ASCII letter in lower case
abbrev lower_char : Char → Char
lower_char c =
    if code_is c 65
    then "a"
    else if code_is c 66
    then "b"
    else if code_is c 67
    then "c"
    else if code_is c 68
    then "d"
    else if code_is c 69
    then "e"
    else if code_is c 70
    then "f"
    else if code_is c 71
    then "g"
    else if code_is c 72
    then "h"
    else if code_is c 73
    then "i"
    else if code_is c 74
    then "j"
    else if code_is c 75
    then "k"
    else if code_is c 76
    then "l"
    else if code_is c 77
    then "m"
    else if code_is c 78
    then "n"
    else if code_is c 79
    then "o"
    else if code_is c 80
    then "p"
    else if code_is c 81
    then "q"
    else if code_is c 82
    then "r"
    else if code_is c 83
    then "s"
    else if code_is c 84
    then "t"
    else if code_is c 85
    then "u"
    else if code_is c 86
    then "v"
    else if code_is c 87
    then "w"
    else if code_is c 88
    then "x"
    else if code_is c 89
    then "y"
    else if code_is c 90
    then "z"
    else c

-- strings.ToLower; the letters outside ASCII stay as they are
abbrev pub to_lower : String → String
to_lower String.[] = ""
to_lower (String.◌∷◌ c s) = String.◌∷◌ (lower_char c) (to_lower s)

abbrev has_slash : String → Bool
has_slash String.[] = false
has_slash (String.◌∷◌ c s) = code_is c b'/' || has_slash s

-- filepath.Ext: from the last dot of the last element of the path
abbrev pub file_ext : String → String
file_ext String.[] = ""
file_ext (String.◌∷◌ c s) =
    let e = file_ext s in
    if not (e == "") then e else if code_is c b'.' && not (has_slash s) then String.◌∷◌ c s else ""

-- strings.TrimSuffix
abbrev pub trim_suffix : String → String → String
trim_suffix String.[] suffix = ""
trim_suffix (String.◌∷◌ c s) suffix =
    let rest = String.◌∷◌ c (trim_suffix s suffix) in if String.◌∷◌ c s == suffix then "" else rest

pub String-discrete : Discrete String
String-discrete s t = elim (Bool-cases (s == t)) [
  | inl e ↦ yes (==-true s t e)
  | inr e ↦ no (==-ne s t e)
]

pub String-IsSet : IsSet String
String-IsSet = hedberg String-discrete
