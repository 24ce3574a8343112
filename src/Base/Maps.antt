-- ===== src/Base/Maps.antt =====
-- Go's map[string]string: nil, or entries. Only lookups read the entries, so their order and an
-- entry behind another of the same key do not matter.
use Prim.Native.String.{String}
use mathlib.Core.Path.{◌≡◌, refl, ap}
use mathlib.Core.Logic.{◌⊎◌, inl}
use mathlib.Core.Bool.{Bool, true, false, ◌&&◌}
use mathlib.Core.Option.{Option, none, some}
use mathlib.Core.List.{List, [], ◌∷◌}
use native.Mathlib.Omega.{arith}
use gitops_operator.Base.Tests.{if◌then◌else◌, all, &&-intro, &&-left, &&-right}
use gitops_operator.Base.Texts.{◌==◌, eq_iff, eq_refl}

abbrev pub Entries : Type 0
Entries = List (String × String)

-- `none` is the nil map
abbrev pub StringMap : Type 0
StringMap = Option Entries

unfoldable pub find : Entries → String → Option String
find [] k = none
find ((j, v) ∷ m) k = if j == k then some v else find m k

-- `m[k] = v` in a map that is not nil
unfoldable pub put : String → String → Entries → Entries
put k v [] = (k, v) ∷ []
put k v ((j, w) ∷ m) = if j == k then (k, v) ∷ m else (j, w) ∷ put k v m

-- `delete(m, k)`
unfoldable pub remove : String → Entries → Entries
remove k [] = []
remove k ((j, w) ∷ m) = let rest = remove k m in if j == k then rest else (j, w) ∷ rest

-- `if m == nil { m = make(map[string]string) }`
abbrev pub made : StringMap → Entries
made none = []
made (some m) = m

-- `v, exists := m[k]`
unfoldable pub lookup : StringMap → String → Option String
lookup m k = find (made m) k

-- `m[k]`: the empty text where the key is missing
abbrev pub text_of : Option String → String
text_of none = ""
text_of (some v) = v

pub find-put :
    (k j v : String) (m : Entries) → find (put k v m) j ≡ (if k == j then some v else find m j)
unfolding find put
find-put k j v [] = refl
find-put k j v ((i, w) ∷ m) = ground (arith, eq_iff k j, eq_iff i k, eq_iff i j, find-put k j v m)

pub find-put_self : (k v : String) (m : Entries) → find (put k v m) k ≡ some v
find-put_self k v m = simp (find-put, eq_refl)

-- Setting the value that a key has changes nothing.
pub put-find : (k v : String) (m : Entries) → find m k ≡ some v → put k v m ≡ m
unfolding find put
put-find k v [] h = cc
put-find k v ((j, w) ∷ m) h = ground (arith, eq_iff j k, put-find k v m)

pub find-remove :
    (k j : String) (m : Entries) → find (remove k m) j ≡ (if k == j then none else find m j)
unfolding find remove
find-remove k j [] = ground arith
find-remove k j ((i, w) ∷ m) = ground (arith, eq_iff k j, eq_iff i k, eq_iff i j, find-remove k j m)

-- Two options of texts are the same.
abbrev pub same_text? : Option String → Option String → Bool
same_text? none none = true
same_text? (some v) (some w) = v == w
same_text? _ _ = false

pub same_text?_refl : (o : Option String) → same_text? o o ≡ true
same_text?_refl none = refl
same_text?_refl (some v) = eq_refl v

-- every key of the first list has the same value in both maps
abbrev agrees_on : Entries → Entries → Entries → Bool
agrees_on keys m n = all (λ (j, v). same_text? (find m j) (find n j)) keys

unfoldable pub same_entries : Entries → Entries → Bool
same_entries m n = agrees_on m m n && agrees_on n m n

agrees_on_refl : (keys m : Entries) → agrees_on keys m m ≡ true
agrees_on_refl [] m = refl
agrees_on_refl ((j, v) ∷ keys) m = &&-intro (same_text?_refl (find m j)) (agrees_on_refl keys m)

pub same_entries_refl : (m : Entries) → same_entries m m ≡ true
unfolding same_entries
same_entries_refl m = &&-intro (agrees_on_refl m m) (agrees_on_refl m m)

-- reflect.DeepEqual on two maps: a nil map is not an empty one
abbrev pub same_map : StringMap → StringMap → Bool
same_map none none = true
same_map (some m) (some n) = same_entries m n
same_map _ _ = false

pub same_map_refl : (m : StringMap) → same_map m m ≡ true
same_map_refl none = refl
same_map_refl (some m) = same_entries_refl m

pub same_text?-eq : (o p : Option String) → same_text? o p ≡ true → o ≡ p
same_text?-eq none none h = refl
same_text?-eq (some v) (some w) h = ap some ((eq_iff v w).0 h)
same_text?-eq none (some w) h = cc
same_text?-eq (some v) none h = cc

agrees_on-find :
    (keys m n : Entries) (k : String)
    → agrees_on keys m n ≡ true
    → (find keys k ≡ none) ⊎ (find m k ≡ find n k)
unfolding find
agrees_on-find [] m n k h = inl refl
agrees_on-find ((j, v) ∷ keys) m n k h =
    ground (arith, eq_iff j k, same_text?-eq (find m j) (find n j), agrees_on-find keys m n k)

-- Maps that pass the test have the same value at every key.
pub same_entries-find :
    (m n : Entries) → same_entries m n ≡ true → (k : String) → find m k ≡ find n k
unfolding same_entries
same_entries-find m n h k = ground (
  arith,
  agrees_on-find m m n k (&&-left _ _ h),
  agrees_on-find n m n k (&&-right (agrees_on m m n) _ h),
)
