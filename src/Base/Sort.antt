-- ===== src/Base/Sort.antt =====
-- Texts in the order of their bytes, and `sort.Strings` (`slices.Sorted`), as an insertion sort.
use mathlib.Core.Bool.{Bool, true, false, ◌&&◌, ◌||◌}
use mathlib.Core.List.{List, [], ◌∷◌}
use mathlib.Core.Path.{◌≡◌, refl, ◌∙◌}
use mathlib.Core.Logic.{inl, inr}
use native.Mathlib.Omega.{arith}
use text.Mathlib.TextEquality.{eq_iff}
use Prim.Native.Char.{code}
use Prim.Native.String.{String}
use microbox.Base.Tests.{ltb, ◌=ᵇ◌, if◌then◌else◌, Bool-cases}
use microbox.Base.Keys.{string_eq, member, Distinct}

-- The order of code points is the order of the bytes of the UTF-8.
unfoldable pub text_le : String → String → Bool
text_le String.[] t = true
text_le (String.◌∷◌ c s) String.[] = false
text_le (String.◌∷◌ c s) (String.◌∷◌ d t) =
    ltb (code c) (code d) || (code c =ᵇ code d && text_le s t)

unfoldable pub insert_sorted : String → List String → List String
insert_sorted s [] = s ∷ []
insert_sorted s (t ∷ ts) =
    let rest = insert_sorted s ts in if text_le s t then s ∷ t ∷ ts else t ∷ rest

unfoldable pub sort : List String → List String
unfolding insert_sorted
sort [] = []
sort (s ∷ ss) = insert_sorted s (sort ss)

abbrev pub IsSorted : List String → Type 0
IsSorted [] = Unit
IsSorted (s ∷ []) = Unit
IsSorted (s ∷ t ∷ ts) = (text_le s t ≡ true) × IsSorted (t ∷ ts)

text_le_total : (s t : String) → text_le s t ≡ false → text_le t s ≡ true
unfolding text_le
text_le_total String.[] t h = cc
text_le_total (String.◌∷◌ c s) String.[] h = refl
text_le_total (String.◌∷◌ c s) (String.◌∷◌ d t) h = ground (arith, text_le_total s t)

insert_sorted-IsSorted :
    (s : String) (ts : List String) → IsSorted ts → IsSorted (insert_sorted s ts)
unfolding insert_sorted
insert_sorted-IsSorted s [] h = tt
insert_sorted-IsSorted s (t ∷ []) h = elim (Bool-cases (text_le s t)) [
  | inl e ↦ rw e (e, tt)
  | inr e ↦ rw e (text_le_total s t e, tt)
]
insert_sorted-IsSorted s (t ∷ u ∷ us) h = elim (Bool-cases (text_le s t)) [
  | inl e ↦ rw e (e, h)
  | inr e ↦ elim (Bool-cases (text_le s u)) [
    | inl f ↦ rw (e, f) (text_le_total s t e, (f, h.1))
    | inr f ↦ let ih = insert_sorted-IsSorted s (u ∷ us) h.1 in rw (e, f) (h.0, rw f at ih)
  ]
]

pub sort-IsSorted : (ss : List String) → IsSorted (sort ss)
unfolding sort
sort-IsSorted [] = tt
sort-IsSorted (s ∷ ss) = insert_sorted-IsSorted s (sort ss) (sort-IsSorted ss)

member-insert_sorted :
    (a s : String) (ts : List String)
    → member a (insert_sorted s ts) ≡ (string_eq.beq a s || member a ts)
unfolding insert_sorted member
member-insert_sorted a s [] = refl
member-insert_sorted a s (t ∷ ts) = ground (arith, member-insert_sorted a s ts)

-- Sorting keeps the texts of a list.
pub member-sort : (a : String) (ss : List String) → member a (sort ss) ≡ member a ss
unfolding sort member
member-sort a [] = refl
member-sort a (s ∷ ss) = member-insert_sorted a s (sort ss) ∙ rw (member-sort a ss)

insert_sorted-Distinct :
    (s : String) (ts : List String)
    → Distinct ts
    → member s ts ≡ false
    → Distinct (insert_sorted s ts)
unfolding insert_sorted member
insert_sorted-Distinct s [] d h = (refl, tt)
insert_sorted-Distinct s (t ∷ ts) d h = elim (Bool-cases (text_le s t)) [
  | inl e ↦ rw e (h, d)
  | inr e ↦ rw e (
    member-insert_sorted t s ts ∙ ground (arith, eq_iff s t, eq_iff t s),
    insert_sorted-Distinct s ts d.1 (ground arith),
  )
]

pub sort-Distinct : (ss : List String) → Distinct ss → Distinct (sort ss)
unfolding sort
sort-Distinct [] d = tt
sort-Distinct (s ∷ ss) d =
    insert_sorted-Distinct s (sort ss) (sort-Distinct ss d.1) (member-sort s ss ∙ d.0)
