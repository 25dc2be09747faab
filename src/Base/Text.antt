-- ===== src/Base/Text.antt =====
-- Texts walked character by character: `strings.Split` at a one-byte separator, and joining back.
use mathlib.Core.Path.{◌≡◌, refl}
use mathlib.Core.Bool.{Bool, true, false, ◌||◌}
use mathlib.Core.Logic.{◌≢◌}
use mathlib.Core.List.{List, [], ◌∷◌, ◌++◌}
use native.Mathlib.Omega.{arith}
use text.Mathlib.TextLemmas.{nil-append, cons-append}
use Prim.Native.Char.{Char, code}
use Prim.Native.String.{String}
use Prim.Native.String.{◌++◌ as ◌<>◌}
use microbox.Base.Tests.{◌=ᵇ◌, if◌then◌else◌}

abbrev pub cons_head : Char → List String → List String
cons_head c [] = (String.◌∷◌ c String.[]) ∷ []
cons_head c (x ∷ xs) = (String.◌∷◌ c x) ∷ xs

-- `strings.Split(s, sep)`, for a separator of one ASCII character.
unfoldable pub split : Char → String → List String
split sep String.[] = String.[] ∷ []
split sep (String.◌∷◌ c s) =
    let rest = split sep s in if code c =ᵇ code sep then String.[] ∷ rest else cons_head c rest

-- `strings.Join(parts, sep)`
unfoldable pub join_with : Char → List String → String
join_with sep [] = String.[]
join_with sep (x ∷ []) = x
join_with sep (x ∷ y ∷ xs) = x <> String.◌∷◌ sep (join_with sep (y ∷ xs))

abbrev pub is_empty : String → Bool
is_empty String.[] = true
is_empty (String.◌∷◌ c s) = false

abbrev pub contains_char : Char → String → Bool
contains_char d String.[] = false
contains_char d (String.◌∷◌ c s) = code c =ᵇ code d || contains_char d s

cons_head-ne-nil : (c : Char) (xs : List String) → cons_head c xs ≢ []
cons_head-ne-nil c [] = λ h. cc
cons_head-ne-nil c (x ∷ xs) = λ h. cc

split-ne-nil : (sep : Char) (s : String) → split sep s ≢ []
unfolding split
split-ne-nil sep String.[] = λ h. cc
split-ne-nil sep (String.◌∷◌ c s) = λ h. ground (arith, cons_head-ne-nil c (split sep s))

cons_head-append :
    (c : Char) (xs ys : List String) → xs ≢ [] → cons_head c (xs ++ ys) ≡ cons_head c xs ++ ys
cons_head-append c [] ys h = absurd (h refl)
cons_head-append c (x ∷ xs) ys h = refl

-- A separator between two texts splits them apart.
pub split-append :
    (sep : Char) (s t : String) → split sep (s <> String.◌∷◌ sep t) ≡ split sep s ++ split sep t
unfolding split
split-append sep String.[] t = rw nil-append (ground arith)
split-append sep (String.◌∷◌ c s) t =
    rw (cons-append, split-append sep s t)
      (ground (arith, cons_head-append c (split sep s) (split sep t) (split-ne-nil sep s)))

pub contains_char-append :
    (d : Char) (s t : String) → contains_char d (s <> t) ≡ (contains_char d s || contains_char d t)
contains_char-append d String.[] t = rw nil-append
contains_char-append d (String.◌∷◌ c s) t =
    rw (cons-append, contains_char-append d s t) (ground arith)

-- A text without the separator is one part.
pub split_whole : (sep : Char) (s : String) → contains_char sep s ≡ false → split sep s ≡ s ∷ []
unfolding split
split_whole sep String.[] h = refl
split_whole sep (String.◌∷◌ c s) h = ground (arith, split_whole sep s)
