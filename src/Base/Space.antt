-- ===== src/Base/Space.antt =====
-- Texts cut at white space, at a prefix, and read as integers: parts of Go's `strings`, `bytes` and
-- `strconv`.
use Prim.Native.Nat.{ℕ, zero, suc, ◌^◌}
use Prim.Native.Char.{Char, code}
use Prim.Native.String.{String}
use mathlib.Core.Bool.{Bool, true, false, ◌&&◌, ◌||◌}
use mathlib.Core.Option.{Option, none, some}
use mathlib.Core.List.{List, [], ◌∷◌}
use mathlib.Core.Path.{◌≡◌, refl}
use microbox.Base.Tests.{ltb, leb, ◌=ᵇ◌, if◌then◌else◌}
use microbox.Base.Text.{is_empty}
use microbox.Base.Decimal.{value_from, is_natural}

-- `unicode.IsSpace`
unfoldable pub is_space : Char → Bool
is_space c =
    let n = code c in
    (leb 9 n && leb n 13)
    || n =ᵇ 0x20
    || n =ᵇ 0x85
    || n =ᵇ 0xa0
    || n =ᵇ 0x1680
    || (leb 0x2000 n && leb n 0x200a)
    || n =ᵇ 0x2028
    || n =ᵇ 0x2029
    || n =ᵇ 0x202f
    || n =ᵇ 0x205f
    || n =ᵇ 0x3000

unfoldable pub trim_left : String → String
trim_left String.[] = String.[]
trim_left (String.◌∷◌ c s) = let rest = trim_left s in if is_space c then rest else String.◌∷◌ c s

unfoldable pub trim_right : String → String
trim_right String.[] = String.[]
trim_right (String.◌∷◌ c s) =
    let rest = trim_right s in if is_empty rest && is_space c then String.[] else String.◌∷◌ c rest

-- `strings.TrimSpace`
unfoldable pub trim_space : String → String
unfolding trim_left trim_right is_space
trim_space s = trim_right (trim_left s)

-- The text after a prefix.
unfoldable pub after_prefix : String → String → Option String
after_prefix String.[] s = some s
after_prefix (String.◌∷◌ p ps) String.[] = none
after_prefix (String.◌∷◌ p ps) (String.◌∷◌ c s) =
    if code p =ᵇ code c then after_prefix ps s else none

-- `strings.TrimPrefix`
unfoldable pub trim_prefix : String → String → String
unfolding after_prefix
trim_prefix p s = elim (after_prefix p s) [ some rest ↦ rest | none ↦ s ]

-- `strings.HasPrefix`
unfoldable pub has_prefix : String → String → Bool
unfolding after_prefix
has_prefix p s = elim (after_prefix p s) [ some rest ↦ true | none ↦ false ]

-- The words after a word that begins the text, if it is one.
keep_word : String → List String → List String
keep_word String.[] ws = ws
keep_word (String.◌∷◌ c w) ws = (String.◌∷◌ c w) ∷ ws

-- The word that begins the text, which may be empty, and the words after it.
words : String → String × List String
unfolding keep_word is_space
words String.[] = (String.[], [])
words (String.◌∷◌ c s) =
    let rest = words s in
    if is_space c then (String.[], keep_word rest.0 rest.1) else (String.◌∷◌ c rest.0, rest.1)

-- `bytes.Fields`
unfoldable pub fields : String → List String
unfolding words keep_word
fields s = keep_word (words s).0 (words s).1

-- Go's `int`.
pub data ℤ : Type 0 where
  pos negsuc : ℕ → ℤ

parse_pos : String → Option ℤ
unfolding is_natural value_from
parse_pos s =
    if is_natural s && ltb (value_from 0 s) (2 ^ 63) then some (pos (value_from 0 s)) else none

minus : ℕ → ℤ
minus zero = pos 0
minus (suc n) = negsuc n

parse_neg : String → Option ℤ
unfolding is_natural value_from minus
parse_neg s =
    if is_natural s && leb (value_from 0 s) (2 ^ 63) then some (minus (value_from 0 s)) else none

-- `strconv.Atoi` and `strconv.ParseInt(s, 10, 64)`: `none` is an error.
unfoldable pub atoi : String → Option ℤ
unfolding parse_pos parse_neg
atoi String.[] = none
atoi (String.◌∷◌ c s) =
    if code c =ᵇ 43
    then parse_pos s
    else if code c =ᵇ 45
    then parse_neg s
    else parse_pos (String.◌∷◌ c s)

test_fields : fields " 12  -7\n" ≡ "12" ∷ "-7" ∷ []
unfolding fields
test_fields = refl

test_atoi : atoi "-7" ≡ some (negsuc 6)
unfolding atoi
test_atoi = refl
