-- ===== src/Filepath.antt =====
-- Go's `path/filepath` on Unix, as the program uses it: `Clean`, `Join` of two elements, `Dir` and
-- `IsAbs`. A path is cleaned over the list of its parts between slashes.
pub mod Laws
use Prim.Native.String
use mathlib.Core.List.{reverse, foldl}
use microbox.Base.{
  Char, code, String, ◌<>◌, Bool, true, false, not, ◌&&◌, ◌||◌, Option, none, some, List, [], ◌∷◌,
  ◌++◌, ◌==◌, if◌then◌else◌, ◌=ᵇ◌,
}
use microbox.Base.Text.{split, join_with, is_empty}

abbrev pub slash : Char
slash = "/"

-- One part, against the parts kept so far (the last first). A `..` takes the last one away; at the
-- root it is dropped, and in front of a relative path it stays.
unfoldable pub clean_step : Bool → List String → String → List String
clean_step rooted [] part =
    if is_empty part || part == "."
    then []
    else if part == ".."
    then (if rooted then [] else ".." ∷ [])
    else part ∷ []
clean_step rooted (last ∷ kept) part =
    if is_empty part || part == "."
    then last ∷ kept
    else if part == ".."
    then (if not rooted && last == ".." then ".." ∷ last ∷ kept else kept)
    else part ∷ last ∷ kept

unfoldable pub clean_parts : Bool → List String → List String → List String
unfolding clean_step
clean_parts rooted = foldl (clean_step rooted)

abbrev pub is_abs : String → Bool
is_abs String.[] = false
is_abs (String.◌∷◌ c s) = code c =ᵇ code slash

-- The text of a cleaned path.
unfoldable pub render : Bool → List String → String
render true parts = String.◌∷◌ slash (join_with slash parts)
render false [] = "."
render false (part ∷ parts) = join_with slash (part ∷ parts)

unfoldable pub clean : String → String
clean p = let rooted = is_abs p in render rooted (reverse (clean_parts rooted [] (split slash p)))

-- `filepath.Join(base, sub)`: empty elements in front are left out.
unfoldable pub join : String → String → String
join base sub =
    if is_empty base
    then (if is_empty sub then "" else clean sub)
    else clean (base <> String.◌∷◌ slash sub)

-- The text up to its last slash.
upto_slash : String → Option String
upto_slash String.[] = none
upto_slash (String.◌∷◌ c s) = elim (upto_slash s) [
  | some r ↦ some (String.◌∷◌ c r)
  | none ↦ if code c =ᵇ code slash then some "/" else none
]

-- `filepath.Dir`
unfoldable pub dir : String → String
unfolding upto_slash
dir p = elim (upto_slash p) [ some r ↦ clean r | none ↦ clean "" ]
