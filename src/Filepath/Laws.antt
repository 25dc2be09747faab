-- ===== src/Filepath/Laws.antt =====
-- Where a joined path lies.
use mathlib.Core.List.{
  reverse, foldl-append, reverse-append, append_assoc, reverse-cons, reverse-reverse,
}
use text.Mathlib.TextLemmas.{cons-append}
use microbox.Base.{
  String, ◌<>◌, Bool, true, false, ◌||◌, List, [], ◌∷◌, ◌++◌, ◌==◌, if◌then◌else◌, ◌≡◌, refl, arith,
  ◌∙◌, Bool-cases, inl, inr,
}
use microbox.Base.Lists.{All, contains}
use microbox.Base.Text.{split, is_empty, split-append}
use microbox.Filepath.{slash, join, clean, is_abs, clean_parts, clean_step, render}

-- The parts of a text, none of which is `..`.
abbrev pub NoDotdot : String → Type 0
NoDotdot p = contains (split slash p) ".." ≡ false

-- The parts that cleaning keeps when there is no `..`.
unfoldable pub normal : List String → List String
normal [] = []
normal (part ∷ parts) =
    let rest = normal parts in if is_empty part || part == "." then rest else part ∷ rest

-- The parts of a cleaned absolute path.
unfoldable pub parts_of : String → List String
parts_of p = reverse (clean_parts true [] (split slash p))

-- A path at or below `base`: the parts of `base`, and more.
abbrev pub IsUnder : String → String → Type 0
IsUnder base p = (rest : List String) × (p ≡ render true (parts_of base ++ rest))

contains-All :
    (parts : List String) → contains parts ".." ≡ false → All (λ part. (part == "..") ≡ false) parts
contains-All [] h = tt
contains-All (part ∷ parts) h = (ground arith, contains-All parts (ground arith))

clean_step_normal :
    (kept : List String) (part : String)
    → (part == "..") ≡ false
    → clean_step true kept part ≡ (if is_empty part || part == "." then kept else part ∷ kept)
unfolding clean_step
clean_step_normal [] part h = rw h
clean_step_normal (last ∷ kept) part h = rw h

clean_parts-normal :
    (parts kept : List String)
    → All (λ part. (part == "..") ≡ false) parts
    → clean_parts true kept parts ≡ reverse (normal parts) ++ kept
unfolding clean_parts normal
clean_parts-normal [] kept h = refl
clean_parts-normal (part ∷ parts) kept h = elim (Bool-cases (is_empty part || part == ".")) [
  | inl e ↦ rw (clean_step_normal kept part h.0, e) (clean_parts-normal parts kept h.1)
  | inr e ↦
      rw (clean_step_normal kept part h.0, e)
        (clean_parts-normal parts (part ∷ kept) h.1 ∙ simp (reverse-cons, append_assoc))
]

clean_parts-append :
    (rooted : Bool) (kept xs ys : List String)
    → clean_parts rooted kept (xs ++ ys) ≡ clean_parts rooted (clean_parts rooted kept xs) ys
unfolding clean_parts
clean_parts-append rooted kept xs ys = foldl-append (clean_step rooted) kept xs ys

-- An absolute base and a second element are cleaned one after the other.
join_parts :
    (base sub : String)
    → is_abs base ≡ true
    → join base sub
      ≡ render true
          (reverse (clean_parts true (clean_parts true [] (split slash base)) (split slash sub)))
unfolding join clean
join_parts String.[] sub h = cc
join_parts (String.◌∷◌ c base) sub h =
    rw (split-append slash (String.◌∷◌ c base) sub, clean_parts-append)
      (rw (cons-append) (rw h refl))

-- The join of an absolute base with a path that has no `..`: the base's parts, then the path's.
pub join-normal :
    (base sub : String)
    → is_abs base ≡ true
    → NoDotdot sub
    → join base sub ≡ render true (parts_of base ++ normal (split slash sub))
unfolding parts_of
join-normal base sub h n =
    join_parts base sub h
    ∙ rw
        (clean_parts-normal (split slash sub) _ (contains-All _ n), reverse-append, reverse-reverse)

pub join-IsUnder :
    (base sub : String) → is_abs base ≡ true → NoDotdot sub → IsUnder base (join base sub)
join-IsUnder base sub h n = (normal (split slash sub), join-normal base sub h n)

-- Below a base that is one directory, a path in `/../` leads to the host's root.
pub join_escapes :
    (d : String) → join "/box" ("/.." <> String.◌∷◌ slash d) ≡ clean (String.◌∷◌ slash d)
unfolding clean split clean_parts
join_escapes d =
    join_parts "/box" ("/.." <> String.◌∷◌ slash d) refl
    ∙ rw (split-append slash "/.." d, clean_parts-append)
