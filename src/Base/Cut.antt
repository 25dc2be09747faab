-- ===== src/Base/Cut.antt =====
-- `strings.Cut` at one character, and `strings.SplitN` into two.
use mathlib.Core.Path.{◌≡◌, refl, sym, ap}
use mathlib.Core.Bool.{true, false}
use mathlib.Core.Logic.{inl, inr}
use mathlib.Core.Option.{Option, none, some}
use native.Mathlib.Omega.{arith}
use text.Mathlib.TextLemmas.{nil-append, cons-append}
use text.Mathlib.TextEquality.{Char-path}
use Prim.Native.Char.{Char, code}
use Prim.Native.String.{String, ◌++◌ as ◌<>◌}
use microbox.Base.Tests.{◌=ᵇ◌, if◌then◌else◌, Bool-cases}
use microbox.Base.Text.{contains_char}

abbrev cons_before : Char → Option (String × String) → Option (String × String)
cons_before c (some (a, b)) = some (String.◌∷◌ c a, b)
cons_before c none = none

-- The text before and after the first such character: `none` if there is none.
unfoldable pub cut : Char → String → Option (String × String)
cut sep String.[] = none
cut sep (String.◌∷◌ c s) =
    let rest = cut sep s in if code c =ᵇ code sep then some (String.[], s) else cons_before c rest

pub cut-append :
    (sep : Char) (a b : String)
    → contains_char sep a ≡ false
    → cut sep (a <> String.◌∷◌ sep b) ≡ some (a, b)
unfolding cut
cut-append sep String.[] b h =
    let same : (code sep =ᵇ code sep) ≡ true = ground arith in rw (nil-append) (rw same refl)
cut-append sep (String.◌∷◌ c a) b h =
    let split_h : ((code c =ᵇ code sep) ≡ false) × (contains_char sep a ≡ false) =
      (ground arith, ground arith) in
    rw (cons-append) (rw (split_h.0, cut-append sep a b split_h.1) refl)

cons_before-some :
    (c : Char) (o : Option (String × String)) (a b : String)
    → cons_before c o ≡ some (a, b)
    → (a' : String) × (o ≡ some (a', b)) × (a ≡ String.◌∷◌ c a')
cons_before-some c (some (x, y)) a b h =
    let same : ((String.◌∷◌ c x) ≡ a) × (y ≡ b) = (cc, cc) in
    (x, ap (λ z. some (x, z)) same.1, sym same.0)
cons_before-some c none a b h = absurd (cc)

module _ (sep c : Char) (s : String) where
  cut_here :
      (a b : String)
      → (code c =ᵇ code sep) ≡ true
      → ◌≡◌ {A = Option (String × String)} (some (String.[], s)) (some (a, b))
      → (String.◌∷◌ c s ≡ a <> String.◌∷◌ sep b) × (contains_char sep a ≡ false)
  cut_here a b p h =
      let same : (String.[] ≡ a) × (s ≡ b) = (cc, cc) in
      let char_same : c ≡ sep = Char-path c sep (ground arith) in
      rw (← same.0, ← same.1) (rw (nil-append, char_same) refl, refl)

  cut_later :
      (a b : String)
      → (code c =ᵇ code sep) ≡ false
      → ((a' : String)
          → cut sep s ≡ some (a', b)
          → (s ≡ a' <> String.◌∷◌ sep b) × (contains_char sep a' ≡ false))
      → cons_before c (cut sep s) ≡ some (a, b)
      → (String.◌∷◌ c s ≡ a <> String.◌∷◌ sep b) × (contains_char sep a ≡ false)
  cut_later a b p ih h =
      let (a', q, e) = cons_before-some c (cut sep s) a b h in
      let (whole, plain) = ih a' q in
      rw e (rw cons-append (ap (λ t. String.◌∷◌ c t) whole), ground arith)

-- What was cut is the text again, and its first part has no such character.
pub cut-some :
    (sep : Char) (s a b : String)
    → cut sep s ≡ some (a, b)
    → (s ≡ a <> String.◌∷◌ sep b) × (contains_char sep a ≡ false)
unfolding cut
cut-some sep String.[] a b h = absurd (cc)
cut-some sep (String.◌∷◌ c s) a b h = elim (Bool-cases (code c =ᵇ code sep)) [
  | inl p ↦ cut_here sep c s a b p (rw p at h)
  | inr p ↦ cut_later sep c s a b p (λ a' q. cut-some sep s a' b q) (rw p at h)
]
