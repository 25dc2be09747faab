-- ===== src/Base/Decimal.antt =====
-- Numbers in decimal, as `strconv.Itoa` and `%d` write them, and the number that a text stands for.
pub mod Width
use mathlib.Core.Path.{◌≡◌, refl, ◌∙◌}
use mathlib.Core.Logic.{inl, inr}
use mathlib.Core.Bool.{Bool, true, false, ◌&&◌}
use native.Mathlib.Omega.{arith}
use text.Mathlib.TextLemmas.{nil-append, cons-append}
use Prim.Native.Nat.{ℕ, zero, suc, ◌+◌, ◌-◌, ◌*◌, ◌/◌, ◌%◌, ◌<◌}
use Prim.Native.Char.{Char, code}
use Prim.Native.String.{String, ◌++◌ as ◌<>◌}
use microbox.Base.Text.{contains_char}
use microbox.Base.Tests.{ltb, leb, if◌then◌else◌, Bool-cases}

abbrev digit : ℕ → String
digit zero = "0"
digit (suc zero) = "1"
digit (suc (suc zero)) = "2"
digit (suc (suc (suc zero))) = "3"
digit (suc (suc (suc (suc zero)))) = "4"
digit (suc (suc (suc (suc (suc zero))))) = "5"
digit (suc (suc (suc (suc (suc (suc zero)))))) = "6"
digit (suc (suc (suc (suc (suc (suc (suc zero))))))) = "7"
digit (suc (suc (suc (suc (suc (suc (suc (suc zero)))))))) = "8"
digit _ = "9"

-- One round for each digit; `n` rounds are enough for `n`.
decimal_loop : ℕ → ℕ → String
decimal_loop zero n = ""
decimal_loop (suc f) n =
    let rest = decimal_loop f (n / 10) in if ltb n 10 then digit n else rest <> digit (n % 10)

unfoldable pub decimal : ℕ → String
unfolding decimal_loop
decimal n = decimal_loop (suc n) n

-- The number that the digits of a text stand for, after those of `acc`.
unfoldable pub value_from : ℕ → String → ℕ
value_from acc String.[] = acc
value_from acc (String.◌∷◌ c s) = value_from (acc * 10 + (code c - 48)) s

value_from-append :
    (acc : ℕ) (s t : String) → value_from acc (s <> t) ≡ value_from (value_from acc s) t
unfolding value_from
value_from-append acc String.[] t = rw nil-append
value_from-append acc (String.◌∷◌ c s) t =
    rw cons-append (value_from-append (acc * 10 + (code c - 48)) s t)

value_from-digit : (acc d : ℕ) → d < 10 → value_from acc (digit d) ≡ acc * 10 + d
unfolding value_from
value_from-digit acc zero h = refl
value_from-digit acc (suc zero) h = refl
value_from-digit acc (suc (suc zero)) h = refl
value_from-digit acc (suc (suc (suc zero))) h = refl
value_from-digit acc (suc (suc (suc (suc zero)))) h = refl
value_from-digit acc (suc (suc (suc (suc (suc zero))))) h = refl
value_from-digit acc (suc (suc (suc (suc (suc (suc zero)))))) h = refl
value_from-digit acc (suc (suc (suc (suc (suc (suc (suc zero))))))) h = refl
value_from-digit acc (suc (suc (suc (suc (suc (suc (suc (suc zero)))))))) h = refl
value_from-digit acc (suc (suc (suc (suc (suc (suc (suc (suc (suc d))))))))) h = omega arith

value_from-decimal_loop : (f n : ℕ) → n < f → value_from 0 (decimal_loop f n) ≡ n
unfolding decimal_loop
value_from-decimal_loop zero n h = elim h [ ]
value_from-decimal_loop (suc f) n h = elim (Bool-cases (ltb n 10)) [
  | inl small ↦ rw small (value_from-digit 0 n (ground arith) ∙ omega arith)
  | inr large ↦
      rw (large, value_from-append, value_from-decimal_loop f (n / 10) (ground arith))
        (value_from-digit (n / 10) (n % 10) (omega arith) ∙ omega arith)
]

-- What was written in decimal reads back.
pub value_from-decimal : (n : ℕ) → value_from 0 (decimal n) ≡ n
unfolding decimal
value_from-decimal n = value_from-decimal_loop (suc n) n (omega arith)

-- Whether a text is digits only, and whether it is so and not empty.
unfoldable pub all_digits : String → Bool
all_digits String.[] = true
all_digits (String.◌∷◌ c s) = leb 48 (code c) && leb (code c) 57 && all_digits s

unfoldable pub is_natural : String → Bool
unfolding all_digits
is_natural String.[] = false
is_natural (String.◌∷◌ c s) = all_digits (String.◌∷◌ c s)

all_digits-append : (s t : String) → all_digits (s <> t) ≡ (all_digits s && all_digits t)
unfolding all_digits
all_digits-append String.[] t = rw nil-append
all_digits-append (String.◌∷◌ c s) t = rw (cons-append, all_digits-append s t) (ground arith)

is_natural-append :
    (s t : String) → is_natural s ≡ true → all_digits t ≡ true → is_natural (s <> t) ≡ true
unfolding is_natural all_digits
is_natural-append String.[] t h k = cc
is_natural-append (String.◌∷◌ c s) t h k = rw (cons-append, all_digits-append s t) (ground arith)

is_natural-digit : (d : ℕ) → is_natural (digit d) ≡ true
unfolding is_natural all_digits
is_natural-digit zero = refl
is_natural-digit (suc zero) = refl
is_natural-digit (suc (suc zero)) = refl
is_natural-digit (suc (suc (suc zero))) = refl
is_natural-digit (suc (suc (suc (suc zero)))) = refl
is_natural-digit (suc (suc (suc (suc (suc zero))))) = refl
is_natural-digit (suc (suc (suc (suc (suc (suc zero)))))) = refl
is_natural-digit (suc (suc (suc (suc (suc (suc (suc zero))))))) = refl
is_natural-digit (suc (suc (suc (suc (suc (suc (suc (suc zero)))))))) = refl
is_natural-digit (suc (suc (suc (suc (suc (suc (suc (suc (suc d))))))))) = refl

pub natural_digits : (s : String) → is_natural s ≡ true → all_digits s ≡ true
unfolding is_natural all_digits
natural_digits String.[] h = cc
natural_digits (String.◌∷◌ c s) h = h

is_natural-decimal_loop : (f n : ℕ) → n < f → is_natural (decimal_loop f n) ≡ true
unfolding decimal_loop
is_natural-decimal_loop zero n h = elim h [ ]
is_natural-decimal_loop (suc f) n h = elim (Bool-cases (ltb n 10)) [
  | inl small ↦ rw small (is_natural-digit n)
  | inr large ↦ rw large (
      is_natural-append (decimal_loop f (n / 10)) (digit (n % 10))
        (is_natural-decimal_loop f (n / 10) (ground arith))
        (natural_digits _ (is_natural-digit (n % 10))))
]

pub is_natural-decimal : (n : ℕ) → is_natural (decimal n) ≡ true
unfolding decimal
is_natural-decimal n = is_natural-decimal_loop (suc n) n (omega arith)

-- Digits hold no other character.
pub all_digits-contains_char :
    (c : Char) (s : String)
    → (leb 48 (code c) && leb (code c) 57) ≡ false
    → all_digits s ≡ true
    → contains_char c s ≡ false
unfolding all_digits
all_digits-contains_char c String.[] h d = refl
all_digits-contains_char c (String.◌∷◌ x s) h d = ground (arith, all_digits-contains_char c s h)
