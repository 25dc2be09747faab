-- ===== src/Base/Decimal/Width.antt =====
-- How long a number is in decimal.
use mathlib.Core.Path.{◌≡◌, refl}
use mathlib.Core.Logic.{inl, inr}
use mathlib.Core.Bool.{true}
use native.Mathlib.Omega.{arith}
use text.Mathlib.TextLemmas.{length-append}
use Prim.Native.Nat.{ℕ, zero, suc, ◌*◌, ◌/◌, ◌%◌, ◌≤◌, ◌<◌}
use Prim.Native.String.{count}
use microbox.Base.Tests.{ltb, Bool-cases}
use microbox.Base.Decimal.{digit, decimal_loop, decimal}

-- The first number that has more than `k` digits.
abbrev pub power : ℕ → ℕ
power zero = 1
power (suc k) = 10 * power k

length-digit : (d : ℕ) → count (digit d) ≡ 1
length-digit zero = refl
length-digit (suc zero) = refl
length-digit (suc (suc zero)) = refl
length-digit (suc (suc (suc zero))) = refl
length-digit (suc (suc (suc (suc zero)))) = refl
length-digit (suc (suc (suc (suc (suc zero))))) = refl
length-digit (suc (suc (suc (suc (suc (suc zero)))))) = refl
length-digit (suc (suc (suc (suc (suc (suc (suc zero))))))) = refl
length-digit (suc (suc (suc (suc (suc (suc (suc (suc zero)))))))) = refl
length-digit (suc (suc (suc (suc (suc (suc (suc (suc (suc d))))))))) = refl

length-decimal_loop : (f n k : ℕ) → n < f → n < power (suc k) → count (decimal_loop f n) ≤ suc k
unfolding decimal_loop
length-decimal_loop zero n k h p = absurd (omega arith)
length-decimal_loop (suc f) n zero h p =
    let small : ltb n 10 ≡ true = ground arith in rw (small, length-digit n) (omega arith)
length-decimal_loop (suc f) n (suc k) h p = elim (Bool-cases (ltb n 10)) [
  | inl small ↦ rw (small, length-digit n) (omega arith)
  | inr large ↦
      let shorter = length-decimal_loop f (n / 10) k (ground arith) (omega arith) in
      rw (large, length-append, length-digit (n % 10)) (omega (arith, shorter))
]

pub length-decimal : (n k : ℕ) → n < power (suc k) → count (decimal n) ≤ suc k
unfolding decimal
length-decimal n k p = length-decimal_loop (suc n) n k (omega arith) p
