-- ===== src/Os/Preserves.antt =====
-- What an action keeps true of the log, whatever it returns: one rule for each way to build an action.
use mathlib.Core.Bool.{Bool, true, false}
use mathlib.Core.List.{List}
use Prim.Native.String.{String}
use microbox.Base.{if◌then◌else◌}
use microbox.Os.Calls.{Call, Log}
use microbox.Os.Actions.{Io, pure, ◌>>=◌, wrapping, ignoring, finally}
use microbox.Os.Keeps.{Emits, Grows}
use microbox.Os.Success.{bind_log}

pub record Preserves {ℓ} {A : Type ℓ} (I : Log → Type 0) (m : Io A) : Type 0 where
  pub at : (l : Log) → I l → I (m l).1

module _ {ℓ} {A : Type ℓ} {I : Log → Type 0} where
  pub Preserves-pure : (a : A) → Preserves I (pure a)
  unfolding pure
  Preserves-pure a = record { at = λ l h. h }

  pub Preserves-if :
      (b : Bool) (m n : Io A) → Preserves I m → Preserves I n → Preserves I (if b then m else n)
  Preserves-if true m n hm hn = hm
  Preserves-if false m n hm hn = hn

  pub Preserves-wrapping :
      (format : String) (args : List String) (m : Io A)
      → Preserves I m
      → Preserves I (wrapping format args m)
  unfolding wrapping
  Preserves-wrapping format args m h = record { at = h.at }

  pub Preserves-ignoring : (m : Io A) → Preserves I m → Preserves I (ignoring m)
  unfolding ignoring
  Preserves-ignoring m h = record { at = h.at }

  pub Preserves-bind {κ} :
      {B : Type κ} (m : Io A) (f : A → Io B)
      → Preserves I m
      → ((a : A) → Preserves I (f a))
      → Preserves I (m >>= f)
  Preserves-bind m f hm hf = record {
    at = λ l h. bind_log I m f l (λ _ _. hm.at l h) (λ a _. (hf a).at (m l).1 (hm.at l h));
  }

  pub Preserves-finally {κ} :
      {B : Type κ} (m : Io A) (n : Io B) → Preserves I m → Preserves I n → Preserves I (finally m n)
  unfolding finally
  Preserves-finally m n hm hn = record { at = λ l h. hn.at (m l).1 (hm.at l h) }

  -- Where the calls that are made cannot make it false.
  pub Preserves-Emits :
      {P : Call → Type 0} (m : Io A)
      → Emits P m
      → ((l l' : Log) → Grows P l l' → I l → I l')
      → Preserves I m
  Preserves-Emits m e h = record { at = λ l. h l (m l).1 (e.at l) }

pub ruleset preserves_rules = (
  Preserves-pure, Preserves-if, Preserves-wrapping, Preserves-ignoring, Preserves-bind,
  Preserves-finally,
)
