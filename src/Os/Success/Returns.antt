-- ===== src/Os/Success/Returns.antt =====
-- What holds of the value that an action returns and of the log that it leaves.
use mathlib.Core.Path.{◌≡◌, refl}
use mathlib.Core.Bool.{Bool}
use mathlib.Core.List.{List, ◌∷◌}
use native.Mathlib.Omega.{arith}
use Prim.Native.String.{String}
use microbox.Base.{if◌then◌else◌}
use microbox.Os.Errors.{Error}
use microbox.Os.Calls.{Call, Log}
use microbox.Os.Keeps.{Emits, Emits-raise, Grows-trans}
use microbox.Os.Actions.{
  Result, ok, err, Kernel, Io, pure, raise, continue, ◌>>=◌, wrapping, perform,
}
use microbox.Os.Success.{done, >>=-eq-ok, guard-eq-ok, wrapping-eq-ok, perform-eq-ok}

-- `Q` holds of what the action returns and of the log that it leaves, whenever it returns.
pub record Returns {ℓ} {A : Type ℓ} (Q : A → Log → Type 0) (m : Io A) : Type ℓ where
  pub at : (l : Log) (a : A) (l' : Log) → m l ≡ (ok a, l') → Q a l'

module _ {ℓ} {A : Type ℓ} (Q : A → Log → Type 0) where
  pub Returns-guard :
      (b : Bool) (e : Error) (m : Io A) → Returns Q m → Returns Q (if b then raise e else m)
  Returns-guard b e m h = record { at = λ l a l' p. h.at l a l' (guard-eq-ok b e m l p).1 }

  pub Returns-wrapping :
      (format : String) (args : List String) (m : Io A)
      → Returns Q m
      → Returns Q (wrapping format args m)
  Returns-wrapping format args m h = record {
    at = λ l a l' p. h.at l a l' (wrapping-eq-ok format args m l p);
  }

  -- What the last part leaves, the whole leaves.
  pub Returns-bind :
      {B : Type 0} (m : Io B) (f : B → Io A) → ((b : B) → Returns Q (f b)) → Returns Q (m >>= f)
  Returns-bind m f h = record {
    at = λ l a l' p. let (b, k, _, q) = >>=-eq-ok m f l p in (h b).at k a l' q;
  }

  -- The same, where something is known of what the first part returns.
  pub Returns-bind-Returns :
      {B : Type 0} (R : B → Type 0) (m : Io B) (f : B → Io A)
      → Returns (λ b _. R b) m
      → ((b : B) → R b → Returns Q (f b))
      → Returns Q (m >>= f)
  Returns-bind-Returns R m f r h = record {
    at = λ l a l' p. let (b, k, e, q) = >>=-eq-ok m f l p in (h b (r.at l b k e)).at k a l' q;
  }

  pub Returns-pure : (a : A) → ((l : Log) → Q a l) → Returns Q (pure a)
  unfolding pure
  Returns-pure a h = record {
    at = λ l b l' p. let q : (b ≡ a) × (l' ≡ l) = ground arith in rw q.0 (h l');
  }

pub Returns-perform :
    (K : Kernel) (c : Call) → Returns (λ _ l. (k : Log) × (l ≡ done c ∷ k)) (perform K c)
Returns-perform K c = record { at = λ l _ l' p. (l, perform-eq-ok K c l p) }

pub ruleset returns_rules = (Returns-guard, Returns-wrapping, Returns-bind, Returns-pure)

module _ {ℓ κ} {A : Type ℓ} {B : Type κ} {P : Call → Type 0} (Q : A → Type 0) where
  Emits-continue_ok :
      (r : Result A) (f : A → Io B)
      → ((a : A) → r ≡ ok a → Q a)
      → ((a : A) → Q a → Emits P (f a))
      → Emits P (continue r f)
  Emits-continue_ok (ok a) f q h = h a (q a refl)
  Emits-continue_ok (err e) f q h = unfold raise in Emits-raise e

  -- The rest of a sequence may use what is known of the value that it is given.
  pub Emits-bind-Returns :
      (m : Io A) (f : A → Io B)
      → Emits P m
      → Returns (λ a _. Q a) m
      → ((a : A) → Q a → Emits P (f a))
      → Emits P (m >>= f)
  unfolding ◌>>=◌
  Emits-bind-Returns m f hm q h = record {
    at = λ l.
        let (r, l') = m l in
        let known = λ (a : A) (e : r ≡ ok a). q.at l a l' (λ i. (e i, l')) in
        Grows-trans l l' _ (hm.at l) ((Emits-continue_ok r f known h).at l');
  }
