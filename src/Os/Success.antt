-- ===== src/Os/Success.antt =====
-- What is known of the parts of an action that has returned a value.
mod Steps
pub mod Returns
pub use Steps.*
use mathlib.Core.Path.{◌≡◌, refl, ap, sym}
use mathlib.Core.Bool.{Bool, true, false}
use mathlib.Core.Logic.{◌⊎◌, inl, inr}
use mathlib.Core.Option.{none, some}
use mathlib.Core.List.{List, ◌∷◌}
use native.Mathlib.Omega.{arith}
use Prim.Native.String.{String}
use microbox.Base.{if◌then◌else◌, Option-cases}
use microbox.Os.Errors.{Errno, Error}
use microbox.Os.Calls.{FileKind, Call, Event, Log, stat}
use microbox.Os.Keeps.{Emits, Emits-raise, Grows-trans}
use microbox.Os.Actions.{
  Result, ok, err, Reply, got, failed, Kernel, Io, pure, raise, continue, ◌>>=◌, ◌>>◌, wrap_result,
  branching, choose, wrapping, finally, perform, answer, do_stat, query, tell,
}

-- The event of a call that succeeded.
abbrev pub done : Call → Event
done c = record { call = c; failure = none }

module _ {ℓ} {A : Type ℓ} where
  pub ok-injective : {a b : A} → ok a ≡ ok b → a ≡ b
  ok-injective h = cc

  pub err≢ok : {e : Error} {a : A} → err e ≡ ok a → ⊥
  err≢ok h = cc

  pub ok≢err : {e : Error} {a : A} → ok a ≡ err e → ⊥
  ok≢err h = cc

  pub pure-eq-ok : (a : A) (l : Log) {b : A} {l' : Log} → pure a l ≡ (ok b, l') → (a ≡ b) × (l ≡ l')
  unfolding pure
  pure-eq-ok a l h = (ok-injective (ap (λ r. r.0) h), ap (λ r. r.1) h)

  pub pure-eq-err : (a : A) (l : Log) {e : Error} {l' : Log} → pure a l ≡ (err e, l') → ⊥
  unfolding pure
  pure-eq-err a l h = ok≢err (ap (λ r. r.0) h)

  pub raise-eq-ok : (e : Error) (l : Log) {a : A} {l' : Log} → raise e l ≡ (ok a, l') → ⊥
  unfolding raise
  raise-eq-ok e l h = err≢ok (ap (λ r. r.0) h)

module _ {ℓ κ} {A : Type ℓ} {B : Type κ} where
  continue-eq-ok :
      (r : Result A) (f : A → Io B) (l : Log) {b : B} {l' : Log}
      → continue r f l ≡ (ok b, l')
      → (a : A) × (r ≡ ok a) × (f a l ≡ (ok b, l'))
  continue-eq-ok (ok a) f l h = (a, refl, h)
  continue-eq-ok (err e) f l h = cc

  -- A sequence that returned has run both its parts.
  pub >>=-eq-ok :
      (m : Io A) (f : A → Io B) (l : Log) {b : B} {l' : Log}
      → (m >>= f) l ≡ (ok b, l')
      → (a : A) × (k : Log) × (m l ≡ (ok a, k)) × (f a k ≡ (ok b, l'))
  unfolding ◌>>=◌
  >>=-eq-ok m f l h =
      let (a, p, q) = continue-eq-ok (m l).0 f (m l).1 h in
      (a, (m l).1, ap (λ r. (r, (m l).1)) p, q)

  continue-eq-err :
      (r : Result A) (f : A → Io B) (l : Log) {e : Error} {l' : Log}
      → continue r f l ≡ (err e, l')
      → ((r ≡ err e) × (l ≡ l')) ⊎ ((a : A) × (r ≡ ok a) × (f a l ≡ (err e, l')))
  continue-eq-err (ok a) f l h = inr (a, refl, h)
  continue-eq-err (err e') f l {e} {l'} h =
      let same : (e' ≡ e) × (l ≡ l') = (cc, cc) in inl (ap err same.0, same.1)

  -- A sequence that failed has failed in one of its parts.
  pub >>=-eq-err :
      (m : Io A) (f : A → Io B) (l : Log) {e : Error} {l' : Log}
      → (m >>= f) l ≡ (err e, l')
      → (m l ≡ (err e, l')) ⊎ ((a : A) × (k : Log) × (m l ≡ (ok a, k)) × (f a k ≡ (err e, l')))
  unfolding ◌>>=◌
  >>=-eq-err m f l h = elim (continue-eq-err (m l).0 f (m l).1 h) [
    | inl (p, q) ↦ inl (λ i. (p i, q i))
    | inr (a, p, q) ↦ inr (a, (m l).1, ap (λ r. (r, (m l).1)) p, q)
  ]

module _ {ℓ} {A : Type ℓ} where
  -- `if bad { return err }`, passed.
  pub guard-eq-ok :
      (b : Bool) (e : Error) (m : Io A) (l : Log) {a : A} {l' : Log}
      → (if b then raise e else m) l ≡ (ok a, l')
      → (b ≡ false) × (m l ≡ (ok a, l'))
  unfolding raise
  guard-eq-ok true e m l h = cc
  guard-eq-ok false e m l h = (refl, h)

  wrap_result-eq-ok :
      (format : String) (args : List String) (r : Result A) {a : A}
      → wrap_result format args r ≡ ok a
      → r ≡ ok a
  wrap_result-eq-ok format args (ok a) h = h
  wrap_result-eq-ok format args (err e) h = cc

  pub wrapping-eq-ok :
      (format : String) (args : List String) (m : Io A) (l : Log) {a : A} {l' : Log}
      → wrapping format args m l ≡ (ok a, l')
      → m l ≡ (ok a, l')
  unfolding wrapping
  wrapping-eq-ok format args m l {a} {l'} h =
      let p : (m l).0 ≡ ok a = wrap_result-eq-ok format args (m l).0 (λ i. (h i).0) in
      λ i. (p i, (h i).1)

  wrap_result-eq-err :
      (format : String) (args : List String) (r : Result A) {e : Error}
      → wrap_result format args r ≡ err e
      → (e' : Error) × (r ≡ err e')
  wrap_result-eq-err format args (ok a) h = cc
  wrap_result-eq-err format args (err e') h = (e', refl)

  pub wrapping-eq-err :
      (format : String) (args : List String) (m : Io A) (l : Log) {e : Error} {l' : Log}
      → wrapping format args m l ≡ (err e, l')
      → (e' : Error) × (m l ≡ (err e', l'))
  unfolding wrapping
  wrapping-eq-err format args m l {e} {l'} h =
      let (e', p) = wrap_result-eq-err format args (m l).0 (ap (λ r. r.0) h) in
      (e', λ i. (p i, (h i).1))

-- A call that returned was logged as a success.
pub perform-eq-ok :
    (K : Kernel) (c : Call) (l : Log) {u : Unit {0}} {l' : Log}
    → perform K c l ≡ (ok u, l')
    → l' ≡ done c ∷ l
unfolding perform
perform-eq-ok K c l h = ground arith

-- A call that failed was logged as a failure.
pub perform-eq-err :
    (K : Kernel) (c : Call) (l : Log) {e : Error} {l' : Log}
    → perform K c l ≡ (err e, l')
    → (x : Errno) × (l' ≡ record { call = c; failure = some x } ∷ l)
unfolding perform
perform-eq-err K c l {e} {l'} h = elim (Option-cases (K.act l c)) [
  | inl p ↦ absurd (ok≢err (ap (λ r. r.0) (rw p at h)))
  | inr (x, p) ↦ (x, sym (ap (λ r. r.1) (rw p at h)))
]

pub answer-eq-ok {ℓ} :
    {A : Type ℓ} (c : Call) (r : Reply A) (l : Log) {a : A} {l' : Log}
    → answer c r l ≡ (ok a, l')
    → (l' ≡ done c ∷ l) × (r ≡ got a)
answer-eq-ok c (got a) l h =
    (sym (ap (λ r. r.1) h), ap (λ x. got x) (ok-injective (ap (λ r. r.0) h)))
answer-eq-ok c (failed e) l h = absurd (err≢ok (ap (λ r. r.0) h))

pub do_stat-eq-ok :
    (K : Kernel) (p : String) (l : Log) {kind : FileKind} {l' : Log}
    → do_stat K p l ≡ (ok kind, l')
    → l' ≡ done (stat p) ∷ l
unfolding do_stat
do_stat-eq-ok K p l h = (answer-eq-ok (stat p) (K.stat l p) l h).0

-- A question was logged and answered from what was called before it.
pub query-eq-ok {ℓ} :
    {A : Type ℓ} (c : Call) (f : Log → A) (l : Log) {a : A} {l' : Log}
    → query c f l ≡ (ok a, l')
    → (f l ≡ a) × (done c ∷ l ≡ l')
unfolding query
query-eq-ok c f l h = (ok-injective (ap (λ r. r.0) h), ap (λ r. r.1) h)

-- A sequence that returned, after the success of its first call.
module _ {ℓ} {A : Type ℓ} (K : Kernel) (c : Call) (m : Io A) (l : Log) {a : A} {l' : Log} where
  pub after_perform : (perform K c >> m) l ≡ (ok a, l') → m (done c ∷ l) ≡ (ok a, l')
  after_perform h = let (_, k, p, q) = >>=-eq-ok _ _ l h in rw (← perform-eq-ok K c l p) q

  pub after_tell : (tell c >> m) l ≡ (ok a, l') → m (done c ∷ l) ≡ (ok a, l')
  unfolding tell query ◌>>=◌
  after_tell h = h

  pub after_wrapping :
      (format : String) (args : List String)
      → (wrapping format args (perform K c) >> m) l ≡ (ok a, l')
      → m (done c ∷ l) ≡ (ok a, l')
  after_wrapping format args h =
      let (_, k, p, q) = >>=-eq-ok _ _ l h in
      rw (← perform-eq-ok K c l (wrapping-eq-ok format args _ l p)) q
