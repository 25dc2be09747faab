-- ===== src/Os/Success/Steps.antt =====
-- How an action goes on, from what its first part has done.
use mathlib.Core.Path.{◌≡◌, refl, ap, sym}
use mathlib.Core.Logic.{◌⊎◌, inl, inr}
use microbox.Os.Errors.{Error}
use microbox.Os.Calls.{Log}
use microbox.Os.Actions.{Result, ok, err, Io, continue, ◌>>=◌, branching, choose, finally}

module _ {ℓ} {A : Type ℓ} where
  pub Result-cases : (r : Result A) → ((a : A) × (r ≡ ok a)) ⊎ ((e : Error) × (r ≡ err e))
  Result-cases (ok a) = inl (a, refl)
  Result-cases (err e) = inr (e, refl)

-- A sequence whose first part returns goes on from the log that it leaves.
pub bind_returned {ℓ κ} :
    {A : Type ℓ} {B : Type κ} (m : Io A) (f : A → Io B) (l : Log) {a : A}
    → (m l).0 ≡ ok a
    → (m >>= f) l ≡ f a (m l).1
unfolding ◌>>=◌
bind_returned m f l h = ap (λ r. continue r f (m l).1) h

pub bind_ok {ℓ κ} :
    {A : Type ℓ} {B : Type κ} (m : Io A) (f : A → Io B) (l : Log) {a : A} {k : Log}
    → m l ≡ (ok a, k)
    → (m >>= f) l ≡ f a k
unfolding ◌>>=◌
bind_ok m f l h = ap (λ r. continue r.0 f r.1) h

pub bind_err {ℓ κ} :
    {A : Type ℓ} {B : Type κ} (m : Io A) (f : A → Io B) (l : Log) {e : Error} {k : Log}
    → m l ≡ (err e, k)
    → (m >>= f) l ≡ (err e, k)
unfolding ◌>>=◌
bind_err m f l h = ap (λ r. continue r.0 f r.1) h

continue_log {ℓ κ} :
    {A : Type ℓ} {B : Type κ} (Q : Log → Type 0) (r : Result A) (f : A → Io B) (l : Log)
    → ((e : Error) → r ≡ err e → Q l)
    → ((a : A) → r ≡ ok a → Q (f a l).1)
    → Q (continue r f l).1
continue_log Q (ok a) f l h g = g a refl
continue_log Q (err e) f l h g = h e refl

-- The log that a sequence leaves, whichever part was its last.
pub bind_log {ℓ κ} :
    {A : Type ℓ} {B : Type κ} (Q : Log → Type 0) (m : Io A) (f : A → Io B) (l : Log)
    → ((e : Error) → (m l).0 ≡ err e → Q (m l).1)
    → ((a : A) → (m l).0 ≡ ok a → Q (f a (m l).1).1)
    → Q ((m >>= f) l).1
unfolding ◌>>=◌
bind_log Q m f l h g = continue_log Q (m l).0 f (m l).1 h g

choose_log {ℓ κ} :
    {A : Type ℓ} {B : Type κ} (Q : Log → Type 0) (r : Result A) (f : A → Io B) (g : Error → Io B)
    (l : Log)
    → ((a : A) → r ≡ ok a → Q (f a l).1)
    → ((e : Error) → r ≡ err e → Q (g e l).1)
    → Q (choose r f g l).1
choose_log Q (ok a) f g l hf hg = hf a refl
choose_log Q (err e) f g l hf hg = hg e refl

-- The same of a branch on an error.
pub branching_log {ℓ κ} :
    {A : Type ℓ} {B : Type κ} (Q : Log → Type 0) (m : Io A) (f : A → Io B) (g : Error → Io B)
    (l : Log)
    → ((a : A) → (m l).0 ≡ ok a → Q (f a (m l).1).1)
    → ((e : Error) → (m l).0 ≡ err e → Q (g e (m l).1).1)
    → Q (branching m f g l).1
unfolding branching
branching_log Q m f g l hf hg = choose_log Q (m l).0 f g (m l).1 hf hg

-- What was deferred ran last, and its result is dropped.
pub finally-eq-ok {ℓ κ} :
    {A : Type ℓ} {B : Type κ} (m : Io A) (n : Io B) (l : Log) {a : A} {l' : Log}
    → finally m n l ≡ (ok a, l')
    → (k : Log) × (m l ≡ (ok a, k)) × (l' ≡ (n k).1)
unfolding finally
finally-eq-ok m n l h = ((m l).1, λ i. ((h i).0, (m l).1), sym (ap (λ r. r.1) h))

choose_same {ℓ κ} :
    {A : Type ℓ} {B : Type κ} (r : Result A) (f : A → Io B) (g h : Error → Io B) (l : Log)
    → ((e : Error) → g e l ≡ h e l)
    → choose r f g l ≡ choose r f h l
choose_same (ok a) f g h l same = refl
choose_same (err e) f g h l same = same e

-- Two actions that differ in what follows an error.
pub branching_same {ℓ κ} :
    {A : Type ℓ} {B : Type κ} (m : Io A) (f : A → Io B) (g h : Error → Io B) (l : Log)
    → ((e : Error) → g e (m l).1 ≡ h e (m l).1)
    → branching m f g l ≡ branching m f h l
unfolding branching
branching_same m f g h l same = choose_same (m l).0 f g h (m l).1 same

-- Either way on from an action.
pub branching-cases {ℓ κ} :
    {A : Type ℓ} {B : Type κ} (m : Io A) (f : A → Io B) (g : Error → Io B) (l : Log)
    → ((a : A) × (k : Log) × (m l ≡ (ok a, k)) × (branching m f g l ≡ f a k))
      ⊎ ((e : Error) × (k : Log) × (m l ≡ (err e, k)) × (branching m f g l ≡ g e k))
unfolding branching
branching-cases m f g l = elim (Result-cases (m l).0) [
  | inl (a, p) ↦ inl (a, (m l).1, λ i. (p i, (m l).1), ap (λ r. choose r f g (m l).1) p)
  | inr (e, p) ↦ inr (e, (m l).1, λ i. (p i, (m l).1), ap (λ r. choose r f g (m l).1) p)
]
