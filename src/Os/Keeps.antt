-- ===== src/Os/Keeps.antt =====
-- What holds of every call that an action makes, whether it returns or fails: one rule for each way
-- to build an action.
use mathlib.Core.Path.{◌≡◌, refl, sym, ap, ◌∙◌}
use mathlib.Core.Bool.{Bool, true, false}
use mathlib.Core.List.{List, [], ◌∷◌, ◌++◌, append_assoc}
use Prim.Native.String.{String}
use microbox.Base.{if◌then◌else◌}
use microbox.Base.Lists.{All, All-append, All-map}
use microbox.Os.Errors.{Error}
use microbox.Os.Calls.{Call, Event, Log, stat, lstat}
use microbox.Os.Actions.{
  Result, ok, err, Reply, got, failed, Kernel, Io, pure, raise, lift, continue, ◌>>=◌, branching,
  choose, wrapping, tolerating, ignoring, perform, answer, do_stat, do_lstat, query, tell, ask,
  finally, attempt, for_each,
}

abbrev pub Every : (Call → Type 0) → Log → Type 0
Every P = All (λ e. P e.call)

-- `l'` is `l` with more calls, all of which have the property.
pub record Grows (P : Call → Type 0) (l l' : Log) : Type 0 where
  pub calls : Log
  pub grown : l' ≡ calls ++ l
  pub every : Every P calls

-- `l'` is `l` with more calls.
abbrev pub Later : Log → Log → Type 0
Later l l' = (calls : Log) × (l' ≡ calls ++ l)

pub Later-refl : (l : Log) → Later l l
Later-refl l = ([], refl)

pub Later-cons : (e : Event) {l l' : Log} → Later l l' → Later l (e ∷ l')
Later-cons e (calls, p) = (e ∷ calls, ap (λ k. e ∷ k) p)

pub Later-trans : (l : Log) {l' l'' : Log} → Later l l' → Later l' l'' → Later l l''
Later-trans l (calls, p) (more, q) =
    (more ++ calls, q ∙ ap (λ k. more ++ k) p ∙ sym (append_assoc more calls l))

pub Grows-Later : {P : Call → Type 0} {l l' : Log} → Grows P l l' → Later l l'
Grows-Later g = (g.calls, g.grown)

module _ {P : Call → Type 0} where
  pub Grows-refl : (l : Log) → Grows P l l
  Grows-refl l = record { calls = []; grown = refl; every = tt }

  pub Grows-one : (e : Event) (l : Log) → P e.call → Grows P l (e ∷ l)
  Grows-one e l h = record { calls = e ∷ []; grown = refl; every = (h, tt) }

  pub Grows-trans : (l l' l'' : Log) → Grows P l l' → Grows P l' l'' → Grows P l l''
  Grows-trans l l' l'' g h = record {
    calls = h.calls ++ g.calls;
    grown = h.grown ∙ ap (λ k. h.calls ++ k) g.grown ∙ sym (append_assoc h.calls g.calls l);
    every = All-append (λ e. P e.call) h.calls g.calls h.every g.every;
  }

-- Every call that the action makes has the property, whatever was called before.
pub record Emits {ℓ} {A : Type ℓ} (P : Call → Type 0) (m : Io A) : Type 0 where
  pub at : (l : Log) → Grows P l (m l).1

module _ {ℓ} {A : Type ℓ} {P : Call → Type 0} where
  pub Emits-pure : (a : A) → Emits P (pure a)
  unfolding pure
  Emits-pure a = record { at = Grows-refl }

  pub Emits-raise : (e : Error) → Emits P (raise {A = A} e)
  unfolding raise
  Emits-raise e = record { at = Grows-refl }

  pub Emits-lift : (r : Result A) → Emits P (lift r)
  unfolding lift
  Emits-lift r = record { at = Grows-refl }

  pub Emits-if :
      (b : Bool) (m n : Io A)
      → (b ≡ true → Emits P m)
      → (b ≡ false → Emits P n)
      → Emits P (if b then m else n)
  Emits-if true m n hm hn = hm refl
  Emits-if false m n hm hn = hn refl

  pub Emits-guard :
      (b : Bool) (e : Error) (m : Io A) → Emits P m → Emits P (if b then raise e else m)
  Emits-guard true e m h = Emits-raise e
  Emits-guard false e m h = h

  pub Emits-attempt : (m : Io A) → Emits P m → Emits P (attempt m)
  unfolding attempt
  Emits-attempt m h = record { at = h.at }

  pub Emits-wrapping :
      (format : String) (args : List String) (m : Io A)
      → Emits P m
      → Emits P (wrapping format args m)
  unfolding wrapping
  Emits-wrapping format args m h = record { at = h.at }

  pub Emits-ignoring : (m : Io A) → Emits P m → Emits P (ignoring m)
  unfolding ignoring
  Emits-ignoring m h = record { at = h.at }

  Emits-answer : (c : Call) (r : Reply A) → P c → Emits P (answer c r)
  Emits-answer c (got a) h = record { at = λ l. Grows-one _ l h }
  Emits-answer c (failed e) h = record { at = λ l. Grows-one _ l h }

module _ {ℓ κ} {A : Type ℓ} {B : Type κ} {P : Call → Type 0} where
  Emits-continue :
      (r : Result A) (f : A → Io B) → ((a : A) → Emits P (f a)) → Emits P (continue r f)
  unfolding raise
  Emits-continue (ok a) f h = h a
  Emits-continue (err e) f h = Emits-raise e

  Emits-choose :
      (r : Result A) (f : A → Io B) (g : Error → Io B)
      → ((a : A) → Emits P (f a))
      → ((e : Error) → Emits P (g e))
      → Emits P (choose r f g)
  Emits-choose (ok a) f g hf hg = hf a
  Emits-choose (err e) f g hf hg = hg e

  pub Emits-branching :
      (m : Io A) (f : A → Io B) (g : Error → Io B)
      → Emits P m
      → ((a : A) → Emits P (f a))
      → ((e : Error) → Emits P (g e))
      → Emits P (branching m f g)
  unfolding branching
  Emits-branching m f g hm hf hg = record {
    at = λ l. let (r, l') = m l in Grows-trans l l' _ (hm.at l) ((Emits-choose r f g hf hg).at l');
  }

  pub Emits-finally : (m : Io A) (n : Io B) → Emits P m → Emits P n → Emits P (finally m n)
  unfolding finally
  Emits-finally m n hm hn = record {
    at = λ l. let (r, l') = m l in Grows-trans l l' _ (hm.at l) (hn.at l');
  }

  pub Emits-bind :
      (m : Io A) (f : A → Io B) → Emits P m → ((a : A) → Emits P (f a)) → Emits P (m >>= f)
  unfolding ◌>>=◌
  Emits-bind m f hm hf = record {
    at = λ l. let (r, l') = m l in Grows-trans l l' _ (hm.at l) ((Emits-continue r f hf).at l');
  }

module _ {P : Call → Type 0} where
  pub Emits-tolerating :
      (p : Error → Bool) (m : Io (Unit {0})) → Emits P m → Emits P (tolerating p m)
  unfolding tolerating
  Emits-tolerating p m h = record { at = h.at }

  pub Emits-perform : (K : Kernel) (c : Call) → P c → Emits P (perform K c)
  unfolding perform
  Emits-perform K c h = record { at = λ l. Grows-one _ l h }

  pub Emits-do_stat : (K : Kernel) (p : String) → P (stat p) → Emits P (do_stat K p)
  unfolding do_stat
  Emits-do_stat K p h = record { at = λ l. (Emits-answer (stat p) (K.stat l p) h).at l }

  pub Emits-do_lstat : (K : Kernel) (p : String) → P (lstat p) → Emits P (do_lstat K p)
  unfolding do_lstat
  Emits-do_lstat K p h = record { at = λ l. (Emits-answer (lstat p) (K.lstat l p) h).at l }

  pub Emits-query {ℓ} : {A : Type ℓ} (c : Call) (f : Log → A) → P c → Emits P (query c f)
  unfolding query
  Emits-query c f h = record { at = λ l. Grows-one _ l h }

  pub Emits-tell : (c : Call) → P c → Emits P (tell c)
  unfolding tell query
  Emits-tell c h = record { at = λ l. Grows-one _ l h }

  pub Emits-ask {ℓ} : {A : Type ℓ} (c : Call) (f : Log → Reply A) → P c → Emits P (ask c f)
  unfolding ask
  Emits-ask c f h = record { at = λ l. (Emits-answer c (f l) h).at l }

  -- The body has the property at each item of the list.
  pub Emits-for_each {ℓ} :
      {A : Type ℓ} (xs : List A) (body : A → Io (Unit {0}))
      → All (λ x. Emits P (body x)) xs
      → Emits P (for_each xs body)
  unfolding for_each
  Emits-for_each [] body h = Emits-pure tt
  Emits-for_each (x ∷ xs) body h =
      Emits-bind (body x) (λ _. for_each xs body) h.0 (λ _. Emits-for_each xs body h.1)

  -- The body has the property whatever the item.
  pub Emits-each {ℓ} :
      {A : Type ℓ} (xs : List A) (body : A → Io (Unit {0}))
      → ((x : A) → Emits P (body x))
      → Emits P (for_each xs body)
  unfolding for_each
  Emits-each [] body h = Emits-pure tt
  Emits-each (x ∷ xs) body h =
      Emits-bind (body x) (λ _. for_each xs body) (h x) (λ _. Emits-each xs body h)

-- What every call of the log had, every call still has.
pub Emits-Every {ℓ} :
    {A : Type ℓ} {P : Call → Type 0} (m : Io A) (l : Log) → Emits P m → Every P l → Every P (m l).1
Emits-Every {P} m l emits every =
    let g = emits.at l in rw g.grown (All-append (λ e. P e.call) g.calls l g.every every)

-- A property that follows from the one that is known.
pub Emits-weaken {ℓ} :
    {A : Type ℓ} {P Q : Call → Type 0} (m : Io A) → ((c : Call) → P c → Q c) → Emits P m → Emits Q m
Emits-weaken m f h = record {
  at = λ l.
      let g = h.at l in
      record {
        calls = g.calls;
        grown = g.grown;
        every = All-map _ _ (λ e. f e.call) g.calls g.every;
      };
}

pub ruleset emits_rules = (
  Emits-pure, Emits-raise, Emits-lift, Emits-guard, Emits-if, Emits-branching, Emits-wrapping,
  Emits-ignoring, Emits-bind, Emits-tolerating, Emits-perform, Emits-do_stat, Emits-do_lstat,
  Emits-for_each, Emits-query, Emits-tell, Emits-ask, Emits-finally, Emits-attempt,
)
