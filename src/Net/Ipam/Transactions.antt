-- ===== src/Net/Ipam/Transactions.antt =====
-- What transactions do to the leases.
use microbox.Base.{
  String, Bool, true, not, ◌&&◌, ◌||◌, Option, ◌==◌, ◌≡◌, refl, ◌∙◌, sym, ap, arith, inl, inr,
  Bool-cases, eq_iff,
}
use mathlib.Core.List.{◌∷◌}
use microbox.Base.Keys.{string_eq}
use microbox.Os.{
  Errno, Error, db, db_open, db_close, db_begin, db_commit, db_rollback, db_put, db_delete, Log,
  Result, ok, err, Kernel, Io, pure, raise, ◌>>◌, ignoring, finally, perform,
}
use microbox.Os.Keeps.{Grows, Emits, emits_rules}
use microbox.Os.Success.{
  done, >>=-eq-ok, >>=-eq-err, perform-eq-ok, perform-eq-err, finally-eq-ok, branching-cases,
  after_perform, ok-injective, err≢ok, ok≢err,
}
use microbox.Net.Ipam.{with_db, in_transaction, db_update}
use microbox.Net.Ipam.Leases.{
  Lease, db_effect, is_leased, lease, call_effect-Neutral, lease-Neutral, Neutral, CommitsNothing,
  leased-CommitsNothing,
}

-- An action that commits nothing changes no lease, whatever it returns.
pub kept :
    {A : Type 0} (f : Io A)
    → Emits CommitsNothing f
    → (path bucket key : String) (l : Log) {r : Result A} {l' : Log} → f l ≡ (r, l')
    → is_leased path bucket l' key ≡ is_leased path bucket l key
kept f quiet path bucket key l h =
    rw (ap (λ r. r.1) (sym h)) (leased-CommitsNothing path bucket key l (f l).1 (quiet.at l))

module _ (path bucket key : String) where
  pub after_close :
      (failure : Option Errno) (l : Log)
      → is_leased path bucket (record { call = db (db_close path); failure = failure } ∷ l) key
        ≡ is_leased path bucket l key
  after_close failure l =
      ap (λ s. s.0)
        (call_effect-Neutral path bucket key (db (db_close path)) failure (lease path bucket key l)
          tt)

  -- A transaction that has begun sees what is committed.
  pub begun_sees :
      (l : Log)
      → (lease path bucket key (done (db (db_begin path)) ∷ l)).1 ≡ is_leased path bucket l key
  begun_sees l = let same : (path == path) ≡ true = (eq_iff path path).1 refl in rw same refl

module _ {A : Type 0} (K : Kernel) (path : String) (f : Io A) where
  pub db_update-eq-ok :
      (l : Log) {a : A} {l' : Log}
      → db_update K path f l ≡ (ok a, l')
      → (k : Log) × (f (done (db (db_begin path)) ∷ l) ≡ (ok a, k))
        × (l' ≡ done (db (db_commit path)) ∷ k)
  unfolding db_update in_transaction
  db_update-eq-ok l {a} {l'} h =
      let h1 = after_perform K _ _ l h in
      elim (branching-cases f (λ x. perform K (db (db_commit path)) >> pure x)
        (λ e. ignoring (perform K (db (db_rollback path))) >> raise {A = A} e)
        (done (db (db_begin path)) ∷ l)) [
          | inl (x, k, p, q) ↦
              let (_, k', c, r) = >>=-eq-ok _ _ k (sym q ∙ h1) in
              let same : (x ≡ a) × (k' ≡ l') =
                unfold pure in (ok-injective (ap (λ z. z.0) r), ap (λ z. z.1) r) in
              (k, p ∙ ap (λ z. (ok z, k)) same.0, sym same.1 ∙ perform-eq-ok K _ k c)
          | inr (e, k, p, q) ↦
              let (_, k', _, r) = >>=-eq-ok _ _ k (sym q ∙ h1) in
              absurd (unfold raise in (err≢ok (ap (λ z. z.0) r)))
        ]

  pub with_db-eq-ok :
      (l : Log) {a : A} {l' : Log}
      → with_db K path f l ≡ (ok a, l')
      → (k : Log) × (r : Option Errno) × (f (done (db (db_open path)) ∷ l) ≡ (ok a, k))
        × (l' ≡ record { call = db (db_close path); failure = r } ∷ k)
  unfolding with_db
  with_db-eq-ok l h =
      let (k, p, q) =
        finally-eq-ok f (perform K (db (db_close path))) _ (after_perform K _ _ l h) in
      (k, K.act k (db (db_close path)), p, q ∙ (unfold perform in refl))

  module _ (bucket key : String) (quiet : Emits CommitsNothing f) where
    rolled_back :
        (e : Error)
        → Emits CommitsNothing (ignoring (perform K (db (db_rollback path))) >> raise {A = A} e)
    rolled_back e = search emits_rules

    begun :
        (l : Log)
        → is_leased path bucket (done (db (db_begin path)) ∷ l) key ≡ is_leased path bucket l key
    begun l = ground arith

    in_transaction-err :
        (l : Log) {e : Error} {l' : Log}
        → in_transaction K path f l ≡ (err e, l')
        → is_leased path bucket l' key ≡ is_leased path bucket l key
    unfolding in_transaction
    in_transaction-err l {e} {l'} h =
        elim (branching-cases f (λ x. perform K (db (db_commit path)) >> pure x)
          (λ e. ignoring (perform K (db (db_rollback path))) >> raise {A = A} e) l) [
            | inl (x, k, p, q) ↦ elim (>>=-eq-err _ _ k (sym q ∙ h)) [
              | inl c ↦
                  let (y, r) = perform-eq-err K _ k c in rw r (kept f quiet path bucket key l p)
              | inr (_, k', _, r) ↦ absurd (unfold pure in (ok≢err (ap (λ z. z.0) r)))
            ]
            | inr (e', k, p, q) ↦
                kept _ (rolled_back e') path bucket key k (sym q ∙ h)
                ∙ kept f quiet path bucket key l p
          ]

    -- A transaction that fails changes no lease.
    pub db_update-err :
        (l : Log) {e : Error} {l' : Log}
        → db_update K path f l ≡ (err e, l')
        → is_leased path bucket l' key ≡ is_leased path bucket l key
    unfolding db_update
    db_update-err l {e} {l'} h = elim (>>=-eq-err _ _ l h) [
      | inl p ↦ let (x, q) = perform-eq-err K _ l p in rw q refl
      | inr (_, l1, p, h1) ↦
          in_transaction-err l1 h1
          ∙ ap (λ z. is_leased path bucket z key) (perform-eq-ok K _ l p)
          ∙ begun l
    ]

  -- Opening and closing change no lease.
  module _ (bucket key : String) where
    pub with_db-err :
        ((l : Log) (e : Error) (l' : Log)
          → f l ≡ (err e, l')
          → is_leased path bucket l' key ≡ is_leased path bucket l key)
        → (l : Log) {e : Error} {l' : Log} → with_db K path f l ≡ (err e, l')
        → is_leased path bucket l' key ≡ is_leased path bucket l key
    unfolding with_db
    with_db-err same l {e} {l'} h = elim (>>=-eq-err _ _ l h) [
      | inl p ↦ let (x, q) = perform-eq-err K _ l p in rw q refl
      | inr (_, l1, p, h1) ↦
          let closed : (f l1 ≡ (err e, (f l1).1))
              × (l'
                  ≡ record {
                    call = db (db_close path);
                    failure = K.act (f l1).1 (db (db_close path));
                  }
                    ∷ (f l1).1) =
            unfold finally perform in ((λ i. ((h1 i).0, (f l1).1)), sym (ap (λ r. r.1) h1)) in
          rw closed.1 (
            after_close path bucket key (K.act (f l1).1 (db (db_close path))) (f l1).1
            ∙ same l1 e (f l1).1 closed.0)
          ∙ ap (λ z. is_leased path bucket z key) (perform-eq-ok K _ l p)
    ]

-- One key more, one key fewer, and the same keys.
abbrev pub Took : String → (String → Bool) → (String → Bool) → Type 0
Took key f g = (k : String) → g k ≡ (key == k || f k)

abbrev pub Freed : String → (String → Bool) → (String → Bool) → Type 0
Freed key f g = (k : String) → g k ≡ (not (key == k) && f k)

abbrev pub Unchanged : (String → Bool) → (String → Bool) → Type 0
Unchanged f g = (k : String) → g k ≡ f k

self : (s : String) → (s == s) ≡ true
self s = (eq_iff s s).1 refl

module _ (path bucket key q : String) where
  put_effect :
      (s : Lease)
      → (db_effect path bucket q (db_commit path) (
          db_effect path bucket q
            (db_put path bucket key)
            (db_effect path bucket q (db_begin path) s))).0
        ≡ (key == q || s.0)
  put_effect (c, w) = elim (Bool-cases (key == q)) [
    | inl p ↦ rw (self path, self bucket, p) refl
    | inr p ↦ rw (self path, self bucket, p) refl
  ]

  delete_effect :
      (s : Lease)
      → (db_effect path bucket q (db_commit path) (
          db_effect path bucket q
            (db_delete path bucket key)
            (db_effect path bucket q (db_begin path) s))).0
        ≡ (not (key == q) && s.0)
  delete_effect (c, w) = elim (Bool-cases (key == q)) [
    | inl p ↦ rw (self path, self bucket, p) refl
    | inr p ↦ rw (self path, self bucket, p) refl
  ]

  commit_effect :
      (s : Lease)
      → (db_effect path bucket q (db_commit path) (db_effect path bucket q (db_begin path) s)).0
        ≡ s.0
  commit_effect (c, w) = rw (self path) refl

module _ (path bucket : String) where
  -- A committed put of one key takes it, and a committed delete frees it.
  pub put-Took :
      (key : String) (l k : Log)
      → Grows Neutral (done (db (db_begin path)) ∷ l) k
      → Took key (is_leased path bucket l) (
          is_leased path bucket
            (done (db (db_commit path)) ∷ done (db (db_put path bucket key)) ∷ k))
  put-Took key l k g q =
      ap
        (λ s.
          (db_effect path bucket q (db_commit path)
            (db_effect path bucket q (db_put path bucket key) s)).0)
        (lease-Neutral path bucket q (done (db (db_begin path)) ∷ l) k g)
      ∙ put_effect path bucket key q (lease path bucket q l)

  pub delete-Freed :
      (key : String) (l k : Log)
      → Grows Neutral (done (db (db_begin path)) ∷ l) k
      → Freed key (is_leased path bucket l) (
          is_leased path bucket
            (done (db (db_commit path)) ∷ done (db (db_delete path bucket key)) ∷ k))
  delete-Freed key l k g q =
      ap
        (λ s.
          (db_effect path bucket q (db_commit path)
            (db_effect path bucket q (db_delete path bucket key) s)).0)
        (lease-Neutral path bucket q (done (db (db_begin path)) ∷ l) k g)
      ∙ delete_effect path bucket key q (lease path bucket q l)

  pub commit-Unchanged :
      (l k : Log)
      → Grows Neutral (done (db (db_begin path)) ∷ l) k
      → Unchanged (is_leased path bucket l) (is_leased path bucket (done (db (db_commit path)) ∷ k))
  commit-Unchanged l k g q =
      ap (λ s. (db_effect path bucket q (db_commit path) s).0)
        (lease-Neutral path bucket q (done (db (db_begin path)) ∷ l) k g)
      ∙ commit_effect path bucket q q (lease path bucket q l)
