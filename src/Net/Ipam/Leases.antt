-- ===== src/Net/Ipam/Leases.antt =====
-- The leases that a log stands for: the keys that committed transactions have put and not deleted.
use microbox.Base.{
  String, Bool, true, false, ◌&&◌, Option, none, some, ◌==◌, if◌then◌else◌, ◌≡◌, refl, ◌∙◌, ap,
  arith,
}
use mathlib.Core.List.{[], ◌∷◌, ◌++◌}
use microbox.Os.{
  Errno, DbCall, db_open, db_close, db_begin, db_commit, db_rollback, db_make_bucket,
  db_find_bucket, db_get, db_put, db_delete, Call, db, Log, Kernel,
}
use microbox.Os.Kinds.{Ordinary}
use microbox.Os.Keeps.{Every, Grows}

-- Whether a key is committed, and whether the open transaction sees it.
abbrev pub Lease : Type 0
Lease = Bool × Bool

module _ (path bucket key : String) where
  abbrev pub db_effect : DbCall → Lease → Lease
  db_effect (db_begin p) (c, w) = if p == path then (c, c) else (c, w)
  db_effect (db_commit p) (c, w) = if p == path then (w, w) else (c, w)
  db_effect (db_rollback p) (c, w) = if p == path then (c, c) else (c, w)
  db_effect (db_put p b k) (c, w) =
      if p == path && b == bucket && k == key then (c, true) else (c, w)
  db_effect (db_delete p b k) (c, w) =
      if p == path && b == bucket && k == key then (c, false) else (c, w)
  db_effect (db_open p) s = s
  db_effect (db_close p) s = s
  db_effect (db_make_bucket p b) s = s
  db_effect (db_find_bucket p b) s = s
  db_effect (db_get p b k) s = s

  -- A call that failed has no effect.
  abbrev pub call_effect : Call → Option Errno → Lease → Lease
  call_effect (db c) none s = db_effect c s
  call_effect (db c) (some e) s = s
  call_effect _ failure s = s

  abbrev pub lease : Log → Lease
  lease [] = (false, false)
  lease (e ∷ l) = call_effect e.call e.failure (lease l)

-- Whether a key of a bucket is leased, after a log.
abbrev pub is_leased : String → String → Log → String → Bool
is_leased path bucket l key = (lease path bucket key l).0

-- What the database promises: a transaction sees what it has put itself and what was committed
-- before, and their buckets. (Other programs may have put more; they do not delete what this one has.)
pub record Honest (K : Kernel) : Type 0 where
  pub sees :
      (l : Log) (path bucket key : String)
      → (lease path bucket key l).1 ≡ true
      → K.db_has l path bucket key ≡ true
  pub sees_bucket :
      (l : Log) (path bucket key : String)
      → (lease path bucket key l).1 ≡ true
      → K.db_has_bucket l path bucket ≡ true

-- Calls that have no effect on any lease, and calls that commit nothing.
abbrev pub NeutralDb : DbCall → Type 0
NeutralDb (db_begin p) = ⊥
NeutralDb (db_commit p) = ⊥
NeutralDb (db_rollback p) = ⊥
NeutralDb (db_put p b k) = ⊥
NeutralDb (db_delete p b k) = ⊥
NeutralDb (db_open p) = Unit
NeutralDb (db_close p) = Unit
NeutralDb (db_make_bucket p b) = Unit
NeutralDb (db_find_bucket p b) = Unit
NeutralDb (db_get p b k) = Unit

abbrev pub Neutral : Call → Type 0
Neutral (db c) = NeutralDb c
Neutral _ = Unit

pub Ordinary-Neutral : (c : Call) → Ordinary c → Neutral c
Ordinary-Neutral (db c) h = absurd h
Ordinary-Neutral _ h = tt

abbrev pub CommitsNothingDb : DbCall → Type 0
CommitsNothingDb (db_commit p) = ⊥
CommitsNothingDb _ = Unit

abbrev pub CommitsNothing : Call → Type 0
CommitsNothing (db c) = CommitsNothingDb c
CommitsNothing _ = Unit

module _ (path bucket key : String) where
  db_effect-NeutralDb : (c : DbCall) (s : Lease) → NeutralDb c → db_effect path bucket key c s ≡ s
  db_effect-NeutralDb (db_begin p) s h = absurd h
  db_effect-NeutralDb (db_commit p) s h = absurd h
  db_effect-NeutralDb (db_rollback p) s h = absurd h
  db_effect-NeutralDb (db_put p b k) s h = absurd h
  db_effect-NeutralDb (db_delete p b k) s h = absurd h
  db_effect-NeutralDb (db_open p) s h = refl
  db_effect-NeutralDb (db_close p) s h = refl
  db_effect-NeutralDb (db_make_bucket p b) s h = refl
  db_effect-NeutralDb (db_find_bucket p b) s h = refl
  db_effect-NeutralDb (db_get p b k) s h = refl

  pub call_effect-Neutral :
      (c : Call) (failure : Option Errno) (s : Lease)
      → Neutral c
      → call_effect path bucket key c failure s ≡ s
  call_effect-Neutral (db c) none s h = db_effect-NeutralDb c s h
  call_effect-Neutral (db c) (some e) s h = refl
  call_effect-Neutral _ failure s h = refl

  lease-append_neutral :
      (k l : Log) → Every Neutral k → lease path bucket key (k ++ l) ≡ lease path bucket key l
  lease-append_neutral [] l h = refl
  lease-append_neutral (e ∷ k) l h =
      call_effect-Neutral e.call e.failure _ h.0 ∙ lease-append_neutral k l h.1

  pub lease-Neutral :
      (l l' : Log) → Grows Neutral l l' → lease path bucket key l' ≡ lease path bucket key l
  lease-Neutral l l' g = ap (lease path bucket key) g.grown ∙ lease-append_neutral g.calls l g.every

  call_effect-CommitsNothing :
      (c : Call) (failure : Option Errno) (s : Lease)
      → CommitsNothing c
      → (call_effect path bucket key c failure s).0 ≡ s.0
  call_effect-CommitsNothing (db (db_begin p)) none (c, w) h = ground arith
  call_effect-CommitsNothing (db (db_commit p)) none s h = absurd h
  call_effect-CommitsNothing (db (db_rollback p)) none (c, w) h = ground arith
  call_effect-CommitsNothing (db (db_put p b k)) none (c, w) h = ground arith
  call_effect-CommitsNothing (db (db_delete p b k)) none (c, w) h = ground arith
  call_effect-CommitsNothing (db (db_open p)) none s h = refl
  call_effect-CommitsNothing (db (db_close p)) none s h = refl
  call_effect-CommitsNothing (db (db_make_bucket p b)) none s h = refl
  call_effect-CommitsNothing (db (db_find_bucket p b)) none s h = refl
  call_effect-CommitsNothing (db (db_get p b k)) none s h = refl
  call_effect-CommitsNothing (db c) (some e) s h = refl
  call_effect-CommitsNothing _ failure s h = refl

  leased-append :
      (k l : Log)
      → Every CommitsNothing k
      → is_leased path bucket (k ++ l) key ≡ is_leased path bucket l key
  leased-append [] l h = refl
  leased-append (e ∷ k) l h =
      call_effect-CommitsNothing e.call e.failure _ h.0 ∙ leased-append k l h.1

  -- Without a commit the leases stay.
  pub leased-CommitsNothing :
      (l l' : Log)
      → Grows CommitsNothing l l'
      → is_leased path bucket l' key ≡ is_leased path bucket l key
  leased-CommitsNothing l l' g =
      ap (λ k. is_leased path bucket k key) g.grown ∙ leased-append g.calls l g.every
