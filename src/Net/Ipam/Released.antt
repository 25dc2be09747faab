-- ===== src/Net/Ipam/Released.antt =====
-- What `Release` does to the leases.
use microbox.Base.{
  String, Bool, true, false, not, ◌&&◌, ◌==◌, if◌then◌else◌, ◌≡◌, ◌∙◌, sym, arith, inl, inr,
  Bool-cases,
}
use mathlib.Core.Bool.{false≢true}
use mathlib.Core.List.{◌∷◌}
use microbox.Os.{
  Error, db, db_open, db_begin, db_commit, db_find_bucket, db_delete, Log, ok, err, Kernel, Io,
  pure, ◌>>=◌, query, perform,
}
use microbox.Os.Keeps.{Grows, Grows-one, Emits, emits_rules}
use microbox.Os.Success.{done, perform-eq-ok, pure-eq-ok}
use microbox.Net.Address.{ip_string}
use microbox.Net.Ipam.{IpamAllocator, db_update, delete_key, release}
use microbox.Net.Ipam.Leases.{is_leased, Honest, Neutral, CommitsNothing}
use microbox.Net.Ipam.Transactions.{
  db_update-eq-ok, with_db-eq-ok, db_update-err, with_db-err, after_close, begun_sees, Freed,
  Unchanged, delete-Freed, commit-Unchanged,
}

nothing_freed : (x leased : Bool) → leased ≡ false → (not x && leased) ≡ false
nothing_freed x leased h = ground arith

module _ (K : Kernel) (ia : IpamAllocator) where
  delete_or_not : Bool → Io (Unit {0})
  delete_or_not there =
      if there then perform K (db (db_delete ia.db_path ia.bucket (ip_string ia.ip))) else pure tt

  delete_or_not-CommitsNothing : (there : Bool) → Emits CommitsNothing (delete_or_not there)
  unfolding delete_or_not
  delete_or_not-CommitsNothing true = search emits_rules
  delete_or_not-CommitsNothing false = search emits_rules

  delete_key-CommitsNothing : Emits CommitsNothing (delete_key K ia)
  unfolding delete_key delete_or_not
  delete_key-CommitsNothing = search (emits_rules, delete_or_not-CommitsNothing)

  -- The bucket of a leased address is seen.
  unseen :
      Honest K
      → (l : Log) (q : String)
      → K.db_has_bucket (done (db (db_begin ia.db_path)) ∷ l) ia.db_path ia.bucket ≡ false
      → is_leased ia.db_path ia.bucket l q ≡ false
  unseen honest l q h = elim (Bool-cases (is_leased ia.db_path ia.bucket l q)) [
    | inr free ↦ free
    | inl leased ↦ absurd (
        false≢true (
          sym h
          ∙ honest.sees_bucket _ ia.db_path ia.bucket q
              (begun_sees ia.db_path ia.bucket q l ∙ leased)))
  ]

  delete_key-Freed :
      Honest K
      → (l : Log) {k : Log} → delete_key K ia (done (db (db_begin ia.db_path)) ∷ l) ≡ (ok tt, k)
      → Freed
          (ip_string ia.ip)
          (is_leased ia.db_path ia.bucket l)
          (is_leased ia.db_path ia.bucket (done (db (db_commit ia.db_path)) ∷ k))
  unfolding delete_key ◌>>=◌ query
  delete_key-Freed honest l {k} h q =
      let begun = done (db (db_begin ia.db_path)) ∷ l in
      let looked = done (db (db_find_bucket ia.db_path ia.bucket)) ∷ begun in
      let g : Grows Neutral begun looked = Grows-one _ begun tt in
      elim (Bool-cases (K.db_has_bucket begun ia.db_path ia.bucket)) [
        | inl there ↦
            rw
              (perform-eq-ok K (db (db_delete ia.db_path ia.bucket (ip_string ia.ip))) looked
                (rw there at h))
              (delete-Freed ia.db_path ia.bucket (ip_string ia.ip) l looked g q)
        | inr gone ↦
            let same : looked ≡ k = (pure-eq-ok tt looked (rw gone at h)).1 in
            let free = unseen honest l q gone in
            rw (← same) (
              commit-Unchanged ia.db_path ia.bucket l looked g q
              ∙ free
              ∙ sym
                  (nothing_freed (ip_string ia.ip == q) (is_leased ia.db_path ia.bucket l q) free))
      ]

  -- A release that succeeds frees the address, and nothing else.
  pub release-eq-ok :
      Honest K
      → (l : Log) {l' : Log} → release K ia l ≡ (ok tt, l')
      → Freed
          (ip_string ia.ip)
          (is_leased ia.db_path ia.bucket l)
          (is_leased ia.db_path ia.bucket l')
  unfolding release
  release-eq-ok honest l {l'} h q =
      let (k1, failure, h1, closed) = with_db-eq-ok K ia.db_path _ l h in
      let opened = done (db (db_open ia.db_path)) ∷ l in
      let (k2, h2, committed) = db_update-eq-ok K ia.db_path _ opened h1 in
      rw (closed, committed)
        (after_close ia.db_path ia.bucket q failure (done (db (db_commit ia.db_path)) ∷ k2)
          ∙ delete_key-Freed honest opened h2 q)

  pub release-eq-err :
      (l : Log) {e : Error} {l' : Log}
      → release K ia l ≡ (err e, l')
      → Unchanged (is_leased ia.db_path ia.bucket l) (is_leased ia.db_path ia.bucket l')
  unfolding release
  release-eq-err l {e} {l'} h key =
      with_db-err K ia.db_path (db_update K ia.db_path (delete_key K ia)) ia.bucket key
        (λ k x k' p.
          db_update-err K ia.db_path (delete_key K ia) ia.bucket key delete_key-CommitsNothing k p)
        l h
