-- ===== src/Net/Ipam/Succeeds.antt =====
-- When a release succeeds.
use microbox.Base.{none, ◌∷◌, ◌≡◌, refl, ◌∙◌, sym, ap, inl, inr, Bool-cases}
use microbox.Os.{
  DbCall, db, db_open, db_close, db_begin, db_commit, db_rollback, db_delete, db_find_bucket, Log,
  ok, Kernel, pure, raise, ◌>>=◌, ◌>>◌, query, ignoring, finally, perform,
}
use microbox.Os.Success.{done, bind_ok, branching-cases, ok≢err}
use microbox.Net.Address.{ip_string}
use microbox.Net.Ipam.{IpamAllocator, with_db, in_transaction, db_update, delete_key, release}

-- Where no call of the database fails, a release succeeds.
module _ (K : Kernel) (ia : IpamAllocator)
    (fine : (l : Log) (c : DbCall) → K.act l (db c) ≡ none) where
  step : (c : DbCall) (l : Log) → perform K (db c) l ≡ (ok tt, done (db c) ∷ l)
  unfolding perform
  step c l = rw (fine l c) refl

  delete_fine : (l : Log) → (k : Log) × (delete_key K ia l ≡ (ok tt, k))
  unfolding delete_key ◌>>=◌ query
  delete_fine l = elim (Bool-cases (K.db_has_bucket l ia.db_path ia.bucket)) [
    | inl there ↦ rw there (
      done (db (db_delete ia.db_path ia.bucket (ip_string ia.ip)))
          ∷ done (db (db_find_bucket ia.db_path ia.bucket))
          ∷ l,
      step _ _,
    )
    | inr gone ↦
        rw gone (done (db (db_find_bucket ia.db_path ia.bucket)) ∷ l, (unfold pure in refl))
  ]

  update_fine : (l : Log) → (k : Log) × (db_update K ia.db_path (delete_key K ia) l ≡ (ok tt, k))
  unfolding db_update in_transaction
  update_fine l =
      let begun = done (db (db_begin ia.db_path)) ∷ l in
      let (k0, deleted) = delete_fine begun in
      elim (branching-cases (delete_key K ia) (λ a. perform K (db (db_commit ia.db_path)) >> pure a)
        (λ e. ignoring (perform K (db (db_rollback ia.db_path))) >> raise {A = Unit {0}} e) begun) [
          | inl (a, k, p, q) ↦ (
            done (db (db_commit ia.db_path)) ∷ k,
            bind_ok _ _ l (step (db_begin ia.db_path) l)
                ∙ q
                ∙ bind_ok _ _ k (step (db_commit ia.db_path) k)
                ∙ (unfold pure in refl),
          )
          | inr (e, k, p, q) ↦ absurd (ok≢err (ap (λ r. r.0) (sym deleted ∙ p)))
        ]

  pub release_fine : (l : Log) → (k : Log) × (release K ia l ≡ (ok tt, k))
  unfolding release with_db finally
  release_fine l =
      let opened = done (db (db_open ia.db_path)) ∷ l in
      let (k, updated) = update_fine opened in
      (
        (perform K (db (db_close ia.db_path)) k).1,
        bind_ok _ _ l (step (db_open ia.db_path) l)
            ∙ ap (λ r. (r.0, (perform K (db (db_close ia.db_path)) r.1).1)) updated,
      )
