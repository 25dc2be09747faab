-- ===== src/Net/Ipam/Reserved.antt =====
-- What the transaction of `AllocateIP` does to the leases.
use mathlib.Core.Bool.{false≢true}
use microbox.Base.{ℕ, ◌<◌, String, false, some, ◌≡◌, ◌∙◌, sym, ap, inl, inr, Bool-cases}
use mathlib.Core.List.{List, [], ◌∷◌}
use microbox.Base.Keys.{string_eq, member}
use microbox.Os.{
  Error, db, db_open, db_close, db_begin, db_commit, db_make_bucket, db_get, db_put, Log, ok, err,
  Kernel,
}
use microbox.Os.Keeps.{
  Grows, Grows-one, Grows-trans, Later, Later-refl, Later-cons, Emits, emits_rules,
}
use microbox.Os.Success.{done, after_perform}
use microbox.Net.Address.{ip_string}
use microbox.Net.Ipam.{CidrLibrary, with_db, db_update, reserve_first}
use microbox.Net.Ipam.Leases.{is_leased, Honest, Neutral, CommitsNothing, lease-Neutral}
use microbox.Net.Ipam.Picked.{Skipped, Skipped-widen, pick-Picked, pick-CommitsNothing}
use microbox.Net.Ipam.Transactions.{
  db_update-eq-ok, with_db-eq-ok, db_update-err, with_db-err, after_close, begun_sees, Took,
  Unchanged, put-Took,
}

module _ (K : Kernel) (L : CidrLibrary) (path bucket : String) (reserved : List String)
    (range : ℕ × ℕ) where
  -- What a transaction that has reserved an address has picked, and what it has done.
  pub record Reserved (a : ℕ) (l l' : Log) : Type 0 where
    pub unreserved : member (ip_string a) reserved ≡ false
    pub below : a < range.1
    pub skipped : Skipped K L path bucket reserved range.1 l l' (L.inc range.0) a
    pub took : Took (ip_string a) (is_leased path bucket l) (is_leased path bucket l')
    pub fresh : is_leased path bucket l (ip_string a) ≡ false

  pub reserve-Reserved :
      Honest K
      → (rounds a : ℕ) (l : Log) {l' : Log}
      → with_db K path (db_update K path (reserve_first K L path bucket reserved range rounds)) l
        ≡ (ok (some a), l')
      → Reserved a l l'
  unfolding reserve_first
  reserve-Reserved honest rounds a l {l'} h =
      let (k1, failure, h1, closed) = with_db-eq-ok K path _ l h in
      let (k2, h2, committed) = db_update-eq-ok K path _ (done (db (db_open path)) ∷ l) h1 in
      let begun = done (db (db_begin path)) ∷ done (db (db_open path)) ∷ l in
      let h3 = after_perform K _ _ begun h2 in
      let made = done (db (db_make_bucket path bucket)) ∷ begun in
      let p = pick-Picked K L path bucket reserved range.1 rounds (L.inc range.0) made h3 in
      let before : Later l made = Later-cons _ (Later-cons _ (Later-cons _ (Later-refl l))) in
      let after : Later k2 l' = (
        record { call = db (db_close path); failure = failure } ∷ done (db (db_commit path)) ∷ [],
        closed ∙ ap (λ z. record { call = db (db_close path); failure = failure } ∷ z) committed,
      ) in
      let clean : Grows Neutral begun p.at =
        Grows-trans begun made p.at (Grows-one _ begun tt) p.clean in
      let looked = done (db (db_get path bucket (ip_string a))) ∷ p.at in
      record {
        unreserved = p.unreserved;
        below = p.below;
        skipped = Skipped-widen K L path bucket reserved range.1 before after p.skipped;
        took = λ key.
            rw (closed, committed, p.stored)
              (after_close path bucket key failure (
                  done (db (db_commit path))
                  ∷ done (db (db_put path bucket (ip_string a)))
                  ∷ looked)
                ∙ put-Took path bucket (ip_string a) (done (db (db_open path)) ∷ l) looked
                    (Grows-trans begun p.at looked clean (Grows-one _ p.at tt)) key);
        fresh = elim (Bool-cases (is_leased path bucket l (ip_string a))) [
          | inr free ↦ free
          | inl leased ↦
              let pending =
                ap (λ s. s.1) (lease-Neutral path bucket (ip_string a) begun p.at clean)
                ∙ begun_sees path bucket (ip_string a) (done (db (db_open path)) ∷ l)
                ∙ leased in
              let seen = honest.sees p.at path bucket (ip_string a) pending in
              absurd (false≢true (sym p.free ∙ seen))
        ];
      }

  transaction-CommitsNothing :
      (rounds : ℕ) → Emits CommitsNothing (reserve_first K L path bucket reserved range rounds)
  unfolding reserve_first
  transaction-CommitsNothing rounds = search (emits_rules, pick-CommitsNothing)

  pub reserve-Unchanged :
      (rounds : ℕ) (l : Log) {e : Error} {l' : Log}
      → with_db K path (db_update K path (reserve_first K L path bucket reserved range rounds)) l
        ≡ (err e, l')
      → Unchanged (is_leased path bucket l) (is_leased path bucket l')
  reserve-Unchanged rounds l {e} {l'} h key =
      with_db-err K path (db_update K path (reserve_first K L path bucket reserved range rounds))
        bucket key
        (λ k x k' p.
          db_update-err K path (reserve_first K L path bucket reserved range rounds) bucket key
            (transaction-CommitsNothing rounds) k p)
        l h
