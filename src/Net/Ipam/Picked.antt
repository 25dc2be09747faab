-- ===== src/Net/Ipam/Picked.antt =====
-- The address that the loop of `AllocateIP` picks.
use microbox.Base.{
  ℕ, zero, suc, ◌<◌, String, Bool, true, false, Option, some, ltb, ◌≡◌, refl, ◌∙◌, ap, arith, inl,
  inr, ◌⊎◌, Bool-cases,
}
use mathlib.Core.List.{List, [], ◌∷◌}
use microbox.Base.Keys.{string_eq, member}
use microbox.Os.{errorf, db, db_get, db_put, Event, Log, ok, Kernel, Io, pure, raise, ◌>>=◌, query}
use microbox.Os.Keeps.{
  Grows, Grows-refl, Grows-one, Grows-trans, Grows-Later, Later, Later-refl, Later-cons,
  Later-trans, Emits, Emits-if, Emits-raise, emits_rules,
}
use microbox.Os.Success.{done, >>=-eq-ok, perform-eq-ok, wrapping-eq-ok, err≢ok}
use microbox.Net.Address.{ip_string}
use microbox.Net.Ipam.{CidrLibrary, put_if_free, consider, pick}
use microbox.Net.Ipam.Leases.{Neutral, CommitsNothing}

module _ (K : Kernel) (L : CidrLibrary) (path bucket : String) (reserved : List String)
    (last : ℕ) where
  looked : ℕ → Event
  looked c = done (db (db_get path bucket (ip_string c)))

  module _ (l l' : Log) where
    -- An address that cannot be given away: it is reserved, or its key was looked up, between the two
    -- logs, and found.
    abbrev pub Busy : ℕ → Type 0
    Busy c =
        (member (ip_string c) reserved ≡ true)
        ⊎ ((k : Log) × Later l k
            × Later (done (db (db_get path bucket (ip_string c))) ∷ k) l'
            × (K.db_has k path bucket (ip_string c) ≡ true))

    -- From the first address on, each was busy, up to the second.
    pub data Skipped : ℕ → ℕ → Type 0 where
      here : {c a : ℕ} → c ≡ a → Skipped c a
      next : {c a : ℕ} → c < last → Busy c → Skipped (L.inc c) a → Skipped c a

  module _ {l k k' l' : Log} (before : Later l k) (after : Later k' l') where
    Busy-widen : (c : ℕ) → Busy k k' c → Busy l l' c
    Busy-widen c (inl r) = inl r
    Busy-widen c (inr (m, p, q, h)) = inr (m, Later-trans l before p, Later-trans _ q after, h)

    pub Skipped-widen : {c a : ℕ} → Skipped k k' c a → Skipped l l' c a
    Skipped-widen (here p) = here p
    Skipped-widen (next h b s) = next h (Busy-widen _ b) (Skipped-widen s)

  -- What is known of the address that was picked, from `cur` on: it is the first that is not busy.
  pub record Picked (cur a : ℕ) (l l' : Log) : Type 0 where
    pub at : Log
    pub clean : Grows Neutral l at
    pub free : K.db_has at path bucket (ip_string a) ≡ false
    pub unreserved : member (ip_string a) reserved ≡ false
    pub below : a < last
    pub skipped : Skipped l l' cur a
    pub stored :
        l'
        ≡ done (db (db_put path bucket (ip_string a)))
          ∷ done (db (db_get path bucket (ip_string a)))
          ∷ at

  later_Picked :
      (cur a : ℕ) (l k l' : Log)
      → cur < last
      → Grows Neutral l k
      → Busy l l' cur
      → Picked (L.inc cur) a k l'
      → Picked cur a l l'
  later_Picked cur a l k l' h g busy p = record {
    at = p.at;
    clean = Grows-trans l k p.at g p.clean;
    free = p.free;
    unreserved = p.unreserved;
    below = p.below;
    skipped = next h busy (Skipped-widen (Grows-Later g) (Later-refl l') p.skipped);
    stored = p.stored;
  }

  pub Picked-Later : (cur : ℕ) {a : ℕ} {l l' : Log} → Picked cur a l l' → Later l l'
  Picked-Later cur p =
      let (calls, grown) =
        Later-cons (done (db (db_put path bucket _)))
          (Later-cons (done (db (db_get path bucket _))) (Grows-Later p.clean)) in
      (calls, p.stored ∙ grown)

  put_if_free-Picked :
      (cur : ℕ) (rest : Io (Option ℕ)) (l : Log) (taken : Bool) {a : ℕ} {l' : Log}
      → cur < last
      → member (ip_string cur) reserved ≡ false
      → K.db_has l path bucket (ip_string cur) ≡ taken
      → ((k : Log) → rest k ≡ (ok (some a), l') → Picked (L.inc cur) a k l')
      → put_if_free K path bucket cur rest taken (looked cur ∷ l) ≡ (ok (some a), l')
      → Picked cur a l l'
  unfolding put_if_free looked
  put_if_free-Picked cur rest l true {a} {l'} h m t ih e =
      let p = ih (looked cur ∷ l) e in
      let found : Busy l l' cur = inr (l, Later-refl l, Picked-Later (L.inc cur) p, t) in
      later_Picked cur a l (looked cur ∷ l) l' h (Grows-one (looked cur) l tt) found p
  put_if_free-Picked cur rest l false {a} {l'} h m t ih e =
      let (_, k, p, q) = >>=-eq-ok _ _ (looked cur ∷ l) e in
      let same : (cur ≡ a) × (k ≡ l') = unfold pure in (cc, cc) in
      rw (← same.0, ← same.1)
        (record {
          at = l;
          clean = Grows-refl l;
          free = t;
          unreserved = m;
          below = h;
          skipped = here refl;
          stored = perform-eq-ok K _ _ (wrapping-eq-ok _ _ _ _ p);
        })

  consider-Picked :
      (cur : ℕ) (rest : Io (Option ℕ)) (l : Log) {a : ℕ} {l' : Log}
      → cur < last
      → ((k : Log) → rest k ≡ (ok (some a), l') → Picked (L.inc cur) a k l')
      → consider K path bucket reserved cur rest l ≡ (ok (some a), l')
      → Picked cur a l l'
  unfolding consider
  consider-Picked cur rest l {a} {l'} h ih e = elim (Bool-cases (member (ip_string cur) reserved)) [
    | inl m ↦ later_Picked cur a l l l' h (Grows-refl l) (inl m) (ih l (rw m at e))
    | inr m ↦
        put_if_free-Picked cur rest l (K.db_has l path bucket (ip_string cur)) h m refl ih
          (unfold ◌>>=◌ query looked in (rw m at e))
  ]

  pub pick-Picked :
      (rounds cur : ℕ) (l : Log) {a : ℕ} {l' : Log}
      → pick K L path bucket reserved last rounds cur l ≡ (ok (some a), l')
      → Picked cur a l l'
  unfolding pick
  pick-Picked zero cur l e = absurd (unfold pure in cc)
  pick-Picked (suc rounds) cur l {a} {l'} e = elim (Bool-cases (ltb cur last)) [
    | inl below ↦
        consider-Picked cur (pick K L path bucket reserved last rounds (L.inc cur)) l (ground arith)
          (λ k p. pick-Picked rounds (L.inc cur) k p) (rw below at e)
    | inr above ↦ absurd (unfold raise in (err≢ok (ap (λ r. r.0) (rw above at e))))
  ]

  put_if_free-CommitsNothing :
      (cur : ℕ) (rest : Io (Option ℕ)) (taken : Bool)
      → Emits CommitsNothing rest
      → Emits CommitsNothing (put_if_free K path bucket cur rest taken)
  unfolding put_if_free
  put_if_free-CommitsNothing cur rest true h = h
  put_if_free-CommitsNothing cur rest false h = search emits_rules

  consider-CommitsNothing :
      (cur : ℕ) (rest : Io (Option ℕ))
      → Emits CommitsNothing rest
      → Emits CommitsNothing (consider K path bucket reserved cur rest)
  unfolding consider
  consider-CommitsNothing cur rest h = search (emits_rules, put_if_free-CommitsNothing)

  -- The loop commits nothing, however it ends.
  pub pick-CommitsNothing :
      (rounds cur : ℕ) → Emits CommitsNothing (pick K L path bucket reserved last rounds cur)
  unfolding pick
  pick-CommitsNothing zero cur = search emits_rules
  pick-CommitsNothing (suc rounds) cur =
      let rest = pick-CommitsNothing rounds (L.inc cur) in
      Emits-if (ltb cur last)
        (consider K path bucket reserved cur
          (pick K L path bucket reserved last rounds (L.inc cur)))
        (raise (errorf "no free IPs in %s" (bucket ∷ []))) (λ _. consider-CommitsNothing cur _ rest)
        (λ _. Emits-raise _)
