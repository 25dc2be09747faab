-- ===== src/Net/Ipam/Ends.antt =====
-- Where the loop of `AllocateIP` ends, and which address it picks.
use microbox.Base.{
  ℕ, zero, suc, ◌+◌, ◌-◌, ◌^◌, ◌<◌, ◌≤◌, String, Bool, true, false, Option, none, some, ltb, ◌≡◌,
  ◌∙◌, ap, arith, inl, inr, ◌⊎◌, Bool-cases, Option-cases,
}
use microbox.Base.Keys.{string_eq, member}
use microbox.Base.Text.{is_empty}
use mathlib.Core.List.{List, [], ◌∷◌}
use microbox.Os.{Error, errorf, Log, ok, err, Kernel, Io}
use microbox.Os.Success.{
  >>=-eq-ok, pure-eq-ok, raise-eq-ok, wrapping-eq-ok, guard-eq-ok, after_perform, Result-cases,
}
use microbox.Net.Address.{ip_string, parse_cidr, network_of}
use microbox.Net.Ipam.{
  CidrLibrary, IpamOptions, IpamAllocator, put_if_free, consider, pick, with_db, db_update,
  reserve_first, reserved_set, allocated, allocate_in, allocate_parsed, allocate_ip,
}
use microbox.Net.Ipam.Picked.{Busy, Skipped, here, next}
use microbox.Net.Ipam.Leases.{Honest}
use microbox.Net.Ipam.Allocated.{allocate_ip-eq-ok}
use microbox.Net.Ipam.Transactions.{db_update-eq-ok, with_db-eq-ok}

-- go-cidr: the next address is the next number, and the last address has 32 bits.
pub record CidrLaws (L : CidrLibrary) : Type 0 where
  pub next_address : (a : ℕ) → a + 1 < 2 ^ 32 → L.inc a ≡ a + 1
  pub last_address : (a p : ℕ) → (L.address_range (a, p)).1 < 2 ^ 32

nearer : (last cur rounds : ℕ) → cur < last → last - cur < suc rounds → last - (cur + 1) < rounds
nearer last cur rounds h k = omega arith

module _ (K : Kernel) (L : CidrLibrary) (laws : CidrLaws L) (path bucket : String)
    (reserved : List String) (last : ℕ) (bounded : last < 2 ^ 32) where
  put_if_free_ends :
      (cur : ℕ) (rest : Io (Option ℕ)) (taken : Bool) (l : Log) {l' : Log}
      → ((k : Log) → rest k ≡ (ok none, l') → ⊥)
      → put_if_free K path bucket cur rest taken l ≡ (ok none, l')
      → ⊥
  unfolding put_if_free
  put_if_free_ends cur rest true l ih h = ih l h
  put_if_free_ends cur rest false l ih h =
      let (_, k, _, q) = >>=-eq-ok _ _ l h in
      let e : some cur ≡ none = (pure-eq-ok (some cur) k q).0 in cc

  consider_ends :
      (cur : ℕ) (rest : Io (Option ℕ)) (l : Log) {l' : Log}
      → ((k : Log) → rest k ≡ (ok none, l') → ⊥)
      → consider K path bucket reserved cur rest l ≡ (ok none, l')
      → ⊥
  unfolding consider
  consider_ends cur rest l ih h = elim (Bool-cases (member (ip_string cur) reserved)) [
    | inl m ↦ ih l (rw m at h)
    | inr m ↦
        let (taken, k, _, q) = >>=-eq-ok _ _ l (rw m at h) in put_if_free_ends cur rest taken k ih q
  ]

  pick_ends :
      (rounds cur : ℕ) (l : Log) {l' : Log}
      → last - cur < rounds
      → pick K L path bucket reserved last rounds cur l ≡ (ok none, l')
      → ⊥
  unfolding pick
  pick_ends zero cur l h e = absurd (omega arith)
  pick_ends (suc rounds) cur l {l'} h e = elim (Bool-cases (ltb cur last)) [
    | inl below ↦
        let inside : cur < last = ground arith in
        let step : L.inc cur ≡ cur + 1 = laws.next_address cur (omega arith) in
        let left : last - L.inc cur < rounds = rw step (nearer last cur rounds inside h) in
        consider_ends cur (pick K L path bucket reserved last rounds (L.inc cur)) l
          (λ k p. pick_ends rounds (L.inc cur) k left p) (rw below at e)
    | inr above ↦ raise-eq-ok (errorf "no free IPs in %s" (bucket ∷ [])) l (rw above at e)
  ]

  step_next : (cur : ℕ) → cur < last → L.inc cur ≡ cur + 1
  step_next cur h = laws.next_address cur (omega arith)

  module _ (l l' : Log) where
    -- Each address that was passed over was busy.
    Skipped-Busy :
        (cur a b : ℕ)
        → Skipped K L path bucket reserved last l l' cur a
        → cur ≤ b
        → b < a
        → Busy K L path bucket reserved last l l' b
    Skipped-Busy cur a b (here same) from to = absurd (omega (arith, same))
    Skipped-Busy cur a b (next inside busy s) from to = elim (Bool-cases (ltb cur b)) [
      | inl later ↦
          let on : L.inc cur ≤ b = rw (step_next cur inside) (ground arith) in
          Skipped-Busy (L.inc cur) a b s on to
      | inr now ↦ let same : cur ≡ b = ground arith in rw (← same) busy
    ]

module _ (K : Kernel) (L : CidrLibrary) (laws : CidrLaws L) (opts : IpamOptions) where
  reserve_first_ends :
      (path bucket : String) (reserved : List String) (subnet : ℕ × ℕ) (rounds : ℕ) (l : Log)
      {l' : Log}
      → 2 ^ 32 ≤ rounds
      → with_db K path
          (db_update K path
            (reserve_first K L path bucket reserved (L.address_range subnet) rounds))
          l
        ≡ (ok none, l')
      → ⊥
  unfolding reserve_first
  reserve_first_ends path bucket reserved subnet rounds l enough h =
      let (k1, failure, h1, _) = with_db-eq-ok K path _ l h in
      let (k2, h2, _) = db_update-eq-ok K path _ _ h1 in
      let last = (L.address_range subnet).1 in
      let bounded : last < 2 ^ 32 = laws.last_address subnet.0 subnet.1 in
      let enough1 : last - L.inc (L.address_range subnet).0 < rounds = omega arith in
      pick_ends K L laws path bucket reserved last bounded rounds (L.inc (L.address_range subnet).0)
        _ enough1 (after_perform K _ _ _ h2)

  allocate_in_ends :
      (rounds : ℕ) (subnet : ℕ × ℕ) (l : Log) {l' : Log}
      → 2 ^ 32 ≤ rounds
      → allocate_in K L rounds opts subnet l ≡ (ok none, l')
      → ⊥
  unfolding allocate_in allocated
  allocate_in_ends rounds subnet l enough h =
      let (_, k1, _, h1) = >>=-eq-ok _ _ l h in
      let (picked, k2, q, h2) = >>=-eq-ok _ _ k1 h1 in
      let (made, _) = pure-eq-ok _ k2 h2 in
      elim (Option-cases picked) [
        | inl p ↦
            reserve_first_ends _ _ _ subnet rounds k1 enough (wrapping-eq-ok _ _ _ k1 (rw p at q))
        | inr (a, p) ↦ let some_none = rw p at made in cc
      ]

  allocate_ip_not_none :
      (rounds : ℕ) (l : Log) {l' : Log}
      → 2 ^ 32 ≤ rounds
      → allocate_ip K L rounds opts l ≡ (ok none, l')
      → ⊥
  unfolding allocate_ip allocate_parsed
  allocate_ip_not_none rounds l enough h =
      let (_, h1) =
        guard-eq-ok (is_empty opts.subnet_cidr) (errorf "SubnetCIDR must be provided" [])
          (allocate_parsed K L rounds opts (parse_cidr opts.subnet_cidr)) l h in
      elim (Option-cases (parse_cidr opts.subnet_cidr)) [
        | inl p ↦ raise-eq-ok _ l (rw p at h1)
        | inr ((host, prefix), p) ↦
            allocate_in_ends rounds (network_of host prefix, prefix) l enough (rw p at h1)
      ]

  -- With at least 2 ^ 32 rounds, and go-cidr's laws, `AllocateIP` returns an address or an error.
  pub allocate_ip_ends :
      (rounds : ℕ) (l : Log)
      → 2 ^ 32 ≤ rounds
      → ((ia : IpamAllocator) × ((allocate_ip K L rounds opts l).0 ≡ ok (some ia)))
        ⊎ ((e : Error) × ((allocate_ip K L rounds opts l).0 ≡ err e))
  allocate_ip_ends rounds l enough = elim (Result-cases (allocate_ip K L rounds opts l).0) [
    | inr failed ↦ inr failed
    | inl (o, p) ↦ elim (Option-cases o) [
      | inr (ia, q) ↦ inl (ia, p ∙ ap ok q)
      | inl q ↦ absurd (
          allocate_ip_not_none rounds l enough
            (λ i. ((p ∙ ap ok q) i, (allocate_ip K L rounds opts l).1)))
    ]
  ]

  module _ (honest : Honest K) (rounds : ℕ) (l : Log) (ia : IpamAllocator) (l' : Log)
      (small : (L.address_range ia.subnet).0 + 1 < 2 ^ 32)
      (h : allocate_ip K L rounds opts l ≡ (ok (some ia), l')) where
    -- Under the same condition, every address after the subnet's first and before the one that is
    -- returned is reserved, or its key was looked up during the call and found.
    pub allocate_ip_first :
        (b : ℕ)
        → (L.address_range ia.subnet).0 < b
        → b < ia.ip
        → Busy K L ia.db_path ia.bucket
            (reserved_set (L.address_range ia.subnet) opts.reserved)
            (L.address_range ia.subnet).1
            l
            l'
            b
    allocate_ip_first b more less =
        let a = allocate_ip-eq-ok K L opts honest rounds l h in
        let range = L.address_range ia.subnet in
        let start : L.inc range.0 ≡ range.0 + 1 = laws.next_address range.0 small in
        let bounded : range.1 < 2 ^ 32 = laws.last_address ia.subnet.0 ia.subnet.1 in
        let from : L.inc range.0 ≤ b = rw start (omega arith) in
        Skipped-Busy K L laws ia.db_path ia.bucket (reserved_set range opts.reserved) range.1
          bounded l l' (L.inc range.0) ia.ip b a.skipped from less
