-- ===== src/Net/Ipam/Allocated.antt =====
-- What `AllocateIP` does to the leases.
use microbox.Base.{
  ℕ, ◌<◌, String, false, Option, none, some, ◌≡◌, refl, ◌∙◌, sym, ap, inl, inr, Bool-cases,
  Option-cases,
}
use mathlib.Core.List.{List, []}
use microbox.Base.Keys.{string_eq, member}
use microbox.Base.Text.{is_empty}
use microbox.Os.{Error, errorf, Log, ok, err, Kernel, raise, wrapping, os_mkdir_all}
use microbox.Os.Keeps.{Later, Later-refl, Later-cons}
use microbox.Os.Success.{
  >>=-eq-ok, >>=-eq-err, perform-eq-ok, perform-eq-err, pure-eq-ok, pure-eq-err, raise-eq-ok,
  wrapping-eq-ok, wrapping-eq-err, guard-eq-ok,
}
use microbox.Net.Address.{ip_string, parse_cidr, network_of}
use microbox.Net.Ipam.{
  CidrLibrary, IpamOptions, IpamAllocator, path_or_default, reserved_set, allocated, allocate_in,
  allocate_parsed, allocate_ip,
}
use microbox.Net.Ipam.Leases.{is_leased, Honest}
use microbox.Net.Ipam.Picked.{Skipped, Skipped-widen}
use microbox.Net.Ipam.Transactions.{Took, Unchanged}
use microbox.Net.Ipam.Reserved.{Reserved, reserve-Reserved, reserve-Unchanged}

-- What an allocation has done: the address is the first that is not busy in the network that the
-- subnet names, no one had leased it, and it is the one lease more.
pub record Allocation (K : Kernel) (L : CidrLibrary) (opts : IpamOptions) (ia : IpamAllocator)
    (l l' : Log) : Type 0 where
  pub host : ℕ
  pub parsed : parse_cidr opts.subnet_cidr ≡ some (host, ia.prefix)
  pub in_subnet : ia.subnet ≡ (network_of host ia.prefix, ia.prefix)
  pub in_bucket : (ia.db_path ≡ path_or_default opts.db_path) × (ia.bucket ≡ opts.subnet_cidr)
  pub unreserved :
      member (ip_string ia.ip) (reserved_set (L.address_range ia.subnet) opts.reserved) ≡ false
  pub below : ia.ip < (L.address_range ia.subnet).1
  pub skipped :
      Skipped K L ia.db_path ia.bucket
        (reserved_set (L.address_range ia.subnet) opts.reserved)
        (L.address_range ia.subnet).1
        l
        l'
        (L.inc (L.address_range ia.subnet).0)
        ia.ip
  pub fresh : is_leased ia.db_path ia.bucket l (ip_string ia.ip) ≡ false
  pub took :
      Took (ip_string ia.ip) (is_leased ia.db_path ia.bucket l) (is_leased ia.db_path ia.bucket l')

allocated-eq-some :
    (opts : IpamOptions) (subnet : ℕ × ℕ) (reserved : List String) (picked : Option ℕ)
    {ia : IpamAllocator}
    → allocated opts subnet reserved picked ≡ some ia
    → (a : ℕ) × (picked ≡ some a) × (allocated opts subnet reserved (some a) ≡ some ia)
unfolding allocated
allocated-eq-some opts subnet reserved none h = cc
allocated-eq-some opts subnet reserved (some a) h = (a, refl, h)

mkdir_done :
    (K : Kernel) (p : String) (mode : ℕ) (l : Log) {u : Unit {0}} {l' : Log}
    → wrapping "ipam: mkdir: %w" [] (os_mkdir_all K p mode) l ≡ (ok u, l')
    → (path bucket key : String) → is_leased path bucket l' key ≡ is_leased path bucket l key
unfolding os_mkdir_all
mkdir_done K p mode l h path bucket key = rw (perform-eq-ok K _ l (wrapping-eq-ok _ _ _ l h)) refl

mkdir_Later :
    (K : Kernel) (p : String) (mode : ℕ) (l : Log) {u : Unit {0}} {l' : Log}
    → wrapping "ipam: mkdir: %w" [] (os_mkdir_all K p mode) l ≡ (ok u, l')
    → Later l l'
unfolding os_mkdir_all
mkdir_Later K p mode l h =
    rw (perform-eq-ok K _ l (wrapping-eq-ok _ _ _ l h)) (Later-cons _ (Later-refl l))

mkdir_failed :
    (K : Kernel) (p : String) (mode : ℕ) (l : Log) {e : Error} {l' : Log}
    → wrapping "ipam: mkdir: %w" [] (os_mkdir_all K p mode) l ≡ (err e, l')
    → (path bucket key : String) → is_leased path bucket l' key ≡ is_leased path bucket l key
unfolding os_mkdir_all
mkdir_failed K p mode l h path bucket key =
    let (_, h1) = wrapping-eq-err _ _ _ l h in let (x, q) = perform-eq-err K _ l h1 in rw q refl

some-injective {ℓ} : {A : Type ℓ} {a b : A} → some a ≡ some b → a ≡ b
some-injective h = cc

module _ (K : Kernel) (L : CidrLibrary) (opts : IpamOptions) where
  reserved_Allocation :
      (host prefix a : ℕ) (l k l' : Log) (ia : IpamAllocator)
      → parse_cidr opts.subnet_cidr ≡ some (host, prefix)
      → Later l k
      → ((key : String)
          → is_leased (path_or_default opts.db_path) opts.subnet_cidr k key
            ≡ is_leased (path_or_default opts.db_path) opts.subnet_cidr l key)
      → Reserved K L
          (path_or_default opts.db_path)
          opts.subnet_cidr
          (reserved_set (L.address_range (network_of host prefix, prefix)) opts.reserved)
          (L.address_range (network_of host prefix, prefix))
          a
          k
          l'
      → allocated opts
          (network_of host prefix, prefix)
          (reserved_set (L.address_range (network_of host prefix, prefix)) opts.reserved)
          (some a)
        ≡ some ia
      → Allocation K L opts ia l l'
  unfolding allocated
  reserved_Allocation host prefix a l k l' ia known before same r given =
      rw (← some-injective given) (record {
        host = host;
        parsed = known;
        in_subnet = refl;
        in_bucket = (refl, refl);
        unreserved = r.unreserved;
        below = r.below;
        skipped = Skipped-widen K L _ _ _ _ before (Later-refl l') r.skipped;
        fresh = sym (same (ip_string a)) ∙ r.fresh;
        took = λ key. rw (← same key) (r.took key);
      })

  allocate_in-eq-ok :
      Honest K
      → (rounds host prefix : ℕ) (l : Log) {ia : IpamAllocator} {l' : Log}
      → parse_cidr opts.subnet_cidr ≡ some (host, prefix)
      → allocate_in K L rounds opts (network_of host prefix, prefix) l ≡ (ok (some ia), l')
      → Allocation K L opts ia l l'
  unfolding allocate_in allocated
  allocate_in-eq-ok honest rounds host prefix l {ia} {l'} known h =
      let path = path_or_default opts.db_path in
      let bucket = opts.subnet_cidr in
      let (_, k1, m, h1) = >>=-eq-ok _ _ l h in
      let (picked, k2, q, h2) = >>=-eq-ok _ _ k1 h1 in
      let (made, same) = pure-eq-ok _ k2 h2 in
      let (a, got, given) = allocated-eq-some opts (network_of host prefix, prefix) _ picked made in
      let r =
        reserve-Reserved K L path bucket _ _ honest rounds a k1
          (rw got at (wrapping-eq-ok _ _ _ k1 q)) in
      rw (← same) (
        reserved_Allocation host prefix a l k1 k2 ia known (mkdir_Later K _ _ l m)
          (λ key. mkdir_done K _ _ l m _ _ key) r given)

  pub allocate_ip-eq-ok :
      Honest K
      → (rounds : ℕ) (l : Log) {ia : IpamAllocator} {l' : Log}
      → allocate_ip K L rounds opts l ≡ (ok (some ia), l')
      → Allocation K L opts ia l l'
  unfolding allocate_ip allocate_parsed
  allocate_ip-eq-ok honest rounds l h =
      let (_, h1) =
        guard-eq-ok (is_empty opts.subnet_cidr) (errorf "SubnetCIDR must be provided" [])
          (allocate_parsed K L rounds opts (parse_cidr opts.subnet_cidr)) l h in
      elim (Option-cases (parse_cidr opts.subnet_cidr)) [
        | inl p ↦ absurd (raise-eq-ok _ l (rw p at h1))
        | inr ((host, prefix), p) ↦ allocate_in-eq-ok honest rounds host prefix l p (rw p at h1)
      ]

  allocate_in-eq-err :
      (rounds : ℕ) (subnet : ℕ × ℕ) (l : Log) {e : Error} {l' : Log}
      → allocate_in K L rounds opts subnet l ≡ (err e, l')
      → Unchanged
          (is_leased (path_or_default opts.db_path) opts.subnet_cidr l)
          (is_leased (path_or_default opts.db_path) opts.subnet_cidr l')
  unfolding allocate_in
  allocate_in-eq-err rounds subnet l h key = elim (>>=-eq-err _ _ l h) [
    | inl m ↦ mkdir_failed K _ _ l m _ _ _
    | inr (_, k1, m, h1) ↦ elim (>>=-eq-err _ _ k1 h1) [
      | inl t ↦
          let (_, f) = wrapping-eq-err _ _ _ k1 t in
          reserve-Unchanged K L _ _ _ _ rounds k1 f key ∙ mkdir_done K _ _ l m _ _ _
      | inr (_, k2, _, h2) ↦ absurd (pure-eq-err _ k2 h2)
    ]
  ]

  -- An allocation that fails changes no lease.
  pub allocate_ip-eq-err :
      (rounds : ℕ) (l : Log) {e : Error} {l' : Log}
      → allocate_ip K L rounds opts l ≡ (err e, l')
      → Unchanged
          (is_leased (path_or_default opts.db_path) opts.subnet_cidr l)
          (is_leased (path_or_default opts.db_path) opts.subnet_cidr l')
  unfolding allocate_ip allocate_parsed raise
  allocate_ip-eq-err rounds l h key = elim (Bool-cases (is_empty opts.subnet_cidr)) [
    | inl empty ↦
        ap (λ r. is_leased (path_or_default opts.db_path) opts.subnet_cidr r.1 key)
          (sym (rw empty at h))
    | inr given ↦ elim (Option-cases (parse_cidr opts.subnet_cidr)) [
      | inl p ↦
          ap (λ r. is_leased (path_or_default opts.db_path) opts.subnet_cidr r.1 key)
            (sym (rw (given, p) at h))
      | inr ((host, prefix), p) ↦
          allocate_in-eq-err rounds (network_of host prefix, prefix) l (rw (given, p) at h) key
    ]
  ]
