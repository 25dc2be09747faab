-- ===== src/Net/Ipam/Session.antt =====
-- Every order of allocations and releases in one subnet, with any other calls between them.
use microbox.Base.{ℕ, String, ◌==◌, eq_iff, some, ◌≡◌, refl, ◌∙◌, sym, ap, arith}
use mathlib.Core.List.{List, [], ◌∷◌}
use microbox.Base.Keys.{string_eq, member, delete, Distinct, member-delete, delete-Distinct}
use microbox.Os.{Error, Event, Log, ok, err, Kernel}
use microbox.Net.Address.{ip_string}
use microbox.Net.Ipam.{
  CidrLibrary, IpamOptions, IpamAllocator, path_or_default, allocate_ip, release,
}
use microbox.Net.Ipam.Leases.{is_leased, lease, Honest, Neutral, call_effect-Neutral}
use microbox.Net.Ipam.Allocated.{Allocation, allocate_ip-eq-ok, allocate_ip-eq-err}
use microbox.Net.Ipam.Released.{release-eq-ok, release-eq-err}

==-comm : (s t : String) → (s == t) ≡ (t == s)
==-comm s t = ground (arith, eq_iff s t, eq_iff t s)

-- The leases of one bucket, by equal names of it.
pub renamed :
    {p q b c : String} (l : Log) (key : String)
    → p ≡ q
    → b ≡ c
    → is_leased p b l key ≡ is_leased q c l key
renamed l key e f i = is_leased (e i) (f i) l key

module _ (K : Kernel) (L : CidrLibrary) (path bucket : String) where
  abbrev pub Requests : IpamOptions → Type 0
  Requests opts = (path_or_default opts.db_path ≡ path) × (opts.subnet_cidr ≡ bucket)

  abbrev pub Belongs : IpamAllocator → Type 0
  Belongs ia = (ia.db_path ≡ path) × (ia.bucket ≡ bucket)

  Allocation-Belongs :
      {opts : IpamOptions} {ia : IpamAllocator} {l l' : Log}
      → Requests opts
      → Allocation K L opts ia l l'
      → Belongs ia
  Allocation-Belongs asked a = (a.in_bucket.0 ∙ asked.0, a.in_bucket.1 ∙ asked.1)

  -- The addresses that are held: those allocated and not released since, the latest first.
  pub data Session : Log → List String → Type 0 where
    start : Session [] []
    other_call :
        (e : Event) {l : Log} {held : List String}
        → Neutral e.call
        → Session l held
        → Session (e ∷ l) held
    allocation :
        (rounds : ℕ) (opts : IpamOptions) (ia : IpamAllocator) {l l' : Log} {held : List String}
        → Requests opts
        → allocate_ip K L rounds opts l ≡ (ok (some ia), l')
        → Session l held
        → Session l' (ip_string ia.ip ∷ held)
    failed_allocation :
        (rounds : ℕ) (opts : IpamOptions) (e : Error) {l l' : Log} {held : List String}
        → Requests opts
        → allocate_ip K L rounds opts l ≡ (err e, l')
        → Session l held
        → Session l' held
    releasing :
        (ia : IpamAllocator) {l l' : Log} {held : List String}
        → Belongs ia
        → release K ia l ≡ (ok tt, l')
        → Session l held
        → Session l' (delete (ip_string ia.ip) held)
    failed_release :
        (ia : IpamAllocator) (e : Error) {l l' : Log} {held : List String}
        → Belongs ia
        → release K ia l ≡ (err e, l')
        → Session l held
        → Session l' held

  module _ (honest : Honest K) where
    -- Where transactions see what was committed before: after any order of allocations and releases,
    -- failed ones and other calls between them, the keys that are committed are those of exactly the
    -- addresses that are held.
    pub Session-refines :
        {l : Log} {held : List String}
        → Session l held
        → (key : String) → is_leased path bucket l key ≡ member key held
    Session-refines start key = unfold member in refl
    Session-refines (other_call e {l = l} neutral s) key =
        ap (λ x. x.0)
          (call_effect-Neutral path bucket key e.call e.failure (lease path bucket key l) neutral)
        ∙ Session-refines s key
    Session-refines (allocation rounds opts ia {l = l} {l' = l'} {held = held} asked returned s)
          key =
        let a = allocate_ip-eq-ok K L opts honest rounds l returned in
        let (p, b) = Allocation-Belongs asked a in
        sym (renamed l' key p b)
        ∙ a.took key
        ∙ (rw (renamed l key p b, Session-refines s key, ==-comm (ip_string ia.ip) key)
            (unfold member in refl))
    Session-refines (failed_allocation rounds opts e {l = l} {l' = l'} asked returned s) key =
        sym (renamed l' key asked.0 asked.1)
        ∙ allocate_ip-eq-err K L opts rounds l returned key
        ∙ renamed l key asked.0 asked.1
        ∙ Session-refines s key
    Session-refines (releasing ia {l = l} {l' = l'} {held = held} belongs returned s) key =
        sym (renamed l' key belongs.0 belongs.1)
        ∙ release-eq-ok K ia honest l returned key
        ∙ (rw (renamed l key belongs.0 belongs.1, Session-refines s key)
            (sym (member-delete key (ip_string ia.ip) held)))
    Session-refines (failed_release ia e {l = l} {l' = l'} belongs returned s) key =
        sym (renamed l' key belongs.0 belongs.1)
        ∙ release-eq-err K ia l returned key
        ∙ renamed l key belongs.0 belongs.1
        ∙ Session-refines s key

    -- Under the same condition, no address is held twice.
    pub Session-Distinct : {l : Log} {held : List String} → Session l held → Distinct held
    Session-Distinct start = tt
    Session-Distinct (other_call e neutral s) = Session-Distinct s
    Session-Distinct (allocation rounds opts ia {l = l} {held = held} asked returned s) =
        let a = allocate_ip-eq-ok K L opts honest rounds l returned in
        let (p, b) = Allocation-Belongs asked a in
        (
          sym (Session-refines s (ip_string ia.ip))
              ∙ sym (renamed l (ip_string ia.ip) p b)
              ∙ a.fresh,
          Session-Distinct s,
        )
    Session-Distinct (failed_allocation rounds opts e asked returned s) = Session-Distinct s
    Session-Distinct (releasing ia belongs returned s) = delete-Distinct _ _ (Session-Distinct s)
    Session-Distinct (failed_release ia e belongs returned s) = Session-Distinct s
