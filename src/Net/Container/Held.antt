-- ===== src/Net/Container/Held.antt =====
-- What setting up a container's network, and cleaning it up, does to the leases.
use microbox.Base.{
  ℕ, String, Bool, true, false, not, ◌&&◌, ◌||◌, ◌==◌, some, ◌≡◌, refl, ◌∙◌, sym, ap, inl, inr,
  Bool-cases, Option-cases, eq_iff,
}
use microbox.Os.{Error, Log, Link, ok, err, Kernel, Io, ◌>>=◌, ignoring}
use microbox.Os.Kinds.{Ordinary}
use microbox.Os.Keeps.{Emits-weaken, Grows, Emits}
use microbox.Os.Success.{bind_ok, bind_err, >>=-eq-ok, pure-eq-ok, raise-eq-ok}
use microbox.Net.{NetworkMode, net_none, net_host, net_bridge, other_network}
use microbox.Net.Address.{ip_string}
use microbox.Net.Veth.{setup_veth_networking, set_up_veth, delete_veth}
use microbox.Net.Veth.Plain.{setup_veth-Ordinary, delete_veth-Ordinary}
use microbox.Net.Ipam.{path_or_default, CidrLibrary, IpamAllocator, allocate_ip, release}
use microbox.Net.Ipam.Leases.{is_leased, lease-Neutral, Honest, Neutral, Ordinary-Neutral}
use microbox.Net.Ipam.Allocated.{Allocation, allocate_ip-eq-ok}
use microbox.Net.Ipam.Released.{release-eq-ok}
use microbox.Net.Ipam.Transactions.{Took, Unchanged}
use microbox.Net.Container.{
  NetworkConfig, NetworkResult, bridge_options, veth_config, cleanup_all, connect, setup_in_mode,
  setup_container_networking,
}

-- A key that was not there, taken and then freed.
taken_and_freed :
    (key q : String) (f : String → Bool)
    → f key ≡ false
    → (not (key == q) && (key == q || f q)) ≡ f q
taken_and_freed key q f h = elim (Bool-cases (key == q)) [
  | inl same ↦ rw same (sym (ap f (sym ((eq_iff key q).0 same)) ∙ h))
  | inr other ↦ rw other refl
]

pub same_leases :
    {A : Type 0} (f : Io A)
    → Emits Ordinary f
    → (path bucket key : String) (l : Log)
    → is_leased path bucket (f l).1 key ≡ is_leased path bucket l key
same_leases f quiet path bucket key l =
    ap (λ s. s.0)
      (lease-Neutral path bucket key l (f l).1 ((Emits-weaken f Ordinary-Neutral quiet).at l))

module _ (K : Kernel) (L : CidrLibrary) (rounds : ℕ) where
  -- A network that was set up has an address that no one had leased, and that is leased now; its
  -- cleanup releases the address and deletes the host's interface.
  pub record SetUp (r : NetworkResult) (l l' : Log) : Type 0 where
    pub belongs :
        (r.ipam.db_path ≡ path_or_default bridge_options.db_path)
        × (r.ipam.bucket ≡ bridge_options.subnet_cidr)
    pub fresh : is_leased r.ipam.db_path r.ipam.bucket l (ip_string r.ipam.ip) ≡ false
    pub took :
        Took
          (ip_string r.ipam.ip)
          (is_leased r.ipam.db_path r.ipam.bucket l)
          (is_leased r.ipam.db_path r.ipam.bucket l')
    pub host_if : Link
    pub cleaned_by : r.cleanup ≡ cleanup_all K r.ipam (delete_veth K host_if)

  set_up_veth-eq-ok :
      (child_pid : ℕ) (ia : IpamAllocator) (l : Log) {cleanup : Io (Unit {0})} {l' : Log}
      → setup_veth_networking K child_pid (veth_config ia) l ≡ (ok cleanup, l')
      → (host_if : Link) × (cleanup ≡ delete_veth K host_if)
  unfolding setup_veth_networking set_up_veth
  set_up_veth-eq-ok child_pid ia l h =
      let (_, k1, _, h1) = >>=-eq-ok _ _ l h in
      let (ends, k2, _, h2) = >>=-eq-ok _ _ k1 h1 in
      let (_, k3, _, h3) = >>=-eq-ok _ _ k2 h2 in
      let (_, k4, _, h4) = >>=-eq-ok _ _ k3 h3 in
      let (_, k5, _, h5) = >>=-eq-ok _ _ k4 h4 in (ends.0, sym (pure-eq-ok _ k5 h5).0)

  connect-SetUp :
      Honest K
      → (child_pid : ℕ) (ia : IpamAllocator) (l k : Log) {r : NetworkResult} {l' : Log}
      → Allocation K L bridge_options ia l k
      → connect K child_pid (some ia) k ≡ (ok r, l')
      → SetUp r l l'
  unfolding connect
  connect-SetUp honest child_pid ia l k {r} {l'} a h =
      let (cleanup, k1, p, q) = >>=-eq-ok _ _ k h in
      let (host_if, cleaned) = set_up_veth-eq-ok child_pid ia k p in
      let (same, there) = pure-eq-ok _ k1 q in
      rw (← same, ← there)
        (record {
          belongs = a.in_bucket;
          fresh = a.fresh;
          took = λ key.
              ap (λ s. is_leased ia.db_path ia.bucket s.1 key) (sym p)
              ∙ same_leases _ (setup_veth-Ordinary K child_pid (veth_config ia)) ia.db_path
                  ia.bucket key k
              ∙ a.took key;
          host_if = host_if;
          cleaned_by = ap (λ c. cleanup_all K ia c) cleaned;
        })

  setup_in_mode-SetUp :
      Honest K
      → (child_pid : ℕ) (mode : NetworkMode) (l : Log) {r : NetworkResult} {l' : Log}
      → setup_in_mode K L rounds child_pid mode l ≡ (ok r, l')
      → (mode ≡ net_bridge) × SetUp r l l'
  unfolding setup_in_mode
  setup_in_mode-SetUp honest child_pid net_bridge l h =
      let (o, k, p, q) = >>=-eq-ok _ _ l h in
      elim (Option-cases o) [
        | inl n ↦ absurd (unfold connect in (raise-eq-ok _ k (rw n at q)))
        | inr (ia, n) ↦ (
          refl,
          connect-SetUp honest child_pid ia l k
              (allocate_ip-eq-ok K L bridge_options honest rounds l (rw n at p)) (rw n at q),
        )
      ]
  setup_in_mode-SetUp honest child_pid net_none l h = absurd (raise-eq-ok _ l h)
  setup_in_mode-SetUp honest child_pid net_host l h = absurd (raise-eq-ok _ l h)
  setup_in_mode-SetUp honest child_pid (other_network n) l h = absurd (raise-eq-ok _ l h)

  -- Only the bridge mode sets anything up, and what it sets up holds one address more.
  pub setup-eq-ok :
      Honest K
      → (cfg : NetworkConfig) (l : Log) {r : NetworkResult} {l' : Log}
      → setup_container_networking K L rounds cfg l ≡ (ok r, l')
      → (cfg.mode ≡ net_bridge) × SetUp r l l'
  unfolding setup_container_networking
  setup-eq-ok honest cfg l h = setup_in_mode-SetUp honest cfg.child_pid cfg.mode l h

  -- A cleanup after a set-up that succeeded, and after any calls that leave the database alone, leaves
  -- the leases of the subnet as they were before the set-up, if its release succeeds.
  pub setup_then_cleanup :
      Honest K
      → (cfg : NetworkConfig) (l l1 l2 l3 : Log) (r : NetworkResult)
      → setup_container_networking K L rounds cfg l ≡ (ok r, l1)
      → Grows Neutral l1 l2
      → release K r.ipam l2 ≡ (ok tt, l3)
      → Unchanged
          (is_leased r.ipam.db_path r.ipam.bucket l)
          (is_leased r.ipam.db_path r.ipam.bucket (r.cleanup l2).1)
  unfolding cleanup_all ◌>>=◌ ignoring
  setup_then_cleanup honest cfg l l1 l2 l3 r h quiet released key =
      let s = (setup-eq-ok honest cfg l h).1 in
      let path = r.ipam.db_path in
      let bucket = r.ipam.bucket in
      let cleaned : (r.cleanup l2).1 ≡ (delete_veth K s.host_if l3).1 =
        ap (λ c. (c l2).1) s.cleaned_by
        ∙ ap (λ z. (delete_veth K s.host_if z).1) (ap (λ z. z.1) released) in
      let later : is_leased path bucket l2 key ≡ is_leased path bucket l1 key =
        ap (λ z. z.0) (lease-Neutral path bucket key l1 l2 quiet) in
      ap (λ z. is_leased path bucket z key) cleaned
      ∙ same_leases _ (delete_veth-Ordinary K s.host_if) path bucket key l3
      ∙ release-eq-ok K r.ipam honest l2 released key
      ∙ ap (λ z. not (ip_string r.ipam.ip == key) && z) (later ∙ s.took key)
      ∙ taken_and_freed (ip_string r.ipam.ip) key (λ k. is_leased path bucket l k) s.fresh

  -- If the address was allocated and the rest fails, the whole fails with the same error, and the
  -- address, which was not leased before, is leased afterwards.
  pub setup_veth_fails :
      Honest K
      → (child_pid : ℕ) (ia : IpamAllocator) (e : Error) (l k l' : Log)
      → allocate_ip K L rounds bridge_options l ≡ (ok (some ia), k)
      → setup_veth_networking K child_pid (veth_config ia) k ≡ (err e, l')
      → (setup_container_networking K L rounds
            (record { child_pid = child_pid; mode = net_bridge })
            l
          ≡ (err e, l'))
        × (is_leased ia.db_path ia.bucket l (ip_string ia.ip) ≡ false)
        × (is_leased ia.db_path ia.bucket l' (ip_string ia.ip) ≡ true)
  unfolding setup_container_networking setup_in_mode connect
  setup_veth_fails honest child_pid ia e l k l' p q =
      let a = allocate_ip-eq-ok K L bridge_options honest rounds l p in
      (
        bind_ok _ _ l p ∙ bind_err _ _ k q,
        a.fresh,
        ap (λ s. is_leased ia.db_path ia.bucket s.1 (ip_string ia.ip)) (sym q)
            ∙ same_leases _ (setup_veth-Ordinary K child_pid (veth_config ia)) ia.db_path ia.bucket
                (ip_string ia.ip) k
            ∙ a.took (ip_string ia.ip)
            ∙ ap (λ b. b || is_leased ia.db_path ia.bucket l (ip_string ia.ip))
                ((eq_iff (ip_string ia.ip) (ip_string ia.ip)).1 refl),
      )
