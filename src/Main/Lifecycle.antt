-- ===== src/Main/Lifecycle.antt =====
-- A sandbox with a bridged network, from its start to the end of its wait.
use microbox.Base.{ℕ, ◌=ᵇ◌, String, Bool, true, Option, none, some, [], ◌≡◌, ◌∙◌, sym, ap, inl, inr}
use microbox.Os.{
  DbCall, db, new_uuid, geteuid, WaitStatus, Log, Result, ok, Kernel, Io, pure, query, wrapping,
  log_warn,
}
use microbox.Os.Kinds.{Ordinary}
use microbox.Os.Keeps.{Emits-weaken, Grows, Grows-trans, Emits, Emits-query, emits_rules}
use microbox.Os.Success.{>>=-eq-ok, pure-eq-ok, branching-cases, finally-eq-ok, guard-eq-ok}
use microbox.Net.{net_bridge}
use microbox.Net.Ipam.{CidrLibrary, path_or_default}
use microbox.Net.Ipam.Leases.{is_leased, Honest, Neutral, Ordinary-Neutral}
use microbox.Net.Ipam.Session.{renamed}
use microbox.Net.Container.{
  NetworkConfig, NetworkResult, bridge_options, setup_container_networking,
}
use microbox.Net.Container.Held.{setup-eq-ok, setup_then_cleanup, same_leases}
use microbox.Sandbox.Flags.{SandboxOptions}
use microbox.Sandbox.Cgroup.{CpuShare, cleanup_cgroup}
use microbox.Sandbox.Pipe.{signal_child}
use microbox.Sandbox.Parent.{
  SandboxProcess, clone, is_networked, set_network, let_go, start_child, new_sandbox, wait_loop,
  clean_network, after_exit, wait_and_clean, wait,
}
use microbox.Sandbox.Parent.Signalled.{or_close-eq-ok, else_raise-eq-ok}
use microbox.Sandbox.Parent.Quiet.{
  make_sync_pipe-Ordinary, signal_child-Neutral, clone-Ordinary, map_ids-Ordinary,
  setup_cgroup_limits-Ordinary, cleanup_cgroup-Ordinary, wait_loop-Ordinary, log_warn-Ordinary,
}
use microbox.Main.{bridge_networking}
use microbox.Net.Ipam.Succeeds.{release_fine}

-- The leases of the subnet of the bridge.
abbrev pub bridge_leases : Log → String → Bool
bridge_leases = is_leased (path_or_default bridge_options.db_path) bridge_options.subnet_cidr

quiet :
    {A : Type 0} (f : Io A) (key : String) (l : Log) {r : Result A} {k : Log}
    → Emits Ordinary f
    → f l ≡ (r, k)
    → bridge_leases k key ≡ bridge_leases l key
quiet f key l h p = ap (λ x. bridge_leases x.1 key) (sym p) ∙ same_leases f h _ _ key l

module _ (K : Kernel) (L : CidrLibrary) (addresses : ℕ) (opts : SandboxOptions) (cpus : CpuShare)
    (memory : ℕ) (bridged : opts.net ≡ net_bridge) where
  -- What a start has done: a network was set up, with the leases as they were before the start, and
  -- nothing was done to the database afterwards.
  pub record Started (p : SandboxProcess) (l l' : Log) : Type 0 where
    pub before : Log
    pub after : Log
    pub result : NetworkResult
    pub set_up :
        setup_container_networking K L addresses
          (record { child_pid = p.pid; mode = opts.net })
          before
        ≡ (ok result, after)
    pub cleanup : p.network ≡ some result.cleanup
    pub same : (key : String) → bridge_leases before key ≡ bridge_leases l key
    pub last : Io (Unit {0})
    pub last_quiet : Emits Neutral last
    pub left : l' ≡ (last after).1

  set_network-eq-ok :
      (pid : ℕ) (l : Log) {network : Option (Io (Unit {0}))} {l' : Log}
      → set_network K (bridge_networking K L addresses) opts cpus memory pid l ≡ (ok network, l')
      → (r : NetworkResult) × (setup_container_networking K L addresses
            (record { child_pid = pid; mode = opts.net })
            l
          ≡ (ok r, l'))
        × (network ≡ some r.cleanup)
  unfolding set_network bridge_networking
  set_network-eq-ok pid l h =
      let networked : is_networked opts.net ≡ true = ap is_networked bridged in
      let (cleanup, k1, p, q) = >>=-eq-ok _ (λ c. pure (some c)) l (rw networked at h) in
      let (r, k2, p1, q1) = >>=-eq-ok _ (λ (x : NetworkResult). pure x.cleanup) l p in
      let (made, there) = pure-eq-ok (some cleanup) k1 q in
      let (given, there1) = pure-eq-ok r.cleanup k2 q1 in
      (r, p1 ∙ ap (λ k. (ok r, k)) (there1 ∙ there), sym made ∙ ap some (sym given))

  let_go-Started :
      (uuid : String) (rfd wfd : ℕ) (child : ℕ × ℕ) (l0 l : Log) {p : SandboxProcess} {l' : Log}
      → ((key : String) → bridge_leases l key ≡ bridge_leases l0 key)
      → let_go K (bridge_networking K L addresses) opts cpus memory uuid rfd wfd child l
        ≡ (ok p, l')
      → Started p l0 l'
  unfolding let_go
  let_go-Started uuid rfd wfd child l0 l {p} {l'} known h =
      let pid = child.0 in
      let (_, l1, e1, h1) = >>=-eq-ok _ _ l h in
      let (cg_path, l2, e2, h2) = >>=-eq-ok _ _ l1 h1 in
      let (network, l3, e3, h3) = >>=-eq-ok _ _ l2 h2 in
      let (_, l4, e4, h4) = >>=-eq-ok _ _ l3 h3 in
      let (built, there) = pure-eq-ok _ l4 h4 in
      let (r, set, cleanup) = set_network-eq-ok pid l2 (or_close-eq-ok K rfd wfd _ l2 e3) in
      rw (← built) (record {
        before = l2;
        after = l3;
        result = r;
        set_up = set;
        cleanup = cleanup;
        same = λ key.
            quiet _ key l1 (setup_cgroup_limits-Ordinary K pid cpus memory)
              (or_close-eq-ok K rfd wfd _ l1 e2)
            ∙ quiet _ key l (map_ids-Ordinary K opts pid) (or_close-eq-ok K rfd wfd _ l e1)
            ∙ known key;
        last = signal_child K wfd;
        last_quiet = signal_child-Neutral K wfd;
        left = sym there ∙ sym (ap (λ x. x.1) e4);
      })

  new_sandbox-Started :
      (l : Log) {p : SandboxProcess} {l' : Log}
      → new_sandbox K (bridge_networking K L addresses) opts cpus memory l ≡ (ok p, l')
      → Started p l l'
  unfolding new_sandbox start_child
  new_sandbox-Started l h =
      let (uuid, l0, e0, h0) = >>=-eq-ok _ _ l h in
      let (euid, l1, e, h1) = >>=-eq-ok _ _ l0 h0 in
      let (_, h2) = else_raise-eq-ok (euid =ᵇ 0) _ _ l1 h1 in
      let (ends, l2, e2, h3) = >>=-eq-ok _ _ l1 h2 in
      let (child, l3, e3, h4) = >>=-eq-ok _ _ l2 h3 in
      let made = wrapping "cannot create sandbox: %w" [] (clone K opts) in
      let made_quiet : Emits Ordinary made = search (emits_rules, clone-Ordinary) in
      let_go-Started uuid ends.0 ends.1 child l l3
        (λ key.
          quiet made key l2 made_quiet (or_close-eq-ok K ends.0 ends.1 made l2 e3)
          ∙ quiet _ key l1 (make_sync_pipe-Ordinary K) e2
          ∙ quiet (query geteuid K.geteuid) key l0 (Emits-query _ _ tt) e
          ∙ quiet (query new_uuid K.new_uuid) key l (Emits-query _ _ tt) e0)
        h4

module _ (K : Kernel) where
  clean_network-leases :
      (cleanup : Io (Unit {0})) (l : Log) {u : Unit {0}} {l' : Log} (key : String)
      → clean_network K (some cleanup) l ≡ (ok u, l')
      → bridge_leases l' key ≡ bridge_leases (cleanup l).1 key
  unfolding clean_network pure
  clean_network-leases cleanup l key h =
      elim (branching-cases cleanup pure (λ _. log_warn K "failed to cleanup networking") l) [
        | inl (a, k, p, q) ↦ ap (λ x. bridge_leases x.1 key) (sym h ∙ q ∙ sym p)
        | inr (e, k, p, q) ↦
            quiet (log_warn K "failed to cleanup networking") key k (log_warn-Ordinary K _)
              (sym q ∙ h)
            ∙ ap (λ x. bridge_leases x.1 key) (sym p)
      ]

  -- What a wait that returned a code has done: it ran the clean-up of the network, after calls that
  -- leave the database alone.
  pub record Waited (cleanup : Io (Unit {0})) (l l' : Log) : Type 0 where
    pub at : Log
    pub quiet_before : Grows Neutral l at
    pub cleaned : (key : String) → bridge_leases l' key ≡ bridge_leases (cleanup at).1 key

  after_exit-Waited :
      (p : SandboxProcess) (cleanup : Io (Unit {0})) (ws : Option WaitStatus) (l l1 : Log)
      {code : ℕ} {l' : Log}
      → p.network ≡ some cleanup
      → Grows Neutral l l1
      → after_exit K p ws l1 ≡ (ok (some code), l')
      → Waited cleanup l l'
  unfolding after_exit
  after_exit-Waited p cleanup none l l1 has g h =
      let e : none ≡ some _ = (pure-eq-ok none l1 h).0 in cc
  after_exit-Waited p cleanup (some ws) l l1 {code} {l'} has g h =
      let (u, k, p1, q) = >>=-eq-ok (clean_network K p.network) _ l1 h in
      record {
        at = l1;
        quiet_before = g;
        cleaned = λ key.
            ap (λ z. bridge_leases z key) (sym (pure-eq-ok _ k q).1)
            ∙ clean_network-leases cleanup l1 key (ap (λ n. clean_network K n l1) (sym has) ∙ p1);
      }

  wait-Waited :
      (rounds : ℕ) (p : SandboxProcess) (cleanup : Io (Unit {0})) (l : Log) {code : ℕ} {l' : Log}
      → p.network ≡ some cleanup
      → wait K rounds p l ≡ (ok (some code), l')
      → Waited cleanup l l'
  unfolding wait wait_and_clean
  wait-Waited rounds p cleanup l {code} {l'} has h =
      let (_, h1) = guard-eq-ok (p.pid =ᵇ 0) _ _ l h in
      let (k, p1, left) =
        finally-eq-ok (wait_and_clean K rounds p) (cleanup_cgroup K p.cg_path) l h1 in
      let (ws, k1, p2, q2) = >>=-eq-ok (wait_loop K rounds p.pid) (after_exit K p) l p1 in
      let looped : Grows Neutral l k1 =
        rw (ap (λ x. x.1) (sym p2))
          ((Emits-weaken _ Ordinary-Neutral (wait_loop-Ordinary K rounds p.pid)).at l) in
      let w = after_exit-Waited p cleanup ws l k1 has looped q2 in
      record {
        at = w.at;
        quiet_before = w.quiet_before;
        cleaned = λ key.
            ap (λ z. bridge_leases z key) left
            ∙ same_leases _ (cleanup_cgroup-Ordinary K p.cg_path) _ _ key k
            ∙ w.cleaned key;
      }

grows_to : {l k k' : Log} → k ≡ k' → Grows Neutral l k → Grows Neutral l k'
grows_to e g = record { calls = g.calls; grown = sym e ∙ g.grown; every = g.every }

-- Where transactions see what was committed before and no call of the database fails: a sandbox with a
-- bridged network that was started, and whose wait returned a code, leaves the leases of its subnet as
-- they were before the start.
pub lifecycle-leases :
    (K : Kernel) (L : CidrLibrary) (addresses rounds : ℕ) (opts : SandboxOptions) (cpus : CpuShare)
    (memory : ℕ)
    → Honest K
    → ((l : Log) (c : DbCall) → K.act l (db c) ≡ none)
    → opts.net ≡ net_bridge
    → (l l1 l2 : Log) (p : SandboxProcess) (code : ℕ)
    → new_sandbox K (bridge_networking K L addresses) opts cpus memory l ≡ (ok p, l1)
    → wait K rounds p l1 ≡ (ok (some code), l2)
    → (key : String) → bridge_leases l2 key ≡ bridge_leases l key
lifecycle-leases K L addresses rounds opts cpus memory honest fine bridged l l1 l2 p code started
      waited key =
    let s = new_sandbox-Started K L addresses opts cpus memory bridged l started in
    let w = wait-Waited K rounds p s.result.cleanup l1 s.cleanup waited in
    let cfg : NetworkConfig = record { child_pid = p.pid; mode = opts.net } in
    let up = (setup-eq-ok K L addresses honest cfg s.before s.set_up).1 in
    let last = s.last_quiet.at s.after in
    let between : Grows Neutral s.after w.at =
      Grows-trans s.after l1 w.at (grows_to (sym s.left) last) w.quiet_before in
    let (k, released) = release_fine K s.result.ipam fine w.at in
    let restored =
      setup_then_cleanup K L addresses honest cfg s.before s.after w.at k s.result s.set_up between
        released key in
    w.cleaned key
    ∙ sym (renamed (s.result.cleanup w.at).1 key up.belongs.0 up.belongs.1)
    ∙ restored
    ∙ renamed s.before key up.belongs.0 up.belongs.1
    ∙ s.same key
