-- ===== src/Sandbox/System/Sides.antt =====
-- When the parent writes to a pipe, and what the child does first.
use microbox.Base.{ℕ, ◌=ᵇ◌, String, Option, [], ◌∷◌, ◌≡◌, refl, ap, ◌⊎◌, inl, inr, Bool-cases}
use microbox.Os.{
  Errno, Event, Log, new_uuid, write_fd, close_fd, Kernel, Io, pure, raise, ◌>>=◌, ◌>>◌, query,
  wrapping, attempt, perform, lift,
}
use microbox.Os.Kinds.{NoSignal, Ordinary-NoSignal}
use microbox.Os.Keeps.{Emits-Every, Every, Emits, Emits-weaken, Later, emits_rules}
use microbox.Os.Success.{done, bind_log}
use microbox.Net.{NetworkMode}
use microbox.Sandbox.Flags.{SandboxOptions}
use microbox.Sandbox.Cgroup.{CpuShare, setup_cgroup_limits}
use microbox.Sandbox.Pipe.{make_sync_pipe, close_pipe, signal_child}
use microbox.Sandbox.Parent.{
  Networking, SandboxProcess, minus_one, written_int, as_int, clone, or_close, map_ids, set_network,
  let_go, start_child, new_sandbox,
}
use microbox.Sandbox.Parent.Signalled.{
  Cloned, Prepared, or_close-eq-ok, lift_both-log, clone-Cloned,
}
use microbox.Sandbox.Parent.Quiet.{
  make_sync_pipe-Ordinary, close_pipe-Ordinary, map_ids-Ordinary, setup_cgroup_limits-Ordinary,
}
use microbox.Sandbox.System.Logs.{Later-uncons, Every-Later}

module _ (K : Kernel) where
  close_pipe-NoSignal : (rfd wfd : ℕ) → Emits NoSignal (close_pipe K rfd wfd)
  close_pipe-NoSignal rfd wfd = Emits-weaken _ Ordinary-NoSignal (close_pipe-Ordinary K rfd wfd)

  or_close-NoSignal :
      {A : Type 0} (rfd wfd : ℕ) (m : Io A)
      → Emits NoSignal m
      → Emits NoSignal (or_close K rfd wfd m)
  unfolding or_close
  or_close-NoSignal rfd wfd m h = search (emits_rules, close_pipe-NoSignal) depth 12

module _ (K : Kernel) (N : Networking) (opts : SandboxOptions) (cpus : CpuShare) (memory : ℕ) where
  -- A log whose last calls are those of the signal, whether they succeed or not.
  pub record Signals (l : Log) : Type 0 where
    pub wfd : ℕ
    pub process : SandboxProcess
    pub networked : Log
    pub prepared : Prepared K N opts cpus memory process networked
    pub quiet : Every NoSignal networked
    pub written : Option Errno
    pub closed : Option Errno
    pub whole :
        l
        ≡ record { call = close_fd wfd; failure = closed }
          ∷ record { call = write_fd wfd "\u{1}"; failure = written }
          ∷ networked

  abbrev pub Orderly : Log → Type 0
  Orderly l = Every NoSignal l ⊎ Signals l

  -- What is written comes right after the preparation.
  pub Orderly-written :
      (l : Log) {e : Event} {b : Log} (fd : ℕ) (text : String)
      → Orderly l
      → Later (e ∷ b) l
      → e.call ≡ write_fd fd text
      → (p : SandboxProcess) × Prepared K N opts cpus memory p b
  Orderly-written l fd text (inl quiet) h w =
      let bad = Every-Later NoSignal l quiet h in absurd (rw w at bad)
  Orderly-written l {e} {b} fd text (inr s) h w =
      let ends = s.whole in
      elim (Later-uncons (rw s.whole at h)) [
        | inl (p, _) ↦ let q = ap (λ x. x.call) p in absurd cc
        | inr h1 ↦ elim (Later-uncons h1) [
          | inl (_, p) ↦ (s.process, rw p s.prepared)
          | inr h2 ↦ let bad = Every-Later NoSignal s.networked s.quiet h2 in absurd (rw w at bad)
        ]
      ]

  signal_child-Signals :
      (wfd : ℕ) (l : Log) (p : SandboxProcess)
      → Prepared K N opts cpus memory p l
      → Every NoSignal l
      → Signals (signal_child K wfd l).1
  unfolding signal_child attempt perform ◌>>=◌ lift
  signal_child-Signals wfd l p prepared quiet = record {
    wfd = wfd;
    process = p;
    networked = l;
    prepared = prepared;
    quiet = quiet;
    written = K.act l (write_fd wfd "\u{1}");
    closed = _;
    whole = lift_both-log _ _ _;
  }

  returned-Signals :
      {A : Type 0} (m : Io (Unit {0})) (a : A) (l : Log)
      → Signals (m l).1
      → Signals ((m >> pure a) l).1
  unfolding pure
  returned-Signals m a l s = bind_log Signals m (λ _. pure a) l (λ _ _. s) (λ _ _. s)

  module _
      (silent : (pid : ℕ) (mode : NetworkMode)
        → Emits NoSignal (N.setup_container_networking pid mode)) where
    set_network-NoSignal : (pid : ℕ) → Emits NoSignal (set_network K N opts cpus memory pid)
    unfolding set_network
    set_network-NoSignal pid = search (emits_rules, silent)

    Every-closing :
        {A : Type 0} (rfd wfd : ℕ) (m : Io A) (l : Log)
        → Emits NoSignal m
        → Every NoSignal l
        → Every NoSignal (or_close K rfd wfd m l).1
    Every-closing rfd wfd m l h quiet = Emits-Every _ l (or_close-NoSignal K rfd wfd m h) quiet

    map_ids-NoSignal : (pid : ℕ) → Emits NoSignal (map_ids K opts pid)
    map_ids-NoSignal pid = Emits-weaken _ Ordinary-NoSignal (map_ids-Ordinary K opts pid)

    limits-NoSignal : (pid : ℕ) → Emits NoSignal (setup_cgroup_limits K pid cpus memory)
    limits-NoSignal pid =
        Emits-weaken _ Ordinary-NoSignal (setup_cgroup_limits-Ordinary K pid cpus memory)

    making-NoSignal : Emits NoSignal (wrapping "cannot create sandbox: %w" [] (clone K opts))
    unfolding clone
    making-NoSignal = search emits_rules

    let_go-Orderly :
        (uuid : String) (rfd wfd : ℕ) (child : ℕ × ℕ) (l : Log)
        → Cloned K opts child l
        → Every NoSignal l
        → Orderly (let_go K N opts cpus memory uuid rfd wfd child l).1
    unfolding let_go
    let_go-Orderly uuid rfd wfd child l made quiet =
        let mapping = or_close K rfd wfd (map_ids K opts child.0) in
        let limiting = or_close K rfd wfd (setup_cgroup_limits K child.0 cpus memory) in
        let networking = or_close K rfd wfd (set_network K N opts cpus memory child.0) in
        let l1 = (mapping l).1 in
        let l2 = (limiting l1).1 in
        let l3 = (networking l2).1 in
        let quiet1 = Every-closing rfd wfd _ l (map_ids-NoSignal child.0) quiet in
        let quiet2 = Every-closing rfd wfd _ l1 (limits-NoSignal child.0) quiet1 in
        let quiet3 = Every-closing rfd wfd _ l2 (set_network-NoSignal child.0) quiet2 in
        bind_log Orderly mapping _ l (λ _ _. inl quiet1)
          λ _ e1.
            bind_log Orderly limiting _ l1 (λ _ _. inl quiet2)
              λ cg_path e2.
                bind_log Orderly networking _ l2 (λ _ _. inl quiet3)
                  λ network e3.
                    let p : SandboxProcess = record {
                      uuid = uuid;
                      pidfd = as_int (written_int minus_one child.1);
                      pid = child.0;
                      network = network;
                      cg_path = cg_path;
                    } in
                    let prepared : Prepared K N opts cpus memory p l3 = record {
                      fd = child.1;
                      started = l;
                      mapped = l1;
                      limited = l2;
                      made = made;
                      descriptor = refl;
                      maps = or_close-eq-ok K rfd wfd _ l (λ i. (e1 i, l1));
                      limits = or_close-eq-ok K rfd wfd _ l1 (λ i. (e2 i, l2));
                      network = or_close-eq-ok K rfd wfd _ l2 (λ i. (e3 i, l3));
                    } in
                    let s = signal_child-Signals wfd l3 p prepared quiet3 in
                    inr (returned-Signals (signal_child K wfd) p l3 s)

    start_child-Orderly :
        (uuid : String) (l : Log)
        → Every NoSignal l
        → Orderly (start_child K N opts cpus memory uuid l).1
    unfolding start_child
    start_child-Orderly uuid l quiet =
        let quiet1 =
          Emits-Every (make_sync_pipe K) l
            (Emits-weaken _ Ordinary-NoSignal (make_sync_pipe-Ordinary K)) quiet in
        let l1 = (make_sync_pipe K l).1 in
        bind_log Orderly (make_sync_pipe K) _ l (λ _ _. inl quiet1)
          λ ends _.
            let making = wrapping "cannot create sandbox: %w" [] (clone K opts) in
            let quiet2 = Every-closing ends.0 ends.1 making l1 making-NoSignal quiet1 in
            bind_log Orderly (or_close K ends.0 ends.1 making) _ l1 (λ _ _. inl quiet2)
              λ child e.
                let l2 = (or_close K ends.0 ends.1 making l1).1 in
                let made = clone-Cloned K N opts cpus memory ends.0 ends.1 l1 (λ i. (e i, l2)) in
                let_go-Orderly uuid ends.0 ends.1 child l2 made quiet2

    pub new_sandbox-Orderly : Orderly (new_sandbox K N opts cpus memory []).1
    unfolding new_sandbox query ◌>>=◌ raise
    new_sandbox-Orderly = elim (Bool-cases (K.geteuid (done new_uuid ∷ []) =ᵇ 0)) [
      | inl p ↦ rw p (start_child-Orderly _ _ (tt, (tt, tt)))
      | inr p ↦ rw p (inl (tt, (tt, tt)))
    ]
