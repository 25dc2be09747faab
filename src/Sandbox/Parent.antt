-- ===== src/Sandbox/Parent.antt =====
-- sandbox/sandbox.go: what the parent does: `NewSandbox`, and `SandboxProcess.Wait`.
pub mod Signalled
pub mod Descriptor
pub mod Waiting
pub mod Quiet
use microbox.Base.{
  ℕ, zero, suc, ◌+◌, ◌-◌, ◌*◌, ◌/◌, ◌%◌, ◌^◌, ltb, String, Bool, true, false, not, List, [], ◌∷◌,
  Option, none, some, if◌then◌else◌, ◌=ᵇ◌,
}
use microbox.Base.Space.{ℤ, pos, negsuc}
use microbox.Net.{NetworkMode, net_none, net_host, net_bridge, other_network}
use microbox.Os.{
  Errno, eintr, Error, errno, errorf, WaitStatus, exited, signaled, other_status, geteuid, new_uuid,
  clone3, wait4, Log, Result, ok, err, Reply, got, failed, Kernel, Io, pure, raise, lift, ◌>>=◌,
  ◌>>◌, ask, query, attempt, wrapping, finally, branching, log_warn,
}
use microbox.Sandbox.Flags.{SandboxOptions, clone_args, is_user_namespace_host}
use microbox.Sandbox.Pipe.{make_sync_pipe, close_pipe, signal_child}
use microbox.Sandbox.Id.{setup_id_mappings}
use microbox.Sandbox.Cgroup.{CpuShare, setup_cgroup_limits, cleanup_cgroup}

-- The network of a child: what sets it up, given the child and the mode, and returns what cleans it
-- up again.
pub record Networking : Type 0 where
  pub setup_container_networking : ℕ → NetworkMode → Io (Io (Unit {0}))

pub record SandboxProcess : Type 0 where
  pub uuid : String
  pub pidfd : ℤ
  pub pid : ℕ
  pub network : Option (Io (Unit {0}))
  pub cg_path : String

-- `-1`, as the 64 bits of a Go `int`.
abbrev pub minus_one : ℕ
minus_one = 2 ^ 64 - 1

-- The variable, once clone3(2) has written the descriptor to its address: a C `int`, which is the
-- lower half of a Go `int` on a little-endian machine.
unfoldable pub written_int : ℕ → ℕ → ℕ
written_int variable fd = variable / 2 ^ 32 * 2 ^ 32 + fd % 2 ^ 32

-- The number that the 64 bits of a Go `int` stand for.
unfoldable pub as_int : ℕ → ℤ
as_int bits = if ltb bits (2 ^ 63) then pos bits else negsuc (2 ^ 64 - 1 - bits)

-- Whether the network has to be set up.
abbrev pub is_networked : NetworkMode → Bool
is_networked net_host = false
is_networked net_none = false
is_networked net_bridge = true
is_networked (other_network n) = true

module _ (K : Kernel) where
  -- `if err := m; err != nil { ClosePipe(rfd, wfd); return nil, err }`
  unfoldable pub or_close {ℓ} : {A : Type ℓ} → ℕ → ℕ → Io A → Io A
  or_close rfd wfd m = branching m pure (λ e. close_pipe K rfd wfd >> raise e)

  -- The system call `clone3`, with the descriptor that it writes for the child.
  unfoldable pub clone : SandboxOptions → Io (ℕ × ℕ)
  clone opts = ask (clone3 (clone_args opts)) K.clone3

  unfoldable pub map_ids : SandboxOptions → ℕ → Io (Unit {0})
  map_ids opts pid =
      if is_user_namespace_host opts.namespace_mode then pure tt else setup_id_mappings K pid

module _ (K : Kernel) (N : Networking) (opts : SandboxOptions) (cpus : CpuShare) (memory : ℕ) where
  unfoldable pub set_network : ℕ → Io (Option (Io (Unit {0})))
  set_network pid =
      if is_networked opts.net
      then (do cleanup ← N.setup_container_networking pid opts.net; pure (some cleanup))
      else pure none

  -- From the child's start on, with both ends of the pipe.
  unfoldable pub let_go : String → ℕ → ℕ → ℕ × ℕ → Io SandboxProcess
  let_go uuid rfd wfd child = do
    let pid = child.0
    or_close K rfd wfd (map_ids K opts pid)
    cg_path ← or_close K rfd wfd (setup_cgroup_limits K pid cpus memory)
    network ← or_close K rfd wfd (set_network pid)
    signal_child K wfd
    pure (record {
      uuid = uuid;
      pidfd = as_int (written_int minus_one child.1);
      pid = pid;
      network = network;
      cg_path = cg_path;
    })

  unfoldable pub start_child : String → Io SandboxProcess
  start_child uuid = do
    ends ← make_sync_pipe K
    child ← or_close K ends.0 ends.1 (wrapping "cannot create sandbox: %w" [] (clone K opts))
    let_go uuid ends.0 ends.1 child

  -- `NewSandbox`, as the parent runs it.
  unfoldable pub new_sandbox : Io SandboxProcess
  new_sandbox = do
    uuid ← query new_uuid K.new_uuid
    euid ← query geteuid K.geteuid
    if euid =ᵇ 0
        then start_child uuid
        else raise (errorf "microbox must be run as root or with sudo" [])

-- `err == unix.EINTR`
abbrev pub is_eintr : Error → Bool
is_eintr (errno eintr) = true
is_eintr _ = false

-- What `Wait` returns for the status that the kernel reported.
unfoldable pub exit_status : WaitStatus → ℕ
exit_status (exited n) = n
exit_status (signaled n) = 128 + n
exit_status other_status = 0

module _ (K : Kernel) where
  -- What a round of the loop of `Wait` does with the kernel's answer.
  unfoldable pub after_wait4 :
      ℕ → Io (Option WaitStatus) → Result (ℕ × WaitStatus) → Io (Option WaitStatus)
  after_wait4 pid again (ok (wpid, ws)) = if wpid =ᵇ pid then pure (some ws) else again
  after_wait4 pid again (err e) = if is_eintr e then again else raise e

  -- The loop, for a number of rounds: `none` when they are used up.
  unfoldable pub wait_loop : ℕ → ℕ → Io (Option WaitStatus)
  wait_loop zero pid = pure none
  wait_loop (suc rounds) pid =
      attempt (ask (wait4 pid) (λ l. K.wait4 l pid)) >>= after_wait4 pid (wait_loop rounds pid)

  unfoldable pub clean_network : Option (Io (Unit {0})) → Io (Unit {0})
  clean_network none = pure tt
  clean_network (some cleanup) =
      branching cleanup pure (λ _. log_warn K "failed to cleanup networking")

  unfoldable pub after_exit : SandboxProcess → Option WaitStatus → Io (Option ℕ)
  after_exit p none = pure none
  after_exit p (some ws) = clean_network p.network >> pure (some (exit_status ws))

  unfoldable pub wait_and_clean : ℕ → SandboxProcess → Io (Option ℕ)
  wait_and_clean rounds p = do ws ← wait_loop rounds p.pid; after_exit p ws

  -- `SandboxProcess.Wait`, for a number of rounds.
  unfoldable pub wait : ℕ → SandboxProcess → Io (Option ℕ)
  wait rounds p =
      if p.pid =ᵇ 0
      then raise (errorf "invalid process" [])
      else finally (wait_and_clean rounds p) (cleanup_cgroup K p.cg_path)
