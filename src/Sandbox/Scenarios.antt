-- ===== src/Sandbox/Scenarios.antt =====
-- The theorems on the sandbox's processes at concrete inputs.
use microbox.Base.{
  ℕ, ◌++◌, sym, ◌∙◌, inl, inr, ◌-◌, ◌*◌, ◌^◌, arith, String, ◌<>◌, true, false, List, [], ◌∷◌, ◌≡◌,
  refl, Option, some, ◌⊎◌,
}
use microbox.Base.Decimal.{decimal}
use microbox.Base.Space.{negsuc}
use microbox.Filepath.{join}
use microbox.Net.{net_bridge}
use microbox.Os.{
  Errno, eintr, read_fd, write_fd, close_fd, exit, new_uuid, Log, signaled, wait4, remove, newns,
  newpid, newnet, newuser, has_clone_flag, errorf, ok, got, failed, Kernel, pure, raise, lift,
  ◌>>=◌, ask, query, attempt, wrapping, tolerating, ignoring, branching, finally, perform, do_stat,
  for_each, os_mkdir, os_write_file,
}
use microbox.Os.Success.{done}
use microbox.Os.Sample.{obliging}
use microbox.Fs.Mount.{fs_tmpfs}
use microbox.Sandbox.Capabilities.{CapLibrary}
use microbox.Sandbox.Pipe.{wait_for_parent, make_sync_pipe, signal_child, close_pipe}
use microbox.Sandbox.Flags.{
  SandboxOptions, user_namespace_isolated, clone_args, create_sandbox_flags,
}
use microbox.Sandbox.Flags.Laws.{has_clone_flag-create_sandbox_flags}
use microbox.Sandbox.Id.{write_map, map_root, map_child, deny_setgroups, setup_id_mappings}
use microbox.Sandbox.Cgroup.{
  CpuShare, cg_parent, cpu_line, set_cpu, limit_memory, set_memory, fill_cgroup, enable_all,
  enable_controllers, ensure_cgroup_parent, setup_cgroup_limits, cleanup_cgroup,
}
use microbox.Sandbox.Cgroup.Limits.{
  set_file, MemoryCalls, setup_cgroup_limits-eq-ok, cleanup_cgroup_removes,
}
use microbox.Sandbox.Child.{exit_with, child_main}
use microbox.Os.Kinds.{Local, NoSignal}
use microbox.Os.Keeps.{Emits}
use microbox.Sandbox.Sample.{default_library}
use microbox.Sandbox.Child.Local.{child_main-Local}
use microbox.Sandbox.Parent.Descriptor.{new_sandbox_pidfd}
use microbox.Sandbox.Child.Launched.{Exited, Launched, child_main-Launched}
use microbox.Sandbox.Parent.{
  Networking, SandboxProcess, as_int, written_int, clone, or_close, map_ids, set_network, let_go,
  start_child, new_sandbox, wait,
}
use microbox.Sandbox.Parent.Signalled.{LetGo, new_sandbox-LetGo}
use microbox.Sandbox.System.{parent, child, History, Happened, Together}
use microbox.Sandbox.System.Logs.{Every-Later}
use microbox.Sandbox.System.Sides.{new_sandbox-Orderly}
use microbox.Sandbox.System.Start.{Waits}
use microbox.Sandbox.System.Released.{unwritten-Waits}
use microbox.Sandbox.System.Sequential.{tagged, calls_of-tagged, not-calls_of-tagged, no_child}
use microbox.Os.Keeps.{Later-refl, Emits-raise}
use microbox.Sandbox.Parent.Waiting.{interrupted, Reported, Cleaned, wait_returns}

abbrev shell_opts : SandboxOptions
shell_opts = record {
  fs = record { mode = fs_tmpfs; path = "" };
  read_only = true;
  net = net_bridge;
  mount_ro = [];
  mount_rw = [];
  capabilities = record { add = []; drop = 0 ∷ [] };
  namespace_mode = user_namespace_isolated;
  name_serv = [];
  env = record { key = "HOME"; val = "/root" } ∷ record { key = "A"; val = "b=c" } ∷ [];
  allow_sys = [];
  deny_sys = "fork" ∷ [];
  commands = "/bin/sh" ∷ "-c" ∷ "true" ∷ [];
  hostname = "box";
  storage = 64 * 2 ^ 20;
}

abbrev empty_library : CapLibrary
empty_library = record { list_known = []; name = λ _. "" }

abbrev half_cpu : CpuShare
half_cpu = record { unlimited = false; quota = 50000 }

abbrev easy_network : Networking
easy_network = record { setup_container_networking = λ pid mode. pure (pure tt) }

abbrev no_network : Networking
no_network = record { setup_container_networking = λ pid mode. raise (errorf "no bridge" []) }

-- The first wait is interrupted; the process is killed by SIGKILL. Its network cannot be cleaned up.
abbrev interrupting : Kernel
interrupting = record obliging {
  wait4 = λ l pid. elim l [ [] ↦ failed eintr | e ∷ _ ↦ got (pid, signaled 9) ];
}

abbrev running : SandboxProcess
running = record {
  uuid = "9b2d";
  pidfd = negsuc 4294967289;
  pid = 42;
  network = some (raise (errorf "no such interface" []));
  cg_path = "/sys/fs/cgroup/microbox/42-7";
}

has_clone_flag-create_sandbox_flags_example :
    (has_clone_flag newns (create_sandbox_flags shell_opts) ≡ true)
    × (has_clone_flag newpid (create_sandbox_flags shell_opts) ≡ true)
    × (has_clone_flag newnet (create_sandbox_flags shell_opts) ≡ true)
    × (has_clone_flag newuser (create_sandbox_flags shell_opts) ≡ true)
has_clone_flag-create_sandbox_flags_example = has_clone_flag-create_sandbox_flags shell_opts

abbrev subid_lines : List String
subid_lines = "# ranges" ∷ "bob:1:2" ∷ "ann:100000:65536" ∷ "ann:5:6" ∷ []

setup_cgroup_limits-eq-ok_example :
    (t : ℕ) × (made : Log) × (limited : Log) × (join cg_parent "42-7"
      ≡ join cg_parent (decimal 42 <> "-" <> decimal t))
    × MemoryCalls
        (join cg_parent (decimal 42 <> "-" <> decimal t))
        1000
        (set_file (join cg_parent (decimal 42 <> "-" <> decimal t)) "cpu.max" (cpu_line half_cpu)
          ∷ made)
        limited
    × ((setup_cgroup_limits obliging 42 half_cpu 1000 []).1
        ≡ set_file (join cg_parent (decimal 42 <> "-" <> decimal t)) "cgroup.procs" (decimal 42)
          ∷ limited)
unfolding setup_cgroup_limits ensure_cgroup_parent enable_controllers enable_all fill_cgroup set_cpu
    set_memory limit_memory os_mkdir os_write_file wrapping tolerating finally ignoring for_each
    query perform pure decimal ◌>>=◌
setup_cgroup_limits-eq-ok_example = setup_cgroup_limits-eq-ok obliging 42 half_cpu 1000 [] refl

cleanup_cgroup_removes_example :
    (k : Log) × (r : Option Errno) × ((cleanup_cgroup obliging "/sys/fs/cgroup/microbox/42-7" []).1
      ≡ record { call = remove "/sys/fs/cgroup/microbox/42-7"; failure = r } ∷ k)
cleanup_cgroup_removes_example =
    cleanup_cgroup_removes obliging "/sys/fs/cgroup/microbox/42-7" [] refl

child_main-Launched_example :
    Exited 1 (child_main obliging default_library (λ _. true) shell_opts 3 []).1
    ⊎ Launched obliging default_library
        (λ _. true)
        shell_opts
        3
        []
        (child_main obliging default_library (λ _. true) shell_opts 3 []).1
child_main-Launched_example =
    child_main-Launched obliging default_library (λ _. true) shell_opts 3 []

new_sandbox-LetGo_example :
    (obliging.geteuid (done new_uuid ∷ []) ≡ 0)
    × LetGo obliging easy_network shell_opts half_cpu 1000
        (record {
          uuid = "9b2d";
          pidfd = negsuc 4294967289;
          pid = 42;
          network = some (pure tt);
          cg_path = join cg_parent "42-7";
        })
        (new_sandbox obliging easy_network shell_opts half_cpu 1000 []).1
unfolding new_sandbox start_child make_sync_pipe clone clone_args as_int written_int let_go or_close
    map_ids setup_id_mappings map_child deny_setgroups map_root write_map do_stat set_network
    signal_child create_sandbox_flags setup_cgroup_limits ensure_cgroup_parent enable_controllers
    enable_all fill_cgroup set_cpu set_memory limit_memory os_mkdir os_write_file wrapping
    tolerating finally ignoring for_each query perform pure lift attempt ask branching decimal ◌>>=◌
new_sandbox-LetGo_example = new_sandbox-LetGo obliging easy_network shell_opts half_cpu 1000 [] refl

new_sandbox_pidfd_example :
    (k : Log) × (fd : ℕ) × (obliging.clone3 k ≡ got (42, fd))
    × (negsuc 4294967289 ≡ negsuc (2 ^ 32 - 1 - fd))
unfolding new_sandbox start_child make_sync_pipe clone clone_args as_int written_int let_go or_close
    map_ids setup_id_mappings map_child deny_setgroups map_root write_map do_stat set_network
    signal_child create_sandbox_flags setup_cgroup_limits ensure_cgroup_parent enable_controllers
    enable_all fill_cgroup set_cpu set_memory limit_memory os_mkdir os_write_file wrapping
    tolerating finally ignoring for_each query perform pure lift attempt ask branching decimal ◌>>=◌
new_sandbox_pidfd_example =
    new_sandbox_pidfd obliging easy_network shell_opts half_cpu 1000
      (λ l c h. let same : 6 ≡ c.1 = cc in omega arith) [] refl

child_main-Local_example : Emits Local (child_main obliging empty_library (λ _. true) shell_opts 3)
child_main-Local_example = child_main-Local obliging empty_library (λ _. true) shell_opts 3

wait_returns_example :
    (code : ℕ) × (l' : Log) × (wait interrupting 5 running [] ≡ (ok (some code), l'))
    × Reported (signaled 9) code
    × Cleaned interrupting running (done (wait4 42) ∷ interrupted 42 1 []) l'
wait_returns_example = wait_returns interrupting 1 3 running (signaled 9) [] refl (refl, refl)

-- A parent whose network cannot be set up, and a child whose read is interrupted.
abbrev unlucky : Kernel
unlucky = record obliging { read_fd = λ l fd. failed eintr }

abbrev stuck_log : Log
stuck_log = (new_sandbox obliging no_network shell_opts half_cpu 1000 []).1

abbrev stuck : History
stuck = (child, record { call = read_fd 3; failure = some eintr }) ∷ tagged parent stuck_log

not_released : (after before : History) → stuck ≡ after ++ (child, done (read_fd 3)) ∷ before → ⊥
not_released [] before p = cc
not_released (x ∷ after) before p = no_child stuck_log after before (done (read_fd 3)) cc

stuck-Together :
    Together obliging unlucky no_network empty_library
      (λ _. true)
      shell_opts
      half_cpu
      1000
      3
      4
      stuck
unfolding child_main wait_for_parent exit_with branching attempt ask ignoring perform lift ◌>>=◌
stuck-Together = record {
  ends = refl;
  by_parent = rw (calls_of-tagged stuck_log) (Later-refl stuck_log);
  by_child = rw (not-calls_of-tagged stuck_log) (done (exit 1) ∷ done (close_fd 3) ∷ [], refl);
  pipe = record { read_returned = λ after before p. absurd (not_released after before p) };
}

abbrev but_two : Log → Log
but_two (e ∷ f ∷ l) = l
but_two l = []

stuck_closed : stuck_log ≡ done (close_fd 4) ∷ done (close_fd 3) ∷ but_two stuck_log
unfolding new_sandbox start_child make_sync_pipe clone clone_args ask query let_go or_close
    close_pipe map_ids setup_id_mappings map_child deny_setgroups map_root write_map do_stat
    set_network setup_cgroup_limits ensure_cgroup_parent enable_controllers enable_all fill_cgroup
    set_cpu set_memory limit_memory os_mkdir os_write_file wrapping tolerating finally ignoring
    for_each perform pure raise branching ◌>>=◌
stuck_closed = refl

stuck_unwritten : (text : String) → Happened (done (write_fd 4 text)) stuck_log → ⊥
stuck_unwritten text (b, later) =
    elim (new_sandbox-Orderly obliging no_network shell_opts half_cpu 1000 (λ _ _. Emits-raise _)) [
      | inl quiet ↦ Every-Later NoSignal stuck_log quiet later
      | inr s ↦ let p = sym stuck_closed ∙ s.whole in cc
    ]

unwritten-Waits_example : Waits 3 (read_fd 3)
unwritten-Waits_example =
    unwritten-Waits obliging unlucky no_network empty_library (λ _. true) shell_opts half_cpu 1000 3
      4 stuck stuck-Together stuck_unwritten [] (tagged parent stuck_log)
      (record { call = read_fd 3; failure = some eintr }) refl
