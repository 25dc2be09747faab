-- ===== src/Sandbox/Parent/Quiet.antt =====
-- Which kinds of calls the parent makes, but for its network.
use microbox.Base.{ℕ, zero, suc, String, Option, none, some, List}
use microbox.Os.{WaitStatus, Result, ok, err, Kernel, Io, os_write_file, os_mkdir, log_warn}
use microbox.Os.Keeps.{Emits, emits_rules, Emits-each}
use microbox.Base.Space.{ℤ, atoi}
use microbox.Os.Kinds.{Ordinary}
use microbox.Net.Ipam.Leases.{Neutral}
use microbox.Sandbox.Flags.{SandboxOptions}
use microbox.Sandbox.Pipe.{make_sync_pipe, signal_child, close_pipe}
use microbox.Sandbox.Id.{
  write_map, scan_ranges, first_subid_range, run_helper, deny_setgroups, map_root, map_with_helpers,
  with_helpers, map_rootless, map_child, setup_id_mappings,
}
use microbox.Sandbox.Cgroup.{
  CpuShare, os_read_file, enable_all, enable_controllers, ensure_cgroup_parent, set_cpu,
  limit_memory, set_memory, fill_cgroup, setup_cgroup_limits, kill_word, kill_members, kill_number,
  remove_group, cleanup_cgroup,
}
use microbox.Sandbox.Parent.{clone, or_close, map_ids, after_wait4, wait_loop}

module _ (K : Kernel) where
  pub make_sync_pipe-Ordinary : Emits Ordinary (make_sync_pipe K)
  unfolding make_sync_pipe
  make_sync_pipe-Ordinary = search emits_rules

  pub signal_child-Neutral : (wfd : ℕ) → Emits Neutral (signal_child K wfd)
  unfolding signal_child
  signal_child-Neutral wfd = search emits_rules depth 12

  pub close_pipe-Ordinary : (rfd wfd : ℕ) → Emits Ordinary (close_pipe K rfd wfd)
  unfolding close_pipe
  close_pipe-Ordinary rfd wfd = search emits_rules depth 12

  or_close-Ordinary :
      {A : Type 0} (rfd wfd : ℕ) (m : Io A)
      → Emits Ordinary m
      → Emits Ordinary (or_close K rfd wfd m)
  unfolding or_close
  or_close-Ordinary rfd wfd m h = search (emits_rules, close_pipe-Ordinary) depth 12

  write_map-Ordinary :
      (path : String) (inside outside length : ℕ)
      → Emits Ordinary (write_map K path inside outside length)
  unfolding write_map os_write_file
  write_map-Ordinary path inside outside length = search emits_rules depth 12

  scan_ranges-Ordinary : (file username : String) → Emits Ordinary (scan_ranges K file username)
  unfolding scan_ranges
  scan_ranges-Ordinary file username = search emits_rules depth 12

  first_subid_range-Ordinary :
      (file username : String) → Emits Ordinary (first_subid_range K file username)
  unfolding first_subid_range
  first_subid_range-Ordinary file username = search (emits_rules, scan_ranges-Ordinary) depth 12

  run_helper-Ordinary :
      (name program : String) (args : List String) → Emits Ordinary (run_helper K name program args)
  unfolding run_helper
  run_helper-Ordinary name program args = search emits_rules depth 12

  deny_setgroups-Ordinary : (child_pid : ℕ) → Emits Ordinary (deny_setgroups K child_pid)
  unfolding deny_setgroups os_write_file
  deny_setgroups-Ordinary child_pid = search emits_rules depth 12

  map_root-Ordinary : (child_pid : ℕ) → Emits Ordinary (map_root K child_pid)
  unfolding map_root
  map_root-Ordinary child_pid = search (emits_rules, write_map-Ordinary) depth 12

  map_with_helpers-Ordinary :
      (child_pid euid egid : ℕ) (u g : String)
      → Emits Ordinary (map_with_helpers K child_pid euid egid u g)
  unfolding map_with_helpers
  map_with_helpers-Ordinary child_pid euid egid u g =
      search (emits_rules, first_subid_range-Ordinary, deny_setgroups-Ordinary, run_helper-Ordinary)
        depth 14

  os_read_file-Ordinary : (path : String) → Emits Ordinary (os_read_file K path)
  unfolding os_read_file
  os_read_file-Ordinary path = search emits_rules depth 12

  set_cpu-Ordinary : (cg_path : String) (cpus : CpuShare) → Emits Ordinary (set_cpu K cg_path cpus)
  unfolding set_cpu os_write_file
  set_cpu-Ordinary cg_path cpus = search emits_rules depth 12

  limit_memory-Ordinary :
      (cg_path : String) (memory : ℕ) → Emits Ordinary (limit_memory K cg_path memory)
  unfolding limit_memory os_write_file
  limit_memory-Ordinary cg_path memory = search emits_rules depth 12

  set_memory-Ordinary :
      (cg_path : String) (memory : ℕ) → Emits Ordinary (set_memory K cg_path memory)
  unfolding set_memory os_write_file
  set_memory-Ordinary cg_path memory = search (emits_rules, limit_memory-Ordinary) depth 12

  fill_cgroup-Ordinary :
      (cg_path : String) (pid : ℕ) (cpus : CpuShare) (memory : ℕ)
      → Emits Ordinary (fill_cgroup K cg_path pid cpus memory)
  unfolding fill_cgroup os_write_file
  fill_cgroup-Ordinary cg_path pid cpus memory =
      search (emits_rules, set_cpu-Ordinary, set_memory-Ordinary) depth 12

  remove_group-Ordinary : (cg_path : String) → Emits Ordinary (remove_group K cg_path)
  unfolding remove_group
  remove_group-Ordinary cg_path = search emits_rules depth 12

  with_helpers-Ordinary :
      (child_pid euid egid : ℕ) (u g : Result String)
      → Emits Ordinary (with_helpers K child_pid euid egid u g)
  unfolding with_helpers
  with_helpers-Ordinary child_pid euid egid (ok u) (ok g) =
      map_with_helpers-Ordinary child_pid euid egid u g
  with_helpers-Ordinary child_pid euid egid (ok u) (err e) = search emits_rules
  with_helpers-Ordinary child_pid euid egid (err e) g = search emits_rules

  map_rootless-Ordinary :
      (child_pid euid egid : ℕ) → Emits Ordinary (map_rootless K child_pid euid egid)
  unfolding map_rootless
  map_rootless-Ordinary child_pid euid egid = search (emits_rules, with_helpers-Ordinary) depth 12

  map_child-Ordinary : (child_pid : ℕ) → Emits Ordinary (map_child K child_pid)
  unfolding map_child
  map_child-Ordinary child_pid =
      search (emits_rules, deny_setgroups-Ordinary, map_root-Ordinary, map_rootless-Ordinary) depth
        12

  setup_id_mappings-Ordinary : (child_pid : ℕ) → Emits Ordinary (setup_id_mappings K child_pid)
  unfolding setup_id_mappings
  setup_id_mappings-Ordinary child_pid = search (emits_rules, map_child-Ordinary) depth 12

  pub clone-Ordinary : (opts : SandboxOptions) → Emits Ordinary (clone K opts)
  unfolding clone
  clone-Ordinary opts = search emits_rules

  pub map_ids-Ordinary : (opts : SandboxOptions) (pid : ℕ) → Emits Ordinary (map_ids K opts pid)
  unfolding map_ids
  map_ids-Ordinary opts pid = search (emits_rules, setup_id_mappings-Ordinary) depth 12

  enable_all-Ordinary :
      (path : String) (ctrls : List String) → Emits Ordinary (enable_all K path ctrls)
  unfolding enable_all
  enable_all-Ordinary path ctrls = Emits-each ctrls _ (λ c. search emits_rules depth 9)

  enable_controllers-Ordinary :
      (parent_path : String) (ctrls : List String)
      → Emits Ordinary (enable_controllers K parent_path ctrls)
  unfolding enable_controllers
  enable_controllers-Ordinary parent_path ctrls = search (emits_rules, enable_all-Ordinary) depth 12

  ensure_cgroup_parent-Ordinary : Emits Ordinary (ensure_cgroup_parent K)
  unfolding ensure_cgroup_parent os_mkdir
  ensure_cgroup_parent-Ordinary = search (emits_rules, enable_controllers-Ordinary) depth 12

  pub setup_cgroup_limits-Ordinary :
      (pid : ℕ) (cpus : CpuShare) (memory : ℕ)
      → Emits Ordinary (setup_cgroup_limits K pid cpus memory)
  unfolding setup_cgroup_limits os_mkdir
  setup_cgroup_limits-Ordinary pid cpus memory =
      search (emits_rules, ensure_cgroup_parent-Ordinary, fill_cgroup-Ordinary) depth 12

  kill_number-Ordinary : (pid : Option ℤ) → Emits Ordinary (kill_number K pid)
  unfolding kill_number
  kill_number-Ordinary none = search emits_rules
  kill_number-Ordinary (some pid) = search emits_rules depth 9

  kill_word-Ordinary : (f : String) → Emits Ordinary (kill_word K f)
  unfolding kill_word
  kill_word-Ordinary f = kill_number-Ordinary (atoi f)

  kill_members-Ordinary : (cg_path : String) → Emits Ordinary (kill_members K cg_path)
  unfolding kill_members
  kill_members-Ordinary cg_path =
      search (emits_rules, os_read_file-Ordinary, Emits-each, kill_word-Ordinary) depth 9

  pub cleanup_cgroup-Ordinary : (cg_path : String) → Emits Ordinary (cleanup_cgroup K cg_path)
  unfolding cleanup_cgroup os_write_file
  cleanup_cgroup-Ordinary cg_path =
      search (emits_rules, kill_members-Ordinary, remove_group-Ordinary) depth 12

  after_wait4-Ordinary :
      (pid : ℕ) (again : Io (Option WaitStatus)) (r : Result (ℕ × WaitStatus))
      → Emits Ordinary again
      → Emits Ordinary (after_wait4 K pid again r)
  unfolding after_wait4
  after_wait4-Ordinary pid again (ok r) h = search emits_rules depth 9
  after_wait4-Ordinary pid again (err e) h = search emits_rules depth 9

  pub wait_loop-Ordinary : (rounds pid : ℕ) → Emits Ordinary (wait_loop K rounds pid)
  unfolding wait_loop
  wait_loop-Ordinary zero pid = search emits_rules
  wait_loop-Ordinary (suc rounds) pid =
      let again = wait_loop-Ordinary rounds pid in
      search (emits_rules, after_wait4-Ordinary) depth 9

  pub log_warn-Ordinary : (message : String) → Emits Ordinary (log_warn K message)
  unfolding log_warn
  log_warn-Ordinary message = search emits_rules depth 9
