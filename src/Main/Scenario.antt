-- ===== src/Main/Scenario.antt =====
-- A whole run of a sandbox with a bridged network, at a concrete input.
use microbox.Base.{true, false, some, [], ◌∷◌, ◌≡◌, refl}
use microbox.Base.Space.{negsuc}
use microbox.Base.Cut.{cut}
use microbox.Base.Text.{split, join_with}
use microbox.Base.Decimal.{decimal, value_from, is_natural, all_digits}
use microbox.Filepath.{clean, clean_parts, clean_step, dir, render}
use microbox.Base.Keys.{string_eq, member, insert, insert_all}
use microbox.Os.{
  Log, close_fd, write_fd, ok, pure, raise, ◌>>=◌, wrapping, os_mkdir_all, perform, finally,
  branching, ignoring, query, syscall_mode, ask, attempt, tolerating, tell, os_write_file,
}
use microbox.Os.Success.{done}
use microbox.Net.{net_bridge}
use microbox.Net.Sample.{counting, keeping, keeping-Honest, second_allocator}
use microbox.Net.Address.{
  ip_string, parse_ip, octet, parse_prefix, parse_cidr, cidr_string, network_of,
}
use microbox.Net.Ipam.{
  allocated_ip, allocate_parsed, allocate_in, allocated, consider, db_update, in_transaction, pick,
  put_if_free, reserve_first, reserved_set, with_db, allocate_ip, release, delete_key,
}
use microbox.Net.Interfaces.{
  is_assigned, assign_parsed, assign_addr, enable_ipv4_forwarding, first_interface, default_entry,
  default_interface, wait_round, wait_until, wait_link_by_name, rename_link, assign_twice,
  route_parsed, default_route, loopback_up, configure_inside, in_namespace, in_child,
  configure_container_interface,
}
use microbox.Net.Veth.{
  up_with_address, add_new_bridge, create_bridge, attach_to, create_veth_pair, set_nat, delete_veth,
  set_up_veth, setup_veth_networking,
}
use microbox.Net.Rules.{insert_unless, ensure_ipt_rule, add_forwarding_rules, add_masquerade_rule}
use microbox.Net.Container.{cleanup_all, connect, setup_in_mode, setup_container_networking}
use microbox.Sandbox.Pipe.{make_sync_pipe, signal_child}
use microbox.Sandbox.Id.{setup_id_mappings, map_child, deny_setgroups, map_root, write_map}
use microbox.Sandbox.Cgroup.{
  cg_parent, setup_cgroup_limits, ensure_cgroup_parent, enable_controllers, enable_all, fill_cgroup,
  set_cpu, set_memory, limit_memory, cleanup_cgroup, kill_members, remove_group,
}
use microbox.Sandbox.Flags.{
  SandboxOptions, user_namespace_isolated, clone_args, create_sandbox_flags,
}
use microbox.Sandbox.Parent.{
  SandboxProcess, as_int, written_int, clone, new_sandbox, start_child, let_go, or_close, map_ids,
  set_network, wait, wait_loop, after_wait4, clean_network, after_exit, wait_and_clean, exit_status,
}
use microbox.Os.{do_stat, os_mkdir, for_each, lift, log_warn}
use microbox.Filepath.{join}
use microbox.Fs.Mount.{fs_host}
use microbox.Main.{bridge_networking}
use microbox.Main.Lifecycle.{bridge_leases, lifecycle-leases}

abbrev pub bridged_opts : SandboxOptions
bridged_opts = record {
  fs = record { mode = fs_host; path = "" };
  read_only = true;
  net = net_bridge;
  mount_ro = [];
  mount_rw = [];
  capabilities = record { add = []; drop = [] };
  namespace_mode = user_namespace_isolated;
  name_serv = [];
  env = [];
  allow_sys = [];
  deny_sys = [];
  commands = "/bin/true" ∷ [];
  hostname = "box";
  storage = 1048576;
}

abbrev process : SandboxProcess
process = record {
  uuid = "9b2d";
  pidfd = negsuc 4294967289;
  pid = 42;
  network = some (
      cleanup_all keeping second_allocator
        (delete_veth keeping (record { name = "vmbx42"; index = 5; master = 0 })));
  cg_path = join cg_parent "42-0";
}

abbrev pub started_log : Log
started_log =
    (new_sandbox keeping (bridge_networking keeping counting 4) bridged_opts
      (record { unlimited = false; quota = 50000 }) 1000 []).1

started :
    new_sandbox keeping
      (bridge_networking keeping counting 4)
      bridged_opts
      (record { unlimited = false; quota = 50000 })
      1000
      []
    ≡ (ok process, started_log)
unfolding allocate_ip allocate_parsed parse_cidr cut parse_ip split octet decimal value_from
    parse_prefix is_natural allocate_in ◌>>=◌ wrapping os_mkdir_all perform with_db finally
    all_digits insert insert_all member join_with clean clean_parts clean_step dir render ip_string
    network_of allocated consider db_update in_transaction pick put_if_free reserve_first
    reserved_set branching ignoring pure query raise syscall_mode is_assigned assign_parsed
    assign_addr enable_ipv4_forwarding first_interface default_entry default_interface wait_round
    wait_until wait_link_by_name rename_link assign_twice route_parsed default_route loopback_up
    configure_inside in_namespace in_child configure_container_interface insert_unless
    ensure_ipt_rule add_forwarding_rules add_masquerade_rule up_with_address add_new_bridge
    create_bridge attach_to create_veth_pair set_nat delete_veth set_up_veth setup_veth_networking
    cleanup_all connect setup_in_mode setup_container_networking ask attempt tolerating tell
    os_write_file allocated_ip cidr_string release delete_key new_sandbox start_child make_sync_pipe
    clone clone_args as_int written_int let_go or_close map_ids setup_id_mappings map_child
    deny_setgroups map_root write_map do_stat set_network signal_child create_sandbox_flags
    setup_cgroup_limits ensure_cgroup_parent enable_controllers enable_all fill_cgroup set_cpu
    set_memory limit_memory os_mkdir for_each lift bridge_networking
started = refl

abbrev pub but_two : Log → Log
but_two (e ∷ f ∷ l) = l
but_two l = []

pub signalled : started_log ≡ done (close_fd 4) ∷ done (write_fd 4 "\u{1}") ∷ but_two started_log
unfolding allocate_ip allocate_parsed parse_cidr cut parse_ip split octet decimal value_from
    parse_prefix is_natural allocate_in ◌>>=◌ wrapping os_mkdir_all perform with_db finally
    all_digits insert insert_all member join_with clean clean_parts clean_step dir render ip_string
    network_of allocated consider db_update in_transaction pick put_if_free reserve_first
    reserved_set branching ignoring pure query raise syscall_mode is_assigned assign_parsed
    assign_addr enable_ipv4_forwarding first_interface default_entry default_interface wait_round
    wait_until wait_link_by_name rename_link assign_twice route_parsed default_route loopback_up
    configure_inside in_namespace in_child configure_container_interface insert_unless
    ensure_ipt_rule add_forwarding_rules add_masquerade_rule up_with_address add_new_bridge
    create_bridge attach_to create_veth_pair set_nat delete_veth set_up_veth setup_veth_networking
    cleanup_all connect setup_in_mode setup_container_networking ask attempt tolerating tell
    os_write_file allocated_ip cidr_string release delete_key new_sandbox start_child make_sync_pipe
    clone clone_args as_int written_int let_go or_close map_ids setup_id_mappings map_child
    deny_setgroups map_root write_map do_stat set_network signal_child create_sandbox_flags
    setup_cgroup_limits ensure_cgroup_parent enable_controllers enable_all fill_cgroup set_cpu
    set_memory limit_memory os_mkdir for_each lift bridge_networking
signalled = refl

abbrev waited_log : Log
waited_log = (wait keeping 1 process started_log).1

waited : wait keeping 1 process started_log ≡ (ok (some 0), waited_log)
unfolding allocate_ip allocate_parsed parse_cidr cut parse_ip split octet decimal value_from
    parse_prefix is_natural allocate_in ◌>>=◌ wrapping os_mkdir_all perform with_db finally
    all_digits insert insert_all member join_with clean clean_parts clean_step dir render ip_string
    network_of allocated consider db_update in_transaction pick put_if_free reserve_first
    reserved_set branching ignoring pure query raise syscall_mode is_assigned assign_parsed
    assign_addr enable_ipv4_forwarding first_interface default_entry default_interface wait_round
    wait_until wait_link_by_name rename_link assign_twice route_parsed default_route loopback_up
    configure_inside in_namespace in_child configure_container_interface insert_unless
    ensure_ipt_rule add_forwarding_rules add_masquerade_rule up_with_address add_new_bridge
    create_bridge attach_to create_veth_pair set_nat delete_veth set_up_veth setup_veth_networking
    cleanup_all connect setup_in_mode setup_container_networking ask attempt tolerating tell
    os_write_file allocated_ip cidr_string release delete_key new_sandbox start_child make_sync_pipe
    clone clone_args as_int written_int let_go or_close map_ids setup_id_mappings map_child
    deny_setgroups map_root write_map do_stat set_network signal_child create_sandbox_flags
    setup_cgroup_limits ensure_cgroup_parent enable_controllers enable_all fill_cgroup set_cpu
    set_memory limit_memory os_mkdir for_each lift bridge_networking wait wait_loop after_wait4
    clean_network after_exit wait_and_clean exit_status cleanup_cgroup kill_members remove_group
    log_warn
waited = refl

lifecycle-leases_example : bridge_leases waited_log "10.44.0.2" ≡ bridge_leases [] "10.44.0.2"
lifecycle-leases_example =
    lifecycle-leases keeping counting 4 1 bridged_opts (record { unlimited = false; quota = 50000 })
      1000 keeping-Honest (λ l c. refl) refl [] started_log waited_log process 0 started waited
      "10.44.0.2"
