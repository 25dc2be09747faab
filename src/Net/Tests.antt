-- ===== src/Net/Tests.antt =====
-- The theorems on net/ at concrete inputs.
use microbox.Base.{
  ◌^◌, String, true, false, Option, none, some, List, [], ◌∷◌, ◌≡◌, ◌≢◌, ◌≤◌, refl, arith, ◌⊎◌,
}
use microbox.Base.Cut.{cut}
use microbox.Base.Text.{split, join_with}
use microbox.Base.Decimal.{decimal, value_from, is_natural, all_digits}
use microbox.Filepath.{clean, clean_parts, clean_step, dir, render}
use microbox.Base.Keys.{string_eq, member, insert, insert_all, Distinct}
use microbox.Os.{
  Errno, eperm, Error, errno, wrapf, Call, net, link_set_ns, Log, ok, err, Kernel, pure, raise,
  ◌>>=◌, wrapping, os_mkdir_all, perform, finally, branching, ignoring, query, syscall_mode, ask,
  attempt, tolerating, tell, os_write_file, NetCall,
}
use microbox.Os.Keeps.{Grows-refl}
use microbox.Os.Preserves.{Preserves}
use microbox.Net.{net_bridge}
use microbox.Net.Sample.{
  counting, counting-CidrLaws, keeping, keeping-Honest, keeping-Tables, earlier, keeping-Clock,
  path, second, second_allocator,
}
use microbox.Net.Address.{
  ip_string, parse_ip, octet, parse_prefix, parse_cidr, cidr_string, network_of,
}
use microbox.Net.Ipam.{
  IpamAllocator, allocated_ip, allocate_parsed, allocate_in, allocated, consider, db_update,
  in_transaction, pick, put_if_free, reserve_first, reserved_set, with_db, allocate_ip, release,
  delete_key,
}
use microbox.Net.Ipam.Leases.{is_leased, Honest}
use microbox.Net.Ipam.Picked.{Busy}
use microbox.Net.Ipam.Ends.{allocate_ip_ends, allocate_ip_first}
use microbox.Net.Ipam.Session.{Session, start, allocation, Session-refines, Session-Distinct}
use microbox.Net.Interfaces.{
  is_assigned, assign_parsed, assign_addr, enable_ipv4_forwarding, first_interface, default_entry,
  default_interface, wait_round, wait_until, wait_link_by_name, rename_link, assign_twice,
  route_parsed, default_route, loopback_up, configure_inside, in_namespace, in_child,
  configure_container_interface,
}
use microbox.Net.Veth.{
  host_name, peer_name, up_with_address, add_new_bridge, create_bridge, attach_to, create_veth_pair,
  set_nat, delete_veth, set_up_veth, setup_veth_networking,
}
use microbox.Net.Interfaces.Restored.{namespace_after, configure-returns}
use microbox.Net.Interfaces.Waited.{wait_ends}
use microbox.Net.Rules.{insert_unless, ensure_ipt_rule, add_forwarding_rules, add_masquerade_rule}
use microbox.Net.Rules.Ensured.{OnlyOnce, add_forwarding-OnlyOnce}
use microbox.Net.Container.{
  bridge_options, veth_config, NetworkConfig, NetworkResult, cleanup_all, connect, setup_in_mode,
  setup_container_networking,
}
use microbox.Net.Interfaces.InPlace.{InPlace}
use microbox.Net.Container.InPlace.{setup-InPlace}
use Prim.Native.String.{count}
use microbox.Net.Veth.Names.{names_lem}
use microbox.Net.Container.Held.{setup_then_cleanup, setup_veth_fails}

abbrev allocation_log : Log
allocation_log = (allocate_ip keeping counting 4 bridge_options []).1

first_allocation :
    allocate_ip keeping counting 4 bridge_options [] ≡ (ok (some second_allocator), allocation_log)
unfolding allocate_ip allocate_parsed parse_cidr cut parse_ip split octet decimal value_from
    parse_prefix is_natural allocate_in ◌>>=◌ wrapping os_mkdir_all perform with_db finally
    all_digits insert insert_all member join_with clean clean_parts clean_step dir render ip_string
    network_of allocated consider db_update in_transaction pick put_if_free reserve_first
    reserved_set branching ignoring pure query raise syscall_mode
first_allocation = refl

-- The next allocation passes over the address that is leased.
abbrev third_allocator : IpamAllocator
third_allocator = record second_allocator { ip = 170655747 }

abbrev two_log : Log
two_log = (allocate_ip keeping counting 4 bridge_options allocation_log).1

second_allocation :
    allocate_ip keeping counting 4 bridge_options allocation_log
    ≡ (ok (some third_allocator), two_log)
unfolding allocate_ip allocate_parsed parse_cidr cut parse_ip split octet decimal value_from
    parse_prefix is_natural allocate_in ◌>>=◌ wrapping os_mkdir_all perform with_db finally
    all_digits insert insert_all member join_with clean clean_parts clean_step dir render ip_string
    network_of allocated consider db_update in_transaction pick put_if_free reserve_first
    reserved_set branching ignoring pure query raise syscall_mode
second_allocation = refl

abbrev bucket : String
bucket = "10.44.0.0/24"

abbrev two_held : List String
two_held = ip_string 170655747 ∷ ip_string second ∷ []

two-Session : Session keeping counting path bucket two_log two_held
two-Session =
    allocation 4 bridge_options third_allocator (refl, refl) second_allocation
      (allocation 4 bridge_options second_allocator (refl, refl) first_allocation start)

Session-refines_example : is_leased path bucket two_log "10.44.0.2" ≡ member "10.44.0.2" two_held
Session-refines_example =
    Session-refines keeping counting path bucket keeping-Honest two-Session "10.44.0.2"

Session-Distinct_example : Distinct two_held
Session-Distinct_example = Session-Distinct keeping counting path bucket keeping-Honest two-Session

allocate_ip_first_example :
    Busy keeping counting path bucket
      (reserved_set (170655744, 170655999) (170655745 ∷ []))
      170655999
      allocation_log
      two_log
      second
allocate_ip_first_example =
    allocate_ip_first keeping counting counting-CidrLaws bridge_options keeping-Honest 4
      allocation_log third_allocator two_log (omega arith) second_allocation second (omega arith)
      (omega arith)

allocate_ip_ends_example :
    ((ia : IpamAllocator) × ((allocate_ip keeping counting (2 ^ 32) bridge_options []).0
        ≡ ok (some ia)))
    ⊎ ((e : Error) × ((allocate_ip keeping counting (2 ^ 32) bridge_options []).0 ≡ err e))
allocate_ip_ends_example =
    allocate_ip_ends keeping counting counting-CidrLaws bridge_options (2 ^ 32) [] (omega arith)

abbrev release_log : Log
release_log = (release keeping second_allocator two_log).1

first_release : release keeping second_allocator two_log ≡ (ok tt, release_log)
unfolding release delete_key allocate_ip allocate_parsed parse_cidr cut parse_ip split octet decimal
    value_from parse_prefix is_natural allocate_in ◌>>=◌ wrapping os_mkdir_all perform with_db
    finally all_digits insert insert_all member join_with clean clean_parts clean_step dir render
    ip_string network_of allocated consider db_update in_transaction pick put_if_free reserve_first
    reserved_set branching ignoring pure query raise syscall_mode
first_release = refl

wait_ends_example :
    wait_link_by_name keeping 500 "eth0" 5000000000 []
    ≡ wait_link_by_name keeping 102 "eth0" 5000000000 []
wait_ends_example = wait_ends keeping keeping-Clock "eth0" 500 [] (omega arith)

configure-returns_example :
    namespace_after 8
      (configure_container_interface keeping 42 "cvmbx42" "eth0" "10.44.0.2/24" "10.44.0.1/24" []).1
    ≡ 8
configure-returns_example =
    configure-returns keeping 8 8 (λ k. refl) 42 "cvmbx42" "eth0" "10.44.0.2/24" "10.44.0.1/24" []
      refl refl

abbrev bridged : NetworkConfig
bridged = record { child_pid = 42; mode = net_bridge }

setup-InPlace_example : InPlace 8 9 (setup_container_networking keeping counting 4 bridged []).1
setup-InPlace_example = setup-InPlace keeping counting 4 8 9 bridged (λ l ns h. cc) [] tt

add_forwarding-OnlyOnce_example :
    Preserves (OnlyOnce earlier) (add_forwarding_rules keeping "mbx0" "10.44.0.0/24")
add_forwarding-OnlyOnce_example =
    add_forwarding-OnlyOnce earlier keeping keeping-Tables "mbx0" "10.44.0.0/24"

abbrev bridged_result : NetworkResult
bridged_result = record {
  ipam = second_allocator;
  cleanup =
      cleanup_all keeping second_allocator
        (delete_veth keeping (record { name = "vmbx42"; index = 5; master = 0 }));
}

abbrev bridged_log : Log
bridged_log = (setup_container_networking keeping counting 4 bridged []).1

first_set_up :
    setup_container_networking keeping counting 4 bridged [] ≡ (ok bridged_result, bridged_log)
unfolding allocate_ip allocate_parsed parse_cidr cut parse_ip split octet decimal value_from
    parse_prefix is_natural allocate_in ◌>>=◌ wrapping os_mkdir_all perform with_db finally
    all_digits insert insert_all member join_with clean clean_parts clean_step dir render ip_string
    network_of allocated consider db_update in_transaction pick put_if_free reserve_first
    reserved_set branching ignoring pure query raise syscall_mode is_assigned assign_parsed
    assign_addr enable_ipv4_forwarding first_interface default_entry default_interface wait_round
    wait_until wait_link_by_name rename_link assign_twice route_parsed default_route loopback_up
    configure_inside in_namespace in_child configure_container_interface insert_unless
    ensure_ipt_rule add_forwarding_rules add_masquerade_rule up_with_address add_new_bridge
    create_bridge attach_to create_veth_pair set_nat delete_veth set_up_veth setup_veth_networking
    cleanup_all connect setup_in_mode setup_container_networking ask attempt tolerating tell
    os_write_file allocated_ip cidr_string
first_set_up = refl

abbrev cleaned_log : Log
cleaned_log = (release keeping second_allocator bridged_log).1

bridged_release : release keeping second_allocator bridged_log ≡ (ok tt, cleaned_log)
unfolding release delete_key allocate_ip allocate_parsed parse_cidr cut parse_ip split octet decimal
    value_from parse_prefix is_natural allocate_in ◌>>=◌ wrapping os_mkdir_all perform with_db
    finally all_digits insert insert_all member join_with clean clean_parts clean_step dir render
    ip_string network_of allocated consider db_update in_transaction pick put_if_free reserve_first
    reserved_set branching ignoring pure query raise syscall_mode is_assigned assign_parsed
    assign_addr enable_ipv4_forwarding first_interface default_entry default_interface wait_round
    wait_until wait_link_by_name rename_link assign_twice route_parsed default_route loopback_up
    configure_inside in_namespace in_child configure_container_interface insert_unless
    ensure_ipt_rule add_forwarding_rules add_masquerade_rule up_with_address add_new_bridge
    create_bridge attach_to create_veth_pair set_nat delete_veth set_up_veth setup_veth_networking
    cleanup_all connect setup_in_mode setup_container_networking ask attempt tolerating tell
    os_write_file allocated_ip cidr_string
bridged_release = refl

setup_then_cleanup_example :
    is_leased path bucket (bridged_result.cleanup bridged_log).1 "10.44.0.2"
    ≡ is_leased path bucket [] "10.44.0.2"
setup_then_cleanup_example =
    setup_then_cleanup keeping counting 4 keeping-Honest bridged [] bridged_log bridged_log
      cleaned_log bridged_result first_set_up (Grows-refl bridged_log) bridged_release "10.44.0.2"

-- A kernel that refuses to move an interface to another namespace.
abbrev refuse_move : NetCall → Option Errno
refuse_move (link_set_ns link n) = some eperm
refuse_move _ = none

abbrev refuse : Call → Option Errno
refuse (net c) = refuse_move c
refuse _ = none

abbrev immovable : Kernel
immovable = record keeping { act = λ _ c. refuse c }

immovable-Honest : Honest immovable
immovable-Honest = record {
  sees = λ l path bucket key h. h;
  sees_bucket = λ l path bucket key h. refl;
}

abbrev immovable_log : Log
immovable_log = (allocate_ip immovable counting 4 bridge_options []).1

immovable_allocation :
    allocate_ip immovable counting 4 bridge_options [] ≡ (ok (some second_allocator), immovable_log)
unfolding allocate_ip allocate_parsed parse_cidr cut parse_ip split octet decimal value_from
    parse_prefix is_natural allocate_in ◌>>=◌ wrapping os_mkdir_all perform with_db finally
    all_digits insert insert_all member join_with clean clean_parts clean_step dir render ip_string
    network_of allocated consider db_update in_transaction pick put_if_free reserve_first
    reserved_set branching ignoring pure query raise syscall_mode
immovable_allocation = refl

abbrev refused_log : Log
refused_log = (setup_veth_networking immovable 42 (veth_config second_allocator) immovable_log).1

refused_set_up :
    setup_veth_networking immovable 42 (veth_config second_allocator) immovable_log
    ≡ (err (wrapf "veth setup: %w" [] (errno eperm)), refused_log)
unfolding allocate_ip allocate_parsed parse_cidr cut parse_ip split octet decimal value_from
    parse_prefix is_natural allocate_in ◌>>=◌ wrapping os_mkdir_all perform with_db finally
    all_digits insert insert_all member join_with clean clean_parts clean_step dir render ip_string
    network_of allocated consider db_update in_transaction pick put_if_free reserve_first
    reserved_set branching ignoring pure query raise syscall_mode is_assigned assign_parsed
    assign_addr enable_ipv4_forwarding first_interface default_entry default_interface wait_round
    wait_until wait_link_by_name rename_link assign_twice route_parsed default_route loopback_up
    configure_inside in_namespace in_child configure_container_interface insert_unless
    ensure_ipt_rule add_forwarding_rules add_masquerade_rule up_with_address add_new_bridge
    create_bridge attach_to create_veth_pair set_nat delete_veth set_up_veth setup_veth_networking
    cleanup_all connect setup_in_mode setup_container_networking ask attempt tolerating tell
    os_write_file allocated_ip cidr_string
refused_set_up = refl

setup_veth_fails_example :
    (setup_container_networking immovable counting 4 bridged []
      ≡ (err (wrapf "veth setup: %w" [] (errno eperm)), refused_log))
    × (is_leased path bucket [] (ip_string second) ≡ false)
    × (is_leased path bucket refused_log (ip_string second) ≡ true)
setup_veth_fails_example =
    setup_veth_fails immovable counting 4 immovable-Honest 42 second_allocator _ [] immovable_log
      refused_log immovable_allocation refused_set_up

names_lem_example :
    (host_name 42 ≢ host_name 43)
    × (peer_name 42 ≢ peer_name 43)
    × (host_name 42 ≢ peer_name 43)
    × (host_name 42 ≢ peer_name 42)
    × (count (host_name 42) ≤ 11)
    × (count (peer_name 42) ≤ 12)
names_lem_example = names_lem 42 43 (λ h. omega arith) (omega arith)
