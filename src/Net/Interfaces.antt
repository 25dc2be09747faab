-- ===== src/Net/Interfaces.antt =====
-- net/net.go: an interface's address, the default interface, waiting for an interface, and the
-- container's interface in its network namespace. Netlink and netns are calls of the kernel.
pub mod Plain
pub mod Waited
pub mod Restored
pub mod InPlace
use microbox.Base.{
  ℕ, zero, suc, ◌+◌, ◌*◌, ◌=ᵇ◌, String, Bool, true, false, not, ◌&&◌, ◌||◌, ◌==◌, Option, none,
  some, List, [], ◌∷◌, if◌then◌else◌, ltb,
}
use microbox.Base.Text.{is_empty}
use microbox.Os.{
  Errno, eexist, Error, errno, errorf, Link, Route, net, now, sleep, link_by_name, link_by_index,
  link_up, link_set_name, addr_list, addr_add, route_get, route_list, route_replace, ns_get,
  ns_get_pid, ns_set, ns_close, Result, ok, err, Kernel, Io, pure, raise, ◌>>=◌, ◌>>◌, ask, query,
  tell, attempt, wrapping, tolerating, ignoring, finally, branching, perform, os_write_file,
}
use microbox.Net.Address.{ip_string, parse_cidr, cidr_string}

-- `err == syscall.EEXIST`
abbrev pub is_eexist : Error → Bool
is_eexist (errno eexist) = true
is_eexist _ = false

-- `addrs, _ :=`: the addresses, and none of them after an error.
abbrev pub or_none {ℓ} : {A : Type ℓ} → Result (List A) → List A
or_none (ok xs) = xs
or_none (err e) = []

-- The loop over the addresses that an interface has.
unfoldable pub is_assigned : ℕ × ℕ → List (ℕ × ℕ) → Bool
is_assigned addr [] = false
is_assigned addr (a ∷ addrs) =
    (cidr_string a.0 a.1 == cidr_string addr.0 addr.1) || is_assigned addr addrs

abbrev pub milliseconds : ℕ → ℕ
milliseconds n = n * 1000000

module _ (K : Kernel) where
  -- `EnableIPv4Forwarding`
  unfoldable pub enable_ipv4_forwarding : Io (Unit {0})
  enable_ipv4_forwarding =
      wrapping "enable ipv4 forwarding: %w" []
        (os_write_file K "/proc/sys/net/ipv4/ip_forward" "1\n" 0o644)

  unfoldable pub assign_parsed : Link → Option (ℕ × ℕ) → Io (Unit {0})
  assign_parsed link none = raise (errorf "invalid CIDR address" [])
  assign_parsed link (some addr) = do
    addrs ← attempt (ask (net (addr_list link)) (λ l. K.addr_list l link))
    if is_assigned addr (or_none addrs)
        then pure tt
        else wrapping "addr add %s: %w" (cidr_string addr.0 addr.1 ∷ [])
            (tolerating is_eexist (perform K (net (addr_add link addr))))

  -- `AssignAddr`
  unfoldable pub assign_addr : Link → String → Io (Unit {0})
  assign_addr link cidr = assign_parsed link (parse_cidr cidr)

  -- A loop over routes: the name of the first interface that is found by its index.
  unfoldable pub first_interface : (Route → Bool) → List Route → Io String → Io String
  first_interface wanted [] otherwise = otherwise
  first_interface wanted (r ∷ routes) otherwise =
      let rest = first_interface wanted routes otherwise in
      if wanted r
      then branching (ask (net (link_by_index r.link_index)) (λ l. K.link_by_index l r.link_index))
          (λ link. pure link.name) (λ _. rest)
      else rest

  -- The main routing table's default entry.
  unfoldable pub default_entry : Io String
  default_entry = do
    all ← wrapping "route list: %w" [] (ask (net route_list) K.route_list)
    first_interface (λ r. r.is_default && not (r.link_index =ᵇ 0)) all
        (raise (errorf "default route interface not found" []))

  -- `DefaultInterface`
  unfoldable pub default_interface : Io String
  default_interface =
      branching (ask (net route_get) K.route_get)
        (λ routes. first_interface (λ r. not (r.link_index =ᵇ 0)) routes default_entry)
        (λ _. default_entry)

  -- The loop of `waitLinkByName`, for a number of rounds.
  unfoldable pub wait_round : String → ℕ → Io Link → Io Link
  wait_round name deadline rest =
      branching (ask (net (link_by_name name)) (λ l. K.link_by_name l name)) pure (λ _. do
        t ← query now K.now
        if ltb deadline t
            then raise (errorf "link %q not found" (name ∷ []))
            else tell (sleep (milliseconds 50)) >> rest)

  unfoldable pub wait_until : ℕ → String → ℕ → Io Link
  wait_until zero name deadline = raise (errorf "link %q not found" (name ∷ []))
  wait_until (suc rounds) name deadline = wait_round name deadline (wait_until rounds name deadline)

  -- `waitLinkByName`
  unfoldable pub wait_link_by_name : ℕ → String → ℕ → Io Link
  wait_link_by_name rounds name timeout = do
    t ← query now K.now
    wait_until rounds name (t + timeout)

-- The rounds of a wait of 5000 milliseconds.
abbrev pub wait_rounds : ℕ
wait_rounds = 102

module _ (K : Kernel) where
  unfoldable pub rename_link : Link → String → String → Io Link
  rename_link link temp_name final_name = if final_name == temp_name then pure link else do
    wrapping "rename %s->%s: %w" (temp_name ∷ final_name ∷ [])
        (perform K (net (link_set_name link final_name)))
    wait_link_by_name K wait_rounds final_name (milliseconds 5000)

  -- Once more after a short delay; the first error is the one that is returned.
  unfoldable pub assign_twice : Link → String → Io (Unit {0})
  assign_twice link addr_cidr =
      if is_empty addr_cidr
      then pure tt
      else branching (assign_addr K link addr_cidr) pure (λ e.
        tell (sleep (milliseconds 100))
        >> branching (assign_addr K link addr_cidr) pure (λ _. raise e))

  unfoldable pub route_parsed : Link → String → Option (ℕ × ℕ) → Io (Unit {0})
  route_parsed link gw_cidr none = raise (errorf "parse gw %q: %w" (gw_cidr ∷ []))
  route_parsed link gw_cidr (some (gw_ip, _)) =
      wrapping "default route via %s: %w" (ip_string gw_ip ∷ [])
        (tolerating is_eexist (perform K (net (route_replace link.index gw_ip))))

  unfoldable pub default_route : Link → String → Io (Unit {0})
  default_route link gw_cidr =
      if is_empty gw_cidr then pure tt else route_parsed link gw_cidr (parse_cidr gw_cidr)

  unfoldable pub loopback_up : Io (Unit {0})
  loopback_up =
      branching (ask (net (link_by_name "lo")) (λ l. K.link_by_name l "lo"))
        (λ lo. ignoring (perform K (net (link_up lo)))) (λ _. pure tt)

  -- `configureContainerInterface`, in the child's namespace.
  unfoldable pub configure_inside : String → String → String → String → Io (Unit {0})
  configure_inside temp_name final_name addr_cidr gw_cidr = do
    found ←
        wrapping "wait veth %s in ns: %w" (temp_name ∷ [])
          (wait_link_by_name K wait_rounds temp_name (milliseconds 5000))
    link ← rename_link found temp_name final_name
    loopback_up
    wrapping "link up: %w" [] (tolerating is_eexist (perform K (net (link_up link))))
    assign_twice link addr_cidr
    default_route link gw_cidr

  -- What was deferred runs in the opposite order: back to the host's namespace, and then the two
  -- handles are closed.
  unfoldable pub in_namespace : ℕ → ℕ → Io (Unit {0}) → Io (Unit {0})
  in_namespace host_ns target_ns body =
      finally
        (perform K (net (ns_set target_ns)) >> finally body (perform K (net (ns_set host_ns))))
        (perform K (net (ns_close target_ns)))

  unfoldable pub in_child : ℕ → ℕ → Io (Unit {0}) → Io (Unit {0})
  in_child child_pid host_ns body = do
    target_ns ← ask (net (ns_get_pid child_pid)) (λ l. K.ns_get_pid l child_pid)
    in_namespace host_ns target_ns body

  -- `configureContainerInterface`
  unfoldable pub configure_container_interface :
      ℕ → String → String → String → String → Io (Unit {0})
  configure_container_interface child_pid temp_name final_name addr_cidr gw_cidr = do
    host_ns ← ask (net ns_get) K.ns_get
    finally (in_child child_pid host_ns (configure_inside temp_name final_name addr_cidr gw_cidr))
        (perform K (net (ns_close host_ns)))
