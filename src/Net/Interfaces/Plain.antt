-- ===== src/Net/Interfaces/Plain.antt =====
-- Which kinds of calls the parts that configure an interface make.
use microbox.Base.{ℕ, zero, suc, String, Bool, Option, none, some, List, [], ◌∷◌}
use microbox.Os.{
  Call, NetCall, ns_set, ipt_insert, route_replace, link_set_name, net, db, write_fd, Link, Route,
  Kernel, Io, os_write_file,
}
use microbox.Os.Keeps.{Emits, Emits-weaken, emits_rules}
use microbox.Net.Interfaces.{
  assign_parsed, assign_addr, enable_ipv4_forwarding, first_interface, default_entry,
  default_interface, wait_round, wait_until, wait_link_by_name, rename_link, assign_twice,
  route_parsed, default_route, loopback_up, configure_inside,
}

abbrev pub PlainNet : NetCall → Type 0
PlainNet (ns_set n) = ⊥
PlainNet (ipt_insert table chain rule) = ⊥
PlainNet _ = Unit

abbrev pub Plain : Call → Type 0
Plain (db c) = ⊥
Plain (write_fd fd text) = ⊥
Plain (net c) = PlainNet c
Plain _ = Unit

-- The same, and no route is replaced and no interface renamed.
abbrev pub StillNet : NetCall → Type 0
StillNet (ns_set n) = ⊥
StillNet (ipt_insert table chain rule) = ⊥
StillNet (route_replace index gw_ip) = ⊥
StillNet (link_set_name link name) = ⊥
StillNet _ = Unit

abbrev pub Still : Call → Type 0
Still (db c) = ⊥
Still (write_fd fd text) = ⊥
Still (net c) = StillNet c
Still _ = Unit

StillNet-PlainNet : (c : NetCall) → StillNet c → PlainNet c
StillNet-PlainNet (ns_set n) h = absurd h
StillNet-PlainNet (ipt_insert table chain rule) h = absurd h
StillNet-PlainNet _ h = tt

Still-Plain : (c : Call) → Still c → Plain c
Still-Plain (db c) h = absurd h
Still-Plain (write_fd fd text) h = absurd h
Still-Plain (net c) h = StillNet-PlainNet c h
Still-Plain _ h = tt

module _ (K : Kernel) where
  assign_parsed-Still :
      (link : Link) (addr : Option (ℕ × ℕ)) → Emits Still (assign_parsed K link addr)
  unfolding assign_parsed
  assign_parsed-Still link none = search emits_rules depth 9
  assign_parsed-Still link (some addr) = search emits_rules depth 9

  pub assign_addr-Still : (link : Link) (cidr : String) → Emits Still (assign_addr K link cidr)
  unfolding assign_addr
  assign_addr-Still link cidr = assign_parsed-Still link _

  pub enable-Still : Emits Still (enable_ipv4_forwarding K)
  unfolding enable_ipv4_forwarding os_write_file
  enable-Still = search emits_rules depth 9

  first_interface-Still :
      (wanted : Route → Bool) (routes : List Route) (otherwise : Io String)
      → Emits Still otherwise
      → Emits Still (first_interface K wanted routes otherwise)
  unfolding first_interface
  first_interface-Still wanted [] otherwise h = h
  first_interface-Still wanted (r ∷ routes) otherwise h =
      let rest = first_interface-Still wanted routes otherwise h in search emits_rules depth 9

  default_entry-Still : Emits Still (default_entry K)
  unfolding default_entry
  default_entry-Still = search (emits_rules, first_interface-Still) depth 9

  pub default_interface-Still : Emits Still (default_interface K)
  unfolding default_interface
  default_interface-Still = search (emits_rules, first_interface-Still, default_entry-Still) depth 9

  assign_addr-Plain : (link : Link) (cidr : String) → Emits Plain (assign_addr K link cidr)
  assign_addr-Plain link cidr = Emits-weaken _ Still-Plain (assign_addr-Still link cidr)

  pub default_interface-Plain : Emits Plain (default_interface K)
  default_interface-Plain = Emits-weaken _ Still-Plain default_interface-Still

  wait_round-Plain :
      (name : String) (deadline : ℕ) (rest : Io Link)
      → Emits Plain rest
      → Emits Plain (wait_round K name deadline rest)
  unfolding wait_round
  wait_round-Plain name deadline rest h = search emits_rules depth 9

  wait_until-Plain :
      (rounds : ℕ) (name : String) (deadline : ℕ) → Emits Plain (wait_until K rounds name deadline)
  unfolding wait_until
  wait_until-Plain zero name deadline = search emits_rules depth 9
  wait_until-Plain (suc rounds) name deadline =
      wait_round-Plain name deadline _ (wait_until-Plain rounds name deadline)

  pub wait-Plain :
      (rounds : ℕ) (name : String) (timeout : ℕ)
      → Emits Plain (wait_link_by_name K rounds name timeout)
  unfolding wait_link_by_name
  wait-Plain rounds name timeout = search (emits_rules, wait_until-Plain) depth 9

  rename_link-Plain :
      (link : Link) (temp_name final_name : String)
      → Emits Plain (rename_link K link temp_name final_name)
  unfolding rename_link
  rename_link-Plain link temp_name final_name = search (emits_rules, wait-Plain) depth 9

  assign_twice-Plain :
      (link : Link) (addr_cidr : String) → Emits Plain (assign_twice K link addr_cidr)
  unfolding assign_twice
  assign_twice-Plain link addr_cidr = search (emits_rules, assign_addr-Plain) depth 9

  route_parsed-Plain :
      (link : Link) (gw_cidr : String) (gw : Option (ℕ × ℕ))
      → Emits Plain (route_parsed K link gw_cidr gw)
  unfolding route_parsed
  route_parsed-Plain link gw_cidr none = search emits_rules depth 9
  route_parsed-Plain link gw_cidr (some gw) = search emits_rules depth 9

  default_route-Plain :
      (link : Link) (gw_cidr : String) → Emits Plain (default_route K link gw_cidr)
  unfolding default_route
  default_route-Plain link gw_cidr = search (emits_rules, route_parsed-Plain) depth 9

  loopback_up-Plain : Emits Plain (loopback_up K)
  unfolding loopback_up
  loopback_up-Plain = search emits_rules depth 9

  pub configure_inside-Plain :
      (temp_name final_name addr_cidr gw_cidr : String)
      → Emits Plain (configure_inside K temp_name final_name addr_cidr gw_cidr)
  unfolding configure_inside
  configure_inside-Plain temp_name final_name addr_cidr gw_cidr =
      search
        (
          emits_rules, wait-Plain, rename_link-Plain, loopback_up-Plain, assign_twice-Plain,
          default_route-Plain,
        )
        depth 12
