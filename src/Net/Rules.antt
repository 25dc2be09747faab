-- ===== src/Net/Rules.antt =====
-- net/net.go: the iptables rules for forwarding and address translation.
pub mod Ensured
use microbox.Base.{String, Bool, true, false, List, [], ◌∷◌, if◌then◌else◌}
use microbox.Base.Text.{is_empty}
use microbox.Os.{
  net, ipt_new, ipt_exists, ipt_insert, Kernel, Io, pure, ◌>>=◌, ◌>>◌, ask, wrapping, ignoring,
  perform,
}
use microbox.Net.Interfaces.{default_interface}

abbrev pub out_rule : String → String → List String
out_rule iface default_if = "-i" ∷ iface ∷ "-o" ∷ default_if ∷ "-j" ∷ "ACCEPT" ∷ []

abbrev pub in_rule : String → String → List String
in_rule iface default_if =
    "-i" ∷ default_if ∷ "-o" ∷ iface ∷ "-m" ∷ "conntrack" ∷ "--ctstate" ∷ "RELATED,ESTABLISHED"
    ∷ "-j" ∷ "ACCEPT" ∷ []

abbrev pub local_rule : String → String → List String
local_rule iface subnet_cidr =
    "-i" ∷ iface ∷ "-o" ∷ iface ∷ "-s" ∷ subnet_cidr ∷ "-d" ∷ subnet_cidr ∷ "-j" ∷ "ACCEPT" ∷ []

abbrev pub masquerade_rule : String → String → List String
masquerade_rule iface subnet_cidr =
    "-s" ∷ subnet_cidr ∷ "!" ∷ "-o" ∷ iface ∷ "-j" ∷ "MASQUERADE" ∷ []

module _ (K : Kernel) where
  -- A rule is inserted at the top of its chain.
  unfoldable pub insert_unless : String → String → List String → Bool → Io (Unit {0})
  insert_unless table chain rule exists =
      if exists
      then pure tt
      else wrapping "iptables insert %s/%s %v: %w" (table ∷ chain ∷ rule)
          (perform K (net (ipt_insert table chain rule)))

  -- `ensureIptRule`
  unfoldable pub ensure_ipt_rule : String → String → List String → Io (Unit {0})
  ensure_ipt_rule table chain rule = do
    exists ←
        wrapping "iptables exists %s/%s: %w" (table ∷ chain ∷ [])
          (ask (net (ipt_exists table chain rule)) (λ l. K.ipt_exists l table chain rule))
    insert_unless table chain rule exists

  -- `AddForwardingRules`
  unfoldable pub add_forwarding_rules : String → String → Io (Unit {0})
  add_forwarding_rules iface subnet_cidr = do
    perform K (net ipt_new)
    default_if ← default_interface K
    ensure_ipt_rule "filter" "FORWARD" (out_rule iface default_if)
    ensure_ipt_rule "filter" "FORWARD" (in_rule iface default_if)
    if is_empty subnet_cidr
        then pure tt
        else ignoring (ensure_ipt_rule "filter" "FORWARD" (local_rule iface subnet_cidr))

  -- `AddMasqueradeRule`
  unfoldable pub add_masquerade_rule : String → String → Io (Unit {0})
  add_masquerade_rule iface subnet_cidr =
      if is_empty subnet_cidr
      then pure tt
      else perform K (net ipt_new)
        >> ensure_ipt_rule "nat" "POSTROUTING" (masquerade_rule iface subnet_cidr)
