-- ===== src/Net/Sample.antt =====
-- A kernel for the tests that keeps what it is told, and an arithmetic of addresses.
use microbox.Base.{
  ℕ, ◌+◌, ◌-◌, ◌%◌, ◌^◌, ◌≤◌, String, Bool, List, ltb, ◌==◌, ◌&&◌, if◌then◌else◌, ◌≡◌, ◌⊎◌, inl,
  inr, [], ◌∷◌, ◌++◌, refl, arith,
}
use microbox.Base.Keys.{string_eq}
use microbox.Os.{Errno, eperm, Reply, failed, Call, sleep, Log, got, Kernel}
use microbox.Os.Sample.{obliging}
use microbox.Net.Ipam.{CidrLibrary, IpamAllocator}
use microbox.Net.Ipam.Leases.{lease, Honest}
use microbox.Net.Ipam.Ends.{CidrLaws}
use microbox.Net.Interfaces.Waited.{Clock}
use microbox.Net.Rules.Ensured.{Rules, same_rule, times, Tables}
use microbox.Net.Rules.{out_rule}

-- Addresses as numbers; the range of a network ends with the last number of the prefix.
abbrev pub counting : CidrLibrary
counting = record {
  address_range = λ subnet. (subnet.0, (subnet.0 + (2 ^ (32 - subnet.1) - 1)) % 2 ^ 32);
  inc = λ a. (a + 1) % 2 ^ 32;
}

pub counting-CidrLaws : CidrLaws counting
counting-CidrLaws = record { next_address = λ a h. omega arith; last_address = λ a p. omega arith }

-- The time is the sum of the sleeps.
abbrev pub sleep_time : Call → ℕ
sleep_time (sleep d) = d
sleep_time _ = 0

abbrev pub time : Log → ℕ
time [] = 0
time (e ∷ l) = sleep_time e.call + time l

-- The rules of an earlier run: one of the two for forwarding is there.
abbrev pub earlier : Rules
earlier table chain rule =
    if (table == "filter") && (chain == "FORWARD") && same_rule rule (out_rule "mbx0" "eth0")
    then 1
    else 0

-- iptables cannot say whether a rule without parts exists.
abbrev exists_reply : List String → Bool → Reply Bool
exists_reply [] known = failed eperm
exists_reply (x ∷ rule) known = got known

-- A kernel that keeps what it is told: a database, a clock, and tables of rules.
abbrev pub keeping : Kernel
keeping = record obliging {
  db_has = λ l path bucket key. (lease path bucket key l).1;
  now = time;
  ipt_exists = λ l table chain rule. exists_reply rule (ltb 0 (times earlier table chain rule l));
}

pub keeping-Honest : Honest keeping
keeping-Honest = record {
  sees = λ l path bucket key h. h;
  sees_bucket = λ l path bucket key h. refl;
}

keeping_knows :
    (l : Log) (table chain : String) (rule : List String)
    → (keeping.ipt_exists l table chain rule ≡ got (ltb 0 (times earlier table chain rule l)))
      ⊎ ((e : Errno) × (keeping.ipt_exists l table chain rule ≡ failed e))
keeping_knows l table chain [] = inr (eperm, refl)
keeping_knows l table chain (x ∷ rule) = inl refl

pub keeping-Tables : Tables earlier keeping
keeping-Tables = record { knows = keeping_knows }

time-append : (calls l : Log) → time l ≤ time (calls ++ l)
time-append [] l = omega arith
time-append (e ∷ calls) l = omega (arith, time-append calls l)

pub keeping-Clock : Clock keeping
keeping-Clock = record {
  forward = λ l l' (calls, p). rw p (time-append calls l);
  slept = λ l d. omega arith;
}

abbrev pub path : String
path = "/var/run/microbox/ipam.db"

abbrev pub second : ℕ
second = 170655746

abbrev pub second_allocator : IpamAllocator
second_allocator = record {
  db_path = path;
  bucket = "10.44.0.0/24";
  subnet = (170655744, 24);
  prefix = 24;
  ip = second;
  reserved = "10.44.0.0" ∷ "10.44.0.255" ∷ "10.44.0.1" ∷ [];
}
