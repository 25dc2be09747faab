-- ===== src/Net/Address.antt =====
-- Go's `net` on addresses of IP version 4: an address is the number of its four bytes. Text with a
-- colon, which may be an address of version 6, is told apart by the caller.
pub mod Text
use mathlib.Core.List.{List, [], ◌∷◌}
use microbox.Base.{
  ℕ, ◌-◌, ◌*◌, ◌+◌, ◌/◌, ◌%◌, ◌^◌, String, ◌<>◌, Bool, true, false, ◌&&◌, Option, none, some, ◌==◌,
  if◌then◌else◌, ltb, leb,
}
use microbox.Base.Text.{split}
use microbox.Base.Cut.{cut}
use microbox.Base.Decimal.{decimal, value_from, is_natural}

-- `IP.String`
unfoldable pub ip_string : ℕ → String
ip_string a =
    decimal (a / 2 ^ 24 % 256)
    <> String.◌∷◌ "." (
        decimal (a / 2 ^ 16 % 256)
        <> String.◌∷◌ "." (decimal (a / 2 ^ 8 % 256) <> String.◌∷◌ "." (decimal (a % 256))))

-- A byte is accepted as it is written: digits, with no needless zero in front, and less than 256.
unfoldable pub octet : String → Option ℕ
octet s = let n = value_from 0 s in if (s == decimal n) && ltb n 256 then some n else none

abbrev pub from_octets : Option ℕ → Option ℕ → Option ℕ → Option ℕ → Option ℕ
from_octets (some a) (some b) (some c) (some d) = some (((a * 256 + b) * 256 + c) * 256 + d)
from_octets _ _ _ _ = none

abbrev pub from_parts : List String → Option ℕ
from_parts (a ∷ b ∷ c ∷ d ∷ []) = from_octets (octet a) (octet b) (octet c) (octet d)
from_parts _ = none

-- `ParseIP`
unfoldable pub parse_ip : String → Option ℕ
parse_ip s = from_parts (split "." s)

-- The length of a prefix: digits, and at most 32.
unfoldable pub parse_prefix : String → Option ℕ
parse_prefix s = let n = value_from 0 s in if is_natural s && leb n 32 then some n else none

abbrev pub pair_up : Option ℕ → Option ℕ → Option (ℕ × ℕ)
pair_up (some a) (some p) = some (a, p)
pair_up _ _ = none

abbrev pub parse_cut : Option (String × String) → Option (ℕ × ℕ)
parse_cut (some (a, p)) = pair_up (parse_ip a) (parse_prefix p)
parse_cut none = none

-- `ParseCIDR`: the address and the length of the prefix.
unfoldable pub parse_cidr : String → Option (ℕ × ℕ)
parse_cidr s = parse_cut (cut "/" s)

-- The address and the prefix in one text.
unfoldable pub cidr_string : ℕ → ℕ → String
cidr_string a p = ip_string a <> String.◌∷◌ "/" (decimal p)

-- The network's address: the bits after the prefix are 0.
unfoldable pub network_of : ℕ → ℕ → ℕ
network_of a p = a - a % 2 ^ (32 - p)
