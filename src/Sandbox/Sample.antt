-- ===== src/Sandbox/Sample.antt =====
-- A capability library for tests.
use microbox.Base.{ℕ, zero, suc, String, List, [], ◌∷◌}
use microbox.Sandbox.Capabilities.{CapLibrary}

-- A library that knows the default capabilities, numbered in their order.
abbrev name_at : List String → ℕ → String
name_at [] n = ""
name_at (x ∷ xs) zero = x
name_at (x ∷ xs) (suc n) = name_at xs n

abbrev known_names : List String
known_names =
    "chown" ∷ "dac_override" ∷ "fsetid" ∷ "fowner" ∷ "mknod" ∷ "net_raw" ∷ "setgid" ∷ "setuid"
    ∷ "setfcap" ∷ "setpcap" ∷ "net_bind_service" ∷ "sys_chroot" ∷ "kill" ∷ "audit_read"
    ∷ "audit_write" ∷ []

abbrev pub default_library : CapLibrary
default_library = record {
  list_known = 0 ∷ 1 ∷ 2 ∷ 3 ∷ 4 ∷ 5 ∷ 6 ∷ 7 ∷ 8 ∷ 9 ∷ 10 ∷ 11 ∷ 12 ∷ 13 ∷ 14 ∷ [];
  name = name_at known_names;
}
