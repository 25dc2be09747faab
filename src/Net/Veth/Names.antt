-- ===== src/Net/Veth/Names.antt =====
-- The names of a pair of interfaces.
use text.Mathlib.TextLemmas.{cons-append, append_cancel_left, length-append}
use Prim.Native.String.{count}
use microbox.Base.{ℕ, ◌^◌, ◌≤◌, ◌<◌, String, code, ◌≡◌, ◌≢◌, refl, ◌∙◌, sym, ap, arith}
use microbox.Base.Decimal.{decimal, value_from, value_from-decimal}
use microbox.Base.Decimal.Width.{length-decimal}
use microbox.Net.Veth.{host_name, peer_name}

decimal-injective : (p q : ℕ) → decimal p ≡ decimal q → p ≡ q
decimal-injective p q h = sym (value_from-decimal p) ∙ ap (value_from 0) h ∙ value_from-decimal q

host_name-injective : (p q : ℕ) → host_name p ≡ host_name q → p ≡ q
host_name-injective p q h = decimal-injective p q (append_cancel_left "vmbx" _ _ h)

peer_name-injective : (p q : ℕ) → peer_name p ≡ peer_name q → p ≡ q
peer_name-injective p q h = host_name-injective p q (append_cancel_left "c" _ _ h)

first_code : String → ℕ
first_code String.[] = 0
first_code (String.◌∷◌ c s) = code c

host_name-first : (p : ℕ) → first_code (host_name p) ≡ 118
unfolding first_code
host_name-first p = rw cons-append refl

peer_name-first : (p : ℕ) → first_code (peer_name p) ≡ 99
unfolding first_code
peer_name-first p = rw cons-append refl

-- The host's interface of a process has another name than its peer and than both interfaces of
-- another process, and the peers of the two have different names. With a pid below 2 ^ 22, the kernel's
-- bound, the names have at most 11 and 12 characters, of the 15 that an interface may have.
pub names_lem :
    (p q : ℕ)
    → p ≢ q
    → p < 2 ^ 22
    → (host_name p ≢ host_name q)
      × (peer_name p ≢ peer_name q)
      × (host_name p ≢ peer_name q)
      × (host_name p ≢ peer_name p)
      × (count (host_name p) ≤ 11)
      × (count (peer_name p) ≤ 12)
names_lem p q other small =
    let digits = length-decimal p 6 (omega arith) in
    (
      λ h. other (host_name-injective p q h),
      λ h. other (peer_name-injective p q h),
      λ h. let bad = sym (host_name-first p) ∙ ap first_code h ∙ peer_name-first q in omega arith,
      λ h. let bad = sym (host_name-first p) ∙ ap first_code h ∙ peer_name-first p in omega arith,
      rw length-append (omega arith),
      rw (length-append, length-append) (omega arith),
    )
