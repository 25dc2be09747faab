-- ===== src/Net/Address/Text.antt =====
-- Addresses read back from their texts.
use mathlib.Core.List.{[], ◌∷◌}
use microbox.Base.{
  ℕ, ◌/◌, ◌%◌, ◌^◌, ◌<◌, ◌≤◌, Char, code, String, ◌<>◌, true, false, ◌&&◌, some, ◌==◌, leb, ◌≡◌,
  refl, ◌∙◌, sym, ap, arith, eq_iff,
}
use microbox.Base.Text.{split, contains_char, split-append, split_whole, contains_char-append}
use microbox.Base.Cut.{cut-append}
use microbox.Base.Decimal.{
  decimal, value_from-decimal, is_natural-decimal, natural_digits, all_digits-contains_char,
}
use microbox.Net.Address.{ip_string, octet, parse_ip, parse_prefix, parse_cidr, cidr_string}

octet-decimal : (n : ℕ) → n < 256 → octet (decimal n) ≡ some n
unfolding octet
octet-decimal n h =
    let same : (decimal n == decimal n) ≡ true = (eq_iff (decimal n) (decimal n)).1 refl in
    rw (value_from-decimal, same) (ground arith)

plain-decimal :
    (c : Char) (n : ℕ)
    → (leb 48 (code c) && leb (code c) 57) ≡ false
    → contains_char c (decimal n) ≡ false
plain-decimal c n h =
    all_digits-contains_char c (decimal n) h (natural_digits _ (is_natural-decimal n))

split-dotted :
    (a b c d : ℕ)
    → split "." (
        decimal a
        <> String.◌∷◌ "." (decimal b <> String.◌∷◌ "." (decimal c <> String.◌∷◌ "." (decimal d))))
      ≡ decimal a ∷ decimal b ∷ decimal c ∷ decimal d ∷ []
split-dotted a b c d =
    rw
      (
        split-append,
        split-append,
        split-append,
        split_whole "." (decimal a) (plain-decimal "." a refl),
        split_whole "." (decimal b) (plain-decimal "." b refl),
        split_whole "." (decimal c) (plain-decimal "." c refl),
        split_whole "." (decimal d) (plain-decimal "." d refl),
      )
      refl

-- An address that is written as text reads back.
pub parse_ip-ip_string : (a : ℕ) → a < 2 ^ 32 → parse_ip (ip_string a) ≡ some a
unfolding parse_ip ip_string
parse_ip-ip_string a h =
    rw
      (
        split-dotted,
        octet-decimal (a / 2 ^ 24 % 256) (omega arith),
        octet-decimal (a / 2 ^ 16 % 256) (omega arith),
        octet-decimal (a / 2 ^ 8 % 256) (omega arith),
        octet-decimal (a % 256) (omega arith),
      )
      (ap some (omega arith))

pub ip_string-injective : (a b : ℕ) → a < 2 ^ 32 → b < 2 ^ 32 → ip_string a ≡ ip_string b → a ≡ b
ip_string-injective a b h k e =
    let same : some a ≡ some b =
      sym (parse_ip-ip_string a h) ∙ ap parse_ip e ∙ parse_ip-ip_string b k in
    cc

parse_prefix-decimal : (p : ℕ) → p ≤ 32 → parse_prefix (decimal p) ≡ some p
unfolding parse_prefix
parse_prefix-decimal p h = rw (is_natural-decimal, value_from-decimal) (ground arith)

plain_dotted :
    (n : ℕ) (t : String)
    → contains_char "/" t ≡ false
    → contains_char "/" (decimal n <> String.◌∷◌ "." t) ≡ false
plain_dotted n t h =
    contains_char-append "/" (decimal n) (String.◌∷◌ "." t) ∙ rw (plain-decimal "/" n refl, h) refl

plain-ip_string : (a : ℕ) → contains_char "/" (ip_string a) ≡ false
unfolding ip_string
plain-ip_string a =
    let last = decimal (a % 256) in
    let two = decimal (a / 2 ^ 8 % 256) <> String.◌∷◌ "." last in
    let three = decimal (a / 2 ^ 16 % 256) <> String.◌∷◌ "." two in
    plain_dotted (a / 2 ^ 24 % 256) three (
      plain_dotted (a / 2 ^ 16 % 256) two
        (plain_dotted (a / 2 ^ 8 % 256) last (plain-decimal "/" (a % 256) refl)))

-- What an allocation hands on as text is the address and the prefix again.
pub parse_cidr-cidr_string :
    (a p : ℕ) → a < 2 ^ 32 → p ≤ 32 → parse_cidr (cidr_string a p) ≡ some (a, p)
unfolding parse_cidr cidr_string
parse_cidr-cidr_string a p h k =
    rw
      (
        cut-append "/" (ip_string a) (decimal p) (plain-ip_string a),
        parse_ip-ip_string a h,
        parse_prefix-decimal p k,
      )
      refl
