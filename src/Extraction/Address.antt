-- ===== src/Extraction/Address.antt =====
-- Addresses as the guard of product-extractor/src/product_extractor/fetchers/ssrf_guard.py tests them:
-- _is_disallowed, over the properties of Python's `ipaddress` (3.11, as the deployment uses it). An
-- address is the number `int(ip)`; a network is its first and its last address.
pub mod Reach
use ai_virtual_try_on.Prelude.{
  ℕ, ◌+◌, ◌-◌, ◌%◌, Bool, true, false, not, ◌&&◌, ◌||◌, List, [], ◌∷◌, leb, ◌==◌, any_of,
  if◌then◌else◌,
}

pub data Ip : Type 0 where
  v4 : ℕ → Ip
  v6 : ℕ → Ip

unfoldable pub between : ℕ → ℕ → ℕ → Bool
between first last n = leb first n && leb n last

abbrev pub contains : ℕ → ℕ × ℕ → Bool
contains n (first, last) = between first last n

abbrev pub private_v4 : List (ℕ × ℕ)
private_v4 =
    (0x0, 0xffffff)
    ∷ (0xa000000, 0xaffffff)
    ∷ (0x7f000000, 0x7fffffff)
    ∷ (0xa9fe0000, 0xa9feffff)
    ∷ (0xac100000, 0xac1fffff)
    ∷ (0xc0000000, 0xc00000ff)
    ∷ (0xc00000aa, 0xc00000ab)
    ∷ (0xc0000200, 0xc00002ff)
    ∷ (0xc0a80000, 0xc0a8ffff)
    ∷ (0xc6120000, 0xc613ffff)
    ∷ (0xc6336400, 0xc63364ff)
    ∷ (0xcb007100, 0xcb0071ff)
    ∷ (0xf0000000, 0xffffffff)
    ∷ (0xffffffff, 0xffffffff)
    ∷ []

abbrev pub private_v6 : List (ℕ × ℕ)
private_v6 =
    (0x1, 0x1)
    ∷ (0x0, 0x0)
    ∷ (0xffff00000000, 0xffffffffffff)
    ∷ (0x64ff9b000100000000000000000000, 0x64ff9b0001ffffffffffffffffffff)
    ∷ (0x1000000000000000000000000000000, 0x100000000000000ffffffffffffffff)
    ∷ (0x20010000000000000000000000000000, 0x200101ffffffffffffffffffffffffff)
    ∷ (0x20010db8000000000000000000000000, 0x20010db8ffffffffffffffffffffffff)
    ∷ (0x20020000000000000000000000000000, 0x2002ffffffffffffffffffffffffffff)
    ∷ (0xfc000000000000000000000000000000, 0xfdffffffffffffffffffffffffffffff)
    ∷ (0xfe800000000000000000000000000000, 0xfebfffffffffffffffffffffffffffff)
    ∷ []

abbrev pub private_exceptions_v6 : List (ℕ × ℕ)
private_exceptions_v6 =
    (0x20010001000000000000000000000001, 0x20010001000000000000000000000001)
    ∷ (0x20010001000000000000000000000002, 0x20010001000000000000000000000002)
    ∷ (0x20010003000000000000000000000000, 0x20010003ffffffffffffffffffffffff)
    ∷ (0x20010004011200000000000000000000, 0x200100040112ffffffffffffffffffff)
    ∷ (0x20010020000000000000000000000000, 0x2001002fffffffffffffffffffffffff)
    ∷ (0x20010030000000000000000000000000, 0x2001003fffffffffffffffffffffffff)
    ∷ []

abbrev pub reserved_v6 : List (ℕ × ℕ)
reserved_v6 =
    (0x0, 0xffffffffffffffffffffffffffffff)
    ∷ (0x1000000000000000000000000000000, 0x1ffffffffffffffffffffffffffffff)
    ∷ (0x2000000000000000000000000000000, 0x3ffffffffffffffffffffffffffffff)
    ∷ (0x4000000000000000000000000000000, 0x7ffffffffffffffffffffffffffffff)
    ∷ (0x8000000000000000000000000000000, 0xfffffffffffffffffffffffffffffff)
    ∷ (0x10000000000000000000000000000000, 0x1fffffffffffffffffffffffffffffff)
    ∷ (0x40000000000000000000000000000000, 0x5fffffffffffffffffffffffffffffff)
    ∷ (0x60000000000000000000000000000000, 0x7fffffffffffffffffffffffffffffff)
    ∷ (0x80000000000000000000000000000000, 0x9fffffffffffffffffffffffffffffff)
    ∷ (0xa0000000000000000000000000000000, 0xbfffffffffffffffffffffffffffffff)
    ∷ (0xc0000000000000000000000000000000, 0xdfffffffffffffffffffffffffffffff)
    ∷ (0xe0000000000000000000000000000000, 0xefffffffffffffffffffffffffffffff)
    ∷ (0xf0000000000000000000000000000000, 0xf7ffffffffffffffffffffffffffffff)
    ∷ (0xf8000000000000000000000000000000, 0xfbffffffffffffffffffffffffffffff)
    ∷ (0xfe000000000000000000000000000000, 0xfe7fffffffffffffffffffffffffffff)
    ∷ []

-- 192.0.0.9 and 192.0.0.10 are the exceptions.
unfoldable pub is_private_v4 : ℕ → Bool
is_private_v4 n = any_of (contains n) private_v4 && not (n == 0xc0000009) && not (n == 0xc000000a)

-- 127.0.0.0/8, 169.254.0.0/16, 224.0.0.0/4, 240.0.0.0/4 and 0.0.0.0 beside the private networks.
unfoldable pub is_disallowed_v4 : ℕ → Bool
is_disallowed_v4 n =
    is_private_v4 n
    || between 0x7f000000 0x7fffffff n
    || between 0xa9fe0000 0xa9feffff n
    || between 0xe0000000 0xefffffff n
    || between 0xf0000000 0xffffffff n
    || n == 0

-- `ipv4_mapped`: ::ffff:0:0/96
abbrev pub is_mapped : ℕ → Bool
is_mapped n = between 0xffff00000000 0xffffffffffff n

-- An IPv4-mapped address is private as its IPv4 address is.
unfoldable pub is_private_v6 : ℕ → Bool
unfolding is_private_v4
is_private_v6 n =
    if is_mapped n
    then is_private_v4 (n % 0x100000000)
    else any_of (contains n) private_v6 && not (any_of (contains n) private_exceptions_v6)

-- `_NAT64_WELL_KNOWN_PREFIX`
abbrev pub is_nat64 : ℕ → Bool
is_nat64 n = between 0x64ff9b000000000000000000000000 0x64ff9b0000000000000000ffffffff n

-- ::1, fe80::/10, ff00::/8, the reserved networks and :: beside the private networks.
unfoldable pub is_disallowed_v6 : ℕ → Bool
unfolding is_private_v6
is_disallowed_v6 n =
    is_private_v6 n
    || n == 1
    || between 0xfe800000000000000000000000000000 0xfebfffffffffffffffffffffffffffff n
    || between 0xff000000000000000000000000000000 0xffffffffffffffffffffffffffffffff n
    || any_of (contains n) reserved_v6
    || n == 0

unfoldable pub is_disallowed : Ip → Bool
unfolding is_disallowed_v4 is_disallowed_v6
is_disallowed (v4 n) = is_disallowed_v4 n
is_disallowed (v6 n) = if is_nat64 n then is_disallowed_v4 (n % 0x100000000) else is_disallowed_v6 n
