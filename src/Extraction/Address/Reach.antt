-- ===== src/Extraction/Address/Reach.antt =====
-- Which addresses the guard lets a request reach.
use ai_virtual_try_on.Prelude.{
  ℕ, ◌+◌, ◌%◌, ◌<◌, ◌≤◌, ◌≡◌, ◌⊎◌, refl, ◌∙◌, Bool, true, false, ◌||◌, List, [], ◌∷◌, ◌==◌, any_of,
  arith, inl, inr, Bool-cases,
}
use ai_virtual_try_on.Extraction.Address.{
  Ip, v4, v6, between, contains, private_v4, reserved_v6, is_private_v4, is_disallowed_v4,
  is_private_v6, is_disallowed_v6, is_disallowed, is_nat64,
}

between-true : (a b n : ℕ) → a ≤ n → n ≤ b → between a b n ≡ true
unfolding between
between-true a b n h h' = ground arith

above : (a b n : ℕ) → between a b n ≡ false → a ≤ n → b < n
unfolding between
above a b n h h' = ground arith

within : (a b n : ℕ) → between a b n ≡ true → (a ≤ n) × (n ≤ b)
unfolding between
within a b n h = ground arith

apart : (a b c d n : ℕ) → between a b n ≡ true → (b < c) ⊎ (d < a) → between c d n ≡ false
unfolding between
apart a b c d n h h' = ground arith

differs : (a b c n : ℕ) → between a b n ≡ true → (b < c) ⊎ (c < a) → (n == c) ≡ false
unfolding between
differs a b c n h h' = ground arith

-- 10.0.0.0/8, 127.0.0.0/8, 169.254.0.0/16, 172.16.0.0/12, 192.168.0.0/16
abbrev pub internal_networks : List (ℕ × ℕ)
internal_networks =
    (0xa000000, 0xaffffff)
    ∷ (0x7f000000, 0x7fffffff)
    ∷ (0xa9fe0000, 0xa9feffff)
    ∷ (0xac100000, 0xac1fffff)
    ∷ (0xc0a80000, 0xc0a8ffff)
    ∷ []

internal_private :
    (n : ℕ) → any_of (contains n) internal_networks ≡ true → any_of (contains n) private_v4 ≡ true
internal_private n h = ground arith

not_exception :
    (n : ℕ)
    → any_of (contains n) internal_networks ≡ true
    → ((n == 0xc0000009) ≡ false) × ((n == 0xc000000a) ≡ false)
not_exception n h = ground (
  arith,
  differs 0xa000000 0xaffffff 0xc0000009 n,
  differs 0xa000000 0xaffffff 0xc000000a n,
  differs 0x7f000000 0x7fffffff 0xc0000009 n,
  differs 0x7f000000 0x7fffffff 0xc000000a n,
  differs 0xa9fe0000 0xa9feffff 0xc0000009 n,
  differs 0xa9fe0000 0xa9feffff 0xc000000a n,
  differs 0xac100000 0xac1fffff 0xc0000009 n,
  differs 0xac100000 0xac1fffff 0xc000000a n,
  differs 0xc0a80000 0xc0a8ffff 0xc0000009 n,
  differs 0xc0a80000 0xc0a8ffff 0xc000000a n,
)

internal_v4 : (n : ℕ) → any_of (contains n) internal_networks ≡ true → is_disallowed_v4 n ≡ true
unfolding is_disallowed_v4 is_private_v4
internal_v4 n h =
    let (a, b) = not_exception n h in let c = internal_private n h in rw (a, b, c) refl

-- 64:ff9b::n
abbrev pub nat64 : ℕ → Ip
nat64 n = v6 (0x64ff9b000000000000000000000000 + n)

-- ::ffff:n
abbrev pub mapped : ℕ → Ip
mapped n = v6 (0xffff00000000 + n)

nat64_lem : (n : ℕ) → n < 0x100000000 → is_disallowed (nat64 n) ≡ is_disallowed_v4 n
unfolding is_disallowed
nat64_lem n h =
    let inside : is_nat64 (0x64ff9b000000000000000000000000 + n) ≡ true =
      between-true 0x64ff9b000000000000000000000000 0x64ff9b0000000000000000ffffffff
        (0x64ff9b000000000000000000000000 + n) (omega arith) (omega arith) in
    let low : (0x64ff9b000000000000000000000000 + n) % 0x100000000 ≡ n = omega arith in
    rw (inside, low) refl

mapped_lem : (n : ℕ) → n < 0x100000000 → is_disallowed (mapped n) ≡ true
unfolding is_disallowed is_disallowed_v6
mapped_lem n h =
    let here =
      between-true 0x0 0xffffffffffffffffffffffffffffff (0xffff00000000 + n) (omega arith)
        (omega arith) in
    let other =
      apart 0xffff00000000 0xffffffffffff 0x64ff9b000000000000000000000000
        0x64ff9b0000000000000000ffffffff (0xffff00000000 + n)
        (between-true 0xffff00000000 0xffffffffffff (0xffff00000000 + n) (omega arith)
          (omega arith))
        (inl (omega arith)) in
    ground (arith, here, other)

-- The private networks, loopback, and the link-local network 169.254.0.0/16, where clouds put their
-- metadata service at 169.254.169.254, are out of reach in each of the three spellings of an IPv4 address: as itself, behind NAT64, and mapped into IPv6.
pub internal_disallowed :
    (n : ℕ)
    → any_of (contains n) internal_networks ≡ true
    → n < 0x100000000
    → (is_disallowed (v4 n) ≡ true)
      × (is_disallowed (nat64 n) ≡ true)
      × (is_disallowed (mapped n) ≡ true)
internal_disallowed n h small = (
  unfold is_disallowed in internal_v4 n h,
  nat64_lem n small ∙ internal_v4 n h,
  mapped_lem n small,
)

reserved_apart :
    (n : ℕ)
    → any_of (contains n) reserved_v6 ≡ false
    → (between 0x0 0xffffffffffffffffffffffffffffff n ≡ false)
      × (between 0x1000000000000000000000000000000 0x1ffffffffffffffffffffffffffffff n ≡ false)
      × (between 0x2000000000000000000000000000000 0x3ffffffffffffffffffffffffffffff n ≡ false)
      × (between 0x4000000000000000000000000000000 0x7ffffffffffffffffffffffffffffff n ≡ false)
      × (between 0x8000000000000000000000000000000 0xfffffffffffffffffffffffffffffff n ≡ false)
      × (between 0x10000000000000000000000000000000 0x1fffffffffffffffffffffffffffffff n ≡ false)
      × (between 0x40000000000000000000000000000000 0x5fffffffffffffffffffffffffffffff n ≡ false)
      × (between 0x60000000000000000000000000000000 0x7fffffffffffffffffffffffffffffff n ≡ false)
      × (between 0x80000000000000000000000000000000 0x9fffffffffffffffffffffffffffffff n ≡ false)
      × (between 0xa0000000000000000000000000000000 0xbfffffffffffffffffffffffffffffff n ≡ false)
      × (between 0xc0000000000000000000000000000000 0xdfffffffffffffffffffffffffffffff n ≡ false)
      × (between 0xe0000000000000000000000000000000 0xefffffffffffffffffffffffffffffff n ≡ false)
      × (between 0xf0000000000000000000000000000000 0xf7ffffffffffffffffffffffffffffff n ≡ false)
      × (between 0xf8000000000000000000000000000000 0xfbffffffffffffffffffffffffffffff n ≡ false)
      × (between 0xfe000000000000000000000000000000 0xfe7fffffffffffffffffffffffffffff n ≡ false)
reserved_apart n h = ground arith

private_fc :
    (n : ℕ)
    → between 0xfc000000000000000000000000000000 0xfdffffffffffffffffffffffffffffff n ≡ true
    → is_private_v6 n ≡ true
unfolding is_private_v6
private_fc n h = ground (
  arith,
  apart 0xfc000000000000000000000000000000 0xfdffffffffffffffffffffffffffffff 0xffff00000000
      0xffffffffffff n h (inr (omega arith)),
  apart 0xfc000000000000000000000000000000 0xfdffffffffffffffffffffffffffffff
      0x20010001000000000000000000000001 0x20010001000000000000000000000001 n h (inr (omega arith)),
  apart 0xfc000000000000000000000000000000 0xfdffffffffffffffffffffffffffffff
      0x20010001000000000000000000000002 0x20010001000000000000000000000002 n h (inr (omega arith)),
  apart 0xfc000000000000000000000000000000 0xfdffffffffffffffffffffffffffffff
      0x20010003000000000000000000000000 0x20010003ffffffffffffffffffffffff n h (inr (omega arith)),
  apart 0xfc000000000000000000000000000000 0xfdffffffffffffffffffffffffffffff
      0x20010004011200000000000000000000 0x200100040112ffffffffffffffffffff n h (inr (omega arith)),
  apart 0xfc000000000000000000000000000000 0xfdffffffffffffffffffffffffffffff
      0x20010020000000000000000000000000 0x2001002fffffffffffffffffffffffff n h (inr (omega arith)),
  apart 0xfc000000000000000000000000000000 0xfdffffffffffffffffffffffffffffff
      0x20010030000000000000000000000000 0x2001003fffffffffffffffffffffffff n h (inr (omega arith)),
)

none_of_six :
    (a b c d e f : Bool)
    → (a || b || c || d || e || f) ≡ false
    → (a ≡ false) × (c ≡ false) × (d ≡ false) × (e ≡ false)
none_of_six a b c d e f h = ground arith

open_tests :
    (n : ℕ)
    → is_disallowed_v6 n ≡ false
    → (is_private_v6 n ≡ false)
      × (between 0xfe800000000000000000000000000000 0xfebfffffffffffffffffffffffffffff n ≡ false)
      × (between 0xff000000000000000000000000000000 0xffffffffffffffffffffffffffffffff n ≡ false)
      × (any_of (contains n) reserved_v6 ≡ false)
unfolding is_disallowed_v6
open_tests n h =
    none_of_six (is_private_v6 n) (n == 1)
      (between 0xfe800000000000000000000000000000 0xfebfffffffffffffffffffffffffffff n)
      (between 0xff000000000000000000000000000000 0xffffffffffffffffffffffffffffffff n)
      (any_of (contains n) reserved_v6) (n == 0) h

-- Beside NAT64, an IPv6 address passes only in 2000::/3 or in the site-local fec0::/10.
pub allowed_v6 :
    (n : ℕ)
    → is_disallowed_v6 n ≡ false
    → n < 0x100000000000000000000000000000000
    → (between 0x20000000000000000000000000000000 0x3fffffffffffffffffffffffffffffff n ≡ true)
      ⊎ (between 0xfec00000000000000000000000000000 0xfeffffffffffffffffffffffffffffff n ≡ true)
allowed_v6 n h small =
    let (private, link, multi, reserved) = open_tests n h in
    let (r0, r1, r2, r3, r4, r5, r6, r7, r8, r9, r10, r11, r12, r13, r14) =
      reserved_apart n reserved in
    let a0 = above 0x0 0xffffffffffffffffffffffffffffff n r0 (omega arith) in
    let a1 =
      above 0x1000000000000000000000000000000 0x1ffffffffffffffffffffffffffffff n r1
        (omega arith) in
    let a2 =
      above 0x2000000000000000000000000000000 0x3ffffffffffffffffffffffffffffff n r2
        (omega arith) in
    let a3 =
      above 0x4000000000000000000000000000000 0x7ffffffffffffffffffffffffffffff n r3
        (omega arith) in
    let a4 =
      above 0x8000000000000000000000000000000 0xfffffffffffffffffffffffffffffff n r4
        (omega arith) in
    let a5 =
      above 0x10000000000000000000000000000000 0x1fffffffffffffffffffffffffffffff n r5
        (omega arith) in
    elim (Bool-cases
      (between 0x20000000000000000000000000000000 0x3fffffffffffffffffffffffffffffff n)) [
        | inl unicast ↦ inl unicast
        | inr beyond ↦
            let b0 =
              above 0x20000000000000000000000000000000 0x3fffffffffffffffffffffffffffffff n beyond
                (omega arith) in
            let a6 =
              above 0x40000000000000000000000000000000 0x5fffffffffffffffffffffffffffffff n r6
                (omega arith) in
            let a7 =
              above 0x60000000000000000000000000000000 0x7fffffffffffffffffffffffffffffff n r7
                (omega arith) in
            let a8 =
              above 0x80000000000000000000000000000000 0x9fffffffffffffffffffffffffffffff n r8
                (omega arith) in
            let a9 =
              above 0xa0000000000000000000000000000000 0xbfffffffffffffffffffffffffffffff n r9
                (omega arith) in
            let a10 =
              above 0xc0000000000000000000000000000000 0xdfffffffffffffffffffffffffffffff n r10
                (omega arith) in
            let a11 =
              above 0xe0000000000000000000000000000000 0xefffffffffffffffffffffffffffffff n r11
                (omega arith) in
            let a12 =
              above 0xf0000000000000000000000000000000 0xf7ffffffffffffffffffffffffffffff n r12
                (omega arith) in
            let a13 =
              above 0xf8000000000000000000000000000000 0xfbffffffffffffffffffffffffffffff n r13
                (omega arith) in
            let fc =
              elim (Bool-cases
                  (between 0xfc000000000000000000000000000000 0xfdffffffffffffffffffffffffffffff n))
                as (λ _.
                  between 0xfc000000000000000000000000000000 0xfdffffffffffffffffffffffffffffff n
                  ≡ false) [
                    | inl local ↦ absurd (ground (arith, private_fc n local))
                    | inr e ↦ e
                  ] in
            let a15 =
              above 0xfc000000000000000000000000000000 0xfdffffffffffffffffffffffffffffff n fc
                (omega arith) in
            let a14 =
              above 0xfe000000000000000000000000000000 0xfe7fffffffffffffffffffffffffffff n r14
                (omega arith) in
            let a16 =
              above 0xfe800000000000000000000000000000 0xfebfffffffffffffffffffffffffffff n link
                (omega arith) in
            elim (Bool-cases
              (between 0xfec00000000000000000000000000000 0xfeffffffffffffffffffffffffffffff n)) [
                | inl site ↦ inr site
                | inr e ↦
                    let a17 =
                      above 0xfec00000000000000000000000000000 0xfeffffffffffffffffffffffffffffff n
                        e (omega arith) in
                    absurd (
                      omega (
                        arith,
                        above 0xff000000000000000000000000000000 0xffffffffffffffffffffffffffffffff
                            n multi (omega arith),
                      ))
              ]
      ]
