-- ===== src/Extraction/Guard/Pinning.antt =====
-- The address that the guard pins is the first answer of one lookup, all of whose answers are allowed.
use ai_virtual_try_on.Prelude.{
  ℕ, ◌≡◌, sym, subst, String, false, Option, none, some, List, [], ◌∷◌, All, arith, inl, inr,
  Bool-cases, Option-cases,
}
use ai_virtual_try_on.Errors.Exec.{ok}
use ai_virtual_try_on.Extraction.Address.{Ip, is_disallowed}
use ai_virtual_try_on.Extraction.Guard.{
  Url, Lookup, no_such_host, not_encodable, answers, Target, pin, Port, no_port, port, bad_port,
  target_at, pinned_target, host_of, allowed_scheme, resolve_pinned_connect_url,
}

-- An answer that parses as an allowed address.
abbrev pub IsAllowed : Option Ip → Type 0
IsAllowed none = ⊥
IsAllowed (some ip) = is_disallowed ip ≡ false

-- The answers are all allowed, and the address is the first.
abbrev pub IsPinned : Ip → Lookup → Type 0
IsPinned ip no_such_host = ⊥
IsPinned ip not_encodable = ⊥
IsPinned ip (answers []) = ⊥
IsPinned ip (answers (first ∷ rest)) = (first ≡ some ip) × All IsAllowed (first ∷ rest)

pin-some :
    (pinned ip : Ip) (ips : List (Option Ip))
    → pin (some pinned) ips ≡ some ip
    → (pinned ≡ ip) × All IsAllowed ips
unfolding pin
pin-some pinned ip [] h = ground arith
pin-some pinned ip (none ∷ rest) h = absurd (ground arith)
pin-some pinned ip (some x ∷ rest) h = elim (Bool-cases (is_disallowed x)) [
  | inl bad ↦ absurd (ground arith)
  | inr fine ↦ ground (arith, pin-some pinned ip rest)
]

pin-none : (ip : Ip) (ips : List (Option Ip)) → pin none ips ≡ some ip → IsPinned ip (answers ips)
unfolding pin
pin-none ip [] h = absurd (ground arith)
pin-none ip (none ∷ rest) h = absurd (ground arith)
pin-none ip (some x ∷ rest) h = elim (Bool-cases (is_disallowed x)) [
  | inl bad ↦ absurd (ground arith)
  | inr fine ↦ ground (arith, pin-some x ip rest)
]

target_lem :
    (ip : Ip) (p : Port) (host : String) (t : Target)
    → target_at ip p host ≡ ok t
    → (t.address ≡ ip) × (t.host ≡ host)
target_lem ip no_port host t h = ground arith
target_lem ip (port n) host t h = ground arith
target_lem ip bad_port host t h = absurd (ground arith)

pinned_target_lem :
    (l : Lookup) (p : Port) (host : String) (t : Target)
    → pinned_target l p host ≡ ok t
    → (t.host ≡ host) × IsPinned t.address l
pinned_target_lem no_such_host p host t h = absurd (ground arith)
pinned_target_lem not_encodable p host t h = absurd (ground arith)
pinned_target_lem (answers ips) p host t h = elim (Option-cases (pin none ips)) [
  | inl refused ↦ absurd (ground arith)
  | inr (ip, e) ↦
      let at_ip : target_at ip p host ≡ ok t = ground arith in
      let (same, named) = target_lem ip p host t at_ip in
      (named, subst (λ x. IsPinned x (answers ips)) (sym same) (pin-none ip ips e))
]

-- What the guard hands out is pinned by the one lookup that it made, of the host it hands out.
pub resolve_pinned_lem :
    (lookup : ℕ → String → Lookup) (url : Url) (n : ℕ) (t : Target)
    → (resolve_pinned_connect_url lookup url n).0 ≡ ok t
    → IsPinned t.address (lookup n t.host)
unfolding resolve_pinned_connect_url
resolve_pinned_lem lookup url n t h = elim (Bool-cases (allowed_scheme url.scheme)) [
  | inr other ↦ absurd (ground arith)
  | inl fine ↦ elim (Option-cases (host_of url)) [
    | inl none_left ↦ absurd (ground arith)
    | inr (host, e) ↦
        let found : pinned_target (lookup n host) url.port host ≡ ok t = ground arith in
        let (named, pinned) = pinned_target_lem (lookup n host) url.port host t found in
        rw named pinned
  ]
]
