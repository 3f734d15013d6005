-- ===== src/Extraction/Guard.antt =====
-- product-extractor/src/product_extractor/fetchers/ssrf_guard.py. A link arrives as `urlparse` gives
-- it: the scheme and the host in lower case, and the port, which raises when it is read if it is
-- malformed. getaddrinfo is the argument `lookup`; it takes the number of lookups before it, since
-- two lookups of one host may differ.
pub mod Pinning
use ai_virtual_try_on.Prelude.{
  ℕ, suc, String, Bool, true, false, not, ◌||◌, Option, none, some, List, [], ◌∷◌, str_eq, ◌==◌,
  if◌then◌else◌,
}
use ai_virtual_try_on.Errors.{extraction_error, value_error}
use ai_virtual_try_on.Errors.Exec.{Result, ok, err}
use ai_virtual_try_on.Extraction.Address.{Ip, is_disallowed}

pub data Port : Type 0 where
  no_port : Port
  port : ℕ → Port
  bad_port : Port

pub record Url : Type 0 where
  pub scheme : String
  pub hostname : Option String
  pub port : Port
  pub path : String

-- What getaddrinfo gives: gaierror, UnicodeError for a host that no IDNA label can hold, or
-- addresses, none for one that `ip_address` does not read.
pub data Lookup : Type 0 where
  no_such_host : Lookup
  not_encodable : Lookup
  answers : List (Option Ip) → Lookup

-- The address and the port to connect to, and the host for the Host header and for TLS.
pub record Target : Type 0 where
  pub address : Ip
  pub connect_port : Option ℕ
  pub host : String

abbrev pub generic_blocked_message : String
generic_blocked_message =
    "We couldn't process that link. Please upload a product photo or screenshot instead."

-- The loop over the answers, with the address pinned so far: it refuses an answer that does not
-- parse or is disallowed wherever it stands.
unfoldable pub pin : Option Ip → List (Option Ip) → Option Ip
pin pinned [] = pinned
pin pinned (none ∷ rest) = none
pin pinned (some ip ∷ rest) = elim (is_disallowed ip) [
  | true ↦ none
  | false ↦ pin (elim pinned [ none ↦ some ip | some first ↦ some first ]) rest
]

abbrev pub allowed_scheme : String → Bool
allowed_scheme s = str_eq s "http" || str_eq s "https"

abbrev pub is_local : String → Bool
is_local host = str_eq host "localhost" || str_eq host "localhost.localdomain"

-- `f":{parsed.port}" if parsed.port else ""`
abbrev pub target_at : Ip → Port → String → Result Target
target_at ip no_port host = ok (record { address = ip; connect_port = none; host = host })
target_at ip (port n) host =
    ok (record { address = ip; connect_port = if n == 0 then none else some n; host = host })
target_at ip bad_port host = err value_error

abbrev pub pinned_target : Lookup → Port → String → Result Target
pinned_target no_such_host p host = err (extraction_error generic_blocked_message)
pinned_target not_encodable p host = err value_error
pinned_target (answers ips) p host = elim (pin none ips) [
  | none ↦ err (extraction_error generic_blocked_message)
  | some ip ↦ target_at ip p host
]

abbrev pub host_of : Url → Option String
host_of url = elim url.hostname [
  | none ↦ none
  | some host ↦ if str_eq host "" || is_local host then none else some host
]

-- The number of lookups comes back raised by one if there was one.
unfoldable pub resolve_pinned_connect_url : (ℕ → String → Lookup) → Url → ℕ → Result Target × ℕ
resolve_pinned_connect_url lookup url n =
    if not (allowed_scheme url.scheme)
    then (err (extraction_error generic_blocked_message), n)
    else elim (host_of url) [
      | none ↦ (err (extraction_error generic_blocked_message), n)
      | some host ↦ (pinned_target (lookup n host) url.port host, suc n)
    ]
