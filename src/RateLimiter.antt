-- ===== src/RateLimiter.antt =====
-- class RateLimiter of backend/app/services/rate_limiter.py. Each check holds the lock for its whole
-- body. time.monotonic() is in microseconds, a float of seconds in the source, and never falls.
pub mod Window
use ai_virtual_try_on.Prelude.{
  ℕ, ◌+◌, ◌-◌, ◌*◌, ◌/◌, min, String, Bool, true, false, Option, none, some, List, [], ◌∷◌, ◌++◌,
  ltb, leb, str_eq, length, select, if◌then◌else◌,
}
use ai_virtual_try_on.Errors.{value_error}
use ai_virtual_try_on.Errors.Exec.{Exec, ok, err}

pub record RateLimitResult : Type 0 where
  pub allowed : Bool
  pub retry_after_seconds : ℕ

pub record RateLimiter : Type 0 where
  pub max_requests : ℕ
  pub window_seconds : ℕ
  pub hits : List (String × List ℕ)

abbrev pub second : ℕ
second = 1000000

-- `self._hits.get(client_key, [])`
unfoldable pub get_hits : String → List (String × List ℕ) → List ℕ
get_hits key [] = []
get_hits key ((k, ts) ∷ d) = if str_eq k key then ts else get_hits key d

-- `self._hits[client_key] = hits`
unfoldable pub set_hits : String → List ℕ → List (String × List ℕ) → List (String × List ℕ)
set_hits key ts [] = (key, ts) ∷ []
set_hits key ts ((k, old) ∷ d) =
    if str_eq k key then (key, ts) ∷ d else (k, old) ∷ set_hits key ts d

-- `now - t < self.window_seconds`
abbrev pub is_recent : ℕ → ℕ → ℕ → Bool
is_recent window now t = ltb (now - t) (window * second)

-- `min(hits)`
unfoldable pub oldest : List ℕ → Option ℕ
oldest [] = none
oldest (t ∷ ts) = let rest = oldest ts in elim rest [ none ↦ some t | some m ↦ some (min t m) ]

-- A full window whose list is empty (a limit of 0) raises: `min` of no values.
unfoldable pub check : String → ℕ → Exec RateLimiter RateLimitResult
check key now l =
    let hits = select (is_recent l.window_seconds now) (get_hits key l.hits) in
    if leb l.max_requests (length hits)
    then elim (oldest hits) [
      | none ↦ (err value_error, l)
      | some first ↦ (
        ok (record {
          allowed = false;
          retry_after_seconds = (l.window_seconds * second - (now - first)) / second + 1;
        }),
        record l { hits = set_hits key hits l.hits },
      )
    ]
    else (
      ok (record { allowed = true; retry_after_seconds = 0 }),
      record l { hits = set_hits key (hits ++ now ∷ []) l.hits },
    )
