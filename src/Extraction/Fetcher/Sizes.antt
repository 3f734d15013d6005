-- ===== src/Extraction/Fetcher/Sizes.antt =====
-- How much a request returns.
use ai_virtual_try_on.Prelude.{
  ℕ, zero, suc, ◌≤◌, ◌≡◌, Bool, true, false, none, some, List, [], ◌∷◌, ◌++◌, ltb, length, arith,
  inl, inr, Bool-cases, Option-cases,
}
use ai_virtual_try_on.Errors.Exec.{ok, ◌>>=◌, Result-cases}
use ai_virtual_try_on.Storage.{Bytes}
use ai_virtual_try_on.Extraction.Guard.{Url}
use ai_virtual_try_on.Extraction.Fetcher.{
  Response, http_failure, unbuildable, redirect, reply, Web, Net, read_body, next_location, follow,
  one_round, request_rounds, request, get_bytes, resolve, send,
}

read_body-le :
    (max_bytes : ℕ) (content result : Bytes) (chunks : List Bytes) (breaks : Bool)
    → length content ≤ max_bytes
    → read_body max_bytes content chunks breaks ≡ some result
    → length result ≤ max_bytes
unfolding read_body
read_body-le max_bytes content result [] breaks small h = ground arith
read_body-le max_bytes content result (chunk ∷ chunks) breaks small h =
    elim (Bool-cases (ltb max_bytes (length (content ++ chunk)))) [
      | inl over ↦ absurd (ground arith)
      | inr fits ↦ ground (arith, read_body-le max_bytes (content ++ chunk) result chunks breaks)
    ]

module _ {Image : Type 0} (web : Web Image) (max_bytes : ℕ) where
  follow-le :
      (url next : Url) (allow_404 again : Bool) (bytes : Bytes) (response : Response)
      → follow web url max_bytes allow_404 response ≡ ok (next, again, some bytes)
      → length bytes ≤ max_bytes
  unfolding follow
  follow-le url next allow_404 again bytes http_failure h = absurd (ground arith)
  follow-le url next allow_404 again bytes unbuildable h = absurd (ground arith)
  follow-le url next allow_404 again bytes (redirect location) h =
      elim (Option-cases (next_location location)) [
        | inl nowhere ↦ absurd (ground arith)
        | inr (t, e) ↦ elim (Option-cases (web.join url t)) [
          | inl broken ↦ absurd (ground arith)
          | inr (u, e') ↦ absurd (ground arith)
        ]
      ]
  follow-le url next allow_404 again bytes (reply status chunks breaks) h =
      elim (Option-cases (read_body max_bytes [] chunks breaks)) [
        | inl failed ↦ absurd (ground arith)
        | inr (content, e) ↦
            ground (arith, read_body-le max_bytes [] content chunks breaks (omega arith) e)
      ]

  one_round-le :
      (url next : Url) (allow_404 again : Bool) (bytes : Bytes) (s : Net)
      → (one_round web url max_bytes allow_404 s).0 ≡ ok (next, again, some bytes)
      → length bytes ≤ max_bytes
  unfolding one_round
  one_round-le url next allow_404 again bytes s h =
      elim (Result-cases ((resolve web url >>= send web) s).0) [
        | inl (response, e) ↦ follow-le url next allow_404 again bytes response (ground arith)
        | inr (e', e) ↦ absurd (ground arith)
      ]

  request_rounds-le :
      (rounds : ℕ) (url : Url) (allow_404 : Bool) (bytes : Bytes) (s : Net)
      → (request_rounds web rounds url max_bytes allow_404 s).0 ≡ ok (some bytes)
      → length bytes ≤ max_bytes
  unfolding request_rounds
  request_rounds-le zero url allow_404 bytes s h = absurd (ground arith)
  request_rounds-le (suc rounds) url allow_404 bytes s h =
      elim (Result-cases (one_round web url max_bytes allow_404 s).0) [
        | inr (e', e) ↦ absurd (ground arith)
        | inl ((next, true, content), e) ↦
            request_rounds-le rounds next allow_404 bytes
              (one_round web url max_bytes allow_404 s).1 (ground arith)
        | inl ((next, false, content), e) ↦
            one_round-le url next allow_404 false bytes s (ground arith)
      ]

  -- Whatever the server sends, a request that succeeds returns at most max_bytes.
  pub get_bytes-le :
      (url : Url) (bytes : Bytes) (s : Net)
      → (get_bytes web url max_bytes s).0 ≡ ok bytes
      → length bytes ≤ max_bytes
  unfolding get_bytes request
  get_bytes-le url bytes s h = elim (Result-cases (request web url max_bytes false s).0) [
    | inr (e', e) ↦ absurd (ground arith)
    | inl (none, e) ↦ absurd (ground arith)
    | inl (some content, e) ↦ request_rounds-le 4 url false bytes s (ground arith)
  ]
