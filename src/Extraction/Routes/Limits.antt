-- ===== src/Extraction/Routes/Limits.antt =====
-- The route of a product link: its connections, and what it tells the client.
use ai_virtual_try_on.Prelude.{
  ℕ, ◌+◌, ◌≤◌, ◌≡◌, String, length, All, arith, inl, inr, if◌then◌else◌,
}
use ai_virtual_try_on.Errors.Exec.{Exec, Result-cases}
use ai_virtual_try_on.RateLimiter.{RateLimiter, check}
use ai_virtual_try_on.RateLimiter.Window.{answer}
use ai_virtual_try_on.Extraction.Guard.{Url}
use ai_virtual_try_on.Extraction.Fetcher.{Web, Net, fetch_product_image}
use ai_virtual_try_on.Extraction.Fetcher.Connections.{
  IsGuarded, fetch_product_image_guarded, fetch_bounded,
}
use ai_virtual_try_on.Extraction.Routes.{
  user_errors, behind_limiter, extract_from_url, extract_product_url,
}

behind_limiter_state :
    {S A : Type 0} (client : String) (now : ℕ) (l : RateLimiter) (rest : Exec S A) (s : S)
    → (behind_limiter client now l rest s).2 ≡ (if answer l client now then (rest s).1 else s)
unfolding behind_limiter
behind_limiter_state client now l rest s = elim (Result-cases (check client now l).0) [
  | inl (r, e) ↦ ground arith
  | inr (e', e) ↦ ground arith
]

module _ {Image Extracted : Type 0} (web : Web Image) (extract : Image → Extracted) where
  extract_state :
      (url : Url) (s : Net)
      → (extract_from_url web extract url s).1 ≡ (fetch_product_image web url s).1
  unfolding extract_from_url
  extract_state url s = elim (Result-cases (fetch_product_image web url s).0) [
    | inl (image, e) ↦ ground arith
    | inr (e', e) ↦ ground arith
  ]

  route_state :
      (client : String) (now : ℕ) (l : RateLimiter) (url : Url) (s : Net)
      → (extract_product_url web extract client now l url s).2
        ≡ (if answer l client now then (fetch_product_image web url s).1 else s)
  unfolding extract_product_url
  route_state client now l url s = ground (
    arith,
    behind_limiter_state client now l
        (λ s'. (
          user_errors (extract_from_url web extract url s').0,
          (extract_from_url web extract url s').1,
        ))
        s,
    extract_state url s,
  )

  -- A request for a product link that the limiter refuses connects nowhere. One that it allows
  -- connects at most twelve times, and only to addresses that the guard pinned.
  pub extract_product_url_lem :
      (client : String) (now : ℕ) (l : RateLimiter) (url : Url) (s : Net)
      → All (IsGuarded web) s.connections
      → let s' = (extract_product_url web extract client now l url s).2 in
        All (IsGuarded web) s'.connections
        × (length s'.connections ≤ length s.connections + (if answer l client now then 12 else 0))
  extract_product_url_lem client now l url s safe =
      rw (route_state client now l url s)
        (ground (arith, fetch_product_image_guarded web url s safe, fetch_bounded web url s))
