-- ===== src/Extraction/Fetcher.antt =====
-- HttpProductPageFetcher of product-extractor/src/product_extractor/fetchers/http_fetcher.py. The
-- network, Pillow, the HTML and JSON parsers, urllib's robotparser and urljoin are arguments. What a
-- server answers may depend on how many connections were made before it. The state holds the
-- connections made, the last one first, and the images decoded.
pub mod Connections
pub mod Sizes
use ai_virtual_try_on.Prelude.{
  ℕ, zero, suc, ◌*◌, String, Bool, true, false, not, ◌&&◌, Option, none, some, List, [], ◌∷◌, ◌++◌,
  ltb, leb, ◌==◌, str_eq, length, if◌then◌else◌,
}
use ai_virtual_try_on.Errors.{
  Error, extraction_error, value_error, type_error, invalid_url, is_extraction_error,
}
use ai_virtual_try_on.Errors.Exec.{Result, ok, err, Exec, pure, raise, ◌>>=◌, ◌>>◌}
use ai_virtual_try_on.Storage.{Bytes}
use ai_virtual_try_on.Extraction.Guard.{Url, Lookup, Target, resolve_pinned_connect_url}
use ai_virtual_try_on.Extraction.Images.{Header, Pillow, decode_image, no_image_found_message}
use ai_virtual_try_on.Extraction.Product.{Page, find_product_image_url}

-- A connection, with the number of the lookup that gave its address.
pub record Connection : Type 0 where
  pub target : Target
  pub lookup_number : ℕ

-- How a request ends: httpx.HTTPError, httpx.InvalidURL before anything is sent, a redirect with
-- its Location, or a status with the chunks of the body, which may break off with an HTTPError.
pub data Response : Type 0 where
  http_failure : Response
  unbuildable : Response
  redirect : Option String → Response
  reply : ℕ → List Bytes → Bool → Response

pub record Web (Image : Type 0) : Type 0 where
  pub lookup : ℕ → String → Lookup
  pub respond : ℕ → Connection → Response
  pub join : Url → String → Option Url
  pub can_fetch : Bytes → Url → Bool
  pub parse : Bytes → Page
  pub pillow : Pillow Image

pub record Net : Type 0 where
  pub lookups : ℕ
  pub connections : List Connection
  pub decoded : List Header

abbrev pub max_page_bytes : ℕ
max_page_bytes = 5242880

abbrev pub max_image_bytes : ℕ
max_image_bytes = 10485760

abbrev pub max_redirects : ℕ
max_redirects = 3

abbrev pub fetch_failed : Error
fetch_failed =
    extraction_error "We couldn't reach that page. Please check the link or upload a photo instead."

abbrev pub blocked_by_robots : Error
blocked_by_robots =
    extraction_error
      "This site doesn't allow automatic product extraction. Please upload a photo or screenshot instead."

-- The loop over `iter_bytes()`; none where it raises.
unfoldable pub read_body : ℕ → Bytes → List Bytes → Bool → Option Bytes
read_body max_bytes content [] breaks = if breaks then none else some content
read_body max_bytes content (chunk ∷ chunks) breaks =
    elim (ltb max_bytes (length (content ++ chunk))) [
      | true ↦ none
      | false ↦ read_body max_bytes (content ++ chunk) chunks breaks
    ]

abbrev pub read_or_fail : Option Bytes → Result (Option Bytes)
read_or_fail none = err fetch_failed
read_or_fail (some content) = ok (some content)

abbrev pub next_location : Option String → Option String
next_location none = none
next_location (some t) = if str_eq t "" then none else some t

abbrev pub with_lookups : ℕ → Net → Net
with_lookups n s = record s { lookups = n }

abbrev pub connected : Connection → Net → Net
connected c s = record s { connections = c ∷ s.connections }

module _ {Image : Type 0} (web : Web Image) where
  unfoldable pub resolve : Url → Exec Net (Target × ℕ)
  resolve url s =
      let (r, n) = resolve_pinned_connect_url web.lookup url s.lookups in
      elim r [
        | err e ↦ (err e, with_lookups n s)
        | ok target ↦ (ok (target, s.lookups), with_lookups n s)
      ]

  unfoldable pub assert_safe_url : Url → Exec Net (Unit {0})
  assert_safe_url url s =
      let (r, s') = resolve url s in elim r [ err e ↦ (err e, s') | ok t ↦ (ok tt, s') ]

  unfoldable pub send : Target × ℕ → Exec Net Response
  send (target, n) s =
      let c : Connection = record { target = target; lookup_number = n } in
      elim (web.respond (length s.connections) c) [
        | unbuildable ↦ (err invalid_url, s)
        | http_failure ↦ (err fetch_failed, connected c s)
        | redirect location ↦ (ok (redirect location), connected c s)
        | reply status chunks breaks ↦ (ok (reply status chunks breaks), connected c s)
      ]

  -- What one round of the loop returns: the address of the next round, or the result.
  unfoldable pub follow : Url → ℕ → Bool → Response → Result (Url × Bool × Option Bytes)
  follow url max_bytes allow_404 http_failure = err fetch_failed
  follow url max_bytes allow_404 unbuildable = err invalid_url
  follow url max_bytes allow_404 (redirect location) = elim (next_location location) [
    | none ↦ err fetch_failed
    | some t ↦ elim (web.join url t) [ none ↦ err value_error | some next ↦ ok (next, true, none) ]
  ]
  follow url max_bytes allow_404 (reply status chunks breaks) =
      if status == 404 && allow_404
      then ok (url, false, none)
      else if leb 400 status
      then err fetch_failed
      else (elim (read_or_fail (read_body max_bytes [] chunks breaks)) [
        | err e ↦ err e
        | ok content ↦ ok (url, false, content)
      ])

  abbrev pub lift : {A : Type 0} → Result A → Exec Net A
  lift r s = (r, s)

  unfoldable pub one_round : Url → ℕ → Bool → Exec Net (Url × Bool × Option Bytes)
  one_round url max_bytes allow_404 =
      (resolve url >>= send) >>= λ response. lift (follow url max_bytes allow_404 response)

  -- `for _ in range(_MAX_REDIRECTS + 1)`
  unfoldable pub request_rounds : ℕ → Url → ℕ → Bool → Exec Net (Option Bytes)
  request_rounds zero url max_bytes allow_404 = raise fetch_failed
  request_rounds (suc rounds) url max_bytes allow_404 =
      one_round url max_bytes allow_404 >>= λ (next, again, content). elim again [
        | true ↦ request_rounds rounds next max_bytes allow_404
        | false ↦ pure content
      ]

  unfoldable pub request : Url → ℕ → Bool → Exec Net (Option Bytes)
  request url max_bytes allow_404 = request_rounds (suc max_redirects) url max_bytes allow_404

  unfoldable pub get_bytes : Url → ℕ → Exec Net Bytes
  get_bytes url max_bytes = request url max_bytes false >>= λ content. elim content [
    | none ↦ raise fetch_failed
    | some bytes ↦ pure bytes
  ]

  abbrev pub robots_url : Url → Url
  robots_url url = record url { path = "/robots.txt" }

  -- What follows the request for robots.txt.
  abbrev pub robots_verdict : Url → Result (Option Bytes) → Result (Unit {0})
  robots_verdict url (err e) = if is_extraction_error e then ok tt else err e
  robots_verdict url (ok none) = ok tt
  robots_verdict url (ok (some robots)) =
      if not (web.can_fetch robots url) then err blocked_by_robots else ok tt

  unfoldable pub check_robots_txt : Url → Exec Net (Unit {0})
  check_robots_txt url s =
      let (r, s') =
        (assert_safe_url (robots_url url) >> request (robots_url url) max_page_bytes true) s in
      (robots_verdict url r, s')

  unfoldable pub decode : Bytes → Exec Net Image
  decode bytes s =
      let (r, seen) = decode_image web.pillow bytes s.decoded in (r, record s { decoded = seen })

  unfoldable pub fetch_image_from_url : Url → Exec Net Image
  fetch_image_from_url url = (assert_safe_url url >> get_bytes url max_image_bytes) >>= decode

  -- The image that the page names, and the error if it names none.
  abbrev pub image_on : Url → Option Bytes → Result Url
  image_on url none = err type_error
  image_on url (some html) = elim (find_product_image_url (web.join url) (web.parse html)) [
    | err e ↦ err e
    | ok none ↦ err (extraction_error no_image_found_message)
    | ok (some image_url) ↦ ok image_url
  ]

  unfoldable pub fetch_product_image : Url → Exec Net Image
  fetch_product_image url =
      ((assert_safe_url url >> check_robots_txt url) >> request url max_page_bytes false)
      >>= λ html. lift (image_on url html) >>= λ image_url. fetch_image_from_url image_url
