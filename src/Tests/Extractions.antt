-- ===== src/Tests/Extractions.antt =====
-- Links and images at concrete inputs.
use ai_virtual_try_on.Prelude.{
  ℕ, ◌+◌, ◌*◌, ◌<◌, ◌≤◌, ◌≡◌, refl, arith, str_eq, true, false, some, List, [], ◌∷◌, length, All,
  if◌then◌else◌,
}
use ai_virtual_try_on.Errors.{value_error}
use ai_virtual_try_on.Errors.Exec.{ok, err}
use ai_virtual_try_on.RateLimiter.{RateLimiter}
use ai_virtual_try_on.RateLimiter.Window.{answer}
use ai_virtual_try_on.Extraction.Address.{
  v4, v6, is_disallowed, is_disallowed_v4, is_disallowed_v6, is_private_v4, is_private_v6, between,
}
use ai_virtual_try_on.Extraction.Address.Reach.{nat64, mapped, internal_disallowed}
use ai_virtual_try_on.Extraction.Guard.{
  Url, no_port, bad_port, answers, pin, resolve_pinned_connect_url,
}
use ai_virtual_try_on.Extraction.Images.{Pillow, validate_and_load_image, decode_image, megabyte}
use ai_virtual_try_on.Extraction.Images.Bombs.{IsSmall, validate_lem}
use ai_virtual_try_on.Extraction.Product.{
  Json, null, text, array, object, no_items, item, no_fields, field, get, has_text_item, candidates,
  product_image, first_image_url, extract_product_image_from_jsonld, find_jsonld_product_image,
  find_product_image_url,
}
use ai_virtual_try_on.Extraction.Fetcher.{
  Web, Net, reply, read_body, resolve, assert_safe_url, send, follow, one_round, request_rounds,
  request, get_bytes, check_robots_txt, decode, fetch_image_from_url, fetch_product_image,
}
use ai_virtual_try_on.Extraction.Fetcher.Connections.{IsGuarded}
use ai_virtual_try_on.Extraction.Fetcher.Sizes.{get_bytes-le}
use ai_virtual_try_on.Extraction.Routes.{extract_product_url}
use ai_virtual_try_on.Extraction.Routes.Limits.{extract_product_url_lem}

-- 169.254.169.254, of the metadata services.
internal_disallowed_example :
    (is_disallowed (v4 0xa9fea9fe) ≡ true)
    × (is_disallowed (nat64 0xa9fea9fe) ≡ true)
    × (is_disallowed (mapped 0xa9fea9fe) ≡ true)
unfolding between
internal_disallowed_example = internal_disallowed 0xa9fea9fe refl (omega arith)

-- 8.8.8.8 passes, and so does 100.64.0.1 of the shared addresses, fec0::1, and the same behind NAT64.
public_passes : is_disallowed (v4 0x08080808) ≡ false
unfolding is_disallowed is_disallowed_v4 is_private_v4 between
public_passes = refl

shared_passes : is_disallowed (v4 0x64400001) ≡ false
unfolding is_disallowed is_disallowed_v4 is_private_v4 between
shared_passes = refl

site_local_passes : is_disallowed (v6 0xfec00000000000000000000000000001) ≡ false
unfolding is_disallowed is_disallowed_v6 is_private_v6 between
site_local_passes = refl

abbrev pillow : Pillow ℕ
pillow = record {
  open_image = λ bytes. some (record { format = "PNG"; width = 4000; height = 5000 });
  load = λ bytes. some 1;
  convert = λ image. ok image;
}

-- A host with a page that names an image; every other host is an internal one.
abbrev web : Web ℕ
web = record {
  lookup =
      λ n host. answers (some (v4 (if str_eq host "a.org" then 0x08080808 else 0x7f000001)) ∷ []);
  respond = λ n c. reply 200 ((7 ∷ 8 ∷ []) ∷ []) false;
  join = λ url t. some (record url { path = t });
  can_fetch = λ robots url. true;
  parse = λ html. record { scripts = []; og_image = some "/image.png" };
  pillow = pillow;
}

abbrev two_bytes : List ℕ
two_bytes = 7 ∷ 8 ∷ []

abbrev link : Url
link = record { scheme = "https"; hostname = some "a.org"; port = no_port; path = "/" }

abbrev fresh : Net
fresh = record { lookups = 0; connections = []; decoded = [] }

body : (get_bytes web link 5 fresh).0 ≡ ok two_bytes
unfolding get_bytes request request_rounds one_round resolve send follow read_body
    resolve_pinned_connect_url pin is_disallowed is_disallowed_v4 is_private_v4 between
body = refl

get_bytes-le_example : length two_bytes ≤ 5
get_bytes-le_example = get_bytes-le web 5 link two_bytes fresh body

-- The image is too tall, so nothing is decoded.
too_tall : (fetch_product_image web link fresh).1.decoded ≡ []
unfolding fetch_product_image fetch_image_from_url assert_safe_url check_robots_txt decode
    decode_image find_product_image_url find_jsonld_product_image get_bytes request request_rounds
    one_round resolve send follow read_body resolve_pinned_connect_url pin is_disallowed
    is_disallowed_v4 is_private_v4 between
too_tall = refl

-- A malformed port raises ValueError past the handler of the route.
bad_port_raises :
    (fetch_product_image web (record link { port = bad_port }) fresh).0 ≡ err value_error
unfolding fetch_product_image assert_safe_url resolve resolve_pinned_connect_url pin is_disallowed
    is_disallowed_v4 is_private_v4 between
bad_port_raises = refl

abbrev limiter : RateLimiter
limiter = record { max_requests = 1; window_seconds = 60; hits = [] }

extract_product_url_lem_example :
    let s' = (extract_product_url web (λ (n : ℕ). n) "c" 0 limiter link fresh).2 in
    All (IsGuarded web) s'.connections
    × (length s'.connections ≤ length fresh.connections + (if answer limiter "c" 0 then 12 else 0))
extract_product_url_lem_example =
    extract_product_url_lem web (λ (n : ℕ). n) "c" 0 limiter link fresh tt

validate_lem_example :
    All (IsSmall 4096) (validate_and_load_image pillow 10 4096 "Your photo" two_bytes []).1
    × ((image : ℕ)
        → (validate_and_load_image pillow 10 4096 "Your photo" two_bytes []).0 ≡ ok image
        → (0 < length two_bytes) × (length two_bytes ≤ 10 * megabyte))
validate_lem_example = validate_lem pillow 10 4096 "Your photo" two_bytes [] tt

abbrev product : Json
product = object (
    field "@type" (array (item (text "Thing") (item (text "Product") no_items))) (
      field "image" (array (item (object (field "url" (text "/p.png") no_fields)) no_items))
        no_fields))

-- The three wrappings of JSON-LD.
wrapped :
    (extract_product_image_from_jsonld product ≡ text "/p.png")
    × (extract_product_image_from_jsonld (array (item null (item product no_items)))
        ≡ text "/p.png")
    × (extract_product_image_from_jsonld
          (object (field "@graph" (array (item product no_items)) no_fields))
        ≡ text "/p.png")
unfolding extract_product_image_from_jsonld candidates product_image get has_text_item
    first_image_url
wrapped = (refl, refl, refl)
