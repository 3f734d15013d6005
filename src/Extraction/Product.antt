-- ===== src/Extraction/Product.antt =====
-- Which image a product page names: _find_product_image_url and its helpers of
-- product-extractor/src/product_extractor/fetchers/http_fetcher.py. BeautifulSoup and json.loads are
-- an argument of the fetcher: they give the page as the values of its JSON-LD scripts, none for a
-- script that does not parse, and the content of its og:image. A number is opaque but for zero.
use ai_virtual_try_on.Errors.{value_error, type_error}
use ai_virtual_try_on.Errors.Exec.{Result, ok, err}
use ai_virtual_try_on.Prelude.{
  ℕ, String, Bool, true, false, not, Option, none, some, List, [], ◌∷◌, str_eq, ◌==◌, if◌then◌else◌,
}

mutual
  pub data Json : Type 0 where
    null : Json
    boolean : Bool → Json
    number : ℕ → Json
    text : String → Json
    array : Items → Json
    object : Fields → Json

  pub data Items : Type 0 where
    no_items : Items
    item : Json → Items → Items

  pub data Fields : Type 0 where
    no_fields : Fields
    field : String → Json → Fields → Fields

-- `d.get(key)`
unfoldable pub get : String → Fields → Json
get key no_fields = null
get key (field k v rest) = let later = get key rest in if str_eq k key then v else later

-- `if image:`
abbrev pub is_truthy : Json → Bool
is_truthy null = false
is_truthy (boolean b) = b
is_truthy (number n) = not (n == 0)
is_truthy (text t) = not (str_eq t "")
is_truthy (array no_items) = false
is_truthy (array (item x xs)) = true
is_truthy (object no_fields) = false
is_truthy (object (field k v rest)) = true

unfoldable pub first_image_url : Json → Json
unfolding get
first_image_url (text t) = text t
first_image_url (object d) = get "url" d
first_image_url (array (item x xs)) = first_image_url x
first_image_url null = null
first_image_url (boolean b) = null
first_image_url (number n) = null
first_image_url (array no_items) = null

abbrev is_text : String → Json → Bool
is_text t (text s) = str_eq s t
is_text t null = false
is_text t (boolean b) = false
is_text t (number n) = false
is_text t (array xs) = false
is_text t (object d) = false

unfoldable pub has_text_item : String → Items → Bool
has_text_item t no_items = false
has_text_item t (item x xs) = let rest = has_text_item t xs in if is_text t x then true else rest

-- `"Product" in types`
abbrev pub has_type : String → Json → Bool
has_type t (array types) = has_text_item t types
has_type t (text s) = str_eq s t
has_type t null = false
has_type t (boolean b) = false
has_type t (number n) = false
has_type t (object d) = false

abbrev pub graph_or : Json → Items → Items
graph_or (array nodes) other = nodes
graph_or null other = other
graph_or (boolean b) other = other
graph_or (number n) other = other
graph_or (text t) other = other
graph_or (object d) other = other

unfoldable pub candidates : Json → Items
unfolding get
candidates (object d) = graph_or (get "@graph" d) (item (object d) no_items)
candidates (array nodes) = nodes
candidates null = no_items
candidates (boolean b) = no_items
candidates (number n) = no_items
candidates (text t) = no_items

-- The image of the first node of type Product, if it is an object.
unfoldable pub product_image : Items → Json
unfolding get
product_image no_items = null
product_image (item (object d) rest) =
    let later = product_image rest in
    if has_type "Product" (get "@type" d) then first_image_url (get "image" d) else later
product_image (item null rest) = product_image rest
product_image (item (boolean b) rest) = product_image rest
product_image (item (number n) rest) = product_image rest
product_image (item (text t) rest) = product_image rest
product_image (item (array xs) rest) = product_image rest

unfoldable pub extract_product_image_from_jsonld : Json → Json
unfolding product_image candidates
extract_product_image_from_jsonld v = product_image (candidates v)

-- The first script whose image is truthy; null if there is none.
unfoldable pub find_jsonld_product_image : List (Option Json) → Json
unfolding extract_product_image_from_jsonld
find_jsonld_product_image [] = null
find_jsonld_product_image (none ∷ scripts) = find_jsonld_product_image scripts
find_jsonld_product_image (some v ∷ scripts) =
    let later = find_jsonld_product_image scripts in
    let image = extract_product_image_from_jsonld v in if is_truthy image then image else later

pub record Page : Type 0 where
  pub scripts : List (Option Json)
  pub og_image : Option String

-- urljoin raises ValueError where `join` has no value, and TypeError for what is not a text.
abbrev joined : {Url : Type 0} → (String → Option Url) → Json → Result (Option Url)
joined join (text t) = elim (join t) [ none ↦ err value_error | some url ↦ ok (some url) ]
joined join null = err type_error
joined join (boolean b) = err type_error
joined join (number n) = err type_error
joined join (array xs) = err type_error
joined join (object d) = err type_error

unfoldable pub find_product_image_url :
    {Url : Type 0} → (String → Option Url) → Page → Result (Option Url)
unfolding find_jsonld_product_image
find_product_image_url join page =
    let image = find_jsonld_product_image page.scripts in
    if is_truthy image then joined join image else elim page.og_image [
      | none ↦ ok none
      | some content ↦ if str_eq content "" then ok none else joined join (text content)
    ]
