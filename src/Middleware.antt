-- ===== src/Middleware.antt =====
-- What stands around the routes, in the order of backend/app/main.py from the inside out: the handler
-- of UserFacingError and CatchUnhandledExceptionsMiddleware (backend/app/core/errors.py),
-- RequestBodySizeLimitMiddleware, and SecurityHeadersMiddleware
-- (backend/app/core/security_headers.py); and the health check. The routes are an argument:
-- what they end with on the messages of the body that they get. Header names are in lower case, as
-- Starlette sends them, and those that an exception carries go along. CORSMiddleware, the
-- outermost, is Starlette's.
pub mod Answers
use mathlib.Core.Option
use ai_virtual_try_on.Prelude.{
  ℕ, String, Bool, true, false, ◌||◌, Option, none, some, List, [], ◌∷◌, ◌++◌, str_eq,
  if◌then◌else◌,
}
use ai_virtual_try_on.Errors as errors
use ai_virtual_try_on.Errors.{
  Error, text, retry_after, user_facing, http, integrity_error, file_not_found, value_error,
  type_error, stale_data_error, data_error, email_delivery_error, email_delivery_error, invalid_url,
  extraction_error,
}
use ai_virtual_try_on.BodySizeLimit.{
  Message, AppEnd, responded, client_disconnect, raised, Reply, response, too_large_413,
  propagates_disconnect, propagates_error, call,
}

abbrev pub Headers : Type 0
Headers = List (String × String)

-- `{"detail": message}`, the status and the detail of the health check, or a route's own body.
pub data Body : Type 0 where
  detail : errors.Message → Body
  report : String → Option String → Body
  content : List ℕ → Body

pub record Response : Type 0 where
  pub status : ℕ
  pub headers : Headers
  pub body : Body

-- A route's own answer, an exception, or ClientDisconnect while it reads the body.
pub data RouteEnd : Type 0 where
  answers : Response → RouteEnd
  raises : Error → RouteEnd
  disconnects : RouteEnd

abbrev pub json_detail : ℕ → errors.Message → Response
json_detail code message = record {
  status = code;
  headers = ("content-type", "application/json") ∷ [];
  body = detail message;
}

-- The headers of the HTTPException that the limiters raise (backend/app/api/tryon.py, auth.py and
-- extraction.py); `str(seconds)` is an argument. No other exception of the source has headers.
abbrev pub exception_headers : (ℕ → String) → errors.Message → Headers
exception_headers digits (retry_after seconds) = ("retry-after", digits seconds) ∷ []
exception_headers digits _ = []

-- Starlette sets the headers of the exception, then its own that are missing.
abbrev pub http_response : (ℕ → String) → ℕ → errors.Message → Response
http_response digits code message = record (json_detail code message) {
  headers = exception_headers digits message ++ ("content-type", "application/json") ∷ [];
}

abbrev pub unexpected : Response
unexpected = json_detail 500 (text "An unexpected error occurred.")

abbrev pub too_large : Response
too_large = json_detail 413 (text "The uploaded files are too large. Please use smaller images.")

-- The handlers of UserFacingError and HTTPException; what has none goes on.
unfoldable pub handle_exceptions : (ℕ → String) → RouteEnd → AppEnd Response
handle_exceptions digits (answers r) = responded r
handle_exceptions digits disconnects = client_disconnect
handle_exceptions digits (raises (user_facing message code)) = responded (json_detail code message)
handle_exceptions digits (raises (http code message)) =
    responded (http_response digits code message)
handle_exceptions digits (raises integrity_error) = raised
handle_exceptions digits (raises file_not_found) = raised
handle_exceptions digits (raises value_error) = raised
handle_exceptions digits (raises type_error) = raised
handle_exceptions digits (raises stale_data_error) = raised
handle_exceptions digits (raises data_error) = raised
handle_exceptions digits (raises email_delivery_error) = raised
handle_exceptions digits (raises invalid_url) = raised
handle_exceptions digits (raises (extraction_error message)) = raised

-- CatchUnhandledExceptionsMiddleware: `except Exception` catches ClientDisconnect too.
unfoldable pub catch_unhandled : AppEnd Response → AppEnd Response
catch_unhandled (responded r) = responded r
catch_unhandled client_disconnect = responded unexpected
catch_unhandled raised = responded unexpected

-- `response.headers[name] = value`: the first of that name is replaced, the others go.
abbrev pub without : String → Headers → Headers
without name [] = []
without name ((n, v) ∷ rest) =
    let rest' = without name rest in if str_eq n name then rest' else (n, v) ∷ rest'

unfoldable pub set_header : String → String → Headers → Headers
set_header name value [] = (name, value) ∷ []
set_header name value ((n, v) ∷ rest) =
    if str_eq n name then (n, value) ∷ without name rest else (n, v) ∷ set_header name value rest

abbrev pub api_csp : String
api_csp = "default-src 'none'; frame-ancestors 'none'; base-uri 'none'; form-action 'none'"

abbrev pub permissions_policy : String
permissions_policy =
    "camera=(), microphone=(), geolocation=(), payment=(), usb=(), magnetometer=(), gyroscope=(), interest-cohort=()"

abbrev pub is_csp_exempt : String → Bool
is_csp_exempt path =
    str_eq path "/docs" || str_eq path "/redoc" || str_eq path "/docs/oauth2-redirect"

abbrev pub fixed_headers : Headers → Headers
fixed_headers h = set_header "x-frame-options" "DENY" (
    set_header "permissions-policy" permissions_policy (
      set_header "referrer-policy" "strict-origin-when-cross-origin"
        (set_header "x-content-type-options" "nosniff" h)))

abbrev pub add_csp : String → Headers → Headers
add_csp path h = if is_csp_exempt path then h else set_header "content-security-policy" api_csp h

abbrev pub security_headers : String → Response → Response
security_headers path r = record r { headers = add_csp path (fixed_headers r.headers) }

-- What leaves the body limit, with the headers; none where an exception goes on.
abbrev pub with_headers : String → Reply Response → Option Response
with_headers path (response r) = some (security_headers path r)
with_headers path too_large_413 = some (security_headers path too_large)
with_headers path propagates_disconnect = none
with_headers path propagates_error = none

-- A request with its path, its declared length, the messages on the wire and how often the route
-- receives.
unfoldable pub serve :
    (ℕ → String)
    → ℕ
    → String
    → Option ℕ
    → List Message
    → ℕ
    → (List Message → RouteEnd)
    → Option Response
serve digits max_bytes path declared wire reads route = with_headers path (
    call max_bytes declared wire reads
      (λ got. catch_unhandled (handle_exceptions digits (route got))))

-- The route `/health`, for whether the database answers.
abbrev pub health : Bool → RouteEnd
health true = answers (record {
  status = 200;
  headers = ("content-type", "application/json") ∷ [];
  body = report "ok" none;
})
health false = answers (record {
  status = 503;
  headers = ("content-type", "application/json") ∷ [];
  body = report "error" (some "Database unreachable.");
})
