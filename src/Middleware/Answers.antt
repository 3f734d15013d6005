-- ===== src/Middleware/Answers.antt =====
-- Every request is answered, with the headers, and nothing internal gets out.
use ai_virtual_try_on.Prelude.{
  ℕ, String, Bool, false, Option, none, some, List, [], ◌∷◌, ltb, str_eq, if◌then◌else◌,
}
use ai_virtual_try_on.Errors.{
  user_facing, http, integrity_error, file_not_found, value_error, type_error, stale_data_error,
  data_error, email_delivery_error, invalid_url, extraction_error,
}
use ai_virtual_try_on.BodySizeLimit.{Message, start, deliver}
use ai_virtual_try_on.Middleware.{
  Headers, Response, RouteEnd, answers, raises, disconnects, json_detail, http_response, unexpected,
  too_large, api_csp, permissions_policy, is_csp_exempt,
}

abbrev pub get_header : String → Headers → Option String
get_header name [] = none
get_header name ((n, v) ∷ rest) = if str_eq n name then some v else get_header name rest

-- What the caller should be told.
abbrev pub answer_to : (ℕ → String) → RouteEnd → Response
answer_to digits (answers r) = r
answer_to digits disconnects = unexpected
answer_to digits (raises (user_facing message code)) = json_detail code message
answer_to digits (raises (http code message)) = http_response digits code message
answer_to digits (raises integrity_error) = unexpected
answer_to digits (raises file_not_found) = unexpected
answer_to digits (raises value_error) = unexpected
answer_to digits (raises type_error) = unexpected
answer_to digits (raises stale_data_error) = unexpected
answer_to digits (raises data_error) = unexpected
answer_to digits (raises email_delivery_error) = unexpected
answer_to digits (raises invalid_url) = unexpected
answer_to digits (raises (extraction_error message)) = unexpected

abbrev pub is_declared_over : ℕ → Option ℕ → Bool
is_declared_over max_bytes none = false
is_declared_over max_bytes (some n) = ltb max_bytes n

-- A header of the answer, from what the route set it to.
abbrev pub fixed_header : String → Option String → Option String
fixed_header name own =
    if str_eq "x-frame-options" name
    then some "DENY"
    else if str_eq "permissions-policy" name
    then some permissions_policy
    else if str_eq "referrer-policy" name
    then some "strict-origin-when-cross-origin"
    else if str_eq "x-content-type-options" name
    then some "nosniff"
    else own

abbrev pub sent_header : String → String → Option String → Option String
sent_header path name own =
    if is_csp_exempt path
    then fixed_header name own
    else if str_eq "content-security-policy" name
    then some api_csp
    else fixed_header name own

-- What the caller is told: that the body is too large if its declared length is, and else the answer
-- of the route to the messages of the body that the limit lets through.
abbrev pub answer_for :
    (ℕ → String) → ℕ → Option ℕ → List Message → ℕ → (List Message → RouteEnd) → Response
answer_for digits max_bytes declared wire reads route =
    if is_declared_over max_bytes declared
    then too_large
    else answer_to digits (route (deliver max_bytes reads (start wire)).0)
