-- ===== src/Tests/Answers.antt =====
-- Answers of the whole stack.
use mathlib.Core.Option
use ai_virtual_try_on.Prelude.{ℕ, String, ◌≡◌, refl, none, some, List, [], ◌∷◌, ◌==◌, if◌then◌else◌}
use ai_virtual_try_on.BodySizeLimit.{
  Message, request, disconnect, other, limited_receive, receive, deliver, call,
}
use ai_virtual_try_on.Middleware.{
  Response, RouteEnd, answers, raises, disconnects, content, handle_exceptions, catch_unhandled,
  unexpected, security_headers, set_header, serve,
}
use ai_virtual_try_on.Errors.{value_error, http, retry_after}
use ai_virtual_try_on.Middleware.Answers.{get_header}

abbrev page : Response
page = record {
  status = 200;
  headers = ("x-frame-options", "SAMEORIGIN") ∷ ("etag", "7") ∷ [];
  body = content (1 ∷ 2 ∷ []);
}

-- Answers when it has seen the whole body, and stops when the client is gone.
abbrev route : List Message → RouteEnd
route [] = answers page
route (disconnect ∷ rest) = disconnects
route (request n ∷ rest) = route rest
route (other ∷ rest) = raises value_error

abbrev digits : ℕ → String
digits n = if n == 51 then "51" else "0"

abbrev upload : List Message
upload = request 60 ∷ request 60 ∷ []

-- The refusal of a limiter says when to try again.
limited_says_when :
    Option.map
      (λ (r : Response). get_header "retry-after" r.headers)
      (serve digits 200 "/docs" none [] 0 (λ got. raises (http 429 (retry_after 51))))
    ≡ some (some "51")
unfolding serve call deliver handle_exceptions catch_unhandled set_header
limited_says_when = refl

-- A body over the limit that declares no length: the route's ClientDisconnect is caught inside the
-- body limit, and the client gets 500 instead of 413.
overflow_is_500 :
    serve digits 100 "/api/try-on" none upload 2 route
    ≡ some (security_headers "/api/try-on" unexpected)
unfolding serve call deliver limited_receive receive handle_exceptions catch_unhandled set_header
overflow_is_500 = refl
