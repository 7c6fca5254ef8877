-- ===== src/App/Middleware.antt =====
-- The middleware of backend/app/main.py around the routes, from the outside in: the access log, the
-- headers, the error envelope and the rate limiter. Header names are in lower case, and a header
-- that is set replaces the one that was there.
use table_queue.Common.{
  ℕ, Bool, true, false, not, ◌&&◌, ◌||◌, Option, none, some, List, [], ◌∷◌, Text, codes, text_eq,
  ltb, strip, length, keep, ◌==◌, if◌then◌else◌,
}
use table_queue.Config.{AppSettings}
use table_queue.Auth.Credentials.{is_empty}
use table_queue.App.Routing.{Routes, resolve_route_handler}
use table_queue.ErrorHandlers.Render.{ErrorResponse, handle_generic_exception}

abbrev pub Headers : Type 0
Headers = List (Text × Text)

unfoldable pub get_header : Text → Headers → Option Text
get_header name [] = none
get_header name ((key, value) ∷ headers) =
    if text_eq key name then some value else get_header name headers

-- `response.headers[name] = value`
unfoldable pub set_header : Text → Text → Headers → Headers
set_header name value headers = (name, value) ∷ keep (λ h. not (text_eq h.0 name)) headers

-- The body is a route's own, or that of an error.
pub data Content : Type 0 where
  of_route : Text → Content
  of_error : ErrorResponse → Content

pub record Response : Type 0 where
  pub status_code : ℕ
  pub headers : Headers
  pub content : Content

pub record Request : Type 0 where
  pub method : Text
  pub path : Text
  pub query : Text
  pub client : Option Text
  pub request_id : Option Text

abbrev pub max_request_id_length : ℕ
max_request_id_length = 128

abbrev is_echoed : Text → Bool
is_echoed rid = not (is_empty rid || is_empty (strip rid) || ltb max_request_id_length (length rid))

-- `minted` is the `uuid4` of the response.
unfoldable pub request_id_for : Option Text → Text → Text
request_id_for none minted = minted
request_id_for (some rid) minted = if is_echoed rid then rid else minted

abbrev pub starts_with : Text → Text → Bool
starts_with [] s = true
starts_with (c ∷ prefix) [] = false
starts_with (c ∷ prefix) (d ∷ s) = c == d && starts_with prefix s

abbrev pub text_or_empty : Option Text → Text
text_or_empty none = []
text_or_empty (some t) = t

abbrev pub content_type : Headers → Text
content_type headers = text_or_empty (get_header (codes "content-type") headers)

abbrev pub is_api_json : Request → Headers → Bool
is_api_json request headers =
    starts_with (codes "/api/v1") request.path
    && starts_with (codes "application/json") (content_type headers)

-- `if test: response.headers[name] = value`
abbrev pub set_if : Bool → Text → Text → Headers → Headers
set_if test name value headers = if test then set_header name value headers else headers

abbrev pub named_headers : Headers → Headers
named_headers headers =
    set_header (codes "referrer-policy") (codes "strict-origin-when-cross-origin") (
      set_header (codes "x-frame-options") (codes "DENY")
        (set_header (codes "x-content-type-options") (codes "nosniff") headers))

unfoldable pub add_security_headers : AppSettings → Request → Headers → Headers
add_security_headers settings request headers =
    set_if settings.hsts_enabled (codes "strict-transport-security")
      (codes "max-age=31536000; includeSubDomains")
      (set_if (is_api_json request headers) (codes "cache-control") (codes "no-store") (
        set_if (starts_with (codes "text/html") (content_type headers))
          (codes "content-security-policy-report-only")
          (codes "default-src 'self'; base-uri 'self'; object-src 'none'; frame-ancestors 'none'")
          (named_headers headers)))

-- `HeadersMiddleware`
unfoldable pub with_headers : AppSettings → Request → Text → Response → Response
with_headers settings request minted response = record response {
  headers = add_security_headers settings request (
      set_header (codes "x-request-id") (request_id_for request.request_id minted)
        response.headers);
}

-- What the routes make of a request: an answer, or an exception that no handler took.
pub data Outcome : Type 0 where
  answers : Response → Outcome
  escapes : Outcome

abbrev json_headers : Headers
json_headers = (codes "content-type", codes "application/json") ∷ []

-- `ErrorEnvelopeMiddleware`
unfoldable pub error_envelope : Outcome → Response
error_envelope (answers response) = response
error_envelope escapes = record {
  status_code = handle_generic_exception.status_code;
  headers = json_headers;
  content = of_error handle_generic_exception;
}

-- What `MountedRouteLimiterMiddleware` asks of slowapi: whether it is on, whether a handler is
-- exempt, and the refusal of a handler whose budget is spent.
pub record Limiter : Type 0 where
  pub enabled : Bool
  pub should_exempt : Option ℕ → Bool
  pub check_limits : Option ℕ → Option Response

-- The budget's headers are not injected: `headers_enabled` is off.
unfoldable pub limited : Limiter → (ℕ → Bool) → Routes → Outcome → Outcome
limited limiter full_match routes inner =
    let handler = resolve_route_handler full_match routes in
    let refusal = limiter.check_limits handler in
    if not limiter.enabled || limiter.should_exempt handler
    then inner
    else (elim refusal [ none ↦ inner | some response ↦ answers response ])

pub record AccessLine : Type 0 where
  pub client : Text
  pub method : Text
  pub path : Text
  pub status_code : ℕ

-- `AccessLogMiddleware`: the line that it writes.
unfoldable pub access_line : Request → Response → AccessLine
access_line request response = record {
  client = elim request.client [ none ↦ codes "-" | some addr ↦ addr ];
  method = request.method;
  path = request.path;
  status_code = response.status_code;
}

unfoldable pub serve :
    AppSettings → Limiter → (ℕ → Bool) → Routes → Request → Text → Outcome → Response × AccessLine
unfolding with_headers error_envelope limited access_line
serve settings limiter full_match routes request minted inner =
    let response =
      with_headers settings request minted
        (error_envelope (limited limiter full_match routes inner)) in
    (response, access_line request response)
