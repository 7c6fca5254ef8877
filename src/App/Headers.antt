-- ===== src/App/Headers.antt =====
-- What every response carries, whoever made it: the headers middleware of backend/app/main.py,
-- which stands outside the error envelope and the limiter.
use table_queue.Common.{
  ◌≡◌, refl, ◌∙◌, sym, ap, Bool, true, false, not, some, [], ◌∷◌, Text, codes, text_eq,
  text_eq_self, text_eq_iff, keep, Bool-cases, inl, inr, subst, ℕ, ◌&&◌,
}
use table_queue.Config.{AppSettings}
use table_queue.App.Routing.{Routes}
use table_queue.App.Middleware.{
  Headers, Request, Response, Outcome, Limiter, get_header, set_header, with_headers,
  add_security_headers, request_id_for, serve, AccessLine, access_line, is_api_json, error_envelope,
  limited, content_type, text_or_empty, set_if, named_headers, starts_with,
}

get_header-set_header_self :
    (name value : Text) (headers : Headers)
    → get_header name (set_header name value headers) ≡ some value
unfolding get_header set_header
get_header-set_header_self name value headers = rw (text_eq_self name) refl

get_header-keep :
    (name other : Text) (headers : Headers)
    → text_eq other name ≡ false
    → get_header name (keep (λ h. not (text_eq h.0 other)) headers) ≡ get_header name headers
unfolding get_header
get_header-keep name other [] h = refl
get_header-keep name other ((key, value) ∷ headers) h = elim (Bool-cases (text_eq key other)) [
  | inl same ↦
      rw (same, subst (λ k. text_eq k name ≡ false) (sym ((text_eq_iff key other).0 same)) h)
        (get_header-keep name other headers h)
  | inr else_ ↦ rw (else_, get_header-keep name other headers h) refl
]

-- Another header is left.
get_header-set_header_ne :
    (name other value : Text) (headers : Headers)
    → text_eq other name ≡ false
    → get_header name (set_header other value headers) ≡ get_header name headers
unfolding get_header set_header
get_header-set_header_ne name other value headers h = rw h (get_header-keep name other headers h)

get_header-set_if :
    (test : Bool) (name other value : Text) (headers : Headers)
    → text_eq other name ≡ false
    → get_header name (set_if test other value headers) ≡ get_header name headers
get_header-set_if true name other value headers h =
    get_header-set_header_ne name other value headers h
get_header-set_if false name other value headers h = refl

-- A header that none of the tests sets.
get_header-unset :
    (settings : AppSettings) (request : Request) (name : Text) (headers : Headers)
    → text_eq (codes "strict-transport-security") name ≡ false
    → text_eq (codes "cache-control") name ≡ false
    → text_eq (codes "content-security-policy-report-only") name ≡ false
    → get_header name (add_security_headers settings request headers)
      ≡ get_header name (named_headers headers)
unfolding add_security_headers
get_header-unset settings request name headers h k p =
    get_header-set_if settings.hsts_enabled name (codes "strict-transport-security") _ _ h
    ∙ get_header-set_if (is_api_json request headers) name (codes "cache-control") _ _ k
    ∙ get_header-set_if (starts_with (codes "text/html") (content_type headers)) name _ _ _ p

-- JSON of the API is not stored.
get_header-uncached :
    (settings : AppSettings) (request : Request) (headers : Headers)
    → is_api_json request headers ≡ true
    → get_header (codes "cache-control") (add_security_headers settings request headers)
      ≡ some (codes "no-store")
unfolding add_security_headers
get_header-uncached settings request headers json =
    get_header-set_if settings.hsts_enabled (codes "cache-control")
      (codes "strict-transport-security") _ _ refl
    ∙ rw json (get_header-set_header_self _ _ _)

-- What `response` carries, made of the answer `made` of the layers within.
pub record Carried (request : Request) (minted : Text) (made response : Response)
    (line : AccessLine) : Type 0 where
  pub names_request :
      get_header (codes "x-request-id") response.headers
      ≡ some (request_id_for request.request_id minted)
  pub sniffs_nothing :
      get_header (codes "x-content-type-options") response.headers ≡ some (codes "nosniff")
  pub framed_by_none : get_header (codes "x-frame-options") response.headers ≡ some (codes "DENY")
  pub uncached :
      is_api_json request made.headers ≡ true
      → get_header (codes "cache-control") response.headers ≡ some (codes "no-store")
  pub same_content : response.content ≡ made.content
  pub same_status : response.status_code ≡ made.status_code
  pub logged_status : line.status_code ≡ made.status_code
  pub logged_path : line.path ≡ request.path

-- Whatever the routes and the limiter make of a request, an escaping exception included, the
-- response keeps the status and the content of the inner answer, names the request id, forbids
-- sniffing and framing, and is not stored if it is JSON of the API; the access line has that
-- status and the path without the query.
pub serve-Carried :
    (settings : AppSettings) (limiter : Limiter) (full_match : ℕ → Bool) (routes : Routes)
    (request : Request) (minted : Text) (inner : Outcome)
    → Carried request minted
        (error_envelope (limited limiter full_match routes inner))
        (serve settings limiter full_match routes request minted inner).0
        (serve settings limiter full_match routes request minted inner).1
unfolding serve with_headers access_line
serve-Carried settings limiter full_match routes request minted inner = record {
  names_request =
      get_header-unset settings request (codes "x-request-id") _ refl refl refl
      ∙ get_header-set_header_ne (codes "x-request-id") (codes "referrer-policy") _ _ refl
      ∙ get_header-set_header_ne (codes "x-request-id") (codes "x-frame-options") _ _ refl
      ∙ get_header-set_header_ne (codes "x-request-id") (codes "x-content-type-options") _ _ refl
      ∙ get_header-set_header_self _ _ _;
  sniffs_nothing =
      get_header-unset settings request (codes "x-content-type-options") _ refl refl refl
      ∙ get_header-set_header_ne (codes "x-content-type-options") (codes "referrer-policy") _ _ refl
      ∙ get_header-set_header_ne (codes "x-content-type-options") (codes "x-frame-options") _ _ refl
      ∙ get_header-set_header_self _ _ _;
  uncached = λ json. get_header-uncached settings request _ (
      ap
        (λ t.
          starts_with (codes "/api/v1") request.path
          && starts_with (codes "application/json") (text_or_empty t))
        (get_header-set_header_ne (codes "content-type") (codes "x-request-id") _ _ refl)
      ∙ json);
  same_content = refl;
  same_status = refl;
  logged_status = refl;
  logged_path = refl;
  framed_by_none =
      get_header-unset settings request (codes "x-frame-options") _ refl refl refl
      ∙ get_header-set_header_ne (codes "x-frame-options") (codes "referrer-policy") _ _ refl
      ∙ get_header-set_header_self _ _ _;
}
